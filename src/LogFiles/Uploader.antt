-- ===== src/LogFiles/Uploader.antt =====
-- logfiles/uploader.go: one round over the log files. Metrics and counters are left out; a storage is
-- what its proxy gives at that time.
pub mod Archived
use eventnative.Base.{
  ℕ, Bool, true, false, ◌&&◌, Option, none, some, List, [], ◌∷◌, ◌++◌, ◌==◌, if◌then◌else◌,
}
use eventnative.Base.Dict.{Dict}
use eventnative.Base.Result.{Result, ok, err}
use eventnative.Base.Text.{Text}
use eventnative.Storages.Store.{StoreError, StoreResult}
use eventnative.LogFiles.{
  FileSystem, StatusManager, get_tables_statuses, already_uploaded_tables, update_status, clean_up,
  ArchiveError, archive_by_path,
}

-- `Storage.Store` over the world of the node, by the file's name, its bytes and the tables that are
-- uploaded: the results, or an error. The number of failed events is only counted.
pub record StorageHandle (World : Type 0) : Type 0 where
  pub name : Text
  pub store :
      Text → Text → Dict Text Bool → World → Result StoreError (Dict Text StoreResult) × World

-- `get_storages` is the destination service's, `StorageProxy.Get` with it; a proxy that is not ready
-- is `none`. The text of an error is `err.Error()`.
pub record Node : Type 1 where
  pub files : FileSystem
  pub incoming_dir : Text
  pub archive_dir : Text
  pub extract_token : Text → Option Text
  pub get_storages : Text → files.World → List (Option (StorageHandle files.World))
  pub message : StoreError → Text

module _ (N : Node) where
  open N use {files, incoming_dir, archive_dir, extract_token, get_storages, message}

  pub record Uploading : Type 0 where
    pub world : FileSystem.World files
    pub manager : StatusManager

  unfoldable pub error_text : Option StoreError → Option Text
  error_text none = none
  error_text (some e) = some (message e)

  unfoldable pub is_clean : Option StoreError → Bool
  is_clean none = true
  is_clean (some e) = false

  -- The loop over the results of one storage.
  unfoldable pub save_results :
      Text → Text → Dict Text StoreResult → Bool × Uploading → Bool × Uploading
  unfolding update_status error_text is_clean
  save_results file_name storage [] progress = progress
  save_results file_name storage ((table, result) ∷ results) (archive_file, u) =
      let (manager, w) =
        update_status files file_name storage table (error_text result.error) u.manager u.world in
      save_results file_name storage results
        (archive_file && is_clean result.error, record { world = w; manager = manager })

  -- One storage: `archiveFile` becomes false when it is not ready, fails, or fails for a table.
  unfoldable pub upload_to :
      Text
      → Text
      → Option (StorageHandle (FileSystem.World files))
      → Bool × Uploading
      → Bool × Uploading
  unfolding save_results get_tables_statuses already_uploaded_tables
  upload_to file_name payload none (archive_file, u) = (false, u)
  upload_to file_name payload (some storage) (archive_file, u) =
      let uploaded =
        already_uploaded_tables (get_tables_statuses u.manager file_name storage.name) in
      let (r, w) = storage.store file_name payload uploaded u.world in
      elim r [
        | err e ↦ (false, record u { world = w })
        | ok results ↦
            save_results file_name storage.name results (archive_file, record u { world = w })
      ]

  unfoldable pub upload_to_all :
      Text
      → Text
      → List (Option (StorageHandle (FileSystem.World files)))
      → Bool × Uploading
      → Bool × Uploading
  unfolding upload_to
  upload_to_all file_name payload [] progress = progress
  upload_to_all file_name payload (proxy ∷ proxies) progress =
      upload_to_all file_name payload proxies (upload_to file_name payload proxy progress)

  -- The statuses of a file go when it is archived; an error of the archiver is logged.
  unfoldable pub archive_file : Text → Uploading → Uploading
  unfolding archive_by_path clean_up
  archive_file file_name u =
      let (r, w) =
        archive_by_path files archive_dir (files.join_path incoming_dir file_name) u.world in
      elim r [
        | err e ↦ record u { world = w }
        | ok _ ↦
            let (manager, w') = clean_up files file_name u.manager w in
            record { world = w'; manager = manager }
      ]

  -- Behind the guards: a file whose storages are known.
  unfoldable pub upload_payload :
      Text → Text → List (Option (StorageHandle (FileSystem.World files))) → Uploading → Uploading
  unfolding upload_to_all archive_file
  upload_payload file_name payload proxies u =
      let (archive, u') = upload_to_all file_name payload proxies (true, u) in
      if archive then archive_file file_name u' else u'

  -- One file: one that cannot be read, has a malformed name, or has no storage is left; an empty one
  -- is removed.
  unfoldable pub upload_file : Text → Uploading → Uploading
  unfolding upload_payload
  upload_file file_path u =
      let file_name = files.base file_path in
      elim (files.read_file file_path u.world) [
        | none ↦ u
        | some [] ↦ record u { world = (files.remove file_path u.world).0 }
        | some (c ∷ payload) ↦ elim (extract_token file_name) [
          | none ↦ u
          | some token ↦ elim (get_storages token u.world) [
            | [] ↦ u
            | proxy ∷ proxies ↦ upload_payload file_name (c ∷ payload) (proxy ∷ proxies) u
          ]
        ]
      ]

  -- The loop over the files of a round.
  unfoldable pub upload_files : List Text → Uploading → Uploading
  unfolding upload_file
  upload_files [] u = u
  upload_files (path ∷ paths) u = upload_files paths (upload_file path u)
