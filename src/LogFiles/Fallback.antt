-- ===== src/LogFiles/Fallback.antt =====
-- fallback/service.go, with the parsers of parsers/json.go: files of failed events are stored again on
-- demand. Two replays of one file are kept apart by a lock; metrics are left out.
pub mod Locks
pub mod Replayed
use eventnative.Base.{
  ℕ, Bool, true, false, not, ◌&&◌, Option, none, some, List, [], ◌∷◌, ◌++◌, ◌==◌, text_eq,
  if◌then◌else◌,
}
use eventnative.Base.Dict.{Dict, lookup, insert, erase}
use eventnative.Base.Result.{Result, ok, err}
use eventnative.Base.Text.{Text, codes, has_prefix}
use eventnative.Value.{Object, as_object}
use eventnative.Value.Objects as Objects
use eventnative.Adapters.Table.{is_nil}
use eventnative.Storages.Store.{StoreError, StoreResult}
use eventnative.LogFiles.{
  Status, FileSystem, StatusManager, get_tables_statuses, already_uploaded_tables, update_status,
  clean_up, ArchiveError, archive_by_path,
}

-- `Storage.StoreWithParseFunc` over the world of the node.
pub record ReplayHandle (World : Type 0) : Type 0 where
  pub name : Text
  pub store_with_parse_func :
      Text
      → Text
      → Dict Text Bool
      → (Text → Option Object)
      → World
      → Result StoreError (Dict Text StoreResult) × World

-- `get_storage_by_id` is the destination service's; a destination that is not initialized has no
-- handle. `extract_destination` is the pattern of file names, and `parse_json` is `ParseJson`.
pub record Service : Type 1 where
  pub files : FileSystem
  pub fallback_dir : Text
  pub archive_dir : Text
  pub extract_destination : Text → Option Text
  pub get_storage_by_id : Text → files.World → Option (Option (ReplayHandle files.World))
  pub message : StoreError → Text
  pub parse_json : Text → Option Object

pub data ReplayError : Type 0 where
  empty_name being_processed not_read malformed_name : ReplayError
  no_destination not_initialized : ReplayError
  store_failed : StoreError → ReplayError
  tables_failed : List StoreError → ReplayError

pub record FileStatus : Type 0 where
  pub file_name : Text
  pub destination_id : Text
  pub tables_status : Dict Text Status

module _ (V : Service) where
  open V use {
    files, fallback_dir, archive_dir, extract_destination, get_storage_by_id, message, parse_json,
  }

  -- `ParseFallbackJson`: the event of a failed event.
  unfoldable pub parse_fallback_json : Text → Option Object
  unfolding Objects.lookup as_object
  parse_fallback_json line = elim (parse_json line) [
    | none ↦ none
    | some o ↦ elim (Objects.lookup (codes "event") o) [ none ↦ none | some v ↦ as_object v ]
  ]

  pub record Replaying : Type 0 where
    pub world : FileSystem.World files
    pub manager : StatusManager
    pub locks : Dict Text Bool

  abbrev pub Step : Type 0
  Step = Replaying → Result {0, 0} ReplayError Unit × Replaying

  unfoldable pub error_text : Option StoreError → Option Text
  error_text none = none
  error_text (some e) = some (message e)

  unfoldable pub append_error : List StoreError → Option StoreError → List StoreError
  append_error errors none = errors
  append_error errors (some e) = errors ++ e ∷ []

  -- The loop over the results, with the errors so far.
  unfoldable pub save_results :
      Text
      → Text
      → Dict Text StoreResult
      → List StoreError × Replaying
      → List StoreError × Replaying
  unfolding update_status error_text append_error
  save_results file_name storage [] progress = progress
  save_results file_name storage ((table, result) ∷ results) (errors, s) =
      let (manager, w) =
        update_status files file_name storage table (error_text result.error) s.manager s.world in
      save_results file_name storage results
        (append_error errors result.error, record s { world = w; manager = manager })

  -- The statuses of a file go when it is archived; an error of the archiver is only logged.
  unfoldable pub archive_file : Text → Text → Replaying → Replaying
  unfolding archive_by_path clean_up
  archive_file file_name file_path s =
      let (r, w) = archive_by_path files archive_dir file_path s.world in
      elim r [
        | err e ↦ record s { world = w }
        | ok _ ↦
            let (manager, w') = clean_up files file_name s.manager w in
            record s { world = w'; manager = manager }
      ]

  unfoldable pub finish :
      Text → Text → List StoreError × Replaying → Result {0, 0} ReplayError Unit × Replaying
  unfolding archive_file
  finish file_name file_path ([], s) = (ok tt, archive_file file_name file_path s)
  finish file_name file_path (e ∷ errors, s) = (err (tables_failed (e ∷ errors)), s)

  -- The storage takes the file, but for the tables it has already.
  unfoldable pub replay_to :
      Text → Text → Text → (Text → Option Object) → ReplayHandle (FileSystem.World files) → Step
  unfolding save_results finish get_tables_statuses already_uploaded_tables
  replay_to file_name file_path payload parse storage s =
      let uploaded =
        already_uploaded_tables (get_tables_statuses s.manager file_name storage.name) in
      let (r, w) = storage.store_with_parse_func file_name payload uploaded parse s.world in
      elim r [
        | err e ↦ (err (store_failed e), record s { world = w })
        | ok results ↦
            finish file_name file_path
              (save_results file_name storage.name results ([], record s { world = w }))
      ]

  -- The destination is the one that is given, or that of the file's name.
  unfoldable pub find_destination : Text → Text → Option Text
  find_destination file_name [] = extract_destination file_name
  find_destination file_name (c ∷ id) = some (c ∷ id)

  -- Behind `GetStorageById` and `Get`.
  unfoldable pub replay_found :
      Text
      → Text
      → Text
      → (Text → Option Object)
      → Option (ReplayHandle (FileSystem.World files))
      → Step
  unfolding replay_to
  replay_found file_name file_path payload parse none s = (err not_initialized, s)
  replay_found file_name file_path payload parse (some storage) s =
      replay_to file_name file_path payload parse storage s

  unfoldable pub replay_file : Text → Text → Text → Bool → Step
  unfolding replay_found find_destination parse_fallback_json
  replay_file file_name file_path destination_id raw_file s =
      elim (files.read_file file_path s.world) [
        | none ↦ (err not_read, s)
        | some b ↦ elim (find_destination file_name destination_id) [
          | none ↦ (err malformed_name, s)
          | some id ↦ elim (get_storage_by_id id s.world) [
            | none ↦ (err no_destination, s)
            | some found ↦
                replay_found file_name file_path b
                  (if raw_file then parse_json else parse_fallback_json) found s
          ]
        ]
      ]

  -- `LoadOrStore`, with the deferred `Delete`.
  unfoldable pub with_file_lock : Text → Step → Step
  unfolding lookup insert erase
  with_file_lock file_name body s =
      let (r, s') = body (record s { locks = insert file_name true s.locks }) in
      elim (lookup file_name s.locks) [
        | some _ ↦ (err being_processed, s)
        | none ↦ (r, record s' { locks = erase file_name s'.locks })
      ]

  -- `Replay`
  unfoldable pub replay : Text → Text → Bool → Step
  unfolding with_file_lock replay_file has_prefix
  replay [] destination_id raw_file s = (err empty_name, s)
  replay (c ∷ name) destination_id raw_file s =
      if has_prefix (c ∷ name) (codes "/")
      then with_file_lock (files.base (c ∷ name))
          (replay_file (files.base (c ∷ name)) (c ∷ name) destination_id raw_file) s
      else with_file_lock (c ∷ name)
          (replay_file (c ∷ name) (files.join_path fallback_dir (c ∷ name)) destination_id raw_file)
          s

  -- The loop of `GetFileStatuses` over the paths that match the mask.
  unfoldable pub get_file_statuses :
      Dict Text Bool → List Text → Replaying → List FileStatus × Replaying
  unfolding is_nil lookup get_tables_statuses clean_up
  get_file_statuses filter [] s = ([], s)
  get_file_statuses filter (path ∷ paths) s =
      let file_name = files.base path in
      let (manager, w) = clean_up files file_name s.manager (files.remove path s.world).0 in
      let removed = get_file_statuses filter paths (record s { world = w; manager = manager }) in
      let (rest, s') = get_file_statuses filter paths s in
      elim (files.read_file path s.world) [
        | none ↦ (rest, s')
        | some [] ↦ removed
        | some (_ ∷ _) ↦ elim (extract_destination file_name) [
          | none ↦ (rest, s')
          | some id ↦
              if not (is_nil filter) && elim (lookup id filter) [ none ↦ true | some _ ↦ false ]
              then (rest, s')
              else (
                record {
                  file_name = file_name;
                  destination_id = id;
                  tables_status = get_tables_statuses s.manager file_name id;
                }
                    ∷ rest,
                s',
              )
        ]
      ]
