-- ===== src/LogFiles/Fallback/Locks.antt =====
-- The locks of files behind a replay.
use eventnative.Base.{
  ◌≡◌, refl, ◌∙◌, Bool, true, Option, none, some, List, [], ◌∷◌, text_eq, arith, Option-cases,
  Bool-cases, inl, inr,
}
use eventnative.Base.Dict.{Dict, lookup, insert, lookup-insert, lookup-erase}
use eventnative.Base.Result.{Result-cases}
use eventnative.Base.Text.{Text, codes, has_prefix}
use eventnative.Value.{Object}
use eventnative.Storages.Store.{StoreError, StoreResult}
use eventnative.LogFiles.{get_tables_statuses, already_uploaded_tables}
use eventnative.LogFiles.Fallback.{
  ReplayHandle, Service, Replaying, Step, save_results, archive_file, finish, replay_to,
  find_destination, replay_found, replay_file, with_file_lock, replay,
}

module _ (V : Service) where
  abbrev Untouched : Step V → Type 0
  Untouched step = (s : Replaying V) → (step s).1.locks ≡ s.locks

  save_results-locks :
      (file_name storage : Text) (results : Dict Text StoreResult) (errors : List StoreError)
      (s : Replaying V)
      → (save_results V file_name storage results (errors, s)).1.locks ≡ s.locks
  unfolding save_results
  save_results-locks file_name storage [] errors s = refl
  save_results-locks file_name storage ((table, result) ∷ results) errors s =
      save_results-locks file_name storage results _ _

  archive_file-locks :
      (file_name file_path : Text) (s : Replaying V)
      → (archive_file V file_name file_path s).locks ≡ s.locks
  unfolding archive_file
  archive_file-locks file_name file_path s = ground arith

  finish-locks :
      (file_name file_path : Text) (errors : List StoreError) (s : Replaying V)
      → (finish V file_name file_path (errors, s)).1.locks ≡ s.locks
  unfolding finish
  finish-locks file_name file_path [] s = archive_file-locks file_name file_path s
  finish-locks file_name file_path (e ∷ errors) s = refl

  replay_to-locks :
      (file_name file_path payload : Text) (parse : Text → Option Object)
      (storage : ReplayHandle V.files.World)
      → Untouched (replay_to V file_name file_path payload parse storage)
  unfolding replay_to
  replay_to-locks file_name file_path payload parse storage s =
      let uploaded =
        already_uploaded_tables (get_tables_statuses s.manager file_name storage.name) in
      let (r, w) = storage.store_with_parse_func file_name payload uploaded parse s.world in
      elim (Result-cases r) [
        | inr (e, failed) ↦ rw (replay_to, failed) refl
        | inl (results, good) ↦
            let (errors, s') =
              save_results V file_name storage.name results ([], record s { world = w }) in
            rw (replay_to, good)
              (finish-locks file_name file_path errors s'
                ∙ save_results-locks file_name storage.name results [] (record s { world = w }))
      ]

  replay_found-locks :
      (file_name file_path payload : Text) (parse : Text → Option Object)
      (found : Option (ReplayHandle V.files.World)) (s : Replaying V)
      → (replay_found V file_name file_path payload parse found s).1.locks ≡ s.locks
  unfolding replay_found
  replay_found-locks file_name file_path payload parse none s = refl
  replay_found-locks file_name file_path payload parse (some storage) s =
      replay_to-locks file_name file_path payload parse storage s

  replay_file-locks :
      (file_name file_path destination_id : Text) (raw_file : Bool)
      → Untouched (replay_file V file_name file_path destination_id raw_file)
  unfolding replay_file
  replay_file-locks file_name file_path destination_id raw_file s =
      elim (Option-cases (V.files.read_file file_path s.world)) [
        | inl lost ↦ rw (replay_file, lost) refl
        | inr (b, read) ↦ elim (Option-cases (find_destination V file_name destination_id)) [
          | inl malformed ↦ rw (replay_file, read) (rw (replay_file, malformed) refl)
          | inr (id, named) ↦ elim (Option-cases (V.get_storage_by_id id s.world)) [
            | inl nothing_found ↦
                rw (replay_file, read) (rw (replay_file, named) (rw nothing_found refl))
            | inr (found, is_some) ↦
                rw (replay_file, read)
                  (rw (replay_file, named)
                    (rw is_some (replay_found-locks file_name file_path b _ found s)))
          ]
        ]
      ]

  with_file_lock-locks :
      (file_name name : Text) (body : Step V) (s : Replaying V)
      → Untouched body
      → lookup name (with_file_lock V file_name body s).1.locks ≡ lookup name s.locks
  unfolding with_file_lock
  with_file_lock-locks file_name name body s h =
      let started : Replaying V = record s { locks = insert file_name true s.locks } in
      elim (Option-cases (lookup file_name s.locks)) [
        | inr (b, held) ↦ rw (with_file_lock, held) refl
        | inl is_free ↦
            rw (with_file_lock, is_free)
              (rw (h started) (
                ground (
                  arith,
                  lookup-erase name file_name (insert file_name true s.locks),
                  lookup-insert name file_name true s.locks,
                )))
      ]

  -- A replay leaves every file as locked, or as free, as it was, however it ends.
  pub replay-locks :
      (file_name destination_id : Text) (raw_file : Bool) (s : Replaying V) (name : Text)
      → lookup name (replay V file_name destination_id raw_file s).1.locks ≡ lookup name s.locks
  unfolding replay
  replay-locks [] destination_id raw_file s name = refl
  replay-locks (c ∷ file_name) destination_id raw_file s name =
      let full : Text = c ∷ file_name in
      let base_name = V.files.base full in
      let path = V.files.join_path V.fallback_dir full in
      elim (Bool-cases (has_prefix full (codes "/"))) [
        | inl absolute ↦
            rw (replay, absolute)
              (with_file_lock-locks base_name name
                (replay_file V base_name full destination_id raw_file) s
                (replay_file-locks base_name full destination_id raw_file))
        | inr local ↦
            rw (replay, local)
              (with_file_lock-locks full name (replay_file V full path destination_id raw_file) s
                (replay_file-locks full path destination_id raw_file))
      ]
