-- ===== src/LogFiles/Once.antt =====
-- A table of a file is stored once.
use eventnative.Base.{
  ◌≡◌, ◌⊎◌, ◌==◌, ==_true, refl, sym, ◌∙◌, true, false, Option, none, some, List, [], ◌∷◌, text_eq,
  arith, Option-cases, Bool-cases, inl, inr, if◌then◌else◌,
}
use eventnative.Base.Dict.{Dict, lookup, insert, lookup-insert, NodupKeys, insert-NodupKeys}
use eventnative.Base.Lists.{All}
use eventnative.Base.Result.{ok}
use eventnative.Base.Text.{Text}
use eventnative.Value.{Object}
use eventnative.Typing.{GoLibrary}
use eventnative.Schema.Processor.{Processor, FailedEvent, Files, process_file_payload}
use eventnative.Schema.Processor.Sound.{process_file_payload-IsSound}
use eventnative.LogFiles.{
  Status, StorageStatuses, StatusManager, of_file, of_storage, get_tables_statuses, status_of,
  put_status, already_uploaded_tables,
}

of_file-insert :
    (file_name : Text) (s : StorageStatuses) (statuses : Dict Text StorageStatuses)
    → of_file file_name (insert file_name s statuses) ≡ s
unfolding of_file
of_file-insert file_name s statuses = ground (arith, lookup-insert file_name file_name s statuses)

of_storage-insert :
    (storage : Text) (s : Dict Text Status) (statuses : StorageStatuses)
    → of_storage storage (insert storage s statuses) ≡ s
unfolding of_storage
of_storage-insert storage s statuses = ground (arith, lookup-insert storage storage s statuses)

get_tables_statuses-put_status :
    (sm : StatusManager) (file_name storage table : Text) (error : Option Text)
    → get_tables_statuses (put_status sm file_name storage table error) file_name storage
      ≡ insert table (status_of error) (get_tables_statuses sm file_name storage)
unfolding get_tables_statuses put_status
get_tables_statuses-put_status sm file_name storage table error =
    let per_storage = of_file file_name sm.statuses in
    let per_table = insert table (status_of error) (of_storage storage per_storage) in
    rw (of_file-insert file_name (insert storage per_table per_storage) sm.statuses)
      (of_storage-insert storage per_table per_storage)

some-ne-none : {A : Type 0} {a : A} → ◌≡◌ {A = Option A} (some a) none → ⊥
some-ne-none h = cc

lookup-already_uploaded_tables :
    (statuses : Dict Text Status) (table : Text)
    → NodupKeys statuses
    → lookup table (already_uploaded_tables statuses) ≡ elim (lookup table statuses) [
      | none ↦ none
      | some status ↦ if status.uploaded then some true else none
    ]
unfolding already_uploaded_tables lookup
lookup-already_uploaded_tables [] table u = refl
lookup-already_uploaded_tables ((t, status) ∷ statuses) table (fresh, u) =
    let rest = already_uploaded_tables statuses in
    elim (Bool-cases status.uploaded) [
      | inl done ↦
          ground (
            arith,
            lookup-already_uploaded_tables statuses table u,
            lookup-insert table t true rest,
          )
      | inr not_done ↦ ground (arith, lookup-already_uploaded_tables statuses table u)
    ]

uploaded_at :
    (table : Text) (error : Option Text) (before : Dict Text Status)
    → (elim (lookup table (insert table (status_of error) before)) [
      | none ↦ none
      | some status ↦ if status.uploaded then some true else none
    ])
      ≡ elim error [ none ↦ some true | some message ↦ none ]
unfolding status_of
uploaded_at table none before = ground (arith, lookup-insert table table (status_of none) before)
uploaded_at table (some m) before =
    ground (arith, lookup-insert table table (status_of (some m)) before)

-- The statuses that a file has for a storage hold each table once, which is so of a Go map. Behind the
-- result of a table, the set of uploaded tables that the next upload of the file is given to the
-- same storage has the table when the result had no error, and has it not when it had one.
pub already_uploaded_tables-put_status :
    (sm : StatusManager) (file_name storage table : Text) (error : Option Text)
    → NodupKeys (get_tables_statuses sm file_name storage)
    → lookup table (
        already_uploaded_tables
          (get_tables_statuses (put_status sm file_name storage table error) file_name storage))
      ≡ elim error [ none ↦ some true | some message ↦ none ]
already_uploaded_tables-put_status sm file_name storage table error unique =
    let before = get_tables_statuses sm file_name storage in
    rw (get_tables_statuses-put_status sm file_name storage table error) (
      lookup-already_uploaded_tables (insert table (status_of error) before) table
        (insert-NodupKeys table (status_of error) before unique)
      ∙ uploaded_at table error before)

-- A result that is saved.
pub record Update : Type 0 where
  pub file_name : Text
  pub storage : Text
  pub table : Text
  pub error : Option Text

abbrev pub put_statuses : List Update → StatusManager → StatusManager
put_statuses [] sm = sm
put_statuses (u ∷ updates) sm =
    put_statuses updates (put_status sm u.file_name u.storage u.table u.error)

-- No update is a failure of this table.
abbrev pub NoFailure : Text → Text → Text → List Update → Type 0
NoFailure file_name storage table updates =
    All
      (λ u.
        ((file_name == u.file_name) ≡ false)
        ⊎ ((storage == u.storage) ≡ false)
        ⊎ ((table == u.table) ≡ false)
        ⊎ (u.error ≡ none))
      updates

module _ (file_name storage table : Text) where
  -- The table of the file is marked as uploaded to the storage.
  abbrev Marked : StatusManager → Type 0
  Marked sm =
      NodupKeys (get_tables_statuses sm file_name storage)
      × ((status : Status) × (lookup table (get_tables_statuses sm file_name storage) ≡ some status)
          × (status.uploaded ≡ true))

  get_tables_statuses-other_file :
      (sm : StatusManager) (u : Update)
      → (file_name == u.file_name) ≡ false
      → get_tables_statuses (put_status sm u.file_name u.storage u.table u.error) file_name storage
        ≡ get_tables_statuses sm file_name storage
  unfolding get_tables_statuses put_status of_file
  get_tables_statuses-other_file sm u differ =
      let per_storage = of_file u.file_name sm.statuses in
      let per_table = insert u.table (status_of u.error) (of_storage u.storage per_storage) in
      ground (
        arith,
        lookup-insert file_name u.file_name (insert u.storage per_table per_storage) sm.statuses,
      )

  get_tables_statuses-other_storage :
      (sm : StatusManager) (s t : Text) (error : Option Text)
      → (storage == s) ≡ false
      → get_tables_statuses (put_status sm file_name s t error) file_name storage
        ≡ get_tables_statuses sm file_name storage
  unfolding get_tables_statuses put_status of_storage
  get_tables_statuses-other_storage sm s t error differ =
      let per_storage = of_file file_name sm.statuses in
      let per_table = insert t (status_of error) (of_storage s per_storage) in
      rw (of_file-insert file_name (insert s per_table per_storage) sm.statuses)
        (ground (arith, lookup-insert storage s per_table per_storage))

  marked_at :
      (t : Text) (error : Option Text) (status : Status) (before : Dict Text Status)
      → ((table == t) ≡ false) ⊎ (error ≡ none)
      → lookup table before ≡ some status
      → status.uploaded ≡ true
      → (s : Status) × (lookup table (insert t (status_of error) before) ≡ some s)
        × (s.uploaded ≡ true)
  unfolding status_of
  marked_at t error status before harmless found uploaded =
      let at = lookup-insert table t (status_of error) before in
      elim (Bool-cases (table == t)) [
        | inl same ↦ (status_of error, ground (arith, at), ground arith)
        | inr differ ↦ (status, ground (arith, at), uploaded)
      ]

  put_status-Marked_here :
      (sm : StatusManager) (t : Text) (error : Option Text)
      → ((table == t) ≡ false) ⊎ (error ≡ none)
      → Marked sm
      → Marked (put_status sm file_name storage t error)
  put_status-Marked_here sm t error harmless (unique, (status, found, uploaded)) =
      let before = get_tables_statuses sm file_name storage in
      rw (get_tables_statuses-put_status sm file_name storage t error) (
        insert-NodupKeys t (status_of error) before unique,
        marked_at t error status before harmless found uploaded,
      )

  put_status-Marked :
      (sm : StatusManager) (u : Update)
      → NoFailure file_name storage table (u ∷ [])
      → Marked sm
      → Marked (put_status sm u.file_name u.storage u.table u.error)
  put_status-Marked sm u (harmless, _) marked = elim (Bool-cases (file_name == u.file_name)) [
    | inr other ↦ rw (get_tables_statuses-other_file sm u other) marked
    | inl same ↦ elim (Bool-cases (storage == u.storage)) [
      | inr other ↦
          let at_file : u.file_name ≡ file_name = sym (==_true same) in
          rw at_file
            (rw (get_tables_statuses-other_storage sm u.storage u.table u.error other) marked)
      | inl same' ↦
          let at_file : u.file_name ≡ file_name = sym (==_true same) in
          let at_storage : u.storage ≡ storage = sym (==_true same') in
          rw (at_file, at_storage)
            (put_status-Marked_here sm u.table u.error (here same same' harmless) marked)
    ]
  ]
    where
      here :
          (file_name == u.file_name) ≡ true
          → (storage == u.storage) ≡ true
          → ((file_name == u.file_name) ≡ false)
            ⊎ ((storage == u.storage) ≡ false)
            ⊎ ((table == u.table) ≡ false)
            ⊎ (u.error ≡ none)
          → ((table == u.table) ≡ false) ⊎ (u.error ≡ none)
      here a b (inl n) = absurd (ground arith)
      here a b (inr (inl n)) = absurd (ground arith)
      here a b (inr (inr r)) = r

  put_statuses-Marked :
      (updates : List Update) (sm : StatusManager)
      → NoFailure file_name storage table updates
      → Marked sm
      → Marked (put_statuses updates sm)
  put_statuses-Marked [] sm h marked = marked
  put_statuses-Marked (u ∷ updates) sm (harmless, h) marked =
      put_statuses-Marked updates (put_status sm u.file_name u.storage u.table u.error) h
        (put_status-Marked sm u (harmless, tt) marked)

  Marked-uploaded :
      (sm : StatusManager)
      → Marked sm
      → lookup table (already_uploaded_tables (get_tables_statuses sm file_name storage))
        ≡ some true
  Marked-uploaded sm (unique, (status, found, uploaded)) =
      let eq =
        lookup-already_uploaded_tables (get_tables_statuses sm file_name storage) table unique in
      ground (arith, eq)

  -- The statuses that a file has for a storage hold each table once, which is so of a Go map. A table of
  -- a file that was stored without an error is not stored from that file again: whatever results of
  -- other tables, storages and files are saved behind it, as long as none is a failure of this table
  -- of this file in this storage, the next upload of the file to the storage processes no row into
  -- the table, whatever the payload then is.
  pub put_status-once :
      (go : GoLibrary) (p : Processor) (sm : StatusManager) (updates : List Update) (payload : Text)
      (parse : Text → Option Object) (files : Files) (failed : List FailedEvent)
      → NodupKeys (get_tables_statuses sm file_name storage)
      → NoFailure file_name storage table updates
      → process_file_payload go p file_name
          (already_uploaded_tables (
            get_tables_statuses
              (put_statuses updates (put_status sm file_name storage table none))
              file_name
              storage))
          parse
          payload
        ≡ ok (files, failed)
      → lookup table files ≡ none
  unfolding status_of
  put_status-once go p sm updates payload parse files failed unique harmless processed =
      let before = get_tables_statuses sm file_name storage in
      let started : Marked (put_status sm file_name storage table none) =
        rw (get_tables_statuses-put_status sm file_name storage table none) (
          insert-NodupKeys table (status_of none) before unique,
          (status_of none, ground (arith, lookup-insert table table (status_of none) before), refl),
        ) in
      let last = put_statuses updates (put_status sm file_name storage table none) in
      let marked = Marked-uploaded last (put_statuses-Marked updates _ harmless started) in
      let uploaded = already_uploaded_tables (get_tables_statuses last file_name storage) in
      elim (Option-cases (lookup table files)) [
        | inl no_file ↦ no_file
        | inr (f, found) ↦
            let (_, fresh) =
              process_file_payload-IsSound go p file_name uploaded parse payload files failed table
                f processed found in
            absurd (some-ne-none (sym marked ∙ fresh))
      ]
