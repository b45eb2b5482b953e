-- ===== src/LogFiles.antt =====
-- logfiles/status_manager.go and logfiles/archiver.go: what became of the tables of a log file, and how
-- a file is archived. The file system, gzip and regular expressions are interfaces. `Uploader` and
-- `Replay` drive the storages.
pub mod Once
pub mod Uploader
pub mod Fallback
use eventnative.Base.{
  ℕ, Bool, true, false, Option, none, some, List, [], ◌∷◌, ◌++◌, ◌==◌, text_eq, if◌then◌else◌,
}
use eventnative.Base.Dict.{Dict, lookup, insert, erase}
use eventnative.Base.Result.{Result, ok, err}
use eventnative.Base.Text.{Text, codes, split_text}

pub record Status : Type 0 where
  pub uploaded : Bool
  pub error : Text

-- By storage and table.
abbrev pub StorageStatuses : Type 0
StorageStatuses = Dict Text (Dict Text Status)

-- What is read of a status file.
pub data StatusFile : Type 0 where
  unreadable no_bytes malformed : StatusFile
  parsed : StorageStatuses → StatusFile

-- `filepath.Base`, the rest of `os`, the encodings, and the pattern of dates in file names.
pub record FileSystem : Type 1 where
  pub World : Type 0
  pub base : Text → Text
  pub join_path : Text → Text → Text
  pub read_file : Text → World → Option Text
  pub write_file : Text → Text → World → World × Bool
  pub remove : Text → World → World × Bool
  pub mkdir : Text → World → World
  pub marshal_statuses : StorageStatuses → Option Text
  pub gzip : Text → Option Text
  pub extract_date : Text → Option Text

-- The statuses by the name of the log file, and the world.
pub record StatusManager : Type 0 where
  pub files_dir : Text
  pub statuses : Dict Text StorageStatuses

-- The loop of `NewStatusManager`; the log file's name stands before the extension.
unfoldable pub log_name : Text → Text
unfolding split_text
log_name name = elim (split_text name (codes ".status")) [ [] ↦ [] | first ∷ _ ↦ first ]

unfoldable pub load_statuses :
    List (Text × StatusFile) → Dict Text StorageStatuses → Dict Text StorageStatuses
unfolding log_name insert
load_statuses [] statuses = statuses
load_statuses ((name, unreadable) ∷ files) statuses = load_statuses files statuses
load_statuses ((name, no_bytes) ∷ files) statuses =
    load_statuses files (insert (log_name name) [] statuses)
load_statuses ((name, malformed) ∷ files) statuses =
    load_statuses files (insert (log_name name) [] statuses)
load_statuses ((name, parsed s) ∷ files) statuses =
    load_statuses files (insert (log_name name) s statuses)

unfoldable pub of_file : Text → Dict Text StorageStatuses → StorageStatuses
unfolding lookup
of_file file_name statuses = elim (lookup file_name statuses) [ none ↦ [] | some s ↦ s ]

unfoldable pub of_storage : Text → StorageStatuses → Dict Text Status
unfolding lookup
of_storage storage statuses = elim (lookup storage statuses) [ none ↦ [] | some s ↦ s ]

-- `GetTablesStatuses`
unfoldable pub get_tables_statuses : StatusManager → Text → Text → Dict Text Status
unfolding of_file of_storage
get_tables_statuses sm file_name storage = of_storage storage (of_file file_name sm.statuses)

-- The status of a result: an error is its text.
unfoldable pub status_of : Option Text → Status
status_of none = record { uploaded = true; error = [] }
status_of (some message) = record { uploaded = false; error = message }

-- `UpdateStatus`, in memory.
unfoldable pub put_status : StatusManager → Text → Text → Text → Option Text → StatusManager
unfolding of_file of_storage insert status_of
put_status sm file_name storage table error =
    let per_storage = of_file file_name sm.statuses in
    let per_table = insert table (status_of error) (of_storage storage per_storage) in
    record sm { statuses = insert file_name (insert storage per_table per_storage) sm.statuses }

-- The tables that the status of a file marks as uploaded.
unfoldable pub already_uploaded_tables : Dict Text Status → Dict Text Bool
unfolding insert
already_uploaded_tables [] = []
already_uploaded_tables ((table, status) ∷ statuses) =
    let rest = already_uploaded_tables statuses in
    if status.uploaded then insert table true rest else rest

pub data ArchiveError : Type 0 where
  not_read not_compressed not_written not_removed : ArchiveError

module _ (F : FileSystem) where
  abbrev status_path : StatusManager → Text → Text
  status_path sm file_name = F.join_path sm.files_dir (file_name ++ codes ".status")

  -- `persist`: errors are logged.
  unfoldable pub persist : StatusManager → Text → F.World → F.World
  unfolding of_file
  persist sm file_name w = elim (F.marshal_statuses (of_file file_name sm.statuses)) [
    | none ↦ w
    | some b ↦ (F.write_file (status_path sm file_name) b w).0
  ]

  -- `UpdateStatus`
  unfoldable pub update_status :
      Text → Text → Text → Option Text → StatusManager → F.World → StatusManager × F.World
  unfolding put_status persist
  update_status file_name storage table error sm w =
      let sm' = put_status sm file_name storage table error in (sm', persist sm' file_name w)

  -- `CleanUp`
  unfoldable pub clean_up : Text → StatusManager → F.World → StatusManager × F.World
  unfolding erase
  clean_up file_name sm w = (
    record sm { statuses = erase file_name sm.statuses },
    (F.remove (status_path sm file_name) w).0,
  )

  -- The directory of an archived file is that of its date.
  unfoldable pub output_dir : Text → Text → F.World → Text × F.World
  output_dir archive_dir source_path w = elim (F.extract_date source_path) [
    | none ↦ (archive_dir, w)
    | some date ↦ let dir = F.join_path archive_dir date in (dir, F.mkdir dir w)
  ]

  -- `ArchiveByPath`: the compressed copy is written before the file is removed.
  unfoldable pub archive_by_path : Text → Text → F.World → Result {0, 0} ArchiveError Unit × F.World
  unfolding output_dir
  archive_by_path archive_dir source_path w = elim (F.read_file source_path w) [
    | none ↦ (err not_read, w)
    | some b ↦ elim (F.gzip b) [
      | none ↦ (err not_compressed, w)
      | some packed ↦
          let (dir, w1) = output_dir archive_dir source_path w in
          let (w2, written) =
            F.write_file (F.join_path dir (F.base source_path ++ codes ".gz")) packed w1 in
          let (w3, removed) = F.remove source_path w2 in
          if written
          then if removed then (ok tt, w3) else (err not_removed, w3)
          else (err not_written, w2)
    ]
  ]
