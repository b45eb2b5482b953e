-- ===== src/Sources/Service.antt =====
-- sources/service.go: the tasks of a source are started, one for each collection, behind a lock. The
-- pool of goroutines runs a task some time after it has taken it; here the tasks run in the order in
-- which it took them. `closed` and the metrics of the pool are left out.
pub mod Locks
use eventnative.Base.{text_eq, Option, none, some, List, [], ◌∷◌, ◌++◌}
use eventnative.Base.Action.{Action, Effect}
use eventnative.Base.Dict.{Dict, lookup, insert}
use eventnative.Base.Result.{Result, ok, err}
use eventnative.Base.Text.{Text, codes}

pub record SourceUnit (Driver : Type 0) : Type 0 where
  pub driver_per_collection : Dict Text Driver
  pub destination_ids : List Text

-- The parts of a `SyncTask` that differ between the tasks of a service.
pub record Task (Driver Storage Lock : Type 0) : Type 0 where
  pub source_id : Text
  pub collection : Text
  pub identifier : Text
  pub driver : Driver
  pub destinations : List Storage
  pub held_lock : Lock

-- The monitor keeper, the pool, the destination service (a destination that is not initialized has no
-- storage), the meta storage, and `SyncTask.Sync`, which keeps its errors to itself.
pub record Cluster : Type 1 where
  pub Driver : Type 0
  pub Storage : Type 0
  pub Lock : Type 0
  pub World : Type 0
  pub lock : Text → Text → Action World Text Lock
  pub unlock : Lock → World → World
  pub invoke : Task Driver Storage Lock → Effect World Text
  pub get_storage_by_id : Text → World → Option (Option Storage)
  pub get_collection_status : Text → Text → Action World Text Text
  pub get_collection_log : Text → Text → Action World Text Text
  pub run_sync : Task Driver Storage Lock → World → World

pub data SyncError : Type 0 where
  no_source no_destinations : SyncError
  lock_failed not_started : Text → SyncError

module _ (K : Cluster) where
  open K use {
    Driver, Storage, Lock, World, lock, unlock, invoke, get_storage_by_id, get_collection_status,
    get_collection_log, run_sync,
  }

  -- The destinations of a source that exist and are initialized.
  unfoldable pub ready_storages : List Text → World → List Storage
  ready_storages [] w = []
  ready_storages (id ∷ ids) w =
      let rest = ready_storages ids w in
      elim (get_storage_by_id id w) [
        | none ↦ rest
        | some found ↦ elim found [ none ↦ rest | some storage ↦ storage ∷ rest ]
      ]

  -- The errors so far, the tasks that the pool has taken, and the world.
  pub record Starting : Type 0 where
    pub multi_err : List SyncError
    pub tasks : List (Task Driver Storage Lock)
    pub world : World

  unfoldable pub append_error : SyncError → World → Starting → Starting
  append_error e w s = record s { multi_err = s.multi_err ++ e ∷ []; world = w }

  unfoldable pub start_collection : Text → List Storage → Text × Driver → Starting → Starting
  unfolding append_error
  start_collection source_id storages (collection, driver) s =
      let (locked, w) = lock source_id collection s.world in
      elim locked [
        | err e ↦ append_error (lock_failed e) w s
        | ok l ↦
            let task : Task Driver Storage Lock = record {
              source_id = source_id;
              collection = collection;
              identifier = source_id ++ (codes "_" ++ collection);
              driver = driver;
              destinations = storages;
              held_lock = l;
            } in
            let (started, w') = invoke task w in
            elim started [
              | err e ↦ append_error (not_started e) w' s
              | ok _ ↦ record s { tasks = s.tasks ++ task ∷ []; world = w' }
            ]
      ]

  unfoldable pub start_collections : Text → List Storage → Dict Text Driver → Starting → Starting
  unfolding start_collection
  start_collections source_id storages [] s = s
  start_collections source_id storages (c ∷ collections) s =
      start_collections source_id storages collections (start_collection source_id storages c s)

  unfoldable pub sync_with : Text → SourceUnit Driver → List Storage → Starting → Starting
  unfolding start_collections append_error
  sync_with source_id unit [] s = append_error no_destinations s.world s
  sync_with source_id unit (d ∷ storages) s =
      start_collections source_id (d ∷ storages) unit.driver_per_collection s

  -- `Sync` of the service.
  unfoldable pub sync_source : Dict Text (SourceUnit Driver) → Text → Starting → Starting
  unfolding lookup sync_with ready_storages append_error
  sync_source sources source_id s = elim (lookup source_id sources) [
    | none ↦ append_error no_source s.world s
    | some unit ↦ sync_with source_id unit (ready_storages unit.destination_ids s.world) s
  ]

  -- `syncCollection`: what the pool does with a task.
  unfoldable pub sync_collection : Task Driver Storage Lock → World → World
  sync_collection task w = unlock task.held_lock (run_sync task w)

  unfoldable pub run_tasks : List (Task Driver Storage Lock) → World → World
  unfolding sync_collection
  run_tasks [] w = w
  run_tasks (task ∷ tasks) w = run_tasks tasks (sync_collection task w)

  -- The loops of `GetStatus` and `GetLogs`.
  unfoldable pub read_collections :
      (Text → Action World Text Text)
      → Dict Text Driver
      → Dict Text Text
      → Action World Text (Dict Text Text)
  unfolding insert
  read_collections read [] answers w = (ok answers, w)
  read_collections read ((collection, _) ∷ collections) answers w =
      let (r, w') = read collection w in
      elim r [
        | err e ↦ (err e, w')
        | ok answer ↦ read_collections read collections (insert collection answer answers) w'
      ]

  -- `GetStatus` and `GetLogs`; a source that does not exist is `none`.
  unfoldable pub get_status :
      Dict Text (SourceUnit Driver) → Text → World → Option (Result Text (Dict Text Text)) × World
  unfolding lookup read_collections
  get_status sources source_id w = elim (lookup source_id sources) [
    | none ↦ (none, w)
    | some unit ↦
        let (r, w') =
          read_collections (get_collection_status source_id) unit.driver_per_collection [] w in
        (some r, w')
  ]

  unfoldable pub get_logs :
      Dict Text (SourceUnit Driver) → Text → World → Option (Result Text (Dict Text Text)) × World
  unfolding lookup read_collections
  get_logs sources source_id w = elim (lookup source_id sources) [
    | none ↦ (none, w)
    | some unit ↦
        let (r, w') =
          read_collections (get_collection_log source_id) unit.driver_per_collection [] w in
        (some r, w')
  ]
