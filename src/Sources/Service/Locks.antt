-- ===== src/Sources/Service/Locks.antt =====
-- The locks of the collections of a source (sources/service.go).
use mathlib.Core.List.{append_assoc, append-nil}
use mathlib.Core.Path.{subst}
use eventnative.Base.{
  ℕ, suc, ◌+◌, ◌≡◌, refl, sym, ◌∙◌, List, [], ◌∷◌, ◌++◌, map, text_eq, Option-cases, inl, inr,
  arith,
}
use eventnative.Base.Dict.{Dict, lookup}
use eventnative.Base.Result.{ok, err, Result-cases}
use eventnative.Base.Text.{Text, codes}
use eventnative.Sources.Service.{
  SourceUnit, Task, Cluster, SyncError, no_source, no_destinations, lock_failed, not_started,
  Starting, ready_storages, append_error, start_collection, start_collections, sync_with,
  sync_source, sync_collection, run_tasks,
}

-- The errors of collections that were locked and whose task the pool refused.
abbrev pub refused : List SyncError → ℕ
refused [] = 0
refused (not_started _ ∷ errors) = suc (refused errors)
refused (no_source ∷ errors) = refused errors
refused (no_destinations ∷ errors) = refused errors
refused (lock_failed _ ∷ errors) = refused errors

refused-append : (xs ys : List SyncError) → refused (xs ++ ys) ≡ refused xs + refused ys
refused-append [] ys = omega (arith)
refused-append (not_started _ ∷ xs) ys = omega (arith, refused-append xs ys)
refused-append (no_source ∷ xs) ys = refused-append xs ys
refused-append (no_destinations ∷ xs) ys = refused-append xs ys
refused-append (lock_failed _ ∷ xs) ys = refused-append xs ys

-- A cluster with the sequences of the locks that were granted and of those that were given back. All
-- that it answers, and its world, are those of the cluster.
abbrev pub watched : Cluster → Cluster
watched K = record {
  Driver = K.Driver;
  Storage = K.Storage;
  Lock = K.Lock;
  World = K.World × List K.Lock × List K.Lock;
  lock = λ s c w.
      let (r, w') = K.lock s c w.0 in (r, (w', elim r [ ok l ↦ w.1 ++ l ∷ [] | err e ↦ w.1 ], w.2));
  unlock = λ l w. (K.unlock l w.0, w.1, w.2 ++ l ∷ []);
  invoke = λ t w. let (r, w') = K.invoke t w.0 in (r, (w', w.1, w.2));
  get_storage_by_id = λ id w. K.get_storage_by_id id w.0;
  get_collection_status =
      λ s c w. let (r, w') = K.get_collection_status s c w.0 in (r, (w', w.1, w.2));
  get_collection_log = λ s c w. let (r, w') = K.get_collection_log s c w.0 in (r, (w', w.1, w.2));
  run_sync = λ t w. (K.run_sync t w.0, w.1, w.2);
}

-- Of the first locks, in their order, some are the second locks, and the others are so many.
pub data AllBut {A : Type 0} : List A → List A → ℕ → Type 0 where
  none_granted : AllBut [] [] 0
  returned :
      {granted given : List A} {n : ℕ} (l : A)
      → AllBut granted given n
      → AllBut (granted ++ l ∷ []) (given ++ l ∷ []) n
  kept :
      {granted given : List A} {n : ℕ} (l : A)
      → AllBut granted given n
      → AllBut (granted ++ l ∷ []) given (suc n)

module _ (K : Cluster) where
  abbrev W : Cluster
  W = watched K

  abbrev locks_of : List (Task K.Driver K.Storage K.Lock) → List K.Lock
  locks_of tasks = map (λ t. t.held_lock) tasks

  locks_of-snoc :
      (tasks : List (Task K.Driver K.Storage K.Lock)) (t : Task K.Driver K.Storage K.Lock)
      → locks_of (tasks ++ t ∷ []) ≡ locks_of tasks ++ t.held_lock ∷ []
  locks_of-snoc [] t = refl
  locks_of-snoc (s ∷ tasks) t = rw (locks_of-snoc tasks t) refl

  -- The locks that were granted are those of the tasks, in their order, but for the refused ones, and
  -- none was given back.
  abbrev Steady : Starting W → Type 0
  Steady s = AllBut s.world.1 (locks_of s.tasks) (refused s.multi_err) × (s.world.2 ≡ [])

  with_error :
      (granted given : List K.Lock) (errors : List SyncError) (e : SyncError)
      → refused (e ∷ []) ≡ 0
      → AllBut granted given (refused errors)
      → AllBut granted given (refused (errors ++ e ∷ []))
  with_error granted given errors e harmless h =
      subst (AllBut granted given) (omega (arith, refused-append errors (e ∷ []))) h

  start_collection-Steady :
      (source_id : Text) (storages : List K.Storage) (c : Text × K.Driver) (s : Starting W)
      → Steady s
      → Steady (start_collection W source_id storages c s)
  unfolding start_collection append_error
  start_collection-Steady source_id storages (collection, driver) s (h, untouched) =
      let (locked, w) = K.lock source_id collection s.world.0 in
      elim (Result-cases locked) [
        | inr (e, failed) ↦
            let after : Starting W = record s {
              multi_err = s.multi_err ++ lock_failed e ∷ [];
              world = (w, s.world.1, s.world.2);
            } in
            let step : start_collection W source_id storages (collection, driver) s ≡ after =
              ground (arith, failed) in
            subst Steady (sym step) (
              with_error s.world.1 (locks_of s.tasks) s.multi_err (lock_failed e) refl h,
              untouched,
            )
        | inl (l, got) ↦
            let task : Task K.Driver K.Storage K.Lock = record {
              source_id = source_id;
              collection = collection;
              identifier = source_id ++ (codes "_" ++ collection);
              driver = driver;
              destinations = storages;
              held_lock = l;
            } in
            let w' = (K.invoke task w).1 in
            let granted = s.world.1 ++ l ∷ [] in
            elim (Result-cases (K.invoke task w).0) [
              | inr (e, failed) ↦
                  let after : Starting W = record s {
                    multi_err = s.multi_err ++ not_started e ∷ [];
                    world = (w', granted, s.world.2);
                  } in
                  let step : start_collection W source_id storages (collection, driver) s ≡ after =
                    ground (arith, got, failed) in
                  subst Steady (sym step) (
                    subst (AllBut granted (locks_of s.tasks))
                        (omega (arith, refused-append s.multi_err (not_started e ∷ []))) (kept l h),
                    untouched,
                  )
              | inl (_, started) ↦
                  let after : Starting W = record s {
                    tasks = s.tasks ++ task ∷ [];
                    world = (w', granted, s.world.2);
                  } in
                  let step : start_collection W source_id storages (collection, driver) s ≡ after =
                    ground (arith, got, started) in
                  subst Steady (sym step) (
                    subst (λ given. AllBut granted given (refused s.multi_err))
                        (sym (locks_of-snoc s.tasks task)) (returned l h),
                    untouched,
                  )
            ]
      ]

  start_collections-Steady :
      (source_id : Text) (storages : List K.Storage) (cs : Dict Text K.Driver) (s : Starting W)
      → Steady s
      → Steady (start_collections W source_id storages cs s)
  unfolding start_collections
  start_collections-Steady source_id storages [] s h = h
  start_collections-Steady source_id storages (c ∷ cs) s h =
      start_collections-Steady source_id storages cs (start_collection W source_id storages c s)
        (start_collection-Steady source_id storages c s h)

  sync_with-Steady :
      (source_id : Text) (unit : SourceUnit K.Driver) (storages : List K.Storage) (s : Starting W)
      → Steady s
      → Steady (sync_with W source_id unit storages s)
  unfolding sync_with append_error
  sync_with-Steady source_id unit [] s (h, untouched) =
      (with_error s.world.1 (locks_of s.tasks) s.multi_err no_destinations refl h, untouched)
  sync_with-Steady source_id unit (d ∷ storages) s h =
      start_collections-Steady source_id (d ∷ storages) unit.driver_per_collection s h

  sync_source-Steady :
      (sources : Dict Text (SourceUnit K.Driver)) (source_id : Text) (s : Starting W)
      → Steady s
      → Steady (sync_source W sources source_id s)
  unfolding sync_source append_error
  sync_source-Steady sources source_id s (h, untouched) =
      elim (Option-cases (lookup source_id sources)) [
        | inl missing ↦
            rw (sync_source, missing)
              (with_error s.world.1 (locks_of s.tasks) s.multi_err no_source refl h, untouched)
        | inr (unit, found) ↦
            rw (sync_source, found)
              (sync_with-Steady source_id unit (ready_storages W unit.destination_ids s.world) s
                (h, untouched))
      ]

  run_tasks-given :
      (tasks : List (Task K.Driver K.Storage K.Lock)) (w : W.World)
      → ((run_tasks W tasks w).1 ≡ w.1) × ((run_tasks W tasks w).2 ≡ w.2 ++ locks_of tasks)
  unfolding run_tasks sync_collection
  run_tasks-given [] w = (refl, sym (append-nil w.2))
  run_tasks-given (t ∷ tasks) w =
      let (same, given) = run_tasks-given tasks (sync_collection W t w) in
      (same, given ∙ append_assoc w.2 (t.held_lock ∷ []) (locks_of tasks))

  -- Whatever the monitor keeper and the pool answer: when a synchronization of a source was started and
  -- all tasks that the pool took have run, each of the locks that were granted was given back once, in
  -- their order, but for one lock for each collection whose task the pool refused; no other lock was
  -- given back.
  pub sync_source-AllBut :
      (sources : Dict Text (SourceUnit K.Driver)) (source_id : Text) (w : K.World)
      → let s =
          sync_source W sources source_id
            (record { multi_err = []; tasks = []; world = (w, [], []) }) in
        AllBut (run_tasks W s.tasks s.world).1 (run_tasks W s.tasks s.world).2 (refused s.multi_err)
  sync_source-AllBut sources source_id w =
      let s0 : Starting W = record { multi_err = []; tasks = []; world = (w, [], []) } in
      let s = sync_source W sources source_id s0 in
      let (granted, untouched) = sync_source-Steady sources source_id s0 (none_granted, refl) in
      let (same, given) = run_tasks-given s.tasks s.world in rw (same, given, untouched) granted
