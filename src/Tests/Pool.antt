-- ===== src/Tests/Pool.antt =====
-- The service of the sources (sources/service.go), run.
use eventnative.Base.{ℕ, ◌+◌, ◌-◌, ◌≡◌, refl, ◌==◌, text_eq, if◌then◌else◌, some, [], ◌∷◌, nat_eq}
use eventnative.Base.Dict.{Dict, lookup}
use eventnative.Base.Result.{ok, err}
use eventnative.Base.Text.{Text, codes}
use eventnative.Sources.Service.{
  SourceUnit, Cluster, Starting, sync_source, ready_storages, start_collections, start_collection,
  sync_with, append_error, run_tasks,
}
use eventnative.Sources.Service.Locks.{AllBut, watched, refused, sync_source-AllBut}

-- A cluster that counts its locks, with a pool that refuses the collection "b".
abbrev cluster : Cluster
cluster = record {
  Driver = ℕ;
  Storage = ℕ;
  Lock = ℕ;
  World = ℕ;
  lock = λ s c w. (ok w, w + 1);
  unlock = λ l w. w - 1;
  invoke = λ t w. if t.collection == codes "b" then (err (codes "closed"), w) else (ok tt, w);
  get_storage_by_id = λ id w. some (some 7);
  get_collection_status = λ s c w. (ok [], w);
  get_collection_log = λ s c w. (ok [], w);
  run_sync = λ t w. w;
}

abbrev sources : Dict Text (SourceUnit ℕ)
sources =
    (
      codes "s",
      record {
        driver_per_collection = (codes "a", 1) ∷ (codes "b", 2) ∷ [];
        destination_ids = codes "d" ∷ [];
      },
    )
    ∷ []

abbrev started : Starting (watched cluster)
started =
    sync_source (watched cluster) sources (codes "s")
      (record { multi_err = []; tasks = []; world = (0, [], []) })

one_refused : refused started.multi_err ≡ 1
unfolding sync_source sync_with ready_storages start_collections start_collection append_error
    lookup text_eq nat_eq
one_refused = refl

sync_source-AllBut_example :
    AllBut
      (run_tasks (watched cluster) started.tasks started.world).1
      (run_tasks (watched cluster) started.tasks started.world).2
      (refused started.multi_err)
sync_source-AllBut_example = sync_source-AllBut cluster sources (codes "s") 0
