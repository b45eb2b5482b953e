-- ===== src/Tests/Recognition.antt =====
-- The cache of events (caching/events_cache.go) and the recognition of users (users/service.go), run.
use mathlib.Core.Path.{subst}
use eventnative.Storages.Store.{StoreError}
use eventnative.Base.{
  sym, ℕ, ◌+◌, ◌≤◌, ◌≡◌, refl, zero, suc, true, none, some, Option, List, [], ◌∷◌, ◌++◌, ◌⊎◌,
  text_eq, nat_eq, arith,
}
use eventnative.Base.Dict.{Dict, lookup, erase, lookup-erase}
use eventnative.Base.Int.{pos}
use eventnative.Base.Result.{Result, ok, err}
use eventnative.Base.Text.{Text, codes}
use eventnative.Value.{Object}
use eventnative.Meta.{
  Redis, RedisError, MetaError, Moment, last_events_index_key, or_zero, add_event,
  remove_last_event, delete_popped,
}
use eventnative.Caching.{put, logged, remove_oldest}
use eventnative.Caching.Bounded.{IndexLaws, put-bounded}
use eventnative.Users.{Surroundings, Configuration, StorageHandle, EventIdentifiers, run_pipeline}
use eventnative.Users.Pending.{RecognitionLaws, IsStored, run_pipeline-IsStored}
use eventnative.Tests.Fixtures.{sample_go, sample_event}

abbrev pop : Text → ℕ → Result RedisError (List Text) × ℕ
pop k zero = (ok [], zero)
pop k (suc n) = (ok (codes "first" ∷ codes "0" ∷ []), n)

pop_counts : (k id score : Text) (w : ℕ) → (pop k w).0 ≡ ok (id ∷ score ∷ []) → (pop k w).1 + 1 ≡ w
pop_counts k id score zero h = ground arith
pop_counts k id score (suc n) h = omega arith

-- A server that keeps the number of events of one index.
abbrev redis : Redis
redis = record {
  World = ℕ;
  hget = λ k f w. (ok [], w);
  hset = λ k f v w. (ok tt, w);
  hdel = λ k f w. (ok tt, w);
  hgetall = λ k w. (ok [], w);
  hincrby = λ k f n w. (ok tt, w);
  zadd = λ k s e w. (ok tt, w + 1);
  zcount = λ k w. (ok w, w);
  zpopmin = pop;
  zrangebyscore = λ k a b n w. (ok [], w);
  del = λ k w. (ok tt, w);
  update_one = λ k f v w. (ok tt, w);
  update_two = λ k f v g u w. (ok tt, w);
}

index_laws : IndexLaws redis
index_laws = record {
  size = λ k w. w;
  counted = λ k n w h. ground arith;
  never_nil = λ k w h. ground arith;
  popped = λ k id score w h. pop_counts k id score w h;
  deleted = λ j k differ w. refl;
}

abbrev moment : Moment
moment = record {
  unix = pos 0;
  day_layout = codes "20210101";
  month_layout = codes "202101";
  hour = 0;
  day = 1;
}

-- The third event of an index with room for two.
put_third :
    (put sample_go (λ e. none) redis 2 (codes "db") (codes "id") sample_event moment 2).0 ≡ ok tt
unfolding put logged remove_oldest add_event remove_last_event or_zero delete_popped text_eq
put_third = refl

put-bounded_example :
    index_laws.size
      (last_events_index_key (codes "db"))
      (put sample_go (λ e. none) redis 2 (codes "db") (codes "id") sample_event moment 2).1
    ≤ 2
put-bounded_example =
    put-bounded sample_go (λ e. none) redis index_laws 2 (codes "db") (codes "id") sample_event
      moment 2 put_third

-- The anonymous events of one user, and what was stored.
abbrev World : Type 0
World = Dict Text Text × List Object

abbrev recognition : Configuration
recognition = record {
  enabled = true;
  anonymous_id_json_path = record { parts = codes "anonymous" ∷ [] };
  user_id_json_path = record { parts = codes "user" ∷ [] };
}

abbrev handle : StorageHandle World
handle = record { users_recognition = none; sync_store = λ t os c w. (ok 1, (w.0, w.1 ++ os)) }

abbrev surroundings : Surroundings
surroundings = record {
  World = World;
  get_storage_by_id = λ id w. some (some handle);
  get_anonymous_events = λ d a w. (ok w.0, w);
  save_anonymous_event = λ d a e p w. (ok tt, w);
  delete_anonymous_event = λ d a e w. (ok tt, (erase e w.0, w.1));
  recognition_configuration = recognition;
  unmarshal = λ s. some sample_event;
}

ok-ne-err : {n : ℕ} {x : StoreError × ℕ} → ◌≡◌ {A = Result (StoreError × ℕ) ℕ} (ok n) (err x) → ⊥
ok-ne-err e = cc

same_handle :
    {h : StorageHandle World}
    → ◌≡◌ {A = Option (Option (StorageHandle World))} (some (some handle)) (some (some h))
    → handle ≡ h
same_handle e = cc

recognition_laws : RecognitionLaws surroundings
recognition_laws = record {
  pending = λ d a w j. lookup j w.0;
  stored = λ d w. w.1;
  get_pending = λ d a j w. refl;
  sync_pending = λ d a j h os w0 w e. rw (← same_handle e) refl;
  sync_ok = λ d h os w0 w n e r. rw (← same_handle e) refl;
  sync_err = λ d h os w0 w x e r.
      absurd (ok-ne-err (subst (λ h. (h.sync_store [] os [] w).0 ≡ err x) (sym (same_handle e)) r));
  delete_pending = λ d a id j w differ. ground (arith, lookup-erase j id w.0);
  delete_stored = λ d a id w. refl;
}

abbrev identifiers : EventIdentifiers
identifiers = record {
  anonymous_id = codes "cookie";
  event_id = codes "last";
  user_id = codes "user-1";
}

abbrev anonymous : World
anonymous = ((codes "e1", codes "{}") ∷ [], [])

run_pipeline-IsStored_example :
    (recognition_laws.pending
        (codes "db")
        (codes "cookie")
        (run_pipeline surroundings (codes "db") identifiers anonymous).1
        (codes "e1")
      ≡ recognition_laws.pending (codes "db") (codes "cookie") anonymous (codes "e1"))
    ⊎ (events : Dict Text Text) × (◌≡◌ {A = Result MetaError (Dict Text Text)}
        (ok anonymous.0)
        (ok events))
      × IsStored surroundings recognition_laws
          (codes "db")
          identifiers
          events
          (run_pipeline surroundings (codes "db") identifiers anonymous).1
          (codes "e1")
run_pipeline-IsStored_example =
    run_pipeline-IsStored surroundings recognition_laws (codes "db") identifiers anonymous
      (codes "e1")
