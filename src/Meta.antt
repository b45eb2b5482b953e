-- ===== src/Meta.antt =====
-- meta/redis.go: what the program keeps in Redis. The server is an interface of its commands; the pool
-- and the counting of errors are left out.
use eventnative.Base.{ℕ, none, some, List, [], ◌∷◌, ◌++◌, text_eq, if◌then◌else◌}
use eventnative.Base.Action.{Action, Effect, done, then_do}
use eventnative.Base.Dict.{Dict, lookup}
use eventnative.Base.Int.{ℤ, pos, format_int}
use eventnative.Base.Result.{ok, err}
use eventnative.Base.Text.{Text, codes}
use eventnative.Adapters.Table.{is_nil}

-- `redis.ErrNil` and all others.
pub data RedisError : Type 0 where
  err_nil : RedisError
  other : Text → RedisError

-- A time is its seconds (`Unix`), with what its layouts print (`Format`, `Hour`, `Day`).
pub record Moment : Type 0 where
  pub unix : ℤ
  pub day_layout : Text
  pub month_layout : Text
  pub hour : ℕ
  pub day : ℕ

pub record Redis : Type 1 where
  pub World : Type 0
  pub hget : Text → Text → Action World RedisError Text
  pub hset : Text → Text → Text → Effect World RedisError
  pub hdel : Text → Text → Effect World RedisError
  pub hgetall : Text → Action World RedisError (Dict Text Text)
  pub hincrby : Text → Text → ℤ → Effect World RedisError
  pub zadd : Text → ℤ → Text → Effect World RedisError
  pub zcount : Text → Action World RedisError ℕ
  -- The values of the reply: an element and its score, or none.
  pub zpopmin : Text → Action World RedisError (List Text)
  pub zrangebyscore : Text → ℤ → ℤ → ℕ → Action World RedisError (List Text)
  pub del : Text → Effect World RedisError
  -- The two scripts, which write fields of a hash only if it exists.
  pub update_one : Text → Text → Text → Effect World RedisError
  pub update_two : Text → Text → Text → Text → Text → Effect World RedisError

pub data MetaError : Type 0 where
  redis_failed : Text → MetaError
  response_format : MetaError

-- `meta.Event`
pub record Event : Type 0 where
  pub original : Text
  pub success : Text
  pub error : Text

abbrev pub source_key : Text → Text → Text → Text
source_key source_id collection kind =
    codes "source#" ++ (source_id ++ (codes ":collection#" ++ (collection ++ (codes ":" ++ kind))))

abbrev pub last_events_key : Text → Text → Text
last_events_key destination_id event_id =
    codes "last_events:destination#" ++ (destination_id ++ (codes ":id#" ++ event_id))

abbrev pub last_events_index_key : Text → Text
last_events_index_key destination_id = codes "last_events_index:destination#" ++ destination_id

abbrev pub anonymous_event_key : Text → Text → Text
anonymous_event_key destination_id anonymous_id =
    codes "anonymous_events:destination_id#"
    ++ (destination_id ++ (codes ":anonymous_id#" ++ anonymous_id))

-- `err != nil && err != redis.ErrNil`: a nil reply leaves the zero value.
unfoldable pub or_zero {ℓ κ} :
    {W : Type ℓ} {A : Type κ} → A → Action W RedisError A → Action W MetaError A
or_zero zero_value act w =
    let (r, w') = act w in
    (
      elim r [ ok a ↦ ok a | err err_nil ↦ ok zero_value | err (other e) ↦ err (redis_failed e) ],
      w',
    )

unfoldable pub field_or : Text → Dict Text Text → Text
unfolding lookup
field_or name fields = elim (lookup name fields) [ none ↦ [] | some v ↦ v ]

module _ (R : Redis) where
  abbrev pub Step : Type 0 → Type 0
  Step A = Action R.World MetaError A

  unfoldable pub get_signature : Text → Text → Text → Step Text
  unfolding or_zero
  get_signature source_id collection interval =
      or_zero [] (R.hget (source_key source_id collection (codes "chunks")) interval)

  unfoldable pub save_signature : Text → Text → Text → Text → Step Unit
  unfolding or_zero
  save_signature source_id collection interval signature =
      or_zero tt (R.hset (source_key source_id collection (codes "chunks")) interval signature)

  unfoldable pub get_collection_status : Text → Text → Step Text
  unfolding or_zero
  get_collection_status source_id collection =
      or_zero [] (R.hget (source_key source_id collection (codes "status")) (codes "current"))

  unfoldable pub save_collection_status : Text → Text → Text → Step Unit
  unfolding or_zero
  save_collection_status source_id collection status =
      or_zero tt
        (R.hset (source_key source_id collection (codes "status")) (codes "current") status)

  unfoldable pub get_collection_log : Text → Text → Step Text
  unfolding or_zero
  get_collection_log source_id collection =
      or_zero [] (R.hget (source_key source_id collection (codes "log")) (codes "current"))

  unfoldable pub save_collection_log : Text → Text → Text → Step Unit
  unfolding or_zero
  save_collection_log source_id collection log =
      or_zero tt (R.hset (source_key source_id collection (codes "log")) (codes "current") log)

  -- `AddEvent` returns the length of the index.
  unfoldable pub add_event : Text → Text → Text → Moment → Step ℕ
  unfolding or_zero
  add_event destination_id event_id payload now =
      then_do
        (or_zero tt (R.hset (last_events_key destination_id event_id) (codes "original") payload))
        (λ _.
          then_do (or_zero tt (R.zadd (last_events_index_key destination_id) now.unix event_id))
            (λ _. or_zero 0 (R.zcount (last_events_index_key destination_id))))

  unfoldable pub update_succeed_event : Text → Text → Text → Step Unit
  unfolding or_zero
  update_succeed_event destination_id event_id success = or_zero tt (
      R.update_two (last_events_key destination_id event_id) (codes "success") success
        (codes "error") [])

  unfoldable pub update_error_event : Text → Text → Text → Step Unit
  unfolding or_zero
  update_error_event destination_id event_id error =
      or_zero tt (R.update_one (last_events_key destination_id event_id) (codes "error") error)

  -- The popped element is deleted; a reply of another form is an error.
  unfoldable pub delete_popped : Text → List Text → Step Unit
  unfolding or_zero
  delete_popped destination_id (event_id ∷ score ∷ []) =
      or_zero tt (R.del (last_events_key destination_id event_id))
  delete_popped destination_id _ = λ w. (err response_format, w)

  unfoldable pub remove_last_event : Text → Step Unit
  unfolding or_zero delete_popped
  remove_last_event destination_id =
      then_do (or_zero [] (R.zpopmin (last_events_index_key destination_id)))
        (delete_popped destination_id)

  -- The loop of `GetEvents`; an id whose hash is gone is passed over. `ScanStruct` of a map of texts
  -- does not fail.
  unfoldable pub read_events : Text → List Text → Step (List Event)
  unfolding or_zero is_nil field_or
  read_events destination_id [] = done []
  read_events destination_id (event_id ∷ event_ids) =
      then_do (or_zero [] (R.hgetall (last_events_key destination_id event_id))) (λ fields.
        then_do (read_events destination_id event_ids) (λ events. done (
          if is_nil fields
          then events
          else record {
            original = field_or (codes "original") fields;
            success = field_or (codes "success") fields;
            error = field_or (codes "error") fields;
          }
            ∷ events)))

  unfoldable pub get_events : Text → Moment → Moment → ℕ → Step (List Event)
  unfolding or_zero read_events
  get_events destination_id start end n =
      then_do
        (or_zero [] (R.zrangebyscore (last_events_index_key destination_id) start.unix end.unix n))
        (read_events destination_id)

  unfoldable pub get_total_events : Text → Step ℕ
  unfolding or_zero
  get_total_events destination_id = or_zero 0 (R.zcount (last_events_index_key destination_id))

  unfoldable pub save_anonymous_event : Text → Text → Text → Text → Step Unit
  unfolding or_zero
  save_anonymous_event destination_id anonymous_id event_id payload =
      or_zero tt (R.hset (anonymous_event_key destination_id anonymous_id) event_id payload)

  unfoldable pub get_anonymous_events : Text → Text → Step (Dict Text Text)
  unfolding or_zero
  get_anonymous_events destination_id anonymous_id =
      or_zero [] (R.hgetall (anonymous_event_key destination_id anonymous_id))

  unfoldable pub delete_anonymous_event : Text → Text → Text → Step Unit
  unfolding or_zero
  delete_anonymous_event destination_id anonymous_id event_id =
      or_zero tt (R.hdel (anonymous_event_key destination_id anonymous_id) event_id)

  -- The hourly counter grows by one, the daily counter by `value`.
  unfoldable pub increment_events_count : Text → Text → Moment → ℤ → Step Unit
  unfolding or_zero format_int
  increment_events_count destination_id status now value =
      then_do
        (or_zero tt (
          R.hincrby
            (codes "hourly_events:destination#"
              ++ (destination_id ++ (codes ":day#" ++ (now.day_layout ++ (codes ":" ++ status)))))
            (format_int (pos now.hour)) (pos 1)))
        (λ _. or_zero tt (
          R.hincrby
            (codes "daily_events:destination#"
              ++ (destination_id
                  ++ (codes ":month#" ++ (now.month_layout ++ (codes ":" ++ status)))))
            (format_int (pos now.day)) value))

  -- `SuccessEvents` and `ErrorEvents`
  unfoldable pub success_events : Text → Moment → ℤ → Step Unit
  unfolding increment_events_count
  success_events destination_id now value =
      increment_events_count destination_id (codes "success") now value

  unfoldable pub error_events : Text → Moment → ℤ → Step Unit
  unfolding increment_events_count
  error_events destination_id now value =
      increment_events_count destination_id (codes "errors") now value
