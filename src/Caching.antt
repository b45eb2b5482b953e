-- ===== src/Caching.antt =====
-- caching/events_cache.go: what the goroutines of the cache do with an event that they have received.
-- The channels, which drop what they have no room for, are not modelled.
pub mod Bounded
use eventnative.Base.{
  ℕ, ◌+◌, ◌-◌, zero, suc, Bool, true, false, Option, none, some, List, [], ◌∷◌, ◌==◌, text_eq, ltb,
  if◌then◌else◌,
}
use eventnative.Base.Action.{Action, done, then_do}
use eventnative.Base.Dict.{lookup}
use eventnative.Base.Result.{Result, ok, err}
use eventnative.Base.Text.{Text}
use eventnative.Value.{Value, object, Object, empty, field}
use eventnative.Typing.{GoLibrary}
use eventnative.Adapters.Table.{Table}
use eventnative.Meta.{
  Redis, Moment, MetaError, Event, add_event, remove_last_event, update_succeed_event,
  update_error_event, get_events, get_total_events,
}

-- What is logged.
pub data CacheError : Type 0 where
  empty_event_id not_marshalled unknown_column : CacheError
  storage_failed : MetaError → CacheError

-- `adapters.TableField` and `SucceedEvent`
pub record TableField : Type 0 where
  pub field_name : Text
  pub type : Text
  pub value : Value

pub record SucceedEvent : Type 0 where
  pub destination_id : Text
  pub table : Text
  pub fields : List TableField

-- The loop of `succeed` over the fields of the row; one without a column is an error.
unfoldable pub table_fields : Table → Object → Option (List TableField)
unfolding lookup
table_fields table empty = some []
table_fields table (field name v o) =
    let rest = table_fields table o in
    elim (lookup name table.columns) [
      | none ↦ none
      | some sql_type ↦ elim rest [
        | none ↦ none
        | some fields ↦ some (record { field_name = name; type = sql_type; value = v } ∷ fields)
      ]
    ]

module _ (go : GoLibrary) (marshal_succeed : SucceedEvent → Option Text) (R : Redis) where
  abbrev pub Step : Type 0
  Step = R.World → Result {0, 0} CacheError Unit × R.World

  unfoldable pub logged {ℓ} :
      {A : Type ℓ} → Action R.World MetaError A → Action R.World CacheError A
  logged act w =
      let (r, w') = act w in (elim r [ ok a ↦ ok a | err e ↦ err (storage_failed e) ], w')

  -- The loop that deletes the oldest events; the first error ends it.
  unfoldable pub remove_oldest : Text → ℕ → Step
  unfolding logged remove_last_event
  remove_oldest destination_id zero w = (ok tt, w)
  remove_oldest destination_id (suc n) w =
      then_do (logged (remove_last_event R destination_id)) (λ _. remove_oldest destination_id n) w

  -- `put`
  unfoldable pub put : ℕ → Text → Text → Object → Moment → Step
  unfolding logged add_event remove_oldest
  put capacity_per_destination destination_id event_id value now w =
      if event_id == [] then (err empty_event_id, w) else elim (go.marshal (object value)) [
        | none ↦ (err not_marshalled, w)
        | some b ↦
            then_do (logged (add_event R destination_id event_id b now))
              (λ events_in_cache.
                remove_oldest destination_id (events_in_cache - capacity_per_destination))
              w
      ]

  -- `succeed`
  unfoldable pub succeed : Text → Text → Object → Table → Step
  unfolding logged table_fields update_succeed_event
  succeed destination_id event_id processed table w =
      if event_id == [] then (err empty_event_id, w) else elim (table_fields table processed) [
        | none ↦ (err unknown_column, w)
        | some fields ↦
            elim (marshal_succeed
              (record { destination_id = destination_id; table = table.name; fields = fields })) [
                | none ↦ (err not_marshalled, w)
                | some b ↦ logged (update_succeed_event R destination_id event_id b) w
              ]
      ]

  -- `error`
  unfoldable pub put_error : Text → Text → Text → Step
  unfolding logged update_error_event
  put_error destination_id event_id message w =
      if event_id == []
      then (err empty_event_id, w)
      else logged (update_error_event R destination_id event_id message) w

  -- `GetN` and `GetTotal`: an error is nothing.
  unfoldable pub get_n : Text → Moment → Moment → ℕ → R.World → List Event × R.World
  unfolding get_events
  get_n destination_id start end n w =
      let (r, w') = get_events R destination_id start end n w in
      (elim r [ ok events ↦ events | err e ↦ [] ], w')

  unfoldable pub get_total : Text → R.World → ℕ × R.World
  unfolding get_total_events
  get_total destination_id w =
      let (r, w') = get_total_events R destination_id w in (elim r [ ok n ↦ n | err e ↦ 0 ], w')
