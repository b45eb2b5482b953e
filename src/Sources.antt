-- ===== src/Sources.antt =====
-- sources/sync_task.go: one synchronization of a collection of a source.
pub mod Order
pub mod Service
use eventnative.Base.{
  ℕ, Bool, true, false, not, ◌||◌, Option, none, some, List, [], ◌∷◌, ◌++◌, Eq, ◌==◌, text_eq, map,
  if◌then◌else◌,
}
use eventnative.Base.Result.{Result, ok, err}
use eventnative.Base.Text.{Text, codes}
use eventnative.Value.{Value, text, Object}
use eventnative.Value.Objects.{insert}
use eventnative.Typing.Converter.{timestamp_key}
use eventnative.Drivers.{Calendar, TimeInterval, calculate_signature_from, is_all, to_text}
use eventnative.Events.Enricher.{
  enrich_with_event_id, enrich_with_collection, enrich_with_time_interval,
}

-- The effects of a task, in order: the calls that write to the meta storage and to the
-- destinations, with the outcome of the latter.
pub data Call : Type 0 where
  saved_status : Text → Call
  saved_log : Text → Call
  stored : Text → Text → List Object → Bool → Call
  saved_signature : Text → Text → Call

-- What is outside the task: the driver, the meta storage, the destinations (which may answer by all
-- that happened before), the clock and the hash. A failure is `none` or `false`.
pub record World : Type 0 where
  pub calendar : Calendar
  pub now : ℕ
  pub now_utc : Text
  pub get_hash : Object → Text
  pub intervals : Option (List TimeInterval)
  pub collection_table : Text
  pub get_objects_for : TimeInterval → Option (List Object)
  pub get_signature : Text → Text → Text → Option Text
  pub sync_store : List Call → Text → Text → List Object → Text → Bool

pub record SyncTask : Type 0 where
  pub source_id : Text
  pub collection : Text
  pub destinations : List Text

module _ (w : World) (st : SyncTask) where
  unfoldable pub get_collection_meta_key : Text
  get_collection_meta_key = st.collection ++ (codes "_" ++ w.collection_table)

  -- A failure to save is logged only.
  unfoldable pub update_collection_status : Text → Text → List Call
  update_collection_status status logs = saved_status status ∷ saved_log logs ∷ []

  -- NEW or REFRESH, against UPTODATE.
  unfoldable pub needs_sync : TimeInterval → Text → Bool
  unfolding calculate_signature_from is_all
  needs_sync interval stored_signature =
      if stored_signature == []
      then true
      else not (stored_signature == calculate_signature_from w.calendar interval w.now)
        || is_all interval

  -- The first loop; a failing read ends the task.
  unfoldable pub select : List TimeInterval → Option (List TimeInterval)
  unfolding needs_sync get_collection_meta_key to_text
  select [] = some []
  select (interval ∷ intervals) =
      elim (w.get_signature st.source_id get_collection_meta_key (to_text w.calendar interval)) [
        | none ↦ none
        | some stored_signature ↦ elim (select intervals) [
          | none ↦ none
          | some rest ↦
              some (if needs_sync interval stored_signature then interval ∷ rest else rest)
        ]
      ]

  unfoldable pub enrich_object : TimeInterval → Object → Object
  unfolding insert enrich_with_event_id enrich_with_collection enrich_with_time_interval
  enrich_object interval o =
      let o' =
        insert timestamp_key (text w.now_utc) (insert (codes "src") (text (codes "source")) o) in
      enrich_with_time_interval w.calendar interval
        (enrich_with_collection st.collection (enrich_with_event_id (w.get_hash o') o'))

  -- The loop over the destinations, which stops at the first failure: the calls so far, and whether
  -- all succeeded.
  unfoldable pub store_all : Text → List Object → List Text → List Call → List Call × Bool
  store_all interval objects [] calls = (calls, true)
  store_all interval objects (d ∷ ds) calls =
      let done = w.sync_store calls d w.collection_table objects interval in
      let calls' = calls ++ stored d interval objects done ∷ [] in
      let rest = store_all interval objects ds calls' in if done then rest else (calls', false)

  -- Behind that loop; a failure to save the signature is logged only.
  unfoldable pub save_signature : TimeInterval → List Call × Bool → List Call × Bool
  unfolding to_text calculate_signature_from
  save_signature interval (calls, true) = (
    calls
        ++ saved_signature (to_text w.calendar interval)
            (calculate_signature_from w.calendar interval w.now)
          ∷ [],
    true,
  )
  save_signature interval (calls, false) = (calls, false)

  -- One interval of the second loop.
  unfoldable pub sync_interval : TimeInterval → List Call → List Call × Bool
  unfolding store_all enrich_object save_signature
  sync_interval interval calls = elim (w.get_objects_for interval) [
    | none ↦ (calls, false)
    | some objects ↦ save_signature interval (
        store_all (to_text w.calendar interval) (map (enrich_object interval) objects)
          st.destinations calls)
  ]

  unfoldable pub sync_intervals : List TimeInterval → List Call → List Call
  unfolding sync_interval
  sync_intervals [] calls = calls
  sync_intervals (interval ∷ intervals) calls =
      let (calls', done) = sync_interval interval calls in
      let rest = sync_intervals intervals calls' in if done then rest else calls'

  -- What happens between the two updates of the status.
  unfoldable pub body : List Call → List Call
  unfolding select sync_intervals
  body calls = elim w.intervals [
    | none ↦ calls
    | some intervals ↦ elim (select intervals) [
      | none ↦ calls
      | some to_sync ↦ sync_intervals to_sync calls
    ]
  ]

  -- `Sync`. The arguments of the deferred update are evaluated where it stands: the status FAILED
  -- and the log, which is empty by then.
  unfoldable pub sync : List Call
  unfolding body update_collection_status
  sync =
      body (update_collection_status (codes "LOADING") (codes "Still Running.."))
      ++ update_collection_status (codes "FAILED") []
