-- ===== src/Storages/Streaming.antt =====
-- storages/streaming.go: the worker that takes events from the queue and inserts them one at a time.
-- Metrics and counters are left out. The table helpers of a worker differ only in the tables that they
-- remember, which `MapTableSchema` does not read.
pub mod Conserved
use eventnative.Base.{
  ℕ, ◌+◌, zero, suc, Bool, true, false, ◌||◌, Option, none, some, List, [], ◌∷◌, ◌++◌, ltb,
  if◌then◌else◌,
}
use eventnative.Base.Result.{Result, ok, err}
use eventnative.Base.Text.{Text, codes, has_prefix}
use eventnative.Value.{Object, object}
use eventnative.Typing.{GoLibrary}
use eventnative.Events.Extractor.{extract_event_id}
use eventnative.Events.Queue.{
  Queue, QueueError, queue_failed, unreadable, consume_timed, dequeue_block,
}
use eventnative.Schema.BatchHeader.{BatchHeader, exists}
use eventnative.Schema.Processor.{ProcessError, skip_object, process_object}
use eventnative.Adapters.Table.{Table}
use eventnative.Storages.TableHelper.{State, map_table_schema}
use eventnative.Storages.Store.{
  StoreError, not_processed, CacheCall, cache_error, cache_succeed, Storage,
}
use eventnative.Storages.Sync.{insert}

-- `strings.Contains`
unfoldable pub contains_text : Text → Text → Bool
unfolding has_prefix
contains_text [] part = has_prefix [] part
contains_text (c ∷ s) part = has_prefix (c ∷ s) part || contains_text s part

-- The errors after which an insertion is tried again.
unfoldable pub is_connection_error : Text → Bool
unfolding contains_text
is_connection_error message =
    contains_text message (codes "connection refused")
    || (contains_text message (codes "EOF") || contains_text message (codes "write: broken pipe"))

-- `events.FailedEvent`
pub record FailedEvent : Type 0 where
  pub event : Text
  pub error : StoreError
  pub event_id : Text

-- Why an event goes no further, with a line in the log at most.
pub data Drop : Type 0 where
  not_read was_skipped was_empty not_queued : Drop

module _ (go : GoLibrary) (S : Storage) (Q : Queue) (message : StoreError → Text) where
  -- The queue, the archive's logger, and what a storage keeps. `drops` records the events that go no
  -- further.
  pub record Streaming : Type 0 where
    pub queue : Queue.World Q
    pub helper : State S.backend
    pub cache_calls : List CacheCall
    pub fallback_log : List FailedEvent
    pub archive : List (Object × Text)
    pub drops : List Drop

  -- `Serialize`
  unfoldable pub serialize : Object → Text
  serialize f = elim (go.marshal (object f)) [ none ↦ go.sprint (object f) | some b ↦ b ]

  unfoldable pub drop : Drop → Streaming → Streaming
  drop reason s = record s { drops = s.drops ++ reason ∷ [] }

  unfoldable pub report_error : Object → StoreError → Streaming → Streaming
  unfolding extract_event_id
  report_error fact e s = record s {
    cache_calls = s.cache_calls ++ cache_error (extract_event_id go fact) e ∷ [];
  }

  unfoldable pub fall_back : Object → StoreError → Text → Streaming → Streaming
  unfolding serialize
  fall_back fact e event_id s = record s {
    fallback_log =
        s.fallback_log ++ record { event = serialize fact; error = e; event_id = event_id } ∷ [];
  }

  -- `ConsumeTimed`
  unfoldable pub put_back : Object → ℕ → Text → Streaming → Streaming
  unfolding consume_timed drop
  put_back fact time token_id s =
      let (queued, w) = consume_timed go Q fact time token_id s.queue in
      let s' : Streaming = record s { queue = w } in if queued then s' else drop not_queued s'

  -- An insertion that failed: again after twenty seconds, or to the fallback.
  unfoldable pub insert_failed : Object → Object → Text → StoreError → Streaming → Streaming
  unfolding put_back fall_back report_error is_connection_error extract_event_id
  insert_failed fact flat token_id e s =
      let (time, w) = Q.now s.queue in
      let again = put_back fact (time + 20000000000) token_id (record s { queue = w }) in
      report_error fact e (
        if is_connection_error (message e)
        then again
        else fall_back fact e (extract_event_id go flat) s)

  -- An event that was processed, with its fact as the processing left it.
  unfoldable pub insert_event : Object → BatchHeader → Object → Text → Streaming → Streaming
  unfolding map_table_schema insert insert_failed extract_event_id
  insert_event fact batch_header flat token_id s =
      let table = map_table_schema S.types S.pk_fields batch_header in
      let (r, helper) = insert go S table flat s.helper in
      let s' : Streaming = record s { helper = helper } in
      elim r [
        | err e ↦ insert_failed fact flat token_id e s'
        | ok _ ↦ record s' {
          cache_calls = s.cache_calls ++ cache_succeed (extract_event_id go fact) flat table ∷ [];
          archive = s.archive ++ (fact, token_id) ∷ [];
        }
      ]

  -- `err == schema.ErrSkipObject`
  unfoldable pub is_skip : ProcessError → Bool
  is_skip e = elim e [ skip_object ↦ true | _ ↦ false ]

  -- An event that could not be processed.
  unfoldable pub process_failed : Object → ProcessError → Streaming → Streaming
  unfolding drop report_error fall_back extract_event_id is_skip
  process_failed fact e s = report_error fact (not_processed e) (
      if is_skip e
      then drop was_skipped s
      else fall_back fact (not_processed e) (extract_event_id go fact) s)

  unfoldable pub handle_event : Object → Text → Streaming → Streaming
  unfolding process_object process_failed insert_event drop exists
  handle_event fact token_id s =
      let (fact', result) = process_object go S.processor [] fact in
      elim result [
        | err e ↦ process_failed fact' e s
        | ok (batch_header, flat) ↦
            if exists (some batch_header)
            then insert_event fact' batch_header flat token_id s
            else drop was_empty s
      ]

  -- One round of the worker. An event whose time has not come goes back to the end of the queue.
  unfoldable pub round : Streaming → Streaming
  unfolding dequeue_block put_back handle_event drop
  round s =
      let (r, w) = dequeue_block go Q s.queue in
      let taken : Streaming = record s { queue = w } in
      elim r [
        | err (queue_failed e) ↦ taken
        | err unreadable ↦ drop not_read taken
        | ok (fact, dequeued_time, token_id) ↦
            let (time, w') = Q.now w in
            let s' : Streaming = record s { queue = w' } in
            if ltb time dequeued_time
            then put_back fact dequeued_time token_id s'
            else handle_event fact token_id s'
      ]

  unfoldable pub rounds : ℕ → Streaming → Streaming
  unfolding round
  rounds zero s = s
  rounds (suc n) s = rounds n (round s)
