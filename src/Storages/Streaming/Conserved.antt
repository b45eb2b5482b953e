-- ===== src/Storages/Streaming/Conserved.antt =====
-- Where the events go that the worker of a queue takes (storages/streaming.go).
use eventnative.Base.{
  ℕ, zero, suc, ◌+◌, ◌≡◌, refl, ◌∙◌, Bool, true, false, Option, some, [], ◌∷◌, ltb, Option-cases,
  Bool-cases, inl, inr, arith,
}
use eventnative.Base.Lists.{length, length-append}
use eventnative.Base.Result.{Result, ok, err, Result-cases}
use eventnative.Base.Text.{Text}
use eventnative.Value.{Object, object}
use eventnative.Typing.{GoLibrary}
use eventnative.Events.Extractor.{extract_event_id}
use eventnative.Events.Queue.{
  QueuedEvent, Queue, QueueError, queue_failed, unreadable, consume_timed, read_queued,
  dequeue_block,
}
use eventnative.Schema.BatchHeader.{BatchHeader, exists}
use eventnative.Schema.Processor.{ProcessError, process_object}
use eventnative.Storages.TableHelper.{map_table_schema}
use eventnative.Storages.Store.{StoreError, not_processed, Storage}
use eventnative.Storages.Sync.{insert}
use eventnative.Storages.Streaming.{
  not_read, was_skipped, was_empty, not_queued, Streaming, serialize, drop, put_back, report_error,
  fall_back, is_connection_error, insert_failed, insert_event, is_skip, process_failed,
  handle_event, round, rounds,
}

-- How many elements a queue holds: an element is added by an `Enqueue` that succeeds and taken by a
-- `DequeueBlock` that does, and nothing else changes their number.
pub record QueueLaws (Q : Queue) : Type 0 where
  pub pending : Q.World → ℕ
  pub now_pending : (w : Q.World) → pending (Q.now w).1 ≡ pending w
  pub dequeue_ok :
      (w : Q.World) (q : Option QueuedEvent)
      → (Q.dequeue w).0 ≡ ok q
      → pending w ≡ suc (pending (Q.dequeue w).1)
  pub dequeue_err :
      (w : Q.World) (e : Text) → (Q.dequeue w).0 ≡ err e → pending (Q.dequeue w).1 ≡ pending w
  pub enqueue_ok :
      (q : QueuedEvent) (w : Q.World)
      → (Q.enqueue q w).0 ≡ ok tt
      → pending (Q.enqueue q w).1 ≡ suc (pending w)
  pub enqueue_err :
      (q : QueuedEvent) (w : Q.World) (e : Text)
      → (Q.enqueue q w).0 ≡ err e
      → pending (Q.enqueue q w).1 ≡ pending w

module _ (go : GoLibrary) (S : Storage) (Q : Queue) (message : StoreError → Text)
    (L : QueueLaws Q) where
  -- The events that wait, that were handed to the fallback, that are archived, and that went no further.
  abbrev pub events_of : Streaming go S Q message → ℕ
  events_of s = L.pending s.queue + (length s.fallback_log + (length s.archive + length s.drops))

  abbrev missing : Bool → ℕ
  missing true = 0
  missing false = 1

  consume_timed-pending :
      (fact : Object) (time : ℕ) (token_id : Text) (w : Q.World)
      → L.pending (consume_timed go Q fact time token_id w).1
          + missing (consume_timed go Q fact time token_id w).0
        ≡ suc (L.pending w)
  unfolding consume_timed
  consume_timed-pending fact time token_id w = elim (Option-cases (go.marshal (object fact))) [
    | inl lost ↦ rw (consume_timed, lost) (omega (arith))
    | inr (b, marshalled) ↦
        let q : QueuedEvent = record {
          fact_bytes = b;
          dequeued_time = time;
          token_id = token_id;
        } in
        elim (Result-cases (Q.enqueue q w).0) [
          | inl (_, good) ↦
              rw (consume_timed, marshalled) (rw good (omega (arith, L.enqueue_ok q w good)))
          | inr (e, failed) ↦
              rw (consume_timed, marshalled) (rw failed (omega (arith, L.enqueue_err q w e failed)))
        ]
  ]

  put_back-events :
      (fact : Object) (time : ℕ) (token_id : Text) (s : Streaming go S Q message)
      → events_of (put_back go S Q message fact time token_id s) ≡ suc (events_of s)
  unfolding put_back drop
  put_back-events fact time token_id s =
      let h = consume_timed-pending fact time token_id s.queue in
      elim (Bool-cases (consume_timed go Q fact time token_id s.queue).0) [
        | inl queued ↦ rw (put_back, queued) (let h' = rw queued at h in omega (arith, h'))
        | inr lost ↦
            rw (put_back, lost)
              (let h' = rw lost at h in omega (arith, h', length-append s.drops (not_queued ∷ [])))
      ]

  insert_failed-events :
      (fact flat : Object) (token_id : Text) (e : StoreError) (s : Streaming go S Q message)
      → events_of (insert_failed go S Q message fact flat token_id e s) ≡ suc (events_of s)
  unfolding insert_failed report_error fall_back
  insert_failed-events fact flat token_id e s =
      let (time, w) = Q.now s.queue in
      elim (Bool-cases (is_connection_error (message e))) [
        | inl again ↦
            rw (insert_failed, again)
              (omega (
                arith,
                put_back-events fact (time + 20000000000) token_id (record s { queue = w }),
                L.now_pending s.queue,
              ))
        | inr given_up ↦
            rw (insert_failed, given_up)
              (omega (
                arith,
                length-append s.fallback_log (
                    record {
                      event = serialize go S Q message fact;
                      error = e;
                      event_id = extract_event_id go flat;
                    }
                    ∷ []),
              ))
      ]

  insert_event-events :
      (fact : Object) (bh : BatchHeader) (flat : Object) (token_id : Text)
      (s : Streaming go S Q message)
      → events_of (insert_event go S Q message fact bh flat token_id s) ≡ suc (events_of s)
  unfolding insert_event
  insert_event-events fact bh flat token_id s =
      let table = map_table_schema S.types S.pk_fields bh in
      let (r, helper) = insert go S table flat s.helper in
      elim (Result-cases r) [
        | inl (_, good) ↦
            rw (insert_event, good) (omega (arith, length-append s.archive ((fact, token_id) ∷ [])))
        | inr (e, failed) ↦
            rw (insert_event, failed)
              (insert_failed-events fact flat token_id e (record s { helper = helper }))
      ]

  process_failed-events :
      (fact : Object) (e : ProcessError) (s : Streaming go S Q message)
      → events_of (process_failed go S Q message fact e s) ≡ suc (events_of s)
  unfolding process_failed report_error fall_back drop
  process_failed-events fact e s = elim (Bool-cases (is_skip go S Q message e)) [
    | inl skip ↦ rw (process_failed, skip) (omega (arith, length-append s.drops (was_skipped ∷ [])))
    | inr other ↦
        rw (process_failed, other)
          (omega (
            arith,
            length-append s.fallback_log (
                record {
                  event = serialize go S Q message fact;
                  error = not_processed e;
                  event_id = extract_event_id go fact;
                }
                ∷ []),
          ))
  ]

  handle_event-events :
      (fact : Object) (token_id : Text) (s : Streaming go S Q message)
      → events_of (handle_event go S Q message fact token_id s) ≡ suc (events_of s)
  unfolding handle_event drop
  handle_event-events fact token_id s =
      let (fact', result) = process_object go S.processor [] fact in
      elim (Result-cases result) [
        | inr (e, failed) ↦ rw (handle_event, failed) (process_failed-events fact' e s)
        | inl ((bh, flat), processed) ↦ elim (Bool-cases (exists (some bh))) [
          | inl there ↦
              rw (handle_event, processed) (rw there (insert_event-events fact' bh flat token_id s))
          | inr none_there ↦
              rw (handle_event, processed)
                (rw none_there (omega (arith, length-append s.drops (was_empty ∷ []))))
        ]
      ]

  abbrev elements_taken : Result QueueError (Object × ℕ × Text) → ℕ
  elements_taken (ok _) = 1
  elements_taken (err (queue_failed _)) = 0
  elements_taken (err unreadable) = 1

  dequeue_block-pending :
      (w : Q.World)
      → elements_taken (dequeue_block go Q w).0 + L.pending (dequeue_block go Q w).1 ≡ L.pending w
  unfolding dequeue_block
  dequeue_block-pending w = elim (Result-cases (Q.dequeue w).0) [
    | inr (e, failed) ↦ rw (dequeue_block, failed) (omega (arith, L.dequeue_err w e failed))
    | inl (q, good) ↦
        let one = L.dequeue_ok w q good in
        elim (Option-cases (read_queued go Q q)) [
          | inl unread ↦ rw (dequeue_block, good) (rw unread (omega (arith, one)))
          | inr (f, was_read) ↦ rw (dequeue_block, good) (rw was_read (omega (arith, one)))
        ]
  ]

  round-events : (s : Streaming go S Q message) → events_of (round go S Q message s) ≡ events_of s
  unfolding round drop
  round-events s =
      let (r, w) = dequeue_block go Q s.queue in
      let count = dequeue_block-pending s.queue in
      elim (Result-cases r) [
        | inr (queue_failed e, failed) ↦
            let h = rw failed at count in rw (round, failed) (omega (arith, h))
        | inr (unreadable, failed) ↦
            let h = rw failed at count in
            rw (round, failed) (omega (arith, h, length-append s.drops (not_read ∷ [])))
        | inl ((fact, due, token_id), good) ↦
            let (time, w') = Q.now w in
            let s' : Streaming go S Q message = record s { queue = w' } in
            let h = rw good at count in
            let still = L.now_pending w in
            elim (Bool-cases (ltb time due)) [
              | inl early ↦
                  rw (round, good)
                    (rw early (omega (arith, h, still, put_back-events fact due token_id s')))
              | inr late ↦
                  rw (round, good)
                    (rw late (omega (arith, h, still, handle_event-events fact token_id s')))
            ]
      ]

  -- Where an `Enqueue` that succeeds adds one element to the queue, a `DequeueBlock` that succeeds takes
  -- one, and nothing else changes their number: over any number of rounds of the worker the events
  -- that wait in the queue, that were handed to the fallback, that are archived as inserted, and that
  -- were dropped with a line in the log at most are together as many as before, whatever the storage,
  -- the queue and the processing answer.
  pub rounds-events :
      (n : ℕ) (s : Streaming go S Q message) → events_of (rounds go S Q message n s) ≡ events_of s
  unfolding rounds
  rounds-events zero s = refl
  rounds-events (suc n) s = rounds-events n (round go S Q message s) ∙ round-events s
