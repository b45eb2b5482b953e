-- ===== src/Events/Queue.antt =====
-- events/persistent_queue.go: a queue of events on the disk. The queue itself is the package dque's.
use eventnative.Base.{ℕ, Bool, true, false, Option, none, some, [], ◌∷◌}
use eventnative.Base.Action.{Action, Effect}
use eventnative.Base.Result.{ok, err}
use eventnative.Base.Text.{Text}
use eventnative.Value.{Object, object}
use eventnative.Typing.{GoLibrary}

pub record QueuedEvent : Type 0 where
  pub fact_bytes : Text
  pub dequeued_time : ℕ
  pub token_id : Text

-- `DequeueBlock` and `Enqueue` of the package dque; an element that is no `QueuedEvent` is `none`.
-- `now` is `time.Now`, and `parse_json` is `parsers.ParseJson`.
pub record Queue : Type 1 where
  pub World : Type 0
  pub dequeue : Action World Text (Option QueuedEvent)
  pub enqueue : QueuedEvent → Effect World Text
  pub now : World → ℕ × World
  pub parse_json : Text → Option Object

-- `unreadable` is the error of an element that was taken and is no event.
pub data QueueError : Type 0 where
  queue_failed : Text → QueueError
  unreadable : QueueError

module _ (go : GoLibrary) (Q : Queue) where
  open Q use {World, dequeue, enqueue, now, parse_json}

  -- `ConsumeTimed`, with `false` for an event that `logSkippedEvent` is told of.
  unfoldable pub consume_timed : Object → ℕ → Text → World → Bool × World
  consume_timed f time token_id w = elim (go.marshal (object f)) [
    | none ↦ (false, w)
    | some b ↦
        let (r, w') =
          enqueue (record { fact_bytes = b; dequeued_time = time; token_id = token_id }) w in
        (elim r [ err e ↦ false | ok _ ↦ true ], w')
  ]

  -- `Consume`
  unfoldable pub consume : Object → Text → World → Bool × World
  unfolding consume_timed
  consume f token_id w = let (time, w') = now w in consume_timed f time token_id w'

  -- What `DequeueBlock` reads out of an element.
  unfoldable pub read_queued : Option QueuedEvent → Option (Object × ℕ × Text)
  read_queued none = none
  read_queued (some q) = elim (q.fact_bytes) [
    | [] ↦ none
    | c ∷ b ↦ elim (parse_json (c ∷ b)) [
      | none ↦ none
      | some fact ↦ some (fact, q.dequeued_time, q.token_id)
    ]
  ]

  -- `DequeueBlock`
  unfoldable pub dequeue_block : Action World QueueError (Object × ℕ × Text)
  unfolding read_queued
  dequeue_block w =
      let (r, w') = dequeue w in
      elim r [
        | err e ↦ (err (queue_failed e), w')
        | ok q ↦ elim (read_queued q) [ none ↦ (err unreadable, w') | some f ↦ (ok f, w') ]
      ]
