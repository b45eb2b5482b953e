-- ===== src/Tests/Streams.antt =====
-- The worker of a queue (storages/streaming.go), run.
use eventnative.Base.{nat_eq, suc, ◌≡◌, refl, true, Option, some, List, [], ◌∷◌, ◌++◌, arith}
use eventnative.Base.Lists.{length, length-append}
use eventnative.Base.Result.{Result, ok, err}
use eventnative.Base.Text.{Text, codes, has_prefix}
use eventnative.Events.Queue.{QueuedEvent, Queue}
use eventnative.Storages.Streaming.{Streaming, rounds, contains_text, is_connection_error}
use eventnative.Storages.Streaming.Conserved.{QueueLaws, events_of, rounds-events}
use eventnative.Tests.Fixtures.{sample_go, sample_parse}
use eventnative.Tests.Tables.{start}
use eventnative.Tests.Stores.{storage}

-- A queue in memory that accepts whatever it is given, at a time that stands still.
dequeue : List QueuedEvent → Result Text (Option QueuedEvent) × List QueuedEvent
dequeue [] = (err (codes "empty"), [])
dequeue (q ∷ w) = (ok (some q), w)

abbrev queue : Queue
queue = record {
  World = List QueuedEvent;
  dequeue = dequeue;
  enqueue = λ q w. (ok tt, w ++ q ∷ []);
  now = λ w. (5, w);
  parse_json = sample_parse;
}

dequeue_ok :
    (w : List QueuedEvent) (q : Option QueuedEvent)
    → (dequeue w).0 ≡ ok q
    → length w ≡ suc (length (dequeue w).1)
unfolding dequeue
dequeue_ok [] q h = absurd (ground arith)
dequeue_ok (p ∷ w) q h = refl

dequeue_err :
    (w : List QueuedEvent) (e : Text) → (dequeue w).0 ≡ err e → length (dequeue w).1 ≡ length w
unfolding dequeue
dequeue_err [] e h = refl
dequeue_err (p ∷ w) e h = absurd (ground arith)

laws : QueueLaws queue
laws = record {
  pending = λ w. length w;
  now_pending = λ w. refl;
  dequeue_ok = dequeue_ok;
  dequeue_err = dequeue_err;
  enqueue_ok = λ q w h. omega (arith, length-append w (q ∷ []));
  enqueue_err = λ q w e h. absurd (ground arith);
}

-- One event that is due, and one that is not.
abbrev waiting : Streaming sample_go storage queue (λ e. codes "EOF")
waiting = record {
  queue =
      record { fact_bytes = codes "{\"a\":1}"; dequeued_time = 3; token_id = codes "t" }
      ∷ record { fact_bytes = codes "{\"a\":2}"; dequeued_time = 7; token_id = codes "t" }
      ∷ [];
  helper = start;
  cache_calls = [];
  fallback_log = [];
  archive = [];
  drops = [];
}

rounds-events_example :
    events_of sample_go storage queue
      (λ e. codes "EOF")
      laws
      (rounds sample_go storage queue (λ e. codes "EOF") 3 waiting)
    ≡ events_of sample_go storage queue (λ e. codes "EOF") laws waiting
rounds-events_example = rounds-events sample_go storage queue (λ e. codes "EOF") laws 3 waiting

retried : is_connection_error (codes "dial: connection refused") ≡ true
unfolding is_connection_error contains_text has_prefix nat_eq
retried = refl
