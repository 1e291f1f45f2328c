-- ===== src/Examples/Queues.antt =====
-- Queues, and calls with retries.
use event_spec.Prelude.{
  ℕ, ◌≡◌, refl, none, List, [], ◌∷◌, ◌++◌, String, inl, true, false, arith, if◌then◌else◌, eqb,
}
use event_spec.Prelude.Int.{pos}
use event_spec.Provider.Queue.{
  QueueConfig, Queue, System, Action, put, tick, receive, request_flush, close, stop, stored, start,
  perform_all, enqueue, drop_oldest,
}
use event_spec.Provider.Queue.Bounds.{IsBounded, buffer-IsBounded}
use event_spec.Provider.Queue.Delivery.{Accounts, delivery}
use event_spec.Provider.Queue.Stopped.{perform_all-close-stop, shutdown_strands}
use event_spec.Provider.Transport.{
  RetryConfig, World, Reply, failed, response, do_request, rounds, if_zero,
}
use event_spec.Provider.Transport.Retry.{Explains, do_request-Explains}
use event_spec.Provider.Transport.Waits.{IsRandom}

abbrev two_places : QueueConfig
two_places = record {
  batch_size = pos 5;
  flush_interval = pos 0;
  max_queue_size = pos 2;
  overflow_policy = "";
}

-- Three messages, of which the first is evicted, and a tick.
abbrev three_and_a_tick : List (Action ℕ)
three_and_a_tick = put false 1 ∷ put false 2 ∷ put false 3 ∷ tick ∷ []

delivery_example : Accounts (perform_all three_and_a_tick (start two_places))
delivery_example = delivery two_places three_and_a_tick

buffer-IsBounded_example : IsBounded (perform_all three_and_a_tick (start two_places)).queue
buffer-IsBounded_example = buffer-IsBounded two_places three_and_a_tick (inl refl)

abbrev one_short : Queue ℕ
one_short = record {
  batch_size = 2;
  interval = 1;
  max_size = 10;
  overflow = drop_oldest;
  buf = 1 ∷ [];
  closed = false;
  flush_pending = none;
  running = true;
}

abbrev open_system : System ℕ
open_system = record { queue = one_short; history = 1 ∷ []; delivered = []; evicted = 0 }

-- Shutdown closes the queue, the ticker fires once more, and a caller comes too late.
perform_all-close-stop_example :
    let closed = perform_all (close ∷ tick ∷ []) open_system in
    let t = perform_all (stop ∷ three_and_a_tick) closed in
    (t.history ≡ 1 ∷ []) × (t.delivered ++ t.queue.buf ≡ 1 ∷ []) × (t.delivered ≡ closed.delivered)
perform_all-close-stop_example = perform_all-close-stop open_system (tick ∷ []) three_and_a_tick

stores_alone : (enqueue false 2 (record one_short { buf = [] })).1 ≡ stored
unfolding enqueue
stores_alone = refl

shutdown_strands_example :
    let t =
      perform_all
        (request_flush ∷ receive ∷ put false 2 ∷ close ∷ stop ∷ three_and_a_tick)
        open_system in
    (t.delivered ≡ 1 ∷ []) × (t.queue.buf ≡ 2 ∷ [])
shutdown_strands_example =
    shutdown_strands open_system false 2 three_and_a_tick refl refl stores_alone

abbrev two_retries : RetryConfig
two_retries = record {
  max_retries = pos 2;
  initial_backoff = pos 10;
  max_backoff = pos 15;
  jitter = true;
  retryable_errors = [];
}

-- The server is overloaded at first, then unreachable, then answers.
abbrev third_time : ℕ → Reply String
third_time n =
    if eqb n 0 then response 503 else if eqb n 1 then failed "unreachable" else response 200

abbrev recovering : World String
recovering = record {
  reply = third_time;
  done_in_wait = λ n. false;
  done_after = λ n. false;
  multiplied = λ d. d;
  random = λ n k. 0;
}

do_request-Explains_example :
    Explains recovering two_retries
      (rounds (if_zero (pos 2) (pos 3)))
      (do_request recovering two_retries).1
do_request-Explains_example = do_request-Explains recovering two_retries

lowest : IsRandom (λ n. 0)
lowest n = omega arith
