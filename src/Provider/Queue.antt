-- ===== src/Provider/Queue.antt =====
-- The event queue of a provider (provider/queue.go). A method that holds the mutex is one step. The
-- run loop, the callers and the timers interleave: `perform` makes one action of any of them, and a
-- run of the program is a list of actions. The backend, FlushFunc, appears as the list of batches
-- that it was given. The flush channel has room for one request.
pub mod Bounds
pub mod Delivery
pub mod Stored
pub mod Stopped
use event_spec.Prelude.{
  ℕ, Bool, true, false, not, ◌&&◌, List, [], ◌∷◌, ◌++◌, Option, none, some, String, ◌+◌, leb, eqb,
  if◌then◌else◌, ◌==◌, length,
}
use event_spec.Prelude.Int.{ℤ, pos, negsuc}

abbrev pub drop_oldest : String
drop_oldest = "drop_oldest"

abbrev pub drop_newest : String
drop_newest = "drop_newest"

abbrev pub block : String
block = "block"

-- the fields of ProviderConfig that NewQueue reads; an interval is in nanoseconds
pub record QueueConfig : Type 0 where
  pub batch_size : ℤ
  pub flush_interval : ℤ
  pub max_queue_size : ℤ
  pub overflow_policy : String

-- type Queue. `flush_pending` is the channel flushCh, with what a request waits for: `some true` is
-- a Flush that waits for its answer, `some false` a trigger. `running` is the goroutine of `run`.
pub record Queue (A : Type 0) : Type 0 where
  pub batch_size : ℕ
  pub interval : ℕ
  pub max_size : ℕ
  pub overflow : String
  pub buf : List A
  pub closed : Bool
  pub flush_pending : Option Bool
  pub running : Bool

-- `if n <= 0 { n = fallback }`
unfoldable pub or_default : ℤ → ℕ → ℕ
or_default (pos n) fallback = if eqb n 0 then fallback else n
or_default (negsuc n) fallback = fallback

-- func NewQueue
unfoldable pub new_queue : {A : Type 0} → QueueConfig → Queue A
new_queue cfg = record {
  batch_size = or_default cfg.batch_size 100;
  interval = or_default cfg.flush_interval 10000000000;
  max_size = or_default cfg.max_queue_size 10000;
  overflow = if cfg.overflow_policy == "" then drop_oldest else cfg.overflow_policy;
  buf = [];
  closed = false;
  flush_pending = none;
  running = true;
}

-- How one pass of Enqueue ends. `stored` and `discarded` return nil, `waits` is a call that is
-- blocked in `cond.Wait`.
pub data Outcome : Type 0 where
  stored discarded queue_closed cancelled waits : Outcome

unfoldable pub tail : {A : Type 0} → List A → List A
tail [] = []
tail (x ∷ xs) = xs

module _ {A : Type 0} where
  -- the non-blocking send on flushCh
  unfoldable pub trigger : Queue A → Option Bool → Queue A
  trigger q none = record q { flush_pending = some false }
  trigger q (some waiting) = q

  -- The end of Enqueue: the append, and the trigger of a full batch.
  unfoldable pub store : A → Queue A → Queue A
  store msg q =
      let q' = record q { buf = q.buf ++ (msg ∷ []) } in
      if leb q.batch_size (length q'.buf) then trigger q' q'.flush_pending else q'

  -- func Enqueue, from the moment that it holds the mutex, or wakes up in `cond.Wait`. `done` is
  -- whether its context is cancelled.
  unfoldable pub enqueue : Bool → A → Queue A → Queue A × Outcome
  enqueue done msg q =
      if q.closed
      then (q, queue_closed)
      else if q.overflow == drop_oldest
      then (
        store msg (if leb q.max_size (length q.buf) then record q { buf = tail q.buf } else q),
        stored,
      )
      else if q.overflow == drop_newest
      then (if leb q.max_size (length q.buf) then (q, discarded) else (store msg q, stored))
      else if q.overflow == block
      then (if done
          then (q, cancelled)
          else if leb q.max_size (length q.buf)
          then (q, waits)
          else (store msg q, stored))
      else (store msg q, stored)

  -- func doFlush: the queue, and the batch for the backend; no batch is an empty one
  unfoldable pub do_flush : Queue A → Queue A × List A
  do_flush q = (record q { buf = [] }, q.buf)

-- What can happen to a queue: a caller enters Enqueue or wakes up there, the ticker fires, the run
-- loop takes a request, Flush sends one, and Shutdown closes the queue and then stops the loop.
pub data Action (A : Type 0) : Type 0 where
  put : Bool → A → Action A
  tick : Action A
  receive : Action A
  request_flush : Action A
  close : Action A
  stop : Action A

-- A queue with its history: the messages that Enqueue stored, and the ones that reached the backend,
-- both in order, and how many stored ones were evicted.
pub record System (A : Type 0) : Type 0 where
  pub queue : Queue A
  pub open queue use *
  pub history : List A
  pub delivered : List A
  pub evicted : ℕ

module _ {A : Type 0} where
  unfoldable pub start : QueueConfig → System A
  start cfg = record { queue = new_queue cfg; history = []; delivered = []; evicted = 0 }

  -- the messages that an Enqueue pushes out
  unfoldable pub evictions : Queue A → ℕ
  evictions q =
      if q.overflow == drop_oldest && leb q.max_size (length q.buf)
      then (if leb 1 (length q.buf) then 1 else 0)
      else 0

  unfoldable pub record_put : A → System A → Queue A × Outcome → System A
  record_put msg s (q, stored) = record s {
    queue = q;
    history = s.history ++ (msg ∷ []);
    evicted = s.evicted + evictions s.queue;
  }
  record_put msg s (q, outcome) = record s { queue = q }

  unfoldable pub flush : System A → System A
  flush s =
      let (q, batch) = do_flush s.queue in record s { queue = q; delivered = s.delivered ++ batch }

  unfoldable pub take_request : Option Bool → System A → System A
  take_request none s = s
  take_request (some waiting) s =
      flush (record s { queue = record s.queue { flush_pending = none } })

  unfoldable pub send_request : Option Bool → System A → System A
  send_request none s = record s { queue = record s.queue { flush_pending = some true } }
  send_request (some waiting) s = s

  -- One action; one that cannot happen now changes nothing.
  unfoldable pub perform : Action A → System A → System A
  perform (put done msg) s = record_put msg s (enqueue done msg s.queue)
  perform tick s = if s.queue.running then flush s else s
  perform receive s = if s.queue.running then take_request s.queue.flush_pending s else s
  perform request_flush s = send_request s.queue.flush_pending s
  perform close s = record s { queue = record s.queue { closed = true } }
  perform stop s = record s { queue = record s.queue { running = false } }

  unfoldable pub perform_all : List (Action A) → System A → System A
  perform_all [] s = s
  perform_all (a ∷ actions) s = perform_all actions (perform a s)
