-- ===== src/Provider/Queue/Stopped.antt =====
-- Shutdown of a queue.
use event_spec.Prelude.{
  ◌≡◌, refl, ap, ◌∙◌, append-nil, if◌then◌else◌, List, [], ◌∷◌, ◌++◌, Bool, true, false, Option,
  none, some, arith,
}
use event_spec.Provider.Queue.{
  Queue, stored, queue_closed, enqueue, do_flush, Action, put, tick, receive, request_flush, close,
  stop, System, record_put, flush, take_request, send_request, perform, perform_all,
}
use event_spec.Provider.Queue.Stored.{put_fields, stored-alone}

module _ {A : Type 0} where
  enqueue-closed :
      (done : Bool) (msg : A) (q : Queue A)
      → q.closed ≡ true
      → enqueue done msg q ≡ (q, queue_closed)
  unfolding enqueue
  enqueue-closed done msg q h = simp h

  -- A queue that is closed and whose run loop has ended.
  record IsShut (s : System A) : Type 0 where
    pub is_closed : s.queue.closed ≡ true
    pub is_stopped : s.queue.running ≡ false

  -- What can be seen of two queues is the same.
  record SameMessages (s t : System A) : Type 0 where
    pub same_delivered : t.delivered ≡ s.delivered
    pub same_buf : t.queue.buf ≡ s.queue.buf
    pub same_history : t.history ≡ s.history

  perform-IsShut :
      (a : Action A) (s : System A) → IsShut s → IsShut (perform a s) × SameMessages s (perform a s)
  unfolding perform
  perform-IsShut (put done msg) s h = simp (enqueue-closed done msg s.queue h.is_closed) (
      unfold record_put in
      (h, record { same_delivered = refl; same_buf = refl; same_history = refl }))
  perform-IsShut tick s h = ground arith
  perform-IsShut receive s h = ground arith
  perform-IsShut request_flush s h = send s.queue.flush_pending
    where
      send : (o : Option Bool) → IsShut (send_request o s) × SameMessages s (send_request o s)
      send none = unfold send_request in ground arith
      send (some w) = unfold send_request in ground arith
  perform-IsShut close s h = ground arith
  perform-IsShut stop s h = ground arith

  perform_all-IsShut :
      (actions : List (Action A)) (s : System A)
      → IsShut s
      → IsShut (perform_all actions s) × SameMessages s (perform_all actions s)
  unfolding perform_all
  perform_all-IsShut [] s h =
      (h, record { same_delivered = refl; same_buf = refl; same_history = refl })
  perform_all-IsShut (a ∷ actions) s h =
      let (h', m) = perform-IsShut a s h in
      let (h'', m') = perform_all-IsShut actions (perform a s) h' in
      (
        h'',
        record {
          same_delivered = m'.same_delivered ∙ m.same_delivered;
          same_buf = m'.same_buf ∙ m.same_buf;
          same_history = m'.same_history ∙ m.same_history;
        },
      )

  shut : (t : System A) → IsShut (perform stop (perform close t))
  unfolding perform
  shut t = record { is_closed = refl; is_stopped = refl }

  -- A closed queue stores nothing, and its messages are in the buffer until they are delivered.
  abbrev Settled : System A → System A → Type 0
  Settled s t =
      (t.queue.closed ≡ true)
      × (t.history ≡ s.history)
      × (t.delivered ++ t.queue.buf ≡ s.delivered ++ s.queue.buf)

  flush-Settled : (s : System A) → s.queue.closed ≡ true → Settled s (flush s)
  unfolding flush do_flush
  flush-Settled s h = (h, refl, append-nil (s.delivered ++ s.queue.buf))

  request-Settled :
      (s : System A) (o : Option Bool) → s.queue.closed ≡ true → Settled s (send_request o s)
  unfolding send_request
  request-Settled s none h = (h, refl, refl)
  request-Settled s (some w) h = (h, refl, refl)

  take-Settled :
      (s : System A) (o : Option Bool) → s.queue.closed ≡ true → Settled s (take_request o s)
  unfolding take_request
  take-Settled s none h = (h, refl, refl)
  take-Settled s (some w) h =
      flush-Settled (record s { queue = record s.queue { flush_pending = none } }) h

  running-Settled :
      (s t : System A) (b : Bool)
      → s.queue.closed ≡ true
      → Settled s t
      → Settled s (if b then t else s)
  running-Settled s t true h settled = settled
  running-Settled s t false h settled = (h, refl, refl)

  perform-Settled : (a : Action A) (s : System A) → s.queue.closed ≡ true → Settled s (perform a s)
  unfolding perform
  perform-Settled (put done msg) s h =
      simp (enqueue-closed done msg s.queue h) (unfold record_put in (h, refl, refl))
  perform-Settled tick s h = running-Settled s _ s.queue.running h (flush-Settled s h)
  perform-Settled receive s h =
      running-Settled s _ s.queue.running h (take-Settled s s.queue.flush_pending h)
  perform-Settled request_flush s h = request-Settled s s.queue.flush_pending h
  perform-Settled close s h = (refl, refl, refl)
  perform-Settled stop s h = (h, refl, refl)

  perform_all-Settled :
      (actions : List (Action A)) (s : System A)
      → s.queue.closed ≡ true
      → Settled s (perform_all actions s)
  unfolding perform_all
  perform_all-Settled [] s h = (h, refl, refl)
  perform_all-Settled (a ∷ actions) s h =
      let (h', stays, total) = perform-Settled a s h in
      let (h'', stays', total') = perform_all-Settled actions (perform a s) h' in
      (h'', stays' ∙ stays, total' ∙ total)

  -- When Shutdown closes the queue and, after actions of anyone, stops the run loop, then whatever
  -- follows: from the closing on no Enqueue stores a message and none is lost, those in the buffer
  -- being delivered in their order or left there; and from the stop on none is delivered.
  pub perform_all-close-stop :
      (s : System A) (between later : List (Action A))
      → let closed = perform_all (close ∷ between) s in
        let t = perform_all (stop ∷ later) closed in
        (t.history ≡ s.history)
        × (t.delivered ++ t.queue.buf ≡ s.delivered ++ s.queue.buf)
        × (t.delivered ≡ closed.delivered)
  unfolding perform_all
  perform_all-close-stop s between later =
      let c = perform close s in
      let shuts : c.queue.closed ≡ true = unfold perform in refl in
      let closed = perform_all between c in
      let (still, stays, total) = perform_all-Settled between c shuts in
      let (still', stays', total') = perform-Settled stop closed still in
      let is_shut : IsShut (perform stop closed) =
        unfold perform in record { is_closed = still; is_stopped = refl } in
      let (_, stays'', total'') = perform_all-Settled later (perform stop closed) still' in
      let (_, same) = perform_all-IsShut later (perform stop closed) is_shut in
      (
        stays'' ∙ (stays' ∙ (stays ∙ unfold perform in refl)),
        total'' ∙ (total' ∙ (total ∙ unfold perform in refl)),
        same.same_delivered ∙ unfold perform in refl,
      )

  drained :
      (s : System A)
      → s.queue.running ≡ true
      → s.queue.flush_pending ≡ none
      → perform receive (perform request_flush s) ≡ record s {
        queue = record s.queue { buf = []; flush_pending = none };
        delivered = s.delivered ++ s.queue.buf;
      }
  unfolding perform send_request take_request flush do_flush
  drained s runs idle = simp (idle, runs) refl

  -- On a queue that runs with no request pending: when the flush of Shutdown has emptied the buffer,
  -- an Enqueue stores a message, and the queue is closed and stopped before the run loop takes
  -- another request or a tick, then, whatever follows, the message stays alone in the buffer and only
  -- the messages before it are delivered, though its Enqueue returned nil.
  pub shutdown_strands :
      (s : System A) (done : Bool) (msg : A) (actions : List (Action A))
      → s.queue.running ≡ true
      → s.queue.flush_pending ≡ none
      → (enqueue done msg (record s.queue { buf = []; flush_pending = none })).1 ≡ stored
      → let t = perform_all (request_flush ∷ receive ∷ put done msg ∷ close ∷ stop ∷ actions) s in
        (t.delivered ≡ s.delivered ++ s.queue.buf) × (t.queue.buf ≡ msg ∷ [])
  unfolding perform_all
  shutdown_strands s done msg actions runs idle kept =
      let empty : Queue A = record s.queue { buf = []; flush_pending = none } in
      let u : System A = record s { queue = empty; delivered = s.delivered ++ s.queue.buf } in
      let t = perform (put done msg) u in
      let (_, same) = perform_all-IsShut actions (perform stop (perform close t)) (shut t) in
      let (d, q) = put_fields u msg (enqueue done msg empty) in
      let start = drained s runs idle in
      let run : System A → System A =
        λ x. perform_all actions (perform stop (perform close (perform (put done msg) x))) in
      (
        ap (λ x. (run x).delivered) start ∙ (same.same_delivered ∙ unfold perform in d),
        ap (λ x. (run x).queue.buf) start
            ∙ (same.same_buf
                ∙ unfold perform in (ap (λ x. x.buf) q ∙ stored-alone done msg empty refl kept)),
      )
