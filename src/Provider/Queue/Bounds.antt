-- ===== src/Provider/Queue/Bounds.antt =====
-- The buffer never holds more than MaxQueueSize messages, under the three overflow policies.
use event_spec.Prelude.{
  subst, sym, Bool-cases, ℕ, ◌-◌, ◌≤◌, ◌≡◌, ◌⊎◌, inl, inr, refl, List, [], ◌∷◌, ◌++◌, Bool, Option,
  none, some, String, arith, eq_iff, length, length-append,
}
use event_spec.Prelude.Int.{ℤ, pos, negsuc}
use event_spec.Provider.Queue.{
  QueueConfig, Queue, or_default, new_queue, drop_oldest, drop_newest, block, Outcome, stored,
  do_flush, tail, trigger, store, enqueue, Action, put, tick, receive, request_flush, close, stop,
  System, start, record_put, flush, take_request, send_request, perform, perform_all,
}

-- The policy is one that the package declares.
abbrev pub IsPolicy : String → Type 0
IsPolicy p = (p ≡ drop_oldest) ⊎ (p ≡ drop_newest) ⊎ (p ≡ block)

pub record IsBounded {A : Type 0} (q : Queue A) : Type 0 where
  pub policy_known : IsPolicy q.overflow
  pub has_size : 1 ≤ q.max_size
  pub within : length q.buf ≤ q.max_size

or_default-pos : (n : ℤ) (fallback : ℕ) → 1 ≤ fallback → 1 ≤ or_default n fallback
unfolding or_default
or_default-pos (pos n) fallback h = ground arith
or_default-pos (negsuc n) fallback h = h

module _ {A : Type 0} where
  trigger_fields :
      (q : Queue A) (o : Option Bool)
      → ((trigger q o).buf ≡ q.buf)
        × ((trigger q o).max_size ≡ q.max_size)
        × ((trigger q o).overflow ≡ q.overflow)
  unfolding trigger
  trigger_fields q none = (refl, refl, refl)
  trigger_fields q (some w) = (refl, refl, refl)

  pub store_fields :
      (msg : A) (q : Queue A)
      → ((store msg q).buf ≡ q.buf ++ (msg ∷ []))
        × ((store msg q).max_size ≡ q.max_size)
        × ((store msg q).overflow ≡ q.overflow)
  unfolding store
  store_fields msg q =
      let q' : Queue A = record q { buf = q.buf ++ (msg ∷ []) } in
      ground (arith, trigger_fields q' q'.flush_pending)

  pub length-tail : (xs : List A) → length (tail xs) ≡ length xs - 1
  unfolding tail
  length-tail [] = omega arith
  length-tail (x ∷ xs) = omega arith

  enqueue-IsBounded :
      (done : Bool) (msg : A) (q : Queue A) → IsBounded q → IsBounded (enqueue done msg q).0
  unfolding enqueue
  enqueue-IsBounded done msg q h = ground (
    arith,
    store_fields msg q,
    store_fields msg (record q { buf = tail q.buf }),
    length-append q.buf (msg ∷ []),
    length-append (tail q.buf) (msg ∷ []),
    length-tail q.buf,
    eq_iff q.overflow drop_oldest,
    eq_iff q.overflow drop_newest,
    eq_iff q.overflow block,
  )

  record_put_queue :
      (msg : A) (s : System A) (r : Queue A × Outcome) → (record_put msg s r).queue ≡ r.0
  unfolding record_put
  record_put_queue msg s (q, stored) = refl
  record_put_queue msg s (q, outcome) = refl

  take_request-IsBounded :
      (o : Option Bool) (s : System A) → IsBounded s.queue → IsBounded (take_request o s).queue
  unfolding take_request flush do_flush
  take_request-IsBounded none s h = h
  take_request-IsBounded (some w) s h = ground arith

  send_request-IsBounded :
      (o : Option Bool) (s : System A) → IsBounded s.queue → IsBounded (send_request o s).queue
  unfolding send_request
  send_request-IsBounded none s h = ground arith
  send_request-IsBounded (some w) s h = h

  perform-IsBounded :
      (a : Action A) (s : System A) → IsBounded s.queue → IsBounded (perform a s).queue
  unfolding perform
  perform-IsBounded (put done msg) s h =
      subst IsBounded (sym (record_put_queue msg s (enqueue done msg s.queue)))
        (enqueue-IsBounded done msg s.queue h)
  perform-IsBounded tick s h = elim (Bool-cases s.queue.running) [
    | inl runs ↦ simp runs (unfold flush do_flush in ground arith)
    | inr stopped ↦ simp stopped h
  ]
  perform-IsBounded receive s h = elim (Bool-cases s.queue.running) [
    | inl runs ↦ simp runs (take_request-IsBounded s.queue.flush_pending s h)
    | inr stopped ↦ simp stopped h
  ]
  perform-IsBounded request_flush s h = send_request-IsBounded s.queue.flush_pending s h
  perform-IsBounded close s h = ground arith
  perform-IsBounded stop s h = ground arith

  perform_all-IsBounded :
      (actions : List (Action A)) (s : System A)
      → IsBounded s.queue
      → IsBounded (perform_all actions s).queue
  unfolding perform_all
  perform_all-IsBounded [] s h = h
  perform_all-IsBounded (a ∷ actions) s h =
      perform_all-IsBounded actions (perform a s) (perform-IsBounded a s h)

  start-IsBounded :
      (cfg : QueueConfig)
      → (cfg.overflow_policy ≡ "") ⊎ IsPolicy cfg.overflow_policy
      → IsBounded (start {A = A} cfg).queue
  unfolding start new_queue
  start-IsBounded cfg h = record {
    policy_known = ground (arith, eq_iff cfg.overflow_policy "");
    has_size = or_default-pos cfg.max_queue_size 10000 (omega arith);
    within = omega arith;
  }

  -- A queue that NewQueue made with a declared policy, or the default one, has at least one place,
  -- and never holds more messages than it has places, whatever the callers and the run loop do.
  pub buffer-IsBounded :
      (cfg : QueueConfig) (actions : List (Action A))
      → (cfg.overflow_policy ≡ "") ⊎ IsPolicy cfg.overflow_policy
      → IsBounded (perform_all actions (start cfg)).queue
  buffer-IsBounded cfg actions h = perform_all-IsBounded actions (start cfg) (start-IsBounded cfg h)
