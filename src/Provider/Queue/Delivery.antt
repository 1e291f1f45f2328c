-- ===== src/Provider/Queue/Delivery.antt =====
-- Messages reach the backend in the order in which they were stored, each at most once, and no
-- message is lost but those that the policy drop_oldest evicts.
use mathlib.Core.List.{Sublist}
use mathlib.Core.Path.{subst₂}
use mathlib.Core.List.Sublist as Sub
use event_spec.Prelude.{
  ℕ, ◌+◌, ◌≡◌, ◌≢◌, refl, sym, ap, ◌∙◌, subst, List, [], ◌∷◌, ◌++◌, append_assoc, append-nil, Bool,
  false, ◌&&◌, Option, none, some, String, arith, eq_iff, leb, if◌then◌else◌, ◌==◌, length,
  length-append, Bool-cases, inl, inr,
}
use event_spec.Provider.Queue.{
  QueueConfig, Queue, new_queue, drop_oldest, Outcome, stored, tail, enqueue, do_flush, Action, put,
  tick, receive, request_flush, close, stop, System, start, evictions, record_put, flush,
  take_request, send_request, perform, perform_all,
}
use event_spec.Provider.Queue.Bounds.{store_fields, length-tail}

module _ {A : Type 0} where
  -- What is left of the buffer when a message is stored.
  kept : Queue A → List A
  kept q = if q.overflow == drop_oldest && leb q.max_size (length q.buf) then tail q.buf else q.buf

  expected_buf : A → Queue A → Outcome → List A
  expected_buf msg q stored = kept q ++ (msg ∷ [])
  expected_buf msg q outcome = q.buf

  buf-enqueue :
      (done : Bool) (msg : A) (q : Queue A)
      → (enqueue done msg q).0.buf ≡ expected_buf msg q (enqueue done msg q).1
  unfolding enqueue expected_buf kept
  buf-enqueue done msg q =
      ground (arith, store_fields msg q, store_fields msg (record q { buf = tail q.buf }))

  overflow-enqueue :
      (done : Bool) (msg : A) (q : Queue A) → (enqueue done msg q).0.overflow ≡ q.overflow
  unfolding enqueue
  overflow-enqueue done msg q =
      ground (arith, store_fields msg q, store_fields msg (record q { buf = tail q.buf }))

  length-kept : (q : Queue A) → length (kept q) + evictions q ≡ length q.buf
  unfolding kept evictions
  length-kept q = ground (arith, length-tail q.buf)

  tail-sublist : (xs : List A) → Sublist (tail xs) xs
  unfolding tail
  tail-sublist [] = Sub.refl []
  tail-sublist (x ∷ xs) = Sub.cons x (Sub.refl xs)

  kept-sublist : (q : Queue A) → Sublist (kept q) q.buf
  unfolding kept
  kept-sublist q = elim (Bool-cases (q.overflow == drop_oldest && leb q.max_size (length q.buf))) [
    | inl full ↦ rw full (tail-sublist q.buf)
    | inr room ↦ rw room (Sub.refl q.buf)
  ]

  tail-nil : (xs : List A) → leb 1 (length xs) ≡ false → tail xs ≡ xs
  unfolding tail
  tail-nil [] h = refl
  tail-nil (x ∷ xs) h = absurd (ground arith)

  kept_all : (q : Queue A) → evictions q ≡ 0 → kept q ≡ q.buf
  unfolding kept evictions
  kept_all q h = ground (arith, tail-nil q.buf)

  no_evictions : (q : Queue A) → q.overflow ≢ drop_oldest → evictions q ≡ 0
  unfolding evictions
  no_evictions q h = elim (Bool-cases (q.overflow == drop_oldest)) [
    | inl same ↦ absurd (h ((eq_iff q.overflow drop_oldest).0 same))
    | inr other ↦ rw other refl
  ]

  -- The history accounts for every message that was stored.
  pub record Ledger (policy : String) (delivered buf history : List A) (evicted : ℕ) : Type 0 where
    pub in_order : Sublist (delivered ++ buf) history
    pub counted : length history ≡ length delivered + length buf + evicted
    pub complete : evicted ≡ 0 → delivered ++ buf ≡ history
    pub no_eviction : policy ≢ drop_oldest → evicted ≡ 0

  abbrev pub Accounts : System A → Type 0
  Accounts s = Ledger s.queue.overflow s.delivered s.queue.buf s.history s.evicted

  Ledger-store :
      {policy : String} {d b h : List A} {e : ℕ} (msg : A) (k : List A) (v : ℕ)
      → Ledger policy d b h e
      → Sublist k b
      → length k + v ≡ length b
      → (v ≡ 0 → k ≡ b)
      → (policy ≢ drop_oldest → v ≡ 0)
      → Ledger policy d (k ++ (msg ∷ [])) (h ++ (msg ∷ [])) (e + v)
  Ledger-store {policy} {d} {b} {h} {e} msg k v l sub len same spared = record {
    in_order =
        subst (λ xs. Sublist xs (h ++ (msg ∷ []))) (append_assoc d k (msg ∷ []))
          (Sub.append (Sub.trans (Sub.append (Sub.refl d) sub) l.in_order) (Sub.refl (msg ∷ [])));
    counted = omega (arith, l.counted, len, length-append h (msg ∷ []), length-append k (msg ∷ []));
    complete = λ z.
        sym (append_assoc d k (msg ∷ []))
        ∙ ap (λ xs. xs ++ (msg ∷ []))
            (ap (λ xs. d ++ xs) (same (omega arith)) ∙ l.complete (omega arith));
    no_eviction = λ p. omega (arith, l.no_eviction p, spared p);
  }

  Ledger-flush :
      {policy : String} {d b h : List A} {e : ℕ}
      → Ledger policy d b h e
      → Ledger policy (d ++ b) [] h e
  Ledger-flush {d} {b} {h} l = record {
    in_order = subst (λ xs. Sublist xs h) (sym (append-nil (d ++ b))) l.in_order;
    counted = omega (arith, l.counted, length-append d b);
    complete = λ z. append-nil (d ++ b) ∙ l.complete z;
    no_eviction = l.no_eviction;
  }

  Ledger-store_kept :
      (msg : A) (s : System A)
      → Accounts s
      → Ledger s.queue.overflow s.delivered
          (kept s.queue ++ (msg ∷ []))
          (s.history ++ (msg ∷ []))
          (s.evicted + evictions s.queue)
  Ledger-store_kept msg s h =
      Ledger-store msg (kept s.queue) (evictions s.queue) h (kept-sublist s.queue)
        (length-kept s.queue) (kept_all s.queue) (no_evictions s.queue)

  record_put-Accounts :
      (msg : A) (s : System A) (r : Queue A × Outcome)
      → r.0.buf ≡ expected_buf msg s.queue r.1
      → r.0.overflow ≡ s.queue.overflow
      → Accounts s
      → Accounts (record_put msg s r)
  unfolding record_put expected_buf
  record_put-Accounts msg s (q, stored) b o h =
      subst₂
        (λ p xs. Ledger p s.delivered xs (s.history ++ (msg ∷ [])) (s.evicted + evictions s.queue))
        (sym o) (sym b) (Ledger-store_kept msg s h)
  record_put-Accounts msg s (q, outcome) b o h =
      subst₂ (λ p xs. Ledger p s.delivered xs s.history s.evicted) (sym o) (sym b) h

  flush-Accounts : (s : System A) → Accounts s → Accounts (flush s)
  unfolding flush do_flush
  flush-Accounts s h = Ledger-flush h

  take_request-Accounts :
      (o : Option Bool) (s : System A) → Accounts s → Accounts (take_request o s)
  unfolding take_request
  take_request-Accounts none s h = h
  take_request-Accounts (some w) s h =
      flush-Accounts (record s { queue = record s.queue { flush_pending = none } }) h

  send_request-Accounts :
      (o : Option Bool) (s : System A) → Accounts s → Accounts (send_request o s)
  unfolding send_request
  send_request-Accounts none s h = h
  send_request-Accounts (some w) s h = h

  perform-Accounts : (a : Action A) (s : System A) → Accounts s → Accounts (perform a s)
  unfolding perform
  perform-Accounts (put done msg) s h =
      record_put-Accounts msg s (enqueue done msg s.queue) (buf-enqueue done msg s.queue)
        (overflow-enqueue done msg s.queue) h
  perform-Accounts tick s h = elim (Bool-cases s.queue.running) [
    | inl runs ↦ simp runs (flush-Accounts s h)
    | inr stopped ↦ simp stopped h
  ]
  perform-Accounts receive s h = elim (Bool-cases s.queue.running) [
    | inl runs ↦ simp runs (take_request-Accounts s.queue.flush_pending s h)
    | inr stopped ↦ simp stopped h
  ]
  perform-Accounts request_flush s h = send_request-Accounts s.queue.flush_pending s h
  perform-Accounts close s h = h
  perform-Accounts stop s h = h

  perform_all-Accounts :
      (actions : List (Action A)) (s : System A) → Accounts s → Accounts (perform_all actions s)
  unfolding perform_all
  perform_all-Accounts [] s h = h
  perform_all-Accounts (a ∷ actions) s h =
      perform_all-Accounts actions (perform a s) (perform-Accounts a s h)

  start-Accounts : (cfg : QueueConfig) → Accounts (start {A = A} cfg)
  unfolding start new_queue
  start-Accounts cfg = record {
    in_order = Sub.refl [];
    counted = omega arith;
    complete = λ _. refl;
    no_eviction = λ _. refl;
  }

  -- Whatever the callers, the timer and Shutdown do: what reached the backend, followed by what is
  -- still buffered, is a sublist of what Enqueue stored, in its order; exactly the evicted messages
  -- are missing; with no eviction nothing is missing; and only drop_oldest evicts.
  pub delivery :
      (cfg : QueueConfig) (actions : List (Action A)) → Accounts (perform_all actions (start cfg))
  delivery cfg actions = perform_all-Accounts actions (start cfg) (start-Accounts cfg)
