-- ===== src/Provider/Queue/Stored.antt =====
-- What becomes of a message that Enqueue stores.
use event_spec.Prelude.{◌≡◌, refl, ap, ◌∙◌, ◌⊎◌, inl, inr, [], ◌∷◌, ◌++◌, Bool, arith}
use event_spec.Provider.Queue.{Queue, Outcome, stored, tail, enqueue, System, record_put}
use event_spec.Provider.Queue.Bounds.{store_fields}

module _ {A : Type 0} where
  -- A message that is stored is the last of the buffer, behind the old one or its tail.
  stored-buf :
      (done : Bool) (msg : A) (q : Queue A)
      → (enqueue done msg q).1 ≡ stored
      → ((enqueue done msg q).0.buf ≡ q.buf ++ (msg ∷ []))
        ⊎ ((enqueue done msg q).0.buf ≡ tail q.buf ++ (msg ∷ []))
  unfolding enqueue
  stored-buf done msg q h =
      ground (arith, store_fields msg q, store_fields msg (record q { buf = tail q.buf }), h)

  -- In an empty buffer it is alone.
  pub stored-alone :
      (done : Bool) (msg : A) (q : Queue A)
      → q.buf ≡ []
      → (enqueue done msg q).1 ≡ stored
      → (enqueue done msg q).0.buf ≡ msg ∷ []
  stored-alone done msg q empty h = elim (stored-buf done msg q h) [
    | inl kept ↦ kept ∙ ap (λ xs. xs ++ (msg ∷ [])) empty
    | inr evicted ↦ evicted ∙ unfold tail in ap (λ xs. tail xs ++ (msg ∷ [])) empty
  ]

  pub put_fields :
      (s : System A) (msg : A) (r : Queue A × Outcome)
      → ((record_put msg s r).delivered ≡ s.delivered) × ((record_put msg s r).queue ≡ r.0)
  unfolding record_put
  put_fields s msg (q, stored) = (refl, refl)
  put_fields s msg (q, outcome) = (refl, refl)
