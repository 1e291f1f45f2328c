-- ===== src/Registry/Store/Audit/Listing.antt =====
-- ListAuditLog in closed form.
use event_spec.Prelude.{
  ℕ, zero, suc, ◌+◌, ◌≡◌, refl, ap, sym, ◌∙◌, inl, inr, true, false, List, [], ◌∷◌, take, keep, map,
  leb, arith, Bool-cases, if◌then◌else◌,
}
use event_spec.Registry.Store.{Engine, querying, reply, failed, AuditRow, Database}
use event_spec.Registry.Store.Keys.{Clock}
use event_spec.Registry.Store.Audit.{
  AuditFilter, audit_entry, page_limit, passes, collect, list_audit_log,
}
use event_spec.Prelude.Int.{ℤ, pos, negsuc}

leb-full : (n : ℕ) → leb (suc zero + n) (suc n) ≡ true
leb-full n = ground arith

leb-more : (k n : ℕ) → leb (suc (suc k) + n) (suc n) ≡ false
leb-more k n = ground arith

limit_shift : (k n : ℕ) → suc (suc k) + n ≡ suc k + suc n
limit_shift k n = omega arith

-- From `n` entries, the loop takes `k + 1` entries at most: those of the filter, in order.
collect-take :
    (clock : Clock) (filter : AuditFilter) (k n : ℕ) (rows : List AuditRow)
    → collect clock filter (suc k + n) n rows
      ≡ take (suc k) (keep (passes filter) (map (audit_entry clock) rows))
unfolding collect keep
collect-take clock filter k n [] = refl
collect-take clock filter zero n (row ∷ rows) =
    elim (Bool-cases (passes filter (audit_entry clock row))) [
      | inr fails ↦ rw fails (collect-take clock filter zero n rows)
      | inl good ↦ rw (good, leb-full n) refl
    ]
collect-take clock filter (suc k) n (row ∷ rows) =
    elim (Bool-cases (passes filter (audit_entry clock row))) [
      | inr fails ↦ rw fails (collect-take clock filter (suc k) n rows)
      | inl good ↦
          rw (good, leb-more k n)
            (ap (λ l. audit_entry clock row ∷ collect clock filter l (suc n) rows) (limit_shift k n)
              ∙ ap (λ es. audit_entry clock row ∷ es) (collect-take clock filter k (suc n) rows))
    ]

-- the limit that a filter stands for is positive
page_limit-suc : (z : ℤ) → (k : ℕ) × (page_limit z ≡ suc k)
unfolding page_limit
page_limit-suc (pos zero) = (49, refl)
page_limit-suc (pos (suc n)) = (n, refl)
page_limit-suc (negsuc n) = (49, refl)

-- ListAuditLog answers the first entries, at most as many as the limit, 50 when the filter has none,
-- of those among the newest 1000 rows that pass the filter, newest first; when the query fails it
-- answers that error.
pub list_audit_log-take :
    {Doc : Type 0} (clock : Clock) (engine : Engine) (filter : AuditFilter) (db : Database Doc)
    → list_audit_log clock engine filter db ≡ (
        if engine.on_query
        then reply (
            take
              (page_limit filter.limit)
              (keep (passes filter) (map (audit_entry clock) (take 1000 db.audit_log))))
        else failed querying)
unfolding list_audit_log
list_audit_log-take clock engine filter db =
    let (k, positive) = page_limit-suc filter.limit in
    let rows = take 1000 db.audit_log in
    ap (λ es. if engine.on_query then reply es else failed querying)
      (ap (λ l. collect clock filter l 0 rows) (positive ∙ omega arith)
        ∙ (collect-take clock filter k 0 rows
            ∙ ap (λ l. take l (keep (passes filter) (map (audit_entry clock) rows)))
                (sym positive)))
