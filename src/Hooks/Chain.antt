-- ===== src/Hooks/Chain.antt =====
-- The chain executor, type Chain of hooks/hook.go.
use event_spec.Prelude.{List, [], ◌∷◌, Option, none, some, ◌≡◌, refl}
use event_spec.Hooks.{EventEnvelope, HookContext, cancel, pass, replace, Hook}

pub data Outcome (E : Type 0) : Type 0 where
  cancelled : E → Outcome E
  done : Option EventEnvelope → Outcome E

-- What Chain.Before changes in the context for the later hooks.
abbrev pub advance : HookContext → EventEnvelope → HookContext
advance hc e = record hc { event_name = e.event_name; context = e.context }

module _ {E : Type 0} where
  unfoldable pub chain_from : List (Hook E) → HookContext → Option EventEnvelope → Outcome E
  chain_from [] hc latest = done latest
  chain_from (h ∷ hooks) hc latest = elim (h hc) [
    | cancel e ↦ cancelled e
    | pass ↦ chain_from hooks hc latest
    | replace e ↦ chain_from hooks (advance hc e) (some e)
  ]

  -- func (c Chain) Before
  unfoldable pub chain_before : List (Hook E) → HookContext → Outcome E
  chain_before hooks hc = chain_from hooks hc none

  -- The hooks behind one that replaces the event are shown its new name and context, and the
  -- message of the old event.
  chain_before-replace :
      (h : Hook E) (hooks : List (Hook E)) (hc : HookContext) (e : EventEnvelope)
      → h hc ≡ replace e
      → chain_before (h ∷ hooks) hc
        ≡ chain_from hooks (record hc { event_name = e.event_name; context = e.context }) (some e)
  unfolding chain_before chain_from
  chain_before-replace h hooks hc e r = rw r refl
