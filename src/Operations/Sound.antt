-- ===== src/Operations/Sound.antt =====
-- Stable properties of the engine through a transaction, its well-formedness among them.
use home_lighting_manager.Common.{ap, sym, Bool-cases, inl, inr}
use mathlib.Core.Path.{subst}
use home_lighting_manager.Engine.State.{Engine}
use home_lighting_manager.Engine.Invariant.{IsStable, invalidate_work-keeps}
use home_lighting_manager.Engine.Sound.Writes.{IsSound}
use home_lighting_manager.Engine.Sound.Instance.{IsSound-IsStable}
use home_lighting_manager.Operations.Record.{HomeownerOperation, Operations, eligible_members}
use home_lighting_manager.Operations.Transaction.{apply, finish}
use home_lighting_manager.Operations.Atomic.{apply-unmutated, apply-Committed}
use home_lighting_manager.Operations.Stable.{effect-Preserves}

module _ (P : Engine → Type 0) ⦃stable : IsStable P⦄ where
  pub apply-keeps :
      (op : HomeownerOperation) (s : Operations) → P s.engine → P (apply op s).1.engine
  unfolding finish
  apply-keeps op s h = elim (Bool-cases (apply op s).0.mutated) [
    | inl yes' ↦
        let c = apply-Committed op s yes' in
        subst P (ap (λ a. a.1.engine) (sym c.answer_eq)) (
          invalidate_work-keeps P _ _
            ((effect-Preserves P op (eligible_members op)).run s.engine h))
    | inr no' ↦ subst P (sym (apply-unmutated op s no')) h
  ]

-- A transaction keeps a well-formed engine well-formed, whether it commits, is refused, or fails half way and
-- is rolled back.
pub apply-IsSound :
    (op : HomeownerOperation) (s : Operations) → IsSound s.engine → IsSound (apply op s).1.engine
apply-IsSound = apply-keeps IsSound
