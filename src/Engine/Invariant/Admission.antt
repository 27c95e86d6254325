-- ===== src/Engine/Invariant/Admission.antt =====
-- Admission of layers preserves a stable property.
use home_lighting_manager.Common.{String, Bool, Option, none, some, string_eq}
use home_lighting_manager.Common.Int.{ℤ}
use home_lighting_manager.Common.Action.Invariant.{Preserves, action_rules}
use home_lighting_manager.Model.{OwnershipLayer, WorkToken}
use home_lighting_manager.Engine.State.{Engine}
use home_lighting_manager.Engine.Stack.{admit_manual, activate_admitted, activate_automatic}
use home_lighting_manager.Engine.Invariant.{
  IsStable, remove_homeowner_exceptions-Preserves, push-Preserves, move_before-Preserves,
}

module _ (P : Engine → Type 0) ⦃stable : IsStable P⦄ where
  ruleset admission_rules =
      (action_rules, remove_homeowner_exceptions-Preserves, push-Preserves, move_before-Preserves)

  pub admit_manual-Preserves :
      (entity : String) (layer : OwnershipLayer) → Preserves P (admit_manual entity layer)
  unfolding admit_manual
  admit_manual-Preserves entity layer = search admission_rules depth 12

  activate_admitted-Preserves :
      (entity : String) (layer : OwnershipLayer) (supersede : Bool) (priority : ℤ)
      (t : Option WorkToken) (o : Option OwnershipLayer)
      → Preserves P (activate_admitted entity layer supersede priority t o)
  unfolding activate_admitted
  activate_admitted-Preserves entity layer supersede priority t none =
      search admission_rules depth 12
  activate_admitted-Preserves entity layer supersede priority t (some old) =
      search admission_rules depth 12

  pub activate_automatic-Preserves :
      (entity : String) (layer : OwnershipLayer) (supersede : Bool) (priority : Option ℤ)
      (protects : Bool) (t : Option WorkToken)
      → Preserves P (activate_automatic entity layer supersede priority protects t)
  unfolding activate_automatic
  activate_automatic-Preserves entity layer supersede priority protects t =
      search (admission_rules, activate_admitted-Preserves) depth 14
