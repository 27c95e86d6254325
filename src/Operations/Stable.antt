-- ===== src/Operations/Stable.antt =====
-- Stable properties of the engine through the effect of an operation.
use home_lighting_manager.Common.{
  String, Bool, true, false, Option, none, some, List, [], ◌∷◌, string_eq,
}
use home_lighting_manager.Common.Int.{ℤ}
use home_lighting_manager.Common.Action.Invariant.{Preserves, action_rules}
use home_lighting_manager.Model.{OwnershipLayer}
use home_lighting_manager.Engine.State.{Engine}
use home_lighting_manager.Engine.Invariant.{
  IsStable, push-Preserves, remove_homeowner_exceptions-Preserves,
  reset_group_off_for_members-Preserves,
}
use home_lighting_manager.Engine.Invariant.Sessions.{suppress_family-Preserves}
use home_lighting_manager.Engine.Invariant.Admission.{admit_manual-Preserves}
use home_lighting_manager.Engine.Invariant.Off.{apply_off-Preserves, apply_group_off-Preserves}
use home_lighting_manager.Operations.Record.{HomeownerOperation, MemberOutcome}
use home_lighting_manager.Operations.Effect.{
  tag_layer, tag_exposed_manual, override_session, override_exposed, admit, apply_appearance,
  apply_offs, apply_appearances, apply_group, apply_singles, apply_all_off, effect,
}

module _ (P : Engine → Type 0) ⦃stable : IsStable P⦄ where
  ruleset effect_rules = (
    action_rules, remove_homeowner_exceptions-Preserves, reset_group_off_for_members-Preserves,
    suppress_family-Preserves, push-Preserves, admit_manual-Preserves, apply_off-Preserves,
    apply_group_off-Preserves,
  )

  tag_layer-Preserves :
      (entity : String) (op : HomeownerOperation) (o : Option OwnershipLayer)
      → Preserves P (tag_layer entity op o)
  unfolding tag_layer
  tag_layer-Preserves entity op none = search effect_rules depth 12
  tag_layer-Preserves entity op (some layer) = search effect_rules depth 12

  tag_exposed_manual-Preserves :
      (op : HomeownerOperation) (entity : String) → Preserves P (tag_exposed_manual op entity)
  unfolding tag_exposed_manual
  tag_exposed_manual-Preserves op entity = search (effect_rules, tag_layer-Preserves) depth 12

  override_session-Preserves :
      (p q : ℤ) (f s : Option String) → Preserves P (override_session p q f s)
  unfolding override_session
  override_session-Preserves p q (some f) (some s) = search effect_rules depth 12
  override_session-Preserves p q (some f) none = search effect_rules depth 12
  override_session-Preserves p q none s = search effect_rules depth 12

  override_exposed-Preserves :
      (p : ℤ) (o : Option OwnershipLayer) → Preserves P (override_exposed p o)
  unfolding override_exposed
  override_exposed-Preserves p none = search effect_rules depth 12
  override_exposed-Preserves p (some c) = override_session-Preserves p _ _ _

  admit-Preserves :
      (b : Bool) (entity : String) (layer : OwnershipLayer) → Preserves P (admit b entity layer)
  unfolding admit
  admit-Preserves true entity layer = admit_manual-Preserves P entity layer
  admit-Preserves false entity layer = push-Preserves P entity layer none

  apply_appearance-Preserves :
      (op : HomeownerOperation) (m : MemberOutcome × Option OwnershipLayer)
      → Preserves P (apply_appearance op m)
  unfolding apply_appearance
  apply_appearance-Preserves op (m, c) =
      search (effect_rules, admit-Preserves, override_exposed-Preserves) depth 14

  apply_offs-Preserves :
      (op : HomeownerOperation) (ms : List MemberOutcome) (reason : String)
      → Preserves P (apply_offs op ms reason)
  unfolding apply_offs
  apply_offs-Preserves op [] reason = search effect_rules depth 12
  apply_offs-Preserves op (m ∷ ms) reason =
      let rest = apply_offs-Preserves op ms in
      search (effect_rules, tag_exposed_manual-Preserves, rest) depth 12

  apply_appearances-Preserves :
      (op : HomeownerOperation) (ms : List MemberOutcome) → Preserves P (apply_appearances op ms)
  unfolding apply_appearances
  apply_appearances-Preserves op ms = search (effect_rules, apply_appearance-Preserves) depth 12

  apply_group-Preserves :
      (op : HomeownerOperation) (g : String) (ms : List MemberOutcome)
      → Preserves P (apply_group op g ms)
  unfolding apply_group
  apply_group-Preserves op g ms = search (effect_rules, tag_exposed_manual-Preserves) depth 12

  apply_singles-Preserves :
      (op : HomeownerOperation) (ms : List MemberOutcome) → Preserves P (apply_singles op ms)
  unfolding apply_singles
  apply_singles-Preserves op ms = search (effect_rules, apply_offs-Preserves) depth 12

  off-Preserves :
      (op : HomeownerOperation) (ms : List MemberOutcome) (g : Option String)
      → Preserves P (apply_all_off op ms g)
  unfolding apply_all_off
  off-Preserves op ms none = apply_singles-Preserves op ms
  off-Preserves op ms (some g) = apply_group-Preserves op g ms

  pub effect-Preserves :
      (op : HomeownerOperation) (ms : List MemberOutcome) → Preserves P (effect op ms)
  unfolding effect
  effect-Preserves op ms =
      search (effect_rules, off-Preserves, apply_appearances-Preserves) depth 12
