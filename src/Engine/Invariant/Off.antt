-- ===== src/Engine/Invariant/Off.antt =====
-- Stable properties of the engine through the OFF operations.
use home_lighting_manager.Common.{String, Bool, true, false, Option, none, some, List, [], ◌∷◌}
use home_lighting_manager.Common.Int.{ℤ}
use home_lighting_manager.Common.Text.{Names}
use home_lighting_manager.Common.Action.{Action}
use home_lighting_manager.Common.Action.Invariant.{Preserves, action_rules}
use home_lighting_manager.Model.{OwnershipLayer, OffAction}
use home_lighting_manager.Engine.State.{Engine}
use home_lighting_manager.Engine.Off.{
  push_manual_off, peel_session, create_manual_off, peel, apply_off, suppress_exposed,
  suppress_named, group_manual_off, second_group_off, release_all, first_group_off, group_phase,
  commit_group_off, apply_group_off,
}
use home_lighting_manager.Engine.Invariant.{
  IsStable, remove_homeowner_exceptions-keeps, remove_homeowner_exceptions-Preserves,
  remove_layer-Preserves, changed-Preserves, invalidate_overlaps-Preserves,
}
use home_lighting_manager.Engine.Invariant.Sessions.{suppress_family-Preserves}
use home_lighting_manager.Engine.Invariant.Admission.{admit_manual-Preserves}

module _ (P : Engine → Type 0) ⦃stable : IsStable P⦄ where
  ruleset off_rules = (
    action_rules, remove_homeowner_exceptions-Preserves, remove_layer-Preserves,
    suppress_family-Preserves, admit_manual-Preserves, changed-Preserves,
    invalidate_overlaps-Preserves,
  )

  pub push_manual_off-Preserves :
      (entity boundary : String) (p : Option ℤ) (id : Option String)
      → Preserves P (push_manual_off entity boundary p id)
  unfolding push_manual_off
  push_manual_off-Preserves entity boundary p id = search off_rules depth 12

  create_manual_off-Preserves :
      (entity : String) (p : Option ℤ) (boundary : String)
      → Preserves P (create_manual_off entity p boundary)
  unfolding create_manual_off
  create_manual_off-Preserves entity p boundary =
      search (off_rules, push_manual_off-Preserves) depth 12

  peel_session-Preserves :
      (layer : OwnershipLayer) (f s : Option String) (m : Action Engine OffAction)
      → Preserves P m
      → Preserves P (peel_session layer f s m)
  unfolding peel_session
  peel_session-Preserves layer (some f) (some s) m h = search off_rules depth 12
  peel_session-Preserves layer (some f) none m h = h
  peel_session-Preserves layer none s m h = h

  peel-Preserves :
      (entity : String) (p : Option ℤ) (boundary : String) (o : Option OwnershipLayer)
      → Preserves P (peel entity p boundary o)
  unfolding peel
  peel-Preserves entity p boundary none = create_manual_off-Preserves entity p boundary
  peel-Preserves entity p boundary (some layer) =
      search (off_rules, create_manual_off-Preserves, peel_session-Preserves) depth 12

  pub apply_off-Preserves :
      (entity : String) (p : Option ℤ) (boundary : String)
      → Preserves P (apply_off entity p boundary)
  unfolding apply_off
  apply_off-Preserves entity p boundary = search (off_rules, peel-Preserves) depth 12

  suppress_named-Preserves : (f s : Option String) → Preserves P (suppress_named f s)
  unfolding suppress_named
  suppress_named-Preserves (some f) (some s) = search off_rules depth 12
  suppress_named-Preserves (some f) none = search off_rules depth 12
  suppress_named-Preserves none s = search off_rules depth 12

  suppress_exposed-Preserves : (o : Option OwnershipLayer) → Preserves P (suppress_exposed o)
  unfolding suppress_exposed
  suppress_exposed-Preserves none = search off_rules depth 12
  suppress_exposed-Preserves (some layer) = suppress_named-Preserves layer.family layer.session_id

  group_manual_off-Preserves :
      (g : String) (p : Option ℤ) (boundary entity : String)
      → Preserves P (group_manual_off g p boundary entity)
  unfolding group_manual_off
  group_manual_off-Preserves g p boundary entity =
      search (off_rules, push_manual_off-Preserves) depth 12

  second_group_off-Preserves :
      (g : String) (l : List String) (p : Option ℤ) (boundary : String)
      → Preserves P (second_group_off g l p boundary)
  unfolding second_group_off
  second_group_off-Preserves g l p boundary =
      search (off_rules, suppress_exposed-Preserves, group_manual_off-Preserves) depth 14

  release_all-keeps : (l : List String) (e : Engine) → P e → P (release_all l e)
  unfolding release_all
  release_all-keeps [] e h = h
  release_all-keeps (entity ∷ l) e h =
      release_all-keeps l _ (remove_homeowner_exceptions-keeps P entity e h)

  first_group_off-keeps :
      (g : String) (members : Names) (l : List String) (e : Engine)
      → P e
      → P (first_group_off g members l e)
  unfolding first_group_off
  first_group_off-keeps g members l e h = stable.arm_P g members _ (release_all-keeps l e h)

  group_phase-Preserves :
      (g : String) (members : Names) (l : List String) (p : Option ℤ) (boundary : String) (b : Bool)
      → Preserves P (group_phase g members l p boundary b)
  unfolding group_phase
  group_phase-Preserves g members l p boundary true = second_group_off-Preserves g l p boundary
  group_phase-Preserves g members l p boundary false =
      search (off_rules, first_group_off-keeps) depth 12

  commit_group_off-Preserves :
      (g : String) (members : Names) (l : List String) (p : Option ℤ) (boundary : String)
      → Preserves P (commit_group_off g members l p boundary)
  unfolding commit_group_off
  commit_group_off-Preserves g members l p boundary =
      search (off_rules, group_phase-Preserves) depth 14

  pub apply_group_off-Preserves :
      (g : String) (l : List String) (eligible : Option Names) (p : Option ℤ) (boundary : String)
      → Preserves P (apply_group_off g l eligible p boundary)
  unfolding apply_group_off
  apply_group_off-Preserves g l eligible p boundary =
      search (off_rules, commit_group_off-Preserves) depth 12
