-- ===== src/Engine/Sound/Scope.antt =====
-- The well-formedness of an engine through resets, boundaries, generations and scopes.
use home_lighting_manager.Common.{String, Bool, Option, List, [], ◌∷◌, arith}
use home_lighting_manager.Common.Dict.{Dict, keys, lookup}
use home_lighting_manager.Common.Text.{Names}
use home_lighting_manager.Common.Action.Invariant.{Preserves, action_rules}
use home_lighting_manager.Model.{OwnershipLayer, FamilySession}
use home_lighting_manager.Engine.State.{Engine}
use home_lighting_manager.Engine.Families.{keep_where}
use home_lighting_manager.Engine.Scope.{
  sweep, reset_homeowner_control, expire_boundary, next_generation, reconfigure, pop_stacks,
  change_scope, rescope, update_managed_entities,
}
use home_lighting_manager.Engine.Invariant.{clear_group_off-keeps}
use home_lighting_manager.Engine.Sound.{AreSound, nil-IsSoundStack, erase-AreSound}
use home_lighting_manager.Engine.Sound.Writes.{
  IsSound, changed-IsSound, keep_where-IsSound, with_stacks-IsSound,
}
use home_lighting_manager.Engine.Sound.Instance.{IsSound-IsStable}

pub empty-AreSound : AreSound []
unfolding lookup
empty-AreSound = record { stack = λ _. nil-IsSoundStack; entities = omega arith }

sweep-IsSound :
    (l : List String) (kept : OwnershipLayer → Bool) (e : Engine)
    → IsSound e
    → IsSound (sweep l kept e).1
unfolding sweep keep_where
sweep-IsSound [] kept e h = h
sweep-IsSound (entity ∷ l) kept e h = sweep-IsSound l kept _ (keep_where-IsSound entity kept e h)

with_families-IsSound :
    (families : Dict (String × String) FamilySession) (e : Engine)
    → IsSound e
    → IsSound (record e { families = families })
with_families-IsSound families e h = record {
  stacks = h.stacks;
  armed = h.armed;
  ledger = h.ledger;
  ended = h.ended;
}

pub reset_homeowner_control-IsSound :
    (e : Engine) → IsSound e → IsSound (reset_homeowner_control e).1
unfolding reset_homeowner_control
reset_homeowner_control-IsSound e h = changed-IsSound _ _ (
    clear_group_off-keeps IsSound _ _
      (with_families-IsSound _ _ (sweep-IsSound (keys e.stacks) _ e h)))

pub expire_boundary-IsSound :
    (boundary : String) (e : Engine) → IsSound e → IsSound (expire_boundary boundary e)
unfolding expire_boundary
expire_boundary-IsSound boundary e h =
    changed-IsSound _ _ (clear_group_off-keeps IsSound _ _ (sweep-IsSound (keys e.stacks) _ e h))

pub next_generation-IsSound : (e : Engine) → IsSound e → IsSound (next_generation e)
unfolding next_generation
next_generation-IsSound e h = clear_group_off-keeps IsSound _ _ (
    changed-IsSound _ _
      (record { stacks = empty-AreSound; armed = h.armed; ledger = h.ledger; ended = omega arith }))

pub reconfigure-IsSound : (l : Names) (e : Engine) → IsSound e → IsSound (reconfigure l e)
unfolding reconfigure
reconfigure-IsSound l e h =
    next_generation-IsSound _
      (record { stacks = h.stacks; armed = h.armed; ledger = h.ledger; ended = h.ended })

pop_stacks-IsSound : (l : List String) (e : Engine) → IsSound e → IsSound (pop_stacks l e)
unfolding pop_stacks
pop_stacks-IsSound [] e h = h
pop_stacks-IsSound (entity ∷ l) e h =
    pop_stacks-IsSound l _ (with_stacks-IsSound e _ h (erase-AreSound entity e.stacks h.stacks))

with_managed-IsSound :
    (managed : Option Names) (e : Engine)
    → IsSound e
    → IsSound (record e { managed_entities = managed })
with_managed-IsSound managed e h = record {
  stacks = h.stacks;
  armed = h.armed;
  ledger = h.ledger;
  ended = h.ended;
}

change_scope-IsSound : (desired : Names) (e : Engine) → IsSound e → IsSound (change_scope desired e)
unfolding change_scope
change_scope-IsSound desired e h =
    changed-IsSound _ _
      (clear_group_off-keeps IsSound _ _ (with_managed-IsSound _ _ (pop_stacks-IsSound _ e h)))

rescope-IsSound : (desired current : Names) → Preserves IsSound (rescope desired current)
unfolding rescope
rescope-IsSound desired current = search (action_rules, change_scope-IsSound) depth 12

pub update_managed_entities-IsSound : (l : Names) → Preserves IsSound (update_managed_entities l)
unfolding update_managed_entities
update_managed_entities-IsSound l = search (action_rules, rescope-IsSound) depth 14
