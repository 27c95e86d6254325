-- ===== src/Engine/Reachable.antt =====
-- The engine as a state machine: the steps that its public operations make, and what they reach.
use home_lighting_manager.Common.{
  ℕ, ◌≤◌, String, Bool, Option, none, some, List, arith, length, filter, Bool-cases, inl, inr,
}
use home_lighting_manager.Common.Int.{ℤ}
use home_lighting_manager.Common.Text.{Names}
use home_lighting_manager.Model.{OwnershipLayer, WorkToken, is_manual, is_homeowner_kind}
use home_lighting_manager.Engine.State.{Engine, new_engine, invalidate_work, layers}
use home_lighting_manager.Engine.Groups.{reset_group_off_sequence, reset_group_off_for_members}
use home_lighting_manager.Engine.Families.{
  remove_layer, remove_owner, remove_homeowner_exceptions, evening_activation, end_family,
  start_family, suppress_family,
}
use home_lighting_manager.Engine.Stack.{push, admit_manual, activate_automatic}
use home_lighting_manager.Engine.Stack.Sizes.{length-homeowners-le}
use home_lighting_manager.Engine.Off.{
  push_manual_off, manual_release, release_manual, apply_off, apply_group_off,
}
use home_lighting_manager.Engine.Scope.{
  reset_homeowner_control, expire_boundary, next_generation, reconfigure, update_managed_entities,
}
use home_lighting_manager.Engine.Invariant.{
  remove_layer-keeps, remove_homeowner_exceptions-keeps, remove_where-keeps,
  evening_activation-keeps, reset_group_off_sequence-keeps, reset_group_off_for_members-keeps,
  invalidate_work-keeps,
}
use home_lighting_manager.Engine.Invariant.Sessions.{
  start_family-Preserves, end_family-Preserves, suppress_family-Preserves,
}
use home_lighting_manager.Engine.Invariant.Admission.{
  admit_manual-Preserves, activate_automatic-Preserves,
}
use home_lighting_manager.Engine.Invariant.Off.{
  push_manual_off-Preserves, apply_off-Preserves, apply_group_off-Preserves,
}
use home_lighting_manager.Engine.Sound.Writes.{IsSound}
use home_lighting_manager.Engine.Sound.Pushes.{push-IsSound}
use home_lighting_manager.Engine.Sound.Instance.{IsSound-IsStable}
use home_lighting_manager.Engine.Sound.Scope.{
  empty-AreSound, reset_homeowner_control-IsSound, expire_boundary-IsSound, next_generation-IsSound,
  reconfigure-IsSound, update_managed_entities-IsSound,
}

-- One call of a public operation, whether it returns or raises.
pub data Step (e : Engine) : Engine → Type 0 where
  pushes :
      (entity : String) (layer : OwnershipLayer) (t : Option WorkToken)
      → Step e (push entity layer t e).1
  admits : (entity : String) (layer : OwnershipLayer) → Step e (admit_manual entity layer e).1
  activates :
      (entity : String) (layer : OwnershipLayer) (supersede : Bool) (priority : Option ℤ)
      (protects : Bool) (t : Option WorkToken)
      → Step e (activate_automatic entity layer supersede priority protects t e).1
  removes : (entity id : String) → Step e (remove_layer entity id e)
  removes_owner : (entity owner : String) → Step e (remove_owner entity owner e)
  releases : (entity : String) → Step e (remove_homeowner_exceptions entity e)
  releases_manual : (entity : String) → Step e (manual_release entity e).1
  turns_off :
      (entity : String) (precedence : Option ℤ) (boundary : String)
      → Step e (apply_off entity precedence boundary e).1
  turns_group_off :
      (group : String) (entities : List String) (eligible : Option Names) (precedence : Option ℤ)
      (boundary : String)
      → Step e (apply_group_off group entities eligible precedence boundary e).1
  pushes_off :
      (entity boundary : String) (precedence : Option ℤ) (id : Option String)
      → Step e (push_manual_off entity boundary precedence id e).1
  starts :
      (family session : String) (sequence : Option ℕ) (t : Option WorkToken)
      → Step e (start_family family session sequence t e).1
  suppresses :
      (family session reason : String) (t : Option WorkToken)
      → Step e (suppress_family family session reason t e).1
  ends : (family session : String) (t : Option WorkToken) → Step e (end_family family session t e).1
  activates_evening : Step e (evening_activation e)
  resets_groups : (group : Option String) → Step e (reset_group_off_sequence group e)
  disarms : (members : Names) → Step e (reset_group_off_for_members members e)
  invalidates : (reason : String) → Step e (invalidate_work reason e)
  resets : Step e (reset_homeowner_control e).1
  expires : (boundary : String) → Step e (expire_boundary boundary e)
  advances : Step e (next_generation e)
  reconfigures : (entities : Names) → Step e (reconfigure entities e)
  rescopes : (entities : Names) → Step e (update_managed_entities entities e).1

-- What a run of operations reaches from a new engine.
pub data Reachable : Engine → Type 0 where
  fresh :
      (authority : String) (generation : ℕ) (managed : Option Names)
      → Reachable (new_engine authority generation managed)
  after : {e d : Engine} → Reachable e → Step e d → Reachable d

new_engine-IsSound :
    (authority : String) (generation : ℕ) (managed : Option Names)
    → IsSound (new_engine authority generation managed)
unfolding new_engine
new_engine-IsSound authority generation managed = record {
  stacks = empty-AreSound;
  armed = omega arith;
  ledger = omega arith;
  ended = omega arith;
}

release_manual-IsSound :
    (o : Option OwnershipLayer) (entity : String) (e : Engine)
    → IsSound e
    → IsSound (release_manual o entity e).1
unfolding release_manual
release_manual-IsSound none entity e h = h
release_manual-IsSound (some layer) entity e h = elim (Bool-cases (is_manual layer.kind)) [
  | inl yes' ↦ rw yes' (remove_layer-keeps IsSound entity layer.layer_id e h)
  | inr no' ↦ rw no' h
]

manual_release-IsSound :
    (entity : String) (e : Engine) → IsSound e → IsSound (manual_release entity e).1
unfolding manual_release
manual_release-IsSound entity e h = release_manual-IsSound _ entity e h

remove_owner-IsSound :
    (entity owner : String) (e : Engine) → IsSound e → IsSound (remove_owner entity owner e)
unfolding remove_owner
remove_owner-IsSound entity owner e h = remove_where-keeps IsSound entity _ _ e h

Step-IsSound : {e d : Engine} → Step e d → IsSound e → IsSound d
Step-IsSound (pushes entity layer t) h = (push-IsSound entity layer t).run _ h
Step-IsSound (admits entity layer) h = (admit_manual-Preserves IsSound entity layer).run _ h
Step-IsSound (activates entity layer s p b t) h =
    (activate_automatic-Preserves IsSound entity layer s p b t).run _ h
Step-IsSound (removes entity id) h = remove_layer-keeps IsSound entity id _ h
Step-IsSound (removes_owner entity owner) h = remove_owner-IsSound entity owner _ h
Step-IsSound (releases entity) h = remove_homeowner_exceptions-keeps IsSound entity _ h
Step-IsSound (releases_manual entity) h = manual_release-IsSound entity _ h
Step-IsSound (turns_off entity p b) h = (apply_off-Preserves IsSound entity p b).run _ h
Step-IsSound (turns_group_off g l m p b) h = (apply_group_off-Preserves IsSound g l m p b).run _ h
Step-IsSound (pushes_off entity b p id) h =
    (push_manual_off-Preserves IsSound entity b p id).run _ h
Step-IsSound (starts f s n t) h = (start_family-Preserves IsSound f s n t).run _ h
Step-IsSound (suppresses f s r t) h = (suppress_family-Preserves IsSound f s r t).run _ h
Step-IsSound (ends f s t) h = (end_family-Preserves IsSound f s t).run _ h
Step-IsSound activates_evening h = evening_activation-keeps IsSound _ h
Step-IsSound (resets_groups g) h = reset_group_off_sequence-keeps IsSound g _ h
Step-IsSound (disarms l) h = reset_group_off_for_members-keeps IsSound l _ h
Step-IsSound (invalidates r) h = invalidate_work-keeps IsSound r _ h
Step-IsSound resets h = reset_homeowner_control-IsSound _ h
Step-IsSound (expires b) h = expire_boundary-IsSound b _ h
Step-IsSound advances h = next_generation-IsSound _ h
Step-IsSound (reconfigures l) h = reconfigure-IsSound l _ h
Step-IsSound (rescopes l) h = (update_managed_entities-IsSound l).run _ h

-- However its operations are called, in any order and whether they return or raise, the engine
-- stays well-formed: in each stack no two layers share an ID or a logical owner, and stacks,
-- entities, armed groups, recorded removals and ended sessions stay within their limits.
pub Reachable-IsSound : {e : Engine} → Reachable e → IsSound e
Reachable-IsSound (fresh a g m) = new_engine-IsSound a g m
Reachable-IsSound (after r step) = Step-IsSound step (Reachable-IsSound r)

-- However the operations are called, at most one layer of an entity's stack is the homeowner's.
pub Reachable-homeowners :
    (e : Engine) (entity : String)
    → Reachable e
    → length (filter (λ layer. is_homeowner_kind layer.kind) (layers e entity)) ≤ 1
unfolding layers
Reachable-homeowners e entity r =
    length-homeowners-le _ ((Reachable-IsSound r).stacks.stack entity).apart
