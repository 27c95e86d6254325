-- ===== src/Engine/Overtaken.antt =====
-- What the engine does with the token of a calculation that has been overtaken.
use home_lighting_manager.Common.{
  ℕ, ◌≤◌, ◌<◌, String, Bool, false, Option, none, some, List, [], ◌∷◌, ◌≡◌, refl, arith, Bool-cases,
  inl, inr,
}
use home_lighting_manager.Common.Int.{ℤ}
use home_lighting_manager.Common.Text.{Names}
use home_lighting_manager.Common.Dict.{keys}
use home_lighting_manager.Common.Action.{err, ◌>>=◌}
use home_lighting_manager.Common.Action.Invariant.{Preserves, action_rules}
use home_lighting_manager.Model.{OwnershipLayer, WorkToken, is_manual, token_eq}
use home_lighting_manager.Engine.State.{Engine, changed, is_current_work, is_stale, work_token}
use home_lighting_manager.Engine.Groups.{clear_group_off}
use home_lighting_manager.Engine.Families.{
  keep_stack, remove_owner, start_family, end_family, suppress_family,
}
use home_lighting_manager.Engine.Stack.{push, push_refusal, activate_automatic, is_system_kind}
use home_lighting_manager.Engine.Off.{release_manual, manual_release}
use home_lighting_manager.Engine.Scope.{
  sweep, reset_homeowner_control, expire_boundary, next_generation, reconfigure, pop_stacks,
  change_scope, rescope, update_managed_entities,
}
use home_lighting_manager.Engine.Frame.{Frame, Frame-refl, Frame-IsStable}
use home_lighting_manager.Engine.Invariant.{
  remove_layer-keeps, remove_homeowner_exceptions-keeps, remove_where-keeps,
  evening_activation-keeps, reset_group_off_sequence-keeps, reset_group_off_for_members-keeps,
  invalidate_work-keeps, clear_group_off-keeps, push-Preserves,
}
use home_lighting_manager.Engine.Invariant.Sessions.{
  start_family-Preserves, end_family-Preserves, suppress_family-Preserves,
}
use home_lighting_manager.Engine.Invariant.Admission.{
  admit_manual-Preserves, activate_automatic-Preserves,
}
use home_lighting_manager.Engine.Invariant.Off.{
  push_manual_off-Preserves, apply_off-Preserves, apply_group_off-Preserves,
}
use home_lighting_manager.Engine.Reachable.{
  Step, pushes, admits, activates, removes, removes_owner, releases, releases_manual, turns_off,
  turns_group_off, pushes_off, starts, suppresses, ends, activates_evening, resets_groups, disarms,
  invalidates, resets, expires, advances, reconfigures, rescopes,
}

-- A run of public operations from one engine to another.
pub data Steps (e : Engine) : Engine → Type 0 where
  stays : Steps e e
  goes_on : {d c : Engine} → Steps e d → Step d c → Steps e c

-- The revision has come at least to `n`.
pub record HasRevision (n : ℕ) (e : Engine) : Type 0 where
  pub reached : n ≤ e.revision

framed : (n : ℕ) (e d : Engine) → Frame e d → HasRevision n e → HasRevision n d
framed n e d f h = record { reached = omega (arith, f.revision, h.reached) }

module _ (n : ℕ) where
  changed-HasRevision : (r : String) (e : Engine) → HasRevision n e → HasRevision n (changed r e)
  unfolding changed
  changed-HasRevision r e h = record { reached = omega (arith, h.reached) }

  clear-HasRevision :
      (r : String) (e : Engine) → HasRevision n e → HasRevision n (clear_group_off r e)
  clear-HasRevision r e = framed n e _ (clear_group_off-keeps (Frame e) r e (Frame-refl e))

  sweep-HasRevision :
      (l : List String) (kept : OwnershipLayer → Bool) (e : Engine)
      → HasRevision n e
      → HasRevision n (sweep l kept e).1
  unfolding sweep keep_stack
  sweep-HasRevision [] kept e h = h
  sweep-HasRevision (entity ∷ l) kept e h =
      sweep-HasRevision l kept _ (record { reached = h.reached })

  pop_stacks-HasRevision :
      (l : List String) (e : Engine) → HasRevision n e → HasRevision n (pop_stacks l e)
  unfolding pop_stacks
  pop_stacks-HasRevision [] e h = h
  pop_stacks-HasRevision (entity ∷ l) e h =
      pop_stacks-HasRevision l _ (record { reached = h.reached })

  reset-HasRevision : (e : Engine) → HasRevision n e → HasRevision n (reset_homeowner_control e).1
  unfolding reset_homeowner_control
  reset-HasRevision e h = changed-HasRevision _ _ (
      clear-HasRevision _ _
        (record { reached = (sweep-HasRevision (keys e.stacks) _ e h).reached }))

  expire-HasRevision :
      (boundary : String) (e : Engine)
      → HasRevision n e
      → HasRevision n (expire_boundary boundary e)
  unfolding expire_boundary
  expire-HasRevision boundary e h =
      changed-HasRevision _ _ (clear-HasRevision _ _ (sweep-HasRevision (keys e.stacks) _ e h))

  next-HasRevision : (e : Engine) → HasRevision n e → HasRevision n (next_generation e)
  unfolding next_generation
  next-HasRevision e h =
      clear-HasRevision _ _ (changed-HasRevision _ _ (record { reached = h.reached }))

  change_scope-HasRevision :
      (desired : Names) (e : Engine) → HasRevision n e → HasRevision n (change_scope desired e)
  unfolding change_scope
  change_scope-HasRevision desired e h =
      changed-HasRevision _ _
        (clear-HasRevision _ _ (record { reached = (pop_stacks-HasRevision _ e h).reached }))

  rescope-HasRevision :
      (desired current : Names) → Preserves (HasRevision n) (rescope desired current)
  unfolding rescope
  rescope-HasRevision desired current = search (action_rules, change_scope-HasRevision) depth 12

  update-HasRevision : (l : Names) → Preserves (HasRevision n) (update_managed_entities l)
  unfolding update_managed_entities
  update-HasRevision l = search (action_rules, rescope-HasRevision) depth 14

release_manual-Frame :
    (o : Option OwnershipLayer) (entity : String) (e : Engine)
    → Frame e (release_manual o entity e).1
unfolding release_manual
release_manual-Frame none entity e = Frame-refl e
release_manual-Frame (some layer) entity e = elim (Bool-cases (is_manual layer.kind)) [
  | inl yes' ↦ rw yes' (remove_layer-keeps (Frame e) entity layer.layer_id e (Frame-refl e))
  | inr no' ↦ rw no' (Frame-refl e)
]

manual_release-Frame : (entity : String) (e : Engine) → Frame e (manual_release entity e).1
unfolding manual_release
manual_release-Frame entity e = release_manual-Frame _ entity e

remove_owner-Frame : (entity owner : String) (e : Engine) → Frame e (remove_owner entity owner e)
unfolding remove_owner
remove_owner-Frame entity owner e = remove_where-keeps (Frame e) entity _ _ e (Frame-refl e)

reconfigure-HasRevision :
    (n : ℕ) (l : Names) (e : Engine) → HasRevision n e → HasRevision n (reconfigure l e)
unfolding reconfigure
reconfigure-HasRevision n l e h = next-HasRevision n _ (record { reached = h.reached })

Step-HasRevision : {n : ℕ} {e d : Engine} → Step e d → HasRevision n e → HasRevision n d
Step-HasRevision {n} {e} (pushes entity layer t) =
    framed n e _ ((push-Preserves (Frame e) entity layer t).run e (Frame-refl e))
Step-HasRevision {n} {e} (admits entity layer) =
    framed n e _ ((admit_manual-Preserves (Frame e) entity layer).run e (Frame-refl e))
Step-HasRevision {n} {e} (activates entity layer s p b t) =
    framed n e _
      ((activate_automatic-Preserves (Frame e) entity layer s p b t).run e (Frame-refl e))
Step-HasRevision {n} {e} (removes entity id) =
    framed n e _ (remove_layer-keeps (Frame e) entity id e (Frame-refl e))
Step-HasRevision {n} {e} (removes_owner entity owner) =
    framed n e _ (remove_owner-Frame entity owner e)
Step-HasRevision {n} {e} (releases entity) =
    framed n e _ (remove_homeowner_exceptions-keeps (Frame e) entity e (Frame-refl e))
Step-HasRevision {n} {e} (releases_manual entity) = framed n e _ (manual_release-Frame entity e)
Step-HasRevision {n} {e} (turns_off entity p b) =
    framed n e _ ((apply_off-Preserves (Frame e) entity p b).run e (Frame-refl e))
Step-HasRevision {n} {e} (turns_group_off g l m p b) =
    framed n e _ ((apply_group_off-Preserves (Frame e) g l m p b).run e (Frame-refl e))
Step-HasRevision {n} {e} (pushes_off entity b p id) =
    framed n e _ ((push_manual_off-Preserves (Frame e) entity b p id).run e (Frame-refl e))
Step-HasRevision {n} {e} (starts f s i t) =
    framed n e _ ((start_family-Preserves (Frame e) f s i t).run e (Frame-refl e))
Step-HasRevision {n} {e} (suppresses f s r t) =
    framed n e _ ((suppress_family-Preserves (Frame e) f s r t).run e (Frame-refl e))
Step-HasRevision {n} {e} (ends f s t) =
    framed n e _ ((end_family-Preserves (Frame e) f s t).run e (Frame-refl e))
Step-HasRevision {n} {e} activates_evening =
    framed n e _ (evening_activation-keeps (Frame e) e (Frame-refl e))
Step-HasRevision {n} {e} (resets_groups g) =
    framed n e _ (reset_group_off_sequence-keeps (Frame e) g e (Frame-refl e))
Step-HasRevision {n} {e} (disarms l) =
    framed n e _ (reset_group_off_for_members-keeps (Frame e) l e (Frame-refl e))
Step-HasRevision {n} {e} (invalidates r) =
    framed n e _ (invalidate_work-keeps (Frame e) r e (Frame-refl e))
Step-HasRevision {n} {e} resets = reset-HasRevision n e
Step-HasRevision {n} {e} (expires b) = expire-HasRevision n b e
Step-HasRevision {n} {e} advances = next-HasRevision n e
Step-HasRevision {n} {e} (reconfigures l) = reconfigure-HasRevision n l e
Step-HasRevision {n} {e} (rescopes l) = (update-HasRevision n l).run e

Steps-HasRevision : {n : ℕ} {e d : Engine} → Steps e d → HasRevision n e → HasRevision n d
Steps-HasRevision stays h = h
Steps-HasRevision (goes_on r step) h = Step-HasRevision step (Steps-HasRevision r h)

-- No operation of the engine lowers its revision.
pub Steps-revision : {e d : Engine} → Steps e d → e.revision ≤ d.revision
Steps-revision {e} r = (Steps-HasRevision r (record { reached = omega arith })).reached

pub overtaken_lem :
    (e d : Engine) → e.revision < d.revision → is_current_work d (work_token e) ≡ false
unfolding is_current_work work_token token_eq
overtaken_lem e d h = ground (arith, h)

-- Every write that carries the token raises and leaves the engine as it is.
pub record IsRefused (token : WorkToken) (e : Engine) (entity family session : String)
    (layer : OwnershipLayer) : Type 0 where
  pub pushed : push entity layer (some token) e ≡ (err "stale work token", e)
  pub started :
      (n : Option ℕ) → start_family family session n (some token) e ≡ (err "stale work token", e)
  pub ended : end_family family session (some token) e ≡ (err "stale work token", e)
  pub suppressed :
      (reason : String)
      → suppress_family family session reason (some token) e ≡ (err "stale work token", e)
  pub activated :
      (supersede protects : Bool) (priority : Option ℤ)
      → (error : String) × (activate_automatic entity layer supersede priority protects
            (some token)
            e
          ≡ (err error, e))

activate-refused :
    (e : Engine) (token : WorkToken) (entity : String) (layer : OwnershipLayer)
    (supersede protects : Bool) (priority : Option ℤ)
    → is_current_work e token ≡ false
    → (error : String) × (activate_automatic entity layer supersede priority protects (some token) e
        ≡ (err error, e))
unfolding activate_automatic is_stale ◌>>=◌
activate-refused e token entity layer supersede protects priority h =
    elim (Bool-cases (is_system_kind layer.kind)) [
      | inl yes' ↦ ("stale work token", rw (yes', h) refl)
      | inr no' ↦ ("automatic activation requires a system layer", rw no' refl)
    ]

pub stale_work-IsRefused :
    (e : Engine) (token : WorkToken) (entity family session : String) (layer : OwnershipLayer)
    → is_current_work e token ≡ false
    → IsRefused token e entity family session layer
unfolding push push_refusal start_family end_family suppress_family is_stale ◌>>=◌
stale_work-IsRefused e token entity family session layer h = record {
  pushed = rw h refl;
  started = λ n. rw h refl;
  ended = rw h refl;
  suppressed = λ reason. rw h refl;
  activated = λ supersede protects priority.
      activate-refused e token entity layer supersede protects priority h;
}
