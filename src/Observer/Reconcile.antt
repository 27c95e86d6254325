-- ===== src/Observer/Reconcile.antt =====
-- ha_observer.py: `_reconcile_surface_membership`, with the runtime that it keeps in step.
pub mod Leaves
use home_lighting_manager.Common.{
  ℕ, String, Bool, true, false, not, ◌||◌, ◌&&◌, List, [], ◌∷◌, if◌then◌else◌, ◌==◌, nat_eq,
  string_eq, length,
}
use home_lighting_manager.Common.Dict.{Dict}
use home_lighting_manager.Common.Text.{Names, intersection}
use home_lighting_manager.Common.Action.{Action, Result, ok, err, ◌>>=◌, ◌>>◌, pure, modify, gets}
use home_lighting_manager.Engine.Scope.{ScopeChange}
use home_lighting_manager.Shadow.Runtime.{ShadowRuntime, update_scope}
use home_lighting_manager.Observer.{managed_surface_groups}
use home_lighting_manager.Observer.Membership.{
  Configuration, Surfaces, Review, review_of, review_surfaces, current_members, settle_members,
}

-- The observer's part of the state, with the runtime.
pub record Observer : Type 0 where
  pub surfaces : Surfaces
  pub runtime : ShadowRuntime

abbrev pub with_surfaces : {A : Type 0} → Action Surfaces A → Action Observer A
with_surfaces m o = let (result, s) = m o.surfaces in (result, record o { surfaces = s })

abbrev pub with_runtime : {A : Type 0} → Action ShadowRuntime A → Action Observer A
with_runtime m o = let (result, r) = m o.runtime in (result, record o { runtime = r })

abbrev pub reviewed : Review → Surfaces → Surfaces
reviewed r s = record s { members = r.members; pending = r.pending }

unfoldable pub scope_moved : ScopeChange → Bool
scope_moved c = not (length c.added == 0 && length c.removed == 0)

-- `_post_boundary_off_entities.intersection_update(desired)`
unfoldable pub forget_removed : Names → Surfaces → Surfaces
forget_removed desired s = record s { post_boundary_off = intersection s.post_boundary_off desired }

-- What follows where the members have changed. The result says whether the scope of the runtime moved.
unfoldable pub apply_membership : Configuration → Action Observer Bool
unfolding settle_members current_members scope_moved forget_removed update_scope
apply_membership c = do
  o ← gets (λ o. o)
  desired ← with_surfaces (settle_members c (current_members o.surfaces.members))
  change ← with_runtime (update_scope desired)
  if scope_moved change
      then with_surfaces (modify (forget_removed desired)) >> pure true
      else pure false

-- The result: whether the scope moved, and whether a removal is to be confirmed later.
unfoldable pub reconcile_surface_membership :
    Configuration → Dict String (List String) → ℕ → Action Observer (Bool × Bool)
unfolding review_surfaces review_of apply_membership
reconcile_surface_membership c cache now = do
  o ← gets (λ o. o)
  let r = review_surfaces c cache now managed_surface_groups (review_of o.surfaces)
  with_surfaces (modify (reviewed r))
  moved ← if r.changed then apply_membership c else pure false
  pure (moved, r.removal_pending)
