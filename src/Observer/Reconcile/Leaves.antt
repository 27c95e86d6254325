-- ===== src/Observer/Reconcile/Leaves.antt =====
-- What the reconciliation of the surfaces keeps.
use mathlib.Core.Path.{subst}
use home_lighting_manager.Common.{
  ℕ, ◌≤◌, String, Bool, true, false, List, ◌++◌, ◌≡◌, refl, sym, arith, ◌⊎◌, inl, inr, Bool-cases,
  contains, length, if◌then◌else◌, string_eq,
}
use home_lighting_manager.Common.Dict.{Dict, lookup}
use home_lighting_manager.Common.Text.{Names, sorted_set}
use home_lighting_manager.Common.Action.{Action, ◌>>=◌, pure, modify}
use home_lighting_manager.Common.Action.Invariant.{
  Preserves, action_rules, modify-Preserves, bind-Preserves, pure-Preserves,
}
use home_lighting_manager.Engine.State.{max_entities}
use home_lighting_manager.Shadow.Runtime.{ShadowRuntime}
use home_lighting_manager.Observer.{managed_surface_groups}
use home_lighting_manager.Observer.Membership.{
  Configuration, Surfaces, review_of, review_surfaces, current_members, desired_entities, too_many,
  refresh_manual_precedence, settle_members, surface_members, raw_of,
}
use home_lighting_manager.Observer.Membership.Confirmed.{IsConfirmed, review_surfaces-outcome}
use home_lighting_manager.Observer.Reconcile.{
  Observer, with_surfaces, with_runtime, reviewed, forget_removed, apply_membership,
  reconcile_surface_membership,
}

module _ {A : Type 0} (P : Surfaces → Type 0) where
  with_surfaces-Preserves :
      (m : Action Surfaces A) → Preserves P m → Preserves (λ o. P o.surfaces) (with_surfaces m)
  with_surfaces-Preserves m h = record { run = λ o k. h.run o.surfaces k }

  with_runtime-Preserves :
      (m : Action ShadowRuntime A) → Preserves (λ o. P o.surfaces) (with_runtime m)
  with_runtime-Preserves m = record { run = λ o k. k }

-- A property of the surfaces that their members, or else the scope, decide.
record IsScopeRule (P : Surfaces → Type 0) : Type 0 where
  settles : (c : Configuration) (seen : Names) → Preserves P (settle_members c seen)
  forgets : (desired : Names) (s : Surfaces) → P s → P (forget_removed desired s)

module _ {P : Surfaces → Type 0} (rule : IsScopeRule P) where
  forgetting : (desired : Names) → Preserves P (modify (forget_removed desired))
  forgetting desired = modify-Preserves (forget_removed desired) (rule.forgets desired)

  apply_membership-Preserves :
      (c : Configuration) → Preserves (λ o. P o.surfaces) (apply_membership c)
  unfolding apply_membership
  apply_membership-Preserves c =
      search
        (
          action_rules,
          with_surfaces-Preserves P,
          with_runtime-Preserves P,
          rule.settles,
          forgetting,
        )
        depth 14

  -- The reconciliation, after its review of the surfaces.
  reconcile-kept :
      (c : Configuration) (cache : Dict String (List String)) (now : ℕ) (o : Observer)
      → P (
          reviewed
            (review_surfaces c cache now managed_surface_groups (review_of o.surfaces))
            o.surfaces)
      → P (reconcile_surface_membership c cache now o).1.surfaces
  unfolding reconcile_surface_membership ◌>>=◌
  reconcile-kept c cache now o h =
      let r = review_surfaces c cache now managed_surface_groups (review_of o.surfaces) in
      (bind-Preserves (if r.changed then apply_membership c else pure false)
          (λ moved. pure (moved, r.removal_pending)) (changed-Preserves r.changed)
          (λ moved. pure-Preserves (moved, r.removal_pending))).run
        (record o { surfaces = reviewed r o.surfaces }) h
    where
      changed-Preserves :
          (b : Bool) → Preserves (λ t. P t.surfaces) (if b then apply_membership c else pure false)
      changed-Preserves true = apply_membership-Preserves c
      changed-Preserves false = pure-Preserves false

members-IsScopeRule : (m : Dict String (List String)) → IsScopeRule (λ s. s.members ≡ m)
unfolding settle_members refresh_manual_precedence forget_removed
members-IsScopeRule m = record {
  settles = λ c seen. search (action_rules, modify-Preserves) depth 12;
  forgets = λ desired s h. h;
}

settle_members-length :
    (c : Configuration) (seen : Names) (s : Surfaces)
    → length s.entity_ids ≤ max_entities
    → length (settle_members c seen s).1.entity_ids ≤ max_entities
unfolding settle_members ◌>>=◌ refresh_manual_precedence
settle_members-length c seen s h =
    elim (Bool-cases
      (too_many (desired_entities c (sorted_set (seen ++ s.seen)) (current_members s.members)))) [
        | inl over ↦ rw over h
        | inr fits ↦ rw fits (ground (arith, fits))
      ]

length-IsScopeRule : IsScopeRule (λ s. length s.entity_ids ≤ max_entities)
unfolding forget_removed
length-IsScopeRule = record {
  settles = λ c seen. record { run = settle_members-length c seen };
  forgets = λ desired s h. h;
}

module _ (c : Configuration) (cache : Dict String (List String)) (now : ℕ) (o : Observer) where
  -- A light that is a member of a surface's group stays one when the surfaces are reconciled with what Home
  -- Assistant shows, whether that returns or raises, unless a membership of the group without this light was
  -- noted before, at least five seconds ago.
  pub reconcile-IsConfirmed :
      (group e : String)
      → contains e (surface_members group o.surfaces) ≡ true
      → (contains e (surface_members group (reconcile_surface_membership c cache now o).1.surfaces)
          ≡ true)
        ⊎ IsConfirmed e now (lookup group o.surfaces.pending)
  unfolding review_of
  reconcile-IsConfirmed group e h =
      let reviewed_members =
        (review_surfaces c cache now managed_surface_groups (review_of o.surfaces)).members in
      subst
        (λ d.
          (contains e (raw_of (lookup group d)) ≡ true)
          ⊎ IsConfirmed e now (lookup group o.surfaces.pending))
        (sym (reconcile-kept (members-IsScopeRule reviewed_members) c cache now o refl))
        (review_surfaces-outcome c cache now managed_surface_groups (review_of o.surfaces) group e
          h)

  -- The entities of the observer stay within the limit, also where the reconciliation raises.
  pub reconcile-length :
      length o.surfaces.entity_ids ≤ max_entities
      → length (reconcile_surface_membership c cache now o).1.surfaces.entity_ids ≤ max_entities
  reconcile-length h = reconcile-kept length-IsScopeRule c cache now o h
