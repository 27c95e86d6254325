-- ===== src/Observer/Membership.antt =====
-- ha_observer.py: the canonical members of the surfaces, and the confirmation of what leaves them.
pub mod Confirmed
use home_lighting_manager.Common.{
  ℕ, ◌+◌, ◌-◌, ◌*◌, String, Bool, true, false, not, ◌&&◌, ◌||◌, Option, none, some, List, [], ◌∷◌,
  ◌++◌, map, if◌then◌else◌, ◌==◌, string_eq, nat_eq, leb, ltb, contains, filter, length, is_some,
}
use home_lighting_manager.Common.Int.{ℤ, pos}
use home_lighting_manager.Common.Dict.{Dict, lookup, insert, erase, keys}
use home_lighting_manager.Common.Text.{Names, sorted_set, subset, difference}
use home_lighting_manager.Common.Action.{Action, ◌>>=◌, ◌>>◌, pure, raise_if, modify, gets}
use home_lighting_manager.Engine.State.{max_entities}
use home_lighting_manager.Engine.Scope.{ScopeChange}
use home_lighting_manager.Shadow.Runtime.{ShadowRuntime, update_scope}
use home_lighting_manager.Observer.{managed_surface_groups, seconds}

-- SURFACE_MEMBERSHIP_REMOVAL_CONFIRM_SECONDS and SURFACE_MANUAL_PRECEDENCE
abbrev pub removal_confirm : ℕ
removal_confirm = 5 * seconds

abbrev pub surface_manual_precedence : ℤ
surface_manual_precedence = pos 250

-- What the observer is configured with.
pub record Configuration : Type 0 where
  pub entity_ids : Names
  pub manual_precedence : Dict String ℤ
  pub surface_exclusions : Dict String Names

pub record Surfaces : Type 0 where
  pub members : Dict String (List String)
  pub seen : Names
  pub pending : Dict String (List String × ℕ)
  pub entity_ids : Names
  pub manual_precedence : Dict String ℤ
  pub post_boundary_off : Names

-- What the loop over the surfaces notes.
pub record Review : Type 0 where
  pub members : Dict String (List String)
  pub pending : Dict String (List String × ℕ)
  pub changed : Bool
  pub removal_pending : Bool

unfoldable pub same_list : List String → List String → Bool
same_list [] [] = true
same_list (a ∷ l) (b ∷ m) = a == b && same_list l m
same_list [] (_ ∷ _) = false
same_list (_ ∷ _) [] = false

unfoldable pub adopt : String → List String → Review → Review
unfolding insert erase
adopt group observed r = record r {
  members = insert group observed r.members;
  pending = erase group r.pending;
  changed = true;
}

-- A removal that is seen again, unchanged, after the delay is adopted; any other is noted.
unfoldable pub await_removal : String → List String → ℕ → Option (List String × ℕ) → Review → Review
unfolding adopt same_list insert
await_removal group observed now none r = record r {
  pending = insert group (observed, now) r.pending;
  removal_pending = true;
}
await_removal group observed now (some (awaited, since)) r =
    if same_list awaited observed
    then (if leb removal_confirm (now - since)
        then adopt group observed r
        else record r { removal_pending = true })
    else record r { pending = insert group (observed, now) r.pending; removal_pending = true }

unfoldable pub review_known : String → List String → ℕ → List String → Review → Review
unfolding adopt same_list await_removal lookup erase
review_known group observed now current r =
    if same_list observed current
    then record r { pending = erase group r.pending }
    else if subset current observed
    then adopt group observed r
    else await_removal group observed now (lookup group r.pending) r

abbrev review_observed : String → List String → ℕ → Option (List String) → Review → Review
unfolding adopt review_known
review_observed group observed now none r = adopt group observed r
review_observed group observed now (some current) r = review_known group observed now current r

abbrev pub exclusions_of : Option Names → Names
exclusions_of none = []
exclusions_of (some l) = l

abbrev pub raw_of : Option (List String) → List String
raw_of none = []
raw_of (some l) = l

abbrev pub surface_members : String → Surfaces → List String
surface_members group s = raw_of (lookup group s.members)

-- `tuple(sorted(set(raw) - set(exclusions)))`
unfoldable pub observed_members :
    Configuration → Dict String (List String) → String → String → List String
unfolding lookup sorted_set
observed_members c cache surface group =
    sorted_set (
      difference (raw_of (lookup group cache))
        (exclusions_of (lookup surface c.surface_exclusions)))

-- One round of the loop.
unfoldable pub review_surface :
    Configuration → Dict String (List String) → ℕ → String × String → Review → Review
unfolding observed_members review_observed lookup
review_surface c cache now (surface, group) r =
    let observed = observed_members c cache surface group in
    if length observed == 0
    then r
    else review_observed group observed now (lookup group r.members) r

unfoldable pub review_surfaces :
    Configuration → Dict String (List String) → ℕ → Dict String String → Review → Review
unfolding review_surface
review_surfaces c cache now [] r = r
review_surfaces c cache now (s ∷ l) r =
    review_surfaces c cache now l (review_surface c cache now s r)

unfoldable pub current_members : Dict String (List String) → List String
current_members [] = []
current_members ((_, l) ∷ d) = l ++ current_members d

-- `policy.setdefault(entity, SURFACE_MANUAL_PRECEDENCE)` for each
unfoldable pub set_defaults : List String → Dict String ℤ → Dict String ℤ
unfolding lookup insert
set_defaults [] policy = policy
set_defaults (e ∷ l) policy =
    set_defaults l
      (if is_some (lookup e policy) then policy else insert e surface_manual_precedence policy)

-- `_refresh_surface_manual_precedence`
unfoldable pub refresh_manual_precedence : Configuration → Surfaces → Surfaces
unfolding set_defaults current_members
refresh_manual_precedence c s = record s {
  manual_precedence = set_defaults (current_members s.members) c.manual_precedence;
}

-- `_boundary_managed_entities`
unfoldable pub boundary_managed_entities : Configuration → Surfaces → Names
unfolding current_members sorted_set
boundary_managed_entities c s = sorted_set (keys c.manual_precedence ++ current_members s.members)

-- `frozenset((configured - seen) | current)`
unfoldable pub desired_entities : Configuration → Names → List String → Names
unfolding sorted_set
desired_entities c seen current = sorted_set (difference c.entity_ids seen ++ current)

abbrev pub too_many : Names → Bool
too_many desired = ltb max_entities (length desired)

-- The end of `_seed_surface_membership`, with what is seen.
unfoldable pub settle_members : Configuration → Names → Action Surfaces Names
unfolding desired_entities refresh_manual_precedence current_members sorted_set
settle_members c seen = do
  modify (λ s. record s { seen = sorted_set (seen ++ s.seen) })
  s ← gets (λ s. s)
  let desired = desired_entities c s.seen (current_members s.members)
  raise_if (too_many desired) "dynamic surface membership exceeds entity capacity"
  modify (λ t. refresh_manual_precedence c (record t { entity_ids = desired }))
  pure desired

unfoldable pub seed_surface :
    Configuration
    → Dict String (List String)
    → Dict String (List String)
    → String × String
    → Dict String (List String)
    → Dict String (List String)
unfolding lookup insert sorted_set
seed_surface c cache persisted (surface, group) members =
    let excluded = exclusions_of (lookup surface c.surface_exclusions) in
    let active =
      sorted_set
        (difference (raw_of (lookup surface persisted) ++ raw_of (lookup group cache)) excluded) in
    if length active == 0 then members else insert group active members

unfoldable pub seed_surfaces :
    Configuration
    → Dict String (List String)
    → Dict String (List String)
    → Dict String String
    → Dict String (List String)
    → Dict String (List String)
unfolding seed_surface
seed_surfaces c cache persisted [] members = members
seed_surfaces c cache persisted (s ∷ l) members =
    seed_surfaces c cache persisted l (seed_surface c cache persisted s members)

-- `_seed_surface_membership`
unfoldable pub seed_surface_membership :
    Configuration
    → Dict String (List String)
    → Dict String (List String)
    → Names
    → Action Surfaces Names
unfolding seed_surfaces settle_members current_members
seed_surface_membership c cache persisted persisted_seen = do
  modify
      (λ s. record s { members = seed_surfaces c cache persisted managed_surface_groups s.members })
  s ← gets (λ s. s)
  settle_members c (current_members s.members ++ (current_members persisted ++ persisted_seen))

unfoldable pub review_of : Surfaces → Review
review_of s = record {
  members = s.members;
  pending = s.pending;
  changed = false;
  removal_pending = false;
}
