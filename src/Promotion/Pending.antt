-- ===== src/Promotion/Pending.antt =====
-- promotion_observer.py: the leaf observations that are retained, for how long, and what drops them.
use home_lighting_manager.Common.{
  ℕ, ◌-◌, String, Bool, true, false, not, ◌&&◌, ◌||◌, Option, none, some, List, [], ◌∷◌, ◌++◌,
  if◌then◌else◌, ◌==◌, string_eq, nat_eq, option_eq, leb, ltb, contains, filter, any, all, map,
  length,
}
use home_lighting_manager.Common.Dict.{lookup, erase, keys}
use home_lighting_manager.Common.Text.{Names, sorted_set, overlaps}
use home_lighting_manager.Model.{OwnershipLayer, is_manual}
use home_lighting_manager.Engine.State.{Engine, resolve}
use home_lighting_manager.Correlation
use home_lighting_manager.Correlation.{same_list}
use home_lighting_manager.Shadow.Runtime.{engine_of}
use home_lighting_manager.Observer.Membership.{raw_of}
use home_lighting_manager.Promotion.{
  surface_aggregates, burst_window, group_off_window, PendingLeaf, SingleKey, Promotion,
}

abbrev pub engine_now : Promotion → Engine
engine_now p = engine_of p.session.observer.runtime

-- `_managed_group_members`
unfoldable pub managed_group_members : Promotion → List String → List String
unfolding sorted_set
managed_group_members p members =
    sorted_set (filter (λ e. contains e p.session.observer.surfaces.entity_ids) members)

-- the managed members of an aggregate that is known
unfoldable pub managed_of : Promotion → String → List String
unfolding managed_group_members lookup
managed_of p aggregate =
    managed_group_members p (raw_of (lookup aggregate p.session.topology_members))

unfoldable pub armed_members : Promotion → String → List String
unfolding lookup sorted_set
armed_members p aggregate = sorted_set (raw_of (lookup aggregate (engine_now p).group_off_armed))

-- Whether an exposed layer is a Manual one of the group.
unfoldable pub is_group_manual : String → Option OwnershipLayer → Bool
is_group_manual group none = false
is_group_manual group (some layer) = is_manual layer.kind && layer.group_id == some group

unfoldable pub all_group_manual : Promotion → String → List String → Bool
unfolding is_group_manual
all_group_manual p group members =
    all (λ e. is_group_manual group (resolve (engine_now p) e)) members

-- A surface of which an OFF is held longer: its armed members are the managed ones, or all are its Manual.
unfoldable pub holds_surface : Promotion → String → String → Bool
unfolding managed_of armed_members all_group_manual
holds_surface p entity aggregate =
    let managed = managed_of p aggregate in
    let armed = armed_members p aggregate in
    contains entity managed
    && ((not (length armed == 0) && same_list armed managed)
        || all_group_manual p aggregate managed)

-- `_surface_group_off_hold_seconds`
unfoldable pub surface_group_off_hold : Promotion → String → String → ℕ
unfolding holds_surface
surface_group_off_hold p entity operation =
    if operation == "off" && any (holds_surface p entity) surface_aggregates
    then group_off_window
    else burst_window

-- the entities of the promotions that wait
unfoldable pub held_entities : Promotion → Names
held_entities p = map (λ (k : SingleKey). k.1) p.singles ++ join p.overlapping
  where
    join : List Names → Names
    join [] = []
    join (l ∷ ls) = l ++ join ls

-- `0 <= now - observed_at <= hold`
unfoldable pub is_fresh : Promotion → ℕ → String → PendingLeaf → Bool
unfolding surface_group_off_hold
is_fresh p now entity item =
    leb item.observed_at now
    && leb (now - item.observed_at) (surface_group_off_hold p entity item.observation.operation)

-- `pending_intent_entities`
unfoldable pub pending_intent_entities : Promotion → ℕ → List String
unfolding is_fresh held_entities sorted_set
pending_intent_entities p now = sorted_set (
    keys (
      filter
        (λ (i : String × PendingLeaf). contains i.0 (held_entities p) || is_fresh p now i.0 i.1)
        p.pending))

-- `_cancel_pending_single_for_entities`
unfoldable pub cancel_singles : Names → Promotion → Promotion
cancel_singles entities p = record p {
  singles = filter (λ (k : SingleKey). not (contains k.1 entities)) p.singles;
}

-- `_cancel_pending_group_promotions_for_entities`
unfoldable pub cancel_groups : Names → Promotion → Promotion
cancel_groups entities p = record p {
  overlapping = filter (λ (l : Names). not (overlaps l entities)) p.overlapping;
}

unfoldable pub drop_pending : List String → Promotion → Promotion
unfolding erase
drop_pending [] p = p
drop_pending (e ∷ l) p = drop_pending l (record p { pending = erase e p.pending })

-- `_prune_pending_external_leaves`
unfoldable pub prune_pending : ℕ → Promotion → Promotion
unfolding is_fresh drop_pending cancel_singles
prune_pending now p =
    let stale =
      keys (filter (λ (i : String × PendingLeaf). not (is_fresh p now i.0 i.1)) p.pending) in
    cancel_singles stale (drop_pending stale p)

unfoldable pub forget_burst : Promotion → Promotion
unfolding Correlation.reset
forget_burst p = record p {
  session = record p.session {
    correlator = Correlation.reset p.session.correlator;
    external_burst = none;
  };
  burst_topology = [];
  last_observed_at = none;
}

-- `_managed_membership_changed`, for the entities that came or went; the marks of displaced scenes are left out
unfoldable pub managed_membership_changed : List String → Promotion → Promotion
unfolding drop_pending cancel_singles cancel_groups forget_burst
managed_membership_changed affected p =
    forget_burst (cancel_groups affected (cancel_singles affected (drop_pending affected p)))

-- what the nightly boundary clears before the observer's own handler
unfoldable pub clear_provisional : Promotion → Promotion
unfolding forget_burst
clear_provisional p = forget_burst (record p { singles = []; overlapping = []; pending = [] })

unfoldable pub is_new_burst : Option ℕ → ℕ → Bool
is_new_burst none now = true
is_new_burst (some previous) now = ltb now previous || ltb burst_window (now - previous)

-- `_snapshot_group_topology_for_burst`
unfoldable pub snapshot_group_topology : ℕ → Promotion → Promotion
unfolding is_new_burst
snapshot_group_topology now p = record p {
  burst_topology =
      if is_new_burst p.last_observed_at now then p.session.topology_members else p.burst_topology;
  last_observed_at = some now;
}

-- `_commissioned_surfaces_for_entity`
unfoldable pub commissioned_surfaces : Promotion → String → List String
unfolding lookup
commissioned_surfaces p entity =
    filter (λ a. contains entity (raw_of (lookup a p.session.topology_members))) surface_aggregates

unfoldable surfaces_of_all : Promotion → List String → List String
unfolding commissioned_surfaces
surfaces_of_all p [] = []
surfaces_of_all p (e ∷ l) = commissioned_surfaces p e ++ surfaces_of_all p l

-- `_reset_external_burst_for_cross_surface_leaf`, for the leaves of the burst so far
unfoldable pub reset_for_cross_surface : String → List String → Promotion → Promotion
unfolding commissioned_surfaces surfaces_of_all forget_burst
reset_for_cross_surface entity prior p =
    let current = commissioned_surfaces p entity in
    let before = surfaces_of_all p prior in
    if length prior == 0 || contains entity prior
    then p
    else if length current == 0 || (length before == 0 || overlaps current before)
    then p
    else forget_burst p
