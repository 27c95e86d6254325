-- ===== src/Observer/Topology.antt =====
-- ha_observer.py: which lights an aggregate has as members.
use text.Mathlib.Text.{starts_with}
use home_lighting_manager.Common.{
  String, not, Option, none, some, List, [], ◌∷◌, if◌then◌else◌, filter, length, ◌==◌, string_eq,
  nat_eq,
}
use home_lighting_manager.Common.Dict.{Dict, lookup, insert}
use home_lighting_manager.Model.{Value, Items, null, str, list, tuple, nil, cons, get_or}
use home_lighting_manager.Observer.{State}

-- The texts of a list that name lights.
unfoldable pub lights_of : Items → List String
lights_of nil = []
lights_of (cons (str s) l) = if starts_with s "light." then s ∷ lights_of l else lights_of l
lights_of (cons _ l) = lights_of l

-- `tuple(dict.fromkeys(l))`
unfoldable pub without_repeats : List String → List String
without_repeats [] = []
without_repeats (s ∷ l) = s ∷ filter (λ t. not (t == s)) (without_repeats l)

-- `_is_membership_container`: of the values, a list or a tuple
unfoldable pub membership_container : Value → Option Items
membership_container (list l) = some l
membership_container (tuple l) = some l
membership_container _ = none

unfoldable pub members_of_container : Option Items → Option Items → List String
unfolding lights_of without_repeats
members_of_container (some l) second = without_repeats (lights_of l)
members_of_container none (some l) = without_repeats (lights_of l)
members_of_container none none = []

-- `_member_entity_ids`
unfoldable pub member_entity_ids : State → List String
unfolding membership_container members_of_container get_or
member_entity_ids s =
    members_of_container (membership_container (get_or "entity_id" null s.attributes))
      (membership_container (get_or "group_entities" null s.attributes))

abbrev current_members : Option State → List String
unfolding member_entity_ids
current_members none = []
current_members (some s) = member_entity_ids s

abbrev or_else : List String → List String → List String
or_else [] l = l
or_else (s ∷ r) l = s ∷ r

-- `_member_entity_ids_for_observation`
unfoldable pub member_entity_ids_for_observation : Option State → State → List String
unfolding current_members member_entity_ids
member_entity_ids_for_observation current event =
    or_else (current_members current) (member_entity_ids event)

abbrev cached_members : Option (List String) → List String
cached_members none = []
cached_members (some l) = l

abbrev keep_members : String → List String → Dict String (List String) → Dict String (List String)
unfolding insert
keep_members entity [] cache = cache
keep_members entity (m ∷ l) cache = insert entity (m ∷ l) cache

-- `_member_entity_ids_for_event`, with the cache that it leaves
unfoldable pub member_entity_ids_for_event :
    String
    → State
    → Option State
    → Dict String (List String)
    → List String × Dict String (List String)
unfolding lookup member_entity_ids current_members keep_members
member_entity_ids_for_event entity event current cache =
    let cached = cached_members (lookup entity cache) in
    let found = or_else (member_entity_ids event) (current_members current) in
    if not (length cached == 0) then (cached, cache) else (found, keep_members entity found cache)

abbrev snapshot_entry : String → State → Dict String (List String) → Dict String (List String)
unfolding member_entity_ids keep_members
snapshot_entry entity s cache =
    if starts_with entity "light." then keep_members entity (member_entity_ids s) cache else cache

snapshot_from : Dict String State → Dict String (List String) → Dict String (List String)
unfolding snapshot_entry
snapshot_from [] cache = cache
snapshot_from ((entity, s) ∷ l) cache = snapshot_from l (snapshot_entry entity s cache)

-- `_snapshot_topology_cache`
unfoldable pub snapshot_topology_cache : Dict String State → Dict String (List String)
unfolding snapshot_from
snapshot_topology_cache states = snapshot_from states []
