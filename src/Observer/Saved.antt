-- ===== src/Observer/Saved.antt =====
-- ha_observer.py: what an earlier run has saved, read with suspicion.
use home_lighting_manager.Common.{
  ℕ, suc, ◌+◌, String, not, Option, none, some, List, [], ◌∷◌, if◌then◌else◌, filter, contains,
  length, ltb, nat_eq, string_eq,
}
use home_lighting_manager.Common.Int.{pos}
use home_lighting_manager.Common.Dict.{Dict, lookup}
use home_lighting_manager.Common.Text.{Names, sorted_set}
use home_lighting_manager.Model.{
  Value, Items, Fields, null, int, str, list, dict, nil, cons, get_or,
}
use home_lighting_manager.Engine.State.{max_entities, is_light_id}
use home_lighting_manager.Observer.{managed_surface_groups}
use home_lighting_manager.Observer.Membership.{exclusions_of}

unfoldable pub fields_of : Value → Option Fields
fields_of (dict d) = some d
fields_of _ = none

unfoldable pub list_of : Value → Option Items
list_of (list l) = some l
list_of _ = none

-- `d.get(key)`, where it is a list
unfoldable pub list_at : String → Option Fields → Option Items
unfolding list_of get_or
list_at key none = none
list_at key (some d) = list_of (get_or key null d)

unfoldable pub dict_at : String → Option Fields → Option Fields
unfolding fields_of get_or
dict_at key none = none
dict_at key (some d) = fields_of (get_or key null d)

-- The items that are texts and name lights.
unfoldable pub light_items : Items → List String
unfolding is_light_id
light_items nil = []
light_items (cons (str s) l) = if is_light_id s then s ∷ light_items l else light_items l
light_items (cons _ l) = light_items l

unfoldable pub within : Names → Names
within seen = if ltb max_entities (length seen) then [] else seen

abbrev seen_items : Option Items → Names
unfolding within light_items sorted_set
seen_items none = []
seen_items (some l) = within (sorted_set (light_items l))

-- `_persisted_surface_seen_members`
unfoldable pub persisted_surface_seen_members : Value → Names
unfolding seen_items list_at fields_of
persisted_surface_seen_members raw =
    seen_items (list_at "managed_surface_seen_members" (fields_of raw))

-- The members of a surface, and none where it is skipped.
unfoldable pub surface_items : Names → Option Items → Option (List String)
unfolding light_items sorted_set
surface_items blocked none = none
surface_items blocked (some l) =
    some (sorted_set (filter (λ s. not (contains s blocked)) (light_items l)))

abbrev keep_surface : String → List String → Dict String (List String) → Dict String (List String)
keep_surface surface [] d = d
keep_surface surface (m ∷ l) d = (surface, m ∷ l) ∷ d

abbrev with_total :
    ℕ
    → String
    → List String
    → Option (Dict String (List String))
    → Option (Dict String (List String))
with_total total surface members rest =
    if ltb max_entities total
    then none
    else elim rest [ none ↦ none | some d ↦ some (keep_surface surface members d) ]

-- The loop over the surfaces, from the total so far; none once there are too many entities.
unfoldable pub persisted_from :
    Option Fields → Dict String Names → ℕ → Dict String String → Option (Dict String (List String))
unfolding surface_items list_at lookup
persisted_from payload exclusions total [] = some []
persisted_from payload exclusions total ((surface, _) ∷ l) =
    elim (surface_items (exclusions_of (lookup surface exclusions)) (list_at surface payload)) [
      | none ↦ persisted_from payload exclusions total l
      | some members ↦
          with_total (total + length members) surface members
            (persisted_from payload exclusions (total + length members) l)
    ]

abbrev or_nothing : Option (Dict String (List String)) → Dict String (List String)
or_nothing none = []
or_nothing (some d) = d

abbrev with_payload : Option Fields → Dict String Names → Dict String (List String)
unfolding persisted_from
with_payload none exclusions = []
with_payload (some d) exclusions =
    or_nothing (persisted_from (some d) exclusions 0 managed_surface_groups)

-- `_persisted_surface_members`
unfoldable pub persisted_surface_members : Value → Dict String Names → Dict String (List String)
unfolding with_payload dict_at fields_of
persisted_surface_members raw exclusions =
    with_payload (dict_at "managed_surface_members" (fields_of raw)) exclusions

unfoldable pub generation_after : Value → ℕ
generation_after (int (pos n)) = suc n
generation_after _ = 1

abbrev generation_in : Option Fields → ℕ
unfolding generation_after get_or
generation_in none = 1
generation_in (some d) = generation_after (get_or "generation" null d)

-- `_next_generation`
unfoldable pub next_generation_of : Value → ℕ
unfolding generation_in fields_of
next_generation_of raw = generation_in (fields_of raw)
