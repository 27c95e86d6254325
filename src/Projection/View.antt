-- ===== src/Projection/View.antt =====
-- The view against the engine that it is derived from.
use home_lighting_manager.Common.{
  String, Bool, true, ◌&&◌, none, some, List, [], ◌∷◌, map, ◌≡◌, refl, ap, ◌∙◌, arith, all, filter,
  contains, if◌then◌else◌, string_eq, nat_eq,
}
use home_lighting_manager.Common.Dict.{Dict, lookup}
use home_lighting_manager.Common.Text.{sorted_set, insert_sorted, intersection, contains-sorted_set}
use home_lighting_manager.Model.{token_eq}
use home_lighting_manager.Engine.State.{Engine, resolve, is_current_work, work_token}
use home_lighting_manager.Engine.Groups.{is_nonempty}
use home_lighting_manager.Projection.{EntityView, view_of, group_views, effective_ownership}

lookup-map :
    (f : String → EntityView) (j : String) (l : List String)
    → lookup j (map (λ entity. (entity, f entity)) l) ≡ (if contains j l then some (f j) else none)
unfolding lookup
lookup-map f j [] = refl
lookup-map f j (x ∷ l) = ground (arith, lookup-map f j l)

all-insert_sorted :
    (p : String → Bool) (s : String) (l : List String)
    → all p l ≡ true
    → p s ≡ true
    → all p (insert_sorted s l) ≡ true
unfolding insert_sorted
all-insert_sorted p s [] h k = ground arith
all-insert_sorted p s (t ∷ ts) h k = ground (arith, all-insert_sorted p s ts)

all-sorted_set :
    (p : String → Bool) (l : List String) → all p l ≡ true → all p (sorted_set l) ≡ true
unfolding sorted_set
all-sorted_set p [] h = refl
all-sorted_set p (s ∷ l) h =
    ground (arith, all-sorted_set p l, all-insert_sorted p s (sorted_set l))

all-filter : (p : String → Bool) (l : List String) → all p (filter p l) ≡ true
all-filter p [] = refl
all-filter p (x ∷ l) = ground (arith, all-filter p l)

-- A group of a view: not empty, with projected entities only.
abbrev pub is_projected : List String → String × List String → Bool
is_projected entities group = is_nonempty group.1 && all (λ m. contains m entities) group.1

group_views-projected :
    (entities : List String) (groups : Dict String (List String))
    → all (is_projected entities) (group_views entities groups) ≡ true
unfolding group_views
group_views-projected entities [] = refl
group_views-projected entities ((g, members) ∷ groups) = ground (
  arith,
  group_views-projected entities groups,
  all-sorted_set (λ m. contains m entities) (intersection members entities)
      (all-filter (λ m. contains m entities) members),
)

-- The view has a record for exactly the entities that are asked for, which is that of the layer the
-- engine exposes; its groups are not empty and have projected entities only; and its identity,
-- generation and revision are a current token of the engine.
pub effective_ownership-current :
    (e : Engine) (entities : List String) (groups : Dict String (List String)) (entity : String)
    → (lookup entity (effective_ownership e entities groups).entities
        ≡ (if contains entity entities then some (view_of e entity (resolve e entity)) else none))
      × (all (is_projected (sorted_set entities)) (effective_ownership e entities groups).groups
          ≡ true)
      × (is_current_work e (record {
        generation = (effective_ownership e entities groups).generation;
        revision = (effective_ownership e entities groups).revision;
        authority_id = (effective_ownership e entities groups).authority_id;
      })
          ≡ true)
unfolding effective_ownership is_current_work work_token token_eq
effective_ownership-current e entities groups entity = (
  lookup-map (λ j. view_of e j (resolve e j)) entity (sorted_set entities)
      ∙ ap (λ b. if b then some (view_of e entity (resolve e entity)) else none)
          (contains-sorted_set entity entities),
  group_views-projected (sorted_set entities) groups,
  ground arith,
)
