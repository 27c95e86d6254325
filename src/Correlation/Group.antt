-- ===== src/Correlation/Group.antt =====
-- `resolve_unique_exact_group` against its documentation.
use home_lighting_manager.Common.{
  ◌≤◌, String, true, false, not, ◌&&◌, some, List, [], ◌∷◌, ◌≡◌, refl, sym, ap, ◌∙◌, arith, any,
  contains, length, ltb, ◌==◌, string_eq,
}
use home_lighting_manager.Common.Dict.{Dict}
use home_lighting_manager.Common.Text.{Names, sorted_set, contains-sorted_set}
use home_lighting_manager.Correlation.{
  is_exact, exact_aggregates, only_observed, resolve_unique_exact_group,
}

exact-found :
    (g : String) (leaves : Names) (topology : Dict String (List String))
    → contains g (exact_aggregates leaves topology)
      ≡ any (λ d. g == d.0 && is_exact leaves d.1) topology
unfolding exact_aggregates
exact-found g leaves [] = refl
exact-found g leaves ((a, m) ∷ topology) = ground (arith, exact-found g leaves topology)

only_observed-single :
    (observed l : List String) (g : String)
    → only_observed observed l ≡ some g
    → (l ≡ g ∷ []) × (contains g observed ≡ true)
unfolding only_observed
only_observed-single observed [] g h = ground arith
only_observed-single observed (x ∷ []) g h = ground arith
only_observed-single observed (x ∷ y ∷ l) g h = ground arith

resolved :
    (leaves observed : List String) (topology : Dict String (List String)) (g : String)
    → resolve_unique_exact_group leaves observed topology ≡ some g
    → (ltb (length leaves) 2 ≡ false)
      × (sorted_set (exact_aggregates leaves topology) ≡ g ∷ [])
      × (contains g observed ≡ true)
unfolding resolve_unique_exact_group
resolved leaves observed topology g h =
    ground (arith, only_observed-single observed (sorted_set (exact_aggregates leaves topology)) g)

no_rival :
    (g : String) (leaves : Names) (topology : Dict String (List String))
    → ((j : String) → contains j (exact_aggregates leaves topology) ≡ true → j ≡ g)
    → any (λ d. not (d.0 == g) && is_exact leaves d.1) topology ≡ false
unfolding exact_aggregates
no_rival g leaves [] h = refl
no_rival g leaves ((a, m) ∷ topology) h =
    let rest : (j : String) → contains j (exact_aggregates leaves topology) ≡ true → j ≡ g =
      λ j k. ground (arith, h j) in
    ground (arith, h a, no_rival g leaves topology rest)

only_member : (g j : String) → contains j (g ∷ []) ≡ true → j ≡ g
only_member g j h = ground arith

-- A group is resolved only if there are two leaves at least, it was observed itself, its members are
-- exactly the leaves, and no other aggregate of the whole topology has exactly the leaves as
-- members.
pub resolve_unique_exact_group_unique :
    (leaves observed : List String) (topology : Dict String (List String)) (g : String)
    → resolve_unique_exact_group leaves observed topology ≡ some g
    → (2 ≤ length leaves)
      × (contains g observed ≡ true)
      × (any (λ d. g == d.0 && is_exact leaves d.1) topology ≡ true)
      × (any (λ d. not (d.0 == g) && is_exact leaves d.1) topology ≡ false)
resolve_unique_exact_group_unique leaves observed topology g h =
    let (many, single, seen) = resolved leaves observed topology g h in
    let found : (j : String) → contains j (exact_aggregates leaves topology) ≡ contains j (g ∷ []) =
      λ j.
        sym (contains-sorted_set j (exact_aggregates leaves topology))
        ∙ ap (λ l. contains j l) single in
    (
      ground (arith, many),
      seen,
      sym (exact-found g leaves topology) ∙ found g ∙ ground arith,
      no_rival g leaves topology (λ j k. only_member g j (sym (found j) ∙ k)),
    )
