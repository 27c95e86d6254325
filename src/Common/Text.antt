-- ===== src/Common/Text.antt =====
-- Texts: decimal numerals and ordered sets.
use Prim.Native.Nat.{ℕ, zero, suc, ◌/◌, ◌%◌, Ordering}
use Prim.Native.String.{String, compare, ◌++◌}
use mathlib.Core.Path.{◌≡◌, refl, ap, ◌∙◌}
use mathlib.Core.Bool.{Bool, not, ◌&&◌, ◌||◌}
use native.Mathlib.Omega.{arith}
use text.Mathlib.TextEquality.{path_by_compare}
use mathlib.Core.List.{List, [], ◌∷◌}
use home_lighting_manager.Common.Tests.{◌==◌, if◌then◌else◌, ltb, string_eq}
use home_lighting_manager.Common.Lists.{contains, all, any, filter}

-- a frozenset of texts; the order of the list means nothing
abbrev pub Names : Type 0
Names = List String

-- `sorted(set(l))`: Python compares texts by code points, as the bytes of UTF-8 do.
unfoldable pub insert_sorted : String → List String → List String
insert_sorted s [] = s ∷ []
insert_sorted s (t ∷ ts) = elim (compare s t) [
  | Ordering.lt ↦ s ∷ t ∷ ts
  | Ordering.eq ↦ t ∷ ts
  | Ordering.gt ↦ t ∷ insert_sorted s ts
]

unfoldable pub sorted_set : List String → List String
unfolding insert_sorted
sorted_set [] = []
sorted_set (s ∷ ts) = insert_sorted s (sorted_set ts)

contains-insert_sorted :
    (x s : String) (l : List String) → contains x (insert_sorted s l) ≡ (x == s || contains x l)
unfolding insert_sorted
contains-insert_sorted x s [] = refl
contains-insert_sorted x s (t ∷ ts) =
    ground (arith, contains-insert_sorted x s ts, path_by_compare s t)

pub contains-sorted_set : (x : String) (l : List String) → contains x (sorted_set l) ≡ contains x l
unfolding sorted_set
contains-sorted_set x [] = refl
contains-sorted_set x (s ∷ ts) =
    contains-insert_sorted x s (sorted_set ts) ∙ ap (λ b. x == s || b) (contains-sorted_set x ts)

-- `a <= b`, `a == b`, `bool(a & b)`, `a & b` and `a - b` on sets
abbrev pub subset : Names → Names → Bool
subset a b = all (λ x. contains x b) a

abbrev pub same_set : Names → Names → Bool
same_set a b = subset a b && subset b a

abbrev pub overlaps : Names → Names → Bool
overlaps a b = any (λ x. contains x b) a

abbrev pub intersection : Names → Names → Names
intersection a b = filter (λ x. contains x b) a

abbrev pub difference : Names → Names → Names
difference a b = filter (λ x. not (contains x b)) a

abbrev digit : ℕ → String
digit n =
    if ltb n 1
    then "0"
    else if ltb n 2
    then "1"
    else if ltb n 3
    then "2"
    else if ltb n 4
    then "3"
    else if ltb n 5
    then "4"
    else if ltb n 6
    then "5"
    else if ltb n 7
    then "6"
    else if ltb n 8
    then "7"
    else if ltb n 9
    then "8"
    else "9"

-- `n + 1` rounds are more than a number `n` has digits.
decimal : ℕ → ℕ → String
decimal zero n = ""
decimal (suc f) n =
    let rest = decimal f (n / 10) in if ltb n 10 then digit n else rest ++ digit (n % 10)

-- `str(n)`
unfoldable pub show : ℕ → String
unfolding decimal
show n = decimal (suc n) n
