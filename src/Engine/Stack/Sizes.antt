-- ===== src/Engine/Stack/Sizes.antt =====
-- The sizes of stacks, and of their homeowner part.
use home_lighting_manager.Common.{
  suc, ◌≤◌, Bool, true, false, List, [], ◌∷◌, ◌≡◌, refl, arith, string_eq, option_eq, pair_eq, any,
  filter, length, Bool-cases, inl, inr,
}
use home_lighting_manager.Model.{OwnershipLayer, layer_eq, is_homeowner_kind}
use home_lighting_manager.Engine.Stack.{
  identity, updates, replace_first, insert_before, remove_first,
}
use home_lighting_manager.Engine.Stack.Distinct.{all_apart}

pub length-replace_first :
    (t : OwnershipLayer → Bool) (new : OwnershipLayer) (xs : List OwnershipLayer)
    → length (replace_first t new xs) ≡ length xs
unfolding replace_first
length-replace_first t new [] = refl
length-replace_first t new (x ∷ xs) = ground (arith, length-replace_first t new xs)

pub length-insert_before :
    (t : OwnershipLayer → Bool) (new : OwnershipLayer) (xs : List OwnershipLayer)
    → length (insert_before t new xs) ≡ suc (length xs)
unfolding insert_before
length-insert_before t new [] = refl
length-insert_before t new (x ∷ xs) = ground (arith, length-insert_before t new xs)

pub length-remove_first :
    (stored : OwnershipLayer) (xs : List OwnershipLayer)
    → any (λ x. layer_eq x stored) xs ≡ true
    → suc (length (remove_first stored xs)) ≡ length xs
unfolding remove_first
length-remove_first stored [] h = absurd (cc h)
length-remove_first stored (x ∷ xs) h = ground (arith, length-remove_first stored xs)

homeowners_elsewhere :
    (x : OwnershipLayer) (xs : List OwnershipLayer)
    → is_homeowner_kind x.kind ≡ true
    → any (updates x) xs ≡ false
    → filter (λ layer. is_homeowner_kind layer.kind) xs ≡ []
unfolding updates identity
homeowners_elsewhere x [] home h = refl
homeowners_elsewhere x (y ∷ xs) home h = ground (arith, homeowners_elsewhere x xs)

-- All homeowner layers are one logical owner, so that layers that are apart hold one at most.
pub length-homeowners-le :
    (xs : List OwnershipLayer)
    → all_apart xs ≡ true
    → length (filter (λ layer. is_homeowner_kind layer.kind) xs) ≤ 1
unfolding all_apart
length-homeowners-le [] h = omega arith
length-homeowners-le (x ∷ xs) h = elim (Bool-cases (is_homeowner_kind x.kind)) [
  | inl home ↦ ground (arith, homeowners_elsewhere x xs home)
  | inr other ↦ ground (arith, length-homeowners-le xs)
]
