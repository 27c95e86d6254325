-- ===== src/Engine/Stack/Distinct.antt =====
-- Stacks in which no two layers share their ID or their logical owner.
use home_lighting_manager.Common.{
  String, Bool, true, false, not, ◌&&◌, ◌||◌, none, some, List, [], ◌∷◌, ◌≡◌, refl, sym, ap, ◌∙◌,
  string_discrete, arith, ◌==◌, string_eq, option_eq, pair_eq, any, find, filter, Bool-cases, inl,
  inr, if◌then◌else◌,
}
use home_lighting_manager.Model.{
  OwnershipLayer, LayerKind, automatic, manual, manual_off, functional, overlay, layer_eq,
  kind_value, is_homeowner_kind,
}
use home_lighting_manager.Engine.Stack.{
  identity, updates, collides, replace_first, insert_before, remove_first,
}

-- No layer is updated by the admission of another one of the stack.
unfoldable pub all_apart : List OwnershipLayer → Bool
all_apart [] = true
all_apart (x ∷ xs) = not (any (updates x) xs) && all_apart xs

-- Two layers that are alike: of one ID and one identity.
abbrev pub IsAlike : OwnershipLayer → OwnershipLayer → Type 0
IsAlike a b = (a.layer_id ≡ b.layer_id) × (identity a ≡ identity b)

updates_sym : (a b : OwnershipLayer) → updates a b ≡ updates b a
unfolding updates
updates_sym a b = ground arith

updates_alike : (a b c : OwnershipLayer) → IsAlike a b → updates a c ≡ updates b c
unfolding updates
updates_alike a b c (p, q) = λ i. (c.layer_id == p i) || (identity c == q i)

pub any_alike :
    (a b : OwnershipLayer) (xs : List OwnershipLayer)
    → IsAlike a b
    → any (updates a) xs ≡ any (updates b) xs
any_alike a b [] h = refl
any_alike a b (x ∷ xs) h = rw (updates_alike a b x h, any_alike a b xs h) refl

any-filter :
    (p kept : OwnershipLayer → Bool) (xs : List OwnershipLayer)
    → any p xs ≡ false
    → any p (filter kept xs) ≡ false
any-filter p kept [] h = refl
any-filter p kept (x ∷ xs) h = ground (arith, any-filter p kept xs)

pub all_apart-filter :
    (kept : OwnershipLayer → Bool) (xs : List OwnershipLayer)
    → all_apart xs ≡ true
    → all_apart (filter kept xs) ≡ true
unfolding all_apart
all_apart-filter kept [] h = refl
all_apart-filter kept (x ∷ xs) h =
    ground (arith, any-filter (updates x) kept xs, all_apart-filter kept xs)

any-insert_before :
    (p test : OwnershipLayer → Bool) (new : OwnershipLayer) (xs : List OwnershipLayer)
    → any p xs ≡ false
    → p new ≡ false
    → any p (insert_before test new xs) ≡ false
unfolding insert_before
any-insert_before p test new [] h k = ground arith
any-insert_before p test new (x ∷ xs) h k = ground (arith, any-insert_before p test new xs)

pub all_apart-insert_before :
    (test : OwnershipLayer → Bool) (new : OwnershipLayer) (xs : List OwnershipLayer)
    → all_apart xs ≡ true
    → any (updates new) xs ≡ false
    → all_apart (insert_before test new xs) ≡ true
unfolding all_apart insert_before
all_apart-insert_before test new [] h k = refl
all_apart-insert_before test new (x ∷ xs) h k = ground (
  arith,
  updates_sym x new,
  any-insert_before (updates x) test new xs,
  all_apart-insert_before test new xs,
)

any-replace_first :
    (t : OwnershipLayer → Bool) (a stored old : OwnershipLayer) (xs : List OwnershipLayer)
    → IsAlike stored old
    → find t xs ≡ some old
    → any (updates a) xs ≡ false
    → any (updates a) (replace_first t stored xs) ≡ false
unfolding replace_first
any-replace_first t a stored old [] s f h = refl
any-replace_first t a stored old (x ∷ xs) s f h = ground (
  arith,
  updates_sym a stored,
  updates_alike stored old a s,
  updates_sym a old,
  any-replace_first t a stored old xs s,
)

-- The layer that takes the place of one that is alike.
pub all_apart-replace_first :
    (t : OwnershipLayer → Bool) (stored old : OwnershipLayer) (xs : List OwnershipLayer)
    → IsAlike stored old
    → find t xs ≡ some old
    → all_apart xs ≡ true
    → all_apart (replace_first t stored xs) ≡ true
unfolding replace_first all_apart
all_apart-replace_first t stored old [] s f h = refl
all_apart-replace_first t stored old (x ∷ xs) s f h = ground (
  arith,
  any_alike stored old xs s,
  any-replace_first t x stored old xs s,
  all_apart-replace_first t stored old xs s,
)

-- Without a collision, the layer that an admission updates has its identity.
pub find-identity :
    (layer old : OwnershipLayer) (xs : List OwnershipLayer)
    → any (collides layer) xs ≡ false
    → find (updates layer) xs ≡ some old
    → identity old ≡ identity layer
unfolding collides updates
find-identity layer old [] c f = absurd (cc f)
find-identity layer old (x ∷ xs) c f = ground (arith, find-identity layer old xs)

pub any-find-none :
    (p : OwnershipLayer → Bool) (xs : List OwnershipLayer) → find p xs ≡ none → any p xs ≡ false
any-find-none p [] f = refl
any-find-none p (x ∷ xs) f = ground (arith, any-find-none p xs)

any-remove_first :
    (p : OwnershipLayer → Bool) (stored : OwnershipLayer) (xs : List OwnershipLayer)
    → any p xs ≡ false
    → any p (remove_first stored xs) ≡ false
unfolding remove_first
any-remove_first p stored [] h = refl
any-remove_first p stored (x ∷ xs) h = ground (arith, any-remove_first p stored xs)

pub all_apart-remove_first :
    (stored : OwnershipLayer) (xs : List OwnershipLayer)
    → all_apart xs ≡ true
    → all_apart (remove_first stored xs) ≡ true
unfolding remove_first all_apart
all_apart-remove_first stored [] h = refl
all_apart-remove_first stored (x ∷ xs) h =
    ground (arith, any-remove_first (updates x) stored xs, all_apart-remove_first stored xs)

abbrev home_text : String → Bool
home_text s = s == "manual" || s == "manual_off"

home_of_value : (k : LayerKind) → is_homeowner_kind k ≡ home_text (kind_value k)
unfolding kind_value is_homeowner_kind string_discrete
home_of_value automatic = refl
home_of_value manual = refl
home_of_value manual_off = refl
home_of_value functional = refl
home_of_value overlay = refl

homeowner_of_value :
    (k l : LayerKind) → kind_value k ≡ kind_value l → is_homeowner_kind k ≡ is_homeowner_kind l
homeowner_of_value k l h = home_of_value k ∙ ap home_text h ∙ sym (home_of_value l)

layer_eq-owner :
    (a b : OwnershipLayer)
    → layer_eq a b ≡ true
    → (a.layer_id ≡ b.layer_id)
      × (a.owner ≡ b.owner)
      × (kind_value a.kind ≡ kind_value b.kind)
      × (a.family ≡ b.family)
      × (a.session_id ≡ b.session_id)
      × (a.parent_layer_id ≡ b.parent_layer_id)
unfolding layer_eq
layer_eq-owner a b h = ground arith

layer_eq-IsAlike : (a b : OwnershipLayer) → layer_eq a b ≡ true → IsAlike a b
unfolding identity
layer_eq-IsAlike a b h =
    let (i, o, k, f, s, p) = layer_eq-owner a b h in
    let home = homeowner_of_value a.kind b.kind k in
    (i, λ j. if home j then none else some (((o j, k j), (f j, s j)), p j))

updates-member :
    (x stored : OwnershipLayer) (xs : List OwnershipLayer)
    → any (updates x) xs ≡ false
    → any (λ y. layer_eq y stored) xs ≡ true
    → updates x stored ≡ false
updates-member x stored [] h m = absurd (cc m)
updates-member x stored (y ∷ xs) h m = elim (Bool-cases (layer_eq y stored)) [
  | inl same ↦ ground (
    arith,
    updates_sym x y,
    updates_sym x stored,
    updates_alike y stored x (layer_eq-IsAlike y stored same),
  )
  | inr differs ↦ ground (arith, updates-member x stored xs)
]

-- Once it is taken out, a stored layer is apart from the rest.
pub any-removed :
    (stored : OwnershipLayer) (xs : List OwnershipLayer)
    → all_apart xs ≡ true
    → any (λ x. layer_eq x stored) xs ≡ true
    → any (updates stored) (remove_first stored xs) ≡ false
unfolding remove_first all_apart
any-removed stored [] h m = absurd (cc m)
any-removed stored (x ∷ xs) h m = elim (Bool-cases (layer_eq x stored)) [
  | inl same ↦ rw (same, ← any_alike x stored xs (layer_eq-IsAlike x stored same)) (ground arith)
  | inr differs ↦
      ground (arith, updates_sym x stored, updates-member x stored xs, any-removed stored xs)
]
