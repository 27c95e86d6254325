-- ===== src/Engine/Exposure.antt =====
-- `resolve` against the order of the stack.
use home_lighting_manager.Common.{
  String, Bool, true, false, none, some, List, [], ◌∷◌, ◌++◌, ◌≡◌, ◌⊎◌, refl, ap, arith, any,
  filter, last?, Bool-cases, inl, inr,
}
use home_lighting_manager.Model.{OwnershipLayer}
use home_lighting_manager.Engine.State.{Engine, layers, layer_eligible, resolve}

-- Where the last item that passes a test stands: everything above it fails the test.
pub record IsLast {A : Type 0} (p : A → Bool) (xs : List A) (x : A) : Type 0 where
  pub below : List A
  pub above : List A
  pub split : xs ≡ below ++ x ∷ above
  pub passes : p x ≡ true
  pub above_fails : any p above ≡ false

last-cons : {A : Type 0} (y x : A) (l : List A) → last? l ≡ some x → last? (y ∷ l) ≡ some x
last-cons y x [] h = absurd (cc h)
last-cons y x (z ∷ l) h = h

filter-none : {A : Type 0} (p : A → Bool) (xs : List A) → any p xs ≡ false → filter p xs ≡ []
filter-none p [] h = refl
filter-none p (x ∷ xs) h = ground (arith, filter-none p xs)

filter-kept :
    {A : Type 0} (p : A → Bool) (x : A) (xs : List A)
    → p x ≡ true
    → filter p (x ∷ xs) ≡ x ∷ filter p xs
filter-kept p x xs h = rw h refl

filter-dropped :
    {A : Type 0} (p : A → Bool) (x : A) (xs : List A)
    → p x ≡ false
    → filter p (x ∷ xs) ≡ filter p xs
filter-dropped p x xs h = rw h refl

IsLast-cons :
    {A : Type 0} (p : A → Bool) (y x : A) (xs : List A) → IsLast p xs x → IsLast p (y ∷ xs) x
IsLast-cons p y x xs h = record {
  below = y ∷ h.below;
  above = h.above;
  split = ap (λ l. y ∷ l) h.split;
  passes = h.passes;
  above_fails = h.above_fails;
}

IsLast-filter :
    {A : Type 0} (p : A → Bool) (xs : List A)
    → (any p xs ≡ false) × (last? (filter p xs) ≡ none)
      ⊎ ((x : A) × (last? (filter p xs) ≡ some x) × IsLast p xs x)
IsLast-filter p [] = inl (refl, refl)
IsLast-filter p (y ∷ xs) = elim (IsLast-filter p xs) [
  | inl (f, n) ↦ elim (Bool-cases (p y)) [
    | inl t ↦ inr (
      y,
      rw (filter-kept p y xs t, filter-none p xs f) refl,
      record { below = []; above = xs; split = refl; passes = t; above_fails = f },
    )
    | inr u ↦ inl (rw (u, f) refl, rw (filter-dropped p y xs u) n)
  ]
  | inr (x, l, k) ↦ elim (Bool-cases (p y)) [
    | inl t ↦
        inr (x, rw (filter-kept p y xs t) (last-cons y x (filter p xs) l), IsLast-cons p y x xs k)
    | inr u ↦ inr (x, rw (filter-dropped p y xs u) l, IsLast-cons p y x xs k)
  ]
]

-- What is exposed of an entity is the topmost eligible layer of its stack: no layer is exposed
-- exactly when none is eligible, and a layer that is exposed is an eligible layer of the stack such
-- that every layer above it is ineligible.
pub resolve-topmost :
    (e : Engine) (entity : String)
    → (any (layer_eligible e entity) (layers e entity) ≡ false) × (resolve e entity ≡ none)
      ⊎ ((layer : OwnershipLayer) × (resolve e entity ≡ some layer)
          × IsLast (layer_eligible e entity) (layers e entity) layer)
unfolding resolve
resolve-topmost e entity = IsLast-filter (layer_eligible e entity) (layers e entity)
