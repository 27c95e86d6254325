-- ===== src/Common/Tests.antt =====
-- Boolean tests, the conditional, and equality by an instance.
use Prim.Native.Nat.{ℕ, compare, Ordering}
use Prim.Native.String.{String}
use mathlib.Core.Path.{◌≡◌, refl}
use mathlib.Core.Logic.{◌⊎◌, inl, inr}
use mathlib.Core.Bool.{Bool, true, false}
use mathlib.Core.Option.{Option, none, some, some-injective}
use native.Mathlib.Decide.{ℕ_discrete}
use native.Mathlib.Omega.{arith}
use text.Mathlib.Text.{◌==◌ as str_eq}
use text.Mathlib.TextEquality.{eq_iff}

abbrev pub ltb : ℕ → ℕ → Bool
ltb a b = elim (compare a b) [ Ordering.lt ↦ true | _ ↦ false ]

abbrev pub leb : ℕ → ℕ → Bool
leb a b = elim (compare a b) [ Ordering.gt ↦ false | _ ↦ true ]

infix 1 if◌then◌else◌
abbrev pub if◌then◌else◌ {ℓ} : {A : Type ℓ} → Bool → A → A → A
if true then x else y = x
if false then x else y = y

-- To split on a computed value and keep the equation.
pub Bool-cases : (b : Bool) → (b ≡ true) ⊎ (b ≡ false)
Bool-cases true = inl refl
Bool-cases false = inr refl

pub Option-cases {ℓ} : {A : Type ℓ} (o : Option A) → (o ≡ none) ⊎ ((a : A) × (o ≡ some a))
Option-cases none = inl refl
Option-cases (some a) = inr (a, refl)

abbrev pub is_some {ℓ} : {A : Type ℓ} → Option A → Bool
is_some none = false
is_some (some _) = true

-- `==` on a type whose equality is decided.
pub record Eq {ℓ} (A : Type ℓ) : Type ℓ where
  pub dec : Discrete A

infix 50 ◌==◌
abbrev pub ◌==◌ {ℓ} : {A : Type ℓ} ⦃e : Eq A⦄ → A → A → Bool
◌==◌ ⦃e⦄ a b = elim (e.dec a b) [ yes _ ↦ true | no _ ↦ false ]

string_of_test : (s t : String) (b : Bool) → str_eq s t ≡ b → Dec (s ≡ t)
string_of_test s t true h = yes ((eq_iff s t).0 h)
string_of_test s t false h = no (λ e. ground (arith, (eq_iff s t).1 e))

unfoldable pub string_discrete : Discrete String
unfolding string_of_test
string_discrete s t = string_of_test s t (str_eq s t) refl

instance abbrev pub string_eq : Eq String
string_eq = record { dec = string_discrete }

instance abbrev pub nat_eq : Eq ℕ
nat_eq = record { dec = ℕ_discrete }

dec_pair :
    {A B : Type 0} (a c : A) (b d : B)
    → Dec (a ≡ c)
    → Dec (b ≡ d)
    → Dec (◌≡◌ {A = A × B} (a, b) (c, d))
dec_pair a c b d (yes p) (yes q) = yes (λ i. (p i, q i))
dec_pair a c b d (no p) _ = no (λ e. p (λ i. (e i).0))
dec_pair a c b d (yes _) (no q) = no (λ e. q (λ i. (e i).1))

unfoldable pub pair_discrete : {A B : Type 0} → Discrete A → Discrete B → Discrete (A × B)
unfolding dec_pair
pair_discrete da db x y = dec_pair x.0 y.0 x.1 y.1 (da x.0 y.0) (db x.1 y.1)

instance abbrev pub pair_eq : {A B : Type 0} ⦃a : Eq A⦄ ⦃b : Eq B⦄ → Eq (A × B)
pair_eq ⦃a⦄ ⦃b⦄ = record { dec = pair_discrete a.dec b.dec }

dec_some : {A : Type 0} (a b : A) → Dec (a ≡ b) → Dec (some a ≡ some b)
dec_some a b (yes p) = yes (λ i. some (p i))
dec_some a b (no p) = no (λ e. p (some-injective a b e))

none_ne : {A : Type 0} (a : A) → ¬ (◌≡◌ {A = Option A} none (some a))
none_ne a e = ground arith

some_ne : {A : Type 0} (a : A) → ¬ (◌≡◌ {A = Option A} (some a) none)
some_ne a e = ground arith

unfoldable pub option_discrete : {A : Type 0} → Discrete A → Discrete (Option A)
unfolding dec_some none_ne some_ne
option_discrete d none none = yes refl
option_discrete d none (some b) = no (none_ne b)
option_discrete d (some a) none = no (some_ne a)
option_discrete d (some a) (some b) = dec_some a b (d a b)

instance abbrev pub option_eq : {A : Type 0} ⦃a : Eq A⦄ → Eq (Option A)
option_eq ⦃a⦄ = record { dec = option_discrete a.dec }
