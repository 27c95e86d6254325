-- ===== src/Common/Action.antt =====
-- A method that mutates an object and may raise ValueError or TypeError. The state comes back
-- after a raise too, since what was written before it stays written.
pub mod Invariant
pub mod Returns
use Prim.Native.String.{String}
use mathlib.Core.Bool.{Bool}
use mathlib.Core.List.{List, [], ◌∷◌}
use mathlib.Core.Option.{Option, none, some}
use home_lighting_manager.Common.Tests.{if◌then◌else◌}

pub data Result (A : Type 0) : Type 0 where
  ok : A → Result A
  err : String → Result A

abbrev pub Action : Type 0 → Type 0 → Type 0
Action S A = S → Result A × S

module _ {S A : Type 0} where
  unfoldable pub pure : A → Action S A
  pure a s = (ok a, s)

  unfoldable pub raise : String → Action S A
  raise e s = (err e, s)

  unfoldable pub gets : (S → A) → Action S A
  gets f s = (ok (f s), s)

  -- the result of a pure computation
  unfoldable pub from_result : Result A → Action S A
  from_result r s = (r, s)

module _ {S : Type 0} where
  unfoldable pub raise_if : Bool → String → Action S (Unit {0})
  raise_if c e s = (if c then err e else ok tt, s)

  -- a refusal with its reason
  unfoldable pub raise_some : Option String → Action S (Unit {0})
  raise_some none s = (ok tt, s)
  raise_some (some reason) s = (err reason, s)

  unfoldable pub modify : (S → S) → Action S (Unit {0})
  modify f s = (ok tt, f s)

abbrev pub and_then : {S A B : Type 0} → Result A × S → (A → Action S B) → Result B × S
and_then (ok a, s) f = f a s
and_then (err e, s) f = (err e, s)

infixl 5 ◌>>=◌ ◌>>◌
unfoldable pub ◌>>=◌ : {S A B : Type 0} → Action S A → (A → Action S B) → Action S B
unfolding pure raise gets from_result raise_if raise_some modify
◌>>=◌ m f s = and_then (m s) f

abbrev pub ◌>>◌ : {S A B : Type 0} → Action S A → Action S B → Action S B
m >> k = m >>= λ _. k

-- `for x in l: ...`
unfoldable pub for_each : {S A : Type 0} → List A → (A → Action S (Unit {0})) → Action S (Unit {0})
for_each [] f = pure tt
for_each (x ∷ xs) f = f x >> for_each xs f
