-- ===== src/Common/Action/Invariant.antt =====
-- Properties of the state that an action preserves, however it ends.
use Prim.Native.String.{String}
use mathlib.Core.Bool.{Bool, true, false}
use mathlib.Core.List.{List, [], ◌∷◌}
use mathlib.Core.Option.{Option, none, some}
use home_lighting_manager.Common.Tests.{if◌then◌else◌}
use home_lighting_manager.Common.Action.{
  Action, Result, ok, err, pure, raise, gets, from_result, raise_if, raise_some, modify, and_then,
  ◌>>=◌, for_each,
}

pub record Preserves {S A : Type 0} (P : S → Type 0) (m : Action S A) : Type 0 where
  pub run : (s : S) → P s → P (m s).1

module _ {S : Type 0} {P : S → Type 0} where
  pub raise_if-Preserves : (c : Bool) (e : String) → Preserves P (raise_if c e)
  unfolding raise_if
  raise_if-Preserves c e = record { run = λ _ h. h }

  pub raise_some-Preserves : (o : Option String) → Preserves P (raise_some o)
  unfolding raise_some
  raise_some-Preserves none = record { run = λ _ h. h }
  raise_some-Preserves (some e) = record { run = λ _ h. h }

  pub modify-Preserves : (f : S → S) → ((s : S) → P s → P (f s)) → Preserves P (modify f)
  unfolding modify
  modify-Preserves f h = record { run = h }

module _ {S A : Type 0} {P : S → Type 0} where
  pub pure-Preserves : (a : A) → Preserves P (pure a)
  unfolding pure
  pure-Preserves a = record { run = λ _ h. h }

  pub raise-Preserves : (e : String) → Preserves P (raise {A = A} e)
  unfolding raise
  raise-Preserves e = record { run = λ _ h. h }

  pub gets-Preserves : (f : S → A) → Preserves P (gets f)
  unfolding gets
  gets-Preserves f = record { run = λ _ h. h }

  pub from_result-Preserves : (r : Result A) → Preserves P (from_result r)
  unfolding from_result
  from_result-Preserves r = record { run = λ _ h. h }

  pub if-Preserves :
      (c : Bool) (m n : Action S A)
      → Preserves P m
      → Preserves P n
      → Preserves P (if c then m else n)
  if-Preserves true m n hm hn = hm
  if-Preserves false m n hm hn = hn

module _ {S A B : Type 0} {P : S → Type 0} where
  after :
      (p : Result A × S) (f : A → Action S B)
      → P p.1
      → ((a : A) → Preserves P (f a))
      → P (and_then p f).1
  after (ok a, s) f h hf = (hf a).run s h
  after (err e, s) f h hf = h

  pub bind-Preserves :
      (m : Action S A) (f : A → Action S B)
      → Preserves P m
      → ((a : A) → Preserves P (f a))
      → Preserves P (m >>= f)
  unfolding ◌>>=◌
  bind-Preserves m f hm hf = record { run = λ s h. after (m s) f (hm.run s h) hf }

module _ {S A : Type 0} {P : S → Type 0} where
  pub for_each-Preserves :
      (l : List A) (f : A → Action S (Unit {0}))
      → ((a : A) → Preserves P (f a))
      → Preserves P (for_each l f)
  unfolding for_each
  for_each-Preserves [] f h = pure-Preserves tt
  for_each-Preserves (x ∷ l) f h =
      bind-Preserves (f x) (λ _. for_each l f) (h x) (λ _. for_each-Preserves l f h)

pub ruleset action_rules = (
  pure-Preserves, raise-Preserves, gets-Preserves, from_result-Preserves, raise_if-Preserves,
  raise_some-Preserves, modify-Preserves, if-Preserves, bind-Preserves, for_each-Preserves,
)
