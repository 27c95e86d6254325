-- ===== src/Common/Action/Returns.antt =====
-- Properties of what an action returns, where it returns.
use home_lighting_manager.Common.Action.{Action, Result, ok, err, and_then, ◌>>=◌}

-- An action that returns has a property of its result.
abbrev pub Gives : {A : Type 0} → (A → Type 0) → Result A → Type 0
Gives P (ok a) = P a
Gives P (err _) = Unit {0}

module _ {S A B : Type 0} (P : A → Type 0) (Q : B → Type 0) where
  and_then-Gives :
      (p : Result A × S) (f : A → Action S B)
      → Gives P p.0
      → ((a : A) (s : S) → P a → Gives Q (f a s).0)
      → Gives Q (and_then p f).0
  and_then-Gives (ok a, s) f h next = next a s h
  and_then-Gives (err e, s) f h next = tt

  pub >>=-Gives :
      (m : Action S A) (f : A → Action S B) (s : S)
      → Gives P (m s).0
      → ((a : A) (t : S) → P a → Gives Q (f a t).0)
      → Gives Q ((m >>= f) s).0
  unfolding ◌>>=◌
  >>=-Gives m f s h next = and_then-Gives (m s) f h next
