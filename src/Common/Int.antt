-- ===== src/Common/Int.antt =====
-- Python's unbounded integers.
use home_lighting_manager.Common.Tests.{Eq, ltb, leb}
use Prim.Native.Nat.{ℕ, suc, ◌+◌}
use mathlib.Core.Bool.{Bool}
use native.Mathlib.Decide.{ℕ_discrete}
use mathlib.Core.Path.{◌≡◌}
use native.Mathlib.Omega.{arith}

-- `negsuc n` is -(n + 1)
pub data ℤ : Type 0 where
  pos : ℕ → ℤ
  negsuc : ℕ → ℤ

abbrev pub pos_part : ℤ → ℕ
pos_part (pos n) = n
pos_part (negsuc _) = 0

abbrev pub neg_part : ℤ → ℕ
neg_part (pos _) = 0
neg_part (negsuc n) = suc n

-- `a < b` and `a <= b`
abbrev pub ltb_ℤ : ℤ → ℤ → Bool
ltb_ℤ a b = ltb (pos_part a + neg_part b) (pos_part b + neg_part a)

abbrev pub leb_ℤ : ℤ → ℤ → Bool
leb_ℤ a b = leb (pos_part a + neg_part b) (pos_part b + neg_part a)

dec_pos : {a b : ℕ} → Dec (a ≡ b) → Dec (pos a ≡ pos b)
dec_pos (yes p) = yes (ground (arith, p))
dec_pos (no p) = no (λ e. p (ground arith))

dec_negsuc : {a b : ℕ} → Dec (a ≡ b) → Dec (negsuc a ≡ negsuc b)
dec_negsuc (yes p) = yes (ground (arith, p))
dec_negsuc (no p) = no (λ e. p (ground arith))

pos_ne : (a b : ℕ) → ¬ (pos a ≡ negsuc b)
pos_ne a b e = ground arith

negsuc_ne : (a b : ℕ) → ¬ (negsuc a ≡ pos b)
negsuc_ne a b e = ground arith

unfoldable pub ℤ_discrete : Discrete ℤ
unfolding dec_pos dec_negsuc pos_ne negsuc_ne ℕ_discrete
ℤ_discrete (pos a) (pos b) = dec_pos (ℕ_discrete a b)
ℤ_discrete (negsuc a) (negsuc b) = dec_negsuc (ℕ_discrete a b)
ℤ_discrete (pos a) (negsuc b) = no (pos_ne a b)
ℤ_discrete (negsuc a) (pos b) = no (negsuc_ne a b)

instance abbrev pub int_eq : Eq ℤ
int_eq = record { dec = ℤ_discrete }
