-- ===== src/Reconciliation/Difference.antt =====
-- engine.py: `static_diff`, with the comparison of numbers within a tolerance. A difference of
-- floats is rounded to the 53 bits of a double, ties to even.
use home_lighting_manager.Common.{
  ℕ, zero, suc, ◌+◌, ◌-◌, ◌*◌, ◌/◌, ◌%◌, ◌^◌, String, Bool, true, false, not, ◌&&◌, ◌||◌, Option,
  none, some, [], ◌∷◌, ◌++◌, if◌then◌else◌, ltb, leb, ◌==◌, nat_eq, string_eq,
}
use home_lighting_manager.Common.Int.{ℤ, pos_part, neg_part}
use home_lighting_manager.Model.{
  Value, Items, Fields, Float, null, float, str, list, tuple, dict, nil, cons, end, field, finite,
  as_number, get?, get_or, value_eq, scale,
}
use home_lighting_manager.Reconciliation.{availability, mismatch, Difference, EntityState}

-- a bound t / 2^s
pub record Tolerance : Type 0 where
  pub numerator : ℕ
  pub exponent : ℕ

abbrev pub whole : ℕ → Tolerance
whole n = record { numerator = n; exponent = 0 }

-- the double 0.003
abbrev pub xy_tolerance : Tolerance
xy_tolerance = record { numerator = 3458764513820541; exponent = 60 }

-- `n + 1` rounds are more than a number `n` has bits.
bit_length : ℕ → ℕ → ℕ
bit_length zero n = 0
bit_length (suc f) n = let rest = bit_length f (n / 2) in if n == 0 then 0 else suc rest

unfoldable pub round_to_double : ℕ → ℕ
unfolding bit_length
round_to_double n =
    let excess = bit_length (suc n) n - 53 in
    let unit = 2 ^ excess in
    let half = unit / 2 in
    let low = n % unit in
    let up = ltb half low || (low == half && n / unit % 2 == 1) in
    if excess == 0 then n else if up then (n / unit + 1) * unit else n / unit * unit

unfoldable pub distance : ℤ → ℤ → ℕ
distance a b =
    let x = pos_part a + neg_part b in
    let y = pos_part b + neg_part a in if ltb x y then y - x else x - y

-- `abs(a - b) <= t` for numbers
unfoldable pub numbers_near : (ℕ → ℕ) → Tolerance → Float → Float → Bool
unfolding scale distance
numbers_near rounded t (finite m j) (finite n k) =
    leb (rounded (distance (scale m k) (scale n j)) * 2 ^ t.exponent) (t.numerator * 2 ^ (j + k))
numbers_near _ _ _ _ = false

abbrev pub is_float : Value → Bool
is_float (float _) = true
is_float _ = false

unfoldable pub options_near : (ℕ → ℕ) → Tolerance → Option Float → Option Float → Bool
unfolding numbers_near
options_near rounded t (some a) (some b) = numbers_near rounded t a b
options_near _ _ _ _ = false

-- `abs(a - b) <= t`, false where it raises TypeError
unfoldable pub near : Tolerance → Value → Value → Bool
unfolding options_near round_to_double
near t a b =
    options_near (if is_float a || is_float b then round_to_double else λ n. n) t (as_number a)
      (as_number b)

unfoldable pub all_near : Tolerance → Items → Items → Bool
unfolding near
all_near t nil nil = true
all_near t (cons a l) (cons b m) = near t a b && all_near t l m
all_near t nil (cons _ _) = false
all_near t (cons _ _) nil = false

-- what iteration gives: a dict gives its keys
unfoldable pub keys_of : Fields → Items
keys_of end = nil
keys_of (field k _ d) = cons (str k) (keys_of d)

-- As many texts as a text has characters.
unfoldable pub characters : ℕ → Items
characters zero = nil
characters (suc n) = cons (str "") (characters n)

unfoldable pub elements : Value → Option Items
unfolding keys_of characters
elements (list l) = some l
elements (tuple l) = some l
elements (dict d) = some (keys_of d)
elements (str s) = some (characters (Prim.Native.String.count s))
elements _ = none

unfoldable pub options_all_near : Option Items → Option Items → Bool
unfolding all_near
options_all_near (some l) (some m) = all_near xy_tolerance l m
options_all_near _ _ = false

unfoldable pub color_near : Value → Value → Bool
unfolding elements options_all_near
color_near a b = options_all_near (elements a) (elements b)

-- One round of the loop over the three keys.
unfoldable pub deviation_of : String → (Value → Value → Bool) → Fields → Fields → Difference
unfolding get_or
deviation_of key test attributes parameters = elim (get? key parameters) [
  | none ↦ []
  | some wanted ↦
      let actual = get_or key null attributes in
      if test actual wanted then [] else (key, mismatch wanted actual) ∷ []
]

unfoldable pub expected_state : String → String
expected_state service = if service == "light.turn_on" then "on" else "off"

-- `static_diff` for a state that is there
unfoldable pub diff_state : EntityState → String → Fields → Difference × Bool
unfolding deviation_of near color_near value_eq
diff_state state service parameters =
    if state.state == "unknown" || state.state == "unavailable"
    then (("availability", availability state.state) ∷ [], false)
    else if not (state.state == expected_state service)
    then (("state", mismatch (str (expected_state service)) (str state.state)) ∷ [], true)
    else if expected_state service == "off"
    then ([], true)
    else (
      deviation_of "brightness" (near (whole 2)) state.attributes parameters
          ++ (deviation_of "color_temp_kelvin" (near (whole 35)) state.attributes parameters
              ++ (deviation_of "xy_color" color_near state.attributes parameters
                  ++ deviation_of "effect" value_eq state.attributes parameters)),
      true,
    )

unfoldable pub static_diff : Option EntityState → String → Fields → Difference × Bool
static_diff none service parameters = (("availability", availability "missing") ∷ [], false)
static_diff (some state) service parameters = diff_state state service parameters
