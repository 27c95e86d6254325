-- ===== src/Model/Values.antt =====
-- Python values: the content of JSON records, and of fields whose type the code checks at run time.
use Prim.Native.String.{count}
use home_lighting_manager.Common.{
  ℕ, suc, ◌-◌, ◌*◌, ◌^◌, String, Bool, true, false, not, ◌&&◌, Option, none, some, ◌==◌, string_eq,
  nat_eq, leb, ltb, if◌then◌else◌,
}
use home_lighting_manager.Common.Int.{ℤ, pos, negsuc, int_eq, leb_ℤ}

-- A binary floating-point number: `finite m k` is m / 2^k.
pub data Float : Type 0 where
  finite : ℤ → ℕ → Float
  infinite : Bool → Float
  nan : Float

mutual
  pub data Value : Type 0 where
    null : Value
    bool : Bool → Value
    int : ℤ → Value
    float : Float → Value
    str : String → Value
    list : Items → Value
    tuple : Items → Value
    dict : Fields → Value

  pub data Items : Type 0 where
    nil : Items
    cons : Value → Items → Items

  pub data Fields : Type 0 where
    end : Fields
    field : String → Value → Fields → Fields

-- m * 2^k
unfoldable pub scale : ℤ → ℕ → ℤ
scale (pos m) k = pos (m * 2 ^ k)
scale (negsuc m) k = negsuc (suc m * 2 ^ k - 1)

abbrev pub same_bool : Bool → Bool → Bool
same_bool true b = b
same_bool false b = not b

-- A NaN equals itself, as in the comparison of containers that hold one object.
unfoldable pub float_eq : Float → Float → Bool
unfolding scale
float_eq (finite m j) (finite n k) = scale m k == scale n j
float_eq (infinite s) (infinite t) = same_bool s t
float_eq nan nan = true
float_eq _ _ = false

-- `low <= f <= high and isfinite(f)`
unfoldable pub float_between : ℕ → ℕ → Float → Bool
unfolding scale
float_between low high (finite m k) = leb_ℤ (scale (pos low) k) m && leb_ℤ m (scale (pos high) k)
float_between _ _ (infinite _) = false
float_between _ _ nan = false

-- the numbers among the values: `True == 1 == 1.0`
abbrev pub as_number : Value → Option Float
as_number (bool true) = some (finite (pos 1) 0)
as_number (bool false) = some (finite (pos 0) 0)
as_number (int n) = some (finite n 0)
as_number (float f) = some f
as_number _ = none

abbrev pub number_eq : Option Float → Option Float → Bool
unfolding float_eq
number_eq (some a) (some b) = float_eq a b
number_eq _ _ = false

abbrev pub is_null : Value → Bool
is_null null = true
is_null _ = false

-- `d.get(k)`, with `none` for a missing key
unfoldable pub get? : String → Fields → Option Value
get? k end = none
get? k (field j v d) = if k == j then some v else get? k d

abbrev pub field_count : Fields → ℕ
field_count end = 0
field_count (field _ _ d) = suc (field_count d)

abbrev pub item_count : Items → ℕ
item_count nil = 0
item_count (cons _ l) = suc (item_count l)

-- `d.get(k, default)`
unfoldable pub get_or : String → Value → Fields → Value
unfolding get?
get_or k v d = elim (get? k d) [ none ↦ v | some w ↦ w ]

-- `==` of two values; dicts are equal whatever the order of their keys.
unfoldable mutual
  unfolding number_eq get?

  pub value_eq : Value → Value → Bool
  value_eq null w = is_null w
  value_eq (bool b) w = number_eq (as_number (bool b)) (as_number w)
  value_eq (int n) w = number_eq (as_number (int n)) (as_number w)
  value_eq (float f) w = number_eq (as_number (float f)) (as_number w)
  value_eq (str s) w = elim w [ str t ↦ s == t | _ ↦ false ]
  value_eq (list l) w = elim w [ list m ↦ items_eq l m | _ ↦ false ]
  value_eq (tuple l) w = elim w [ tuple m ↦ items_eq l m | _ ↦ false ]
  value_eq (dict d) w = elim w [
    | dict e ↦ fields_eq d e && field_count d == field_count e
    | _ ↦ false
  ]

  pub items_eq : Items → Items → Bool
  items_eq nil nil = true
  items_eq nil (cons _ _) = false
  items_eq (cons _ _) nil = false
  items_eq (cons v l) (cons w m) = value_eq v w && items_eq l m

  pub fields_eq : Fields → Fields → Bool
  fields_eq end e = true
  fields_eq (field k v d) e =
      elim (get? k e) [ none ↦ false | some w ↦ value_eq v w ] && fields_eq d e

-- `isinstance(v, str) and 0 < len(v) <= limit`
unfoldable pub is_bounded_str : ℕ → Value → Bool
is_bounded_str limit (str s) = ltb 0 (count s) && leb (count s) limit
is_bounded_str limit _ = false
