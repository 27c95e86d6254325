-- ===== src/Persistence/Decode.antt =====
-- `deserialize_state` and its helpers: malformed records are dropped.
use home_lighting_manager.Common.{
  ℕ, suc, String, Bool, true, false, ◌&&◌, Option, none, some, [], ◌∷◌, if◌then◌else◌, string_eq,
  nat_eq, ◌==◌, contains,
}
use home_lighting_manager.Common.Int.{ℤ, pos}
use home_lighting_manager.Model.{
  Value, Fields, null, bool, int, str, list, tuple, dict, end, field, Appearance, LayerKind,
  OwnershipLayer, FamilySession, get?, get_or, is_bounded_str, item_count,
}

infixl 5 ◌>>=◌ ◌>>◌
abbrev pub ◌>>=◌ : {A B : Type 0} → Option A → (A → Option B) → Option B
none >>= f = none
some a >>= f = f a

abbrev pub ◌>>◌ : {B : Type 0} → Option (Unit {0}) → Option B → Option B
m >> k = m >>= λ _. k

-- a check that raises when it fails
abbrev pub check : Bool → Option (Unit {0})
check true = some tt
check false = none

-- `isinstance(v, str) and 0 < len(v) <= limit`, with the text
unfoldable pub bounded_str : ℕ → Value → Option String
bounded_str limit (str s) = if is_bounded_str limit (str s) then some s else none
bounded_str limit _ = none

-- an int that is no bool
unfoldable pub plain_int : Value → Option ℤ
plain_int (int n) = some n
plain_int _ = none

-- an int of at least 1
unfoldable pub positive : Option ℤ → Option ℕ
positive (some (pos (suc n))) = some (suc n)
positive _ = none

-- a text or null
unfoldable pub text_or_null : Value → Option (Option String)
text_or_null null = some none
text_or_null (str s) = some (some s)
text_or_null _ = none

-- a provenance field: null or a text of 1 to 256 characters
unfoldable pub provenance : Value → Option (Option String)
provenance null = some none
provenance (str s) = if is_bounded_str 256 (str s) then some (some s) else none
provenance _ = none

unfoldable pub text_of : Value → Option String
text_of (str s) = some s
text_of _ = none

abbrev kind_of_text : String → Option LayerKind
kind_of_text s =
    if s == "automatic"
    then some LayerKind.automatic
    else if s == "manual"
    then some LayerKind.manual
    else if s == "manual_off"
    then some LayerKind.manual_off
    else if s == "functional"
    then some LayerKind.functional
    else if s == "overlay"
    then some LayerKind.overlay
    else none

-- `LayerKind(data["kind"])`
unfoldable pub parse_kind : Value → Option LayerKind
parse_kind (str s) = kind_of_text s
parse_kind _ = none

-- A color becomes a tuple: null, or a list or tuple of the expected length.
unfoldable pub normalize_color : ℕ → Value → Option Value
normalize_color n null = some null
normalize_color n (list l) = if item_count l == n then some (tuple l) else none
normalize_color n (tuple l) = if item_count l == n then some (tuple l) else none
normalize_color n _ = none

-- The keyword arguments that `Appearance` takes; any other is a TypeError.
unfoldable pub keywords_known : Fields → Bool
keywords_known end = true
keywords_known (field k v d) =
    contains k (
      "on" ∷ "brightness" ∷ "color_temp_kelvin" ∷ "xy_color" ∷ "rgb_color" ∷ "hs_color" ∷ "effect"
      ∷ "scene_id" ∷ "color_mode" ∷ "scene_evidence" ∷ [])
    && keywords_known d

-- `_deserialize_appearance`
unfoldable pub deserialize_appearance : Fields → Option Appearance
deserialize_appearance d = do
  xy ← normalize_color 2 (get_or "xy_color" null d)
  rgb ← normalize_color 3 (get_or "rgb_color" null d)
  hs ← normalize_color 2 (get_or "hs_color" null d)
  check (keywords_known d)
  on ← get? "on" d
  some (record {
    on = on;
    brightness = get_or "brightness" null d;
    color_temp_kelvin = get_or "color_temp_kelvin" null d;
    xy_color = xy;
    rgb_color = rgb;
    hs_color = hs;
    effect = get_or "effect" null d;
    scene_id = get_or "scene_id" null d;
    color_mode = get_or "color_mode" null d;
    scene_evidence = get_or "scene_evidence" null d;
  })

unfoldable pub parse_appearance : Value → Option (Option Appearance)
parse_appearance null = some none
parse_appearance (dict d) = do a ← deserialize_appearance d; some (some a)
parse_appearance _ = none

abbrev pub is_dict : Value → Bool
is_dict (dict _) = true
is_dict _ = false

unfoldable pub layer_of_fields : Fields → Option OwnershipLayer
layer_of_fields d = do
  layer_id ← bounded_str 1024 (get_or "layer_id" null d)
  owner ← bounded_str 256 (get_or "owner" null d)
  generation ← positive (plain_int (get_or "generation" null d))
  order ← plain_int (get_or "order" (int (pos 0)) d)
  precedence ← plain_int (get_or "precedence" (int (pos 0)) d)
  appearance ← parse_appearance (get_or "appearance" null d)
  family ← text_or_null (get_or "family" null d)
  session_id ← text_or_null (get_or "session_id" null d)
  expires_at_boundary ← text_or_null (get_or "expires_at_boundary" null d)
  check (is_dict (get_or "metadata" (dict end) d))
  operation_id ← provenance (get_or "operation_id" null d)
  group_id ← provenance (get_or "group_id" null d)
  parent_layer_id ← provenance (get_or "parent_layer_id" null d)
  kind ← parse_kind (get_or "kind" null d)
  some (record {
    layer_id = layer_id;
    owner = owner;
    kind = kind;
    generation = generation;
    order = order;
    appearance = appearance;
    family = family;
    session_id = session_id;
    expires_at_boundary = expires_at_boundary;
    precedence = precedence;
    metadata = end;
    operation_id = operation_id;
    group_id = group_id;
    parent_layer_id = parent_layer_id;
    system_priority = none;
    protects_from_manual = false;
    removable = false;
    session_sequence = none;
  })

-- `_deserialize_layer`
unfoldable pub deserialize_layer : Value → Option OwnershipLayer
deserialize_layer (dict d) = layer_of_fields d
deserialize_layer _ = none

unfoldable pub parse_bool : Value → Option Bool
parse_bool (bool b) = some b
parse_bool _ = none

unfoldable pub session_of_fields : Fields → Option FamilySession
session_of_fields d = do
  family ← bounded_str 256 (get_or "family" null d)
  session_id ← bounded_str 256 (get_or "session_id" null d)
  generation ← positive (plain_int (get_or "generation" null d))
  suppressed ← parse_bool (get_or "suppressed" (bool false) d)
  suppression_reason ← text_or_null (get_or "suppression_reason" null d)
  some (record {
    family = family;
    session_id = session_id;
    generation = generation;
    suppressed = suppressed;
    suppression_reason = suppression_reason;
    sequence = 0;
  })

-- `_deserialize_session`
unfoldable pub deserialize_session : Value → Option FamilySession
deserialize_session (dict d) = session_of_fields d
deserialize_session _ = none
