-- ===== src/Persistence/Payload.antt =====
-- `deserialize_state`: the loops over the records of a payload.
use home_lighting_manager.Common.{
  ℕ, suc, ◌-◌, String, Bool, true, false, not, ◌&&◌, ◌||◌, Option, none, some, List, [], ◌∷◌,
  if◌then◌else◌, length, string_eq, nat_eq, ◌==◌, is_some, ltb,
}
use home_lighting_manager.Common.Int.{pos}
use home_lighting_manager.Model.{
  Value, Items, Fields, null, bool, int, str, list, dict, nil, cons, end, field, OwnershipLayer,
  FamilySession, is_homeowner_kind, get?, get_or, item_count,
}
use home_lighting_manager.Engine.State.{is_light_id}
use home_lighting_manager.Recovery.{appearance_mismatch}
use home_lighting_manager.Persistence.Decode.{
  check, deserialize_layer, deserialize_session, text_of, ◌>>=◌, ◌>>◌,
}

-- `PersistedOwnershipState`
pub record PersistedOwnershipState : Type 0 where
  pub layers : List OwnershipLayer
  pub suppressed_sessions : List FamilySession
  pub rejected_layers : ℕ
  pub rejected_sessions : ℕ
  pub payload_rejected : Bool

-- `item.get(key)` of a dict, if it is a text
unfoldable pub key_text : String → Value → Option String
key_text key (dict d) = text_of (get_or key null d)
key_text key _ = none

abbrev names_key : String → String → Value → Bool
names_key key s v = elim (key_text key v) [ none ↦ false | some t ↦ t == s ]

-- `counts[s]` of the Counter over one key of the items
unfoldable pub count_of : String → String → Items → ℕ
count_of key s nil = 0
count_of key s (cons v l) = if names_key key s v then suc (count_of key s l) else count_of key s l

-- `_replace_metadata(layer, {"shadow": True, "persisted_entity_id": entity_id})`
unfoldable pub with_entity : String → OwnershipLayer → OwnershipLayer
with_entity entity layer = record layer {
  metadata = field "shadow" (bool true) (field "persisted_entity_id" (str entity) end);
}

-- The conditions of the loop on a parsed layer.
unfoldable pub layer_trusted : OwnershipLayer → Bool
layer_trusted layer =
    is_homeowner_kind layer.kind
    && (layer.owner == "manual"
        && (not (appearance_mismatch layer.kind layer.appearance)
            && (not (is_some layer.family)
                && (not (is_some layer.session_id) && not (is_some layer.parent_layer_id)))))

unfoldable pub accept_entity_layer : Items → String → Fields → Option OwnershipLayer
accept_entity_layer items entity d = do
  check (is_light_id entity && count_of "entity_id" entity items == 1)
  value ← get? "layer" d
  layer ← deserialize_layer value
  check (layer_trusted layer)
  some (with_entity entity layer)

-- One turn of the loop over the layers.
unfoldable pub accept_layer : Items → Value → Option OwnershipLayer
accept_layer items (dict d) = do
  value ← get? "entity_id" d
  entity ← text_of value
  accept_entity_layer items entity d
accept_layer items _ = none

-- One turn of the loop over the sessions.
unfoldable pub accept_session : Items → Value → Option FamilySession
accept_session items v = do
  s ← deserialize_session v
  check (s.suppressed && count_of "family" s.family items == 1)
  some s

unfoldable pub collect : {A : Type 0} → (Value → Option A) → Items → List A
collect f nil = []
collect f (cons v l) = elim (f v) [ none ↦ collect f l | some a ↦ a ∷ collect f l ]

unfoldable pub rejected_payload : PersistedOwnershipState
rejected_payload = record {
  layers = [];
  suppressed_sessions = [];
  rejected_layers = 0;
  rejected_sessions = 0;
  payload_rejected = true;
}

-- `type(v) is int and v in (1, STORAGE_VERSION)`
unfoldable pub is_supported : Value → Bool
is_supported (int (pos n)) = n == 1 || n == 2
is_supported _ = false

unfoldable pub accepted_payload : Items → Items → PersistedOwnershipState
accepted_payload layers sessions =
    let accepted = collect (accept_layer layers) layers in
    let suppressed = collect (accept_session sessions) sessions in
    record {
      layers = accepted;
      suppressed_sessions = suppressed;
      rejected_layers = item_count layers - length accepted;
      rejected_sessions = item_count sessions - length suppressed;
      payload_rejected = false;
    }

-- The payload's two lists: both must be lists, and short enough.
unfoldable pub parse_lists : Value → Value → PersistedOwnershipState
parse_lists (list layers) (list sessions) =
    if ltb 256 (item_count layers) || ltb 64 (item_count sessions)
    then rejected_payload
    else accepted_payload layers sessions
parse_lists _ _ = rejected_payload

unfoldable pub deserialize_state : Value → PersistedOwnershipState
deserialize_state (dict d) =
    if is_supported (get_or "version" null d)
    then parse_lists (get_or "layers" (list nil) d) (get_or "suppressed_sessions" (list nil) d)
    else rejected_payload
deserialize_state _ = rejected_payload
