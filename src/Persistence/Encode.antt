-- ===== src/Persistence/Encode.antt =====
-- `serialize_state` and its helpers.
use home_lighting_manager.Common.{
  ℕ, String, Option, none, some, List, [], ◌∷◌, ◌++◌, map, filter, string_eq,
}
use home_lighting_manager.Common.Int.{pos}
use home_lighting_manager.Common.Dict.{Dict, lookup, keys}
use home_lighting_manager.Common.Text.{sorted_set}
use home_lighting_manager.Model.{
  Value, Items, Fields, null, bool, int, str, list, dict, nil, cons, end, field, Appearance,
  OwnershipLayer, FamilySession, kind_value, is_homeowner_kind,
}
use home_lighting_manager.Engine.State.{or_empty}

abbrev pub storage_version : ℕ
storage_version = 2

abbrev pub optional_str : Option String → Value
optional_str none = null
optional_str (some s) = str s

-- `asdict(appearance)`
unfoldable pub appearance_fields : Appearance → Fields
appearance_fields a = field "on" a.on (
    field "brightness" a.brightness (
      field "color_temp_kelvin" a.color_temp_kelvin (
        field "xy_color" a.xy_color (
          field "rgb_color" a.rgb_color (
            field "hs_color" a.hs_color (
              field "effect" a.effect (
                field "scene_id" a.scene_id (
                  field "color_mode" a.color_mode
                    (field "scene_evidence" a.scene_evidence end)))))))))

abbrev pub optional_appearance : Option Appearance → Value
optional_appearance none = null
optional_appearance (some a) = dict (appearance_fields a)

-- `_serialize_layer`
unfoldable pub serialize_layer : OwnershipLayer → Fields
serialize_layer layer = field "layer_id" (str layer.layer_id) (
    field "owner" (str layer.owner) (
      field "kind" (str (kind_value layer.kind)) (
        field "generation" (int (pos layer.generation)) (
          field "order" (int layer.order) (
            field "appearance" (optional_appearance layer.appearance) (
              field "family" (optional_str layer.family) (
                field "session_id" (optional_str layer.session_id) (
                  field "expires_at_boundary" (optional_str layer.expires_at_boundary) (
                    field "precedence" (int layer.precedence) (
                      field "metadata" (dict layer.metadata) (
                        field "operation_id" (optional_str layer.operation_id) (
                          field "group_id" (optional_str layer.group_id) (
                            field "parent_layer_id" (optional_str layer.parent_layer_id)
                              end)))))))))))))

-- `_serialize_session`
unfoldable pub serialize_session : FamilySession → Fields
serialize_session s = field "family" (str s.family) (
    field "session_id" (str s.session_id) (
      field "generation" (int (pos s.generation)) (
        field "suppressed" (bool s.suppressed)
          (field "suppression_reason" (optional_str s.suppression_reason) end))))

unfoldable pub layer_record : String → OwnershipLayer → Value
layer_record entity layer =
    dict (field "entity_id" (str entity) (field "layer" (dict (serialize_layer layer)) end))

unfoldable pub entity_records : String → List OwnershipLayer → List Value
entity_records entity stack =
    map (layer_record entity) (filter (λ layer. is_homeowner_kind layer.kind) stack)

-- The loop over the sorted entities.
unfoldable pub layer_records : List String → Dict String (List OwnershipLayer) → List Value
layer_records [] stacks = []
layer_records (entity ∷ rest) stacks =
    entity_records entity (or_empty (lookup entity stacks)) ++ layer_records rest stacks

unfoldable pub session_records : List FamilySession → List Value
session_records sessions =
    map (λ s. dict (serialize_session s)) (filter (λ s. s.suppressed) sessions)

abbrev pub items_of : List Value → Items
items_of [] = nil
items_of (v ∷ l) = cons v (items_of l)

unfoldable pub serialize_state : Dict String (List OwnershipLayer) → List FamilySession → Value
serialize_state stacks sessions = dict (
    field "version" (int (pos storage_version)) (
      field "layers" (list (items_of (layer_records (sorted_set (keys stacks)) stacks)))
        (field "suppressed_sessions" (list (items_of (session_records sessions))) end)))
