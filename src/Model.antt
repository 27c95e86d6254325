-- ===== src/Model.antt =====
-- custom_components/home_lighting_manager/model.py: the ownership-domain types. Fields that the
-- code checks with `type(...)` or `isinstance` hold Python values; the others have the types that
-- their annotations give. Generations, sequences and revisions are natural numbers.
mod Values
mod Appearances
unfoldable pub use Values.*
unfoldable pub use Appearances.*
use home_lighting_manager.Common.{
  ℕ, String, Bool, true, false, Option, none, some, List, ◌&&◌, not, ◌||◌, ◌==◌, string_eq, nat_eq,
  option_eq,
}
use home_lighting_manager.Common.Int.{ℤ, int_eq}

pub data LayerKind : Type 0 where
  automatic manual manual_off functional overlay : LayerKind

pub data OffAction : Type 0 where
  released_manual suppressed_family created_manual_off already_manual_off popped_layer : OffAction

pub data GroupOffAction : Type 0 where
  released_to_hlm created_group_manual_off : GroupOffAction

-- the values of the enumerations, as texts
unfoldable pub kind_value : LayerKind → String
kind_value automatic = "automatic"
kind_value manual = "manual"
kind_value manual_off = "manual_off"
kind_value functional = "functional"
kind_value overlay = "overlay"

unfoldable pub off_action_value : OffAction → String
off_action_value released_manual = "released_manual"
off_action_value suppressed_family = "suppressed_family"
off_action_value created_manual_off = "created_manual_off"
off_action_value already_manual_off = "already_manual_off"
off_action_value popped_layer = "popped_layer"

unfoldable pub group_off_action_value : GroupOffAction → String
group_off_action_value released_to_hlm = "released_to_hlm"
group_off_action_value created_group_manual_off = "created_group_manual_off"

pub record OwnershipLayer : Type 0 where
  pub layer_id : String
  pub owner : String
  pub kind : LayerKind
  pub generation : ℕ
  pub order : ℤ
  pub appearance : Option Appearance
  pub family : Option String
  pub session_id : Option String
  pub expires_at_boundary : Option String
  pub precedence : ℤ
  pub metadata : Fields
  pub operation_id : Option String
  pub group_id : Option String
  pub parent_layer_id : Option String
  pub system_priority : Option ℤ
  pub protects_from_manual : Bool
  pub removable : Bool
  pub session_sequence : Option ℕ

pub record FamilySession : Type 0 where
  pub family : String
  pub session_id : String
  pub generation : ℕ
  pub suppressed : Bool
  pub suppression_reason : Option String
  pub sequence : ℕ

pub record OffResult : Type 0 where
  pub entity_id : String
  pub action : OffAction
  pub previous_layer : Option OwnershipLayer
  pub effective_layer : Option OwnershipLayer

pub record GroupOffResult : Type 0 where
  pub group_id : String
  pub action : GroupOffAction
  pub entity_ids : List String

pub record ResolvedEntity : Type 0 where
  pub entity_id : String
  pub layer : Option OwnershipLayer

pub record WorkToken : Type 0 where
  pub generation : ℕ
  pub revision : ℕ
  pub authority_id : String

-- `kind in (MANUAL, MANUAL_OFF)` and the other tests of a kind
unfoldable pub is_homeowner_kind : LayerKind → Bool
is_homeowner_kind manual = true
is_homeowner_kind manual_off = true
is_homeowner_kind _ = false

unfoldable pub is_manual : LayerKind → Bool
is_manual manual = true
is_manual _ = false

unfoldable pub is_manual_off : LayerKind → Bool
is_manual_off manual_off = true
is_manual_off _ = false

unfoldable pub is_overlay : LayerKind → Bool
is_overlay overlay = true
is_overlay _ = false

unfoldable pub is_automatic : LayerKind → Bool
is_automatic automatic = true
is_automatic _ = false

-- `bool(x)` of an optional text
abbrev pub truthy : Option String → Bool
truthy none = false
truthy (some s) = not (s == "")

-- The comparisons that `@dataclass` generates.
unfoldable pub layer_eq : OwnershipLayer → OwnershipLayer → Bool
unfolding kind_value appearance_eq value_eq
layer_eq a b =
    a.layer_id == b.layer_id
    && (a.owner == b.owner
        && (kind_value a.kind == kind_value b.kind
            && (a.generation == b.generation
                && (a.order == b.order
                    && (optional_eq appearance_eq a.appearance b.appearance
                        && (a.family == b.family
                            && (a.session_id == b.session_id
                                && (a.expires_at_boundary == b.expires_at_boundary
                                    && (a.precedence == b.precedence
                                        && (value_eq (Value.dict a.metadata) (Value.dict b.metadata)
                                            && (a.operation_id == b.operation_id
                                                && (a.group_id == b.group_id
                                                    && (a.parent_layer_id == b.parent_layer_id
                                                        && (a.system_priority == b.system_priority
                                                            && (same_bool a.protects_from_manual
                                                            b.protects_from_manual
                                                            && (same_bool a.removable b.removable
                                                            && a.session_sequence
                                                            == b.session_sequence))))))))))))))))

unfoldable pub session_eq : FamilySession → FamilySession → Bool
session_eq a b =
    a.family == b.family
    && (a.session_id == b.session_id
        && (a.generation == b.generation
            && (same_bool a.suppressed b.suppressed
                && (a.suppression_reason == b.suppression_reason && a.sequence == b.sequence))))

unfoldable pub token_eq : WorkToken → WorkToken → Bool
token_eq a b =
    a.generation == b.generation && (a.revision == b.revision && a.authority_id == b.authority_id)
