-- ===== src/Operations/Effect.antt =====
-- What an admitted operation does to the engine.
use Prim.Native.String.{◌++◌ as ◌+++◌}
use home_lighting_manager.Common.{
  ℕ, String, Bool, true, false, not, ◌&&◌, ◌||◌, Option, none, some, List, [], ◌∷◌, map, ◌==◌,
  string_eq, if◌then◌else◌, is_some, any,
}
use home_lighting_manager.Common.Int.{ℤ, pos, ltb_ℤ}
use home_lighting_manager.Common.Action.{Action, pure, gets, modify, for_each, ◌>>=◌, ◌>>◌}
use home_lighting_manager.Model.{
  OwnershipLayer, LayerKind, bool, field, end, is_manual_off, off_action_value,
  group_off_action_value, truthy,
}
use home_lighting_manager.Engine.State.{Engine, resolve, layers, nightly_boundary}
use home_lighting_manager.Engine.Groups.{reset_group_off_for_members}
use home_lighting_manager.Engine.Families.{remove_homeowner_exceptions, suppress_family}
use home_lighting_manager.Engine.Stack.{push, admit_manual, or_value}
use home_lighting_manager.Engine.Off.{apply_off, apply_group_off}
use home_lighting_manager.Operations.Record.{MemberOutcome, HomeownerOperation, ids_of}

-- `_tag_exposed_manual`
unfoldable pub tag_layer :
    String → HomeownerOperation → Option OwnershipLayer → Action Engine (Unit {0})
tag_layer entity op none = pure tt
tag_layer entity op (some layer) =
    if is_manual_off layer.kind
    then (do
      push entity (record layer { operation_id = some op.operation_id; group_id = op.group_id })
          none
      pure tt)
    else pure tt

unfoldable pub tag_exposed_manual : HomeownerOperation → String → Action Engine (Unit {0})
tag_exposed_manual op entity = do layer ← gets (λ e. resolve e entity); tag_layer entity op layer

unfoldable pub manual_layer : ℕ → HomeownerOperation → MemberOutcome → ℤ → OwnershipLayer
manual_layer generation op m precedence = record {
  layer_id = ◌+++◌ "manual:" (◌+++◌ op.operation_id (◌+++◌ ":" m.entity_id));
  owner = "manual";
  kind = LayerKind.manual;
  generation = generation;
  order = pos 0;
  appearance = m.appearance;
  family = none;
  session_id = none;
  expires_at_boundary = some nightly_boundary;
  precedence = precedence;
  metadata = field "shadow" (bool true) end;
  operation_id = some op.operation_id;
  group_id = op.group_id;
  parent_layer_id = none;
  system_priority = none;
  protects_from_manual = false;
  removable = false;
  session_sequence = none;
}

abbrev pub max_ℤ : ℤ → ℤ → ℤ
max_ℤ a b = if ltb_ℤ a b then b else a

-- The precedence of a Manual layer over the exposed one, whose session is suppressed.
unfoldable pub override_session : ℤ → ℤ → Option String → Option String → Action Engine ℤ
override_session precedence other (some family) (some session_id) =
    if truthy (some family) && truthy (some session_id)
    then (do
      suppress_family family session_id "homeowner_override" none
      pure (max_ℤ precedence other))
    else pure precedence
override_session precedence other (some family) none = pure precedence
override_session precedence other none session_id = pure precedence

unfoldable pub override_exposed : ℤ → Option OwnershipLayer → Action Engine ℤ
override_exposed precedence none = pure precedence
override_exposed precedence (some current) =
    override_session precedence current.precedence current.family current.session_id

-- Explicit placement, or the numeric one of the legacy ingress.
unfoldable pub admit : Bool → String → OwnershipLayer → Action Engine OwnershipLayer
admit true entity layer = admit_manual entity layer
admit false entity layer = push entity layer none

unfoldable pub is_explicit_admission : Engine → MemberOutcome → Bool
is_explicit_admission e m =
    not (is_some m.manual_precedence)
    || any (λ item. is_some item.system_priority) (layers e m.entity_id)

-- One member of an appearance operation, with the layer that was exposed before the operation.
unfoldable pub apply_appearance :
    HomeownerOperation → MemberOutcome × Option OwnershipLayer → Action Engine (Unit {0})
apply_appearance op (m, current) = do
  precedence ← override_exposed (or_value m.manual_precedence (pos 0)) current
  modify (remove_homeowner_exceptions m.entity_id)
  e ← gets (λ e. e)
  admit (is_explicit_admission e m) m.entity_id (manual_layer e.generation op m precedence)
  pure tt

-- The reason of the last member is the reason of the operation.
unfoldable pub apply_offs : HomeownerOperation → List MemberOutcome → String → Action Engine String
apply_offs op [] reason = pure reason
apply_offs op (m ∷ ms) reason = do
  result ← apply_off m.entity_id none nightly_boundary
  tag_exposed_manual op m.entity_id
  apply_offs op ms (off_action_value result.action)

unfoldable pub apply_appearances : HomeownerOperation → List MemberOutcome → Action Engine String
apply_appearances op eligible = do
  exposed ← gets (λ e. map (λ m. (m, resolve e m.entity_id)) eligible)
  modify (reset_group_off_for_members (ids_of eligible))
  for_each exposed (apply_appearance op)
  pure "shadow Manual appearance recorded"

unfoldable pub apply_group : HomeownerOperation → String → List MemberOutcome → Action Engine String
apply_group op group eligible = do
  result ← apply_group_off group (ids_of op.members) (some (ids_of eligible)) none nightly_boundary
  for_each (ids_of eligible) (tag_exposed_manual op)
  pure (group_off_action_value result.action)

unfoldable pub apply_singles : HomeownerOperation → List MemberOutcome → Action Engine String
apply_singles op eligible = do
  modify (reset_group_off_for_members (ids_of eligible))
  apply_offs op eligible ""

unfoldable pub apply_all_off :
    HomeownerOperation → List MemberOutcome → Option String → Action Engine String
apply_all_off op eligible (some group) = apply_group op group eligible
apply_all_off op eligible none = apply_singles op eligible

-- The three branches of `_apply` over the eligible members.
unfoldable pub effect : HomeownerOperation → List MemberOutcome → Action Engine String
effect op eligible =
    if op.kind == "off"
    then apply_all_off op eligible op.group_id
    else apply_appearances op eligible
