-- ===== src/Engine/Off.antt =====
-- The OFF operations of the engine: Manual-OFF, the peel of one entity, the two-step group OFF.
use home_lighting_manager.Common.{
  ℕ, String, Bool, true, false, not, ◌&&◌, Option, none, some, List, [], ◌∷◌, map, ◌==◌, string_eq,
  if◌then◌else◌, length, is_some, leb,
}
use home_lighting_manager.Common.Dict.{lookup, insert, keys}
use home_lighting_manager.Common.Int.{ℤ, pos}
use home_lighting_manager.Common.Action.{
  Action, pure, gets, modify, raise_if, for_each, ◌>>=◌, ◌>>◌,
}
use home_lighting_manager.Common.Text.{Names, sorted_set, same_set, intersection}
use Prim.Native.String.{◌++◌ as ◌+++◌}
use home_lighting_manager.Model.{
  OwnershipLayer, LayerKind, OffAction, OffResult, GroupOffAction, GroupOffResult, is_manual,
  is_manual_off, appearance_of, truthy, group_off_action_value, end,
}
use home_lighting_manager.Engine.State.{Engine, changed, resolve, max_groups}
use home_lighting_manager.Engine.Groups.{discard_group_off, invalidate_overlaps, is_nonempty}
use home_lighting_manager.Engine.Families.{
  remove_layer, remove_homeowner_exceptions, suppress_family,
}
use home_lighting_manager.Engine.Stack.{admit_manual, new_layer_id, or_value}

-- The layer that `push_manual_off` admits.
unfoldable pub manual_off_layer : ℕ → String → String → ℤ → OwnershipLayer
manual_off_layer generation layer_id boundary precedence = record {
  layer_id = layer_id;
  owner = "manual";
  kind = LayerKind.manual_off;
  generation = generation;
  order = pos 0;
  appearance = some (appearance_of false);
  family = none;
  session_id = none;
  expires_at_boundary = some boundary;
  precedence = precedence;
  metadata = end;
  operation_id = none;
  group_id = none;
  parent_layer_id = none;
  system_priority = none;
  protects_from_manual = false;
  removable = false;
  session_sequence = none;
}

abbrev pub precedence_of : Option OwnershipLayer → ℤ
precedence_of none = pos 0
precedence_of (some layer) = layer.precedence

-- `layer_id or self._new_layer_id(...)`
abbrev pub or_text : Option String → String → String
or_text none d = d
or_text (some s) d = if s == "" then d else s

unfoldable pub push_manual_off :
    String → String → Option ℤ → Option String → Action Engine OwnershipLayer
push_manual_off entity boundary precedence layer_id = do
  current ← gets (λ e. resolve e entity)
  modify (remove_homeowner_exceptions entity)
  e ← gets (λ e. e)
  admit_manual entity (
      manual_off_layer e.generation (or_text layer_id (new_layer_id e "manual-off" entity)) boundary
        (or_value precedence (precedence_of current)))

unfoldable pub release_manual : Option OwnershipLayer → String → Engine → Bool × Engine
release_manual none entity e = (false, e)
release_manual (some layer) entity e =
    if is_manual layer.kind then (true, remove_layer entity layer.layer_id e) else (false, e)

-- `manual_release`
unfoldable pub manual_release : String → Engine → Bool × Engine
manual_release entity e = release_manual (resolve e entity) entity e

-- The branches of `apply_off`, on the layer that is exposed.
unfoldable pub peel_session :
    OwnershipLayer
    → Option String
    → Option String
    → Action Engine OffAction
    → Action Engine OffAction
peel_session layer (some family) (some session_id) otherwise = do
  suppress_family family session_id "homeowner_off" none
  pure OffAction.suppressed_family
peel_session layer (some family) none otherwise = otherwise
peel_session layer none session_id otherwise = otherwise

unfoldable pub create_manual_off : String → Option ℤ → String → Action Engine OffAction
create_manual_off entity precedence boundary = do
  push_manual_off entity boundary precedence none
  pure OffAction.created_manual_off

unfoldable pub peel : String → Option ℤ → String → Option OwnershipLayer → Action Engine OffAction
peel entity precedence boundary none = create_manual_off entity precedence boundary
peel entity precedence boundary (some layer) =
    if is_manual layer.kind
    then (do modify (remove_layer entity layer.layer_id); pure OffAction.released_manual)
    else peel_session layer layer.family layer.session_id (
        if layer.removable
        then (do modify (remove_layer entity layer.layer_id); pure OffAction.popped_layer)
        else if is_manual_off layer.kind
        then pure OffAction.already_manual_off
        else create_manual_off entity precedence boundary)

unfoldable pub apply_off : String → Option ℤ → String → Action Engine OffResult
apply_off entity precedence boundary = do
  previous ← gets (λ e. resolve e entity)
  action ← peel entity precedence boundary previous
  effective ← gets (λ e. resolve e entity)
  pure (record {
    entity_id = entity;
    action = action;
    previous_layer = previous;
    effective_layer = effective;
  })

unfoldable pub suppress_named : Option String → Option String → Action Engine (Unit {0})
suppress_named (some family) (some session_id) =
    if truthy (some family) && truthy (some session_id)
    then (do suppress_family family session_id "homeowner_group_off" none; pure tt)
    else pure tt
suppress_named (some family) none = pure tt
suppress_named none session_id = pure tt

-- The first loop of the second group OFF: one layer of the snapshot.
unfoldable pub suppress_exposed : Option OwnershipLayer → Action Engine (Unit {0})
suppress_exposed none = pure tt
suppress_exposed (some layer) = suppress_named layer.family layer.session_id

unfoldable pub group_manual_off : String → Option ℤ → String → String → Action Engine (Unit {0})
group_manual_off group precedence boundary entity = do
  id ← gets (λ e. new_layer_id e (◌+++◌ "group-manual-off:" group) entity)
  push_manual_off entity boundary precedence (some id)
  pure tt

-- A second OFF of the same group and members.
unfoldable pub second_group_off :
    String → List String → Option ℤ → String → Action Engine GroupOffAction
second_group_off group affected precedence boundary = do
  exposed ← gets (λ e. map (λ entity. resolve e entity) affected)
  for_each exposed suppress_exposed
  for_each affected (group_manual_off group precedence boundary)
  pure GroupOffAction.created_group_manual_off

unfoldable pub release_all : List String → Engine → Engine
release_all [] e = e
release_all (entity ∷ rest) e = release_all rest (remove_homeowner_exceptions entity e)

abbrev pub first_key : List String → String
first_key [] = ""
first_key (g ∷ _) = g

-- A new group beyond the capacity displaces the oldest one.
unfoldable pub make_room : String → Engine → Engine
make_room group e =
    if not (is_some (lookup group e.group_off_armed)) && leb max_groups (length e.group_off_armed)
    then discard_group_off (first_key (keys e.group_off_armed)) "apply_group_off:capacity"
        (some group) e
    else e

unfoldable pub arm : String → Names → Engine → Engine
arm group members e = record e { group_off_armed = insert group members e.group_off_armed }

-- A first OFF releases the homeowner layers of the members and arms the group.
unfoldable pub first_group_off : String → Names → List String → Engine → Engine
first_group_off group members affected e =
    arm group members (make_room group (release_all affected e))

-- `self._group_off_armed.get(group_id) == member_set`
unfoldable pub is_armed : Engine → String → Names → Bool
is_armed e group members = elim (lookup group e.group_off_armed) [
  | none ↦ false
  | some targets ↦ same_set targets members
]

unfoldable pub group_phase :
    String → Names → List String → Option ℤ → String → Bool → Action Engine GroupOffAction
group_phase group members affected precedence boundary true =
    second_group_off group affected precedence boundary
group_phase group members affected precedence boundary false = do
  modify (first_group_off group members affected)
  pure GroupOffAction.released_to_hlm

-- `apply_group_off` once some member is eligible; `affected` are the eligible members in order.
unfoldable pub commit_group_off :
    String → Names → List String → Option ℤ → String → Action Engine GroupOffResult
commit_group_off group members affected precedence boundary = do
  modify (invalidate_overlaps group members)
  armed ← gets (λ e. is_armed e group members)
  action ← group_phase group members affected precedence boundary armed
  modify (changed (group_off_action_value action))
  pure (record { group_id = group; action = action; entity_ids = affected })

abbrev pub eligible_of : Names → Option Names → Names
eligible_of members none = members
eligible_of members (some eligible) = intersection members eligible

unfoldable pub apply_group_off :
    String → List String → Option Names → Option ℤ → String → Action Engine GroupOffResult
apply_group_off group entities eligible precedence boundary = do
  let members = sorted_set entities
  raise_if (not (is_nonempty members)) "group OFF requires at least one entity"
  let affected = eligible_of members eligible
  if is_nonempty affected
      then commit_group_off group members affected precedence boundary
      else pure
          (record { group_id = group; action = GroupOffAction.released_to_hlm; entity_ids = [] })
