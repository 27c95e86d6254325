-- ===== src/Engine/Stack.antt =====
-- Admission of layers to the stack of an entity.
pub mod Distinct
pub mod Sizes
pub mod Pushed
use home_lighting_manager.Common.{
  ◌+◌, String, Bool, true, false, not, ◌&&◌, ◌||◌, Option, none, some, List, [], ◌∷◌, ◌==◌,
  string_eq, pair_eq, option_eq, nat_eq, if◌then◌else◌, length, is_some, leb, any, find,
}
use home_lighting_manager.Common.Dict.{lookup, insert}
use home_lighting_manager.Common.Int.{ℤ, pos, ltb_ℤ, int_eq}
use home_lighting_manager.Common.Action.{
  Action, Result, ok, err, pure, gets, modify, raise_if, raise_some, from_result, ◌>>=◌, ◌>>◌,
}
use home_lighting_manager.Common.Text.{show}
use Prim.Native.String.{◌++◌ as ◌+++◌}
use home_lighting_manager.Model.{
  OwnershipLayer, LayerKind, FamilySession, WorkToken, is_homeowner_kind, kind_value, layer_eq,
  truthy, same_bool,
}
use home_lighting_manager.Engine.State.{
  Engine, changed, is_stale, layers, accepts_entity, layer_eligible, max_entities, max_layers,
}
use home_lighting_manager.Engine.Families.{remove_homeowner_exceptions}

-- `_identity`: all homeowner layers are one, any other is told by five fields.
unfoldable pub identity :
    OwnershipLayer → Option (((String × String) × (Option String × Option String)) × Option String)
identity layer =
    if is_homeowner_kind layer.kind
    then none
    else some (
      ((layer.owner, kind_value layer.kind), (layer.family, layer.session_id)),
      layer.parent_layer_id,
    )

abbrev pub same_identity : OwnershipLayer → OwnershipLayer → Bool
same_identity a b = identity a == identity b

abbrev pub same_id : OwnershipLayer → OwnershipLayer → Bool
same_id layer item = item.layer_id == layer.layer_id

-- An item that an admission of `layer` updates.
unfoldable pub updates : OwnershipLayer → OwnershipLayer → Bool
updates layer item = same_id layer item || same_identity item layer

unfoldable pub collides : OwnershipLayer → OwnershipLayer → Bool
collides layer item = same_id layer item && not (same_identity item layer)

-- the key of the session that a layer names by two texts that are not empty
unfoldable pub session_key : Option String → Option String → Option (String × String)
session_key (some family) (some session_id) =
    if not (family == "") && not (session_id == "") then some (family, session_id) else none
session_key (some family) none = none
session_key none session_id = none

unfoldable pub check_sequence : OwnershipLayer → Option FamilySession → Result OwnershipLayer
check_sequence layer none = err "layer requires an existing parent session"
check_sequence layer (some session) =
    if is_some layer.session_sequence && not (layer.session_sequence == some session.sequence)
    then err "stale layer session sequence"
    else ok (record layer { session_sequence = some session.sequence })

-- The layer with its session's sequence, or the refusal.
unfoldable pub attach_session :
    Engine → OwnershipLayer → Option (String × String) → Result OwnershipLayer
attach_session e layer none = ok layer
attach_session e layer (some key) = check_sequence layer (lookup key e.families)

-- `self._layers.setdefault(entity_id, [])`
unfoldable pub set_default : String → Engine → Engine
set_default entity e =
    if is_some (lookup entity e.stacks) then e else record e { stacks = insert entity [] e.stacks }

abbrev pub write_stack : String → List OwnershipLayer → Engine → Engine
write_stack entity items e = record e { stacks = insert entity items e.stacks }

-- `items[i] = new` at the first item that passes the test
unfoldable pub replace_first :
    (OwnershipLayer → Bool) → OwnershipLayer → List OwnershipLayer → List OwnershipLayer
replace_first test new [] = []
replace_first test new (x ∷ xs) = if test x then new ∷ xs else x ∷ replace_first test new xs

-- `items.insert(i, new)` before the first item that passes the test, or at the end
unfoldable pub insert_before :
    (OwnershipLayer → Bool) → OwnershipLayer → List OwnershipLayer → List OwnershipLayer
insert_before test new [] = new ∷ []
insert_before test new (x ∷ xs) = if test x then new ∷ x ∷ xs else x ∷ insert_before test new xs

-- `items.remove(layer)`
unfoldable pub remove_first : OwnershipLayer → List OwnershipLayer → List OwnershipLayer
remove_first layer [] = []
remove_first layer (x ∷ xs) = if layer_eq x layer then xs else x ∷ remove_first layer xs

-- An update keeps the identity and the place of the old layer.
unfoldable pub update_layer : String → OwnershipLayer → OwnershipLayer → Engine → Engine
update_layer entity layer old e =
    let stored : OwnershipLayer = record layer { layer_id = old.layer_id; order = old.order } in
    if layer_eq stored old
    then e
    else changed "layer_updated"
        (write_stack entity (replace_first (updates layer) stored (layers e entity)) e)

-- A new layer is placed by its precedence.
unfoldable pub place_layer : String → OwnershipLayer → Engine → Engine
place_layer entity layer e =
    let stored : OwnershipLayer = record layer { order = pos (e.order + 1) } in
    let e₁ : Engine = record e { order = e.order + 1 } in
    changed "layer_pushed" (
      write_stack entity
        (insert_before (λ item. ltb_ℤ stored.precedence item.precedence) stored (layers e entity))
        e₁)

unfoldable pub store_layer :
    String → OwnershipLayer → Option OwnershipLayer → Action Engine OwnershipLayer
store_layer entity layer (some old) = do
  modify (update_layer entity layer old)
  pure (record layer { layer_id = old.layer_id; order = old.order })
store_layer entity layer none = do
  e ← gets (λ e. e)
  raise_if (leb max_layers (length (layers e entity))) "layer capacity exceeded"
  modify (place_layer entity layer)
  pure (record layer { order = pos (e.order + 1) })

-- The checks of `push` that come before the session.
unfoldable pub push_refusal : Engine → String → OwnershipLayer → Option WorkToken → Option String
push_refusal e entity layer expected =
    if is_stale e expected
    then some "stale work token"
    else if not (layer.generation == e.generation)
    then some "cannot push a stale-generation ownership layer"
    else if not (accepts_entity e entity)
    then some "entity is not managed in this configuration"
    else if not (is_some (lookup entity e.stacks)) && leb max_entities (length e.stacks)
    then some "entity capacity exceeded"
    else none

unfoldable pub push : String → OwnershipLayer → Option WorkToken → Action Engine OwnershipLayer
push entity layer₀ expected = do
  e ← gets (λ e. e)
  raise_some (push_refusal e entity layer₀ expected)
  layer ← from_result (attach_session e layer₀ (session_key layer₀.family layer₀.session_id))
  modify (set_default entity)
  raise_if (any (collides layer) (layers e entity)) "layer ID collision across logical owners"
  store_layer entity layer (find (updates layer) (layers e entity))

-- `items.remove(stored)` and `items.insert(index, stored)`
unfoldable pub move_before :
    String → (OwnershipLayer → Bool) → OwnershipLayer → Action Engine (Unit {0})
move_before entity test stored = do
  e ← gets (λ e. e)
  raise_if (not (any (λ item. layer_eq item stored) (layers e entity)))
      "list.remove(x): x not in list"
  modify (write_stack entity (insert_before test stored (remove_first stored (layers e entity))))

-- The engine that `layer_eligible` reads while the stored layer is out of the stack.
unfoldable pub without : String → OwnershipLayer → Engine → Engine
without entity stored e = write_stack entity (remove_first stored (layers e entity)) e

unfoldable pub admit_manual : String → OwnershipLayer → Action Engine OwnershipLayer
admit_manual entity layer = do
  modify (remove_homeowner_exceptions entity)
  stored ← push entity layer none
  e ← gets (λ e. e)
  move_before entity
      (λ item. item.protects_from_manual && layer_eligible (without entity stored e) entity item)
      stored
  pure stored

unfoldable pub is_system_kind : LayerKind → Bool
is_system_kind LayerKind.automatic = true
is_system_kind LayerKind.functional = true
is_system_kind LayerKind.overlay = true
is_system_kind _ = false

abbrev pub or_value : {A : Type 0} → Option A → A → A
or_value none d = d
or_value (some a) d = a

-- `blocks`: the items that a new system layer stays below
unfoldable pub blocks : Bool → ℤ → OwnershipLayer → Bool
blocks supersede priority item =
    if is_homeowner_kind item.kind
    then not supersede
    else ltb_ℤ priority (or_value item.system_priority item.precedence)

unfoldable pub activate_admitted :
    String
    → OwnershipLayer
    → Bool
    → ℤ
    → Option WorkToken
    → Option OwnershipLayer
    → Action Engine OwnershipLayer
activate_admitted entity admitted supersede priority expected (some old) = do
  raise_if
      (not (
        old.system_priority == some priority
        && same_bool old.protects_from_manual admitted.protects_from_manual))
      "change admission policy through a new configuration generation"
  push entity admitted expected
activate_admitted entity admitted supersede priority expected none = do
  stored ← push entity admitted expected
  move_before entity (blocks supersede priority) stored
  pure stored

unfoldable pub activate_automatic :
    String
    → OwnershipLayer
    → Bool
    → Option ℤ
    → Bool
    → Option WorkToken
    → Action Engine OwnershipLayer
activate_automatic entity layer supersede priority? protects expected = do
  raise_if (not (is_system_kind layer.kind)) "automatic activation requires a system layer"
  e ← gets (λ e. e)
  raise_if (is_stale e expected) "stale work token"
  raise_if (is_some priority? && (truthy layer.family && not (is_some layer.session_sequence)))
      "explicit system admission requires a session sequence"
  let priority = or_value priority? layer.precedence
  let admitted : OwnershipLayer = record layer {
    system_priority = some priority;
    protects_from_manual = protects;
  }
  activate_admitted entity admitted supersede priority expected
      (find (λ item. same_identity item layer) (layers e entity))

-- `_new_layer_id`
unfoldable pub new_layer_id : Engine → String → String → String
new_layer_id e prefix entity = ◌+++◌ prefix (
    ◌+++◌ ":"
      (◌+++◌ (show e.generation) (◌+++◌ ":" (◌+++◌ (show (e.order + 1)) (◌+++◌ ":" entity)))))
