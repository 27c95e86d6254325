-- ===== src/Engine/State.antt =====
-- The state of `OwnershipEngine`, its revision counter and what is read from it.
use Prim.Native.String.{count}
use text.Mathlib.Text.{starts_with}
use home_lighting_manager.Common.{
  ℕ, ◌+◌, String, Bool, true, false, not, ◌&&◌, Option, none, some, List, [], map, ◌==◌, string_eq,
  nat_eq, pair_eq, option_eq, leb, if◌then◌else◌, contains, take_last, filter, last?, find,
}
use home_lighting_manager.Common.Dict.{Dict, lookup, keys}
use home_lighting_manager.Common.Text.{Names, sorted_set}
use home_lighting_manager.Model.{
  OwnershipLayer, FamilySession, ResolvedEntity, WorkToken, truthy, is_overlay, token_eq,
}

abbrev pub nightly_boundary : String
nightly_boundary = "nightly_0159"

abbrev pub max_entities : ℕ
max_entities = 256

abbrev pub max_layers : ℕ
max_layers = 32

abbrev pub max_families : ℕ
max_families = 64

abbrev pub max_groups : ℕ
max_groups = 64

-- One entry of the diagnostic ledger of group-OFF removals.
pub record GroupOffChange : Type 0 where
  pub serial : ℕ
  pub generation : ℕ
  pub revision : ℕ
  pub group_id : String
  pub members : List String
  pub member_count : ℕ
  pub reason : String
  pub trigger_group_id : Option String

-- `stacks` is `_layers`: the admitted layers of each entity, from bottom to top.
pub record Engine : Type 0 where
  pub authority_id : String
  pub generation : ℕ
  pub managed_entities : Option Names
  pub stacks : Dict String (List OwnershipLayer)
  pub families : Dict (String × String) FamilySession
  pub group_off_armed : Dict String Names
  pub group_off_changes : List GroupOffChange
  pub group_off_change_serial : ℕ
  pub order : ℕ
  pub revision : ℕ
  pub last_mutation_reason : String
  pub ended_sessions : List (String × String)
  pub session_sequences : Dict String ℕ
  pub session_ids : Dict String String
  pub legacy_sessions_exhausted : Bool

-- `OwnershipEngine.__init__`, with the random authority as an argument
unfoldable pub new_engine : String → ℕ → Option Names → Engine
new_engine authority generation managed = record {
  authority_id = authority;
  generation = generation;
  managed_entities = managed;
  stacks = [];
  families = [];
  group_off_armed = [];
  group_off_changes = [];
  group_off_change_serial = 0;
  order = 0;
  revision = 0;
  last_mutation_reason = "initialized";
  ended_sessions = [];
  session_sequences = [];
  session_ids = [];
  legacy_sessions_exhausted = false;
}

-- `_changed`
unfoldable pub changed : String → Engine → Engine
changed reason e = record e { revision = e.revision + 1; last_mutation_reason = reason }

unfoldable pub invalidate_work : String → Engine → Engine
invalidate_work reason e = changed reason e

unfoldable pub work_token : Engine → WorkToken
work_token e = record {
  generation = e.generation;
  revision = e.revision;
  authority_id = e.authority_id;
}

unfoldable pub is_current_work : Engine → WorkToken → Bool
is_current_work e token = token_eq token (work_token e)

-- `expected is not None and not self.is_current_work(expected)`
unfoldable pub is_stale : Engine → Option WorkToken → Bool
is_stale e none = false
is_stale e (some token) = not (is_current_work e token)

unfoldable pub is_current_generation : Engine → ℕ → Bool
is_current_generation e generation = generation == e.generation

abbrev pub or_empty : {A : Type 0} → Option (List A) → List A
or_empty none = []
or_empty (some l) = l

-- `layers`: the stack of an entity, empty if it has none
unfoldable pub layers : Engine → String → List OwnershipLayer
layers e entity = or_empty (lookup entity e.stacks)

abbrev pub in_scope : Option Names → String → Bool
in_scope none entity = true
in_scope (some managed) entity = contains entity managed

unfoldable pub is_light_id : String → Bool
is_light_id entity = starts_with entity "light." && leb (count entity) 256

unfoldable pub accepts_entity : Engine → String → Bool
accepts_entity e entity = is_light_id entity && in_scope e.managed_entities entity

-- `family_eligible` at the generation that the caller gives
unfoldable pub session_live : ℕ → Option FamilySession → Bool
session_live generation none = false
session_live generation (some s) = s.generation == generation && not s.suppressed

unfoldable pub family_eligible : Engine → String → String → Option ℕ → Bool
family_eligible e family session_id generation = elim generation [
  | none ↦ session_live e.generation (lookup (family, session_id) e.families)
  | some g ↦
      if not (g == e.generation)
      then false
      else session_live e.generation (lookup (family, session_id) e.families)
]

unfoldable pub session_matches : Engine → OwnershipLayer → String → String → Bool
session_matches e layer family session_id = elim (lookup (family, session_id) e.families) [
  | none ↦ false
  | some s ↦
      layer.session_sequence == some s.sequence
      && family_eligible e family session_id (some layer.generation)
]

-- The end of `_layer_eligible`: the family of the layer and its session.
unfoldable pub session_eligible : Engine → OwnershipLayer → Option String → Option String → Bool
session_eligible e layer none session = true
session_eligible e layer (some family) none = false
session_eligible e layer (some family) (some session_id) = session_matches e layer family session_id

-- `_layer_eligible` on a layer that has no parent
unfoldable pub root_eligible : Engine → OwnershipLayer → Bool
root_eligible e layer =
    not (is_overlay layer.kind && truthy layer.family)
    && session_eligible e layer layer.family layer.session_id

-- The checks of a parent; the recursive call is reached only for a parent that has none itself.
unfoldable pub parent_eligible : Engine → OwnershipLayer → Option OwnershipLayer → Bool
parent_eligible e layer none = false
parent_eligible e layer (some parent) =
    parent.parent_layer_id == none
    && (parent.generation == e.generation
        && (parent.family == layer.family
            && (parent.session_id == layer.session_id && root_eligible e parent)))

-- `_layer_eligible`
unfoldable pub eligible_under : Engine → OwnershipLayer → String → Option String → Bool
eligible_under e layer entity none = root_eligible e layer
eligible_under e layer entity (some parent_id) =
    parent_eligible e layer (find (λ item. item.layer_id == parent_id) (layers e entity))
    && session_eligible e layer layer.family layer.session_id

-- `layer_eligible`
unfoldable pub layer_eligible : Engine → String → OwnershipLayer → Bool
layer_eligible e entity layer =
    layer.generation == e.generation && eligible_under e layer entity layer.parent_layer_id

-- The layer of `resolve(entity)`: the last eligible one.
unfoldable pub resolve : Engine → String → Option OwnershipLayer
resolve e entity = last? (filter (λ layer. layer_eligible e entity layer) (layers e entity))

unfoldable pub resolved_entity : Engine → String → ResolvedEntity
resolved_entity e entity = record { entity_id = entity; layer = resolve e entity }

unfoldable pub entity_ids : Engine → List String
entity_ids e = sorted_set (keys e.stacks)

abbrev pub values : {K V : Type 0} → Dict K V → List V
values = map (λ d. d.1)

unfoldable pub family_sessions : Engine → List FamilySession
family_sessions e = values e.families

unfoldable pub ended_family_sessions : Engine → List (String × String)
ended_family_sessions e = take_last 16 e.ended_sessions

unfoldable pub group_off_sequences : Engine → Dict String (List String)
group_off_sequences e = map (λ g. (g.0, sorted_set g.1)) e.group_off_armed
