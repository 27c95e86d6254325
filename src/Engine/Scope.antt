-- ===== src/Engine/Scope.antt =====
-- Resets, boundaries, and the change of the managed scope or of the generation.
use home_lighting_manager.Common.{
  ℕ, ◌+◌, ◌-◌, String, Bool, false, not, ◌&&◌, Option, none, some, List, [], ◌∷◌, ◌==◌, string_eq,
  pair_eq, option_eq, if◌then◌else◌, length, filter, contains, ltb, any,
}
use home_lighting_manager.Common.Dict.{Dict, erase, keys}
use home_lighting_manager.Common.Action.{Action, pure, gets, modify, raise_if, ◌>>=◌, ◌>>◌}
use home_lighting_manager.Common.Text.{Names, sorted_set, same_set, difference}
use Prim.Native.String.{◌++◌ as ◌+++◌}
use home_lighting_manager.Model.{OwnershipLayer, FamilySession, is_homeowner_kind}
use home_lighting_manager.Engine.State.{Engine, changed, layers, is_light_id, max_entities}
use home_lighting_manager.Engine.Groups.{clear_group_off}
use home_lighting_manager.Engine.Families.{keep_stack}

-- Keep the layers that pass the test in each stack of a snapshot; the number that is dropped.
unfoldable pub sweep : List String → (OwnershipLayer → Bool) → Engine → ℕ × Engine
sweep [] kept e = (0, e)
sweep (entity ∷ rest) kept e =
    let current = layers e entity in
    let remaining = filter kept current in
    let (n, e') = sweep rest kept (keep_stack entity remaining e) in
    (length current - length remaining + n, e')

unfoldable pub homeowner_reason : Option String → Bool
homeowner_reason none = false
homeowner_reason (some reason) =
    contains reason ("homeowner_off" ∷ "homeowner_group_off" ∷ "homeowner_override" ∷ [])

unfoldable pub clear_suppression : FamilySession → FamilySession
clear_suppression s =
    if s.suppressed && homeowner_reason s.suppression_reason
    then record s { suppressed = false; suppression_reason = none }
    else s

unfoldable pub clear_suppressions :
    Dict (String × String) FamilySession → ℕ × Dict (String × String) FamilySession
clear_suppressions [] = (0, [])
clear_suppressions ((key, s) ∷ families) =
    let (n, rest) = clear_suppressions families in
    (
      if s.suppressed && homeowner_reason s.suppression_reason then n + 1 else n,
      (key, clear_suppression s) ∷ rest,
    )

pub record ResetCounts : Type 0 where
  pub removed_homeowner_layers : ℕ
  pub cleared_homeowner_suppressions : ℕ
  pub cleared_group_off_sequences : ℕ

unfoldable pub reset_homeowner_control : Engine → ResetCounts × Engine
reset_homeowner_control e =
    let (removed, e₁) = sweep (keys e.stacks) (λ layer. not (is_homeowner_kind layer.kind)) e in
    let (cleared, families) = clear_suppressions e₁.families in
    let e₂ : Engine = record e₁ { families = families } in
    (
      record {
        removed_homeowner_layers = removed;
        cleared_homeowner_suppressions = cleared;
        cleared_group_off_sequences = length e₂.group_off_armed;
      },
      changed "ownership_reset" (clear_group_off "reset_homeowner_control" e₂),
    )

unfoldable pub expire_boundary : String → Engine → Engine
expire_boundary boundary e =
    let (_, e') =
      sweep (keys e.stacks) (λ layer. not (layer.expires_at_boundary == some boundary)) e in
    changed (◌+++◌ "boundary:" boundary) (clear_group_off (◌+++◌ "expire_boundary:" boundary) e')

unfoldable pub next_generation : Engine → Engine
next_generation e = clear_group_off "next_generation" (
    changed "configuration_generation_changed" (record e {
      generation = e.generation + 1;
      stacks = [];
      families = [];
      ended_sessions = [];
      session_sequences = [];
      session_ids = [];
      legacy_sessions_exhausted = false;
    }))

unfoldable pub reconfigure : Names → Engine → Engine
reconfigure entities e = next_generation (record e { managed_entities = some entities })

unfoldable pub pop_stacks : List String → Engine → Engine
pop_stacks [] e = e
pop_stacks (entity ∷ rest) e = pop_stacks rest (record e { stacks = erase entity e.stacks })

unfoldable pub current_scope : Engine → Names
current_scope e = elim e.managed_entities [ none ↦ keys e.stacks | some managed ↦ managed ]

pub record ScopeChange : Type 0 where
  pub added : List String
  pub removed : List String

unfoldable pub change_scope : Names → Engine → Engine
change_scope desired e =
    let removed = sorted_set (difference (current_scope e) desired) in
    let e₁ = pop_stacks removed e in
    changed "managed_entities_changed"
      (clear_group_off "managed_entities_changed" (record e₁ { managed_entities = some desired }))

unfoldable pub rescope : Names → Names → Action Engine ScopeChange
rescope desired current = do
  modify (change_scope desired)
  pure (record {
    added = sorted_set (difference desired current);
    removed = sorted_set (difference current desired);
  })

unfoldable pub update_managed_entities : Names → Action Engine ScopeChange
update_managed_entities entities = do
  let desired = sorted_set entities
  raise_if (ltb max_entities (length desired)) "managed entity capacity exceeded"
  raise_if (any (λ entity. not (is_light_id entity)) desired)
      "managed entities must be valid light entity IDs"
  current ← gets current_scope
  if same_set desired current
      then pure (record { added = []; removed = [] })
      else rescope desired current
