-- ===== src/Shadow/Runtime.antt =====
-- `ShadowRuntime`: observation, export and diagnostics. The engine of the runtime is the object
-- that its operations hold, so it is kept once, in `operations`.
use Prim.Native.String.{◌++◌ as ◌+++◌}
use text.Mathlib.Text.{starts_with}
use home_lighting_manager.Common.{
  ℕ, ◌+◌, String, Bool, true, false, not, ◌&&◌, ◌||◌, Option, none, some, List, [], ◌∷◌, map,
  if◌then◌else◌, length, filter, contains, string_eq, max,
}
use home_lighting_manager.Common.Int.{ℤ}
use home_lighting_manager.Common.Action.{Action, pure, ◌>>◌}
use home_lighting_manager.Common.Text.{Names, sorted_set, show}
use home_lighting_manager.Model.{Appearance, OwnershipLayer, Value, is_homeowner_kind}
use home_lighting_manager.Intent.{IntentEvidence, IntentDecision, IntentDisposition}
use home_lighting_manager.Engine.State.{
  Engine, new_engine, resolve, layers, entity_ids, family_sessions,
}
use home_lighting_manager.Engine.Groups.{append_bounded}
use home_lighting_manager.Engine.Families.{suppress_family}
use home_lighting_manager.Engine.Off.{or_text}
use home_lighting_manager.Engine.Scope.{
  ResetCounts, ScopeChange, reset_homeowner_control, update_managed_entities,
}
use home_lighting_manager.Operations.Record.{
  HomeownerOperation, OperationResult, Operations, new_operations,
}
use home_lighting_manager.Operations.Transaction.{apply}
use home_lighting_manager.Persistence.Encode.{serialize_state}

pub record ShadowObservation : Type 0 where
  pub entity_id : String
  pub evidence : IntentEvidence
  pub appearance : Option Appearance
  pub operation : String
  pub manual_precedence : Option ℤ
  pub sequence : Option ℕ
  pub generation : Option ℕ
  pub operation_id : Option String

pub record ShadowDecision : Type 0 where
  pub entity_id : String
  pub intent : IntentDecision
  pub mutated : Bool
  pub reason : String

pub record ShadowDiagnostics : Type 0 where
  pub generation : ℕ
  pub observed_events : ℕ
  pub homeowner_events : ℕ
  pub ignored_or_hlm_events : ℕ
  pub managed_entities : ℕ
  pub suppressed_sessions : ℕ

-- the dict `_recovery_summary`
pub record RecoverySummary : Type 0 where
  pub status : String
  pub group_off_history : String
  pub restored_manual : ℕ
  pub restored_manual_off : ℕ
  pub rejected_manual : ℕ
  pub restored_suppressed_sessions : ℕ
  pub rejected_sessions : ℕ
  pub payload_rejected : Bool

pub record ShadowRuntime : Type 0 where
  pub operations : Operations
  pub observed_events : ℕ
  pub homeowner_events : ℕ
  pub ignored_or_hlm_events : ℕ
  pub sequence : ℕ
  pub recovery_open : Bool
  pub qualified_ids : List String
  pub recovery_summary : RecoverySummary

-- `ShadowRuntime.__init__`
unfoldable pub new_runtime : String → ℕ → Option Names → ShadowRuntime
new_runtime authority generation managed = record {
  operations = new_operations (new_engine authority generation managed);
  observed_events = 0;
  homeowner_events = 0;
  ignored_or_hlm_events = 0;
  sequence = 0;
  recovery_open = true;
  qualified_ids = [];
  recovery_summary = record {
    status = "not_attempted";
    group_off_history = "empty_new_runtime";
    restored_manual = 0;
    restored_manual_off = 0;
    rejected_manual = 0;
    restored_suppressed_sessions = 0;
    rejected_sessions = 0;
    payload_rejected = false;
  };
}

abbrev pub engine_of : ShadowRuntime → Engine
engine_of r = r.operations.engine

-- `reserve_sequence`
unfoldable pub reserve_sequence : ShadowRuntime → ℕ × ShadowRuntime
reserve_sequence r = (r.sequence + 1, record r { sequence = r.sequence + 1 })

unfoldable pub is_homeowner_intent : IntentDisposition → Bool
is_homeowner_intent IntentDisposition.homeowner_intent = true
is_homeowner_intent _ = false

-- An operation is counted once, unless it was refused as stale or as a duplicate.
unfoldable pub counts_as_homeowner : ShadowRuntime → OperationResult → Bool
counts_as_homeowner r result =
    not (contains result.operation_id r.qualified_ids)
    && not (starts_with result.reason "stale" || starts_with result.reason "duplicate")

unfoldable pub count_result : OperationResult → ShadowRuntime → ShadowRuntime
count_result result r =
    if is_homeowner_intent result.intent.disposition
    then (if counts_as_homeowner r result
        then record r {
          homeowner_events = r.homeowner_events + 1;
          qualified_ids = append_bounded 128 result.operation_id r.qualified_ids;
        }
        else r)
    else record r { ignored_or_hlm_events = r.ignored_or_hlm_events + 1 }

unfoldable pub close_recovery : Bool → ShadowRuntime → ShadowRuntime
close_recovery mutated r = if mutated then record r { recovery_open = false } else r

-- `observe_operation`
unfoldable pub observe_operation :
    HomeownerOperation → ShadowRuntime → OperationResult × ShadowRuntime
observe_operation op r =
    let (result, operations) = apply op r.operations in
    let r' : ShadowRuntime = record r {
      operations = operations;
      sequence = max r.sequence op.sequence;
      observed_events = r.observed_events + 1;
    } in
    (result, close_recovery result.mutated (count_result result r'))

-- the sequence of an observation: its own, or the next one
unfoldable pub ingress : Option ℕ → ShadowRuntime → ℕ × ShadowRuntime
ingress (some sequence) r = (sequence, r)
ingress none r = reserve_sequence r

abbrev pub or_generation : Option ℕ → ℕ → ℕ
or_generation none g = g
or_generation (some g) _ = g

-- The single-member operation that `observe` makes of an observation.
unfoldable pub operation_of : ShadowObservation → ℕ → ℕ → HomeownerOperation
operation_of o sequence generation = record {
  operation_id =
      or_text o.operation_id
        (◌+++◌ "observation:" (◌+++◌ (show generation) (◌+++◌ ":" (show sequence))));
  sequence = sequence;
  generation = generation;
  kind = o.operation;
  evidence = o.evidence;
  members =
      record {
        entity_id = o.entity_id;
        available = true;
        succeeded = true;
        appearance = o.appearance;
        manual_precedence = o.manual_precedence;
      }
      ∷ [];
  group_id = none;
  expected = none;
  require_legacy_policy = true;
}

unfoldable pub observe : ShadowObservation → ShadowRuntime → ShadowDecision × ShadowRuntime
observe o r =
    let (sequence, r₁) = ingress o.sequence r in
    let generation = or_generation o.generation (engine_of r₁).generation in
    let (result, r₂) = observe_operation (operation_of o sequence generation) r₁ in
    (
      record {
        entity_id = o.entity_id;
        intent = result.intent;
        mutated = result.mutated;
        reason = result.reason;
      },
      r₂,
    )

-- `managed_entities`
unfoldable pub managed_entities : ShadowRuntime → List String
managed_entities r = entity_ids (engine_of r)

-- `export_persistence`
unfoldable pub export_persistence : ShadowRuntime → Value
export_persistence r =
    serialize_state (map (λ entity. (entity, layers (engine_of r) entity)) (managed_entities r))
      (family_sessions (engine_of r))

-- An engine action of the runtime.
abbrev pub with_engine : {A : Type 0} → Action Engine A → Action ShadowRuntime A
with_engine m r =
    let (result, e) = m (engine_of r) in
    (result, record r { operations = record (r.operations) { engine = e } })

unfoldable pub register_suppression : String → String → String → Action ShadowRuntime (Unit {0})
register_suppression family session_id reason = do
  with_engine (suppress_family family session_id reason none)
  pure tt

-- `reset_homeowner_control` of the runtime: the memory of operations starts anew.
unfoldable pub reset_control : ShadowRuntime → ResetCounts × ShadowRuntime
reset_control r =
    let (counts, e) = reset_homeowner_control (engine_of r) in
    (counts, record r { operations = new_operations e; qualified_ids = []; recovery_open = false })

unfoldable pub update_scope : Names → Action ShadowRuntime ScopeChange
update_scope entities = with_engine (update_managed_entities entities)

unfoldable pub is_protected : Option OwnershipLayer → Bool
is_protected none = false
is_protected (some layer) = is_homeowner_kind layer.kind

abbrev scope_or : Option (List String) → List String → List String
scope_or none d = d
scope_or (some l) _ = l

-- `reconciliation_protected_entities`
unfoldable pub reconciliation_protected_entities :
    Option (List String) → ShadowRuntime → List String
reconciliation_protected_entities scope r =
    filter (λ entity. is_protected (resolve (engine_of r) entity))
      (sorted_set (scope_or scope (entity_ids (engine_of r))))

unfoldable pub diagnostics : ShadowRuntime → ShadowDiagnostics
diagnostics r = record {
  generation = (engine_of r).generation;
  observed_events = r.observed_events;
  homeowner_events = r.homeowner_events;
  ignored_or_hlm_events = r.ignored_or_hlm_events;
  managed_entities = length (managed_entities r);
  suppressed_sessions = length (filter (λ s. s.suppressed) (family_sessions (engine_of r)));
}
