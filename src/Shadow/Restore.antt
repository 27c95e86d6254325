-- ===== src/Shadow/Restore.antt =====
-- `ShadowRuntime.restore`: trusted evidence into the current generation, without any command.
use home_lighting_manager.Common.{
  ℕ, ◌+◌, String, false, not, ◌||◌, Option, none, some, if◌then◌else◌, string_eq, pair_eq, nat_eq,
  ◌==◌,
}
use home_lighting_manager.Common.Dict.{Dict, lookup}
use home_lighting_manager.Common.Action.{Action, pure, gets, modify, for_each, ◌>>=◌, ◌>>◌}
use home_lighting_manager.Model.{
  OwnershipLayer, FamilySession, Value, str, get_or, null, is_manual_off,
}
use home_lighting_manager.Engine.State.{accepts_entity}
use home_lighting_manager.Engine.Groups.{reset_group_off_sequence}
use home_lighting_manager.Engine.Families.{start_family, suppress_family}
use home_lighting_manager.Engine.Stack.{push}
use home_lighting_manager.Engine.Off.{or_text}
use home_lighting_manager.Recovery.{
  ManualRecoveryEvidence, FamilyRecoveryEvidence, recover_layer, recover_family_session,
}
use home_lighting_manager.Persistence.Payload.{PersistedOwnershipState}
use home_lighting_manager.Shadow.Runtime.{ShadowRuntime, RecoverySummary, engine_of, with_engine}

abbrev pub summarize : (RecoverySummary → RecoverySummary) → ShadowRuntime → ShadowRuntime
summarize f r = record r { recovery_summary = f r.recovery_summary }

unfoldable pub reject_manual : RecoverySummary → RecoverySummary
reject_manual s = record s { rejected_manual = s.rejected_manual + 1 }

unfoldable pub reject_session : RecoverySummary → RecoverySummary
reject_session s = record s { rejected_sessions = s.rejected_sessions + 1 }

unfoldable pub count_restored : OwnershipLayer → RecoverySummary → RecoverySummary
count_restored layer s =
    if is_manual_off layer.kind
    then record s { restored_manual_off = s.restored_manual_off + 1 }
    else record s { restored_manual = s.restored_manual + 1 }

-- The layer of a recovery is there exactly when its action is RESTORE.
unfoldable pub restore_recovered : String → Option OwnershipLayer → Action ShadowRuntime (Unit {0})
restore_recovered entity none = modify (summarize reject_manual)
restore_recovered entity (some layer) = do
  with_engine (push entity layer none)
  modify (summarize (count_restored layer))

unfoldable pub restore_entity :
    Dict String ManualRecoveryEvidence → OwnershipLayer → String → Action ShadowRuntime (Unit {0})
restore_entity evidence layer entity = do
  e ← gets engine_of
  if accepts_entity e entity
      then restore_recovered entity
          (recover_layer layer e.generation (lookup entity evidence)).layer
      else modify (summarize reject_manual)

-- the entity of a persisted layer; a value that is no text is no managed entity
unfoldable pub restore_value :
    Dict String ManualRecoveryEvidence → OwnershipLayer → Value → Action ShadowRuntime (Unit {0})
restore_value evidence layer (str entity) = restore_entity evidence layer entity
restore_value evidence layer _ = modify (summarize reject_manual)

unfoldable pub restore_layer :
    Dict String ManualRecoveryEvidence → OwnershipLayer → Action ShadowRuntime (Unit {0})
restore_layer evidence layer =
    restore_value evidence layer (get_or "persisted_entity_id" null layer.metadata)

unfoldable pub restore_session : Option FamilySession → Action ShadowRuntime (Unit {0})
restore_session none = modify (summarize reject_session)
restore_session (some s) = do
  started ← with_engine (start_family s.family s.session_id none none)
  with_engine (
      suppress_family started.family started.session_id
        (or_text s.suppression_reason "recovered_suppression") none)
  modify (
      summarize
        (λ t. record t { restored_suppressed_sessions = t.restored_suppressed_sessions + 1 }))

abbrev recovered_session : FamilySession → ℕ → Option FamilyRecoveryEvidence → Option FamilySession
recovered_session s generation none = none
recovered_session s generation (some evidence) =
    (recover_family_session s generation evidence).session

unfoldable pub restore_family :
    Dict (String × String) FamilyRecoveryEvidence → FamilySession → Action ShadowRuntime (Unit {0})
restore_family evidence s = do
  e ← gets engine_of
  restore_session (recovered_session s e.generation (lookup (s.family, s.session_id) evidence))

unfoldable pub begin_recovery : PersistedOwnershipState → ShadowRuntime → ShadowRuntime
begin_recovery persisted r = record r {
  recovery_open = false;
  recovery_summary = record (r.recovery_summary) {
    status = "evaluated";
    group_off_history = "cleared_on_recovery";
    rejected_manual = persisted.rejected_layers;
    rejected_sessions = persisted.rejected_sessions;
    payload_rejected = persisted.payload_rejected;
  };
  operations = record (r.operations) { engine = reset_group_off_sequence none r.operations.engine };
}

unfoldable pub restore_all :
    PersistedOwnershipState
    → Dict String ManualRecoveryEvidence
    → Dict (String × String) FamilyRecoveryEvidence
    → Action ShadowRuntime (Unit {0})
restore_all persisted manual_evidence family_evidence = do
  modify (begin_recovery persisted)
  for_each persisted.layers (restore_layer manual_evidence)
  for_each persisted.suppressed_sessions (restore_family family_evidence)

-- Recovery runs once, on an engine that nothing has changed yet.
unfoldable pub restore :
    PersistedOwnershipState
    → Dict String ManualRecoveryEvidence
    → Dict (String × String) FamilyRecoveryEvidence
    → Action ShadowRuntime (Unit {0})
restore persisted manual_evidence family_evidence = do
  r ← gets (λ r. r)
  if not r.recovery_open || not ((engine_of r).revision == 0)
      then pure tt
      else restore_all persisted manual_evidence family_evidence
