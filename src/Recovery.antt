-- ===== src/Recovery.antt =====
-- custom_components/home_lighting_manager/recovery.py: what persisted evidence may survive a restart.
pub mod Trust
use home_lighting_manager.Common.{
  ℕ, String, Bool, true, false, not, ◌||◌, Option, none, some, if◌then◌else◌,
}
use home_lighting_manager.Common.Int.{pos}
use home_lighting_manager.Model.{
  OwnershipLayer, FamilySession, Appearance, LayerKind, is_homeowner_kind, is_manual, is_valid,
  is_bool,
}
use home_lighting_manager.Engine.State.{nightly_boundary}

pub data RecoveryAction : Type 0 where
  restore drop_recompute : RecoveryAction

pub record ManualRecoveryEvidence : Type 0 where
  pub temporally_valid : Bool
  pub desired_state_trustworthy : Bool
  pub ownership_evidence_coherent : Bool

pub record LayerRecoveryResult : Type 0 where
  pub action : RecoveryAction
  pub layer : Option OwnershipLayer
  pub replay_commands : Bool
  pub reason : String

pub record FamilyRecoveryEvidence : Type 0 where
  pub same_session_active : Bool
  pub session_evidence_coherent : Bool

pub record FamilyRecoveryResult : Type 0 where
  pub action : RecoveryAction
  pub session : Option FamilySession
  pub replay_commands : Bool
  pub reason : String

abbrev dropped_layer : String → LayerRecoveryResult
dropped_layer reason = record {
  action = RecoveryAction.drop_recompute;
  layer = none;
  replay_commands = false;
  reason = reason;
}

-- `appearance is None or not appearance.is_valid() or appearance.on is not (kind is MANUAL)`
unfoldable pub appearance_mismatch : LayerKind → Option Appearance → Bool
appearance_mismatch kind none = true
appearance_mismatch kind (some a) = not (is_valid a) || not (is_bool (is_manual kind) a.on)

unfoldable pub restored_layer : OwnershipLayer → ℕ → OwnershipLayer
restored_layer layer generation = record layer {
  generation = generation;
  order = pos 0;
  expires_at_boundary = some nightly_boundary;
}

-- The checks of the evidence, in their order.
unfoldable pub weigh_layer :
    OwnershipLayer → ℕ → Option ManualRecoveryEvidence → LayerRecoveryResult
weigh_layer layer generation none = dropped_layer "missing Manual recovery evidence defaults to HLM"
weigh_layer layer generation (some evidence) =
    if not evidence.temporally_valid
    then dropped_layer "Manual lifecycle expired while offline"
    else if not evidence.desired_state_trustworthy
    then dropped_layer "persisted desired state is not trustworthy"
    else if not evidence.ownership_evidence_coherent
    then dropped_layer "ownership evidence is ambiguous"
    else record {
      action = RecoveryAction.restore;
      layer = some (restored_layer layer generation);
      replay_commands = false;
      reason = "Manual ownership remains coherent and valid";
    }

unfoldable pub recover_layer :
    OwnershipLayer → ℕ → Option ManualRecoveryEvidence → LayerRecoveryResult
recover_layer layer generation evidence =
    if not (is_homeowner_kind layer.kind)
    then dropped_layer "non-manual ownership is recomputed from current truth"
    else if appearance_mismatch layer.kind layer.appearance
    then dropped_layer "missing or invalid desired Manual state defaults to HLM"
    else weigh_layer layer generation evidence

abbrev dropped_session : String → FamilyRecoveryResult
dropped_session reason = record {
  action = RecoveryAction.drop_recompute;
  session = none;
  replay_commands = false;
  reason = reason;
}

unfoldable pub recover_family_session :
    FamilySession → ℕ → FamilyRecoveryEvidence → FamilyRecoveryResult
recover_family_session session generation evidence =
    if not session.suppressed
    then dropped_session "unsuppressed family activity is recomputed from current truth"
    else if not evidence.same_session_active || not evidence.session_evidence_coherent
    then dropped_session "family suppression cannot be trusted across restart"
    else record {
      action = RecoveryAction.restore;
      session = some (record session { generation = generation });
      replay_commands = false;
      reason = "same coherent family session remains active";
    }
