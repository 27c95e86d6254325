-- ===== src/Intent.antt =====
-- custom_components/home_lighting_manager/intent_policy.py: which evidence may change ownership.
pub mod Policy
use home_lighting_manager.Common.{
  String, Bool, true, false, not, ◌&&◌, ◌||◌, List, [], ◌∷◌, Option, none, some, if◌then◌else◌,
}

pub data IntentAttributionSource : Type 0 where
  home_assistant_user home_assistant_chain unattributed_external unknown : IntentAttributionSource

pub data IntentEvidenceKind : Type 0 where
  explicit_homeowner_command correlated_external_homeowner_command : IntentEvidenceKind
  hlm_command_consequence recovery_telemetry availability_change : IntentEvidenceKind
  physical_drift unknown : IntentEvidenceKind

pub data IntentDisposition : Type 0 where
  homeowner_intent hlm_owned no_ownership_change : IntentDisposition

pub record IntentEvidence : Type 0 where
  pub kind : IntentEvidenceKind
  pub succeeded : Bool
  pub attribution_coherent : Bool
  pub attribution_source : IntentAttributionSource
  pub has_user_id : Bool
  pub has_parent_id : Bool
  pub renderer_consequence : Bool
  pub aggregate_receipt : Bool
  pub boundary_settling : Bool
  pub boundary_shutdown_pending : Bool
  pub scene_rendering : Bool
  pub dynamic_telemetry : Bool
  pub structural_activity : Bool
  pub structural_state_unknown : Bool
  pub scene_guard_active : Bool

pub record IntentDecision : Type 0 where
  pub disposition : IntentDisposition
  pub allows_homeowner_mutation : Bool
  pub reason : String

abbrev hlm : String → IntentDecision
hlm reason = record {
  disposition = IntentDisposition.hlm_owned;
  allows_homeowner_mutation = false;
  reason = reason;
}

abbrev no_change : String → IntentDecision
no_change reason = record {
  disposition = IntentDisposition.no_ownership_change;
  allows_homeowner_mutation = false;
  reason = reason;
}

abbrev homeowner : String → IntentDecision
homeowner reason = record {
  disposition = IntentDisposition.homeowner_intent;
  allows_homeowner_mutation = true;
  reason = reason;
}

unfoldable pub is_recovery : IntentEvidenceKind → Bool
is_recovery IntentEvidenceKind.availability_change = true
is_recovery IntentEvidenceKind.recovery_telemetry = true
is_recovery _ = false

unfoldable pub is_explicit : IntentEvidenceKind → Bool
is_explicit IntentEvidenceKind.explicit_homeowner_command = true
is_explicit _ = false

unfoldable pub is_unattributed : IntentAttributionSource → Bool
is_unattributed IntentAttributionSource.unattributed_external = true
is_unattributed _ = false

-- The table of temporal exclusions: the reason of the first that applies.
unfoldable pub exclusion : IntentEvidence → Option String
exclusion e =
    if e.structural_activity
    then some "active structural session telemetry"
    else if e.structural_state_unknown
    then some "structural session state is unavailable"
    else if e.scene_guard_active
    then some "scene recall during renderer guard"
    else if e.scene_rendering
    then some "authoritative Hue scene appearance is settling"
    else if e.boundary_settling
    then some "nightly 01:59 boundary settling"
    else if e.boundary_shutdown_pending
    then some "boundary shutdown awaits current presentation evidence"
    else if e.dynamic_telemetry
    then some "active Hue dynamics are automatic scene telemetry"
    else none

-- What follows the exclusions, by the kind of the evidence.
unfoldable pub classify_kind : IntentEvidence → IntentEvidenceKind → IntentDecision
unfolding is_unattributed
classify_kind e IntentEvidenceKind.explicit_homeowner_command =
    if not e.succeeded
    then no_change "failed homeowner command cannot create ownership"
    else if e.attribution_coherent
    then homeowner "successful explicit homeowner command"
    else hlm "ambiguous homeowner attribution defaults to HLM"
classify_kind e IntentEvidenceKind.correlated_external_homeowner_command =
    if not e.succeeded
    then no_change "failed correlated external command cannot create ownership"
    else if e.attribution_coherent
        && (is_unattributed e.attribution_source && (not e.has_user_id && not e.has_parent_id))
    then homeowner "qualified external topology correlation"
    else hlm "external homeowner correlation was not coherent"
classify_kind e IntentEvidenceKind.hlm_command_consequence =
    hlm "telemetry attributed to HLM command"
classify_kind e IntentEvidenceKind.recovery_telemetry =
    hlm "non-homeowner or ambiguous evidence defaults to HLM"
classify_kind e IntentEvidenceKind.availability_change =
    hlm "non-homeowner or ambiguous evidence defaults to HLM"
classify_kind e IntentEvidenceKind.physical_drift =
    hlm "non-homeowner or ambiguous evidence defaults to HLM"
classify_kind e IntentEvidenceKind.unknown =
    hlm "non-homeowner or ambiguous evidence defaults to HLM"

unfoldable pub classify_intent : IntentEvidence → IntentDecision
unfolding is_recovery is_explicit exclusion classify_kind
classify_intent e =
    if is_recovery e.kind
    then hlm "availability/recovery telemetry is not homeowner intent"
    else if e.renderer_consequence
    then hlm "exact renderer target/operation consequence"
    else if e.aggregate_receipt
    then hlm "aggregate propagation requires an explicit scoped operation"
    else if is_explicit e.kind
    then classify_kind e e.kind
    else elim (exclusion e) [ some reason ↦ hlm reason | none ↦ classify_kind e e.kind ]
