-- ===== src/Tests/Data.antt =====
-- Values that the tests and the witnesses share.
use home_lighting_manager.Common.{true, false, none, some, [], ◌∷◌}
use home_lighting_manager.Common.Int.{pos}
use home_lighting_manager.Model.{
  FamilySession, Value, int, Appearance, OwnershipLayer, LayerKind, bool, int, null, end,
}
use home_lighting_manager.Intent.{IntentEvidence, IntentEvidenceKind, IntentAttributionSource}
use home_lighting_manager.Engine.State.{Engine}
use home_lighting_manager.Persistence.Encode.{serialize_state}
use home_lighting_manager.Operations.Record.{HomeownerOperation, MemberOutcome, Operations}

-- an engine in which nothing has happened, at generation 1, for every light
abbrev pub fresh_engine : Engine
fresh_engine = record {
  authority_id = "a";
  generation = 1;
  managed_entities = none;
  stacks = [];
  families = [];
  group_off_armed = [];
  group_off_changes = [];
  group_off_change_serial = 0;
  order = 0;
  revision = 0;
  last_mutation_reason = "initialized";
  ended_sessions = [];
  session_sequences = [];
  session_ids = [];
  legacy_sessions_exhausted = false;
}

abbrev pub fresh_operations : Operations
fresh_operations = record {
  engine = fresh_engine;
  generation = 1;
  latest_sequence = [];
  seen = [];
  retired_sequence = 0;
  history = [];
  latest_homeowner = none;
  latest_rejection = none;
}

-- a homeowner's own successful command
abbrev pub command : IntentEvidence
command = record {
  kind = IntentEvidenceKind.explicit_homeowner_command;
  succeeded = true;
  attribution_coherent = true;
  attribution_source = IntentAttributionSource.home_assistant_user;
  has_user_id = true;
  has_parent_id = false;
  renderer_consequence = false;
  aggregate_receipt = false;
  boundary_settling = false;
  boundary_shutdown_pending = false;
  scene_rendering = false;
  dynamic_telemetry = false;
  structural_activity = false;
  structural_state_unknown = false;
  scene_guard_active = false;
}

abbrev pub white : Appearance
white = record {
  on = bool true;
  brightness = int (pos 200);
  color_temp_kelvin = null;
  xy_color = null;
  rgb_color = null;
  hs_color = null;
  effect = null;
  scene_id = null;
  color_mode = null;
  scene_evidence = null;
}

abbrev pub desk : MemberOutcome
desk = record {
  entity_id = "light.desk";
  available = true;
  succeeded = true;
  appearance = some white;
  manual_precedence = none;
}

abbrev pub set_desk : HomeownerOperation
set_desk = record {
  operation_id = "op1";
  sequence = 1;
  generation = 1;
  kind = "appearance";
  evidence = command;
  members = desk ∷ [];
  group_id = none;
  expected = none;
  require_legacy_policy = false;
}

abbrev pub off_desk : HomeownerOperation
off_desk = record set_desk { operation_id = "op2"; sequence = 2; kind = "off" }

abbrev pub automatic_layer : OwnershipLayer
automatic_layer = record {
  layer_id = "auto";
  owner = "evening";
  kind = LayerKind.automatic;
  generation = 1;
  order = pos 0;
  appearance = some white;
  family = none;
  session_id = none;
  expires_at_boundary = none;
  precedence = pos 5;
  metadata = end;
  operation_id = none;
  group_id = none;
  parent_layer_id = none;
  system_priority = none;
  protects_from_manual = false;
  removable = false;
  session_sequence = none;
}

abbrev pub movie : FamilySession
movie = record {
  family = "movie";
  session_id = "s1";
  generation = 3;
  suppressed = true;
  suppression_reason = some "homeowner_off";
  sequence = 4;
}

abbrev pub manual_desk : OwnershipLayer
manual_desk = record automatic_layer {
  layer_id = "manual:op1:light.desk";
  owner = "manual";
  kind = LayerKind.manual;
  operation_id = some "op1";
}

abbrev pub stored : Value
stored = serialize_state (("light.desk", manual_desk ∷ []) ∷ []) (movie ∷ [])
