-- ===== src/Observer/Observation.antt =====
-- ha_observer.py: a state transition as conservative evidence.
use Prim.Native.String.{◌++◌}
use text.Mathlib.Text.{starts_with}
use home_lighting_manager.Common.{
  ℕ, suc, ◌-◌, String, Bool, true, false, not, ◌&&◌, ◌||◌, Option, none, some, is_some,
  if◌then◌else◌, ◌==◌, string_eq, nat_eq,
}
use home_lighting_manager.Common.Int.{ℤ, pos, negsuc}
use home_lighting_manager.Intent.{
  IntentAttributionSource, IntentEvidenceKind, IntentEvidence, home_assistant_user,
  home_assistant_chain, unattributed_external,
}
use home_lighting_manager.Model.{
  Value, Items, Float, null, bool, int, float, str, list, tuple, nil, cons, finite, Appearance,
  get_or, item_count,
}
use home_lighting_manager.Reconciliation.Difference.{round_to_double}
use home_lighting_manager.Shadow.Runtime.{ShadowObservation}
use home_lighting_manager.Observer.{State, Context}

-- `_attribution_source_from_context`; its last return is unreachable.
unfoldable pub attribution_source_from_context : Context → IntentAttributionSource
attribution_source_from_context c =
    if is_some c.user_id && not (is_some c.parent_id)
    then home_assistant_user
    else if is_some c.parent_id
    then home_assistant_chain
    else if not (is_some c.user_id)
    then unattributed_external
    else IntentAttributionSource.unknown

-- `_optional_int`
unfoldable pub optional_int : Value → Value
optional_int (int n) = int n
optional_int _ = null

-- the items of a list or tuple of a length
unfoldable pub items_of_length : ℕ → Value → Option Items
items_of_length n (list l) = if item_count l == n then some l else none
items_of_length n (tuple l) = if item_count l == n then some l else none
items_of_length n _ = none

unfoldable pub to_double : ℤ → Float
unfolding round_to_double
to_double (pos n) = finite (pos (round_to_double n)) 0
to_double (negsuc n) = finite (negsuc (round_to_double (suc n) - 1)) 0

-- the floats of the items, where all are numbers and none a bool
unfoldable pub floats_of : Items → Option Items
unfolding to_double
floats_of nil = some nil
floats_of (cons (int n) l) = elim (floats_of l) [
  | none ↦ none
  | some r ↦ some (cons (float (to_double n)) r)
]
floats_of (cons (float f) l) = elim (floats_of l) [ none ↦ none | some r ↦ some (cons (float f) r) ]
floats_of (cons _ l) = none

unfoldable pub all_ints : Items → Bool
all_ints nil = true
all_ints (cons (int _) l) = all_ints l
all_ints (cons _ l) = false

unfoldable pub tuple_or_null : Option Items → Value
tuple_or_null none = null
tuple_or_null (some l) = tuple l

unfoldable pub then_floats : Option Items → Option Items
unfolding floats_of
then_floats none = none
then_floats (some l) = floats_of l

unfoldable pub then_ints : Option Items → Option Items
unfolding all_ints
then_ints none = none
then_ints (some l) = if all_ints l then some l else none

-- `_optional_tuple` and `_optional_int_tuple`
unfoldable pub optional_tuple : Value → ℕ → Value
unfolding tuple_or_null then_floats items_of_length
optional_tuple v n = tuple_or_null (then_floats (items_of_length n v))

unfoldable pub optional_int_tuple : Value → ℕ → Value
unfolding tuple_or_null then_ints items_of_length
optional_int_tuple v n = tuple_or_null (then_ints (items_of_length n v))

unfoldable pub optional_text : Value → Value
optional_text (str s) = str s
optional_text _ = null

-- `_appearance_from_state`
unfoldable pub appearance_from_state : State → Appearance
unfolding optional_int optional_tuple optional_int_tuple optional_text get_or
appearance_from_state s =
    let attribute = λ (key : String). get_or key null s.attributes in
    record {
      on = bool true;
      brightness = optional_int (attribute "brightness");
      color_temp_kelvin = optional_int (attribute "color_temp_kelvin");
      xy_color = optional_tuple (attribute "xy_color") 2;
      rgb_color = optional_int_tuple (attribute "rgb_color") 3;
      hs_color = optional_tuple (attribute "hs_color") 2;
      effect = optional_text (attribute "effect");
      scene_id = null;
      color_mode = optional_text (attribute "color_mode");
      scene_evidence = null;
    }

-- `state in (STATE_UNAVAILABLE, STATE_UNKNOWN)`
abbrev pub is_missing : String → Bool
is_missing state = state == "unavailable" || state == "unknown"

abbrev pub was_missing : Option State → Bool
was_missing none = false
was_missing (some s) = is_missing s.state

abbrev pub is_explicit_user : Context → Bool
is_explicit_user c = is_some c.user_id && not (is_some c.parent_id)

-- `IntentEvidence(kind, attribution_source, has_user_id, has_parent_id)`
unfoldable pub evidence_of : IntentEvidenceKind → Bool → Context → IntentEvidence
unfolding attribution_source_from_context
evidence_of kind coherent c = record {
  kind = kind;
  succeeded = true;
  attribution_coherent = coherent;
  attribution_source = attribution_source_from_context c;
  has_user_id = is_some c.user_id;
  has_parent_id = is_some c.parent_id;
  renderer_consequence = false;
  aggregate_receipt = false;
  boundary_settling = false;
  boundary_shutdown_pending = false;
  scene_rendering = false;
  dynamic_telemetry = false;
  structural_activity = false;
  structural_state_unknown = false;
  scene_guard_active = false;
}

-- `ShadowObservation(entity_id, evidence)`, with the operation
unfoldable pub bare_observation : String → IntentEvidence → String → ShadowObservation
bare_observation entity evidence operation = record {
  entity_id = entity;
  evidence = evidence;
  appearance = none;
  operation = operation;
  manual_precedence = none;
  sequence = none;
  generation = none;
  operation_id = none;
}

abbrev operation_id_of : Context → String → Option String
operation_id_of c entity =
    if is_explicit_user c then some ("ha:" ++ (c.id ++ (":" ++ entity))) else none

unfoldable pub command_evidence : Context → IntentEvidence
unfolding evidence_of
command_evidence c =
    evidence_of
      (if is_explicit_user c
        then IntentEvidenceKind.explicit_homeowner_command
        else IntentEvidenceKind.unknown)
      (is_explicit_user c) c

-- the last part, for a state that is known before and after
unfoldable pub command_observation : String → State → Context → Option ℤ → Option ShadowObservation
unfolding bare_observation command_evidence appearance_from_state
command_observation entity new c precedence =
    let observed =
      record (bare_observation entity (command_evidence c)
        (if new.state == "off" then "off" else "appearance")) {
          operation_id = operation_id_of c entity;
        } in
    if new.state == "off"
    then some observed
    else if not (new.state == "on")
    then none
    else some (record observed {
      appearance = some (appearance_from_state new);
      manual_precedence = precedence;
    })

unfoldable pub observation_from_state_change :
    String → Option State → State → Context → Option ℤ → Option ShadowObservation
unfolding evidence_of bare_observation command_observation
observation_from_state_change entity old new c precedence =
    if not (starts_with entity "light.")
    then none
    else if is_missing new.state || was_missing old
    then some (
        bare_observation entity (evidence_of IntentEvidenceKind.availability_change true c)
          "appearance")
    else if not (is_some old) && not (is_explicit_user c)
    then some (
        bare_observation entity (evidence_of IntentEvidenceKind.recovery_telemetry true c)
          "appearance")
    else command_observation entity new c precedence
