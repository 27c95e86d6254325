-- ===== src/Observer/Restart.antt =====
-- ha_observer.py: which Manual ownership survives a restart. A `datetime` with a zone is its wall time,
-- as microseconds since the first day of its calendar; the zone gives the instant of a wall time.
pub mod Boundary
use home_lighting_manager.Common.{
  ℕ, suc, ◌+◌, ◌-◌, ◌*◌, ◌/◌, String, Bool, true, false, not, ◌&&◌, ◌||◌, Option, none, some, List,
  [], ◌∷◌, if◌then◌else◌, ltb, leb, ◌==◌, string_eq, is_some, contains, any,
}
use home_lighting_manager.Common.Dict.{Dict, insert}
use home_lighting_manager.Common.Int.{pos}
use home_lighting_manager.Model.{
  Value, Items, Fields, Float, null, bool, int, float, str, list, tuple, nil, cons, Appearance,
  LayerKind, OwnershipLayer, get_or, value_eq, is_null, is_bool, item_count, as_number,
}
use home_lighting_manager.Recovery.{ManualRecoveryEvidence}
use home_lighting_manager.Reconciliation.Difference.{Tolerance, numbers_near, round_to_double}
use home_lighting_manager.Observer.{State, seconds}
use home_lighting_manager.Observer.Observation.{
  is_missing, optional_int_tuple, items_of_length, floats_of, then_floats,
}

-- RESTART_MANUAL_MAX_DOWNTIME, a day, and 01:59 of a day
abbrev pub max_downtime : ℕ
max_downtime = 3600 * seconds

abbrev pub day : ℕ
day = 86400 * seconds

abbrev pub boundary_time : ℕ
boundary_time = 7140 * seconds

-- The latest 01:59 that is not after a wall time; none before the first.
unfoldable pub latest_boundary : ℕ → Option ℕ
latest_boundary wall =
    let today = wall / day * day + boundary_time in
    if ltb wall today then (if ltb today day then none else some (today - day)) else some today

abbrev pub crossed_at : (ℕ → ℕ) → ℕ → ℕ → Option ℕ → Bool
crossed_at instant start end' none = false
crossed_at instant start end' (some boundary) = ltb start (instant boundary) && leb boundary end'

-- `_crossed_nightly_boundary` for an end with a zone
unfoldable pub crossed_nightly_boundary : (ℕ → ℕ) → ℕ → ℕ → Bool
unfolding latest_boundary
crossed_nightly_boundary instant start end' =
    if leb (instant end') start then false else crossed_at instant start end' (latest_boundary end')

-- `_manual_ownership_survives_restart`
unfoldable pub manual_ownership_survives_restart : (ℕ → ℕ) → ℕ → ℕ → Bool
unfolding crossed_nightly_boundary
manual_ownership_survives_restart instant saved_at now =
    if ltb (instant now) saved_at
    then false
    else ltb (instant now - saved_at) max_downtime
      && not (crossed_nightly_boundary instant saved_at now)

unfoldable pub restart_evidence : Bool → OwnershipLayer → ManualRecoveryEvidence
restart_evidence valid layer = record {
  temporally_valid = valid;
  desired_state_trustworthy = is_some layer.appearance;
  ownership_evidence_coherent = valid;
}

unfoldable pub note_evidence :
    Bool
    → Value
    → OwnershipLayer
    → Dict String ManualRecoveryEvidence
    → Dict String ManualRecoveryEvidence
unfolding restart_evidence insert
note_evidence valid (str entity) layer evidence =
    insert entity (restart_evidence valid layer) evidence
note_evidence valid _ layer evidence = evidence

unfoldable pub evidence_from :
    Bool
    → List OwnershipLayer
    → Dict String ManualRecoveryEvidence
    → Dict String ManualRecoveryEvidence
unfolding note_evidence get_or
evidence_from valid [] evidence = evidence
evidence_from valid (layer ∷ l) evidence =
    evidence_from valid l
      (note_evidence valid (get_or "persisted_entity_id" null layer.metadata) layer evidence)

-- `_manual_recovery_evidence`
unfoldable pub manual_recovery_evidence :
    (ℕ → ℕ) → List OwnershipLayer → Option ℕ → ℕ → Dict String ManualRecoveryEvidence
unfolding evidence_from manual_ownership_survives_restart
manual_recovery_evidence instant layers none now = []
manual_recovery_evidence instant layers (some saved_at) now =
    if ltb (instant now) saved_at
    then []
    else evidence_from (manual_ownership_survives_restart instant saved_at now) layers []

-- the doubles 0.005 and 0.5
abbrev pub xy_match : Tolerance
xy_match = record { numerator = 5764607523034235; exponent = 60 }

abbrev pub hs_match : Tolerance
hs_match = record { numerator = 1; exponent = 1 }

unfoldable pub float_near : Tolerance → Option Float → Option Float → Bool
unfolding numbers_near round_to_double
float_near t (some a) (some b) = numbers_near round_to_double t a b
float_near t _ _ = false

unfoldable pub floats_near : Tolerance → Items → Items → Bool
unfolding float_near
floats_near t nil nil = true
floats_near t (cons a l) (cons b m) = float_near t (as_number a) (as_number b) && floats_near t l m
floats_near t nil (cons _ _) = false
floats_near t (cons _ _) nil = false

unfoldable pub floats_match : Tolerance → Option Items → Value → Bool
unfolding floats_near
floats_match t (some l) (tuple m) = floats_near t l m
floats_match t _ _ = false

abbrev expected_size : Value → ℕ
expected_size (tuple m) = item_count m
expected_size _ = 0

-- `_float_tuple_matches` for an expected tuple
unfoldable pub float_tuple_matches : Tolerance → Value → Value → Bool
unfolding floats_match then_floats items_of_length
float_tuple_matches t v expected =
    floats_match t (then_floats (items_of_length (expected_size expected) v)) expected
