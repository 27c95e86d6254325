-- ===== src/Observer/Events.antt =====
-- ha_observer.py: a state change, from its receipt to its observation by the runtime. One time stands
-- for the readings of the clock within a change.
use home_lighting_manager.Common.{
  ℕ, ◌*◌, String, Bool, true, false, not, ◌&&◌, ◌||◌, Option, none, some, List, [], ◌∷◌,
  if◌then◌else◌, ◌==◌, string_eq, nat_eq, leb, contains, any, filter, length, map,
}
use home_lighting_manager.Common.Dict.{Dict, lookup}
use home_lighting_manager.Common.Text.{Names, difference}
use home_lighting_manager.Common.Action.{Action, ok, ◌>>=◌, ◌>>◌, pure, modify, gets}
use home_lighting_manager.Intent.{IntentAttributionSource, IntentEvidenceKind}
use home_lighting_manager.Model.{Value, null, str, get_or}
use home_lighting_manager.Correlation.{Correlator, ExternalBurstSummary}
use home_lighting_manager.Shadow.Runtime.{
  ShadowRuntime, ShadowObservation, ShadowDecision, engine_of, reserve_sequence, observe,
}
use home_lighting_manager.Observer.{State, Context, seconds}
use home_lighting_manager.Observer.Topology.{snapshot_topology_cache, member_entity_ids_for_event}
use home_lighting_manager.Observer.Receipts.{Receipts, apply_ha_guard_attribution}
use home_lighting_manager.Observer.Membership.{Configuration, raw_of}
use home_lighting_manager.Observer.Reconcile.{Observer, reconcile_surface_membership}

-- What Home Assistant shows at a change.
pub record Surroundings : Type 0 where
  pub states : Dict String State
  pub now : ℕ

pub record StateChanged : Type 0 where
  pub entity_id : String
  pub old_state : Option State
  pub new_state : Option State
  pub context : Context

pub record Session : Type 0 where
  pub observer : Observer
  pub topology_members : Dict String (List String)
  pub receipts : Receipts
  pub settle_until : Option ℕ
  pub correlator : Correlator
  pub external_burst : Option ExternalBurstSummary
  pub last_decision : Option ShadowDecision

abbrev pub with_observer : {A : Type 0} → Action Observer A → Action Session A
with_observer m s = let (result, o) = m s.observer in (result, record s { observer = o })

-- NIGHTLY_BOUNDARY_SETTLE_SECONDS
abbrev pub settle_time : ℕ
settle_time = 15 * seconds

-- `_nightly_boundary_settling`
unfoldable pub nightly_boundary_settling : Option ℕ → ℕ → Bool
nightly_boundary_settling none now = false
nightly_boundary_settling (some until) now = leb now until

abbrev pub state_is : String → Option State → Bool
state_is s none = false
state_is s (some t) = t.state == s

-- the sensors of the surfaces that an entity is a member of
abbrev structural_sensors : Session → String → List String
unfolding lookup
structural_sensors s entity =
    map (λ (p : String × String). p.1)
      (filter (λ p. contains entity (raw_of (lookup p.0 s.observer.surfaces.members)))
        (("light.holiday_main_area", "binary_sensor.hue_bridge_living_room")
          ∷ ("light.holiday_backyard", "binary_sensor.hue_bridge_backyard")
          ∷ []))

abbrev is_dynamic : Value → Bool
is_dynamic (str d) = not (d == "" || d == "none")
is_dynamic _ = false

-- The facts that `_normalize_observation` collects.
unfoldable pub with_facts : Session → Surroundings → State → ShadowObservation → ShadowObservation
unfolding nightly_boundary_settling structural_sensors get_or lookup
with_facts s w new o =
    let sensors = structural_sensors s o.entity_id in
    record o {
      evidence = record o.evidence {
        boundary_settling = nightly_boundary_settling s.settle_until w.now;
        boundary_shutdown_pending = contains o.entity_id s.observer.surfaces.post_boundary_off;
        structural_activity = any (λ sensor. state_is "on" (lookup sensor w.states)) sensors;
        structural_state_unknown =
            any
              (λ sensor.
                not (
                  state_is "on" (lookup sensor w.states)
                  || state_is "off" (lookup sensor w.states)))
              sensors;
        dynamic_telemetry =
            not (o.operation == "off") && is_dynamic (get_or "dynamics" null new.attributes);
      };
    }

unfoldable pub normalize_observation :
    Surroundings → State → ShadowObservation → Action Session ShadowObservation
unfolding apply_ha_guard_attribution with_facts lookup
normalize_observation w new o = do
  s ← gets (λ s. s)
  let attributed =
      apply_ha_guard_attribution o.entity_id o w.now (λ g. state_is "on" (lookup g w.states))
        s.receipts
  modify (λ t. record t { receipts = attributed.1 })
  pure (with_facts s w new attributed.0)

-- `_refresh_topology_cache`
unfoldable pub refresh_topology_cache : Configuration → Surroundings → Action Session (Unit {0})
unfolding snapshot_topology_cache reconcile_surface_membership
refresh_topology_cache c w = do
  let cache = snapshot_topology_cache w.states
  modify (λ s. record s { topology_members = cache })
  with_observer (reconcile_surface_membership c cache w.now)
  pure tt

-- `_member_entity_ids_for_event`
unfoldable pub members_for_event : Surroundings → String → State → Action Session (List String)
unfolding member_entity_ids_for_event lookup
members_for_event w entity new = do
  s ← gets (λ s. s)
  let found = member_entity_ids_for_event entity new (lookup entity w.states) s.topology_members
  modify (λ t. record t { topology_members = found.1 })
  pure found.0

abbrev pub is_live_kind : IntentEvidenceKind → Bool
is_live_kind IntentEvidenceKind.availability_change = false
is_live_kind IntentEvidenceKind.recovery_telemetry = false
is_live_kind IntentEvidenceKind.explicit_homeowner_command = true
is_live_kind IntentEvidenceKind.correlated_external_homeowner_command = true
is_live_kind IntentEvidenceKind.hlm_command_consequence = true
is_live_kind IntentEvidenceKind.physical_drift = true
is_live_kind IntentEvidenceKind.unknown = true

-- A witnessed receipt of a command for a leaf closes the shutdown quarantine of the leaf.
abbrev pub closes_shutdown : ShadowObservation → List String → Bool
closes_shutdown o members =
    o.evidence.renderer_consequence
    && (is_live_kind o.evidence.kind && (o.operation == "appearance" && length members == 0))

unfoldable pub clear_post_boundary_off : Names → Session → Session
clear_post_boundary_off entities s = record s {
  observer = record s.observer {
    surfaces = record s.observer.surfaces {
      post_boundary_off = difference s.observer.surfaces.post_boundary_off entities;
    };
  };
}

abbrev pub shutdown_closed : ShadowObservation → ShadowObservation
shutdown_closed o = record o { evidence = record o.evidence { boundary_shutdown_pending = false } }

abbrev pub with_receipt : List String → ShadowObservation → ShadowObservation
with_receipt [] o = o
with_receipt (_ ∷ _) o = record o { evidence = record o.evidence { aggregate_receipt = true } }

unfoldable pub note_leaf :
    Surroundings → State → ShadowObservation → Action Session ShadowObservation
unfolding members_for_event clear_post_boundary_off
note_leaf w new o = do
  members ← members_for_event w o.entity_id new
  if closes_shutdown o members
      then modify (clear_post_boundary_off (o.entity_id ∷ [])) >> pure (shutdown_closed o)
      else pure (with_receipt members o)

abbrev on_runtime : {A : Type 0} → (ShadowRuntime → A × ShadowRuntime) → Action Session A
on_runtime f s =
    let (a, r) = f s.observer.runtime in
    (ok a, record s { observer = record s.observer { runtime = r } })

unfoldable pub observe_now : ShadowObservation → Action Session ShadowDecision
unfolding observe reserve_sequence
observe_now o = do
  sequence ← on_runtime reserve_sequence
  s ← gets (λ s. s)
  decision ← on_runtime (
      observe (record o {
        sequence = some sequence;
        generation = some (engine_of s.observer.runtime).generation;
      }))
  modify (λ t. record t { last_decision = some decision })
  pure decision

abbrev pub on_correlator : {A : Type 0} → Action Correlator A → Action Session A
on_correlator m s = let (result, k) = m s.correlator in (result, record s { correlator = k })

abbrev pub is_unattributed : IntentAttributionSource → Bool
is_unattributed IntentAttributionSource.unattributed_external = true
is_unattributed IntentAttributionSource.home_assistant_user = false
is_unattributed IntentAttributionSource.home_assistant_chain = false
is_unattributed IntentAttributionSource.unknown = false
