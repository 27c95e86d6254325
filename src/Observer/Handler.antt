-- ===== src/Observer/Handler.antt =====
-- ha_observer.py: the handlers of state changes and of the nightly boundary, and the reset.
pub mod Commands
pub mod Safe
use home_lighting_manager.Common.{
  ℕ, ◌+◌, ◌*◌, String, Bool, true, false, not, ◌&&◌, Option, none, some, List, [], ◌∷◌, map,
  if◌then◌else◌, contains, string_eq,
}
use home_lighting_manager.Common.Dict.{Dict}
use home_lighting_manager.Common.Action.{Action, Result, ok, ◌>>=◌, ◌>>◌, pure, modify, gets}
use home_lighting_manager.Engine.Scope.{ResetCounts, expire_boundary}
use home_lighting_manager.Correlation
use home_lighting_manager.Correlation.{ExternalTopologyEvent}
use home_lighting_manager.Shadow.Runtime.{
  ShadowObservation, ShadowDecision, engine_of, reset_control,
}
use home_lighting_manager.Observer.{State, managed_surface_groups}
use home_lighting_manager.Observer.Observation.{observation_from_state_change}
use home_lighting_manager.Common.Dict.{lookup}
use home_lighting_manager.Observer.Membership.{Configuration, boundary_managed_entities}
use home_lighting_manager.Observer.Events.{
  Surroundings, StateChanged, Session, settle_time, refresh_topology_cache, members_for_event,
  normalize_observation, note_leaf, observe_now, on_correlator, is_unattributed,
}

unfoldable pub correlate :
    Configuration → Surroundings → State → ShadowObservation → Action Session (Unit {0})
unfolding refresh_topology_cache members_for_event Correlation.observe
correlate c w new o = do
  refresh_topology_cache c w
  members ← members_for_event w o.entity_id new
  summary ← on_correlator (
      Correlation.observe
        (record { timestamp = w.now; entity_id = o.entity_id; member_entity_ids = members }))
  modify (λ s. record s { external_burst = some summary })

-- `_record_external_topology`
unfoldable pub record_external_topology :
    Configuration → Surroundings → State → ShadowObservation → Action Session (Unit {0})
unfolding correlate
record_external_topology c w new o =
    if is_unattributed o.evidence.attribution_source then correlate c w new o else pure tt

-- The part of a change after the conversion of its states.
unfoldable pub take_observation :
    Configuration
    → Surroundings
    → State
    → ShadowObservation
    → Action Session (Option ShadowDecision)
unfolding normalize_observation note_leaf observe_now record_external_topology
take_observation c w new o = do
  normalized ← normalize_observation w new o
  noted ← note_leaf w new normalized
  decision ← observe_now noted
  record_external_topology c w new noted
  pure (some decision)

abbrev with_observation :
    Configuration
    → Surroundings
    → State
    → Option ShadowObservation
    → Action Session (Option ShadowDecision)
unfolding take_observation
with_observation c w new none = pure none
with_observation c w new (some o) = take_observation c w new o

unfoldable pub convert_change :
    Configuration
    → Surroundings
    → StateChanged
    → Option State
    → Action Session (Option ShadowDecision)
unfolding with_observation observation_from_state_change lookup
convert_change c w event none = pure none
convert_change c w event (some new) = do
  s ← gets (λ s. s)
  with_observation c w new (
      observation_from_state_change event.entity_id event.old_state new event.context
        (lookup event.entity_id s.observer.surfaces.manual_precedence))

abbrev pub is_surface_group : String → Bool
is_surface_group entity =
    contains entity (map (λ (p : String × String). p.1) managed_surface_groups)

-- `_async_state_changed`, with the decision that is recorded
unfoldable pub state_changed :
    Configuration → Surroundings → StateChanged → Action Session (Option ShadowDecision)
unfolding refresh_topology_cache convert_change
state_changed c w event = do
  if is_surface_group event.entity_id then refresh_topology_cache c w else pure tt
  s ← gets (λ s. s)
  if contains event.entity_id s.observer.surfaces.entity_ids
      then convert_change c w event event.new_state
      else pure none

-- `_handle_nightly_boundary`; the store and the published state are not part of the model.
unfoldable pub handle_nightly_boundary : Configuration → ℕ → Session → Session
unfolding boundary_managed_entities expire_boundary
handle_nightly_boundary c now s =
    let o = s.observer in
    let runtime = o.runtime in
    record s {
      settle_until = some (now + settle_time);
      observer = record o {
        surfaces = record o.surfaces { post_boundary_off = boundary_managed_entities c o.surfaces };
        runtime = record runtime {
          operations = record runtime.operations {
            engine = expire_boundary "nightly_0159" (engine_of runtime);
          };
        };
      };
    }

-- `async_reset_homeowner_control`
unfoldable pub reset_observer : Configuration → Session → ResetCounts × Session
unfolding reset_control boundary_managed_entities Correlation.reset
reset_observer c s =
    let o = s.observer in
    let (counts, runtime) = reset_control o.runtime in
    (
      counts,
      record s {
        observer = record o {
          surfaces = record o.surfaces {
            post_boundary_off = boundary_managed_entities c o.surfaces;
          };
          runtime = runtime;
        };
        correlator = Correlation.reset s.correlator;
        external_burst = none;
        last_decision = none;
        receipts = [];
      },
    )
