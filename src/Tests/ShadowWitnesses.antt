-- ===== src/Tests/ShadowWitnesses.antt =====
-- The theorems on the correlator and on the shadow runtime at concrete inputs.
use home_lighting_manager.Common.{
  ◌+◌, ◌≤◌, ◌≡◌, ◌⊎◌, refl, String, true, false, not, ◌&&◌, none, some, List, [], ◌∷◌, arith,
  length, any, filter, contains, ◌==◌, string_eq,
}
use home_lighting_manager.Common.Dict.{Dict}
use home_lighting_manager.Common.Action.{ok}
use home_lighting_manager.Correlation.{
  ExternalTopologyEvent, ExternalBurstSummary, ExternalBurstTopology, Correlator, observe, is_exact,
  external_intent_candidate, summarize, leaves_of, aggregate_members,
}
use home_lighting_manager.Correlation.Group.{resolve_unique_exact_group_unique}
use home_lighting_manager.Correlation.Burst.{observe-answers, external_intent_candidate-qualified}
use home_lighting_manager.Engine.Sound.Writes.{IsSound}
use home_lighting_manager.Engine.Reachable.{Reachable-IsSound, fresh}
use home_lighting_manager.Persistence.Payload.{PersistedOwnershipState}
use home_lighting_manager.Shadow.Runtime.{ShadowRuntime, new_runtime, engine_of}
use home_lighting_manager.Shadow.Restore.{restore}
use home_lighting_manager.Shadow.Once.{restore_once, restore-IsSound}
use home_lighting_manager.Shadow.Counted.{is_mutated, observe_all, are_new, observe_all-counts}
use home_lighting_manager.Operations.Record.{HomeownerOperation}
use home_lighting_manager.Tests.Program.{program}
use home_lighting_manager.Tests.Data.{set_desk, off_desk, command, automatic_layer}

abbrev leaf : ExternalTopologyEvent
leaf = record { timestamp = 10; entity_id = "light.a"; member_entity_ids = [] }

abbrev group : ExternalTopologyEvent
group = record {
  timestamp = 20;
  entity_id = "light.room";
  member_entity_ids = "light.a" ∷ "light.b" ∷ [];
}

abbrev idle : Correlator
idle = record { window = 2000000; events = []; last_timestamp = none; overflow = false }

observe-answers_example :
    (1 ≤ length (observe leaf idle).1.events)
    × (length (observe leaf idle).1.events ≤ 128)
    × ((s : ExternalBurstSummary) × ((observe leaf idle).0 ≡ ok s)
        × (s.event_count ≡ length (observe leaf idle).1.events)
        × (((observe leaf idle).1.overflow ≡ false)
            ⊎ (s.topology ≡ ExternalBurstTopology.mixed_unresolved)))
observe-answers_example = observe-answers leaf idle (omega arith)

external_intent_candidate-qualified_example :
    (false ≡ false)
    × ((external_intent_candidate (summarize false leaf (group ∷ []))).promoted_to_homeowner
        ≡ false)
    × ((l : String) × (leaves_of (leaf ∷ group ∷ []) ≡ l ∷ [])
        × (contains l (aggregate_members (leaf ∷ group ∷ [])) ≡ true)
        × ((external_intent_candidate (summarize false leaf (group ∷ []))).entity_id ≡ some l))
unfolding program
external_intent_candidate-qualified_example =
    external_intent_candidate-qualified false leaf (group ∷ []) refl

abbrev rooms : Dict String (List String)
rooms = ("light.room", "light.b" ∷ "light.a" ∷ []) ∷ ("light.hall", "light.a" ∷ []) ∷ []

abbrev both : List String
both = "light.a" ∷ "light.b" ∷ []

abbrev heard : List String
heard = "light.room" ∷ []

resolve_unique_exact_group_unique_example :
    (2 ≤ length both)
    × (contains "light.room" heard ≡ true)
    × (any (λ d. "light.room" == d.0 && is_exact both d.1) rooms ≡ true)
    × (any (λ d. not (d.0 == "light.room") && is_exact both d.1) rooms ≡ false)
unfolding program
resolve_unique_exact_group_unique_example =
    resolve_unique_exact_group_unique both heard rooms "light.room" refl

abbrev started : ShadowRuntime
started = new_runtime "a" 1 none

abbrev nothing : PersistedOwnershipState
nothing = record {
  layers = [];
  suppressed_sessions = [];
  rejected_layers = 0;
  rejected_sessions = 0;
  payload_rejected = false;
}

abbrev one_layer : PersistedOwnershipState
one_layer = record nothing { layers = automatic_layer ∷ [] }

restore_once_example :
    restore nothing [] [] (restore one_layer [] [] started).1
    ≡ (ok tt, (restore one_layer [] [] started).1)
restore_once_example = restore_once one_layer nothing [] [] [] [] started

started-IsSound : IsSound (engine_of started)
unfolding program
started-IsSound = Reachable-IsSound (fresh "a" 1 none)

restore-IsSound_example : IsSound (engine_of (restore one_layer [] [] started).1)
restore-IsSound_example = restore-IsSound one_layer [] [] started started-IsSound

-- A command of the homeowner, and an OFF that the policy does not take for the homeowner's.
abbrev run_of_two : List HomeownerOperation
run_of_two =
    set_desk
    ∷ record off_desk { operation_id = "op9"; evidence = record command { succeeded = false } }
    ∷ []

mutated_once : length (filter is_mutated (observe_all run_of_two started).0) ≡ 1
unfolding program observe_all
mutated_once = refl

observe_all-counts_example :
    ((observe_all run_of_two started).1.observed_events ≡ 2)
    × ((observe_all run_of_two started).1.ignored_or_hlm_events ≡ 1)
    × ((observe_all run_of_two started).1.homeowner_events ≤ 1)
    × (started.homeowner_events + length (filter is_mutated (observe_all run_of_two started).0)
        ≤ (observe_all run_of_two started).1.homeowner_events)
    × ((observe_all run_of_two started).1.recovery_open
        ≡ (started.recovery_open && not (any is_mutated (observe_all run_of_two started).0)))
unfolding program are_new
observe_all-counts_example = observe_all-counts run_of_two started refl
