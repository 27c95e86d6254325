-- ===== src/Tests/ObserverWitnesses.antt =====
-- The theorems on the observer at concrete inputs.
use home_lighting_manager.Common.{
  ◌≤◌, ◌<◌, ◌-◌, ◌*◌, String, Bool, true, false, none, some, [], ◌∷◌, ◌≡◌, ◌⊎◌, ◌↔◌, refl, arith,
  contains, string_eq, any, filter,
}
use home_lighting_manager.Common.Action.{ok}
use home_lighting_manager.Common.Dict.{lookup}
use home_lighting_manager.Common.Int.{pos}
use home_lighting_manager.Intent.{IntentDisposition}
use home_lighting_manager.Model.{int, str, end, field}
use home_lighting_manager.Shadow.Runtime.{new_runtime, ShadowDecision}
use home_lighting_manager.Observer.{State, seconds}
use home_lighting_manager.Observer.Receipts.{
  Receipts, receipts_of, is_live, active_guard_for_ha_consequence,
}
use home_lighting_manager.Observer.Receipts.Attributed.{Latest, matches, active_guard-Latest}
use home_lighting_manager.Observer.Membership.{Configuration, Surfaces, surface_members}
use home_lighting_manager.Observer.Membership.Confirmed.{IsConfirmed}
use home_lighting_manager.Observer.Reconcile.{Observer, reconcile_surface_membership}
use home_lighting_manager.Observer.Reconcile.Leaves.{reconcile-IsConfirmed}
use home_lighting_manager.Observer.Restart.{max_downtime, manual_ownership_survives_restart}
use home_lighting_manager.Observer.Restart.Boundary.{Crosses, manual_ownership_survives_restart_iff}
use home_lighting_manager.Observer.Events.{Surroundings, StateChanged, Session}
use home_lighting_manager.Observer.Handler.{state_changed}
use home_lighting_manager.Observer.Handler.Safe.{IsDirect, state_changed-IsDirect}
use home_lighting_manager.Tests.Program.{program}

abbrev configured : Configuration
configured = record {
  entity_ids = "light.desk" ∷ [];
  manual_precedence = ("light.desk", pos 250) ∷ [];
  surface_exclusions = [];
}

-- The path has two lights, and a membership without the gate was seen ten seconds ago.
abbrev surfaces_then : Surfaces
surfaces_then = record {
  members = ("light.holiday_path", "light.gate" ∷ "light.step" ∷ []) ∷ [];
  seen = "light.gate" ∷ "light.step" ∷ [];
  pending = ("light.holiday_path", ("light.step" ∷ [], 0)) ∷ [];
  entity_ids = "light.desk" ∷ "light.gate" ∷ "light.step" ∷ [];
  manual_precedence = ("light.desk", pos 250) ∷ [];
  post_boundary_off = [];
}

abbrev observer_then : Observer
unfolding program
observer_then = record {
  surfaces = surfaces_then;
  runtime = new_runtime "a" 1 (some ("light.desk" ∷ "light.gate" ∷ "light.step" ∷ []));
}

reconcile-IsConfirmed_example :
    (contains "light.gate" (
        surface_members "light.holiday_path"
          (reconcile_surface_membership configured
            (("light.holiday_path", "light.step" ∷ []) ∷ [])
            (10 * seconds)
            observer_then).1.surfaces)
      ≡ true)
    ⊎ IsConfirmed "light.gate" (10 * seconds) (lookup "light.holiday_path" surfaces_then.pending)
unfolding program
reconcile-IsConfirmed_example =
    reconcile-IsConfirmed configured (("light.holiday_path", "light.step" ∷ []) ∷ []) (10 * seconds)
      observer_then "light.holiday_path" "light.gate" refl

-- An off and an on were sent while the guard of the path is on.
abbrev sent : Receipts
sent =
    (
      "light.step",
      record {
        guard = "input_boolean.home_lighting_ha_guard_path";
        operation = "off";
        created_at = 2 * seconds;
      }
          ∷ record {
            guard = "input_boolean.home_lighting_ha_guard_path";
            operation = "appearance";
            created_at = 3 * seconds;
          }
          ∷ [],
    )
    ∷ []

abbrev all_on : String → Bool
all_on guard = true

active_guard-Latest_example :
    ((guard : String)
      → (active_guard_for_ha_consequence "light.step" "off" (5 * seconds) all_on sent).0
        ≡ some guard
      → Latest "off" guard
          (filter (is_live (5 * seconds) all_on) (receipts_of (lookup "light.step" sent))))
    × ((active_guard_for_ha_consequence "light.step" "off" (5 * seconds) all_on sent).0 ≡ none
        → any
            (matches "off")
            (filter (is_live (5 * seconds) all_on) (receipts_of (lookup "light.step" sent)))
          ≡ false)
unfolding program
active_guard-Latest_example =
    active_guard-Latest "light.step" "off" (5 * seconds) all_on sent (omega arith)

-- In a zone where the wall time is the instant, saved at 01:30 and read at 02:10.
manual_ownership_survives_restart_iff_example :
    (manual_ownership_survives_restart (λ t. t) (5400 * seconds) (7800 * seconds) ≡ true)
    ↔ (5400 * seconds ≤ 7800 * seconds)
      × (7800 * seconds - 5400 * seconds < max_downtime)
      × ¬ (Crosses (λ t. t) (5400 * seconds) (7800 * seconds))
manual_ownership_survives_restart_iff_example =
    manual_ownership_survives_restart_iff (λ t. t) (5400 * seconds) (7800 * seconds) (λ k w h. h)

abbrev session_then : Session
unfolding observer_then
session_then = record {
  observer = observer_then;
  topology_members = [];
  receipts = [];
  settle_until = none;
  correlator = record {
    window = 2 * seconds;
    events = [];
    last_timestamp = none;
    overflow = false;
  };
  external_burst = none;
  last_decision = none;
}

abbrev shown : State
shown = record {
  state = "on";
  attributes = field "brightness" (int (pos 128)) (field "color_mode" (str "brightness") end);
}

abbrev around : Surroundings
around = record { states = ("light.desk", shown) ∷ []; now = 20 * seconds }

-- An HA user turns the desk on.
abbrev turned_on : StateChanged
turned_on = record {
  entity_id = "light.desk";
  old_state = some (record { state = "off"; attributes = end });
  new_state = some shown;
  context = record { id = "c"; user_id = some "u"; parent_id = none };
}

abbrev decision : ShadowDecision
unfolding program
decision = elim (state_changed configured around turned_on session_then).0 [
  | ok (some d) ↦ d
  | _ ↦ record {
    entity_id = "";
    intent = record {
      disposition = IntentDisposition.no_ownership_change;
      allows_homeowner_mutation = false;
      reason = "";
    };
    mutated = false;
    reason = "";
  }
]

state_changed-IsDirect_example : IsDirect turned_on
unfolding program
state_changed-IsDirect_example =
    state_changed-IsDirect configured around turned_on session_then decision refl refl
