-- ===== src/Tests/ReconciliationWitnesses.antt =====
-- The theorems on the legacy reconciliation at concrete inputs.
use home_lighting_manager.Common.{
  ℕ, zero, suc, ◌≤◌, ◌+◌, String, true, false, not, none, some, [], ◌∷◌, ◌≡◌, refl, length,
}
use home_lighting_manager.Common.Action.{ok, err}
use home_lighting_manager.Common.Dict.{Dict}
use home_lighting_manager.Model.{end}
use home_lighting_manager.Reconciliation.{SurfaceOwner, Check}
use home_lighting_manager.Reconciliation.Compare.{Observed}
use home_lighting_manager.Reconciliation.Verify.{verify, empty_check}
use home_lighting_manager.Reconciliation.Reconciler.{
  Reconciler, Adapter, degraded, scheduled, resumed,
}
use home_lighting_manager.Reconciliation.Loop.{is_current, run}
use home_lighting_manager.Reconciliation.Justified.{
  AllJustified, verify-AllJustified, verify-length-le,
}
use home_lighting_manager.Reconciliation.Ends.{
  inspections, RepairsAt, run-pending, run-inspections, run-RepairsAt,
}
use home_lighting_manager.Reconciliation.Calm.{calm, deciding, Decided, run-Decided}
use home_lighting_manager.Tests.Program.{program}

abbrev owned_by : String → SurfaceOwner
owned_by owner = record {
  owner = owner;
  manual_entities = "light.lamp" ∷ [];
  excluded_entities = [];
  pending_intent_entities = [];
  manual_off_entities = [];
  scene = none;
}

abbrev house : Dict String SurfaceOwner
house =
    ("liquor_cabinet", owned_by "closed")
    ∷ ("main_area", owned_by "off")
    ∷ ("front_eve", owned_by "sync")
    ∷ ("path", owned_by "manual")
    ∷ ("backyard", owned_by "off")
    ∷ []

-- The homeowner's lamp and the desk are on where the main area is to be off.
abbrev evening : Observed
evening = record {
  owners = house;
  states =
      ("light.lamp", record { state = "on"; attributes = end })
      ∷ ("light.desk", record { state = "on"; attributes = end })
      ∷ [];
  scripts = [];
  members = ("main_area", "light.lamp" ∷ "light.desk" ∷ []) ∷ [];
  scene_info = [];
  suppressed = [];
}

abbrev plan : Check
unfolding program
plan = elim (verify evening) [ ok c ↦ c | err _ ↦ empty_check ]

one_command : length plan.commands ≡ 1
unfolding program
one_command = refl

verify-AllJustified_example : AllJustified evening plan.commands
unfolding program
verify-AllJustified_example = verify-AllJustified evening plan refl

verify-length-le_example : length plan.commands ≤ length plan.issues
unfolding program
verify-length-le_example = verify-length-le evening plan refl

-- The loop has just been scheduled.
abbrev waiting : Reconciler
waiting = record {
  generation = 1;
  diag = record {
    health = degraded;
    last_error = some "Awaiting startup verification";
    pending_reconciliation = true;
    retry_number = 0;
    repair_count_today = 0;
    unresolved = [];
    generation = 1;
    last_check_trigger = some "start";
    repair_count_date = none;
    last_check = none;
    intentionally_unmanaged = [];
    owners = [];
    last_repair = none;
  };
  calls = [];
}

-- An adapter that sends a repair, during which another check is scheduled.
abbrev disturbed : Adapter
unfolding plan
disturbed = record {
  started = ([], resumed tt);
  inspected = λ n. ([], resumed (plan, house));
  now = λ n. "2026-01-01T20:00:00";
  sent = λ n c. (scheduled "door" ∷ [], resumed true);
  rested = λ n. ([], resumed tt);
}

run-pending_example :
    (run disturbed 1 waiting).diag.pending_reconciliation
    ≡ not (is_current 1 (run disturbed 1 waiting))
run-pending_example = run-pending disturbed 1 waiting refl

run-inspections_example :
    inspections (run disturbed 1 waiting).calls ≤ inspections waiting.calls + 3
run-inspections_example = run-inspections disturbed 1 waiting

run-RepairsAt_example : RepairsAt 1 (run disturbed 1 waiting).calls
run-RepairsAt_example = run-RepairsAt disturbed 1 waiting tt

-- The first inspection finds the plan above, and the second finds nothing.
abbrev checks : ℕ → Check
unfolding plan
checks n = elim n [ zero ↦ plan | suc m ↦ empty_check ]

abbrev quiet : Adapter
unfolding checks
quiet = calm checks house (λ n. "2026-01-01T20:00:00") (λ n c. true)

run-Decided_example :
    Decided checks 1 (deciding checks 2 0) (run quiet 1 waiting)
    × ((run quiet 1 waiting).diag.pending_reconciliation ≡ false)
unfolding program
run-Decided_example =
    run-Decided checks house (λ n. "2026-01-01T20:00:00") (λ n c. true) 1
      ("off" ∷ "sync" ∷ "manual" ∷ "off" ∷ []) refl waiting refl
