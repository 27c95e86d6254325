-- ===== src/Tests/Witnesses.antt =====
-- The theorems at concrete inputs.
use home_lighting_manager.Common.{◌≡◌, ◌≤◌, ◌↔◌, refl, true, false, none, arith}
use home_lighting_manager.Intent.{classify_intent}
use home_lighting_manager.Intent.Policy.{IsHomeowner, classify_intent-allows_iff}
use home_lighting_manager.Engine.State.{is_current_work, work_token}
use home_lighting_manager.Operations.Record.{HomeownerOperation, eligible_members}
use home_lighting_manager.Operations.Transaction.{apply, sync_generation}
use home_lighting_manager.Operations.Outcome.{consumed}
use home_lighting_manager.Operations.Admitted.{IsAdmissible, IsTimely}
use home_lighting_manager.Operations.Atomic.{apply-unmutated, apply-mutated}
use home_lighting_manager.Operations.Replay.{apply_duplicate, apply_stale}
use home_lighting_manager.Operations.Bounds.{IsBounded, apply-IsBounded}
use home_lighting_manager.Tests.Program.{program}
use home_lighting_manager.Tests.Data.{fresh_operations, fresh_engine, set_desk, off_desk, command}

-- the OFF of the desk, of a generation that is over
abbrev stale_off : HomeownerOperation
stale_off = record off_desk { generation = 7 }

apply-unmutated_example : (apply stale_off fresh_operations).1.engine ≡ fresh_engine
unfolding program
apply-unmutated_example = apply-unmutated stale_off fresh_operations refl

apply-mutated_example :
    IsAdmissible (sync_generation fresh_operations) set_desk
    × IsTimely (consumed set_desk fresh_operations) set_desk (eligible_members set_desk)
    × ((apply set_desk fresh_operations).1.engine.generation ≡ 1)
    × ((apply set_desk fresh_operations).1.engine.authority_id ≡ "a")
    × ((apply set_desk fresh_operations).1.engine.managed_entities ≡ none)
    × (1 ≤ (apply set_desk fresh_operations).1.engine.revision)
    × (is_current_work (apply set_desk fresh_operations).1.engine (work_token fresh_engine) ≡ false)
unfolding program
apply-mutated_example = apply-mutated set_desk fresh_operations refl

apply_duplicate_example :
    (apply (record off_desk { operation_id = "op1" }) (apply set_desk fresh_operations).1).0.mutated
    ≡ false
unfolding program
apply_duplicate_example =
    apply_duplicate set_desk fresh_operations refl (record off_desk { operation_id = "op1" }) refl

apply_stale_example :
    (apply (record off_desk { sequence = 1 }) (apply set_desk fresh_operations).1).0.mutated ≡ false
unfolding program
apply_stale_example =
    apply_stale set_desk fresh_operations refl (record off_desk { sequence = 1 }) (omega arith) refl

fresh-IsBounded : IsBounded fresh_operations
fresh-IsBounded = record { remembered = omega arith; recorded = omega arith; tracked = omega arith }

apply-IsBounded_example : IsBounded (apply set_desk fresh_operations).1
apply-IsBounded_example = apply-IsBounded set_desk fresh_operations fresh-IsBounded

classify_intent-allows_iff_example :
    ((classify_intent command).allows_homeowner_mutation ≡ true) ↔ IsHomeowner command
classify_intent-allows_iff_example = classify_intent-allows_iff command
