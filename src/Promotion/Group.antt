-- ===== src/Promotion/Group.antt =====
-- promotion_observer.py, `_promote_armed_group_off`: the promotion of an armed group OFF.
use home_lighting_manager.Common.{
  ℕ, String, Bool, true, false, not, ◌&&◌, Option, none, some, List, if◌then◌else◌, ◌==◌, string_eq,
  nat_eq, option_eq, all, length,
}
use home_lighting_manager.Common.Dict.{lookup}
use home_lighting_manager.Common.Text.{sorted_set}
use home_lighting_manager.Intent.{classify_intent}
use home_lighting_manager.Engine.State.{group_off_sequences}
use home_lighting_manager.Operations.Record.{OperationResult}
use home_lighting_manager.Correlation.{same_list}
use home_lighting_manager.Observer.Events.{Surroundings}
use home_lighting_manager.Promotion.{Source, scene_recall_sources, PendingLeaf, Promotion}
use home_lighting_manager.Promotion.Pending.{
  engine_now, managed_group_members, cancel_singles, cancel_groups, drop_pending, forget_burst,
}
use home_lighting_manager.Promotion.Evidence.{
  scoped_causal_evidence, source_of, collect, is_off, one_generation, within_window, least_sequence,
  generation_of, group_operation, with_outcome, run_operation,
}

-- How `_promote_armed_group_off` ends: with a reason traced, or with the result of the operation.
pub data ArmedOutcome : Type 0 where
  rejected : String → ArmedOutcome
  submitted : OperationResult → ArmedOutcome
  raised : ArmedOutcome

-- The answer to a submission; what was correlated is dropped where it mutates.
unfoldable pub conclude_armed : String → OperationResult → Promotion → Promotion
unfolding with_outcome forget_burst
conclude_armed group result q =
    let noted =
      with_outcome group "armed_exact_group_second_off" result.intent result.mutated result.reason
        q in
    if result.mutated then forget_burst noted else noted

unfoldable pub submit_armed :
    String
    → List String
    → List PendingLeaf
    → Option ℕ
    → Option ℕ
    → Promotion
    → ArmedOutcome × Promotion
unfolding group_operation run_operation cancel_singles cancel_groups drop_pending conclude_armed
submit_armed group armed retained none sequence p =
    (rejected "rejected_pending_generation_invalid", p)
submit_armed group armed retained (some generation) none p = (raised, p)
submit_armed group armed retained (some generation) (some sequence) p =
    let cleared = drop_pending armed (cancel_groups armed (cancel_singles armed p)) in
    let (result, q) =
      run_operation (group_operation "external-armed-group-off" generation sequence group retained)
        cleared in
    (submitted result, conclude_armed group result q)

unfoldable pub armed_evidence :
    String → List String → Bool → Option (List PendingLeaf) → Promotion → ArmedOutcome × Promotion
unfolding one_generation within_window least_sequence submit_armed
armed_evidence group armed surface none p = (rejected "rejected_pending_member_missing", p)
armed_evidence group armed surface (some l) p =
    if not (all is_off l)
    then (rejected "rejected_pending_operation_not_off", p)
    else if not (one_generation l)
    then (rejected "rejected_pending_generations_mixed", p)
    else if surface && not (within_window l)
    then (rejected "rejected_surface_off_evidence_incomplete", p)
    else submit_armed group armed l (generation_of l) (least_sequence l) p

-- A surface asks the policy; any other group wants the leaves of the burst to be the armed members.
unfoldable pub armed_source :
    Surroundings
    → String
    → List String
    → List String
    → Option Source
    → Promotion
    → ArmedOutcome × Promotion
unfolding scoped_causal_evidence armed_evidence collect
armed_source w group armed leaves (some source) p =
    let policy = classify_intent (scoped_causal_evidence w source "off") in
    if not policy.allows_homeowner_mutation
    then (rejected policy.reason, p)
    else armed_evidence group armed true (collect p armed) p
armed_source w group armed leaves none p =
    if not (same_list leaves armed)
    then (rejected "rejected_burst_leaves_mismatch", p)
    else armed_evidence group armed false (collect p armed) p

unfoldable pub armed_group :
    Surroundings
    → String
    → List String
    → List String
    → Option (List String)
    → Promotion
    → ArmedOutcome × Promotion
unfolding armed_source source_of managed_group_members sorted_set
armed_group w group members leaves none p = (rejected "rejected_group_not_armed", p)
armed_group w group members leaves (some armed) p =
    if not (same_list (managed_group_members p members) (sorted_set armed))
    then (rejected "rejected_aggregate_members_mismatch", p)
    else armed_source w group (sorted_set armed) leaves (source_of group scene_recall_sources) p

-- `_promote_armed_group_off`; `leaves` are the leaf entities of the burst, sorted.
unfoldable pub promote_armed_group_off :
    Surroundings
    → String
    → String
    → List String
    → List String
    → Promotion
    → ArmedOutcome × Promotion
unfolding armed_group group_off_sequences lookup
promote_armed_group_off w operation group members leaves p =
    if not (operation == "off")
    then (rejected "rejected_not_off", p)
    else if length members == 0
    then (rejected "rejected_no_aggregate_members", p)
    else armed_group w group members leaves (lookup group (group_off_sequences (engine_now p))) p
