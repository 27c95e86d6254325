-- ===== src/Promotion/Owned.antt =====
-- promotion_observer.py, `_promote_owned_manual_group_off`: a surface that is Manual as a whole is switched off.
pub mod Released
use home_lighting_manager.Common.{
  ℕ, String, Bool, true, false, not, ◌||◌, Option, none, some, List, [], ◌∷◌, if◌then◌else◌, ◌==◌,
  string_eq, nat_eq, length,
}
use home_lighting_manager.Common.Dict.{erase}
use home_lighting_manager.Intent.{classify_intent}
use home_lighting_manager.Operations.Record.{OperationResult}
use home_lighting_manager.Correlation
use home_lighting_manager.Observer.Events.{Surroundings, Session, clear_post_boundary_off}
use home_lighting_manager.Promotion.{Source, scene_recall_sources, PendingLeaf, Promotion}
use home_lighting_manager.Promotion.Pending.{
  managed_group_members, all_group_manual, cancel_singles,
}
use home_lighting_manager.Promotion.Evidence.{
  scoped_causal_evidence, source_of, retained_surface_off_members, generation_of, least_sequence,
  group_operation, with_outcome, run_operation,
}

-- What is retained of the members goes, where it is retained under the entity that it observes.
unfoldable pub consume_retained : List String → List PendingLeaf → Promotion → Promotion
unfolding erase
consume_retained [] l p = p
consume_retained (e ∷ members) [] p = p
consume_retained (e ∷ members) (item ∷ l) p =
    let q =
      if item.observation.entity_id == e then record p { pending = erase e p.pending } else p in
    consume_retained members l q

-- The decision is noted; where it mutates, the correlation ends.
unfoldable pub close_owned : String → OperationResult → Promotion → Promotion
unfolding clear_post_boundary_off Correlation.reset
close_owned group result p =
    let decided = record p {
      session = record p.session {
        last_decision = some (record {
          entity_id = group;
          intent = result.intent;
          mutated = result.mutated;
          reason = result.reason;
        });
      };
    } in
    if result.mutated
    then record decided {
      session = record (clear_post_boundary_off result.affected decided.session) {
        correlator = Correlation.reset p.session.correlator;
      };
      last_observed_at = none;
    }
    else decided

unfoldable pub submit_owned :
    String
    → List String
    → List PendingLeaf
    → Option ℕ
    → Option ℕ
    → Promotion
    → Option OperationResult × Promotion
unfolding group_operation run_operation cancel_singles with_outcome consume_retained close_owned
submit_owned group members retained (some generation) (some sequence) p =
    let (result, q) =
      run_operation (group_operation "external-owned-group-off" generation sequence group retained)
        (cancel_singles members p) in
    let noted =
      with_outcome group "owned_manual_group_off_with_aggregate_propagation" result.intent
        result.mutated result.reason q in
    (some result, close_owned group result (consume_retained members retained noted))
submit_owned group members retained _ _ p = (none, p)

unfoldable pub owned_evidence :
    String
    → List String
    → Option (List PendingLeaf)
    → Promotion
    → Option OperationResult × Promotion
unfolding submit_owned least_sequence
owned_evidence group members none p = (none, p)
owned_evidence group members (some l) p =
    submit_owned group members l (generation_of l) (least_sequence l) p

unfoldable pub owned_source :
    Surroundings
    → String
    → List String
    → Option Source
    → Promotion
    → Option OperationResult × Promotion
unfolding scoped_causal_evidence all_group_manual retained_surface_off_members owned_evidence
owned_source w group members none p = (none, p)
owned_source w group members (some source) p =
    if not (classify_intent (scoped_causal_evidence w source "off")).allows_homeowner_mutation
    then (none, p)
    else if not (all_group_manual p group members)
    then (none, p)
    else owned_evidence group members (retained_surface_off_members p members) p

-- `_promote_owned_manual_group_off`; none where it returns False.
unfoldable pub promote_owned_manual_group_off :
    Surroundings → String → String → List String → Promotion → Option OperationResult × Promotion
unfolding managed_group_members source_of owned_source
promote_owned_manual_group_off w operation group members p =
    if not (operation == "off") || length members == 0
    then (none, p)
    else owned_source w group (managed_group_members p members)
        (source_of group scene_recall_sources) p
