-- ===== src/Tests/Program.antt =====
-- One name to unfold for every definition of the model, so that a test can run it.
use home_lighting_manager.Common.Action.{◌>>=◌, for_each}
use home_lighting_manager.Common.Text.{insert_sorted, sorted_set, show}
use home_lighting_manager.Model.{scale, float_eq, float_between, get?, get_or, is_bounded_str}
use home_lighting_manager.Model.{
  appearance_of, appearance_eq, type_is_bool, is_brightness, is_kelvin, component_valid,
  components_valid, color_valid, is_mode, mode_is, mode_backed, is_valid,
}
use home_lighting_manager.Model.{
  kind_value, off_action_value, group_off_action_value, is_homeowner_kind, is_manual, is_manual_off,
  is_overlay, is_automatic, layer_eq, session_eq, token_eq,
}
use home_lighting_manager.Intent.{
  is_recovery, is_explicit, is_unattributed, exclusion, classify_kind, classify_intent,
}
use home_lighting_manager.Engine.State.{
  new_engine, changed, invalidate_work, work_token, is_current_work, is_stale,
  is_current_generation, layers, is_light_id, accepts_entity, session_live, family_eligible,
  session_matches, session_eligible, root_eligible, parent_eligible, eligible_under, layer_eligible,
  resolve, resolved_entity, entity_ids, family_sessions, ended_family_sessions, group_off_sequences,
}
use home_lighting_manager.Engine.Groups.{
  removal, discard_group_off, discard_groups, clear_group_off, reset_group_off_sequence,
  disarm_overlapping, reset_group_off_for_members, discard_overlaps, invalidate_overlaps,
}
use home_lighting_manager.Engine.Families.{
  keep_stack, keep_where, remove_where, remove_layer, remove_owner, remove_homeowner_exceptions,
  remove_matching, remove_everywhere, evening_activation, in_session, retire, drop_session,
  close_session, end_session, end_family, end_sessions_of, write_session, open_session,
  admit_session, choose_sequence, sequence_differs, start_new, start_family, write_family,
  suppress_session, suppress_found, suppress_family,
}
use home_lighting_manager.Engine.Stack.{
  identity, updates, collides, session_key, check_sequence, attach_session, set_default,
  replace_first, insert_before, remove_first, update_layer, place_layer, store_layer, push_refusal,
  push, move_before, without, admit_manual, is_system_kind, blocks, activate_admitted,
  activate_automatic, new_layer_id,
}
use home_lighting_manager.Engine.Off.{
  manual_off_layer, push_manual_off, release_manual, manual_release, peel_session,
  create_manual_off, peel, apply_off, suppress_named, suppress_exposed, group_manual_off,
  second_group_off, release_all, make_room, arm, first_group_off, is_armed, group_phase,
  commit_group_off, apply_group_off,
}
use home_lighting_manager.Engine.Scope.{
  sweep, homeowner_reason, clear_suppression, clear_suppressions, reset_homeowner_control,
  expire_boundary, next_generation, reconfigure, pop_stacks, current_scope, change_scope, rescope,
  update_managed_entities,
}
use home_lighting_manager.Operations.Record.{
  new_operations, take_chars, insert_member, sort_members, eligible_members, skipped_members,
  all_distinct, scope_valid, tracked_count, early_refusal, appearance_incomplete, late_refusal,
}
use home_lighting_manager.Operations.Effect.{
  tag_layer, tag_exposed_manual, manual_layer, override_session, override_exposed, admit,
  is_explicit_admission, apply_appearance, apply_offs, apply_appearances, apply_group,
  apply_singles, apply_all_off, effect,
}
use home_lighting_manager.Operations.Transaction.{
  sync_generation, rejected, note_rejection, reject, oldest_sequence, consume, record_sequences,
  operation_record, finish, committed, commit, conclude, settle, proceed, run, roll_back, apply,
}
use home_lighting_manager.Recovery.{
  appearance_mismatch, restored_layer, weigh_layer, recover_layer, recover_family_session,
}
use home_lighting_manager.Correlation.{
  is_aggregate, is_leaf_propagation, same_list, external_intent_candidate, is_exact,
  exact_aggregates, only_observed, resolve_unique_exact_group, new_correlator, reset, leaves_of,
  aggregates_of, aggregate_members, topology_of, summarize, summary_of, summary, outside_window,
  current_burst, join_burst, observe,
}
use home_lighting_manager.Persistence.Encode.{
  appearance_fields, serialize_layer, serialize_session, layer_record, entity_records,
  layer_records, session_records, serialize_state,
}
use home_lighting_manager.Persistence.Decode.{
  bounded_str, plain_int, positive, text_or_null, provenance, text_of, parse_kind, normalize_color,
  keywords_known, deserialize_appearance, parse_appearance, layer_of_fields, deserialize_layer,
  parse_bool, session_of_fields, deserialize_session,
}
use home_lighting_manager.Persistence.Payload.{
  key_text, count_of, with_entity, layer_trusted, accept_entity_layer, accept_layer, accept_session,
  collect, rejected_payload, is_supported, accepted_payload, parse_lists, deserialize_state,
}
use home_lighting_manager.Shadow.Runtime.{
  new_runtime, reserve_sequence, is_homeowner_intent, counts_as_homeowner, count_result,
  close_recovery, observe_operation, ingress, operation_of, observe as runtime_observe,
  managed_entities, export_persistence, register_suppression, reset_control, update_scope,
  is_protected, reconciliation_protected_entities, diagnostics,
}
use home_lighting_manager.Shadow.Restore.{
  reject_manual, reject_session, count_restored, restore_recovered, restore_entity, restore_value,
  restore_layer, restore_session, restore_family, begin_recovery, restore_all, restore,
}
use home_lighting_manager.Projection.{
  underlying_automatic, view_of, group_views, effective_ownership,
}
use home_lighting_manager.Reconciliation.Difference.{
  round_to_double, distance, numbers_near, options_near, near, all_near, keys_of, characters,
  elements, options_all_near, color_near, deviation_of, expected_state, diff_state, static_diff,
}
use home_lighting_manager.Reconciliation.Baseline.{
  texts, targets, commands_in_call, commands_in_step, commands_in,
}
use home_lighting_manager.Reconciliation.Compare.{
  item, report_difference, repair_static, turn_off_each, nested, scene_on, note_difference,
  compare_action, compare_actions, scene_command, repair_scene, check_scene, verify_scene,
}
use home_lighting_manager.Reconciliation.Verify.{
  baseline, liquor_white, verify_command, verify_baseline, skip, verify_owner, note_pending,
  verify_members, verify_surface, verify_surfaces, verify,
}
use home_lighting_manager.Reconciliation.Reconciler.{
  retryable_evidence_gap, schedule, close, interrupt, note_failure, note_day, note_check,
  note_owners, owner_names, day_of,
}
use home_lighting_manager.Reconciliation.Loop.{
  go_on, note_repair, repair_all, settle as loop_settle, give_up, judge, examined, with_owners,
  attempts, finish_run, run as loop_run,
}
use home_lighting_manager.Observer.Observation.{
  attribution_source_from_context, optional_int, items_of_length, to_double, floats_of, all_ints,
  tuple_or_null, then_floats, then_ints, optional_tuple, optional_int_tuple, optional_text,
  appearance_from_state, evidence_of, bare_observation, command_evidence, command_observation,
  observation_from_state_change,
}
use home_lighting_manager.Observer.Topology.{
  lights_of, without_repeats, membership_container, members_of_container, member_entity_ids,
  member_entity_ids_for_observation, member_entity_ids_for_event, snapshot_topology_cache,
}
use home_lighting_manager.Observer.Receipts.{
  append_receipt, surface_of_guard, accept_each, register_for,
  register_renderer_command_consequences, latest_guard, prune_receipts,
  active_guard_for_ha_consequence, mark_consequence, apply_ha_guard_attribution,
}
use home_lighting_manager.Observer.Membership.{
  same_list as membership_same_list, adopt, await_removal, review_known, observed_members,
  review_surface, review_surfaces, current_members, set_defaults, refresh_manual_precedence,
  boundary_managed_entities, desired_entities, settle_members, seed_surface, seed_surfaces,
  seed_surface_membership, review_of,
}
use home_lighting_manager.Observer.Reconcile.{
  scope_moved, forget_removed, apply_membership, reconcile_surface_membership,
}
use home_lighting_manager.Observer.Saved.{
  fields_of, list_of, list_at, dict_at, light_items, within, persisted_surface_seen_members,
  surface_items, persisted_from, persisted_surface_members, generation_after, next_generation_of,
}
use home_lighting_manager.Observer.Restart.{
  latest_boundary, crossed_nightly_boundary, manual_ownership_survives_restart, restart_evidence,
  note_evidence, evidence_from, manual_recovery_evidence, float_near, floats_near, floats_match,
  float_tuple_matches,
}
use home_lighting_manager.Observer.Events.{
  nightly_boundary_settling, with_facts, normalize_observation, refresh_topology_cache,
  members_for_event, clear_post_boundary_off, note_leaf, observe_now,
}
use home_lighting_manager.Observer.Handler.{
  correlate, record_external_topology, take_observation, convert_change, state_changed,
  handle_nightly_boundary, reset_observer,
}
use home_lighting_manager.Promotion.Pending.{
  managed_group_members, managed_of, armed_members, is_group_manual, all_group_manual,
  holds_surface, surface_group_off_hold, held_entities, is_fresh, pending_intent_entities,
  cancel_singles, cancel_groups, drop_pending, prune_pending, forget_burst,
  managed_membership_changed, clear_provisional, is_new_burst, snapshot_group_topology,
  commissioned_surfaces, reset_for_cross_surface,
}
use home_lighting_manager.Promotion.Single.{
  promoted_observation, note_decision, close_single, apply_single_promotion,
}
use home_lighting_manager.Promotion.Evidence.{
  correlated_evidence, scoped_causal_evidence, source_of, collect as evidence_collect,
  one_generation, oldest, newest, within_window, checked_off, retained_surface_off_members,
  least_sequence, group_operation, with_outcome, run_operation,
}
use home_lighting_manager.Promotion.Group.{
  conclude_armed, submit_armed, armed_evidence, armed_source, armed_group, promote_armed_group_off,
}
use home_lighting_manager.Promotion.Owned.{
  consume_retained, close_owned, submit_owned, owned_evidence, owned_source,
  promote_owned_manual_group_off,
}
use home_lighting_manager.Common.Dict.{lookup, insert, erase}
use home_lighting_manager.Common.{string_discrete, pair_discrete, option_discrete}
use home_lighting_manager.Common.Int.{ℤ_discrete}
use native.Mathlib.Decide.{ℕ_discrete}

unfoldable pub program : Unit {0}
unfolding ◌>>=◌ for_each insert_sorted sorted_set show scale float_eq float_between get? get_or
    is_bounded_str appearance_of appearance_eq type_is_bool is_brightness is_kelvin component_valid
    components_valid color_valid is_mode mode_is mode_backed is_valid kind_value off_action_value
    group_off_action_value is_homeowner_kind is_manual is_manual_off is_overlay is_automatic
    layer_eq session_eq token_eq is_recovery is_explicit is_unattributed exclusion classify_kind
    classify_intent new_engine changed invalidate_work work_token is_current_work is_stale
    is_current_generation layers is_light_id accepts_entity session_live family_eligible
    session_matches session_eligible root_eligible parent_eligible eligible_under layer_eligible
    resolve resolved_entity entity_ids family_sessions ended_family_sessions group_off_sequences
    removal discard_group_off discard_groups clear_group_off reset_group_off_sequence
    disarm_overlapping reset_group_off_for_members discard_overlaps invalidate_overlaps keep_stack
    keep_where remove_where remove_layer remove_owner remove_homeowner_exceptions remove_matching
    remove_everywhere evening_activation in_session retire drop_session close_session end_session
    end_family end_sessions_of write_session open_session admit_session choose_sequence
    sequence_differs start_new start_family write_family suppress_session suppress_found
    suppress_family identity updates collides session_key check_sequence attach_session set_default
    replace_first insert_before remove_first update_layer place_layer store_layer push_refusal push
    move_before without admit_manual is_system_kind blocks activate_admitted activate_automatic
    new_layer_id manual_off_layer push_manual_off release_manual manual_release peel_session
    create_manual_off peel apply_off suppress_named suppress_exposed group_manual_off
    second_group_off release_all make_room arm first_group_off is_armed group_phase commit_group_off
    apply_group_off sweep homeowner_reason clear_suppression clear_suppressions
    reset_homeowner_control expire_boundary next_generation reconfigure pop_stacks current_scope
    change_scope rescope update_managed_entities new_operations take_chars insert_member
    sort_members eligible_members skipped_members all_distinct scope_valid tracked_count
    early_refusal appearance_incomplete late_refusal tag_layer tag_exposed_manual manual_layer
    override_session override_exposed admit is_explicit_admission apply_appearance apply_offs
    apply_appearances apply_group apply_singles apply_all_off effect sync_generation rejected
    note_rejection reject oldest_sequence consume record_sequences operation_record finish committed
    commit conclude settle proceed run roll_back apply appearance_mismatch restored_layer
    weigh_layer recover_layer recover_family_session is_aggregate is_leaf_propagation same_list
    external_intent_candidate is_exact exact_aggregates only_observed resolve_unique_exact_group
    new_correlator reset leaves_of aggregates_of aggregate_members topology_of summarize summary_of
    summary outside_window current_burst join_burst observe appearance_fields serialize_layer
    serialize_session layer_record entity_records layer_records session_records serialize_state
    bounded_str plain_int positive text_or_null provenance text_of parse_kind normalize_color
    keywords_known deserialize_appearance parse_appearance layer_of_fields deserialize_layer
    parse_bool session_of_fields deserialize_session key_text count_of with_entity layer_trusted
    accept_entity_layer accept_layer accept_session collect rejected_payload is_supported
    accepted_payload parse_lists deserialize_state new_runtime reserve_sequence is_homeowner_intent
    counts_as_homeowner count_result close_recovery observe_operation ingress operation_of
    runtime_observe managed_entities export_persistence register_suppression reset_control
    update_scope is_protected reconciliation_protected_entities diagnostics reject_manual
    reject_session count_restored restore_recovered restore_entity restore_value restore_layer
    restore_session restore_family begin_recovery restore_all restore underlying_automatic view_of
    group_views effective_ownership round_to_double distance numbers_near options_near near all_near
    keys_of characters elements options_all_near color_near deviation_of expected_state diff_state
    static_diff texts targets commands_in_call commands_in_step commands_in item report_difference
    repair_static turn_off_each nested scene_on note_difference compare_action compare_actions
    scene_command repair_scene check_scene verify_scene baseline liquor_white verify_command
    verify_baseline skip verify_owner note_pending verify_members verify_surface verify_surfaces
    verify retryable_evidence_gap schedule close interrupt note_failure note_day note_check
    note_owners owner_names day_of go_on note_repair repair_all loop_settle give_up judge examined
    with_owners attempts finish_run loop_run attribution_source_from_context optional_int
    items_of_length to_double floats_of all_ints tuple_or_null then_floats then_ints optional_tuple
    optional_int_tuple optional_text appearance_from_state evidence_of bare_observation
    command_evidence command_observation observation_from_state_change lights_of without_repeats
    membership_container members_of_container member_entity_ids member_entity_ids_for_observation
    member_entity_ids_for_event snapshot_topology_cache append_receipt surface_of_guard accept_each
    register_for register_renderer_command_consequences latest_guard prune_receipts
    active_guard_for_ha_consequence mark_consequence apply_ha_guard_attribution membership_same_list
    adopt await_removal review_known observed_members review_surface review_surfaces current_members
    set_defaults refresh_manual_precedence boundary_managed_entities desired_entities settle_members
    seed_surface seed_surfaces seed_surface_membership review_of scope_moved forget_removed
    apply_membership reconcile_surface_membership fields_of list_of list_at dict_at light_items
    within persisted_surface_seen_members surface_items persisted_from persisted_surface_members
    generation_after next_generation_of latest_boundary crossed_nightly_boundary
    manual_ownership_survives_restart restart_evidence note_evidence evidence_from
    manual_recovery_evidence float_near floats_near floats_match float_tuple_matches
    nightly_boundary_settling with_facts normalize_observation refresh_topology_cache
    members_for_event clear_post_boundary_off note_leaf observe_now correlate
    record_external_topology take_observation convert_change state_changed handle_nightly_boundary
    reset_observer managed_group_members managed_of armed_members is_group_manual all_group_manual
    holds_surface surface_group_off_hold held_entities is_fresh pending_intent_entities
    cancel_singles cancel_groups drop_pending prune_pending forget_burst managed_membership_changed
    clear_provisional is_new_burst snapshot_group_topology commissioned_surfaces
    reset_for_cross_surface promoted_observation note_decision close_single apply_single_promotion
    correlated_evidence scoped_causal_evidence source_of evidence_collect one_generation oldest
    newest within_window checked_off retained_surface_off_members least_sequence group_operation
    with_outcome run_operation conclude_armed submit_armed armed_evidence armed_source armed_group
    promote_armed_group_off consume_retained close_owned submit_owned owned_evidence owned_source
    promote_owned_manual_group_off lookup insert erase string_discrete pair_discrete option_discrete
    ℤ_discrete ℕ_discrete
program = tt
