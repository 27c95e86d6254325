-- ===== src/Promotion/Exact.antt =====
-- When an armed group OFF is submitted, and what it leaves.
use mathlib.Core.Path.{subst}
use mathlib.Core.Option.{some-injective}
use home_lighting_manager.Common.{
  ℕ, String, Bool, true, false, not, ◌&&◌, Option, none, some, List, ◌≡◌, refl, sym, ◌∙◌, ap, arith,
  if◌then◌else◌, ◌==◌, string_eq, contains, all, length, nat_eq,
}
use home_lighting_manager.Common.Dict.{lookup}
use home_lighting_manager.Common.Text.{sorted_set}
use home_lighting_manager.Intent.{classify_intent}
use home_lighting_manager.Engine.State.{group_off_sequences}
use home_lighting_manager.Operations.Record.{OperationResult}
use home_lighting_manager.Correlation.{same_list}
use home_lighting_manager.Shadow.Runtime.{observe_operation}
use home_lighting_manager.Observer.Events.{Surroundings}
use home_lighting_manager.Promotion.{Source, scene_recall_sources, PendingLeaf, Promotion}
use home_lighting_manager.Promotion.Pending.{
  engine_now, managed_group_members, cancel_singles, cancel_groups, drop_pending, forget_burst,
}
use home_lighting_manager.Promotion.Window.{runtime_of, drop_pending-runtime, drop_pending-lookup}
use home_lighting_manager.Promotion.Evidence.{
  scoped_causal_evidence, source_of, collect, is_off, one_generation, within_window, least_sequence,
  generation_of, group_operation, with_outcome, run_operation,
}
use home_lighting_manager.Promotion.Group.{
  ArmedOutcome, rejected, submitted, raised, conclude_armed, submit_armed, armed_evidence,
  armed_source, armed_group, promote_armed_group_off,
}

conclude_armed-runtime :
    (group : String) (result : OperationResult) (q : Promotion)
    → runtime_of (conclude_armed group result q) ≡ runtime_of q
unfolding conclude_armed forget_burst with_outcome
conclude_armed-runtime group result q = ground arith

conclude_armed-pending :
    (group : String) (result : OperationResult) (q : Promotion)
    → (conclude_armed group result q).pending ≡ q.pending
unfolding conclude_armed forget_burst with_outcome
conclude_armed-pending group result q = ground arith

-- What a submission rests on: the group is armed, its managed members are the armed ones, each of them has
-- a retained OFF of one generation, and what the policy and the window ask of a surface.
pub record IsSupported (w : Surroundings) (group : String) (members armed : List String)
    (retained : List PendingLeaf) (p : Promotion) : Type 0 where
  pub is_armed : lookup group (group_off_sequences (engine_now p)) ≡ some armed
  pub exact : same_list (managed_group_members p members) (sorted_set armed) ≡ true
  pub complete : collect p (sorted_set armed) ≡ some retained
  pub all_off : all is_off retained ≡ true
  pub coherent : one_generation retained ≡ true
  pub surface :
      (source : Source)
      → source_of group scene_recall_sources ≡ some source
      → ((classify_intent (scoped_causal_evidence w source "off")).allows_homeowner_mutation ≡ true)
        × (within_window retained ≡ true)

-- What a submission does: one operation of the runtime, on the retained leaves, which are retained no more.
pub record IsSubmitted (group : String) (armed : List String) (retained : List PendingLeaf)
    (p q : Promotion) (result : OperationResult) : Type 0 where
  pub ran :
      (g : ℕ) × (s : ℕ) × (generation_of retained ≡ some g)
      × (least_sequence retained ≡ some s)
      × ((result, runtime_of q)
          ≡ observe_operation
              (group_operation "external-armed-group-off" g s group retained)
              (runtime_of p))
  pub consumed : (e : String) → contains e (sorted_set armed) ≡ true → lookup e q.pending ≡ none

not-false_lem : (b : Bool) → not b ≡ false → b ≡ true
not-false_lem b h = ground (arith, h)

abbrev AllowsOff : Surroundings → Source → Type 0
AllowsOff w source =
    (classify_intent (scoped_causal_evidence w source "off")).allows_homeowner_mutation ≡ true

module _ (w : Surroundings) (group : String) (members : List String) (p : Promotion) where
  abbrev pub IsExplained : ArmedOutcome × Promotion → Type 0
  IsExplained (rejected reason, q) = q ≡ p
  IsExplained (raised, q) = q ≡ p
  IsExplained (submitted result, q) =
      (armed : List String) × (retained : List PendingLeaf) × IsSupported w group members armed
        retained p
      × IsSubmitted group armed retained p q result

  if-IsExplained :
      (b : Bool) (reason : String) (x : ArmedOutcome × Promotion)
      → (b ≡ false → IsExplained x)
      → IsExplained (if b then (rejected reason, p) else x)
  if-IsExplained true reason x h = refl
  if-IsExplained false reason x h = h refl

  submit_armed-IsExplained :
      (armed : List String) (retained : List PendingLeaf) (generation sequence : Option ℕ)
      → generation ≡ generation_of retained
      → sequence ≡ least_sequence retained
      → IsSupported w group members armed retained p
      → IsExplained (submit_armed group (sorted_set armed) retained generation sequence p)
  unfolding submit_armed
  submit_armed-IsExplained armed retained none sequence g s h = refl
  submit_armed-IsExplained armed retained (some generation) none g s h = refl
  submit_armed-IsExplained armed retained (some generation) (some sequence) g s h =
      let cleared =
        drop_pending (sorted_set armed)
          (cancel_groups (sorted_set armed) (cancel_singles (sorted_set armed) p)) in
      let op = group_operation "external-armed-group-off" generation sequence group retained in
      let (result, q) = run_operation op cleared in
      (
        armed,
        retained,
        h,
        record {
          ran = (
            generation,
            sequence,
            sym g,
            sym s,
            (λ i. (result, conclude_armed-runtime group result q i))
                ∙ ap (observe_operation op) (drop_pending-runtime (sorted_set armed) _),
          );
          consumed = λ e m.
              ap (lookup e) (conclude_armed-pending group result q)
              ∙ drop_pending-lookup e (sorted_set armed) _ m;
        },
      )

  armed_evidence-IsExplained :
      (armed : List String) (surface : Bool) (retained : Option (List PendingLeaf))
      → lookup group (group_off_sequences (engine_now p)) ≡ some armed
      → same_list (managed_group_members p members) (sorted_set armed) ≡ true
      → retained ≡ collect p (sorted_set armed)
      → ((source : Source)
          → source_of group scene_recall_sources ≡ some source
          → (surface ≡ true)
            × ((classify_intent (scoped_causal_evidence w source "off")).allows_homeowner_mutation
                ≡ true))
      → IsExplained (armed_evidence group (sorted_set armed) surface retained p)
  unfolding armed_evidence
  armed_evidence-IsExplained armed surface none a x c s = refl
  armed_evidence-IsExplained armed surface (some l) a x c s =
      if-IsExplained (not (all is_off l)) "rejected_pending_operation_not_off" _ λ off.
        if-IsExplained (not (one_generation l)) "rejected_pending_generations_mixed" _ λ one.
          if-IsExplained (surface && not (within_window l))
            "rejected_surface_off_evidence_incomplete" _
            λ timely.
              submit_armed-IsExplained armed l (generation_of l) (least_sequence l) refl refl
                (record {
                  is_armed = a;
                  exact = x;
                  complete = sym c;
                  all_off = ground (arith, off);
                  coherent = ground (arith, one);
                  surface =
                      λ source known. ((s source known).1, ground (arith, timely, s source known));
                })

  armed_source-IsExplained :
      (armed leaves : List String) (source : Option Source)
      → lookup group (group_off_sequences (engine_now p)) ≡ some armed
      → same_list (managed_group_members p members) (sorted_set armed) ≡ true
      → source ≡ source_of group scene_recall_sources
      → IsExplained (armed_source w group (sorted_set armed) leaves source p)
  unfolding armed_source
  armed_source-IsExplained armed leaves none a x e =
      if-IsExplained (not (same_list leaves (sorted_set armed))) "rejected_burst_leaves_mismatch" _
        λ _.
          armed_evidence-IsExplained armed false (collect p (sorted_set armed)) a x refl
            (λ source known. absurd (cc (e ∙ known)))
  armed_source-IsExplained armed leaves (some source) a x e =
      if-IsExplained
        (not (classify_intent (scoped_causal_evidence w source "off")).allows_homeowner_mutation)
        (classify_intent (scoped_causal_evidence w source "off")).reason _
        λ allowed.
          armed_evidence-IsExplained armed true (collect p (sorted_set armed)) a x refl
            (λ known_source known. (
              refl,
              subst (AllowsOff w) (some-injective _ _ (e ∙ known)) (not-false_lem _ allowed),
            ))

  armed_group-IsExplained :
      (leaves : List String) (armed : Option (List String))
      → lookup group (group_off_sequences (engine_now p)) ≡ armed
      → IsExplained (armed_group w group members leaves armed p)
  unfolding armed_group
  armed_group-IsExplained leaves none a = refl
  armed_group-IsExplained leaves (some armed) a =
      if-IsExplained (not (same_list (managed_group_members p members) (sorted_set armed)))
        "rejected_aggregate_members_mismatch" _
        λ exact.
          armed_source-IsExplained armed leaves (source_of group scene_recall_sources) a
            (ground (arith, exact)) refl

  -- A group OFF of the bridge either changes nothing of the promotion, where it is rejected or its evidence
  -- lacks a sequence, or is submitted. It is submitted only if the group is armed, the managed ones of the reported
  -- members are exactly the armed members, each of these has a retained OFF, all of one generation, and, for the
  -- aggregate of a surface, the policy allows it at present and the OFFs lie within eight seconds. What is submitted is one
  -- operation of the runtime with these members, their generation and the least of their sequences; its result is
  -- the runtime's, and none of the armed members is retained afterwards.
  pub promote_armed_group_off-IsExplained :
      (operation : String) (leaves : List String)
      → IsExplained (promote_armed_group_off w operation group members leaves p)
  unfolding promote_armed_group_off
  promote_armed_group_off-IsExplained operation leaves =
      if-IsExplained (not (operation == "off")) "rejected_not_off" _ λ _.
        if-IsExplained (length members == 0) "rejected_no_aggregate_members" _ λ _.
          armed_group-IsExplained leaves (lookup group (group_off_sequences (engine_now p))) refl
