-- ===== src/Promotion/Owned/Released.antt =====
-- When the OFF of an owned surface is submitted, and what is submitted.
use mathlib.Core.Path.{subst}
use mathlib.Core.Option.{some-injective}
use home_lighting_manager.Common.{
  ℕ, String, Bool, true, false, not, ◌&&◌, ◌||◌, Option, none, some, List, [], ◌∷◌, ◌≡◌, refl, sym,
  ◌∙◌, ap, arith, if◌then◌else◌, ◌==◌, string_eq, all, length, nat_eq, Bool-cases, Option-cases,
  inl, inr,
}
use home_lighting_manager.Intent.{classify_intent}
use home_lighting_manager.Operations.Record.{OperationResult}
use home_lighting_manager.Shadow.Runtime.{observe_operation}
use home_lighting_manager.Observer.Events.{Surroundings, clear_post_boundary_off}
use home_lighting_manager.Promotion.{Source, scene_recall_sources, PendingLeaf, Promotion}
use home_lighting_manager.Promotion.Pending.{
  managed_group_members, all_group_manual, cancel_singles,
}
use home_lighting_manager.Promotion.Window.{runtime_of}
use home_lighting_manager.Promotion.Evidence.{
  scoped_causal_evidence, source_of, collect, is_off, one_generation, within_window, checked_off,
  retained_surface_off_members, generation_of, least_sequence, group_operation, with_outcome,
  run_operation,
}
use home_lighting_manager.Promotion.Owned.{
  consume_retained, close_owned, submit_owned, owned_evidence, owned_source,
  promote_owned_manual_group_off,
}

consume_retained-runtime :
    (members : List String) (l : List PendingLeaf) (p : Promotion)
    → runtime_of (consume_retained members l p) ≡ runtime_of p
unfolding consume_retained
consume_retained-runtime [] l p = refl
consume_retained-runtime (e ∷ members) [] p = refl
consume_retained-runtime (e ∷ members) (item ∷ l) p =
    consume_retained-runtime members l _ ∙ ground arith

close_owned-runtime :
    (group : String) (result : OperationResult) (p : Promotion)
    → runtime_of (close_owned group result p) ≡ runtime_of p
unfolding close_owned clear_post_boundary_off
close_owned-runtime group result p = ground arith

checked_off-of :
    (m l : List PendingLeaf)
    → checked_off m ≡ some l
    → (m ≡ l) × (all is_off l ≡ true) × (one_generation l ≡ true) × (within_window l ≡ true)
unfolding checked_off
checked_off-of m l h = elim (Bool-cases (all is_off m && (one_generation m && within_window m))) [
  | inl t ↦
      let same = some-injective m l (ground (arith, h, t)) in
      (
        same,
        subst (λ k. all is_off k ≡ true) same (ground (arith, t)),
        subst (λ k. one_generation k ≡ true) same (ground (arith, t)),
        subst (λ k. within_window k ≡ true) same (ground (arith, t)),
      )
  | inr f ↦ absurd (ground (arith, h, f))
]

retained-checked :
    (p : Promotion) (members : List String) (l : List PendingLeaf)
    → retained_surface_off_members p members ≡ some l
    → (collect p members ≡ some l)
      × (all is_off l ≡ true)
      × (one_generation l ≡ true)
      × (within_window l ≡ true)
unfolding retained_surface_off_members
retained-checked p members l h = elim (Option-cases (collect p members)) [
  | inl missing ↦ absurd (ground (arith, h, missing))
  | inr (m, found) ↦
      let known = checked_off-of m l (ground (arith, h, found)) in
      (found ∙ ap some known.0, known.1, known.2, known.3)
]

-- What the OFF of an owned surface rests on.
pub record IsOwned (w : Surroundings) (group : String) (members : List String)
    (retained : List PendingLeaf) (p : Promotion) : Type 0 where
  pub allowed :
      (source : Source) × (source_of group scene_recall_sources ≡ some source)
      × ((classify_intent (scoped_causal_evidence w source "off")).allows_homeowner_mutation ≡ true)
  pub manual : all_group_manual p group members ≡ true
  pub complete : collect p members ≡ some retained
  pub all_off : all is_off retained ≡ true
  pub coherent : one_generation retained ≡ true
  pub timely : within_window retained ≡ true

module _ (w : Surroundings) (group : String) (members : List String) (p : Promotion) where
  abbrev pub IsReleased : Option OperationResult × Promotion → Type 0
  IsReleased (none, q) = q ≡ p
  IsReleased (some result, q) =
      (retained : List PendingLeaf) × (g : ℕ) × (s : ℕ) × IsOwned w group members retained p
      × (generation_of retained ≡ some g)
      × (least_sequence retained ≡ some s)
      × ((result, runtime_of q)
          ≡ observe_operation (group_operation "external-owned-group-off" g s group retained)
              (runtime_of p))

  if-IsReleased :
      (b : Bool) (x : Option OperationResult × Promotion)
      → (b ≡ false → IsReleased x)
      → IsReleased (if b then (none, p) else x)
  if-IsReleased true x h = refl
  if-IsReleased false x h = h refl

  submit_owned-IsReleased :
      (retained : List PendingLeaf) (generation sequence : Option ℕ)
      → generation ≡ generation_of retained
      → sequence ≡ least_sequence retained
      → IsOwned w group members retained p
      → IsReleased (submit_owned group members retained generation sequence p)
  unfolding submit_owned cancel_singles with_outcome
  submit_owned-IsReleased retained none sequence g s h = refl
  submit_owned-IsReleased retained (some generation) none g s h = refl
  submit_owned-IsReleased retained (some generation) (some sequence) g s h =
      let op = group_operation "external-owned-group-off" generation sequence group retained in
      let (result, q) = run_operation op (cancel_singles members p) in
      let noted =
        with_outcome group "owned_manual_group_off_with_aggregate_propagation" result.intent
          result.mutated result.reason q in
      let same =
        close_owned-runtime group result (consume_retained members retained noted)
        ∙ consume_retained-runtime members retained noted in
      (retained, generation, sequence, h, sym g, sym s, λ i. (result, same i))

  owned_evidence-IsReleased :
      (retained : Option (List PendingLeaf))
      → retained ≡ retained_surface_off_members p members
      → all_group_manual p group members ≡ true
      → ((source : Source) × (source_of group scene_recall_sources ≡ some source)
          × ((classify_intent (scoped_causal_evidence w source "off")).allows_homeowner_mutation
              ≡ true))
      → IsReleased (owned_evidence group members retained p)
  unfolding owned_evidence
  owned_evidence-IsReleased none e m a = refl
  owned_evidence-IsReleased (some l) e m a =
      let (complete, off, one, timely) = retained-checked p members l (sym e) in
      submit_owned-IsReleased l (generation_of l) (least_sequence l) refl refl (record {
        allowed = a;
        manual = m;
        complete = complete;
        all_off = off;
        coherent = one;
        timely = timely;
      })

  owned_source-IsReleased :
      (source : Option Source)
      → source ≡ source_of group scene_recall_sources
      → IsReleased (owned_source w group members source p)
  unfolding owned_source
  owned_source-IsReleased none e = refl
  owned_source-IsReleased (some source) e =
      if-IsReleased
        (not (classify_intent (scoped_causal_evidence w source "off")).allows_homeowner_mutation) _
        λ allowed. if-IsReleased (not (all_group_manual p group members)) _ λ manual.
          owned_evidence-IsReleased (retained_surface_off_members p members) refl
            (ground (arith, manual)) (source, sym e, ground (arith, allowed))

-- The OFF of an owned surface either returns False and changes nothing of the promotion, or is submitted. It is
-- submitted only if the aggregate is one of the surfaces, the policy allows it at present, each managed one of the
-- reported members exposes a Manual layer of the surface, and each of them has a retained OFF, all of one generation
-- and within eight seconds. What is submitted is one operation of the runtime with these members, their
-- generation and the least of their sequences, and its result is the runtime's.
pub promote_owned-IsReleased :
    (w : Surroundings) (operation group : String) (members : List String) (p : Promotion)
    → IsReleased w group
        (managed_group_members p members)
        p
        (promote_owned_manual_group_off w operation group members p)
unfolding promote_owned_manual_group_off
promote_owned-IsReleased w operation group members p =
    if-IsReleased w group _ p (not (operation == "off") || length members == 0) _
      λ _. owned_source-IsReleased w group _ p (source_of group scene_recall_sources) refl
