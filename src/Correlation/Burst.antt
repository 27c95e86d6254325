-- ===== src/Correlation/Burst.antt =====
-- The bounds of the correlator, and what makes a burst a candidate.
use home_lighting_manager.Common.{
  ℕ, ◌≤◌, String, Bool, true, false, ◌&&◌, some, List, [], ◌∷◌, ◌≡◌, ◌⊎◌, refl, ap, arith, contains,
  length, filter, inl, inr, ◌==◌, string_eq, nat_eq, length-append, take,
}
use home_lighting_manager.Common.Action.{ok}
use home_lighting_manager.Correlation.{
  ExternalTopologyEvent, ExternalBurstSummary, ExternalBurstTopology, Correlator,
  is_leaf_propagation, same_list, external_intent_candidate, topology_of, summarize, summary_of,
  summary, current_burst, join_burst, first_of, observe, leaves_of, aggregate_members,
  aggregates_of,
}

-- the burst that the next event joins
abbrev pub joined : ExternalTopologyEvent → Correlator → Correlator
joined event c = current_burst c event.timestamp

burst-le :
    (c : Correlator) (now : ℕ) → length c.events ≤ 128 → length (current_burst c now).events ≤ 128
unfolding current_burst
burst-le c now h = ground arith

join-bounds :
    (event : ExternalTopologyEvent) (c : Correlator)
    → length c.events ≤ 128
    → (1 ≤ length (join_burst event c).events) × (length (join_burst event c).events ≤ 128)
unfolding join_burst
join-bounds event c h = ground (
  arith,
  length-append c.events
      (record event { member_entity_ids = take 256 event.member_entity_ids } ∷ []),
)

summary-answers :
    (overflow : Bool) (events : List ExternalTopologyEvent)
    → 1 ≤ length events
    → (s : ExternalBurstSummary) × (summary_of overflow events ≡ ok s)
      × (s.event_count ≡ length events)
      × ((overflow ≡ false) ⊎ (s.topology ≡ ExternalBurstTopology.mixed_unresolved))
unfolding summary_of summarize topology_of
summary-answers overflow [] h = absurd (omega (arith, h))
summary-answers true (first ∷ events) h = (summarize true first events, refl, refl, inr refl)
summary-answers false (first ∷ events) h = (summarize false first events, refl, refl, inl refl)

-- A correlator that holds at most 128 events always answers, holds between one and 128 events
-- afterwards and counts exactly those, and calls a burst that overflowed unresolved.
pub observe-answers :
    (event : ExternalTopologyEvent) (c : Correlator)
    → length c.events ≤ 128
    → (1 ≤ length (observe event c).1.events)
      × (length (observe event c).1.events ≤ 128)
      × ((s : ExternalBurstSummary) × ((observe event c).0 ≡ ok s)
          × (s.event_count ≡ length (observe event c).1.events)
          × (((observe event c).1.overflow ≡ false)
              ⊎ (s.topology ≡ ExternalBurstTopology.mixed_unresolved)))
unfolding observe summary
observe-answers event c h =
    let (some', few) = join-bounds event (joined event c) (burst-le c event.timestamp h) in
    (some', few, summary-answers _ _ some')

-- the leaves that the aggregates of a burst propagated
abbrev propagated : List String → List String → List String
propagated members leaves = filter (λ leaf. contains leaf members) leaves

single_leaf :
    (overflow : Bool) (leaves aggregates members : List String)
    → (is_leaf_propagation (topology_of overflow leaves aggregates (propagated members leaves))
        && (length leaves == 1 && same_list (propagated members leaves) leaves))
      ≡ true
    → (overflow ≡ false) × ((leaf : String) × (leaves ≡ leaf ∷ []) × (contains leaf members ≡ true))
unfolding topology_of is_leaf_propagation same_list
single_leaf overflow [] aggregates members h = ground arith
single_leaf overflow (leaf ∷ []) aggregates members h = (ground arith, (leaf, refl, ground arith))
single_leaf overflow (x ∷ y ∷ leaves) aggregates members h = ground arith

-- A burst is a candidate only if it did not overflow and has exactly one leaf, which an aggregate
-- of the burst has as a member; the candidate names that leaf and is never promoted.
pub external_intent_candidate-qualified :
    (overflow : Bool) (first : ExternalTopologyEvent) (events : List ExternalTopologyEvent)
    → (external_intent_candidate (summarize overflow first events)).qualified ≡ true
    → (overflow ≡ false)
      × ((external_intent_candidate (summarize overflow first events)).promoted_to_homeowner
          ≡ false)
      × ((leaf : String) × (leaves_of (first ∷ events) ≡ leaf ∷ [])
          × (contains leaf (aggregate_members (first ∷ events)) ≡ true)
          × ((external_intent_candidate (summarize overflow first events)).entity_id ≡ some leaf))
unfolding external_intent_candidate summarize
external_intent_candidate-qualified overflow first events h =
    let (fits, (leaf, only, member)) =
      single_leaf overflow (leaves_of (first ∷ events)) (aggregates_of (first ∷ events))
        (aggregate_members (first ∷ events)) h in
    (fits, refl, (leaf, only, member, rw h (ap first_of only)))
