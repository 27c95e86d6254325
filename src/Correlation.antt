-- ===== src/Correlation.antt =====
-- custom_components/home_lighting_manager/attribution_correlation.py: bursts of unattributed
-- external observations and their topology. Times are in microseconds, the resolution of datetime.
pub mod Group
pub mod Burst
use home_lighting_manager.Common.{
  ℕ, ◌-◌, String, Bool, true, false, not, ◌&&◌, ◌||◌, Option, none, some, List, [], ◌∷◌, ◌++◌, map,
  ◌==◌, string_eq, nat_eq, if◌then◌else◌, length, filter, contains, take, leb, ltb, any,
}
use home_lighting_manager.Common.Dict.{Dict}
use home_lighting_manager.Common.Action.{Result, ok, err}
use home_lighting_manager.Common.Text.{Names, sorted_set, same_set}
use home_lighting_manager.Engine.Groups.{is_nonempty}

pub data ExternalBurstTopology : Type 0 where
  isolated_leaf leaf_with_aggregate_propagation : ExternalBurstTopology
  multi_leaf_with_aggregate_propagation multi_leaf_churn : ExternalBurstTopology
  aggregate_only mixed_unresolved : ExternalBurstTopology

pub record ExternalTopologyEvent : Type 0 where
  pub timestamp : ℕ
  pub entity_id : String
  pub member_entity_ids : List String

unfoldable pub is_aggregate : ExternalTopologyEvent → Bool
is_aggregate event = is_nonempty event.member_entity_ids

pub record ExternalBurstSummary : Type 0 where
  pub started_at : ℕ
  pub updated_at : ℕ
  pub topology : ExternalBurstTopology
  pub event_count : ℕ
  pub unique_entity_count : ℕ
  pub leaf_entities : List String
  pub aggregate_entities : List String
  pub propagated_leaf_entities : List String

-- The dict of `external_intent_candidate`, less the topology's name.
pub record IntentCandidate : Type 0 where
  pub qualified : Bool
  pub entity_id : Option String
  pub basis : String
  pub evidence_topology : ExternalBurstTopology
  pub promoted_to_homeowner : Bool

unfoldable pub is_leaf_propagation : ExternalBurstTopology → Bool
is_leaf_propagation ExternalBurstTopology.leaf_with_aggregate_propagation = true
is_leaf_propagation _ = false

-- equality of two sequences of texts
unfoldable pub same_list : List String → List String → Bool
same_list [] [] = true
same_list [] (_ ∷ _) = false
same_list (_ ∷ _) [] = false
same_list (a ∷ l) (b ∷ m) = a == b && same_list l m

abbrev pub first_of : List String → Option String
first_of [] = none
first_of (a ∷ _) = some a

unfoldable pub external_intent_candidate : ExternalBurstSummary → IntentCandidate
external_intent_candidate s =
    let qualified =
      is_leaf_propagation s.topology
      && (length s.leaf_entities == 1 && same_list s.propagated_leaf_entities s.leaf_entities) in
    record {
      qualified = qualified;
      entity_id = if qualified then first_of s.leaf_entities else none;
      basis =
          if qualified
          then "single_leaf_with_aggregate_propagation"
          else "insufficient_topology_evidence";
      evidence_topology = s.topology;
      promoted_to_homeowner = false;
    }

-- The membership of an aggregate is the set of the leaves.
unfoldable pub is_exact : Names → List String → Bool
is_exact leaves members = length members == length (sorted_set leaves) && same_set members leaves

unfoldable pub exact_aggregates : Names → Dict String (List String) → List String
exact_aggregates leaves [] = []
exact_aggregates leaves ((aggregate, members) ∷ topology) =
    if is_exact leaves members
    then aggregate ∷ exact_aggregates leaves topology
    else exact_aggregates leaves topology

-- The one exact aggregate, if it was observed.
unfoldable pub only_observed : List String → List String → Option String
only_observed observed [] = none
only_observed observed (g ∷ []) = if contains g observed then some g else none
only_observed observed (_ ∷ _ ∷ _) = none

unfoldable pub resolve_unique_exact_group :
    List String → List String → Dict String (List String) → Option String
resolve_unique_exact_group leaves observed topology =
    if ltb (length leaves) 2
    then none
    else only_observed observed (sorted_set (exact_aggregates leaves topology))

-- `ExternalBurstCorrelator`; the window is in microseconds
pub record Correlator : Type 0 where
  pub window : ℕ
  pub events : List ExternalTopologyEvent
  pub last_timestamp : Option ℕ
  pub overflow : Bool

unfoldable pub new_correlator : ℕ → Result Correlator
new_correlator window =
    if window == 0
    then err "window_seconds must be positive"
    else ok (record { window = window; events = []; last_timestamp = none; overflow = false })

unfoldable pub reset : Correlator → Correlator
reset c = record c { events = []; last_timestamp = none; overflow = false }

abbrev pub event_ids : List ExternalTopologyEvent → List String
event_ids = map (λ event. event.entity_id)

unfoldable pub leaves_of : List ExternalTopologyEvent → List String
leaves_of events = sorted_set (event_ids (filter (λ event. not (is_aggregate event)) events))

unfoldable pub aggregates_of : List ExternalTopologyEvent → List String
aggregates_of events = sorted_set (event_ids (filter is_aggregate events))

unfoldable pub aggregate_members : List ExternalTopologyEvent → List String
aggregate_members [] = []
aggregate_members (event ∷ events) = event.member_entity_ids ++ aggregate_members events

-- The ladder of `summary` over the leaves, the aggregates and the propagated leaves.
unfoldable pub topology_of : Bool → List String → List String → List String → ExternalBurstTopology
topology_of overflow leaves aggregates propagated =
    if overflow
    then ExternalBurstTopology.mixed_unresolved
    else if is_nonempty leaves && not (is_nonempty aggregates)
    then (if length leaves == 1
        then ExternalBurstTopology.isolated_leaf
        else ExternalBurstTopology.multi_leaf_churn)
    else if is_nonempty aggregates && not (is_nonempty leaves)
    then ExternalBurstTopology.aggregate_only
    else if length leaves == 1 && same_list propagated leaves
    then ExternalBurstTopology.leaf_with_aggregate_propagation
    else if ltb 1 (length leaves) && same_set propagated leaves
    then ExternalBurstTopology.multi_leaf_with_aggregate_propagation
    else ExternalBurstTopology.mixed_unresolved

abbrev pub last_time : ExternalTopologyEvent → List ExternalTopologyEvent → ℕ
last_time event [] = event.timestamp
last_time event (next ∷ events) = last_time next events

unfoldable pub summarize :
    Bool → ExternalTopologyEvent → List ExternalTopologyEvent → ExternalBurstSummary
summarize overflow first events =
    let all = first ∷ events in
    let leaves = leaves_of all in
    let propagated = filter (λ leaf. contains leaf (aggregate_members all)) leaves in
    record {
      started_at = first.timestamp;
      updated_at = last_time first events;
      topology = topology_of overflow leaves (aggregates_of all) propagated;
      event_count = length all;
      unique_entity_count = length (sorted_set (event_ids all));
      leaf_entities = leaves;
      aggregate_entities = aggregates_of all;
      propagated_leaf_entities = propagated;
    }

unfoldable pub summary_of : Bool → List ExternalTopologyEvent → Result ExternalBurstSummary
summary_of overflow [] = err "no external events have been observed"
summary_of overflow (first ∷ events) = ok (summarize overflow first events)

unfoldable pub summary : Correlator → Result ExternalBurstSummary
summary c = summary_of c.overflow c.events

-- `delta < 0 or delta > self.window_seconds`; there is a last time whenever there are events.
unfoldable pub outside_window : ℕ → Option ℕ → ℕ → Bool
outside_window window none now = false
outside_window window (some last) now = ltb now last || ltb window (now - last)

-- The burst that an event joins: the current one, or a new one.
unfoldable pub current_burst : Correlator → ℕ → Correlator
current_burst c now =
    if is_nonempty c.events && outside_window c.window c.last_timestamp now
    then record c { events = []; overflow = false }
    else c

unfoldable pub join_burst : ExternalTopologyEvent → Correlator → Correlator
join_burst event c = record c {
  last_timestamp = some event.timestamp;
  overflow =
      if leb 128 (length c.events) || ltb 256 (length event.member_entity_ids)
      then true
      else c.overflow;
  events =
      if ltb (length c.events) 128
      then c.events ++ record event { member_entity_ids = take 256 event.member_entity_ids } ∷ []
      else c.events;
}

unfoldable pub observe :
    ExternalTopologyEvent → Correlator → Result ExternalBurstSummary × Correlator
observe event c = let c' = join_burst event (current_burst c event.timestamp) in (summary c', c')
