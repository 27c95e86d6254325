-- ===== src/Promotion/Evidence.antt =====
-- promotion_observer.py: the evidence that a promotion rests on, and the operation that it becomes.
use Prim.Native.String.{◌++◌ as ◌+++◌}
use home_lighting_manager.Common.{
  ℕ, ◌-◌, String, Bool, true, false, not, ◌&&◌, ◌||◌, Option, none, some, List, [], ◌∷◌,
  if◌then◌else◌, ◌==◌, string_eq, nat_eq, option_eq, leb, ltb, all, map, max,
}
use home_lighting_manager.Common.Dict.{lookup}
use home_lighting_manager.Common.Text.{show}
use home_lighting_manager.Intent.{
  IntentAttributionSource, IntentEvidenceKind, IntentEvidence, IntentDecision,
}
use home_lighting_manager.Operations.Record.{HomeownerOperation, MemberOutcome, OperationResult}
use home_lighting_manager.Shadow.Runtime.{observe_operation, is_homeowner_intent}
use home_lighting_manager.Observer.Events.{Surroundings, state_is}
use home_lighting_manager.Promotion.{Source, group_off_window, PendingLeaf, Promotion}

-- `_correlated_homeowner_evidence`
unfoldable pub correlated_evidence : IntentEvidence
correlated_evidence = record {
  kind = IntentEvidenceKind.correlated_external_homeowner_command;
  succeeded = true;
  attribution_coherent = true;
  attribution_source = IntentAttributionSource.unattributed_external;
  has_user_id = false;
  has_parent_id = false;
  renderer_consequence = false;
  aggregate_receipt = false;
  boundary_settling = false;
  boundary_shutdown_pending = false;
  scene_rendering = false;
  dynamic_telemetry = false;
  structural_activity = false;
  structural_state_unknown = false;
  scene_guard_active = false;
}

abbrev sync_active : Surroundings → Option String → Bool
unfolding lookup
sync_active w none = false
sync_active w (some sensor) = state_is "on" (lookup sensor w.states)

abbrev sync_unknown : Surroundings → Option String → Bool
unfolding lookup
sync_unknown w none = false
sync_unknown w (some sensor) =
    not (state_is "on" (lookup sensor w.states) || state_is "off" (lookup sensor w.states))

-- `_scoped_causal_evidence`
unfoldable pub scoped_causal_evidence : Surroundings → Source → String → IntentEvidence
unfolding correlated_evidence sync_active sync_unknown lookup
scoped_causal_evidence w source operation = record correlated_evidence {
  scene_guard_active =
      operation == "appearance" && not (state_is "off" (lookup source.guard w.states));
  structural_activity = sync_active w source.sync;
  structural_state_unknown = sync_unknown w source.sync;
}

unfoldable pub source_of : String → List Source → Option Source
source_of aggregate [] = none
source_of aggregate (s ∷ l) = if s.aggregate == aggregate then some s else source_of aggregate l

-- The retained leaves of all the members, none where one is missing.
unfoldable pub collect : Promotion → List String → Option (List PendingLeaf)
unfolding lookup
collect p [] = some []
collect p (e ∷ l) = elim (lookup e p.pending) [
  | none ↦ none
  | some item ↦ elim (collect p l) [ none ↦ none | some r ↦ some (item ∷ r) ]
]

abbrev pub is_off : PendingLeaf → Bool
is_off item = item.observation.operation == "off"

-- one generation among all the items, of which there is at least one
unfoldable pub one_generation : List PendingLeaf → Bool
one_generation [] = false
one_generation (item ∷ l) =
    all (λ (i : PendingLeaf). i.observation.generation == item.observation.generation) l

unfoldable pub oldest : ℕ → List PendingLeaf → ℕ
oldest t [] = t
oldest t (item ∷ l) = oldest (if ltb item.observed_at t then item.observed_at else t) l

unfoldable pub newest : ℕ → List PendingLeaf → ℕ
newest t [] = t
newest t (item ∷ l) = newest (max t item.observed_at) l

-- `max(observed_at) - min(observed_at) <= 8 s`
unfoldable pub within_window : List PendingLeaf → Bool
unfolding oldest newest
within_window [] = false
within_window (item ∷ l) =
    leb (newest item.observed_at l - oldest item.observed_at l) group_off_window

unfoldable pub checked_off : List PendingLeaf → Option (List PendingLeaf)
unfolding one_generation within_window
checked_off l = if all is_off l && (one_generation l && within_window l) then some l else none

-- `_retained_surface_off_members`
unfoldable pub retained_surface_off_members : Promotion → List String → Option (List PendingLeaf)
unfolding collect checked_off
retained_surface_off_members p members = elim (collect p members) [
  | none ↦ none
  | some l ↦ checked_off l
]

-- The smallest sequence, none where an item has none.
unfoldable pub least_sequence : List PendingLeaf → Option ℕ
least_sequence [] = none
least_sequence (item ∷ []) = item.observation.sequence
least_sequence (item ∷ next ∷ l) = elim item.observation.sequence [
  | none ↦ none
  | some s ↦ elim (least_sequence (next ∷ l)) [
    | none ↦ none
    | some t ↦ some (if ltb s t then s else t)
  ]
]

abbrev pub generation_of : List PendingLeaf → Option ℕ
generation_of [] = none
generation_of (item ∷ _) = item.observation.generation

abbrev pub member_of : PendingLeaf → MemberOutcome
member_of item = record {
  entity_id = item.observation.entity_id;
  available = true;
  succeeded = true;
  appearance = none;
  manual_precedence = item.observation.manual_precedence;
}

unfoldable pub group_operation : String → ℕ → ℕ → String → List PendingLeaf → HomeownerOperation
unfolding correlated_evidence show
group_operation name generation sequence group retained = record {
  operation_id = name +++ (":" +++ (show generation +++ (":" +++ show sequence)));
  sequence = sequence;
  generation = generation;
  kind = "off";
  evidence = correlated_evidence;
  members = map member_of retained;
  group_id = some group;
  expected = none;
  require_legacy_policy = false;
}

-- `candidate.update(_promotion_outcome(result))`, over the other entries
unfoldable pub with_outcome :
    String → String → IntentDecision → Bool → String → Promotion → Promotion
unfolding is_homeowner_intent
with_outcome group basis intent mutated reason p = record p {
  candidate = record {
    group_id = some group;
    basis = basis;
    promoted = is_homeowner_intent intent.disposition;
    recorded = mutated;
    reason = reason;
  };
}

unfoldable pub run_operation : HomeownerOperation → Promotion → OperationResult × Promotion
run_operation op p =
    let (result, runtime) = observe_operation op p.session.observer.runtime in
    (
      result,
      record p {
        session = record p.session { observer = record p.session.observer { runtime = runtime } };
      },
    )
