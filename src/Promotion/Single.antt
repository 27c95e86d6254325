-- ===== src/Promotion/Single.antt =====
-- promotion_observer.py, `_apply_single_promotion`: a retained leaf goes to the runtime as correlated evidence.
use home_lighting_manager.Common.{String, Bool, true, some, none, [], ◌∷◌, if◌then◌else◌, string_eq}
use home_lighting_manager.Common.Dict.{erase}
use home_lighting_manager.Intent.{IntentEvidenceKind}
use home_lighting_manager.Correlation
use home_lighting_manager.Shadow.Runtime.{
  ShadowObservation, ShadowDecision, observe, is_homeowner_intent,
}
use home_lighting_manager.Observer.Events.{clear_post_boundary_off}
use home_lighting_manager.Promotion.{PendingLeaf, SingleKey, Promotion}

unfoldable pub promoted_observation : ShadowObservation → ShadowObservation
promoted_observation o = record o {
  evidence = record o.evidence {
    kind = IntentEvidenceKind.correlated_external_homeowner_command;
    attribution_coherent = true;
  };
}

-- The outcome of the decision, written to the candidate.
unfoldable pub note_decision : SingleKey → ShadowDecision → Promotion → Promotion
unfolding is_homeowner_intent
note_decision key d p = record p {
  candidate = record p.candidate {
    promoted = is_homeowner_intent d.intent.disposition;
    recorded = d.mutated;
    reason = d.reason;
  };
  last_key = some key;
}

-- The leaf is retained no more, whatever the decision; where it mutates, the correlation ends.
unfoldable pub close_single : String → Bool → Promotion → Promotion
unfolding erase clear_post_boundary_off Correlation.reset
close_single entity mutated p =
    let q = record p { pending = erase entity p.pending } in
    if mutated
    then record q {
      session = record (clear_post_boundary_off (entity ∷ []) q.session) {
        correlator = Correlation.reset q.session.correlator;
      };
      last_observed_at = none;
    }
    else q

unfoldable pub apply_single_promotion :
    SingleKey → PendingLeaf → Promotion → ShadowDecision × Promotion
unfolding promoted_observation note_decision close_single observe
apply_single_promotion key leaf p =
    let (d, runtime) = observe (promoted_observation leaf.observation) p.session.observer.runtime in
    let decided = record p {
      session = record p.session {
        observer = record p.session.observer { runtime = runtime };
        last_decision = some d;
      };
    } in
    (d, close_single leaf.observation.entity_id d.mutated (note_decision key d decided))
