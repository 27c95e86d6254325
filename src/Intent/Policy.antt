-- ===== src/Intent/Policy.antt =====
-- What `classify_intent` admits, against a list of conditions.
use home_lighting_manager.Common.{true, false, ◌≡◌, ◌↔◌, ◌⊎◌, inl, inr, arith}
use home_lighting_manager.Intent.{
  IntentAttributionSource, IntentEvidenceKind, IntentDisposition, IntentEvidence, classify_intent,
}

-- Evidence whose kind and attribution make it the homeowner's own.
abbrev pub IsHomeowner : IntentEvidence → Type 0
IsHomeowner e =
    (e.succeeded ≡ true)
    × (e.attribution_coherent ≡ true)
    × (e.renderer_consequence ≡ false)
    × (e.aggregate_receipt ≡ false)
    × ((e.kind ≡ IntentEvidenceKind.explicit_homeowner_command)
        ⊎ ((e.kind ≡ IntentEvidenceKind.correlated_external_homeowner_command)
            × (e.attribution_source ≡ IntentAttributionSource.unattributed_external)
            × (e.has_user_id ≡ false)
            × (e.has_parent_id ≡ false)
            × (e.structural_activity ≡ false)
            × (e.structural_state_unknown ≡ false)
            × (e.scene_guard_active ≡ false)
            × (e.scene_rendering ≡ false)
            × (e.boundary_settling ≡ false)
            × (e.boundary_shutdown_pending ≡ false)
            × (e.dynamic_telemetry ≡ false)))

allows_of :
    (e : IntentEvidence) → (classify_intent e).allows_homeowner_mutation ≡ true → IsHomeowner e
unfolding classify_intent
allows_of e h = ground arith

allowed_by :
    (e : IntentEvidence) → IsHomeowner e → (classify_intent e).allows_homeowner_mutation ≡ true
unfolding classify_intent
allowed_by e (s, c, r, a, inl k) = ground arith
allowed_by e (s, c, r, a, inr k) = ground arith

-- Evidence is allowed to change ownership exactly when it is a successful and coherent command that
-- is neither a renderer's consequence nor an aggregate receipt, and is either explicit, or an
-- unattributed external one with no user and no parent while no temporal exclusion applies.
pub classify_intent-allows_iff :
    (e : IntentEvidence) → ((classify_intent e).allows_homeowner_mutation ≡ true) ↔ IsHomeowner e
classify_intent-allows_iff e = (allows_of e, allowed_by e)

-- The permission to change ownership and the disposition `homeowner_intent` are given together.
pub classify_intent-disposition_iff :
    (e : IntentEvidence)
    → ((classify_intent e).disposition ≡ IntentDisposition.homeowner_intent)
      ↔ ((classify_intent e).allows_homeowner_mutation ≡ true)
unfolding classify_intent
classify_intent-disposition_iff e = (λ h. ground arith, λ h. ground arith)
