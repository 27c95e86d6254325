-- ===== src/Observer/Handler/Commands.antt =====
-- Which observations can change ownership when the observer passes them on.
use home_lighting_manager.Common.{
  String, Bool, true, false, Option, none, some, List, [], ◌∷◌, ◌≡◌, arith, if◌then◌else◌,
  string_eq,
}
use home_lighting_manager.Common.Action.{Result, ok, err, ◌>>=◌, pure, modify, ◌>>◌}
use home_lighting_manager.Common.Action.Returns.{Gives, >>=-Gives}
use home_lighting_manager.Intent.{IntentEvidenceKind, IntentEvidence, classify_intent}
use home_lighting_manager.Intent.Policy.{classify_intent-allows_iff}
use home_lighting_manager.Operations.Atomic.{apply-mutated}
use home_lighting_manager.Shadow.Runtime.{
  ShadowRuntime, ShadowObservation, ShadowDecision, ingress, operation_of, observe_operation,
  observe, or_generation, engine_of,
}
use home_lighting_manager.Observer.{State}
use home_lighting_manager.Observer.Receipts.{mark_consequence, apply_ha_guard_attribution}
use home_lighting_manager.Observer.Membership.{Configuration}
use home_lighting_manager.Observer.Events.{
  Surroundings, Session, with_facts, normalize_observation, members_for_event,
  clear_post_boundary_off, shutdown_closed, with_receipt, note_leaf, observe_now,
}
use home_lighting_manager.Observer.Handler.{record_external_topology, take_observation}

-- The kinds that can be the homeowner's.
abbrev pub is_command : IntentEvidenceKind → Bool
is_command IntentEvidenceKind.explicit_homeowner_command = true
is_command IntentEvidenceKind.correlated_external_homeowner_command = true
is_command IntentEvidenceKind.hlm_command_consequence = false
is_command IntentEvidenceKind.recovery_telemetry = false
is_command IntentEvidenceKind.availability_change = false
is_command IntentEvidenceKind.physical_drift = false
is_command IntentEvidenceKind.unknown = false

abbrev pub commands : ShadowObservation → Bool
commands o = is_command o.evidence.kind

allowed-is_command :
    (e : IntentEvidence)
    → (classify_intent e).allows_homeowner_mutation ≡ true
    → is_command e.kind ≡ true
allowed-is_command e h = ground (arith, (classify_intent-allows_iff e).0 h)

mark_consequence-commands :
    (g : Option String) (o : ShadowObservation)
    → commands (mark_consequence g o) ≡ true
    → commands o ≡ true
unfolding mark_consequence
mark_consequence-commands none o h = h
mark_consequence-commands (some g) o h = ground arith

module _ (w : Surroundings) (new : State) (o : ShadowObservation) where
  normalize-commands :
      (s : Session)
      → Gives (λ n. commands n ≡ true → commands o ≡ true) (normalize_observation w new o s).0
  unfolding normalize_observation ◌>>=◌ apply_ha_guard_attribution with_facts
  normalize-commands s h = mark_consequence-commands _ o h

  note_leaf-commands :
      (s : Session) → Gives (λ n. commands n ≡ true → commands o ≡ true) (note_leaf w new o s).0
  unfolding note_leaf ◌>>=◌ members_for_event
  note_leaf-commands s = left _ _ _
    where
      left :
          (b : Bool) (l : List String) (t : Session)
          → Gives
              (λ n. commands n ≡ true → commands o ≡ true)
              ((if b
                  then modify (clear_post_boundary_off (o.entity_id ∷ []))
                    >> pure (shutdown_closed o)
                  else pure (with_receipt l o))
                t).0
      left true l t = λ h. h
      left false [] t = λ h. h
      left false (m ∷ l) t = λ h. h

observe-commands :
    (o : ShadowObservation) (r : ShadowRuntime) → (observe o r).0.mutated ≡ true → commands o ≡ true
unfolding observe observe_operation operation_of
observe-commands o r h =
    let (sequence, r') = ingress o.sequence r in
    allowed-is_command o.evidence
      (apply-mutated
        (operation_of o sequence (or_generation o.generation (engine_of r').generation))
        r'.operations h).0.allowed

observe_now-commands :
    (o : ShadowObservation) (s : Session)
    → Gives (λ d. d.mutated ≡ true → commands o ≡ true) (observe_now o s).0
unfolding observe_now ◌>>=◌
observe_now-commands o s h = observe-commands _ _ h

pub anything : (r : Result (Unit {0})) → Gives (λ _. Unit {0}) r
anything (ok _) = tt
anything (err _) = tt

-- A decision that changes ownership rests on an observation of the homeowner.
abbrev pub RestsOn : ShadowObservation → Option ShadowDecision → Type 0
RestsOn o r = (d : ShadowDecision) → r ≡ some d → d.mutated ≡ true → commands o ≡ true

pub take_observation-RestsOn :
    (c : Configuration) (w : Surroundings) (new : State) (o : ShadowObservation) (s : Session)
    → Gives (RestsOn o) (take_observation c w new o s).0
unfolding take_observation pure
take_observation-RestsOn c w new o s =
    >>=-Gives (λ n. commands n ≡ true → commands o ≡ true) (RestsOn o)
      (normalize_observation w new o) _ s (normalize-commands w new o s)
      λ n s₁ from_n.
        >>=-Gives (λ m. commands m ≡ true → commands n ≡ true) (RestsOn o) (note_leaf w new n) _ s₁
          (note_leaf-commands w new n s₁)
          λ m s₂ from_m.
            >>=-Gives (λ d. d.mutated ≡ true → commands m ≡ true) (RestsOn o) (observe_now m) _ s₂
              (observe_now-commands m s₂)
              λ d s₃ from_d.
                >>=-Gives (λ _. Unit {0}) (RestsOn o) (record_external_topology c w new m) _ s₃
                  (anything (record_external_topology c w new m s₃).0)
                  λ _ s₄ _ d' same changed. from_n (from_m (from_d (ground (arith, changed, same))))
