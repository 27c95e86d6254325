-- ===== src/Recovery/Trust.antt =====
-- What recovery restores, and on which evidence.
use home_lighting_manager.Common.{ℕ, true, false, ◌≡◌, ◌↔◌, Option, none, some, arith}
use home_lighting_manager.Model.{OwnershipLayer, is_homeowner_kind}
use home_lighting_manager.Recovery.{
  ManualRecoveryEvidence, RecoveryAction, recover_layer, weigh_layer, appearance_mismatch,
}

-- Evidence on which all three trust checks pass.
abbrev pub IsTrusted : Option ManualRecoveryEvidence → Type 0
IsTrusted none = ⊥
IsTrusted (some v) =
    (v.temporally_valid ≡ true)
    × (v.desired_state_trustworthy ≡ true)
    × (v.ownership_evidence_coherent ≡ true)

abbrev pub IsRecoverable : OwnershipLayer → Option ManualRecoveryEvidence → Type 0
IsRecoverable layer evidence =
    (is_homeowner_kind layer.kind ≡ true)
    × (appearance_mismatch layer.kind layer.appearance ≡ false)
    × IsTrusted evidence

restored_of :
    (layer : OwnershipLayer) (g : ℕ) (evidence : Option ManualRecoveryEvidence)
    → (recover_layer layer g evidence).action ≡ RecoveryAction.restore
    → IsRecoverable layer evidence
unfolding recover_layer weigh_layer
restored_of layer g none h = ground arith
restored_of layer g (some v) h = ground arith

restores :
    (layer : OwnershipLayer) (g : ℕ) (evidence : Option ManualRecoveryEvidence)
    → IsRecoverable layer evidence
    → (recover_layer layer g evidence).action ≡ RecoveryAction.restore
unfolding recover_layer weigh_layer
restores layer g none h = absurd h.2
restores layer g (some v) h = ground arith

-- A persisted layer is restored exactly when it is a homeowner layer, its appearance is valid and
-- agrees with its kind, and evidence is given on which all three trust checks pass.
pub recover_layer-restores_iff :
    (layer : OwnershipLayer) (g : ℕ) (evidence : Option ManualRecoveryEvidence)
    → ((recover_layer layer g evidence).action ≡ RecoveryAction.restore)
      ↔ IsRecoverable layer evidence
recover_layer-restores_iff layer g evidence =
    (restored_of layer g evidence, restores layer g evidence)
