-- ===== src/Persistence/Recovered.antt =====
-- Recovery of the layers that the parser accepts.
use home_lighting_manager.Common.{
  ℕ, Bool, true, false, ◌&&◌, some, List, [], ◌∷◌, ◌≡◌, refl, arith, all,
}
use home_lighting_manager.Model.{Value, OwnershipLayer, is_homeowner_kind}
use home_lighting_manager.Recovery.{
  ManualRecoveryEvidence, RecoveryAction, recover_layer, appearance_mismatch,
}
use home_lighting_manager.Recovery.Trust.{IsTrusted, recover_layer-restores_iff}
use home_lighting_manager.Persistence.Payload.{deserialize_state, layer_trusted}
use home_lighting_manager.Persistence.Trusted.{names_light, deserialize_state-IsTrustworthy}

abbrev pub is_restore : RecoveryAction → Bool
is_restore RecoveryAction.restore = true
is_restore RecoveryAction.drop_recompute = false

all_mono :
    (p q : OwnershipLayer → Bool) (l : List OwnershipLayer)
    → ((a : OwnershipLayer) → p a ≡ true → q a ≡ true)
    → all p l ≡ true
    → all q l ≡ true
all_mono p q [] h k = refl
all_mono p q (a ∷ l) h k = ground (arith, h a, all_mono p q l h)

trusted_parts :
    (layer : OwnershipLayer)
    → (layer_trusted layer && names_light layer) ≡ true
    → (is_homeowner_kind layer.kind ≡ true)
      × (appearance_mismatch layer.kind layer.appearance ≡ false)
unfolding layer_trusted
trusted_parts layer h = ground arith

restored :
    (g : ℕ) (v : ManualRecoveryEvidence) (layer : OwnershipLayer)
    → IsTrusted (some v)
    → (layer_trusted layer && names_light layer) ≡ true
    → is_restore (recover_layer layer g (some v)).action ≡ true
restored g v layer t h =
    let (home, agrees) = trusted_parts layer h in
    rw ((recover_layer-restores_iff layer g (some v)).1 (home, agrees, t)) refl

-- The parser and the recovery agree on what a Manual layer is: every layer that the parser accepts
-- from any payload is restored when its evidence passes all three trust checks.
pub recover_layer-deserialize_state :
    (payload : Value) (g : ℕ) (v : ManualRecoveryEvidence)
    → IsTrusted (some v)
    → all
        (λ layer. is_restore (recover_layer layer g (some v)).action)
        (deserialize_state payload).layers
      ≡ true
recover_layer-deserialize_state payload g v t =
    all_mono _ _ (deserialize_state payload).layers (λ layer h. restored g v layer t h)
      (deserialize_state-IsTrustworthy payload).layers
