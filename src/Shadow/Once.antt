-- ===== src/Shadow/Once.antt =====
-- How often recovery takes effect, and what it keeps.
use home_lighting_manager.Common.{
  String, true, false, not, ◌||◌, none, ◌≡◌, refl, arith, Bool-cases, inl, inr, ◌==◌, nat_eq,
}
use home_lighting_manager.Common.Dict.{Dict}
use home_lighting_manager.Common.Action.{ok, ◌>>=◌}
use home_lighting_manager.Engine.Invariant.{reset_group_off_sequence-keeps}
use home_lighting_manager.Engine.Invariant.Sessions.{
  start_family-Preserves, suppress_family-Preserves,
}
use home_lighting_manager.Engine.Sound.Writes.{IsSound}
use home_lighting_manager.Engine.Sound.Pushes.{push-IsSound}
use home_lighting_manager.Engine.Sound.Instance.{IsSound-IsStable}
use home_lighting_manager.Recovery.{ManualRecoveryEvidence, FamilyRecoveryEvidence}
use home_lighting_manager.Persistence.Payload.{PersistedOwnershipState}
use home_lighting_manager.Shadow.Runtime.{ShadowRuntime, engine_of}
use home_lighting_manager.Shadow.Restore.{begin_recovery, restore_all, restore}
use home_lighting_manager.Shadow.Kept.{IsKept, restore_all-Preserves}

abbrev pub IsClosed : ShadowRuntime → Type 0
IsClosed r = r.recovery_open ≡ false

instance IsClosed-IsKept : IsKept IsClosed
IsClosed-IsKept = record {
  summary_P = λ f r h. h;
  pushes_P = λ entity layer. record { run = λ r h. h };
  starts_P = λ family session. record { run = λ r h. h };
  suppresses_P = λ family session reason. record { run = λ r h. h };
}

abbrev pub HasSoundEngine : ShadowRuntime → Type 0
HasSoundEngine r = IsSound (engine_of r)

instance HasSoundEngine-IsKept : IsKept HasSoundEngine
HasSoundEngine-IsKept = record {
  summary_P = λ f r h. h;
  pushes_P =
      λ entity layer. record { run = λ r h. (push-IsSound entity layer none).run (engine_of r) h };
  starts_P = λ family session. record {
    run = λ r h. (start_family-Preserves IsSound family session none none).run (engine_of r) h;
  };
  suppresses_P = λ family session reason. record {
    run = λ r h. (suppress_family-Preserves IsSound family session reason none).run (engine_of r) h;
  };
}

-- Recovery has no part to play any more: it was closed, or the engine has changed.
abbrev pub IsOver : ShadowRuntime → Type 0
IsOver r = (not r.recovery_open || not ((engine_of r).revision == 0)) ≡ true

module _ (p : PersistedOwnershipState) (m : Dict String ManualRecoveryEvidence)
    (f : Dict (String × String) FamilyRecoveryEvidence) (r : ShadowRuntime) where
  restore-over : IsOver r → restore p m f r ≡ (ok tt, r)
  unfolding restore ◌>>=◌
  restore-over h = rw h refl

  restore-open :
      (not r.recovery_open || not ((engine_of r).revision == 0)) ≡ false
      → restore p m f r ≡ restore_all p m f r
  unfolding restore ◌>>=◌
  restore-open h = rw h refl

  restored-IsOver : IsOver (restore p m f r).1
  unfolding begin_recovery
  restored-IsOver = elim (Bool-cases (not r.recovery_open || not ((engine_of r).revision == 0))) [
    | inl over ↦ rw (restore-over over) over
    | inr open' ↦
        rw (restore-open open') (ground (arith, restore_all-Preserves IsClosed p m f r refl))
  ]

  -- Recovery keeps a well-formed engine well-formed, whatever was persisted and on whatever evidence, even
  -- where it raises.
  pub restore-IsSound : IsSound (engine_of r) → IsSound (engine_of (restore p m f r).1)
  unfolding begin_recovery
  restore-IsSound h = elim (Bool-cases (not r.recovery_open || not ((engine_of r).revision == 0))) [
    | inl over ↦ rw (restore-over over) h
    | inr open' ↦ rw (restore-open open') (
        restore_all-Preserves HasSoundEngine p m f r
          (reset_group_off_sequence-keeps IsSound none _ h))
  ]

-- Recovery takes effect once at most: after a first call, even one that raised, a second call with
-- any records and evidence returns and changes nothing.
pub restore_once :
    (p q : PersistedOwnershipState) (m n : Dict String ManualRecoveryEvidence)
    (f g : Dict (String × String) FamilyRecoveryEvidence) (r : ShadowRuntime)
    → restore q n g (restore p m f r).1 ≡ (ok tt, (restore p m f r).1)
restore_once p q m n f g r = restore-over q n g (restore p m f r).1 (restored-IsOver p m f r)
