-- ===== src/Shadow/Kept.antt =====
-- The properties of the runtime that recovery keeps.
use home_lighting_manager.Common.{String, Option, none, some, nat_eq}
use home_lighting_manager.Common.Dict.{Dict}
use home_lighting_manager.Common.Action.{◌>>=◌, modify, for_each}
use home_lighting_manager.Common.Action.Invariant.{
  Preserves, action_rules, modify-Preserves, bind-Preserves, for_each-Preserves,
}
use home_lighting_manager.Model.{OwnershipLayer, FamilySession, Value, str}
use home_lighting_manager.Engine.Stack.{push}
use home_lighting_manager.Engine.Families.{start_family, suppress_family}
use home_lighting_manager.Engine.Sound.Instance.{IsSound-IsStable}
use home_lighting_manager.Recovery.{ManualRecoveryEvidence, FamilyRecoveryEvidence}
use home_lighting_manager.Persistence.Payload.{PersistedOwnershipState}
use home_lighting_manager.Shadow.Runtime.{ShadowRuntime, RecoverySummary, with_engine}
use home_lighting_manager.Shadow.Restore.{
  summarize, restore_recovered, restore_entity, restore_value, restore_layer, restore_session,
  restore_family, begin_recovery, restore_all,
}

-- A property of the runtime that recovery keeps: the writes to the summary keep it, and those of the
-- engine that a restored record needs.
pub record IsKept (P : ShadowRuntime → Type 0) : Type 0 where
  pub summary_P :
      (f : RecoverySummary → RecoverySummary) (r : ShadowRuntime) → P r → P (summarize f r)
  pub pushes_P :
      (entity : String) (layer : OwnershipLayer)
      → Preserves P (with_engine (push entity layer none))
  pub starts_P :
      (family session : String) → Preserves P (with_engine (start_family family session none none))
  pub suppresses_P :
      (family session reason : String)
      → Preserves P (with_engine (suppress_family family session reason none))

module _ (P : ShadowRuntime → Type 0) ⦃kept : IsKept P⦄ where
  summarize-Preserves : (f : RecoverySummary → RecoverySummary) → Preserves P (modify (summarize f))
  summarize-Preserves f = modify-Preserves (summarize f) (kept.summary_P f)

  pushes-Preserves :
      (entity : String) (layer : OwnershipLayer)
      → Preserves P (with_engine (push entity layer none))
  pushes-Preserves = kept.pushes_P

  starts-Preserves :
      (family session : String) → Preserves P (with_engine (start_family family session none none))
  starts-Preserves = kept.starts_P

  suppresses-Preserves :
      (family session reason : String)
      → Preserves P (with_engine (suppress_family family session reason none))
  suppresses-Preserves = kept.suppresses_P

  ruleset recovery_rules =
      (action_rules, summarize-Preserves, pushes-Preserves, starts-Preserves, suppresses-Preserves)

  restore_recovered-Preserves :
      (entity : String) (o : Option OwnershipLayer) → Preserves P (restore_recovered entity o)
  unfolding restore_recovered
  restore_recovered-Preserves entity none = search recovery_rules depth 12
  restore_recovered-Preserves entity (some layer) = search recovery_rules depth 12

  restore_entity-Preserves :
      (evidence : Dict String ManualRecoveryEvidence) (layer : OwnershipLayer) (entity : String)
      → Preserves P (restore_entity evidence layer entity)
  unfolding restore_entity
  restore_entity-Preserves evidence layer entity =
      search (recovery_rules, restore_recovered-Preserves) depth 12

  restore_value-Preserves :
      (evidence : Dict String ManualRecoveryEvidence) (layer : OwnershipLayer) (v : Value)
      → Preserves P (restore_value evidence layer v)
  unfolding restore_value
  restore_value-Preserves evidence layer (str entity) =
      restore_entity-Preserves evidence layer entity
  restore_value-Preserves evidence layer _ = search recovery_rules depth 12

  restore_layer-Preserves :
      (evidence : Dict String ManualRecoveryEvidence) (layer : OwnershipLayer)
      → Preserves P (restore_layer evidence layer)
  unfolding restore_layer
  restore_layer-Preserves evidence layer = restore_value-Preserves evidence layer _

  restore_session-Preserves : (o : Option FamilySession) → Preserves P (restore_session o)
  unfolding restore_session
  restore_session-Preserves none = search recovery_rules depth 12
  restore_session-Preserves (some s) = search recovery_rules depth 12

  restore_family-Preserves :
      (evidence : Dict (String × String) FamilyRecoveryEvidence) (s : FamilySession)
      → Preserves P (restore_family evidence s)
  unfolding restore_family
  restore_family-Preserves evidence s = search (recovery_rules, restore_session-Preserves) depth 12

  pub restore_all-Preserves :
      (p : PersistedOwnershipState) (m : Dict String ManualRecoveryEvidence)
      (f : Dict (String × String) FamilyRecoveryEvidence) (r : ShadowRuntime)
      → P (begin_recovery p r)
      → P (restore_all p m f r).1
  unfolding restore_all ◌>>=◌
  restore_all-Preserves p m f r h =
      (bind-Preserves (for_each p.layers (restore_layer m)) _
          (for_each-Preserves p.layers (restore_layer m) (restore_layer-Preserves m))
          (λ _.
            for_each-Preserves p.suppressed_sessions (restore_family f)
              (restore_family-Preserves f))).run
        (begin_recovery p r) h
