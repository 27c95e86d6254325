-- ===== src/Operations/Atomic.antt =====
-- `apply` as a transaction.
use home_lighting_manager.Common.{◌+◌, ◌<◌, String, Bool, true, false, ◌≡◌, ap, ◌∙◌, arith, nat_eq}
use home_lighting_manager.Common.Action.{ok}
use home_lighting_manager.Model.{token_eq}
use home_lighting_manager.Engine.State.{
  Engine, changed, invalidate_work, is_current_work, work_token,
}
use home_lighting_manager.Engine.Frame.{Frame, Frame-refl, Frame-IsStable}
use home_lighting_manager.Operations.Record.{
  HomeownerOperation, OperationResult, Operations, eligible_members,
}
use home_lighting_manager.Operations.Effect.{effect}
use home_lighting_manager.Operations.Transaction.{
  sync_generation, rejected, note_rejection, committed, finish, apply,
}
use home_lighting_manager.Operations.Outcome.{
  Outcome, refused, settled, failed, done, apply-Outcome, consumed, consumed-engine,
}
use home_lighting_manager.Operations.Admitted.{
  IsAdmissible, IsTimely, early_refusal-none, late_refusal-none,
}
use home_lighting_manager.Operations.Stable.{effect-Preserves}

sync_generation-engine : (s : Operations) → (sync_generation s).engine ≡ s.engine
unfolding sync_generation
sync_generation-engine s = ground arith

abbrev engine_of : OperationResult × Operations → Engine
engine_of answer = answer.1.engine

abbrev mutates : OperationResult × Operations → Bool
mutates answer = answer.0.mutated

module _ (op : HomeownerOperation) (s : Operations) where
  unmutated :
      (answer : OperationResult × Operations)
      → Outcome op s answer
      → mutates answer ≡ false
      → engine_of answer ≡ s.engine
  unfolding note_rejection committed rejected
  unmutated answer (refused reason early e) h = ap engine_of e ∙ sync_generation-engine s
  unmutated answer (settled reason early late e) h = ap engine_of e ∙ consumed-engine op s
  unmutated answer (failed error early late ran e) h = ap engine_of e
  unmutated answer (done reason early late ran e) h = cc (ap mutates e)

  -- An operation that reports no mutation leaves the whole engine as it was, whether it was refused
  -- before or after it was consumed, or failed half way.
  pub apply-unmutated : (apply op s).0.mutated ≡ false → (apply op s).1.engine ≡ s.engine
  apply-unmutated = unmutated (apply op s) (apply-Outcome op s)

  -- What a mutation says of the operation and of the answer.
  pub record Committed (answer : OperationResult × Operations) : Type 0 where
    pub reason : String
    pub early : IsAdmissible (sync_generation s) op
    pub late : IsTimely (consumed op s) op (eligible_members op)
    pub ran : (effect op (eligible_members op) s.engine).0 ≡ ok reason
    pub answer_eq : answer ≡ (
      committed op (eligible_members op) reason,
      finish op
          (eligible_members op)
          reason
          (record (consumed op s) { engine = (effect op (eligible_members op) s.engine).1 }),
    )

  mutated :
      (answer : OperationResult × Operations)
      → Outcome op s answer
      → mutates answer ≡ true
      → Committed answer
  unfolding rejected
  mutated answer (refused reason early e) h = absurd (cc (ap mutates e))
  mutated answer (settled reason early late e) h = absurd (cc (ap mutates e))
  mutated answer (failed error early late ran e) h = absurd (cc (ap mutates e))
  mutated answer (done reason early late ran e) h = record {
    reason = reason;
    early = early_refusal-none _ op early;
    late = late_refusal-none _ op _ late;
    ran = ran;
    answer_eq = e;
  }

  pub apply-Committed : (apply op s).0.mutated ≡ true → Committed (apply op s)
  apply-Committed = mutated (apply op s) (apply-Outcome op s)

  effect-Frame : Frame s.engine (effect op (eligible_members op) s.engine).1
  effect-Frame =
      (effect-Preserves (Frame s.engine) op (eligible_members op)).run s.engine
        (Frame-refl s.engine)

  committed-Frame :
      (answer : OperationResult × Operations)
      → Committed answer
      → (engine_of answer).revision ≡ (effect op (eligible_members op) s.engine).1.revision + 1
  unfolding finish invalidate_work changed
  committed-Frame answer c = ap (λ a. a.1.engine.revision) c.answer_eq

  -- An operation that mutates passes every check. The policy allows its evidence; it is of the engine's
  -- generation; its identifier has 1 to 256 characters and is not remembered; its sequence is positive and above the
  -- retired one; the work token it may carry is current; its kind is "appearance" or "off"; its members are between 1
  -- and 256, distinct and managed, only one if it names no group, and the group's name has 1 to 256 characters; the
  -- entities with a sequence stay within 256. Of the members some are eligible; their recorded sequences
  -- are all lower; and for an appearance each of them has a complete one, and a precedence where that is required.
  -- The operation keeps the generation, the authority and the managed scope of the engine, and makes every
  -- calculation begun before it stale.
  pub apply-mutated :
      (apply op s).0.mutated ≡ true
      → IsAdmissible (sync_generation s) op
        × IsTimely (consumed op s) op (eligible_members op)
        × ((apply op s).1.engine.generation ≡ s.engine.generation)
        × ((apply op s).1.engine.authority_id ≡ s.engine.authority_id)
        × ((apply op s).1.engine.managed_entities ≡ s.engine.managed_entities)
        × (s.engine.revision < (apply op s).1.engine.revision)
        × (is_current_work (apply op s).1.engine (work_token s.engine) ≡ false)
  unfolding finish invalidate_work changed is_current_work work_token token_eq
  apply-mutated h =
      let c = apply-Committed h in
      let f = effect-Frame in
      let grows : s.engine.revision < (apply op s).1.engine.revision =
        omega (arith, committed-Frame _ c, f.revision) in
      (
        c.early,
        c.late,
        ap (λ a. a.1.engine.generation) c.answer_eq ∙ f.generation,
        ap (λ a. a.1.engine.authority_id) c.answer_eq ∙ f.authority,
        ap (λ a. a.1.engine.managed_entities) c.answer_eq ∙ f.managed,
        grows,
        ground (arith, grows),
      )
