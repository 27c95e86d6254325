-- ===== src/Operations/Outcome.antt =====
-- The four ways in which `apply` ends, as one relation between the state before and the answer.
use Prim.Native.String.{◌++◌ as ◌+++◌}
use home_lighting_manager.Common.{
  String, Option, none, some, ◌≡◌, refl, sym, nat_eq, ◌==◌, Bool-cases, inl, inr,
}
use mathlib.Core.Path.{subst}
use home_lighting_manager.Common.Action.{Result, ok, err, ◌>>=◌, and_then}
use home_lighting_manager.Engine.State.{Engine}
use home_lighting_manager.Operations.Record.{
  HomeownerOperation, OperationResult, Operations, take_chars, eligible_members, early_refusal,
  late_refusal,
}
use home_lighting_manager.Operations.Effect.{effect}
use home_lighting_manager.Operations.Transaction.{
  sync_generation, rejected, note_rejection, reject, consume, finish, committed, commit, conclude,
  settle, proceed, run, roll_back, apply,
}

abbrev pub consumed : HomeownerOperation → Operations → Operations
consumed op s = consume op (sync_generation s)

-- the note of an operation whose effect raised
abbrev pub rollback_reason : String → String
rollback_reason error = ◌+++◌ "operation rejected atomically: " error

pub data Outcome (op : HomeownerOperation) (s : Operations) (answer : OperationResult × Operations)
    : Type 0 where
  refused :
      (reason : String)
      → early_refusal (sync_generation s) op ≡ some reason
      → answer ≡ (rejected op reason, note_rejection op reason (sync_generation s))
      → Outcome op s answer
  settled :
      (reason : String)
      → early_refusal (sync_generation s) op ≡ none
      → late_refusal (consumed op s) op (eligible_members op) ≡ some reason
      → answer ≡ (rejected op reason, note_rejection op reason (consumed op s))
      → Outcome op s answer
  failed :
      (error : String)
      → early_refusal (sync_generation s) op ≡ none
      → late_refusal (consumed op s) op (eligible_members op) ≡ none
      → (effect op (eligible_members op) s.engine).0 ≡ err error
      → answer ≡ (
        rejected op (rollback_reason error),
        note_rejection op
            (take_chars 256 (rollback_reason error))
            (record (consumed op s) { engine = s.engine }),
      )
      → Outcome op s answer
  done :
      (reason : String)
      → early_refusal (sync_generation s) op ≡ none
      → late_refusal (consumed op s) op (eligible_members op) ≡ none
      → (effect op (eligible_members op) s.engine).0 ≡ ok reason
      → answer ≡ (
        committed op (eligible_members op) reason,
        finish op
            (eligible_members op)
            reason
            (record (consumed op s) { engine = (effect op (eligible_members op) s.engine).1 }),
      )
      → Outcome op s answer

pub consumed-engine : (op : HomeownerOperation) (s : Operations) → (consumed op s).engine ≡ s.engine
unfolding consume sync_generation
consumed-engine op s = elim (Bool-cases (s.generation == s.engine.generation)) [
  | inl same ↦ rw same
  | inr other ↦ rw other
]

module _ (op : HomeownerOperation) (s : Operations) where
  -- the rest of `commit` behind its effect
  abbrev behind : Result String × Engine → Result OperationResult × Operations
  behind p =
      and_then (p.0, record (consumed op s) { engine = p.1 })
        (λ reason t. (
          ok (committed op (eligible_members op) reason),
          finish op (eligible_members op) reason t,
        ))

  of_effect :
      (p : Result String × Engine)
      → effect op (eligible_members op) s.engine ≡ p
      → early_refusal (sync_generation s) op ≡ none
      → late_refusal (consumed op s) op (eligible_members op) ≡ none
      → Outcome op s (roll_back op s.engine (behind p))
  unfolding roll_back
  of_effect (ok reason, e) h early late = done reason early late (rw h) (rw h)
  of_effect (err error, e) h early late = failed error early late (rw h) refl

  of_late :
      (o : Option String)
      → late_refusal (consumed op s) op (eligible_members op) ≡ o
      → early_refusal (sync_generation s) op ≡ none
      → Outcome op s (roll_back op s.engine (conclude op (eligible_members op) o (consumed op s)))
  unfolding conclude reject commit ◌>>=◌ roll_back
  of_late (some reason) late early = settled reason early late refl
  of_late none late early =
      subst (λ e. Outcome op s (roll_back op s.engine (behind (effect op (eligible_members op) e))))
        (sym (consumed-engine op s)) (of_effect _ refl early late)

  of_early :
      (o : Option String)
      → early_refusal (sync_generation s) op ≡ o
      → Outcome op s (roll_back op s.engine (proceed op o (sync_generation s)))
  unfolding proceed reject settle ◌>>=◌ roll_back
  of_early (some reason) early = refused reason early refl
  of_early none early = of_late _ refl early

  pub apply-Outcome : Outcome op s (apply op s)
  unfolding apply run ◌>>=◌
  apply-Outcome = of_early _ refl
