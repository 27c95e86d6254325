-- ===== src/Operations/Transaction.antt =====
-- `OwnershipOperations.apply` and `_apply`: the bookkeeping of a transaction and its rollback.
use Prim.Native.String.{◌++◌ as ◌+++◌}
use home_lighting_manager.Common.{
  ℕ, String, true, false, Option, none, some, List, [], ◌∷◌, ◌==◌, nat_eq, string_eq, if◌then◌else◌,
  length, max,
}
use home_lighting_manager.Common.Dict.{Dict, insert}
use home_lighting_manager.Common.Action.{Action, Result, ok, err, pure, gets, modify, ◌>>=◌, ◌>>◌}
use home_lighting_manager.Common.Text.{sorted_set}
use home_lighting_manager.Intent.{classify_intent}
use home_lighting_manager.Engine.State.{Engine, invalidate_work}
use home_lighting_manager.Engine.Groups.{append_bounded}
use home_lighting_manager.Operations.Record.{
  HomeownerOperation, MemberOutcome, OperationResult, OperationRecord, Operations, history_limit,
  take_chars, eligible_members, skipped_members, ids_of, early_refusal, late_refusal, latest_of,
}
use home_lighting_manager.Operations.Effect.{effect}

-- The memory of another generation is dropped.
unfoldable pub sync_generation : Operations → Operations
sync_generation s = if s.generation == s.engine.generation then s else record s {
  latest_sequence = [];
  seen = [];
  retired_sequence = 0;
  history = [];
  latest_homeowner = none;
  generation = s.engine.generation;
}

unfoldable pub rejected : HomeownerOperation → String → OperationResult
rejected op reason = record {
  operation_id = op.operation_id;
  intent = classify_intent op.evidence;
  mutated = false;
  reason = reason;
  affected = [];
  skipped = [];
}

unfoldable pub note_rejection : HomeownerOperation → String → Operations → Operations
note_rejection op reason s = record s {
  latest_rejection =
      some (record { operation_id = take_chars 256 op.operation_id; reason = reason });
}

-- `reject`
unfoldable pub reject : HomeownerOperation → String → Action Operations OperationResult
reject op reason = do modify (note_rejection op reason); pure (rejected op reason)

-- `max(self._retired_sequence, self._seen[0][1])`
unfoldable pub oldest_sequence : List (String × ℕ) → ℕ
oldest_sequence [] = 0
oldest_sequence ((_, n) ∷ _) = n

-- The operation is remembered; what falls out of the window leaves its sequence behind.
unfoldable pub consume : HomeownerOperation → Operations → Operations
consume op s = record s {
  retired_sequence =
      if length s.seen == 128
      then max s.retired_sequence (oldest_sequence s.seen)
      else s.retired_sequence;
  seen = append_bounded 128 (op.operation_id, op.sequence) s.seen;
}

unfoldable pub record_sequences : List String → ℕ → Dict String ℕ → Dict String ℕ
record_sequences [] sequence latest = latest
record_sequences (id ∷ ids) sequence latest =
    record_sequences ids sequence (insert id (max sequence (latest_of latest id)) latest)

-- An action of the engine, inside the operations.
abbrev pub on_engine : {A : Type 0} → Action Engine A → Action Operations A
on_engine m s = let (r, e) = m s.engine in (r, record s { engine = e })

unfoldable pub operation_record :
    HomeownerOperation → List MemberOutcome → String → Engine → OperationRecord
operation_record op eligible reason e = record {
  operation_id = op.operation_id;
  sequence = op.sequence;
  kind = op.kind;
  group_id = op.group_id;
  generation = e.generation;
  revision = e.revision;
  requested = sorted_set (ids_of op.members);
  affected = ids_of eligible;
  skipped = skipped_members op;
  reason = reason;
}

-- What is written after the effect.
unfoldable pub finish : HomeownerOperation → List MemberOutcome → String → Operations → Operations
finish op eligible reason s =
    let e = invalidate_work reason s.engine in
    let entry = operation_record op eligible reason e in
    record s {
      engine = e;
      latest_sequence = record_sequences (ids_of op.members) op.sequence s.latest_sequence;
      history = append_bounded history_limit entry s.history;
      latest_homeowner = some entry;
    }

unfoldable pub committed : HomeownerOperation → List MemberOutcome → String → OperationResult
committed op eligible reason = record {
  operation_id = op.operation_id;
  intent = classify_intent op.evidence;
  mutated = true;
  reason = reason;
  affected = ids_of eligible;
  skipped = skipped_members op;
}

unfoldable pub commit : HomeownerOperation → List MemberOutcome → Action Operations OperationResult
commit op eligible = do
  reason ← on_engine (effect op eligible)
  modify (finish op eligible reason)
  pure (committed op eligible reason)

unfoldable pub conclude :
    HomeownerOperation → List MemberOutcome → Option String → Action Operations OperationResult
conclude op eligible (some reason) = reject op reason
conclude op eligible none = commit op eligible

-- What follows the consumption of the operation.
unfoldable pub settle : HomeownerOperation → List MemberOutcome → Action Operations OperationResult
settle op eligible = do
  refusal ← gets (λ s. late_refusal s op eligible)
  conclude op eligible refusal

unfoldable pub proceed : HomeownerOperation → Option String → Action Operations OperationResult
proceed op (some reason) = reject op reason
proceed op none = do modify (consume op); settle op (eligible_members op)

-- `_apply`
unfoldable pub run : HomeownerOperation → Action Operations OperationResult
run op = do modify sync_generation; refusal ← gets (λ s. early_refusal s op); proceed op refusal

-- The handler of `apply`: the engine is as it was, the rest of the memory is not.
unfoldable pub roll_back :
    HomeownerOperation → Engine → Result OperationResult × Operations → OperationResult × Operations
roll_back op before (ok result, s) = (result, s)
roll_back op before (err error, s) =
    let reason = ◌+++◌ "operation rejected atomically: " error in
    (rejected op reason, note_rejection op (take_chars 256 reason) (record s { engine = before }))

unfoldable pub apply : HomeownerOperation → Operations → OperationResult × Operations
apply op s = roll_back op s.engine (run op s)
