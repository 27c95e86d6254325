-- ===== src/Operations/Bounds.antt =====
-- The limits of the memory of operations along the paths of `apply`.
use home_lighting_manager.Common.{◌≤◌, String, arith, length}
use home_lighting_manager.Engine.State.{max_entities}
use home_lighting_manager.Operations.Record.{
  HomeownerOperation, OperationResult, Operations, history_limit, ids_of,
}
use home_lighting_manager.Operations.Transaction.{
  sync_generation, note_rejection, consume, finish, apply,
}
use home_lighting_manager.Operations.Outcome.{
  Outcome, refused, settled, failed, done, apply-Outcome, consumed,
}
use home_lighting_manager.Operations.Admitted.{early_refusal-none}
use home_lighting_manager.Operations.Memory.{length-append_bounded, length-record_sequences-le}

pub record IsBounded (s : Operations) : Type 0 where
  pub remembered : length s.seen ≤ 128
  pub recorded : length s.history ≤ history_limit
  pub tracked : length s.latest_sequence ≤ max_entities

sync-IsBounded : (s : Operations) → IsBounded s → IsBounded (sync_generation s)
unfolding sync_generation
sync-IsBounded s h = ground arith

note-IsBounded :
    (op : HomeownerOperation) (reason : String) (s : Operations)
    → IsBounded s
    → IsBounded (note_rejection op reason s)
unfolding note_rejection
note-IsBounded op reason s h = record {
  remembered = h.remembered;
  recorded = h.recorded;
  tracked = h.tracked;
}

consumed-IsBounded :
    (op : HomeownerOperation) (s : Operations) → IsBounded s → IsBounded (consumed op s)
unfolding consume
consumed-IsBounded op s h =
    let k = sync-IsBounded s h in
    record {
      remembered =
          length-append_bounded 128 (op.operation_id, op.sequence) (sync_generation s).seen;
      recorded = k.recorded;
      tracked = k.tracked;
    }

Outcome-IsBounded :
    (op : HomeownerOperation) (s : Operations) (answer : OperationResult × Operations)
    → Outcome op s answer
    → IsBounded s
    → IsBounded answer.1
unfolding finish consume note_rejection
Outcome-IsBounded op s answer (refused reason early e) h =
    rw e (note-IsBounded op reason _ (sync-IsBounded s h))
Outcome-IsBounded op s answer (settled reason early late e) h =
    rw e (note-IsBounded op reason _ (consumed-IsBounded op s h))
Outcome-IsBounded op s answer (failed error early late ran e) h =
    let k = consumed-IsBounded op s h in
    rw e (record { remembered = k.remembered; recorded = k.recorded; tracked = k.tracked })
Outcome-IsBounded op s answer (done reason early late ran e) h =
    let k = consumed-IsBounded op s h in
    rw e (record {
      remembered = k.remembered;
      recorded = search length-append_bounded;
      tracked = omega (
        arith,
        length-record_sequences-le op.sequence (ids_of op.members) (consumed op s).latest_sequence,
        (early_refusal-none _ op early).tracked,
      );
    })

-- A memory within its limits stays within them on every path, refusals and failures included: the
-- duplicate window keeps at most 128 entries, the history at most 12 and the table of latest
-- sequences at most 256.
pub apply-IsBounded :
    (op : HomeownerOperation) (s : Operations) → IsBounded s → IsBounded (apply op s).1
apply-IsBounded op s h = Outcome-IsBounded op s (apply op s) (apply-Outcome op s) h
