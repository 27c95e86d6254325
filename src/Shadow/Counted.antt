-- ===== src/Shadow/Counted.antt =====
-- What the counters of the runtime count over a run of observed operations.
use mathlib.Core.Path.{subst}
use home_lighting_manager.Common.{
  ℕ, ◌+◌, ◌-◌, ◌≤◌, String, Bool, true, false, not, ◌&&◌, List, [], ◌∷◌, ◌++◌, ◌≡◌, refl, sym, ap,
  ◌∙◌, arith, Bool-cases, inl, inr, ◌==◌, string_eq, contains, if◌then◌else◌, length, filter, any,
  drop, zero, suc, map, max,
}
use home_lighting_manager.Common.Action.Returns.{Gives}
use home_lighting_manager.Intent.{classify_intent}
use home_lighting_manager.Operations.Record.{
  HomeownerOperation, OperationResult, Operations, eligible_members,
}
use home_lighting_manager.Operations.Transaction.{apply, rejected, committed}
use home_lighting_manager.Operations.Outcome.{
  Outcome, refused, settled, failed, done, apply-Outcome,
}
use home_lighting_manager.Operations.Atomic.{Committed, apply-Committed}
use home_lighting_manager.Operations.Plain.{IsPlain, effect-IsPlain}
use home_lighting_manager.Shadow.Runtime.{
  ShadowRuntime, is_homeowner_intent, counts_as_homeowner, count_result, close_recovery,
  observe_operation,
}

-- Whether the policy takes an operation for the homeowner's.
abbrev pub is_own : HomeownerOperation → Bool
is_own op = (classify_intent op.evidence).allows_homeowner_mutation

intent-disposition :
    (op : HomeownerOperation)
    → is_homeowner_intent (classify_intent op.evidence).disposition ≡ is_own op
unfolding is_homeowner_intent classify_intent
intent-disposition op = ground arith

module _ (op : HomeownerOperation) (s : Operations) where
  Outcome-intent :
      (answer : OperationResult × Operations)
      → Outcome op s answer
      → answer.0.intent ≡ classify_intent op.evidence
  unfolding rejected committed
  Outcome-intent answer (refused reason early e) = ap (λ a. a.0.intent) e
  Outcome-intent answer (settled reason early late e) = ap (λ a. a.0.intent) e
  Outcome-intent answer (failed error early late ran e) = ap (λ a. a.0.intent) e
  Outcome-intent answer (done reason early late ran e) = ap (λ a. a.0.intent) e

  apply-intent : (apply op s).0.intent ≡ classify_intent op.evidence
  apply-intent = Outcome-intent (apply op s) (apply-Outcome op s)

  Outcome-operation_id :
      (answer : OperationResult × Operations)
      → Outcome op s answer
      → answer.0.operation_id ≡ op.operation_id
  unfolding rejected committed
  Outcome-operation_id answer (refused reason early e) = ap (λ a. a.0.operation_id) e
  Outcome-operation_id answer (settled reason early late e) = ap (λ a. a.0.operation_id) e
  Outcome-operation_id answer (failed error early late ran e) = ap (λ a. a.0.operation_id) e
  Outcome-operation_id answer (done reason early late ran e) = ap (λ a. a.0.operation_id) e

  apply-operation_id : (apply op s).0.operation_id ≡ op.operation_id
  apply-operation_id = Outcome-operation_id (apply op s) (apply-Outcome op s)

  -- A committed operation is told from a refused one by its answer.
  committed-IsPlain : Committed op s (apply op s) → IsPlain (apply op s).0.reason
  unfolding committed
  committed-IsPlain c =
      subst IsPlain (sym (ap (λ a. a.0.reason) c.answer_eq))
        (subst (Gives IsPlain) c.ran (effect-IsPlain op (eligible_members op) s.engine))

-- What one observed operation adds to the counters, and to the identifiers that are remembered.
record IsCounted (op : HomeownerOperation) (r d : ShadowRuntime) (mutated : Bool) : Type 0 where
  observed : d.observed_events ≡ r.observed_events + 1
  others : d.ignored_or_hlm_events ≡ r.ignored_or_hlm_events + (if is_own op then 0 else 1)
  least : r.homeowner_events ≤ d.homeowner_events
  most : d.homeowner_events ≤ r.homeowner_events + (if is_own op then 1 else 0)
  recovery : d.recovery_open ≡ (r.recovery_open && not mutated)
  own :
      mutated ≡ true
      → contains op.operation_id r.qualified_ids ≡ false
      → d.homeowner_events ≡ r.homeowner_events + 1
  remembered :
      (id : String)
      → (id == op.operation_id) ≡ false
      → contains id r.qualified_ids ≡ false
      → contains id d.qualified_ids ≡ false

contains-drop :
    (n : ℕ) (id : String) (l : List String) → contains id l ≡ false → contains id (drop n l) ≡ false
contains-drop zero id l h = h
contains-drop (suc n) id [] h = h
contains-drop (suc n) id (x ∷ l) h = contains-drop n id l (ground (arith, h))

contains-append :
    (id x : String) (l : List String)
    → (id == x) ≡ false
    → contains id l ≡ false
    → contains id (l ++ x ∷ []) ≡ false
contains-append id x [] h k = ground (arith, h)
contains-append id x (y ∷ l) h k = ground (arith, h, k, contains-append id x l)

-- The counting, for the answer that the operation has.
count-IsCounted :
    (op : HomeownerOperation) (result : OperationResult) (operations : Operations)
    (r : ShadowRuntime)
    → (n : ℕ) → is_homeowner_intent result.intent.disposition ≡ is_own op
    → result.operation_id ≡ op.operation_id
    → (result.mutated ≡ true → (is_own op ≡ true) × IsPlain result.reason)
    → IsCounted op r
        (close_recovery result.mutated (
          count_result result (record r {
            operations = operations;
            sequence = n;
            observed_events = r.observed_events + 1;
          })))
        result.mutated
unfolding close_recovery count_result counts_as_homeowner
count-IsCounted op result operations r n intent id plain = record {
  observed = ground arith;
  others = ground (arith, intent);
  least = ground arith;
  most = ground (arith, intent);
  recovery = ground arith;
  own = λ m f.
      ground
        (arith, m, intent, (plain m).0, (plain m).1, ap (λ i. contains i r.qualified_ids) id ∙ f);
  remembered = λ other h f. ground (
    arith,
    f,
    contains-drop (length (r.qualified_ids ++ result.operation_id ∷ []) - 128) other
        (r.qualified_ids ++ result.operation_id ∷ [])
        (contains-append other result.operation_id r.qualified_ids (ap (λ i. other == i) id ∙ h) f),
  );
}

observe_operation-IsCounted :
    (op : HomeownerOperation) (r : ShadowRuntime)
    → IsCounted op r (observe_operation op r).1 (observe_operation op r).0.mutated
unfolding observe_operation
observe_operation-IsCounted op r =
    count-IsCounted op (apply op r.operations).0 (apply op r.operations).1 r
      (max r.sequence op.sequence)
      (ap (λ i. is_homeowner_intent i.disposition) (apply-intent op r.operations)
        ∙ intent-disposition op)
      (apply-operation_id op r.operations)
      (λ m.
        let c = apply-Committed op r.operations m in
        (c.early.allowed, committed-IsPlain op r.operations c))

-- A run of observed operations, with their results.
unfoldable pub observe_all :
    List HomeownerOperation → ShadowRuntime → List OperationResult × ShadowRuntime
observe_all [] r = ([], r)
observe_all (op ∷ ops) r =
    let (result, d) = observe_operation op r in
    let (results, e) = observe_all ops d in (result ∷ results, e)

-- The identifiers are new: none is remembered, and none comes twice.
unfoldable pub are_new : List HomeownerOperation → List String → Bool
are_new [] known = true
are_new (op ∷ ops) known =
    not (contains op.operation_id known)
    && (not (contains op.operation_id (map (λ (o : HomeownerOperation). o.operation_id) ops))
        && are_new ops known)

abbrev pub is_mutated : OperationResult → Bool
is_mutated result = result.mutated

are_new-after :
    (op : HomeownerOperation) (ops : List HomeownerOperation) (before after : List String)
    → ((id : String)
        → (id == op.operation_id) ≡ false
        → contains id before ≡ false
        → contains id after ≡ false)
    → contains op.operation_id (map (λ (o : HomeownerOperation). o.operation_id) ops) ≡ false
    → are_new ops before ≡ true
    → are_new ops after ≡ true
unfolding are_new
are_new-after op [] before after keeps absent h = refl
are_new-after op (o ∷ ops) before after keeps absent h = ground (
  arith,
  absent,
  h,
  keeps o.operation_id (ground (arith, absent)) (ground (arith, h)),
  are_new-after op ops before after keeps (ground (arith, absent)) (ground (arith, h)),
)

-- For a run of observed operations whose identifiers are new, none of them remembered from before and none coming
-- twice: each operation is counted as observed; those that the policy does not take for the homeowner's, and only
-- those, are counted as ignored; those counted as the homeowner's are at most the ones that the policy takes for
-- the homeowner's, and at least the ones that changed ownership. Recovery is open afterwards exactly if it was
-- open before and none of them changed ownership.
pub observe_all-counts :
    (ops : List HomeownerOperation) (r : ShadowRuntime)
    → are_new ops r.qualified_ids ≡ true
    → ((observe_all ops r).1.observed_events ≡ r.observed_events + length ops)
      × ((observe_all ops r).1.ignored_or_hlm_events
          ≡ r.ignored_or_hlm_events + length (filter (λ op. not (is_own op)) ops))
      × ((observe_all ops r).1.homeowner_events ≤ r.homeowner_events + length (filter is_own ops))
      × (r.homeowner_events + length (filter is_mutated (observe_all ops r).0)
          ≤ (observe_all ops r).1.homeowner_events)
      × ((observe_all ops r).1.recovery_open
          ≡ (r.recovery_open && not (any is_mutated (observe_all ops r).0)))
unfolding observe_all are_new
observe_all-counts [] r h = ground arith
observe_all-counts (op ∷ ops) r h =
    let c = observe_operation-IsCounted op r in
    let rest =
      observe_all-counts ops (observe_operation op r).1
        (are_new-after op ops _ _ c.remembered (ground (arith, h)) (ground (arith, h))) in
    (
      omega (arith, c.observed, rest.0),
      ground (arith, c.others, rest.1),
      ground (arith, c.most, rest.2),
      elim (Bool-cases (observe_operation op r).0.mutated) [
        | inl yes' ↦ ground (arith, yes', c.own yes' (ground (arith, h)), rest.3)
        | inr no' ↦ ground (arith, no', c.least, rest.3)
      ],
      ground (arith, c.recovery, rest.4),
    )
