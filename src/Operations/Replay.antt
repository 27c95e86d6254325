-- ===== src/Operations/Replay.antt =====
-- What an operation that follows a committed one can no longer do: `_seen` and `_latest_sequence`.
use home_lighting_manager.Common.{
  ℕ, ◌≤◌, String, Bool, true, false, List, [], ◌∷◌, ◌≡◌, sym, ap, ◌∙◌, arith, any, leb, contains,
  nat_eq, string_eq, ◌==◌, Bool-cases, inl, inr,
}
use home_lighting_manager.Operations.Record.{
  HomeownerOperation, MemberOutcome, Operations, eligible_members, ids_of, latest_of,
}
use home_lighting_manager.Operations.Transaction.{
  sync_generation, consume, finish, apply, record_sequences,
}
use home_lighting_manager.Operations.Outcome.{consumed}
use home_lighting_manager.Operations.Atomic.{apply-Committed, apply-mutated}
use home_lighting_manager.Operations.Memory.{any-append_bounded, record_sequences-reach}

-- The memory belongs to the generation of the engine.
abbrev pub IsSynced : Operations → Type 0
IsSynced s = s.generation ≡ s.engine.generation

pub sync-of_synced : (s : Operations) → IsSynced s → sync_generation s ≡ s
unfolding sync_generation
sync-of_synced s h = ground arith

consumed-generation :
    (op : HomeownerOperation) (s : Operations) → (consumed op s).generation ≡ s.engine.generation
unfolding consume sync_generation
consumed-generation op s = ground arith

consumed-latest :
    (op : HomeownerOperation) (s : Operations)
    → IsSynced s
    → (consumed op s).latest_sequence ≡ s.latest_sequence
unfolding consume sync_generation
consumed-latest op s h = ground arith

any_mono {ℓ} :
    {A : Type ℓ} (p q : A → Bool) (l : List A)
    → ((a : A) → p a ≡ true → q a ≡ true)
    → any p l ≡ true
    → any q l ≡ true
any_mono p q [] h k = k
any_mono p q (a ∷ l) h k = ground (arith, h a, any_mono p q l h)

-- Some eligible member of the later operation is a member of the earlier one.
abbrev pub Overlaps : HomeownerOperation → HomeownerOperation → Type 0
Overlaps op later =
    any (λ m. contains m.entity_id (ids_of op.members)) (eligible_members later) ≡ true

module _ (op : HomeownerOperation) (s : Operations) (mutated : (apply op s).0.mutated ≡ true) where
  abbrev next : Operations
  next = (apply op s).1

  committed-IsSynced : IsSynced next
  unfolding finish
  committed-IsSynced =
      ap (λ a. a.1.generation) (apply-Committed op s mutated).answer_eq
      ∙ consumed-generation op s
      ∙ sym ((apply-mutated op s mutated).2)

  next-seen : next.seen ≡ (consumed op s).seen
  unfolding finish
  next-seen = ap (λ a. a.1.seen) (apply-Committed op s mutated).answer_eq

  next-latest :
      next.latest_sequence
      ≡ record_sequences (ids_of op.members) op.sequence (consumed op s).latest_sequence
  unfolding finish
  next-latest = ap (λ a. a.1.latest_sequence) (apply-Committed op s mutated).answer_eq

  seen_again :
      (id : String)
      → id ≡ op.operation_id
      → any (λ entry. entry.0 == id) (sync_generation next).seen ≡ true
  unfolding consume
  seen_again id same =
      rw (sync-of_synced next committed-IsSynced, next-seen)
        (any-append_bounded (λ entry. entry.0 == id) 128 (op.operation_id, op.sequence)
          (sync_generation s).seen (omega arith) (ground arith))

  -- After a committed operation, the next one is not applied if it has the same identifier, whatever
  -- else it says.
  pub apply_duplicate :
      (later : HomeownerOperation)
      → later.operation_id ≡ op.operation_id
      → (apply later next).0.mutated ≡ false
  apply_duplicate later same = elim (Bool-cases (apply later next).0.mutated) [
    | inl yes' ↦
        cc (seen_again later.operation_id same, (apply-Committed later next yes').early.unseen)
    | inr no' ↦ no'
  ]

  reached :
      (n : ℕ) (m : MemberOutcome)
      → n ≤ op.sequence
      → contains m.entity_id (ids_of op.members) ≡ true
      → leb n (latest_of next.latest_sequence m.entity_id) ≡ true
  reached n m le h = rw next-latest (
      ground (
        arith,
        record_sequences-reach op.sequence (ids_of op.members) (consumed op s).latest_sequence
            m.entity_id h,
      ))

  -- After a committed operation, the next one is not applied if its sequence is not above that of
  -- the committed one and some eligible member of it is a member of the committed one.
  pub apply_stale :
      (later : HomeownerOperation)
      → later.sequence ≤ op.sequence
      → Overlaps op later
      → (apply later next).0.mutated ≡ false
  apply_stale later le shared = elim (Bool-cases (apply later next).0.mutated) [
    | inl yes' ↦ cc (
      any_mono (λ m. contains m.entity_id (ids_of op.members))
          (λ m. leb later.sequence (latest_of next.latest_sequence m.entity_id))
          (eligible_members later) (λ m. reached later.sequence m le) shared,
      rw (consumed-latest later next committed-IsSynced) at
          ((apply-Committed later next yes').late.newer),
    )
    | inr no' ↦ no'
  ]
