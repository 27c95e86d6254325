-- ===== src/Reconciliation/Runs.antt =====
-- What a run of the loop keeps, whatever its awaits bring: a rule, and what follows from it.
use home_lighting_manager.Common.{
  ℕ, zero, suc, String, Bool, true, false, ◌||◌, nat_eq, if◌then◌else◌, Option, none, some, List,
  [], ◌∷◌, ◌≡◌, refl, arith, Bool-cases, inl, inr, length,
}
use home_lighting_manager.Reconciliation.{surfaces, Command, Check}
use home_lighting_manager.Reconciliation.Reconciler.{
  Diag, inspect, repair, publish, Reconciler, Interruption, Wake, resumed, cancelled, raised,
  Adapter, ask, interrupt, note_failure, note_day, note_check, note_owners, owner_names, note,
}
use home_lighting_manager.Reconciliation.Loop.{
  go_on, is_current, note_repair, repair_all, settle, give_up, judge, examined, with_owners,
  attempts,
}

-- What holds with `n` attempts left holds until the next inspection.
pub record IsKept (token : ℕ) (P : ℕ → Reconciler → Type 0) : Type 0 where
  pub floor : (n : ℕ) (r : Reconciler) → P n r → P 0 r
  pub interrupts : (n : ℕ) (l : List Interruption) (r : Reconciler) → P n r → P n (interrupt l r)
  pub notes :
      (n : ℕ) (f : Diag → Diag) (r : Reconciler)
      → (f r.diag).pending_reconciliation ≡ r.diag.pending_reconciliation
      → P n r
      → P n (note f r)
  pub inspects : (n : ℕ) (r : Reconciler) → P (suc n) r → P n (ask inspect r)
  pub publishes : (n : ℕ) (r : Reconciler) → P n r → P n (ask publish r)
  pub repairs :
      (n : ℕ) (c : Command) (r : Reconciler)
      → is_current token r ≡ true
      → P n r
      → P n (ask (repair c r.generation) r)

module _ {token : ℕ} {P : ℕ → Reconciler → Type 0} (k : IsKept token P) where
  failure-kept : (n : ℕ) (e : String) (r : Reconciler) → P n r → P n (note_failure e r)
  unfolding note_failure
  failure-kept n e r h = k.notes n (λ d. (note_failure e (record r { diag = d })).diag) r refl h

  go_on-kept :
      {A : Type 0} (n : ℕ) (w : List Interruption × Wake A) (rest : A → Reconciler → Reconciler)
      (r : Reconciler)
      → ((a : A) (s : Reconciler) → P n s → P 0 (rest a s))
      → P n r
      → P 0 (go_on w rest r)
  unfolding go_on
  go_on-kept n (l, resumed a) rest r next h = next a (interrupt l r) (k.interrupts n l r h)
  go_on-kept n (l, cancelled) rest r next h = k.floor n (interrupt l r) (k.interrupts n l r h)
  go_on-kept n (l, raised e) rest r next h =
      k.floor n (note_failure e (interrupt l r))
        (failure-kept n e (interrupt l r) (k.interrupts n l r h))

  if_current-kept :
      (n : ℕ) (r s : Reconciler)
      → P n r
      → (is_current token r ≡ true → P 0 s)
      → P 0 (if◌then◌else◌ (is_current token r) s r)
  if_current-kept n r s h next = elim (Bool-cases (is_current token r)) [
    | inl now ↦ rw now (next now)
    | inr later ↦ rw later (k.floor n r h)
  ]

  repair_all-kept :
      (n : ℕ) (a : Adapter) (l : List Command) (done : Bool) (rest : Bool → Reconciler → Reconciler)
      → ((b : Bool) (s : Reconciler) → P n s → P 0 (rest b s))
      → (r : Reconciler) → P n r
      → P 0 (repair_all a token l done rest r)
  unfolding repair_all note_repair
  repair_all-kept n a [] done rest next r h = next done r h
  repair_all-kept n a (c ∷ l) done rest next r h = if_current-kept n r _ h λ now.
      go_on-kept n (a.sent (length r.calls) c) _ (ask (repair c r.generation) r)
        (λ sent s kept.
          if_current-kept n s _ kept
            λ _. repair_all-kept n a l (done || sent) rest next _ (noted sent s kept))
        (k.repairs n c r now h)
    where
      noted :
          (sent : Bool) (s : Reconciler)
          → P n s
          → P n (if◌then◌else◌ sent (note (note_repair (a.now (length s.calls)) c) s) s)
      noted true s kept = k.notes n (note_repair (a.now (length s.calls)) c) s refl kept
      noted false s kept = kept

  judge-kept :
      (n attempt : ℕ) (done : Bool) (check : Check) (rest : Reconciler → Reconciler)
      → ((s : Reconciler) → P n s → P 0 (rest s))
      → (r : Reconciler) → P n r
      → P 0 (judge attempt done check rest r)
  unfolding judge settle give_up
  judge-kept n attempt done check rest next r h = ground (
    arith,
    next r h,
    k.floor n _ (k.notes n (settle done) r refl h),
    k.floor n _ (k.notes n give_up r refl h),
  )

  with_owners-kept :
      (n : ℕ) (names : Option (List String)) (rest : Reconciler → Reconciler) (r : Reconciler)
      → ((s : Reconciler) → P n s → P 0 (rest s))
      → P n r
      → P 0 (with_owners names rest r)
  unfolding with_owners note_owners
  with_owners-kept n none rest r next h = k.floor n _ (failure-kept n "KeyError" r h)
  with_owners-kept n (some names) rest r next h =
      next (note (note_owners names) r) (k.notes n (note_owners names) r refl h)

  examined-kept :
      (n : ℕ) (a : Adapter) (attempt : ℕ) (check : Check) (r : Reconciler)
      → P n r
      → P n (examined a attempt check r)
  unfolding examined note_day note_check
  examined-kept n a attempt check r h =
      let now = a.now (length r.calls) in
      k.notes n (note_check now attempt check) (note (note_day _) r) refl
        (k.notes n (note_day _) r (ground arith) h)

  rested-kept :
      (n : ℕ) (a : Adapter) (attempt : ℕ) (rest : Reconciler → Reconciler)
      → ((t : Reconciler) → P n t → P 0 (rest t))
      → (s : Reconciler) → P n s
      → P 0 (go_on (a.rested attempt) (λ _ t. rest t) (ask publish s))
  rested-kept n a attempt rest next s h =
      go_on-kept n (a.rested attempt) _ (ask publish s) (λ _. next) (k.publishes n s h)

  attempts-kept :
      (n : ℕ) (a : Adapter) (attempt : ℕ) (done : Bool) (r : Reconciler)
      → P n r
      → P 0 (attempts a token n attempt done r)
  unfolding attempts
  attempts-kept zero a attempt done r h = h
  attempts-kept (suc n) a attempt done r h =
      go_on-kept n (a.inspected attempt) _ (ask inspect r)
        (λ answer s kept. if_current-kept n s _ kept λ _.
          with_owners-kept n (owner_names surfaces answer.1) _ (examined a attempt answer.0 s)
            (judge-kept n attempt done answer.0 _ (
              repair_all-kept n a answer.0.commands done _
                (λ b. rested-kept n a attempt _ (attempts-kept n a (suc attempt) b))))
            (examined-kept n a attempt answer.0 s kept))
        (k.inspects n r h)

  -- All of a run but its `finally` clause.
  pub body-kept :
      (a : Adapter) (r : Reconciler)
      → P 3 r
      → P 0 (go_on a.started (λ _ s. attempts a token 3 0 false s) r)
  body-kept a r h = go_on-kept 3 a.started _ r (λ _ s kept. attempts-kept 3 a 0 false s kept) h
