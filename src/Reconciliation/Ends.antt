-- ===== src/Reconciliation/Ends.antt =====
-- How a run of the loop ends, and what it asks of the adapter.
use home_lighting_manager.Common.{
  ℕ, suc, ◌+◌, ◌≤◌, true, not, nat_eq, List, [], ◌∷◌, ◌≡◌, refl, arith, ◌∙◌,
}
use home_lighting_manager.Reconciliation.Reconciler.{
  AdapterCall, inspect, repair, publish, Reconciler, Interruption, scheduled, closed, Adapter,
  interrupt, schedule, close,
}
use home_lighting_manager.Reconciliation.Loop.{is_current, finish_run, run}
use home_lighting_manager.Reconciliation.Runs.{IsKept, body-kept}

abbrev pub inspections : List AdapterCall → ℕ
inspections [] = 0
inspections (inspect ∷ l) = suc (inspections l)
inspections (repair _ _ ∷ l) = inspections l
inspections (publish ∷ l) = inspections l

-- Every repair is asked for at the generation of the run.
abbrev pub RepairsAt : ℕ → List AdapterCall → Type 0
RepairsAt token [] = Unit {0}
RepairsAt token (inspect ∷ l) = RepairsAt token l
RepairsAt token (repair _ g ∷ l) = (g ≡ token) × RepairsAt token l
RepairsAt token (publish ∷ l) = RepairsAt token l

abbrev Pending : ℕ → Reconciler → Type 0
Pending n r = r.diag.pending_reconciliation ≡ true

abbrev Bounded : ℕ → ℕ → Reconciler → Type 0
Bounded most n r = inspections r.calls + n ≤ most

abbrev AtToken : ℕ → ℕ → Reconciler → Type 0
AtToken token n r = RepairsAt token r.calls

interrupt-Pending :
    (l : List Interruption) (r : Reconciler) → Pending 0 r → Pending 0 (interrupt l r)
unfolding interrupt schedule close
interrupt-Pending [] r h = h
interrupt-Pending (scheduled reason ∷ l) r h = interrupt-Pending l (schedule reason r) refl
interrupt-Pending (closed ∷ l) r h = interrupt-Pending l (close r) h

inspections-interrupt :
    (l : List Interruption) (r : Reconciler)
    → inspections (interrupt l r).calls ≡ inspections r.calls
unfolding interrupt schedule close
inspections-interrupt [] r = refl
inspections-interrupt (scheduled reason ∷ l) r = inspections-interrupt l (schedule reason r)
inspections-interrupt (closed ∷ l) r = inspections-interrupt l (close r)

interrupt-AtToken :
    (token : ℕ) (l : List Interruption) (r : Reconciler)
    → AtToken token 0 r
    → AtToken token 0 (interrupt l r)
unfolding interrupt schedule close
interrupt-AtToken token [] r h = h
interrupt-AtToken token (scheduled reason ∷ l) r h = interrupt-AtToken token l (schedule reason r) h
interrupt-AtToken token (closed ∷ l) r h = interrupt-AtToken token l (close r) h

Pending-IsKept : (token : ℕ) → IsKept token Pending
Pending-IsKept token = record {
  floor = λ n r h. h;
  interrupts = λ n l r h. interrupt-Pending l r h;
  notes = λ n f r e h. e ∙ h;
  inspects = λ n r h. h;
  publishes = λ n r h. h;
  repairs = λ n c r now h. h;
}

Bounded-IsKept : (token most : ℕ) → IsKept token (Bounded most)
Bounded-IsKept token most = record {
  floor = λ n r h. omega arith;
  interrupts = λ n l r h. omega (arith, inspections-interrupt l r);
  notes = λ n f r e h. h;
  inspects = λ n r h. omega arith;
  publishes = λ n r h. h;
  repairs = λ n c r now h. h;
}

AtToken-IsKept : (token : ℕ) → IsKept token (AtToken token)
AtToken-IsKept token = record {
  floor = λ n r h. h;
  interrupts = λ n l r h. interrupt-AtToken token l r h;
  notes = λ n f r e h. h;
  inspects = λ n r h. h;
  publishes = λ n r h. h;
  repairs = λ n c r now h. (ground (arith, now), h);
}

module _ (a : Adapter) (token : ℕ) (r : Reconciler) where
  -- A run that begins while a reconciliation is pending ends, whatever its awaits bring: with exceptions,
  -- cancellations and calls of `schedule` and `close` in between, a reconciliation is pending afterwards
  -- exactly when the generation is no longer that of the run.
  pub run-pending :
      r.diag.pending_reconciliation ≡ true
      → (run a token r).diag.pending_reconciliation ≡ not (is_current token (run a token r))
  unfolding run finish_run
  run-pending h = ground (arith, body-kept (Pending-IsKept token) a r h)

  -- A run asks for at most three inspections, whatever its awaits bring.
  pub run-inspections : inspections (run a token r).calls ≤ inspections r.calls + 3
  unfolding run finish_run
  run-inspections =
      ground (arith, body-kept (Bounded-IsKept token (inspections r.calls + 3)) a r (omega arith))

  -- Every repair that a run asks for is asked for at the generation of the run: none is sent once `schedule`
  -- or `close` has been called, at whatever await that happens. The calls before the run are to be so too.
  pub run-RepairsAt : RepairsAt token r.calls → RepairsAt token (run a token r).calls
  unfolding run finish_run
  run-RepairsAt h = ground (arith, body-kept (AtToken-IsKept token) a r h)
