-- ===== src/Reconciliation/Calm.antt =====
-- What a run of the loop decides when nothing interrupts it.
use home_lighting_manager.Common.{
  ℕ, zero, suc, ◌+◌, String, Bool, true, false, not, ◌&&◌, ◌||◌, ◌==◌, nat_eq, if◌then◌else◌, some,
  List, [], ◌∷◌, ◌≡◌, refl, arith, length, Bool-cases, inl, inr,
}
use home_lighting_manager.Common.Dict.{Dict}
use home_lighting_manager.Reconciliation.{surfaces, Command, Check, SurfaceOwner}
use home_lighting_manager.Reconciliation.Reconciler.{
  Health, degraded, repaired, healthy, inspect, repair, publish, Reconciler, resumed, Adapter, ask,
  interrupt, retryable_evidence_gap, note_check, note_day, note_owners, owner_names, note,
}
use home_lighting_manager.Reconciliation.Loop.{
  go_on, is_current, note_repair, repair_all, settle, give_up, judge, examined, with_owners,
  attempts, finish_run, run,
}

-- An adapter whose awaits all resume, with nothing in between.
abbrev pub calm :
    (ℕ → Check) → Dict String SurfaceOwner → (ℕ → String) → (ℕ → Command → Bool) → Adapter
calm checks owners now sent = record {
  started = ([], resumed tt);
  inspected = λ n. ([], resumed (checks n, owners));
  now = now;
  sent = λ n c. ([], resumed (sent n c));
  rested = λ n. ([], resumed tt);
}

abbrev pub is_degraded : Health → Bool
is_degraded degraded = true
is_degraded repaired = false
is_degraded healthy = false

abbrev pub is_clean : Check → Bool
is_clean check = length check.issues == 0

-- Issues that no command and no later inspection can settle.
abbrev pub is_final : Check → Bool
unfolding retryable_evidence_gap
is_final check = length check.commands == 0 && not (retryable_evidence_gap check)

-- The attempt whose inspection decides, with `left` more after `attempt`.
pub deciding : (ℕ → Check) → ℕ → ℕ → ℕ
deciding checks zero attempt = attempt
deciding checks (suc left) attempt =
    if is_clean (checks attempt) || is_final (checks attempt)
    then attempt
    else deciding checks left (suc attempt)

pub record Decided (checks : ℕ → Check) (token k : ℕ) (s : Reconciler) : Type 0 where
  pub same : s.generation ≡ token
  pub unresolved : s.diag.unresolved ≡ (checks k).issues
  pub attempt : s.diag.retry_number ≡ k
  pub verdict : is_degraded s.diag.health ≡ not (is_clean (checks k))

module _ (checks : ℕ → Check) (owners : Dict String SurfaceOwner) (now : ℕ → String)
    (sent : ℕ → Command → Bool) (token : ℕ) (names : List String)
    (known : owner_names surfaces owners ≡ some names) where
  abbrev quiet : Adapter
  quiet = calm checks owners now sent

  repair_all-calm :
      (P : Reconciler → Type 0) (l : List Command) (done : Bool)
      (rest : Bool → Reconciler → Reconciler)
      → ((b : Bool) (s : Reconciler) → s.generation ≡ token → P (rest b s))
      → (r : Reconciler) → r.generation ≡ token
      → P (repair_all quiet token l done rest r)
  unfolding repair_all go_on interrupt note_repair
  repair_all-calm P [] done rest next r e = next done r e
  repair_all-calm P (c ∷ l) done rest next r e =
      let now_current : is_current token r ≡ true = ground arith in
      rw now_current (
        repair_all-calm P l (done || sent (length r.calls) c) rest next
          (if◌then◌else◌ (sent (length r.calls) c)
            (note (note_repair (now (suc (length r.calls))) c) (ask (repair c r.generation) r))
            (ask (repair c r.generation) r))
          (ground (arith, e)))

  -- What is known before a verification is judged.
  record Read (attempt : ℕ) (s : Reconciler) : Type 0 where
    same : s.generation ≡ token
    unresolved : s.diag.unresolved ≡ (checks attempt).issues
    attempt_noted : s.diag.retry_number ≡ attempt

  examined-Read :
      (attempt : ℕ) (r : Reconciler)
      → r.generation ≡ token
      → Read attempt (note (note_owners names) (examined quiet attempt (checks attempt) r))
  unfolding examined note_owners note_check note_day
  examined-Read attempt r e = record { same = e; unresolved = refl; attempt_noted = refl }

  judge-final :
      (attempt : ℕ) (done : Bool) (rest : Reconciler → Reconciler) (s : Reconciler)
      → Read attempt s
      → (attempt == 2 || (is_clean (checks attempt) || is_final (checks attempt))) ≡ true
      → Decided checks token attempt (judge attempt done (checks attempt) rest s)
  unfolding judge settle give_up
  judge-final attempt done rest s h e = ground arith

  judge-open :
      (attempt : ℕ) (done : Bool) (rest : Reconciler → Reconciler) (s : Reconciler)
      → (attempt == 2 || (is_clean (checks attempt) || is_final (checks attempt))) ≡ false
      → judge attempt done (checks attempt) rest s ≡ rest s
  unfolding judge
  judge-open attempt done rest s e = ground arith

  abbrev read : ℕ → Reconciler → Reconciler
  read attempt r =
      note (note_owners names) (examined quiet attempt (checks attempt) (ask inspect r))

  abbrev again : ℕ → ℕ → Bool → Reconciler → Reconciler
  again left attempt done =
      repair_all quiet token (checks attempt).commands done
        λ repaired s. attempts quiet token left (suc attempt) repaired (ask publish s)

  attempts-judge :
      (left attempt : ℕ) (done : Bool) (r : Reconciler)
      → r.generation ≡ token
      → attempts quiet token (suc left) attempt done r
        ≡ judge attempt done (checks attempt) (again left attempt done) (read attempt r)
  unfolding attempts go_on interrupt with_owners
  attempts-judge left attempt done r e =
      let now_current : is_current token r ≡ true = ground arith in rw (now_current, known)

  attempts-Decided :
      (left attempt : ℕ) (done : Bool) (r : Reconciler)
      → left + attempt ≡ 2
      → r.generation ≡ token
      → Decided checks token
          (deciding checks left attempt)
          (attempts quiet token (suc left) attempt done r)
  unfolding deciding examined
  attempts-Decided zero attempt done r most e = rw (attempts-judge zero attempt done r e) (
      judge-final attempt done (again zero attempt done) (read attempt r)
        (examined-Read attempt (ask inspect r) e) (ground arith))
  attempts-Decided (suc left) attempt done r most e =
      rw (attempts-judge (suc left) attempt done r e)
        elim (Bool-cases (is_clean (checks attempt) || is_final (checks attempt))) [
          | inl final ↦ rw final (
              judge-final attempt done (again (suc left) attempt done) (read attempt r)
                (examined-Read attempt (ask inspect r) e) (ground arith))
          | inr open' ↦ rw open' (
              rw
                (judge-open attempt done (again (suc left) attempt done) (read attempt r)
                  (ground arith))
                (repair_all-calm (Decided checks token (deciding checks left (suc attempt)))
                  (checks attempt).commands done _
                  (λ b s same.
                    attempts-Decided left (suc attempt) b (ask publish s) (omega arith) same)
                  (read attempt r) e))
        ]

  -- A run whose awaits all resume with nothing in between, of the current generation and with the owners of the
  -- four surfaces known, ends by the first of three inspections that finds no issue, or that finds issues for
  -- which there is neither a command nor a later inspection to wait for, and by the third where none does. The
  -- generation stays, that inspection's issues are the unresolved ones, its number is the retry number, the
  -- health is degraded exactly when it found an issue, and no reconciliation is pending.
  pub run-Decided :
      (r : Reconciler)
      → r.generation ≡ token
      → Decided checks token (deciding checks 2 0) (run quiet token r)
        × ((run quiet token r).diag.pending_reconciliation ≡ false)
  unfolding run go_on finish_run interrupt
  run-Decided r e =
      let s : Reconciler = attempts quiet token 3 0 false r in
      let decided : Decided checks token (deciding checks 2 0) s =
        attempts-Decided 2 0 false r (omega arith) e in
      let still : is_current token s ≡ true = ground (arith, decided.same) in
      rw still (
        record {
          same = decided.same;
          unresolved = decided.unresolved;
          attempt = decided.attempt;
          verdict = decided.verdict;
        },
        refl,
      )
