-- ===== src/Reconciliation/Loop.antt =====
-- runtime.py: `_run`, the loop of at most three verifications.
use home_lighting_manager.Common.{
  ℕ, zero, suc, ◌+◌, String, Bool, false, not, ◌&&◌, ◌||◌, Option, none, some, List, [], ◌∷◌,
  if◌then◌else◌, ◌==◌, nat_eq, length,
}
use home_lighting_manager.Common.Dict.{Dict}
use home_lighting_manager.Reconciliation.{surfaces, Command, Check, SurfaceOwner}
use home_lighting_manager.Reconciliation.Reconciler.{
  degraded, repaired, healthy, Diag, inspect, repair, publish, Reconciler, Interruption, Wake,
  resumed, cancelled, raised, Adapter, ask, retryable_evidence_gap, interrupt, note_failure,
  note_day, note_check, note_owners, owner_names, day_of, note,
}

-- How the loop goes on after an await.
unfoldable pub go_on :
    {A : Type 0}
    → List Interruption × Wake A
    → (A → Reconciler → Reconciler)
    → Reconciler
    → Reconciler
unfolding interrupt note_failure
go_on (l, resumed a) rest r = rest a (interrupt l r)
go_on (l, cancelled) rest r = interrupt l r
go_on (l, raised error) rest r = note_failure error (interrupt l r)

abbrev pub is_current : ℕ → Reconciler → Bool
is_current token r = token == r.generation

unfoldable pub note_repair : String → Command → Diag → Diag
note_repair now command d = record d {
  last_repair = some (now, command.surface, command.entity);
  repair_count_today = d.repair_count_today + 1;
}

-- The loop over the commands; `rest` is what follows it, by whether something was repaired.
unfoldable pub repair_all :
    Adapter → ℕ → List Command → Bool → (Bool → Reconciler → Reconciler) → Reconciler → Reconciler
unfolding go_on note_repair
repair_all a token [] done rest r = rest done r
repair_all a token (command ∷ l) done rest r =
    let asked = ask (repair command r.generation) r in
    let noted = λ (sent : Bool) (s : Reconciler).
      if sent then note (note_repair (a.now (length s.calls)) command) s else s in
    let answered = λ (sent : Bool) (s : Reconciler).
      if is_current token s then repair_all a token l (done || sent) rest (noted sent s) else s in
    if is_current token r then go_on (a.sent (length r.calls) command) answered asked else r

unfoldable pub settle : Bool → Diag → Diag
settle done d = record d { health = if done then repaired else healthy; last_error = none }

unfoldable pub give_up : Diag → Diag
give_up d = record d {
  health = degraded;
  last_error = some "Unresolved discrepancies; bounded verification stopped";
}

-- What the loop does with a verification; `rest` is the repairs and the next attempt.
unfoldable pub judge : ℕ → Bool → Check → (Reconciler → Reconciler) → Reconciler → Reconciler
unfolding retryable_evidence_gap settle give_up
judge attempt done check rest r =
    if length check.issues == 0
    then note (settle done) r
    else if attempt == 2 || (length check.commands == 0 && not (retryable_evidence_gap check))
    then note give_up r
    else rest r

unfoldable pub examined : Adapter → ℕ → Check → Reconciler → Reconciler
unfolding note_day note_check day_of
examined a attempt check r =
    let now = a.now (length r.calls) in
    note (note_check now attempt check) (note (note_day (day_of 10 now)) r)

-- The reading of the owners raises KeyError where one is missing.
unfoldable pub with_owners :
    Option (List String) → (Reconciler → Reconciler) → Reconciler → Reconciler
unfolding note_failure note_owners
with_owners none rest r = note_failure "KeyError" r
with_owners (some names) rest r = rest (note (note_owners names) r)

-- The attempts that are left, and the number of the next one.
unfoldable pub attempts : Adapter → ℕ → ℕ → ℕ → Bool → Reconciler → Reconciler
unfolding go_on examined with_owners judge repair_all owner_names
attempts a token zero attempt done r = r
attempts a token (suc left) attempt done r =
    let again = λ (repaired : Bool) (s : Reconciler).
      go_on (a.rested attempt) (λ _ t. attempts a token left (suc attempt) repaired t)
        (ask publish s) in
    let verified = λ (answer : Check × Dict String SurfaceOwner) (s : Reconciler).
      if is_current token s
      then with_owners (owner_names surfaces answer.1)
          (judge attempt done answer.0 (repair_all a token answer.0.commands done again))
          (examined a attempt answer.0 s)
      else s in
    go_on (a.inspected attempt) verified (ask inspect r)

-- the `finally` clause
unfoldable pub finish_run : ℕ → Reconciler → Reconciler
finish_run token r =
    if is_current token r
    then ask publish (note (λ d. record d { pending_reconciliation = false }) r)
    else r

-- `_run`
unfoldable pub run : Adapter → ℕ → Reconciler → Reconciler
unfolding attempts finish_run go_on
run a token r = finish_run token (go_on a.started (λ _ s. attempts a token 3 0 false s) r)
