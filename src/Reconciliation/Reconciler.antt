-- ===== src/Reconciliation/Reconciler.antt =====
-- runtime.py: the debounce and retry loop. What the adapter answers, and what happens to the
-- Reconciler while the loop awaits it, are parameters. `calls` lists what is asked of the adapter,
-- the latest first.
use home_lighting_manager.Common.{
  ℕ, zero, suc, String, Bool, true, not, ◌&&◌, Option, none, some, List, [], ◌∷◌, if◌then◌else◌,
  ◌==◌, nat_eq, string_eq, option_eq, length, all,
}
use home_lighting_manager.Common.Dict.{Dict, lookup}
use home_lighting_manager.Reconciliation.{
  scene_evidence_pending, Command, Issue, Check, SurfaceOwner,
}

pub data Health : Type 0 where
  degraded repaired healthy : Health

-- `diag`; a key that is absent at first is none.
pub record Diag : Type 0 where
  pub health : Health
  pub last_error : Option String
  pub pending_reconciliation : Bool
  pub retry_number : ℕ
  pub repair_count_today : ℕ
  pub unresolved : List Issue
  pub generation : ℕ
  pub last_check_trigger : Option String
  pub repair_count_date : Option String
  pub last_check : Option String
  pub intentionally_unmanaged : Dict String String
  pub owners : List String
  pub last_repair : Option (String × String × String)

-- An inspection, a repair with the generation at which it is asked for, and a publication.
pub data AdapterCall : Type 0 where
  inspect : AdapterCall
  repair : Command → ℕ → AdapterCall
  publish : AdapterCall

pub record Reconciler : Type 0 where
  pub generation : ℕ
  pub diag : Diag
  pub calls : List AdapterCall

-- What other tasks do while the loop awaits: each of them cancels the task of the loop.
pub data Interruption : Type 0 where
  scheduled : String → Interruption
  closed : Interruption

-- How an await ends: with a value, by cancellation or by another exception.
pub data Wake (A : Type 0) : Type 0 where
  resumed : A → Wake A
  cancelled : Wake A
  raised : String → Wake A

-- What the loop gets at each of its awaits, and the date and time that it reads, by the attempt or by
-- the number of calls so far.
pub record Adapter : Type 0 where
  pub started : List Interruption × Wake (Unit {0})
  pub inspected : ℕ → List Interruption × Wake (Check × Dict String SurfaceOwner)
  pub now : ℕ → String
  pub sent : ℕ → Command → List Interruption × Wake Bool
  pub rested : ℕ → List Interruption × Wake (Unit {0})

abbrev pub ask : AdapterCall → Reconciler → Reconciler
ask c r = record r { calls = c ∷ r.calls }

-- `_retryable_evidence_gap`
unfoldable pub retryable_evidence_gap : Check → Bool
retryable_evidence_gap check =
    not (length check.issues == 0)
    && (length check.commands == 0
        && all (λ issue. issue.problem == some scene_evidence_pending) check.issues)

-- `schedule`, up to the new task
unfoldable pub schedule : String → Reconciler → Reconciler
schedule reason r = record {
  generation = suc r.generation;
  diag = record r.diag {
    generation = suc r.generation;
    pending_reconciliation = true;
    last_check_trigger = some reason;
    retry_number = 0;
  };
  calls = publish ∷ r.calls;
}

unfoldable pub close : Reconciler → Reconciler
close r = record r { generation = suc r.generation }

unfoldable pub interrupt : List Interruption → Reconciler → Reconciler
unfolding schedule close
interrupt [] r = r
interrupt (scheduled reason ∷ l) r = interrupt l (schedule reason r)
interrupt (closed ∷ l) r = interrupt l (close r)

-- the handler of other exceptions
unfoldable pub note_failure : String → Reconciler → Reconciler
note_failure error r = record r {
  diag = record r.diag {
    health = degraded;
    last_error = some error;
    unresolved =
        record {
          surface = none;
          entity = none;
          problem = some "Inspection/repair failed; see error type";
          owner = none;
          difference = [];
        }
        ∷ [];
  };
}

-- the updates after an inspection, of one day and then of one check
unfoldable pub note_day : String → Diag → Diag
note_day day d =
    if d.repair_count_date == some day
    then d
    else record d { repair_count_date = some day; repair_count_today = 0 }

unfoldable pub note_check : String → ℕ → Check → Diag → Diag
note_check now attempt check d = record d {
  last_check = some now;
  retry_number = attempt;
  unresolved = check.issues;
  intentionally_unmanaged = check.skipped;
}

unfoldable pub note_owners : List String → Diag → Diag
note_owners owners d = record d { owners = owners }

-- the owners of the four surfaces, none where one is missing
unfoldable pub owner_names : List String → Dict String SurfaceOwner → Option (List String)
unfolding lookup
owner_names [] owners = some []
owner_names (s ∷ l) owners = elim (lookup s owners) [
  | none ↦ none
  | some owner ↦ elim (owner_names l owners) [ none ↦ none | some r ↦ some (owner.owner ∷ r) ]
]

-- the first ten characters
unfoldable pub day_of : ℕ → String → String
day_of zero s = String.[]
day_of (suc n) String.[] = String.[]
day_of (suc n) (String.◌∷◌ c s) = String.◌∷◌ c (day_of n s)

abbrev pub note : (Diag → Diag) → Reconciler → Reconciler
note f r = record r { diag = f r.diag }
