-- ===== src/Reconciliation/Reasons.antt =====
-- What every command of a plan rests on, and a rule for what the making of a plan keeps.
use home_lighting_manager.Common.{
  String, Bool, true, false, not, ◌&&◌, ◌||◌, Option, none, some, [], ◌∷◌, if◌then◌else◌, ◌==◌,
  string_eq, contains, is_some, ◌≡◌, refl, arith, ◌⊎◌,
}
use home_lighting_manager.Common.Dict.{lookup}
use home_lighting_manager.Common.Action.{Result, ok, err}
use home_lighting_manager.Model.{Fields}
use home_lighting_manager.Reconciliation.{
  liquor, Command, Issue, Check, EntityState, SurfaceOwner, Difference, ◌>>=◌,
}
use home_lighting_manager.Reconciliation.Difference.{diff_state, static_diff}
use home_lighting_manager.Reconciliation.Baseline.{BaselineCommand}
use home_lighting_manager.Reconciliation.Compare.{
  Observed, add_issue, add_command, scene_command, report_difference, repair_static,
}
use home_lighting_manager.Reconciliation.Verify.{manual_of, is_hands_off, or_empty, skip}

abbrev pub is_reachable : Option EntityState → Bool
is_reachable none = false
is_reachable (some s) = not (s.state == "unknown" || s.state == "unavailable")

-- Nothing keeps the plan off a surface: it is not suppressed, and no session or homeowner owns it.
pub record IsFree (i : Observed) (surface : String) (o : SurfaceOwner) : Type 0 where
  pub unsuppressed : is_some (lookup surface i.suppressed) ≡ false
  pub unclaimed : is_hands_off o.owner ≡ false

-- An entity that the homeowner does not hold, or that the homeowner has turned off for good.
abbrev pub IsYielded : SurfaceOwner → Command → Type 0
IsYielded o c =
    (contains c.entity (manual_of o) ≡ false)
    ⊎ ((contains c.entity o.manual_off_entities ≡ true)
        × (contains c.entity o.pending_intent_entities ≡ false)
        × (c.service ≡ "light.turn_off"))

-- The liquor overlay of an open door, a light of a free surface, or a scene of a free surface, which
-- carries the entities that it must not touch.
pub data Reason (i : Observed) (door : Bool) (o : SurfaceOwner) (c : Command) : Type 0 where
  overlay :
      c.surface ≡ "main_area"
      → door ≡ true
      → is_some (lookup c.surface i.suppressed) ≡ false
      → (o.owner == "sync" || o.owner == "spa") ≡ false
      → is_reachable (lookup c.entity i.states) ≡ true
      → Reason i door o c
  light :
      IsFree i c.surface o
      → contains c.entity (or_empty (lookup c.surface i.members)) ≡ true
      → (c.entity == liquor && door) ≡ false
      → IsYielded o c
      → is_reachable (lookup c.entity i.states) ≡ true
      → Reason i door o c
  scene :
      IsFree i c.surface o
      → c ≡ scene_command c.surface c.entity (manual_of o)
      → (c.surface == "main_area" && door) ≡ false
      → Reason i door o c

-- `noted` is what holds once an issue has been added.
pub record IsRule (i : Observed) (door : Bool) (P noted : Check → Type 0) : Type 0 where
  pub issue : (x : Issue) (out : Check) → P out → noted (add_issue x out)
  pub plain : (out : Check) → noted out → P out
  pub command :
      (c : Command) (o : SurfaceOwner) (out : Check)
      → lookup c.surface i.owners ≡ some o
      → Reason i door o c
      → noted out
      → P (add_command c out)
  pub skips : (surface reason : String) (out : Check) → P out → P (skip surface reason out)

pub static_diff-reachable :
    (s : Option EntityState) (service : String) (parameters : Fields)
    → (static_diff s service parameters).1 ≡ is_reachable s
unfolding static_diff diff_state
static_diff-reachable none service parameters = refl
static_diff-reachable (some s) service parameters = ground arith

abbrev pub Returns : {A : Type 0} → (A → Type 0) → Result A → Type 0
Returns P (ok a) = P a
Returns P (err _) = Unit {0}

pub bind-Returns :
    {A B : Type 0} (P : B → Type 0) (m : Result A) (f : A → Result B)
    → ((a : A) → m ≡ ok a → Returns P (f a))
    → Returns P (m >>= f)
bind-Returns P (ok a) f h = h a refl
bind-Returns P (err e) f h = tt

pub after-Returns :
    {A B : Type 0} (Q : A → Type 0) (P : B → Type 0) (m : Result A) (f : A → Result B)
    → Returns Q m
    → ((a : A) → Q a → Returns P (f a))
    → Returns P (m >>= f)
after-Returns Q P (ok a) f h next = next a h
after-Returns Q P (err e) f h next = tt

pub if-Returns :
    {A : Type 0} (P : A → Type 0) (b : Bool) (x y : Result A)
    → (b ≡ true → Returns P x)
    → (b ≡ false → Returns P y)
    → Returns P (if b then x else y)
if-Returns P true x y h k = h refl
if-Returns P false x y h k = k refl

module _ {i : Observed} {door : Bool} {P noted : Check → Type 0}
    (rule : IsRule i door P noted) where
  pub reported :
      (d : Difference × Bool) (surface : String) (command : BaselineCommand) (out : Check)
      (o : SurfaceOwner)
      → lookup surface i.owners ≡ some o
      → (d.1 ≡ true
          → Reason i door o (record {
            surface = surface;
            service = command.0;
            entity = command.1;
            parameters = command.2;
          }))
      → P out
      → P (report_difference d surface command out)
  unfolding report_difference
  reported ([], available) surface command out o owned why h = h
  reported (d ∷ ds, true) surface (service, entity, parameters) out o owned why h =
      rule.command _ o _ owned (why refl) (rule.issue _ out h)
  reported (d ∷ ds, false) surface (service, entity, parameters) out o owned why h =
      rule.plain _ (rule.issue _ out h)

  -- A command is given only for an entity that can be reached.
  pub repair_static-kept :
      (surface : String) (command : BaselineCommand) (out : Check) (o : SurfaceOwner)
      → lookup surface i.owners ≡ some o
      → (is_reachable (lookup command.1 i.states) ≡ true
          → Reason i door o (record {
            surface = surface;
            service = command.0;
            entity = command.1;
            parameters = command.2;
          }))
      → P out
      → P (repair_static i.states surface command out)
  unfolding repair_static
  repair_static-kept surface command out o owned why h =
      reported (static_diff (lookup command.1 i.states) command.0 command.2) surface command out o
        owned
        (λ e.
          why
            (ground (arith, static_diff-reachable (lookup command.1 i.states) command.0 command.2)))
        h
