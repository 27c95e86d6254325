-- ===== src/Reconciliation/Justified.antt =====
-- What a plan of reconciliation is: every command has its reason, and no command comes without an issue.
use home_lighting_manager.Common.{
  ◌≤◌, ◌<◌, Bool, false, Option, none, some, List, [], ◌∷◌, ◌++◌, ◌==◌, string_eq, length,
  length-append, ◌≡◌, refl, arith,
}
use mathlib.Core.Path.{subst}
use home_lighting_manager.Common.Dict.{lookup}
use home_lighting_manager.Common.Action.{Result, ok}
use home_lighting_manager.Reconciliation.{Command, Check, SurfaceOwner}
use home_lighting_manager.Reconciliation.Compare.{Observed}
use home_lighting_manager.Reconciliation.Verify.{skip, verify}
use home_lighting_manager.Reconciliation.Reasons.{Reason, IsRule, Returns}
use home_lighting_manager.Reconciliation.Plans.{verify-kept}

abbrev pub is_door : Option SurfaceOwner → Bool
is_door none = false
is_door (some cabinet) = cabinet.owner == "door"

abbrev pub is_door_open : Observed → Bool
is_door_open i = is_door (lookup "liquor_cabinet" i.owners)

is_door_open-owner :
    (i : Observed) (cabinet : SurfaceOwner)
    → lookup "liquor_cabinet" i.owners ≡ some cabinet
    → is_door_open i ≡ (cabinet.owner == "door")
is_door_open-owner i cabinet e = rw e refl

-- A command for a surface with an owner, that has a reason.
abbrev pub IsJustified : Observed → Command → Type 0
IsJustified i c =
    (o : SurfaceOwner) × (lookup c.surface i.owners ≡ some o) × Reason i (is_door_open i) o c

abbrev pub AllJustified : Observed → List Command → Type 0
AllJustified i [] = Unit {0}
AllJustified i (c ∷ l) = IsJustified i c × AllJustified i l

append-AllJustified :
    (i : Observed) (l : List Command) (c : Command)
    → AllJustified i l
    → IsJustified i c
    → AllJustified i (l ++ c ∷ [])
append-AllJustified i [] c h j = (j, tt)
append-AllJustified i (x ∷ l) c h j = (h.0, append-AllJustified i l c h.1 j)

justified :
    (i : Observed)
    → IsRule i
        (is_door_open i)
        (λ out. AllJustified i out.commands)
        (λ out. AllJustified i out.commands)
unfolding skip
justified i = record {
  issue = λ x out h. h;
  plain = λ out h. h;
  command = λ c o out owned why h. append-AllJustified i out.commands c h (o, owned, why);
  skips = λ surface reason out h. h;
}

counted :
    (i : Observed)
    → IsRule i
        (is_door_open i)
        (λ out. length out.commands ≤ length out.issues)
        (λ out. length out.commands < length out.issues)
unfolding skip
counted i = record {
  issue = λ x out h. omega (arith, length-append out.issues (x ∷ []));
  plain = λ out h. omega arith;
  command = λ c o out owned why h. omega (arith, length-append out.commands (c ∷ []));
  skips = λ surface reason out h. h;
}

returned : {A : Type 0} (P : A → Type 0) (m : Result A) (a : A) → m ≡ ok a → Returns P m → P a
returned P m a e h = subst (Returns P) e h

module _ (i : Observed) (out : Check) (made : verify i ≡ ok out) where
  -- Every command of a plan is for a surface that has an owner, and is one of three. Either it is for the main
  -- area, the liquor door is open, the surface is not suppressed, its owner is neither "sync" nor "spa", and the
  -- entity is observed in a known state. Or the surface is not suppressed, its owner is none of "sync",
  -- "manual" and "spa", the entity is a member of it, is observed in a known state and is not the liquor cabinet
  -- while the door is open, and it is neither a manual nor an excluded entity of the owner or it is a manual OFF
  -- entity without pending intent that is turned off. Or the surface is free in the same way, the door is
  -- shut if the surface is the main area, and the command recalls a scene: by "scene.turn_on" without data where the
  -- owner has no manual or excluded entity, else by "hue.apply_scene_actions" with these entities, sorted, as protected.
  pub verify-AllJustified : AllJustified i out.commands
  verify-AllJustified =
      returned (λ c. AllJustified i c.commands) (verify i) out made
        (verify-kept (justified i) tt (is_door_open-owner i))

  -- A plan has at least as many issues as commands, so that a plan without an issue has no command.
  pub verify-length-le : length out.commands ≤ length out.issues
  verify-length-le =
      returned (λ c. length c.commands ≤ length c.issues) (verify i) out made
        (verify-kept (counted i) (omega arith) (is_door_open-owner i))
