-- ===== src/Reconciliation/Plans.antt =====
-- What the making of a plan keeps, surface by surface.
use home_lighting_manager.Common.{
  String, Bool, true, false, not, ◌&&◌, ◌||◌, Option, none, some, List, [], ◌∷◌, ◌==◌, string_eq,
  string_discrete, nat_eq, contains, length, contains-filter, is_some, ◌≡◌, refl, arith, inl, inr,
}
use mathlib.Core.Path.{subst}
use home_lighting_manager.Common.Dict.{lookup}
use home_lighting_manager.Common.Action.{ok}
use home_lighting_manager.Reconciliation.{
  surfaces, liquor, Issue, Check, SurfaceOwner, Command, entity_issue, surface_issue,
}
use home_lighting_manager.Reconciliation.Baseline.{BaselineCommand}
use home_lighting_manager.Reconciliation.Compare.{
  Observed, add_issue, found, item, instant, turn_off_each,
}
use home_lighting_manager.Reconciliation.Verify.{
  baseline, first_of, liquor_white, verify_command, verify_baseline, manual_of, is_hands_off,
  manual_off_targets, off_targets, verify_owner, note_pending, verify_members, or_empty,
  verify_surface, verify_surfaces, empty_check, verify,
}
use home_lighting_manager.Reconciliation.Reasons.{
  is_reachable, IsFree, Reason, overlay, light, IsRule, Returns, bind-Returns, after-Returns,
  if-Returns, repair_static-kept,
}
use home_lighting_manager.Reconciliation.Scenes.{verify_scene-kept}

test-eq : (s t : String) → (s == t) ≡ true → s ≡ t
test-eq s t h = ground arith

manual-unclaimed : (s : String) → (s == "manual") ≡ true → (s == "sync" || s == "spa") ≡ false
unfolding string_discrete
manual-unclaimed s h = rw (test-eq s "manual" h) refl

found-ok : {A : Type 0} (m : Option A) (a : A) → found m ≡ ok a → m ≡ some a
found-ok none a h = cc
found-ok (some b) a h = cc

module _ {i : Observed} {door : Bool} {P noted : Check → Type 0} (rule : IsRule i door P noted)
    (surface : String) (o : SurfaceOwner) (owned : lookup surface i.owners ≡ some o) where
  off_command : String → Command
  off_command entity = record {
    surface = surface;
    service = "light.turn_off";
    entity = entity;
    parameters = instant;
  }

  turn_off_each-kept :
      (l : List String) (out : Check)
      → ((e : String)
          → contains e l ≡ true
          → is_reachable (lookup e i.states) ≡ true
          → Reason i door o (off_command e))
      → P out
      → P (turn_off_each i.states surface l out)
  unfolding turn_off_each off_command
  turn_off_each-kept [] out why h = h
  turn_off_each-kept (e ∷ l) out why h =
      turn_off_each-kept l _ (λ e' m. why e' (ground (arith, m)))
        (repair_static-kept rule surface ("light.turn_off", e, instant) out o owned
          (why e (ground arith)) h)

  liquor_white-kept :
      (out : Check)
      → (surface == "main_area" && door) ≡ true
      → is_some (lookup surface i.suppressed) ≡ false
      → (o.owner == "sync" || o.owner == "spa") ≡ false
      → P out
      → Returns P (liquor_white i surface out)
  unfolding liquor_white
  liquor_white-kept out e free unclaimed h =
      bind-Returns P (baseline i "home_lighting_liquor_white") _ λ commands read.
        bind-Returns P (first_of commands) _ λ first got.
          repair_static-kept rule surface first out o owned
            (λ reachable. overlay (ground (arith, e)) (ground (arith, e)) free unclaimed reachable)
            h

  module _ (free : IsFree i surface o) where
    abbrev members : List String
    members = or_empty (lookup surface i.members)

    noting : (x : Issue) (out : Check) → P out → P (add_issue x out)
    noting x out h = rule.plain _ (rule.issue x out h)

    verify_command-kept :
        (c : BaselineCommand) (out : Check)
        → P out
        → Returns P (verify_command i surface members (manual_of o) door c out)
    unfolding verify_command
    verify_command-kept (service, entity, parameters) out h =
        if-Returns P (contains entity (manual_of o)) _ _ (λ _. h)
          λ yielded.
            if-Returns P (service == "scene.turn_on") _ _
              (λ _. verify_scene-kept rule surface o owned free entity members out h)
              λ _.
                if-Returns P (entity == liquor && door) _ _ (λ _. h)
                  λ shut.
                    if-Returns P (not (contains entity members)) _ _
                      (λ _.
                        noting (entity_issue surface entity "baseline outside managed surface") out
                          h)
                      λ inside.
                        repair_static-kept rule surface (service, entity, parameters) out o owned
                          (light free (ground (arith, inside)) shut (inl yielded)) h

    verify_baseline-kept :
        (l : List BaselineCommand) (out : Check)
        → P out
        → Returns P (verify_baseline i surface members (manual_of o) door l out)
    unfolding verify_baseline
    verify_baseline-kept [] out h = h
    verify_baseline-kept (c ∷ l) out h =
        after-Returns P P _ _ (verify_command-kept c out h) (verify_baseline-kept l)

    manual_off-Reason :
        (e : String)
        → contains e (manual_off_targets o members door) ≡ true
        → is_reachable (lookup e i.states) ≡ true
        → Reason i door o (off_command e)
    unfolding off_command
    manual_off-Reason e m reachable =
        let (listed, chosen) = contains-filter _ e o.manual_off_entities m in
        light free (ground (arith, chosen)) (ground (arith, chosen))
          (inr (listed, ground (arith, chosen), refl)) reachable

    off-Reason :
        (e : String)
        → contains e (off_targets o members door) ≡ true
        → is_reachable (lookup e i.states) ≡ true
        → Reason i door o (off_command e)
    unfolding off_command
    off-Reason e m reachable =
        let (listed, chosen) = contains-filter _ e members m in
        light free listed (ground (arith, chosen)) (inl (ground (arith, chosen))) reachable

    verify_owner-kept :
        (out : Check) → P out → Returns P (verify_owner i surface o members door out)
    unfolding verify_owner
    verify_owner-kept out h =
        if-Returns P (o.owner == "off") _ _
          (λ _. turn_off_each-kept (off_targets o members door) out off-Reason h)
          λ _.
            if-Returns P (o.owner == "daily") _ _
              (λ _. bind-Returns P _ _ (λ commands read. verify_baseline-kept commands out h))
              λ _.
                if-Returns P (o.owner == "holiday" || o.owner == "49ers") _ _
                  (λ _.
                    bind-Returns P _ _
                      (λ name got. verify_scene-kept rule surface o owned free name members out h))
                  (λ _. noting _ out h)

    note_pending-kept : (l : List String) (out : Check) → P out → P (note_pending surface l out)
    unfolding note_pending
    note_pending-kept [] out h = h
    note_pending-kept (e ∷ l) out h = rule.skips surface _ out h

    verify_members-kept :
        (out : Check) → P out → Returns P (verify_members i surface o members door out)
    unfolding verify_members
    verify_members-kept out h =
        after-Returns P P _ _
          (verify_owner-kept _ (
            turn_off_each-kept (manual_off_targets o members door) _ manual_off-Reason
              (note_pending-kept o.pending_intent_entities out h)))
          λ next kept.
            if-Returns P (surface == "main_area" && door) _ _
              (λ e.
                liquor_white-kept next e free.unsuppressed (ground (arith, free.unclaimed)) kept)
              (λ _. kept)

  verify_surface-kept : (out : Check) → P out → Returns P (verify_surface i door surface o out)
  unfolding verify_surface
  verify_surface-kept out h =
      if-Returns P (is_some (lookup surface i.suppressed) || is_hands_off o.owner) _ _
        (λ _.
          if-Returns P
            (surface == "main_area"
              && (o.owner == "manual" && (door && not (is_some (lookup surface i.suppressed)))))
            _ _
            (λ e.
              liquor_white-kept _ (ground (arith, e)) (ground (arith, e))
                (manual-unclaimed o.owner (ground (arith, e))) (rule.skips surface _ out h))
            (λ _. rule.skips surface _ out h))
        λ open'.
          if-Returns P (length (or_empty (lookup surface i.members)) == 0) _ _
            (λ _.
              rule.plain _ (rule.issue (surface_issue surface "unresolved group membership") out h))
            (λ _.
              verify_members-kept
                (record { unsuppressed = ground (arith, open'); unclaimed = ground (arith, open') })
                out h)

module _ {i : Observed} {door : Bool} {P noted : Check → Type 0}
    (rule : IsRule i door P noted) where
  verify_surfaces-kept :
      (l : List String) (out : Check) → P out → Returns P (verify_surfaces i door l out)
  unfolding verify_surfaces item
  verify_surfaces-kept [] out h = h
  verify_surfaces-kept (surface ∷ l) out h =
      bind-Returns P (found (lookup surface i.owners)) _ λ o read.
        after-Returns P P _ _ (verify_surface-kept rule surface o (found-ok _ o read) out h)
          (verify_surfaces-kept l)

  -- Of a plan, if it is made.
  pub verify-kept :
      P empty_check
      → ((cabinet : SurfaceOwner)
          → lookup "liquor_cabinet" i.owners ≡ some cabinet
          → door ≡ (cabinet.owner == "door"))
      → Returns P (verify i)
  unfolding verify item
  verify-kept h same = bind-Returns P (found (lookup "liquor_cabinet" i.owners)) _ λ cabinet read.
      subst (λ b. Returns P (verify_surfaces i b surfaces empty_check))
        (same cabinet (found-ok _ cabinet read)) (verify_surfaces-kept surfaces empty_check h)
