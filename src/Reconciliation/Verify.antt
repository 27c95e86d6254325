-- ===== src/Reconciliation/Verify.antt =====
-- engine.py: `verify`, which compares the owners with the observed states and lists the commands
-- that repair a safe discrepancy.
use home_lighting_manager.Common.{
  String, Bool, not, ◌&&◌, ◌||◌, Option, none, some, List, [], ◌∷◌, ◌++◌, if◌then◌else◌, ◌==◌,
  string_eq, contains, take, length, is_some, nat_eq, filter,
}
use home_lighting_manager.Common.Dict.{lookup, insert}
use home_lighting_manager.Common.Text.{Names, sorted_set}
use home_lighting_manager.Common.Action.{Result, ok, err}
use home_lighting_manager.Reconciliation.{
  surfaces, liquor, surface_issue, entity_issue, Check, SurfaceOwner, ◌>>=◌,
}
use home_lighting_manager.Reconciliation.Baseline.{BaselineCommand, commands_in}
use home_lighting_manager.Reconciliation.Compare.{
  Observed, add_issue, found, item, text_join, repair_static, turn_off_each, verify_scene,
}

-- `commands_in(scripts[name]["sequence"])`
unfoldable pub baseline : Observed → String → Result (List BaselineCommand)
unfolding item
baseline i name = item name i.scripts >>= λ steps. commands_in steps

abbrev pub first_of : {A : Type 0} → List A → Result A
first_of [] = err "IndexError"
first_of (a ∷ _) = ok a

-- `_static(..., *commands_in(scripts["home_lighting_liquor_white"]["sequence"])[0])`
unfoldable pub liquor_white : Observed → String → Check → Result Check
unfolding baseline repair_static
liquor_white i surface out = baseline i "home_lighting_liquor_white" >>= λ commands.
    first_of commands >>= λ first. ok (repair_static i.states surface first out)

-- One command of a daily baseline.
unfoldable pub verify_command :
    Observed → String → List String → Names → Bool → BaselineCommand → Check → Result Check
unfolding verify_scene repair_static
verify_command i surface members manual door (service, entity, parameters) out =
    if contains entity manual
    then ok out
    else if service == "scene.turn_on"
    then verify_scene i surface entity members manual door out
    else if entity == liquor && door
    then ok out
    else if not (contains entity members)
    then ok (add_issue (entity_issue surface entity "baseline outside managed surface") out)
    else ok (repair_static i.states surface (service, entity, parameters) out)

unfoldable pub verify_baseline :
    Observed → String → List String → Names → Bool → List BaselineCommand → Check → Result Check
unfolding verify_command
verify_baseline i surface members manual door [] out = ok out
verify_baseline i surface members manual door (c ∷ l) out =
    verify_command i surface members manual door c out >>= λ next.
    verify_baseline i surface members manual door l next

abbrev pub manual_of : SurfaceOwner → Names
manual_of owner = owner.manual_entities ++ owner.excluded_entities

abbrev pub is_hands_off : String → Bool
is_hands_off owner = owner == "sync" || owner == "manual" || owner == "spa"

unfoldable pub skip : String → String → Check → Check
unfolding insert
skip surface reason out = record out { skipped = insert surface reason out.skipped }

-- the entities of `manual_off_entities` that are commanded
abbrev pub manual_off_targets : SurfaceOwner → List String → Bool → List String
manual_off_targets owner members door =
    filter
      (λ e.
        not (contains e owner.pending_intent_entities)
        && (contains e members && not (e == liquor && door)))
      owner.manual_off_entities

abbrev pub off_targets : SurfaceOwner → List String → Bool → List String
off_targets owner members door =
    filter (λ e. not (contains e (manual_of owner)) && not (e == liquor && door)) members

-- what the owner of a surface wants
unfoldable pub verify_owner :
    Observed → String → SurfaceOwner → List String → Bool → Check → Result Check
unfolding turn_off_each verify_baseline verify_scene baseline
verify_owner i surface owner members door out =
    if owner.owner == "off"
    then ok (turn_off_each i.states surface (off_targets owner members door) out)
    else if owner.owner == "daily"
    then (baseline i (
          Prim.Native.String.◌++◌ "home_lighting_apply_"
            (Prim.Native.String.◌++◌ surface "_baseline"))
        >>= λ commands. verify_baseline i surface members (manual_of owner) door commands out)
    else if owner.owner == "holiday" || owner.owner == "49ers"
    then (found owner.scene >>= λ scene.
        verify_scene i surface scene members (manual_of owner) door out)
    else ok (
        add_issue
          (record {
            surface = some surface;
            entity = none;
            problem = some "unknown owner";
            owner = some owner.owner;
            difference = [];
          })
          out)

-- Provisional intent is noted and does not stop the surface.
unfoldable pub note_pending : String → List String → Check → Check
unfolding sorted_set skip
note_pending surface [] out = out
note_pending surface (e ∷ l) out =
    skip surface
      (Prim.Native.String.◌++◌ "provisional intent: " (text_join (take 32 (sorted_set (e ∷ l)))))
      out

unfoldable pub verify_members :
    Observed → String → SurfaceOwner → List String → Bool → Check → Result Check
unfolding note_pending turn_off_each verify_owner liquor_white
verify_members i surface owner members door out =
    verify_owner i surface owner members door (
      turn_off_each i.states surface (manual_off_targets owner members door)
        (note_pending surface owner.pending_intent_entities out))
    >>= λ next. if surface == "main_area" && door then liquor_white i surface next else ok next

abbrev pub or_empty : Option (List String) → List String
or_empty none = []
or_empty (some l) = l

abbrev or_owner : Option String → String → String
or_owner none owner = owner
or_owner (some reason) owner = reason

-- One round of the loop of `verify`.
unfoldable pub verify_surface : Observed → Bool → String → SurfaceOwner → Check → Result Check
unfolding verify_members liquor_white lookup skip
verify_surface i door surface owner out =
    let reason = lookup surface i.suppressed in
    let members = or_empty (lookup surface i.members) in
    if is_some reason || is_hands_off owner.owner
    then (let skipped = skip surface (or_owner reason owner.owner) out in
        if surface == "main_area" && (owner.owner == "manual" && (door && not (is_some reason)))
        then liquor_white i surface skipped
        else ok skipped)
    else if length members == 0
    then ok (add_issue (surface_issue surface "unresolved group membership") out)
    else verify_members i surface owner members door out

unfoldable pub verify_surfaces : Observed → Bool → List String → Check → Result Check
unfolding verify_surface item
verify_surfaces i door [] out = ok out
verify_surfaces i door (surface ∷ l) out = item surface i.owners >>= λ owner.
    verify_surface i door surface owner out >>= λ next. verify_surfaces i door l next

abbrev pub empty_check : Check
empty_check = record { issues = []; commands = []; skipped = [] }

unfoldable pub verify : Observed → Result Check
unfolding verify_surfaces item
verify i = item "liquor_cabinet" i.owners >>= λ cabinet.
    verify_surfaces i (cabinet.owner == "door") surfaces empty_check
