-- ===== src/Reconciliation/Compare.antt =====
-- engine.py: `_static` and `_scene`, which compare entities with the states that are observed. `out`
-- is the Check that is built up.
use home_lighting_manager.Common.{
  String, Bool, false, not, ◌&&◌, ◌||◌, Option, none, some, List, [], ◌∷◌, ◌++◌, if◌then◌else◌,
  ◌==◌, string_eq, contains, length, nat_eq,
}
use home_lighting_manager.Common.Dict.{Dict, lookup, keys}
use home_lighting_manager.Common.Text.{Names, sorted_set, subset}
use home_lighting_manager.Common.Action.{Result, ok, err}
use home_lighting_manager.Model.{
  Items, Fields, int, bool, str, list, dict, nil, cons, end, field, get?, get_or,
}
use home_lighting_manager.Common.Int.{pos}
use home_lighting_manager.Reconciliation.{
  liquor, scene_evidence_pending, Command, Issue, entity_issue, Difference, Check, EntityState,
  SurfaceOwner, SceneInfo, ◌>>=◌,
}
use home_lighting_manager.Reconciliation.Difference.{static_diff}
use home_lighting_manager.Reconciliation.Baseline.{Steps, BaselineCommand}

-- The arguments of `verify`.
pub record Observed : Type 0 where
  pub owners : Dict String SurfaceOwner
  pub states : Dict String EntityState
  pub scripts : Dict String Steps
  pub members : Dict String (List String)
  pub scene_info : Dict String SceneInfo
  pub suppressed : Dict String String

abbrev pub add_issue : Issue → Check → Check
add_issue issue out = record out { issues = out.issues ++ issue ∷ [] }

abbrev pub add_command : Command → Check → Check
add_command command out = record out { commands = out.commands ++ command ∷ [] }

abbrev pub found : {A : Type 0} → Option A → Result A
found none = err "KeyError"
found (some a) = ok a

-- `d[key]`
unfoldable pub item : {A : Type 0} → String → Dict String A → Result A
item key d = found (lookup key d)

abbrev pub text_join : List String → String
text_join [] = ""
text_join (s ∷ []) = s
text_join (s ∷ t ∷ r) = Prim.Native.String.◌++◌ s (Prim.Native.String.◌++◌ "," (text_join (t ∷ r)))

abbrev pub instant : Fields
instant = field "transition" (int (pos 0)) end

-- What `_static` adds for a difference.
unfoldable pub report_difference : Difference × Bool → String → BaselineCommand → Check → Check
report_difference ([], available) surface command out = out
report_difference (d ∷ ds, available) surface (service, entity, parameters) out =
    let reported =
      add_issue
        (record {
          surface = some surface;
          entity = some entity;
          problem = none;
          owner = none;
          difference = d ∷ ds;
        })
        out in
    if available
    then add_command
        (record { surface = surface; service = service; entity = entity; parameters = parameters })
        reported
    else reported

-- `_static`
unfoldable pub repair_static : Dict String EntityState → String → BaselineCommand → Check → Check
unfolding report_difference
repair_static states surface command out =
    report_difference (static_diff (lookup command.1 states) command.0 command.2) surface command
      out

-- the loops over entities that are to be off
unfoldable pub turn_off_each : Dict String EntityState → String → List String → Check → Check
unfolding repair_static
turn_off_each states surface [] out = out
turn_off_each states surface (e ∷ l) out =
    turn_off_each states surface l (repair_static states surface ("light.turn_off", e, instant) out)

-- `d.get(key, {})` where the result is used as a dict
unfoldable pub nested : String → Fields → Result Fields
unfolding get_or
nested key d = elim (get_or key (dict end) d) [ dict f ↦ ok f | _ ↦ err "AttributeError" ]

-- `scene_action.get("action", {}).get("on", {}).get("on")`, none where it is no bool
unfoldable pub scene_on : Fields → Result (Option Bool)
unfolding nested
scene_on scene_action = nested "action" scene_action >>= λ action.
    nested "on" action >>= λ on. ok (elim (get? "on" on) [ some (bool b) ↦ some b | _ ↦ none ])

-- What the loop over the actions of a scene carries.
pub record Drift : Type 0 where
  pub out : Check
  pub drifted : Bool
  pub unreachable : Bool

unfoldable pub note_difference : Difference × Bool → String → String → Drift → Drift
note_difference ([], available) surface entity s = s
note_difference (d ∷ ds, available) surface entity s = record {
  out =
      add_issue
        (record {
          surface = some surface;
          entity = some entity;
          problem = none;
          owner = none;
          difference = d ∷ ds;
        })
        s.out;
  drifted = s.drifted || available;
  unreachable = s.unreachable || not available;
}

abbrev service_for : Bool → String
service_for on = if on then "light.turn_on" else "light.turn_off"

unfoldable pub compare_action :
    Dict String EntityState → String → String → Option Bool → Drift → Drift
unfolding note_difference
compare_action states surface entity none s = record s {
  out =
      add_issue (entity_issue surface entity "scene action missing authoritative on/off state")
        s.out;
}
compare_action states surface entity (some on) s =
    note_difference (static_diff (lookup entity states) (service_for on) end) surface entity s

unfoldable pub compare_actions :
    Dict String EntityState → String → Names → Bool → Dict String Fields → Drift → Result Drift
unfolding scene_on compare_action
compare_actions states surface protected door [] s = ok s
compare_actions states surface protected door ((entity, scene_action) ∷ l) s =
    if contains entity protected || (entity == liquor && door)
    then compare_actions states surface protected door l s
    else (scene_on scene_action >>= λ on.
        compare_actions states surface protected door l (compare_action states surface entity on s))

abbrev texts_value : List String → Items
texts_value [] = nil
texts_value (s ∷ l) = cons (str s) (texts_value l)

unfoldable pub scene_command : String → String → Names → Command
unfolding sorted_set
scene_command surface scene [] = record {
  surface = surface;
  service = "scene.turn_on";
  entity = scene;
  parameters = end;
}
scene_command surface scene (p ∷ ps) = record {
  surface = surface;
  service = "hue.apply_scene_actions";
  entity = scene;
  parameters = field "protected" (list (texts_value (sorted_set (p ∷ ps)))) end;
}

-- the end of `_scene`
unfoldable pub repair_scene : String → String → Names → Bool → Drift → Check
unfolding scene_command
repair_scene surface scene protected door s =
    if s.drifted
    then (if s.unreachable || (surface == "main_area" && door)
        then add_issue
            (entity_issue surface scene "scene repair deferred for protected/unavailable member")
            s.out
        else add_command (scene_command surface scene protected) s.out)
    else s.out

unfoldable pub check_scene :
    Observed → String → String → List String → Names → Bool → SceneInfo → Check → Result Check
unfolding compare_actions repair_scene
check_scene i surface scene members protected door info out =
    if not (info.error_text == "")
    then ok (add_issue (entity_issue surface scene info.error_text) out)
    else if length info.actions == 0 || not (subset (keys info.actions) members)
    then ok (add_issue (entity_issue surface scene "scene crosses surface or has no actions") out)
    else if not info.latest
    then ok (add_issue (entity_issue surface scene scene_evidence_pending) out)
    else (compare_actions i.states surface protected door info.actions
          (record { out = out; drifted = false; unreachable = false })
        >>= λ s. ok (repair_scene surface scene protected door s))

-- `_scene`
unfoldable pub verify_scene :
    Observed → String → String → List String → Names → Bool → Check → Result Check
unfolding check_scene
verify_scene i surface scene members protected door out =
    if subset members (if door then liquor ∷ protected else protected)
    then ok out
    else elim (lookup scene i.scene_info) [
      | none ↦ ok (add_issue (entity_issue surface scene "missing scene metadata") out)
      | some info ↦ check_scene i surface scene members protected door info out
    ]
