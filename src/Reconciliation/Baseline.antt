-- ===== src/Reconciliation/Baseline.antt =====
-- engine.py: `commands_in`.
use home_lighting_manager.Common.{
  String, Bool, ◌||◌, Option, none, some, List, [], ◌∷◌, ◌++◌, map, if◌then◌else◌, ◌==◌, string_eq,
}
use home_lighting_manager.Common.Action.{Result, ok, err}
use home_lighting_manager.Model.{Value, Items, Fields, str, list, nil, cons}
use home_lighting_manager.Reconciliation.{◌>>=◌}

-- A call of an action. The data of a render request names the command that it stands for, its
-- target and its parameters.
pub data Call : Type 0 where
  plain : (action : String) → (entity_id : Option Value) → (parameters : Fields) → Call
  render : Call → Call

-- A step of a script, by the first of its keys that the code looks for.
mutual
  pub data Step : Type 0 where
    sequence : Steps → Step
    parallel : Steps → Step
    conditional : Steps → Step
    call : Call → Step

  pub data Steps : Type 0 where
    stop : Steps
    step : Step → Steps → Steps

abbrev pub BaselineCommand : Type 0
BaselineCommand = String × String × Fields

-- `[entities] if isinstance(entities, str) else entities`, where all are texts
unfoldable pub texts : Items → Option (List String)
texts nil = some []
texts (cons (str s) l) = elim (texts l) [ none ↦ none | some r ↦ some (s ∷ r) ]
texts (cons _ _) = none

unfoldable pub targets : Option Value → Result (List String)
unfolding texts
targets none = err "KeyError"
targets (some (str s)) = ok (s ∷ [])
targets (some (list l)) = elim (texts l) [ none ↦ err "ValueError" | some r ↦ ok r ]
targets (some _) = err "ValueError"

abbrev pub is_supported_action : String → Bool
is_supported_action action =
    action == "light.turn_on" || action == "light.turn_off" || action == "scene.turn_on"

unfoldable pub commands_in_call : Call → Result (List BaselineCommand)
unfolding targets
commands_in_call (render c) = commands_in_call c
commands_in_call (plain action entity_id parameters) =
    if is_supported_action action
    then targets entity_id >>= (λ entities. ok (map (λ e. (action, e, parameters)) entities))
    else err "ValueError"

unfoldable mutual
  unfolding commands_in_call

  pub commands_in_step : Step → Result (List BaselineCommand)
  commands_in_step (sequence l) = commands_in l
  commands_in_step (parallel l) = commands_in l
  commands_in_step (conditional l) = commands_in l
  commands_in_step (call c) = commands_in_call c

  pub commands_in : Steps → Result (List BaselineCommand)
  commands_in stop = ok []
  commands_in (step s l) =
      commands_in_step s >>= λ first. commands_in l >>= λ rest. ok (first ++ rest)
