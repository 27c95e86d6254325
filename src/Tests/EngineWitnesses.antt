-- ===== src/Tests/EngineWitnesses.antt =====
-- The theorems on the engine at concrete inputs.
use home_lighting_manager.Common.{
  ◌∷◌, false, List, String, true, all, contains, if◌then◌else◌, ◌+◌, ◌≤◌, ◌≡◌, ◌⊎◌, refl, false,
  not, none, some, [], length, any, filter, ◌==◌, string_eq, option_eq,
}
use home_lighting_manager.Common.Dict.{Dict, lookup}
use home_lighting_manager.Common.Text.{sorted_set}
use home_lighting_manager.Projection.{effective_ownership, view_of}
use home_lighting_manager.Projection.View.{is_projected, effective_ownership-current}
use home_lighting_manager.Model.{OwnershipLayer, is_homeowner_kind}
use home_lighting_manager.Engine.State.{
  Engine, new_engine, layers, layer_eligible, resolve, is_current_work, work_token,
  nightly_boundary,
}
use home_lighting_manager.Engine.Stack.{push}
use home_lighting_manager.Engine.Scope.{reset_homeowner_control, expire_boundary, next_generation}
use home_lighting_manager.Engine.Sound.Writes.{IsSound}
use home_lighting_manager.Engine.Reachable.{
  Reachable, fresh, after, pushes, Reachable-IsSound, Reachable-homeowners,
}
use home_lighting_manager.Engine.Exposure.{IsLast, resolve-topmost}
use home_lighting_manager.Engine.Overtaken.{IsRefused, stays, goes_on}
use home_lighting_manager.Engine.Reachable.{advances}
use home_lighting_manager.Operations.Overtakes.{apply-overtakes}
use home_lighting_manager.Engine.Renewal.{
  held, expire_boundary-filters, reset_homeowner_control-filters, next_generation-clears,
}
use home_lighting_manager.Operations.Transaction.{apply}
use home_lighting_manager.Operations.Sound.{apply-IsSound}
use home_lighting_manager.Tests.Program.{program}
use home_lighting_manager.Tests.Data.{fresh_operations, fresh_engine, set_desk, automatic_layer}

-- an engine with one automatic layer
abbrev lit : Engine
lit = (push "light.desk" automatic_layer none (new_engine "a" 1 none)).1

lit-Reachable : Reachable lit
lit-Reachable = after (fresh "a" 1 none) (pushes "light.desk" automatic_layer none)

Reachable-IsSound_example : IsSound lit
Reachable-IsSound_example = Reachable-IsSound lit-Reachable

Reachable-homeowners_example :
    length (filter (λ layer. is_homeowner_kind layer.kind) (layers lit "light.desk")) ≤ 1
Reachable-homeowners_example = Reachable-homeowners lit "light.desk" lit-Reachable

fresh_engine-IsSound : IsSound fresh_engine
unfolding new_engine
fresh_engine-IsSound = Reachable-IsSound (fresh "a" 1 none)

apply-IsSound_example : IsSound (apply set_desk fresh_operations).1.engine
apply-IsSound_example = apply-IsSound set_desk fresh_operations fresh_engine-IsSound

resolve-topmost_example :
    (any (layer_eligible lit "light.desk") (layers lit "light.desk") ≡ false)
      × (resolve lit "light.desk" ≡ none)
    ⊎ ((layer : OwnershipLayer) × (resolve lit "light.desk" ≡ some layer)
        × IsLast (layer_eligible lit "light.desk") (layers lit "light.desk") layer)
resolve-topmost_example = resolve-topmost lit "light.desk"

-- After the command a new generation begins, and a calculation begun before the command comes to write.
apply-overtakes_example :
    IsRefused
      (work_token fresh_engine)
      (next_generation (apply set_desk fresh_operations).1.engine)
      "light.desk"
      "movie"
      "s1"
      automatic_layer
unfolding program
apply-overtakes_example =
    apply-overtakes fresh_engine set_desk fresh_operations
      (next_generation (apply set_desk fresh_operations).1.engine) "light.desk" "movie" "s1"
      automatic_layer stays refl (goes_on stays advances)

expire_boundary-filters_example :
    (layers (expire_boundary nightly_boundary lit) "light.desk"
      ≡ filter
          (λ layer. not (layer.expires_at_boundary == some nightly_boundary))
          (layers lit "light.desk"))
    × ((expire_boundary nightly_boundary lit).group_off_armed ≡ [])
expire_boundary-filters_example = expire_boundary-filters nightly_boundary lit "light.desk"

reset_homeowner_control-filters_example :
    (layers (reset_homeowner_control lit).1 "light.desk"
      ≡ filter (λ layer. not (is_homeowner_kind layer.kind)) (layers lit "light.desk"))
    × (any held (reset_homeowner_control lit).1.families ≡ false)
    × ((reset_homeowner_control lit).0.cleared_homeowner_suppressions
        ≡ length (filter held lit.families))
    × ((reset_homeowner_control lit).1.group_off_armed ≡ [])
reset_homeowner_control-filters_example = reset_homeowner_control-filters lit "light.desk"

next_generation-clears_example :
    (layers (next_generation lit) "light.desk" ≡ [])
    × (resolve (next_generation lit) "light.desk" ≡ none)
    × ((next_generation lit).families ≡ [])
    × ((next_generation lit).group_off_armed ≡ [])
    × ((next_generation lit).generation ≡ lit.generation + 1)
    × (is_current_work (next_generation lit) (work_token lit) ≡ false)
next_generation-clears_example = next_generation-clears lit "light.desk"

abbrev asked : List String
asked = "light.floor" ∷ "light.desk" ∷ []

abbrev rooms_of : Dict String (List String)
rooms_of = ("room", "light.desk" ∷ "light.hall" ∷ []) ∷ []

effective_ownership-current_example :
    (lookup "light.desk" (effective_ownership lit asked rooms_of).entities ≡ (
      if contains "light.desk" asked
      then some (view_of lit "light.desk" (resolve lit "light.desk"))
      else none))
    × (all (is_projected (sorted_set asked)) (effective_ownership lit asked rooms_of).groups ≡ true)
    × (is_current_work lit (record {
      generation = (effective_ownership lit asked rooms_of).generation;
      revision = (effective_ownership lit asked rooms_of).revision;
      authority_id = (effective_ownership lit asked rooms_of).authority_id;
    })
        ≡ true)
effective_ownership-current_example = effective_ownership-current lit asked rooms_of "light.desk"
