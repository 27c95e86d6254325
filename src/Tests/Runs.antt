-- ===== src/Tests/Runs.antt =====
-- Concrete runs, whose results can be followed in the source.
use home_lighting_manager.Common.{◌≡◌, refl, String, true, Option, none, some}
use home_lighting_manager.Model.{kind_value}
use home_lighting_manager.Engine.State.{Engine, resolve}
use home_lighting_manager.Engine.Stack.{push}
use home_lighting_manager.Operations.Record.{Operations}
use home_lighting_manager.Operations.Transaction.{apply}
use home_lighting_manager.Tests.Program.{program}
use home_lighting_manager.Tests.Data.{
  fresh_operations, fresh_engine, set_desk, off_desk, automatic_layer,
}

abbrev after_set : Operations
after_set = (apply set_desk fresh_operations).1

abbrev exposed : Engine → Option (String × String)
exposed e = elim (resolve e "light.desk") [
  | none ↦ none
  | some layer ↦ some (layer.layer_id, kind_value layer.kind)
]

-- A Manual appearance, and the OFF that releases it.
set_then_off :
    ((apply set_desk fresh_operations).0.mutated ≡ true)
    × (exposed after_set.engine ≡ some ("manual:op1:light.desk", "manual"))
    × ((apply off_desk after_set).0.reason ≡ "released_manual")
    × (exposed (apply off_desk after_set).1.engine ≡ none)
    × ((apply set_desk after_set).0.reason ≡ "duplicate operation")
unfolding program
set_then_off = (refl, refl, refl, refl, refl)

-- An OFF over an automatic layer creates Manual-OFF, numbered after the layer below it.
off_over_automatic :
    exposed
      (apply off_desk (record fresh_operations {
        engine = (push "light.desk" automatic_layer none fresh_engine).1;
      })).1.engine
    ≡ some ("manual-off:1:2:light.desk", "manual_off")
unfolding program
off_over_automatic = refl
