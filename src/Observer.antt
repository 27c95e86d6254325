-- ===== src/Observer.antt =====
-- custom_components/home_lighting_manager/ha_observer.py. What Home Assistant gives to it, the states,
-- the contexts, the clock, are arguments; times are microseconds.
pub mod Observation
pub mod Topology
pub mod Receipts
pub mod Membership
pub mod Reconcile
pub mod Saved
pub mod Restart
pub mod Events
pub mod Handler
use home_lighting_manager.Common.{ℕ, String, Option, List, [], ◌∷◌}
use home_lighting_manager.Common.Dict.{Dict}
use home_lighting_manager.Model.{Fields}

-- Home Assistant's `State` and `Context`, as far as they are read
pub record State : Type 0 where
  pub state : String
  pub attributes : Fields

pub record Context : Type 0 where
  pub id : String
  pub user_id : Option String
  pub parent_id : Option String

abbrev pub managed_surface_groups : Dict String String
managed_surface_groups =
    ("main_area", "light.holiday_main_area")
    ∷ ("front_eve", "light.front_eve_zone")
    ∷ ("path", "light.holiday_path")
    ∷ ("backyard", "light.holiday_backyard")
    ∷ []

abbrev pub managed_surface_guards : Dict String String
managed_surface_guards =
    ("main_area", "input_boolean.home_lighting_ha_guard_main_area")
    ∷ ("front_eve", "input_boolean.home_lighting_ha_guard_front_eve")
    ∷ ("path", "input_boolean.home_lighting_ha_guard_path")
    ∷ ("backyard", "input_boolean.home_lighting_ha_guard_backyard")
    ∷ []

abbrev pub seconds : ℕ
seconds = 1000000
