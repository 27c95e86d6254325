-- ===== src/Promotion.antt =====
-- custom_components/home_lighting_manager/promotion_observer.py: external evidence that is retained for a
-- short while. The ledgers of traces, which only report, are left out.
pub mod Pending
pub mod Window
pub mod Single
pub mod Evidence
pub mod Group
pub mod Owned
pub mod Exact
use home_lighting_manager.Common.{ℕ, ◌*◌, ◌+◌, String, Bool, Option, none, List, [], ◌∷◌}
use home_lighting_manager.Common.Dict.{Dict}
use home_lighting_manager.Common.Text.{Names}
use home_lighting_manager.Shadow.Runtime.{ShadowObservation}
use home_lighting_manager.Observer.{seconds}
use home_lighting_manager.Observer.Events.{Session}

-- A row of `_SCENE_RECALL_SOURCES`: the aggregate, its guard, and its sync sensor.
pub record Source : Type 0 where
  pub aggregate : String
  pub guard : String
  pub sync : Option String

abbrev pub scene_recall_sources : List Source
scene_recall_sources =
    record {
      aggregate = "light.holiday_main_area";
      guard = "input_boolean.home_lighting_ha_guard_main_area";
      sync = Option.some "binary_sensor.hue_bridge_living_room";
    }
    ∷ record {
      aggregate = "light.front_eve_zone";
      guard = "input_boolean.home_lighting_ha_guard_front_eve";
      sync = none;
    }
    ∷ record {
      aggregate = "light.holiday_path";
      guard = "input_boolean.home_lighting_ha_guard_path";
      sync = none;
    }
    ∷ record {
      aggregate = "light.holiday_backyard";
      guard = "input_boolean.home_lighting_ha_guard_backyard";
      sync = Option.some "binary_sensor.hue_bridge_backyard";
    }
    ∷ []

-- the aggregates of `_SURFACE_GUARDS`
abbrev pub surface_aggregates : List String
surface_aggregates =
    "light.holiday_main_area" ∷ "light.front_eve_zone" ∷ "light.holiday_path"
    ∷ "light.holiday_backyard" ∷ []

-- EXTERNAL_BURST_WINDOW_SECONDS and SURFACE_GROUP_OFF_CORRELATION_SECONDS
abbrev pub burst_window : ℕ
burst_window = 2 * seconds

abbrev pub group_off_window : ℕ
group_off_window = 8 * seconds

-- `_PendingExternalLeaf`; its state is only reported.
pub record PendingLeaf : Type 0 where
  pub observed_at : ℕ
  pub observation : ShadowObservation

-- The dict of a candidate, as far as the promotion writes it.
pub record Candidate : Type 0 where
  pub group_id : Option String
  pub basis : String
  pub promoted : Bool
  pub recorded : Bool
  pub reason : String

abbrev pub SingleKey : Type 0
SingleKey = Option ℕ × String

pub record Promotion : Type 0 where
  pub session : Session
  pub pending : Dict String PendingLeaf
  pub singles : List SingleKey
  pub overlapping : List Names
  pub last_key : Option SingleKey
  pub burst_topology : Dict String (List String)
  pub last_observed_at : Option ℕ
  pub candidate : Candidate
