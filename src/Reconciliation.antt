-- ===== src/Reconciliation.antt =====
-- legacy/custom_components/home_lighting_reconciliation: const.py, engine.py and runtime.py. The
-- data that the plan is made of, and what each of its parts raises.
pub mod Difference
pub mod Baseline
pub mod Compare
pub mod Verify
pub mod Reconciler
pub mod Loop
pub mod Reasons
pub mod Scenes
pub mod Plans
pub mod Justified
pub mod Runs
pub mod Ends
pub mod Calm
use home_lighting_manager.Common.{String, Bool, Option, none, List, [], ◌∷◌}
use home_lighting_manager.Common.Dict.{Dict}
use home_lighting_manager.Common.Action.{Result, ok, err}
use home_lighting_manager.Model.{Value, Fields}

-- const.py
abbrev pub surfaces : List String
surfaces = "main_area" ∷ "front_eve" ∷ "path" ∷ "backyard" ∷ []

abbrev pub scene_evidence_pending : String
scene_evidence_pending = "different or unknown latest recall; possible Manual intent"

abbrev pub liquor : String
liquor = "light.living_room_liquor_cabinet_light"

pub record Command : Type 0 where
  pub surface : String
  pub service : String
  pub entity : String
  pub parameters : Fields

-- One entry of a `difference`: the availability, or an expected and an actual value.
pub data Deviation : Type 0 where
  availability : String → Deviation
  mismatch : Value → Value → Deviation

abbrev pub Difference : Type 0
Difference = Dict String Deviation

-- A dict of `issues`, with the keys that some of them have.
pub record Issue : Type 0 where
  pub surface : Option String
  pub entity : Option String
  pub problem : Option String
  pub owner : Option String
  pub difference : Difference

abbrev pub surface_issue : String → String → Issue
surface_issue surface problem = record {
  surface = Option.some surface;
  entity = none;
  problem = Option.some problem;
  owner = none;
  difference = [];
}

abbrev pub entity_issue : String → String → String → Issue
entity_issue surface entity problem = record {
  surface = Option.some surface;
  entity = Option.some entity;
  problem = Option.some problem;
  owner = none;
  difference = [];
}

pub record Check : Type 0 where
  pub issues : List Issue
  pub commands : List Command
  pub skipped : Dict String String

pub record EntityState : Type 0 where
  pub state : String
  pub attributes : Fields

-- The result of the ownership script for a surface; `scene` is there for a scene owner only.
pub record SurfaceOwner : Type 0 where
  pub owner : String
  pub manual_entities : List String
  pub excluded_entities : List String
  pub pending_intent_entities : List String
  pub manual_off_entities : List String
  pub scene : Option String

-- The metadata of a Hue scene; an absent error is empty.
pub record SceneInfo : Type 0 where
  pub actions : Dict String Fields
  pub latest : Bool
  pub error_text : String

infixl 5 ◌>>=◌
abbrev pub ◌>>=◌ : {A B : Type 0} → Result A → (A → Result B) → Result B
ok a >>= f = f a
err e >>= f = err e
