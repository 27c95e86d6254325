-- ===== src/Engine/Disarmed.antt =====
-- Clearing the armed groups disarms all of them, and leaves the other parts of the state alone.
use home_lighting_manager.Common.{
  String, false, Option, none, List, [], ◌∷◌, ◌≡◌, refl, ◌∙◌, arith, contains, string_eq, option_eq,
}
use home_lighting_manager.Common.Dict.{Dict, lookup, erase, keys, lookup-erase}
use home_lighting_manager.Common.Text.{Names}
use home_lighting_manager.Engine.State.{Engine}
use home_lighting_manager.Engine.Groups.{discard_group_off, discard_groups, clear_group_off}

-- The parts of the state that clearing the armed groups leaves alone.
pub record Kept (e d : Engine) : Type 0 where
  pub stacks : d.stacks ≡ e.stacks
  pub families : d.families ≡ e.families
  pub generation : d.generation ≡ e.generation

pub discard-Kept :
    (g reason : String) (t : Option String) (e : Engine) → Kept e (discard_group_off g reason t e)
unfolding discard_group_off
discard-Kept g reason t e = record {
  stacks = ground arith;
  families = ground arith;
  generation = ground arith;
}

discard_groups-Kept :
    (gs : List String) (reason : String) (e : Engine) → Kept e (discard_groups gs reason e)
unfolding discard_groups
discard_groups-Kept [] reason e = record { stacks = refl; families = refl; generation = refl }
discard_groups-Kept (g ∷ gs) reason e =
    let k = discard_groups-Kept gs reason (discard_group_off g reason none e) in
    let d = discard-Kept g reason none e in
    record {
      stacks = k.stacks ∙ d.stacks;
      families = k.families ∙ d.families;
      generation = k.generation ∙ d.generation;
    }

erase_absent : {V : Type 0} (g : String) (d : Dict String V) → lookup g d ≡ none → erase g d ≡ d
unfolding lookup erase
erase_absent g [] h = refl
erase_absent g ((j, v) ∷ d) h = ground (arith, erase_absent g d)

pub discard-armed :
    (g reason : String) (t : Option String) (e : Engine)
    → (discard_group_off g reason t e).group_off_armed ≡ erase g e.group_off_armed
unfolding discard_group_off
discard-armed g reason t e = ground (arith, erase_absent g e.group_off_armed)

-- Every key of a dictionary is among the groups that are discarded.
abbrev IsCovered : List String → Dict String Names → Type 0
IsCovered gs d = (j : String) → contains j gs ≡ false → lookup j d ≡ none

empty_of_lookup : (d : Dict String Names) → ((j : String) → lookup j d ≡ none) → d ≡ []
unfolding lookup
empty_of_lookup [] h = refl
empty_of_lookup ((j, v) ∷ d) h = absurd (ground (arith, h j))

IsCovered-rest :
    (g : String) (gs : List String) (d : Dict String Names)
    → IsCovered (g ∷ gs) d
    → IsCovered gs (erase g d)
IsCovered-rest g gs d h j out = ground (arith, h j, lookup-erase g j d)

discard_groups-armed :
    (gs : List String) (reason : String) (e : Engine)
    → IsCovered gs e.group_off_armed
    → (discard_groups gs reason e).group_off_armed ≡ []
unfolding discard_groups
discard_groups-armed [] reason e h = empty_of_lookup e.group_off_armed (λ j. h j refl)
discard_groups-armed (g ∷ gs) reason e h =
    discard_groups-armed gs reason (discard_group_off g reason none e)
      (rw (discard-armed g reason none e) (IsCovered-rest g gs e.group_off_armed h))

keys-IsCovered : (d : Dict String Names) → IsCovered (keys d) d
unfolding lookup
keys-IsCovered [] j h = refl
keys-IsCovered ((g, v) ∷ d) j h = ground (arith, keys-IsCovered d j)

pub clear-armed : (reason : String) (e : Engine) → (clear_group_off reason e).group_off_armed ≡ []
unfolding clear_group_off
clear-armed reason e = discard_groups-armed _ reason e (keys-IsCovered e.group_off_armed)

pub clear-Kept : (reason : String) (e : Engine) → Kept e (clear_group_off reason e)
unfolding clear_group_off
clear-Kept reason e = discard_groups-Kept _ reason e
