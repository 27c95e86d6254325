-- ===== src/Tests/SessionWitnesses.antt =====
-- The theorems on sessions, on the group OFF and on recovery at concrete inputs.
use home_lighting_manager.Common.{
  pair_eq, string_eq, ◌≡◌, refl, String, true, not, none, some, List, [], ◌∷◌, arith, filter,
  contains, if◌then◌else◌, all, string_eq,
}
use home_lighting_manager.Common.Action.{ok, err}
use home_lighting_manager.Common.Dict.{lookup}
use home_lighting_manager.Common.Text.{sorted_set}
use home_lighting_manager.Model.{is_homeowner_kind, GroupOffAction}
use home_lighting_manager.Engine.State.{Engine, layers, nightly_boundary}
use home_lighting_manager.Engine.Families.{start_family, end_family}
use home_lighting_manager.Engine.Off.{apply_group_off, eligible_of, is_armed}
use home_lighting_manager.Engine.TwoStep.{apply_group_off-releases}
use home_lighting_manager.Engine.Ended.{start_family-after_end}
use home_lighting_manager.Operations.Transaction.{apply}
use home_lighting_manager.Persistence.Payload.{deserialize_state}
use home_lighting_manager.Persistence.Recovered.{is_restore, recover_layer-deserialize_state}
use home_lighting_manager.Recovery.{ManualRecoveryEvidence, recover_layer}
use home_lighting_manager.Tests.Program.{program}
use home_lighting_manager.Tests.Data.{fresh_engine, fresh_operations, set_desk, stored}

-- an engine with the live session of a film
abbrev playing : Engine
playing = (start_family "movie" "s1" none none fresh_engine).1

start_family-after_end_example :
    ((end_family "movie" "s1" none playing).0 ≡ ok tt)
    × (lookup ("movie", "s1") (end_family "movie" "s1" none playing).1.families ≡ none)
    × (start_family "movie" "s1" (some 9) none (end_family "movie" "s1" none playing).1 ≡ (
      err "ended session cannot be restarted; use a new session ID",
      (end_family "movie" "s1" none playing).1,
    ))
unfolding program
start_family-after_end_example =
    start_family-after_end playing "movie" "s1" (some 9) refl (omega arith)

-- an engine whose desk the homeowner has set
abbrev set_by_hand : Engine
set_by_hand = (apply set_desk fresh_operations).1.engine

abbrev room : List String
room = "light.floor" ∷ "light.desk" ∷ []

apply_group_off-releases_example :
    ((apply_group_off "room" room none none nightly_boundary set_by_hand).0
      ≡ ok (record {
        group_id = "room";
        action = GroupOffAction.released_to_hlm;
        entity_ids = eligible_of (sorted_set room) none;
      }))
    × (layers (apply_group_off "room" room none none nightly_boundary set_by_hand).1 "light.desk"
        ≡ (if contains "light.desk" (eligible_of (sorted_set room) none)
            then filter
                (λ layer. not (is_homeowner_kind layer.kind))
                (layers set_by_hand "light.desk")
            else layers set_by_hand "light.desk"))
    × (is_armed
          (apply_group_off "room" room none none nightly_boundary set_by_hand).1
          "room"
          (sorted_set room)
        ≡ true)
unfolding program
apply_group_off-releases_example =
    apply_group_off-releases "room" room none none nightly_boundary set_by_hand "light.desk" refl
      refl

abbrev sure : ManualRecoveryEvidence
sure = record {
  temporally_valid = true;
  desired_state_trustworthy = true;
  ownership_evidence_coherent = true;
}

recover_layer-deserialize_state_example :
    all
      (λ layer. is_restore (recover_layer layer 4 (some sure)).action)
      (deserialize_state stored).layers
    ≡ true
recover_layer-deserialize_state_example =
    recover_layer-deserialize_state stored 4 sure (refl, refl, refl)
