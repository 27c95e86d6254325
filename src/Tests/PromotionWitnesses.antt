-- ===== src/Tests/PromotionWitnesses.antt =====
-- The theorems on the promotion at concrete inputs.
use home_lighting_manager.Common.{
  ◌*◌, ◌≤◌, ◌-◌, ◌≡◌, String, Bool, true, false, Option, none, some, List, [], ◌∷◌, refl,
  if◌then◌else◌, ◌==◌, string_eq,
}
use home_lighting_manager.Common.Dict.{lookup}
use home_lighting_manager.Shadow.Runtime.{new_runtime}
use home_lighting_manager.Observer.{seconds}
use home_lighting_manager.Observer.Events.{Surroundings}
use home_lighting_manager.Promotion.{PendingLeaf, Promotion, burst_window, group_off_window}
use home_lighting_manager.Promotion.Evidence.{correlated_evidence}
use home_lighting_manager.Promotion.Group.{ArmedOutcome, submitted, promote_armed_group_off}
use home_lighting_manager.Promotion.Single.{apply_single_promotion}
use home_lighting_manager.Promotion.Window.{prune_pending-fresh}
use home_lighting_manager.Promotion.Exact.{IsExplained, promote_armed_group_off-IsExplained}
use home_lighting_manager.Model.{OwnershipLayer}
use home_lighting_manager.Operations.Record.{OperationResult}
use home_lighting_manager.Promotion.Pending.{managed_group_members}
use home_lighting_manager.Promotion.Owned.{promote_owned_manual_group_off}
use home_lighting_manager.Promotion.Owned.Released.{IsReleased, promote_owned-IsReleased}
use home_lighting_manager.Tests.Data.{manual_desk}
use home_lighting_manager.Tests.Program.{program}

abbrev pair : List String
pair = "light.gate" ∷ "light.step" ∷ []

abbrev leaf_of : String → PendingLeaf
unfolding program
leaf_of entity = record {
  observed_at = 12 * seconds;
  observation = record {
    entity_id = entity;
    evidence = correlated_evidence;
    appearance = none;
    operation = "off";
    manual_precedence = none;
    sequence = some 5;
    generation = some 1;
    operation_id = none;
  };
}

-- The group of the two lights is armed, and an OFF of each is retained.
abbrev promotion_then : Promotion
unfolding program
promotion_then =
    let fresh = new_runtime "a" 1 (some pair) in
    record {
      session = record {
        observer = record {
          surfaces = record {
            members = [];
            seen = [];
            pending = [];
            entity_ids = pair;
            manual_precedence = [];
            post_boundary_off = [];
          };
          runtime = record fresh {
            operations = record fresh.operations {
              engine = record fresh.operations.engine {
                group_off_armed = ("light.pair", pair) ∷ [];
              };
            };
          };
        };
        topology_members = [];
        receipts = [];
        settle_until = none;
        correlator = record {
          window = 2 * seconds;
          events = [];
          last_timestamp = none;
          overflow = false;
        };
        external_burst = none;
        last_decision = none;
      };
      pending = ("light.gate", leaf_of "light.gate") ∷ ("light.step", leaf_of "light.step") ∷ [];
      singles = (some 5, "light.gate") ∷ [];
      overlapping = [];
      last_key = none;
      burst_topology = [];
      last_observed_at = none;
      candidate = record {
        group_id = none;
        basis = "";
        promoted = false;
        recorded = false;
        reason = "";
      };
    }

abbrev around : Surroundings
around = record { states = []; now = 12 * seconds }

abbrev is_submitted : ArmedOutcome → Bool
is_submitted (submitted result) = result.mutated
is_submitted _ = false

armed_pair :
    is_submitted (promote_armed_group_off around "off" "light.pair" pair pair promotion_then).0
    ≡ true
unfolding program
armed_pair = refl

promote_armed_group_off-IsExplained_example :
    IsExplained around "light.pair" pair promotion_then
      (promote_armed_group_off around "off" "light.pair" pair pair promotion_then)
promote_armed_group_off-IsExplained_example =
    promote_armed_group_off-IsExplained around "light.pair" pair promotion_then "off" pair

-- The leaf of one light alone mutates, and is retained no more.
applied_gate :
    ((apply_single_promotion (some 5, "light.gate") (leaf_of "light.gate") promotion_then).0.mutated
      ≡ true)
    × (lookup "light.gate"
          (apply_single_promotion
            (some 5, "light.gate")
            (leaf_of "light.gate")
            promotion_then).1.pending
        ≡ none)
unfolding program
applied_gate = (refl, refl)

-- Seven seconds later the OFF is still retained, since the group is armed with the members of a surface.
abbrev on_path : Promotion
on_path = record promotion_then {
  session = record promotion_then.session {
    topology_members = ("light.holiday_path", pair) ∷ [];
    observer = record promotion_then.session.observer {
      runtime = record promotion_then.session.observer.runtime {
        operations = record promotion_then.session.observer.runtime.operations {
          engine = record promotion_then.session.observer.runtime.operations.engine {
            group_off_armed = ("light.holiday_path", pair) ∷ [];
          };
        };
      };
    };
  };
}

prune_pending-fresh_example :
    (lookup "light.step" on_path.pending ≡ some (leaf_of "light.step"))
    × ((leaf_of "light.step").observed_at ≤ 19 * seconds)
    × (19 * seconds - (leaf_of "light.step").observed_at ≤ (
        if (leaf_of "light.step").observation.operation == "off"
        then group_off_window
        else burst_window))
unfolding program
prune_pending-fresh_example =
    prune_pending-fresh (19 * seconds) on_path "light.step" (leaf_of "light.step") refl

abbrev manual_path : OwnershipLayer
manual_path = record manual_desk { group_id = some "light.holiday_path" }

-- The two lights are Manual as the surface of the path.
abbrev owned_path : Promotion
owned_path = record promotion_then {
  session = record promotion_then.session {
    observer = record promotion_then.session.observer {
      runtime = record promotion_then.session.observer.runtime {
        operations = record promotion_then.session.observer.runtime.operations {
          engine = record promotion_then.session.observer.runtime.operations.engine {
            stacks =
                ("light.gate", record manual_path { layer_id = "manual:op1:light.gate" } ∷ [])
                ∷ ("light.step", record manual_path { layer_id = "manual:op1:light.step" } ∷ [])
                ∷ [];
          };
        };
      };
    };
  };
}

abbrev has_mutated : Option OperationResult → Bool
has_mutated (some result) = result.mutated
has_mutated none = false

released_path :
    has_mutated (promote_owned_manual_group_off around "off" "light.holiday_path" pair owned_path).0
    ≡ true
unfolding program
released_path = refl

promote_owned-IsReleased_example :
    IsReleased around "light.holiday_path"
      (managed_group_members owned_path pair)
      owned_path
      (promote_owned_manual_group_off around "off" "light.holiday_path" pair owned_path)
promote_owned-IsReleased_example =
    promote_owned-IsReleased around "off" "light.holiday_path" pair owned_path
