-- ===== src/Engine/Groups.antt =====
-- The two-step group OFF: the armed groups and the ledger of their removals.
use home_lighting_manager.Common.{
  ℕ, ◌+◌, String, Bool, not, ◌&&◌, ◌==◌, Option, none, some, List, [], ◌∷◌, ◌++◌, string_eq,
  if◌then◌else◌, length, take, take_last,
}
use home_lighting_manager.Common.Dict.{Dict, lookup, erase, keys}
use home_lighting_manager.Common.Text.{Names, sorted_set, overlaps}
use home_lighting_manager.Engine.State.{Engine, GroupOffChange, changed}

-- `append` on a `deque(maxlen=n)`
abbrev pub append_bounded : {A : Type 0} → ℕ → A → List A → List A
append_bounded n a l = take_last n (l ++ a ∷ [])

unfoldable pub removal : Engine → String → Names → String → Option String → GroupOffChange
removal e group members reason trigger = record {
  serial = e.group_off_change_serial + 1;
  generation = e.generation;
  revision = e.revision;
  group_id = group;
  members = take 32 (sorted_set members);
  member_count = length members;
  reason = reason;
  trigger_group_id = trigger;
}

-- `_discard_group_off`
unfoldable pub discard_group_off : String → String → Option String → Engine → Engine
discard_group_off group reason trigger e = elim (lookup group e.group_off_armed) [
  | none ↦ e
  | some members ↦ record e {
    group_off_armed = erase group e.group_off_armed;
    group_off_change_serial = e.group_off_change_serial + 1;
    group_off_changes =
        append_bounded 32 (removal e group members reason trigger) e.group_off_changes;
  }
]

unfoldable pub discard_groups : List String → String → Engine → Engine
discard_groups [] reason e = e
discard_groups (g ∷ gs) reason e = discard_groups gs reason (discard_group_off g reason none e)

-- `_clear_group_off`
unfoldable pub clear_group_off : String → Engine → Engine
clear_group_off reason e = discard_groups (keys e.group_off_armed) reason e

abbrev pub is_nonempty : {A : Type 0} → List A → Bool
is_nonempty [] = Bool.false
is_nonempty (_ ∷ _) = Bool.true

unfoldable pub reset_group_off_sequence : Option String → Engine → Engine
reset_group_off_sequence group e =
    let e' = if is_nonempty e.group_off_armed then changed "group_off_sequence_reset" e else e in
    elim group [
      | none ↦ clear_group_off "reset_group_off_sequence" e'
      | some g ↦ discard_group_off g "reset_group_off_sequence" none e'
    ]

-- The loop of `reset_group_off_for_members` over a snapshot of the armed groups.
unfoldable pub disarm_overlapping : Dict String Names → Names → Engine → Engine
disarm_overlapping [] members e = e
disarm_overlapping ((g, targets) ∷ armed) members e = disarm_overlapping armed members (
    if overlaps targets members
    then changed "intervening_group_member_intent"
        (discard_group_off g "reset_group_off_for_members" none e)
    else e)

unfoldable pub reset_group_off_for_members : Names → Engine → Engine
reset_group_off_for_members members e = disarm_overlapping e.group_off_armed members e

-- The loop of `apply_group_off` over the other groups that share a member.
unfoldable pub discard_overlaps : Dict String Names → String → Names → Engine → Engine
discard_overlaps [] group members e = e
discard_overlaps ((other, targets) ∷ armed) group members e = discard_overlaps armed group members (
    if not (other == group) && overlaps targets members
    then discard_group_off other "apply_group_off:overlap" (some group) e
    else e)

unfoldable pub invalidate_overlaps : String → Names → Engine → Engine
invalidate_overlaps group members e = discard_overlaps e.group_off_armed group members e
