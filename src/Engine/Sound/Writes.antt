-- ===== src/Engine/Sound/Writes.antt =====
-- The well-formedness of an engine, and its preservation by the writes that no check guards.
use home_lighting_manager.Common.{
  ℕ, ◌-◌, ◌≤◌, ◌<◌, String, Bool, true, false, Option, some, List, [], ◌∷◌, ◌++◌, ◌≡◌, refl, arith,
  length, leb, is_some, if◌then◌else◌, Bool-cases, Option-cases, inl, inr, string_eq, pair_eq,
  length-append, length-drop,
}
use home_lighting_manager.Common.Dict.{
  Dict, lookup, insert, erase, keys, length-insert-le, length-insert_of_some, length-erase-le,
}
use home_lighting_manager.Common.Text.{Names}
use home_lighting_manager.Model.{OwnershipLayer, FamilySession}
use home_lighting_manager.Engine.State.{Engine, changed, layers, max_groups}
use home_lighting_manager.Engine.Groups.{discard_group_off, append_bounded}
use home_lighting_manager.Engine.Families.{
  keep_stack, keep_where, drop_session, retire, write_session, write_family,
}
use home_lighting_manager.Engine.Off.{arm, make_room, first_key}
use home_lighting_manager.Engine.Sound.{
  AreSound, Stacks, IsSoundStack, filter-IsSoundStack, rewrite-AreSound, erase-AreSound,
  some_of_layer,
}

-- Every stack is within its capacity and its layers are apart, and the tables of entities, of armed
-- groups, of removals and of ended sessions are within theirs.
pub record IsSound (e : Engine) : Type 0 where
  pub stacks : AreSound e.stacks
  pub armed : length e.group_off_armed ≤ max_groups
  pub ledger : length e.group_off_changes ≤ 32
  pub ended : length e.ended_sessions ≤ 128

pub with_stacks-IsSound :
    (e : Engine) (s : Stacks) → IsSound e → AreSound s → IsSound (record e { stacks = s })
with_stacks-IsSound e s h k = record {
  stacks = k;
  armed = h.armed;
  ledger = h.ledger;
  ended = h.ended;
}

pub changed-IsSound : (reason : String) (e : Engine) → IsSound e → IsSound (changed reason e)
unfolding changed
changed-IsSound reason e h = record {
  stacks = h.stacks;
  armed = h.armed;
  ledger = h.ledger;
  ended = h.ended;
}

kept-AreSound :
    (entity : String) (items : List OwnershipLayer) (s : Stacks) (b : Bool)
    → AreSound s
    → IsSoundStack items
    → (b ≡ true → is_some (lookup entity s) ≡ true)
    → AreSound (if b then insert entity items s else erase entity s)
kept-AreSound entity items s true h k there = rewrite-AreSound entity items s h k (there refl)
kept-AreSound entity items s false h k there = erase-AreSound entity s h

pub keep_where-IsSound :
    (entity : String) (kept : OwnershipLayer → Bool) (e : Engine)
    → IsSound e
    → IsSound (keep_where entity kept e)
unfolding keep_where keep_stack layers
keep_where-IsSound entity kept e h = with_stacks-IsSound e _ h (
    kept-AreSound entity _ e.stacks _ h.stacks (filter-IsSoundStack kept _ (h.stacks.stack entity))
      (some_of_layer entity e.stacks kept))

length-window : {A : Type 0} (n : ℕ) (a : A) (l : List A) → length (append_bounded n a l) ≤ n
length-window n a l = omega (arith, length-drop (length (l ++ a ∷ []) - n) (l ++ a ∷ []))

pub discard_group_off-IsSound :
    (g reason : String) (trigger : Option String) (e : Engine)
    → IsSound e
    → IsSound (discard_group_off g reason trigger e)
unfolding discard_group_off
discard_group_off-IsSound g reason trigger e h = elim (Option-cases (lookup g e.group_off_armed)) [
  | inl e' ↦ rw (discard_group_off, e') h
  | inr (members, e') ↦
      rw (discard_group_off, e')
        (record {
          stacks = h.stacks;
          armed = omega (arith, length-erase-le g e.group_off_armed, h.armed);
          ledger = length-window 32 _ e.group_off_changes;
          ended = h.ended;
        })
]

retired-le :
    (key : String × String) (e : Engine)
    → length e.ended_sessions ≤ 128
    → length (retire key e).ended_sessions ≤ 128
unfolding retire
retired-le key e h = ground (
  arith,
  length-append e.ended_sessions (key ∷ []),
  length-drop 1 (e.ended_sessions ++ key ∷ []),
  length-drop 1 e.ended_sessions,
)

pub write_session-IsSound :
    (f s : String) (n : ℕ) (e : Engine) → IsSound e → IsSound (write_session f s n e)
unfolding write_session
write_session-IsSound f s n e h = record {
  stacks = h.stacks;
  armed = h.armed;
  ledger = h.ledger;
  ended = h.ended;
}

pub write_family-IsSound :
    (key : String × String) (s : FamilySession) (e : Engine)
    → IsSound e
    → IsSound (write_family key s e)
unfolding write_family
write_family-IsSound key s e h = record {
  stacks = h.stacks;
  armed = h.armed;
  ledger = h.ledger;
  ended = h.ended;
}

retire-fields :
    (key : String × String) (e : Engine)
    → ((retire key e).stacks ≡ e.stacks)
      × ((retire key e).group_off_armed ≡ e.group_off_armed)
      × ((retire key e).group_off_changes ≡ e.group_off_changes)
unfolding retire
retire-fields key e = ground arith

retire-IsSound : (key : String × String) (e : Engine) → IsSound e → IsSound (retire key e)
retire-IsSound key e h =
    let (s, a, c) = retire-fields key e in
    record {
      stacks = rw s h.stacks;
      armed = rw a h.armed;
      ledger = rw c h.ledger;
      ended = retired-le key e h.ended;
    }

pub drop_session-IsSound :
    (key : String × String) (e : Engine) → IsSound e → IsSound (drop_session key e)
unfolding drop_session
drop_session-IsSound key e h =
    retire-IsSound key _
      (record { stacks = h.stacks; armed = h.armed; ledger = h.ledger; ended = h.ended })

length-discard_first-lt :
    (d : Dict String Names) → 0 < length d → length (erase (first_key (keys d)) d) < length d
unfolding erase
length-discard_first-lt [] h = absurd (omega arith)
length-discard_first-lt ((g, m) ∷ d) h = ground (arith, length-erase-le g d)

lookup-first_key :
    (d : Dict String Names) → 0 < length d → is_some (lookup (first_key (keys d)) d) ≡ true
unfolding lookup
lookup-first_key [] h = absurd (omega arith)
lookup-first_key ((g, m) ∷ d) h = ground arith

length-discard_first :
    (reason : String) (t : Option String) (e : Engine)
    → 0 < length e.group_off_armed
    → length (discard_group_off (first_key (keys e.group_off_armed)) reason t e).group_off_armed
      < length e.group_off_armed
unfolding discard_group_off
length-discard_first reason t e h =
    ground
      (arith, lookup-first_key e.group_off_armed h, length-discard_first-lt e.group_off_armed h)

with_armed-IsSound :
    (armed : Dict String Names) (e : Engine)
    → IsSound e
    → length armed ≤ max_groups
    → IsSound (record e { group_off_armed = armed })
with_armed-IsSound armed e h k = record {
  stacks = h.stacks;
  armed = k;
  ledger = h.ledger;
  ended = h.ended;
}

-- A group is armed once there is room for it.
pub arm-IsSound :
    (g : String) (members : Names) (e : Engine)
    → IsSound e
    → IsSound (arm g members (make_room g e))
unfolding arm make_room
arm-IsSound g members e h = elim (Bool-cases (is_some (lookup g e.group_off_armed))) [
  | inl there ↦
      rw (make_room, there)
        (with_armed-IsSound _ e h
          (omega (arith, length-insert_of_some g members e.group_off_armed there, h.armed)))
  | inr absent ↦ elim (Bool-cases (leb max_groups (length e.group_off_armed))) [
    | inl full ↦
        rw (make_room, absent, full)
          (with_armed-IsSound _ _ (discard_group_off-IsSound _ _ _ e h) (
            omega (
              arith,
              length-insert-le g members
                  (discard_group_off (first_key (keys e.group_off_armed)) "apply_group_off:capacity"
                    (some g) e).group_off_armed,
              length-discard_first "apply_group_off:capacity" (some g) e (ground (arith, full)),
              h.armed,
            )))
    | inr free ↦
        rw (make_room, absent, free)
          (with_armed-IsSound _ e h (ground (arith, length-insert-le g members e.group_off_armed)))
  ]
]
