-- ===== src/Engine/Ended.antt =====
-- What the end of a session leaves.
use home_lighting_manager.Common.{
  ℕ, ◌≤◌, String, Bool, true, false, not, Option, none, List, [], ◌∷◌, ◌++◌, ◌≡◌, refl, ◌∙◌, arith,
  contains, if◌then◌else◌, ◌==◌, string_eq, pair_eq, length, is_some, drop, length-append,
}
use home_lighting_manager.Common.Dict.{lookup, erase, keys, lookup-erase}
use home_lighting_manager.Common.Action.{err, ok, ◌>>=◌}
use home_lighting_manager.Model.{OwnershipLayer}
use home_lighting_manager.Engine.State.{Engine, changed, is_stale}
use home_lighting_manager.Engine.Groups.{
  discard_group_off, discard_groups, clear_group_off, reset_group_off_sequence, is_nonempty,
}
use home_lighting_manager.Engine.Families.{
  keep_stack, keep_where, remove_where, remove_layer, remove_matching, remove_everywhere,
  in_session, retire, drop_session, close_session, end_session, end_family, start_family, start_new,
}

-- The sessions of the engine, live and ended.
record SameSessions (e d : Engine) : Type 0 where
  families : d.families ≡ e.families
  ended : d.ended_sessions ≡ e.ended_sessions

same : (e : Engine) → SameSessions e e
same e = record { families = refl; ended = refl }

thence : {e d c : Engine} → SameSessions e d → SameSessions d c → SameSessions e c
thence h k = record { families = k.families ∙ h.families; ended = k.ended ∙ h.ended }

changed-sessions : (reason : String) (e : Engine) → SameSessions e (changed reason e)
unfolding changed
changed-sessions reason e = record { families = refl; ended = refl }

discard-sessions :
    (g reason : String) (t : Option String) (e : Engine)
    → SameSessions e (discard_group_off g reason t e)
unfolding discard_group_off
discard-sessions g reason t e = record { families = ground arith; ended = ground arith }

discard_groups-sessions :
    (gs : List String) (reason : String) (e : Engine) → SameSessions e (discard_groups gs reason e)
unfolding discard_groups
discard_groups-sessions [] reason e = same e
discard_groups-sessions (g ∷ gs) reason e =
    thence (discard-sessions g reason none e) (discard_groups-sessions gs reason _)

if-sessions :
    (b : Bool) (e x y : Engine)
    → SameSessions e x
    → SameSessions e y
    → SameSessions e (if b then x else y)
if-sessions true e x y hx hy = hx
if-sessions false e x y hx hy = hy

reset-sessions : (e : Engine) → SameSessions e (reset_group_off_sequence none e)
unfolding reset_group_off_sequence clear_group_off
reset-sessions e =
    thence (if-sessions (is_nonempty e.group_off_armed) e _ _ (changed-sessions _ e) (same e))
      (discard_groups-sessions _ _ _)

keep_where-sessions :
    (entity : String) (kept : OwnershipLayer → Bool) (e : Engine)
    → SameSessions e (keep_where entity kept e)
unfolding keep_where keep_stack
keep_where-sessions entity kept e = record { families = refl; ended = refl }

change-sessions :
    (b : Bool) (reason : String) (e : Engine) → SameSessions e (if b then e else changed reason e)
change-sessions true reason e = same e
change-sessions false reason e = changed-sessions reason e

remove_layer-sessions :
    (entity id : String) (e : Engine) → SameSessions e (remove_layer entity id e)
unfolding remove_layer remove_where
remove_layer-sessions entity id e =
    thence (keep_where-sessions entity (λ layer. not (layer.layer_id == id)) e)
      (change-sessions _ _ (keep_where entity (λ layer. not (layer.layer_id == id)) e))

remove_matching-sessions :
    (ls : List OwnershipLayer) (matching : OwnershipLayer → Bool) (entity : String) (e : Engine)
    → SameSessions e (remove_matching ls matching entity e)
unfolding remove_matching
remove_matching-sessions [] matching entity e = same e
remove_matching-sessions (l ∷ ls) matching entity e =
    thence (if-sessions (matching l) e _ _ (remove_layer-sessions entity l.layer_id e) (same e))
      (remove_matching-sessions ls matching entity _)

remove_everywhere-sessions :
    (l : List String) (matching : OwnershipLayer → Bool) (e : Engine)
    → SameSessions e (remove_everywhere l matching e)
unfolding remove_everywhere
remove_everywhere-sessions [] matching e = same e
remove_everywhere-sessions (entity ∷ l) matching e =
    thence (remove_matching-sessions _ matching entity e) (remove_everywhere-sessions l matching _)

contains-last :
    (key : String × String) (l : List (String × String)) → contains key (l ++ key ∷ []) ≡ true
contains-last key [] = ground arith
contains-last key (x ∷ l) = ground (arith, contains-last key l)

-- The sessions after a session is closed are those after it is dropped.
close-sessions :
    (f s : String) (e : Engine) → SameSessions (drop_session (f, s) e) (close_session f s e)
unfolding close_session
close-sessions f s e =
    thence (remove_everywhere-sessions (keys (drop_session (f, s) e).stacks) (in_session f s) _)
      (thence (reset-sessions _) (changed-sessions "family_ended" _))

drop-families :
    (key : String × String) (e : Engine) → (drop_session key e).families ≡ erase key e.families
unfolding drop_session retire
drop-families key e = ground arith

contains-drop :
    (key : String × String) (l : List (String × String))
    → 2 ≤ length (l ++ key ∷ [])
    → contains key (drop 1 (l ++ key ∷ [])) ≡ true
contains-drop key [] h = absurd (omega (arith, h))
contains-drop key (x ∷ l) h = contains-last key l

drop-ended :
    (key : String × String) (e : Engine)
    → length e.ended_sessions ≤ 128
    → contains key (drop_session key e).ended_sessions ≡ true
unfolding drop_session retire
drop-ended key e h = ground (
  arith,
  contains-last key e.ended_sessions,
  contains-drop key e.ended_sessions,
  length-append e.ended_sessions (key ∷ []),
)

end-closes :
    (f s : String) (e : Engine)
    → is_some (lookup (f, s) e.families) ≡ true
    → end_family f s none e ≡ (ok tt, close_session f s e)
unfolding end_family end_session is_stale ◌>>=◌
end-closes f s e live = rw live refl

closed-live : (f s : String) (e : Engine) → lookup (f, s) (close_session f s e).families ≡ none
closed-live f s e =
    rw
      (
        (close-sessions f s e).families,
        drop-families (f, s) e,
        lookup-erase (f, s) (f, s) e.families,
      )
      (ground arith)

closed-ended :
    (f s : String) (e : Engine)
    → length e.ended_sessions ≤ 128
    → contains (f, s) (close_session f s e).ended_sessions ≡ true
closed-ended f s e h = rw ((close-sessions f s e).ended) (drop-ended (f, s) e h)

restart :
    (f s : String) (n : Option ℕ) (d : Engine)
    → lookup (f, s) d.families ≡ none
    → contains (f, s) d.ended_sessions ≡ true
    → start_family f s n none d ≡ (err "ended session cannot be restarted; use a new session ID", d)
unfolding start_family start_new is_stale ◌>>=◌
restart f s n d gone there = rw (gone, there) refl

-- The end of a live session is final, while the window of ended sessions is within its limit and
-- the calls carry no work token: the end succeeds, the session is not live afterwards, and the next
-- start under the same identity is refused whatever its sequence, with the engine as it was.
pub start_family-after_end :
    (e : Engine) (f s : String) (n : Option ℕ)
    → is_some (lookup (f, s) e.families) ≡ true
    → length e.ended_sessions ≤ 128
    → ((end_family f s none e).0 ≡ ok tt)
      × (lookup (f, s) (end_family f s none e).1.families ≡ none)
      × (start_family f s n none (end_family f s none e).1 ≡ (
        err "ended session cannot be restarted; use a new session ID",
        (end_family f s none e).1,
      ))
start_family-after_end e f s n live few = rw (end-closes f s e live) (
  refl,
  closed-live f s e,
  restart f s n (close_session f s e) (closed-live f s e) (closed-ended f s e few),
)
