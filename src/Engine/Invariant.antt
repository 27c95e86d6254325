-- ===== src/Engine/Invariant.antt =====
-- What an operation of the engine preserves: any property that its primitive writes preserve.
pub mod Sessions
pub mod Admission
pub mod Off
use home_lighting_manager.Common.{
  ℕ, String, Bool, true, false, Option, none, some, List, [], ◌∷◌, ◌≡◌, refl, ◌≤◌, arith,
  Option-cases, Bool-cases, inl, inr, string_eq, pair_eq, option_eq, nat_eq, if◌then◌else◌, is_some,
}
use home_lighting_manager.Common.Dict.{Dict, lookup}
use home_lighting_manager.Common.Action.{Action, modify}
use home_lighting_manager.Common.Action.Invariant.{Preserves, modify-Preserves}
use home_lighting_manager.Common.Text.{Names}
use home_lighting_manager.Model.{OwnershipLayer, FamilySession, WorkToken}
use home_lighting_manager.Engine.Stack.{push, move_before}
use home_lighting_manager.Engine.Off.{arm, make_room}
use home_lighting_manager.Engine.State.{Engine, changed, invalidate_work}
use home_lighting_manager.Engine.Groups.{
  discard_group_off, discard_groups, clear_group_off, reset_group_off_sequence, disarm_overlapping,
  reset_group_off_for_members, discard_overlaps, invalidate_overlaps,
}
use home_lighting_manager.Engine.Families.{
  keep_where, drop_session, write_session, write_family, remove_where, remove_layer, remove_owner,
  remove_homeowner_exceptions, remove_matching, remove_everywhere, evening_activation, retire,
  close_session, end_session, end_family, end_sessions_of, open_session, admit_session,
  choose_sequence, start_new, start_family, suppress_session, suppress_found, suppress_found,
  suppress_family,
}

-- A property that every primitive write of the engine preserves.
pub record IsStable (P : Engine → Type 0) : Type 0 where
  pub changed_P : (reason : String) (e : Engine) → P e → P (changed reason e)
  pub discard_P :
      (g reason : String) (trigger : Option String) (e : Engine)
      → P e
      → P (discard_group_off g reason trigger e)
  pub arm_P : (g : String) (members : Names) (e : Engine) → P e → P (arm g members (make_room g e))
  pub keep_P :
      (entity : String) (kept : OwnershipLayer → Bool) (e : Engine)
      → P e
      → P (keep_where entity kept e)
  pub drop_P : (key : String × String) (e : Engine) → P e → P (drop_session key e)
  pub write_P : (f s : String) (n : ℕ) (e : Engine) → P e → P (write_session f s n e)
  pub family_P :
      (key : String × String) (s : FamilySession) (e : Engine) → P e → P (write_family key s e)
  pub push_P :
      (entity : String) (layer : OwnershipLayer) (t : Option WorkToken)
      → Preserves P (push entity layer t)
  pub move_P :
      (entity : String) (test : OwnershipLayer → Bool) (layer : OwnershipLayer)
      → Preserves P (move_before entity test layer)

module _ (P : Engine → Type 0) ⦃stable : IsStable P⦄ where
  pub changed-keeps : (reason : String) (e : Engine) → P e → P (changed reason e)
  changed-keeps = stable.changed_P

  pub discard_group_off-keeps :
      (g reason : String) (trigger : Option String) (e : Engine)
      → P e
      → P (discard_group_off g reason trigger e)
  discard_group_off-keeps = stable.discard_P

  pub keep_where-keeps :
      (entity : String) (kept : OwnershipLayer → Bool) (e : Engine)
      → P e
      → P (keep_where entity kept e)
  keep_where-keeps = stable.keep_P

  pub if-keeps : (c : Bool) (a b : Engine) → P a → P b → P (if c then a else b)
  if-keeps true a b ha hb = ha
  if-keeps false a b ha hb = hb

  pub discard_groups-keeps :
      (gs : List String) (reason : String) (e : Engine) → P e → P (discard_groups gs reason e)
  unfolding discard_groups
  discard_groups-keeps [] reason e h = h
  discard_groups-keeps (g ∷ gs) reason e h =
      discard_groups-keeps gs reason _ (discard_group_off-keeps g reason none e h)

  pub clear_group_off-keeps : (reason : String) (e : Engine) → P e → P (clear_group_off reason e)
  unfolding clear_group_off
  clear_group_off-keeps reason e h = discard_groups-keeps _ reason e h

  pub reset_group_off_sequence-keeps :
      (g : Option String) (e : Engine) → P e → P (reset_group_off_sequence g e)
  unfolding reset_group_off_sequence
  reset_group_off_sequence-keeps none e h = search (clear_group_off-keeps, if-keeps, changed-keeps)
  reset_group_off_sequence-keeps (some g) e h =
      search (discard_group_off-keeps, if-keeps, changed-keeps)

  pub disarm_overlapping-keeps :
      (armed : Dict String Names) (members : Names) (e : Engine)
      → P e
      → P (disarm_overlapping armed members e)
  unfolding disarm_overlapping
  disarm_overlapping-keeps [] members e h = h
  disarm_overlapping-keeps ((g, t) ∷ armed) members e h =
      disarm_overlapping-keeps armed members _
        (search (discard_group_off-keeps, if-keeps, changed-keeps))

  pub reset_group_off_for_members-keeps :
      (members : Names) (e : Engine) → P e → P (reset_group_off_for_members members e)
  unfolding reset_group_off_for_members
  reset_group_off_for_members-keeps members e h = disarm_overlapping-keeps _ members e h

  pub discard_overlaps-keeps :
      (armed : Dict String Names) (g : String) (members : Names) (e : Engine)
      → P e
      → P (discard_overlaps armed g members e)
  unfolding discard_overlaps
  discard_overlaps-keeps [] g members e h = h
  discard_overlaps-keeps ((o, t) ∷ armed) g members e h =
      discard_overlaps-keeps armed g members _ (search (discard_group_off-keeps, if-keeps))

  pub invalidate_work-keeps : (reason : String) (e : Engine) → P e → P (invalidate_work reason e)
  unfolding invalidate_work
  invalidate_work-keeps reason e h = changed-keeps reason e h

  pub remove_where-keeps :
      (entity : String) (kept : OwnershipLayer → Bool) (reason : String) (e : Engine)
      → P e
      → P (remove_where entity kept reason e)
  unfolding remove_where
  remove_where-keeps entity kept reason e h = search (keep_where-keeps, if-keeps, changed-keeps)

  pub remove_layer-keeps : (entity id : String) (e : Engine) → P e → P (remove_layer entity id e)
  unfolding remove_layer
  remove_layer-keeps entity id e h = remove_where-keeps entity _ _ e h

  pub remove_homeowner_exceptions-keeps :
      (entity : String) (e : Engine) → P e → P (remove_homeowner_exceptions entity e)
  unfolding remove_homeowner_exceptions
  remove_homeowner_exceptions-keeps entity e h = remove_where-keeps entity _ _ e h

  pub remove_matching-keeps :
      (ls : List OwnershipLayer) (matching : OwnershipLayer → Bool) (entity : String) (e : Engine)
      → P e
      → P (remove_matching ls matching entity e)
  unfolding remove_matching
  remove_matching-keeps [] matching entity e h = h
  remove_matching-keeps (l ∷ ls) matching entity e h =
      remove_matching-keeps ls matching entity _ (search (remove_layer-keeps, if-keeps))

  pub remove_everywhere-keeps :
      (l : List String) (matching : OwnershipLayer → Bool) (e : Engine)
      → P e
      → P (remove_everywhere l matching e)
  unfolding remove_everywhere
  remove_everywhere-keeps [] matching e h = h
  remove_everywhere-keeps (entity ∷ rest) matching e h =
      remove_everywhere-keeps rest matching _ (remove_matching-keeps _ matching entity e h)

  pub evening_activation-keeps : (e : Engine) → P e → P (evening_activation e)
  unfolding evening_activation
  evening_activation-keeps e h =
      changed-keeps _ _ (reset_group_off_sequence-keeps none _ (remove_everywhere-keeps _ _ e h))

  -- The same of the writes that actions make.
  pub remove_homeowner_exceptions-Preserves :
      (entity : String) → Preserves P (modify (remove_homeowner_exceptions entity))
  remove_homeowner_exceptions-Preserves entity =
      modify-Preserves _ (remove_homeowner_exceptions-keeps entity)

  pub remove_layer-Preserves : (entity id : String) → Preserves P (modify (remove_layer entity id))
  remove_layer-Preserves entity id = modify-Preserves _ (remove_layer-keeps entity id)

  pub changed-Preserves : (reason : String) → Preserves P (modify (changed reason))
  changed-Preserves reason = modify-Preserves _ (changed-keeps reason)

  pub reset_group_off_for_members-Preserves :
      (members : Names) → Preserves P (modify (reset_group_off_for_members members))
  reset_group_off_for_members-Preserves members =
      modify-Preserves _ (reset_group_off_for_members-keeps members)

  pub invalidate_overlaps-Preserves :
      (g : String) (members : Names) → Preserves P (modify (invalidate_overlaps g members))
  unfolding invalidate_overlaps
  invalidate_overlaps-Preserves g members =
      modify-Preserves _ (λ e h. discard_overlaps-keeps e.group_off_armed g members e h)

  pub push-Preserves :
      (entity : String) (layer : OwnershipLayer) (t : Option WorkToken)
      → Preserves P (push entity layer t)
  push-Preserves = stable.push_P

  pub move_before-Preserves :
      (entity : String) (test : OwnershipLayer → Bool) (layer : OwnershipLayer)
      → Preserves P (move_before entity test layer)
  move_before-Preserves = stable.move_P
