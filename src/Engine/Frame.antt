-- ===== src/Engine/Frame.antt =====
-- What no ownership operation of the engine changes, and the counters that only grow. The
-- generation, the authority and the managed scope change in `next_generation`, `reconfigure` and
-- `update_managed_entities` only.
use home_lighting_manager.Common.{
  String, Bool, true, false, Option, none, some, List, ◌≡◌, ◌≤◌, arith, if◌then◌else◌,
}
use home_lighting_manager.Common.Text.{Names}
use home_lighting_manager.Common.Dict.{Dict}
use home_lighting_manager.Common.Action.Invariant.{Preserves, action_rules}
use home_lighting_manager.Model.{OwnershipLayer, WorkToken}
use home_lighting_manager.Engine.State.{Engine, changed}
use home_lighting_manager.Engine.Groups.{discard_group_off}
use home_lighting_manager.Engine.Families.{
  keep_stack, keep_where, drop_session, retire, write_session, write_family,
}
use home_lighting_manager.Engine.Stack.{
  set_default, update_layer, place_layer, store_layer, push, move_before,
}
use home_lighting_manager.Engine.Off.{arm, make_room}
use home_lighting_manager.Engine.Invariant.{IsStable}

pub record Frame (e₀ e : Engine) : Type 0 where
  pub authority : e.authority_id ≡ e₀.authority_id
  pub generation : e.generation ≡ e₀.generation
  pub managed : e.managed_entities ≡ e₀.managed_entities
  pub revision : e₀.revision ≤ e.revision
  pub order : e₀.order ≤ e.order
  pub serial : e₀.group_off_change_serial ≤ e.group_off_change_serial

pub Frame-refl : (e : Engine) → Frame e e
Frame-refl e = ground arith

module _ (e₀ : Engine) where
  changed-Frame : (reason : String) (e : Engine) → Frame e₀ e → Frame e₀ (changed reason e)
  unfolding changed
  changed-Frame reason e h = ground arith

  if-Frame : (c : Bool) (a b : Engine) → Frame e₀ a → Frame e₀ b → Frame e₀ (if c then a else b)
  if-Frame true a b ha hb = ha
  if-Frame false a b ha hb = hb

  with_stacks-Frame :
      (stacks : Dict String (List OwnershipLayer)) (e : Engine)
      → Frame e₀ e
      → Frame e₀ (record e { stacks = stacks })
  with_stacks-Frame stacks e h = record {
    authority = h.authority;
    generation = h.generation;
    managed = h.managed;
    revision = h.revision;
    order = h.order;
    serial = h.serial;
  }

  with_armed-Frame :
      (armed : Dict String Names) (e : Engine)
      → Frame e₀ e
      → Frame e₀ (record e { group_off_armed = armed })
  with_armed-Frame armed e h = record {
    authority = h.authority;
    generation = h.generation;
    managed = h.managed;
    revision = h.revision;
    order = h.order;
    serial = h.serial;
  }

  set_default-Frame : (entity : String) (e : Engine) → Frame e₀ e → Frame e₀ (set_default entity e)
  unfolding set_default
  set_default-Frame entity e h = search (if-Frame, with_stacks-Frame)

  update_layer-Frame :
      (entity : String) (layer old : OwnershipLayer) (e : Engine)
      → Frame e₀ e
      → Frame e₀ (update_layer entity layer old e)
  unfolding update_layer
  update_layer-Frame entity layer old e h = search (if-Frame, changed-Frame, with_stacks-Frame)

  place_layer-Frame :
      (entity : String) (layer : OwnershipLayer) (e : Engine)
      → Frame e₀ e
      → Frame e₀ (place_layer entity layer e)
  unfolding place_layer
  place_layer-Frame entity layer e h = changed-Frame _ _ (record {
    authority = h.authority;
    generation = h.generation;
    managed = h.managed;
    revision = h.revision;
    order = omega (arith, h.order);
    serial = h.serial;
  })

  ruleset admission_rules =
      (action_rules, set_default-Frame, update_layer-Frame, place_layer-Frame, with_stacks-Frame)

  store_layer-Frame :
      (entity : String) (layer : OwnershipLayer) (o : Option OwnershipLayer)
      → Preserves (Frame e₀) (store_layer entity layer o)
  unfolding store_layer
  store_layer-Frame entity layer none = search admission_rules depth 12
  store_layer-Frame entity layer (some old) = search admission_rules depth 12

  push-Frame :
      (entity : String) (layer : OwnershipLayer) (t : Option WorkToken)
      → Preserves (Frame e₀) (push entity layer t)
  unfolding push
  push-Frame entity layer t = search (admission_rules, store_layer-Frame) depth 14

  move_before-Frame :
      (entity : String) (test : OwnershipLayer → Bool) (layer : OwnershipLayer)
      → Preserves (Frame e₀) (move_before entity test layer)
  unfolding move_before
  move_before-Frame entity test layer = search admission_rules depth 12

  keep_where-Frame :
      (entity : String) (kept : OwnershipLayer → Bool) (e : Engine)
      → Frame e₀ e
      → Frame e₀ (keep_where entity kept e)
  unfolding keep_where keep_stack
  keep_where-Frame entity kept e h = with_stacks-Frame _ e h

  discard_group_off-Frame :
      (g reason : String) (trigger : Option String) (e : Engine)
      → Frame e₀ e
      → Frame e₀ (discard_group_off g reason trigger e)
  unfolding discard_group_off
  discard_group_off-Frame g reason trigger e h = ground arith

  drop_session-Frame :
      (key : String × String) (e : Engine) → Frame e₀ e → Frame e₀ (drop_session key e)
  unfolding drop_session retire
  drop_session-Frame key e h = ground arith

  arm-Frame :
      (g : String) (members : Names) (e : Engine)
      → Frame e₀ e
      → Frame e₀ (arm g members (make_room g e))
  unfolding arm make_room
  arm-Frame g members e h =
      with_armed-Frame _ _ (if-Frame _ _ _ (discard_group_off-Frame _ _ _ e h) h)

-- The frame of an engine is stable: every operation keeps it.
instance pub Frame-IsStable : {e₀ : Engine} → IsStable (Frame e₀)
unfolding write_session write_family
Frame-IsStable {e₀} = record {
  changed_P = changed-Frame e₀;
  discard_P = discard_group_off-Frame e₀;
  arm_P = arm-Frame e₀;
  keep_P = keep_where-Frame e₀;
  drop_P = drop_session-Frame e₀;
  write_P = λ f s n e h. record {
    authority = h.authority;
    generation = h.generation;
    managed = h.managed;
    revision = h.revision;
    order = h.order;
    serial = h.serial;
  };
  family_P = λ key s e h. record {
    authority = h.authority;
    generation = h.generation;
    managed = h.managed;
    revision = h.revision;
    order = h.order;
    serial = h.serial;
  };
  push_P = push-Frame e₀;
  move_P = move_before-Frame e₀;
}
