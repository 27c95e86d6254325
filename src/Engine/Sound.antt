-- ===== src/Engine/Sound.antt =====
-- Well-formed stacks, and the writes to them.
pub mod Writes
pub mod Pushes
pub mod Instance
pub mod Scope
use home_lighting_manager.Common.{
  ℕ, suc, ◌+◌, ◌≤◌, ◌<◌, String, Bool, true, false, Option, none, some, List, [], ◌∷◌, ◌≡◌, refl,
  sym, ap, ◌∙◌, arith, length, leb, any, filter, find, is_some, if◌then◌else◌, Bool-cases, inl, inr,
  ◌==◌, string_eq, length-filter-le, length-drop,
}
use home_lighting_manager.Common.Int.{ltb_ℤ}
use home_lighting_manager.Common.Dict.{
  Dict, lookup, insert, erase, lookup-insert, lookup-erase, length-insert-le, length-insert_of_some,
  length-erase-le,
}
use home_lighting_manager.Common.Text.{Names}
use home_lighting_manager.Common.Action.{Action, ◌>>=◌, modify}
use home_lighting_manager.Common.Action.Invariant.{Preserves}
use home_lighting_manager.Model.{OwnershipLayer, FamilySession, WorkToken, layer_eq}
use home_lighting_manager.Engine.State.{
  Engine, changed, layers, or_empty, max_entities, max_layers, max_groups,
}
use home_lighting_manager.Engine.Groups.{discard_group_off, is_nonempty}
use home_lighting_manager.Engine.Families.{
  keep_stack, keep_where, drop_session, retire, write_session, write_family,
}
use home_lighting_manager.Engine.Stack.{
  set_default, update_layer, place_layer, push, push_refusal, move_before, replace_first,
  insert_before, remove_first, updates, collides, identity,
}
use home_lighting_manager.Engine.Stack.Distinct.{
  all_apart, all_apart-filter, all_apart-insert_before, all_apart-replace_first,
  all_apart-remove_first, find-identity, any-find-none, any-removed,
}
use home_lighting_manager.Engine.Stack.Pushed.{
  Pushed, refused, blocked, updated, placed, push-Pushed, layers-set_default,
}
use home_lighting_manager.Engine.Off.{arm, make_room}
use home_lighting_manager.Engine.Invariant.{IsStable}

-- A stack within its capacity, with no two layers of one ID or of one logical owner.
pub record IsSoundStack (items : List OwnershipLayer) : Type 0 where
  pub apart : all_apart items ≡ true
  pub capacity : length items ≤ max_layers

abbrev pub Stacks : Type 0
Stacks = Dict String (List OwnershipLayer)

pub record AreSound (stacks : Stacks) : Type 0 where
  pub stack : (entity : String) → IsSoundStack (or_empty (lookup entity stacks))
  pub entities : length stacks ≤ max_entities

pub nil-IsSoundStack : IsSoundStack []
unfolding all_apart
nil-IsSoundStack = record { apart = refl; capacity = omega arith }

pub filter-IsSoundStack :
    (kept : OwnershipLayer → Bool) (items : List OwnershipLayer)
    → IsSoundStack items
    → IsSoundStack (filter kept items)
filter-IsSoundStack kept items h = record {
  apart = all_apart-filter kept items h.apart;
  capacity = omega (arith, length-filter-le kept items, h.capacity);
}

if-IsSoundStack :
    (b : Bool) (x y : List OwnershipLayer)
    → IsSoundStack x
    → IsSoundStack y
    → IsSoundStack (if b then x else y)
if-IsSoundStack true x y hx hy = hx
if-IsSoundStack false x y hx hy = hy

or_empty-if :
    (b : Bool) (items : List OwnershipLayer) (o : Option (List OwnershipLayer))
    → or_empty (if b then some items else o) ≡ (if b then items else or_empty o)
or_empty-if true items o = refl
or_empty-if false items o = refl

or_empty-erased :
    (b : Bool) (o : Option (List OwnershipLayer))
    → or_empty (if b then none else o) ≡ (if b then [] else or_empty o)
or_empty-erased true o = refl
or_empty-erased false o = refl

-- A write to one stack.
pub insert-AreSound :
    (entity : String) (items : List OwnershipLayer) (stacks : Stacks)
    → AreSound stacks
    → IsSoundStack items
    → length (insert entity items stacks) ≤ max_entities
    → AreSound (insert entity items stacks)
insert-AreSound entity items stacks h k room = record {
  stack = λ j.
      rw (lookup-insert entity j items stacks, or_empty-if (j == entity) items (lookup j stacks))
        (if-IsSoundStack (j == entity) _ _ k (h.stack j));
  entities = room;
}

pub erase-AreSound :
    (entity : String) (stacks : Stacks) → AreSound stacks → AreSound (erase entity stacks)
erase-AreSound entity stacks h = record {
  stack = λ j.
      rw (lookup-erase entity j stacks, or_empty-erased (j == entity) (lookup j stacks))
        (if-IsSoundStack (j == entity) _ _ nil-IsSoundStack (h.stack j));
  entities = omega (arith, length-erase-le entity stacks, h.entities);
}

-- An entity with a layer has a stack already, so that a write to it adds no entity.
pub rewrite-AreSound :
    (entity : String) (items : List OwnershipLayer) (stacks : Stacks)
    → AreSound stacks
    → IsSoundStack items
    → is_some (lookup entity stacks) ≡ true
    → AreSound (insert entity items stacks)
rewrite-AreSound entity items stacks h k there =
    insert-AreSound entity items stacks h k
      (omega (arith, length-insert_of_some entity items stacks there, h.entities))

pub some_of_layer :
    (entity : String) (stacks : Stacks) (kept : OwnershipLayer → Bool)
    → is_nonempty (filter kept (or_empty (lookup entity stacks))) ≡ true
    → is_some (lookup entity stacks) ≡ true
some_of_layer entity stacks kept h = ground arith
