-- ===== src/Engine/Sound/Pushes.antt =====
-- The well-formedness of an engine after a push, and after the moves that follow one.
use home_lighting_manager.Common.{
  ◌+◌, ◌<◌, String, Bool, true, false, Option, none, some, List, [], ◌≡◌, refl, sym, ◌∙◌, arith,
  length, leb, any, find, is_some, Bool-cases, inl, inr, ◌⊎◌, string_eq,
}
use home_lighting_manager.Common.Int.{ℤ, pos, ltb_ℤ}
use home_lighting_manager.Common.Dict.{Dict, lookup, insert, lookup-insert, length-insert-le}
use home_lighting_manager.Common.Action.{Result, ◌>>=◌}
use home_lighting_manager.Common.Action.Invariant.{Preserves}
use home_lighting_manager.Model.{OwnershipLayer, WorkToken, layer_eq}
use home_lighting_manager.Engine.State.{Engine, layers, or_empty, max_entities, max_layers}
use home_lighting_manager.Engine.Stack.{
  set_default, update_layer, place_layer, push, push_refusal, move_before, insert_before,
  remove_first, updates, collides, identity,
}
use home_lighting_manager.Engine.Stack.Distinct.{
  IsAlike, any_alike, all_apart-insert_before, all_apart-replace_first, all_apart-remove_first,
  find-identity, any-find-none, any-removed,
}
use home_lighting_manager.Engine.Stack.Sizes.{
  length-replace_first, length-insert_before, length-remove_first,
}
use home_lighting_manager.Engine.Stack.Pushed.{
  Pushed, refused, blocked, updated, placed, push-Pushed, layers-set_default,
}
use home_lighting_manager.Engine.Sound.{nil-IsSoundStack, insert-AreSound, rewrite-AreSound}
use home_lighting_manager.Engine.Sound.Writes.{IsSound, with_stacks-IsSound, changed-IsSound}

some_of_any :
    (entity : String) (p : OwnershipLayer → Bool) (stacks : Dict String (List OwnershipLayer))
    → any p (or_empty (lookup entity stacks)) ≡ true
    → is_some (lookup entity stacks) ≡ true
some_of_any entity p stacks h = ground arith

room_of_refusal :
    (e : Engine) (entity : String) (layer : OwnershipLayer) (t : Option WorkToken)
    → push_refusal e entity layer t ≡ none
    → (is_some (lookup entity e.stacks) ≡ true) ⊎ (length e.stacks < max_entities)
unfolding push_refusal
room_of_refusal e entity layer t h = ground arith

set_default-there :
    (entity : String) (e : Engine) → is_some (lookup entity (set_default entity e).stacks) ≡ true
unfolding set_default
set_default-there entity e = ground (arith, lookup-insert entity entity [] e.stacks)

set_default-IsSound :
    (entity : String) (e : Engine)
    → IsSound e
    → (is_some (lookup entity e.stacks) ≡ true) ⊎ (length e.stacks < max_entities)
    → IsSound (set_default entity e)
unfolding set_default
set_default-IsSound entity e h room = elim (Bool-cases (is_some (lookup entity e.stacks))) [
  | inl there ↦ rw (set_default, there) h
  | inr absent ↦
      rw (set_default, absent)
        (with_stacks-IsSound e _ h (
          insert-AreSound entity [] e.stacks h.stacks nil-IsSoundStack
            (ground (arith, length-insert-le entity [] e.stacks))))
]

relabelled :
    (layer : OwnershipLayer) (id : String) (n : ℤ)
    → identity (record layer { layer_id = id; order = n }) ≡ identity layer
unfolding identity
relabelled layer id n = refl

update_layer-IsSound :
    (entity : String) (layer old : OwnershipLayer) (e : Engine)
    → IsSound e
    → is_some (lookup entity e.stacks) ≡ true
    → any (collides layer) (layers e entity) ≡ false
    → find (updates layer) (layers e entity) ≡ some old
    → IsSound (update_layer entity layer old e)
unfolding layers update_layer
update_layer-IsSound entity layer old e h there free found =
    let stored : OwnershipLayer = record layer { layer_id = old.layer_id; order = old.order } in
    let same : IsAlike stored old = (
      refl,
      relabelled layer old.layer_id old.order ∙ sym (find-identity layer old _ free found),
    ) in
    elim (Bool-cases (layer_eq stored old)) [
      | inl yes' ↦ rw (update_layer, yes') h
      | inr no' ↦
          rw (update_layer, no')
            (changed-IsSound _ _ (
              with_stacks-IsSound e _ h (
                rewrite-AreSound entity _ e.stacks h.stacks
                  (record {
                    apart =
                        all_apart-replace_first (updates layer) stored old _ same found
                          (h.stacks.stack entity).apart;
                    capacity = omega (
                      arith,
                      length-replace_first (updates layer) stored (layers e entity),
                      (h.stacks.stack entity).capacity,
                    );
                  })
                  there)))
    ]

place_layer-IsSound :
    (entity : String) (layer : OwnershipLayer) (e : Engine)
    → IsSound e
    → is_some (lookup entity e.stacks) ≡ true
    → find (updates layer) (layers e entity) ≡ none
    → leb max_layers (length (layers e entity)) ≡ false
    → IsSound (place_layer entity layer e)
unfolding layers place_layer
place_layer-IsSound entity layer e h there found room =
    let same : IsAlike layer (record layer { order = pos (e.order + 1) }) =
      (refl, sym (relabelled layer layer.layer_id (pos (e.order + 1)))) in
    let k = h.stacks.stack entity in
    changed-IsSound _ _ (record {
      stacks =
          rewrite-AreSound entity _ e.stacks h.stacks
            (record {
              apart = all_apart-insert_before _ _ _ k.apart (
                  sym (any_alike layer _ (layers e entity) same)
                  ∙ any-find-none (updates layer) (layers e entity) found);
              capacity = ground (
                arith,
                length-insert_before (λ item. ltb_ℤ layer.precedence item.precedence)
                    (record layer { order = pos (e.order + 1) }) (layers e entity),
              );
            })
            there;
      armed = h.armed;
      ledger = h.ledger;
      ended = h.ended;
    })

pushed-IsSound :
    (entity : String) (layer : OwnershipLayer) (t : Option WorkToken) (e : Engine)
    (p : Result OwnershipLayer × Engine)
    → IsSound e
    → Pushed entity layer t e p
    → IsSound p.1
pushed-IsSound entity layer t e p h (refused error q) = rw q h
pushed-IsSound entity layer t e p h (blocked error early q) =
    rw q (set_default-IsSound entity e h (room_of_refusal e entity layer t early))
pushed-IsSound entity layer t e p h (updated attached old early att free found q) = rw q (
    update_layer-IsSound entity attached old _
      (set_default-IsSound entity e h (room_of_refusal e entity layer t early))
      (set_default-there entity e) (rw (layers-set_default entity entity e) free)
      (rw (layers-set_default entity entity e) found))
pushed-IsSound entity layer t e p h (placed attached early att found room q) = rw q (
    place_layer-IsSound entity attached _
      (set_default-IsSound entity e h (room_of_refusal e entity layer t early))
      (set_default-there entity e) (rw (layers-set_default entity entity e) found) room)

pub push-IsSound :
    (entity : String) (layer : OwnershipLayer) (t : Option WorkToken)
    → Preserves IsSound (push entity layer t)
push-IsSound entity layer t = record {
  run = λ e h. pushed-IsSound entity layer t e _ h (push-Pushed entity layer t e);
}

moved-IsSound :
    (entity : String) (test : OwnershipLayer → Bool) (stored : OwnershipLayer) (e : Engine)
    → IsSound e
    → any (λ item. layer_eq item stored) (layers e entity) ≡ true
    → IsSound (record e {
      stacks =
          insert entity
            (insert_before test stored (remove_first stored (layers e entity)))
            e.stacks;
    })
unfolding layers
moved-IsSound entity test stored e h there =
    let k = h.stacks.stack entity in
    with_stacks-IsSound e _ h (
      rewrite-AreSound entity _ e.stacks h.stacks
        (record {
          apart =
              all_apart-insert_before test stored _ (all_apart-remove_first stored _ k.apart)
                (any-removed stored _ k.apart there);
          capacity = omega (
            arith,
            k.capacity,
            length-remove_first stored (layers e entity) there,
            length-insert_before test stored (remove_first stored (layers e entity)),
          );
        })
        (some_of_any entity (λ item. layer_eq item stored) e.stacks there))

-- A layer that is moved was taken out of the same stack.
pub move_before-IsSound :
    (entity : String) (test : OwnershipLayer → Bool) (stored : OwnershipLayer)
    → Preserves IsSound (move_before entity test stored)
unfolding move_before ◌>>=◌
move_before-IsSound entity test stored = record {
  run = λ e h. elim (Bool-cases (any (λ item. layer_eq item stored) (layers e entity))) [
    | inl there ↦ rw there (moved-IsSound entity test stored e h there)
    | inr absent ↦ rw absent h
  ];
}
