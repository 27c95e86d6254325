-- ===== src/Engine/TwoStep.antt =====
-- The first step of a group OFF.
use home_lighting_manager.Common.{
  String, Bool, true, false, not, ◌&&◌, Option, none, some, List, [], ◌∷◌, ◌≡◌, refl, ap, ◌∙◌,
  arith, filter, contains, Bool-cases, inl, inr, if◌then◌else◌, ◌==◌, string_eq, length, is_some,
  leb,
}
use home_lighting_manager.Common.Int.{ℤ}
use home_lighting_manager.Common.Dict.{Dict, lookup, lookup-insert, lookup-erase}
use home_lighting_manager.Common.Text.{Names, sorted_set, subset, overlaps}
use home_lighting_manager.Common.Action.{ok, ◌>>=◌}
use home_lighting_manager.Model.{
  OwnershipLayer, GroupOffAction, group_off_action_value, is_homeowner_kind,
}
use home_lighting_manager.Engine.State.{Engine, changed, layers, max_groups}
use home_lighting_manager.Engine.Groups.{
  discard_group_off, discard_overlaps, invalidate_overlaps, is_nonempty,
}
use home_lighting_manager.Engine.Families.{
  keep_where, keep_stack, remove_where, remove_homeowner_exceptions,
}
use home_lighting_manager.Engine.Off.{
  release_all, make_room, arm, first_group_off, is_armed, group_phase, commit_group_off,
  eligible_of, apply_group_off,
}
use home_lighting_manager.Engine.Disarmed.{discard-Kept, discard-armed}
use home_lighting_manager.Engine.Renewal.{layers-of_stacks, swept, swept-keep_stack}

lookup-discard :
    (g other reason : String) (t : Option String) (e : Engine)
    → (g == other) ≡ false
    → lookup g (discard_group_off other reason t e).group_off_armed ≡ lookup g e.group_off_armed
lookup-discard g other reason t e h =
    rw (discard-armed other reason t e, lookup-erase other g e.group_off_armed, h) refl

-- Overlapping groups are disarmed; the group itself is not, and no layer changes.
record Spared (g : String) (e d : Engine) : Type 0 where
  armed : lookup g d.group_off_armed ≡ lookup g e.group_off_armed
  stacks : d.stacks ≡ e.stacks

spare :
    (g other reason : String) (t : Option String) (b : Bool) (e : Engine)
    → Spared g e (if not (other == g) && b then discard_group_off other reason t e else e)
spare g other reason t b e = elim (Bool-cases (not (other == g) && b)) [
  | inl yes' ↦ rw yes' (record {
    armed = lookup-discard g other reason t e (ground (arith, yes'));
    stacks = (discard-Kept other reason t e).stacks;
  })
  | inr no' ↦ rw no' (record { armed = refl; stacks = refl })
]

discard_overlaps-Spared :
    (l : Dict String Names) (g : String) (members : Names) (e : Engine)
    → Spared g e (discard_overlaps l g members e)
unfolding discard_overlaps
discard_overlaps-Spared [] g members e = record { armed = refl; stacks = refl }
discard_overlaps-Spared ((other, targets) ∷ l) g members e =
    let s = spare g other "apply_group_off:overlap" (some g) (overlaps targets members) e in
    let k = discard_overlaps-Spared l g members _ in
    record { armed = k.armed ∙ s.armed; stacks = k.stacks ∙ s.stacks }

abbrev is_system : OwnershipLayer → Bool
is_system layer = not (is_homeowner_kind layer.kind)

stacks_of_change :
    (b : Bool) (reason : String) (e : Engine)
    → (if b then e else changed reason e).stacks ≡ e.stacks
unfolding changed
stacks_of_change true reason e = refl
stacks_of_change false reason e = refl

stacks-remove :
    (entity : String) (e : Engine)
    → (remove_homeowner_exceptions entity e).stacks
      ≡ (keep_stack entity (filter is_system (layers e entity)) e).stacks
unfolding remove_homeowner_exceptions remove_where keep_where
stacks-remove entity e = stacks_of_change _ _ _

layers-release_all :
    (l : List String) (e : Engine) (j : String)
    → layers (release_all l e) j ≡ swept (contains j l) is_system (layers e j)
unfolding release_all
layers-release_all [] e j = refl
layers-release_all (entity ∷ l) e j =
    layers-release_all l (remove_homeowner_exceptions entity e) j
    ∙ ap (swept (contains j l) is_system) (
        layers-of_stacks (keep_stack entity (filter is_system (layers e entity)) e) _ j
          (stacks-remove entity e))
    ∙ swept-keep_stack entity j (contains j l) is_system e

stacks-make_room : (g : String) (e : Engine) → (make_room g e).stacks ≡ e.stacks
unfolding make_room
stacks-make_room g e =
    elim (Bool-cases
      (not (is_some (lookup g e.group_off_armed)) && leb max_groups (length e.group_off_armed))) [
        | inl yes' ↦ rw yes' (discard-Kept _ _ _ e).stacks
        | inr no' ↦ rw no' refl
      ]

subset-cons : (x : String) (a b : Names) → subset a b ≡ true → subset a (x ∷ b) ≡ true
subset-cons x [] b h = refl
subset-cons x (y ∷ a) b h = ground (arith, subset-cons x a b)

subset_refl : (a : Names) → subset a a ≡ true
subset_refl [] = refl
subset_refl (x ∷ a) = ground (arith, subset-cons x a a, subset_refl a)

armed-first :
    (g : String) (members : Names) (l : List String) (e : Engine)
    → is_armed (first_group_off g members l e) g members ≡ true
unfolding first_group_off arm is_armed
armed-first g members l e =
    rw (is_armed, lookup-insert g g members (make_room g (release_all l e)).group_off_armed)
      (ground (arith, subset_refl members))

layers-first :
    (g : String) (members : Names) (l : List String) (e : Engine) (j : String)
    → layers (first_group_off g members l e) j ≡ swept (contains j l) is_system (layers e j)
unfolding first_group_off arm
layers-first g members l e j =
    layers-of_stacks (release_all l e) _ j (stacks-make_room g (release_all l e))
    ∙ layers-release_all l e j

is_armed-Spared :
    (g : String) (members : Names) (e d : Engine)
    → Spared g e d
    → is_armed d g members ≡ is_armed e g members
unfolding is_armed
is_armed-Spared g members e d s = rw (is_armed, s.armed) refl

swept-if :
    (b : Bool) (items : List OwnershipLayer)
    → swept b is_system items ≡ (if b then filter is_system items else items)
swept-if true items = refl
swept-if false items = refl

eligible-members :
    (members : Names) (eligible : Option Names)
    → is_nonempty (eligible_of members eligible) ≡ true
    → is_nonempty members ≡ true
eligible-members [] none h = h
eligible-members [] (some l) h = h
eligible-members (x ∷ members) eligible h = refl

module _ (g : String) (entities : List String) (eligible : Option Names) (p : Option ℤ)
    (boundary : String) (e : Engine) where
  abbrev members : Names
  members = sorted_set entities

  abbrev affected : Names
  affected = eligible_of (sorted_set entities) eligible

  abbrev spared : Engine
  spared = invalidate_overlaps g (sorted_set entities) e

  overlaps-Spared : Spared g e spared
  unfolding invalidate_overlaps
  overlaps-Spared = discard_overlaps-Spared e.group_off_armed g members e

  released :
      is_nonempty affected ≡ true
      → is_armed e g members ≡ false
      → apply_group_off g entities eligible p boundary e ≡ (
        ok (record {
          group_id = g;
          action = GroupOffAction.released_to_hlm;
          entity_ids = affected;
        }),
        changed "released_to_hlm" (first_group_off g members affected spared),
      )
  unfolding apply_group_off commit_group_off group_phase ◌>>=◌ group_off_action_value
  released some' unarmed =
      rw
        (
          eligible-members members eligible some',
          some',
          is_armed-Spared g members e spared overlaps-Spared,
          unarmed,
        )
        refl

  -- A group OFF with an eligible member, of a group that is not armed for exactly its members,
  -- succeeds and answers that it released to the system: each eligible member loses its homeowner
  -- layers and nothing else, every other stack stays as it was, and the group is armed for its
  -- members.
  pub apply_group_off-releases :
      (entity : String)
      → is_nonempty (eligible_of (sorted_set entities) eligible) ≡ true
      → is_armed e g (sorted_set entities) ≡ false
      → ((apply_group_off g entities eligible p boundary e).0
          ≡ ok (record {
            group_id = g;
            action = GroupOffAction.released_to_hlm;
            entity_ids = eligible_of (sorted_set entities) eligible;
          }))
        × (layers (apply_group_off g entities eligible p boundary e).1 entity ≡ (
            if contains entity (eligible_of (sorted_set entities) eligible)
            then filter (λ layer. not (is_homeowner_kind layer.kind)) (layers e entity)
            else layers e entity))
        × (is_armed (apply_group_off g entities eligible p boundary e).1 g (sorted_set entities)
            ≡ true)
  unfolding changed
  apply_group_off-releases entity some' unarmed = rw (released some' unarmed) (
    refl,
    layers-of_stacks (first_group_off g members affected spared) _ entity refl
        ∙ layers-first g members affected spared entity
        ∙ ap (swept (contains entity affected) is_system)
            (layers-of_stacks e spared entity overlaps-Spared.stacks)
        ∙ swept-if (contains entity affected) (layers e entity),
    is_armed-Spared g members _ _ (record { armed = refl; stacks = refl })
        ∙ armed-first g members affected spared,
  )
