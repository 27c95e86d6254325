-- ===== src/Engine/Renewal.antt =====
-- What a reset, a boundary and a new generation leave of the engine.
use home_lighting_manager.Common.{
  ◌+◌, String, Bool, true, false, not, ◌||◌, ◌&&◌, none, some, List, [], ◌∷◌, ◌≡◌, refl, sym, ap,
  ◌∙◌, arith, any, filter, contains, Bool-cases, inl, inr, if◌then◌else◌, ◌==◌, string_eq,
  option_eq, length, last?,
}
use home_lighting_manager.Common.Dict.{Dict, lookup, keys, lookup-insert, lookup-erase}
use home_lighting_manager.Model.{OwnershipLayer, FamilySession, is_homeowner_kind, token_eq}
use home_lighting_manager.Engine.State.{
  Engine, changed, layers, or_empty, resolve, layer_eligible, is_current_work, work_token,
}
use home_lighting_manager.Engine.Groups.{clear_group_off}
use home_lighting_manager.Engine.Families.{keep_stack}
use home_lighting_manager.Engine.Scope.{
  sweep, homeowner_reason, clear_suppression, clear_suppressions, reset_homeowner_control,
  expire_boundary, next_generation,
}
use home_lighting_manager.Engine.Disarmed.{Kept, clear-Kept, clear-armed}

layers-keep_stack :
    (entity j : String) (remaining : List OwnershipLayer) (e : Engine)
    → layers (keep_stack entity remaining e) j ≡ (if j == entity then remaining else layers e j)
unfolding layers keep_stack
layers-keep_stack entity j [] e = ground (arith, lookup-erase entity j e.stacks)
layers-keep_stack entity j (x ∷ xs) e = ground (arith, lookup-insert entity j (x ∷ xs) e.stacks)

filter-filter :
    (p : OwnershipLayer → Bool) (xs : List OwnershipLayer) → filter p (filter p xs) ≡ filter p xs
filter-filter p [] = refl
filter-filter p (x ∷ xs) = ground (arith, filter-filter p xs)

abbrev pub swept : Bool → (OwnershipLayer → Bool) → List OwnershipLayer → List OwnershipLayer
swept true kept items = filter kept items
swept false kept items = items

swept-same :
    (b : Bool) (kept : OwnershipLayer → Bool) (items : List OwnershipLayer)
    → swept b kept (filter kept items) ≡ filter kept items
swept-same true kept items = filter-filter kept items
swept-same false kept items = refl

same_of_test : (j entity : String) → (j == entity) ≡ true → j ≡ entity
same_of_test j entity h = ground arith

pub swept-keep_stack :
    (entity j : String) (b : Bool) (kept : OwnershipLayer → Bool) (e : Engine)
    → swept b kept (layers (keep_stack entity (filter kept (layers e entity)) e) j)
      ≡ swept (j == entity || b) kept (layers e j)
swept-keep_stack entity j b kept e = elim (Bool-cases (j == entity)) [
  | inl t ↦
      rw (layers-keep_stack entity j (filter kept (layers e entity)) e, t)
        (swept-same b kept (layers e entity)
          ∙ ap (λ k. filter kept (layers e k)) (sym (same_of_test j entity t)))
  | inr f ↦ rw (layers-keep_stack entity j (filter kept (layers e entity)) e, f) refl
]

layers-sweep :
    (l : List String) (kept : OwnershipLayer → Bool) (e : Engine) (j : String)
    → layers (sweep l kept e).1 j ≡ swept (contains j l) kept (layers e j)
unfolding sweep
layers-sweep [] kept e j = refl
layers-sweep (entity ∷ l) kept e j =
    layers-sweep l kept _ j ∙ swept-keep_stack entity j (contains j l) kept e

lookup-keys :
    {V : Type 0} (j : String) (d : Dict String V) → contains j (keys d) ≡ false → lookup j d ≡ none
unfolding lookup
lookup-keys j [] h = refl
lookup-keys j ((g, v) ∷ d) h = ground (arith, lookup-keys j d)

layers-absent : (e : Engine) (j : String) → contains j (keys e.stacks) ≡ false → layers e j ≡ []
unfolding layers
layers-absent e j h = rw (lookup-keys j e.stacks h) refl

layers-sweep_all :
    (kept : OwnershipLayer → Bool) (e : Engine) (j : String)
    → layers (sweep (keys e.stacks) kept e).1 j ≡ filter kept (layers e j)
layers-sweep_all kept e j = elim (Bool-cases (contains j (keys e.stacks))) [
  | inl t ↦ rw (layers-sweep (keys e.stacks) kept e j, t) refl
  | inr f ↦ rw (layers-sweep (keys e.stacks) kept e j, f, layers-absent e j f) refl
]

sweep-families :
    (l : List String) (kept : OwnershipLayer → Bool) (e : Engine)
    → (sweep l kept e).1.families ≡ e.families
unfolding sweep keep_stack
sweep-families [] kept e = refl
sweep-families (entity ∷ l) kept e = sweep-families l kept _

pub layers-of_stacks : (e d : Engine) (j : String) → d.stacks ≡ e.stacks → layers d j ≡ layers e j
unfolding layers
layers-of_stacks e d j h = ap (λ s. or_empty (lookup j s)) h

layers-closed :
    (r q : String) (e : Engine) (j : String)
    → layers (changed r (clear_group_off q e)) j ≡ layers e j
unfolding changed
layers-closed r q e j = layers-of_stacks e _ j (clear-Kept q e).stacks

-- What passes the test of a family that the homeowner suppressed.
abbrev pub held : (String × String) × FamilySession → Bool
held entry = entry.1.suppressed && homeowner_reason entry.1.suppression_reason

clear_suppressions-none :
    (d : Dict (String × String) FamilySession) → any held (clear_suppressions d).1 ≡ false
unfolding clear_suppressions clear_suppression
clear_suppressions-none [] = refl
clear_suppressions-none ((k, s) ∷ d) = ground (arith, clear_suppressions-none d)

clear_suppressions-count :
    (d : Dict (String × String) FamilySession) → (clear_suppressions d).0 ≡ length (filter held d)
unfolding clear_suppressions
clear_suppressions-count [] = refl
clear_suppressions-count ((k, s) ∷ d) = ground (arith, clear_suppressions-count d)

-- At a boundary, every stack keeps exactly the layers that do not end there, in their order, and no
-- group stays armed.
pub expire_boundary-filters :
    (boundary : String) (e : Engine) (entity : String)
    → (layers (expire_boundary boundary e) entity
        ≡ filter (λ layer. not (layer.expires_at_boundary == some boundary)) (layers e entity))
      × ((expire_boundary boundary e).group_off_armed ≡ [])
unfolding expire_boundary changed
expire_boundary-filters boundary e entity = (
  layers-closed _ _ (sweep (keys e.stacks) _ e).1 entity ∙ layers-sweep_all _ e entity,
  clear-armed _ _,
)

-- A reset of homeowner control leaves in every stack exactly the layers of the system, in their
-- order, lifts every suppression that the homeowner caused and reports their number, and leaves
-- no group armed.
pub reset_homeowner_control-filters :
    (e : Engine) (entity : String)
    → (layers (reset_homeowner_control e).1 entity
        ≡ filter (λ layer. not (is_homeowner_kind layer.kind)) (layers e entity))
      × (any held (reset_homeowner_control e).1.families ≡ false)
      × ((reset_homeowner_control e).0.cleared_homeowner_suppressions
          ≡ length (filter held e.families))
      × ((reset_homeowner_control e).1.group_off_armed ≡ [])
unfolding reset_homeowner_control changed
reset_homeowner_control-filters e entity = (
  layers-of_stacks (sweep (keys e.stacks) _ e).1 _ entity (clear-Kept _ _).stacks
      ∙ layers-sweep_all _ e entity,
  ap (any held) (clear-Kept _ _).families ∙ clear_suppressions-none _,
  clear_suppressions-count _ ∙ ap (λ d. length (filter held d)) (sweep-families _ _ e),
  clear-armed _ _,
)

emptied : Engine → Engine
unfolding changed
emptied e = changed "configuration_generation_changed" (record e {
  generation = e.generation + 1;
  stacks = [];
  families = [];
  ended_sessions = [];
  session_sequences = [];
  session_ids = [];
  legacy_sessions_exhausted = false;
})

next_generation-Kept : (e : Engine) → Kept (emptied e) (next_generation e)
unfolding next_generation emptied
next_generation-Kept e = clear-Kept _ _

layers-empty : (e : Engine) (entity : String) → e.stacks ≡ [] → layers e entity ≡ []
unfolding layers lookup
layers-empty e entity h = ap (λ s. or_empty (lookup entity s)) h

resolve-empty : (e : Engine) (entity : String) → layers e entity ≡ [] → resolve e entity ≡ none
unfolding resolve
resolve-empty e entity h = ap (λ l. last? (filter (λ layer. layer_eligible e entity layer) l)) h

-- A new generation drops every layer and every session, disarms every group, exposes nothing, and
-- makes every calculation begun before it stale.
pub next_generation-clears :
    (e : Engine) (entity : String)
    → (layers (next_generation e) entity ≡ [])
      × (resolve (next_generation e) entity ≡ none)
      × ((next_generation e).families ≡ [])
      × ((next_generation e).group_off_armed ≡ [])
      × ((next_generation e).generation ≡ e.generation + 1)
      × (is_current_work (next_generation e) (work_token e) ≡ false)
unfolding next_generation emptied changed is_current_work work_token token_eq
next_generation-clears e entity =
    let k = next_generation-Kept e in
    let empty = layers-empty (next_generation e) entity k.stacks in
    (
      empty,
      resolve-empty (next_generation e) entity empty,
      k.families,
      clear-armed _ _,
      k.generation,
      ground (arith, k.generation),
    )
