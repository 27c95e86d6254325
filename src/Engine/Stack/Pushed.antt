-- ===== src/Engine/Stack/Pushed.antt =====
-- The paths of `push`, with what each one checked.
use home_lighting_manager.Common.{
  ◌+◌, String, Bool, true, false, Option, none, some, [], ◌≡◌, refl, length, leb, any, find,
  string_eq, arith,
}
use home_lighting_manager.Common.Int.{pos}
use home_lighting_manager.Common.Dict.{lookup-insert}
use home_lighting_manager.Common.Action.{
  Result, ok, err, ◌>>=◌, ◌>>◌, and_then, raise_some, raise_if, modify, from_result,
}
use home_lighting_manager.Model.{OwnershipLayer, WorkToken}
use home_lighting_manager.Engine.State.{Engine, layers, max_layers}
use home_lighting_manager.Engine.Stack.{
  push, push_refusal, attach_session, session_key, set_default, updates, collides, update_layer,
  place_layer, store_layer,
}

pub data Pushed (entity : String) (layer : OwnershipLayer) (t : Option WorkToken) (e : Engine)
    : Result OwnershipLayer × Engine → Type 0 where
  refused :
      {p : Result OwnershipLayer × Engine} (error : String)
      → p ≡ (err error, e)
      → Pushed entity layer t e p
  blocked :
      {p : Result OwnershipLayer × Engine} (error : String)
      → push_refusal e entity layer t ≡ none
      → p ≡ (err error, set_default entity e)
      → Pushed entity layer t e p
  updated :
      {p : Result OwnershipLayer × Engine} (attached old : OwnershipLayer)
      → push_refusal e entity layer t ≡ none
      → attach_session e layer (session_key layer.family layer.session_id) ≡ ok attached
      → any (collides attached) (layers e entity) ≡ false
      → find (updates attached) (layers e entity) ≡ some old
      → p ≡ (
        ok (record attached { layer_id = old.layer_id; order = old.order }),
        update_layer entity attached old (set_default entity e),
      )
      → Pushed entity layer t e p
  placed :
      {p : Result OwnershipLayer × Engine} (attached : OwnershipLayer)
      → push_refusal e entity layer t ≡ none
      → attach_session e layer (session_key layer.family layer.session_id) ≡ ok attached
      → find (updates attached) (layers e entity) ≡ none
      → leb max_layers (length (layers (set_default entity e) entity)) ≡ false
      → p ≡ (
        ok (record attached { order = pos ((set_default entity e).order + 1) }),
        place_layer entity attached (set_default entity e),
      )
      → Pushed entity layer t e p

module _ (entity : String) (layer : OwnershipLayer) (t : Option WorkToken) (e : Engine) where
  abbrev e₁ : Engine
  e₁ = set_default entity e

  of_capacity :
      (attached : OwnershipLayer) (b : Bool)
      → leb max_layers (length (layers e₁ entity)) ≡ b
      → push_refusal e entity layer t ≡ none
      → attach_session e layer (session_key layer.family layer.session_id) ≡ ok attached
      → find (updates attached) (layers e entity) ≡ none
      → Pushed entity layer t e (
          and_then (raise_if b "layer capacity exceeded" e₁) (λ _.
            modify (place_layer entity attached) >> λ s.
            (ok (record attached { order = pos (e₁.order + 1) }), s)))
  unfolding ◌>>=◌
  of_capacity attached true room early att found = blocked "layer capacity exceeded" early refl
  of_capacity attached false room early att found = placed attached early att found room refl

  of_found :
      (attached : OwnershipLayer) (o : Option OwnershipLayer)
      → find (updates attached) (layers e entity) ≡ o
      → push_refusal e entity layer t ≡ none
      → attach_session e layer (session_key layer.family layer.session_id) ≡ ok attached
      → any (collides attached) (layers e entity) ≡ false
      → Pushed entity layer t e (store_layer entity attached o e₁)
  unfolding store_layer ◌>>=◌
  of_found attached (some old) found early att free = updated attached old early att free found refl
  of_found attached none found early att free = of_capacity attached _ refl early att found

  of_collision :
      (attached : OwnershipLayer) (b : Bool)
      → any (collides attached) (layers e entity) ≡ b
      → push_refusal e entity layer t ≡ none
      → attach_session e layer (session_key layer.family layer.session_id) ≡ ok attached
      → Pushed entity layer t e (
          and_then
            (raise_if b "layer ID collision across logical owners" e₁)
            (λ _. store_layer entity attached (find (updates attached) (layers e entity))))
  unfolding ◌>>=◌
  of_collision attached true clash early att =
      blocked "layer ID collision across logical owners" early refl
  of_collision attached false clash early att = of_found attached _ refl early att clash

  of_session :
      (r : Result OwnershipLayer)
      → attach_session e layer (session_key layer.family layer.session_id) ≡ r
      → push_refusal e entity layer t ≡ none
      → Pushed entity layer t e (
          and_then (from_result r e) (λ attached.
            modify (set_default entity)
            >> (raise_if
                  (any (collides attached) (layers e entity))
                  "layer ID collision across logical owners"
                >> store_layer entity attached (find (updates attached) (layers e entity)))))
  unfolding ◌>>=◌
  of_session (ok attached) att early = of_collision attached _ refl early att
  of_session (err error) att early = refused error refl

  of_refusal :
      (o : Option String)
      → push_refusal e entity layer t ≡ o
      → Pushed entity layer t e (
          and_then (raise_some o e) (λ _.
            from_result (attach_session e layer (session_key layer.family layer.session_id))
            >>= λ attached.
                modify (set_default entity)
                >> (raise_if
                      (any (collides attached) (layers e entity))
                      "layer ID collision across logical owners"
                    >> store_layer entity attached (find (updates attached) (layers e entity)))))
  unfolding ◌>>=◌
  of_refusal (some error) early = refused error refl
  of_refusal none early = of_session _ refl early

  pub push-Pushed : Pushed entity layer t e (push entity layer t e)
  unfolding push ◌>>=◌
  push-Pushed = of_refusal _ refl

pub layers-set_default :
    (entity j : String) (e : Engine) → layers (set_default entity e) j ≡ layers e j
unfolding layers set_default
layers-set_default entity j e = ground (arith, lookup-insert entity j [] e.stacks)
