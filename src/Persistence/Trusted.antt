-- ===== src/Persistence/Trusted.antt =====
-- What a payload can make the parser accept.
use home_lighting_manager.Common.{
  ◌≤◌, String, Bool, true, false, ◌&&◌, ◌||◌, Option, none, some, ◌≡◌, refl, arith, all, length,
  ltb, string_eq, string_discrete, nat_eq, ◌==◌, if◌then◌else◌, Option-cases, inl, inr,
}
use mathlib.Core.Path.{subst}
use mathlib.Core.Option.{some-injective}
use home_lighting_manager.Model.{
  Value, Items, Fields, str, list, dict, nil, cons, OwnershipLayer, FamilySession, get_or, get?,
  item_count,
}
use home_lighting_manager.Engine.State.{is_light_id}
use home_lighting_manager.Persistence.Decode.{
  ◌>>=◌, ◌>>◌, check, deserialize_layer, deserialize_session, text_of,
}
use home_lighting_manager.Persistence.Payload.{
  layer_trusted, with_entity, accept_entity_layer, accept_layer, accept_session, collect, key_text,
  count_of, rejected_payload, accepted_payload, parse_lists, deserialize_state,
  PersistedOwnershipState,
}

-- A trusted layer whose metadata name a light.
abbrev pub names_light : OwnershipLayer → Bool
names_light layer = elim (key_text "persisted_entity_id" (dict layer.metadata)) [
  | none ↦ false
  | some entity ↦ is_light_id entity
]

module _ {A : Type 0} (f : Value → Option A) where
  length-collect-le : (l : Items) → length (collect f l) ≤ item_count l
  unfolding collect
  length-collect-le nil = omega arith
  length-collect-le (cons v l) = ground (arith, length-collect-le l)

  all-collect :
      (p : A → Bool)
      → ((v : Value) (a : A) → f v ≡ some a → p a ≡ true)
      → (l : Items) → all p (collect f l) ≡ true
  unfolding collect
  all-collect p h nil = refl
  all-collect p h (cons v l) = elim (Option-cases (f v)) [
    | inl e ↦ rw (all, e) (all-collect p h l)
    | inr (a, e) ↦ rw (all, e, h v a e) (all-collect p h l)
  ]

entity-named :
    (entity : String) (layer : OwnershipLayer)
    → is_light_id entity ≡ true
    → layer_trusted layer ≡ true
    → (layer_trusted (with_entity entity layer) && names_light (with_entity entity layer)) ≡ true
unfolding with_entity layer_trusted key_text get_or get? string_discrete text_of
entity-named entity layer h k = rw (k, h) refl

check_passed :
    {A : Type 0} (b : Bool) (x y : A) → (check b >> some x) ≡ some y → (b ≡ true) × (x ≡ y)
check_passed true x y h = (refl, some-injective x y h)
check_passed false x y h = absurd (cc h)

checked :
    (entity : String) (b : Bool) (o : Option OwnershipLayer) (layer : OwnershipLayer)
    → (check b >> (o >>= λ l. check (layer_trusted l) >> some (with_entity entity l))) ≡ some layer
    → b ≡ true
    → (l : OwnershipLayer) × (layer_trusted l ≡ true) × (with_entity entity l ≡ layer)
checked entity true none layer h t = absurd (cc h)
checked entity true (some l) layer h t =
    let (t', e) = check_passed (layer_trusted l) (with_entity entity l) layer h in (l, t', e)
checked entity false o layer h t = absurd (cc t)

check_holds : {A : Type 0} (b : Bool) (o : Option A) (y : A) → (check b >> o) ≡ some y → b ≡ true
check_holds true o y h = refl
check_holds false o y h = absurd (cc h)

and_first : (a b : Bool) → (a && b) ≡ true → a ≡ true
and_first true b h = refl
and_first false b h = h

abbrev vouched : OwnershipLayer → Bool
vouched layer = layer_trusted layer && names_light layer

of_value :
    (items : Items) (entity : String) (o : Option Value) (b : Bool) (layer : OwnershipLayer)
    → (check b
        >> (o >>= λ v.
            deserialize_layer v >>= λ l. check (layer_trusted l) >> some (with_entity entity l)))
      ≡ some layer
    → b ≡ true
    → is_light_id entity ≡ true
    → vouched layer ≡ true
of_value items entity none true layer h t light = absurd (cc h)
of_value items entity (some v) true layer h t light =
    let (l, trusted, same) = checked entity true (deserialize_layer v) layer h refl in
    subst (λ k. vouched k ≡ true) same (entity-named entity l light trusted)
of_value items entity o false layer h t light = absurd (cc t)

accept_entity_layer-vouched :
    (items : Items) (entity : String) (d : Fields) (layer : OwnershipLayer)
    → accept_entity_layer items entity d ≡ some layer
    → vouched layer ≡ true
unfolding accept_entity_layer
accept_entity_layer-vouched items entity d layer h =
    let passed =
      check_holds (is_light_id entity && count_of "entity_id" entity items == 1) _ layer h in
    of_value items entity (get? "layer" d) _ layer h passed
      (and_first (is_light_id entity) (count_of "entity_id" entity items == 1) passed)

of_text :
    (items : Items) (d : Fields) (o : Option Value) (layer : OwnershipLayer)
    → (o >>= λ v. text_of v >>= λ entity. accept_entity_layer items entity d) ≡ some layer
    → vouched layer ≡ true
unfolding text_of
of_text items d none layer h = absurd (cc h)
of_text items d (some (str entity)) layer h = accept_entity_layer-vouched items entity d layer h
of_text items d (some v) layer h = absurd (cc h)

accept_layer-vouched :
    (items : Items) (v : Value) (layer : OwnershipLayer)
    → accept_layer items v ≡ some layer
    → vouched layer ≡ true
unfolding accept_layer
accept_layer-vouched items (dict d) layer h = of_text items d (get? "entity_id" d) layer h
accept_layer-vouched items v layer h = absurd (cc h)

of_session :
    (items : Items) (o : Option FamilySession) (s : FamilySession)
    → (o >>= λ t. check (t.suppressed && count_of "family" t.family items == 1) >> some t) ≡ some s
    → s.suppressed ≡ true
of_session items none s h = absurd (cc h)
of_session items (some t) s h =
    let (passed, same) =
      check_passed (t.suppressed && count_of "family" t.family items == 1) t s h in
    subst (λ k. k.suppressed ≡ true) same
      (and_first t.suppressed (count_of "family" t.family items == 1) passed)

accept_session-suppressed :
    (items : Items) (v : Value) (s : FamilySession)
    → accept_session items v ≡ some s
    → s.suppressed ≡ true
unfolding accept_session
accept_session-suppressed items v s h = of_session items (deserialize_session v) s h

-- What the parser may answer: trusted layers that name a light each, at most 256 of them, and
-- suppressed sessions, at most 64 of them.
pub record IsTrustworthy (p : PersistedOwnershipState) : Type 0 where
  pub layers : all (λ layer. layer_trusted layer && names_light layer) p.layers ≡ true
  pub sessions : all (λ s. s.suppressed) p.suppressed_sessions ≡ true
  pub few_layers : length p.layers ≤ 256
  pub few_sessions : length p.suppressed_sessions ≤ 64

rejected-IsTrustworthy : IsTrustworthy rejected_payload
unfolding rejected_payload
rejected-IsTrustworthy = record {
  layers = refl;
  sessions = refl;
  few_layers = omega arith;
  few_sessions = omega arith;
}

accepted-IsTrustworthy :
    (l s : Items) → item_count l ≤ 256 → item_count s ≤ 64 → IsTrustworthy (accepted_payload l s)
unfolding accepted_payload
accepted-IsTrustworthy l s h k = record {
  layers = all-collect (accept_layer l) vouched (accept_layer-vouched l) l;
  sessions = all-collect (accept_session s) (λ s. s.suppressed) (accept_session-suppressed s) s;
  few_layers = omega (arith, length-collect-le (accept_layer l) l, h);
  few_sessions = omega (arith, length-collect-le (accept_session s) s, k);
}

parsed-IsTrustworthy :
    (l s : Items) (b : Bool)
    → (ltb 256 (item_count l) || ltb 64 (item_count s)) ≡ b
    → IsTrustworthy (if b then rejected_payload else accepted_payload l s)
parsed-IsTrustworthy l s true h = rejected-IsTrustworthy
parsed-IsTrustworthy l s false h =
    accepted-IsTrustworthy l s (ground (arith, h)) (ground (arith, h))

parse_lists-IsTrustworthy : (v w : Value) → IsTrustworthy (parse_lists v w)
unfolding parse_lists
parse_lists-IsTrustworthy (list l) (list s) = parsed-IsTrustworthy l s _ refl
parse_lists-IsTrustworthy _ _ = rejected-IsTrustworthy

supported-IsTrustworthy :
    (b : Bool) (v w : Value) → IsTrustworthy (if b then parse_lists v w else rejected_payload)
supported-IsTrustworthy true v w = parse_lists-IsTrustworthy v w
supported-IsTrustworthy false v w = rejected-IsTrustworthy

-- Whatever the payload is, each layer that is accepted is a homeowner layer of the owner "manual"
-- with a valid appearance that agrees with its kind, free of any family, session or parent, whose
-- metadata name a light; each session that is accepted is suppressed; and there are at most 256
-- layers and 64 sessions.
pub deserialize_state-IsTrustworthy : (payload : Value) → IsTrustworthy (deserialize_state payload)
unfolding deserialize_state
deserialize_state-IsTrustworthy (dict d) = supported-IsTrustworthy _ _ _
deserialize_state-IsTrustworthy _ = rejected-IsTrustworthy
