-- ===== src/Persistence/RoundTrip.antt =====
-- Records that are serialized and parsed again.
use home_lighting_manager.Common.{
  ℕ, zero, suc, ◌≤◌, String, Bool, true, false, ◌&&◌, ◌||◌, all, Option, none, some, List, [], ◌∷◌,
  length, ◌≡◌, refl, arith, string_eq, string_discrete, nat_eq,
}
use home_lighting_manager.Common.Int.{pos}
use home_lighting_manager.Model.{
  Value, null, int, str, dict, end, tuple, OwnershipLayer, FamilySession, LayerKind, Appearance,
  kind_value, is_bounded_str, get_or, get?, Items, nil, cons, item_count, components_valid,
  color_valid, is_valid, type_is_bool, is_null, is_brightness, is_kelvin, is_mode, mode_backed,
  automatic, manual, manual_off, functional, overlay,
}
use home_lighting_manager.Persistence.Encode.{
  serialize_session, serialize_layer, optional_str, appearance_fields, optional_appearance,
}
use home_lighting_manager.Persistence.Decode.{
  bounded_str, text_or_null, plain_int, positive, parse_bool, provenance, parse_kind,
  normalize_color, keywords_known, parse_appearance, deserialize_appearance, session_of_fields,
  deserialize_session, layer_of_fields, deserialize_layer,
}

bounded : (n : ℕ) (s : String) → is_bounded_str n (str s) ≡ true → bounded_str n (str s) ≡ some s
unfolding bounded_str
bounded n s h = rw h refl

text_back : (o : Option String) → text_or_null (optional_str o) ≡ some o
unfolding text_or_null
text_back none = refl
text_back (some s) = refl

positive_back : (n : ℕ) → 1 ≤ n → positive (plain_int (int (pos n))) ≡ some n
unfolding positive plain_int
positive_back zero h = absurd (omega arith)
positive_back (suc n) h = refl

-- A persisted session comes back as it was, up to its sequence, which is not persisted, if its
-- family and its ID are texts of 1 to 256 characters and its generation is at least 1.
pub deserialize_session-serialize_session :
    (s : FamilySession)
    → is_bounded_str 256 (str s.family) ≡ true
    → is_bounded_str 256 (str s.session_id) ≡ true
    → 1 ≤ s.generation
    → deserialize_session (dict (serialize_session s)) ≡ some (record s { sequence = 0 })
unfolding deserialize_session serialize_session session_of_fields get_or get? string_discrete
    parse_bool
deserialize_session-serialize_session s f i g =
    rw
      (
        bounded 256 s.family f,
        bounded 256 s.session_id i,
        positive_back s.generation g,
        text_back s.suppression_reason,
      )
      refl

abbrev is_provenance : Option String → Bool
is_provenance none = true
is_provenance (some s) = is_bounded_str 256 (str s)

provenance_back :
    (o : Option String) → is_provenance o ≡ true → provenance (optional_str o) ≡ some o
unfolding provenance
provenance_back none h = refl
provenance_back (some s) h = rw h refl

kind_back : (k : LayerKind) → parse_kind (str (kind_value k)) ≡ some k
unfolding parse_kind kind_value string_discrete
kind_back automatic = refl
kind_back manual = refl
kind_back manual_off = refl
kind_back functional = refl
kind_back overlay = refl

length-components :
    (integral : Bool) (bounds : List (ℕ × ℕ)) (l : Items)
    → components_valid integral bounds l ≡ true
    → item_count l ≡ length bounds
unfolding components_valid
length-components integral [] nil h = refl
length-components integral [] (cons v l) h = ground arith
length-components integral (b ∷ bs) nil h = ground arith
length-components integral (b ∷ bs) (cons v l) h = ground (arith, length-components integral bs l)

color_back :
    (integral : Bool) (bounds : List (ℕ × ℕ)) (v : Value)
    → color_valid integral bounds v ≡ true
    → normalize_color (length bounds) v ≡ some v
unfolding color_valid normalize_color
color_back integral bounds null h = refl
color_back integral bounds (tuple l) h = ground (arith, length-components integral bounds l)
color_back integral bounds v h = ground arith

fourth_to_sixth :
    (t b k x r h m : Bool)
    → (t && (b && (k && (x && (r && (h && m)))))) ≡ true
    → (x ≡ true) × (r ≡ true) × (h ≡ true)
fourth_to_sixth t b k x r h m e = ground arith

valid_colors :
    (a : Appearance)
    → is_valid a ≡ true
    → (color_valid false ((0, 1) ∷ (0, 1) ∷ []) a.xy_color ≡ true)
      × (color_valid true ((0, 255) ∷ (0, 255) ∷ (0, 255) ∷ []) a.rgb_color ≡ true)
      × (color_valid false ((0, 360) ∷ (0, 100) ∷ []) a.hs_color ≡ true)
unfolding is_valid
valid_colors a h =
    fourth_to_sixth (type_is_bool a.on) (is_null a.brightness || is_brightness a.brightness)
      (is_null a.color_temp_kelvin || is_kelvin a.color_temp_kelvin)
      (color_valid false ((0, 1) ∷ (0, 1) ∷ []) a.xy_color)
      (color_valid true ((0, 255) ∷ (0, 255) ∷ (0, 255) ∷ []) a.rgb_color)
      (color_valid false ((0, 360) ∷ (0, 100) ∷ []) a.hs_color)
      (is_mode a.color_mode
        && (mode_backed a
            && all (λ v. is_null v || is_bounded_str 256 v)
                (a.effect ∷ a.scene_id ∷ a.color_mode ∷ a.scene_evidence ∷ [])))
      h

deserialize-appearance_fields :
    (a : Appearance) → is_valid a ≡ true → deserialize_appearance (appearance_fields a) ≡ some a
unfolding deserialize_appearance appearance_fields get_or get? string_discrete keywords_known
deserialize-appearance_fields a h =
    let (xy, rgb, hs) = valid_colors a h in
    rw (color_back _ _ a.xy_color xy, color_back _ _ a.rgb_color rgb, color_back _ _ a.hs_color hs)
      refl

abbrev is_presentable : Option Appearance → Bool
is_presentable none = true
is_presentable (some a) = is_valid a

appearance_back :
    (o : Option Appearance)
    → is_presentable o ≡ true
    → parse_appearance (optional_appearance o) ≡ some o
unfolding parse_appearance
appearance_back none h = refl
appearance_back (some a) h = rw (deserialize-appearance_fields a h) refl

-- What the store can hold of a layer: bounded texts, a generation, a valid appearance.
pub record IsStorable (layer : OwnershipLayer) : Type 0 where
  pub id : is_bounded_str 1024 (str layer.layer_id) ≡ true
  pub owner : is_bounded_str 256 (str layer.owner) ≡ true
  pub generation : 1 ≤ layer.generation
  pub appearance : is_presentable layer.appearance ≡ true
  pub operation : is_provenance layer.operation_id ≡ true
  pub group : is_provenance layer.group_id ≡ true
  pub parent : is_provenance layer.parent_layer_id ≡ true

-- What of a layer is not persisted.
abbrev pub stripped : OwnershipLayer → OwnershipLayer
stripped layer = record layer {
  metadata = end;
  system_priority = none;
  protects_from_manual = false;
  removable = false;
  session_sequence = none;
}

-- A persisted layer comes back as it was, up to what is not persisted (its metadata, its system
-- priority, its two flags and the sequence of its session), if its texts are within their bounds,
-- its generation is at least 1 and its appearance, if any, is valid.
pub deserialize_layer-serialize_layer :
    (layer : OwnershipLayer)
    → IsStorable layer
    → deserialize_layer (dict (serialize_layer layer)) ≡ some (stripped layer)
unfolding deserialize_layer serialize_layer layer_of_fields get_or get? string_discrete plain_int
deserialize_layer-serialize_layer layer h =
    rw
      (
        bounded 1024 layer.layer_id h.id,
        bounded 256 layer.owner h.owner,
        positive_back layer.generation h.generation,
        appearance_back layer.appearance h.appearance,
        text_back layer.family,
        text_back layer.session_id,
        text_back layer.expires_at_boundary,
        provenance_back layer.operation_id h.operation,
        provenance_back layer.group_id h.group,
        provenance_back layer.parent_layer_id h.parent,
        kind_back layer.kind,
      )
      refl
