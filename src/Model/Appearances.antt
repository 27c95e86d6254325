-- ===== src/Model/Appearances.antt =====
-- `Appearance` and its validation.
use home_lighting_manager.Common.{
  ℕ, String, Bool, true, false, not, ◌&&◌, ◌||◌, Option, none, some, List, [], ◌∷◌, ◌==◌, string_eq,
  contains, all,
}
use home_lighting_manager.Common.Int.{pos, leb_ℤ, ltb_ℤ}
use home_lighting_manager.Model.Values.{
  Value, Items, null, bool, int, float, str, tuple, nil, cons, is_null, value_eq, float_between,
  is_bounded_str,
}

pub record Appearance : Type 0 where
  pub on : Value
  pub brightness : Value
  pub color_temp_kelvin : Value
  pub xy_color : Value
  pub rgb_color : Value
  pub hs_color : Value
  pub effect : Value
  pub scene_id : Value
  pub color_mode : Value
  pub scene_evidence : Value

-- `Appearance(on=...)`, every other field at its default
unfoldable pub appearance_of : Bool → Appearance
appearance_of on = record {
  on = bool on;
  brightness = null;
  color_temp_kelvin = null;
  xy_color = null;
  rgb_color = null;
  hs_color = null;
  effect = null;
  scene_id = null;
  color_mode = null;
  scene_evidence = null;
}

-- `v is b`
abbrev pub is_bool : Bool → Value → Bool
is_bool true (bool b) = b
is_bool false (bool b) = not b
is_bool _ _ = false

abbrev pub optional_eq : {A : Type 0} → (A → A → Bool) → Option A → Option A → Bool
optional_eq f none none = true
optional_eq f (some a) (some b) = f a b
optional_eq f _ _ = false

unfoldable pub appearance_eq : Appearance → Appearance → Bool
unfolding value_eq
appearance_eq a b =
    value_eq a.on b.on
    && (value_eq a.brightness b.brightness
        && (value_eq a.color_temp_kelvin b.color_temp_kelvin
            && (value_eq a.xy_color b.xy_color
                && (value_eq a.rgb_color b.rgb_color
                    && (value_eq a.hs_color b.hs_color
                        && (value_eq a.effect b.effect
                            && (value_eq a.scene_id b.scene_id
                                && (value_eq a.color_mode b.color_mode
                                    && value_eq a.scene_evidence b.scene_evidence))))))))

-- `type(v) is bool`
unfoldable pub type_is_bool : Value → Bool
type_is_bool (bool _) = true
type_is_bool _ = false

-- `type(v) is int and 0 <= v <= 255`
unfoldable pub is_brightness : Value → Bool
is_brightness (int n) = leb_ℤ (pos 0) n && leb_ℤ n (pos 255)
is_brightness _ = false

-- `type(v) is int and v > 0`
unfoldable pub is_kelvin : Value → Bool
is_kelvin (int n) = ltb_ℤ (pos 0) n
is_kelvin _ = false

-- One component: an int within the bounds or, where floats are allowed, a finite float.
unfoldable pub component_valid : Bool → ℕ → ℕ → Value → Bool
unfolding float_between
component_valid integral low high (int n) = leb_ℤ (pos low) n && leb_ℤ n (pos high)
component_valid integral low high (float f) = not integral && float_between low high f
component_valid integral low high _ = false

unfoldable pub components_valid : Bool → List (ℕ × ℕ) → Items → Bool
unfolding component_valid
components_valid integral [] nil = true
components_valid integral [] (cons _ _) = false
components_valid integral (_ ∷ _) nil = false
components_valid integral ((low, high) ∷ bounds) (cons v l) =
    component_valid integral low high v && components_valid integral bounds l

-- One turn of the loop over the three color models: absent, or a tuple of the right components.
unfoldable pub color_valid : Bool → List (ℕ × ℕ) → Value → Bool
unfolding components_valid
color_valid integral bounds null = true
color_valid integral bounds (tuple l) = components_valid integral bounds l
color_valid integral bounds _ = false

unfoldable pub is_mode : Value → Bool
is_mode null = true
is_mode (str s) = contains s ("onoff" ∷ "brightness" ∷ "xy" ∷ "rgb" ∷ "hs" ∷ "color_temp" ∷ [])
is_mode _ = false

-- `v == "..."`
unfoldable pub mode_is : String → Value → Bool
mode_is s (str t) = t == s
mode_is s _ = false

-- The mode names a native color that is there.
unfoldable pub mode_backed : Appearance → Bool
unfolding mode_is
mode_backed a =
    not (mode_is "brightness" a.color_mode && is_null a.brightness)
    && (not (mode_is "xy" a.color_mode && is_null a.xy_color)
        && (not (mode_is "rgb" a.color_mode && is_null a.rgb_color)
            && (not (mode_is "hs" a.color_mode && is_null a.hs_color)
                && not (mode_is "color_temp" a.color_mode && is_null a.color_temp_kelvin))))

-- `Appearance.is_valid`
unfoldable pub is_valid : Appearance → Bool
unfolding type_is_bool is_brightness is_kelvin color_valid is_mode mode_backed is_bounded_str
is_valid a =
    type_is_bool a.on
    && ((is_null a.brightness || is_brightness a.brightness)
        && ((is_null a.color_temp_kelvin || is_kelvin a.color_temp_kelvin)
            && (color_valid false ((0, 1) ∷ (0, 1) ∷ []) a.xy_color
                && (color_valid true ((0, 255) ∷ (0, 255) ∷ (0, 255) ∷ []) a.rgb_color
                    && (color_valid false ((0, 360) ∷ (0, 100) ∷ []) a.hs_color
                        && (is_mode a.color_mode
                            && (mode_backed a
                                && all (λ v. is_null v || is_bounded_str 256 v)
                                    (a.effect ∷ a.scene_id ∷ a.color_mode ∷ a.scene_evidence
                                      ∷ []))))))))
