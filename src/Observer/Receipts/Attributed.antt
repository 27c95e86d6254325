-- ===== src/Observer/Receipts/Attributed.antt =====
-- Which receipt a report is attributed to.
use home_lighting_manager.Common.{
  ℕ, ◌-◌, ◌≤◌, String, Bool, true, false, Option, none, some, List, [], ◌∷◌, if◌then◌else◌, ◌==◌,
  string_eq, nat_eq, filter, length, length-filter-le, take_last, any, ◌≡◌, refl, sym, ◌∙◌, arith,
  Option-cases, inl, inr,
}
use native.Mathlib.Decide.{ℕ_discrete}
use home_lighting_manager.Common.Dict.{lookup}
use home_lighting_manager.Observer.Receipts.{
  Receipt, Receipts, max_receipts, receipts_of, is_live, latest_guard, prune_receipts,
  active_guard_for_ha_consequence,
}

take_last-all : {A : Type 0} (n : ℕ) (l : List A) → length l ≤ n → take_last n l ≡ l
take_last-all n l h = rw (none_left (length l) n h) refl
  where
    none_left : (a b : ℕ) → a ≤ b → a - b ≡ 0
    none_left a b k = omega arith

abbrev pub matches : String → Receipt → Bool
matches operation r = r.operation == operation

-- The guard is that of a receipt for the operation with no later one.
pub data Latest (operation guard : String) : List Receipt → Type 0 where
  here :
      {r : Receipt} {l : List Receipt}
      → r.guard ≡ guard
      → matches operation r ≡ true
      → any (matches operation) l ≡ false
      → Latest operation guard (r ∷ l)
  later :
      {r : Receipt} {l : List Receipt} → Latest operation guard l → Latest operation guard (r ∷ l)

latest_guard-none :
    (operation : String) (l : List Receipt)
    → latest_guard operation l ≡ none
    → any (matches operation) l ≡ false
unfolding latest_guard
latest_guard-none operation [] h = refl
latest_guard-none operation (r ∷ l) h = ground (arith, latest_guard-none operation l)

latest_guard-Latest :
    (operation guard : String) (l : List Receipt)
    → latest_guard operation l ≡ some guard
    → Latest operation guard l
unfolding latest_guard
latest_guard-Latest operation guard [] h = absurd (cc h)
latest_guard-Latest operation guard (r ∷ l) h = elim (Option-cases (latest_guard operation l)) [
  | inr (g, found) ↦ later (latest_guard-Latest operation guard l (ground (arith, found, h)))
  | inl gone ↦
      here (ground (arith, gone, h)) (ground (arith, gone, h)) (latest_guard-none operation l gone)
]

module _ (entity operation : String) (now : ℕ) (on : String → Bool) (receipts : Receipts) where
  abbrev stored : List Receipt
  stored = receipts_of (lookup entity receipts)

  abbrev answer : List Receipt → Option String × Receipts
  answer l =
      let valid = take_last max_receipts (filter (is_live now on) l) in
      if length l == 0
      then (none, receipts)
      else (latest_guard operation valid, prune_receipts entity valid receipts)

  active_lem :
      length stored ≤ max_receipts
      → (active_guard_for_ha_consequence entity operation now on receipts).0
        ≡ latest_guard operation (filter (is_live now on) stored)
  unfolding active_guard_for_ha_consequence latest_guard ℕ_discrete
  active_lem h = by_stored stored h
    where
      by_stored :
          (l : List Receipt)
          → length l ≤ max_receipts
          → (answer l).0 ≡ latest_guard operation (filter (is_live now on) l)
      by_stored [] k = refl
      by_stored (r ∷ l) k =
          let kept = length-filter-le (is_live now on) (r ∷ l) in
          ground (arith, take_last-all max_receipts (filter (is_live now on) (r ∷ l)), kept)

  -- A report of an entity, for which at most sixteen receipts are kept, is attributed to a guard exactly as
  -- its live receipts say: those that are at most eight seconds old, not from the future, and whose guard is on.
  -- Where a guard is given, it is that of the latest live receipt for the report's operation; where none is
  -- given, there is no live receipt for the operation.
  pub active_guard-Latest :
      length stored ≤ max_receipts
      → ((guard : String)
          → (active_guard_for_ha_consequence entity operation now on receipts).0 ≡ some guard
          → Latest operation guard (filter (is_live now on) stored))
        × ((active_guard_for_ha_consequence entity operation now on receipts).0 ≡ none
            → any (matches operation) (filter (is_live now on) stored) ≡ false)
  active_guard-Latest h = (
    λ guard e.
        latest_guard-Latest operation guard (filter (is_live now on) stored)
          (sym (active_lem h) ∙ e),
    λ e. latest_guard-none operation (filter (is_live now on) stored) (sym (active_lem h) ∙ e),
  )
