-- ===== src/Observer/Restart/Boundary.antt =====
-- When a restart crosses 01:59, and which Manual ownership survives it.
use home_lighting_manager.Common.{
  ℕ, ◌+◌, ◌-◌, ◌*◌, ◌/◌, ◌≤◌, ◌<◌, true, false, some, ltb, ◌≡◌, refl, ◌↔◌, arith, Bool-cases,
  Option-cases, inl, inr, ap,
}
use home_lighting_manager.Observer.Restart.{
  max_downtime, day, boundary_time, latest_boundary, crossed_nightly_boundary,
  manual_ownership_survives_restart,
}

-- 01:59 of a day
abbrev pub boundary_of : ℕ → ℕ
boundary_of k = k * day + boundary_time

-- There is a 01:59 after an instant and not after a wall time.
abbrev pub Crosses : (ℕ → ℕ) → ℕ → ℕ → Type 0
Crosses instant start end' = (k : ℕ) × (start < instant (boundary_of k)) × (boundary_of k ≤ end')

ltb-false : (a b : ℕ) → b ≤ a → ltb a b ≡ false
ltb-false a b h = ground arith

lt-of_ltb : (a b : ℕ) → ltb a b ≡ true → a < b
lt-of_ltb a b h = ground arith

le-of_ltb : (a b : ℕ) → ltb a b ≡ false → b ≤ a
le-of_ltb a b h = ground arith

latest_boundary-of :
    (wall k : ℕ)
    → boundary_of k ≤ wall
    → (m : ℕ) × (latest_boundary wall ≡ some (boundary_of m))
      × (boundary_of k ≤ boundary_of m)
      × (boundary_of m ≤ wall)
unfolding latest_boundary
latest_boundary-of wall k h = elim (Bool-cases (ltb wall (wall / day * day + boundary_time))) [
  | inr past ↦
      let reached = le-of_ltb wall _ past in (wall / day, rw past refl, omega arith, reached)
  | inl ahead ↦
      let early = lt-of_ltb wall _ ahead in
      let later : day ≤ wall / day * day + boundary_time = omega arith in
      (
        wall / day - 1,
        rw (ahead, ltb-false _ day later) (ap some (omega arith)),
        omega arith,
        omega arith,
      )
]

latest_boundary-is : (wall b : ℕ) → latest_boundary wall ≡ some b → (k : ℕ) × (b ≡ boundary_of k)
unfolding latest_boundary
latest_boundary-is wall b h = elim (Bool-cases (ltb wall (wall / day * day + boundary_time))) [
  | inr past ↦ (wall / day, ground (arith, past))
  | inl ahead ↦ elim (Bool-cases (ltb (wall / day * day + boundary_time) day)) [
    | inl first ↦ absurd (ground (arith, ahead, first))
    | inr later ↦ (wall / day - 1, ground (arith, ahead, later))
  ]
]

-- From a 01:59 on, later wall times are later instants.
abbrev pub IsOrdered : (ℕ → ℕ) → Type 0
IsOrdered instant = (k w : ℕ) → boundary_of k ≤ w → instant (boundary_of k) ≤ instant w

module _ (instant : ℕ → ℕ) (start end' : ℕ) where
  Crosses-of : crossed_nightly_boundary instant start end' ≡ true → Crosses instant start end'
  unfolding crossed_nightly_boundary
  Crosses-of h = elim (Option-cases (latest_boundary end')) [
    | inl none' ↦ absurd (ground (arith, h, none'))
    | inr (b, found) ↦
        let (k, is) = latest_boundary-is end' b found in
        (k, ground (arith, h, found, is), ground (arith, h, found, is))
  ]

  crossed_by :
      IsOrdered instant
      → Crosses instant start end'
      → crossed_nightly_boundary instant start end' ≡ true
  unfolding crossed_nightly_boundary
  crossed_by ordered (k, after, reached) =
      let (m, found, later, before) = latest_boundary-of end' k reached in
      let first = ordered k (boundary_of m) later in
      let second = ordered m end' before in rw found (ground arith)

  pub crossed_nightly_boundary_iff :
      IsOrdered instant
      → (crossed_nightly_boundary instant start end' ≡ true) ↔ Crosses instant start end'
  crossed_nightly_boundary_iff ordered = (Crosses-of, crossed_by ordered)

  -- Manual ownership that was saved at an instant survives until a wall time exactly when the instant is not
  -- later, less than an hour has passed, and there is no 01:59 after the instant that is not after the wall time,
  -- provided that the zone orders wall times from a 01:59 on.
  pub manual_ownership_survives_restart_iff :
      IsOrdered instant
      → (manual_ownership_survives_restart instant start end' ≡ true)
        ↔ (start ≤ instant end')
          × (instant end' - start < max_downtime)
          × ¬ (Crosses instant start end')
  unfolding manual_ownership_survives_restart
  manual_ownership_survives_restart_iff ordered =
      let crossed = crossed_nightly_boundary_iff ordered in
      elim (Bool-cases (crossed_nightly_boundary instant start end')) [
        | inl yes' ↦ (λ h. absurd (ground arith), λ h. absurd (h.2 (crossed.0 yes')))
        | inr no' ↦ (λ h. (ground arith, ground arith, λ c. cc (crossed.1 c)), λ h. ground arith)
      ]
