-- ===== src/Observer/Membership/Confirmed.antt =====
-- When an entity leaves a surface.
use home_lighting_manager.Common.{
  ℕ, ◌-◌, ◌≤◌, String, true, false, Option, none, some, List, [], ◌∷◌, ◌==◌, string_eq,
  string_discrete, nat_eq, leb, contains, length, ◌≡◌, refl, sym, arith, ◌⊎◌, inl, inr, Bool-cases,
  Option-cases, ◌∙◌,
}
use mathlib.Core.Path.{subst}
use home_lighting_manager.Common.Dict.{Dict, lookup, insert, erase, lookup-insert, lookup-erase}
use home_lighting_manager.Common.Text.{subset}
use home_lighting_manager.Observer.Membership.{
  removal_confirm, Configuration, Review, same_list, adopt, await_removal, review_known, raw_of,
  observed_members, review_surface, review_surfaces,
}

pub same_list-eq : (l m : List String) → same_list l m ≡ true → l ≡ m
unfolding same_list
same_list-eq [] [] h = refl
same_list-eq (a ∷ l) (b ∷ m) h = ground (arith, same_list-eq l m)
same_list-eq [] (b ∷ m) h = cc
same_list-eq (a ∷ l) [] h = cc

pub contains-subset :
    (e : String) (l m : List String) → subset l m ≡ true → contains e l ≡ true → contains e m ≡ true
contains-subset e [] m s h = cc
contains-subset e (x ∷ l) m s h = ground (arith, contains-subset e l m)

-- The members of a group, and the removal that it awaits.
abbrev pub members_of : String → Review → List String
members_of group r = raw_of (lookup group r.members)

-- A membership without the entity was noted at least five seconds ago.
abbrev pub IsConfirmed : String → ℕ → Option (List String × ℕ) → Type 0
IsConfirmed e now awaited =
    (l : List String) × (since : ℕ) × (awaited ≡ some (l, since))
    × (contains e l ≡ false)
    × (removal_confirm ≤ now - since)

module _ (group e : String) (now : ℕ) (before : Option (List String × ℕ)) where
  -- What is awaited is what was awaited before, or was noted just now.
  abbrev IsAwaited : Option (List String × ℕ) → Type 0
  IsAwaited o = (o ≡ before) ⊎ (o ≡ none) ⊎ ((l : List String) × (o ≡ some (l, now)))

  record IsRetained (r : Review) : Type 0 where
    member : contains e (members_of group r) ≡ true
    awaited : IsAwaited (lookup group r.pending)

  abbrev Progress : Review → Type 0
  Progress r = IsRetained r ⊎ IsConfirmed e now before

  erase-IsAwaited :
      (g : String) (d : Dict String (List String × ℕ))
      → IsAwaited (lookup group d)
      → IsAwaited (lookup group (erase g d))
  erase-IsAwaited g d h = elim (Bool-cases (group == g)) [
    | inl same ↦ inr (inl (lookup-erase g group d ∙ rw same refl))
    | inr other ↦ subst IsAwaited (sym (lookup-erase g group d ∙ rw other refl)) h
  ]

  insert-IsAwaited :
      (g : String) (l : List String) (d : Dict String (List String × ℕ))
      → IsAwaited (lookup group d)
      → IsAwaited (lookup group (insert g (l, now) d))
  insert-IsAwaited g l d h = elim (Bool-cases (group == g)) [
    | inl same ↦ inr (inr (l, lookup-insert g group (l, now) d ∙ rw same refl))
    | inr other ↦ subst IsAwaited (sym (lookup-insert g group (l, now) d ∙ rw other refl)) h
  ]

  adopt-IsRetained :
      (g : String) (observed : List String) (r : Review)
      → IsRetained r
      → (group ≡ g → contains e observed ≡ true)
      → IsRetained (adopt g observed r)
  unfolding adopt
  adopt-IsRetained g observed r h m = record {
    member = ground (arith, lookup-insert g group observed r.members, h.member, m);
    awaited = erase-IsAwaited g r.pending h.awaited;
  }

  -- What is awaited for long enough was awaited before.
  confirmed :
      (observed : List String) (o : Option (List String × ℕ)) (since : ℕ)
      → IsAwaited o
      → o ≡ some (observed, since)
      → removal_confirm ≤ now - since
      → contains e observed ≡ false
      → IsConfirmed e now before
  confirmed observed o since (inl same) e' old m = (observed, since, sym same ∙ e', m, old)
  confirmed observed o since (inr (inl gone)) e' old m = absurd (cc)
  confirmed observed o since (inr (inr (l, fresh))) e' old m = absurd (ground arith)

  adopt-Progress :
      (g : String) (observed : List String) (r : Review)
      → IsRetained r
      → (contains e observed ≡ false → group ≡ g → IsConfirmed e now before)
      → Progress (adopt g observed r)
  adopt-Progress g observed r h late = elim (Bool-cases (contains e observed)) [
    | inl stays ↦ inl (adopt-IsRetained g observed r h (λ _. stays))
    | inr leaves ↦ elim (string_discrete group g) [
      | yes here ↦ inr (late leaves here)
      | no there ↦ inl (adopt-IsRetained g observed r h (λ here. absurd (there here)))
    ]
  ]

  await_removal-Progress :
      (g : String) (observed : List String) (o : Option (List String × ℕ)) (r : Review)
      → o ≡ lookup g r.pending
      → IsRetained r
      → Progress (await_removal g observed now o r)
  unfolding await_removal
  await_removal-Progress g observed none r e' h =
      inl (record { member = h.member; awaited = insert-IsAwaited g observed r.pending h.awaited })
  await_removal-Progress g observed (some (l, since)) r e' h =
      elim (Bool-cases (same_list l observed)) [
        | inr other ↦ rw other (
            inl (record {
              member = h.member;
              awaited = insert-IsAwaited g observed r.pending h.awaited;
            }))
        | inl same ↦ rw same elim (Bool-cases (leb removal_confirm (now - since))) [
          | inr young ↦ rw young (inl (record { member = h.member; awaited = h.awaited }))
          | inl old ↦ rw old (
              adopt-Progress g observed r h λ m here.
                confirmed observed (lookup group r.pending) since h.awaited
                  (ground (arith, e', here, same_list-eq l observed same)) (ground (arith, old)) m)
        ]
      ]

  review_known-Progress :
      (g : String) (observed current : List String) (r : Review)
      → lookup g r.members ≡ some current
      → IsRetained r
      → Progress (review_known g observed now current r)
  unfolding review_known
  review_known-Progress g observed current r known h =
      elim (Bool-cases (same_list observed current)) [
        | inl same ↦
            rw same
              (inl (record { member = h.member; awaited = erase-IsAwaited g r.pending h.awaited }))
        | inr other ↦ rw other elim (Bool-cases (subset current observed)) [
          | inl more ↦ rw more (
              adopt-Progress g observed r h λ m here.
                absurd (
                  ground
                    (arith, h.member, known, here, contains-subset e current observed more, m)))
          | inr less ↦ rw less (await_removal-Progress g observed (lookup g r.pending) r refl h)
        ]
      ]

  review_surface-Progress :
      (c : Configuration) (cache : Dict String (List String)) (s : String × String) (r : Review)
      → IsRetained r
      → Progress (review_surface c cache now s r)
  unfolding review_surface
  review_surface-Progress c cache (surface, g) r h =
      let observed = observed_members c cache surface g in
      elim (Bool-cases (length observed == 0)) [
        | inl empty ↦ rw empty (inl h)
        | inr some' ↦ rw some' elim (Option-cases (lookup g r.members)) [
          | inl none' ↦ rw none' (
              adopt-Progress g observed r h
                λ m here. absurd (ground (arith, h.member, here, none')))
          | inr (current, known) ↦ rw known (review_known-Progress g observed current r known h)
        ]
      ]

  review_surfaces-Progress :
      (c : Configuration) (cache : Dict String (List String)) (l : Dict String String) (r : Review)
      → Progress r
      → Progress (review_surfaces c cache now l r)
  unfolding review_surfaces
  review_surfaces-Progress c cache [] r h = h
  review_surfaces-Progress c cache (s ∷ l) r (inl h) =
      review_surfaces-Progress c cache l (review_surface c cache now s r)
        (review_surface-Progress c cache s r h)
  review_surfaces-Progress c cache (s ∷ l) r (inr h) =
      review_surfaces-Progress c cache l (review_surface c cache now s r) (inr h)

-- A member of a group stays one, or a membership without it was awaited for long enough.
pub review_surfaces-outcome :
    (c : Configuration) (cache : Dict String (List String)) (now : ℕ) (l : Dict String String)
    (r : Review) (group e : String)
    → contains e (members_of group r) ≡ true
    → (contains e (members_of group (review_surfaces c cache now l r)) ≡ true)
      ⊎ IsConfirmed e now (lookup group r.pending)
review_surfaces-outcome c cache now l r group e h = outcome (
    review_surfaces-Progress group e now (lookup group r.pending) c cache l r
      (inl (record { member = h; awaited = inl refl })))
  where
    outcome :
        Progress group e now (lookup group r.pending) (review_surfaces c cache now l r)
        → (contains e (members_of group (review_surfaces c cache now l r)) ≡ true)
          ⊎ IsConfirmed e now (lookup group r.pending)
    outcome (inl kept) = inl kept.member
    outcome (inr done) = inr done
