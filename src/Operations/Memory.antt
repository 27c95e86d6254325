-- ===== src/Operations/Memory.antt =====
-- The memory of operations: bounded windows, and sequences that never fall.
use home_lighting_manager.Common.{
  ℕ, zero, suc, ◌-◌, ◌≤◌, ◌<◌, String, Bool, true, not, ◌||◌, List, [], ◌∷◌, ◌++◌, ◌≡◌, refl, arith,
  length, drop, filter, contains, any, max, nat_eq, string_eq, ◌==◌, if◌then◌else◌, length-append,
  length-drop,
}
use home_lighting_manager.Common.Dict.{Dict, insert, keys, lookup-insert}
use home_lighting_manager.Engine.Groups.{append_bounded}
use home_lighting_manager.Operations.Record.{latest_of, tracked_count}
use home_lighting_manager.Operations.Transaction.{record_sequences}

module _ {A : Type 0} where
  pub length-append_bounded : (n : ℕ) (a : A) (l : List A) → length (append_bounded n a l) ≤ n
  length-append_bounded n a l = omega (arith, length-drop (length (l ++ a ∷ []) - n) (l ++ a ∷ []))

  any-drop :
      (p : A → Bool) (a : A) (k : ℕ) (l : List A)
      → k ≤ length l
      → p a ≡ true
      → any p (drop k (l ++ a ∷ [])) ≡ true
  any-drop p a zero [] h t = ground arith
  any-drop p a zero (x ∷ l) h t = ground (arith, any-drop p a zero l)
  any-drop p a (suc k) [] h t = absurd (omega arith)
  any-drop p a (suc k) (x ∷ l) h t = any-drop p a k l (omega arith) t

  -- The newest entry of a bounded window is in it.
  pub any-append_bounded :
      (p : A → Bool) (n : ℕ) (a : A) (l : List A)
      → 0 < n
      → p a ≡ true
      → any p (append_bounded n a l) ≡ true
  any-append_bounded p n a l h t =
      any-drop p a (length (l ++ a ∷ []) - n) l (omega (arith, length-append l (a ∷ []))) t

module _ (n : ℕ) where
  latest-insert :
      (id j : String) (m : ℕ) (latest : Dict String ℕ)
      → latest_of (insert id m latest) j ≡ (if j == id then m else latest_of latest j)
  latest-insert id j m latest = ground (arith, lookup-insert id j m latest)

  -- No recorded sequence falls.
  pub record_sequences_mono :
      (ids : List String) (latest : Dict String ℕ) (j : String)
      → latest_of latest j ≤ latest_of (record_sequences ids n latest) j
  unfolding record_sequences
  record_sequences_mono [] latest j = omega arith
  record_sequences_mono (id ∷ ids) latest j =
      let m = max n (latest_of latest id) in
      ground (arith, latest-insert id j m latest, record_sequences_mono ids (insert id m latest) j)

  -- Every listed entity is recorded at least at the sequence.
  pub record_sequences-reach :
      (ids : List String) (latest : Dict String ℕ) (j : String)
      → contains j ids ≡ true
      → n ≤ latest_of (record_sequences ids n latest) j
  unfolding record_sequences
  record_sequences-reach [] latest j h = absurd (cc)
  record_sequences-reach (id ∷ ids) latest j h =
      let m = max n (latest_of latest id) in
      ground (
        arith,
        latest-insert id j m latest,
        record_sequences_mono ids (insert id m latest) j,
        record_sequences-reach ids (insert id m latest) j,
      )

  -- the number of tracked entities grows by the new ones at most
  contains-keys-insert :
      (id j : String) (m : ℕ) (latest : Dict String ℕ)
      → contains j (keys (insert id m latest)) ≡ (j == id || contains j (keys latest))
  unfolding insert
  contains-keys-insert id j m [] = refl
  contains-keys-insert id j m ((k, v) ∷ latest) = ground (arith, contains-keys-insert id j m latest)

  length-insert :
      (id : String) (m : ℕ) (latest : Dict String ℕ)
      → length (insert id m latest)
        ≡ (if contains id (keys latest) then length latest else suc (length latest))
  unfolding insert
  length-insert id m [] = refl
  length-insert id m ((k, v) ∷ latest) = ground (arith, length-insert id m latest)

  untracked-insert :
      (id : String) (ids : List String) (m : ℕ) (latest : Dict String ℕ)
      → length (filter (λ j. not (contains j (keys (insert id m latest)))) ids)
        ≤ length (filter (λ j. not (contains j (keys latest))) ids)
  untracked-insert id [] m latest = omega arith
  untracked-insert id (j ∷ ids) m latest =
      ground (arith, contains-keys-insert id j m latest, untracked-insert id ids m latest)

  -- What is tracked after an operation was counted by its check of the capacity.
  pub length-record_sequences-le :
      (ids : List String) (latest : Dict String ℕ)
      → length (record_sequences ids n latest) ≤ tracked_count latest ids
  unfolding record_sequences tracked_count
  length-record_sequences-le [] latest = omega arith
  length-record_sequences-le (id ∷ ids) latest =
      let m = max n (latest_of latest id) in
      ground (
        arith,
        length-record_sequences-le ids (insert id m latest),
        length-insert id m latest,
        untracked-insert id ids m latest,
      )
