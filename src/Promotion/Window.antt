-- ===== src/Promotion/Window.antt =====
-- How long a leaf is retained after `_prune_pending_external_leaves`.
use home_lighting_manager.Common.{
  ℕ, ◌-◌, ◌≤◌, String, Bool, true, not, none, some, List, [], ◌∷◌, ◌≡◌, refl, arith, if◌then◌else◌,
  ◌==◌, string_eq, contains, filter, Bool-cases, inl, inr,
}
use home_lighting_manager.Common.Dict.{Dict, lookup, erase, keys, lookup-erase}
use home_lighting_manager.Shadow.Runtime.{ShadowRuntime}
use home_lighting_manager.Promotion.{PendingLeaf, Promotion, burst_window, group_off_window}
use home_lighting_manager.Promotion.Pending.{
  drop_pending, cancel_singles, prune_pending, is_fresh, surface_group_off_hold,
}

abbrev pub runtime_of : Promotion → ShadowRuntime
runtime_of p = p.session.observer.runtime

pub drop_pending-runtime :
    (l : List String) (p : Promotion) → runtime_of (drop_pending l p) ≡ runtime_of p
unfolding drop_pending
drop_pending-runtime [] p = refl
drop_pending-runtime (e ∷ l) p = drop_pending-runtime l (record p { pending = erase e p.pending })

drop_pending-gone :
    (e : String) (l : List String) (p : Promotion)
    → lookup e p.pending ≡ none
    → lookup e (drop_pending l p).pending ≡ none
unfolding drop_pending
drop_pending-gone e [] p h = h
drop_pending-gone e (x ∷ l) p h =
    drop_pending-gone e l _ (ground (arith, lookup-erase x e p.pending, h))

pub drop_pending-lookup :
    (e : String) (l : List String) (p : Promotion)
    → contains e l ≡ true
    → lookup e (drop_pending l p).pending ≡ none
unfolding drop_pending
drop_pending-lookup e [] p h = absurd (cc h)
drop_pending-lookup e (x ∷ l) p h = elim (Bool-cases (e == x)) [
  | inl here ↦ drop_pending-gone e l _ (ground (arith, lookup-erase x e p.pending, here))
  | inr there ↦ drop_pending-lookup e l _ (ground (arith, h, there))
]

drop_pending-kept :
    (e : String) (i : PendingLeaf) (l : List String) (p : Promotion)
    → lookup e (drop_pending l p).pending ≡ some i
    → lookup e p.pending ≡ some i
unfolding drop_pending
drop_pending-kept e i [] p h = h
drop_pending-kept e i (x ∷ l) p h =
    ground (arith, lookup-erase x e p.pending, drop_pending-kept e i l _ h)

contains-keys :
    (f : String × PendingLeaf → Bool) (e : String) (i : PendingLeaf) (d : Dict String PendingLeaf)
    → lookup e d ≡ some i
    → f (e, i) ≡ true
    → contains e (keys (filter f d)) ≡ true
unfolding lookup
contains-keys f e i [] h t = absurd (cc h)
contains-keys f e i ((k, v) ∷ d) h t = ground (arith, h, t, contains-keys f e i d)

hold-le :
    (p : Promotion) (e operation : String)
    → surface_group_off_hold p e operation
      ≤ (if operation == "off" then group_off_window else burst_window)
unfolding surface_group_off_hold
hold-le p e operation = ground arith

is_fresh-le :
    (p : Promotion) (now : ℕ) (e : String) (i : PendingLeaf)
    → is_fresh p now e i ≡ true
    → (i.observed_at ≤ now)
      × (now - i.observed_at ≤ surface_group_off_hold p e i.observation.operation)
unfolding is_fresh
is_fresh-le p now e i h = (ground (arith, h), ground (arith, h))

-- A leaf that is still retained after the pruning was retained before it, was not observed later than now, and not
-- more than two seconds ago, for an OFF eight seconds.
pub prune_pending-fresh :
    (now : ℕ) (p : Promotion) (e : String) (i : PendingLeaf)
    → lookup e (prune_pending now p).pending ≡ some i
    → (lookup e p.pending ≡ some i)
      × (i.observed_at ≤ now)
      × (now - i.observed_at
          ≤ (if i.observation.operation == "off" then group_off_window else burst_window))
unfolding prune_pending cancel_singles
prune_pending-fresh now p e i h =
    let stale = λ (x : String × PendingLeaf). not (is_fresh p now x.0 x.1) in
    let kept = drop_pending-kept e i (keys (filter stale p.pending)) p h in
    elim (Bool-cases (is_fresh p now e i)) [
      | inl fresh ↦ (
        kept,
        (is_fresh-le p now e i fresh).0,
        omega (arith, (is_fresh-le p now e i fresh).1, hold-le p e i.observation.operation),
      )
      | inr old ↦ absurd (
          cc (
            drop_pending-lookup e _ p
                (contains-keys stale e i p.pending kept (ground (arith, old))),
            h,
          ))
    ]
