-- ===== src/Operations/Plain.antt =====
-- The reason of an operation that has its effect is none of the refusals for staleness or duplication.
use text.Mathlib.Text.{starts_with}
use home_lighting_manager.Common.{
  String, false, ◌||◌, Option, none, some, List, [], ◌∷◌, ◌≡◌, refl, Bool-cases, inl, inr,
  string_eq, ◌==◌,
}
use home_lighting_manager.Common.Action.{Action, Result, ok, err, pure, ◌>>=◌}
use home_lighting_manager.Common.Action.Returns.{Gives, >>=-Gives}
use home_lighting_manager.Model.{
  OffAction, GroupOffAction, off_action_value, group_off_action_value,
}
use home_lighting_manager.Engine.State.{Engine}
use home_lighting_manager.Operations.Record.{HomeownerOperation, MemberOutcome}
use home_lighting_manager.Operations.Effect.{
  effect, apply_all_off, apply_appearances, apply_group, apply_singles, apply_offs,
}

abbrev pub IsPlain : String → Type 0
IsPlain reason = (starts_with reason "stale" || starts_with reason "duplicate") ≡ false

any_result : {A : Type 0} (r : Result A) → Gives (λ _. Unit {0}) r
any_result (ok a) = tt
any_result (err e) = tt

then-IsPlain :
    {A : Type 0} (m : Action Engine A) (f : A → Action Engine String) (e : Engine)
    → ((a : A) (t : Engine) → Gives IsPlain (f a t).0)
    → Gives IsPlain ((m >>= f) e).0
then-IsPlain m f e next = >>=-Gives (λ _. Unit {0}) IsPlain m f e (any_result _) (λ a t _. next a t)

off_action-IsPlain : (a : OffAction) → IsPlain (off_action_value a)
unfolding off_action_value
off_action-IsPlain OffAction.released_manual = refl
off_action-IsPlain OffAction.suppressed_family = refl
off_action-IsPlain OffAction.created_manual_off = refl
off_action-IsPlain OffAction.already_manual_off = refl
off_action-IsPlain OffAction.popped_layer = refl

group_off_action-IsPlain : (a : GroupOffAction) → IsPlain (group_off_action_value a)
unfolding group_off_action_value
group_off_action-IsPlain GroupOffAction.released_to_hlm = refl
group_off_action-IsPlain GroupOffAction.created_group_manual_off = refl

module _ (op : HomeownerOperation) where
  apply_offs-IsPlain :
      (l : List MemberOutcome) (reason : String) (e : Engine)
      → IsPlain reason
      → Gives IsPlain (apply_offs op l reason e).0
  unfolding apply_offs pure
  apply_offs-IsPlain [] reason e h = h
  apply_offs-IsPlain (m ∷ l) reason e h = then-IsPlain _ _ e λ result t. then-IsPlain _ _ t λ _ u.
      apply_offs-IsPlain l (off_action_value result.action) u (off_action-IsPlain result.action)

  apply_appearances-IsPlain :
      (l : List MemberOutcome) (e : Engine) → Gives IsPlain (apply_appearances op l e).0
  unfolding apply_appearances pure
  apply_appearances-IsPlain l e =
      then-IsPlain _ _ e λ _ t. then-IsPlain _ _ t λ _ u. then-IsPlain _ _ u λ _ v. refl

  apply_all_off-IsPlain :
      (l : List MemberOutcome) (g : Option String) (e : Engine)
      → Gives IsPlain (apply_all_off op l g e).0
  unfolding apply_all_off apply_group apply_singles pure
  apply_all_off-IsPlain l none e = then-IsPlain _ _ e λ _ t. apply_offs-IsPlain l "" t refl
  apply_all_off-IsPlain l (some g) e =
      then-IsPlain _ _ e
        λ result t. then-IsPlain _ _ t λ _ u. group_off_action-IsPlain result.action

  pub effect-IsPlain : (l : List MemberOutcome) (e : Engine) → Gives IsPlain (effect op l e).0
  unfolding effect
  effect-IsPlain l e = elim (Bool-cases (op.kind == "off")) [
    | inl yes' ↦ rw yes' (apply_all_off-IsPlain l op.group_id e)
    | inr no' ↦ rw no' (apply_appearances-IsPlain l e)
  ]
