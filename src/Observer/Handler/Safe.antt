-- ===== src/Observer/Handler/Safe.antt =====
-- Which state changes the observer lets change ownership.
use text.Mathlib.Text.{starts_with}
use home_lighting_manager.Common.Action.Returns.{Gives, >>=-Gives}
use home_lighting_manager.Common.{
  Bool, true, false, not, ◌&&◌, ◌||◌, Option, none, some, ◌≡◌, refl, arith, inl, inr, if◌then◌else◌,
  Bool-cases, contains, string_eq, ◌==◌, is_some,
}
use mathlib.Core.Path.{subst}
use home_lighting_manager.Common.Int.{ℤ}
use home_lighting_manager.Common.Action.{Action, Result, ok, err, ◌>>=◌, pure, gets}
use home_lighting_manager.Shadow.Runtime.{ShadowObservation, ShadowDecision}
use home_lighting_manager.Observer.{State, Context}
use home_lighting_manager.Observer.Observation.{
  is_missing, was_missing, is_explicit_user, evidence_of, bare_observation, command_evidence,
  command_observation, observation_from_state_change,
}
use home_lighting_manager.Observer.Membership.{Configuration}
use home_lighting_manager.Observer.Events.{
  Surroundings, StateChanged, Session, refresh_topology_cache,
}
use home_lighting_manager.Observer.Handler.{
  take_observation, with_observation, convert_change, is_surface_group, state_changed,
}
use home_lighting_manager.Observer.Handler.Commands.{
  is_command, commands, anything, RestsOn, take_observation-RestsOn,
}

-- An HA user has directly switched a light that was and is known.
pub record IsDirect (event : StateChanged) : Type 0 where
  pub light : starts_with event.entity_id "light." ≡ true
  pub user : is_explicit_user event.context ≡ true
  pub known : was_missing event.old_state ≡ false
  pub shown :
      (new : State) × (event.new_state ≡ some new)
      × ((new.state == "on" || new.state == "off") ≡ true)

abbrev Holds : (ShadowObservation → Type 0) → Option ShadowObservation → Type 0
Holds P none = Unit {0}
Holds P (some o) = P o

if-Holds :
    (P : ShadowObservation → Type 0) (b : Bool) (x y : Option ShadowObservation)
    → (b ≡ true → Holds P x)
    → (b ≡ false → Holds P y)
    → Holds P (if b then x else y)
if-Holds P true x y h k = h refl
if-Holds P false x y h k = k refl

command_evidence-user :
    (c : Context) → is_command (command_evidence c).kind ≡ true → is_explicit_user c ≡ true
unfolding command_evidence evidence_of
command_evidence-user c h = elim (Bool-cases (is_explicit_user c)) [
  | inl user ↦ user
  | inr other ↦ absurd (ground arith)
]

observation-IsDirect :
    (event : StateChanged) (new : State) (precedence : Option ℤ)
    → event.new_state ≡ some new
    → Holds
        (λ o. commands o ≡ true → IsDirect event)
        (observation_from_state_change event.entity_id event.old_state new event.context precedence)
unfolding observation_from_state_change evidence_of bare_observation command_observation
observation-IsDirect event new precedence shown =
    let P = λ (o : ShadowObservation). commands o ≡ true → IsDirect event in
    if-Holds P (not (starts_with event.entity_id "light.")) _ _ (λ _. tt)
      λ light.
        if-Holds P (is_missing new.state || was_missing event.old_state) _ _ (λ _ h. absurd (cc h))
          λ known.
            if-Holds P (not (is_some event.old_state) && not (is_explicit_user event.context)) _ _
              (λ _ h. absurd (cc h))
              λ _.
                if-Holds P (new.state == "off") _ _
                  (λ off h. record {
                    light = ground (arith, light);
                    user = command_evidence-user event.context h;
                    known = ground (arith, known);
                    shown = (new, shown, ground (arith, off));
                  })
                  λ _.
                    if-Holds P (not (new.state == "on")) _ _ (λ _. tt)
                      λ on h. record {
                        light = ground (arith, light);
                        user = command_evidence-user event.context h;
                        known = ground (arith, known);
                        shown = (new, shown, ground (arith, on));
                      }

-- A decision that changes ownership is a direct one.
abbrev OnlyDirect : StateChanged → Option ShadowDecision → Type 0
OnlyDirect event r = (d : ShadowDecision) → r ≡ some d → d.mutated ≡ true → IsDirect event

module _ (c : Configuration) (w : Surroundings) (event : StateChanged) where
  with_observation-OnlyDirect :
      (new : State) (observed : Option ShadowObservation) (s : Session)
      → Holds (λ o. commands o ≡ true → IsDirect event) observed
      → Gives (OnlyDirect event) (with_observation c w new observed s).0
  unfolding with_observation pure
  with_observation-OnlyDirect new none s h = λ d same changed. absurd (cc same)
  with_observation-OnlyDirect new (some o) s h =
      taken (take_observation c w new o s).0 (take_observation-RestsOn c w new o s)
    where
      taken :
          (r : Result (Option ShadowDecision)) → Gives (RestsOn o) r → Gives (OnlyDirect event) r
      taken (ok x) k = λ d same changed. h (k d same changed)
      taken (err _) k = tt

  convert_change-OnlyDirect :
      (new : Option State) (s : Session)
      → event.new_state ≡ new
      → Gives (OnlyDirect event) (convert_change c w event new s).0
  unfolding convert_change pure ◌>>=◌ gets
  convert_change-OnlyDirect none s shown = λ d same changed. absurd (cc same)
  convert_change-OnlyDirect (some new) s shown =
      with_observation-OnlyDirect new _ s (observation-IsDirect event new _ shown)

  managed-OnlyDirect :
      (b : Bool) (s : Session)
      → Gives
          (OnlyDirect event)
          ((if b then convert_change c w event event.new_state else pure none) s).0
  unfolding pure
  managed-OnlyDirect true s = convert_change-OnlyDirect event.new_state s refl
  managed-OnlyDirect false s = λ d same changed. absurd (cc same)

  state_changed-Gives : (s : Session) → Gives (OnlyDirect event) (state_changed c w event s).0
  unfolding state_changed
  state_changed-Gives s =
      let refresh : Action Session (Unit {0}) =
        if is_surface_group event.entity_id then refresh_topology_cache c w else pure tt in
      >>=-Gives (λ _. Unit {0}) (OnlyDirect event) refresh _ s (anything (refresh s).0)
        λ _ t _. got t
    where
      seen : (t : Session) → Gives (λ (u : Session). Unit {0}) (gets (λ (u : Session). u) t).0
      seen t = unfold gets in tt

      got :
          (t : Session)
          → Gives
              (OnlyDirect event)
              ((gets (λ (u : Session). u) >>= λ u.
                  if contains event.entity_id u.observer.surfaces.entity_ids
                  then convert_change c w event event.new_state
                  else pure none)
                t).0
      got t =
          >>=-Gives (λ _. Unit {0}) (OnlyDirect event) (gets (λ (u : Session). u)) _ t (seen t)
            λ u t' _.
              managed-OnlyDirect (contains event.entity_id u.observer.surfaces.entity_ids) t'

  -- The decision on a state change mutates only if the changed entity is a light, the context of the change
  -- has a user and no parent, the state before, if there was one, was neither unavailable nor unknown, and the
  -- new state is "on" or "off".
  pub state_changed-IsDirect :
      (s : Session) (d : ShadowDecision)
      → (state_changed c w event s).0 ≡ ok (some d)
      → d.mutated ≡ true
      → IsDirect event
  state_changed-IsDirect s d returned changed =
      gave (state_changed c w event s).0 returned (state_changed-Gives s) d refl changed
    where
      gave :
          (r : Result (Option ShadowDecision))
          → r ≡ ok (some d)
          → Gives (OnlyDirect event) r
          → OnlyDirect event (some d)
      gave r e k = subst (Gives (OnlyDirect event)) e k
