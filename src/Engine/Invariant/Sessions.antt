-- ===== src/Engine/Invariant/Sessions.antt =====
-- Stable properties of the engine through the operations on sessions.
use home_lighting_manager.Common.{
  ℕ, String, Option, none, some, List, [], ◌∷◌, string_eq, pair_eq, option_eq, nat_eq,
}
use home_lighting_manager.Common.Action.Invariant.{Preserves, action_rules}
use home_lighting_manager.Model.{FamilySession, WorkToken}
use home_lighting_manager.Engine.State.{Engine}
use home_lighting_manager.Engine.Families.{
  close_session, end_session, end_family, end_sessions_of, open_session, admit_session,
  choose_sequence, start_new, start_family, suppress_session, suppress_found, suppress_found,
  suppress_family,
}
use home_lighting_manager.Engine.Invariant.{
  IsStable, changed-keeps, if-keeps, reset_group_off_sequence-keeps, remove_everywhere-keeps,
}

module _ (P : Engine → Type 0) ⦃stable : IsStable P⦄ where
  close_session-keeps : (f s : String) (e : Engine) → P e → P (close_session f s e)
  unfolding close_session
  close_session-keeps f s e h = changed-keeps P _ _ (
      reset_group_off_sequence-keeps P none _
        (remove_everywhere-keeps P _ _ _ (stable.drop_P (f, s) e h)))

  pub end_session-keeps : (f s : String) (e : Engine) → P e → P (end_session f s e)
  unfolding end_session
  end_session-keeps f s e h = search (close_session-keeps, if-keeps P)

  end_sessions_of-keeps :
      (l : List (String × String)) (f : String) (e : Engine) → P e → P (end_sessions_of l f e)
  unfolding end_sessions_of
  end_sessions_of-keeps [] f e h = h
  end_sessions_of-keeps ((old, id) ∷ rest) f e h =
      end_sessions_of-keeps rest f _ (search (end_session-keeps, if-keeps P))

  open_session-keeps : (f s : String) (n : ℕ) (e : Engine) → P e → P (open_session f s n e)
  unfolding open_session
  open_session-keeps f s n e h =
      changed-keeps P _ _ (stable.write_P f s n _ (end_sessions_of-keeps _ f e h))

  suppress_session-keeps :
      (s : FamilySession) (key : String × String) (reason : String) (e : Engine)
      → P e
      → P (suppress_session s key reason e)
  unfolding suppress_session
  suppress_session-keeps s key reason e h = search (if-keeps P, changed-keeps P, stable.family_P)

  ruleset family_rules =
      (action_rules, end_session-keeps, open_session-keeps, suppress_session-keeps)

  pub end_family-Preserves : (f s : String) (t : Option WorkToken) → Preserves P (end_family f s t)
  unfolding end_family
  end_family-Preserves f s t = search family_rules

  admit_session-Preserves : (f s : String) (n : ℕ) → Preserves P (admit_session f s n)
  unfolding admit_session
  admit_session-Preserves f s n = search family_rules depth 12

  choose_sequence-Preserves : (f : String) (n : Option ℕ) → Preserves P (choose_sequence f n)
  unfolding choose_sequence
  choose_sequence-Preserves f none = search family_rules depth 12
  choose_sequence-Preserves f (some n) = search family_rules depth 12

  start_new-Preserves :
      (f s : String) (n : Option ℕ) (o : Option FamilySession) → Preserves P (start_new f s n o)
  unfolding start_new
  start_new-Preserves f s n none =
      search (family_rules, choose_sequence-Preserves, admit_session-Preserves) depth 12
  start_new-Preserves f s n (some o) = search family_rules depth 12

  pub start_family-Preserves :
      (f s : String) (n : Option ℕ) (t : Option WorkToken) → Preserves P (start_family f s n t)
  unfolding start_family
  start_family-Preserves f s n t = search (family_rules, start_new-Preserves) depth 12

  suppress_found-Preserves :
      (f s reason : String) (o : Option FamilySession) → Preserves P (suppress_found f s reason o)
  unfolding suppress_found
  suppress_found-Preserves f s reason none = search family_rules depth 12
  suppress_found-Preserves f s reason (some o) = search family_rules depth 12

  pub suppress_family-Preserves :
      (f s reason : String) (t : Option WorkToken) → Preserves P (suppress_family f s reason t)
  unfolding suppress_family
  suppress_family-Preserves f s reason t = search (family_rules, suppress_found-Preserves) depth 12
