-- ===== src/Reconciliation/Scenes.antt =====
-- What the verification of a scene keeps.
use home_lighting_manager.Common.{
  String, Bool, true, false, not, ◌&&◌, ◌||◌, Option, none, some, List, [], ◌∷◌, ◌==◌, string_eq,
  nat_eq, contains, length, ◌≡◌, refl, ap, arith, Bool-cases, inl, inr, if◌then◌else◌,
}
use home_lighting_manager.Common.Dict.{Dict, lookup, keys}
use home_lighting_manager.Common.Text.{Names, subset}
use home_lighting_manager.Common.Action.{ok}
use home_lighting_manager.Model.{Fields}
use home_lighting_manager.Reconciliation.{
  liquor, Check, SurfaceOwner, SceneInfo, Difference, entity_issue, scene_evidence_pending,
}
use home_lighting_manager.Reconciliation.Compare.{
  Observed, add_issue, add_command, scene_command, Drift, note_difference, compare_action,
  compare_actions, scene_on, repair_scene, check_scene, verify_scene,
}
use home_lighting_manager.Reconciliation.Verify.{manual_of}
use home_lighting_manager.Reconciliation.Reasons.{
  IsFree, scene, IsRule, Returns, bind-Returns, after-Returns, if-Returns,
}

module _ {i : Observed} {door : Bool} {P noted : Check → Type 0}
    (rule : IsRule i door P noted) where
  record IsTracked (s : Drift) : Type 0 where
    kept : P s.out
    after_drift : s.drifted ≡ true → noted s.out

  renoted : (x : _) (out : Check) → noted out → noted (add_issue x out)
  renoted x out h = rule.issue x out (rule.plain out h)

  note_difference-IsTracked :
      (d : Difference × Bool) (surface entity : String) (s : Drift)
      → IsTracked s
      → IsTracked (note_difference d surface entity s)
  unfolding note_difference
  note_difference-IsTracked ([], available) surface entity s h = h
  note_difference-IsTracked (d ∷ ds, available) surface entity s h = record {
    kept = rule.plain _ (rule.issue _ s.out h.kept);
    after_drift = λ e. rule.issue _ s.out h.kept;
  }

  compare_action-IsTracked :
      (surface entity : String) (on : Option Bool) (s : Drift)
      → IsTracked s
      → IsTracked (compare_action i.states surface entity on s)
  unfolding compare_action
  compare_action-IsTracked surface entity none s h = record {
    kept = rule.plain _ (rule.issue _ s.out h.kept);
    after_drift = λ e. rule.issue _ s.out h.kept;
  }
  compare_action-IsTracked surface entity (some on) s h =
      note_difference-IsTracked _ surface entity s h

  compare_actions-IsTracked :
      (surface : String) (protected : Names) (l : Dict String Fields) (s : Drift)
      → IsTracked s
      → Returns IsTracked (compare_actions i.states surface protected door l s)
  unfolding compare_actions
  compare_actions-IsTracked surface protected [] s h = h
  compare_actions-IsTracked surface protected ((entity, action) ∷ l) s h =
      if-Returns IsTracked (contains entity protected || (entity == liquor && door)) _ _
        (λ _. compare_actions-IsTracked surface protected l s h)
        (λ _. bind-Returns IsTracked (scene_on action) _ λ on read.
          compare_actions-IsTracked surface protected l _
            (compare_action-IsTracked surface entity on s h))

  module _ (surface : String) (o : SurfaceOwner) (owned : lookup surface i.owners ≡ some o)
      (free : IsFree i surface o) where
    scene_command-kept :
        (name : String) (protected : Names) (out : Check)
        → protected ≡ manual_of o
        → (surface == "main_area" && door) ≡ false
        → noted out
        → P (add_command (scene_command surface name protected) out)
    unfolding scene_command
    scene_command-kept name [] out e shut h =
        rule.command (scene_command surface name []) o out owned
          (scene free (ap (scene_command surface name) e) shut) h
    scene_command-kept name (p ∷ ps) out e shut h =
        rule.command (scene_command surface name (p ∷ ps)) o out owned
          (scene free (ap (scene_command surface name) e) shut) h

    repair_scene-kept :
        (name : String) (s : Drift)
        → IsTracked s
        → P (repair_scene surface name (manual_of o) door s)
    unfolding repair_scene
    repair_scene-kept name s h = elim (Bool-cases s.drifted) [
      | inr still ↦ rw still h.kept
      | inl moved ↦ rw moved elim (Bool-cases (s.unreachable || (surface == "main_area" && door))) [
        | inl deferred ↦ rw deferred (rule.plain _ (rule.issue _ s.out h.kept))
        | inr open' ↦ rw open' (
            scene_command-kept name (manual_of o) s.out refl (ground (arith, open'))
              (h.after_drift moved))
      ]
    ]

    noting :
        (problem name : String) (out : Check)
        → P out
        → P (add_issue (entity_issue surface name problem) out)
    noting problem name out h = rule.plain _ (rule.issue _ out h)

    check_scene-kept :
        (name : String) (members : List String) (info : SceneInfo) (out : Check)
        → P out
        → Returns P (check_scene i surface name members (manual_of o) door info out)
    unfolding check_scene
    check_scene-kept name members info out h =
        if-Returns P (not (info.error_text == "")) _ _ (λ _. noting info.error_text name out h)
          λ _.
            if-Returns P (length info.actions == 0 || not (subset (keys info.actions) members)) _ _
              (λ _. noting "scene crosses surface or has no actions" name out h)
              λ _.
                if-Returns P (not info.latest) _ _ (λ _. noting scene_evidence_pending name out h)
                  λ _.
                    after-Returns IsTracked P _ _
                      (compare_actions-IsTracked surface (manual_of o) info.actions _
                        (record { kept = h; after_drift = λ e. cc }))
                      (repair_scene-kept name)

    pub verify_scene-kept :
        (name : String) (members : List String) (out : Check)
        → P out
        → Returns P (verify_scene i surface name members (manual_of o) door out)
    unfolding verify_scene
    verify_scene-kept name members out h =
        if-Returns P (subset members (if door then liquor ∷ manual_of o else manual_of o)) _ _
          (λ _. h) (λ _. looked (lookup name i.scene_info))
      where
        looked :
            (found : Option SceneInfo)
            → Returns P (elim found [
              | none ↦ ok (add_issue (entity_issue surface name "missing scene metadata") out)
              | some info ↦ check_scene i surface name members (manual_of o) door info out
            ])
        looked none = noting "missing scene metadata" name out h
        looked (some info) = check_scene-kept name members info out h
