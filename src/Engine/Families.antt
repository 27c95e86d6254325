-- ===== src/Engine/Families.antt =====
-- Removal of layers, and the sessions of automation families.
use home_lighting_manager.Common.{
  ℕ, ◌+◌, String, Bool, true, false, not, ◌&&◌, Option, none, some, List, [], ◌∷◌, ◌++◌, ◌==◌,
  string_eq, pair_eq, option_eq, nat_eq, if◌then◌else◌, length, filter, contains, is_some, leb, ltb,
  drop,
}
use home_lighting_manager.Common.Dict.{lookup, insert, erase, keys}
use home_lighting_manager.Common.Action.{Action, pure, raise, gets, modify, raise_if, ◌>>=◌, ◌>>◌}
use home_lighting_manager.Model.{
  OwnershipLayer, FamilySession, WorkToken, is_homeowner_kind, is_manual_off, session_eq,
}
use home_lighting_manager.Engine.State.{Engine, changed, is_stale, layers, max_families}
use home_lighting_manager.Engine.Groups.{reset_group_off_sequence, is_nonempty}

-- `self._layers[entity_id] = remaining` if anything remains, else `pop`
unfoldable pub keep_stack : String → List OwnershipLayer → Engine → Engine
keep_stack entity remaining e = record e {
  stacks =
      if is_nonempty remaining then insert entity remaining e.stacks else erase entity e.stacks;
}

unfoldable pub keep_where : String → (OwnershipLayer → Bool) → Engine → Engine
keep_where entity kept e = keep_stack entity (filter kept (layers e entity)) e

-- Keep the layers that pass the test. What remains is a part of the same list, so it differs
-- exactly when it is shorter.
unfoldable pub remove_where : String → (OwnershipLayer → Bool) → String → Engine → Engine
remove_where entity kept reason e =
    if length (filter kept (layers e entity)) == length (layers e entity)
    then keep_where entity kept e
    else changed reason (keep_where entity kept e)

unfoldable pub remove_layer : String → String → Engine → Engine
remove_layer entity id = remove_where entity (λ layer. not (layer.layer_id == id)) "remove_layer"

unfoldable pub remove_owner : String → String → Engine → Engine
remove_owner entity owner = remove_where entity (λ layer. not (layer.owner == owner)) "remove_owner"

unfoldable pub remove_homeowner_exceptions : String → Engine → Engine
remove_homeowner_exceptions entity =
    remove_where entity (λ layer. not (is_homeowner_kind layer.kind)) "remove_homeowner_exceptions"

-- `for layer in self.layers(entity_id): if ...: self.remove_layer(entity_id, layer.layer_id)`
unfoldable pub remove_matching :
    List OwnershipLayer → (OwnershipLayer → Bool) → String → Engine → Engine
remove_matching [] matching entity e = e
remove_matching (layer ∷ ls) matching entity e =
    remove_matching ls matching entity
      (if matching layer then remove_layer entity layer.layer_id e else e)

-- The same for every entity of a snapshot.
unfoldable pub remove_everywhere : List String → (OwnershipLayer → Bool) → Engine → Engine
remove_everywhere [] matching e = e
remove_everywhere (entity ∷ rest) matching e =
    remove_everywhere rest matching (remove_matching (layers e entity) matching entity e)

-- `evening_activation`
unfoldable pub evening_activation : Engine → Engine
evening_activation e = changed "evening_activation" (
    reset_group_off_sequence none
      (remove_everywhere (keys e.stacks) (λ layer. is_manual_off layer.kind) e))

-- `(layer.family, layer.session_id) == (family, session_id)`
unfoldable pub in_session : String → String → OwnershipLayer → Bool
in_session family session_id layer =
    layer.family == some family && layer.session_id == some session_id

-- `self._ended_sessions[key] = None`, and the oldest dropped beyond 128
unfoldable pub retire : String × String → Engine → Engine
retire key e =
    let ended =
      if contains key e.ended_sessions then e.ended_sessions else e.ended_sessions ++ key ∷ [] in
    if ltb 128 (length ended)
    then record e { ended_sessions = drop 1 ended; legacy_sessions_exhausted = true }
    else record e { ended_sessions = ended }

-- The session leaves the live ones for the retired ones.
unfoldable pub drop_session : String × String → Engine → Engine
drop_session key e = retire key (record e { families = erase key e.families })

-- What `end_family` does to a session that is there.
unfoldable pub close_session : String → String → Engine → Engine
close_session family session_id e =
    let e₁ = drop_session (family, session_id) e in
    changed "family_ended" (
      reset_group_off_sequence none
        (remove_everywhere (keys e₁.stacks) (in_session family session_id) e₁))

-- `end_family` after its token check; the end of an unknown session changes nothing.
unfoldable pub end_session : String → String → Engine → Engine
end_session family session_id e =
    if is_some (lookup (family, session_id) e.families)
    then close_session family session_id e
    else e

unfoldable pub end_family : String → String → Option WorkToken → Action Engine (Unit {0})
end_family family session_id expected = do
  raise_if (← gets (λ e. is_stale e expected)) "stale work token"
  modify (end_session family session_id)

-- The loop of `start_family` over a snapshot of the sessions.
unfoldable pub end_sessions_of : List (String × String) → String → Engine → Engine
end_sessions_of [] family e = e
end_sessions_of ((old, id) ∷ rest) family e =
    end_sessions_of rest family (if old == family then end_session family id e else e)

abbrev pub or_zero : Option ℕ → ℕ
or_zero none = 0
or_zero (some n) = n

abbrev pub new_session : String → String → ℕ → Engine → FamilySession
new_session family session_id sequence e = record {
  family = family;
  session_id = session_id;
  generation = e.generation;
  suppressed = false;
  suppression_reason = none;
  sequence = sequence;
}

-- The three writes of a new session.
unfoldable pub write_session : String → String → ℕ → Engine → Engine
write_session family session_id sequence e = record e {
  session_sequences = insert family sequence e.session_sequences;
  session_ids = insert family session_id e.session_ids;
  families = insert (family, session_id) (new_session family session_id sequence e) e.families;
}

-- What `start_family` does once the session is admitted.
unfoldable pub open_session : String → String → ℕ → Engine → Engine
open_session family session_id sequence e =
    changed "family_started"
      (write_session family session_id sequence (end_sessions_of (keys e.families) family e))

-- The checks of a session that is not there yet, in their order.
unfoldable pub admit_session : String → String → ℕ → Action Engine FamilySession
admit_session family session_id sequence = do
  e ← gets (λ e. e)
  raise_if (leb sequence (or_zero (lookup family e.session_sequences))) "stale session sequence"
  raise_if (lookup family e.session_ids == some session_id)
      "ended session identity cannot be reused"
  raise_if
      (not (is_some (lookup family e.session_sequences))
        && leb max_families (length e.session_sequences))
      "family capacity exceeded"
  modify (open_session family session_id sequence)
  pure (new_session family session_id sequence e)

-- An absent sequence is the next one, until the window of ended sessions is full.
unfoldable pub choose_sequence : String → Option ℕ → Action Engine ℕ
choose_sequence family (some sequence) = pure sequence
choose_sequence family none = do
  e ← gets (λ e. e)
  raise_if e.legacy_sessions_exhausted "explicit session sequence required after retirement window"
  pure (or_zero (lookup family e.session_sequences) + 1)

-- `session identity sequence mismatch` of a session that is there
unfoldable pub sequence_differs : Engine → String → Option ℕ → Bool
sequence_differs e family none = false
sequence_differs e family (some sequence) = not (lookup family e.session_sequences == some sequence)

unfoldable pub start_new :
    String → String → Option ℕ → Option FamilySession → Action Engine FamilySession
start_new family session_id sequence (some existing) = do
  raise_if (← gets (λ e. sequence_differs e family sequence)) "session identity sequence mismatch"
  pure existing
start_new family session_id sequence none = do
  e ← gets (λ e. e)
  raise_if (contains (family, session_id) e.ended_sessions)
      "ended session cannot be restarted; use a new session ID"
  n ← choose_sequence family sequence
  admit_session family session_id n

unfoldable pub start_family :
    String → String → Option ℕ → Option WorkToken → Action Engine FamilySession
start_family family session_id sequence expected = do
  e ← gets (λ e. e)
  raise_if (is_stale e expected) "stale work token"
  start_new family session_id sequence (lookup (family, session_id) e.families)

unfoldable pub write_family : String × String → FamilySession → Engine → Engine
write_family key s e = record e { families = insert key s e.families }

-- The write of `suppress_family`.
unfoldable pub suppress_session : FamilySession → String × String → String → Engine → Engine
suppress_session current key reason e =
    let suppressed : FamilySession = record current {
      suppressed = true;
      suppression_reason = some reason;
    } in
    let e' = write_family key suppressed e in
    if session_eq suppressed current then e' else changed reason e'

unfoldable pub suppress_found :
    String → String → String → Option FamilySession → Action Engine FamilySession
suppress_found family session_id reason none =
    raise "suppression requires an existing parent session"
suppress_found family session_id reason (some current) = do
  modify (suppress_session current (family, session_id) reason)
  pure (record current { suppressed = true; suppression_reason = some reason })

unfoldable pub suppress_family :
    String → String → String → Option WorkToken → Action Engine FamilySession
suppress_family family session_id reason expected = do
  e ← gets (λ e. e)
  raise_if (is_stale e expected) "stale work token"
  suppress_found family session_id reason (lookup (family, session_id) e.families)
