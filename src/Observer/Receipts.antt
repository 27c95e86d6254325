-- ===== src/Observer/Receipts.antt =====
-- ha_observer.py: the receipts of the commands that a renderer is about to send, by which the reports
-- that follow are attributed.
pub mod Attributed
use home_lighting_manager.Common.{
  ℕ, suc, ◌+◌, ◌-◌, ◌*◌, ◌≤◌, String, Bool, true, false, not, ◌&&◌, ◌||◌, Option, none, some, List,
  [], ◌∷◌, ◌++◌, if◌then◌else◌, ◌==◌, string_eq, nat_eq, leb, contains, filter, length, take_last,
  find, is_some,
}
use home_lighting_manager.Common.Dict.{Dict, lookup, insert, erase}
use home_lighting_manager.Intent.{IntentEvidenceKind, IntentEvidence}
use home_lighting_manager.Shadow.Runtime.{ShadowObservation}
use home_lighting_manager.Observer.{managed_surface_groups, managed_surface_guards, seconds}

-- RENDERER_ATTRIBUTION_TTL_SECONDS and the length of a deque
abbrev pub receipt_ttl : ℕ
receipt_ttl = 8 * seconds

abbrev pub max_receipts : ℕ
max_receipts = 16

pub record Receipt : Type 0 where
  pub guard : String
  pub operation : String
  pub created_at : ℕ

abbrev pub Receipts : Type 0
Receipts = Dict String (List Receipt)

-- `deque(maxlen=16).append`
unfoldable pub append_receipt : Receipt → List Receipt → List Receipt
append_receipt r l = take_last max_receipts (l ++ r ∷ [])

abbrev pub receipts_of : Option (List Receipt) → List Receipt
receipts_of none = []
receipts_of (some l) = l

-- the surface of a guard
unfoldable pub surface_of_guard : String → Dict String String → Option String
surface_of_guard guard [] = none
surface_of_guard guard ((surface, g) ∷ l) =
    if g == guard then some surface else surface_of_guard guard l

-- The loop over the entities, with the number accepted.
unfoldable pub accept_each : Receipt → List String → List String → Receipts → ℕ → ℕ × Receipts
unfolding append_receipt lookup insert
accept_each r members [] receipts accepted = (accepted, receipts)
accept_each r members (e ∷ l) receipts accepted =
    let (receipts', accepted') =
      if contains e members
      then (insert e (append_receipt r (receipts_of (lookup e receipts))) receipts, suc accepted)
      else (receipts, accepted) in
    accept_each r members l receipts' accepted'

abbrev members_for : Option String → Dict String (List String) → List String
unfolding lookup
members_for none members = []
members_for (some group) members = elim (lookup group members) [ none ↦ [] | some l ↦ l ]

unfoldable pub register_for :
    Option String
    → String
    → String
    → ℕ
    → List String
    → Bool
    → Dict String (List String)
    → Receipts
    → ℕ × Receipts
unfolding accept_each members_for lookup
register_for none guard operation now entities on members receipts = (0, receipts)
register_for (some surface) guard operation now entities on members receipts =
    if on
    then accept_each (record { guard = guard; operation = operation; created_at = now })
        (members_for (lookup surface managed_surface_groups) members) entities receipts 0
    else (0, receipts)

-- `register_renderer_command_consequences`; `on` says whether the guard is on.
unfoldable pub register_renderer_command_consequences :
    List String → String → String → ℕ → Bool → Dict String (List String) → Receipts → ℕ × Receipts
unfolding register_for surface_of_guard
register_renderer_command_consequences entities guard operation now on members receipts =
    if operation == "appearance" || operation == "off"
    then register_for (surface_of_guard guard managed_surface_guards) guard operation now entities
        on members receipts
    else (0, receipts)

-- A receipt that counts: neither from the future nor older than the limit, its guard still on.
abbrev pub is_live : ℕ → (String → Bool) → Receipt → Bool
is_live now on r = leb r.created_at now && (leb (now - r.created_at) receipt_ttl && on r.guard)

-- the guard of the latest receipt for the operation
unfoldable pub latest_guard : String → List Receipt → Option String
latest_guard operation [] = none
latest_guard operation (r ∷ l) =
    let later = latest_guard operation l in
    if is_some later then later else if r.operation == operation then some r.guard else none

unfoldable pub prune_receipts : String → List Receipt → Receipts → Receipts
unfolding insert erase
prune_receipts entity [] receipts = erase entity receipts
prune_receipts entity (r ∷ l) receipts = insert entity (r ∷ l) receipts

-- `_active_guard_for_ha_consequence`
unfoldable pub active_guard_for_ha_consequence :
    String → String → ℕ → (String → Bool) → Receipts → Option String × Receipts
unfolding lookup prune_receipts latest_guard
active_guard_for_ha_consequence entity operation now on receipts =
    let stored = receipts_of (lookup entity receipts) in
    let valid = take_last max_receipts (filter (is_live now on) stored) in
    if length stored == 0
    then (none, receipts)
    else (latest_guard operation valid, prune_receipts entity valid receipts)

abbrev consequence_kind : IntentEvidenceKind → IntentEvidenceKind
consequence_kind IntentEvidenceKind.availability_change = IntentEvidenceKind.availability_change
consequence_kind IntentEvidenceKind.recovery_telemetry = IntentEvidenceKind.recovery_telemetry
consequence_kind IntentEvidenceKind.explicit_homeowner_command =
    IntentEvidenceKind.hlm_command_consequence
consequence_kind IntentEvidenceKind.correlated_external_homeowner_command =
    IntentEvidenceKind.hlm_command_consequence
consequence_kind IntentEvidenceKind.hlm_command_consequence =
    IntentEvidenceKind.hlm_command_consequence
consequence_kind IntentEvidenceKind.physical_drift = IntentEvidenceKind.hlm_command_consequence
consequence_kind IntentEvidenceKind.unknown = IntentEvidenceKind.hlm_command_consequence

unfoldable pub mark_consequence : Option String → ShadowObservation → ShadowObservation
mark_consequence none o = o
mark_consequence (some guard) o = record o {
  evidence = record o.evidence {
    renderer_consequence = true;
    kind = consequence_kind o.evidence.kind;
  };
  operation_id = none;
}

-- `_apply_ha_guard_attribution`
unfoldable pub apply_ha_guard_attribution :
    String → ShadowObservation → ℕ → (String → Bool) → Receipts → ShadowObservation × Receipts
unfolding active_guard_for_ha_consequence mark_consequence
apply_ha_guard_attribution entity o now on receipts =
    let (guard, receipts') = active_guard_for_ha_consequence entity o.operation now on receipts in
    (mark_consequence guard o, receipts')
