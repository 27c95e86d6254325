-- ===== src/Operations/Record.antt =====
-- The types of operations.py, and the checks that refuse an operation.
use Prim.Native.String.{count}
use home_lighting_manager.Common.{
  ℕ, zero, suc, ◌+◌, String, Bool, true, not, ◌&&◌, ◌||◌, Option, none, some, List, [], ◌∷◌, map,
  ◌==◌, string_eq, nat_eq, if◌then◌else◌, length, filter, contains, is_some, leb, ltb, any,
}
use Prim.Native.String.{compare}
use Prim.Native.Nat.{Ordering}
use home_lighting_manager.Common.Dict.{Dict, lookup, keys}
use home_lighting_manager.Common.Int.{ℤ}
use home_lighting_manager.Common.Text.{sorted_set}
use home_lighting_manager.Model.{Appearance, WorkToken, is_valid, is_bool}
use home_lighting_manager.Intent.{IntentEvidence, IntentDecision, classify_intent}
use home_lighting_manager.Engine.State.{Engine, accepts_entity, is_stale, max_entities}

abbrev pub history_limit : ℕ
history_limit = 12

pub record MemberOutcome : Type 0 where
  pub entity_id : String
  pub available : Bool
  pub succeeded : Bool
  pub appearance : Option Appearance
  pub manual_precedence : Option ℤ

pub record HomeownerOperation : Type 0 where
  pub operation_id : String
  pub sequence : ℕ
  pub generation : ℕ
  pub kind : String
  pub evidence : IntentEvidence
  pub members : List MemberOutcome
  pub group_id : Option String
  pub expected : Option WorkToken
  pub require_legacy_policy : Bool

pub record OperationResult : Type 0 where
  pub operation_id : String
  pub intent : IntentDecision
  pub mutated : Bool
  pub reason : String
  pub affected : List String
  pub skipped : List String

-- The dict that `history` and `latest_homeowner` hold.
pub record OperationRecord : Type 0 where
  pub operation_id : String
  pub sequence : ℕ
  pub kind : String
  pub group_id : Option String
  pub generation : ℕ
  pub revision : ℕ
  pub requested : List String
  pub affected : List String
  pub skipped : List String
  pub reason : String

pub record Rejection : Type 0 where
  pub operation_id : String
  pub reason : String

-- `OwnershipOperations`
pub record Operations : Type 0 where
  pub engine : Engine
  pub generation : ℕ
  pub latest_sequence : Dict String ℕ
  pub seen : List (String × ℕ)
  pub retired_sequence : ℕ
  pub history : List OperationRecord
  pub latest_homeowner : Option OperationRecord
  pub latest_rejection : Option Rejection

-- `OwnershipOperations.__init__`
unfoldable pub new_operations : Engine → Operations
new_operations e = record {
  engine = e;
  generation = e.generation;
  latest_sequence = [];
  seen = [];
  retired_sequence = 0;
  history = [];
  latest_homeowner = none;
  latest_rejection = none;
}

-- `s[:n]`
unfoldable pub take_chars : ℕ → String → String
take_chars zero s = ""
take_chars (suc n) String.[] = ""
take_chars (suc n) (String.◌∷◌ c s) = String.◌∷◌ c (take_chars n s)

unfoldable pub insert_member : MemberOutcome → List MemberOutcome → List MemberOutcome
insert_member m [] = m ∷ []
insert_member m (n ∷ ns) = elim (compare m.entity_id n.entity_id) [
  | Ordering.gt ↦ n ∷ insert_member m ns
  | _ ↦ m ∷ n ∷ ns
]

-- `sorted(members, key=lambda item: item.entity_id)`
unfoldable pub sort_members : List MemberOutcome → List MemberOutcome
sort_members [] = []
sort_members (m ∷ ms) = insert_member m (sort_members ms)

abbrev pub is_eligible : MemberOutcome → Bool
is_eligible m = m.available && m.succeeded

unfoldable pub eligible_members : HomeownerOperation → List MemberOutcome
eligible_members op = filter is_eligible (sort_members op.members)

abbrev pub ids_of : List MemberOutcome → List String
ids_of = map (λ m. m.entity_id)

-- The identifiers are distinct once the scope is checked, so that a member is among the eligible
-- ones exactly when it is eligible itself.
unfoldable pub skipped_members : HomeownerOperation → List String
skipped_members op = sorted_set (ids_of (filter (λ m. not (is_eligible m)) op.members))

-- `len(set(l)) == len(l)`
unfoldable pub all_distinct : List String → Bool
all_distinct [] = true
all_distinct (s ∷ l) = not (contains s l) && all_distinct l

unfoldable pub scope_valid : Engine → List String → Option String → Bool
scope_valid e ids group =
    not (length ids == 0)
    && (leb (length ids) max_entities
        && (not (any (λ id. not (accepts_entity e id)) ids)
            && (all_distinct ids && elim group [
              | none ↦ length ids == 1
              | some g ↦ ltb 0 (count g) && leb (count g) 256
            ])))

-- `len(self._latest_sequence.keys() | set(ids))` for distinct `ids`
unfoldable pub tracked_count : Dict String ℕ → List String → ℕ
tracked_count latest ids =
    length latest + length (filter (λ id. not (contains id (keys latest))) ids)

-- The refusals that come before the operation is consumed, in their order.
unfoldable pub early_refusal : Operations → HomeownerOperation → Option String
early_refusal s op =
    let intent = classify_intent op.evidence in
    let ids = ids_of op.members in
    if not intent.allows_homeowner_mutation
    then some intent.reason
    else if not (op.generation == s.engine.generation)
    then some "stale configuration generation"
    else if op.operation_id == "" || (ltb 256 (count op.operation_id) || ltb op.sequence 1)
    then some "invalid operation identity or sequence"
    else if any (λ entry. entry.0 == op.operation_id) s.seen
    then some "duplicate operation"
    else if leb op.sequence s.retired_sequence
    then some "stale receipt outside bounded deduplication window"
    else if is_stale s.engine op.expected
    then some "stale runtime work token"
    else if not (scope_valid s.engine ids op.group_id)
    then some "explicit exact operation scope is required"
    else if not (op.kind == "appearance") && not (op.kind == "off")
    then some "unsupported operation"
    else if ltb max_entities (tracked_count s.latest_sequence ids)
    then some "operation entity capacity exceeded"
    else none

abbrev pub latest_of : Dict String ℕ → String → ℕ
latest_of latest id = elim (lookup id latest) [ none ↦ 0 | some n ↦ n ]

-- `m.appearance is None or not m.appearance.is_valid() or m.appearance.on is not True`
unfoldable pub appearance_incomplete : Option Appearance → Bool
appearance_incomplete none = true
appearance_incomplete (some a) = not (is_valid a) || not (is_bool true a.on)

-- The refusals that come after the operation is consumed.
unfoldable pub late_refusal : Operations → HomeownerOperation → List MemberOutcome → Option String
late_refusal s op eligible =
    if length eligible == 0
    then some "no successful available members; no replay"
    else if any (λ m. leb op.sequence (latest_of s.latest_sequence m.entity_id)) eligible
    then some "stale successful intent; newer operation already recorded"
    else if op.kind == "appearance" && any (λ m. appearance_incomplete m.appearance) eligible
    then some "Manual appearance is incomplete or invalid"
    else if op.kind == "appearance"
        && any (λ m. op.require_legacy_policy && not (is_some m.manual_precedence)) eligible
    then some "Manual precedence policy is required for appearance ownership"
    else none
