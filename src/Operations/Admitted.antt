-- ===== src/Operations/Admitted.antt =====
-- What holds of an operation that passes the checks of `_apply`.
use Prim.Native.String.{count}
use home_lighting_manager.Common.{
  ◌≤◌, ◌<◌, String, Bool, true, false, not, ◌&&◌, none, some, Option, List, ◌≡◌, ◌⊎◌, inl, inr,
  refl, arith, nat_eq, string_eq, ◌==◌, any, length, leb, is_some, Bool-cases,
}
use home_lighting_manager.Intent.{classify_intent}
use home_lighting_manager.Engine.State.{Engine, max_entities, is_stale, accepts_entity}
use home_lighting_manager.Operations.Record.{
  HomeownerOperation, MemberOutcome, Operations, early_refusal, late_refusal, scope_valid,
  all_distinct, ids_of, latest_of, tracked_count, appearance_incomplete,
}

-- The early checks that pass.
pub record IsAdmissible (s : Operations) (op : HomeownerOperation) : Type 0 where
  pub allowed : (classify_intent op.evidence).allows_homeowner_mutation ≡ true
  pub generation : op.generation ≡ s.engine.generation
  pub numbered : 0 < op.sequence
  pub named : (op.operation_id == "") ≡ false
  pub short : count op.operation_id ≤ 256
  pub unseen : any (λ entry. entry.0 == op.operation_id) s.seen ≡ false
  pub recent : s.retired_sequence < op.sequence
  pub token : is_stale s.engine op.expected ≡ false
  pub some_member : 0 < length (ids_of op.members)
  pub few_members : length (ids_of op.members) ≤ max_entities
  pub managed : any (λ m. not (accepts_entity s.engine m)) (ids_of op.members) ≡ false
  pub distinct : all_distinct (ids_of op.members) ≡ true
  pub grouped :
      ((op.group_id ≡ none) × (length (ids_of op.members) ≡ 1))
      ⊎ ((g : String) × (op.group_id ≡ some g) × (0 < count g) × (count g ≤ 256))
  pub supported : (op.kind ≡ "appearance") ⊎ (op.kind ≡ "off")
  pub tracked : tracked_count s.latest_sequence (ids_of op.members) ≤ max_entities

scope_valid-IsScope :
    (e : Engine) (ids : List String) (group : Option String)
    → scope_valid e ids group ≡ true
    → (0 < length ids)
      × (length ids ≤ max_entities)
      × (any (λ id. not (accepts_entity e id)) ids ≡ false)
      × (all_distinct ids ≡ true)
      × (((group ≡ none) × (length ids ≡ 1))
          ⊎ ((g : String) × (group ≡ some g) × (0 < count g) × (count g ≤ 256)))
unfolding scope_valid
scope_valid-IsScope e ids none h =
    (ground arith, ground arith, ground arith, ground arith, inl (refl, ground arith))
scope_valid-IsScope e ids (some g) h = (
  ground arith,
  ground arith,
  ground arith,
  ground arith,
  inr (g, refl, ground arith, ground arith),
)

supported_of :
    (kind : String)
    → (not (kind == "appearance") && not (kind == "off")) ≡ false
    → (kind ≡ "appearance") ⊎ (kind ≡ "off")
supported_of kind h = elim (Bool-cases (kind == "appearance")) [
  | inl yes' ↦ inl (ground (arith, yes'))
  | inr no' ↦ inr (ground (arith, h, no'))
]

pub early_refusal-none :
    (s : Operations) (op : HomeownerOperation) → early_refusal s op ≡ none → IsAdmissible s op
unfolding early_refusal
early_refusal-none s op h =
    let scope = scope_valid-IsScope s.engine (ids_of op.members) op.group_id (ground arith) in
    record {
      allowed = ground arith;
      generation = ground arith;
      numbered = ground arith;
      unseen = ground arith;
      recent = ground arith;
      named = ground arith;
      short = ground arith;
      token = ground arith;
      some_member = scope.0;
      few_members = scope.1;
      managed = scope.2;
      distinct = scope.3;
      grouped = scope.4;
      supported = supported_of op.kind (ground arith);
      tracked = ground arith;
    }

required-any :
    (b : Bool) (l : List MemberOutcome)
    → any (λ m. b && not (is_some m.manual_precedence)) l ≡ false
    → (b ≡ false) ⊎ (any (λ m. not (is_some m.manual_precedence)) l ≡ false)
required-any false l h = inl refl
required-any true l h = inr h

-- The late checks that pass.
pub record IsTimely (s : Operations) (op : HomeownerOperation) (eligible : List MemberOutcome)
    : Type 0 where
  pub some_eligible : 0 < length eligible
  pub newer : any (λ m. leb op.sequence (latest_of s.latest_sequence m.entity_id)) eligible ≡ false
  pub complete :
      ((op.kind == "appearance") ≡ false)
      ⊎ (any (λ m. appearance_incomplete m.appearance) eligible ≡ false)
  pub policy :
      ((op.kind == "appearance") ≡ false)
      ⊎ (op.require_legacy_policy ≡ false)
      ⊎ (any (λ m. not (is_some m.manual_precedence)) eligible ≡ false)

pub late_refusal-none :
    (s : Operations) (op : HomeownerOperation) (eligible : List MemberOutcome)
    → late_refusal s op eligible ≡ none
    → IsTimely s op eligible
unfolding late_refusal
late_refusal-none s op eligible h = record {
  some_eligible = ground arith;
  newer = ground arith;
  complete = elim (Bool-cases (op.kind == "appearance")) [
    | inl yes' ↦ inr (ground arith)
    | inr no' ↦ inl no'
  ];
  policy = elim (Bool-cases (op.kind == "appearance")) [
    | inl yes' ↦ inr (required-any op.require_legacy_policy eligible (ground arith))
    | inr no' ↦ inl no'
  ];
}
