-- ===== src/Projection.antt =====
-- custom_components/home_lighting_manager/projection.py: the read-only view of desired ownership.
pub mod View
use home_lighting_manager.Common.{
  ℕ, String, Bool, true, false, not, ◌&&◌, Option, none, some, List, [], ◌∷◌, map, if◌then◌else◌,
  filter, contains, string_eq,
}
use home_lighting_manager.Common.Dict.{Dict}
use home_lighting_manager.Common.Text.{Names, sorted_set, intersection}
use home_lighting_manager.Model.{OwnershipLayer, Appearance, LayerKind, is_automatic}
use home_lighting_manager.Engine.State.{Engine, resolve, layers, layer_eligible}
use home_lighting_manager.Engine.Groups.{is_nonempty}

pub record Underlying : Type 0 where
  pub owner : String
  pub family : Option String
  pub session_id : Option String

-- The record of an entity that some layer owns; `desired` is the dict of the appearance.
pub record OwnedView : Type 0 where
  pub owner : String
  pub kind : LayerKind
  pub desired : Option Appearance
  pub is_protected : Bool
  pub underlying_automatic : List Underlying
  pub layer_id : String
  pub group_id : Option String
  pub family : Option String
  pub session_id : Option String

-- The record of an entity: `unowned` is the record of four empty entries.
pub data EntityView : Type 0 where
  unowned : EntityView
  owned : OwnedView → EntityView

pub record OwnershipView : Type 0 where
  pub authority_id : String
  pub generation : ℕ
  pub revision : ℕ
  pub entities : Dict String EntityView
  pub groups : Dict String (List String)

abbrev underlying_of : OwnershipLayer → Underlying
underlying_of item = record {
  owner = item.owner;
  family = item.family;
  session_id = item.session_id;
}

unfoldable pub underlying_automatic : Engine → String → List Underlying
underlying_automatic e entity =
    map underlying_of
      (filter (λ item. is_automatic item.kind && layer_eligible e entity item) (layers e entity))

unfoldable pub view_of : Engine → String → Option OwnershipLayer → EntityView
view_of e entity none = unowned
view_of e entity (some layer) = owned (record {
  owner = layer.owner;
  kind = layer.kind;
  desired = layer.appearance;
  is_protected = not (is_automatic layer.kind);
  underlying_automatic = underlying_automatic e entity;
  layer_id = layer.layer_id;
  group_id = layer.group_id;
  family = layer.family;
  session_id = layer.session_id;
})

unfoldable pub group_views : List String → Dict String (List String) → Dict String (List String)
group_views entities [] = []
group_views entities ((g, members) ∷ groups) =
    let shared = sorted_set (intersection members entities) in
    if is_nonempty shared
    then (g, shared) ∷ group_views entities groups
    else group_views entities groups

unfoldable pub effective_ownership :
    Engine → List String → Dict String (List String) → OwnershipView
effective_ownership e entities groups =
    let scope = sorted_set entities in
    record {
      authority_id = e.authority_id;
      generation = e.generation;
      revision = e.revision;
      entities = map (λ entity. (entity, view_of e entity (resolve e entity))) scope;
      groups = group_views scope groups;
    }
