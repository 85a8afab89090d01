-- ===== src/Publication/Topology.antt =====
-- The published topology: `redact_runtime_map`, with the edges that still lead between nodes, and
-- the fact that identities collide. The keys are the JSON texts by which `serde_json` sorts.
pub mod Ordered
pub mod Shown
pub mod Closed
pub mod Collision
use docker_map.Common.{
  ℕ, Bool, true, false, not, ◌&&◌, ◌||◌, List, [], ◌∷◌, ◌++◌, map, none, some, if◌then◌else◌,
  filter, any, ltb, Text, codes, text_eq, is_empty, ◌==◌, is_some, Option,
}
use docker_map.Common.Enums.{◌=?◌}
use docker_map.Common.Maps.{Map, Set, insert, contains_key, text_Ord, get}
use docker_map.Common.Sort.{sort_by_key}
use docker_map.Common.Counts.{counts_by}
use docker_map.Slots.Slot.{slot_eq}
use docker_map.Models.Kinds.{
  RuntimeProviderKind, RuntimeNodeKind, RuntimeRelationshipKind, RuntimeNodeLayer,
  runtime_relationship_kind_Enum,
}
use docker_map.Models.EvidenceKinds.{
  RuntimeEvidenceProvider, RuntimeEvidenceAssertionKind, RuntimeEvidenceKind,
  RuntimeEvidenceFreshness, runtime_evidence_provider_Enum, runtime_evidence_assertion_kind_Enum,
  runtime_evidence_kind_Enum, runtime_evidence_freshness_Enum,
}
use docker_map.Models.Runtime.{RuntimeMapNode, RuntimeEvidenceRef, RuntimeMapEdge, RuntimeMap}
use docker_map.Publication.Entities.{redact_runtime_node, redact_runtime_edge, redact_diagnostic}

-- The derived equality of edges.
abbrev option_eq : {A : Type 0} → (A → A → Bool) → Option A → Option A → Bool
option_eq eq none none = true
option_eq eq (some a) (some b) = eq a b
option_eq eq _ _ = false

abbrev list_eq : {A : Type 0} → (A → A → Bool) → List A → List A → Bool
list_eq eq [] [] = true
list_eq eq (a ∷ xs) (b ∷ ys) = eq a b && list_eq eq xs ys
list_eq eq _ _ = false

unfoldable pub evidence_eq : RuntimeEvidenceRef → RuntimeEvidenceRef → Bool
evidence_eq a b =
    (a.version == b.version)
    && (text_eq a.id b.id
        && ((a.provider =? b.provider)
            && ((a.kind =? b.kind)
                && ((a.assertion_kind =? b.assertion_kind)
                    && (text_eq a.summary b.summary
                        && (text_eq a.subject_ref b.subject_ref
                            && ((a.collected_at == b.collected_at)
                                && (text_eq a.provider_revision b.provider_revision
                                    && (option_eq slot_eq a.provider_slot b.provider_slot
                                        && (a.freshness =? b.freshness))))))))))

unfoldable pub edge_eq : RuntimeMapEdge → RuntimeMapEdge → Bool
unfolding evidence_eq
edge_eq a b =
    text_eq a.source b.source
    && (text_eq a.target b.target
        && ((a.relationship =? b.relationship)
            && (list_eq (λ x y. text_eq x.0 y.0 && text_eq x.1 y.1) a.metadata b.metadata
                && list_eq evidence_eq a.evidence_refs b.evidence_refs)))

-- `dedup`: an item that equals the one before it goes.
unfoldable pub dedup_after : RuntimeMapEdge → List RuntimeMapEdge → List RuntimeMapEdge
dedup_after last [] = []
dedup_after last (edge ∷ edges) =
    let kept = edge ∷ dedup_after edge edges in
    let skipped = dedup_after last edges in if edge_eq last edge then skipped else kept

unfoldable pub dedup : List RuntimeMapEdge → List RuntimeMapEdge
unfolding dedup_after
dedup [] = []
dedup (edge ∷ edges) = edge ∷ dedup_after edge edges

-- The identities as a `BTreeSet`.
unfoldable pub node_ids : List RuntimeMapNode → Set Text
node_ids [] = []
node_ids (node ∷ nodes) = insert node.id tt (node_ids nodes)

abbrev pub leads : Set Text → RuntimeMapEdge → Bool
leads ids edge = contains_key edge.source ids && contains_key edge.target ids

unfoldable pub duplicate_runtime_node_ids : List RuntimeMapNode → Map Text ℕ
duplicate_runtime_node_ids nodes =
    filter (λ entry. ltb 1 entry.1) (counts_by (λ n. n.id) (λ n. true) nodes)

unfoldable pub runtime_map_has_identity_collision : RuntimeMap → Bool
unfolding duplicate_runtime_node_ids
runtime_map_has_identity_collision runtime_map =
    any (λ entry. true) (duplicate_runtime_node_ids runtime_map.nodes)

unfoldable pub scope_id : Text
scope_id = codes "runtime_integrity_scope"

unfoldable pub risk_id : Text
risk_id = codes "runtime_integrity_risk_identity_collision"

abbrev pub advisory_node : Text → RuntimeNodeKind → Text → RuntimeMapNode
advisory_node id kind label = record {
  id = id;
  provider = RuntimeProviderKind.other;
  kind = kind;
  label = label;
  status = none;
  layer = some RuntimeNodeLayer.advisory;
  metadata = [];
  service = none;
  package_entity = none;
}

abbrev pub scope_node : RuntimeMapNode
scope_node =
    advisory_node scope_id RuntimeNodeKind.integrity_scope (codes "Runtime identity integrity")

abbrev pub risk_node : RuntimeMapNode
risk_node =
    advisory_node risk_id RuntimeNodeKind.host_risk (codes "Duplicate runtime topology identity")

unfoldable pub collision_summary : Text
collision_summary =
    codes "DockerMap detected duplicate runtime identities after publication normalization"

abbrev pub collision_evidence : Text → ℕ → RuntimeEvidenceRef
collision_evidence provider_revision collected_at = record {
  version = 7;
  id = codes "dockermap_evidence_runtime_identity_collision";
  provider = RuntimeEvidenceProvider.dockermap;
  kind = RuntimeEvidenceKind.runtime_identity_collision;
  assertion_kind = RuntimeEvidenceAssertionKind.observed;
  summary = collision_summary;
  subject_ref = scope_id;
  collected_at = collected_at;
  provider_revision = provider_revision;
  provider_slot = none;
  freshness = RuntimeEvidenceFreshness.fresh;
}

abbrev pub collision_edge : Text → ℕ → RuntimeMapEdge
collision_edge provider_revision collected_at = record {
  source = scope_id;
  target = risk_id;
  relationship = RuntimeRelationshipKind.related_to;
  metadata = [];
  evidence_refs = collision_evidence provider_revision collected_at ∷ [];
}

abbrev pub is_reserved : RuntimeMapNode → Bool
is_reserved node = text_eq node.id scope_id || text_eq node.id risk_id

module _ (node_key : RuntimeMapNode → Text) (edge_key : RuntimeMapEdge → Text) where
  unfoldable pub normalize_runtime_map_topology : RuntimeMap → RuntimeMap
  unfolding node_ids dedup
  normalize_runtime_map_topology runtime_map =
      let nodes = sort_by_key node_key runtime_map.nodes in
      let ids = node_ids nodes in
      record runtime_map {
        nodes = nodes;
        edges = dedup (sort_by_key edge_key (filter (leads ids) runtime_map.edges));
      }

  -- The map after the call, and the result.
  unfoldable pub append_runtime_identity_collision_fact : RuntimeMap → Text → ℕ → RuntimeMap × Bool
  append_runtime_identity_collision_fact runtime_map provider_revision collected_at =
      if is_empty provider_revision || any is_reserved runtime_map.nodes
      then (runtime_map, false)
      else (
        record runtime_map {
          nodes = sort_by_key node_key (runtime_map.nodes ++ (scope_node ∷ risk_node ∷ []));
          edges =
              sort_by_key edge_key
                (runtime_map.edges ++ (collision_edge provider_revision collected_at ∷ []));
        },
        true,
      )

module _ (node_key : RuntimeMapNode → Text) (edge_key : RuntimeMapEdge → Text)
    (evidence_key : RuntimeEvidenceRef → Text) where
  unfoldable pub redact_runtime_map : RuntimeMap → RuntimeMap
  unfolding normalize_runtime_map_topology
  redact_runtime_map runtime_map =
      normalize_runtime_map_topology node_key edge_key (record runtime_map {
        nodes = map redact_runtime_node runtime_map.nodes;
        edges = map (redact_runtime_edge evidence_key) runtime_map.edges;
        diagnostics = map redact_diagnostic runtime_map.diagnostics;
      })
