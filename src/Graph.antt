-- ===== src/Graph.antt =====
-- crates/dockermap-core/src/snapshot_runtime.rs: the graph of a snapshot, with the indexes that keep
-- ambiguous identities out of its edges. A reference to a container is its position in the snapshot
-- with the record, since the code compares references by `std::ptr::eq`.
pub mod Identity
pub mod Aliases
pub mod Edges
pub mod Ports
mod Tests
use docker_map.Common.{
  ℕ, suc, ◌+◌, ◌≡◌, Bool, true, false, not, ◌&&◌, ◌||◌, List, [], ◌∷◌, ◌++◌, map, Option, none,
  some, ◌==◌, if◌then◌else◌, ◌>>=◌, unwrap_or, Text, codes, text_eq, text_lt, is_empty,
  strip_prefix,
}
use docker_map.Common.Maps.{Map, get, alter, text_Ord}
use docker_map.Models.{
  ContainerRecord, NetworkRecord, VolumeRecord, DockerSnapshot, NodeKind, container_node,
  network_node, volume_node, RelationshipKind, connected_to, mounts_on, GraphNode, GraphEdge,
  GraphResponse,
}
use docker_map.Graph.Identity.{
  GraphIdentityIndex, from_snapshot, has_unique_node_id, has_unique_network_id,
  has_unique_container_id,
}
use docker_map.Graph.Aliases.{
  ContainerRef, ContainerAliases, from_containers, has_unique_name, resolve_dependency, enumerate,
}

pub nodes_of : DockerSnapshot → List GraphNode
nodes_of s =
    map (λ c. record { id = c.id; kind = container_node; label = c.name }) s.containers
    ++ (map (λ n. record { id = n.id; kind = network_node; label = n.name }) s.networks
        ++ map (λ v. record { id = v.id; kind = volume_node; label = v.name }) s.volumes)

abbrev push_volume :
    VolumeRecord → List Text → Map Text (List VolumeRecord) → Map Text (List VolumeRecord)
push_volume v [] m = m
push_volume v (attached ∷ rest) m =
    push_volume v rest (alter attached (λ vs. unwrap_or [] vs ++ v ∷ []) m)

-- `volume_by_attached_container`.
pub volumes_by_container :
    List VolumeRecord → Map Text (List VolumeRecord) → Map Text (List VolumeRecord)
volumes_by_container [] m = m
volumes_by_container (v ∷ vs) m = volumes_by_container vs (push_volume v v.attached_to m)

abbrev pub edge : Text → Text → RelationshipKind → GraphEdge
edge source target relationship = record {
  source = source;
  target = target;
  relationship = relationship;
}

pub network_edges : GraphIdentityIndex → ContainerRecord → List Text → List GraphEdge
network_edges ids c [] = []
network_edges ids c (network ∷ rest) =
    (if has_unique_container_id ids c
        && (has_unique_network_id ids network && has_unique_node_id ids network)
      then edge c.id network connected_to ∷ []
      else [])
    ++ network_edges ids c rest

pub volume_edges : GraphIdentityIndex → ContainerRecord → List VolumeRecord → List GraphEdge
volume_edges ids c [] = []
volume_edges ids c (v ∷ vs) =
    (if has_unique_container_id ids c && has_unique_node_id ids v.id
      then edge c.id v.id mounts_on ∷ []
      else [])
    ++ volume_edges ids c vs

pub dependency_edges :
    ContainerAliases → GraphIdentityIndex → ContainerRef → List Text → List GraphEdge
dependency_edges aliases ids (i, c) [] = []
dependency_edges aliases ids (i, c) (dependency ∷ rest) =
    elim (resolve_dependency aliases dependency) [
      | none ↦ []
      | some (j, target) ↦
          if not (has_unique_container_id ids c)
            || (not (has_unique_container_id ids target) || i == j)
          then []
          else edge c.id target.id connected_to ∷ []
    ]
    ++ dependency_edges aliases ids (i, c) rest

pub container_edges :
    ContainerAliases
    → GraphIdentityIndex
    → Map Text (List VolumeRecord)
    → List ContainerRef
    → List GraphEdge
container_edges aliases ids volumes [] = []
container_edges aliases ids volumes ((i, c) ∷ rest) =
    network_edges ids c c.networks
    ++ ((if has_unique_name aliases (i, c)
          then volume_edges ids c (unwrap_or [] (get c.name volumes))
          else [])
        ++ (dependency_edges aliases ids (i, c) c.depends_on
            ++ container_edges aliases ids volumes rest))

-- `sort_by_key`, which is stable, and `dedup`.
module _ {A : Type 0} (key : A → Text) (same : A → A → Bool) where
  pub place : A → List A → List A
  place a [] = a ∷ []
  place a (x ∷ xs) = if text_lt (key x) (key a) then x ∷ place a xs else a ∷ x ∷ xs

  pub sort_by_key : List A → List A
  sort_by_key [] = []
  sort_by_key (x ∷ xs) = place x (sort_by_key xs)

  pub dedup : List A → List A
  dedup [] = []
  dedup (x ∷ []) = x ∷ []
  dedup (x ∷ y ∷ xs) = let rest = dedup (y ∷ xs) in if same x y then rest else x ∷ rest

abbrev kind_eq : NodeKind → NodeKind → Bool
kind_eq container_node container_node = true
kind_eq network_node network_node = true
kind_eq volume_node volume_node = true
kind_eq _ _ = false

abbrev relationship_eq : RelationshipKind → RelationshipKind → Bool
relationship_eq connected_to connected_to = true
relationship_eq mounts_on mounts_on = true
relationship_eq _ _ = false

abbrev pub node_eq : GraphNode → GraphNode → Bool
node_eq a b = text_eq a.id b.id && (kind_eq a.kind b.kind && text_eq a.label b.label)

abbrev pub edge_eq : GraphEdge → GraphEdge → Bool
edge_eq a b =
    text_eq a.source b.source
    && (text_eq a.target b.target && relationship_eq a.relationship b.relationship)

-- The sort keys are the JSON texts that `serde_json` writes.
module _ (node_key : GraphNode → Text) (edge_key : GraphEdge → Text) where
  pub derive_graph : DockerSnapshot → GraphResponse
  derive_graph s =
      let refs = enumerate 0 s.containers in
      let edges =
        container_edges (from_containers refs) (from_snapshot s) (volumes_by_container s.volumes [])
          refs in
      record {
        nodes = dedup node_key node_eq (sort_by_key node_key node_eq (nodes_of s));
        edges = dedup edge_key edge_eq (sort_by_key edge_key edge_eq edges);
      }
