-- ===== src/Compose/Graph.antt =====
-- crates/dockermap-core/src/compose.rs: `derive_compose_graph`, the graph of the declared mounts. The
-- SHA-256 digest is a parameter.
pub mod Index
pub mod Closed
use Prim.Native.String.{String}
use docker_map.Common.{
  Bool, List, [], ◌∷◌, ◌++◌, map, Option, none, some, if◌then◌else◌, Text, codes,
}
use docker_map.Common.Maps.{Map, contains_key, insert, text_Ord}
use docker_map.TopologyId.{collision_resistant_id_component}
use docker_map.Models.{ComposeMountKind}
use docker_map.Models.Compose.{
  ComposeMount, ComposeService, ComposeScan, ComposeNodeKind, ComposeRelationshipKind,
  ComposeGraphNode, ComposeGraphEdge, ComposeGraph,
}
use docker_map.Compose.Binding.{or_else}

abbrev pub NodesById : Type 0
NodesById = Map Text ComposeGraphNode

-- `entry(id).or_insert(node)`.
abbrev pub or_insert : ComposeGraphNode → NodesById → NodesById
or_insert node nodes = if contains_key node.id nodes then nodes else insert node.id node nodes

-- `into_values`.
abbrev pub values : NodesById → List ComposeGraphNode
values nodes = map (λ entry. entry.1) nodes

module _ (digest : Text → Text) where
  unfoldable pub compose_service_node_id : Text → Text
  compose_service_node_id service =
      codes "compose_service_" ++ collision_resistant_id_component digest service

  abbrev pub service_node : Text → ComposeGraphNode
  service_node name = record {
    id = compose_service_node_id name;
    kind = ComposeNodeKind.service;
    label = name;
  }

  unfoldable pub service_nodes : NodesById → List ComposeService → NodesById
  service_nodes nodes [] = nodes
  service_nodes nodes (service ∷ services) =
      service_nodes (or_insert (service_node service.name) nodes) services

  abbrev pub target_node : ComposeMount → ComposeGraphNode
  target_node mount = record {
    id =
        codes "compose_container_path_"
        ++ collision_resistant_id_component digest mount.service
        ++ codes "_"
        ++ collision_resistant_id_component digest mount.target;
    kind = ComposeNodeKind.container_path;
    label = mount.service ++ codes ":" ++ mount.target;
  }

  abbrev pub from_source : String → ComposeNodeKind → Text → ComposeGraphNode
  from_source prefix kind source = record {
    id = codes prefix ++ collision_resistant_id_component digest source;
    kind = kind;
    label = source;
  }

  abbrev pub source_node_for : ComposeMountKind → ComposeMount → Option ComposeGraphNode
  source_node_for ComposeMountKind.bind mount = elim (or_else mount.resolved_source mount.source) [
    | none ↦ none
    | some source ↦ some (from_source "compose_host_path_" ComposeNodeKind.host_path source)
  ]
  source_node_for ComposeMountKind.named_volume mount = elim mount.source [
    | none ↦ none
    | some source ↦ some (from_source "compose_named_volume_" ComposeNodeKind.named_volume source)
  ]
  source_node_for ComposeMountKind.anonymous_volume mount = some (record {
    id = codes "compose_anonymous_volume_" ++ collision_resistant_id_component digest mount.id;
    kind = ComposeNodeKind.anonymous_volume;
    label = codes "anonymous volume";
  })
  source_node_for ComposeMountKind.unsupported mount = none

  abbrev pub declares : ComposeMount → ComposeGraphEdge
  declares mount = record {
    source = compose_service_node_id mount.service;
    target = (target_node mount).id;
    relationship = ComposeRelationshipKind.declares_mount;
  }

  abbrev pub mounted : ComposeGraphNode → ComposeMount → ComposeGraphEdge
  mounted source mount = record {
    source = source.id;
    target = (target_node mount).id;
    relationship = ComposeRelationshipKind.mounted_at;
  }

  -- The body of the loop over the mounts, on the nodes and the edges so far.
  abbrev pub with_source :
      Option ComposeGraphNode
      → ComposeMount
      → NodesById × List ComposeGraphEdge
      → NodesById × List ComposeGraphEdge
  with_source none mount (nodes, edges) = (nodes, edges)
  with_source (some source) mount (nodes, edges) =
      (or_insert source nodes, edges ++ mounted source mount ∷ [])

  unfoldable pub add_mount :
      ComposeMount → NodesById × List ComposeGraphEdge → NodesById × List ComposeGraphEdge
  add_mount mount (nodes, edges) = with_source (source_node_for mount.kind mount) mount (
    or_insert (target_node mount) (or_insert (service_node mount.service) nodes),
    edges ++ declares mount ∷ [],
  )

  unfoldable pub add_mounts :
      NodesById × List ComposeGraphEdge → List ComposeMount → NodesById × List ComposeGraphEdge
  unfolding add_mount
  add_mounts graph [] = graph
  add_mounts graph (mount ∷ mounts) = add_mounts (add_mount mount graph) mounts

  unfoldable pub derive_compose_graph : ComposeScan → ComposeGraph
  unfolding service_nodes add_mounts
  derive_compose_graph scan =
      let graph = add_mounts (service_nodes [] scan.services, []) scan.mounts in
      record { nodes = values graph.0; edges = graph.1 }
