-- ===== src/Graph/Tests.antt =====
-- Runs of the graph on a small snapshot, with sort keys that are the first identity.
use docker_map.Common.{
  ◌≡◌, ◌⊎◌, refl, true, ◌++◌, arith, false, List, [], ◌∷◌, none, All, Text, codes, text_eq, text_lt,
  is_empty, strip_prefix, length,
}
use docker_map.Common.Maps.{get, insert}
use docker_map.Models.{ContainerRecord, DockerSnapshot}
use docker_map.Graph.{
  derive_graph, container_edges, network_edges, volume_edges, dependency_edges, sort_by_key, place,
  dedup, nodes_of, volumes_by_container,
}
use docker_map.Graph.Identity.{
  from_snapshot, count_all, count, has_unique_container_id, has_unique_network_id,
  has_unique_node_id,
}
use docker_map.Graph.Aliases.{
  from_containers, insert_all, insert_alias, has_unique_name, resolve_dependency, agree,
}
use docker_map.Graph.Edges.{IsResolved, derive_graph-IsResolved}
use docker_map.Common.Decimal.{to_string}
use docker_map.Graph.Ports.{
  is_port, is_protocol, is_host_published_docker_port, is_host_published_docker_port_sound,
  is_host_published_docker_port-to_string,
}

abbrev container : Text → Text → List Text → ContainerRecord
container id name depends_on = record {
  id = id;
  name = name;
  image = [];
  status = [];
  role = name;
  networks = codes "n" ∷ [];
  ports = [];
  publishes_on_unspecified_address = false;
  mounts = [];
  depends_on = depends_on;
}

-- `web` depends on `db`; the network is not unique, as a container has its identity too.
abbrev snapshot : DockerSnapshot
snapshot = record {
  containers =
      container (codes "1") (codes "web") (codes "container_db" ∷ [])
      ∷ container (codes "2") (codes "db") []
      ∷ container (codes "n") (codes "odd") []
      ∷ [];
  images = [];
  networks =
      record { id = codes "n"; name = codes "n"; driver = []; internal = false; members = [] } ∷ [];
  volumes = [];
  last_updated = 0;
  model_revision = [];
  source = none;
}

derive_graph-IsResolved_example :
    All (IsResolved snapshot) (derive_graph (λ n. n.id) (λ e. e.source) snapshot).edges
derive_graph-IsResolved_example = derive_graph-IsResolved (λ n. n.id) (λ e. e.source) snapshot

-- Only the dependency becomes an edge.
one_edge : length (derive_graph (λ n. n.id) (λ e. e.source) snapshot).edges ≡ 1
unfolding derive_graph container_edges network_edges volume_edges dependency_edges sort_by_key place
    dedup from_snapshot count_all count has_unique_container_id has_unique_network_id
    has_unique_node_id from_containers insert_all insert_alias has_unique_name resolve_dependency
    agree nodes_of volumes_by_container get insert text_eq text_lt is_empty strip_prefix
one_edge = refl

udp : is_protocol (codes "udp") ≡ true
unfolding is_protocol text_eq
udp = refl

is_host_published_docker_port-to_string_example :
    is_host_published_docker_port (to_string 8080 ++ b':' ∷ (to_string 80 ++ b'/' ∷ codes "udp"))
    ≡ true
is_host_published_docker_port-to_string_example =
    is_host_published_docker_port-to_string 8080 80 (codes "udp") (omega arith) (omega arith)
      (omega arith) (omega arith) udp

is_host_published_docker_port_sound_example :
    (host private protocol : Text) × (to_string 8080 ++ b':' ∷ (to_string 80 ++ b'/' ∷ codes "udp")
      ≡ host ++ b':' ∷ (private ++ b'/' ∷ protocol))
    × (is_port host ≡ true)
    × (is_port private ≡ true)
    × ((protocol ≡ codes "tcp") ⊎ ((protocol ≡ codes "udp") ⊎ (protocol ≡ codes "sctp")))
is_host_published_docker_port_sound_example =
    is_host_published_docker_port_sound
      (to_string 8080 ++ b':' ∷ (to_string 80 ++ b'/' ∷ codes "udp"))
      (is_host_published_docker_port-to_string 8080 80 (codes "udp") (omega arith) (omega arith)
        (omega arith) (omega arith) udp)
