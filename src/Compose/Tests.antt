-- ===== src/Compose/Tests.antt =====
-- The comparison at one declared mount and one bound container.
use docker_map.Common.{
  is_ascii_digit, ◌≡◌, ◌↔◌, refl, true, false, List, [], ◌∷◌, some, Occurs, Text, codes, text_eq,
  text_lt, is_empty,
}
use docker_map.Common.Counts.{counts_by}
use docker_map.Common.Maps.{insert, get, text_Ord}
use docker_map.Common.Sort.{IsOrdered, sort_by_key}
use docker_map.Models.{ComposeMountKind, ContainerMount}
use docker_map.Models.Runtime.{Finding}
use docker_map.Models.Compose.{ComposeMount, ComposeScan}
use docker_map.Compose.Binding.{
  ComposeRuntimeBinding, set_of, is_docker_container_id, is_unfit_container, is_unusable,
  mounts_match, is_candidate, evidence, evidence_summary, missing_mount, mount_findings,
  mounts_findings, derive_compose_runtime_mount_findings,
}
use docker_map.Common.{All, ends_with}
use docker_map.Models.{RuntimeMode, DockerSnapshot}
use docker_map.Models.Compose.{MountCorrelation, MountCorrelationStatus}
use docker_map.Compose.Graph.{compose_service_node_id, declares, derive_compose_graph}
use docker_map.Compose.Graph.Closed.{HasNode, IsAscending, derive_compose_graph-IsClosed}
use docker_map.Compose.Correlate
use docker_map.Compose.Correlate.{
  container_matches_service, declared_mount_source, find_match, correlate_mounts, extras,
  correlate_compose_runtime,
}
use docker_map.Compose.Correlate.Rows.{IsExtraRow}
use docker_map.Compose.Correlate.Told.{AreDeclaredRows, correlate_compose_runtime_lem}
use mathlib.Core.List.{Perm, ◌++◌}
use docker_map.Compose.Missing.{disclosed, TellsFrom}
use docker_map.Compose.Exact.{derive_compose_runtime_mount_findings_exact}

abbrev plain : Text → Text
plain s = codes "0f"

abbrev data_mount : ComposeMount
data_mount = record {
  id = codes "mount-api-0";
  service = codes "api";
  kind = ComposeMountKind.bind;
  source = some (codes "./data");
  resolved_source = some (codes "/project/data");
  target = codes "/data";
  read_only = false;
  origin = record {
    file = codes "/project/compose.yaml";
    service = some (codes "api");
    field = codes "services.api.volumes[0]";
  };
}

abbrev scan : ComposeScan
scan = record {
  files = codes "/project/compose.yaml" ∷ [];
  project_root = codes "/project";
  services = [];
  mounts = data_mount ∷ [];
  correlations = [];
  diagnostics = [];
}

abbrev api_id : Text
api_id = codes "aaaaaaaaaaaaaaaaaaaaaaaaaaaaaaaaaaaaaaaaaaaaaaaaaaaaaaaaaaaaaaaa"

abbrev bound_with : List ContainerMount → ComposeRuntimeBinding
bound_with mounts = record {
  project = codes "demo";
  config_files = (codes "/project/compose.yaml", tt) ∷ [];
  containers =
      record {
        container_id = api_id;
        project = codes "demo";
        service = codes "api";
        config_files = (codes "/project/compose.yaml", tt) ∷ [];
        mounts = mounts;
      }
      ∷ [];
  collected_at = 42;
  provider_revision = codes "opaque-observation";
  fresh = true;
}

abbrev runtime_mount : ContainerMount
runtime_mount = record {
  id = codes "private";
  kind = ComposeMountKind.bind;
  source = some (codes "/project/data");
  target = codes "/data";
  read_only = false;
}

abbrev absent : Finding
absent = disclosed plain (bound_with []) 0 api_id

absent_found : derive_compose_runtime_mount_findings plain scan (bound_with []) ≡ some (absent ∷ [])
unfolding derive_compose_runtime_mount_findings mounts_findings mount_findings missing_mount
    evidence evidence_summary is_candidate mounts_match is_unusable is_unfit_container
    is_docker_container_id set_of counts_by insert get sort_by_key text_eq text_lt is_empty
    is_ascii_digit
absent_found = refl

present_silent :
    derive_compose_runtime_mount_findings plain scan (bound_with (runtime_mount ∷ [])) ≡ some []
unfolding derive_compose_runtime_mount_findings mounts_findings mount_findings missing_mount
    evidence evidence_summary is_candidate mounts_match is_unusable is_unfit_container
    is_docker_container_id set_of counts_by insert get sort_by_key text_eq text_lt is_empty
    is_ascii_digit
present_silent = refl

derive_compose_runtime_mount_findings_exact_example :
    (findings : List Finding) × (derive_compose_runtime_mount_findings plain scan (bound_with [])
      ≡ some findings)
    × IsOrdered (λ g. g.id) findings
    × (Occurs absent findings ↔ (
        (is_unusable scan (bound_with []) ≡ false)
        × TellsFrom plain (bound_with []) 0 scan.mounts absent))
derive_compose_runtime_mount_findings_exact_example =
    derive_compose_runtime_mount_findings_exact plain scan (bound_with []) absent

derive_compose_graph-IsClosed_example :
    IsAscending (derive_compose_graph plain scan).nodes
    × All
        (λ e.
          HasNode (derive_compose_graph plain scan).nodes e.source
          × HasNode (derive_compose_graph plain scan).nodes e.target)
        (derive_compose_graph plain scan).edges
    × All
        (λ s.
          HasNode (derive_compose_graph plain scan).nodes (compose_service_node_id plain s.name))
        scan.services
    × All (λ m. Occurs (declares plain m) (derive_compose_graph plain scan).edges) scan.mounts
derive_compose_graph-IsClosed_example = derive_compose_graph-IsClosed plain scan

abbrev snapshot_with : List ContainerMount → DockerSnapshot
snapshot_with mounts = record {
  containers =
      record {
        id = api_id;
        name = codes "demo-api-1";
        image = codes "api:latest";
        status = codes "running";
        role = codes "backend";
        networks = [];
        ports = [];
        publishes_on_unspecified_address = false;
        mounts = mounts;
        depends_on = [];
      }
      ∷ [];
  images = [];
  networks = [];
  volumes = [];
  last_updated = 42;
  model_revision = codes "1";
  source = some RuntimeMode.docker;
}

abbrev statuses : List MountCorrelation → List MountCorrelationStatus
statuses [] = []
statuses (c ∷ cs) = c.status ∷ statuses cs

mount_matched :
    statuses (correlate_compose_runtime scan (snapshot_with (runtime_mount ∷ [])))
    ≡ MountCorrelationStatus.matched ∷ []
unfolding correlate_compose_runtime correlate_mounts extras find_match Correlate.mounts_match
    declared_mount_source container_matches_service ends_with sort_by_key insert get text_eq text_lt
mount_matched = refl

mount_missing :
    statuses (correlate_compose_runtime scan (snapshot_with []))
    ≡ MountCorrelationStatus.missing ∷ []
unfolding correlate_compose_runtime correlate_mounts extras find_match Correlate.mounts_match
    declared_mount_source container_matches_service ends_with sort_by_key insert get text_eq text_lt
mount_missing = refl

abbrev matching : DockerSnapshot
matching = snapshot_with (runtime_mount ∷ [])

correlate_compose_runtime_lem_example :
    (rows : List MountCorrelation) × (others : List MountCorrelation) × Perm
      (correlate_compose_runtime scan matching)
      (rows ++ others)
    × IsOrdered (λ c. c.id) (correlate_compose_runtime scan matching)
    × AreDeclaredRows matching scan.mounts rows
    × ((f : MountCorrelation) → Occurs f others ↔ IsExtraRow matching scan f)
correlate_compose_runtime_lem_example = correlate_compose_runtime_lem scan matching
