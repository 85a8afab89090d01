-- ===== src/Compose/Correlate.antt =====
-- crates/dockermap-core/src/compose.rs: `correlate_compose_runtime`, which sets the declared mounts
-- beside those of the containers.
pub mod Found
pub mod First
pub mod Loops
pub mod Rows
pub mod Told
use docker_map.Common.{
  Bool, true, false, not, ◌&&◌, ◌||◌, List, [], ◌∷◌, ◌++◌, map, filter, Option, none, some, Text,
  codes, text_eq, ends_with,
}
use docker_map.Common.Enums.{◌=?◌}
use docker_map.Common.Maps.{Set, contains_key, insert, text_Ord}
use docker_map.Common.Sort.{sort_by_key}
use docker_map.Models.{ComposeMountKind, ContainerMount, ContainerRecord, DockerSnapshot}
use docker_map.Models.Compose.{
  ComposeMount, ComposeService, ComposeScan, MountCorrelation, MountCorrelationStatus,
  compose_mount_kind_Enum,
}
use docker_map.Findings.Shapes.{first}
use docker_map.Compose.Binding.{option_text_eq, or_else}
use docker_map.Common.Members.{find, flat_map}

unfoldable pub container_matches_service : ContainerRecord → Text → Bool
container_matches_service container service =
    text_eq container.role service
    || (text_eq container.name service
        || (ends_with (codes "_" ++ service ++ codes "_1") container.name
            || ends_with (codes "-" ++ service ++ codes "-1") container.name))

abbrev pub source_for : ComposeMountKind → ComposeMount → Option Text
source_for ComposeMountKind.bind mount = or_else mount.resolved_source mount.source
source_for ComposeMountKind.named_volume mount = mount.source
source_for ComposeMountKind.anonymous_volume mount = mount.source
source_for ComposeMountKind.unsupported mount = mount.source

unfoldable pub declared_mount_source : ComposeMount → Option Text
declared_mount_source mount = source_for mount.kind mount

abbrev pub same_kind_source : ComposeMountKind → ComposeMount → ContainerMount → Bool
same_kind_source ComposeMountKind.bind mount runtime =
    option_text_eq (declared_mount_source mount) runtime.source
same_kind_source ComposeMountKind.named_volume mount runtime =
    option_text_eq (declared_mount_source mount) runtime.source
same_kind_source ComposeMountKind.anonymous_volume mount runtime = true
same_kind_source ComposeMountKind.unsupported mount runtime = false

unfoldable pub mounts_match : ComposeMount → ContainerMount → Bool
mounts_match mount runtime =
    (mount.kind =? runtime.kind)
    && (text_eq mount.target runtime.target && same_kind_source mount.kind mount runtime)

-- `find_map`: the first container with a mount that matches, and the mount.
unfoldable pub find_match :
    ComposeMount → List ContainerRecord → Option (ContainerRecord × ContainerMount)
find_match mount [] = none
find_match mount (container ∷ containers) = elim (find (mounts_match mount) container.mounts) [
  | none ↦ find_match mount containers
  | some runtime_mount ↦ some (container, runtime_mount)
]

abbrev pub containers_of : DockerSnapshot → Text → List ContainerRecord
containers_of snapshot service =
    filter (λ container. container_matches_service container service) snapshot.containers

abbrev pub matched_correlation : ComposeMount → ContainerRecord × ContainerMount → MountCorrelation
matched_correlation mount (container, runtime_mount) = record {
  id = codes "matched:" ++ mount.id;
  service = mount.service;
  container = some container.name;
  compose_mount_id = some mount.id;
  kind = mount.kind;
  target = mount.target;
  declared_source = declared_mount_source mount;
  runtime_source = runtime_mount.source;
  status = MountCorrelationStatus.matched;
}

abbrev pub name_of : Option ContainerRecord → Option Text
name_of none = none
name_of (some container) = some container.name

abbrev pub missing_correlation : ComposeMount → List ContainerRecord → MountCorrelation
missing_correlation mount containers = record {
  id = codes "missing:" ++ mount.id;
  service = mount.service;
  container = name_of (first containers);
  compose_mount_id = some mount.id;
  kind = mount.kind;
  target = mount.target;
  declared_source = declared_mount_source mount;
  runtime_source = none;
  status = MountCorrelationStatus.missing;
}

abbrev pub extra_correlation : ComposeService → ContainerRecord → ContainerMount → MountCorrelation
extra_correlation service container runtime_mount = record {
  id = codes "extra:" ++ container.id ++ codes ":" ++ runtime_mount.id;
  service = service.name;
  container = some container.name;
  compose_mount_id = none;
  kind = runtime_mount.kind;
  target = runtime_mount.target;
  declared_source = none;
  runtime_source = runtime_mount.source;
  status = MountCorrelationStatus.extra;
}

-- `matched_runtime_mounts` and `correlations`.
abbrev pub Correlating : Type 0
Correlating = Set Text × List MountCorrelation

abbrev pub tell_mount :
    ComposeMount
    → List ContainerRecord
    → Option (ContainerRecord × ContainerMount)
    → Correlating
    → Correlating
tell_mount mount containers none (matched, correlations) =
    (matched, correlations ++ missing_correlation mount containers ∷ [])
tell_mount mount containers (some found) (matched, correlations) =
    (insert found.1.id tt matched, correlations ++ matched_correlation mount found ∷ [])

-- The loop over the declared mounts.
unfoldable pub correlate_mounts : DockerSnapshot → Correlating → List ComposeMount → Correlating
correlate_mounts snapshot c [] = c
correlate_mounts snapshot c (mount ∷ mounts) =
    let containers = containers_of snapshot mount.service in
    correlate_mounts snapshot (tell_mount mount containers (find_match mount containers) c) mounts

-- The loops over the services, their containers and the mounts of these.
unfoldable pub extras : DockerSnapshot → Set Text → List ComposeService → List MountCorrelation
extras snapshot matched services =
    flat_map
      (λ service.
        flat_map
          (λ container.
            map (extra_correlation service container)
              (filter (λ r. not (contains_key r.id matched)) container.mounts))
          (containers_of snapshot service.name))
      services

unfoldable pub correlate_compose_runtime : ComposeScan → DockerSnapshot → List MountCorrelation
unfolding correlate_mounts extras
correlate_compose_runtime scan snapshot =
    let (matched, correlations) = correlate_mounts snapshot ([], []) scan.mounts in
    sort_by_key (λ c. c.id) (correlations ++ extras snapshot matched scan.services)
