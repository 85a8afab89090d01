-- ===== src/Findings/Texts.antt =====
-- The fixed texts of the findings.
use docker_map.Common.{Text, codes}

pub requires_summary : Text
requires_summary = codes "An active systemd service requires a target that is inactive or failed"

pub requires_recommendation : Text
requires_recommendation =
    codes "Inspect the target service state and its declared dependency configuration."

pub part_of_summary : Text
part_of_summary = codes "An active systemd service is PartOf a unit that is inactive or failed."

pub part_of_recommendation : Text
part_of_recommendation =
    codes "Inspect the coupling target unit's state and the declaring unit's PartOf configuration."

pub declared_relationship_evidence_not_current_summary : Text
declared_relationship_evidence_not_current_summary =
    codes
      "A declared systemd dependency relationship is attested only by stale or timed-out evidence."

pub declared_relationship_evidence_not_current_recommendation : Text
declared_relationship_evidence_not_current_recommendation =
    codes
      "Inspect the systemd provider collection state before trusting dependency conclusions for this pair."

pub internal_network_port_summary : Text
internal_network_port_summary =
    codes "A container on an internal Docker network also has a published host port."

pub internal_network_port_recommendation : Text
internal_network_port_recommendation =
    codes "Review whether the host-port publication is intended for this internal-network service."

pub unspecified_address_port_summary : Text
unspecified_address_port_summary =
    codes "Docker reported a container port published on an unspecified host address."

pub unspecified_address_port_recommendation : Text
unspecified_address_port_recommendation =
    codes "Review whether publishing this container port beyond loopback is intended."

pub docker_daemon_state_summary : Text
docker_daemon_state_summary =
    codes "A container has Docker daemon state access that may provide Docker daemon API authority."

pub docker_daemon_state_recommendation : Text
docker_daemon_state_recommendation =
    codes "Review whether this container requires Docker daemon API authority."

pub docker_daemon_state_published_port_summary : Text
docker_daemon_state_published_port_summary =
    codes "A container with Docker daemon state access also has a published host port."

pub docker_daemon_state_published_port_recommendation : Text
docker_daemon_state_published_port_recommendation =
    codes "Review whether the daemon-state access and host-port publication are both intended."

pub compose_declared_target_not_active_summary : Text
compose_declared_target_not_active_summary =
    codes "A running Docker Compose service declares a dependency whose container is not active."

pub compose_declared_target_not_active_recommendation : Text
compose_declared_target_not_active_recommendation =
    codes "Review the declared dependency and the target container state."

pub compose_mutual_dependency_summary : Text
compose_mutual_dependency_summary =
    codes "Docker recorded mutually declared Compose dependencies between two containers."

pub compose_mutual_dependency_recommendation : Text
compose_mutual_dependency_recommendation =
    codes "Review the declared dependencies and remove any unintended mutual dependency."

pub runtime_identity_collision_summary : Text
runtime_identity_collision_summary =
    codes "DockerMap detected duplicate runtime identities after publication normalization."

pub runtime_identity_collision_recommendation : Text
runtime_identity_collision_recommendation =
    codes "Review the duplicate identity condition before relying on topology relationships."
