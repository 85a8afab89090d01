-- ===== src/Findings/Attested/Cited.antt =====
-- Each edge that a rule accepts has valid evidence, and one piece of it.
use docker_map.Common.{◌≡◌, refl, Bool, true, ◌&&◌, List, [], ◌∷◌, arith, ◌==◌, length, some}
use docker_map.Common.{is_some, is_some_and, Option, none}
use docker_map.Common.Maps.{get, text_Ord}
use docker_map.Models.EvidenceKinds.{RuntimeEvidenceKind}
use docker_map.Models.Runtime.{RuntimeMapNode, RuntimeMapEdge, RuntimeEvidenceRef}
use docker_map.Models.Evidence.{has_valid_evidence_refs}
use docker_map.Findings.Shapes.{
  is_docker_container, is_docker_daemon_state_risk, is_docker_daemon_state_shape, is_docker_network,
  is_docker_membership_shape, Nodes, is_fresh_docker_evidence,
  is_candidate_docker_daemon_state_bind_mount,
}
use docker_map.Findings.Candidates.{
  is_runtime_integrity_scope, is_runtime_identity_collision_risk, is_unspecified_address_port_risk,
  is_unspecified_address_port_shape, is_candidate_runtime_identity_collision,
  is_candidate_unspecified_address_port, is_candidate_internal_network_membership,
  is_candidate_port_publication, is_candidate_docker_daemon_state_port_publication,
  is_candidate_requires, is_candidate_part_of, is_candidate_non_current_declared_relationship,
  is_candidate_compose_dependency,
}

-- The edge is valid, and this is all its evidence.
abbrev pub Cites : RuntimeMapEdge → RuntimeEvidenceRef → Type 0
Cites edge evidence = (has_valid_evidence_refs edge ≡ true) × (edge.evidence_refs ≡ evidence ∷ [])

abbrev pub IsCited : RuntimeMapEdge → Type 0
IsCited edge = (evidence : RuntimeEvidenceRef) × Cites edge evidence

sole :
    (refs : List RuntimeEvidenceRef)
    → (length refs == 1) ≡ true
    → (evidence : RuntimeEvidenceRef) × (refs ≡ evidence ∷ [])
sole [] h = absurd (cc)
sole (evidence ∷ []) h = (evidence, refl)
sole (a ∷ b ∷ refs) h = absurd (ground arith)

cited :
    (edge : RuntimeMapEdge)
    → has_valid_evidence_refs edge ≡ true
    → (length edge.evidence_refs == 1) ≡ true
    → IsCited edge
cited edge valid one = let (evidence, e) = sole edge.evidence_refs one in (evidence, (valid, e))

fresh-IsCited :
    (edge : RuntimeMapEdge) (kind : RuntimeEvidenceKind)
    → is_fresh_docker_evidence edge kind ≡ true
    → IsCited edge
unfolding is_fresh_docker_evidence
fresh-IsCited edge kind h = cited edge (ground arith) (ground arith)

pub bind_mount-IsCited :
    (edge : RuntimeMapEdge) (nodes : Nodes)
    → is_candidate_docker_daemon_state_bind_mount edge nodes ≡ true
    → IsCited edge
unfolding is_candidate_docker_daemon_state_bind_mount
bind_mount-IsCited edge nodes h =
    fresh-IsCited edge RuntimeEvidenceKind.docker_daemon_state_bind_mount (ground arith)

pub unspecified-IsCited :
    (edge : RuntimeMapEdge) (nodes : Nodes)
    → is_candidate_unspecified_address_port edge nodes ≡ true
    → IsCited edge
unfolding is_candidate_unspecified_address_port
unspecified-IsCited edge nodes h =
    fresh-IsCited edge RuntimeEvidenceKind.docker_unspecified_address_port_publication
      (ground arith)

pub membership-IsCited :
    (edge : RuntimeMapEdge) (nodes : Nodes)
    → is_candidate_internal_network_membership edge nodes ≡ true
    → IsCited edge
unfolding is_candidate_internal_network_membership
membership-IsCited edge nodes h =
    fresh-IsCited edge RuntimeEvidenceKind.docker_network_membership (ground arith)

pub publication-IsCited :
    (edge : RuntimeMapEdge) (nodes : Nodes)
    → is_candidate_port_publication edge nodes ≡ true
    → IsCited edge
unfolding is_candidate_port_publication
publication-IsCited edge nodes h =
    fresh-IsCited edge RuntimeEvidenceKind.docker_port_publication (ground arith)

pub daemon_state_publication-IsCited :
    (edge : RuntimeMapEdge) (nodes : Nodes)
    → is_candidate_docker_daemon_state_port_publication edge nodes ≡ true
    → IsCited edge
unfolding is_candidate_docker_daemon_state_port_publication
daemon_state_publication-IsCited edge nodes h =
    fresh-IsCited edge RuntimeEvidenceKind.docker_port_publication (ground arith)

pub compose_dependency-IsCited :
    (edge : RuntimeMapEdge) (nodes : Nodes)
    → is_candidate_compose_dependency edge nodes ≡ true
    → IsCited edge
unfolding is_candidate_compose_dependency
compose_dependency-IsCited edge nodes h =
    fresh-IsCited edge RuntimeEvidenceKind.docker_compose_depends_on (ground arith)

pub collision-IsCited :
    (edge : RuntimeMapEdge) (nodes : Nodes)
    → is_candidate_runtime_identity_collision edge nodes ≡ true
    → IsCited edge
unfolding is_candidate_runtime_identity_collision
collision-IsCited edge nodes h = cited edge (ground arith) (ground arith)

pub requires-IsCited : (edge : RuntimeMapEdge) → is_candidate_requires edge ≡ true → IsCited edge
unfolding is_candidate_requires
requires-IsCited edge h = cited edge (ground arith) (ground arith)

pub part_of-IsCited : (edge : RuntimeMapEdge) → is_candidate_part_of edge ≡ true → IsCited edge
unfolding is_candidate_part_of
part_of-IsCited edge h = cited edge (ground arith) (ground arith)

pub non_current-IsCited :
    (edge : RuntimeMapEdge)
    → is_candidate_non_current_declared_relationship edge ≡ true
    → IsCited edge
unfolding is_candidate_non_current_declared_relationship
non_current-IsCited edge h = cited edge (ground arith) (ground arith)

-- Both ends of the edge are nodes of one identity each.
abbrev pub HasEnds : RuntimeMapEdge → Nodes → Type 0
HasEnds edge nodes =
    (is_some (get edge.source nodes) ≡ true) × (is_some (get edge.target nodes) ≡ true)

pub ends-found :
    (test : RuntimeMapNode → RuntimeMapNode → Bool) (source target : Option RuntimeMapNode)
    → is_some_and (λ a. is_some_and (test a) target) source ≡ true
    → (is_some source ≡ true) × (is_some target ≡ true)
ends-found test none target h = absurd (cc)
ends-found test (some a) none h = absurd (cc)
ends-found test (some a) (some b) h = (refl, refl)

pub collision-HasEnds :
    (edge : RuntimeMapEdge) (nodes : Nodes)
    → is_candidate_runtime_identity_collision edge nodes ≡ true
    → HasEnds edge nodes
unfolding is_candidate_runtime_identity_collision
collision-HasEnds edge nodes h =
    ends-found
      (λ source target.
        is_runtime_integrity_scope source && is_runtime_identity_collision_risk target)
      (get edge.source nodes) (get edge.target nodes) (ground arith)

pub unspecified-HasEnds :
    (edge : RuntimeMapEdge) (nodes : Nodes)
    → is_candidate_unspecified_address_port edge nodes ≡ true
    → HasEnds edge nodes
unfolding is_candidate_unspecified_address_port is_unspecified_address_port_shape
unspecified-HasEnds edge nodes h =
    ends-found
      (λ source target. is_docker_container source && is_unspecified_address_port_risk target)
      (get edge.source nodes) (get edge.target nodes) (ground arith)

pub bind_mount-HasEnds :
    (edge : RuntimeMapEdge) (nodes : Nodes)
    → is_candidate_docker_daemon_state_bind_mount edge nodes ≡ true
    → HasEnds edge nodes
unfolding is_candidate_docker_daemon_state_bind_mount is_docker_daemon_state_shape
bind_mount-HasEnds edge nodes h =
    ends-found (λ source target. is_docker_container source && is_docker_daemon_state_risk target)
      (get edge.source nodes) (get edge.target nodes) (ground arith)

pub membership-HasEnds :
    (edge : RuntimeMapEdge) (nodes : Nodes)
    → is_candidate_internal_network_membership edge nodes ≡ true
    → HasEnds edge nodes
unfolding is_candidate_internal_network_membership is_docker_membership_shape
membership-HasEnds edge nodes h =
    ends-found (λ source target. is_docker_container source && is_docker_network target)
      (get edge.source nodes) (get edge.target nodes) (ground arith)

pub compose_dependency-HasEnds :
    (edge : RuntimeMapEdge) (nodes : Nodes)
    → is_candidate_compose_dependency edge nodes ≡ true
    → HasEnds edge nodes
unfolding is_candidate_compose_dependency
compose_dependency-HasEnds edge nodes h =
    ends-found (λ source target. is_docker_container source && is_docker_container target)
      (get edge.source nodes) (get edge.target nodes) (ground arith)
