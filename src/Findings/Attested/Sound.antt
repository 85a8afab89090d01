-- ===== src/Findings/Attested/Sound.antt =====
-- Each rule of findings.rs and the evidence that its findings cite.
use docker_map.Common.{
  Occurs, ◌≡◌, ◌⊎◌, inl, inr, refl, Bool, true, false, ◌&&◌, List, [], ◌∷◌, Option, arith,
  if◌then◌else◌, All, Text, text_eq_sound, Bool-cases,
}
use docker_map.Common.Maps.{get, text_Ord}
use docker_map.Common.Pairs.{pair_Ord}
use docker_map.Common.Counts.{is_one}
use docker_map.Models.Runtime.{
  RuntimeMapNode, RuntimeMapEdge, RuntimeEvidenceRef, FindingSeverity, FindingRule, Finding,
  RuntimeMap,
}
use docker_map.Findings.Shapes.{Nodes}
use docker_map.Findings.Candidates.{is_candidate_internal_network_membership}
use docker_map.Findings.Survey.{Survey, survey, unique_nodes, ends_of}
use docker_map.Findings.Ends.{systemd_ends, target_not_active, about}
use docker_map.Findings.Rules.{
  member_publishes, not_current, identity_collision, unspecified_address, requires_not_active,
  part_of_not_active, daemon_state_publishes_port, mutual_dependency, compose_target_not_active,
  daemon_state, internal_network,
}
use docker_map.Findings.Attested.Cited
use docker_map.Findings.Attested.Cited.{Cites, IsCited, HasEnds, ends-found}
use docker_map.Findings.Attested.Loops.{Yields, Yields-for_each, Yields-single, Yields-pair}
use docker_map.Findings.Attested.Nodes.{count_id, unique_nodes-count_id}
use docker_map.Common.Members.{filter_sound, find_sound}

-- The severity that belongs to each rule.
abbrev pub severity_of : FindingRule → FindingSeverity
severity_of FindingRule.systemd_requires_target_not_active = FindingSeverity.warning
severity_of FindingRule.docker_daemon_state_bind_mount = FindingSeverity.warning
severity_of FindingRule.docker_daemon_state_bind_mount_publishes_port = FindingSeverity.warning
severity_of _ = FindingSeverity.advisory

module _ (edges : List RuntimeMapEdge) where
  -- A finding about an edge cites its one piece of evidence first. A second piece is all that
  -- another edge has, which starts at the same subject or leads back to it.
  abbrev pub Supports : RuntimeMapEdge → List RuntimeEvidenceRef → Type 0
  Supports edge [] = ⊥
  Supports edge (v ∷ []) = Cites edge v
  Supports edge (v ∷ w ∷ []) =
      Cites edge v
      × ((other : RuntimeMapEdge) × Occurs other edges
          × Cites other w
          × ((other.source ≡ edge.source)
              ⊎ ((other.source ≡ edge.target) × (other.target ≡ edge.source))))
  Supports edge (v ∷ w ∷ x ∷ rest) = ⊥

-- A finding is about one edge of the map, from a node to a node that no other node is confused
-- with; it has the severity of its rule and the evidence of the edge.
abbrev pub IsAttested : RuntimeMap → Finding → Type 0
IsAttested runtime_map f =
    (edge : RuntimeMapEdge) × Occurs edge runtime_map.edges
    × (f.subject_ref ≡ edge.source)
    × (f.target_ref ≡ edge.target)
    × (count_id f.subject_ref runtime_map.nodes ≡ 1)
    × (count_id f.target_ref runtime_map.nodes ≡ 1)
    × (f.severity ≡ severity_of f.rule_id)
    × Supports runtime_map.edges edge f.evidence_refs

module _ (digest : Text → Text) (runtime_map : RuntimeMap) where
  abbrev pub nodes : Nodes
  nodes = unique_nodes runtime_map.nodes

  -- The identity and the texts of a finding are free.
  attest :
      (edge : RuntimeMapEdge) (rule : FindingRule) (refs : List RuntimeEvidenceRef)
      → Occurs edge runtime_map.edges
      → HasEnds edge nodes
      → Supports runtime_map.edges edge refs
      → IsAttested runtime_map (about edge [] rule (severity_of rule) [] [] refs)
  attest edge rule refs o ends support = (
    edge,
    o,
    refl,
    refl,
    unique_nodes-count_id edge.source runtime_map.nodes ends.0,
    unique_nodes-count_id edge.target runtime_map.nodes ends.1,
    refl,
    support,
  )

  All-if :
      (b : Bool) (f : Finding)
      → (b ≡ true → IsAttested runtime_map f)
      → All (IsAttested runtime_map) (if b then f ∷ [] else [])
  All-if true f h = (h refl, tt)
  All-if false f h = tt

  abbrev pub Ruled : (Survey → RuntimeMapEdge → Option (List Finding)) → Type 0
  Ruled rule =
      (edge : RuntimeMapEdge)
      → Occurs edge runtime_map.edges
      → Yields (IsAttested runtime_map) (rule (survey runtime_map) edge)

  pub identity_collision-Ruled : Ruled (identity_collision digest)
  unfolding identity_collision survey
  identity_collision-Ruled edge o =
      Yields-single (IsAttested runtime_map) edge _ _
        (λ t. Cited.collision-IsCited edge nodes (ground arith))
        (λ v t cites. (
          attest edge FindingRule.runtime_identity_collision_detected (v ∷ []) o
              (Cited.collision-HasEnds edge nodes (ground arith)) cites,
          tt,
        ))

  pub unspecified_address-Ruled : Ruled (unspecified_address digest)
  unfolding unspecified_address survey
  unspecified_address-Ruled edge o =
      Yields-single (IsAttested runtime_map) edge _ _
        (λ t. Cited.unspecified-IsCited edge nodes (ground arith))
        (λ v t cites. (
          attest edge FindingRule.docker_port_published_on_unspecified_address (v ∷ []) o
              (Cited.unspecified-HasEnds edge nodes (ground arith)) cites,
          tt,
        ))

  pub compose_target_not_active-Ruled : Ruled (compose_target_not_active digest)
  unfolding compose_target_not_active survey
  compose_target_not_active-Ruled edge o =
      Yields-single (IsAttested runtime_map) edge _ _
        (λ t. Cited.compose_dependency-IsCited edge nodes (ground arith))
        (λ v t cites. (
          attest edge FindingRule.docker_compose_declared_target_not_active (v ∷ []) o
              (Cited.compose_dependency-HasEnds edge nodes (ground arith)) cites,
          tt,
        ))

  pub daemon_state-Ruled : Ruled (daemon_state digest)
  unfolding daemon_state survey
  daemon_state-Ruled edge o =
      Yields-single (IsAttested runtime_map) edge _ _
        (λ t. Cited.bind_mount-IsCited edge nodes (ground arith))
        (λ v t cites. (
          attest edge FindingRule.docker_daemon_state_bind_mount (v ∷ []) o
              (Cited.bind_mount-HasEnds edge nodes (ground arith)) cites,
          tt,
        ))

  systemd-HasEnds :
      (test : RuntimeMapNode → RuntimeMapNode → Bool) (edge : RuntimeMapEdge)
      → systemd_ends test edge nodes ≡ true
      → HasEnds edge nodes
  systemd-HasEnds test edge h = ends-found _ (get edge.source nodes) (get edge.target nodes) h

  pub not_current-Ruled : Ruled (not_current digest)
  unfolding not_current survey
  not_current-Ruled edge o =
      Yields-single (IsAttested runtime_map) edge _ _
        (λ t. Cited.non_current-IsCited edge (ground arith))
        (λ v t cites. (
          attest edge FindingRule.runtime_declared_relationship_evidence_not_current (v ∷ []) o
              (systemd-HasEnds (λ source target. true) edge (ground arith)) cites,
          tt,
        ))

  pub requires_not_active-Ruled : Ruled (requires_not_active digest)
  unfolding requires_not_active survey
  requires_not_active-Ruled edge o =
      Yields-single (IsAttested runtime_map) edge _ _
        (λ t. Cited.requires-IsCited edge (ground arith))
        (λ v t cites. All-if _ _ (λ h.
          attest edge FindingRule.systemd_requires_target_not_active (v ∷ []) o
            (systemd-HasEnds target_not_active edge h) cites))

  pub part_of_not_active-Ruled : Ruled (part_of_not_active digest)
  unfolding part_of_not_active survey
  part_of_not_active-Ruled edge o =
      Yields-single (IsAttested runtime_map) edge _ _
        (λ t. Cited.part_of-IsCited edge (ground arith))
        (λ v t cites. All-if _ _ (λ h.
          attest edge FindingRule.systemd_part_of_target_not_active (v ∷ []) o
            (systemd-HasEnds target_not_active edge h) cites))

  pub daemon_state_publishes_port-Ruled : Ruled (daemon_state_publishes_port digest)
  unfolding daemon_state_publishes_port survey
  daemon_state_publishes_port-Ruled edge o =
      Yields-pair (IsAttested runtime_map) edge _ _ _
        (λ t. Cited.bind_mount-IsCited edge nodes (ground arith))
        (λ e found.
          let passed = (find_sound _ runtime_map.edges found).1 in
          Cited.daemon_state_publication-IsCited e nodes (ground arith))
        (λ e v w t found cites cites'.
          let (there, passed) = find_sound _ runtime_map.edges found in
          All-if _ _ (λ h.
            attest edge FindingRule.docker_daemon_state_bind_mount_publishes_port (v ∷ w ∷ []) o
              (Cited.bind_mount-HasEnds edge nodes (ground arith))
              (cites, (e, there, cites', inl (text_eq_sound _ _ (ground arith))))))

  pub mutual_dependency-Ruled : Ruled (mutual_dependency digest)
  unfolding mutual_dependency survey
  mutual_dependency-Ruled edge o =
      Yields-pair (IsAttested runtime_map) edge _ _ _
        (λ t. Cited.compose_dependency-IsCited edge nodes (ground arith))
        (λ e found.
          let passed = (find_sound _ runtime_map.edges found).1 in
          Cited.compose_dependency-IsCited e nodes (ground arith))
        (λ e v w t found cites cites'.
          let (there, passed) = find_sound _ runtime_map.edges found in
          All-if _ _ (λ h.
            attest edge FindingRule.docker_compose_mutual_dependency (v ∷ w ∷ []) o
              (Cited.compose_dependency-HasEnds edge nodes (ground arith))
              (
                cites,
                (
                  e,
                  there,
                  cites',
                  inr (text_eq_sound _ _ (ground arith), text_eq_sound _ _ (ground arith)),
                ),
              )))

  member_publishes-IsAttested :
      (edge port_edge : RuntimeMapEdge)
      → Occurs edge runtime_map.edges
      → Occurs port_edge runtime_map.edges
      → HasEnds edge nodes
      → IsCited edge
      → IsCited port_edge
      → port_edge.source ≡ edge.source
      → Yields (IsAttested runtime_map) (member_publishes digest edge port_edge)
  unfolding member_publishes
  member_publishes-IsAttested edge port_edge o o' ends (v, cites) (w, cites') same = rw cites.1 (
      rw cites'.1 (
        attest edge FindingRule.docker_internal_network_member_publishes_port (v ∷ w ∷ []) o ends
            (cites, (port_edge, o', cites', inl same)),
        tt,
      ))

  pub internal_network-Ruled : Ruled (internal_network digest)
  unfolding internal_network survey
  internal_network-Ruled edge o =
      elim (Bool-cases (
        is_one (get (ends_of edge) (survey runtime_map).membership_counts)
        && is_candidate_internal_network_membership edge nodes)) [
          | inr out ↦ rw out tt
          | inl t ↦ rw t (
              Yields-for_each (IsAttested runtime_map) (member_publishes digest edge) _
                (λ port_edge within.
                  let (there, passed) = filter_sound _ runtime_map.edges port_edge within in
                  member_publishes-IsAttested edge port_edge o there
                    (Cited.membership-HasEnds edge nodes (ground arith))
                    (Cited.membership-IsCited edge nodes (ground arith))
                    (Cited.publication-IsCited port_edge nodes (ground arith))
                    (text_eq_sound _ _ (ground arith))))
        ]
