-- ===== src/Findings/Derive.antt =====
-- `derive_findings`: the loops in their order, and the sort at the end.
use docker_map.Common.{List, [], ◌∷◌, Option, none, some, ◌>>=◌, Text}
use docker_map.Common.Maps.{text_Ord}
use docker_map.Common.Pairs.{pair_Ord}
use docker_map.Common.Sort.{sort_by_key}
use docker_map.Models.{RuntimeMode}
use docker_map.Models.Kinds.{
  runtime_provider_kind_Enum, runtime_node_kind_Enum, runtime_relationship_kind_Enum,
}
use docker_map.Models.Runtime.{RuntimeMapEdge, Finding, RuntimeMap}
use docker_map.Findings.Survey.{Survey, survey}
use docker_map.Findings.Ends.{for_each}
use docker_map.Findings.Rules.{
  not_current, identity_collision, unspecified_address, requires_not_active, part_of_not_active,
  daemon_state_publishes_port, mutual_dependency, compose_target_not_active, daemon_state,
  internal_network,
}

abbrev pub finding_key : Finding → Text × (Text × Text)
finding_key f = (f.id, (f.subject_ref, f.target_ref))

-- A mock topology yields no finding.
unfoldable pub unless_mock : Option RuntimeMode → Option (List Finding) → Option (List Finding)
unless_mock (some RuntimeMode.mock) findings = some []
unless_mock (some RuntimeMode.docker) findings = findings
unless_mock none findings = findings

module _ (digest : Text → Text) where
  -- The bodies of the loops, in their order.
  abbrev pub rules : List (Survey → RuntimeMapEdge → Option (List Finding))
  rules =
      not_current digest
      ∷ identity_collision digest
      ∷ unspecified_address digest
      ∷ requires_not_active digest
      ∷ part_of_not_active digest
      ∷ daemon_state_publishes_port digest
      ∷ mutual_dependency digest
      ∷ compose_target_not_active digest
      ∷ daemon_state digest
      ∷ internal_network digest
      ∷ []

  unfoldable pub all_rules : Survey → List RuntimeMapEdge → Option (List Finding)
  all_rules s edges = for_each (λ rule. for_each (rule s) edges) rules

  unfoldable pub derive_findings : RuntimeMap → Option (List Finding)
  unfolding all_rules unless_mock
  derive_findings runtime_map = unless_mock runtime_map.source (do
    findings ← all_rules (survey runtime_map) runtime_map.edges
    some (sort_by_key finding_key findings))
