-- ===== src/Findings/Attested/All.antt =====
-- `derive_findings` as a whole.
use docker_map.Common.{◌≡◌, refl, List, [], Option, none, some, ◌>>=◌, All, Text}
use docker_map.Common.Maps.{text_Ord}
use docker_map.Common.Pairs.{pair_Ord}
use docker_map.Common.Sort.{sort_by_key, All-sort_by_key}
use docker_map.Models.{RuntimeMode}
use docker_map.Models.Runtime.{RuntimeMapEdge, Finding, RuntimeMap}
use docker_map.Findings.Survey.{Survey, survey}
use docker_map.Findings.Ends.{for_each}
use docker_map.Findings.Derive.{rules, all_rules, finding_key, unless_mock, derive_findings}
use docker_map.Findings.Attested.Loops.{Yields, Yields-for_each}
use docker_map.Findings.Attested.Sound.{
  IsAttested, Ruled, not_current-Ruled, identity_collision-Ruled, unspecified_address-Ruled,
  requires_not_active-Ruled, part_of_not_active-Ruled, daemon_state_publishes_port-Ruled,
  mutual_dependency-Ruled, compose_target_not_active-Ruled, daemon_state-Ruled,
  internal_network-Ruled,
}
use docker_map.Common.Sort.{IsOrdered, sort_by_key-IsOrdered}
use docker_map.Common.Members.{All-Occurs}

module _ (digest : Text → Text) (runtime_map : RuntimeMap) where
  abbrev P : Finding → Type 0
  P = IsAttested runtime_map

  abbrev loop : (Survey → RuntimeMapEdge → Option (List Finding)) → Option (List Finding)
  loop rule = for_each (rule (survey runtime_map)) runtime_map.edges

  looped :
      (rule : Survey → RuntimeMapEdge → Option (List Finding))
      → Ruled digest runtime_map rule
      → Yields P (loop rule)
  looped rule h = Yields-for_each P (rule (survey runtime_map)) runtime_map.edges h

  rules-Ruled : All (Ruled digest runtime_map) (rules digest)
  rules-Ruled = (
    not_current-Ruled digest runtime_map,
    (
      identity_collision-Ruled digest runtime_map,
      (
        unspecified_address-Ruled digest runtime_map,
        (
          requires_not_active-Ruled digest runtime_map,
          (
            part_of_not_active-Ruled digest runtime_map,
            (
              daemon_state_publishes_port-Ruled digest runtime_map,
              (
                mutual_dependency-Ruled digest runtime_map,
                (
                  compose_target_not_active-Ruled digest runtime_map,
                  (
                    daemon_state-Ruled digest runtime_map,
                    (internal_network-Ruled digest runtime_map, tt),
                  ),
                ),
              ),
            ),
          ),
        ),
      ),
    ),
  )

  all_rules-attested : Yields P (all_rules digest (survey runtime_map) runtime_map.edges)
  unfolding all_rules
  all_rules-attested = Yields-for_each P _ (rules digest) (λ rule o.
      looped rule (All-Occurs (Ruled digest runtime_map) (rules digest) rule rules-Ruled o))

  -- The outcome of a derivation: a list of findings, in the order of their keys, all attested.
  abbrev IsSound : Option (List Finding) → Type 0
  IsSound r =
      (findings : List Finding) × (r ≡ some findings)
      × All P findings
      × IsOrdered finding_key findings

  sorted-IsSound :
      (r : Option (List Finding))
      → Yields P r
      → IsSound (r >>= λ findings. some (sort_by_key finding_key findings))
  sorted-IsSound none h = absurd h
  sorted-IsSound (some findings) h = (
    sort_by_key finding_key findings,
    refl,
    All-sort_by_key finding_key P findings h,
    sort_by_key-IsOrdered finding_key findings,
  )

  by_source :
      (mode : Option RuntimeMode) (r : Option (List Finding))
      → IsSound r
      → IsSound (unless_mock mode r)
  unfolding unless_mock
  by_source none r h = h
  by_source (some RuntimeMode.docker) r h = h
  by_source (some RuntimeMode.mock) r h = ([], refl, tt, tt)

  -- Deriving the findings of any map does not panic. Every finding names two nodes of the map
  -- that share their identity with no other node, is about an edge between them, has the severity
  -- of its rule, and cites the valid evidence of that edge and of at most one edge more; and the
  -- findings are in the order of identity, subject and target.
  pub derive_findings_sound :
      (findings : List Finding) × (derive_findings digest runtime_map ≡ some findings)
      × All (IsAttested runtime_map) findings
      × IsOrdered finding_key findings
  unfolding derive_findings
  derive_findings_sound = by_source runtime_map.source _ (sorted-IsSound _ all_rules-attested)
