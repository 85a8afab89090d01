-- ===== src/Publication/Tests.antt =====
-- The publication boundary at small inputs.
use docker_map.Common.{◌≡◌, ◌↔◌, true, false, map, All, Text, codes}
use docker_map.Common.Maps.{text_Ord}
use docker_map.Common.Sort.{IsOrdered}
use mathlib.Core.List.{Perm}
use docker_map.Models.Runtime.{RuntimeMapNode, RuntimeMapEdge, RuntimeEvidenceRef, RuntimeMap}
use docker_map.Publication.Sensitive.{is_sensitive_text, redact_runtime_display_text}
use docker_map.Publication.Safe.{IsDisplayable, redact_runtime_display_text_clean}
use docker_map.Publication.Topology.{runtime_map_has_identity_collision}
use docker_map.Publication.Topology.Shown.{IsClean, said, shown_of, diagnosed, diagnosed_shown}
use docker_map.Publication.Topology.Closed.{
  IsPublishedEdge, IsKept, published, redact_runtime_map_closed,
}
use docker_map.Publication.Told.{node_texts, value_texts}
use docker_map.Publication.Topology.Collision.{Some, Shares, runtime_map_has_identity_collision_iff}
use docker_map.Findings.Samples.{failing, doubled}

abbrev secret : Text
secret = codes "run --password=hunter2"

redact_runtime_display_text_clean_example :
    IsDisplayable (redact_runtime_display_text secret)
    × (is_sensitive_text (redact_runtime_display_text secret) ≡ false)
    × (redact_runtime_display_text (redact_runtime_display_text secret)
        ≡ redact_runtime_display_text secret)
redact_runtime_display_text_clean_example = redact_runtime_display_text_clean secret

abbrev node_id : RuntimeMapNode → Text
node_id n = n.id

abbrev edge_source : RuntimeMapEdge → Text
edge_source e = e.source

abbrev evidence_id : RuntimeEvidenceRef → Text
evidence_id v = v.id

abbrev shown : RuntimeMap
shown = published node_id edge_source evidence_id failing

redact_runtime_map_closed_example :
    Perm (map said shown.nodes) (map shown_of failing.nodes)
    × All (λ n. All IsClean (node_texts n)) shown.nodes
    × IsOrdered node_id shown.nodes
    × All (λ e. IsPublishedEdge shown.nodes e × All IsClean (value_texts e.metadata)) shown.edges
    × All (IsKept shown.nodes shown.edges) failing.edges
    × IsOrdered edge_source shown.edges
    × (map diagnosed shown.diagnostics ≡ map diagnosed_shown failing.diagnostics)
redact_runtime_map_closed_example =
    redact_runtime_map_closed node_id edge_source evidence_id failing

runtime_map_has_identity_collision_iff_example :
    (runtime_map_has_identity_collision doubled ≡ true) ↔ Some (Shares doubled.nodes) doubled.nodes
runtime_map_has_identity_collision_iff_example = runtime_map_has_identity_collision_iff doubled
