-- ===== src/Publication/Entities.antt =====
-- The redaction of each published entity: every text of it that a provider controls passes the
-- boundary. `evidence_key` is the JSON of a reference, by which references are sorted.
use docker_map.Common.{ℕ, not, List, [], map, Option, none, some, if◌then◌else◌, Text}
use docker_map.Common.Maps.{Map, text_Ord}
use docker_map.Common.Sort.{sort_by_key}
use docker_map.Models.Runtime.{
  RuntimeHealth, RuntimeLogRef, RuntimeOwnership, RuntimeLocation, RuntimeServiceEntity,
  RuntimePackageAdvisory, RuntimePackageUpdate, RuntimePackageEntity, RuntimeMapNode,
  RuntimeEvidenceRef, RuntimeMapEdge, RuntimeMapDiagnostic,
}
use docker_map.Models.Evidence.{has_valid_evidence_refs}
use docker_map.Publication.Sensitive.{redact_runtime_display_text, truncate_chars}

abbrev pub max_runtime_evidence_text_chars : ℕ
max_runtime_evidence_text_chars = 256

abbrev pub published_text : Text → Text
published_text = redact_runtime_display_text

-- `if let Some(value) = &mut field`.
abbrev pub within : {A : Type 0} → (A → A) → Option A → Option A
within f none = none
within f (some a) = some (f a)

abbrev pub redact_values : Map Text Text → Map Text Text
redact_values = map (λ entry. (entry.0, published_text entry.1))

unfoldable pub redact_ownership : RuntimeOwnership → RuntimeOwnership
redact_ownership owner = record owner {
  name = published_text owner.name;
  id = within published_text owner.id;
}

unfoldable pub redact_location : RuntimeLocation → RuntimeLocation
redact_location location = record location {
  value = published_text location.value;
  detail = within published_text location.detail;
}

unfoldable pub redact_health : RuntimeHealth → RuntimeHealth
redact_health health = record health {
  source = within published_text health.source;
  message = within published_text health.message;
}

unfoldable pub redact_log : RuntimeLogRef → RuntimeLogRef
redact_log log = record log { id = published_text log.id; source = published_text log.source }

unfoldable pub redact_service_entity : RuntimeServiceEntity → RuntimeServiceEntity
redact_service_entity service = record service {
  name = published_text service.name;
  dependencies = map published_text service.dependencies;
  dependents = map published_text service.dependents;
  health = within redact_health service.health;
  logs = map redact_log service.logs;
  owner = within redact_ownership service.owner;
  location = within redact_location service.location;
}

unfoldable pub redact_advisory : RuntimePackageAdvisory → RuntimePackageAdvisory
redact_advisory advisory = record advisory {
  id = published_text advisory.id;
  title = published_text advisory.title;
  source = published_text advisory.source;
  fixed_version = within published_text advisory.fixed_version;
  url = within published_text advisory.url;
}

unfoldable pub redact_update : RuntimePackageUpdate → RuntimePackageUpdate
redact_update update = record update {
  current_version = published_text update.current_version;
  latest_version = within published_text update.latest_version;
  advisories = map redact_advisory update.advisories;
}

unfoldable pub redact_package_entity : RuntimePackageEntity → RuntimePackageEntity
redact_package_entity package_entity = record package_entity {
  name = published_text package_entity.name;
  version = published_text package_entity.version;
  dependencies = map published_text package_entity.dependencies;
  dependents = map published_text package_entity.dependents;
  update = within redact_update package_entity.update;
  owner = within redact_ownership package_entity.owner;
  location = within redact_location package_entity.location;
}

unfoldable pub redact_runtime_node : RuntimeMapNode → RuntimeMapNode
redact_runtime_node node = record node {
  id = published_text node.id;
  label = published_text node.label;
  status = within published_text node.status;
  metadata = redact_values node.metadata;
  service = within redact_service_entity node.service;
  package_entity = within redact_package_entity node.package_entity;
}

abbrev pub published_bounded : Text → Text
published_bounded value = truncate_chars (published_text value) max_runtime_evidence_text_chars

unfoldable pub redact_evidence : RuntimeEvidenceRef → RuntimeEvidenceRef
redact_evidence evidence = record evidence {
  subject_ref = published_text evidence.subject_ref;
  id = published_bounded evidence.id;
  summary = published_bounded evidence.summary;
  provider_revision = published_bounded evidence.provider_revision;
}

unfoldable pub redact_diagnostic : RuntimeMapDiagnostic → RuntimeMapDiagnostic
redact_diagnostic diagnostic = record diagnostic { message = published_text diagnostic.message }

-- Evidence that does not attest the edge any more is dropped.
unfoldable pub attesting : RuntimeMapEdge → RuntimeMapEdge
attesting edge =
    if not (has_valid_evidence_refs edge) then record edge { evidence_refs = [] } else edge

module _ (evidence_key : RuntimeEvidenceRef → Text) where
  abbrev pub redact_runtime_evidence_refs : List RuntimeEvidenceRef → List RuntimeEvidenceRef
  redact_runtime_evidence_refs refs = sort_by_key evidence_key (map redact_evidence refs)

  unfoldable pub redact_runtime_edge : RuntimeMapEdge → RuntimeMapEdge
  redact_runtime_edge edge = attesting (record edge {
    source = published_text edge.source;
    target = published_text edge.target;
    metadata = redact_values edge.metadata;
    evidence_refs = redact_runtime_evidence_refs edge.evidence_refs;
  })
