-- ===== src/Findings/Samples.antt =====
-- Small maps for the tests of the findings and of the publication.
use docker_map.Common.{List, [], ◌∷◌, none, some, Text, codes}
use docker_map.Slots.Slot.{ProviderSlot}
use docker_map.Models.Kinds.{RuntimeProviderKind, RuntimeNodeKind, RuntimeRelationshipKind}
use docker_map.Models.EvidenceKinds.{
  RuntimeEvidenceProvider, RuntimeEvidenceAssertionKind, RuntimeEvidenceKind,
  RuntimeEvidenceFreshness,
}
use docker_map.Models.Runtime.{RuntimeMapNode, RuntimeEvidenceRef, RuntimeMapEdge, RuntimeMap}

abbrev pub unit : Text → Text → RuntimeMapNode
unit id status = record {
  id = id;
  provider = RuntimeProviderKind.systemd;
  kind = RuntimeNodeKind.systemd_service;
  label = id;
  status = some status;
  layer = none;
  metadata = [];
  service = none;
  package_entity = none;
}

abbrev pub web : Text
web = codes "systemd_service_web"

abbrev pub db : Text
db = codes "systemd_service_db"

abbrev pub declared : RuntimeEvidenceRef
declared = record {
  version = 2;
  id = codes "e1";
  provider = RuntimeEvidenceProvider.systemd;
  kind = RuntimeEvidenceKind.systemd_requires;
  assertion_kind = RuntimeEvidenceAssertionKind.declared;
  summary = codes "declared";
  subject_ref = web;
  collected_at = 7;
  provider_revision = codes "r1";
  provider_slot = some ProviderSlot.systemd;
  freshness = RuntimeEvidenceFreshness.fresh;
}

abbrev pub requires_edge : RuntimeMapEdge
requires_edge = record {
  source = web;
  target = db;
  relationship = RuntimeRelationshipKind.requires;
  metadata = [];
  evidence_refs = declared ∷ [];
}

abbrev pub map_of : List RuntimeMapNode → List RuntimeMapEdge → RuntimeMap
map_of nodes edges = record {
  nodes = nodes;
  edges = edges;
  diagnostics = [];
  last_updated = 7;
  model_revision = codes "m1";
  provider_states = [];
  source = none;
}

-- A running service requires a failed one.
abbrev pub failing : RuntimeMap
failing = map_of (unit web (codes "active") ∷ unit db (codes "failed") ∷ []) (requires_edge ∷ [])

-- Two nodes share an identity.
abbrev pub doubled : RuntimeMap
doubled = map_of (unit web (codes "active") ∷ unit web (codes "failed") ∷ []) []

-- The listing of a tmux session, with evidence of a Compose declaration.
abbrev pub borrowed : RuntimeEvidenceRef
borrowed = record declared {
  version = 6;
  provider = RuntimeEvidenceProvider.compose;
  kind = RuntimeEvidenceKind.compose_declared_mount;
  subject_ref = codes "tmux_session_1";
  provider_slot = none;
}

abbrev pub listing_edge : RuntimeMapEdge
listing_edge = record {
  source = codes "tmux_session_1";
  target = codes "host_local";
  relationship = RuntimeRelationshipKind.runs_on;
  metadata = [];
  evidence_refs = borrowed ∷ [];
}
