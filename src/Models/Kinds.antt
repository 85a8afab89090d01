-- ===== src/Models/Kinds.antt =====
-- crates/dockermap-core/src/models.rs: the closed vocabularies of the runtime map.
use docker_map.Common.{ℕ, ◌≡◌, refl, List, [], ◌∷◌, some, get_elem?}
use docker_map.Common.Enums.{Enum}

pub data RuntimeProviderKind : Type 0 where
  docker compose host systemd scheduled_job npm pm2 tmux tailscale headscale cloudflare caddy
        reverse_proxy local_dns dns_provider external_api process python network kubernetes other :
      RuntimeProviderKind

abbrev pub runtime_provider_kind_variants : List RuntimeProviderKind
runtime_provider_kind_variants =
    RuntimeProviderKind.docker ∷ RuntimeProviderKind.compose ∷ RuntimeProviderKind.host
    ∷ RuntimeProviderKind.systemd ∷ RuntimeProviderKind.scheduled_job ∷ RuntimeProviderKind.npm
    ∷ RuntimeProviderKind.pm2 ∷ RuntimeProviderKind.tmux ∷ RuntimeProviderKind.tailscale
    ∷ RuntimeProviderKind.headscale ∷ RuntimeProviderKind.cloudflare ∷ RuntimeProviderKind.caddy
    ∷ RuntimeProviderKind.reverse_proxy ∷ RuntimeProviderKind.local_dns
    ∷ RuntimeProviderKind.dns_provider ∷ RuntimeProviderKind.external_api
    ∷ RuntimeProviderKind.process ∷ RuntimeProviderKind.python ∷ RuntimeProviderKind.network
    ∷ RuntimeProviderKind.kubernetes ∷ RuntimeProviderKind.other ∷ []

abbrev pub runtime_provider_kind_disc : RuntimeProviderKind → ℕ
runtime_provider_kind_disc RuntimeProviderKind.docker = 0
runtime_provider_kind_disc RuntimeProviderKind.compose = 1
runtime_provider_kind_disc RuntimeProviderKind.host = 2
runtime_provider_kind_disc RuntimeProviderKind.systemd = 3
runtime_provider_kind_disc RuntimeProviderKind.scheduled_job = 4
runtime_provider_kind_disc RuntimeProviderKind.npm = 5
runtime_provider_kind_disc RuntimeProviderKind.pm2 = 6
runtime_provider_kind_disc RuntimeProviderKind.tmux = 7
runtime_provider_kind_disc RuntimeProviderKind.tailscale = 8
runtime_provider_kind_disc RuntimeProviderKind.headscale = 9
runtime_provider_kind_disc RuntimeProviderKind.cloudflare = 10
runtime_provider_kind_disc RuntimeProviderKind.caddy = 11
runtime_provider_kind_disc RuntimeProviderKind.reverse_proxy = 12
runtime_provider_kind_disc RuntimeProviderKind.local_dns = 13
runtime_provider_kind_disc RuntimeProviderKind.dns_provider = 14
runtime_provider_kind_disc RuntimeProviderKind.external_api = 15
runtime_provider_kind_disc RuntimeProviderKind.process = 16
runtime_provider_kind_disc RuntimeProviderKind.python = 17
runtime_provider_kind_disc RuntimeProviderKind.network = 18
runtime_provider_kind_disc RuntimeProviderKind.kubernetes = 19
runtime_provider_kind_disc RuntimeProviderKind.other = 20

pub runtime_provider_kind_variants-disc :
    (a : RuntimeProviderKind)
    → get_elem? runtime_provider_kind_variants (runtime_provider_kind_disc a) ≡ some a
runtime_provider_kind_variants-disc RuntimeProviderKind.docker = refl
runtime_provider_kind_variants-disc _ = refl

instance abbrev pub runtime_provider_kind_Enum : Enum RuntimeProviderKind
runtime_provider_kind_Enum = record {
  variants = runtime_provider_kind_variants;
  disc = runtime_provider_kind_disc;
  variants-disc = runtime_provider_kind_variants-disc;
}

pub data RuntimeNodeKind : Type 0 where
  container docker_network docker_volume host host_risk service systemd_service scheduled_job
        pm2_app tmux_session tailnet_node reverse_proxy local_dns_resolver dns_provider
        node_application python_application ai_agent package_kind storage external_api
        package_dependency database worker process network_listener orchestrator_workload
        integrity_scope :
      RuntimeNodeKind

abbrev pub runtime_node_kind_variants : List RuntimeNodeKind
runtime_node_kind_variants =
    RuntimeNodeKind.container ∷ RuntimeNodeKind.docker_network ∷ RuntimeNodeKind.docker_volume
    ∷ RuntimeNodeKind.host ∷ RuntimeNodeKind.host_risk ∷ RuntimeNodeKind.service
    ∷ RuntimeNodeKind.systemd_service ∷ RuntimeNodeKind.scheduled_job ∷ RuntimeNodeKind.pm2_app
    ∷ RuntimeNodeKind.tmux_session ∷ RuntimeNodeKind.tailnet_node ∷ RuntimeNodeKind.reverse_proxy
    ∷ RuntimeNodeKind.local_dns_resolver ∷ RuntimeNodeKind.dns_provider
    ∷ RuntimeNodeKind.node_application ∷ RuntimeNodeKind.python_application
    ∷ RuntimeNodeKind.ai_agent ∷ RuntimeNodeKind.package_kind ∷ RuntimeNodeKind.storage
    ∷ RuntimeNodeKind.external_api ∷ RuntimeNodeKind.package_dependency ∷ RuntimeNodeKind.database
    ∷ RuntimeNodeKind.worker ∷ RuntimeNodeKind.process ∷ RuntimeNodeKind.network_listener
    ∷ RuntimeNodeKind.orchestrator_workload ∷ RuntimeNodeKind.integrity_scope ∷ []

abbrev pub runtime_node_kind_disc : RuntimeNodeKind → ℕ
runtime_node_kind_disc RuntimeNodeKind.container = 0
runtime_node_kind_disc RuntimeNodeKind.docker_network = 1
runtime_node_kind_disc RuntimeNodeKind.docker_volume = 2
runtime_node_kind_disc RuntimeNodeKind.host = 3
runtime_node_kind_disc RuntimeNodeKind.host_risk = 4
runtime_node_kind_disc RuntimeNodeKind.service = 5
runtime_node_kind_disc RuntimeNodeKind.systemd_service = 6
runtime_node_kind_disc RuntimeNodeKind.scheduled_job = 7
runtime_node_kind_disc RuntimeNodeKind.pm2_app = 8
runtime_node_kind_disc RuntimeNodeKind.tmux_session = 9
runtime_node_kind_disc RuntimeNodeKind.tailnet_node = 10
runtime_node_kind_disc RuntimeNodeKind.reverse_proxy = 11
runtime_node_kind_disc RuntimeNodeKind.local_dns_resolver = 12
runtime_node_kind_disc RuntimeNodeKind.dns_provider = 13
runtime_node_kind_disc RuntimeNodeKind.node_application = 14
runtime_node_kind_disc RuntimeNodeKind.python_application = 15
runtime_node_kind_disc RuntimeNodeKind.ai_agent = 16
runtime_node_kind_disc RuntimeNodeKind.package_kind = 17
runtime_node_kind_disc RuntimeNodeKind.storage = 18
runtime_node_kind_disc RuntimeNodeKind.external_api = 19
runtime_node_kind_disc RuntimeNodeKind.package_dependency = 20
runtime_node_kind_disc RuntimeNodeKind.database = 21
runtime_node_kind_disc RuntimeNodeKind.worker = 22
runtime_node_kind_disc RuntimeNodeKind.process = 23
runtime_node_kind_disc RuntimeNodeKind.network_listener = 24
runtime_node_kind_disc RuntimeNodeKind.orchestrator_workload = 25
runtime_node_kind_disc RuntimeNodeKind.integrity_scope = 26

pub runtime_node_kind_variants-disc :
    (a : RuntimeNodeKind) → get_elem? runtime_node_kind_variants (runtime_node_kind_disc a) ≡ some a
runtime_node_kind_variants-disc RuntimeNodeKind.container = refl
runtime_node_kind_variants-disc _ = refl

instance abbrev pub runtime_node_kind_Enum : Enum RuntimeNodeKind
runtime_node_kind_Enum = record {
  variants = runtime_node_kind_variants;
  disc = runtime_node_kind_disc;
  variants-disc = runtime_node_kind_variants-disc;
}

pub data RuntimeRelationshipKind : Type 0 where
  connected_to depends_on required_by requires wants after before part_of binds_to conflicts_with
        mounts manages exposes exposes_daemon_state runs_on uses calls resolves_via proxies_to
        contains owns related_to :
      RuntimeRelationshipKind

abbrev pub runtime_relationship_kind_variants : List RuntimeRelationshipKind
runtime_relationship_kind_variants =
    RuntimeRelationshipKind.connected_to ∷ RuntimeRelationshipKind.depends_on
    ∷ RuntimeRelationshipKind.required_by ∷ RuntimeRelationshipKind.requires
    ∷ RuntimeRelationshipKind.wants ∷ RuntimeRelationshipKind.after ∷ RuntimeRelationshipKind.before
    ∷ RuntimeRelationshipKind.part_of ∷ RuntimeRelationshipKind.binds_to
    ∷ RuntimeRelationshipKind.conflicts_with ∷ RuntimeRelationshipKind.mounts
    ∷ RuntimeRelationshipKind.manages ∷ RuntimeRelationshipKind.exposes
    ∷ RuntimeRelationshipKind.exposes_daemon_state ∷ RuntimeRelationshipKind.runs_on
    ∷ RuntimeRelationshipKind.uses ∷ RuntimeRelationshipKind.calls
    ∷ RuntimeRelationshipKind.resolves_via ∷ RuntimeRelationshipKind.proxies_to
    ∷ RuntimeRelationshipKind.contains ∷ RuntimeRelationshipKind.owns
    ∷ RuntimeRelationshipKind.related_to ∷ []

abbrev pub runtime_relationship_kind_disc : RuntimeRelationshipKind → ℕ
runtime_relationship_kind_disc RuntimeRelationshipKind.connected_to = 0
runtime_relationship_kind_disc RuntimeRelationshipKind.depends_on = 1
runtime_relationship_kind_disc RuntimeRelationshipKind.required_by = 2
runtime_relationship_kind_disc RuntimeRelationshipKind.requires = 3
runtime_relationship_kind_disc RuntimeRelationshipKind.wants = 4
runtime_relationship_kind_disc RuntimeRelationshipKind.after = 5
runtime_relationship_kind_disc RuntimeRelationshipKind.before = 6
runtime_relationship_kind_disc RuntimeRelationshipKind.part_of = 7
runtime_relationship_kind_disc RuntimeRelationshipKind.binds_to = 8
runtime_relationship_kind_disc RuntimeRelationshipKind.conflicts_with = 9
runtime_relationship_kind_disc RuntimeRelationshipKind.mounts = 10
runtime_relationship_kind_disc RuntimeRelationshipKind.manages = 11
runtime_relationship_kind_disc RuntimeRelationshipKind.exposes = 12
runtime_relationship_kind_disc RuntimeRelationshipKind.exposes_daemon_state = 13
runtime_relationship_kind_disc RuntimeRelationshipKind.runs_on = 14
runtime_relationship_kind_disc RuntimeRelationshipKind.uses = 15
runtime_relationship_kind_disc RuntimeRelationshipKind.calls = 16
runtime_relationship_kind_disc RuntimeRelationshipKind.resolves_via = 17
runtime_relationship_kind_disc RuntimeRelationshipKind.proxies_to = 18
runtime_relationship_kind_disc RuntimeRelationshipKind.contains = 19
runtime_relationship_kind_disc RuntimeRelationshipKind.owns = 20
runtime_relationship_kind_disc RuntimeRelationshipKind.related_to = 21

pub runtime_relationship_kind_variants-disc :
    (a : RuntimeRelationshipKind)
    → get_elem? runtime_relationship_kind_variants (runtime_relationship_kind_disc a) ≡ some a
runtime_relationship_kind_variants-disc RuntimeRelationshipKind.connected_to = refl
runtime_relationship_kind_variants-disc _ = refl

instance abbrev pub runtime_relationship_kind_Enum : Enum RuntimeRelationshipKind
runtime_relationship_kind_Enum = record {
  variants = runtime_relationship_kind_variants;
  disc = runtime_relationship_kind_disc;
  variants-disc = runtime_relationship_kind_variants-disc;
}

pub data RuntimeNodeLayer : Type 0 where
  edge host service container process session package_kind network storage advisory :
      RuntimeNodeLayer

abbrev pub runtime_node_layer_variants : List RuntimeNodeLayer
runtime_node_layer_variants =
    RuntimeNodeLayer.edge ∷ RuntimeNodeLayer.host ∷ RuntimeNodeLayer.service
    ∷ RuntimeNodeLayer.container ∷ RuntimeNodeLayer.process ∷ RuntimeNodeLayer.session
    ∷ RuntimeNodeLayer.package_kind ∷ RuntimeNodeLayer.network ∷ RuntimeNodeLayer.storage
    ∷ RuntimeNodeLayer.advisory ∷ []

abbrev pub runtime_node_layer_disc : RuntimeNodeLayer → ℕ
runtime_node_layer_disc RuntimeNodeLayer.edge = 0
runtime_node_layer_disc RuntimeNodeLayer.host = 1
runtime_node_layer_disc RuntimeNodeLayer.service = 2
runtime_node_layer_disc RuntimeNodeLayer.container = 3
runtime_node_layer_disc RuntimeNodeLayer.process = 4
runtime_node_layer_disc RuntimeNodeLayer.session = 5
runtime_node_layer_disc RuntimeNodeLayer.package_kind = 6
runtime_node_layer_disc RuntimeNodeLayer.network = 7
runtime_node_layer_disc RuntimeNodeLayer.storage = 8
runtime_node_layer_disc RuntimeNodeLayer.advisory = 9

pub runtime_node_layer_variants-disc :
    (a : RuntimeNodeLayer)
    → get_elem? runtime_node_layer_variants (runtime_node_layer_disc a) ≡ some a
runtime_node_layer_variants-disc RuntimeNodeLayer.edge = refl
runtime_node_layer_variants-disc _ = refl

instance abbrev pub runtime_node_layer_Enum : Enum RuntimeNodeLayer
runtime_node_layer_Enum = record {
  variants = runtime_node_layer_variants;
  disc = runtime_node_layer_disc;
  variants-disc = runtime_node_layer_variants-disc;
}
