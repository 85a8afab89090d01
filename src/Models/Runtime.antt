-- ===== src/Models/Runtime.antt =====
-- crates/dockermap-core/src/models.rs: the runtime map and the findings.
use docker_map.Common.{ℕ, Bool, List, Option, Text}
use docker_map.Common.Maps.{Map}
use docker_map.Models.{RuntimeMode}
use docker_map.Models.Kinds.{
  RuntimeProviderKind, RuntimeNodeKind, RuntimeRelationshipKind, RuntimeNodeLayer,
}
use docker_map.Models.EvidenceKinds.{
  RuntimeEvidenceProvider, RuntimeEvidenceAssertionKind, RuntimeEvidenceKind,
  RuntimeEvidenceFreshness,
}
use docker_map.Slots.{ProviderState}
use docker_map.Slots.Slot.{ProviderSlot}

pub data RuntimeHealthState : Type 0 where
  healthy degraded unhealthy unknown : RuntimeHealthState

pub data RuntimeLogLevel : Type 0 where
  debug info warn error : RuntimeLogLevel

pub data RuntimeOwnershipKind : Type 0 where
  person team system automation vendor : RuntimeOwnershipKind

pub data RuntimeLocationKind : Type 0 where
  host container path cluster region workspace tailnet : RuntimeLocationKind

pub data RuntimeServiceStatus : Type 0 where
  running starting stopping stopped degraded failed unknown : RuntimeServiceStatus

pub data RuntimePackageManager : Type 0 where
  npm pnpm yarn pip apt apk brew cargo system : RuntimePackageManager

pub data RuntimeAdvisorySeverity : Type 0 where
  low moderate high critical : RuntimeAdvisorySeverity

pub data FindingSeverity : Type 0 where
  warning advisory : FindingSeverity

pub data FindingRule : Type 0 where
  systemd_requires_target_not_active systemd_part_of_target_not_active
        docker_internal_network_member_publishes_port docker_port_published_on_unspecified_address
        docker_daemon_state_bind_mount docker_daemon_state_bind_mount_publishes_port
        docker_compose_declared_target_not_active docker_compose_mutual_dependency
        compose_declared_mount_missing_at_bound_container runtime_identity_collision_detected
        runtime_declared_relationship_evidence_not_current :
      FindingRule

pub data FindingCategory : Type 0 where
  declared_dependency docker_daemon_authority host_port_publication evidence_integrity :
      FindingCategory

pub data DiagnosticSeverity : Type 0 where
  info warning error blocked : DiagnosticSeverity

pub record RuntimeHealth : Type 0 where
  pub state : RuntimeHealthState
  pub checked_at : Option ℕ
  pub source : Option Text
  pub message : Option Text

pub record RuntimeLogRef : Type 0 where
  pub id : Text
  pub source : Text
  pub level : Option RuntimeLogLevel

pub record RuntimeOwnership : Type 0 where
  pub kind : RuntimeOwnershipKind
  pub name : Text
  pub id : Option Text

pub record RuntimeLocation : Type 0 where
  pub kind : RuntimeLocationKind
  pub value : Text
  pub detail : Option Text

pub record RuntimeServiceEntity : Type 0 where
  pub name : Text
  pub status : RuntimeServiceStatus
  pub dependencies : List Text
  pub dependents : List Text
  pub health : Option RuntimeHealth
  pub logs : List RuntimeLogRef
  pub owner : Option RuntimeOwnership
  pub location : Option RuntimeLocation

pub record RuntimePackageAdvisory : Type 0 where
  pub id : Text
  pub source : Text
  pub title : Text
  pub severity : RuntimeAdvisorySeverity
  pub fixed_version : Option Text
  pub url : Option Text
  pub published_at : Option ℕ

pub record RuntimePackageUpdate : Type 0 where
  pub current_version : Text
  pub latest_version : Option Text
  pub available : Bool
  pub advisories : List RuntimePackageAdvisory

pub record RuntimePackageEntity : Type 0 where
  pub name : Text
  pub manager : RuntimePackageManager
  pub version : Text
  pub dependencies : List Text
  pub dependents : List Text
  pub update : Option RuntimePackageUpdate
  pub owner : Option RuntimeOwnership
  pub location : Option RuntimeLocation

pub record RuntimeMapNode : Type 0 where
  pub id : Text
  pub provider : RuntimeProviderKind
  pub kind : RuntimeNodeKind
  pub label : Text
  pub status : Option Text
  pub layer : Option RuntimeNodeLayer
  pub metadata : Map Text Text
  pub service : Option RuntimeServiceEntity
  pub package_entity : Option RuntimePackageEntity

pub record RuntimeEvidenceRef : Type 0 where
  pub version : ℕ
  pub id : Text
  pub provider : RuntimeEvidenceProvider
  pub kind : RuntimeEvidenceKind
  pub assertion_kind : RuntimeEvidenceAssertionKind
  pub summary : Text
  pub subject_ref : Text
  pub collected_at : ℕ
  pub provider_revision : Text
  pub provider_slot : Option ProviderSlot
  pub freshness : RuntimeEvidenceFreshness

pub record RuntimeMapEdge : Type 0 where
  pub source : Text
  pub target : Text
  pub relationship : RuntimeRelationshipKind
  pub metadata : Map Text Text
  pub evidence_refs : List RuntimeEvidenceRef

pub record RuntimeMapDiagnostic : Type 0 where
  pub provider : RuntimeProviderKind
  pub severity : DiagnosticSeverity
  pub message : Text

pub record Finding : Type 0 where
  pub id : Text
  pub rule_id : FindingRule
  pub severity : FindingSeverity
  pub summary : Text
  pub recommendation : Text
  pub subject_ref : Text
  pub target_ref : Text
  pub evidence_refs : List RuntimeEvidenceRef

pub record RuntimeMap : Type 0 where
  pub nodes : List RuntimeMapNode
  pub edges : List RuntimeMapEdge
  pub diagnostics : List RuntimeMapDiagnostic
  pub last_updated : ℕ
  pub model_revision : Text
  pub provider_states : List ProviderState
  pub source : Option RuntimeMode
