-- ===== src/Models.antt =====
-- crates/dockermap-core/src/models.rs: the Docker snapshot, and the observed changes.
pub mod Kinds
pub mod EvidenceKinds
pub mod Runtime
pub mod Compose
pub mod Evidence
use docker_map.Common.{ℕ, Bool, List, Option, Text}

pub data ComposeMountKind : Type 0 where
  bind named_volume anonymous_volume unsupported : ComposeMountKind

pub record ContainerMount : Type 0 where
  pub id : Text
  pub kind : ComposeMountKind
  pub source : Option Text
  pub target : Text
  pub read_only : Bool

pub record ContainerRecord : Type 0 where
  pub id : Text
  pub name : Text
  pub image : Text
  pub status : Text
  pub role : Text
  pub networks : List Text
  pub ports : List Text
  pub publishes_on_unspecified_address : Bool
  pub mounts : List ContainerMount
  pub depends_on : List Text

pub record ImageRecord : Type 0 where
  pub image : Text
  pub containers : List Text
  pub status : Text

pub record NetworkRecord : Type 0 where
  pub id : Text
  pub name : Text
  pub driver : Text
  pub internal : Bool
  pub members : List Text

pub record VolumeRecord : Type 0 where
  pub id : Text
  pub name : Text
  pub attached_to : List Text

pub data RuntimeMode : Type 0 where
  docker mock : RuntimeMode

pub record DockerSnapshot : Type 0 where
  pub containers : List ContainerRecord
  pub images : List ImageRecord
  pub networks : List NetworkRecord
  pub volumes : List VolumeRecord
  pub last_updated : ℕ
  pub model_revision : Text
  pub source : Option RuntimeMode

pub data ObservedChangeKind : Type 0 where
  appeared disappeared status_changed : ObservedChangeKind

pub data ObservedContainerStatus : Type 0 where
  running stopped other : ObservedContainerStatus

pub record ObservedChangeEvent : Type 0 where
  pub id : Text
  pub kind : ObservedChangeKind
  pub observed_at_ms : ℕ
  pub container_id : Text
  pub previous_status : Option ObservedContainerStatus
  pub current_status : Option ObservedContainerStatus

pub record ObservedChangeHistoryResponse : Type 0 where
  pub source : RuntimeMode
  pub baseline_established : Bool
  pub current_model_revision : Option Text
  pub observed_revision : Option Text
  pub events : List ObservedChangeEvent

pub data NodeKind : Type 0 where
  container_node network_node volume_node : NodeKind

pub data RelationshipKind : Type 0 where
  connected_to mounts_on : RelationshipKind

pub record GraphNode : Type 0 where
  pub id : Text
  pub kind : NodeKind
  pub label : Text

pub record GraphEdge : Type 0 where
  pub source : Text
  pub target : Text
  pub relationship : RelationshipKind

pub record GraphResponse : Type 0 where
  pub nodes : List GraphNode
  pub edges : List GraphEdge
