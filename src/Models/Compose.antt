-- ===== src/Models/Compose.antt =====
-- crates/dockermap-core/src/models.rs: what a scan of Compose files holds.
use docker_map.Common.{◌≡◌, refl, Bool, List, [], ◌∷◌, Option, some, Text, get_elem?, ℕ}
use docker_map.Common.Enums.{Enum}
use docker_map.Common.Maps.{Map}
use docker_map.Models.{ComposeMountKind}
use docker_map.Models.Runtime.{DiagnosticSeverity}

abbrev pub compose_mount_kind_disc : ComposeMountKind → ℕ
compose_mount_kind_disc ComposeMountKind.bind = 0
compose_mount_kind_disc ComposeMountKind.named_volume = 1
compose_mount_kind_disc ComposeMountKind.anonymous_volume = 2
compose_mount_kind_disc ComposeMountKind.unsupported = 3

abbrev pub compose_mount_kind_variants : List ComposeMountKind
compose_mount_kind_variants =
    ComposeMountKind.bind ∷ ComposeMountKind.named_volume ∷ ComposeMountKind.anonymous_volume
    ∷ ComposeMountKind.unsupported ∷ []

pub compose_mount_kind_variants-disc :
    (a : ComposeMountKind)
    → get_elem? compose_mount_kind_variants (compose_mount_kind_disc a) ≡ some a
compose_mount_kind_variants-disc ComposeMountKind.bind = refl
compose_mount_kind_variants-disc _ = refl

instance abbrev pub compose_mount_kind_Enum : Enum ComposeMountKind
compose_mount_kind_Enum = record {
  variants = compose_mount_kind_variants;
  disc = compose_mount_kind_disc;
  variants-disc = compose_mount_kind_variants-disc;
}

pub record ComposeFileOrigin : Type 0 where
  pub file : Text
  pub service : Option Text
  pub field : Text

pub record ComposeDiagnostic : Type 0 where
  pub id : Text
  pub severity : DiagnosticSeverity
  pub message : Text
  pub origin : ComposeFileOrigin

pub record ComposeMount : Type 0 where
  pub id : Text
  pub service : Text
  pub kind : ComposeMountKind
  pub source : Option Text
  pub resolved_source : Option Text
  pub target : Text
  pub read_only : Bool
  pub origin : ComposeFileOrigin

pub record ComposeService : Type 0 where
  pub name : Text
  pub image : Option Text
  pub environment : Map Text Text
  pub depends_on : List Text

pub data MountCorrelationStatus : Type 0 where
  matched missing extra : MountCorrelationStatus

pub record MountCorrelation : Type 0 where
  pub id : Text
  pub service : Text
  pub container : Option Text
  pub compose_mount_id : Option Text
  pub kind : ComposeMountKind
  pub target : Text
  pub declared_source : Option Text
  pub runtime_source : Option Text
  pub status : MountCorrelationStatus

pub record ComposeScan : Type 0 where
  pub files : List Text
  pub project_root : Text
  pub services : List ComposeService
  pub mounts : List ComposeMount
  pub correlations : List MountCorrelation
  pub diagnostics : List ComposeDiagnostic

pub data ComposeNodeKind : Type 0 where
  service host_path container_path named_volume anonymous_volume : ComposeNodeKind

pub data ComposeRelationshipKind : Type 0 where
  declares_mount mounted_at : ComposeRelationshipKind

pub record ComposeGraphNode : Type 0 where
  pub id : Text
  pub kind : ComposeNodeKind
  pub label : Text

pub record ComposeGraphEdge : Type 0 where
  pub source : Text
  pub target : Text
  pub relationship : ComposeRelationshipKind

pub record ComposeGraph : Type 0 where
  pub nodes : List ComposeGraphNode
  pub edges : List ComposeGraphEdge
