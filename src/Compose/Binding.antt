-- ===== src/Compose/Binding.antt =====
-- crates/dockermap-core/src/compose_runtime_binding.rs: the mounts that Compose declares and that the
-- exactly bound container of Docker does not have. The SHA-256 digest is a parameter; what the code
-- says of bytes in a container's identity is said of characters, since all of them are ASCII.
use Prim.Native.String.{String}
use docker_map.Common.{
  ℕ, suc, Bool, true, false, not, ◌&&◌, ◌||◌, List, [], ◌∷◌, ◌++◌, Option, none, some, ◌>>=◌, any,
  all, if◌then◌else◌, ltb, leb, ◌==◌, length, Text, codes, text_eq, is_empty, is_ascii_digit,
}
use docker_map.Common.Decimal.{to_string}
use docker_map.Common.Enums.{◌=?◌}
use docker_map.Common.Maps.{Set, get, insert, text_Ord}
use docker_map.Common.Counts.{counts_by, is_one}
use docker_map.Common.Sort.{sort_by_key}
use docker_map.Models.{ComposeMountKind, ContainerMount}
use docker_map.Models.EvidenceKinds.{
  RuntimeEvidenceProvider, RuntimeEvidenceAssertionKind, observed, declared, RuntimeEvidenceKind,
  compose_declared_mount, docker_compose_runtime_binding, fresh,
}
use docker_map.Models.Runtime.{
  DiagnosticSeverity, RuntimeEvidenceRef, FindingRule, FindingSeverity, Finding,
}
use docker_map.Models.Compose.{ComposeMount, ComposeScan, compose_mount_kind_Enum}
use docker_map.Findings.Ends.{joined}
use docker_map.Common.Members.{find}

abbrev pub max_compose_runtime_binding_containers : ℕ
max_compose_runtime_binding_containers = 64

abbrev pub max_compose_runtime_binding_config_files : ℕ
max_compose_runtime_binding_config_files = 8

abbrev pub max_compose_runtime_binding_services : ℕ
max_compose_runtime_binding_services = 128

abbrev pub max_compose_runtime_binding_mounts : ℕ
max_compose_runtime_binding_mounts = 256

abbrev pub max_runtime_mounts_per_bound_container : ℕ
max_runtime_mounts_per_bound_container = 128

abbrev pub max_private_id_chars : ℕ
max_private_id_chars = 259

unfoldable pub missing_mount_summary : Text
missing_mount_summary =
    codes "A Compose-declared mount is absent from its exactly bound runtime container"

unfoldable pub missing_mount_recommendation : Text
missing_mount_recommendation =
    codes
      "Inspect the Compose mount declaration and the bound container's current mount configuration."

pub record ComposeRuntimeContainer : Type 0 where
  pub container_id : Text
  pub project : Text
  pub service : Text
  pub config_files : Set Text
  pub mounts : List ContainerMount

pub record ComposeRuntimeBinding : Type 0 where
  pub project : Text
  pub config_files : Set Text
  pub containers : List ComposeRuntimeContainer
  pub collected_at : ℕ
  pub provider_revision : Text
  pub fresh : Bool

abbrev pub set_eq : Set Text → Set Text → Bool
set_eq [] [] = true
set_eq ((a, _) ∷ xs) ((b, _) ∷ ys) = text_eq a b && set_eq xs ys
set_eq _ _ = false

-- A list collected into a `BTreeSet`.
unfoldable pub set_of : List Text → Set Text
set_of [] = []
set_of (file ∷ files) = insert file tt (set_of files)

abbrev pub is_long : Text → Bool
is_long s = ltb max_private_id_chars (length s)

unfoldable pub is_docker_container_id : Text → Bool
is_docker_container_id value =
    (length value == 64) && all (λ c. is_ascii_digit c || (leb b'a' c && leb c b'f')) value

abbrev is_info : DiagnosticSeverity → Bool
is_info DiagnosticSeverity.info = true
is_info _ = false

unfoldable pub is_unfit_container : ComposeRuntimeContainer → Bool
is_unfit_container container =
    is_empty container.container_id
    || (not (is_docker_container_id container.container_id)
        || (is_long container.container_id
            || (is_long container.project
                || (is_empty container.service
                    || (is_long container.service
                        || (ltb max_compose_runtime_binding_config_files
                              (length container.config_files)
                            || (any (λ path. is_long path.0) container.config_files
                                || ltb max_runtime_mounts_per_bound_container
                                    (length container.mounts))))))))

-- The guard before the loops.
unfoldable pub is_unusable : ComposeScan → ComposeRuntimeBinding → Bool
is_unusable scan binding =
    not binding.fresh
    || (is_empty binding.project
        || (is_long binding.project
            || ((length binding.config_files == 0)
                || (ltb max_compose_runtime_binding_config_files (length binding.config_files)
                    || (is_empty binding.provider_revision
                        || (ltb max_compose_runtime_binding_containers (length binding.containers)
                            || (ltb max_compose_runtime_binding_services (length scan.services)
                                || (ltb max_compose_runtime_binding_mounts (length scan.mounts)
                                    || (not (set_eq (set_of scan.files) binding.config_files)
                                        || (any (λ d. not (is_info d.severity)) scan.diagnostics
                                            || (any (λ path. is_long path.0) binding.config_files
                                                || any is_unfit_container
                                                    binding.containers)))))))))))

abbrev pub option_text_eq : Option Text → Option Text → Bool
option_text_eq none none = true
option_text_eq (some a) (some b) = text_eq a b
option_text_eq _ _ = false

-- `Option::or`.
abbrev pub or_else : Option Text → Option Text → Option Text
or_else none b = b
or_else (some a) b = some a

abbrev pub same_source : ComposeMountKind → ComposeMount → ContainerMount → Bool
same_source ComposeMountKind.bind declared_mount runtime =
    option_text_eq (or_else declared_mount.resolved_source declared_mount.source) runtime.source
same_source ComposeMountKind.named_volume declared_mount runtime =
    option_text_eq declared_mount.source runtime.source
same_source _ declared_mount runtime = false

unfoldable pub mounts_match : ComposeMount → ContainerMount → Bool
mounts_match declared_mount runtime =
    (declared_mount.kind =? runtime.kind)
    && (text_eq declared_mount.target runtime.target
        && same_source declared_mount.kind declared_mount runtime)

-- The container is of the project and of exactly its files.
abbrev pub belongs : ComposeRuntimeBinding → ComposeRuntimeContainer → Bool
belongs binding container =
    text_eq container.project binding.project && set_eq container.config_files binding.config_files

unfoldable pub is_candidate : ComposeRuntimeBinding → ComposeMount → ComposeRuntimeContainer → Bool
is_candidate binding mount container =
    belongs binding container
    && (text_eq container.service mount.service
        && (not (is_empty container.container_id)
            && (is_one (
                  get container.container_id
                    (counts_by (λ c. c.container_id) (λ c. true) binding.containers))
                && is_one (
                    get container.service
                      (counts_by (λ c. c.service) (belongs binding) binding.containers)))))

abbrev pub is_declared_mount_kind : ComposeMountKind → Bool
is_declared_mount_kind ComposeMountKind.bind = true
is_declared_mount_kind ComposeMountKind.named_volume = true
is_declared_mount_kind _ = false

-- Another kind is `unreachable!`.
unfoldable pub evidence_summary : RuntimeEvidenceKind → Option Text
evidence_summary compose_declared_mount =
    some (codes "Compose declared a mount for the bound service")
evidence_summary docker_compose_runtime_binding =
    some (codes "Docker confirmed an exact Compose project, service, and config binding")
evidence_summary _ = none

module _ (digest : Text → Text) where
  unfoldable pub evidence :
      String
      → RuntimeEvidenceProvider
      → RuntimeEvidenceKind
      → RuntimeEvidenceAssertionKind
      → Text
      → ComposeRuntimeBinding
      → Text
      → Option RuntimeEvidenceRef
  evidence prefix provider kind assertion_kind subject_ref binding seed = do
    summary ← evidence_summary kind
    some (record {
      version = 6;
      id = codes prefix ++ codes "_" ++ digest seed;
      provider = provider;
      kind = kind;
      assertion_kind = assertion_kind;
      summary = summary;
      subject_ref = subject_ref;
      collected_at = binding.collected_at;
      provider_revision = binding.provider_revision;
      provider_slot = none;
      freshness = fresh;
    })

  unfoldable pub missing_mount :
      ComposeRuntimeBinding → ℕ → ComposeRuntimeContainer → Option (List Finding)
  unfolding evidence evidence_summary
  missing_mount binding ordinal container =
      let subject_ref = codes "compose_runtime_binding_" ++ digest container.container_id in
      let evidence_seed = joined container.container_id (to_string ordinal) in
      do
        declaration ←
            evidence "compose_declared_mount" RuntimeEvidenceProvider.compose compose_declared_mount
              declared subject_ref binding evidence_seed
        observation ←
            evidence "docker_compose_runtime_binding" RuntimeEvidenceProvider.docker
              docker_compose_runtime_binding observed subject_ref binding evidence_seed
        some (
            record {
              id =
                  codes "finding_compose_declared_mount_missing_at_bound_container_"
                  ++ digest evidence_seed;
              rule_id = FindingRule.compose_declared_mount_missing_at_bound_container;
              severity = FindingSeverity.warning;
              summary = missing_mount_summary;
              recommendation = missing_mount_recommendation;
              subject_ref = subject_ref;
              target_ref = subject_ref;
              evidence_refs = declaration ∷ observation ∷ [];
            }
            ∷ [])

  -- The body of the loop over the declared mounts.
  unfoldable pub mount_findings : ComposeRuntimeBinding → ℕ → ComposeMount → Option (List Finding)
  unfolding missing_mount
  mount_findings binding ordinal mount =
      if is_declared_mount_kind mount.kind
      then elim (find (is_candidate binding mount) binding.containers) [
        | none ↦ some []
        | some container ↦
            if any (mounts_match mount) container.mounts
            then some []
            else missing_mount binding ordinal container
      ]
      else some []

  unfoldable pub mounts_findings :
      ComposeRuntimeBinding → ℕ → List ComposeMount → Option (List Finding)
  mounts_findings binding ordinal [] = some []
  mounts_findings binding ordinal (mount ∷ mounts) = do
    found ← mount_findings binding ordinal mount
    rest ← mounts_findings binding (suc ordinal) mounts
    some (found ++ rest)

  unfoldable pub derive_compose_runtime_mount_findings :
      ComposeScan → ComposeRuntimeBinding → Option (List Finding)
  unfolding mounts_findings
  derive_compose_runtime_mount_findings scan binding =
      if is_unusable scan binding then some [] else (do
        findings ← mounts_findings binding 0 scan.mounts
        some (sort_by_key (λ f. f.id) findings))
