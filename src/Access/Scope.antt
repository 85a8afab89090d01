-- ===== src/Access/Scope.antt =====
-- pid_namespace.rs: when host processes may be published.
use docker_map.Common.{
  ℕ, ◌≡◌, ◌↔◌, Bool, true, false, ◌&&◌, ◌||◌, ◌++◌, ◌>>=◌, List, [], ◌∷◌, Option, none, some, arith,
  if◌then◌else◌, any, Bool-cases, inl, inr, ap, Text, codes, text_eq, text_eq_sound, text_eq_refl,
  contains, starts_with, ends_with, split_once, trim, unwrap_or, ◌==◌,
}

pub data PidNamespaceMode : Type 0 where
  auto host restricted_mode : PidNamespaceMode

pub data PidNamespaceScope : Type 0 where
  host_scope : Option Text → PidNamespaceScope
  restricted : PidNamespaceScope

pub from_env_value : Option Text → PidNamespaceMode
from_env_value none = auto
from_env_value (some value) =
    if text_eq value (codes "host")
    then host
    else if text_eq value (codes "restricted")
    then restricted_mode
    else if text_eq value (codes "auto")
    then auto
    else restricted_mode

abbrev pub is_restricted : PidNamespaceScope → Bool
is_restricted restricted = true
is_restricted _ = false

-- `split(c)`: the parts between the occurrences of a `char`, the last word first while it is read.
parts_from : ℕ → Text → Text → List Text
parts_from c part [] = part ∷ []
parts_from c part (d ∷ s) = elim (c == d) [
  | true ↦ part ∷ parts_from c [] s
  | false ↦ parts_from c (part ++ d ∷ []) s
]

-- The third of at most three parts between colons, or the whole.
cgroup_path : Text → Text
cgroup_path line = unwrap_or line (do
  (hierarchy, rest) ← split_once b':' line
  (controllers, path) ← split_once b':' rest
  some path)

pub cgroup_implies_container : Text → Bool
cgroup_implies_container cgroup =
    let path = cgroup_path (trim cgroup) in
    contains (codes "/docker/") path
    || any
        (λ component.
          (starts_with (codes "docker-") component && ends_with (codes ".scope") component)
          || ((starts_with (codes "libpod-") component && ends_with (codes ".scope") component)
              || starts_with (codes "kubepods") component))
        (parts_from b'/' [] path)

-- What the host shows: the lines of the process's cgroup file, and the markers of containers.
pub record Evidence : Type 0 where
  pub cgroup : List Text
  pub has_dockerenv : Bool
  pub has_systemd_container_marker : Bool
  pub has_podman_container_marker : Bool

pub restricted_pid_namespace_evidence : Evidence → Bool
restricted_pid_namespace_evidence e =
    e.has_dockerenv
    || (e.has_systemd_container_marker
        || (e.has_podman_container_marker || any cgroup_implies_container e.cgroup))

pub pid_namespace_scope_from_evidence : PidNamespaceMode → Evidence → PidNamespaceScope
pid_namespace_scope_from_evidence host e = host_scope none
pid_namespace_scope_from_evidence restricted_mode e = restricted
pid_namespace_scope_from_evidence auto e =
    if restricted_pid_namespace_evidence e then restricted else restricted

-- Host processes are published only where the environment says exactly `host`, whatever the evidence.
pub pid_namespace_scope_iff :
    (value : Option Text) (e : Evidence)
    → (is_restricted (pid_namespace_scope_from_evidence (from_env_value value) e) ≡ false)
      ↔ (value ≡ some (codes "host"))
unfolding pid_namespace_scope_from_evidence from_env_value
pid_namespace_scope_iff none e = (λ h. absurd (ground arith), λ h. absurd (cc h))
pid_namespace_scope_iff (some value) e = (
  λ h. elim (Bool-cases (text_eq value (codes "host"))) [
    | inl same ↦ ap some (text_eq_sound value (codes "host") same)
    | inr other ↦ absurd (ground arith)
  ],
  λ h.
      let same : value ≡ codes "host" = cc h in
      let e : text_eq value (codes "host") ≡ true = rw same (text_eq_refl (codes "host")) in
      ground arith,
)
