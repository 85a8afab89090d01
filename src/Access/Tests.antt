-- ===== src/Access/Tests.antt =====
-- Runs of the access checks on small inputs. Addresses are texts here, and one is a loopback address.
use docker_map.Common.{
  ◌≡◌, ◌↔◌, ◌⊎◌, inl, refl, Bool, true, false, [], ◌∷◌, some, arith, Text, codes, text_eq,
  is_whitespace,
}
use docker_map.Gateway.{new}
use docker_map.Access.Token.{
  IsBytes, require_daemon_bearer_token, words_from, split_whitespace,
  require_daemon_bearer_token_iff,
}
use docker_map.Access.Label.{
  ok, parse_docker_label_filter, serve_accepts, serve_accepts-parse_docker_label_filter, host_text,
  validate_bind_host, validate_bind_host_iff,
}
use docker_map.Access.Scope.{
  Evidence, from_env_value, pid_namespace_scope_from_evidence, is_restricted,
  pid_namespace_scope_iff,
}

abbrev header : Text
header = codes "Bearer  s3"

header-IsBytes : (value : Text) → some header ≡ some value → IsBytes value
header-IsBytes value e = let same : header ≡ value = cc e in rw (← same) bytes
  where
    bytes : IsBytes header
    bytes = ground arith

require_daemon_bearer_token_iff_example :
    (require_daemon_bearer_token (some (codes "s3")) (some header) ≡ true) ↔ (
      (value : Text) × (some header ≡ some value)
      × (split_whitespace value ≡ codes "Bearer" ∷ codes "s3" ∷ []))
require_daemon_bearer_token_iff_example =
    require_daemon_bearer_token_iff (codes "s3") (some header) (omega arith, (omega arith, tt))
      header-IsBytes

header_words : split_whitespace header ≡ codes "Bearer" ∷ codes "s3" ∷ []
unfolding split_whitespace words_from is_whitespace
header_words = refl

serve_accepts-parse_docker_label_filter_example :
    ((serve_accepts (some (codes " app=web ")) ≡ true)
      ↔ ((filter : Text) × (parse_docker_label_filter (codes " app=web ") ≡ ok (some filter))))
    × ((filter : Text)
        → parse_docker_label_filter (codes " app=web ") ≡ ok (some filter)
        → new (some (codes " app=web ")) ≡ some filter)
serve_accepts-parse_docker_label_filter_example =
    serve_accepts-parse_docker_label_filter (codes " app=web ")

abbrev is_home : Text → Bool
is_home t = text_eq t (codes "127.0.0.1")

validate_bind_host_iff_example :
    (validate_bind_host (λ t. some t) is_home (codes "LocalHost") false false
      ≡ inl (codes "127.0.0.1"))
    ↔ ((some (host_text (λ t. some t) is_home (codes "LocalHost")) ≡ some (codes "127.0.0.1"))
        × ((is_home (codes "127.0.0.1") ≡ true) ⊎ ((false ≡ true) × (false ≡ true))))
validate_bind_host_iff_example =
    validate_bind_host_iff (λ t. some t) is_home (codes "LocalHost") false false (codes "127.0.0.1")

abbrev evidence : Evidence
evidence = record {
  cgroup = codes "0::/system.slice/docker-1.scope" ∷ [];
  has_dockerenv = false;
  has_systemd_container_marker = false;
  has_podman_container_marker = false;
}

pid_namespace_scope_iff_example :
    (is_restricted
        (pid_namespace_scope_from_evidence (from_env_value (some (codes "Host"))) evidence)
      ≡ false)
    ↔ (some (codes "Host") ≡ some (codes "host"))
pid_namespace_scope_iff_example = pid_namespace_scope_iff (some (codes "Host")) evidence
