-- ===== src/Access/Label.antt =====
-- `parse_docker_label_filter` of docker_config.rs, and the check of the same label by the gateway's
-- `serve` (crates/dockermap-docker-gateway/src/lib.rs); the socket that the daemon may be given, and
-- the host that it may bind.
use docker_map.Common.{
  ℕ, ◌≡◌, ◌↔◌, ◌⊎◌, inl, inr, Bool, true, not, ◌&&◌, ◌||◌, Option, none, some, arith, ltb,
  if◌then◌else◌, length, map, Option-cases, Text, codes, text_eq, is_empty, len, contains_char,
  starts_with, trim, to_ascii_lowercase,
}
use docker_map.Gateway.{new}

abbrev max_docker_label_filter_chars : ℕ
max_docker_label_filter_chars = 256

-- `Result<Option<String>, String>`, with the three messages.
pub data Parsed : Type 0 where
  ok : Option Text → Parsed
  too_long has_nul empty_key : Parsed

pub parse_docker_label_filter : Text → Parsed
parse_docker_label_filter value =
    let trimmed = trim value in
    if is_empty trimmed
    then ok none
    else if ltb max_docker_label_filter_chars (length trimmed)
    then too_long
    else if contains_char 0 trimmed
    then has_nul
    else if starts_with (codes "=") trimmed
    then empty_key
    else ok (some trimmed)

-- Whether the gateway starts with a label.
pub serve_accepts : Option Text → Bool
serve_accepts none = true
serve_accepts (some label) =
    let trimmed = trim label in
    not (
      is_empty trimmed
      || (ltb 256 (length trimmed) || (contains_char 0 trimmed || starts_with (codes "=") trimmed)))

-- The gateway starts with a label just if the daemon reads it as a filter, and both then filter by
-- the same text.
pub serve_accepts-parse_docker_label_filter :
    (label : Text)
    → ((serve_accepts (some label) ≡ true)
        ↔ ((filter : Text) × (parse_docker_label_filter label ≡ ok (some filter))))
      × ((filter : Text)
          → parse_docker_label_filter label ≡ ok (some filter)
          → new (some label) ≡ some filter)
unfolding serve_accepts parse_docker_label_filter new
serve_accepts-parse_docker_label_filter label =
    ((λ h. (trim label, ground arith), λ p. ground arith), λ filter h. ground arith)

pub data Refusal : Type 0 where
  invalid raw_socket not_address not_loopback no_token : Refusal

pub validate_docker_gateway_socket : Text → Option Refusal
validate_docker_gateway_socket socket =
    if is_empty socket || (ltb 512 (len socket) || contains_char 0 socket)
    then some invalid
    else if text_eq socket (codes "/var/run/docker.sock")
        || text_eq socket (codes "/run/docker.sock")
    then some raw_socket
    else none

-- The parser of the standard library's `IpAddr`, and its test for a loopback address.
module _ {IpAddr : Type 0} (parse_ip : Text → Option IpAddr) (is_loopback : IpAddr → Bool) where
  abbrev pub host_text : Text → Text
  host_text value =
      if text_eq (map to_ascii_lowercase value) (codes "localhost")
      then codes "127.0.0.1"
      else value

  pub validate_bind_host : Text → Bool → Bool → IpAddr ⊎ Refusal
  validate_bind_host value allow_remote has_daemon_token = elim (parse_ip (host_text value)) [
    | none ↦ inr not_address
    | some host ↦
        if not (is_loopback host) && not allow_remote
        then inr not_loopback
        else if not (is_loopback host) && not has_daemon_token
        then inr no_token
        else inl host
  ]

  -- The daemon binds a host just if that is the address that its text, or `127.0.0.1` for `localhost`
  -- in any case of the letters, stands for, and it is a loopback address or both the opt-in for remote
  -- use and a token are there.
  pub validate_bind_host_iff :
      (value : Text) (allow_remote has_daemon_token : Bool) (host : IpAddr)
      → (validate_bind_host value allow_remote has_daemon_token ≡ inl host) ↔ (
          (parse_ip (host_text value) ≡ some host)
          × ((is_loopback host ≡ true) ⊎ ((allow_remote ≡ true) × (has_daemon_token ≡ true))))
  unfolding validate_bind_host
  validate_bind_host_iff value allow_remote has_daemon_token host = (
    λ h. elim (Option-cases (parse_ip (host_text value))) [
      | inl e ↦ absurd (ground arith)
      | inr (h', e) ↦ ground arith
    ],
    λ p. ground arith,
  )
