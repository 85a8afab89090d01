-- ===== src/Gateway/Permitted.antt =====
-- The measured contract of the gateway, without the code's tests: the targets that may pass.
use docker_map.Common.{ℕ, ◌≤◌, ◌≡◌, ◌⊎◌, [], ◌∷◌, ◌++◌, Option, none, All, length, Text, codes}
use docker_map.Common.Decimal.{IsDigit}
use docker_map.Gateway.{
  get, other, Request, containers_json, networks, volumes, until_prefix, until_suffix, expected,
}

abbrev pub IsAlphanumeric : ℕ → Type 0
IsAlphanumeric c = ((b'a' ≤ c) × (c ≤ b'z')) ⊎ (((b'A' ≤ c) × (c ≤ b'Z')) ⊎ IsDigit c)

abbrev pub IsNameChar : ℕ → Type 0
IsNameChar c = IsAlphanumeric c ⊎ ((c ≡ b'_') ⊎ ((c ≡ b'.') ⊎ (c ≡ b'-')))

-- A container's name: a letter or digit, and up to 254 letters, digits, `_`, `.` and `-`.
abbrev pub IsName : Text → Type 0
IsName [] = ⊥
IsName (c ∷ s) = IsAlphanumeric c × All IsNameChar s × (length (c ∷ s) ≤ 255)

-- A decimal number with no leading zero.
abbrev pub IsUntil : Text → Type 0
IsUntil [] = ⊥
IsUntil (c ∷ s) = ((c ≡ b'0') × (s ≡ [])) ⊎ (((b'1' ≤ c) × (c ≤ b'9')) × All IsDigit s)

abbrev pub log_path : Text → Text
log_path name = codes "/containers/" ++ (name ++ codes "/logs")

abbrev pub log_query : Text → Text
log_query until = until_prefix ++ (until ++ until_suffix)

-- An inventory read of containers, networks or volumes with the one query that its label filter
-- allows, or a bounded read of one container's log.
pub data Permitted (json_string byte_serialize : Text → Text) (label_filter : Option Text)
    (target : Text) : Type 0 where
  read_containers :
      target
        ≡ expected json_string byte_serialize label_filter
            (containers_json ++ codes "?all=true&size=false")
      → Permitted json_string byte_serialize label_filter target
  read_networks :
      target ≡ expected json_string byte_serialize label_filter (networks ++ codes "?")
      → Permitted json_string byte_serialize label_filter target
  read_volumes :
      target ≡ expected json_string byte_serialize label_filter (volumes ++ codes "?")
      → Permitted json_string byte_serialize label_filter target
  read_logs :
      (name until : Text)
      → IsName name
      → IsUntil until
      → target ≡ log_path name ++ b'?' ∷ log_query until
      → Permitted json_string byte_serialize label_filter target

-- A GET in origin form with no header that could frame a body.
pub record IsClean (r : Request) : Type 0 where
  pub method : r.method ≡ get
  pub scheme : r.scheme ≡ none
  pub authority : r.authority ≡ none
  pub headers : All (λ h. h ≡ other) r.headers
