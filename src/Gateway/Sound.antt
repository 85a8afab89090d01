-- ===== src/Gateway/Sound.antt =====
-- What the policy lets through is permitted.
use docker_map.Common.{
  ◌-◌, ◌≤◌, ◌≡◌, ◌⊎◌, inl, inr, sym, ap, ◌∙◌, true, false, ◌&&◌, List, [], ◌∷◌, ◌++◌, Option, some,
  arith, Bool-cases, Option-cases, unwrap_or, any, all, All, length, length-append, length-drop,
  drop-append, take-append, take, drop, subst, Text, codes, text_eq, text_eq_sound, len,
  is_ascii_digit, starts_with, ends_with, strip_prefix, strip_suffix, split_once,
}
use docker_map.Common.Decimal.{IsDigit}
use docker_map.Common.StringLaws.{
  strip_prefix_sound, strip_suffix_sound, starts_with_sound, ends_with_sound, split_once_sound,
}
use docker_map.Gateway.{
  HeaderName, other, Request, allowed, is_framing, containers_json, networks, volumes, until_prefix,
  until_suffix, valid_container_name, valid_from, valid_until, logs, expected, inventory, route,
  check_target, allow,
}
use docker_map.Gateway.Permitted.{
  IsNameChar, IsName, IsUntil, log_path, log_query, Permitted, read_containers, read_networks,
  read_volumes, read_logs, IsClean,
}

all-IsDigit : (s : Text) → all is_ascii_digit s ≡ true → All IsDigit s
unfolding is_ascii_digit
all-IsDigit [] h = tt
all-IsDigit (c ∷ s) h = ground (arith, all-IsDigit s)

valid_until_sound : (u : Text) → valid_until u ≡ true → IsUntil u
unfolding valid_until text_eq
valid_until_sound [] h = cc
valid_until_sound (c ∷ []) h = ground arith
valid_until_sound (c ∷ d ∷ s) h = ground (arith, all-IsDigit (d ∷ s))

valid_from_sound : (s : Text) → valid_from false s ≡ true → All IsNameChar s
unfolding valid_from
valid_from_sound [] h = tt
valid_from_sound (c ∷ s) h = ground (arith, valid_from_sound s)

length-le-len : (s : Text) → length s ≤ len s
unfolding len
length-le-len [] = omega arith
length-le-len (c ∷ s) = ground (arith, length-le-len s)

valid_container_name_sound : (s : Text) → valid_container_name s ≡ true → IsName s
unfolding valid_container_name
valid_container_name_sound [] h = cc
valid_container_name_sound (c ∷ s) h = ground (arith, valid_from_sound s, length-le-len (c ∷ s))

abbrev slice : Text → Text
slice path = take (length path - 17) (drop 12 path)

-- The slice is what stands between `/containers/` and `/logs`.
slice_middle :
    (path : Text)
    → starts_with (codes "/containers/") path ≡ true
    → ends_with (codes "/logs") path ≡ true
    → 17 ≤ length path
    → path ≡ log_path (slice path)
slice_middle path a b h =
    let (r, front) = starts_with_sound (codes "/containers/") path a in
    let (q, back) = ends_with_sound (codes "/logs") path b in
    let wide : 12 ≤ length q = omega (arith, ap length back, length-append q (codes "/logs")) in
    let rest : drop 12 path ≡ drop 12 q ++ codes "/logs" =
      ap (drop 12) back ∙ drop-append 12 q (codes "/logs") wide in
    let short : length path - 17 ≡ length (drop 12 q) =
      omega (arith, ap length back, length-append q (codes "/logs"), length-drop 12 q) in
    let name : slice path ≡ drop 12 q =
      rw (rest, short) (take-append (drop 12 q) (codes "/logs")) in
    front
    ∙ ap (◌++◌ (codes "/containers/"))
        (sym (ap (drop 12) front) ∙ rest ∙ ap (λ t. t ++ codes "/logs") (sym name))

-- What the log branch lets through.
logs_sound :
    (target path query : Text) {t : Text}
    → logs target path query ≡ allowed t
    → (until : Text) × IsName (slice path)
      × IsUntil until
      × (query ≡ log_query until)
      × (17 ≤ length path)
      × (target ≡ t)
unfolding logs
logs_sound target path query {t} h = elim (Option-cases (strip_prefix until_prefix query)) [
  | inl e ↦ ground arith
  | inr (r, e) ↦ elim (Option-cases (strip_suffix until_suffix r)) [
    | inl n ↦ ground arith
    | inr (until, n) ↦ (
      until,
      valid_container_name_sound (slice path) (ground arith),
      valid_until_sound until (ground arith),
      strip_prefix_sound until_prefix query e
          ∙ ap (◌++◌ until_prefix) (strip_suffix_sound until_suffix r n),
      ground arith,
      ground arith,
    )
  ]
]

pub headers_sound : (hs : List HeaderName) → any is_framing hs ≡ false → All (λ h. h ≡ other) hs
headers_sound [] h = tt
headers_sound (x ∷ hs) h = ground (arith, headers_sound hs)

module _ (json_string byte_serialize : Text → Text) where
  inventory_sound :
      (label_filter : Option Text) (target base : Text) {t : Text}
      → inventory json_string byte_serialize label_filter target base ≡ allowed t
      → (target ≡ t) × (target ≡ expected json_string byte_serialize label_filter base)
  unfolding inventory
  inventory_sound label_filter target base h =
      ground (arith, text_eq_sound target (expected json_string byte_serialize label_filter base))

  abbrev Passes : Option Text → Text → Text → Type 0
  Passes label_filter target t =
      (target ≡ t) × Permitted json_string byte_serialize label_filter target

  log_branch_sound :
      (label_filter : Option Text) (target path query : Text) {t : Text}
      → (target ≡ path ++ b'?' ∷ query) ⊎ (query ≡ [])
      → (starts_with (codes "/containers/") path && ends_with (codes "/logs") path) ≡ true
      → logs target path query ≡ allowed t
      → Passes label_filter target t
  log_branch_sound label_filter target path query (inl split) ends h =
      let (until, named, timed, q, long, same) = logs_sound target path query h in
      let whole = slice_middle path (ground arith) (ground arith) long in
      (same, read_logs (slice path) until named timed (split ∙ cc (whole, q)))
  log_branch_sound label_filter target path query (inr empty) ends h =
      let (until, named, timed, q, long, same) = logs_sound target path query h in
      absurd (cc (empty, q))

  route_sound :
      (label_filter : Option Text) (target path query : Text) {t : Text}
      → (target ≡ path ++ b'?' ∷ query) ⊎ (query ≡ [])
      → route json_string byte_serialize label_filter target path query ≡ allowed t
      → Passes label_filter target t
  unfolding route
  route_sound label_filter target path query {t} split h =
      elim (Bool-cases (text_eq path containers_json)) [
        | inl e ↦
            let p =
              inventory_sound label_filter target (containers_json ++ codes "?all=true&size=false")
                {t = t} (ground arith) in
            (p.0, read_containers p.1)
        | inr e ↦ elim (Bool-cases (text_eq path networks)) [
          | inl e' ↦
              let p =
                inventory_sound label_filter target (networks ++ codes "?") {t = t}
                  (ground arith) in
              (p.0, read_networks p.1)
          | inr e' ↦ elim (Bool-cases (text_eq path volumes)) [
            | inl e'' ↦
                let p =
                  inventory_sound label_filter target (volumes ++ codes "?") {t = t}
                    (ground arith) in
                (p.0, read_volumes p.1)
            | inr e'' ↦
                elim (Bool-cases
                  (starts_with (codes "/containers/") path && ends_with (codes "/logs") path)) [
                    | inl ends ↦
                        log_branch_sound label_filter target path query split ends (ground arith)
                    | inr ends ↦ absurd (ground arith)
                  ]
          ]
        ]
      ]

  split_target :
      (target : Text)
      → let parts = unwrap_or (target, []) (split_once b'?' target) in
        (target ≡ parts.0 ++ b'?' ∷ parts.1) ⊎ (parts.1 ≡ [])
  split_target target = elim (Option-cases (split_once b'?' target)) [
    | inl e ↦ inr (rw e)
    | inr (p, e) ↦ inl (rw e (split_once_sound b'?' target e))
  ]

  check_target_sound :
      (label_filter : Option Text) (target : Text) {t : Text}
      → check_target json_string byte_serialize label_filter target ≡ allowed t
      → Passes label_filter target t
  unfolding check_target
  check_target_sound label_filter target {t} h =
      let parts = unwrap_or (target, []) (split_once b'?' target) in
      route_sound label_filter target parts.0 parts.1 (split_target target) (ground arith)

  -- Whatever the gateway lets through, it passes on verbatim, and it is a clean GET of a permitted
  -- target: an inventory read with the exact query of the label filter, or the bounded read of one
  -- container's log.
  pub allow_sound :
      (label_filter : Option Text) (request : Request) {t : Text}
      → allow json_string byte_serialize label_filter request ≡ allowed t
      → IsClean request
        × (request.path_and_query ≡ some t)
        × Permitted json_string byte_serialize label_filter t
  unfolding allow
  allow_sound label_filter request {t} h = elim (Option-cases request.path_and_query) [
    | inl e ↦ absurd (ground arith)
    | inr (target, e) ↦
        let (same, permitted) = check_target_sound label_filter target {t = t} (ground arith) in
        (
          record {
            method = ground arith;
            scheme = ground arith;
            authority = ground arith;
            headers = headers_sound request.headers (ground arith);
          },
          e ∙ ap some same,
          subst (Permitted json_string byte_serialize label_filter) same permitted,
        )
  ]
