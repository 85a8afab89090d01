-- ===== src/Gateway/Panic.antt =====
-- The one class of requests at which the policy panics: the slice of the log branch starts at 12,
-- and in `/containers/logs` the suffix `/logs` begins before that.
use docker_map.Common.{
  ℕ, zero, suc, ◌-◌, ◌≤◌, ◌<◌, ◌≡◌, ◌≢◌, ◌⊎◌, inl, inr, refl, sym, ap, ◌∙◌, true, false, [], ◌∷◌,
  ◌++◌, Option, some, arith, Option-cases, unwrap_or, length, length-append, drop, get_elem?, Text,
  codes, text_eq, starts_with, ends_with, contains, contains_char, split_once,
}
use docker_map.Common.StringLaws.{starts_with_sound, ends_with_sound, split_once_sound}
use docker_map.Gateway.{
  Request, panicked, containers_json, networks, volumes, logs, bad_path, inventory, route,
  check_target, allow,
}
use docker_map.Gateway.Permitted.{IsClean}
use docker_map.Gateway.Sound.{headers_sound}
use docker_map.Gateway.Complete.{check_target-route, headers_complete}

abbrev pub containers_logs : Text
containers_logs = codes "/containers/logs"

get_elem?-behind : (q r : Text) (c : ℕ) → get_elem? (q ++ c ∷ r) (length q) ≡ some c
get_elem?-behind [] r c = refl
get_elem?-behind (x ∷ q) r c = get_elem?-behind q r c

drop-behind : (q r : Text) → drop (length q) (q ++ r) ≡ r
drop-behind [] r = refl
drop-behind (x ∷ q) r = drop-behind q r

slash_index : (k : ℕ) (r : Text) → k < 5 → get_elem? (codes "ners/" ++ r) k ≡ some b'/' → k ≡ 4
slash_index zero r h e = ground arith
slash_index (suc zero) r h e = ground arith
slash_index (suc (suc zero)) r h e = ground arith
slash_index (suc (suc (suc zero))) r h e = ground arith
slash_index (suc (suc (suc (suc k)))) r h e = omega arith

-- Where the second slash of `/containers/` stands.
second_slash :
    (n : ℕ) (r : Text)
    → 7 ≤ n
    → n < 12
    → get_elem? (codes "/containers/" ++ r) n ≡ some b'/'
    → n ≡ 11
second_slash n r lo hi h =
    let e : n ≡ suc (suc (suc (suc (suc (suc (suc (n - 7))))))) = omega arith in
    omega (
      arith,
      slash_index (n - 7) r (omega arith) (ap (get_elem? (codes "/containers/" ++ r)) (sym e) ∙ h),
    )

overlap :
    (path : Text)
    → starts_with (codes "/containers/") path ≡ true
    → ends_with (codes "/logs") path ≡ true
    → length path < 17
    → path ≡ containers_logs
overlap path a b short =
    let (r, front) = starts_with_sound (codes "/containers/") path a in
    let (q, back) = ends_with_sound (codes "/logs") path b in
    let long = ap length (sym front ∙ back) in
    let at : length q ≡ 11 =
      second_slash (length q) r (omega (arith, long, length-append q (codes "/logs")))
        (omega (arith, ap length back, length-append q (codes "/logs")))
        (ap (λ t. get_elem? t (length q)) (sym front ∙ back)
          ∙ get_elem?-behind q (codes "logs") b'/') in
    let rest : b'/' ∷ r ≡ codes "/logs" =
      ap (drop 11) (sym front ∙ back)
      ∙ ap (λ n. drop n (q ++ codes "/logs")) (sym at)
      ∙ drop-behind q (codes "/logs") in
    front ∙ ap (◌++◌ (codes "/containers")) rest

split_path :
    (target : Text)
    → let parts = unwrap_or (target, []) (split_once b'?' target) in
      (target ≡ parts.0) ⊎ (target ≡ parts.0 ++ b'?' ∷ parts.1)
split_path target = elim (Option-cases (split_once b'?' target)) [
  | inl e ↦ inl (rw e)
  | inr (p, e) ↦ inr (rw e (split_once_sound b'?' target e))
]

-- The targets whose path is `/containers/logs`.
abbrev pub IsLogsPath : Text → Type 0
IsLogsPath target =
    (target ≡ containers_logs) ⊎ ((query : Text) × (target ≡ containers_logs ++ b'?' ∷ query))

module _ (json_string byte_serialize : Text → Text) (label_filter : Option Text) where
  inventory_fine :
      (target base : Text)
      → inventory json_string byte_serialize label_filter target base ≢ panicked
  unfolding inventory
  inventory_fine target base h = ground arith

  logs_panics : (target path query : Text) → logs target path query ≡ panicked → length path < 17
  unfolding logs
  logs_panics target path query h = ground arith

  route_panics :
      (target path query : Text)
      → route json_string byte_serialize label_filter target path query ≡ panicked
      → path ≡ containers_logs
  unfolding route
  route_panics target path query h = ground (
    arith,
    inventory_fine target (containers_json ++ codes "?all=true&size=false"),
    inventory_fine target (networks ++ codes "?"),
    inventory_fine target (volumes ++ codes "?"),
    logs_panics target path query,
    overlap path,
  )

  check_target_panics :
      (target : Text)
      → check_target json_string byte_serialize label_filter target ≡ panicked
      → IsLogsPath target
  unfolding check_target
  check_target_panics target h =
      let parts = unwrap_or (target, []) (split_once b'?' target) in
      let path : parts.0 ≡ containers_logs = route_panics target parts.0 parts.1 (ground arith) in
      elim (split_path target) [
        | inl e ↦ inl (e ∙ path)
        | inr e ↦ inr (parts.1, e ∙ ap (λ t. t ++ b'?' ∷ parts.1) path)
      ]

  logs_path_panics :
      (query : Text)
      → contains_char b'?' query ≡ false
      → check_target json_string byte_serialize label_filter (containers_logs ++ b'?' ∷ query)
        ≡ panicked
  logs_path_panics query h =
      check_target-route json_string byte_serialize label_filter containers_logs query
        (unfold starts_with in refl) (unfold starts_with in refl) (unfold contains_char in refl) h
        (unfold bad_path contains starts_with ends_with contains_char in refl)
      ∙ unfold route text_eq starts_with ends_with logs in refl

  -- A clean GET whose path is `/containers/logs`, with any query that holds no question mark,
  -- makes the policy panic instead of denying it; and every request at which it panics is a clean
  -- GET with that path.
  pub allow_panics :
      (request : Request)
      → ((query : Text)
          → IsClean request
          → request.path_and_query ≡ some (containers_logs ++ b'?' ∷ query)
          → contains_char b'?' query ≡ false
          → allow json_string byte_serialize label_filter request ≡ panicked)
        × (allow json_string byte_serialize label_filter request ≡ panicked
            → IsClean request
              × (target : Text) × (request.path_and_query ≡ some target)
              × IsLogsPath target)
  unfolding allow
  allow_panics request = (
    λ query clean e h. ground (
      arith,
      headers_complete request.headers clean.headers,
      logs_path_panics query h,
      clean.method,
      clean.scheme,
      clean.authority,
    ),
    λ h. elim (Option-cases request.path_and_query) [
      | inl e ↦ absurd (ground arith)
      | inr (target, e) ↦ (
        record {
          method = ground arith;
          scheme = ground arith;
          authority = ground arith;
          headers = headers_sound request.headers (ground arith);
        },
        target,
        e,
        check_target_panics target (ground arith),
      )
    ],
  )
