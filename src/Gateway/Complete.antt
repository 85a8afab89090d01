-- ===== src/Gateway/Complete.antt =====
-- What is permitted passes the policy.
use docker_map.Common.{
  ◌≡◌, refl, sym, ◌∙◌, Bool, true, false, List, [], ◌∷◌, ◌++◌, Option, none, some, arith,
  if◌then◌else◌, any, All, Text, codes, text_eq, text_eq_refl, contains, starts_with, ends_with,
  contains_char, count_char,
}
use docker_map.Common.StringLaws.{
  split_once-append, count_char-append, count_char_none, contains_char-append,
}
use docker_map.Gateway.{
  HeaderName, other, Request, allowed, is_framing, containers_json, networks, volumes, bad_path,
  expected, filtered, inventory, route, check_target, allow,
}
use docker_map.Gateway.Permitted.{
  IsName, IsUntil, log_path, log_query, Permitted, read_containers, read_networks, read_volumes,
  read_logs, IsClean,
}
use docker_map.Gateway.LogRead.{route-log, good_log_path, no_question, log_query_lacks}

separator_lacks : (b : Bool) → contains_char b'?' (if b then [] else codes "&") ≡ false
unfolding contains_char
separator_lacks true = refl
separator_lacks false = refl

filters_lacks : contains_char b'?' (codes "filters=") ≡ false
unfolding contains_char
filters_lacks = refl

pub headers_complete : (hs : List HeaderName) → All (λ h. h ≡ other) hs → any is_framing hs ≡ false
headers_complete [] v = refl
headers_complete (x ∷ hs) v = ground (arith, headers_complete hs v.1)

module _ (json_string byte_serialize : Text → Text) where
  -- A target is cut at its only question mark, and routed by its path.
  pub check_target-route :
      (label_filter : Option Text) (path rest : Text)
      → starts_with (codes "/") (path ++ b'?' ∷ rest) ≡ true
      → starts_with (codes "//") (path ++ b'?' ∷ rest) ≡ false
      → contains_char b'?' path ≡ false
      → contains_char b'?' rest ≡ false
      → bad_path path ≡ false
      → check_target json_string byte_serialize label_filter (path ++ b'?' ∷ rest)
        ≡ route json_string byte_serialize label_filter (path ++ b'?' ∷ rest) path rest
  unfolding check_target
  check_target-route label_filter path rest slash double hp hr good =
      let one : count_char b'?' (path ++ b'?' ∷ rest) ≡ 1 =
        unfold count_char in
        omega (
          arith,
          count_char-append b'?' path (b'?' ∷ rest),
          count_char_none b'?' path hp,
          count_char_none b'?' rest hr,
        ) in
      rw (slash, double, split_once-append b'?' path rest hp, one, good)

  inventory_complete :
      (label_filter : Option Text) (target base : Text)
      → target ≡ expected json_string byte_serialize label_filter base
      → inventory json_string byte_serialize label_filter target base ≡ allowed target
  unfolding inventory
  inventory_complete label_filter target base e = rw (← e, text_eq_refl target)

  -- What stands behind the question mark of an inventory read.
  inventory_query : Option Text → Text → Text → Text
  inventory_query none base query = query
  inventory_query (some label) base query =
      query
      ++ ((if ends_with (codes "?") base then [] else codes "&")
          ++ (codes "filters="
              ++ byte_serialize (codes "{\"label\":[" ++ (json_string label ++ codes "]}"))))

  module _ (plain : (s : Text) → contains_char b'?' (byte_serialize s) ≡ false) where
    inventory_query_lacks :
        (label_filter : Option Text) (base query : Text)
        → contains_char b'?' query ≡ false
        → contains_char b'?' (inventory_query label_filter base query) ≡ false
    unfolding inventory_query
    inventory_query_lacks none base query h = h
    inventory_query_lacks (some label) base query h =
        let json = codes "{\"label\":[" ++ (json_string label ++ codes "]}") in
        ground (
          arith,
          h,
          contains_char-append b'?' query (
              (if ends_with (codes "?") base then [] else codes "&")
              ++ (codes "filters=" ++ byte_serialize json)),
          contains_char-append b'?' (if ends_with (codes "?") base then [] else codes "&")
              (codes "filters=" ++ byte_serialize json),
          separator_lacks (ends_with (codes "?") base),
          contains_char-append b'?' (codes "filters=") (byte_serialize json),
          filters_lacks,
          plain json,
        )

    containers_split :
        (label_filter : Option Text)
        → expected json_string byte_serialize label_filter
            (containers_json ++ codes "?all=true&size=false")
          ≡ containers_json
            ++ b'?'
              ∷ inventory_query label_filter
                  (containers_json ++ codes "?all=true&size=false")
                  (codes "all=true&size=false")
    unfolding expected filtered inventory_query
    containers_split none = refl
    containers_split (some label) = refl

    containers_complete :
        (label_filter : Option Text)
        → let target =
            expected json_string byte_serialize label_filter
              (containers_json ++ codes "?all=true&size=false") in
          check_target json_string byte_serialize label_filter target ≡ allowed target
    containers_complete label_filter = rw (containers_split label_filter) (
        check_target-route label_filter containers_json
          (inventory_query label_filter (containers_json ++ codes "?all=true&size=false")
            (codes "all=true&size=false"))
          (unfold starts_with in refl) (unfold starts_with in refl) (unfold contains_char in refl)
          (inventory_query_lacks label_filter (containers_json ++ codes "?all=true&size=false")
            (codes "all=true&size=false") (unfold contains_char in refl))
          (unfold bad_path contains starts_with ends_with contains_char in refl)
        ∙ unfold route text_eq in
          inventory_complete label_filter _ (containers_json ++ codes "?all=true&size=false")
            (sym (containers_split label_filter)))

    networks_split :
        (label_filter : Option Text)
        → expected json_string byte_serialize label_filter (networks ++ codes "?")
          ≡ networks ++ b'?' ∷ inventory_query label_filter (networks ++ codes "?") (codes "")
    unfolding expected filtered inventory_query
    networks_split none = refl
    networks_split (some label) = refl

    networks_complete :
        (label_filter : Option Text)
        → let target = expected json_string byte_serialize label_filter (networks ++ codes "?") in
          check_target json_string byte_serialize label_filter target ≡ allowed target
    networks_complete label_filter = rw (networks_split label_filter) (
        check_target-route label_filter networks
          (inventory_query label_filter (networks ++ codes "?") (codes ""))
          (unfold starts_with in refl) (unfold starts_with in refl) (unfold contains_char in refl)
          (inventory_query_lacks label_filter (networks ++ codes "?") (codes "")
            (unfold contains_char in refl))
          (unfold bad_path contains starts_with ends_with contains_char in refl)
        ∙ unfold route text_eq in
          inventory_complete label_filter _ (networks ++ codes "?")
            (sym (networks_split label_filter)))

    volumes_split :
        (label_filter : Option Text)
        → expected json_string byte_serialize label_filter (volumes ++ codes "?")
          ≡ volumes ++ b'?' ∷ inventory_query label_filter (volumes ++ codes "?") (codes "")
    unfolding expected filtered inventory_query
    volumes_split none = refl
    volumes_split (some label) = refl

    volumes_complete :
        (label_filter : Option Text)
        → let target = expected json_string byte_serialize label_filter (volumes ++ codes "?") in
          check_target json_string byte_serialize label_filter target ≡ allowed target
    volumes_complete label_filter = rw (volumes_split label_filter) (
        check_target-route label_filter volumes
          (inventory_query label_filter (volumes ++ codes "?") (codes ""))
          (unfold starts_with in refl) (unfold starts_with in refl) (unfold contains_char in refl)
          (inventory_query_lacks label_filter (volumes ++ codes "?") (codes "")
            (unfold contains_char in refl))
          (unfold bad_path contains starts_with ends_with contains_char in refl)
        ∙ unfold route text_eq in
          inventory_complete label_filter _ (volumes ++ codes "?")
            (sym (volumes_split label_filter)))

    log_complete :
        (label_filter : Option Text) (name until : Text)
        → IsName name
        → IsUntil until
        → let target = log_path name ++ b'?' ∷ log_query until in
          check_target json_string byte_serialize label_filter target ≡ allowed target
    log_complete label_filter name until v u =
        check_target-route label_filter (log_path name) (log_query until)
          (unfold starts_with in refl) (unfold starts_with in refl) (no_question name v)
          (log_query_lacks b'?' until u (omega arith) (unfold contains_char in refl)
            (unfold contains_char in refl))
          (good_log_path name v)
        ∙ route-log json_string byte_serialize label_filter _ name until v u

    check_target_complete :
        (label_filter : Option Text) (target : Text)
        → Permitted json_string byte_serialize label_filter target
        → check_target json_string byte_serialize label_filter target ≡ allowed target
    check_target_complete label_filter target (read_containers e) =
        rw e (containers_complete label_filter)
    check_target_complete label_filter target (read_networks e) =
        rw e (networks_complete label_filter)
    check_target_complete label_filter target (read_volumes e) =
        rw e (volumes_complete label_filter)
    check_target_complete label_filter target (read_logs name until v u e) =
        rw e (log_complete label_filter name until v u)

    -- Every clean GET of a permitted target passes, and is passed on verbatim, given that the
    -- serializer of form data leaves no question mark.
    pub allow_complete :
        (label_filter : Option Text) (request : Request) (target : Text)
        → IsClean request
        → request.path_and_query ≡ some target
        → Permitted json_string byte_serialize label_filter target
        → allow json_string byte_serialize label_filter request ≡ allowed target
    unfolding allow
    allow_complete label_filter request target clean e permitted = ground (
      arith,
      headers_complete request.headers clean.headers,
      check_target_complete label_filter target permitted,
    )
