-- ===== src/Gateway.antt =====
-- crates/dockermap-docker-gateway/src/lib.rs: the default-deny policy of the Docker Read Gateway,
-- the handler of one request, and the check of the label filter at start-up.
mod Wire
pub mod Permitted
mod LogRead
pub mod Sound
pub mod Complete
pub mod Handler
pub mod Panic
mod Tests
use docker_map.Common.{
  ℕ, suc, ◌+◌, ◌-◌, ◌≡◌, refl, Bool, true, false, not, ◌&&◌, ◌||◌, List, [], ◌∷◌, ◌++◌, Option,
  none, some, ltb, leb, ◌==◌, if◌then◌else◌, ◌>>=◌, unwrap_or, is_some, is_some_and, any, all,
  length, take, drop, Text, codes, text_eq, len, is_empty, is_ascii_digit, strip_prefix,
  strip_suffix, starts_with, ends_with, contains, contains_char, count_char, split_once, trim,
}
pub use Wire.{Method, get, HeaderName, other, Request, Verdict, allowed, denied, panicked, Deny}

abbrev pub is_get : Method → Bool
is_get get = true
is_get _ = false

-- A header that could frame a body or change the protocol.
abbrev pub is_framing : HeaderName → Bool
is_framing other = false
is_framing _ = true

abbrev pub containers_json : Text
containers_json = codes "/containers/json"

abbrev pub networks : Text
networks = codes "/networks"

abbrev pub volumes : Text
volumes = codes "/volumes"

abbrev pub until_prefix : Text
until_prefix = codes "follow=false&stdout=true&stderr=true&since=0&until="

abbrev pub until_suffix : Text
until_suffix = codes "&timestamps=true&tail=4096"

valid_from : Bool → Text → Bool
unfolding is_ascii_digit
valid_from first [] = true
valid_from first (c ∷ s) =
    (leb b'a' c && leb c b'z'
      || leb b'A' c && leb c b'Z'
      || is_ascii_digit c
      || (c == b'_' || c == b'.' || c == b'-') && not first)
    && valid_from false s

pub valid_container_name : Text → Bool
unfolding valid_from is_empty
valid_container_name name = not (is_empty name) && leb (len name) 255 && valid_from true name

-- `0`, or digits that do not begin with 0.
pub valid_until : Text → Bool
unfolding is_ascii_digit
valid_until [] = false
valid_until (c ∷ s) =
    text_eq (c ∷ s) (codes "0") || is_ascii_digit c && not (c == b'0') && all is_ascii_digit s

-- Of a path between `/containers/` and `/logs`, the name; the slice panics where these overlap.
pub logs : Text → Text → Text → Verdict
logs target path query =
    if ltb (length path) 17
    then panicked
    else if not (valid_container_name (take (length path - 17) (drop 12 path)))
    then denied Deny.target
    else elim (strip_prefix until_prefix query >>= strip_suffix until_suffix) [
      | none ↦ denied Deny.query
      | some until ↦
          if not (valid_until until) || not (count_char b'&' query == 6) || contains_char b'%' query
          then denied Deny.query
          else allowed target
    ]

pub bad_path : Text → Bool
bad_path path =
    contains (codes "/./") path
    || contains (codes "/../") path
    || ends_with (codes "/.") path
    || ends_with (codes "/..") path
    || contains_char b'%' path
    || contains_char b'\\' path

-- `serde_json::to_string` of a text and `form_urlencoded::byte_serialize` are not the program's.
module _ (json_string byte_serialize : Text → Text) where
  -- `filters=`, percent-encoded, behind the separator that the base wants.
  pub filtered : Text → Text → Text
  unfolding ends_with
  filtered label base =
      base
      ++ ((if ends_with (codes "?") base then [] else codes "&")
          ++ (codes "filters="
              ++ byte_serialize (codes "{\"label\":[" ++ (json_string label ++ codes "]}"))))

  -- The one target that an inventory read must have.
  pub expected : Option Text → Text → Text
  expected none base = base
  expected (some label) base = filtered label base

  pub inventory : Option Text → Text → Text → Verdict
  inventory label_filter target base =
      if text_eq target (expected label_filter base) then allowed target else denied Deny.query

  pub route : Option Text → Text → Text → Text → Verdict
  route label_filter target path query =
      if text_eq path containers_json
      then inventory label_filter target (containers_json ++ codes "?all=true&size=false")
      else if text_eq path networks
      then inventory label_filter target (networks ++ codes "?")
      else if text_eq path volumes
      then inventory label_filter target (volumes ++ codes "?")
      else if starts_with (codes "/containers/") path && ends_with (codes "/logs") path
      then logs target path query
      else denied Deny.target

  pub check_target : Option Text → Text → Verdict
  check_target label_filter target =
      if not (starts_with (codes "/") target) || starts_with (codes "//") target
      then denied Deny.target
      else (let (path, query) = unwrap_or (target, []) (split_once b'?' target) in
          if ltb 1 (count_char b'?' target) || bad_path path
          then denied Deny.target
          else route label_filter target path query)

  pub allow : Option Text → Request → Verdict
  allow label_filter request =
      if not (is_get request.method)
      then denied Deny.method
      else if is_some request.scheme || is_some request.authority
      then denied Deny.target
      else if any is_framing request.headers
      then denied Deny.framing
      else elim request.path_and_query [
        | none ↦ denied Deny.target
        | some target ↦ check_target label_filter target
      ]

-- `Policy::new`: an empty label is no label.
unfoldable pub new : Option Text → Option Text
unfolding trim is_empty
new label_filter = do
  value ← label_filter
  if is_empty (trim value) then none else some (trim value)
