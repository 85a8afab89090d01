-- ===== src/Gateway/Tests.antt =====
-- Runs of the gateway's policy and handler, with serializers that stand for `serde_json` and
-- `form_urlencoded`.
use docker_map.Common.{
  ℕ, ◌+◌, ◌/◌, ◌%◌, ◌≡◌, ◌∙◌, refl, true, false, ◌||◌, ◌&&◌, [], ◌∷◌, ◌++◌, Option, none, some,
  arith, ltb, ap, leb, ◌==◌, if◌then◌else◌, Text, codes, is_empty, contains_char,
}
use docker_map.Gateway.{
  get, other, Request, allowed, panicked, allow, new, expected, containers_json,
}
use docker_map.Gateway.Permitted.{IsClean, Permitted, read_logs, log_path, log_query}
use docker_map.Gateway.Sound.{allow_sound}
use docker_map.Gateway.Complete.{allow_complete}
use docker_map.Gateway.Handler.{
  Peers, forwarded, handle_body, handle, handle-allowed, handle_guards,
}
use docker_map.Gateway.Panic.{IsLogsPath, containers_logs, allow_panics}

-- JSON without the escapes, which no text below needs.
abbrev quoted : Text → Text
quoted s = b'"' ∷ (s ++ b'"' ∷ [])

abbrev hex : ℕ → ℕ
hex d = if ltb d 10 then b'0' + d else 55 + d

-- The serializer of form data: letters, digits, `*`, `-`, `.` and `_` stay, a blank is `+`, and any
-- other byte is escaped.
abbrev form_byte : ℕ → Text
form_byte c =
    if (leb b'a' c && leb c b'z')
      || (leb b'A' c && leb c b'Z')
      || (leb b'0' c && leb c b'9')
      || c == b'*'
      || c == b'-'
      || c == b'.'
      || c == b'_'
    then c ∷ []
    else if c == 32
    then b'+' ∷ []
    else b'%' ∷ hex (c / 16 % 16) ∷ hex (c % 16) ∷ []

abbrev form : Text → Text
form [] = []
form (c ∷ s) = form_byte c ++ form s

form_plain : (s : Text) → contains_char b'?' (form s) ≡ false
unfolding contains_char
form_plain [] = refl
form_plain (c ∷ s) = ground (arith, form_plain s)

abbrev request_of : Text → Request
request_of target = record {
  method = get;
  scheme = none;
  authority = none;
  headers = other ∷ [];
  path_and_query = some target;
}

clean : (target : Text) → IsClean (request_of target)
clean target = record { method = refl; scheme = refl; authority = refl; headers = (refl, tt) }

abbrev log_target : Text
log_target = log_path (codes "web-1") ++ b'?' ∷ log_query (codes "1787198706")

log_target-Permitted : (label_filter : Option Text) → Permitted quoted form label_filter log_target
log_target-Permitted label_filter =
    read_logs (codes "web-1") (codes "1787198706") (ground arith) (ground arith) refl

allow_complete_example :
    allow quoted form (some (codes "app=web")) (request_of log_target) ≡ allowed log_target
allow_complete_example =
    allow_complete quoted form form_plain (some (codes "app=web")) (request_of log_target)
      log_target (clean log_target) refl (log_target-Permitted (some (codes "app=web")))

allow_log :
    (label_filter : Option Text)
    → allow quoted form label_filter (request_of log_target) ≡ allowed log_target
allow_log label_filter =
    allow_complete quoted form form_plain label_filter (request_of log_target) log_target
      (clean log_target) refl (log_target-Permitted label_filter)

allow_sound_example :
    IsClean (request_of log_target)
    × (some log_target ≡ some log_target)
    × Permitted quoted form (some (codes "app=web")) log_target
allow_sound_example =
    allow_sound quoted form (some (codes "app=web")) (request_of log_target) {t = log_target}
      (allow_log (some (codes "app=web")))

abbrev peers : Peers
peers = record { body = some []; connects = true; exchanges = true }

abbrev containers_target : Text
containers_target =
    expected quoted form (new (some (codes " app=web ")))
      (containers_json ++ codes "?all=true&size=false")

contacted : (handle_body log_target peers).1 ≡ true
unfolding handle_body is_empty
contacted = refl

handle_log : (handle quoted form none (request_of log_target) peers).1 ≡ true
handle_log =
    ap (λ p. p.1)
      (handle-allowed quoted form none (request_of log_target) peers {target = log_target}
        (allow_log (new none)))
    ∙ contacted

handle_guards_example :
    (target : Text) × IsClean (request_of log_target)
    × (some log_target ≡ some target)
    × Permitted quoted form (new none) target
    × (peers.body ≡ some [])
    × ((t : Text)
        → (handle quoted form none (request_of log_target) peers).0 ≡ forwarded t
        → t ≡ target)
handle_guards_example = handle_guards quoted form none (request_of log_target) peers handle_log

-- A log read with no container named.
abbrev no_id : Text
no_id = containers_logs ++ b'?' ∷ []

allow_panics_example :
    ((query : Text)
      → IsClean (request_of no_id)
      → some no_id ≡ some (containers_logs ++ b'?' ∷ query)
      → contains_char b'?' query ≡ false
      → allow quoted form none (request_of no_id) ≡ panicked)
    × (allow quoted form none (request_of no_id) ≡ panicked
        → IsClean (request_of no_id)
          × (target : Text) × (some no_id ≡ some target)
          × IsLogsPath target)
allow_panics_example = allow_panics quoted form none (request_of no_id)
