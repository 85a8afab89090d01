-- ===== src/Gateway/LogRead.antt =====
-- The permitted read of a log passes the tests on its path and its query.
use mathlib.Core.List.{reverse, reverse-append}
use docker_map.Common.{
  ℕ, ◌-◌, ◌≡◌, ◌⊎◌, inl, inr, refl, ap, ◌∙◌, true, false, [], ◌∷◌, ◌++◌, Option, arith, Bool-cases,
  all, All, length, length-append, take-append, take, drop, Text, codes, text_eq, text_eq_sound,
  contains, len, is_ascii_digit, starts_with, ends_with, contains_char, count_char,
}
use docker_map.Common.Decimal.{IsDigit}
use docker_map.Common.StringLaws.{
  strip_prefix-append, strip_suffix-append, starts_with-append, ends_with-append, count_char-append,
  count_char_none, contains_char-append,
}
use docker_map.Gateway.{
  allowed, containers_json, until_prefix, until_suffix, valid_container_name, valid_from,
  valid_until, logs, bad_path, route,
}
use docker_map.Gateway.Permitted.{IsNameChar, IsName, IsUntil, log_path, log_query}

all-digits : (s : Text) → All IsDigit s → all is_ascii_digit s ≡ true
unfolding is_ascii_digit
all-digits [] v = refl
all-digits (c ∷ s) v = ground (arith, all-digits s v.1)

valid_until_complete : (u : Text) → IsUntil u → valid_until u ≡ true
unfolding valid_until text_eq
valid_until_complete [] v = absurd v
valid_until_complete (c ∷ s) (inl v) = ground arith
valid_until_complete (c ∷ s) (inr v) = ground (arith, all-digits s v.1)

valid_from_complete : (s : Text) → All IsNameChar s → valid_from false s ≡ true
unfolding valid_from
valid_from_complete [] v = refl
valid_from_complete (c ∷ s) v = ground (arith, valid_from_complete s v.1)

len-name : (s : Text) → All IsNameChar s → len s ≡ length s
unfolding len
len-name [] v = refl
len-name (c ∷ s) v = ground (arith, len-name s v.1)

name-chars : (s : Text) → IsName s → All IsNameChar s
name-chars [] v = absurd v
name-chars (c ∷ s) v = (inl v.0, v.1)

valid_container_name_complete : (s : Text) → IsName s → valid_container_name s ≡ true
unfolding valid_container_name
valid_container_name_complete [] v = absurd v
valid_container_name_complete (c ∷ s) v =
    ground (arith, valid_from_complete s v.1, len-name (c ∷ s) (inl v.0, v.1))

-- A `char` that no name holds.
abbrev pub IsForeign : ℕ → Type 0
IsForeign c = (c ≡ b'/') ⊎ ((c ≡ b'?') ⊎ ((c ≡ b'%') ⊎ ((c ≡ b'\\') ⊎ (c ≡ b'&'))))

name_lacks : (c : ℕ) (s : Text) → IsForeign c → All IsNameChar s → contains_char c s ≡ false
unfolding contains_char
name_lacks c [] f v = refl
name_lacks c (d ∷ s) f v = ground (arith, name_lacks c s f v.1)

digits_lack : (c : ℕ) (s : Text) → IsForeign c → All IsDigit s → contains_char c s ≡ false
unfolding contains_char
digits_lack c [] f v = refl
digits_lack c (d ∷ s) f v = ground (arith, digits_lack c s f v.1)

until_lacks : (c : ℕ) (s : Text) → IsForeign c → IsUntil s → contains_char c s ≡ false
unfolding contains_char
until_lacks c [] f v = refl
until_lacks c (d ∷ s) f (inl v) = ground arith
until_lacks c (d ∷ s) f (inr v) = ground (arith, digits_lack c s f v.1)

wrapped_lacks :
    (c : ℕ) (p s q : Text)
    → contains_char c p ≡ false
    → contains_char c s ≡ false
    → contains_char c q ≡ false
    → contains_char c (p ++ (s ++ q)) ≡ false
wrapped_lacks c p s q hp hs hq =
    rw (contains_char-append c p (s ++ q), contains_char-append c s q, hp, hs, hq)

dot_segment :
    (q name : Text)
    → All IsNameChar name
    → contains (b'/' ∷ b'.' ∷ q) (name ++ codes "/logs") ≡ false
unfolding contains
dot_segment q [] v = refl
dot_segment q (c ∷ s) v = ground (arith, dot_segment q s v.1)

log_path_dots : (q name : Text) → IsName name → contains (b'/' ∷ b'.' ∷ q) (log_path name) ≡ false
unfolding contains
log_path_dots q [] v = absurd v
log_path_dots q (c ∷ s) v = ground (arith, dot_segment q (c ∷ s) (inl v.0, v.1))

ends_logs :
    (p s : Text)
    → ends_with p (s ++ codes "/logs")
      ≡ starts_with (reverse p) (reverse (codes "/logs") ++ reverse s)
unfolding ends_with
ends_logs p s = rw (reverse-append s (codes "/logs"))

log_path_lacks :
    (c : ℕ) (name : Text)
    → IsName name
    → IsForeign c
    → contains_char c (codes "/containers/") ≡ false
    → contains_char c (codes "/logs") ≡ false
    → contains_char c (log_path name) ≡ false
log_path_lacks c name v f hp hq =
    wrapped_lacks c (codes "/containers/") name (codes "/logs") hp
      (name_lacks c name f (name-chars name v)) hq

no_dot_end : (name : Text) → ends_with (codes "/.") (log_path name) ≡ false
no_dot_end name = ends_logs (codes "/.") (codes "/containers/" ++ name) ∙ unfold starts_with in refl

no_dots_end : (name : Text) → ends_with (codes "/..") (log_path name) ≡ false
no_dots_end name =
    ends_logs (codes "/..") (codes "/containers/" ++ name) ∙ unfold starts_with in refl

no_percent : (name : Text) → IsName name → contains_char b'%' (log_path name) ≡ false
no_percent name v =
    log_path_lacks b'%' name v (omega arith) (unfold contains_char in refl)
      (unfold contains_char in refl)

no_backslash : (name : Text) → IsName name → contains_char b'\\' (log_path name) ≡ false
no_backslash name v =
    log_path_lacks b'\\' name v (omega arith) (unfold contains_char in refl)
      (unfold contains_char in refl)

pub no_question : (name : Text) → IsName name → contains_char b'?' (log_path name) ≡ false
no_question name v =
    log_path_lacks b'?' name v (omega arith) (unfold contains_char in refl)
      (unfold contains_char in refl)

pub good_log_path : (name : Text) → IsName name → bad_path (log_path name) ≡ false
unfolding bad_path
good_log_path name v = ground (
  arith,
  log_path_dots (codes "/") name v,
  log_path_dots (codes "./") name v,
  no_dot_end name,
  no_dots_end name,
  no_percent name v,
  no_backslash name v,
)

pub log_query_lacks :
    (c : ℕ) (until : Text)
    → IsUntil until
    → IsForeign c
    → contains_char c until_prefix ≡ false
    → contains_char c until_suffix ≡ false
    → contains_char c (log_query until) ≡ false
log_query_lacks c until v f hp hq =
    wrapped_lacks c until_prefix until until_suffix hp (until_lacks c until f v) hq

six_fields : (until : Text) → IsUntil until → count_char b'&' (log_query until) ≡ 6
six_fields until v =
    let a : count_char b'&' until_prefix ≡ 4 = unfold count_char in refl in
    let b : count_char b'&' until_suffix ≡ 2 = unfold count_char in refl in
    omega (
      arith,
      count_char-append b'&' until_prefix (until ++ until_suffix),
      count_char-append b'&' until until_suffix,
      count_char_none b'&' until (until_lacks b'&' until (omega arith) v),
      a,
      b,
    )

slice_log_path : (name : Text) → take (length (log_path name) - 17) (drop 12 (log_path name)) ≡ name
slice_log_path name =
    let e : length (log_path name) - 17 ≡ length name =
      omega (arith, length-append name (codes "/logs")) in
    rw e (take-append name (codes "/logs"))

logs_complete :
    (target name until : Text)
    → IsName name
    → IsUntil until
    → logs target (log_path name) (log_query until) ≡ allowed target
unfolding logs
logs_complete target name until v u = ground (
  arith,
  length-append name (codes "/logs"),
  slice_log_path name,
  valid_container_name_complete name v,
  strip_prefix-append until_prefix (until ++ until_suffix),
  strip_suffix-append until_suffix until,
  valid_until_complete until u,
  six_fields until u,
  log_query_lacks b'%' until u (omega arith) (unfold contains_char in refl)
      (unfold contains_char in refl),
)

not_containers_json : (name : Text) → text_eq (log_path name) containers_json ≡ false
unfolding text_eq
not_containers_json name = elim (Bool-cases (text_eq (name ++ codes "/logs") (codes "json"))) [
  | inl e ↦
      let same = ap (contains_char b'/') (text_eq_sound (name ++ codes "/logs") (codes "json") e) in
      absurd (
        unfold contains_char in
        ground (arith, same, contains_char-append b'/' name (codes "/logs")))
  | inr e ↦ e
]

-- A clean read of a log passes the route.
pub route-log :
    (json_string byte_serialize : Text → Text) (label_filter : Option Text)
    (target name until : Text)
    → IsName name
    → IsUntil until
    → route json_string byte_serialize label_filter target (log_path name) (log_query until)
      ≡ allowed target
unfolding route
route-log json_string byte_serialize label_filter target name until v u =
    rw
      (
        not_containers_json name,
        starts_with-append (codes "/containers/") (name ++ codes "/logs"),
        ends_with-append (codes "/logs") (codes "/containers/" ++ name),
      )
      (unfold text_eq in logs_complete target name until v u)
