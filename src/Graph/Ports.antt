-- ===== src/Graph/Ports.antt =====
-- `is_host_published_docker_port`: which port texts prove that Docker bound a port of the host.
use docker_map.Common.{
  ℕ, ◌≤◌, ◌<◌, ◌≡◌, ◌≢◌, ◌⊎◌, refl, ap, ◌∙◌, Bool, true, false, not, ◌&&◌, ◌||◌, [], ◌∷◌, ◌++◌,
  none, some, arith, ltb, if◌then◌else◌, all, is_some_and, All, Option-cases, inl, inr, Text, codes,
  text_eq, text_eq_sound, is_empty, is_ascii_digit, split_once, contains_char,
}
use docker_map.Common.Decimal.{
  max_u16, parse_uint, IsDigit, to_string, parse_uint-to_string, to_string-IsDigit,
  to_string-ne-nil,
}
use docker_map.Common.StringLaws.{split_once_sound, split_once-append, contains_char-append}

-- A decimal number from 1 to 65535, in digits alone.
pub is_port : Text → Bool
unfolding is_ascii_digit
is_port s =
    not (is_empty s) && (all is_ascii_digit s && is_some_and (λ n. ltb 0 n) (parse_uint max_u16 s))

unfoldable pub is_protocol : Text → Bool
is_protocol p = text_eq p (codes "tcp") || (text_eq p (codes "udp") || text_eq p (codes "sctp"))

pub is_host_published_docker_port : Text → Bool
is_host_published_docker_port port = elim (split_once b':' port) [
  | none ↦ false
  | some (host, private_and_protocol) ↦
      if not (is_port host) || contains_char b':' private_and_protocol
      then false
      else elim (split_once b'/' private_and_protocol) [
        | none ↦ false
        | some (private, protocol) ↦ is_port private && is_protocol protocol
      ]
]

is_protocol_sound :
    (p : Text) → is_protocol p ≡ true → (p ≡ codes "tcp") ⊎ ((p ≡ codes "udp") ⊎ (p ≡ codes "sctp"))
unfolding is_protocol
is_protocol_sound p h = ground (
  arith,
  text_eq_sound p (codes "tcp"),
  text_eq_sound p (codes "udp"),
  text_eq_sound p (codes "sctp"),
)

-- A text that passes is a host port, a colon, a container port, a slash and one of three protocols.
pub is_host_published_docker_port_sound :
    (port : Text)
    → is_host_published_docker_port port ≡ true
    → (host private protocol : Text) × (port ≡ host ++ b':' ∷ (private ++ b'/' ∷ protocol))
      × (is_port host ≡ true)
      × (is_port private ≡ true)
      × ((protocol ≡ codes "tcp") ⊎ ((protocol ≡ codes "udp") ⊎ (protocol ≡ codes "sctp")))
unfolding is_host_published_docker_port
is_host_published_docker_port_sound port h = elim (Option-cases (split_once b':' port)) [
  | inl e ↦ absurd (ground arith)
  | inr ((host, rest), e) ↦ elim (Option-cases (split_once b'/' rest)) [
    | inl e' ↦ absurd (ground arith)
    | inr ((private, protocol), e') ↦ (
      host,
      private,
      protocol,
      split_once_sound b':' port e ∙ ap (λ r. host ++ b':' ∷ r) (split_once_sound b'/' rest e'),
      ground arith,
      ground arith,
      is_protocol_sound protocol (ground arith),
    )
  ]
]

digits_of : (s : Text) → All IsDigit s → all is_ascii_digit s ≡ true
unfolding is_ascii_digit
digits_of [] h = refl
digits_of (c ∷ s) h = ground (arith, digits_of s h.1)

digits_lack :
    (c : ℕ) (s : Text) → All IsDigit s → (c < b'0') ⊎ (b'9' < c) → contains_char c s ≡ false
unfolding contains_char
digits_lack c [] h n = refl
digits_lack c (d ∷ s) h n = ground (arith, digits_lack c s h.1 n)

not_empty : (s : Text) → s ≢ [] → is_empty s ≡ false
unfolding is_empty
not_empty [] n = absurd (n refl)
not_empty (c ∷ s) n = refl

is_port-to_string : (n : ℕ) → 1 ≤ n → n ≤ max_u16 → is_port (to_string n) ≡ true
unfolding is_port
is_port-to_string n lo hi = ground (
  arith,
  not_empty (to_string n) (to_string-ne-nil n),
  digits_of (to_string n) (to_string-IsDigit n),
  parse_uint-to_string max_u16 n hi,
)

protocol_plain : (p : Text) → is_protocol p ≡ true → contains_char b':' (b'/' ∷ p) ≡ false
unfolding contains_char
protocol_plain p h = elim (is_protocol_sound p h) [
  | inl e ↦ rw e refl
  | inr (inl e) ↦ rw e refl
  | inr (inr e) ↦ rw e refl
]

-- Every binding of a host port to a container port, as the collector prints it, is recognised.
pub is_host_published_docker_port-to_string :
    (host private : ℕ) (protocol : Text)
    → 1 ≤ host
    → host ≤ max_u16
    → 1 ≤ private
    → private ≤ max_u16
    → is_protocol protocol ≡ true
    → is_host_published_docker_port
        (to_string host ++ b':' ∷ (to_string private ++ b'/' ∷ protocol))
      ≡ true
unfolding is_host_published_docker_port
is_host_published_docker_port-to_string host private protocol h1 h2 p1 p2 known =
    let lacks = λ (c : ℕ) (n : ℕ) (out : (c < b'0') ⊎ (b'9' < c)).
      digits_lack c (to_string n) (to_string-IsDigit n) out in
    let colon =
      split_once-append b':' (to_string host) (to_string private ++ b'/' ∷ protocol)
        (lacks b':' host (inr (omega arith))) in
    let slash =
      split_once-append b'/' (to_string private) protocol
        (lacks b'/' private (inl (omega arith))) in
    let plain : contains_char b':' (b'/' ∷ protocol) ≡ false = protocol_plain protocol known in
    ground (
      arith,
      colon,
      slash,
      is_port-to_string host h1 h2,
      is_port-to_string private p1 p2,
      known,
      contains_char-append b':' (to_string private) (b'/' ∷ protocol),
      lacks b':' private (inr (omega arith)),
      plain,
    )
