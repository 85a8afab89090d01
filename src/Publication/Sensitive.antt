-- ===== src/Publication/Sensitive.antt =====
-- `is_sensitive_text`, and the two steps of `redact_runtime_display_text`.
use docker_map.Common.{
  ℕ, ◌%◌, Bool, false, not, ◌&&◌, ◌||◌, List, [], ◌∷◌, ◌++◌, map, Option, none, some, ltb, leb,
  ◌==◌, if◌then◌else◌, any, length, take, drop, Text, codes, text_eq, starts_with, contains,
  contains_char, is_whitespace, trim_start, to_ascii_lowercase,
}

unfoldable pub redacted_value : Text
redacted_value = codes "[redacted]"

-- `char::is_control`: the category Cc.
unfoldable pub is_control : ℕ → Bool
is_control c = ltb c 0x20 || (leb 0x7f c && leb c 0x9f)

unfoldable pub unsafe_runtime_display_character : ℕ → Bool
unfolding is_control
unsafe_runtime_display_character c =
    is_control c
    || ((leb 0x200b c && leb c 0x200f)
        || ((leb 0x2028 c && leb c 0x202e)
            || ((leb 0x2060 c && leb c 0x2069)
                || ((c == 0xfeff)
                    || ((leb 0xfdd0 c && leb c 0xfdef)
                        || ((c % 0x10000 == 0xfffe) || (c % 0x10000 == 0xffff)))))))

abbrev pub replacement : ℕ
replacement = 0xfffd

unfoldable pub shown : ℕ → ℕ
unfolding unsafe_runtime_display_character
shown c = if unsafe_runtime_display_character c then replacement else c

unfoldable pub normalize_runtime_display_string : Text → Text
unfolding shown
normalize_runtime_display_string value = map shown value

-- `find("://")`, with the text after it.
unfoldable pub scheme_mark : Text
scheme_mark = codes "://"

unfoldable pub after_scheme : Text → Option Text
after_scheme [] = none
after_scheme (c ∷ s) =
    let later = after_scheme s in if starts_with scheme_mark (c ∷ s) then some (drop 2 s) else later

abbrev pub ends_authority : ℕ → Bool
ends_authority c = (c == b'/') || ((c == b'?') || (c == b'#'))

-- The text up to the first `/`, `?` or `#`.
unfoldable pub authority_of : Text → Text
authority_of [] = []
authority_of (c ∷ s) = if ends_authority c then [] else c ∷ authority_of s

unfoldable pub has_userinfo : Option Text → Bool
has_userinfo none = false
has_userinfo (some authority) = contains_char b'@' (authority_of authority)

unfoldable pub contains_url_userinfo : Text → Bool
unfolding has_userinfo
contains_url_userinfo value = has_userinfo (after_scheme value)

unfoldable pub assignment_needles : List Text
assignment_needles =
    codes "token="
    ∷ codes "token:"
    ∷ codes "auth_token="
    ∷ codes "auth_token:"
    ∷ codes "_authtoken="
    ∷ codes "_authtoken:"
    ∷ codes "_auth="
    ∷ codes "_auth:"
    ∷ codes "api_key="
    ∷ codes "api_key:"
    ∷ codes "api-key="
    ∷ codes "api-key:"
    ∷ codes "apikey="
    ∷ codes "apikey:"
    ∷ codes "x-api-key="
    ∷ codes "x-api-key:"
    ∷ codes "secret_key="
    ∷ codes "secret_key:"
    ∷ codes "secret-key="
    ∷ codes "secret-key:"
    ∷ codes "secret_access_key="
    ∷ codes "secret_access_key:"
    ∷ codes "secret-access-key="
    ∷ codes "secret-access-key:"
    ∷ codes "aws_secret_access_key="
    ∷ codes "aws_secret_access_key:"
    ∷ codes "authorization="
    ∷ codes "authorization:"
    ∷ codes "password="
    ∷ codes "password:"
    ∷ codes "passwd="
    ∷ codes "passwd:"
    ∷ codes "secret="
    ∷ codes "secret:"
    ∷ codes "client_secret="
    ∷ codes "client_secret:"
    ∷ codes "private_key="
    ∷ codes "private_key:"
    ∷ codes "credential="
    ∷ codes "credential:"
    ∷ codes "access_token="
    ∷ codes "access_token:"
    ∷ codes "refresh_token="
    ∷ codes "refresh_token:"
    ∷ []

unfoldable pub contains_sensitive_assignment : Text → Bool
contains_sensitive_assignment value = any (λ needle. contains needle value) assignment_needles

unfoldable pub sensitive_flags : List Text
sensitive_flags =
    codes "--token"
    ∷ codes "--auth"
    ∷ codes "--api-key"
    ∷ codes "--authorization"
    ∷ codes "--password"
    ∷ codes "--secret"
    ∷ codes "--client-secret"
    ∷ codes "--private-key"
    ∷ []

-- `split_whitespace`: the maximal runs without white space. The flag tells that a run goes on.
unfoldable pub head_token : Text → Text
unfolding is_whitespace
head_token [] = []
head_token (c ∷ s) = if is_whitespace c then [] else c ∷ head_token s

unfoldable pub tokens : Bool → Text → List Text
unfolding is_whitespace
tokens inside [] = []
tokens inside (c ∷ s) =
    let rest = tokens (not (is_whitespace c)) s in
    if is_whitespace c || inside then rest else head_token (c ∷ s) ∷ rest

abbrev pub split_whitespace : Text → List Text
split_whitespace value = tokens false value

abbrev pub is_flag_token : Text → Text → Bool
is_flag_token token flag = text_eq token flag || starts_with (flag ++ b'=' ∷ []) token

unfoldable pub contains_sensitive_flag : Text → Bool
unfolding tokens
contains_sensitive_flag value =
    any (λ token. any (is_flag_token token) sensitive_flags) (split_whitespace value)

unfoldable pub contains_auth_scheme : Text → Bool
contains_auth_scheme value =
    starts_with (codes "bearer ") (trim_start value)
    || (contains (codes "authorization: bearer") value
        || (contains (codes "authorization: basic") value
            || (contains (codes "authorization=bearer") value
                || contains (codes "authorization=basic") value)))

abbrev pub lowered : Text → Text
lowered = map to_ascii_lowercase

unfoldable pub is_sensitive_text : Text → Bool
is_sensitive_text value =
    contains (codes "dockermap_test_fake_") (lowered value)
    || (contains_url_userinfo value
        || (contains_sensitive_assignment (lowered value)
            || (contains_sensitive_flag (lowered value) || contains_auth_scheme (lowered value))))

unfoldable pub redact_sensitive_text : Text → Text
redact_sensitive_text value = if is_sensitive_text value then redacted_value else value

unfoldable pub redact_runtime_display_text : Text → Text
redact_runtime_display_text value = normalize_runtime_display_string (redact_sensitive_text value)

unfoldable pub truncate_chars : Text → ℕ → Text
truncate_chars value max_chars =
    take max_chars value ++ (if ltb max_chars (length value) then codes "..." else [])
