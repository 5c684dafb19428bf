-- ===== src/Validate.antt =====
-- internal/validate/validate.go: the checks of what a caller hands in. `none` is a nil error. The
-- parser of package net/url is a parameter: scheme and host of a text that parses, or its error.
pub mod Aliases
use Prim.Native.Char.{Char, code, len_utf8}
use Prim.Native.String.{len}
use package.text.Mathlib.Text.{starts_with}
use a2a_gateway_mcp.Prelude.{
  ℕ, ◌+◌, Bool, true, false, not, ◌&&◌, ◌||◌, Option, none, some, List, [], ◌∷◌, String, ◌==◌,
  if◌then◌else◌, ltb, leb, nat_eq, length,
}
use a2a_gateway_mcp.Prelude.Int.{ℤ, pos}
use a2a_gateway_mcp.GoMap
use a2a_gateway_mcp.GoMap.{GoMap}
use a2a_gateway_mcp.Errors.{Error, Arg, errorf, wrapf, text, number}

abbrev pub max_alias_length : ℕ
max_alias_length = 64

abbrev pub max_message_length : ℕ
max_message_length = 32768

abbrev pub max_header_entries : ℕ
max_header_entries = 20

abbrev pub max_broadcast_aliases : ℕ
max_broadcast_aliases = 20

abbrev pub min_broadcast_aliases : ℕ
min_broadcast_aliases = 1

abbrev pub max_ping_endpoint_length : ℕ
max_ping_endpoint_length = 256

abbrev count_arg : ℕ → Arg
count_arg n = number (pos n)

unfoldable pub is_valid_alias_char : Char → Bool
is_valid_alias_char ch =
    (leb b'a' (code ch) && leb (code ch) b'z')
    || (leb b'0' (code ch) && leb (code ch) b'9')
    || nat_eq (code ch) b'-'

abbrev invalid_char : Char → ℕ → Error
invalid_char ch i =
    errorf
      "alias contains invalid character %q at position %d: only lowercase letters, digits, and hyphens are allowed"
      (text (String.◌∷◌ ch "") ∷ count_arg i ∷ [])

-- The loop over the characters, from byte position i on.
unfoldable pub alias_chars : ℕ → String → Option Error
unfolding is_valid_alias_char
alias_chars i String.[] = none
alias_chars i (String.◌∷◌ ch s) =
    let rest = alias_chars (i + len_utf8 ch) s in
    if not (is_valid_alias_char ch) then some (invalid_char ch i) else rest

unfoldable pub validate_alias : String → Option Error
unfolding alias_chars
validate_alias alias =
    if alias == ""
    then some (errorf "alias is required and cannot be empty" [])
    else if ltb max_alias_length (len alias)
    then some (
        errorf "alias must be at most %d characters, got %d"
          (count_arg max_alias_length ∷ count_arg (len alias) ∷ []))
    else alias_chars 0 alias

-- What url.Parse returns, as far as it is looked at.
pub data ParsedUrl : Type 0 where
  parsed : (scheme : String) (host : String) → ParsedUrl
  malformed : Error → ParsedUrl

abbrev url_parts : ParsedUrl → Option Error
url_parts (malformed err) = some (wrapf "URL is malformed: %w" [] err)
url_parts (parsed scheme host) =
    if not (scheme == "http") && not (scheme == "https")
    then some (errorf "URL must have http or https scheme, got %q" (text scheme ∷ []))
    else if host == ""
    then some (errorf "URL must have a non-empty host" [])
    else none

unfoldable pub validate_url : (String → ParsedUrl) → String → Option Error
validate_url parse raw_url =
    if raw_url == ""
    then some (errorf "URL is required and cannot be empty" [])
    else url_parts (parse raw_url)

unfoldable pub validate_message : String → Option Error
validate_message message =
    if message == ""
    then some (errorf "message is required and cannot be empty" [])
    else if ltb max_message_length (len message)
    then some (
        errorf "message must be at most %d characters, got %d"
          (count_arg max_message_length ∷ count_arg (len message) ∷ []))
    else none

unfoldable pub validate_headers : GoMap String → Option Error
validate_headers headers =
    if ltb max_header_entries (GoMap.size headers)
    then some (
        errorf "headers must have at most %d entries, got %d"
          (count_arg max_header_entries ∷ count_arg (GoMap.size headers) ∷ []))
    else none

unfoldable pub validate_broadcast_aliases : List String → Option Error
validate_broadcast_aliases aliases =
    if ltb (length aliases) min_broadcast_aliases
    then some (
        errorf "at least %d target alias is required for broadcast"
          (count_arg min_broadcast_aliases ∷ []))
    else if ltb max_broadcast_aliases (length aliases)
    then some (
        errorf "broadcast targets must be at most %d aliases, got %d"
          (count_arg max_broadcast_aliases ∷ count_arg (length aliases) ∷ []))
    else none

unfoldable pub validate_ping_endpoint : String → Option Error
validate_ping_endpoint endpoint =
    if nat_eq (len endpoint) 0 || not (starts_with endpoint "/")
    then some (errorf "ping_endpoint must start with '/'" [])
    else if ltb max_ping_endpoint_length (len endpoint)
    then some (
        errorf "ping_endpoint must be at most %d characters"
          (count_arg max_ping_endpoint_length ∷ []))
    else none
