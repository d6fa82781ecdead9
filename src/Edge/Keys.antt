-- ===== src/Edge/Keys.antt =====
-- The paths of infra/edge-worker.js: bucket keys, the immutable ones, and the bucket prefix. The
-- regular expressions are written out as scanners.
use Prim.Native.Char.{Char, code}
use Prim.Native.String.{String, ◌++◌ as str_append}
use text.Mathlib.Text.{◌==◌ as str_eq}
use qed.Common.{
  ℕ, zero, suc, Bool, true, false, not, ◌&&◌, ◌||◌, Option, none, some, List, [], ◌∷◌, ltb, leb,
  ◌==◌, if◌then◌else◌,
}
use qed.Common.Lists.{any}
use qed.Common.Json.{is_some}

-- `text.slice(prefix.length)`, where `text.startsWith(prefix)`
unfoldable pub after_prefix : String → String → Option String
after_prefix String.[] s = some s
after_prefix (String.◌∷◌ p ps) String.[] = none
after_prefix (String.◌∷◌ p ps) (String.◌∷◌ c s) =
    let rest = after_prefix ps s in if code c == code p then rest else none

abbrev pub starts_with : String → String → Bool
starts_with prefix s = is_some (after_prefix prefix s)

-- `text.endsWith(suffix)`
unfoldable pub ends_with : String → String → Bool
ends_with suffix String.[] = str_eq String.[] suffix
ends_with suffix (String.◌∷◌ c s) =
    let later = ends_with suffix s in str_eq (String.◌∷◌ c s) suffix || later

unfoldable pub all_chars : (ℕ → Bool) → String → Bool
all_chars p String.[] = true
all_chars p (String.◌∷◌ c s) = p (code c) && all_chars p s

abbrev push_char : Char → List String → List String
push_char c [] = String.◌∷◌ c String.[] ∷ []
push_char c (x ∷ xs) = String.◌∷◌ c x ∷ xs

-- `text.split("/")`
unfoldable pub segments : String → List String
segments String.[] = "" ∷ []
segments (String.◌∷◌ c s) =
    let rest = segments s in if code c == b'/' then "" ∷ rest else push_char c rest

-- One dot of DOT_SEGMENT, `\.|%2e` in either case, and what stands behind it.
abbrev after_dot : String → Option String
after_dot s =
    if starts_with "." s
    then after_prefix "." s
    else if starts_with "%2e" s
    then after_prefix "%2e" s
    else after_prefix "%2E" s

abbrev one_dot : Option String → Bool
one_dot none = false
one_dot (some s) = str_eq s ""

abbrev two_dots : Option String → Bool
two_dots none = false
two_dots (some s) = one_dot (after_dot s)

-- /^(?:\.|%2e){1,2}$/i
unfoldable pub is_dot_segment : String → Bool
is_dot_segment s = one_dot (after_dot s) || two_dots (after_dot s)

-- /[\\\u0000-\u001f\u007f]/
abbrev pub is_unsafe_char : ℕ → Bool
is_unsafe_char c = c == 0x5c || ltb c 0x20 || c == 0x7f

abbrev pub is_unsafe_segment : String → Bool
is_unsafe_segment s = str_eq s "" || is_dot_segment s

-- A path without its first "/", where there is one.
abbrev pub key_of : Option String → String → Option String
key_of none prefix = none
key_of (some rel) prefix =
    if not (all_chars (λ c. not (is_unsafe_char c)) rel)
    then none
    else if any is_unsafe_segment (segments rel)
    then none
    else some (str_append prefix rel)

unfoldable pub artifact_key : String → String → Option String
artifact_key pathname prefix = key_of (after_prefix "/" pathname) prefix

-- What stands behind "/runtime-manifest" or "/index": `(\.[^/]*)?\.json$`
abbrev is_json_name : String → Bool
is_json_name s = starts_with "." s && ends_with ".json" s && all_chars (λ c. not (c == b'/')) s

abbrev json_behind : Option String → Bool
json_behind none = false
json_behind (some s) = is_json_name s

abbrev is_index_at : String → Bool
is_index_at s =
    json_behind (after_prefix "/runtime-manifest" s)
    || json_behind (after_prefix "/profiles-index" s)
    || json_behind (after_prefix "/index" s)

unfoldable pub is_index : String → Bool
is_index String.[] = false
is_index (String.◌∷◌ c s) = let later = is_index s in is_index_at (String.◌∷◌ c s) || later

abbrev pub is_hex : ℕ → Bool
is_hex c = (leb 0x30 c && leb c 0x39) || (leb 0x61 c && leb c 0x66)

-- Whether `count` more hexadecimal digits come.
abbrev pub hex_run : ℕ → String → Bool
hex_run zero s = true
hex_run (suc n) String.[] = false
hex_run (suc n) (String.◌∷◌ c s) = is_hex (code c) && hex_run n s

abbrev digit_first : Option String → Bool
digit_first (some (String.◌∷◌ c s)) = leb 0x30 (code c) && leb (code c) 0x39
digit_first _ = false

abbrev is_hashed_at : String → Bool
is_hashed_at s =
    digit_first (after_prefix ".part-" s)
    || starts_with ".snapz" s
    || starts_with ".chunk." s
    || hex_run 16 s

unfoldable pub is_hashed : String → Bool
is_hashed String.[] = false
is_hashed (String.◌∷◌ c s) = let later = is_hashed s in is_hashed_at (String.◌∷◌ c s) || later

unfoldable pub is_immutable : String → Bool
unfolding is_index is_hashed
is_immutable pathname = if is_index pathname then false else is_hashed pathname

-- `[A-Za-z0-9._-]`
abbrev pub is_name_char : ℕ → Bool
is_name_char c =
    (leb 0x41 c && leb c 0x5a)
    || (leb 0x61 c && leb c 0x7a)
    || (leb 0x30 c && leb c 0x39)
    || c == b'.'
    || c == b'_'
    || c == b'-'

abbrev is_name : String → Bool
is_name s = not (str_eq s "") && all_chars is_name_char s

-- `([A-Za-z0-9._-]+\/)+`: names, and nothing behind the last "/".
abbrev names_closed : List String → Bool
names_closed [] = false
names_closed (s ∷ []) = str_eq s ""
names_closed (s ∷ ss) = is_name s && names_closed ss

abbrev prefix_shape : List String → Bool
prefix_shape [] = false
prefix_shape (s ∷ []) = false
prefix_shape (s ∷ ss) = names_closed (s ∷ ss)

unfoldable pub valid_r2_prefix : String → Bool
valid_r2_prefix prefix =
    if str_eq prefix ""
    then true
    else prefix_shape (segments prefix)
      && not (any (λ s. str_eq s "." || str_eq s "..") (segments prefix))
