-- ===== src/Manifest/Shapes.antt =====
-- The shapes of the values that pipeline/release/release-manifest.mjs tests. The regular expressions
-- are written out as scanners.
use Prim.Native.Char.{code}
use Prim.Native.String.{String}
use text.Mathlib.Text.{◌==◌ as str_eq}
use qed.Common.{
  ℕ, zero, suc, ◌^◌, Bool, true, false, not, ◌&&◌, ◌||◌, Option, none, some, ltb, leb, ◌==◌,
  if◌then◌else◌,
}
use qed.Common.Int.{pos, negsuc}
use qed.Common.Json.{Json, Items, str, num, arr, nil, cons, text_of}
use qed.Edge.Keys.{after_prefix, all_chars, is_hex, is_name_char}
use qed.Edge.Release.{opt_test}

-- `[0-9a-f]{n}` and no more
abbrev pub hex_exactly : ℕ → String → Bool
hex_exactly zero s = str_eq s ""
hex_exactly (suc n) String.[] = false
hex_exactly (suc n) (String.◌∷◌ c s) = is_hex (code c) && hex_exactly n s

-- HEX64
abbrev pub is_hex64 : String → Bool
is_hex64 s = hex_exactly 64 s

-- `HEX64.test(value ?? "")`: the test reads a value as text, and a list of one value as that value.
unfoldable mutual
  pub tests_hex64 : Json → Bool
  tests_hex64 (str s) = is_hex64 s
  tests_hex64 (arr xs) = tests_items xs
  tests_hex64 _ = false

  pub tests_items : Items → Bool
  tests_items (cons x nil) = tests_hex64 x
  tests_items _ = false

abbrev pub tests_digest : Option Json → Bool
tests_digest none = false
tests_digest (some j) = tests_hex64 j

-- BUILD_ID
unfoldable pub is_build_id : String → Bool
is_build_id s = opt_test (hex_exactly 16) (after_prefix "wasm64-" s)

abbrev pub is_digit_char : ℕ → Bool
is_digit_char c = leb 0x30 c && leb c 0x39

-- What stands behind `\d*`.
abbrev pub after_digits : String → String
after_digits String.[] = ""
after_digits (String.◌∷◌ c s) =
    let rest = after_digits s in if is_digit_char (code c) then rest else String.◌∷◌ c s

-- What stands behind `\d+`.
abbrev pub after_number : String → Option String
after_number String.[] = none
after_number (String.◌∷◌ c s) = if is_digit_char (code c) then some (after_digits s) else none

abbrev pub and_then : Option String → (String → Option String) → Option String
and_then none f = none
and_then (some s) f = f s

abbrev pub is_id_char : ℕ → Bool
is_id_char c =
    (leb 0x41 c && leb c 0x5a)
    || (leb 0x61 c && leb c 0x7a)
    || is_digit_char c
    || c == b'.'
    || c == b'+'
    || c == b'-'

-- RELEASE_ID, /^lean-v\d+\.\d+\.\d+[A-Za-z0-9.+-]*$/
unfoldable pub is_release_id : String → Bool
is_release_id s =
    let major = and_then (after_prefix "lean-v" s) after_number in
    let minor = and_then (and_then major (after_prefix ".")) after_number in
    let patch = and_then (and_then minor (after_prefix ".")) after_number in
    opt_test (all_chars is_id_char) patch

-- PATCH_ID, /^\d{4}[a-z]?$/
abbrev pub is_letter_or_end : String → Bool
is_letter_or_end String.[] = true
is_letter_or_end (String.◌∷◌ c s) = leb 0x61 (code c) && leb (code c) 0x7a && str_eq s ""

abbrev pub patch_digits : ℕ → String → Bool
patch_digits zero s = is_letter_or_end s
patch_digits (suc n) String.[] = false
patch_digits (suc n) (String.◌∷◌ c s) = is_digit_char (code c) && patch_digits n s

unfoldable pub is_patch_id : String → Bool
is_patch_id s = patch_digits 4 s

-- SAFE_BASENAME, /^[A-Za-z0-9][A-Za-z0-9._-]*$/
abbrev pub is_alnum : ℕ → Bool
is_alnum c = (leb 0x41 c && leb c 0x5a) || (leb 0x61 c && leb c 0x7a) || is_digit_char c

unfoldable pub is_safe_basename : String → Bool
is_safe_basename String.[] = false
is_safe_basename (String.◌∷◌ c s) = is_alnum (code c) && all_chars is_name_char s

-- `strip`: the digits of a "sha256:" digest
abbrev pub strip_text : Option String → Option String
strip_text none = none
strip_text (some s) = if is_hex64 s then some s else none

unfoldable pub strip : Option Json → Option String
strip digest = strip_text (and_then (text_of digest) (after_prefix "sha256:"))

-- `Number.isSafeInteger(n) && n >= least`
abbrev pub is_safe_from : ℕ → Option Json → Bool
is_safe_from least (some (num (pos n))) = leb least n && ltb n (2 ^ 53)
is_safe_from least _ = false

-- `Number.isSafeInteger(n)`
abbrev pub is_safe : Option Json → Bool
is_safe (some (num (pos n))) = ltb n (2 ^ 53)
is_safe (some (num (negsuc n))) = ltb (suc n) (2 ^ 53)
is_safe _ = false

-- `isSize`
abbrev pub is_size : Option Json → Bool
is_size n = is_safe_from 1 n

-- `s.replace(/\.git$/, "")`
abbrev pub without_git : String → String
without_git String.[] = ""
without_git (String.◌∷◌ c s) =
    let rest = String.◌∷◌ c (without_git s) in if str_eq (String.◌∷◌ c s) ".git" then "" else rest

abbrev pub or_text : Option String → String → String
or_text none s = s
or_text (some t) s = t

-- `repoSlug`
unfoldable pub repo_slug : String → String
repo_slug repo = without_git (or_text (after_prefix "https://github.com/" repo) repo)

-- `typeof v === "string" && test(v)`
abbrev pub text_test : (String → Bool) → Option Json → Bool
text_test p v = opt_test p (text_of v)

abbrev pub is_nonempty : String → Bool
is_nonempty s = not (str_eq s "")
