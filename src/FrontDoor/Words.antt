-- ===== src/FrontDoor/Words.antt =====
-- The text that public/workers/lsp-front-door.js looks at: import lines, the header line, and the
-- names that a diagnostic reports as already declared. The regular expressions are written out as
-- scanners; `length` counts UTF-16 code units.
use Prim.Native.Char.{Char, code}
use Prim.Native.String.{String}
use text.Mathlib.Text.{◌==◌ as str_eq}
use qed.Common.{
  ℕ, ◌+◌, Bool, true, false, ◌&&◌, ◌||◌, Option, none, some, List, [], ◌∷◌, ltb, leb, ◌==◌,
  if◌then◌else◌,
}
use qed.Common.Text.{codes}

-- `\s` on a code point
abbrev pub is_space : ℕ → Bool
is_space c =
    (leb 9 c && leb c 13)
    || c == 32
    || c == 0xa0
    || c == 0x1680
    || (leb 0x2000 c && leb c 0x200a)
    || c == 0x2028
    || c == 0x2029
    || c == 0x202f
    || c == 0x205f
    || c == 0x3000
    || c == 0xfeff

-- [`'"]
abbrev pub is_quote : ℕ → Bool
is_quote c = c == b'`' || c == 0x27 || c == 0x22

unfoldable pub skip_space : String → String
skip_space String.[] = String.[]
skip_space (String.◌∷◌ c s) =
    let rest = skip_space s in if is_space (code c) then rest else String.◌∷◌ c s

-- What stands behind the prefix.
unfoldable pub strip_prefix : List ℕ → String → Option String
strip_prefix [] s = some s
strip_prefix (p ∷ ps) String.[] = none
strip_prefix (p ∷ ps) (String.◌∷◌ c s) =
    let rest = strip_prefix ps s in if code c == p then rest else none

-- At least one space, and all of them.
abbrev after_spaces : String → Option String
after_spaces String.[] = none
after_spaces (String.◌∷◌ c s) = if is_space (code c) then some (skip_space s) else none

-- `word\s+`
pub skip_word : String → String → Option String
unfolding skip_space strip_prefix
skip_word word s = elim (strip_prefix (codes word) s) [
  | none ↦ none
  | some rest ↦ after_spaces rest
]

abbrev or_else {ℓ} : {A : Type ℓ} → Option A → A → A
or_else none a = a
or_else (some b) a = b

abbrev first_some {ℓ} : {A : Type ℓ} → Option A → Option A → Option A
first_some none b = b
first_some (some a) b = some a

abbrev is_match {ℓ} : {A : Type ℓ} → Option A → Bool
is_match none = false
is_match (some _) = true

-- /^\s*(?:public\s+|private\s+)?(?:meta\s+)?import\s+/
unfoldable pub is_import_line : String → Bool
unfolding skip_word skip_space
is_import_line line =
    let start = skip_space line in
    let visible =
      or_else (first_some (skip_word "public" start) (skip_word "private" start)) start in
    let plain = or_else (skip_word "meta" visible) visible in is_match (skip_word "import" plain)

abbrev cons_char : Char → List String → List String
cons_char c [] = String.◌∷◌ c String.[] ∷ []
cons_char c (l ∷ ls) = String.◌∷◌ c l ∷ ls

-- `text.split("\n")`
unfoldable pub split_lines : String → List String
split_lines String.[] = "" ∷ []
split_lines (String.◌∷◌ c s) =
    let rest = split_lines s in if code c == 10 then "" ∷ rest else cons_char c rest

-- The length of a JavaScript string.
abbrev pub utf16_length : String → ℕ
utf16_length String.[] = 0
utf16_length (String.◌∷◌ c s) = (if ltb 0xffff (code c) then 2 else 1) + utf16_length s

pub record HeaderLine : Type 0 where
  pub line : ℕ
  pub length : ℕ

-- The first import line, with the lines counted from `i`.
abbrev first_import : ℕ → List String → Option HeaderLine
first_import i [] = none
first_import i (l ∷ ls) =
    let rest = first_import (i + 1) ls in
    if is_import_line l then some (record { line = i; length = utf16_length l }) else rest

-- `lines[0] ? lines[0].length : 1`: an empty first line is falsy.
abbrev first_line : List String → HeaderLine
first_line [] = record { line = 0; length = 1 }
first_line (l ∷ ls) = record { line = 0; length = if str_eq l "" then 1 else utf16_length l }

abbrev lines_of : Option String → List String
lines_of none = "" ∷ []
lines_of (some text) = split_lines text

unfoldable pub header_line_of : Option String → HeaderLine
unfolding is_import_line split_lines
header_line_of text = or_else (first_import 0 (lines_of text)) (first_line (lines_of text))

abbrev import_indices : ℕ → List String → List ℕ
import_indices i [] = []
import_indices i (l ∷ ls) =
    let rest = import_indices (i + 1) ls in if is_import_line l then i ∷ rest else rest

-- The set is the list of its members.
unfoldable pub import_lines_of : Option String → List ℕ
unfolding is_import_line split_lines
import_lines_of none = []
import_lines_of (some text) = import_indices 0 (split_lines text)
