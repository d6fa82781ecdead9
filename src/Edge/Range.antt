-- ===== src/Edge/Range.antt =====
-- The Range header of infra/edge-worker.js.
use Prim.Native.Char.{code}
use Prim.Native.String.{String}
use text.Mathlib.Text.{◌==◌ as str_eq}
use qed.Common.{ℕ, ◌+◌, ◌-◌, ◌*◌, min, ◌&&◌, Option, none, some, ltb, leb, ◌==◌, if◌then◌else◌}
use qed.FrontDoor.Words.{is_space, skip_space}
use qed.Edge.Keys.{after_prefix}

-- {suffix}, {first} and {first, last} of the source.
pub data Spec : Type 0 where
  suffix : ℕ → Spec
  from : ℕ → Option ℕ → Spec

-- A run of bytes, as `resolveRange` and `returnedRange` give it.
pub record Span : Type 0 where
  pub offset : ℕ
  pub length : ℕ

-- `header.trim()`
abbrev trim_end : String → String
trim_end String.[] = String.[]
trim_end (String.◌∷◌ c s) =
    let rest = trim_end s in
    if is_space (code c) && str_eq rest "" then String.[] else String.◌∷◌ c rest

abbrev pub trim : String → String
trim s = trim_end (skip_space s)

-- The digits in front of a text: their number, their value read on from `n`, and the rest.
unfoldable pub digit_run : ℕ → ℕ → String → ℕ × ℕ × String
digit_run count n String.[] = (count, n, String.[])
digit_run count n (String.◌∷◌ c s) =
    let more = digit_run (count + 1) (n * 10 + (code c - 0x30)) s in
    if leb 0x30 (code c) && leb (code c) 0x39 then more else (count, n, String.◌∷◌ c s)

-- The two runs of digits, each with its length.
abbrev pub spec_of : ℕ → ℕ → ℕ → ℕ → Option Spec
spec_of first_digits first last_digits last =
    if first_digits == 0
    then (if last_digits == 0 then none else some (suffix last))
    else if last_digits == 0
    then some (from first none)
    else if ltb last first
    then none
    else some (from first (some last))

-- `\d{0,15}$` behind the "-"
abbrev pub range_end : ℕ → ℕ → Option String → Option Spec
range_end first_digits first none = none
range_end first_digits first (some s) =
    let (last_digits, last, rest) = digit_run 0 0 s in
    if leb last_digits 15 && str_eq rest ""
    then spec_of first_digits first last_digits last
    else none

abbrev pub range_start : Option String → Option Spec
range_start none = none
range_start (some s) =
    let (first_digits, first, rest) = digit_run 0 0 s in
    if leb first_digits 15 then range_end first_digits first (after_prefix "-" rest) else none

unfoldable pub parse_range : Option String → Option Spec
unfolding digit_run
parse_range none = none
parse_range (some header) = range_start (after_prefix "bytes=" (trim header))

abbrev pub end_of : Option ℕ → ℕ → ℕ
end_of none size = size - 1
end_of (some last) size = min last (size - 1)

unfoldable pub resolve_range : Spec → ℕ → Option Span
resolve_range (suffix n) size =
    if ltb 0 (min n size)
    then some (record { offset = size - min n size; length = min n size })
    else none
resolve_range (from first last) size =
    if leb size first
    then none
    else some (record { offset = first; length = end_of last size - first + 1 })

-- The range that the bucket reports for an object.
pub data Returned : Type 0 where
  suffix_of : ℕ → Returned
  part : Option ℕ → Option ℕ → Returned

abbrev pub or_number : Option ℕ → ℕ → ℕ
or_number none d = d
or_number (some n) d = n

abbrev pub returned_range : Returned → ℕ → Span
returned_range (suffix_of n) size = record { offset = size - min n size; length = min n size }
returned_range (part offset length) size = record {
  offset = or_number offset 0;
  length = or_number length (size - or_number offset 0);
}
