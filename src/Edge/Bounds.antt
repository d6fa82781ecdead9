-- ===== src/Edge/Bounds.antt =====
-- The byte ranges of infra/edge-worker.js against the size of the object.
use Prim.Native.String.{String}
use text.Mathlib.Text.{◌==◌ as str_eq}
use qed.Common.{
  ℕ, ◌+◌, ◌≡◌, refl, sym, ap, ◌∙◌, Bool, true, ◌&&◌, Option, none, some, ltb, leb, arith, if_rule,
}
use qed.Common.Json.{is_some}
use qed.Edge.Keys.{after_prefix}
use qed.Edge.Range.{
  Spec, suffix, from, Span, trim, digit_run, spec_of, range_end, range_start, parse_range,
  resolve_range,
}

-- The last byte is not before the first.
abbrev pub is_ordered : Option Spec → Bool
is_ordered (some (from first (some last))) = leb first last
is_ordered _ = true

spec_of-is_ordered : (a first b last : ℕ) → is_ordered (spec_of a first b last) ≡ true
spec_of-is_ordered a first b last = ground arith

range_end-is_ordered : (a first : ℕ) (o : Option String) → is_ordered (range_end a first o) ≡ true
range_end-is_ordered a first none = refl
range_end-is_ordered a first (some s) =
    if_rule (λ x. is_ordered x ≡ true) (leb (digit_run 0 0 s).0 15 && str_eq (digit_run 0 0 s).2 "")
      (spec_of a first (digit_run 0 0 s).0 (digit_run 0 0 s).1) none
      (λ _. spec_of-is_ordered a first (digit_run 0 0 s).0 (digit_run 0 0 s).1) λ _. refl

range_start-is_ordered : (o : Option String) → is_ordered (range_start o) ≡ true
range_start-is_ordered none = refl
range_start-is_ordered (some s) =
    if_rule (λ x. is_ordered x ≡ true) (leb (digit_run 0 0 s).0 15)
      (range_end (digit_run 0 0 s).0 (digit_run 0 0 s).1 (after_prefix "-" (digit_run 0 0 s).2))
      none
      (λ _.
        range_end-is_ordered (digit_run 0 0 s).0 (digit_run 0 0 s).1
          (after_prefix "-" (digit_run 0 0 s).2))
      λ _. refl

parse_range-is_ordered : (header : Option String) → is_ordered (parse_range header) ≡ true
unfolding parse_range
parse_range-is_ordered none = refl
parse_range-is_ordered (some header) = range_start-is_ordered (after_prefix "bytes=" (trim header))

-- What a spec of a parsed header may ask of an object of a size, and whether it can be served.
abbrev pub is_servable : Spec → ℕ → Bool
is_servable (suffix n) size = ltb 0 n && ltb 0 size
is_servable (from first last) size = ltb first size

-- A span of one byte or more that lies in the object.
abbrev pub is_inside : Option Span → ℕ → Bool
is_inside none size = true
is_inside (some s) size = leb 1 s.length && leb (s.offset + s.length) size

resolve_ordered :
    (spec : Spec) (size : ℕ)
    → is_ordered (some spec) ≡ true
    → (is_some (resolve_range spec size) ≡ is_servable spec size)
      × (is_inside (resolve_range spec size) size ≡ true)
unfolding resolve_range
resolve_ordered (suffix n) size h = (ground arith, ground arith)
resolve_ordered (from first none) size h = (ground arith, ground arith)
resolve_ordered (from first (some last)) size h = (ground arith, ground arith)

-- A range that is read from a header is satisfiable exactly if it asks for a byte that the object
-- has, and then the bytes it is resolved to are one or more and lie in the object.
pub resolve_range-parse_range :
    (header : Option String) (spec : Spec) (size : ℕ)
    → parse_range header ≡ some spec
    → (is_some (resolve_range spec size) ≡ is_servable spec size)
      × (is_inside (resolve_range spec size) size ≡ true)
resolve_range-parse_range header spec size e =
    resolve_ordered spec size (sym (ap is_ordered e) ∙ parse_range-is_ordered header)
