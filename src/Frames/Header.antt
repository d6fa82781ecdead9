-- ===== src/Frames/Header.antt =====
-- The machine of public/workers/lsp-frames.js over one `Content-Length` header.
use qed.Common.{
  ℕ, ◌+◌, ◌-◌, ◌*◌, ◌≤◌, ◌<◌, ◌≡◌, ◌≢◌, refl, sym, ap, ◌∙◌, inl, inr, true, false, none, [], ◌∷◌,
  ◌++◌, append-nil, append_assoc, arith, Bool-cases,
}
use qed.Common.Lists.{length, all, get_or, length-append, get_or-append}
use qed.Frames.Buffer.{Bytes}
use qed.Frames.Scan.{header_length, junk_line_cap, cr, lf, header_continues, is_digit, read_digits}
use qed.Frames.Decoder.{TextDecoder}
use qed.Frames.Stream.{Stream, ends_blank, begin_body, feed_header, feed, feed_all}
use qed.Frames.Encoder.{field_name, blank_line, value_from}

-- A header run with `p` pending, or no run at all.
abbrev pub header_run : Stream → Bytes → Stream
header_run s p = record s { pending = p; need = none; header_ok = true; matched = 0 }

-- `count` bytes read from behind `q` stand in `ys`.
get_or_behind :
    (q ys : Bytes) (k : ℕ)
    → k ≤ length ys
    → get_or (q ++ ys) (length (q ++ ys) - k) 0 ≡ get_or ys (length ys - k) 0
get_or_behind q ys k h =
    ap (λ i. get_or (q ++ ys) i 0) (omega (arith, length-append q ys))
    ∙ get_or-append q ys (length ys - k) 0

ends_blank-one : (q : Bytes) (x : ℕ) → x ≢ lf → ends_blank (q ++ x ∷ cr ∷ lf ∷ []) ≡ false
ends_blank-one q x h = ground (
  arith,
  get_or_behind q (x ∷ cr ∷ lf ∷ []) 1,
  get_or_behind q (x ∷ cr ∷ lf ∷ []) 2,
  get_or_behind q (x ∷ cr ∷ lf ∷ []) 3,
)

ends_blank-two : (q : Bytes) → ends_blank (q ++ blank_line) ≡ true
ends_blank-two q = ground (
  arith,
  length-append q blank_line,
  get_or_behind q blank_line 1,
  get_or_behind q blank_line 2,
  get_or_behind q blank_line 3,
  get_or_behind q blank_line 4,
)

pub read_digits-all :
    (n k : ℕ) (ds rest : Bytes)
    → all is_digit ds ≡ true
    → read_digits n k (ds ++ cr ∷ rest) ≡ (value_from n ds, k + length ds)
unfolding read_digits
read_digits-all n k [] rest h = ap {B = ℕ × ℕ} (λ j. (n, j)) (omega arith)
read_digits-all n k (d ∷ ds) rest h = elim (Bool-cases (is_digit d)) [
  | inl e ↦ rw e (
      read_digits-all (n * 10 + (d - 0x30)) (k + 1) ds rest (rw e at h)
      ∙ ap {B = ℕ × ℕ} (λ j. (value_from (n * 10 + (d - 0x30)) ds, j)) (omega arith))
  | inr e ↦ absurd (ground arith)
]

module _ (text : TextDecoder) where
  pub feed_field_name :
      (s : Stream) → feed_all text (header_run s []) field_name ≡ header_run s field_name
  unfolding feed feed_header header_continues
  feed_field_name s = refl

  -- A byte behind "Content-Length:" that is no LF is taken into the run.
  pub feed_plain :
      (s : Stream) (p : Bytes) (c : ℕ)
      → header_length ≤ length p
      → length p + 1 < junk_line_cap
      → c ≢ lf
      → feed text (header_run s p) c ≡ header_run s (p ++ c ∷ [])
  unfolding feed feed_header header_continues
  feed_plain s p c h k ne = ground (arith, length-append p (c ∷ []))

  feed-lf :
      (s : Stream) (p : Bytes)
      → header_length ≤ length p
      → length p + 1 < junk_line_cap
      → ends_blank (p ++ lf ∷ []) ≡ false
      → feed text (header_run s p) lf ≡ header_run s (p ++ lf ∷ [])
  unfolding feed feed_header header_continues
  feed-lf s p h k e = rw e (ground (arith, length-append p (lf ∷ [])))

  feed_last_lf :
      (s : Stream) (p : Bytes)
      → header_length ≤ length p
      → ends_blank (p ++ lf ∷ []) ≡ true
      → feed text (header_run s p) lf ≡ begin_body text (header_run s (p ++ lf ∷ []))
  unfolding feed feed_header header_continues
  feed_last_lf s p h e = rw e (ground (arith, length-append p (lf ∷ [])))

  pub feed_digits :
      (s : Stream) (ds p : Bytes)
      → all is_digit ds ≡ true
      → header_length ≤ length p
      → length p + length ds < junk_line_cap
      → feed_all text (header_run s p) ds ≡ header_run s (p ++ ds)
  feed_digits s [] p a h k = ap (header_run s) (sym (append-nil p))
  feed_digits s (d ∷ ds) p a h k =
      ap (λ t. feed_all text t ds) (feed_plain s p d h (omega arith) (ground arith))
      ∙ feed_digits s ds (p ++ d ∷ []) (ground arith) (omega (arith, length-append p (d ∷ [])))
          (omega (arith, length-append p (d ∷ [])))
      ∙ ap (header_run s) (append_assoc p (d ∷ []) ds)

  -- The blank line behind `q` and one more byte `x` of the header.
  pub feed_blank_line :
      (s : Stream) (q : Bytes) (x : ℕ)
      → x ≢ lf
      → header_length ≤ length q
      → length q + 5 < junk_line_cap
      → feed_all text (header_run s (q ++ x ∷ [])) blank_line
        ≡ begin_body text (header_run s (q ++ x ∷ blank_line))
  feed_blank_line s q x ne h k =
      ap (λ t. feed_all text t (lf ∷ cr ∷ lf ∷ [])) first_cr
      ∙ ap (λ t. feed_all text t (cr ∷ lf ∷ [])) first_lf
      ∙ ap (λ t. feed_all text t (lf ∷ [])) second_cr
      ∙ second_lf
    where
      first_cr : feed text (header_run s (q ++ x ∷ [])) cr ≡ header_run s (q ++ x ∷ cr ∷ [])
      first_cr =
          feed_plain s (q ++ x ∷ []) cr (omega (arith, length-append q (x ∷ [])))
            (omega (arith, length-append q (x ∷ []))) (omega arith)
          ∙ ap (header_run s) (append_assoc q (x ∷ []) (cr ∷ []))

      first_lf :
          feed text (header_run s (q ++ x ∷ cr ∷ [])) lf ≡ header_run s (q ++ x ∷ cr ∷ lf ∷ [])
      first_lf =
          feed-lf s (q ++ x ∷ cr ∷ []) (omega (arith, length-append q (x ∷ cr ∷ [])))
            (omega (arith, length-append q (x ∷ cr ∷ [])))
            (ap ends_blank (append_assoc q (x ∷ cr ∷ []) (lf ∷ [])) ∙ ends_blank-one q x ne)
          ∙ ap (header_run s) (append_assoc q (x ∷ cr ∷ []) (lf ∷ []))

      second_cr :
          feed text (header_run s (q ++ x ∷ cr ∷ lf ∷ [])) cr
          ≡ header_run s (q ++ x ∷ cr ∷ lf ∷ cr ∷ [])
      second_cr =
          feed_plain s (q ++ x ∷ cr ∷ lf ∷ []) cr
            (omega (arith, length-append q (x ∷ cr ∷ lf ∷ [])))
            (omega (arith, length-append q (x ∷ cr ∷ lf ∷ []))) (omega arith)
          ∙ ap (header_run s) (append_assoc q (x ∷ cr ∷ lf ∷ []) (cr ∷ []))

      whole : (q ++ x ∷ cr ∷ lf ∷ cr ∷ []) ++ lf ∷ [] ≡ q ++ x ∷ blank_line
      whole = append_assoc q (x ∷ cr ∷ lf ∷ cr ∷ []) (lf ∷ [])

      second_lf :
          feed text (header_run s (q ++ x ∷ cr ∷ lf ∷ cr ∷ [])) lf
          ≡ begin_body text (header_run s (q ++ x ∷ blank_line))
      second_lf =
          feed_last_lf s (q ++ x ∷ cr ∷ lf ∷ cr ∷ [])
            (omega (arith, length-append q (x ∷ cr ∷ lf ∷ cr ∷ [])))
            (ap ends_blank (whole ∙ sym (append_assoc q (x ∷ []) blank_line))
              ∙ ends_blank-two (q ++ x ∷ []))
          ∙ ap (λ p. begin_body text (header_run s p)) whole
