-- ===== src/Frames/Rolling.antt =====
-- The rolling match of the decoder of public/workers/lsp-frames.js (`push` in a junk run, `resync`):
-- "Content-Length:" behind junk, byte by byte.
use qed.Common.{
  ℕ, zero, suc, ◌+◌, ◌-◌, ◌≤◌, ◌<◌, ◌≡◌, refl, sym, ap, ◌∙◌, inl, inr, Bool, true, false, not, ◌&&◌,
  none, [], ◌∷◌, ◌++◌, append_assoc, arith, ◌==◌, Bool-cases, String, holds_at, ==_iff, if_rule,
  if◌then◌else◌,
}
use qed.Common.Lists.{
  length, drop, take, get_or, length-append, drop-append_left, length-take, take_snoc,
}
use qed.Frames.Buffer.{Bytes}
use qed.Frames.Scan.{
  header_length, header_byte_matches, header_at, lf, header_continues, trim_line_end,
}
use text.Mathlib.Text.{◌==◌ as str_eq}
use qed.Frames.Decoder.{TextDecoder, junk, roll}
use qed.Frames.Stream.{
  Stream, report, discard, discard_run, discard_to_header, settle, feed_junk, feed_header, feed,
}
use qed.Frames.Encoder.{field_name}
use qed.Frames.Header.{header_run}
use qed.Frames.Reports.{Reports, Reports-same, all_junk-snoc}

-- A junk run that ends with the first `k` bytes of "Content-Length: ", of which the bytes before these
-- and those that are counted are what was pending in `origin`.
pub record EndsWith (k : ℕ) (origin s : Stream) : Type 0 where
  pub idle : s.need ≡ none
  pub junk_run : s.header_ok ≡ false
  pub rolled : s.matched ≡ k
  pub reports : Reports origin s
  pub before : Bytes
  pub split : s.pending ≡ before ++ take k field_name
  pub counted : s.junk_bytes + length before ≡ origin.junk_bytes + length origin.pending

abbrev fits_pattern : ℕ → Bool
fits_pattern k =
    header_byte_matches (get_or field_name k 0) (header_at k) && not (get_or field_name k 0 == lf)

abbrev restarts : ℕ → Bool
restarts m = roll m 0x43 == 1

abbrev first_only : ℕ → Bool
first_only k = not (header_byte_matches 0x43 (header_at (suc k)))

-- Byte `k` of the written field name fits the pattern at `k`, and ends no line.
field_byte :
    (k : ℕ)
    → k < 15
    → (roll k (get_or field_name k 0) ≡ k + 1) × ((get_or field_name k 0 == lf) ≡ false)
field_byte k h = ground (arith, holds_at fits_pattern 15 k refl h)

-- The first byte, "C", stands in the pattern once: the match restarts at it from anywhere.
pub first_byte-roll : (m : ℕ) → m < 15 → roll m 0x43 ≡ 1
first_byte-roll m h = (==_iff _ 1).0 (holds_at restarts 15 m refl h)

pub first_byte-breaks : (k : ℕ) → 1 ≤ k → k < 15 → header_continues k 0x43 ≡ false
unfolding header_continues
first_byte-breaks zero p h = absurd (omega arith)
first_byte-breaks (suc k) p h = ground (arith, holds_at first_only 14 k refl)

counted :
    (before : Bytes) (s : Stream)
    → s.pending ≡ before ++ take 15 field_name
    → length s.pending - header_length ≡ length before
counted before s split = omega (arith, ap length split, length-append before (take 15 field_name))

module _ (text : TextDecoder) where
  -- A blank line or a reported one.
  report-Reports :
      (line : String) (origin s : Stream) → Reports origin s → Reports origin (report text line s)
  report-Reports line origin s r = elim (Bool-cases (str_eq (text.trim line) "")) [
    | inl e ↦ rw e r
    | inr e ↦ rw e (record {
      same_frames = r.same_frames;
      more = r.more ++ junk line ∷ [];
      events = ap (λ xs. xs ++ junk line ∷ []) r.events ∙ append_assoc _ r.more (junk line ∷ []);
      only_junk = all_junk-snoc r.more line r.only_junk;
      lines = omega (arith, r.lines, length-append r.more (junk line ∷ []));
    })
  ]

  report_field :
      {A : Type 0} (f : Stream → A) (line : String) (s : Stream)
      → f (record s { junk_lines = s.junk_lines + 1; out = s.out ++ junk line ∷ [] }) ≡ f s
      → f (report text line s) ≡ f s
  report_field f line s h =
      if_rule (λ t. f t ≡ f s) (str_eq (text.trim line) "") s
        (record s { junk_lines = s.junk_lines + 1; out = s.out ++ junk line ∷ [] }) (λ _. refl)
        λ _. h

  -- A blank or a reported junk line leaves the state of the run alone.
  report-EndsWith :
      (line : String) {k : ℕ} {origin s : Stream}
      → EndsWith k origin s
      → EndsWith k origin (report text line s)
  report-EndsWith line {k} {origin} {s} h =
      let told = report-Reports line origin s h.reports in
      record {
        idle = same_need ∙ h.idle;
        junk_run = same_run ∙ h.junk_run;
        rolled = same_match ∙ h.rolled;
        reports = told;
        before = h.before;
        split = same_pending ∙ h.split;
        counted = ap (λ n. n + length h.before) same_count ∙ h.counted;
      }
    where
      same_need : (report text line s).need ≡ s.need
      same_need = report_field (λ t. t.need) line s refl

      same_run : (report text line s).header_ok ≡ s.header_ok
      same_run = report_field (λ t. t.header_ok) line s refl

      same_match : (report text line s).matched ≡ s.matched
      same_match = report_field (λ t. t.matched) line s refl

      same_pending : (report text line s).pending ≡ s.pending
      same_pending = report_field (λ t. t.pending) line s refl

      same_count : (report text line s).junk_bytes ≡ s.junk_bytes
      same_count = report_field (λ t. t.junk_bytes) line s refl

  length-EndsWith :
      {k : ℕ} {origin s : Stream} (h : EndsWith k origin s)
      → k < 15
      → length s.pending ≡ length h.before + k
  length-EndsWith {k} h q = omega (
    arith,
    ap length h.split,
    length-append h.before (take k field_name),
    length-take k field_name,
  )

  discard-EndsWith :
      (k : ℕ) (origin s : Stream) (count : ℕ) (h : EndsWith k origin s)
      → 1 ≤ k
      → k < 15
      → count ≡ length h.before
      → EndsWith k origin (discard text s count)
  unfolding discard
  discard-EndsWith k origin s count h p q e = report-EndsWith _ (record {
    idle = h.idle;
    junk_run = rw some_left h.junk_run;
    rolled = rw some_left h.rolled;
    reports = Reports-same origin s _ refl refl refl h.reports;
    before = [];
    counted = omega (arith, h.counted, e);
    split = ap (drop count) h.split ∙ drop-append_left h.before (take k field_name) count e;
  })
    where
      some_left : (count == length s.pending) ≡ false
      some_left = ground (arith, length-EndsWith h q)

  discard_run-EndsWith :
      (k : ℕ) (origin s : Stream)
      → 1 ≤ k
      → k < 15
      → EndsWith k origin s
      → EndsWith k origin (discard_run text s)
  unfolding discard_run
  discard_run-EndsWith k origin s p q h =
      discard-EndsWith k origin s _ h p q
        (ground (arith, length-EndsWith h q, h.rolled, h.junk_run))

  pub settle-EndsWith :
      (k : ℕ) (origin s : Stream) (byte : ℕ)
      → 1 ≤ k
      → k < 15
      → (byte == lf) ≡ false
      → EndsWith k origin s
      → EndsWith k origin (settle text s byte)
  unfolding settle
  settle-EndsWith k origin s byte p q ne h = ground (arith, discard_run-EndsWith k origin s p q h)

  abbrev pub rolled_on : Stream → ℕ → Stream
  rolled_on s b = record s {
    pending = s.pending ++ b ∷ [];
    header_ok = false;
    matched = roll s.matched b;
  }

  pub feed_in_junk :
      (s : Stream) (b : ℕ)
      → s.need ≡ none
      → s.header_ok ≡ false
      → feed text s b ≡ settle text (rolled_on s b) b
  unfolding feed feed_header feed_junk
  feed_in_junk s b e j = ground arith

  grown_split :
      (k : ℕ) (origin s : Stream) (h : EndsWith k origin s)
      → k < 15
      → s.pending ++ get_or field_name k 0 ∷ [] ≡ h.before ++ take (suc k) field_name
  grown_split k origin s h q =
      ap (λ xs. xs ++ get_or field_name k 0 ∷ []) h.split
      ∙ append_assoc h.before (take k field_name) (get_or field_name k 0 ∷ [])
      ∙ ap (◌++◌ h.before) (sym (take_snoc k field_name 0 (omega arith)))

  -- From byte 1 to byte 13 of the field name the match grows.
  pub feed-EndsWith :
      (k : ℕ) (origin s : Stream)
      → 1 ≤ k
      → k < 14
      → EndsWith k origin s
      → EndsWith (suc k) origin (feed text s (get_or field_name k 0))
  feed-EndsWith k origin s p q h = rw (feed_in_junk s (get_or field_name k 0) h.idle h.junk_run) (
      settle-EndsWith (suc k) origin (rolled_on s (get_or field_name k 0)) (get_or field_name k 0)
        (omega arith) (omega arith) (field_byte k (omega arith)).1
        (record {
          idle = h.idle;
          junk_run = refl;
          rolled =
              ap (λ m. roll m (get_or field_name k 0)) h.rolled
              ∙ (field_byte k (omega arith)).0
              ∙ omega arith;
          reports = Reports-same origin s _ refl refl refl h.reports;
          counted = h.counted;
          before = h.before;
          split = grown_split k origin s h (omega arith);
        }))

  -- The 15th byte completes it: the junk is dropped, and the run is a header run.
  pub record Recovered (origin t : Stream) : Type 0 where
    pub lost : Stream
    pub reports : Reports origin lost
    pub counted : lost.junk_bytes ≡ origin.junk_bytes + length origin.pending
    pub is_run : t ≡ header_run lost (take 15 field_name)

  discard_fields :
      (origin s : Stream) (count : ℕ)
      → Reports origin s
      → ((discard text s count).need ≡ s.need)
        × ((discard text s count).pending ≡ drop count s.pending)
        × ((discard text s count).junk_bytes ≡ s.junk_bytes + count)
        × Reports origin (discard text s count)
  unfolding discard
  discard_fields origin s count r =
      let all = count == length s.pending in
      let line = text.decode (trim_line_end (take count s.pending)) in
      let dropped = record s {
        pending = drop count s.pending;
        header_ok = if all then true else s.header_ok;
        matched = if all then 0 else s.matched;
        junk_bytes = s.junk_bytes + count;
      } in
      (
        report_field (λ t. t.need) line dropped refl,
        report_field (λ t. t.pending) line dropped refl,
        report_field (λ t. t.junk_bytes) line dropped refl,
        report-Reports line origin dropped (Reports-same origin s dropped refl refl refl r),
      )

  discard_to_header-Recovered :
      (origin : Stream) (before : Bytes) (s : Stream)
      → s.need ≡ none
      → Reports origin s
      → s.junk_bytes + length before ≡ origin.junk_bytes + length origin.pending
      → s.pending ≡ before ++ take 15 field_name
      → Recovered origin (discard_to_header text s)
  unfolding discard_to_header
  discard_to_header-Recovered origin before s e told amount split =
      let c = length s.pending - header_length in
      let (same_need, left, more, reported) = discard_fields origin s c told in
      record {
        lost = discard text s c;
        reports = reported;
        counted = more ∙ ap (λ n. s.junk_bytes + n) (counted before s split) ∙ amount;
        is_run = λ i. record (discard text s c) {
          pending =
              (left
                  ∙ ap (drop c) split
                  ∙ drop-append_left before (take 15 field_name) c (counted before s split))
                i;
          need = (same_need ∙ e) i;
          header_ok = true;
          matched = 0;
        };
      }

  settle_done :
      (s : Stream) (b : ℕ) → s.matched ≡ header_length → settle text s b ≡ discard_to_header text s
  unfolding settle
  settle_done s b e = ground arith

  pub feed_last-Recovered :
      (origin s : Stream)
      → EndsWith 14 origin s
      → Recovered origin (feed text s (get_or field_name 14 0))
  feed_last-Recovered origin s h = rw (feed_in_junk s (get_or field_name 14 0) h.idle h.junk_run) (
      rw
        (settle_done (rolled_on s (get_or field_name 14 0)) (get_or field_name 14 0)
          (ap (λ m. roll m (get_or field_name 14 0)) h.rolled ∙ (field_byte 14 (omega arith)).0))
        (discard_to_header-Recovered origin h.before (rolled_on s (get_or field_name 14 0)) h.idle
          (Reports-same origin s _ refl refl refl h.reports) h.counted
          (grown_split 14 origin s h (omega arith))))
