-- ===== src/Frames/Views.antt =====
-- Each method of the decoder with its buffer (public/workers/lsp-frames.js) seen through `view`.
use qed.Common.{
  String, ℕ, ◌+◌, ◌-◌, ◌≤◌, ◌≡◌, refl, sym, ap, ◌∙◌, inl, inr, Bool, true, false, ◌&&◌, ◌||◌, some,
  [], arith, leb, ◌==◌, if◌then◌else◌, Bool-cases,
}
use qed.Common.Lists.{length, drop, get_or}
use qed.Frames.Buffer.{
  Buffer, slice, length-slice, take-slice, drop-slice, slice_none, get_or-slice,
}
use qed.Frames.Scan.{header_length, junk_line_cap, lf, header_continues, blank_line_at}
use qed.Frames.Decoder.{
  TextDecoder, Decoder, roll, header_rest, header_terminated, emit_body, report_junk, flush_junk_to,
  flush_junk, resync, await_body, parse_header, settle_junk, push_junk, push_header,
}
use qed.Frames.Stream.{
  Stream, view, emit, report, discard, discard_run, discard_to_header, await, await_read,
  begin_body, ends_blank, settle, feed_junk, feed_header,
}

-- What is left behind the place `k`, with the reset to 0 when nothing is.
slice_reset :
    (b : Buffer) (head len k : ℕ)
    → head ≤ k
    → k ≤ len
    → slice b
        (if k == len then 0 else k)
        ((if k == len then 0 else len) - (if k == len then 0 else k))
      ≡ drop (k - head) (slice b head (len - head))
slice_reset b head len k h l = elim (Bool-cases (k == len)) [
  | inl e ↦ rw e (sym (drop-slice b head (k - head) (len - head) ∙ slice_none b _ _ (ground arith)))
  | inr e ↦ rw e (
      sym (
        drop-slice b head (k - head) (len - head)
        ∙ ap (λ j. slice b j (len - head - (k - head))) (omega arith)
        ∙ ap (slice b k) (omega arith)))
]

add_sub_cancel : (a b : ℕ) → a + b - a ≡ b
add_sub_cancel a b = omega arith

sub_add : (a b c : ℕ) → a - (b + c) ≡ a - b - c
sub_add a b c = omega arith

same_end : (head k len : ℕ) → head ≤ k → k ≤ len → (k - head == len - head) ≡ (k == len)
same_end head k len h l = ground arith

-- Both machines branch alike.
pub view-if :
    (b c : Bool) (x y : Decoder) {s t : Stream}
    → b ≡ c
    → (b ≡ true → view x ≡ s)
    → (b ≡ false → view y ≡ t)
    → view (if b then x else y) ≡ (if c then s else t)
view-if true true x y e p q = p refl
view-if true false x y e p q = cc
view-if false true x y e p q = cc
view-if false false x y e p q = q refl

pub length-view : (d : Decoder) → length (view d).pending ≡ d.len - d.head
unfolding view
length-view d = length-slice d.buf d.head (d.len - d.head)

header_rest-view : (d : Decoder) → header_rest d ≡ drop header_length (view d).pending
unfolding view
header_rest-view d = sym (
    drop-slice d.buf d.head header_length (d.len - d.head)
    ∙ ap (slice d.buf (d.head + header_length)) (sym (sub_add d.len d.head header_length)))

blank_line_ext :
    (n : ℕ) (f g : ℕ → ℕ)
    → ((k : ℕ) → 1 ≤ k → k ≤ n → f k ≡ g k)
    → blank_line_at n f ≡ blank_line_at n g
blank_line_ext n f g h = ground (arith, h 1, h 2, h 3, h 4)

-- The byte `k` places before the end, for the tests of a blank line.
byte_from_end :
    (d : Decoder) (k : ℕ)
    → 1 ≤ k
    → k ≤ d.len - d.head
    → get_or (view d).pending (length (view d).pending - k) 0 ≡ d.buf.at (d.len - k)
unfolding view
byte_from_end d k p h = rw (length-slice d.buf d.head (d.len - d.head)) (
    get_or-slice d.buf d.head (d.len - d.head) (d.len - d.head - k) (omega arith)
    ∙ ap d.buf.at (omega arith))

terminated-view : (d : Decoder) → header_terminated d ≡ ends_blank (view d).pending
terminated-view d =
    blank_line_ext (d.len - d.head) (λ k. d.buf.at (d.len - k))
      (λ k. get_or (view d).pending (length (view d).pending - k) 0)
      (λ k p h. sym (byte_from_end d k p h))
    ∙ ap (λ n. blank_line_at n (λ k. get_or (view d).pending (length (view d).pending - k) 0))
        (sym (length-view d))

-- How many bytes at the end of a junk run may begin a header.
abbrev pub kept : Decoder → ℕ
kept d = if d.header_ok then 0 else d.matched

module _ (text : TextDecoder) where
  pub view-emit_body :
      (d : Decoder) (n : ℕ) → d.head + n ≤ d.len → view (emit_body text d n) ≡ emit text (view d) n
  unfolding emit_body emit view
  view-emit_body d n h = rw (
    slice_reset d.buf d.head d.len (d.head + n) (omega arith) h,
    take-slice d.buf d.head n (d.len - d.head) (omega arith),
    add_sub_cancel d.head n,
  )

  view-report_junk :
      (line : String) (d : Decoder) → view (report_junk text line d) ≡ report text line (view d)
  unfolding view
  view-report_junk line d = ground arith

  view-flush_junk_to :
      (d : Decoder) (k : ℕ)
      → d.head ≤ k
      → k ≤ d.len
      → view (flush_junk_to text d k) ≡ discard text (view d) (k - d.head)
  unfolding flush_junk_to discard view
  view-flush_junk_to d k h l = rw (
    view-report_junk _ _,
    slice_reset d.buf d.head d.len k h l,
    take-slice d.buf d.head (k - d.head) (d.len - d.head) (omega arith),
    length-slice d.buf d.head (d.len - d.head),
    same_end d.head k d.len h l,
  )

  view-flush_junk :
      (d : Decoder) → d.head + kept d ≤ d.len → view (flush_junk text d) ≡ discard_run text (view d)
  unfolding flush_junk discard_run view
  view-flush_junk d h =
      view-flush_junk_to d (d.len - kept d) (omega arith) (omega arith)
      ∙ ap (discard text (view d)) (rw (length-slice d.buf d.head (d.len - d.head)) (omega arith))

  view-resync :
      (d : Decoder)
      → d.head + header_length ≤ d.len
      → view (resync text d (d.len - header_length)) ≡ discard_to_header text (view d)
  unfolding resync discard_to_header view
  view-resync d h =
      ap {A = Stream} (λ s. record s { header_ok = true; matched = 0 })
        (view-flush_junk_to d (d.len - header_length) (omega arith) (omega arith)
          ∙ ap (discard text (view d))
              (rw (length-slice d.buf d.head (d.len - d.head)) (omega arith)))

  view_consumed :
      (d : Decoder) (n : ℕ)
      → view (record d { head = d.len; need = some n })
        ≡ record (view d) { pending = []; need = some n }
  unfolding view
  view_consumed d n =
      ap {B = Stream} (λ p. record (view d) { pending = p; need = some n })
        (slice_none d.buf d.len (d.len - d.len) (omega arith))

  view-await_body :
      (d : Decoder) (n digits : ℕ)
      → d.head + kept d ≤ d.len
      → view (await_body text d n digits) ≡ await text (view d) n digits
  unfolding await_body await
  view-await_body d n digits h =
      view-if (digits == 0) (digits == 0) _ _ refl (λ e. view-flush_junk d h)
        λ e.
          view-if (n == 0) (n == 0) _ _ refl
            (λ z.
              view-emit_body (record d { head = d.len; need = some n }) n (ground arith)
              ∙ ap (λ s. emit text s n) (view_consumed d n))
            λ z. view_consumed d n

  view-parse_header :
      (d : Decoder)
      → d.head + kept d ≤ d.len
      → view (parse_header text d) ≡ begin_body text (view d)
  unfolding parse_header begin_body
  view-parse_header d h =
      view-await_body d _ _ h ∙ ap (λ bs. await_read text (view d) bs) (header_rest-view d)

  view-settle_junk :
      (d : Decoder) (byte : ℕ)
      → d.header_ok ≡ false
      → d.head + d.matched ≤ d.len
      → view (settle_junk text d byte) ≡ settle text (view d) byte
  unfolding settle_junk settle view
  view-settle_junk d byte j h =
      view-if (d.matched == header_length) ((view d).matched == header_length) _ _ refl
        (λ e. view-resync d (ground arith))
        λ e.
          view-if (byte == lf || leb junk_line_cap (d.len - d.head))
            (byte == lf || leb junk_line_cap (length (view d).pending)) _ _ (rw (length-view d))
            (λ z. view-flush_junk d (ground arith)) (λ z. refl)

  roll-le : (m byte : ℕ) → roll m byte ≤ m + 1
  roll-le m byte = ground arith

  view-push_junk :
      (d : Decoder) (byte : ℕ)
      → d.header_ok ≡ false
      → d.head + d.matched + 1 ≤ d.len
      → view (push_junk text d byte) ≡ feed_junk text (view d) byte
  unfolding push_junk feed_junk view
  view-push_junk d byte j h =
      view-settle_junk (record d { matched = roll d.matched byte }) byte j
        (omega (arith, roll-le d.matched byte))

  pub view-push_header :
      (d : Decoder) (byte : ℕ)
      → d.head + kept d + 1 ≤ d.len
      → view (push_header text d byte) ≡ feed_header text (view d) byte
  unfolding push_header feed_header view
  view-push_header d byte h =
      view-if (d.header_ok && header_continues (d.len - d.head - 1) byte)
        ((view d).header_ok && header_continues (length (view d).pending - 1) byte) _ _
        (rw (length-view d))
        (λ e.
          view-if (byte == lf && header_terminated d) (byte == lf && ends_blank (view d).pending) _
            _ (rw (terminated-view d)) (λ _. view-parse_header d (omega arith))
            λ _.
              view-if (leb junk_line_cap (d.len - d.head))
                (leb junk_line_cap (length (view d).pending)) _ _ (rw (length-view d))
                (λ _. view-flush_junk d (omega arith)) (λ _. refl))
        λ e.
          view-push_junk (record d { header_ok = false; matched = kept d }) byte refl (omega arith)
