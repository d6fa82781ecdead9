-- ===== src/Frames/Stream.antt =====
-- The decoder of public/workers/lsp-frames.js as a machine over the list of its pending bytes, with
-- no buffer, head or capacity: the specification of `Decoder`.
use qed.Common.{
  ◌≡◌, refl, ℕ, ◌+◌, ◌-◌, Bool, true, false, ◌&&◌, ◌||◌, Option, none, some, List, [], ◌∷◌, ◌++◌,
  leb, ◌==◌, if◌then◌else◌,
}
use qed.Common.Lists.{length, take, drop, get_or}
use text.Mathlib.Text.{◌==◌ as str_eq}
use qed.Common.{String}
use qed.Frames.Buffer.{Bytes, slice}
use qed.Frames.Scan.{
  header_length, junk_line_cap, lf, header_continues, blank_line_at, skip_spaces, read_digits,
  trim_line_end,
}
use qed.Frames.Decoder.{TextDecoder, Event, frame, junk, Decoder, roll}

pub record Stream : Type 0 where
  pub pending : Bytes
  pub need : Option ℕ
  pub header_ok : Bool
  pub matched : ℕ
  pub frames : ℕ
  pub junk_lines : ℕ
  pub junk_bytes : ℕ
  pub out : List Event

-- What a decoder's buffer holds.
unfoldable pub view : Decoder → Stream
view d = record {
  pending = slice d.buf d.head (d.len - d.head);
  need = d.need;
  header_ok = d.header_ok;
  matched = d.matched;
  frames = d.frames;
  junk_lines = d.junk_lines;
  junk_bytes = d.junk_bytes;
  out = d.out;
}

abbrev pub ends_blank : Bytes → Bool
ends_blank p = blank_line_at (length p) (λ k. get_or p (length p - k) 0)

module _ (text : TextDecoder) where
  unfoldable pub emit : Stream → ℕ → Stream
  emit s n = record s {
    pending = drop n s.pending;
    need = none;
    header_ok = true;
    matched = 0;
    frames = s.frames + 1;
    out = s.out ++ frame (text.decode (take n s.pending)) ∷ [];
  }

  abbrev pub report : String → Stream → Stream
  report line s =
      if str_eq (text.trim line) ""
      then s
      else record s { junk_lines = s.junk_lines + 1; out = s.out ++ junk line ∷ [] }

  -- The first `count` pending bytes are junk.
  unfoldable pub discard : Stream → ℕ → Stream
  discard s count =
      let all = count == length s.pending in
      report (text.decode (trim_line_end (take count s.pending))) (record s {
        pending = drop count s.pending;
        header_ok = if all then true else s.header_ok;
        matched = if all then 0 else s.matched;
        junk_bytes = s.junk_bytes + count;
      })

  unfoldable pub discard_run : Stream → Stream
  discard_run s = discard s (length s.pending - (if s.header_ok then 0 else s.matched))

  unfoldable pub discard_to_header : Stream → Stream
  discard_to_header s = record (discard s (length s.pending - header_length)) {
    header_ok = true;
    matched = 0;
  }

  unfoldable pub await : Stream → ℕ → ℕ → Stream
  await s n digits =
      if digits == 0
      then discard_run s
      else if n == 0
      then emit (record s { pending = []; need = some n }) n
      else record s { pending = []; need = some n }

  -- `digits` and their number, at the head of `bs`
  abbrev pub await_read : Stream → Bytes → Stream
  await_read s bs = let (n, digits) = read_digits 0 0 (skip_spaces bs) in await s n digits

  unfoldable pub begin_body : Stream → Stream
  begin_body s = await_read s (drop header_length s.pending)

  unfoldable pub settle : Stream → ℕ → Stream
  settle s byte =
      if s.matched == header_length
      then discard_to_header s
      else if byte == lf || leb junk_line_cap (length s.pending)
      then discard_run s
      else s

  unfoldable pub feed_junk : Stream → ℕ → Stream
  feed_junk s byte = settle (record s { matched = roll s.matched byte }) byte

  unfoldable pub feed_header : Stream → ℕ → Stream
  feed_header s byte =
      let at = length s.pending - 1 in
      let still = s.header_ok && header_continues at byte in
      if still
      then (if byte == lf && ends_blank s.pending
          then begin_body s
          else if leb junk_line_cap (length s.pending)
          then discard_run s
          else s)
      else feed_junk
          (record s { header_ok = false; matched = if s.header_ok then 0 else s.matched }) byte

  abbrev pub feed_on : Option ℕ → Stream → ℕ → Stream
  feed_on (some n) s byte = if leb n (length s.pending) then emit s n else s
  feed_on none s byte = feed_header s byte

  unfoldable pub feed : Stream → ℕ → Stream
  feed s byte = feed_on s.need (record s { pending = s.pending ++ byte ∷ [] }) byte

  abbrev pub feed_all : Stream → Bytes → Stream
  feed_all s [] = s
  feed_all s (b ∷ bs) = feed_all (feed s b) bs

  pub feed_all-append :
      (s : Stream) (xs ys : Bytes) → feed_all s (xs ++ ys) ≡ feed_all (feed_all s xs) ys
  feed_all-append s [] ys = refl
  feed_all-append s (x ∷ xs) ys = feed_all-append (feed s x) xs ys
