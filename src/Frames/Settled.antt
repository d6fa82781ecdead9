-- ===== src/Frames/Settled.antt =====
-- The decoder of public/workers/lsp-frames.js between two bytes: the awaited body, the header run
-- and the header bytes that a junk run may end with.
use qed.Common.{
  ℕ, ◌+◌, ◌-◌, ◌≤◌, ◌<◌, ◌≡◌, refl, true, false, Option, none, some, [], ◌∷◌, ◌++◌, arith,
  if◌then◌else◌,
}
use qed.Common.{String}
use qed.Common.Lists.{length, length-append, length-drop}
use qed.Frames.Buffer.{Bytes}
use qed.Frames.Scan.{header_length, junk_line_cap}
use qed.Frames.Decoder.{TextDecoder, roll}
use qed.Frames.Stream.{
  Stream, emit, report, discard, discard_run, discard_to_header, await, begin_body, settle,
  feed_junk, feed_header, feed_on, feed, feed_all,
}

abbrev pub Bounded : Option ℕ → ℕ → Type 0
Bounded none count = count < junk_line_cap
Bounded (some n) count = count < n

abbrev pub tail_match : Stream → ℕ
tail_match s = if s.header_ok then 0 else s.matched

pub record IsSettled (s : Stream) : Type 0 where
  pub bounded : Bounded s.need (length s.pending)
  pub partial : tail_match s ≤ length s.pending
  pub short : s.matched < header_length

length_snoc : (xs : Bytes) (x : ℕ) → length (xs ++ x ∷ []) - 1 ≡ length xs
length_snoc xs x = omega (arith, length-append xs (x ∷ []))

module _ (text : TextDecoder) where
  emit-IsSettled : (s : Stream) (n : ℕ) → length s.pending ≤ n → IsSettled (emit text s n)
  unfolding emit
  emit-IsSettled s n h = omega (arith, length-drop n s.pending)

  report-IsSettled : (line : String) (s : Stream) → IsSettled s → IsSettled (report text line s)
  report-IsSettled line s h = ground arith

  discard-IsSettled :
      (s : Stream) (count : ℕ)
      → s.need ≡ none
      → length s.pending ≤ count + junk_line_cap - 1
      → count ≤ length s.pending
      → tail_match s ≤ length s.pending - count
      → s.matched < header_length
      → IsSettled (discard text s count)
  unfolding discard
  discard-IsSettled s count e cap h partial short =
      report-IsSettled _ _ (ground (arith, length-drop count s.pending))

  discard_run-IsSettled :
      (s : Stream)
      → s.need ≡ none
      → tail_match s ≤ length s.pending
      → s.matched < header_length
      → IsSettled (discard_run text s)
  unfolding discard_run
  discard_run-IsSettled s e partial short =
      discard-IsSettled s (length s.pending - tail_match s) e (ground arith) (omega arith)
        (omega arith) short

  discard_to_header-IsSettled :
      (s : Stream)
      → s.need ≡ none
      → header_length ≤ length s.pending
      → IsSettled (discard_to_header text s)
  unfolding discard_to_header discard
  discard_to_header-IsSettled s e h =
      ground (arith, length-drop (length s.pending - header_length) s.pending)

  await-IsSettled :
      (s : Stream) (n digits : ℕ)
      → s.need ≡ none
      → s.header_ok ≡ true
      → s.matched < header_length
      → IsSettled (await text s n digits)
  unfolding await
  await-IsSettled s n digits e ok short =
      ground (
        arith,
        discard_run-IsSettled s,
        emit-IsSettled (record s { pending = []; need = some n }) n,
      )

  begin_body-IsSettled :
      (s : Stream)
      → s.need ≡ none
      → s.header_ok ≡ true
      → s.matched < header_length
      → IsSettled (begin_body text s)
  unfolding begin_body
  begin_body-IsSettled s e ok short = await-IsSettled s _ _ e ok short

  settle-IsSettled :
      (s : Stream) (byte : ℕ)
      → s.need ≡ none
      → s.header_ok ≡ false
      → s.matched ≤ length s.pending
      → s.matched ≤ header_length
      → IsSettled (settle text s byte)
  unfolding settle
  settle-IsSettled s byte e junk partial short =
      ground (arith, discard_run-IsSettled s, discard_to_header-IsSettled s)

  roll-le : (m byte : ℕ) → roll m byte ≤ m + 1
  roll-le m byte = ground arith

  feed_junk-IsSettled :
      (s : Stream) (byte : ℕ)
      → s.need ≡ none
      → s.header_ok ≡ false
      → s.matched + 1 ≤ length s.pending
      → s.matched < header_length
      → IsSettled (feed_junk text s byte)
  unfolding feed_junk
  feed_junk-IsSettled s byte e junk partial short =
      settle-IsSettled (record s { matched = roll s.matched byte }) byte e junk
        (omega (arith, roll-le s.matched byte)) (omega (arith, roll-le s.matched byte))

  feed_header-IsSettled :
      (s : Stream) (byte : ℕ)
      → s.need ≡ none
      → tail_match s + 1 ≤ length s.pending
      → s.matched < header_length
      → IsSettled (feed_header text s byte)
  unfolding feed_header
  feed_header-IsSettled s byte e partial short = ground (
    arith,
    discard_run-IsSettled s,
    begin_body-IsSettled s,
    feed_junk-IsSettled (record s { header_ok = false; matched = tail_match s }) byte,
  )

  feed_on-IsSettled :
      (need : Option ℕ) (s : Stream) (byte : ℕ)
      → s.need ≡ need
      → Bounded need (length s.pending - 1)
      → tail_match s + 1 ≤ length s.pending
      → s.matched < header_length
      → IsSettled (feed_on text need s byte)
  feed_on-IsSettled (some n) s byte e bounded partial short = ground (arith, emit-IsSettled s n)
  feed_on-IsSettled none s byte e bounded partial short =
      feed_header-IsSettled s byte e partial short

  pub feed-IsSettled : (s : Stream) (byte : ℕ) → IsSettled s → IsSettled (feed text s byte)
  unfolding feed
  feed-IsSettled s byte h =
      feed_on-IsSettled s.need (record s { pending = s.pending ++ byte ∷ [] }) byte refl
        (rw (length_snoc s.pending byte) h.bounded)
        (omega (arith, length-append s.pending (byte ∷ []), h.partial)) h.short

  pub feed_all-IsSettled :
      (s : Stream) (bytes : Bytes) → IsSettled s → IsSettled (feed_all text s bytes)
  feed_all-IsSettled s [] h = h
  feed_all-IsSettled s (b ∷ bs) h = feed_all-IsSettled (feed text s b) bs (feed-IsSettled s b h)
