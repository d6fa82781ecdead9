-- ===== src/Frames/Refines.antt =====
-- The decoder of public/workers/lsp-frames.js, with its buffer and indices, against the machine over
-- the list of pending bytes.
use qed.Common.{
  ℕ, ◌+◌, ◌-◌, ◌≤◌, ◌≡◌, refl, ap, ◌∙◌, inl, inr, Option, none, some, [], ◌∷◌, ◌++◌, arith, leb,
  ◌==◌, Bool-cases,
}
use qed.Frames.Buffer.{Bytes, store, slice, slice-store_end, size-store, length-slice}
use qed.Frames.Decoder.{
  TextDecoder, Decoder, new_decoder, grow, append_byte, after_append, push, push_each,
}
use qed.Frames.Stream.{Stream, view, feed_on, feed, feed_all}
use qed.Frames.Settled.{IsSettled, feed-IsSettled}
use qed.Frames.Views.{kept, length-view, view-push_header, view-emit_body}
use qed.Frames.Fits.{Fits, grow-Grown, emit_body-Fits, push_header-Fits}

-- The invariant of a decoder between two calls.
pub record IsSound (d : Decoder) : Type 0 where
  pub fits : Fits d
  pub settled : IsSettled (view d)

abbrev with_byte : Stream → ℕ → Stream
with_byte s byte = record s { pending = s.pending ++ byte ∷ [] }

append_byte-view :
    (d : Decoder) (byte : ℕ)
    → d.head ≤ d.len
    → d.len + 1 ≤ d.buf.size
    → view (append_byte d byte) ≡ with_byte (view d) byte
unfolding view
append_byte-view d byte h k = ap {B = Stream} (λ p. record (view d) { pending = p }) appended
  where
    at_end :
        slice (store d.buf d.len byte) d.head (d.len + 1 - d.head)
        ≡ slice (store d.buf (d.head + (d.len - d.head)) byte) d.head (d.len - d.head + 1)
    at_end =
        ap (λ i. slice (store d.buf i byte) d.head (d.len + 1 - d.head)) (omega arith)
        ∙ ap (slice (store d.buf (d.head + (d.len - d.head)) byte) d.head) (omega arith)

    appended :
        slice (store d.buf d.len byte) d.head (d.len + 1 - d.head)
        ≡ slice d.buf d.head (d.len - d.head) ++ byte ∷ []
    appended = at_end ∙ slice-store_end d.buf d.head (d.len - d.head) byte (omega arith)

append_byte-Fits :
    (d : Decoder) (byte : ℕ) → Fits d → d.len + 1 ≤ d.buf.size → Fits (append_byte d byte)
append_byte-Fits d byte f k = ground (arith, size-store d.buf d.len byte)

kept-le : (r : Decoder) → Fits r → IsSettled (view r) → r.head + kept r + 1 ≤ r.len + 1
unfolding view
kept-le r f h = omega (arith, length-slice r.buf r.head (r.len - r.head), h.partial, f.ordered)

module _ (text : TextDecoder) where
  after_append-view :
      (need : Option ℕ) (d : Decoder) (byte : ℕ)
      → Fits d
      → d.head + kept d + 1 ≤ d.len
      → (view (after_append text need d byte) ≡ feed_on text need (view d) byte)
        × Fits (after_append text need d byte)
  after_append-view none d byte f k =
      (view-push_header text d byte k, push_header-Fits text d byte f)
  after_append-view (some n) d byte f k = elim (Bool-cases (leb n (d.len - d.head))) [
    | inl e ↦
        rw (length-view d, e)
          (
            view-emit_body text d n (ground (arith, f.ordered)),
            emit_body-Fits text d n f (ground (arith, f.ordered)),
          )
    | inr e ↦ rw (length-view d, e) (refl, f)
  ]

  feed-view :
      (d : Decoder) (byte : ℕ)
      → feed_on text d.need (with_byte (view d) byte) byte ≡ feed text (view d) byte
  unfolding feed view
  feed-view d byte = refl

  push_roomy :
      (d r : Decoder) (byte : ℕ)
      → IsSound d
      → Fits r
      → r.len + 1 ≤ r.buf.size
      → view r ≡ view d
      → (view (after_append text d.need (append_byte r byte) byte) ≡ feed text (view d) byte)
        × Fits (after_append text d.need (append_byte r byte) byte)
  push_roomy d r byte h f room same =
      let (v, g) =
        after_append-view d.need (append_byte r byte) byte (append_byte-Fits r byte f room)
          (kept-le r f (rw (← same) at h.settled)) in
      (
        v
            ∙ ap (λ s. feed_on text d.need s byte)
                (append_byte-view r byte f.ordered room ∙ ap (λ s. with_byte s byte) same)
            ∙ feed-view d byte,
        g,
      )

  push_step :
      (d : Decoder) (byte : ℕ)
      → IsSound d
      → (view (push text d byte) ≡ feed text (view d) byte) × Fits (push text d byte)
  unfolding push
  push_step d byte h = elim (Bool-cases (d.len == d.buf.size)) [
    | inl full ↦
        rw full
          (let g = grow-Grown d 1 h.fits in push_roomy d (grow d 1) byte h g.fits g.room g.same)
    | inr free ↦ rw free (push_roomy d d byte h h.fits (ground (arith, h.fits.within)) refl)
  ]

  -- From a sound decoder, whatever the state of its buffer, `push` is one step of the machine over the
  -- list of the pending bytes: growth, compaction and the offset of the pending bytes do not show.
  pub push-view :
      (d : Decoder) (byte : ℕ) → IsSound d → view (push text d byte) ≡ feed text (view d) byte
  push-view d byte h = (push_step d byte h).0

  pub push-IsSound : (d : Decoder) (byte : ℕ) → IsSound d → IsSound (push text d byte)
  push-IsSound d byte h = record {
    fits = (push_step d byte h).1;
    settled = rw (push-view d byte h) (feed-IsSettled text (view d) byte h.settled);
  }

  pub push_each-view :
      (d : Decoder) (bytes : Bytes)
      → IsSound d
      → view (push_each text d bytes) ≡ feed_all text (view d) bytes
  push_each-view d [] h = refl
  push_each-view d (b ∷ bs) h =
      push_each-view (push text d b) bs (push-IsSound d b h)
      ∙ ap (λ s. feed_all text s bs) (push-view d b h)

  pub push_each-IsSound :
      (d : Decoder) (bytes : Bytes) → IsSound d → IsSound (push_each text d bytes)
  push_each-IsSound d [] h = h
  push_each-IsSound d (b ∷ bs) h = push_each-IsSound (push text d b) bs (push-IsSound d b h)

pub new_decoder-IsSound : IsSound new_decoder
unfolding view
new_decoder-IsSound = omega arith
