-- ===== src/Frames/Chunks.antt =====
-- `pushBytes` of public/workers/lsp-frames.js against `push`.
use qed.Common.{
  lt→leb, ℕ, zero, suc, ◌+◌, ◌-◌, ◌≤◌, ◌<◌, min, ◌≡◌, refl, sym, ap, ◌∙◌, inl, inr, false, Option,
  none, some, [], ◌∷◌, ◌++◌, append-nil, append_assoc, arith, ltb, leb, if◌then◌else◌, Bool-cases,
}
use qed.Common.Lists.{length, take, length-append, length-take, take-append-drop, length-drop}
use qed.Frames.Buffer.{Bytes, slice, store_all, slice-store_all, size-store_all, length-slice}
use qed.Frames.Decoder.{
  TextDecoder, Decoder, grow, emit_body, push_bulk, push_round, push_bytes_on, push_bytes,
  push_each,
}
use qed.Frames.Stream.{Stream, view, emit, feed, feed_all, feed_all-append}
use qed.Frames.Settled.{feed_all-IsSettled}
use qed.Frames.Views.{view-if, length-view, view-emit_body}
use qed.Frames.Fits.{Fits, grow-Grown, emit_body-Fits}
use qed.Frames.Refines.{IsSound, push-view, push-IsSound, push_each-view}

abbrev pub with_bytes : Stream → Bytes → Stream
with_bytes s bs = record s { pending = s.pending ++ bs }

module _ (text : TextDecoder) where
  -- What a block inside an awaited body does.
  abbrev pub fill : Stream → ℕ → Bytes → Stream
  fill s n bs =
      if leb n (length (s.pending ++ bs)) then emit text (with_bytes s bs) n else with_bytes s bs

  feed-awaited : (s : Stream) (n b : ℕ) → s.need ≡ some n → feed text s b ≡ fill s n (b ∷ [])
  unfolding feed
  feed-awaited s n b e = ground arith

  pub feed_all-awaited :
      (s : Stream) (n : ℕ) (bs : Bytes)
      → s.need ≡ some n
      → length s.pending < n
      → length s.pending + length bs ≤ n
      → feed_all text s bs ≡ fill s n bs
  feed_all-awaited s n [] e h k = rw (append-nil s.pending, short) refl
    where
      short : leb n (length s.pending) ≡ false
      short = ground arith
  feed_all-awaited s n (b ∷ []) e h k = feed-awaited s n b e
  feed_all-awaited s n (b ∷ c ∷ bs) e h k =
      ap (λ t. feed_all text t (c ∷ bs)) (feed-awaited s n b e ∙ short)
      ∙ feed_all-awaited (with_bytes s (b ∷ [])) n (c ∷ bs) e
          (omega (arith, length-append s.pending (b ∷ [])))
          (omega (arith, length-append s.pending (b ∷ [])))
      ∙ ap
          (λ p.
            if leb n (length p)
            then emit text (record s { pending = p }) n
            else record s { pending = p })
          (append_assoc s.pending (b ∷ []) (c ∷ bs))
    where
      short : fill s n (b ∷ []) ≡ with_bytes s (b ∷ [])
      short = rw (
          lt→leb n (length (s.pending ++ b ∷ [])) (omega (arith, length-append s.pending (b ∷ []))))

  store_all-view :
      (d : Decoder) (bs : Bytes)
      → d.head ≤ d.len
      → d.len + length bs ≤ d.buf.size
      → view (record d { buf = store_all d.buf d.len bs; len = d.len + length bs })
        ≡ with_bytes (view d) bs
  unfolding view
  store_all-view d bs h k =
      ap {B = Stream} (λ p. record (view d) { pending = p }) (at_end ∙ appended)
    where
      at_end :
          slice (store_all d.buf d.len bs) d.head (d.len + length bs - d.head)
          ≡ slice
              (store_all d.buf (d.head + (d.len - d.head)) bs)
              d.head
              (d.len - d.head + length bs)
      at_end =
          ap (λ i. slice (store_all d.buf i bs) d.head (d.len + length bs - d.head)) (omega arith)
          ∙ ap (slice (store_all d.buf (d.head + (d.len - d.head)) bs) d.head) (omega arith)

      appended :
          slice (store_all d.buf (d.head + (d.len - d.head)) bs) d.head (d.len - d.head + length bs)
          ≡ slice d.buf d.head (d.len - d.head) ++ bs
      appended = slice-store_all d.buf d.head (d.len - d.head) bs (omega arith)

  -- One bulk copy into a decoder `r` with room.
  abbrev filled : Decoder → Bytes → Decoder
  filled r bs = record r { buf = store_all r.buf r.len bs; len = r.len + length bs }

  bulk_roomy :
      (d r : Decoder) (n : ℕ) (bs : Bytes)
      → Fits r
      → r.len + length bs ≤ r.buf.size
      → view r ≡ view d
      → let e = filled r bs in
        (view (if leb n (e.len - e.head) then emit_body text e n else e) ≡ fill (view d) n bs)
        × Fits (if leb n (e.len - e.head) then emit_body text e n else e)
  bulk_roomy d r n bs f room same = (
    view-if (leb n (r.len + length bs - r.head)) (leb n (length ((view d).pending ++ bs))) _ _
        (ap (leb n) count)
        (λ e.
          view-emit_body text (filled r bs) n (ground (arith, f.ordered))
          ∙ ap (λ s. emit text s n) seen)
        (λ _. seen),
    ground (arith, fits, emit_body-Fits text (filled r bs) n),
  )
    where
      seen : view (filled r bs) ≡ with_bytes (view d) bs
      seen = store_all-view r bs f.ordered room ∙ ap (λ s. with_bytes s bs) same

      count : r.len + length bs - r.head ≡ length ((view d).pending ++ bs)
      count = sym (length-view (filled r bs)) ∙ ap (λ s. length s.pending) seen

      fits : Fits (filled r bs)
      fits = omega (arith, size-store_all r.buf r.len bs, f.nonempty, f.ordered)

  bulk_step :
      (d : Decoder) (n : ℕ) (bs : Bytes)
      → IsSound d
      → (view (push_bulk text d n bs) ≡ fill (view d) n bs) × Fits (push_bulk text d n bs)
  unfolding push_bulk
  bulk_step d n bs h = elim (Bool-cases (ltb d.buf.size (d.len + length bs))) [
    | inl full ↦ rw full (
        let g = grow-Grown d (length bs) h.fits in
        bulk_roomy d (grow d (length bs)) n bs g.fits g.room g.same)
    | inr free ↦ rw free (bulk_roomy d d n bs h.fits (ground arith) refl)
  ]

  awaited : (d : Decoder) (n : ℕ) → IsSound d → d.need ≡ some n → d.len - d.head < n
  unfolding view
  awaited d n h e = rw (← length-slice d.buf d.head (d.len - d.head)) (rw e at h.settled.bounded)

  bulk-IsSound :
      (d : Decoder) (n : ℕ) (bs : Bytes)
      → IsSound d
      → d.need ≡ some n
      → d.len - d.head + length bs ≤ n
      → (view (push_bulk text d n bs) ≡ feed_all text (view d) bs) × IsSound (push_bulk text d n bs)
  bulk-IsSound d n bs h e k = (
    seen,
    record {
      fits = (bulk_step d n bs h).1;
      settled = rw seen (feed_all-IsSettled text (view d) bs h.settled);
    },
  )
    where
      open_body : (view d).need ≡ some n
      open_body = unfold view in e

      seen : view (push_bulk text d n bs) ≡ feed_all text (view d) bs
      seen =
          (bulk_step d n bs h).0
          ∙ sym (
              feed_all-awaited (view d) n bs open_body (rw (length-view d) (awaited d n h e))
                (rw (length-view d) k))

  -- A round feeds some of the bytes, at least one, and leaves the others.
  record Round (d : Decoder) (b : ℕ) (bs : Bytes) (r : Decoder × Bytes) : Type 0 where
    taken : Bytes
    split : b ∷ bs ≡ taken ++ r.1
    shorter : length r.1 ≤ length bs
    seen : view r.0 ≡ feed_all text (view d) taken
    sound : IsSound r.0

  push_round-Round :
      (need : Option ℕ) (d : Decoder) (b : ℕ) (bs : Bytes)
      → IsSound d
      → d.need ≡ need
      → Round d b bs (push_round text need d b bs)
  push_round-Round none d b bs h e = record {
    taken = b ∷ [];
    split = refl;
    shorter = omega arith;
    seen = push-view text d b h;
    sound = push-IsSound text d b h;
  }
  push_round-Round (some n) d b bs h e =
      let k = min (length (b ∷ bs)) (n - (d.len - d.head)) in
      let (seen, sound) =
        bulk-IsSound d n (take k (b ∷ bs)) h e
          (omega (arith, length-take k (b ∷ bs), awaited d n h e)) in
      record {
        taken = take k (b ∷ bs);
        split = sym (take-append-drop k (b ∷ bs));
        shorter = omega (arith, length-drop k (b ∷ bs), awaited d n h e);
        seen = seen;
        sound = sound;
      }

  pub push_bytes_on-view :
      (fuel : ℕ) (d : Decoder) (bytes : Bytes)
      → IsSound d
      → length bytes ≤ fuel
      → (view (push_bytes_on text fuel d bytes) ≡ feed_all text (view d) bytes)
        × IsSound (push_bytes_on text fuel d bytes)
  unfolding push_bytes_on
  push_bytes_on-view zero d [] h k = (refl, h)
  push_bytes_on-view zero d (b ∷ bs) h k = absurd (omega arith)
  push_bytes_on-view (suc fuel) d [] h k = (refl, h)
  push_bytes_on-view (suc fuel) d (b ∷ bs) h k =
      let r = push_round-Round d.need d b bs h refl in
      let (seen, sound) =
        push_bytes_on-view fuel (push_round text d.need d b bs).0 (push_round text d.need d b bs).1
          r.sound (omega (arith, r.shorter)) in
      (
        seen
            ∙ ap (λ s. feed_all text s (push_round text d.need d b bs).1) r.seen
            ∙ sym (feed_all-append text (view d) r.taken (push_round text d.need d b bs).1)
            ∙ ap (feed_all text (view d)) (sym r.split),
        sound,
      )

  -- A chunk has the effect of its bytes one at a time: the same frames, junk lines, counts and
  -- pending bytes, whatever the decoder holds and however the stream is cut into chunks.
  pub push_bytes-push_each :
      (d : Decoder) (bytes : Bytes)
      → IsSound d
      → view (push_bytes text d bytes) ≡ view (push_each text d bytes)
  push_bytes-push_each d bytes h =
      (push_bytes_on-view (length bytes) d bytes h (omega arith)).0
      ∙ sym (push_each-view text d bytes h)

  pub push_bytes-view :
      (d : Decoder) (bytes : Bytes)
      → IsSound d
      → view (push_bytes text d bytes) ≡ feed_all text (view d) bytes
  push_bytes-view d bytes h = (push_bytes_on-view (length bytes) d bytes h (omega arith)).0

  -- A chunk leaves a sound decoder sound: the pending bytes lie inside the buffer, a body that is
  -- awaited is not there yet, and a header or a junk run in progress keeps its bounds.
  pub push_bytes-IsSound :
      (d : Decoder) (bytes : Bytes) → IsSound d → IsSound (push_bytes text d bytes)
  push_bytes-IsSound d bytes h = (push_bytes_on-view (length bytes) d bytes h (omega arith)).1
