-- ===== src/Frames/RoundTrip.antt =====
-- `residentFrame` of public/workers/lean.worker.js against the decoder of
-- public/workers/lsp-frames.js.
use mathlib.Core.List.{flatten}
use qed.Common.{
  ℕ, ◌+◌, ◌^◌, ◌≤◌, ◌<◌, ◌≡◌, ◌≢◌, refl, sym, ap, ◌∙◌, true, some, List, [], ◌∷◌, ◌++◌, map,
  append-nil, append_assoc, arith,
}
use qed.Common.Lists.{length, all, length-append, take_all, drop_all}
use qed.Frames.Buffer.{Bytes}
use qed.Frames.Scan.{cr, lf, is_digit, skip_spaces, read_digits}
use qed.Frames.Decoder.{TextDecoder, Event, frame, Decoder, new_decoder, push_bytes}
use qed.Frames.Stream.{Stream, view, emit, await, begin_body, feed_all, feed_all-append}
use qed.Frames.Chunks.{feed_all-awaited, push_bytes-view, push_bytes-IsSound}
use qed.Frames.Refines.{IsSound, new_decoder-IsSound}
use qed.Frames.Encoder.{
  field_name, blank_line, framed, resident_frame, decimal, value_from, decimal-value,
  decimal-digits, decimal-length,
}
use qed.Frames.Header.{header_run, read_digits-all, feed_field_name, feed_digits, feed_blank_line}

-- Digits end in a digit.
record EndsInDigit (ds : Bytes) : Type 0 where
  front : Bytes
  last : ℕ
  split : ds ≡ front ++ last ∷ []
  not_lf : last ≢ lf

digits-EndsInDigit : (ds : Bytes) → all is_digit ds ≡ true → 1 ≤ length ds → EndsInDigit ds
digits-EndsInDigit [] h k = absurd (omega arith)
digits-EndsInDigit (d ∷ []) h k = record {
  front = [];
  last = d;
  split = refl;
  not_lf = ground arith;
}
digits-EndsInDigit (d ∷ e ∷ ds) h k =
    let r = digits-EndsInDigit (e ∷ ds) (ground arith) (omega arith) in
    record { front = d ∷ r.front; last = r.last; split = ap (◌∷◌ d) r.split; not_lf = r.not_lf }

-- A length that fits in a header line: up to 4000 digits.
pub record IsLength (ds : Bytes) (n : ℕ) : Type 0 where
  pub digits : all is_digit ds ≡ true
  pub nonempty : 1 ≤ length ds
  pub short : length ds ≤ 4000
  pub value : value_from 0 ds ≡ n

skip_one_space : (d : ℕ) (bs : Bytes) → is_digit d ≡ true → skip_spaces (0x20 ∷ d ∷ bs) ≡ d ∷ bs
unfolding skip_spaces
skip_one_space d bs h = ground arith

module _ (text : TextDecoder) where
  -- The rest of the header line, behind the field's name.
  feed_length :
      (s : Stream) (ds : Bytes) (n : ℕ)
      → IsLength ds n
      → feed_all text (header_run s field_name) (ds ++ blank_line)
        ≡ begin_body text (header_run s (field_name ++ (ds ++ blank_line)))
  feed_length s ds n h =
      feed_all-append text (header_run s field_name) ds blank_line
      ∙ ap (λ t. feed_all text t blank_line)
          (feed_digits text s ds field_name h.digits (omega arith) (omega (arith, h.short))
            ∙ ap (header_run s) before)
      ∙ feed_blank_line text s (field_name ++ r.front) r.last r.not_lf
          (omega (arith, length-append field_name r.front)) (omega (arith, counted, h.short))
      ∙ ap (λ p. begin_body text (header_run s p)) behind
    where
      r : EndsInDigit ds
      r = digits-EndsInDigit ds h.digits h.nonempty

      before : field_name ++ ds ≡ (field_name ++ r.front) ++ r.last ∷ []
      before = ap (◌++◌ field_name) r.split ∙ sym (append_assoc field_name r.front (r.last ∷ []))

      behind : (field_name ++ r.front) ++ r.last ∷ blank_line ≡ field_name ++ (ds ++ blank_line)
      behind =
          append_assoc field_name r.front (r.last ∷ blank_line)
          ∙ ap (◌++◌ field_name) (
              sym (append_assoc r.front (r.last ∷ []) blank_line)
              ∙ ap (λ xs. xs ++ blank_line) (sym r.split))

      counted : length (field_name ++ r.front) + 1 ≡ 16 + length ds
      counted = omega (
        arith,
        length-append field_name r.front,
        length-append r.front (r.last ∷ []),
        ap length r.split,
      )

  begin_body_read :
      (s : Stream) (ds : Bytes) (n : ℕ)
      → IsLength ds n
      → begin_body text (header_run s (field_name ++ (ds ++ blank_line)))
        ≡ await text (header_run s (field_name ++ (ds ++ blank_line))) n (length ds)
  unfolding begin_body
  begin_body_read s [] n h = absurd (omega (arith, h.nonempty))
  begin_body_read s (d ∷ ds) n h =
      ap (λ (bs : Bytes). await text t (read_digits 0 0 bs).0 (read_digits 0 0 bs).1)
        (skip_one_space d (ds ++ blank_line) (ground (arith, h.digits)))
      ∙ ap (λ (r : ℕ × ℕ). await text t r.0 r.1)
          (read_digits-all 0 0 (d ∷ ds) (lf ∷ cr ∷ lf ∷ []) h.digits)
      ∙ ap (λ v. await text t v (0 + length (d ∷ ds))) h.value
      ∙ ap (await text t n) (omega arith)
    where
      t : Stream
      t = header_run s (field_name ++ ((d ∷ ds) ++ blank_line))

  -- The state behind a frame whose body is `body`.
  abbrev pub delivered : Stream → Bytes → Stream
  delivered s body = record (header_run s []) {
    frames = s.frames + 1;
    out = s.out ++ frame (text.decode body) ∷ [];
  }

  feed_body :
      (s : Stream) (p body : Bytes) (digits : ℕ)
      → 1 ≤ digits
      → feed_all text (await text (header_run s p) (length body) digits) body ≡ delivered s body
  unfolding await emit
  feed_body s p [] digits h = ground arith
  feed_body s p (b ∷ bs) digits h =
      ap (λ t. feed_all text t (b ∷ bs)) waiting
      ∙ feed_all-awaited text open_body (length (b ∷ bs)) (b ∷ bs) refl (omega arith) (omega arith)
      ∙ ground (arith, take_all (b ∷ bs) (length (b ∷ bs)), drop_all (b ∷ bs) (length (b ∷ bs)))
    where
      open_body : Stream
      open_body = record (header_run s []) { need = some (length (b ∷ bs)) }

      waiting : await text (header_run s p) (length (b ∷ bs)) digits ≡ open_body
      waiting = ground arith

  -- One frame, from the end of the field's name on.
  pub feed_framed_rest :
      (s : Stream) (ds body : Bytes)
      → IsLength ds (length body)
      → feed_all text (header_run s field_name) (ds ++ (blank_line ++ body)) ≡ delivered s body
  feed_framed_rest s ds body h =
      ap (feed_all text (header_run s field_name)) (sym (append_assoc ds blank_line body))
      ∙ feed_all-append text (header_run s field_name) (ds ++ blank_line) body
      ∙ ap (λ t. feed_all text t body)
          (feed_length s ds (length body) h ∙ begin_body_read s ds (length body) h)
      ∙ feed_body s (field_name ++ (ds ++ blank_line)) body (length ds) h.nonempty

  -- One frame, from a state with no run in progress.
  feed_framed :
      (s : Stream) (ds body : Bytes)
      → IsLength ds (length body)
      → feed_all text (header_run s []) (framed ds body) ≡ delivered s body
  feed_framed s ds body h =
      ap (λ t. feed_all text t (ds ++ (blank_line ++ body))) (feed_field_name text s)
      ∙ feed_framed_rest s ds body h

  resident_frame-framed :
      (s : Stream) (body : Bytes)
      → length body < 2 ^ 53
      → feed_all text (header_run s []) (resident_frame body) ≡ delivered s body
  unfolding resident_frame
  resident_frame-framed s body h = feed_framed s (decimal (length body)) body (record {
    digits = decimal-digits (length body);
    nonempty = (decimal-length (length body) h).0;
    short = omega (arith, (decimal-length (length body) h).1);
    value = decimal-value (length body);
  })

-- The bytes that `residentFrame` writes for each body, one frame behind the other.
abbrev pub wire : List Bytes → Bytes
wire [] = []
wire (b ∷ bs) = resident_frame b ++ wire bs

abbrev pub AllShort : List Bytes → Type 0
AllShort [] = Unit
AllShort (b ∷ bs) = (length b < 2 ^ 53) × AllShort bs

module _ (text : TextDecoder) where
  abbrev pub frames_of : List Bytes → List Event
  frames_of bodies = map (λ b. frame (text.decode b)) bodies

  abbrev pub after_frames : Stream → List Bytes → Stream
  after_frames s bodies = record (header_run s []) {
    frames = s.frames + length bodies;
    out = s.out ++ frames_of bodies;
  }

  feed_wire :
      (s : Stream) (bodies : List Bytes)
      → AllShort bodies
      → feed_all text (header_run s []) (wire bodies) ≡ after_frames s bodies
  feed_wire s [] h = ground (arith, append-nil s.out)
  feed_wire s (b ∷ bs) (h, k) =
      feed_all-append text (header_run s []) (resident_frame b) (wire bs)
      ∙ ap (λ t. feed_all text t (wire bs)) (resident_frame-framed text s b h)
      ∙ feed_wire (delivered text s b) bs k
      ∙ ground (arith, append_assoc s.out (frame (text.decode b) ∷ []) (frames_of bs))

  -- A stream in chunks, as the worker's stdout hands them over.
  abbrev pub push_chunks : Decoder → List Bytes → Decoder
  push_chunks d [] = d
  push_chunks d (c ∷ cs) = push_chunks (push_bytes text d c) cs

  push_chunks-view :
      (d : Decoder) (chunks : List Bytes)
      → IsSound d
      → view (push_chunks d chunks) ≡ feed_all text (view d) (flatten chunks)
  unfolding flatten
  push_chunks-view d [] h = refl
  push_chunks-view d (c ∷ cs) h =
      push_chunks-view (push_bytes text d c) cs (push_bytes-IsSound text d c h)
      ∙ ap (λ s. feed_all text s (flatten cs)) (push_bytes-view text d c h)
      ∙ sym (feed_all-append text (view d) c (flatten cs))

  new_decoder-view : view new_decoder ≡ header_run (view new_decoder) []
  unfolding view
  new_decoder-view = refl

  -- Every sequence of framed messages is decoded to exactly its bodies, in order, with no junk line
  -- and nothing pending, whatever the chunks are in which the decoder receives the stream.
  pub push_chunks-wire :
      (bodies chunks : List Bytes)
      → AllShort bodies
      → flatten chunks ≡ wire bodies
      → view (push_chunks new_decoder chunks) ≡ after_frames (view new_decoder) bodies
  push_chunks-wire bodies chunks h e =
      push_chunks-view new_decoder chunks new_decoder-IsSound
      ∙ ap (feed_all text (view new_decoder)) e
      ∙ ap (λ s. feed_all text s (wire bodies)) new_decoder-view
      ∙ feed_wire (view new_decoder) bodies h
