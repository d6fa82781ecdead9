-- ===== src/Frames/Resync.antt =====
-- Recovery of the decoder of public/workers/lsp-frames.js behind junk.
use qed.Common.{
  ℕ, zero, suc, ◌+◌, ◌-◌, ◌≤◌, ◌<◌, ◌≡◌, refl, sym, ap, subst, ◌∙◌, ◌⊎◌, inl, inr, true, false,
  none, [], ◌∷◌, ◌++◌, append-nil, arith,
}
use qed.Common.Lists.{length, take, get_or, length-append}
use qed.Frames.Buffer.{Bytes, length-slice}
use qed.Frames.Scan.{header_continues}
use qed.Frames.Decoder.{TextDecoder, Decoder, pending_bytes, push_bytes}
use qed.Frames.Refines.{IsSound}
use qed.Frames.Chunks.{push_bytes-view}
use qed.Frames.Stream.{Stream, view, settle, feed_junk, feed_header, feed, feed_all}
use qed.Frames.Settled.{IsSettled}
use qed.Frames.Encoder.{field_name, blank_line, framed}
use qed.Frames.Header.{feed_plain}
use qed.Frames.RoundTrip.{IsLength, delivered, feed_framed_rest}
use qed.Frames.Rolling.{
  EndsWith, first_byte-roll, first_byte-breaks, settle-EndsWith, feed_in_junk, feed-EndsWith,
  feed_last-Recovered, rolled_on, Recovered,
}
use qed.Frames.Reports.{Reports}

-- A junk run, or between 1 and 14 bytes that still fit "Content-Length:".
abbrev pub Interrupted : Decoder → Type 0
Interrupted d =
    (d.header_ok ≡ false) ⊎ ((d.header_ok ≡ true) × (1 ≤ pending_bytes d) × (pending_bytes d < 15))

module _ (text : TextDecoder) where
  -- The `count` bytes of the field name from `k` on.
  abbrev segment : ℕ → ℕ → Bytes
  segment k zero = []
  segment k (suc count) = get_or field_name k 0 ∷ segment (suc k) count

  feed_segment-Recovered :
      (left k : ℕ) (origin s : Stream)
      → k + left ≡ 14
      → 1 ≤ k
      → EndsWith k origin s
      → Recovered text origin (feed_all text s (segment k (suc left)))
  feed_segment-Recovered zero k origin s e p h =
      subst (λ j. EndsWith j origin s → Recovered text origin (feed text s (get_or field_name j 0)))
        (sym (omega arith)) (feed_last-Recovered text origin s) h
  feed_segment-Recovered (suc left) k origin s e p h =
      feed_segment-Recovered left (suc k) origin (feed text s (get_or field_name k 0)) (omega arith)
        (omega arith) (feed-EndsWith text k origin s p (omega arith) h)

  -- "C" begins the match anew, in a junk run and in the middle of a header that it does not fit.
  feed_breaks :
      (s : Stream)
      → s.need ≡ none
      → s.header_ok ≡ true
      → 1 ≤ length s.pending
      → length s.pending < 15
      → feed text s 0x43 ≡ settle text (rolled_on text (record s { matched = 0 }) 0x43) 0x43
  unfolding feed feed_header feed_junk
  feed_breaks s e ok p q = ground (arith, length-append s.pending (0x43 ∷ []), breaks)
    where
      breaks : header_continues (length (s.pending ++ 0x43 ∷ []) - 1) 0x43 ≡ false
      breaks =
          first_byte-breaks _ (omega (arith, length-append s.pending (0x43 ∷ [])))
            (omega (arith, length-append s.pending (0x43 ∷ [])))

  settle_first-EndsWith :
      (s origin : Stream)
      → s.need ≡ none
      → s.matched < 15
      → s.frames ≡ origin.frames
      → s.out ≡ origin.out
      → s.junk_lines ≡ origin.junk_lines
      → s.junk_bytes + length s.pending ≡ origin.junk_bytes + length origin.pending
      → EndsWith 1 origin (settle text (rolled_on text s 0x43) 0x43)
  settle_first-EndsWith s origin e m f o l c =
      settle-EndsWith text 1 origin (rolled_on text s 0x43) 0x43 (omega arith) (omega arith) refl
        (record {
          idle = e;
          junk_run = refl;
          rolled = first_byte-roll s.matched m;
          reports = record {
            same_frames = f;
            more = [];
            events = o ∙ sym (append-nil origin.out);
            only_junk = refl;
            lines = omega (arith, l);
          };
          counted = c;
          before = s.pending;
          split = refl;
        })

  feed_first :
      (s : Stream)
      → IsSettled s
      → s.need ≡ none
      → (s.header_ok ≡ false)
        ⊎ ((s.header_ok ≡ true) × (1 ≤ length s.pending) × (length s.pending < 15))
      → EndsWith 1 s (feed text s 0x43)
  feed_first s h e (inl junk_run) =
      rw (feed_in_junk text s 0x43 e junk_run)
        (settle_first-EndsWith s s e h.short refl refl refl refl)
  feed_first s h e (inr (ok, p, q)) =
      rw (feed_breaks s e ok p q)
        (settle_first-EndsWith (record s { matched = 0 }) s e (omega arith) refl refl refl refl)

  -- What a frame leaves behind that was glued to junk: it is delivered, behind the events there were
  -- and the junk lines, what was pending is counted as junk, and no run is in progress.
  pub record Delivers (s t : Stream) (body : Bytes) : Type 0 where
    pub lost : Stream
    pub reports : Reports s lost
    pub counted : lost.junk_bytes ≡ s.junk_bytes + length s.pending
    pub arrives : t ≡ delivered text lost body

  feed_name_rest :
      (s t : Stream) (ds body : Bytes)
      → IsLength ds (length body)
      → Recovered text s t
      → Delivers s (feed_all text t (0x20 ∷ (ds ++ (blank_line ++ body)))) body
  feed_name_rest s t ds body h r = record {
    lost = r.lost;
    reports = r.reports;
    counted = r.counted;
    arrives =
        ap (λ u. feed_all text u (0x20 ∷ (ds ++ (blank_line ++ body)))) r.is_run
        ∙ ap (λ u. feed_all text u (ds ++ (blank_line ++ body)))
            (feed_plain text r.lost (take 15 field_name) 0x20 (omega arith) (omega arith)
              (omega arith))
        ∙ feed_framed_rest text r.lost ds body h;
  }

  feed_broken-Delivers :
      (s : Stream) (ds body : Bytes)
      → IsLength ds (length body)
      → EndsWith 1 s (feed text s 0x43)
      → Delivers s (feed_all text s (framed ds body)) body
  feed_broken-Delivers s ds body h e =
      feed_name_rest s _ ds body h
        (feed_segment-Recovered 13 1 s (feed text s 0x43) refl (omega arith) e)

  Interrupted-view :
      (d : Decoder)
      → Interrupted d
      → ((view d).header_ok ≡ false)
        ⊎ (((view d).header_ok ≡ true)
            × (1 ≤ length (view d).pending)
            × (length (view d).pending < 15))
  unfolding view
  Interrupted-view d (inl junk_run) = inl junk_run
  Interrupted-view d (inr (ok, p, q)) = inr (
    ok,
    rw (length-slice d.buf d.head (d.len - d.head)) p,
    rw (length-slice d.buf d.head (d.len - d.head)) q,
  )

  need-view : (d : Decoder) → (view d).need ≡ d.need
  unfolding view
  need-view d = refl

  -- A frame that is glued to a junk run, or to the beginning of a header that it breaks off, is
  -- delivered, from every sound decoder: all bytes that were pending are counted as junk, between
  -- the events there were and the frame there are only junk lines, each of them counted, so that no
  -- other frame is made up, and the decoder is ready for the next frame.
  pub push_bytes-Delivers :
      (d : Decoder) (ds body : Bytes)
      → IsSound d
      → d.need ≡ none
      → Interrupted d
      → IsLength ds (length body)
      → Delivers (view d) (view (push_bytes text d (framed ds body))) body
  push_bytes-Delivers d ds body h e i l = rw (push_bytes-view text d (framed ds body) h) (
      feed_broken-Delivers (view d) ds body l
        (feed_first (view d) h.settled (need-view d ∙ e) (Interrupted-view d i)))
