-- ===== src/Frames/Fits.antt =====
-- The indices of the decoder of public/workers/lsp-frames.js and its buffer, through `grow`.
use qed.Common.{
  ℕ, zero, suc, ◌+◌, ◌-◌, ◌*◌, ◌≤◌, ◌≡◌, sym, ap, ◌∙◌, inl, inr, false, some, arith, ltb,
  Bool-cases,
}
use qed.Common.Lists.{drop}
use qed.Frames.Buffer.{
  Buffer, zeros, store_all, slice, copy_to_front, length-slice, drop-slice, slice-store_all_zero,
  size-store_all, slice-copy_to_front,
}
use qed.Frames.Scan.{header_length}
use qed.Frames.Decoder.{
  TextDecoder, Decoder, double_to, compact, enlarge, grow, emit_body, flush_junk_to, flush_junk,
  resync, await_body, parse_header, settle_junk, push_junk, push_header, roll,
}
use qed.Frames.Stream.{Stream, view}
use qed.Frames.Views.{kept}

pub record Fits (d : Decoder) : Type 0 where
  pub ordered : d.head ≤ d.len
  pub within : d.len ≤ d.buf.size
  pub nonempty : 1 ≤ d.buf.size

double_to-le :
    (fuel size wanted : ℕ) → 1 ≤ size → wanted ≤ size + fuel → wanted ≤ double_to fuel size wanted
unfolding double_to
double_to-le zero size wanted h k = omega arith
double_to-le (suc fuel) size wanted h k = ground (arith, double_to-le fuel (size * 2) wanted)

-- Growing keeps what is pending, and leaves room for `extra` more bytes.
pub record Grown (d e : Decoder) (extra : ℕ) : Type 0 where
  pub fits : Fits e
  pub room : e.len + extra ≤ e.buf.size
  pub same : view e ≡ view d

compact-view : (d : Decoder) → Fits d → view (compact d) ≡ view d
unfolding view
compact-view d f = elim (Bool-cases (ltb 0 d.head)) [
  | inl e ↦ rw e (ap {B = Stream} (λ p. record (view d) { pending = p }) moved)
  | inr e ↦ rw e
]
  where
    moved :
        slice (copy_to_front d.buf d.head d.len) 0 (d.len - d.head - 0)
        ≡ slice d.buf d.head (d.len - d.head)
    moved =
        ap (λ k. slice (copy_to_front d.buf d.head k) 0 (d.len - d.head - 0))
          (omega (arith, f.ordered))
        ∙ ap (slice (copy_to_front d.buf d.head (d.head + (d.len - d.head))) 0) (omega arith)
        ∙ slice-copy_to_front d.buf d.head (d.len - d.head)

compact-Fits : (d : Decoder) → Fits d → Fits (compact d)
compact-Fits d f = ground arith

enlarged_slice :
    (b : Buffer) (size head len : ℕ)
    → len ≤ size
    → head ≤ len
    → slice (store_all (zeros size) 0 (slice b 0 len)) head (len - head) ≡ slice b head (len - head)
enlarged_slice b size head len h k =
    sym (
      drop-slice (store_all (zeros size) 0 (slice b 0 len)) 0 head len
      ∙ ap (λ i. slice (store_all (zeros size) 0 (slice b 0 len)) i (len - head)) (omega arith))
    ∙ ap (drop head) whole
    ∙ drop-slice b 0 head len
    ∙ ap (λ i. slice b i (len - head)) (omega arith)
  where
    whole : slice (store_all (zeros size) 0 (slice b 0 len)) 0 len ≡ slice b 0 len
    whole =
        ap (slice (store_all (zeros size) 0 (slice b 0 len)) 0) (sym (length-slice b 0 len))
        ∙ slice-store_all_zero (zeros size) (slice b 0 len) (omega (arith, length-slice b 0 len))

enlarge-view : (d : Decoder) (extra : ℕ) → Fits d → view (enlarge d extra) ≡ view d
unfolding view
enlarge-view d extra f = elim (Bool-cases (ltb d.buf.size (d.len + extra))) [
  | inl e ↦ rw e (
      ap {B = Stream} (λ p. record (view d) { pending = p })
        (enlarged_slice d.buf (double_to (d.len + extra) (d.buf.size * 2) (d.len + extra)) d.head
          d.len
          (omega (arith, double_to-le (d.len + extra) (d.buf.size * 2) (d.len + extra), f.nonempty))
          f.ordered))
  | inr e ↦ rw e
]

enlarge-room :
    (d : Decoder) (extra : ℕ) → Fits d → (enlarge d extra).len + extra ≤ (enlarge d extra).buf.size
enlarge-room d extra f = ground (
  arith,
  size-store_all (zeros (double_to (d.len + extra) (d.buf.size * 2) (d.len + extra))) 0
      (slice d.buf 0 d.len),
  double_to-le (d.len + extra) (d.buf.size * 2) (d.len + extra),
)

enlarge-Fits : (d : Decoder) (extra : ℕ) → Fits d → Fits (enlarge d extra)
enlarge-Fits d extra f = ground (
  arith,
  size-store_all (zeros (double_to (d.len + extra) (d.buf.size * 2) (d.len + extra))) 0
      (slice d.buf 0 d.len),
  double_to-le (d.len + extra) (d.buf.size * 2) (d.len + extra),
)

pub grow-Grown : (d : Decoder) (extra : ℕ) → Fits d → Grown d (grow d extra) extra
unfolding grow
grow-Grown d extra f = record {
  fits = enlarge-Fits (compact d) extra (compact-Fits d f);
  room = enlarge-room (compact d) extra (compact-Fits d f);
  same = enlarge-view (compact d) extra (compact-Fits d f) ∙ compact-view d f;
}

module _ (text : TextDecoder) where
  pub emit_body-Fits :
      (d : Decoder) (n : ℕ) → Fits d → d.head + n ≤ d.len → Fits (emit_body text d n)
  unfolding emit_body
  emit_body-Fits d n f h = ground arith

  flush_junk_to-Fits : (d : Decoder) (k : ℕ) → Fits d → k ≤ d.len → Fits (flush_junk_to text d k)
  unfolding flush_junk_to
  flush_junk_to-Fits d k f h = ground arith

  flush_junk-Fits : (d : Decoder) → Fits d → Fits (flush_junk text d)
  unfolding flush_junk
  flush_junk-Fits d f = flush_junk_to-Fits d _ f (omega arith)

  resync-Fits : (d : Decoder) (k : ℕ) → Fits d → k ≤ d.len → Fits (resync text d k)
  unfolding resync
  resync-Fits d k f h = ground (arith, flush_junk_to-Fits d k f h)

  await_body-Fits : (d : Decoder) (n digits : ℕ) → Fits d → Fits (await_body text d n digits)
  unfolding await_body
  await_body-Fits d n digits f =
      ground (arith, flush_junk-Fits d, emit_body-Fits (record d { head = d.len; need = some n }) n)

  parse_header-Fits : (d : Decoder) → Fits d → Fits (parse_header text d)
  unfolding parse_header
  parse_header-Fits d f = await_body-Fits d _ _ f

  push_junk-Fits : (d : Decoder) (byte : ℕ) → Fits d → Fits (push_junk text d byte)
  unfolding push_junk settle_junk
  push_junk-Fits d byte f =
      let e = record d { matched = roll d.matched byte } in
      ground (arith, resync-Fits e (e.len - header_length), flush_junk-Fits e)

  pub push_header-Fits : (d : Decoder) (byte : ℕ) → Fits d → Fits (push_header text d byte)
  unfolding push_header
  push_header-Fits d byte f = ground (
    arith,
    parse_header-Fits d,
    flush_junk-Fits d,
    push_junk-Fits (record d { header_ok = false; matched = kept d }) byte,
  )
