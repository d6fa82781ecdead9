-- ===== src/Stdin/Used.antt =====
-- The number of bytes in the ring of public/workers/lean.worker.js, as its indices go round.
use qed.Common.{
  ℕ, suc, ◌+◌, ◌-◌, ◌%◌, ◌≤◌, ◌<◌, ◌≡◌, ◌≢◌, sym, ap, ◌∙◌, inl, inr, arith, leb, Bool-cases,
}
use qed.Stdin.Ring.{Stdin, free}
use qed.Stdin.Contents.{mod_low, mod_high}

-- How many bytes the ring holds.
unfoldable pub used : ℕ → ℕ → ℕ → ℕ
used size read write = (write + size - read) % size

pub used_up :
    (size read write : ℕ) → read ≤ write → write < size → used size read write ≡ write - read
unfolding used
used_up size read write h k =
    mod_high (write + size - read) size (omega arith) (omega arith) ∙ omega arith

pub used_around :
    (size read write : ℕ) → write < read → read < size → used size read write ≡ write + size - read
unfolding used
used_around size read write h k = mod_low (write + size - read) size (omega arith)

-- An index goes on by one or more, at most to the end of the ring.
next_inside : (size i n : ℕ) → i + n < size → (i + n) % size ≡ i + n
next_inside size i n h = mod_low (i + n) size h

next_around : (size i n : ℕ) → 0 < size → i + n ≡ size → (i + n) % size ≡ 0
next_around size i n h e = mod_high (i + n) size (omega arith) (omega arith) ∙ omega arith

pub used-lt : (size read write : ℕ) → read < size → write < size → used size read write < size
used-lt size read write h k = elim (Bool-cases (leb read write)) [
  | inl c ↦ ground (arith, used_up size read write)
  | inr c ↦ ground (arith, used_around size read write)
]

pub free-used :
    (size : ℕ) (s : Stdin)
    → s.read < size
    → s.write < size
    → free size s + used size s.read s.write + 1 ≡ size
unfolding free
free-used size s h k = elim (Bool-cases (leb s.read s.write)) [
  | inl c ↦ ground (arith, used_up size s.read s.write, mod_low (s.read + size - s.write - 1) size)
  | inr c ↦
      ground (arith, used_around size s.read s.write, mod_high (s.read + size - s.write - 1) size)
]

pub used-place :
    (size read write : ℕ)
    → read < size
    → write < size
    → (read + used size read write) % size ≡ write % size
used-place size read write h k = elim (Bool-cases (leb read write)) [
  | inl c ↦ ap (λ x. x % size) (ground (arith, used_up size read write))
  | inr c ↦
      mod_high (read + used size read write) size (ground (arith, used_around size read write))
        (ground (arith, used_around size read write))
      ∙ ground (arith, used_around size read write, mod_low write size)
]

pub used-more :
    (size read write n : ℕ)
    → read < size
    → write + n ≤ size
    → write < size
    → used size read write + n < size
    → used size read ((write + n) % size) ≡ used size read write + n
used-more size read write n h k w l = elim (Bool-cases (leb size (write + n))) [
  | inl c ↦
      ap (used size read) (next_around size write n (omega arith) (ground arith))
      ∙ elim (Bool-cases (leb read write)) [
        | inl d ↦ ground (arith, used_around size read 0, used_up size read write)
        | inr d ↦ absurd (ground (arith, used_around size read write))
      ]
  | inr c ↦
      ap (used size read) (next_inside size write n (ground arith))
      ∙ elim (Bool-cases (leb read write)) [
        | inl d ↦ ground (arith, used_up size read (write + n), used_up size read write)
        | inr d ↦ ground (arith, used_around size read (write + n), used_around size read write)
      ]
]

pub used-less :
    (size read write : ℕ)
    → read < size
    → write < size
    → read ≢ write
    → used size read write ≡ suc (used size ((read + 1) % size) write)
used-less size read write h k e = elim (Bool-cases (leb size (read + 1))) [
  | inl c ↦
      ground (arith, used_around size read write, used_up size 0 write)
      ∙ ap (λ i. suc (used size i write))
          (sym (next_around size read 1 (omega arith) (ground arith)))
  | inr c ↦
      elim (Bool-cases (leb read write)) [
        | inl d ↦ ground (arith, used_up size read write, used_up size (read + 1) write)
        | inr d ↦ ground (arith, used_around size read write, used_around size (read + 1) write)
      ]
      ∙ ap (λ i. suc (used size i write)) (sym (next_inside size read 1 (ground arith)))
]
