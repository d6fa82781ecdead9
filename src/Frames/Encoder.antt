-- ===== src/Frames/Encoder.antt =====
-- `residentFrame` of public/workers/lean.worker.js: a message with its `Content-Length` header.
-- The body is the encoded bytes, as the decoder's events are the decoded ones.
use qed.Common.{
  ℕ, zero, suc, ◌+◌, ◌-◌, ◌*◌, ◌/◌, ◌%◌, ◌^◌, ◌≤◌, ◌<◌, ◌≡◌, refl, ap, ◌∙◌, inl, inr, true, [], ◌∷◌,
  ◌++◌, arith, ltb, if◌then◌else◌, Bool-cases,
}
use native.Mathlib.Nat.{pow-suc}
use qed.Common.Lists.{length, all}
use qed.Common.Text.{codes}
use qed.Frames.Buffer.{Bytes}
use qed.Frames.Scan.{cr, lf, is_digit}

-- "Content-Length: "
abbrev pub field_name : Bytes
field_name = codes "Content-Length: "

abbrev pub blank_line : Bytes
blank_line = cr ∷ lf ∷ cr ∷ lf ∷ []

-- `${n}`: the decimal digits of `n` in front of `acc`.
unfoldable pub decimal_onto : ℕ → ℕ → Bytes → Bytes
decimal_onto zero n acc = acc
decimal_onto (suc fuel) n acc =
    let more = decimal_onto fuel (n / 10) ((n % 10 + 0x30) ∷ acc) in
    if ltb n 10 then (n + 0x30) ∷ acc else more

abbrev pub decimal : ℕ → Bytes
decimal n = decimal_onto (suc n) n []

abbrev pub framed : Bytes → Bytes → Bytes
framed digits body = field_name ++ (digits ++ (blank_line ++ body))

unfoldable pub resident_frame : Bytes → Bytes
resident_frame body = framed (decimal (length body)) body

-- The value of digits read on from `n`.
abbrev pub value_from : ℕ → Bytes → ℕ
value_from n [] = n
value_from n (d ∷ ds) = value_from (n * 10 + (d - 0x30)) ds

decimal_onto-value :
    (fuel n : ℕ) (acc : Bytes)
    → n < fuel
    → value_from 0 (decimal_onto fuel n acc) ≡ value_from n acc
unfolding decimal_onto
decimal_onto-value zero n acc h = absurd (omega arith)
decimal_onto-value (suc fuel) n acc h = elim (Bool-cases (ltb n 10)) [
  | inl e ↦ rw e (ap (λ k. value_from k acc) (omega arith))
  | inr e ↦ rw e (
      decimal_onto-value fuel (n / 10) ((n % 10 + 0x30) ∷ acc) (ground arith)
      ∙ ap (λ k. value_from k acc) (omega arith))
]

decimal_onto-digits :
    (fuel n : ℕ) (acc : Bytes)
    → all is_digit acc ≡ true
    → all is_digit (decimal_onto fuel n acc) ≡ true
unfolding decimal_onto
decimal_onto-digits zero n acc h = h
decimal_onto-digits (suc fuel) n acc h =
    ground (arith, decimal_onto-digits fuel (n / 10) ((n % 10 + 0x30) ∷ acc))

decimal_onto-length : (fuel n : ℕ) (acc : Bytes) → length acc ≤ length (decimal_onto fuel n acc)
unfolding decimal_onto
decimal_onto-length zero n acc = omega arith
decimal_onto-length (suc fuel) n acc =
    ground (arith, decimal_onto-length fuel (n / 10) ((n % 10 + 0x30) ∷ acc))

pub decimal-value : (n : ℕ) → value_from 0 (decimal n) ≡ n
decimal-value n = decimal_onto-value (suc n) n [] (omega arith)

pub decimal-digits : (n : ℕ) → all is_digit (decimal n) ≡ true
decimal-digits n = decimal_onto-digits (suc n) n [] refl

decimal_onto-short :
    (fuel n k : ℕ) (acc : Bytes)
    → n < 10 ^ suc k
    → length (decimal_onto fuel n acc) ≤ length acc + suc k
unfolding decimal_onto
decimal_onto-short zero n k acc h = omega arith
decimal_onto-short (suc fuel) n zero acc h = elim (Bool-cases (ltb n 10)) [
  | inl e ↦ rw e (omega arith)
  | inr e ↦ absurd (ground arith)
]
decimal_onto-short (suc fuel) n (suc k) acc h =
    ground (arith, decimal_onto-short fuel (n / 10) k ((n % 10 + 0x30) ∷ acc) (smaller n k h))
  where
    smaller : (n k : ℕ) → n < 10 ^ suc (suc k) → n / 10 < 10 ^ suc k
    smaller n k h = omega (arith, rw pow-suc at h)

decimal_onto-nonempty : (fuel n : ℕ) (acc : Bytes) → 1 ≤ length (decimal_onto (suc fuel) n acc)
unfolding decimal_onto
decimal_onto-nonempty fuel n acc =
    ground (arith, decimal_onto-length fuel (n / 10) ((n % 10 + 0x30) ∷ acc))

-- A length that JavaScript can count to has at most 16 digits.
pub decimal-length : (n : ℕ) → n < 2 ^ 53 → (1 ≤ length (decimal n)) × (length (decimal n) ≤ 16)
decimal-length n h =
    (decimal_onto-nonempty n n [], decimal_onto-short (suc n) n 15 [] (omega arith))
