-- ===== src/Stdin/Contents.antt =====
-- The bytes between the two indices of the ring of public/workers/lean.worker.js.
use qed.Common.{
  ℕ, zero, suc, ◌+◌, ◌-◌, ◌%◌, ◌≤◌, ◌<◌, ◌≡◌, ◌≢◌, refl, sym, ap, ◌∙◌, inl, inr, [], ◌∷◌, ◌++◌,
  append_assoc, append-nil, arith, leb, Bool-cases,
}
use native.Mathlib.Nat.{mod-eq_of_lt, mod-eq-sub-mod, mod-add-mod}
use qed.Common.Lists.{length}
use qed.Frames.Buffer.{Bytes}
use qed.Stdin.Ring.{put, set_bytes}

-- `n` bytes from `at` on, around the end of the ring.
abbrev pub held_from : ℕ → (ℕ → ℕ) → ℕ → ℕ → Bytes
held_from size f at zero = []
held_from size f at (suc n) = held_from size f at n ++ f ((at + n) % size) ∷ []

pub mod_low : (a c : ℕ) → a < c → a % c ≡ a
mod_low a c h = mod-eq_of_lt h

pub mod_high : (a c : ℕ) → c ≤ a → a < c + c → a % c ≡ a - c
mod_high a c h k = mod-eq-sub-mod h ∙ mod-eq_of_lt (omega arith)

pub suc-same : (a b c : ℕ) → a % c ≡ b % c → (a + 1) % c ≡ (b + 1) % c
suc-same a b c h = sym (mod-add-mod a c 1) ∙ ap (λ x. (x + 1) % c) h ∙ mod-add-mod b c 1

plus_assoc : (r u : ℕ) → r + (u + 1) ≡ r + u + 1
plus_assoc r u = omega arith

plus_one : (u : ℕ) → u + 1 ≡ suc u
plus_one u = omega arith

plus_suc : (u n : ℕ) → u + suc n ≡ (u + 1) + n
plus_suc u n = omega arith

plus_zero : (u : ℕ) → u + 0 ≡ u
plus_zero u = omega arith

put_same : (f : ℕ → ℕ) (at b i : ℕ) → i ≡ at → put f at b i ≡ b
put_same f at b i h = ground (arith, h)

put_other : (f : ℕ → ℕ) (at b i : ℕ) → i ≢ at → put f at b i ≡ f i
put_other f at b i h = ground (arith, h)

-- Two positions less than a round apart are different.
apart : (size r j u : ℕ) → r < size → j < u → u < size → (r + j) % size ≢ (r + u) % size
apart size r j u h k l e = elim (Bool-cases (leb size (r + j))) [
  | inl c ↦ ground (arith, mod_high (r + j) size, mod_high (r + u) size, e)
  | inr c ↦ elim (Bool-cases (leb size (r + u))) [
    | inl d ↦ ground (arith, mod_low (r + j) size, mod_high (r + u) size, e)
    | inr d ↦ ground (arith, mod_low (r + j) size, mod_low (r + u) size, e)
  ]
]

held_from-put :
    (size : ℕ) (f : ℕ → ℕ) (r n u b : ℕ)
    → r < size
    → n ≤ u
    → u < size
    → held_from size (put f ((r + u) % size) b) r n ≡ held_from size f r n
held_from-put size f r zero u b h k l = refl
held_from-put size f r (suc n) u b h k l =
    ap (λ x. x ++ put f ((r + u) % size) b ((r + n) % size) ∷ [])
      (held_from-put size f r n u b h (omega arith) l)
    ∙ ap (λ x. held_from size f r n ++ x ∷ [])
        (put_other f ((r + u) % size) b ((r + n) % size) (apart size r n u h (omega arith) l))

-- What is written behind the bytes that are held is held too.
pub held_from-set_bytes :
    (size : ℕ) (f : ℕ → ℕ) (r u at : ℕ) (bs : Bytes)
    → r < size
    → at + length bs ≤ size
    → u + length bs < size
    → (r + u) % size ≡ at % size
    → held_from size (set_bytes f at bs) r (u + length bs) ≡ held_from size f r u ++ bs
held_from-set_bytes size f r u at [] h k l e =
    ap (held_from size f r) (plus_zero u) ∙ sym (append-nil (held_from size f r u))
held_from-set_bytes size f r u at (b ∷ bs) h k l e =
    ap (held_from size (set_bytes (put f at b) (at + 1) bs) r) (plus_suc u (length bs))
    ∙ held_from-set_bytes size (put f at b) r (u + 1) (at + 1) bs h (omega arith) (omega arith)
        (ap (λ x. x % size) (plus_assoc r u) ∙ suc-same (r + u) at size e)
    ∙ ap (λ x. held_from size (put f at b) r x ++ bs) (plus_one u)
    ∙ ap (λ x. (held_from size (put f x b) r u ++ put f at b ((r + u) % size) ∷ []) ++ bs)
        (sym place)
    ∙ ap (λ x. (x ++ put f at b ((r + u) % size) ∷ []) ++ bs)
        (held_from-put size f r u u b h (omega arith) (omega arith))
    ∙ ap (λ x. (held_from size f r u ++ x ∷ []) ++ bs) (put_same f at b ((r + u) % size) place)
    ∙ append_assoc (held_from size f r u) (b ∷ []) bs
  where
    place : (r + u) % size ≡ at
    place = e ∙ mod_low at size (omega arith)

-- The first of the bytes, and the others.
pub held_from_first :
    (size : ℕ) (f : ℕ → ℕ) (r n : ℕ)
    → held_from size f r (suc n) ≡ f (r % size) ∷ held_from size f ((r + 1) % size) n
held_from_first size f r zero = ap (λ x. f (x % size) ∷ []) (omega arith)
held_from_first size f r (suc n) =
    ap (λ x. x ++ f ((r + suc n) % size) ∷ []) (held_from_first size f r n)
    ∙ ap (λ x. f (r % size) ∷ (held_from size f ((r + 1) % size) n ++ f x ∷ []))
        (ap (λ x. x % size) (omega arith) ∙ sym (mod-add-mod (r + 1) size n))
