-- ===== src/Frames/Buffer.antt =====
-- A `Uint8Array` of public/workers/lsp-frames.js, and what the decoder reads and writes of it.
use qed.Common.{
  ℕ, zero, suc, ◌+◌, ◌-◌, ◌≤◌, ◌<◌, ◌≡◌, refl, sym, ap, ◌∙◌, List, [], ◌∷◌, ◌++◌, append-nil,
  append_assoc, arith, ltb, ◌==◌, if◌then◌else◌,
}
use qed.Common.Lists.{length, take, drop, get_or}

abbrev pub Bytes : Type 0
Bytes = List ℕ

-- Only the places below `size` exist.
pub record Buffer : Type 0 where
  pub size : ℕ
  pub at : ℕ → ℕ

-- `new Uint8Array(n)`
abbrev pub zeros : ℕ → Buffer
zeros n = record { size = n; at = λ _. 0 }

-- `b[i] = v`; a write out of bounds does nothing.
abbrev pub store : Buffer → ℕ → ℕ → Buffer
store b i v = if ltb i b.size then record b { at = λ j. if j == i then v else b.at j } else b

-- `b.subarray(i, i + n)`, as the bytes in it.
abbrev pub slice : Buffer → ℕ → ℕ → Bytes
slice b i zero = []
slice b i (suc n) = b.at i ∷ slice b (i + 1) n

-- `b.set(xs, i)`
abbrev pub store_all : Buffer → ℕ → Bytes → Buffer
store_all b i [] = b
store_all b i (x ∷ xs) = store_all (store b i x) (i + 1) xs

-- `b.copyWithin(0, start, end)`
abbrev pub copy_to_front : Buffer → ℕ → ℕ → Buffer
copy_to_front b start end = record b {
  at = λ j. if ltb j (end - start) then b.at (start + j) else b.at j;
}

pub length-slice : (b : Buffer) (i n : ℕ) → length (slice b i n) ≡ n
length-slice b i zero = refl
length-slice b i (suc n) = ap suc (length-slice b (i + 1) n)

pub take-slice : (b : Buffer) (i m n : ℕ) → m ≤ n → take m (slice b i n) ≡ slice b i m
take-slice b i zero n h = refl
take-slice b i (suc m) zero h = absurd (omega arith)
take-slice b i (suc m) (suc n) h = ap (◌∷◌ (b.at i)) (take-slice b (i + 1) m n (omega arith))

pub slice_none : (b : Buffer) (i n : ℕ) → n ≡ 0 → slice b i n ≡ []
slice_none b i zero h = refl
slice_none b i (suc n) h = absurd (omega arith)

pub drop-slice : (b : Buffer) (i m n : ℕ) → drop m (slice b i n) ≡ slice b (i + m) (n - m)
drop-slice b i zero n = ap (λ k. slice b k n) (omega arith) ∙ ap (slice b (i + 0)) (omega arith)
drop-slice b i (suc m) zero = sym (slice_none b (i + suc m) (0 - suc m) (omega arith))
drop-slice b i (suc m) (suc n) =
    drop-slice b (i + 1) m n
    ∙ ap (λ k. slice b k (n - m)) (omega arith)
    ∙ ap (slice b (i + suc m)) (omega arith)

-- Equal places give equal slices.
pub slice_ext :
    (b c : Buffer) (i j n : ℕ)
    → ((k : ℕ) → k < n → b.at (i + k) ≡ c.at (j + k))
    → slice b i n ≡ slice c j n
slice_ext b c i j zero h = refl
slice_ext b c i j (suc n) h =
    ap (λ k. k ∷ slice b (i + 1) n) first ∙ ap (◌∷◌ (c.at j)) (slice_ext b c (i + 1) (j + 1) n rest)
  where
    first : b.at i ≡ c.at j
    first = ap b.at (omega arith) ∙ h 0 (omega arith) ∙ ap c.at (omega arith)

    rest : (k : ℕ) → k < n → b.at (i + 1 + k) ≡ c.at (j + 1 + k)
    rest k lt = ap b.at (omega arith) ∙ h (k + 1) (omega arith) ∙ ap c.at (omega arith)

pub slice_snoc : (b : Buffer) (i n : ℕ) → slice b i (n + 1) ≡ slice b i n ++ b.at (i + n) ∷ []
slice_snoc b i zero = ap (λ k. b.at k ∷ []) (omega arith)
slice_snoc b i (suc n) =
    ap (slice b i) (step n)
    ∙ ap (◌∷◌ (b.at i))
        (slice_snoc b (i + 1) n ∙ ap (λ k. slice b (i + 1) n ++ b.at k ∷ []) (omega arith))
  where
    step : (n : ℕ) → suc n + 1 ≡ suc (n + 1)
    step n = omega arith

pub size-store : (b : Buffer) (i v : ℕ) → (store b i v).size ≡ b.size
size-store b i v = ground arith

-- Appending a byte at the end of a slice.
pub slice-store_end :
    (b : Buffer) (i n v : ℕ)
    → i + n < b.size
    → slice (store b (i + n) v) i (n + 1) ≡ slice b i n ++ v ∷ []
slice-store_end b i n v h =
    slice_snoc (store b (i + n) v) i n
    ∙ ap (λ xs. xs ++ (store b (i + n) v).at (i + n) ∷ []) before
    ∙ ap (λ k. slice b i n ++ k ∷ []) (ground arith)
  where
    before : slice (store b (i + n) v) i n ≡ slice b i n
    before = slice_ext (store b (i + n) v) b i i n (λ k lt. ground arith)

pub get_or-slice : (b : Buffer) (i n k : ℕ) → k < n → get_or (slice b i n) k 0 ≡ b.at (i + k)
get_or-slice b i zero k h = absurd (omega arith)
get_or-slice b i (suc n) zero h = ap b.at (omega arith)
get_or-slice b i (suc n) (suc k) h =
    get_or-slice b (i + 1) n k (omega arith) ∙ ap b.at (omega arith)

-- `copyWithin` moves the bytes [start, start + n) to the front.
pub slice-copy_to_front :
    (b : Buffer) (start n : ℕ) → slice (copy_to_front b start (start + n)) 0 n ≡ slice b start n
slice-copy_to_front b start n =
    slice_ext (copy_to_front b start (start + n)) b 0 start n (λ k lt. moved k lt)
  where
    moved : (k : ℕ) → k < n → (copy_to_front b start (start + n)).at (0 + k) ≡ b.at (start + k)
    moved k lt = ground arith

-- Appending a block of bytes at the end of a slice.
pub slice-store_all :
    (b : Buffer) (i n : ℕ) (xs : Bytes)
    → i + n + length xs ≤ b.size
    → slice (store_all b (i + n) xs) i (n + length xs) ≡ slice b i n ++ xs
slice-store_all b i n [] h = ap (slice b i) (omega arith) ∙ sym (append-nil (slice b i n))
slice-store_all b i n (x ∷ xs) h =
    ap (λ k. slice (store_all (store b (i + n) x) k xs) i (n + suc (length xs))) (omega arith)
    ∙ ap (slice (store_all (store b (i + n) x) (i + (n + 1)) xs) i) (omega arith)
    ∙ slice-store_all (store b (i + n) x) i (n + 1) xs (omega (arith, size-store b (i + n) x))
    ∙ ap (λ ys. ys ++ xs) (slice-store_end b i n x (omega arith))
    ∙ append_assoc (slice b i n) (x ∷ []) xs

pub size-store_all : (b : Buffer) (i : ℕ) (xs : Bytes) → (store_all b i xs).size ≡ b.size
size-store_all b i [] = refl
size-store_all b i (x ∷ xs) = size-store_all (store b i x) (i + 1) xs ∙ size-store b i x

-- Writing a list at the front and reading it back.
pub slice-store_all_zero :
    (b : Buffer) (xs : Bytes) → length xs ≤ b.size → slice (store_all b 0 xs) 0 (length xs) ≡ xs
slice-store_all_zero b xs h =
    ap (λ k. slice (store_all b k xs) 0 (length xs)) (omega arith)
    ∙ ap (slice (store_all b (0 + 0) xs) 0) (omega arith)
    ∙ slice-store_all b 0 0 xs (omega arith)
