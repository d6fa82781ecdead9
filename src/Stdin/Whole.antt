-- ===== src/Stdin/Whole.antt =====
-- The frames and the bytes of the ring of public/workers/lean.worker.js, round by round.
use qed.Common.{
  ℕ, zero, suc, ◌+◌, ◌%◌, ◌≤◌, ◌<◌, min, ◌≡◌, refl, sym, ap, ◌∙◌, inl, inr, Bool, true, false, not,
  ◌&&◌, List, [], ◌∷◌, ◌++◌, append_assoc, append-nil, arith, leb, ◌==◌, if◌then◌else◌, Bool-cases,
  if_rule,
}
use native.Mathlib.Nat.{mod-lt}
use qed.Common.Lists.{length, take, drop, take_all, length-take, length-drop}
use qed.Frames.Buffer.{Bytes}
use qed.Stdin.Ring.{
  Item, Stdin, free, set_bytes, part_size, write_part, park, finish, round, take_byte, take_bytes,
}
use qed.Stdin.Contents.{held_from, mod_low, held_from-set_bytes, held_from_first}
use qed.Stdin.Used.{used, free-used, used-place, used-more, used-less}

-- The bytes that the ring holds.
abbrev pub contents : ℕ → Stdin → Bytes
contents size s = held_from size s.bytes s.read (used size s.read s.write)

abbrev pub flat : List Bytes → Bytes
flat [] = []
flat (x ∷ xs) = x ++ flat xs

-- The part of the first frame that is in the ring.
abbrev pub sent : List Item → Bytes
sent [] = []
sent (x ∷ _) = take x.off x.payload

abbrev pub are_fresh : List Item → Bool
are_fresh [] = true
are_fresh (x ∷ xs) = x.off == 0 && are_fresh xs

abbrev pub fresh_behind : List Item → Bool
fresh_behind [] = true
fresh_behind (_ ∷ xs) = are_fresh xs

-- What the FileWorker took and what the ring holds are the acked frames and the part of the next one
-- that is counted as written; no byte of a later frame is.
abbrev pub IsWhole : ℕ → Stdin → Type 0
IsWhole size s =
    (s.read < size)
    × (s.write < size)
    × (fresh_behind (s.queue ++ s.aborted) ≡ true)
    × (s.taken ++ contents size s ≡ flat s.acked ++ sent (s.queue ++ s.aborted))

-- One byte is taken.
take_byte-IsWhole : (size : ℕ) (s : Stdin) → IsWhole size s → IsWhole size (take_byte size s)
take_byte-IsWhole size s w = elim (Bool-cases (s.read == s.write)) [
  | inl c ↦ rw c w
  | inr c ↦ rw c (
    mod-lt (s.read + 1) (omega (arith, w.0)),
    w.1,
    w.2,
    append_assoc s.taken (s.bytes s.read ∷ []) _ ∙ ap (λ l. s.taken ++ l) (sym (first c)) ∙ w.3,
  )
]
  where
    first :
        (s.read == s.write) ≡ false
        → contents size s
          ≡ s.bytes s.read
            ∷ held_from size s.bytes ((s.read + 1) % size) (used size ((s.read + 1) % size) s.write)
    first c =
        ap (held_from size s.bytes s.read)
          (used-less size s.read s.write w.0 w.1 (ground (arith, c)))
        ∙ held_from_first size s.bytes s.read (used size ((s.read + 1) % size) s.write)
        ∙ ap
            (λ i.
              s.bytes i
              ∷ held_from size s.bytes ((s.read + 1) % size)
                  (used size ((s.read + 1) % size) s.write))
            (mod_low s.read size w.0)

pub take_bytes-IsWhole :
    (size n : ℕ) (s : Stdin) → IsWhole size s → IsWhole size (take_bytes size n s)
take_bytes-IsWhole size zero s w = w
take_bytes-IsWhole size (suc n) s w =
    take_bytes-IsWhole size n (take_byte size s) (take_byte-IsWhole size s w)

zero_plus : (n : ℕ) → 0 + n ≡ n
zero_plus n = omega arith

suc_plus : (a n : ℕ) → suc a + n ≡ suc (a + n)
suc_plus a n = omega arith

take-empty : (n : ℕ) → take {A = ℕ} n [] ≡ []
take-empty zero = refl
take-empty (suc n) = refl

take-plus : (a n : ℕ) (xs : Bytes) → take (a + n) xs ≡ take a xs ++ take n (drop a xs)
take-plus zero n xs = ap (λ k. take k xs) (zero_plus n)
take-plus (suc a) n [] = take-empty (suc a + n) ∙ sym (take-empty n)
take-plus (suc a) n (x ∷ xs) =
    ap (λ k. take k (x ∷ xs)) (suc_plus a n) ∙ ap (◌∷◌ x) (take-plus a n xs)

-- The part of a frame that goes in one round fits where it is put.
part-fits :
    (size : ℕ) (item : Item) (s : Stdin)
    → s.read < size
    → s.write < size
    → (s.write + part_size size item s ≤ size)
      × (used size s.read s.write + part_size size item s < size)
      × (length (take (part_size size item s) (drop item.off item.payload)) ≡ part_size size item s)
part-fits size item s h k =
    let n = part_size size item s in
    (
      omega arith,
      omega (arith, free-used size s h k),
      length-take n (drop item.off item.payload)
          ∙ ap (min n) (length-drop item.off item.payload)
          ∙ omega arith,
    )

write_part-IsWhole :
    (size : ℕ) (item : Item) (rest : List Item) (s : Stdin)
    → s.queue ≡ item ∷ rest
    → IsWhole size s
    → IsWhole size (write_part size item rest s)
unfolding write_part
write_part-IsWhole size item rest s e w =
    let n = part_size size item s in
    let part = take n (drop item.off item.payload) in
    let fits = part-fits size item s w.0 w.1 in
    (
      w.0,
      mod-lt (s.write + n) (omega (arith, w.0)),
      sym (ap (λ q. fresh_behind (q ++ s.aborted)) e) ∙ w.2,
      ap (λ l. s.taken ++ l) (behind n part fits)
          ∙ sym (append_assoc s.taken (contents size s) part)
          ∙ ap (λ l. l ++ part) (w.3 ∙ ap (λ q. flat s.acked ++ sent (q ++ s.aborted)) e)
          ∙ append_assoc (flat s.acked) (take item.off item.payload) part
          ∙ ap (λ l. flat s.acked ++ l) (sym (take-plus item.off n item.payload)),
    )
  where
    behind :
        (n : ℕ) (part : Bytes)
        → (s.write + n ≤ size) × (used size s.read s.write + n < size) × (length part ≡ n)
        → held_from size
            (set_bytes s.bytes s.write part)
            s.read
            (used size s.read ((s.write + n) % size))
          ≡ contents size s ++ part
    behind n part fits =
        ap (held_from size (set_bytes s.bytes s.write part) s.read) (
          used-more size s.read s.write n w.0 fits.0 w.1 fits.1
          ∙ ap (λ k. used size s.read s.write + k) (sym fits.2))
        ∙ held_from-set_bytes size s.bytes s.read (used size s.read s.write) s.write part w.0
            (omega (arith, fits.0, fits.2)) (omega (arith, fits.1, fits.2))
            (used-place size s.read s.write w.0 w.1)

fresh-sent : (xs : List Item) → are_fresh xs ≡ true → (sent xs ≡ []) × (fresh_behind xs ≡ true)
fresh-sent [] h = (refl, refl)
fresh-sent (x ∷ xs) h = (ap (λ k. take k x.payload) (the_zero h), ground (arith, h))
  where
    the_zero : are_fresh (x ∷ xs) ≡ true → x.off ≡ 0
    the_zero h = ground (arith, h)

flat-snoc : (xs : List Bytes) (x : Bytes) → flat (xs ++ x ∷ []) ≡ flat xs ++ x
flat-snoc [] x = append-nil x
flat-snoc (y ∷ xs) x = ap (λ l. y ++ l) (flat-snoc xs x) ∙ sym (append_assoc y (flat xs) x)

-- The frame that is all written is acked.
acked-IsWhole :
    (size : ℕ) (item : Item) (rest : List Item) (s : Stdin)
    → s.queue ≡ item ∷ rest
    → length item.payload ≤ item.off
    → IsWhole size s
    → IsWhole size (record s { queue = rest; acked = s.acked ++ item.payload ∷ [] })
acked-IsWhole size item rest s e l w =
    let fresh =
      fresh-sent (rest ++ s.aborted) (sym (ap (λ q. fresh_behind (q ++ s.aborted)) e) ∙ w.2) in
    (
      w.0,
      w.1,
      fresh.1,
      w.3
          ∙ ap (λ q. flat s.acked ++ sent (q ++ s.aborted)) e
          ∙ ap (λ l. flat s.acked ++ l) (take_all item.payload item.off l)
          ∙ sym (flat-snoc s.acked item.payload)
          ∙ sym (append-nil (flat (s.acked ++ item.payload ∷ [])))
          ∙ ap (λ l. flat (s.acked ++ item.payload ∷ []) ++ l) (sym fresh.0),
    )

park-IsWhole : (size : ℕ) (s : Stdin) → IsWhole size s → IsWhole size (park s)
park-IsWhole size s w =
    if_rule (IsWhole size) (s.front_door && not s.busy)
      (record s { busy = true; notices = s.notices ++ true ∷ [] }) s (λ _. w) λ _. w

finish-IsWhole : (size : ℕ) (s : Stdin) → IsWhole size s → IsWhole size (finish s)
finish-IsWhole size s w = if_rule (IsWhole size) s.busy _ _ (λ _. w) λ _. w

pub round-IsWhole :
    (size : ℕ) (queue : List Item) (s : Stdin)
    → s.queue ≡ queue
    → IsWhole size s
    → IsWhole size (round size queue s).0
round-IsWhole size [] s e w = finish-IsWhole size s w
round-IsWhole size (item ∷ rest) s e w =
    if_rule (λ (r : Stdin × Bool). IsWhole size r.0) (leb (length item.payload) item.off)
      (record s { queue = rest; acked = s.acked ++ item.payload ∷ [] }, true)
      (if free size s == 0 then (park s, false) else (write_part size item rest s, true))
      (λ c. acked-IsWhole size item rest s e (ground (arith, c)) w)
      λ _.
        if_rule (λ (r : Stdin × Bool). IsWhole size r.0) (free size s == 0) (park s, false)
          (write_part size item rest s, true) (λ _. park-IsWhole size s w)
          λ _. write_part-IsWhole size item rest s e w
