-- ===== src/Stdin/Settled.antt =====
-- The pump of public/workers/lean.worker.js comes to an end, and what it leaves; the refusals.
use qed.Common.{
  ℕ, zero, suc, ◌+◌, ◌/◌, ◌%◌, ◌≤◌, ◌<◌, ◌≡◌, refl, ap, ◌∙◌, inl, inr, ◌⊎◌, Bool, true, false, not,
  ◌&&◌, ◌||◌, none, some, List, [], ◌∷◌, ◌++◌, arith, ltb, leb, ◌==◌, if◌then◌else◌, Bool-cases,
  if_rule,
}
use qed.Common.Lists.{length}
use qed.Frames.Buffer.{Bytes}
use qed.Stdin.Ring.{
  Item, Stdin, free, write_part, park, finish, round, take_byte, take_bytes, next_take, later_takes,
  pump_on, work, pump, too_large, is_dead, ring_write,
}
use qed.Stdin.Lines.{payloads, pump_on-line, pump_on-IsWhole}
use qed.Stdin.Whole.{contents, flat, sent, IsWhole, take_bytes-IsWhole, round-IsWhole}

-- The pump is done, or it is parked with a ring that is full, and the front door knows.
abbrev pub IsSettled : ℕ → Stdin → Type 0
IsSettled size s =
    ((s.queue ≡ []) × (s.pumping ≡ false) × (s.busy ≡ false))
    ⊎ ((free size s ≡ 0) × (s.pumping ≡ true) × (not s.front_door || s.busy ≡ true))

take_bytes-same :
    (size n : ℕ) (s : Stdin)
    → ((take_bytes size n s).queue ≡ s.queue) × ((take_bytes size n s).pumping ≡ s.pumping)
take_bytes-same size zero s = (refl, refl)
take_bytes-same size (suc n) s =
    let rest = take_bytes-same size n (take_byte size s) in
    let first : ((take_byte size s).queue ≡ s.queue) × ((take_byte size s).pumping ≡ s.pumping) =
      if_rule (λ t. (t.queue ≡ s.queue) × (t.pumping ≡ s.pumping)) (s.read == s.write) s
        (record s { read = (s.read + 1) % size; taken = s.taken ++ s.bytes s.read ∷ [] })
        (λ _. (refl, refl)) λ _. (refl, refl) in
    (rest.0 ∙ first.0, rest.1 ∙ first.1)

-- A round that goes on leaves less to do; one that does not has settled.
abbrev IsRound : ℕ → List Item → Stdin × Bool → Type 0
IsRound size queue r =
    (r.1 ≡ true → (work r.0.queue < work queue) × (r.0.pumping ≡ true))
    × (r.1 ≡ false → IsSettled size r.0)

finish-IsSettled : (size : ℕ) (s : Stdin) → s.queue ≡ [] → IsSettled size (finish s)
finish-IsSettled size s e =
    if_rule (IsSettled size) s.busy
      (record s {
        pumping = false;
        busy = false;
        notices = if s.front_door then s.notices ++ false ∷ [] else s.notices;
      })
      (record s { pumping = false }) (λ _. inl (e, refl, refl)) λ b. inl (e, refl, b)

park-IsSettled :
    (size : ℕ) (s : Stdin) → free size s ≡ 0 → s.pumping ≡ true → IsSettled size (park s)
unfolding free
park-IsSettled size s f p =
    if_rule (IsSettled size) (s.front_door && not s.busy)
      (record s { busy = true; notices = s.notices ++ true ∷ [] }) s (λ c. inr (f, p, ground arith))
      λ c. inr (f, p, ground (arith, c))

round-settles :
    (size : ℕ) (queue : List Item) (s : Stdin)
    → s.queue ≡ queue
    → s.pumping ≡ true
    → s.write < size
    → IsRound size queue (round size queue s)
unfolding write_part
round-settles size [] s e p w = (λ h. absurd (ground (arith, h)), λ _. finish-IsSettled size s e)
round-settles size (item ∷ rest) s e p w =
    if_rule (IsRound size (item ∷ rest)) (leb (length item.payload) item.off)
      (record s { queue = rest; acked = s.acked ++ item.payload ∷ [] }, true)
      (if free size s == 0 then (park s, false) else (write_part size item rest s, true))
      (λ c. (λ _. (omega arith, p), λ h. absurd (ground (arith, h))))
      λ c.
        if_rule (IsRound size (item ∷ rest)) (free size s == 0) (park s, false)
          (write_part size item rest s, true)
          (λ d. (λ h. absurd (ground (arith, h)), λ _. park-IsSettled size s (ground (arith, d)) p))
          λ d. (λ _. (ground arith, p), λ h. absurd (ground (arith, h)))

pump_on-settles :
    (size fuel : ℕ) (takes : List ℕ) (s : Stdin)
    → work s.queue < fuel
    → s.pumping ≡ true
    → IsWhole size s
    → IsSettled size (pump_on size fuel takes s)
unfolding pump_on
pump_on-settles size zero takes s l p w = absurd (omega arith)
pump_on-settles size (suc fuel) takes s l p w =
    let seen = take_bytes size (next_take takes) s in
    let same = take_bytes-same size (next_take takes) s in
    let whole = take_bytes-IsWhole size (next_take takes) s w in
    let r = round size seen.queue seen in
    let now = round-settles size seen.queue seen refl (same.1 ∙ p) whole.1 in
    if_rule (IsSettled size) r.1 (pump_on size fuel (later_takes takes) r.0) r.0
      (λ c.
        pump_on-settles size fuel (later_takes takes) r.0
          (omega (arith, (now.0 c).0, ap work same.0)) (now.0 c).1
          (round-IsWhole size seen.queue seen refl whole))
      λ c. now.1 c

-- From indices that lie inside the ring and bytes that agree with the queue, the pump comes to an end,
-- whatever the FileWorker takes between its rounds. Then the queue is empty, nothing is pumping and the
-- front door is not held off, or the ring is full, the pump is parked and the front door, if there is
-- one, was told. No frame is lost: the acked ones and then those that still wait are the same as
-- before, so that with an empty queue all that was queued is acked; and the bytes that the FileWorker
-- took and those in the ring are the acked frames and then the written part of the next one.
pub pump-settles :
    (size : ℕ) (takes : List ℕ) (s : Stdin)
    → IsWhole size s
    → let t = pump size takes s in
      IsSettled size t
      × (t.acked ++ payloads (t.queue ++ t.aborted) ≡ s.acked ++ payloads (s.queue ++ s.aborted))
      × (t.aborted ≡ s.aborted)
      × (t.taken ++ contents size t ≡ flat t.acked ++ sent (t.queue ++ t.aborted))
pump-settles size takes s w =
    let begun = record s { pumping = true } in
    let moved = pump_on-line size (suc (work s.queue)) takes begun in
    (
      pump_on-settles size (suc (work s.queue)) takes begun (omega arith) refl w,
      moved.0,
      ap (λ x. x.1) moved.1,
      (pump_on-IsWhole size (suc (work s.queue)) takes begun w).3,
    )

-- A frame is refused exactly if it is longer than half of the ring or the session is dead, and a
-- refusal changes nothing.
pub ring_write-refuses :
    (size : ℕ) (takes : List ℕ) (payload : Bytes) (s : Stdin)
    → let r = ring_write size takes payload s in
      ((r.0 ≡ some (too_large (length payload))) × (size / 2 < length payload) × (r.1 ≡ s))
      ⊎ ((r.0 ≡ some is_dead) × (length payload ≤ size / 2) × (s.died ≡ true) × (r.1 ≡ s))
      ⊎ ((r.0 ≡ none) × (length payload ≤ size / 2) × (s.died ≡ false))
unfolding ring_write
ring_write-refuses size takes payload s = elim (Bool-cases (ltb (size / 2) (length payload))) [
  | inl c ↦ rw c (inl (refl, ground (arith, c), refl))
  | inr c ↦ elim (Bool-cases s.died) [
    | inl d ↦ rw (c, d) (inr (inl (refl, ground (arith, c), refl, refl)))
    | inr d ↦ rw (c, d) (inr (inr (refl, ground (arith, c), refl)))
  ]
]
