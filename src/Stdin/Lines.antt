-- ===== src/Stdin/Lines.antt =====
-- The frames through the ring of public/workers/lean.worker.js, over the pump and the events.
use qed.Common.{
  ℕ, zero, suc, ◌+◌, ◌%◌, ◌≡◌, refl, sym, ap, ◌∙◌, Bool, true, false, not, ◌&&◌, ◌||◌, List, [],
  ◌∷◌, ◌++◌, append_assoc, leb, ◌==◌, if◌then◌else◌, if_rule,
}
use qed.Common.Lists.{length}
use qed.Common.Json.{is_some}
use qed.Frames.Buffer.{Bytes}
use qed.Stdin.Ring.{
  Item, Stdin, free, write_part, park, round, take_byte, take_bytes, next_take, later_takes,
  pump_on, ring_write, Event, written, happen,
}
use qed.Stdin.Whole.{IsWhole, take_bytes-IsWhole, round-IsWhole}

abbrev pub payloads : List Item → List Bytes
payloads [] = []
payloads (x ∷ xs) = x.payload ∷ payloads xs

-- The frames in their order: those acked, those that wait, those aborted.
abbrev pub line : Stdin → List Bytes
line s = s.acked ++ payloads (s.queue ++ s.aborted)

abbrev pub status : Stdin → Bool × List Item
status s = (s.died, s.aborted)

take_byte-line :
    (size : ℕ) (s : Stdin)
    → (line (take_byte size s) ≡ line s) × (status (take_byte size s) ≡ status s)
take_byte-line size s =
    if_rule (λ t. (line t ≡ line s) × (status t ≡ status s)) (s.read == s.write) s
      (record s { read = (s.read + 1) % size; taken = s.taken ++ s.bytes s.read ∷ [] })
      (λ _. (refl, refl)) λ _. (refl, refl)

pub take_bytes-line :
    (size n : ℕ) (s : Stdin)
    → (line (take_bytes size n s) ≡ line s) × (status (take_bytes size n s) ≡ status s)
take_bytes-line size zero s = (refl, refl)
take_bytes-line size (suc n) s =
    let rest = take_bytes-line size n (take_byte size s) in
    let first = take_byte-line size s in (rest.0 ∙ first.0, rest.1 ∙ first.1)

round-line :
    (size : ℕ) (queue : List Item) (s : Stdin)
    → s.queue ≡ queue
    → (line (round size queue s).0 ≡ line s) × (status (round size queue s).0 ≡ status s)
unfolding write_part
round-line size [] s e =
    if_rule (λ t. (line t ≡ line s) × (status t ≡ status s)) s.busy _ _ (λ _. (refl, refl))
      λ _. (refl, refl)
round-line size (item ∷ rest) s e =
    let P : Stdin × Bool → Type 0 = λ r. (line r.0 ≡ line s) × (status r.0 ≡ status s) in
    let same : s.acked ++ item.payload ∷ payloads (rest ++ s.aborted) ≡ line s =
      sym (ap (λ q. s.acked ++ payloads (q ++ s.aborted)) e) in
    if_rule P (leb (length item.payload) item.off)
      (record s { queue = rest; acked = s.acked ++ item.payload ∷ [] }, true)
      (if free size s == 0 then (park s, false) else (write_part size item rest s, true))
      (λ _. (append_assoc s.acked (item.payload ∷ []) (payloads (rest ++ s.aborted)) ∙ same, refl))
      λ _.
        if_rule P (free size s == 0) (park s, false) (write_part size item rest s, true)
          (λ _.
            if_rule (λ t. (line t ≡ line s) × (status t ≡ status s)) (s.front_door && not s.busy)
              (record s { busy = true; notices = s.notices ++ true ∷ [] }) s (λ _. (refl, refl))
              λ _. (refl, refl))
          λ _. (same, refl)

pub pump_on-line :
    (size fuel : ℕ) (takes : List ℕ) (s : Stdin)
    → (line (pump_on size fuel takes s) ≡ line s) × (status (pump_on size fuel takes s) ≡ status s)
unfolding pump_on
pump_on-line size zero takes s = (refl, refl)
pump_on-line size (suc fuel) takes s =
    let seen = take_bytes size (next_take takes) s in
    let r = round size seen.queue seen in
    let rest = pump_on size fuel (later_takes takes) r.0 in
    let before = take_bytes-line size (next_take takes) s in
    let now = round-line size seen.queue seen refl in
    let later = pump_on-line size fuel (later_takes takes) r.0 in
    if_rule (λ t. (line t ≡ line s) × (status t ≡ status s)) r.1 rest r.0
      (λ _. (later.0 ∙ now.0 ∙ before.0, later.1 ∙ now.1 ∙ before.1))
      λ _. (now.0 ∙ before.0, now.1 ∙ before.1)

pub pump_on-IsWhole :
    (size fuel : ℕ) (takes : List ℕ) (s : Stdin)
    → IsWhole size s
    → IsWhole size (pump_on size fuel takes s)
unfolding pump_on
pump_on-IsWhole size zero takes s w = w
pump_on-IsWhole size (suc fuel) takes s w =
    let seen = take_bytes size (next_take takes) s in
    let r = round size seen.queue seen in
    let now =
      round-IsWhole size seen.queue seen refl (take_bytes-IsWhole size (next_take takes) s w) in
    if_rule (IsWhole size) r.1 (pump_on size fuel (later_takes takes) r.0) r.0
      (λ _. pump_on-IsWhole size fuel (later_takes takes) r.0 now) λ _. now

-- Frames are aborted by the death of the session only.
abbrev is_none_of : List Item → Bool
is_none_of [] = true
is_none_of (_ ∷ _) = false

abbrev pub sound_status : Bool × List Item → Bool
sound_status k = k.0 || is_none_of k.1

abbrev pub is_sound : Stdin → Bool
is_sound s = sound_status (status s)

-- The frames that an event adds: the one that is written, unless it is refused.
abbrev pub accepted_in : ℕ → Event → Stdin → List Bytes
accepted_in size (written takes payload) s =
    if is_some (ring_write size takes payload s).0 then [] else payload ∷ []
accepted_in size _ s = []

abbrev pub accepted_of : ℕ → Stdin → List Event → List Bytes
accepted_of size s [] = []
accepted_of size s (e ∷ es) = accepted_in size e s ++ accepted_of size (happen size e s) es
