-- ===== src/Stdin/Ring.antt =====
-- `residentCheckFrame`, `residentRingWrite`, `residentPump` and what `die` does to the ring, in
-- public/workers/lean.worker.js. The FileWorker at the other end of the ring takes bytes whenever it
-- likes, between two rounds of the pump too. `size` is RESIDENT_RING_CAP.
use qed.Common.{
  ℕ, zero, suc, ◌+◌, ◌-◌, ◌/◌, ◌%◌, min, Bool, true, false, not, ◌&&◌, Option, none, some, List, [],
  ◌∷◌, ◌++◌, ltb, leb, ◌==◌, if◌then◌else◌,
}
use qed.Common.Lists.{length, take, drop}
use qed.Frames.Buffer.{Bytes}

-- 64 << 20
abbrev pub ring_cap : ℕ
ring_cap = 67108864

-- A frame in `residentQueue`, and how many of its bytes are in the ring.
pub record Item : Type 0 where
  pub payload : Bytes
  pub off : ℕ

-- The two indices and the bytes of the ring, and the worker's side of it. `acked` are the frames whose
-- `done` was called, `aborted` those whose `abort` was, `notices` what the front door was told of
-- `busy`, `taken` what the FileWorker took from the ring.
pub record Stdin : Type 0 where
  pub read : ℕ
  pub write : ℕ
  pub bytes : ℕ → ℕ
  pub queue : List Item
  pub pumping : Bool
  pub busy : Bool
  pub died : Bool
  pub front_door : Bool
  pub acked : List Bytes
  pub aborted : List Item
  pub notices : List Bool
  pub taken : Bytes

abbrev pub opened : (ℕ → ℕ) → Bool → Stdin
opened bytes front_door = record {
  read = 0;
  write = 0;
  bytes = bytes;
  queue = [];
  pumping = false;
  busy = false;
  died = false;
  front_door = front_door;
  acked = [];
  aborted = [];
  notices = [];
  taken = [];
}

unfoldable pub free : ℕ → Stdin → ℕ
free size s = (s.read + size - s.write - 1) % size

abbrev pub put : (ℕ → ℕ) → ℕ → ℕ → ℕ → ℕ
put f at b i = if i == at then b else f i

-- `bytes.set(part, at)`
abbrev pub set_bytes : (ℕ → ℕ) → ℕ → Bytes → ℕ → ℕ
set_bytes f at [] = f
set_bytes f at (b ∷ bs) = set_bytes (put f at b) (at + 1) bs

abbrev pub part_size : ℕ → Item → Stdin → ℕ
part_size size item s = min (free size s) (min (size - s.write) (length item.payload - item.off))

-- As much of the frame as there is room for, up to the end of the ring.
unfoldable pub write_part : ℕ → Item → List Item → Stdin → Stdin
write_part size item rest s =
    let n = part_size size item s in
    record s {
      bytes = set_bytes s.bytes s.write (take n (drop item.off item.payload));
      write = (s.write + n) % size;
      queue = record item { off = item.off + n } ∷ rest;
    }

abbrev pub park : Stdin → Stdin
park s =
    if s.front_door && not s.busy
    then record s { busy = true; notices = s.notices ++ true ∷ [] }
    else s

-- The pump has put all that was queued into the ring.
abbrev pub finish : Stdin → Stdin
finish s =
    let idle = record s { pumping = false } in
    if s.busy
    then record idle {
      busy = false;
      notices = if s.front_door then s.notices ++ false ∷ [] else s.notices;
    }
    else idle

-- One round of the pump's loops: the state and whether it goes on.
abbrev pub round : ℕ → List Item → Stdin → Stdin × Bool
round size [] s = (finish s, false)
round size (item ∷ rest) s =
    if leb (length item.payload) item.off
    then (record s { queue = rest; acked = s.acked ++ item.payload ∷ [] }, true)
    else if free size s == 0
    then (park s, false)
    else (write_part size item rest s, true)

-- The FileWorker takes bytes from the ring, as far as there are any.
abbrev pub take_byte : ℕ → Stdin → Stdin
take_byte size s =
    if s.read == s.write
    then s
    else record s { read = (s.read + 1) % size; taken = s.taken ++ s.bytes s.read ∷ [] }

abbrev pub take_bytes : ℕ → ℕ → Stdin → Stdin
take_bytes size zero s = s
take_bytes size (suc n) s = take_bytes size n (take_byte size s)

abbrev pub next_take : List ℕ → ℕ
next_take [] = 0
next_take (n ∷ _) = n

abbrev pub later_takes : List ℕ → List ℕ
later_takes [] = []
later_takes (_ ∷ ns) = ns

-- The loops, with what the FileWorker takes before each round.
unfoldable pub pump_on : ℕ → ℕ → List ℕ → Stdin → Stdin
pump_on size zero takes s = s
pump_on size (suc fuel) takes s =
    let seen = take_bytes size (next_take takes) s in
    let r = round size seen.queue seen in
    let rest = pump_on size fuel (later_takes takes) r.0 in if r.1 then rest else r.0

-- The rounds that are needed at most: one for each byte that waits and one for each frame.
abbrev pub work : List Item → ℕ
work [] = 0
work (x ∷ xs) = length x.payload - x.off + 1 + work xs

abbrev pub pump : ℕ → List ℕ → Stdin → Stdin
pump size takes s = pump_on size (suc (work s.queue)) takes (record s { pumping = true })

pub data Refusal : Type 0 where
  too_large : ℕ → Refusal
  is_dead : Refusal

abbrev pub check_frame : ℕ → Bytes → Option Refusal
check_frame size payload =
    if ltb (size / 2) (length payload) then some (too_large (length payload)) else none

abbrev pub write_checked : ℕ → List ℕ → Bytes → Stdin → Option Refusal → Option Refusal × Stdin
write_checked size takes payload s (some refusal) = (some refusal, s)
write_checked size takes payload s none =
    let queued = record s { queue = s.queue ++ record { payload = payload; off = 0 } ∷ [] } in
    if s.died
    then (some is_dead, s)
    else (none, if s.pumping then queued else pump size takes queued)

-- What is thrown, and the state behind the call.
unfoldable pub ring_write : ℕ → List ℕ → Bytes → Stdin → Option Refusal × Stdin
ring_write size takes payload s = write_checked size takes payload s (check_frame size payload)

-- The ring's part of `die`.
unfoldable pub die : Stdin → Stdin
die s = if s.died then s else record s { died = true; queue = []; aborted = s.queue }

-- What happens to the ring: a frame is written, the parked pump's timer fires, the FileWorker takes
-- bytes, the session dies.
pub data Event : Type 0 where
  written : List ℕ → Bytes → Event
  woken : List ℕ → Event
  consumed : ℕ → Event
  ended : Event

unfoldable pub happen : ℕ → Event → Stdin → Stdin
happen size (written takes payload) s = (ring_write size takes payload s).1
happen size (woken takes) s = if s.pumping then pump size takes s else s
happen size (consumed n) s = take_bytes size n s
happen size ended s = die s

abbrev pub run : ℕ → Stdin → List Event → Stdin
run size s [] = s
run size s (e ∷ es) = run size (happen size e s) es
