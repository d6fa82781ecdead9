-- ===== src/Coalescer/Machine.antt =====
-- The state of `createEditCoalescer` (lib/edit-coalescer.ts) and its inner functions. A timer is the
-- time at which it fires; the clock is an argument. `forward`, `reject` and `onEvent` are the list
-- `out` of what they were called with, in order.
use qed.Common.{
  ℕ, ◌+◌, ◌-◌, Bool, false, not, ◌&&◌, ◌||◌, Option, none, some, List, [], ◌∷◌, ◌++◌, ltb, leb,
  ◌==◌, if◌then◌else◌,
}
use qed.Common.Lists.{length, any}
use qed.Common.Json.{Json, get, is_some}
use qed.FrontDoor.Machine.{is_request}
use qed.Liveness.Monitor.{same_id}
use qed.Coalescer.Frames.{is_keep_alive, Refusal}

-- The window and the back-pressure options; `min_free`, `max_hold`, `memory` and `max_in_flight` are
-- the defaults where none is given.
pub record Options : Type 0 where
  pub ms : ℕ
  pub min_free : ℕ
  pub max_hold : ℕ
  pub memory : ℕ
  pub max_in_flight : ℕ

abbrev pub default_options : Options
default_options = record {
  ms = 300;
  min_free = 6;
  max_hold = 5000;
  memory = 1000;
  max_in_flight = 6;
}

-- `unused` is `none` where the pool was not measured (-1).
pub record PoolSample : Type 0 where
  pub unused : Option ℕ
  pub running : Option ℕ

pub data Kind : Type 0 where
  hold_began pool_released hold_capped slot_waited : Kind

pub data Effect : Type 0 where
  forwarded : Json → Bool → Effect
  rejected : Json → Refusal → Effect
  noted : Kind → Option ℕ → Effect

pub record Queued : Type 0 where
  pub msg : Json
  pub seq : ℕ

-- `last_pressured_at` is `none` for -Infinity. `window`, `cap` and `recheck` are the three timers.
pub record Coalescer : Type 0 where
  pub held : Option Json
  pub queue : List Queued
  pub change_seq : ℕ
  pub pending : List Json
  pub window : Option ℕ
  pub cap : Option ℕ
  pub recheck : Option ℕ
  pub held_since : ℕ
  pub pool : Option PoolSample
  pub last_pressured_at : Option ℕ
  pub disposed : Bool
  pub out : List Effect

abbrev pub create : Coalescer
create = record {
  held = none;
  queue = [];
  change_seq = 0;
  pending = [];
  window = none;
  cap = none;
  recheck = none;
  held_since = 0;
  pool = none;
  last_pressured_at = none;
  disposed = false;
  out = [];
}

abbrev pub few_unused : Option ℕ → ℕ → Bool
few_unused none min_free = false
few_unused (some n) min_free = ltb n min_free

-- A measured sample with too few free workers.
abbrev pub sampled : Options → Option PoolSample → Bool
sampled o none = false
sampled o (some p) = few_unused p.unused o.min_free

abbrev pub remembers : Options → Option ℕ → ℕ → Bool
remembers o none now = false
remembers o (some at) now = ltb (now - at) o.memory

unfoldable pub pressured : Options → Coalescer → ℕ → Bool
pressured o s now = sampled o s.pool || remembers o s.last_pressured_at now

unfoldable pub slot_free : Options → Coalescer → Bool
slot_free o s = o.max_in_flight == 0 || ltb (length s.pending) o.max_in_flight

abbrev pub emit : Effect → Coalescer → Coalescer
emit e s = record s { out = s.out ++ e ∷ [] }

abbrev pub forward : Json → Bool → Coalescer → Coalescer
forward m replay s = emit (forwarded m replay) s

abbrev pub end_hold : Coalescer → Coalescer
end_hold s = record s { cap = none; recheck = none }

abbrev pub later : ℕ → ℕ → ℕ
later a b = if leb a b then b else a

abbrev pub expiry : Options → Option ℕ → ℕ → ℕ
expiry o none now = now
expiry o (some at) now = later now (at + o.memory)

abbrev pub schedule_recheck : Options → ℕ → Coalescer → Coalescer
schedule_recheck o now s = record s { recheck = some (expiry o s.last_pressured_at now) }

-- `pending.add(id)` and `pending.delete(id)` on a set
abbrev pub add_pending : Option Json → List Json → List Json
add_pending none ids = ids
add_pending (some id) ids = if any (same_id id) ids then ids else ids ++ id ∷ []

abbrev pub remove_pending : Json → List Json → List Json
remove_pending id [] = []
remove_pending id (x ∷ xs) =
    let rest = remove_pending id xs in if same_id id x then xs else x ∷ rest

unfoldable pub admit : Options → Json → Coalescer → Coalescer
admit o m s =
    if not (o.max_in_flight == 0) && is_request m
    then forward m false (record s { pending = add_pending (get "id" m) s.pending })
    else forward m false s

unfoldable pub send_change : Options → ℕ → Json → Coalescer → Coalescer
send_change o now m s = forward m false (record s { window = some (now + o.ms) })

-- The keep-alives behind a request that waits go now.
abbrev pub keep_alives : List Queued → Coalescer → Coalescer
keep_alives [] s = s
keep_alives (x ∷ xs) s =
    let gone = keep_alives xs (forward x.msg false s) in
    let kept = keep_alives xs (record s { queue = s.queue ++ x ∷ [] }) in
    if is_keep_alive x.msg then gone else kept

-- `drain`, with the queue still to go.
abbrev pub drain_on : Options → List Queued → Coalescer → Coalescer
drain_on o [] s = record s { queue = [] }
drain_on o (x ∷ xs) s =
    let admitted = drain_on o xs (admit o x.msg s) in
    if is_request x.msg && not (slot_free o s)
    then keep_alives xs (record s { queue = x ∷ [] })
    else admitted

unfoldable pub drain : Options → Coalescer → Coalescer
drain o s = if is_some s.held then s else drain_on o s.queue s

-- The held change goes, if there is one.
abbrev pub send_held : Options → ℕ → Option Json → Coalescer → Coalescer
send_held o now none s = s
send_held o now (some m) s = send_change o now m (record s { held = none })

unfoldable pub release : Options → ℕ → Coalescer → Coalescer
release o now s = drain o (send_held o now s.held (end_hold s))

abbrev pub admit_all : Options → List Queued → Coalescer → Coalescer
admit_all o [] s = s
admit_all o (x ∷ xs) s = admit_all o xs (admit o x.msg s)

unfoldable pub flush_all : Options → ℕ → Coalescer → Coalescer
flush_all o now s =
    let gone = send_held o now s.held (end_hold s) in
    admit_all o s.queue (record gone { queue = [] })

unfoldable pub hold : Options → ℕ → Coalescer → Coalescer
hold o now s =
    let armed = record s { held_since = now; cap = some (now + o.max_hold) } in
    emit (noted hold_began none) (if sampled o s.pool then armed else schedule_recheck o now armed)

-- The timers' functions.
unfoldable pub capped : Options → ℕ → Coalescer → Coalescer
capped o now s =
    release o now (emit (noted hold_capped (some (now - s.held_since))) (record s { cap = none }))

unfoldable pub tick : Options → ℕ → Coalescer → Coalescer
tick o now s =
    let closed = record s { window = none } in
    if not (is_some s.held)
    then closed
    else if pressured o closed now
    then hold o now closed
    else release o now closed

-- A hold that is no longer justified ends.
abbrev pub release_drained : Options → ℕ → Coalescer → Coalescer
release_drained o now s =
    if is_some s.cap && not (pressured o s now)
    then release o now (emit (noted pool_released (some (now - s.held_since))) s)
    else s

unfoldable pub rechecked : Options → ℕ → Coalescer → Coalescer
rechecked o now s = release_drained o now (record s { recheck = none })
