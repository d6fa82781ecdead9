-- ===== src/Stdin/Tests.antt =====
-- A ring of eight bytes with the functions of public/workers/lean.worker.js.
use qed.Common.{◌≡◌, ◌++◌, ◌/◌, ◌<◌, ◌≤◌, ◌⊎◌, refl, true, false, none, some, List, [], ◌∷◌, arith}
use qed.Stdin.Ring.{
  Stdin, opened, free, write_part, pump_on, pump, ring_write, die, happen, run, too_large, is_dead,
  Event, written, woken, consumed, ended,
}
use qed.Stdin.Used.{used}
use qed.Stdin.Whole.{contents, flat, sent}
use qed.Stdin.Lines.{payloads, accepted_of}
use qed.Stdin.Session.{run-whole}
use qed.Stdin.Settled.{IsSettled, pump-settles, ring_write-refuses}

abbrev empty : Stdin
empty = opened (λ _. 0) true

-- Two frames, the second of which parks; it goes on behind the end of the ring; one is too long; the
-- session dies with a frame that waits.
abbrev session : List Event
session =
    written [] (1 ∷ 2 ∷ 3 ∷ 4 ∷ [])
    ∷ written [] (5 ∷ 6 ∷ 7 ∷ 8 ∷ [])
    ∷ consumed 3
    ∷ woken (0 ∷ 2 ∷ [])
    ∷ written [] (1 ∷ 2 ∷ 3 ∷ 4 ∷ 5 ∷ [])
    ∷ written [] (9 ∷ 10 ∷ 11 ∷ 12 ∷ [])
    ∷ written [] (13 ∷ [])
    ∷ ended
    ∷ written [] (14 ∷ [])
    ∷ []

abbrev parked : Stdin
parked = run 8 empty (written [] (1 ∷ 2 ∷ 3 ∷ 4 ∷ []) ∷ written [] (5 ∷ 6 ∷ 7 ∷ 8 ∷ []) ∷ [])

parked_busy : (parked.pumping ≡ true) × (parked.notices ≡ true ∷ [])
unfolding happen ring_write pump_on write_part free
parked_busy = (refl, refl)

session_acked :
    (run 8 empty session).acked
    ≡ (1 ∷ 2 ∷ 3 ∷ 4 ∷ []) ∷ (5 ∷ 6 ∷ 7 ∷ 8 ∷ []) ∷ (9 ∷ 10 ∷ 11 ∷ 12 ∷ []) ∷ []
unfolding happen ring_write pump_on write_part free die
session_acked = refl

session_taken :
    (run 8 empty session).taken ++ contents 8 (run 8 empty session)
    ≡ 1 ∷ 2 ∷ 3 ∷ 4 ∷ 5 ∷ 6 ∷ 7 ∷ 8 ∷ 9 ∷ 10 ∷ 11 ∷ 12 ∷ []
unfolding happen ring_write pump_on write_part free die used
session_taken = refl

run-whole_example :
    let s = run 8 empty session in
    (s.acked ++ payloads (s.queue ++ s.aborted) ≡ accepted_of 8 empty session)
    × (s.taken ++ contents 8 s ≡ flat s.acked ++ sent (s.queue ++ s.aborted))
run-whole_example = run-whole 8 (λ _. 0) true session (omega arith)

abbrev waiting : Stdin
waiting = record empty {
  queue =
      record { payload = 1 ∷ 2 ∷ 3 ∷ []; off = 0 }
      ∷ record { payload = 4 ∷ 5 ∷ 6 ∷ 7 ∷ 8 ∷ []; off = 0 }
      ∷ [];
}

waiting_empty : contents 8 waiting ≡ []
unfolding used
waiting_empty = refl

pump-settles_example :
    let t = pump 8 (0 ∷ 1 ∷ []) waiting in
    IsSettled 8 t
    × (t.acked ++ payloads (t.queue ++ t.aborted) ≡ payloads (waiting.queue ++ []))
    × (t.aborted ≡ [])
    × (t.taken ++ contents 8 t ≡ flat t.acked ++ sent (t.queue ++ t.aborted))
pump-settles_example =
    pump-settles 8 (0 ∷ 1 ∷ []) waiting (omega arith, omega arith, refl, waiting_empty)

ring_write-refuses_example :
    let r = ring_write 8 [] (1 ∷ 2 ∷ 3 ∷ 4 ∷ 5 ∷ []) empty in
    ((r.0 ≡ some (too_large 5)) × (8 / 2 < 5) × (r.1 ≡ empty))
    ⊎ ((r.0 ≡ some is_dead) × (5 ≤ 8 / 2) × (empty.died ≡ true) × (r.1 ≡ empty))
    ⊎ ((r.0 ≡ none) × (5 ≤ 8 / 2) × (empty.died ≡ false))
ring_write-refuses_example = ring_write-refuses 8 [] (1 ∷ 2 ∷ 3 ∷ 4 ∷ 5 ∷ []) empty
