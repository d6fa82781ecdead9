-- ===== src/Stdin/Session.antt =====
-- A session of the ring of public/workers/lean.worker.js: frames, wakes, the FileWorker, the end.
use qed.Common.{
  ℕ, suc, ◌<◌, ◌≡◌, refl, sym, ap, ◌∙◌, Bool, true, false, Option, none, some, List, [], ◌∷◌, ◌++◌,
  append_assoc, append-nil, arith, if◌then◌else◌, if_rule,
}
use qed.Common.Json.{is_some}
use qed.Frames.Buffer.{Bytes}
use qed.Stdin.Ring.{
  Item, Stdin, opened, take_bytes, work, pump, Refusal, is_dead, check_frame, write_checked,
  ring_write, die, Event, written, woken, consumed, ended, happen, run,
}
use qed.Stdin.Contents.{held_from}
use qed.Stdin.Used.{used_up}
use qed.Stdin.Whole.{contents, flat, sent, are_fresh, fresh_behind, IsWhole, take_bytes-IsWhole}
use qed.Stdin.Lines.{
  payloads, line, status, take_bytes-line, pump_on-line, pump_on-IsWhole, sound_status, is_sound,
  accepted_in, accepted_of,
}

-- A frame that is queued.
abbrev queued : Bytes → Stdin → Stdin
queued payload s = record s { queue = s.queue ++ record { payload = payload; off = 0 } ∷ [] }

-- What the invariants say of a state.
abbrev pub IsGood : ℕ → Stdin → Type 0
IsGood size s = IsWhole size s × (is_sound s ≡ true)

nothing_aborted : (s : Stdin) → is_sound s ≡ true → s.died ≡ false → s.aborted ≡ []
nothing_aborted s h d = of_status s.died s.aborted h d
  where
    of_status : (d : Bool) (xs : List Item) → sound_status (d, xs) ≡ true → d ≡ false → xs ≡ []
    of_status d [] h e = refl
    of_status d (x ∷ xs) h e = absurd (ground (arith, h, e))

payloads-++ : (xs ys : List Item) → payloads (xs ++ ys) ≡ payloads xs ++ payloads ys
payloads-++ [] ys = refl
payloads-++ (x ∷ xs) ys = ap (◌∷◌ x.payload) (payloads-++ xs ys)

are_fresh-++ :
    (xs : List Item) (p : Bytes)
    → are_fresh xs ≡ true
    → are_fresh (xs ++ record { payload = p; off = 0 } ∷ []) ≡ true
are_fresh-++ [] p h = refl
are_fresh-++ (x ∷ xs) p h = ground (arith, are_fresh-++ xs p, h)

fresh_behind-++ :
    (xs : List Item) (p : Bytes)
    → fresh_behind xs ≡ true
    → fresh_behind (xs ++ record { payload = p; off = 0 } ∷ []) ≡ true
fresh_behind-++ [] p h = refl
fresh_behind-++ (x ∷ xs) p h = are_fresh-++ xs p h

sent-++ : (xs : List Item) (p : Bytes) → sent (xs ++ record { payload = p; off = 0 } ∷ []) ≡ sent xs
sent-++ [] p = refl
sent-++ (x ∷ xs) p = refl

queued-IsWhole :
    (size : ℕ) (p : Bytes) (s : Stdin) → s.aborted ≡ [] → IsWhole size s → IsWhole size (queued p s)
queued-IsWhole size p s e w =
    let new : List Item = s.queue ++ record { payload = p; off = 0 } ∷ [] in
    (
      w.0,
      w.1,
      ap fresh_behind (ap (λ l. new ++ l) e ∙ append-nil new)
          ∙ fresh_behind-++ s.queue p
              (sym (ap fresh_behind (ap (λ l. s.queue ++ l) e ∙ append-nil s.queue)) ∙ w.2),
      w.3
          ∙ ap (λ l. flat s.acked ++ sent l) (ap (λ l. s.queue ++ l) e ∙ append-nil s.queue)
          ∙ ap (λ l. flat s.acked ++ l) (sym (sent-++ s.queue p))
          ∙ ap (λ l. flat s.acked ++ sent l) (sym (append-nil new) ∙ ap (λ l. new ++ l) (sym e)),
    )

queued-line : (p : Bytes) (s : Stdin) → s.aborted ≡ [] → line (queued p s) ≡ line s ++ p ∷ []
queued-line p s e =
    let new : List Item = s.queue ++ record { payload = p; off = 0 } ∷ [] in
    ap (λ l. s.acked ++ payloads l) (ap (λ l. new ++ l) e ∙ append-nil new)
    ∙ ap (λ l. s.acked ++ l) (payloads-++ s.queue (record { payload = p; off = 0 } ∷ []))
    ∙ sym (append_assoc s.acked (payloads s.queue) (p ∷ []))
    ∙ ap (λ l. (s.acked ++ payloads l) ++ p ∷ [])
        (sym (append-nil s.queue) ∙ ap (λ l. s.queue ++ l) (sym e))

-- What an event does: the invariants, and the line of the frames.
abbrev IsStep : ℕ → Stdin → List Bytes → Stdin → Type 0
IsStep size s added t = IsGood size t × (line t ≡ line s ++ added)

same-IsStep :
    (size : ℕ) (s t : Stdin)
    → is_sound s ≡ true
    → IsWhole size t
    → (line t ≡ line s) × (status t ≡ status s)
    → IsStep size s [] t
same-IsStep size s t h w l = ((w, ap sound_status l.1 ∙ h), l.0 ∙ sym (append-nil (line s)))

pump-IsStep :
    (size : ℕ) (takes : List ℕ) (s : Stdin) → IsGood size s → IsStep size s [] (pump size takes s)
pump-IsStep size takes s g =
    same-IsStep size s (pump size takes s) g.1
      (pump_on-IsWhole size (suc (work s.queue)) takes (record s { pumping = true }) g.0)
      (pump_on-line size (suc (work s.queue)) takes (record s { pumping = true }))

queued-IsStep :
    (size : ℕ) (takes : List ℕ) (p : Bytes) (s : Stdin)
    → s.died ≡ false
    → IsGood size s
    → IsStep size s (p ∷ []) (if s.pumping then queued p s else pump size takes (queued p s))
queued-IsStep size takes p s d g =
    let e = nothing_aborted s g.1 d in
    let good : IsGood size (queued p s) = (queued-IsWhole size p s e g.0, g.1) in
    let pumped = pump-IsStep size takes (queued p s) good in
    if_rule (IsStep size s (p ∷ [])) s.pumping (queued p s) (pump size takes (queued p s))
      (λ _. (good, queued-line p s e))
      λ _. (pumped.0, pumped.1 ∙ append-nil (line (queued p s)) ∙ queued-line p s e)

write_checked-IsStep :
    (size : ℕ) (takes : List ℕ) (p : Bytes) (s : Stdin) (r : Option Refusal)
    → IsGood size s
    → IsStep size s
        (if is_some (write_checked size takes p s r).0 then [] else p ∷ [])
        (write_checked size takes p s r).1
write_checked-IsStep size takes p s (some r) g = (g, sym (append-nil (line s)))
write_checked-IsStep size takes p s none g =
    if_rule (λ (x : Option Refusal × Stdin). IsStep size s (if is_some x.0 then [] else p ∷ []) x.1)
      s.died (some is_dead, s)
      (none, if s.pumping then queued p s else pump size takes (queued p s))
      (λ _. (g, sym (append-nil (line s)))) λ d. queued-IsStep size takes p s d g

die-IsStep : (size : ℕ) (s : Stdin) → IsGood size s → IsStep size s [] (die s)
unfolding die
die-IsStep size s g =
    if_rule (IsStep size s []) s.died s (record s { died = true; queue = []; aborted = s.queue })
      (λ _. (g, sym (append-nil (line s))))
      λ d.
        let all = ap (λ l. s.queue ++ l) (nothing_aborted s g.1 d) ∙ append-nil s.queue in
        (
          (
            (
              g.0.0,
              g.0.1,
              ap fresh_behind (sym all) ∙ g.0.2,
              g.0.3 ∙ ap (λ l. flat s.acked ++ sent l) all,
            ),
            refl,
          ),
          ap (λ l. s.acked ++ payloads l) (sym all) ∙ sym (append-nil (line s)),
        )

pub happen-IsStep :
    (size : ℕ) (e : Event) (s : Stdin)
    → IsGood size s
    → IsStep size s (accepted_in size e s) (happen size e s)
unfolding happen ring_write
happen-IsStep size (written takes p) s g =
    write_checked-IsStep size takes p s (check_frame size p) g
happen-IsStep size (woken takes) s g =
    if_rule (IsStep size s []) s.pumping (pump size takes s) s (λ _. pump-IsStep size takes s g)
      λ _. (g, sym (append-nil (line s)))
happen-IsStep size (consumed n) s g =
    same-IsStep size s (take_bytes size n s) g.1 (take_bytes-IsWhole size n s g.0)
      (take_bytes-line size n s)
happen-IsStep size ended s g = die-IsStep size s g

run-from :
    (size : ℕ) (s : Stdin) (es : List Event)
    → IsGood size s
    → IsStep size s (accepted_of size s es) (run size s es)
run-from size s [] g = (g, sym (append-nil (line s)))
run-from size s (e ∷ es) g =
    let now = happen-IsStep size e s g in
    let rest = run-from size (happen size e s) es now.0 in
    (
      rest.0,
      rest.1
          ∙ ap (λ l. l ++ accepted_of size (happen size e s) es) now.1
          ∙ append_assoc (line s) (accepted_in size e s) (accepted_of size (happen size e s) es),
    )

opened-IsGood :
    (size : ℕ) (bytes : ℕ → ℕ) (front_door : Bool)
    → 0 < size
    → IsGood size (opened bytes front_door)
opened-IsGood size bytes front_door h =
    ((h, h, refl, ap (held_from size bytes 0) (used_up size 0 0 (omega arith) h)), refl)

-- Frames go through the ring whole and in order. Behind any sequence of writes, wakes of a parked pump,
-- reads of the FileWorker (between the rounds of the pump too) and a death: the frames that were acked,
-- those that still wait and those that were aborted are, in this order, all the frames that were not
-- refused; and the bytes that the FileWorker took, followed by those in the ring, are the acked frames
-- and then the written part of the next frame.
pub run-whole :
    (size : ℕ) (bytes : ℕ → ℕ) (front_door : Bool) (es : List Event)
    → 0 < size
    → let s = run size (opened bytes front_door) es in
      (s.acked ++ payloads (s.queue ++ s.aborted) ≡ accepted_of size (opened bytes front_door) es)
      × (s.taken ++ contents size s ≡ flat s.acked ++ sent (s.queue ++ s.aborted))
run-whole size bytes front_door es h =
    let all = run-from size (opened bytes front_door) es (opened-IsGood size bytes front_door h) in
    (all.1, all.0.0.3)
