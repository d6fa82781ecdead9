-- ===== src/Coalescer/Stream.antt =====
-- The order of the notifications over the events of lib/edit-coalescer.ts.
use qed.Common.{
  ℕ, ◌≡◌, refl, sym, ap, ◌∙◌, Bool, true, false, not, ◌&&◌, ◌||◌, Option, none, some, List, [], ◌∷◌,
  ◌++◌, append-nil, append_assoc, arith, ◌==◌, if◌then◌else◌, if_rule,
}
use qed.Common.Json.{Json, is_some}
use qed.FrontDoor.Machine.{is_request}
use qed.Coalescer.Frames.{is_full_text_change, is_keep_alive, cancel_target, is_barrier}
use qed.Coalescer.Machine.{
  Options, PoolSample, slot_waited, noted, Queued, Coalescer, create, sampled, slot_free, emit,
  forward, schedule_recheck, remove_pending, admit, drain, flush_all, release_drained, capped, tick,
  rechecked,
}
use qed.Coalescer.Send.{
  send_full, take_request, cancel_taken, send_other, is_waiting, send_barrier, send_target, send,
  observe, settle, Event, Timed, happen, run, sent_in, sent_of,
}
use qed.Coalescer.Order.{
  filter, forwards, msgs_of, filter-++, msgs_of-++, is_ordered, gone, waiting, stream, one,
  forward-gone, keep_alive-one, drain-stream, holds_full, noted-stream,
}
use qed.Common.Lists.{any}
use qed.Liveness.Monitor.{same_id}
use qed.Coalescer.Send.{sent, observed, settled, window_fired, cap_fired, recheck_fired}
use qed.Coalescer.Fifo.{flush_all-stream, capped-stream, release_drained-stream, tick-stream}
use qed.Coalescer.Held.{is_sound}
use qed.Coalescer.Sound.{happen-IsSound}
use qed.Coalescer.Session.{
  admit-stream, flush_all-queue, take_request-IsWhole, cancel_taken-stream, send_full-stream,
  sound-held,
}

queued-stream :
    (msg : Json) (n : ℕ) (s : Coalescer)
    → stream (record s { queue = s.queue ++ record { msg = msg; seq = n } ∷ [] })
      ≡ stream s ++ one msg
queued-stream msg n s =
    ap (λ w. gone s ++ w)
      (ap (filter is_ordered) (msgs_of-++ s.queue (record { msg = msg; seq = n } ∷ []))
        ∙ filter-++ is_ordered (msgs_of s.queue) (msg ∷ []))
    ∙ sym (append_assoc (gone s) (waiting s) (one msg))

nothing_waiting : (qs : List Queued) → is_waiting qs ≡ false → filter is_ordered (msgs_of qs) ≡ []
nothing_waiting [] h = refl
nothing_waiting (q ∷ qs) h = ground (arith, h)

send_other-stream :
    (o : Options) (msg : Json) (s : Coalescer) → stream (send_other o msg s) ≡ stream s ++ one msg
unfolding send_other
send_other-stream o msg s =
    let queued = record s { queue = s.queue ++ record { msg = msg; seq = s.change_seq } ∷ [] } in
    let noticed = emit (noted slot_waited none) queued in
    let waits = if is_request msg then noticed else queued in
    let put = queued-stream msg s.change_seq s in
    if_rule (λ t. stream t ≡ stream s ++ one msg) (is_some s.held) queued
      (if is_waiting s.queue || (is_request msg && not (slot_free o s))
        then waits
        else admit o msg s)
      (λ _. put)
      λ _.
        if_rule (λ t. stream t ≡ stream s ++ one msg)
          (is_waiting s.queue || (is_request msg && not (slot_free o s))) waits (admit o msg s)
          (λ _.
            if_rule (λ t. stream t ≡ stream s ++ one msg) (is_request msg) noticed queued
              (λ _. noted-stream slot_waited none queued ∙ put) λ _. put)
          λ c. admit-stream o msg s (nothing_waiting s.queue (ground (arith, c)))

send_barrier-stream :
    (o : Options) (now : ℕ) (msg : Json) (replay : Bool) (s : Coalescer)
    → holds_full s.held ≡ true
    → stream (send_barrier o now msg replay s) ≡ stream s ++ one msg
send_barrier-stream o now msg replay s h =
    let flushed = flush_all o now s in
    ap (λ w. gone (forward msg replay flushed) ++ w) (flush_all-queue o now s)
    ∙ append-nil (gone (forward msg replay flushed))
    ∙ forward-gone msg replay flushed
    ∙ ap (λ g. g ++ one msg) (flush_all-stream o now s h)

unordered-stream :
    (msg : Json) (s t : Coalescer)
    → one msg ≡ []
    → stream t ≡ stream s
    → stream t ≡ stream s ++ one msg
unordered-stream msg s t e h = h ∙ sym (append-nil (stream s)) ∙ ap (λ l. stream s ++ l) (sym e)

send_target-stream :
    (o : Options) (now : ℕ) (target : Option Json) (msg : Json) (replay : Bool) (s : Coalescer)
    → (is_some target ≡ true → one msg ≡ [])
    → holds_full s.held ≡ true
    → stream (send_target o now target msg replay s) ≡ stream s ++ one msg
send_target-stream o now (some id) msg replay s e h =
    unordered-stream msg s (cancel_taken msg (take_request id s.queue) s) (e refl) (
      cancel_taken-stream msg (take_request id s.queue) s (e refl)
        (take_request-IsWhole id s.queue))
send_target-stream o now none msg replay s e h =
    if_rule (λ t. stream t ≡ stream s ++ one msg)
      (not replay && not (is_some s.held) && is_keep_alive msg) (forward msg false s)
      (if not replay && not (is_barrier msg)
        then send_other o msg s
        else send_barrier o now msg replay s)
      (λ c.
        let k = keep_alive-one msg (ground (arith, c)) in
        unordered-stream msg s (forward msg false s) k (
          ap (λ g. g ++ waiting s)
            (forward-gone msg false s ∙ ap (λ l. gone s ++ l) k ∙ append-nil (gone s))))
      λ _.
        if_rule (λ t. stream t ≡ stream s ++ one msg) (not replay && not (is_barrier msg))
          (send_other o msg s) (send_barrier o now msg replay s) (λ _. send_other-stream o msg s)
          λ _. send_barrier-stream o now msg replay s h

target-one :
    (msg : Json) (replay : Bool)
    → is_some (if replay then none else cancel_target msg) ≡ true
    → one msg ≡ []
unfolding is_ordered
target-one msg true h = ground (arith, h)
target-one msg false h = ground (arith, h)

-- A frame that is sent is the last of the stream, if it is of the stream at all.
send-stream :
    (o : Options) (now : ℕ) (msg : Json) (replay : Bool) (s : Coalescer)
    → is_sound s ≡ true
    → stream (send o now msg replay s) ≡ stream s ++ one msg
unfolding send
send-stream o now msg replay s h =
    let held_full = sound-held s h in
    let target = if replay then none else cancel_target msg in
    let rest = send_target o now target msg replay s in
    let full = not (o.ms == 0) && not replay && is_full_text_change msg in
    if_rule (λ t. stream t ≡ stream s ++ one msg) s.disposed s
      (if full then send_full o now msg s else rest) (λ d. ground (arith, h, d))
      λ _.
        if_rule (λ t. stream t ≡ stream s ++ one msg) full (send_full o now msg s) rest
          (λ c. send_full-stream o now msg s (ground (arith, c)) held_full)
          λ _. send_target-stream o now target msg replay s (target-one msg replay) held_full

observe-stream :
    (o : Options) (now : ℕ) (sample : Option PoolSample) (s : Coalescer)
    → holds_full s.held ≡ true
    → stream (observe o now sample s) ≡ stream s
unfolding observe
observe-stream o now sample s h =
    let seen = record s { pool = sample } in
    let pressed = record seen { last_pressured_at = some now } in
    let timed = schedule_recheck o now pressed in
    let marked = if is_some s.cap then timed else pressed in
    let P : Coalescer → Type 0 = λ t. stream (release_drained o now t) ≡ stream s in
    if_rule P (sampled o sample) marked seen
      (λ _.
        if_rule P (is_some s.cap) timed pressed (λ _. release_drained-stream o now timed h)
          λ _. release_drained-stream o now pressed h)
      λ _. release_drained-stream o now seen h

settle-stream : (o : Options) (id : Json) (s : Coalescer) → stream (settle o id s) ≡ stream s
unfolding settle
settle-stream o id s =
    let left = record s { pending = remove_pending id s.pending } in
    if_rule (λ t. stream t ≡ stream s) (any (same_id id) s.pending) (drain o left) s
      (λ _. drain-stream o left) λ _. refl

happen-stream :
    (o : Options) (now : ℕ) (e : Event) (s : Coalescer)
    → is_sound s ≡ true
    → stream (happen o now e s) ≡ stream s ++ filter is_ordered (sent_in e)
unfolding rechecked
happen-stream o now (sent msg replay) s h = send-stream o now msg replay s h
happen-stream o now (observed sample) s h =
    observe-stream o now sample s (sound-held s h) ∙ sym (append-nil (stream s))
happen-stream o now (settled id) s h = settle-stream o id s ∙ sym (append-nil (stream s))
happen-stream o now window_fired s h =
    if_rule (λ t. stream t ≡ stream s) (is_some s.window) (tick o now s) s
      (λ _. tick-stream o now s (sound-held s h)) (λ _. refl)
    ∙ sym (append-nil (stream s))
happen-stream o now cap_fired s h =
    if_rule (λ t. stream t ≡ stream s) (is_some s.cap) (capped o now s) s
      (λ _. capped-stream o now s (sound-held s h)) (λ _. refl)
    ∙ sym (append-nil (stream s))
happen-stream o now recheck_fired s h =
    if_rule (λ t. stream t ≡ stream s) (is_some s.recheck) (rechecked o now s) s
      (λ _. release_drained-stream o now (record s { recheck = none }) (sound-held s h)) (λ _. refl)
    ∙ sym (append-nil (stream s))

run-from :
    (o : Options) (s : Coalescer) (es : List Timed)
    → is_sound s ≡ true
    → stream (run o s es) ≡ stream s ++ filter is_ordered (sent_of es)
run-from o s [] h = sym (append-nil (stream s))
run-from o s (e ∷ es) h =
    run-from o (happen o e.at e.event s) es (happen-IsSound o e.at e.event s h)
    ∙ ap (λ g. g ++ filter is_ordered (sent_of es)) (happen-stream o e.at e.event s h)
    ∙ append_assoc (stream s) (filter is_ordered (sent_in e.event)) (filter is_ordered (sent_of es))
    ∙ ap (λ l. stream s ++ l) (sym (filter-++ is_ordered (sent_in e.event) (sent_of es)))

-- In every session that starts with `createEditCoalescer`, whatever is sent (replays too), sampled and
-- settled, and whenever the armed timers fire, the notifications that are neither full-text changes
-- nor cancels nor keep-alives are forwarded in the order in which they were sent, none lost and none
-- twice: those forwarded, then those still queued, are all that were sent.
pub run-fifo :
    (o : Options) (es : List Timed)
    → filter is_ordered (forwards (run o create es).out)
        ++ filter is_ordered (msgs_of (run o create es).queue)
      ≡ filter is_ordered (sent_of es)
run-fifo o es = run-from o create es refl
