-- ===== src/Coalescer/Sound.antt =====
-- The held frame over a whole session of lib/edit-coalescer.ts.
use qed.Common.{
  ℕ, ◌≡◌, refl, ap, ◌∙◌, Bool, true, false, not, ◌&&◌, ◌||◌, Option, none, some, List, [], ◌∷◌,
  ◌++◌, arith, ◌==◌, if◌then◌else◌, if_rule,
}
use qed.Common.Lists.{any}
use qed.Common.Json.{Json, is_some}
use qed.FrontDoor.Machine.{is_request}
use qed.Liveness.Monitor.{same_id}
use qed.Coalescer.Frames.{is_full_text_change, is_keep_alive, cancel_target, is_barrier}
use qed.Coalescer.Machine.{
  Options, PoolSample, slot_waited, noted, Queued, Coalescer, sampled, slot_free, emit, forward,
  schedule_recheck, remove_pending, admit, drain, capped, tick, rechecked,
}
use qed.Coalescer.Send.{
  send_full, take_request, cancel_taken, send_other, is_waiting, send_barrier, send_target, send,
  observe, settle, Event, sent, observed, settled, window_fired, cap_fired, recheck_fired, happen,
}
use qed.Coalescer.Held.{
  kept, sound_of, is_sound, admit-kept, drain-kept, flush_all-kept, release_drained-IsSound,
  capped-IsSound, tick-IsSound, emptied, send_full-IsSound,
}

send_other-kept : (o : Options) (msg : Json) (s : Coalescer) → kept (send_other o msg s) ≡ kept s
unfolding send_other
send_other-kept o msg s =
    let queued = record s { queue = s.queue ++ record { msg = msg; seq = s.change_seq } ∷ [] } in
    let noticed = emit (noted slot_waited none) queued in
    let waits = if is_request msg then noticed else queued in
    if_rule (λ t. kept t ≡ kept s) (is_some s.held) queued
      (if is_waiting s.queue || (is_request msg && not (slot_free o s))
        then waits
        else admit o msg s)
      (λ _. refl)
      λ _.
        if_rule (λ t. kept t ≡ kept s)
          (is_waiting s.queue || (is_request msg && not (slot_free o s))) waits (admit o msg s)
          (λ _.
            if_rule (λ t. kept t ≡ kept s) (is_request msg) noticed queued (λ _. refl) λ _. refl)
          λ _. admit-kept o msg s

cancel_taken-kept :
    (msg : Json) (r : Option (Json × List Queued)) (s : Coalescer)
    → kept (cancel_taken msg r s) ≡ kept s
cancel_taken-kept msg none s = refl
cancel_taken-kept msg (some (m, qs)) s = refl

send_target-IsSound :
    (o : Options) (now : ℕ) (target : Option Json) (msg : Json) (replay : Bool) (s : Coalescer)
    → is_sound s ≡ true
    → is_sound (send_target o now target msg replay s) ≡ true
send_target-IsSound o now (some id) msg replay s h =
    ap sound_of (cancel_taken-kept msg (take_request id s.queue) s) ∙ h
send_target-IsSound o now none msg replay s h =
    if_rule (λ t. is_sound t ≡ true) (not replay && not (is_some s.held) && is_keep_alive msg)
      (forward msg false s)
      (if not replay && not (is_barrier msg)
        then send_other o msg s
        else send_barrier o now msg replay s)
      (λ _. h)
      λ _.
        if_rule (λ t. is_sound t ≡ true) (not replay && not (is_barrier msg)) (send_other o msg s)
          (send_barrier o now msg replay s) (λ _. ap sound_of (send_other-kept o msg s) ∙ h)
          λ _. emptied _ s (flush_all-kept o now s) h

pub send-IsSound :
    (o : Options) (now : ℕ) (msg : Json) (replay : Bool) (s : Coalescer)
    → is_sound s ≡ true
    → is_sound (send o now msg replay s) ≡ true
unfolding send
send-IsSound o now msg replay s h =
    let target = if replay then none else cancel_target msg in
    let rest = send_target o now target msg replay s in
    if_rule (λ t. is_sound t ≡ true) s.disposed s
      (if not (o.ms == 0) && not replay && is_full_text_change msg
        then send_full o now msg s
        else rest)
      (λ _. h)
      λ _.
        if_rule (λ t. is_sound t ≡ true) (not (o.ms == 0) && not replay && is_full_text_change msg)
          (send_full o now msg s) rest (λ c. send_full-IsSound o now msg s (ground (arith, c)) h)
          λ _. send_target-IsSound o now target msg replay s h

pub observe-IsSound :
    (o : Options) (now : ℕ) (sample : Option PoolSample) (s : Coalescer)
    → is_sound s ≡ true
    → is_sound (observe o now sample s) ≡ true
unfolding observe
observe-IsSound o now sample s h =
    let seen = record s { pool = sample } in
    let pressed = record seen { last_pressured_at = some now } in
    let marked = if is_some s.cap then schedule_recheck o now pressed else pressed in
    release_drained-IsSound o now (if sampled o sample then marked else seen) (
      if_rule (λ t. is_sound t ≡ true) (sampled o sample) marked seen
        (λ _.
          if_rule (λ t. is_sound t ≡ true) (is_some s.cap) (schedule_recheck o now pressed) pressed
            (λ _. h) λ _. h)
        λ _. h)

settle-IsSound :
    (o : Options) (id : Json) (s : Coalescer) → is_sound s ≡ true → is_sound (settle o id s) ≡ true
unfolding settle
settle-IsSound o id s h =
    let left = record s { pending = remove_pending id s.pending } in
    if_rule (λ t. is_sound t ≡ true) (any (same_id id) s.pending) (drain o left) s
      (λ _. ap sound_of (drain-kept o left) ∙ h) λ _. h

pub happen-IsSound :
    (o : Options) (now : ℕ) (e : Event) (s : Coalescer)
    → is_sound s ≡ true
    → is_sound (happen o now e s) ≡ true
unfolding rechecked
happen-IsSound o now (sent msg replay) s h = send-IsSound o now msg replay s h
happen-IsSound o now (observed sample) s h = observe-IsSound o now sample s h
happen-IsSound o now (settled id) s h = settle-IsSound o id s h
happen-IsSound o now window_fired s h =
    if_rule (λ t. is_sound t ≡ true) (is_some s.window) (tick o now s) s
      (λ _. tick-IsSound o now s h) λ _. h
happen-IsSound o now cap_fired s h =
    if_rule (λ t. is_sound t ≡ true) (is_some s.cap) (capped o now s) s
      (λ _. capped-IsSound o now s h) λ _. h
happen-IsSound o now recheck_fired s h =
    if_rule (λ t. is_sound t ≡ true) (is_some s.recheck) (rechecked o now s) s
      (λ _. release_drained-IsSound o now (record s { recheck = none }) h) λ _. h
