-- ===== src/Coalescer/Wins.antt =====
-- The newest full-text change over a whole session of lib/edit-coalescer.ts.
use qed.Common.{
  ℕ, ◌≡◌, refl, sym, ap, ◌∙◌, Bool, true, false, not, ◌&&◌, Option, none, some, List, [], ◌∷◌,
  arith, ◌==◌, if◌then◌else◌, if_rule,
}
use qed.Common.Lists.{any}
use qed.Common.Json.{Json, get, is_some, is_text_other}
use qed.FrontDoor.Machine.{did_change}
use qed.Liveness.Monitor.{same_id}
use qed.Coalescer.Frames.{is_full_text_change, cancel_target}
use qed.Coalescer.Machine.{
  Options, PoolSample, Coalescer, create, sampled, schedule_recheck, remove_pending, drain,
  release_drained, capped, tick, rechecked,
}
use qed.Coalescer.Send.{
  send_full, send_target, send, observe, settle, Event, sent, observed, settled, window_fired,
  cap_fired, recheck_fired, Timed, happen, run, sent_in, sent_of,
}
use qed.Coalescer.Held.{is_sound}
use qed.Coalescer.Sound.{happen-IsSound}
use qed.Coalescer.Session.{sound-held}
use qed.Coalescer.Order.{holds_full}
use qed.Coalescer.Newest.{last_full, last_full-++, newest, is_plain, IsNewest, drain-IsNewest}
use qed.Coalescer.Released.{release_drained-IsNewest, capped-IsNewest, tick-IsNewest}
use qed.Coalescer.Latest.{next, send_full-IsNewest, send_target-IsNewest}

target-plain :
    (msg : Json) (replay : Bool)
    → is_some (if replay then none else cancel_target msg) ≡ true
    → is_plain msg ≡ true
unfolding cancel_target is_full_text_change
target-plain msg true h = ground (arith, h)
target-plain msg false h =
    let m = is_text_other (get "method" msg) "$/cancelRequest" did_change in ground (arith, h, m)

pick_full :
    (c : Option Json) (msg : Json) (s : Coalescer)
    → is_full_text_change msg ≡ true
    → IsNewest (some msg) s
    → IsNewest (next c msg) s
pick_full c msg s f n = (n.0 ∙ sym (ap (λ b. if b then some msg else c) f), n.1)

send-IsNewest :
    (c : Option Json) (o : Options) (now : ℕ) (msg : Json) (replay : Bool) (s : Coalescer)
    → (o.ms == 0) ≡ false
    → is_sound s ≡ true
    → IsNewest c s
    → IsNewest (next c msg) (send o now msg replay s)
unfolding send
send-IsNewest c o now msg replay s m h n =
    let held_full = sound-held s h in
    let target = if replay then none else cancel_target msg in
    let rest = send_target o now target msg replay s in
    let full = not (o.ms == 0) && not replay && is_full_text_change msg in
    if_rule (IsNewest (next c msg)) s.disposed s (if full then send_full o now msg s else rest)
      (λ d. ground (arith, h, d))
      λ _.
        if_rule (IsNewest (next c msg)) full (send_full o now msg s) rest
          (λ f.
            let is_full : is_full_text_change msg ≡ true = ground (arith, f) in
            pick_full c msg (send_full o now msg s) is_full
              (send_full-IsNewest o now msg s is_full held_full n.1))
          λ f.
            send_target-IsNewest c o now target msg replay s (target-plain msg replay)
              (ground (arith, m, f)) held_full n

observe-IsNewest :
    (c : Option Json) (o : Options) (now : ℕ) (sample : Option PoolSample) (s : Coalescer)
    → holds_full s.held ≡ true
    → IsNewest c s
    → IsNewest c (observe o now sample s)
unfolding observe
observe-IsNewest c o now sample s h n =
    let seen = record s { pool = sample } in
    let pressed = record seen { last_pressured_at = some now } in
    let timed = schedule_recheck o now pressed in
    let marked = if is_some s.cap then timed else pressed in
    let P : Coalescer → Type 0 = λ t. IsNewest c (release_drained o now t) in
    if_rule P (sampled o sample) marked seen
      (λ _.
        if_rule P (is_some s.cap) timed pressed (λ _. release_drained-IsNewest c o now timed h n)
          λ _. release_drained-IsNewest c o now pressed h n)
      λ _. release_drained-IsNewest c o now seen h n

settle-IsNewest :
    (c : Option Json) (o : Options) (id : Json) (s : Coalescer)
    → IsNewest c s
    → IsNewest c (settle o id s)
unfolding settle
settle-IsNewest c o id s n =
    let left = record s { pending = remove_pending id s.pending } in
    if_rule (IsNewest c) (any (same_id id) s.pending) (drain o left) s
      (λ _. drain-IsNewest c o left n) λ _. n

happen-IsNewest :
    (c : Option Json) (o : Options) (now : ℕ) (e : Event) (s : Coalescer)
    → (o.ms == 0) ≡ false
    → is_sound s ≡ true
    → IsNewest c s
    → IsNewest (last_full c (sent_in e)) (happen o now e s)
unfolding rechecked
happen-IsNewest c o now (sent msg replay) s m h n = send-IsNewest c o now msg replay s m h n
happen-IsNewest c o now (observed sample) s m h n =
    observe-IsNewest c o now sample s (sound-held s h) n
happen-IsNewest c o now (settled id) s m h n = settle-IsNewest c o id s n
happen-IsNewest c o now window_fired s m h n =
    if_rule (IsNewest c) (is_some s.window) (tick o now s) s
      (λ _. tick-IsNewest c o now s (sound-held s h) n) λ _. n
happen-IsNewest c o now cap_fired s m h n =
    if_rule (IsNewest c) (is_some s.cap) (capped o now s) s
      (λ _. capped-IsNewest c o now s (sound-held s h) n) λ _. n
happen-IsNewest c o now recheck_fired s m h n =
    if_rule (IsNewest c) (is_some s.recheck) (rechecked o now s) s
      (λ _. release_drained-IsNewest c o now (record s { recheck = none }) (sound-held s h) n)
      λ _. n

run_from :
    (c : Option Json) (o : Options) (s : Coalescer) (es : List Timed)
    → (o.ms == 0) ≡ false
    → is_sound s ≡ true
    → IsNewest c s
    → newest (run o s es) ≡ last_full c (sent_of es)
run_from c o s [] m h n = n.0
run_from c o s (e ∷ es) m h n =
    run_from (last_full c (sent_in e.event)) o (happen o e.at e.event s) es m
      (happen-IsSound o e.at e.event s h) (happen-IsNewest c o e.at e.event s m h n)
    ∙ sym (last_full-++ c (sent_in e.event) (sent_of es))

-- In every session that starts with `createEditCoalescer` with a window, whatever is sent (replays
-- too), sampled and settled, and whenever the armed timers fire, the newest text is never lost nor
-- passed by an older one: the full-text change that is held or, if none is, the last one that was
-- forwarded, is the last full-text change that was sent.
pub run-newest :
    (o : Options) (es : List Timed)
    → (o.ms == 0) ≡ false
    → newest (run o create es) ≡ last_full none (sent_of es)
run-newest o es m = run_from none o create es m refl (refl, refl)
