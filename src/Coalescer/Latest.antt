-- ===== src/Coalescer/Latest.antt =====
-- The newest full-text change over the calls and the timers of lib/edit-coalescer.ts.
use qed.Common.{
  ℕ, ◌+◌, ◌≡◌, refl, sym, ap, ◌∙◌, Bool, true, false, not, ◌&&◌, ◌||◌, Option, none, some, List, [],
  ◌∷◌, ◌++◌, arith, if◌then◌else◌, if_rule,
}
use qed.Common.Json.{Json, get, is_some}
use qed.FrontDoor.Machine.{is_request}
use qed.Coalescer.Frames.{
  is_full_text_change, uri_of, same_value, is_keep_alive, is_barrier, cancelled,
}
use qed.Coalescer.Machine.{
  Options, slot_waited, rejected, noted, Queued, Coalescer, pressured, slot_free, emit, forward,
  admit, send_change, flush_all, hold,
}
use qed.Coalescer.Send.{
  clear_other, take_change, send_full, put_back, take_request, cancel_taken, send_other, is_waiting,
  send_barrier, send_target,
}
use qed.Coalescer.Held.{flush_all-kept}
use qed.Coalescer.Order.{holds_full, forwards}
use qed.Coalescer.Newest.{
  last_full, held_or, newest, is_plain, are_plain, are_plain-snoc, IsNewest, forward-last,
  forward-IsNewest, emit-IsNewest, admit-IsNewest, send_change-IsNewest,
}
use qed.Coalescer.Released.{flush_all-IsNewest, hold-IsNewest, supersede-IsNewest}

-- The newest change behind a frame.
abbrev pub next : Option Json → Json → Option Json
next c m = if is_full_text_change m then some m else c

next-plain : (c : Option Json) (m : Json) → is_plain m ≡ true → c ≡ next c m
next-plain c m p = pick (is_full_text_change m) p
  where
    pick : (b : Bool) → not b ≡ true → c ≡ (if b then some m else c)
    pick true h = absurd (ground (arith, h))
    pick false h = refl

to_plain :
    (c : Option Json) (m : Json) (s : Coalescer)
    → is_plain m ≡ true
    → IsNewest c s
    → IsNewest (next c m) s
to_plain c m s p n = (n.0 ∙ next-plain c m p, n.1)

clear_other-plain :
    (o : Options) (now : ℕ) (held : Option Json) (msg : Json) (s : Coalescer)
    → holds_full s.held ≡ true
    → are_plain s.queue ≡ true
    → are_plain (clear_other o now held msg s).queue ≡ true
clear_other-plain o now none msg s h q = q
clear_other-plain o now (some m) msg s h q =
    if_rule (λ t. are_plain t.queue ≡ true) (same_value (uri_of m) (uri_of msg)) s
      (flush_all o now s) (λ _. q) λ _. (flush_all-IsNewest (newest s) o now s h (refl, q)).1

take_change-IsNewest :
    (o : Options) (now : ℕ) (held : Option Json) (msg : Json) (s : Coalescer)
    → is_full_text_change msg ≡ true
    → s.held ≡ held
    → are_plain s.queue ≡ true
    → IsNewest (some msg) (take_change o now held msg s)
take_change-IsNewest o now none msg s f e q =
    let taken = record s { held = some msg } in
    if_rule (IsNewest (some msg)) (not (is_some s.window) && not (pressured o s now))
      (send_change o now msg s) (if not (is_some s.window) then hold o now taken else taken)
      (λ _. send_change-IsNewest o now msg s f e q)
      λ _.
        if_rule (IsNewest (some msg)) (not (is_some s.window)) (hold o now taken) taken
          (λ _. hold-IsNewest (some msg) o now taken (refl, q)) λ _. (refl, q)
take_change-IsNewest o now (some m) msg s f e q = (refl, q)

pub send_full-IsNewest :
    (o : Options) (now : ℕ) (msg : Json) (s : Coalescer)
    → is_full_text_change msg ≡ true
    → holds_full s.held ≡ true
    → are_plain s.queue ≡ true
    → IsNewest (some msg) (send_full o now msg s)
unfolding send_full
send_full-IsNewest o now msg s f h q =
    let cleared = clear_other o now s.held msg s in
    let counted = record cleared { change_seq = cleared.change_seq + 1 } in
    supersede-IsNewest (some msg) (uri_of msg) (take_change o now counted.held msg counted) (
      take_change-IsNewest o now counted.held msg counted f refl
        (clear_other-plain o now s.held msg s h q))

abbrev rest_plain : Option (Json × List Queued) → Bool
rest_plain none = true
rest_plain (some r) = are_plain r.1

put_back-plain :
    (q : Queued) (r : Option (Json × List Queued))
    → is_plain q.msg ≡ true
    → rest_plain r ≡ true
    → rest_plain (put_back q r) ≡ true
put_back-plain q none p h = refl
put_back-plain q (some r) p h = ground (arith, p, h)

take_request-plain :
    (id : Json) (qs : List Queued) → are_plain qs ≡ true → rest_plain (take_request id qs) ≡ true
take_request-plain id [] h = refl
take_request-plain id (q ∷ qs) h =
    let others : are_plain qs ≡ true = ground (arith, h) in
    if_rule (λ (r : Option (Json × List Queued)). rest_plain r ≡ true)
      (is_request q.msg && same_value (get "id" q.msg) (some id)) (some (q.msg, qs))
      (put_back q (take_request id qs)) (λ _. others)
      λ _.
        put_back-plain q (take_request id qs) (ground (arith, h)) (take_request-plain id qs others)

cancel_taken-IsNewest :
    (c : Option Json) (msg : Json) (r : Option (Json × List Queued)) (s : Coalescer)
    → is_plain msg ≡ true
    → rest_plain r ≡ true
    → IsNewest c s
    → IsNewest c (cancel_taken msg r s)
cancel_taken-IsNewest c msg none s p h n = forward-IsNewest c msg false s p n
cancel_taken-IsNewest c msg (some (m, qs)) s p h n =
    emit-IsNewest c (rejected m cancelled) (record s { queue = qs }) refl (n.0, h)

send_other-IsNewest :
    (c : Option Json) (o : Options) (msg : Json) (s : Coalescer)
    → is_plain msg ≡ true
    → IsNewest c s
    → IsNewest c (send_other o msg s)
unfolding send_other
send_other-IsNewest c o msg s p n =
    let queued = record s { queue = s.queue ++ record { msg = msg; seq = s.change_seq } ∷ [] } in
    let noticed = emit (noted slot_waited none) queued in
    let waits = if is_request msg then noticed else queued in
    let put : IsNewest c queued =
      (n.0, are_plain-snoc s.queue (record { msg = msg; seq = s.change_seq }) n.1 p) in
    if_rule (IsNewest c) (is_some s.held) queued
      (if is_waiting s.queue || (is_request msg && not (slot_free o s))
        then waits
        else admit o msg s)
      (λ _. put)
      λ _.
        if_rule (IsNewest c) (is_waiting s.queue || (is_request msg && not (slot_free o s))) waits
          (admit o msg s)
          (λ _.
            if_rule (IsNewest c) (is_request msg) noticed queued
              (λ _. emit-IsNewest c (noted slot_waited none) queued refl put) λ _. put)
          λ _. admit-IsNewest c o msg s p n

-- A barrier may be a change that is replayed.
send_barrier-IsNewest :
    (c : Option Json) (o : Options) (now : ℕ) (msg : Json) (replay : Bool) (s : Coalescer)
    → holds_full s.held ≡ true
    → IsNewest c s
    → IsNewest (next c msg) (send_barrier o now msg replay s)
send_barrier-IsNewest c o now msg replay s h n =
    let flushed = flush_all o now s in
    let gone = flush_all-IsNewest c o now s h n in
    let nothing : flushed.held ≡ none = ap (λ k. k.0) (flush_all-kept o now s) in
    let last = last_full none (forwards flushed.out) in
    (
      ap (λ x. held_or x (last_full none (forwards (forward msg replay flushed).out))) nothing
          ∙ forward-last msg replay flushed
          ∙ ap (λ d. next d msg) (sym (ap (λ x. held_or x last) nothing) ∙ gone.0),
      gone.1,
    )

pub send_target-IsNewest :
    (c : Option Json) (o : Options) (now : ℕ) (target : Option Json) (msg : Json) (replay : Bool)
    (s : Coalescer)
    → (is_some target ≡ true → is_plain msg ≡ true)
    → (not replay && is_full_text_change msg) ≡ false
    → holds_full s.held ≡ true
    → IsNewest c s
    → IsNewest (next c msg) (send_target o now target msg replay s)
send_target-IsNewest c o now (some id) msg replay s p r h n =
    to_plain c msg (cancel_taken msg (take_request id s.queue) s) (p refl) (
      cancel_taken-IsNewest c msg (take_request id s.queue) s (p refl)
        (take_request-plain id s.queue n.1) n)
send_target-IsNewest c o now none msg replay s p r h n =
    if_rule (IsNewest (next c msg)) (not replay && not (is_some s.held) && is_keep_alive msg)
      (forward msg false s)
      (if not replay && not (is_barrier msg)
        then send_other o msg s
        else send_barrier o now msg replay s)
      (λ k.
        let plain : is_plain msg ≡ true = ground (arith, k, r) in
        to_plain c msg (forward msg false s) plain (forward-IsNewest c msg false s plain n))
      λ _.
        if_rule (IsNewest (next c msg)) (not replay && not (is_barrier msg)) (send_other o msg s)
          (send_barrier o now msg replay s)
          (λ k.
            let plain : is_plain msg ≡ true = ground (arith, k, r) in
            to_plain c msg (send_other o msg s) plain (send_other-IsNewest c o msg s plain n))
          λ _. send_barrier-IsNewest c o now msg replay s h n
