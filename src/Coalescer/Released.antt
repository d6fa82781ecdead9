-- ===== src/Coalescer/Released.antt =====
-- The newest full-text change of lib/edit-coalescer.ts over a release, a flush and the timers.
use qed.Common.{
  ℕ, ◌+◌, ◌-◌, ◌≡◌, refl, sym, ap, ◌∙◌, Bool, true, not, ◌&&◌, Option, none, some, List, [], ◌∷◌,
  arith, if◌then◌else◌, if_rule,
}
use qed.Common.Json.{Json, is_some}
use qed.Coalescer.Frames.{superseded}
use qed.Coalescer.Machine.{
  Options, hold_began, pool_released, hold_capped, rejected, noted, Queued, Coalescer, sampled,
  pressured, emit, end_hold, schedule_recheck, admit, send_held, release, admit_all, flush_all,
  hold, release_drained, capped, tick,
}
use qed.Coalescer.Send.{is_passed, keep_unpassed, reject_passed, supersede}
use qed.Coalescer.Order.{forwards, holds_full}
use qed.Coalescer.Newest.{
  last_full, held_or, are_plain, IsNewest, emit-IsNewest, admit-IsNewest, drain-IsNewest,
  send_change-IsNewest,
}

send_held-IsNewest :
    (c : Option Json) (o : Options) (now : ℕ) (h : Option Json) (s : Coalescer)
    → s.held ≡ h
    → holds_full h ≡ true
    → IsNewest c s
    → IsNewest c (send_held o now h s)
send_held-IsNewest c o now none s e k n = n
send_held-IsNewest c o now (some m) s e k n =
    let sent = send_change-IsNewest o now m (record s { held = none }) k refl n.1 in
    (sent.0 ∙ sym (ap (λ x. held_or x (last_full none (forwards s.out))) e) ∙ n.0, sent.1)

release-IsNewest :
    (c : Option Json) (o : Options) (now : ℕ) (s : Coalescer)
    → holds_full s.held ≡ true
    → IsNewest c s
    → IsNewest c (release o now s)
unfolding release
release-IsNewest c o now s h n =
    drain-IsNewest c o (send_held o now s.held (end_hold s))
      (send_held-IsNewest c o now s.held (end_hold s) refl h n)

admit_all-IsNewest :
    (c : Option Json) (o : Options) (xs : List Queued) (s : Coalescer)
    → are_plain xs ≡ true
    → IsNewest c s
    → IsNewest c (admit_all o xs s)
admit_all-IsNewest c o [] s h n = n
admit_all-IsNewest c o (x ∷ xs) s h n =
    admit_all-IsNewest c o xs (admit o x.msg s) (ground (arith, h))
      (admit-IsNewest c o x.msg s (ground (arith, h)) n)

pub flush_all-IsNewest :
    (c : Option Json) (o : Options) (now : ℕ) (s : Coalescer)
    → holds_full s.held ≡ true
    → IsNewest c s
    → IsNewest c (flush_all o now s)
unfolding flush_all
flush_all-IsNewest c o now s h n =
    let gone = send_held-IsNewest c o now s.held (end_hold s) refl h n in
    admit_all-IsNewest c o s.queue (record (send_held o now s.held (end_hold s)) { queue = [] }) n.1
      (gone.0, refl)

pub hold-IsNewest :
    (c : Option Json) (o : Options) (now : ℕ) (s : Coalescer)
    → IsNewest c s
    → IsNewest c (hold o now s)
unfolding hold
hold-IsNewest c o now s n =
    let armed = record s { held_since = now; cap = some (now + o.max_hold) } in
    if_rule (λ t. IsNewest c (emit (noted hold_began none) t)) (sampled o s.pool) armed
      (schedule_recheck o now armed) (λ _. emit-IsNewest c (noted hold_began none) armed refl n)
      λ _. emit-IsNewest c (noted hold_began none) (schedule_recheck o now armed) refl n

pub capped-IsNewest :
    (c : Option Json) (o : Options) (now : ℕ) (s : Coalescer)
    → holds_full s.held ≡ true
    → IsNewest c s
    → IsNewest c (capped o now s)
unfolding capped
capped-IsNewest c o now s h n =
    let noticed = noted hold_capped (some (now - s.held_since)) in
    release-IsNewest c o now (emit noticed (record s { cap = none })) h
      (emit-IsNewest c noticed (record s { cap = none }) refl n)

pub release_drained-IsNewest :
    (c : Option Json) (o : Options) (now : ℕ) (s : Coalescer)
    → holds_full s.held ≡ true
    → IsNewest c s
    → IsNewest c (release_drained o now s)
release_drained-IsNewest c o now s h n =
    let noticed = noted pool_released (some (now - s.held_since)) in
    if_rule (IsNewest c) (is_some s.cap && not (pressured o s now)) (release o now (emit noticed s))
      s (λ _. release-IsNewest c o now (emit noticed s) h (emit-IsNewest c noticed s refl n)) λ _. n

pub tick-IsNewest :
    (c : Option Json) (o : Options) (now : ℕ) (s : Coalescer)
    → holds_full s.held ≡ true
    → IsNewest c s
    → IsNewest c (tick o now s)
unfolding tick
tick-IsNewest c o now s h n =
    let closed = record s { window = none } in
    if_rule (IsNewest c) (not (is_some s.held)) closed
      (if pressured o closed now then hold o now closed else release o now closed) (λ _. n)
      λ _.
        if_rule (IsNewest c) (pressured o closed now) (hold o now closed) (release o now closed)
          (λ _. hold-IsNewest c o now closed n) λ _. release-IsNewest c o now closed h n

keep_unpassed-plain :
    (p : Queued → Bool) (qs : List Queued)
    → are_plain qs ≡ true
    → are_plain (keep_unpassed p qs) ≡ true
keep_unpassed-plain p [] h = refl
keep_unpassed-plain p (q ∷ qs) h = ground (arith, keep_unpassed-plain p qs, h)

reject_passed-IsNewest :
    (c : Option Json) (p : Queued → Bool) (qs : List Queued) (s : Coalescer)
    → IsNewest c s
    → IsNewest c (reject_passed p qs s)
reject_passed-IsNewest c p [] s n = n
reject_passed-IsNewest c p (q ∷ qs) s n =
    let answered = emit (rejected q.msg superseded) s in
    if_rule (IsNewest c) (p q) (reject_passed p qs answered) (reject_passed p qs s)
      (λ _.
        reject_passed-IsNewest c p qs answered
          (emit-IsNewest c (rejected q.msg superseded) s refl n))
      λ _. reject_passed-IsNewest c p qs s n

pub supersede-IsNewest :
    (c : Option Json) (uri : Option Json) (s : Coalescer)
    → IsNewest c s
    → IsNewest c (supersede uri s)
unfolding supersede
supersede-IsNewest c uri s n =
    let passed = is_passed s.change_seq uri in
    reject_passed-IsNewest c passed s.queue (record s { queue = keep_unpassed passed s.queue })
      (n.0, keep_unpassed-plain passed s.queue n.1)
