-- ===== src/Coalescer/Fifo.antt =====
-- The order of the notifications, over `send`, `observe`, `settle` and the timers of
-- lib/edit-coalescer.ts.
use qed.Common.{
  ℕ, ◌+◌, ◌-◌, ◌≡◌, refl, sym, ap, ◌∙◌, Bool, true, false, not, ◌&&◌, Option, none, some, List, [],
  ◌∷◌, ◌++◌, append-nil, arith, if◌then◌else◌, if_rule,
}
use qed.Common.Json.{Json, is_some}
use qed.FrontDoor.Machine.{is_request}
use qed.Coalescer.Frames.{superseded}
use qed.Coalescer.Machine.{
  Options, hold_began, pool_released, hold_capped, rejected, noted, Queued, Coalescer, sampled,
  pressured, emit, end_hold, schedule_recheck, send_change, send_held, release, flush_all, hold,
  release_drained, capped, tick,
}
use qed.Coalescer.Send.{is_passed, keep_unpassed, reject_passed, supersede}
use qed.Coalescer.Order.{
  filter, msgs_of, is_ordered, gone, waiting, stream, one, forward-gone, one-cons, request-one,
  full-one, admit_all-gone, holds_full, release-stream, noted-stream, rejected-stream,
}

pub send_held-gone :
    (o : Options) (now : ℕ) (h : Option Json) (s : Coalescer)
    → holds_full h ≡ true
    → gone (send_held o now h s) ≡ gone s
unfolding send_change
send_held-gone o now none s k = refl
send_held-gone o now (some m) s k =
    forward-gone m false (record s { held = none; window = some (now + o.ms) })
    ∙ ap (λ l. gone s ++ l) (full-one m k)
    ∙ append-nil (gone s)

pub flush_all-stream :
    (o : Options) (now : ℕ) (s : Coalescer)
    → holds_full s.held ≡ true
    → gone (flush_all o now s) ≡ stream s
unfolding flush_all
flush_all-stream o now s h =
    admit_all-gone o s.queue (record (send_held o now s.held (end_hold s)) { queue = [] })
    ∙ ap (λ g. g ++ waiting s) (send_held-gone o now s.held (end_hold s) h)

pub hold-stream : (o : Options) (now : ℕ) (s : Coalescer) → stream (hold o now s) ≡ stream s
unfolding hold
hold-stream o now s =
    let armed = record s { held_since = now; cap = some (now + o.max_hold) } in
    noted-stream hold_began none (if sampled o s.pool then armed else schedule_recheck o now armed)
    ∙ if_rule (λ t. stream t ≡ stream s) (sampled o s.pool) armed (schedule_recheck o now armed)
        (λ _. refl) λ _. refl

pub capped-stream :
    (o : Options) (now : ℕ) (s : Coalescer)
    → holds_full s.held ≡ true
    → stream (capped o now s) ≡ stream s
unfolding capped
capped-stream o now s h =
    let noticed = emit (noted hold_capped (some (now - s.held_since))) (record s { cap = none }) in
    release-stream o now noticed h
    ∙ noted-stream hold_capped (some (now - s.held_since)) (record s { cap = none })

pub release_drained-stream :
    (o : Options) (now : ℕ) (s : Coalescer)
    → holds_full s.held ≡ true
    → stream (release_drained o now s) ≡ stream s
release_drained-stream o now s h =
    let noticed = emit (noted pool_released (some (now - s.held_since))) s in
    if_rule (λ t. stream t ≡ stream s) (is_some s.cap && not (pressured o s now))
      (release o now noticed) s
      (λ _.
        release-stream o now noticed h ∙ noted-stream pool_released (some (now - s.held_since)) s)
      λ _. refl

pub tick-stream :
    (o : Options) (now : ℕ) (s : Coalescer)
    → holds_full s.held ≡ true
    → stream (tick o now s) ≡ stream s
unfolding tick
tick-stream o now s h =
    let closed = record s { window = none } in
    if_rule (λ t. stream t ≡ stream s) (not (is_some s.held)) closed
      (if pressured o closed now then hold o now closed else release o now closed) (λ _. refl)
      λ _.
        if_rule (λ t. stream t ≡ stream s) (pressured o closed now) (hold o now closed)
          (release o now closed) (λ _. hold-stream o now closed) λ _. release-stream o now closed h

passed-request :
    (n : ℕ) (uri : Option Json) (q : Queued) → is_passed n uri q ≡ true → is_request q.msg ≡ true
unfolding is_passed
passed-request n uri q h = ground (arith, h)

-- The passed requests are no notifications.
keep_unpassed-filter :
    (n : ℕ) (uri : Option Json) (qs : List Queued)
    → filter is_ordered (msgs_of (keep_unpassed (is_passed n uri) qs))
      ≡ filter is_ordered (msgs_of qs)
keep_unpassed-filter n uri [] = refl
keep_unpassed-filter n uri (q ∷ qs) =
    let rest = keep_unpassed (is_passed n uri) qs in
    if_rule (λ l. filter is_ordered (msgs_of l) ≡ filter is_ordered (msgs_of (q ∷ qs)))
      (is_passed n uri q) rest (q ∷ rest)
      (λ h.
        keep_unpassed-filter n uri qs
        ∙ ap (λ l. l ++ filter is_ordered (msgs_of qs))
            (sym (request-one q.msg (passed-request n uri q h)))
        ∙ one-cons q.msg (msgs_of qs))
      λ _.
        sym (one-cons q.msg (msgs_of rest))
        ∙ ap (λ l. one q.msg ++ l) (keep_unpassed-filter n uri qs)
        ∙ one-cons q.msg (msgs_of qs)

reject_passed-stream :
    (p : Queued → Bool) (qs : List Queued) (s : Coalescer)
    → stream (reject_passed p qs s) ≡ stream s
reject_passed-stream p [] s = refl
reject_passed-stream p (q ∷ qs) s =
    if_rule (λ t. stream t ≡ stream s) (p q)
      (reject_passed p qs (emit (rejected q.msg superseded) s)) (reject_passed p qs s)
      (λ _.
        reject_passed-stream p qs (emit (rejected q.msg superseded) s)
        ∙ rejected-stream q.msg superseded s)
      λ _. reject_passed-stream p qs s

pub supersede-stream : (uri : Option Json) (s : Coalescer) → stream (supersede uri s) ≡ stream s
unfolding supersede
supersede-stream uri s =
    let passed = is_passed s.change_seq uri in
    reject_passed-stream passed s.queue (record s { queue = keep_unpassed passed s.queue })
    ∙ ap (λ l. gone s ++ l) (keep_unpassed-filter s.change_seq uri s.queue)
