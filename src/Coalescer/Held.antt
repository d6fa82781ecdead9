-- ===== src/Coalescer/Held.antt =====
-- The held frame and the end of the session over the functions of lib/edit-coalescer.ts.
use qed.Common.{
  ℕ, ◌+◌, ◌-◌, ◌≡◌, refl, ap, ◌∙◌, Bool, true, false, not, ◌&&◌, Option, none, some, List, [], ◌∷◌,
  ◌++◌, arith, ◌==◌, if◌then◌else◌, if_rule,
}
use qed.Common.Json.{Json, get, is_some}
use qed.FrontDoor.Machine.{is_request}
use qed.Coalescer.Frames.{is_full_text_change, uri_of, same_value, is_keep_alive, superseded}
use qed.Coalescer.Machine.{
  Options, hold_began, pool_released, hold_capped, rejected, noted, Queued, Coalescer, sampled,
  pressured, slot_free, emit, forward, end_hold, schedule_recheck, add_pending, admit, send_change,
  keep_alives, drain_on, drain, send_held, release, admit_all, flush_all, hold, release_drained,
  capped, tick,
}
use qed.Coalescer.Send.{
  is_passed, keep_unpassed, reject_passed, supersede, clear_other, take_change, send_full,
}
use qed.Coalescer.Order.{holds_full}

abbrev pub kept : Coalescer → Option Json × Bool
kept s = (s.held, s.disposed)

abbrev pub sound_of : Option Json × Bool → Bool
sound_of k = holds_full k.0 && not k.1

-- What is held is a change, and the session goes on.
abbrev pub is_sound : Coalescer → Bool
is_sound s = sound_of (kept s)

pub admit-kept : (o : Options) (m : Json) (s : Coalescer) → kept (admit o m s) ≡ kept s
unfolding admit
admit-kept o m s =
    if_rule (λ t. kept t ≡ kept s) (not (o.max_in_flight == 0) && is_request m)
      (forward m false (record s { pending = add_pending (get "id" m) s.pending }))
      (forward m false s) (λ _. refl) λ _. refl

pub keep_alives-kept : (xs : List Queued) (s : Coalescer) → kept (keep_alives xs s) ≡ kept s
keep_alives-kept [] s = refl
keep_alives-kept (x ∷ xs) s =
    let put = record s { queue = s.queue ++ x ∷ [] } in
    if_rule (λ t. kept t ≡ kept s) (is_keep_alive x.msg) (keep_alives xs (forward x.msg false s))
      (keep_alives xs put) (λ _. keep_alives-kept xs (forward x.msg false s))
      λ _. keep_alives-kept xs put

drain_on-kept : (o : Options) (xs : List Queued) (s : Coalescer) → kept (drain_on o xs s) ≡ kept s
drain_on-kept o [] s = refl
drain_on-kept o (x ∷ xs) s =
    let stopped = record s { queue = x ∷ [] } in
    if_rule (λ t. kept t ≡ kept s) (is_request x.msg && not (slot_free o s))
      (keep_alives xs stopped) (drain_on o xs (admit o x.msg s)) (λ _. keep_alives-kept xs stopped)
      λ _. drain_on-kept o xs (admit o x.msg s) ∙ admit-kept o x.msg s

pub drain-kept : (o : Options) (s : Coalescer) → kept (drain o s) ≡ kept s
unfolding drain
drain-kept o s =
    if_rule (λ t. kept t ≡ kept s) (is_some s.held) s (drain_on o s.queue s) (λ _. refl)
      λ _. drain_on-kept o s.queue s

pub send_held-kept :
    (o : Options) (now : ℕ) (h : Option Json) (s : Coalescer)
    → s.held ≡ h
    → kept (send_held o now h s) ≡ (none, s.disposed)
unfolding send_change
send_held-kept o now none s e = ap (λ x. (x, s.disposed)) e
send_held-kept o now (some m) s e = refl

pub release-kept :
    (o : Options) (now : ℕ) (s : Coalescer) → kept (release o now s) ≡ (none, s.disposed)
unfolding release
release-kept o now s =
    drain-kept o (send_held o now s.held (end_hold s))
    ∙ send_held-kept o now s.held (end_hold s) refl

pub admit_all-kept :
    (o : Options) (xs : List Queued) (s : Coalescer) → kept (admit_all o xs s) ≡ kept s
admit_all-kept o [] s = refl
admit_all-kept o (x ∷ xs) s = admit_all-kept o xs (admit o x.msg s) ∙ admit-kept o x.msg s

pub flush_all-kept :
    (o : Options) (now : ℕ) (s : Coalescer) → kept (flush_all o now s) ≡ (none, s.disposed)
unfolding flush_all
flush_all-kept o now s =
    admit_all-kept o s.queue (record (send_held o now s.held (end_hold s)) { queue = [] })
    ∙ send_held-kept o now s.held (end_hold s) refl

pub hold-kept : (o : Options) (now : ℕ) (s : Coalescer) → kept (hold o now s) ≡ kept s
unfolding hold
hold-kept o now s =
    let armed = record s { held_since = now; cap = some (now + o.max_hold) } in
    if_rule (λ t. kept (emit (noted hold_began none) t) ≡ kept s) (sampled o s.pool) armed
      (schedule_recheck o now armed) (λ _. refl) λ _. refl

reject_passed-kept :
    (p : Queued → Bool) (qs : List Queued) (s : Coalescer) → kept (reject_passed p qs s) ≡ kept s
reject_passed-kept p [] s = refl
reject_passed-kept p (q ∷ qs) s =
    let answered = emit (rejected q.msg superseded) s in
    if_rule (λ t. kept t ≡ kept s) (p q) (reject_passed p qs answered) (reject_passed p qs s)
      (λ _. reject_passed-kept p qs answered) λ _. reject_passed-kept p qs s

supersede-kept : (uri : Option Json) (s : Coalescer) → kept (supersede uri s) ≡ kept s
unfolding supersede
supersede-kept uri s =
    let passed = is_passed s.change_seq uri in
    reject_passed-kept passed s.queue (record s { queue = keep_unpassed passed s.queue })

-- What follows a release or a flush goes on with nothing held.
pub emptied :
    (k : Option Json × Bool) (s : Coalescer)
    → k ≡ (none, s.disposed)
    → is_sound s ≡ true
    → sound_of k ≡ true
emptied k s e h = ap sound_of e ∙ ground (arith, h)

pub capped-IsSound :
    (o : Options) (now : ℕ) (s : Coalescer) → is_sound s ≡ true → is_sound (capped o now s) ≡ true
unfolding capped
capped-IsSound o now s h =
    emptied _ s
      (release-kept o now
        (emit (noted hold_capped (some (now - s.held_since))) (record s { cap = none })))
      h

pub release_drained-IsSound :
    (o : Options) (now : ℕ) (s : Coalescer)
    → is_sound s ≡ true
    → is_sound (release_drained o now s) ≡ true
release_drained-IsSound o now s h =
    let noticed = emit (noted pool_released (some (now - s.held_since))) s in
    if_rule (λ t. is_sound t ≡ true) (is_some s.cap && not (pressured o s now))
      (release o now noticed) s (λ _. emptied _ s (release-kept o now noticed) h) λ _. h

pub tick-IsSound :
    (o : Options) (now : ℕ) (s : Coalescer) → is_sound s ≡ true → is_sound (tick o now s) ≡ true
unfolding tick
tick-IsSound o now s h =
    let closed = record s { window = none } in
    if_rule (λ t. is_sound t ≡ true) (not (is_some s.held)) closed
      (if pressured o closed now then hold o now closed else release o now closed) (λ _. h)
      λ _.
        if_rule (λ t. is_sound t ≡ true) (pressured o closed now) (hold o now closed)
          (release o now closed) (λ _. ap sound_of (hold-kept o now closed) ∙ h)
          λ _. emptied _ s (release-kept o now closed) h

-- The other document's change, when one is held, is gone before the new one is taken.
pub clear_other-IsSound :
    (o : Options) (now : ℕ) (held : Option Json) (msg : Json) (s : Coalescer)
    → is_sound s ≡ true
    → is_sound (clear_other o now held msg s) ≡ true
clear_other-IsSound o now none msg s h = h
clear_other-IsSound o now (some m) msg s h =
    if_rule (λ t. is_sound t ≡ true) (same_value (uri_of m) (uri_of msg)) s (flush_all o now s)
      (λ _. h) λ _. emptied _ s (flush_all-kept o now s) h

-- A full-text change is taken: at once, or held.
pub take_change-IsSound :
    (o : Options) (now : ℕ) (held : Option Json) (msg : Json) (s : Coalescer)
    → is_full_text_change msg ≡ true
    → is_sound s ≡ true
    → is_sound (take_change o now held msg s) ≡ true
unfolding send_change
take_change-IsSound o now none msg s f h =
    let taken = record s { held = some msg } in
    if_rule (λ t. is_sound t ≡ true) (not (is_some s.window) && not (pressured o s now))
      (send_change o now msg s) (if not (is_some s.window) then hold o now taken else taken)
      (λ _. h)
      λ _.
        if_rule (λ t. is_sound t ≡ true) (not (is_some s.window)) (hold o now taken) taken
          (λ _. ap sound_of (hold-kept o now taken) ∙ ground (arith, f, h))
          λ _. ground (arith, f, h)
take_change-IsSound o now (some m) msg s f h = ground (arith, f, h)

pub send_full-IsSound :
    (o : Options) (now : ℕ) (msg : Json) (s : Coalescer)
    → is_full_text_change msg ≡ true
    → is_sound s ≡ true
    → is_sound (send_full o now msg s) ≡ true
unfolding send_full
send_full-IsSound o now msg s f h =
    let cleared = clear_other o now s.held msg s in
    let counted = record cleared { change_seq = cleared.change_seq + 1 } in
    ap sound_of (supersede-kept (uri_of msg) (take_change o now counted.held msg counted))
    ∙ take_change-IsSound o now counted.held msg counted f
        (clear_other-IsSound o now s.held msg s h)
