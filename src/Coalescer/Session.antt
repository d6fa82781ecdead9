-- ===== src/Coalescer/Session.antt =====
-- The order of the notifications over a whole session of lib/edit-coalescer.ts.
use qed.Common.{
  ℕ, ◌+◌, ◌≡◌, refl, sym, ap, ◌∙◌, true, false, not, ◌&&◌, Option, none, some, List, [], ◌∷◌, ◌++◌,
  append-nil, arith, ◌==◌, if◌then◌else◌, if_rule,
}
use qed.Common.Json.{Json, get, is_some}
use qed.FrontDoor.Machine.{is_request}
use qed.Coalescer.Frames.{is_full_text_change, uri_of, same_value, cancelled}
use qed.Coalescer.Machine.{
  Options, Queued, Coalescer, pressured, forward, end_hold, add_pending, admit, send_change,
  send_held, admit_all, flush_all, hold,
}
use qed.Coalescer.Send.{clear_other, take_change, send_full, put_back, take_request, cancel_taken}
use qed.Coalescer.Order.{
  filter, msgs_of, is_ordered, gone, waiting, stream, one, forward-gone, admit-gone, one-cons,
  request-one, full-one, holds_full, send_change-stream, rejected-stream,
}
use qed.Coalescer.Fifo.{flush_all-stream, hold-stream, supersede-stream}
use qed.Coalescer.Held.{is_sound}

admit-queue : (o : Options) (m : Json) (s : Coalescer) → waiting (admit o m s) ≡ waiting s
unfolding admit
admit-queue o m s =
    if_rule (λ t. waiting t ≡ waiting s) (not (o.max_in_flight == 0) && is_request m)
      (forward m false (record s { pending = add_pending (get "id" m) s.pending }))
      (forward m false s) (λ _. refl) λ _. refl

pub admit-stream :
    (o : Options) (m : Json) (s : Coalescer)
    → waiting s ≡ []
    → stream (admit o m s) ≡ stream s ++ one m
admit-stream o m s e =
    ap (λ w. gone (admit o m s) ++ w) (admit-queue o m s ∙ e)
    ∙ append-nil (gone (admit o m s))
    ∙ admit-gone o m s
    ∙ ap (λ g. g ++ one m) (sym (append-nil (gone s)) ∙ ap (λ w. gone s ++ w) (sym e))

admit_all-queue :
    (o : Options) (xs : List Queued) (s : Coalescer) → waiting (admit_all o xs s) ≡ waiting s
admit_all-queue o [] s = refl
admit_all-queue o (x ∷ xs) s = admit_all-queue o xs (admit o x.msg s) ∙ admit-queue o x.msg s

pub flush_all-queue : (o : Options) (now : ℕ) (s : Coalescer) → waiting (flush_all o now s) ≡ []
unfolding flush_all
flush_all-queue o now s =
    admit_all-queue o s.queue (record (send_held o now s.held (end_hold s)) { queue = [] })

pub sound-held : (s : Coalescer) → is_sound s ≡ true → holds_full s.held ≡ true
sound-held s h = ground (arith, h)

flush_all-whole :
    (o : Options) (now : ℕ) (s : Coalescer)
    → holds_full s.held ≡ true
    → stream (flush_all o now s) ≡ stream s
flush_all-whole o now s h =
    ap (λ w. gone (flush_all o now s) ++ w) (flush_all-queue o now s)
    ∙ append-nil (gone (flush_all o now s))
    ∙ flush_all-stream o now s h

clear_other-stream :
    (o : Options) (now : ℕ) (held : Option Json) (msg : Json) (s : Coalescer)
    → holds_full s.held ≡ true
    → stream (clear_other o now held msg s) ≡ stream s
clear_other-stream o now none msg s h = refl
clear_other-stream o now (some m) msg s h =
    if_rule (λ t. stream t ≡ stream s) (same_value (uri_of m) (uri_of msg)) s (flush_all o now s)
      (λ _. refl) λ _. flush_all-whole o now s h

take_change-stream :
    (o : Options) (now : ℕ) (held : Option Json) (msg : Json) (s : Coalescer)
    → is_full_text_change msg ≡ true
    → stream (take_change o now held msg s) ≡ stream s
take_change-stream o now none msg s f =
    let taken = record s { held = some msg } in
    if_rule (λ t. stream t ≡ stream s) (not (is_some s.window) && not (pressured o s now))
      (send_change o now msg s) (if not (is_some s.window) then hold o now taken else taken)
      (λ _. send_change-stream o now msg s f)
      λ _.
        if_rule (λ t. stream t ≡ stream s) (not (is_some s.window)) (hold o now taken) taken
          (λ _. hold-stream o now taken) λ _. refl
take_change-stream o now (some m) msg s f = refl

-- A coalesced change is no part of the stream.
pub send_full-stream :
    (o : Options) (now : ℕ) (msg : Json) (s : Coalescer)
    → is_full_text_change msg ≡ true
    → holds_full s.held ≡ true
    → stream (send_full o now msg s) ≡ stream s ++ one msg
unfolding send_full
send_full-stream o now msg s f h =
    let cleared = clear_other o now s.held msg s in
    let counted = record cleared { change_seq = cleared.change_seq + 1 } in
    supersede-stream (uri_of msg) (take_change o now counted.held msg counted)
    ∙ take_change-stream o now counted.held msg counted f
    ∙ clear_other-stream o now s.held msg s h
    ∙ sym (append-nil (stream s))
    ∙ ap (λ l. stream s ++ l) (sym (full-one msg f))

-- The queue without a request has the same notifications.
pub IsWhole : List Queued → Option (Json × List Queued) → Type 0
IsWhole qs none = Unit
IsWhole qs (some r) = filter is_ordered (msgs_of r.1) ≡ filter is_ordered (msgs_of qs)

put_back-IsWhole :
    (q : Queued) (qs : List Queued) (r : Option (Json × List Queued))
    → IsWhole qs r
    → IsWhole (q ∷ qs) (put_back q r)
unfolding IsWhole
put_back-IsWhole q qs none h = h
put_back-IsWhole q qs (some r) h =
    sym (one-cons q.msg (msgs_of r.1)) ∙ ap (λ l. one q.msg ++ l) h ∙ one-cons q.msg (msgs_of qs)

pub take_request-IsWhole : (id : Json) (qs : List Queued) → IsWhole qs (take_request id qs)
unfolding IsWhole
take_request-IsWhole id [] = tt
take_request-IsWhole id (q ∷ qs) =
    if_rule (λ (r : Option (Json × List Queued)). IsWhole (q ∷ qs) r)
      (is_request q.msg && same_value (get "id" q.msg) (some id)) (some (q.msg, qs))
      (put_back q (take_request id qs))
      (λ c.
        ap (λ l. l ++ filter is_ordered (msgs_of qs)) (sym (request-one q.msg (ground (arith, c))))
        ∙ one-cons q.msg (msgs_of qs))
      λ _. put_back-IsWhole q qs (take_request id qs) (take_request-IsWhole id qs)

pub cancel_taken-stream :
    (msg : Json) (r : Option (Json × List Queued)) (s : Coalescer)
    → one msg ≡ []
    → IsWhole s.queue r
    → stream (cancel_taken msg r s) ≡ stream s
unfolding IsWhole
cancel_taken-stream msg none s c h =
    ap (λ g. g ++ waiting s)
      (forward-gone msg false s ∙ ap (λ l. gone s ++ l) c ∙ append-nil (gone s))
cancel_taken-stream msg (some (m, qs)) s c h =
    rejected-stream m cancelled (record s { queue = qs }) ∙ ap (λ l. gone s ++ l) h
