-- ===== src/Coalescer/Send.antt =====
-- `send`, `observe`, `settle` and `dispose` of lib/edit-coalescer.ts, and a session's use of them.
use qed.Common.{
  ℕ, ◌+◌, Bool, true, false, not, ◌&&◌, ◌||◌, Option, none, some, List, [], ◌∷◌, ◌++◌, ltb, ◌==◌,
  if◌then◌else◌,
}
use qed.Common.Lists.{any}
use qed.Common.Json.{Json, get, is_some}
use qed.FrontDoor.Machine.{is_request}
use qed.Liveness.Monitor.{same_id}
use qed.Coalescer.Frames.{
  is_full_text_change, uri_of, same_value, is_keep_alive, cancel_target, is_barrier,
  is_superseded_method, superseded, cancelled,
}
use qed.Coalescer.Machine.{
  Options, PoolSample, slot_waited, rejected, noted, Queued, Coalescer, sampled, pressured,
  slot_free, emit, forward, end_hold, schedule_recheck, remove_pending, admit, send_change, drain,
  flush_all, hold, release_drained, capped, tick, rechecked,
}

-- A queued request that the change passes and whose reply the client would rebase.
unfoldable pub is_passed : ℕ → Option Json → Queued → Bool
is_passed change_seq uri q =
    ltb q.seq change_seq
    && is_request q.msg
    && is_superseded_method q.msg
    && same_value (uri_of q.msg) uri

abbrev pub keep_unpassed : (Queued → Bool) → List Queued → List Queued
keep_unpassed p [] = []
keep_unpassed p (q ∷ qs) = let rest = keep_unpassed p qs in if p q then rest else q ∷ rest

abbrev pub reject_passed : (Queued → Bool) → List Queued → Coalescer → Coalescer
reject_passed p [] s = s
reject_passed p (q ∷ qs) s =
    let answered = reject_passed p qs (emit (rejected q.msg superseded) s) in
    let waiting = reject_passed p qs s in if p q then answered else waiting

-- The queue is pruned first, then the requests are answered.
unfoldable pub supersede : Option Json → Coalescer → Coalescer
supersede uri s =
    let passed = is_passed s.change_seq uri in
    reject_passed passed s.queue (record s { queue = keep_unpassed passed s.queue })

-- A change of another document goes first, with all that is queued.
abbrev pub clear_other : Options → ℕ → Option Json → Json → Coalescer → Coalescer
clear_other o now none msg s = s
clear_other o now (some h) msg s =
    if same_value (uri_of h) (uri_of msg) then s else flush_all o now s

-- A change, with none held.
abbrev pub first_change : Options → ℕ → Json → Coalescer → Coalescer
first_change o now msg s =
    if not (is_some s.window) && not (pressured o s now)
    then send_change o now msg s
    else if not (is_some s.window)
    then hold o now (record s { held = some msg })
    else record s { held = some msg }

abbrev pub take_change : Options → ℕ → Option Json → Json → Coalescer → Coalescer
take_change o now none msg s = first_change o now msg s
take_change o now (some h) msg s = record s { held = some msg }

unfoldable pub send_full : Options → ℕ → Json → Coalescer → Coalescer
send_full o now msg s =
    let cleared = clear_other o now s.held msg s in
    let counted = record cleared { change_seq = cleared.change_seq + 1 } in
    supersede (uri_of msg) (take_change o now counted.held msg counted)

abbrev pub put_back : Queued → Option (Json × List Queued) → Option (Json × List Queued)
put_back q none = none
put_back q (some r) = some (r.0, q ∷ r.1)

-- The queue without the first request of an id, and that request.
abbrev pub take_request : Json → List Queued → Option (Json × List Queued)
take_request id [] = none
take_request id (q ∷ qs) =
    let rest = take_request id qs in
    if is_request q.msg && same_value (get "id" q.msg) (some id)
    then some (q.msg, qs)
    else put_back q rest

abbrev pub cancel_taken : Json → Option (Json × List Queued) → Coalescer → Coalescer
cancel_taken msg none s = forward msg false s
cancel_taken msg (some (m, qs)) s = emit (rejected m cancelled) (record s { queue = qs })

abbrev pub is_waiting : List Queued → Bool
is_waiting [] = false
is_waiting (_ ∷ _) = true

-- A frame that is neither a change to be coalesced nor a cancel nor a barrier.
unfoldable pub send_other : Options → Json → Coalescer → Coalescer
send_other o msg s =
    let queued = record s { queue = s.queue ++ record { msg = msg; seq = s.change_seq } ∷ [] } in
    if is_some s.held
    then queued
    else if is_waiting s.queue || (is_request msg && not (slot_free o s))
    then (if is_request msg then emit (noted slot_waited none) queued else queued)
    else admit o msg s

abbrev pub send_barrier : Options → ℕ → Json → Bool → Coalescer → Coalescer
send_barrier o now msg replay s = forward msg replay (flush_all o now s)

-- `send` behind the branch of the coalesced changes, with the target of a cancel.
abbrev pub send_target : Options → ℕ → Option Json → Json → Bool → Coalescer → Coalescer
send_target o now (some id) msg replay s = cancel_taken msg (take_request id s.queue) s
send_target o now none msg replay s =
    if not replay && not (is_some s.held) && is_keep_alive msg
    then forward msg false s
    else if not replay && not (is_barrier msg)
    then send_other o msg s
    else send_barrier o now msg replay s

unfoldable pub send : Options → ℕ → Json → Bool → Coalescer → Coalescer
send o now msg replay s =
    if s.disposed
    then s
    else if not (o.ms == 0) && not replay && is_full_text_change msg
    then send_full o now msg s
    else send_target o now (if replay then none else cancel_target msg) msg replay s

-- A sample of the pool; anything without the two numbers counts as none.
unfoldable pub observe : Options → ℕ → Option PoolSample → Coalescer → Coalescer
observe o now sample s =
    let seen = record s { pool = sample } in
    let pressed = record seen { last_pressured_at = some now } in
    release_drained o now (
      if sampled o sample
      then (if is_some s.cap then schedule_recheck o now pressed else pressed)
      else seen)

unfoldable pub settle : Options → Json → Coalescer → Coalescer
settle o id s =
    if any (same_id id) s.pending
    then drain o (record s { pending = remove_pending id s.pending })
    else s

unfoldable pub dispose : Coalescer → Coalescer
dispose s = end_hold (record s { disposed = true; held = none; queue = []; window = none })

-- What happens to a coalescer: a call of the host, or a timer that is armed fires.
pub data Event : Type 0 where
  sent : Json → Bool → Event
  observed : Option PoolSample → Event
  settled : Json → Event
  window_fired cap_fired recheck_fired : Event

pub record Timed : Type 0 where
  pub at : ℕ
  pub event : Event

abbrev pub happen : Options → ℕ → Event → Coalescer → Coalescer
happen o now (sent msg replay) s = send o now msg replay s
happen o now (observed sample) s = observe o now sample s
happen o now (settled id) s = settle o id s
happen o now window_fired s = if is_some s.window then tick o now s else s
happen o now cap_fired s = if is_some s.cap then capped o now s else s
happen o now recheck_fired s = if is_some s.recheck then rechecked o now s else s

abbrev pub run : Options → Coalescer → List Timed → Coalescer
run o s [] = s
run o s (e ∷ es) = run o (happen o e.at e.event s) es

-- The frames that were sent, in order.
abbrev pub sent_in : Event → List Json
sent_in (sent msg replay) = msg ∷ []
sent_in _ = []

abbrev pub sent_of : List Timed → List Json
sent_of [] = []
sent_of (e ∷ es) = sent_in e.event ++ sent_of es
