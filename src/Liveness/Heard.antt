-- ===== src/Liveness/Heard.antt =====
-- When the monitor of public/workers/lean.worker.js last heard of the FileWorker.
use Prim.Native.String.{String}
use qed.Common.{
  ℕ, ◌+◌, ◌-◌, ◌≡◌, refl, ap, subst, ◌∙◌, ==_iff, Bool, true, false, not, ◌&&◌, Option, none, some,
  List, [], ◌∷◌, ltb, leb, ◌==◌, arith, if◌then◌else◌, if_rule,
}
use qed.Common.Json.{Json, get, is_text, text_of, is_some}
use qed.FrontDoor.Step.{StatusPhase}
use qed.Edge.Keys.{starts_with}
use qed.Liveness.Monitor.{
  client_request, server_frame, resumed, answered, tick, tick_owed, tick_probe, owed, Verdict,
  quiet, dead, mailbox_tick, mailbox_confirm, Mail, tracked, answered_text, probe_answered,
  send_probe, stalled, later, delete_pending, mailbox_unwatched, confirm_watch, is_pending,
  watch_it, kick,
}
use qed.Liveness.Types.{Monitor, Probe, probe_prefix, Watch}
use qed.Liveness.Silence.{
  Event, requested, framed, ticked, mail_ticked, mail_confirmed, Timed, happen, run, unexpired,
}

-- The time of the last frame, or of the beginning.
abbrev pub heard_at : ℕ → ℕ → Event → ℕ
heard_at last at (framed msg) = at
heard_at last at _ = last

abbrev pub heard : ℕ → List Timed → ℕ
heard start [] = start
heard start (e ∷ es) = heard (heard_at start e.at e.event) es

resumed-heard : (m : Monitor) (now : ℕ) → (resumed m now).last_frame_at ≡ now
resumed-heard m now =
    if_rule (λ (x : Monitor). x.last_frame_at ≡ now) (m.stalled_at == 0)
      (record m { last_frame_at = now })
      (record m {
        last_frame_at = now;
        stalled_at = 0;
        counters = record m.counters { resumed = m.counters.resumed + 1 };
      })
      (λ _. refl) λ _. refl

answered-heard :
    (id method : Option Json) (m : Monitor)
    → (answered id method m).0.last_frame_at ≡ m.last_frame_at
answered-heard none method m = refl
answered-heard (some id) (some method) m = refl
answered-heard (some id) none m =
    by_text (text_of (some id)) (record m { outstanding = delete_pending id m.outstanding })
  where
    by_text :
        (t : Option String) (n : Monitor) → (answered_text t n).0.last_frame_at ≡ n.last_frame_at
    by_text none n = refl
    by_text (some t) n =
        if_rule (λ (x : Monitor × Bool). x.0.last_frame_at ≡ n.last_frame_at)
          (starts_with probe_prefix t) (probe_answered n t, true) (n, false) (λ _. refl) λ _. refl

request-heard :
    (m : Monitor) (msg : Json) (now : ℕ)
    → (client_request m msg now).last_frame_at ≡ m.last_frame_at
unfolding client_request
request-heard m msg now =
    if_rule (λ (x : Monitor). x.last_frame_at ≡ m.last_frame_at)
      (is_some (text_of (get "method" msg)) && not (is_text (get "method" msg) "initialize"))
      (tracked (get "id" msg) now m) m (λ _. by_id (get "id" msg)) λ _. refl
  where
    by_id : (id : Option Json) → (tracked id now m).last_frame_at ≡ m.last_frame_at
    by_id none = refl
    by_id (some id) = refl

tick_probe-heard :
    (o : Option Probe) (m : Monitor) (now : ℕ)
    → (tick_probe o m now).0.last_frame_at ≡ m.last_frame_at
tick_probe-heard none m now =
    if_rule (λ (x : Monitor × Verdict). x.0.last_frame_at ≡ m.last_frame_at)
      (ltb (now - m.last_frame_at) m.cfg.probe_after_ms) (m, quiet) (send_probe m now) (λ _. refl)
      λ _. refl
tick_probe-heard (some p) m now =
    if_rule (λ (x : Monitor × Verdict). x.0.last_frame_at ≡ m.last_frame_at)
      (leb m.cfg.wedge_after_ms (now - later p.sent_at m.last_frame_at)) (stalled m now) (m, quiet)
      (λ _. refl) λ _. refl

-- What a tick that gives the worker up reports.
abbrev is_silence : ℕ → Verdict → Bool
is_silence silent (dead reported) = reported == silent
is_silence silent _ = true

abbrev IsTick : Monitor → ℕ → Monitor × Verdict → Type 0
IsTick m now x =
    (x.0.last_frame_at ≡ m.last_frame_at) × (is_silence (now - m.last_frame_at) x.1 ≡ true)

tick_probe-quiet :
    (o : Option Probe) (m : Monitor) (now silent : ℕ)
    → is_silence silent (tick_probe o m now).1 ≡ true
tick_probe-quiet none m now silent =
    if_rule (λ (x : Monitor × Verdict). is_silence silent x.1 ≡ true)
      (ltb (now - m.last_frame_at) m.cfg.probe_after_ms) (m, quiet) (send_probe m now) (λ _. refl)
      λ _. refl
tick_probe-quiet (some p) m now silent =
    if_rule (λ (x : Monitor × Verdict). is_silence silent x.1 ≡ true)
      (leb m.cfg.wedge_after_ms (now - later p.sent_at m.last_frame_at)) (stalled m now) (m, quiet)
      (λ _. refl) λ _. refl

tick_owed-IsTick : (m : Monitor) (now : ℕ) → IsTick m now (tick_owed m now)
tick_owed-IsTick m now =
    if_rule (IsTick m now) (m.stalled_at == 0) (tick_probe m.probe m now)
      (m, if leb m.cfg.grace_ms (now - m.stalled_at) then dead (now - m.last_frame_at) else quiet)
      (λ _.
        (tick_probe-heard m.probe m now, tick_probe-quiet m.probe m now (now - m.last_frame_at)))
      λ _. (refl, ground arith)

tick-IsTick :
    (m : Monitor) (now : ℕ) (phase : StatusPhase) (doc_open : Bool)
    → IsTick m now (tick m now phase doc_open)
unfolding tick
tick-IsTick m now phase doc_open =
    if_rule (IsTick m now) (owed (unexpired m now) phase doc_open) (tick_owed (unexpired m now) now)
      (unexpired m now, quiet) (λ _. tick_owed-IsTick (unexpired m now) now) λ _. (refl, refl)

-- A tick that gives the worker up reports the time since the last frame.
pub tick-silent :
    (m : Monitor) (now : ℕ) (phase : StatusPhase) (doc_open : Bool) (silent : ℕ)
    → (tick m now phase doc_open).1 ≡ dead silent
    → silent ≡ now - m.last_frame_at
tick-silent m now phase doc_open silent e = (==_iff silent (now - m.last_frame_at)).0 (
    subst (λ v. is_silence (now - m.last_frame_at) v ≡ true) e (tick-IsTick m now phase doc_open).1)

mail_ticked-heard :
    (w : Option Watch) (m : Monitor) (word : Option ℕ) (notified now : ℕ)
    → (mailbox_unwatched w m word notified now).0.last_frame_at ≡ m.last_frame_at
mail_ticked-heard (some w) m word notified now = refl
mail_ticked-heard none m word notified now =
    if_rule (λ (x : Monitor × Mail). x.0.last_frame_at ≡ m.last_frame_at) (is_pending word)
      (record m { watch = some (record { at = now; notified = notified }) }, watch_it) (m, kick)
      (λ _. refl) λ _. refl

confirmed-heard :
    (w : Option Watch) (m : Monitor) (word : Option ℕ) (notified now : ℕ)
    → (confirm_watch w m word notified now).0.last_frame_at ≡ m.last_frame_at
confirmed-heard none m word notified now = refl
confirmed-heard (some w) m word notified now = ground arith

happen-heard :
    (m : Monitor) (now : ℕ) (e : Event)
    → (happen m now e).last_frame_at ≡ heard_at m.last_frame_at now e
unfolding server_frame mailbox_tick mailbox_confirm
happen-heard m now (requested msg) = request-heard m msg now
happen-heard m now (framed msg) =
    answered-heard (get "id" msg) (get "method" msg) (resumed m now) ∙ resumed-heard m now
happen-heard m now (ticked phase doc_open) = (tick-IsTick m now phase doc_open).0
happen-heard m now (mail_ticked word notified) = mail_ticked-heard m.watch m word notified now
happen-heard m now (mail_confirmed word notified) =
    confirmed-heard m.watch (record m { watch = none }) word notified now

pub run-heard :
    (es : List Timed) (m : Monitor) → (run m es).last_frame_at ≡ heard m.last_frame_at es
run-heard [] m = refl
run-heard (e ∷ es) m =
    run-heard es (happen m e.at e.event) ∙ ap (λ l. heard l es) (happen-heard m e.at e.event)
