-- ===== src/Liveness/Silence.antt =====
-- The stall and the last frame in the monitor of public/workers/lean.worker.js, through its events.
use qed.Common.{
  ℕ, ◌+◌, ◌-◌, ◌≤◌, ◌≡◌, ◌≢◌, refl, ◌∙◌, subst, Bool, true, false, not, ◌&&◌, Option, none, some,
  List, [], ◌∷◌, ltb, leb, ◌==◌, ==_iff, arith, if◌then◌else◌, if_rule,
}
use qed.Common.Json.{Json, get, is_text, text_of, is_some}
use qed.FrontDoor.Step.{StatusPhase}
use qed.Liveness.Monitor.{
  client_request, server_frame, resumed, answered, tick, tick_owed, tick_probe, expire, owed,
  Verdict, quiet, dead, mailbox_tick, mailbox_confirm, Mail, tracked, answered_text, probe_answered,
  send_probe, stalled, later, delete_pending, mailbox_unwatched, confirm_watch, is_pending,
  watch_it, kick,
}
use qed.Liveness.Types.{Config, Monitor, Probe, probe_prefix, Watch}
use qed.Edge.Keys.{starts_with}
use Prim.Native.String.{String}

-- A stall began only after the silence that is wanted.
abbrev pub IsTimed : Monitor → Type 0
IsTimed m = (m.stalled_at ≢ 0) → m.last_frame_at + m.cfg.wedge_after_ms ≤ m.stalled_at

-- What happens to a monitor: a forwarded request, a frame of the FileWorker, a tick, and the two
-- decisions about the mailbox.
pub data Event : Type 0 where
  requested : Json → Event
  framed : Json → Event
  ticked : StatusPhase → Bool → Event
  mail_ticked : Option ℕ → ℕ → Event
  mail_confirmed : Option ℕ → ℕ → Event

pub record Timed : Type 0 where
  pub at : ℕ
  pub event : Event

abbrev pub happen : Monitor → ℕ → Event → Monitor
happen m now (requested msg) = client_request m msg now
happen m now (framed msg) = (server_frame m msg now).monitor
happen m now (ticked phase doc_open) = (tick m now phase doc_open).0
happen m now (mail_ticked word notified) = (mailbox_tick m word notified now).0
happen m now (mail_confirmed word notified) = (mailbox_confirm m word notified now).0

abbrev pub run : Monitor → List Timed → Monitor
run m [] = m
run m (e ∷ es) = run (happen m e.at e.event) es

-- The requests that were forgotten are taken out.
abbrev pub unexpired : Monitor → ℕ → Monitor
unexpired m now = record m { outstanding = expire m.cfg.request_ttl_ms now m.outstanding }

-- The options stay, and a stall is timed.
pub record IsKept (cfg : Config) (m : Monitor) : Type 0 where
  pub config : m.cfg ≡ cfg
  pub timed : (m.stalled_at ≢ 0) → m.last_frame_at + cfg.wedge_after_ms ≤ m.stalled_at

module _ (cfg : Config) (positive : 1 ≤ cfg.wedge_after_ms) where
  -- What is not of the stall can be changed at will.
  same-IsKept :
      (m m' : Monitor)
      → m'.cfg ≡ m.cfg
      → m'.last_frame_at ≡ m.last_frame_at
      → m'.stalled_at ≡ m.stalled_at
      → IsKept cfg m
      → IsKept cfg m'
  same-IsKept m m' c l s k = record {
    config = c ∙ k.config;
    timed = λ ne. rw (l, s) (k.timed λ z. ne (s ∙ z));
  }

  client_request-IsKept :
      (m : Monitor) (msg : Json) (now : ℕ) → IsKept cfg m → IsKept cfg (client_request m msg now)
  unfolding client_request
  client_request-IsKept m msg now k =
      if_rule (IsKept cfg)
        (is_some (text_of (get "method" msg)) && not (is_text (get "method" msg) "initialize"))
        (tracked (get "id" msg) now m) m (λ _. tracked-IsKept (get "id" msg)) λ _. k
    where
      tracked-IsKept : (id : Option Json) → IsKept cfg (tracked id now m)
      tracked-IsKept none = k
      tracked-IsKept (some id) = same-IsKept m (tracked (some id) now m) refl refl refl k

  resumed-IsKept : (m : Monitor) (now : ℕ) → IsKept cfg m → IsKept cfg (resumed m now)
  resumed-IsKept m now k =
      if_rule (IsKept cfg) (m.stalled_at == 0) (record m { last_frame_at = now })
        (record m {
          last_frame_at = now;
          stalled_at = 0;
          counters = record m.counters { resumed = m.counters.resumed + 1 };
        })
        (λ e. record { config = k.config; timed = λ ne. absurd (ne ((==_iff m.stalled_at 0).0 e)) })
        λ _. record { config = k.config; timed = λ ne. absurd (ne refl) }

  text-IsKept :
      (id : Option String) (m : Monitor) → IsKept cfg m → IsKept cfg (answered_text id m).0
  text-IsKept none m k = k
  text-IsKept (some id) m k =
      if_rule (λ (x : Monitor × Bool). IsKept cfg x.0) (starts_with probe_prefix id)
        (probe_answered m id, true) (m, false)
        (λ _. same-IsKept m (probe_answered m id) refl refl refl k) λ _. k

  answered-IsKept :
      (id method : Option Json) (m : Monitor) → IsKept cfg m → IsKept cfg (answered id method m).0
  answered-IsKept (some id) none m k =
      text-IsKept (text_of (some id)) (record m { outstanding = delete_pending id m.outstanding })
        (same-IsKept m (record m { outstanding = delete_pending id m.outstanding }) refl refl refl
          k)
  answered-IsKept (some id) (some method) m k = k
  answered-IsKept none method m k = k

  stall_timed :
      (m : Monitor) (p : Probe) (now : ℕ)
      → m.cfg ≡ cfg
      → leb m.cfg.wedge_after_ms (now - later p.sent_at m.last_frame_at) ≡ true
      → m.last_frame_at + cfg.wedge_after_ms ≤ now
  stall_timed m p now c e =
      timed_by
        (subst (λ x. leb x.wedge_after_ms (now - later p.sent_at m.last_frame_at) ≡ true) c e)
    where
      timed_by :
          leb cfg.wedge_after_ms (now - later p.sent_at m.last_frame_at) ≡ true
          → m.last_frame_at + cfg.wedge_after_ms ≤ now
      timed_by h = ground (arith, positive)

  tick_probe-IsKept :
      (o : Option Probe) (m : Monitor) (now : ℕ) → IsKept cfg m → IsKept cfg (tick_probe o m now).0
  tick_probe-IsKept none m now k =
      if_rule (λ (x : Monitor × Verdict). IsKept cfg x.0)
        (ltb (now - m.last_frame_at) m.cfg.probe_after_ms) (m, quiet) (send_probe m now) (λ _. k)
        λ _. same-IsKept m (send_probe m now).0 refl refl refl k
  tick_probe-IsKept (some p) m now k =
      if_rule (λ (x : Monitor × Verdict). IsKept cfg x.0)
        (leb m.cfg.wedge_after_ms (now - later p.sent_at m.last_frame_at)) (stalled m now)
        (m, quiet) (λ e. record { config = k.config; timed = λ _. stall_timed m p now k.config e })
        λ _. k

  tick_owed-IsKept : (m : Monitor) (now : ℕ) → IsKept cfg m → IsKept cfg (tick_owed m now).0
  tick_owed-IsKept m now k =
      if_rule (λ (x : Monitor × Verdict). IsKept cfg x.0) (m.stalled_at == 0)
        (tick_probe m.probe m now)
        (m, if leb m.cfg.grace_ms (now - m.stalled_at) then dead (now - m.last_frame_at) else quiet)
        (λ _. tick_probe-IsKept m.probe m now k) λ _. k

  tick-IsKept :
      (m : Monitor) (now : ℕ) (phase : StatusPhase) (doc_open : Bool)
      → IsKept cfg m
      → IsKept cfg (tick m now phase doc_open).0
  unfolding tick
  tick-IsKept m now phase doc_open k =
      if_rule (λ (x : Monitor × Verdict). IsKept cfg x.0) (owed (unexpired m now) phase doc_open)
        (tick_owed (unexpired m now) now) (unexpired m now, quiet)
        (λ _. tick_owed-IsKept (unexpired m now) now kept) λ _. kept
    where
      kept : IsKept cfg (unexpired m now)
      kept = same-IsKept m (unexpired m now) refl refl refl k

  mailbox_tick-IsKept :
      (m : Monitor) (word : Option ℕ) (notified now : ℕ)
      → IsKept cfg m
      → IsKept cfg (mailbox_tick m word notified now).0
  unfolding mailbox_tick
  mailbox_tick-IsKept m word notified now k = by_watch m.watch
    where
      by_watch : (w : Option Watch) → IsKept cfg (mailbox_unwatched w m word notified now).0
      by_watch (some w) = k
      by_watch none =
          if_rule (λ (x : Monitor × Mail). IsKept cfg x.0) (is_pending word)
            (record m { watch = some (record { at = now; notified = notified }) }, watch_it)
            (m, kick)
            (λ _.
              same-IsKept m (record m { watch = some (record { at = now; notified = notified }) })
                refl refl refl k)
            λ _. k

  mailbox_confirm-IsKept :
      (m : Monitor) (word : Option ℕ) (notified now : ℕ)
      → IsKept cfg m
      → IsKept cfg (mailbox_confirm m word notified now).0
  unfolding mailbox_confirm
  mailbox_confirm-IsKept m word notified now k = by_watch m.watch
    where
      by_watch :
          (w : Option Watch)
          → IsKept cfg (confirm_watch w (record m { watch = none }) word notified now).0
      by_watch none = same-IsKept m (record m { watch = none }) refl refl refl k
      by_watch (some w) =
          let n = record m { watch = none } in
          same-IsKept m (confirm_watch (some w) n word notified now).0 (ground arith) (ground arith)
            (ground arith) k

  happen-IsKept : (m : Monitor) (now : ℕ) (e : Event) → IsKept cfg m → IsKept cfg (happen m now e)
  unfolding server_frame
  happen-IsKept m now (requested msg) k = client_request-IsKept m msg now k
  happen-IsKept m now (framed msg) k =
      answered-IsKept (get "id" msg) (get "method" msg) (resumed m now) (resumed-IsKept m now k)
  happen-IsKept m now (ticked phase doc_open) k = tick-IsKept m now phase doc_open k
  happen-IsKept m now (mail_ticked word notified) k = mailbox_tick-IsKept m word notified now k
  happen-IsKept m now (mail_confirmed word notified) k =
      mailbox_confirm-IsKept m word notified now k

  pub run-IsKept : (es : List Timed) (m : Monitor) → IsKept cfg m → IsKept cfg (run m es)
  run-IsKept [] m k = k
  run-IsKept (e ∷ es) m k = run-IsKept es (happen m e.at e.event) (happen-IsKept m e.at e.event k)
