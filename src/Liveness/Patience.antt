-- ===== src/Liveness/Patience.antt =====
-- The verdicts of the monitor of public/workers/lean.worker.js on a silent FileWorker.
use qed.Common.{
  ℕ, ◌+◌, ◌-◌, ◌≤◌, ◌≡◌, refl, ap, ◌∙◌, subst, Bool, true, Option, none, some, List, ltb, leb, ◌==◌,
  arith, if◌then◌else◌, if_rule, leb→le,
}
use Prim.Native.String.{◌++◌ as str_append}
use qed.Common.Text.{ascii}
use qed.Common.Json.{Json, str, obj, field, end}
use qed.Frames.Encoder.{decimal}
use qed.FrontDoor.Step.{StatusPhase}
use qed.Liveness.Monitor.{
  tick, tick_owed, tick_probe, owed, Verdict, quiet, probe_it, stall, dead, send_probe, stalled,
  later, next_probe,
}
use qed.Liveness.Types.{Config, Monitor, Probe, create_liveness}
use qed.Liveness.Heard.{heard, tick-silent, run-heard}
use qed.Liveness.Silence.{IsKept, Timed, run, run-IsKept, unexpired}

abbrev is_patient : Config → Verdict → Bool
is_patient cfg (dead silent) = leb (cfg.wedge_after_ms + cfg.grace_ms) silent
is_patient cfg _ = true

module _ (cfg : Config) (wedge : 1 ≤ cfg.wedge_after_ms) (grace : 1 ≤ cfg.grace_ms) where
  probe-is_patient :
      (o : Option Probe) (m : Monitor) (now : ℕ) → is_patient cfg (tick_probe o m now).1 ≡ true
  probe-is_patient none m now =
      if_rule (λ (x : Monitor × Verdict). is_patient cfg x.1 ≡ true)
        (ltb (now - m.last_frame_at) m.cfg.probe_after_ms) (m, quiet) (send_probe m now) (λ _. refl)
        λ _. refl
  probe-is_patient (some p) m now =
      if_rule (λ (x : Monitor × Verdict). is_patient cfg x.1 ≡ true)
        (leb m.cfg.wedge_after_ms (now - later p.sent_at m.last_frame_at)) (stalled m now)
        (m, quiet) (λ _. refl) λ _. refl

  long_silence :
      (last stalled_at now : ℕ)
      → last + cfg.wedge_after_ms ≤ stalled_at
      → leb cfg.grace_ms (now - stalled_at) ≡ true
      → leb (cfg.wedge_after_ms + cfg.grace_ms) (now - last) ≡ true
  long_silence last stalled_at now h e = ground (arith, grace)

  owed-is_patient :
      (m : Monitor) (now : ℕ) → IsKept cfg m → is_patient cfg (tick_owed m now).1 ≡ true
  owed-is_patient m now k =
      if_rule (λ (x : Monitor × Verdict). is_patient cfg x.1 ≡ true) (m.stalled_at == 0)
        (tick_probe m.probe m now)
        (m, if leb m.cfg.grace_ms (now - m.stalled_at) then dead (now - m.last_frame_at) else quiet)
        (λ _. probe-is_patient m.probe m now)
        λ going.
          if_rule (λ v. is_patient cfg v ≡ true) (leb m.cfg.grace_ms (now - m.stalled_at))
            (dead (now - m.last_frame_at)) quiet
            (λ e.
              long_silence m.last_frame_at m.stalled_at now
                (k.timed λ z. absurd (ground (arith, z, going)))
                (subst (λ c. leb c.grace_ms (now - m.stalled_at) ≡ true) k.config e))
            λ _. refl

  tick-is_patient :
      (m : Monitor) (now : ℕ) (phase : StatusPhase) (doc_open : Bool)
      → IsKept cfg m
      → is_patient cfg (tick m now phase doc_open).1 ≡ true
  unfolding tick
  tick-is_patient m now phase doc_open k =
      if_rule (λ (x : Monitor × Verdict). is_patient cfg x.1 ≡ true)
        (owed (unexpired m now) phase doc_open) (tick_owed (unexpired m now) now)
        (unexpired m now, quiet)
        (λ _. owed-is_patient (unexpired m now) now (record { config = k.config; timed = k.timed }))
        λ _. refl

-- Whatever requests, frames, ticks and mailbox decisions came before: when a tick gives the worker
-- up, the time that it reports is the time since the worker's last frame (or since the beginning, if
-- there was none), and that is the wedge time and the grace time together at least, the two being
-- positive.
pub tick-dead :
    (cfg : Config) (start : ℕ) (es : List Timed) (now : ℕ) (phase : StatusPhase) (doc_open : Bool)
    (silent : ℕ)
    → 1 ≤ cfg.wedge_after_ms
    → 1 ≤ cfg.grace_ms
    → (tick (run (create_liveness start cfg) es) now phase doc_open).1 ≡ dead silent
    → (silent ≡ now - heard start es) × (cfg.wedge_after_ms + cfg.grace_ms ≤ silent)
tick-dead cfg start es now phase doc_open silent wedge grace e = (
  tick-silent (run (create_liveness start cfg) es) now phase doc_open silent e
      ∙ ap (λ last. now - last) (run-heard es (create_liveness start cfg)),
  leb→le (cfg.wedge_after_ms + cfg.grace_ms) silent (
      subst (λ v. is_patient cfg v ≡ true) e
        (tick-is_patient cfg wedge grace (run (create_liveness start cfg) es) now phase doc_open (
          run-IsKept cfg wedge es (create_liveness start cfg)
            (record { config = refl; timed = λ ne. absurd (ne refl) })))),
)

tick_owed-tick_probe :
    (m : Monitor) (now : ℕ) → m.stalled_at ≡ 0 → tick_owed m now ≡ tick_probe m.probe m now
tick_owed-tick_probe m now idle =
    if_rule (λ (x : Monitor × Verdict). x ≡ tick_probe m.probe m now) (m.stalled_at == 0)
      (tick_probe m.probe m now)
      (m, if leb m.cfg.grace_ms (now - m.stalled_at) then dead (now - m.last_frame_at) else quiet)
      (λ _. refl) λ e. absurd (ground (arith, idle, e))

tick_probe-send_probe :
    (o : Option Probe) (m : Monitor) (now : ℕ)
    → o ≡ none
    → m.last_frame_at + m.cfg.probe_after_ms ≤ now
    → tick_probe o m now ≡ send_probe m now
tick_probe-send_probe (some p) m now free h = absurd cc
tick_probe-send_probe none m now free h =
    if_rule (λ (x : Monitor × Verdict). x ≡ send_probe m now)
      (ltb (now - m.last_frame_at) m.cfg.probe_after_ms) (m, quiet) (send_probe m now)
      (λ e. absurd (ground (arith, e))) λ _. refl

tick_probe-stalled :
    (p : Probe) (m : Monitor) (now : ℕ)
    → p.sent_at + m.cfg.wedge_after_ms ≤ now
    → m.last_frame_at ≤ p.sent_at
    → tick_probe (some p) m now ≡ stalled m now
tick_probe-stalled p m now h k =
    if_rule (λ (x : Monitor × Verdict). x ≡ stalled m now)
      (leb m.cfg.wedge_after_ms (now - later p.sent_at m.last_frame_at)) (stalled m now) (m, quiet)
      (λ _. refl) λ e. absurd (ground (arith, e))

tick_owed-dead :
    (m : Monitor) (now : ℕ)
    → 1 ≤ m.stalled_at
    → m.stalled_at + m.cfg.grace_ms ≤ now
    → (tick_owed m now).1 ≡ dead (now - m.last_frame_at)
tick_owed-dead m now going h =
    if_rule (λ (x : Monitor × Verdict). x.1 ≡ dead (now - m.last_frame_at)) (m.stalled_at == 0)
      (tick_probe m.probe m now)
      (m, if leb m.cfg.grace_ms (now - m.stalled_at) then dead (now - m.last_frame_at) else quiet)
      (λ e. absurd (ground (arith, e)))
      λ _.
        if_rule (λ v. v ≡ dead (now - m.last_frame_at)) (leb m.cfg.grace_ms (now - m.stalled_at))
          (dead (now - m.last_frame_at)) quiet (λ _. refl) λ e. absurd (ground (arith, e))

abbrev pub elaborating_tick : Monitor → ℕ → Monitor × Verdict
elaborating_tick m now = tick m now StatusPhase.elaborating true

first_tick :
    (m : Monitor) (t : ℕ)
    → m.stalled_at ≡ 0
    → m.probe ≡ none
    → m.last_frame_at + m.cfg.probe_after_ms ≤ t
    → elaborating_tick m t ≡ send_probe (unexpired m t) t
unfolding tick
first_tick m t idle free h =
    tick_owed-tick_probe (unexpired m t) t idle
    ∙ tick_probe-send_probe m.probe (unexpired m t) t free h

second_tick :
    (m : Monitor) (t u : ℕ)
    → m.stalled_at ≡ 0
    → m.last_frame_at ≤ t
    → t + m.cfg.wedge_after_ms ≤ u
    → elaborating_tick (send_probe (unexpired m t) t).0 u
      ≡ stalled (unexpired (send_probe (unexpired m t) t).0 u) u
unfolding tick
second_tick m t u idle h k =
    let n = unexpired (send_probe (unexpired m t) t).0 u in
    tick_owed-tick_probe n u idle
    ∙ tick_probe-stalled (record { id = next_probe (unexpired m t); sent_at = t }) n u k h

third_tick :
    (n : Monitor) (u v : ℕ)
    → 1 ≤ u
    → u + n.cfg.grace_ms ≤ v
    → (elaborating_tick (stalled n u).0 v).1 ≡ dead (v - n.last_frame_at)
unfolding tick
third_tick n u v one h = tick_owed-dead (unexpired (stalled n u).0 v) v one h

-- The request that asks the worker whether it lives.
abbrev pub probe_request : ℕ → Json
probe_request n = obj (
    field "jsonrpc" (str "2.0") (
      field "id" (str (str_append "qed64:liveness:" (ascii (decimal n))))
        (field "method" (str "$/qed64/liveness") (field "params" (obj end) end))))

-- A worker that elaborates and sends no frame is given up: a tick behind the probe time sends a
-- probe, numbered by a counter that goes up by one, one the wedge time later declares a stall, and one the
-- grace time later is the verdict, for whatever was outstanding; the stall and the verdict report the
-- time since the last frame.
pub elaborating_tick-dead :
    (m : Monitor) (t u v : ℕ)
    → m.stalled_at ≡ 0
    → m.probe ≡ none
    → m.last_frame_at + m.cfg.probe_after_ms ≤ t
    → t + m.cfg.wedge_after_ms ≤ u
    → u + m.cfg.grace_ms ≤ v
    → 1 ≤ u
    → let first = elaborating_tick m t in
      let second = elaborating_tick first.0 u in
      let third = elaborating_tick second.0 v in
      (first.1 ≡ probe_it (probe_request (m.seq + 1)))
      × (first.0.seq ≡ m.seq + 1)
      × (second.1 ≡ stall (u - m.last_frame_at))
      × (third.1 ≡ dead (v - m.last_frame_at))
elaborating_tick-dead m t u v idle free probe wedge grace one = (
  ap (λ (x : Monitor × Verdict). x.1) (first_tick m t idle free probe),
  ap (λ (x : Monitor × Verdict). x.0.seq) (first_tick m t idle free probe),
  ap (λ (x : Monitor × Verdict). (elaborating_tick x.0 u).1) (first_tick m t idle free probe)
      ∙ ap (λ (x : Monitor × Verdict). x.1) (second_tick m t u idle (omega (arith, probe)) wedge),
  ap (λ (x : Monitor × Verdict). (elaborating_tick (elaborating_tick x.0 u).0 v).1)
        (first_tick m t idle free probe)
      ∙ ap (λ (x : Monitor × Verdict). (elaborating_tick x.0 v).1)
          (second_tick m t u idle (omega (arith, probe)) wedge)
      ∙ third_tick (unexpired (send_probe (unexpired m t) t).0 u) u v one grace,
)
