-- ===== src/Liveness/Tests.antt =====
-- A silent worker under the monitor of public/workers/lean.worker.js.
use qed.Common.{◌-◌}
use qed.Liveness.Monitor.{probe_it, stall}
use qed.Common.{◌≡◌, ◌+◌, ◌≤◌, refl, true, some, List, [], ◌∷◌, arith, if◌then◌else◌}
use qed.Common.Json.{null}
use qed.FrontDoor.Step.{StatusPhase}
use qed.Liveness.Mailbox.{is_rescue, is_lost, mailbox_confirm-is_lost}
use qed.Liveness.Monitor.{mailbox_confirm, dead, tick, server_frame}
use qed.Liveness.Types.{Monitor, liveness_config, create_liveness}
use qed.Liveness.Silence.{framed, ticked, Timed, run}
use qed.Liveness.Heard.{heard}
use qed.Liveness.Patience.{tick-dead, probe_request, elaborating_tick, elaborating_tick-dead}

-- A frame, and then ticks without one.
abbrev silence : List Timed
silence =
    record { at = 1000; event = framed null }
    ∷ record { at = 8000; event = ticked StatusPhase.elaborating true }
    ∷ record { at = 20000; event = ticked StatusPhase.elaborating true }
    ∷ []

given_up :
    (tick (run (create_liveness 500 liveness_config) silence) 24000 StatusPhase.elaborating true).1
    ≡ dead 23000
unfolding tick server_frame
given_up = refl

tick-dead_example :
    (23000 ≡ 24000 - heard 500 silence)
    × (liveness_config.wedge_after_ms + liveness_config.grace_ms ≤ 23000)
tick-dead_example =
    tick-dead liveness_config 500 silence 24000 StatusPhase.elaborating true 23000 (omega arith)
      (omega arith) given_up

abbrev fresh : Monitor
fresh = create_liveness 500 liveness_config

elaborating_tick-dead_example :
    let first = elaborating_tick fresh 7000 in
    let second = elaborating_tick first.0 19000 in
    let third = elaborating_tick second.0 23000 in
    (first.1 ≡ probe_it (probe_request 1))
    × (first.0.seq ≡ 1)
    × (second.1 ≡ stall 18500)
    × (third.1 ≡ dead 22500)
elaborating_tick-dead_example =
    elaborating_tick-dead fresh 7000 19000 23000 refl refl (omega arith) (omega arith) (omega arith)
      (omega arith)

-- A pending word is watched since 1000.
abbrev watching : Monitor
watching = record fresh { watch = some (record { at = 1000; notified = 4 }) }

mailbox_confirm-is_lost_example :
    (is_rescue (mailbox_confirm watching (some 2) 4 1260).1
      ≡ is_lost watching.watch watching.cfg (some 2) 4 1260)
    × ((mailbox_confirm watching (some 2) 4 1260).0.counters.rescues
        ≡ watching.counters.rescues
          + (if is_lost watching.watch watching.cfg (some 2) 4 1260 then 1 else 0))
    × ((mailbox_confirm watching (some 2) 4 1260).0.watch_retries ≤ 3)
mailbox_confirm-is_lost_example = mailbox_confirm-is_lost watching (some 2) 4 1260 (omega arith)

rescued : is_rescue (mailbox_confirm watching (some 2) 4 1260).1 ≡ true
unfolding mailbox_confirm
rescued = refl
