-- ===== src/Liveness/Mailbox.antt =====
-- The decisions about the runtime mailbox in public/workers/lean.worker.js.
use qed.Common.{
  ℕ, ◌+◌, ◌-◌, ◌≤◌, ◌≡◌, refl, Bool, true, false, ◌&&◌, Option, none, some, leb, ◌==◌, arith,
  if◌then◌else◌,
}
use qed.Liveness.Monitor.{Mail, rescue, is_pending, confirm_watch, mailbox_confirm}
use qed.Liveness.Types.{Config, Monitor, Watch}

abbrev pub is_rescue : Mail → Bool
is_rescue rescue = true
is_rescue _ = false

-- The wakeup of a watch was lost: no check ran since, the word is pending, and the timer was on time.
abbrev pub is_lost : Option Watch → Config → Option ℕ → ℕ → ℕ → Bool
is_lost none cfg word notified now = false
is_lost (some w) cfg word notified now =
    notified == w.notified
    && is_pending word
    && leb (now - w.at) (cfg.confirm_ms + cfg.late_timer_ms)

confirm_watch-is_lost :
    (o : Option Watch) (m : Monitor) (word : Option ℕ) (notified now : ℕ)
    → m.watch_retries ≤ 3
    → (is_rescue (confirm_watch o m word notified now).1 ≡ is_lost o m.cfg word notified now)
      × ((confirm_watch o m word notified now).0.counters.rescues
          ≡ m.counters.rescues + (if is_lost o m.cfg word notified now then 1 else 0))
      × ((confirm_watch o m word notified now).0.watch_retries ≤ 3)
confirm_watch-is_lost none m word notified now h = (refl, omega arith, h)
confirm_watch-is_lost (some w) m word notified now h = (ground arith, ground arith, ground arith)

-- A confirmation is a rescue, and counted as one, exactly if there is a watch whose wakeup was lost;
-- and the retries of a late timer stay at three or below.
pub mailbox_confirm-is_lost :
    (m : Monitor) (word : Option ℕ) (notified now : ℕ)
    → m.watch_retries ≤ 3
    → (is_rescue (mailbox_confirm m word notified now).1 ≡ is_lost m.watch m.cfg word notified now)
      × ((mailbox_confirm m word notified now).0.counters.rescues
          ≡ m.counters.rescues + (if is_lost m.watch m.cfg word notified now then 1 else 0))
      × ((mailbox_confirm m word notified now).0.watch_retries ≤ 3)
unfolding mailbox_confirm
mailbox_confirm-is_lost m word notified now h =
    confirm_watch-is_lost m.watch (record m { watch = none }) word notified now h
