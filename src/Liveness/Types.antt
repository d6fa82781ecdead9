-- ===== src/Liveness/Types.antt =====
-- The state that `createLiveness` of public/workers/lean.worker.js makes.
use Prim.Native.String.{String}
use qed.Common.{ℕ, Option, none, List, []}
use qed.Common.Json.{Json}

pub record Config : Type 0 where
  pub tick_ms : ℕ
  pub probe_after_ms : ℕ
  pub wedge_after_ms : ℕ
  pub grace_ms : ℕ
  pub confirm_ms : ℕ
  pub late_timer_ms : ℕ
  pub request_ttl_ms : ℕ

-- `LIVENESS`
abbrev pub liveness_config : Config
liveness_config = record {
  tick_ms = 1000;
  probe_after_ms = 6000;
  wedge_after_ms = 12000;
  grace_ms = 4000;
  confirm_ms = 250;
  late_timer_ms = 150;
  request_ttl_ms = 600000;
}

-- MAILBOX_PENDING
abbrev pub mailbox_pending : ℕ
mailbox_pending = 2

abbrev pub probe_prefix : String
probe_prefix = "qed64:liveness:"

-- An entry of the map of forwarded requests.
pub record Pending : Type 0 where
  pub id : Json
  pub at : ℕ

pub record Probe : Type 0 where
  pub id : String
  pub sent_at : ℕ

pub record Watch : Type 0 where
  pub at : ℕ
  pub notified : ℕ

pub record Counters : Type 0 where
  pub probes : ℕ
  pub answered : ℕ
  pub stalls : ℕ
  pub resumed : ℕ
  pub rescues : ℕ

-- `stalled_at` is 0 where there is no stall.
pub record Monitor : Type 0 where
  pub cfg : Config
  pub last_frame_at : ℕ
  pub outstanding : List Pending
  pub probe : Option Probe
  pub stalled_at : ℕ
  pub seq : ℕ
  pub watch : Option Watch
  pub watch_retries : ℕ
  pub counters : Counters

abbrev pub create_liveness : ℕ → Config → Monitor
create_liveness now cfg = record {
  cfg = cfg;
  last_frame_at = now;
  outstanding = [];
  probe = none;
  stalled_at = 0;
  seq = 0;
  watch = none;
  watch_retries = 0;
  counters = record { probes = 0; answered = 0; stalls = 0; resumed = 0; rescues = 0 };
}
