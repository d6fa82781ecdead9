-- ===== src/Liveness/Monitor.antt =====
-- The bookkeeping of the liveness monitor (public/workers/lean.worker.js, `createLiveness` to
-- `mailboxConfirm`). Times are milliseconds.
use Prim.Native.String.{String, ◌++◌ as str_append}
use text.Mathlib.Text.{◌==◌ as str_eq}
use qed.Common.{
  ℕ, ◌+◌, ◌-◌, Bool, true, false, not, ◌&&◌, ◌||◌, Option, none, some, List, [], ◌∷◌, ltb, leb,
  ◌==◌, if◌then◌else◌,
}
use qed.Common.Text.{ascii}
use qed.Common.Int.{eqb_ℤ}
use qed.Common.Json.{Json, null, bool, num, str, obj, field, end, get, text_of, is_text, is_some}
use qed.Frames.Encoder.{decimal}
use qed.FrontDoor.Step.{StatusPhase}
use qed.Edge.Keys.{starts_with}
use qed.Liveness.Types.{mailbox_pending, probe_prefix, Pending, Probe, Watch, Monitor}

-- Two keys of the map; arrays and objects of two messages are never the same.
abbrev pub same_id : Json → Json → Bool
same_id null null = true
same_id (bool true) (bool b) = b
same_id (bool false) (bool b) = not b
same_id (num a) (num b) = eqb_ℤ a b
same_id (str a) (str b) = str_eq a b
same_id _ _ = false

-- `outstanding.set(id, now)` and `outstanding.delete(id)`
abbrev pub set_pending : Json → ℕ → List Pending → List Pending
set_pending id now [] = record { id = id; at = now } ∷ []
set_pending id now (p ∷ ps) =
    let rest = set_pending id now ps in
    if same_id p.id id then record { id = p.id; at = now } ∷ ps else p ∷ rest

abbrev pub delete_pending : Json → List Pending → List Pending
delete_pending id [] = []
delete_pending id (p ∷ ps) =
    let rest = delete_pending id ps in if same_id p.id id then ps else p ∷ rest

abbrev pub tracked : Option Json → ℕ → Monitor → Monitor
tracked none now m = m
tracked (some id) now m = record m { outstanding = set_pending id now m.outstanding }

-- `livenessClientRequest`
unfoldable pub client_request : Monitor → Json → ℕ → Monitor
client_request m msg now =
    if is_some (text_of (get "method" msg)) && not (is_text (get "method" msg) "initialize")
    then tracked (get "id" msg) now m
    else m

-- The answer of a probe, and how long after its begin a stall ended.
pub record Seen : Type 0 where
  pub monitor : Monitor
  pub probe : Bool
  pub resumed_after_ms : Option ℕ

-- The frame ends a stall.
abbrev pub resumed : Monitor → ℕ → Monitor
resumed m now = if m.stalled_at == 0 then record m { last_frame_at = now } else record m {
  last_frame_at = now;
  stalled_at = 0;
  counters = record m.counters { resumed = m.counters.resumed + 1 };
}

abbrev pub without_probe : Option Probe → String → Option Probe
without_probe none id = none
without_probe (some p) id = if str_eq p.id id then none else some p

abbrev pub probe_answered : Monitor → String → Monitor
probe_answered m id = record m {
  probe = without_probe m.probe id;
  counters = record m.counters { answered = m.counters.answered + 1 };
}

-- An answer, with its id.
abbrev pub answered_text : Option String → Monitor → Monitor × Bool
answered_text none m = (m, false)
answered_text (some id) m =
    if starts_with probe_prefix id then (probe_answered m id, true) else (m, false)

abbrev pub answered : Option Json → Option Json → Monitor → Monitor × Bool
answered (some id) none m =
    answered_text (text_of (some id)) (record m { outstanding = delete_pending id m.outstanding })
answered _ _ m = (m, false)

-- `livenessServerFrame`
unfoldable pub server_frame : Monitor → Json → ℕ → Seen
server_frame m msg now =
    let a = answered (get "id" msg) (get "method" msg) (resumed m now) in
    record {
      monitor = a.0;
      probe = a.1;
      resumed_after_ms = if m.stalled_at == 0 then none else some (now - m.stalled_at);
    }

pub data Verdict : Type 0 where
  quiet : Verdict
  probe_it : Json → Verdict
  stall : ℕ → Verdict
  dead : ℕ → Verdict

-- Requests that were never answered are forgotten.
abbrev pub expire : ℕ → ℕ → List Pending → List Pending
expire ttl now [] = []
expire ttl now (p ∷ ps) =
    let rest = expire ttl now ps in if ltb ttl (now - p.at) then rest else p ∷ rest

abbrev pub some_pending : List Pending → Bool
some_pending [] = false
some_pending (p ∷ ps) = true

abbrev pub working : StatusPhase → Bool → Bool
working StatusPhase.elaborating doc_open = true
working StatusPhase.starting doc_open = doc_open
working _ doc_open = false

-- Something is owed to the client.
abbrev pub owed : Monitor → StatusPhase → Bool → Bool
owed m phase doc_open = working phase doc_open || some_pending m.outstanding || is_some m.probe

abbrev pub next_probe : Monitor → String
next_probe m = str_append probe_prefix (ascii (decimal (m.seq + 1)))

abbrev pub send_probe : Monitor → ℕ → Monitor × Verdict
send_probe m now = (
  record m {
    seq = m.seq + 1;
    probe = some (record { id = next_probe m; sent_at = now });
    counters = record m.counters { probes = m.counters.probes + 1 };
  },
  probe_it (
      obj (
        field "jsonrpc" (str "2.0") (
          field "id" (str (next_probe m))
            (field "method" (str "$/qed64/liveness") (field "params" (obj end) end))))),
)

abbrev pub later : ℕ → ℕ → ℕ
later a b = if leb a b then b else a

abbrev pub stalled : Monitor → ℕ → Monitor × Verdict
stalled m now = (
  record m { stalled_at = now; counters = record m.counters { stalls = m.counters.stalls + 1 } },
  stall (now - m.last_frame_at),
)

-- The watch on a probe that is out, or the next one.
abbrev pub tick_probe : Option Probe → Monitor → ℕ → Monitor × Verdict
tick_probe none m now =
    if ltb (now - m.last_frame_at) m.cfg.probe_after_ms then (m, quiet) else send_probe m now
tick_probe (some p) m now =
    if leb m.cfg.wedge_after_ms (now - later p.sent_at m.last_frame_at)
    then stalled m now
    else (m, quiet)

abbrev pub tick_owed : Monitor → ℕ → Monitor × Verdict
tick_owed m now = if m.stalled_at == 0 then tick_probe m.probe m now else (
  m,
  if leb m.cfg.grace_ms (now - m.stalled_at) then dead (now - m.last_frame_at) else quiet,
)

-- `livenessTick`
unfoldable pub tick : Monitor → ℕ → StatusPhase → Bool → Monitor × Verdict
tick m now phase doc_open =
    let kept = record m { outstanding = expire m.cfg.request_ttl_ms now m.outstanding } in
    if owed kept phase doc_open then tick_owed kept now else (kept, quiet)

-- What the runtime mailbox needs.
pub data Mail : Type 0 where
  nothing kick watch_it delivered retry rescue : Mail

abbrev pub is_pending : Option ℕ → Bool
is_pending none = false
is_pending (some w) = w == mailbox_pending

-- `mailboxTick`
abbrev pub mailbox_unwatched : Option Watch → Monitor → Option ℕ → ℕ → ℕ → Monitor × Mail
mailbox_unwatched (some w) m word notified now = (m, nothing)
mailbox_unwatched none m word notified now =
    if is_pending word
    then (record m { watch = some (record { at = now; notified = notified }) }, watch_it)
    else (m, kick)

unfoldable pub mailbox_tick : Monitor → Option ℕ → ℕ → ℕ → Monitor × Mail
mailbox_tick m word notified now = mailbox_unwatched m.watch m word notified now

abbrev pub confirm_late : Monitor → ℕ → ℕ → Monitor × Mail
confirm_late m notified now =
    if leb 3 m.watch_retries then (record m { watch_retries = 0 }, kick) else (
      record m {
        watch_retries = m.watch_retries + 1;
        watch = some (record { at = now; notified = notified });
      },
      retry,
    )

-- `mailboxConfirm`
abbrev pub confirm_watch : Option Watch → Monitor → Option ℕ → ℕ → ℕ → Monitor × Mail
confirm_watch none m word notified now = (m, nothing)
confirm_watch (some w) m word notified now =
    if not (notified == w.notified) || not (is_pending word)
    then (record m { watch_retries = 0 }, delivered)
    else if ltb (m.cfg.confirm_ms + m.cfg.late_timer_ms) (now - w.at)
    then confirm_late m notified now
    else (
      record m {
        watch_retries = 0;
        counters = record m.counters { rescues = m.counters.rescues + 1 };
      },
      rescue,
    )

unfoldable pub mailbox_confirm : Monitor → Option ℕ → ℕ → ℕ → Monitor × Mail
mailbox_confirm m word notified now =
    confirm_watch m.watch (record m { watch = none }) word notified now
