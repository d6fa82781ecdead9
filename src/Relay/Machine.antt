-- ===== src/Relay/Machine.antt =====
-- The functions of `LspRelay` (lib/lsp-relay.ts) but `fromClient`, `attach` and `boot`. A reply does not
-- call back into the relay. `isImport` reads a line as the front door does (FrontDoor.Words).
use Prim.Native.String.{String}
use text.Mathlib.Text.{◌==◌ as str_eq}
use qed.Common.{
  ℕ, ◌+◌, ◌-◌, min, Bool, true, false, not, ◌&&◌, ◌||◌, Option, none, some, List, [], ◌∷◌, ◌++◌,
  ltb, ◌==◌, if◌then◌else◌,
}
use qed.Common.Lists.{length}
use qed.Common.Json.{Json, str, is_text, is_some}
use qed.FrontDoor.Words.{is_import_line, split_lines, utf16_length}
use qed.Edge.Keys.{starts_with}
use qed.Relay.Types.{
  Reason, crash, heartbeat, wedged, user, boot_failed, State, serving, halted, rebooting, Cause,
  Death, Doc, Call, Kind, orphaned, restart, Effect, failed, noted, made, disposed, told, Relay,
}

abbrev pub breaker_deaths : ℕ
breaker_deaths = 3

abbrev pub breaker_window : ℕ
breaker_window = 120000

abbrev pub emit : Effect → Relay → Relay
emit e r = record r { out = r.out ++ e ∷ [] }

-- `headerOf`: the import lines.
abbrev pub imports_in : List String → List String
imports_in [] = []
imports_in (l ∷ ls) = let rest = imports_in ls in if is_import_line l then l ∷ rest else rest

abbrev pub header_of : String → List String
header_of text = imports_in (split_lines text)

abbrev pub same_lines : List String → List String → Bool
same_lines [] [] = true
same_lines (x ∷ xs) (y ∷ ys) = str_eq x y && same_lines xs ys
same_lines _ _ = false

-- `reusableOpts`: forgotten unless the header still stands.
unfoldable pub forget_opts : Relay → Relay
forget_opts r =
    if is_some r.restart_opts && not (same_lines (header_of r.last_text) r.restart_header)
    then record r { restart_opts = none }
    else r

-- `reboot` with the options for the new session
abbrev pub reboot_with : Reason → Bool → Option Json → Relay → Relay
reboot_with reason counted opts r =
    let next = r.session + 1 in
    let stats = r.stats in
    record r {
      state = rebooting reason;
      session = next;
      last_status = none;
      stats = if counted then record stats { reboots = stats.reboots + 1 } else stats;
      out = r.out ++ made next opts ∷ told ∷ [];
    }

unfoldable pub reboot : Reason → Relay → Relay
reboot reason r = let kept = forget_opts r in reboot_with reason true kept.restart_opts kept

abbrev pub is_rpc : String → Bool
is_rpc method = starts_with "$/lean/rpc/" method

abbrev pub fail_calls : Kind → List Call → Relay → Relay
fail_calls kind [] r = r
fail_calls kind (c ∷ cs) r =
    let stats = r.stats in
    fail_calls kind cs (
      emit (failed c.id (is_rpc c.method) kind) (record r {
        pending = cs;
        stats = record stats { failed_in_flight = stats.failed_in_flight + 1 };
      }))

unfoldable pub fail_in_flight : Kind → Reason → Relay → Relay
fail_in_flight kind next r = fail_calls kind r.pending (record r { state = rebooting next })

-- Whether the last death was of the engine's stack.
abbrev pub cause_is_stack : Option Cause → Bool
cause_is_stack none = false
cause_is_stack (some c) = is_text (text_json c.code) "ENGINE_STACK_OVERFLOW"
  where
    text_json : Option String → Option Json
    text_json none = none
    text_json (some s) = some (str s)

abbrev pub is_stack : Option Death → Bool
is_stack none = false
is_stack (some d) = cause_is_stack d.cause

abbrev pub cause_line : Option Death → Option ℕ
cause_line none = none
cause_line (some d) = line_of d.cause
  where
    line_of : Option Cause → Option ℕ
    line_of none = none
    line_of (some c) = c.line

-- The index of the first import line, or 0.
abbrev pub first_import_at : ℕ → List String → Option ℕ
first_import_at i [] = none
first_import_at i (l ∷ ls) =
    let rest = first_import_at (i + 1) ls in if is_import_line l then some i else rest

abbrev pub index_or : Option ℕ → ℕ
index_or none = 0
index_or (some i) = i

abbrev pub line_at : List String → ℕ → String
line_at [] i = ""
line_at (l ∷ ls) i = let rest = line_at ls (i - 1) in if i == 0 then l else rest

abbrev pub note_line : Bool → Option ℕ → List String → ℕ
note_line true (some at) lines = min at (length lines - 1)
note_line _ _ lines = index_or (first_import_at 0 lines)

-- The length of a line, or 1 if it is empty.
abbrev pub note_length : String → ℕ
note_length line = if str_eq line "" then 1 else utf16_length line

abbrev pub note_of : Option Doc → Relay → Relay
note_of none r = r
note_of (some doc) r =
    let lines = split_lines r.last_text in
    let line = note_line (is_stack r.last_death) (cause_line r.last_death) lines in
    emit (noted doc (is_stack r.last_death) line (note_length (line_at lines line))) r

-- `halt` and `haltedNote`
unfoldable pub halt : Relay → Relay
halt r = note_of r.doc (emit told (record r { state = halted }))

abbrev pub is_halted : State → Bool
is_halted halted = true
is_halted _ = false

abbrev pub is_serving : State → Bool
is_serving serving = true
is_serving _ = false

abbrev pub reason_of : String → Reason
reason_of reason =
    if str_eq reason "bootFailed"
    then boot_failed
    else if str_eq reason "heartbeat"
    then heartbeat
    else if str_eq reason "wedged"
    then wedged
    else crash

abbrev pub recent : ℕ → List ℕ → List ℕ
recent now [] = []
recent now (d ∷ ds) =
    let rest = recent now ds in if ltb (now - d) breaker_window then d ∷ rest else rest

-- The breaker, with the deaths that count.
abbrev pub breaker : Reason → List ℕ → Relay → Relay
breaker next deaths r =
    let counted = record r { deaths = deaths } in
    let stats = r.stats in
    if ltb (length deaths) breaker_deaths
    then reboot next counted
    else halt (record counted {
      stats = record stats { breaker_trips = stats.breaker_trips + 1 };
      restart_opts = none;
    })

-- A death that counts: the requests are answered, the session is disposed, and the relay reboots or
-- halts.
abbrev pub bury : ℕ → ℕ → String → Option Cause → Relay → Relay
bury now dead reason cause r =
    let failed = fail_in_flight orphaned (reason_of reason) r in
    let gone = emit (disposed dead) failed in
    let stats = gone.stats in
    if cause_is_stack cause
    then halt (record gone { stats = record stats { stack_pauses = stats.stack_pauses + 1 } })
    else breaker (reason_of reason) (recent now gone.deaths ++ now ∷ []) gone

unfoldable pub on_died : ℕ → ℕ → String → String → Option Cause → Option ℕ → Relay → Relay
on_died now dead reason message cause exit_code r =
    let stats = r.stats in
    let count = stats.worker_deaths + 1 in
    let death : Death = record {
      reason = reason;
      message = message;
      seq = count;
      session = dead;
      exit_code = exit_code;
      cause = cause;
    } in
    if not (dead == r.session) || is_halted r.state
    then record r { stats = record stats { stale_deaths = stats.stale_deaths + 1 } }
    else bury now dead reason cause
        (record r { stats = record stats { worker_deaths = count }; last_death = some death })

unfoldable pub rearm : Relay → Relay
rearm r = if is_halted r.state then reboot user (record r { deaths = [] }) else r

unfoldable pub restart_with : Json → Relay → Relay
restart_with opts r =
    let stats = r.stats in
    let chosen = record r {
      stats = record stats { user_restarts = stats.user_restarts + 1 };
      restart_opts = some opts;
      restart_header = header_of r.last_text;
    } in
    let failed = fail_in_flight restart user chosen in
    if is_serving r.state
    then reboot_with user false (some opts) (emit (disposed r.session) failed)
    else r
