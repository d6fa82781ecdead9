-- ===== src/Relay/Run.antt =====
-- The client's frames, the sessions' events and the steps of a boot in lib/lsp-relay.ts, and runs of
-- them.
use Prim.Native.String.{String}
use qed.Common.{
  ℕ, ◌+◌, Bool, true, false, not, ◌&&◌, Option, none, some, List, [], ◌∷◌, ◌++◌, ◌==◌,
  if◌then◌else◌,
}
use qed.Common.Json.{Json, Items, cons, get, get_in, items_of, text_of, is_text, is_some, truthy}
use qed.FrontDoor.Machine.{has_method, is_request, text_document, did_open, did_change}
use qed.Liveness.Monitor.{same_id}
use qed.Relay.Machine.{emit, is_stack, is_halted, on_died, rearm, restart_with}
use qed.Relay.Types.{
  serving, Cause, Doc, Call, stack_limit, repeated_crashes, passed, failed, forwarded, reopened,
  started, armed, disposed, terminated, told, Relay,
}

-- What the relay remembers of the client: its initialize, its document and the last full text.
pub record Memory : Type 0 where
  pub initialize : Option Json
  pub doc : Option Doc
  pub last_text : String

abbrev pub text_or_empty : Option String → String
text_or_empty none = ""
text_or_empty (some s) = s

abbrev pub opened_by : Option Json → Memory → Memory
opened_by none m = m
opened_by (some d) m = record m {
  doc =
      some (record { uri = get "uri" d; language = get "languageId" d; version = get "version" d });
  last_text = text_or_empty (text_of (get "text" d));
}

-- The first content change.
abbrev pub first_item : Option Items → Option Json
first_item (some (cons c cs)) = some c
first_item _ = none

abbrev pub full_text : Option Json → Option String
full_text none = none
full_text (some c) = if is_some (get "range" c) then none else text_of (get "text" c)

abbrev pub text_after : Option String → Memory → Memory
text_after none m = m
text_after (some s) m = record m { last_text = s }

abbrev pub changed_by : Json → Option Json → Option Doc → Memory → Memory
changed_by msg (some d) (some doc) m =
    text_after (full_text (first_item (items_of (get_in (get "params" msg) "contentChanges"))))
      (record m { doc = some (record doc { version = get "version" d }) })
changed_by msg _ _ m = m

-- The first part of `fromClient`.
unfoldable pub remember : Json → Memory → Memory
remember msg m =
    if has_method msg "initialize"
    then record m { initialize = some msg }
    else if has_method msg did_open && truthy (text_document msg)
    then opened_by (text_document msg) m
    else if has_method msg did_change && truthy (text_document msg)
    then changed_by msg (text_document msg) m.doc m
    else m

abbrev pub memory : Relay → Memory
memory r = record { initialize = r.initialize; doc = r.doc; last_text = r.last_text }

abbrev pub with_memory : Memory → Relay → Relay
with_memory m r = record r { initialize = m.initialize; doc = m.doc; last_text = m.last_text }

-- A change that has a first item and is no full text is counted.
abbrev pub is_ranged : Json → Option Doc → Bool
is_ranged msg doc =
    has_method msg did_change
    && truthy (text_document msg)
    && is_some doc
    && truthy (first_item (items_of (get_in (get "params" msg) "contentChanges")))
    && not
        (is_some (full_text (first_item (items_of (get_in (get "params" msg) "contentChanges")))))

abbrev pub count_ranged : Json → Option Doc → Relay → Relay
count_ranged msg doc r =
    let stats = r.stats in
    if is_ranged msg doc
    then record r { stats = record stats { ranged_changes = stats.ranged_changes + 1 } }
    else r

-- `pending.set(id, method)` and `pending.delete(id)`
abbrev pub set_call : Call → List Call → List Call
set_call c [] = c ∷ []
set_call c (x ∷ xs) = let rest = set_call c xs in if same_id x.id c.id then c ∷ xs else x ∷ rest

abbrev pub delete_call : Json → List Call → List Call
delete_call id [] = []
delete_call id (x ∷ xs) = let rest = delete_call id xs in if same_id x.id id then xs else x ∷ rest

abbrev pub pend : Option Json → Option String → Relay → Relay
pend (some id) (some method) r = record r {
  pending = set_call (record { id = id; method = method }) r.pending;
}
pend _ _ r = r

-- The last part: a request is noted, and the frame goes to the session.
abbrev pub forward : Json → Relay → Relay
forward msg r =
    let asked = pend (get "id" msg) (text_of (get "method" msg)) r in
    emit (forwarded asked.session msg false) asked

abbrev pub refuse : Option Json → Relay → Relay
refuse none r = r
refuse (some id) r =
    emit (failed id false (if is_stack r.last_death then stack_limit else repeated_crashes)) r

unfoldable pub from_client : Json → Relay → Relay
from_client msg r =
    let known = count_ranged msg r.doc (with_memory (remember msg (memory r)) r) in
    if is_halted r.state
    then (if is_request msg
        then refuse (get "id" msg) known
        else if has_method msg did_change
        then forward msg (rearm known)
        else known)
    else forward msg known

-- A message of a session: an answer is no longer pending.
abbrev pub settle_call : Option Json → Option Json → Relay → Relay
settle_call (some id) none r = record r { pending = delete_call id r.pending }
settle_call _ _ r = r

abbrev pub from_server : ℕ → Json → Relay → Relay
from_server from msg r =
    if from == r.session
    then emit (passed msg) (settle_call (get "id" msg) (get "method" msg) r)
    else r

abbrev pub on_status : ℕ → Json → Relay → Relay
on_status from st r =
    let seen = record r { last_status = some st } in
    if from == r.session
    then emit told
        (if is_text (get "phase" st) "ready" then record seen { last_death = none } else seen)
    else r

abbrev pub replay_initialize : Option Json → ℕ → Relay → Relay
replay_initialize none to r = r
replay_initialize (some msg) to r = emit (forwarded to msg true) r

abbrev pub replay_doc : Option Doc → ℕ → Relay → Relay
replay_doc none to r = r
replay_doc (some doc) to r = emit (reopened to doc r.last_text) r

-- `boot` between its waits: the settling is over, the session started, it is armed.
abbrev pub start_boot : ℕ → Relay → Relay
start_boot at r = if at == r.session then emit (started at) r else r

abbrev pub boot_started : ℕ → Relay → Relay
boot_started at r =
    if at == r.session
    then emit (armed at) (replay_doc r.doc at (replay_initialize r.initialize at r))
    else r

abbrev pub boot_armed : ℕ → Relay → Relay
boot_armed at r = if at == r.session then emit told (record r { state = serving }) else r

abbrev pub boot_fails : ℕ → ℕ → String → Option Cause → Relay → Relay
boot_fails now at message cause r =
    if at == r.session && not (is_halted r.state)
    then on_died now at "bootFailed" message cause none r
    else r

abbrev pub unload : Relay → Relay
unload r = emit (terminated r.session) (emit (disposed r.session) r)

pub data Event : Type 0 where
  client : Json → Event
  server : ℕ → Json → Event
  status_of : ℕ → Json → Event
  died : ℕ → String → String → Option Cause → Option ℕ → Event
  settled boot_done boot_ready : ℕ → Event
  boot_rejected : ℕ → String → Option Cause → Event
  restarted : Json → Event
  rearmed unloaded : Event

unfoldable pub happen : ℕ → Event → Relay → Relay
happen now (client msg) r = from_client msg r
happen now (server from msg) r = from_server from msg r
happen now (status_of from st) r = on_status from st r
happen now (died at reason message cause code) r = on_died now at reason message cause code r
happen now (settled at) r = start_boot at r
happen now (boot_done at) r = boot_started at r
happen now (boot_ready at) r = boot_armed at r
happen now (boot_rejected at message cause) r = boot_fails now at message cause r
happen now (restarted opts) r = restart_with opts r
happen now rearmed r = rearm r
happen now unloaded r = unload r

pub record Timed : Type 0 where
  pub at : ℕ
  pub event : Event

abbrev pub run : Relay → List Timed → Relay
run r [] = r
run r (e ∷ es) = run (happen e.at e.event r) es

-- What the client sent.
abbrev pub frames_in : Event → List Json
frames_in (client msg) = msg ∷ []
frames_in _ = []

abbrev pub client_frames : List Timed → List Json
client_frames [] = []
client_frames (e ∷ es) = frames_in e.event ++ client_frames es

abbrev pub remember_all : List Json → Memory → Memory
remember_all [] m = m
remember_all (msg ∷ msgs) m = remember_all msgs (remember msg m)

-- A session that died or failed to boot was disposed, and does not become ready any more.
abbrev pub is_lawful : Event → Relay → Bool
is_lawful (boot_ready at) r = not (at == r.session && is_halted r.state)
is_lawful _ r = true

abbrev pub are_lawful : Relay → List Timed → Bool
are_lawful r [] = true
are_lawful r (e ∷ es) = is_lawful e.event r && are_lawful (happen e.at e.event r) es
