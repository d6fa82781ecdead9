-- ===== src/FrontDoor/Step.antt =====
-- `step`, `phaseOf` and `statusOf` of public/workers/lsp-front-door.js: one frame of any kind through
-- the machine, the effects for the host, and the status that goes with them.
use qed.Common.{
  ℕ, ◌+◌, String, Bool, true, false, not, ◌&&◌, ◌||◌, Option, none, some, List, [], ◌∷◌, ◌==◌,
  if◌then◌else◌,
}
use qed.Common.Lists.{any}
use qed.Common.Int.{ℤ, pos, ◌-ℤ◌, eqb_ℤ}
use qed.Common.Json.{
  Json, Items, arr, nil, cons, get, put, get_in, number_of, items_of, to_list, truthy, is_text,
  is_some,
}
use qed.FrontDoor.Collision.{colliding_names, alias_only_key, collision_note}
use qed.FrontDoor.Machine.{
  Phase, Doc, Progress, Collision, Held, Machine, Turn, begin, has_method, version_of,
  shift_versions,
}
use qed.FrontDoor.Admit.{admit, drain_with}

pub data Frame : Type 0 where
  client : Json → Bool → Frame
  server : Json → Frame
  booted : Frame
  ring : Bool → Frame
  died : Frame

-- The phase that the page is told.
pub data StatusPhase : Type 0 where
  booting starting elaborating ready header_refused dead : StatusPhase

pub record Status : Type 0 where
  pub phase : StatusPhase
  pub version : Option ℤ
  pub header : Option Json
  pub collision : Option Collision
  pub dropped : ℕ

pub record Result : Type 0 where
  pub turn : Turn
  pub status_delta : Status

abbrev pub is_refused : Option Json → Bool
is_refused header = is_text (get_in header "mode") "refused"

abbrev pub drained : Progress → ℤ → Bool
drained p last = eqb_ℤ p.version last && (p.processing == 0 || p.fatal)

abbrev pub phase_with : Option Progress → Option Doc → Machine → StatusPhase
phase_with (some p) (some d) s =
    if drained p s.last_version
    then (if is_refused s.header || p.fatal then StatusPhase.header_refused else StatusPhase.ready)
    else StatusPhase.elaborating
phase_with _ _ s = StatusPhase.starting

abbrev pub phase_in : Phase → Machine → StatusPhase
phase_in Phase.dead s = StatusPhase.dead
phase_in Phase.booting s = StatusPhase.booting
phase_in Phase.ready s = StatusPhase.starting
phase_in Phase.opened s = phase_with s.progress s.doc s

unfoldable pub phase_of : Machine → StatusPhase
phase_of s = phase_in s.phase s

abbrev doc_version : Option Doc → Option ℤ
doc_version none = none
doc_version (some d) = some d.version

unfoldable pub status_of : Machine → Status
unfolding phase_of
status_of s = record {
  phase = phase_of s;
  version = doc_version s.doc;
  header = s.header;
  collision = s.collision;
  dropped = s.dropped;
}

-- `e && e.kind === 2`: a fatal entry of a fileProgress.
abbrev is_fatal : Json → Bool
is_fatal e = elim (number_of (get "kind" e)) [ none ↦ false | some n ↦ eqb_ℤ n (pos 2) ]

abbrev count_live : List Json → ℕ
count_live [] = 0
count_live (e ∷ es) = (if is_fatal e then 0 else 1) + count_live es

abbrev entries_of : Option Items → List Json
entries_of none = []
entries_of (some xs) = to_list xs

abbrev pub progress_of : Option Json → ℤ → Progress
progress_of raw version =
    let entries = entries_of (items_of (get_in raw "processing")) in
    record { version = version; processing = count_live entries; fatal = any is_fatal entries }

-- A covered header that is not the umbrella itself.
abbrev offerable : Option Json → Bool
offerable header =
    is_text (get_in header "mode") "covered" && not (alias_only_key (get_in header "key"))

abbrev append_item : Items → Json → Items
append_item nil j = cons j nil
append_item (cons x xs) j = cons x (append_item xs j)

abbrev pub version_or : Option ℤ → ℤ → ℤ
version_or none d = d
version_or (some v) d = v

abbrev with_note : Json → Json → Items → Json → Json
with_note msg p diagnostics note =
    put "params" (put "diagnostics" (arr (append_item diagnostics note)) p) msg

-- The names of a burst of diagnostics, for a document at `version`.
abbrev pub publish : List String → Machine → Json → Json → Items → ℤ → Machine × Json
publish [] s msg p diagnostics version = (record s { collision = none }, msg)
publish (n ∷ ns) s msg p diagnostics version = (
  record s {
    collision =
        some
          (record { names = n ∷ ns; version = version_or (number_of (get "version" p)) version });
  },
  with_note msg p diagnostics (collision_note s.header_line (n ∷ ns)),
)

-- A publish: a known parameter, a list of diagnostics and a document.
abbrev pub on_publish :
    Option Json → Option Items → Option Doc → Machine → Json → Option (Machine × Json)
on_publish (some p) (some diagnostics) (some d) s msg = some (
    publish (if offerable s.header then colliding_names diagnostics else []) s msg p diagnostics
      d.version)
on_publish _ _ _ s msg = none

abbrev pub on_progress : Option Json → Option ℤ → Machine → Machine
on_progress raw none s = s
on_progress raw (some v) s = record s { progress = some (progress_of raw v) }

-- The frame as it is shown, unless the publish rule has one.
abbrev pub published_or : Option (Machine × Json) → Machine × Json → Machine × Json
published_or (some r) other = r
published_or none other = other

-- What a fileProgress and a headerStatus change.
abbrev pub on_notice : Machine → Option Json → Json → Machine
on_notice s raw msg =
    if has_method msg "$/lean/fileProgress" && is_some (version_of (get_in raw "textDocument"))
    then on_progress raw (version_of (get_in raw "textDocument")) s
    else if has_method msg "$/qed64/headerStatus" && truthy (get "params" msg)
    then record s { header = get "params" msg }
    else s

abbrev pub published : Machine → Json → Option (Machine × Json)
published s msg =
    if has_method msg "textDocument/publishDiagnostics"
    then on_publish (get "params" msg) (items_of (get_in (get "params" msg) "diagnostics")) s.doc s
        msg
    else none

-- A frame of the FileWorker: `msg` is shifted to the client's versions, `raw` are the parameters as
-- they came.
unfoldable pub server_frame : Machine → Option Json → Json → Machine × Json
server_frame s raw msg = published_or (published s msg) (on_notice s raw msg, msg)

abbrev pub msgs_of : List Held → List Json
msgs_of [] = []
msgs_of (q ∷ qs) = q.msg ∷ msgs_of qs

-- `died` drops the backlog with the ring.
abbrev pub on_died : Machine → Machine
on_died s = record s { phase = Phase.dead; backlog = [] }

abbrev pub on_ring : Machine → Bool → Turn
on_ring s busy =
    if busy
    then begin (record s { ring_busy = true })
    else record (begin (record s { ring_busy = false; backlog = [] })) {
      ring_writes = msgs_of s.backlog;
    }

abbrev pub on_booted : Phase → Machine → Turn
on_booted Phase.booting s = drain_with (admit 1) (begin (record s { phase = Phase.ready }))
on_booted _ s = begin s

abbrev pub on_server : Machine → Json → Turn
on_server s msg =
    let (s', shown) = server_frame s (get "params" msg) (shift_versions msg (pos 0 -ℤ s.base)) in
    record (begin s') { replies = shown ∷ [] }

unfoldable pub handle : Machine → Frame → Turn
unfolding admit server_frame
handle s (client msg replay) = admit 1 (begin s) msg replay
handle s (server msg) = on_server s msg
handle s Frame.booted = on_booted s.phase s
handle s (ring busy) = on_ring s busy
handle s died = begin (on_died s)

unfoldable pub step : Machine → Frame → Result
unfolding handle status_of
step s frame = let t = handle s frame in record { turn = t; status_delta = status_of t.state }
