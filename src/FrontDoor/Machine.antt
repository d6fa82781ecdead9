-- ===== src/FrontDoor/Machine.antt =====
-- The state of the front door machine (public/workers/lsp-front-door.js), and what every rule of it
-- uses: version shifts, held frames, and the write of one outbound frame.
use qed.Common.{
  ℕ, String, Bool, false, ◌&&◌, ◌||◌, Option, none, some, List, [], ◌∷◌, ◌++◌, if◌then◌else◌,
}
use qed.Common.Lists.{any}
use qed.Common.Int.{ℤ, pos, negsuc, ◌+ℤ◌, eqb_ℤ}
use qed.Common.Json.{
  Json, Items, num, cons, get, put, get_in, number_of, text_of, items_of, truthy, is_text, is_some,
}
use qed.FrontDoor.Words.{HeaderLine, header_line_of, import_lines_of}

-- `opened` is the source's "open".
pub data Phase : Type 0 where
  booting ready opened dead : Phase

pub record Doc : Type 0 where
  pub uri : Option Json
  pub language_id : Option Json
  pub version : ℤ

pub record Progress : Type 0 where
  pub version : ℤ
  pub processing : ℕ
  pub fatal : Bool

pub record Collision : Type 0 where
  pub names : List String
  pub version : ℤ

-- A frame in the queue or the backlog.
pub record Held : Type 0 where
  pub msg : Json
  pub replay : Bool

pub record Machine : Type 0 where
  pub phase : Phase
  pub initialize : Option Json
  pub queue : List Held
  pub backlog : List Held
  pub ring_busy : Bool
  pub doc : Option Doc
  pub base : ℤ
  pub last_version : ℤ
  pub progress : Option Progress
  pub header : Option Json
  pub collision : Option Collision
  pub header_line : HeaderLine
  pub import_lines : List ℕ
  pub dropped : ℕ

abbrev pub initial_state : Machine
initial_state = record {
  phase = booting;
  initialize = none;
  queue = [];
  backlog = [];
  ring_busy = false;
  doc = none;
  base = pos 0;
  last_version = negsuc 0;
  progress = none;
  header = none;
  collision = none;
  header_line = record { line = 0; length = 1 };
  import_lines = [];
  dropped = 0;
}

-- The state and the effects of one step so far (`s` and `r` of the source).
pub record Turn : Type 0 where
  pub state : Machine
  pub ring_writes : List Json
  pub replies : List Json
  pub start_loop : Bool

abbrev pub begin : Machine → Turn
begin s = record { state = s; ring_writes = []; replies = []; start_loop = false }

abbrev pub did_open : String
did_open = "textDocument/didOpen"

abbrev pub did_change : String
did_change = "textDocument/didChange"

-- The notifications that `FileWorker.handleNotification` dispatches.
abbrev pub forwarded_notifications : List String
forwarded_notifications =
    did_change ∷ "$/cancelRequest" ∷ "$/lean/staleDependency" ∷ "$/lean/rpc/release"
    ∷ "$/lean/rpc/keepAlive" ∷ []

-- `msg.method === name`
abbrev pub has_method : Json → String → Bool
has_method msg name = is_text (get "method" msg) name

abbrev pub is_forwarded : Json → Bool
is_forwarded msg = any (has_method msg) forwarded_notifications

-- `msg.id !== undefined && msg.method !== undefined`
abbrev pub is_request : Json → Bool
is_request msg = is_some (get "id" msg) && is_some (get "method" msg)

-- `msg.params.textDocument`
abbrev pub text_document : Json → Option Json
text_document msg = get_in (get "params" msg) "textDocument"

abbrev pub version_of : Option Json → Option ℤ
version_of j = number_of (get_in j "version")

-- One field `version` of an object, where there is a number in it.
abbrev pub shift_number : Option ℤ → Json → ℤ → Json
shift_number none j delta = j
shift_number (some v) j delta = put "version" (num (v +ℤ delta)) j

abbrev pub shift_version : Json → ℤ → Json
shift_version j delta = shift_number (number_of (get "version" j)) j delta

-- `{...own, textDocument: …}`, where the document has a version.
abbrev pub shift_document : Option ℤ → Json → Json → ℤ → Json
shift_document none doc own delta = own
shift_document (some v) doc own delta =
    put "textDocument" (put "version" (num (v +ℤ delta)) doc) own

abbrev pub shift_within : Option Json → Json → ℤ → Json
shift_within none own delta = own
shift_within (some doc) own delta = shift_document (number_of (get "version" doc)) doc own delta

abbrev pub shift_params : Json → ℤ → Json
shift_params p delta = shift_within (get "textDocument" p) (shift_version p delta) delta

abbrev pub shift_at : Option Json → Json → ℤ → Json
shift_at none msg delta = msg
shift_at (some p) msg delta =
    if eqb_ℤ delta (pos 0) then msg else put "params" (shift_params p delta) msg

unfoldable pub shift_versions : Json → ℤ → Json
shift_versions msg delta = shift_at (get "params" msg) msg delta

-- `enqueue`: only the newest document content is held.
abbrev pub without : (Json → Bool) → List Held → List Held
without gone [] = []
without gone (q ∷ qs) = let rest = without gone qs in if gone q.msg then rest else q ∷ rest

unfoldable pub enqueue : List Held → Held → List Held
enqueue held item =
    (if has_method item.msg did_change
      then without (λ m. has_method m did_change) held
      else if has_method item.msg did_open
      then without (λ m. has_method m did_change || has_method m did_open) held
      else held)
    ++ item ∷ []

-- The version that a written change carries, and the version of the worker.
abbrev pub at_version : ℤ → Option Doc → Option Doc
at_version v none = none
at_version v (some d) = some (record d { version = v })

abbrev pub note_version : Option ℤ → Machine → Machine
note_version none s = s
note_version (some v) s = record s { doc = at_version v s.doc; last_version = v +ℤ s.base }

-- `contentChanges[0]`, if it is a full text.
abbrev pub full_text : Option Items → Option String
full_text (some (cons c _)) = if is_some (get "range" c) then none else text_of (get "text" c)
full_text _ = none

abbrev pub note_text : Option String → Machine → Machine
note_text none s = s
note_text (some t) s = record s {
  header_line = header_line_of (some t);
  import_lines = import_lines_of (some t);
}

abbrev pub note_change : Json → Machine → Machine
note_change msg s =
    if has_method msg did_change && truthy (get "params" msg) && truthy (text_document msg)
    then note_text (full_text (items_of (get_in (get "params" msg) "contentChanges")))
        (note_version (version_of (text_document msg)) s)
    else s

-- To the ring, or parked.
abbrev pub write_wire : Json → Turn → Turn
write_wire wire t =
    if t.state.ring_busy
    then record t {
      state = record t.state {
        backlog = enqueue t.state.backlog (record { msg = wire; replay = false });
      };
    }
    else record t { ring_writes = t.ring_writes ++ wire ∷ [] }

unfoldable pub emit : Turn → Json → Turn
unfolding shift_versions enqueue
emit t msg =
    let s = note_change msg t.state in
    write_wire (shift_versions msg s.base) (record t { state = s })
