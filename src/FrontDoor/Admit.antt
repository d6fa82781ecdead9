-- ===== src/FrontDoor/Admit.antt =====
-- `admit` and `drain` of public/workers/lsp-front-door.js: one client frame through the machine, and
-- the replay of the held queue. They call each other; `depth` bounds the nesting (see Depth).
use qed.Common.{
  ℕ, zero, suc, ◌+◌, Bool, true, false, not, ◌&&◌, ◌||◌, Option, none, some, List, [], ◌∷◌, ◌++◌,
  if◌then◌else◌,
}
use qed.Common.Lists.{any}
use qed.Common.Int.{ℤ, pos, ◌+ℤ◌, ◌-ℤ◌, eqb_ℤ, leb_ℤ}
use qed.Common.Json.{
  Json, num, str, arr, obj, nil, cons, end, field, get, get_in, number_of, text_of, truthy, is_text,
  is_some,
}
use qed.FrontDoor.Words.{header_line_of, import_lines_of}
use qed.FrontDoor.Machine.{
  Phase, ready, opened, dead, Doc, Held, Machine, Turn, did_open, did_change, is_forwarded,
  has_method, is_request, text_document, version_of, enqueue, emit,
}
use qed.FrontDoor.Replies.{
  optional, response, initialize_response, shutdown_response, completion_refused,
}

abbrev pub drop_frame : Turn → Turn
drop_frame t = record t { state = record t.state { dropped = t.state.dropped + 1 } }

abbrev pub reply : Json → Turn → Turn
reply msg t = record t { replies = t.replies ++ msg ∷ [] }

abbrev pub hold : Json → Bool → Turn → Turn
hold msg replay t = record t {
  state = record t.state { queue = enqueue t.state.queue (record { msg = msg; replay = replay }) };
}

-- `importLines.has(line)`
abbrev has_line : List ℕ → Option ℤ → Bool
has_line lines none = false
has_line lines (some n) = any (λ l. eqb_ℤ (pos l) n) lines

-- The cursor of a completion stands on an import line.
abbrev pub on_import : Machine → Json → Bool
on_import s msg =
    has_line s.import_lines (number_of (get_in (get_in (get "params" msg) "position") "line"))

abbrev pub header_refused : Machine → Bool
header_refused s = is_text (get_in s.header "mode") "refused"

-- A didOpen on a live loop, as a change of the whole text.
abbrev pub change_of_open : Option Json → ℤ → Json
change_of_open td version = obj (
    field "jsonrpc" (str "2.0") (
      field "method" (str did_change) (
        field "params"
          (obj (
            field "textDocument"
              (obj (optional "uri" (get_in td "uri") (field "version" (num version) end)))
              (field "contentChanges"
                (arr (cons (obj (optional "text" (get_in td "text") end)) nil)) end)))
          end)))

abbrev pub doc_of : Option Json → ℤ → Doc
doc_of td version = record {
  uri = get_in td "uri";
  language_id = get_in td "languageId";
  version = version;
}

unfoldable pub reopen : Turn → Option Json → ℤ → Turn
unfolding emit
reopen t td version =
    emit
      (record t {
        state = record t.state {
          base = t.state.last_version +ℤ pos 1 -ℤ version;
          doc = some (doc_of td version);
        };
      })
      (change_of_open td version)

-- `initialize` as the FileWorker reads it; the id is 0 and the params are empty where there are none.
abbrev pub params_or_empty : Option Json → Json
params_or_empty init = elim (get_in init "params") [
  | none ↦ obj end
  | some p ↦ if truthy (some p) then p else obj end
]

abbrev pub id_or_zero : Option Json → Option Json
id_or_zero none = some (num (pos 0))
id_or_zero (some init) = get "id" init

abbrev pub initialize_frame : Option Json → Json
initialize_frame init =
    response (id_or_zero init)
      (field "method" (str "initialize") (field "params" (params_or_empty init) end))

-- The opening sequence, before the queue is drained.
unfoldable pub open_loop : Turn → Json → Option Json → ℤ → Turn
open_loop t msg td version = record t {
  state = record t.state {
    base = pos 0;
    doc = some (doc_of td version);
    last_version = version;
    header_line = header_line_of (text_of (get_in td "text"));
    import_lines = import_lines_of (text_of (get_in td "text"));
    phase = opened;
  };
  ring_writes = t.ring_writes ++ initialize_frame t.state.initialize ∷ msg ∷ [];
  start_loop = true;
}

-- The version is at or below the document's.
abbrev pub is_stale : Option ℤ → Option Doc → Bool
is_stale (some v) (some d) = leb_ℤ v d.version
is_stale _ _ = false

module _ (drain : Turn → Turn) where
  -- The rule for a didOpen that has a document and a version.
  abbrev pub open_in : Phase → Turn → Json → Bool → Option Json → ℤ → Turn
  open_in opened t msg replay td version = reopen t td version
  open_in ready t msg replay td version = drain (open_loop t msg td version)
  open_in _ t msg replay td version = hold msg replay t

  abbrev pub open_version : Option ℤ → Turn → Json → Bool → Turn
  open_version none t msg replay = drop_frame t
  open_version (some version) t msg replay =
      open_in t.state.phase t msg replay (text_document msg) version

  abbrev pub admit_open : Turn → Json → Bool → Turn
  admit_open t msg replay = open_version (version_of (text_document msg)) t msg replay

  -- Every other frame that may go to the FileWorker.
  abbrev pub admit_other : Phase → Turn → Json → Bool → Turn
  admit_other opened t msg replay =
      if has_method msg did_change && is_stale (version_of (text_document msg)) t.state.doc
      then drop_frame t
      else emit t msg
  admit_other _ t msg replay = hold msg replay t

  -- What is left once the requests that the machine answers are answered.
  abbrev pub admit_frame : Phase → Turn → Json → Bool → Turn
  admit_frame dead t msg replay = drop_frame t
  admit_frame phase t msg replay =
      if has_method msg did_open
      then admit_open t msg replay
      else if not (is_request msg) && is_some (get "method" msg) && not (is_forwarded msg)
      then drop_frame t
      else admit_other phase t msg replay

  unfoldable pub admit_with : Turn → Json → Bool → Turn
  unfolding emit reopen open_loop enqueue
  admit_with t msg replay =
      let s = t.state in
      if has_method msg "initialize" && is_request msg
      then (let cached = record t { state = record s { initialize = some msg } } in
          if replay then cached else reply (initialize_response (get "id" msg)) cached)
      else if has_method msg "shutdown" && is_request msg
      then reply (shutdown_response (get "id" msg)) t
      else if (is_request msg && has_method msg "textDocument/completion")
          && (on_import s msg || header_refused s)
      then reply (completion_refused (on_import s msg) (get "id" msg)) (drop_frame t)
      else admit_frame s.phase t msg replay

module _ (admit : Turn → Json → Bool → Turn) where
  abbrev pub admit_each : List Held → Turn → Turn
  admit_each [] t = t
  admit_each (q ∷ qs) t = admit_each qs (admit t q.msg q.replay)

  -- `drain`
  abbrev pub drain_with : Turn → Turn
  drain_with t = admit_each t.state.queue (record t { state = record t.state { queue = [] } })

unfoldable pub admit : ℕ → Turn → Json → Bool → Turn
admit zero = admit_with (λ t. t)
admit (suc depth) = admit_with (drain_with (admit depth))
