-- ===== src/Coalescer/Tests.antt =====
-- A session with lib/edit-coalescer.ts: two quick edits, a notification behind the held one, a
-- request, its cancel, an opened document.
use qed.Common.{ℕ, ◌≡◌, refl, true, false, none, some, List, [], ◌∷◌, ◌++◌}
use qed.Common.Int.{pos}
use qed.Common.Json.{Json, num, str, arr, obj, nil, cons, end, field}
use qed.FrontDoor.Machine.{did_open, did_change}
use qed.Coalescer.Frames.{is_full_text_change}
use qed.Coalescer.Machine.{PoolSample, default_options, create}
use qed.Coalescer.Send.{Event, sent, observed, window_fired, Timed, run, sent_of}
use qed.Coalescer.Order.{filter, is_ordered, forwards, msgs_of}
use qed.Coalescer.Stream.{run-fifo}
use qed.Coalescer.Newest.{newest, last_full}
use qed.Coalescer.Wins.{run-newest}

abbrev document : Json
document = obj (field "uri" (str "file:///a.lean") end)

abbrev note : Json → Json → Json
note method params = obj (field "method" method (field "params" params end))

abbrev edit : Json → Json
edit text = note (str did_change) (
    obj (
      field "textDocument" document
        (field "contentChanges" (arr (cons (obj (field "text" text end)) nil)) end)))

abbrev ask : Json
ask = obj (
    field "id" (num (pos 7)) (
      field "method" (str "textDocument/completion")
        (field "params" (obj (field "textDocument" document end)) end)))

abbrev rpc_release : Json
rpc_release = note (str "$/lean/rpc/release") document

abbrev opened : Json
opened = note (str did_open) (obj (field "textDocument" document end))

abbrev quit : Json
quit = note (str "$/cancelRequest") (obj (field "id" (num (pos 7)) end))

abbrev pool : PoolSample
pool = record { unused = some 9; running = some 2 }

abbrev at : ℕ → Event → Timed
at t e = record { at = t; event = e }

abbrev session : List Timed
session =
    at 0 (sent (edit (str "a")) false)
    ∷ at 10 (sent (edit (str "ab")) false)
    ∷ at 20 (sent rpc_release false)
    ∷ at 25 (sent ask false)
    ∷ at 30 (sent (edit (str "abc")) false)
    ∷ at 300 (observed (some pool))
    ∷ at 300 window_fired
    ∷ at 310 (sent quit false)
    ∷ at 320 (sent opened true)
    ∷ []

run-fifo_example :
    filter is_ordered (forwards (run default_options create session).out)
      ++ filter is_ordered (msgs_of (run default_options create session).queue)
    ≡ filter is_ordered (sent_of session)
run-fifo_example = run-fifo default_options session

run-newest_example : newest (run default_options create session) ≡ last_full none (sent_of session)
run-newest_example = run-newest default_options session refl

newest_text : last_full none (sent_of session) ≡ some (edit (str "abc"))
unfolding is_full_text_change
newest_text = refl
