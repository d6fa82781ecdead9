-- ===== src/FrontDoor/Tests.antt =====
-- A session with public/workers/lsp-front-door.js, and the theorems about the machine at it.
use qed.Common.{
  ℕ, ◌≡◌, ◌≢◌, ◌++◌, ◌∙◌, sym, arith, if◌then◌else◌, refl, true, false, none, some, List, [], ◌∷◌,
}
use qed.Common.Int.{ℤ, pos, ◌+ℤ◌, ◌-ℤ◌, ◌≤ℤ◌, ◌<ℤ◌}
use qed.Common.Json.{Json, num, str, arr, obj, nil, cons, end, field}
use qed.FrontDoor.Machine.{
  Phase, enqueue, Machine, Held, Progress, begin, initial_state, did_open, did_change,
}
use qed.FrontDoor.Valid.{IsSound}
use qed.FrontDoor.Admit.{admit, admit_with}
use qed.FrontDoor.Log.{run, ring_log, is_opening, ring_log-is_opening, run-IsSound}
use qed.FrontDoor.Handled.{handle-IsSound}
use qed.FrontDoor.Depth.{admit_depth}
use qed.FrontDoor.Machine.{Doc}
use qed.FrontDoor.Versions.{IsMove, handle-grows}
use qed.FrontDoor.Ready.{raised-not-ready}
use qed.FrontDoor.Coalesce.{IsCoalesced, others, is_content, enqueue-IsCoalesced}
use qed.FrontDoor.Step.{Frame, client, booted, ring, handle, phase_of, StatusPhase}

abbrev notification : Json → Json → Json
notification method params =
    obj (field "jsonrpc" (str "2.0") (field "method" method (field "params" params end)))

abbrev request : ℕ → Json → Json → Json
request id method params = obj (
    field "jsonrpc" (str "2.0")
      (field "id" (num (pos id)) (field "method" method (field "params" params end))))

abbrev initialize : Json
initialize = request 1 (str "initialize") (obj end)

abbrev open_at : ℕ → Json
open_at v = notification (str did_open) (
    obj (
      field "textDocument"
        (obj (
          field "uri" (str "file:///a.lean") (
            field "languageId" (str "lean4")
              (field "version" (num (pos v)) (field "text" (str "import Mathlib") end)))))
        end))

abbrev change_at : ℕ → Json
change_at v = notification (str did_change) (
    obj (
      field "textDocument"
        (obj (field "uri" (str "file:///a.lean") (field "version" (num (pos v)) end)))
        (field "contentChanges" (arr (cons (obj (field "text" (str "import Mathlib\n") end)) nil))
          end)))

abbrev hover : Json
hover = request 2 (str "textDocument/hover") (obj end)

-- An initialize and a request that wait, the boot, a document and an edit.
abbrev session : List Frame
session =
    client initialize false
    ∷ client hover false
    ∷ booted
    ∷ client (open_at 1) false
    ∷ client (change_at 2) false
    ∷ []

abbrev open_machine : Machine
open_machine = run initial_state session

session_version : open_machine.last_version ≡ pos 2
unfolding run handle admit_with ◌+ℤ◌
session_version = refl

reopened_version : (handle open_machine (client (open_at 1) false)).state.last_version ≡ pos 3
unfolding run handle admit_with ◌+ℤ◌ ◌-ℤ◌
reopened_version = refl

session_open : open_machine.phase ≡ Phase.opened
unfolding run handle admit_with
session_open = refl

session_progress : open_machine.progress ≡ none
unfolding run handle admit_with
session_progress = refl

ring_log-is_opening_example : is_opening (ring_log initial_state session) ≡ true
ring_log-is_opening_example = ring_log-is_opening session

run-IsSound_example : IsSound (begin (run initial_state session))
run-IsSound_example = run-IsSound session

handle-IsSound_example : IsSound (handle open_machine (ring true))
handle-IsSound_example = handle-IsSound open_machine (ring true) (run-IsSound session)

admit_depth_example :
    admit 5 (begin open_machine) (open_at 1) false ≡ admit 1 (begin open_machine) (open_at 1) false
admit_depth_example = admit_depth 4 (begin open_machine) (open_at 1) false (run-IsSound session)

handle-grows_example :
    (open_machine.last_version
      ≤ℤ (handle open_machine (client (change_at 3) false)).state.last_version)
    × (d : Doc) × (open_machine.doc ≡ some d)
    × IsMove open_machine d
        (client (change_at 3) false)
        (handle open_machine (client (change_at 3) false))
handle-grows_example =
    handle-grows open_machine (client (change_at 3) false) (run-IsSound session) session_open

no_progress :
    (p : Progress) → open_machine.progress ≡ some p → p.version ≤ℤ open_machine.last_version
no_progress p e = absurd (none_some p (sym session_progress ∙ e))
  where
    none_some : (p : Progress) → none ≢ some p
    none_some p e = cc

two_below_three : (a b : ℤ) → a ≡ pos 2 → b ≡ pos 3 → a <ℤ b
two_below_three a b h k = rw (h, k) (omega arith)

reopened_raises :
    open_machine.last_version <ℤ (handle open_machine (client (open_at 1) false)).state.last_version
reopened_raises = two_below_three _ _ session_version reopened_version

raised-not-ready_example :
    (phase_of (handle open_machine (client (open_at 1) false)).state ≢ StatusPhase.ready)
    × (phase_of (handle open_machine (client (open_at 1) false)).state ≢ StatusPhase.header_refused)
raised-not-ready_example =
    raised-not-ready open_machine (open_at 1) false (run-IsSound session) session_open no_progress
      reopened_raises

abbrev held_frames : List Held
held_frames =
    record { msg = open_at 1; replay = false }
    ∷ record { msg = hover; replay = false }
    ∷ record { msg = change_at 2; replay = false }
    ∷ []

enqueue-IsCoalesced_example :
    IsCoalesced (enqueue held_frames (record { msg = change_at 3; replay = false }))
    × (others (enqueue held_frames (record { msg = change_at 3; replay = false }))
        ≡ others held_frames
          ++ (if is_content (change_at 3)
              then []
              else record { msg = change_at 3; replay = false } ∷ []))
    × ((ys : List Held) × (enqueue held_frames (record { msg = change_at 3; replay = false })
          ≡ ys ++ record { msg = change_at 3; replay = false } ∷ []))
enqueue-IsCoalesced_example =
    enqueue-IsCoalesced held_frames (record { msg = change_at 3; replay = false })
      (omega arith, omega arith)
