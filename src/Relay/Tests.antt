-- ===== src/Relay/Tests.antt =====
-- A session with lib/lsp-relay.ts: a document, a request, three crashes, an edit.
use qed.Common.{◌+◌}
use qed.Common.{ℕ, ◌≡◌, ◌⊎◌, ◌++◌, refl, true, false, not, ◌&&◌, ◌==◌, none, List, [], ◌∷◌}
use qed.Common.Int.{pos}
use qed.Common.Json.{Json, num, str, arr, obj, nil, cons, end, field}
use qed.FrontDoor.Words.{is_import_line, split_lines}
use qed.FrontDoor.Machine.{did_open, did_change}
use qed.Edge.Keys.{after_prefix}
use qed.Relay.Machine.{forget_opts, reboot, fail_in_flight, halt, is_halted, on_died, rearm}
use qed.Relay.Types.{armed, disposed, orphaned, create}
use qed.Relay.Run.{
  remember, from_client, boot_started, Event, client, died, settled, boot_done, boot_ready, happen,
  Timed, run, client_frames,
}
use qed.Relay.Told.{last_initialize, since_open}
use qed.Relay.Replay.{initialize_to, told_to, run-replays}
use qed.Relay.Answered.{Did, answers, on_died-Did}
use qed.Relay.Stays.{seat, happen-seat}

abbrev note : Json → Json → Json
note method params = obj (field "method" method (field "params" params end))

abbrev opening : Json
opening = note (str did_open) (
    obj (
      field "textDocument"
        (obj (
          field "uri" (str "file:///a.lean") (
            field "languageId" (str "lean4")
              (field "version" (num (pos 1)) (field "text" (str "import A\n") end)))))
        end))

abbrev edit : Json
edit = note (str did_change) (
    obj (
      field "textDocument"
        (obj (field "uri" (str "file:///a.lean") (field "version" (num (pos 2)) end)))
        (field "contentChanges" (arr (cons (obj (field "text" (str "import B\n") end)) nil)) end)))

abbrev hover : Json
hover = obj (field "id" (num (pos 7)) (field "method" (str "$/lean/rpc/call") end))

abbrev greeting : Json
greeting = obj (field "id" (num (pos 1)) (field "method" (str "initialize") end))

abbrev at : ℕ → Event → Timed
at t e = record { at = t; event = e }

abbrev crash_of : ℕ → Event
crash_of session = died session "crash" "unreachable" none none

-- Two crashes within the breaker's window.
abbrev crashes : List Timed
crashes =
    at 0 (client greeting)
    ∷ at 1 (client opening)
    ∷ at 2 (boot_done 0)
    ∷ at 3 (boot_ready 0)
    ∷ at 4 (client edit)
    ∷ at 5 (client hover)
    ∷ at 1000 (crash_of 0)
    ∷ at 2500 (settled 1)
    ∷ at 2600 (boot_done 1)
    ∷ at 2700 (boot_ready 1)
    ∷ at 2800 (client hover)
    ∷ at 3000 (crash_of 1)
    ∷ at 4500 (settled 2)
    ∷ []

abbrev third : List Timed
third = crashes ++ at 5000 (client hover) ∷ at 6000 (crash_of 2) ∷ []

third_halts : is_halted (run create third).state ≡ true
unfolding happen from_client remember on_died fail_in_flight reboot forget_opts halt after_prefix
    split_lines is_import_line
third_halts = refl

edit_wakes : (run create (third ++ at 7000 (client edit) ∷ [])).session ≡ 3
unfolding happen from_client remember on_died fail_in_flight reboot forget_opts halt rearm
    after_prefix split_lines is_import_line
edit_wakes = refl

run-replays_example :
    let r = run create crashes in
    let msgs = client_frames crashes in
    (boot_started r.session r).out
    ≡ r.out
      ++ (initialize_to r.session (last_initialize none msgs)
          ++ told_to r.session (since_open msgs))
      ++ armed r.session ∷ []
run-replays_example = run-replays crashes

on_died-Did_example :
    let r = run create crashes in
    let t = on_died 6000 2 "crash" "unreachable" none none r in
    let stats = r.stats in
    (((2 == r.session && not (is_halted r.state)) ≡ true)
      × Did t (r.out ++ answers orphaned r.pending ++ disposed 2 ∷ []))
    ⊎ (((2 == r.session && not (is_halted r.state)) ≡ false)
        × (t ≡ record r { stats = record stats { stale_deaths = stats.stale_deaths + 1 } }))
on_died-Did_example = on_died-Did 6000 2 "crash" "unreachable" none none (run create crashes)

happen-seat_example : seat (happen 6500 (client hover) (run create third)) ≡ seat (run create third)
happen-seat_example = happen-seat 6500 (client hover) (run create third) third_halts refl refl
