-- ===== src/Relay/Replay.antt =====
-- What a boot in lib/lsp-relay.ts gives to the new session.
use Prim.Native.String.{String}
use qed.Common.{
  ℕ, ◌≡◌, refl, sym, ap, ◌∙◌, true, not, ◌&&◌, Option, none, some, List, [], ◌∷◌, ◌++◌, ◌==◌,
  if◌then◌else◌, if_rule,
}
use qed.Common.Json.{Json, get, is_text}
use qed.Relay.Machine.{emit, is_halted, on_died}
use qed.Relay.Types.{serving, Doc, Effect, told, Relay, create}
use qed.Relay.Run.{
  Memory, remember, memory, settle_call, replay_initialize, replay_doc, boot_started, Event, client,
  server, status_of, died, settled, boot_done, boot_ready, boot_rejected, restarted, rearmed,
  unloaded, happen, Timed, run, frames_in, client_frames, remember_all,
}
use qed.Common.{append_assoc, append-nil, arith}
use qed.Relay.Types.{forwarded, reopened, started, armed, passed}
use qed.Common.{Option-cases, inl, inr}
use qed.Relay.Told.{last_initialize, since_open, told_doc, last_text, opening_text}
use qed.Relay.Recalled.{last_initialize-remember, unopened-doc, opened-KnowsDoc}
use qed.Relay.Memory.{on_died-memory, rearm-memory, restart_with-memory, from_client-memory}

settle_call-memory :
    (id method : Option Json) (r : Relay) → memory (settle_call id method r) ≡ memory r
settle_call-memory (some id) none r = refl
settle_call-memory none method r = refl
settle_call-memory (some id) (some method) r = refl

replay-memory :
    (at : ℕ) (r : Relay)
    → memory (replay_doc r.doc at (replay_initialize r.initialize at r)) ≡ memory r
replay-memory at r =
    doc_part r.doc (replay_initialize r.initialize at r) ∙ initialize_part r.initialize
  where
    initialize_part : (m : Option Json) → memory (replay_initialize m at r) ≡ memory r
    initialize_part none = refl
    initialize_part (some msg) = refl

    doc_part : (d : Option Doc) (t : Relay) → memory (replay_doc d at t) ≡ memory t
    doc_part none t = refl
    doc_part (some d) t = refl

happen-memory :
    (now : ℕ) (e : Event) (r : Relay)
    → memory (happen now e r) ≡ remember_all (frames_in e) (memory r)
unfolding happen
happen-memory now (client msg) r = from_client-memory msg r
happen-memory now (server from msg) r =
    let answered = emit (passed msg) (settle_call (get "id" msg) (get "method" msg) r) in
    if_rule (λ t. memory t ≡ memory r) (from == r.session) answered r
      (λ _. settle_call-memory (get "id" msg) (get "method" msg) r) λ _. refl
happen-memory now (status_of from st) r =
    let seen = record r { last_status = some st } in
    let alive = record seen { last_death = none } in
    let shown = if is_text (get "phase" st) "ready" then alive else seen in
    if_rule (λ t. memory t ≡ memory r) (from == r.session) (emit told shown) r
      (λ _.
        if_rule (λ t. memory (emit told t) ≡ memory r) (is_text (get "phase" st) "ready") alive seen
          (λ _. refl) λ _. refl)
      λ _. refl
happen-memory now (died at reason message cause code) r =
    on_died-memory now at reason message cause code r
happen-memory now (settled at) r =
    if_rule (λ t. memory t ≡ memory r) (at == r.session) (emit (started at) r) r (λ _. refl)
      λ _. refl
happen-memory now (boot_done at) r =
    if_rule (λ t. memory t ≡ memory r) (at == r.session)
      (emit (armed at) (replay_doc r.doc at (replay_initialize r.initialize at r))) r
      (λ _. replay-memory at r) λ _. refl
happen-memory now (boot_ready at) r =
    if_rule (λ t. memory t ≡ memory r) (at == r.session) (emit told (record r { state = serving }))
      r (λ _. refl) λ _. refl
happen-memory now (boot_rejected at message cause) r =
    if_rule (λ t. memory t ≡ memory r) (at == r.session && not (is_halted r.state))
      (on_died now at "bootFailed" message cause none r) r
      (λ _. on_died-memory now at "bootFailed" message cause none r) λ _. refl
happen-memory now (restarted opts) r = restart_with-memory opts r
happen-memory now rearmed r = rearm-memory r
happen-memory now unloaded r = refl

abbrev pub nothing : Memory
nothing = record { initialize = none; doc = none; last_text = "" }

remember_all-++ :
    (xs ys : List Json) (m : Memory)
    → remember_all (xs ++ ys) m ≡ remember_all ys (remember_all xs m)
remember_all-++ [] ys m = refl
remember_all-++ (x ∷ xs) ys m = remember_all-++ xs ys (remember x m)

run-memory :
    (es : List Timed) (r : Relay) → memory (run r es) ≡ remember_all (client_frames es) (memory r)
run-memory [] r = refl
run-memory (e ∷ es) r =
    run-memory es (happen e.at e.event r)
    ∙ ap (remember_all (client_frames es)) (happen-memory e.at e.event r)
    ∙ sym (remember_all-++ (frames_in e.event) (client_frames es) (memory r))

-- The initialize, and the document opened with a text, as far as there are any.
abbrev pub initialize_to : ℕ → Option Json → List Effect
initialize_to to none = []
initialize_to to (some msg) = forwarded to msg true ∷ []

abbrev pub document_to : ℕ → Option Doc → String → List Effect
document_to to none text = []
document_to to (some doc) text = reopened to doc text ∷ []

abbrev pub replays : ℕ → Memory → List Effect
replays to m = initialize_to to m.initialize ++ document_to to m.doc m.last_text

replay-out :
    (to : ℕ) (i : Option Json) (d : Option Doc) (r : Relay)
    → (replay_doc d to (replay_initialize i to r)).out
      ≡ r.out ++ initialize_to to i ++ document_to to d r.last_text
replay-out to none none r = sym (append-nil (r.out ++ []) ∙ append-nil r.out)
replay-out to (some msg) none r = sym (append-nil (r.out ++ forwarded to msg true ∷ []))
replay-out to none (some doc) r =
    ap (λ l. l ++ reopened to doc r.last_text ∷ []) (sym (append-nil r.out))
replay-out to (some msg) (some doc) r = refl

boot_started-out :
    (r : Relay)
    → (boot_started r.session r).out ≡ r.out ++ replays r.session (memory r) ++ armed r.session ∷ []
boot_started-out r =
    if_rule (λ t. t.out ≡ r.out ++ replays r.session (memory r) ++ armed r.session ∷ [])
      (r.session == r.session)
      (emit (armed r.session)
        (replay_doc r.doc r.session (replay_initialize r.initialize r.session r)))
      r
      (λ _.
        ap (λ l. l ++ armed r.session ∷ [])
          (replay-out r.session r.initialize r.doc r
            ∙ append_assoc r.out (initialize_to r.session r.initialize)
                (document_to r.session r.doc r.last_text)))
      λ c. ground (arith, c)

-- What the client said last of its document, if it has opened one: the document as it was opened last,
-- with the last version and the last full text since then.
abbrev pub told_to : ℕ → Option (Json × List Json) → List Effect
told_to to none = []
told_to to (some (o, since)) =
    reopened to (told_doc o since) (last_text (opening_text o) since) ∷ []

document_to-told_to :
    (to : ℕ) (msgs : List Json)
    → document_to to (remember_all msgs nothing).doc (remember_all msgs nothing).last_text
      ≡ told_to to (since_open msgs)
document_to-told_to to msgs = elim (Option-cases (since_open msgs)) [
  | inl e ↦
      ap (λ d. document_to to d (remember_all msgs nothing).last_text)
        (unopened-doc msgs nothing e refl)
      ∙ sym (ap (told_to to) e)
  | inr ((o, since), e) ↦
      let knows = opened-KnowsDoc msgs nothing o since e in
      ap (λ d. document_to to d (remember_all msgs nothing).last_text) knows.0
      ∙ ap (λ t. document_to to (some (told_doc o since)) t) knows.1
      ∙ sym (ap (told_to to) e)
]

-- A new session gets the client's document back, whatever happened. Behind any sequence of the client's
-- frames, the sessions' messages, deaths, boots and restarts, the session that has started is given the
-- last initialize that the client sent, if it sent one, and, if it opened a document, the document of
-- its last didOpen, with the version of the last change behind that didOpen and the text of the last
-- change behind it that has a text without a range (or with those of the didOpen), and only then is it
-- armed.
pub run-replays :
    (es : List Timed)
    → let r = run create es in
      let msgs = client_frames es in
      (boot_started r.session r).out
      ≡ r.out
        ++ (initialize_to r.session (last_initialize none msgs)
            ++ told_to r.session (since_open msgs))
        ++ armed r.session ∷ []
run-replays es =
    let r = run create es in
    let msgs = client_frames es in
    let m = remember_all msgs nothing in
    boot_started-out r
    ∙ ap (λ m. r.out ++ replays r.session m ++ armed r.session ∷ []) (run-memory es create)
    ∙ ap
        (λ i.
          r.out
          ++ (initialize_to r.session i ++ document_to r.session m.doc m.last_text)
          ++ armed r.session ∷ [])
        (last_initialize-remember msgs nothing)
    ∙ ap
        (λ d.
          r.out
          ++ (initialize_to r.session (last_initialize none msgs) ++ d)
          ++ armed r.session ∷ [])
        (document_to-told_to r.session msgs)
