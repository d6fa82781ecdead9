-- ===== src/FrontDoor/Log.antt =====
-- The ring over the life of the machine (public/workers/lsp-front-door.js): everything that a
-- sequence of frames has written.
use qed.Common.{
  ◌≡◌, refl, ap, sym, subst, ◌∙◌, Bool, true, false, List, [], ◌∷◌, ◌++◌, arith, ◌⊎◌, inl, inr,
}
use qed.Common.Json.{Json, get}
use qed.Common.Int.{pos, ◌-ℤ◌}
use qed.FrontDoor.Machine.{
  Phase, booting, ready, opened, dead, Machine, Turn, begin, initial_state, text_document,
  shift_versions,
}
use qed.FrontDoor.Live.{is_wire}
use qed.FrontDoor.Valid.{IsSoundIn, IsSound, IsSound→IsLive}
use qed.FrontDoor.Served.{Seen, server_frame-Seen, begin-IsSoundIn}
use qed.FrontDoor.Handled.{Admits-IsOpen, handle-IsSound}
use qed.FrontDoor.Started.{emit-start_loop, reopen-start_loop, handle-IsStarted}
use qed.FrontDoor.Step.{
  Frame, client, server, booted, ring, died, handle, on_booted, on_ring, server_frame,
}
use qed.FrontDoor.Rules.{Admits, admit_with-Admits}
use qed.FrontDoor.Admit.{admit, admit_with, drain_with}

-- The machine behind a sequence of frames, and all that the ring has got.
unfoldable pub run : Machine → List Frame → Machine
run s [] = s
run s (f ∷ fs) = run (handle s f).state fs

unfoldable pub ring_log : Machine → List Frame → List Json
ring_log s [] = []
ring_log s (f ∷ fs) = (handle s f).ring_writes ++ ring_log (handle s f).state fs

-- Nothing, or the opening and then frames that the FileWorker may get.
abbrev pub is_opening : List Json → Bool
is_opening [] = true
is_opening (w ∷ ws) = is_wire true (w ∷ ws)

-- What a machine may still write: behind the opening no second one.
abbrev MayWrite : Phase → List Json → Type 0
MayWrite booting ws = is_opening ws ≡ true
MayWrite ready ws = is_opening ws ≡ true
MayWrite opened ws = is_wire false ws ≡ true
MayWrite dead ws = ws ≡ []

-- A dead machine stays dead.
Admits-dead :
    (drain : Turn → Turn) (t : Turn) (msg : Json) (replay : Bool) (t' : Turn)
    → t.state.phase ≡ dead
    → Admits drain t msg replay t'
    → t'.state.phase ≡ dead
Admits-dead drain t msg replay t' d (Admits.notes i n answers is) = ap (λ x. x.state.phase) is ∙ d
Admits-dead drain t msg replay t' d (Admits.holds w f is) = absurd cc
Admits-dead drain t msg replay t' d (Admits.reopens v o _ is) = absurd cc
Admits-dead drain t msg replay t' d (Admits.opens v o _ is) = absurd cc
Admits-dead drain t msg replay t' d (Admits.emits o _ f fresh is) = absurd cc

Seen-phase : (s s' : Machine) → Seen s s' → s'.phase ≡ s.phase
Seen-phase s s' (Seen.seen g h c e) = ap (λ x. x.phase) e

ring-phase : (s : Machine) (busy : Bool) → (on_ring s busy).state.phase ≡ s.phase
ring-phase s true = refl
ring-phase s false = refl

-- Once the loop is dead it stays so.
pub handle-dead :
    (s : Machine) (frame : Frame) → s.phase ≡ dead → (handle s frame).state.phase ≡ dead
unfolding handle admit
handle-dead s (client msg replay) d =
    Admits-dead (drain_with (admit_with (λ t. t))) (begin s) msg replay _ d
      (admit_with-Admits (drain_with (admit_with (λ t. t))) msg replay (begin s))
handle-dead s (server msg) d =
    let shown = shift_versions msg (pos 0 -ℤ s.base) in
    Seen-phase s (server_frame s (get "params" msg) shown).0
      (server_frame-Seen s (get "params" msg) shown)
    ∙ d
handle-dead s booted d = subst (λ p. (on_booted p s).state.phase ≡ dead) (sym d) d
handle-dead s (ring busy) d = ring-phase s busy ∙ d
handle-dead s died d = refl

-- An open turn that does not start the loop stays one.
Admits-running :
    (drain : Turn → Turn) (t : Turn) (msg : Json) (replay : Bool) (t' : Turn)
    → t.state.phase ≡ opened
    → t.start_loop ≡ false
    → Admits drain t msg replay t'
    → t'.start_loop ≡ false
Admits-running drain t msg replay t' d h (Admits.notes i n answers is) =
    ap (λ x. x.start_loop) is ∙ h
Admits-running drain t msg replay t' d h (Admits.holds w f is) = absurd cc
Admits-running drain t msg replay t' d h (Admits.reopens v o _ is) =
    ap (λ x. x.start_loop) is ∙ reopen-start_loop t (text_document msg) v ∙ h
Admits-running drain t msg replay t' d h (Admits.opens v o _ is) = absurd cc
Admits-running drain t msg replay t' d h (Admits.emits o _ f fresh is) =
    ap (λ x. x.start_loop) is ∙ emit-start_loop t msg ∙ h

-- An open machine stays open and does not start the loop again, or it dies.
pub handle-running :
    (s : Machine) (frame : Frame)
    → s.phase ≡ opened
    → IsSound (begin s)
    → (((handle s frame).state.phase ≡ opened) × ((handle s frame).start_loop ≡ false))
      ⊎ ((handle s frame).state.phase ≡ dead)
unfolding handle admit
handle-running s (client msg replay) o sound =
    let rule = admit_with-Admits (drain_with (admit_with (λ t. t))) msg replay (begin s) in
    let (live, e) =
      Admits-IsOpen (drain_with (admit_with (λ t. t))) (begin s) msg replay _
        (IsSound→IsLive (begin s) sound o, o) rule in
    inl (e, Admits-running (drain_with (admit_with (λ t. t))) (begin s) msg replay _ o refl rule)
handle-running s (server msg) o sound =
    let shown = shift_versions msg (pos 0 -ℤ s.base) in
    inl (
      Seen-phase s (server_frame s (get "params" msg) shown).0
            (server_frame-Seen s (get "params" msg) shown)
          ∙ o,
      refl,
    )
handle-running s booted o sound = inl (
    subst (λ p. ((on_booted p s).state.phase ≡ opened) × ((on_booted p s).start_loop ≡ false))
      (sym o) (o, refl))
handle-running s (ring true) o sound = inl (o, refl)
handle-running s (ring false) o sound = inl (o, refl)
handle-running s died o sound = inr refl

is_wire-++ :
    (b : Bool) (ws vs : List Json)
    → is_wire b ws ≡ true
    → is_wire false vs ≡ true
    → is_wire b (ws ++ vs) ≡ true
is_wire-++ false [] vs h k = k
is_wire-++ false (w ∷ ws) vs h k = ground (arith, is_wire-++ false ws vs)
is_wire-++ true [] vs h k = absurd cc
is_wire-++ true (w ∷ []) vs h k = absurd cc
is_wire-++ true (i ∷ o ∷ ws) vs h k = ground (arith, is_wire-++ false ws vs)

opening_of : (ws : List Json) → is_wire true ws ≡ true → is_opening ws ≡ true
opening_of [] h = refl
opening_of (w ∷ ws) h = h

-- One step before the opening, and what follows it.
unopened_step :
    (q : Phase) (t : Turn) (ws : List Json)
    → IsSoundIn q t
    → (q ≡ opened → t.start_loop ≡ true)
    → MayWrite q ws
    → is_opening (t.ring_writes ++ ws) ≡ true
unopened_step booting t ws r start h = rw (r.no_writes) h
unopened_step ready t ws r start h = rw (r.no_writes) h
unopened_step opened t ws r start h = opening_of (t.ring_writes ++ ws) (
    is_wire-++ true t.ring_writes ws
      (subst (λ b. is_wire b t.ring_writes ≡ true) (start refl) r.written) h)
unopened_step dead t ws r start h = rw (r.no_writes, h) refl

open_step :
    (q : Phase) (t : Turn) (ws : List Json)
    → IsSoundIn q t
    → ((q ≡ opened) × (t.start_loop ≡ false)) ⊎ (q ≡ dead)
    → MayWrite q ws
    → is_wire false (t.ring_writes ++ ws) ≡ true
open_step booting t ws r c h = elim c [ inl (e, _) ↦ absurd cc | inr e ↦ absurd cc ]
open_step ready t ws r c h = elim c [ inl (e, _) ↦ absurd cc | inr e ↦ absurd cc ]
open_step opened t ws r c h = elim c [
  | inl (_, e) ↦
      is_wire-++ false t.ring_writes ws (subst (λ b. is_wire b t.ring_writes ≡ true) e r.written) h
  | inr e ↦ absurd cc
]
open_step dead t ws r c h = rw (r.no_writes, h) refl

dead_step :
    (q : Phase) (t : Turn) (ws : List Json)
    → q ≡ dead
    → IsSoundIn q t
    → MayWrite q ws
    → t.ring_writes ++ ws ≡ []
dead_step booting t ws d r h = absurd cc
dead_step ready t ws d r h = absurd cc
dead_step opened t ws d r h = absurd cc
dead_step dead t ws d r h = rw (r.no_writes, h) refl

-- One step of any machine, and what follows it.
any_step :
    (p : Phase) (s : Machine) (f : Frame) (ws : List Json)
    → s.phase ≡ p
    → IsSound (begin s)
    → MayWrite (handle s f).state.phase ws
    → MayWrite p ((handle s f).ring_writes ++ ws)
any_step booting s f ws e sound h =
    unopened_step (handle s f).state.phase (handle s f) ws (handle-IsSound s f sound)
      (handle-IsStarted s f λ o. cc) h
any_step ready s f ws e sound h =
    unopened_step (handle s f).state.phase (handle s f) ws (handle-IsSound s f sound)
      (handle-IsStarted s f λ o. cc) h
any_step opened s f ws e sound h =
    open_step (handle s f).state.phase (handle s f) ws (handle-IsSound s f sound)
      (handle-running s f e sound) h
any_step dead s f ws e sound h =
    dead_step (handle s f).state.phase (handle s f) ws (handle-dead s f e)
      (handle-IsSound s f sound) h

nothing_written : (p : Phase) → MayWrite p []
nothing_written booting = refl
nothing_written ready = refl
nothing_written opened = refl
nothing_written dead = refl

ring_log_from :
    (fs : List Frame) (s : Machine) → IsSound (begin s) → MayWrite s.phase (ring_log s fs)
unfolding ring_log
ring_log_from [] s sound = nothing_written s.phase
ring_log_from (f ∷ fs) s sound =
    let t = handle s f in
    any_step s.phase s f (ring_log t.state fs) refl sound
      (ring_log_from fs t.state (begin-IsSoundIn t.state.phase t (handle-IsSound s f sound)))

-- Whatever frames come from the page, the FileWorker and the ring, and in whatever order: all that
-- is ever written to the ring is either nothing, or one initialize, one didOpen, and then only
-- requests, answers and notifications that the FileWorker dispatches, without a second didOpen.
pub ring_log-is_opening : (fs : List Frame) → is_opening (ring_log initial_state fs) ≡ true
ring_log-is_opening fs =
    ring_log_from fs initial_state
      (record { no_doc = refl; no_backlog = refl; no_writes = refl; no_loop = refl })

-- The invariant holds of the machine behind any sequence of frames.
run_from : (fs : List Frame) (s : Machine) → IsSound (begin s) → IsSound (begin (run s fs))
unfolding run
run_from [] s sound = sound
run_from (f ∷ fs) s sound =
    let t = handle s f in
    run_from fs t.state (begin-IsSoundIn t.state.phase t (handle-IsSound s f sound))

-- The machine behind any sequence of frames is sound: with a live loop there is a document, the
-- version of the worker is the document's shifted by the base, the queue is empty, and frames are
-- parked only while the ring is busy; before it has started there is no document, and without one
-- nothing is parked.
pub run-IsSound : (fs : List Frame) → IsSound (begin (run initial_state fs))
run-IsSound fs =
    run_from fs initial_state
      (record { no_doc = refl; no_backlog = refl; no_writes = refl; no_loop = refl })
