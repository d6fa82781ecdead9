-- ===== src/FrontDoor/Started.antt =====
-- The start of the loop and the open phase of the front door machine
-- (public/workers/lsp-front-door.js).
use qed.Common.{
  zero, ◌≡◌, ◌≢◌, refl, ap, sym, subst, ◌∙◌, Bool, true, false, Option, some, [], ◌∷◌, ◌++◌,
  if_rule,
}
use qed.Common.Int.{ℤ, pos, ◌+ℤ◌, ◌-ℤ◌}
use qed.Common.Json.{Json, get}
use qed.FrontDoor.Machine.{
  Phase, booting, ready, opened, dead, Machine, Turn, begin, text_document, shift_versions,
  note_change, write_wire, emit, enqueue,
}
use qed.FrontDoor.Admit.{open_loop, reopen, admit_with, admit, drain_with, doc_of, change_of_open}
use qed.FrontDoor.Rules.{Admits, admit_with-Admits}
use qed.FrontDoor.Handled.{admit_each-keeps}
use qed.FrontDoor.Served.{Seen, server_frame-Seen}
use qed.FrontDoor.Keeps.{cleared}
use qed.FrontDoor.Step.{
  Frame, client, server, booted, ring, died, handle, on_booted, on_ring, server_frame,
}

abbrev pub IsStarted : Turn → Type 0
IsStarted t = t.state.phase ≡ opened → t.start_loop ≡ true

write_wire-start_loop : (w : Json) (t : Turn) → (write_wire w t).start_loop ≡ t.start_loop
write_wire-start_loop w t =
    if_rule (λ x. x.start_loop ≡ t.start_loop) t.state.ring_busy
      (record t {
        state = record t.state {
          backlog = enqueue t.state.backlog (record { msg = w; replay = false });
        };
      })
      (record t { ring_writes = t.ring_writes ++ w ∷ [] }) (λ _. refl) λ _. refl

pub emit-start_loop : (t : Turn) (msg : Json) → (emit t msg).start_loop ≡ t.start_loop
unfolding emit
emit-start_loop t msg =
    write_wire-start_loop (shift_versions msg (note_change msg t.state).base)
      (record t { state = note_change msg t.state })

pub reopen-start_loop :
    (t : Turn) (td : Option Json) (v : ℤ) → (reopen t td v).start_loop ≡ t.start_loop
unfolding reopen
reopen-start_loop t td v =
    emit-start_loop
      (record t {
        state = record t.state {
          base = t.state.last_version +ℤ pos 1 -ℤ v;
          doc = some (doc_of td v);
        };
      })
      (change_of_open td v)

Admits-IsStarted :
    (drain : Turn → Turn) (t : Turn) (msg : Json) (replay : Bool) (t' : Turn)
    → ((v : ℤ) → IsStarted (drain (open_loop t msg (text_document msg) v)))
    → IsStarted t
    → Admits drain t msg replay t'
    → IsStarted t'
Admits-IsStarted drain t msg replay t' drained h (Admits.notes i n answers is) =
    subst IsStarted (sym is) h
Admits-IsStarted drain t msg replay t' drained h (Admits.holds w f is) = subst IsStarted (sym is) h
Admits-IsStarted drain t msg replay t' drained h (Admits.reopens v o _ is) =
    subst IsStarted (sym is) λ _. reopen-start_loop t (text_document msg) v ∙ h o
Admits-IsStarted drain t msg replay t' drained h (Admits.opens v o _ is) =
    subst IsStarted (sym is) (drained v)
Admits-IsStarted drain t msg replay t' drained h (Admits.emits o _ f fresh is) =
    subst IsStarted (sym is) λ _. emit-start_loop t msg ∙ h o

opening-IsStarted :
    (t : Turn) (msg : Json) (v : ℤ) → IsStarted (open_loop t msg (text_document msg) v)
unfolding open_loop
opening-IsStarted t msg v _ = refl

drained-IsStarted : (t : Turn) → IsStarted (cleared t) → IsStarted (drain_with (admit zero) t)
unfolding admit
drained-IsStarted t h =
    admit_each-keeps IsStarted (admit_with (λ t. t))
      (λ t msg replay h.
        Admits-IsStarted (λ t. t) t msg replay _ (opening-IsStarted t msg) h
          (admit_with-Admits (λ t. t) msg replay t))
      t.state.queue (cleared t) h

opening_cleared :
    (t : Turn) (msg : Json) (v : ℤ) → IsStarted (cleared (open_loop t msg (text_document msg) v))
unfolding open_loop
opening_cleared t msg v _ = refl

admit-IsStarted :
    (t : Turn) (msg : Json) (replay : Bool) → IsStarted t → IsStarted (admit 1 t msg replay)
unfolding admit
admit-IsStarted t msg replay h =
    Admits-IsStarted (drain_with (admit_with (λ t. t))) t msg replay _
      (λ v. drained-IsStarted (open_loop t msg (text_document msg) v) (opening_cleared t msg v)) h
      (admit_with-Admits (drain_with (admit_with (λ t. t))) msg replay t)

server-phase : (s s' : Machine) → s.phase ≢ opened → Seen s s' → s'.phase ≢ opened
server-phase s s' ne (Seen.seen g h c e) o = ne (sym (ap (λ x. x.phase) e) ∙ o)

booted-IsStarted : (p : Phase) (s : Machine) → s.phase ≢ opened → IsStarted (on_booted p s)
booted-IsStarted booting s ne =
    admit_each-keeps IsStarted (admit 1) admit-IsStarted s.queue
      (cleared (begin (record s { phase = Phase.ready }))) λ e. absurd cc
booted-IsStarted ready s ne = λ e. absurd (ne e)
booted-IsStarted opened s ne = λ e. absurd (ne e)
booted-IsStarted dead s ne = λ e. absurd (ne e)

ring-IsStarted : (s : Machine) (busy : Bool) → s.phase ≢ opened → IsStarted (on_ring s busy)
ring-IsStarted s true ne e = absurd (ne e)
ring-IsStarted s false ne e = absurd (ne e)

-- From a machine that is not open, the step that opens it starts the loop.
pub handle-IsStarted : (s : Machine) (frame : Frame) → s.phase ≢ opened → IsStarted (handle s frame)
unfolding handle
handle-IsStarted s (client msg replay) ne = admit-IsStarted (begin s) msg replay λ e. absurd (ne e)
handle-IsStarted s (server msg) ne =
    let shown = shift_versions msg (pos 0 -ℤ s.base) in
    λ e. absurd (
      server-phase s (server_frame s (get "params" msg) shown).0 ne
        (server_frame-Seen s (get "params" msg) shown) e)
handle-IsStarted s booted ne = booted-IsStarted s.phase s ne
handle-IsStarted s (ring busy) ne = ring-IsStarted s busy ne
handle-IsStarted s died ne = λ e. absurd cc
