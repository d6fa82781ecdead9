-- ===== src/FrontDoor/Handled.antt =====
-- The invariant of the front door machine through `step` of public/workers/lsp-front-door.js.
use qed.Common.{zero, ◌≡◌, refl, sym, subst, Bool, List, [], ◌∷◌}
use qed.Common.Int.{pos, ◌-ℤ◌}
use qed.Common.Json.{Json, get}
use qed.FrontDoor.Machine.{
  Phase, booting, ready, opened, dead, Held, Machine, Turn, shift_versions, begin, text_document,
}
use qed.FrontDoor.Admit.{open_loop, admit_with, admit, drain_with, admit_each}
use qed.FrontDoor.Rules.{Admits, admit_with-Admits}
use qed.FrontDoor.Valid.{IsSoundIn, IsSound, IsOpen, emit-IsOpen}
use qed.FrontDoor.Keeps.{cleared, reopen-IsOpen, open_loop-IsOpen, Admits-IsSound}
use qed.FrontDoor.Served.{Seen-IsSound, server_frame-Seen, ring-IsSound}
use qed.FrontDoor.Step.{Frame, client, server, booted, ring, died, handle, on_booted, server_frame}

-- A live machine stays live, whatever the drain.
pub Admits-IsOpen :
    (drain : Turn → Turn) (t : Turn) (msg : Json) (replay : Bool) (t' : Turn)
    → IsOpen t
    → Admits drain t msg replay t'
    → IsOpen t'
Admits-IsOpen drain t msg replay t' (r, e) (Admits.notes i n answers is) = subst IsOpen (sym is) (
  record {
    doc = r.doc;
    is_doc = r.is_doc;
    in_step = r.in_step;
    no_queue = r.no_queue;
    unblocked = r.unblocked;
    parked = r.parked;
    written = r.written;
  },
  e,
)
Admits-IsOpen drain t msg replay t' (r, e) (Admits.holds w f is) = absurd cc
Admits-IsOpen drain t msg replay t' (r, e) (Admits.reopens v o _ is) =
    subst IsOpen (sym is) (reopen-IsOpen t (text_document msg) v (r, e))
Admits-IsOpen drain t msg replay t' (r, e) (Admits.opens v o _ is) = absurd cc
Admits-IsOpen drain t msg replay t' (r, e) (Admits.emits o not_open f fresh is) =
    subst IsOpen (sym is) (emit-IsOpen t msg (rw (f, not_open)) (r, e))

pub admit_each-keeps {ℓ} :
    (P : Turn → Type ℓ) (admit : Turn → Json → Bool → Turn)
    → ((t : Turn) (msg : Json) (replay : Bool) → P t → P (admit t msg replay))
    → (qs : List Held) (t : Turn) → P t
    → P (admit_each admit qs t)
admit_each-keeps P admit keep [] t h = h
admit_each-keeps P admit keep (q ∷ qs) t h =
    admit_each-keeps P admit keep qs _ (keep t q.msg q.replay h)

-- The replay behind an opening.
pub drain_zero-IsOpen : (t : Turn) → IsOpen (cleared t) → IsOpen (drain_with (admit zero) t)
unfolding admit
drain_zero-IsOpen t h =
    admit_each-keeps IsOpen (admit_with (λ t. t))
      (λ t msg replay h.
        Admits-IsOpen (λ t. t) t msg replay _ h (admit_with-Admits (λ t. t) msg replay t))
      t.state.queue (cleared t) h

-- A client frame.
pub admit-IsSound :
    (t : Turn) (msg : Json) (replay : Bool) → IsSound t → IsSound (admit 1 t msg replay)
unfolding admit
admit-IsSound t msg replay sound =
    Admits-IsSound (drain_with (admit_with (λ t. t))) t msg replay _
      (λ v e o.
        drain_zero-IsOpen (open_loop t msg (text_document msg) v)
          (open_loop-IsOpen t msg v (subst (λ p. IsSoundIn p t) e sound) o))
      sound (admit_with-Admits (drain_with (admit_with (λ t. t))) msg replay t)

booted-IsSound :
    (p : Phase) (s : Machine) → p ≡ s.phase → IsSound (begin s) → IsSound (on_booted p s)
unfolding admit
booted-IsSound booting s e r =
    let u = subst (λ p. IsSoundIn p (begin s)) (sym e) r in
    admit_each-keeps IsSound (admit 1) admit-IsSound s.queue
      (cleared (begin (record s { phase = Phase.ready })))
      (record { no_doc = u.no_doc; no_backlog = u.no_backlog; no_writes = refl; no_loop = refl })
booted-IsSound ready s e r = r
booted-IsSound opened s e r = r
booted-IsSound dead s e r = r

-- Whatever frame comes, the machine stays sound, and so do the writes of the step: in the step that
-- starts the loop an initialize and a didOpen come first, and every other write of any step is a
-- request, an answer or one of the notifications that the FileWorker dispatches, and no didOpen;
-- before the document is opened and once the loop is dead nothing is written.
pub handle-IsSound : (s : Machine) (frame : Frame) → IsSound (begin s) → IsSound (handle s frame)
unfolding handle
handle-IsSound s (client msg replay) sound = admit-IsSound (begin s) msg replay sound
handle-IsSound s (server msg) sound =
    let shown = shift_versions msg (pos 0 -ℤ s.base) in
    Seen-IsSound s (server_frame s (get "params" msg) shown).0
      ((server_frame s (get "params" msg) shown).1 ∷ []) sound
      (server_frame-Seen s (get "params" msg) shown)
handle-IsSound s booted sound = booted-IsSound s.phase s refl sound
handle-IsSound s (ring busy) sound = ring-IsSound s busy sound
handle-IsSound s died sound = record { no_backlog = refl; no_writes = refl; no_loop = refl }
