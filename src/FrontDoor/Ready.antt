-- ===== src/FrontDoor/Ready.antt =====
-- When public/workers/lsp-front-door.js tells the page that the document is checked.
use qed.Common.{◌≡◌, ◌≢◌, refl, ap, sym, ◌∙◌, Bool, false, Option, none, some, arith}
use qed.Common.Int.{ℤ, ◌≤ℤ◌, ◌<ℤ◌}
use qed.Common.Json.{Json}
use qed.FrontDoor.Machine.{
  opened, Doc, Machine, Turn, Progress, begin, text_document, note_change, emit,
}
use qed.FrontDoor.Admit.{reopen, change_of_open, admit, admit_with, drain_with}
use qed.FrontDoor.Rules.{Admits, admit_with-Admits}
use qed.FrontDoor.Live.{IsLive, Notes, note_change-Notes}
use qed.FrontDoor.Valid.{IsSound, IsSound→IsLive}
use qed.FrontDoor.Keeps.{rebased}
use qed.FrontDoor.Handled.{Admits-IsOpen}
use qed.FrontDoor.Versions.{Parked, emit-Parked}
use qed.FrontDoor.Step.{client, handle, drained, phase_of, phase_with, StatusPhase}

Parked-progress : (s s' : Machine) → Parked s s' → s'.progress ≡ s.progress
Parked-progress s s' (Parked.parked q e) = ap (λ x. x.progress) e

Notes-progress :
    (s : Machine) (d : Doc) (msg : Json) (s' : Machine)
    → Notes s d msg s'
    → s'.progress ≡ s.progress
Notes-progress s d msg s' (Notes.notes d' last h ls is c) = ap (λ x. x.progress) is

emit-progress :
    (t : Turn) (d : Doc) (msg : Json)
    → t.state.doc ≡ some d
    → (emit t msg).state.progress ≡ t.state.progress
emit-progress t d msg is_doc =
    Parked-progress (note_change msg t.state) _ (emit-Parked t msg)
    ∙ Notes-progress t.state d msg _ (note_change-Notes t.state d msg is_doc)

reopen-progress :
    (t : Turn) (td : Option Json) (v : ℤ) → (reopen t td v).state.progress ≡ t.state.progress
unfolding reopen
reopen-progress t td v = emit-progress (rebased t td v) _ (change_of_open td v) refl

Admits-progress :
    (drain : Turn → Turn) (t : Turn) (msg : Json) (replay : Bool) (t' : Turn)
    → IsLive t
    → t.state.phase ≡ opened
    → Admits drain t msg replay t'
    → t'.state.progress ≡ t.state.progress
Admits-progress drain t msg replay t' r o (Admits.notes i n answers is) =
    ap (λ x. x.state.progress) is
Admits-progress drain t msg replay t' r o (Admits.holds w f is) = absurd cc
Admits-progress drain t msg replay t' r o (Admits.reopens v _ _ is) =
    ap (λ x. x.state.progress) is ∙ reopen-progress t (text_document msg) v
Admits-progress drain t msg replay t' r o (Admits.opens v e _ is) = absurd cc
Admits-progress drain t msg replay t' r o (Admits.emits _ _ f fresh is) =
    ap (λ x. x.state.progress) is ∙ emit-progress t r.doc msg r.is_doc

behind_not_drained : (p : Progress) (last : ℤ) → p.version <ℤ last → drained p last ≡ false
behind_not_drained p last h = ground arith

le_lt : (a b c : ℤ) → a ≤ℤ b → b <ℤ c → a <ℤ c
le_lt a b c h k = omega arith

-- A progress report of an older version is never taken for the newest.
phase_with-behind :
    (o : Option Progress) (d : Option Doc) (s : Machine)
    → ((p : Progress) → o ≡ some p → p.version <ℤ s.last_version)
    → (phase_with o d s ≢ StatusPhase.ready) × (phase_with o d s ≢ StatusPhase.header_refused)
phase_with-behind none d s h = (λ e. cc, λ e. cc)
phase_with-behind (some p) none s h = (λ e. cc, λ e. cc)
phase_with-behind (some p) (some d) s h =
    rw (behind_not_drained p s.last_version (h p refl)) (λ e. cc, λ e. cc)

-- A client frame that raises the version of the worker (an edit that is written, or a document opened
-- anew) leaves the status neither ready nor refused: the progress that was reported is of an older
-- version, provided that so far no report was ahead of the worker.
pub raised-not-ready :
    (s : Machine) (msg : Json) (replay : Bool)
    → IsSound (begin s)
    → s.phase ≡ opened
    → ((p : Progress) → s.progress ≡ some p → p.version ≤ℤ s.last_version)
    → s.last_version <ℤ (handle s (client msg replay)).state.last_version
    → (phase_of (handle s (client msg replay)).state ≢ StatusPhase.ready)
      × (phase_of (handle s (client msg replay)).state ≢ StatusPhase.header_refused)
unfolding phase_of handle admit
raised-not-ready s msg replay sound o no_ahead raised =
    let drain = drain_with (admit_with (λ t. t)) in
    let t' = admit_with drain (begin s) msg replay in
    let live = IsSound→IsLive (begin s) sound o in
    let rule = admit_with-Admits drain msg replay (begin s) in
    let (_, o') = Admits-IsOpen drain (begin s) msg replay t' (live, o) rule in
    rw (o') (
      phase_with-behind t'.state.progress t'.state.doc t'.state λ p e.
        le_lt p.version s.last_version t'.state.last_version
          (no_ahead p (sym (Admits-progress drain (begin s) msg replay t' live o rule) ∙ e)) raised)
