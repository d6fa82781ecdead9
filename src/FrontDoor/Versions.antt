-- ===== src/FrontDoor/Versions.antt =====
-- The versions that public/workers/lsp-front-door.js writes to the FileWorker.
use qed.Common.{
  ◌≡◌, refl, ap, sym, subst, ◌∙◌, inl, inr, String, Bool, true, false, ◌&&◌, Option, none, some,
  List, [], ◌∷◌, ◌++◌, arith, if_rule,
}
use qed.Common.Int.{ℤ, pos, ◌+ℤ◌, ◌-ℤ◌, ◌≤ℤ◌, ◌<ℤ◌, leb_ℤ, int_laws}
use qed.Common.Json.{Json, get, get_in, items_of}
use qed.FrontDoor.Machine.{
  opened, Doc, Held, Machine, Turn, begin, did_open, did_change, has_method, text_document,
  version_of, shift_versions, note_change, write_wire, emit, enqueue, note_text, note_version,
  full_text,
}
use qed.FrontDoor.Admit.{reopen, admit_with, admit, drain_with, change_of_open, is_stale}
use qed.FrontDoor.Rules.{Admits, admit_with-Admits}
use qed.FrontDoor.Live.{Notes, note_change-Notes}
use qed.FrontDoor.Valid.{IsSound, IsSound→IsLive}
use qed.FrontDoor.Keeps.{rebased, version_of-change_of_open, next_version}
use qed.FrontDoor.Served.{Seen, server_frame-Seen}
use qed.FrontDoor.Step.{Frame, client, server, booted, ring, died, handle, on_booted, server_frame}

-- A write changes nothing of the machine but the backlog.
pub data Parked (s s' : Machine) : Type 0 where
  parked : (q : List Held) → s' ≡ record s { backlog = q } → Parked s s'

write_wire-Parked : (w : Json) (t : Turn) → Parked t.state (write_wire w t).state
write_wire-Parked w t =
    if_rule (λ x. Parked t.state x.state) t.state.ring_busy
      (record t {
        state = record t.state {
          backlog = enqueue t.state.backlog (record { msg = w; replay = false });
        };
      })
      (record t { ring_writes = t.ring_writes ++ w ∷ [] }) (λ _. parked _ refl)
      λ _. parked t.state.backlog refl

pub emit-Parked : (t : Turn) (msg : Json) → Parked (note_change msg t.state) (emit t msg).state
unfolding emit
emit-Parked t msg =
    write_wire-Parked (shift_versions msg (note_change msg t.state).base)
      (record t { state = note_change msg t.state })

Parked-last_version : (s s' : Machine) → Parked s s' → s'.last_version ≡ s.last_version
Parked-last_version s s' (parked q e) = ap (λ x. x.last_version) e

Parked-progress : (s s' : Machine) → Parked s s' → s'.progress ≡ s.progress
Parked-progress s s' (parked q e) = ap (λ x. x.progress) e

fresh_grows : (v d base last : ℤ) → leb_ℤ v d ≡ false → last ≡ d +ℤ base → last <ℤ (v +ℤ base)
fresh_grows v d base last h e = grind int_laws

lt_le : (a b : ℤ) → a <ℤ b → a ≤ℤ b
lt_le a b h = omega arith

below_next : (v : ℤ) → v <ℤ (v +ℤ pos 1)
below_next v = grind int_laws

le_refl : (v : ℤ) → v ≤ℤ v
le_refl v = omega arith

-- The version is at or below the document's.
abbrev pub is_old : Option ℤ → ℤ → Bool
is_old none of_doc = false
is_old (some v) of_doc = leb_ℤ v of_doc

-- What a client's frame does to the version of the worker, and when something may be written.
pub data Moves (s : Machine) (d : Doc) (msg : Json) (t : Turn) : Type 0 where
  unwritten :
      t.ring_writes ≡ []
      → t.state.backlog ≡ s.backlog
      → t.state.last_version ≡ s.last_version
      → Moves s d msg t
  reopened :
      has_method msg did_open ≡ true
      → t.state.last_version ≡ s.last_version +ℤ pos 1
      → Moves s d msg t
  advanced :
      (v : ℤ)
      → has_method msg did_change ≡ true
      → version_of (text_document msg) ≡ some v
      → leb_ℤ v d.version ≡ false
      → t.state.last_version ≡ v +ℤ s.base
      → Moves s d msg t
  passed :
      (has_method msg did_change && is_old (version_of (text_document msg)) d.version) ≡ false
      → has_method msg did_open ≡ false
      → t.state.last_version ≡ s.last_version
      → Moves s d msg t

-- A frame that is no client's leaves the version.
abbrev pub IsMove : Machine → Doc → Frame → Turn → Type 0
IsMove s d (client msg replay) t = Moves s d msg t
IsMove s d _ t = t.state.last_version ≡ s.last_version

Moves-grows :
    (s : Machine) (d : Doc) (msg : Json) (t : Turn)
    → s.last_version ≡ d.version +ℤ s.base
    → Moves s d msg t
    → s.last_version ≤ℤ t.state.last_version
Moves-grows s d msg t step (Moves.unwritten w b e) =
    subst (λ x. s.last_version ≤ℤ x) (sym e) (le_refl s.last_version)
Moves-grows s d msg t step (Moves.reopened o e) =
    subst (λ x. s.last_version ≤ℤ x) (sym e)
      (lt_le s.last_version (s.last_version +ℤ pos 1) (below_next s.last_version))
Moves-grows s d msg t step (Moves.advanced v m n h e) =
    subst (λ x. s.last_version ≤ℤ x) (sym e)
      (lt_le s.last_version (v +ℤ s.base) (fresh_grows v d.version s.base s.last_version h step))
Moves-grows s d msg t step (Moves.passed f o e) =
    subst (λ x. s.last_version ≤ℤ x) (sym e) (le_refl s.last_version)

fresh_old :
    (v : Option ℤ) (s : Machine) (d : Doc) → s.doc ≡ some d → is_stale v s.doc ≡ is_old v d.version
fresh_old none s d e = refl
fresh_old (some v) s d e = ap (is_stale (some v)) e

-- A change that is written is newer than the document.
Notes-Moves :
    (s : Machine) (d : Doc) (msg : Json) (s' : Machine) (t : Turn)
    → s.doc ≡ some d
    → has_method msg did_open ≡ false
    → (has_method msg did_change && is_stale (version_of (text_document msg)) s.doc) ≡ false
    → t.state.last_version ≡ s'.last_version
    → Notes s d msg s'
    → Moves s d msg t
Notes-Moves s d msg s' t is_doc no_open fresh same (Notes.notes d' last h ls is c) =
    let version = version_of (text_document msg) in
    let newer : (has_method msg did_change && is_old version d.version) ≡ false =
      ap (λ b. has_method msg did_change && b) (sym (fresh_old version s d is_doc)) ∙ fresh in
    let moved = same ∙ ap (λ x. x.last_version) is in
    elim c [
      | inl (_, q) ↦ Moves.passed newer no_open (moved ∙ q)
      | inr (v, m, e, p, q) ↦ Moves.advanced v m e (sym (rw (m, e) refl) ∙ newer) (moved ∙ q)
    ]

note_text-last_version :
    (o : Option String) (s : Machine) → (note_text o s).last_version ≡ s.last_version
note_text-last_version none s = refl
note_text-last_version (some x) s = refl

-- A didOpen on a live loop gets the next version.
pub reopen-last_version :
    (t : Turn) (td : Option Json) (v : ℤ)
    → (reopen t td v).state.last_version ≡ t.state.last_version +ℤ pos 1
unfolding reopen
reopen-last_version t td v =
    let s0 = (rebased t td v).state in
    Parked-last_version (note_change (change_of_open td v) s0) _
      (emit-Parked (rebased t td v) (change_of_open td v))
    ∙ note_text-last_version
        (full_text (items_of (get_in (get "params" (change_of_open td v)) "contentChanges")))
        (note_version (version_of (text_document (change_of_open td v))) s0)
    ∙ ap (λ o. (note_version o s0).last_version) (version_of-change_of_open td v)
    ∙ next_version t.state.last_version v

-- One call of `admit` on a live machine.
Admits-Moves :
    (drain : Turn → Turn) (s : Machine) (d : Doc) (msg : Json) (replay : Bool) (t' : Turn)
    → s.doc ≡ some d
    → s.phase ≡ opened
    → Admits drain (begin s) msg replay t'
    → Moves s d msg t'
Admits-Moves drain s d msg replay t' is_doc o (Admits.notes i n answers is) =
    Moves.unwritten (ap (λ x. x.ring_writes) is) (ap (λ x. x.state.backlog) is)
      (ap (λ x. x.state.last_version) is)
Admits-Moves drain s d msg replay t' is_doc o (Admits.holds w f is) = absurd cc
Admits-Moves drain s d msg replay t' is_doc o (Admits.reopens v _ m is) =
    Moves.reopened m
      (ap (λ x. x.state.last_version) is ∙ reopen-last_version (begin s) (text_document msg) v)
Admits-Moves drain s d msg replay t' is_doc o (Admits.opens v e _ is) = absurd cc
Admits-Moves drain s d msg replay t' is_doc o (Admits.emits _ no_open f fresh is) =
    Notes-Moves s d msg (note_change msg s) t' is_doc no_open fresh
      (ap (λ x. x.state.last_version) is
        ∙ Parked-last_version (note_change msg s) _ (emit-Parked (begin s) msg))
      (note_change-Notes s d msg is_doc)

Seen-last_version : (s s' : Machine) → Seen s s' → s'.last_version ≡ s.last_version
Seen-last_version s s' (Seen.seen g h c e) = ap (λ x. x.last_version) e

handle-IsMove :
    (s : Machine) (d : Doc) (frame : Frame)
    → s.doc ≡ some d
    → s.phase ≡ opened
    → IsMove s d frame (handle s frame)
unfolding handle admit
handle-IsMove s d (client msg replay) is_doc o =
    Admits-Moves (drain_with (admit_with (λ t. t))) s d msg replay _ is_doc o
      (admit_with-Admits (drain_with (admit_with (λ t. t))) msg replay (begin s))
handle-IsMove s d (server msg) is_doc o =
    let shown = shift_versions msg (pos 0 -ℤ s.base) in
    Seen-last_version s (server_frame s (get "params" msg) shown).0
      (server_frame-Seen s (get "params" msg) shown)
handle-IsMove s d booted is_doc o = ap (λ p. (on_booted p s).state.last_version) o
handle-IsMove s d (ring true) is_doc o = refl
handle-IsMove s d (ring false) is_doc o = refl
handle-IsMove s d died is_doc o = refl

IsMove-grows :
    (s : Machine) (d : Doc) (frame : Frame) (t : Turn)
    → s.last_version ≡ d.version +ℤ s.base
    → IsMove s d frame t
    → s.last_version ≤ℤ t.state.last_version
IsMove-grows s d (client msg replay) t step m = Moves-grows s d msg t step m
IsMove-grows s d (server msg) t step e =
    subst (λ x. s.last_version ≤ℤ x) (sym e) (le_refl s.last_version)
IsMove-grows s d booted t step e = subst (λ x. s.last_version ≤ℤ x) (sym e) (le_refl s.last_version)
IsMove-grows s d (ring busy) t step e =
    subst (λ x. s.last_version ≤ℤ x) (sym e) (le_refl s.last_version)
IsMove-grows s d died t step e = subst (λ x. s.last_version ≤ℤ x) (sym e) (le_refl s.last_version)

-- With a live loop there is a document, and the version of the worker never goes down, whatever frame
-- comes. A client's frame has one of four effects: nothing is written or parked, and the version stays;
-- it is a didOpen, and the version goes up by one; it is a change whose version is above the
-- document's, and the version is that one shifted by the base; or it is neither a didOpen nor a change
-- whose version is at or below the document's, and the version stays. No other frame moves the version.
pub handle-grows :
    (s : Machine) (frame : Frame)
    → IsSound (begin s)
    → s.phase ≡ opened
    → (s.last_version ≤ℤ (handle s frame).state.last_version)
      × (d : Doc) × (s.doc ≡ some d)
      × IsMove s d frame (handle s frame)
handle-grows s frame sound o =
    let live = IsSound→IsLive (begin s) sound o in
    let move = handle-IsMove s live.doc frame live.is_doc o in
    (IsMove-grows s live.doc frame (handle s frame) live.in_step move, live.doc, live.is_doc, move)
