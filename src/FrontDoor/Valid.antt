-- ===== src/FrontDoor/Valid.antt =====
-- The invariant of the front door machine (public/workers/lsp-front-door.js), phase by phase.
use qed.Common.{
  ℕ, ◌≡◌, refl, ap, sym, subst, ◌∙◌, inl, inr, String, Bool, true, false, Option, none, some, List,
  [],
}
use qed.Common.Int.{◌+ℤ◌}
use qed.Common.Json.{Json}
use qed.FrontDoor.Machine.{
  Phase, booting, ready, opened, dead, Doc, Machine, Turn, note_text, shift_versions, note_change,
  emit,
}
use qed.FrontDoor.Wire.{wire_ok, wire_ok-shift_versions}
use qed.FrontDoor.Admit.{hold}
use qed.FrontDoor.Rules.{waiting, noted}
use qed.FrontDoor.Live.{IsLive, Notes, note_change-Notes, write_wire-IsLive}

-- Before the document is opened nothing is written, and there is no document.
pub record IsUnopened (t : Turn) : Type 0 where
  pub no_doc : t.state.doc ≡ none
  pub no_backlog : t.state.backlog ≡ []
  pub no_writes : t.ring_writes ≡ []
  pub no_loop : t.start_loop ≡ false

pub record IsDead (t : Turn) : Type 0 where
  pub no_backlog : t.state.backlog ≡ []
  pub no_writes : t.ring_writes ≡ []
  pub no_loop : t.start_loop ≡ false

abbrev pub IsSoundIn : Phase → Turn → Type 0
IsSoundIn booting t = IsUnopened t
IsSoundIn ready t = IsUnopened t
IsSoundIn opened t = IsLive t
IsSoundIn dead t = IsDead t

abbrev pub IsSound : Turn → Type 0
IsSound t = IsSoundIn t.state.phase t

-- A turn that is live and opened.
abbrev pub IsOpen : Turn → Type 0
IsOpen t = IsLive t × (t.state.phase ≡ opened)

pub IsOpen→IsSound : (t : Turn) → IsOpen t → IsSound t
IsOpen→IsSound t (live, e) = subst (λ p. IsSoundIn p t) (sym e) live

pub IsSound→IsLive : (t : Turn) → IsSound t → t.state.phase ≡ opened → IsLive t
IsSound→IsLive t sound e = subst (λ p. IsSoundIn p t) e sound

pub noted-IsSoundIn :
    (p : Phase) (t : Turn) (i : Option Json) (n : ℕ) (answers : List Json)
    → IsSoundIn p t
    → IsSoundIn p (noted t i n answers)
noted-IsSoundIn booting t i n answers r = record {
  no_doc = r.no_doc;
  no_backlog = r.no_backlog;
  no_writes = r.no_writes;
  no_loop = r.no_loop;
}
noted-IsSoundIn ready t i n answers r = record {
  no_doc = r.no_doc;
  no_backlog = r.no_backlog;
  no_writes = r.no_writes;
  no_loop = r.no_loop;
}
noted-IsSoundIn opened t i n answers r = record {
  doc = r.doc;
  is_doc = r.is_doc;
  in_step = r.in_step;
  no_queue = r.no_queue;
  unblocked = r.unblocked;
  parked = r.parked;
  written = r.written;
}
noted-IsSoundIn dead t i n answers r = record {
  no_backlog = r.no_backlog;
  no_writes = r.no_writes;
  no_loop = r.no_loop;
}

pub hold-IsSoundIn :
    (p : Phase) (msg : Json) (replay : Bool) (t : Turn)
    → waiting p ≡ true
    → IsSoundIn p t
    → IsSoundIn p (hold msg replay t)
hold-IsSoundIn booting msg replay t w r = record {
  no_doc = r.no_doc;
  no_backlog = r.no_backlog;
  no_writes = r.no_writes;
  no_loop = r.no_loop;
}
hold-IsSoundIn ready msg replay t w r = record {
  no_doc = r.no_doc;
  no_backlog = r.no_backlog;
  no_writes = r.no_writes;
  no_loop = r.no_loop;
}
hold-IsSoundIn opened msg replay t w r = absurd cc
hold-IsSoundIn dead msg replay t w r = absurd cc

pub note_text-IsOpen :
    (t : Turn) (o : Option String) → IsOpen t → IsOpen (record t { state = note_text o t.state })
note_text-IsOpen t none h = h
note_text-IsOpen t (some x) (r, e) = (
  record {
    doc = r.doc;
    is_doc = r.is_doc;
    in_step = r.in_step;
    no_queue = r.no_queue;
    unblocked = r.unblocked;
    parked = r.parked;
    written = r.written;
  },
  e,
)

Notes-IsOpen :
    (t : Turn) (d : Doc) (msg : Json) (s' : Machine)
    → (r : IsLive t) → r.doc ≡ d
    → t.state.phase ≡ opened
    → Notes t.state d msg s'
    → IsOpen (record t { state = s' })
Notes-IsOpen t d msg s' r same e (Notes.notes d' last h ls is c) =
    subst (λ s. IsOpen (record t { state = s })) (sym is)
      (
        record {
          doc = d';
          is_doc = refl;
          in_step = elim c [
            | inl (p, q) ↦ q ∙ r.in_step ∙ ap (λ x. x.version +ℤ t.state.base) (same ∙ sym p)
            | inr (v, _, _, p, q) ↦ q ∙ ap (λ x. x.version +ℤ t.state.base) (sym p)
          ];
          no_queue = r.no_queue;
          unblocked = r.unblocked;
          parked = r.parked;
          written = r.written;
        },
        e,
      )

-- The write of a frame whose change is noted.
pub emit-IsOpen_noted :
    (t : Turn) (msg : Json)
    → wire_ok msg ≡ true
    → IsOpen (record t { state = note_change msg t.state })
    → IsOpen (emit t msg)
unfolding emit
emit-IsOpen_noted t msg ok (live, e) =
    let (live', e') =
      write_wire-IsLive (shift_versions msg (note_change msg t.state).base)
        (record t { state = note_change msg t.state })
        (wire_ok-shift_versions msg (note_change msg t.state).base ∙ ok) live in
    (live', e' ∙ e)

pub emit-IsOpen : (t : Turn) (msg : Json) → wire_ok msg ≡ true → IsOpen t → IsOpen (emit t msg)
emit-IsOpen t msg ok (live, e) =
    emit-IsOpen_noted t msg ok (
      Notes-IsOpen t live.doc msg _ live refl e
        (note_change-Notes t.state live.doc msg live.is_doc))
