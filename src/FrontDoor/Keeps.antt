-- ===== src/FrontDoor/Keeps.antt =====
-- The invariant of the front door machine (public/workers/lsp-front-door.js) through `admit`.
use qed.Common.{◌≡◌, refl, sym, subst, Bool, true, Option, none, some, []}
use qed.Common.Int.{ℤ, pos, ◌+ℤ◌, ◌-ℤ◌, int_laws}
use qed.Common.Json.{Json, obj, num, field, str, end, get, get_in, items_of}
use qed.FrontDoor.Machine.{
  ready, Turn, did_open, has_method, note_version, note_text, full_text, text_document, version_of,
}
use qed.FrontDoor.Admit.{
  id_or_zero, params_or_empty, change_of_open, doc_of, initialize_frame, reopen, open_loop,
}
use qed.FrontDoor.Replies.{optional, response}
use qed.FrontDoor.Rules.{Admits}
use qed.FrontDoor.Valid.{
  IsUnopened, IsSound, IsOpen, IsOpen→IsSound, IsSound→IsLive, noted-IsSoundIn, hold-IsSoundIn,
  note_text-IsOpen, emit-IsOpen_noted, emit-IsOpen,
}

pub version_of-change_of_open :
    (td : Option Json) (v : ℤ) → version_of (text_document (change_of_open td v)) ≡ some v
version_of-change_of_open td v =
    elim (get_in td "uri")
      as (λ u. version_of (some (obj (optional "uri" u (field "version" (num v) end)))) ≡ some v) [
        | none ↦ refl
        | some u ↦ refl
      ]

-- The version that a reopened document gets is one above the last.
pub next_version : (l v : ℤ) → v +ℤ (l +ℤ pos 1 -ℤ v) ≡ l +ℤ pos 1
next_version l v = grind int_laws

zero_base : (v : ℤ) → v ≡ v +ℤ pos 0
zero_base v = grind int_laws

pub initialize_frame-method :
    (init : Option Json) → has_method (initialize_frame init) "initialize" ≡ true
initialize_frame-method init =
    elim (id_or_zero init)
      as (λ i.
        has_method
          (response i
            (field "method" (str "initialize") (field "params" (params_or_empty init) end)))
          "initialize"
        ≡ true) [ none ↦ refl | some i ↦ refl ]

-- The base of a reopened document.
abbrev pub rebased : Turn → Option Json → ℤ → Turn
rebased t td v = record t {
  state = record t.state { base = t.state.last_version +ℤ pos 1 -ℤ v; doc = some (doc_of td v) };
}

-- A didOpen on a live loop keeps it.
pub reopen-IsOpen : (t : Turn) (td : Option Json) (v : ℤ) → IsOpen t → IsOpen (reopen t td v)
unfolding reopen
reopen-IsOpen t td v (r, e) = emit-IsOpen_noted (rebased t td v) (change_of_open td v) refl (
    subst
      (λ o. IsOpen (record (rebased t td v) {
        state =
            note_text
              (full_text (items_of (get_in (get "params" (change_of_open td v)) "contentChanges")))
              (note_version o (rebased t td v).state);
      }))
      (sym (version_of-change_of_open td v))
      (note_text-IsOpen
        (record (rebased t td v) { state = note_version (some v) (rebased t td v).state }) _
        (
          record {
            doc = doc_of td v;
            is_doc = refl;
            in_step = refl;
            no_queue = r.no_queue;
            unblocked = r.unblocked;
            parked = r.parked;
            written = r.written;
          },
          e,
        )))

-- The turn with its queue taken out.
abbrev pub cleared : Turn → Turn
cleared t = record t { state = record t.state { queue = [] } }

-- The opening.
pub open_loop-IsOpen :
    (t : Turn) (msg : Json) (v : ℤ)
    → IsUnopened t
    → has_method msg did_open ≡ true
    → IsOpen (cleared (open_loop t msg (text_document msg) v))
unfolding open_loop
open_loop-IsOpen t msg v u o = (
  record {
    doc = doc_of (text_document msg) v;
    is_doc = refl;
    in_step = zero_base v;
    no_queue = refl;
    unblocked = λ _. u.no_backlog;
    parked = rw (u.no_backlog);
    written = rw (u.no_writes, o, initialize_frame-method t.state.initialize);
  },
  refl,
)

-- One call of `admit`, for a drain that takes the opening to a live machine.
pub Admits-IsSound :
    (drain : Turn → Turn) (t : Turn) (msg : Json) (replay : Bool) (t' : Turn)
    → ((v : ℤ)
        → t.state.phase ≡ ready
        → has_method msg did_open ≡ true
        → IsOpen (drain (open_loop t msg (text_document msg) v)))
    → IsSound t
    → Admits drain t msg replay t'
    → IsSound t'
Admits-IsSound drain t msg replay t' opens_ok sound (Admits.notes i n answers e) =
    subst IsSound (sym e) (noted-IsSoundIn t.state.phase t i n answers sound)
Admits-IsSound drain t msg replay t' opens_ok sound (Admits.holds w f e) =
    subst IsSound (sym e) (hold-IsSoundIn t.state.phase msg replay t w sound)
Admits-IsSound drain t msg replay t' opens_ok sound (Admits.reopens v o _ e) =
    subst IsSound (sym e)
      (IsOpen→IsSound _ (reopen-IsOpen t (text_document msg) v (IsSound→IsLive t sound o, o)))
Admits-IsSound drain t msg replay t' opens_ok sound (Admits.opens v r o e) =
    subst IsSound (sym e) (IsOpen→IsSound _ (opens_ok v r o))
Admits-IsSound drain t msg replay t' opens_ok sound (Admits.emits o not_open f fresh e) =
    subst IsSound (sym e)
      (IsOpen→IsSound _ (emit-IsOpen t msg (rw (f, not_open)) (IsSound→IsLive t sound o, o)))
