-- ===== src/FrontDoor/Live.antt =====
-- The invariant of a machine with a live loop (public/workers/lsp-front-door.js), and the write of a
-- frame.
use qed.Common.{
  ℕ, ◌≡◌, refl, ap, ◌⊎◌, inl, inr, String, Bool, true, false, ◌&&◌, Option, none, some, List, [],
  ◌∷◌, ◌++◌, arith, if_rule,
}
use qed.Common.Lists.{all}
use qed.Common.Int.{ℤ, ◌+ℤ◌}
use qed.Common.Json.{Json, get, get_in, items_of, truthy}
use qed.FrontDoor.Words.{HeaderLine}
use qed.FrontDoor.Machine.{
  Doc, Machine, Turn, did_open, did_change, has_method, at_version, note_version, note_text,
  full_text, text_document, version_of, enqueue, note_change, write_wire,
}
use qed.FrontDoor.Wire.{wire_ok, all_held, all-snoc, all_held-enqueue}

-- The writes of a step: where it starts the loop, the opening and nothing else comes first.
abbrev pub is_wire : Bool → List Json → Bool
is_wire false ws = all wire_ok ws
is_wire true (i ∷ o ∷ ws) = has_method i "initialize" && (has_method o did_open && all wire_ok ws)
is_wire true _ = false

pub record IsLive (t : Turn) : Type 0 where
  pub doc : Doc
  pub is_doc : t.state.doc ≡ some doc
  pub in_step : t.state.last_version ≡ doc.version +ℤ t.state.base
  pub no_queue : t.state.queue ≡ []
  pub unblocked : t.state.ring_busy ≡ false → t.state.backlog ≡ []
  pub parked : all_held wire_ok t.state.backlog ≡ true
  pub written : is_wire t.start_loop t.ring_writes ≡ true

is_wire-snoc :
    (b : Bool) (ws : List Json) (w : Json)
    → is_wire b ws ≡ true
    → wire_ok w ≡ true
    → is_wire b (ws ++ w ∷ []) ≡ true
is_wire-snoc false ws w h k = all-snoc wire_ok ws w h k
is_wire-snoc true [] w h k = cc
is_wire-snoc true (i ∷ []) w h k = cc
is_wire-snoc true (i ∷ o ∷ ws) w h k = ground (arith, all-snoc wire_ok ws w)

-- A written frame keeps the machine live and in its phase.
pub write_wire-IsLive :
    (wire : Json) (t : Turn)
    → wire_ok wire ≡ true
    → IsLive t
    → IsLive (write_wire wire t) × ((write_wire wire t).state.phase ≡ t.state.phase)
write_wire-IsLive wire t ok live =
    if_rule (λ t'. IsLive t' × (t'.state.phase ≡ t.state.phase)) t.state.ring_busy
      (record t {
        state = record t.state {
          backlog = enqueue t.state.backlog (record { msg = wire; replay = false });
        };
      })
      (record t { ring_writes = t.ring_writes ++ wire ∷ [] })
      (λ busy. (
        record {
          doc = live.doc;
          is_doc = live.is_doc;
          in_step = live.in_step;
          no_queue = live.no_queue;
          unblocked = λ free. cc;
          parked = all_held-enqueue wire_ok t.state.backlog _ live.parked ok;
          written = live.written;
        },
        refl,
      ))
      λ free. (
        record {
          doc = live.doc;
          is_doc = live.is_doc;
          in_step = live.in_step;
          no_queue = live.no_queue;
          unblocked = live.unblocked;
          parked = live.parked;
          written = is_wire-snoc t.start_loop t.ring_writes wire live.written ok;
        },
        refl,
      )

-- What noting a change may do: nothing to the versions, or one new version for both.
pub data Notes (s : Machine) (d : Doc) (msg : Json) (s' : Machine) : Type 0 where
  notes :
      (d' : Doc) (last : ℤ) (h : HeaderLine) (ls : List ℕ)
      → s' ≡ record s { doc = some d'; last_version = last; header_line = h; import_lines = ls }
      → ((d' ≡ d) × (last ≡ s.last_version))
        ⊎ ((v : ℤ) × (has_method msg did_change ≡ true)
            × (version_of (text_document msg) ≡ some v)
            × (d' ≡ record d { version = v })
            × (last ≡ v +ℤ s.base))
      → Notes s d msg s'

note_text-Notes :
    (s : Machine) (d : Doc) (msg : Json) (s' : Machine) (o : Option String)
    → Notes s d msg s'
    → Notes s d msg (note_text o s')
note_text-Notes s d msg s' none n = n
note_text-Notes s d msg s' (some t) (notes d' last h ls e c) =
    notes d' last _ _ (ap (note_text (some t)) e) c

note_version-Notes :
    (s : Machine) (d : Doc) (msg : Json) (o : Option ℤ)
    → s.doc ≡ some d
    → has_method msg did_change ≡ true
    → version_of (text_document msg) ≡ o
    → Notes s d msg (note_version o s)
note_version-Notes s d msg none is_doc m e =
    notes d s.last_version s.header_line s.import_lines (ap (λ o. record s { doc = o }) is_doc)
      (inl (refl, refl))
note_version-Notes s d msg (some v) is_doc m e =
    notes (record d { version = v }) (v +ℤ s.base) s.header_line s.import_lines
      (ap (λ o. record s { doc = at_version v o; last_version = v +ℤ s.base }) is_doc)
      (inr (v, m, e, refl, refl))

pub note_change-Notes :
    (s : Machine) (d : Doc) (msg : Json) → s.doc ≡ some d → Notes s d msg (note_change msg s)
note_change-Notes s d msg is_doc =
    if_rule (Notes s d msg)
      (has_method msg did_change && truthy (get "params" msg) && truthy (text_document msg))
      (note_text (full_text (items_of (get_in (get "params" msg) "contentChanges")))
        (note_version (version_of (text_document msg)) s))
      s
      (λ h.
        note_text-Notes s d msg _ _
          (note_version-Notes s d msg (version_of (text_document msg)) is_doc (grind arith) refl))
      λ _.
        notes d s.last_version s.header_line s.import_lines (ap (λ o. record s { doc = o }) is_doc)
          (inl (refl, refl))
