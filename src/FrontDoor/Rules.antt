-- ===== src/FrontDoor/Rules.antt =====
-- The rules by which `admit` of public/workers/lsp-front-door.js takes one client frame, as a
-- relation between the turn before and the turn behind it.
use qed.Common.{
  ℕ, ◌+◌, ◌≡◌, ◌≢◌, refl, sym, ap, ◌∙◌, Bool, true, false, not, ◌&&◌, ◌||◌, Option, none, some,
  List, [], ◌∷◌, ◌++◌, append-nil, if◌then◌else◌, if_rule,
}
use qed.Common.Int.{ℤ}
use qed.Common.Json.{Json, get, is_some}
use qed.FrontDoor.Machine.{
  Phase, booting, ready, opened, dead, Turn, did_open, did_change, is_forwarded, has_method,
  is_request, text_document, version_of, emit,
}
use qed.FrontDoor.Wire.{may_forward}
use qed.FrontDoor.Admit.{
  drop_frame, hold, reply, reopen, open_loop, is_stale, admit_with, on_import, header_refused,
  admit_frame, admit_open, open_version, admit_other, open_in,
}
use qed.FrontDoor.Replies.{shutdown_response, initialize_response, completion_refused}

abbrev pub waiting : Phase → Bool
waiting booting = true
waiting ready = true
waiting _ = false

-- The machine notes a request, answers it, or drops the frame.
abbrev pub noted : Turn → Option Json → ℕ → List Json → Turn
noted t initialize dropped answers = record t {
  state = record t.state { initialize = initialize; dropped = dropped };
  replies = t.replies ++ answers;
}

pub data Admits (drain : Turn → Turn) (t : Turn) (msg : Json) (replay : Bool) (t' : Turn)
    : Type 0 where
  notes :
      (i : Option Json) (n : ℕ) (answers : List Json)
      → t' ≡ noted t i n answers
      → Admits drain t msg replay t'
  holds :
      waiting t.state.phase ≡ true
      → (has_method msg did_open || may_forward msg) ≡ true
      → t' ≡ hold msg replay t
      → Admits drain t msg replay t'
  reopens :
      (version : ℤ)
      → t.state.phase ≡ opened
      → has_method msg did_open ≡ true
      → t' ≡ reopen t (text_document msg) version
      → Admits drain t msg replay t'
  opens :
      (version : ℤ)
      → t.state.phase ≡ ready
      → has_method msg did_open ≡ true
      → t' ≡ drain (open_loop t msg (text_document msg) version)
      → Admits drain t msg replay t'
  emits :
      t.state.phase ≡ opened
      → has_method msg did_open ≡ false
      → may_forward msg ≡ true
      → (has_method msg did_change && is_stale (version_of (text_document msg)) t.state.doc) ≡ false
      → t' ≡ emit t msg
      → Admits drain t msg replay t'

dropped-notes :
    (drain : Turn → Turn) (t : Turn) (msg : Json) (replay : Bool)
    → Admits drain t msg replay (drop_frame t)
dropped-notes drain t msg replay = notes t.state.initialize (t.state.dropped + 1) [] (
    ap (λ r. record t { state = record t.state { dropped = t.state.dropped + 1 }; replies = r })
      (sym (append-nil t.replies)))

module _ (drain : Turn → Turn) (msg : Json) (replay : Bool) where
  open_in-Admits :
      (t : Turn) (phase : Phase) (version : ℤ)
      → t.state.phase ≡ phase
      → phase ≢ dead
      → has_method msg did_open ≡ true
      → Admits drain t msg replay (open_in drain phase t msg replay (text_document msg) version)
  open_in-Admits t booting version e ne o = holds (rw e) (rw o) refl
  open_in-Admits t ready version e ne o = opens version e o refl
  open_in-Admits t opened version e ne o = reopens version e o refl
  open_in-Admits t dead version e ne o = absurd (ne refl)

  open_version-Admits :
      (t : Turn) (version : Option ℤ)
      → t.state.phase ≢ dead
      → has_method msg did_open ≡ true
      → Admits drain t msg replay (open_version drain version t msg replay)
  open_version-Admits t none ne o = dropped-notes drain t msg replay
  open_version-Admits t (some version) ne o = open_in-Admits t t.state.phase version refl ne o

  admit_other-Admits :
      (t : Turn) (phase : Phase)
      → t.state.phase ≡ phase
      → phase ≢ dead
      → has_method msg did_open ≡ false
      → may_forward msg ≡ true
      → Admits drain t msg replay (admit_other drain phase t msg replay)
  admit_other-Admits t booting e ne o f = holds (rw e) (rw (o, f)) refl
  admit_other-Admits t ready e ne o f = holds (rw e) (rw (o, f)) refl
  admit_other-Admits t opened e ne o f =
      if_rule (Admits drain t msg replay) _ _ _ (λ _. dropped-notes drain t msg replay)
        λ fresh. emits e o f fresh refl
  admit_other-Admits t dead e ne o f = absurd (ne refl)

  -- The last part of `admit`, in the phases that are not dead.
  admit_alive-Admits :
      (t : Turn) (phase : Phase)
      → t.state.phase ≡ phase
      → phase ≢ dead
      → Admits drain t msg replay (
          if has_method msg did_open
          then admit_open drain t msg replay
          else if not (is_request msg) && is_some (get "method" msg) && not (is_forwarded msg)
          then drop_frame t
          else admit_other drain phase t msg replay)
  admit_alive-Admits t phase e ne =
      if_rule (Admits drain t msg replay) _ _ _
        (λ o. open_version-Admits t _ (λ d. ne (sym e ∙ d)) o)
        λ o.
          if_rule (Admits drain t msg replay) _ _ _ (λ _. dropped-notes drain t msg replay)
            λ f. admit_other-Admits t phase e ne o (ap not f)

  admit_frame-Admits :
      (t : Turn) (phase : Phase)
      → t.state.phase ≡ phase
      → Admits drain t msg replay (admit_frame drain phase t msg replay)
  admit_frame-Admits t booting e = admit_alive-Admits t booting e (λ p. cc)
  admit_frame-Admits t ready e = admit_alive-Admits t ready e (λ p. cc)
  admit_frame-Admits t opened e = admit_alive-Admits t opened e (λ p. cc)
  admit_frame-Admits t dead e = dropped-notes drain t msg replay

  -- The answers that the machine gives itself, and the rest.
  abbrev unanswered : Turn → Turn
  unanswered t =
      if (is_request msg && has_method msg "textDocument/completion")
        && (on_import t.state msg || header_refused t.state)
      then reply (completion_refused (on_import t.state msg) (get "id" msg)) (drop_frame t)
      else admit_frame drain t.state.phase t msg replay

  unanswered-Admits : (t : Turn) → Admits drain t msg replay (unanswered t)
  unanswered-Admits t =
      if_rule (Admits drain t msg replay)
        ((is_request msg && has_method msg "textDocument/completion")
          && (on_import t.state msg || header_refused t.state))
        (reply (completion_refused (on_import t.state msg) (get "id" msg)) (drop_frame t))
        (admit_frame drain t.state.phase t msg replay)
        (λ _.
          notes t.state.initialize (t.state.dropped + 1)
            (completion_refused (on_import t.state msg) (get "id" msg) ∷ []) refl)
        λ _. admit_frame-Admits t t.state.phase refl

  abbrev cached : Turn → Turn
  cached t = record t { state = record t.state { initialize = some msg } }

  cached-Admits :
      (t : Turn)
      → Admits drain t msg replay
          (if replay then cached t else reply (initialize_response (get "id" msg)) (cached t))
  cached-Admits t =
      if_rule (Admits drain t msg replay) replay (cached t)
        (reply (initialize_response (get "id" msg)) (cached t))
        (λ _. notes (some msg) t.state.dropped [] (
          ap (λ r. record t { state = record t.state { initialize = some msg }; replies = r })
            (sym (append-nil t.replies))))
        λ _. notes (some msg) t.state.dropped (initialize_response (get "id" msg) ∷ []) refl

  -- Every call of `admit` is one of the rules.
  pub admit_with-Admits : (t : Turn) → Admits drain t msg replay (admit_with drain t msg replay)
  unfolding admit_with
  admit_with-Admits t =
      if_rule (Admits drain t msg replay) (has_method msg "initialize" && is_request msg)
        (if replay then cached t else reply (initialize_response (get "id" msg)) (cached t))
        (if has_method msg "shutdown" && is_request msg
          then reply (shutdown_response (get "id" msg)) t
          else unanswered t)
        (λ _. cached-Admits t)
        λ _.
          if_rule (Admits drain t msg replay) (has_method msg "shutdown" && is_request msg)
            (reply (shutdown_response (get "id" msg)) t) (unanswered t)
            (λ _.
              notes t.state.initialize t.state.dropped (shutdown_response (get "id" msg) ∷ []) refl)
            λ _. unanswered-Admits t
