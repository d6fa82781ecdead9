-- ===== src/FrontDoor/Depth.antt =====
-- How deep `admit` and `drain` of public/workers/lsp-front-door.js call each other.
use qed.Common.{
  ℕ, zero, suc, ◌≡◌, refl, ap, subst, ◌∙◌, Bool, true, not, ◌&&◌, ◌||◌, Option, none, some, List,
  [], ◌∷◌, if◌then◌else◌, Bool-cases, inl, inr,
}
use qed.Common.Int.{ℤ}
use qed.Common.Json.{Json, get, is_some}
use qed.FrontDoor.Machine.{
  Phase, booting, ready, opened, dead, Held, Turn, did_open, has_method, is_request, is_forwarded,
  version_of, text_document,
}
use qed.FrontDoor.Admit.{
  open_loop, open_in, open_version, admit_other, admit_frame, admit_with, admit, drain_with,
  admit_each, reply, drop_frame, on_import, header_refused,
}
use qed.FrontDoor.Replies.{initialize_response, shutdown_response, completion_refused}
use qed.FrontDoor.Rules.{admit_with-Admits}
use qed.FrontDoor.Valid.{IsSoundIn, IsSound, IsOpen}
use qed.FrontDoor.Keeps.{cleared, open_loop-IsOpen}
use qed.FrontDoor.Handled.{Admits-IsOpen}

-- Two drains that agree on the opening of a frame give the same turn.
module _ (d d' : Turn → Turn) (t : Turn) (msg : Json) (replay : Bool)
    (same : (v : ℤ)
      → t.state.phase ≡ ready
      → has_method msg did_open ≡ true
      → d (open_loop t msg (text_document msg) v)
        ≡ d' (open_loop t msg (text_document msg) v)) where
  open_in_agree :
      (p : Phase) (v : ℤ)
      → t.state.phase ≡ p
      → has_method msg did_open ≡ true
      → open_in d p t msg replay (text_document msg) v
        ≡ open_in d' p t msg replay (text_document msg) v
  open_in_agree booting v e o = refl
  open_in_agree ready v e o = same v e o
  open_in_agree opened v e o = refl
  open_in_agree dead v e o = refl

  open_version_agree :
      (version : Option ℤ)
      → has_method msg did_open ≡ true
      → open_version d version t msg replay ≡ open_version d' version t msg replay
  open_version_agree none o = refl
  open_version_agree (some v) o = open_in_agree t.state.phase v refl o

  admit_other_agree : (p : Phase) → admit_other d p t msg replay ≡ admit_other d' p t msg replay
  admit_other_agree booting = refl
  admit_other_agree ready = refl
  admit_other_agree opened = refl
  admit_other_agree dead = refl

  abbrev alive : Turn → Turn → Turn
  alive opening other =
      if has_method msg did_open
      then opening
      else if not (is_request msg) && is_some (get "method" msg) && not (is_forwarded msg)
      then drop_frame t
      else other

  opening_agree :
      (other : Turn)
      → alive (open_version d (version_of (text_document msg)) t msg replay) other
        ≡ alive (open_version d' (version_of (text_document msg)) t msg replay) other
  opening_agree other = elim (Bool-cases (has_method msg did_open)) [
    | inl o ↦ ap (λ x. alive x other) (open_version_agree (version_of (text_document msg)) o)
    | inr o ↦ rw (o)
  ]

  alive_agree :
      (p : Phase)
      → alive
          (open_version d (version_of (text_document msg)) t msg replay)
          (admit_other d p t msg replay)
        ≡ alive
            (open_version d' (version_of (text_document msg)) t msg replay)
            (admit_other d' p t msg replay)
  alive_agree p =
      opening_agree (admit_other d p t msg replay)
      ∙ ap (alive (open_version d' (version_of (text_document msg)) t msg replay))
          (admit_other_agree p)

  admit_frame_agree : (p : Phase) → admit_frame d p t msg replay ≡ admit_frame d' p t msg replay
  admit_frame_agree booting = alive_agree booting
  admit_frame_agree ready = alive_agree ready
  admit_frame_agree opened = alive_agree opened
  admit_frame_agree dead = refl

  pub admit_with_agree : admit_with d t msg replay ≡ admit_with d' t msg replay
  unfolding admit_with
  admit_with_agree =
      ap
        (λ x.
          if has_method msg "initialize" && is_request msg
          then (if replay
              then record t { state = record t.state { initialize = some msg } }
              else reply (initialize_response (get "id" msg))
                  (record t { state = record t.state { initialize = some msg } }))
          else if has_method msg "shutdown" && is_request msg
          then reply (shutdown_response (get "id" msg)) t
          else if (is_request msg && has_method msg "textDocument/completion")
              && (on_import t.state msg || header_refused t.state)
          then reply (completion_refused (on_import t.state msg) (get "id" msg)) (drop_frame t)
          else x)
        (admit_frame_agree t.state.phase)

-- With a live loop no drain is called.
admit_each_agree :
    (d d' : Turn → Turn) (qs : List Held) (t : Turn)
    → IsOpen t
    → admit_each (admit_with d) qs t ≡ admit_each (admit_with d') qs t
admit_each_agree d d' [] t h = refl
admit_each_agree d d' (q ∷ qs) t h =
    ap (admit_each (admit_with d) qs) (admit_with_agree d d' t q.msg q.replay λ v e o. absurd cc)
    ∙ admit_each_agree d d' qs (admit_with d' t q.msg q.replay)
        (Admits-IsOpen d' t q.msg q.replay _ h (admit_with-Admits d' q.msg q.replay t))

drain_agree :
    (d d' : Turn → Turn) (t : Turn)
    → IsOpen (cleared t)
    → drain_with (admit_with d) t ≡ drain_with (admit_with d') t
drain_agree d d' t h = admit_each_agree d d' t.state.queue (cleared t) h

-- The nesting of `admit` and `drain` ends at the first level: for a sound machine any depth of one or
-- more gives the turn of depth one, whatever frame comes.
pub admit_depth :
    (n : ℕ) (t : Turn) (msg : Json) (replay : Bool)
    → IsSound t
    → admit (suc n) t msg replay ≡ admit 1 t msg replay
unfolding admit
admit_depth zero t msg replay sound = refl
admit_depth (suc n) t msg replay sound =
    admit_with_agree (drain_with (admit_with (drain_with (admit n))))
      (drain_with (admit_with (λ t. t))) t msg replay
      λ v e o.
        drain_agree (drain_with (admit n)) (λ t. t) (open_loop t msg (text_document msg) v)
          (open_loop-IsOpen t msg v (subst (λ p. IsSoundIn p t) e sound) o)
