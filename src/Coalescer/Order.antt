-- ===== src/Coalescer/Order.antt =====
-- The order of the notifications through lib/edit-coalescer.ts.
use qed.Common.{
  ℕ, ◌+◌, ◌≡◌, refl, sym, ap, ◌∙◌, Bool, true, false, not, ◌&&◌, Option, none, some, List, [], ◌∷◌,
  ◌++◌, append-nil, append_assoc, arith, ◌==◌, if◌then◌else◌, if_rule,
}
use qed.Common.Json.{Json, get, is_some}
use qed.FrontDoor.Machine.{is_request}
use qed.Coalescer.Frames.{is_full_text_change, is_keep_alive, cancel_target, Refusal}
use qed.Coalescer.Machine.{
  Options, Kind, Effect, forwarded, rejected, noted, Queued, Coalescer, slot_free, emit, forward,
  end_hold, add_pending, admit, send_change, keep_alives, drain_on, drain, send_held, release,
  admit_all,
}

abbrev pub filter : (Json → Bool) → List Json → List Json
filter p [] = []
filter p (x ∷ xs) = let rest = filter p xs in if p x then x ∷ rest else rest

abbrev pub forwards : List Effect → List Json
forwards [] = []
forwards (forwarded m replay ∷ es) = m ∷ forwards es
forwards (_ ∷ es) = forwards es

abbrev pub msgs_of : List Queued → List Json
msgs_of [] = []
msgs_of (q ∷ qs) = q.msg ∷ msgs_of qs

pub filter-++ :
    (p : Json → Bool) (xs ys : List Json) → filter p (xs ++ ys) ≡ filter p xs ++ filter p ys
filter-++ p [] ys = refl
filter-++ p (x ∷ xs) ys = ground (arith, filter-++ p xs ys)

pub forwards-++ : (xs ys : List Effect) → forwards (xs ++ ys) ≡ forwards xs ++ forwards ys
forwards-++ [] ys = refl
forwards-++ (forwarded m r ∷ xs) ys = ap (◌∷◌ m) (forwards-++ xs ys)
forwards-++ (rejected m r ∷ xs) ys = forwards-++ xs ys
forwards-++ (noted k t ∷ xs) ys = forwards-++ xs ys

pub msgs_of-++ : (xs ys : List Queued) → msgs_of (xs ++ ys) ≡ msgs_of xs ++ msgs_of ys
msgs_of-++ [] ys = refl
msgs_of-++ (x ∷ xs) ys = ap (◌∷◌ x.msg) (msgs_of-++ xs ys)

-- A notification that is neither coalesced nor a cancel nor a keep-alive.
unfoldable pub is_ordered : Json → Bool
is_ordered m =
    not (is_request m)
    && not (is_full_text_change m)
    && not (is_some (cancel_target m))
    && not (is_keep_alive m)

-- The notifications that went, and those that go when the queue does.
abbrev pub gone : Coalescer → List Json
gone s = filter is_ordered (forwards s.out)

abbrev pub waiting : Coalescer → List Json
waiting s = filter is_ordered (msgs_of s.queue)

abbrev pub stream : Coalescer → List Json
stream s = gone s ++ waiting s

abbrev pub one : Json → List Json
one m = if is_ordered m then m ∷ [] else []

pub forward-gone :
    (m : Json) (replay : Bool) (s : Coalescer) → gone (forward m replay s) ≡ gone s ++ one m
forward-gone m replay s =
    ap (filter is_ordered) (forwards-++ s.out (forwarded m replay ∷ []))
    ∙ filter-++ is_ordered (forwards s.out) (m ∷ [])

pub admit-gone : (o : Options) (m : Json) (s : Coalescer) → gone (admit o m s) ≡ gone s ++ one m
unfolding admit
admit-gone o m s =
    if_rule (λ x. gone x ≡ gone s ++ one m) (not (o.max_in_flight == 0) && is_request m)
      (forward m false (record s { pending = add_pending (get "id" m) s.pending }))
      (forward m false s)
      (λ _. forward-gone m false (record s { pending = add_pending (get "id" m) s.pending }))
      λ _. forward-gone m false s

pub one-cons :
    (m : Json) (ms : List Json) → one m ++ filter is_ordered ms ≡ filter is_ordered (m ∷ ms)
one-cons m ms = ground arith

pub keep_alive-one : (m : Json) → is_keep_alive m ≡ true → one m ≡ []
unfolding is_ordered
keep_alive-one m h = ground (arith, h)

pub request-one : (m : Json) → is_request m ≡ true → one m ≡ []
unfolding is_ordered
request-one m h = rw (h) refl

pub full-one : (m : Json) → is_full_text_change m ≡ true → one m ≡ []
unfolding is_ordered
full-one m h = ground (arith, h)

-- What is given to the front of the queue, and what is behind it.
through :
    (g rest : List Json) (m : Json) (ms : List Json)
    → g ++ one m ++ filter is_ordered ms ≡ rest
    → g ++ filter is_ordered (m ∷ ms) ≡ rest
through g rest m ms h = ap (λ x. g ++ x) (sym (one-cons m ms)) ∙ sym (append_assoc g (one m) _) ∙ h

keep_alives-stream :
    (xs : List Queued) (s : Coalescer)
    → stream (keep_alives xs s) ≡ stream s ++ filter is_ordered (msgs_of xs)
keep_alives-stream [] s = sym (append-nil (stream s))
keep_alives-stream (x ∷ xs) s =
    if_rule (λ t. stream t ≡ stream s ++ filter is_ordered (msgs_of (x ∷ xs))) (is_keep_alive x.msg)
      (keep_alives xs (forward x.msg false s))
      (keep_alives xs (record s { queue = s.queue ++ x ∷ [] }))
      (λ h.
        keep_alives-stream xs (forward x.msg false s)
        ∙ ap (λ g. (g ++ waiting s) ++ filter is_ordered (msgs_of xs))
            (forward-gone x.msg false s
              ∙ ap (λ l. gone s ++ l) (keep_alive-one x.msg h)
              ∙ append-nil (gone s))
        ∙ ap (λ l. stream s ++ l)
            (ap (λ l. l ++ filter is_ordered (msgs_of xs)) (sym (keep_alive-one x.msg h))
              ∙ one-cons x.msg (msgs_of xs)))
      λ _.
        keep_alives-stream xs (record s { queue = s.queue ++ x ∷ [] })
        ∙ ap (λ w. (gone s ++ w) ++ filter is_ordered (msgs_of xs))
            (ap (filter is_ordered) (msgs_of-++ s.queue (x ∷ []))
              ∙ filter-++ is_ordered (msgs_of s.queue) (x.msg ∷ []))
        ∙ ap (λ l. l ++ filter is_ordered (msgs_of xs))
            (sym (append_assoc (gone s) (waiting s) (one x.msg)))
        ∙ append_assoc (stream s) (one x.msg) (filter is_ordered (msgs_of xs))
        ∙ ap (λ l. stream s ++ l) (one-cons x.msg (msgs_of xs))

drain_on-stream :
    (o : Options) (xs : List Queued) (s : Coalescer)
    → stream (drain_on o xs s) ≡ gone s ++ filter is_ordered (msgs_of xs)
drain_on-stream o [] s = refl
drain_on-stream o (x ∷ xs) s =
    if_rule (λ t. stream t ≡ gone s ++ filter is_ordered (msgs_of (x ∷ xs)))
      (is_request x.msg && not (slot_free o s)) (keep_alives xs (record s { queue = x ∷ [] }))
      (drain_on o xs (admit o x.msg s))
      (λ _.
        keep_alives-stream xs (record s { queue = x ∷ [] })
        ∙ append_assoc (gone s) (one x.msg) (filter is_ordered (msgs_of xs))
        ∙ ap (λ l. gone s ++ l) (one-cons x.msg (msgs_of xs)))
      λ _.
        drain_on-stream o xs (admit o x.msg s)
        ∙ ap (λ g. g ++ filter is_ordered (msgs_of xs)) (admit-gone o x.msg s)
        ∙ append_assoc (gone s) (one x.msg) (filter is_ordered (msgs_of xs))
        ∙ ap (λ l. gone s ++ l) (one-cons x.msg (msgs_of xs))

pub drain-stream : (o : Options) (s : Coalescer) → stream (drain o s) ≡ stream s
unfolding drain
drain-stream o s =
    if_rule (λ t. stream t ≡ stream s) (is_some s.held) s (drain_on o s.queue s) (λ _. refl)
      λ _. drain_on-stream o s.queue s

pub admit_all-gone :
    (o : Options) (xs : List Queued) (s : Coalescer)
    → gone (admit_all o xs s) ≡ gone s ++ filter is_ordered (msgs_of xs)
admit_all-gone o [] s = sym (append-nil (gone s))
admit_all-gone o (x ∷ xs) s =
    admit_all-gone o xs (admit o x.msg s)
    ∙ ap (λ g. g ++ filter is_ordered (msgs_of xs)) (admit-gone o x.msg s)
    ∙ append_assoc (gone s) (one x.msg) (filter is_ordered (msgs_of xs))
    ∙ ap (λ l. gone s ++ l) (one-cons x.msg (msgs_of xs))

-- A held frame is a change.
abbrev pub holds_full : Option Json → Bool
holds_full none = true
holds_full (some m) = is_full_text_change m

pub send_change-stream :
    (o : Options) (now : ℕ) (m : Json) (s : Coalescer)
    → is_full_text_change m ≡ true
    → stream (send_change o now m s) ≡ stream s
unfolding send_change
send_change-stream o now m s h =
    ap (λ g. g ++ waiting s)
      (forward-gone m false (record s { window = some (now + o.ms) })
        ∙ ap (λ l. gone s ++ l) (full-one m h)
        ∙ append-nil (gone s))

pub send_held-stream :
    (o : Options) (now : ℕ) (h : Option Json) (s : Coalescer)
    → holds_full h ≡ true
    → stream (send_held o now h s) ≡ stream s
send_held-stream o now none s k = refl
send_held-stream o now (some m) s k = send_change-stream o now m (record s { held = none }) k

pub release-stream :
    (o : Options) (now : ℕ) (s : Coalescer)
    → holds_full s.held ≡ true
    → stream (release o now s) ≡ stream s
unfolding release
release-stream o now s h =
    drain-stream o (send_held o now s.held (end_hold s))
    ∙ send_held-stream o now s.held (end_hold s) h

pub noted-stream :
    (e : Kind) (t : Option ℕ) (s : Coalescer) → stream (emit (noted e t) s) ≡ stream s
noted-stream e t s =
    ap (λ g. filter is_ordered g ++ waiting s)
      (forwards-++ s.out (noted e t ∷ []) ∙ append-nil (forwards s.out))

pub rejected-stream :
    (m : Json) (r : Refusal) (s : Coalescer) → stream (emit (rejected m r) s) ≡ stream s
rejected-stream m r s =
    ap (λ g. filter is_ordered g ++ waiting s)
      (forwards-++ s.out (rejected m r ∷ []) ∙ append-nil (forwards s.out))
