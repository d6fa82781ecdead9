-- ===== src/Coalescer/Newest.antt =====
-- The newest full-text change of lib/edit-coalescer.ts, over its inner functions.
use qed.Common.{
  ℕ, ◌+◌, ◌≡◌, refl, ap, ◌∙◌, Bool, true, false, not, ◌&&◌, Option, none, some, List, [], ◌∷◌, ◌++◌,
  append-nil, arith, ◌==◌, if◌then◌else◌, if_rule,
}
use qed.Common.Json.{Json, get, is_some}
use qed.FrontDoor.Machine.{is_request}
use qed.Coalescer.Frames.{is_full_text_change, is_keep_alive}
use qed.Coalescer.Machine.{
  Options, Effect, forwarded, Queued, Coalescer, slot_free, emit, forward, add_pending, admit,
  send_change, keep_alives, drain_on, drain,
}
use qed.Coalescer.Order.{forwards, forwards-++}

-- The last of the changes, where `d` was the last before them.
abbrev pub last_full : Option Json → List Json → Option Json
last_full d [] = d
last_full d (m ∷ ms) = last_full (if is_full_text_change m then some m else d) ms

pub last_full-++ :
    (d : Option Json) (xs ys : List Json) → last_full d (xs ++ ys) ≡ last_full (last_full d xs) ys
last_full-++ d [] ys = refl
last_full-++ d (x ∷ xs) ys = last_full-++ (if is_full_text_change x then some x else d) xs ys

abbrev pub held_or : Option Json → Option Json → Option Json
held_or none d = d
held_or (some m) d = some m

-- The change that is held, or else the last that went.
abbrev pub newest : Coalescer → Option Json
newest s = held_or s.held (last_full none (forwards s.out))

abbrev pub is_plain : Json → Bool
is_plain m = not (is_full_text_change m)

-- No change waits in the queue.
abbrev pub are_plain : List Queued → Bool
are_plain [] = true
are_plain (q ∷ qs) = is_plain q.msg && are_plain qs

-- The newest change is `c`, and none is in the queue.
abbrev pub IsNewest : Option Json → Coalescer → Type 0
IsNewest c s = (newest s ≡ c) × (are_plain s.queue ≡ true)

pub forward-last :
    (m : Json) (replay : Bool) (s : Coalescer)
    → last_full none (forwards (forward m replay s).out)
      ≡ (if is_full_text_change m then some m else last_full none (forwards s.out))
forward-last m replay s =
    ap (last_full none) (forwards-++ s.out (forwarded m replay ∷ []))
    ∙ last_full-++ none (forwards s.out) (m ∷ [])

-- A frame that is no change leaves the newest one.
pub forward-IsNewest :
    (c : Option Json) (m : Json) (replay : Bool) (s : Coalescer)
    → is_plain m ≡ true
    → IsNewest c s
    → IsNewest c (forward m replay s)
forward-IsNewest c m replay s p n =
    (ap (held_or s.held) (forward-last m replay s ∙ plain_if (is_full_text_change m) p) ∙ n.0, n.1)
  where
    plain_if :
        (b : Bool)
        → not b ≡ true
        → (if b then some m else last_full none (forwards s.out)) ≡ last_full none (forwards s.out)
    plain_if true h = absurd (ground (arith, h))
    plain_if false h = refl

pub emit-IsNewest :
    (c : Option Json) (e : Effect) (s : Coalescer)
    → forwards (e ∷ []) ≡ []
    → IsNewest c s
    → IsNewest c (emit e s)
emit-IsNewest c e s h n = (
  ap (λ l. held_or s.held (last_full none l))
        (forwards-++ s.out (e ∷ []) ∙ ap (λ l. forwards s.out ++ l) h ∙ append-nil (forwards s.out))
      ∙ n.0,
  n.1,
)

pub admit-IsNewest :
    (c : Option Json) (o : Options) (m : Json) (s : Coalescer)
    → is_plain m ≡ true
    → IsNewest c s
    → IsNewest c (admit o m s)
unfolding admit
admit-IsNewest c o m s p n =
    let asked = record s { pending = add_pending (get "id" m) s.pending } in
    if_rule (IsNewest c) (not (o.max_in_flight == 0) && is_request m) (forward m false asked)
      (forward m false s) (λ _. forward-IsNewest c m false asked p n)
      λ _. forward-IsNewest c m false s p n

pub are_plain-snoc :
    (qs : List Queued) (q : Queued)
    → are_plain qs ≡ true
    → is_plain q.msg ≡ true
    → are_plain (qs ++ q ∷ []) ≡ true
are_plain-snoc [] q h k = ground (arith, k)
are_plain-snoc (x ∷ qs) q h k = ground (arith, h, are_plain-snoc qs q)

keep_alives-IsNewest :
    (c : Option Json) (xs : List Queued) (s : Coalescer)
    → are_plain xs ≡ true
    → IsNewest c s
    → IsNewest c (keep_alives xs s)
keep_alives-IsNewest c [] s h n = n
keep_alives-IsNewest c (x ∷ xs) s h n =
    let put = record s { queue = s.queue ++ x ∷ [] } in
    let p : is_plain x.msg ≡ true = ground (arith, h) in
    let others : are_plain xs ≡ true = ground (arith, h) in
    if_rule (IsNewest c) (is_keep_alive x.msg) (keep_alives xs (forward x.msg false s))
      (keep_alives xs put)
      (λ _.
        keep_alives-IsNewest c xs (forward x.msg false s) others
          (forward-IsNewest c x.msg false s p n))
      λ _. keep_alives-IsNewest c xs put others (n.0, are_plain-snoc s.queue x n.1 p)

drain_on-IsNewest :
    (c : Option Json) (o : Options) (xs : List Queued) (s : Coalescer)
    → are_plain xs ≡ true
    → IsNewest c s
    → IsNewest c (drain_on o xs s)
drain_on-IsNewest c o [] s h n = (n.0, refl)
drain_on-IsNewest c o (x ∷ xs) s h n =
    let stopped = record s { queue = x ∷ [] } in
    let p : is_plain x.msg ≡ true = ground (arith, h) in
    let others : are_plain xs ≡ true = ground (arith, h) in
    if_rule (IsNewest c) (is_request x.msg && not (slot_free o s)) (keep_alives xs stopped)
      (drain_on o xs (admit o x.msg s))
      (λ _. keep_alives-IsNewest c xs stopped others (n.0, ground (arith, p)))
      λ _. drain_on-IsNewest c o xs (admit o x.msg s) others (admit-IsNewest c o x.msg s p n)

pub drain-IsNewest :
    (c : Option Json) (o : Options) (s : Coalescer) → IsNewest c s → IsNewest c (drain o s)
unfolding drain
drain-IsNewest c o s n =
    if_rule (IsNewest c) (is_some s.held) s (drain_on o s.queue s) (λ _. n)
      λ _. drain_on-IsNewest c o s.queue s n.1 n

-- A change that goes is the newest, if nothing is held.
pub send_change-IsNewest :
    (o : Options) (now : ℕ) (m : Json) (s : Coalescer)
    → is_full_text_change m ≡ true
    → s.held ≡ none
    → are_plain s.queue ≡ true
    → IsNewest (some m) (send_change o now m s)
unfolding send_change
send_change-IsNewest o now m s f h q =
    let open_window = record s { window = some (now + o.ms) } in
    (
      ap (λ x. held_or x (last_full none (forwards (forward m false open_window).out))) h
          ∙ forward-last m false open_window
          ∙ ap (λ b. if b then some m else last_full none (forwards s.out)) f,
      q,
    )
