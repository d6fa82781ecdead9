-- ===== src/FrontDoor/Coalesce.antt =====
-- `enqueue` of public/workers/lsp-front-door.js: the held frames, and which of them are content.
use qed.Common.{
  ℕ, ◌+◌, ◌≤◌, ◌≡◌, refl, ap, ◌∙◌, Bool, true, false, ◌||◌, List, [], ◌∷◌, ◌++◌, arith,
  if◌then◌else◌, if_rule, Bool-cases, inl, inr,
}
use qed.Common.Json.{Json, get, is_text_other}
use qed.FrontDoor.Machine.{Held, did_open, did_change, has_method, enqueue, without}

abbrev pub is_change : Json → Bool
is_change m = has_method m did_change

abbrev pub is_content : Json → Bool
is_content m = has_method m did_change || has_method m did_open

abbrev pub count : (Json → Bool) → List Held → ℕ
count p [] = 0
count p (q ∷ qs) = (if p q.msg then 1 else 0) + count p qs

-- At most one change and one didOpen.
abbrev pub IsCoalesced : List Held → Type 0
IsCoalesced qs = (count is_change qs ≤ 1) × (count (λ m. has_method m did_open) qs ≤ 1)

-- The held frames that are not content, in their order.
abbrev pub others : List Held → List Held
others qs = without is_content qs

count-snoc :
    (p : Json → Bool) (qs : List Held) (x : Held)
    → count p (qs ++ x ∷ []) ≡ count p qs + (if p x.msg then 1 else 0)
count-snoc p [] x = omega arith
count-snoc p (q ∷ qs) x = rw (count-snoc p qs x) (omega arith)

count-without : (p gone : Json → Bool) (qs : List Held) → count p (without gone qs) ≤ count p qs
count-without p gone [] = omega arith
count-without p gone (q ∷ qs) = ground (arith, count-without p gone qs)

count-without_gone :
    (p gone : Json → Bool) (qs : List Held)
    → ((m : Json) → p m ≡ true → gone m ≡ true)
    → count p (without gone qs) ≡ 0
count-without_gone p gone [] h = refl
count-without_gone p gone (q ∷ qs) h = ground (arith, count-without_gone p gone qs h, h q.msg)

others-snoc :
    (qs : List Held) (x : Held)
    → others (qs ++ x ∷ []) ≡ others qs ++ (if is_content x.msg then [] else x ∷ [])
others-snoc [] x = ground arith
others-snoc (q ∷ qs) x = ground (arith, others-snoc qs x)

-- Taking out some of the content leaves the rest.
others-without :
    (gone : Json → Bool) (qs : List Held)
    → ((m : Json) → gone m ≡ true → is_content m ≡ true)
    → others (without gone qs) ≡ others qs
others-without gone [] h = refl
others-without gone (q ∷ qs) h = ground (arith, others-without gone qs h, h q.msg)

-- No frame has both methods.
change-open : (m : Json) → has_method m did_change ≡ true → has_method m did_open ≡ false
change-open m h = is_text_other (get "method" m) did_change did_open h refl

-- What is left of the held frames when one more comes.
abbrev kept : List Held → Held → List Held
kept held item =
    if has_method item.msg did_change
    then without is_change held
    else if has_method item.msg did_open
    then without is_content held
    else held

kept-others : (held : List Held) (item : Held) → others (kept held item) ≡ others held
kept-others held item =
    if_rule (λ qs. others qs ≡ others held) (has_method item.msg did_change)
      (without is_change held)
      (if has_method item.msg did_open then without is_content held else held)
      (λ _. others-without is_change held λ m h. rw (h))
      λ _.
        if_rule (λ qs. others qs ≡ others held) (has_method item.msg did_open)
          (without is_content held) held (λ _. others-without is_content held λ m h. h) λ _. refl

kept-changes :
    (held : List Held) (item : Held)
    → count is_change held ≤ 1
    → count is_change (kept held item) + (if is_change item.msg then 1 else 0) ≤ 1
kept-changes held item h = elim (Bool-cases (has_method item.msg did_change)) [
  | inl c ↦ rw (c, count-without_gone is_change is_change held λ m h. h) (omega arith)
  | inr c ↦ rw (c) (
      if_rule (λ qs. count is_change qs + 0 ≤ 1) (has_method item.msg did_open)
        (without is_content held) held (λ _. le_of (count-without is_change is_content held) h)
        λ _. ground arith)
]
  where
    le_of : {a b : ℕ} → a ≤ b → b ≤ 1 → a + 0 ≤ 1
    le_of h k = omega arith

kept-opens :
    (held : List Held) (item : Held)
    → count (λ m. has_method m did_open) held ≤ 1
    → count (λ m. has_method m did_open) (kept held item)
        + (if has_method item.msg did_open then 1 else 0)
      ≤ 1
kept-opens held item h = elim (Bool-cases (has_method item.msg did_change)) [
  | inl c ↦
      rw (c, change-open item.msg c)
        (le_of (count-without (λ m. has_method m did_open) is_change held) h)
  | inr c ↦ elim (Bool-cases (has_method item.msg did_open)) [
    | inl o ↦
        rw
          (
            c,
            o,
            count-without_gone (λ m. has_method m did_open) is_content held λ m h. ground arith,
          )
          (omega arith)
    | inr o ↦ rw (c, o) (ground arith)
  ]
]
  where
    le_of : {a b : ℕ} → a ≤ b → b ≤ 1 → a + 0 ≤ 1
    le_of h k = omega arith

-- One more held frame: there is still at most one change and one didOpen, the frames that are not
-- content are all there and in their order, and the new frame is the last.
pub enqueue-IsCoalesced :
    (held : List Held) (item : Held)
    → IsCoalesced held
    → IsCoalesced (enqueue held item)
      × (others (enqueue held item)
          ≡ others held ++ (if is_content item.msg then [] else item ∷ []))
      × ((ys : List Held) × (enqueue held item ≡ ys ++ item ∷ []))
unfolding enqueue
enqueue-IsCoalesced held item (c, o) = (
  (
    rw (count-snoc is_change (kept held item) item) (kept-changes held item c),
    rw (count-snoc (λ m. has_method m did_open) (kept held item) item) (kept-opens held item o),
  ),
  others-snoc (kept held item) item
      ∙ ap (λ qs. qs ++ (if is_content item.msg then [] else item ∷ [])) (kept-others held item),
  (kept held item, refl),
)
