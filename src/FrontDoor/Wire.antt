-- ===== src/FrontDoor/Wire.antt =====
-- The frames that go to the FileWorker behind its opening, through the version shift and the backlog
-- of public/workers/lsp-front-door.js.
use text.Mathlib.Text.{◌==◌ as str_eq}
use qed.Common.{
  ◌≡◌, refl, ap, ◌∙◌, String, Bool, true, false, not, ◌&&◌, ◌||◌, Option, none, some, List, [], ◌∷◌,
  ◌++◌, arith, if◌then◌else◌, if_rule,
}
use qed.Common.Lists.{all}
use qed.Common.Int.{ℤ, pos, eqb_ℤ}
use qed.Common.Json.{Json, null, bool, num, str, arr, obj, get, put, is_some, lookup-update}
use qed.FrontDoor.Machine.{
  Held, did_open, did_change, is_forwarded, has_method, is_request, shift_params, shift_at,
  shift_versions, enqueue, without,
}

-- What may be written to the FileWorker: a request, an answer (no method), or one of the
-- notifications that it dispatches.
abbrev pub may_forward : Json → Bool
may_forward msg = not (not (is_request msg) && is_some (get "method" msg) && not (is_forwarded msg))

-- Behind the opening there is no second didOpen.
abbrev pub wire_ok : Json → Bool
wire_ok msg = may_forward msg && not (has_method msg did_open)

abbrev pub all_held : (Json → Bool) → List Held → Bool
all_held p [] = true
all_held p (q ∷ qs) = p q.msg && all_held p qs

get-put : (k j : String) (v m : Json) → str_eq k j ≡ false → get j (put k v m) ≡ get j m
get-put k j v (obj fs) e = lookup-update k j v fs ∙ ap (λ b. if b then some v else get j (obj fs)) e
get-put k j v null e = refl
get-put k j v (bool _) e = refl
get-put k j v (num _) e = refl
get-put k j v (str _) e = refl
get-put k j v (arr _) e = refl

-- A shift leaves every field but the parameters.
get-shift_at :
    (m : Json) (delta : ℤ) (j : String) (p : Option Json)
    → str_eq "params" j ≡ false
    → get j (shift_at p m delta) ≡ get j m
get-shift_at m delta j none e = refl
get-shift_at m delta j (some p) e =
    if_rule (λ x. get j x ≡ get j m) (eqb_ℤ delta (pos 0)) m (put "params" (shift_params p delta) m)
      (λ _. refl) λ _. get-put "params" j (shift_params p delta) m e

pub get-shift_versions :
    (m : Json) (delta : ℤ) (j : String)
    → str_eq "params" j ≡ false
    → get j (shift_versions m delta) ≡ get j m
unfolding shift_versions
get-shift_versions m delta j e = get-shift_at m delta j (get "params" m) e

pub wire_ok-shift_versions : (m : Json) (delta : ℤ) → wire_ok (shift_versions m delta) ≡ wire_ok m
wire_ok-shift_versions m delta =
    rw (get-shift_versions m delta "id" refl, get-shift_versions m delta "method" refl)

pub all-snoc :
    {A : Type 0} (p : A → Bool) (xs : List A) (x : A)
    → all p xs ≡ true
    → p x ≡ true
    → all p (xs ++ x ∷ []) ≡ true
all-snoc p [] x h k = rw k
all-snoc p (y ∷ xs) x h k = ground (arith, all-snoc p xs x)

all_held-snoc :
    (p : Json → Bool) (xs : List Held) (x : Held)
    → all_held p xs ≡ true
    → p x.msg ≡ true
    → all_held p (xs ++ x ∷ []) ≡ true
all_held-snoc p [] x h k = rw k
all_held-snoc p (y ∷ xs) x h k = ground (arith, all_held-snoc p xs x)

all_held-without :
    (p gone : Json → Bool) (xs : List Held)
    → all_held p xs ≡ true
    → all_held p (without gone xs) ≡ true
all_held-without p gone [] h = refl
all_held-without p gone (y ∷ xs) h = ground (arith, all_held-without p gone xs)

pub all_held-enqueue :
    (p : Json → Bool) (xs : List Held) (x : Held)
    → all_held p xs ≡ true
    → p x.msg ≡ true
    → all_held p (enqueue xs x) ≡ true
unfolding enqueue
all_held-enqueue p xs x h k =
    all_held-snoc p _ x
      (if_rule (λ ys. all_held p ys ≡ true) (has_method x.msg did_change) _ _
        (λ _. all_held-without p (λ m. has_method m did_change) xs h)
        λ _.
          if_rule (λ ys. all_held p ys ≡ true) (has_method x.msg did_open) _ _
            (λ _. all_held-without p (λ m. has_method m did_change || has_method m did_open) xs h)
            λ _. h)
      k
