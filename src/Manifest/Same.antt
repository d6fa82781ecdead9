-- ===== src/Manifest/Same.antt =====
-- The content under a path of a list of umbrella files, and the tests of equal texts and numbers, of
-- pipeline/release/release-manifest.mjs.
use Prim.Native.String.{String}
use text.Mathlib.Text.{◌==◌ as str_eq}
use text.Mathlib.TextEquality.{eq_iff}
use qed.Common.{
  ◌≡◌, ◌≢◌, refl, sym, ap, ◌∙◌, Bool, true, false, ◌&&◌, Option, none, some, List, [], ◌∷◌,
  if◌then◌else◌, Bool-cases, inl, inr, arith,
}
use qed.Common.Int.{eqb_ℤ_iff}
use qed.Common.Json.{Json, str, num}
use qed.Manifest.Checked.{ok, refused}
use qed.Manifest.Tree.{Umbrella, text_leb}
use qed.Manifest.Paired.{same_text, same_number}

abbrev pub Content : Type 0
Content = Option Json × Option Json

-- The content of the first file with a path.
abbrev pub content_at : String → List Umbrella → Option Content
content_at path [] = none
content_at path (x ∷ xs) =
    let rest = content_at path xs in if str_eq x.path path then some (x.sha, x.bytes) else rest

pub same_text-eq : (a b : Option Json) → same_text a b ≡ true → a ≡ b
same_text-eq (some (str a)) (some (str b)) h = ap (λ s. some (str s)) ((eq_iff a b).0 h)
same_text-eq a b h = cc

pub same_number-eq : (a b : Option Json) → same_number a b ≡ true → a ≡ b
same_number-eq (some (num a)) (some (num b)) h = ap (λ n. some (num n)) ((eqb_ℤ_iff a b).0 h)
same_number-eq a b h = cc

pub text_leb_refl : (s : String) → text_leb s s ≡ true
unfolding text_leb
text_leb_refl String.[] = refl
text_leb_refl (String.◌∷◌ c s) = ground (arith, text_leb_refl s)

pub true-false : true ≢ false
true-false h = cc

pub refused-ok : {why : String} {vs : List Umbrella} → refused why ≢ ok vs
refused-ok h = cc

pub some_injective : {c d : Content} → some c ≡ some d → c ≡ d
some_injective {c} h = ap (value c) h
  where
    value : Content → Option Content → Content
    value d none = d
    value d (some x) = x

-- Tests of one text against two, and conditionals on them.
pub apart : (a b c : String) → str_eq a b ≡ false → (str_eq a c && str_eq b c) ≡ false
apart a b c h = elim (Bool-cases (str_eq a c && str_eq b c)) [
  | inl e ↦
      let first : str_eq a c ≡ true = ground (arith, e) in
      let second : str_eq b c ≡ true = ground (arith, e) in
      absurd
        (true-false (sym ((eq_iff a b).1 ((eq_iff a c).0 first ∙ sym ((eq_iff b c).0 second))) ∙ h))
  | inr e ↦ e
]

pub if_swap :
    (a b : Bool) (x y z : Option Content)
    → (a && b) ≡ false
    → (if a then x else if b then y else z) ≡ (if b then y else if a then x else z)
if_swap true true x y z h = absurd (true-false h)
if_swap true false x y z h = refl
if_swap false b x y z h = refl

pub if_same :
    (a b : Bool) (x y z : Option Content)
    → a ≡ b
    → (if b then y else z) ≡ (if b then y else if a then x else z)
if_same true true x y z h = refl
if_same true false x y z h = absurd (true-false h)
if_same false true x y z h = absurd (true-false (sym h))
if_same false false x y z h = refl
