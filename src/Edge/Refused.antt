-- ===== src/Edge/Refused.antt =====
-- The paths for which `artifactKey` of infra/edge-worker.js has no key, character by character and
-- segment by segment.
use Prim.Native.Char.{code}
use Prim.Native.String.{String}
use text.Mathlib.Text.{◌==◌ as str_eq}
use text.Mathlib.TextEquality.{eq_iff}
use qed.Common.{
  ℕ, ◌≡◌, refl, sym, ap, ◌∙◌, Bool, true, false, not, ◌&&◌, ◌||◌, none, some, List, [], ◌∷◌, ◌==◌,
  ==_iff, arith, if_rule, Bool-cases, inl, inr,
}
use qed.Common.Lists.{any, all}
use qed.Edge.Keys.{
  artifact_key, after_prefix, all_chars, key_of, is_unsafe_char, is_unsafe_segment, is_dot_segment,
  segments,
}

-- The backslash, DEL, and the control characters from 0 to 31.
abbrev pub unsafe_codes : List ℕ
unsafe_codes =
    0x5c ∷ 0x7f ∷ 0 ∷ 1 ∷ 2 ∷ 3 ∷ 4 ∷ 5 ∷ 6 ∷ 7 ∷ 8 ∷ 9 ∷ 10 ∷ 11 ∷ 12 ∷ 13 ∷ 14 ∷ 15 ∷ 16 ∷ 17 ∷ 18
    ∷ 19 ∷ 20 ∷ 21 ∷ 22 ∷ 23 ∷ 24 ∷ 25 ∷ 26 ∷ 27 ∷ 28 ∷ 29 ∷ 30 ∷ 31 ∷ []

-- The empty segment, and one or two dots, each written out or escaped.
abbrev pub unsafe_segments : List String
unsafe_segments =
    "" ∷ "." ∷ "%2e" ∷ "%2E" ∷ ".." ∷ ".%2e" ∷ ".%2E" ∷ "%2e." ∷ "%2e%2e" ∷ "%2e%2E" ∷ "%2E."
    ∷ "%2E%2e" ∷ "%2E%2E" ∷ []

abbrev pub has_unsafe_char : String → Bool
has_unsafe_char String.[] = false
has_unsafe_char (String.◌∷◌ c s) = any (λ k. code c == k) unsafe_codes || has_unsafe_char s

abbrev pub has_unsafe_segment : List String → Bool
has_unsafe_segment [] = false
has_unsafe_segment (s ∷ ss) = any (str_eq s) unsafe_segments || has_unsafe_segment ss

-- A path that does not begin with "/", or that has such a character or segment behind it.
abbrev pub is_refused : String → Bool
is_refused String.[] = true
is_refused (String.◌∷◌ c s) =
    not (code c == 0x2f) || has_unsafe_char s || has_unsafe_segment (segments s)

listed_char :
    (c : ℕ) (ks : List ℕ)
    → all is_unsafe_char ks ≡ true
    → any (λ k. c == k) ks ≡ true
    → is_unsafe_char c ≡ true
listed_char c [] h k = absurd (ground (arith, k))
listed_char c (x ∷ xs) h k = elim (Bool-cases (c == x)) [
  | inl e ↦ ap is_unsafe_char ((==_iff c x).0 e) ∙ ground (arith, h)
  | inr e ↦ listed_char c xs (ground (arith, h)) (sym (rw e refl) ∙ k)
]

listed_segment :
    (s : String) (ss : List String)
    → all is_unsafe_segment ss ≡ true
    → any (str_eq s) ss ≡ true
    → is_unsafe_segment s ≡ true
listed_segment s [] h k = absurd (ground (arith, k))
listed_segment s (x ∷ xs) h k = elim (Bool-cases (str_eq s x)) [
  | inl e ↦ ap is_unsafe_segment ((eq_iff s x).0 e) ∙ ground (arith, h)
  | inr e ↦ listed_segment s xs (ground (arith, h)) (sym (rw e refl) ∙ k)
]

all_unsafe : all is_unsafe_segment unsafe_segments ≡ true
unfolding is_dot_segment after_prefix
all_unsafe = refl

has_unsafe_char-all_chars :
    (s : String) → has_unsafe_char s ≡ true → all_chars (λ c. not (is_unsafe_char c)) s ≡ false
unfolding all_chars
has_unsafe_char-all_chars String.[] h = absurd (ground (arith, h))
has_unsafe_char-all_chars (String.◌∷◌ c s) h =
    elim (Bool-cases (any (λ k. code c == k) unsafe_codes)) [
      | inl e ↦
          ap (λ b. not b && all_chars (λ c. not (is_unsafe_char c)) s)
            (listed_char (code c) unsafe_codes refl e)
      | inr e ↦
          ap (λ b. not (is_unsafe_char (code c)) && b)
            (has_unsafe_char-all_chars s (sym (rw e refl) ∙ h))
          ∙ never (not (is_unsafe_char (code c)))
    ]
  where
    never : (b : Bool) → (b && false) ≡ false
    never true = refl
    never false = refl

has_unsafe_segment-any :
    (ss : List String) → has_unsafe_segment ss ≡ true → any is_unsafe_segment ss ≡ true
has_unsafe_segment-any [] h = h
has_unsafe_segment-any (s ∷ ss) h = elim (Bool-cases (any (str_eq s) unsafe_segments)) [
  | inl e ↦ ap (λ b. b || any is_unsafe_segment ss) (listed_segment s unsafe_segments all_unsafe e)
  | inr e ↦ ground (arith, has_unsafe_segment-any ss (sym (rw e refl) ∙ h))
]

refused-key_of :
    (s : String)
    → (has_unsafe_char s || has_unsafe_segment (segments s)) ≡ true
    → key_of (some s) "" ≡ none
refused-key_of s h = elim (Bool-cases (has_unsafe_char s)) [
  | inl e ↦ rw (has_unsafe_char-all_chars s e) refl
  | inr e ↦
      if_rule (λ o. o ≡ none) (not (all_chars (λ c. not (is_unsafe_char c)) s)) none _ (λ _. refl)
        λ _. rw (has_unsafe_segment-any (segments s) (sym (rw e refl) ∙ h)) refl
]

-- A refused path has no key.
pub is_refused-none :
    (pathname : String) → is_refused pathname ≡ true → artifact_key pathname "" ≡ none
unfolding artifact_key after_prefix
is_refused-none String.[] h = refl
is_refused-none (String.◌∷◌ c s) h = elim (Bool-cases (code c == 0x2f)) [
  | inl e ↦ rw e (refused-key_of s (sym (rw e refl) ∙ h))
  | inr e ↦ rw e refl
]
