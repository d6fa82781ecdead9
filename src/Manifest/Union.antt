-- ===== src/Manifest/Union.antt =====
-- The umbrella files of a base tree that pipeline/release/release-manifest.mjs lets through.
use Prim.Native.String.{String}
use text.Mathlib.Text.{◌==◌ as str_eq}
use text.Mathlib.TextEquality.{eq_iff}
use text.Mathlib.TextPositions.{eq_refl}
use qed.Common.{
  ◌≡◌, refl, sym, ap, subst, ◌∙◌, true, false, ◌&&◌, some, List, [], ◌∷◌, if◌then◌else◌, Bool-cases,
  inl, inr, arith,
}
use qed.Manifest.Checked.{ok, refused, ◌>>=◌, bind_parts}
use qed.Manifest.Tree.{Umbrella, text_leb}
use qed.Manifest.Paired.{same_text, same_number, add_file, add_files, insert_file, sort_files}
use qed.Manifest.Vetted.{ok-injective}
use qed.Manifest.Same.{
  Content, content_at, same_text-eq, same_number-eq, text_leb_refl, true-false, refused-ok,
  some_injective, apart, if_swap, if_same,
}

-- Sorting moves no content.
insert_file-content_at :
    (path : String) (u : Umbrella) (us : List Umbrella)
    → content_at path (insert_file u us)
      ≡ (if str_eq u.path path then some (u.sha, u.bytes) else content_at path us)
insert_file-content_at path u [] = refl
insert_file-content_at path u (x ∷ xs) = elim (Bool-cases (text_leb u.path x.path)) [
  | inl c ↦ rw c refl
  | inr c ↦ rw c (elim (Bool-cases (str_eq x.path path)) [
    | inl d ↦ rw (d, not_both c d) refl
    | inr d ↦ rw d (insert_file-content_at path u xs)
  ])
]
  where
    not_both :
        text_leb u.path x.path ≡ false → str_eq x.path path ≡ true → str_eq u.path path ≡ false
    not_both c d = elim (Bool-cases (str_eq u.path path)) [
      | inl e ↦ absurd (
          true-false (
            sym (
              subst (λ p. text_leb u.path p ≡ true)
                ((eq_iff u.path path).0 e ∙ sym ((eq_iff x.path path).0 d)) (text_leb_refl u.path))
            ∙ c))
      | inr e ↦ e
    ]

sort_files-content_at :
    (path : String) (us : List Umbrella) → content_at path (sort_files us) ≡ content_at path us
sort_files-content_at path [] = refl
sort_files-content_at path (u ∷ us) =
    insert_file-content_at path u (sort_files us)
    ∙ ap (λ c. if str_eq u.path path then some (u.sha, u.bytes) else c)
        (sort_files-content_at path us)

-- A file that is added where its path is, and one that is added behind.
add_file_found :
    (u x : Umbrella) (xs vs : List Umbrella)
    → str_eq x.path u.path ≡ true
    → add_file u (x ∷ xs) ≡ ok vs
    → ((same_text x.sha u.sha && same_number x.bytes u.bytes) ≡ true) × (u ∷ xs ≡ vs)
add_file_found u x xs vs c h =
    elim (Bool-cases (same_text x.sha u.sha && same_number x.bytes u.bytes)) [
      | inl d ↦ (d, ok-injective (u ∷ xs) vs (sym (added d) ∙ h))
      | inr d ↦ absurd (refused-ok (sym (not_added d) ∙ h))
    ]
  where
    added :
        (same_text x.sha u.sha && same_number x.bytes u.bytes) ≡ true
        → add_file u (x ∷ xs) ≡ ok (u ∷ xs)
    added d = rw (c, d) refl

    not_added :
        (same_text x.sha u.sha && same_number x.bytes u.bytes) ≡ false
        → add_file u (x ∷ xs) ≡ refused "two contents"
    not_added d = rw (c, d) refl

add_file_behind :
    (u x : Umbrella) (xs vs : List Umbrella)
    → str_eq x.path u.path ≡ false
    → add_file u (x ∷ xs) ≡ ok vs
    → (ws : List Umbrella) × (add_file u xs ≡ ok ws) × (x ∷ ws ≡ vs)
add_file_behind u x xs vs c h =
    let rest = bind_parts (add_file u xs) (λ us. ok (x ∷ us)) (sym passed ∙ h) in
    (rest.0, rest.1, ok-injective (x ∷ rest.0) vs rest.2)
  where
    passed : add_file u (x ∷ xs) ≡ (add_file u xs >>= λ us. ok (x ∷ us))
    passed = rw c refl

-- A file that is added is there, and so is what was there.
add_file-content_at :
    (u : Umbrella) (us vs : List Umbrella) (path : String)
    → add_file u us ≡ ok vs
    → content_at path vs
      ≡ (if str_eq u.path path then some (u.sha, u.bytes) else content_at path us)
add_file-content_at u [] vs path h = ap (content_at path) (sym (ok-injective (u ∷ []) vs h))
add_file-content_at u (x ∷ xs) vs path h = elim (Bool-cases (str_eq x.path u.path)) [
  | inl c ↦
      ap (content_at path) (sym (add_file_found u x xs vs c h).1)
      ∙ if_same (str_eq x.path path) (str_eq u.path path) (some (x.sha, x.bytes))
          (some (u.sha, u.bytes)) (content_at path xs)
          (ap (λ p. str_eq p path) ((eq_iff x.path u.path).0 c))
  | inr c ↦
      let rest = add_file_behind u x xs vs c h in
      ap (content_at path) (sym rest.2)
      ∙ ap (λ k. if str_eq x.path path then some (x.sha, x.bytes) else k)
          (add_file-content_at u xs rest.0 path rest.1)
      ∙ if_swap (str_eq x.path path) (str_eq u.path path) (some (x.sha, x.bytes))
          (some (u.sha, u.bytes)) (content_at path xs) (apart x.path u.path path c)
]

-- A file that is added is not there with another content.
add_file-same :
    (u : Umbrella) (us vs : List Umbrella) (c : Content)
    → add_file u us ≡ ok vs
    → content_at u.path us ≡ some c
    → c ≡ (u.sha, u.bytes)
add_file-same u [] vs c h k = cc
add_file-same u (x ∷ xs) vs c h k = elim (Bool-cases (str_eq x.path u.path)) [
  | inl e ↦
      let same = (add_file_found u x xs vs e h).0 in
      some_injective (sym k ∙ rw e refl)
      ∙ ap (λ a. (a, x.bytes)) (same_text-eq x.sha u.sha (ground (arith, same)))
      ∙ ap (λ b. (u.sha, b)) (same_number-eq x.bytes u.bytes (ground (arith, same)))
  | inr e ↦
      let rest = add_file_behind u x xs vs e h in
      add_file-same u xs rest.0 c rest.1 (sym (not_here e) ∙ k)
]
  where
    not_here : str_eq x.path u.path ≡ false → content_at u.path (x ∷ xs) ≡ content_at u.path xs
    not_here e = rw e refl

-- What is in the union stays there.
add_files-keeps :
    (us union vs : List Umbrella) (path : String) (c : Content)
    → add_files us union ≡ ok vs
    → content_at path union ≡ some c
    → content_at path vs ≡ some c
add_files-keeps [] union vs path c h k = ap (content_at path) (sym (ok-injective union vs h)) ∙ k
add_files-keeps (u ∷ us) union vs path c h k =
    let first = bind_parts (add_file u union) (add_files us) h in
    add_files-keeps us first.0 vs path c first.2
      (add_file-content_at u union first.0 path first.1 ∙ kept first.0 first.1)
  where
    kept :
        (ws : List Umbrella)
        → add_file u union ≡ ok ws
        → (if str_eq u.path path then some (u.sha, u.bytes) else content_at path union) ≡ some c
    kept ws e = elim (Bool-cases (str_eq u.path path)) [
      | inl d ↦ rw d (
          ap some (
            sym (
              add_file-same u union ws c e
                (ap (λ p. content_at p union) ((eq_iff u.path path).0 d) ∙ k))))
      | inr d ↦ rw d k
    ]

-- Each file of a list has its content in the union.
abbrev pub AllListed : List Umbrella → List Umbrella → Type 0
AllListed [] union = Unit
AllListed (u ∷ us) union = (content_at u.path union ≡ some (u.sha, u.bytes)) × AllListed us union

pub add_files-AllListed :
    (us union vs : List Umbrella) → add_files us union ≡ ok vs → AllListed us vs
add_files-AllListed [] union vs h = tt
add_files-AllListed (u ∷ us) union vs h =
    let first = bind_parts (add_file u union) (add_files us) h in
    (
      add_files-keeps us first.0 vs u.path (u.sha, u.bytes) first.2
          (add_file-content_at u union first.0 u.path first.1
            ∙ ap (λ b. if b then some (u.sha, u.bytes) else content_at u.path union)
                (eq_refl u.path)),
      add_files-AllListed us first.0 vs first.2,
    )

pub sorted-AllListed : (us vs : List Umbrella) → AllListed us vs → AllListed us (sort_files vs)
sorted-AllListed [] vs h = tt
sorted-AllListed (u ∷ us) vs h = (sort_files-content_at u.path vs ∙ h.0, sorted-AllListed us vs h.1)
