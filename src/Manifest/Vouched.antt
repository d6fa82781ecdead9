-- ===== src/Manifest/Vouched.antt =====
-- The hosting rule of pipeline/release/release-manifest.mjs over a list of files.
use Prim.Native.String.{String}
use text.Mathlib.Text.{◌==◌ as str_eq}
use qed.Common.{
  ◌≡◌, refl, sym, ap, ◌∙◌, Bool, true, false, not, ◌&&◌, ◌||◌, Option, none, some, List, [], ◌∷◌,
  if◌then◌else◌, Bool-cases, Option-cases, ◌≢◌, inl, inr,
}
use qed.Common.Lists.{any, all}
use qed.Coalescer.Frames.{same_value}
use qed.Manifest.Checked.{Checked, ok, bind_parts}
use qed.Manifest.Record.{RecordFile, Toolchain, is_toolchain_hosted}
use qed.Manifest.Runtime.{Listed}
use qed.Manifest.Indexes.{is_count}
use qed.Manifest.Build.{or_this, last_file, vouched, hosted_here, all_hosted}
use qed.Manifest.Backed.{both, or_left, or_right, demand_held}

-- A file that the hosting rule takes from the toolchain's release is one of the record's, with its
-- digest and its size.
abbrev pub is_vouched : Toolchain → Listed → Bool
is_vouched t l =
    not (is_toolchain_hosted t l.path)
    || any (λ f. str_eq f.path l.path && (same_value f.sha l.sha && is_count f.bytes l.bytes))
        t.files

abbrev pub file_or : RecordFile → Option RecordFile → RecordFile
file_or d none = d
file_or d (some f) = f

pub none-some : {f : RecordFile} → none ≢ some f
none-some h = cc

abbrev pub guarded : Toolchain → Listed → Bool → Checked (Unit {0})
guarded t l b = if b then vouched (last_file l.path t.files) l else ok tt

-- The file that is found for a path is one of the files, and has the path.
pub last_file-any :
    (p : RecordFile → Bool) (path : String) (fs : List RecordFile) (g : RecordFile)
    → last_file path fs ≡ some g
    → p g ≡ true
    → any (λ f. str_eq f.path path && p f) fs ≡ true
last_file-any p path [] g h k = cc
last_file-any p path (f ∷ fs) g h k = elim (Option-cases (last_file path fs)) [
  | inr later ↦
      or_right (str_eq f.path path && p f) _
        (last_file-any p path fs g (later.1 ∙ sym (ap (or_this path f) later.1) ∙ h) k)
  | inl last ↦ or_left (str_eq f.path path && p f) _ (this (sym (ap (or_this path f) last) ∙ h))
]
  where
    found :
        str_eq f.path path ≡ true → (if str_eq f.path path then some f else none) ≡ some g → f ≡ g
    found c e = ap (file_or f) (sym (ap (λ b. if b then some f else none) c) ∙ e)

    missing : str_eq f.path path ≡ false → (if str_eq f.path path then some f else none) ≢ some g
    missing c e = none-some (sym (ap (λ b. if b then some f else none) c) ∙ e)

    this :
        (if str_eq f.path path then some f else none) ≡ some g → (str_eq f.path path && p f) ≡ true
    this e = elim (Bool-cases (str_eq f.path path)) [
      | inl c ↦ both (str_eq f.path path) (p f) c (ap p (found c e) ∙ k)
      | inr c ↦ absurd (missing c e)
    ]

pub vouched-any :
    (fs : List RecordFile) (l : Listed) (r : Option RecordFile)
    → last_file l.path fs ≡ r
    → vouched r l ≡ ok tt
    → any (λ f. str_eq f.path l.path && (same_value f.sha l.sha && is_count f.bytes l.bytes)) fs
      ≡ true
vouched-any fs l none e h = cc
vouched-any fs l (some g) e h =
    last_file-any (λ f. same_value f.sha l.sha && is_count f.bytes l.bytes) l.path fs g e
      (demand_held _ "the served tree and the record disagree" h)

pub all_hosted-is_vouched :
    (t : Toolchain) (ls : List Listed) → all_hosted t ls ≡ ok tt → all (is_vouched t) ls ≡ true
all_hosted-is_vouched t [] h = refl
all_hosted-is_vouched t (l ∷ ls) h =
    let first = bind_parts (hosted_here t l) _ h in
    both (is_vouched t l) (all (is_vouched t) ls) (one first.1) (all_hosted-is_vouched t ls first.2)
  where
    one : hosted_here t l ≡ ok tt → is_vouched t l ≡ true
    one e = elim (Bool-cases (is_toolchain_hosted t l.path)) [
      | inl c ↦
          or_right (not (is_toolchain_hosted t l.path)) _
            (vouched-any t.files l (last_file l.path t.files) refl (sym (ap (guarded t l) c) ∙ e))
      | inr c ↦ or_left (not (is_toolchain_hosted t l.path)) _ (ap not c)
    ]
