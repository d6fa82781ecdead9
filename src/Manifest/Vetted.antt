-- ===== src/Manifest/Vetted.antt =====
-- What a toolchain record has that pipeline/release/release-manifest.mjs lets through.
use Prim.Native.String.{String, ◌++◌ as str_append}
use text.Mathlib.Text.{◌==◌ as str_eq}
use text.Mathlib.TextEquality.{eq_iff}
use text.Mathlib.TextPositions.{eq_refl}
use qed.Common.{
  ◌≡◌, refl, sym, ap, subst, ◌∙◌, Bool, true, false, not, ◌&&◌, Option, none, some, List, [], ◌∷◌,
  arith, if◌then◌else◌, Bool-cases, inl, inr,
}
use qed.Common.Lists.{any, all}
use qed.Common.Json.{
  Fields, end, field, lookup, Json, str, arr, null, bool, num, obj, get, get_in, is_text,
}
use qed.Edge.Keys.{starts_with}
use qed.Manifest.Checked.{Checked, ok, refused, bind_parts, demand_parts}
use qed.Manifest.Shapes.{
  hex_exactly, tests_digest, is_build_id, is_release_id, is_patch_id, is_safe_from, is_nonempty,
}
use qed.Manifest.Record.{
  Node, RecordPack, RecordFile, Toolchain, record_digest, without_field, without_digest,
  text_or_refuse, tested, record_pack, record_packs, list_or_refuse, site_paths, record_file,
  record_files, toolchain_record,
}

abbrev ok_value {ℓ} : {A : Type ℓ} → A → Checked A → A
ok_value d (ok x) = x
ok_value d (refused why) = d

pub ok-injective {ℓ} : {A : Type ℓ} (a b : A) → ok a ≡ ok b → a ≡ b
ok-injective a b h = ap (ok_value a) h

pub text_or_refuse-eq-ok :
    (why : String) (v : Option Json) (s : String) → text_or_refuse why v ≡ ok s → v ≡ some (str s)
text_or_refuse-eq-ok why (some (str t)) s h = ap (λ x. some (str x)) (ok-injective t s h)
text_or_refuse-eq-ok why none s h = cc
text_or_refuse-eq-ok why (some null) s h = cc
text_or_refuse-eq-ok why (some (bool _)) s h = cc
text_or_refuse-eq-ok why (some (num _)) s h = cc
text_or_refuse-eq-ok why (some (arr _)) s h = cc
text_or_refuse-eq-ok why (some (obj _)) s h = cc

-- A tested value is a text that passes.
pub tested-eq-ok :
    (why : String) (test : String → Bool) (v : Option Json) (s : String)
    → tested why test v ≡ ok s
    → (v ≡ some (str s)) × (test s ≡ true)
tested-eq-ok why test v s h =
    let text = bind_parts (text_or_refuse why v) _ h in
    let passed = demand_parts (test text.0) why (ok text.0) text.2 in
    let same = ok-injective text.0 s passed.1 in
    (text_or_refuse-eq-ok why v s (text.1 ∙ passed.1), subst (λ x. test x ≡ true) same passed.0)

-- Ids that are not empty and not there before, and digests.
abbrev pub are_vetted : List String → List RecordPack → Bool
are_vetted seen [] = true
are_vetted seen (p ∷ ps) =
    is_nonempty p.id
    && not (any (str_eq p.id) seen)
    && tests_digest p.raw
    && are_vetted (p.id ∷ seen) ps

record_pack-eq-ok :
    (seen : List String) (j : Json) (p : RecordPack)
    → record_pack seen j ≡ ok p
    → (is_nonempty p.id && not (any (str_eq p.id) seen) && tests_digest p.raw) ≡ true
record_pack-eq-ok seen j p h =
    let test = λ (s : String). is_nonempty s && not (any (str_eq s) seen) in
    let id = bind_parts (tested "packs[].id" test (get "id" j)) _ h in
    let passed = tested-eq-ok "packs[].id" test (get "id" j) id.0 id.1 in
    let rest = demand_parts (tests_digest (get "rawSha256" j)) "packs rawSha256" _ id.2 in
    subst
      (λ (q : RecordPack).
        (is_nonempty q.id && not (any (str_eq q.id) seen) && tests_digest q.raw) ≡ true)
      (ok-injective _ p rest.1) (and_true _ _ passed.1 rest.0)
  where
    and_true : (a b : Bool) → a ≡ true → b ≡ true → (a && b) ≡ true
    and_true a b h k = ground (arith, h, k)

record_packs-are_vetted :
    (seen : List String) (js : List Json) (ps : List RecordPack)
    → record_packs seen js ≡ ok ps
    → are_vetted seen ps ≡ true
record_packs-are_vetted seen [] ps h = ap (are_vetted seen) (sym (ok-injective [] ps h))
record_packs-are_vetted seen (j ∷ js) ps h =
    let first = bind_parts (record_pack seen j) _ h in
    let others = bind_parts (record_packs (first.0.id ∷ seen) js) _ first.2 in
    subst (λ qs. are_vetted seen qs ≡ true) (ok-injective (first.0 ∷ others.0) ps others.2)
      (ground (
        arith,
        record_pack-eq-ok seen j first.0 first.1,
        record_packs-are_vetted (first.0.id ∷ seen) js others.0 others.1,
      ))

site_paths-all :
    (js : List Json) (paths : List String)
    → site_paths js ≡ ok paths
    → all (starts_with "/") paths ≡ true
site_paths-all [] paths h = ap (all (starts_with "/")) (sym (ok-injective [] paths h))
site_paths-all (j ∷ js) paths h =
    let first = bind_parts (tested "hosting.siteOwned" (starts_with "/") (some j)) _ h in
    let others = bind_parts (site_paths js) _ first.2 in
    subst (λ ps. all (starts_with "/") ps ≡ true) (ok-injective (first.0 ∷ others.0) paths others.2)
      (both _ _ (tested-eq-ok "hosting.siteOwned" (starts_with "/") (some j) first.0 first.1).1
        (site_paths-all js others.0 others.1))
  where
    both : (a b : Bool) → a ≡ true → b ≡ true → (a && b) ≡ true
    both a b h k = ground (arith, h, k)

abbrev pub file_measured : RecordFile → Bool
file_measured f = tests_digest f.sha && is_safe_from 0 f.bytes

record_file-file_measured :
    (j : Json) (f : RecordFile) → record_file j ≡ ok f → file_measured f ≡ true
record_file-file_measured j f h =
    let path = bind_parts (text_or_refuse "files" (get "path" j)) _ h in
    let rest =
      demand_parts (tests_digest (get "sha256" j) && is_safe_from 0 (get "bytes" j)) "files" _
        path.2 in
    subst (λ f. file_measured f ≡ true) (ok-injective _ f rest.1) rest.0

record_files-file_measured :
    (js : List Json) (fs : List RecordFile) → record_files js ≡ ok fs → all file_measured fs ≡ true
record_files-file_measured [] fs h = ap (all file_measured) (sym (ok-injective [] fs h))
record_files-file_measured (j ∷ js) fs h =
    let first = bind_parts (record_file j) _ h in
    let others = bind_parts (record_files js) _ first.2 in
    subst (λ fs. all file_measured fs ≡ true) (ok-injective (first.0 ∷ others.0) fs others.2)
      (ground (
        arith,
        record_file-file_measured j first.0 first.1,
        record_files-file_measured js others.0 others.1,
      ))

-- A digest is that of the text of an object that has every field of the record but `digest`.
pub record CarriesDigest (node : Node) (r : Json) (digest : String) : Type 0 where
  pub content : Json
  pub hashed : digest ≡ str_append "sha256:" (node.sha256 (node.pretty content))
  pub fields : (k : String) → get k content ≡ (if str_eq k "digest" then none else get k r)

abbrev nothing : Option Json
nothing = none

never : (b : Bool) → nothing ≡ (if b then nothing else nothing)
never true = refl
never false = refl

eq_sym : (a b : String) → str_eq a b ≡ str_eq b a
eq_sym a b = elim (Bool-cases (str_eq a b)) [
  | inl e ↦ e ∙ sym (ap (λ x. str_eq b x) ((eq_iff a b).0 e) ∙ eq_refl b)
  | inr e ↦ elim (Bool-cases (str_eq b a)) [
    | inl h ↦ ap (λ x. str_eq a x) ((eq_iff b a).0 h) ∙ eq_refl a ∙ sym h
    | inr h ↦ e ∙ sym h
  ]
]

lookup-without_field :
    (k j : String) (fs : Fields)
    → lookup k (without_field j fs) ≡ (if str_eq k j then none else lookup k fs)
lookup-without_field k j end = never (str_eq k j)
lookup-without_field k j (field i v fs) = elim (Bool-cases (str_eq i j)) [
  | inl same ↦ rw same (
      let k_eq : str_eq i k ≡ str_eq k j = eq_sym i k ∙ ap (str_eq k) ((eq_iff i j).0 same) in
      rw k_eq (lookup-without_field k j fs ∙ twice (str_eq k j)))
  | inr other ↦ rw other (elim (Bool-cases (str_eq i k)) [
    | inl hit ↦ rw (hit, sym (ap (λ x. str_eq x j) ((eq_iff i k).0 hit)) ∙ other) refl
    | inr miss ↦ rw miss (lookup-without_field k j fs)
  ])
]
  where
    twice :
        (b : Bool)
        → (if b then none else lookup k fs)
          ≡ (if b then none else (if b then some v else lookup k fs))
    twice true = refl
    twice false = refl

get-without_digest :
    (k : String) (r : Json)
    → get k (without_digest r) ≡ (if str_eq k "digest" then none else get k r)
get-without_digest k (obj fs) = lookup-without_field k "digest" fs
get-without_digest k null = never (str_eq k "digest")
get-without_digest k (bool _) = never (str_eq k "digest")
get-without_digest k (num _) = never (str_eq k "digest")
get-without_digest k (str _) = never (str_eq k "digest")
get-without_digest k (arr _) = never (str_eq k "digest")

record_digest-CarriesDigest : (node : Node) (r : Json) → CarriesDigest node r (record_digest node r)
unfolding record_digest
record_digest-CarriesDigest node r = record {
  content = without_digest r;
  hashed = refl;
  fields = λ k. get-without_digest k r;
}

-- The shape of a record that is let through, and the digest of what it was read from.
abbrev pub IsVetted : Node → Json → Toolchain → Type 0
IsVetted node r t =
    CarriesDigest node r t.digest
    × (is_text (get "digest" r) t.digest ≡ true)
    × (is_release_id t.id ≡ true)
    × (hex_exactly 40 t.commit ≡ true)
    × (is_patch_id t.patch ≡ true)
    × (is_build_id t.build_id ≡ true)
    × (are_vetted [] t.packs ≡ true)
    × (all (starts_with "/") t.site_owned ≡ true)
    × (all file_measured t.files ≡ true)

-- A record that is let through carries the digest of an object that has every field of it but `digest`,
-- and its fields have their shapes: the release id, the kernel's commit and patch, the runtime's build
-- id, pack ids that are all different, digests of 64 hexadecimal digits (as JavaScript reads them: a
-- list of one digest passes as that digest), site paths that begin with "/", and files with sizes.
pub toolchain_record-IsVetted :
    (node : Node) (r : Json) (t : Toolchain) → toolchain_record node r ≡ ok t → IsVetted node r t
unfolding toolchain_record
toolchain_record-IsVetted node r t h =
    let schema = demand_parts (is_text (get "schema" r) "lean4-wasm64.release/v1") "schema" _ h in
    let digest =
      demand_parts (is_text (get "digest" r) (record_digest node r)) "digest" _ schema.1 in
    let id = bind_parts (tested "id" is_release_id (get "id" r)) _ digest.1 in
    let commit =
      bind_parts (tested "kernel.commit" (hex_exactly 40) (get_in (get "kernel" r) "commit")) _
        id.2 in
    let patch =
      bind_parts (tested "kernel.patch" is_patch_id (get_in (get "kernel" r) "patch")) _ commit.2 in
    let kernel = demand_parts _ "kernel" _ patch.2 in
    let build =
      bind_parts (tested "runtime.buildId" is_build_id (get_in (get "runtime" r) "buildId")) _
        kernel.1 in
    let listed = bind_parts (list_or_refuse "packs" (get "packs" r)) _ build.2 in
    let filled = demand_parts _ "packs" _ listed.2 in
    let packs = bind_parts (record_packs [] listed.0) _ filled.1 in
    let tools = demand_parts _ "tools" _ packs.2 in
    let layout = demand_parts _ "hosting.layout" _ tools.1 in
    let mount = demand_parts _ "hosting.mount" _ layout.1 in
    let owned =
      bind_parts (list_or_refuse "hosting.siteOwned" (get_in (get "hosting" r) "siteOwned")) _
        mount.1 in
    let sites = bind_parts (site_paths owned.0) _ owned.2 in
    let entries = bind_parts (list_or_refuse "files" (get "files" r)) _ sites.2 in
    let files = bind_parts (record_files entries.0) _ entries.2 in
    subst (IsVetted node r) (ok-injective _ t files.2) (
      record_digest-CarriesDigest node r,
      digest.0,
      (tested-eq-ok "id" is_release_id (get "id" r) id.0 id.1).1,
      (tested-eq-ok "kernel.commit" (hex_exactly 40) (get_in (get "kernel" r) "commit") commit.0
          commit.1).1,
      (tested-eq-ok "kernel.patch" is_patch_id (get_in (get "kernel" r) "patch") patch.0 patch.1).1,
      (tested-eq-ok "runtime.buildId" is_build_id (get_in (get "runtime" r) "buildId") build.0
          build.1).1,
      record_packs-are_vetted [] listed.0 packs.0 packs.1,
      site_paths-all owned.0 sites.0 sites.1,
      record_files-file_measured entries.0 files.0 files.1,
    )
