-- ===== src/Manifest/Record.antt =====
-- `recordDigest` and `toolchainRecordOf` of pipeline/release/release-manifest.mjs. Node's SHA-256 and
-- `JSON.stringify` are a parameter. A record keeps the fields that the manifest reads.
use Prim.Native.String.{String, ◌++◌ as str_append}
use text.Mathlib.Text.{◌==◌ as str_eq}
use qed.Common.{Bool, true, false, not, ◌&&◌, ◌||◌, Option, some, List, [], ◌∷◌, if◌then◌else◌}
use qed.Common.Lists.{any}
use qed.Common.Json.{Json, Fields, str, arr, obj, end, field, get, get_in, to_list, is_text}
use qed.Edge.Keys.{starts_with, ends_with}
use qed.Manifest.Checked.{Checked, ok, refused, ◌>>=◌, ◌>>◌, demand}
use qed.Manifest.Shapes.{
  hex_exactly, tests_digest, is_build_id, is_release_id, is_patch_id, is_safe_from, repo_slug,
  text_test, is_nonempty,
}

-- `sha256Hex` of a text, and `JSON.stringify` with two spaces and without.
pub record Node : Type 0 where
  pub sha256 : String → String
  pub pretty : Json → String
  pub compact : Json → String

pub record RecordPack : Type 0 where
  pub id : String
  pub raw : Option Json
  pub release : Option Json
  pub manifest : Option Json

pub record RecordFile : Type 0 where
  pub path : String
  pub sha : Option Json
  pub bytes : Option Json

pub record Toolchain : Type 0 where
  pub id : String
  pub digest : String
  pub commit : String
  pub patch : String
  pub build_id : String
  pub packs : List RecordPack
  pub site_owned : List String
  pub files : List RecordFile

-- An object without one field.
abbrev pub without_field : String → Fields → Fields
without_field k end = end
without_field k (field j v fs) =
    let rest = without_field k fs in if str_eq j k then rest else field j v rest

abbrev pub without_digest : Json → Json
without_digest (obj fs) = obj (without_field "digest" fs)
without_digest other = other

unfoldable pub record_digest : Node → Json → String
record_digest node r = str_append "sha256:" (node.sha256 (node.pretty (without_digest r)))

abbrev pub text_or_refuse : String → Option Json → Checked String
text_or_refuse why (some (str s)) = ok s
text_or_refuse why _ = refused why

-- The text of a value that passes a test.
abbrev pub tested : String → (String → Bool) → Option Json → Checked String
tested why test v = do s ← text_or_refuse why v; demand (test s) why; ok s

-- One pack, with the ids so far.
abbrev pub record_pack : List String → Json → Checked RecordPack
record_pack seen p = do
  id ← tested "packs[].id" (λ s. is_nonempty s && not (any (str_eq s) seen)) (get "id" p)
  demand (tests_digest (get "rawSha256" p)) "packs rawSha256"
  ok (record {
    id = id;
    raw = get "rawSha256" p;
    release = get "release" p;
    manifest = get "manifest" p;
  })

abbrev pub record_packs : List String → List Json → Checked (List RecordPack)
record_packs seen [] = ok []
record_packs seen (p ∷ ps) = do
  pack ← record_pack seen p
  rest ← record_packs (pack.id ∷ seen) ps
  ok (pack ∷ rest)

abbrev pub list_or_refuse : String → Option Json → Checked (List Json)
list_or_refuse why (some (arr xs)) = ok (to_list xs)
list_or_refuse why _ = refused why

-- `v.length > 0` of a list
abbrev pub is_filled : List Json → Bool
is_filled [] = false
is_filled (_ ∷ _) = true

-- Two entries, each of IDENTITY_MOUNTS.
abbrev pub is_identity : String → Json → Bool
is_identity k v =
    (str_eq k "/runtime/" && is_text (some v) "runtime/")
    || (str_eq k "/profiles/" && is_text (some v) "profiles/")

abbrev pub identity_mounts : Option Json → Bool
identity_mounts (some (obj (field k v (field l w end)))) = is_identity k v && is_identity l w
identity_mounts _ = false

abbrev pub site_paths : List Json → Checked (List String)
site_paths [] = ok []
site_paths (e ∷ es) = do
  s ← tested "hosting.siteOwned" (starts_with "/") (some e)
  rest ← site_paths es
  ok (s ∷ rest)

abbrev pub record_file : Json → Checked RecordFile
record_file f = do
  path ← text_or_refuse "files" (get "path" f)
  demand (tests_digest (get "sha256" f) && is_safe_from 0 (get "bytes" f)) "files"
  ok (record { path = path; sha = get "sha256" f; bytes = get "bytes" f })

abbrev pub record_files : List Json → Checked (List RecordFile)
record_files [] = ok []
record_files (f ∷ fs) = do file ← record_file f; rest ← record_files fs; ok (file ∷ rest)

-- The tools' three texts.
abbrev pub has_tools : Option Json → Bool
has_tools tools =
    text_test is_nonempty (get_in tools "package")
    && text_test is_nonempty (get_in tools "version")
    && text_test is_nonempty (get_in tools "tgz")

abbrev pub is_kernel : Option Json → Bool
is_kernel kernel =
    text_test (λ repo. str_eq (repo_slug repo) "FawadHa1der/lean4") (get_in kernel "repo")
    && is_text (get_in kernel "branch") "qed64-wasm64"

unfoldable pub toolchain_record : Node → Json → Checked Toolchain
toolchain_record node r = do
  demand (is_text (get "schema" r) "lean4-wasm64.release/v1") "schema"
  demand (is_text (get "digest" r) (record_digest node r)) "digest"
  id ← tested "id" is_release_id (get "id" r)
  let kernel = get "kernel" r
  commit ← tested "kernel.commit" (hex_exactly 40) (get_in kernel "commit")
  patch ← tested "kernel.patch" is_patch_id (get_in kernel "patch")
  demand (is_kernel kernel) "kernel"
  build_id ← tested "runtime.buildId" is_build_id (get_in (get "runtime" r) "buildId")
  packs ← list_or_refuse "packs" (get "packs" r)
  demand (is_filled packs) "packs"
  record_packs ← record_packs [] packs
  demand (has_tools (get "tools" r)) "tools"
  let hosting = get "hosting" r
  demand (is_text (get_in hosting "layout") "served") "hosting.layout"
  demand (identity_mounts (get_in hosting "mount")) "hosting.mount"
  owned ← list_or_refuse "hosting.siteOwned" (get_in hosting "siteOwned")
  site_owned ← site_paths owned
  listed ← list_or_refuse "files" (get "files" r)
  files ← record_files listed
  ok (record {
    id = id;
    digest = record_digest node r;
    commit = commit;
    patch = patch;
    build_id = build_id;
    packs = record_packs;
    site_owned = site_owned;
    files = files;
  })

-- `siteOwned` and `toolchainHosted`
abbrev pub owns : String → String → Bool
owns p e = if ends_with "/" e then starts_with e (str_append "/" p) else str_eq (str_append "/" p) e

abbrev pub is_site_owned : Toolchain → String → Bool
is_site_owned t p = any (owns p) t.site_owned

unfoldable pub is_toolchain_hosted : Toolchain → String → Bool
is_toolchain_hosted t p =
    (starts_with "runtime/" p || starts_with "profiles/" p) && not (is_site_owned t p)
