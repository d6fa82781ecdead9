-- ===== src/Manifest/Indexes.antt =====
-- The snapshots and the profiles of `buildReleaseManifest` in pipeline/release/release-manifest.mjs.
-- A source reads a repository path; its text, `JSON.parse` and the length in bytes are parameters.
use Prim.Native.String.{String, ◌++◌ as str_append}
use text.Mathlib.Text.{◌==◌ as str_eq}
use qed.Common.{ℕ, suc, Bool, false, not, ◌&&◌, Option, none, some, List, [], ◌∷◌, ◌==◌}
use qed.Common.Lists.{any, length}
use qed.Common.Int.{pos, eqb_ℤ}
use qed.Common.Json.{Json, Fields, str, num, arr, obj, end, field, get, get_in, to_list, is_text}
use qed.Coalescer.Frames.{same_value}
use qed.FrontDoor.Words.{utf16_length}
use qed.Manifest.Checked.{Checked, ok, refused, ◌>>=◌, ◌>>◌, demand}
use qed.Manifest.Shapes.{strip, is_nonempty}
use qed.Manifest.Record.{Node, text_or_refuse, tested, list_or_refuse, is_filled}
use qed.Manifest.Tree.{stripped}
use qed.Manifest.Runtime.{Listed, served_path, is_content_addressed, sized, sum_of}

pub record Source : Type 0 where
  pub read : String → Option String
  pub parse : String → Option Json
  pub byte_length : String → ℕ

pub record Snapshot : Type 0 where
  pub name : String
  pub path : String
  pub sha : String
  pub transfer : ℕ
  pub bytes : ℕ
  pub imports : List String
  pub runtime : String

-- `manifest` is the path of the pack's manifest, `text` what is there.
pub record Profile : Type 0 where
  pub id : String
  pub release : Option Json
  pub modules : ℕ
  pub manifest : String
  pub text : String
  pub content_digest : String
  pub git_revision : Option Json
  pub pack_sha : String
  pub pack_bytes : ℕ
  pub transport_sha : String
  pub transport_bytes : ℕ
  pub parts : List Listed

abbrev pub texts_of : List Json → Checked (List String)
texts_of [] = ok []
texts_of (j ∷ js) = do s ← text_or_refuse "imports" (some j); rest ← texts_of js; ok (s ∷ rest)

abbrev pub snapshot : String → List String → Json → Checked Snapshot
snapshot build_id seen e = do
  name ← tested "snapshot name" (λ s. is_nonempty s && not (any (str_eq s) seen)) (get "name" e)
  p ← served_path "snapshot" "snapshots" (get "url" e)
  sha ← stripped "snapshot digest" (strip (get "digest" e))
  demand (is_content_addressed p (some (str sha))) "snapshot is not content-addressed"
  transfer ← sized "transfer" (get "transfer" e)
  bytes ← sized "bytes" (get "bytes" e)
  listed ← list_or_refuse "imports" (get "imports" e)
  imports ← texts_of listed
  demand (is_text (get "runtime" e) build_id) "snapshot of another runtime"
  ok (record {
    name = name;
    path = p;
    sha = sha;
    transfer = transfer;
    bytes = bytes;
    imports = imports;
    runtime = build_id;
  })

abbrev pub snapshots_of : String → List String → List Json → Checked (List Snapshot)
snapshots_of build_id seen [] = ok []
snapshots_of build_id seen (e ∷ es) = do
  first ← snapshot build_id seen e
  rest ← snapshots_of build_id (first.name ∷ seen) es
  ok (first ∷ rest)

unfoldable pub snapshot_section : String → Json → Checked (List Snapshot)
snapshot_section build_id si = do
  demand (is_text (get "schema" si) "qed64.snapshot-index/v1") "snapshot schema"
  listed ← list_or_refuse "snapshots" (get "snapshots" si)
  snapshots_of build_id [] listed

-- `need` and `parse`
abbrev pub need : Source → String → Checked String
need source path = found (source.read path)
  where
    found : Option String → Checked String
    found none = refused "an input is not in the source"
    found (some text) = ok text

abbrev pub parsed : Option Json → Checked Json
parsed none = refused "an input is not JSON"
parsed (some j) = ok j

-- `Object.keys(value ?? {}).length`
abbrev pub count_fields : Fields → ℕ
count_fields end = 0
count_fields (field _ _ fs) = suc (count_fields fs)

abbrev pub count_keys : Option Json → ℕ
count_keys (some (obj fs)) = count_fields fs
count_keys (some (arr xs)) = length (to_list xs)
count_keys (some (str s)) = utf16_length s
count_keys _ = 0

abbrev pub part : Json → Checked Listed
part j = do
  p ← served_path "part" "profiles" (get "url" j)
  sha ← stripped "part" (strip (get "digest" j))
  bytes ← sized "part" (get "byteLength" j)
  demand (is_content_addressed p (some (str sha))) "part is not content-addressed"
  ok (record { path = p; sha = some (str sha); bytes = bytes })

abbrev pub parts_of : List Json → Checked (List Listed)
parts_of [] = ok []
parts_of (j ∷ js) = do first ← part j; rest ← parts_of js; ok (first ∷ rest)

-- `entry.modules === modules`
abbrev pub is_count : Option Json → ℕ → Bool
is_count (some (num n)) count = eqb_ℤ n (pos count)
is_count _ count = false

abbrev pub content_digest : Node → Option Json → String
content_digest node none = ""
content_digest node (some content) = str_append "sha256:" (node.sha256 (node.compact content))

-- What a profile's manifest says, and the entry of the index that names it.
unfoldable pub described : Node → String → String → String → String → Json → Json → Checked Profile
described node lean id path text entry pm = do
  demand (is_text (get "format" pm) "browser64.artifact-manifest") "manifest format"
  let content = get "content" pm
  demand (is_text (get_in (get_in content "lean") "version") lean) "profile of another Lean"
  demand (is_text (get "digest" pm) (content_digest node content)) "manifest digest"
  let modules = count_keys (get_in content "modules")
  demand
      (same_value (get "release" entry) (get_in content "release")
        && is_count (get "modules" entry) modules)
      "index entry"
  let pack = get_in content "pack"
  pack_sha ← stripped "pack" (strip (get_in pack "digest"))
  pack_bytes ← sized "pack" (get_in pack "byteLength")
  let transport = get_in pack "transport"
  transport_sha ← stripped "transport" (strip (get_in transport "digest"))
  transport_bytes ← sized "transport" (get_in transport "byteLength")
  listed ← list_or_refuse "transport" (get_in transport "parts")
  demand (is_filled listed) "transport"
  parts ← parts_of listed
  demand (sum_of parts == transport_bytes) "parts do not sum to the transport"
  ok (record {
    id = id;
    release = get_in content "release";
    modules = modules;
    manifest = path;
    text = text;
    content_digest = content_digest node content;
    git_revision = get_in (get_in content "lean") "gitRevision";
    pack_sha = pack_sha;
    pack_bytes = pack_bytes;
    transport_sha = transport_sha;
    transport_bytes = transport_bytes;
    parts = parts;
  })

abbrev pub profile : Node → Source → String → List String → Json → Checked Profile
profile node source lean seen entry = do
  id ← tested "profile id" (λ s. is_nonempty s && not (any (str_eq s) seen)) (get "id" entry)
  path ← served_path "profile manifest" "profiles" (get "manifest" entry)
  demand (not (str_eq path "profiles/index.json")) "manifest url names the index itself"
  text ← need source (str_append "public/" path)
  pm ← parsed (source.parse text)
  described node lean id path text entry pm

abbrev pub profiles_of : Node → Source → String → List String → List Json → Checked (List Profile)
profiles_of node source lean seen [] = ok []
profiles_of node source lean seen (e ∷ es) = do
  first ← profile node source lean seen e
  rest ← profiles_of node source lean (first.id ∷ seen) es
  ok (first ∷ rest)

unfoldable pub profile_section : Node → Source → String → String → Json → Checked (List Profile)
profile_section node source build_id lean pi = do
  demand (is_text (get "schema" pi) "qed64.profile-index/v1") "profile schema"
  listed ← list_or_refuse "profiles" (get "profiles" pi)
  demand (is_filled listed) "profiles"
  demand (is_text (get_in (get "runtime" pi) "buildId") build_id) "profiles of another runtime"
  demand (is_text (get_in (get "runtime" pi) "leanVersion") lean) "profiles of another Lean"
  profiles_of node source lean [] listed
