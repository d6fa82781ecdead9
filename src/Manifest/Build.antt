-- ===== src/Manifest/Build.antt =====
-- `buildReleaseManifest` of pipeline/release/release-manifest.mjs without the shell of a built dist/ and
-- the description of the commit: the inputs, the sections, and the hosting rule over them.
use Prim.Native.String.{String, ◌++◌ as str_append}
use text.Mathlib.Text.{◌==◌ as str_eq}
use qed.Common.{◌&&◌, Option, none, some, List, [], ◌∷◌, ◌++◌, if◌then◌else◌}
use qed.Common.Json.{Json, str}
use qed.Coalescer.Frames.{same_value}
use qed.Manifest.Checked.{Checked, ok, refused, ◌>>=◌, ◌>>◌, demand}
use qed.Manifest.Record.{Node, RecordFile, Toolchain, toolchain_record, is_toolchain_hosted}
use qed.Manifest.Paired.{Served, BaseTree, base_tree}
use qed.Manifest.Runtime.{Listed, RuntimeFile, Runtime, runtime_section}
use qed.Manifest.Indexes.{
  Source, Snapshot, Profile, need, parsed, is_count, snapshot_section, profile_section,
}

pub record Manifest : Type 0 where
  pub toolchain : Toolchain
  pub runtime : Runtime
  pub runtime_text : String
  pub snapshots : List Snapshot
  pub profiles : List Profile
  pub profile_text : String
  pub tree : BaseTree

-- `sameCopy`, and the check of the pinned runtime manifest
abbrev pub same_text_as : Option String → String → Checked (Unit {0})
same_text_as none text = ok tt
same_text_as (some copy) text = demand (str_eq copy text) "a per-build copy differs"

abbrev pub copy_path : String → String → String
copy_path stem build_id = str_append stem (str_append build_id ".json")

abbrev pub or_this : String → RecordFile → Option RecordFile → Option RecordFile
or_this path f (some g) = some g
or_this path f none = if str_eq f.path path then some f else none

-- `recordFiles.get(path)`: the last of the files with a path.
abbrev pub last_file : String → List RecordFile → Option RecordFile
last_file path [] = none
last_file path (f ∷ fs) = or_this path f (last_file path fs)

abbrev pub vouched : Option RecordFile → Listed → Checked (Unit {0})
vouched none l = refused "a hosted file is not in the record"
vouched (some f) l =
    demand (same_value f.sha l.sha && is_count f.bytes l.bytes)
      "the served tree and the record disagree"

-- `hostedHere`
abbrev pub hosted_here : Toolchain → Listed → Checked (Unit {0})
hosted_here t l =
    if is_toolchain_hosted t l.path then vouched (last_file l.path t.files) l else ok tt

abbrev pub all_hosted : Toolchain → List Listed → Checked (Unit {0})
all_hosted t [] = ok tt
all_hosted t (l ∷ ls) = do hosted_here t l; all_hosted t ls

-- A tracked file under a path of the site.
abbrev pub tracked : Node → Source → String → String → Listed
tracked node source path text = record {
  path = path;
  sha = some (str (node.sha256 text));
  bytes = source.byte_length text;
}

abbrev pub chunk_list : List RuntimeFile → List Listed
chunk_list [] = []
chunk_list (f ∷ fs) = f.chunks ++ chunk_list fs

abbrev pub profile_list : Node → Source → List Profile → List Listed
profile_list node source [] = []
profile_list node source (p ∷ ps) =
    tracked node source p.manifest p.text ∷ p.parts ++ profile_list node source ps

-- The files that the hosting rule is checked of, in their order.
abbrev pub artifacts : Node → Source → Runtime → String → List Profile → String → List Listed
artifacts node source rt rt_text profiles pi_text =
    tracked node source "runtime/runtime-manifest.json" rt_text
      ∷ tracked node source (copy_path "runtime/runtime-manifest." rt.build_id) rt_text
      ∷ chunk_list rt.files
    ++ tracked node source "profiles/index.json" pi_text ∷ profile_list node source profiles

abbrev pub served_of : List Profile → List Served
served_of [] = []
served_of (p ∷ ps) = record { id = p.id; manifest = p.manifest; sha = p.pack_sha } ∷ served_of ps

-- An input: its text, and what it is parsed to.
abbrev pub input : Source → String → Checked (String × Json)
input source path = do text ← need source path; j ← parsed (source.parse text); ok (text, j)

unfoldable pub read_record : Node → Source → Checked Toolchain
read_record node source = do
  rec ← input source "toolchain/lean4-wasm64-release.json"
  toolchain_record node rec.1

unfoldable pub read_runtime : Source → Toolchain → Checked (String × Runtime)
read_runtime source t = do
  rt ← input source "public/runtime/runtime-manifest.json"
  section ← runtime_section t rt.1
  same_text_as (source.read (copy_path "public/runtime/runtime-manifest." section.build_id)) rt.0
  ok (rt.0, section)

unfoldable pub read_snapshots : Source → String → Checked (List Snapshot)
read_snapshots source build_id = do
  si ← input source "public/snapshots/index.json"
  snapshots ← snapshot_section build_id si.1
  same_text_as (source.read (copy_path "public/snapshots/index." build_id)) si.0
  ok snapshots

unfoldable pub read_profiles : Node → Source → String → String → Checked (String × List Profile)
read_profiles node source build_id lean = do
  pi ← input source "public/profiles/index.json"
  profiles ← profile_section node source build_id lean pi.1
  same_text_as (source.read (copy_path "public/snapshots/profiles-index." build_id)) pi.0
  ok (pi.0, profiles)

unfoldable pub read_tree : Source → Toolchain → List Profile → Checked BaseTree
read_tree source t profiles = do
  bt ← input source "embedding/base-tree.json"
  base_tree t (served_of profiles) bt.1

unfoldable pub build_release_manifest : Node → Source → Checked Manifest
build_release_manifest node source = do
  t ← read_record node source
  rt ← read_runtime source t
  snapshots ← read_snapshots source rt.1.build_id
  profiles ← read_profiles node source rt.1.build_id rt.1.lean
  all_hosted t (artifacts node source rt.1 rt.0 profiles.1 profiles.0)
  tree ← read_tree source t profiles.1
  ok (record {
    toolchain = t;
    runtime = rt.1;
    runtime_text = rt.0;
    snapshots = snapshots;
    profiles = profiles.1;
    profile_text = profiles.0;
    tree = tree;
  })
