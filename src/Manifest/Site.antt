-- ===== src/Manifest/Site.antt =====
-- A small site as `buildReleaseManifest` of pipeline/release/release-manifest.mjs reads it: one chunk,
-- one snapshot, one profile.
use Prim.Native.String.{String}
use text.Mathlib.Text.{◌==◌ as str_eq}
use qed.Common.{ℕ, Option, none, some, List, [], ◌∷◌, if◌then◌else◌}
use qed.Common.Int.{pos}
use qed.Common.Json.{Json, num, str}
use qed.Manifest.Record.{RecordFile, Toolchain}
use qed.Manifest.Runtime.{Listed, Runtime}
use qed.Manifest.Indexes.{Source, Profile}
use qed.Manifest.Build.{Manifest}
use qed.Manifest.Tests.{sha_a, tree_json, tree_of_site}
use qed.Manifest.Files.{
  record_json, runtime_json, snapshots_json, profiles_json, pack_manifest_json,
}

-- Every input is at its path; its text is its path.
abbrev site : List (String × Json)
site =
    ("toolchain/lean4-wasm64-release.json", record_json)
    ∷ ("public/runtime/runtime-manifest.json", runtime_json)
    ∷ ("public/snapshots/index.json", snapshots_json)
    ∷ ("public/profiles/index.json", profiles_json)
    ∷ ("public/profiles/init.json", pack_manifest_json)
    ∷ ("embedding/base-tree.json", tree_json)
    ∷ []

abbrev at : List (String × Json) → String → Option Json
at [] path = none
at (e ∷ es) path = let rest = at es path in if str_eq e.0 path then some e.1 else rest

abbrev text_at : Option Json → String → Option String
text_at none path = none
text_at (some _) path = some path

abbrev source : Source
source = record {
  read = λ path. text_at (at site path) path;
  parse = at site;
  byte_length = λ _. 5;
}

abbrev listed : String → ℕ → Listed
listed path n = record { path = path; sha = some (str sha_a); bytes = n }

abbrev record_file : String → ℕ → RecordFile
record_file path n = record { path = path; sha = some (str sha_a); bytes = some (num (pos n)) }

abbrev site_record : Toolchain
site_record = record {
  id = "lean-v4.22.0-abc";
  digest = "sha256:aaaaaaaaaaaaaaaaaaaaaaaaaaaaaaaaaaaaaaaaaaaaaaaaaaaaaaaaaaaaaaaa";
  commit = "0123456789012345678901234567890123456789";
  patch = "0042b";
  build_id = "wasm64-0123456789abcdef";
  packs =
      record {
        id = "init";
        raw = some (str sha_a);
        release = none;
        manifest = some (str "profiles/init.json");
      }
      ∷ [];
  site_owned = "/profiles/index.json" ∷ [];
  files =
      record_file "runtime/runtime-manifest.json" 5
      ∷ record_file "runtime/runtime-manifest.wasm64-0123456789abcdef.json" 5
      ∷ record_file "runtime/chunks/lean.aaaaaaaaaaaaaaaa" 7
      ∷ record_file "profiles/init.json" 5
      ∷ record_file "profiles/init.aaaaaaaaaaaaaaaa" 4
      ∷ [];
}

abbrev site_runtime : Runtime
site_runtime = record {
  build_id = "wasm64-0123456789abcdef";
  lean = "4.22.0";
  target = "wasm64";
  revision = "qed64-wasm64@0123456 clean";
  files =
      record {
        name = "lean.wasm";
        sha = some (str sha_a);
        bytes = 7;
        chunks = listed "runtime/chunks/lean.aaaaaaaaaaaaaaaa" 7 ∷ [];
      }
      ∷ [];
}

abbrev site_profile : Profile
site_profile = record {
  id = "core";
  release = none;
  modules = 1;
  manifest = "profiles/init.json";
  text = "public/profiles/init.json";
  content_digest = "sha256:aaaaaaaaaaaaaaaaaaaaaaaaaaaaaaaaaaaaaaaaaaaaaaaaaaaaaaaaaaaaaaaa";
  git_revision = none;
  pack_sha = sha_a;
  pack_bytes = 9;
  transport_sha = sha_a;
  transport_bytes = 4;
  parts = listed "profiles/init.aaaaaaaaaaaaaaaa" 4 ∷ [];
}

abbrev built : Manifest
built = record {
  toolchain = site_record;
  runtime = site_runtime;
  runtime_text = "public/runtime/runtime-manifest.json";
  snapshots =
      record {
        name = "init";
        path = "snapshots/init.aaaaaaaaaaaaaaaa";
        sha = sha_a;
        transfer = 3;
        bytes = 8;
        imports = "Init" ∷ [];
        runtime = "wasm64-0123456789abcdef";
      }
      ∷ [];
  profiles = site_profile ∷ [];
  profile_text = "public/profiles/index.json";
  tree = tree_of_site;
}
