-- ===== src/Manifest/Hosted.antt =====
-- What a manifest has that `buildReleaseManifest` of pipeline/release/release-manifest.mjs returns.
use Prim.Native.String.{String, ◌++◌ as str_append}
use qed.Common.{◌≡◌, Bool, true, ◌&&◌, some, List, ◌++◌}
use qed.Common.Lists.{all}
use qed.Common.Json.{str}
use qed.Manifest.Record.{Node, Toolchain}
use qed.Manifest.Runtime.{Listed, Runtime}
use qed.Manifest.Indexes.{Source, Profile}
use qed.Manifest.Build.{Manifest, served_of}
use qed.Manifest.Backed.{IsPaired}
use qed.Manifest.Pinned.{IsPinned, are_paired}
use qed.Manifest.Vouched.{is_vouched}

-- A file with the text that was read.
abbrev file_of : Node → Source → String → String → Listed
file_of node source path text = record {
  path = path;
  sha = some (str (node.sha256 text));
  bytes = source.byte_length text;
}

abbrev is_vouched_profile : Node → Source → Toolchain → Profile → Bool
is_vouched_profile node source t p =
    is_vouched t (file_of node source p.manifest p.text) && all (is_vouched t) p.parts

-- The runtime's manifest under its two names, each chunk of each of its files, the index of the
-- profiles, and each profile's manifest and parts.
pub record AreVouched (node : Node) (source : Source) (t : Toolchain) (rt : Runtime)
    (rt_text : String) (profiles : List Profile) (pi_text : String) : Type 0 where
  pub current : is_vouched t (file_of node source "runtime/runtime-manifest.json" rt_text) ≡ true
  pub pinned :
      is_vouched t (
        file_of node source
          (str_append "runtime/runtime-manifest." (str_append rt.build_id ".json"))
          rt_text)
      ≡ true
  pub chunks : all (λ f. all (is_vouched t) f.chunks) rt.files ≡ true
  pub index : is_vouched t (file_of node source "profiles/index.json" pi_text) ≡ true
  pub parts : all (is_vouched_profile node source t) profiles ≡ true

-- What a manifest has that is built.
abbrev pub IsConsistent : Node → Source → Manifest → Type 0
IsConsistent node source m =
    IsPinned m.toolchain m.runtime
    × (are_paired m.runtime.build_id m.snapshots ≡ true)
    × AreVouched node source m.toolchain m.runtime m.runtime_text m.profiles m.profile_text
    × IsPaired m.toolchain (served_of m.profiles) m.tree
