-- ===== src/Manifest/Tests.antt =====
-- A toolchain record and a base tree as pipeline/release/release-manifest.mjs reads them.
use Prim.Native.String.{String}
use qed.Common.{◌≡◌, refl, true, false, none, some, List, [], ◌∷◌}
use qed.Common.Int.{pos}
use qed.Common.Json.{Json, num, str, bool, arr, obj, nil, cons, end, field}
use qed.Edge.Keys.{after_prefix, ends_with, all_chars}
use qed.Manifest.Checked.{ok}
use qed.Manifest.Shapes.{
  tests_hex64, is_build_id, is_release_id, is_patch_id, is_safe_basename, strip, repo_slug,
}
use qed.Manifest.Record.{Node, Toolchain, record_digest, toolchain_record, is_toolchain_hosted}
use qed.Manifest.Vetted.{IsVetted, toolchain_record-IsVetted}
use qed.Manifest.Tree.{TreePack, Umbrella, Tree, text_leb}
use qed.Manifest.Paired.{Served, BaseTree, paired, base_tree}
use qed.Manifest.Backed.{IsPaired, base_tree-IsPaired}

abbrev node : Node
node = record { sha256 = λ _. "00"; pretty = λ _. "{}"; compact = λ _. "{}" }

abbrev pub sha_a : String
sha_a = "aaaaaaaaaaaaaaaaaaaaaaaaaaaaaaaaaaaaaaaaaaaaaaaaaaaaaaaaaaaaaaaa"

abbrev pub pack_json : Json
pack_json = obj (
    field "id" (str "init")
      (field "rawSha256" (str sha_a) (field "manifest" (str "profiles/init.json") end)))

abbrev file_json : Json
file_json = obj (
    field "path" (str "runtime/lean.wasm")
      (field "bytes" (num (pos 7)) (field "sha256" (str sha_a) end)))

abbrev pub kernel_json : Json
kernel_json = obj (
    field "commit" (str "0123456789012345678901234567890123456789") (
      field "patch" (str "0042b") (
        field "repo" (str "https://github.com/FawadHa1der/lean4.git")
          (field "branch" (str "qed64-wasm64") end))))

abbrev pub hosting_json : Json
hosting_json = obj (
    field "layout" (str "served") (
      field "mount"
        (obj (field "/runtime/" (str "runtime/") (field "/profiles/" (str "profiles/") end)))
        (field "siteOwned" (arr (cons (str "/profiles/index.json") nil)) end)))

abbrev record_json : Json
record_json = obj (
    field "schema" (str "lean4-wasm64.release/v1") (
      field "digest" (str "sha256:00") (
        field "id" (str "lean-v4.22.0-abc") (
          field "kernel" kernel_json (
            field "runtime" (obj (field "buildId" (str "wasm64-0123456789abcdef") end)) (
              field "packs" (arr (cons pack_json nil)) (
                field "tools"
                  (obj (
                    field "package" (str "p")
                      (field "version" (str "1") (field "tgz" (str "t") end))))
                  (field "hosting" hosting_json
                    (field "files" (arr (cons file_json nil)) end)))))))))

abbrev toolchain : Toolchain
toolchain = record {
  id = "lean-v4.22.0-abc";
  digest = "sha256:00";
  commit = "0123456789012345678901234567890123456789";
  patch = "0042b";
  build_id = "wasm64-0123456789abcdef";
  packs =
      record {
        id = "init";
        raw = some (str sha_a);
        release = none;
        manifest = some (str "profiles/init.json");
      }
      ∷ [];
  site_owned = "/profiles/index.json" ∷ [];
  files =
      record { path = "runtime/lean.wasm"; sha = some (str sha_a); bytes = some (num (pos 7)) }
      ∷ [];
}

record_passes : toolchain_record node record_json ≡ ok toolchain
unfolding toolchain_record record_digest is_release_id is_patch_id is_build_id repo_slug
    after_prefix all_chars tests_hex64
record_passes = refl

toolchain_record-IsVetted_example : IsVetted node record_json toolchain
toolchain_record-IsVetted_example =
    toolchain_record-IsVetted node record_json toolchain record_passes

-- The mutable index is the site's, its neighbour is not.
hosted : is_toolchain_hosted toolchain "profiles/init.json" ≡ true
unfolding is_toolchain_hosted after_prefix ends_with
hosted = refl

abbrev tree_pack_json : Json
tree_pack_json = obj (
    field "id" (str "init") (
      field "rawSha256"
        (str "sha256:aaaaaaaaaaaaaaaaaaaaaaaaaaaaaaaaaaaaaaaaaaaaaaaaaaaaaaaaaaaaaaaa") end))

abbrev olean_json : Json
olean_json = obj (
    field "path" (str "QED64/Essential.olean")
      (field "sha256" (str sha_a) (field "bytes" (num (pos 5)) end)))

abbrev private_json : Json
private_json = obj (
    field "path" (str "QED64/Essential.olean.private")
      (field "sha256" (str sha_a) (field "bytes" (num (pos 9)) end)))

abbrev fat_json : Json
fat_json = obj (
    field "slim" (bool false) (
      field "packs" (arr (cons tree_pack_json nil)) (
        field "umbrella" (arr (cons private_json (cons olean_json nil))) (
          field "files" (num (pos 3)) (
            field "bytes" (num (pos 70)) (
              field "digest"
                (str "sha256:aaaaaaaaaaaaaaaaaaaaaaaaaaaaaaaaaaaaaaaaaaaaaaaaaaaaaaaaaaaaaaaa")
                end))))))

abbrev pub tree_json : Json
tree_json = obj (
    field "schema" (str "qed64.base-tree/v1") (
      field "releaseId" (str "lean-v4.21.0") (
        field "slim" (bool true) (
          field "packs" (arr (cons tree_pack_json nil)) (
            field "umbrella" (arr (cons olean_json nil))
              (field "trees" (obj (field "lib-tree" fat_json end)) end))))))

abbrev served : List Served
served = record { id = "core"; manifest = "profiles/init.json"; sha = sha_a } ∷ []

abbrev init_pack : TreePack
init_pack = record { id = "init"; release = none; raw = sha_a }

abbrev olean : Umbrella
olean = record {
  path = "QED64/Essential.olean";
  sha = some (str sha_a);
  bytes = some (num (pos 5));
}

abbrev private_part : Umbrella
private_part = record {
  path = "QED64/Essential.olean.private";
  sha = some (str sha_a);
  bytes = some (num (pos 9));
}

abbrev fat_tree : Tree
fat_tree = record {
  slim = false;
  packs = init_pack ∷ [];
  umbrella = private_part ∷ olean ∷ [];
  files = some (num (pos 3));
  bytes = some (num (pos 70));
  digest = some (str "sha256:aaaaaaaaaaaaaaaaaaaaaaaaaaaaaaaaaaaaaaaaaaaaaaaaaaaaaaaaaaaaaaaa");
}

abbrev pub tree_of_site : BaseTree
tree_of_site = record {
  release_id = "lean-v4.21.0";
  same_release = false;
  packs = init_pack ∷ [];
  slim = true;
  umbrella = olean ∷ [];
  trees = record { name = "lib-tree"; tree = fat_tree } ∷ [];
  umbrella_files = olean ∷ private_part ∷ [];
  release_digest = none;
  runtime = none;
  umbrella_source = none;
  init_lib = none;
  digest_rule = none;
}

tree_passes : base_tree toolchain served tree_json ≡ ok tree_of_site
unfolding base_tree paired is_release_id strip is_safe_basename after_prefix all_chars tests_hex64
    text_leb
tree_passes = refl

base_tree-IsPaired_example : IsPaired toolchain served tree_of_site
base_tree-IsPaired_example = base_tree-IsPaired toolchain served tree_json tree_of_site tree_passes
