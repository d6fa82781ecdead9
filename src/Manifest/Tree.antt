-- ===== src/Manifest/Tree.antt =====
-- The parts of embedding/base-tree.json as `baseTreeOf` of pipeline/release/release-manifest.mjs reads
-- them. Texts are compared by their characters' codes; the names are ASCII, where that is `byteOrder`.
use Prim.Native.Char.{code}
use Prim.Native.String.{String}
use text.Mathlib.Text.{◌==◌ as str_eq}
use qed.Common.{
  ℕ, Bool, true, false, not, ◌&&◌, Option, none, some, List, [], ◌∷◌, ltb, ◌==◌, if◌then◌else◌,
}
use qed.Common.Lists.{any}
use qed.Common.Json.{Json, Fields, obj, bool, end, field, get, text_of, is_some}
use qed.Edge.Keys.{after_prefix}
use qed.Manifest.Checked.{Checked, ok, refused, ◌>>=◌, ◌>>◌, demand}
use qed.Manifest.Shapes.{tests_digest, is_safe_basename, strip, is_safe, is_size, is_nonempty}
use qed.Edge.Release.{opt_test}
use qed.Manifest.Record.{tested, list_or_refuse, is_filled}

-- A pack that a tree was unpacked from.
pub record TreePack : Type 0 where
  pub id : String
  pub release : Option String
  pub raw : String

-- An umbrella file.
pub record Umbrella : Type 0 where
  pub path : String
  pub sha : Option Json
  pub bytes : Option Json

pub record Tree : Type 0 where
  pub slim : Bool
  pub packs : List TreePack
  pub umbrella : List Umbrella
  pub files : Option Json
  pub bytes : Option Json
  pub digest : Option Json

pub record Named : Type 0 where
  pub name : String
  pub tree : Tree

-- `strip(v)`, or a refusal.
abbrev pub stripped : String → Option String → Checked String
stripped why none = refused why
stripped why (some sha) = ok sha

abbrev pub tree_pack : String → Json → Checked TreePack
tree_pack why p = do
  id ← tested why is_nonempty (get "id" p)
  raw ← stripped why (strip (get "rawSha256" p))
  ok (record { id = id; release = text_of (get "release" p); raw = raw })

abbrev pub tree_packs : String → List Json → Checked (List TreePack)
tree_packs why [] = ok []
tree_packs why (p ∷ ps) = do pack ← tree_pack why p; rest ← tree_packs why ps; ok (pack ∷ rest)

-- `packList`
abbrev pub pack_list : String → Option Json → Checked (List TreePack)
pack_list why v = do
  packs ← list_or_refuse why v
  demand (is_filled packs) why
  tree_packs why packs

-- UMBRELLA_PATH
abbrev pub is_umbrella_path : String → Bool
is_umbrella_path path = opt_test is_safe_basename (after_prefix "QED64/" path)

abbrev pub umbrella_file : String → List String → Json → Checked Umbrella
umbrella_file why seen u = do
  path ← tested why (λ s. is_umbrella_path s && not (any (str_eq s) seen)) (get "path" u)
  demand (tests_digest (get "sha256" u) && is_size (get "bytes" u)) why
  ok (record { path = path; sha = get "sha256" u; bytes = get "bytes" u })

abbrev pub umbrella_files : String → List String → List Json → Checked (List Umbrella)
umbrella_files why seen [] = ok []
umbrella_files why seen (u ∷ us) = do
  file ← umbrella_file why seen u
  rest ← umbrella_files why (file.path ∷ seen) us
  ok (file ∷ rest)

-- `umbrellaList`
abbrev pub umbrella_list : String → Option Json → Checked (List Umbrella)
umbrella_list why v = do files ← list_or_refuse why v; umbrella_files why [] files

abbrev pub bool_or_refuse : String → Option Json → Checked Bool
bool_or_refuse why (some (bool b)) = ok b
bool_or_refuse why _ = refused why

abbrev pub named_tree : String → Json → Checked Named
named_tree name t = do
  demand (is_safe_basename name) "trees"
  slim ← bool_or_refuse "trees" (get "slim" t)
  demand (is_safe (get "files" t) && is_safe (get "bytes" t) && is_some (strip (get "digest" t)))
      "trees"
  packs ← pack_list "trees.packs" (get "packs" t)
  umbrella ← umbrella_list "trees.umbrella" (get "umbrella" t)
  ok (record {
    name = name;
    tree = record {
      slim = slim;
      packs = packs;
      umbrella = umbrella;
      files = get "files" t;
      bytes = get "bytes" t;
      digest = get "digest" t;
    };
  })

-- The order of the trees: TREE_ORDER, then the names.
abbrev pub tree_rank : String → ℕ
tree_rank name =
    if str_eq name "core-lib-slim"
    then 0
    else if str_eq name "lib-tree-slim"
    then 1
    else if str_eq name "lib-tree"
    then 2
    else 3

unfoldable pub text_leb : String → String → Bool
text_leb String.[] t = true
text_leb (String.◌∷◌ c s) String.[] = false
text_leb (String.◌∷◌ c s) (String.◌∷◌ d t) =
    let later = text_leb s t in if code c == code d then later else ltb (code c) (code d)

abbrev pub goes_first : String → String → Bool
goes_first a b =
    if tree_rank a == tree_rank b then text_leb a b else ltb (tree_rank a) (tree_rank b)

abbrev pub insert_tree : String → Json → Fields → Fields
insert_tree name t end = field name t end
insert_tree name t (field other u fs) =
    let rest = insert_tree name t fs in
    if goes_first name other then field name t (field other u fs) else field other u rest

abbrev pub sort_trees : Fields → Fields
sort_trees end = end
sort_trees (field name t fs) = insert_tree name t (sort_trees fs)

abbrev pub named_trees : Fields → Checked (List Named)
named_trees end = ok []
named_trees (field name t fs) = do tree ← named_tree name t; rest ← named_trees fs; ok (tree ∷ rest)

abbrev pub trees_of : Option Json → Checked (List Named)
trees_of (some (obj fs)) = named_trees (sort_trees fs)
trees_of _ = refused "trees"
