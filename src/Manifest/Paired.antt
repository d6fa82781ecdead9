-- ===== src/Manifest/Paired.antt =====
-- `baseTreeOf` of pipeline/release/release-manifest.mjs: embedding/base-tree.json against the toolchain
-- record and the packs that are served.
use Prim.Native.String.{String}
use text.Mathlib.Text.{◌==◌ as str_eq}
use qed.Common.{
  Bool, true, false, not, ◌&&◌, ◌||◌, Option, none, some, List, [], ◌∷◌, ◌++◌, if◌then◌else◌,
}
use qed.Common.Lists.{any, all}
use qed.Common.Int.{eqb_ℤ}
use qed.Common.Json.{Json, str, num, get, text_of, is_text}
use qed.Manifest.Checked.{Checked, ok, refused, ◌>>=◌, ◌>>◌, demand}
use qed.Manifest.Shapes.{is_release_id}
use qed.Manifest.Record.{RecordPack, Toolchain, tested}
use qed.Manifest.Tree.{
  TreePack, Umbrella, Named, pack_list, umbrella_list, bool_or_refuse, trees_of, text_leb,
}

-- A pack of the profile index: its manifest's path and the digest of its bytes.
pub record Served : Type 0 where
  pub id : String
  pub manifest : String
  pub sha : String

-- The section of the manifest.
pub record BaseTree : Type 0 where
  pub release_id : String
  pub same_release : Bool
  pub packs : List TreePack
  pub slim : Bool
  pub umbrella : List Umbrella
  pub trees : List Named
  pub umbrella_files : List Umbrella
  pub release_digest : Option String
  pub runtime : Option String
  pub umbrella_source : Option String
  pub init_lib : Option String
  pub digest_rule : Option String

-- The ids of a record's packs are different: the first with an id is the only one.
abbrev pub find_pack : (RecordPack → Bool) → List RecordPack → Option RecordPack
find_pack p [] = none
find_pack p (x ∷ xs) = let rest = find_pack p xs in if p x then some x else rest

abbrev pub has_id : String → RecordPack → Bool
has_id id p = str_eq p.id id

-- Both are releases, and they differ.
abbrev pub other_release : Option String → Option String → Bool
other_release (some a) (some b) = not (str_eq a b)
other_release _ _ = false

abbrev pub backed_by : Option RecordPack → TreePack → Checked (Unit {0})
backed_by none p = refused "names a pack that the record does not carry"
backed_by (some q) p = do
  demand (is_text q.raw p.raw) "raw"
  demand (not (other_release p.release (text_of q.release))) "release"

-- Every pack that is named is one of the record's, with its bytes.
abbrev pub backed : Toolchain → List TreePack → Checked (Unit {0})
backed t [] = ok tt
backed t (p ∷ ps) = do backed_by (find_pack (has_id p.id) t.packs) p; backed t ps

abbrev pub trees_backed : Toolchain → List Named → Checked (Unit {0})
trees_backed t [] = ok tt
trees_backed t (n ∷ ns) = do backed t n.tree.packs; trees_backed t ns

abbrev pub of_release : Toolchain → Bool → Json → Checked (Unit {0})
of_release t false bt = ok tt
of_release t true bt = do
  demand (is_text (get "releaseDigest" bt) t.digest) "releaseDigest"
  demand (is_text (get "runtime" bt) t.build_id) "runtime"

abbrev pub id_or_refuse : Option RecordPack → Checked String
id_or_refuse none = refused "a served pack is none of the record's"
id_or_refuse (some q) = ok q.id

-- `servedIds`
abbrev pub served_ids : Toolchain → List Served → Checked (List String)
served_ids t [] = ok []
served_ids t (s ∷ ss) = do
  id ← id_or_refuse (find_pack (λ q. is_text q.manifest s.manifest) t.packs)
  rest ← served_ids t ss
  ok (id ∷ rest)

abbrev pub find_served : Option Json → List Served → Option Served
find_served manifest [] = none
find_served manifest (s ∷ ss) =
    let rest = find_served manifest ss in if is_text manifest s.manifest then some s else rest

abbrev pub manifest_of : Option RecordPack → Option Json
manifest_of none = none
manifest_of (some q) = q.manifest

abbrev pub served_with : Option Served → String → Checked (Unit {0})
served_with none raw = refused "a pack of the base trees is not served"
served_with (some s) raw = demand (str_eq s.sha raw) "a pack is served with other bytes"

abbrev pub all_served : Toolchain → List Served → List TreePack → Checked (Unit {0})
all_served t served [] = ok tt
all_served t served (p ∷ ps) = do
  served_with (find_served (manifest_of (find_pack (has_id p.id) t.packs)) served) p.raw
  all_served t served ps

abbrev pub lists_id : List TreePack → String → Bool
lists_id ps id = any (λ p. str_eq p.id id) ps

abbrev pub are_distinct : List TreePack → Bool
are_distinct [] = true
are_distinct (p ∷ ps) = not (lists_id ps p.id) && are_distinct ps

abbrev pub lists_path : List Umbrella → String → Bool
lists_path us path = any (λ u. str_eq u.path path) us

-- "QED64/Essential.olean" and its private part
abbrev pub umbrella_private : String
umbrella_private = "QED64/Essential.olean.private"

-- A tree's umbrella file is one of the top's, or the private part in a fat tree.
abbrev pub carries : List Umbrella → Bool → Umbrella → Bool
carries umbrella slim x =
    if str_eq x.path umbrella_private then not slim else lists_path umbrella x.path

abbrev pub carries_umbrella : List Umbrella → Named → Bool
carries_umbrella umbrella n =
    str_eq n.name "core-lib-slim"
    || (all (λ u. lists_path n.tree.umbrella u.path) umbrella
        && all (carries umbrella n.tree.slim) n.tree.umbrella)

abbrev pub same_text : Option Json → Option Json → Bool
same_text (some (str a)) (some (str b)) = str_eq a b
same_text _ _ = false

abbrev pub same_number : Option Json → Option Json → Bool
same_number (some (num a)) (some (num b)) = eqb_ℤ a b
same_number _ _ = false

-- `union.set(u.path, u)`, unless it is there with another content.
abbrev pub add_file : Umbrella → List Umbrella → Checked (List Umbrella)
add_file u [] = ok (u ∷ [])
add_file u (x ∷ xs) =
    let rest = add_file u xs >>= λ us. ok (x ∷ us) in
    if str_eq x.path u.path
    then (if same_text x.sha u.sha && same_number x.bytes u.bytes
        then ok (u ∷ xs)
        else refused "two contents")
    else rest

abbrev pub add_files : List Umbrella → List Umbrella → Checked (List Umbrella)
add_files [] union = ok union
add_files (u ∷ us) union = add_file u union >>= add_files us

abbrev pub umbrellas_of : List Named → List Umbrella
umbrellas_of [] = []
umbrellas_of (n ∷ ns) = n.tree.umbrella ++ umbrellas_of ns

abbrev pub insert_file : Umbrella → List Umbrella → List Umbrella
insert_file u [] = u ∷ []
insert_file u (x ∷ xs) =
    let rest = insert_file u xs in if text_leb u.path x.path then u ∷ x ∷ xs else x ∷ rest

abbrev pub sort_files : List Umbrella → List Umbrella
sort_files [] = []
sort_files (u ∷ us) = insert_file u (sort_files us)

-- What is checked of the trees once they are read.
unfoldable pub paired : Toolchain → List Served → Json → BaseTree → Checked BaseTree
paired t served bt b = do
  backed t b.packs
  trees_backed t b.trees
  of_release t b.same_release bt
  ids ← served_ids t served
  all_served t served b.packs
  demand (all (lists_id b.packs) ids) "a served pack is not listed"
  demand (are_distinct b.packs) "a pack is listed twice"
  demand (all (carries_umbrella b.umbrella) b.trees) "umbrella"
  union ← add_files (b.umbrella ++ umbrellas_of b.trees) []
  ok (record b { umbrella_files = sort_files union })

unfoldable pub base_tree : Toolchain → List Served → Json → Checked BaseTree
base_tree t served bt = do
  demand (is_text (get "schema" bt) "qed64.base-tree/v1") "schema"
  release_id ← tested "releaseId" is_release_id (get "releaseId" bt)
  slim ← bool_or_refuse "slim" (get "slim" bt)
  packs ← pack_list "packs" (get "packs" bt)
  umbrella ← umbrella_list "umbrella" (get "umbrella" bt)
  demand (lists_path umbrella "QED64/Essential.olean") "umbrella does not list the olean"
  demand (not (lists_path umbrella umbrella_private)) "umbrella lists the private part"
  trees ← trees_of (get "trees" bt)
  paired t served bt (record {
    release_id = release_id;
    same_release = str_eq release_id t.id;
    packs = packs;
    slim = slim;
    umbrella = umbrella;
    trees = trees;
    umbrella_files = [];
    release_digest = if str_eq release_id t.id then some t.digest else none;
    runtime = if str_eq release_id t.id then some t.build_id else none;
    umbrella_source = text_of (get "umbrellaSource" bt);
    init_lib = text_of (get "initLib" bt);
    digest_rule = text_of (get "digestRule" bt);
  })
