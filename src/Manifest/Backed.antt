-- ===== src/Manifest/Backed.antt =====
-- The packs of a base tree that pipeline/release/release-manifest.mjs lets through.
use Prim.Native.String.{String}
use text.Mathlib.Text.{◌==◌ as str_eq}
use qed.Common.{
  ◌≡◌, refl, sym, ap, subst, ◌∙◌, Bool, true, false, ◌&&◌, ◌||◌, Option, some, List, [], ◌∷◌, ◌++◌,
  Bool-cases, inl, inr, arith,
}
use qed.Common.Lists.{any, all}
use qed.Common.Json.{Json, get, is_text}
use qed.Manifest.Checked.{ok, demand, bind_parts, demand_parts}
use qed.Manifest.Shapes.{is_release_id}
use qed.Manifest.Record.{RecordPack, Toolchain, tested}
use qed.Manifest.Tree.{TreePack, Named, pack_list, umbrella_list, bool_or_refuse, trees_of}
use qed.Manifest.Paired.{
  Served, BaseTree, find_pack, has_id, backed_by, backed, trees_backed, of_release, id_or_refuse,
  served_ids, find_served, manifest_of, served_with, all_served, lists_id, are_distinct,
  carries_umbrella, add_files, umbrellas_of, paired, base_tree,
}
use qed.Manifest.Vetted.{ok-injective}
use qed.Manifest.Union.{AllListed, add_files-AllListed, sorted-AllListed}

-- A pack of the record with the id and the bytes.
abbrev pub is_backed : List RecordPack → TreePack → Bool
is_backed qs p = any (λ q. str_eq q.id p.id && is_text q.raw p.raw) qs

-- A pack that is served, with its bytes.
abbrev pub is_served : List Served → TreePack → Bool
is_served served p = any (λ s. str_eq s.sha p.raw) served

-- A served pack that is one of the record's, and listed.
abbrev pub is_listed : List RecordPack → List TreePack → Served → Bool
is_listed qs ps s = any (λ q. is_text q.manifest s.manifest && lists_id ps q.id) qs

backed_by-is_backed :
    (qs : List RecordPack) (p : TreePack)
    → backed_by (find_pack (has_id p.id) qs) p ≡ ok tt
    → is_backed qs p ≡ true
backed_by-is_backed [] p h = cc
backed_by-is_backed (q ∷ qs) p h = elim (Bool-cases (str_eq q.id p.id)) [
  | inl c ↦ rw c (
      ap (λ b. b || is_backed qs p)
        (demand_parts (is_text q.raw p.raw) "raw" _ (sym (here c) ∙ h)).0)
  | inr c ↦ rw c (backed_by-is_backed qs p (sym (behind c) ∙ h))
]
  where
    here :
        str_eq q.id p.id ≡ true
        → backed_by (find_pack (has_id p.id) (q ∷ qs)) p ≡ backed_by (some q) p
    here c = rw c refl

    behind :
        str_eq q.id p.id ≡ false
        → backed_by (find_pack (has_id p.id) (q ∷ qs)) p ≡ backed_by (find_pack (has_id p.id) qs) p
    behind c = rw c refl

-- What a check of one item that passed, and one of the others, say of the list.
pub both : (a b : Bool) → a ≡ true → b ≡ true → (a && b) ≡ true
both a b h k = ground (arith, h, k)

pub or_left : (a b : Bool) → a ≡ true → (a || b) ≡ true
or_left a b h = ground (arith, h)

pub or_right : (a b : Bool) → b ≡ true → (a || b) ≡ true
or_right a b h = ground (arith, h)

pub demand_held : (test : Bool) (why : String) → demand test why ≡ ok tt → test ≡ true
demand_held true why h = refl
demand_held false why h = cc

backed-all :
    (t : Toolchain) (ps : List TreePack) → backed t ps ≡ ok tt → all (is_backed t.packs) ps ≡ true
backed-all t [] h = refl
backed-all t (p ∷ ps) h =
    let first = bind_parts (backed_by (find_pack (has_id p.id) t.packs) p) _ h in
    both (is_backed t.packs p) (all (is_backed t.packs) ps) (backed_by-is_backed t.packs p first.1)
      (backed-all t ps first.2)

trees_backed-all :
    (t : Toolchain) (ns : List Named)
    → trees_backed t ns ≡ ok tt
    → all (λ n. all (is_backed t.packs) n.tree.packs) ns ≡ true
trees_backed-all t [] h = refl
trees_backed-all t (n ∷ ns) h =
    let first = bind_parts (backed t n.tree.packs) _ h in
    both (all (is_backed t.packs) n.tree.packs) _ (backed-all t n.tree.packs first.1)
      (trees_backed-all t ns first.2)

served_with-is_served :
    (manifest : Option Json) (served : List Served) (p : TreePack)
    → served_with (find_served manifest served) p.raw ≡ ok tt
    → is_served served p ≡ true
served_with-is_served manifest [] p h = cc
served_with-is_served manifest (s ∷ ss) p h = elim (Bool-cases (is_text manifest s.manifest)) [
  | inl c ↦
      or_left (str_eq s.sha p.raw) (is_served ss p)
        (demand_held (str_eq s.sha p.raw) "a pack is served with other bytes" (sym (here c) ∙ h))
  | inr c ↦
      or_right (str_eq s.sha p.raw) (is_served ss p)
        (served_with-is_served manifest ss p (sym (behind c) ∙ h))
]
  where
    here :
        is_text manifest s.manifest ≡ true
        → served_with (find_served manifest (s ∷ ss)) p.raw ≡ served_with (some s) p.raw
    here c = rw c refl

    behind :
        is_text manifest s.manifest ≡ false
        → served_with (find_served manifest (s ∷ ss)) p.raw
          ≡ served_with (find_served manifest ss) p.raw
    behind c = rw c refl

all_served-all :
    (t : Toolchain) (served : List Served) (ps : List TreePack)
    → all_served t served ps ≡ ok tt
    → all (is_served served) ps ≡ true
all_served-all t served [] h = refl
all_served-all t served (p ∷ ps) h =
    let manifest = manifest_of (find_pack (has_id p.id) t.packs) in
    let first = bind_parts (served_with (find_served manifest served) p.raw) _ h in
    both (is_served served p) (all (is_served served) ps)
      (served_with-is_served manifest served p first.1) (all_served-all t served ps first.2)

id-is_listed :
    (qs : List RecordPack) (ps : List TreePack) (s : Served) (id : String)
    → id_or_refuse (find_pack (λ q. is_text q.manifest s.manifest) qs) ≡ ok id
    → lists_id ps id ≡ true
    → is_listed qs ps s ≡ true
id-is_listed [] ps s id h k = cc
id-is_listed (q ∷ qs) ps s id h k = elim (Bool-cases (is_text q.manifest s.manifest)) [
  | inl c ↦ or_left (is_text q.manifest s.manifest && lists_id ps q.id) (is_listed qs ps s) (
      both (is_text q.manifest s.manifest) (lists_id ps q.id) c
        (ap (lists_id ps) (ok-injective q.id id (sym (here c) ∙ h)) ∙ k))
  | inr c ↦
      or_right (is_text q.manifest s.manifest && lists_id ps q.id) (is_listed qs ps s)
        (id-is_listed qs ps s id (sym (behind c) ∙ h) k)
]
  where
    here :
        is_text q.manifest s.manifest ≡ true
        → id_or_refuse (find_pack (λ q. is_text q.manifest s.manifest) (q ∷ qs)) ≡ ok q.id
    here c = rw c refl

    behind :
        is_text q.manifest s.manifest ≡ false
        → id_or_refuse (find_pack (λ q. is_text q.manifest s.manifest) (q ∷ qs))
          ≡ id_or_refuse (find_pack (λ q. is_text q.manifest s.manifest) qs)
    behind c = rw c refl

served_ids-all :
    (t : Toolchain) (ps : List TreePack) (served : List Served) (ids : List String)
    → served_ids t served ≡ ok ids
    → all (lists_id ps) ids ≡ true
    → all (is_listed t.packs ps) served ≡ true
served_ids-all t ps [] ids h k = refl
served_ids-all t ps (s ∷ ss) ids h k =
    let first =
      bind_parts (id_or_refuse (find_pack (λ q. is_text q.manifest s.manifest) t.packs)) _ h in
    let others = bind_parts (served_ids t ss) _ first.2 in
    let same : all (lists_id ps) (first.0 ∷ others.0) ≡ true =
      ap (all (lists_id ps)) (ok-injective (first.0 ∷ others.0) ids others.2) ∙ k in
    both (is_listed t.packs ps s) (all (is_listed t.packs ps) ss)
      (id-is_listed t.packs ps s first.0 first.1 (ground (arith, same)))
      (served_ids-all t ps ss others.0 others.1 (ground (arith, same)))

-- What a base tree has that is let through.
abbrev pub IsPaired : Toolchain → List Served → BaseTree → Type 0
IsPaired t served b =
    (all (is_backed t.packs) b.packs ≡ true)
    × (all (λ n. all (is_backed t.packs) n.tree.packs) b.trees ≡ true)
    × (all (is_served served) b.packs ≡ true)
    × (all (is_listed t.packs b.packs) served ≡ true)
    × AllListed (b.umbrella ++ umbrellas_of b.trees) b.umbrella_files

paired-IsPaired :
    (t : Toolchain) (served : List Served) (bt : Json) (b c : BaseTree)
    → paired t served bt b ≡ ok c
    → IsPaired t served c
unfolding paired
paired-IsPaired t served bt b c h =
    let packs = bind_parts (backed t b.packs) _ h in
    let trees = bind_parts (trees_backed t b.trees) _ packs.2 in
    let release = bind_parts (of_release t b.same_release bt) _ trees.2 in
    let ids = bind_parts (served_ids t served) _ release.2 in
    let bytes = bind_parts (all_served t served b.packs) _ ids.2 in
    let listed =
      demand_parts (all (lists_id b.packs) ids.0) "a served pack is not listed" _ bytes.2 in
    let distinct = demand_parts (are_distinct b.packs) "a pack is listed twice" _ listed.1 in
    let carried =
      demand_parts (all (carries_umbrella b.umbrella) b.trees) "umbrella" _ distinct.1 in
    let files = bind_parts (add_files (b.umbrella ++ umbrellas_of b.trees) []) _ carried.1 in
    subst (IsPaired t served) (ok-injective _ c files.2) (
      backed-all t b.packs packs.1,
      trees_backed-all t b.trees trees.1,
      all_served-all t served b.packs bytes.1,
      served_ids-all t b.packs served ids.0 ids.1 listed.0,
      sorted-AllListed _ files.0 (add_files-AllListed _ [] files.0 files.1),
    )

-- A base tree that is let through agrees with the record and with what is served: every pack that it
-- or one of its trees names is a pack of the record with that id and those bytes; its own packs are
-- served with their bytes; every served pack is the record's and one of its own; and every umbrella
-- file of it or of a tree is in the union with its digest and its size, under a path with no other
-- content.
pub base_tree-IsPaired :
    (t : Toolchain) (served : List Served) (bt : Json) (b : BaseTree)
    → base_tree t served bt ≡ ok b
    → IsPaired t served b
unfolding base_tree
base_tree-IsPaired t served bt b h =
    let schema = demand_parts _ "schema" _ h in
    let id = bind_parts (tested "releaseId" is_release_id (get "releaseId" bt)) _ schema.1 in
    let slim = bind_parts (bool_or_refuse "slim" (get "slim" bt)) _ id.2 in
    let packs = bind_parts (pack_list "packs" (get "packs" bt)) _ slim.2 in
    let umbrella = bind_parts (umbrella_list "umbrella" (get "umbrella" bt)) _ packs.2 in
    let olean = demand_parts _ "umbrella does not list the olean" _ umbrella.2 in
    let private = demand_parts _ "umbrella lists the private part" _ olean.1 in
    let trees = bind_parts (trees_of (get "trees" bt)) _ private.1 in
    paired-IsPaired t served bt _ b trees.2
