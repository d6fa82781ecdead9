-- ===== src/Manifest/Pinned.antt =====
-- The runtime and the snapshots that pipeline/release/release-manifest.mjs lets through.
use Prim.Native.String.{String}
use text.Mathlib.Text.{◌==◌ as str_eq}
use text.Mathlib.TextPositions.{eq_refl}
use qed.Common.{
  ◌≡◌, sym, ap, subst, ◌∙◌, Bool, true, false, not, ◌&&◌, Option, none, some, List, [], ◌∷◌, ◌==◌,
}
use qed.Common.Lists.{any, all}
use qed.Common.Json.{
  Json, Fields, end, field, null, bool, num, arr, obj, text_of, str, get, is_text,
}
use qed.Edge.Keys.{starts_with, segments}
use qed.Manifest.Checked.{ok, bind_parts, demand_parts}
use qed.Manifest.Shapes.{strip, tests_digest, is_build_id, is_nonempty}
use qed.Manifest.Record.{Toolchain, list_or_refuse, is_filled, tested}
use qed.Manifest.Tree.{stripped}
use qed.Manifest.Runtime.{
  start_of, includes, last_of, as_text, Listed, RuntimeFile, Runtime, served_path,
  is_content_addressed, sized, revision_commit, commit_or_refuse, chunk, chunks_of, sum_of,
  runtime_file, runtime_files, runtime_section, sort_fields, fields_of, text_or_empty,
}
use qed.Manifest.Indexes.{Snapshot, texts_of, snapshot, snapshots_of, snapshot_section}
use qed.Manifest.Vetted.{ok-injective}
use qed.Manifest.Backed.{both}

-- A text begins with the commit that is named, where one is.
abbrev pub any_start : Option String → String → Bool
any_start none s = false
any_start (some c) s = starts_with c s

started :
    (r : Option String) (c s : String)
    → commit_or_refuse r ≡ ok c
    → starts_with c s ≡ true
    → any_start r s ≡ true
started none c s h k = cc
started (some d) c s h k = ap (λ x. starts_with x s) (ok-injective d c h) ∙ k

-- The last part of a path holds the first 16 digits of a digest.
abbrev pub is_named : String → Option Json → Bool
is_named p none = false
is_named p (some (str s)) = includes (start_of 16 s) (last_of (segments p))
is_named p (some j) = includes (as_text j) (last_of (segments p))

addressed-is_named :
    (p : String) (sha : Option Json)
    → tests_digest sha ≡ true
    → is_content_addressed p sha ≡ true
    → is_named p sha ≡ true
unfolding is_content_addressed
addressed-is_named p none d h = d
addressed-is_named p (some (str s)) d h = h
addressed-is_named p (some null) d h = h
addressed-is_named p (some (bool _)) d h = h
addressed-is_named p (some (num _)) d h = h
addressed-is_named p (some (arr _)) d h = h
addressed-is_named p (some (obj _)) d h = h

-- A chunk with a digest that its name holds.
abbrev pub is_chunk : Listed → Bool
is_chunk c = tests_digest c.sha && is_named c.path c.sha

-- Every file of the runtime is the sum of its chunks, and their names hold their digests.
abbrev pub is_whole : RuntimeFile → Bool
is_whole f = sum_of f.chunks == f.bytes && all is_chunk f.chunks

chunks_of-addressed :
    (js : List Json) (cs : List Listed) → chunks_of js ≡ ok cs → all is_chunk cs ≡ true
chunks_of-addressed [] cs h = ap (all is_chunk) (sym (ok-injective [] cs h))
chunks_of-addressed (j ∷ js) cs h =
    let first = bind_parts (chunk j) _ h in
    let others = bind_parts (chunks_of js) _ first.2 in
    subst (λ cs. all is_chunk cs ≡ true) (ok-injective (first.0 ∷ others.0) cs others.2)
      (both _ _ (one first.0 first.1) (chunks_of-addressed js others.0 others.1))
  where
    one : (c : Listed) → chunk j ≡ ok c → is_chunk c ≡ true
    one c e =
        let path = bind_parts (served_path "chunk" "runtime/chunks" (get "url" j)) _ e in
        let digest = demand_parts (tests_digest (get "sha256" j)) "chunk" _ path.2 in
        let bytes = bind_parts (sized "chunk" (get "bytes" j)) _ digest.1 in
        let named = demand_parts (is_content_addressed path.0 (get "sha256" j)) _ _ bytes.2 in
        subst (λ c. is_chunk c ≡ true) (ok-injective _ c named.1)
          (both _ _ digest.0 (addressed-is_named path.0 (get "sha256" j) digest.0 named.0))

runtime_file-is_whole :
    (name : String) (j : Json) (f : RuntimeFile) → runtime_file name j ≡ ok f → is_whole f ≡ true
runtime_file-is_whole name j f h =
    let digest = demand_parts (tests_digest (get "sha256" j)) "file" _ h in
    let bytes = bind_parts (sized "file" (get "bytes" j)) _ digest.1 in
    let listed = bind_parts (list_or_refuse "no chunks" (get "chunks" j)) _ bytes.2 in
    let filled = demand_parts (is_filled listed.0) "no chunks" _ listed.2 in
    let chunks = bind_parts (chunks_of listed.0) _ filled.1 in
    let sum = demand_parts (sum_of chunks.0 == bytes.0) _ _ chunks.2 in
    subst (λ f. is_whole f ≡ true) (ok-injective _ f sum.1)
      (both (sum_of chunks.0 == bytes.0) _ sum.0 (chunks_of-addressed listed.0 chunks.0 chunks.1))

runtime_files-is_whole :
    (fs : Fields) (files : List RuntimeFile)
    → runtime_files fs ≡ ok files
    → all is_whole files ≡ true
runtime_files-is_whole end files h = ap (all is_whole) (sym (ok-injective [] files h))
runtime_files-is_whole (field name j fs) files h =
    let first = bind_parts (runtime_file name j) _ h in
    let others = bind_parts (runtime_files fs) _ first.2 in
    subst (λ fs. all is_whole fs ≡ true) (ok-injective (first.0 ∷ others.0) files others.2)
      (both (is_whole first.0) (all is_whole others.0)
        (runtime_file-is_whole name j first.0 first.1)
        (runtime_files-is_whole fs others.0 others.1))

-- The runtime is the record's, and its files are whole.
abbrev pub IsPinned : Toolchain → Runtime → Type 0
IsPinned t rt =
    (str_eq t.build_id rt.build_id ≡ true)
    × (any_start (revision_commit rt.revision) t.commit ≡ true)
    × (all is_whole rt.files ≡ true)

pub runtime_section-IsPinned :
    (t : Toolchain) (j : Json) (rt : Runtime) → runtime_section t j ≡ ok rt → IsPinned t rt
unfolding runtime_section
runtime_section-IsPinned t j rt h =
    let schema = demand_parts _ "runtime schema" _ h in
    let build = bind_parts (tested "buildId" is_build_id (get "buildId" j)) _ schema.1 in
    let lean = bind_parts (tested "leanVersion" is_nonempty (get "leanVersion" j)) _ build.2 in
    let target = bind_parts (tested "target" is_nonempty (get "target" j)) _ lean.2 in
    let revision = text_or_empty (text_of (get "sourceRevision" j)) in
    let built = bind_parts (commit_or_refuse (revision_commit revision)) _ target.2 in
    let same = demand_parts (str_eq t.build_id build.0) _ _ built.2 in
    let kernel = demand_parts (starts_with built.0 t.commit) _ _ same.1 in
    let filled = demand_parts _ "no files" _ kernel.1 in
    let files = bind_parts (runtime_files (sort_fields (fields_of (get "files" j)))) _ filled.1 in
    subst (IsPinned t) (ok-injective _ rt files.2) (
      same.0,
      started (revision_commit revision) built.0 t.commit built.1 kernel.0,
      runtime_files-is_whole (sort_fields (fields_of (get "files" j))) files.0 files.1,
    )

-- Every snapshot is of one runtime.
abbrev pub are_paired : String → List Snapshot → Bool
are_paired build_id [] = true
are_paired build_id (s ∷ ss) =
    str_eq s.runtime build_id && is_named s.path (some (str s.sha)) && are_paired build_id ss

snapshot-paired :
    (build_id : String) (seen : List String) (j : Json) (s : Snapshot)
    → snapshot build_id seen j ≡ ok s
    → (str_eq s.runtime build_id && is_named s.path (some (str s.sha))) ≡ true
unfolding is_content_addressed
snapshot-paired build_id seen j s h =
    let test : String → Bool = λ s. is_nonempty s && not (any (str_eq s) seen) in
    let name = bind_parts (tested "snapshot name" test (get "name" j)) _ h in
    let path = bind_parts (served_path "snapshot" "snapshots" (get "url" j)) _ name.2 in
    let sha = bind_parts (stripped "snapshot digest" (strip (get "digest" j))) _ path.2 in
    let named = demand_parts (is_content_addressed path.0 (some (str sha.0))) _ _ sha.2 in
    let transfer = bind_parts (sized "transfer" (get "transfer" j)) _ named.1 in
    let bytes = bind_parts (sized "bytes" (get "bytes" j)) _ transfer.2 in
    let listed = bind_parts (list_or_refuse "imports" (get "imports" j)) _ bytes.2 in
    let imports = bind_parts (texts_of listed.0) _ listed.2 in
    let runtime = demand_parts (is_text (get "runtime" j) build_id) _ _ imports.2 in
    subst (λ s. (str_eq s.runtime build_id && is_named s.path (some (str s.sha))) ≡ true)
      (ok-injective _ s runtime.1) (both _ _ (eq_refl build_id) named.0)

snapshots_of-are_paired :
    (build_id : String) (seen : List String) (js : List Json) (ss : List Snapshot)
    → snapshots_of build_id seen js ≡ ok ss
    → are_paired build_id ss ≡ true
snapshots_of-are_paired build_id seen [] ss h =
    ap (are_paired build_id) (sym (ok-injective [] ss h))
snapshots_of-are_paired build_id seen (j ∷ js) ss h =
    let first = bind_parts (snapshot build_id seen j) _ h in
    let others = bind_parts (snapshots_of build_id (first.0.name ∷ seen) js) _ first.2 in
    subst (λ ss. are_paired build_id ss ≡ true) (ok-injective (first.0 ∷ others.0) ss others.2)
      (both _ _ (snapshot-paired build_id seen j first.0 first.1)
        (snapshots_of-are_paired build_id (first.0.name ∷ seen) js others.0 others.1))

pub snapshot_section-are_paired :
    (build_id : String) (j : Json) (ss : List Snapshot)
    → snapshot_section build_id j ≡ ok ss
    → are_paired build_id ss ≡ true
unfolding snapshot_section
snapshot_section-are_paired build_id j ss h =
    let schema = demand_parts _ "snapshot schema" _ h in
    let listed = bind_parts (list_or_refuse "snapshots" (get "snapshots" j)) _ schema.1 in
    snapshots_of-are_paired build_id [] listed.0 ss listed.2
