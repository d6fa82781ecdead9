-- ===== src/Manifest/Runtime.antt =====
-- The runtime's part of `buildReleaseManifest` in pipeline/release/release-manifest.mjs, and the
-- checks of paths that the other parts share.
use Prim.Native.Char.{code}
use Prim.Native.String.{String, ◌++◌ as str_append}
use text.Mathlib.Text.{◌==◌ as str_eq}
use qed.Common.{
  ℕ, zero, suc, ◌+◌, Bool, true, false, ◌&&◌, ◌||◌, Option, none, some, List, [], ◌∷◌, leb, ◌==◌,
  if◌then◌else◌,
}
use qed.Common.Int.{pos}
use qed.Common.Text.{ascii}
use qed.Common.Json.{
  Json, Items, Fields, str, num, arr, obj, nil, cons, end, field, get, text_of, is_text,
}
use qed.Edge.Keys.{after_prefix, starts_with, is_hex, segments}
use qed.Frames.Encoder.{decimal}
use qed.Manifest.Checked.{Checked, ok, refused, ◌>>=◌, ◌>>◌, demand}
use qed.Manifest.Shapes.{tests_digest, is_build_id, is_safe_basename, is_size, is_nonempty}
use qed.Manifest.Record.{Toolchain, text_or_refuse, tested, list_or_refuse, is_filled}
use qed.Manifest.Tree.{text_leb}

-- A file as the manifest lists it.
pub record Listed : Type 0 where
  pub path : String
  pub sha : Option Json
  pub bytes : ℕ

pub record RuntimeFile : Type 0 where
  pub name : String
  pub sha : Option Json
  pub bytes : ℕ
  pub chunks : List Listed

pub record Runtime : Type 0 where
  pub build_id : String
  pub lean : String
  pub target : String
  pub revision : String
  pub files : List RuntimeFile

abbrev pub base_or_refuse : String → Option String → Checked String
base_or_refuse why none = refused why
base_or_refuse why (some base) = do demand (is_safe_basename base) why; ok base

-- `servedPath`
unfoldable pub served_path : String → String → Option Json → Checked String
served_path why dir url = do
  text ← text_or_refuse why url
  base ← base_or_refuse why (after_prefix (str_append "/" (str_append dir "/")) text)
  ok (str_append dir (str_append "/" base))

-- `s.slice(0, n)`
abbrev pub start_of : ℕ → String → String
start_of zero s = ""
start_of (suc n) String.[] = ""
start_of (suc n) (String.◌∷◌ c s) = String.◌∷◌ c (start_of n s)

-- `s.includes(part)`
unfoldable pub includes : String → String → Bool
includes part String.[] = str_eq part ""
includes part (String.◌∷◌ c s) =
    let later = includes part s in starts_with part (String.◌∷◌ c s) || later

abbrev pub last_of : List String → String
last_of [] = ""
last_of (s ∷ []) = s
last_of (_ ∷ s ∷ ss) = last_of (s ∷ ss)

-- A list of one text, as that text.
abbrev mutual
  pub as_text : Json → String
  as_text (str s) = s
  as_text (arr xs) = items_text xs
  as_text _ = ""

  pub items_text : Items → String
  items_text (cons x nil) = as_text x
  items_text _ = ""

-- `sha.slice(0, 16)` as text
abbrev pub hash_start : Option Json → String
hash_start none = ""
hash_start (some (str s)) = start_of 16 s
hash_start (some j) = as_text j

-- `requireContentAddressed`
unfoldable pub is_content_addressed : String → Option Json → Bool
is_content_addressed p sha = includes (hash_start sha) (last_of (segments p))

-- A size, or a refusal.
abbrev pub sized : String → Option Json → Checked ℕ
sized why (some (num (pos n))) = do demand (is_size (some (num (pos n)))) why; ok n
sized why _ = refused why

-- How many hexadecimal digits stand at the front, and those digits.
abbrev pub hex_front : String → String
hex_front String.[] = ""
hex_front (String.◌∷◌ c s) =
    let rest = hex_front s in if is_hex (code c) then String.◌∷◌ c rest else ""

abbrev pub text_size : String → ℕ
text_size String.[] = 0
text_size (String.◌∷◌ c s) = suc (text_size s)

-- The digits behind the first "@" that has 7 to 40 of them.
unfoldable pub revision_commit : String → Option String
revision_commit String.[] = none
revision_commit (String.◌∷◌ c s) =
    let later = revision_commit s in
    if code c == b'@' && leb 7 (text_size (hex_front s)) && leb (text_size (hex_front s)) 40
    then some (hex_front s)
    else later

abbrev pub commit_or_refuse : Option String → Checked String
commit_or_refuse none = refused "sourceRevision names no kernel commit"
commit_or_refuse (some c) = ok c

abbrev pub chunk : Json → Checked Listed
chunk c = do
  p ← served_path "chunk" "runtime/chunks" (get "url" c)
  demand (tests_digest (get "sha256" c)) "chunk"
  bytes ← sized "chunk" (get "bytes" c)
  demand (is_content_addressed p (get "sha256" c)) "chunk is not content-addressed"
  ok (record { path = p; sha = get "sha256" c; bytes = bytes })

abbrev pub chunks_of : List Json → Checked (List Listed)
chunks_of [] = ok []
chunks_of (c ∷ cs) = do first ← chunk c; rest ← chunks_of cs; ok (first ∷ rest)

abbrev pub sum_of : List Listed → ℕ
sum_of [] = 0
sum_of (c ∷ cs) = c.bytes + sum_of cs

abbrev pub runtime_file : String → Json → Checked RuntimeFile
runtime_file name f = do
  demand (tests_digest (get "sha256" f)) "file"
  bytes ← sized "file" (get "bytes" f)
  listed ← list_or_refuse "no chunks" (get "chunks" f)
  demand (is_filled listed) "no chunks"
  chunks ← chunks_of listed
  demand (sum_of chunks == bytes) "chunks do not sum to the file"
  ok (record { name = name; sha = get "sha256" f; bytes = bytes; chunks = chunks })

-- `Object.keys(…).sort(byteOrder)`, with the values
abbrev pub insert_field : String → Json → Fields → Fields
insert_field k v end = field k v end
insert_field k v (field j w fs) =
    let rest = insert_field k v fs in
    if text_leb k j then field k v (field j w fs) else field j w rest

abbrev pub sort_fields : Fields → Fields
sort_fields end = end
sort_fields (field k v fs) = insert_field k v (sort_fields fs)

abbrev pub indexed : ℕ → Items → Fields
indexed n nil = end
indexed n (cons x xs) = field (ascii (decimal n)) x (indexed (n + 1) xs)

abbrev pub fields_of : Option Json → Fields
fields_of (some (obj fs)) = fs
fields_of (some (arr xs)) = indexed 0 xs
fields_of _ = end

abbrev pub has_fields : Fields → Bool
has_fields end = false
has_fields (field _ _ _) = true

abbrev pub runtime_files : Fields → Checked (List RuntimeFile)
runtime_files end = ok []
runtime_files (field name f fs) = do
  first ← runtime_file name f
  rest ← runtime_files fs
  ok (first ∷ rest)

abbrev pub text_or_empty : Option String → String
text_or_empty none = ""
text_or_empty (some s) = s

unfoldable pub runtime_section : Toolchain → Json → Checked Runtime
runtime_section t rt = do
  demand (is_text (get "schema" rt) "org.lean-browser64.runtime/v1") "runtime schema"
  build_id ← tested "buildId" is_build_id (get "buildId" rt)
  lean ← tested "leanVersion" is_nonempty (get "leanVersion" rt)
  target ← tested "target" is_nonempty (get "target" rt)
  let revision = text_or_empty (text_of (get "sourceRevision" rt))
  built ← commit_or_refuse (revision_commit revision)
  demand (str_eq t.build_id build_id) "the record names another runtime"
  demand (starts_with built t.commit) "the runtime was built from another kernel"
  let files = sort_fields (fields_of (get "files" rt))
  demand (has_fields files) "no files"
  listed ← runtime_files files
  ok (record {
    build_id = build_id;
    lean = lean;
    target = target;
    revision = revision;
    files = listed;
  })
