-- ===== src/Edge/Release.antt =====
-- The release record of infra/edge-worker.js: its checks, and the bucket keys of the paths under its
-- mount. A `TypeError` that the source throws is `none`.
use Prim.Native.Char.{code}
use Prim.Native.String.{String, ◌++◌ as str_append}
use text.Mathlib.Text.{◌==◌ as str_eq}
use qed.Common.{
  ℕ, Bool, false, not, ◌&&◌, ◌||◌, Option, none, some, List, [], ◌∷◌, leb, ◌==◌, if◌then◌else◌,
}
use qed.Common.Lists.{any}
use qed.Common.Json.{Json, Fields, null, arr, obj, end, field, get, to_list, text_of, is_some}
use qed.FrontDoor.Words.{utf16_length}
use qed.Edge.Keys.{
  after_prefix, starts_with, ends_with, all_chars, artifact_key, is_hex, hex_run, is_name_char,
}

pub record Mount : Type 0 where
  pub url : String
  pub dir : String

pub record Routes : Type 0 where
  pub id : String
  pub prefix : String
  pub mount : List Mount
  pub site_owned : List String

abbrev pub release_root : String
release_root = "lean4-wasm64/"

-- The `min` digits or more that a text consists of.
abbrev pub is_digits : String → Bool
is_digits s = not (str_eq s "") && all_chars (λ c. leb 0x30 c && leb c 0x39) s

-- A text cut at a character.
abbrev pub cut_char : ℕ → String → List String → List String
cut_char c s [] = s ∷ []
cut_char c s (x ∷ xs) = str_append s x ∷ xs

unfoldable pub split_at : ℕ → String → List String
split_at sep String.[] = "" ∷ []
split_at sep (String.◌∷◌ c s) =
    let rest = split_at sep s in
    if code c == sep then "" ∷ rest else cut_char (code c) (String.◌∷◌ c String.[]) rest

abbrev pub three_numbers : List String → Bool
three_numbers (a ∷ b ∷ c ∷ []) = is_digits a && is_digits b && is_digits c
three_numbers _ = false

abbrev pub opt_test : (String → Bool) → Option String → Bool
opt_test p none = false
opt_test p (some s) = p s

-- `v\d+\.\d+\.\d+`
abbrev pub is_version : String → Bool
is_version s = opt_test (λ v. three_numbers (split_at b'.' v)) (after_prefix "v" s)

-- `[0-9a-z.]+`
abbrev pub is_suffix : String → Bool
is_suffix s =
    not (str_eq s "")
    && all_chars (λ c. (leb 0x30 c && leb c 0x39) || (leb 0x61 c && leb c 0x7a) || c == b'.') s

-- `[0-9a-f]{7}`
abbrev pub is_kernel : String → Bool
is_kernel s = utf16_length s == 7 && all_chars is_hex s

-- `r\d+`
abbrev pub is_revision : String → Bool
is_revision s = opt_test is_digits (after_prefix "r" s)

-- The parts of a release id between its dashes; no part holds a dash.
abbrev pub id_parts : List String → Bool
id_parts (l ∷ v ∷ k ∷ []) = str_eq l "lean" && is_version v && is_kernel k
id_parts (l ∷ v ∷ a ∷ b ∷ []) =
    str_eq l "lean"
    && is_version v
    && ((is_suffix a && is_kernel b) || (is_kernel a && is_revision b))
id_parts (l ∷ v ∷ s ∷ k ∷ r ∷ []) =
    str_eq l "lean" && is_version v && is_suffix s && is_kernel k && is_revision r
id_parts _ = false

-- /[0-9a-f]{16,}/
unfoldable pub has_hash : String → Bool
has_hash String.[] = false
has_hash (String.◌∷◌ c s) = let later = has_hash s in hex_run 16 (String.◌∷◌ c s) || later

unfoldable pub valid_id : String → Bool
unfolding split_at has_hash
valid_id id = id_parts (split_at b'-' id) && not (has_hash id)

-- /^[A-Za-z0-9._-]+\/$/, and neither "./" nor "../"
abbrev pub closed_name : List String → Bool
closed_name (n ∷ e ∷ []) = not (str_eq n "") && all_chars is_name_char n && str_eq e ""
closed_name _ = false

abbrev pub valid_dir : String → Bool
valid_dir dir = closed_name (split_at b'/' dir) && not (str_eq dir "./") && not (str_eq dir "../")

abbrev pub add_mount : String → Option String → Option (List Mount) → Option (List Mount)
add_mount url (some dir) (some ms) = some (record { url = url; dir = dir } ∷ ms)
add_mount url _ _ = none

-- The loop over `Object.entries(m)`.
abbrev pub mounts_of : List String → Fields → Option (List Mount)
mounts_of prefixes end = some []
mounts_of prefixes (field url j fs) =
    let rest = mounts_of prefixes fs in
    if any (str_eq url) prefixes && opt_test valid_dir (text_of (some j))
    then add_mount url (text_of (some j)) rest
    else none

-- The longest prefix first; equal ones keep their order.
abbrev pub insert_mount : Mount → List Mount → List Mount
insert_mount m [] = m ∷ []
insert_mount m (x ∷ xs) =
    let rest = insert_mount m xs in
    if leb (utf16_length x.url) (utf16_length m.url) then m ∷ x ∷ xs else x ∷ rest

abbrev pub sort_mounts : List Mount → List Mount
sort_mounts [] = []
sort_mounts (m ∷ ms) = insert_mount m (sort_mounts ms)

abbrev pub mount_of : List String → Option Json → Option (List Mount)
mount_of prefixes (some (obj (field k v fs))) = mounts_of prefixes (field k v fs)
mount_of prefixes _ = none

abbrev pub valid_site_path : List String → String → Bool
valid_site_path prefixes p =
    is_some (artifact_key (if ends_with "/" p then str_append p "x" else p) "")
    && any (λ a. starts_with a p) prefixes

abbrev pub add_path : Option String → Option (List String) → Option (List String)
add_path (some p) (some ps) = some (p ∷ ps)
add_path _ _ = none

abbrev pub site_paths : List String → List Json → Option (List String)
site_paths prefixes [] = some []
site_paths prefixes (j ∷ js) =
    let rest = site_paths prefixes js in
    if opt_test (valid_site_path prefixes) (text_of (some j))
    then add_path (text_of (some j)) rest
    else none

-- `h.siteOwned ?? []`
abbrev pub site_owned_of : List String → Option Json → Option (List String)
site_owned_of prefixes none = some []
site_owned_of prefixes (some null) = some []
site_owned_of prefixes (some (arr xs)) = site_paths prefixes (to_list xs)
site_owned_of prefixes _ = none

abbrev pub routes_of : String → Option (List Mount) → Option (List String) → Option Routes
routes_of id (some ms) (some ps) = some (record {
  id = id;
  prefix = str_append release_root (str_append id "/");
  mount = sort_mounts ms;
  site_owned = ps;
})
routes_of id _ _ = none

abbrev pub hosted : List String → String → Option Json → Option Routes
hosted prefixes id (some (obj h)) =
    if opt_test (str_eq "served") (text_of (get "layout" (obj h)))
    then routes_of id (mount_of prefixes (get "mount" (obj h)))
        (site_owned_of prefixes (get "siteOwned" (obj h)))
    else none
hosted prefixes id _ = none

abbrev pub identified : List String → Json → Option String → Option Routes
identified prefixes j none = none
identified prefixes j (some id) = if valid_id id then hosted prefixes id (get "hosting" j) else none

unfoldable pub release_routes : Json → List String → Option Routes
unfolding valid_id
release_routes j prefixes =
    if opt_test (str_eq "lean4-wasm64.release/v1") (text_of (get "schema" j))
    then identified prefixes j (text_of (get "id" j))
    else none

-- A path that the deployment serves itself.
abbrev pub is_site_owned : List String → String → Bool
is_site_owned owned pathname =
    any (λ p. if ends_with "/" p then starts_with p pathname else str_eq pathname p) owned

-- The key under the first mount that fits.
abbrev pub mounted_at : Option String → String → Option String → Option String
mounted_at (some rest) dir later = some (str_append dir rest)
mounted_at none dir later = later

abbrev pub mounted : List Mount → String → Option String
mounted [] pathname = none
mounted (m ∷ ms) pathname =
    let later = mounted ms pathname in mounted_at (after_prefix m.url pathname) m.dir later

unfoldable pub release_rel : Routes → String → Option String
release_rel routes pathname =
    if is_site_owned routes.site_owned pathname then none else mounted routes.mount pathname
