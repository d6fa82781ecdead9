-- ===== src/Edge/Mounts.antt =====
-- Which mount of the release record maps a path (infra/edge-worker.js, `releaseRel`).
use Prim.Native.String.{String, ◌++◌ as str_append}
use text.Mathlib.Text.{◌==◌ as str_eq}
use text.Mathlib.TextPositions.{eq_refl}
use qed.Common.{
  ℕ, ◌≤◌, ◌≡◌, refl, sym, ap, ◌∙◌, Bool, true, false, not, ◌&&◌, ◌||◌, Option, none, some, List, [],
  ◌∷◌, leb, arith, if_rule,
}
use qed.Common.Lists.{any, all}
use qed.Common.Json.{Json, null, bool, num, str, arr, obj, get, text_of}
use qed.FrontDoor.Words.{utf16_length}
use qed.Edge.Keys.{after_prefix, starts_with}
use qed.Edge.Release.{
  Mount, Routes, insert_mount, sort_mounts, mounted_at, mounted, is_site_owned, release_rel,
  release_routes, routes_of, hosted, identified, opt_test, mount_of, site_owned_of, valid_id,
}

abbrev none_longer : ℕ → List Mount → Bool
none_longer n ms = all (λ m. leb (utf16_length m.url) n) ms

abbrev is_sorted : List Mount → Bool
is_sorted [] = true
is_sorted (m ∷ ms) = none_longer (utf16_length m.url) ms && is_sorted ms

none_longer-weaken :
    (a b : ℕ) (ms : List Mount) → a ≤ b → none_longer a ms ≡ true → none_longer b ms ≡ true
none_longer-weaken a b [] h k = refl
none_longer-weaken a b (m ∷ ms) h k = ground (arith, none_longer-weaken a b ms h)

none_longer-insert_mount :
    (n : ℕ) (m : Mount) (ms : List Mount)
    → leb (utf16_length m.url) n ≡ true
    → none_longer n ms ≡ true
    → none_longer n (insert_mount m ms) ≡ true
none_longer-insert_mount n m [] h k = rw (h) refl
none_longer-insert_mount n m (x ∷ xs) h k = ground (arith, none_longer-insert_mount n m xs h)

insert_mount-is_sorted :
    (m : Mount) (ms : List Mount) → is_sorted ms ≡ true → is_sorted (insert_mount m ms) ≡ true
insert_mount-is_sorted m [] h = refl
insert_mount-is_sorted m (x ∷ xs) h = ground (
  arith,
  insert_mount-is_sorted m xs,
  none_longer-weaken (utf16_length x.url) (utf16_length m.url) xs,
  none_longer-insert_mount (utf16_length x.url) m xs,
)

sort_mounts-is_sorted : (ms : List Mount) → is_sorted (sort_mounts ms) ≡ true
sort_mounts-is_sorted [] = refl
sort_mounts-is_sorted (m ∷ ms) =
    insert_mount-is_sorted m (sort_mounts ms) (sort_mounts-is_sorted ms)

-- The mount that maps a path, and no mount that fits the path has a longer prefix.
pub record IsBest (ms : List Mount) (pathname key : String) : Type 0 where
  pub mount : Mount
  pub rest : String
  pub among : any (λ m. str_eq m.url mount.url && str_eq m.dir mount.dir) ms ≡ true
  pub fits : after_prefix mount.url pathname ≡ some rest
  pub is_key : key ≡ str_append mount.dir rest
  pub longest :
      all
        (λ m. not (starts_with m.url pathname) || leb (utf16_length m.url) (utf16_length mount.url))
        ms
      ≡ true

longest_of :
    (pathname : String) (n : ℕ) (ms : List Mount)
    → none_longer n ms ≡ true
    → all (λ m. not (starts_with m.url pathname) || leb (utf16_length m.url) n) ms ≡ true
longest_of pathname n [] h = refl
longest_of pathname n (m ∷ ms) h = ground (arith, longest_of pathname n ms)

some_same : (a b : String) → some a ≡ some b → a ≡ b
some_same a b e = cc

mounted-IsBest :
    (ms : List Mount) (pathname key : String)
    → is_sorted ms ≡ true
    → mounted ms pathname ≡ some key
    → IsBest ms pathname key
mounted-IsBest [] pathname key h e = absurd cc
mounted-IsBest (m ∷ ms) pathname key h e =
    by_fit (after_prefix m.url pathname) refl e
      λ k. mounted-IsBest ms pathname key (ground (arith, h)) k
  where
    by_fit :
        (o : Option String)
        → after_prefix m.url pathname ≡ o
        → mounted_at o m.dir (mounted ms pathname) ≡ some key
        → (mounted ms pathname ≡ some key → IsBest ms pathname key)
        → IsBest (m ∷ ms) pathname key
    by_fit (some rest) f k later = record {
      mount = m;
      rest = rest;
      among = ground (arith, eq_refl m.url, eq_refl m.dir);
      fits = f;
      is_key = sym (some_same (str_append m.dir rest) key k);
      longest = ground (arith, h, longest_of pathname (utf16_length m.url) ms);
    }
    by_fit none f k later =
        let b = later k in
        record {
          mount = b.mount;
          rest = b.rest;
          among = ground (arith, b.among);
          fits = b.fits;
          is_key = b.is_key;
          longest = rw (f) b.longest;
        }

abbrev sorted_routes : Option Routes → Bool
sorted_routes none = true
sorted_routes (some r) = is_sorted r.mount

routes_of-sorted_routes :
    (id : String) (ms : Option (List Mount)) (ps : Option (List String))
    → sorted_routes (routes_of id ms ps) ≡ true
routes_of-sorted_routes id (some ms) (some ps) = sort_mounts-is_sorted ms
routes_of-sorted_routes id none ps = refl
routes_of-sorted_routes id (some ms) none = refl

hosted-sorted_routes :
    (prefixes : List String) (id : String) (o : Option Json)
    → sorted_routes (hosted prefixes id o) ≡ true
hosted-sorted_routes prefixes id (some (obj h)) =
    if_rule (λ x. sorted_routes x ≡ true)
      (opt_test (str_eq "served") (text_of (get "layout" (obj h))))
      (routes_of id (mount_of prefixes (get "mount" (obj h)))
        (site_owned_of prefixes (get "siteOwned" (obj h))))
      none
      (λ _.
        routes_of-sorted_routes id (mount_of prefixes (get "mount" (obj h)))
          (site_owned_of prefixes (get "siteOwned" (obj h))))
      λ _. refl
hosted-sorted_routes prefixes id none = refl
hosted-sorted_routes prefixes id (some null) = refl
hosted-sorted_routes prefixes id (some (bool _)) = refl
hosted-sorted_routes prefixes id (some (num _)) = refl
hosted-sorted_routes prefixes id (some (str _)) = refl
hosted-sorted_routes prefixes id (some (arr _)) = refl

identified-sorted_routes :
    (prefixes : List String) (j : Json) (o : Option String)
    → sorted_routes (identified prefixes j o) ≡ true
identified-sorted_routes prefixes j none = refl
identified-sorted_routes prefixes j (some id) =
    if_rule (λ x. sorted_routes x ≡ true) (valid_id id) (hosted prefixes id (get "hosting" j)) none
      (λ _. hosted-sorted_routes prefixes id (get "hosting" j)) λ _. refl

release_routes-sorted_routes :
    (j : Json) (prefixes : List String) → sorted_routes (release_routes j prefixes) ≡ true
unfolding release_routes
release_routes-sorted_routes j prefixes =
    if_rule (λ x. sorted_routes x ≡ true)
      (opt_test (str_eq "lean4-wasm64.release/v1") (text_of (get "schema" j)))
      (identified prefixes j (text_of (get "id" j))) none
      (λ _. identified-sorted_routes prefixes j (text_of (get "id" j))) λ _. refl

-- A path that a checked release record maps is not the site's own, and its key is that of a mount
-- that fits it, of which the prefix is the longest: no other mount that fits has a longer one.
pub release_rel-IsBest :
    (j : Json) (prefixes : List String) (routes : Routes) (pathname key : String)
    → release_routes j prefixes ≡ some routes
    → release_rel routes pathname ≡ some key
    → (is_site_owned routes.site_owned pathname ≡ false) × IsBest routes.mount pathname key
unfolding release_rel
release_rel-IsBest j prefixes routes pathname key made =
    if_rule
      (λ x.
        x ≡ some key
        → (is_site_owned routes.site_owned pathname ≡ false) × IsBest routes.mount pathname key)
      (is_site_owned routes.site_owned pathname) none (mounted routes.mount pathname)
      (λ _ e. absurd cc)
      λ mapped e. (
        mapped,
        mounted-IsBest routes.mount pathname key
            (sym (ap sorted_routes made) ∙ release_routes-sorted_routes j prefixes) e,
      )
