-- ===== src/Edge/Answers.antt =====
-- The leaves of `serveArtifact` of infra/edge-worker.js, and the headers that `finish` sets.
use Prim.Native.String.{String, ◌++◌ as str_append}
use text.Mathlib.Text.{◌==◌ as str_eq}
use text.Mathlib.TextEquality.{eq_iff}
use text.Mathlib.TextPositions.{eq_refl}
use qed.Common.{
  ◌≡◌, refl, ◌⊎◌, inl, inr, Bool, true, false, not, ◌&&◌, Option, none, some, [], ◌∷◌, arith,
  if◌then◌else◌, if_rule,
}
use qed.Common.Json.{is_some}
use qed.Edge.Keys.{artifact_key, valid_r2_prefix}
use qed.Edge.Range.{Spec, Returned, resolve_range}
use qed.Edge.Release.{Routes}
use qed.Edge.Headers.{Headers, set_header, get_header, Answer}
use qed.Edge.Serve.{
  done, error_cache, miss, head_answer, found_object, object_answer, get_answer, found_head,
  read_answer, unsatisfiable, is_other, preflight, with_spec, serve_keys, allowed, serve_allowed,
  serve_unmapped, serve_at, rel_of, serve_artifact, ranged_headers, allow_header,
}
use qed.Edge.Store.{
  Meta, Object, Bucket, Config, Request, plain, Keys, lookup_keys, text_or, slice_one,
}

pub get-set_header : (n v : String) (hs : Headers) → get_header n (set_header n v hs) ≡ some v
get-set_header n v [] = ground (arith, eq_refl n)
get-set_header n v (h ∷ hs) = ground (arith, eq_refl n, get-set_header n v hs)

pub get-set_header_other :
    (n m v : String) (hs : Headers)
    → str_eq m n ≡ false
    → get_header n (set_header m v hs) ≡ get_header n hs
get-set_header_other n m v [] e = ground arith
get-set_header_other n m v (h ∷ hs) e =
    ground (arith, eq_iff h.name m, eq_iff h.name n, eq_iff m n, get-set_header_other n m v hs e)

-- No cache policy, or the one of errors that are not kept.
abbrev pub IsErrorCache : Option String → Type 0
IsErrorCache c = (c ≡ none) ⊎ (c ≡ some "no-store")

-- What holds of every answer that is finished without a policy or as not to be stored holds of the
-- answer of `serveArtifact`.
module _ (cfg : Config) (bucket : Bucket) (request : Request) (pathname : String)
    (Q : Answer → Type 0)
    (finished : (r : Answer) (c : Option String)
      → IsErrorCache c
      → Q (done cfg bucket request pathname r c)) where
  miss-holds : (mapped : Bool) → Q (miss cfg bucket request pathname mapped)
  miss-holds true = finished (plain 404 "not found") (some "no-store") (inr refl)
  miss-holds false = finished (plain 404 "not found") none (inl refl)

  object-holds :
      (spec : Option Spec) (r : Option Returned) (o : Object)
      → Q (object_answer cfg bucket request pathname spec r o)
  object-holds (some spec) (some r) o = finished _ none (inl refl)
  object-holds none r o = finished _ none (inl refl)
  object-holds (some spec) none o = finished _ none (inl refl)

  get_answer-holds :
      (mapped : Bool) (spec : Option Spec) (keys : Keys)
      → Q (get_answer cfg bucket request pathname mapped spec keys)
  unfolding get_answer
  get_answer-holds mapped spec keys =
      found
        (lookup_keys (λ k. bucket.get k (ranged_headers cfg bucket request pathname spec)) keys).0
    where
      found : (o : Option Object) → Q (found_object cfg bucket request pathname mapped spec o)
      found none = miss-holds mapped
      found (some o) = object-holds spec o.range o

  found_head-holds :
      (mapped : Bool) (o : Option Meta) → Q (found_head cfg bucket request pathname mapped o)
  unfolding head_answer
  found_head-holds mapped none = miss-holds mapped
  found_head-holds mapped (some meta) = finished _ none (inl refl)

  read_answer-holds :
      (mapped : Bool) (spec : Option Spec) (keys : Keys)
      → Q (read_answer cfg bucket request pathname mapped spec keys)
  unfolding read_answer
  read_answer-holds mapped spec keys =
      if_rule Q (str_eq request.method "HEAD" && cfg.artifact_head_metadata)
        (found_head cfg bucket request pathname mapped (lookup_keys bucket.head keys).0)
        (get_answer cfg bucket request pathname mapped spec keys)
        (λ _. found_head-holds mapped (lookup_keys bucket.head keys).0)
        λ _. get_answer-holds mapped spec keys

  unsatisfiable-holds : (meta : Meta) → Q (unsatisfiable cfg bucket request pathname meta)
  unfolding unsatisfiable
  unsatisfiable-holds meta = finished _ (some "no-store") (inr refl)

  preflight-holds :
      (mapped : Bool) (spec : Spec) (o : Option Meta) (keys : Keys)
      → Q (preflight cfg bucket request pathname mapped spec o keys)
  preflight-holds mapped spec none keys = miss-holds mapped
  preflight-holds mapped spec (some meta) keys =
      if_rule Q (is_other cfg bucket request pathname (get_header "if-range" request.headers) meta)
        (read_answer cfg bucket request pathname mapped none keys)
        (if not (is_some (resolve_range spec meta.size))
          then unsatisfiable cfg bucket request pathname meta
          else read_answer cfg bucket request pathname mapped (some spec) keys)
        (λ _. read_answer-holds mapped none keys)
        λ _.
          if_rule Q (not (is_some (resolve_range spec meta.size)))
            (unsatisfiable cfg bucket request pathname meta)
            (read_answer cfg bucket request pathname mapped (some spec) keys)
            (λ _. unsatisfiable-holds meta) λ _. read_answer-holds mapped (some spec) keys

  with_spec-holds :
      (mapped : Bool) (spec : Option Spec) (keys : Keys)
      → Q (with_spec cfg bucket request pathname mapped spec keys)
  with_spec-holds mapped none keys = read_answer-holds mapped none keys
  with_spec-holds mapped (some spec) keys =
      preflight-holds mapped spec (lookup_keys bucket.head keys).0 (lookup_keys bucket.head keys).1

  error_cache-IsErrorCache :
      (mapped : Bool) → IsErrorCache (error_cache cfg bucket request pathname mapped)
  error_cache-IsErrorCache true = inr refl
  error_cache-IsErrorCache false = inl refl

  serve_allowed-holds :
      (mapped : Bool) (keys : Keys) → Q (serve_allowed cfg bucket request pathname mapped keys)
  unfolding serve_allowed serve_keys
  serve_allowed-holds mapped keys =
      if_rule Q (allowed cfg bucket request pathname cfg.artifact_methods)
        (serve_keys cfg bucket request pathname mapped keys)
        (done cfg bucket request pathname
          (record {
            status = 405;
            headers = allow_header cfg bucket request pathname cfg.artifact_methods;
            body = some "method not allowed";
          })
          (error_cache cfg bucket request pathname mapped))
        (λ _. with_spec-holds mapped _ keys) λ _. finished _ _ (error_cache-IsErrorCache mapped)

  serve_unmapped-holds : (key : Option String) → Q (serve_unmapped cfg bucket request pathname key)
  serve_unmapped-holds none = finished (plain 404 "not found") none (inl refl)
  serve_unmapped-holds (some key) =
      serve_allowed-holds false (record { key = key; fallback = none })

  serve_at-holds :
      (routes : Option Routes) (rel : Option String) (prefix : String)
      → Q (serve_at cfg bucket request pathname routes rel prefix)
  serve_at-holds (some routes) (some rel) prefix =
      if_rule Q (not (is_some (artifact_key pathname ""))) (miss cfg bucket request pathname true)
        (serve_allowed cfg bucket request pathname true (record {
          key = str_append routes.prefix rel;
          fallback =
              if cfg.release_fallback then some (str_append prefix (slice_one pathname)) else none;
        }))
        (λ _. miss-holds true) λ _. serve_allowed-holds true _
  serve_at-holds none rel prefix = serve_unmapped-holds _
  serve_at-holds (some routes) none prefix = serve_unmapped-holds _

  pub serve_artifact-holds : Q (serve_artifact cfg bucket request pathname)
  unfolding serve_artifact
  serve_artifact-holds =
      if_rule Q (valid_r2_prefix (text_or cfg.r2_prefix ""))
        (serve_at cfg bucket request pathname cfg.release
          (rel_of cfg bucket request pathname cfg.release) (text_or cfg.r2_prefix ""))
        (done cfg bucket request pathname (plain 500 "artifact prefix misconfigured")
          (some "no-store"))
        (λ _. serve_at-holds cfg.release _ (text_or cfg.r2_prefix ""))
        λ _. finished (plain 500 "artifact prefix misconfigured") (some "no-store") (inr refl)
