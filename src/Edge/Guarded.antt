-- ===== src/Edge/Guarded.antt =====
-- The isolation headers and the cache policy of errors in the answers of infra/edge-worker.js, and the
-- paths for which the bucket is not asked.
use Prim.Native.String.{String, ◌++◌ as str_append}
use text.Mathlib.Text.{◌==◌ as str_eq}
use qed.Common.{
  ℕ, ◌≡◌, ◌≢◌, refl, sym, ap, ◌∙◌, inl, inr, true, false, not, Option, none, some, leb,
  if◌then◌else◌, Bool-cases,
}
use qed.Common.Lists.{any}
use qed.Edge.Keys.{
  artifact_key, valid_r2_prefix, after_prefix, all_chars, key_of, is_unsafe_char, is_unsafe_segment,
  segments,
}
use qed.Edge.Refused.{is_refused, is_refused-none}
use qed.Edge.Release.{Routes}
use qed.Edge.Headers.{
  Headers, set_header, get_header, set_given, decorated, Answer, HeaderOpts, cache_of, finish,
  isolated,
}
use qed.Edge.Serve.{done, serve_at, rel_of, serve_artifact}
use qed.Edge.Store.{Bucket, Config, Request, plain, text_or}
use qed.Edge.Answers.{get-set_header, get-set_header_other, IsErrorCache, serve_artifact-holds}

-- The three isolation headers are the options', and an error is not kept by any cache.
pub record IsGuarded (o : HeaderOpts) (r : Answer) : Type 0 where
  pub coop :
      (v : String)
      → o.isolation.coop ≡ some v
      → get_header "cross-origin-opener-policy" r.headers ≡ some v
  pub coep :
      (v : String)
      → o.isolation.coep ≡ some v
      → get_header "cross-origin-embedder-policy" r.headers ≡ some v
  pub corp :
      (v : String)
      → o.isolation.corp ≡ some v
      → get_header "cross-origin-resource-policy" r.headers ≡ some v
  pub unkept : leb 400 r.status ≡ true → get_header "cache-control" r.headers ≡ some "no-store"

pub finish-headers :
    (o : HeaderOpts) (r : Answer) (pathname : String) (route cache : Option String)
    → o.decorate ≡ none
    → (finish o r pathname route cache).headers
      ≡ set_header "cache-control"
          (cache_of cache o r.status pathname)
          (isolated o.isolation r.headers)
unfolding finish
finish-headers o r pathname route cache e =
    ap
      (λ d.
        decorated d
          (set_header "cache-control" (cache_of cache o r.status pathname)
            (isolated o.isolation r.headers))
          pathname route r.status)
      e

get-set_given :
    (n : String) (o : Option String) (v : String) (hs : Headers)
    → o ≡ some v
    → get_header n (set_given n o hs) ≡ some v
get-set_given n none v hs e = absurd cc
get-set_given n (some w) v hs e = get-set_header n w hs ∙ e

pub get-set_given_other :
    (n m : String) (o : Option String) (hs : Headers)
    → str_eq m n ≡ false
    → get_header n (set_given m o hs) ≡ get_header n hs
get-set_given_other n m none hs e = refl
get-set_given_other n m (some w) hs e = get-set_header_other n m w hs e

cache_of_error :
    (c : Option String) (o : HeaderOpts) (status : ℕ) (pathname : String)
    → IsErrorCache c
    → o.error_cache_control ≡ some "no-store"
    → leb 400 status ≡ true
    → cache_of c o status pathname ≡ "no-store"
cache_of_error none o status pathname h e k = rw (e, k)
cache_of_error (some given) o status pathname h e k = elim h [ inl p ↦ absurd cc | inr p ↦ cc ]

-- Every finished answer is guarded, under the default policy for errors.
pub finish-IsGuarded :
    (o : HeaderOpts) (r : Answer) (pathname : String) (route c : Option String)
    → o.decorate ≡ none
    → o.error_cache_control ≡ some "no-store"
    → IsErrorCache c
    → IsGuarded o (finish o r pathname route c)
unfolding finish
finish-IsGuarded o r pathname route c bare errors h =
    let i = o.isolation in
    let hs = finish-headers o r pathname route c bare in
    let opened = set_given "cross-origin-opener-policy" i.coop r.headers in
    let embedded = set_given "cross-origin-embedder-policy" i.coep opened in
    let cache = cache_of c o r.status pathname in
    record {
      coop = λ v e.
          ap (get_header "cross-origin-opener-policy") hs
          ∙ get-set_header_other "cross-origin-opener-policy" "cache-control" cache
              (set_given "cross-origin-resource-policy" i.corp embedded) refl
          ∙ get-set_given_other "cross-origin-opener-policy" "cross-origin-resource-policy" i.corp
              embedded refl
          ∙ get-set_given_other "cross-origin-opener-policy" "cross-origin-embedder-policy" i.coep
              opened refl
          ∙ get-set_given "cross-origin-opener-policy" i.coop v r.headers e;
      coep = λ v e.
          ap (get_header "cross-origin-embedder-policy") hs
          ∙ get-set_header_other "cross-origin-embedder-policy" "cache-control" cache
              (set_given "cross-origin-resource-policy" i.corp embedded) refl
          ∙ get-set_given_other "cross-origin-embedder-policy" "cross-origin-resource-policy" i.corp
              embedded refl
          ∙ get-set_given "cross-origin-embedder-policy" i.coep v opened e;
      corp = λ v e.
          ap (get_header "cross-origin-resource-policy") hs
          ∙ get-set_header_other "cross-origin-resource-policy" "cache-control" cache
              (set_given "cross-origin-resource-policy" i.corp embedded) refl
          ∙ get-set_given "cross-origin-resource-policy" i.corp v embedded e;
      unkept = λ k.
          ap (get_header "cache-control") hs
          ∙ get-set_header "cache-control" cache
              (set_given "cross-origin-resource-policy" i.corp embedded)
          ∙ ap some (cache_of_error c o r.status pathname h errors k);
    }

-- Whatever the request, the path and the bucket: an answer of `serveArtifact` carries the isolation
-- headers of the options, and one with a status of 400 or more is marked as not to be stored, under
-- the default policy for errors and without a `decorate` function.
pub serve_artifact-IsGuarded :
    (cfg : Config) (bucket : Bucket) (request : Request) (pathname : String)
    → cfg.header_opts.decorate ≡ none
    → cfg.header_opts.error_cache_control ≡ some "no-store"
    → IsGuarded cfg.header_opts (serve_artifact cfg bucket request pathname)
unfolding done
serve_artifact-IsGuarded cfg bucket request pathname bare errors =
    serve_artifact-holds cfg bucket request pathname (IsGuarded cfg.header_opts)
      λ r c h. finish-IsGuarded cfg.header_opts r pathname (some "artifact") c bare errors h

no_key : (s : String) → none ≢ some s
no_key s e = cc

-- A path without a key has none under any prefix.
artifact_key-none :
    (pathname p q : String) → artifact_key pathname p ≡ none → artifact_key pathname q ≡ none
unfolding artifact_key
artifact_key-none pathname p q = keyless (after_prefix "/" pathname)
  where
    keyless : (o : Option String) → key_of o p ≡ none → key_of o q ≡ none
    keyless none h = refl
    keyless (some rel) h = elim (Bool-cases (not (all_chars (λ c. not (is_unsafe_char c)) rel))) [
      | inl u ↦ rw (u) refl
      | inr u ↦ elim (Bool-cases (any is_unsafe_segment (segments rel))) [
        | inl d ↦ rw (u, d) refl
        | inr d ↦ absurd (no_key (str_append p rel) (sym h ∙ rw (u, d) refl))
      ]
    ]

serve_at-unsafe :
    (cfg : Config) (b b' : Bucket) (request : Request) (pathname prefix : String)
    (routes : Option Routes) (rel : Option String)
    → cfg.reject_unsafe_keys ≡ true
    → artifact_key pathname "" ≡ none
    → serve_at cfg b request pathname routes rel prefix
      ≡ serve_at cfg b' request pathname routes rel prefix
unfolding done
serve_at-unsafe cfg b b' request pathname prefix (some routes) (some rel) strict e = rw (e) refl
serve_at-unsafe cfg b b' request pathname prefix none rel strict e =
    rw (strict, artifact_key-none pathname "" prefix e) refl
serve_at-unsafe cfg b b' request pathname prefix (some routes) none strict e =
    rw (strict, artifact_key-none pathname "" prefix e) refl

-- A path that does not begin with "/", or that has an empty segment, one of one or two dots, each
-- written out or escaped, a backslash or a control character behind it reaches no bucket: where unsafe
-- keys are rejected, the answer is the same whatever the bucket holds, and that with and without a
-- release.
pub serve_artifact-unsafe :
    (cfg : Config) (b b' : Bucket) (request : Request) (pathname : String)
    → cfg.reject_unsafe_keys ≡ true
    → is_refused pathname ≡ true
    → serve_artifact cfg b request pathname ≡ serve_artifact cfg b' request pathname
unfolding serve_artifact done
serve_artifact-unsafe cfg b b' request pathname strict refused =
    let e = is_refused-none pathname refused in
    ap
      (λ x.
        if valid_r2_prefix (text_or cfg.r2_prefix "")
        then x
        else finish cfg.header_opts (plain 500 "artifact prefix misconfigured") pathname
            (some "artifact") (some "no-store"))
      (serve_at-unsafe cfg b b' request pathname (text_or cfg.r2_prefix "") cfg.release
          (rel_of cfg b request pathname cfg.release) strict e
        ∙ ap (λ rel. serve_at cfg b' request pathname cfg.release rel (text_or cfg.r2_prefix ""))
            (rel_of_same cfg.release))
  where
    rel_of_same :
        (routes : Option Routes)
        → rel_of cfg b request pathname routes ≡ rel_of cfg b' request pathname routes
    rel_of_same none = refl
    rel_of_same (some routes) = refl
