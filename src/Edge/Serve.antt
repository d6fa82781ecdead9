-- ===== src/Edge/Serve.antt =====
-- `serveArtifact` of infra/edge-worker.js. The bucket is a parameter.
use Prim.Native.String.{String, ◌++◌ as str_append}
use text.Mathlib.Text.{◌==◌ as str_eq}
use qed.Common.{Bool, true, false, not, ◌&&◌, Option, none, some, List, [], if◌then◌else◌}
use qed.Common.Lists.{any}
use qed.Common.Json.{is_some}
use qed.Edge.Keys.{artifact_key, valid_r2_prefix}
use qed.Edge.Range.{Spec, Span, Returned, trim, parse_range, resolve_range, returned_range}
use qed.Edge.Release.{Routes, release_rel}
use qed.Edge.Headers.{Headers, set_header, get_header, Answer, finish}
use qed.Edge.Store.{
  Meta, Object, Bucket, Config, Request, plain, Keys, lookup_keys, text_or, number_text,
  content_range, unsatisfied_range, slice_one, joined,
}

module _ (cfg : Config) (bucket : Bucket) (request : Request) (pathname : String) where
  -- `done(…, pathname, "artifact", cache)`
  unfoldable pub done : Answer → Option String → Answer
  done r cache = finish cfg.header_opts r pathname (some "artifact") cache

  abbrev pub not_found : Answer
  not_found = done (plain 404 "not found") none

  -- A mapped path is mutable at the origin: its errors are not kept.
  abbrev pub error_cache : Bool → Option String
  error_cache mapped = if mapped then some "no-store" else none

  abbrev pub miss : Bool → Answer
  miss mapped = done (plain 404 "not found") (error_cache mapped)

  abbrev pub accept_ranges : Headers → Headers
  accept_ranges hs = if cfg.ranges then set_header "accept-ranges" "bytes" hs else hs

  -- What the bucket says of an object.
  abbrev pub described : Meta → Headers
  described meta = accept_ranges (set_header "etag" meta.http_etag (meta.write_http_metadata []))

  unfoldable pub head_answer : Meta → Answer
  unfolding done
  head_answer meta =
      done
        (record {
          status = 200;
          headers = set_header "content-length" (number_text meta.size) (described meta);
          body = none;
        })
        none

  abbrev pub part_answer : Object → Span → Answer
  part_answer o span =
      done
        (record {
          status = 206;
          headers =
              set_header "content-length" (number_text span.length)
                (set_header "content-range" (content_range span o.meta.size) (described o.meta));
          body = some o.body;
        })
        none

  abbrev pub whole_answer : Object → Answer
  whole_answer o =
      done
        (record {
          status = 200;
          headers =
              if cfg.full_get_length
              then set_header "content-length" (number_text o.meta.size) (described o.meta)
              else described o.meta;
          body = some o.body;
        })
        none

  abbrev pub object_answer : Option Spec → Option Returned → Object → Answer
  object_answer (some spec) (some r) o = part_answer o (returned_range r o.meta.size)
  object_answer _ _ o = whole_answer o

  abbrev pub found_object : Bool → Option Spec → Option Object → Answer
  found_object mapped spec none = miss mapped
  found_object mapped spec (some o) = object_answer spec o.range o

  abbrev pub ranged_headers : Option Spec → Option Headers
  ranged_headers none = none
  ranged_headers (some spec) = some request.headers

  unfoldable pub get_answer : Bool → Option Spec → Keys → Answer
  get_answer mapped spec keys =
      found_object mapped spec (lookup_keys (λ k. bucket.get k (ranged_headers spec)) keys).0

  abbrev pub found_head : Bool → Option Meta → Answer
  found_head mapped none = miss mapped
  found_head mapped (some meta) = head_answer meta

  -- Behind the range preflight.
  unfoldable pub read_answer : Bool → Option Spec → Keys → Answer
  unfolding get_answer head_answer
  read_answer mapped spec keys =
      if str_eq request.method "HEAD" && cfg.artifact_head_metadata
      then found_head mapped (lookup_keys bucket.head keys).0
      else get_answer mapped spec keys

  unfoldable pub unsatisfiable : Meta → Answer
  unfolding done
  unsatisfiable meta =
      done
        (record {
          status = 416;
          headers =
              set_header "content-range" (unsatisfied_range meta.size)
                (set_header "accept-ranges" "bytes" []);
          body = some "range not satisfiable";
        })
        (some "no-store")

  -- `if-range` names another version.
  abbrev pub is_other : Option String → Meta → Bool
  is_other none meta = false
  is_other (some tag) meta = not (str_eq (trim tag) meta.http_etag)

  abbrev pub preflight : Bool → Spec → Option Meta → Keys → Answer
  preflight mapped spec none keys = miss mapped
  preflight mapped spec (some meta) keys =
      if is_other (get_header "if-range" request.headers) meta
      then read_answer mapped none keys
      else if not (is_some (resolve_range spec meta.size))
      then unsatisfiable meta
      else read_answer mapped (some spec) keys

  abbrev pub with_spec : Bool → Option Spec → Keys → Answer
  with_spec mapped none keys = read_answer mapped none keys
  with_spec mapped (some spec) keys =
      preflight mapped spec (lookup_keys bucket.head keys).0 (lookup_keys bucket.head keys).1

  unfoldable pub serve_keys : Bool → Keys → Answer
  unfolding read_answer unsatisfiable
  serve_keys mapped keys =
      with_spec mapped
        (if cfg.ranges && str_eq request.method "GET"
          then parse_range (get_header "range" request.headers)
          else none)
        keys

  abbrev pub allowed : Option (List String) → Bool
  allowed none = true
  allowed (some methods) = any (str_eq request.method) methods

  abbrev pub allow_header : Option (List String) → Headers
  allow_header none = []
  allow_header (some methods) = set_header "allow" (joined methods) []

  unfoldable pub serve_allowed : Bool → Keys → Answer
  unfolding serve_keys
  serve_allowed mapped keys =
      if allowed cfg.artifact_methods
      then serve_keys mapped keys
      else done
          (record {
            status = 405;
            headers = allow_header cfg.artifact_methods;
            body = some "method not allowed";
          })
          (error_cache mapped)

  -- A path that the release does not map.
  abbrev pub serve_unmapped : Option String → Answer
  serve_unmapped none = not_found
  serve_unmapped (some key) = serve_allowed false (record { key = key; fallback = none })

  -- A path of the release, with its place there.
  abbrev pub serve_mapped : String → String → String → Answer
  serve_mapped release_prefix rel prefix =
      if not (is_some (artifact_key pathname ""))
      then miss true
      else serve_allowed true (record {
        key = str_append release_prefix rel;
        fallback =
            if cfg.release_fallback then some (str_append prefix (slice_one pathname)) else none;
      })

  abbrev pub serve_at : Option Routes → Option String → String → Answer
  serve_at (some routes) (some rel) prefix = serve_mapped routes.prefix rel prefix
  serve_at _ _ prefix = serve_unmapped (
      if cfg.reject_unsafe_keys
      then artifact_key pathname prefix
      else some (str_append prefix (slice_one pathname)))

  abbrev pub rel_of : Option Routes → Option String
  rel_of none = none
  rel_of (some routes) = release_rel routes pathname

  -- `serveArtifact`
  unfoldable pub serve_artifact : Answer
  unfolding serve_allowed
  serve_artifact =
      if valid_r2_prefix (text_or cfg.r2_prefix "")
      then serve_at cfg.release (rel_of cfg.release) (text_or cfg.r2_prefix "")
      else done (plain 500 "artifact prefix misconfigured") (some "no-store")
