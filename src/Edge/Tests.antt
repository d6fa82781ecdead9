-- ===== src/Edge/Tests.antt =====
-- Requests to infra/edge-worker.js, and the theorems about its answers at them.
use text.Mathlib.Text.{◌==◌ as str_eq}
use qed.Common.{◌≡◌, refl, true, false, Option, none, some, String, List, [], ◌∷◌, if◌then◌else◌}
use qed.FrontDoor.Words.{skip_space}
use qed.Common.Json.{is_some}
use qed.Edge.Keys.{
  artifact_key, is_immutable, after_prefix, segments, all_chars, is_dot_segment, is_index,
  is_hashed, ends_with,
}
use qed.Edge.Range.{from, part, parse_range, digit_run, resolve_range}
use qed.Edge.Headers.{Headers, HeaderOpts}
use qed.Edge.Serve.{serve_artifact, serve_keys}
use qed.Edge.Store.{Meta, Object, Bucket, Config, Request}
use qed.Edge.Guarded.{IsGuarded, serve_artifact-unsafe}
use qed.Edge.Store.{plain}
use qed.Edge.Route.{Url, Reply, Extra, Assets, Site, handle}
use qed.Edge.Routed.{IsTame, handle-IsGuarded}
use qed.Common.Json.{Json, null, obj, field, str, arr, cons, nil, end}
use qed.Edge.Release.{
  Routes, release_routes, valid_id, split_at, has_hash, release_rel, is_site_owned,
}
use qed.Edge.Mounts.{IsBest, release_rel-IsBest}
use qed.Edge.Isolate.{resolve_isolation}
use qed.Edge.Bounds.{is_servable, is_inside, resolve_range-parse_range}
use qed.Edge.Refused.{is_refused}
use qed.Edge.Partial.{IsPart, serve_keys-IsPart}

abbrev defaults : HeaderOpts
defaults = record {
  isolation = record {
    coop = some "same-origin";
    coep = some "require-corp";
    corp = some "same-origin";
  };
  is_immutable = is_immutable;
  error_cache_control = some "no-store";
  decorate = none;
}

abbrev config : Config
config = record {
  r2_prefix = some "";
  artifact_head_metadata = true;
  ranges = true;
  artifact_methods = some ("GET" ∷ "HEAD" ∷ []);
  reject_unsafe_keys = true;
  full_get_length = true;
  release = none;
  release_fallback = false;
  header_opts = defaults;
}

abbrev meta : Meta
meta = record { size = 10; http_etag = "tag"; write_http_metadata = λ hs. hs }

abbrev answer_part : Option Headers → Object
answer_part none = record { meta = meta; range = none; body = "0123456789" }
answer_part (some hs) = record { meta = meta; range = some (part (some 2) (some 3)); body = "234" }

-- One object of ten bytes, at the key "runtime/a".
abbrev bucket : Bucket
bucket = record {
  head = λ k. if str_eq k "runtime/a" then some meta else none;
  get = λ k hs. if str_eq k "runtime/a" then some (answer_part hs) else none;
}

abbrev empty_bucket : Bucket
empty_bucket = record { head = λ k. none; get = λ k hs. none }

abbrev ranged : Request
ranged = record { method = "GET"; headers = record { name = "range"; value = " bytes=2-4" } ∷ [] }

key_unsafe : artifact_key "/runtime/%2e./a" "" ≡ none
unfolding artifact_key after_prefix segments all_chars is_dot_segment
key_unsafe = refl

key_safe : artifact_key "/runtime/a" "p/" ≡ some "p/runtime/a"
unfolding artifact_key after_prefix segments all_chars is_dot_segment
key_safe = refl

range_read : parse_range (some " bytes=2-4") ≡ some (from 2 (some 4))
unfolding parse_range digit_run after_prefix skip_space
range_read = refl

part_immutable : is_immutable "/runtime/lean.part-3" ≡ true
unfolding is_immutable is_index is_hashed after_prefix ends_with all_chars
part_immutable = refl

index_mutable : is_immutable "/profiles/index.0123456789abcdef.json" ≡ false
unfolding is_immutable is_index is_hashed after_prefix ends_with all_chars
index_mutable = refl

path_refused : is_refused "/runtime/%2e./a" ≡ true
unfolding segments
path_refused = refl

serve_artifact-unsafe_example :
    serve_artifact config bucket ranged "/runtime/%2e./a"
    ≡ serve_artifact config empty_bucket ranged "/runtime/%2e./a"
serve_artifact-unsafe_example =
    serve_artifact-unsafe config bucket empty_bucket ranged "/runtime/%2e./a" refl path_refused

resolve_range-parse_range_example :
    (is_some (resolve_range (from 2 (some 4)) 10) ≡ is_servable (from 2 (some 4)) 10)
    × (is_inside (resolve_range (from 2 (some 4)) 10) 10 ≡ true)
resolve_range-parse_range_example =
    resolve_range-parse_range (some " bytes=2-4") (from 2 (some 4)) 10 range_read

two_to_four : resolve_range (from 2 (some 4)) 10 ≡ some (record { offset = 2; length = 3 })
unfolding resolve_range
two_to_four = refl

serve_keys-IsPart_example : IsPart (answer_part (some ranged.headers)) 2 3 (
    serve_keys config bucket ranged "/runtime/a" false
      (record { key = "runtime/a"; fallback = none }))
serve_keys-IsPart_example =
    serve_keys-IsPart config bucket ranged "/runtime/a" false
      (record { key = "runtime/a"; fallback = none }) (from 2 (some 4)) meta
      (answer_part (some ranged.headers)) (record { offset = 2; length = 3 }) refl refl refl
      range_read refl refl two_to_four refl refl

-- A site with one extra route, which answers "/ping".
abbrev ping : Extra
ping = record {
  prefix = some "/ping";
  matches = none;
  handler = λ request kit. some (record { answer = plain 200 "pong"; finished = false });
  raw_headers = false;
}

abbrev site : Site
site = record {
  config = config;
  artifact_prefixes = "/runtime/" ∷ "/profiles/" ∷ "/snapshots/" ∷ [];
  redirect = some "/app/";
  resolve_url = λ target url. target;
  extra_routes = ping ∷ [];
  asset_head_length = true;
}

abbrev no_assets : Assets
no_assets = record { fetch = λ request. plain 404 "not found"; byte_length = λ s. 0 }

abbrev missing : Url
missing = record { pathname = "/missing"; search = "" }

never_finished :
    (r : Reply)
    → some (record { answer = plain 200 "pong"; finished = false }) ≡ some r
    → r.finished ≡ true
    → IsGuarded defaults r.answer
never_finished r e f = absurd cc

handle-IsGuarded_example : IsGuarded defaults (handle site bucket no_assets missing ranged)
handle-IsGuarded_example =
    handle-IsGuarded site bucket no_assets missing refl refl ranged
      (IsTame.one_more refl (λ request. never_finished) IsTame.no_more)

abbrev release_record : Json
release_record = obj (
    field "schema" (str "lean4-wasm64.release/v1") (
      field "id" (str "lean-v4.20.0-abcdef1-r2") (
        field "hosting"
          (obj (
            field "layout" (str "served") (
              field "mount"
                (obj
                  (field "/runtime/" (str "runtime/") (field "/runtime/deep/" (str "deep/") end)))
                (field "siteOwned" (arr (cons (str "/runtime/own/") nil)) end))))
          end)))

abbrev release_prefixes : List String
release_prefixes = "/runtime/" ∷ "/runtime/deep/" ∷ []

abbrev checked_routes : Routes
checked_routes = record {
  id = "lean-v4.20.0-abcdef1-r2";
  prefix = "lean4-wasm64/lean-v4.20.0-abcdef1-r2/";
  mount =
      record { url = "/runtime/deep/"; dir = "deep/" }
      ∷ record { url = "/runtime/"; dir = "runtime/" }
      ∷ [];
  site_owned = "/runtime/own/" ∷ [];
}

record_checked : release_routes release_record release_prefixes ≡ some checked_routes
unfolding release_routes valid_id split_at has_hash artifact_key after_prefix segments all_chars
    is_dot_segment ends_with
record_checked = refl

deep_mapped : release_rel checked_routes "/runtime/deep/a" ≡ some "deep/a"
unfolding release_rel after_prefix ends_with
deep_mapped = refl

release_rel-IsBest_example :
    (is_site_owned checked_routes.site_owned "/runtime/deep/a" ≡ false)
    × IsBest checked_routes.mount "/runtime/deep/a" "deep/a"
release_rel-IsBest_example =
    release_rel-IsBest release_record release_prefixes checked_routes "/runtime/deep/a" "deep/a"
      record_checked deep_mapped

no_corp :
    resolve_isolation (some (obj (field "corp" null end)))
    ≡ some (record { coop = some "same-origin"; coep = some "require-corp"; corp = none })
unfolding resolve_isolation
no_corp = refl
