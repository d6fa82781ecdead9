-- ===== src/Edge/Isolate.antt =====
-- The isolation options of infra/edge-worker.js: `resolveIsolation` and `withIsolationHeaders`. A
-- `TypeError` that the source throws is `none`.
use Prim.Native.String.{String}
use text.Mathlib.Text.{◌==◌ as str_eq}
use qed.Common.{ℕ, Bool, Option, none, some, if◌then◌else◌}
use qed.Common.Json.{Json, Fields, null, str, arr, obj, nil, end, field}
use qed.Edge.Keys.{is_immutable}
use qed.Edge.Headers.{Headers, Answer, Isolation, finish}

-- DEFAULT_ISOLATION
abbrev pub default_isolation : Isolation
default_isolation = record {
  coop = some "same-origin";
  coep = some "require-corp";
  corp = some "same-origin";
}

-- `out[k] = v`, for a key that there is.
abbrev pub set_isolation : String → Option String → Option Isolation → Option Isolation
set_isolation k v none = none
set_isolation k v (some i) =
    if str_eq k "coop"
    then some (record i { coop = v })
    else if str_eq k "coep"
    then some (record i { coep = v })
    else if str_eq k "corp"
    then some (record i { corp = v })
    else none

-- One entry: a string, or null to leave the header out.
abbrev pub isolation_entry : String → Json → Option Isolation → Option Isolation
isolation_entry k (str v) i = set_isolation k (some v) i
isolation_entry k null i = set_isolation k none i
isolation_entry k _ i = none

abbrev pub isolation_entries : Fields → Option Isolation → Option Isolation
isolation_entries end i = i
isolation_entries (field k v fs) i = isolation_entries fs (isolation_entry k v i)

unfoldable pub resolve_isolation : Option Json → Option Isolation
resolve_isolation none = some default_isolation
resolve_isolation (some null) = some default_isolation
resolve_isolation (some (arr nil)) = some default_isolation
resolve_isolation (some (obj fs)) = isolation_entries fs (some default_isolation)
resolve_isolation _ = none

-- The options of `withIsolationHeaders`; what is not given is `none`.
pub record IsolateOpts : Type 0 where
  pub isolation : Option Json
  pub immutable_test : Option (String → Bool)
  pub error_cache_control : Option String
  pub decorate : Option (Headers → String → Option String → ℕ → Headers)
  pub route : Option String
  pub cache_control : Option String

abbrev pub test_or : Option (String → Bool) → String → Bool
test_or none = is_immutable
test_or (some test) = test

abbrev pub isolated_by : Option Isolation → Answer → String → IsolateOpts → Option Answer
isolated_by none r pathname opts = none
isolated_by (some i) r pathname opts = some (
    finish
      (record {
        isolation = i;
        is_immutable = test_or opts.immutable_test;
        error_cache_control = opts.error_cache_control;
        decorate = opts.decorate;
      })
      r pathname opts.route opts.cache_control)

unfoldable pub with_isolation_headers : Answer → String → IsolateOpts → Option Answer
unfolding resolve_isolation
with_isolation_headers r pathname opts =
    isolated_by (resolve_isolation opts.isolation) r pathname opts
