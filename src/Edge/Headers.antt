-- ===== src/Edge/Headers.antt =====
-- The headers of an answer of infra/edge-worker.js: `finish`. Header names are written in lower case:
-- they are compared without case.
use Prim.Native.String.{String}
use text.Mathlib.Text.{◌==◌ as str_eq}
use qed.Common.{ℕ, Bool, Option, none, some, List, [], ◌∷◌, leb, if◌then◌else◌}

pub record Header : Type 0 where
  pub name : String
  pub value : String

abbrev pub Headers : Type 0
Headers = List Header

-- `headers.set(name, value)` and `headers.get(name)`
abbrev pub set_header : String → String → Headers → Headers
set_header n v [] = record { name = n; value = v } ∷ []
set_header n v (h ∷ hs) =
    let rest = set_header n v hs in
    if str_eq h.name n then record { name = n; value = v } ∷ hs else h ∷ rest

abbrev pub get_header : String → Headers → Option String
get_header n [] = none
get_header n (h ∷ hs) = if str_eq h.name n then some h.value else get_header n hs

pub record Answer : Type 0 where
  pub status : ℕ
  pub headers : Headers
  pub body : Option String

pub record Isolation : Type 0 where
  pub coop : Option String
  pub coep : Option String
  pub corp : Option String

-- `opts` of `finish`; `decorate` gets the headers, the path, the route and the status.
pub record HeaderOpts : Type 0 where
  pub isolation : Isolation
  pub is_immutable : String → Bool
  pub error_cache_control : Option String
  pub decorate : Option (Headers → String → Option String → ℕ → Headers)

abbrev pub immutable_cache : String
immutable_cache = "public, max-age=31536000, immutable"

abbrev pub revalidate_cache : String
revalidate_cache = "public, max-age=0, must-revalidate"

abbrev pub set_given : String → Option String → Headers → Headers
set_given n none hs = hs
set_given n (some v) hs = set_header n v hs

abbrev pub fresh_cache : HeaderOpts → String → String
fresh_cache o pathname = if o.is_immutable pathname then immutable_cache else revalidate_cache

-- The errors' value, where the options have one.
abbrev pub status_cache : Option String → HeaderOpts → ℕ → String → String
status_cache none o status pathname = fresh_cache o pathname
status_cache (some error) o status pathname =
    if leb 400 status then error else fresh_cache o pathname

abbrev pub cache_of : Option String → HeaderOpts → ℕ → String → String
cache_of (some given) o status pathname = given
cache_of none o status pathname = status_cache o.error_cache_control o status pathname

abbrev pub isolated : Isolation → Headers → Headers
isolated i hs = set_given "cross-origin-resource-policy" i.corp (
    set_given "cross-origin-embedder-policy" i.coep
      (set_given "cross-origin-opener-policy" i.coop hs))

abbrev pub decorated :
    Option (Headers → String → Option String → ℕ → Headers)
    → Headers
    → String
    → Option String
    → ℕ
    → Headers
decorated none hs pathname route status = hs
decorated (some f) hs pathname route status = f hs pathname route status

unfoldable pub finish : HeaderOpts → Answer → String → Option String → Option String → Answer
finish o r pathname route cache = record r {
  headers =
      decorated o.decorate
        (set_header "cache-control" (cache_of cache o r.status pathname)
          (isolated o.isolation r.headers))
        pathname route r.status;
}
