-- ===== src/Edge/Store.antt =====
-- The bucket, the request and the parts of an answer of infra/edge-worker.js.
use Prim.Native.String.{String, ◌++◌ as str_append}
use qed.Common.{ℕ, ◌+◌, ◌-◌, Bool, Option, none, some, List, [], ◌∷◌}
use qed.Common.Text.{ascii}
use qed.Frames.Encoder.{decimal}
use qed.Edge.Range.{Span, Returned}
use qed.Edge.Release.{Routes}
use qed.Edge.Headers.{Headers, Answer, HeaderOpts}

pub record Meta : Type 0 where
  pub size : ℕ
  pub http_etag : String
  pub write_http_metadata : Headers → Headers

-- `range` is what the bucket reports of a ranged read.
pub record Object : Type 0 where
  pub meta : Meta
  pub range : Option Returned
  pub body : String

-- The artifact bucket: `head(key)`, and `get(key)`, with the request's headers for a ranged read.
pub record Bucket : Type 0 where
  pub head : String → Option Meta
  pub get : String → Option Headers → Option Object

-- The checked options that `serveArtifact` reads; `r2_prefix` is the value for the request.
pub record Config : Type 0 where
  pub r2_prefix : Option String
  pub artifact_head_metadata : Bool
  pub ranges : Bool
  pub artifact_methods : Option (List String)
  pub reject_unsafe_keys : Bool
  pub full_get_length : Bool
  pub release : Option Routes
  pub release_fallback : Bool
  pub header_opts : HeaderOpts

pub record Request : Type 0 where
  pub method : String
  pub headers : Headers

abbrev pub plain : ℕ → String → Answer
plain status text = record { status = status; headers = []; body = some text }

-- `key` and `fallbackKey`
pub record Keys : Type 0 where
  pub key : String
  pub fallback : Option String

-- The key that is left once the fallback was tried, if there was one.
abbrev pub at_fallback :
    {A : Type 0} → (String → Option A) → String → Option String → Option A × Keys
at_fallback op key none = (none, record { key = key; fallback = none })
at_fallback op key (some other) = (op other, record { key = other; fallback = none })

abbrev pub fallback_tried : {A : Type 0} → (String → Option A) → Option A → Keys → Option A × Keys
fallback_tried op (some a) keys = (some a, record { key = keys.key; fallback = none })
fallback_tried op none keys = at_fallback op keys.key keys.fallback

-- `lookup`: a second lookup stays with the key of the first.
abbrev pub lookup_keys : {A : Type 0} → (String → Option A) → Keys → Option A × Keys
lookup_keys op keys = fallback_tried op (op keys.key) keys

abbrev pub text_or : Option String → String → String
text_or none d = d
text_or (some s) d = s

abbrev pub number_text : ℕ → String
number_text n = ascii (decimal n)

abbrev pub content_range : Span → ℕ → String
content_range s size = str_append "bytes " (
    str_append (number_text s.offset) (
      str_append "-"
        (str_append (number_text (s.offset + s.length - 1)) (str_append "/" (number_text size)))))

abbrev pub unsatisfied_range : ℕ → String
unsatisfied_range size = str_append "bytes */" (number_text size)

-- `pathname.slice(1)`
abbrev pub slice_one : String → String
slice_one String.[] = String.[]
slice_one (String.◌∷◌ c s) = s

abbrev pub joined : List String → String
joined [] = ""
joined (m ∷ []) = m
joined (m ∷ ms) = str_append m (str_append ", " (joined ms))
