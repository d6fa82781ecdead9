-- ===== src/Edge/Route.antt =====
-- The routing of infra/edge-worker.js: `handle`, `serveAsset`, `assetHeadWithLength` and the kit of the
-- extra routes. The assets, the handlers of the extra routes, the resolution of a redirect and the
-- byte length of a body are parameters.
use Prim.Native.String.{String}
use text.Mathlib.Text.{◌==◌ as str_eq}
use qed.Common.{
  ℕ, Bool, true, not, ◌&&◌, ◌||◌, Option, none, some, List, [], ◌∷◌, ◌==◌, if◌then◌else◌,
}
use qed.Common.Lists.{any}
use qed.Common.Json.{is_some}
use qed.Edge.Keys.{starts_with}
use qed.Edge.Headers.{Headers, Answer, set_header, get_header, finish}
use qed.Edge.Serve.{serve_artifact}
use qed.Edge.Store.{Bucket, Config, Request, plain, number_text}

pub record Url : Type 0 where
  pub pathname : String
  pub search : String

-- What an extra route may call; the text behind a request is the path of its URL.
pub record Kit : Type 0 where
  pub serve_artifact : Request → String → Answer
  pub serve_asset : Request → String → Answer
  pub with_headers : Answer → String → Answer
  pub not_found : String → Answer

-- The answer of an extra route, and whether it is one that the kit finished.
pub record Reply : Type 0 where
  pub answer : Answer
  pub finished : Bool

pub record Extra : Type 0 where
  pub prefix : Option String
  pub matches : Option (Url → Request → Bool)
  pub handler : Request → Kit → Option Reply
  pub raw_headers : Bool

-- `assets.fetch`, with the length of a body in bytes.
pub record Assets : Type 0 where
  pub fetch : Request → Answer
  pub byte_length : String → ℕ

-- The checked options of the routing; `redirect` is the target for the request.
pub record Site : Type 0 where
  pub config : Config
  pub artifact_prefixes : List String
  pub redirect : Option String
  pub resolve_url : String → Url → String
  pub extra_routes : List Extra
  pub asset_head_length : Bool

-- `headers.delete(name)`
abbrev pub delete_header : String → Headers → Headers
delete_header n [] = []
delete_header n (h ∷ hs) =
    let rest = delete_header n hs in if str_eq h.name n then rest else h ∷ rest

abbrev pub body_length : Assets → Option String → Option String → Option String
body_length assets (some length) body = some length
body_length assets none (some body) = some (number_text (assets.byte_length body))
body_length assets none none = none

abbrev pub head_with : Answer → Option String → Answer
head_with head none = head
head_with head (some length) = record {
  status = head.status;
  headers = set_header "content-length" length head.headers;
  body = none;
}

-- `assetHeadWithLength`
unfoldable pub asset_head_with_length : Assets → Request → Answer → Answer
asset_head_with_length assets request head =
    let get = assets.fetch (record {
      method = "GET";
      headers = delete_header "if-range" (delete_header "range" request.headers);
    }) in
    if get.status == 200
    then head_with head (body_length assets (get_header "content-length" get.headers) get.body)
    else head

module _ (site : Site) (bucket : Bucket) (assets : Assets) (url : Url) where
  -- `done`
  unfoldable pub finished_answer : Answer → String → String → Answer
  finished_answer r pathname route = finish site.config.header_opts r pathname (some route) none

  abbrev pub asset_answer : Request → Answer
  asset_answer request =
      if site.asset_head_length
        && str_eq request.method "HEAD"
        && (assets.fetch request).status == 200
        && not (is_some (get_header "content-length" (assets.fetch request).headers))
      then asset_head_with_length assets request (assets.fetch request)
      else assets.fetch request

  -- `serveAsset`, with the path of the request's URL
  unfoldable pub serve_asset : Request → String → Answer
  unfolding finished_answer asset_head_with_length
  serve_asset request pathname = finished_answer (asset_answer request) pathname "asset"

  -- `kitFor`
  abbrev pub kit : Kit
  kit = record {
    serve_artifact = λ request pathname. serve_artifact site.config bucket request pathname;
    serve_asset = serve_asset;
    with_headers = λ r pathname. finished_answer r pathname "extra";
    not_found = λ pathname. finished_answer (plain 404 "not found") pathname "extra";
  }

  abbrev pub has_prefix : Option String → Bool
  has_prefix none = true
  has_prefix (some p) = starts_with p url.pathname

  abbrev pub is_match : Option (Url → Request → Bool) → Request → Bool
  is_match none request = true
  is_match (some test) request = test url request

  -- The first extra route that fits and answers.
  abbrev pub reply_or : Extra → Option Reply → Answer → Answer
  reply_or extra none later = later
  reply_or extra (some r) later =
      if extra.raw_headers || r.finished
      then r.answer
      else finished_answer r.answer url.pathname "extra"

  abbrev pub extra_or : List Extra → Request → Answer → Answer
  extra_or [] request otherwise = otherwise
  extra_or (e ∷ es) request otherwise =
      let later = extra_or es request otherwise in
      if has_prefix e.prefix && is_match e.matches request
      then reply_or e (e.handler request kit) later
      else later

  abbrev pub site_answer : Request → Answer
  site_answer request =
      if any (λ p. starts_with p url.pathname) site.artifact_prefixes
      then serve_artifact site.config bucket request url.pathname
      else serve_asset request url.pathname

  abbrev pub redirect_answer : String → Answer
  redirect_answer target =
      finished_answer
        (record {
          status = 302;
          headers = set_header "location" (site.resolve_url target url) [];
          body = none;
        })
        url.pathname "redirect"

  abbrev pub redirect_or : Option String → Answer → Answer
  redirect_or none otherwise = otherwise
  redirect_or (some target) otherwise =
      if str_eq url.pathname "/" && str_eq url.search "" && not (str_eq target "")
      then redirect_answer target
      else otherwise

  -- `handle`
  unfoldable pub handle : Request → Answer
  unfolding serve_asset
  handle request =
      redirect_or site.redirect (extra_or site.extra_routes request (site_answer request))
