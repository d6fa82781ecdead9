-- ===== src/Edge/Routed.antt =====
-- Every answer of infra/edge-worker.js, whatever the route: `handle`.
use Prim.Native.String.{String}
use text.Mathlib.Text.{◌==◌ as str_eq}
use qed.Common.{
  ◌≡◌, refl, inl, true, false, not, ◌&&◌, ◌||◌, Option, none, some, List, [], ◌∷◌, arith, if_rule,
}
use qed.Common.Lists.{any}
use qed.Edge.Keys.{starts_with}
use qed.Edge.Headers.{HeaderOpts, Answer}
use qed.Edge.Serve.{serve_artifact}
use qed.Edge.Store.{Bucket, Request}
use qed.Edge.Guarded.{IsGuarded, finish-IsGuarded, serve_artifact-IsGuarded}
use qed.Edge.Route.{
  Url, Kit, Reply, Extra, Assets, Site, kit, has_prefix, is_match, reply_or, extra_or,
  finished_answer, asset_answer, serve_asset, site_answer, redirect_answer, redirect_or, handle,
}

-- The routes take no part in the headers: none is raw, and an answer that a handler passes off as
-- finished is.
pub data IsTame (o : HeaderOpts) (k : Kit) : List Extra → Type 0 where
  no_more : IsTame o k []
  one_more :
      {e : Extra} {es : List Extra}
      → e.raw_headers ≡ false
      → ((request : Request) (r : Reply)
          → e.handler request k ≡ some r
          → r.finished ≡ true
          → IsGuarded o r.answer)
      → IsTame o k es
      → IsTame o k (e ∷ es)

module _ (site : Site) (bucket : Bucket) (assets : Assets) (url : Url)
    (bare : site.config.header_opts.decorate ≡ none)
    (errors : site.config.header_opts.error_cache_control ≡ some "no-store") where
  finished-IsGuarded :
      (r : Answer) (pathname route : String)
      → IsGuarded site.config.header_opts (finished_answer site bucket assets url r pathname route)
  unfolding finished_answer
  finished-IsGuarded r pathname route =
      finish-IsGuarded site.config.header_opts r pathname (some route) none bare errors (inl refl)

  serve_asset-IsGuarded :
      (request : Request) (pathname : String)
      → IsGuarded site.config.header_opts (serve_asset site bucket assets url request pathname)
  unfolding serve_asset
  serve_asset-IsGuarded request pathname =
      finished-IsGuarded (asset_answer site bucket assets url request) pathname "asset"

  site_answer-IsGuarded :
      (request : Request)
      → IsGuarded site.config.header_opts (site_answer site bucket assets url request)
  site_answer-IsGuarded request =
      if_rule (IsGuarded site.config.header_opts)
        (any (λ p. starts_with p url.pathname) site.artifact_prefixes)
        (serve_artifact site.config bucket request url.pathname)
        (serve_asset site bucket assets url request url.pathname)
        (λ _. serve_artifact-IsGuarded site.config bucket request url.pathname bare errors)
        λ _. serve_asset-IsGuarded request url.pathname

  reply_or-IsGuarded :
      (e : Extra) (request : Request) (o : Option Reply) (later : Answer)
      → e.raw_headers ≡ false
      → e.handler request (kit site bucket assets url) ≡ o
      → ((r : Reply)
          → e.handler request (kit site bucket assets url) ≡ some r
          → r.finished ≡ true
          → IsGuarded site.config.header_opts r.answer)
      → IsGuarded site.config.header_opts later
      → IsGuarded site.config.header_opts (reply_or site bucket assets url e o later)
  reply_or-IsGuarded e request none later cooked is tame h = h
  reply_or-IsGuarded e request (some r) later cooked is tame h =
      if_rule (IsGuarded site.config.header_opts) (e.raw_headers || r.finished) r.answer
        (finished_answer site bucket assets url r.answer url.pathname "extra")
        (λ k. tame r is (ground (arith, k, cooked)))
        λ _. finished-IsGuarded r.answer url.pathname "extra"

  extra_or-IsGuarded :
      (es : List Extra) (request : Request) (otherwise : Answer)
      → IsTame site.config.header_opts (kit site bucket assets url) es
      → IsGuarded site.config.header_opts otherwise
      → IsGuarded site.config.header_opts (extra_or site bucket assets url es request otherwise)
  extra_or-IsGuarded [] request otherwise tame h = h
  extra_or-IsGuarded (e ∷ es) request otherwise (one_more cooked made tame) h =
      if_rule (IsGuarded site.config.header_opts)
        (has_prefix site bucket assets url e.prefix
          && is_match site bucket assets url e.matches request)
        (reply_or site bucket assets url e (e.handler request (kit site bucket assets url))
          (extra_or site bucket assets url es request otherwise))
        (extra_or site bucket assets url es request otherwise)
        (λ _.
          reply_or-IsGuarded e request (e.handler request (kit site bucket assets url)) _ cooked
            refl (made request) (extra_or-IsGuarded es request otherwise tame h))
        λ _. extra_or-IsGuarded es request otherwise tame h

  redirect_or-IsGuarded :
      (target : Option String) (otherwise : Answer)
      → IsGuarded site.config.header_opts otherwise
      → IsGuarded site.config.header_opts (redirect_or site bucket assets url target otherwise)
  redirect_or-IsGuarded none otherwise h = h
  redirect_or-IsGuarded (some target) otherwise h =
      if_rule (IsGuarded site.config.header_opts)
        (str_eq url.pathname "/" && str_eq url.search "" && not (str_eq target ""))
        (redirect_answer site bucket assets url target) otherwise
        (λ _. finished-IsGuarded _ url.pathname "redirect") λ _. h

  -- Every answer of the worker, an artifact, an asset, a redirect or an extra route's, carries the
  -- isolation headers of the options and lets no cache keep an error, under the default policy for
  -- errors and without a `decorate` function, if no extra route has raw headers and the answers that
  -- the routes' handlers call finished are so.
  pub handle-IsGuarded :
      (request : Request)
      → IsTame site.config.header_opts (kit site bucket assets url) site.extra_routes
      → IsGuarded site.config.header_opts (handle site bucket assets url request)
  unfolding handle
  handle-IsGuarded request tame = redirect_or-IsGuarded site.redirect _ (
      extra_or-IsGuarded site.extra_routes request (site_answer site bucket assets url request) tame
        (site_answer-IsGuarded request))
