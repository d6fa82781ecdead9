-- ===== src/Edge/Partial.antt =====
-- A ranged read through infra/edge-worker.js.
use Prim.Native.String.{String, ◌++◌ as str_append}
use text.Mathlib.Text.{◌==◌ as str_eq}
use qed.Common.{
  ℕ, ◌+◌, ◌-◌, ◌≡◌, refl, sym, ap, subst, ◌∙◌, Bool, true, false, ◌&&◌, Option, none, some, [],
  if◌then◌else◌,
}
use qed.Common.Text.{ascii}
use qed.Frames.Encoder.{decimal}
use qed.Edge.Answers.{get-set_header, get-set_header_other}
use qed.Edge.Guarded.{finish-headers, get-set_given_other}
use qed.Edge.Range.{Spec, Span, part, parse_range, resolve_range}
use qed.Edge.Headers.{set_header, get_header, set_given, cache_of, Answer, HeaderOpts, finish}
use qed.Edge.Serve.{
  done, accept_ranges, get_answer, read_answer, preflight, serve_keys, part_answer, with_spec,
}
use qed.Edge.Store.{
  Meta, Object, Bucket, Config, Request, Keys, fallback_tried, number_text, content_range,
}

-- The isolation headers and the cache policy leave the others alone.
finish-get :
    (n : String) (o : HeaderOpts) (r : Answer) (pathname : String) (route cache : Option String)
    → o.decorate ≡ none
    → str_eq "cache-control" n ≡ false
    → str_eq "cross-origin-resource-policy" n ≡ false
    → str_eq "cross-origin-embedder-policy" n ≡ false
    → str_eq "cross-origin-opener-policy" n ≡ false
    → get_header n (finish o r pathname route cache).headers ≡ get_header n r.headers
finish-get n o r pathname route cache bare c p e q =
    let i = o.isolation in
    let opened = set_given "cross-origin-opener-policy" i.coop r.headers in
    let embedded = set_given "cross-origin-embedder-policy" i.coep opened in
    ap (get_header n) (finish-headers o r pathname route cache bare)
    ∙ get-set_header_other n "cache-control" (cache_of cache o r.status pathname)
        (set_given "cross-origin-resource-policy" i.corp embedded) c
    ∙ get-set_given_other n "cross-origin-resource-policy" i.corp embedded p
    ∙ get-set_given_other n "cross-origin-embedder-policy" i.coep opened e
    ∙ get-set_given_other n "cross-origin-opener-policy" i.coop r.headers q

-- A 206 with a part of an object: its bytes, its length and its place in the object, the entity tag,
-- and that ranges are accepted.
pub record IsPart (o : Object) (first size : ℕ) (r : Answer) : Type 0 where
  pub status : r.status ≡ 206
  pub body : r.body ≡ some o.body
  pub length : get_header "content-length" r.headers ≡ some (ascii (decimal size))
  pub place :
      get_header "content-range" r.headers
      ≡ some (
          str_append "bytes " (
            str_append (ascii (decimal first)) (
              str_append "-" (
                str_append
                  (ascii (decimal (first + size - 1)))
                  (str_append "/" (ascii (decimal o.meta.size)))))))
  pub tag : get_header "etag" r.headers ≡ some o.meta.http_etag
  pub ranges : get_header "accept-ranges" r.headers ≡ some "bytes"

module _ (cfg : Config) (bucket : Bucket) (request : Request) (pathname : String) where
  -- The read behind the preflight, where the bucket reports the range that it returns.
  get_answer-part :
      (mapped : Bool) (spec : Spec) (key : String) (o : Object) (span : Span)
      → bucket.get key (some request.headers) ≡ some o
      → o.range ≡ some (part (some span.offset) (some span.length))
      → get_answer cfg bucket request pathname mapped
          (some spec)
          (record { key = key; fallback = none })
        ≡ part_answer cfg bucket request pathname o span
  unfolding get_answer
  get_answer-part mapped spec key o span e r = rw (e, r) refl

  read_answer-part :
      (mapped : Bool) (spec : Spec) (key : String) (o : Object) (span : Span)
      → str_eq request.method "HEAD" ≡ false
      → bucket.get key (some request.headers) ≡ some o
      → o.range ≡ some (part (some span.offset) (some span.length))
      → read_answer cfg bucket request pathname mapped
          (some spec)
          (record { key = key; fallback = none })
        ≡ part_answer cfg bucket request pathname o span
  unfolding read_answer
  read_answer-part mapped spec key o span m e r =
      rw (m) (get_answer-part mapped spec key o span e r)

  preflight-part :
      (mapped : Bool) (spec : Spec) (key : String) (meta : Meta) (o : Object) (span : Span)
      → str_eq request.method "HEAD" ≡ false
      → get_header "if-range" request.headers ≡ none
      → resolve_range spec meta.size ≡ some span
      → bucket.get key (some request.headers) ≡ some o
      → o.range ≡ some (part (some span.offset) (some span.length))
      → preflight cfg bucket request pathname mapped spec
          (some meta)
          (record { key = key; fallback = none })
        ≡ part_answer cfg bucket request pathname o span
  preflight-part mapped spec key meta o span m i s e r =
      rw (i, s) (read_answer-part mapped spec key o span m e r)

  part_answer-IsPart :
      (o : Object) (span : Span)
      → cfg.header_opts.decorate ≡ none
      → cfg.ranges ≡ true
      → IsPart o span.offset span.length (part_answer cfg bucket request pathname o span)
  unfolding done finish
  part_answer-IsPart o span bare ranges =
      let meta = o.meta in
      let tagged = set_header "etag" meta.http_etag (meta.write_http_metadata []) in
      let described = accept_ranges cfg bucket request pathname tagged in
      let accepted : described ≡ set_header "accept-ranges" "bytes" tagged =
        ap (λ b. if b then set_header "accept-ranges" "bytes" tagged else tagged) ranges in
      let range = content_range span meta.size in
      let placed = set_header "content-range" range described in
      let count = number_text span.length in
      let answer : Answer = record {
        status = 206;
        headers = set_header "content-length" count placed;
        body = some o.body;
      } in
      let kept : (n : String)
          → str_eq "cache-control" n ≡ false
          → str_eq "cross-origin-resource-policy" n ≡ false
          → str_eq "cross-origin-embedder-policy" n ≡ false
          → str_eq "cross-origin-opener-policy" n ≡ false
          → get_header n (finish cfg.header_opts answer pathname (some "artifact") none).headers
            ≡ get_header n answer.headers =
        λ n. finish-get n cfg.header_opts answer pathname (some "artifact") none bare in
      let other : (n : String)
          → str_eq "content-length" n ≡ false
          → str_eq "content-range" n ≡ false
          → get_header n answer.headers ≡ get_header n described =
        λ n a b.
          get-set_header_other n "content-length" count placed a
          ∙ get-set_header_other n "content-range" range described b in
      record {
        status = refl;
        body = refl;
        length =
            kept "content-length" refl refl refl refl
            ∙ get-set_header "content-length" count placed;
        place =
            kept "content-range" refl refl refl refl
            ∙ get-set_header_other "content-range" "content-length" count placed refl
            ∙ get-set_header "content-range" range described;
        tag =
            kept "etag" refl refl refl refl
            ∙ other "etag" refl refl
            ∙ ap (get_header "etag") accepted
            ∙ get-set_header_other "etag" "accept-ranges" "bytes" tagged refl
            ∙ get-set_header "etag" meta.http_etag (meta.write_http_metadata []);
        ranges =
            kept "accept-ranges" refl refl refl refl
            ∙ other "accept-ranges" refl refl
            ∙ ap (get_header "accept-ranges") accepted
            ∙ get-set_header "accept-ranges" "bytes" tagged;
      }

  -- Which branch is taken.
  serve_keys-part :
      (mapped : Bool) (keys : Keys) (spec : Spec) (meta : Meta) (o : Object) (span : Span)
      → cfg.ranges ≡ true
      → request.method ≡ "GET"
      → parse_range (get_header "range" request.headers) ≡ some spec
      → get_header "if-range" request.headers ≡ none
      → bucket.head keys.key ≡ some meta
      → resolve_range spec meta.size ≡ some span
      → bucket.get keys.key (some request.headers) ≡ some o
      → o.range ≡ some (part (some span.offset) (some span.length))
      → serve_keys cfg bucket request pathname mapped keys
        ≡ part_answer cfg bucket request pathname o span
  unfolding serve_keys
  serve_keys-part mapped keys spec meta o span ranges get p i h s e r =
      ap (λ x. with_spec cfg bucket request pathname mapped x keys)
        (asked cfg.ranges request.method ranges get ∙ p)
      ∙ ap
          (λ m.
            preflight cfg bucket request pathname mapped spec (fallback_tried bucket.head m keys).0
              (fallback_tried bucket.head m keys).1)
          h
      ∙ preflight-part mapped spec keys.key meta o span (ap (λ m. str_eq m "HEAD") get) i s e r
    where
      asked :
          (b : Bool) (m : String)
          → b ≡ true
          → m ≡ "GET"
          → (if b && str_eq m "GET" then parse_range (get_header "range" request.headers) else none)
            ≡ parse_range (get_header "range" request.headers)
      asked b m p q = rw (p, q) refl

  -- A GET for a range that the object has, without an `if-range`, from a bucket that finds the key
  -- and returns the range asked for and reports it, where there is no `decorate`: the answer is a 206
  -- with the bytes that the bucket returned; its Content-Length is the size of the range, its
  -- Content-Range names the first and the last byte of it and the size of the object; it has the
  -- object's entity tag, and says that ranges are accepted.
  pub serve_keys-IsPart :
      (mapped : Bool) (keys : Keys) (spec : Spec) (meta : Meta) (o : Object) (span : Span)
      → cfg.header_opts.decorate ≡ none
      → cfg.ranges ≡ true
      → request.method ≡ "GET"
      → parse_range (get_header "range" request.headers) ≡ some spec
      → get_header "if-range" request.headers ≡ none
      → bucket.head keys.key ≡ some meta
      → resolve_range spec meta.size ≡ some span
      → bucket.get keys.key (some request.headers) ≡ some o
      → o.range ≡ some (part (some span.offset) (some span.length))
      → IsPart o span.offset span.length (serve_keys cfg bucket request pathname mapped keys)
  serve_keys-IsPart mapped keys spec meta o span bare ranges get p i h s e r =
      subst (IsPart o span.offset span.length)
        (sym (serve_keys-part mapped keys spec meta o span ranges get p i h s e r))
        (part_answer-IsPart o span bare ranges)
