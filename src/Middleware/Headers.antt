-- ===== src/Middleware/Headers.antt =====
-- middleware/helmet.go, middleware/requestid.go, middleware/responsetime.go, middleware/favicon.go and
-- middleware/etag.go: the middlewares that set headers around the rest of the chain.
pub mod Laws
mod Tests
use gofi.Prelude.{
  ℕ, zero, suc, ◌+◌, ◌-◌, ◌/◌, ◌%◌, Bool, not, ◌&&◌, ◌||◌, none, List, [], ◌∷◌, ◌++◌, ◌==◌, ltb,
  if◌then◌else◌, Bytes, bytes_eq, codes, itoa, length,
}
use gofi.Chain.{Outcome, stop, act, look, call_next, pass}
use gofi.Mux.{is_empty_text}
use gofi.Middleware.{Exchange, Middleware, set_header, send_string}
use gofi.Middleware.Cors.{set_if, is_given}
use gofi.Validators.Texts.{contains_text}

pub record HelmetConfig : Type 0 where
  pub xss_protection : Bytes
  pub content_type_nosniff : Bytes
  pub x_frame_options : Bytes
  pub hsts_max_age : ℕ
  pub hsts_exclude_subdomains : Bool
  pub hsts_preload : Bool
  pub content_security_policy : Bytes
  pub csp_report_only : Bool
  pub referrer_policy : Bytes
  pub cross_origin_embedder_policy : Bytes
  pub cross_origin_opener_policy : Bytes
  pub cross_origin_resource_policy : Bytes
  pub origin_agent_cluster : Bytes
  pub x_dns_prefetch_control : Bytes
  pub x_download_options : Bytes
  pub x_permitted_cross_domain_policies : Bytes

-- A field of the config, or its default.
abbrev or_else : Bytes → Bytes → Bytes
or_else [] d = d
or_else (c ∷ s) d = c ∷ s

-- "Override config if provided"
abbrev pub fill_helmet : HelmetConfig → HelmetConfig
fill_helmet cfg = record cfg {
  xss_protection = or_else cfg.xss_protection (codes "0");
  content_type_nosniff = or_else cfg.content_type_nosniff (codes "nosniff");
  x_frame_options = or_else cfg.x_frame_options (codes "SAMEORIGIN");
  referrer_policy = or_else cfg.referrer_policy (codes "no-referrer");
  cross_origin_embedder_policy = or_else cfg.cross_origin_embedder_policy (codes "require-corp");
  cross_origin_opener_policy = or_else cfg.cross_origin_opener_policy (codes "same-origin");
  cross_origin_resource_policy = or_else cfg.cross_origin_resource_policy (codes "same-origin");
  origin_agent_cluster = or_else cfg.origin_agent_cluster (codes "?1");
  x_dns_prefetch_control = or_else cfg.x_dns_prefetch_control (codes "off");
  x_download_options = or_else cfg.x_download_options (codes "noopen");
  x_permitted_cross_domain_policies = or_else cfg.x_permitted_cross_domain_policies (codes "none");
}

-- "Prepare HSTS string"
unfoldable pub hsts_text : HelmetConfig → Bytes
hsts_text cfg =
    if ltb 0 cfg.hsts_max_age
    then codes "max-age="
      ++ (itoa cfg.hsts_max_age
          ++ ((if cfg.hsts_exclude_subdomains then [] else codes "; includeSubDomains")
              ++ (if cfg.hsts_preload then codes "; preload" else [])))
    else []

abbrev pub csp_header : HelmetConfig → Bytes
csp_header cfg =
    if cfg.csp_report_only
    then codes "Content-Security-Policy-Report-Only"
    else codes "Content-Security-Policy"

-- The headers of Helmet in the order of the code; an empty one is not set.
abbrev pub helmet_headers : HelmetConfig → List (Bytes × Bytes)
helmet_headers cfg =
    (codes "X-XSS-Protection", cfg.xss_protection)
    ∷ (codes "X-Content-Type-Options", cfg.content_type_nosniff)
    ∷ (codes "X-Frame-Options", cfg.x_frame_options)
    ∷ (codes "Referrer-Policy", cfg.referrer_policy)
    ∷ (codes "Cross-Origin-Embedder-Policy", cfg.cross_origin_embedder_policy)
    ∷ (codes "Cross-Origin-Opener-Policy", cfg.cross_origin_opener_policy)
    ∷ (codes "Cross-Origin-Resource-Policy", cfg.cross_origin_resource_policy)
    ∷ (codes "Origin-Agent-Cluster", cfg.origin_agent_cluster)
    ∷ (codes "X-DNS-Prefetch-Control", cfg.x_dns_prefetch_control)
    ∷ (codes "X-Download-Options", cfg.x_download_options)
    ∷ (codes "X-Permitted-Cross-Domain-Policies", cfg.x_permitted_cross_domain_policies)
    ∷ (codes "Strict-Transport-Security", hsts_text cfg)
    ∷ (csp_header cfg, cfg.content_security_policy)
    ∷ []

unfoldable pub set_headers : List (Bytes × Bytes) → Exchange → Exchange
set_headers [] x = x
set_headers ((key, value) ∷ headers) x = set_headers headers (set_if (is_given value) key value x)

-- `Helmet` for a config that `fill_helmet` has filled.
unfoldable pub helmet : HelmetConfig → Middleware
unfolding hsts_text set_headers
helmet cfg = act (set_headers (helmet_headers cfg)) pass

-- `RequestID`; `generated` is what its generator gives.
unfoldable pub request_id : Bytes → Bytes → Middleware
request_id header generated =
    look (λ x. act (set_header header (or_else (x.request.header header) generated)) pass)

-- `ResponseTime`; `elapsed` is the text of the time that the rest of the chain takes.
unfoldable pub response_time : Bytes → Bytes → Bytes → Middleware
response_time header suffix elapsed =
    call_next (λ e. act (set_header header (elapsed ++ suffix)) (stop e))

-- `Favicon`, with the bytes of the icon.
unfoldable pub favicon : Bytes → Bytes → Bytes → Middleware
favicon url cache_control icon = look (λ x.
    if not (bytes_eq x.request.path url)
    then pass
    else if not (bytes_eq x.request.method (codes "GET"))
        && not (bytes_eq x.request.method (codes "HEAD"))
    then pass
    else act
        (λ y. send_string 200 icon (
          set_header (codes "Cache-Control") cache_control
            (set_header (codes "Content-Type") (codes "image/x-icon") y)))
        (stop none))

-- "%x"; each digit makes the number smaller, so that it is enough fuel.
abbrev hex_digit : ℕ → ℕ
hex_digit d = if ltb d 10 then b'0' + d else b'a' + (d - 10)

unfoldable pub hex_from : ℕ → ℕ → Bytes → Bytes
hex_from zero n acc = acc
hex_from (suc f) n acc =
    let rest = hex_from f (n / 16) (hex_digit (n % 16) ∷ acc) in
    if ltb n 16 then hex_digit n ∷ acc else rest

abbrev pub hex : ℕ → Bytes
hex n = hex_from (n + 1) n []

-- The tag of a body, of which `crc32` is the checksum.
unfoldable pub etag_of : (Bytes → ℕ) → Bool → Bytes → Bytes
unfolding hex_from
etag_of crc32 weak body =
    (if weak then codes "W/" else [])
    ++ (b'"' ∷ (hex (length body) ++ (b'-' ∷ hex (crc32 body)) ++ b'"' ∷ []))

abbrev pub not_modified : Exchange → Exchange
not_modified x = record x { body = []; status = 304 }

abbrev pub is_named : Bytes → Bytes → Bool
is_named given tag = contains_text given tag || bytes_eq given (codes "*")

-- What ETag does behind the rest of the chain, whose error is `e`.
abbrev pub tag_response : (Bytes → ℕ) → Bool → Outcome → Exchange → Middleware
tag_response crc32 weak e x =
    let tag = etag_of crc32 weak x.body in
    if not (x.status == 200)
    then stop e
    else if is_empty_text x.body
    then stop e
    else act (set_header (codes "ETag") tag) (
        if is_named (x.request.header (codes "If-None-Match")) tag
        then act not_modified (stop none)
        else stop e)

-- `ETag`
unfoldable pub etag : (Bytes → ℕ) → Bool → Middleware
unfolding etag_of contains_text
etag crc32 weak = look (λ x.
    if not (bytes_eq x.request.method (codes "GET"))
      && not (bytes_eq x.request.method (codes "HEAD"))
    then pass
    else call_next (λ e. look (λ y. tag_response crc32 weak e y)))
