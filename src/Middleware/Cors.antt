-- ===== src/Middleware/Cors.antt =====
-- middleware/cors.go
pub mod Laws
use gofi.Prelude.{
  ℕ, Bool, true, false, none, List, [], ◌∷◌, ltb, if◌then◌else◌, Bytes, bytes_eq, codes, split_on,
  trim_space, itoa,
}
use gofi.Chain.{stop, act, look, pass}
use gofi.Mux.{is_empty_text}
use gofi.Middleware.{Exchange, Middleware, set_header, send_string}

pub record CorsConfig : Type 0 where
  pub allow_origins : Bytes
  pub allow_methods : Bytes
  pub allow_headers : Bytes
  pub allow_credentials : Bool
  pub expose_headers : Bytes
  pub max_age : ℕ

abbrev pub default_cors : CorsConfig
default_cors = record {
  allow_origins = codes "*";
  allow_methods = codes "GET,POST,HEAD,PUT,DELETE,PATCH,OPTIONS";
  allow_headers = [];
  allow_credentials = false;
  expose_headers = [];
  max_age = 0;
}

abbrev pub or_default : Bytes → Bytes → Bytes
or_default s d = if is_empty_text s then d else s

-- "Override config if provided"
abbrev pub fill_cors : CorsConfig → CorsConfig
fill_cors cfg = record cfg {
  allow_origins = or_default cfg.allow_origins default_cors.allow_origins;
  allow_methods = or_default cfg.allow_methods default_cors.allow_methods;
}

-- The loop over the origins of the config.
unfoldable pub find_origin : Bytes → List Bytes → Bytes
find_origin origin [] = []
find_origin origin (o ∷ os) =
    let rest = find_origin origin os in if bytes_eq (trim_space o) origin then origin else rest

unfoldable pub allow_origin : CorsConfig → Bytes → Bytes
unfolding find_origin
allow_origin cfg origin =
    if bytes_eq cfg.allow_origins (codes "*")
    then codes "*"
    else find_origin origin (split_on b',' cfg.allow_origins)

-- c.Writer().Header().Set under a condition
abbrev pub set_if : Bool → Bytes → Bytes → Exchange → Exchange
set_if b key value x = if b then set_header key value x else x

abbrev pub is_given : Bytes → Bool
is_given s = if is_empty_text s then false else true

-- The headers of every answer to an allowed origin.
abbrev pub origin_headers : CorsConfig → Bytes → Exchange → Exchange
origin_headers cfg allow x =
    set_if (is_given cfg.expose_headers) (codes "Access-Control-Expose-Headers") cfg.expose_headers
      (set_if cfg.allow_credentials (codes "Access-Control-Allow-Credentials") (codes "true")
        (set_header (codes "Access-Control-Allow-Origin") allow x))

abbrev pub allowed_headers : CorsConfig → Exchange → Bytes
allowed_headers cfg x =
    if is_given cfg.allow_headers
    then cfg.allow_headers
    else x.request.header (codes "Access-Control-Request-Headers")

-- The answer to a preflight request.
abbrev pub preflight : CorsConfig → Exchange → Exchange
preflight cfg x = send_string 204 [] (
    set_if (ltb 0 cfg.max_age) (codes "Access-Control-Max-Age") (itoa cfg.max_age) (
      set_if (is_given (allowed_headers cfg x)) (codes "Access-Control-Allow-Headers")
        (allowed_headers cfg x)
        (set_header (codes "Access-Control-Allow-Methods") cfg.allow_methods x)))

abbrev pub is_preflight : Exchange → Bool
is_preflight x = bytes_eq x.request.method (codes "OPTIONS")

-- The part behind the check of the origin.
abbrev pub cors_allowed : CorsConfig → Bytes → Exchange → Middleware
cors_allowed cfg allow x =
    act (origin_headers cfg allow)
      (if is_preflight x then act (preflight cfg) (stop none) else pass)

-- `CORS` for a config that `fill_cors` has filled.
unfoldable pub cors : CorsConfig → Middleware
unfolding allow_origin
cors cfg = look (λ x.
    let origin = x.request.header (codes "Origin") in
    let allow = allow_origin cfg origin in
    if is_empty_text origin
    then pass
    else if is_empty_text allow
    then pass
    else cors_allowed cfg allow x)
