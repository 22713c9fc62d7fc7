-- ===== src/Middleware/Cors/Laws.antt =====
-- middleware/cors.go: which origins `CORS` lets through, and how it answers them.
use gofi.Prelude.{
  Bool, ◌≡◌, ◌≢◌, refl, ◌∙◌, sym, true, false, none, some, List, [], ◌∷◌, arith, if◌then◌else◌,
  Bytes, bytes_eq, bytes_eq_iff, codes, split_on, trim_space, All, ap, ltb, itoa,
}
use gofi.Store.{get}
use gofi.Store.Laws.{get-set}
use gofi.Chain.{stop, act, pass, run, serve, next, Context}
use gofi.Chain.Laws.{shift, serve-cons}
use gofi.Mux.{is_empty_text}
use gofi.Middleware.{Exchange, Middleware, set_header}
use gofi.Middleware.Cors.{
  CorsConfig, find_origin, allow_origin, origin_headers, preflight, is_preflight, cors_allowed,
  cors, set_if, allowed_headers, is_given,
}

find_origin-none :
    (origin : Bytes) (os : List Bytes)
    → All (λ o. trim_space o ≢ origin) os
    → find_origin origin os ≡ []
unfolding find_origin
find_origin-none origin [] h = refl
find_origin-none origin (o ∷ os) (ne, h) =
    ground (arith, bytes_eq_iff (trim_space o) origin, find_origin-none origin os h)

allow_origin-none :
    (cfg : CorsConfig) (origin : Bytes)
    → cfg.allow_origins ≢ codes "*"
    → All (λ o. trim_space o ≢ origin) (split_on b',' cfg.allow_origins)
    → allow_origin cfg origin ≡ []
unfolding allow_origin
allow_origin-none cfg origin ne h = ground (
  arith,
  bytes_eq_iff cfg.allow_origins (codes "*"),
  find_origin-none origin (split_on b',' cfg.allow_origins) h,
)

abbrev origin_of : Exchange → Bytes
origin_of x = x.request.header (codes "Origin")

abbrev start : Exchange → Context Exchange
start x = record { position = 0; state = x }

-- The program behind the tests of the origin.
abbrev choose_cors : CorsConfig → Exchange → Middleware
choose_cors cfg x =
    if is_empty_text (origin_of x)
    then pass
    else if is_empty_text (allow_origin cfg (origin_of x))
    then pass
    else cors_allowed cfg (allow_origin cfg (origin_of x)) x

refused_pass :
    (origin allow : Bytes) (m : Middleware)
    → allow ≡ []
    → (if is_empty_text origin then pass else if is_empty_text allow then pass else m) ≡ pass
refused_pass [] allow m e = refl
refused_pass (c ∷ origin) allow m e = rw e refl

choose_cors-allowed :
    (cfg : CorsConfig) (x : Exchange)
    → is_empty_text (origin_of x) ≡ false
    → is_empty_text (allow_origin cfg (origin_of x)) ≡ false
    → choose_cors cfg x ≡ cors_allowed cfg (allow_origin cfg (origin_of x)) x
choose_cors-allowed cfg x given allowed = rw (given, allowed) refl

serve-cors :
    (cfg : CorsConfig) (hs : List Middleware) (x : Exchange)
    → serve (cors cfg ∷ hs) x ≡ shift (run (next hs) (choose_cors cfg x) (start x))
unfolding cors run
serve-cors cfg hs x = serve-cons (cors cfg) hs x

-- The answer to a preflight request, without the rest of the chain.
preflight-serve :
    (cfg : CorsConfig) (hs : List Middleware) (x : Exchange)
    → is_empty_text (origin_of x) ≡ false
    → is_empty_text (allow_origin cfg (origin_of x)) ≡ false
    → x.request.method ≡ codes "OPTIONS"
    → serve (cors cfg ∷ hs) x ≡ (
      none,
      record {
        position = 1;
        state = preflight cfg (origin_headers cfg (allow_origin cfg (origin_of x)) x);
      },
    )
unfolding run
preflight-serve cfg hs x given allowed is_options =
    serve-cors cfg hs x
    ∙ ap (λ m. shift (run (next hs) m (start x)))
        (choose_cors-allowed cfg x given allowed
          ∙ ap
              (λ b.
                act (origin_headers cfg (allow_origin cfg (origin_of x)))
                  (if b then act (preflight cfg) (stop none) else pass))
              options)
  where
    options : is_preflight x ≡ true
    options = ground (arith, bytes_eq_iff x.request.method (codes "OPTIONS"))

get-set_if :
    (b : Bool) (key value other : Bytes) (x : Exchange)
    → bytes_eq key other ≡ false
    → get (set_if b key value x).headers other ≡ get x.headers other
get-set_if true key value other x ne = get-set x.headers key value other ∙ rw ne refl
get-set_if false key value other x ne = refl

preflight-origin :
    (cfg : CorsConfig) (allow : Bytes) (x : Exchange)
    → get (preflight cfg (origin_headers cfg allow x)).headers (codes "Access-Control-Allow-Origin")
      ≡ some allow
preflight-origin cfg allow x =
    let key = codes "Access-Control-Allow-Origin" in
    let granted = set_header key allow x in
    let credited =
      set_if cfg.allow_credentials (codes "Access-Control-Allow-Credentials") (codes "true")
        granted in
    let exposed = origin_headers cfg allow x in
    let methods = set_header (codes "Access-Control-Allow-Methods") cfg.allow_methods exposed in
    let given = allowed_headers cfg exposed in
    let headed = set_if (is_given given) (codes "Access-Control-Allow-Headers") given methods in
    get-set_if (ltb 0 cfg.max_age) (codes "Access-Control-Max-Age") (itoa cfg.max_age) key headed
      refl
    ∙ get-set_if (is_given given) (codes "Access-Control-Allow-Headers") given key methods refl
    ∙ get-set_if true (codes "Access-Control-Allow-Methods") cfg.allow_methods key exposed refl
    ∙ get-set_if (is_given cfg.expose_headers) (codes "Access-Control-Expose-Headers")
        cfg.expose_headers key credited refl
    ∙ get-set_if cfg.allow_credentials (codes "Access-Control-Allow-Credentials") (codes "true") key
        granted refl
    ∙ get-set x.headers key allow key

-- A request from an origin that is not among those of the config goes on unchanged.
pub cors_refuses :
    (cfg : CorsConfig) (hs : List Middleware) (x : Exchange)
    → cfg.allow_origins ≢ codes "*"
    → All (λ o. trim_space o ≢ x.request.header (codes "Origin")) (split_on b',' cfg.allow_origins)
    → serve (cors cfg ∷ hs) x ≡ shift (serve hs x)
unfolding run
cors_refuses cfg hs x ne h =
    serve-cors cfg hs x
    ∙ ap (λ m. shift (run (next hs) m (start x)))
        (refused_pass (origin_of x) _ _ (allow_origin-none cfg (origin_of x) ne h))

-- A preflight request from an allowed origin is answered at once, whatever the rest of the chain is:
-- with status 204, an empty body and the allowed origin in its header.
pub cors_preflight :
    (cfg : CorsConfig) (hs rest : List Middleware) (x : Exchange)
    → is_empty_text (x.request.header (codes "Origin")) ≡ false
    → is_empty_text (allow_origin cfg (x.request.header (codes "Origin"))) ≡ false
    → x.request.method ≡ codes "OPTIONS"
    → (serve (cors cfg ∷ hs) x ≡ serve (cors cfg ∷ rest) x)
      × ((serve (cors cfg ∷ hs) x).0 ≡ none)
      × ((serve (cors cfg ∷ hs) x).1.state.status ≡ 204)
      × ((serve (cors cfg ∷ hs) x).1.state.body ≡ [])
      × (get (serve (cors cfg ∷ hs) x).1.state.headers (codes "Access-Control-Allow-Origin")
          ≡ some (allow_origin cfg (x.request.header (codes "Origin"))))
cors_preflight cfg hs rest x given allowed is_options =
    let here = preflight-serve cfg hs x given allowed is_options in
    let there = preflight-serve cfg rest x given allowed is_options in
    (
      here ∙ sym there,
      ap (λ r. r.0) here,
      ap (λ r. r.1.state.status) here,
      ap (λ r. r.1.state.body) here,
      ap (λ r. get r.1.state.headers (codes "Access-Control-Allow-Origin")) here
          ∙ preflight-origin cfg (allow_origin cfg (origin_of x)) x,
    )

-- Any other request from an allowed origin goes on, with the headers of the origin in its response.
pub cors_passes :
    (cfg : CorsConfig) (hs : List Middleware) (x : Exchange)
    → is_empty_text (x.request.header (codes "Origin")) ≡ false
    → is_empty_text (allow_origin cfg (x.request.header (codes "Origin"))) ≡ false
    → x.request.method ≢ codes "OPTIONS"
    → serve (cors cfg ∷ hs) x
      ≡ shift
          (serve hs (origin_headers cfg (allow_origin cfg (x.request.header (codes "Origin"))) x))
unfolding run
cors_passes cfg hs x given allowed other =
    serve-cors cfg hs x
    ∙ ap (λ m. shift (run (next hs) m (start x)))
        (choose_cors-allowed cfg x given allowed
          ∙ ap
              (λ b.
                act (origin_headers cfg (allow_origin cfg (origin_of x)))
                  (if b then act (preflight cfg) (stop none) else pass))
              not_preflight)
  where
    not_preflight : is_preflight x ≡ false
    not_preflight = ground (arith, bytes_eq_iff x.request.method (codes "OPTIONS"))
