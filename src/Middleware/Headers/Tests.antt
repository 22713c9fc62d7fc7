-- ===== src/Middleware/Headers/Tests.antt =====
-- Runs of the middlewares that set headers.
use gofi.Prelude.{
  ℕ, ◌≡◌, refl, Bool, true, false, none, some, [], ◌∷◌, Bytes, bytes_eq, codes, String,
}
use gofi.Store.{get, set}
use gofi.Chain.{Outcome, Context, HttpError, stop, act, serve, next, next_from, run}
use gofi.Middleware.Headers.Laws.{Rest, IsTagged, etag-IsTagged}
use gofi.Validators.Texts.{contains_text}
use gofi.Middleware.{Exchange, Middleware, send_bytes}
use gofi.Middleware.Headers.{
  HelmetConfig, fill_helmet, helmet, set_headers, hsts_text, request_id, response_time, favicon,
  hex_from, etag_of, etag,
}

abbrev if_key : Bool → String → Bytes
if_key true value = codes value
if_key false value = []

abbrev exchange : String → String → String → String → Exchange
exchange method path key value = record {
  request = record {
    method = codes method;
    path = codes path;
    header = λ k. if_key (bytes_eq k (codes key)) value;
    query = λ k. [];
    param = λ k. [];
    form = λ k. [];
    cookie = λ k. none;
    is_tls = false;
  };
  headers = [];
  content_type = [];
  status = 200;
  body = [];
}

abbrev answers : Outcome → Middleware
answers e = act (send_bytes 200 (codes "hello")) (stop e)

abbrev size_sum : Bytes → ℕ
size_sum body = 255

abbrev tagged : String → Outcome → Outcome × Exchange
tagged given e =
    let (o, c) =
      serve (etag size_sum false ∷ answers e ∷ []) (exchange "GET" "/" "If-None-Match" given) in
    (o, c.state)

abbrev broken : HttpError
broken = record { code = 0; message = codes "broken" }

-- The tag of an answer, the answer to its owner, and the error of a handler that wrote a body: it is
-- lost if the request names the tag.
etag_runs :
    (get (tagged "" none).1.headers (codes "ETag") ≡ some (codes "\"5-ff\""))
    × (((tagged "\"1-a\", \"5-ff\"" none).1.status ≡ 304)
        × (((tagged "\"5-ff\"" none).1.body ≡ [])
            × (((tagged "" (some broken)).0 ≡ some broken)
                × ((tagged "*" (some broken)).0 ≡ none))))
unfolding etag etag_of hex_from contains_text next next_from run get set
etag_runs = (refl, (refl, (refl, (refl, refl))))

abbrev no_config : HelmetConfig
no_config = record {
  xss_protection = [];
  content_type_nosniff = [];
  x_frame_options = [];
  hsts_max_age = 60;
  hsts_exclude_subdomains = false;
  hsts_preload = false;
  content_security_policy = [];
  csp_report_only = true;
  referrer_policy = codes "origin";
  cross_origin_embedder_policy = [];
  cross_origin_opener_policy = [];
  cross_origin_resource_policy = [];
  origin_agent_cluster = [];
  x_dns_prefetch_control = [];
  x_download_options = [];
  x_permitted_cross_domain_policies = [];
}

abbrev served : Middleware → Exchange → Exchange
served m x = (serve (m ∷ answers none ∷ []) x).1.state

helmet_runs :
    (get
        (served (helmet (fill_helmet no_config)) (exchange "GET" "/" "" "")).headers
        (codes "Referrer-Policy")
      ≡ some (codes "origin"))
    × ((get
            (served (helmet (fill_helmet no_config)) (exchange "GET" "/" "" "")).headers
            (codes "X-Frame-Options")
          ≡ some (codes "SAMEORIGIN"))
        × (get
              (served (helmet (fill_helmet no_config)) (exchange "GET" "/" "" "")).headers
              (codes "Content-Security-Policy")
            ≡ none))
unfolding helmet set_headers hsts_text next next_from run get set
helmet_runs = (refl, (refl, refl))

others_run :
    (get
        (served (request_id (codes "Id") (codes "new")) (exchange "GET" "/" "Id" "old")).headers
        (codes "Id")
      ≡ some (codes "old"))
    × ((get
            (served
              (response_time (codes "Time") (codes "ms") (codes "1.50"))
              (exchange "GET" "/" "" "")).headers
            (codes "Time")
          ≡ some (codes "1.50ms"))
        × (((served
                (favicon (codes "/f") (codes "public") (codes "i"))
                (exchange "GET" "/f" "" "")).body
              ≡ codes "i")
            × ((served
                  (favicon (codes "/f") (codes "public") (codes "i"))
                  (exchange "POST" "/f" "" "")).body
                ≡ codes "hello")))
unfolding request_id response_time favicon next next_from run get set
others_run = (refl, (refl, (refl, refl)))

-- The rest of a chain with one handler, at a request that names the tag.
abbrev rest : Rest
rest = next (answers (some broken) ∷ [])

abbrev named : Context Exchange
named = record { position = 0; state = exchange "GET" "/" "If-None-Match" "\"5-ff\"" }

etag-IsTagged_example :
    IsTagged size_sum false (codes "GET") (rest named) (run rest (etag size_sum false) named)
etag-IsTagged_example = etag-IsTagged size_sum false rest named
