-- ===== src/Middleware/Tests.antt =====
-- Runs of the middlewares, and the theorems at them.
use gofi.Prelude.{
  ℕ, ◌≤◌, ◌≡◌, ◌⊎◌, refl, String, cut_last, split_on, trim_space, trim_left, trim_right, inr, true,
  false, Option, none, some, [], ◌∷◌, ◌++◌, arith, Bytes, bytes_eq, codes,
}
use gofi.Store.{Items, set, has}
use gofi.Chain.{stop, act, serve, next, next_from, run}
use gofi.Chain.Laws.{shift}
use gofi.Mux.{is_empty_text}
use gofi.Middleware.{Exchange, Middleware, send_string}
use gofi.Middleware.Cors.{CorsConfig, default_cors, cors, allow_origin, find_origin}
use gofi.Middleware.Csrf.{
  Crypto, CsrfConfig, cut_colon, verify_signed, cookie_token, extract_token, csrf,
}
use gofi.Middleware.Csrf.Laws.{with_cookie, csrf_guards, csrf_accepts}
use gofi.Middleware.Paths.{fill_target, find_target}
use gofi.Middleware.Cache.{
  CacheEntry, CacheConfig, CacheState, remember, make_room, release, victim,
}
use gofi.Middleware.Cache.Accounts.{sizes, remember-max_bytes}

-- A text for one key, and none for the others.
abbrev only : String → String → Bytes → Bytes
only key value k = elim (bytes_eq k (codes key)) [ true ↦ codes value | false ↦ [] ]

abbrev at_cookie : String → Bytes → Option Bytes
at_cookie value k = elim (bytes_eq k (codes "csrf_")) [ true ↦ some (codes value) | false ↦ none ]

abbrev exchange : String → String → (Bytes → Bytes) → (Bytes → Option Bytes) → Exchange
exchange method path header cookie = record {
  request = record {
    method = codes method;
    path = codes path;
    header = header;
    query = λ k. [];
    param = λ k. [];
    form = λ k. [];
    cookie = cookie;
    is_tls = false;
  };
  headers = [];
  content_type = [];
  status = 200;
  body = [];
}

abbrev answers : Middleware
answers = act (send_string 200 (codes "hello")) (stop none)

-- CORS
abbrev two_origins : CorsConfig
two_origins = record default_cors { allow_origins = codes "a.io, b.io" }

abbrev from : String → String → Exchange
from method origin = exchange method "/" (only "Origin" origin) (λ k. none)

-- A preflight request of a listed origin, and a request of another.
cors_runs :
    ((serve (cors two_origins ∷ answers ∷ []) (from "OPTIONS" "b.io")).1.state.status ≡ 204)
    × ((serve (cors two_origins ∷ answers ∷ []) (from "GET" "c.io")).1.state.headers ≡ [])
unfolding cors allow_origin find_origin split_on trim_space trim_left trim_right next next_from run
    set
cors_runs = (refl, refl)

-- CSRF, with a code that writes each byte twice.
twice : Bytes → Bytes
twice [] = []
twice (c ∷ s) = c ∷ c ∷ twice s

halve : Bytes → Option Bytes
halve [] = some []
halve (c ∷ []) = none
halve (c ∷ d ∷ s) = elim (halve s) [ none ↦ none | some r ↦ some (c ∷ r) ]

abbrev toy : Crypto
toy = record { hmac = λ key s. key ++ s; hex_encode = twice; hex_decode = halve }

abbrev forbidden : Middleware
forbidden = stop (some (record { code = 403; message = codes "invalid CSRF token" }))

abbrev csrf_config : CsrfConfig
csrf_config = record {
  key_lookup = codes "header:X-CSRF-Token";
  cookie_name = codes "csrf_";
  cookie_domain = [];
  cookie_path = [];
  cookie_secure = false;
  cookie_http_only = false;
  cookie_same_site = codes "Lax";
  expiration = 3600;
  error_handler = forbidden;
  sign_tokens = true;
  signing_key = codes "k";
}

abbrev posted : String → Exchange
posted token = exchange "POST" "/" (only "X-CSRF-Token" token) (at_cookie "t.kktt")

csrf_guards_example :
    (serve (csrf toy csrf_config [] ∷ answers ∷ []) (posted "t.kkxx")
      ≡ shift
          (run (next (answers ∷ [])) forbidden (record { position = 0; state = posted "t.kkxx" })))
    ⊎ (serve (csrf toy csrf_config [] ∷ answers ∷ []) (posted "t.kkxx")
        ≡ shift (
            serve (answers ∷ []) (
              with_cookie csrf_config
                (extract_token csrf_config (posted "t.kkxx"))
                (posted "t.kkxx"))))
      × (is_empty_text (extract_token csrf_config (posted "t.kkxx")) ≡ false)
      × ((true ≡ false)
          ⊎ (cookie_token csrf_config (posted "t.kkxx")
              ≡ extract_token csrf_config (posted "t.kkxx"))
            × (verify_signed toy (extract_token csrf_config (posted "t.kkxx")) (codes "k") ≡ true))
csrf_guards_example = csrf_guards toy csrf_config [] (answers ∷ []) (posted "t.kkxx") refl

csrf_accepts_example :
    serve (csrf toy csrf_config [] ∷ answers ∷ []) (posted "t.kktt")
    ≡ shift (serve (answers ∷ []) (with_cookie csrf_config (codes "t.kktt") (posted "t.kktt")))
unfolding extract_token cut_colon verify_signed cut_last twice halve
csrf_accepts_example =
    csrf_accepts toy csrf_config [] (answers ∷ []) (posted "t.kktt") refl refl (inr refl)

-- Redirects: the rule for "/old/*" takes "/older" too, and the second "//" of a URL is lost.
older :
    find_target ((codes "/old/*", codes "https://a.io/$1") ∷ []) (codes "/older")
    ≡ some (codes "https:/a.io/er")
unfolding find_target fill_target
older = refl

abbrev visit : Exchange
visit = exchange "GET" "/old/a" (λ k. []) (λ k. none)

abbrev old_rules : Items Bytes
old_rules = (codes "/old/*", codes "/new$1") ∷ (codes "/", codes "/home") ∷ []

-- Cache
abbrev entry : ℕ → CacheEntry
entry size = record { body = []; content_type = []; status = 200; exp = 100; size = size }

abbrev small_cache : CacheConfig
small_cache = record {
  expiration = 100;
  cache_header = false;
  key_of = λ x. x.request.path;
  methods = λ m. true;
  max_entries = 2;
  max_bytes = 25;
  allow_private = false;
}

abbrev two_entries : CacheState
two_entries = record {
  store = (codes "a", entry 10) ∷ (codes "b", entry 10) ∷ [];
  total_bytes = 20;
}

remember-max_bytes_example :
    sizes (remember small_cache 5 (codes "c") (entry 10) two_entries).store ≤ 25
unfolding has
remember-max_bytes_example =
    remember-max_bytes small_cache 5 (codes "c") (entry 10) two_entries refl refl (omega arith)
      (omega arith)

-- A key that is stored again: its old entry is taken off the count twice, and the entries hold more
-- than the limit.
replaced_key :
    (sizes (remember small_cache 5 (codes "a") (entry 20) two_entries).store ≡ 30)
    × ((remember small_cache 5 (codes "a") (entry 20) two_entries).total_bytes ≡ 20)
unfolding remember make_room release victim set
replaced_key = (refl, refl)
