-- ===== src/Middleware.antt =====
-- middleware/: the request and the response as the middlewares see them. A middleware is a handler
-- over both.
pub mod Cors
pub mod Csrf
pub mod Paths
pub mod Cache
pub mod Headers
mod Tests
use gofi.Prelude.{ℕ, Option, Bool, true, false, ◌||◌, List, [], ◌∷◌, ◌++◌, Bytes, bytes_eq, codes}
use gofi.Store.{Items, set}
use gofi.Chain.{Handler, stop, act, look, pass}

-- `header`, `query`, `param` and `form` give the empty text for what is not there.
pub record Request : Type 0 where
  pub method : Bytes
  pub path : Bytes
  pub header : Bytes → Bytes
  pub query : Bytes → Bytes
  pub param : Bytes → Bytes
  pub form : Bytes → Bytes
  pub cookie : Bytes → Option Bytes
  pub is_tls : Bool

-- The request, whose path a middleware may replace, and the response. The keys of `headers` are in
-- their canonical form, in which the code writes them.
pub record Exchange : Type 0 where
  pub request : Request
  pub headers : Items Bytes
  pub content_type : Bytes
  pub status : ℕ
  pub body : Bytes

abbrev pub Middleware : Type 0
Middleware = Handler Exchange

-- c.Writer().Header().Set and Add
abbrev pub set_header : Bytes → Bytes → Exchange → Exchange
set_header key value x = record x { headers = set x.headers key value }

abbrev pub add_header : Bytes → Bytes → Exchange → Exchange
add_header key value x = record x { headers = x.headers ++ (key, value) ∷ [] }

abbrev pub send_bytes : ℕ → Bytes → Exchange → Exchange
send_bytes code body x = record x { status = code; body = body }

abbrev pub send_string : ℕ → Bytes → Exchange → Exchange
send_string code body x = record x {
  content_type = codes "text/plain; charset=utf-8";
  status = code;
  body = body;
}

-- GET, HEAD, OPTIONS and TRACE
abbrev pub is_safe : Bytes → Bool
is_safe method =
    bytes_eq method (codes "GET")
    || bytes_eq method (codes "HEAD")
    || bytes_eq method (codes "OPTIONS")
    || bytes_eq method (codes "TRACE")

-- skip.go: `Skip`
abbrev pub skip : (Exchange → Bool) → Middleware → Middleware
skip filter handler = look (λ x. elim (filter x) [ true ↦ pass | false ↦ handler ])

-- earlydata.go: `EarlyData`, with the three functions of its config
abbrev pub early_data : (Exchange → Bool) → (Exchange → Bool) → Middleware → Middleware
early_data is_early allow on_error = look (λ x. elim (is_early x) [
  | true ↦ elim (allow x) [ true ↦ pass | false ↦ on_error ]
  | false ↦ pass
])
