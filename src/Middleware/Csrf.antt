-- ===== src/Middleware/Csrf.antt =====
-- middleware/csrf.go
pub mod Laws
use gofi.Prelude.{
  ℕ, Bool, true, false, not, ◌&&◌, ◌||◌, Option, none, some, List, [], ◌∷◌, ◌++◌, ◌==◌,
  if◌then◌else◌, Bytes, bytes_eq, codes, cut_last, itoa,
}
use gofi.Chain.{act, look, pass}
use gofi.Mux.{is_empty_text}
use gofi.Middleware.{Exchange, Middleware, add_header, is_safe}

-- `expiration` in seconds. The random token of `KeyGenerator` is an argument of the middleware.
pub record CsrfConfig : Type 0 where
  pub key_lookup : Bytes
  pub cookie_name : Bytes
  pub cookie_domain : Bytes
  pub cookie_path : Bytes
  pub cookie_secure : Bool
  pub cookie_http_only : Bool
  pub cookie_same_site : Bytes
  pub expiration : ℕ
  pub error_handler : Middleware
  pub sign_tokens : Bool
  pub signing_key : Bytes

-- What the code uses of crypto/hmac with SHA-256 (a key, a message) and of encoding/hex.
pub record Crypto : Type 0 where
  pub hmac : Bytes → Bytes → Bytes
  pub hex_encode : Bytes → Bytes
  pub hex_decode : Bytes → Option Bytes

-- strings.SplitN(s, ":", 2), where it gives two parts
unfoldable pub cut_colon : Bytes → Option (Bytes × Bytes)
cut_colon [] = none
cut_colon (c ∷ s) =
    let rest : Option (Bytes × Bytes) = elim (cut_colon s) [
      | none ↦ none
      | some (l, r) ↦ some (c ∷ l, r)
    ] in
    if c == b':' then some ([], s) else rest

abbrev pub lookup_parts : CsrfConfig → Bytes × Bytes
lookup_parts cfg = elim (cut_colon cfg.key_lookup) [
  | none ↦ (codes "header", codes "X-CSRF-Token")
  | some p ↦ p
]

-- `extractToken`
unfoldable pub extract_token : CsrfConfig → Exchange → Bytes
unfolding cut_colon
extract_token cfg x =
    let (source, key) = lookup_parts cfg in
    if bytes_eq source (codes "header")
    then x.request.header key
    else if bytes_eq source (codes "query")
    then x.request.query key
    else if bytes_eq source (codes "param")
    then x.request.param key
    else if bytes_eq source (codes "form")
    then x.request.form key
    else []

-- The value of the cookie, or the empty text.
abbrev pub cookie_token : CsrfConfig → Exchange → Bytes
cookie_token cfg x = elim (x.request.cookie cfg.cookie_name) [ none ↦ [] | some v ↦ v ]

abbrev pub cookie_header : CsrfConfig → Bytes → Exchange → Bytes
cookie_header cfg token x =
    cfg.cookie_name
    ++ (codes "="
        ++ (token
            ++ (codes "; Path="
                ++ ((if is_empty_text cfg.cookie_path then codes "/" else cfg.cookie_path)
                    ++ ((if is_empty_text cfg.cookie_domain
                          then []
                          else codes "; Domain=" ++ cfg.cookie_domain)
                        ++ (codes "; Max-Age="
                            ++ (itoa cfg.expiration
                                ++ ((if cfg.cookie_http_only then codes "; HttpOnly" else [])
                                    ++ ((if cfg.cookie_secure || x.request.is_tls
                                          then codes "; Secure"
                                          else [])
                                        ++ (codes "; SameSite=" ++ cfg.cookie_same_site))))))))))

module _ (cr : Crypto) where
  unfoldable pub sign_token : Bytes → Bytes → Bytes
  sign_token raw key = raw ++ b'.' ∷ cr.hex_encode (cr.hmac key raw)

  -- The check of the text and the code, in hex, behind its dot; ConstantTimeCompare is equality.
  abbrev pub check_code : Bytes → Bytes → Bytes → Bool
  check_code key raw sig_hex =
      if is_empty_text raw || is_empty_text sig_hex
      then false
      else elim (cr.hex_decode sig_hex) [ none ↦ false | some sig ↦ bytes_eq sig (cr.hmac key raw) ]

  -- `verifySignedCSRFToken`
  unfoldable pub verify_signed : Bytes → Bytes → Bool
  unfolding cut_last
  verify_signed signed key = elim (cut_last b'.' signed) [
    | none ↦ false
    | some (raw, sig_hex) ↦ check_code key raw sig_hex
  ]

  abbrev pub cookie_valid : CsrfConfig → Bytes → Bool
  cookie_valid cfg token =
      not (is_empty_text token)
      && (if cfg.sign_tokens then verify_signed token cfg.signing_key else true)

  -- The token of the cookie, or a new one.
  abbrev pub current_token : CsrfConfig → Bytes → Bytes → Bytes
  current_token cfg raw token =
      if cookie_valid cfg token
      then token
      else if cfg.sign_tokens
      then sign_token raw cfg.signing_key
      else raw

  -- The checks of a request with a method that is not safe.
  abbrev pub refuses : CsrfConfig → Bytes → Bytes → Bytes → Bool
  refuses cfg raw token client =
      cfg.sign_tokens
        && (not (cookie_valid cfg token)
            || (is_empty_text client || not (verify_signed client cfg.signing_key)))
      || (is_empty_text client || not (bytes_eq (current_token cfg raw token) client))

  -- `CSRF` for a config that is filled, at a request for which `KeyGenerator` gives `raw`.
  unfoldable pub csrf : CsrfConfig → Bytes → Middleware
  unfolding verify_signed sign_token extract_token
  csrf cfg raw = look (λ x.
      let token = cookie_token cfg x in
      let set_cookie =
        act
          (λ y.
            add_header (codes "Set-Cookie") (cookie_header cfg (current_token cfg raw token) x) y)
          pass in
      if is_safe x.request.method
      then set_cookie
      else if refuses cfg raw token (extract_token cfg x)
      then cfg.error_handler
      else set_cookie)
