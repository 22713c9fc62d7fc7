-- ===== src/Middleware/Csrf/Laws.antt =====
-- middleware/csrf.go: signed tokens, and what the check of a request promises.
use gofi.Prelude.{
  ℕ, ◌≡◌, ◌≢◌, ◌⊎◌, refl, ◌∙◌, sym, ap, subst, Bool, true, false, none, some, List, [], ◌∷◌, ◌++◌,
  arith, if◌then◌else◌, Bytes, bytes_eq_iff, codes, cut_last, All, Bool-cases, Option-cases, inl,
  inr,
}
use gofi.Chain.{act, pass, run, serve, next, Context}
use gofi.Chain.Laws.{shift, serve-cons}
use gofi.Mux.{is_empty_text}
use gofi.Middleware.{Exchange, Middleware, add_header, is_safe}
use gofi.Middleware.Csrf.{
  CsrfConfig, Crypto, extract_token, cookie_token, cookie_header, sign_token, check_code,
  verify_signed, current_token, refuses, csrf,
}

-- The last dot is found where no dot is behind it.
cut_last-none : (b : ℕ) (s : Bytes) → All (λ c. c ≢ b) s → cut_last b s ≡ none
unfolding cut_last
cut_last-none b [] h = refl
cut_last-none b (c ∷ s) (ne, h) = ground (arith, cut_last-none b s h)

cut_last-append : (b : ℕ) (l r : Bytes) → All (λ c. c ≢ b) r → cut_last b (l ++ b ∷ r) ≡ some (l, r)
unfolding cut_last
cut_last-append b [] r h = rw (cut_last-none b r h) (ground arith)
cut_last-append b (c ∷ l) r h = rw (cut_last-append b l r h) refl

cut_last→append : (b : ℕ) (s l r : Bytes) → cut_last b s ≡ some (l, r) → s ≡ l ++ b ∷ r
unfolding cut_last
cut_last→append b [] l r h = cc
cut_last→append b (c ∷ s) l r h = elim (Option-cases (cut_last b s)) [
  | inl e ↦ ground arith
  | inr ((l', r'), e) ↦ ground (arith, cut_last→append b s l' r' e)
]

is_empty_text-false : (s : Bytes) → s ≢ [] → is_empty_text s ≡ false
is_empty_text-false [] ne = absurd (ne refl)
is_empty_text-false (c ∷ s) ne = refl

abbrev start : Exchange → Context Exchange
start x = record { position = 0; state = x }

-- The answer of the checks that pass: the token goes out in a cookie, and the chain goes on.
abbrev pub with_cookie : CsrfConfig → Bytes → Exchange → Exchange
with_cookie cfg token x = add_header (codes "Set-Cookie") (cookie_header cfg token x) x

run_branches :
    (hs : List Middleware) (safe refused : Bool) (stopped going : Middleware) (c : Context Exchange)
    → safe ≡ false
    → shift (run (next hs) (if safe then going else if refused then stopped else going) c)
      ≡ (if refused then shift (run (next hs) stopped c) else shift (run (next hs) going c))
run_branches hs true refused stopped going c h = cc
run_branches hs false true stopped going c h = refl
run_branches hs false false stopped going c h = refl

run_going :
    (hs : List Middleware) (safe refused : Bool) (stopped going : Middleware) (c : Context Exchange)
    → refused ≡ false
    → shift (run (next hs) (if safe then going else if refused then stopped else going) c)
      ≡ shift (run (next hs) going c)
run_going hs true refused stopped going c h = refl
run_going hs false true stopped going c h = cc
run_going hs false false stopped going c h = refl

module _ (cr : Crypto) where
  verify_signed-some :
      (signed key raw code : Bytes)
      → cut_last b'.' signed ≡ some (raw, code)
      → verify_signed cr signed key ≡ check_code cr key raw code
  unfolding verify_signed
  verify_signed-some signed key raw code e = rw (e, verify_signed) refl

  verify_signed-none :
      (signed key : Bytes) → cut_last b'.' signed ≡ none → verify_signed cr signed key ≡ false
  unfolding verify_signed
  verify_signed-none signed key e = rw (e, verify_signed) refl

  check_code-decodes :
      (key raw code : Bytes)
      → raw ≢ []
      → code ≢ []
      → cr.hex_decode code ≡ some (cr.hmac key raw)
      → check_code cr key raw code ≡ true
  check_code-decodes key raw code ne given decodes = ground (
    arith,
    is_empty_text-false raw ne,
    is_empty_text-false code given,
    bytes_eq_iff (cr.hmac key raw) (cr.hmac key raw),
  )

  check_code-parts :
      (key raw code : Bytes)
      → check_code cr key raw code ≡ true
      → (raw ≢ []) × (cr.hex_decode code ≡ some (cr.hmac key raw))
  check_code-parts key [] code h = cc
  check_code-parts key (c ∷ raw) code h = elim (Option-cases (cr.hex_decode code)) [
    | inl e ↦ ground arith
    | inr (sig, e) ↦ ground (arith, bytes_eq_iff sig (cr.hmac key (c ∷ raw)))
  ]

  -- A signed token verifies under its key, if decoding undoes encoding, and encoding writes no dot and
  -- not the empty text for a code.
  pub verify-sign :
      (raw key : Bytes)
      → raw ≢ []
      → cr.hex_decode (cr.hex_encode (cr.hmac key raw)) ≡ some (cr.hmac key raw)
      → All (λ c. c ≢ b'.') (cr.hex_encode (cr.hmac key raw))
      → cr.hex_encode (cr.hmac key raw) ≢ []
      → verify_signed cr (sign_token cr raw key) key ≡ true
  unfolding sign_token
  verify-sign raw key ne decodes no_dot given =
      let code = cr.hex_encode (cr.hmac key raw) in
      verify_signed-some (raw ++ b'.' ∷ code) key raw code (cut_last-append b'.' raw code no_dot)
      ∙ check_code-decodes key raw code ne given decodes

  -- A token verifies only if it is a text that is not empty, a dot, and a code of the text's MAC.
  pub verify_signed-parts :
      (signed key : Bytes)
      → verify_signed cr signed key ≡ true
      → (raw : Bytes) × (code : Bytes) × (signed ≡ raw ++ b'.' ∷ code)
        × (raw ≢ [])
        × (cr.hex_decode code ≡ some (cr.hmac key raw))
  verify_signed-parts signed key h = elim (Option-cases (cut_last b'.' signed)) [
    | inl e ↦ let no = verify_signed-none signed key e in absurd (ground arith)
    | inr ((raw, code), e) ↦
        let (ne, decodes) =
          check_code-parts key raw code (sym (verify_signed-some signed key raw code e) ∙ h) in
        (raw, code, cut_last→append b'.' signed raw code e, ne, decodes)
  ]

  abbrev choose_csrf : CsrfConfig → Bytes → Exchange → Middleware
  choose_csrf cfg raw x =
      let token = cookie_token cfg x in
      let set_cookie =
        act
          (λ y.
            add_header (codes "Set-Cookie") (cookie_header cfg (current_token cr cfg raw token) x)
              y)
          pass in
      if is_safe x.request.method
      then set_cookie
      else if refuses cr cfg raw token (extract_token cfg x)
      then cfg.error_handler
      else set_cookie

  serve-csrf :
      (cfg : CsrfConfig) (raw : Bytes) (hs : List Middleware) (x : Exchange)
      → serve (csrf cr cfg raw ∷ hs) x ≡ shift (run (next hs) (choose_csrf cfg raw x) (start x))
  unfolding csrf run
  serve-csrf cfg raw hs x = serve-cons (csrf cr cfg raw) hs x

  -- The program for a request that is not safe.
  refuse_or_pass :
      (cfg : CsrfConfig) (raw : Bytes) (hs : List Middleware) (x : Exchange)
      → is_safe x.request.method ≡ false
      → serve (csrf cr cfg raw ∷ hs) x ≡ (
          if refuses cr cfg raw (cookie_token cfg x) (extract_token cfg x)
          then shift (run (next hs) cfg.error_handler (start x))
          else shift (serve hs (with_cookie cfg (current_token cr cfg raw (cookie_token cfg x)) x)))
  unfolding run
  refuse_or_pass cfg raw hs x h =
      serve-csrf cfg raw hs x
      ∙ run_branches hs (is_safe x.request.method)
          (refuses cr cfg raw (cookie_token cfg x) (extract_token cfg x)) cfg.error_handler _
          (start x) h

  refuses-false :
      (cfg : CsrfConfig) (raw token client : Bytes)
      → refuses cr cfg raw token client ≡ false
      → (is_empty_text client ≡ false)
        × (current_token cr cfg raw token ≡ client)
        × ((cfg.sign_tokens ≡ false)
            ⊎ (token ≡ client) × (verify_signed cr client cfg.signing_key ≡ true))
  refuses-false cfg raw token client h =
      ground (arith, bytes_eq_iff (current_token cr cfg raw token) client)

  refuses-same :
      (cfg : CsrfConfig) (raw token : Bytes)
      → is_empty_text token ≡ false
      → (cfg.sign_tokens ≡ false) ⊎ (verify_signed cr token cfg.signing_key ≡ true)
      → (refuses cr cfg raw token token ≡ false) × (current_token cr cfg raw token ≡ token)
  refuses-same cfg raw token given valid = ground (arith, bytes_eq_iff token token)

  -- A request whose method is not safe goes to the error handler, or it goes on; then its token is
  -- not empty and goes out in the cookie again, and where tokens are signed it is the one of the
  -- request's cookie, and verifies.
  pub csrf_guards :
      (cfg : CsrfConfig) (raw : Bytes) (hs : List Middleware) (x : Exchange)
      → is_safe x.request.method ≡ false
      → (serve (csrf cr cfg raw ∷ hs) x ≡ shift (run (next hs) cfg.error_handler (start x)))
        ⊎ (serve (csrf cr cfg raw ∷ hs) x
            ≡ shift (serve hs (with_cookie cfg (extract_token cfg x) x)))
          × (is_empty_text (extract_token cfg x) ≡ false)
          × ((cfg.sign_tokens ≡ false)
              ⊎ (cookie_token cfg x ≡ extract_token cfg x)
                × (verify_signed cr (extract_token cfg x) cfg.signing_key ≡ true))
  csrf_guards cfg raw hs x h =
      let token = cookie_token cfg x in
      let client = extract_token cfg x in
      elim (Bool-cases (refuses cr cfg raw token client)) [
        | inl e ↦ inl (refuse_or_pass cfg raw hs x h ∙ rw e refl)
        | inr e ↦
            let (given, is_client, valid) = refuses-false cfg raw token client e in
            inr (
              refuse_or_pass cfg raw hs x h
                  ∙ rw e refl
                  ∙ ap (λ t. shift (serve hs (with_cookie cfg t x))) is_client,
              given,
              valid,
            )
      ]

  -- A request whose own token is that of its cookie, not empty and, where tokens are signed, valid,
  -- goes on, whatever its method is.
  pub csrf_accepts :
      (cfg : CsrfConfig) (raw : Bytes) (hs : List Middleware) (x : Exchange)
      → extract_token cfg x ≡ cookie_token cfg x
      → is_empty_text (cookie_token cfg x) ≡ false
      → (cfg.sign_tokens ≡ false) ⊎ (verify_signed cr (cookie_token cfg x) cfg.signing_key ≡ true)
      → serve (csrf cr cfg raw ∷ hs) x ≡ shift (serve hs (with_cookie cfg (cookie_token cfg x) x))
  unfolding run
  csrf_accepts cfg raw hs x same given valid =
      let (accepted, is_token) = refuses-same cfg raw (cookie_token cfg x) given valid in
      serve-csrf cfg raw hs x
      ∙ run_going hs (is_safe x.request.method)
          (refuses cr cfg raw (cookie_token cfg x) (extract_token cfg x)) cfg.error_handler _
          (start x)
          (subst (λ t. refuses cr cfg raw (cookie_token cfg x) t ≡ false) (sym same) accepted)
      ∙ ap (λ t. shift (serve hs (with_cookie cfg t x))) is_token
