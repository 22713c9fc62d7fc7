-- ===== src/Middleware/Headers/Laws.antt =====
-- middleware/etag.go: what `ETag` leaves of a response.
use gofi.Prelude.{
  ℕ, ◌≡◌, refl, ◌⊎◌, inl, inr, Bool, true, not, ◌&&◌, ◌||◌, arith, false, some, none, [], ◌==◌,
  Bytes, bytes_eq, codes, if_cases, if◌then◌else◌,
}
use gofi.Store.{get}
use gofi.Store.Laws.{get-set}
use gofi.Chain.{Outcome, Context, stop, act, look, call_next, pass, run}
use gofi.Mux.{is_empty_text}
use gofi.Middleware.{Exchange, Middleware, set_header}
use gofi.Middleware.Headers.{etag_of, not_modified, is_named, tag_response, etag}

-- The rest of a chain, with the error that it returns and the response that it leaves.
abbrev pub Rest : Type 0
Rest = Context Exchange → Outcome × Context Exchange

-- GET or HEAD, status 200, and a body.
abbrev pub is_tagged : Bytes → Exchange → Bool
is_tagged method x =
    (bytes_eq method (codes "GET") || bytes_eq method (codes "HEAD"))
    && (x.status == 200 && not (is_empty_text x.body))

-- Of the error and the response of a chain, and of those that are left of them.
abbrev pub IsTagged :
    (Bytes → ℕ) → Bool → Bytes → Outcome × Context Exchange → Outcome × Context Exchange → Type 0
IsTagged crc32 weak method (e, c) (o, d) =
    let tag = etag_of crc32 weak c.state.body in
    let named = is_named (c.state.request.header (codes "If-None-Match")) tag in
    ((is_tagged method c.state ≡ true)
      × (get d.state.headers (codes "ETag") ≡ some tag)
      × (((named ≡ true) × (o ≡ none) × (d.state.status ≡ 304) × (d.state.body ≡ []))
          ⊎ ((named ≡ false)
              × (o ≡ e)
              × (d.state.status ≡ c.state.status)
              × (d.state.body ≡ c.state.body))))
    ⊎ ((is_tagged method c.state ≡ false) × (o ≡ e) × (d ≡ c))

module _ (crc32 : Bytes → ℕ) (weak : Bool) (next : Rest) (method : Bytes) where
  set_header-IsTagged :
      (e : Outcome) (c : Context Exchange)
      → is_tagged method c.state ≡ true
      → IsTagged crc32 weak method
          (e, c)
          (run next
            (act (set_header (codes "ETag") (etag_of crc32 weak c.state.body)) (
              if is_named
                (c.state.request.header (codes "If-None-Match"))
                (etag_of crc32 weak c.state.body)
              then act not_modified (stop none)
              else stop e))
            c)
  unfolding run
  set_header-IsTagged e c h =
      let tag = etag_of crc32 weak c.state.body in
      let d : Context Exchange = record c { state = set_header (codes "ETag") tag c.state } in
      let kept : get d.state.headers (codes "ETag") ≡ some tag =
        get-set c.state.headers (codes "ETag") tag (codes "ETag") in
      if_cases (λ r. IsTagged crc32 weak method (e, c) (run next r d))
        (is_named (c.state.request.header (codes "If-None-Match")) tag)
        (act not_modified (stop none)) (stop e) (λ q. inl (h, kept, inl (q, refl, refl, refl)))
        (λ q. inl (h, kept, inr (q, refl, refl, refl)))

  tag_response-IsTagged :
      (e : Outcome) (c : Context Exchange)
      → (bytes_eq method (codes "GET") || bytes_eq method (codes "HEAD")) ≡ true
      → IsTagged crc32 weak method (e, c) (run next (tag_response crc32 weak e c.state) c)
  unfolding run
  tag_response-IsTagged e c h =
      let P : Middleware → Type 0 = λ r. IsTagged crc32 weak method (e, c) (run next r c) in
      if_cases P (not (c.state.status == 200)) (stop e) _ (λ q. inr (ground arith, refl, refl))
        (λ q.
          if_cases P (is_empty_text c.state.body) (stop e) _ (λ q'. inr (ground arith, refl, refl))
            (λ q'. set_header-IsTagged e c (ground arith)))

-- Whatever the rest of the chain does: where the method is GET or HEAD and the response that it leaves
-- has status 200 and a body, the header ETag is set to the tag of the body, and either the request
-- names the tag, no error is returned and the response has status 304 and no body, or the request does
-- not name it and the error, the status and the body are those of the chain. Elsewhere the error and
-- the response are those of the chain, with no header changed.
pub etag-IsTagged :
    (crc32 : Bytes → ℕ) (weak : Bool) (next : Rest) (c : Context Exchange)
    → IsTagged crc32 weak c.state.request.method (next c) (run next (etag crc32 weak) c)
unfolding etag run
etag-IsTagged crc32 weak next c =
    let method = c.state.request.method in
    if_cases (λ h. IsTagged crc32 weak method (next c) (run next h c))
      (not (bytes_eq method (codes "GET")) && not (bytes_eq method (codes "HEAD"))) pass
      (call_next (λ e. look (λ y. tag_response crc32 weak e y)))
      (λ q. inr (ground arith, refl, refl))
      (λ q. tag_response-IsTagged crc32 weak next method (next c).0 (next c).1 (ground arith))
