-- ===== src/Mux/Dispatch.antt =====
-- mux.go: `handleFastHTTP`, `allowedMethods` and `runNotFound`: what is done with a request.
pub mod Laws
pub mod Redirects
use gofi.Prelude.{
  ℕ, Bool, true, false, not, ◌&&◌, ◌||◌, Option, none, some, List, [], ◌∷◌, ◌++◌, ltb, ◌==◌,
  if◌then◌else◌, Bytes, bytes_eq, codes, length, ends_with,
}
use gofi.Store.{Items, get}
use gofi.Chain.{HttpError, Handler, stop, act, next, serve}
use gofi.Tree.Node.{Result, ok, panic, ◌>>=◌, RouteData, Node}
use gofi.Tree.Lookup.{Params, Found, get_value}
use gofi.Mux.{Payload, is_empty_text}

-- What `handleFastHTTP` decides.
pub data Decision (H R M : Type 0) : Type 0 where
  route : RouteData (Payload H R M) → Params → Decision H R M
  redirect : ℕ → Bytes → Decision H R M
  method_not_allowed : Bytes → Decision H R M
  not_found : Decision H R M

-- The request path without its last byte: `path[:len(path)-1]`.
abbrev pub drop_last : Bytes → Bytes
drop_last [] = []
drop_last (c ∷ []) = []
drop_last (c ∷ d ∷ s) = c ∷ drop_last (d ∷ s)

unfoldable pub redirect_path : Bytes → Bytes
redirect_path path =
    if ltb 1 (length path) && ends_with path b'/' then drop_last path else path ++ b'/' ∷ []

abbrev pub with_query : Bytes → Bytes → Bytes
with_query path [] = path
with_query path (c ∷ query) = path ++ b'?' ∷ c ∷ query

-- 301 for GET, 308 for the others
abbrev pub redirect_code : Bytes → ℕ
redirect_code method = if bytes_eq method (codes "GET") then 301 else 308

-- buf = append(buf, ',', ' '); buf = append(buf, m...)
abbrev pub add_allowed : Bytes → Bytes → Bytes
add_allowed [] m = m
add_allowed (c ∷ buf) m = c ∷ buf ++ (codes ", " ++ m)

-- method != http.MethodConnect && path != "/" && tsr
abbrev pub redirects : Bytes → Bytes → Bool → Bool
redirects method path tsr =
    not (bytes_eq method (codes "CONNECT")) && not (bytes_eq path (codes "/")) && tsr

module _ {H R M : Type 0} where
  abbrev pub has_found : Found (Payload H R M) → Bool
  has_found r = elim r.route [ none ↦ false | some d ↦ true ]

  -- The loop of `allowedMethods` over the trees, in the order in which the map gives them.
  unfoldable pub allowed_from : Items (Node (Payload H R M)) → Bytes → Bytes → Bytes → Result Bytes
  allowed_from [] path requested buf = ok buf
  allowed_from ((m, root) ∷ trees) path requested buf =
      let skip = allowed_from trees path requested buf in
      let looked = get_value root path none >>= λ r.
      allowed_from trees path requested (if has_found r then add_allowed buf m else buf) in
      if bytes_eq m requested then skip else looked

  -- The check for another method, then the 404.
  abbrev pub no_route :
      Bool → Items (Node (Payload H R M)) → Bytes → Bytes → Result (Decision H R M)
  no_route report trees method path =
      if report
      then (allowed_from trees path method [] >>= λ allow.
          ok (if is_empty_text allow then not_found else method_not_allowed allow))
      else ok not_found

  abbrev pub params_of : Found (Payload H R M) → Params
  params_of r = elim r.params [ none ↦ [] | some ps ↦ ps ]

  -- What is done with the result of the lookup.
  abbrev pub decide_found :
      Bool
      → Items (Node (Payload H R M))
      → Bytes
      → Bytes
      → Bytes
      → Found (Payload H R M)
      → Result (Decision H R M)
  decide_found report trees method path query r = elim r.route [
    | some d ↦ ok (route d (params_of r))
    | none ↦
        if redirects method path r.tsr
        then ok (redirect (redirect_code method) (with_query (redirect_path path) query))
        else no_route report trees method path
  ]

  -- `handleFastHTTP` up to the chain that it runs, for a method, a path and a query text
  unfoldable pub decide :
      Bool → Items (Node (Payload H R M)) → Bytes → Bytes → Bytes → Result (Decision H R M)
  unfolding get get_value allowed_from redirect_path
  decide report trees method path query = elim (get trees method) [
    | none ↦ no_route report trees method path
    | some root ↦ get_value root path (some []) >>= decide_found report trees method path query
  ]

-- What the handling of a request uses of fasthttp and of the adapter, over a state of the request.
pub record Effects (S : Type 0) : Type 0 where
  pub set_allow : Bytes → S → S
  pub redirect_to : Bytes → ℕ → S → S
  pub on_error : HttpError → S → S
  pub sync_headers : S → S

abbrev pub terminal_404 : {S : Type 0} → Handler S
terminal_404 = stop (some (record { code = 404; message = codes "404 page not found" }))

module _ {S : Type 0} (fx : Effects S) where
  abbrev pub terminal_405 : Bytes → Handler S
  terminal_405 allow =
      act (fx.set_allow allow)
        (stop (some (record { code = 405; message = codes "405 method not allowed" })))

  -- if err := c.Next(); err != nil { s.opts.errHandler(err, c) }, then `syncHeaders`
  unfoldable pub run_chain : List (Handler S) → S → S
  unfolding next
  run_chain hs s =
      let (e, c) = serve hs s in
      fx.sync_headers (elim e [ none ↦ c.state | some err ↦ fx.on_error err c.state ])

  -- The chain of the decision; `runNotFound` is the last case.
  unfoldable pub answer : {R M : Type 0} → List (Handler S) → Decision (Handler S) R M → S → S
  unfolding run_chain
  answer middlewares (route d ps) s = run_chain d.payload.handlers s
  answer middlewares (redirect code location) s = fx.redirect_to location code s
  answer middlewares (method_not_allowed allow) s =
      run_chain (middlewares ++ terminal_405 allow ∷ []) s
  answer middlewares not_found s = run_chain (middlewares ++ terminal_404 ∷ []) s
