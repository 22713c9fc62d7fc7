-- ===== src/Mux/Registration.antt =====
-- mux.go: `method` and `handleFastHTTP` together, on a router that starts empty.
use gofi.Prelude.{
  ◌≡◌, refl, ap, ◌∙◌, subst, ◌≢◌, inl, inr, Bool, true, false, Option, none, some, List, [], ◌∷◌,
  ◌++◌, arith, ◌==◌, if◌then◌else◌, Bytes, bytes_eq, All, Option-cases, Bool-cases, if_both,
  ends_with,
}
use gofi.Store.{Items, get, set}
use gofi.Tree.Node.{Result, ok, ◌>>=◌, RouteData, Node, new_node}
use gofi.Tree.Insert.Built.{Stops, Stops-bind}
use gofi.Tree.Insert.Grown.{add_route-IsNode, new_node-IsNode}
use gofi.Tree.Lookup.{Params, Found}
use gofi.Tree.Lookup.Total.{get_value_total}
use gofi.Tree.Pattern.{Serves}
use gofi.Tree.Shape.{IsNode}
use gofi.Mux.{
  Payload, RouteOptions, ServeMux, new_router, join_path, is_empty_text, add_method, add_meta,
  add_schema, register, tree_of,
}
use gofi.Mux.Dispatch.{
  Decision, route, not_found, method_not_allowed, allowed_from, no_route, decide_found, decide,
  has_found, add_allowed, params_of, redirects, redirect, redirect_code, with_query, redirect_path,
}
use gofi.Mux.Dispatch.Laws.{AreTrees, decide-route, decide-some, decide-none}

abbrev Given : Bytes → Type 0
Given p = p ≢ []

join_path-Given :
    (prefix path : Bytes)
    → path ≢ []
    → Given (if is_empty_text prefix then path else join_path prefix path)
unfolding join_path
join_path-Given [] path given = given
join_path-Given (c ∷ s) [] given = λ e. given refl
join_path-Given (c ∷ s) (x ∷ t) given =
    if_both Given (ends_with (c ∷ s) b'/') (if x == b'/' then c ∷ s ++ t else c ∷ s ++ x ∷ t)
      (if x == b'/' then c ∷ s ++ x ∷ t else c ∷ s ++ b'/' ∷ x ∷ t)
      (if_both Given (x == b'/') (c ∷ s ++ t) (c ∷ s ++ x ∷ t) (λ e. cc) (λ e. cc))
      (if_both Given (x == b'/') (c ∷ s ++ x ∷ t) (c ∷ s ++ b'/' ∷ x ∷ t) (λ e. cc) (λ e. cc))

module _ {H R M : Type 0} where
  -- Every tree of the table, those behind another of the same method included.
  abbrev pub AllTrees : Items (Node (Payload H R M)) → Type 0
  AllTrees trees = All (λ e. IsNode [] e.1) trees

  set-AllTrees :
      (trees : Items (Node (Payload H R M))) (method : Bytes) (root : Node (Payload H R M))
      → AllTrees trees
      → IsNode [] root
      → AllTrees (set trees method root)
  unfolding set
  set-AllTrees [] method root h is = (is, tt)
  set-AllTrees ((m, n) ∷ trees) method root h is = elim (Bool-cases (bytes_eq m method)) [
    | inl e ↦ rw e (is, h.1)
    | inr e ↦ rw e (h.0, set-AllTrees trees method root h.1 is)
  ]

  AllTrees-AreTrees : (trees : Items (Node (Payload H R M))) → AllTrees trees → AreTrees trees
  unfolding get
  AllTrees-AreTrees [] h method root e = cc
  AllTrees-AreTrees ((m, n) ∷ trees) h method root e = elim (Bool-cases (bytes_eq m method)) [
    | inl same ↦ subst (IsNode []) (found same e) h.0
    | inr other ↦ AllTrees-AreTrees trees h.1 method root (later other e)
  ]
    where
      found : bytes_eq m method ≡ true → get ((m, n) ∷ trees) method ≡ some root → n ≡ root
      found same e = ground arith

      later :
          bytes_eq m method ≡ false
          → get ((m, n) ∷ trees) method ≡ some root
          → get trees method ≡ some root
      later other e = ground arith

  allowed_from_total :
      (trees : Items (Node (Payload H R M))) (path requested buf : Bytes)
      → AllTrees trees
      → (out : Bytes) × (allowed_from trees path requested buf ≡ ok out)
  unfolding allowed_from
  allowed_from_total [] path requested buf h = (buf, refl)
  allowed_from_total ((m, n) ∷ trees) path requested buf h =
      elim (Bool-cases (bytes_eq m requested)) [
        | inl same ↦ rw same (allowed_from_total trees path requested buf h.1)
        | inr other ↦
            let (r, is) = get_value_total n path none h.0 in
            rw other (
              rw is (
                allowed_from_total trees path requested
                  (if has_found r then add_allowed buf m else buf) h.1))
      ]

  no_route_total :
      (report : Bool) (trees : Items (Node (Payload H R M))) (method path : Bytes)
      → AllTrees trees
      → (out : Decision H R M) × (no_route report trees method path ≡ ok out)
  no_route_total false trees method path h = (not_found, refl)
  no_route_total true trees method path h =
      let (allow, is) = allowed_from_total trees path method [] h in
      (
        if is_empty_text allow then not_found else method_not_allowed allow,
        ap (λ r. r >>= λ a. ok (if is_empty_text a then not_found else method_not_allowed a)) is,
      )

  decide_found_total :
      (report : Bool) (trees : Items (Node (Payload H R M))) (method path query : Bytes)
      (r : Found (Payload H R M))
      → AllTrees trees
      → (out : Decision H R M) × (decide_found report trees method path query r ≡ ok out)
  decide_found_total report trees method path query r h =
      let (out, is) = no_route_total report trees method path h in
      elim (Option-cases r.route) [
        | inr (d, e) ↦ (route d (params_of r), rw (e, decide_found) refl)
        | inl e ↦ elim (Bool-cases (redirects method path r.tsr)) [
          | inl goes ↦ (
            redirect (redirect_code method) (with_query (redirect_path path) query),
            rw (e, decide_found) (rw goes refl),
          )
          | inr stays ↦ (out, rw (e, decide_found) (rw stays is))
        ]
      ]

  -- With well-formed trees every request is decided: the router finds a route, redirects, or
  -- refuses, and does not panic.
  pub decide_total :
      (report : Bool) (trees : Items (Node (Payload H R M))) (method path query : Bytes)
      → AllTrees trees
      → (out : Decision H R M) × (decide report trees method path query ≡ ok out)
  decide_total report trees method path query h = elim (Option-cases (get trees method)) [
    | inl e ↦
        let (out, is) = no_route_total report trees method path h in
        (out, decide-none report trees method path query e ∙ is)
    | inr (root, e) ↦
        let (r, looked) =
          get_value_total root path (some []) (AllTrees-AreTrees trees h method root e) in
        let (out, is) = decide_found_total report trees method path query r h in
        (
          out,
          decide-some report trees method path query root e
              ∙ ap (λ x. x >>= decide_found report trees method path query) looked
              ∙ is,
        )
  ]

-- A registration: the method, the path and the options that are given to the router.
abbrev Registration : Type 0 → Type 0 → Type 0 → Type 0 → Type 0
Registration H R D M = Bytes × Bytes × RouteOptions H R D M

abbrev pub HavePaths : {H R D M : Type 0} → List (Registration H R D M) → Type 0
HavePaths regs = All (λ r. r.1 ≢ []) regs

abbrev pub IsRouter : {H R D M : Type 0} → ServeMux H R D M → Type 0
IsRouter s = AllTrees s.trees

module _ {H R D M : Type 0} (to_lower : Bytes → Bytes) where
  register-IsRouter :
      (method path : Bytes) (opts : RouteOptions H R D M) (s : ServeMux H R D M)
      → path ≢ []
      → IsRouter s
      → Stops IsRouter (register to_lower method path opts s)
  register-IsRouter method path opts s given h =
      Stops-bind (IsNode []) IsRouter _ _
        (add_route-IsNode (tree_of to_lower s method) _
          (root (get s.trees method) (AllTrees-AreTrees s.trees h method)) given)
        (λ n is. set-AllTrees s.trees method n h is)
    where
      root :
          (o : Option (Node (Payload H R M)))
          → ((n : Node (Payload H R M)) → o ≡ some n → IsNode [] n)
          → IsNode {A = Payload H R M} [] (elim o [ none ↦ new_node | some n ↦ n ])
      root none g = new_node-IsNode (Payload H R M)
      root (some n) g = g n refl

  kept_trees :
      (method path : Bytes) (opts : RouteOptions H R D M) (s : ServeMux H R D M)
      → IsRouter s
      → IsRouter (
          add_meta to_lower method path opts.meta
            (add_schema to_lower method path opts.hidden opts.schema s))
  kept_trees method path opts s h = with_meta opts.meta _ (with_schema opts.schema)
    where
      with_schema :
          (c : Option (R × D)) → IsRouter (add_schema to_lower method path opts.hidden c s)
      with_schema none = h
      with_schema (some (rules, spec)) = h

      with_meta :
          (m : Option M) (r : ServeMux H R D M)
          → IsRouter r
          → IsRouter (add_meta to_lower method path m r)
      with_meta none r g = g
      with_meta (some meta) r g = g

  -- Registering a route keeps every tree of the router well-formed, whatever the prefix of the router
  -- and the options of the route, for a path that is not empty: the registration gives such a router,
  -- or ends in one of the panics of the code.
  pub add_method-IsRouter :
      (method path : Bytes) (opts : RouteOptions H R D M) (s : ServeMux H R D M)
      → path ≢ []
      → IsRouter s
      → Stops IsRouter (add_method to_lower method path opts s)
  unfolding add_method
  add_method-IsRouter method path opts s given h =
      register-IsRouter method _ opts _ (join_path-Given s.prefix path given)
        (kept_trees method _ opts s h)

  abbrev pub add_methods :
      List (Registration H R D M) → ServeMux H R D M → Result (ServeMux H R D M)
  add_methods [] s = ok s
  add_methods ((method, path, opts) ∷ regs) s =
      add_method to_lower method path opts s >>= add_methods regs

  add_methods-IsRouter :
      (regs : List (Registration H R D M)) (s : ServeMux H R D M)
      → HavePaths regs
      → IsRouter s
      → Stops IsRouter (add_methods regs s)
  add_methods-IsRouter [] s given h = h
  add_methods-IsRouter ((method, path, opts) ∷ regs) s (one, more) h =
      Stops-bind IsRouter IsRouter _ _ (add_method-IsRouter method path opts s one h)
        (λ r is. add_methods-IsRouter regs r more is)

  -- A router to which any routes were added, with paths that are not empty: every request is decided,
  -- and one that is served by a route has a path that matches the pattern of the route, with the
  -- parameters of the match; or the pattern ends with a catch-all, and the path has another byte in
  -- the place of the slash of the catch-all. The value of a catch-all is what is behind that place.
  pub decide_after_add_methods :
      (regs : List (Registration H R D M)) (s : ServeMux H R D M) (method path query : Bytes)
      → HavePaths regs
      → add_methods regs new_router ≡ ok s
      → (out : Decision H R M) × (decide s.report_405 s.trees method path query ≡ ok out)
        × ((d : RouteData (Payload H R M)) (ps : Params)
            → out ≡ route d ps
            → Serves d.pattern path ps)
  decide_after_add_methods regs s method path query given e =
      let h = subst (Stops IsRouter) e (add_methods-IsRouter regs new_router given tt) in
      let (out, is) = decide_total s.report_405 s.trees method path query h in
      (
        out,
        is,
        λ d ps found.
            decide-route s.report_405 s.trees method path query d ps (AllTrees-AreTrees s.trees h)
              (is ∙ ap ok found),
      )
