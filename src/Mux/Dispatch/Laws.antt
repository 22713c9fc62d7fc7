-- ===== src/Mux/Dispatch/Laws.antt =====
-- mux.go: what a decision of the router rests on.
use gofi.Prelude.{
  ℕ, ◌≡◌, refl, sym, subst, ◌∙◌, ap, ◌≢◌, inl, inr, Bool, true, false, none, some, [], ◌∷◌, ◌++◌,
  arith, if◌then◌else◌, Bytes, bytes_eq, codes, length-append, ends_with, Option-cases,
}
use gofi.Store.{Items, get}
use gofi.Tree.Node.{Result, ok, panic, ◌>>=◌, RouteData, Node}
use gofi.Tree.Lookup.{Params, Found, get_value}
use gofi.Tree.Lookup.Sound.{get_value-Serves}
use gofi.Tree.Pattern.{Serves}
use gofi.Tree.Shape.{IsNode}
use gofi.Mux.{Payload, is_empty_text}
use gofi.Mux.Paths.{ends_with-append}
use gofi.Mux.Dispatch.{
  Decision, route, redirect, method_not_allowed, not_found, drop_last, redirect_path, with_query,
  redirect_code, allowed_from, no_route, params_of, decide_found, decide,
}

drop_last-append : (p : Bytes) (c : ℕ) → drop_last (p ++ c ∷ []) ≡ p
drop_last-append [] c = refl
drop_last-append (x ∷ []) c = refl
drop_last-append (x ∷ y ∷ p) c = ap (λ r. x ∷ r) (drop_last-append (y ∷ p) c)

-- A path without a slash at its end and the path with one are redirected to each other.
pub redirect_path_toggles :
    (p : Bytes)
    → is_empty_text p ≡ false
    → ends_with p b'/' ≡ false
    → (redirect_path p ≡ p ++ b'/' ∷ []) × (redirect_path (p ++ b'/' ∷ []) ≡ p)
unfolding redirect_path
redirect_path_toggles [] h e = cc
redirect_path_toggles (c ∷ p) h e = ground (
  arith,
  ends_with-append (c ∷ p) b'/',
  drop_last-append (c ∷ p) b'/',
  length-append {0} (c ∷ p) (b'/' ∷ []),
)

pub bind-ok :
    {A B : Type 0} (m : Result A) (f : A → Result B) (b : B)
    → (m >>= f) ≡ ok b
    → (a : A) × (m ≡ ok a) × (f a ≡ ok b)
bind-ok (ok a) f b h = (a, refl, h)
bind-ok (panic p) f b h = cc

-- The decisions that rest on the lookup in the tree of the method.
abbrev pub from_tree : {H R M : Type 0} → Result (Decision H R M) → Bool
from_tree (ok (route d ps)) = true
from_tree (ok (redirect code location)) = true
from_tree _ = false

abbrev allowed_decision : {H R M : Type 0} → Bytes → Decision H R M
allowed_decision allow = if is_empty_text allow then not_found else method_not_allowed allow

allowed_case :
    (H R M : Type 0) (r : Result Bytes)
    → from_tree (r >>= λ allow. ok (allowed_decision {H = H} {R = R} {M = M} allow)) ≡ false
allowed_case H R M (panic e) = refl
allowed_case H R M (ok []) = refl
allowed_case H R M (ok (c ∷ s)) = refl

module _ {H R M : Type 0} where
  -- The trees of all methods are well formed.
  abbrev pub AreTrees : Items (Node (Payload H R M)) → Type 0
  AreTrees trees =
      (method : Bytes) (root : Node (Payload H R M)) → get trees method ≡ some root → IsNode [] root

  pub from_tree-no_route :
      (report : Bool) (trees : Items (Node (Payload H R M))) (method path : Bytes)
      → from_tree (no_route report trees method path) ≡ false
  from_tree-no_route false trees method path = refl
  from_tree-no_route true trees method path = allowed_case H R M (allowed_from trees path method [])

  pub not-from_tree :
      (r : Result (Decision H R M)) (d : Decision H R M)
      → from_tree r ≡ false
      → from_tree (ok d) ≡ true
      → r ≢ ok d
  not-from_tree r d h k e = let e' : from_tree r ≡ from_tree (ok d) = ap from_tree e in cc

  decide_found-route :
      (report : Bool) (trees : Items (Node (Payload H R M))) (method path query : Bytes)
      (r : Found (Payload H R M)) (d : RouteData (Payload H R M)) (ps : Params)
      → decide_found report trees method path query r ≡ ok (route d ps)
      → (r.route ≡ some d) × (params_of r ≡ ps)
  decide_found-route report trees method path query r d ps e = ground (
    arith,
    not-from_tree (no_route report trees method path) (route d ps)
        (from_tree-no_route report trees method path) refl,
  )

  pub decide_found-redirect :
      (report : Bool) (trees : Items (Node (Payload H R M))) (method path query : Bytes)
      (r : Found (Payload H R M)) (code : ℕ) (location : Bytes)
      → decide_found report trees method path query r ≡ ok (redirect code location)
      → (r.route ≡ none)
        × (r.tsr ≡ true)
        × (bytes_eq method (codes "CONNECT") ≡ false)
        × (bytes_eq path (codes "/") ≡ false)
        × (code ≡ redirect_code method)
        × (location ≡ with_query (redirect_path path) query)
  decide_found-redirect report trees method path query r code location e = ground (
    arith,
    not-from_tree (no_route report trees method path) (redirect code location)
        (from_tree-no_route report trees method path) refl,
  )

  pub decide-none :
      (report : Bool) (trees : Items (Node (Payload H R M))) (method path query : Bytes)
      → get trees method ≡ none
      → decide report trees method path query ≡ no_route report trees method path
  unfolding decide
  decide-none report trees method path query h = rw (h, decide) refl

  pub decide-some :
      (report : Bool) (trees : Items (Node (Payload H R M))) (method path query : Bytes)
      (root : Node (Payload H R M))
      → get trees method ≡ some root
      → decide report trees method path query
        ≡ (get_value root path (some []) >>= decide_found report trees method path query)
  unfolding decide
  decide-some report trees method path query root h = rw (h, decide) refl

  -- A request is served by a route only if the pattern of the route matches the path, and with the
  -- parameters of the match, or if it has a catch-all whose slash is another byte in the path.
  pub decide-route :
      (report : Bool) (trees : Items (Node (Payload H R M))) (method path query : Bytes)
      (d : RouteData (Payload H R M)) (ps : Params)
      → AreTrees trees
      → decide report trees method path query ≡ ok (route d ps)
      → Serves d.pattern path ps
  decide-route report trees method path query d ps wf e = elim (Option-cases (get trees method)) [
    | inl gone ↦ absurd (
        not-from_tree (no_route report trees method path) (route d ps)
          (from_tree-no_route report trees method path) refl
          (sym (decide-none report trees method path query gone) ∙ e))
    | inr (root, here) ↦
        let (r, looked, decided) =
          bind-ok (get_value root path (some [])) (decide_found report trees method path query)
            (route d ps) (sym (decide-some report trees method path query root here) ∙ e) in
        let (is_route, is_params) =
          decide_found-route report trees method path query r d ps decided in
        let (caps, m, out) = get_value-Serves root path r d (wf method root here) looked is_route in
        subst (Serves d.pattern path) (ground arith) m
  ]
