-- ===== src/Mux/Dispatch/Redirects.antt =====
-- mux.go: the redirect to the path with a slash at its end, or without one.
use gofi.Prelude.{
  ℕ, ◌≡◌, refl, sym, ◌∙◌, ap, ◌≢◌, inl, inr, Bool, true, false, none, some, [], ◌∷◌, ◌++◌, arith,
  Bytes, bytes_eq, codes, ends_with, Option-cases, ◌⊎◌, Bool-cases, bytes_eq_iff,
}
use gofi.Store.{Items, get}
use gofi.Tree.Node.{ok, Node}
use gofi.Tree.Lookup.{Found, get_value}
use gofi.Mux.{Payload}
use gofi.Mux.Dispatch.{
  redirect, drop_last, redirect_path, with_query, redirect_code, no_route, decide_found, decide,
}
use gofi.Mux.Dispatch.Laws.{
  bind-ok, from_tree-no_route, not-from_tree, decide_found-redirect, decide-none, decide-some,
}

-- The path with a slash at its end, or without the one that it has.
abbrev pub IsToggled : Bytes → Bytes → Type 0
IsToggled path target =
    ((ends_with path b'/' ≡ false) × (target ≡ path ++ b'/' ∷ [])) ⊎ (path ≡ target ++ b'/' ∷ [])

-- The toggled path, with the query behind a question mark if there is one.
abbrev pub IsOtherPath : Bytes → Bytes → Bytes → Type 0
IsOtherPath path query location =
    (target : Bytes) × IsToggled path target
    × (((query ≡ []) × (location ≡ target)) ⊎ ((query ≢ []) × (location ≡ target ++ b'?' ∷ query)))

not-text : (s t : Bytes) → bytes_eq s t ≡ false → s ≢ t
not-text s t h e = let same : bytes_eq s t ≡ true = (bytes_eq_iff s t).1 e in cc

drop_last-ends_with : (p : Bytes) (c : ℕ) → ends_with p c ≡ true → p ≡ drop_last p ++ c ∷ []
drop_last-ends_with [] c h = absurd cc
drop_last-ends_with (x ∷ []) c h = ground arith
drop_last-ends_with (x ∷ y ∷ p) c h = ap (λ r. x ∷ r) (drop_last-ends_with (y ∷ p) c h)

redirect_path-IsToggled :
    (p : Bytes) → bytes_eq p (codes "/") ≡ false → IsToggled p (redirect_path p)
unfolding redirect_path
redirect_path-IsToggled [] h = inl (refl, refl)
redirect_path-IsToggled (c ∷ []) h = inl (ground arith, refl)
redirect_path-IsToggled (c ∷ d ∷ p) h = elim (Bool-cases (ends_with (d ∷ p) b'/')) [
  | inl e ↦ inr (ground (arith, drop_last-ends_with (c ∷ d ∷ p) b'/'))
  | inr e ↦ inl (e, ground arith)
]

location-IsOtherPath :
    (path query location : Bytes)
    → bytes_eq path (codes "/") ≡ false
    → location ≡ with_query (redirect_path path) query
    → IsOtherPath path query location
location-IsOtherPath path [] location h e =
    (redirect_path path, redirect_path-IsToggled path h, inl (refl, e))
location-IsOtherPath path (c ∷ query) location h e =
    (redirect_path path, redirect_path-IsToggled path h, inr ((λ q. absurd cc), e))

-- 301 for GET and 308 for the others.
abbrev pub IsCodeOf : Bytes → ℕ → Type 0
IsCodeOf method code =
    ((method ≡ codes "GET") × (code ≡ 301)) ⊎ ((method ≢ codes "GET") × (code ≡ 308))

code-IsCodeOf : (method : Bytes) (code : ℕ) → code ≡ redirect_code method → IsCodeOf method code
code-IsCodeOf method code e = elim (Bool-cases (bytes_eq method (codes "GET"))) [
  | inl h ↦ inl ((bytes_eq_iff method (codes "GET")).0 h, ground arith)
  | inr h ↦ inr (not-text method (codes "GET") h, ground arith)
]

module _ {H R M : Type 0} where
  -- The lookup of the path in the tree of the method finds no route, and advises another path.
  abbrev pub IsAdvised : Items (Node (Payload H R M)) → Bytes → Bytes → Type 0
  IsAdvised trees method path =
      (root : Node (Payload H R M)) × (r : Found (Payload H R M)) × (get trees method ≡ some root)
      × (get_value root path (some []) ≡ ok r)
      × (r.route ≡ none)
      × (r.tsr ≡ true)

  -- A redirect is sent only where the method has a tree, and the lookup of the path in it finds no
  -- route and advises another path; for a path other than "/" and a method other than CONNECT; with 301
  -- for GET and 308 for the others; to the path with a slash at its end, or without the one that it
  -- has, and with the query of the request, if there is one, behind a question mark.
  pub decide-redirect :
      (report : Bool) (trees : Items (Node (Payload H R M))) (method path query : Bytes) (code : ℕ)
      (location : Bytes)
      → decide report trees method path query ≡ ok (redirect code location)
      → IsAdvised trees method path
        × (method ≢ codes "CONNECT")
        × (path ≢ codes "/")
        × IsCodeOf method code
        × IsOtherPath path query location
  decide-redirect report trees method path query code location e =
      elim (Option-cases (get trees method)) [
        | inl gone ↦ absurd (
            not-from_tree (no_route report trees method path) (redirect code location)
              (from_tree-no_route report trees method path) refl
              (sym (decide-none report trees method path query gone) ∙ e))
        | inr (root, here) ↦
            let (r, looked, decided) =
              bind-ok (get_value root path (some [])) (decide_found report trees method path query)
                (redirect code location)
                (sym (decide-some report trees method path query root here) ∙ e) in
            let (missing, advised, m, p, k, l) =
              decide_found-redirect report trees method path query r code location decided in
            (
              (root, r, here, looked, missing, advised),
              not-text method (codes "CONNECT") m,
              not-text path (codes "/") p,
              code-IsCodeOf method code k,
              location-IsOtherPath path query location p l,
            )
      ]
