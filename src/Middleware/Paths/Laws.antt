-- ===== src/Middleware/Paths/Laws.antt =====
-- middleware/redirect.go, middleware/rewrite.go: which paths the rules take, and where they lead.
use gofi.Prelude.{
  ℕ, ◌≡◌, ◌⊎◌, refl, ◌∙◌, ap, Option, none, some, List, [], ◌∷◌, ◌++◌, Bytes, codes,
  cut_prefix-append, Option-cases, inl, inr,
}
use gofi.Store.{Items, get, set}
use gofi.Chain.{run, serve, next, Outcome, Context}
use gofi.Chain.Laws.{shift, serve-cons}
use gofi.Middleware.{Exchange, Middleware, set_header, send_string}
use gofi.Middleware.Paths.{
  cut_star, split_rules, fill_target, match_wildcards, target_in, find_target, redirect_status,
  redirect_to, redirect, set_path, rewrite_to, rewrite,
}

cut_star-append : (p : Bytes) → cut_star (p ++ codes "/*") ≡ some p
unfolding cut_star
cut_star-append [] = refl
cut_star-append (c ∷ []) = refl
cut_star-append (c ∷ d ∷ []) = refl
cut_star-append (c ∷ d ∷ e ∷ p) = rw (cut_star-append (d ∷ e ∷ p)) refl

split_rules-star :
    (prefix replacement : Bytes)
    → split_rules ((prefix ++ codes "/*", replacement) ∷ []) [] []
      ≡ ([], (prefix, replacement) ∷ [])
unfolding split_rules set
split_rules-star prefix replacement = rw (cut_star-append prefix, split_rules) refl

match_wildcards-one :
    (prefix capture replacement : Bytes)
    → match_wildcards ((prefix, replacement) ∷ []) (prefix ++ capture)
      ≡ some (fill_target replacement capture)
unfolding match_wildcards
match_wildcards-one prefix capture replacement =
    rw (cut_prefix-append prefix capture, match_wildcards) refl

find_target-wildcard :
    (prefix capture replacement : Bytes)
    → find_target ((prefix ++ codes "/*", replacement) ∷ []) (prefix ++ capture)
      ≡ some (fill_target replacement capture)
unfolding find_target get
find_target-wildcard prefix capture replacement =
    ap (λ p. target_in p (prefix ++ capture)) (split_rules-star prefix replacement)
    ∙ match_wildcards-one prefix capture replacement

abbrev start : Exchange → Context Exchange
start x = record { position = 0; state = x }

serve-redirect :
    (code : ℕ) (rules : Items Bytes) (hs : List Middleware) (x : Exchange)
    → serve (redirect code rules ∷ hs) x
      ≡ shift (run (next hs) (redirect_to code (find_target rules x.request.path)) (start x))
unfolding redirect run
serve-redirect code rules hs x = serve-cons (redirect code rules) hs x

serve-rewrite :
    (rules : Items Bytes) (hs : List Middleware) (x : Exchange)
    → serve (rewrite rules ∷ hs) x
      ≡ shift (run (next hs) (rewrite_to (find_target rules x.request.path)) (start x))
unfolding rewrite run
serve-rewrite rules hs x = serve-cons (rewrite rules) hs x

-- A rule that ends in "/*" takes every path that starts with what is in front of it, whether a slash
-- follows or not: the request is redirected at once, to the template with the rest of the path.
pub redirect-wildcard :
    (code : ℕ) (prefix capture replacement : Bytes) (hs : List Middleware) (x : Exchange)
    → x.request.path ≡ prefix ++ capture
    → serve (redirect code ((prefix ++ codes "/*", replacement) ∷ []) ∷ hs) x ≡ (
      none,
      record {
        position = 1;
        state =
            send_string
              (redirect_status code)
              []
              (set_header (codes "Location") (fill_target replacement capture) x);
      },
    )
unfolding run
redirect-wildcard code prefix capture replacement hs x h =
    let rules = (prefix ++ codes "/*", replacement) ∷ [] in
    serve-redirect code rules hs x
    ∙ ap (λ t. shift (run (next hs) (redirect_to code t) (start x)))
        (ap (find_target rules) h ∙ find_target-wildcard prefix capture replacement)

-- `Redirect` answers exactly the requests whose path `Rewrite` changes, with the path that `Rewrite`
-- puts in its place; both let the others go on unchanged.
pub redirect-rewrite :
    (code : ℕ) (rules : Items Bytes) (hs : List Middleware) (x : Exchange)
    → (serve (redirect code rules ∷ hs) x ≡ shift (serve hs x))
        × (serve (rewrite rules ∷ hs) x ≡ shift (serve hs x))
      ⊎ ((target : Bytes) × (serve (redirect code rules ∷ hs) x ≡ (
        none,
        record {
          position = 1;
          state = send_string (redirect_status code) [] (set_header (codes "Location") target x);
        },
      ))
          × (serve (rewrite rules ∷ hs) x ≡ shift (serve hs (set_path target x))))
unfolding run
redirect-rewrite code rules hs x =
    let redirected : Option Bytes → Outcome × Context Exchange =
      λ t. shift (run (next hs) (redirect_to code t) (start x)) in
    let rewritten : Option Bytes → Outcome × Context Exchange =
      λ t. shift (run (next hs) (rewrite_to t) (start x)) in
    elim (Option-cases (find_target rules x.request.path)) [
      | inl e ↦ inl (
        serve-redirect code rules hs x ∙ ap redirected e,
        serve-rewrite rules hs x ∙ ap rewritten e,
      )
      | inr (target, e) ↦ inr (
        target,
        serve-redirect code rules hs x ∙ ap redirected e,
        serve-rewrite rules hs x ∙ ap rewritten e,
      )
    ]
