-- ===== src/Middleware/Paths.antt =====
-- middleware/redirect.go and middleware/rewrite.go: rules on the path of a request.
pub mod Laws
use gofi.Prelude.{
  ℕ, Bool, true, false, ◌&&◌, Option, none, some, List, [], ◌∷◌, ◌==◌, if◌then◌else◌, Bytes, codes,
  cut_prefix, replace_all,
}
use gofi.Store.{Items, get, set}
use gofi.Chain.{stop, act, look, pass}
use gofi.Middleware.{Exchange, Middleware, set_header, send_string}

-- pattern[:len(pattern)-2] for a pattern that ends in "/*"
unfoldable pub cut_star : Bytes → Option Bytes
cut_star [] = none
cut_star (c ∷ []) = none
cut_star (c ∷ d ∷ []) = if (c == b'/') && (d == b'*') then some [] else none
cut_star (c ∷ d ∷ e ∷ s) = elim (cut_star (d ∷ e ∷ s)) [ none ↦ none | some p ↦ some (c ∷ p) ]

-- `exactRules` and `wildcardRules`
unfoldable pub split_rules : Items Bytes → Items Bytes → Items Bytes → Items Bytes × Items Bytes
unfolding set cut_star
split_rules [] exact wildcards = (exact, wildcards)
split_rules ((pattern, replacement) ∷ rules) exact wildcards = elim (cut_star pattern) [
  | some prefix ↦ split_rules rules exact (set wildcards prefix replacement)
  | none ↦ split_rules rules (set exact pattern replacement) wildcards
]

-- The template with its capture.
unfoldable pub fill_target : Bytes → Bytes → Bytes
unfolding replace_all
fill_target replacement capture =
    replace_all (replace_all replacement (codes "$1") capture) (codes "//") (codes "/")

-- The loop over `wildcardRules`.
unfoldable pub match_wildcards : Items Bytes → Bytes → Option Bytes
unfolding fill_target
match_wildcards [] path = none
match_wildcards ((prefix, replacement) ∷ rules) path = elim (cut_prefix prefix path) [
  | some capture ↦ some (fill_target replacement capture)
  | none ↦ match_wildcards rules path
]

-- Exact rules first, then those with a wildcard.
abbrev pub target_in : Items Bytes × Items Bytes → Bytes → Option Bytes
target_in (exact, wildcards) path = elim (get exact path) [
  | some target ↦ some target
  | none ↦ match_wildcards wildcards path
]

unfoldable pub find_target : Items Bytes → Bytes → Option Bytes
unfolding get split_rules match_wildcards
find_target rules path = target_in (split_rules rules [] []) path

-- cfg.StatusCode, or 302 for 0
abbrev pub redirect_status : ℕ → ℕ
redirect_status code = if code == 0 then 302 else code

-- What `Redirect` does with a target, or without one.
abbrev pub redirect_to : ℕ → Option Bytes → Middleware
redirect_to code none = pass
redirect_to code (some target) =
    act (λ y. send_string (redirect_status code) [] (set_header (codes "Location") target y))
      (stop none)

-- `Redirect`
unfoldable pub redirect : ℕ → Items Bytes → Middleware
redirect code rules = look (λ x. redirect_to code (find_target rules x.request.path))

abbrev pub set_path : Bytes → Exchange → Exchange
set_path path x = record x { request = record x.request { path = path } }

abbrev pub rewrite_to : Option Bytes → Middleware
rewrite_to none = pass
rewrite_to (some target) = act (set_path target) pass

-- `Rewrite`
unfoldable pub rewrite : Items Bytes → Middleware
rewrite rules = look (λ x. rewrite_to (find_target rules x.request.path))
