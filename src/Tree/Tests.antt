-- ===== src/Tree/Tests.antt =====
-- Runs of the tree on small sets of routes.
use gofi.Tree.Scan.{longest_common_prefix, find_wildcard, Wildcard}
use gofi.Tree.Scan.Laws.{Diverge, IsWildcard, longest_common_prefix_lem, find_wildcard_lem}
use gofi.Tree.Insert.Grown.{HavePatterns}
use gofi.Tree.Insert.Children.{Reordered, increment_child_prio-Reordered}
use gofi.Prelude.{
  ◌⊎◌, ◌++◌, Bytes, length, inl, ◌≡◌, refl, Bool, true, false, none, some, List, [], ◌∷◌, String,
  codes,
}
use gofi.Tree.Node.{
  Result, ok, ◌>>=◌, RouteData, Fields, Node, node, Nodes, nil, cons, new_fields,
  increment_child_prio, wild, no_wild, new_node, root, param,
}
use gofi.Tree.Insert.{add_route}
use gofi.Tree.Lookup.{get_value, Found, Params}
use gofi.Tree.Shape.{IsNode, AreChildren}
use gofi.Tree.Pattern.{IsName, Plain}
use gofi.Tree.Lookup.Total.{get_value_total}

abbrev route : String → RouteData String
route p = record { pattern = codes p; payload = p }

add_all : Node String → List String → Result (Node String)
add_all n [] = ok n
add_all n (p ∷ ps) = add_route n (codes p) (route p) >>= λ m. add_all m ps

-- Registers the patterns in a new tree, and looks a path up.
ask : List String → String → Result (Found String)
unfolding add_all add_route get_value
ask ps path = add_all new_node ps >>= λ n. get_value n (codes path) (some [])

abbrev found : String → List (String × String) → Result (Found String)
found p ps = ok (record { route = some (route p); tsr = false; params = some (bindings ps) })
  where
    bindings : List (String × String) → Params
    bindings [] = []
    bindings ((k, v) ∷ r) = record { key = codes k; value = codes v } ∷ bindings r

abbrev missed : Bool → Result (Found String)
missed tsr = ok (record { route = none; tsr = tsr; params = some [] })

abbrev users : List String
users = "/users/me" ∷ "/users/:id" ∷ "/users/:id/posts/:post" ∷ "/files/*rest" ∷ "/users" ∷ []

static_found : ask users "/users/me" ≡ found "/users/me" []
unfolding ask
static_found = refl

param_found : ask users "/users/alice" ≡ found "/users/:id" (("id", "alice") ∷ [])
unfolding ask
param_found = refl

two_params_found :
    ask users "/users/alice/posts/7"
    ≡ found "/users/:id/posts/:post" (("id", "alice") ∷ ("post", "7") ∷ [])
unfolding ask
two_params_found = refl

catch_all_found : ask users "/files/a/b" ≡ found "/files/*rest" (("rest", "a/b") ∷ [])
unfolding ask
catch_all_found = refl

param_behind_static_missed : ask users "/users/mary" ≡ missed false
unfolding ask
param_behind_static_missed = refl

slash_hinted : ask users "/users/" ≡ missed true
unfolding ask
slash_hinted = refl

-- The byte in the place of the slash before a catch-all is not compared.
catch_all_without_slash_found :
    ask ("/files/*rest" ∷ []) "/filesystem" ≡ found "/files/*rest" (("rest", "stem") ∷ [])
unfolding ask
catch_all_without_slash_found = refl

-- The tree of one route with a parameter.
abbrev user_tree : Node String
user_tree =
    node
      (record {
        path = codes "/users/";
        indices = [];
        n_type = root;
        priority = 1;
        route = none;
        max_params = 1;
      })
      nil
      (wild (
        node
          (record {
            path = codes ":id";
            indices = [];
            n_type = param;
            priority = 1;
            route = some (route "/users/:id");
            max_params = 0;
          })
          nil no_wild))

user_tree_built : add_all new_node ("/users/:id" ∷ []) ≡ ok user_tree
unfolding add_all add_route
user_tree_built = refl

user_tree-IsNode : IsNode [] user_tree
user_tree-IsNode = (
  (refl, (refl, (refl, (refl, (refl, (refl, (refl, tt))))))),
  refl,
  tt,
  tt,
  inl (refl, (codes "id", refl, is_id), refl, refl, tt),
  refl,
  tt,
)
  where
    is_id : IsName (codes "id")
    is_id = ((refl, (refl, tt)), (refl, (refl, tt)), λ e. cc)

longest_common_prefix_lem_example :
    (p : Bytes) × (r : Bytes) × (s : Bytes) × (codes "/users" ≡ p ++ r)
    × (codes "/units" ≡ p ++ s)
    × (length p ≡ longest_common_prefix (codes "/users") (codes "/units"))
    × Diverge r s
longest_common_prefix_lem_example = longest_common_prefix_lem (codes "/users") (codes "/units")

find_wildcard_lem_example :
    (find_wildcard (codes "/users/:id/x") ≡ none) × Plain (codes "/users/:id/x")
    ⊎ ((w : Wildcard) × (find_wildcard (codes "/users/:id/x") ≡ some w)
        × IsWildcard 0 (codes "/users/:id/x") w)
find_wildcard_lem_example = find_wildcard_lem (codes "/users/:id/x")

get_value_total_example :
    (r : Found String) × (get_value user_tree (codes "/users/7/x") none ≡ ok r)
get_value_total_example = get_value_total user_tree (codes "/users/7/x") none user_tree-IsNode

abbrev two_routes : List (RouteData String)
two_routes = route "/users/:id" ∷ route "/users/me" ∷ []

two_routes-HavePatterns : HavePatterns two_routes
two_routes-HavePatterns = ((λ e. cc), ((λ e. cc), tt))

abbrev two_children : Fields String
two_children = record new_fields { indices = b'a' ∷ b'b' ∷ [] }

abbrev leaf : Bytes → Node String
leaf p = node (record new_fields { path = p; priority = 1 }) nil no_wild

abbrev leaves : Nodes String
leaves = cons (leaf (b'a' ∷ [])) (cons (leaf (b'b' ∷ [])) nil)

leaves-AreChildren : AreChildren [] (b'a' ∷ b'b' ∷ []) leaves
leaves-AreChildren = (
  inl refl,
  ((refl, tt), refl, tt, tt, tt, refl, tt),
  (inl refl, ((refl, tt), refl, tt, tt, tt, refl, tt), tt),
)

increment_child_prio-Reordered_example :
    Reordered [] two_children no_wild b'b'
      (increment_child_prio (node two_children leaves no_wild) 1)
increment_child_prio-Reordered_example =
    increment_child_prio-Reordered [] two_children leaves no_wild 1 b'b' leaves-AreChildren refl
