-- ===== src/Mux/Tests.antt =====
-- Runs of the router, and the theorems at them.
use gofi.Prelude.{
  List, ℕ, ◌==◌, ◌&&◌, if◌then◌else◌, subst, ◌+◌, ◌≡◌, refl, true, false, Option, none, some, [],
  ◌∷◌, Bytes, bytes_eq, codes, String, Bool-cases, inl, inr, arith, ◌≢◌,
}
use gofi.Store.{get, meta_route}
use gofi.Tree.Node.{Result, ok, ◌>>=◌, Node, node, nil, wild, no_wild, root, param, RouteData}
use gofi.Tree.Shape.{IsNode}
use gofi.Tree.Pattern.{Serves, IsName}
use gofi.Mux.{Payload, RouteOptions, ServeMux, new_router, add_method}
use gofi.Tree.Insert.Built.{Stops}
use gofi.Tree.Lookup.{Params}
use gofi.Mux.Registration.{IsRouter, add_method-IsRouter, decide_total, decide_after_add_methods}
use gofi.Mux.Dispatch.{Decision, route, redirect, method_not_allowed, not_found, decide}
use gofi.Mux.Dispatch.Laws.{AreTrees}
use gofi.Mux.Dispatch.Redirects.{IsAdvised, IsOtherPath, IsCodeOf, decide-redirect}
use gofi.Mux.Groups.{Heap, GroupMux, read, read_cells, use_middlewares, with_middlewares}
use gofi.Mux.Groups.Sharing.{use_overwrites, with_isolates}

abbrev Mux : Type 0
Mux = ServeMux String ℕ ℕ ℕ

abbrev empty : Mux
empty = new_router

abbrev same : Bytes → Bytes
same s = s

abbrev opts : String → Option ℕ → RouteOptions String ℕ ℕ ℕ
opts name meta = record { schema = none; hidden = false; meta = meta; handler = name }

-- GET /users/:id and POST /users, with meta values.
built : Result Mux
unfolding add_method
built =
    add_method same (codes "GET") (codes "/users/:id") (opts "user" (some 1)) new_router >>= λ s.
    add_method same (codes "POST") (codes "/users/:id") (opts "change" (some 2)) s >>= λ s.
    add_method same (codes "POST") (codes "/users") (opts "create" none) s

ask : Bytes → Bytes → Result (Decision String ℕ ℕ)
unfolding built decide
ask method path = built >>= λ s. decide s.report_405 s.trees method path (codes "a=1")

-- The meta value of the first method is lost.
meta_lost :
    (built >>= λ s. ok (meta_route same s.route_meta (codes "/users/:id") (codes "GET"))) ≡ ok none
unfolding built meta_route
meta_lost = refl

redirects_to_users : ask (codes "POST") (codes "/users/") ≡ ok (redirect 308 (codes "/users?a=1"))
unfolding ask
redirects_to_users = refl

not_allowed : ask (codes "PUT") (codes "/users") ≡ ok (method_not_allowed (codes "POST"))
unfolding ask
not_allowed = refl

missing : ask (codes "PUT") (codes "/none") ≡ ok not_found
unfolding ask
missing = refl

abbrev payload : String → Payload String ℕ ℕ
payload name = record { handlers = name ∷ []; rules = none; meta = none }

abbrev route_to : String → String → RouteData (Payload String ℕ ℕ)
route_to pattern name = record { pattern = codes pattern; payload = payload name }

-- The tree of the route "/users".
abbrev users_tree : Node (Payload String ℕ ℕ)
users_tree =
    node
      (record {
        path = codes "/users";
        indices = [];
        n_type = root;
        priority = 1;
        route = some (route_to "/users" "create");
        max_params = 0;
      })
      nil no_wild

decide-redirect_example :
    IsAdvised ((codes "POST", users_tree) ∷ []) (codes "POST") (codes "/users/")
    × (codes "POST" ≢ codes "CONNECT")
    × (codes "/users/" ≢ codes "/")
    × IsCodeOf (codes "POST") 308
    × IsOtherPath (codes "/users/") (codes "a=1") (codes "/users?a=1")
unfolding decide
decide-redirect_example =
    decide-redirect true ((codes "POST", users_tree) ∷ []) (codes "POST") (codes "/users/")
      (codes "a=1") 308 (codes "/users?a=1") refl

-- The tree of the route "/users/:id".
abbrev user_tree : Node (Payload String ℕ ℕ)
user_tree =
    node
      (record {
        path = codes "/users/";
        indices = [];
        n_type = root;
        priority = 1;
        route = none;
        max_params = 1;
      })
      nil
      (wild (
        node
          (record {
            path = codes ":id";
            indices = [];
            n_type = param;
            priority = 1;
            route = some (route_to "/users/:id" "user");
            max_params = 0;
          })
          nil no_wild))

user_tree-IsNode : IsNode [] user_tree
user_tree-IsNode = (
  (refl, (refl, (refl, (refl, (refl, (refl, (refl, tt))))))),
  refl,
  tt,
  tt,
  inl (refl, (codes "id", refl, is_id), refl, refl, tt),
  refl,
  tt,
)
  where
    is_id : IsName (codes "id")
    is_id = ((refl, (refl, tt)), (refl, (refl, tt)), λ e. cc)

user_trees-AreTrees : AreTrees ((codes "GET", user_tree) ∷ [])
unfolding get
user_trees-AreTrees method n h = elim (Bool-cases (bytes_eq (codes "GET") method)) [
  | inl e ↦ subst (IsNode []) {x = user_tree} (ground arith) user_tree-IsNode
  | inr e ↦ ground arith
]

-- Two routers that share an array with room for two middlewares and one element.
abbrev heap : Heap String
heap = record { cell = λ a i. if (a == 0) && (i == 0) then some "log" else none; fresh = 1 }

abbrev shared : GroupMux
shared = record {
  middlewares = record { array = 0; len = 1; cap = 2 };
  inline_middlewares = record { array = 0; len = 0; cap = 0 };
  prefix = [];
}

abbrev double : ℕ → ℕ → ℕ
double cap len = len + len

use_overwrites_example :
    read
      (use_middlewares double
        (use_middlewares double heap shared ("auth" ∷ [])).1
        shared
        ("cache" ∷ [])).1
      (use_middlewares double heap shared ("auth" ∷ [])).0.middlewares
    ≡ some "log" ∷ some "cache" ∷ []
unfolding read_cells
use_overwrites_example = use_overwrites double heap shared shared "auth" "cache" refl (omega arith)

with_isolates_example :
    read
      (use_middlewares double
        (with_middlewares heap shared ("auth" ∷ [])).1
        shared
        ("cache" ∷ [])).1
      (with_middlewares heap shared ("auth" ∷ [])).0.inline_middlewares
    ≡ read
        (with_middlewares heap shared ("auth" ∷ [])).1
        (with_middlewares heap shared ("auth" ∷ [])).0.inline_middlewares
with_isolates_example =
    with_isolates double heap shared shared ("auth" ∷ []) ("cache" ∷ []) (omega arith)

add_method-IsRouter_example :
    Stops IsRouter (add_method same (codes "GET") (codes "/users/:id") (opts "user" (some 1)) empty)
add_method-IsRouter_example =
    add_method-IsRouter same (codes "GET") (codes "/users/:id") (opts "user" (some 1)) empty
      (λ e. cc) tt

decide_total_example :
    (out : Decision String ℕ ℕ) × (decide true
        ((codes "GET", user_tree) ∷ [])
        (codes "POST")
        (codes "/users/7")
        []
      ≡ ok out)
decide_total_example =
    decide_total true ((codes "GET", user_tree) ∷ []) (codes "POST") (codes "/users/7") []
      (user_tree-IsNode, tt)

abbrev one_route : List (Bytes × Bytes × RouteOptions String ℕ ℕ ℕ)
one_route = (codes "GET", codes "/users/:id", opts "user" none) ∷ []

abbrev one_route_mux : Mux
one_route_mux = record empty { trees = (codes "GET", user_tree) ∷ []; max_params = 1 }

decide_after_add_methods_example :
    (out : Decision String ℕ ℕ) × (decide true
        ((codes "GET", user_tree) ∷ [])
        (codes "GET")
        (codes "/users/7")
        []
      ≡ ok out)
    × ((d : RouteData (Payload String ℕ ℕ)) (ps : Params)
        → out ≡ route d ps
        → Serves d.pattern (codes "/users/7") ps)
unfolding add_method
decide_after_add_methods_example =
    decide_after_add_methods same one_route one_route_mux (codes "GET") (codes "/users/7") []
      ((λ e. cc), tt) refl
