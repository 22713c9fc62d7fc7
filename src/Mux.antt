-- ===== src/Mux.antt =====
-- mux.go, mux_options.go: the router. It registers routes in one tree for each method, and tells for
-- a request which handlers run.
pub mod Paths
pub mod Dispatch
pub mod Groups
pub mod Registration
mod Tests
use gofi.Prelude.{
  ℕ, Bool, true, false, not, Option, none, some, List, [], ◌∷◌, ◌++◌, ltb, ◌==◌, if◌then◌else◌,
  Bytes, length, drop, ends_with,
}
use gofi.Store.{Items, get, set, MetaMap}
use gofi.Tree.Node.{Result, ok, panic, ◌>>=◌, RouteData, Node, fields, new_node, max_of}
use gofi.Tree.Insert.{add_route}

-- strings.HasPrefix(path, "/")
abbrev pub starts_with_slash : Bytes → Bool
starts_with_slash [] = false
starts_with_slash (c ∷ s) = c == b'/'

abbrev pub is_empty_text : Bytes → Bool
is_empty_text [] = true
is_empty_text (c ∷ s) = false

unfoldable pub join_path : Bytes → Bytes → Bytes
join_path prefix path =
    if is_empty_text prefix
    then path
    else if is_empty_text path
    then prefix
    else if ends_with prefix b'/'
    then (if starts_with_slash path then prefix ++ drop 1 path else prefix ++ path)
    else if starts_with_slash path
    then prefix ++ path
    else prefix ++ b'/' ∷ path

-- What `routeData` holds beside the pattern.
pub record Payload (H R M : Type 0) : Type 0 where
  pub handlers : List H
  pub rules : Option R
  pub meta : Option M

-- `schema` is what `compileSchema` makes of `opts.Schema`, by reflection: the rules and the
-- OpenAPI operation, after `normalize`.
pub record RouteOptions (H R D M : Type 0) : Type 0 where
  pub schema : Option (R × D)
  pub hidden : Bool
  pub meta : Option M
  pub handler : H

-- `serveMux`, with `schemaRules` and `methodNotAllowed` of its options. The slices of middlewares are
-- read as lists here; `Groups` has what their backing arrays do.
pub record ServeMux (H R D M : Type 0) : Type 0 where
  pub trees : Items (Node (Payload H R M))
  pub paths : Items (Items D)
  pub route_meta : MetaMap M
  pub schema_rules : Items (Items R)
  pub middlewares : List H
  pub inline_middlewares : List H
  pub prefix : Bytes
  pub max_params : ℕ
  pub report_405 : Bool

-- `newRouter`, with the default options.
abbrev pub new_router : {H R D M : Type 0} → ServeMux H R D M
new_router = record {
  trees = [];
  paths = [];
  route_meta = [];
  schema_rules = [];
  middlewares = [];
  inline_middlewares = [];
  prefix = [];
  max_params = 0;
  report_405 = true;
}

module _ {V : Type 0} where
  -- s[pattern][lower(method)] = v, where a missing inner map is made first: `SetRules`.
  unfoldable pub set_rules : (Bytes → Bytes) → Items (Items V) → Bytes → Bytes → V → Items (Items V)
  unfolding get set
  set_rules to_lower s pattern method v = elim (get s pattern) [
    | none ↦ set s pattern ((to_lower method, v) ∷ [])
    | some inner ↦ set s pattern (set inner (to_lower method) v)
  ]

  -- `GetRules`
  unfoldable pub get_rules : (Bytes → Bytes) → Items (Items V) → Bytes → Bytes → Option V
  unfolding get
  get_rules to_lower s pattern method = elim (get s pattern) [
    | none ↦ none
    | some inner ↦ get inner (to_lower method)
  ]

-- `to_lower` is strings.ToLower.
module _ {H R D M : Type 0} (to_lower : Bytes → Bytes) where
  -- The part of `method` for a route with a schema. An entry of `paths` that is there but empty is
  -- replaced as a missing one is.
  abbrev pub add_schema :
      Bytes → Bytes → Bool → Option (R × D) → ServeMux H R D M → ServeMux H R D M
  add_schema method path hidden none s = s
  add_schema method path hidden (some (rules, spec)) s = record s {
    paths = if hidden then s.paths else set_rules to_lower s.paths path method spec;
    schema_rules = set_rules to_lower s.schema_rules path method rules;
  }

  -- `s.routeMeta[path] = v`: the map of the path is replaced.
  abbrev pub add_meta : Bytes → Bytes → Option M → ServeMux H R D M → ServeMux H R D M
  add_meta method path none s = s
  add_meta method path (some meta) s = record s {
    route_meta = set s.route_meta path ((to_lower method, meta) ∷ []);
  }

  -- "Build the flat handler chain"
  abbrev pub chain_for : ServeMux H R D M → H → List H
  chain_for s handler = s.middlewares ++ (s.inline_middlewares ++ handler ∷ [])

  abbrev pub rules_of : Bytes → Bytes → Option (R × D) → ServeMux H R D M → Option R
  rules_of method path none s = none
  rules_of method path (some c) s = get_rules to_lower s.schema_rules path method

  abbrev pub tree_of : ServeMux H R D M → Bytes → Node (Payload H R M)
  tree_of s method = elim (get s.trees method) [ none ↦ new_node | some root ↦ root ]

  -- Registration in the tree of the method.
  abbrev pub register :
      Bytes → Bytes → RouteOptions H R D M → ServeMux H R D M → Result (ServeMux H R D M)
  register method path opts s =
      add_route (tree_of s method) path (record {
        pattern = path;
        payload = record {
          handlers = chain_for s opts.handler;
          rules = rules_of method path opts.schema s;
          meta = opts.meta;
        };
      })
      >>= λ root. ok (record s {
        trees = set s.trees method root;
        max_params = max_of s.max_params (fields root).max_params;
      })

  -- `method`, behind `Get`, `Post`, `Method` and the others
  unfoldable pub add_method :
      Bytes → Bytes → RouteOptions H R D M → ServeMux H R D M → Result (ServeMux H R D M)
  unfolding join_path set_rules get_rules add_route
  add_method method path opts s =
      let full = if is_empty_text s.prefix then path else join_path s.prefix path in
      register method full opts
        (add_meta method full opts.meta (add_schema method full opts.hidden opts.schema s))
