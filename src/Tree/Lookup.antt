-- ===== src/Tree/Lookup.antt =====
-- tree.go: `getValue`, which finds the route of a request path and collects the parameters.
pub mod Sound
pub mod Total
use gofi.Prelude.{
  ℕ, zero, suc, ◌+◌, Bool, true, false, not, ◌&&◌, ◌||◌, Option, none, some, List, [], ◌∷◌, ◌++◌,
  ◌==◌, ltb, if◌then◌else◌, Bytes, bytes_eq, cut_prefix, length, drop,
}
use gofi.Tree.Node.{
  Result, ok, panic, invalid_node_type, index_out_of_range, out_of_fuel, param, NodeType, catch_all,
  is_root, is_catch_all, RouteData, Fields, Node, node, nil, cons, Wild, no_wild, wild, fields,
  children, child_at,
}
use gofi.Tree.Insert.{index_of}

pub record Param : Type 0 where
  pub key : Bytes
  pub value : Bytes

abbrev pub Params : Type 0
Params = List Param

-- The results `data` and `tsr`, and the parameters collected, which are there if the caller gave
-- the function `params`.
pub record Found (A : Type 0) : Type 0 where
  pub route : Option (RouteData A)
  pub tsr : Bool
  pub params : Option Params

-- *p = append(*p, Param{...})
abbrev pub capture : Option Params → Bytes → Bytes → Option Params
capture none k v = none
capture (some ps) k v = some (ps ++ record { key = k; value = v } ∷ [])

-- for end < len(path) && path[end] != '/': the text before the first '/', and the rest
unfoldable pub split_segment : Bytes → Bytes × Bytes
split_segment [] = ([], [])
split_segment (c ∷ s) =
    let (v, r) = split_segment s in if c == b'/' then ([], c ∷ s) else (c ∷ v, r)

-- A further round of the loop: a node, the path and the parameters.
abbrev pub Search : Type 0 → Type 0
Search A = Node A → Bytes → Option Params → Result (Found A)

module _ {A : Type 0} where
  abbrev pub has_route : Fields A → Bool
  has_route n = elim n.route [ none ↦ false | some d ↦ true ]

  abbrev pub miss : Bool → Option Params → Result (Found A)
  miss tsr ps = ok (record { route = none; tsr = tsr; params = ps })

  abbrev pub hit : Option (RouteData A) → Option Params → Result (Found A)
  hit d ps = ok (record { route = d; tsr = false; params = ps })

  -- A param child, at the end of the path: its own route, or a hint at its child "/".
  abbrev pub param_end : Node A → Option Params → Result (Found A)
  param_end (node n cs w) ps = elim n.route [
    | some d ↦ hit (some d) ps
    | none ↦ elim cs [
      | cons m nil ↦ miss (bytes_eq (fields m).path (b'/' ∷ []) && has_route (fields m)) ps
      | _ ↦ miss false ps
    ]
  ]

  -- `case param`, with the segment and the path behind it
  abbrev pub enter_param : Search A → Node A → Bytes × Bytes → Option Params → Result (Found A)
  enter_param search (node n cs w) (value, []) ps =
      param_end (node n cs w) (capture ps (drop 1 n.path) value)
  enter_param search (node n nil w) (value, c ∷ rest) ps =
      miss (length rest == 0) (capture ps (drop 1 n.path) value)
  enter_param search (node n (cons m cs) w) (value, c ∷ rest) ps =
      search m (c ∷ rest) (capture ps (drop 1 n.path) value)

  -- n.path[2:] and path[1:]
  abbrev pub take_all : Fields A → Bytes → Option Params → Result (Found A)
  take_all n path none = hit n.route none
  take_all n path (some ps) =
      if ltb (length n.path) 2
      then panic index_out_of_range
      else hit n.route (capture (some ps) (drop 2 n.path) (drop 1 path))

  -- `case catchAll`, with its second node if it has one
  abbrev pub enter_catch_all : Node A → Bytes → Option Params → Result (Found A)
  enter_catch_all (node n nil w) path ps = take_all n path ps
  enter_catch_all (node n (cons m cs) w) path ps = take_all (fields m) path ps

  -- switch n.nType
  abbrev pub by_type : NodeType → Search A → Node A → Bytes → Option Params → Result (Found A)
  by_type param search n path ps = enter_param search n (split_segment path) ps
  by_type catch_all search n path ps = enter_catch_all n path ps
  by_type _ search n path ps = panic invalid_node_type

  -- No static child has the next byte: the wildcard child, or nothing.
  abbrev pub try_wild : Search A → Node A → Bytes → Option Params → Result (Found A)
  try_wild search (node n cs (wild m)) path ps = by_type (fields m).n_type search m path ps
  try_wild search (node n cs no_wild) path ps = miss (bytes_eq path (b'/' ∷ []) && has_route n) ps

  -- The path goes on behind the node's own: a static child first.
  unfoldable pub descend : Search A → Node A → ℕ → Bytes → Option Params → Result (Found A)
  unfolding index_of split_segment
  descend search n c path ps = elim (index_of (fields n).indices c) [
    | some i ↦ elim (child_at (children n) i) [
      | none ↦ panic index_out_of_range
      | some m ↦ search m path ps
    ]
    | none ↦ try_wild search n path ps
  ]

  -- (len(n.path) == 1 && n.data != nil) || (n.nType == catchAll && n.children[0].data != nil)
  abbrev pub slash_hint : Node A → Option Params → Result (Found A)
  slash_hint (node m cs w) ps =
      if length m.path == 1 && has_route m
      then miss true ps
      else if is_catch_all m.n_type
      then (elim cs [ nil ↦ panic index_out_of_range | cons k _ ↦ miss (has_route (fields k)) ps ])
      else miss false ps

  -- No route here: a recommendation for the path with a trailing slash.
  abbrev pub slash_child : Node A → Option Params → Result (Found A)
  slash_child n ps = elim (index_of (fields n).indices b'/') [
    | none ↦ miss false ps
    | some i ↦ elim (child_at (children n) i) [
      | none ↦ panic index_out_of_range
      | some m ↦ slash_hint m ps
    ]
  ]

  abbrev pub has_wild : Wild A → Bool
  has_wild no_wild = false
  has_wild (wild m) = true

  -- The path ends with the node's own.
  unfoldable pub arrive : Node A → Bytes → Option Params → Result (Found A)
  unfolding index_of
  arrive (node n cs w) path ps = elim n.route [
    | some d ↦ hit (some d) ps
    | none ↦
        if bytes_eq path (b'/' ∷ []) && has_wild w && not (is_root n.n_type)
        then miss true ps
        else slash_child (node n cs w) ps
  ]

  -- "Nothing found. We can recommend to redirect to the same URL with an extra trailing slash"
  abbrev pub nothing_found : Fields A → Bytes → Option Params → Result (Found A)
  nothing_found n path ps =
      miss (bytes_eq path (b'/' ∷ []) || bytes_eq n.path (path ++ b'/' ∷ []) && has_route n) ps

  abbrev pub compare_prefix : Search A → Node A → Bytes → Option Params → Result (Found A)
  compare_prefix search n path ps = elim (cut_prefix (fields n).path path) [
    | some [] ↦ arrive n path ps
    | some (c ∷ rest) ↦ descend search n c (c ∷ rest) ps
    | none ↦ nothing_found (fields n) path ps
  ]

  -- The loop `walk`; `get_value` gives it enough fuel.
  unfoldable pub search_from : ℕ → Search A
  unfolding descend arrive
  search_from zero n path ps = panic out_of_fuel
  search_from (suc f) n path ps = compare_prefix (search_from f) n path ps

  unfoldable pub get_value : Node A → Bytes → Option Params → Result (Found A)
  unfolding search_from
  get_value n path ps = search_from (length path + 2) n path ps
