-- ===== src/Tree/Insert.antt =====
-- tree.go: `addRoute` and `insertChild`. Nodes are changed in place there; here each function returns
-- the changed node, and a panic leaves no tree.
pub mod Built
pub mod Chain
pub mod Fresh
pub mod Children
pub mod Split
pub mod Place
pub mod PlaceWild
pub mod PlaceParam
pub mod Walked
pub mod Grown
use gofi.Prelude.{
  ℕ, zero, suc, ◌+◌, ◌-◌, ◌%◌, ◌^◌, Bool, false, not, ◌&&◌, ◌||◌, Option, none, some, [], ◌∷◌, ◌++◌,
  ◌==◌, ltb, leb, if◌then◌else◌, Bytes, bytes_eq, length, take, drop, get_elem?,
}
use gofi.Tree.Scan.{is_wild, longest_common_prefix, Wildcard, find_wildcard, count_params}
use gofi.Tree.Node.{
  Result, ok, panic, ◌>>=◌, duplicate_route, wildcard_conflict, catch_all_conflict,
  invalid_wildcard, unnamed_wildcard, catch_all_not_last, catch_all_at_root,
  no_slash_before_catch_all, index_out_of_range, out_of_fuel, root, param, catch_all, is_param,
  is_catch_all, RouteData, Fields, Node, node, Nodes, nil, cons, Wild, no_wild, wild, fields, count,
  child_at, set_child, bump_at, push_child, bump, increment_child_prio, child_max_params,
  new_fields, max_of,
}

-- n.path[len(n.path)-1] == '/', for a path that is not empty
abbrev pub ends_in_slash : Bytes → Bool
ends_in_slash [] = false
ends_in_slash (c ∷ []) = c == b'/'
ends_in_slash (c ∷ d ∷ s) = ends_in_slash (d ∷ s)

-- path[i]
abbrev pub slash_at : Bytes → ℕ → Bool
slash_at s i = elim (get_elem? s i) [ none ↦ false | some c ↦ c == b'/' ]

-- wildcard[0] == ':'
abbrev pub starts_with_colon : Bytes → Bool
starts_with_colon [] = false
starts_with_colon (c ∷ s) = c == b':'

-- for i, max := 0, len(n.indices); c == n.indices[i]
unfoldable pub index_of : Bytes → ℕ → Option ℕ
index_of [] c = none
index_of (x ∷ s) c =
    let later = index_of s c in
    if c == x then some 0 else elim later [ none ↦ none | some i ↦ some (suc i) ]

-- A round of the loop of `addRoute` goes on with a node, the rest of the path and `numParams`.
abbrev pub Walk : Type 0 → Type 0
Walk A = Node A → Bytes → ℕ → Result (Node A)

module _ {A : Type 0} where
  -- The two nodes of a catch-all, below a node whose path ends before the '/'.
  abbrev pub catch_all_nodes : Bytes → RouteData A → Node A
  catch_all_nodes tail d =
      node (record new_fields { n_type = catch_all; priority = 1 })
        (cons
          (node
            (record new_fields { path = tail; n_type = catch_all; route = some d; priority = 1 })
            nil no_wild)
          nil)
        no_wild

  -- The branch `wildcard[0] == '*'`, where the wildcard starts at `i`.
  abbrev pub insert_catch_all :
      Fields A → Nodes A → Bytes → Bytes → RouteData A → Bytes → ℕ → Result (Node A)
  insert_catch_all n cs path full d text i =
      if not (i + length text == length path)
      then panic (catch_all_not_last full)
      else if ends_in_slash n.path
      then panic (catch_all_at_root full)
      else if i == 0
      then panic index_out_of_range
      else if not (slash_at path (i - 1))
      then panic (no_slash_before_catch_all full)
      else ok (
          node (record n { path = take (i - 1) path }) cs
            (wild (catch_all_nodes (drop (i - 1) path) d)))

  abbrev pub param_fields : Bytes → Fields A
  param_fields text = record new_fields { n_type = param; path = text; priority = 1 }

  -- A round of the loop that finds a wildcard; `inner` is what the next rounds do for the rest of
  -- the path, on a new node.
  abbrev pub insert_wildcard :
      (Bytes → Result (Node A))
      → Fields A
      → Nodes A
      → Bytes
      → Bytes
      → RouteData A
      → Wildcard
      → Result (Node A)
  insert_wildcard inner n cs path full d found =
      let i = found.start in
      let n' = if ltb 0 i then record n { path = take i path } else n in
      if not found.valid
      then panic (invalid_wildcard path)
      else if ltb (length found.text) 2
      then panic (unnamed_wildcard full)
      else if starts_with_colon found.text
      then (if ltb (length found.text) (length (drop i path))
          then (inner (drop (i + length found.text) path) >>= λ child.
              ok (node n' cs (wild (node (param_fields found.text) (cons child nil) no_wild))))
          else ok (
              node n' cs
                (wild (node (record (param_fields found.text) { route = some d }) nil no_wild))))
      else insert_catch_all n cs path full d found.text i

  unfoldable pub insert_child :
      ℕ → Fields A → Nodes A → Wild A → Bytes → Bytes → RouteData A → Result (Node A)
  unfolding find_wildcard
  insert_child zero n cs w path full d = panic out_of_fuel
  insert_child (suc f) n cs w path full d = elim (find_wildcard path) [
    | none ↦ ok (node (record n { path = path; route = some d }) cs w)
    | some found ↦
        insert_wildcard
          (λ rest. insert_child f (record new_fields { priority = 1 }) nil no_wild rest full d) n cs
          path full d found
  ]

  -- n.insertChild(path, fullPath, data)
  abbrev pub insert_into : Node A → Bytes → Bytes → RouteData A → Result (Node A)
  insert_into (node n cs w) path full d = insert_child (length path + 1) n cs w path full d

  -- uint8
  abbrev pub raise_max : ℕ → Node A → Node A
  raise_max k (node n cs w) = node (record n { max_params = max_of n.max_params k }) cs w

  -- "Split edge": the node keeps the common prefix, and a new child takes the rest.
  unfoldable pub split_edge : ℕ → Node A → Node A
  split_edge i (node n cs w) =
      let tail = drop i n.path in
      let child = record new_fields {
        path = tail;
        indices = n.indices;
        route = n.route;
        priority = (n.priority + (2 ^ 32 - 1)) % 2 ^ 32;
        max_params = (count_params tail + child_max_params cs w) % 256;
      } in
      node (record n { path = take i n.path; indices = take 1 tail; route = none })
        (cons (node child cs w) nil) no_wild

  -- The existing wildcard child is entered if the path goes on with the whole of its segment.
  unfoldable pub fits_wildcard : Fields A → Bytes → Bool
  fits_wildcard wc path =
      leb (length wc.path) (length path)
      && bytes_eq wc.path (take (length wc.path) path)
      && not (is_catch_all wc.n_type)
      && (leb (length path) (length wc.path) || slash_at path (length wc.path))

  -- The incoming segment starts with ':' or '*'.
  unfoldable pub place_wild : Walk A → Node A → Bytes → Bytes → ℕ → RouteData A → Result (Node A)
  unfolding fits_wildcard
  place_wild walk (node n cs no_wild) path full num d = insert_into (node n cs no_wild) path full d
  place_wild walk (node n cs (wild wc)) path full num d =
      let entered = raise_max num (bump wc) in
      if fits_wildcard (fields wc) path
      then (walk entered path ((num + 255) % 256) >>= λ m. ok (node n cs (wild m)))
      else panic (wildcard_conflict path (fields wc).path full)

  abbrev pub blocks_static : Wild A → Bool
  blocks_static no_wild = false
  blocks_static (wild wc) = is_catch_all (fields wc).n_type

  -- The loop goes on with the child at a position.
  abbrev pub walk_child : Walk A → Node A → ℕ → Bytes → ℕ → Result (Node A)
  walk_child walk (node n cs w) i path num = elim (child_at cs i) [
    | none ↦ panic index_out_of_range
    | some child ↦ walk child path num >>= λ m. ok (node n (set_child cs i m) w)
  ]

  abbrev pub enter_static : Walk A → Node A × ℕ → Bytes → ℕ → Result (Node A)
  enter_static walk (n, i) path num = walk_child walk n i path num

  -- A new static child. `insertChild` and `incrementChildPrio` set different fields of it, so that
  -- their order does not matter.
  abbrev pub add_static : Node A → ℕ → Bytes → Bytes → ℕ → RouteData A → Result (Node A)
  add_static (node n cs w) c path full num d =
      if blocks_static w
      then panic (catch_all_conflict full)
      else (insert_into (node (record new_fields { max_params = num }) nil no_wild) path full d
          >>= λ child.
              let n' = node (record n { indices = n.indices ++ c ∷ [] }) (push_child cs child) w in
              ok (increment_child_prio n' (length n.indices)).0)

  -- "slash after param", an existing static child, or a new one
  unfoldable pub place_static :
      Walk A → Node A → ℕ → Bytes → Bytes → ℕ → RouteData A → Result (Node A)
  unfolding index_of increment_child_prio
  place_static walk (node n cs w) c path full num d =
      if is_param n.n_type && c == b'/' && count cs == 1
      then walk_child walk (node n (bump_at cs 0) w) 0 path num
      else elim (index_of n.indices c) [
        | some i ↦ enter_static walk (increment_child_prio (node n cs w) i) path num
        | none ↦ add_static (node n cs w) c path full num d
      ]

  -- The path is used up: the route is stored here.
  abbrev pub store_route : Node A → Bytes → RouteData A → Result (Node A)
  store_route (node n cs w) full d = elim n.route [
    | some old ↦ panic (duplicate_route old.pattern full)
    | none ↦ ok (node (record n { route = some d }) cs w)
  ]

  -- "Make new node a child of this node"
  abbrev pub place : Walk A → Node A → Bytes → Bytes → ℕ → RouteData A → Result (Node A)
  place walk n [] full num d = store_route n full d
  place walk n (c ∷ s) full num d =
      if is_wild c
      then place_wild walk n (c ∷ s) full num d
      else place_static walk n c (c ∷ s) full num d

  abbrev pub split_if_short : ℕ → Node A → Node A
  split_if_short i n = if ltb i (length (fields n).path) then split_edge i n else n

  -- The loop `walk`; each round but the first leaves a shorter path.
  unfoldable pub walk : ℕ → Bytes → RouteData A → Walk A
  unfolding longest_common_prefix split_edge place_wild place_static
  walk zero full d n path num = panic out_of_fuel
  walk (suc f) full d n path num =
      let i = longest_common_prefix path (fields n).path in
      place (walk f full d) (split_if_short i (raise_max num n)) (drop i path) full num d

  abbrev pub set_root : Node A → Node A
  set_root (node n cs w) = node (record n { n_type = root }) cs w

  abbrev pub is_empty : Node A → Bool
  is_empty (node n nil no_wild) = length n.path == 0
  is_empty _ = false

  unfoldable pub add_route : Node A → Bytes → RouteData A → Result (Node A)
  unfolding insert_child walk count_params
  add_route n path d =
      let n' = raise_max (count_params path) (bump n) in
      if is_empty n
      then (insert_into n' path path d >>= λ m. ok (set_root m))
      else walk (length path + 1) path d n' path (count_params path)
