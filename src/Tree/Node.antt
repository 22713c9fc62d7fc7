-- ===== src/Tree/Node.antt =====
-- tree.go: the node of the tree and its list of children, `incrementChildPrio`, `childMaxParams`.
use gofi.Prelude.{
  ℕ, zero, suc, ◌+◌, ◌-◌, ◌%◌, ◌^◌, Bool, true, false, Option, none, some, [], ◌++◌, ◌==◌, ltb,
  if◌then◌else◌, Bytes, take, drop,
}

-- `panic` with its message, a runtime panic of an index out of range, and the end of the fuel,
-- which belongs to the model.
pub data Panic : Type 0 where
  duplicate_route : Bytes → Bytes → Panic
  wildcard_conflict : Bytes → Bytes → Bytes → Panic
  catch_all_conflict : Bytes → Panic
  invalid_wildcard : Bytes → Panic
  unnamed_wildcard : Bytes → Panic
  catch_all_not_last : Bytes → Panic
  catch_all_at_root : Bytes → Panic
  no_slash_before_catch_all : Bytes → Panic
  invalid_node_type : Panic
  index_out_of_range : Panic
  out_of_fuel : Panic

pub data Result {ℓ} (A : Type ℓ) : Type ℓ where
  ok : A → Result A
  panic : Panic → Result A

infixl 5 ◌>>=◌
abbrev pub ◌>>=◌ {ℓ κ} : {A : Type ℓ} {B : Type κ} → Result A → (A → Result B) → Result B
ok a >>= f = f a
panic e >>= f = panic e

pub data NodeType : Type 0 where
  static root param catch_all : NodeType

abbrev pub is_root : NodeType → Bool
is_root root = true
is_root _ = false

abbrev pub is_param : NodeType → Bool
is_param param = true
is_param _ = false

abbrev pub is_catch_all : NodeType → Bool
is_catch_all catch_all = true
is_catch_all _ = false

-- `payload` stands for the handlers, the rules and the meta value, which the tree never reads.
pub record RouteData (A : Type 0) : Type 0 where
  pub pattern : Bytes
  pub payload : A

-- The fields of `node` but for the two that hold nodes.
pub record Fields (A : Type 0) : Type 0 where
  pub path : Bytes
  pub indices : Bytes
  pub n_type : NodeType
  pub priority : ℕ
  pub route : Option (RouteData A)
  pub max_params : ℕ

mutual
  pub data Node (A : Type 0) : Type 0 where
    node : Fields A → Nodes A → Wild A → Node A

  -- `children`
  pub data Nodes (A : Type 0) : Type 0 where
    nil : Nodes A
    cons : Node A → Nodes A → Nodes A

  -- `wildChild`, which may be nil
  pub data Wild (A : Type 0) : Type 0 where
    no_wild : Wild A
    wild : Node A → Wild A

-- The rebuilt index text.
abbrev pub move_index : Bytes → ℕ → ℕ → Bytes
move_index s to from =
    take to s ++ (take 1 (drop from s) ++ (take (from - to) (drop to s) ++ drop (from + 1) s))

abbrev pub max_of : ℕ → ℕ → ℕ
max_of m k = if ltb m k then k else m

module _ {A : Type 0} where
  abbrev pub fields : Node A → Fields A
  fields (node i cs w) = i

  abbrev pub children : Node A → Nodes A
  children (node i cs w) = cs

  abbrev pub wild_child : Node A → Wild A
  wild_child (node i cs w) = w

  abbrev pub count : Nodes A → ℕ
  count nil = 0
  count (cons n cs) = suc (count cs)

  abbrev pub child_at : Nodes A → ℕ → Option (Node A)
  child_at nil i = none
  child_at (cons n cs) zero = some n
  child_at (cons n cs) (suc i) = child_at cs i

  abbrev pub set_child : Nodes A → ℕ → Node A → Nodes A
  set_child nil i m = nil
  set_child (cons n cs) zero m = cons m cs
  set_child (cons n cs) (suc i) m = cons n (set_child cs i m)

  abbrev pub push_child : Nodes A → Node A → Nodes A
  push_child nil m = cons m nil
  push_child (cons n cs) m = cons n (push_child cs m)

  -- cs[i], cs[i+1] = cs[i+1], cs[i]
  abbrev pub swap_children : Nodes A → ℕ → Nodes A
  swap_children nil i = nil
  swap_children (cons n nil) i = cons n nil
  swap_children (cons n (cons m cs)) zero = cons m (cons n cs)
  swap_children (cons n (cons m cs)) (suc i) = cons n (swap_children (cons m cs) i)

  -- uint32
  abbrev pub bump : Node A → Node A
  bump (node i cs w) = node (record i { priority = (i.priority + 1) % 2 ^ 32 }) cs w

  abbrev pub bump_at : Nodes A → ℕ → Nodes A
  bump_at nil i = nil
  bump_at (cons n cs) zero = cons (bump n) cs
  bump_at (cons n cs) (suc i) = cons n (bump_at cs i)

  abbrev pub priority_at : Nodes A → ℕ → ℕ
  priority_at nil i = 0
  priority_at (cons n cs) zero = (fields n).priority
  priority_at (cons n cs) (suc i) = priority_at cs i

  -- Moves the child at a position to the front past the children of lower priority.
  unfoldable pub move_front : ℕ → ℕ → Nodes A → Nodes A × ℕ
  move_front zero prio cs = (cs, 0)
  move_front (suc p) prio cs =
      let moved = move_front p prio (swap_children cs p) in
      if ltb (priority_at cs p) prio then moved else (cs, suc p)

  unfoldable pub increment_child_prio : Node A → ℕ → Node A × ℕ
  unfolding move_front
  increment_child_prio (node i cs w) pos =
      let bumped = bump_at cs pos in
      let (cs', to) = move_front pos (priority_at bumped pos) bumped in
      (node (if to == pos then i else record i { indices = move_index i.indices to pos }) cs' w, to)

  unfoldable pub max_params_of : Nodes A → ℕ
  max_params_of nil = 0
  max_params_of (cons n cs) = max_of (max_params_of cs) (fields n).max_params

  unfoldable pub child_max_params : Nodes A → Wild A → ℕ
  unfolding max_params_of
  child_max_params cs no_wild = max_params_of cs
  child_max_params cs (wild n) = max_of (max_params_of cs) (fields n).max_params

  -- `new(node)`
  abbrev pub new_fields : Fields A
  new_fields = record {
    path = [];
    indices = [];
    n_type = static;
    priority = 0;
    route = none;
    max_params = 0;
  }

  abbrev pub new_node : Node A
  new_node = node new_fields nil no_wild
