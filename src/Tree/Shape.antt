-- ===== src/Tree/Shape.antt =====
-- The well-formed trees. `pre` is the text of the pattern on the way from the root to a node.
use gofi.Prelude.{ℕ, ◌≡◌, ◌⊎◌, false, Option, none, some, [], ◌∷◌, ◌++◌, Bytes}
use gofi.Tree.Node.{
  param, catch_all, is_param, is_catch_all, RouteData, Node, node, Nodes, nil, cons, Wild, no_wild,
  wild,
}
use gofi.Tree.Pattern.{Plain, IsName}

abbrev pub StartsWith : ℕ → Bytes → Type 0
StartsWith c [] = ⊥
StartsWith c (x ∷ s) = x ≡ c

module _ {A : Type 0} where
  -- A route is stored where its pattern ends.
  abbrev pub RouteAt : Bytes → Option (RouteData A) → Type 0
  RouteAt pre none = Unit
  RouteAt pre (some d) = d.pattern ≡ pre

  abbrev pub NoWild : Wild A → Type 0
  NoWild no_wild = Unit
  NoWild (wild m) = ⊥

  -- The second node of a catch-all, which has the variable.
  abbrev pub IsVariable : Bytes → Node A → Type 0
  IsVariable pre (node i cs w) =
      (name : Bytes) × (i.path ≡ b'/' ∷ b'*' ∷ name) × IsName name × RouteAt (pre ++ i.path) i.route

  abbrev pub IsCatchAll : Bytes → Nodes A → Type 0
  IsCatchAll pre (cons m nil) = IsVariable pre m
  IsCatchAll pre _ = ⊥

  abbrev pub IsCatch : Wild A → Type 0
  IsCatch no_wild = ⊥
  IsCatch (wild (node j ms u)) = j.n_type ≡ catch_all

  -- A node with no path of its own, for a catch-all behind a '/' that another node ends before.
  abbrev pub IsBare : Node A → Type 0
  IsBare (node i nil w) = (i.path ≡ []) × IsCatch w
  IsBare (node i (cons _ _) w) = ⊥

  -- The byte by which a node is entered: the first of its path, or the '/' of a catch-all.
  abbrev pub Opens : ℕ → Node A → Type 0
  Opens c (node i cs w) = StartsWith c i.path ⊎ (c ≡ b'/') × IsBare (node i cs w)

  -- A route needs a path: the text in front of a node belongs to the node above.
  abbrev pub HasPath : Bytes → Option (RouteData A) → Type 0
  HasPath [] (some d) = ⊥
  HasPath _ _ = Unit

  -- `IsNode` is for a node that a static path leads to, and `IsParam` for one below a ':'.
  abbrev mutual
    pub IsNode : Bytes → Node A → Type 0
    IsNode pre (node i cs w) =
        Plain i.path
        × (is_param i.n_type ≡ false)
        × RouteAt (pre ++ i.path) i.route
        × AreChildren (pre ++ i.path) i.indices cs
        × IsWild (pre ++ i.path) w
        × (is_catch_all i.n_type ≡ false)
        × HasPath i.path i.route

    -- One index byte for each child, by which the child is entered.
    pub AreChildren : Bytes → Bytes → Nodes A → Type 0
    AreChildren pre [] nil = Unit
    AreChildren pre (c ∷ s) (cons m ms) = Opens c m × IsNode pre m × AreChildren pre s ms
    AreChildren pre _ _ = ⊥

    pub IsParam : Bytes → Node A → Type 0
    IsParam pre (node i cs w) =
        (i.n_type ≡ param)
        × ((name : Bytes) × (i.path ≡ b':' ∷ name) × IsName name)
        × RouteAt (pre ++ i.path) i.route
        × IsParamTail (pre ++ i.path) i.indices cs
        × NoWild w

    pub IsWild : Bytes → Wild A → Type 0
    IsWild pre no_wild = Unit
    IsWild pre (wild (node i cs w)) =
        IsParam pre (node i cs w) ⊎ (i.n_type ≡ catch_all) × (i.path ≡ []) × IsCatchAll pre cs

    -- Behind a parameter: nothing, or one child, which is entered by a slash.
    pub IsParamTail : Bytes → Bytes → Nodes A → Type 0
    IsParamTail pre s nil = s ≡ []
    IsParamTail pre s (cons m nil) = Opens b'/' m × IsNode pre m
    IsParamTail pre s (cons _ (cons _ _)) = ⊥
