-- ===== src/Tree/Insert/Place.antt =====
-- tree.go, `addRoute`: "Make new node a child of this node", for a node that a static path leads to.
use gofi.Prelude.{
  ℕ, ◌≤◌, ◌≡◌, refl, sym, subst, ◌≢◌, ◌⊎◌, inl, inr, false, none, some, [], ◌∷◌, ◌++◌, arith, Bytes,
  length, get_elem?, Option-cases,
}
use gofi.Tree.Scan.{is_wild}
use gofi.Tree.Node.{
  catch_all, is_param, is_catch_all, RouteData, NodeType, Fields, Node, node, Nodes, nil, cons,
  Wild, no_wild, wild, new_fields, fields, child_at, set_child, push_child, increment_child_prio,
}
use gofi.Tree.Insert.{
  index_of, insert_child, blocks_static, walk_child, enter_static, add_static, place_static,
  store_route, Walk,
}
use gofi.Tree.Pattern.{AtBoundary}
use gofi.Tree.Shape.{StartsWith, Opens, IsBare, IsNode, IsParam}
use gofi.Tree.Insert.Built.{Stops, Stops-bind, Stops-if, Stops-map, Fits, some-HasPath}
use gofi.Tree.Insert.Fresh.{insert_child-Fits}
use gofi.Tree.Insert.Children.{
  get_elem?-index_of, get_elem?-last, child_at-given, set_child-AreChildren, push_child-AreChildren,
  increment_child_prio-Reordered,
}

module _ {A : Type 0} where
  -- What takes the place of a node: well-formed, and entered by every byte that entered the node.
  abbrev pub Keeps : Bytes → Node A → Node A → Type 0
  Keeps pre n m = IsNode pre m × ((c : ℕ) → Opens c n → Opens c m)

  -- What the next rounds do, for texts up to a length.
  abbrev pub Enters : ℕ → RouteData A → Walk A → Type 0
  Enters f d next =
      (pre : Bytes) (n : Node A) (path : Bytes) (num c : ℕ)
      → IsNode pre n
      → Opens c n
      → StartsWith c path
      → d.pattern ≡ pre ++ path
      → length path ≤ f
      → Stops (λ m. IsNode pre m × Opens c m) (next n path num)

  abbrev pub EntersParam : ℕ → RouteData A → Walk A → Type 0
  EntersParam f d next =
      (pre : Bytes) (n : Node A) (path r : Bytes) (num : ℕ)
      → IsParam pre n
      → path ≡ (fields n).path ++ r
      → AtBoundary r
      → d.pattern ≡ pre ++ path
      → length path ≤ f
      → Stops (IsParam pre) (next n path num)

  pub store_route-Stops :
      (pre : Bytes) (n : Node A) (full : Bytes) (d : RouteData A)
      → IsNode pre n
      → (fields n).path ≢ []
      → d.pattern ≡ pre ++ (fields n).path
      → Stops (Keeps pre n) (store_route n full d)
  store_route-Stops pre (node n cs w) full d h given whole = elim (Option-cases n.route) [
    | inl e ↦
        rw (e, store_route)
          ((h.0, h.1, whole, h.3, h.4, h.5, some-HasPath n.path d given), λ c o. stored c n cs w o)
    | inr (old, e) ↦ rw (e, store_route) (λ x. cc)
  ]
    where
      stored :
          (c : ℕ) (i : Fields A) (ns : Nodes A) (v : Wild A)
          → Opens c (node i ns v)
          → Opens c (node (record i { route = some d }) ns v)
      stored c i nil v o = o
      stored c i (cons _ _) v o = o

  -- The child at an index byte is entered, and takes its place again.
  walk_child-Stops :
      (next : Walk A) (pre : Bytes) (n : Fields A) (cs : Nodes A) (w : Wild A) (c to : ℕ)
      (s : Bytes) (num f : ℕ) (d : RouteData A)
      → Enters f d next
      → IsNode pre (node n cs w)
      → get_elem? n.indices to ≡ some c
      → d.pattern ≡ pre ++ n.path ++ c ∷ s
      → length (c ∷ s) ≤ f
      → Stops (Keeps pre (node n cs w)) (walk_child next (node n cs w) to (c ∷ s) num)
  walk_child-Stops next pre n cs w c to s num f d go h here whole lt =
      let (m, there, opens, is) = child_at-given (pre ++ n.path) n.indices cs c to h.3 here in
      rw (there, walk_child)
        (Stops-bind (λ k. IsNode (pre ++ n.path) k × Opens c k) (Keeps pre (node n cs w)) _ _
          (go (pre ++ n.path) m (c ∷ s) num c is opens refl whole lt)
          (λ k kept. (
            (
              h.0,
              h.1,
              h.2,
              set_child-AreChildren (pre ++ n.path) n.indices cs c to k h.3 here kept.1 kept.0,
              h.4,
              h.5,
              h.6,
            ),
            entered cs m k there,
          )))
    where
      entered :
          (ns : Nodes A) (m k : Node A)
          → child_at ns to ≡ some m
          → (b : ℕ) → Opens b (node n ns w)
          → Opens b (node n (set_child ns to k) w)
      entered nil m k there b (inl o) = inl o
      entered nil m k there b (inr o) = cc
      entered (cons x xs) m k there b (inl o) = inl o
      entered (cons x xs) m k there b (inr o) = absurd o.1

  place_static-some :
      (next : Walk A) (n : Fields A) (cs : Nodes A) (w : Wild A) (c i : ℕ) (path full : Bytes)
      (num : ℕ) (d : RouteData A)
      → is_param n.n_type ≡ false
      → index_of n.indices c ≡ some i
      → place_static next (node n cs w) c path full num d
        ≡ enter_static next (increment_child_prio (node n cs w) i) path num
  unfolding place_static increment_child_prio
  place_static-some next n cs w c i path full num d h e = rw (h, e, place_static) refl

  place_static-none :
      (next : Walk A) (n : Fields A) (cs : Nodes A) (w : Wild A) (c : ℕ) (path full : Bytes)
      (num : ℕ) (d : RouteData A)
      → is_param n.n_type ≡ false
      → index_of n.indices c ≡ none
      → place_static next (node n cs w) c path full num d
        ≡ add_static (node n cs w) c path full num d
  unfolding place_static insert_child
  place_static-none next n cs w c path full num d h e = rw (h, e, place_static) refl

  reopened :
      (n : Fields A) (x : Bytes) (ms ns : Nodes A) (w : Wild A) (b : ℕ)
      → (IsBare (node n ns w) → ⊥)
      → Opens b (node n ns w)
      → Opens b (node (record n { indices = x }) ms w)
  reopened n x ms ns w b bare (inl o) = inl o
  reopened n x ms ns w b bare (inr o) = absurd (bare o.1)

  -- The child found by its index byte, after its priority is raised.
  enter_static-Stops :
      (next : Walk A) (pre : Bytes) (n : Fields A) (cs : Nodes A) (w : Wild A) (c i : ℕ) (s : Bytes)
      (num f : ℕ) (d : RouteData A)
      → Enters f d next
      → IsNode pre (node n cs w)
      → get_elem? n.indices i ≡ some c
      → d.pattern ≡ pre ++ n.path ++ c ∷ s
      → length (c ∷ s) ≤ f
      → Stops
          (Keeps pre (node n cs w))
          (enter_static next (increment_child_prio (node n cs w) i) (c ∷ s) num)
  enter_static-Stops next pre n cs w c i s num f d go h here whole lt =
      let r = increment_child_prio (node n cs w) i in
      let old = child_at-given (pre ++ n.path) n.indices cs c i h.3 here in
      let (x, ms, is, are, there) =
        increment_child_prio-Reordered (pre ++ n.path) n cs w i c h.3 here in
      let is_node : IsNode pre (node (record n { indices = x }) ms w) =
        (h.0, h.1, h.2, are, h.4, h.5, h.6) in
      subst (λ m. Stops (Keeps pre (node n cs w)) (walk_child next m r.1 (c ∷ s) num)) (sym is)
        (Stops-map (Keeps pre (node (record n { indices = x }) ms w)) (Keeps pre (node n cs w)) _
          (λ m kept. (kept.0, λ b o. kept.1 b (reopened n x ms cs w b (not_bare cs old.0 old.1) o)))
          (walk_child-Stops next pre (record n { indices = x }) ms w c r.1 s num f d go is_node
            there whole lt))
    where
      not_bare : (ns : Nodes A) (m : Node A) → child_at ns i ≡ some m → IsBare (node n ns w) → ⊥
      not_bare nil m e bare = cc
      not_bare (cons _ _) m e bare = bare

  add_static-Stops :
      (pre : Bytes) (n : Fields A) (cs : Nodes A) (w : Wild A) (c : ℕ) (s full : Bytes) (num : ℕ)
      (d : RouteData A)
      → IsNode pre (node n cs w)
      → is_wild c ≡ false
      → d.pattern ≡ pre ++ n.path ++ c ∷ s
      → Stops (Keeps pre (node n cs w)) (add_static (node n cs w) c (c ∷ s) full num d)
  add_static-Stops pre n cs w c s full num d h plain whole =
      Stops-if (Keeps pre (node n cs w)) (blocks_static w) _ _ (λ e. λ x. cc)
        (λ free.
          Stops-bind (Fits (pre ++ n.path) (c ∷ s)) (Keeps pre (node n cs w)) _ _
            (insert_child-Fits _ (record new_fields { max_params = num }) (pre ++ n.path) (c ∷ s)
              full d (refl, refl, refl, refl, refl) (λ e. cc) (omega arith) whole)
            (λ child fits. grown child fits free))
    where
      not_bare : (ns : Nodes A) (u : Wild A) → blocks_static u ≡ false → IsBare (node n ns u) → ⊥
      not_bare nil no_wild e bare = bare.1
      not_bare nil (wild (node j ks v)) e bare = absurd (other j.n_type bare.1 e)
        where
          other : (t : NodeType) → t ≡ catch_all → is_catch_all t ≡ false → ⊥
          other t is no_catch = cc
      not_bare (cons _ _) u e bare = bare

      grown :
          (child : Node A)
          → Fits (pre ++ n.path) (c ∷ s) child
          → blocks_static w ≡ false
          → Keeps pre
              (node n cs w)
              (increment_child_prio
                (node (record n { indices = n.indices ++ c ∷ [] }) (push_child cs child) w)
                (length n.indices)).0
      grown child fits free =
          let (x, ms, is, are, there) =
            increment_child_prio-Reordered (pre ++ n.path)
              (record n { indices = n.indices ++ c ∷ [] }) (push_child cs child) w
              (length n.indices) c
              (push_child-AreChildren (pre ++ n.path) n.indices cs c child h.3 (fits.1 c refl plain)
                fits.0)
              (get_elem?-last n.indices c) in
          subst (Keeps pre (node n cs w)) (sym is) (
            (h.0, h.1, h.2, are, h.4, h.5, h.6),
            λ b o. reopened n x ms cs w b (not_bare cs w free) o,
          )

  -- "Check if a static child with the next path byte exists", at a node that may stay below if it
  -- is the end of a chain before a catch-all.
  pub place_static-Stops :
      (next : Walk A) (pre : Bytes) (n : Fields A) (cs : Nodes A) (w : Wild A) (c : ℕ)
      (s full : Bytes) (num f : ℕ) (d : RouteData A)
      → Enters f d next
      → IsNode pre (node n cs w)
      → is_wild c ≡ false
      → d.pattern ≡ pre ++ n.path ++ c ∷ s
      → (length (c ∷ s) ≤ f) ⊎ IsBare (node n cs w)
      → Stops (Keeps pre (node n cs w)) (place_static next (node n cs w) c (c ∷ s) full num d)
  place_static-Stops next pre n cs w c s full num f d go h plain whole room =
      elim (Option-cases (index_of n.indices c)) [
        | inl e ↦
            subst (Stops (Keeps pre (node n cs w)))
              (sym (place_static-none next n cs w c (c ∷ s) full num d h.1 e))
              (add_static-Stops pre n cs w c s full num d h plain whole)
        | inr (i, e) ↦
            let here = get_elem?-index_of n.indices c i e in
            subst (Stops (Keeps pre (node n cs w)))
              (sym (place_static-some next n cs w c i (c ∷ s) full num d h.1 e))
              (enter_static-Stops next pre n cs w c i s num f d go h here whole
                (fuelled cs i (child_at-given (pre ++ n.path) n.indices cs c i h.3 here) room))
      ]
    where
      fuelled :
          (ns : Nodes A) (i : ℕ)
          → (m : Node A) × (child_at ns i ≡ some m) × Opens c m × IsNode (pre ++ n.path) m
          → (length (c ∷ s) ≤ f) ⊎ IsBare (node n ns w)
          → length (c ∷ s) ≤ f
      fuelled ns i there (inl lt) = lt
      fuelled nil i there (inr bare) = absurd (none-some there.0 there.1)
        where
          none-some : (m : Node A) → none ≡ some m → ⊥
          none-some m e = cc
      fuelled (cons _ _) i there (inr bare) = absurd bare
