-- ===== src/Tree/Insert/PlaceParam.antt =====
-- tree.go, `addRoute`: "Make new node a child of this node", for a node below a ':'.
use gofi.Prelude.{
  ℕ, ◌≤◌, ◌≡◌, refl, sym, ap, subst, inl, inr, Bool, true, false, ◌&&◌, none, some, [], ◌∷◌, ◌++◌,
  arith, ◌==◌, if◌then◌else◌, Bytes, length, Option-cases,
}
use gofi.Tree.Node.{
  Result, param, is_param, RouteData, Fields, Node, node, Nodes, nil, cons, Wild, new_fields,
  fields, count, bump, bump_at, increment_child_prio,
}
use gofi.Tree.Insert.{
  index_of, blocks_static, walk_child, enter_static, add_static, place_static, store_route, Walk,
}
use gofi.Tree.Shape.{Opens, IsNode, IsParam}
use gofi.Tree.Insert.Built.{Stops, Stops-bind, Stops-if, Fits}
use gofi.Tree.Insert.Fresh.{insert_child-Fits}
use gofi.Tree.Insert.Children.{bump-IsNode, bump-Opens}
use gofi.Tree.Insert.Place.{Enters}

no_index : (s : Bytes) → s ≡ [] → index_of s b'/' ≡ none
unfolding index_of
no_index s e = rw e refl

module _ {A : Type 0} where
  pub store_route-IsParam :
      (pre : Bytes) (n : Node A) (full : Bytes) (d : RouteData A)
      → IsParam pre n
      → d.pattern ≡ pre ++ (fields n).path
      → Stops (IsParam pre) (store_route n full d)
  store_route-IsParam pre (node n cs w) full d h whole = elim (Option-cases n.route) [
    | inl e ↦ rw (e, store_route) (h.0, h.1, whole, h.3, h.4)
    | inr (old, e) ↦ rw (e, store_route) (λ x. cc)
  ]

  -- "slash after param"
  place_static-one :
      (next : Walk A) (n : Fields A) (m : Node A) (w : Wild A) (path full : Bytes) (num : ℕ)
      (d : RouteData A)
      → n.n_type ≡ param
      → place_static next (node n (cons m nil) w) b'/' path full num d
        ≡ walk_child next (node n (cons (bump m) nil) w) 0 path num
  unfolding place_static increment_child_prio
  place_static-one next n m w path full num d is = rw (is, place_static) refl

  childless :
      (a : Bool) (x y : Result (Node A))
      → (if a && b'/' == b'/' && count {A = A} nil == 1 then x else y) ≡ y
  childless true x y = refl
  childless false x y = refl

  place_static-first :
      (next : Walk A) (n : Fields A) (w : Wild A) (path full : Bytes) (num : ℕ) (d : RouteData A)
      → n.n_type ≡ param
      → index_of n.indices b'/' ≡ none
      → place_static next (node n nil w) b'/' path full num d
        ≡ add_static (node n nil w) b'/' path full num d
  unfolding place_static
  place_static-first next n w path full num d is e =
      subst
        (λ r.
          (if is_param n.n_type && b'/' == b'/' && count {A = A} nil == 1
            then walk_child next (node n (bump_at nil 0) w) 0 path num
            else elim r [
              | some i ↦ enter_static next (increment_child_prio (node n nil w) i) path num
              | none ↦ add_static (node n nil w) b'/' path full num d
            ])
          ≡ add_static (node n nil w) b'/' path full num d)
        (sym e) (childless (is_param n.n_type) _ _)

  first_child :
      (i : Fields A) (m : Node A) (w : Wild A)
      → (increment_child_prio (node i (cons m nil) w) 0).0 ≡ node i (cons (bump m) nil) w
  unfolding increment_child_prio
  first_child i m w = refl

  pub place_static-IsParam :
      (next : Walk A) (pre : Bytes) (n : Fields A) (cs : Nodes A) (w : Wild A) (s full : Bytes)
      (num f : ℕ) (d : RouteData A)
      → Enters f d next
      → IsParam pre (node n cs w)
      → d.pattern ≡ pre ++ n.path ++ b'/' ∷ s
      → length (b'/' ∷ s) ≤ f
      → Stops (IsParam pre) (place_static next (node n cs w) b'/' (b'/' ∷ s) full num d)
  place_static-IsParam next pre n (cons m (cons _ _)) w s full num f d go h whole lt = absurd h.3
  place_static-IsParam next pre n (cons m nil) w s full num f d go h whole lt =
      subst (Stops (IsParam pre)) (sym (place_static-one next n m w (b'/' ∷ s) full num d h.0)) (
        Stops-bind (λ k. IsNode (pre ++ n.path) k × Opens b'/' k) (IsParam pre) _ _
          (go (pre ++ n.path) (bump m) (b'/' ∷ s) num b'/' (bump-IsNode _ m h.3.1)
            (bump-Opens b'/' m h.3.0) refl whole lt)
          (λ k kept. (h.0, h.1, h.2, (kept.1, kept.0), h.4)))
  place_static-IsParam next pre n nil w s full num f d go h whole lt =
      subst (Stops (IsParam pre))
        (sym (place_static-first next n w (b'/' ∷ s) full num d h.0 (no_index n.indices h.3)))
        (Stops-if (IsParam pre) (blocks_static w) _ _ (λ e. λ x. cc)
          (λ _.
            Stops-bind (Fits (pre ++ n.path) (b'/' ∷ s)) (IsParam pre) _ _
              (insert_child-Fits _ (record new_fields { max_params = num }) (pre ++ n.path)
                (b'/' ∷ s) full d (refl, refl, refl, refl, refl) (λ e. cc) (omega arith) whole)
              (λ child fits.
                subst
                  (λ k.
                    IsParam pre
                      (increment_child_prio
                        (node (record n { indices = n.indices ++ b'/' ∷ [] }) (cons child nil) w)
                        k).0)
                  (sym (ap length h.3))
                  (subst (IsParam pre)
                    (sym (first_child (record n { indices = n.indices ++ b'/' ∷ [] }) child w))
                    (
                      h.0,
                      h.1,
                      h.2,
                      (bump-Opens b'/' child (fits.1 b'/' refl refl), bump-IsNode _ child fits.0),
                      h.4,
                    )))))
