-- ===== src/Tree/Insert/Split.antt =====
-- tree.go, `addRoute`: "Split edge", where a path leaves that of a node.
use gofi.Prelude.{
  ℕ, ◌+◌, ◌<◌, ◌≡◌, refl, sym, ap, ◌∙◌, subst, inl, inr, true, false, Option, none, some, [], ◌∷◌,
  ◌++◌, append-nil, append_assoc, arith, ltb, Bytes, length, take, drop, length-append,
}
use gofi.Tree.Scan.Laws.{Diverge}
use gofi.Tree.Node.{RouteData, Fields, Node, node, Nodes, nil, cons, Wild, fields}
use gofi.Tree.Insert.{split_edge, split_if_short}
use gofi.Tree.Pattern.{Plain}
use gofi.Tree.Shape.{StartsWith, RouteAt, HasPath, Opens, IsNode, AreChildren, IsWild}
use gofi.Tree.Insert.Built.{none-HasPath}
use gofi.Tree.Insert.Chain.{take-found, drop-found}
use gofi.Tree.Insert.Fresh.{Plain-prefix}

diverge : (r s : Bytes) (c : ℕ) → Diverge r s → StartsWith c r → StartsWith c s → ⊥
diverge [] s c apart h g = h
diverge (x ∷ r) [] c apart h g = g
diverge (x ∷ r) (y ∷ s) c apart h g = apart (h ∙ sym g)

common-StartsWith :
    (p r s path own : Bytes) (c : ℕ)
    → path ≡ p ++ r
    → own ≡ p ++ s
    → Diverge r s
    → StartsWith c own
    → StartsWith c path
    → StartsWith c p
common-StartsWith [] r s path own c is is_own apart h g =
    absurd (diverge r s c apart (subst (StartsWith c) is g) (subst (StartsWith c) is_own h))
common-StartsWith (y ∷ p) r s path own c is is_own apart h g = subst (StartsWith c) is g

append-given : (q s : Bytes) (x : ℕ) → q ++ x ∷ s ≡ [] → ⊥
append-given [] s x e = cc
append-given (y ∷ q) s x e = cc

module _ {A : Type 0} where
  split_edge-IsNode :
      (pre a t : Bytes) (x i : ℕ) (n : Node A)
      → IsNode pre n
      → (fields n).path ≡ a ++ x ∷ t
      → i ≡ 0 + length a
      → IsNode pre (split_edge i n) × ((fields (split_edge i n)).path ≡ a)
  unfolding split_edge
  split_edge-IsNode pre a t x i (node n cs w) (plain, b, at, are, is, c, has) is_path len =
      let front : take i n.path ≡ a = take-found n.path a (x ∷ t) i is_path len in
      let behind : drop i n.path ≡ x ∷ t = drop-found n.path a (x ∷ t) i is_path len in
      let whole : pre ++ n.path ≡ pre ++ a ++ x ∷ t =
        ap (λ y. pre ++ y) is_path ∙ sym (append_assoc pre a (x ∷ t)) in
      let plain' = subst Plain is_path plain in
      rw (front, behind)
        (
          (
            Plain-prefix a (x ∷ t) plain',
            b,
            tt,
            (
              inl refl,
              (
                Plain-suffix a (x ∷ t) plain',
                refl,
                subst (λ y. RouteAt y n.route) whole at,
                subst (λ y. AreChildren y n.indices cs) whole are,
                subst (λ y. IsWild y w) whole is,
                refl,
                any-HasPath n.route,
              ),
              tt,
            ),
            tt,
            c,
            none-HasPath A a,
          ),
          refl,
        )
    where
      Plain-suffix : (p s : Bytes) → Plain (p ++ s) → Plain s
      Plain-suffix [] s h = h
      Plain-suffix (y ∷ p) s h = Plain-suffix p s h.1

      any-HasPath : (o : Option (RouteData A)) → HasPath (x ∷ t) o
      any-HasPath none = tt
      any-HasPath (some d) = tt

  -- A node whose path is the common prefix `p`, in the place of `n`.
  abbrev pub Ready : Bytes → Bytes → Bytes → Node A → Node A → Type 0
  Ready pre p path n m =
      IsNode pre m × ((fields m).path ≡ p) × ((c : ℕ) → Opens c n → StartsWith c path → Opens c m)

  pub split_if_short-Ready :
      (pre p r s path : Bytes) (i : ℕ) (n : Node A)
      → IsNode pre n
      → path ≡ p ++ r
      → (fields n).path ≡ p ++ s
      → length p ≡ i
      → Diverge r s
      → Ready pre p path n (split_if_short i n)
  split_if_short-Ready pre p r [] path i n h is is_own len apart =
      let same : (fields n).path ≡ p = is_own ∙ append-nil p in
      let stays : ltb i (length (fields n).path) ≡ false =
        not_below i _ (omega (arith, len, ap length same)) in
      rw stays (h, same, λ c opens starts. opens)
    where
      not_below : (j k : ℕ) → j ≡ k → ltb j k ≡ false
      not_below j k e = ground arith
  split_if_short-Ready pre p r (x ∷ t) path i (node n cs w) h is is_own len apart =
      let splits : ltb i (length n.path) ≡ true =
        below i _ (omega (arith, len, ap length is_own, length-append p (x ∷ t))) in
      let (is_node, own) =
        split_edge-IsNode pre p t x i (node n cs w) h is_own (omega (arith, len)) in
      rw splits (
        is_node,
        own,
        λ c opens starts. Opens-path c (split_edge i (node n cs w)) (
            subst (StartsWith c) (sym own) (
              common-StartsWith p r (x ∷ t) path n.path c is is_own apart
                (Opens-StartsWith c n cs w is_own opens) starts)),
      )
    where
      below : (j k : ℕ) → j < k → ltb j k ≡ true
      below j k e = ground arith

      Opens-path : (c : ℕ) (m : Node A) → StartsWith c (fields m).path → Opens c m
      Opens-path c (node j ms u) g = inl g

      Opens-StartsWith :
          (c : ℕ) (j : Fields A) (ms : Nodes A) (u : Wild A)
          → j.path ≡ p ++ x ∷ t
          → Opens c (node j ms u)
          → StartsWith c j.path
      Opens-StartsWith c j ms u e (inl g) = g
      Opens-StartsWith c j nil u e (inr g) = absurd (append-given p t x (sym e ∙ g.1.0))
      Opens-StartsWith c j (cons _ _) u e (inr g) = absurd g.1
