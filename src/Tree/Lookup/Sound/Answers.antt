-- ===== src/Tree/Lookup/Sound/Answers.antt =====
-- tree.go, `getValue`: what a sound answer of the lookup is, for a node and what is in front of it.
use gofi.Prelude.{
  ℕ, zero, suc, ◌≡◌, refl, sym, ap, ◌≢◌, ◌∙◌, inl, inr, true, not, ◌&&◌, subst, Option, none, some,
  [], ◌∷◌, ◌++◌, arith, Bytes, Option-cases, some-injective, if_both, append_assoc, append-nil,
  bytes_eq,
}
use gofi.Tree.Node.{
  Result, ok, panic, RouteData, Fields, Node, node, Nodes, nil, cons, Wild, fields, children,
  child_at, is_root,
}
use gofi.Tree.Insert.{index_of}
use gofi.Tree.Lookup.{
  Params, Found, capture, split_segment, miss, slash_hint, slash_child, arrive, has_wild,
}
use gofi.Tree.Pattern.{Plain, NoSlash, AtBoundary}
use gofi.Tree.Lookup.Sound.Reach.{Reaches, done, Reaches-append}
use gofi.Tree.Shape.{StartsWith, RouteAt, IsNode, AreChildren, IsBare, Opens}

pub split_segment_lem :
    (s : Bytes)
    → ((split_segment s).0 ++ (split_segment s).1 ≡ s)
      × NoSlash (split_segment s).0
      × AtBoundary (split_segment s).1
unfolding split_segment
split_segment_lem [] = (refl, tt, tt)
split_segment_lem (c ∷ s) = ground (arith, split_segment_lem s)

-- The parameters with those of the rest of the path.
abbrev pub extend : Option Params → Params → Option Params
extend none caps = none
extend (some ps) caps = some (ps ++ caps)

pub extend-capture :
    (ps : Option Params) (k v : Bytes) (caps : Params)
    → extend (capture ps k v) caps ≡ extend ps (record { key = k; value = v } ∷ caps)
extend-capture none k v caps = refl
extend-capture (some ps) k v caps = ap some (append_assoc ps _ caps)

pub extend-nil : (ps : Option Params) → ps ≡ extend ps []
extend-nil none = refl
extend-nil (some ps) = ap some (sym (append-nil ps))

pub index_of-suc :
    (x : ℕ) (s : Bytes) (c i : ℕ) → index_of (x ∷ s) c ≡ some (suc i) → index_of s c ≡ some i
unfolding index_of
index_of-suc x s c i e = ground arith

pub AtBoundary-append : (l t : Bytes) → StartsWith b'/' l → AtBoundary (l ++ t)
AtBoundary-append [] t h = absurd h
AtBoundary-append (c ∷ l) t h = h

pub cons-ne-nil : (c : ℕ) (s : Bytes) → c ∷ s ≢ []
cons-ne-nil c s e = cc

module _ {A : Type 0} where
  -- The rest of the pattern of `d` matches the rest of the path. It is at a boundary where `L` is
  -- given, which says that a slash leads here.
  abbrev pub Answer : Type 0 → Bytes → Bytes → Option Params → RouteData A → Option Params → Type 0
  Answer L pre path ps d out =
      (q : Bytes) × (caps : Params) × (d.pattern ≡ pre ++ q)
      × Reaches q path caps
      × (out ≡ extend ps caps)
      × (L → AtBoundary q)

  abbrev pub IsSound : Type 0 → Bytes → Bytes → Option Params → Result (Found A) → Type 0
  IsSound L pre path ps (panic e) = Unit
  IsSound L pre path ps (ok r) =
      (d : RouteData A) → r.route ≡ some d → Answer L pre path ps d r.params

  -- No route is found.
  abbrev pub Misses : Result (Found A) → Type 0
  Misses (panic e) = Unit
  Misses (ok r) = r.route ≡ none

  pub Misses-IsSound :
      (L : Type 0) (pre path : Bytes) (ps : Option Params) (r : Result (Found A))
      → Misses r
      → IsSound L pre path ps r
  Misses-IsSound L pre path ps (panic e) h = tt
  Misses-IsSound L pre path ps (ok r) h = λ d e. cc

  pub slash_hint-Misses : (m : Node A) (ps : Option Params) → Misses (slash_hint m ps)
  slash_hint-Misses (node m nil w) ps = ground arith
  slash_hint-Misses (node m (cons k _) w) ps = ground arith

  pub slash_child-Misses : (n : Node A) (ps : Option Params) → Misses (slash_child n ps)
  slash_child-Misses n ps = elim (Option-cases (index_of (fields n).indices b'/')) [
    | inl e ↦ rw (e, slash_child) refl
    | inr (i, e) ↦ elim (Option-cases (child_at (children n) i)) [
      | inl e' ↦ rw (e, slash_child) (rw (e') tt)
      | inr (m, e') ↦ rw (e, slash_child) (rw (e') (slash_hint-Misses m ps))
    ]
  ]

  -- The path ends with the node's own: the pattern does too.
  pub Plain-Answer :
      (L : Type 0) (pre l : Bytes) (ps : Option Params) (d : RouteData A)
      → (L → AtBoundary l)
      → Plain l
      → d.pattern ≡ pre ++ l
      → Answer L pre l ps d ps
  Plain-Answer L pre l ps d edge plain e = (
    l,
    [],
    e,
    subst (λ x. Reaches x x []) (append-nil l) (Reaches-append l plain done),
    extend-nil ps,
    edge,
  )

  -- The path of a node that a slash enters, in front of a rest, which is at a boundary if a
  -- catch-all makes it.
  pub Opens-AtBoundary :
      (i : Fields A) (cs : Nodes A) (w : Wild A) (q : Bytes)
      → (IsBare (node i cs w) → AtBoundary q)
      → Opens b'/' (node i cs w)
      → AtBoundary (i.path ++ q)
  Opens-AtBoundary i cs w q edge (inl h) = AtBoundary-append i.path q h
  Opens-AtBoundary i nil w q edge (inr (_, (none_own, h))) =
      subst (λ x. AtBoundary (x ++ q)) (sym none_own) (edge (none_own, h))
  Opens-AtBoundary i (cons m ms) w q edge (inr (_, h)) = absurd h

  Opens-own :
      (i : Fields A) (cs : Nodes A) (w : Wild A) → Opens b'/' (node i cs w) → AtBoundary i.path
  Opens-own i cs w h = subst AtBoundary (append-nil i.path) (Opens-AtBoundary i cs w [] (λ b. tt) h)

  pub RouteAt-pattern :
      (pre : Bytes) (o : Option (RouteData A)) (d : RouteData A)
      → RouteAt pre o
      → o ≡ some d
      → d.pattern ≡ pre
  RouteAt-pattern pre none d h e = cc
  RouteAt-pattern pre (some d') d h e = cc

  pub arrive-IsSound :
      (pre : Bytes) (n : Node A) (path : Bytes) (ps : Option Params)
      → (fields n).path ≡ path
      → IsNode pre n
      → IsSound (Opens b'/' n) pre path ps (arrive n path ps)
  unfolding arrive
  arrive-IsSound pre (node i cs w) path ps e h = elim (Option-cases i.route) [
    | inl none_here ↦
        rw (none_here, arrive)
          (Misses-IsSound _ pre path ps _ (
            if_both Misses (bytes_eq path (b'/' ∷ []) && has_wild w && not (is_root i.n_type))
              (miss true ps) (slash_child (node i cs w) ps) refl
              (slash_child-Misses (node i cs w) ps)))
    | inr (d, here) ↦
        rw (here, arrive)
          (λ d' e'. rw (← e) (
            Plain-Answer _ pre i.path ps d' (Opens-own i cs w) h.0
              (RouteAt-pattern _ i.route d' h.2 (here ∙ e'))))
  ]

  -- Below a node: its own path comes first.
  pub Answer-below :
      (L : Type 0) (i : Fields A) (cs : Nodes A) (w : Wild A) (pre rest : Bytes)
      (ps out : Option Params) (d : RouteData A)
      → Plain i.path
      → (IsBare (node i cs w) → L)
      → Answer L (pre ++ i.path) rest ps d out
      → Answer (Opens b'/' (node i cs w)) pre (i.path ++ rest) ps d out
  Answer-below L i cs w pre rest ps out d plain bare (q, caps, e, m, o, edge) = (
    i.path ++ q,
    caps,
    e ∙ append_assoc pre i.path q,
    Reaches-append i.path plain m,
    o,
    Opens-AtBoundary i cs w q (λ b. edge (bare b)),
  )

  pub IsSound-below :
      (L : Type 0) (i : Fields A) (cs : Nodes A) (w : Wild A) (pre rest : Bytes)
      (ps : Option Params) (r : Result (Found A))
      → Plain i.path
      → (IsBare (node i cs w) → L)
      → IsSound L (pre ++ i.path) rest ps r
      → IsSound (Opens b'/' (node i cs w)) pre (i.path ++ rest) ps r
  IsSound-below L i cs w pre rest ps (panic e) plain bare h = tt
  IsSound-below L i cs w pre rest ps (ok r) plain bare h =
      λ d e. Answer-below L i cs w pre rest ps r.params d plain bare (h d e)

  pub child-IsNode :
      (pre s : Bytes) (cs : Nodes A) (c i : ℕ) (m : Node A)
      → AreChildren pre s cs
      → index_of s c ≡ some i
      → child_at cs i ≡ some m
      → IsNode pre m
  unfolding index_of
  child-IsNode pre [] nil c i m h e e' = cc
  child-IsNode pre [] (cons n cs) c i m h e e' = absurd h
  child-IsNode pre (x ∷ s) nil c i m h e e' = absurd h
  child-IsNode pre (x ∷ s) (cons n cs) c zero m h e e' =
      subst (IsNode pre) (some-injective _ _ e') h.1
  child-IsNode pre (x ∷ s) (cons n cs) c (suc i) m h e e' =
      child-IsNode pre s cs c i m h.2 (index_of-suc x s c i e) e'
