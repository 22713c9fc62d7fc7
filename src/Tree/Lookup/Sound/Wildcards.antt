-- ===== src/Tree/Lookup/Sound/Wildcards.antt =====
-- tree.go, `getValue`: the answers of a wildcard child.
use gofi.Prelude.{
  ℕ, ◌≡◌, refl, sym, ap, ◌≢◌, ◌∙◌, inl, inr, subst, Option, none, some, [], ◌∷◌, ◌++◌, ltb, Bytes,
  Option-cases, Bool-cases, drop, append_assoc, append-nil, length,
}
use gofi.Tree.Node.{
  Result, ok, panic, param, catch_all, RouteData, Fields, Node, node, Nodes, nil, cons, Wild,
  no_wild, wild, fields, wild_child,
}
use gofi.Tree.Lookup.{
  Params, Found, capture, split_segment, Search, param_end, enter_param, take_all, by_type,
  try_wild,
}
use gofi.Tree.Pattern.{IsName, NoSlash, AtBoundary}
use gofi.Tree.Lookup.Sound.Reach
use gofi.Tree.Lookup.Sound.Reach.{Reaches, done, byte, segment, Reaches-append, Reaches-Serves}
use gofi.Tree.Shape.{Opens, IsCatch, RouteAt, IsVariable, IsNode, IsWild, IsParamTail}
use gofi.Tree.Lookup.Sound.Answers.{
  split_segment_lem, extend-capture, extend-nil, cons-ne-nil, Answer, IsSound, Misses,
  Misses-IsSound, RouteAt-pattern,
}

pub param-catch_all : param ≢ catch_all
param-catch_all e = cc

module _ {A : Type 0} where
  -- A parameter, with what follows it.
  pub Answer-param :
      (L : Type 0) (pre : Bytes) (ps out : Option Params) (d : RouteData A) (name v r : Bytes)
      → IsName name
      → NoSlash v
      → AtBoundary r
      → v ++ r ≢ []
      → L
      → Answer L (pre ++ b':' ∷ name) r (capture ps name v) d out
      → Answer ⊥ pre (v ++ r) ps d out
  Answer-param L pre ps out d name v r named plain edge some_bytes slash (q, caps, e, m, o, t) = (
    b':' ∷ (name ++ q),
    record { key = name; value = v } ∷ caps,
    e ∙ append_assoc pre (b':' ∷ name) q,
    segment name v named plain (t slash) edge some_bytes refl refl m,
    o ∙ extend-capture ps name v caps,
    λ b. absurd b,
  )

  -- What the next rounds of the loop give.
  abbrev pub Goes : Search A → Type 0
  Goes next =
      (pre : Bytes) (n : Node A) (path : Bytes) (ps : Option Params)
      → IsNode pre n
      → IsSound (Opens b'/' n) pre path ps (next n path ps)

  pub IsSound-param :
      (L : Type 0) (pre : Bytes) (ps : Option Params) (name v r : Bytes) (out : Result (Found A))
      → IsName name
      → NoSlash v
      → AtBoundary r
      → v ++ r ≢ []
      → L
      → IsSound L (pre ++ b':' ∷ name) r (capture ps name v) out
      → IsSound ⊥ pre (v ++ r) ps out
  IsSound-param L pre ps name v r (panic e) named plain edge some_bytes slash h = tt
  IsSound-param L pre ps name v r (ok out) named plain edge some_bytes slash h =
      λ d e. Answer-param L pre ps out.params d name v r named plain edge some_bytes slash (h d e)

  pub param_end-Misses :
      (i : Fields A) (cs : Nodes A) (w : Wild A) (ps : Option Params)
      → i.route ≡ none
      → Misses (param_end (node i cs w) ps)
  param_end-Misses i nil w ps h = rw (h, param_end) refl
  param_end-Misses i (cons m nil) w ps h = rw (h, param_end) refl
  param_end-Misses i (cons m (cons _ _)) w ps h = rw (h, param_end) refl

  -- A path that ends with the parameter's value.
  pub param_end-IsSound :
      (pre : Bytes) (ps : Option Params) (name v : Bytes) (i : Fields A) (cs : Nodes A) (w : Wild A)
      → IsName name
      → NoSlash v
      → v ++ [] ≢ []
      → RouteAt (pre ++ b':' ∷ name) i.route
      → IsSound ⊥ pre (v ++ []) ps (param_end (node i cs w) (capture ps name v))
  param_end-IsSound pre ps name v i cs w named plain some_bytes at = elim (Option-cases i.route) [
    | inl none_here ↦ Misses-IsSound ⊥ pre _ ps _ (param_end-Misses i cs w _ none_here)
    | inr (d, here) ↦
        rw (here, param_end)
          (λ d' e'. (
            b':' ∷ (name ++ []),
            record { key = name; value = v } ∷ [],
            RouteAt-pattern _ i.route d' at (here ∙ e')
                ∙ ap (λ x. pre ++ b':' ∷ x) (sym (append-nil name)),
            segment name v named plain tt tt some_bytes refl refl done,
            extend-nil (capture ps name v) ∙ extend-capture ps name v [],
            λ b. absurd b,
          ))
  ]

  pub enter_param-IsSound :
      (next : Search A) (pre : Bytes) (ps : Option Params) (name v r : Bytes) (i : Fields A)
      (cs : Nodes A) (w : Wild A)
      → Goes next
      → IsName name
      → NoSlash v
      → AtBoundary r
      → v ++ r ≢ []
      → i.path ≡ b':' ∷ name
      → RouteAt (pre ++ i.path) i.route
      → IsParamTail (pre ++ i.path) i.indices cs
      → IsSound ⊥ pre (v ++ r) ps (enter_param next (node i cs w) (v, r) ps)
  enter_param-IsSound next pre ps name v [] i cs w go named plain edge bytes e at tail =
      subst (λ x. IsSound ⊥ pre (v ++ []) ps (param_end (node i cs w) (capture ps (drop 1 x) v)))
        (sym e)
        (param_end-IsSound pre ps name v i cs w named plain bytes
          (subst (λ x. RouteAt (pre ++ x) i.route) e at))
  enter_param-IsSound next pre ps name v (c ∷ r) i nil w go named plain edge bytes e at tail =
      Misses-IsSound ⊥ pre (v ++ c ∷ r) ps (enter_param next (node i nil w) (v, c ∷ r) ps) refl
  enter_param-IsSound next pre ps name v (c ∷ r) i (cons m nil) w go named plain edge bytes e at
        tail =
      IsSound-param (Opens b'/' m) pre ps name v (c ∷ r) _ named plain edge bytes tail.0 (
        subst
          (λ x.
            IsSound (Opens b'/' m) (pre ++ x) (c ∷ r) (capture ps (drop 1 x) v)
              (next m (c ∷ r) (capture ps (drop 1 i.path) v)))
          e (go (pre ++ i.path) m (c ∷ r) (capture ps (drop 1 i.path) v) tail.1))
  enter_param-IsSound next pre ps name v (c ∷ r) i (cons m (cons _ _)) w go named plain edge bytes e
        at tail =
      absurd tail

  pub take_all-IsSound :
      (pre : Bytes) (c : ℕ) (s : Bytes) (ps : Option Params) (n : Node A)
      → IsVariable pre n
      → IsSound Unit pre (c ∷ s) ps (take_all (fields n) (c ∷ s) ps)
  take_all-IsSound pre c s none (node i cs w) (name, is_path, named, at) = λ d e. (
    i.path,
    record { key = name; value = s } ∷ [],
    RouteAt-pattern _ i.route d at e,
    Reach.rest name c s named is_path,
    refl,
    λ b. rw is_path refl,
  )
  take_all-IsSound pre c s (some ps) (node i cs w) (name, is_path, named, at) =
      elim (Bool-cases (ltb (length i.path) 2)) [
        | inl short ↦ rw short tt
        | inr long ↦ rw long (λ d e. (
          i.path,
          record { key = name; value = s } ∷ [],
          RouteAt-pattern _ i.route d at e,
          Reach.rest name c s named is_path,
          rw is_path,
          λ b. rw is_path refl,
        ))
      ]

  weaken :
      {L M : Type 0} (f : M → L) (pre path : Bytes) (ps : Option Params) (r : Result (Found A))
      → IsSound L pre path ps r
      → IsSound M pre path ps r
  weaken f pre path ps (panic e) h = tt
  weaken f pre path ps (ok r) h = λ d e.
      let (q, caps, is_pattern, m, out, edge) = h d e in
      (q, caps, is_pattern, m, out, λ b. edge (f b))

  pub try_wild-IsSound :
      (next : Search A) (pre : Bytes) (n : Node A) (c : ℕ) (s : Bytes) (ps : Option Params)
      → Goes next
      → IsWild pre (wild_child n)
      → IsSound (IsCatch (wild_child n)) pre (c ∷ s) ps (try_wild next n (c ∷ s) ps)
  try_wild-IsSound next pre (node i cs no_wild) c s ps go h =
      Misses-IsSound ⊥ pre _ ps (try_wild next (node i cs no_wild) (c ∷ s) ps) refl
  try_wild-IsSound next pre (node i cs (wild (node j ms u))) c s ps go (inl h) =
      let (is_param, (name, is_path, named), at, tail, _) = h in
      let (whole, plain, edge) = split_segment_lem (c ∷ s) in
      subst
        (λ t.
          IsSound (j.n_type ≡ catch_all) pre (c ∷ s) ps (by_type t next (node j ms u) (c ∷ s) ps))
        (sym is_param)
        (subst
          (λ x.
            IsSound (j.n_type ≡ catch_all) pre x ps
              (enter_param next (node j ms u) (split_segment (c ∷ s)) ps))
          whole
          (weaken (λ e. param-catch_all (sym is_param ∙ e)) pre _ ps _
            (enter_param-IsSound next pre ps name (split_segment (c ∷ s)).0
              (split_segment (c ∷ s)).1 j ms u go named plain edge
              (subst (λ x. x ≢ []) (sym whole) (cons-ne-nil c s)) is_path at tail)))
  try_wild-IsSound next pre (node i cs (wild (node j nil u))) c s ps go (inr h) = absurd h.2
  try_wild-IsSound next pre (node i cs (wild (node j (cons m nil) u))) c s ps go (inr h) =
      subst
        (λ t.
          IsSound (j.n_type ≡ catch_all) pre (c ∷ s) ps
            (by_type t next (node j (cons m nil) u) (c ∷ s) ps))
        (sym h.0) (weaken (λ e. tt) pre _ ps _ (take_all-IsSound pre c s ps m h.2))
  try_wild-IsSound next pre (node i cs (wild (node j (cons m (cons _ _)) u))) c s ps go (inr h) =
      absurd h.2
