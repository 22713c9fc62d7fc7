-- ===== src/Tree/Lookup/Total.antt =====
-- tree.go, `getValue`: whether the lookup returns.
use gofi.Prelude.{
  ◌⊎◌, ◌∙◌, ℕ, zero, suc, ◌+◌, ◌<◌, ◌≡◌, ◌≢◌, refl, sym, ap, inl, inr, true, false, not, ◌&&◌,
  subst, Option, none, some, [], ◌∷◌, ◌++◌, arith, Bytes, Option-cases, if_both, bytes_eq, length,
  length-append, ltb, cut_prefix, cut_prefix→append,
}
use gofi.Tree.Lookup.Sound.Wildcards.{param-catch_all}
use gofi.Tree.Node.{
  catch_all, is_catch_all, Result, ok, panic, Fields, Node, node, Nodes, nil, cons, Wild, no_wild,
  wild, wild_child, fields, child_at, is_root,
}
use gofi.Tree.Insert.{index_of}
use gofi.Tree.Lookup.{
  Params, Found, split_segment, Search, miss, param_end, enter_param, take_all, by_type, try_wild,
  descend, slash_hint, slash_child, arrive, has_wild, compare_prefix, search_from, get_value,
}
use gofi.Tree.Shape.{
  StartsWith, Opens, IsBare, IsVariable, IsNode, AreChildren, IsWild, IsParamTail,
}
use gofi.Tree.Lookup.Sound.Answers.{split_segment_lem, index_of-suc, child-IsNode}

StartsWith-given : (c : ℕ) (l : Bytes) → StartsWith c l → l ≢ []
StartsWith-given c [] h e = h
StartsWith-given c (x ∷ l) h e = cc

length-given : (l : Bytes) → l ≢ [] → 0 < length l
length-given [] h = absurd (h refl)
length-given (x ∷ l) h = omega arith

module _ {A : Type 0} where
  abbrev pub IsOk : Result (Found A) → Type 0
  IsOk (ok r) = Unit
  IsOk (panic e) = ⊥

  -- A node with a path, or one that a catch-all alone is behind.
  abbrev Enters : Node A → Type 0
  Enters m = ((fields m).path ≢ []) ⊎ IsBare m

  Opens-Enters : (c : ℕ) (m : Node A) → Opens c m → Enters m
  Opens-Enters c (node i cs w) (inl h) = inl (StartsWith-given c i.path h)
  Opens-Enters c (node i cs w) (inr h) = inr h.1

  -- A search answers at such nodes, for texts that are shorter than a bound.
  abbrev Reaches : ℕ → Search A → Type 0
  Reaches b next =
      (pre : Bytes) (m : Node A) (path : Bytes) (ps : Option Params)
      → IsNode pre m
      → Enters m
      → length path < b
      → IsOk (next m path ps)

  -- Each index byte has its child, whose path is not empty.
  child-given :
      (pre s : Bytes) (cs : Nodes A) (c i : ℕ)
      → AreChildren pre s cs
      → index_of s c ≡ some i
      → (m : Node A) × (child_at cs i ≡ some m) × Enters m
  unfolding index_of
  child-given pre [] nil c i h e = cc
  child-given pre [] (cons n cs) c i h e = absurd h
  child-given pre (x ∷ s) nil c i h e = absurd h
  child-given pre (x ∷ s) (cons m cs) c zero h e = (m, refl, Opens-Enters x m h.0)
  child-given pre (x ∷ s) (cons m cs) c (suc i) h e =
      child-given pre s cs c i h.2 (index_of-suc x s c i e)

  not_catch_all :
      (i : Fields A) (cs : Nodes A) (w : Wild A) (ps : Option Params)
      → is_catch_all i.n_type ≡ false
      → IsOk (slash_hint (node i cs w) ps)
  not_catch_all i cs w ps h = ground arith

  slash_hint-IsOk :
      (pre : Bytes) (m : Node A) (ps : Option Params) → IsNode pre m → IsOk (slash_hint m ps)
  slash_hint-IsOk pre (node m cs w) ps h = not_catch_all m cs w ps h.5

  slash_child-IsOk :
      (pre : Bytes) (n : Node A) (ps : Option Params) → IsNode pre n → IsOk (slash_child n ps)
  slash_child-IsOk pre (node i cs w) ps h = elim (Option-cases (index_of i.indices b'/')) [
    | inl e ↦ rw (e, slash_child) tt
    | inr (k, e) ↦
        let (m, there, given) = child-given (pre ++ i.path) i.indices cs b'/' k h.3 e in
        rw (e, slash_child)
          (rw there (
            slash_hint-IsOk (pre ++ i.path) m ps
              (child-IsNode _ i.indices cs b'/' k m h.3 e there)))
  ]

  arrive-IsOk :
      (pre : Bytes) (n : Node A) (path : Bytes) (ps : Option Params)
      → IsNode pre n
      → IsOk (arrive n path ps)
  unfolding arrive
  arrive-IsOk pre (node i cs w) path ps h = elim (Option-cases i.route) [
    | inr (d, e) ↦ rw e tt
    | inl e ↦ rw e (
        if_both IsOk (bytes_eq path (b'/' ∷ []) && has_wild w && not (is_root i.n_type))
          (miss true ps) (slash_child (node i cs w) ps) tt
          (slash_child-IsOk pre (node i cs w) ps h))
  ]

  param_end-IsOk : (n : Node A) (ps : Option Params) → IsOk (param_end n ps)
  param_end-IsOk (node n nil w) ps = elim (Option-cases n.route) [
    | inl e ↦ rw e tt
    | inr (d, e) ↦ rw e tt
  ]
  param_end-IsOk (node n (cons m nil) w) ps = elim (Option-cases n.route) [
    | inl e ↦ rw e tt
    | inr (d, e) ↦ rw e tt
  ]
  param_end-IsOk (node n (cons m (cons _ _)) w) ps = elim (Option-cases n.route) [
    | inl e ↦ rw e tt
    | inr (d, e) ↦ rw e tt
  ]

  enter_param-IsOk :
      (b : ℕ) (next : Search A) (pre v r : Bytes) (i : Fields A) (cs : Nodes A) (w : Wild A)
      (ps : Option Params)
      → Reaches b next
      → IsParamTail pre i.indices cs
      → length r < b
      → IsOk (enter_param next (node i cs w) (v, r) ps)
  enter_param-IsOk b next pre v [] i cs w ps go tail lt = param_end-IsOk (node i cs w) _
  enter_param-IsOk b next pre v (c ∷ r) i nil w ps go tail lt = tt
  enter_param-IsOk b next pre v (c ∷ r) i (cons m nil) w ps go tail lt =
      go pre m (c ∷ r) _ tail.1 (Opens-Enters b'/' m tail.0) lt
  enter_param-IsOk b next pre v (c ∷ r) i (cons m (cons _ _)) w ps go tail lt = absurd tail

  take_all-IsOk :
      (pre : Bytes) (path : Bytes) (ps : Option Params) (n : Node A)
      → IsVariable pre n
      → IsOk (take_all (fields n) path ps)
  take_all-IsOk pre path none n h = tt
  take_all-IsOk pre path (some ps) (node i cs w) (name, is_path, named, at) =
      let long : ltb (length i.path) 2 ≡ false = rw is_path (ground arith) in rw (long, take_all) tt

  try_wild-IsOk :
      (b : ℕ) (next : Search A) (pre : Bytes) (n : Node A) (path : Bytes) (ps : Option Params)
      → Reaches b next
      → IsWild pre (wild_child n)
      → length path < b
      → IsOk (try_wild next n path ps)
  try_wild-IsOk b next pre (node i cs no_wild) path ps go h lt = tt
  try_wild-IsOk b next pre (node i cs (wild (node j ms u))) path ps go (inl h) lt =
      let (whole, plain, edge) = split_segment_lem path in
      subst (λ t. IsOk (by_type t next (node j ms u) path ps)) (sym h.0)
        (enter_param-IsOk b next (pre ++ j.path) (split_segment path).0 (split_segment path).1 j ms
          u ps go h.3
          (omega (
            arith,
            lt,
            ap length whole,
            length-append (split_segment path).0 (split_segment path).1,
          )))
  try_wild-IsOk b next pre (node i cs (wild (node j nil u))) path ps go (inr h) lt = absurd h.2
  try_wild-IsOk b next pre (node i cs (wild (node j (cons m nil) u))) path ps go (inr h) lt =
      subst (λ t. IsOk (by_type t next (node j (cons m nil) u) path ps)) (sym h.0)
        (take_all-IsOk pre path ps m h.2)
  try_wild-IsOk b next pre (node i cs (wild (node j (cons m (cons _ _)) u))) path ps go (inr h) lt =
      absurd h.2

  descend-IsOk :
      (b : ℕ) (next : Search A) (pre : Bytes) (n : Node A) (c : ℕ) (s : Bytes) (ps : Option Params)
      → Reaches b next
      → IsNode pre n
      → length (c ∷ s) < b
      → IsOk (descend next n c (c ∷ s) ps)
  unfolding descend
  descend-IsOk b next pre (node i cs w) c s ps go h lt =
      elim (Option-cases (index_of i.indices c)) [
        | inl e ↦
            rw (e, descend)
              (try_wild-IsOk b next (pre ++ i.path) (node i cs w) (c ∷ s) ps go h.4 lt)
        | inr (k, e) ↦
            let (m, there, given) = child-given (pre ++ i.path) i.indices cs c k h.3 e in
            rw (e, descend)
              (rw there (
                go (pre ++ i.path) m (c ∷ s) ps (child-IsNode _ i.indices cs c k m h.3 e there)
                  given lt))
      ]

  -- A turn of the loop answers if the search does for what is behind the node's path.
  compare_prefix-IsOk :
      (b : ℕ) (next : Search A) (pre : Bytes) (n : Node A) (path : Bytes) (ps : Option Params)
      → Reaches b next
      → IsNode pre n
      → length path < length (fields n).path + b
      → IsOk (compare_prefix next n path ps)
  compare_prefix-IsOk b next pre (node i cs w) path ps go h lt =
      elim (Option-cases (cut_prefix i.path path)) [
        | inl e ↦ rw (e, compare_prefix) tt
        | inr ([], e) ↦ rw (e, compare_prefix) (arrive-IsOk pre (node i cs w) path ps h)
        | inr (c ∷ s, e) ↦
            rw (e, compare_prefix)
              (descend-IsOk b next pre (node i cs w) c s ps go h (
                omega (
                  arith,
                  lt,
                  ap length (cut_prefix→append i.path path (c ∷ s) e),
                  length-append i.path (c ∷ s),
                )))
      ]

  -- Behind a node without a path, a catch-all takes what is left.
  bare-IsOk :
      (next : Search A) (pre : Bytes) (m : Node A) (path : Bytes) (ps : Option Params)
      → IsNode pre m
      → IsBare m
      → IsOk (compare_prefix next m path ps)
  unfolding descend index_of
  bare-IsOk next pre (node i (cons _ _) w) path ps h bare = absurd bare
  bare-IsOk next pre (node i nil no_wild) path ps h bare = absurd bare.1
  bare-IsOk next pre (node i nil (wild n)) [] ps h bare =
      rw (bare.0, compare_prefix) (arrive-IsOk pre (node i nil (wild n)) [] ps h)
  bare-IsOk next pre (node i nil (wild (node j ms u))) (c ∷ s) ps h bare =
      rw (bare.0, compare_prefix)
        (rw (childless (pre ++ i.path) i.indices h.3) (catches (pre ++ i.path) j ms u h.4 bare.1))
    where
      childless : (p x : Bytes) → AreChildren {A = A} p x nil → x ≡ []
      childless p [] given = refl
      childless p (b ∷ x) given = absurd given

      catches :
          (p : Bytes) (k : Fields A) (ns : Nodes A) (v : Wild A)
          → IsWild p (wild (node k ns v))
          → k.n_type ≡ catch_all
          → IsOk (by_type k.n_type next (node k ns v) (c ∷ s) ps)
      catches p k ns v (inl is) e = absurd (param-catch_all (sym is.0 ∙ e))
      catches p k nil v (inr is) e = absurd is.2
      catches p k (cons m nil) v (inr is) e =
          subst (λ t. IsOk (by_type t next (node k (cons m nil) v) (c ∷ s) ps)) (sym e)
            (take_all-IsOk p (c ∷ s) ps m is.2)
      catches p k (cons m (cons _ _)) v (inr is) e = absurd is.2

  search_from-IsOk : (f : ℕ) → Reaches f (search_from f)
  unfolding search_from
  search_from-IsOk zero pre m path ps h given lt = absurd (omega arith)
  search_from-IsOk (suc f) pre m path ps h (inr bare) lt =
      bare-IsOk (search_from f) pre m path ps h bare
  search_from-IsOk (suc f) pre m path ps h (inl given) lt =
      compare_prefix-IsOk f (search_from f) pre m path ps (search_from-IsOk f) h
        (omega (arith, lt, length-given (fields m).path given))

  found-of : (r : Result (Found A)) → IsOk r → (x : Found A) × (r ≡ ok x)
  found-of (ok x) h = (x, refl)
  found-of (panic e) h = absurd h

  -- A lookup in a well-formed tree returns: it does not panic, and its fuel does not run out.
  pub get_value_total :
      (n : Node A) (path : Bytes) (ps : Option Params)
      → IsNode [] n
      → (r : Found A) × (get_value n path ps ≡ ok r)
  unfolding get_value search_from
  get_value_total n path ps h = found-of (get_value n path ps) (
      subst (λ f. IsOk (search_from f n path ps)) (enough (length path))
        (compare_prefix-IsOk (length path + 1) (search_from (length path + 1)) [] n path ps
          (search_from-IsOk (length path + 1)) h (omega arith)))
    where
      enough : (k : ℕ) → suc (k + 1) ≡ k + 2
      enough k = omega arith
