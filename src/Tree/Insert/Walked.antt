-- ===== src/Tree/Insert/Walked.antt =====
-- tree.go, `addRoute`: the loop, and the whole function.
use gofi.Prelude.{
  ℕ, suc, ◌+◌, ◌≤◌, ◌≡◌, refl, sym, ap, ap₂, ◌∙◌, subst, ◌≢◌, ◌⊎◌, inl, inr, false, [], ◌∷◌, ◌++◌,
  append-nil, append_assoc, arith, ltb, Bytes, length, drop, length-append,
}
use gofi.Tree.Scan.{is_wild, longest_common_prefix}
use gofi.Tree.Scan.Laws.{longest_common_prefix_lem, Diverge}
use gofi.Tree.Node.{RouteData, Node, node, nil, cons, fields}
use gofi.Tree.Insert.{raise_max, split_if_short, place, walk, Walk}
use gofi.Tree.Pattern.{IsName, AtBoundary}
use gofi.Tree.Shape.{StartsWith, Opens, IsBare, IsNode, IsParam}
use gofi.Tree.Insert.Built.{Stops, Stops-if, Stops-map}
use gofi.Tree.Insert.Chain.{drop-found}
use gofi.Tree.Insert.Place.{Keeps, Enters, EntersParam, store_route-Stops, place_static-Stops}
use gofi.Tree.Insert.PlaceWild.{place_wild-Stops}
use gofi.Tree.Insert.PlaceParam.{place_static-IsParam, store_route-IsParam}
use gofi.Tree.Insert.Split.{split_if_short-Ready}

-- A node below a ':' is never split.
param-whole :
    (p r s t own path : Bytes)
    → path ≡ p ++ r
    → own ≡ p ++ s
    → Diverge r s
    → path ≡ own ++ t
    → s ≡ []
param-whole p r [] t own path is is_own apart e = refl
param-whole p r (y ∷ s) t own path is is_own apart e = absurd (
    met r (y ∷ s ++ t) apart
      (same p r (y ∷ s ++ t) (sym is ∙ e ∙ ap (λ x. x ++ t) is_own ∙ append_assoc p (y ∷ s) t)))
  where
    same : (q a b : Bytes) → q ++ a ≡ q ++ b → a ≡ b
    same [] a b h = h
    same (x ∷ q) a b h = same q a b (tails x x (q ++ a) (q ++ b) h)
      where
        tails : (j k : ℕ) (u v : Bytes) → j ∷ u ≡ k ∷ v → u ≡ v
        tails j k u v h = cc

    met : (a b : Bytes) → Diverge a (y ∷ s) → a ≡ y ∷ s ++ t → ⊥
    met [] b apart h = cc
    met (x ∷ a) b apart h = apart (heads x y a (s ++ t) h)
      where
        heads : (j k : ℕ) (u v : Bytes) → j ∷ u ≡ k ∷ v → j ≡ k
        heads j k u v h = cc

module _ {A : Type 0} where
  -- A round at a node whose path was the text before the rest.
  place-Stops :
      (next : Walk A) (pre : Bytes) (n : Node A) (path full : Bytes) (num f : ℕ) (d : RouteData A)
      → Enters f d next
      → EntersParam f d next
      → IsNode pre n
      → (fields n).path ++ path ≢ []
      → d.pattern ≡ pre ++ (fields n).path ++ path
      → (length path ≤ f) ⊎ IsBare n
      → Stops (Keeps pre n) (place next n path full num d)
  place-Stops next pre (node n cs w) [] full num f d go enter h given whole room =
      store_route-Stops pre (node n cs w) full d h (λ e. given (append-nil n.path ∙ e))
        (whole ∙ append-nil (pre ++ n.path))
  place-Stops next pre (node n cs w) (c ∷ s) full num f d go enter h given whole room =
      Stops-if (Keeps pre (node n cs w)) (is_wild c) _ _
        (λ is_c. place_wild-Stops next pre n cs w c s full num f d enter h is_c whole room)
        (λ plain. place_static-Stops next pre n cs w c s full num f d go h plain whole room)

  raised-IsNode : (pre : Bytes) (n : Node A) (num : ℕ) → IsNode pre n → IsNode pre (raise_max num n)
  raised-IsNode pre (node i cs w) num h = h

  raised-path : (n : Node A) (num : ℕ) → (fields (raise_max num n)).path ≡ (fields n).path
  raised-path (node i cs w) num = refl

  raised-Opens : (c : ℕ) (n : Node A) (num : ℕ) → Opens c n → Opens c (raise_max num n)
  raised-Opens c (node i nil w) num o = o
  raised-Opens c (node i (cons _ _) w) num o = o

  walk-suc :
      (f : ℕ) (full : Bytes) (d : RouteData A) (n : Node A) (path : Bytes) (num : ℕ)
      → walk (suc f) full d n path num
        ≡ place
            (walk f full d)
            (split_if_short (longest_common_prefix path (fields n).path) (raise_max num n))
            (drop (longest_common_prefix path (fields n).path) path)
            full
            num
            d
  unfolding walk
  walk-suc f full d n path num = refl

  -- What is left of the path, unless the node is the front of a catch-all.
  left-room :
      (n m : Node A) (path rest : Bytes) (f : ℕ)
      → (length path ≤ f) ⊎ ((c : ℕ) × StartsWith c path × Opens c n × (length path ≤ suc f))
      → length (fields m).path + length rest ≡ length path
      → ((c : ℕ) → Opens c n → StartsWith c path → Opens c m)
      → (length rest ≤ f) ⊎ IsBare m
  left-room n m path rest f (inl lt) size opens = inl (omega (arith, lt, size))
  left-room n m path rest f (inr (c, starts, o, lt)) size opens = entered m (opens c o starts) size
    where
      entered :
          (k : Node A)
          → Opens c k
          → length (fields k).path + length rest ≡ length path
          → (length rest ≤ f) ⊎ IsBare k
      entered (node i ns v) (inl begins) total =
          inl (omega (arith, lt, total, consumed i.path begins))
        where
          consumed : (x : Bytes) → StartsWith c x → 1 ≤ length x
          consumed [] g = absurd g
          consumed (y ∷ x) g = omega arith
      entered (node i ns v) (inr bare) total = inr bare.1

  abbrev pub Rounded : Bytes → Node A → Bytes → Node A → Type 0
  Rounded pre n path m = IsNode pre m × ((c : ℕ) → Opens c n → StartsWith c path → Opens c m)

  -- A round: the node is split where the path leaves it, and what is left of the path is placed.
  pub round-Stops :
      (f : ℕ) (pre : Bytes) (n : Node A) (path full : Bytes) (num : ℕ) (d : RouteData A)
      → Enters f d (walk f full d)
      → EntersParam f d (walk f full d)
      → IsNode pre n
      → path ≢ []
      → d.pattern ≡ pre ++ path
      → (length path ≤ f) ⊎ ((c : ℕ) × StartsWith c path × Opens c n × (length path ≤ suc f))
      → Stops (Rounded pre n path) (walk (suc f) full d n path num)
  round-Stops f pre n path full num d go enter h given whole room =
      let (p, r, s, is_path, is_own, len, apart) = longest_common_prefix_lem path (fields n).path in
      let i = longest_common_prefix path (fields n).path in
      let rest : drop i path ≡ r = drop-found path p r i is_path (omega (arith, len)) in
      let (is_m, own, reopens) =
        split_if_short-Ready pre p r s path i (raise_max num n) (raised-IsNode pre n num h) is_path
          (raised-path n num ∙ is_own) len apart in
      let m = split_if_short i (raise_max num n) in
      let cut : (fields m).path ++ drop i path ≡ path =
        ap₂ (λ x y. x ++ y) own rest ∙ sym is_path in
      subst (Stops _) (sym (walk-suc f full d n path num)) (
        Stops-map (Keeps pre m) _ _
          (λ k kept. (kept.0, λ c o starts. kept.1 c (reopens c (raised-Opens c n num o) starts)))
          (place-Stops (walk f full d) pre m (drop i path) full num f d go enter is_m
            (λ e. given (sym cut ∙ e))
            (whole
              ∙ ap (λ x. pre ++ x) (sym cut)
              ∙ sym (append_assoc pre (fields m).path (drop i path)))
            (left-room n m path (drop i path) f room
              (omega (arith, ap length cut, length-append (fields m).path (drop i path)))
              (λ c o starts. reopens c (raised-Opens c n num o) starts))))

  place-IsParam :
      (next : Walk A) (pre : Bytes) (n : Node A) (r full : Bytes) (num f : ℕ) (d : RouteData A)
      → Enters f d next
      → IsParam pre n
      → AtBoundary r
      → d.pattern ≡ pre ++ (fields n).path ++ r
      → length r ≤ f
      → Stops (IsParam pre) (place next n r full num d)
  place-IsParam next pre n [] full num f d go h edge whole lt =
      store_route-IsParam pre n full d h (whole ∙ append-nil (pre ++ (fields n).path))
  place-IsParam next pre (node n cs w) (c ∷ s) full num f d go h edge whole lt =
      subst (λ x. Stops (IsParam pre) (place next (node n cs w) (x ∷ s) full num d)) (sym edge)
        (place_static-IsParam next pre n cs w s full num f d go h
          (subst (λ x. d.pattern ≡ pre ++ n.path ++ x ∷ s) edge whole) lt)

  pub walk-IsParam :
      (f : ℕ) (pre : Bytes) (n : Node A) (path t full : Bytes) (num : ℕ) (d : RouteData A)
      → Enters f d (walk f full d)
      → IsParam pre n
      → path ≡ (fields n).path ++ t
      → AtBoundary t
      → d.pattern ≡ pre ++ path
      → length path ≤ suc f
      → Stops (IsParam pre) (walk (suc f) full d n path num)
  walk-IsParam f pre (node n cs w) path t full num d go h is edge whole lt =
      let (p, r, s, is_path, is_own, len, apart) = longest_common_prefix_lem path n.path in
      let i = longest_common_prefix path n.path in
      let all : n.path ≡ p =
        is_own
        ∙ ap (λ x. p ++ x) (param-whole p r s t n.path path is_path is_own apart is)
        ∙ append-nil p in
      let at : i ≡ 0 + length n.path = omega (arith, len, ap length all) in
      let rest : drop i path ≡ t = drop-found path n.path t i is at in
      let stays : ltb i (length n.path) ≡ false = not_below i _ (omega (arith, at)) in
      subst (Stops (IsParam pre)) (sym (walk-suc f full d (node n cs w) path num)) (
        rw (stays, rest)
          (place-IsParam (walk f full d) pre (raise_max num (node n cs w)) t full num f d go h edge
            (whole ∙ ap (λ x. pre ++ x) is ∙ sym (append_assoc pre n.path t))
            (omega (arith, lt, ap length is, length-append n.path t, named h.1))))
    where
      not_below : (j k : ℕ) → j ≡ k → ltb j k ≡ false
      not_below j k e = ground arith

      named : (name : Bytes) × (n.path ≡ b':' ∷ name) × IsName name → 1 ≤ length n.path
      named (name, e, _) = omega (arith, ap length e)
