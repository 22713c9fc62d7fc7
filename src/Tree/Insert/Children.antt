-- ===== src/Tree/Insert/Children.antt =====
-- tree.go: the static children and their index text, under `incrementChildPrio` and the changes of
-- `addRoute`.
use gofi.Prelude.{
  ℕ, zero, suc, ◌+◌, ◌-◌, ◌≡◌, refl, sym, ap, ap₂, ◌∙◌, subst, inl, inr, true, false, some,
  some-injective, [], ◌∷◌, ◌++◌, append-nil, append_assoc, arith, ◌==◌, ltb, if◌then◌else◌, Bytes,
  length, take, drop, get_elem?, length-append, snoc-of, Bool-cases,
}
use gofi.Tree.Node.{
  Fields, Node, node, Nodes, nil, cons, Wild, child_at, set_child, push_child, swap_children, bump,
  bump_at, priority_at, move_front, move_index, increment_child_prio,
}
use gofi.Tree.Insert.{index_of}
use gofi.Tree.Insert.Chain.{take-found, drop-found}
use gofi.Tree.Lookup.Sound.Answers.{index_of-suc}
use gofi.Tree.Shape.{Opens, IsNode, AreChildren}

pub get_elem?-index_of : (s : Bytes) (c i : ℕ) → index_of s c ≡ some i → get_elem? s i ≡ some c
unfolding index_of
get_elem?-index_of [] c i e = cc
get_elem?-index_of (x ∷ s) c zero e = ground arith
get_elem?-index_of (x ∷ s) c (suc i) e = get_elem?-index_of s c i (index_of-suc x s c i e)

pub get_elem?-last : (s : Bytes) (c : ℕ) → get_elem? (s ++ c ∷ []) (length s) ≡ some c
get_elem?-last [] c = refl
get_elem?-last (x ∷ s) c = get_elem?-last s c

-- A text around one of its bytes.
cut_at :
    (s : Bytes) (c i : ℕ)
    → get_elem? s i ≡ some c
    → (l : Bytes) × (b : Bytes) × (s ≡ l ++ c ∷ b) × (length l ≡ i)
cut_at [] c i e = cc
cut_at (x ∷ s) c zero e = ([], s, ap (λ y. y ∷ s) (some-injective _ _ e), refl)
cut_at (x ∷ s) c (suc i) e =
    let (l, b, is, at) = cut_at s c i e in (x ∷ l, b, ap (λ t. x ∷ t) is, omega (arith, at))

get_elem?-append : (a b : Bytes) (c : ℕ) → get_elem? (a ++ c ∷ b) (length a) ≡ some c
get_elem?-append [] b c = refl
get_elem?-append (x ∷ a) b c = get_elem?-append a b c

-- The rebuilt index text has the byte moved in front of the middle part.
move_index_lem :
    (a m b : Bytes) (c to pos : ℕ)
    → length a ≡ to
    → length (a ++ m) ≡ pos
    → move_index (a ++ m ++ c ∷ b) to pos ≡ a ++ c ∷ (m ++ b)
move_index_lem a m b c to pos at from =
    let s = a ++ m ++ c ∷ b in
    let whole : s ≡ a ++ (m ++ c ∷ b) = append_assoc a m (c ∷ b) in
    let front : take to s ≡ a = take-found s a (m ++ c ∷ b) to whole (omega (arith, at)) in
    let moved : drop pos s ≡ c ∷ b = drop-found s (a ++ m) (c ∷ b) pos refl (omega (arith, from)) in
    let middle : take (pos - to) (drop to s) ≡ m =
      take-found (drop to s) m (c ∷ b) (pos - to)
        (drop-found s a (m ++ c ∷ b) to whole (omega (arith, at)))
        (omega (arith, at, from, length-append a m)) in
    let behind : drop (pos + 1) s ≡ b =
      drop-found s (a ++ m ++ c ∷ []) b (pos + 1) (sym (append_assoc (a ++ m) (c ∷ []) b))
        (omega (arith, from, length-append (a ++ m) (c ∷ []))) in
    ap₂ (λ x y. x ++ y) front
      (ap₂ (λ x y. x ++ y) (ap (λ x. take 1 x) moved) (ap₂ (λ x y. x ++ y) middle behind))

childless : (A : Type 0) (pre l s : Bytes) (c : ℕ) → AreChildren {A = A} pre (l ++ c ∷ s) nil → ⊥
childless A pre [] s c h = h
childless A pre (x ∷ l) s c h = h

-- A byte that stays where it is.
unmoved :
    (a m b : Bytes) (c to pos : ℕ)
    → length a ≡ to
    → length (a ++ m) ≡ pos
    → (to == pos) ≡ true
    → a ++ m ++ c ∷ b ≡ a ++ c ∷ (m ++ b)
unmoved a [] b c to pos at from e = ap (λ t. t ++ c ∷ b) (append-nil a)
unmoved a (x ∷ m) b c to pos at from e =
    absurd (omega (arith, at, from, length-append a (x ∷ m), equal to pos e))
  where
    equal : (j k : ℕ) → (j == k) ≡ true → j ≡ k
    equal j k h = ground arith

module _ {A : Type 0} where
  pub bump-IsNode : (pre : Bytes) (n : Node A) → IsNode pre n → IsNode pre (bump n)
  bump-IsNode pre (node i cs w) h = h

  pub bump-Opens : (c : ℕ) (n : Node A) → Opens c n → Opens c (bump n)
  bump-Opens c (node i nil w) h = h
  bump-Opens c (node i (cons m ms) w) h = h

  bump_at-AreChildren :
      (pre s : Bytes) (cs : Nodes A) (i : ℕ)
      → AreChildren pre s cs
      → AreChildren pre s (bump_at cs i)
  bump_at-AreChildren pre [] nil i h = h
  bump_at-AreChildren pre [] (cons n cs) i h = absurd h
  bump_at-AreChildren pre (c ∷ s) nil i h = absurd h
  bump_at-AreChildren pre (c ∷ s) (cons n cs) zero h =
      (bump-Opens c n h.0, bump-IsNode pre n h.1, h.2)
  bump_at-AreChildren pre (c ∷ s) (cons n cs) (suc i) h =
      (h.0, h.1, bump_at-AreChildren pre s cs i h.2)

  pub child_at-given :
      (pre s : Bytes) (cs : Nodes A) (c i : ℕ)
      → AreChildren pre s cs
      → get_elem? s i ≡ some c
      → (m : Node A) × (child_at cs i ≡ some m) × Opens c m × IsNode pre m
  child_at-given pre [] nil c i h e = cc
  child_at-given pre [] (cons n cs) c i h e = absurd h
  child_at-given pre (x ∷ s) nil c i h e = absurd h
  child_at-given pre (x ∷ s) (cons n cs) c zero h e =
      (n, refl, subst (λ y. Opens y n) (some-injective _ _ e) h.0, h.1)
  child_at-given pre (x ∷ s) (cons n cs) c (suc i) h e = child_at-given pre s cs c i h.2 e

  pub set_child-AreChildren :
      (pre s : Bytes) (cs : Nodes A) (c i : ℕ) (m : Node A)
      → AreChildren pre s cs
      → get_elem? s i ≡ some c
      → Opens c m
      → IsNode pre m
      → AreChildren pre s (set_child cs i m)
  set_child-AreChildren pre [] nil c i m h e o is = h
  set_child-AreChildren pre [] (cons n cs) c i m h e o is = absurd h
  set_child-AreChildren pre (x ∷ s) nil c i m h e o is = absurd h
  set_child-AreChildren pre (x ∷ s) (cons n cs) c zero m h e o is =
      (subst (λ y. Opens y m) (sym (some-injective _ _ e)) o, is, h.2)
  set_child-AreChildren pre (x ∷ s) (cons n cs) c (suc i) m h e o is =
      (h.0, h.1, set_child-AreChildren pre s cs c i m h.2 e o is)

  pub push_child-AreChildren :
      (pre s : Bytes) (cs : Nodes A) (c : ℕ) (m : Node A)
      → AreChildren pre s cs
      → Opens c m
      → IsNode pre m
      → AreChildren pre (s ++ c ∷ []) (push_child cs m)
  push_child-AreChildren pre [] nil c m h o is = (o, is, tt)
  push_child-AreChildren pre [] (cons n cs) c m h o is = absurd h
  push_child-AreChildren pre (x ∷ s) nil c m h o is = absurd h
  push_child-AreChildren pre (x ∷ s) (cons n cs) c m h o is =
      (h.0, h.1, push_child-AreChildren pre s cs c m h.2 o is)

  swap-AreChildren :
      (pre l b : Bytes) (x y : ℕ) (cs : Nodes A)
      → AreChildren pre (l ++ y ∷ x ∷ b) cs
      → AreChildren pre (l ++ x ∷ y ∷ b) (swap_children cs (length l))
  swap-AreChildren pre [] b x y nil h = absurd h
  swap-AreChildren pre [] b x y (cons n nil) h = absurd h.2
  swap-AreChildren pre [] b x y (cons n (cons m cs)) (on, is_n, (om, is_m, h)) =
      (om, is_m, (on, is_n, h))
  swap-AreChildren pre (z ∷ l) b x y nil h = absurd h
  swap-AreChildren pre (z ∷ l) b x y (cons n nil) h = absurd (childless A pre l (x ∷ b) y h.2)
  swap-AreChildren pre (z ∷ l) b x y (cons n (cons m cs)) h =
      (h.0, h.1, swap-AreChildren pre l b x y (cons m cs) h.2)

  -- The children that the loop leaves, with the index byte of the one moved in its new place.
  abbrev MovedTo : Bytes → Bytes → ℕ → Bytes → Nodes A × ℕ → Type 0
  MovedTo pre l c b (cs, to) =
      (a : Bytes) × (m : Bytes) × (l ≡ a ++ m)
      × (length a ≡ to)
      × AreChildren pre (a ++ c ∷ (m ++ b)) cs

  move_front-lower :
      (p prio : ℕ) (cs : Nodes A)
      → ltb (priority_at cs p) prio ≡ true
      → move_front (suc p) prio cs ≡ move_front p prio (swap_children cs p)
  unfolding move_front
  move_front-lower p prio cs e = rw e refl

  move_front-higher :
      (p prio : ℕ) (cs : Nodes A)
      → ltb (priority_at cs p) prio ≡ false
      → move_front (suc p) prio cs ≡ (cs, suc p)
  unfolding move_front
  move_front-higher p prio cs e = rw e refl

  moved_none :
      (pre : Bytes) (prio : ℕ) (cs : Nodes A) (l b : Bytes) (c : ℕ)
      → length l ≡ 0
      → AreChildren pre (l ++ c ∷ b) cs
      → MovedTo pre l c b (move_front zero prio cs)
  unfolding move_front
  moved_none pre prio cs l b c at h = (l, [], sym (append-nil l), at, h)

  move_front-MovedTo :
      (pre : Bytes) (pos prio : ℕ) (cs : Nodes A) (l b : Bytes) (c : ℕ)
      → length l ≡ pos
      → AreChildren pre (l ++ c ∷ b) cs
      → MovedTo pre l c b (move_front pos prio cs)
  move_front-MovedTo pre zero prio cs [] b c at h = moved_none pre prio cs [] b c at h
  move_front-MovedTo pre zero prio cs (x ∷ l) b c at h = absurd (omega arith)
  move_front-MovedTo pre (suc p) prio cs l b c at h = elim (snoc-of l) [
    | inl e ↦ absurd (omega (arith, ap length e, at))
    | inr (k, y, e) ↦ elim (Bool-cases (ltb (priority_at cs p) prio)) [
      | inl lower ↦
          let before : length k ≡ p = omega (arith, at, ap length e, length-append k (y ∷ [])) in
          let swapped : AreChildren pre (k ++ c ∷ y ∷ b) (swap_children cs p) =
            subst (λ i. AreChildren pre (k ++ c ∷ y ∷ b) (swap_children cs i)) before
              (swap-AreChildren pre k b c y cs (
                subst (λ t. AreChildren pre t cs)
                  (ap (λ t. t ++ c ∷ b) e ∙ append_assoc k (y ∷ []) (c ∷ b)) h)) in
          let (a, m, is_k, to, moved) =
            move_front-MovedTo pre p prio (swap_children cs p) k (y ∷ b) c before swapped in
          subst (MovedTo pre l c b) (sym (move_front-lower p prio cs lower)) (
            a,
            m ++ y ∷ [],
            e ∙ ap (λ t. t ++ y ∷ []) is_k ∙ append_assoc a m (y ∷ []),
            to,
            subst (λ t. AreChildren pre (a ++ c ∷ t) (move_front p prio (swap_children cs p)).0)
                (sym (append_assoc m (y ∷ []) b)) moved,
          )
      | inr higher ↦
          subst (MovedTo pre l c b) (sym (move_front-higher p prio cs higher))
            (l, [], sym (append-nil l), at, h)
    ]
  ]

  -- Children in step with their index text, with the byte `c` at the position that is given back.
  abbrev pub Reordered : Bytes → Fields A → Wild A → ℕ → Node A × ℕ → Type 0
  Reordered pre i w c (n, to) =
      (s : Bytes) × (cs : Nodes A) × (n ≡ node (record i { indices = s }) cs w)
      × AreChildren pre s cs
      × (get_elem? s to ≡ some c)

  reindexed :
      (i : Fields A) (s : Bytes) (to pos : ℕ)
      → ((to == pos) ≡ true → i.indices ≡ s)
      → move_index i.indices to pos ≡ s
      → (if to == pos then i else record i { indices = move_index i.indices to pos })
        ≡ record i { indices = s }
  reindexed i s to pos same moved = elim (Bool-cases (to == pos)) [
    | inl e ↦ rw e (ap (λ x. record i { indices = x }) (same e))
    | inr e ↦ rw e (ap (λ x. record i { indices = x }) moved)
  ]

  -- For children that are in step with the index text, one byte for each, by which it is entered:
  -- `incrementChildPrio` at the position of a byte leaves them so, and gives back the position where
  -- that byte, with its child, now is.
  pub increment_child_prio-Reordered :
      (pre : Bytes) (i : Fields A) (cs : Nodes A) (w : Wild A) (pos c : ℕ)
      → AreChildren pre i.indices cs
      → get_elem? i.indices pos ≡ some c
      → Reordered pre i w c (increment_child_prio (node i cs w) pos)
  unfolding increment_child_prio
  increment_child_prio-Reordered pre i cs w pos c h here =
      let (l, b, is, at) = cut_at i.indices c pos here in
      let bumped = bump_at cs pos in
      let prio = priority_at bumped pos in
      let (a, m, is_l, to, moved) =
        move_front-MovedTo pre pos prio bumped l b c at
          (subst (λ t. AreChildren pre t bumped) is (bump_at-AreChildren pre i.indices cs pos h)) in
      let whole : i.indices ≡ a ++ m ++ c ∷ b = is ∙ ap (λ t. t ++ c ∷ b) is_l in
      let from : length (a ++ m) ≡ pos = ap length (sym is_l) ∙ at in
      (
        a ++ c ∷ (m ++ b),
        (move_front pos prio bumped).0,
        ap (λ f. node f (move_front pos prio bumped).0 w)
            (reindexed i (a ++ c ∷ (m ++ b)) (move_front pos prio bumped).1 pos
              (λ e. whole ∙ unmoved a m b c _ pos to from e)
              (ap (λ t. move_index t (move_front pos prio bumped).1 pos) whole
                ∙ move_index_lem a m b c _ pos to from)),
        moved,
        subst (λ k. get_elem? (a ++ c ∷ (m ++ b)) k ≡ some c) to (get_elem?-append a (m ++ b) c),
      )
