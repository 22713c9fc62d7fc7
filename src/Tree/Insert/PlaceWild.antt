-- ===== src/Tree/Insert/PlaceWild.antt =====
-- tree.go, `addRoute`: a path that goes on with ':' or '*' behind a static path.
use gofi.Prelude.{
  ℕ, zero, suc, ◌+◌, ◌%◌, ◌≤◌, ◌≡◌, refl, sym, ap, ◌∙◌, subst, ◌⊎◌, inl, inr, Bool, true, false,
  not, ◌&&◌, ◌||◌, [], ◌∷◌, ◌++◌, append-nil, arith, ◌==◌, leb, Bytes, bytes_eq→eq, length, drop,
  take-append-drop,
}
use gofi.Tree.Scan.{is_wild, Wildcard}
use gofi.Tree.Scan.Laws.{IsWildcard, find_wildcard_lem}
use gofi.Tree.Node.{
  catch_all, is_catch_all, RouteData, NodeType, Fields, Node, node, Nodes, nil, cons, Wild, no_wild,
  wild, new_fields, fields, bump,
}
use gofi.Tree.Insert.{
  insert_child, insert_catch_all, raise_max, fits_wildcard, place_wild, Walk, slash_at,
  ends_in_slash,
}
use gofi.Tree.Pattern.{AtBoundary}
use gofi.Tree.Shape.{Opens, IsBare, IsNode, IsWild, IsParam}
use gofi.Tree.Insert.Built.{Stops, Stops-bind, Stops-if}
use gofi.Tree.Insert.Chain.{before_wild, insert_wildcard-Stops}
use gofi.Tree.Insert.Fresh.{insert_child-Fits, insert_child-found}
use gofi.Tree.Insert.Place.{Keeps, EntersParam}

and_both : (a b : Bool) → (a && b) ≡ true → (a ≡ true) × (b ≡ true)
and_both true true e = (refl, refl)
and_both true false e = cc
and_both false b e = cc

negates : (a : Bool) → not a ≡ true → a ≡ false
negates true e = cc
negates false e = refl

ends_segment :
    (path : Bytes) (k : ℕ)
    → (leb (length path) k || slash_at path k) ≡ true
    → AtBoundary (drop k path)
ends_segment [] zero e = tt
ends_segment [] (suc k) e = tt
ends_segment (x ∷ s) zero e = ground arith
ends_segment (x ∷ s) (suc k) e = ends_segment s k (ground arith)

-- A wildcard's child is entered for the whole of its segment only.
fits_wildcard-prefix :
    (A : Type 0) (wc : Fields A) (path : Bytes)
    → fits_wildcard wc path ≡ true
    → (is_catch_all wc.n_type ≡ false) × ((r : Bytes) × (path ≡ wc.path ++ r) × AtBoundary r)
unfolding fits_wildcard
fits_wildcard-prefix A wc path h =
    let (most, ends) = and_both _ _ h in
    let (same, other) = and_both _ _ most in
    let (long, begins) = and_both _ _ same in
    let is = bytes_eq→eq _ _ begins in
    (
      negates _ other,
      (
        drop (length wc.path) path,
        sym (take-append-drop (length wc.path) path)
            ∙ ap (λ x. x ++ drop (length wc.path) path) (sym is),
        ends_segment path (length wc.path) ends,
      ),
    )

wild-first :
    (c : ℕ) (s : Bytes) (w : Wildcard) (h : IsWildcard 0 (c ∷ s) w) → is_wild c ≡ true → h.0 ≡ []
wild-first c s w ([], _, _, _, _, _, _, _, _, _, _, _) is_c = refl
wild-first c s w (x ∷ b, name, rest, y, is, text, at, plain, _, _, _, _) is_c =
    absurd (mixed (is_wild c) is_c (ap is_wild (first c s x _ is) ∙ plain.0))
  where
    mixed : (a : Bool) → a ≡ true → a ≡ false → ⊥
    mixed a e e' = cc

    first : (j : ℕ) (u : Bytes) (k : ℕ) (v : Bytes) → j ∷ u ≡ k ∷ v → j ≡ k
    first j u k v e = cc

module _ {A : Type 0} where
  insert_catch_all-Stops :
      (Q : Node A → Type 0) (n : Fields A) (cs : Nodes A) (path full : Bytes) (d : RouteData A)
      (text : Bytes) (i : ℕ)
      → i ≡ 0
      → Stops Q (insert_catch_all n cs path full d text i)
  insert_catch_all-Stops Q n cs path full d text i e =
      Stops-if Q (not (i + length text == length path)) _ _ (λ _. λ x. cc)
        (λ _.
          Stops-if Q (ends_in_slash n.path) _ _ (λ _. λ x. cc)
            (λ _. Stops-if Q (i == 0) _ _ (λ _. λ x. cc) (λ later. absurd (ground arith))))

  before_wild-first : (n : Fields A) (i : ℕ) (path : Bytes) → i ≡ 0 → before_wild n i path ≡ n
  before_wild-first n i path e = rw e refl

  with_wild-Opens :
      (c : ℕ) (n : Fields A) (cs : Nodes A) (v : Wild A)
      → Opens c (node n cs no_wild)
      → Opens c (node n cs v)
  with_wild-Opens c n cs v (inl o) = inl o
  with_wild-Opens c n nil v (inr o) = absurd o.1.1
  with_wild-Opens c n (cons _ _) v (inr o) = absurd o.1

  -- A wildcard child is added to a node.
  insert_child-Keeps :
      (f : ℕ) (pre : Bytes) (n : Fields A) (cs : Nodes A) (c : ℕ) (s full : Bytes) (d : RouteData A)
      → IsNode pre (node n cs no_wild)
      → is_wild c ≡ true
      → d.pattern ≡ pre ++ n.path ++ c ∷ s
      → length (c ∷ s) ≤ f
      → Stops (Keeps pre (node n cs no_wild)) (insert_child (suc f) n cs no_wild (c ∷ s) full d)
  insert_child-Keeps f pre n cs c s full d h is_c whole lt = elim (find_wildcard_lem (c ∷ s)) [
    | inl (_, plain) ↦ absurd (mixed (is_wild c) is_c plain.0)
    | inr (w, found, is) ↦
        let first = wild-first c s w is is_c in
        let at : w.start ≡ 0 = omega (arith, is.6, ap length first) in
        subst (Stops (Keeps pre (node n cs no_wild)))
          (sym (insert_child-found f n cs no_wild (c ∷ s) full d w found))
          (insert_wildcard-Stops (Keeps pre (node n cs no_wild)) _ n cs (pre ++ n.path) (c ∷ s) full
            d w is whole
            (λ p r given less where_at.
              insert_child-Fits f (record new_fields { priority = 1 }) p r full d
                (refl, refl, refl, refl, refl) given (omega (arith, less, lt)) where_at)
            (λ v is_v.
              subst (λ m. Keeps pre (node n cs no_wild) (node m cs v))
                (sym (before_wild-first n w.start (c ∷ s) at))
                (
                  (
                    h.0,
                    h.1,
                    h.2,
                    h.3,
                    subst (λ x. IsWild x v)
                        (ap (λ x. pre ++ n.path ++ x) first ∙ append-nil (pre ++ n.path)) is_v,
                    h.5,
                    h.6,
                  ),
                  λ b o. with_wild-Opens b n cs v o,
                ))
            (λ named star. insert_catch_all-Stops _ n cs (c ∷ s) full d w.text w.start at))
  ]
    where
      mixed : (a : Bool) → a ≡ true → a ≡ false → ⊥
      mixed a e e' = cc

  raised-IsParam :
      (pre : Bytes) (n : Node A) (num : ℕ) → IsParam pre n → IsParam pre (raise_max num (bump n))
  raised-IsParam pre (node i cs w) num h = h

  raised-path : (n : Node A) (num : ℕ) → (fields (raise_max num (bump n))).path ≡ (fields n).path
  raised-path (node i cs w) num = refl

  IsParam-IsWild : (pre : Bytes) (m : Node A) → IsParam pre m → IsWild pre (wild m)
  IsParam-IsWild pre (node i cs w) h = inl h

  IsWild-IsParam :
      (pre : Bytes) (m : Node A)
      → IsWild pre (wild m)
      → is_catch_all (fields m).n_type ≡ false
      → IsParam pre m
  IsWild-IsParam pre (node i cs w) (inl h) no_catch = h
  IsWild-IsParam pre (node i cs w) (inr h) no_catch = absurd (other i.n_type h.0 no_catch)
    where
      other : (t : NodeType) → t ≡ catch_all → is_catch_all t ≡ false → ⊥
      other t is e = cc

  not_bare :
      (n : Fields A) (cs : Nodes A) (m : Node A)
      → is_catch_all (fields m).n_type ≡ false
      → IsBare (node n cs (wild m))
      → ⊥
  not_bare n nil (node i ms u) no_catch bare = other i.n_type bare.1 no_catch
    where
      other : (t : NodeType) → t ≡ catch_all → is_catch_all t ≡ false → ⊥
      other t is e = cc
  not_bare n (cons _ _) m no_catch bare = bare

  other-Opens :
      (c : ℕ) (n : Fields A) (cs : Nodes A) (m k : Node A)
      → is_catch_all (fields m).n_type ≡ false
      → Opens c (node n cs (wild m))
      → Opens c (node n cs (wild k))
  other-Opens c n cs m k no_catch (inl o) = inl o
  other-Opens c n cs m k no_catch (inr o) = absurd (not_bare n cs m no_catch o.1)

  pub place_wild-Stops :
      (next : Walk A) (pre : Bytes) (n : Fields A) (cs : Nodes A) (w : Wild A) (c : ℕ)
      (s full : Bytes) (num f : ℕ) (d : RouteData A)
      → EntersParam f d next
      → IsNode pre (node n cs w)
      → is_wild c ≡ true
      → d.pattern ≡ pre ++ n.path ++ c ∷ s
      → (length (c ∷ s) ≤ f) ⊎ IsBare (node n cs w)
      → Stops (Keeps pre (node n cs w)) (place_wild next (node n cs w) (c ∷ s) full num d)
  unfolding place_wild
  place_wild-Stops next pre n cs no_wild c s full num f d go h is_c whole room =
      subst
        (λ k. Stops (Keeps pre (node n cs no_wild)) (insert_child k n cs no_wild (c ∷ s) full d))
        (fuel (length (c ∷ s)))
        (insert_child-Keeps (length (c ∷ s)) pre n cs c s full d h is_c whole (omega arith))
    where
      fuel : (k : ℕ) → suc k ≡ k + 1
      fuel k = omega arith
  place_wild-Stops next pre n cs (wild wc) c s full num f d go h is_c whole room =
      Stops-if (Keeps pre (node n cs (wild wc))) (fits_wildcard (fields wc) (c ∷ s)) _ _
        (λ fits.
          let (no_catch, (r, is_path, edge)) = fits_wildcard-prefix A (fields wc) (c ∷ s) fits in
          Stops-bind (IsParam (pre ++ n.path)) (Keeps pre (node n cs (wild wc))) _ _
            (go (pre ++ n.path) (raise_max num (bump wc)) (c ∷ s) r ((num + 255) % 256)
              (raised-IsParam _ wc num (IsWild-IsParam _ wc h.4 no_catch))
              (is_path ∙ ap (λ x. x ++ r) (sym (raised-path wc num))) edge whole
              (fuelled no_catch room))
            (λ m kept. (
              (h.0, h.1, h.2, h.3, IsParam-IsWild _ m kept, h.5, h.6),
              λ b o. other-Opens b n cs wc m no_catch o,
            )))
        (λ e. λ x. cc)
    where
      fuelled :
          is_catch_all (fields wc).n_type ≡ false
          → (length (c ∷ s) ≤ f) ⊎ IsBare (node n cs (wild wc))
          → length (c ∷ s) ≤ f
      fuelled no_catch (inl lt) = lt
      fuelled no_catch (inr bare) = absurd (not_bare n cs wc no_catch bare)
