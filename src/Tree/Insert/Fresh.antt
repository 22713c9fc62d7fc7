-- ===== src/Tree/Insert/Fresh.antt =====
-- tree.go, `insertChild` on a new node: the whole chain of nodes for a path.
use gofi.Prelude.{
  ℕ, zero, suc, ◌+◌, ◌-◌, ◌<◌, ◌≡◌, refl, sym, ap, ap₂, ◌∙◌, subst, ◌≢◌, ◌⊎◌, inl, inr, Bool, true,
  false, not, none, some, [], ◌∷◌, ◌++◌, append-nil, append_assoc, arith, ◌==◌, ltb, Bytes, length,
  take, drop, length-append, snoc-of,
}
use gofi.Tree.Scan.{is_wild, Wildcard, find_wildcard}
use gofi.Tree.Scan.Laws.{IsWildcard, find_wildcard_lem}
use gofi.Tree.Node.{
  ok, catch_all, RouteData, Fields, node, Nodes, nil, Wild, no_wild, wild, new_fields,
}
use gofi.Tree.Insert.{
  insert_child, insert_wildcard, insert_catch_all, catch_all_nodes, slash_at, ends_in_slash,
}
use gofi.Tree.Pattern.{Plain, IsName}
use gofi.Tree.Shape.{StartsWith, IsWild}
use gofi.Tree.Insert.Built.{
  Stops, Stops-if, Fits, IsFresh, fresh-IsNode, leaf-IsNode, catch_all-IsWild,
}
use gofi.Tree.Insert.Chain.{take-found, drop-found, before_wild, insert_wildcard-Stops}

slash_at-append : (b s : Bytes) (x : ℕ) → slash_at (b ++ x ∷ s) (length b) ≡ (x == b'/')
slash_at-append [] s x = refl
slash_at-append (y ∷ b) s x = slash_at-append b s x

pub Plain-prefix : (b s : Bytes) → Plain (b ++ s) → Plain b
Plain-prefix [] s h = tt
Plain-prefix (x ∷ b) s h = (h.0, Plain-prefix b s h.1)

pub StartsWith-append : (c : ℕ) (b s : Bytes) → b ≢ [] → StartsWith c (b ++ s) → StartsWith c b
StartsWith-append c [] s given h = absurd (given refl)
StartsWith-append c (x ∷ b) s given h = h

true-false : true ≢ false
true-false e = cc

not_first : (i : ℕ) → (i == 0) ≡ false → i ≡ 0 → ⊥
not_first i h e = ground arith

is_slash :
    (path b s : Bytes) (x i : ℕ)
    → path ≡ b ++ x ∷ s
    → i ≡ 0 + length b
    → not (slash_at path i) ≡ false
    → x ≡ b'/'
is_slash path b s x i e at h =
    named
      (sym (slash_at-append b s x) ∙ ap₂ slash_at (sym e) (sym (at ∙ omega arith)) ∙ negated _ h)
  where
    named : (x == b'/') ≡ true → x ≡ b'/'
    named h = ground arith

    negated : (a : Bool) → not a ≡ false → a ≡ true
    negated true h = refl
    negated false h = cc

ends_there :
    (path before text rest : Bytes) (i : ℕ)
    → path ≡ before ++ (text ++ rest)
    → i ≡ 0 + length before
    → not (i + length text == length path) ≡ false
    → rest ≡ []
ends_there path before text rest i e at h = nothing rest (
    omega (
      arith,
      same (i + length text) (length path) h,
      at,
      ap length e,
      length-append before (text ++ rest),
      length-append text rest,
    ))
  where
    same : (a b : ℕ) → not (a == b) ≡ false → a ≡ b
    same a b h = ground arith

    nothing : (s : Bytes) → length s ≡ 0 → s ≡ []
    nothing [] h = refl
    nothing (x ∷ s) h = absurd (omega arith)

module _ {A : Type 0} where
  pub insert_child-found :
      (f : ℕ) (n : Fields A) (cs : Nodes A) (w : Wild A) (path full : Bytes) (d : RouteData A)
      (found : Wildcard)
      → find_wildcard path ≡ some found
      → insert_child (suc f) n cs w path full d
        ≡ insert_wildcard
            (λ rest. insert_child f (record new_fields { priority = 1 }) nil no_wild rest full d)
            n
            cs
            path
            full
            d
            found
  unfolding insert_child
  insert_child-found f n cs w path full d found e = rw (e, insert_child) refl

  insert_child-none :
      (f : ℕ) (n : Fields A) (cs : Nodes A) (w : Wild A) (path full : Bytes) (d : RouteData A)
      → find_wildcard path ≡ none
      → insert_child (suc f) n cs w path full d
        ≡ ok (node (record n { path = path; route = some d }) cs w)
  unfolding insert_child
  insert_child-none f n cs w path full d e = rw (e, insert_child) refl

  before_wild-path :
      (n : Fields A) (path before behind : Bytes) (i : ℕ)
      → n.path ≡ []
      → path ≡ before ++ behind
      → i ≡ 0 + length before
      → before_wild n i path ≡ record n { path = before }
  before_wild-path n path before behind zero e is at =
      ap (λ p. record n { path = p }) (e ∙ sym (nothing before at))
    where
      nothing : (b : Bytes) → 0 ≡ 0 + length b → b ≡ []
      nothing [] h = refl
      nothing (y ∷ b) h = absurd (omega arith)
  before_wild-path n path before behind (suc k) e is at =
      let positive : ltb 0 (suc k) ≡ true = ground arith in
      rw positive (ap (λ p. record n { path = p }) (take-found path before behind (suc k) is at))

  -- The node that keeps the text before a wildcard.
  keep-Fits :
      (n : Fields A) (pre path before behind : Bytes) (x i : ℕ) (v : Wild A)
      → IsFresh n
      → path ≡ before ++ x ∷ behind
      → i ≡ 0 + length before
      → Plain before
      → is_wild x ≡ true
      → IsWild (pre ++ before) v
      → Fits pre path (node (before_wild n i path) nil v)
  keep-Fits n pre path before behind x i v fresh is at plain is_x is_v =
      rw (before_wild-path n path before (x ∷ behind) i fresh.0 is at) (
        fresh-IsNode n pre before v fresh plain is_v,
        λ c starts not_wild. inl (opens before c (subst (StartsWith c) is starts) not_wild),
      )
    where
      opens :
          (b : Bytes) (c : ℕ) → StartsWith c (b ++ x ∷ behind) → is_wild c ≡ false → StartsWith c b
      opens [] c h not_wild = absurd (true-false (sym is_x ∙ ap is_wild h ∙ not_wild))
      opens (y ∷ b) c h not_wild = h

  -- The two nodes of a catch-all, below the new node.
  catch_all-Fits :
      (n : Fields A) (pre path b tail name : Bytes) (k : ℕ) (d : RouteData A)
      → IsFresh n
      → path ≡ b ++ tail
      → k ≡ 0 + length b
      → tail ≡ b'/' ∷ b'*' ∷ name
      → Plain b
      → IsName name
      → d.pattern ≡ pre ++ path
      → Fits pre path
          (node (record n { path = take k path }) nil (wild (catch_all_nodes (drop k path) d)))
  catch_all-Fits n pre path b tail name k d fresh is at is_tail plain named whole =
      let before = take-found path b tail k is at in
      let behind = drop-found path b tail k is at in
      let pattern = whole ∙ ap (λ x. pre ++ x) is ∙ sym (append_assoc pre b tail) in
      rw (before, behind)
        (
          fresh-IsNode n pre b (wild (catch_all_nodes tail d)) fresh plain
              (catch_all-IsWild (pre ++ b) tail name d is_tail named pattern),
          λ c starts plain_c.
              opens b c (subst (StartsWith c) (is ∙ ap (λ x. b ++ x) is_tail) starts),
        )
    where
      opens :
          (p : Bytes) (c : ℕ)
          → StartsWith c (p ++ b'/' ∷ b'*' ∷ name)
          → StartsWith c p ⊎ (c ≡ b'/') × ((p ≡ []) × (catch_all ≡ catch_all))
      opens [] c h = inr (sym h, (refl, refl))
      opens (y ∷ p) c h = inl h

  insert_catch_all-Fits :
      (n : Fields A) (pre path full : Bytes) (d : RouteData A) (w : Wildcard)
      (h : IsWildcard 0 path w)
      → IsFresh n
      → d.pattern ≡ pre ++ path
      → IsName h.1
      → h.3 ≡ b'*'
      → Stops (Fits pre path) (insert_catch_all n nil path full d w.text w.start)
  insert_catch_all-Fits n pre path full d w
        (before, name, rest, c, is_path, text, at, plain, is, no_slash, edge, valid) fresh whole
        named star =
      Stops-if (Fits pre path) (not (w.start + length w.text == length path)) _ _ (λ e. λ x. cc)
        (λ ends.
          Stops-if (Fits pre path) (ends_in_slash n.path) _ _ (λ e. λ x. cc)
            (λ _.
              Stops-if (Fits pre path) (w.start == 0) _ _ (λ e. λ x. cc)
                (λ later.
                  Stops-if (Fits pre path) (not (slash_at path (w.start - 1))) _ _ (λ e. λ x. cc)
                    (λ slash. elim (snoc-of before) [
                      | inl none_before ↦
                          absurd
                            (not_first w.start later (omega (arith, at, ap length none_before)))
                      | inr (b, x, is_before) ↦
                          let front : path ≡ b ++ (x ∷ c ∷ (name ++ rest)) =
                            is_path
                            ∙ ap (λ p. p ++ c ∷ (name ++ rest)) is_before
                            ∙ append_assoc b (x ∷ []) (c ∷ (name ++ rest)) in
                          let from : w.start - 1 ≡ 0 + length b =
                            omega (arith, at, ap length is_before, length-append b (x ∷ [])) in
                          catch_all-Fits n pre path b (x ∷ c ∷ (name ++ rest)) name (w.start - 1) d
                            fresh front from
                            (ap₂ (λ y s. y ∷ s)
                              (is_slash path b (c ∷ (name ++ rest)) x (w.start - 1) front from
                                slash)
                              (ap₂ (λ y s. y ∷ (name ++ s)) star
                                  (ends_there path before w.text rest w.start
                                    (is_path ∙ ap (λ y. before ++ (y ++ rest)) (sym text)) at ends)
                                ∙ ap (λ s. b'*' ∷ s) (append-nil name)))
                            (Plain-prefix b (x ∷ []) (subst Plain is_before plain)) named whole
                    ]))))

  new-IsFresh : IsFresh {A = A} (record new_fields { priority = 1 })
  new-IsFresh = (refl, refl, refl, refl, refl)

  -- A new node takes the whole of a path that is not empty: what is built is well-formed, or the
  -- pattern is refused.
  pub insert_child-Fits :
      (f : ℕ) (n : Fields A) (pre path full : Bytes) (d : RouteData A)
      → IsFresh n
      → path ≢ []
      → length path < f
      → d.pattern ≡ pre ++ path
      → Stops (Fits pre path) (insert_child f n nil no_wild path full d)
  insert_child-Fits zero n pre path full d fresh given lt whole = absurd (omega arith)
  insert_child-Fits (suc f) n pre path full d fresh given lt whole = elim (find_wildcard_lem path) [
    | inl (none_here, plain) ↦
        subst (Stops (Fits pre path))
          (sym (insert_child-none f n nil no_wild path full d none_here))
          (leaf-IsNode n pre path d fresh plain given whole, λ c starts _. inl starts)
    | inr (w, found, h) ↦
        subst (Stops (Fits pre path)) (sym (insert_child-found f n nil no_wild path full d w found))
          (insert_wildcard-Stops (Fits pre path) _ n nil pre path full d w h whole
            (λ p r some_rest less at.
              insert_child-Fits f (record new_fields { priority = 1 }) p r full d new-IsFresh
                some_rest (omega (arith, less, lt)) at)
            (λ v is_v.
              keep-Fits n pre path h.0 (h.1 ++ h.2) h.3 w.start v fresh h.4 h.6 h.7 h.8 is_v)
            (insert_catch_all-Fits n pre path full d w h fresh whole))
  ]
