-- ===== src/Tree/Insert/Chain.antt =====
-- tree.go, `insertChild` on a new node: the chain of nodes that it makes.
use gofi.Prelude.{
  ℕ, ◌+◌, ◌<◌, ◌≡◌, refl, sym, ap, ap₂, ◌∙◌, subst, ◌≢◌, inl, inr, Bool, true, false, not, ◌||◌,
  some, [], ◌∷◌, ◌++◌, append-nil, append_assoc, arith, ◌==◌, ltb, if◌then◌else◌, Bytes, length,
  take, drop, any, length-append, take-append, drop-append, Bool-cases,
}
use gofi.Tree.Scan.{is_wild, Wildcard}
use gofi.Tree.Scan.Laws.{IsWildcard}
use gofi.Tree.Node.{
  Result, ok, panic, ◌>>=◌, RouteData, Fields, Node, node, Nodes, nil, cons, Wild, no_wild, wild,
}
use gofi.Tree.Insert.{insert_wildcard, insert_catch_all, param_fields, starts_with_colon}
use gofi.Tree.Pattern.{Plain, IsName, NoSlash, AtBoundary}
use gofi.Tree.Shape.{IsWild}
use gofi.Tree.Insert.Built.{Stops, Stops-if, Stops-map, Fits, param-IsWild, param_leaf-IsWild}

any-Plain : (s : Bytes) → any is_wild s ≡ false → Plain s
any-Plain [] h = tt
any-Plain (c ∷ s) h = elim (Bool-cases (is_wild c)) [
  | inl e ↦ absurd (true-or (is_wild c) (any is_wild s) e h)
  | inr e ↦ (e, any-Plain s (false-or (is_wild c) (any is_wild s) e h))
]
  where
    true-or : (a b : Bool) → a ≡ true → (a || b) ≡ false → ⊥
    true-or a b e h = ground arith

    false-or : (a b : Bool) → a ≡ false → (a || b) ≡ false → b ≡ false
    false-or a b e h = ground arith

IsName-found :
    (c : ℕ) (name : Bytes)
    → NoSlash name
    → not (any is_wild name) ≡ true
    → ltb (length (c ∷ name)) 2 ≡ false
    → IsName name
IsName-found c [] plain valid long = absurd (ground arith)
IsName-found c (x ∷ s) plain valid long =
    (any-Plain (x ∷ s) (negated (any is_wild (x ∷ s)) valid), plain, λ e. cc)
  where
    negated : (b : Bool) → not b ≡ true → b ≡ false
    negated true h = cc
    negated false h = refl

-- A text cut where the wildcard starts, and where it ends.
pub take-found :
    (path before behind : Bytes) (i : ℕ)
    → path ≡ before ++ behind
    → i ≡ 0 + length before
    → take i path ≡ before
take-found path before behind i e at = ap₂ take (at ∙ omega arith) e ∙ take-append before behind

pub drop-found :
    (path before behind : Bytes) (i : ℕ)
    → path ≡ before ++ behind
    → i ≡ 0 + length before
    → drop i path ≡ behind
drop-found path before behind i e at = ap₂ drop (at ∙ omega arith) e ∙ drop-append before behind

drop-behind :
    (path before text rest : Bytes) (i : ℕ)
    → path ≡ before ++ (text ++ rest)
    → i ≡ 0 + length before
    → drop (i + length text) path ≡ rest
drop-behind path before text rest i e at =
    drop-found path (before ++ text) rest (i + length text)
      (e ∙ sym (append_assoc before text rest)) (omega (arith, at, length-append before text))

pattern-behind :
    (p pre path before text rest : Bytes)
    → p ≡ pre ++ path
    → path ≡ before ++ (text ++ rest)
    → p ≡ pre ++ before ++ text ++ rest
pattern-behind p pre path before text rest e is_path =
    e
    ∙ ap (λ x. pre ++ x) (is_path ∙ sym (append_assoc before text rest))
    ∙ sym (append_assoc pre (before ++ text) rest)
    ∙ ap (λ x. x ++ rest) (sym (append_assoc pre before text))

valid_name : (v a : Bool) → v ≡ not a → not v ≡ false → not a ≡ true
valid_name true a e h = sym e
valid_name false a e h = cc

is_colon : (text name : Bytes) (c : ℕ) → text ≡ c ∷ name → starts_with_colon text ≡ true → c ≡ b':'
is_colon text name c e h = named (subst (λ x. starts_with_colon x ≡ true) e h)
  where
    named : (c == b':') ≡ true → c ≡ b':'
    named h = ground arith

is_star :
    (text name : Bytes) (c : ℕ)
    → text ≡ c ∷ name
    → is_wild c ≡ true
    → starts_with_colon text ≡ false
    → c ≡ b'*'
is_star text name c e is h = named (subst (λ x. starts_with_colon x ≡ false) e h)
  where
    named : (c == b':') ≡ false → c ≡ b'*'
    named h = ground arith

nil-length : (s : Bytes) (k : ℕ) → ltb k (k + length s) ≡ false → s ≡ []
nil-length [] k h = refl
nil-length (x ∷ s) k h = absurd (ground arith)

given-length : (s : Bytes) (k : ℕ) → ltb k (k + length s) ≡ true → s ≢ []
given-length [] k h e = ground arith
given-length (x ∷ s) k h e = cc

shorter :
    (path before name rest : Bytes) (c : ℕ)
    → path ≡ before ++ c ∷ (name ++ rest)
    → length rest < length path
shorter path before name rest c e =
    omega (arith, ap length e, length-append before (c ∷ (name ++ rest)), length-append name rest)

module _ {A : Type 0} where
  slash-Fits :
      (pre rest : Bytes) (m : Node A)
      → AtBoundary rest
      → rest ≢ []
      → Fits pre rest m
      → Fits pre (b'/' ∷ []) m
  slash-Fits pre [] m edge given h = absurd (given refl)
  slash-Fits pre (x ∷ s) m edge given (is, opens) = (is, λ c e plain. opens c (edge ∙ e) plain)

  -- The branch `wildcard[0] == ':'`, for what the node keeps besides its wildcard child.
  pub colon-Stops :
      (Q : Node A → Type 0) (pre text name : Bytes) (more : Bool) (inner : Result (Node A))
      (k : Wild A → Node A) (d : RouteData A)
      → text ≡ b':' ∷ name
      → IsName name
      → (more ≡ true → Stops (Fits (pre ++ text) (b'/' ∷ [])) inner)
      → (more ≡ false → d.pattern ≡ pre ++ text)
      → ((v : Wild A) → IsWild pre v → Q (k v))
      → Stops Q (
          if more
          then (inner >>= λ child.
              ok (k (wild (node (param_fields text) (cons child nil) no_wild))))
          else ok (k (wild (node (record (param_fields text) { route = some d }) nil no_wild))))
  colon-Stops Q pre text name true (ok m) k d e named below last keep =
      keep _ (param-IsWild pre text name m e named (below refl))
  colon-Stops Q pre text name true (panic p) k d e named below last keep = below refl
  colon-Stops Q pre text name false inner k d e named below last keep =
      keep _ (param_leaf-IsWild pre text name d e named (last refl))

  -- The further rounds, for a text that is shorter than a bound.
  abbrev pub Inner : ℕ → RouteData A → (Bytes → Result (Node A)) → Type 0
  Inner b d inner =
      (pre rest : Bytes)
      → rest ≢ []
      → length rest < b
      → d.pattern ≡ pre ++ rest
      → Stops (Fits pre rest) (inner rest)

  -- The node that keeps the text before the wildcard.
  abbrev pub before_wild : Fields A → ℕ → Bytes → Fields A
  before_wild n i path = if ltb 0 i then record n { path = take i path } else n

  pub insert_wildcard-Stops :
      (Q : Node A → Type 0) (inner : Bytes → Result (Node A)) (n : Fields A) (cs : Nodes A)
      (pre path full : Bytes) (d : RouteData A) (w : Wildcard) (h : IsWildcard 0 path w)
      → d.pattern ≡ pre ++ path
      → Inner (length path) d inner
      → ((v : Wild A) → IsWild (pre ++ h.0) v → Q (node (before_wild n w.start path) cs v))
      → (IsName h.1 → h.3 ≡ b'*' → Stops Q (insert_catch_all n cs path full d w.text w.start))
      → Stops Q (insert_wildcard inner n cs path full d w)
  insert_wildcard-Stops Q inner n cs pre path full d w
        (before, name, rest, c, is_path, text, at, plain, is, no_slash, edge, valid) whole go keep
        last =
      let cut : path ≡ before ++ (w.text ++ rest) =
        is_path ∙ ap (λ x. before ++ (x ++ rest)) (sym text) in
      let size : length (drop w.start path) ≡ length w.text + length rest =
        ap length (drop-found path before (w.text ++ rest) w.start cut at)
        ∙ length-append w.text rest in
      let whole' = pattern-behind d.pattern pre path before w.text rest whole cut in
      Stops-if Q (not w.valid) _ _ (λ e. λ x. cc)
        (λ ok_name.
          Stops-if Q (ltb (length w.text) 2) _ _ (λ e. λ x. cc)
            (λ long.
              let named : IsName name =
                IsName-found c name no_slash (valid_name w.valid (any is_wild name) valid ok_name)
                  (subst (λ x. ltb (length x) 2 ≡ false) text long) in
              Stops-if Q (starts_with_colon w.text) _ _
                (λ col.
                  colon-Stops Q (pre ++ before) w.text name
                    (ltb (length w.text) (length (drop w.start path))) _
                    (λ v. node (before_wild n w.start path) cs v) d
                    (text ∙ ap (λ x. x ∷ name) (is_colon w.text name c text col)) named
                    (λ more.
                      let given =
                        given-length rest (length w.text)
                          (subst (λ k. ltb (length w.text) k ≡ true) size more) in
                      subst (λ r. Stops (Fits (pre ++ before ++ w.text) (b'/' ∷ [])) (inner r))
                        (sym (drop-behind path before w.text rest w.start cut at))
                        (Stops-map _ _ _ (λ m. slash-Fits _ rest m edge given)
                          (go (pre ++ before ++ w.text) rest given
                            (shorter path before name rest c is_path) whole')))
                    (λ less.
                      whole'
                      ∙ ap (λ x. pre ++ before ++ w.text ++ x)
                          (nil-length rest (length w.text)
                            (subst (λ k. ltb (length w.text) k ≡ false) size less))
                      ∙ append-nil (pre ++ before ++ w.text))
                    keep)
                (λ star. last named (is_star w.text name c text is star))))
