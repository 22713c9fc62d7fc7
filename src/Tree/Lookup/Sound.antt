-- ===== src/Tree/Lookup/Sound.antt =====
-- tree.go, `getValue`: the lookup against the meaning of patterns.
pub mod Reach
pub mod Answers
pub mod Wildcards
use gofi.Prelude.{
  ℕ, zero, suc, ◌+◌, ◌≡◌, refl, sym, ap, ◌≢◌, ◌∙◌, inl, inr, true, not, ◌&&◌, subst, Option, none,
  some, [], ◌∷◌, ◌++◌, ltb, arith, Bytes, cut_prefix, cut_prefix→append, Option-cases, Bool-cases,
  if_both, drop, append_assoc, append-nil, bytes_eq, length,
}
use gofi.Tree.Node.{
  Result, ok, panic, RouteData, Fields, Node, node, Nodes, nil, cons, Wild, no_wild, wild, fields,
  children, wild_child, child_at, is_root,
}
use gofi.Tree.Insert.{index_of}
use gofi.Tree.Lookup.{
  Params, Found, capture, split_segment, Search, miss, param_end, enter_param, take_all, by_type,
  try_wild, descend, slash_hint, slash_child, arrive, has_wild, nothing_found, compare_prefix,
  search_from, get_value,
}
use gofi.Tree.Pattern.{Serves, Plain, IsName, NoSlash, AtBoundary}
use gofi.Tree.Lookup.Sound.Reach
use gofi.Tree.Lookup.Sound.Reach.{Reaches, done, byte, segment, Reaches-append, Reaches-Serves}
use gofi.Tree.Shape.{
  Opens, IsBare, IsCatch, RouteAt, IsVariable, IsNode, AreChildren, IsWild, IsParamTail,
}
use gofi.Tree.Lookup.Sound.Answers.{
  split_segment_lem, extend, extend-capture, extend-nil, index_of-suc, AtBoundary-append,
  cons-ne-nil, Answer, IsSound, Misses, Misses-IsSound, slash_hint-Misses, slash_child-Misses,
  Plain-Answer, RouteAt-pattern, arrive-IsSound, Answer-below, IsSound-below, child-IsNode,
}
use gofi.Tree.Lookup.Sound.Wildcards.{
  Answer-param, Goes, IsSound-param, param_end-Misses, param_end-IsSound, enter_param-IsSound,
  take_all-IsSound, try_wild-IsSound,
}

module _ {A : Type 0} where
  bare-IsCatch : (i : Fields A) (cs : Nodes A) (w : Wild A) → IsBare (node i cs w) → IsCatch w
  bare-IsCatch i nil w h = h.1
  bare-IsCatch i (cons _ _) w h = absurd h

  bare-childless :
      (i : Fields A) (cs : Nodes A) (w : Wild A) (m : Node A) (k : ℕ)
      → child_at cs k ≡ some m
      → IsBare (node i cs w)
      → ⊥
  bare-childless i nil w m k e h = cc
  bare-childless i (cons _ _) w m k e h = h

  descend-IsSound :
      (next : Search A) (pre : Bytes) (n : Node A) (c : ℕ) (s : Bytes) (ps : Option Params)
      → Goes next
      → IsNode pre n
      → IsSound (Opens b'/' n) pre ((fields n).path ++ c ∷ s) ps (descend next n c (c ∷ s) ps)
  unfolding descend
  descend-IsSound next pre (node i cs w) c s ps go h = elim (Option-cases (index_of i.indices c)) [
    | inl none_here ↦
        rw (none_here, descend)
          (IsSound-below (IsCatch w) i cs w pre (c ∷ s) ps _ h.0 (bare-IsCatch i cs w)
            (try_wild-IsSound next (pre ++ i.path) (node i cs w) c s ps go h.4))
    | inr (k, here) ↦ elim (Option-cases (child_at cs k)) [
      | inl none_there ↦ rw (here, descend) (rw none_there tt)
      | inr (m, there) ↦
          rw (here, descend)
            (rw there (
              IsSound-below (Opens b'/' m) i cs w pre (c ∷ s) ps _ h.0
                (λ b. absurd (bare-childless i cs w m k there b))
                (go (pre ++ i.path) m (c ∷ s) ps
                  (child-IsNode _ i.indices cs c k m h.3 here there))))
    ]
  ]

  compare_prefix-IsSound : (next : Search A) → Goes next → Goes (compare_prefix next)
  compare_prefix-IsSound next go pre (node i cs w) path ps h =
      elim (Option-cases (cut_prefix i.path path)) [
        | inl shorter ↦
            rw (shorter, compare_prefix)
              (Misses-IsSound _ pre path ps (nothing_found i path ps) refl)
        | inr ([], same) ↦
            rw (same, compare_prefix)
              (arrive-IsSound pre (node i cs w) path ps
                (sym (cut_prefix→append i.path path [] same ∙ append-nil i.path)) h)
        | inr (c ∷ s, longer) ↦
            rw (longer, compare_prefix)
              (subst
                (λ x.
                  IsSound (Opens b'/' (node i cs w)) pre x ps
                    (descend next (node i cs w) c (c ∷ s) ps))
                (sym (cut_prefix→append i.path path (c ∷ s) longer))
                (descend-IsSound next pre (node i cs w) c s ps go h))
      ]

  search_from-IsSound : (f : ℕ) → Goes {A = A} (search_from f)
  unfolding search_from
  search_from-IsSound zero pre n path ps h = tt
  search_from-IsSound (suc f) pre n path ps h =
      compare_prefix-IsSound (search_from f) (search_from-IsSound f) pre n path ps h

  pub get_value-Serves :
      (n : Node A) (path : Bytes) (r : Found A) (d : RouteData A)
      → IsNode [] n
      → get_value n path (some []) ≡ ok r
      → r.route ≡ some d
      → (caps : Params) × Serves d.pattern path caps × (r.params ≡ some caps)
  unfolding get_value
  get_value-Serves n path r d h e found =
      let sound = search_from-IsSound (length path + 2) [] n path (some []) h in
      let (q, caps, is_pattern, m, out, _) =
        subst (IsSound (Opens b'/' n) [] path (some [])) e sound d found in
      (caps, Reaches-Serves (subst (λ x. Reaches x path caps) (sym is_pattern) m), out)
