-- ===== src/Tree/Insert/Grown.antt =====
-- tree.go, `addRoute`: the trees that registrations build.
use gofi.Prelude.{
  ℕ, zero, suc, ◌+◌, ◌%◌, ◌^◌, ◌≤◌, ◌≡◌, refl, ap, ◌∙◌, subst, ◌≢◌, inl, inr, true, Option, none,
  some, List, [], ◌∷◌, ◌++◌, arith, ◌==◌, Bytes, length, All,
}
use gofi.Tree.Scan.{count_params}
use gofi.Tree.Node.{
  Result, ok, ◌>>=◌, RouteData, Fields, Node, node, nil, cons, no_wild, wild, fields, bump,
}
use gofi.Tree.Insert.{insert_into, raise_max, walk}
use gofi.Tree.Shape.{StartsWith, HasPath, IsNode, AreChildren, IsParam}
use gofi.Tree.Insert.Built.{Stops, Stops-bind, Stops-if, Stops-map, Fits, IsFresh}
use gofi.Tree.Insert.Fresh.{insert_child-Fits}
use gofi.Tree.Node.{new_node, max_of}
use gofi.Tree.Insert.{add_route, is_empty, set_root}
use gofi.Tree.Insert.Place.{Enters, EntersParam}
use gofi.Tree.Insert.Walked.{Rounded, round-Stops, walk-IsParam}

StartsWith-given : (c : ℕ) (s : Bytes) → StartsWith c s → s ≢ []
StartsWith-given c [] h e = h
StartsWith-given c (x ∷ s) h e = cc

pub new_node-IsNode : (A : Type 0) → IsNode {A = A} [] new_node
new_node-IsNode A = (tt, refl, tt, tt, tt, refl, tt)

module _ {A : Type 0} where
  abbrev Walks : ℕ → Bytes → RouteData A → Type 0
  Walks f full d = Enters f d (walk f full d) × EntersParam f d (walk f full d)

  walk-Walks : (f : ℕ) (full : Bytes) (d : RouteData A) → Walks f full d
  walk-Walks zero full d = (
    λ pre n path num c h o starts whole lt. absurd (begun c path starts lt),
    λ pre n path t num h is edge whole lt. absurd (named pre n path t h is lt),
  )
    where
      begun : (c : ℕ) (s : Bytes) → StartsWith c s → length s ≤ 0 → ⊥
      begun c [] h lt = h
      begun c (x ∷ s) h lt = omega arith

      named :
          (pre : Bytes) (n : Node A) (path t : Bytes)
          → IsParam pre n
          → path ≡ (fields n).path ++ t
          → length path ≤ 0
          → ⊥
      named pre (node i cs w) path t h is lt =
          omega (arith, lt, ap length (is ∙ ap (λ x. x ++ t) h.1.1))
  walk-Walks (suc f) full d =
      let (go, enter) = walk-Walks f full d in
      (
        λ pre n path num c h o starts whole lt.
            Stops-map (Rounded pre n path) _ _ (λ m kept. (kept.0, kept.1 c o starts))
              (round-Stops f pre n path full num d go enter h (StartsWith-given c path starts) whole
                (inr (c, starts, o, lt))),
        λ pre n path t num h is edge whole lt.
            walk-IsParam f pre n path t full num d go h is edge whole lt,
      )

  set_root-IsNode : (pre : Bytes) (m : Node A) → IsNode pre m → IsNode pre (set_root m)
  set_root-IsNode pre (node i cs w) h = (h.0, refl, h.2, h.3, h.4, refl, h.6)

  empty-IsFresh :
      (i : Fields A) (k p : ℕ)
      → IsNode [] (node i nil no_wild)
      → i.path ≡ []
      → IsFresh (record i { max_params = k; priority = p })
  empty-IsFresh i k p h e = (e, no_index i.indices h.3, h.1, h.5, no_route i.path i.route e h.6)
    where
      no_index : (s : Bytes) → AreChildren {A = A} ([] ++ i.path) s nil → s ≡ []
      no_index [] g = refl
      no_index (x ∷ s) g = absurd g

      no_route : (s : Bytes) (o : Option (RouteData A)) → s ≡ [] → HasPath s o → o ≡ none
      no_route s none e g = refl
      no_route [] (some d) e g = absurd g
      no_route (x ∷ s) (some d) e g = cc

  pub add_route-IsNode :
      (n : Node A) (d : RouteData A)
      → IsNode [] n
      → d.pattern ≢ []
      → Stops (IsNode []) (add_route n d.pattern d)
  unfolding add_route
  add_route-IsNode n d h given =
      Stops-if (IsNode []) (is_empty n) _ _ (λ empty. first n h empty)
        (λ filled.
          subst
            (λ k. Stops (IsNode []) (
              walk k d.pattern d (raise_max (count_params d.pattern) (bump n)) d.pattern
                (count_params d.pattern)))
            (fuel (length d.pattern))
            (Stops-map (Rounded [] (raise_max (count_params d.pattern) (bump n)) d.pattern) _ _
              (λ m kept. kept.0)
              (round-Stops (length d.pattern) [] (raise_max (count_params d.pattern) (bump n))
                d.pattern d.pattern (count_params d.pattern) d (walk-Walks _ d.pattern d).0
                (walk-Walks _ d.pattern d).1 (raised n h) given refl (inl (omega arith)))))
    where
      fuel : (k : ℕ) → suc k ≡ k + 1
      fuel k = omega arith

      raised : (m : Node A) → IsNode [] m → IsNode [] (raise_max (count_params d.pattern) (bump m))
      raised (node i cs w) g = g

      first :
          (m : Node A)
          → IsNode [] m
          → is_empty m ≡ true
          → Stops (IsNode []) (
              insert_into (raise_max (count_params d.pattern) (bump m)) d.pattern d.pattern d
              >>= λ x. ok (set_root x))
      first (node i nil no_wild) g empty =
          Stops-bind (Fits [] d.pattern) (IsNode []) _ _
            (insert_child-Fits (length d.pattern + 1)
              (record i {
                max_params = max_of i.max_params (count_params d.pattern);
                priority = (i.priority + 1) % 2 ^ 32;
              })
              [] d.pattern d.pattern d
              (empty-IsFresh i (max_of i.max_params (count_params d.pattern))
                ((i.priority + 1) % 2 ^ 32) g (no_path i.path empty))
              given (omega arith) refl)
            (λ m fits. set_root-IsNode [] m fits.0)
        where
          no_path : (s : Bytes) → (length s == 0) ≡ true → s ≡ []
          no_path [] e = refl
          no_path (x ∷ s) e = absurd (ground arith)
      first (node i nil (wild m)) g empty = cc
      first (node i (cons m ms) w) g empty = cc

  -- A new tree, and the routes registered one after the other, each under its own pattern.
  abbrev pub add_routes : Node A → List (RouteData A) → Result (Node A)
  add_routes n [] = ok n
  add_routes n (d ∷ ds) = add_route n d.pattern d >>= λ m. add_routes m ds

  abbrev pub HavePatterns : List (RouteData A) → Type 0
  HavePatterns ds = All (λ d. d.pattern ≢ []) ds

  pub add_routes-IsNode :
      (n : Node A) (ds : List (RouteData A))
      → IsNode [] n
      → HavePatterns ds
      → Stops (IsNode []) (add_routes n ds)
  add_routes-IsNode n [] h given = h
  add_routes-IsNode n (d ∷ ds) h (one, more) =
      Stops-bind (IsNode []) (IsNode []) _ _ (add_route-IsNode n d h one)
        (λ m is. add_routes-IsNode m ds is more)
