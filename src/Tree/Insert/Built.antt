-- ===== src/Tree/Insert/Built.antt =====
-- tree.go, `insertChild` on a new node: the chain of nodes that it makes.
use gofi.Prelude.{
  ℕ, ◌≡◌, refl, ◌≢◌, inl, inr, Bool, true, false, none, some, [], ◌∷◌, ◌++◌, if◌then◌else◌, Bytes,
}
use gofi.Tree.Scan.{is_wild}
use gofi.Tree.Node.{
  Result, ok, panic, ◌>>=◌, out_of_fuel, is_param, is_catch_all, RouteData, Fields, Node, node, nil,
  cons, Wild, no_wild, wild,
}
use gofi.Tree.Insert.{param_fields, catch_all_nodes}
use gofi.Tree.Pattern.{Plain, IsName}
use gofi.Tree.Shape.{StartsWith, HasPath, Opens, IsNode, IsWild}

-- Not the model's own end of fuel.
abbrev pub Stops : {B : Type 0} (Q : B → Type 0) → Result B → Type 0
Stops Q (ok m) = Q m
Stops Q (panic e) = e ≢ out_of_fuel

pub Stops-bind :
    {B C : Type 0} (P : B → Type 0) (Q : C → Type 0) (r : Result B) (k : B → Result C)
    → Stops P r
    → ((m : B) → P m → Stops Q (k m))
    → Stops Q (r >>= k)
Stops-bind P Q (ok m) k h g = g m h
Stops-bind P Q (panic e) k h g = h

pub none-HasPath : (A : Type 0) (q : Bytes) → HasPath {A = A} q none
none-HasPath A [] = tt
none-HasPath A (c ∷ s) = tt

pub some-HasPath : {A : Type 0} (q : Bytes) (d : RouteData A) → q ≢ [] → HasPath q (some d)
some-HasPath [] d h = absurd (h refl)
some-HasPath (c ∷ s) d h = tt

module _ {A : Type 0} where
  pub Stops-if :
      (Q : Node A → Type 0) (b : Bool) (x y : Result (Node A))
      → (b ≡ true → Stops Q x)
      → (b ≡ false → Stops Q y)
      → Stops Q (if b then x else y)
  Stops-if Q true x y h g = h refl
  Stops-if Q false x y h g = g refl

  pub Stops-map :
      (P Q : Node A → Type 0) (r : Result (Node A))
      → ((m : Node A) → P m → Q m)
      → Stops P r
      → Stops Q r
  Stops-map P Q (ok m) f h = f m h
  Stops-map P Q (panic e) f h = h

  -- What is added below a wildcard's node, or a whole new static child: a node behind `pre`, which
  -- the first byte of the text inserted enters.
  abbrev pub Fits : Bytes → Bytes → Node A → Type 0
  Fits pre path m = IsNode pre m × ((c : ℕ) → StartsWith c path → is_wild c ≡ false → Opens c m)

  -- A node without children or a route yet.
  abbrev pub IsFresh : Fields A → Type 0
  IsFresh n =
      (n.path ≡ [])
      × (n.indices ≡ [])
      × (is_param n.n_type ≡ false)
      × (is_catch_all n.n_type ≡ false)
      × (n.route ≡ none)

  pub fresh-IsNode :
      (n : Fields A) (pre p : Bytes) (w : Wild A)
      → IsFresh n
      → Plain p
      → IsWild (pre ++ p) w
      → IsNode pre (node (record n { path = p }) nil w)
  fresh-IsNode n pre p w (e, no_index, a, b, none_here) plain is =
      rw no_index (rw none_here (plain, a, tt, tt, is, b, none-HasPath A p))

  pub leaf-IsNode :
      (n : Fields A) (pre p : Bytes) (d : RouteData A)
      → IsFresh n
      → Plain p
      → p ≢ []
      → d.pattern ≡ pre ++ p
      → IsNode pre (node (record n { path = p; route = some d }) nil no_wild)
  leaf-IsNode n pre p d (e, no_index, a, b, none_here) plain given is =
      rw no_index (plain, a, is, tt, tt, b, some-HasPath p d given)

  pub param-IsWild :
      (pre text name : Bytes) (child : Node A)
      → text ≡ b':' ∷ name
      → IsName name
      → Fits (pre ++ text) (b'/' ∷ []) child
      → IsWild pre (wild (node (param_fields text) (cons child nil) no_wild))
  param-IsWild pre text name child e named (is, opens) =
      inl (refl, (name, e, named), tt, (opens b'/' refl refl, is), tt)

  pub param_leaf-IsWild :
      (pre text name : Bytes) (d : RouteData A)
      → text ≡ b':' ∷ name
      → IsName name
      → d.pattern ≡ pre ++ text
      → IsWild pre (wild (node (record (param_fields text) { route = some d }) nil no_wild))
  param_leaf-IsWild pre text name d e named is = inl (refl, (name, e, named), is, refl, tt)

  pub catch_all-IsWild :
      (pre tail name : Bytes) (d : RouteData A)
      → tail ≡ b'/' ∷ b'*' ∷ name
      → IsName name
      → d.pattern ≡ pre ++ tail
      → IsWild pre (wild (catch_all_nodes tail d))
  catch_all-IsWild pre tail name d e named is = inr (refl, refl, (name, e, named, is))
