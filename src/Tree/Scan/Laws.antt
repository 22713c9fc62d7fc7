-- ===== src/Tree/Scan/Laws.antt =====
-- tree.go, `longestCommonPrefix` and `findWildcard`: what they find.
use gofi.Prelude.{
  ℕ, ◌+◌, ◌≡◌, ◌≢◌, ◌⊎◌, inl, inr, refl, ap, Bool, true, false, none, some, [], ◌∷◌, ◌++◌, arith,
  ◌==◌, if◌then◌else◌, Bytes, length, any, not, ◌&&◌, ◌||◌, subst, sym, ◌∙◌, Bool-cases,
}
use gofi.Tree.Scan.{
  is_wild, longest_common_prefix, scan_name, Wildcard, find_wildcard_from, find_wildcard,
}
use gofi.Tree.Pattern.{Plain, NoSlash, AtBoundary}

-- Two texts that do not start with the same byte.
abbrev pub Diverge : Bytes → Bytes → Type 0
Diverge [] s = Unit
Diverge (x ∷ r) [] = Unit
Diverge (x ∷ r) (y ∷ s) = x ≢ y

-- The longest common prefix of two texts is a prefix of both, of the length computed, and what is
-- behind it in one and in the other does not start with the same byte.
pub longest_common_prefix_lem :
    (a b : Bytes)
    → (p : Bytes) × (r : Bytes) × (s : Bytes) × (a ≡ p ++ r)
      × (b ≡ p ++ s)
      × (length p ≡ longest_common_prefix a b)
      × Diverge r s
unfolding longest_common_prefix
longest_common_prefix_lem [] b = ([], [], b, refl, refl, refl, tt)
longest_common_prefix_lem (x ∷ a) [] = ([], x ∷ a, [], refl, refl, refl, tt)
longest_common_prefix_lem (x ∷ a) (y ∷ b) = elim (Bool-cases (x == y)) [
  | inl e ↦
      let (p, r, s, is_a, is_b, len, apart) = longest_common_prefix_lem a b in
      (x ∷ p, r, s, ap (λ t. x ∷ t) is_a, ground arith, ground arith, apart)
  | inr e ↦ ([], x ∷ a, y ∷ b, refl, refl, ground arith, λ h. ground arith)
]

scan_name-slash :
    (c : ℕ) (s : Bytes) (valid : Bool) → (c == b'/') ≡ true → scan_name (c ∷ s) valid ≡ ([], valid)
unfolding scan_name
scan_name-slash c s valid e = rw e refl

scan_name-other :
    (c : ℕ) (s : Bytes) (valid : Bool)
    → (c == b'/') ≡ false
    → scan_name (c ∷ s) valid ≡ (
      c ∷ (scan_name s (if is_wild c then false else valid)).0,
      (scan_name s (if is_wild c then false else valid)).1,
    )
unfolding scan_name
scan_name-other c s valid e = rw e refl

-- What is asked of a scanned name: it and the rest are the text, it ends before a slash, and it is
-- valid if the scan was and no byte of it starts a wildcard.
abbrev Scanned : Bytes → Bool → Bytes × Bool → Type 0
Scanned s valid (name, ok) =
    (rest : Bytes) × (s ≡ name ++ rest)
    × NoSlash name
    × AtBoundary rest
    × (ok ≡ (valid && not (any is_wild name)))

Scanned-cons :
    (c : ℕ) (s : Bytes) (valid : Bool) (r : Bytes × Bool)
    → (c == b'/') ≡ false
    → Scanned s (if is_wild c then false else valid) r
    → Scanned (c ∷ s) valid (c ∷ r.0, r.1)
Scanned-cons c s valid (name, ok) e (rest, is_s, plain, ends, is_ok) = (
  rest,
  ap (λ t. c ∷ t) is_s,
  (e, plain),
  ends,
  is_ok ∙ drop_valid (is_wild c) valid (any is_wild name),
)
  where
    drop_valid : (w v a : Bool) → ((if w then false else v) && not a) ≡ (v && not (w || a))
    drop_valid true true a = refl
    drop_valid true false a = refl
    drop_valid false v a = refl

and_true : (b : Bool) → b ≡ (b && true)
and_true true = refl
and_true false = refl

scan_name-nil : (valid : Bool) → scan_name [] valid ≡ ([], valid)
unfolding scan_name
scan_name-nil valid = refl

scan_name-Scanned : (s : Bytes) (valid : Bool) → Scanned s valid (scan_name s valid)
scan_name-Scanned [] valid =
    subst (Scanned [] valid) (sym (scan_name-nil valid)) ([], refl, tt, tt, and_true valid)
scan_name-Scanned (c ∷ s) valid = elim (Bool-cases (c == b'/')) [
  | inl e ↦
      subst (Scanned (c ∷ s) valid) (sym (scan_name-slash c s valid e))
        (c ∷ s, refl, tt, ground arith, and_true valid)
  | inr e ↦
      subst (Scanned (c ∷ s) valid) (sym (scan_name-other c s valid e))
        (Scanned-cons c s valid _ e (scan_name-Scanned s (if is_wild c then false else valid)))
]

-- What is found, for a scan that starts at an index.
abbrev pub IsWildcard : ℕ → Bytes → Wildcard → Type 0
IsWildcard start path w =
    (before : Bytes) × (name : Bytes) × (rest : Bytes) × (c : ℕ) × (path
      ≡ before ++ c ∷ (name ++ rest))
    × (w.text ≡ c ∷ name)
    × (w.start ≡ start + length before)
    × Plain before
    × (is_wild c ≡ true)
    × NoSlash name
    × AtBoundary rest
    × (w.valid ≡ not (any is_wild name))

find_wildcard_from_lem :
    (start : ℕ) (path : Bytes)
    → (find_wildcard_from start path ≡ none) × Plain path
      ⊎ ((w : Wildcard) × (find_wildcard_from start path ≡ some w) × IsWildcard start path w)
unfolding find_wildcard_from
find_wildcard_from_lem start [] = inl (refl, tt)
find_wildcard_from_lem start (c ∷ s) = elim (Bool-cases (is_wild c)) [
  | inl e ↦
      let (rest, is_s, plain, ends, ok) = scan_name-Scanned s true in
      inr (
        record { text = c ∷ (scan_name s true).0; start = start; valid = (scan_name s true).1 },
        rw e refl,
        (
          [],
          (scan_name s true).0,
          rest,
          c,
          ap (λ t. c ∷ t) is_s,
          refl,
          omega arith,
          tt,
          e,
          plain,
          ends,
          ok,
        ),
      )
  | inr e ↦ elim (find_wildcard_from_lem (start + 1) s) [
    | inl (gone, plain) ↦ inl (rw e gone, (e, plain))
    | inr (w, found, (before, name, rest, d, is_s, text, at, plain, wild, no_slash, ends, ok)) ↦
        inr (
          w,
          rw e found,
          (
            c ∷ before,
            name,
            rest,
            d,
            ap (λ t. c ∷ t) is_s,
            text,
            omega arith,
            (e, plain),
            wild,
            no_slash,
            ends,
            ok,
          ),
        )
  ]
]

-- A pattern has no wildcard exactly where no byte of it starts one. Else the text found starts at the
-- first such byte and ends before the next slash or with the pattern, its index is the number of
-- bytes before it, and it is valid if no other byte of it starts a wildcard.
pub find_wildcard_lem :
    (path : Bytes)
    → (find_wildcard path ≡ none) × Plain path
      ⊎ ((w : Wildcard) × (find_wildcard path ≡ some w) × IsWildcard 0 path w)
unfolding find_wildcard
find_wildcard_lem path = find_wildcard_from_lem 0 path
