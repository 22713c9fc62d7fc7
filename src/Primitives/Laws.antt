-- ===== src/Primitives/Laws.antt =====
-- utils/primitives.go: the values of a kind, and the limits of the integers.
use gofi.Prelude.{
  ℕ, ◌+◌, ◌-◌, ◌%◌, ◌^◌, ◌<◌, ◌≤◌, ◌≡◌, refl, ◌∙◌, sym, ap, subst, ◌≢◌, Bool, true, false, Option,
  none, some, [], ◌∷◌, arith, ltb, ◌==◌, if◌then◌else◌, Bytes, itoa, Bool-cases, inl, inr,
}
use gofi.Json.{
  Width, bits, word, w8, w16, w32, w64, Kind, string_kind, int_kind, uint_kind, float32_kind,
  float64_kind, bool_kind, array_kind, slice_kind, struct_kind, map_kind, interface_kind,
  other_kind, JsonValue, text_value, int_value, uint_value, float32_value, float64_value,
  bool_value,
}
use gofi.Primitives.{
  is_decimal, read_digits, below, parse_uint, negated, parse_int, parse_bool, Parsed, no_value,
  parsed, parsed_as, nil_or_text, primitive_from_str,
}
use gofi.Primitives.Decimals.{read_digits-itoa, read_digits-first, itoa-IsGiven}

-- What a number is if `below` gives one.
below-lt : (limit n : ℕ) (o : Option ℕ) → below limit o ≡ some n → n < limit
below-lt limit n none h = absurd cc
below-lt limit n (some m) h = ground arith

parse_uint-lt : (b n : ℕ) (s : Bytes) → parse_uint b s ≡ some n → n < 2 ^ b
unfolding parse_uint
parse_uint-lt b n [] h = absurd cc
parse_uint-lt b n (c ∷ s) h = below-lt (2 ^ b) n (read_digits 0 (c ∷ s)) h

-- A text that is read as digits, with the tests of its length and its sign settled.
parse_uint-digits :
    (b n c : ℕ) (s : Bytes)
    → read_digits 0 (c ∷ s) ≡ some n
    → parse_uint b (c ∷ s) ≡ below (2 ^ b) (some n)
unfolding parse_uint
parse_uint-digits b n c s h = ap (λ o. below (2 ^ b) o) h

below-both : (k l n : ℕ) → k ≤ l → below k (below l (some n)) ≡ below k (some n)
below-both k l n h = ground arith

no_sign : (c : ℕ) → is_decimal c ≡ true → ((c == b'-') ≡ false) × ((c == b'+') ≡ false)
no_sign c h = ground arith

parse_int-digits :
    (b n c : ℕ) (s : Bytes)
    → 2 ^ (b - 1) ≤ 2 ^ b
    → read_digits 0 (c ∷ s) ≡ some n
    → parse_int b (c ∷ s) ≡ below (2 ^ (b - 1)) (some n)
unfolding parse_int
parse_int-digits b n c s p h =
    let (minus, plus) = no_sign c (read_digits-first 0 c n s h) in
    rw minus (rw plus (rw (parse_uint-digits b n c s h) (below-both (2 ^ (b - 1)) (2 ^ b) n p)))

parse_int-minus :
    (b n c : ℕ) (s : Bytes)
    → 2 ^ (b - 1) + 1 ≤ 2 ^ b
    → read_digits 0 (c ∷ s) ≡ some n
    → parse_int b (b'-' ∷ c ∷ s) ≡ negated b (below (2 ^ (b - 1) + 1) (some n))
unfolding parse_int
parse_int-minus b n c s p h =
    rw (parse_uint-digits b n c s h)
      (ap (λ o. negated b o) (below-both (2 ^ (b - 1) + 1) (2 ^ b) n p))

half : (w : Width) → 2 ^ (bits w - 1) + 1 ≤ 2 ^ bits w
half word = omega arith
half w8 = omega arith
half w16 = omega arith
half w32 = omega arith
half w64 = omega arith

-- A value where a test holds, and an error where it does not.
abbrev pub parsed_if : {F D : Type 0} → Bool → JsonValue F D → Parsed F D
parsed_if b v = if b then parsed v else no_value

module _ {F D : Type 0} where
  parsed_as-below :
      (f : ℕ → JsonValue F D) (limit n : ℕ)
      → parsed_as f (below limit (some n)) ≡ parsed_if (ltb n limit) (f n)
  parsed_as-below f limit n = elim (Bool-cases (ltb n limit)) [
    | inl e ↦ rw e refl
    | inr e ↦ rw e refl
  ]

  parsed_as-negated :
      (f : ℕ → JsonValue F D) (b limit n : ℕ)
      → parsed_as f (negated b (below limit (some n)))
        ≡ parsed_if (ltb n limit) (f ((2 ^ b - n) % 2 ^ b))
  parsed_as-negated f b limit n = elim (Bool-cases (ltb n limit)) [
    | inl e ↦ rw e refl
    | inr e ↦ rw e refl
  ]

  -- The decimal digits of a number are read as the number exactly where the type has it, with or
  -- without a minus sign in front of them for a signed type; beyond the limits there is an error.
  pub primitive_from_str-itoa :
      (parse_float : ℕ → Bytes → Option F) (w : Width) (n : ℕ)
      → (primitive_from_str {D = D} parse_float (int_kind w) (itoa n)
          ≡ parsed_if (ltb n (2 ^ (bits w - 1))) (int_value w n))
        × ((primitive_from_str {D = D} parse_float (int_kind w) (b'-' ∷ itoa n)
              ≡ parsed_if
                  (ltb n (2 ^ (bits w - 1) + 1))
                  (int_value w ((2 ^ bits w - n) % 2 ^ bits w)))
            × (primitive_from_str {D = D} parse_float (uint_kind w) (itoa n)
                ≡ parsed_if (ltb n (2 ^ bits w)) (uint_value w n)))
  unfolding primitive_from_str
  primitive_from_str-itoa parse_float w n =
      let (c, s, e) = itoa-IsGiven n in
      let h : read_digits 0 (c ∷ s) ≡ some n =
        ap (λ t. read_digits 0 t) (sym e) ∙ read_digits-itoa n in
      let p = half w in
      rw e (
        (ap (λ o. parsed_as (λ m. int_value w m) o)
              (parse_int-digits (bits w) n c s (omega arith) h)
            ∙ parsed_as-below (λ m. int_value w m) (2 ^ (bits w - 1)) n),
        (
          (ap (λ o. parsed_as (λ m. int_value w m) o) (parse_int-minus (bits w) n c s p h)
              ∙ parsed_as-negated (λ m. int_value w m) (bits w) (2 ^ (bits w - 1) + 1) n),
          ap (λ o. parsed_as (λ m. uint_value w m) o) (parse_uint-digits (bits w) n c s h)
              ∙ parsed_as-below (λ m. uint_value w m) (2 ^ bits w) n,
        ),
      )

-- A value that a Go value of the kind can hold.
abbrev pub IsOfKind : {F D : Type 0} → Kind → JsonValue F D → Type 0
IsOfKind string_kind (text_value s) = s ≢ []
IsOfKind (int_kind w) (int_value v n) = (v ≡ w) × (n < 2 ^ bits w)
IsOfKind (uint_kind w) (uint_value v n) = (v ≡ w) × (n < 2 ^ bits w)
IsOfKind float32_kind (float32_value f) = Unit
IsOfKind float64_kind (float64_value f) = Unit
IsOfKind bool_kind (bool_value b) = Unit
IsOfKind _ _ = ⊥

negated-lt : (b n : ℕ) (o : Option ℕ) → 0 < 2 ^ b → negated b o ≡ some n → n < 2 ^ b
negated-lt b n none p h = absurd cc
negated-lt b n (some m) p h = ground arith

parse_int-lt : (b n : ℕ) (s : Bytes) → 2 ^ (b - 1) + 1 ≤ 2 ^ b → parse_int b s ≡ some n → n < 2 ^ b
unfolding parse_int
parse_int-lt b n [] p h = absurd cc
parse_int-lt b n (c ∷ s) p h = elim (Bool-cases (c == b'-')) [
  | inl minus ↦
      negated-lt b n (below (2 ^ (b - 1) + 1) (parse_uint b s)) (omega arith) (rw minus at h)
  | inr e ↦ elim (Bool-cases (c == b'+')) [
    | inl plus ↦
        let k : n < 2 ^ (b - 1) = below-lt (2 ^ (b - 1)) n (parse_uint b s) (rw (e, plus) at h) in
        omega arith
    | inr f ↦
        let k : n < 2 ^ (b - 1) =
          below-lt (2 ^ (b - 1)) n (parse_uint b (c ∷ s)) (rw (e, f) at h) in
        omega arith
  ]
]

module _ {F D : Type 0} where
  parsed_as-holds :
      {A : Type 0} (P : JsonValue F D → Type 0) (f : A → JsonValue F D) (o : Option A)
      (v : JsonValue F D)
      → ((a : A) → o ≡ some a → P (f a))
      → parsed_as f o ≡ parsed v
      → P v
  parsed_as-holds P f none v h e = absurd cc
  parsed_as-holds P f (some a) v h e = subst P (cc e) (h a refl)

  nil_or_text-holds :
      (s : Bytes) (v : JsonValue F D) → nil_or_text s ≡ parsed v → IsOfKind string_kind v
  nil_or_text-holds [] v e = absurd cc
  nil_or_text-holds (c ∷ s) v e =
      let same : text_value (c ∷ s) ≡ v = cc e in
      subst (λ u. IsOfKind string_kind u) same (λ q. cc q)

  -- A value that PrimitiveFromStr gives for a kind has the kind's type, and an integer its size.
  pub primitive_from_str-IsOfKind :
      (parse_float : ℕ → Bytes → Option F) (kind : Kind) (s : Bytes) (v : JsonValue F D)
      → primitive_from_str parse_float kind s ≡ parsed v
      → IsOfKind kind v
  unfolding primitive_from_str
  primitive_from_str-IsOfKind p string_kind s v e = nil_or_text-holds s v e
  primitive_from_str-IsOfKind p bool_kind s v e =
      parsed_as-holds (λ u. IsOfKind bool_kind u) (λ b. bool_value b) (parse_bool s) v (λ b h. tt) e
  primitive_from_str-IsOfKind p (int_kind w) s v e =
      parsed_as-holds (λ u. IsOfKind (int_kind w) u) (λ n. int_value w n) (parse_int (bits w) s) v
        (λ n h. (refl, parse_int-lt (bits w) n s (half w) h)) e
  primitive_from_str-IsOfKind p (uint_kind w) s v e =
      parsed_as-holds (λ u. IsOfKind (uint_kind w) u) (λ n. uint_value w n) (parse_uint (bits w) s)
        v (λ n h. (refl, parse_uint-lt (bits w) n s h)) e
  primitive_from_str-IsOfKind p float32_kind s v e =
      parsed_as-holds (λ u. IsOfKind float32_kind u) (λ f. float32_value f) (p 32 s) v (λ f h. tt) e
  primitive_from_str-IsOfKind p float64_kind s v e =
      parsed_as-holds (λ u. IsOfKind float64_kind u) (λ f. float64_value f) (p 64 s) v (λ f h. tt) e
  primitive_from_str-IsOfKind p array_kind s v e = absurd cc
  primitive_from_str-IsOfKind p slice_kind s v e = absurd cc
  primitive_from_str-IsOfKind p struct_kind s v e = absurd cc
  primitive_from_str-IsOfKind p map_kind s v e = absurd cc
  primitive_from_str-IsOfKind p interface_kind s v e = absurd cc
  primitive_from_str-IsOfKind p other_kind s v e = absurd cc
