-- ===== src/Validators/Payment/Luhn.antt =====
-- validators/rules/payment_rules.go, `luhnCheck`: texts that differ in one digit.
use gofi.Prelude.{
  ℕ, ◌+◌, ◌-◌, ◌%◌, ◌≤◌, ◌≡◌, refl, sym, ◌∙◌, ◌≢◌, inl, inr, Bool, true, false, not, Option, none,
  some, [], ◌∷◌, ◌++◌, arith, ◌==◌, if◌then◌else◌, Bytes, Option-cases, Bool-cases,
}
use gofi.Validators.Payment.{is_digit, luhn_digit, luhn_sum, passes, luhn_check}

-- Different digits add different numbers to the sum, of one digit each.
luhn_digit-apart :
    (second : Bool) (d e : ℕ)
    → d ≤ 9
    → e ≤ 9
    → d ≢ e
    → (luhn_digit second d ≢ luhn_digit second e)
      × (luhn_digit second d ≤ 9)
      × (luhn_digit second e ≤ 9)
luhn_digit-apart false d e hd he apart = (apart, hd, he)
luhn_digit-apart true d e hd he apart = (λ h. ground arith, ground arith, ground arith)

is_digit-range : (x : ℕ) → is_digit x ≡ true → (b'0' ≤ x) × (x ≤ b'9')
is_digit-range x h = ground arith

tens : (m k u v : ℕ) → m % 10 ≡ 0 → k % 10 ≡ 0 → m + v ≡ k + u → u ≤ 9 → v ≤ 9 → u ≡ v
tens m k u v hm hk e hu hv = omega arith

-- Two sums behind the same position: none for both, or two numbers that differ as `u` and `v` do.
abbrev Shifted : ℕ → ℕ → Option (ℕ × Bool) → Option (ℕ × Bool) → Type 0
Shifted u v none none = Unit
Shifted u v (some (m, p)) (some (k, q)) = (p ≡ q) × (m + v ≡ k + u)
Shifted u v _ _ = ⊥

abbrev add_digit : ℕ → Option (ℕ × Bool) → Option (ℕ × Bool)
add_digit r none = none
add_digit r (some (sum, is_second)) =
    if is_digit r then some (sum + luhn_digit is_second (r - b'0'), not is_second) else none

luhn_sum-cons : (r : ℕ) (s : Bytes) → luhn_sum (r ∷ s) ≡ add_digit r (luhn_sum s)
unfolding luhn_sum
luhn_sum-cons r s = elim (Option-cases (luhn_sum s)) [
  | inl e ↦ rw e refl
  | inr ((sum, p), e) ↦ rw e refl
]

add_digit-Shifted :
    (r u v : ℕ) (a b : Option (ℕ × Bool))
    → Shifted u v a b
    → Shifted u v (add_digit r a) (add_digit r b)
add_digit-Shifted r u v none none h = tt
add_digit-Shifted r u v none (some y) h = absurd h
add_digit-Shifted r u v (some x) none h = absurd h
add_digit-Shifted r u v (some (m, p)) (some (k, q)) (e, h) = elim (Bool-cases (is_digit r)) [
  | inr no_digit ↦ rw no_digit tt
  | inl digit ↦ rw (digit, e) (refl, omega (arith, h))
]

luhn_sum-Shifted :
    (a s t : Bytes) (u v : ℕ)
    → Shifted u v (luhn_sum s) (luhn_sum t)
    → Shifted u v (luhn_sum (a ++ s)) (luhn_sum (a ++ t))
luhn_sum-Shifted [] s t u v h = h
luhn_sum-Shifted (r ∷ a) s t u v h =
    rw (luhn_sum-cons r (a ++ s), luhn_sum-cons r (a ++ t))
      (add_digit-Shifted r u v (luhn_sum (a ++ s)) (luhn_sum (a ++ t))
        (luhn_sum-Shifted a s t u v h))

first-Shifted :
    (x y : ℕ) (o : Option (ℕ × Bool))
    → is_digit x ≡ true
    → is_digit y ≡ true
    → (second : Bool) × Shifted
        (luhn_digit second (x - b'0'))
        (luhn_digit second (y - b'0'))
        (add_digit x o)
        (add_digit y o)
first-Shifted x y none hx hy = (false, tt)
first-Shifted x y (some (m, p)) hx hy = (p, rw (hx, hy) (refl, omega arith))

luhn_check-passes : (s : Bytes) → luhn_check s ≡ passes (luhn_sum s)
unfolding luhn_check
luhn_check-passes s = refl

passes-apart :
    (u v : ℕ) (a b : Option (ℕ × Bool))
    → Shifted u v a b
    → u ≢ v
    → u ≤ 9
    → v ≤ 9
    → passes a ≡ true
    → passes b ≡ false
passes-apart u v none none h apart hu hv ha = refl
passes-apart u v none (some y) h apart hu hv ha = absurd h
passes-apart u v (some x) none h apart hu hv ha = absurd h
passes-apart u v (some (m, p)) (some (k, q)) (e, h) apart hu hv ha =
    elim (Bool-cases (k % 10 == 0)) [
      | inr fails ↦ fails
      | inl holds ↦ absurd (apart (tens m k u v (ground arith) (ground arith) h hu hv))
    ]

-- `luhnCheck` notices every error in one digit: of two texts that differ in one digit, at most one
-- passes.
pub luhn_check_one_digit :
    (a b : Bytes) (x y : ℕ)
    → is_digit x ≡ true
    → is_digit y ≡ true
    → x ≢ y
    → luhn_check (a ++ x ∷ b) ≡ true
    → luhn_check (a ++ y ∷ b) ≡ false
luhn_check_one_digit a b x y hx hy apart h =
    let (lx, ux) = is_digit-range x hx in
    let (ly, uy) = is_digit-range y hy in
    let (second, first) = first-Shifted x y (luhn_sum b) hx hy in
    let whole =
      luhn_sum-Shifted a (x ∷ b) (y ∷ b) (luhn_digit second (x - b'0'))
        (luhn_digit second (y - b'0')) (rw (luhn_sum-cons x b, luhn_sum-cons y b) first) in
    let (far, dx, dy) =
      luhn_digit-apart second (x - b'0') (y - b'0') (omega arith) (omega arith)
        (λ e. apart (omega arith)) in
    luhn_check-passes (a ++ y ∷ b)
    ∙ passes-apart (luhn_digit second (x - b'0')) (luhn_digit second (y - b'0'))
        (luhn_sum (a ++ x ∷ b)) (luhn_sum (a ++ y ∷ b)) whole far dx dy
        (sym (luhn_check-passes (a ++ x ∷ b)) ∙ h)
