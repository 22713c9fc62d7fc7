-- ===== src/Primitives/Decimals.antt =====
-- utils/primitives.go: the decimal digits of a number, written and read.
use gofi.Prelude.{
  ℕ, zero, suc, ◌+◌, ◌*◌, ◌/◌, ◌%◌, ◌<◌, ◌≡◌, refl, ◌∙◌, ap, true, [], ◌∷◌, ltb, Bytes, some, arith,
  digits_from, itoa, Bool-cases, inl, inr, ltb→lt, if_both,
}
use gofi.Primitives.{is_decimal, read_digits}

is_decimal-digit : (d : ℕ) → d < 10 → is_decimal (b'0' + d) ≡ true
is_decimal-digit d h = ground arith

read_digits-digit :
    (d a : ℕ) (s : Bytes) → d < 10 → read_digits a ((b'0' + d) ∷ s) ≡ read_digits (a * 10 + d) s
unfolding read_digits
read_digits-digit d a s h =
    rw (is_decimal-digit d h) (ap (λ k. read_digits (a * 10 + k) s) (omega arith))

-- Reading the digits of a number from zero gives the number.
pub read_digits-digits_from :
    (f n : ℕ) (acc : Bytes) → n < f → read_digits 0 (digits_from f n acc) ≡ read_digits n acc
unfolding digits_from
read_digits-digits_from zero n acc h = absurd omega arith
read_digits-digits_from (suc f) n acc h = elim (Bool-cases (ltb n 10)) [
  | inl small ↦
      rw small
        (read_digits-digit n 0 acc (ltb→lt n 10 small) ∙ ap (λ k. read_digits k acc) (omega arith))
  | inr large ↦ rw large (
      read_digits-digits_from f (n / 10) ((b'0' + n % 10) ∷ acc) (ground arith)
      ∙ read_digits-digit (n % 10) (n / 10) acc (omega arith)
      ∙ ap (λ k. read_digits k acc) (omega arith))
]

pub read_digits-itoa : (n : ℕ) → read_digits 0 (itoa n) ≡ some n
unfolding itoa read_digits
read_digits-itoa n = read_digits-digits_from (n + 1) n [] (omega arith)

-- A text with a first byte.
abbrev pub IsGiven : Bytes → Type 0
IsGiven s = (c : ℕ) × (t : Bytes) × (s ≡ c ∷ t)

digits_from-IsGiven :
    (f n : ℕ) (acc : Bytes) → (f ≡ 0 → IsGiven acc) → IsGiven (digits_from f n acc)
unfolding digits_from
digits_from-IsGiven zero n acc h = h refl
digits_from-IsGiven (suc f) n acc h =
    if_both IsGiven (ltb n 10) ((b'0' + n) ∷ acc) (digits_from f (n / 10) ((b'0' + n % 10) ∷ acc))
      (b'0' + n, acc, refl)
      (digits_from-IsGiven f (n / 10) ((b'0' + n % 10) ∷ acc) (λ e. (b'0' + n % 10, acc, refl)))

pub itoa-IsGiven : (n : ℕ) → IsGiven (itoa n)
unfolding itoa
itoa-IsGiven n = digits_from-IsGiven (n + 1) n [] (λ e. absurd omega arith)

-- A text that is read as a number starts with a digit.
pub read_digits-first :
    (a c n : ℕ) (s : Bytes) → read_digits a (c ∷ s) ≡ some n → is_decimal c ≡ true
unfolding read_digits
read_digits-first a c n s h = elim (Bool-cases (is_decimal c)) [
  | inl e ↦ e
  | inr e ↦ absurd cc (rw e at h)
]
