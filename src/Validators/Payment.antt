-- ===== src/Validators/Payment.antt =====
-- validators/rules/payment_rules.go.
pub mod Luhn
use gofi.Prelude.{
  ℕ, ◌+◌, ◌-◌, ◌*◌, ◌%◌, Bool, true, false, not, ◌&&◌, ◌||◌, Option, none, some, List, [], ◌∷◌,
  ◌==◌, ltb, leb, if◌then◌else◌, Bytes, codes, length, replace_all, itoa, all,
}
use gofi.Validators.{Value, text, int, rune, other, RuleError, plain, ContextValidator}

-- !(r < '0' || r > '9')
abbrev pub is_digit : ℕ → Bool
is_digit r = not (ltb r b'0' || ltb b'9' r)

-- What a digit adds to the sum.
abbrev pub luhn_digit : Bool → ℕ → ℕ
luhn_digit false d = d
luhn_digit true d = if ltb 9 (d * 2) then d * 2 - 9 else d * 2

-- The loop of `luhnCheck`, which starts at the end of the text: `sum` and `isSecond` in front of the
-- bytes that are left, or nothing behind a byte that is no digit.
unfoldable pub luhn_sum : Bytes → Option (ℕ × Bool)
luhn_sum [] = some (0, false)
luhn_sum (r ∷ s) = elim (luhn_sum s) [
  | none ↦ none
  | some (sum, is_second) ↦
      if is_digit r then some (sum + luhn_digit is_second (r - b'0'), not is_second) else none
]

-- What `luhnCheck` returns behind its loop, or in it.
abbrev pub passes : Option (ℕ × Bool) → Bool
passes none = false
passes (some (sum, is_second)) = sum % 10 == 0

unfoldable pub luhn_check : Bytes → Bool
unfolding luhn_sum
luhn_check s = passes (luhn_sum s)

unfoldable pub is_credit_card : ContextValidator
unfolding luhn_check replace_all
is_credit_card options (text v) =
    let s = replace_all (replace_all v (codes " ") []) (codes "-") [] in
    if ltb (length s) 13 || ltb 19 (length s)
    then some (plain (codes "invalid credit card number length"))
    else if not (luhn_check s)
    then some (plain (codes "invalid credit card number (luhn check failed)"))
    else none
is_credit_card options _ = some (plain (codes "invalid credit card value. value must be a string"))

abbrev pub luhn_result : Bytes → Option RuleError
luhn_result v = if not (luhn_check v) then some (plain (codes "luhn checksum failed")) else none

-- strconv.Itoa
abbrev pub int_text : Bool → ℕ → Bytes
int_text false n = itoa n
int_text true n = b'-' ∷ itoa n

unfoldable pub has_luhn_checksum : ContextValidator
unfolding luhn_check itoa
has_luhn_checksum options (text v) = luhn_result v
has_luhn_checksum options (int negative n) = luhn_result (int_text negative n)
has_luhn_checksum options _ =
    some (plain (codes "invalid luhn checksum value. value must be string or int"))

unfoldable pub is_ein : ContextValidator
unfolding replace_all
is_ein options (text v) =
    let s = replace_all v (codes "-") [] in
    if not (length s == 9)
    then some (plain (codes "invalid EIN length"))
    else if not (all is_digit s)
    then some (plain (codes "invalid EIN characters"))
    else none
is_ein options _ = some (plain (codes "invalid EIN value. value must be a string"))
