-- ===== src/Validators/Tests.antt =====
-- Runs of the validators.
use gofi.Prelude.{
  ◌≡◌, refl, true, false, none, some, [], ◌∷◌, ◌++◌, arith, bytes_eq, codes, All, if◌then◌else◌,
}
use gofi.Validators.{text, int, plain, with_arg, Table, parse_rules, first_error, validate}
use gofi.Validators.Payment.{luhn_check, is_credit_card, has_luhn_checksum, is_ein}
use gofi.Validators.Payment.Luhn.{luhn_check_one_digit}
use gofi.Validators.Texts.{contains_rune, starts_with, ends_with_text}
use gofi.Validators.Texts.Laws.{RefusesRune, parse_rules-RefusesRune}
use gofi.Validators.Laws.{validate-append}

abbrev table : Table
table name =
    if bytes_eq name (codes "ein")
    then some is_ein
    else if bytes_eq name (codes "startswith")
    then some starts_with
    else if bytes_eq name (codes "endswith")
    then some ends_with_text
    else if bytes_eq name (codes "containsrune")
    then some contains_rune
    else none

luhn_known : luhn_check (codes "79927398713") ≡ true
unfolding luhn_check
luhn_known = refl

luhn_empty : luhn_check [] ≡ true
unfolding luhn_check
luhn_empty = refl

card_with_dashes : is_credit_card [] (text (codes "4111-1111-1111-1111")) ≡ none
unfolding is_credit_card
card_with_dashes = refl

card_short :
    is_credit_card [] (text (codes "41")) ≡ some (plain (codes "invalid credit card number length"))
unfolding is_credit_card
card_short = refl

checksum_negative : has_luhn_checksum [] (int true 18) ≡ some (plain (codes "luhn checksum failed"))
unfolding has_luhn_checksum
checksum_negative = refl

ein_dashes_anywhere : is_ein [] (text (codes "-123-4567-89-")) ≡ none
unfolding is_ein
ein_dashes_anywhere = refl

ein_and_prefix :
    validate table (text (codes "12-3456789")) (codes " ein , startswith = 12, endswith=789") ≡ none
unfolding validate is_ein starts_with ends_with_text
ein_and_prefix = refl

second_rule_fails :
    validate table (text (codes "12-3456789")) (codes "ein,startswith=13,endswith=0")
    ≡ some (with_arg (codes "value must start with '%s'") (text (codes "13")))
unfolding validate is_ein starts_with ends_with_text
second_rule_fails = refl

unknown_rule : validate table (int false 3) (codes "eim") ≡ none
unfolding validate
unknown_rule = refl

luhn_check_one_digit_example : luhn_check (codes "7992" ++ b'3' ∷ codes "398713") ≡ false
luhn_check_one_digit_example =
    luhn_check_one_digit (codes "7992") (codes "398713") b'7' b'3' refl refl (λ e. omega arith)
      luhn_known

validate-append_example :
    validate table (text (codes "12")) (codes "ein" ++ b',' ∷ codes "startswith=1")
    ≡ first_error
        (validate table (text (codes "12")) (codes "ein"))
        (validate table (text (codes "12")) (codes "startswith=1"))
validate-append_example =
    validate-append table (text (codes "12")) (codes "ein") (codes "startswith=1")

parse_rules-RefusesRune_example : All RefusesRune (parse_rules (codes "containsrune=x"))
parse_rules-RefusesRune_example = parse_rules-RefusesRune (codes "containsrune=x")
