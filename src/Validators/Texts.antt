-- ===== src/Validators/Texts.antt =====
-- validators/rules/string_rules.go: the rules on texts. Runes are bytes here, as in ASCII.
pub mod Laws
use gofi.Prelude.{
  ℕ, ◌-◌, Bool, true, false, not, ◌&&◌, ◌||◌, Option, none, some, List, [], ◌∷◌, ◌==◌, leb,
  if◌then◌else◌, Bytes, bytes_eq, codes, length, drop, any, has_prefix,
}
use gofi.Validators.{
  Value, text, int, rune, other, RuleError, plain, with_arg, ValidatorFn, ContextValidator,
}

-- strings.Contains
unfoldable pub contains_text : Bytes → Bytes → Bool
contains_text [] sub = has_prefix [] sub
contains_text (c ∷ s) sub = has_prefix (c ∷ s) sub || contains_text s sub

-- strings.ContainsRune and strings.ContainsAny
abbrev pub contains_byte : Bytes → ℕ → Bool
contains_byte s r = any (λ c. c == r) s

abbrev pub contains_any_of : Bytes → Bytes → Bool
contains_any_of s chars = any (λ c. contains_byte chars c) s

-- strings.HasSuffix
abbrev pub has_suffix : Bytes → Bytes → Bool
has_suffix s p = leb (length p) (length s) && bytes_eq (drop (length s - length p) s) p

-- The error of `validateString`, with the first option put in.
abbrev pub failed : List Value → Bytes → RuleError
failed [] err_fmt = plain err_fmt
failed (arg ∷ args) err_fmt = with_arg err_fmt arg

unfoldable pub validate_string : List Value → (Bytes → Bool) → Bytes → ValidatorFn
validate_string options check err_fmt (text v) =
    if check v then none else some (failed options err_fmt)
validate_string options check err_fmt _ = some (plain (codes "value must be a string"))

-- The one option, as a text: `len(c.Options) != 1` and the assertion to `string`.
abbrev pub text_option : List Value → Option Bytes
text_option (text t ∷ []) = some t
text_option _ = none

-- The one option, as a rune.
abbrev pub rune_option : List Value → Option ℕ
rune_option (rune r ∷ []) = some r
rune_option _ = none

abbrev pub with_text : List Value → (Bytes → Bool) → Bool
with_text options check = elim (text_option options) [ none ↦ false | some t ↦ check t ]

abbrev pub with_rune : List Value → (ℕ → Bool) → Bool
with_rune options check = elim (rune_option options) [ none ↦ false | some r ↦ check r ]

unfoldable pub contains : ContextValidator
unfolding validate_string contains_text
contains options =
    validate_string options (λ v. with_text options (contains_text v))
      (codes "value must contain '%s'")

unfoldable pub contains_any : ContextValidator
unfolding validate_string
contains_any options =
    validate_string options (λ v. with_text options (contains_any_of v))
      (codes "value must contain any of '%s'")

unfoldable pub contains_rune : ContextValidator
unfolding validate_string
contains_rune options =
    validate_string options (λ v. with_rune options (contains_byte v))
      (codes "value must contain rune '%v'")

unfoldable pub excludes : ContextValidator
unfolding validate_string contains_text
excludes options =
    validate_string options (λ v. with_text options (λ t. not (contains_text v t)))
      (codes "value must not contain '%s'")

unfoldable pub excludes_all : ContextValidator
unfolding validate_string
excludes_all options =
    validate_string options (λ v. with_text options (λ t. not (contains_any_of v t)))
      (codes "value must not contain any of '%s'")

unfoldable pub excludes_rune : ContextValidator
unfolding validate_string
excludes_rune options =
    validate_string options (λ v. with_rune options (λ r. not (contains_byte v r)))
      (codes "value must not contain rune '%v'")

unfoldable pub starts_with : ContextValidator
unfolding validate_string
starts_with options =
    validate_string options (λ v. with_text options (has_prefix v))
      (codes "value must start with '%s'")

unfoldable pub ends_with_text : ContextValidator
unfolding validate_string
ends_with_text options =
    validate_string options (λ v. with_text options (has_suffix v))
      (codes "value must end with '%s'")

-- strings.ToLower and strings.ToUpper are parameters.
unfoldable pub is_lowercase : (Bytes → Bytes) → ContextValidator
unfolding validate_string
is_lowercase to_lower options =
    validate_string options (λ v. bytes_eq v (to_lower v)) (codes "value must be lowercase")

unfoldable pub is_uppercase : (Bytes → Bytes) → ContextValidator
unfolding validate_string
is_uppercase to_upper options =
    validate_string options (λ v. bytes_eq v (to_upper v)) (codes "value must be uppercase")
