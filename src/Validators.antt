-- ===== src/Validators.antt =====
-- validators/validator.go, validators/parse.go: a value against a text of rules.
pub mod Payment
pub mod Texts
pub mod Laws
mod Tests
use gofi.Prelude.{
  ℕ, Bool, true, false, Option, none, some, List, [], ◌∷◌, ◌++◌, ◌==◌, if◌then◌else◌, Bytes, length,
  map, split_on, trim_space, is_space,
}

-- A Go value of type `any`, as far as the rules that are modelled tell: a string, an int with its
-- sign, a rune, or another.
pub data Value : Type 0 where
  text : Bytes → Value
  int : Bool → ℕ → Value
  rune : ℕ → Value
  other : Value

-- The text of an error, and the argument that is put in it.
pub data RuleError : Type 0 where
  plain : Bytes → RuleError
  with_arg : Bytes → Value → RuleError

-- `ValidatorFn`, and `ContextValidator` for the options of its context.
abbrev pub ValidatorFn : Type 0
ValidatorFn = Value → Option RuleError

abbrev pub ContextValidator : Type 0
ContextValidator = List Value → ValidatorFn

-- `ruleDefinition`
pub record RuleDefinition : Type 0 where
  pub name : Bytes
  pub args : List Value

-- strings.Index(part, "="), as the texts before and behind the first such byte
unfoldable pub cut_at_byte : ℕ → Bytes → Option (Bytes × Bytes)
cut_at_byte b [] = none
cut_at_byte b (c ∷ s) =
    let later = cut_at_byte b s in
    if c == b then some ([], s) else elim later [ none ↦ none | some (l, r) ↦ some (c ∷ l, r) ]

-- strings.Fields: the words between space.
abbrev pub open_word : Bool → ℕ → List Bytes → List Bytes
open_word true c (w ∷ ws) = (c ∷ w) ∷ ws
open_word _ c ws = (c ∷ []) ∷ ws

abbrev pub starts_word : Bytes → Bool
starts_word [] = false
starts_word (c ∷ s) = if is_space c then false else true

unfoldable pub words : Bytes → List Bytes
words [] = []
words (c ∷ s) = let rest = words s in if is_space c then rest else open_word (starts_word s) c rest

-- A part of the text between commas, with the space around it off, and where its `=` is.
abbrev pub part_rule : Bytes → Option (Bytes × Bytes) → RuleDefinition
part_rule part none = record { name = part; args = [] }
part_rule part (some (key, value)) = record {
  name = trim_space key;
  args = map (λ w. text w) (words value);
}

abbrev pub parse_part : Bytes → List RuleDefinition
parse_part [] = []
parse_part (c ∷ s) = part_rule (c ∷ s) (cut_at_byte b'=' (c ∷ s)) ∷ []

abbrev pub parse_parts : List Bytes → List RuleDefinition
parse_parts [] = []
parse_parts (p ∷ ps) = parse_part (trim_space p) ++ parse_parts ps

unfoldable pub parse_rules : Bytes → List RuleDefinition
unfolding split_on trim_space cut_at_byte words
parse_rules rule_str = parse_parts (split_on b',' rule_str)

-- `defaultValidator`
abbrev pub default_validator : ValidatorFn
default_validator arg = none

-- `NewContextValidatorFn`: the table `Validators`, then the table given, then the default.
abbrev pub Table : Type 0
Table = Bytes → Option ContextValidator

unfoldable pub new_context_validator_fn : Table → Table → Bytes → List Value → ValidatorFn
new_context_validator_fn validators vals rule args = elim (validators rule) [
  | some v ↦ v args
  | none ↦ elim (vals rule) [ some v ↦ v args | none ↦ default_validator ]
]

abbrev pub no_table : Table
no_table rule = none

-- A loop that returns the first error.
abbrev pub first_error : Option RuleError → Option RuleError → Option RuleError
first_error (some err) later = some err
first_error none later = later

-- The loop of `Validate`.
unfoldable pub validate_all : Table → Value → List RuleDefinition → Option RuleError
unfolding new_context_validator_fn
validate_all validators val [] = none
validate_all validators val (def ∷ defs) =
    first_error (new_context_validator_fn validators no_table def.name def.args val)
      (validate_all validators val defs)

unfoldable pub validate : Table → Value → Bytes → Option RuleError
unfolding parse_rules validate_all
validate validators val rules_str =
    if length rules_str == 0 then none else validate_all validators val (parse_rules rules_str)
