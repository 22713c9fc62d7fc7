-- ===== src/Validators/Texts/Laws.antt =====
-- validators/rules/string_rules.go: rules and their opposites, and the arguments that a text of rules gives.
use gofi.Prelude.{
  ◌≡◌, refl, sym, ap, subst, ◌↔◌, inl, inr, Bool, true, false, not, Option, none, some, List, [],
  ◌∷◌, ◌++◌, arith, Bytes, All, All-append, Option-cases, Bool-cases,
}
use gofi.Prelude.{
  cut_prefix, cut_prefix→append, cut_prefix-append, has_prefix, map, codes, split_on, trim_space,
}
use gofi.Validators.{
  Value, text, int, rune, other, RuleDefinition, part_rule, parse_part, parse_parts, parse_rules,
  ValidatorFn, cut_at_byte, words,
}
use gofi.Validators.Texts.{
  contains_text, validate_string, contains, contains_rune, excludes, excludes_rune, rune_option,
  with_rune, contains_byte,
}

-- A rule passes a value.
abbrev pub Accepts : ValidatorFn → Value → Type 0
Accepts rule val = rule val ≡ none

abbrev IsText : Value → Type 0
IsText (text t) = Unit
IsText _ = ⊥

texts-IsText : (ws : List Bytes) → All IsText (map (λ w. text w) ws)
texts-IsText [] = tt
texts-IsText (w ∷ ws) = (tt, texts-IsText ws)

abbrev HasTexts : RuleDefinition → Type 0
HasTexts def = All IsText def.args

part_rule-HasTexts : (part : Bytes) (o : Option (Bytes × Bytes)) → HasTexts (part_rule part o)
part_rule-HasTexts part none = tt
part_rule-HasTexts part (some (key, value)) = texts-IsText (words value)

parse_part-HasTexts : (part : Bytes) → All HasTexts (parse_part part)
unfolding cut_at_byte
parse_part-HasTexts [] = tt
parse_part-HasTexts (c ∷ s) = (part_rule-HasTexts (c ∷ s) (cut_at_byte b'=' (c ∷ s)), tt)

parse_parts-HasTexts : (ps : List Bytes) → All HasTexts (parse_parts ps)
parse_parts-HasTexts [] = tt
parse_parts-HasTexts (p ∷ ps) =
    All-append HasTexts (parse_part (trim_space p)) (parse_parts ps)
      (parse_part-HasTexts (trim_space p)) (parse_parts-HasTexts ps)

no_rune : (options : List Value) → All IsText options → rune_option options ≡ none
no_rune [] h = refl
no_rune (text t ∷ []) h = refl
no_rune (text t ∷ o ∷ os) h = refl
no_rune (int n i ∷ os) (h, hs) = absurd h
no_rune (rune r ∷ os) (h, hs) = absurd h
no_rune (other ∷ os) (h, hs) = absurd h

refused :
    (options : List Value) (check : Bytes → Bool) (err_fmt : Bytes) (val : Value)
    → ((v : Bytes) → check v ≡ false)
    → ¬ Accepts (validate_string options check err_fmt) val
unfolding validate_string
refused options check err_fmt (text v) h = rw (h v) (λ e. cc)
refused options check err_fmt (int n i) h = λ e. cc
refused options check err_fmt (rune r) h = λ e. cc
refused options check err_fmt other h = λ e. cc

-- The two rules for runes refuse every value, with the arguments of `def`.
unfoldable pub RefusesRune : RuleDefinition → Type 0
RefusesRune def =
    (val : Value)
    → (¬ Accepts (contains_rune def.args) val) × (¬ Accepts (excludes_rune def.args) val)

texts-RefusesRune : (def : RuleDefinition) → HasTexts def → RefusesRune def
unfolding contains_rune excludes_rune RefusesRune
texts-RefusesRune def h val =
    let none_left = no_rune def.args h in
    (
      refused def.args (λ v. with_rune def.args (contains_byte v))
          (codes "value must contain rune '%v'") val (λ v. rw (none_left, with_rune) refl),
      refused def.args (λ v. with_rune def.args (λ r. not (contains_byte v r)))
          (codes "value must not contain rune '%v'") val (λ v. rw (none_left, with_rune) refl),
    )

All-RefusesRune : (ps : List RuleDefinition) → All HasTexts ps → All RefusesRune ps
All-RefusesRune [] h = tt
All-RefusesRune (p ∷ ps) (h, hs) = (texts-RefusesRune p h, All-RefusesRune ps hs)

-- Whatever the text of the rules, `containsrune` and `excludesrune` refuse every value with the
-- arguments that are parsed from it.
pub parse_rules-RefusesRune : (rule_str : Bytes) → All RefusesRune (parse_rules rule_str)
unfolding parse_rules
parse_rules-RefusesRune rule_str =
    All-RefusesRune (parse_parts (split_on b',' rule_str))
      (parse_parts-HasTexts (split_on b',' rule_str))

-- `t` is a part of `v`.
unfoldable pub Occurs : Bytes → Bytes → Type 0
Occurs t v = (l : Bytes) × (r : Bytes) × (v ≡ l ++ (t ++ r))

has_prefix_sound : (s p : Bytes) → has_prefix s p ≡ true → (r : Bytes) × (s ≡ p ++ r)
has_prefix_sound s p h = elim (Option-cases (cut_prefix p s)) [
  | inl e ↦ let no : has_prefix s p ≡ false = rw (has_prefix, e) refl in absurd cc
  | inr (r, e) ↦ (r, cut_prefix→append p s r e)
]

has_prefix-append : (p r : Bytes) → has_prefix (p ++ r) p ≡ true
has_prefix-append p r = rw (has_prefix, cut_prefix-append p r) refl

contains_text_sound : (v t : Bytes) → contains_text v t ≡ true → Occurs t v
unfolding contains_text Occurs
contains_text_sound [] t h = let (r, e) = has_prefix_sound [] t h in ([], r, e)
contains_text_sound (c ∷ v) t h = elim (Bool-cases (has_prefix (c ∷ v) t)) [
  | inl first ↦ let (r, e) = has_prefix_sound (c ∷ v) t first in ([], r, e)
  | inr later ↦
      let (l, r, e) = contains_text_sound v t (ground arith) in (c ∷ l, r, ap (λ x. c ∷ x) e)
]

contains_text-first : (s t : Bytes) → has_prefix s t ≡ true → contains_text s t ≡ true
unfolding contains_text
contains_text-first [] t h = h
contains_text-first (c ∷ s) t h = ground arith

contains_text_complete : (l t r : Bytes) → contains_text (l ++ (t ++ r)) t ≡ true
unfolding contains_text
contains_text_complete [] t r = contains_text-first (t ++ r) t (has_prefix-append t r)
contains_text_complete (c ∷ l) t r = let later = contains_text_complete l t r in ground arith

contains_text-Occurs : (v t : Bytes) → (contains_text v t ≡ true) ↔ Occurs t v
unfolding Occurs
contains_text-Occurs v t = (
  contains_text_sound v t,
  λ (l, r, e). subst (λ x. contains_text x t ≡ true) (sym e) (contains_text_complete l t r),
)

-- A rule on texts passes what its check holds for.
accepts-check :
    (options : List Value) (check : Bytes → Bool) (err_fmt v : Bytes)
    → Accepts (validate_string options check err_fmt) (text v) ↔ (check v ≡ true)
unfolding validate_string
accepts-check options check err_fmt v = elim (Bool-cases (check v)) [
  | inl h ↦ rw h ((λ e. refl), (λ e. refl))
  | inr h ↦ rw h ((λ e. absurd cc), (λ e. absurd cc))
]

-- With one text as its argument, `contains` passes the texts that have it as a part, and `excludes`
-- those that do not.
pub contains-excludes :
    (t v : Bytes)
    → (Accepts (contains (text t ∷ [])) (text v) ↔ Occurs t v)
      × (Accepts (excludes (text t ∷ [])) (text v) ↔ (¬ Occurs t v))
unfolding contains excludes
contains-excludes t v =
    let (to, from) = contains_text-Occurs v t in
    let (in_check, out_check) =
      accepts-check (text t ∷ []) (λ v. contains_text v t) (codes "value must contain '%s'") v in
    let (in_not, out_not) =
      accepts-check (text t ∷ []) (λ v. not (contains_text v t))
        (codes "value must not contain '%s'") v in
    (
      ((λ h. to (in_check h)), (λ h. out_check (from h))),
      (
        (λ h occurs. let found = from occurs in let left_out = in_not h in ground arith),
        (λ h. out_not (elim (Bool-cases (contains_text v t)) [
          | inl found ↦ absurd (h (to found))
          | inr left_out ↦ ground arith
        ])),
      ),
    )
