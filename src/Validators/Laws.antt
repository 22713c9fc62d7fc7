-- ===== src/Validators/Laws.antt =====
-- validators/validator.go, `Validate`: the rules of a text, one behind the other.
use gofi.Prelude.{
  ℕ, ◌≡◌, refl, sym, ap, ◌∙◌, inl, inr, true, false, Option, none, some, List, [], ◌∷◌, ◌++◌,
  append_assoc, arith, ◌==◌, Bytes, length, Bool-cases,
}
use gofi.Prelude.{split_on, trim_space}
use gofi.Validators.{
  Value, RuleError, RuleDefinition, Table, parse_part, parse_parts, parse_rules, no_table,
  first_error, new_context_validator_fn, validate_all, validate,
}

split_on-filled :
    (sep : ℕ) (s : Bytes) → (w : Bytes) × (ws : List Bytes) × (split_on sep s ≡ w ∷ ws)
unfolding split_on
split_on-filled sep [] = ([], [], refl)
split_on-filled sep (c ∷ s) =
    let (w, ws, e) = split_on-filled sep s in
    elim (Bool-cases (c == sep)) [
      | inl h ↦ ([], split_on sep s, rw h refl)
      | inr h ↦ (c ∷ w, ws, rw (h, e) refl)
    ]

split_on-append :
    (sep : ℕ) (a b : Bytes) → split_on sep (a ++ sep ∷ b) ≡ split_on sep a ++ split_on sep b
unfolding split_on
split_on-append sep [] b = let same : (sep == sep) ≡ true = ground arith in rw same refl
split_on-append sep (c ∷ a) b =
    let ih = split_on-append sep a b in
    let (w, ws, e) = split_on-filled sep a in
    elim (Bool-cases (c == sep)) [ inl h ↦ rw (h, ih) refl | inr h ↦ rw (h, ih, e) refl ]

parse_parts-append :
    (ps qs : List Bytes) → parse_parts (ps ++ qs) ≡ parse_parts ps ++ parse_parts qs
parse_parts-append [] qs = refl
parse_parts-append (p ∷ ps) qs =
    ap (λ x. parse_part (trim_space p) ++ x) (parse_parts-append ps qs)
    ∙ sym (append_assoc (parse_part (trim_space p)) (parse_parts ps) (parse_parts qs))

first_error_assoc :
    (x y z : Option RuleError) → first_error x (first_error y z) ≡ first_error (first_error x y) z
first_error_assoc none y z = refl
first_error_assoc (some err) y z = refl

validate_all-append :
    (validators : Table) (val : Value) (xs ys : List RuleDefinition)
    → validate_all validators val (xs ++ ys)
      ≡ first_error (validate_all validators val xs) (validate_all validators val ys)
unfolding validate_all
validate_all-append validators val [] ys = refl
validate_all-append validators val (def ∷ xs) ys =
    let rule = new_context_validator_fn validators no_table def.name def.args val in
    ap (first_error rule) (validate_all-append validators val xs ys)
    ∙ first_error_assoc rule (validate_all validators val xs) (validate_all validators val ys)

validate-parsed :
    (validators : Table) (val : Value) (s : Bytes)
    → validate validators val s ≡ validate_all validators val (parse_rules s)
unfolding validate parse_rules split_on trim_space validate_all
validate-parsed validators val [] = refl
validate-parsed validators val (c ∷ s) =
    let filled : (length (c ∷ s) == 0) ≡ false = ground arith in rw filled refl

-- The rules of a text of two parts with a comma between them are those of the first part, then those
-- of the second: the error is that of the first part, and where it has none, that of the second.
pub validate-append :
    (validators : Table) (val : Value) (a b : Bytes)
    → validate validators val (a ++ b',' ∷ b)
      ≡ first_error (validate validators val a) (validate validators val b)
unfolding parse_rules
validate-append validators val a b =
    let parsed : parse_rules (a ++ b',' ∷ b) ≡ parse_rules a ++ parse_rules b =
      ap parse_parts (split_on-append b',' a b)
      ∙ parse_parts-append (split_on b',' a) (split_on b',' b) in
    rw
      (
        validate-parsed validators val (a ++ b',' ∷ b),
        validate-parsed validators val a,
        validate-parsed validators val b,
        parsed,
      )
      (validate_all-append validators val (parse_rules a) (parse_rules b))
