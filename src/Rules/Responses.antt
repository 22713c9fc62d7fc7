-- ===== src/Rules/Responses.antt =====
-- rules.go: the choice of the response rules, as a list of fields of which the first that is defined counts.
use gofi.Prelude.{
  ℕ, ◌≡◌, inl, inr, refl, ◌∙◌, sym, ap, Bool, true, false, not, ◌&&◌, Option, none, some, List, [],
  ◌∷◌, ◌++◌, arith, if◌then◌else◌, Bytes, bytes_eq, codes, All, Option-cases,
}
use gofi.Store.{Items, get}
use gofi.Rules.Statuses.{statuses, build_table, find_code, status_field}
use gofi.Rules.{or_field, between, handle_defaults, get_resp_rules_by_code}

-- The fields that a class of status codes looks at, in order, for the five tests of the class.
abbrev class_list : Bool → Bool → Bool → Bool → Bool → List Bytes
class_list a b c d e =
    if a
    then codes "Informational" ∷ []
    else if b
    then codes "Success" ∷ []
    else if c
    then codes "Redirect" ∷ []
    else if d
    then codes "Redirect" ∷ codes "Err" ∷ []
    else if e
    then codes "Err" ∷ []
    else []

abbrev class_fields : ℕ → List Bytes
class_fields code =
    class_list (between 100 code 199) (between 200 code 299) (between 300 code 399)
      (between 400 code 499) (between 500 code 599)

-- The fields for a code: its own, those of its class, and the default.
abbrev pub candidates : ℕ → List Bytes
candidates code = elim (status_field code) [
  | some field ↦ field ∷ class_fields code ++ codes "Default" ∷ []
  | none ↦ class_fields code ++ codes "Default" ∷ []
]

-- No field of the table is the given one.
abbrev is_no_field : Bytes → List (ℕ × Bytes) → Bool
is_no_field name [] = true
is_no_field name ((c, field) ∷ table) = not (bytes_eq name field) && is_no_field name table

find_code-differs :
    (name : Bytes) (table : List (ℕ × Bytes)) (code : ℕ) (field : Bytes)
    → is_no_field name table ≡ true
    → find_code table code ≡ some field
    → bytes_eq name field ≡ false
find_code-differs name [] code field h found = cc
find_code-differs name ((c, f) ∷ table) code field h found =
    ground (arith, find_code-differs name table code field)

-- A name that differs from all the fields of the classes.
abbrev Unclassed : Bytes → Type 0
Unclassed name =
    All (λ f. bytes_eq name f ≡ false)
      (codes "Informational"
        ∷ codes "Success"
        ∷ codes "Redirect"
        ∷ codes "Err"
        ∷ codes "Default"
        ∷ [])

class_list-differs :
    (name : Bytes) (a b c d e : Bool)
    → Unclassed name
    → All (λ f. bytes_eq name f ≡ false) (class_list a b c d e ++ codes "Default" ∷ [])
class_list-differs name true b c d e (p, (q, (r, (s, (t, u))))) = (p, (t, tt))
class_list-differs name false true c d e (p, (q, (r, (s, (t, u))))) = (q, (t, tt))
class_list-differs name false false true d e (p, (q, (r, (s, (t, u))))) = (r, (t, tt))
class_list-differs name false false false true e (p, (q, (r, (s, (t, u))))) = (r, (s, (t, tt)))
class_list-differs name false false false false true (p, (q, (r, (s, (t, u))))) = (s, (t, tt))
class_list-differs name false false false false false (p, (q, (r, (s, (t, u))))) = (t, tt)

status_field-differs :
    (name : Bytes) (code : ℕ) (field : Bytes)
    → is_no_field name (build_table statuses) ≡ true
    → status_field code ≡ some field
    → bytes_eq name field ≡ false
unfolding status_field
status_field-differs name code field = find_code-differs name (build_table statuses) code field

candidates-differ :
    (name : Bytes) (code : ℕ)
    → is_no_field name (build_table statuses) ≡ true
    → Unclassed name
    → All (λ f. bytes_eq name f ≡ false) (candidates code)
candidates-differ name code no_field h =
    let class =
      class_list-differs name (between 100 code 199) (between 200 code 299) (between 300 code 399)
        (between 400 code 499) (between 500 code 599) h in
    elim (Option-cases (status_field code)) [
      | inl e ↦ rw (e, candidates) class
      | inr (field, e) ↦ rw (e, candidates) (status_field-differs name code field no_field e, class)
    ]

module _ {R : Type 0} where
  unfoldable pub first_defined : Items R → List Bytes → Option (Bytes × R)
  first_defined responses [] = none
  first_defined responses (f ∷ fs) = or_field responses f (first_defined responses fs)

  or_field-none :
      (responses : Items R) (f : Bytes) (next : Option (Bytes × R))
      → get responses f ≡ none
      → or_field responses f next ≡ next
  or_field-none responses f next e = rw (e, or_field) refl

  or_field-some :
      (responses : Items R) (f : Bytes) (r : R) (next : Option (Bytes × R))
      → get responses f ≡ some r
      → or_field responses f next ≡ some (f, r)
  or_field-some responses f r next e = rw (e, or_field) refl

  or_field-twice :
      (responses : Items R) (f : Bytes) (next : Option (Bytes × R))
      → or_field responses f (or_field responses f next) ≡ or_field responses f next
  or_field-twice responses f next = elim (Option-cases (get responses f)) [
    | inl e ↦ or_field-none responses f _ e
    | inr (r, e) ↦ or_field-some responses f r _ e ∙ sym (or_field-some responses f r next e)
  ]

  -- The five classes, as Boolean values.
  by_class :
      (responses : Items R) (a b c d e : Bool)
      → (let default = or_field responses (codes "Default") none in
          if a
          then or_field responses (codes "Informational") default
          else if b
          then or_field responses (codes "Success") default
          else if c
          then or_field responses (codes "Redirect") default
          else if d
          then or_field responses (codes "Redirect") (or_field responses (codes "Err") default)
          else if e
          then or_field responses (codes "Err") (or_field responses (codes "Err") default)
          else default)
        ≡ first_defined responses (class_list a b c d e ++ codes "Default" ∷ [])
  unfolding first_defined
  by_class responses true b c d e = refl
  by_class responses false true c d e = refl
  by_class responses false false true d e = refl
  by_class responses false false false true e = refl
  by_class responses false false false false true = or_field-twice responses (codes "Err") _
  by_class responses false false false false false = refl

  handle_defaults-first :
      (responses : Items R) (code : ℕ)
      → handle_defaults responses code
        ≡ first_defined responses (class_fields code ++ codes "Default" ∷ [])
  unfolding handle_defaults
  handle_defaults-first responses code =
      by_class responses (between 100 code 199) (between 200 code 299) (between 300 code 399)
        (between 400 code 499) (between 500 code 599)

  -- The rules for a code are those of the first of its candidates that the schema defines.
  pub get_resp_rules_by_code-first :
      (responses : Items R) (code : ℕ)
      → get_resp_rules_by_code responses code ≡ first_defined responses (candidates code)
  unfolding get_resp_rules_by_code first_defined
  get_resp_rules_by_code-first responses code = elim (Option-cases (status_field code)) [
    | inl e ↦ rw (e, candidates, get_resp_rules_by_code) (handle_defaults-first responses code)
    | inr (field, e) ↦
        rw (e, candidates, get_resp_rules_by_code)
          (ap (or_field responses field) (handle_defaults-first responses code))
  ]

  first_defined-none :
      (name : Bytes) (r : R) (fields : List Bytes)
      → All (λ f. bytes_eq name f ≡ false) fields
      → first_defined ((name, r) ∷ []) fields ≡ none
  unfolding first_defined get
  first_defined-none name r [] h = refl
  first_defined-none name r (f ∷ fields) (ne, h) =
      ground (arith, first_defined-none name r fields h)

  -- A schema that has only rules for "ClientError", or only for "ServerError", has no rules for any
  -- code.
  pub class_errors_ignored :
      (r : R) (code : ℕ)
      → (get_resp_rules_by_code ((codes "ClientError", r) ∷ []) code ≡ none)
        × (get_resp_rules_by_code ((codes "ServerError", r) ∷ []) code ≡ none)
  class_errors_ignored r code = (
    get_resp_rules_by_code-first _ code
        ∙ first_defined-none (codes "ClientError") r (candidates code) (
            candidates-differ (codes "ClientError") code refl
              (refl, (refl, (refl, (refl, (refl, tt)))))),
    get_resp_rules_by_code-first _ code
        ∙ first_defined-none (codes "ServerError") r (candidates code) (
            candidates-differ (codes "ServerError") code refl
              (refl, (refl, (refl, (refl, (refl, tt)))))),
  )
