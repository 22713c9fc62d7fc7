-- ===== src/Websocket/Payloads.antt =====
-- websocket/websocket.go: `validatePayloadSchema` with its cache of validators, which
-- websocket_contract.go has a second time. Reflection and `validators.Validate` are parameters.
pub mod Laws
use gofi.Prelude.{
  ℕ, Bool, true, false, not, Option, none, some, List, [], ◌∷◌, ◌++◌, if◌then◌else◌, Bytes, codes,
  length, ◌==◌,
}

-- A field of a struct type, with its `validate` tag.
pub record StructField : Type 0 where
  pub index : List ℕ
  pub tag : Bytes
  pub name : Bytes

pub record StructFieldRule : Type 0 where
  pub index : List ℕ
  pub rule : Bytes
  pub name : Bytes

pub data PayloadError (T : Type 0) : Type 0 where
  nil_payload nil_pointer : PayloadError T
  type_mismatch : T → T → PayloadError T
  not_struct : T → PayloadError T
  invalid_field : Bytes → Bytes → PayloadError T

-- What is used of package `reflect`: a value's type behind one pointer, whether two types are the
-- same, whether a type is a struct, its fields, whether a value is a nil pointer, and the field of a
-- value; `validate` is validators.Validate, with the text of its error.
pub record Reflection (T V : Type 0) : Type 0 where
  pub type_of : V → T
  pub same_type : T → T → Bool
  pub is_struct : T → Bool
  pub fields_of : T → List StructField
  pub is_nil : V → Bool
  pub field_by_index : V → List ℕ → V
  pub validate : V → Bytes → Option Bytes

-- `buildFieldRules`: the fields that have a tag.
unfoldable pub build_field_rules : List StructField → List StructFieldRule
build_field_rules [] = []
build_field_rules (f ∷ fs) =
    let rules = build_field_rules fs in
    if length f.tag == 0
    then rules
    else record { index = f.index; rule = f.tag; name = f.name } ∷ rules

-- `structValidatorCache`
abbrev pub Cache : Type 0 → Type 0
Cache T = List (T × List StructFieldRule)

module _ {T V : Type 0} (go : Reflection T V) where
  unfoldable pub load : Cache T → T → Option (List StructFieldRule)
  load [] t = none
  load ((u, rules) ∷ cache) t =
      let later = load cache t in if go.same_type u t then some rules else later

  -- `getCachedStructValidator`: the validator, or none for a type that is no struct, and the cache.
  unfoldable pub get_cached_struct_validator : Cache T → T → Option (List StructFieldRule) × Cache T
  unfolding load build_field_rules
  get_cached_struct_validator cache t =
      if not (go.is_struct t) then (none, cache) else elim (load cache t) [
        | some rules ↦ (some rules, cache)
        | none ↦ (
          some (build_field_rules (go.fields_of t)),
          (t, build_field_rules (go.fields_of t)) ∷ cache,
        )
      ]

  -- The loop of `validate`, up to the first field that fails.
  unfoldable pub validate_fields : List StructFieldRule → V → Option (PayloadError T)
  validate_fields [] v = none
  validate_fields (f ∷ fs) v =
      let rest = validate_fields fs v in
      elim (go.validate (go.field_by_index v f.index) f.rule) [
        | some err ↦ some (invalid_field f.name err)
        | none ↦ rest
      ]

  abbrev pub validate_struct : List StructFieldRule → V → Option (PayloadError T)
  validate_struct rules v = if go.is_nil v then some nil_pointer else validate_fields rules v

  -- What is done with the validator of the payload's type.
  abbrev pub with_validator :
      T → V → Option (List StructFieldRule) × Cache T → Option (PayloadError T) × Cache T
  with_validator t v (none, cache) = (some (not_struct t), cache)
  with_validator t v (some rules, cache) = (validate_struct rules v, cache)

  -- `validatePayloadSchema`; the schema and the payload may be nil.
  unfoldable pub validate_payload_schema :
      Cache T → Option V → Option V → Option (PayloadError T) × Cache T
  unfolding get_cached_struct_validator validate_fields
  validate_payload_schema cache payload none = (none, cache)
  validate_payload_schema cache none (some schema) = (some nil_payload, cache)
  validate_payload_schema cache (some v) (some schema) =
      let t = go.type_of v in
      if not (go.same_type t (go.type_of schema))
      then (some (type_mismatch (go.type_of schema) t), cache)
      else with_validator t v (get_cached_struct_validator cache t)
