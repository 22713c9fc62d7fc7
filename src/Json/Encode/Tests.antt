-- ===== src/Json/Encode/Tests.antt =====
-- Runs of the encoder.
use gofi.Prelude.{ℕ, ◌≡◌, refl, Bool, true, false, Option, none, some, [], ◌∷◌, ◌++◌, Bytes, codes}
use gofi.Json.{empty}
use gofi.Json.Encode.{
  Scalar, text_scalar, int_scalar, FieldTag, GoValue, scalar, map_of, struct_of, no_entries, entry,
  no_fields, field_of, EncodeInfo, EncodeRules, rules_for, no_more, prop_of, RulesPtr, no_rules,
  ptr_to, written, rejected, broke, Encoders, encode,
}

-- A float is given as its text.
abbrev convert_scalar : Scalar Bytes → Scalar Bytes → Option (Scalar Bytes)
convert_scalar (text_scalar d) (text_scalar s) = some (text_scalar d)
convert_scalar (int_scalar b d) (int_scalar c n) = some (int_scalar b d)
convert_scalar _ _ = none

abbrev go : Encoders Bytes
go = record {
  float_text = λ f. f;
  convert = convert_scalar;
  base64 = λ b. [];
  find_spec = λ f. none;
}

abbrev plain : Bytes → EncodeInfo Bytes
plain name = record {
  format = empty;
  def = none;
  rejects = [];
  field = name;
  field_name = name;
  tags = [];
}

abbrev leaf : EncodeInfo Bytes → EncodeRules Bytes
leaf info = rules_for info no_more no_rules no_rules

-- A struct with a name, whose default is "x", and an age that may be left out.
abbrev user_rules : RulesPtr Bytes
user_rules = ptr_to (
    rules_for (plain (codes "user"))
      (prop_of (leaf (record (plain (codes "name")) { def = some (text_scalar (codes "x")) })) (
        prop_of
          (leaf (record (plain (codes "age")) { tags = codes "age" ∷ codes "omitempty" ∷ [] }))
          no_more))
      no_rules no_rules)

abbrev tag : Bytes → FieldTag
tag name = record { field_name = name; json_tags = [] }

abbrev user : Bytes → ℕ → GoValue Bytes
user name age = struct_of (
    field_of (tag (codes "name")) (scalar (text_scalar name))
      (field_of (tag (codes "age")) (scalar (int_scalar false age)) no_fields))

user_default : encode go (user [] 0) user_rules ≡ written (codes "{\"name\":\"x\"}")
unfolding encode
user_default = refl

-- A struct without rules inside one whose rules name no properties.
nested_breaks :
    encode go
      (struct_of (field_of (tag (codes "user")) (user (codes "a") 7) no_fields))
      (ptr_to (leaf (plain [])))
    ≡ broke
unfolding encode
nested_breaks = refl

-- The rules of the values of a map are also those of its keys.
abbrev is_short_text : GoValue Bytes → Bool
is_short_text (scalar (text_scalar [])) = true
is_short_text (scalar (text_scalar (c ∷ []))) = true
is_short_text _ = false

key_is_validated :
    encode go (map_of (entry (some (codes "k")) (scalar (text_scalar (codes "long"))) no_entries)) (
      ptr_to (
        rules_for
          (plain [])
          no_more
          no_rules
          (ptr_to (leaf (record (plain []) { rejects = is_short_text ∷ [] })))))
    ≡ rejected
unfolding encode
key_is_validated = refl

-- A byte that is not UTF-8 is written as the replacement character.
invalid_byte_is_replaced :
    encode go (scalar (text_scalar (b'a' ∷ 255 ∷ b'b' ∷ []))) no_rules
    ≡ written (codes "\"a" ++ 239 ∷ 191 ∷ 189 ∷ codes "b\"")
unfolding encode
invalid_byte_is_replaced = refl
