-- ===== src/Json/Encode.antt =====
-- bodyparser_json.go, `encodeFieldValue`: a Go value as a JSON text.
pub mod Runes
pub mod Grammar
pub mod Parts
pub mod Steps
pub mod Laws
mod Tests
use gofi.Prelude.{
  ℕ, ◌+◌, Bool, true, false, not, ◌&&◌, ◌||◌, Option, none, some, List, [], ◌∷◌, ◌++◌, ◌==◌,
  if◌then◌else◌, Bytes, bytes_eq, codes, itoa, any,
}
use gofi.Errors.{escape}
use gofi.Json.Encode.Runes.{valid_from}
use gofi.Json.{ObjectFormat, time_object}

-- The values that have no parts. An integer is a sign and a number.
pub data Scalar (F : Type 0) : Type 0 where
  text_scalar : Bytes → Scalar F
  int_scalar : Bool → ℕ → Scalar F
  uint_scalar : ℕ → Scalar F
  float_scalar : F → Scalar F
  bool_scalar : Bool → Scalar F

-- What `reflect.VisibleFields` tells of a field that is no promoted embedded one: its name, and the
-- parts of its json tag.
pub record FieldTag : Type 0 where
  pub field_name : Bytes
  pub json_tags : List Bytes

-- reflect.Value, by its kind. `nil_value` is an invalid value. A marshaler, which
-- time.Time is also, may be empty or nil, and gives a text or an error. The key of an entry is
-- `none` where it is not a string.
mutual
  pub data GoValue (F : Type 0) : Type 0 where
    nil_value nil_pointer nil_interface : GoValue F
    scalar : Scalar F → GoValue F
    marshaler : Bool → Bool → Option Bytes → GoValue F
    byte_slice : Option Bytes → GoValue F
    slice_of : GoValues F → GoValue F
    map_of : Entries F → GoValue F
    struct_of : StructFields F → GoValue F
    pointer_to interface_of : GoValue F → GoValue F

  pub data GoValues (F : Type 0) : Type 0 where
    no_values : GoValues F
    value_at : GoValue F → GoValues F → GoValues F

  pub data Entries (F : Type 0) : Type 0 where
    no_entries : Entries F
    entry : Option Bytes → GoValue F → Entries F → Entries F

  pub data StructFields (F : Type 0) : Type 0 where
    no_fields : StructFields F
    field_of : FieldTag → GoValue F → StructFields F → StructFields F

-- `RuleDef`: its own parts. `def` is defVal where defStr is not empty, and `tags` is tags["json"].
pub record EncodeInfo (F : Type 0) : Type 0 where
  pub format : ObjectFormat
  pub def : Option (Scalar F)
  pub rejects : List (GoValue F → Bool)
  pub field : Bytes
  pub field_name : Bytes
  pub tags : List Bytes

-- `RuleDef` with the rules below it, and *RuleDef
mutual
  pub data EncodeRules (F : Type 0) : Type 0 where
    rules_for : EncodeInfo F → EncodeProps F → RulesPtr F → RulesPtr F → EncodeRules F

  pub data EncodeProps (F : Type 0) : Type 0 where
    no_more : EncodeProps F
    prop_of : EncodeRules F → EncodeProps F → EncodeProps F

  pub data RulesPtr (F : Type 0) : Type 0 where
    no_rules : RulesPtr F
    ptr_to : EncodeRules F → RulesPtr F

pub data Encoded : Type 0 where
  written : Bytes → Encoded
  rejected broke : Encoded

-- What the code calls: strconv.AppendFloat, reflect's Convert of a default to the type of a value,
-- base64 and the encoders of custom specs.
pub record Encoders (F : Type 0) : Type 0 where
  pub float_text : F → Bytes
  pub convert : Scalar F → Scalar F → Option (Scalar F)
  pub base64 : Bytes → Bytes
  pub find_spec : ObjectFormat → Option (GoValue F → Option Bytes)

-- One text behind the other.
abbrev pub then_write : Encoded → Encoded → Encoded
then_write (written a) (written b) = written (a ++ b)
then_write (written a) e = e
then_write e f = e

-- `encodeString`. The cases of its switch are those of `escape`; they are single bytes in UTF-8.
unfoldable pub encode_string : Bytes → Bytes
unfolding escape valid_from
encode_string s = b'"' ∷ (escape (valid_from 0 s) ++ b'"' ∷ [])

abbrev pub comma : Bool → Bytes
comma first = if first then [] else b',' ∷ []

abbrev pub has_tag : Bytes → List Bytes → Bool
has_tag tag tags = any (λ t. bytes_eq t tag) tags

-- The text in front of a field.
abbrev pub key_text : Bytes → Bytes
key_text name = b'"' ∷ (name ++ codes "\":")

-- var name: the first part of the tag, or the name of the field
abbrev pub tag_name : FieldTag → Bytes
tag_name tag = elim tag.json_tags [
  | [] ↦ tag.field_name
  | [] ∷ ts ↦ tag.field_name
  | (c ∷ t) ∷ ts ↦ c ∷ t
]

module _ {F : Type 0} where
  abbrev pub empty_scalar : Scalar F → Bool
  empty_scalar (text_scalar []) = true
  empty_scalar (int_scalar negative n) = n == 0
  empty_scalar (bool_scalar b) = not b
  empty_scalar _ = false

  -- `isEmptyValue`
  abbrev pub is_empty_value : GoValue F → Bool
  is_empty_value nil_pointer = true
  is_empty_value nil_interface = true
  is_empty_value (scalar s) = empty_scalar s
  is_empty_value (marshaler is_empty is_nil raw) = is_empty
  is_empty_value (byte_slice none) = true
  is_empty_value (byte_slice (some [])) = true
  is_empty_value (slice_of no_values) = true
  is_empty_value (map_of no_entries) = true
  is_empty_value _ = false

  abbrev pub encode_info : EncodeRules F → EncodeInfo F
  encode_info (rules_for info props item more) = info

  abbrev pub item_of : RulesPtr F → RulesPtr F
  item_of no_rules = no_rules
  item_of (ptr_to (rules_for info props item more)) = item

  abbrev pub more_of : RulesPtr F → RulesPtr F
  more_of no_rules = no_rules
  more_of (ptr_to (rules_for info props item more)) = more

  abbrev pub default_ptr : RulesPtr F → Option (Scalar F)
  default_ptr no_rules = none
  default_ptr (ptr_to (rules_for info props item more)) = info.def

  -- `runValidation`
  abbrev pub rejects : RulesPtr F → GoValue F → Bool
  rejects no_rules v = false
  rejects (ptr_to (rules_for info props item more)) v = any (λ r. r v) info.rejects

  abbrev pub left_out : List Bytes → GoValue F → Bool
  left_out tags v =
      (has_tag (codes "omitempty") tags && is_empty_value v) || has_tag (codes "-") tags

-- A field with what the encoder makes of it under some rules.
pub record FieldEncoder (F : Type 0) : Type 0 where
  pub name : Bytes
  pub content : GoValue F
  pub encoder : RulesPtr F → Encoded

module _ {F : Type 0} (go : Encoders F) where
  abbrev pub scalar_text : Scalar F → Bytes
  scalar_text (text_scalar s) = encode_string s
  scalar_text (int_scalar false n) = itoa n
  scalar_text (int_scalar true n) = b'-' ∷ itoa n
  scalar_text (uint_scalar n) = itoa n
  scalar_text (float_scalar f) = go.float_text f
  scalar_text (bool_scalar true) = codes "true"
  scalar_text (bool_scalar false) = codes "false"

  abbrev pub spec_text : Option Bytes → Encoded
  spec_text none = rejected
  spec_text (some s) = written (encode_string s)

  abbrev pub spec_or : Option (GoValue F → Option Bytes) → GoValue F → Encoded → Encoded
  spec_or none v e = e
  spec_or (some encode) v e = spec_text (encode v)

  abbrev pub by_spec : RulesPtr F → GoValue F → Encoded → Encoded
  by_spec no_rules v e = e
  by_spec (ptr_to (rules_for info props item more)) v e = spec_or (go.find_spec info.format) v e

  -- The validators, then the encoder of a custom spec, then that of the kind.
  abbrev pub check_first : RulesPtr F → GoValue F → Encoded → Encoded
  check_first r v e = if rejects r v then rejected else by_spec r v e

  -- A default in the place of an empty scalar; where it cannot be converted, reflect panics.
  abbrev pub filled : Option (Scalar F) → Scalar F → Option (Scalar F)
  filled none s = some s
  filled (some d) s = if empty_scalar s then go.convert d s else some s

  abbrev pub encode_filled : RulesPtr F → Option (Scalar F) → Encoded
  encode_filled r none = broke
  encode_filled r (some s) = check_first r (scalar s) (written (scalar_text s))

  abbrev pub encode_scalar : RulesPtr F → Scalar F → Encoded
  encode_scalar r s = encode_filled r (filled (default_ptr r) s)

  -- A default has the type of a scalar, so that reflect panics at an empty value of another kind.
  abbrev pub unless_default : Option (Scalar F) → RulesPtr F → GoValue F → Encoded → Encoded
  unless_default none r v e = check_first r v e
  unless_default (some d) r v e = if is_empty_value v then broke else check_first r v e

  abbrev pub unless_filled : RulesPtr F → GoValue F → Encoded → Encoded
  unless_filled r v e = unless_default (default_ptr r) r v e

  abbrev pub marshaled : Bool → Option Bytes → Encoded
  marshaled true raw = written (codes "null")
  marshaled false none = rejected
  marshaled false (some raw) = written raw

  abbrev pub encode_bytes : Option Bytes → Encoded
  encode_bytes none = written (codes "null")
  encode_bytes (some b) = written (encode_string (go.base64 b))

  -- A default text is converted to a slice of bytes, and any default to an interface.
  abbrev pub filled_bytes : Option (Scalar F) → Option Bytes → Option (Option Bytes)
  filled_bytes none b = some b
  filled_bytes (some d) (some (c ∷ b)) = some (some (c ∷ b))
  filled_bytes (some (text_scalar t)) _ = some (some t)
  filled_bytes (some _) _ = none

  abbrev pub encode_filled_bytes : RulesPtr F → Option (Option Bytes) → Encoded
  encode_filled_bytes r none = broke
  encode_filled_bytes r (some b) = check_first r (byte_slice b) (encode_bytes b)

  abbrev pub encode_nil : RulesPtr F → Encoded
  encode_nil r = if rejects r nil_value then rejected else written (codes "null")

  abbrev pub encode_nil_interface : RulesPtr F → Option (Scalar F) → Encoded
  encode_nil_interface r none = encode_nil r
  encode_nil_interface r (some d) = check_first r (interface_of (scalar d)) (encode_scalar r d)

  abbrev pub enclose : ℕ → Encoded → ℕ → Encoded
  enclose l e r = then_write (written (l ∷ [])) (then_write e (written (r ∷ [])))

  -- FieldByIndex, FieldByName
  abbrev pub find_field : List (FieldEncoder F) → Bytes → FieldEncoder F
  find_field [] name = record { name = name; content = nil_value; encoder = encode_nil }
  find_field (f ∷ fs) name =
      let rest = find_field fs name in if bytes_eq f.name name then f else rest

  -- The loop over `orderedProps` in `encodeStruct`.
  unfoldable pub encode_props : List (FieldEncoder F) → EncodeProps F → Bool → Encoded
  encode_props fs no_more first = written []
  encode_props fs (prop_of rules props) first =
      let info = encode_info rules in
      let f = find_field fs info.field_name in
      let skipped = encode_props fs props first in
      let rest = encode_props fs props false in
      if left_out info.tags f.content
      then skipped
      else then_write (written (comma first ++ key_text info.field))
          (then_write (f.encoder (ptr_to rules)) rest)

  -- The case of a struct. Without rules the code dereferences nil; a time is a marshaler, so that a
  -- struct with the format of times is none.
  abbrev pub is_time : ObjectFormat → Bool
  is_time time_object = true
  is_time _ = false

  abbrev pub encode_by_props : EncodeProps F → List (FieldEncoder F) → Encoded → Encoded
  encode_by_props no_more fs slow = slow
  encode_by_props (prop_of rules props) fs slow = encode_props fs (prop_of rules props) true

  abbrev pub encode_struct : RulesPtr F → List (FieldEncoder F) → Encoded → Encoded
  encode_struct no_rules fs slow = broke
  encode_struct (ptr_to (rules_for info props item more)) fs slow =
      if is_time info.format then rejected else enclose b'{' (encode_by_props props fs slow) b'}'

  -- `encodeFieldValue`, with `encodeArr`, `encodeMap` and the slow path of `encodeStruct`
  unfoldable mutual
    unfolding encode_string itoa encode_props

    pub encode : GoValue F → RulesPtr F → Encoded
    encode nil_value r = encode_nil r
    encode nil_pointer r = unless_filled r nil_pointer (encode_nil r)
    encode nil_interface r = encode_nil_interface r (default_ptr r)
    encode (scalar s) r = encode_scalar r s
    encode (marshaler is_empty is_nil raw) r =
        unless_filled r (marshaler is_empty is_nil raw) (marshaled is_nil raw)
    encode (byte_slice b) r = encode_filled_bytes r (filled_bytes (default_ptr r) b)
    encode (slice_of vs) r =
        unless_filled r (slice_of vs) (enclose b'[' (encode_values vs (item_of r) true) b']')
    encode (map_of es) r =
        unless_filled r (map_of es) (enclose b'{' (encode_entries es (more_of r) true) b'}')
    encode (struct_of fs) r =
        check_first r (struct_of fs) (encode_struct r (field_encoders fs) (encode_fields fs true))
    encode (pointer_to v) r = check_first r (pointer_to v) (encode v r)
    encode (interface_of v) r = check_first r (interface_of v) (encode v r)

    pub encode_values : GoValues F → RulesPtr F → Bool → Encoded
    encode_values no_values r first = written []
    encode_values (value_at v vs) r first =
        then_write (written (comma first)) (then_write (encode v r) (encode_values vs r false))

    pub encode_entries : Entries F → RulesPtr F → Bool → Encoded
    encode_entries no_entries r first = written []
    encode_entries (entry none v es) r first = rejected
    encode_entries (entry (some k) v es) r first = then_write (written (comma first)) (
        then_write (encode_scalar r (text_scalar k))
          (then_write (written (b':' ∷ [])) (then_write (encode v r) (encode_entries es r false))))

    pub encode_fields : StructFields F → Bool → Encoded
    encode_fields no_fields first = written []
    encode_fields (field_of tag v fs) first =
        let skipped = encode_fields fs first in
        let rest = encode_fields fs false in
        if left_out tag.json_tags v
        then skipped
        else then_write (written (comma first ++ key_text (tag_name tag)))
            (then_write (encode v no_rules) rest)

    pub field_encoders : StructFields F → List (FieldEncoder F)
    field_encoders no_fields = []
    field_encoders (field_of tag v fs) =
        record { name = tag.field_name; content = v; encoder = encode v } ∷ field_encoders fs
