-- ===== src/Json/Encode/Grammar.antt =====
-- JSON texts without space between their parts (RFC 8259), and the values whose parts are texts of it.
use gofi.Prelude.{
  ℕ, ◌≡◌, Bool, true, false, not, ◌&&◌, Option, none, some, [], ◌∷◌, ◌++◌, ◌==◌, leb, if◌then◌else◌,
  Bytes, All,
}
use gofi.Prelude.{itoa, codes, bytes_eq, ◌||◌}
use gofi.Errors.Json.{read_string, IsPrintable}
use gofi.Json.{ObjectFormat}
use gofi.Json.Encode.{
  nil_interface, filled, default_ptr, item_of, more_of, encode_info, Scalar, text_scalar,
  float_scalar, GoValue, scalar, marshaler, slice_of, map_of, struct_of, pointer_to, interface_of,
  GoValues, no_values, value_at, Entries, no_entries, entry, StructFields, no_fields, field_of,
  EncodeRules, rules_for, EncodeProps, no_more, prop_of, RulesPtr, no_rules, ptr_to, Encoders,
  tag_name,
}

-- A string, with its quotes.
pub data IsText : Bytes → Type 0 where
  text : (t s : Bytes) → read_string false t ≡ some (s, []) → IsText (b'"' ∷ t)

-- A number that is no integer: its digits, with one point at most between them.
abbrev pub is_digits : Bool → Bytes → Bool
is_digits point [] = false
is_digits point (c ∷ []) = leb b'0' c && leb c b'9'
is_digits point (c ∷ d ∷ s) =
    let tail_digits = is_digits point (d ∷ s) in
    let behind_point = is_digits true s in
    leb b'0' c && leb c b'9' && (if not point && d == b'.' then behind_point else tail_digits)

-- A zero starts a number only in front of a point, or alone.
abbrev pub starts_number : Bytes → Bool
starts_number (c ∷ d ∷ s) = not (c == b'0') || d == b'.'
starts_number _ = true

abbrev pub is_unsigned : Bytes → Bool
is_unsigned s = starts_number s && is_digits false s

abbrev pub is_decimal : Bytes → Bool
is_decimal [] = false
is_decimal (c ∷ s) = if c == b'-' then is_unsigned s else is_unsigned (c ∷ s)

mutual
  pub data IsJson : Bytes → Type 0 where
    null_json : IsJson (codes "null")
    true_json : IsJson (codes "true")
    false_json : IsJson (codes "false")
    integer_json : (n : ℕ) → IsJson (itoa n)
    negative_json : (n : ℕ) → IsJson (b'-' ∷ itoa n)
    decimal_json : (b : Bytes) → is_decimal b ≡ true → IsJson b
    text_json : {b : Bytes} → IsText b → IsJson b
    array_json : {b : Bytes} → IsElements b → IsJson (b'[' ∷ (b ++ b']' ∷ []))
    object_json : {b : Bytes} → IsMembers b → IsJson (b'{' ∷ (b ++ b'}' ∷ []))

  pub data IsElements : Bytes → Type 0 where
    no_elements : IsElements []
    elements : {b t : Bytes} → IsJson b → IsTail t → IsElements (b ++ t)

  pub data IsTail : Bytes → Type 0 where
    no_tail : IsTail []
    tail : {b t : Bytes} → IsJson b → IsTail t → IsTail (b',' ∷ (b ++ t))

  pub data IsMembers : Bytes → Type 0 where
    no_members : IsMembers []
    members :
        {k b t : Bytes} → IsText k → IsJson b → IsTailOfMembers t → IsMembers (k ++ b':' ∷ (b ++ t))

  pub data IsTailOfMembers : Bytes → Type 0 where
    no_members_left : IsTailOfMembers []
    next_members :
        {k b t : Bytes}
        → IsText k
        → IsJson b
        → IsTailOfMembers t
        → IsTailOfMembers (b',' ∷ (k ++ b':' ∷ (b ++ t)))

-- A byte that a JSON string holds as it is.
abbrev pub IsPlain : ℕ → Type 0
IsPlain c = ((leb 32 c && not (c == b'"') && not (c == b'\\')) ≡ true)

abbrev pub CleanName : Bytes → Type 0
CleanName = All IsPlain

abbrev pub CleanText : Bytes → Type 0
CleanText = All IsPrintable

module _ {F : Type 0} (go : Encoders F) where
  abbrev pub CleanScalar : Scalar F → Type 0
  CleanScalar (text_scalar s) = CleanText s
  CleanScalar (float_scalar f) = (is_decimal (go.float_text f) ≡ true)
  CleanScalar _ = Unit

  abbrev pub CleanRaw : Option Bytes → Type 0
  CleanRaw none = Unit
  CleanRaw (some raw) = IsJson raw

  -- A scalar with its default; where there is none, nothing is written.
  abbrev pub CleanFilled : Option (Scalar F) → Type 0
  CleanFilled none = Unit
  CleanFilled (some s) = CleanScalar s

  abbrev pub CleanNil : RulesPtr F → Option (Scalar F) → Type 0
  CleanNil r none = Unit
  CleanNil r (some d) = CleanFilled (filled go (default_ptr r) d)

  -- The value of the field of a name, by a predicate on a value under rules.
  abbrev pub IfNamed : Bool → Type 0 → Type 0 → Type 0
  IfNamed true P Q = P
  IfNamed false P Q = Q

  abbrev pub PropsClean : (Bytes → RulesPtr F → Type 0) → EncodeProps F → Type 0
  PropsClean found no_more = Unit
  PropsClean found (prop_of rules props) =
      found (encode_info rules).field_name (ptr_to rules) × PropsClean found props

  abbrev pub props_of : RulesPtr F → EncodeProps F
  props_of no_rules = no_more
  props_of (ptr_to (rules_for info props item more)) = props

  -- The texts of a value under its rules, with their defaults in place, have no control byte but \t,
  -- \n and \r, its numbers are finite, its marshalers write JSON, and the names of its fields need no
  -- escape.
  unfoldable mutual
    pub CleanValue : GoValue F → RulesPtr F → Type 0
    CleanValue nil_interface r = CleanNil r (default_ptr r)
    CleanValue (scalar s) r = CleanFilled (filled go (default_ptr r) s)
    CleanValue (marshaler is_empty is_nil raw) r = CleanRaw raw
    CleanValue (slice_of vs) r = CleanValues vs (item_of r)
    CleanValue (map_of es) r = CleanEntries es (more_of r)
    CleanValue (struct_of fs) r = PropsClean (CleanFound fs) (props_of r) × CleanFields fs
    CleanValue (pointer_to v) r = CleanValue v r
    CleanValue (interface_of v) r = CleanValue v r
    CleanValue _ r = Unit

    pub CleanValues : GoValues F → RulesPtr F → Type 0
    CleanValues no_values r = Unit
    CleanValues (value_at v vs) r = CleanValue v r × CleanValues vs r

    pub CleanEntries : Entries F → RulesPtr F → Type 0
    CleanEntries no_entries r = Unit
    CleanEntries (entry none v es) r = Unit
    CleanEntries (entry (some k) v es) r =
        CleanFilled (filled go (default_ptr r) (text_scalar k)) × CleanValue v r × CleanEntries es r

    pub CleanFields : StructFields F → Type 0
    CleanFields no_fields = Unit
    CleanFields (field_of tag v fs) =
        CleanName (tag_name tag) × CleanValue v no_rules × CleanFields fs

    pub CleanFound : StructFields F → Bytes → RulesPtr F → Type 0
    CleanFound no_fields name r = Unit
    CleanFound (field_of tag v fs) name r =
        IfNamed (bytes_eq tag.field_name name) (CleanValue v r) (CleanFound fs name r)

  -- The same of the names in rules.
  unfoldable mutual
    pub CleanRules : EncodeRules F → Type 0
    CleanRules (rules_for info props item more) =
        CleanName info.field × CleanProps props × CleanPtr item × CleanPtr more

    pub CleanProps : EncodeProps F → Type 0
    CleanProps no_more = Unit
    CleanProps (prop_of rules props) = CleanRules rules × CleanProps props

    pub CleanPtr : RulesPtr F → Type 0
    CleanPtr no_rules = Unit
    CleanPtr (ptr_to rules) = CleanRules rules

  -- The texts of base64 and of custom specs have no other control byte, and reflect converts a default
  -- to a text where it is put in the place of one.
  pub record AreSafe : Type 0 where
    pub base64_clean : (b : Bytes) → CleanText (go.base64 b)
    pub spec_clean :
        (format : ObjectFormat) (encoder : GoValue F → Option Bytes) (v : GoValue F) (s : Bytes)
        → go.find_spec format ≡ some encoder
        → encoder v ≡ some s
        → CleanText s
    pub convert_text :
        (d x : Scalar F) (s : Bytes)
        → go.convert d (text_scalar s) ≡ some x
        → (t : Bytes) × (x ≡ text_scalar t)
