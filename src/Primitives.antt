-- ===== src/Primitives.antt =====
-- utils/primitives.go: a primitive value out of a text.
pub mod Laws
pub mod Decimals
mod Tests
use gofi.Prelude.{
  ℕ, ◌+◌, ◌-◌, ◌*◌, ◌%◌, ◌^◌, Bool, true, false, ◌&&◌, ◌||◌, Option, none, some, [], ◌∷◌, ltb, leb,
  ◌==◌, if◌then◌else◌, Bytes, bytes_eq, codes,
}
use gofi.Json.{
  Width, bits, Kind, string_kind, int_kind, uint_kind, float32_kind, float64_kind, bool_kind,
  JsonValue, text_value, int_value, uint_value, float32_value, float64_value, bool_value,
}

abbrev pub is_decimal : ℕ → Bool
is_decimal c = leb b'0' c && leb c b'9'

-- The digits behind a number that is read already; `none` at another byte.
unfoldable pub read_digits : ℕ → Bytes → Option ℕ
read_digits n [] = some n
read_digits n (c ∷ s) =
    let rest = read_digits (n * 10 + (c - b'0')) s in if is_decimal c then rest else none

-- strconv.ParseUint in base 10
abbrev pub below : ℕ → Option ℕ → Option ℕ
below limit none = none
below limit (some n) = if ltb n limit then some n else none

unfoldable pub parse_uint : ℕ → Bytes → Option ℕ
unfolding read_digits
parse_uint bit_size [] = none
parse_uint bit_size (c ∷ s) = below (2 ^ bit_size) (read_digits 0 (c ∷ s))

-- strconv.ParseInt in base 10; the number is its bit pattern. The number behind a minus sign may be
-- the limit itself.
abbrev pub negated : ℕ → Option ℕ → Option ℕ
negated bit_size none = none
negated bit_size (some n) = some ((2 ^ bit_size - n) % 2 ^ bit_size)

unfoldable pub parse_int : ℕ → Bytes → Option ℕ
unfolding parse_uint
parse_int bit_size [] = none
parse_int bit_size (c ∷ s) =
    if c == b'-'
    then negated bit_size (below (2 ^ (bit_size - 1) + 1) (parse_uint bit_size s))
    else if c == b'+'
    then below (2 ^ (bit_size - 1)) (parse_uint bit_size s)
    else below (2 ^ (bit_size - 1)) (parse_uint bit_size (c ∷ s))

-- strconv.ParseBool
abbrev pub is_true : Bytes → Bool
is_true s =
    bytes_eq s (codes "1")
    || bytes_eq s (codes "t")
    || bytes_eq s (codes "T")
    || bytes_eq s (codes "true")
    || bytes_eq s (codes "TRUE")
    || bytes_eq s (codes "True")

abbrev pub is_false : Bytes → Bool
is_false s =
    bytes_eq s (codes "0")
    || bytes_eq s (codes "f")
    || bytes_eq s (codes "F")
    || bytes_eq s (codes "false")
    || bytes_eq s (codes "FALSE")
    || bytes_eq s (codes "False")

abbrev pub parse_bool : Bytes → Option Bool
parse_bool s = if is_true s then some true else if is_false s then some false else none

-- What `PrimitiveFromStr` returns: an error, the mark `nonPrimitive`, nil, or a value.
pub data Parsed (F D : Type 0) : Type 0 where
  no_value not_primitive absent : Parsed F D
  parsed : JsonValue F D → Parsed F D

abbrev pub parsed_as : {A F D : Type 0} → (A → JsonValue F D) → Option A → Parsed F D
parsed_as f none = no_value
parsed_as f (some a) = parsed (f a)

abbrev pub nil_or_text : {F D : Type 0} → Bytes → Parsed F D
nil_or_text [] = absent
nil_or_text (c ∷ s) = parsed (text_value (c ∷ s))

-- `toIntX`, `toUintX`; the sizes are those of their switch.
abbrev pub to_int_x : {F D : Type 0} → Width → Bytes → Parsed F D
to_int_x w val = parsed_as (λ n. int_value w n) (parse_int (bits w) val)

abbrev pub to_uint_x : {F D : Type 0} → Width → Bytes → Parsed F D
to_uint_x w val = parsed_as (λ n. uint_value w n) (parse_uint (bits w) val)

-- `PrimitiveFromStr`; `parse_float` stands for strconv.ParseFloat with its bit size.
unfoldable pub primitive_from_str :
    {F D : Type 0} → (ℕ → Bytes → Option F) → Kind → Bytes → Parsed F D
unfolding parse_int parse_uint
primitive_from_str parse_float string_kind val = nil_or_text val
primitive_from_str parse_float bool_kind val = parsed_as (λ b. bool_value b) (parse_bool val)
primitive_from_str parse_float (int_kind w) val = to_int_x w val
primitive_from_str parse_float (uint_kind w) val = to_uint_x w val
primitive_from_str parse_float float32_kind val =
    parsed_as (λ f. float32_value f) (parse_float 32 val)
primitive_from_str parse_float float64_kind val =
    parsed_as (λ f. float64_value f) (parse_float 64 val)
primitive_from_str parse_float _ val = not_primitive
