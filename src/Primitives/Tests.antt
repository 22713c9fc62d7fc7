-- ===== src/Primitives/Tests.antt =====
-- Runs of the primitives.
use gofi.Prelude.{
  ℕ, ◌+◌, ◌-◌, ◌%◌, ◌^◌, ◌≡◌, refl, Option, none, ◌∷◌, Bytes, codes, itoa, ltb, true,
}
use gofi.Json.{
  Kind, int_value, uint_value, text_value, bool_value, int_kind, uint_kind, string_kind, bool_kind,
  struct_kind, w8, w16, word, bits,
}
use gofi.Primitives.{
  Parsed, no_value, not_primitive, absent, parsed, read_digits, parse_uint, parse_int,
  primitive_from_str,
}
use gofi.Primitives.Laws.{parsed_if, IsOfKind, primitive_from_str-itoa, primitive_from_str-IsOfKind}

abbrev no_float : ℕ → Bytes → Option ℕ
no_float bit_size s = none

abbrev read : Kind → Bytes → Parsed ℕ ℕ
read kind s = primitive_from_str no_float kind s

reads_numbers :
    (read (int_kind w8) (codes "127") ≡ parsed (int_value w8 127))
    × ((read (int_kind w8) (codes "-128") ≡ parsed (int_value w8 128))
        × ((read (int_kind w8) (codes "+5") ≡ parsed (int_value w8 5))
            × (read (uint_kind w16) (codes "65535") ≡ parsed (uint_value w16 65535))))
unfolding primitive_from_str parse_int parse_uint read_digits
reads_numbers = (refl, (refl, (refl, refl)))

refuses_numbers :
    (read (int_kind w8) (codes "128") ≡ no_value)
    × ((read (int_kind w8) (codes "-129") ≡ no_value)
        × ((read (uint_kind w16) (codes "+1") ≡ no_value)
            × ((read (uint_kind word) (codes "1_000") ≡ no_value)
                × (read (int_kind word) (codes "-") ≡ no_value))))
unfolding primitive_from_str parse_int parse_uint read_digits
refuses_numbers = (refl, (refl, (refl, (refl, refl))))

reads_others :
    (read string_kind (codes "") ≡ absent)
    × ((read string_kind (codes "a") ≡ parsed (text_value (codes "a")))
        × ((read bool_kind (codes "T") ≡ parsed (bool_value true))
            × ((read bool_kind (codes "yes") ≡ no_value)
                × (read struct_kind (codes "1") ≡ not_primitive))))
unfolding primitive_from_str
reads_others = (refl, (refl, (refl, (refl, refl))))

primitive_from_str-itoa_example :
    (read (int_kind w8) (itoa 128) ≡ parsed_if (ltb 128 (2 ^ (bits w8 - 1))) (int_value w8 128))
    × ((read (int_kind w8) (b'-' ∷ itoa 128)
          ≡ parsed_if
              (ltb 128 (2 ^ (bits w8 - 1) + 1))
              (int_value w8 ((2 ^ bits w8 - 128) % 2 ^ bits w8)))
        × (read (uint_kind w8) (itoa 128) ≡ parsed_if (ltb 128 (2 ^ bits w8)) (uint_value w8 128)))
primitive_from_str-itoa_example = primitive_from_str-itoa no_float w8 128

reads_negative : read (int_kind w8) (codes "-128") ≡ parsed (int_value w8 128)
unfolding primitive_from_str parse_int parse_uint read_digits
reads_negative = refl

primitive_from_str-IsOfKind_example : IsOfKind {F = ℕ} {D = ℕ} (int_kind w8) (int_value w8 128)
primitive_from_str-IsOfKind_example =
    primitive_from_str-IsOfKind no_float (int_kind w8) (codes "-128") (int_value w8 128)
      reads_negative
