-- ===== src/Json/Laws.antt =====
-- cont/json.go: the integers and the values of any type that are read.
use gofi.Prelude.{
  ℕ, ◌+◌, ◌-◌, ◌%◌, ◌^◌, ◌<◌, ◌≡◌, refl, ap, ◌≢◌, ◌↔◌, ◌⊎◌, inl, inr, Bool, true, false, ◌||◌, none,
  some, [], arith, ltb, leb, if◌then◌else◌,
}
use gofi.Json.{
  Width, bits, word, w8, w16, w32, w64, uint_kind, ObjectFormat, JsonType, type_string, type_array,
  type_object, JsonValue, uint_value, Access, found, failed, Lookup, value, FastJson, is_null,
  get_uint, get_kind, get_node_by_kind, get_any_value_from_node,
}

-- The bit pattern in 64 bits of the number that a pattern in `w` bits stands for.
abbrev pub sign_extend : Width → ℕ → ℕ
sign_extend w m = if ltb m (2 ^ (bits w - 1)) then m else m + (2 ^ 64 - 2 ^ bits w)

-- The patterns in 64 bits of the numbers that have one in `w` bits.
abbrev pub fits_int : Width → ℕ → Bool
fits_int w v = ltb v (2 ^ (bits w - 1)) || leb (2 ^ 64 - 2 ^ (bits w - 1)) v

abbrev pub fits_uint : Width → ℕ → Bool
fits_uint w v = ltb v (2 ^ bits w)

abbrev pub Reads : {F D : Type 0} → Access (Lookup F D) → JsonValue F D → Type 0
Reads r v = r ≡ found (value v)

low_bits : (w : Width) (v : ℕ) → v < 2 ^ 64 → v % 2 ^ bits w < 2 ^ bits w
low_bits w8 v h = omega arith
low_bits w16 v h = omega arith
low_bits w32 v h = omega arith
low_bits word v h = omega arith
low_bits w64 v h = omega arith

low_bits-fits_uint :
    (w : Width) (v : ℕ) → v < 2 ^ 64 → (v % 2 ^ bits w ≡ v) ↔ (fits_uint w v ≡ true)
low_bits-fits_uint w8 v h = ((λ e. ground arith), (λ e. ground arith))
low_bits-fits_uint w16 v h = ((λ e. ground arith), (λ e. ground arith))
low_bits-fits_uint w32 v h = ((λ e. ground arith), (λ e. ground arith))
low_bits-fits_uint word v h = ((λ e. ground arith), (λ e. ground arith))
low_bits-fits_uint w64 v h = ((λ e. ground arith), (λ e. ground arith))

module _ {N F D : Type 0} (j : FastJson N F D) where
  get_uint-low_bits :
      (w : Width) (node : N) (v : ℕ)
      → v < 2 ^ 64
      → j.uint node ≡ some v
      → j.uint64 node ≡ some v
      → Reads (get_uint j w node) (uint_value w (v % 2 ^ bits w))
  unfolding get_uint
  get_uint-low_bits word node v h e e64 =
      rw e (ap (λ x. found (value (uint_value word x))) (omega arith))
  get_uint-low_bits w8 node v h e e64 = rw e refl
  get_uint-low_bits w16 node v h e e64 = rw e refl
  get_uint-low_bits w32 node v h e e64 = rw e refl
  get_uint-low_bits w64 node v h e e64 =
      rw e64 (ap (λ x. found (value (uint_value w64 x))) (omega arith))

  -- The same of an unsigned kind.
  pub get_node_by_kind-fits_uint :
      (w : Width) (format : ObjectFormat) (node : N) (v : ℕ)
      → is_null (j.type_of node) ≡ false
      → v < 2 ^ 64
      → j.uint node ≡ some v
      → j.uint64 node ≡ some v
      → (m : ℕ) × Reads (get_node_by_kind j (some node) (uint_kind w) format) (uint_value w m)
        × (m < 2 ^ bits w)
        × ((m ≡ v) ↔ (fits_uint w v ≡ true))
  unfolding get_node_by_kind get_kind
  get_node_by_kind-fits_uint w format node v given h e e64 = (
    v % 2 ^ bits w,
    rw given (get_uint-low_bits w node v h e e64),
    low_bits w v h,
    low_bits-fits_uint w v h,
  )

  abbrev pub IsNested : JsonType → Type 0
  IsNested t = (t ≡ type_array) ⊎ (t ≡ type_object)

  -- Of no array and no object is a value of any type read, when fastjson gives no bytes for what is
  -- not a string, and encoding/json refuses the empty text.
  pub get_any_value_from_node-nested :
      (node : N)
      → IsNested (j.type_of node)
      → ((n : N) → j.type_of n ≢ type_string → j.get_string_bytes n ≡ [])
      → j.unmarshal [] ≡ none
      → get_any_value_from_node j (some node) ≡ failed
  unfolding get_any_value_from_node
  get_any_value_from_node-nested node (inl e) no_text refused =
      rw (e, no_text node (λ t. cc (e, t)), refused) refl
  get_any_value_from_node-nested node (inr e) no_text refused =
      rw (e, no_text node (λ t. cc (e, t)), refused) refl
