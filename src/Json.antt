-- ===== src/Json.antt =====
-- cont/json.go: values of a kind out of a parsed JSON text.
pub mod Laws
pub mod Arrays
pub mod Walk
pub mod Encode
mod Tests
use gofi.Prelude.{
  ℕ, zero, suc, ◌+◌, ◌%◌, ◌^◌, Bool, true, false, ◌&&◌, Option, none, some, List, [], ◌∷◌, ◌++◌,
  ◌==◌, leb, if◌then◌else◌, Bytes, codes, itoa, length, ends_with,
}

-- The sizes of Go's integers; `word` is that of int and uint, which have 64 bits.
pub data Width : Type 0 where
  word w8 w16 w32 w64 : Width

abbrev pub bits : Width → ℕ
bits w8 = 8
bits w16 = 16
bits w32 = 32
bits _ = 64

-- reflect.Kind
pub data Kind : Type 0 where
  string_kind : Kind
  int_kind : Width → Kind
  uint_kind : Width → Kind
  float32_kind float64_kind bool_kind array_kind slice_kind struct_kind map_kind : Kind
  interface_kind other_kind : Kind

-- utils/primitives.go: `IsPrimitiveKind`
abbrev pub is_primitive_kind : Kind → Bool
is_primitive_kind string_kind = true
is_primitive_kind (int_kind w) = true
is_primitive_kind (uint_kind w) = true
is_primitive_kind float32_kind = true
is_primitive_kind float64_kind = true
is_primitive_kind bool_kind = true
is_primitive_kind _ = false

-- utils/formats.go: `ObjectFormats`. A format besides the constants is the name of a custom one.
pub data ObjectFormat : Type 0 where
  empty time_object cookie_object custom_object byte_format raw_json : ObjectFormat
  custom : Bytes → ObjectFormat

pub data JsonType : Type 0 where
  type_null type_object type_array type_string type_number type_true type_false : JsonType

-- What the functions return as `any`. An integer is its bit pattern in its width. F is the type of
-- float64, and D that of what package encoding/json decodes into an `any`.
pub data JsonValue (F D : Type 0) : Type 0 where
  text_value : Bytes → JsonValue F D
  int_value : Width → ℕ → JsonValue F D
  uint_value : Width → ℕ → JsonValue F D
  float32_value float64_value : F → JsonValue F D
  bool_value : Bool → JsonValue F D
  bytes_value : Bytes → JsonValue F D
  decoded_value : D → JsonValue F D
  array_definition object_definition map_definition interface_definition : JsonValue F D

-- What a Go function that can fail returns; the text of the error is left out.
pub data Access (A : Type 0) : Type 0 where
  found : A → Access A
  failed panics : Access A

-- A value, or EOF.
pub data Lookup (F D : Type 0) : Type 0 where
  eof : Lookup F D
  value : JsonValue F D → Lookup F D

-- What the code calls of fastjson on a node of type N, and of encoding/json and strconv. Where an
-- accessor gives an error, it is `none`. `get`, `array` and `object` are also called on a nil node.
pub record FastJson (N F D : Type 0) : Type 0 where
  pub type_of : N → JsonType
  pub string_bytes : N → Option Bytes
  pub int : N → Option ℕ
  pub int64 : N → Option ℕ
  pub uint : N → Option ℕ
  pub uint64 : N → Option ℕ
  pub float64 : N → Option F
  pub bool : N → Option Bool
  pub marshal : N → Bytes
  pub string : N → Bytes
  pub get_string_bytes : N → Bytes
  pub get : Option N → List Bytes → Option N
  pub array : Option N → Access (List N)
  pub object : Option N → Access (List (Bytes × N))
  pub to_float32 : F → F
  pub unquote : Bytes → Option Bytes
  pub unmarshal : Bytes → Option D

abbrev pub is_null : JsonType → Bool
is_null type_null = true
is_null _ = false

-- v, err := obj.String...(); if err != nil { return nil, err }; return f(v), nil
abbrev pub fetch : {A F D : Type 0} → Option A → (A → JsonValue F D) → Access (Lookup F D)
fetch none f = failed
fetch (some v) f = found (value (f v))

module _ {N F D : Type 0} (j : FastJson N F D) where
  -- The cases of the integer kinds, with the conversions int8(v) to uint32(v).
  unfoldable pub get_int : Width → N → Access (Lookup F D)
  get_int word node = fetch (j.int node) (λ v. int_value word v)
  get_int w8 node = fetch (j.int node) (λ v. int_value w8 (v % 2 ^ 8))
  get_int w16 node = fetch (j.int node) (λ v. int_value w16 (v % 2 ^ 16))
  get_int w32 node = fetch (j.int node) (λ v. int_value w32 (v % 2 ^ 32))
  get_int w64 node = fetch (j.int64 node) (λ v. int_value w64 v)

  unfoldable pub get_uint : Width → N → Access (Lookup F D)
  get_uint word node = fetch (j.uint node) (λ v. uint_value word v)
  get_uint w8 node = fetch (j.uint node) (λ v. uint_value w8 (v % 2 ^ 8))
  get_uint w16 node = fetch (j.uint node) (λ v. uint_value w16 (v % 2 ^ 16))
  get_uint w32 node = fetch (j.uint node) (λ v. uint_value w32 (v % 2 ^ 32))
  get_uint w64 node = fetch (j.uint64 node) (λ v. uint_value w64 v)

  -- `extractRawValue`
  abbrev pub raw_value : JsonType → N → Access (Lookup F D)
  raw_value type_string node = fetch (j.string_bytes node) (λ v. text_value v)
  raw_value type_number node = fetch (j.float64 node) (λ v. float64_value v)
  raw_value type_true node = found (value (bool_value true))
  raw_value type_false node = found (value (bool_value false))
  raw_value _ node = found (value (bytes_value (j.marshal node)))

  unfoldable pub extract_raw_value : N → Access (Lookup F D)
  extract_raw_value node = raw_value (j.type_of node) node

  -- The case of arrays and slices, by the format.
  abbrev pub get_array : ObjectFormat → N → Access (Lookup F D)
  get_array raw_json node = found (value (bytes_value (j.marshal node)))
  get_array byte_format node = found (value (bytes_value (j.marshal node)))
  get_array _ node = found (value array_definition)

  -- The case of a struct, in `GetByKind` and in `GetNodeByKind`.
  abbrev pub get_struct : ObjectFormat → N → Access (Lookup F D)
  get_struct time_object node = fetch (j.string_bytes node) (λ v. text_value v)
  get_struct _ node = found (value object_definition)

  abbrev pub get_node_struct : ObjectFormat → N → Access (Lookup F D)
  get_node_struct time_object node = fetch (j.string_bytes node) (λ v. text_value v)
  get_node_struct empty node = found (value object_definition)
  get_node_struct _ node = extract_raw_value node

  -- The switch on the kind, which the two functions share but for a struct.
  unfoldable pub get_kind :
      (N → Access (Lookup F D)) → Kind → ObjectFormat → N → Access (Lookup F D)
  unfolding get_int get_uint extract_raw_value
  get_kind strct string_kind format node = fetch (j.string_bytes node) (λ v. text_value v)
  get_kind strct (int_kind w) format node = get_int w node
  get_kind strct (uint_kind w) format node = get_uint w node
  get_kind strct float32_kind format node =
      fetch (j.float64 node) (λ v. float32_value (j.to_float32 v))
  get_kind strct float64_kind format node = fetch (j.float64 node) (λ v. float64_value v)
  get_kind strct bool_kind format node = fetch (j.bool node) (λ v. bool_value v)
  get_kind strct array_kind format node = get_array format node
  get_kind strct slice_kind format node = get_array format node
  get_kind strct struct_kind format node = strct node
  get_kind strct map_kind format node = found (value map_definition)
  get_kind strct interface_kind format node = found (value interface_definition)
  get_kind strct other_kind format node = panics

  abbrev pub unless_null : (N → Access (Lookup F D)) → Option N → Access (Lookup F D)
  unless_null f none = found eof
  unless_null f (some node) = if is_null (j.type_of node) then found eof else f node

  -- `GetByKind` of the parsed text `pv`
  unfoldable pub get_by_kind : N → Kind → ObjectFormat → List Bytes → Access (Lookup F D)
  unfolding get_kind
  get_by_kind pv kind format keys =
      unless_null (get_kind (get_struct format) kind format) (j.get (some pv) keys)

  -- `GetNodeByKind`
  unfoldable pub get_node_by_kind : Option N → Kind → ObjectFormat → Access (Lookup F D)
  unfolding get_kind
  get_node_by_kind node kind format =
      unless_null (get_kind (get_node_struct format) kind format) node

  -- arr = append(arr, v), with what the rest of the loop gives
  abbrev pub append_value :
      JsonValue F D → Access (List (JsonValue F D)) → Access (List (JsonValue F D))
  append_value v (found vs) = found (v ∷ vs)
  append_value v r = r

  -- The rounds of the two loops, with what the rest of the loop gives. `GetPrimitiveArrVals` ends at
  -- EOF, and `GetPrimitiveArrValsFromNode` goes on.
  abbrev pub round_or_end :
      Access (Lookup F D)
      → Option (Access (List (JsonValue F D)))
      → Option (Access (List (JsonValue F D)))
  round_or_end failed rest = some failed
  round_or_end panics rest = some panics
  round_or_end (found eof) rest = some (found [])
  round_or_end (found (value v)) none = none
  round_or_end (found (value v)) (some r) = some (append_value v r)

  abbrev pub round :
      Access (Lookup F D) → Access (List (JsonValue F D)) → Access (List (JsonValue F D))
  round failed rest = failed
  round panics rest = panics
  round (found eof) rest = rest
  round (found (value v)) rest = append_value v rest

  -- The loop of `GetPrimitiveArrVals`, whose first round stands before the loop in the code. It
  -- runs on fuel, and the end of the fuel is `none`.
  unfoldable pub arr_vals_from :
      ℕ → N → Kind → ObjectFormat → List Bytes → ℕ → Option (Access (List (JsonValue F D)))
  unfolding get_by_kind
  arr_vals_from zero pv kind format keys i = none
  arr_vals_from (suc f) pv kind format keys i =
      round_or_end (get_by_kind pv kind format (keys ++ itoa i ∷ []))
        (arr_vals_from f pv kind format keys (i + 1))

  abbrev pub get_primitive_arr_vals :
      ℕ → N → Kind → ObjectFormat → List Bytes → Option (Access (List (JsonValue F D)))
  get_primitive_arr_vals fuel pv kind format keys = arr_vals_from fuel pv kind format keys 0

  -- `GetPrimitiveArrValsFromNode`
  unfoldable pub get_primitive_arr_vals_from_node :
      List N → Kind → ObjectFormat → Access (List (JsonValue F D))
  unfolding get_node_by_kind
  get_primitive_arr_vals_from_node [] kind format = found []
  get_primitive_arr_vals_from_node (node ∷ nodes) kind format =
      round (get_node_by_kind (some node) kind format)
        (get_primitive_arr_vals_from_node nodes kind format)

  -- `GetAnyValueFromNode`; nil is `none`.
  abbrev pub quoted : Bytes → Bool
  quoted (c ∷ d ∷ s) = (c == b'"') && ends_with (d ∷ s) b'"'
  quoted _ = false

  abbrev pub some_value :
      {A : Type 0} → Option A → (A → JsonValue F D) → Access (Option (JsonValue F D))
  some_value none f = failed
  some_value (some v) f = found (some (f v))

  abbrev pub any_text : Bytes → Access (Option (JsonValue F D))
  any_text s =
      if quoted s then some_value (j.unquote s) (λ v. text_value v) else found (some (text_value s))

  abbrev pub any_number : Option ℕ → N → Access (Option (JsonValue F D))
  any_number (some v) node = found (some (int_value word v))
  any_number none node = some_value (j.float64 node) (λ v. float64_value v)

  abbrev pub any_of_type : JsonType → N → Access (Option (JsonValue F D))
  any_of_type type_string node = any_text (j.string node)
  any_of_type type_true node = found (some (bool_value true))
  any_of_type type_false node = found (some (bool_value false))
  any_of_type type_null node = found none
  any_of_type type_number node = any_number (j.int node) node
  any_of_type _ node = some_value (j.unmarshal (j.get_string_bytes node)) (λ v. decoded_value v)

  unfoldable pub get_any_value_from_node : Option N → Access (Option (JsonValue F D))
  get_any_value_from_node none = failed
  get_any_value_from_node (some node) = any_of_type (j.type_of node) node

  -- `GetAnyValue`
  unfoldable pub get_any_value : N → List Bytes → Access (Option (JsonValue F D))
  unfolding get_any_value_from_node
  get_any_value pv [] = get_any_value_from_node (some pv)
  get_any_value pv (key ∷ keys) = get_any_value_from_node (j.get (some pv) (key ∷ keys))
