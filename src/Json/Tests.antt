-- ===== src/Json/Tests.antt =====
-- Runs of the JSON part.
use gofi.Prelude.{
  ℕ, zero, suc, ◌+◌, ◌≡◌, refl, ◌≢◌, inl, Bool, true, false, not, Option, none, some, List, [], ◌∷◌,
  arith, ltb, if◌then◌else◌, Bytes, bytes_eq, codes, itoa, length,
}
use gofi.Json.{
  word, w8, string_kind, int_kind, struct_kind, Kind, empty, JsonType, type_null, type_object,
  type_array, type_string, type_number, JsonValue, text_value, int_value, Access, found, failed,
  value, FastJson, panics, get_node_by_kind, get_primitive_arr_vals,
  get_primitive_arr_vals_from_node, get_any_value_from_node,
}
use gofi.Json.Laws.{get_any_value_from_node-nested}
use gofi.Json.Arrays.{up_to_null, IsIndexed, get_primitive_arr_vals-nodes}
use gofi.Json.Walk.{
  Checked, one, RuleInfo, JsonRules, Props, rules_of, no_props, prop, nil, finished, refused,
  Decoders, walk_node, validate_request,
}
use gofi.Json.Walk.Objects.{walk_node-optional}
use gofi.Json.Walk.Reports.{IsBelow, AllReports}
use gofi.Json.Walk.Paths.{walk_node-IsBelow}

-- A small JSON library: numbers are given as their 64 bits, and a path has one key.
mutual
  data Node : Type 0 where
    null_node : Node
    number : ℕ → Node
    string_node : Bytes → Node
    array_node : Nodes → Node
    object_node : Bytes → Node → Node

  data Nodes : Type 0 where
    no_nodes : Nodes
    node_at : Node → Nodes → Nodes

abbrev all_nodes : Nodes → List Node
all_nodes no_nodes = []
all_nodes (node_at n ns) = n ∷ all_nodes ns

abbrev node_type : Node → JsonType
node_type null_node = type_null
node_type (number n) = type_number
node_type (string_node s) = type_string
node_type (array_node ns) = type_array
node_type (object_node k v) = type_object

abbrev as_number : Node → Option ℕ
as_number (number n) = some n
as_number _ = none

abbrev as_text : Node → Option Bytes
as_text (string_node s) = some s
as_text _ = none

abbrev text_or_nil : Node → Bytes
text_or_nil (string_node s) = s
text_or_nil _ = []

abbrev as_array : Option Node → Access (List Node)
as_array none = panics
as_array (some (array_node ns)) = found (all_nodes ns)
as_array (some _) = failed

abbrev as_object : Option Node → Access (List (Bytes × Node))
as_object none = panics
as_object (some (object_node k v)) = found ((k, v) ∷ [])
as_object (some _) = failed

abbrev find_index : Nodes → ℕ → Bytes → Option Node
find_index no_nodes i key = none
find_index (node_at n ns) i key =
    let rest = find_index ns (i + 1) key in if bytes_eq (itoa i) key then some n else rest

abbrev find_key : Option Node → List Bytes → Option Node
find_key (some (array_node ns)) (key ∷ []) = find_index ns 0 key
find_key (some (object_node k v)) (key ∷ []) = if bytes_eq k key then some v else none
find_key _ _ = none

abbrev unmarshal_text : Bytes → Option ℕ
unmarshal_text [] = none
unmarshal_text (c ∷ s) = some c

abbrev library : FastJson Node ℕ ℕ
library = record {
  type_of = node_type;
  string_bytes = as_text;
  int = as_number;
  int64 = as_number;
  uint = as_number;
  uint64 = as_number;
  float64 = as_number;
  bool = λ n. none;
  marshal = text_or_nil;
  string = text_or_nil;
  get_string_bytes = text_or_nil;
  get = find_key;
  array = as_array;
  object = as_object;
  to_float32 = λ f. f;
  unquote = λ s. some s;
  unmarshal = unmarshal_text;
}

-- 300 in an int8 is 44.
int8_wraps :
    get_node_by_kind library (some (number 300)) (int_kind w8) empty
    ≡ found (value (int_value w8 44))
unfolding get_node_by_kind
int8_wraps = refl

-- [1, null, 2]
abbrev numbers : Nodes
numbers = node_at (number 1) (node_at null_node (node_at (number 2) no_nodes))

numbers-IsIndexed : IsIndexed library (array_node numbers) [] (all_nodes numbers) 0
unfolding itoa
numbers-IsIndexed zero h = refl
numbers-IsIndexed (suc zero) h = refl
numbers-IsIndexed (suc (suc zero)) h = refl
numbers-IsIndexed (suc (suc (suc zero))) h = refl
numbers-IsIndexed (suc (suc (suc (suc k)))) h = absurd (omega (arith, h))

-- The paths give one number, and the nodes two.
paths_end_at_null :
    get_primitive_arr_vals library 4 (array_node numbers) (int_kind word) empty []
    ≡ some (found (int_value word 1 ∷ []))
unfolding get_primitive_arr_vals_from_node
paths_end_at_null =
    get_primitive_arr_vals-nodes library 4 (array_node numbers) (int_kind word) empty []
      (all_nodes numbers) refl numbers-IsIndexed (omega arith)

nodes_skip_null :
    get_primitive_arr_vals_from_node library (all_nodes numbers) (int_kind word) empty
    ≡ found (int_value word 1 ∷ int_value word 2 ∷ [])
unfolding get_primitive_arr_vals_from_node
nodes_skip_null = refl

get_primitive_arr_vals-nodes_example :
    get_primitive_arr_vals library 4 (array_node numbers) (int_kind word) empty []
    ≡ some (
        get_primitive_arr_vals_from_node library
          (up_to_null library (all_nodes numbers))
          (int_kind word)
          empty)
get_primitive_arr_vals-nodes_example =
    get_primitive_arr_vals-nodes library 4 (array_node numbers) (int_kind word) empty []
      (all_nodes numbers) refl numbers-IsIndexed (omega arith)

no_bytes : (n : Node) → node_type n ≢ type_string → text_or_nil n ≡ []
no_bytes null_node h = refl
no_bytes (number n) h = refl
no_bytes (string_node s) h = absurd (h refl)
no_bytes (array_node ns) h = refl
no_bytes (object_node k v) h = refl

get_any_value_from_node-nested_example :
    get_any_value_from_node library (some (array_node numbers)) ≡ failed
get_any_value_from_node-nested_example =
    get_any_value_from_node-nested library (array_node numbers) (inl refl) no_bytes refl

abbrev decoders : Decoders ℕ ℕ
decoders = record { find_spec = λ f. none; base64 = λ b. some b }

abbrev rejects_short : Checked ℕ ℕ → Bool
rejects_short (one (text_value s)) = ltb (length s) 3
rejects_short _ = true

abbrev info : Kind → Bool → RuleInfo ℕ ℕ
info kind required = record {
  kind = kind;
  format = empty;
  def_val = none;
  rules = [];
  max = none;
  required = required;
  present = false;
}

abbrev name_rules : JsonRules ℕ ℕ
name_rules =
    rules_of
      (record (info string_kind false) {
        rules = record { name = codes "min"; rejects = rejects_short } ∷ [];
      })
      no_props nil nil

abbrev user_props : Props ℕ ℕ
user_props = prop (codes "name") name_rules no_props

abbrev user_rules : JsonRules ℕ ℕ
user_rules = rules_of (info struct_kind true) user_props nil nil

-- {"name": "ab"}
short_name :
    walk_node library decoders 100 user_rules
      (some (object_node (codes "name") (string_node (codes "ab"))))
      []
    ≡ refused (record { keys = codes "name" ∷ []; rule = codes "min" } ∷ [])
unfolding walk_node
short_name = refl

-- 7 in the place of an object
walk_node-optional_example :
    walk_node library decoders 100 user_rules (some (number 7)) [] ≡ finished
walk_node-optional_example =
    walk_node-optional library decoders 100 (info struct_kind true) user_props nil nil
      (some (number 7)) [] (refl, refl) refl refl ((refl, refl, refl), refl, tt) (omega arith)

walk_node-IsBelow_example : AllReports (IsBelow 100 []) (
    walk_node library decoders 100 user_rules
      (some (object_node (codes "name") (string_node (codes "ab"))))
      [])
walk_node-IsBelow_example =
    walk_node-IsBelow library decoders 100 user_rules
      (some (object_node (codes "name") (string_node (codes "ab")))) [] (omega arith)

-- A text that is longer than the limit of the size is cut to it.
abbrev as_primitive : Kind → Bytes → Access (Option (JsonValue ℕ ℕ))
as_primitive string_kind s = found (some (text_value s))
as_primitive _ s = found none

abbrev exact_abc : Checked ℕ ℕ → Bool
exact_abc (one (text_value s)) = not (bytes_eq s (codes "abc"))
exact_abc _ = true

cut_to_limit :
    validate_request library decoders as_primitive
      (λ b. none)
      3
      0
      (rules_of
        (record (info string_kind true) {
          rules = record { name = codes "abc"; rejects = exact_abc } ∷ [];
        })
        no_props
        nil
        nil)
      (codes "abcdef")
    ≡ finished
unfolding validate_request
cut_to_limit = refl
