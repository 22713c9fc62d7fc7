-- ===== src/Json/Walk.antt =====
-- bodyparser_json.go, `walkStruct`, and schema.go, `runValidationLazy`: a JSON value against the
-- rules of a schema. `ShouldBind` is false here: nothing is bound to a Go value.
pub mod Reports
pub mod Paths
pub mod Objects
use gofi.Prelude.{
  ℕ, ◌+◌, Bool, true, false, not, ◌&&◌, ◌||◌, Option, none, some, List, [], ◌∷◌, ◌++◌, ◌==◌, ltb,
  if◌then◌else◌, Bytes, codes, itoa, length, take, ends_with,
}
use gofi.Json.{
  Kind, string_kind, int_kind, uint_kind, float32_kind, float64_kind, bool_kind, array_kind,
  slice_kind, struct_kind, map_kind, interface_kind, other_kind, is_primitive_kind, ObjectFormat,
  empty, time_object, cookie_object, custom_object, byte_format, raw_json, custom, JsonValue,
  bytes_value, Access, found, failed, panics, Lookup, eof, value, FastJson, get_node_by_kind,
  get_primitive_arr_vals_from_node, get_any_value_from_node,
}

-- What a validator is given: nil, a value, or the values of an array.
pub data Checked (F D : Type 0) : Type 0 where
  nothing : Checked F D
  one : JsonValue F D → Checked F D
  many : List (JsonValue F D) → Checked F D

-- `ruleOpts`: a rule and whether its validator gives an error.
pub record Rule (F D : Type 0) : Type 0 where
  pub name : Bytes
  pub rejects : Checked F D → Bool

-- `RuleDef`, but for the rules below it. `max` is int(*max).
pub record RuleInfo (F D : Type 0) : Type 0 where
  pub kind : Kind
  pub format : ObjectFormat
  pub def_val : Option (JsonValue F D)
  pub rules : List (Rule F D)
  pub max : Option ℕ
  pub required : Bool
  pub present : Bool

-- `RuleDef`, with `orderedProps`, `item` and `additionalProperties`.
mutual
  pub data JsonRules (F D : Type 0) : Type 0 where
    rules_of : RuleInfo F D → Props F D → Below F D → Below F D → JsonRules F D

  pub data Props (F D : Type 0) : Type 0 where
    no_props : Props F D
    prop : Bytes → JsonRules F D → Props F D → Props F D

  pub data Below (F D : Type 0) : Type 0 where
    nil : Below F D
    below : JsonRules F D → Below F D

-- `errReport`: the keys of its schemaValue, and its rule
pub record Report : Type 0 where
  pub keys : List Bytes
  pub rule : Bytes

-- What `walkStruct` returns: nil and nil, walkFinished, an error that joins reports, or a panic.
pub data Walked : Type 0 where
  skipped finished : Walked
  refused : List Report → Walked
  broke : Walked

abbrev pub refuse_at : List Bytes → Bytes → Walked
refuse_at keys rule = refused (record { keys = keys; rule = rule } ∷ [])

-- `CustomSpecs.Find` with `Decode`, and base64.StdEncoding.DecodeString
pub record Decoders (F D : Type 0) : Type 0 where
  pub find_spec : ObjectFormat → Option (Option (JsonValue F D) → Option (JsonValue F D))
  pub base64 : Bytes → Option Bytes

-- `decodeBase64Field`
abbrev pub without_quotes : Bytes → Option Bytes
without_quotes (c ∷ d ∷ s) =
    if c == b'"' && ends_with (d ∷ s) b'"' then some (take (length s) (d ∷ s)) else none
without_quotes _ = none

abbrev pub decode_base64_field : (Bytes → Option Bytes) → Bytes → Option Bytes
decode_base64_field base64 raw = elim (without_quotes raw) [ none ↦ none | some s ↦ base64 s ]

abbrev pub unless_reports : List Report → Walked
unless_reports [] = finished
unless_reports (r ∷ rs) = refused (r ∷ rs)

abbrev pub is_checked_text : ObjectFormat → Bool
is_checked_text time_object = true
is_checked_text cookie_object = true
is_checked_text _ = false

abbrev pub exceeds : Option ℕ → ℕ → Bool
exceeds none n = false
exceeds (some m) n = ltb m n

module _ {F D : Type 0} where
  -- `runValidationLazy`: the reports that it joins
  unfoldable pub run_validation_lazy : Checked F D → List Bytes → List (Rule F D) → List Report
  run_validation_lazy val keys [] = []
  run_validation_lazy val keys (r ∷ rules) =
      let later = run_validation_lazy val keys rules in
      if r.rejects val then record { keys = keys; rule = r.name } ∷ later else later

  abbrev pub kind_of : JsonRules F D → Kind
  kind_of (rules_of info props item more) = info.kind

  abbrev pub info_of : JsonRules F D → RuleInfo F D
  info_of (rules_of info props item more) = info

  abbrev pub check : RuleInfo F D → Checked F D → List Bytes → Walked
  check info val keys = unless_reports (run_validation_lazy val keys info.rules)

  abbrev pub as_checked : Option (JsonValue F D) → Checked F D
  as_checked none = nothing
  as_checked (some v) = one v

  -- The value with its default.
  abbrev pub with_default : RuleInfo F D → Lookup F D → Option (JsonValue F D)
  with_default info (value v) = some v
  with_default info eof = info.def_val

  abbrev pub may_skip : RuleInfo F D → Option (JsonValue F D) → Bool
  may_skip info (some v) = false
  may_skip info none = not info.required && not info.present

  -- The formats of raw JSON and of bytes, of a value that was read as bytes.
  abbrev pub walk_bytes :
      RuleInfo F D → List Bytes → (Bytes → Walked) → Option (JsonValue F D) → Walked
  walk_bytes info keys f (some (bytes_value raw)) = f raw
  walk_bytes info keys f _ = refuse_at keys (codes "parser")

  abbrev pub check_decoded : RuleInfo F D → List Bytes → Option Bytes → Walked
  check_decoded info keys none = refuse_at keys (codes "decode")
  check_decoded info keys (some raw) = check info (one (bytes_value raw)) keys

  abbrev pub check_cast : RuleInfo F D → List Bytes → Option (JsonValue F D) → Walked
  check_cast info keys none = refuse_at keys (codes "typeCast")
  check_cast info keys (some v) = check info (one v) keys

  abbrev pub check_any : RuleInfo F D → List Bytes → Access (Option (JsonValue F D)) → Walked
  check_any info keys failed = refuse_at keys (codes "parser")
  check_any info keys panics = broke
  check_any info keys (found v) = check info (as_checked v) keys

  abbrev pub check_many : RuleInfo F D → List Bytes → Access (List (JsonValue F D)) → Walked
  check_many info keys failed = refuse_at keys (codes "parser")
  check_many info keys panics = broke
  check_many info keys (found vs) =
      if exceeds info.max (length vs)
      then refuse_at keys (codes "max")
      else check info (many vs) keys

-- Of two steps, the second is taken unless the first fails.
abbrev pub and_then : Walked → Walked → Walked
and_then (refused rs) w = refused rs
and_then broke w = broke
and_then _ w = w

-- An entry of a map, in front of the others: they are all visited, and `mapErr` is the last error, but
-- a panic leaves the visit.
abbrev pub visit_next : Walked → Walked → (Walked → Walked) → Walked
visit_next (refused rs) last rest = rest (refused rs)
visit_next broke last rest = broke
visit_next _ last rest = rest last

-- What the walk of the rules below does with a node.
abbrev pub WalkFn : Type 0 → Type 0
WalkFn N = Option N → List Bytes → Walked

module _ {N : Type 0} where
  -- The elements of an array, which are walked up to the first error.
  unfoldable pub walk_each : WalkFn N → List N → ℕ → List Bytes → Walked
  walk_each w [] i keys = finished
  walk_each w (node ∷ nodes) i keys =
      and_then (w (some node) (keys ++ itoa i ∷ [])) (walk_each w nodes (i + 1) keys)

  unfoldable pub visit_entries : WalkFn N → List (Bytes × N) → List Bytes → Walked → Walked
  visit_entries w [] keys last = last
  visit_entries w ((key, node) ∷ entries) keys last =
      visit_next (w (some node) (keys ++ key ∷ [])) last (λ l. visit_entries w entries keys l)

module _ {N F D : Type 0} (j : FastJson N F D) (decoders : Decoders F D) where
  abbrev pub walk_map : Option (WalkFn N) → Option N → List Bytes → Walked
  walk_map none here keys = finished
  walk_map (some w) here keys = elim (j.object here) [
    | failed ↦ refuse_at keys (codes "parser")
    | panics ↦ broke
    | found entries ↦ visit_entries w entries keys finished
  ]

  abbrev pub walk_elements : RuleInfo F D → WalkFn N → List Bytes → List N → Walked
  walk_elements info w keys nodes =
      if length nodes == 0 && info.required && not info.present
      then refuse_at (keys ++ codes "0" ∷ []) (codes "required")
      else if exceeds info.max (length nodes)
      then refuse_at (keys ++ itoa (length nodes) ∷ []) (codes "max")
      else and_then (walk_each w nodes 0 keys) (check info nothing keys)

  -- Without rules for its items, the code dereferences nil.
  abbrev pub walk_array : RuleInfo F D → Option (Kind × WalkFn N) → Option N → List Bytes → Walked
  walk_array info none here keys = broke
  walk_array info (some (kind, w)) here keys = elim (j.array here) [
    | failed ↦ refuse_at keys (codes "parser")
    | panics ↦ broke
    | found nodes ↦
        if is_primitive_kind kind
        then check_many info keys (get_primitive_arr_vals_from_node j nodes kind info.format)
        else walk_elements info w keys nodes
  ]

  -- The switch on the kind.
  unfoldable pub walk_kind :
      Kind
      → RuleInfo F D
      → WalkFn N
      → Option (Kind × WalkFn N)
      → Option (WalkFn N)
      → Option N
      → List Bytes
      → Option (JsonValue F D)
      → Walked
  walk_kind struct_kind info props item more here keys val = props here keys
  walk_kind map_kind info props item more here keys val = walk_map more here keys
  walk_kind slice_kind info props item more here keys val = walk_array info item here keys
  walk_kind array_kind info props item more here keys val = walk_array info item here keys
  walk_kind interface_kind info props item more here keys val =
      check_any info keys (get_any_value_from_node j here)
  walk_kind _ info props item more here keys val = check info (as_checked val) keys

  -- The formats that stand before the switch, without a custom one.
  abbrev pub walk_format :
      ObjectFormat → RuleInfo F D → Walked → List Bytes → Option (JsonValue F D) → Walked
  walk_format raw_json info by_kind keys val =
      walk_bytes info keys (λ raw. check info (one (bytes_value raw)) keys) val
  walk_format byte_format info by_kind keys val =
      walk_bytes info keys
        (λ raw. check_decoded info keys (decode_base64_field decoders.base64 raw)) val
  walk_format _ info by_kind keys val = by_kind

  abbrev pub walk_spec :
      Option (Option (JsonValue F D) → Option (JsonValue F D))
      → RuleInfo F D
      → Walked
      → List Bytes
      → Option (JsonValue F D)
      → Walked
  walk_spec (some decode) info by_kind keys val = check_cast info keys (decode val)
  walk_spec none info by_kind keys val = walk_format info.format info by_kind keys val

  abbrev pub walk_value : RuleInfo F D → Walked → List Bytes → Option (JsonValue F D) → Walked
  walk_value info by_kind keys val =
      if may_skip info val
      then skipped
      else if is_checked_text info.format
      then check info (as_checked val) keys
      else walk_spec (decoders.find_spec info.format) info by_kind keys val

  abbrev pub walk_found :
      RuleInfo F D → (Option (JsonValue F D) → Walked) → List Bytes → Access (Lookup F D) → Walked
  walk_found info by_kind keys failed = refuse_at keys (codes "parser")
  walk_found info by_kind keys panics = broke
  walk_found info by_kind keys (found l) =
      let val = with_default info l in walk_value info (by_kind val) keys val

  -- `walkStruct`, with `MaxDepth`
  unfoldable mutual
    unfolding get_node_by_kind walk_kind run_validation_lazy

    pub walk_node : ℕ → JsonRules F D → Option N → List Bytes → Walked
    walk_node max_depth (rules_of info props item more) here keys =
        if ltb max_depth (length keys)
        then refuse_at keys (codes "depth")
        else walk_found info
            (walk_kind info.kind info (walk_props max_depth props) (walk_item max_depth item)
              (walk_more max_depth more) here keys)
            keys (get_node_by_kind j here info.kind info.format)

    pub walk_props : ℕ → Props F D → Option N → List Bytes → Walked
    walk_props max_depth no_props here keys = finished
    walk_props max_depth (prop name child props) here keys =
        and_then (walk_node max_depth child (j.get here (name ∷ [])) (keys ++ name ∷ []))
          (walk_props max_depth props here keys)

    pub walk_item : ℕ → Below F D → Option (Kind × WalkFn N)
    walk_item max_depth nil = none
    walk_item max_depth (below rules) = some (kind_of rules, walk_node max_depth rules)

    pub walk_more : ℕ → Below F D → Option (WalkFn N)
    walk_more max_depth nil = none
    walk_more max_depth (below rules) = some (walk_node max_depth rules)

  -- `ValidateAndDecodeRequest` behind the reader, of which it takes `bs_max` bytes. `primitive` stands
  -- for utils.PrimitiveFromStr, and is also applied to the kinds that are not primitive; `parse` for
  -- the parser of fastjson.
  abbrev pub depth_limit : ℕ → ℕ
  depth_limit max_depth = if max_depth == 0 then 100 else max_depth

  abbrev pub size_limit : ℕ → ℕ
  size_limit max_size = if max_size == 0 then 1048576 else max_size

  abbrev pub walk_body : Walked → Walked
  walk_body skipped = refuse_at [] (codes "parser")
  walk_body w = w

  -- What `PrimitiveFromStr` gives: an error, a primitive, or the mark of what is not primitive.
  abbrev pub walk_text : RuleInfo F D → Walked → Access (Option (JsonValue F D)) → Walked
  walk_text info parsed failed = refuse_at [] (codes "encoder")
  walk_text info parsed panics = broke
  walk_text info parsed (found (some v)) = check info (one v) []
  walk_text info parsed (found none) = parsed

  unfoldable pub validate_request :
      (Kind → Bytes → Access (Option (JsonValue F D)))
      → (Bytes → Option N)
      → ℕ
      → ℕ
      → JsonRules F D
      → Bytes
      → Walked
  unfolding walk_node run_validation_lazy
  validate_request primitive parse max_size max_depth rules body =
      let bs = take (size_limit max_size) body in
      let info = info_of rules in
      if length bs == 0
      then (if info.required || info.present then refuse_at [] (codes "required") else finished)
      else walk_text info
          (elim (parse bs) [
            | none ↦ refuse_at [] (codes "parser")
            | some pv ↦ walk_body (walk_node (depth_limit max_depth) rules (some pv) [])
          ])
          (primitive info.kind bs)
