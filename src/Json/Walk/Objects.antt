-- ===== src/Json/Walk/Objects.antt =====
-- bodyparser_json.go, `walkStruct`: an object whose properties are optional.
use gofi.Prelude.{
  ℕ, ◌≤◌, ◌<◌, ◌≡◌, refl, ap, ap₂, ◌∙◌, ◌⊎◌, inl, inr, true, false, Option, none, some, List, [],
  ◌∷◌, ◌++◌, arith, ltb, Bytes, length, length-append, Bool-cases,
}
use gofi.Json.{
  struct_kind, empty, JsonValue, object_definition, found, eof, value, FastJson, get_node_by_kind,
  is_null, get_kind,
}
use gofi.Json.Walk.{
  RuleInfo, JsonRules, Props, Below, rules_of, no_props, prop, Walked, skipped, finished, Decoders,
  may_skip, walk_kind, walk_value, walk_node, walk_props, walk_item, walk_more,
}

module _ {N F D : Type 0} (j : FastJson N F D) (decoders : Decoders F D) where
  abbrev pub IsOptional : JsonRules F D → Type 0
  IsOptional (rules_of info props item more) =
      (info.required ≡ false) × (info.present ≡ false) × (info.def_val ≡ none)

  -- All properties are optional, and the node has none of them.
  abbrev pub AreAbsent : Props F D → Option N → Type 0
  AreAbsent no_props here = Unit
  AreAbsent (prop name child props) here =
      IsOptional child × (j.get here (name ∷ []) ≡ none) × AreAbsent props here

  abbrev pub IsPlainObject : RuleInfo F D → Type 0
  IsPlainObject info = (info.kind ≡ struct_kind) × (info.format ≡ empty)

  walk_node-absent :
      (max_depth : ℕ) (child : JsonRules F D) (keys : List Bytes)
      → IsOptional child
      → length keys ≤ max_depth
      → walk_node j decoders max_depth child none keys ≡ skipped
  unfolding walk_node get_node_by_kind
  walk_node-absent max_depth (rules_of info props item more) keys (r, p, d) h =
      let shallow : ltb max_depth (length keys) ≡ false = ground arith in rw (shallow, d, r, p) refl

  walk_props-absent :
      (max_depth : ℕ) (props : Props F D) (here : Option N) (keys : List Bytes)
      → AreAbsent props here
      → length keys < max_depth
      → walk_props j decoders max_depth props here keys ≡ finished
  unfolding walk_props
  walk_props-absent max_depth no_props here keys absent h = refl
  walk_props-absent max_depth (prop name child props) here keys (optional, gone, absent) h =
      let deep : length (keys ++ name ∷ []) ≤ max_depth =
        omega (arith, length-append keys (name ∷ []), h) in
      rw (gone, walk_node-absent max_depth child (keys ++ name ∷ []) optional deep)
        (walk_props-absent max_depth props here keys absent h)

  -- What is read for an object, whatever the node is.
  object_read :
      (here : Option N)
      → (get_node_by_kind j here struct_kind empty ≡ found eof)
        ⊎ (get_node_by_kind j here struct_kind empty ≡ found (value object_definition))
  unfolding get_node_by_kind get_kind
  object_read none = inl refl
  object_read (some node) = elim (Bool-cases (is_null (j.type_of node))) [
    | inl null ↦ inl (rw null refl)
    | inr given ↦ inr (rw given refl)
  ]

  value-walked :
      (info : RuleInfo F D) (by_kind : Walked) (keys : List Bytes) (val : Option (JsonValue F D))
      → may_skip info val ≡ false
      → info.format ≡ empty
      → decoders.find_spec empty ≡ none
      → walk_value j decoders info by_kind keys val ≡ by_kind
  value-walked info by_kind keys val m f spec = rw (m, f, spec) refl

  required-kept :
      (info : RuleInfo F D) (val : Option (JsonValue F D))
      → info.required ≡ true
      → may_skip info val ≡ false
  required-kept info none r = rw r refl
  required-kept info (some v) r = refl

  -- Where the rules ask for an object, and no property of it is required or has a default, a number,
  -- a text, null and nothing at all pass, when the object itself is required: the kind of the node is
  -- not looked at, and no validator of the object runs.
  pub walk_node-optional :
      (max_depth : ℕ) (info : RuleInfo F D) (props : Props F D) (item more : Below F D)
      (here : Option N) (keys : List Bytes)
      → IsPlainObject info
      → decoders.find_spec empty ≡ none
      → info.required ≡ true
      → AreAbsent props here
      → length keys < max_depth
      → walk_node j decoders max_depth (rules_of info props item more) here keys ≡ finished
  unfolding walk_node walk_kind
  walk_node-optional max_depth info props item more here keys (k, f) spec r absent h =
      let shallow : ltb max_depth (length keys) ≡ false = ground arith in
      let all = walk_props-absent max_depth props here keys absent h in
      let passes = λ (val : Option (JsonValue F D)).
        value-walked info
          (walk_kind j decoders info.kind info (walk_props j decoders max_depth props)
            (walk_item j decoders max_depth item) (walk_more j decoders max_depth more) here keys
            val)
          keys val (required-kept info val r) f spec
        ∙ (ap
              (λ x.
                walk_kind j decoders x info (walk_props j decoders max_depth props)
                  (walk_item j decoders max_depth item) (walk_more j decoders max_depth more) here
                  keys val)
              k
            ∙ all) in
      let read = ap₂ (get_node_by_kind j here) k f in
      elim (object_read here) [
        | inl e ↦ rw (shallow, read ∙ e) (passes info.def_val)
        | inr e ↦ rw (shallow, read ∙ e) (passes (some object_definition))
      ]
