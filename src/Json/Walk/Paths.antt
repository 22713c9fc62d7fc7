-- ===== src/Json/Walk/Paths.antt =====
-- bodyparser_json.go, `walkStruct`: where the errors of a walk say that they are.
use gofi.Prelude.{
  ℕ, ◌+◌, ◌≤◌, inl, inr, not, ◌&&◌, Option, none, some, List, [], ◌∷◌, ◌++◌, arith, ◌==◌, ltb,
  if◌then◌else◌, Bytes, length, Bool-cases,
}
use gofi.Prelude.{itoa, codes}
use gofi.Json.{
  Kind, array_kind, slice_kind, struct_kind, map_kind, interface_kind, is_primitive_kind,
  ObjectFormat, byte_format, raw_json, JsonValue, bytes_value, Access, found, failed, panics,
  Lookup, FastJson, get_node_by_kind, get_primitive_arr_vals_from_node, get_any_value_from_node,
}
use gofi.Json.Walk.{
  nothing, one, RuleInfo, JsonRules, Props, Below, rules_of, no_props, prop, nil, below, Walked,
  skipped, finished, broke, refuse_at, Decoders, decode_base64_field, check, as_checked,
  with_default, may_skip, exceeds, check_many, and_then, WalkFn, walk_each, visit_entries, walk_map,
  walk_elements, walk_array, walk_kind, walk_format, walk_spec, is_checked_text, walk_value,
  walk_found, walk_node, walk_props, walk_item, walk_more,
}
use gofi.Json.Walk.Reports.{
  IsBelow, AllReports, and_then-AllReports, if-AllReports, refuse_at-IsBelow, refuse_at-one,
  Descends, descend-one, walk_each-IsBelow, visit_entries-IsBelow, check-IsBelow, check_any-IsBelow,
  check_many-IsBelow, check_cast-IsBelow, check_decoded-IsBelow, walk_bytes-IsBelow,
}

-- The walks of the rules below, where there are any.
abbrev ItemDescends : {N : Type 0} → ℕ → Option (Kind × WalkFn N) → Type 0
ItemDescends m none = Unit
ItemDescends m (some (kind, w)) = Descends m w

abbrev MoreDescends : {N : Type 0} → ℕ → Option (WalkFn N) → Type 0
MoreDescends m none = Unit
MoreDescends m (some w) = Descends m w

-- The walk of the properties, which adds a key to each.
abbrev PropsDescend : {N : Type 0} → ℕ → WalkFn N → Type 0
PropsDescend {N} m w =
    (here : Option N) (keys : List Bytes)
    → length keys ≤ m
    → AllReports (IsBelow m keys) (w here keys)

module _ {N F D : Type 0} (j : FastJson N F D) (decoders : Decoders F D) (m : ℕ) where
  walk_map-IsBelow :
      (more : Option (WalkFn N)) (here : Option N) (keys : List Bytes)
      → MoreDescends m more
      → length keys ≤ m
      → AllReports (IsBelow m keys) (walk_map j decoders more here keys)
  walk_map-IsBelow none here keys d h = tt
  walk_map-IsBelow (some w) here keys d h = go (j.object here)
    where
      go :
          (a : Access (List (Bytes × N)))
          → AllReports (IsBelow m keys) (elim a [
            | failed ↦ refuse_at keys (codes "parser")
            | panics ↦ broke
            | found entries ↦ visit_entries w entries keys finished
          ])
      go failed = refuse_at-IsBelow m keys (codes "parser") (omega (arith, h))
      go panics = tt
      go (found entries) = visit_entries-IsBelow m w entries keys finished d h tt

  walk_elements-IsBelow :
      (info : RuleInfo F D) (w : WalkFn N) (keys : List Bytes) (nodes : List N)
      → Descends m w
      → length keys ≤ m
      → AllReports (IsBelow m keys) (walk_elements j decoders info w keys nodes)
  walk_elements-IsBelow info w keys nodes d h =
      let P = IsBelow m keys in
      let rest = and_then (walk_each w nodes 0 keys) (check info nothing keys) in
      let too_long = refuse_at (keys ++ itoa (length nodes) ∷ []) (codes "max") in
      if-AllReports P (length nodes == 0 && info.required && not info.present)
        (refuse_at (keys ++ codes "0" ∷ []) (codes "required"))
        (if exceeds info.max (length nodes) then too_long else rest)
        (refuse_at-one m keys (codes "0") (codes "required") h)
        (if-AllReports P (exceeds info.max (length nodes)) too_long rest
          (refuse_at-one m keys (itoa (length nodes)) (codes "max") h)
          (and_then-AllReports P (walk_each w nodes 0 keys) (check info nothing keys)
            (walk_each-IsBelow m w nodes 0 keys d h)
            (check-IsBelow m info nothing keys (omega (arith, h)))))

  walk_array-IsBelow :
      (info : RuleInfo F D) (item : Option (Kind × WalkFn N)) (here : Option N) (keys : List Bytes)
      → ItemDescends m item
      → length keys ≤ m
      → AllReports (IsBelow m keys) (walk_array j decoders info item here keys)
  walk_array-IsBelow info none here keys d h = tt
  walk_array-IsBelow info (some (kind, w)) here keys d h = go (j.array here)
    where
      go :
          (a : Access (List N))
          → AllReports (IsBelow m keys) (elim a [
            | failed ↦ refuse_at keys (codes "parser")
            | panics ↦ broke
            | found nodes ↦
                if is_primitive_kind kind
                then check_many info keys
                    (get_primitive_arr_vals_from_node j nodes kind info.format)
                else walk_elements j decoders info w keys nodes
          ])
      go failed = refuse_at-IsBelow m keys (codes "parser") (omega (arith, h))
      go panics = tt
      go (found nodes) =
          if-AllReports (IsBelow m keys) (is_primitive_kind kind) _ _
            (check_many-IsBelow m info keys
              (get_primitive_arr_vals_from_node j nodes kind info.format) (omega (arith, h)))
            (walk_elements-IsBelow info w keys nodes d h)

  walk_kind-IsBelow :
      (kind : Kind) (info : RuleInfo F D) (props : WalkFn N) (item : Option (Kind × WalkFn N))
      (more : Option (WalkFn N)) (here : Option N) (keys : List Bytes)
      (val : Option (JsonValue F D))
      → PropsDescend m props
      → ItemDescends m item
      → MoreDescends m more
      → length keys ≤ m
      → AllReports (IsBelow m keys) (walk_kind j decoders kind info props item more here keys val)
  unfolding walk_kind
  walk_kind-IsBelow struct_kind info props item more here keys val dp di dm h = dp here keys h
  walk_kind-IsBelow map_kind info props item more here keys val dp di dm h =
      walk_map-IsBelow more here keys dm h
  walk_kind-IsBelow slice_kind info props item more here keys val dp di dm h =
      walk_array-IsBelow info item here keys di h
  walk_kind-IsBelow array_kind info props item more here keys val dp di dm h =
      walk_array-IsBelow info item here keys di h
  walk_kind-IsBelow interface_kind info props item more here keys val dp di dm h =
      check_any-IsBelow m info keys (get_any_value_from_node j here) (omega (arith, h))
  walk_kind-IsBelow _ info props item more here keys val dp di dm h =
      check-IsBelow m info (as_checked val) keys (omega (arith, h))

  walk_format-IsBelow :
      (format : ObjectFormat) (info : RuleInfo F D) (by_kind : Walked) (keys : List Bytes)
      (val : Option (JsonValue F D))
      → AllReports (IsBelow m keys) by_kind
      → length keys ≤ m + 1
      → AllReports (IsBelow m keys) (walk_format j decoders format info by_kind keys val)
  walk_format-IsBelow raw_json info by_kind keys val hk h =
      walk_bytes-IsBelow m info keys _ val h
        (λ raw. check-IsBelow m info (one (bytes_value raw)) keys h)
  walk_format-IsBelow byte_format info by_kind keys val hk h =
      walk_bytes-IsBelow m info keys _ val h
        (λ raw. check_decoded-IsBelow m info keys (decode_base64_field decoders.base64 raw) h)
  walk_format-IsBelow _ info by_kind keys val hk h = hk

  walk_spec-IsBelow :
      (spec : Option (Option (JsonValue F D) → Option (JsonValue F D))) (info : RuleInfo F D)
      (by_kind : Walked) (keys : List Bytes) (val : Option (JsonValue F D))
      → AllReports (IsBelow m keys) by_kind
      → length keys ≤ m + 1
      → AllReports (IsBelow m keys) (walk_spec j decoders spec info by_kind keys val)
  walk_spec-IsBelow none info by_kind keys val hk h =
      walk_format-IsBelow info.format info by_kind keys val hk h
  walk_spec-IsBelow (some decode) info by_kind keys val hk h =
      check_cast-IsBelow m info keys (decode val) h

  walk_value-IsBelow :
      (info : RuleInfo F D) (by_kind : Walked) (keys : List Bytes) (val : Option (JsonValue F D))
      → AllReports (IsBelow m keys) by_kind
      → length keys ≤ m + 1
      → AllReports (IsBelow m keys) (walk_value j decoders info by_kind keys val)
  walk_value-IsBelow info by_kind keys val hk h =
      if-AllReports (IsBelow m keys) (may_skip info val) skipped _ tt (
        if-AllReports (IsBelow m keys) (is_checked_text info.format) _ _
          (check-IsBelow m info (as_checked val) keys h)
          (walk_spec-IsBelow (decoders.find_spec info.format) info by_kind keys val hk h))

  walk_found-IsBelow :
      (info : RuleInfo F D) (by_kind : Option (JsonValue F D) → Walked) (keys : List Bytes)
      (a : Access (Lookup F D))
      → ((val : Option (JsonValue F D)) → AllReports (IsBelow m keys) (by_kind val))
      → length keys ≤ m + 1
      → AllReports (IsBelow m keys) (walk_found j decoders info by_kind keys a)
  walk_found-IsBelow info by_kind keys failed hk h = refuse_at-IsBelow m keys (codes "parser") h
  walk_found-IsBelow info by_kind keys panics hk h = tt
  walk_found-IsBelow info by_kind keys (found l) hk h =
      walk_value-IsBelow info (by_kind (with_default info l)) keys (with_default info l)
        (hk (with_default info l)) h

  mutual
    unfolding walk_node

    node-Descends : (rules : JsonRules F D) → Descends m (walk_node j decoders m rules)
    node-Descends (rules_of info props item more) here keys h =
        elim (Bool-cases (ltb m (length keys))) [
          | inl deep ↦ rw deep (refuse_at-IsBelow m keys (codes "depth") h)
          | inr shallow ↦ rw shallow (
              walk_found-IsBelow info _ keys (get_node_by_kind j here info.kind info.format)
                (λ val.
                  walk_kind-IsBelow info.kind info (walk_props j decoders m props)
                    (walk_item j decoders m item) (walk_more j decoders m more) here keys val
                    (props-Descends props) (item-Descends item) (more-Descends more) (ground arith))
                h)
        ]

    props-Descends : (props : Props F D) → PropsDescend m (walk_props j decoders m props)
    props-Descends no_props here keys h = tt
    props-Descends (prop name child props) here keys h =
        and_then-AllReports (IsBelow m keys)
          (walk_node j decoders m child (j.get here (name ∷ [])) (keys ++ name ∷ []))
          (walk_props j decoders m props here keys)
          (descend-one m (walk_node j decoders m child) (j.get here (name ∷ [])) keys name
            (node-Descends child) h)
          (props-Descends props here keys h)

    item-Descends : (item : Below F D) → ItemDescends m (walk_item j decoders m item)
    item-Descends nil = tt
    item-Descends (below rules) = node-Descends rules

    more-Descends : (more : Below F D) → MoreDescends m (walk_more j decoders m more)
    more-Descends nil = tt
    more-Descends (below rules) = node-Descends rules

  -- The path of each error of a walk starts with the keys where the walk starts, and has at most one
  -- key more than the limit of the depth allows, whatever the JSON text and the rules are.
  pub walk_node-IsBelow :
      (rules : JsonRules F D) (here : Option N) (keys : List Bytes)
      → length keys ≤ m + 1
      → AllReports (IsBelow m keys) (walk_node j decoders m rules here keys)
  walk_node-IsBelow rules = node-Descends rules
