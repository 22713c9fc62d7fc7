-- ===== src/Json/Encode/Laws.antt =====
-- bodyparser_json.go, `encodeFieldValue`: what it writes is JSON.
use gofi.Prelude.{inl, inr, Bool, true, false, none, some, List, Bytes, bytes_eq, Bool-cases}
use gofi.Json.Encode.{
  text_scalar, GoValue, nil_value, nil_pointer, nil_interface, scalar, marshaler, byte_slice,
  slice_of, map_of, struct_of, pointer_to, interface_of, GoValues, no_values, value_at, Entries,
  no_entries, entry, StructFields, no_fields, field_of, rules_for, EncodeProps, no_more, prop_of,
  RulesPtr, no_rules, ptr_to, Encoded, written, rejected, broke, Encoders, tag_name, item_of,
  more_of, default_ptr, left_out, FieldEncoder, encode_scalar, marshaled, filled_bytes, encode_nil,
  enclose, find_field, encode_props, is_time, encode_by_props, encode_struct, encode, encode_values,
  encode_entries, encode_fields, field_encoders,
}
use gofi.Json.Encode.Grammar.{
  IsJson, array_json, object_json, IsElements, IsMembers, CleanValue, CleanValues, CleanEntries,
  CleanFields, CleanFound, PropsClean, props_of, CleanProps, CleanPtr, AreSafe,
}
use gofi.Json.Encode.Parts.{
  Yields, if-Yields, Elements, Members, Elements-end, Members-end, member-Yields, element-Yields,
  entry-Yields,
}
use gofi.Json.Encode.Steps.{
  kept-IsJson, unless_filled-Yields, encode_nil-Yields, encode_scalar-Yields, encode_key-Yields,
  encode_filled_bytes-Yields, encode_nil_interface-Yields, marshaled-Yields,
}

module _ {F : Type 0} (go : Encoders F) (safe : AreSafe go) where
  array-Yields : (e : Encoded) → Yields IsElements e → Yields IsJson (enclose go b'[' e b']')
  array-Yields (written b) h = array_json h
  array-Yields rejected h = tt
  array-Yields broke h = tt

  object-Yields : (e : Encoded) → Yields IsMembers e → Yields IsJson (enclose go b'{' e b'}')
  object-Yields (written b) h = object_json h
  object-Yields rejected h = tt
  object-Yields broke h = tt

  -- The encoders of the fields write JSON for the names and the rules that satisfy C.
  abbrev WriteJson : List (FieldEncoder F) → (Bytes → RulesPtr F → Type 0) → Type 0
  WriteJson fs C =
      (name : Bytes) (r : RulesPtr F)
      → C name r
      → CleanPtr go r
      → Yields IsJson ((find_field go fs name).encoder r)

  encode_props-Yields :
      (fs : List (FieldEncoder F)) (C : Bytes → RulesPtr F → Type 0) (props : EncodeProps F)
      (first : Bool)
      → WriteJson fs C
      → PropsClean go C props
      → CleanProps go props
      → Yields (Members first) (encode_props go fs props first)
  unfolding encode_props CleanProps CleanPtr
  encode_props-Yields fs C no_more first hf hc h = Members-end first
  encode_props-Yields fs C (prop_of (rules_for info props' item more) props) first hf (c, hc)
        (hr, h) =
      let f = find_field go fs info.field_name in
      let (n, ps, i, m) = hr in
      if-Yields (Members first) (left_out info.tags f.content) (encode_props go fs props first) _
        (encode_props-Yields fs C props first hf hc h)
        (member-Yields first info.field (f.encoder (ptr_to (rules_for info props' item more)))
          (encode_props go fs props false) n
          (hf info.field_name (ptr_to (rules_for info props' item more)) c hr)
          (encode_props-Yields fs C props false hf hc h))

  encode_by_props-Yields :
      (props : EncodeProps F) (fs : List (FieldEncoder F)) (C : Bytes → RulesPtr F → Type 0)
      (slow : Encoded)
      → WriteJson fs C
      → PropsClean go C props
      → CleanProps go props
      → Yields IsMembers slow
      → Yields IsMembers (encode_by_props go props fs slow)
  encode_by_props-Yields no_more fs C slow hf hc h hs = hs
  encode_by_props-Yields (prop_of rules props) fs C slow hf hc h hs =
      encode_props-Yields fs C (prop_of rules props) true hf hc h

  encode_struct-Yields :
      (r : RulesPtr F) (fs : List (FieldEncoder F)) (C : Bytes → RulesPtr F → Type 0)
      (slow : Encoded)
      → WriteJson fs C
      → PropsClean go C (props_of go r)
      → CleanPtr go r
      → Yields IsMembers slow
      → Yields IsJson (encode_struct go r fs slow)
  unfolding CleanPtr
  encode_struct-Yields no_rules fs C slow hf hc h hs = tt
  encode_struct-Yields (ptr_to (rules_for info props item more)) fs C slow hf hc (n, ps, i, m) hs =
      if-Yields IsJson (is_time go info.format) rejected _ tt (
        object-Yields (encode_by_props go props fs slow)
          (encode_by_props-Yields props fs C slow hf hc ps hs))

  CleanPtr-item : (r : RulesPtr F) → CleanPtr go r → CleanPtr go (item_of r)
  unfolding CleanPtr
  CleanPtr-item no_rules h = tt
  CleanPtr-item (ptr_to (rules_for info props item more)) (n, ps, i, m) = i

  CleanPtr-more : (r : RulesPtr F) → CleanPtr go r → CleanPtr go (more_of r)
  unfolding CleanPtr
  CleanPtr-more no_rules h = tt
  CleanPtr-more (ptr_to (rules_for info props item more)) (n, ps, i, m) = m

  mutual
    unfolding encode CleanValue CleanPtr CleanFound

    value-Yields :
        (v : GoValue F) (r : RulesPtr F)
        → CleanValue go v r
        → CleanPtr go r
        → Yields IsJson (encode go v r)
    value-Yields nil_value r h hr = encode_nil-Yields go safe r
    value-Yields nil_pointer r h hr =
        unless_filled-Yields go safe r nil_pointer (encode_nil go r) (encode_nil-Yields go safe r)
    value-Yields nil_interface r h hr = encode_nil_interface-Yields go safe r (default_ptr r) h
    value-Yields (scalar s) r h hr = encode_scalar-Yields go safe r s h
    value-Yields (marshaler is_empty is_nil raw) r h hr =
        unless_filled-Yields go safe r (marshaler is_empty is_nil raw) (marshaled go is_nil raw)
          (marshaled-Yields go safe is_nil raw h)
    value-Yields (byte_slice b) r h hr =
        encode_filled_bytes-Yields go safe r (filled_bytes go (default_ptr r) b)
    value-Yields (slice_of vs) r h hr = unless_filled-Yields go safe r (slice_of vs) _ (
        array-Yields (encode_values go vs (item_of r) true)
          (values-Yields vs (item_of r) true h (CleanPtr-item r hr)))
    value-Yields (map_of es) r h hr = unless_filled-Yields go safe r (map_of es) _ (
        object-Yields (encode_entries go es (more_of r) true)
          (entries-Yields es (more_of r) true h (CleanPtr-more r hr)))
    value-Yields (struct_of fs) r h hr = kept-IsJson go safe r (struct_of fs) _ (
        encode_struct-Yields r (field_encoders go fs) (CleanFound go fs) (encode_fields go fs true)
          (fields-WriteJson fs) h.0 hr (fields-Yields fs true h.1))
    value-Yields (pointer_to v) r h hr =
        kept-IsJson go safe r (pointer_to v) (encode go v r) (value-Yields v r h hr)
    value-Yields (interface_of v) r h hr =
        kept-IsJson go safe r (interface_of v) (encode go v r) (value-Yields v r h hr)

    values-Yields :
        (vs : GoValues F) (r : RulesPtr F) (first : Bool)
        → CleanValues go vs r
        → CleanPtr go r
        → Yields (Elements first) (encode_values go vs r first)
    values-Yields no_values r first h hr = Elements-end first
    values-Yields (value_at v vs) r first (hv, h) hr =
        element-Yields first (encode go v r) (encode_values go vs r false) (value-Yields v r hv hr)
          (values-Yields vs r false h hr)

    entries-Yields :
        (es : Entries F) (r : RulesPtr F) (first : Bool)
        → CleanEntries go es r
        → CleanPtr go r
        → Yields (Members first) (encode_entries go es r first)
    entries-Yields no_entries r first h hr = Members-end first
    entries-Yields (entry none v es) r first h hr = tt
    entries-Yields (entry (some k) v es) r first (hk, hv, h) hr =
        entry-Yields first (encode_scalar go r (text_scalar k)) (encode go v r)
          (encode_entries go es r false) (encode_key-Yields go safe r k hk) (value-Yields v r hv hr)
          (entries-Yields es r false h hr)

    fields-Yields :
        (fs : StructFields F) (first : Bool)
        → CleanFields go fs
        → Yields (Members first) (encode_fields go fs first)
    fields-Yields no_fields first h = Members-end first
    fields-Yields (field_of tag v fs) first (hn, hv, h) =
        if-Yields (Members first) (left_out tag.json_tags v) (encode_fields go fs first) _
          (fields-Yields fs first h)
          (member-Yields first (tag_name tag) (encode go v no_rules) (encode_fields go fs false) hn
            (value-Yields v no_rules hv tt) (fields-Yields fs false h))

    fields-WriteJson : (fs : StructFields F) → WriteJson (field_encoders go fs) (CleanFound go fs)
    fields-WriteJson no_fields name r c h = encode_nil-Yields go safe r
    fields-WriteJson (field_of tag v fs) name r c h =
        elim (Bool-cases (bytes_eq tag.field_name name)) [
          | inl same ↦ rw same (value-Yields v r (rw same at c) h)
          | inr other ↦ rw other (fields-WriteJson fs name r (rw other at c) h)
        ]
