-- ===== src/Json/Encode/Steps.antt =====
-- bodyparser_json.go, `encodeFieldValue`: the texts of the values without parts, and the steps of all.
use gofi.Prelude.{
  ◌≡◌, refl, sym, subst, inl, inr, Bool, true, false, Option, none, some, [], ◌∷◌, Bytes,
  Option-cases,
}
use gofi.Prelude.{codes}
use gofi.Json.Encode.{
  Scalar, text_scalar, int_scalar, uint_scalar, float_scalar, bool_scalar, GoValue, nil_value,
  scalar, byte_slice, interface_of, rules_for, RulesPtr, no_rules, ptr_to, Encoded, written,
  rejected, broke, Encoders, encode_string, is_empty_value, default_ptr, rejects, scalar_text,
  spec_text, spec_or, check_first, filled, encode_filled, encode_scalar, unless_default,
  unless_filled, marshaled, encode_bytes, encode_filled_bytes, encode_nil, encode_nil_interface,
}
use gofi.Json.Encode.Grammar.{
  IsText, IsJson, null_json, true_json, false_json, integer_json, negative_json, decimal_json,
  text_json, CleanScalar, CleanRaw, CleanFilled, CleanNil, AreSafe,
}
use gofi.Json.Encode.Parts.{Yields, if-Yields, encode_string-IsText}

module _ {F : Type 0} (go : Encoders F) (safe : AreSafe go) where
  scalar_text-IsJson : (s : Scalar F) → CleanScalar go s → IsJson (scalar_text go s)
  scalar_text-IsJson (text_scalar s) h = text_json (encode_string-IsText s h)
  scalar_text-IsJson (int_scalar false n) h = integer_json n
  scalar_text-IsJson (int_scalar true n) h = negative_json n
  scalar_text-IsJson (uint_scalar n) h = integer_json n
  scalar_text-IsJson (float_scalar f) h = decimal_json (go.float_text f) h
  scalar_text-IsJson (bool_scalar true) h = true_json
  scalar_text-IsJson (bool_scalar false) h = false_json

  -- What custom specs write is a text; P is any property that texts have.
  check_first-Yields :
      (P : Bytes → Type 0) (r : RulesPtr F) (v : GoValue F) (e : Encoded)
      → ((b : Bytes) → IsText b → P b)
      → Yields P e
      → Yields P (check_first go r v e)
  check_first-Yields P no_rules v e texts h = h
  check_first-Yields P (ptr_to (rules_for info props item more)) v e texts h =
      if-Yields P (rejects (ptr_to (rules_for info props item more)) v) rejected _ tt
        (elim (Option-cases (go.find_spec info.format)) [
          | inl none_found ↦ subst (λ o. Yields P (spec_or go o v e)) (sym none_found) h
          | inr (encoder, found) ↦
              subst (λ o. Yields P (spec_or go o v e)) (sym found)
                (elim (Option-cases (encoder v)) [
                  | inl no_text ↦ subst (λ o. Yields P (spec_text go o)) (sym no_text) tt
                  | inr (s, gives) ↦
                      subst (λ o. Yields P (spec_text go o)) (sym gives)
                        (texts (encode_string s) (
                          encode_string-IsText s
                            (safe.spec_clean info.format encoder v s found gives)))
                ])
        ])

  pub kept-IsJson :
      (r : RulesPtr F) (v : GoValue F) (e : Encoded)
      → Yields IsJson e
      → Yields IsJson (check_first go r v e)
  kept-IsJson r v e = check_first-Yields IsJson r v e (λ b t. text_json t)

  unless_default-Yields :
      (o : Option (Scalar F)) (r : RulesPtr F) (v : GoValue F) (e : Encoded)
      → Yields IsJson e
      → Yields IsJson (unless_default go o r v e)
  unless_default-Yields none r v e h = kept-IsJson r v e h
  unless_default-Yields (some d) r v e h =
      if-Yields IsJson (is_empty_value v) broke (check_first go r v e) tt (kept-IsJson r v e h)

  pub unless_filled-Yields :
      (r : RulesPtr F) (v : GoValue F) (e : Encoded)
      → Yields IsJson e
      → Yields IsJson (unless_filled go r v e)
  unless_filled-Yields r v e h = unless_default-Yields (default_ptr r) r v e h

  pub encode_nil-Yields : (r : RulesPtr F) → Yields IsJson (encode_nil go r)
  encode_nil-Yields r =
      if-Yields IsJson (rejects r nil_value) rejected (written (codes "null")) tt null_json

  encode_filled-Yields :
      (r : RulesPtr F) (o : Option (Scalar F))
      → CleanFilled go o
      → Yields IsJson (encode_filled go r o)
  encode_filled-Yields r none h = tt
  encode_filled-Yields r (some s) h =
      kept-IsJson r (scalar s) (written (scalar_text go s)) (scalar_text-IsJson s h)

  pub encode_scalar-Yields :
      (r : RulesPtr F) (s : Scalar F)
      → CleanFilled go (filled go (default_ptr r) s)
      → Yields IsJson (encode_scalar go r s)
  encode_scalar-Yields r s h = encode_filled-Yields r (filled go (default_ptr r) s) h

  -- The key of an entry, which is a text with its default as well.
  filled_key-Yields :
      (r : RulesPtr F) (o : Option (Scalar F))
      → CleanFilled go o
      → ((x : Scalar F) → o ≡ some x → (t : Bytes) × (x ≡ text_scalar t))
      → Yields IsText (encode_filled go r o)
  filled_key-Yields r none h texts = tt
  filled_key-Yields r (some (text_scalar t)) h texts =
      check_first-Yields IsText r (scalar (text_scalar t)) (written (encode_string t)) (λ b k. k)
        (encode_string-IsText t h)
  filled_key-Yields r (some (int_scalar b n)) h texts = absurd (let (t, e) = texts _ refl in cc e)
  filled_key-Yields r (some (uint_scalar n)) h texts = absurd (let (t, e) = texts _ refl in cc e)
  filled_key-Yields r (some (float_scalar f)) h texts = absurd (let (t, e) = texts _ refl in cc e)
  filled_key-Yields r (some (bool_scalar b)) h texts = absurd (let (t, e) = texts _ refl in cc e)

  filled-text :
      (o : Option (Scalar F)) (k : Bytes) (x : Scalar F)
      → filled go o (text_scalar k) ≡ some x
      → (t : Bytes) × (x ≡ text_scalar t)
  filled-text none k x e = (k, cc e)
  filled-text (some d) [] x e = safe.convert_text d x [] e
  filled-text (some d) (c ∷ k) x e = (c ∷ k, cc e)

  pub encode_key-Yields :
      (r : RulesPtr F) (k : Bytes)
      → CleanFilled go (filled go (default_ptr r) (text_scalar k))
      → Yields IsText (encode_scalar go r (text_scalar k))
  encode_key-Yields r k h =
      filled_key-Yields r (filled go (default_ptr r) (text_scalar k)) h
        (filled-text (default_ptr r) k)

  encode_bytes-Yields : (b : Option Bytes) → Yields IsJson (encode_bytes go b)
  encode_bytes-Yields none = null_json
  encode_bytes-Yields (some b) =
      text_json (encode_string-IsText (go.base64 b) (safe.base64_clean b))

  pub encode_filled_bytes-Yields :
      (r : RulesPtr F) (o : Option (Option Bytes)) → Yields IsJson (encode_filled_bytes go r o)
  encode_filled_bytes-Yields r none = tt
  encode_filled_bytes-Yields r (some b) =
      kept-IsJson r (byte_slice b) (encode_bytes go b) (encode_bytes-Yields b)

  pub encode_nil_interface-Yields :
      (r : RulesPtr F) (o : Option (Scalar F))
      → CleanNil go r o
      → Yields IsJson (encode_nil_interface go r o)
  encode_nil_interface-Yields r none h = encode_nil-Yields r
  encode_nil_interface-Yields r (some d) h =
      kept-IsJson r (interface_of (scalar d)) (encode_scalar go r d) (encode_scalar-Yields r d h)

  pub marshaled-Yields :
      (is_nil : Bool) (raw : Option Bytes)
      → CleanRaw go raw
      → Yields IsJson (marshaled go is_nil raw)
  marshaled-Yields true raw h = null_json
  marshaled-Yields false none h = tt
  marshaled-Yields false (some raw) h = h
