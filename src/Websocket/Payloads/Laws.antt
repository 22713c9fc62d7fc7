-- ===== src/Websocket/Payloads/Laws.antt =====
-- websocket/websocket.go, `validatePayloadSchema`: the cache, and what a payload is checked for.
use gofi.Prelude.{
  ◌≡◌, refl, sym, ap, ◌∙◌, inl, inr, Bool, true, false, not, Option, none, some, some-injective,
  List, [], ◌∷◌, if◌then◌else◌, All, Option-cases, Bool-cases,
}
use gofi.Websocket.Payloads.{
  StructFieldRule, PayloadError, nil_payload, type_mismatch, not_struct, Reflection,
  build_field_rules, Cache, load, get_cached_struct_validator, validate_struct, with_validator,
  validate_payload_schema,
}

-- The types are compared by identity.
abbrev pub IsIdentity : {T V : Type 0} → Reflection T V → Type 0
IsIdentity go = (t u : _) → go.same_type t u ≡ true → t ≡ u

module _ {T V : Type 0} (go : Reflection T V) where
  -- Each entry is what would be built for its type.
  abbrev pub IsCoherent : Cache T → Type 0
  IsCoherent cache = All (λ e. e.1 ≡ build_field_rules (go.fields_of e.0)) cache

  -- The check without a cache: a schema asks for a payload of its own type, which is a struct, and
  -- for which no tagged field fails.
  abbrev pub checked : Option V → Option V → Option (PayloadError T)
  checked payload none = none
  checked none (some schema) = some nil_payload
  checked (some v) (some schema) =
      let t = go.type_of v in
      if not (go.same_type t (go.type_of schema))
      then some (type_mismatch (go.type_of schema) t)
      else if not (go.is_struct t)
      then some (not_struct t)
      else validate_struct go (build_field_rules (go.fields_of t)) v

  load-IsCoherent :
      (cache : Cache T) (t : T) (rules : List StructFieldRule)
      → IsIdentity go
      → IsCoherent cache
      → load go cache t ≡ some rules
      → rules ≡ build_field_rules (go.fields_of t)
  unfolding load
  load-IsCoherent [] t rules same h e = cc
  load-IsCoherent ((u, kept) ∷ cache) t rules same h e = elim (Bool-cases (go.same_type u t)) [
    | inl is ↦
        sym (some-injective _ _ (sym (found is) ∙ e))
        ∙ h.0
        ∙ ap (λ x. build_field_rules (go.fields_of x)) (same u t is)
    | inr other ↦ load-IsCoherent cache t rules same h.1 (sym (passed other) ∙ e)
  ]
    where
      found : go.same_type u t ≡ true → load go ((u, kept) ∷ cache) t ≡ some kept
      found is = rw is refl

      passed : go.same_type u t ≡ false → load go ((u, kept) ∷ cache) t ≡ load go cache t
      passed other = rw other refl

  -- The validator that is got is the one that would be built.
  abbrev IsGot : Cache T → T → Option (List StructFieldRule) × Cache T → Type 0
  IsGot cache t r =
      (r.0 ≡ (if not (go.is_struct t) then none else some (build_field_rules (go.fields_of t))))
      × IsCoherent r.1

  get_cached-IsGot :
      (cache : Cache T) (t : T)
      → IsIdentity go
      → IsCoherent cache
      → IsGot cache t (get_cached_struct_validator go cache t)
  unfolding get_cached_struct_validator
  get_cached-IsGot cache t same h = elim (Bool-cases (go.is_struct t)) [
    | inr e ↦ rw e (refl, h)
    | inl e ↦ elim (Option-cases (load go cache t)) [
      | inl gone ↦ rw (e, gone) (refl, (refl, h))
      | inr (rules, here) ↦ rw (e, here) (ap some (load-IsCoherent cache t rules same h here), h)
    ]
  ]

  with_validator-checked :
      (t : T) (v : V) (cache : Cache T) (r : Option (List StructFieldRule) × Cache T)
      → IsGot cache t r
      → ((with_validator go t v r).0 ≡ (
          if not (go.is_struct t)
          then some (not_struct t)
          else validate_struct go (build_field_rules (go.fields_of t)) v))
        × IsCoherent (with_validator go t v r).1
  with_validator-checked t v cache (none, kept) (e, h) = elim (Bool-cases (go.is_struct t)) [
    | inl is ↦ absurd (none-got (go.is_struct t) _ is e)
    | inr no_struct ↦ (rw no_struct refl, h)
  ]
    where
      none-got :
          (b : Bool) (rules : List StructFieldRule)
          → b ≡ true
          → none ≡ (if not b then none else some rules)
          → ⊥
      none-got true rules is e = cc
      none-got false rules is e = cc
  with_validator-checked t v cache (some rules, kept) (e, h) = elim (Bool-cases (go.is_struct t)) [
    | inr no_struct ↦ absurd (some-got (go.is_struct t) _ rules no_struct e)
    | inl is ↦ (rw is (ap (λ x. validate_struct go x v) (got (go.is_struct t) _ rules is e)), h)
  ]
    where
      some-got :
          (b : Bool) (rules kept : List StructFieldRule)
          → b ≡ false
          → some kept ≡ (if not b then none else some rules)
          → ⊥
      some-got true rules kept is e = cc
      some-got false rules kept is e = cc

      got :
          (b : Bool) (rules kept : List StructFieldRule)
          → b ≡ true
          → some kept ≡ (if not b then none else some rules)
          → kept ≡ rules
      got true rules kept is e = some-injective _ _ e
      got false rules kept is e = cc

  -- With a cache whose entries are what was built for their types, the cached check gives what the
  -- check without a cache does, and leaves such a cache.
  pub validate_payload_schema-checked :
      (cache : Cache T) (payload schema : Option V)
      → IsIdentity go
      → IsCoherent cache
      → ((validate_payload_schema go cache payload schema).0 ≡ checked payload schema)
        × IsCoherent (validate_payload_schema go cache payload schema).1
  unfolding validate_payload_schema
  validate_payload_schema-checked cache payload none same h = (refl, h)
  validate_payload_schema-checked cache none (some schema) same h = (refl, h)
  validate_payload_schema-checked cache (some v) (some schema) same h =
      elim (Bool-cases (go.same_type (go.type_of v) (go.type_of schema))) [
        | inr other ↦ rw other (refl, h)
        | inl is ↦ rw is (
            with_validator-checked (go.type_of v) v cache
              (get_cached_struct_validator go cache (go.type_of v))
              (get_cached-IsGot cache (go.type_of v) same h))
      ]
