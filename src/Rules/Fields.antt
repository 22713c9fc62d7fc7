-- ===== src/Rules/Fields.antt =====
-- rules.go: what `setReq` and `setResps` store, and what is read back.
use gofi.Prelude.{
  ◌≡◌, refl, ◌∙◌, ap, Option, none, some, ◌∷◌, [], ◌++◌, Bytes, bytes_eq_refl, Option-cases, inl,
  inr,
}
use gofi.Store.{Items, get, set}
use gofi.Store.Laws.{get-set}
use gofi.Rules.{RuleDef, SchemaRules, set_req, set_resps, get_req_rules}

-- The rules of a field of a response.
abbrev pub resp_field : SchemaRules → Bytes → Bytes → Option RuleDef
resp_field s key field = elim (get s.responses key) [ none ↦ none | some fields ↦ get fields field ]

get-set_same :
    {V : Type 0} (items : Items V) (key : Bytes) (v : V) → get (set items key v) key ≡ some v
get-set_same items key v = get-set items key v key ∙ rw (bytes_eq_refl key) refl

resp_field-of :
    (s : SchemaRules) (key field : Bytes) (fields : Items RuleDef)
    → get s.responses key ≡ some fields
    → resp_field s key field ≡ get fields field
resp_field-of s key field fields e = rw (e, resp_field) refl

get-one : {V : Type 0} (key : Bytes) (v : V) → get ((key, v) ∷ []) key ≡ some v
unfolding get
get-one key v = rw (bytes_eq_refl key) refl

-- The responses with those of a key replaced.
abbrev with_fields : Bytes → Items RuleDef → SchemaRules → SchemaRules
with_fields key fields s = record s { responses = set s.responses key fields }

resp_field-with_fields :
    (key field : Bytes) (fields : Items RuleDef) (s : SchemaRules)
    → resp_field (with_fields key fields s) key field ≡ get fields field
resp_field-with_fields key field fields s =
    resp_field-of (with_fields key fields s) key field fields (get-set_same s.responses key fields)

set_resps-new :
    (key : Bytes) (r : RuleDef) (s : SchemaRules)
    → get s.responses key ≡ none
    → set_resps key (some r) s ≡ with_fields key ((r.field, r) ∷ []) s
unfolding set_resps
set_resps-new key r s e = rw (e, set_resps) refl

set_resps-old :
    (key : Bytes) (r : RuleDef) (s : SchemaRules) (fields : Items RuleDef)
    → get s.responses key ≡ some fields
    → set_resps key (some r) s ≡ with_fields key (set fields r.field r) s
unfolding set_resps
set_resps-old key r s fields e = rw (e, set_resps) refl

-- Rules set for a field of the request are those that are read for it; rules set for a field of a
-- response are there, whatever fields the response had before.
pub set_rules-get :
    (key : Bytes) (r : RuleDef) (s : SchemaRules)
    → (get_req_rules key r.field (set_req key (some r) s) ≡ some r)
      × (resp_field (set_resps key (some r) s) key r.field ≡ some r)
unfolding get_req_rules set_req
set_rules-get key r s = (
  get-set_same s.req (key ++ b'.' ∷ r.field) r,
  elim (Option-cases (get s.responses key)) [
    | inl e ↦
        ap (λ t. resp_field t key r.field) (set_resps-new key r s e)
        ∙ resp_field-with_fields key r.field ((r.field, r) ∷ []) s
        ∙ get-one r.field r
    | inr (fields, e) ↦
        ap (λ t. resp_field t key r.field) (set_resps-old key r s fields e)
        ∙ resp_field-with_fields key r.field (set fields r.field r) s
        ∙ get-set_same fields r.field r
  ],
)
