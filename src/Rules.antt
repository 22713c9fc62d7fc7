-- ===== src/Rules.antt =====
-- rules.go: the rules of a schema, and which of them a response with a status code has to satisfy.
pub mod Statuses
pub mod Responses
pub mod Fields
mod Tests
use gofi.Prelude.{
  ℕ, Bool, true, false, ◌&&◌, ◌||◌, Option, none, some, List, [], ◌∷◌, ◌++◌, leb, if◌then◌else◌,
  Bytes, bytes_eq, codes,
}
use gofi.Store.{Items, get, set}
use gofi.Mux.{is_empty_text}
use gofi.Rules.Statuses.{status_field}

-- `ruleOpts`, without its reflected type and the validator made of it.
pub record RuleOpts : Type 0 where
  pub rule : Bytes
  pub args : List Bytes

-- The part of `RuleDef` that the functions of this file read. `properties` holds the rules of the
-- properties, of which they read the default text.
pub record RuleDef : Type 0 where
  pub field : Bytes
  pub def_str : Bytes
  pub rules : List RuleOpts
  pub properties : Items Bytes

-- `schemaRules`: req and responses
pub record SchemaRules : Type 0 where
  pub req : Items RuleDef
  pub responses : Items (Items RuleDef)

-- `preComputeJSONKey`
abbrev pub json_key : Bytes → Bytes
json_key [] = []
json_key (c ∷ name) = b'"' ∷ (c ∷ name) ++ (b'"' ∷ b':' ∷ [])

-- The loops over r.rules: `hasRule`, `ruleOptions` and `findRules`.
unfoldable pub has_rule : List RuleOpts → Bytes → Bool
has_rule [] rule = false
has_rule (l ∷ rules) rule = bytes_eq l.rule rule || has_rule rules rule

unfoldable pub rule_options : List RuleOpts → Bytes → Option (List Bytes)
rule_options [] rule = none
rule_options (l ∷ rules) rule =
    let rest = rule_options rules rule in if bytes_eq l.rule rule then some l.args else rest

abbrev pub is_among : Bytes → List Bytes → Bool
is_among r [] = false
is_among r (x ∷ xs) = bytes_eq r x || is_among r xs

unfoldable pub find_rules : List RuleOpts → List Bytes → Bytes → Bytes
find_rules [] names fallback = fallback
find_rules (l ∷ rules) names fallback =
    let rest = find_rules rules names fallback in if is_among l.rule names then l.rule else rest

-- `setReq`, with the key "req.field"
unfoldable pub set_req : Bytes → Option RuleDef → SchemaRules → SchemaRules
unfolding set
set_req key none s = s
set_req key (some r) s = record s { req = set s.req (key ++ b'.' ∷ r.field) r }

-- `setResps`
unfoldable pub set_resps : Bytes → Option RuleDef → SchemaRules → SchemaRules
unfolding get set
set_resps key none s = s
set_resps key (some r) s = elim (get s.responses key) [
  | some fields ↦ record s { responses = set s.responses key (set fields r.field r) }
  | none ↦ record s { responses = set s.responses key ((r.field, r) ∷ []) }
]

-- `getReqRules`; `key` of the request is schemaReq.
unfoldable pub get_req_rules : Bytes → Bytes → SchemaRules → Option RuleDef
unfolding get
get_req_rules prefix key s = get s.req (prefix ++ b'.' ∷ key)

abbrev pub between : ℕ → ℕ → ℕ → Bool
between low code high = leb low code && leb code high

module _ {R : Type 0} where
  -- The responses of a field, with the field, or those of the next choice.
  abbrev pub or_field : Items R → Bytes → Option (Bytes × R) → Option (Bytes × R)
  or_field responses field next = elim (get responses field) [
    | some r ↦ some (field, r)
    | none ↦ next
  ]

  -- `handleDefaults`; `none` is its error.
  unfoldable pub handle_defaults : Items R → ℕ → Option (Bytes × R)
  handle_defaults responses code =
      let default = or_field responses (codes "Default") none in
      if between 100 code 199
      then or_field responses (codes "Informational") default
      else if between 200 code 299
      then or_field responses (codes "Success") default
      else if between 300 code 399
      then or_field responses (codes "Redirect") default
      else if between 400 code 499
      then or_field responses (codes "Redirect") (or_field responses (codes "Err") default)
      else if between 500 code 599
      then or_field responses (codes "Err") (or_field responses (codes "Err") default)
      else default

  -- `getRespRulesByCode`
  unfoldable pub get_resp_rules_by_code : Items R → ℕ → Option (Bytes × R)
  unfolding handle_defaults
  get_resp_rules_by_code responses code = elim (status_field code) [
    | some field ↦ or_field responses field (handle_defaults responses code)
    | none ↦ handle_defaults responses code
  ]

-- The default of the property "content-type", then of "Content-Type", then application/json.
abbrev pub default_of : Items Bytes → Bytes → Bytes
default_of properties key = elim (get properties key) [ none ↦ [] | some v ↦ v ]

abbrev pub declared_content : Items Bytes → Bytes
declared_content properties =
    let lower = default_of properties (codes "content-type") in
    let upper = default_of properties (codes "Content-Type") in
    if is_empty_text lower
    then (if is_empty_text upper then codes "application/json" else upper)
    else lower

abbrev pub content_of : RuleDef → Bytes
content_of hs = declared_content hs.properties

-- `respContent`
unfoldable pub resp_content : SchemaRules → ℕ → Bytes
unfolding get_resp_rules_by_code get
resp_content s code = elim (get_resp_rules_by_code s.responses code) [
  | none ↦ codes "application/json"
  | some (field, fields) ↦ elim (get fields (codes "headers")) [
    | none ↦ codes "application/json"
    | some hs ↦ content_of hs
  ]
]

-- `reqContent`
unfoldable pub req_content : Bytes → Bytes → SchemaRules → Bytes
unfolding get_req_rules
req_content prefix headers s = elim (get_req_rules prefix headers s) [
  | none ↦ codes "application/json"
  | some hs ↦ content_of hs
]
