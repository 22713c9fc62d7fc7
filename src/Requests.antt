-- ===== src/Requests.antt =====
-- requests.go: `Validate` and what it checks of a request. `shouldBind` is false here.
pub mod Run
pub mod Selectors
pub mod Laws
pub mod Cached
mod Tests
use gofi.Prelude.{
  ℕ, Bool, true, false, not, ◌&&◌, Option, none, some, List, [], ◌∷◌, ◌++◌, if◌then◌else◌, Bytes,
  bytes_eq, codes,
}
use gofi.Store.{Items, get}
use gofi.Mux.{is_empty_text}
use gofi.Rules.{declared_content}
use gofi.Json.{ObjectFormat, time_object, cookie_object, JsonValue, text_value}
use gofi.Json.Walk.{
  Checked, nothing, one, Rule, RuleInfo, JsonRules, Report, Walked, Decoders, run_validation_lazy,
}
use gofi.Primitives.{Parsed, no_value, not_primitive, absent, parsed, primitive_from_str}

-- An error of a request: an `errReport` with its field, the keys of its schemaValue and its rule, or
-- another error.
pub data RequestError : Type 0 where
  at : Bytes → List Bytes → Bytes → RequestError
  plain : RequestError

-- What `Validate` returns: nil, an error that joins errors, or a panic of a body parser.
pub data RequestOutcome : Type 0 where
  passes : RequestOutcome
  rejects : List RequestError → RequestOutcome
  breaks : RequestOutcome

-- `requestPartMask`, whose bits are the fields.
pub record PartMask : Type 0 where
  pub part_header : Bool
  pub part_path : Bool
  pub part_query : Bool
  pub part_cookie : Bool
  pub part_body : Bool

abbrev pub part_all : PartMask
part_all = record {
  part_header = true;
  part_path = true;
  part_query = true;
  part_cookie = true;
  part_body = true;
}

abbrev pub no_part : PartMask
no_part = record {
  part_header = false;
  part_path = false;
  part_query = false;
  part_cookie = false;
  part_body = false;
}

-- `mask == partAll`
unfoldable pub is_part_all : PartMask → Bool
is_part_all mask =
    mask.part_header
    && (mask.part_path && (mask.part_query && (mask.part_cookie && mask.part_body)))

-- The loop of `buildRequestPartMask`; a text that is no selector stops it.
pub data Selected : Type 0 where
  mask : PartMask → Selected
  invalid : Bytes → Selected

unfoldable pub select_parts : List Bytes → PartMask → Selected
select_parts [] m = mask m
select_parts (s ∷ selectors) m =
    let with_header = select_parts selectors (record m { part_header = true }) in
    let with_path = select_parts selectors (record m { part_path = true }) in
    let with_query = select_parts selectors (record m { part_query = true }) in
    let with_cookie = select_parts selectors (record m { part_cookie = true }) in
    let with_body = select_parts selectors (record m { part_body = true }) in
    if bytes_eq s (codes "request.header")
    then with_header
    else if bytes_eq s (codes "request.path")
    then with_path
    else if bytes_eq s (codes "request.query")
    then with_query
    else if bytes_eq s (codes "request.cookie")
    then with_cookie
    else if bytes_eq s (codes "request.body")
    then with_body
    else invalid s

unfoldable pub build_request_part_mask : List Bytes → Selected
unfolding select_parts
build_request_part_mask [] = mask part_all
build_request_part_mask (s ∷ selectors) = select_parts (s ∷ selectors) no_part

-- `RuleDef` of a header, a cookie or another text of the request.
pub record PropertyRules (F D : Type 0) : Type 0 where
  pub field : Bytes
  pub info : RuleInfo F D
  pub def_str : Bytes
  pub pattern : Bytes

-- `RuleDef` of a part of the request; `properties` is a Go map, in the order in which it is visited.
pub record PartRules (F D : Type 0) : Type 0 where
  pub properties : Items (PropertyRules F D)
  pub kind_is_invalid : Bool
  pub json : JsonRules F D

-- What the context reads of the request, where a text that is not there is empty. An empty cookie
-- counts as none.
pub record Texts : Type 0 where
  pub header_get : Bytes → Bytes
  pub query_get : Bytes → Bytes
  pub params_get : Bytes → Bytes
  pub cookie : Bytes → Bytes
  pub body : Bytes

-- `BodyParser`, to which a program can add its own, and what the code calls of `time` and `strconv`.
pub record BodyParser (F D : Type 0) : Type 0 where
  pub match : Bytes → Bool
  pub validate_and_decode : JsonRules F D → Bytes → Walked

pub record Services (F D : Type 0) : Type 0 where
  pub decoders : Decoders F D
  pub parse_float : ℕ → Bytes → Option F
  pub parse_time : Bytes → Bytes → Option (JsonValue F D)
  pub body_parsers : List (BodyParser F D)

-- `getSerializer`
unfoldable pub get_serializer :
    {F D : Type 0} → List (BodyParser F D) → Bytes → Option (BodyParser F D)
get_serializer [] content = none
get_serializer (bp ∷ bps) content =
    let rest = get_serializer bps content in if bp.match content then some bp else rest

abbrev pub as_error : Bytes → Report → RequestError
as_error part r = at part r.keys r.rule

abbrev pub as_errors : Bytes → List Report → List RequestError
as_errors part [] = []
as_errors part (r ∷ rs) = as_error part r ∷ as_errors part rs

-- "Header" and the other values of `schemaField`
abbrev pub schema_req : Bytes
schema_req = codes "Request"

abbrev pub schema_headers : Bytes
schema_headers = codes "Header"

abbrev pub schema_query : Bytes
schema_query = codes "Query"

abbrev pub schema_path : Bytes
schema_path = codes "Path"

abbrev pub schema_cookies : Bytes
schema_cookies = codes "Cookie"

abbrev pub schema_body : Bytes
schema_body = codes "Body"

module _ {F D : Type 0} where
  -- `runValidation`, with the errors that it joins
  unfoldable pub run_validation : Checked F D → Bytes → Bytes → List (Rule F D) → List RequestError
  unfolding run_validation_lazy
  run_validation val part keypath rules =
      as_errors part (run_validation_lazy val (keypath ∷ []) rules)

  abbrev pub get_part : Items (PartRules F D) → Bytes → Option (PartRules F D)
  get_part req key = get req (schema_req ++ b'.' ∷ key)

  -- `reqContent`
  abbrev pub def_strs : Items (PropertyRules F D) → Items Bytes
  def_strs [] = []
  def_strs ((key, def) ∷ items) = (key, def.def_str) ∷ def_strs items

  abbrev pub content_of_part : Option (PartRules F D) → Bytes
  content_of_part none = codes "application/json"
  content_of_part (some headers) = declared_content (def_strs headers.properties)

  -- The fallback to the content type of the request.
  unfoldable pub request_content : Items (PartRules F D) → Texts → Bytes
  unfolding get
  request_content req texts =
      let content = content_of_part (get_part req schema_headers) in
      let actual = texts.header_get (codes "Content-Type") in
      if bytes_eq content (codes "application/json") && not (is_empty_text actual)
      then actual
      else content

module _ {F D : Type 0} (services : Services F D) where
  -- The value of a text, with its error: of a custom spec, of the kind, or of a time.
  abbrev pub parse_special : PropertyRules F D → Bytes → ObjectFormat → Parsed F D
  parse_special def qv time_object = elim (services.parse_time def.pattern qv) [
    | none ↦ no_value
    | some v ↦ parsed v
  ]
  parse_special def qv _ = no_value

  abbrev pub or_special : PropertyRules F D → Bytes → Parsed F D → Parsed F D
  or_special def qv no_value = parse_special def qv def.info.format
  or_special def qv not_primitive = parse_special def qv def.info.format
  or_special def qv p = p

  abbrev pub decoded : Option (JsonValue F D) → Parsed F D
  decoded none = no_value
  decoded (some v) = parsed v

  unfoldable pub parse_text : PropertyRules F D → Bytes → Parsed F D
  unfolding primitive_from_str
  parse_text def qv = elim (services.decoders.find_spec def.info.format) [
    | some decode ↦ decoded (decode (some (text_value qv)))
    | none ↦ or_special def qv (primitive_from_str services.parse_float def.info.kind qv)
  ]

  abbrev pub check_text : Bytes → PropertyRules F D → Parsed F D → List RequestError
  check_text part def absent = run_validation nothing part def.field def.info.rules
  check_text part def (parsed v) = run_validation (one v) part def.field def.info.rules
  check_text part def _ = at part (def.field ∷ []) (codes "typeCast") ∷ []

  abbrev pub or_def_str : PropertyRules F D → Bytes → Bytes
  or_def_str def [] = def.def_str
  or_def_str def (c ∷ qv) = c ∷ qv

  -- `doValidateStrAndBind`
  unfoldable pub do_validate_str : Bytes → (Bytes → Bytes) → PropertyRules F D → List RequestError
  unfolding parse_text run_validation
  do_validate_str part text_of def =
      let qv = or_def_str def (text_of def.field) in
      if not def.info.required && is_empty_text qv
      then []
      else check_text part def (parse_text def qv)

  -- The body of the loop over the cookies.
  abbrev pub check_primitive : PropertyRules F D → Parsed F D → List RequestError
  check_primitive def no_value = plain ∷ []
  check_primitive def not_primitive = at schema_cookies (def.field ∷ []) (codes "invalid_type") ∷ []
  check_primitive def absent = run_validation nothing schema_cookies def.field def.info.rules
  check_primitive def (parsed v) = run_validation (one v) schema_cookies def.field def.info.rules

  abbrev pub check_cookie : PropertyRules F D → Bytes → ObjectFormat → List RequestError
  check_cookie def cv cookie_object =
      run_validation (one (text_value cv)) schema_cookies def.field def.info.rules
  check_cookie def cv _ =
      check_primitive def (primitive_from_str services.parse_float def.info.kind cv)

  unfoldable pub do_validate_cookie : (Bytes → Bytes) → PropertyRules F D → List RequestError
  unfolding run_validation primitive_from_str
  do_validate_cookie cookie_get def =
      let cv = cookie_get def.field in
      if is_empty_text cv
      then (if def.info.required
          then at schema_cookies (def.field ∷ []) (codes "required") ∷ []
          else [])
      else check_cookie def cv def.info.format
