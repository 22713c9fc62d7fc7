-- ===== src/Requests/Run.antt =====
-- requests.go: `validateAndOrBindRequest`, which checks the parts in their order, and `Validate`,
-- which keeps its result for the next call.
use gofi.Prelude.{
  Bool, true, false, Option, none, some, List, [], ◌∷◌, ◌++◌, ◌==◌, if◌then◌else◌, Bytes, codes,
  length,
}
use gofi.Store.{Items, get}
use gofi.Json.Walk.{info_of, Walked, refused, broke}
use gofi.Requests.{
  RequestError, at, RequestOutcome, passes, rejects, breaks, PartMask, is_part_all, Selected, mask,
  invalid, build_request_part_mask, PropertyRules, PartRules, Texts, BodyParser, Services,
  get_serializer, as_errors, schema_req, schema_headers, schema_query, schema_path, schema_cookies,
  schema_body, get_part, request_content, do_validate_str, do_validate_cookie,
}

module _ {F D : Type 0} where
  -- The loop over the properties of a part, with the errors that it joins.
  unfoldable pub check_each :
      (PropertyRules F D → List RequestError) → Items (PropertyRules F D) → List RequestError
  check_each check [] = []
  check_each check ((key, def) ∷ items) = check def ++ check_each check items

  abbrev pub check_part :
      (PropertyRules F D → List RequestError) → Option (PartRules F D) → List RequestError
  check_part check none = []
  check_part check (some pdef) = check_each check pdef.properties

  abbrev pub part_errors :
      Bool → (PropertyRules F D → List RequestError) → Option (PartRules F D) → List RequestError
  part_errors true check pdef = check_part check pdef
  part_errors false check pdef = []

-- "if len(errs) > 0 { return nil, errors.Join(errs...) }"
abbrev pub unless_errors : List RequestError → RequestOutcome → RequestOutcome
unless_errors [] next = next
unless_errors (e ∷ errs) next = rejects (e ∷ errs)

abbrev pub reject_at : Bytes → List Bytes → Bytes → RequestOutcome
reject_at part keys rule = rejects (at part keys rule ∷ [])

-- The error of a body parser.
abbrev pub outcome_of : Walked → RequestOutcome
outcome_of (refused rs) = rejects (as_errors schema_body rs)
outcome_of broke = breaks
outcome_of _ = passes

module _ {F D : Type 0} (services : Services F D) (texts : Texts) where
  abbrev pub parse_body : Bytes → PartRules F D → Option (BodyParser F D) → RequestOutcome
  parse_body content pdef none = reject_at schema_body (content ∷ []) (codes "required")
  parse_body content pdef (some sz) = outcome_of (sz.validate_and_decode pdef.json texts.body)

  -- The part behind "Handle Body".
  abbrev pub check_body : Items (PartRules F D) → PartRules F D → RequestOutcome
  check_body req pdef =
      let content = request_content req texts in
      if pdef.kind_is_invalid
      then passes
      else if length texts.body == 0
      then (if (info_of pdef.json).required
          then reject_at schema_body [] (codes "required")
          else passes)
      else parse_body content pdef (get_serializer services.body_parsers content)

  unfoldable pub handle_body : Items (PartRules F D) → Option (PartRules F D) → RequestOutcome
  unfolding request_content get_serializer
  handle_body req none = passes
  handle_body req (some pdef) = check_body req pdef

  abbrev pub body_outcome : Bool → Items (PartRules F D) → RequestOutcome
  body_outcome false req = passes
  body_outcome true req = handle_body req (get_part req schema_body)

  -- The parts in their order. Without rules all loops are empty.
  unfoldable pub check_parts : PartMask → Items (PartRules F D) → RequestOutcome
  unfolding do_validate_str do_validate_cookie check_each handle_body get
  check_parts m req =
      unless_errors
        (part_errors m.part_header (do_validate_str services schema_headers texts.header_get)
          (get_part req schema_headers))
        (unless_errors
          (part_errors m.part_query (do_validate_str services schema_query texts.query_get)
            (get_part req schema_query))
          (unless_errors
            (part_errors m.part_path (do_validate_str services schema_path texts.params_get)
              (get_part req schema_path))
            (unless_errors
              (part_errors m.part_cookie (do_validate_cookie services texts.cookie)
                (get_part req schema_cookies))
              (body_outcome m.part_body req))))

  -- `validateAndOrBindRequest`; a route without a schema has no rules at all.
  unfoldable pub validate_and_or_bind_request :
      PartMask → Option (Items (PartRules F D)) → RequestOutcome
  unfolding check_parts
  validate_and_or_bind_request m none = reject_at schema_req [] (codes "required")
  validate_and_or_bind_request m (some []) = passes
  validate_and_or_bind_request m (some (r ∷ req)) = check_parts m (r ∷ req)

-- `bindedResult`, without a bound value
pub record BindedResult : Type 0 where
  pub bound : Bool
  pub err : Option (List RequestError)

abbrev pub no_result : BindedResult
no_result = record { bound = false; err = none }

abbrev pub outcome_of_result : Option (List RequestError) → RequestOutcome
outcome_of_result none = passes
outcome_of_result (some errs) = rejects errs

-- What is kept of an outcome; a panic leaves the function.
abbrev pub keep_outcome : RequestOutcome → BindedResult → BindedResult
keep_outcome passes cached = record { bound = true; err = none }
keep_outcome (rejects errs) cached = record { bound = true; err = some errs }
keep_outcome breaks cached = cached

module _ {F D : Type 0} (services : Services F D) where
  abbrev pub validate_mask : Bool → RequestOutcome → BindedResult → RequestOutcome × BindedResult
  validate_mask use_cache run cached =
      if use_cache
      then (if cached.bound
          then (outcome_of_result cached.err, cached)
          else (run, keep_outcome run cached))
      else (run, cached)

  abbrev pub validate_selected :
      Option (Items (PartRules F D))
      → Texts
      → Selected
      → BindedResult
      → RequestOutcome × BindedResult
  validate_selected rules texts (invalid s) cached =
      (reject_at schema_req (s ∷ []) (codes "invalid_selector"), cached)
  validate_selected rules texts (mask m) cached =
      validate_mask (is_part_all m) (validate_and_or_bind_request services texts m rules) cached

  -- `Validate` of a context, with the selectors of the call.
  unfoldable pub validate_call :
      Option (Items (PartRules F D))
      → Texts
      → List Bytes
      → BindedResult
      → RequestOutcome × BindedResult
  unfolding validate_and_or_bind_request is_part_all build_request_part_mask
  validate_call rules texts selectors cached =
      validate_selected rules texts (build_request_part_mask selectors) cached
