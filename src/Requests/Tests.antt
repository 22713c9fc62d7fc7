-- ===== src/Requests/Tests.antt =====
-- Runs of the validation of a request.
use gofi.Prelude.{
  ℕ, ◌≡◌, refl, ◌↔◌, Bool, true, false, none, some, List, [], ◌∷◌, map, all, Bytes, bytes_eq, codes,
  String,
}
use gofi.Store.{Items, get}
use gofi.Json.{Kind, string_kind, int_kind, w8, empty, ObjectFormat}
use gofi.Json.Walk.{
  Checked, nothing, RuleInfo, rules_of, no_props, nil, Walked, finished, refused,
  run_validation_lazy,
}
use gofi.Primitives.{primitive_from_str, parse_int, parse_uint, read_digits}
use gofi.Requests.{
  at, RequestOutcome, passes, rejects, PropertyRules, PartRules, Texts, Services, run_validation,
  parse_text, do_validate_str, do_validate_cookie, request_content, get_serializer,
  build_request_part_mask, select_parts, is_part_all,
}
use gofi.Requests.Run.{
  check_each, check_parts, handle_body, validate_and_or_bind_request, no_result, validate_call,
}
use gofi.Requests.Cached.{validate_calls, validate_calls-fresh}
use gofi.Requests.Selectors.{is_selector, named}
use gofi.Requests.Laws.{PartsPass, validate_call-passes}

abbrev if_json : Bool → Walked
if_json true = finished
if_json false = refused (record { keys = []; rule = codes "parser" } ∷ [])

abbrev if_name : Bool → Bytes → Bytes
if_name true s = s
if_name false s = []

abbrev no_services : Services ℕ ℕ
no_services = record {
  decoders = record { find_spec = λ format. none; base64 = λ s. none };
  parse_float = λ b s. none;
  parse_time = λ p s. none;
  body_parsers =
      record {
        match = λ content. bytes_eq content (codes "application/json");
        validate_and_decode = λ rules body. if_json (bytes_eq body (codes "{}"));
      }
      ∷ [];
}

-- "required" for a text
abbrev is_missing : Checked ℕ ℕ → Bool
is_missing nothing = true
is_missing _ = false

abbrev info : Kind → ObjectFormat → Bool → RuleInfo ℕ ℕ
info kind format required = record {
  kind = kind;
  format = format;
  def_val = none;
  rules = record { name = codes "required"; rejects = λ v. is_missing v } ∷ [];
  max = none;
  required = required;
  present = false;
}

abbrev property : String → Kind → Bool → Bytes × PropertyRules ℕ ℕ
property name kind required = (
  codes name,
  record { field = codes name; info = info kind empty required; def_str = []; pattern = [] },
)

abbrev part : Items (PropertyRules ℕ ℕ) → PartRules ℕ ℕ
part properties = record {
  properties = properties;
  kind_is_invalid = false;
  json = rules_of (info string_kind empty true) no_props nil nil;
}

abbrev first_rules : Bytes × PartRules ℕ ℕ
first_rules = (codes "Request.Header", part (property "Count" (int_kind w8) true ∷ []))

abbrev other_rules : Items (PartRules ℕ ℕ)
other_rules =
    (codes "Request.Cookie", part (property "id" string_kind true ∷ []))
    ∷ (codes "Request.Body", part [])
    ∷ []

abbrev texts : String → String → String → Texts
texts count id body = record {
  header_get = λ k. if_name (bytes_eq k (codes "Count")) (codes count);
  query_get = λ k. [];
  params_get = λ k. [];
  cookie = λ k. codes id;
  body = codes body;
}

abbrev call : Texts → List Bytes → RequestOutcome
call t selectors =
    (validate_call no_services (some (first_rules ∷ other_rules)) t selectors no_result).0

abbrev header_only : List Bytes
header_only = codes "request.header" ∷ []

-- All parts, the header alone, and a selector that there is not.
runs :
    (call (texts "7" "x" "{}") [] ≡ passes)
    × ((call (texts "300" "x" "{}") []
          ≡ rejects (at (codes "Header") (codes "Count" ∷ []) (codes "typeCast") ∷ []))
        × ((call (texts "7" "" "{}") []
              ≡ rejects (at (codes "Cookie") (codes "id" ∷ []) (codes "required") ∷ []))
            × ((call (texts "7" "" "") header_only ≡ passes)
                × ((call (texts "7" "x" "[") []
                      ≡ rejects (at (codes "Body") [] (codes "parser") ∷ []))
                    × (call (texts "7" "x" "") (codes "body" ∷ [])
                        ≡ rejects (
                            at (codes "Request") (codes "body" ∷ []) (codes "invalid_selector")
                            ∷ []))))))
unfolding validate_call validate_and_or_bind_request check_parts check_each handle_body get
    do_validate_str do_validate_cookie run_validation run_validation_lazy parse_text
    primitive_from_str parse_int parse_uint read_digits request_content get_serializer
    build_request_part_mask select_parts is_part_all
runs = (refl, (refl, (refl, (refl, (refl, refl)))))

validate_call-passes_example : (call (texts "7" "" "") header_only ≡ passes) ↔ (
    (all is_selector header_only ≡ true)
    × PartsPass no_services (texts "7" "" "") (first_rules ∷ other_rules) (named header_only))
validate_call-passes_example =
    validate_call-passes no_services (texts "7" "" "") first_rules other_rules header_only

abbrev two_calls : List (List Bytes)
two_calls = [] ∷ [] ∷ []

validate_calls-fresh_example :
    validate_calls no_services
      (some (first_rules ∷ other_rules))
      (texts "7" "x" "{}")
      two_calls
      no_result
    ≡ map (λ selectors. call (texts "7" "x" "{}") selectors) two_calls
validate_calls-fresh_example =
    validate_calls-fresh no_services (some (first_rules ∷ other_rules)) (texts "7" "x" "{}")
      two_calls
