-- ===== src/Rules/Statuses.antt =====
-- statuses.go: which field of a schema stands for which status codes.
use gofi.Prelude.{
  ℕ, ◌+◌, ◌*◌, ◌-◌, true, false, ◌&&◌, Option, none, some, List, [], ◌∷◌, leb, ◌==◌, if◌then◌else◌,
  String, Bytes, codes,
}

-- An entry of `statuses`: a field and the codes of its `statusInfo`s.
pub record Status : Type 0 where
  pub field : Bytes
  pub infos : List Bytes

abbrev texts : List String → List Bytes
texts [] = []
texts (s ∷ ss) = codes s ∷ texts ss

abbrev status : String → List String → Status
status field infos = record { field = codes field; infos = texts infos }

abbrev pub statuses : List Status
statuses =
    status "Informational" ("1XX" ∷ [])
    ∷ status "Success" ("2XX" ∷ [])
    ∷ status "Redirect" ("3XX" ∷ [])
    ∷ status "ClientError" ("4XX" ∷ [])
    ∷ status "ServerError" ("5XX" ∷ [])
    ∷ status "Err" ("4XX" ∷ "5XX" ∷ [])
    ∷ status "Default" ("default" ∷ [])
    ∷ status "Continue" ("100" ∷ [])
    ∷ status "SwitchingProtocols" ("101" ∷ [])
    ∷ status "Processing" ("102" ∷ [])
    ∷ status "EarlyHints" ("103" ∷ [])
    ∷ status "Ok" ("200" ∷ [])
    ∷ status "Created" ("201" ∷ [])
    ∷ status "Accepted" ("202" ∷ [])
    ∷ status "NonAuthoritativeInformation" ("203" ∷ [])
    ∷ status "NoContent" ("204" ∷ [])
    ∷ status "ResetContent" ("205" ∷ [])
    ∷ status "PartialContent" ("206" ∷ [])
    ∷ status "MultiStatus" ("207" ∷ [])
    ∷ status "AlreadyReported" ("208" ∷ [])
    ∷ status "IMUsed" ("226" ∷ [])
    ∷ status "MultipleChoices" ("300" ∷ [])
    ∷ status "MovedPermanently" ("301" ∷ [])
    ∷ status "Found" ("302" ∷ [])
    ∷ status "SeeOther" ("303" ∷ [])
    ∷ status "NotModified" ("304" ∷ [])
    ∷ status "TemporaryRedirect" ("307" ∷ [])
    ∷ status "PermanentRedirect" ("308" ∷ [])
    ∷ status "BadRequest" ("400" ∷ [])
    ∷ status "Unauthorized" ("401" ∷ [])
    ∷ status "PaymentRequired" ("402" ∷ [])
    ∷ status "Forbidden" ("403" ∷ [])
    ∷ status "NotFound" ("404" ∷ [])
    ∷ status "MethodNotAllowed" ("405" ∷ [])
    ∷ status "NotAcceptable" ("406" ∷ [])
    ∷ status "ProxyAuthenticationRequired" ("407" ∷ [])
    ∷ status "RequestTimeout" ("408" ∷ [])
    ∷ status "Conflict" ("409" ∷ [])
    ∷ status "Gone" ("410" ∷ [])
    ∷ status "LengthRequired" ("411" ∷ [])
    ∷ status "PreconditionFailed" ("412" ∷ [])
    ∷ status "ContentTooLarge" ("413" ∷ [])
    ∷ status "URITooLong" ("414" ∷ [])
    ∷ status "UnsupportedMediaType" ("415" ∷ [])
    ∷ status "RangeNotSatisfiable" ("416" ∷ [])
    ∷ status "ExpectiationFailed" ("417" ∷ [])
    ∷ status "ImTeaPot" ("418" ∷ [])
    ∷ status "MisdirectedRequest" ("421" ∷ [])
    ∷ status "UnprocessableContent" ("422" ∷ [])
    ∷ status "Locked" ("423" ∷ [])
    ∷ status "FailedDependency" ("424" ∷ [])
    ∷ status "TooEarly" ("425" ∷ [])
    ∷ status "UpgradeRequired" ("426" ∷ [])
    ∷ status "PreconditionRequired" ("428" ∷ [])
    ∷ status "TooManyRequests" ("429" ∷ [])
    ∷ status "RequestHeaderFieldsTooLarge" ("431" ∷ [])
    ∷ status "UnavailableForLegalReasons" ("451" ∷ [])
    ∷ status "InternalServerError" ("500" ∷ [])
    ∷ status "NotImplemented" ("501" ∷ [])
    ∷ status "BadGateway" ("502" ∷ [])
    ∷ status "ServiceUnavailable" ("503" ∷ [])
    ∷ status "GatewayTimeout" ("504" ∷ [])
    ∷ status "HTTPVersionNotSupported" ("505" ∷ [])
    ∷ status "VariantAlsoNegotiates" ("506" ∷ [])
    ∷ status "InsufficientStorage" ("507" ∷ [])
    ∷ status "LoopDetected" ("508" ∷ [])
    ∷ status "NotExtended" ("510" ∷ [])
    ∷ status "NetworkAuthenticationRequired" ("511" ∷ [])
    ∷ []

-- strconv.ParseInt of a text of digits, by an accumulator; the texts here have at most three.
abbrev pub digits_value : ℕ → Bytes → Option ℕ
digits_value n [] = some n
digits_value n (c ∷ s) =
    if leb b'0' c && leb c b'9' then digits_value (n * 10 + (c - b'0')) s else none

abbrev pub parse_code : Bytes → Option ℕ
parse_code [] = none
parse_code (c ∷ s) = digits_value 0 (c ∷ s)

abbrev pub add_code : Option ℕ → Bytes → List (ℕ × Bytes) → List (ℕ × Bytes)
add_code none field table = table
add_code (some code) field table = (code, field) ∷ table

-- `buildCodeToStatus`: the fields with one code that is a number
abbrev pub build_table : List Status → List (ℕ × Bytes)
build_table [] = []
build_table (st ∷ sts) = elim st.infos [
  | c ∷ [] ↦ add_code (parse_code c) st.field (build_table sts)
  | _ ↦ build_table sts
]

-- `codeToStatuses[code]`
abbrev pub find_code : List (ℕ × Bytes) → ℕ → Option Bytes
find_code [] code = none
find_code ((c, field) ∷ table) code = elim (c == code) [
  | true ↦ some field
  | false ↦ find_code table code
]

unfoldable pub status_field : ℕ → Option Bytes
status_field code = find_code (build_table statuses) code
