-- ===== src/Errors.antt =====
-- handler.go: the default error handler, which writes an error as a JSON object.
pub mod Json
mod Tests
use gofi.Prelude.{ℕ, [], ◌∷◌, ◌++◌, ltb, ◌==◌, if◌then◌else◌, Bytes, codes, itoa}
use gofi.Chain.{HttpError}

-- The cases of the switch on msg[i].
abbrev pub escape_byte : ℕ → Bytes
escape_byte c =
    if c == b'"'
    then b'\\' ∷ b'"' ∷ []
    else if c == b'\\'
    then b'\\' ∷ b'\\' ∷ []
    else if c == 10
    then b'\\' ∷ b'n' ∷ []
    else if c == 13
    then b'\\' ∷ b'r' ∷ []
    else if c == 9
    then b'\\' ∷ b't' ∷ []
    else c ∷ []

-- "Simple JSON string escape for the error message"
unfoldable pub escape : Bytes → Bytes
escape [] = []
escape (c ∷ s) = escape_byte c ++ escape s

pub record ErrorReply : Type 0 where
  pub code : ℕ
  pub body : Bytes

-- code := 500, or that of an `HTTPError` with a positive one
abbrev pub error_code : HttpError → ℕ
error_code e = if ltb 0 e.code then e.code else 500

-- What `preComputedErrPrefix` holds for a few codes, and what is written for the others.
abbrev pub error_prefix : ℕ → Bytes
error_prefix code =
    codes "{\"status\":\"error\",\"statusCode\":" ++ (itoa code ++ codes ",\"message\":\"")

-- `defaultErrorHandler`
unfoldable pub default_error_handler : HttpError → ErrorReply
unfolding escape
default_error_handler e = record {
  code = error_code e;
  body = error_prefix (error_code e) ++ (escape e.message ++ codes "\"}");
}
