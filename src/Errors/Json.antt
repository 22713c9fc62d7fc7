-- ===== src/Errors/Json.antt =====
-- handler.go: what a JSON reader makes of the message that the default error handler writes.
use gofi.Prelude.{
  ℕ, ◌≡◌, refl, ◌∙◌, ap, codes, Bool, true, false, ◌||◌, Option, none, some, [], ◌∷◌, ◌++◌, arith,
  ltb, leb, ◌==◌, Bytes, if◌then◌else◌, All, append_assoc,
}
use gofi.Chain.{HttpError}
use gofi.Errors.{escape_byte, escape, error_prefix, default_error_handler}

-- The byte that stands behind a backslash, of those that the handler writes.
abbrev pub unescape : ℕ → Option ℕ
unescape c =
    if c == b'"'
    then some b'"'
    else if c == b'\\'
    then some b'\\'
    else if c == b'n'
    then some 10
    else if c == b'r'
    then some 13
    else if c == b't'
    then some 9
    else none

abbrev pub push : ℕ → Option (Bytes × Bytes) → Option (Bytes × Bytes)
push c none = none
push c (some (text, rest)) = some (c ∷ text, rest)

-- A JSON string behind its opening quote, with what follows the closing one (RFC 8259: a control
-- byte must be escaped). The flag tells that a backslash came before.
unfoldable pub read_string : Bool → Bytes → Option (Bytes × Bytes)
read_string escaped [] = none
read_string true (c ∷ s) = elim (unescape c) [ none ↦ none | some b ↦ push b (read_string false s) ]
read_string false (c ∷ s) = elim (c == b'"') [
  | true ↦ some ([], s)
  | false ↦ elim (c == b'\\') [
    | true ↦ read_string true s
    | false ↦ elim (ltb c 32) [ true ↦ none | false ↦ push c (read_string false s) ]
  ]
]

-- The bytes that the handler can write in a JSON string: no control byte but \t, \n and \r.
abbrev pub IsPrintable : ℕ → Type 0
IsPrintable c = ((c == 9 || c == 10 || c == 13 || leb 32 c) ≡ true)

read-escape_byte :
    (c : ℕ) (s : Bytes)
    → IsPrintable c
    → read_string false (escape_byte c ++ s) ≡ push c (read_string false s)
unfolding read_string
read-escape_byte c s h = ground arith

-- Of a message with no other control byte the reader gives back the bytes, up to the closing quote.
pub read_string-escape :
    (msg rest : Bytes)
    → All IsPrintable msg
    → read_string false (escape msg ++ b'"' ∷ rest) ≡ some (msg, rest)
unfolding escape read_string
read_string-escape [] rest h = refl
read_string-escape (c ∷ msg) rest (p, h) =
    ap (read_string false) (append_assoc (escape_byte c) (escape msg) (b'"' ∷ rest))
    ∙ (read-escape_byte c (escape msg ++ b'"' ∷ rest) p
        ∙ ap (push c) (read_string-escape msg rest h))

-- The reply to an error has the error's positive code, or 500, and its body goes on behind the
-- opening quote of the message with a text that a JSON reader reads as the message, if no byte of it
-- is a control byte other than \t, \n and \r; behind the closing quote stands the brace.
pub default_error_handler_lem :
    (e : HttpError)
    → All IsPrintable e.message
    → ((default_error_handler e).code ≡ (if ltb 0 e.code then e.code else 500))
      × ((text : Bytes) × ((default_error_handler e).body
            ≡ error_prefix (default_error_handler e).code ++ text)
          × (read_string false text ≡ some (e.message, codes "}")))
unfolding default_error_handler
default_error_handler_lem e h =
    (refl, (escape e.message ++ codes "\"}", refl, read_string-escape e.message (codes "}") h))

-- Any other control byte is written as it is.
abbrev pub IsControl : ℕ → Type 0
IsControl c = ((c == 9 || c == 10 || c == 13 || leb 32 c) ≡ false)

push-none : (c : ℕ) (r : Option (Bytes × Bytes)) → r ≡ none → push c r ≡ none
push-none c none e = refl
push-none c (some r) e = cc

read-control : (c : ℕ) (s : Bytes) → IsControl c → read_string false (escape_byte c ++ s) ≡ none
unfolding read_string
read-control c s h = ground arith

-- A message with a control byte other than \t, \n and \r, whatever printable text is before it and
-- whatever is behind it, is escaped to a text that is the start of no JSON string.
pub escape-IsControl :
    (before after rest : Bytes) (c : ℕ)
    → All IsPrintable before
    → IsControl c
    → read_string false (escape (before ++ c ∷ after) ++ rest) ≡ none
unfolding escape
escape-IsControl [] after rest c h control =
    ap (read_string false) (append_assoc (escape_byte c) (escape after) rest)
    ∙ read-control c (escape after ++ rest) control
escape-IsControl (x ∷ before) after rest c (p, h) control =
    ap (read_string false) (append_assoc (escape_byte x) (escape (before ++ c ∷ after)) rest)
    ∙ (read-escape_byte x (escape (before ++ c ∷ after) ++ rest) p
        ∙ push-none x _ (escape-IsControl before after rest c h control))
