-- ===== src/Errors/Tests.antt =====
-- Runs of the error handler, and the theorems at them.
use gofi.Prelude.{◌≡◌, refl, false, none, some, ◌∷◌, ◌++◌, Bytes, codes, itoa, ltb, if◌then◌else◌}
use gofi.Chain.{HttpError}
use gofi.Errors.{escape, error_prefix, default_error_handler}
use gofi.Errors.Json.{read_string, default_error_handler_lem, escape-IsControl}

abbrev not_found : HttpError
not_found = record { code = 404; message = codes "no \"x\"" }

not_found_reply : default_error_handler not_found ≡ record {
  code = 404;
  body = codes "{\"status\":\"error\",\"statusCode\":404,\"message\":\"no \\\"x\\\"\"}";
}
unfolding default_error_handler itoa
not_found_reply = refl

default_error_handler_lem_example :
    ((default_error_handler not_found).code ≡ (if ltb 0 404 then 404 else 500))
    × ((text : Bytes) × ((default_error_handler not_found).body
          ≡ error_prefix (default_error_handler not_found).code ++ text)
        × (read_string false text ≡ some (codes "no \"x\"", codes "}")))
default_error_handler_lem_example =
    default_error_handler_lem not_found (refl, (refl, (refl, (refl, (refl, (refl, tt))))))

escape-IsControl_example :
    read_string false (escape (codes "a" ++ 1 ∷ codes "b") ++ codes "\"}") ≡ none
escape-IsControl_example = escape-IsControl (codes "a") (codes "b") (codes "\"}") 1 (refl, tt) refl
