-- ===== src/Adapter/Tests.antt =====
-- Runs of the response writer.
use gofi.Prelude.{◌≡◌, refl, List, [], ◌∷◌, ◌++◌, Bytes, codes}
use gofi.Adapter.{
  Response, WriterCall, set_value, add_value, write_bytes, write_status, add_all, respond,
}
use gofi.Adapter.Laws.{header_after, respond-sets}

abbrev Headers : Type 0
Headers = List (Bytes × Bytes)

abbrev collect : Bytes → Bytes → Headers → Headers
collect key v h = h ++ (key, v) ∷ []

abbrev empty_response : Response Headers
empty_response = record { headers = []; status = 200; body = [] }

-- middleware/etag.go behind middleware/requestid.go, around a handler that writes by its writer: the
-- tag is not sent.
abbrev tagged : List WriterCall
tagged =
    set_value (codes "X-Request-Id") (codes "7")
    ∷ write_status 200
    ∷ write_bytes (codes "ok")
    ∷ set_value (codes "Etag") (codes "2-1")
    ∷ []

tag_lost :
    respond collect tagged empty_response
    ≡ record { headers = (codes "X-Request-Id", codes "7") ∷ []; status = 200; body = codes "ok" }
unfolding respond
tag_lost = refl

-- Where no header was there at the first write, the tag is sent.
abbrev tagged_alone : List WriterCall
tagged_alone = write_bytes (codes "ok") ∷ set_value (codes "Etag") (codes "2-1") ∷ []

tag_sent :
    respond collect tagged_alone empty_response
    ≡ record { headers = (codes "Etag", codes "2-1") ∷ []; status = 200; body = codes "ok" }
unfolding respond
tag_sent = refl

abbrev cookies : List WriterCall
cookies =
    add_value (codes "Set-Cookie") (codes "a")
    ∷ add_value (codes "Set-Cookie") (codes "b")
    ∷ write_bytes []
    ∷ write_status 201
    ∷ []

cookies_once : respond collect cookies empty_response ≡ record {
  headers = (codes "Set-Cookie", codes "a") ∷ (codes "Set-Cookie", codes "b") ∷ [];
  status = 201;
  body = [];
}
unfolding respond
cookies_once = refl

respond-sets_example :
    (respond collect tagged empty_response).headers
    ≡ add_all collect (header_after (set_value (codes "X-Request-Id") (codes "7") ∷ []) []) []
respond-sets_example =
    respond-sets collect [] (set_value (codes "X-Request-Id") (codes "7")) [] (write_status 200)
      (write_bytes (codes "ok") ∷ set_value (codes "Etag") (codes "2-1") ∷ []) empty_response tt
      (tt, tt) tt
