-- ===== src/Websocket.antt =====
-- websocket/websocket.go: what is checked before an upgrade, and the life of a session after it.
pub mod Registry
pub mod Payloads
mod Laws
mod Upgrade
mod Tests
use gofi.Prelude.{
  ℕ, ◌+◌, Bool, true, false, not, ◌&&◌, ◌||◌, ◌==◌, Option, none, some, List, [], ◌∷◌, ◌++◌, ltb,
  if◌then◌else◌, Bytes, bytes_eq, codes, length,
}

-- `HandshakePolicy`; a mode is a text.
pub record HandshakePolicy (S : Type 0) : Type 0 where
  pub mode : Bytes
  pub selectors : List S

-- What `Options` says of the handshake, and whether there is a registry.
pub record Options (S : Type 0) : Type 0 where
  pub validate_handshake : Bool
  pub handshake_selectors : List S
  pub max_message_bytes : ℕ
  pub read_timeout : ℕ
  pub write_timeout : ℕ
  pub has_registry : Bool

unfoldable pub apply_handshake_policy :
    {S : Type 0} → Options S → HandshakePolicy S → Bool → Options S
apply_handshake_policy o policy has_schema =
    let off = record o { validate_handshake = false; handshake_selectors = [] } in
    let full = record off { validate_handshake = true } in
    let selective =
      if length policy.selectors == 0
      then full
      else record off { handshake_selectors = policy.selectors } in
    if not has_schema
    then off
    else if bytes_eq policy.mode (codes "off")
    then off
    else if bytes_eq policy.mode (codes "selective")
    then selective
    else full

-- What the handler and the session do to the outside.
pub data Call : Type 0 where
  on_upgrade_attempt on_upgrade_success on_upgrade_error : Call
  on_session_start on_session_end on_session_error : Call
  send : ℕ → Bytes → Call
  validate_all : Call
  validate_parts : ℕ → Call
  upgrade : Call
  set_read_limit : ℕ → Call
  set_read_deadline set_write_deadline : ℕ → Call
  read_frame : Call
  write_frame : ℕ → Bytes → Call
  close_frame : ℕ → Bytes → ℕ → Call
  close : Call
  track_call untrack_call : Call
  run_handler : Call

-- What the request and fasthttp answer: `valid` is the result of `gofi.Validate`, `upgraded` that of
-- `Upgrade`, `tracked` that of `track`, `failed` whether the handler gives an error.
pub record HandshakeOutcome : Type 0 where
  pub draining : Bool
  pub is_upgrade : Bool
  pub valid : Bool
  pub upgraded : Bool
  pub hijacked : Bool
  pub tracked : Bool
  pub failed : Bool

-- The response of the handler: none, an error that is passed on, or a text that was sent.
pub data Reply : Type 0 where
  nothing failure : Reply
  sent : ℕ → Reply

abbrev pub deadline : (ℕ → Call) → ℕ → ℕ → List Call
deadline set timeout now = if ltb 0 timeout then set (now + timeout) ∷ [] else []

-- `ReadMessage` and `WriteMessage`
unfoldable pub read_message : ℕ → ℕ → List Call
read_message timeout now = deadline set_read_deadline timeout now ++ read_frame ∷ []

unfoldable pub write_message : ℕ → ℕ → ℕ → Bytes → List Call
write_message timeout now kind data' =
    deadline set_write_deadline timeout now ++ write_frame kind data' ∷ []

-- `CloseWithReason`, in nanoseconds: two seconds unless there is a timeout for writes.
unfoldable pub close_with_reason : ℕ → ℕ → ℕ → Bytes → List Call
close_with_reason write_timeout now code reason =
    close_frame code reason (now + (if ltb 0 write_timeout then write_timeout else 2000000000))
    ∷ close
    ∷ []

-- From the checked handshake on.
abbrev pub upgrade_with : HandshakeOutcome → List Call × Reply
upgrade_with out =
    if out.upgraded
    then (upgrade ∷ on_upgrade_success ∷ [], nothing)
    else if out.hijacked
    then (upgrade ∷ on_upgrade_error ∷ [], failure)
    else (upgrade ∷ on_upgrade_error ∷ send 400 (codes "websocket handshake failed") ∷ [], sent 400)

abbrev pub after : List Call → List Call × Reply → List Call × Reply
after calls (more, reply) = (calls ++ more, reply)

-- From `track` on, with the deferred function last: with a registry or none, for a session that it
-- tracks or refuses, and a handler that fails or not. `closing` is the close of a refused session.
abbrev pub session_calls : Bool → Bool → Bool → List Call → List Call
session_calls registry tracked failed closing =
    let deferred = (if registry then untrack_call ∷ [] else []) ++ on_session_end ∷ close ∷ [] in
    let served =
      on_session_start
      ∷ run_handler
      ∷ ((if failed then on_session_error ∷ [] else []) ++ deferred) in
    (if registry then track_call ∷ [] else [])
    ++ (if registry && not tracked then closing else served)

module _ {S : Type 0} where
  -- conn.SetReadLimit, conn.SetReadDeadline, conn.SetWriteDeadline
  abbrev pub settings : Options S → ℕ → List Call
  settings o now =
      (if ltb 0 o.max_message_bytes then set_read_limit o.max_message_bytes ∷ [] else [])
      ++ (deadline set_read_deadline o.read_timeout now
          ++ deadline set_write_deadline o.write_timeout now)

  -- The function that the upgrader runs with the connection.
  unfoldable pub run_session : Options S → HandshakeOutcome → ℕ → List Call
  unfolding close_with_reason
  run_session o out now =
      settings o now
      ++ session_calls o.has_registry out.tracked out.failed
          (close_with_reason o.write_timeout now 1013 (codes "server draining"))

  -- The checks of the handshake.
  abbrev pub validation : Options S → List Call
  validation o = elim o.handshake_selectors [
    | s ∷ ss ↦ validate_parts (length (s ∷ ss)) ∷ []
    | [] ↦ if o.validate_handshake then validate_all ∷ [] else []
  ]

  abbrev pub validates : Options S → Bool
  validates o = o.validate_handshake || ltb 0 (length o.handshake_selectors)

  -- The handler of `NewWithContextAndOptions`, with all hooks given. `Upgrade` takes the function
  -- `run_session`, which fasthttp runs later, on the connection.
  unfoldable pub handle : Options S → HandshakeOutcome → List Call × Reply
  handle o out =
      if o.has_registry && out.draining
      then (on_upgrade_attempt ∷ send 503 (codes "websocket server draining") ∷ [], sent 503)
      else if not out.is_upgrade
      then (on_upgrade_attempt ∷ send 426 (codes "websocket upgrade required") ∷ [], sent 426)
      else if validates o && not out.valid
      then (on_upgrade_attempt ∷ validation o, failure)
      else after (on_upgrade_attempt ∷ validation o) (upgrade_with out)
