-- ===== src/Websocket/Upgrade.antt =====
-- websocket/websocket.go: when the handler of a policy validates a handshake and completes the upgrade.
use gofi.Prelude.{
  ◌≡◌, refl, inl, inr, Bool, true, false, not, ◌&&◌, List, [], ◌∷◌, arith, ◌==◌, if◌then◌else◌,
  bytes_eq, length, Bool-cases,
}
use gofi.Prelude.{codes}
use gofi.Websocket.{
  HandshakePolicy, Options, apply_handshake_policy, Call, validate_all, validate_parts, Reply,
  validates, on_upgrade_success, nothing,
}

-- The choice of "selective", or of full validation.
selects :
    {S : Type 0} (b : Bool) (o : Options S) (ss : List S)
    → validates (
        if b
        then (if length ss == 0
            then record o { validate_handshake = true; handshake_selectors = [] }
            else record o { validate_handshake = false; handshake_selectors = ss })
        else record o { validate_handshake = true; handshake_selectors = [] })
      ≡ true
selects true o [] = refl
selects true o (s ∷ ss) = ground arith
selects false o ss = refl

-- With the options that a policy gives, the handshake is validated exactly where the route has a
-- schema and the mode is not "off": "selective" without selectors, and a mode that is not known,
-- validate everything.
pub validates-apply_handshake_policy :
    {S : Type 0} (o : Options S) (policy : HandshakePolicy S) (has_schema : Bool)
    → validates (apply_handshake_policy o policy has_schema)
      ≡ (has_schema && not (bytes_eq policy.mode (codes "off")))
unfolding apply_handshake_policy
validates-apply_handshake_policy o policy has_schema = elim (Bool-cases has_schema) [
  | inr e ↦ rw e refl
  | inl e ↦ elim (Bool-cases (bytes_eq policy.mode (codes "off"))) [
    | inl off ↦ rw (e, off) refl
    | inr on ↦ rw (e, on) (selects (bytes_eq policy.mode (codes "selective")) o policy.selectors)
  ]
]

abbrev pub is_success_call : Call → Bool
is_success_call on_upgrade_success = true
is_success_call _ = false

abbrev pub is_validation_call : Call → Bool
is_validation_call validate_all = true
is_validation_call (validate_parts k) = true
is_validation_call _ = false

abbrev pub is_nothing : Reply → Bool
is_nothing nothing = true
is_nothing _ = false
