-- ===== src/Websocket/Tests.antt =====
-- Runs of the websocket part.
use gofi.Prelude.{
  ℕ, ◌≡◌, refl, ◌≢◌, inl, inr, true, false, none, some, [], ◌∷◌, arith, ◌==◌, if◌then◌else◌,
  Bool-cases,
}
use gofi.Prelude.{codes}
use gofi.Websocket.{
  HandshakePolicy, Options, set_read_deadline, read_frame, HandshakeOutcome, run_session, handle,
  on_upgrade_attempt, validate_parts, failure, read_message,
}
use gofi.Websocket.Laws.{run_session_lem, IsSession}
use gofi.Websocket.Registry.{
  admitted, running, drained, Registry, new_session_registry, active, track_load, track_store,
  drain_flag, drain_copy, drain_close, drain_reset, loads, stores, flags, copies, closes, resets,
  Steps, stay, go,
}
use gofi.Websocket.Registry.Laws.{AreRunning, sessions-AreRunning}
use gofi.Websocket.Registry.Draining.{drain_closes_sessions}
use gofi.Websocket.Payloads.{Reflection, validate_payload_schema, invalid_field}
use gofi.Websocket.Payloads.Laws.{IsIdentity, IsCoherent, checked, validate_payload_schema-checked}

abbrev options : Options ℕ
options = record {
  validate_handshake = false;
  handshake_selectors = 1 ∷ [];
  max_message_bytes = 0;
  read_timeout = 5;
  write_timeout = 0;
  has_registry = true;
}

abbrev refused_handshake : HandshakeOutcome
refused_handshake = record {
  draining = false;
  is_upgrade = true;
  valid = false;
  upgraded = true;
  hijacked = false;
  tracked = true;
  failed = true;
}

handshake_refused :
    handle options refused_handshake ≡ (on_upgrade_attempt ∷ validate_parts 1 ∷ [], failure)
unfolding handle
handshake_refused = refl

reads_with_deadline : read_message 5 100 ≡ set_read_deadline 105 ∷ read_frame ∷ []
unfolding read_message
reads_with_deadline = refl

abbrev selective : HandshakePolicy ℕ
selective = record { mode = codes "selective"; selectors = [] }

abbrev accepted_handshake : HandshakeOutcome
accepted_handshake = record refused_handshake { valid = true }

run_session_lem_example : IsSession true true (run_session options refused_handshake 100)
run_session_lem_example = run_session_lem options refused_handshake 100

-- One session runs.
abbrev one_session : Registry
one_session = track_store 0 (track_load 0 new_session_registry)

one_session-Steps : Steps new_session_registry one_session
unfolding track_load track_store
one_session-Steps = go (loads 0 refl) (go (stores 0 refl) stay)

abbrev after_drain : Registry
after_drain = drain_reset (drain_close 0 [] (drain_copy (drain_flag one_session)))

drain-Steps : Steps (drain_flag one_session) after_drain
unfolding track_load track_store drain_flag drain_copy drain_close drain_reset
drain-Steps = go (copies refl) (go (closes 0 [] refl) (go (resets refl) stay))

-- The session still runs when `DrainContext` is through, which does not wait for it.
not_awaited : (after_drain.drain ≡ drained) × (after_drain.phase 0 ≡ running)
unfolding track_load track_store drain_flag drain_copy drain_close drain_reset
not_awaited = (refl, refl)

none_admitted : (i : ℕ) → one_session.phase i ≢ admitted
unfolding track_load track_store
none_admitted i e = elim (Bool-cases (0 == i)) [
  | inl same ↦ ground arith
  | inr other ↦ ground arith
]

sessions-AreRunning_example : AreRunning one_session
sessions-AreRunning_example = sessions-AreRunning one_session one_session-Steps

drain_closes_sessions_example :
    (active after_drain ≡ 0)
    × ((i : ℕ) → after_drain.phase i ≡ running → after_drain.closed i ≡ true)
unfolding track_load track_store drain_flag drain_copy drain_close drain_reset
drain_closes_sessions_example =
    drain_closes_sessions one_session after_drain one_session-Steps refl none_admitted drain-Steps
      refl

-- A session between its load and its lock, while the whole of `DrainContext` goes by.
abbrev escaped : Registry
escaped = track_store 0 (drain_reset (drain_copy (drain_flag (track_load 0 new_session_registry))))

escaped-Steps : Steps new_session_registry escaped
unfolding track_load track_store drain_flag drain_copy drain_reset
escaped-Steps =
    go (loads 0 refl)
      (go (flags refl) (go (copies refl) (go (resets refl) (go (stores 0 refl) stay))))

escapes_drain :
    (escaped.drain ≡ drained)
    × (escaped.phase 0 ≡ running)
    × (escaped.closed 0 ≡ false)
    × (active escaped ≡ 1)
unfolding track_load track_store drain_flag drain_copy drain_reset active
escapes_drain = (refl, refl, refl, refl)

-- A type 1 with one tagged field, and values that are numbers.
abbrev reflection : Reflection ℕ ℕ
reflection = record {
  type_of = λ v. 1;
  same_type = λ t u. t == u;
  is_struct = λ t. true;
  fields_of = λ t. record { index = 0 ∷ []; tag = codes "required"; name = codes "Id" } ∷ [];
  is_nil = λ v. false;
  field_by_index = λ v is. v;
  validate = λ v rule. if v == 0 then some (codes "value is required") else none;
}

reflection-IsIdentity : IsIdentity reflection
reflection-IsIdentity t u e = ground arith

field_refused : validate_payload_schema reflection [] (some 0) (some 9) ≡ (
  some (invalid_field (codes "Id") (codes "value is required")),
  (1, record { index = 0 ∷ []; rule = codes "required"; name = codes "Id" } ∷ []) ∷ [],
)
unfolding validate_payload_schema
field_refused = refl

validate_payload_schema-checked_example :
    ((validate_payload_schema reflection [] (some 0) (some 9)).0
      ≡ checked reflection (some 0) (some 9))
    × IsCoherent reflection (validate_payload_schema reflection [] (some 0) (some 9)).1
validate_payload_schema-checked_example =
    validate_payload_schema-checked reflection [] (some 0) (some 9) reflection-IsIdentity tt
