-- ===== src/Chain.antt =====
-- context.go: `Next`, which runs the handlers of a request one inside the other (handler.go has their
-- type), and the chains that mux.go builds. A handler is a program: what it does to the state of
-- the request, and where it calls `c.Next()`.
pub mod Laws
mod Tests
use gofi.Prelude.{
  ℕ, zero, suc, ◌+◌, Option, none, some, List, [], ◌∷◌, ◌++◌, Bytes, length, get_elem?,
}

-- errors.go: `HTTPError`. Any other error of a handler has no code; code 0 stands for that.
pub record HttpError : Type 0 where
  pub code : ℕ
  pub message : Bytes

-- What a handler returns: nil, or an error.
abbrev pub Outcome : Type 0
Outcome = Option HttpError

-- `HandlerFunc` and `MiddlewareFunc` over a state S.
pub data Handler (S : Type 0) : Type 0 where
  stop : Outcome → Handler S
  act : (S → S) → Handler S → Handler S
  look : (S → Handler S) → Handler S
  call_next : (Outcome → Handler S) → Handler S

-- return c.Next()
abbrev pub pass : {S : Type 0} → Handler S
pass = call_next stop

-- `position` is handlerIdx + 1, the number of handlers that were entered.
pub record Context (S : Type 0) : Type 0 where
  pub position : ℕ
  pub state : S

module _ {S : Type 0} where
  unfoldable pub run :
      (Context S → Outcome × Context S) → Handler S → Context S → Outcome × Context S
  run next (stop e) c = (e, c)
  run next (act f h) c = run next h (record c { state = f c.state })
  run next (look h) c = run next (h c.state) c
  run next (call_next h) c = let (e, c') = next c in run next (h e) c'

  abbrev pub advance : Context S → Context S
  advance c = record c { position = c.position + 1 }

  -- `Next`. Each call advances the position, so that the number of handlers is enough fuel.
  unfoldable pub next_from : ℕ → List (Handler S) → Context S → Outcome × Context S
  unfolding run
  next_from zero hs c = (none, advance c)
  next_from (suc f) hs c = elim (get_elem? hs c.position) [
    | none ↦ (none, advance c)
    | some h ↦ run (next_from f hs) h (advance c)
  ]

  unfoldable pub next : List (Handler S) → Context S → Outcome × Context S
  unfolding next_from
  next hs c = next_from (length hs) hs c

  -- c.handlers = hs; c.handlerIdx = -1; c.Next()
  abbrev pub serve : List (Handler S) → S → Outcome × Context S
  serve hs s = next hs (record { position = 0; state = s })
