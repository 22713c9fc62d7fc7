-- ===== src/Websocket/Registry.antt =====
-- websocket/websocket.go, `SessionRegistry`: the sessions and a drain, as steps that interleave. A
-- session is a number here. Each step is what happens between two points where another goroutine
-- may go on: a load or a store of `draining`, or a part under the lock.
pub mod Laws
pub mod Draining
use gofi.Prelude.{ℕ, Bool, true, false, not, List, [], ◌∷◌, ◌==◌, if◌then◌else◌, length, ◌≡◌}

-- How far the goroutine of a session is: before `track`, between its load of `draining` and its
-- lock, in the handler, and the two ends, refused or behind `untrack`.
pub data Phase : Type 0 where
  waiting admitted running refused finished : Phase

-- How far `DrainContext` is: not called, behind the store, in the loop of the closes with the
-- sessions that are left, behind the loop and the new map.
pub data Drain : Type 0 where
  idle flagged : Drain
  closing : List ℕ → Drain
  drained : Drain

pub record Registry : Type 0 where
  pub sessions : List ℕ
  pub draining : Bool
  pub drain : Drain
  pub phase : ℕ → Phase
  pub closed : ℕ → Bool

-- `NewSessionRegistry`
abbrev pub new_session_registry : Registry
new_session_registry = record {
  sessions = [];
  draining = false;
  drain = idle;
  phase = λ i. waiting;
  closed = λ i. false;
}

abbrev pub update_at : {A : Type 0} → (ℕ → A) → ℕ → A → ℕ → A
update_at f i a j = if i == j then a else f j

-- delete(r.sessions, s)
unfoldable pub remove : ℕ → List ℕ → List ℕ
remove i [] = []
remove i (j ∷ js) = let rest = remove i js in if i == j then rest else j ∷ rest

-- r.sessions[s] = struct{}{}
unfoldable pub insert : ℕ → List ℕ → List ℕ
unfolding remove
insert i js = i ∷ remove i js

-- `Active`
unfoldable pub active : Registry → ℕ
active r = length r.sessions

-- `track` up to its lock. A session that is refused is closed with its reason.
unfoldable pub track_load : ℕ → Registry → Registry
track_load i r =
    if r.draining
    then record r { phase = update_at r.phase i refused; closed = update_at r.closed i true }
    else record r { phase = update_at r.phase i admitted }

unfoldable pub track_store : ℕ → Registry → Registry
unfolding insert
track_store i r = record r { sessions = insert i r.sessions; phase = update_at r.phase i running }

-- The deferred function: `untrack`, then the close of the connection.
unfoldable pub untrack : ℕ → Registry → Registry
unfolding remove
untrack i r = record r {
  sessions = remove i r.sessions;
  phase = update_at r.phase i finished;
  closed = update_at r.closed i true;
}

unfoldable pub drain_flag : Registry → Registry
drain_flag r = record r { draining = true; drain = flagged }

unfoldable pub drain_copy : Registry → Registry
drain_copy r = record r { drain = closing r.sessions }

unfoldable pub drain_close : ℕ → List ℕ → Registry → Registry
drain_close i left r = record r { drain = closing left; closed = update_at r.closed i true }

unfoldable pub drain_reset : Registry → Registry
drain_reset r = record r { sessions = []; drain = drained }

pub data Step : Registry → Registry → Type 0 where
  loads : (i : ℕ) {r : Registry} → r.phase i ≡ waiting → Step r (track_load i r)
  stores : (i : ℕ) {r : Registry} → r.phase i ≡ admitted → Step r (track_store i r)
  leaves : (i : ℕ) {r : Registry} → r.phase i ≡ running → Step r (untrack i r)
  flags : {r : Registry} → r.drain ≡ idle → Step r (drain_flag r)
  copies : {r : Registry} → r.drain ≡ flagged → Step r (drain_copy r)
  closes :
      (i : ℕ) (left : List ℕ) {r : Registry}
      → r.drain ≡ closing (i ∷ left)
      → Step r (drain_close i left r)
  resets : {r : Registry} → r.drain ≡ closing [] → Step r (drain_reset r)

-- Any number of steps.
pub data Steps : Registry → Registry → Type 0 where
  stay : {r : Registry} → Steps r r
  go : {r s t : Registry} → Step r s → Steps s t → Steps r t
