-- ===== src/Websocket/Registry/Laws.antt =====
-- websocket/websocket.go, `SessionRegistry`: what every interleaving keeps.
use gofi.Prelude.{
  ℕ, ◌≡◌, refl, sym, ap, ap₂, ◌∙◌, ◌≢◌, ◌⊎◌, inl, inr, Bool, true, false, not, ◌&&◌, ◌||◌, List, [],
  ◌∷◌, arith, ◌==◌, Bool-cases, if_both,
}
use gofi.Websocket.Registry.{
  Phase, waiting, admitted, running, refused, finished, idle, Registry, new_session_registry,
  update_at, remove, insert, track_load, track_store, untrack, drain_flag, drain_copy, drain_close,
  drain_reset, Step, loads, stores, leaves, flags, copies, closes, resets, Steps, stay, go,
}

abbrev pub mem : ℕ → List ℕ → Bool
mem i [] = false
mem i (j ∷ js) = i == j || mem i js

pub mem-remove : (i k : ℕ) (js : List ℕ) → mem i (remove k js) ≡ (mem i js && not (i == k))
unfolding remove
mem-remove i k [] = refl
mem-remove i k (j ∷ js) = ground (arith, mem-remove i k js)

mem-insert : (i k : ℕ) (js : List ℕ) → mem i (insert k js) ≡ (i == k || mem i js)
unfolding insert
mem-insert i k js = ground (arith, mem-remove i k js)

equal : (i j : ℕ) → (i == j) ≡ true → i ≡ j
equal i j e = ground arith

pub swapped : (i j : ℕ) → (i == j) ≡ false → (j == i) ≡ false
swapped i j e = ground arith

module _ {A : Type 0} where
  pub update_at-same : (f : ℕ → A) (i j : ℕ) (v : A) → (i == j) ≡ true → update_at f i v j ≡ v
  update_at-same f i j v e = rw e refl

  pub update_at-other : (f : ℕ → A) (i j : ℕ) (v : A) → (i == j) ≡ false → update_at f i v j ≡ f j
  update_at-other f i j v e = rw e refl

-- An entry of an updated table is the new one, or it is elsewhere and the old one.
pub update_at-cases :
    {A : Type 0} (f : ℕ → A) (i j : ℕ) (v w : A)
    → update_at f i v j ≡ w
    → (i ≡ j) × (v ≡ w) ⊎ ((i == j) ≡ false) × (f j ≡ w)
update_at-cases f i j v w e = elim (Bool-cases (i == j)) [
  | inl same ↦ inl (equal i j same, sym (update_at-same f i j v same) ∙ e)
  | inr other ↦ inr (other, sym (update_at-other f i j v other) ∙ e)
]

-- Where a value is not the new one, it is as it was.
update_at-keeps :
    {A : Type 0} (f : ℕ → A) (i j : ℕ) (v w : A) → f j ≡ w → f i ≢ w → update_at f i v j ≡ w
update_at-keeps f i j v w e old = elim (Bool-cases (i == j)) [
  | inl same ↦ absurd (old (ap f (equal i j same) ∙ e))
  | inr other ↦ update_at-other f i j v other ∙ e
]

-- No phase of the end is one of a session under way.
pub moved :
    (f : ℕ → Phase) (i j : ℕ) (v w : Phase)
    → v ≢ w
    → update_at f i v j ≡ w
    → ((i == j) ≡ false) × (f j ≡ w)
moved f i j v w apart e = elim (update_at-cases f i j v w e) [
  | inl (_, same) ↦ absurd (apart same)
  | inr other ↦ other
]

-- A session in the table runs.
abbrev pub AreRunning : Registry → Type 0
AreRunning r = (i : ℕ) → mem i r.sessions ≡ true → r.phase i ≡ running

not_running : (p : Phase) → p ≡ waiting ⊎ (p ≡ admitted) → p ≢ running
not_running p (inl e) h = cc
not_running p (inr e) h = cc

stored :
    (r : Registry) (i j : ℕ)
    → AreRunning r
    → mem j (insert i r.sessions) ≡ true
    → update_at r.phase i running j ≡ running
stored r i j h m = elim (Bool-cases (i == j)) [
  | inl same ↦ update_at-same r.phase i j running same
  | inr other ↦
      update_at-other r.phase i j running other
      ∙ h j (elsewhere (sym (mem-insert j i r.sessions) ∙ m) (swapped i j other))
]
  where
    elsewhere : (j == i || mem j r.sessions) ≡ true → (j == i) ≡ false → mem j r.sessions ≡ true
    elsewhere e o = ground arith

left :
    (r : Registry) (i j : ℕ)
    → AreRunning r
    → mem j (remove i r.sessions) ≡ true
    → update_at r.phase i finished j ≡ running
left r i j h m =
    let (there, other) = both (mem j r.sessions) (j == i) (sym (mem-remove j i r.sessions) ∙ m) in
    update_at-other r.phase i j finished (swapped j i other) ∙ h j there
  where
    both : (a b : Bool) → (a && not b) ≡ true → (a ≡ true) × (b ≡ false)
    both true true e = cc
    both true false e = (refl, refl)
    both false b e = cc

loaded : (r : Registry) (i : ℕ) → AreRunning r → r.phase i ≡ waiting → AreRunning (track_load i r)
unfolding track_load
loaded r i h e =
    if_both AreRunning r.draining
      (record r { phase = update_at r.phase i refused; closed = update_at r.closed i true })
      (record r { phase = update_at r.phase i admitted })
      (λ j m. update_at-keeps r.phase i j refused running (h j m) (not_running _ (inl e)))
      (λ j m. update_at-keeps r.phase i j admitted running (h j m) (not_running _ (inl e)))

AreRunning-Step : {r s : Registry} → Step r s → AreRunning r → AreRunning s
unfolding track_store untrack drain_flag drain_copy drain_close drain_reset
AreRunning-Step (loads i {r} e) h = loaded r i h e
AreRunning-Step (stores i {r} e) h = λ j m. stored r i j h m
AreRunning-Step (leaves i {r} e) h = λ j m. left r i j h m
AreRunning-Step (flags e) h = h
AreRunning-Step (copies e) h = h
AreRunning-Step (closes i js e) h = h
AreRunning-Step (resets e) h = λ j m. cc

AreRunning-Steps : {r s : Registry} → Steps r s → AreRunning r → AreRunning s
AreRunning-Steps stay h = h
AreRunning-Steps (go one more) h = AreRunning-Steps more (AreRunning-Step one h)

-- At every moment of a run of a new registry, drain or no drain, a session in the registry is one
-- whose handler runs: it passed `track` and has not reached `untrack`.
pub sessions-AreRunning : (s : Registry) → Steps new_session_registry s → AreRunning s
sessions-AreRunning s steps = AreRunning-Steps steps (λ i m. cc)

-- Before `DrainContext` is called, a session that runs is in the registry.
abbrev pub AreTracked : Registry → Type 0
AreTracked r = (i : ℕ) → r.phase i ≡ running → mem i r.sessions ≡ true

abbrev TrackedWhileIdle : Registry → Type 0
TrackedWhileIdle r = r.drain ≡ idle → AreTracked r

stored-AreTracked :
    (r : Registry) (i : ℕ)
    → AreTracked r
    → (j : ℕ) → update_at r.phase i running j ≡ running
    → mem j (insert i r.sessions) ≡ true
stored-AreTracked r i h j m = elim (update_at-cases r.phase i j running running m) [
  | inl (same, _) ↦ mem-insert j i r.sessions ∙ here j i (sym same)
  | inr (other, e) ↦ mem-insert j i r.sessions ∙ behind (j == i) _ (h j e)
]
  where
    here : (j i : ℕ) → j ≡ i → (j == i || mem j r.sessions) ≡ true
    here j i e = ground arith

    behind : (a b : Bool) → b ≡ true → (a || b) ≡ true
    behind true b e = refl
    behind false b e = e

left-AreTracked :
    (r : Registry) (i : ℕ)
    → AreTracked r
    → (j : ℕ) → update_at r.phase i finished j ≡ running
    → mem j (remove i r.sessions) ≡ true
left-AreTracked r i h j m = elim (update_at-cases r.phase i j finished running m) [
  | inl (_, e) ↦ cc
  | inr (other, e) ↦ mem-remove j i r.sessions ∙ ap₂ (λ a b. a && not b) (h j e) (swapped i j other)
]

loaded-AreTracked : (r : Registry) (i : ℕ) → TrackedWhileIdle r → TrackedWhileIdle (track_load i r)
unfolding track_load
loaded-AreTracked r i h =
    if_both TrackedWhileIdle r.draining
      (record r { phase = update_at r.phase i refused; closed = update_at r.closed i true })
      (record r { phase = update_at r.phase i admitted })
      (λ e j m. h e j (moved r.phase i j refused running (λ x. cc) m).1)
      (λ e j m. h e j (moved r.phase i j admitted running (λ x. cc) m).1)

TrackedWhileIdle-Step : {r s : Registry} → Step r s → TrackedWhileIdle r → TrackedWhileIdle s
unfolding track_store untrack drain_flag drain_copy drain_close drain_reset
TrackedWhileIdle-Step (loads i {r} e) h = loaded-AreTracked r i h
TrackedWhileIdle-Step (stores i {r} e) h = λ still. stored-AreTracked r i (h still)
TrackedWhileIdle-Step (leaves i {r} e) h = λ still. left-AreTracked r i (h still)
TrackedWhileIdle-Step (flags e) h = λ still. cc
TrackedWhileIdle-Step (copies e) h = λ still. cc
TrackedWhileIdle-Step (closes i js e) h = λ still. cc
TrackedWhileIdle-Step (resets e) h = λ still. cc

TrackedWhileIdle-Steps : {r s : Registry} → Steps r s → TrackedWhileIdle r → TrackedWhileIdle s
TrackedWhileIdle-Steps stay h = h
TrackedWhileIdle-Steps (go one more) h = TrackedWhileIdle-Steps more (TrackedWhileIdle-Step one h)

pub new-AreTracked : {r : Registry} → Steps new_session_registry r → r.drain ≡ idle → AreTracked r
new-AreTracked steps = TrackedWhileIdle-Steps steps (λ e i m. cc)
