-- ===== src/Websocket/Registry/Draining.antt =====
-- websocket/websocket.go, `SessionRegistry`: the sessions while it drains.
use gofi.Prelude.{
  ℕ, ◌≡◌, refl, sym, ap, ap₂, ◌∙◌, subst, ◌≢◌, ◌⊎◌, inl, inr, Bool, true, false, not, ◌&&◌, ◌||◌,
  List, [], ◌∷◌, arith, ◌==◌, length, Bool-cases,
}
use gofi.Websocket.Registry.{
  admitted, running, refused, finished, Drain, idle, flagged, closing, drained, Registry,
  new_session_registry, update_at, remove, active, track_load, untrack, drain_flag, drain_copy,
  drain_close, drain_reset, Step, loads, stores, leaves, flags, copies, closes, resets, Steps, stay,
  go,
}
use gofi.Websocket.Registry.Laws.{
  mem, update_at-same, update_at-other, swapped, mem-remove, moved, new-AreTracked,
}

-- A session that runs, as the drain goes on: in the table, closed or in the rest of the loop, closed.
abbrev Covers : Drain → List ℕ → (ℕ → Bool) → ℕ → Type 0
Covers idle sessions closed i = ⊥
Covers flagged sessions closed i = mem i sessions ≡ true
Covers (closing left) sessions closed i = (closed i ≡ true) ⊎ (mem i left ≡ true)
Covers drained sessions closed i = closed i ≡ true

abbrev NoneLeft : Drain → List ℕ → Type 0
NoneLeft drained sessions = sessions ≡ []
NoneLeft _ sessions = Unit

-- While a registry drains, and no session is between the load and the lock of `track`.
abbrev Drains : Registry → Type 0
Drains r =
    (r.draining ≡ true)
    × ((i : ℕ) → r.phase i ≢ admitted)
    × ((i : ℕ) → r.phase i ≡ running → Covers r.drain r.sessions r.closed i)
    × NoneLeft r.drain r.sessions

stays_closed : (closed : ℕ → Bool) (i j : ℕ) → closed j ≡ true → update_at closed i true j ≡ true
stays_closed closed i j h = elim (Bool-cases (i == j)) [
  | inl same ↦ update_at-same closed i j true same
  | inr other ↦ update_at-other closed i j true other ∙ h
]

Covers-other :
    (d : Drain) (sessions : List ℕ) (closed : ℕ → Bool) (i j : ℕ)
    → Covers d sessions closed j
    → Covers d sessions (update_at closed i true) j
Covers-other idle sessions closed i j h = h
Covers-other flagged sessions closed i j h = h
Covers-other (closing left) sessions closed i j (inl h) = inl (stays_closed closed i j h)
Covers-other (closing left) sessions closed i j (inr h) = inr h
Covers-other drained sessions closed i j h = stays_closed closed i j h

Covers-remove :
    (d : Drain) (sessions : List ℕ) (closed : ℕ → Bool) (i j : ℕ)
    → (i == j) ≡ false
    → Covers d sessions closed j
    → Covers d (remove i sessions) closed j
Covers-remove idle sessions closed i j other h = h
Covers-remove flagged sessions closed i j other h =
    mem-remove j i sessions ∙ ap₂ (λ a b. a && not b) h (swapped i j other)
Covers-remove (closing left) sessions closed i j other h = h
Covers-remove drained sessions closed i j other h = h

NoneLeft-remove :
    (d : Drain) (sessions : List ℕ) (i : ℕ) → NoneLeft d sessions → NoneLeft d (remove i sessions)
unfolding remove
NoneLeft-remove idle sessions i h = tt
NoneLeft-remove flagged sessions i h = tt
NoneLeft-remove (closing left) sessions i h = tt
NoneLeft-remove drained sessions i h = rw h refl

track_load-refused :
    (r : Registry) (i : ℕ)
    → r.draining ≡ true
    → track_load i r
      ≡ record r { phase = update_at r.phase i refused; closed = update_at r.closed i true }
unfolding track_load
track_load-refused r i e = rw (e, track_load) refl

Drains-loads : (r : Registry) (i : ℕ) → Drains r → Drains (track_load i r)
Drains-loads r i (on, none_between, covered, left) =
    subst Drains (sym (track_load-refused r i on)) (
      on,
      λ j m. none_between j (moved r.phase i j refused admitted (λ x. cc) m).1,
      λ j m.
          Covers-other r.drain r.sessions r.closed i j
            (covered j (moved r.phase i j refused running (λ x. cc) m).1),
      left,
    )

Drains-leaves : (r : Registry) (i : ℕ) → Drains r → Drains (untrack i r)
unfolding untrack
Drains-leaves r i (on, none_between, covered, left) = (
  on,
  λ j m. none_between j (moved r.phase i j finished admitted (λ x. cc) m).1,
  λ j m.
      let (other, runs) = moved r.phase i j finished running (λ x. cc) m in
      Covers-other r.drain (remove i r.sessions) r.closed i j
        (Covers-remove r.drain r.sessions r.closed i j other (covered j runs)),
  NoneLeft-remove r.drain r.sessions i left,
)

idle_never : (r : Registry) → Drains r → r.drain ≡ idle → (i : ℕ) → r.phase i ≢ running
idle_never r h e i m = subst (λ d. Covers d r.sessions r.closed i) e (h.2 i m)

closed_next :
    (closed : ℕ → Bool) (i j : ℕ) (js : List ℕ)
    → (closed j ≡ true) ⊎ (mem j (i ∷ js) ≡ true)
    → (update_at closed i true j ≡ true) ⊎ (mem j js ≡ true)
closed_next closed i j js (inl h) = inl (stays_closed closed i j h)
closed_next closed i j js (inr h) = elim (Bool-cases (i == j)) [
  | inl same ↦ inl (update_at-same closed i j true same)
  | inr other ↦ inr (later (swapped i j other) h)
]
  where
    later : (j == i) ≡ false → (j == i || mem j js) ≡ true → mem j js ≡ true
    later o e = ground arith

Drains-Step : {r s : Registry} → Step r s → Drains r → Drains s
unfolding drain_flag drain_copy drain_close drain_reset
Drains-Step (loads i {r} e) h = Drains-loads r i h
Drains-Step (stores i e) h = absurd (h.1 i e)
Drains-Step (leaves i {r} e) h = Drains-leaves r i h
Drains-Step (flags {r} e) h = (refl, h.1, λ j m. absurd (idle_never r h e j m), tt)
Drains-Step (copies {r} e) h =
    (h.0, h.1, λ j m. inr (subst (λ d. Covers d r.sessions r.closed j) e (h.2 j m)), tt)
Drains-Step (closes i js {r} e) h = (
  h.0,
  h.1,
  λ j m. closed_next r.closed i j js (subst (λ d. Covers d r.sessions r.closed j) e (h.2 j m)),
  tt,
)
Drains-Step (resets {r} e) h =
    (h.0, h.1, λ j m. all_closed j (subst (λ d. Covers d r.sessions r.closed j) e (h.2 j m)), refl)
  where
    all_closed : (j : ℕ) → (r.closed j ≡ true) ⊎ (mem j [] ≡ true) → r.closed j ≡ true
    all_closed j (inl g) = g
    all_closed j (inr g) = cc

Drains-Steps : {r s : Registry} → Steps r s → Drains r → Drains s
Drains-Steps stay h = h
Drains-Steps (go one more) h = Drains-Steps more (Drains-Step one h)

-- Take any run of a new registry in which `DrainContext` was not called yet and no session is between
-- its load of `draining` and the lock of `track`. If `DrainContext` sets `draining` then, however the
-- goroutines take turns, once it is through, the registry is empty and every session that still
-- runs has its connection closed.
pub drain_closes_sessions :
    (r s : Registry)
    → Steps new_session_registry r
    → r.drain ≡ idle
    → ((i : ℕ) → r.phase i ≢ admitted)
    → Steps (drain_flag r) s
    → s.drain ≡ drained
    → (active s ≡ 0) × ((i : ℕ) → s.phase i ≡ running → s.closed i ≡ true)
unfolding drain_flag active
drain_closes_sessions r s before still none_between steps e =
    let (on, none_now, covered, left) =
      Drains-Steps steps (refl, none_between, new-AreTracked before still, tt) in
    (
      ap length (subst (λ d. NoneLeft d s.sessions) e left),
      λ i m. subst (λ d. Covers d s.sessions s.closed i) e (covered i m),
    )
