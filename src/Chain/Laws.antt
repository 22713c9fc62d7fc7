-- ===== src/Chain/Laws.antt =====
-- context.go, `Next`: how a chain runs.
use gofi.Prelude.{
  ℕ, zero, suc, ◌+◌, ◌≤◌, ◌<◌, ◌≡◌, refl, ◌∙◌, ap, inl, inr, none, List, [], ◌∷◌, arith, length,
  get_elem?, Option-cases,
}
use native.Mathlib.Numerals.{add-one}
use gofi.Chain.{
  Outcome, Handler, stop, act, look, call_next, pass, Context, run, advance, next_from, next, serve,
}

abbrev Next : Type 0 → Type 0
Next S = Context S → Outcome × Context S

module _ {S : Type 0} where
  run-position :
      (nx : Next S)
      → ((c : Context S) → c.position < (nx c).1.position)
      → (h : Handler S) (c : Context S) → c.position ≤ (run nx h c).1.position
  unfolding run
  run-position nx up (stop e) c = omega arith
  run-position nx up (act f h) c = run-position nx up h (record c { state = f c.state })
  run-position nx up (look h) c = run-position nx up (h c.state) c
  run-position nx up (call_next h) c = omega (arith, up c, run-position nx up (h (nx c).0) (nx c).1)

  next_from-position :
      (f : ℕ) (hs : List (Handler S)) (c : Context S) → c.position < (next_from f hs c).1.position
  unfolding next_from
  next_from-position zero hs c = omega arith
  next_from-position (suc f) hs c = elim (Option-cases (get_elem? hs c.position)) [
    | inl e ↦ rw (e, next_from) (omega arith)
    | inr (h, e) ↦
        rw (e, next_from)
          (omega (arith, run-position (next_from f hs) (next_from-position f hs) h (advance c)))
  ]

  -- The position only grows, so that no handler is entered twice.
  pub next-position : (hs : List (Handler S)) (c : Context S) → c.position < (next hs c).1.position
  unfolding next
  next-position hs c = next_from-position (length hs) hs c

  -- A handler sees no difference between two ways on that agree from its position.
  run_agree :
      (nx mx : Next S) (p : ℕ)
      → ((c : Context S) → c.position < (nx c).1.position)
      → ((c : Context S) → p ≤ c.position → nx c ≡ mx c)
      → (h : Handler S) (c : Context S) → p ≤ c.position
      → run nx h c ≡ run mx h c
  unfolding run
  run_agree nx mx p up same (stop e) c le = refl
  run_agree nx mx p up same (act f h) c le =
      run_agree nx mx p up same h (record c { state = f c.state }) le
  run_agree nx mx p up same (look h) c le = run_agree nx mx p up same (h c.state) c le
  run_agree nx mx p up same (call_next h) c le =
      run_agree nx mx p up same (h (nx c).0) (nx c).1 (omega (arith, up c))
      ∙ ap (λ r. run mx (h r.0) r.1) (same c le)

  get_elem?-beyond : (hs : List (Handler S)) (i : ℕ) → length hs ≤ i → get_elem? hs i ≡ none
  get_elem?-beyond [] i h = refl
  get_elem?-beyond (x ∷ hs) zero h = absurd (omega arith)
  get_elem?-beyond (x ∷ hs) (suc i) h = get_elem?-beyond hs i (omega arith)

  -- Fuel for the handlers that are left is enough.
  next_from_enough :
      (f g : ℕ) (hs : List (Handler S)) (c : Context S)
      → length hs ≤ f + c.position
      → length hs ≤ g + c.position
      → next_from f hs c ≡ next_from g hs c
  unfolding next_from
  next_from_enough zero zero hs c hf hg = refl
  next_from_enough zero (suc g) hs c hf hg =
      rw (get_elem?-beyond hs c.position (omega arith), next_from)
  next_from_enough (suc f) zero hs c hf hg =
      rw (get_elem?-beyond hs c.position (omega arith), next_from)
  next_from_enough (suc f) (suc g) hs c hf hg = elim (Option-cases (get_elem? hs c.position)) [
    | inl e ↦ rw (e, next_from)
    | inr (h, e) ↦
        rw (e, next_from)
          (run_agree (next_from f hs) (next_from g hs) (c.position + 1) (next_from-position f hs)
            (λ d le. next_from_enough f g hs d (omega arith) (omega arith)) h (advance c)
            (omega arith))
  ]

  -- The chain is not cut short by the fuel: any more of it gives the same.
  pub next_fuel :
      (k : ℕ) (hs : List (Handler S)) (c : Context S) → next_from (length hs + k) hs c ≡ next hs c
  unfolding next
  next_fuel k hs c = next_from_enough (length hs + k) (length hs) hs c (omega arith) (omega arith)

  -- The answer of a handler further down the chain.
  abbrev pub shift : Outcome × Context S → Outcome × Context S
  shift (e, c) = (e, advance c)

  run-shift :
      (nx mx : Next S)
      → ((c : Context S) → nx (advance c) ≡ shift (mx c))
      → (h : Handler S) (c : Context S) → run nx h (advance c) ≡ shift (run mx h c)
  unfolding run
  run-shift nx mx same (stop e) c = refl
  run-shift nx mx same (act f h) c = run-shift nx mx same h (record c { state = f c.state })
  run-shift nx mx same (look h) c = run-shift nx mx same (h c.state) c
  run-shift nx mx same (call_next h) c =
      ap (λ r. run nx (h r.0) r.1) (same c) ∙ run-shift nx mx same (h (mx c).0) (mx c).1

  get_elem?-add_one :
      (h : Handler S) (hs : List (Handler S)) (i : ℕ) → get_elem? (h ∷ hs) (i + 1) ≡ get_elem? hs i
  get_elem?-add_one h hs i = rw add-one refl

  next_from-shift :
      (f : ℕ) (h : Handler S) (hs : List (Handler S)) (c : Context S)
      → next_from f (h ∷ hs) (advance c) ≡ shift (next_from f hs c)
  unfolding next_from
  next_from-shift zero h hs c = refl
  next_from-shift (suc f) h hs c = elim (Option-cases (get_elem? hs c.position)) [
    | inl e ↦ rw (get_elem?-add_one h hs c.position ∙ e, e, next_from) refl
    | inr (k, e) ↦
        rw (get_elem?-add_one h hs c.position ∙ e, e, next_from)
          (run-shift (next_from f (h ∷ hs)) (next_from f hs) (next_from-shift f h hs) k (advance c))
  ]

  -- A chain is its first handler, run with the chain of the others as its `Next`.
  pub serve-cons :
      (h : Handler S) (hs : List (Handler S)) (s : S)
      → serve (h ∷ hs) s ≡ shift (run (next hs) h (record { position = 0; state = s }))
  unfolding next next_from
  serve-cons h hs s =
      run-shift (next_from (length hs) (h ∷ hs)) (next_from (length hs) hs)
        (next_from-shift (length hs) h hs) h (record { position = 0; state = s })

  -- A middleware that does its work and returns `c.Next()` puts it in front of the rest of the chain.
  pub serve-pass :
      (f : S → S) (hs : List (Handler S)) (s : S)
      → serve (act f pass ∷ hs) s ≡ shift (serve hs (f s))
  unfolding run
  serve-pass f hs s = serve-cons (act f pass) hs s

  -- A handler that does not call `Next`.
  abbrev pub IsFinal : Handler S → Type 0
  IsFinal (stop e) = Unit
  IsFinal (act f h) = IsFinal h
  IsFinal (look h) = (s : S) → IsFinal (h s)
  IsFinal (call_next h) = ⊥

  run-IsFinal :
      (nx mx : Next S) (h : Handler S) (c : Context S) → IsFinal h → run nx h c ≡ run mx h c
  unfolding run
  run-IsFinal nx mx (stop e) c final = refl
  run-IsFinal nx mx (act f h) c final = run-IsFinal nx mx h (record c { state = f c.state }) final
  run-IsFinal nx mx (look h) c final = run-IsFinal nx mx (h c.state) c (final c.state)
  run-IsFinal nx mx (call_next h) c final = absurd final

  -- Behind a handler that does not call `Next` nothing runs: the rest of the chain is irrelevant.
  pub serve-IsFinal :
      (h : Handler S) (hs rest : List (Handler S)) (s : S)
      → IsFinal h
      → serve (h ∷ hs) s ≡ serve (h ∷ rest) s
  unfolding next next_from
  serve-IsFinal h hs rest s final = run-IsFinal _ _ h _ final
