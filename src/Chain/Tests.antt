-- ===== src/Chain/Tests.antt =====
-- Runs of a chain, and the theorems at them.
use gofi.Prelude.{ℕ, ◌+◌, ◌*◌, ◌≡◌, refl, none, some, [], ◌∷◌, codes}
use gofi.Chain.{Handler, stop, act, call_next, next, run, serve}
use gofi.Chain.Laws.{serve-cons, shift}

-- Adds one before the rest of the chain, and doubles the state after it.
abbrev around : Handler ℕ
around = act (λ s. s + 1) (call_next (λ e. act (λ s. s * 2) (stop e)))

abbrev refuse : Handler ℕ
refuse = stop (some (record { code = 403; message = codes "no" }))

abbrev add_ten : Handler ℕ
add_ten = act (λ s. s + 10) (stop none)

-- The second `Next` of the first handler finds the chain used up.
abbrev twice : Handler ℕ
twice = call_next (λ e. call_next (λ e'. stop e'))

nested : serve (around ∷ add_ten ∷ []) 5 ≡ (none, record { position = 2; state = 32 })
unfolding next
nested = refl

next_twice : serve (twice ∷ add_ten ∷ []) 0 ≡ (none, record { position = 3; state = 10 })
unfolding next
next_twice = refl

serve-cons_example :
    serve (around ∷ add_ten ∷ []) 5
    ≡ shift (run (next (add_ten ∷ [])) around (record { position = 0; state = 5 }))
serve-cons_example = serve-cons around (add_ten ∷ []) 5
