-- ===== src/Websocket/Laws.antt =====
-- websocket/websocket.go: the order of a session.
use gofi.Prelude.{
  ℕ, suc, ◌+◌, ◌≡◌, refl, sym, ap, ap₂, ◌∙◌, Bool, true, false, not, ◌&&◌, Option, none, some, List,
  [], ◌∷◌, ◌++◌, arith, ltb, if◌then◌else◌, Bytes,
}
use gofi.Prelude.{codes}
use gofi.Websocket.{
  Options, Call, on_session_start, on_session_end, set_read_limit, set_read_deadline,
  set_write_deadline, close_frame, close, untrack_call, run_handler, HandshakeOutcome, deadline,
  close_with_reason, run_session, settings, session_calls,
}

abbrev count_calls : (Call → Bool) → List Call → ℕ
count_calls p [] = 0
count_calls p (c ∷ cs) = if p c then suc (count_calls p cs) else count_calls p cs

abbrev last_of : List Call → Option Call
last_of [] = none
last_of (c ∷ []) = some c
last_of (c ∷ d ∷ cs) = last_of (d ∷ cs)

count_calls-append :
    (p : Call → Bool) (a b : List Call) → count_calls p (a ++ b) ≡ count_calls p a + count_calls p b
count_calls-append p [] b = omega arith
count_calls-append p (c ∷ a) b = ground (arith, count_calls-append p a b)

-- Neither a limit nor a deadline is counted.
abbrev Skips : (Call → Bool) → Type 0
Skips p =
    (k : ℕ)
    → (p (set_read_limit k) ≡ false)
      × (p (set_read_deadline k) ≡ false)
      × (p (set_write_deadline k) ≡ false)

count_calls-settings :
    {S : Type 0} (p : Call → Bool) (o : Options S) (now : ℕ)
    → Skips p
    → count_calls p (settings o now) ≡ 0
count_calls-settings p o now skips =
    count_calls-append p
      (if ltb 0 o.max_message_bytes then set_read_limit o.max_message_bytes ∷ [] else []) _
    ∙ ap₂ (λ a b. a + b) (optional (ltb 0 o.max_message_bytes) _ (skips _).0)
        (count_calls-append p (deadline set_read_deadline o.read_timeout now) _
          ∙ ap₂ (λ a b. a + b) (optional (ltb 0 o.read_timeout) _ (skips _).1)
              (optional (ltb 0 o.write_timeout) _ (skips _).2))
  where
    optional : (b : Bool) (c : Call) → p c ≡ false → count_calls p (if b then c ∷ [] else []) ≡ 0
    optional true c h = rw h refl
    optional false c h = refl

last_of-append : (a b : List Call) (c : Call) → last_of b ≡ some c → last_of (a ++ b) ≡ some c
last_of-append [] b c h = h
last_of-append (x ∷ []) [] c h = cc
last_of-append (x ∷ []) (y ∷ b) c h = h
last_of-append (x ∷ y ∷ a) b c h = last_of-append (y ∷ a) b c h

abbrev is_close : Call → Bool
is_close close = true
is_close _ = false

abbrev is_run : Call → Bool
is_run run_handler = true
is_run _ = false

abbrev is_start : Call → Bool
is_start on_session_start = true
is_start _ = false

abbrev is_end : Call → Bool
is_end on_session_end = true
is_end _ = false

abbrev is_untrack : Call → Bool
is_untrack untrack_call = true
is_untrack _ = false

-- What is asked of the calls of a session.
abbrev pub IsSession : Bool → Bool → List Call → Type 0
IsSession registry tracked calls =
    (last_of calls ≡ some close)
    × (count_calls is_close calls ≡ 1)
    × (count_calls is_run calls ≡ (if registry && not tracked then 0 else 1))
    × (count_calls is_start calls ≡ count_calls is_run calls)
    × (count_calls is_end calls ≡ count_calls is_run calls)
    × (count_calls is_untrack calls ≡ (if registry && tracked then 1 else 0))

session_calls-IsSession :
    (registry tracked failed : Bool) (code until : ℕ) (reason : Bytes)
    → IsSession registry tracked
        (session_calls registry tracked failed (close_frame code reason until ∷ close ∷ []))
session_calls-IsSession true true true code until reason = (refl, refl, refl, refl, refl, refl)
session_calls-IsSession true true false code until reason = (refl, refl, refl, refl, refl, refl)
session_calls-IsSession true false failed code until reason = (refl, refl, refl, refl, refl, refl)
session_calls-IsSession false true true code until reason = (refl, refl, refl, refl, refl, refl)
session_calls-IsSession false true false code until reason = (refl, refl, refl, refl, refl, refl)
session_calls-IsSession false false true code until reason = (refl, refl, refl, refl, refl, refl)
session_calls-IsSession false false false code until reason = (refl, refl, refl, refl, refl, refl)

-- Whatever the settings, whether the session is tracked and whether the handler fails: the connection
-- is closed once, by the last call; the handler runs once, or not at all if `track` refuses; each
-- run has its start and its end for the hooks; and a tracked session, no other, is untracked once.
pub run_session_lem :
    {S : Type 0} (o : Options S) (out : HandshakeOutcome) (now : ℕ)
    → IsSession o.has_registry out.tracked (run_session o out now)
unfolding run_session close_with_reason
run_session_lem o out now =
    let calls =
      session_calls o.has_registry out.tracked out.failed
        (close_with_reason o.write_timeout now 1013 (codes "server draining")) in
    let (last, closes, runs, starts, ends, untracks) =
      session_calls-IsSession o.has_registry out.tracked out.failed 1013
        (now + (if ltb 0 o.write_timeout then o.write_timeout else 2000000000))
        (codes "server draining") in
    let same : (p : Call → Bool)
        → Skips p
        → count_calls p (settings o now ++ calls) ≡ count_calls p calls =
      λ p skips.
        count_calls-append p (settings o now) calls
        ∙ ap (λ k. k + count_calls p calls) (count_calls-settings p o now skips)
        ∙ omega arith in
    (
      last_of-append (settings o now) calls close last,
      same is_close (λ k. (refl, refl, refl)) ∙ closes,
      same is_run (λ k. (refl, refl, refl)) ∙ runs,
      same is_start (λ k. (refl, refl, refl))
          ∙ starts
          ∙ sym (same is_run (λ k. (refl, refl, refl))),
      same is_end (λ k. (refl, refl, refl)) ∙ ends ∙ sym (same is_run (λ k. (refl, refl, refl))),
      same is_untrack (λ k. (refl, refl, refl)) ∙ untracks,
    )
