-- ===== src/Adapter/Laws.antt =====
-- adapter.go: which headers reach the response, and when.
use gofi.Prelude.{
  ℕ, ◌≡◌, refl, sym, ap, ◌∙◌, subst, ◌⊎◌, inl, inr, Bool, true, false, not, List, [], ◌∷◌, ◌++◌,
  if◌then◌else◌, Bytes, All, Bool-cases,
}
use gofi.Store.{Items}
use gofi.Adapter.{
  Response, ResponseWriter, WriterCall, set_value, add_value, write_bytes, write_status, change,
  new_response_writer, init_header, add_all, sync_headers, sync_first, step, steps, respond,
}

abbrev pub IsHeaderCall : WriterCall → Type 0
IsHeaderCall (set_value key v) = Unit
IsHeaderCall (add_value key v) = Unit
IsHeaderCall _ = ⊥

abbrev pub IsWriteCall : WriterCall → Type 0
IsWriteCall (write_bytes b) = Unit
IsWriteCall (write_status code) = Unit
IsWriteCall _ = ⊥

WriterCall-cases : (c : WriterCall) → IsHeaderCall c ⊎ IsWriteCall c
WriterCall-cases (set_value key v) = inl tt
WriterCall-cases (add_value key v) = inl tt
WriterCall-cases (write_bytes b) = inr tt
WriterCall-cases (write_status code) = inr tt

-- The headers after some calls.
abbrev pub header_after : List WriterCall → Items (List Bytes) → Items (List Bytes)
header_after [] h = h
header_after (c ∷ cs) h = header_after cs (change c h)

if-true : {A : Type 0} (b : Bool) (x y : A) → b ≡ true → (if b then x else y) ≡ x
if-true b x y e = rw e refl

if-false : {A : Type 0} (b : Bool) (x y : A) → b ≡ false → (if b then x else y) ≡ y
if-false b x y e = rw e refl

module _ {H : Type 0} where
  -- A writer before the first header, and one behind it that was not flushed.
  abbrev IsFresh : H → ResponseWriter H → Type 0
  IsFresh h w =
      (w.header_init ≡ false) × (w.header_sync ≡ false) × (w.header ≡ []) × (w.response.headers ≡ h)

  abbrev IsPending : Items (List Bytes) → H → ResponseWriter H → Type 0
  IsPending m h w =
      (w.header_init ≡ true) × (w.header_sync ≡ false) × (w.header ≡ m) × (w.response.headers ≡ h)

  abbrev IsFlushed : H → ResponseWriter H → Type 0
  IsFlushed h w = (w.header_sync ≡ true) × (w.response.headers ≡ h)

  init_header-old : (w : ResponseWriter H) → w.header_init ≡ true → init_header w ≡ w
  init_header-old w e =
      if-false (not w.header_init) (record w { header = []; header_init = true }) w (ap not e)

  init_header-IsFlushed :
      (h : H) (w : ResponseWriter H) → IsFlushed h w → IsFlushed h (init_header w)
  init_header-IsFlushed h w p = elim (Bool-cases w.header_init) [
    | inl e ↦ subst (IsFlushed h) (sym (init_header-old w e)) p
    | inr e ↦
        subst (IsFlushed h)
          (sym (
            if-true (not w.header_init) (record w { header = []; header_init = true }) w
              (ap not e)))
          p
  ]

module _ {H : Type 0} (add : Bytes → Bytes → H → H) where
  sync_headers-fresh : (w : ResponseWriter H) → w.header_init ≡ false → sync_headers add w ≡ w
  unfolding sync_headers
  sync_headers-fresh w e = rw e refl

  sync_headers-flushed : (w : ResponseWriter H) → w.header_sync ≡ true → sync_headers add w ≡ w
  unfolding sync_headers
  sync_headers-flushed w e = elim (Bool-cases w.header_init) [
    | inl i ↦ rw (i, e) refl
    | inr i ↦ rw i refl
  ]

  sync_headers-IsFlushed :
      (m : Items (List Bytes)) (h : H) (w : ResponseWriter H)
      → IsPending m h w
      → IsFlushed (add_all add m h) (sync_headers add w)
  unfolding sync_headers
  sync_headers-IsFlushed m h w (i, s, em, eh) = rw (i, s) (refl, rw (em, eh) refl)

  sync_first-open :
      (w : ResponseWriter H) → w.header_sync ≡ false → sync_first add w ≡ sync_headers add w
  sync_first-open w e = if-true (not w.header_sync) (sync_headers add w) w (ap not e)

  sync_first-flushed : (w : ResponseWriter H) → w.header_sync ≡ true → sync_first add w ≡ w
  sync_first-flushed w e = if-false (not w.header_sync) (sync_headers add w) w (ap not e)

  -- A write keeps what is said of the writer behind its flush.
  abbrev IsKept : (ResponseWriter H → Type 0) → Type 0
  IsKept P =
      ((b : Bytes) (w : ResponseWriter H)
        → P w
        → P (record w { response = record w.response { body = w.response.body ++ b } }))
      × ((code : ℕ) (w : ResponseWriter H)
          → P w
          → P (record w { response = record w.response { status = code } }))

  step-write :
      (P : ResponseWriter H → Type 0) (c : WriterCall) (w : ResponseWriter H)
      → IsKept P
      → IsWriteCall c
      → P (sync_first add w)
      → P (step add c w)
  unfolding step
  step-write P (write_bytes b) w (kept, _) wc p = kept b (sync_first add w) p
  step-write P (write_status code) w (_, kept) wc p = kept code (sync_first add w) p
  step-write P (set_value key v) w _ wc p = absurd wc
  step-write P (add_value key v) w _ wc p = absurd wc

  step-header :
      (P Q : ResponseWriter H → Type 0) (c : WriterCall) (w : ResponseWriter H)
      → ((w : ResponseWriter H) → P w → Q (record w { header = change c w.header }))
      → IsHeaderCall c
      → P (init_header w)
      → Q (step add c w)
  unfolding step
  step-header P Q (set_value key v) w f hc p = f (init_header w) p
  step-header P Q (add_value key v) w f hc p = f (init_header w) p
  step-header P Q (write_bytes b) w f hc p = absurd hc
  step-header P Q (write_status code) w f hc p = absurd hc

  step-IsFresh :
      (c : WriterCall) (h : H) (w : ResponseWriter H)
      → IsWriteCall c
      → IsFresh h w
      → IsFresh h (step add c w)
  step-IsFresh c h w wc p =
      let (i, s, em, eh) = p in
      step-write (IsFresh h) c w ((λ b w p. p), (λ code w p. p)) wc
        (subst (IsFresh h) (sym (sync_first-open w s ∙ sync_headers-fresh w i)) p)

  -- The first header call, and the ones behind it.
  step-first :
      (c : WriterCall) (h : H) (w : ResponseWriter H)
      → IsHeaderCall c
      → IsFresh h w
      → IsPending (change c []) h (step add c w)
  step-first c h w hc (i, s, em, eh) =
      step-header (IsPending [] h) (IsPending (change c []) h) c w
        (λ w (i, s, em, eh). (i, s, ap (change c) em, eh)) hc
        (subst (IsPending [] h)
          (sym (
            if-true (not w.header_init) (record w { header = []; header_init = true }) w
              (ap not i)))
          (refl, s, refl, eh))

  step-IsPending :
      (c : WriterCall) (m : Items (List Bytes)) (h : H) (w : ResponseWriter H)
      → IsHeaderCall c
      → IsPending m h w
      → IsPending (change c m) h (step add c w)
  step-IsPending c m h w hc p =
      let (i, s, em, eh) = p in
      step-header (IsPending m h) (IsPending (change c m) h) c w
        (λ w (i, s, em, eh). (i, s, ap (change c) em, eh)) hc
        (subst (IsPending m h) (sym (init_header-old w i)) p)

  step-flush :
      (c : WriterCall) (m : Items (List Bytes)) (h : H) (w : ResponseWriter H)
      → IsWriteCall c
      → IsPending m h w
      → IsFlushed (add_all add m h) (step add c w)
  step-flush c m h w wc p =
      let (i, s, em, eh) = p in
      let sent = add_all add m h in
      step-write (IsFlushed sent) c w ((λ b w p. p), (λ code w p. p)) wc
        (subst (IsFlushed sent) (sym (sync_first-open w s)) (sync_headers-IsFlushed m h w p))

  step-IsFlushed :
      (c : WriterCall) (h : H) (w : ResponseWriter H) → IsFlushed h w → IsFlushed h (step add c w)
  step-IsFlushed c h w p = elim (WriterCall-cases c) [
    | inl hc ↦
        step-header (IsFlushed h) (IsFlushed h) c w (λ w p. p) hc (init_header-IsFlushed h w p)
    | inr wc ↦
        let (s, eh) = p in
        step-write (IsFlushed h) c w ((λ b w p. p), (λ code w p. p)) wc
          (subst (IsFlushed h) (sym (sync_first-flushed w s)) p)
  ]

  steps-IsFresh :
      (cs : List WriterCall) (h : H) (w : ResponseWriter H)
      → All IsWriteCall cs
      → IsFresh h w
      → IsFresh h (steps add cs w)
  unfolding steps
  steps-IsFresh [] h w _ p = p
  steps-IsFresh (c ∷ cs) h w (wc, wcs) p =
      steps-IsFresh cs h (step add c w) wcs (step-IsFresh c h w wc p)

  steps-IsPending :
      (cs : List WriterCall) (m : Items (List Bytes)) (h : H) (w : ResponseWriter H)
      → All IsHeaderCall cs
      → IsPending m h w
      → IsPending (header_after cs m) h (steps add cs w)
  unfolding steps
  steps-IsPending [] m h w _ p = p
  steps-IsPending (c ∷ cs) m h w (hc, hcs) p =
      steps-IsPending cs (change c m) h (step add c w) hcs (step-IsPending c m h w hc p)

  steps-IsFlushed :
      (cs : List WriterCall) (h : H) (w : ResponseWriter H)
      → IsFlushed h w
      → IsFlushed h (steps add cs w)
  unfolding steps
  steps-IsFlushed [] h w p = p
  steps-IsFlushed (c ∷ cs) h w p = steps-IsFlushed cs h (step add c w) (step-IsFlushed c h w p)

  steps-append :
      (xs ys : List WriterCall) (w : ResponseWriter H)
      → steps add (xs ++ ys) w ≡ steps add ys (steps add xs w)
  unfolding steps
  steps-append [] ys w = refl
  steps-append (x ∷ xs) ys w = steps-append xs ys (step add x w)

  -- The headers that are set before the first write behind them are added to the response once, in
  -- whatever way the handlers go on: what they set later never reaches it.
  pub respond-sets :
      (early : List WriterCall) (c : WriterCall) (sets : List WriterCall) (flush : WriterCall)
      (late : List WriterCall) (r : Response H)
      → All IsWriteCall early
      → All IsHeaderCall (c ∷ sets)
      → IsWriteCall flush
      → (respond add (early ++ c ∷ (sets ++ flush ∷ late)) r).headers
        ≡ add_all add (header_after (c ∷ sets) []) r.headers
  unfolding respond steps
  respond-sets early c sets flush late r hearly (hc, hsets) hflush =
      let start = new_response_writer r in
      let one = steps add early start in
      let two = step add c one in
      let three = steps add sets two in
      let four = step add flush three in
      let sent = add_all add (header_after sets (change c [])) r.headers in
      let fresh = steps-IsFresh early r.headers start hearly (refl, refl, refl, refl) in
      let pending =
        steps-IsPending sets (change c []) r.headers two hsets
          (step-first c r.headers one hc fresh) in
      let flushed =
        step-flush flush (header_after sets (change c [])) r.headers three hflush pending in
      let (s, e) = steps-IsFlushed late sent four flushed in
      let path : steps add (early ++ c ∷ (sets ++ flush ∷ late)) start ≡ steps add late four =
        steps-append early (c ∷ (sets ++ flush ∷ late)) start
        ∙ steps-append sets (flush ∷ late) two in
      ap (λ w. (sync_headers add w).response.headers) path
      ∙ ap (λ w. w.response.headers) (sync_headers-flushed (steps add late four) s)
      ∙ e
