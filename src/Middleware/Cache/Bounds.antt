-- ===== src/Middleware/Cache/Bounds.antt =====
-- middleware/cache.go: the loop that evicts, and the number of entries.
use gofi.Prelude.{
  ℕ, zero, suc, ◌≤◌, ◌<◌, ◌≡◌, ◌⊎◌, refl, ◌∙◌, sym, ap, subst, true, false, none, some, [], ◌∷◌,
  arith, Bytes, bytes_eq, length, Bool-cases, if_both, Option-cases, inl, inr,
}
use gofi.Store.{Items, get, set}
use gofi.Middleware.Cache.{
  CacheEntry, CacheConfig, CacheState, take_expired, first_entry, victim, is_full, without,
  make_room, release, remember,
}

length-take_expired :
    (now : ℕ) (items : Items CacheEntry) (e : CacheEntry) (others : Items CacheEntry)
    → take_expired now items ≡ some (e, others)
    → length items ≡ suc (length others)
unfolding take_expired
length-take_expired now [] e others h = cc
length-take_expired now ((k, x) ∷ items) e others h = elim (Option-cases (take_expired now items)) [
  | inl gone ↦ ground arith
  | inr ((y, ys), found) ↦ ground (arith, length-take_expired now items y ys found)
]

length-first :
    (items : Items CacheEntry) (e : CacheEntry) (others : Items CacheEntry)
    → first_entry items ≡ some (e, others)
    → length items ≡ suc (length others)
length-first [] e others h = cc
length-first ((k, x) ∷ items) e others h = ground arith

-- An eviction takes one entry out.
pub length-victim :
    (now : ℕ) (items : Items CacheEntry) (e : CacheEntry) (others : Items CacheEntry)
    → victim now items ≡ some (e, others)
    → length items ≡ suc (length others)
unfolding victim
length-victim now items e others h = elim (Option-cases (take_expired now items)) [
  | inl gone ↦ ground (arith, length-first items e others)
  | inr ((y, ys), found) ↦ ground (arith, length-take_expired now items y ys found)
]

first-none : (items : Items CacheEntry) → first_entry items ≡ none → items ≡ []
first-none [] h = refl
first-none ((k, x) ∷ items) h = cc

pub victim-none : (now : ℕ) (items : Items CacheEntry) → victim now items ≡ none → items ≡ []
unfolding victim
victim-none now items h = elim (Option-cases (take_expired now items)) [
  | inl gone ↦ ground (arith, first-none items)
  | inr ((y, ys), found) ↦ ground arith
]

length-zero : (items : Items CacheEntry) → length items ≤ 0 → items ≡ []
length-zero [] h = refl
length-zero (x ∷ items) h = absurd (omega arith)

-- A round of the loop, in its three cases.
pub make_room-enough :
    (f : ℕ) (cfg : CacheConfig) (now size : ℕ) (st : CacheState)
    → is_full cfg size st ≡ false
    → make_room f cfg now size st ≡ st
unfolding make_room
make_room-enough zero cfg now size st h = refl
make_room-enough (suc f) cfg now size st h = rw h refl

pub make_room-empty :
    (f : ℕ) (cfg : CacheConfig) (now size : ℕ) (st : CacheState)
    → victim now st.store ≡ none
    → make_room f cfg now size st ≡ st
unfolding make_room
make_room-empty zero cfg now size st h = refl
make_room-empty (suc f) cfg now size st h =
    rw h (if_both (λ s. s ≡ st) (is_full cfg size st) st st refl refl)

pub make_room-evicts :
    (f : ℕ) (cfg : CacheConfig) (now size : ℕ) (st : CacheState) (e : CacheEntry)
    (items : Items CacheEntry)
    → is_full cfg size st ≡ true
    → victim now st.store ≡ some (e, items)
    → make_room (suc f) cfg now size st ≡ make_room f cfg now size (without e items st)
unfolding make_room
make_room-evicts f cfg now size st e items h v = rw (h, v) refl

pub make_room-zero :
    (cfg : CacheConfig) (now size : ℕ) (st : CacheState) → make_room zero cfg now size st ≡ st
unfolding make_room
make_room-zero cfg now size st = refl

-- With fuel for every entry, the loop ends with room, or with an empty table.
pub make_room-is_full :
    (f : ℕ) (cfg : CacheConfig) (now size : ℕ) (st : CacheState)
    → length st.store ≤ f
    → (is_full cfg size (make_room f cfg now size st) ≡ false)
      ⊎ ((make_room f cfg now size st).store ≡ [])
make_room-is_full zero cfg now size st h =
    inr (ap (λ s. s.store) (make_room-zero cfg now size st) ∙ length-zero st.store h)
make_room-is_full (suc f) cfg now size st h = elim (Bool-cases (is_full cfg size st)) [
  | inr roomy ↦ inl (ap (is_full cfg size) (make_room-enough (suc f) cfg now size st roomy) ∙ roomy)
  | inl full ↦ elim (Option-cases (victim now st.store)) [
    | inl gone ↦ inr (
        ap (λ s. s.store) (make_room-empty (suc f) cfg now size st gone)
        ∙ victim-none now st.store gone)
    | inr ((e, items), v) ↦
        let step = make_room-evicts f cfg now size st e items full v in
        subst (λ s. (is_full cfg size s ≡ false) ⊎ (s.store ≡ [])) (sym step)
          (make_room-is_full f cfg now size (without e items st)
            (omega (arith, length-victim now st.store e items v)))
  ]
]

-- What evictions preserve, the loop preserves.
pub make_room-keeps :
    (P : CacheState → Type 0) (f : ℕ) (cfg : CacheConfig) (now size : ℕ) (st : CacheState)
    → ((s : CacheState) (e : CacheEntry) (items : Items CacheEntry)
        → victim now s.store ≡ some (e, items)
        → P s
        → P (without e items s))
    → P st
    → P (make_room f cfg now size st)
make_room-keeps P zero cfg now size st keeps h = subst P (sym (make_room-zero cfg now size st)) h
make_room-keeps P (suc f) cfg now size st keeps h = elim (Bool-cases (is_full cfg size st)) [
  | inr roomy ↦ subst P (sym (make_room-enough (suc f) cfg now size st roomy)) h
  | inl full ↦ elim (Option-cases (victim now st.store)) [
    | inl gone ↦ subst P (sym (make_room-empty (suc f) cfg now size st gone)) h
    | inr ((e, items), v) ↦
        subst P (sym (make_room-evicts f cfg now size st e items full v))
          (make_room-keeps P f cfg now size (without e items st) keeps (keeps st e items v h))
  ]
]

pub length-set :
    (items : Items CacheEntry) (key : Bytes) (e : CacheEntry)
    → length (set items key e) ≤ suc (length items)
unfolding set
length-set [] key e = omega arith
length-set ((k, x) ∷ items) key e =
    if_both (λ s. length s ≤ suc (suc (length items))) (bytes_eq k key) ((k, e) ∷ items)
      ((k, x) ∷ set items key e) (omega arith) (omega (arith, length-set items key e))

room-max_entries :
    (cfg : CacheConfig) (size : ℕ) (st : CacheState)
    → 0 < cfg.max_entries
    → (is_full cfg size st ≡ false) ⊎ (st.store ≡ [])
    → length st.store < cfg.max_entries
room-max_entries cfg size st limit (inl roomy) = ground arith
room-max_entries cfg size st limit (inr empty) =
    subst (λ s. length s < cfg.max_entries) (sym empty) limit

pub store-release : (key : Bytes) (st : CacheState) → (release key st).store ≡ st.store
unfolding release
store-release key st = elim (Option-cases (get st.store key)) [
  | inl e ↦ rw (e, release) refl
  | inr (x, e) ↦ rw (e, release) refl
]

-- After a response is stored the cache has at most `MaxEntries` entries, if that is positive, however
-- many it had before.
pub remember-max_entries :
    (cfg : CacheConfig) (now : ℕ) (key : Bytes) (e : CacheEntry) (st : CacheState)
    → 0 < cfg.max_entries
    → length (remember cfg now key e st).store ≤ cfg.max_entries
unfolding remember
remember-max_entries cfg now key e st limit =
    let st' = release key st in
    let roomy = make_room (length st'.store) cfg now e.size st' in
    let below =
      room-max_entries cfg e.size roomy limit
        (make_room-is_full (length st'.store) cfg now e.size st' (omega arith)) in
    omega (arith, length-set roomy.store key e, below)
