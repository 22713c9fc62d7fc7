-- ===== src/Middleware/Cache/Accounts.antt =====
-- middleware/cache.go: the count of the bytes in the cache.
use gofi.Prelude.{
  ℕ, ◌+◌, ◌≤◌, ◌<◌, ◌≡◌, ◌⊎◌, refl, sym, ap, subst, true, false, some, [], ◌∷◌, arith, Bytes,
  length, Bool-cases, Option-cases, inl, inr,
}
use gofi.Store.{Items, get, set, has}
use gofi.Store.Laws.{has-get}
use gofi.Middleware.Cache.{
  CacheEntry, CacheConfig, CacheState, take_expired, first_entry, victim, is_full, without,
  make_room, release, put, remember,
}
use gofi.Middleware.Cache.Bounds.{make_room-keeps, make_room-is_full}

-- The bytes that the entries hold.
abbrev pub sizes : Items CacheEntry → ℕ
sizes [] = 0
sizes ((k, e) ∷ items) = e.size + sizes items

-- What an eviction leaves: it takes the bytes of its entry off, and adds no key.
abbrev Leaves : Items CacheEntry → CacheEntry → Items CacheEntry → Bytes → Type 0
Leaves items e others key =
    (sizes items ≡ e.size + sizes others) × ((has items key ≡ true) ⊎ (has others key ≡ false))

take_expired-Leaves :
    (now : ℕ) (items : Items CacheEntry) (e : CacheEntry) (others : Items CacheEntry) (key : Bytes)
    → take_expired now items ≡ some (e, others)
    → Leaves items e others key
unfolding take_expired has
take_expired-Leaves now [] e others key h = cc
take_expired-Leaves now ((k, x) ∷ items) e others key h =
    elim (Option-cases (take_expired now items)) [
      | inl gone ↦ ground arith
      | inr ((y, ys), found) ↦ ground (arith, take_expired-Leaves now items y ys key found)
    ]

first-Leaves :
    (items : Items CacheEntry) (e : CacheEntry) (others : Items CacheEntry) (key : Bytes)
    → first_entry items ≡ some (e, others)
    → Leaves items e others key
unfolding has
first-Leaves [] e others key h = cc
first-Leaves ((k, x) ∷ items) e others key h = elim (Bool-cases (has items key)) [
  | inl old ↦ ground arith
  | inr new ↦ ground arith
]

victim-Leaves :
    (now : ℕ) (items : Items CacheEntry) (e : CacheEntry) (others : Items CacheEntry) (key : Bytes)
    → victim now items ≡ some (e, others)
    → Leaves items e others key
unfolding victim
victim-Leaves now items e others key h = elim (Option-cases (take_expired now items)) [
  | inl gone ↦ first-Leaves items e others key (ground arith)
  | inr ((y, ys), found) ↦ take_expired-Leaves now items e others key (ground arith)
]

-- The count is right, and a key is new.
abbrev Counts : Bytes → CacheState → Type 0
Counts key st = (st.total_bytes ≡ sizes st.store) × (has st.store key ≡ false)

without-Counts :
    (now : ℕ) (key : Bytes) (st : CacheState) (e : CacheEntry) (items : Items CacheEntry)
    → victim now st.store ≡ some (e, items)
    → Counts key st
    → Counts key (without e items st)
without-Counts now key st e items v (count, new) =
    let (size, known) = victim-Leaves now st.store e items key v in
    (omega arith, elim known [ inl old ↦ cc | inr gone ↦ gone ])

sizes-set :
    (items : Items CacheEntry) (key : Bytes) (e : CacheEntry)
    → has items key ≡ false
    → sizes (set items key e) ≡ sizes items + e.size
unfolding set has
sizes-set [] key e h = omega arith
sizes-set ((k, x) ∷ items) key e h = ground (arith, sizes-set items key e)

release-new : (key : Bytes) (st : CacheState) → has st.store key ≡ false → release key st ≡ st
unfolding release
release-new key st h = elim (Option-cases (get st.store key)) [
  | inl e ↦ rw (e, release) refl
  | inr (prev, e) ↦ ground (arith, has-get st.store key)
]

room-max_bytes :
    (cfg : CacheConfig) (size : ℕ) (st : CacheState)
    → 0 < cfg.max_bytes
    → size ≤ cfg.max_bytes
    → st.total_bytes ≡ sizes st.store
    → (is_full cfg size st ≡ false) ⊎ (st.store ≡ [])
    → st.total_bytes + size ≤ cfg.max_bytes
room-max_bytes cfg size st limit fits count (inl roomy) = ground arith
room-max_bytes cfg size st limit fits count (inr empty) =
    let none_held : sizes st.store ≡ 0 = ap sizes empty in omega arith

remember-room :
    (cfg : CacheConfig) (now : ℕ) (key : Bytes) (e : CacheEntry) (st : CacheState)
    → has st.store key ≡ false
    → remember cfg now key e st ≡ put key e (make_room (length st.store) cfg now e.size st)
unfolding remember
remember-room cfg now key e st h =
    ap (λ s. put key e (make_room (length s.store) cfg now e.size s)) (release-new key st h)

-- A response that is stored under a new key leaves the count of the bytes right, if it was.
pub remember-counts :
    (cfg : CacheConfig) (now : ℕ) (key : Bytes) (e : CacheEntry) (st : CacheState)
    → st.total_bytes ≡ sizes st.store
    → has st.store key ≡ false
    → (remember cfg now key e st).total_bytes ≡ sizes (remember cfg now key e st).store
remember-counts cfg now key e st count new =
    let roomy = make_room (length st.store) cfg now e.size st in
    let (count', new') =
      make_room-keeps (Counts key) (length st.store) cfg now e.size st (without-Counts now key)
        (count, new) in
    subst (λ s. s.total_bytes ≡ sizes s.store) (sym (remember-room cfg now key e st new))
      (omega (arith, sizes-set roomy.store key e new'))

-- Where the count is right, the key is new and the entry is no larger than a positive `MaxBytes`, the
-- entries hold at most `MaxBytes` bytes once it is stored.
pub remember-max_bytes :
    (cfg : CacheConfig) (now : ℕ) (key : Bytes) (e : CacheEntry) (st : CacheState)
    → st.total_bytes ≡ sizes st.store
    → has st.store key ≡ false
    → 0 < cfg.max_bytes
    → e.size ≤ cfg.max_bytes
    → sizes (remember cfg now key e st).store ≤ cfg.max_bytes
remember-max_bytes cfg now key e st count new limit fits =
    let roomy = make_room (length st.store) cfg now e.size st in
    let (count', new') =
      make_room-keeps (Counts key) (length st.store) cfg now e.size st (without-Counts now key)
        (count, new) in
    let fits' =
      room-max_bytes cfg e.size roomy limit fits count'
        (make_room-is_full (length st.store) cfg now e.size st (omega arith)) in
    subst (λ s. sizes s.store ≤ cfg.max_bytes) (sym (remember-room cfg now key e st new))
      (omega (arith, sizes-set roomy.store key e new'))
