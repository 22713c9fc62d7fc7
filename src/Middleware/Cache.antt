-- ===== src/Middleware/Cache.antt =====
-- middleware/cache.go: the table of responses, and the middleware over it. Times are numbers of
-- nanoseconds; a limit of 0 stands for one that is not positive, which the code does not apply.
pub mod Bounds
pub mod Accounts
use gofi.Prelude.{
  ℕ, zero, suc, ◌+◌, ◌-◌, ◌≡◌, Bool, true, false, not, ◌&&◌, ◌||◌, Option, none, some, List, [],
  ◌∷◌, ltb, leb, ◌==◌, if◌then◌else◌, Bytes, bytes_eq, length, codes, ◌++◌, itoa, ◌/◌,
}
use gofi.Store.{Items, get, set}
use gofi.Chain.{Outcome, Handler, stop, act, look, call_next, pass}
use gofi.Mux.{is_empty_text}
use gofi.Middleware.{Exchange, set_header, send_bytes}

pub record CacheEntry : Type 0 where
  pub body : Bytes
  pub content_type : Bytes
  pub status : ℕ
  pub exp : ℕ
  pub size : ℕ

-- `expiration` in nanoseconds. `key_of` is `KeyGenerator`, and `methods` tells which methods `Methods`
-- lists.
pub record CacheConfig : Type 0 where
  pub expiration : ℕ
  pub cache_header : Bool
  pub key_of : Exchange → Bytes
  pub methods : Bytes → Bool
  pub max_entries : ℕ
  pub max_bytes : ℕ
  pub allow_private : Bool

-- `store` and `totalBytes`, which the code never lets fall below 0.
pub record CacheState : Type 0 where
  pub store : Items CacheEntry
  pub total_bytes : ℕ

abbrev pub is_expired : ℕ → CacheEntry → Bool
is_expired now e = ltb 0 e.exp && ltb e.exp now

-- The first entry that is expired, and the others.
unfoldable pub take_expired : ℕ → Items CacheEntry → Option (CacheEntry × Items CacheEntry)
take_expired now [] = none
take_expired now ((k, e) ∷ items) =
    let rest : Option (CacheEntry × Items CacheEntry) = elim (take_expired now items) [
      | none ↦ none
      | some (found, others) ↦ some (found, (k, e) ∷ others)
    ] in
    if is_expired now e then some (e, items) else rest

abbrev pub first_entry : Items CacheEntry → Option (CacheEntry × Items CacheEntry)
first_entry [] = none
first_entry ((k, e) ∷ items) = some (e, items)

-- What `evictOne` takes out; `none` is its false.
unfoldable pub victim : ℕ → Items CacheEntry → Option (CacheEntry × Items CacheEntry)
unfolding take_expired
victim now items = elim (take_expired now items) [ some v ↦ some v | none ↦ first_entry items ]

abbrev pub is_full : CacheConfig → ℕ → CacheState → Bool
is_full cfg size st =
    ltb 0 cfg.max_entries && leb cfg.max_entries (length st.store)
    || ltb 0 cfg.max_bytes && ltb cfg.max_bytes (st.total_bytes + size)

-- The state without an entry of that size.
abbrev pub without : CacheEntry → Items CacheEntry → CacheState → CacheState
without e items st = record { store = items; total_bytes = st.total_bytes - e.size }

-- The loop that evicts; each round takes an entry out.
unfoldable pub make_room : ℕ → CacheConfig → ℕ → ℕ → CacheState → CacheState
make_room zero cfg now size st = st
make_room (suc f) cfg now size st =
    if is_full cfg size st
    then elim (victim now st.store) [
      | none ↦ st
      | some (e, items) ↦ make_room f cfg now size (without e items st)
    ]
    else st

-- totalBytes -= prev.size, for an entry that will be replaced
unfoldable pub release : Bytes → CacheState → CacheState
unfolding get
release key st = elim (get st.store key) [
  | none ↦ st
  | some prev ↦ record st { total_bytes = st.total_bytes - prev.size }
]

-- store[key] = entry; totalBytes += size
abbrev pub put : Bytes → CacheEntry → CacheState → CacheState
put key e st = record { store = set st.store key e; total_bytes = st.total_bytes + e.size }

-- The part under the lock that stores a response.
unfoldable pub remember : CacheConfig → ℕ → Bytes → CacheEntry → CacheState → CacheState
remember cfg now key e st =
    put key e (make_room (length (release key st).store) cfg now e.size (release key st))

-- delete(store, key)
unfoldable pub delete : Items CacheEntry → Bytes → Items CacheEntry
delete [] key = []
delete ((k, e) ∷ items) key =
    let rest = delete items key in if bytes_eq k key then items else (k, e) ∷ rest

-- The entry that answers a request, and the state without it where it is stale.
unfoldable pub recall : ℕ → Bytes → CacheState → Option CacheEntry × CacheState
unfolding get delete
recall now key st = elim (get st.store key) [
  | none ↦ (none, st)
  | some e ↦
      if e.exp == 0 || ltb now e.exp
      then (some e, st)
      else (none, without e (delete st.store key) st)
]

abbrev pub entry_of : CacheConfig → ℕ → Bytes → Exchange → CacheEntry
entry_of cfg now key x = record {
  body = x.body;
  content_type = x.content_type;
  status = x.status;
  exp = now + cfg.expiration;
  size = length x.body + length x.content_type + length key;
}

abbrev pub max_age_header : CacheConfig → Exchange → Exchange
max_age_header cfg x =
    if cfg.cache_header
    then set_header (codes "Cache-Control")
        (codes "public, max-age=" ++ itoa (cfg.expiration / 1000000000)) x
    else x

-- The answer from the cache.
abbrev pub replay : CacheConfig → CacheEntry → Exchange → Exchange
replay cfg e x =
    let y = max_age_header cfg x in
    send_bytes e.status e.body
      (if is_empty_text e.content_type then y else record y { content_type = e.content_type })

-- What is done behind the rest of the chain.
abbrev pub keep : CacheConfig → ℕ → Bytes → Exchange × CacheState → Exchange × CacheState
keep cfg now key (x, st) =
    if ltb x.status 400
    then (max_age_header cfg x, remember cfg now key (entry_of cfg now key x) st)
    else (x, st)

abbrev pub is_private : CacheConfig → Exchange → Bool
is_private cfg x =
    not cfg.allow_private
    && (not (is_empty_text (x.request.header (codes "Authorization")))
        || not (is_empty_text (x.request.header (codes "Cookie"))))

-- `recall`, and then the answer or the rest of the chain.
abbrev pub from_cache :
    CacheConfig → ℕ → Bytes → Option CacheEntry → Handler (Exchange × CacheState)
from_cache cfg now key (some e) = act (λ (x, st). (replay cfg e x, st)) (stop none)
from_cache cfg now key none = call_next (λ e. act (keep cfg now key) (stop e))

-- `Cache` at a time.
unfoldable pub cache : CacheConfig → ℕ → Handler (Exchange × CacheState)
cache cfg now = look (λ (x, st).
    if not (cfg.methods x.request.method)
    then pass
    else if is_private cfg x
    then pass
    else act (λ (y, s). (y, (recall now (cfg.key_of x) s).1))
        (from_cache cfg now (cfg.key_of x) (recall now (cfg.key_of x) st).0))
