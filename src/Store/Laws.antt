-- ===== src/Store/Laws.antt =====
-- extras.go, `gofiStore`: its operations against each other.
use gofi.Prelude.{
  ◌≡◌, refl, Bool, true, false, Option, none, some, List, [], ◌∷◌, ◌++◌, arith, if◌then◌else◌,
  Bytes, bytes_eq, bytes_eq_iff,
}
use gofi.Store.{Items, has, set, get, try_get}

module _ {V : Type 0} where
  abbrev pub is_some : Option V → Bool
  is_some none = false
  is_some (some a) = true

  abbrev pub keys : Items V → List Bytes
  keys [] = []
  keys ((k, v) ∷ items) = k ∷ keys items

  -- No key occurs twice.
  abbrev pub HasDistinctKeys : Items V → Type 0
  HasDistinctKeys [] = Unit
  HasDistinctKeys ((k, v) ∷ items) = (has items k ≡ false) × HasDistinctKeys items

  -- After `Set` the key has the new value, and every other key what it had.
  pub get-set :
      (items : Items V) (key : Bytes) (val : V) (other : Bytes)
      → get (set items key val) other ≡ (if bytes_eq key other then some val else get items other)
  unfolding get set
  get-set [] key val other = refl
  get-set ((k, v) ∷ items) key val other = ground (
    arith,
    get-set items key val other,
    bytes_eq_iff k key,
    bytes_eq_iff k other,
    bytes_eq_iff key other,
  )

  has-set :
      (items : Items V) (key : Bytes) (val : V) (other : Bytes)
      → bytes_eq key other ≡ false
      → has (set items key val) other ≡ has items other
  unfolding has set
  has-set [] key val other h = ground arith
  has-set ((k, v) ∷ items) key val other h = ground (
    arith,
    has-set items key val other h,
    bytes_eq_iff k key,
    bytes_eq_iff k other,
    bytes_eq_iff key other,
  )

  -- `Has`, `Get` and `TryGet` agree: a key is there exactly when it has a value.
  pub has-get :
      (items : Items V) (key : Bytes)
      → (has items key ≡ is_some (get items key)) × (try_get items key ≡ get items key)
  unfolding has get try_get
  has-get [] key = (refl, refl)
  has-get ((k, v) ∷ items) key = ground (arith, has-get items key)

  -- `Set` of a new key puts it behind the others; of a known key, it leaves the keys as they are.
  pub keys-set :
      (items : Items V) (key : Bytes) (val : V)
      → keys (set items key val) ≡ (if has items key then keys items else keys items ++ key ∷ [])
  unfolding has set
  keys-set [] key val = refl
  keys-set ((k, v) ∷ items) key val = ground (arith, keys-set items key val)

  -- `Set` keeps the keys distinct.
  pub set-HasDistinctKeys :
      (items : Items V) (key : Bytes) (val : V)
      → HasDistinctKeys items
      → HasDistinctKeys (set items key val)
  unfolding has set
  set-HasDistinctKeys [] key val h = (refl, tt)
  set-HasDistinctKeys ((k, v) ∷ items) key val h = ground (
    arith,
    set-HasDistinctKeys items key val h.1,
    has-set items key val k,
    bytes_eq_iff k key,
    bytes_eq_iff key k,
  )
