-- ===== src/Store.antt =====
-- extras.go: the key-value stores of the router and of a request, and the table of the routes' meta
-- values. A Go map is an association list here; the order of its entries stands for the order in
-- which a loop over the map meets them.
pub mod Laws
pub mod MetaLaws
mod Tests
use gofi.Prelude.{
  Bool, true, false, ◌&&◌, ◌||◌, Option, none, some, List, [], ◌∷◌, ◌++◌, map, if◌then◌else◌, Bytes,
  bytes_eq,
}

-- The items of a `gofiStore`, or the entries of a map with text keys.
abbrev pub Items : Type 0 → Type 0
Items V = List (Bytes × V)

module _ {V : Type 0} where
  -- `NewGlobalStore` and `NewDataStore`, which differ in the capacity that they reserve.
  abbrev pub new_store : Items V
  new_store = []

  unfoldable pub has : Items V → Bytes → Bool
  has [] key = false
  has ((k, v) ∷ items) key = bytes_eq k key || has items key

  unfoldable pub set : Items V → Bytes → V → Items V
  set [] key val = (key, val) ∷ []
  set ((k, v) ∷ items) key val =
      if bytes_eq k key then (k, val) ∷ items else (k, v) ∷ set items key val

  -- `Get`; its second result tells `some` from `none`.
  unfoldable pub get : Items V → Bytes → Option V
  get [] key = none
  get ((k, v) ∷ items) key = if bytes_eq k key then some v else get items key

  -- `TryGet`; `none` is its panic.
  unfoldable pub try_get : Items V → Bytes → Option V
  try_get [] key = none
  try_get ((k, v) ∷ items) key = if bytes_eq k key then some v else try_get items key

  -- `All`, where `yield` returns false after a number of items.
  unfoldable pub all_items : {S : Type 0} → Items V → (Bytes → V → S → S × Bool) → S → S
  all_items [] yield s = s
  all_items ((k, v) ∷ items) yield s =
      let (s', more) = yield k v s in
      let rest = all_items items yield s' in if more then rest else s'

-- metaMap: a path, then a method in lower case
abbrev pub MetaMap : Type 0 → Type 0
MetaMap M = Items (Items M)

pub record MetaMapInfo (M : Type 0) : Type 0 where
  pub path : Bytes
  pub method : Bytes
  pub meta_value : M

module _ {M : Type 0} where
  -- m[path][method]; a missing path gives the empty map.
  abbrev pub at_path : MetaMap M → Bytes → Items M
  at_path m path = elim (get m path) [ none ↦ [] | some v ↦ v ]

  -- `Route`, and `TryRoute`, where `none` is the panic. `to_lower` is strings.ToLower.
  unfoldable pub meta_route : (Bytes → Bytes) → MetaMap M → Bytes → Bytes → Option M
  unfolding get
  meta_route to_lower m path method = get (at_path m path) (to_lower method)

  -- The inner loop of `Filter`: a method that passes replaces the map stored for the path.
  unfoldable pub filter_methods : (Bytes → Bytes → Bool) → Bytes → Items M → MetaMap M → MetaMap M
  unfolding set
  filter_methods fn p [] r = r
  filter_methods fn p ((mt, vp) ∷ v) r =
      filter_methods fn p v (if fn p mt then set r p ((mt, vp) ∷ []) else r)

  unfoldable pub filter_paths : (Bytes → Bytes → Bool) → MetaMap M → MetaMap M → MetaMap M
  filter_paths fn [] r = r
  filter_paths fn ((p, v) ∷ m) r = filter_paths fn m (filter_methods fn p v r)

  unfoldable pub filter : (Bytes → Bytes → Bool) → MetaMap M → MetaMap M
  unfolding filter_paths filter_methods
  filter fn m = filter_paths fn m []

  -- The inner loop of `FilterAsSlice`
  unfoldable pub slice_methods :
      (Bytes → Bytes → Bool) → Bytes → Items M → List (MetaMapInfo M) → List (MetaMapInfo M)
  slice_methods fn p [] r = r
  slice_methods fn p ((mt, vp) ∷ v) r =
      slice_methods fn p v
        (if fn p mt then r ++ record { path = p; method = mt; meta_value = vp } ∷ [] else r)

  unfoldable pub slice_paths :
      (Bytes → Bytes → Bool) → MetaMap M → List (MetaMapInfo M) → List (MetaMapInfo M)
  slice_paths fn [] r = r
  slice_paths fn ((p, v) ∷ m) r = slice_paths fn m (slice_methods fn p v r)

  unfoldable pub filter_as_slice : (Bytes → Bytes → Bool) → MetaMap M → List (MetaMapInfo M)
  unfolding slice_paths slice_methods
  filter_as_slice fn m = slice_paths fn m []
