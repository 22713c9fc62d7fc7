-- ===== src/Store/Tests.antt =====
-- Runs of the store and of the meta table, and the theorems at them.
use gofi.Prelude.{ℕ, ◌≡◌, refl, Bool, true, false, none, [], ◌∷◌, Bytes, codes, length}
use gofi.Store.{Items, has, set, MetaMap, all_items, meta_route, filter, filter_as_slice}
use gofi.Store.Laws.{HasDistinctKeys}

abbrev two : Items ℕ
two = (codes "a", 1) ∷ (codes "b", 2) ∷ []

two-HasDistinctKeys : HasDistinctKeys two
unfolding has
two-HasDistinctKeys = (refl, (refl, tt))

set_runs : set two (codes "c") 3 ≡ (codes "a", 1) ∷ (codes "b", 2) ∷ (codes "c", 3) ∷ []
unfolding set
set_runs = refl

-- A `yield` that stops at the first item.
all_items_stops : all_items two (λ k v (s : ℕ). (v, false)) 0 ≡ 1
unfolding all_items
all_items_stops = refl

-- A path with two methods.
abbrev metas : MetaMap ℕ
metas =
    (codes "/a", (codes "get", 1) ∷ (codes "post", 2) ∷ [])
    ∷ (codes "/b", (codes "get", 3) ∷ [])
    ∷ []

abbrev every : Bytes → Bytes → Bool
every p mt = true

filter_drops_get : meta_route (λ s. s) (filter every metas) (codes "/a") (codes "get") ≡ none
unfolding meta_route filter
filter_drops_get = refl

slice_has_both : length (filter_as_slice every metas) ≡ 3
unfolding filter_as_slice
slice_has_both = refl
