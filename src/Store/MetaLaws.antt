-- ===== src/Store/MetaLaws.antt =====
-- extras.go, `Filter` and `FilterAsSlice`: which entries they keep.
use gofi.Prelude.{
  ◌≤◌, ◌≡◌, sym, ◌∙◌, ap, Bool, List, [], ◌∷◌, ◌++◌, append-nil, append_assoc, arith, if_both,
  if◌then◌else◌, Bytes, length,
}
use gofi.Store.{
  Items, set, get, MetaMap, MetaMapInfo, at_path, filter_methods, filter_paths, filter,
  slice_methods, slice_paths, filter_as_slice,
}
use gofi.Store.Laws.{get-set}

module _ {M : Type 0} (fn : Bytes → Bytes → Bool) where
  abbrev info : Bytes → Bytes → M → MetaMapInfo M
  info p mt vp = record { path = p; method = mt; meta_value = vp }

  -- The entries of a path that pass, in their order.
  abbrev pub passing_at : Bytes → Items M → List (MetaMapInfo M)
  passing_at p [] = []
  passing_at p ((mt, vp) ∷ v) = if fn p mt then info p mt vp ∷ passing_at p v else passing_at p v

  abbrev pub passing : MetaMap M → List (MetaMapInfo M)
  passing [] = []
  passing ((p, v) ∷ m) = passing_at p v ++ passing m

  slice_methods-append :
      (p : Bytes) (v : Items M) (r : List (MetaMapInfo M))
      → slice_methods fn p v r ≡ r ++ passing_at p v
  unfolding slice_methods
  slice_methods-append p [] r = sym (append-nil r)
  slice_methods-append p ((mt, vp) ∷ v) r = ground (
    arith,
    slice_methods-append p v r,
    slice_methods-append p v (r ++ info p mt vp ∷ []),
    append_assoc r (info p mt vp ∷ []) (passing_at p v),
  )

  slice_paths-append :
      (m : MetaMap M) (r : List (MetaMapInfo M)) → slice_paths fn m r ≡ r ++ passing m
  unfolding slice_paths
  slice_paths-append [] r = sym (append-nil r)
  slice_paths-append ((p, v) ∷ m) r =
      slice_paths-append m (slice_methods fn p v r)
      ∙ (ap (λ x. x ++ passing m) (slice_methods-append p v r)
          ∙ append_assoc r (passing_at p v) (passing m))

  -- `FilterAsSlice` lists every entry that passes, once, and no other.
  pub filter_as_slice_lem : (m : MetaMap M) → filter_as_slice fn m ≡ passing m
  unfolding filter_as_slice
  filter_as_slice_lem m = slice_paths-append m []

  -- No path has more than one method.
  abbrev HasOneEach : MetaMap M → Type 0
  HasOneEach r = (p : Bytes) → length (at_path r p) ≤ 1

  set-HasOneEach :
      (r : MetaMap M) (p mt : Bytes) (vp : M) → HasOneEach r → HasOneEach (set r p ((mt, vp) ∷ []))
  set-HasOneEach r p mt vp h q = ground (arith, get-set r p ((mt, vp) ∷ []) q, h q)

  filter_methods-HasOneEach :
      (p : Bytes) (v : Items M) (r : MetaMap M)
      → HasOneEach r
      → HasOneEach (filter_methods fn p v r)
  unfolding filter_methods
  filter_methods-HasOneEach p [] r h = h
  filter_methods-HasOneEach p ((mt, vp) ∷ v) r h =
      filter_methods-HasOneEach p v (if fn p mt then set r p ((mt, vp) ∷ []) else r)
        (if_both HasOneEach (fn p mt) (set r p ((mt, vp) ∷ [])) r (set-HasOneEach r p mt vp h) h)

  filter_paths-HasOneEach : (m r : MetaMap M) → HasOneEach r → HasOneEach (filter_paths fn m r)
  unfolding filter_paths
  filter_paths-HasOneEach [] r h = h
  filter_paths-HasOneEach ((p, v) ∷ m) r h =
      filter_paths-HasOneEach m (filter_methods fn p v r) (filter_methods-HasOneEach p v r h)

  -- `Filter` keeps at most one method of each path, however many pass.
  pub length-filter-le_one : (m : MetaMap M) (p : Bytes) → length (at_path (filter fn m) p) ≤ 1
  unfolding filter get
  length-filter-le_one m p = filter_paths-HasOneEach m [] (λ q. omega arith) p
