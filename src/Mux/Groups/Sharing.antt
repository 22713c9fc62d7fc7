-- ===== src/Mux/Groups/Sharing.antt =====
-- mux.go: what the routers made by `With` share, and what they do not.
use gofi.Prelude.{
  ℕ, zero, suc, ◌+◌, ◌<◌, ◌≡◌, ◌≢◌, refl, ◌∙◌, ap, ap₂, subst, Option, some, List, [], ◌∷◌, ◌++◌,
  arith, length,
}
use native.Mathlib.Numerals.{add-one}
use gofi.Mux.Groups.{
  Heap, Slice, GroupMux, write, read_cells, read, write_all, copy_array, append, use_middlewares,
  with_middlewares,
}

module _ {H : Type 0} where
  -- Cells that agree below a length give the same elements.
  read_cells_agree :
      (f g : ℕ → Option H) (n : ℕ) → ((i : ℕ) → i < n → f i ≡ g i) → read_cells f n ≡ read_cells g n
  unfolding read_cells
  read_cells_agree f g zero same = refl
  read_cells_agree f g (suc n) same =
      ap₂ (λ x y. x ++ y ∷ []) (read_cells_agree f g n (λ i lt. same i (omega arith)))
        (same n (omega arith))

  append_one :
      (grow : ℕ → ℕ → ℕ) (h : Heap H) (s : Slice) (v : H)
      → s.len < s.cap
      → append grow h s (v ∷ []) ≡ (record s { len = s.len + 1 }, write h s.array s.len v)
  unfolding append
  append_one grow h s v room = ground arith

  -- Two writes to one cell: the second stays, and the cells below keep what they had.
  read_twice :
      (f g : ℕ → Option H) (n : ℕ) (w : H)
      → ((i : ℕ) → i < n → g i ≡ f i)
      → g n ≡ some w
      → read_cells g (n + 1) ≡ read_cells f n ++ some w ∷ []
  unfolding read_cells
  read_twice f g n w below at =
      rw add-one (ap₂ (λ x y. x ++ y ∷ []) (read_cells_agree g f n below) at)

  append_twice :
      (grow : ℕ → ℕ → ℕ) (h : Heap H) (s : Slice) (v w : H)
      → s.len < s.cap
      → read (append grow (append grow h s (v ∷ [])).1 s (w ∷ [])).1 (append grow h s (v ∷ [])).0
        ≡ read h s ++ some w ∷ []
  append_twice grow h s v w room = rw (append_one grow h s v room) (
      rw (append_one grow (write h s.array s.len v) s w room)
        (read_twice (h.cell s.array) _ s.len w (λ i lt. ground arith) (ground arith)))

  -- Two routers that share their middlewares, with room left in the array: after one of them adds a
  -- middleware and then the other does, the first has the second one's in place of its own.
  pub use_overwrites :
      (grow : ℕ → ℕ → ℕ) (h : Heap H) (g k : GroupMux) (v w : H)
      → g.middlewares ≡ k.middlewares
      → g.middlewares.len < g.middlewares.cap
      → read
          (use_middlewares grow (use_middlewares grow h g (v ∷ [])).1 k (w ∷ [])).1
          (use_middlewares grow h g (v ∷ [])).0.middlewares
        ≡ read h g.middlewares ++ some w ∷ []
  unfolding use_middlewares
  use_overwrites grow h g k v w shared room =
      subst
        (λ s.
          read (append grow (append grow h g.middlewares (v ∷ [])).1 s (w ∷ [])).1
            (append grow h g.middlewares (v ∷ [])).0
          ≡ read h g.middlewares ++ some w ∷ [])
        shared (append_twice grow h g.middlewares v w room)

  -- Writes to another array do not show.
  cell-write_all :
      (h : Heap H) (array i : ℕ) (vs : List H) (other : ℕ)
      → array ≢ other
      → (write_all h array i vs).cell other ≡ h.cell other
  unfolding write_all
  cell-write_all h array i [] other ne = refl
  cell-write_all h array i (v ∷ vs) other ne =
      cell-write_all (write h array i v) array (i + 1) vs other ne ∙ ground arith

  fresh-write_all :
      (h : Heap H) (array i : ℕ) (vs : List H) → (write_all h array i vs).fresh ≡ h.fresh
  unfolding write_all
  fresh-write_all h array i [] = refl
  fresh-write_all h array i (v ∷ vs) = fresh-write_all (write h array i v) array (i + 1) vs

  cell-append :
      (grow : ℕ → ℕ → ℕ) (h : Heap H) (s : Slice) (vs : List H) (other : ℕ)
      → s.array ≢ other
      → h.fresh ≢ other
      → (append grow h s vs).1.cell other ≡ h.cell other
  unfolding append
  cell-append grow h s vs other ne new = ground (
    arith,
    cell-write_all h s.array s.len vs other,
    cell-write_all (copy_array h s.array) h.fresh s.len vs other,
  )

  -- The inline middlewares of a router that `With` made do not change when `Use` adds middlewares to
  -- any router whose own lie in an array that was there before.
  pub with_isolates :
      (grow : ℕ → ℕ → ℕ) (h : Heap H) (g k : GroupMux) (vs ws : List H)
      → k.middlewares.array < h.fresh
      → read
          (use_middlewares grow (with_middlewares h g vs).1 k ws).1
          (with_middlewares h g vs).0.inline_middlewares
        ≡ read (with_middlewares h g vs).1 (with_middlewares h g vs).0.inline_middlewares
  unfolding use_middlewares with_middlewares
  with_isolates grow h g k vs ws older =
      let inlines = g.inline_middlewares in
      let h' = write_all (copy_array h inlines.array) h.fresh inlines.len vs in
      let is_fresh : h'.fresh ≡ h.fresh + 1 =
        fresh-write_all (copy_array h inlines.array) h.fresh inlines.len vs in
      ap (λ f. read_cells f (inlines.len + length vs))
        (cell-append grow h' k.middlewares ws h.fresh (omega arith) (omega arith))
