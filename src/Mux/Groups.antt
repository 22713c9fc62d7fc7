-- ===== src/Mux/Groups.antt =====
-- mux.go: `Use`, `With`, `Group` and `Route`, with the backing arrays of the middleware slices, which
-- the routers made by `With` share.
pub mod Sharing
use gofi.Prelude.{
  ℕ, zero, suc, ◌+◌, Option, none, some, List, [], ◌∷◌, ◌++◌, Bytes, ltb, leb, ◌==◌, if◌then◌else◌,
  length,
}
use gofi.Mux.{join_path, is_empty_text}

-- The arrays that slices point into, and the number of the next one that is made.
pub record Heap (H : Type 0) : Type 0 where
  pub cell : ℕ → ℕ → Option H
  pub fresh : ℕ

pub record Slice : Type 0 where
  pub array : ℕ
  pub len : ℕ
  pub cap : ℕ

-- The parts of `serveMux` that differ between a router and a group of it.
pub record GroupMux : Type 0 where
  pub middlewares : Slice
  pub inline_middlewares : Slice
  pub prefix : Bytes

abbrev pub add_prefix : Bytes → GroupMux → GroupMux
add_prefix pattern g =
    if is_empty_text pattern
    then g
    else if is_empty_text g.prefix
    then record g { prefix = pattern }
    else record g { prefix = join_path g.prefix pattern }

module _ {H : Type 0} where
  abbrev pub update : (ℕ → Option H) → ℕ → Option H → ℕ → Option H
  update f i v j = if i == j then v else f j

  abbrev pub write : Heap H → ℕ → ℕ → H → Heap H
  write h array i v = record h {
    cell = λ a. if array == a then update (h.cell a) i (some v) else h.cell a;
  }

  -- The elements of a slice.
  unfoldable pub read_cells : (ℕ → Option H) → ℕ → List (Option H)
  read_cells f zero = []
  read_cells f (suc n) = read_cells f n ++ f n ∷ []

  abbrev pub read : Heap H → Slice → List (Option H)
  read h s = read_cells (h.cell s.array) s.len

  -- Writes elements from a position on.
  unfoldable pub write_all : Heap H → ℕ → ℕ → List H → Heap H
  write_all h array i [] = h
  write_all h array i (v ∷ vs) = write_all (write h array i v) array (i + 1) vs

  -- A new array with the cells of another.
  abbrev pub copy_array : Heap H → ℕ → Heap H
  copy_array h array = record {
    cell = λ a. if h.fresh == a then h.cell array else h.cell a;
    fresh = h.fresh + 1;
  }

  -- `append(s, vs...)`: in place where the capacity allows it, else in a new array, whose capacity
  -- is chosen by the runtime: `grow` of the old capacity and the new length.
  unfoldable pub append : (ℕ → ℕ → ℕ) → Heap H → Slice → List H → Slice × Heap H
  unfolding write_all
  append grow h s vs =
      let len = s.len + length vs in
      if leb len s.cap then (record s { len = len }, write_all h s.array s.len vs) else (
        record { array = h.fresh; len = len; cap = grow s.cap len },
        write_all (copy_array h s.array) h.fresh s.len vs,
      )

  -- `Use`
  unfoldable pub use_middlewares : (ℕ → ℕ → ℕ) → Heap H → GroupMux → List H → GroupMux × Heap H
  unfolding append
  use_middlewares grow h g vs =
      let (s, h') = append grow h g.middlewares vs in (record g { middlewares = s }, h')

  -- `With`: the inline middlewares are copied to an array of their own; the others are shared.
  unfoldable pub with_middlewares : Heap H → GroupMux → List H → GroupMux × Heap H
  unfolding write_all
  with_middlewares h g vs =
      let len = g.inline_middlewares.len + length vs in
      (
        record g { inline_middlewares = record { array = h.fresh; len = len; cap = len } },
        write_all (copy_array h g.inline_middlewares.array) h.fresh g.inline_middlewares.len vs,
      )

  -- `Route` and `Group`, with what the function `fn` does to the new router.
  unfoldable pub route_group :
      Heap H → GroupMux → Bytes → (GroupMux → Heap H → Heap H) → GroupMux × Heap H
  unfolding with_middlewares join_path
  route_group h g pattern fn =
      let (im, h') = with_middlewares h g [] in let im' = add_prefix pattern im in (im', fn im' h')

  unfoldable pub group : Heap H → GroupMux → (GroupMux → Heap H → Heap H) → GroupMux × Heap H
  unfolding with_middlewares
  group h g fn = let (im, h') = with_middlewares h g [] in (im, fn im h')
