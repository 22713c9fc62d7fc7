-- ===== src/Mux/Paths.antt =====
-- mux.go, `joinPath`: the slashes between its operands.
use gofi.Prelude.{ℕ, ◌≡◌, refl, true, false, [], ◌∷◌, ◌++◌, append_assoc, arith, Bytes, ends_with}
use gofi.Mux.{join_path, starts_with_slash, is_empty_text}

pub ends_with-append : (s : Bytes) (c : ℕ) → ends_with (s ++ c ∷ []) c ≡ true
ends_with-append [] c = ground arith
ends_with-append (x ∷ []) c = ground arith
ends_with-append (x ∷ y ∷ s) c = ends_with-append (y ∷ s) c

is_empty-append : (s t : Bytes) → is_empty_text s ≡ false → is_empty_text (s ++ t) ≡ false
is_empty-append [] t h = cc
is_empty-append (c ∷ s) t h = refl

-- For two texts that are not empty, the first without a slash at its end and the second without one
-- at its start, all four ways to write the slash between them give one slash.
pub join_path_one_slash :
    (p q : Bytes)
    → is_empty_text p ≡ false
    → is_empty_text q ≡ false
    → ends_with p b'/' ≡ false
    → starts_with_slash q ≡ false
    → (join_path p q ≡ p ++ b'/' ∷ q)
      × (join_path (p ++ b'/' ∷ []) q ≡ p ++ b'/' ∷ q)
      × (join_path p (b'/' ∷ q) ≡ p ++ b'/' ∷ q)
      × (join_path (p ++ b'/' ∷ []) (b'/' ∷ q) ≡ p ++ b'/' ∷ q)
unfolding join_path
join_path_one_slash p q hp hq ep eq =
    ground (
      arith,
      ends_with-append p b'/',
      is_empty-append p (b'/' ∷ []) hp,
      append_assoc p (b'/' ∷ []) q,
    )
