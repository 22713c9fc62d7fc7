-- ===== src/Prelude/Strings.antt =====
-- What the code calls of Go's packages `strings` and `strconv`, over bytes.
use Prim.Native.Nat.{ℕ, zero, suc, ◌+◌, ◌/◌, ◌%◌}
use mathlib.Core.Bool.{Bool, true, false, ◌&&◌, ◌||◌}
use mathlib.Core.Option.{Option, none, some}
use mathlib.Core.List.{List, [], ◌∷◌, ◌++◌}
use gofi.Prelude.Tests.{ltb, leb, ◌==◌, if◌then◌else◌}
use gofi.Prelude.Lists.{length}
use gofi.Prelude.Text.{Bytes, cut_prefix}

-- strings.HasPrefix
abbrev pub has_prefix : Bytes → Bytes → Bool
has_prefix s p = elim (cut_prefix p s) [ none ↦ false | some r ↦ true ]

-- strings.HasSuffix for a suffix of one byte
abbrev pub ends_with : Bytes → ℕ → Bool
ends_with [] b = false
ends_with (c ∷ []) b = c == b
ends_with (c ∷ d ∷ s) b = ends_with (d ∷ s) b

-- strings.Split(s, sep) for a separator of one byte: never empty.
abbrev pub prepend_byte : ℕ → List Bytes → List Bytes
prepend_byte c [] = (c ∷ []) ∷ []
prepend_byte c (w ∷ ws) = (c ∷ w) ∷ ws

unfoldable pub split_on : ℕ → Bytes → List Bytes
split_on sep [] = [] ∷ []
split_on sep (c ∷ s) = if c == sep then [] ∷ split_on sep s else prepend_byte c (split_on sep s)

-- unicode.IsSpace on ASCII
abbrev pub is_space : ℕ → Bool
is_space c = c == b' ' || leb 9 c && leb c 13

unfoldable pub trim_left : Bytes → Bytes
trim_left [] = []
trim_left (c ∷ s) = if is_space c then trim_left s else c ∷ s

unfoldable pub trim_right : Bytes → Bytes
trim_right [] = []
trim_right (c ∷ s) = elim (trim_right s) [
  | [] ↦ if is_space c then [] else c ∷ []
  | d ∷ t ↦ c ∷ d ∷ t
]

-- strings.TrimSpace
unfoldable pub trim_space : Bytes → Bytes
unfolding trim_left trim_right
trim_space s = trim_right (trim_left s)

-- strings.LastIndexByte, as the texts before and behind the last such byte
unfoldable pub cut_last : ℕ → Bytes → Option (Bytes × Bytes)
cut_last b [] = none
cut_last b (c ∷ s) = elim (cut_last b s) [
  | some (l, r) ↦ some (c ∷ l, r)
  | none ↦ if c == b then some ([], s) else none
]

-- strings.ReplaceAll(s, old, new) for a text `old` that is not empty; each round takes one byte at
-- least, so that the length of `s` is enough fuel.
unfoldable pub replace_from : ℕ → Bytes → Bytes → Bytes → Bytes
replace_from zero s old new = s
replace_from (suc f) [] old new = []
replace_from (suc f) (c ∷ s) old new = elim (cut_prefix old (c ∷ s)) [
  | some r ↦ new ++ replace_from f r old new
  | none ↦ c ∷ replace_from f s old new
]

unfoldable pub replace_all : Bytes → Bytes → Bytes → Bytes
unfolding replace_from
replace_all s old new = replace_from (length s) s old new

-- strconv.Itoa of a number that is not negative; its number of digits is less than the fuel.
unfoldable pub digits_from : ℕ → ℕ → Bytes → Bytes
digits_from zero n acc = acc
digits_from (suc f) n acc =
    let rest = digits_from f (n / 10) ((b'0' + n % 10) ∷ acc) in
    if ltb n 10 then (b'0' + n) ∷ acc else rest

unfoldable pub itoa : ℕ → Bytes
unfolding digits_from
itoa n = digits_from (n + 1) n []
