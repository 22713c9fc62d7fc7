-- ===== src/Json/Encode/Runes.antt =====
-- bodyparser_json.go, `encodeString`: the loop of Go over the runes of a string. A byte that starts no
-- rune in UTF-8 is the rune U+FFFD, which WriteRune writes in three bytes.
use gofi.Prelude.{
  ℕ, zero, suc, refl, Bool, true, false, ◌&&◌, Option, none, some, [], ◌∷◌, ◌==◌, ltb, leb,
  if◌then◌else◌, Bytes, All,
}
use gofi.Errors.Json.{IsPrintable}

-- The number of bytes behind a first byte, and the bounds of the next one (package unicode/utf8).
abbrev pub lead : ℕ → Option (ℕ × (ℕ × ℕ))
lead c =
    if ltb c 128
    then some (0, (128, 191))
    else if ltb c 194
    then none
    else if ltb c 224
    then some (1, (128, 191))
    else if c == 224
    then some (2, (160, 191))
    else if c == 237
    then some (2, (128, 159))
    else if ltb c 240
    then some (2, (128, 191))
    else if c == 240
    then some (3, (144, 191))
    else if ltb c 244
    then some (3, (128, 191))
    else if c == 244
    then some (3, (128, 143))
    else none

abbrev pub continues : ℕ → ℕ → ℕ → Bytes → Bool
continues zero low high s = true
continues (suc n) low high [] = false
continues (suc n) low high (c ∷ s) = leb low c && leb c high && continues n 128 191 s

-- The number of bytes that a rune has behind its first, if there is a rune.
abbrev pub rune_tail : ℕ → Bytes → Option ℕ
rune_tail c s = elim (lead c) [
  | none ↦ none
  | some (n, (low, high)) ↦ if continues n low high s then some n else none
]

abbrev pub write_rune : Option ℕ → ℕ → (ℕ → Bytes) → Bytes
write_rune none c rest = 239 ∷ 191 ∷ 189 ∷ rest 0
write_rune (some n) c rest = c ∷ rest n

-- The runes of a text in UTF-8; the number is that of the bytes that are left of a rune.
unfoldable pub valid_from : ℕ → Bytes → Bytes
valid_from k [] = []
valid_from zero (c ∷ s) = write_rune (rune_tail c s) c (λ k. valid_from k s)
valid_from (suc k) (c ∷ s) = c ∷ valid_from k s

write_rune-All :
    (o : Option ℕ) (c : ℕ) (rest : ℕ → Bytes)
    → IsPrintable c
    → ((k : ℕ) → All IsPrintable (rest k))
    → All IsPrintable (write_rune o c rest)
write_rune-All none c rest h hr = (refl, (refl, (refl, hr 0)))
write_rune-All (some n) c rest h hr = (h, hr n)

pub valid_from-All : (s : Bytes) (k : ℕ) → All IsPrintable s → All IsPrintable (valid_from k s)
unfolding valid_from
valid_from-All [] k h = tt
valid_from-All (c ∷ s) zero (p, h) =
    write_rune-All (rune_tail c s) c (λ k. valid_from k s) p (λ k. valid_from-All s k h)
valid_from-All (c ∷ s) (suc k) (p, h) = (p, valid_from-All s k h)
