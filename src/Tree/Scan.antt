-- ===== src/Tree/Scan.antt =====
-- tree.go: the helpers that scan a path, `longestCommonPrefix`, `findWildcard`, `countParams`.
pub mod Laws
use gofi.Prelude.{
  ℕ, suc, ◌+◌, Bool, true, false, ◌||◌, Option, none, some, [], ◌∷◌, ◌==◌, leb, if◌then◌else◌,
  Bytes,
}

-- c == ':' || c == '*'
abbrev pub is_wild : ℕ → Bool
is_wild c = c == b':' || c == b'*'

-- The loop stops at the end of the shorter text, or where the two differ.
unfoldable pub longest_common_prefix : Bytes → Bytes → ℕ
longest_common_prefix [] b = 0
longest_common_prefix (x ∷ a) [] = 0
longest_common_prefix (x ∷ a) (y ∷ b) = if x == y then suc (longest_common_prefix a b) else 0

-- The inner loop of `findWildcard`: the bytes up to the next '/', and whether none is a wildcard.
unfoldable pub scan_name : Bytes → Bool → Bytes × Bool
scan_name [] valid = ([], valid)
scan_name (c ∷ s) valid =
    let (name, ok) = scan_name s (if is_wild c then false else valid) in
    if c == b'/' then ([], valid) else (c ∷ name, ok)

-- The three results of `findWildcard`; its index -1 is `none`.
pub record Wildcard : Type 0 where
  pub text : Bytes
  pub start : ℕ
  pub valid : Bool

unfoldable pub find_wildcard_from : ℕ → Bytes → Option Wildcard
find_wildcard_from start [] = none
find_wildcard_from start (c ∷ s) =
    let later = find_wildcard_from (start + 1) s in
    let (name, ok) = scan_name s true in
    if is_wild c then some (record { text = c ∷ name; start = start; valid = ok }) else later

unfoldable pub find_wildcard : Bytes → Option Wildcard
unfolding find_wildcard_from scan_name
find_wildcard path = find_wildcard_from 0 path

unfoldable pub count_wild : Bytes → ℕ
count_wild [] = 0
count_wild (c ∷ s) = if is_wild c then suc (count_wild s) else count_wild s

-- A uint8 that saturates at 255.
unfoldable pub count_params : Bytes → ℕ
unfolding count_wild
count_params path = if leb 255 (count_wild path) then 255 else count_wild path
