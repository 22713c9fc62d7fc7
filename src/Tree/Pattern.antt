-- ===== src/Tree/Pattern.antt =====
-- What a route pattern means, independently of the tree: the relation between a pattern, a request
-- path and the parameters that the path gives.
use gofi.Prelude.{ℕ, ◌≡◌, ◌≢◌, ◌⊎◌, false, [], ◌∷◌, ◌++◌, ◌==◌, Bytes, All}
use gofi.Tree.Scan.{is_wild}
use gofi.Tree.Lookup.{Params}

-- No byte starts a wildcard.
abbrev pub Plain : Bytes → Type 0
Plain s = All (λ c. is_wild c ≡ false) s

abbrev pub NoSlash : Bytes → Type 0
NoSlash s = All (λ c. (c == b'/') ≡ false) s

-- The end of a text, or the slash that ends a segment.
abbrev pub AtBoundary : Bytes → Type 0
AtBoundary [] = Unit
AtBoundary (c ∷ s) = c ≡ b'/'

-- The name of a wildcard.
abbrev pub IsName : Bytes → Type 0
IsName name = Plain name × NoSlash name × (name ≢ [])

pub data Matches : Bytes → Bytes → Params → Type 0 where
  done : Matches [] [] []
  byte :
      (c : ℕ) {p s : Bytes} {ps : Params}
      → is_wild c ≡ false
      → Matches p s ps
      → Matches (c ∷ p) (c ∷ s) ps
  -- ":name" takes the bytes up to the next slash.
  segment :
      (name v : Bytes) {p s q t : Bytes} {ps : Params}
      → IsName name
      → NoSlash v
      → AtBoundary p
      → AtBoundary s
      → t ≢ []
      → q ≡ b':' ∷ (name ++ p)
      → t ≡ v ++ s
      → Matches p s ps
      → Matches q t (record { key = name; value = v } ∷ ps)
  -- "/*name" takes what follows the slash.
  rest :
      (name v : Bytes) {q : Bytes}
      → IsName name
      → q ≡ b'/' ∷ b'*' ∷ name
      → Matches q (b'/' ∷ v) (record { key = name; value = v } ∷ [])

-- A path with another byte in the place of the slash of a catch-all: what is in front of that byte
-- matches what is in front of the slash, and what is behind it is the value.
pub record Slips (p s : Bytes) (ps : Params) : Type 0 where
  pub front : Bytes
  pub name : Bytes
  pub before : Bytes
  pub other : ℕ
  pub value : Bytes
  pub params : Params
  pub is_pattern : p ≡ front ++ b'/' ∷ b'*' ∷ name
  pub is_name : IsName name
  pub is_path : s ≡ before ++ other ∷ value
  pub differs : (other == b'/') ≡ false
  pub matched : Matches front before params
  pub is_params : ps ≡ params ++ record { key = name; value = value } ∷ []

-- What a lookup serves: a path that matches, or one that slips.
abbrev pub Serves : Bytes → Bytes → Params → Type 0
Serves p s ps = Matches p s ps ⊎ Slips p s ps
