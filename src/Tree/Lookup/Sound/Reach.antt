-- ===== src/Tree/Lookup/Sound/Reach.antt =====
-- tree.go, `getValue`: how far the lookup compares a pattern and a path, and what that means.
use gofi.Prelude.{
  ℕ, ◌≡◌, refl, sym, ap, ◌∙◌, ◌≢◌, inl, inr, false, [], ◌∷◌, ◌++◌, ◌==◌, ==_iff, arith,
  append_assoc, Bool-cases, subst, Bytes,
}
use gofi.Tree.Scan.{is_wild}
use gofi.Tree.Lookup.{Params}
use gofi.Tree.Pattern
use gofi.Tree.Pattern.{Plain, NoSlash, AtBoundary, IsName, Matches, Slips, Serves}

-- As `Matches`, but that the byte in the place of a catch-all's slash is not compared.
pub data Reaches : Bytes → Bytes → Params → Type 0 where
  done : Reaches [] [] []
  byte :
      (c : ℕ) {p s : Bytes} {ps : Params}
      → is_wild c ≡ false
      → Reaches p s ps
      → Reaches (c ∷ p) (c ∷ s) ps
  -- ":name" takes the bytes up to the next slash.
  segment :
      (name v : Bytes) {p s q t : Bytes} {ps : Params}
      → IsName name
      → NoSlash v
      → AtBoundary p
      → AtBoundary s
      → t ≢ []
      → q ≡ b':' ∷ (name ++ p)
      → t ≡ v ++ s
      → Reaches p s ps
      → Reaches q t (record { key = name; value = v } ∷ ps)
  -- "/*name" takes what follows one byte. That byte should be the slash, but the lookup does not
  -- compare it.
  rest :
      (name : Bytes) (c : ℕ) (v : Bytes) {q : Bytes}
      → IsName name
      → q ≡ b'/' ∷ b'*' ∷ name
      → Reaches q (c ∷ v) (record { key = name; value = v } ∷ [])

-- A plain text in front of a pattern matches itself.
pub Reaches-append :
    (l : Bytes) {p s : Bytes} {ps : Params}
    → Plain l
    → Reaches p s ps
    → Reaches (l ++ p) (l ++ s) ps
Reaches-append [] h m = m
Reaches-append (c ∷ l) (plain, h) m = byte c plain (Reaches-append l h m)

byte-Slips :
    (c : ℕ) (p s : Bytes) (ps : Params)
    → is_wild c ≡ false
    → Slips p s ps
    → Slips (c ∷ p) (c ∷ s) ps
byte-Slips c p s ps plain h = record {
  front = c ∷ h.front;
  name = h.name;
  before = c ∷ h.before;
  other = h.other;
  value = h.value;
  params = h.params;
  is_pattern = ap (λ x. c ∷ x) h.is_pattern;
  is_name = h.is_name;
  is_path = ap (λ x. c ∷ x) h.is_path;
  differs = h.differs;
  matched = Pattern.byte c plain h.matched;
  is_params = h.is_params;
}

-- A text in front of a slash or another text starts as that text does.
AtBoundary-front : (l r : Bytes) → AtBoundary (l ++ r) → AtBoundary l
AtBoundary-front [] r h = tt
AtBoundary-front (c ∷ l) r h = h

slips_given :
    (v before value : Bytes) (c : ℕ)
    → (c == b'/') ≡ false
    → AtBoundary (before ++ c ∷ value)
    → v ++ before ≢ []
slips_given [] [] value c differs edge = λ e. ground arith
slips_given [] (x ∷ before) value c differs edge = λ e. cc e
slips_given (x ∷ v) before value c differs edge = λ e. cc e

segment-Slips :
    (name v p s : Bytes) (ps : Params)
    → IsName name
    → NoSlash v
    → AtBoundary p
    → AtBoundary s
    → Slips p s ps
    → Slips (b':' ∷ (name ++ p)) (v ++ s) (record { key = name; value = v } ∷ ps)
segment-Slips name v p s ps named plain edge_p edge_s h = record {
  front = b':' ∷ (name ++ h.front);
  name = h.name;
  before = v ++ h.before;
  other = h.other;
  value = h.value;
  params = record { key = name; value = v } ∷ h.params;
  is_pattern =
      ap (λ x. b':' ∷ (name ++ x)) h.is_pattern
      ∙ ap (λ x. b':' ∷ x) (sym (append_assoc name h.front (b'/' ∷ b'*' ∷ h.name)));
  is_name = h.is_name;
  is_path = ap (λ x. v ++ x) h.is_path ∙ sym (append_assoc v h.before (h.other ∷ h.value));
  differs = h.differs;
  matched =
      Pattern.segment name v named plain
        (AtBoundary-front h.front (b'/' ∷ b'*' ∷ h.name) (subst AtBoundary h.is_pattern edge_p))
        (AtBoundary-front h.before (h.other ∷ h.value) (subst AtBoundary h.is_path edge_s))
        (slips_given v h.before h.value h.other h.differs (subst AtBoundary h.is_path edge_s)) refl
        refl h.matched;
  is_params = ap (λ x. record { key = name; value = v } ∷ x) h.is_params;
}

-- A path that the lookup takes for a pattern matches it, or slips.
pub Reaches-Serves : {p s : Bytes} {ps : Params} → Reaches p s ps → Serves p s ps
Reaches-Serves done = inl Pattern.done
Reaches-Serves (byte c {p = p} {s = s} {ps = ps} plain m) = elim (Reaches-Serves m) [
  | inl k ↦ inl (Pattern.byte c plain k)
  | inr k ↦ inr (byte-Slips c p s ps plain k)
]
Reaches-Serves
      (segment name v {p = p} {s = s} {q = q} {t = t} {ps = ps} named plain edge_p edge_s given is_q
        is_t m) =
    elim (Reaches-Serves m) [
      | inl k ↦ inl (Pattern.segment name v named plain edge_p edge_s given is_q is_t k)
      | inr k ↦ inr (
          subst (λ x. Slips x t (record { key = name; value = v } ∷ ps)) (sym is_q)
            (subst (λ x. Slips (b':' ∷ (name ++ p)) x (record { key = name; value = v } ∷ ps))
              (sym is_t) (segment-Slips name v p s ps named plain edge_p edge_s k)))
    ]
Reaches-Serves (rest name c v {q = q} named is_q) = elim (Bool-cases (c == b'/')) [
  | inl slash ↦ inl (
      subst (λ x. Matches q (x ∷ v) (record { key = name; value = v } ∷ []))
        (sym ((==_iff c b'/').0 slash)) (Pattern.rest name v named is_q))
  | inr other ↦ inr (record {
    front = [];
    name = name;
    before = [];
    other = c;
    value = v;
    params = [];
    is_pattern = is_q;
    is_name = named;
    is_path = refl;
    differs = other;
    matched = Pattern.done;
    is_params = refl;
  })
]
