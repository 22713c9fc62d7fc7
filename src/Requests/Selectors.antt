-- ===== src/Requests/Selectors.antt =====
-- requests.go: which parts the selectors name.
use gofi.Prelude.{
  ◌≡◌, refl, ◌∙◌, sym, subst, inl, inr, Bool, true, false, ◌||◌, List, [], ◌∷◌, arith, Bytes,
  bytes_eq, bytes_eq→eq, codes, any, all, Bool-cases,
}
use gofi.Requests.{
  PartMask, no_part, Selected, mask, invalid, select_parts, build_request_part_mask,
}

abbrev pub is_selector : Bytes → Bool
is_selector s =
    bytes_eq s (codes "request.header")
    || bytes_eq s (codes "request.path")
    || bytes_eq s (codes "request.query")
    || bytes_eq s (codes "request.cookie")
    || bytes_eq s (codes "request.body")

-- No selectors name each part.
abbrev pub names : List Bytes → Bytes → Bool
names [] part = true
names (s ∷ selectors) part = any (λ t. bytes_eq t part) (s ∷ selectors)

-- The bit of a part behind the loop, and the outcome of the loop.
abbrev added : List Bytes → Bytes → Bool → Bool
added [] part b = b
added (s ∷ selectors) part b = added selectors part (bytes_eq s part || b)

abbrev masked : List Bytes → PartMask → PartMask
masked selectors m = record {
  part_header = added selectors (codes "request.header") m.part_header;
  part_path = added selectors (codes "request.path") m.part_path;
  part_query = added selectors (codes "request.query") m.part_query;
  part_cookie = added selectors (codes "request.cookie") m.part_cookie;
  part_body = added selectors (codes "request.body") m.part_body;
}

added-any :
    (selectors : List Bytes) (part : Bytes) (b : Bool)
    → added selectors part b ≡ (b || any (λ t. bytes_eq t part) selectors)
added-any [] part b = ground arith
added-any (s ∷ selectors) part b = added-any selectors part (bytes_eq s part || b) ∙ ground arith

-- The loop gives a mask exactly when all texts are selectors.
abbrev pub IsSelected : Bool → PartMask → Selected → Type 0
IsSelected true m selected = selected ≡ mask m
IsSelected false m selected = (s : Bytes) × (selected ≡ invalid s)

abbrev Masks : List Bytes → PartMask → Selected → Type 0
Masks selectors m selected = IsSelected (all is_selector selectors) (masked selectors m) selected

select_parts-Masks :
    (s part : Bytes) (selectors : List Bytes) (m : PartMask)
    → bytes_eq s part ≡ true
    → Masks (part ∷ selectors) m (select_parts (part ∷ selectors) m)
    → Masks (s ∷ selectors) m (select_parts (s ∷ selectors) m)
select_parts-Masks s part selectors m e h =
    subst (λ t. Masks (t ∷ selectors) m (select_parts (t ∷ selectors) m))
      (sym (bytes_eq→eq s part e)) h

select_parts-IsSelected :
    (selectors : List Bytes) (m : PartMask) → Masks selectors m (select_parts selectors m)
unfolding select_parts
select_parts-IsSelected [] m = refl
select_parts-IsSelected (s ∷ selectors) m =
    elim (Bool-cases (bytes_eq s (codes "request.header"))) [
      | inl e ↦
          select_parts-Masks s (codes "request.header") selectors m e
            (select_parts-IsSelected selectors (record m { part_header = true }))
      | inr a ↦ elim (Bool-cases (bytes_eq s (codes "request.path"))) [
        | inl e ↦
            select_parts-Masks s (codes "request.path") selectors m e
              (select_parts-IsSelected selectors (record m { part_path = true }))
        | inr b ↦ elim (Bool-cases (bytes_eq s (codes "request.query"))) [
          | inl e ↦
              select_parts-Masks s (codes "request.query") selectors m e
                (select_parts-IsSelected selectors (record m { part_query = true }))
          | inr c ↦ elim (Bool-cases (bytes_eq s (codes "request.cookie"))) [
            | inl e ↦
                select_parts-Masks s (codes "request.cookie") selectors m e
                  (select_parts-IsSelected selectors (record m { part_cookie = true }))
            | inr d ↦ elim (Bool-cases (bytes_eq s (codes "request.body"))) [
              | inl e ↦
                  select_parts-Masks s (codes "request.body") selectors m e
                    (select_parts-IsSelected selectors (record m { part_body = true }))
              | inr f ↦ rw (a, b, c, d, f) (s, refl)
            ]
          ]
        ]
      ]
    ]

-- The mask of the parts that the selectors name.
abbrev pub named : List Bytes → PartMask
named selectors = record {
  part_header = names selectors (codes "request.header");
  part_path = names selectors (codes "request.path");
  part_query = names selectors (codes "request.query");
  part_cookie = names selectors (codes "request.cookie");
  part_body = names selectors (codes "request.body");
}

masked-named : (s : Bytes) (ss : List Bytes) → masked (s ∷ ss) no_part ≡ named (s ∷ ss)
masked-named s ss =
    let all_of = added-any (s ∷ ss) in
    rw
      (
        all_of (codes "request.header") false,
        all_of (codes "request.path") false,
        all_of (codes "request.query") false,
        all_of (codes "request.cookie") false,
        all_of (codes "request.body") false,
      )
      refl

-- The selectors of a call give the mask of the parts that they name, in any order and number; a text
-- that is no selector gives an error.
pub build_request_part_mask-IsSelected :
    (selectors : List Bytes)
    → IsSelected (all is_selector selectors) (named selectors) (build_request_part_mask selectors)
unfolding build_request_part_mask
build_request_part_mask-IsSelected [] = refl
build_request_part_mask-IsSelected (s ∷ ss) =
    subst (λ m. IsSelected (all is_selector (s ∷ ss)) m (select_parts (s ∷ ss) no_part))
      (masked-named s ss) (select_parts-IsSelected (s ∷ ss) no_part)
