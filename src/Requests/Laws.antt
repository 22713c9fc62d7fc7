-- ===== src/Requests/Laws.antt =====
-- requests.go: what holds of a request that passes.
use gofi.Prelude.{
  ◌≡◌, refl, ◌∙◌, sym, ap, ◌↔◌, Bool, true, false, Option, none, some, List, [], ◌∷◌, ◌++◌, Bytes,
  all,
}
use gofi.Store.{Items}
use gofi.Requests.{
  RequestError, RequestOutcome, passes, PartMask, is_part_all, Selected, mask, invalid,
  build_request_part_mask, PropertyRules, PartRules, Texts, Services, schema_headers, schema_query,
  schema_path, schema_cookies, schema_body, get_part, do_validate_str, do_validate_cookie,
}
use gofi.Requests.Run.{
  check_each, part_errors, unless_errors, handle_body, body_outcome, check_parts,
  validate_and_or_bind_request, no_result, validate_mask, validate_selected, validate_call,
}
use gofi.Requests.Selectors.{is_selector, IsSelected, named, build_request_part_mask-IsSelected}

-- A statement about a part, where the part is selected.
abbrev pub IfSelected : Bool → Type 0 → Type 0
IfSelected true P = P
IfSelected false P = Unit

-- No property of a part gives an error.
module _ {F D : Type 0} (check : PropertyRules F D → List RequestError) where
  abbrev pub EachPasses : Items (PropertyRules F D) → Type 0
  EachPasses [] = Unit
  EachPasses ((key, def) ∷ items) = (check def ≡ []) × EachPasses items

  abbrev pub PartPasses : Option (PartRules F D) → Type 0
  PartPasses none = Unit
  PartPasses (some pdef) = EachPasses pdef.properties

append-none : {A : Type 0} (xs ys : List A) → (xs ++ ys ≡ []) ↔ ((xs ≡ []) × (ys ≡ []))
append-none [] ys = ((λ h. (refl, h)), (λ h. h.1))
append-none (x ∷ xs) ys = ((λ h. absurd cc h), (λ h. absurd cc h.0))

unless_errors-passes :
    (errs : List RequestError) (next : RequestOutcome)
    → (unless_errors errs next ≡ passes) ↔ ((errs ≡ []) × (next ≡ passes))
unless_errors-passes [] next = ((λ h. (refl, h)), (λ h. h.1))
unless_errors-passes (e ∷ errs) next = ((λ h. absurd cc h), (λ h. absurd cc h.0))

chain_passes :
    {P Q : Type 0} {errs : List RequestError} {next : RequestOutcome}
    → (errs ≡ []) ↔ P
    → (next ≡ passes) ↔ Q
    → (unless_errors errs next ≡ passes) ↔ (P × Q)
chain_passes {errs = errs} {next = next} (p, p') (q, q') =
    let (to, from) = unless_errors-passes errs next in
    ((λ h. (p (to h).0, q (to h).1)), (λ h. from (p' h.0, q' h.1)))

module _ {F D : Type 0} (check : PropertyRules F D → List RequestError) where
  check_each-passes :
      (items : Items (PropertyRules F D)) → (check_each check items ≡ []) ↔ EachPasses check items
  unfolding check_each
  check_each-passes [] = ((λ h. tt), (λ h. refl))
  check_each-passes ((key, def) ∷ items) =
      let (to, from) = append-none (check def) (check_each check items) in
      let (l, r) = check_each-passes items in
      ((λ h. ((to h).0, l (to h).1)), (λ h. from (h.0, r h.1)))

  part_errors-passes :
      (b : Bool) (pdef : Option (PartRules F D))
      → (part_errors b check pdef ≡ []) ↔ IfSelected b (PartPasses check pdef)
  part_errors-passes false pdef = ((λ h. tt), (λ h. refl))
  part_errors-passes true none = ((λ h. tt), (λ h. refl))
  part_errors-passes true (some pdef) =
      let (l, r) = check_each-passes pdef.properties in ((λ h. l h), (λ h. r h))

module _ {F D : Type 0} (services : Services F D) (texts : Texts)
    (req : Items (PartRules F D)) where
  body_outcome-passes :
      (b : Bool)
      → (body_outcome services texts b req ≡ passes)
        ↔ IfSelected b (handle_body services texts req (get_part req schema_body) ≡ passes)
  body_outcome-passes false = ((λ h. tt), (λ h. refl))
  body_outcome-passes true = ((λ h. h), (λ h. h))

  -- What passes, for each part of a mask.
  abbrev pub PartsPass : PartMask → Type 0
  PartsPass m =
      IfSelected m.part_header (
        PartPasses (do_validate_str services schema_headers texts.header_get)
          (get_part req schema_headers))
      × (IfSelected m.part_query (
            PartPasses (do_validate_str services schema_query texts.query_get)
              (get_part req schema_query))
          × (IfSelected m.part_path (
                PartPasses (do_validate_str services schema_path texts.params_get)
                  (get_part req schema_path))
              × (IfSelected m.part_cookie (
                    PartPasses (do_validate_cookie services texts.cookie)
                      (get_part req schema_cookies))
                  × IfSelected m.part_body
                      (handle_body services texts req (get_part req schema_body) ≡ passes))))

  check_parts-passes : (m : PartMask) → (check_parts services texts m req ≡ passes) ↔ PartsPass m
  unfolding check_parts
  check_parts-passes m =
      chain_passes
        (part_errors-passes (do_validate_str services schema_headers texts.header_get) m.part_header
          (get_part req schema_headers))
        (chain_passes
          (part_errors-passes (do_validate_str services schema_query texts.query_get) m.part_query
            (get_part req schema_query))
          (chain_passes
            (part_errors-passes (do_validate_str services schema_path texts.params_get) m.part_path
              (get_part req schema_path))
            (chain_passes
              (part_errors-passes (do_validate_cookie services texts.cookie) m.part_cookie
                (get_part req schema_cookies))
              (body_outcome-passes m.part_body))))

module _ {F D : Type 0} (services : Services F D) (texts : Texts) where
  validate_mask-first :
      (b : Bool) (run : RequestOutcome) → (validate_mask services b run no_result).0 ≡ run
  validate_mask-first true run = refl
  validate_mask-first false run = refl

  selected-passes :
      (r : Bytes × PartRules F D) (rs : Items (PartRules F D)) (b : Bool) (m : PartMask)
      (selected : Selected)
      → IsSelected b m selected
      → ((validate_selected services (some (r ∷ rs)) texts selected no_result).0 ≡ passes)
        ↔ ((b ≡ true) × PartsPass services texts (r ∷ rs) m)
  unfolding validate_and_or_bind_request
  selected-passes r rs true m (mask k) e =
      let same : k ≡ m = cc e in
      let first = validate_mask-first (is_part_all k) (check_parts services texts k (r ∷ rs)) in
      let (to, from) = check_parts-passes services texts (r ∷ rs) m in
      let run = ap (λ l. check_parts services texts l (r ∷ rs)) same in
      ((λ h. (refl, to (sym run ∙ sym first ∙ h))), (λ h. first ∙ run ∙ from h.1))
  selected-passes r rs true m (invalid s) e = absurd cc e
  selected-passes r rs false m (mask k) (s, e) = absurd cc e
  selected-passes r rs false m (invalid s) e = ((λ h. absurd cc h), (λ h. absurd cc h.0))

  -- A call of Validate passes exactly when all its selectors are known and each part that they name
  -- passes: no property of a header, a query, a path or a cookie gives an error, and the body none.
  pub validate_call-passes :
      (r : Bytes × PartRules F D) (rs : Items (PartRules F D)) (selectors : List Bytes)
      → ((validate_call services (some (r ∷ rs)) texts selectors no_result).0 ≡ passes)
        ↔ ((all is_selector selectors ≡ true) × PartsPass services texts (r ∷ rs) (named selectors))
  unfolding validate_call
  validate_call-passes r rs selectors =
      selected-passes r rs (all is_selector selectors) (named selectors)
        (build_request_part_mask selectors) (build_request_part_mask-IsSelected selectors)
