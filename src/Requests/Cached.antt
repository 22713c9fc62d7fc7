-- ===== src/Requests/Cached.antt =====
-- requests.go: what `Validate` keeps between its calls.
use gofi.Prelude.{
  ◌≡◌, refl, ◌∙◌, sym, ap, ap₂, Bool, true, false, Option, List, [], ◌∷◌, map, Bytes, ◌&&◌,
  if_cases,
}
use gofi.Store.{Items}
use gofi.Requests.{
  RequestOutcome, passes, rejects, breaks, PartMask, part_all, is_part_all, Selected, mask, invalid,
  build_request_part_mask, PartRules, Texts, Services,
}
use gofi.Requests.Run.{
  validate_and_or_bind_request, BindedResult, no_result, outcome_of_result, keep_outcome,
  validate_mask, validate_selected, validate_call,
}

abbrev mask_of : Bool → Bool → Bool → Bool → Bool → PartMask
mask_of a b c d e = record {
  part_header = a;
  part_path = b;
  part_query = c;
  part_cookie = d;
  part_body = e;
}

mask_of-eq : (a b c d e : Bool) → a && (b && (c && (d && e))) ≡ true → mask_of a b c d e ≡ part_all
mask_of-eq true true true true true h = refl
mask_of-eq false b c d e h = absurd cc
mask_of-eq true false c d e h = absurd cc
mask_of-eq true true false d e h = absurd cc
mask_of-eq true true true false e h = absurd cc
mask_of-eq true true true true false h = absurd cc

is_part_all-eq : (m : PartMask) → is_part_all m ≡ true → m ≡ part_all
unfolding is_part_all
is_part_all-eq m h = mask_of-eq m.part_header m.part_path m.part_query m.part_cookie m.part_body h

-- The calls of a request, one behind the other, with what they return.
abbrev pub validate_calls :
    {F D : Type 0}
    → Services F D
    → Option (Items (PartRules F D))
    → Texts
    → List (List Bytes)
    → BindedResult
    → List RequestOutcome
validate_calls services rules texts [] cached = []
validate_calls services rules texts (selectors ∷ calls) cached =
    let (result, cached') = validate_call services rules texts selectors cached in
    result ∷ validate_calls services rules texts calls cached'

module _ {F D : Type 0} (services : Services F D) (rules : Option (Items (PartRules F D)))
    (texts : Texts) where
  -- What is kept is what the check of all parts gives.
  abbrev IsUnchanged : BindedResult → Type 0
  IsUnchanged cached =
      cached.bound ≡ true
      → outcome_of_result cached.err ≡ validate_and_or_bind_request services texts part_all rules

  abbrev Fresh : RequestOutcome → RequestOutcome × BindedResult → Type 0
  Fresh o (result, cached) = (result ≡ o) × IsUnchanged cached

  keep_outcome-IsUnchanged :
      (run : RequestOutcome) (cached : BindedResult)
      → run ≡ validate_and_or_bind_request services texts part_all rules
      → IsUnchanged cached
      → IsUnchanged (keep_outcome run cached)
  keep_outcome-IsUnchanged passes cached e h = λ _. e
  keep_outcome-IsUnchanged (rejects errs) cached e h = λ _. e
  keep_outcome-IsUnchanged breaks cached e h = h

  validate_mask-Fresh :
      (m : PartMask) (use_cache : Bool) (cached : BindedResult)
      → (use_cache ≡ true → m ≡ part_all)
      → IsUnchanged cached
      → Fresh (validate_and_or_bind_request services texts m rules) (
          validate_mask services use_cache
            (validate_and_or_bind_request services texts m rules)
            cached)
  validate_mask-Fresh m false cached e h = (refl, h)
  validate_mask-Fresh m true cached e h =
      let same = ap (λ k. validate_and_or_bind_request services texts k rules) (e refl) in
      let run = validate_and_or_bind_request services texts m rules in
      if_cases (Fresh run) cached.bound (outcome_of_result cached.err, cached)
        (run, keep_outcome run cached) (λ bound. (h bound ∙ sym same, h))
        (λ _. (refl, keep_outcome-IsUnchanged run cached same h))

  validate_selected-Fresh :
      (selected : Selected) (cached : BindedResult)
      → IsUnchanged cached
      → Fresh
          (validate_selected services rules texts selected no_result).0
          (validate_selected services rules texts selected cached)
  validate_selected-Fresh (invalid s) cached h = (refl, h)
  validate_selected-Fresh (mask m) cached h =
      let (e, k) = validate_mask-Fresh m (is_part_all m) cached (is_part_all-eq m) h in
      let (f, _) =
        validate_mask-Fresh m (is_part_all m) no_result (is_part_all-eq m) (λ q. absurd cc q) in
      (e ∙ sym f, k)

  validate_calls-unchanged :
      (calls : List (List Bytes)) (cached : BindedResult)
      → IsUnchanged cached
      → validate_calls services rules texts calls cached
        ≡ map (λ selectors. (validate_call services rules texts selectors no_result).0) calls
  unfolding validate_call
  validate_calls-unchanged [] cached h = refl
  validate_calls-unchanged (selectors ∷ calls) cached h =
      let (e, k) = validate_selected-Fresh (build_request_part_mask selectors) cached h in
      ap₂ (λ o os. o ∷ os) e
        (validate_calls-unchanged calls
          (validate_selected services rules texts (build_request_part_mask selectors) cached).1 k)

  -- Each call of Validate in a request returns what it would return as the first: for a request that
  -- does not change, the results that are kept are those of its check.
  pub validate_calls-fresh :
      (calls : List (List Bytes))
      → validate_calls services rules texts calls no_result
        ≡ map (λ selectors. (validate_call services rules texts selectors no_result).0) calls
  validate_calls-fresh calls = validate_calls-unchanged calls no_result (λ q. absurd cc q)
