-- ===== src/Json/Walk/Reports.antt =====
-- bodyparser_json.go, `walkStruct`: the reports of the steps of a walk.
use gofi.Prelude.{
  ℕ, ◌+◌, ◌≤◌, ◌≡◌, refl, sym, ◌∙◌, inl, inr, Bool, true, false, Option, none, some, List, [], ◌∷◌,
  ◌++◌, append-nil, append_assoc, arith, if◌then◌else◌, Bytes, length, length-append, All,
  Bool-cases,
}
use gofi.Prelude.{itoa, codes}
use gofi.Json.{JsonValue, bytes_value, Access, found, failed, panics}
use gofi.Json.Walk.{
  Checked, one, many, Rule, RuleInfo, Report, Walked, skipped, finished, refused, broke, refuse_at,
  run_validation_lazy, unless_reports, check, as_checked, walk_bytes, check_decoded, check_cast,
  exceeds, check_any, check_many, and_then, WalkFn, walk_each, visit_next, visit_entries,
}

-- A report of a walk from `keys`: its path goes on from there, and no deeper than one key below the
-- limit of the depth.
pub record IsBelow (max_depth : ℕ) (keys : List Bytes) (r : Report) : Type 0 where
  pub behind : List Bytes
  pub path : r.keys ≡ keys ++ behind
  pub bound : length r.keys ≤ max_depth + 1

abbrev pub AllReports : (Report → Type 0) → Walked → Type 0
AllReports P (refused rs) = All P rs
AllReports P _ = Unit

pub All-imp :
    (P Q : Report → Type 0) → ((r : Report) → P r → Q r) → (rs : List Report) → All P rs → All Q rs
All-imp P Q f [] h = tt
All-imp P Q f (r ∷ rs) (p, h) = (f r p, All-imp P Q f rs h)

pub AllReports-imp :
    (P Q : Report → Type 0)
    → ((r : Report) → P r → Q r)
    → (w : Walked) → AllReports P w
    → AllReports Q w
AllReports-imp P Q f skipped h = tt
AllReports-imp P Q f finished h = tt
AllReports-imp P Q f (refused rs) h = All-imp P Q f rs h
AllReports-imp P Q f broke h = tt

pub and_then-AllReports :
    (P : Report → Type 0) (v w : Walked)
    → AllReports P v
    → AllReports P w
    → AllReports P (and_then v w)
and_then-AllReports P skipped w hv hw = hw
and_then-AllReports P finished w hv hw = hw
and_then-AllReports P (refused rs) w hv hw = hv
and_then-AllReports P broke w hv hw = tt

pub visit_next-AllReports :
    (P : Report → Type 0) (v last : Walked) (rest : Walked → Walked)
    → AllReports P v
    → AllReports P last
    → ((l : Walked) → AllReports P l → AllReports P (rest l))
    → AllReports P (visit_next v last rest)
visit_next-AllReports P skipped last rest hv hl hr = hr last hl
visit_next-AllReports P finished last rest hv hl hr = hr last hl
visit_next-AllReports P (refused rs) last rest hv hl hr = hr (refused rs) hv
visit_next-AllReports P broke last rest hv hl hr = tt

pub if-AllReports :
    (P : Report → Type 0) (b : Bool) (v w : Walked)
    → AllReports P v
    → AllReports P w
    → AllReports P (if b then v else w)
if-AllReports P true v w hv hw = hv
if-AllReports P false v w hv hw = hw

module _ (m : ℕ) where
  -- A report at the keys, and at one key more.
  pub refuse_at-IsBelow :
      (keys : List Bytes) (rule : Bytes)
      → length keys ≤ m + 1
      → AllReports (IsBelow m keys) (refuse_at keys rule)
  refuse_at-IsBelow keys rule h =
      (record { behind = []; path = sym (append-nil keys); bound = h }, tt)

  pub refuse_at-one :
      (keys : List Bytes) (key rule : Bytes)
      → length keys ≤ m
      → AllReports (IsBelow m keys) (refuse_at (keys ++ key ∷ []) rule)
  refuse_at-one keys key rule h = (
    record {
      behind = key ∷ [];
      path = refl;
      bound = omega (arith, length-append keys (key ∷ []), h);
    },
    tt,
  )

  pub narrow_keys :
      (keys : List Bytes) (key : Bytes) (w : Walked)
      → AllReports (IsBelow m (keys ++ key ∷ [])) w
      → AllReports (IsBelow m keys) w
  narrow_keys keys key w =
      AllReports-imp (IsBelow m (keys ++ key ∷ [])) (IsBelow m keys)
        (λ r b. record {
          behind = key ∷ b.behind;
          path = b.path ∙ append_assoc keys (key ∷ []) b.behind;
          bound = b.bound;
        })
        w

module _ {N : Type 0} (m : ℕ) where
  -- A walk whose reports all lie below the keys that it starts from.
  abbrev pub Descends : WalkFn N → Type 0
  Descends w =
      (here : Option N) (keys : List Bytes)
      → length keys ≤ m + 1
      → AllReports (IsBelow m keys) (w here keys)

  pub descend-one :
      (w : WalkFn N) (here : Option N) (keys : List Bytes) (key : Bytes)
      → Descends w
      → length keys ≤ m
      → AllReports (IsBelow m keys) (w here (keys ++ key ∷ []))
  descend-one w here keys key d h =
      narrow_keys m keys key (w here (keys ++ key ∷ []))
        (d here (keys ++ key ∷ []) (omega (arith, length-append keys (key ∷ []), h)))

  pub walk_each-IsBelow :
      (w : WalkFn N) (nodes : List N) (i : ℕ) (keys : List Bytes)
      → Descends w
      → length keys ≤ m
      → AllReports (IsBelow m keys) (walk_each w nodes i keys)
  unfolding walk_each
  walk_each-IsBelow w [] i keys d h = tt
  walk_each-IsBelow w (node ∷ nodes) i keys d h =
      and_then-AllReports (IsBelow m keys) (w (some node) (keys ++ itoa i ∷ []))
        (walk_each w nodes (i + 1) keys) (descend-one w (some node) keys (itoa i) d h)
        (walk_each-IsBelow w nodes (i + 1) keys d h)

  pub visit_entries-IsBelow :
      (w : WalkFn N) (entries : List (Bytes × N)) (keys : List Bytes) (last : Walked)
      → Descends w
      → length keys ≤ m
      → AllReports (IsBelow m keys) last
      → AllReports (IsBelow m keys) (visit_entries w entries keys last)
  unfolding visit_entries
  visit_entries-IsBelow w [] keys last d h hl = hl
  visit_entries-IsBelow w ((key, node) ∷ entries) keys last d h hl =
      visit_next-AllReports (IsBelow m keys) (w (some node) (keys ++ key ∷ [])) last
        (λ l. visit_entries w entries keys l) (descend-one w (some node) keys key d h) hl
        (λ l hl'. visit_entries-IsBelow w entries keys l d h hl')

pub unless_reports-All :
    (P : Report → Type 0) (rs : List Report) → All P rs → AllReports P (unless_reports rs)
unless_reports-All P [] h = tt
unless_reports-All P (r ∷ rs) h = h

module _ {F D : Type 0} (m : ℕ) where
  pub validation-IsBelow :
      (val : Checked F D) (keys : List Bytes) (rules : List (Rule F D))
      → length keys ≤ m + 1
      → All (IsBelow m keys) (run_validation_lazy val keys rules)
  unfolding run_validation_lazy
  validation-IsBelow val keys [] h = tt
  validation-IsBelow val keys (r ∷ rules) h =
      let later = validation-IsBelow val keys rules h in
      elim (Bool-cases (r.rejects val)) [
        | inl bad ↦ rw bad (record { behind = []; path = sym (append-nil keys); bound = h }, later)
        | inr good ↦ rw good later
      ]

  pub check-IsBelow :
      (info : RuleInfo F D) (val : Checked F D) (keys : List Bytes)
      → length keys ≤ m + 1
      → AllReports (IsBelow m keys) (check info val keys)
  check-IsBelow info val keys h =
      unless_reports-All (IsBelow m keys) (run_validation_lazy val keys info.rules)
        (validation-IsBelow val keys info.rules h)

  pub check_any-IsBelow :
      (info : RuleInfo F D) (keys : List Bytes) (a : Access (Option (JsonValue F D)))
      → length keys ≤ m + 1
      → AllReports (IsBelow m keys) (check_any info keys a)
  check_any-IsBelow info keys failed h = refuse_at-IsBelow m keys (codes "parser") h
  check_any-IsBelow info keys panics h = tt
  check_any-IsBelow info keys (found v) h = check-IsBelow info (as_checked v) keys h

  pub check_many-IsBelow :
      (info : RuleInfo F D) (keys : List Bytes) (a : Access (List (JsonValue F D)))
      → length keys ≤ m + 1
      → AllReports (IsBelow m keys) (check_many info keys a)
  check_many-IsBelow info keys failed h = refuse_at-IsBelow m keys (codes "parser") h
  check_many-IsBelow info keys panics h = tt
  check_many-IsBelow info keys (found vs) h =
      if-AllReports (IsBelow m keys) (exceeds info.max (length vs)) _ _
        (refuse_at-IsBelow m keys (codes "max") h) (check-IsBelow info (many vs) keys h)

  pub check_cast-IsBelow :
      (info : RuleInfo F D) (keys : List Bytes) (o : Option (JsonValue F D))
      → length keys ≤ m + 1
      → AllReports (IsBelow m keys) (check_cast info keys o)
  check_cast-IsBelow info keys none h = refuse_at-IsBelow m keys (codes "typeCast") h
  check_cast-IsBelow info keys (some v) h = check-IsBelow info (one v) keys h

  pub check_decoded-IsBelow :
      (info : RuleInfo F D) (keys : List Bytes) (o : Option Bytes)
      → length keys ≤ m + 1
      → AllReports (IsBelow m keys) (check_decoded info keys o)
  check_decoded-IsBelow info keys none h = refuse_at-IsBelow m keys (codes "decode") h
  check_decoded-IsBelow info keys (some raw) h = check-IsBelow info (one (bytes_value raw)) keys h

  pub walk_bytes-IsBelow :
      (info : RuleInfo F D) (keys : List Bytes) (f : Bytes → Walked) (val : Option (JsonValue F D))
      → length keys ≤ m + 1
      → ((raw : Bytes) → AllReports (IsBelow m keys) (f raw))
      → AllReports (IsBelow m keys) (walk_bytes info keys f val)
  walk_bytes-IsBelow info keys f (some (bytes_value raw)) h hf = hf raw
  walk_bytes-IsBelow info keys f none h hf = refuse_at-IsBelow m keys (codes "parser") h
  walk_bytes-IsBelow info keys f (some _) h hf = refuse_at-IsBelow m keys (codes "parser") h
