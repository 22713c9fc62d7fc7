-- ===== src/Json/Arrays.antt =====
-- cont/json.go: the two ways to read an array of primitive values.
use gofi.Prelude.{
  ℕ, zero, suc, ◌+◌, ◌≤◌, ◌<◌, ◌≡◌, refl, ap, ◌∙◌, ◌≢◌, inl, inr, true, false, Option, none, some,
  List, [], ◌∷◌, ◌++◌, arith, if◌then◌else◌, Bytes, length, get_elem?, Bool-cases,
}
use gofi.Prelude.{itoa}
use gofi.Json.{
  Kind, string_kind, int_kind, uint_kind, float32_kind, float64_kind, bool_kind, array_kind,
  slice_kind, struct_kind, map_kind, interface_kind, other_kind, is_primitive_kind, ObjectFormat,
  JsonValue, Access, found, failed, panics, Lookup, eof, value, FastJson, is_null, get_struct,
  get_node_struct, get_kind, get_by_kind, get_node_by_kind, round_or_end, Width, word, w8, w16, w32,
  w64, fetch, get_int, get_uint, round, arr_vals_from, get_primitive_arr_vals,
  get_primitive_arr_vals_from_node,
}

module _ {N F D : Type 0} (j : FastJson N F D) where
  -- The nodes before the first null.
  abbrev pub up_to_null : List N → List N
  up_to_null [] = []
  up_to_null (node ∷ nodes) = if is_null (j.type_of node) then [] else node ∷ up_to_null nodes

  -- A path of keys with an index behind it gives the node of an array at that index, and nothing at
  -- its end.
  abbrev pub IsIndexed : N → List Bytes → List N → ℕ → Type 0
  IsIndexed pv keys nodes i =
      (k : ℕ) → k ≤ length nodes → j.get (some pv) (keys ++ itoa (i + k) ∷ []) ≡ get_elem? nodes k

  get_kind-primitive :
      (kind : Kind) (format : ObjectFormat) (node : N)
      → is_primitive_kind kind ≡ true
      → get_kind j (get_struct j format) kind format node
        ≡ get_kind j (get_node_struct j format) kind format node
  unfolding get_kind
  get_kind-primitive string_kind format node h = refl
  get_kind-primitive (int_kind w) format node h = refl
  get_kind-primitive (uint_kind w) format node h = refl
  get_kind-primitive float32_kind format node h = refl
  get_kind-primitive float64_kind format node h = refl
  get_kind-primitive bool_kind format node h = refl
  get_kind-primitive array_kind format node h = cc
  get_kind-primitive slice_kind format node h = cc
  get_kind-primitive struct_kind format node h = cc
  get_kind-primitive map_kind format node h = cc
  get_kind-primitive interface_kind format node h = cc
  get_kind-primitive other_kind format node h = cc

  get_by_kind-none :
      (pv : N) (kind : Kind) (format : ObjectFormat) (keys : List Bytes)
      → j.get (some pv) keys ≡ none
      → get_by_kind j pv kind format keys ≡ found eof
  unfolding get_by_kind
  get_by_kind-none pv kind format keys e = rw e refl

  get_by_kind-null :
      (pv : N) (kind : Kind) (format : ObjectFormat) (keys : List Bytes) (node : N)
      → j.get (some pv) keys ≡ some node
      → is_null (j.type_of node) ≡ true
      → get_by_kind j pv kind format keys ≡ found eof
  unfolding get_by_kind
  get_by_kind-null pv kind format keys node e h = rw (e, h) refl

  get_by_kind-some :
      (pv : N) (kind : Kind) (format : ObjectFormat) (keys : List Bytes) (node : N)
      → is_primitive_kind kind ≡ true
      → j.get (some pv) keys ≡ some node
      → is_null (j.type_of node) ≡ false
      → get_by_kind j pv kind format keys ≡ get_node_by_kind j (some node) kind format
  unfolding get_by_kind get_node_by_kind
  get_by_kind-some pv kind format keys node p e h =
      rw (e, h) (get_kind-primitive kind format node p)

  round_or_end-round :
      (l : Access (Lookup F D)) (r : Access (List (JsonValue F D)))
      → l ≢ found eof
      → round_or_end j l (some r) ≡ some (round j l r)
  round_or_end-round failed r h = refl
  round_or_end-round panics r h = refl
  round_or_end-round (found eof) r h = absurd (h refl)
  round_or_end-round (found (value v)) r h = refl

  fetch-given : {A : Type 0} (o : Option A) (f : A → JsonValue F D) → fetch o f ≢ found eof
  fetch-given none f = λ e. cc
  fetch-given (some v) f = λ e. cc

  get_int-given : (w : Width) (node : N) → get_int j w node ≢ found eof
  unfolding get_int
  get_int-given word node = fetch-given (j.int node) _
  get_int-given w8 node = fetch-given (j.int node) _
  get_int-given w16 node = fetch-given (j.int node) _
  get_int-given w32 node = fetch-given (j.int node) _
  get_int-given w64 node = fetch-given (j.int64 node) _

  get_uint-given : (w : Width) (node : N) → get_uint j w node ≢ found eof
  unfolding get_uint
  get_uint-given word node = fetch-given (j.uint node) _
  get_uint-given w8 node = fetch-given (j.uint node) _
  get_uint-given w16 node = fetch-given (j.uint node) _
  get_uint-given w32 node = fetch-given (j.uint node) _
  get_uint-given w64 node = fetch-given (j.uint64 node) _

  get_kind-given :
      (strct : N → Access (Lookup F D)) (kind : Kind) (format : ObjectFormat) (node : N)
      → is_primitive_kind kind ≡ true
      → get_kind j strct kind format node ≢ found eof
  unfolding get_kind
  get_kind-given strct string_kind format node p = fetch-given (j.string_bytes node) _
  get_kind-given strct (int_kind w) format node p = get_int-given w node
  get_kind-given strct (uint_kind w) format node p = get_uint-given w node
  get_kind-given strct float32_kind format node p = fetch-given (j.float64 node) _
  get_kind-given strct float64_kind format node p = fetch-given (j.float64 node) _
  get_kind-given strct bool_kind format node p = fetch-given (j.bool node) _
  get_kind-given strct array_kind format node p = absurd cc
  get_kind-given strct slice_kind format node p = absurd cc
  get_kind-given strct struct_kind format node p = absurd cc
  get_kind-given strct map_kind format node p = absurd cc
  get_kind-given strct interface_kind format node p = absurd cc
  get_kind-given strct other_kind format node p = absurd cc

  get_node_by_kind-given :
      (kind : Kind) (format : ObjectFormat) (node : N)
      → is_primitive_kind kind ≡ true
      → is_null (j.type_of node) ≡ false
      → get_node_by_kind j (some node) kind format ≢ found eof
  unfolding get_node_by_kind
  get_node_by_kind-given kind format node p h =
      rw h (get_kind-given (get_node_struct j format) kind format node p)

  arr_vals_from-nodes :
      (fuel : ℕ) (pv : N) (kind : Kind) (format : ObjectFormat) (keys : List Bytes) (nodes : List N)
      (i : ℕ)
      → is_primitive_kind kind ≡ true
      → IsIndexed pv keys nodes i
      → length nodes < fuel
      → arr_vals_from j fuel pv kind format keys i
        ≡ some (get_primitive_arr_vals_from_node j (up_to_null nodes) kind format)
  unfolding arr_vals_from get_primitive_arr_vals_from_node
  arr_vals_from-nodes zero pv kind format keys nodes i p h lt = absurd (omega (arith, lt))
  arr_vals_from-nodes (suc f) pv kind format keys [] i p h lt =
      rw
        (get_by_kind-none pv kind format (keys ++ itoa i ∷ [])
          (ap (λ n. j.get (some pv) (keys ++ itoa n ∷ [])) (omega arith) ∙ h 0 (omega arith)))
        refl
  arr_vals_from-nodes (suc f) pv kind format keys (node ∷ nodes) i p h lt =
      let first : j.get (some pv) (keys ++ itoa i ∷ []) ≡ some node =
        ap (λ n. j.get (some pv) (keys ++ itoa n ∷ [])) (omega arith) ∙ h 0 (omega arith) in
      elim (Bool-cases (is_null (j.type_of node))) [
        | inl null ↦
            rw (null, get_by_kind-null pv kind format (keys ++ itoa i ∷ []) node first null) refl
        | inr given ↦
            let later =
              arr_vals_from-nodes f pv kind format keys nodes (i + 1) p
                (λ k le.
                  ap (λ n. j.get (some pv) (keys ++ itoa n ∷ [])) (omega arith)
                  ∙ h (suc k) (omega (arith, le)))
                (omega (arith, lt)) in
            rw
              (
                given,
                get_by_kind-some pv kind format (keys ++ itoa i ∷ []) node p first given,
                later,
              )
              (round_or_end-round (get_node_by_kind j (some node) kind format)
                (get_primitive_arr_vals_from_node j (up_to_null nodes) kind format)
                (get_node_by_kind-given kind format node p given))
      ]

  -- Reading an array by the paths of its elements gives, with fuel for one round more than its
  -- length, what reading its nodes gives for those before the first null: at a null the one ends,
  -- where the other goes on.
  pub get_primitive_arr_vals-nodes :
      (fuel : ℕ) (pv : N) (kind : Kind) (format : ObjectFormat) (keys : List Bytes) (nodes : List N)
      → is_primitive_kind kind ≡ true
      → IsIndexed pv keys nodes 0
      → length nodes < fuel
      → get_primitive_arr_vals j fuel pv kind format keys
        ≡ some (get_primitive_arr_vals_from_node j (up_to_null nodes) kind format)
  get_primitive_arr_vals-nodes fuel pv kind format keys nodes =
      arr_vals_from-nodes fuel pv kind format keys nodes 0
