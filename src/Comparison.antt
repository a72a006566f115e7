-- ===== src/Comparison.antt =====
-- internal/tools/comparison/comparison.go: whether the fields of a custom resource agree with what
-- the API returned. The value that Go returns beside an error is left out, as callers drop it.
pub mod Agrees
pub mod Agreement
pub mod Deep
use krateo_rest_dynamic_cont.Base.{
  ℕ, zero, suc, ◌+◌, ◌-◌, ◌*◌, ◌^◌, Bool, true, false, ◌&&◌, ◌||◌, not, List, [], ◌∷◌, ◌++◌, Option,
  none, some, ltb, leb, ◌==◌, if◌then◌else◌, length, all, Text, codes, text_eq, is_empty,
  equal_fold, lookup, ℤ, pos, negsuc, Error, Result, ok, err,
}
use krateo_rest_dynamic_cont.Value.{
  Value, null, bool, str, int, float, obj, arr, Items, nil, cons, Fields, end, field, elems,
  of_elems, entries, of_entries,
}
use krateo_rest_dynamic_cont.Path.Parse.{is_digit}
use krateo_rest_dynamic_cont.Path.Nested.{decimal}
use krateo_rest_dynamic_cont.Externals.{
  Externals, Decoded, malformed, trailing, number, other, sprint,
}

pub data Why : Type 0 where
  one_is_nil values_differ first_longer : Why

pub record Reason : Type 0 where
  pub why : Why
  pub first : Value
  pub second : Value

-- `ComparisonResult`
pub data Comparison : Type 0 where
  equal : Comparison
  different : Reason → Comparison

abbrev pub differ : Why → Value → Value → Result Comparison
differ w a b = ok (different (record { why = w; first = a; second = b }))

-- What `InferType` returns: a string, bool, int32, int64, float64, nil or a decoded JSON value.
pub data Inferred : Type 0 where
  text : Text → Inferred
  truth : Bool → Inferred
  int32 : ℤ → Inferred
  int64 : ℤ → Inferred
  real : ℕ → Inferred
  nothing : Inferred
  tree : Value → Inferred

abbrev is_space : ℕ → Bool
is_space c = c == 32 || (leb 9 c && leb c 13)

trim_left : Text → Text
trim_left [] = []
trim_left (c ∷ s) = let rest = trim_left s in if is_space c then rest else c ∷ s

trim_right : Text → Text
trim_right [] = []
trim_right (c ∷ s) = let rest = trim_right s in if is_space c && is_empty rest then [] else c ∷ rest

-- `strings.TrimSpace` on ASCII.
unfoldable pub trim_space : Text → Text
unfolding trim_left trim_right
trim_space s = trim_right (trim_left s)

abbrev signed_range : Bool → ℕ → Option ℤ
signed_range negative n =
    if negative
    then (if leb n (2 ^ 63) then some (if n == 0 then pos 0 else negsuc (n - 1)) else none)
    else (if ltb n (2 ^ 63) then some (pos n) else none)

abbrev digits_in_range : Bool → Text → Option ℤ
digits_in_range negative [] = none
digits_in_range negative (c ∷ s) =
    if all is_digit (c ∷ s) then signed_range negative (decimal 0 (c ∷ s)) else none

-- `strconv.ParseInt(s, 10, 64)`
unfoldable pub parse_int : Text → Option ℤ
unfolding decimal
parse_int [] = none
parse_int (c ∷ s) =
    if c == b'-'
    then digits_in_range true s
    else if c == b'+'
    then digits_in_range false s
    else digits_in_range false (c ∷ s)

-- An integer goes to int32 where it fits.
abbrev narrow : ℤ → Inferred
narrow (pos n) = if ltb n (2 ^ 31) then int32 (pos n) else int64 (pos n)
narrow (negsuc n) = if ltb n (2 ^ 31) then int32 (negsuc n) else int64 (negsuc n)

-- The part of `InferType` behind the JSON attempt.
unfoldable pub infer_plain : Externals → Text → Inferred
infer_plain x s =
    if equal_fold s (codes "true")
    then truth true
    else if equal_fold s (codes "false")
    then truth false
    else if equal_fold s (codes "null") || equal_fold s (codes "nil")
    then nothing
    else elim (parse_int s) [
      | some i ↦ narrow i
      | none ↦ elim (x.parse_float s) [
        | none ↦ text s
        | some f ↦ elim (x.whole_int64 f) [ some i ↦ int64 i | none ↦ real f ]
      ]
    ]

-- A json.Number: an int64, else a float64, which becomes an integer if it is whole.
unfoldable pub infer_number : Externals → Text → Text → Inferred
infer_number x s literal = elim (parse_int literal) [
  | some i ↦ narrow i
  | none ↦ elim (x.parse_float literal) [
    | none ↦ infer_plain x s
    | some f ↦ elim (x.whole_int64 f) [ some i ↦ narrow i | none ↦ real f ]
  ]
]

abbrev of_decoded : Value → Inferred
of_decoded null = nothing
of_decoded (bool b) = truth b
of_decoded (str s) = text s
of_decoded v = tree v

unfoldable pub infer_trimmed : Externals → Text → Inferred
infer_trimmed x s = if is_empty s then text s else elim (x.decode_json s) [
  | malformed ↦ infer_plain x s
  | trailing ↦ infer_plain x s
  | number literal ↦ infer_number x s literal
  | other v ↦ of_decoded v
]

-- `InferType`
unfoldable pub infer_type : Externals → Text → Inferred
infer_type x s = infer_trimmed x (trim_space s)

abbrev int_equal : ℤ → ℤ → Bool
int_equal (pos m) (pos n) = m == n
int_equal (negsuc m) (negsuc n) = m == n
int_equal _ _ = false

-- `cmp.Equal` on what `InferType` returns; values of different types differ.
unfoldable pub inferred_equal : Externals → Inferred → Inferred → Bool
inferred_equal x (text s) (text t) = text_eq s t
inferred_equal x (truth true) (truth b) = b
inferred_equal x (truth false) (truth b) = not b
inferred_equal x (int32 m) (int32 n) = int_equal m n
inferred_equal x (int64 m) (int64 n) = int_equal m n
inferred_equal x (real a) (real b) = x.float_equal a b
inferred_equal x nothing nothing = true
inferred_equal x (tree v) (tree w) = x.value_equal v w
inferred_equal x _ _ = false

-- `CompareAny`
unfoldable pub compare_any : Externals → Value → Value → Bool
compare_any x null null = true
compare_any x null b = false
compare_any x a null = false
compare_any x a b = inferred_equal x (infer_type x (sprint x a)) (infer_type x (sprint x b))

-- Where two maps or arrays differ inside, the map reports its own pair; an array passes on.
abbrev pub in_map : Value → Value → Result Comparison → Result Comparison
in_map a b (ok (different r)) = differ Why.values_differ a b
in_map a b r = r

-- The loops stop at the first error or difference.
abbrev pub and_next : Result Comparison → Result Comparison → Result Comparison
and_next (ok equal) rest = rest
and_next r rest = r

abbrev pub compare_scalar : Externals → Value → Value → Result Comparison
compare_scalar x v null = differ Why.one_is_nil v null
compare_scalar x v w = if compare_any x v w then ok equal else differ Why.values_differ v w

-- A key that is missing in the second map is ignored.
abbrev pub if_present : (Value → Result Comparison) → Option Value → Result Comparison
if_present f none = ok equal
if_present f (some w) = f w

module _ (x : Externals) where
  unfoldable mutual
    -- The comparison of two values, under one key or at one index.
    pub compare_value : Value → Value → Result Comparison
    compare_value null null = ok equal
    compare_value null w = differ Why.one_is_nil null w
    compare_value (obj fs) null = differ Why.one_is_nil (obj fs) null
    compare_value (obj fs) (obj gs) = in_map (obj fs) (obj gs) (compare_existing fs (entries gs))
    compare_value (obj fs) w = err Error.type_mismatch
    compare_value (arr vs) null = differ Why.one_is_nil (arr vs) null
    compare_value (arr vs) (arr ws) =
        compare_slices vs (elems ws) (ltb (length (elems ws)) (length (elems vs)))
    compare_value (arr vs) w = err Error.type_mismatch
    compare_value v w = compare_scalar x v w

    -- `compareSlices`; the last argument says whether the first slice is longer.
    pub compare_slices : Items → List Value → Bool → Result Comparison
    compare_slices vs ws true = differ Why.first_longer (arr vs) (arr (of_elems ws))
    compare_slices nil ws false = ok equal
    compare_slices (cons v vs) [] false = ok equal
    compare_slices (cons v vs) (w ∷ ws) false =
        and_next (compare_value v w) (compare_slices vs ws false)

    -- `CompareExisting`
    pub compare_existing : Fields → List (Text × Value) → Result Comparison
    compare_existing end rm = ok equal
    compare_existing (field k v fs) rm =
        and_next (if_present (compare_value v) (lookup k rm)) (compare_existing fs rm)
