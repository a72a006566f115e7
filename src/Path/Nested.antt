-- ===== src/Path/Nested.antt =====
-- nested.go: reading, writing and removing a value at a path through maps and arrays.
-- A map is mutated in place there and a grown slice is written back to its parent; here each
-- function returns the new container. No write precedes an error, so an error leaves all as it was.
-- fmt's "%v" is the parameter `sprint`.
pub mod Predicates
pub mod Writes
pub mod Removes
use krateo_rest_dynamic_cont.Base.{
  ℕ, zero, suc, ◌+◌, ◌-◌, ◌*◌, ◌^◌, Bool, true, false, not, ◌&&◌, ◌||◌, List, [], ◌∷◌, ◌++◌, Option,
  none, some, ltb, ◌==◌, if◌then◌else◌, length, get_elem?, set, remove_at, replicate, all, Text,
  text_eq, lookup, insert, delete, Error, Result, ok, err, ◌>>=◌,
}
use krateo_rest_dynamic_cont.Value.{
  Value, null, obj, arr, Items, nil, Fields, end, elems, of_elems, entries, of_entries,
}
use krateo_rest_dynamic_cont.Path.Parse.{is_digits, is_digit, leading_zero, parse_predicate}

-- The number that a text of digits writes.
unfoldable pub decimal : ℕ → Text → ℕ
decimal acc [] = acc
decimal acc (c ∷ s) = decimal (acc * 10 + (c - b'0')) s

-- `isArrayIndex`; Atoi fails from 2^63 on.
unfoldable pub is_array_index : Text → Option ℕ
unfolding is_digits decimal
is_array_index s =
    if not (is_digits s)
    then none
    else if ltb 1 (length s) && leading_zero s
    then none
    else if ltb (decimal 0 s) (2 ^ 63)
    then some (decimal 0 s)
    else none

abbrev pub is_some {ℓ} : {A : Type ℓ} → Option A → Bool
is_some none = false
is_some (some a) = true

-- `segmentWantsArray`
unfoldable pub segment_wants_array : Text → Bool
segment_wants_array s = is_some (is_array_index s) || is_some (parse_predicate s)

-- `containerMatches`
unfoldable pub container_matches : Value → Text → Bool
container_matches (obj fs) s = not (segment_wants_array s)
container_matches (arr xs) s = segment_wants_array s
container_matches _ s = false

-- `newContainerFor`
unfoldable pub new_container_for : Text → Value
new_container_for s = if segment_wants_array s then arr nil else obj end

-- `c[seg]`, null for a missing key.
abbrev pub or_null : Option Value → Value
or_null none = null
or_null (some v) = v

-- The child to descend into: the present one if its shape fits, else a new one.
unfoldable pub child_for : Option Value → Text → Value
child_for v s = if container_matches (or_null v) s then or_null v else new_container_for s

-- `for idx >= len(c) { c = append(c, nil) }`
unfoldable pub grow : List Value → ℕ → List Value
grow vs i = vs ++ replicate (i + 1 - length vs) null

-- A read goes on in what the step found.
abbrev pub and_then :
    Result (Option Value) → (Value → Result (Option Value)) → Result (Option Value)
and_then (err e) f = err e
and_then (ok none) f = ok none
and_then (ok (some w)) f = f w

abbrev pub position_or_none : Result (Option ℕ) → Option ℕ
position_or_none (ok hit) = hit
position_or_none (err e) = none

module _ (sprint : Value → Text) where
  -- Whether an element satisfies `[?key=want]`.
  unfoldable pub satisfies : Text → Text → Value → Bool
  satisfies key want (obj fs) = elim (lookup key (entries fs)) [
    | none ↦ false
    | some v ↦ text_eq (sprint v) want
  ]
  satisfies key want _ = false

  -- The loop of `matchPredicate` from index `i` on, with the hit so far.
  unfoldable pub match_from : Text → Text → ℕ → Option ℕ → List Value → Result (Option ℕ)
  match_from key want i hit [] = ok hit
  match_from key want i none (v ∷ vs) =
      match_from key want (suc i) (if satisfies key want v then some i else none) vs
  match_from key want i (some j) (v ∷ vs) =
      let rest = match_from key want (suc i) (some j) vs in
      if satisfies key want v then err Error.ambiguous_predicate else rest

  unfoldable pub match_predicate : List Value → Text → Text → Result (Option ℕ)
  match_predicate vs key want = match_from key want 0 none vs

  -- The position in an array that a segment addresses on a read; `none` is "not found".
  unfoldable pub read_position : List Value → Text → Option (Text × Text) → Result (Option ℕ)
  read_position vs seg (some (key, want)) = match_predicate vs key want
  read_position vs seg none = elim (is_array_index seg) [
    | none ↦ err Error.bad_index
    | some i ↦ ok (if ltb i (length vs) then some i else none)
  ]

  -- One step of the loop of `GetNestedField`.
  unfoldable pub get_step : Value → Text → Result (Option Value)
  get_step (obj fs) seg = ok (lookup seg (entries fs))
  get_step (arr xs) seg = do
    hit ← read_position (elems xs) seg (parse_predicate seg)
    ok (elim hit [ none ↦ none | some i ↦ get_elem? (elems xs) i ])
  get_step _ seg = err Error.not_a_container

  -- `GetNestedField`; `ok none` is found=false.
  unfoldable pub get_nested : Value → List Text → Result (Option Value)
  get_nested v [] = ok (some v)
  get_nested v (seg ∷ segs) = and_then (get_step v seg) (λ w. get_nested w segs)

  -- The index to write at, and the array grown so that the index is in range.
  unfoldable pub write_position : List Value → Text → Option (Text × Text) → Result (ℕ × List Value)
  write_position vs seg (some (key, want)) = do
    hit ← match_predicate vs key want
    elim hit [ none ↦ err Error.unmatched_predicate | some i ↦ ok (i, vs) ]
  write_position vs seg none = elim (is_array_index seg) [
    | none ↦ err Error.bad_index
    | some i ↦ ok (i, grow vs i)
  ]

  -- `setNested`. Its callers pass at least one segment.
  unfoldable pub set_nested : Value → Value → List Text → Result Value
  set_nested c v [] = err Error.no_segments
  set_nested (obj fs) v (seg ∷ []) = ok (obj (of_entries (insert seg v (entries fs))))
  set_nested (obj fs) v (seg ∷ next ∷ rest) = do
    w ← set_nested (child_for (lookup seg (entries fs)) next) v (next ∷ rest)
    ok (obj (of_entries (insert seg w (entries fs))))
  set_nested (arr xs) v (seg ∷ []) = do
    at ← write_position (elems xs) seg (parse_predicate seg)
    ok (arr (of_elems (set at.1 at.0 v)))
  set_nested (arr xs) v (seg ∷ next ∷ rest) = do
    at ← write_position (elems xs) seg (parse_predicate seg)
    w ← set_nested (child_for (get_elem? at.1 at.0) next) v (next ∷ rest)
    ok (arr (of_elems (set at.1 at.0 w)))
  set_nested _ v (seg ∷ segs) = err Error.not_a_container

  -- `SetNestedField`
  unfoldable pub set_nested_field : Fields → Value → List Text → Result Value
  set_nested_field fs v segs = set_nested (obj fs) v segs

  -- `removeNested`. Its callers pass at least one segment.
  unfoldable pub remove_nested : Value → List Text → Value
  remove_nested c [] = c
  remove_nested (obj fs) (seg ∷ []) = obj (of_entries (delete seg (entries fs)))
  remove_nested (obj fs) (seg ∷ next ∷ rest) = elim (lookup seg (entries fs)) [
    | none ↦ obj fs
    | some c ↦ obj (of_entries (insert seg (remove_nested c (next ∷ rest)) (entries fs)))
  ]
  remove_nested (arr xs) (seg ∷ []) =
      elim (position_or_none (read_position (elems xs) seg (parse_predicate seg))) [
        | none ↦ arr xs
        | some i ↦ arr (of_elems (remove_at (elems xs) i))
      ]
  remove_nested (arr xs) (seg ∷ next ∷ rest) =
      elim (position_or_none (read_position (elems xs) seg (parse_predicate seg))) [
        | none ↦ arr xs
        | some i ↦ arr (
            of_elems
              (set (elems xs) i (remove_nested (or_null (get_elem? (elems xs) i)) (next ∷ rest))))
      ]
  remove_nested c (seg ∷ segs) = c

  -- `RemoveNestedField`
  unfoldable pub remove_nested_field : Fields → List Text → Value
  remove_nested_field fs segs = remove_nested (obj fs) segs
