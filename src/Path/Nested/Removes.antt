-- ===== src/Path/Nested/Removes.antt =====
-- RemoveNestedField: a path that is not there is left alone, and a removed key is gone.
use krateo_rest_dynamic_cont.Base.{
  ℕ, ◌≡◌, refl, ap, ◌∙◌, Bool, true, false, List, [], ◌∷◌, Option, none, some, get_elem?, set,
  set-get_elem?, set-none, remove_at-none, Option-cases, Result-cases, inl, inr, Text, lookup,
  insert, insert-lookup, delete-absent, Result, ok, err,
}
use krateo_rest_dynamic_cont.Value.{
  Value, null, bool, str, int, float, obj, arr, Items, Fields, elems, of_elems, of_elems-elems,
  entries, of_entries, of_entries-entries,
}
use krateo_rest_dynamic_cont.Path.Parse.{parse_predicate}
use krateo_rest_dynamic_cont.Path.Nested.{
  or_null, read_position, get_step, get_nested, and_then, remove_nested, remove_nested_field,
}

-- Whether a read found a value.
abbrev pub is_found : Result (Option Value) → Bool
is_found (ok (some v)) = true
is_found (ok none) = false
is_found (err e) = false

module _ (sprint : Value → Text) where
  -- Writing back an element, or an entry, that is there.
  set_same :
      (xs : Items) (i : ℕ) (v : Value)
      → get_elem? (elems xs) i ≡ some v
      → arr (of_elems (set (elems xs) i v)) ≡ arr xs
  set_same xs i v h =
      ap (λ l. arr (of_elems l)) (set-get_elem? (elems xs) i v h) ∙ ap arr (of_elems-elems xs)

  insert_same :
      (fs : Fields) (k : Text) (v : Value)
      → lookup k (entries fs) ≡ some v
      → obj (of_entries (insert k v (entries fs))) ≡ obj fs
  insert_same fs k v h =
      ap (λ m. obj (of_entries m)) (insert-lookup k v (entries fs) h)
      ∙ ap obj (of_entries-entries fs)

  -- A read of one segment, and what a removal then does to the container.
  get_nested-step :
      (c : Value) (seg : Text) (segs : List Text)
      → get_nested sprint c (seg ∷ segs)
        ≡ and_then (get_step sprint c seg) (λ w. get_nested sprint w segs)
  unfolding get_nested
  get_nested-step c seg segs = refl

  remove_key_absent :
      (fs : Fields) (seg : Text)
      → is_found (get_nested sprint (obj fs) (seg ∷ [])) ≡ false
      → remove_nested sprint (obj fs) (seg ∷ []) ≡ obj fs
  unfolding get_nested get_step remove_nested
  remove_key_absent fs seg h = elim (Option-cases (lookup seg (entries fs))) [
    | inl missing ↦
        ap (λ m. obj (of_entries m)) (delete-absent seg (entries fs) missing)
        ∙ ap obj (of_entries-entries fs)
    | inr (c, found) ↦ cc (rw (found, get_nested, get_step) at h)
  ]

  remove_below_key :
      (fs : Fields) (seg next : Text) (rest : List Text)
      → ((c : Value)
          → is_found (get_nested sprint c (next ∷ rest)) ≡ false
          → remove_nested sprint c (next ∷ rest) ≡ c)
      → is_found (get_nested sprint (obj fs) (seg ∷ next ∷ rest)) ≡ false
      → remove_nested sprint (obj fs) (seg ∷ next ∷ rest) ≡ obj fs
  unfolding get_nested get_step remove_nested
  remove_below_key fs seg next rest ih h = elim (Option-cases (lookup seg (entries fs))) [
    | inl missing ↦ rw (missing, remove_nested)
    | inr (c, found) ↦
        rw (found, remove_nested)
          (ap (λ w. obj (of_entries (insert seg w (entries fs))))
              (ih c (rw (found, get_nested, get_step) at h))
            ∙ insert_same fs seg c found)
  ]

  remove_index_absent :
      (xs : Items) (seg : Text)
      → is_found (get_nested sprint (arr xs) (seg ∷ [])) ≡ false
      → remove_nested sprint (arr xs) (seg ∷ []) ≡ arr xs
  unfolding get_nested get_step remove_nested
  remove_index_absent xs seg h =
      elim (Result-cases (read_position sprint (elems xs) seg (parse_predicate seg))) [
        | inl (none, here) ↦ rw (here, remove_nested)
        | inl (some i, here) ↦ elim (Option-cases (get_elem? (elems xs) i)) [
          | inl missing ↦
              rw (here, remove_nested)
                (ap (λ l. arr (of_elems l)) (remove_at-none (elems xs) i missing)
                  ∙ ap arr (of_elems-elems xs))
          | inr (c, found) ↦ cc (rw (here, found, get_nested, get_step) at h)
        ]
        | inr (e, failed) ↦ rw (failed, remove_nested)
      ]

  remove_below_index :
      (xs : Items) (seg next : Text) (rest : List Text)
      → ((c : Value)
          → is_found (get_nested sprint c (next ∷ rest)) ≡ false
          → remove_nested sprint c (next ∷ rest) ≡ c)
      → is_found (get_nested sprint (arr xs) (seg ∷ next ∷ rest)) ≡ false
      → remove_nested sprint (arr xs) (seg ∷ next ∷ rest) ≡ arr xs
  unfolding get_nested get_step remove_nested
  remove_below_index xs seg next rest ih h =
      elim (Result-cases (read_position sprint (elems xs) seg (parse_predicate seg))) [
        | inl (none, here) ↦ rw (here, remove_nested)
        | inl (some i, here) ↦ elim (Option-cases (get_elem? (elems xs) i)) [
          | inl missing ↦
              rw (here, remove_nested)
                (ap (λ l. arr (of_elems l)) (set-none (elems xs) i _ missing)
                  ∙ ap arr (of_elems-elems xs))
          | inr (c, found) ↦
              rw (here, remove_nested)
                (ap
                    (λ o. arr (
                      of_elems (set (elems xs) i (remove_nested sprint (or_null o) (next ∷ rest)))))
                    found
                  ∙ ap (λ w. arr (of_elems (set (elems xs) i w)))
                      (ih c (rw (here, found, get_nested, get_step) at h))
                  ∙ set_same xs i c found)
        ]
        | inr (e, failed) ↦ rw (failed, remove_nested)
      ]

  remove_absent :
      (c : Value) (segs : List Text)
      → is_found (get_nested sprint c segs) ≡ false
      → remove_nested sprint c segs ≡ c
  unfolding remove_nested get_nested
  remove_absent c [] h = cc
  remove_absent (obj fs) (seg ∷ []) h = remove_key_absent fs seg h
  remove_absent (obj fs) (seg ∷ next ∷ rest) h =
      remove_below_key fs seg next rest (λ c. remove_absent c (next ∷ rest)) h
  remove_absent (arr xs) (seg ∷ []) h = remove_index_absent xs seg h
  remove_absent (arr xs) (seg ∷ next ∷ rest) h =
      remove_below_index xs seg next rest (λ c. remove_absent c (next ∷ rest)) h
  remove_absent null (seg ∷ segs) h = refl
  remove_absent (bool b) (seg ∷ segs) h = refl
  remove_absent (str s) (seg ∷ segs) h = refl
  remove_absent (int n) (seg ∷ segs) h = refl
  remove_absent (float n) (seg ∷ segs) h = refl

-- RemoveNestedField changes nothing where GetNestedField finds nothing: an absent key or index, an
-- unmatched or ambiguous predicate, or a path through a scalar.
pub remove_nested_field_absent :
    (sprint : Value → Text) (fs : Fields) (segs : List Text)
    → is_found (get_nested sprint (obj fs) segs) ≡ false
    → remove_nested_field sprint fs segs ≡ obj fs
unfolding remove_nested_field
remove_nested_field_absent sprint fs segs h = remove_absent sprint (obj fs) segs h
