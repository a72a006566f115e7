-- ===== src/Path/Nested/Writes.antt =====
-- SetNestedField: what is written is read back, and other keys keep their values.
use krateo_rest_dynamic_cont.Base.{
  ℕ, ◌+◌, ◌-◌, ◌<◌, ◌≡◌, refl, ap, ◌∙◌, sym, true, false, List, [], ◌∷◌, Option, none, some, arith,
  length, length-append, length-replicate, length-set, get_elem?, get_elem?-set_self, set,
  replicate, All, lt→ltb, Bool-cases, Option-cases, inl, inr, Text, text_eq, lookup, insert,
  lookup-insert_self, lookup-insert_ne, ok, >>=-eq-ok,
}
use krateo_rest_dynamic_cont.Value.{
  Value, null, bool, str, int, float, obj, arr, Items, Fields, elems, of_elems, elems-of_elems,
  entries, of_entries, entries-of_entries,
}
use krateo_rest_dynamic_cont.Path.Parse.{parse_predicate}
use krateo_rest_dynamic_cont.Path.Nested.{
  is_some, is_array_index, segment_wants_array, container_matches, new_container_for, or_null,
  child_for, grow, read_position, get_step, get_nested, write_position, set_nested,
  set_nested_field,
}

-- A segment that is no [?key=value] predicate.
abbrev pub IsPlain : Text → Type 0
IsPlain seg = parse_predicate seg ≡ none

-- A container that a segment can address: a map, or an array if the segment is an index.
abbrev pub Fits : Value → Text → Type 0
Fits (obj fs) seg = Unit
Fits (arr xs) seg = is_some (is_array_index seg) ≡ true
Fits _ seg = ⊥

wants_of_IsPlain :
    (seg : Text) → IsPlain seg → segment_wants_array seg ≡ is_some (is_array_index seg)
unfolding segment_wants_array
wants_of_IsPlain seg h = ground arith

Fits-container_matches :
    (c : Value) (seg : Text) → IsPlain seg → container_matches c seg ≡ true → Fits c seg
unfolding container_matches
Fits-container_matches (obj fs) seg h m = tt
Fits-container_matches (arr xs) seg h m = sym (wants_of_IsPlain seg h) ∙ m
Fits-container_matches null seg h m = cc
Fits-container_matches (bool b) seg h m = cc
Fits-container_matches (str s) seg h m = cc
Fits-container_matches (int n) seg h m = cc
Fits-container_matches (float n) seg h m = cc

Fits-new_container_for : (seg : Text) → IsPlain seg → Fits (new_container_for seg) seg
unfolding new_container_for
Fits-new_container_for seg h = elim (Bool-cases (segment_wants_array seg)) [
  | inl w ↦ rw w (sym (wants_of_IsPlain seg h) ∙ w)
  | inr w ↦ rw w tt
]

Fits-child_for : (v : Option Value) (seg : Text) → IsPlain seg → Fits (child_for v seg) seg
unfolding child_for
Fits-child_for v seg h = elim (Bool-cases (container_matches (or_null v) seg)) [
  | inl m ↦ rw m (Fits-container_matches (or_null v) seg h m)
  | inr m ↦ rw m (Fits-new_container_for seg h)
]

lt-length-grow : (vs : List Value) (i : ℕ) → i < length (grow vs i)
unfolding grow
lt-length-grow vs i = omega (
  arith,
  length-append vs (replicate (i + 1 - length vs) null),
  length-replicate (i + 1 - length vs) null,
)

module _ (sprint : Value → Text) where
  -- A write of `v` at the path into `c` succeeds, and the path then reads `v`.
  abbrev Written : Value → Value → List Text → Type 0
  Written c v segs =
      (c' : Value) × (set_nested sprint c v segs ≡ ok c')
      × (get_nested sprint c' segs ≡ ok (some v))

  pub read_position_of_index :
      (vs : List Value) (seg : Text) (i : ℕ)
      → is_array_index seg ≡ some i
      → i < length vs
      → read_position sprint vs seg none ≡ ok (some i)
  unfolding read_position
  read_position_of_index vs seg i h lt = rw (h, read_position) (rw (lt→ltb i (length vs) lt))

  -- Reading where an array was just written.
  pub get_step-set :
      (vs : List Value) (seg : Text) (i : ℕ) (w : Value)
      → IsPlain seg
      → is_array_index seg ≡ some i
      → i < length vs
      → get_step sprint (arr (of_elems (set vs i w))) seg ≡ ok (some w)
  unfolding get_step
  get_step-set vs seg i w plain index h =
      let here =
        read_position_of_index (set vs i w) seg i index (omega (arith, length-set vs i w)) in
      rw (plain, elems-of_elems (set vs i w), here)
        (ap (λ l. ok (get_elem? l i)) (elems-of_elems (set vs i w))
          ∙ ap ok (get_elem?-set_self vs i w h))

  pub get_step-insert :
      (m : List (Text × Value)) (seg : Text) (w : Value)
      → get_step sprint (obj (of_entries (insert seg w m))) seg ≡ ok (some w)
  unfolding get_step
  get_step-insert m seg w = rw (entries-of_entries (insert seg w m), lookup-insert_self seg w m)

  write_position_of_index :
      (vs : List Value) (seg : Text) (i : ℕ)
      → is_array_index seg ≡ some i
      → write_position sprint vs seg none ≡ ok (i, grow vs i)
  unfolding write_position
  write_position_of_index vs seg i h = rw (h, write_position)

  pub get_nested-step :
      (c w : Value) (seg : Text) (segs : List Text)
      → get_step sprint c seg ≡ ok (some w)
      → get_nested sprint c (seg ∷ segs) ≡ get_nested sprint w segs
  unfolding get_nested
  get_nested-step c w seg segs h = rw h

  get_nested-nil : (v : Value) → get_nested sprint v [] ≡ ok (some v)
  unfolding get_nested
  get_nested-nil v = refl

  set_array-last :
      (xs : Items) (v : Value) (seg : Text) (i : ℕ)
      → IsPlain seg
      → is_array_index seg ≡ some i
      → Written (arr xs) v (seg ∷ [])
  unfolding set_nested
  set_array-last xs v seg i plain index = (
    arr (of_elems (set (grow (elems xs) i) i v)),
    rw (plain, write_position_of_index (elems xs) seg i index),
    get_nested-step _ v seg []
          (get_step-set (grow (elems xs) i) seg i v plain index (lt-length-grow (elems xs) i))
        ∙ get_nested-nil v,
  )

  set_array-deeper :
      (xs : Items) (v : Value) (seg next : Text) (rest : List Text) (i : ℕ)
      → IsPlain seg
      → is_array_index seg ≡ some i
      → Written (child_for (get_elem? (grow (elems xs) i) i) next) v (next ∷ rest)
      → Written (arr xs) v (seg ∷ next ∷ rest)
  unfolding set_nested
  set_array-deeper xs v seg next rest i plain index (w, wrote, reads) = (
    arr (of_elems (set (grow (elems xs) i) i w)),
    rw (plain, write_position_of_index (elems xs) seg i index) (rw wrote),
    get_nested-step _ w seg (next ∷ rest)
          (get_step-set (grow (elems xs) i) seg i w plain index (lt-length-grow (elems xs) i))
        ∙ reads,
  )

  index_of_Fits :
      (xs : Items) (seg : Text) → Fits (arr xs) seg → (i : ℕ) × (is_array_index seg ≡ some i)
  index_of_Fits xs seg fits = elim (Option-cases (is_array_index seg)) [
    | inl missing ↦ cc (ap is_some missing)
    | inr found ↦ found
  ]

  set_nested-Written :
      (c v : Value) (seg : Text) (segs : List Text)
      → Fits c seg
      → All IsPlain (seg ∷ segs)
      → Written c v (seg ∷ segs)
  unfolding set_nested
  set_nested-Written (obj fs) v seg [] fits plain =
      (_, refl, get_nested-step _ v seg [] (get_step-insert (entries fs) seg v) ∙ get_nested-nil v)
  set_nested-Written (obj fs) v seg (next ∷ rest) fits plain =
      let (w, wrote, reads) =
        set_nested-Written (child_for (lookup seg (entries fs)) next) v next rest
          (Fits-child_for _ next plain.1.0) plain.1 in
      (
        obj (of_entries (insert seg w (entries fs))),
        rw wrote,
        get_nested-step _ w seg (next ∷ rest) (get_step-insert (entries fs) seg w) ∙ reads,
      )
  set_nested-Written (arr xs) v seg [] fits plain =
      let (i, index) = index_of_Fits xs seg fits in set_array-last xs v seg i plain.0 index
  set_nested-Written (arr xs) v seg (next ∷ rest) fits plain =
      let (i, index) = index_of_Fits xs seg fits in
      set_array-deeper xs v seg next rest i plain.0 index (
        set_nested-Written (child_for (get_elem? (grow (elems xs) i) i) next) v next rest
          (Fits-child_for _ next plain.1.0) plain.1)
  set_nested-Written null v seg segs fits plain = absurd fits
  set_nested-Written (bool b) v seg segs fits plain = absurd fits
  set_nested-Written (str s) v seg segs fits plain = absurd fits
  set_nested-Written (int n) v seg segs fits plain = absurd fits
  set_nested-Written (float n) v seg segs fits plain = absurd fits

-- A write through SetNestedField at a non-empty path without predicates always succeeds, whatever
-- the object holds along the path, and GetNestedField then reads the written value there.
pub get_nested-set_nested_field :
    (sprint : Value → Text) (fs : Fields) (v : Value) (seg : Text) (segs : List Text)
    → All IsPlain (seg ∷ segs)
    → (c : Value) × (set_nested_field sprint fs v (seg ∷ segs) ≡ ok c)
      × (get_nested sprint c (seg ∷ segs) ≡ ok (some v))
unfolding set_nested_field
get_nested-set_nested_field sprint fs v seg segs plain =
    set_nested-Written sprint (obj fs) v seg segs tt plain

-- A successful write through SetNestedField, at any path, gives an object again in which every
-- other top-level key keeps its value.
pub lookup-set_nested_field :
    (sprint : Value → Text) (fs : Fields) (v c : Value) (seg : Text) (segs : List Text) (k : Text)
    → text_eq seg k ≡ false
    → set_nested_field sprint fs v (seg ∷ segs) ≡ ok c
    → (gs : Fields) × (c ≡ obj gs) × (lookup k (entries gs) ≡ lookup k (entries fs))
unfolding set_nested_field set_nested
lookup-set_nested_field sprint fs v c seg [] k ne e = (
  of_entries (insert seg v (entries fs)),
  cc,
  rw (entries-of_entries (insert seg v (entries fs))) (lookup-insert_ne seg k v (entries fs) ne),
)
lookup-set_nested_field sprint fs v c seg (next ∷ rest) k ne e =
    let (w, wrote, same) = >>=-eq-ok (set_nested sprint _ v (next ∷ rest)) _ e in
    (
      of_entries (insert seg w (entries fs)),
      cc,
      rw (entries-of_entries (insert seg w (entries fs)))
          (lookup-insert_ne seg k w (entries fs) ne),
    )
