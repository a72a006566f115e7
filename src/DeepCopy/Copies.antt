-- ===== src/DeepCopy/Copies.antt =====
-- internal/tools/deepcopy/deepcopy.go: what stands where in a copy.
use krateo_rest_dynamic_cont.Base.{
  ◌≡◌, refl, sym, ap, subst, ℕ, zero, suc, List, [], ◌∷◌, Option, none, some, if◌then◌else◌,
  Bool-cases, inl, inr, Text, text_eq, ℤ,
}
use krateo_rest_dynamic_cont.Value.{
  Value, str, int, float, obj, arr, Items, nil, cons, Fields, end, field,
}
use krateo_rest_dynamic_cont.Externals.{Externals}
use krateo_rest_dynamic_cont.DeepCopy.{copy_float, deep_copy, deep_copy_items, deep_copy_fields}

-- One step into a value: a key of an object, or an index of an array.
pub data Step : Type 0 where
  key : Text → Step
  index : ℕ → Step

unfoldable pub field_at : Text → Fields → Option Value
field_at k end = none
field_at k (field j v fs) = if text_eq j k then some v else field_at k fs

unfoldable pub item_at : ℕ → Items → Option Value
item_at i nil = none
item_at zero (cons v vs) = some v
item_at (suc i) (cons v vs) = item_at i vs

abbrev pub child : Step → Value → Option Value
child (Step.key k) (obj fs) = field_at k fs
child (Step.index i) (arr vs) = item_at i vs
child s v = none

-- What stands at a path.
unfoldable pub value_at : List Step → Value → Option Value
value_at [] v = some v
value_at (s ∷ p) v = elim (child s v) [ none ↦ none | some w ↦ value_at p w ]

unfoldable pub keys_of : Fields → List Text
keys_of end = []
keys_of (field k v fs) = k ∷ keys_of fs

unfoldable pub count_of : Items → ℕ
count_of nil = zero
count_of (cons v vs) = suc (count_of vs)

abbrev pub IsScalar : Value → Type 0
IsScalar (float n) = ⊥
IsScalar (obj fs) = ⊥
IsScalar (arr vs) = ⊥
IsScalar v = Unit

-- What a place of the copy has, for what that place of the value has.
pub data Copied (x : Externals) : Option Value → Option Value → Type 0 where
  absent : Copied x none none
  scalar : (v : Value) → IsScalar v → Copied x (some v) (some v)
  truncated : (n : ℕ) (i : ℤ) → x.truncate n ≡ some i → Copied x (some (float n)) (some (int i))
  printed :
      (n : ℕ) → x.truncate n ≡ none → Copied x (some (float n)) (some (str (x.sprint_float n)))
  object : (fs gs : Fields) → keys_of fs ≡ keys_of gs → Copied x (some (obj fs)) (some (obj gs))
  array : (vs ws : Items) → count_of vs ≡ count_of ws → Copied x (some (arr vs)) (some (arr ws))

module _ (x : Externals) where
  abbrev copied : Option Value → Option Value
  copied none = none
  copied (some v) = some (deep_copy x v)

  keys_of-deep_copy : (fs : Fields) → keys_of fs ≡ keys_of (deep_copy_fields x fs)
  unfolding keys_of deep_copy
  keys_of-deep_copy end = refl
  keys_of-deep_copy (field k v fs) = ap (λ ks. k ∷ ks) (keys_of-deep_copy fs)

  count_of-deep_copy : (vs : Items) → count_of vs ≡ count_of (deep_copy_items x vs)
  unfolding count_of deep_copy
  count_of-deep_copy nil = refl
  count_of-deep_copy (cons v vs) = ap suc (count_of-deep_copy vs)

  field_at-deep_copy :
      (k : Text) (fs : Fields) → field_at k (deep_copy_fields x fs) ≡ copied (field_at k fs)
  unfolding field_at deep_copy
  field_at-deep_copy k end = refl
  field_at-deep_copy k (field j v fs) = elim (Bool-cases (text_eq j k)) [
    | inl same ↦ rw same
    | inr other ↦ rw other (field_at-deep_copy k fs)
  ]

  item_at-deep_copy :
      (i : ℕ) (vs : Items) → item_at i (deep_copy_items x vs) ≡ copied (item_at i vs)
  unfolding item_at deep_copy
  item_at-deep_copy i nil = refl
  item_at-deep_copy zero (cons v vs) = refl
  item_at-deep_copy (suc i) (cons v vs) = item_at-deep_copy i vs

  float-Copied : (n : ℕ) → Copied x (some (float n)) (some (copy_float x n))
  float-Copied n = go (x.truncate n) refl
    where
      go :
          (o : Option ℤ)
          → x.truncate n ≡ o
          → Copied x
              (some (float n))
              (some (elim o [ some i ↦ int i | none ↦ str (x.sprint_float n) ]))
      go none h = Copied.printed n h
      go (some i) h = Copied.truncated n i h

  childless : (s : Step) (n : ℕ) → child s (copy_float x n) ≡ none
  childless s n = go s (x.truncate n)
    where
      go :
          (s : Step) (o : Option ℤ)
          → child s (elim o [ some i ↦ int i | none ↦ str (x.sprint_float n) ]) ≡ none
      go (Step.key k) none = refl
      go (Step.key k) (some i) = refl
      go (Step.index j) none = refl
      go (Step.index j) (some i) = refl

  child-deep_copy : (s : Step) (v : Value) → child s (deep_copy x v) ≡ copied (child s v)
  unfolding deep_copy
  child-deep_copy (Step.key k) (obj fs) = field_at-deep_copy k fs
  child-deep_copy (Step.index i) (arr vs) = item_at-deep_copy i vs
  child-deep_copy (Step.key k) (float n) = childless (Step.key k) n
  child-deep_copy (Step.index i) (float n) = childless (Step.index i) n
  child-deep_copy (Step.key k) v = refl
  child-deep_copy (Step.index i) v = refl

  whole-Copied : (v : Value) → Copied x (some v) (some (deep_copy x v))
  unfolding deep_copy
  whole-Copied (float n) = float-Copied n
  whole-Copied (obj fs) = Copied.object fs (deep_copy_fields x fs) (keys_of-deep_copy fs)
  whole-Copied (arr vs) = Copied.array vs (deep_copy_items x vs) (count_of-deep_copy vs)
  whole-Copied v = Copied.scalar v tt

-- At every path, the copy has nothing where the value has nothing, an object with the same keys or an
-- array of the same length where it has one, for a float the integer that it is cut to, or its text
-- where that is out of range, and else the same scalar.
pub value_at-deep_copy :
    (x : Externals) (p : List Step) (v : Value)
    → Copied x (value_at p v) (value_at p (deep_copy x v))
unfolding value_at
value_at-deep_copy x [] v = whole-Copied x v
value_at-deep_copy x (s ∷ p) v =
    subst
      (λ o.
        Copied x (elim (child s v) [ none ↦ none | some w ↦ value_at p w ])
          (elim o as (λ o. Option Value) [ none ↦ none | some w ↦ value_at p w ]))
      (sym (child-deep_copy x s v)) (go (value_at-deep_copy x p) (child s v))
  where
    go :
        ((w : Value) → Copied x (value_at p w) (value_at p (deep_copy x w)))
        → (o : Option Value)
        → Copied x
            (elim o as (λ o. Option Value) [ none ↦ none | some w ↦ value_at p w ])
            (elim (copied x o) as (λ o. Option Value) [ none ↦ none | some w ↦ value_at p w ])
    go further none = Copied.absent
    go further (some w) = further w
