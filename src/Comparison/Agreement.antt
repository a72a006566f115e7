-- ===== src/Comparison/Agreement.antt =====
-- When CompareExisting reports no difference, stated without the order of the keys.
use krateo_rest_dynamic_cont.Base.{
  ℕ, zero, suc, ◌≡◌, ◌≢◌, ◌↔◌, inl, inr, refl, ap, ◌∙◌, true, false, List, [], ◌∷◌, none, some,
  ge→ltb, length, get_elem?, Bool-cases, Option-cases, Text, text_eq, text_eq_iff, text_eq_refl,
  lookup, ok,
}
use krateo_rest_dynamic_cont.Value.{
  Value, null, bool, str, int, float, obj, arr, Items, nil, cons, Fields, end, field, elems,
  entries,
}
use krateo_rest_dynamic_cont.Externals.{Externals}
use krateo_rest_dynamic_cont.Comparison.{
  equal, compare_any, in_map, and_next, compare_scalar, compare_value, compare_slices,
  compare_existing,
}
use krateo_rest_dynamic_cont.Comparison.Agrees.{
  Agrees, nulls, scalars, maps, slices, compare_existing_sound,
}

-- No map in a value has a key twice, as in Go.
unfoldable mutual
  pub HasUniqueKeys : Value → Type 0
  HasUniqueKeys (obj fs) = HasUniqueFields fs
  HasUniqueKeys (arr vs) = HasUniqueItems vs
  HasUniqueKeys _ = Unit

  pub HasUniqueItems : Items → Type 0
  HasUniqueItems nil = Unit
  HasUniqueItems (cons v vs) = HasUniqueKeys v × HasUniqueItems vs

  pub HasUniqueFields : Fields → Type 0
  HasUniqueFields end = Unit
  HasUniqueFields (field k v fs) =
      (lookup k (entries fs) ≡ none) × HasUniqueKeys v × HasUniqueFields fs

lookup-field :
    (j k : Text) (u v : Value) (fs : Fields)
    → lookup j (entries fs) ≡ none
    → lookup k (entries fs) ≡ some v
    → lookup k (entries (field j u fs)) ≡ some v
unfolding lookup
lookup-field j k u v fs fresh h = elim (Bool-cases (text_eq j k)) [
  | inl same ↦ cc (ap (λ t. lookup t (entries fs)) ((text_eq_iff j k).0 same))
  | inr other ↦ rw other h
]

lookup-field_self :
    (j : Text) (u : Value) (fs : Fields) → lookup j (entries (field j u fs)) ≡ some u
unfolding lookup
lookup-field_self j u fs = rw (text_eq_refl j)

module _ (x : Externals) where
  scalar_complete :
      (v w : Value) → w ≢ null → compare_any x v w ≡ true → compare_scalar x v w ≡ ok equal
  scalar_complete v null ne h = absurd (ne refl)
  scalar_complete v _ ne h = rw h

  mutual
    unfolding compare_value lookup HasUniqueKeys

    compare_value_complete :
        (v w : Value) → HasUniqueKeys v → Agrees x v w → compare_value x v w ≡ ok equal
    compare_value_complete (obj fs) w u (maps {gs} f) =
        ap (in_map (obj fs) (obj gs)) (compare_existing_complete fs (entries gs) u f)
    compare_value_complete (obj fs) w u (scalars s ne h) = absurd s
    compare_value_complete (arr vs) w u (slices {ws} fits f) =
        rw (ge→ltb (length (elems ws)) (length (elems vs)) fits, compare_value)
          (compare_slices_complete vs (elems ws) u f)
    compare_value_complete (arr vs) w u (scalars s ne h) = absurd s
    compare_value_complete null w u nulls = refl
    compare_value_complete null w u (scalars s ne h) = absurd s
    compare_value_complete (bool b) w u (scalars s ne h) = scalar_complete (bool b) w ne h
    compare_value_complete (str b) w u (scalars s ne h) = scalar_complete (str b) w ne h
    compare_value_complete (int b) w u (scalars s ne h) = scalar_complete (int b) w ne h
    compare_value_complete (float b) w u (scalars s ne h) = scalar_complete (float b) w ne h

    compare_slices_complete :
        (vs : Items) (ws : List Value)
        → HasUniqueItems vs
        → ((i : ℕ) (v w : Value)
            → get_elem? (elems vs) i ≡ some v
            → get_elem? ws i ≡ some w
            → Agrees x v w)
        → compare_slices x vs ws false ≡ ok equal
    compare_slices_complete nil ws u f = refl
    compare_slices_complete (cons v vs) [] u f = refl
    compare_slices_complete (cons v vs) (w ∷ ws) u f =
        ap (λ r. and_next r (compare_slices x vs ws false))
          (compare_value_complete v w u.0 (f zero v w refl refl))
        ∙ compare_slices_complete vs ws u.1 (λ i. f (suc i))

    compare_existing_complete :
        (fs : Fields) (rm : List (Text × Value))
        → HasUniqueFields fs
        → ((k : Text) (v w : Value)
            → lookup k (entries fs) ≡ some v
            → lookup k rm ≡ some w
            → Agrees x v w)
        → compare_existing x fs rm ≡ ok equal
    compare_existing_complete end rm u f = refl
    compare_existing_complete (field k v fs) rm u f =
        let rest =
          compare_existing_complete fs rm u.2
            (λ j t w p q. f j t w (lookup-field k j v t fs u.0 p) q) in
        elim (Option-cases (lookup k rm)) [
          | inl missing ↦ rw (missing, compare_existing) rest
          | inr (w, found) ↦
              rw (found, compare_existing)
                (ap (λ r. and_next r (compare_existing x fs rm))
                    (compare_value_complete v w u.1 (f k v w (lookup-field_self k v fs) found))
                  ∙ rest)
        ]

Agrees-maps :
    {x : Externals} {fs gs : Fields}
    → Agrees x (obj fs) (obj gs)
    → (k : Text) (v w : Value) → lookup k (entries fs) ≡ some v
    → lookup k (entries gs) ≡ some w
    → Agrees x v w
Agrees-maps (maps f) = f
Agrees-maps (scalars s ne h) = absurd s

-- CompareExisting reports no difference, and no error, exactly when the two maps agree: whatever
-- the order of the keys, every key that both have holds values that agree.
pub compare_existing_iff :
    (x : Externals) (fs gs : Fields)
    → HasUniqueFields fs
    → (compare_existing x fs (entries gs) ≡ ok equal) ↔ Agrees x (obj fs) (obj gs)
compare_existing_iff x fs gs u = (
  λ h. maps (λ k v w. compare_existing_sound x fs (entries gs) h k v w),
  λ a. compare_existing_complete x fs (entries gs) u (Agrees-maps a),
)
