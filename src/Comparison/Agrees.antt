-- ===== src/Comparison/Agrees.antt =====
-- The agreement of two values, stated without the order of keys, and that CompareExisting is sound
-- for it.
use mathlib.Core.Path.{subst}
use krateo_rest_dynamic_cont.Base.{
  ℕ, zero, suc, ◌≤◌, ◌≡◌, ◌≢◌, inl, inr, refl, sym, ap, ◌∙◌, true, false, List, [], ◌∷◌, some,
  arith, ltb, length, get_elem?, Bool-cases, Text, text_eq, text_eq_iff, lookup, Result, ok, err,
}
use krateo_rest_dynamic_cont.Value.{
  Value, null, bool, str, int, float, obj, arr, Items, nil, cons, Fields, end, field, elems,
  entries,
}
use krateo_rest_dynamic_cont.Externals.{Externals}
use krateo_rest_dynamic_cont.Comparison.{
  Comparison, equal, different, compare_any, in_map, and_next, if_present, compare_scalar,
  compare_value, compare_slices, compare_existing,
}

abbrev pub IsScalar : Value → Type 0
IsScalar null = ⊥
IsScalar (obj fs) = ⊥
IsScalar (arr vs) = ⊥
IsScalar _ = Unit

-- `Agrees x a b`: every part of `a` that `b` also has is equal there. Maps are looked up by key, and
-- keys of `a` that `b` lacks do not count; an array may be longer on the right only.
pub data Agrees (x : Externals) : Value → Value → Type 0 where
  nulls : Agrees x null null
  scalars : {v w : Value} → IsScalar v → w ≢ null → compare_any x v w ≡ true → Agrees x v w
  maps :
      {fs gs : Fields}
      → ((k : Text) (v w : Value)
          → lookup k (entries fs) ≡ some v
          → lookup k (entries gs) ≡ some w
          → Agrees x v w)
      → Agrees x (obj fs) (obj gs)
  slices :
      {vs ws : Items}
      → length (elems vs) ≤ length (elems ws)
      → ((i : ℕ) (v w : Value)
          → get_elem? (elems vs) i ≡ some v
          → get_elem? (elems ws) i ≡ some w
          → Agrees x v w)
      → Agrees x (arr vs) (arr ws)

and_next-equal :
    (r s : Result Comparison) → and_next r s ≡ ok equal → (r ≡ ok equal) × (s ≡ ok equal)
and_next-equal (ok equal) s h = (refl, h)
and_next-equal (ok (different w)) s h = cc
and_next-equal (err e) s h = cc

in_map-equal : (a b : Value) (r : Result Comparison) → in_map a b r ≡ ok equal → r ≡ ok equal
in_map-equal a b (ok equal) h = refl
in_map-equal a b (ok (different w)) h = cc
in_map-equal a b (err e) h = cc

ge_of_ltb : (a b : ℕ) → ltb a b ≡ false → b ≤ a
ge_of_ltb a b h = ground arith

module _ (x : Externals) where
  compare_scalar-equal :
      (v w : Value) → compare_scalar x v w ≡ ok equal → (w ≢ null) × (compare_any x v w ≡ true)
  compare_scalar-equal v null h = cc
  compare_scalar-equal v _ h = (λ e. cc, ground arith)

  scalar_sound :
      {v : Value} (w : Value) → IsScalar v → compare_scalar x v w ≡ ok equal → Agrees x v w
  scalar_sound {v} w s h =
      let (present, same) = compare_scalar-equal v w h in scalars s present same

  -- Along equations that a lookup gives.
  Agrees-of_some :
      {a b v w : Value} → some a ≡ some v → some b ≡ some w → Agrees x a b → Agrees x v w
  Agrees-of_some {a} {b} {v} {w} p q g =
      let pv : a ≡ v = cc in
      let qw : b ≡ w = cc in subst (λ t. Agrees x t w) pv (subst (λ t. Agrees x a t) qw g)

  mutual
    unfolding compare_value lookup

    compare_value_sound : (v w : Value) → compare_value x v w ≡ ok equal → Agrees x v w
    compare_value_sound null null h = nulls
    compare_value_sound (obj fs) (obj gs) h =
        maps (λ k v w. compare_existing_sound fs (entries gs) (in_map-equal _ _ _ h) k v w)
    compare_value_sound (arr vs) (arr ws) h =
        elim (Bool-cases (ltb (length (elems ws)) (length (elems vs)))) [
          | inl long ↦ cc (rw (long, compare_value, compare_slices) at h)
          | inr fits ↦
              slices (ge_of_ltb _ _ fits)
                (λ i v w. compare_slices_sound vs (elems ws) i v w (rw (fits, compare_value) at h))
        ]
    compare_value_sound (bool b) w h = scalar_sound w tt h
    compare_value_sound (str b) w h = scalar_sound w tt h
    compare_value_sound (int b) w h = scalar_sound w tt h
    compare_value_sound (float b) w h = scalar_sound w tt h
    compare_value_sound _ _ h = cc

    compare_slices_sound :
        (vs : Items) (ws : List Value) (i : ℕ) (v w : Value)
        → compare_slices x vs ws false ≡ ok equal
        → get_elem? (elems vs) i ≡ some v
        → get_elem? ws i ≡ some w
        → Agrees x v w
    compare_slices_sound nil ws i v w h p q = cc
    compare_slices_sound (cons u vs) [] i v w h p q = cc
    compare_slices_sound (cons u vs) (t ∷ ws) zero v w h p q =
        Agrees-of_some p q (compare_value_sound u t (and_next-equal _ _ h).0)
    compare_slices_sound (cons u vs) (t ∷ ws) (suc i) v w h p q =
        compare_slices_sound vs ws i v w (and_next-equal _ _ h).1 p q

    pub compare_existing_sound :
        (fs : Fields) (rm : List (Text × Value))
        → compare_existing x fs rm ≡ ok equal
        → (k : Text) (v w : Value) → lookup k (entries fs) ≡ some v
        → lookup k rm ≡ some w
        → Agrees x v w
    compare_existing_sound end rm h k v w p q = cc p
    compare_existing_sound (field j u fs) rm h k v w p q = elim (Bool-cases (text_eq j k)) [
      | inl same ↦ Agrees-of_some (rw (same, lookup) at p) refl (
          compare_value_sound u w (
            sym (
              ap (if_present (compare_value x u))
                (ap (λ t. lookup t rm) ((text_eq_iff j k).0 same) ∙ q))
            ∙ (and_next-equal (if_present (compare_value x u) (lookup j rm))
                (compare_existing x fs rm) h).0))
      | inr other ↦
          compare_existing_sound fs rm (and_next-equal _ _ h).1 k v w (rw (other, lookup) at p) q
    ]
