-- ===== src/Search/Matches.antt =====
-- Which items of a list match, and which of them a findby call takes.
use krateo_rest_dynamic_cont.Base.{
  ℕ, zero, suc, ◌<◌, ◌≡◌, ◌≢◌, ◌↔◌, ◌⊎◌, inl, inr, refl, ap, arith, Bool, true, false, List, [],
  ◌∷◌, Option, none, some, Bool-cases, Text, codes, text_eq, to_lower, get_elem?, All, subst, Error,
  Result, ok, err, err-ne-ok, ok-injective, some-injective, if◌then◌else◌, ◌>>=◌,
}
use krateo_rest_dynamic_cont.Value.{Value, obj, Fields}
use krateo_rest_dynamic_cont.Externals.{Externals}
use krateo_rest_dynamic_cont.Path.Parse.{parse_path}
use krateo_rest_dynamic_cont.Comparison.Deep.{deep_equal}
use krateo_rest_dynamic_cont.Search.{
  matches, is_in_resource, check_at, Searcher, Check, skipped, missing, compared, check, and_step,
  match_all, match_ids, is_item_match, matching, is_hit, find_item, object_of,
}

compared-injective : {a b : Result Bool} → compared a ≡ compared b → a ≡ b
compared-injective h = cc

is_hit-true : (r : Result Bool) → is_hit r ≡ true → r ≡ ok true
is_hit-true (ok b) h = ap ok h
is_hit-true (err e) h = cc

module _ (x : Externals) (u : Searcher) where
  -- A value that stands at a path of the resource, in its spec or else in its status, by DeepEqual.
  abbrev pub Equals : List Text → Value → Type 0
  Equals segs v =
      ((l : Value) × (x.nested_field u.resource (codes "spec" ∷ segs) ≡ ok (some l))
        × (deep_equal x l v ≡ true))
      ⊎ ((o : Option Value) × (x.nested_field u.resource (codes "spec" ∷ segs) ≡ ok o)
          × ((l : Value) → o ≡ some l → deep_equal x l v ≡ false)
          × ((l : Value) × (x.nested_field u.resource (codes "status" ∷ segs) ≡ ok (some l))
              × (deep_equal x l v ≡ true)))

  abbrev pub Unreadable : Text → Type 0
  Unreadable id = ((e : Error) × (parse_path x.split id ≡ err e)) ⊎ (parse_path x.split id ≡ ok [])

  -- An identifier that does not stand against a match of all.
  abbrev pub Agreeing : Fields → Text → Type 0
  Agreeing item id =
      Unreadable id
      ⊎ ((seg : Text) × (segs : List Text) × (v : Value) × (parse_path x.split id ≡ ok (seg ∷ segs))
          × (x.nested_field item (seg ∷ segs) ≡ ok (some v))
          × Equals (seg ∷ segs) v)

  is_in_resource-Equals :
      (segs : List Text) (v : Value) → is_in_resource x u.resource v segs ≡ ok true → Equals segs v
  unfolding is_in_resource
  is_in_resource-Equals segs v h =
      go (x.nested_field u.resource (codes "spec" ∷ segs))
        (x.nested_field u.resource (codes "status" ∷ segs)) refl refl h
    where
      in_status :
          (o : Option Value)
          → x.nested_field u.resource (codes "spec" ∷ segs) ≡ ok o
          → ((l : Value) → o ≡ some l → deep_equal x l v ≡ false)
          → (b : Result (Option Value)) → x.nested_field u.resource (codes "status" ∷ segs) ≡ b
          → (b >>= λ j. ok (matches x v j)) ≡ ok true
          → Equals segs v
      in_status o ho differs (err e) hb h = absurd (err-ne-ok h)
      in_status o ho differs (ok none) hb h = cc
      in_status o ho differs (ok (some l)) hb h = inr (o, ho, differs, (l, hb, ok-injective h))

      in_spec :
          (l : Value) (d : Bool)
          → x.nested_field u.resource (codes "spec" ∷ segs) ≡ ok (some l)
          → deep_equal x l v ≡ d
          → (b : Result (Option Value)) → x.nested_field u.resource (codes "status" ∷ segs) ≡ b
          → (if d then ok true else (b >>= λ j. ok (matches x v j))) ≡ ok true
          → Equals segs v
      in_spec l true ha hd b hb h = inl (l, ha, hd)
      in_spec l false ha hd b hb h =
          in_status (some l) ha (λ k e. subst (λ k. deep_equal x k v ≡ false) (some-injective e) hd)
            b hb h

      go :
          (a b : Result (Option Value))
          → x.nested_field u.resource (codes "spec" ∷ segs) ≡ a
          → x.nested_field u.resource (codes "status" ∷ segs) ≡ b
          → (a >>= λ i. if matches x v i then ok true else (b >>= λ j. ok (matches x v j)))
            ≡ ok true
          → Equals segs v
      go (err e) b ha hb h = absurd (err-ne-ok h)
      go (ok none) b ha hb h = in_status none ha (λ l e. cc) b hb h
      go (ok (some l)) b ha hb h = in_spec l (deep_equal x l v) ha refl b hb h

  Equals-is_in_resource :
      (segs : List Text) (v : Value) → Equals segs v → is_in_resource x u.resource v segs ≡ ok true
  unfolding is_in_resource
  Equals-is_in_resource segs v (inl (l, e, d)) = rw (e, d)
  Equals-is_in_resource segs v (inr (none, e, differs, (l, e', d))) = rw (e, e', d)
  Equals-is_in_resource segs v (inr (some k, e, differs, (l, e', d))) =
      rw (e, differs k refl, e', d)

  check-Agreeing :
      (item : Fields) (id : Text)
      → (check x u item id ≡ skipped) ⊎ (check x u item id ≡ compared (ok true))
      → Agreeing item id
  unfolding check_at
  check-Agreeing item id h = go (parse_path x.split id) refl h
    where
      at_value :
          (seg : Text) (segs : List Text)
          → parse_path x.split id ≡ ok (seg ∷ segs)
          → (a : Result (Option Value)) → x.nested_field item (seg ∷ segs) ≡ a
          → ((elim a as (λ a. Check) [
            | err e ↦ missing
            | ok none ↦ missing
            | ok (some v) ↦ compared (is_in_resource x u.resource v (seg ∷ segs))
          ])
              ≡ skipped)
            ⊎ ((elim a as (λ a. Check) [
              | err e ↦ missing
              | ok none ↦ missing
              | ok (some v) ↦ compared (is_in_resource x u.resource v (seg ∷ segs))
            ])
                ≡ compared (ok true))
          → Agreeing item id
      at_value seg segs hp (err e) ha (inl h) = cc
      at_value seg segs hp (err e) ha (inr h) = cc
      at_value seg segs hp (ok none) ha (inl h) = cc
      at_value seg segs hp (ok none) ha (inr h) = cc
      at_value seg segs hp (ok (some v)) ha (inl h) = cc
      at_value seg segs hp (ok (some v)) ha (inr h) =
          inr (seg, segs, v, hp, ha, is_in_resource-Equals (seg ∷ segs) v (compared-injective h))

      go :
          (r : Result (List Text))
          → parse_path x.split id ≡ r
          → (check_at x u.resource item r ≡ skipped)
            ⊎ (check_at x u.resource item r ≡ compared (ok true))
          → Agreeing item id
      go (err e) hp h = inl (inl (e, hp))
      go (ok []) hp h = inl (inr hp)
      go (ok (seg ∷ segs)) hp h = at_value seg segs hp (x.nested_field item (seg ∷ segs)) refl h

  Agreeing-check :
      (item : Fields) (id : Text)
      → Agreeing item id
      → (check x u item id ≡ skipped) ⊎ (check x u item id ≡ compared (ok true))
  unfolding check_at
  Agreeing-check item id (inl (inl (e, hp))) = inl (rw hp)
  Agreeing-check item id (inl (inr hp)) = inl (rw hp)
  Agreeing-check item id (inr (seg, segs, v, hp, ha, q)) =
      inr (rw (hp, check_at, ha, Equals-is_in_resource (seg ∷ segs) v q))

  and_step-true :
      (c : Check) (r : Result Bool)
      → (and_step c r ≡ ok true) ↔ (((c ≡ skipped) ⊎ (c ≡ compared (ok true))) × (r ≡ ok true))
  and_step-true skipped r = (λ h. (inl refl, h), λ h. h.1)
  and_step-true missing r = (λ h. cc, λ h. elim h.0 [ inl e ↦ cc | inr e ↦ cc ])
  and_step-true (compared (err e)) r = (λ h. cc, λ h. elim h.0 [ inl e ↦ cc | inr e ↦ cc ])
  and_step-true (compared (ok false)) r = (λ h. cc, λ h. elim h.0 [ inl e ↦ cc | inr e ↦ cc ])
  and_step-true (compared (ok true)) r = (λ h. (inr refl, h), λ h. h.1)

  match_all_iff :
      (item : Fields) (ids : List Text)
      → (match_all x u item ids ≡ ok true) ↔ All (Agreeing item) ids
  unfolding match_all
  match_all_iff item [] = (λ h. tt, λ h. refl)
  match_all_iff item (id ∷ ids) =
      let (to, from) = and_step-true (check x u item id) (match_all x u item ids) in
      let (rest_to, rest_from) = match_all_iff item ids in
      (
        λ h. (check-Agreeing item id (to h).0, rest_to (to h).1),
        λ h. from (Agreeing-check item id h.0, rest_from h.1),
      )

  -- What the search says of a list: the result is an element that matches, behind no other one that
  -- does; or no element matches.
  abbrev pub Finds : List Value → Option Fields → Type 0
  Finds vs none = (i : ℕ) (v : Value) → get_elem? vs i ≡ some v → matching x u v ≡ false
  Finds vs (some fs) =
      (i : ℕ) × (get_elem? vs i ≡ some (obj fs))
      × (is_item_match x u fs ≡ ok true)
      × ((j : ℕ) (v : Value) → j < i → get_elem? vs j ≡ some v → matching x u v ≡ false)

  misses-cons :
      (v : Value) (vs : List Value) (n : ℕ)
      → matching x u v ≡ false
      → ((j : ℕ) (w : Value) → j < n → get_elem? vs j ≡ some w → matching x u w ≡ false)
      → (j : ℕ) (w : Value) → j < suc n
      → get_elem? (v ∷ vs) j ≡ some w
      → matching x u w ≡ false
  misses-cons v vs n miss f zero w b h = subst (λ w. matching x u w ≡ false) (some-injective h) miss
  misses-cons v vs n miss f (suc j) w b h = f j w (omega arith) h

  Finds-cons :
      (v : Value) (vs : List Value) (o : Option Fields)
      → matching x u v ≡ false
      → Finds vs o
      → Finds (v ∷ vs) o
  Finds-cons v vs none miss f =
      λ i w h. misses-cons v vs (suc i) miss (λ j w b h. f j w h) i w (omega arith) h
  Finds-cons v vs (some fs) miss (i, here, hit, before) =
      (suc i, here, hit, misses-cons v vs i miss before)

  Finds-hit : (v : Value) (vs : List Value) → matching x u v ≡ true → Finds (v ∷ vs) (object_of v)
  Finds-hit (obj fs) vs h =
      (zero, refl, is_hit-true (is_item_match x u fs) h, λ j v a b. absurd (omega (arith, a)))
  Finds-hit v vs h = cc

-- A findby call takes the first element of the list that is an object and matches, and finds nothing
-- only if no element is such an object.
pub find_item-Finds :
    (x : Externals) (u : Searcher) (vs : List Value) → Finds x u vs (find_item x u vs)
unfolding find_item
find_item-Finds x u [] = λ i v h. cc
find_item-Finds x u (v ∷ vs) = elim (Bool-cases (matching x u v)) [
  | inl hit ↦ rw hit (Finds-hit x u v vs hit)
  | inr miss ↦ rw miss (Finds-cons x u v vs _ miss (find_item-Finds x u vs))
]

-- Under the policy "and", an item matches exactly when at least one identifier is declared and every
-- one of them either has an unreadable or empty path or stands in the item with a value that is equal,
-- by DeepEqual, to the one at the same path of the resource's spec or, where that is not so, of its
-- status; so with unreadable paths alone, every item matches.
pub is_item_match_and_iff :
    (x : Externals) (u : Searcher) (item : Fields)
    → text_eq (to_lower u.identifiers_match_policy) (codes "and") ≡ true
    → (is_item_match x u item ≡ ok true)
      ↔ ((u.identifier_fields ≢ []) × All (Agreeing x u item) u.identifier_fields)
unfolding is_item_match
is_item_match_and_iff x u item h = go u.identifier_fields
  where
    go :
        (ids : List Text)
        → (match_ids x u item ids ≡ ok true) ↔ ((ids ≢ []) × All (Agreeing x u item) ids)
    go [] = (λ e. cc, λ e. absurd (e.0 refl))
    go (id ∷ ids) =
        let (to, from) = match_all_iff x u item (id ∷ ids) in
        rw h (λ e. (λ k. cc, to e), λ e. from e.1)
