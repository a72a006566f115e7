-- ===== src/Path/Nested/Predicates.antt =====
-- matchPredicate selects the one element that satisfies a predicate, or says why it cannot.
use krateo_rest_dynamic_cont.Base.{
  ℕ, zero, suc, ◌+◌, ◌<◌, ◌≡◌, refl, ap, Bool, true, false, inl, inr, List, [], ◌∷◌, Option, none,
  some, arith, get_elem?, Bool-cases, Text, Error, Result, ok, err,
}
use krateo_rest_dynamic_cont.Value.{Value}
use krateo_rest_dynamic_cont.Path.Nested.{satisfies, match_from, match_predicate}

abbrev holds_at : (Value → Bool) → Option Value → Bool
holds_at p none = false
holds_at p (some v) = p v

module _ (sprint : Value → Text) (key want : Text) where
  -- Whether the element at an index satisfies the predicate.
  abbrev pub is_hit : List Value → ℕ → Bool
  is_hit vs i = holds_at (satisfies sprint key want) (get_elem? vs i)

  -- What each outcome of the search says of the array.
  abbrev pub Describes : List Value → Result (Option ℕ) → Type 0
  Describes vs (ok none) = (i : ℕ) → is_hit vs i ≡ false
  Describes vs (ok (some i)) = (is_hit vs i ≡ true) × ((j : ℕ) → is_hit vs j ≡ true → j ≡ i)
  Describes vs (err e) =
      (e ≡ Error.ambiguous_predicate)
      × ((i : ℕ) × (j : ℕ) × (i < j) × (is_hit vs i ≡ true) × (is_hit vs j ≡ true))

  -- With a hit at hand: no further hit, or an error and a further hit.
  abbrev Rest : List Value → ℕ → Result (Option ℕ) → Type 0
  Rest vs j (ok none) = ⊥
  Rest vs j (ok (some i)) = (i ≡ j) × ((k : ℕ) → is_hit vs k ≡ false)
  Rest vs j (err e) = (e ≡ Error.ambiguous_predicate) × ((k : ℕ) × (is_hit vs k ≡ true))

  misses-cons :
      (v : Value) (vs : List Value)
      → satisfies sprint key want v ≡ false
      → ((k : ℕ) → is_hit vs k ≡ false)
      → (k : ℕ) → is_hit (v ∷ vs) k ≡ false
  misses-cons v vs miss h zero = miss
  misses-cons v vs miss h (suc k) = h k

  Rest-cons :
      (v : Value) (vs : List Value) (j : ℕ) (r : Result (Option ℕ))
      → satisfies sprint key want v ≡ false
      → Rest vs j r
      → Rest (v ∷ vs) j r
  Rest-cons v vs j (ok none) miss h = h
  Rest-cons v vs j (ok (some i)) miss h = (h.0, misses-cons v vs miss h.1)
  Rest-cons v vs j (err e) miss h = (h.0, (suc h.1.0, h.1.1))

  match_from-Rest :
      (i j : ℕ) (vs : List Value) → Rest vs j (match_from sprint key want i (some j) vs)
  unfolding match_from
  match_from-Rest i j [] = (refl, λ k. refl)
  match_from-Rest i j (v ∷ vs) = elim (Bool-cases (satisfies sprint key want v)) [
    | inl hit ↦ rw hit (refl, (zero, hit))
    | inr miss ↦ rw miss (Rest-cons v vs j _ miss (match_from-Rest (suc i) j vs))
  ]

  -- The outcome of a search that starts at index `n` with no hit so far.
  abbrev From : List Value → ℕ → Result (Option ℕ) → Type 0
  From vs n (ok none) = (i : ℕ) → is_hit vs i ≡ false
  From vs n (ok (some i)) =
      (m : ℕ) × (i ≡ n + m) × (is_hit vs m ≡ true) × ((j : ℕ) → is_hit vs j ≡ true → j ≡ m)
  From vs n (err e) =
      (e ≡ Error.ambiguous_predicate)
      × ((i : ℕ) × (j : ℕ) × (i < j) × (is_hit vs i ≡ true) × (is_hit vs j ≡ true))

  only_head :
      (v : Value) (vs : List Value)
      → ((k : ℕ) → is_hit vs k ≡ false)
      → (j : ℕ) → is_hit (v ∷ vs) j ≡ true
      → j ≡ zero
  only_head v vs h zero e = refl
  only_head v vs h (suc j) e = cc (h j)

  From-hit :
      (v : Value) (vs : List Value) (n : ℕ) (r : Result (Option ℕ))
      → satisfies sprint key want v ≡ true
      → Rest vs n r
      → From (v ∷ vs) n r
  From-hit v vs n (ok none) hit h = absurd h
  From-hit v vs n (ok (some i)) hit h = (zero, omega (arith, h.0), hit, only_head v vs h.1)
  From-hit v vs n (err e) hit h = (h.0, (zero, suc h.1.0, omega arith, hit, h.1.1))

  shifted :
      (v : Value) (vs : List Value) (m : ℕ)
      → satisfies sprint key want v ≡ false
      → ((j : ℕ) → is_hit vs j ≡ true → j ≡ m)
      → (j : ℕ) → is_hit (v ∷ vs) j ≡ true
      → j ≡ suc m
  shifted v vs m miss h zero e = cc
  shifted v vs m miss h (suc j) e = ap suc (h j e)

  From-miss :
      (v : Value) (vs : List Value) (n : ℕ) (r : Result (Option ℕ))
      → satisfies sprint key want v ≡ false
      → From vs (suc n) r
      → From (v ∷ vs) n r
  From-miss v vs n (ok none) miss h = misses-cons v vs miss h
  From-miss v vs n (ok (some i)) miss h =
      (suc h.0, omega (arith, h.1), h.2, shifted v vs h.0 miss h.3)
  From-miss v vs n (err e) miss h =
      (h.0, (suc h.1.0, suc h.1.1, omega (arith, h.1.2), h.1.3, h.1.4))

  match_from-From : (n : ℕ) (vs : List Value) → From vs n (match_from sprint key want n none vs)
  unfolding match_from
  match_from-From n [] = λ i. refl
  match_from-From n (v ∷ vs) = elim (Bool-cases (satisfies sprint key want v)) [
    | inl hit ↦ rw hit (From-hit v vs n _ hit (match_from-Rest (suc n) n vs))
    | inr miss ↦ rw miss (From-miss v vs n _ miss (match_from-From (suc n) vs))
  ]

  From-Describes : (vs : List Value) (r : Result (Option ℕ)) → From vs 0 r → Describes vs r
  From-Describes vs (ok none) h = h
  From-Describes vs (ok (some i)) h = let e : i ≡ h.0 = omega (arith, h.1) in rw e (h.2, h.3)
  From-Describes vs (err e) h = h

-- A predicate [?key=want] selects from an array the one element that satisfies it; with no such
-- element it selects nothing, and with two or more it is an error, never the first of them.
pub match_predicate-Describes :
    (sprint : Value → Text) (key want : Text) (vs : List Value)
    → Describes sprint key want vs (match_predicate sprint vs key want)
unfolding match_predicate
match_predicate-Describes sprint key want vs =
    From-Describes sprint key want vs _ (match_from-From sprint key want 0 vs)
