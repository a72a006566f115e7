-- ===== src/Async/Handles.antt =====
-- The handle that ExtractOperationHandle returns, and the classification of a status.
use mathlib.Core.List.Memᴰ
use mathlib.Core.List.{Memᴰ}
use krateo_rest_dynamic_cont.Base.{
  ℕ, zero, suc, ◌+◌, ◌/◌, ◌%◌, ◌≡◌, ◌≢◌, ◌↔◌, ap, sym, ◌∙◌, Bool, if◌then◌else◌, equal_fold, inl,
  inr, refl, true, false, List, [], ◌∷◌, ◌++◌, arith, Bool-cases, Option-cases, ltb, Text, to_lower,
  equal_fold_iff, is_empty, ℤ, pos, negsuc, ok, ◌>>=◌, >>=-eq-ok, Option,
}
use krateo_rest_dynamic_cont.Value.{Value, null, bool, str, int, float, obj, arr, Fields}
use krateo_rest_dynamic_cont.Definition.{OperationRef, PollConfig}
use krateo_rest_dynamic_cont.Externals.{Externals, format_nat, format_int}
use krateo_rest_dynamic_cont.Async.{
  Headers, raw_handle, refine, scalar_to_string, extract_operation_handle, pending, succeeded,
  failed, contains_fold, classify_status,
}

push-ne-nil : (s : Text) (c : ℕ) → is_empty (s ++ c ∷ []) ≡ false
push-ne-nil [] c = refl
push-ne-nil (d ∷ s) c = refl

format_nat-ne-nil : (fuel n : ℕ) → is_empty (format_nat fuel n) ≡ false
unfolding format_nat
format_nat-ne-nil zero n = refl
format_nat-ne-nil (suc fuel) n = elim (Bool-cases (ltb n 10)) [
  | inl small ↦ rw small
  | inr large ↦ rw large (push-ne-nil (format_nat fuel (n / 10)) (b'0' + n % 10))
]

format_int-ne-nil : (z : ℤ) → is_empty (format_int z) ≡ false
unfolding format_int
format_int-ne-nil (pos n) = format_nat-ne-nil n n
format_int-ne-nil (negsuc n) = refl

module _ (x : Externals) (formats : (n : ℕ) → is_empty (x.format_float n) ≡ false) where
  scalar_to_string-ne-nil :
      (v : Value) (h : Text) → scalar_to_string x v ≡ ok h → is_empty h ≡ false
  unfolding scalar_to_string
  scalar_to_string-ne-nil null h e = cc
  scalar_to_string-ne-nil (bool true) h e = ground arith
  scalar_to_string-ne-nil (bool false) h e = ground arith
  scalar_to_string-ne-nil (str s) h e = ground arith
  scalar_to_string-ne-nil (int n) h e = ground (arith, format_int-ne-nil n)
  scalar_to_string-ne-nil (float n) h e = elim (Option-cases (x.whole n)) [
    | inl frac ↦ ground (arith, formats n)
    | inr (i, whole) ↦ ground (arith, format_int-ne-nil i)
  ]
  scalar_to_string-ne-nil (arr xs) h e = cc
  scalar_to_string-ne-nil (obj fs) h e = cc

  -- An operation handle that is extracted from a trigger response is never the empty text, which
  -- the requeue driver reads as "no operation in flight", if no float is formatted as an empty text.
  pub extract_operation_handle-ne-nil :
      (body : Option Fields) (headers : Headers) (op : OperationRef) (h : Text)
      → extract_operation_handle x body headers op ≡ ok h
      → is_empty h ≡ false
  unfolding extract_operation_handle
  extract_operation_handle-ne-nil body headers op h e =
      let (raw, found, e') =
        >>=-eq-ok (raw_handle x body headers op) (λ r. refine x op.jq r >>= scalar_to_string x) e in
      let (v, refined, e'') = >>=-eq-ok (refine x op.jq raw) (scalar_to_string x) e' in
      scalar_to_string-ne-nil v h e''

false-ne-true : false ≢ true
false-ne-true h = cc

-- A value of the list that equals a status, letter case aside.
abbrev pub IsListed : List Text → Text → Type 0
IsListed vs s = (v : Text) × Memᴰ v vs × (to_lower v ≡ to_lower s)

contains_fold-cons :
    (v : Text) (vs : List Text) (s : Text)
    → (contains_fold vs s ≡ true) ↔ IsListed vs s
    → ((if equal_fold v s then true else contains_fold vs s) ≡ true) ↔ IsListed (v ∷ vs) s
contains_fold-cons v vs s rest = (to (equal_fold v s) refl, from)
  where
    to :
        (b : Bool)
        → equal_fold v s ≡ b
        → (if b then true else contains_fold vs s) ≡ true
        → IsListed (v ∷ vs) s
    to true e h = (v, Memᴰ.head refl, (equal_fold_iff v s).0 e)
    to false e h = let (w, m, f) = rest.0 h in (w, Memᴰ.tail m, f)

    from : IsListed (v ∷ vs) s → (if equal_fold v s then true else contains_fold vs s) ≡ true
    from (w, m, e) = elim (Memᴰ.cases_cons m) [
      | inl q ↦ rw ((equal_fold_iff v s).1 (ap to_lower (sym q) ∙ e))
      | inr m ↦ elim (Bool-cases (equal_fold v s)) [
        | inl same ↦ rw same
        | inr other ↦ rw (other, rest.1 (w, m, e))
      ]
    ]

contains_fold_iff : (vs : List Text) (s : Text) → (contains_fold vs s ≡ true) ↔ IsListed vs s
unfolding contains_fold
contains_fold_iff [] s = (λ h. cc, λ (v, m, e). absurd (Memᴰ.not-nil m))
contains_fold_iff (v ∷ vs) s = contains_fold-cons v vs s (contains_fold_iff vs s)

classified :
    {P Q : Type 0} (good bad : Bool)
    → (good ≡ true) ↔ P
    → (bad ≡ true) ↔ Q
    → (((if good then succeeded else if bad then failed else pending) ≡ succeeded) ↔ P)
      × (((if good then succeeded else if bad then failed else pending) ≡ failed) ↔ ((¬ P) × Q))
      × (((if good then succeeded else if bad then failed else pending) ≡ pending)
          ↔ ((¬ P) × (¬ Q)))
classified true bad p q = (
  (λ e. p.0 refl, λ e. refl),
  (λ e. cc, λ e. absurd (e.0 (p.0 refl))),
  (λ e. cc, λ e. absurd (e.0 (p.0 refl))),
)
classified false true p q = (
  (λ e. cc, λ e. absurd (false-ne-true (p.1 e))),
  (λ e. (λ h. absurd (false-ne-true (p.1 h)), q.0 refl), λ e. refl),
  (λ e. cc, λ e. absurd (e.1 (q.0 refl))),
)
classified false false p q = (
  (λ e. cc, λ e. absurd (false-ne-true (p.1 e))),
  (λ e. cc, λ e. absurd (false-ne-true (q.1 e.1))),
  (λ e. (λ h. absurd (false-ne-true (p.1 h)), λ h. absurd (false-ne-true (q.1 h))), λ e. refl),
)

-- A status is a success exactly where a success value equals it, letter case aside, a failure exactly
-- where no success value but a failure value does, and pending exactly where neither does.
pub classify_status_iff :
    (cfg : PollConfig) (s : Text)
    → ((classify_status cfg s ≡ succeeded) ↔ IsListed cfg.success_values s)
      × ((classify_status cfg s ≡ failed)
          ↔ ((¬ IsListed cfg.success_values s) × IsListed cfg.failure_values s))
      × ((classify_status cfg s ≡ pending)
          ↔ ((¬ IsListed cfg.success_values s) × (¬ IsListed cfg.failure_values s)))
unfolding classify_status
classify_status_iff cfg s =
    classified (contains_fold cfg.success_values s) (contains_fold cfg.failure_values s)
      (contains_fold_iff cfg.success_values s) (contains_fold_iff cfg.failure_values s)
