-- ===== src/Getter/Absent.antt =====
-- Get of internal/tools/definitiongetter/getter.go: when it says that a definition is absent.
use krateo_rest_dynamic_cont.Base.{
  ◌≡◌, ◌≢◌, ◌↔◌, ◌⊎◌, inl, inr, refl, sym, ap, ◌∙◌, All, Bool, true, false, List, [], ◌∷◌, Option,
  none, some, Text, text_eq, Error, Result, ok, err, ◌>>=◌, >>=-eq-ok, err-ne-ok, err-injective,
  ok-injective,
}
use krateo_rest_dynamic_cont.Value.{Value, Fields}
use krateo_rest_dynamic_cont.Externals.{Externals}
use krateo_rest_dynamic_cont.Getter.{Api}
use krateo_rest_dynamic_cont.Getter.Modules.{or_failed}
use krateo_rest_dynamic_cont.Getter.Lookup.{
  read_header, oas_path, Match, of_group, of_kind, match_item, or_next, find_definition, build_info,
  get_definition,
}
use krateo_rest_dynamic_cont.Getter.Errors.{
  IsElse, IsElse-or_failed, build_info-IsElse, match_item-IsElse,
}

-- A definition that can be read, and is that of another kind, or of another group.
abbrev pub Foreign : Api → Externals → Text → Text → Fields → Type 0
Foreign api x kind group item =
    (h : Value × Text × Text) × (read_header api x item ≡ ok h)
    × ((text_eq h.2 kind ≡ false)
        ⊎ ((oas : Text) × (oas_path api item ≡ ok oas) × (text_eq h.1 group ≡ false)))

some-ne-none : {m : Match} → some m ≢ none
some-ne-none h = cc

of_group-none :
    (same : Bool) (path : Result Text) (res : Value) (item : Fields)
    → of_group same path res item ≡ ok none
    → (oas : Text) × (path ≡ ok oas) × (same ≡ false)
of_group-none same (err e) res item h = absurd (err-ne-ok h)
of_group-none true (ok oas) res item h = absurd (some-ne-none (ok-injective h))
of_group-none false (ok oas) res item h = (oas, refl, refl)

of_kind-none :
    (a b : Bool) (path : Result Text) (res : Value) (item : Fields)
    → of_kind a b path res item ≡ ok none
    → (a ≡ false) ⊎ ((oas : Text) × (path ≡ ok oas) × (b ≡ false))
of_kind-none false b path res item h = inl refl
of_kind-none true b path res item h = inr (of_group-none b path res item h)

none-of_kind :
    (a b : Bool) (path : Result Text) (res : Value) (item : Fields)
    → (a ≡ false) ⊎ ((oas : Text) × (path ≡ ok oas) × (b ≡ false))
    → of_kind a b path res item ≡ ok none
none-of_kind false b path res item d = refl
none-of_kind true b path res item (inl e) = cc
none-of_kind true b path res item (inr (oas, e, f)) = rw (e, f)

module _ (api : Api) (x : Externals) (kind group : Text) where
  match_item-none :
      (item : Fields) → match_item api x kind group item ≡ ok none → Foreign api x kind group item
  unfolding match_item
  match_item-none item h =
      let (hd, e, k) = >>=-eq-ok (read_header api x item) _ h in
      (hd, e, of_kind-none (text_eq hd.2 kind) (text_eq hd.1 group) (oas_path api item) hd.0 item k)

  none-match_item :
      (item : Fields) → Foreign api x kind group item → match_item api x kind group item ≡ ok none
  unfolding match_item
  none-match_item item (hd, e, d) =
      ap
        (λ r.
          r >>= λ h. of_kind (text_eq h.2 kind) (text_eq h.1 group) (oas_path api item) h.0 item)
        e
      ∙ none-of_kind (text_eq hd.2 kind) (text_eq hd.1 group) (oas_path api item) hd.0 item d

  find_definition_not_found :
      (items : List Fields)
      → (find_definition api x kind group items ≡ err Error.definition_not_found)
        ↔ All (Foreign api x kind group) items
  unfolding find_definition
  find_definition_not_found [] = (λ h. tt, λ h. refl)
  find_definition_not_found (item ∷ items) =
      go (match_item api x kind group item) refl (find_definition_not_found items)
    where
      go :
          (r : Result (Option Match))
          → match_item api x kind group item ≡ r
          → ((find_definition api x kind group items ≡ err Error.definition_not_found)
              ↔ All (Foreign api x kind group) items)
          → ((r >>= λ o. or_next o (find_definition api x kind group items))
              ≡ err Error.definition_not_found)
            ↔ (Foreign api x kind group item × All (Foreign api x kind group) items)
      go (err e) q rest = (
        λ h. absurd (match_item-IsElse api x kind group item (q ∙ ap err (err-injective h))),
        λ f. absurd (err-ne-ok (sym q ∙ none-match_item item f.0)),
      )
      go (ok none) q rest = (λ h. (match_item-none item q, rest.0 h), λ f. rest.1 f.1)
      go (ok (some m)) q rest = (
        λ h. absurd (err-ne-ok (sym h)),
        λ f. absurd (some-ne-none (ok-injective (sym q ∙ none-match_item item f.0))),
      )

-- A step whose error is another one is passed by the error for an absent definition.
passed {ℓ κ} :
    {A : Type ℓ} {B : Type κ} (r : Result A) (f : A → Result B)
    → IsElse r
    → (r >>= f) ≡ err Error.definition_not_found
    → (a : A) × (r ≡ ok a) × (f a ≡ err Error.definition_not_found)
passed (err e) f h q = absurd (h (ap err (err-injective q)))
passed (ok a) f h q = (a, refl, q)

-- A step behind which the error is another one has it itself.
not_built {ℓ κ} :
    {A : Type ℓ} {B : Type κ} (r : Result A) (f : A → Result B)
    → ((a : A) → IsElse (f a))
    → (r >>= f) ≡ err Error.definition_not_found
    → r ≡ err Error.definition_not_found
not_built (err e) f k q = ap err (err-injective q)
not_built (ok a) f k q = absurd (k a q)

runs {ℓ κ} :
    {A : Type ℓ} {B : Type κ} (r : Result A) (f : A → Result B) {a : A} → r ≡ ok a → (r >>= f) ≡ f a
runs r f e = ap (λ r. r >>= f) e

or_failed_ok {ℓ} :
    {A : Type ℓ} (e : Error) (o : Option A) {a : A} → or_failed e o ≡ ok a → o ≡ some a
or_failed_ok e none h = absurd (err-ne-ok h)
or_failed_ok e (some b) h = ap some (ok-injective h)

-- Get says that a definition is absent exactly where the list of definitions could be read and each of
-- them can be read and is that of another kind, or of the resource's kind and another group: an error
-- of the cluster, of a definition that cannot be read, or of what a definition refers to is another one.
pub get_definition_not_found :
    (api : Api) (x : Externals) (mg : Fields)
    → (get_definition api x mg ≡ err Error.definition_not_found) ↔ (
        (group : Text) × (items : List Fields) × (api.group_of mg ≡ some group)
        × (api.definitions ≡ some items)
        × All (Foreign api x (api.kind_of mg) group) items)
unfolding get_definition
get_definition_not_found api x mg = (
  λ h.
      let (group, hg, h1) =
        passed (or_failed Error.no_gvr (api.group_of mg)) _
          (IsElse-or_failed Error.no_gvr (api.group_of mg) (λ q. cc)) h in
      let (items, hi, h2) =
        passed (or_failed Error.list_failed api.definitions) _
          (IsElse-or_failed Error.list_failed api.definitions (λ q. cc)) h1 in
      (
        group,
        items,
        or_failed_ok Error.no_gvr (api.group_of mg) hg,
        or_failed_ok Error.list_failed api.definitions hi,
        (find_definition_not_found api x (api.kind_of mg) group items).0 (
            not_built (find_definition api x (api.kind_of mg) group items) (build_info api x mg)
              (build_info-IsElse api x mg) h2),
      ),
  λ (group, items, hg, hi, all).
      runs (or_failed Error.no_gvr (api.group_of mg)) _ (ap (or_failed Error.no_gvr) hg)
      ∙ runs (or_failed Error.list_failed api.definitions) _ (ap (or_failed Error.list_failed) hi)
      ∙ ap (λ r. r >>= build_info api x mg)
          ((find_definition_not_found api x (api.kind_of mg) group items).1 all),
)
