-- ===== src/Builder/Addressing.antt =====
-- UnresolvedPathParams: whether a path template can be aimed at anything.
use mathlib.Core.List.{append-nil, append_assoc}
use krateo_rest_dynamic_cont.Base.{
  ◌≡◌, ◌≢◌, ◌⊎◌, subst, refl, sym, ap, ◌∙◌, Bool, false, not, ◌&&◌, List, [], ◌∷◌, ◌++◌, Option,
  none, some, arith, ◌==◌, if◌then◌else◌, Bool-cases, inl, inr, All, Text, is_empty, contains_byte,
  lookup,
}

abbrev pub param_value : List (Text × Text) → Text → Text
param_value params name = elim (lookup name params) [ none ↦ [] | some v ↦ v ]

-- Whether a placeholder's name has no value that would address anything.
abbrev pub is_missing : List (Text × Text) → Text → Bool
is_missing params name = not (is_empty name) && is_empty (param_value params name)

abbrev report : List (Text × Text) → Text → List Text → List Text
report params name rest = if is_missing params name then name ∷ rest else rest

-- The scan of `UnresolvedPathParams`, outside a placeholder (`none`) or behind "{" and the name read
-- so far. A placeholder that no "}" ends reports nothing.
unfoldable pub unresolved_from : List (Text × Text) → Option Text → Text → List Text
unresolved_from params open_name [] = []
unresolved_from params none (c ∷ s) = unresolved_from params (if c == b'{' then some [] else none) s
unresolved_from params (some name) (c ∷ s) =
    let closed = unresolved_from params none s in
    let longer = unresolved_from params (some (name ++ c ∷ [])) s in
    if c == b'}' then report params name closed else longer

-- `UnresolvedPathParams`
unfoldable pub unresolved_path_params : Text → List (Text × Text) → List Text
unresolved_path_params path params = unresolved_from params none path

-- A path template: literal text and placeholders.
pub data Part : Type 0 where
  literal : Text → Part
  placeholder : Text → Part

abbrev pub IsWellFormed : Part → Type 0
IsWellFormed (literal s) = contains_byte s b'{' ≡ false
IsWellFormed (placeholder s) = contains_byte s b'}' ≡ false

abbrev pub write_part : Part → Text
write_part (literal s) = s
write_part (placeholder s) = b'{' ∷ (s ++ b'}' ∷ [])

abbrev pub write_parts : List Part → Text
write_parts [] = []
write_parts (p ∷ ps) = write_part p ++ write_parts ps

-- The names of the placeholders that lack a value, in order: those that are not empty and stand in no
-- parameter, or in one that is empty.
pub data Missing (params : List (Text × Text)) : List Part → List Text → Type 0 where
  done : Missing params [] []
  text :
      (s : Text) (ps : List Part) (names : List Text)
      → Missing params ps names
      → Missing params (literal s ∷ ps) names
  ignored :
      (ps : List Part) (names : List Text)
      → Missing params ps names
      → Missing params (placeholder [] ∷ ps) names
  lacks :
      (s : Text) (ps : List Part) (names : List Text)
      → s ≢ []
      → (lookup s params ≡ none) ⊎ (lookup s params ≡ some [])
      → Missing params ps names
      → Missing params (placeholder s ∷ ps) (s ∷ names)
  resolves :
      (s v : Text) (ps : List Part) (names : List Text)
      → lookup s params ≡ some v
      → v ≢ []
      → Missing params ps names
      → Missing params (placeholder s ∷ ps) names

scan-literal :
    (params : List (Text × Text)) (s t : Text)
    → contains_byte s b'{' ≡ false
    → unresolved_from params none (s ++ t) ≡ unresolved_from params none t
unfolding unresolved_from contains_byte
scan-literal params [] t h = refl
scan-literal params (c ∷ s) t h = ground (arith, scan-literal params s t)

scan-name :
    (params : List (Text × Text)) (name s t : Text)
    → contains_byte s b'}' ≡ false
    → unresolved_from params (some name) ((s ++ b'}' ∷ []) ++ t)
      ≡ report params (name ++ s) (unresolved_from params none t)
unfolding unresolved_from contains_byte
scan-name params name [] t h =
    ap (λ n. report params n (unresolved_from params none t)) (sym (append-nil name))
scan-name params name (c ∷ s) t h = elim (Bool-cases (c == b'}')) [
  | inl close ↦ ground arith
  | inr other ↦
      rw (other, unresolved_from)
        (scan-name params (name ++ c ∷ []) s t (ground arith)
          ∙ ap (λ n. report params n (unresolved_from params none t))
              (append_assoc name (c ∷ []) s))
]

report-Missing :
    (params : List (Text × Text)) (s : Text) (ps : List Part) (names : List Text)
    → Missing params ps names
    → Missing params (placeholder s ∷ ps) (report params s names)
report-Missing params [] ps names m = Missing.ignored ps names m
report-Missing params (c ∷ s) ps names m = go (lookup (c ∷ s) params) refl
  where
    go :
        (o : Option Text)
        → lookup (c ∷ s) params ≡ o
        → Missing params
            (placeholder (c ∷ s) ∷ ps)
            (if is_empty (elim o [ none ↦ [] | some v ↦ v ]) then (c ∷ s) ∷ names else names)
    go none h = Missing.lacks (c ∷ s) ps names (λ e. cc) (inl h) m
    go (some []) h = Missing.lacks (c ∷ s) ps names (λ e. cc) (inr h) m
    go (some (d ∷ v)) h = Missing.resolves (c ∷ s) (d ∷ v) ps names h (λ e. cc) m

-- The names that are reported for a template are those of its placeholders that are not empty and
-- have no value, or an empty one, in the order of the template.
pub unresolved_path_params-Missing :
    (params : List (Text × Text)) (ps : List Part)
    → All IsWellFormed ps
    → Missing params ps (unresolved_path_params (write_parts ps) params)
unfolding unresolved_path_params unresolved_from
unresolved_path_params-Missing params [] h = Missing.done
unresolved_path_params-Missing params (literal s ∷ ps) (hp, h) =
    subst (Missing params (literal s ∷ ps)) (sym (scan-literal params s (write_parts ps) hp)) (
      Missing.text s ps (unresolved_path_params (write_parts ps) params)
        (unresolved_path_params-Missing params ps h))
unresolved_path_params-Missing params (placeholder s ∷ ps) (hp, h) =
    subst (Missing params (placeholder s ∷ ps)) (sym (scan-name params [] s (write_parts ps) hp)) (
      report-Missing params s ps (unresolved_path_params (write_parts ps) params)
        (unresolved_path_params-Missing params ps h))
