-- ===== src/Rest/Validation.antt =====
-- ValidateRequest of internal/tools/client/clienttools.go: which requests it accepts.
use krateo_rest_dynamic_cont.Base.{
  ◌≡◌, ◌↔◌, ◌⊎◌, inl, inr, refl, sym, ap, subst, All, Bool, true, false, ◌||◌, List, [], ◌∷◌,
  Option, none, some, if◌then◌else◌, Text, codes, text_eq, text_eq_iff, lookup, Error, ok,
  >>=-eq-ok, err-ne-ok,
}
use krateo_rest_dynamic_cont.Builder.{RequestConfiguration}
use krateo_rest_dynamic_cont.Rest.{Parameter, Operation, Document, find_operation}
use krateo_rest_dynamic_cont.Builder.Calls.{is_present}
use krateo_rest_dynamic_cont.Rest.Params.{
  require, is_required, check_place, check_parameters, validate_request, is_authorization_header,
}

-- A key of a map.
abbrev pub Has : Text → List (Text × Text) → Type 0
Has k m = (v : Text) × (lookup k m ≡ some v)

-- A name is in the place that the document gives it; one in another place need not be anywhere.
pub data Supplied (r : RequestConfiguration) (name : Text) : Text → Type 0 where
  in_path : Has name r.parameters → Supplied r name (codes "path")
  in_query : Has name r.query → Supplied r name (codes "query")
  in_header : Has name r.headers → Supplied r name (codes "header")
  by_authorization : is_authorization_header name ≡ true → Supplied r name (codes "header")
  in_cookie : Has name r.cookies → Supplied r name (codes "cookie")
  elsewhere :
      (place : Text)
      → text_eq place (codes "path") ≡ false
      → text_eq place (codes "query") ≡ false
      → text_eq place (codes "header") ≡ false
      → text_eq place (codes "cookie") ≡ false
      → Supplied r name place

abbrev pub Satisfied : RequestConfiguration → Parameter → Type 0
Satisfied r p = (p.required ≡ some true) → Supplied r p.name p.place

present-Has : (k : Text) (m : List (Text × Text)) → is_present (lookup k m) ≡ true → Has k m
present-Has k m h = go (lookup k m) refl h
  where
    go : (o : Option Text) → lookup k m ≡ o → is_present o ≡ true → Has k m
    go none e h = cc
    go (some v) e h = (v, e)

Has-present : (k : Text) (m : List (Text × Text)) → Has k m → is_present (lookup k m) ≡ true
Has-present k m (v, e) = ap is_present e

required : (b : Bool) (e : Error) → require b e ≡ ok tt → b ≡ true
required true e h = refl
required false e h = absurd (err-ne-ok h)

is : (place k : Text) → text_eq place k ≡ true → k ≡ place
is place k e = sym ((text_eq_iff place k).0 e)

either_true : (a b : Bool) → (a || b) ≡ true → (a ≡ true) ⊎ (b ≡ true)
either_true true b h = inl refl
either_true false b h = inr h

checked-Supplied :
    (place name : Text) (r : RequestConfiguration)
    → check_place place name r ≡ ok tt
    → Supplied r name place
unfolding check_place
checked-Supplied place name r h =
    go (text_eq place (codes "path")) (text_eq place (codes "query"))
      (text_eq place (codes "header")) (text_eq place (codes "cookie")) refl refl refl refl h
  where
    go :
        (a b c d : Bool)
        → text_eq place (codes "path") ≡ a
        → text_eq place (codes "query") ≡ b
        → text_eq place (codes "header") ≡ c
        → text_eq place (codes "cookie") ≡ d
        → (if a
            then require (is_present (lookup name r.parameters)) (Error.missing_path name)
            else if b
            then require (is_present (lookup name r.query)) (Error.missing_query name)
            else if c
            then require
                (is_present (lookup name r.headers) || is_authorization_header name)
                (Error.missing_header name)
            else if d
            then require (is_present (lookup name r.cookies)) (Error.missing_cookie name)
            else ok tt)
          ≡ ok tt
        → Supplied r name place
    go true b c d ea eb ec ed h =
        subst (Supplied r name) (is place (codes "path") ea)
          (Supplied.in_path (present-Has name r.parameters (required _ _ h)))
    go false true c d ea eb ec ed h =
        subst (Supplied r name) (is place (codes "query") eb)
          (Supplied.in_query (present-Has name r.query (required _ _ h)))
    go false false true d ea eb ec ed h =
        subst (Supplied r name) (is place (codes "header") ec)
          (elim (either_true _ _ (required _ _ h)) [
            | inl e ↦ Supplied.in_header (present-Has name r.headers e)
            | inr e ↦ Supplied.by_authorization e
          ])
    go false false false true ea eb ec ed h =
        subst (Supplied r name) (is place (codes "cookie") ed)
          (Supplied.in_cookie (present-Has name r.cookies (required _ _ h)))
    go false false false false ea eb ec ed h = Supplied.elsewhere place ea eb ec ed

or_right : (a b : Bool) → b ≡ true → (a || b) ≡ true
or_right true b h = refl
or_right false b h = h

Supplied-checked :
    (place name : Text) (r : RequestConfiguration)
    → Supplied r name place
    → check_place place name r ≡ ok tt
unfolding check_place text_eq
Supplied-checked _ name r (Supplied.in_path h) = rw (Has-present name r.parameters h)
Supplied-checked _ name r (Supplied.in_query h) = rw (Has-present name r.query h)
Supplied-checked _ name r (Supplied.in_header h) = rw (Has-present name r.headers h)
Supplied-checked _ name r (Supplied.by_authorization h) =
    rw (or_right (is_present (lookup name r.headers)) (is_authorization_header name) h)
Supplied-checked _ name r (Supplied.in_cookie h) = rw (Has-present name r.cookies h)
Supplied-checked _ name r (Supplied.elsewhere place a b c d) = rw (a, b, c, d)

checked-Satisfied :
    (p : Parameter) (r : RequestConfiguration)
    → (if is_required p then check_place p.place p.name r else ok tt) ≡ ok tt
    → Satisfied r p
checked-Satisfied p r h e = checked-Supplied p.place p.name r (rw (e) at h)

Satisfied-checked :
    (p : Parameter) (r : RequestConfiguration)
    → Satisfied r p
    → (if is_required p then check_place p.place p.name r else ok tt) ≡ ok tt
Satisfied-checked p r h = go p.required refl
  where
    go :
        (o : Option Bool)
        → p.required ≡ o
        → (if (elim o [ none ↦ false | some b ↦ b ]) then check_place p.place p.name r else ok tt)
          ≡ ok tt
    go none e = refl
    go (some false) e = refl
    go (some true) e = Supplied-checked p.place p.name r (h e)

check_parameters-All :
    (ps : List Parameter) (r : RequestConfiguration)
    → check_parameters ps r ≡ ok tt
    → All (Satisfied r) ps
unfolding check_parameters
check_parameters-All [] r h = tt
check_parameters-All (p ∷ ps) r h =
    let (u, hp, hr) =
      >>=-eq-ok (if is_required p then check_place p.place p.name r else ok tt)
        (λ done. check_parameters ps r) h in
    (checked-Satisfied p r hp, check_parameters-All ps r hr)

All-check_parameters :
    (ps : List Parameter) (r : RequestConfiguration)
    → All (Satisfied r) ps
    → check_parameters ps r ≡ ok tt
unfolding check_parameters
All-check_parameters [] r h = refl
All-check_parameters (p ∷ ps) r (h, hs) = rw (Satisfied-checked p r h, All-check_parameters ps r hs)

-- ValidateRequest accepts a request of a method at a path exactly where the document has the operation
-- and each of its parameters that is required is in the place that the document gives it, path, query,
-- header or cookie; a header need not be there if its name contains "authorization" in any case, and a
-- place of another name is not looked at.
pub validate_request_iff :
    (doc : Document) (method path : Text) (r : RequestConfiguration)
    → (validate_request doc method path r ≡ ok tt) ↔ (
        (op : Operation) × (find_operation doc method path ≡ ok op)
        × All (Satisfied r) op.parameters)
unfolding validate_request
validate_request_iff doc method path r = (
  λ h.
      let (op, ho, hc) =
        >>=-eq-ok (find_operation doc method path) (λ op. check_parameters op.parameters r) h in
      (op, ho, check_parameters-All op.parameters r hc),
  λ p. rw (p.1, All-check_parameters p.0.parameters r p.2),
)
