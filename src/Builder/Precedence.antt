-- ===== src/Builder/Precedence.antt =====
-- Which source of a path or query parameter wins in BuildCallConfig, before explicit mappings.
use krateo_rest_dynamic_cont.Base.{
  ◌≡◌, refl, sym, ap, ◌∙◌, Bool, true, false, not, ◌&&◌, List, [], ◌∷◌, Option, none, some, arith,
  if◌then◌else◌, Text, text_eq, text_eq_iff, is_empty, lookup, or_else, lookup-insert, codes,
}
use krateo_rest_dynamic_cont.Value.{Value, Fields, end}
use krateo_rest_dynamic_cont.Externals.{Externals, sprint}
use krateo_rest_dynamic_cont.Builder.{RequestedParams, contains, CallInfo, Draft}
use krateo_rest_dynamic_cont.Builder.Calls.{
  put_new, process_field, process_fields, static_request, populated, fields_or_empty,
}

-- What a field of the resource offers for a key: its text, if the operation asks for the key.
abbrev pub offered : Externals → Bool → Option Value → Option Text
offered x requested none = none
offered x requested (some v) = if requested then some (sprint x v) else none

abbrev pub asks_for : List Text → Text → Bool
asks_for names k = contains names k && not (is_empty k)

lookup-put_new :
    (requested : Bool) (j k v : Text) (m : List (Text × Text))
    → lookup k (put_new requested j v m)
      ≡ or_else (lookup k m) (if text_eq j k then (if requested then some v else none) else none)
unfolding put_new
lookup-put_new requested j k v m = ground (arith, lookup-insert j k v m, text_eq_iff j k)

lookup-process_field :
    (x : Externals) (names : RequestedParams) (k j : Text) (v : Value) (d : Draft)
    → lookup k ((process_field x names j v d).request).parameters
      ≡ or_else (lookup k (d.request).parameters) (
          if text_eq j k
          then (if contains names.parameters k then some (sprint x v) else none)
          else none)
unfolding process_field
lookup-process_field x names k j v d =
    lookup-put_new (contains names.parameters j) j k (sprint x v) (d.request).parameters
    ∙ ground (arith, text_eq_iff j k)

offered-none : (x : Externals) (o : Option Value) → offered x false o ≡ none
offered-none x o = ground arith

-- An empty key of the resource is never asked for.
skips_empty :
    (x : Externals) (names : List Text) (j k : Text) (v : Value) (fs : List (Text × Value))
    → is_empty j ≡ true
    → offered x (asks_for names k) (lookup k ((j, v) ∷ fs))
      ≡ offered x (asks_for names k) (lookup k fs)
unfolding lookup
skips_empty x names j k v fs e =
    ground (arith, text_eq_iff j k, offered-none x (some v), offered-none x (lookup k fs))

then_the_rest :
    (x : Externals) (names : List Text) (j k : Text) (v : Value) (fs : List (Text × Value))
    (o : Option Text)
    → is_empty j ≡ false
    → or_else
        (or_else o
          (if text_eq j k then (if contains names k then some (sprint x v) else none) else none))
        (offered x (asks_for names k) (lookup k fs))
      ≡ or_else o (offered x (asks_for names k) (lookup k ((j, v) ∷ fs)))
unfolding lookup
then_the_rest x names j k v fs o n =
    ground (arith, text_eq_iff j k, offered-none x (some v), offered-none x (lookup k fs))

lookup-process_fields :
    (x : Externals) (names : RequestedParams) (k : Text) (fs : List (Text × Value)) (d : Draft)
    → lookup k ((process_fields x names fs d).request).parameters
      ≡ or_else
          (lookup k (d.request).parameters)
          (offered x (asks_for names.parameters k) (lookup k fs))
unfolding process_fields lookup
lookup-process_fields x names k [] d = ground arith
lookup-process_fields x names k (([], v) ∷ fs) d =
    lookup-process_fields x names k fs d
    ∙ ap (or_else (lookup k (d.request).parameters))
        (sym (skips_empty x names.parameters [] k v fs refl))
lookup-process_fields x names k ((c ∷ j, v) ∷ fs) d =
    lookup-process_fields x names k fs (process_field x names (c ∷ j) v d)
    ∙ ap (λ o. or_else o (offered x (asks_for names.parameters k) (lookup k fs)))
        (lookup-process_field x names k (c ∷ j) v d)
    ∙ then_the_rest x names.parameters (c ∷ j) k v fs (lookup k (d.request).parameters) refl

-- Before the explicit mappings, a non-empty path parameter that the operation asks for has the text
-- of the static configuration if that names it, else that of the resource's spec, else that of its
-- status; one that the operation does not ask for has the static configuration's alone.
pub lookup-populated :
    (x : Externals) (call : CallInfo) (mg config : Fields) (k : Text)
    → lookup k ((populated x call mg config).request).parameters
      ≡ or_else
          (or_else (lookup k (static_request x call config).parameters) (
            offered x
              (asks_for (call.req_params).parameters k)
              (lookup k (fields_or_empty (x.get_fields mg (codes "spec"))))))
          (offered x
            (asks_for (call.req_params).parameters k)
            (lookup k (fields_or_empty (x.get_fields mg (codes "status")))))
unfolding populated
lookup-populated x call mg config k =
    let req = call.req_params in
    let from_spec = fields_or_empty (x.get_fields mg (codes "spec")) in
    let start : Draft = record { request = static_request x call config; body = end } in
    lookup-process_fields x req k (fields_or_empty (x.get_fields mg (codes "status")))
      (process_fields x req from_spec start)
    ∙ ap
        (λ o. or_else o (
          offered x (asks_for req.parameters k)
            (lookup k (fields_or_empty (x.get_fields mg (codes "status"))))))
        (lookup-process_fields x req k from_spec start)
