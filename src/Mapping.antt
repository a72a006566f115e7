-- ===== src/Mapping.antt =====
-- internal/tools/fieldmapping: value aliases, the resolution of secret references, and the
-- transforms of request and response bodies. Module references of jq programs have been replaced
-- by their source before this code runs.
pub mod Response
use krateo_rest_dynamic_cont.Base.{
  ℕ, zero, suc, Bool, true, false, not, ◌&&◌, ◌||◌, List, [], ◌∷◌, ◌++◌, map, Option, none, some,
  ltb, ◌==◌, if◌then◌else◌, any, Text, codes, text_eq, equal_fold, is_empty, lookup, insert, Error,
  Result, ok, err, ◌>>=◌,
}
use krateo_rest_dynamic_cont.Value.{Value, null, str, obj, Fields, end, entries, of_entries}
use krateo_rest_dynamic_cont.Definition.{
  JqProgram, ValueAlias, ValueMapping, SecretRefResolver, FieldResolver, FieldMappingItem,
  VerbsDescription,
}
use krateo_rest_dynamic_cont.Externals.{Externals, sprint}
use krateo_rest_dynamic_cont.Path.Parse.{parse_path}
use krateo_rest_dynamic_cont.Path.Nested.{get_nested, set_nested, remove_nested}

pub data Direction : Type 0 where
  response_api_to_cr request_cr_to_api : Direction

abbrev alias_from : Direction → ValueAlias → Text
alias_from response_api_to_cr a = a.api_value
alias_from request_cr_to_api a = a.custom_resource_value

abbrev alias_to : Direction → ValueAlias → Text
alias_to response_api_to_cr a = a.custom_resource_value
alias_to request_cr_to_api a = a.api_value

-- The loop of `ApplyAlias` over the pairs.
unfoldable pub alias_loop : Direction → Text → Value → List ValueAlias → Value
alias_loop dir s v [] = v
alias_loop dir s v (a ∷ aliases) =
    let rest = alias_loop dir s v aliases in
    if text_eq s (alias_from dir a) then str (alias_to dir a) else rest

-- `ApplyAlias`
unfoldable pub apply_alias : Externals → Value → List ValueAlias → Direction → Value
apply_alias x v aliases dir = alias_loop dir (sprint x v) v aliases

-- The separator of composite keys.
abbrev pub nul : ℕ
nul = 0

-- `ResolverKey`
unfoldable pub resolver_key : FieldMappingItem → Text
resolver_key m = m.in_path ++ nul ∷ (m.in_query ++ nul ∷ (m.in_body ++ nul ∷ m.in_custom_resource))

-- Whether an entry writes into a request.
abbrev pub is_request_entry : FieldMappingItem → Bool
is_request_entry m = not (is_empty m.in_path && (is_empty m.in_query && is_empty m.in_body))

abbrev pub value_or : Error → Result (Option Value) → Result Value
value_or e (ok (some v)) = ok v
value_or e (ok none) = err e
value_or e (err e') = err e

-- The value at a parsed path; a path of no segments is invalid.
unfoldable pub read_segments : Externals → Fields → Result (List Text) → Result Value
read_segments x mg (err e) = err Error.invalid_path
read_segments x mg (ok []) = err Error.invalid_path
read_segments x mg (ok (seg ∷ segs)) =
    value_or Error.path_not_found (get_nested (sprint x) (obj mg) (seg ∷ segs))

abbrev pub as_text : Value → Result Text
as_text (str s) = ok s
as_text _ = err Error.not_a_string

-- `readStringPath`
unfoldable pub read_string_path : Externals → Fields → Text → Result Text
read_string_path x mg path = do v ← read_segments x mg (parse_path x.split path); as_text v

-- The reading of one key of a Secret, through the cache.
abbrev pub read_cached :
    (Text → Result Text) → Text → Text → List (Text × Text) → Result (Text × List (Text × Text))
read_cached read name key cache = elim (lookup (name ++ nul ∷ key) cache) [
  | some v ↦ ok (v, cache)
  | none ↦ read key >>= λ v. ok (v, insert (name ++ nul ∷ key) v cache)
]

-- One secretRef entry: the name and key are read from the resource, and the secret is read once
-- for each pair of them.
unfoldable pub resolve_secret :
    Externals
    → (Text → Text → Result Text)
    → Fields
    → SecretRefResolver
    → List (Text × Text)
    → Result (Text × List (Text × Text))
resolve_secret x get_secret mg r cache = do
  name ← read_string_path x mg r.name_from_custom_resource
  key ← read_string_path x mg r.key_from_custom_resource
  read_cached (get_secret name) name key cache

-- The configuration of a resolver: only secretRef is known.
unfoldable pub secret_ref_of : FieldResolver → Result SecretRefResolver
secret_ref_of r =
    if text_eq r.kind (codes "secretRef")
    then elim r.secret_ref [ none ↦ err Error.resolver_not_configured | some s ↦ ok s ]
    else err Error.unsupported_resolver

abbrev pub resolver_for : FieldMappingItem → Option FieldResolver
resolver_for m = if is_request_entry m then m.resolver else none

-- The loop of `ResolveRequestResolvers`, with the values and the cache so far.
unfoldable pub resolve_loop :
    Externals
    → (Text → Text → Result Text)
    → Fields
    → List FieldMappingItem
    → List (Text × Value)
    → List (Text × Text)
    → Result (List (Text × Value))
resolve_loop x get_secret mg [] out cache = ok out
resolve_loop x get_secret mg (m ∷ ms) out cache = elim (resolver_for m) [
  | none ↦ resolve_loop x get_secret mg ms out cache
  | some r ↦ do
    s ← secret_ref_of r
    found ← resolve_secret x get_secret mg s cache
    resolve_loop x get_secret mg ms (insert (resolver_key m) (str found.0) out) found.1
]

-- `ResolveRequestResolvers`
unfoldable pub resolve_request_resolvers :
    Externals
    → (Text → Text → Result Text)
    → List FieldMappingItem
    → Fields
    → Result (List (Text × Value))
resolve_request_resolvers x get_secret mapping mg = resolve_loop x get_secret mg mapping [] []

-- `ApplyRequestTransform`
unfoldable pub apply_request_transform : Externals → Option JqProgram → Value → Result Value
apply_request_transform x none body = ok body
apply_request_transform x (some p) (obj (Fields.field k v fs)) =
    if is_empty p.inline
    then ok (obj (Fields.field k v fs))
    else x.run_jq p.inline (obj (Fields.field k v fs))
apply_request_transform x (some p) body = ok body
