-- ===== src/Builder/Calls.antt =====
-- APICallBuilder and BuildCallConfig. The client that answers for the OpenAPI document is the
-- interface of clienttools.go, `UnstructuredClientInterface`, less its two HTTP calls.
use krateo_rest_dynamic_cont.Base.{
  Bool, true, false, not, ◌&&◌, ◌||◌, List, [], ◌∷◌, Option, none, some, if◌then◌else◌, Text, codes,
  text_eq, equal_fold, is_empty, lookup, insert, Result, ok, err, ◌>>=◌,
}
use krateo_rest_dynamic_cont.Value.{Value, null, obj, Fields, end, entries, of_entries}
use krateo_rest_dynamic_cont.Definition.{
  FieldMappingItem, HeaderItem, QueryParam, VerbsDescription, Info,
}
use krateo_rest_dynamic_cont.Externals.{Externals, sprint}
use krateo_rest_dynamic_cont.Path.Parse.{parse_path}
use krateo_rest_dynamic_cont.Path.Nested.{remove_nested}
use krateo_rest_dynamic_cont.Mapping.Response.{trim_prefix}
use krateo_rest_dynamic_cont.Builder.{
  ApiAction, find_by, action_text, RequestedParams, contains, CallInfo, RequestConfiguration, Draft,
  apply_request_field_mapping, apply_field_mapping,
}
use krateo_rest_dynamic_cont.Builder

pub record Client : Type 0 where
  -- `RequestedParams`: the names of the parameters of an operation; `body` stays empty
  pub requested_params : Text → Text → Result RequestedParams
  -- `RequestedBody`; nil is `none`
  pub requested_body : Text → Text → Result (Option (List Text))
  -- `ValidateRequest`
  pub validate_request : Text → Text → RequestConfiguration → Result (Unit {0})
  -- `UpdatableBodyPaths`
  pub updatable_body_paths : Text → Text → Result (List Text)

-- Whether a verb's request has a body.
abbrev pub sends_body : Text → Bool
sends_body method =
    text_eq method (codes "POST")
    || (text_eq method (codes "PUT") || text_eq method (codes "PATCH"))

abbrev names_or_empty : Option (List Text) → List Text
names_or_empty none = []
names_or_empty (some names) = names

body_names : Client → VerbsDescription → Result (List Text)
body_names cli v =
    if sends_body v.method
    then (cli.requested_body v.method v.path >>= λ names. ok (names_or_empty names))
    else ok []

abbrev call_info_of : Info → VerbsDescription → ApiAction → RequestedParams → List Text → CallInfo
call_info_of info v action params body = record {
  path = v.path;
  req_params = record params { body = body };
  identifier_fields = (info.resource).identifiers;
  request_field_mapping = v.request_field_mapping;
  field_mapping = v.field_mapping;
  method = v.method;
  action = action;
  success_codes = v.success_codes;
  headers = v.headers;
  queries = v.queries;
  tolerate_codes = v.tolerate_codes;
  not_found_codes = v.not_found_codes;
  request_transform = v.request_transform;
}

-- The call of a verb, with the verb that a findby call looks into.
unfoldable pub call_of :
    Client → Info → ApiAction → VerbsDescription → Result (Option (CallInfo × VerbsDescription))
unfolding body_names
call_of cli info action v = do
  params ← cli.requested_params v.method v.path
  body ← body_names cli v
  ok (some (call_info_of info v action params body, v))

unfoldable pub find_verb : List VerbsDescription → Text → Option VerbsDescription
find_verb [] action = none
find_verb (v ∷ vs) action =
    let rest = find_verb vs action in if equal_fold v.action action then some v else rest

-- `APICallBuilder`: the first verb whose action matches; `ok none` where there is none.
unfoldable pub api_call_builder :
    Client → Info → ApiAction → Result (Option (CallInfo × VerbsDescription))
api_call_builder cli info action =
    elim (find_verb (info.resource).verbs_description (action_text action)) [
      | none ↦ ok none
      | some v ↦ call_of cli info action v
    ]

-- The entries of a map, each written as text under its key.
unfoldable pub put_all : Externals → List (Text × Value) → List (Text × Text) → List (Text × Text)
put_all x [] m = m
put_all x ((k, v) ∷ fs) m = put_all x fs (insert k (sprint x v) m)

-- One section of the configuration, for an action; a missing or ill-typed one is skipped.
unfoldable pub config_section : Externals → Fields → Text → Text → List (Text × Value)
config_section x spec key action = elim (x.nested_map spec (key ∷ action ∷ [])) [
  | err e ↦ []
  | ok none ↦ []
  | ok (some fs) ↦ entries fs
]

-- `applyConfigSpec`
unfoldable pub apply_config_spec :
    Externals → Fields → Text → RequestConfiguration → RequestConfiguration
apply_config_spec x spec action r = record r {
  parameters = put_all x (config_section x spec (codes "path") action) r.parameters;
  query = put_all x (config_section x spec (codes "query") action) r.query;
  headers = put_all x (config_section x spec (codes "headers") action) r.headers;
  cookies = put_all x (config_section x spec (codes "cookies") action) r.cookies;
}

unfoldable pub put_headers : List HeaderItem → List (Text × Text) → List (Text × Text)
put_headers [] m = m
put_headers (h ∷ hs) m = put_headers hs (if is_empty h.name then m else insert h.name h.value m)

unfoldable pub put_queries : List QueryParam → List (Text × Text) → List (Text × Text)
put_queries [] m = m
put_queries (q ∷ qs) m = put_queries qs (if is_empty q.name then m else insert q.name q.value m)

abbrev pub is_present {ℓ} : {A : Type ℓ} → Option A → Bool
is_present none = false
is_present (some a) = true

-- Write a text under a key that is requested and not yet there.
unfoldable pub put_new : Bool → Text → Text → List (Text × Text) → List (Text × Text)
put_new requested k v m = if requested && not (is_present (lookup k m)) then insert k v m else m

abbrev is_nil : Option Value → Bool
is_nil none = true
is_nil (some null) = true
is_nil (some _) = false

put_new_body : Bool → Text → Value → Fields → Fields
put_new_body requested k v body =
    if requested && is_nil (lookup k (entries body))
    then of_entries (insert k v (entries body))
    else body

-- One field of `processFields`.
unfoldable pub process_field : Externals → RequestedParams → Text → Value → Draft → Draft
unfolding put_new_body
process_field x names k v d = record {
  request = record (d.request) {
    parameters = put_new (contains names.parameters k) k (sprint x v) (d.request).parameters;
    query = put_new (contains names.query k) k (sprint x v) (d.request).query;
  };
  body = put_new_body (contains names.body k) k v d.body;
}

-- `processFields`
unfoldable pub process_fields : Externals → RequestedParams → List (Text × Value) → Draft → Draft
process_fields x names [] d = d
process_fields x names ((k, v) ∷ fs) d =
    process_fields x names fs (if is_empty k then d else process_field x names k v d)

abbrev pub fields_or_empty : Result Fields → List (Text × Value)
fields_or_empty (ok fs) = entries fs
fields_or_empty (err e) = []

abbrev as_fields : Value → Fields
as_fields (obj fs) = fs
as_fields _ = end

remove_source : Externals → FieldMappingItem → Fields → Fields
remove_source x m body =
    elim (parse_path x.split
      (trim_prefix (codes "status.") (trim_prefix (codes "spec.") m.in_custom_resource))) [
        | err e ↦ body
        | ok [] ↦ body
        | ok (seg ∷ segs) ↦ as_fields (remove_nested (sprint x) (obj body) (seg ∷ segs))
      ]

abbrev has_source : FieldMappingItem → Bool
has_source m = is_present m.resolver && not (is_empty m.in_custom_resource)

-- `stripResolverSources`
unfoldable pub strip_resolver_sources : Externals → List FieldMappingItem → Fields → Fields
unfolding remove_source
strip_resolver_sources x [] body = body
strip_resolver_sources x (m ∷ ms) body =
    strip_resolver_sources x ms (if has_source m then remove_source x m body else body)

-- The request before any field of the resource: configuration, then the verb's own headers and
-- query parameters, which win.
unfoldable pub static_request : Externals → CallInfo → Fields → RequestConfiguration
static_request x call config =
    let empty : RequestConfiguration = record {
      parameters = [];
      query = [];
      headers = [];
      cookies = [];
      body = null;
      method = call.method;
      success_codes = call.success_codes;
      tolerate_codes = call.tolerate_codes;
      not_found_codes = call.not_found_codes;
      sensitive_values = [];
    } in
    let r = apply_config_spec x config (action_text call.action) empty in
    record r {
      headers = put_headers call.headers r.headers;
      query = put_queries call.queries r.query;
    }

-- The draft with the fields of spec, and then those of status.
unfoldable pub populated : Externals → CallInfo → Fields → Fields → Draft
populated x call mg config =
    process_fields x call.req_params (fields_or_empty (x.get_fields mg (codes "status"))) (
      process_fields x call.req_params (fields_or_empty (x.get_fields mg (codes "spec")))
        (record { request = static_request x call config; body = end }))

-- `BuildCallConfig`, for a call and a resource that are not nil.
unfoldable pub build_call_config :
    Externals → CallInfo → Fields → Fields → List (Text × Value) → RequestConfiguration
build_call_config x call mg config resolved =
    let mapped =
      apply_field_mapping x mg resolved call.field_mapping (
        apply_request_field_mapping x mg call.request_field_mapping (populated x call mg config)) in
    record (mapped.request) { body = obj (strip_resolver_sources x call.field_mapping mapped.body) }

abbrev is_ok {ℓ} : {A : Type ℓ} → Result A → Bool
is_ok (ok a) = true
is_ok (err e) = false

-- `IsResourceKnown`
unfoldable pub is_resource_known : Externals → Client → Info → Fields → Bool
is_resource_known x cli info mg = elim (api_call_builder cli info Builder.get) [
  | err e ↦ false
  | ok none ↦ false
  | ok (some (call, v)) ↦ is_ok (
      cli.validate_request call.method call.path
        (build_call_config x call mg info.configuration_spec []))
]
