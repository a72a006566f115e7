-- ===== src/Getter/Lookup.antt =====
-- internal/tools/definitiongetter/getter.go: Get, resolveJQRefs and materializeJQ.
use krateo_rest_dynamic_cont.Base.{
  Bool, true, false, List, [], ◌∷◌, ◌++◌, Option, none, some, if◌then◌else◌, Text, codes, text_eq,
  is_empty, Error, Result, ok, err, ◌>>=◌,
}
use krateo_rest_dynamic_cont.Value.{Value, Fields, end}
use krateo_rest_dynamic_cont.Definition.{
  JqProgram, ValueMapping, FieldMappingItem, AsyncConfig, VerbsDescription, ApiRef, Info,
}
use krateo_rest_dynamic_cont.Externals.{Externals}
use krateo_rest_dynamic_cont.Getter.{Api}
use krateo_rest_dynamic_cont.Getter.Modules.{fetch, or_failed}
use krateo_rest_dynamic_cont.Getter.Credentials.{Auth, process_configuration_ref}

abbrev newline : Text
newline = 10 ∷ []

abbrev pub with_entrypoint : Text → Text → Text
with_entrypoint src entry = if is_empty entry then src else src ++ newline ++ entry

-- `materializeJQ`
unfoldable pub materialize_jq : Api → Text → JqProgram → Result JqProgram
materialize_jq api own p =
    if is_empty p.ref
    then ok p
    else (fetch api p.ref own >>= λ src.
        ok (record { inline = with_entrypoint src p.entrypoint; ref = []; entrypoint = [] }))

abbrev pub materialize : Api → Text → Option JqProgram → Result (Option JqProgram)
materialize api own none = ok none
materialize api own (some p) = materialize_jq api own p >>= λ q. ok (some q)

abbrev pub materialize_mapping : Api → Text → Option ValueMapping → Result (Option ValueMapping)
materialize_mapping api own none = ok none
materialize_mapping api own (some vm) =
    materialize api own vm.jq >>= λ q. ok (some (record vm { jq = q }))

unfoldable pub materialize_items :
    Api → Text → List FieldMappingItem → Result (List FieldMappingItem)
materialize_items api own [] = ok []
materialize_items api own (m ∷ ms) = do
  vm ← materialize_mapping api own m.value_mapping
  rest ← materialize_items api own ms
  ok (record m { value_mapping = vm } ∷ rest)

abbrev pub materialize_async : Api → Text → Option AsyncConfig → Result (Option AsyncConfig)
materialize_async api own none = ok none
materialize_async api own (some a) = materialize api own (a.operation_ref).jq >>= λ q.
    ok (some (record a { operation_ref = record (a.operation_ref) { jq = q } }))

unfoldable pub materialize_verb : Api → Text → VerbsDescription → Result VerbsDescription
materialize_verb api own v = do
  request ← materialize api own v.request_transform
  response ← materialize api own v.response_transform
  not_found ← materialize api own v.not_found_body
  items ← materialize_items api own v.field_mapping
  async ← materialize_async api own v.async
  ok (record v {
    request_transform = request;
    response_transform = response;
    not_found_body = not_found;
    field_mapping = items;
    async = async;
  })

unfoldable pub materialize_verbs :
    Api → Text → List VerbsDescription → Result (List VerbsDescription)
materialize_verbs api own [] = ok []
materialize_verbs api own (v ∷ vs) = do
  w ← materialize_verb api own v
  ws ← materialize_verbs api own vs
  ok (w ∷ ws)

abbrev pub materialize_api_ref : Api → Text → Option ApiRef → Result (Option ApiRef)
materialize_api_ref api own none = ok none
materialize_api_ref api own (some r) = do
  absent ← materialize api own r.not_found_expr
  current ← materialize api own r.up_to_date_expr
  ok (some (record r { not_found_expr = absent; up_to_date_expr = current }))

-- `resolveJQRefs`
unfoldable pub resolve_jq_refs : Api → Text → Info → Result Info
resolve_jq_refs api own info = do
  verbs ← materialize_verbs api own (info.resource).verbs_description
  observe ← materialize_api_ref api own (info.resource).observe_api_ref
  ok (record info {
    resource = record (info.resource) { verbs_description = verbs; observe_api_ref = observe };
  })

-- A field that must be there.
abbrev pub required {ℓ} : {A : Type ℓ} → Option (Option A) → Result A
required (some (some a)) = ok a
required o = err Error.missing_field

abbrev pub required_value : Result (Option Value) → Result Value
required_value (ok (some v)) = ok v
required_value r = err Error.missing_field

-- The fields of a definition that are read of every one: its resource, group and kind.
unfoldable pub read_header : Api → Externals → Fields → Result (Value × Text × Text)
read_header api x item = do
  res ← required_value (x.nested_field item (codes "spec" ∷ codes "resource" ∷ []))
  group ← required (api.nested_string item (codes "spec" ∷ codes "resourceGroup" ∷ []))
  kind ← required (api.nested_string item (codes "spec" ∷ codes "resource" ∷ codes "kind" ∷ []))
  ok (res, group, kind)

abbrev pub oas_path : Api → Fields → Result Text
oas_path api item = required (api.nested_string item (codes "spec" ∷ codes "oasPath" ∷ []))

-- A definition that matches: its OAS path, its resource, and itself.
abbrev pub Match : Type 0
Match = Text × Value × Fields

abbrev pub of_group : Bool → Result Text → Value → Fields → Result (Option Match)
of_group same path res item = path >>= λ oas. ok (if same then some (oas, res, item) else none)

abbrev pub of_kind : Bool → Bool → Result Text → Value → Fields → Result (Option Match)
of_kind false same path res item = ok none
of_kind true same path res item = of_group same path res item

-- Whether one definition is that of a kind and group; `none` where it is another's.
unfoldable pub match_item : Api → Externals → Text → Text → Fields → Result (Option Match)
match_item api x kind group item = read_header api x item >>= λ h.
    of_kind (text_eq h.2 kind) (text_eq h.1 group) (oas_path api item) h.0 item

abbrev pub or_next : Option Match → Result Match → Result Match
or_next none rest = rest
or_next (some m) rest = ok m

-- The loop of `Get`: the first definition that matches.
unfoldable pub find_definition : Api → Externals → Text → Text → List Fields → Result Match
find_definition api x kind group [] = err Error.definition_not_found
find_definition api x kind group (item ∷ items) =
    match_item api x kind group item >>= λ o. or_next o (find_definition api x kind group items)

unfoldable pub build_info : Api → Externals → Fields → Match → Result (Info × Option Auth)
build_info api x mg m = do
  resource ← or_failed Error.undecodable_resource (api.decode_resource m.1)
  configured ←
      process_configuration_ref api x mg
        (record { url = m.0; resource = resource; configuration_spec = end })
  info ← resolve_jq_refs api (api.namespace_of m.2) configured.0
  ok (info, configured.1)

-- `Get`, with the authentication that it sets.
unfoldable pub get_definition : Api → Externals → Fields → Result (Info × Option Auth)
get_definition api x mg = do
  group ← or_failed Error.no_gvr (api.group_of mg)
  items ← or_failed Error.list_failed api.definitions
  m ← find_definition api x (api.kind_of mg) group items
  build_info api x mg m
