-- ===== src/Builder.antt =====
-- internal/tools/client/builder/builder.go: which call a verb makes, and the request that is built
-- from a custom resource. The request and its body are passed along, where Go mutates them.
pub mod Calls
pub mod Addressing
pub mod Precedence
use krateo_rest_dynamic_cont.Base.{
  ℕ, zero, suc, Bool, true, false, not, ◌&&◌, ◌||◌, List, [], ◌∷◌, ◌++◌, Option, none, some, ◌==◌,
  if◌then◌else◌, any, drop, length, Text, codes, text_eq, equal_fold, is_empty, cut, lookup, insert,
  Result, ok, err,
}
use krateo_rest_dynamic_cont.Value.{
  Value, null, bool, str, int, float, arr, obj, Fields, end, entries, of_entries,
}
use krateo_rest_dynamic_cont.Definition.{
  JqProgram, ValueMapping, RequestFieldMappingItem, FieldMappingItem, FieldResolver, HeaderItem,
  QueryParam,
}
use krateo_rest_dynamic_cont.Externals.{Externals, sprint}
use krateo_rest_dynamic_cont.DeepCopy.{deep_copy}
use krateo_rest_dynamic_cont.Path.Parse.{parse_path}
use krateo_rest_dynamic_cont.Path.Nested.{get_nested, set_nested, remove_nested}
use krateo_rest_dynamic_cont.Mapping.{Direction, apply_alias, resolver_key, is_request_entry}
use krateo_rest_dynamic_cont.Mapping.Response.{trim_prefix}

-- `APIAction`
pub data ApiAction : Type 0 where
  create update delete list get find_by : ApiAction

-- `APIAction.String`
abbrev pub action_text : ApiAction → Text
action_text create = codes "create"
action_text update = codes "update"
action_text delete = codes "delete"
action_text list = codes "list"
action_text get = codes "get"
action_text find_by = codes "findby"

-- `RequestedParams`, each set of names as a list.
pub record RequestedParams : Type 0 where
  pub parameters : List Text
  pub query : List Text
  pub headers : List Text
  pub cookies : List Text
  pub body : List Text

-- `StringSet.Contains`
unfoldable pub contains : List Text → Text → Bool
contains names s = any (λ n. text_eq n s) names

-- `CallInfo`
pub record CallInfo : Type 0 where
  pub path : Text
  pub req_params : RequestedParams
  pub identifier_fields : List Text
  pub request_field_mapping : List RequestFieldMappingItem
  pub field_mapping : List FieldMappingItem
  pub method : Text
  pub action : ApiAction
  pub success_codes : List ℕ
  pub headers : List HeaderItem
  pub queries : List QueryParam
  pub tolerate_codes : List ℕ
  pub not_found_codes : List ℕ
  pub request_transform : Option JqProgram

-- `RequestConfiguration`
pub record RequestConfiguration : Type 0 where
  pub parameters : List (Text × Text)
  pub query : List (Text × Text)
  pub headers : List (Text × Text)
  pub cookies : List (Text × Text)
  pub body : Value
  pub method : Text
  pub success_codes : List ℕ
  pub tolerate_codes : List ℕ
  pub not_found_codes : List ℕ
  pub sensitive_values : List Text

-- The request under construction: its body stands apart until the end.
pub record Draft : Type 0 where
  pub request : RequestConfiguration
  pub body : Fields

set_parameter : Text → Text → Draft → Draft
set_parameter k v d = record d {
  request = record (d.request) { parameters = insert k v (d.request).parameters };
}

set_query : Text → Text → Draft → Draft
set_query k v d = record d { request = record (d.request) { query = insert k v (d.request).query } }

set_body : Externals → Value → List Text → Draft → Draft
set_body x v segs d = elim (set_nested (sprint x) (obj d.body) (deep_copy x v) segs) [
  | ok (obj fs) ↦ record d { body = fs }
  | ok _ ↦ d
  | err e ↦ d
]

-- A flat target is a path of one segment.
abbrev single : Result (List Text) → Option Text
single (ok (seg ∷ [])) = some seg
single _ = none

abbrev some_segments : Result (List Text) → Option (List Text)
some_segments (ok (seg ∷ segs)) = some (seg ∷ segs)
some_segments _ = none

-- Write a value to the first target that an entry names: path, query or body.
unfoldable pub write_target : Externals → Text → Text → Text → Value → Draft → Draft
unfolding set_parameter set_query set_body
write_target x in_path in_query in_body v d =
    if not (is_empty in_path)
    then elim (single (parse_path x.split in_path)) [
      | none ↦ d
      | some name ↦ set_parameter name (sprint x v) d
    ]
    else if not (is_empty in_query)
    then elim (single (parse_path x.split in_query)) [
      | none ↦ d
      | some name ↦ set_query name (sprint x v) d
    ]
    else if not (is_empty in_body)
    then elim (some_segments (parse_path x.split in_body)) [
      | none ↦ d
      | some segs ↦ set_body x v segs d
    ]
    else d

-- The value at a path of the custom resource, where there is one.
unfoldable pub read_resource : Externals → Fields → Text → Option Value
read_resource x mg path = elim (some_segments (parse_path x.split path)) [
  | none ↦ none
  | some segs ↦ elim (get_nested (sprint x) (obj mg) segs) [
    | ok (some v) ↦ some v
    | ok none ↦ none
    | err e ↦ none
  ]
]

-- `applyRequestFieldMapping`
unfoldable pub apply_request_field_mapping :
    Externals → Fields → List RequestFieldMappingItem → Draft → Draft
apply_request_field_mapping x mg [] d = d
apply_request_field_mapping x mg (m ∷ ms) d =
    apply_request_field_mapping x mg ms (elim (read_resource x mg m.in_custom_resource) [
      | none ↦ d
      | some v ↦ write_target x m.in_path m.in_query m.in_body v d
    ])

abbrev is_text : Value → Option Text
is_text (str s) = some s
is_text _ = none

-- A resolved secret is remembered for redaction.
remember : FieldResolver → Value → Draft → Draft
remember r v d =
    if text_eq r.kind (codes "secretRef")
    then elim (is_text v) [
      | none ↦ d
      | some s ↦ record d {
        request = record (d.request) { sensitive_values = (d.request).sensitive_values ++ s ∷ [] };
      }
    ]
    else d

-- The value that an entry sends and the draft with its secret noted; `none` skips the entry.
unfoldable pub mapping_source :
    Externals → Fields → List (Text × Value) → FieldMappingItem → Draft → Option (Value × Draft)
unfolding remember
mapping_source x mg resolved m d = elim m.resolver [
  | some r ↦ elim (lookup (resolver_key m) resolved) [
    | none ↦ none
    | some v ↦ some (v, remember r v d)
  ]
  | none ↦ elim (read_resource x mg m.in_custom_resource) [ none ↦ none | some v ↦ some (v, d) ]
]

-- Only aliases transform a value on its way out.
unfoldable pub mapped_out : Externals → Option ValueMapping → Value → Option Value
mapped_out x none v = some v
mapped_out x (some m) v =
    if text_eq m.kind (codes "alias")
    then some (apply_alias x v m.aliases Direction.request_cr_to_api)
    else none

unfoldable pub apply_mapping_entry :
    Externals → Fields → List (Text × Value) → FieldMappingItem → Draft → Draft
apply_mapping_entry x mg resolved m d = elim (mapping_source x mg resolved m d) [
  | none ↦ d
  | some (v, noted) ↦ elim (mapped_out x m.value_mapping v) [
    | none ↦ noted
    | some w ↦ write_target x m.in_path m.in_query m.in_body w noted
  ]
]

-- `applyFieldMapping`
unfoldable pub apply_field_mapping :
    Externals → Fields → List (Text × Value) → List FieldMappingItem → Draft → Draft
apply_field_mapping x mg resolved [] d = d
apply_field_mapping x mg resolved (m ∷ ms) d =
    apply_field_mapping x mg resolved ms
      (if is_request_entry m then apply_mapping_entry x mg resolved m d else d)
