-- ===== src/Tests/Granting.antt =====
-- A resource that names a Secret, and a cluster with one definition.
use krateo_rest_dynamic_cont.Base.{
  lookup, contains_any, index_byte, last_byte, contains_byte, ◌≡◌, ◌↔◌, ◌⊎◌, refl, true, All, List,
  [], ◌∷◌, ◌++◌, Option, none, some, Text, codes, text_eq, Error, Result, ok, err,
}
use krateo_rest_dynamic_cont.Builder.{contains}
use krateo_rest_dynamic_cont.Definition.{FieldMappingItem, VerbsDescription, Info}
use krateo_rest_dynamic_cont.Externals.{Externals}
use krateo_rest_dynamic_cont.Getter.{Api}
use krateo_rest_dynamic_cont.Getter.Absent.{Foreign, get_definition_not_found}
use krateo_rest_dynamic_cont.Getter.Credentials.{process_configuration_ref}
use krateo_rest_dynamic_cont.Getter.Inline.{
  InlineVerb, InlineRef, get_definition-Inline, fetch-own_namespace,
}
use krateo_rest_dynamic_cont.Getter.Lookup.{
  materialize_items, materialize_jq, materialize_verb, materialize_verbs, resolve_jq_refs,
  build_info, read_header, match_item, find_definition, get_definition,
}
use krateo_rest_dynamic_cont.Getter.Modules.{split_slash, fetch}
use krateo_rest_dynamic_cont.Mapping.{read_segments, read_string_path, resolve_request_resolvers}
use krateo_rest_dynamic_cont.Path.Nested.{get_step, get_nested}
use krateo_rest_dynamic_cont.Path.Parse.{
  parse_rest, count_dots, parse_segment_group, merge_dots, parse_groups, has_trailing_dot,
  has_consecutive_dots, parse_path,
}
use krateo_rest_dynamic_cont.Rest.Params.{add}
use krateo_rest_dynamic_cont.Secrets.{
  apply_pair, ensure_secret_role, collect_mapping, collect_verbs, Cluster, collect_secret_ref_names,
  provision,
}
use krateo_rest_dynamic_cont.Secrets.Granted.{under, granted_suffices}
use krateo_rest_dynamic_cont.Secrets.Provisioned.{Applied, provision_ok}
use krateo_rest_dynamic_cont.Tests.{split_at_dots, sample}
use krateo_rest_dynamic_cont.Tests.Handling.{info, users, deleting}
use krateo_rest_dynamic_cont.Value.{null, str, Fields, end, field}
use mathlib.Core.List.{Memᴰ}

abbrev with_secret : FieldMappingItem
with_secret = record {
  in_path = [];
  in_query = [];
  in_body = codes "token";
  in_response = [];
  in_custom_resource = codes "secret";
  value_mapping = none;
  resolver = some (record {
    kind = codes "secretRef";
    secret_ref = some (record {
      name_from_custom_resource = codes "secret";
      key_from_custom_resource = codes "key";
    });
  });
  default_if_absent = none;
}

abbrev posting : VerbsDescription
posting = record deleting { action = codes "create"; field_mapping = with_secret ∷ [] }

abbrev posted : Info
posted = record info { resource = record users { verbs_description = posting ∷ [] } }

abbrev naming : Fields
naming = field (codes "secret") (str (codes "db")) (field (codes "key") (str (codes "pw")) end)

abbrev read_any : Text → Text → Result Text
read_any name key = ok (name ++ key)

granted_suffices_example :
    resolve_request_resolvers sample
      (under (collect_secret_ref_names sample (λ ns. ns) (posting ∷ []) naming) read_any)
      (with_secret ∷ [])
      naming
    ≡ resolve_request_resolvers sample read_any (with_secret ∷ []) naming
granted_suffices_example =
    granted_suffices sample naming (λ ns. ns) read_any (posting ∷ []) posting (λ ns k. refl)
      (Memᴰ.head refl)

abbrev cluster : Cluster
cluster = record {
  resource_of = λ mg. ok (codes "users", codes "v1");
  hash = λ s. codes "0";
  has_role = λ ns role. ok true;
  apply_role = λ ns role names. ok tt;
  apply_binding = λ ns role. ok tt;
  remove_binding = λ ns role. ok tt;
  remove_role = λ ns role. ok tt;
  name = λ mg. codes "u";
  namespace = λ mg. codes "ns";
}

provision_ok_example :
    ((collect_secret_ref_names sample (λ ns. ns) (posting ∷ []) naming ≡ [])
      × ((provision cluster sample (λ ns. ns) posted naming true).1 ≡ []))
    ⊎ Applied cluster naming true
        (collect_secret_ref_names sample (λ ns. ns) (posting ∷ []) naming)
        (provision cluster sample (λ ns. ns) posted naming true).1
unfolding provision collect_secret_ref_names collect_verbs collect_mapping text_eq read_string_path
    read_segments parse_path contains_byte has_consecutive_dots has_trailing_dot last_byte
    parse_groups merge_dots split_at_dots parse_segment_group fetch split_slash get_definition
    find_definition match_item read_header build_info process_configuration_ref resolve_jq_refs
    materialize_verbs materialize_verb materialize_jq materialize_items count_dots parse_rest
    index_byte contains_any get_nested get_step lookup add contains ensure_secret_role apply_pair
provision_ok_example =
    provision_ok cluster sample (λ ns. ns) posted naming true
      (provision cluster sample (λ ns. ns) posted naming true).1 refl

-- A definition of users, whose not-found predicate is a module in its namespace.
abbrev by_module : VerbsDescription
by_module = record deleting {
  action = codes "get";
  not_found_body =
      some
        (record { inline = []; ref = codes "configmap://ns/jq/gone"; entrypoint = codes "gone" });
}

abbrev string_at : Fields → List Text → Option (Option Text)
string_at item (a ∷ b ∷ []) = some (some (codes "v"))
string_at item path = some (some (codes "User"))

abbrev pub api : Api
api = record {
  group_of = λ mg. some (codes "v");
  definitions = some (end ∷ []);
  nested_string = string_at;
  nested_string_map = λ fs path. some none;
  decode_resource = λ v. some (record users { verbs_description = by_module ∷ [] });
  kind_of = λ mg. codes "User";
  namespace_of = λ fs. codes "ns";
  configuration = λ mg ns name. none;
  secret_data = λ ns name. none;
  decode_base64 = λ s. none;
  config_map_key = λ ns name key. some (codes "def gone: .deleted;");
  download = λ url. none;
}

get_definition_not_found_example :
    (get_definition api sample end ≡ err Error.definition_not_found) ↔ (
      (group : Text) × (items : List Fields) × (some (codes "v") ≡ some group)
      × (api.definitions ≡ some items)
      × All (Foreign api sample (codes "User") group) items)
get_definition_not_found_example = get_definition_not_found api sample end

fetch-own_namespace_example :
    (name : Text) × (key : Text) × (split_slash (codes "ns/jq/gone") ≡ codes "ns" ∷ name ∷ key ∷ [])
    × (api.config_map_key (codes "ns") name key ≡ some (codes "def gone: .deleted;"))
unfolding fetch split_slash text_eq get_definition find_definition match_item read_header build_info
    process_configuration_ref resolve_jq_refs materialize_verbs materialize_verb materialize_jq
    materialize_items
fetch-own_namespace_example =
    fetch-own_namespace api (codes "configmap://ns/jq/gone") (codes "ns")
      (codes "def gone: .deleted;") refl refl refl

abbrev everywhere : Externals
everywhere = record sample { nested_field = λ fs path. ok (some null) }

abbrev inlined : VerbsDescription
inlined = record by_module {
  not_found_body = some (record {
    inline = codes "def gone: .deleted;" ++ 10 ∷ codes "gone";
    ref = [];
    entrypoint = [];
  });
}

abbrev got : Info
got = record {
  url = codes "v";
  resource = record users { verbs_description = inlined ∷ [] };
  configuration_spec = end;
}

get_definition-Inline_example : All InlineVerb (got.resource).verbs_description × InlineRef none
unfolding get_definition find_definition match_item read_header text_eq build_info
    process_configuration_ref resolve_jq_refs materialize_verbs materialize_verb materialize_jq
    fetch split_slash materialize_items
get_definition-Inline_example = get_definition-Inline api everywhere end got none refl
