-- ===== src/Tests/Bodies.antt =====
-- Concrete bodies for the comparison, the deep copy and the request builder.
use krateo_rest_dynamic_cont.Base.{
  ◌≡◌, ◌↔◌, refl, List, [], ◌∷◌, none, some, codes, lookup, or_else, contains_byte, ok, pos,
  text_eq,
}
use krateo_rest_dynamic_cont.Value.{str, int, obj, arr, nil, cons, Fields, end, field, entries}
use krateo_rest_dynamic_cont.Comparison.{equal, compare_existing}
use krateo_rest_dynamic_cont.Comparison.Agrees.{Agrees}
use krateo_rest_dynamic_cont.Comparison.Agreement.{HasUniqueFields, compare_existing_iff}
use krateo_rest_dynamic_cont.DeepCopy.{deep_copy}
use krateo_rest_dynamic_cont.DeepCopy.Copies.{
  key, index, field_at, item_at, value_at, Copied, value_at-deep_copy,
}
use krateo_rest_dynamic_cont.Builder.{ApiAction, CallInfo}
use krateo_rest_dynamic_cont.Builder.Addressing.{
  Part, literal, placeholder, write_parts, Missing, unresolved_path_params,
  unresolved_path_params-Missing,
}
use krateo_rest_dynamic_cont.Builder.Calls.{static_request, populated, fields_or_empty}
use krateo_rest_dynamic_cont.Builder.Precedence.{offered, asks_for, lookup-populated}
use krateo_rest_dynamic_cont.Tests.{sample}

abbrev desired : Fields
desired = field (codes "size") (int (pos 3)) (field (codes "name") (str (codes "a")) end)

abbrev observed : Fields
observed = field (codes "name") (str (codes "a")) (field (codes "size") (int (pos 3)) end)

compare_existing_iff_example :
    (compare_existing sample desired (entries observed) ≡ ok equal)
    ↔ Agrees sample (obj desired) (obj observed)
unfolding lookup text_eq HasUniqueFields
compare_existing_iff_example =
    compare_existing_iff sample desired observed (refl, tt, (refl, tt, tt))

value_at-deep_copy_example :
    Copied sample (some (str (codes "a"))) (
      value_at
        (index 0 ∷ key (codes "name") ∷ [])
        (deep_copy sample (arr (cons (obj desired) nil))))
unfolding value_at item_at field_at text_eq
value_at-deep_copy_example =
    value_at-deep_copy sample (index 0 ∷ key (codes "name") ∷ []) (arr (cons (obj desired) nil))

abbrev template : List Part
template = literal (codes "/users/") ∷ placeholder (codes "id") ∷ []

unresolved_path_params-Missing_example :
    Missing [] template (unresolved_path_params (write_parts template) [])
unfolding contains_byte
unresolved_path_params-Missing_example =
    unresolved_path_params-Missing [] template (refl, (refl, tt))

abbrev reading : CallInfo
reading = record {
  path = codes "/users/{id}";
  req_params = record {
    parameters = codes "id" ∷ [];
    query = [];
    headers = [];
    cookies = [];
    body = [];
  };
  identifier_fields = codes "id" ∷ [];
  request_field_mapping = [];
  field_mapping = [];
  method = codes "GET";
  action = ApiAction.get;
  success_codes = [];
  headers = [];
  queries = [];
  tolerate_codes = [];
  not_found_codes = [];
  request_transform = none;
}

abbrev resource : Fields
resource = field (codes "status") (obj (field (codes "id") (int (pos 7)) end)) end

lookup-populated_example :
    lookup (codes "id") ((populated sample reading resource end).request).parameters
    ≡ or_else
        (or_else (lookup (codes "id") (static_request sample reading end).parameters) (
          offered sample
            (asks_for (reading.req_params).parameters (codes "id"))
            (lookup (codes "id") (fields_or_empty (sample.get_fields resource (codes "spec"))))))
        (offered sample
          (asks_for (reading.req_params).parameters (codes "id"))
          (lookup (codes "id") (fields_or_empty (sample.get_fields resource (codes "status")))))
lookup-populated_example = lookup-populated sample reading resource end (codes "id")
