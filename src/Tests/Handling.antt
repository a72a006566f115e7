-- ===== src/Tests/Handling.antt =====
-- A world in which the external API accepts a delete.
use krateo_rest_dynamic_cont.Base.{
  ◌≡◌, refl, false, if◌then◌else◌, [], ◌∷◌, none, some, codes, text_eq, equal_fold, to_lower,
  lookup, Error, ok, err,
}
use krateo_rest_dynamic_cont.Value.{null, end}
use krateo_rest_dynamic_cont.Definition.{VerbsDescription, Resource, Info}
use krateo_rest_dynamic_cont.Builder.{RequestConfiguration}
use krateo_rest_dynamic_cont.Builder.Calls.{Client, find_verb, api_call_builder, call_of}
use krateo_rest_dynamic_cont.Builder.Addressing.{unresolved_path_params, unresolved_from}
use krateo_rest_dynamic_cont.Mapping.{apply_request_transform}
use krateo_rest_dynamic_cont.Handler.{
  World, State, delete_secret_ref_rbac, set_condition, call, ◌>>=◌,
}
use krateo_rest_dynamic_cont.Handler.Waiting.{
  build_poll_request, or_default, default_handle_param, lookup-build_poll_request,
  async_config_for_action,
}
use krateo_rest_dynamic_cont.Handler.Deleting.{
  delete_resource, delete_defined, delete_with, delete_by, delete_by_call, delete_call, addressed,
  release_or_send, send_delete, await_delete, wait_for, finish_delete, resolve_or_nothing,
  ensure_and_resolve,
}
use krateo_rest_dynamic_cont.Handler.Reasons.{LetGo}
use krateo_rest_dynamic_cont.Handler.Release.{delete_resource_ok}
use krateo_rest_dynamic_cont.Tests.{sample}

abbrev pub request : RequestConfiguration
request = record {
  parameters = (codes "org", codes "o1") ∷ [];
  query = [];
  headers = [];
  cookies = [];
  body = null;
  method = codes "POST";
  success_codes = [];
  tolerate_codes = [];
  not_found_codes = [];
  sensitive_values = [];
}

lookup-build_poll_request_example :
    lookup
      (codes "org")
      (build_poll_request [] (codes "id") (codes "op-7") (some request)).parameters
    ≡ (if text_eq (or_default default_handle_param (codes "id")) (codes "org")
        then some (codes "op-7")
        else lookup (codes "org") request.parameters)
lookup-build_poll_request_example =
    lookup-build_poll_request [] (codes "id") (codes "op-7") (codes "org") request

abbrev pub deleting : VerbsDescription
deleting = record {
  action = codes "delete";
  method = codes "DELETE";
  path = codes "/users";
  request_field_mapping = [];
  field_mapping = [];
  request_transform = none;
  response_transform = none;
  identifiers_match_policy = [];
  pagination = none;
  success_codes = [];
  headers = [];
  queries = [];
  tolerate_codes = [];
  not_found_codes = [];
  not_found_body = none;
  async = none;
}

abbrev pub users : Resource
users = record {
  kind = codes "User";
  identifiers = [];
  additional_status_fields = [];
  compare_scope = [];
  verbs_description = deleting ∷ [];
  observe_api_ref = none;
  create_api_ref = none;
  delete_api_ref = none;
  update_api_ref = none;
}

abbrev pub info : Info
info = record { url = codes "http://api"; resource = users; configuration_spec = end }

abbrev pub client : Client
client = record {
  requested_params = λ method path.
      ok (record { parameters = []; query = []; headers = []; cookies = []; body = [] });
  requested_body = λ method path. ok none;
  validate_request = λ method path req. ok tt;
  updatable_body_paths = λ method path. ok [];
}

abbrev pub accepting : World
accepting = record {
  definition = λ mg. ok info;
  build_client = λ trace url. ok client;
  answer = λ trace path req. ok (record { body = null; headers = none; status_code = 200 });
  find = λ trace policy v path req. err (Error.status 404);
  resolve = none;
  provision = λ trace info mg expect. ok tt;
  get_secret = λ trace name key. err Error.not_a_string;
  teardown = λ trace. ok tt;
  set_conditions = λ c mg. ok mg;
  is_condition_set = λ c mg. false;
  annotations = λ mg. [];
  patch = λ trace p mg. ok mg;
  refresh = λ trace mg. ok mg;
  update_status = λ trace mg. ok mg;
  marshal_inputs = λ parameters query. none;
  unmarshal_inputs = λ s. none;
  name = λ mg. codes "u";
  namespace = λ mg. codes "ns";
  uid = λ mg. codes "1";
  expired = λ trace i. false;
  interrupted = λ trace i. false;
}

abbrev pub start : State
start = record { mg = end; trace = [] }

delete_resource_ok_example : LetGo accepting sample start
unfolding delete_resource delete_defined delete_with delete_by delete_by_call delete_call addressed
    release_or_send send_delete await_delete wait_for finish_delete resolve_or_nothing
    ensure_and_resolve api_call_builder call_of find_verb equal_fold to_lower text_eq
    unresolved_path_params unresolved_from async_config_for_action call set_condition
    delete_secret_ref_rbac ◌>>=◌ apply_request_transform
delete_resource_ok_example =
    delete_resource_ok accepting sample start (delete_resource accepting sample start).1 refl
