-- ===== src/Tests/Changing.antt =====
-- A create that goes on in later reconciles, an update that the API answers, and an observation of a
-- resource that has drifted.
use krateo_rest_dynamic_cont.Base.{refl, [], ◌∷◌, none, codes, equal_fold, lookup, ok}
use krateo_rest_dynamic_cont.Async.{
  scalar_to_string, refine, header_get, handle_in_header, raw_handle, extract_operation_handle,
}
use krateo_rest_dynamic_cont.Builder.Calls.{is_resource_known, call_of, find_verb, api_call_builder}
use krateo_rest_dynamic_cont.Comparison.{
  infer_type, inferred_equal, parse_int, infer_plain, trim_space, infer_trimmed, compare_any,
  compare_existing,
}
use krateo_rest_dynamic_cont.Definition.{VerbsDescription, Info}
use krateo_rest_dynamic_cont.Externals.{sprint}
use krateo_rest_dynamic_cont.Handler.{
  update_status_of, push_status, set_condition, patch_annotations, call, refresh_resource, ◌>>=◌,
  State, World,
}
use krateo_rest_dynamic_cont.Handler.Deleting.{read_secrets, provision_secrets}
use krateo_rest_dynamic_cont.Handler.Evidence.{Rests}
use krateo_rest_dynamic_cont.Handler.Observing.{
  is_cr_updated, not_found_body_for_action, observe_via_rest_action,
}
use krateo_rest_dynamic_cont.Handler.Requeue.{
  populate_fields, populate_status_fields, populate_status, record_async_operation,
  async_requeue_enabled, async_operation_in_flight,
}
use krateo_rest_dynamic_cont.Handler.Seeing.{
  report, compared, scope_fields, see_body, see_unless, says_absent, see_answer, see_known, see_by,
  see_remote, poll_in_flight, polled, observe_with, handled_or, observe_defined, drifted,
  observe_resource,
}
use krateo_rest_dynamic_cont.Handler.Seen.{observe_resource_ok}
use krateo_rest_dynamic_cont.Handler.Waiting.{trigger_handle, async_config_for_action}
use krateo_rest_dynamic_cont.Handler.Writing.{
  store_updated, conclude, store_body, clear_status, store_created, follow_with, follow,
  update_call, update_by, update_with, transformed_request, send_change, create_call, create_by,
  create_with, create_resource, update_resource,
}
use krateo_rest_dynamic_cont.Handler.Written.{
  Created, Updated, create_resource_ok, update_resource_ok,
}
use krateo_rest_dynamic_cont.Mapping.{
  apply_request_transform, resolve_loop, resolve_request_resolvers,
}
use krateo_rest_dynamic_cont.Mapping.Response.{
  remove_sources, write_entries, response_entries, resolve_entries, verbs_for,
  document_response_transforms, apply_document_transforms, normalize_response_body,
}
use krateo_rest_dynamic_cont.Tests.{sample}
use krateo_rest_dynamic_cont.Tests.Handling.{info, users, deleting, accepting, start}
use krateo_rest_dynamic_cont.Tests.Requeueing.{annotated, requeued, triggered}
use krateo_rest_dynamic_cont.Value.{obj, str, end, field}

abbrev triggering : World
triggering = record annotated {
  definition = λ mg. ok requeued;
  answer = λ trace path req. ok triggered;
}

create_resource_ok_example :
    Created triggering sample start (create_resource triggering sample start).1
unfolding create_resource ◌>>=◌ create_with create_by create_call api_call_builder find_verb
    equal_fold call_of send_change provision_secrets read_secrets resolve_request_resolvers
    resolve_loop transformed_request apply_request_transform update_resource update_with update_by
    update_call observe_resource observe_defined refresh_resource observe_via_rest_action handled_or
    observe_with polled poll_in_flight async_operation_in_flight lookup see_remote see_by
    is_resource_known call follow follow_with async_config_for_action async_requeue_enabled
    record_async_operation trigger_handle extract_operation_handle raw_handle handle_in_header
    header_get refine scalar_to_string patch_annotations store_created clear_status store_body
    conclude set_condition push_status
create_resource_ok_example =
    create_resource_ok triggering sample start (create_resource triggering sample start).1 refl

abbrev updating : VerbsDescription
updating = record deleting { action = codes "update"; method = codes "PUT" }

abbrev getting : VerbsDescription
getting = record deleting { action = codes "get"; method = codes "GET" }

abbrev updatable : Info
updatable = record info { resource = record users { verbs_description = getting ∷ updating ∷ [] } }

-- A resource whose name the API has otherwise.
abbrev renamed : State
renamed = record {
  mg = field (codes "spec") (obj (field (codes "name") (str (codes "new")) end)) end;
  trace = [];
}

abbrev answering : World
answering = record accepting {
  definition = λ mg. ok updatable;
  answer = λ trace path req. ok (record {
    body = obj (field (codes "name") (str (codes "old")) end);
    headers = none;
    status_code = 200;
  });
}

update_resource_ok_example :
    Updated answering sample renamed (update_resource answering sample renamed).1
unfolding update_resource ◌>>=◌ update_with update_by update_call api_call_builder find_verb
    equal_fold call_of send_change provision_secrets read_secrets resolve_request_resolvers
    resolve_loop transformed_request apply_request_transform call follow follow_with
    async_config_for_action store_updated clear_status store_body normalize_response_body
    apply_document_transforms document_response_transforms verbs_for resolve_entries
    response_entries write_entries populate_status populate_status_fields populate_fields conclude
    set_condition push_status
update_resource_ok_example =
    update_resource_ok answering sample renamed (update_resource answering sample renamed).1 refl

observe_resource_ok_example : Rests answering sample renamed drifted
unfolding observe_resource ◌>>=◌ observe_defined refresh_resource observe_via_rest_action handled_or
    observe_with polled poll_in_flight async_operation_in_flight lookup see_remote see_by
    is_resource_known api_call_builder find_verb equal_fold call_of see_known see_answer call
    says_absent not_found_body_for_action see_unless see_body normalize_response_body
    apply_document_transforms document_response_transforms verbs_for resolve_entries
    response_entries write_entries populate_status populate_status_fields populate_fields
    update_status_of scope_fields compared is_cr_updated compare_existing remove_sources compare_any
    infer_type infer_trimmed trim_space sprint infer_plain parse_int report inferred_equal
observe_resource_ok_example =
    observe_resource_ok answering sample renamed (observe_resource answering sample renamed).1
      drifted refl
