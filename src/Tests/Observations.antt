-- ===== src/Tests/Observations.antt =====
-- A RESTAction that composes a status, and a spec that is compared.
use krateo_rest_dynamic_cont.Base.{refl, true, [], none, some, codes, lookup, ok, pos}
use krateo_rest_dynamic_cont.Value.{int, end, field}
use krateo_rest_dynamic_cont.Definition.{ApiRef}
use krateo_rest_dynamic_cont.Handler.{World, ◌>>=◌, set_condition, update_status_of}
use krateo_rest_dynamic_cont.Handler.Delegation.{invoke, write_observed_status}
use krateo_rest_dynamic_cont.Handler.Requeue.{Observation, async_operation_in_flight}
use krateo_rest_dynamic_cont.Handler.Observing.{
  observe_via_rest_action, observe_with, judge, judge_found, project_observed, write_status,
  eval_bool_predicate, up_to_date_by,
}
use krateo_rest_dynamic_cont.Handler.Judging.{Judged, observe_via_rest_action_ok}
use krateo_rest_dynamic_cont.Tests.{sample}
use krateo_rest_dynamic_cont.Tests.Handling.{accepting, start}

abbrev composing : World
composing = record accepting {
  resolve = some (λ trace ref extras. ok (field (codes "id") (int (pos 7)) end));
}

abbrev observing : ApiRef
observing = record {
  name = codes "observe";
  namespace = codes "ns";
  extras = end;
  not_found_expr = none;
  up_to_date_expr = some (record { inline = []; ref = []; entrypoint = [] });
}

abbrev in_sync : Observation
in_sync = record { exists = true; up_to_date = true }

observe_via_rest_action_ok_example :
    Judged composing sample observing [] start in_sync
      (observe_via_rest_action composing sample (some observing) [] start).1
unfolding observe_via_rest_action observe_with judge judge_found project_observed write_status
    eval_bool_predicate up_to_date_by invoke write_observed_status set_condition update_status_of
    async_operation_in_flight lookup ◌>>=◌
observe_via_rest_action_ok_example =
    observe_via_rest_action_ok composing sample observing [] start
      (observe_via_rest_action composing sample (some observing) [] start).1 in_sync refl
