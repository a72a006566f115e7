-- ===== src/Tests/Requeueing.antt =====
-- A world whose resources keep their annotations as text fields, and an operation that is polled in it.
use krateo_rest_dynamic_cont.Base.{
  ◌≡◌, refl, sym, ap, ◌∙◌, arith, true, false, List, [], ◌∷◌, Option, none, some, Text, text_eq,
  codes, is_empty, lookup, insert, delete, lookup-insert, lookup-delete, equal_fold, to_lower, ok,
  ok-injective,
}
use krateo_rest_dynamic_cont.Value.{str, obj, null, Fields, end, field}
use krateo_rest_dynamic_cont.Definition.{AsyncConfig, VerbsDescription, Info}
use krateo_rest_dynamic_cont.Async.{
  render_scalar, classify_status, contains_fold, extract_operation_handle, raw_handle,
  handle_in_header, header_get, refine, scalar_to_string,
}
use krateo_rest_dynamic_cont.Path.Parse.{parser}
use krateo_rest_dynamic_cont.Builder.Calls.{find_verb, api_call_builder}
use krateo_rest_dynamic_cont.Handler.{Response, World, Trace, ◌>>=◌, patch_annotations, call}
use krateo_rest_dynamic_cont.Handler.Waiting.{
  extract_poll_status, status_at, poll_status, trigger_handle, async_config_for_action,
}
use krateo_rest_dynamic_cont.Handler.Requeue.{
  Observation, async_operation_in_flight, record_async_operation, drive_async_requeue, advance,
  poll_async_once, poll_base_from_record, base_from_get, drive_with, clear_async_operation,
}
use krateo_rest_dynamic_cont.Handler.Record.{IsMerge, record_async_operation-in_flight}
use krateo_rest_dynamic_cont.Handler.Advance.{Advanced, drive_async_requeue_ok}
use krateo_rest_dynamic_cont.Tests.{split_at_dots, read_one, sample, polling, by_header}
use krateo_rest_dynamic_cont.Tests.Handling.{
  info, users, deleting, client, accepting, start, request,
}

abbrev texts_of : Fields → List (Text × Text)
texts_of end = []
texts_of (field k (str v) fs) = (k, v) ∷ texts_of fs
texts_of (field k v fs) = texts_of fs

abbrev of_texts : List (Text × Text) → Fields
of_texts [] = end
of_texts ((k, v) ∷ m) = field k (str v) (of_texts m)

texts_of-of_texts : (m : List (Text × Text)) → texts_of (of_texts m) ≡ m
texts_of-of_texts [] = refl
texts_of-of_texts ((k, v) ∷ m) = ap (λ r. (k, v) ∷ r) (texts_of-of_texts m)

abbrev put_or_drop : Text → Option Text → List (Text × Text) → List (Text × Text)
put_or_drop k none m = delete k m
put_or_drop k (some v) m = insert k v m

abbrev merge : List (Text × Option Text) → List (Text × Text) → List (Text × Text)
merge [] m = m
merge ((k, o) ∷ p) m = put_or_drop k o (merge p m)

merge-IsMerge : (p : List (Text × Option Text)) (m : List (Text × Text)) → IsMerge p m (merge p m)
unfolding lookup
merge-IsMerge [] m k = refl
merge-IsMerge ((j, none) ∷ p) m k =
    lookup-delete j k (merge p m) ∙ ground (arith, merge-IsMerge p m k)
merge-IsMerge ((j, some v) ∷ p) m k =
    lookup-insert j k v (merge p m) ∙ ground (arith, merge-IsMerge p m k)

abbrev pub annotated : World
annotated = record accepting {
  annotations = texts_of;
  patch = λ trace p mg. ok (of_texts (merge p (texts_of mg)));
}

annotated_merges :
    (trace : Trace) (p : List (Text × Option Text)) (mg mg' : Fields)
    → annotated.patch trace p mg ≡ ok mg'
    → IsMerge p (annotated.annotations mg) (annotated.annotations mg')
annotated_merges trace p mg mg' h k =
    ap (λ m. lookup k (texts_of m)) (sym (ok-injective h))
    ∙ ap (lookup k) (texts_of-of_texts (merge p (texts_of mg)))
    ∙ merge-IsMerge p (texts_of mg) k

abbrev in_header : AsyncConfig
in_header = record {
  mode = codes "requeue";
  operation_ref = by_header;
  poll = polling;
  post_get = false;
}

abbrev pub triggered : Response
triggered = record {
  body = null;
  headers = some ((codes "Operation-Id", codes "op-7") ∷ []);
  status_code = 202;
}

record_async_operation-in_flight_example :
    (id : Text) × (trigger_handle sample in_header triggered ≡ ok id)
    × (async_operation_in_flight annotated
          (record_async_operation annotated sample in_header
            (codes "create")
            triggered
            request
            start).1.mg
        ≡ (id, codes "create"))
    × (is_empty id ≡ false)
unfolding record_async_operation trigger_handle extract_operation_handle raw_handle handle_in_header
    header_get refine scalar_to_string text_eq to_lower equal_fold ◌>>=◌ patch_annotations
record_async_operation-in_flight_example =
    record_async_operation-in_flight annotated annotated_merges sample (λ n. refl) in_header
      (codes "create") triggered request start
      (record_async_operation annotated sample in_header (codes "create") triggered request start).1
      refl

-- An operation that is still running.
abbrev running : World
running = record annotated {
  answer = λ trace path req. ok (record {
    body = obj (field (codes "status") (str (codes "running")) end);
    headers = none;
    status_code = 200;
  });
}

abbrev creating : VerbsDescription
creating = record deleting { action = codes "create"; async = some in_header }

abbrev pub requeued : Info
requeued = record info { resource = record users { verbs_description = creating ∷ [] } }

abbrev ready : Observation
ready = record { exists = true; up_to_date = true }

drive_async_requeue_ok_example :
    Advanced running sample client requeued
      (codes "op-7")
      start
      (async_config_for_action (requeued.resource).verbs_description (codes "create"))
      (some ready)
      (drive_async_requeue running sample client requeued (codes "op-7") (codes "create") start).1
unfolding drive_async_requeue drive_with clear_async_operation async_config_for_action find_verb
    equal_fold to_lower text_eq ◌>>=◌ lookup advance poll_async_once poll_base_from_record
    base_from_get api_call_builder call poll_status extract_poll_status status_at parser
    split_at_dots read_one render_scalar classify_status contains_fold
drive_async_requeue_ok_example =
    drive_async_requeue_ok running sample client requeued (codes "op-7") (codes "create") start
      (drive_async_requeue running sample client requeued (codes "op-7") (codes "create") start).1
      (some ready) refl
