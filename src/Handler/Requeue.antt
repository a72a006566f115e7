-- ===== src/Handler/Requeue.antt =====
-- internal/controllers/async_requeue.go: an operation that is polled once in each reconcile, its
-- handle kept in annotations; with populateStatusFields of helpers.go.
use krateo_rest_dynamic_cont.Base.{
  Bool, true, false, List, [], ◌∷◌, ◌++◌, Option, none, some, if◌then◌else◌, Text, codes,
  equal_fold, is_empty, lookup, Error, Result, ok, err,
}
use krateo_rest_dynamic_cont.Value.{Value, null, obj, Fields, end}
use krateo_rest_dynamic_cont.Definition.{AsyncConfig, PollConfig, Info}
use krateo_rest_dynamic_cont.Externals.{Externals}
use krateo_rest_dynamic_cont.DeepCopy.{deep_copy}
use krateo_rest_dynamic_cont.Path.Parse.{parse_path}
use krateo_rest_dynamic_cont.Async.{PollOutcome, pending, succeeded, failed, classify_status}
use krateo_rest_dynamic_cont.Mapping.Response.{normalize_response_body}
use krateo_rest_dynamic_cont.Builder.{RequestConfiguration, get}
use krateo_rest_dynamic_cont.Builder.Calls.{Client, api_call_builder, build_call_config}
use krateo_rest_dynamic_cont.Handler.{
  Response, Condition, Reason, Effect, World, M, pure, lift, fail, ◌>>=◌, emit, put_resource,
  update_status_of, patch_annotations, set_condition, call,
}
use krateo_rest_dynamic_cont.Handler.Waiting.{
  async_config_for_action, object_of, poll_status, trigger_handle, build_poll_request,
}

-- `ExternalObservation`
pub record Observation : Type 0 where
  pub exists : Bool
  pub up_to_date : Bool

abbrev pub operation_id_key : Text
operation_id_key = codes "krateo.io/async-operation-id"

abbrev pub operation_action_key : Text
operation_action_key = codes "krateo.io/async-operation-action"

abbrev pub operation_params_key : Text
operation_params_key = codes "krateo.io/async-operation-params"

-- `asyncRequeueEnabled`
unfoldable pub async_requeue_enabled : Option AsyncConfig → Bool
async_requeue_enabled none = false
async_requeue_enabled (some cfg) = equal_fold cfg.mode (codes "requeue")

abbrev pub or_blank : Option Text → Text
or_blank none = []
or_blank (some s) = s

-- `asyncOperationInFlight`
unfoldable pub async_operation_in_flight : World → Fields → Text × Text
async_operation_in_flight w mg = (
  or_blank (lookup operation_id_key (w.annotations mg)),
  or_blank (lookup operation_action_key (w.annotations mg)),
)

-- The annotations of a new operation: the inputs of its polls are kept where they can be encoded.
unfoldable pub record_patch : World → Text → Text → RequestConfiguration → List (Text × Option Text)
record_patch w id action req =
    (operation_id_key, some id)
    ∷ (operation_action_key, some action)
    ∷ (elim (w.marshal_inputs req.parameters req.query) [
      | none ↦ []
      | some raw ↦ (operation_params_key, some raw) ∷ []
    ])

-- `recordAsyncOperation`
unfoldable pub record_async_operation :
    World → Externals → AsyncConfig → Text → Response → RequestConfiguration → M (Unit {0})
record_async_operation w x cfg action resp req =
    lift (trigger_handle x cfg resp) >>= λ id. patch_annotations w (record_patch w id action req)

abbrev pub clear_patch : List (Text × Option Text)
clear_patch =
    (operation_id_key, none) ∷ (operation_action_key, none) ∷ (operation_params_key, none) ∷ []

-- `clearAsyncOperation`
unfoldable pub clear_async_operation : World → M (Unit {0})
clear_async_operation w s = elim (lookup operation_id_key (w.annotations s.mg)) [
  | none ↦ (ok tt, s)
  | some id ↦ patch_annotations w clear_patch s
]

unfoldable pub base_from_get : Externals → Client → Info → Fields → Option RequestConfiguration
base_from_get x cli info mg = elim (api_call_builder cli info get) [
  | err e ↦ none
  | ok none ↦ none
  | ok (some (c, v)) ↦ some (build_call_config x c mg info.configuration_spec [])
]

-- A request that has only path parameters and a query.
abbrev recorded : List (Text × Text) × List (Text × Text) → RequestConfiguration
recorded inputs = record {
  parameters = inputs.0;
  query = inputs.1;
  headers = [];
  cookies = [];
  body = null;
  method = [];
  success_codes = [];
  tolerate_codes = [];
  not_found_codes = [];
  sensitive_values = [];
}

-- `pollBaseFromRecord`
unfoldable pub poll_base_from_record :
    World → Externals → Client → Info → Fields → Option RequestConfiguration
poll_base_from_record w x cli info mg =
    let raw = or_blank (lookup operation_params_key (w.annotations mg)) in
    let fallback = base_from_get x cli info mg in
    if is_empty raw
    then fallback
    else elim (w.unmarshal_inputs raw) [ none ↦ fallback | some inputs ↦ some (recorded inputs) ]

abbrev pub classified : PollConfig → Result Text → Result (PollOutcome × Text)
classified cfg (err e) = err e
classified cfg (ok status) = ok (classify_status cfg status, status)

-- `pollAsyncOnce`
unfoldable pub poll_async_once :
    World → Externals → Client → Info → AsyncConfig → Text → M (PollOutcome × Text)
poll_async_once w x cli info cfg id s =
    let base = poll_base_from_record w x cli info s.mg in
    let req = build_poll_request (cfg.poll).method (cfg.poll).handle_param id base in
    let polled = call w (cfg.poll).path req s in
    (classified cfg.poll (poll_status x cfg.poll polled.0), polled.1)

-- One field of `populateStatusFields`; what the body lacks is skipped.
unfoldable pub populate_field : Externals → Fields → Result (List Text) → Fields → Result Fields
populate_field x body (err e) mg = ok mg
populate_field x body (ok []) mg = ok mg
populate_field x body (ok (seg ∷ segs)) mg = elim (x.nested_field body (seg ∷ segs)) [
  | err e ↦ ok mg
  | ok none ↦ ok mg
  | ok (some v) ↦ x.set_field mg (deep_copy x v) (codes "status" ∷ seg ∷ segs)
]

unfoldable pub populate_fields : Externals → Fields → List Text → Fields → Result Fields
populate_fields x body [] mg = ok mg
populate_fields x body (name ∷ names) mg =
    elim (populate_field x body (parse_path x.split name) mg) [
      | err e ↦ err e
      | ok mg' ↦ populate_fields x body names mg'
    ]

-- `populateStatusFields`; the fields before a failing one stay written in Go, and the error is
-- returned before anything of them is stored.
unfoldable pub populate_status_fields : Externals → Info → Fields → Fields → Result Fields
populate_status_fields x info body mg =
    populate_fields x body ((info.resource).identifiers ++ (info.resource).additional_status_fields)
      mg

abbrev pub fields_of : Value → Fields
fields_of (obj fs) = fs
fields_of _ = end

unfoldable pub populate_status : Externals → Info → Fields → M (Unit {0})
populate_status x info body s = put_resource (populate_status_fields x info body s.mg) s

-- `reReadStatusOnAsyncSuccess` after its get call; a body that is no object is left.
unfoldable pub store_status : World → Externals → Info → Option Fields → M (Unit {0})
store_status w x info none = pure tt
store_status w x info (some body) = do
  whole ← lift (normalize_response_body x (info.resource).verbs_description (codes "get") body)
  populated ← populate_status x info (fields_of whole)
  update_status_of w

-- `reReadStatusOnAsyncSuccess`
unfoldable pub re_read_status : World → Externals → Client → Info → M (Unit {0})
re_read_status w x cli info s = elim (api_call_builder cli info get) [
  | err e ↦ (ok tt, s)
  | ok none ↦ (ok tt, s)
  | ok (some (c, v)) ↦
      (call w c.path (build_call_config x c s.mg info.configuration_spec []) >>= λ resp.
      store_status w x info (object_of resp.body))
        s
]

unfoldable pub re_read_if : Bool → World → Externals → Client → Info → M (Unit {0})
re_read_if true w x cli info = re_read_status w x cli info
re_read_if false w x cli info = pure tt

-- What follows a poll, by its outcome. `none` leaves the reconcile to a normal observe.
unfoldable pub advance :
    World → Externals → Client → Info → AsyncConfig → PollOutcome → M (Option Observation)
advance w x cli info cfg succeeded = do
  read ← re_read_if cfg.post_get w x cli info
  cleared ← clear_async_operation w
  pure none
advance w x cli info cfg failed = do
  marked ← set_condition w Condition.unavailable
  updated ← update_status_of w
  cleared ← clear_async_operation w
  event ← emit (Effect.warned Reason.async_failed)
  fail Error.terminal_failure
advance w x cli info cfg pending = pure (some (record { exists = true; up_to_date = true }))

unfoldable pub drive_with :
    World → Externals → Client → Info → Text → Option AsyncConfig → M (Option Observation)
drive_with w x cli info id none = clear_async_operation w >>= λ cleared. pure none
drive_with w x cli info id (some cfg) =
    poll_async_once w x cli info cfg id >>= λ polled. advance w x cli info cfg polled.0

-- `driveAsyncRequeue`
unfoldable pub drive_async_requeue :
    World → Externals → Client → Info → Text → Text → M (Option Observation)
drive_async_requeue w x cli info id action =
    drive_with w x cli info id (async_config_for_action (info.resource).verbs_description action)
