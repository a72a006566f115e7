-- ===== src/Handler/Writing.antt =====
-- internal/controllers/restResources.go: Create and Update.
use krateo_rest_dynamic_cont.Base.{
  Bool, true, false, ◌||◌, List, Option, none, some, if◌then◌else◌, Text, codes, Error, Result, ok,
  err,
}
use krateo_rest_dynamic_cont.Value.{Value, null, obj}
use krateo_rest_dynamic_cont.Definition.{VerbsDescription, ApiRef, AsyncConfig, Info}
use krateo_rest_dynamic_cont.Externals.{Externals}
use krateo_rest_dynamic_cont.Mapping.{apply_request_transform}
use krateo_rest_dynamic_cont.Mapping.Response.{normalize_response_body}
use krateo_rest_dynamic_cont.Builder.{CallInfo, RequestConfiguration}
use krateo_rest_dynamic_cont.Builder
use krateo_rest_dynamic_cont.Builder.Calls.{Client, api_call_builder, build_call_config}
use krateo_rest_dynamic_cont.Handler.{
  Response, Condition, Reason, Effect, World, M, pure, lift, fail, ◌>>=◌, emit, warning,
  set_condition, push_status, call, is_pending,
}
use krateo_rest_dynamic_cont.Handler.Waiting.{async_config_for_action, drive_async}
use krateo_rest_dynamic_cont.Handler.Requeue.{
  async_requeue_enabled, record_async_operation, populate_status, fields_of,
}
use krateo_rest_dynamic_cont.Handler.Delegation.{mutate_via_rest_action, clear_status_fields}
use krateo_rest_dynamic_cont.Handler.Deleting.{provision_secrets, read_secrets, with_body, build}

abbrev pub replace_body : RequestConfiguration → Result Value → Result RequestConfiguration
replace_body req (ok body) = ok (with_body req body)
replace_body req (err e) = err e

-- The request: its body is assembled, then transformed.
unfoldable pub transformed_request :
    Externals → Info → CallInfo → List (Text × Value) → M RequestConfiguration
transformed_request x info c resolved s =
    let req = build_call_config x c s.mg info.configuration_spec resolved in
    (replace_body req (apply_request_transform x c.request_transform req.body), s)

-- What an asynchronous verb does behind its call: in requeue mode the handle is recorded, else the
-- operation is waited for. The flag is `asyncRequeued`.
unfoldable pub follow_with :
    World
    → Externals
    → Client
    → Info
    → Text
    → Response
    → RequestConfiguration
    → Option AsyncConfig
    → M (Response × Bool)
follow_with w x cli info action resp req none = pure (resp, false)
follow_with w x cli info action resp req (some cfg) =
    if async_requeue_enabled (some cfg)
    then (record_async_operation w x cfg action resp req >>= λ recorded. pure (resp, true))
    else (drive_async w x cli info cfg action resp req >>= λ last. pure (last, false))

unfoldable pub follow :
    World → Externals → Client → Info → Text → Response → RequestConfiguration → M (Response × Bool)
follow w x cli info action resp req =
    follow_with w x cli info action resp req
      (async_config_for_action (info.resource).verbs_description action)

unfoldable pub clear_status : Externals → M (Unit {0})
clear_status x s = (ok tt, record s { mg = clear_status_fields x s.mg })

-- The status that the answer to a create or an update gives; an answer must be an object, if any.
unfoldable pub store_body : Externals → Info → Text → Value → M (Unit {0})
store_body x info action null = pure tt
store_body x info action (obj body) = do
  whole ← lift (normalize_response_body x (info.resource).verbs_description action body)
  populate_status x info (fields_of whole)
store_body x info action v = fail Error.body_not_object

-- A create clears the old status in any case, an update only where the answer has a body.
unfoldable pub store_created : Externals → Info → Value → M (Unit {0})
store_created x info body = clear_status x >>= λ cleared. store_body x info (codes "create") body

unfoldable pub store_updated : Externals → Info → Value → M (Unit {0})
store_updated x info null = pure tt
store_updated x info body = clear_status x >>= λ cleared. store_body x info (codes "update") body

-- The condition of a resource whose change was accepted.
unfoldable pub condition_of : Response → Bool → Condition
condition_of resp requeued =
    if is_pending resp || requeued then Condition.pending else Condition.creating

-- Create and update end alike; the answer to the last write is not read any more.
unfoldable pub conclude : World → Reason → Condition → M (Unit {0})
conclude w reason c = do
  marked ← set_condition w c
  updated ← warning reason (push_status w)
  emit (Effect.noted reason)

-- A create or an update that a RESTAction carries out.
unfoldable pub write_by_action :
    World → Externals → Info → ApiRef → Text → Reason → Condition → M (Unit {0})
write_by_action w x info ref action reason c = do
  done ← warning reason (mutate_via_rest_action w x ref (info.resource).identifiers action)
  conclude w reason c

-- The call of a create or an update verb, and what follows it. `expect` says that the Role of the
-- secrets should be there, `store` takes the body of the last answer.
unfoldable pub send_change :
    World
    → Externals
    → Client
    → Info
    → CallInfo
    → Text
    → Bool
    → (Value → M (Unit {0}))
    → Reason
    → M (Unit {0})
send_change w x cli info c action expect store reason = do
  done ← provision_secrets w info expect
  resolved ← read_secrets w x c
  req ← transformed_request x info c resolved
  resp ← call w c.path req
  last ← follow w x cli info action resp req
  stored ← store (last.0).body
  conclude w reason (condition_of last.0 last.1)

-- The create verb's call, for which a missing Role is normal.
unfoldable pub create_call :
    World → Externals → Client → Info → Result (Option (CallInfo × VerbsDescription)) → M (Unit {0})
create_call w x cli info (err e) = fail e
create_call w x cli info (ok none) = pure tt
create_call w x cli info (ok (some (c, v))) =
    send_change w x cli info c (codes "create") false (store_created x info) Reason.resource_created

unfoldable pub create_by : World → Externals → Info → Client → Option ApiRef → M (Unit {0})
create_by w x info cli (some ref) =
    write_by_action w x info ref (codes "create") Reason.resource_created Condition.creating
create_by w x info cli none = create_call w x cli info (api_call_builder cli info Builder.create)

unfoldable pub create_with : World → Externals → Info → Client → M (Unit {0})
create_with w x info cli = create_by w x info cli (info.resource).create_api_ref

-- `Create`, with the getter set.
unfoldable pub create_resource : World → Externals → M (Unit {0})
create_resource w x s =
    (lift (w.definition s.mg) >>= λ info. build w info >>= create_with w x info) s

-- The update verb's call. It expects the Role that the create made.
unfoldable pub update_call :
    World → Externals → Client → Info → Result (Option (CallInfo × VerbsDescription)) → M (Unit {0})
update_call w x cli info (err e) = fail e
update_call w x cli info (ok none) = pure tt
update_call w x cli info (ok (some (c, v))) =
    send_change w x cli info c (codes "update") true (store_updated x info) Reason.resource_updated

unfoldable pub update_by : World → Externals → Info → Client → Option ApiRef → M (Unit {0})
update_by w x info cli (some ref) =
    write_by_action w x info ref (codes "update") Reason.resource_updated Condition.available
update_by w x info cli none = update_call w x cli info (api_call_builder cli info Builder.update)

unfoldable pub update_with : World → Externals → Info → Client → M (Unit {0})
update_with w x info cli = update_by w x info cli (info.resource).update_api_ref

-- `Update`, with the getter set.
unfoldable pub update_resource : World → Externals → M (Unit {0})
update_resource w x s =
    (lift (w.definition s.mg) >>= λ info. build w info >>= update_with w x info) s
