-- ===== src/Handler/Waiting.antt =====
-- internal/controllers/async_handler.go: polling an operation until it ends, within one reconcile.
use krateo_rest_dynamic_cont.Base.{
  ◌≡◌, ap, ◌∙◌, arith, text_eq, text_eq_iff, lookup-insert, or_else, Bool, true, false, not, ◌&&◌,
  ◌||◌, List, [], ◌∷◌, ◌++◌, Option, none, some, if◌then◌else◌, replicate, Text, codes, equal_fold,
  is_empty, lookup, insert, Error, Result, ok, err,
}
use krateo_rest_dynamic_cont.Value.{Value, null, obj, Fields}
use krateo_rest_dynamic_cont.Definition.{VerbsDescription, AsyncConfig, PollConfig, Info}
use krateo_rest_dynamic_cont.Externals.{Externals}
use krateo_rest_dynamic_cont.Path.Parse.{parse_path}
use krateo_rest_dynamic_cont.Async.{
  render_scalar, extract_operation_handle, Polls, poll_until_terminal,
}
use krateo_rest_dynamic_cont.Builder.{RequestConfiguration, get}
use krateo_rest_dynamic_cont.Builder.Calls.{Client, find_verb, api_call_builder, build_call_config}
use krateo_rest_dynamic_cont.Handler.{Response, Effect, Trace, World, M, pure, lift, ◌>>=◌, call}

-- `asyncConfigForAction`
unfoldable pub async_config_for_action : List VerbsDescription → Text → Option AsyncConfig
async_config_for_action verbs action = elim (find_verb verbs action) [
  | none ↦ none
  | some v ↦ v.async
]

unfoldable pub status_at : Externals → Fields → Result (List Text) → Result Text
status_at x body (err e) = err Error.bad_status_path
status_at x body (ok []) = err Error.bad_status_path
status_at x body (ok (seg ∷ segs)) = elim (x.nested_field body (seg ∷ segs)) [
  | err e ↦ err Error.no_status
  | ok none ↦ err Error.no_status
  | ok (some v) ↦ ok (render_scalar x v)
]

-- `extractPollStatus`
unfoldable pub extract_poll_status : Externals → Fields → Text → Result Text
extract_poll_status x body path = status_at x body (parse_path x.split path)

-- The body of a response as an object.
abbrev pub object_of : Value → Option Fields
object_of (obj fs) = some fs
object_of _ = none

abbrev is_object : Value → Bool
is_object (obj fs) = true
is_object _ = false

abbrev pub default_handle_param : Text
default_handle_param = codes "operationId"

-- Copy the entries of a map that are not there yet; each key stands once in a Go map.
unfoldable pub add_missing : List (Text × Text) → List (Text × Text) → List (Text × Text)
add_missing [] m = m
add_missing ((k, v) ∷ base) m =
    add_missing base (elim (lookup k m) [ some w ↦ m | none ↦ insert k v m ])

abbrev pub or_default : Text → Text → Text
or_default fallback s = if is_empty s then fallback else s

-- `buildPollRequest`; a nil base has empty maps.
unfoldable pub build_poll_request :
    Text → Text → Text → Option RequestConfiguration → RequestConfiguration
build_poll_request method handle_param id base = record {
  parameters =
      add_missing (elim base [ none ↦ [] | some b ↦ b.parameters ])
        (insert (or_default default_handle_param handle_param) id []);
  query = elim base [ none ↦ [] | some b ↦ b.query ];
  headers = elim base [ none ↦ [] | some b ↦ b.headers ];
  cookies = elim base [ none ↦ [] | some b ↦ b.cookies ];
  body = null;
  method = or_default (codes "GET") method;
  success_codes = [];
  tolerate_codes = [];
  not_found_codes = [];
  sensitive_values = [];
}

-- What one poll makes of the answer to it.
unfoldable pub poll_status : Externals → PollConfig → Result Response → Result Text
poll_status x cfg (err e) = err e
poll_status x cfg (ok resp) = elim (object_of resp.body) [
  | none ↦ err Error.poll_not_object
  | some fs ↦ extract_poll_status x fs cfg.status_path
]

-- The polls of one operation: each is the same request, on a trace that the earlier ones are on.
unfoldable pub polls_of : World → Externals → PollConfig → RequestConfiguration → Trace → Polls
polls_of w x cfg req trace = record {
  expired = w.expired trace;
  observe = λ i.
      poll_status x cfg (w.answer (replicate i (Effect.called cfg.path req) ++ trace) cfg.path req);
  interrupted = w.interrupted trace;
}

-- `PollUntilTerminal` with the handler's poll, on the trace.
unfoldable pub run_polls : World → Externals → PollConfig → RequestConfiguration → M (Unit {0})
run_polls w x cfg req s =
    let run = poll_until_terminal cfg (polls_of w x cfg req s.trace) in
    (run.0, record s { trace = replicate run.1 (Effect.called cfg.path req) ++ s.trace })

-- The handle in the trigger's response; a handle in the body needs an object there.
unfoldable pub trigger_handle : Externals → AsyncConfig → Response → Result Text
trigger_handle x cfg resp =
    if equal_fold (cfg.operation_ref).place (codes "body") && not (is_object resp.body)
    then err Error.no_object_body
    else extract_operation_handle x (object_of resp.body) resp.headers cfg.operation_ref

-- The read of the resource after a successful operation.
unfoldable pub post_get : World → Externals → Client → Info → M Response
post_get w x cli info s = elim (api_call_builder cli info get) [
  | err e ↦ (err e, s)
  | ok none ↦ (err Error.no_get_action, s)
  | ok (some (c, v)) ↦ call w c.path (build_call_config x c s.mg info.configuration_spec []) s
]

-- `driveAsync`
unfoldable pub drive_async :
    World
    → Externals
    → Client
    → Info
    → AsyncConfig
    → Text
    → Response
    → RequestConfiguration
    → M Response
drive_async w x cli info cfg action resp req = do
  id ← lift (trigger_handle x cfg resp)
  polled ←
      run_polls w x cfg.poll
        (build_poll_request (cfg.poll).method (cfg.poll).handle_param id (some req))
  if not cfg.post_get || equal_fold action (codes "delete")
      then pure resp
      else post_get w x cli info

lookup-add_missing :
    (k : Text) (base m : List (Text × Text))
    → lookup k (add_missing base m) ≡ or_else (lookup k m) (lookup k base)
unfolding add_missing lookup
lookup-add_missing k [] m = ground arith
lookup-add_missing k ((j, u) ∷ base) m =
    lookup-add_missing k base (elim (lookup j m) [ some w ↦ m | none ↦ insert j u m ])
    ∙ ground (arith, text_eq_iff j k, lookup-insert j k u m)

-- A poll binds the handle of the operation to the declared parameter, or to operationId where none is
-- declared, whatever the triggering request binds there; every other path parameter is that request's.
pub lookup-build_poll_request :
    (method handle_param id k : Text) (b : RequestConfiguration)
    → lookup k (build_poll_request method handle_param id (some b)).parameters ≡ (
        if text_eq (or_default default_handle_param handle_param) k
        then some id
        else lookup k b.parameters)
unfolding build_poll_request lookup
lookup-build_poll_request method handle_param id k b =
    lookup-add_missing k b.parameters (insert (or_default default_handle_param handle_param) id [])
    ∙ ap (λ o. or_else o (lookup k b.parameters))
        (lookup-insert (or_default default_handle_param handle_param) k id [])
    ∙ ground arith
