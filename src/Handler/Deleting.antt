-- ===== src/Handler/Deleting.antt =====
-- internal/controllers/restResources.go: Delete.
use krateo_rest_dynamic_cont.Base.{
  Bool, true, false, List, [], ◌∷◌, Option, none, some, Text, codes, Error, Result, ok, err,
}
use krateo_rest_dynamic_cont.Value.{Value}
use krateo_rest_dynamic_cont.Definition.{VerbsDescription, ApiRef, AsyncConfig, Info}
use krateo_rest_dynamic_cont.Externals.{Externals}
use krateo_rest_dynamic_cont.Mapping.{resolve_request_resolvers, apply_request_transform}
use krateo_rest_dynamic_cont.Builder.{CallInfo, RequestConfiguration}
use krateo_rest_dynamic_cont.Builder
use krateo_rest_dynamic_cont.Builder.Calls.{Client, api_call_builder, build_call_config}
use krateo_rest_dynamic_cont.Builder.Addressing.{unresolved_path_params}
use krateo_rest_dynamic_cont.Handler.{
  Response, Condition, Reason, Effect, World, M, pure, lift, fail, ◌>>=◌, emit, best_effort,
  warning, set_condition, delete_secret_ref_rbac, call,
}
use krateo_rest_dynamic_cont.Handler.Waiting.{async_config_for_action, drive_async}
use krateo_rest_dynamic_cont.Handler.Delegation.{
  mutate_via_rest_action, external_resource_still_exists,
}

-- The two steps of `ensureSecretRefRBACAndResolve`.
unfoldable pub provision_secrets : World → Info → Bool → M (Unit {0})
provision_secrets w info expect s =
    (w.provision s.trace info s.mg expect, record s { trace = Effect.provisioned ∷ s.trace })

unfoldable pub read_secrets : World → Externals → CallInfo → M (List (Text × Value))
read_secrets w x c s = (resolve_request_resolvers x (w.get_secret s.trace) c.field_mapping s.mg, s)

-- `ensureSecretRefRBACAndResolve`
unfoldable pub ensure_and_resolve :
    World → Externals → Info → CallInfo → Bool → M (List (Text × Value))
ensure_and_resolve w x info c expect =
    provision_secrets w info expect >>= λ done. read_secrets w x c

abbrev or_nothing : Result (List (Text × Value)) → List (Text × Value)
or_nothing (ok m) = m
or_nothing (err e) = []

-- The resolved values of a delete: a failure leaves none and is only logged.
unfoldable pub resolve_or_nothing : World → Externals → Info → CallInfo → M (List (Text × Value))
resolve_or_nothing w x info c s =
    let r = ensure_and_resolve w x info c false s in (ok (or_nothing r.0), r.1)

-- The end of every delete that lets the resource go without an event.
unfoldable pub release : World → M (Unit {0})
release w =
    best_effort (set_condition w Condition.deleting) >>= λ c. best_effort (delete_secret_ref_rbac w)

-- Without the definition the condition must be set, and its failure is returned.
unfoldable pub delete_without_definition : World → M (Unit {0})
delete_without_definition w =
    set_condition w Condition.deleting >>= λ c. best_effort (delete_secret_ref_rbac w)

unfoldable pub still_present_or_release : World → Bool → M (Unit {0})
still_present_or_release w true = warning Reason.resource_deleted (fail Error.still_present)
still_present_or_release w false = release w

abbrev pub torn_down_by : World → Externals → Info → ApiRef → M (Unit {0})
torn_down_by w x info ref =
    warning Reason.resource_deleted
      (mutate_via_rest_action w x ref (info.resource).identifiers (codes "delete"))

abbrev pub seen : World → Externals → Client → Info → M Bool
seen w x cli info = warning Reason.resource_deleted (external_resource_still_exists w x cli info)

-- A delete that a RESTAction carries out, with the check that the resource is gone.
unfoldable pub delete_by_action : World → Externals → Client → Info → ApiRef → M (Unit {0})
delete_by_action w x cli info ref = do
  done ← torn_down_by w x info ref
  exists ← seen w x cli info
  still_present_or_release w exists

-- The wait for an asynchronous delete.
unfoldable pub wait_for :
    World
    → Externals
    → Client
    → Info
    → Response
    → RequestConfiguration
    → Option AsyncConfig
    → M Response
wait_for w x cli info resp req none = pure resp
wait_for w x cli info resp req (some cfg) =
    warning Reason.resource_deleted (drive_async w x cli info cfg (codes "delete") resp req)

unfoldable pub await_delete :
    World → Externals → Client → Info → Response → RequestConfiguration → M Response
await_delete w x cli info resp req =
    wait_for w x cli info resp req
      (async_config_for_action (info.resource).verbs_description (codes "delete"))

-- The body that is sent, and the call.
abbrev pub transformed : Externals → CallInfo → RequestConfiguration → M Value
transformed x c req =
    warning Reason.resource_deleted (lift (apply_request_transform x c.request_transform req.body))

abbrev pub answered : World → CallInfo → RequestConfiguration → M Response
answered w c req = warning Reason.resource_deleted (call w c.path req)

-- What follows a delete that the API has accepted.
unfoldable pub finish_delete : World → M (Unit {0})
finish_delete w = do
  marked ← set_condition w Condition.deleting
  event ← emit (Effect.noted Reason.resource_deleted)
  best_effort (delete_secret_ref_rbac w)

abbrev pub with_body : RequestConfiguration → Value → RequestConfiguration
with_body req body = record req { body = body }

-- The call of the API, for a resource whose path is complete.
unfoldable pub send_delete :
    World → Externals → Client → Info → CallInfo → RequestConfiguration → M (Unit {0})
send_delete w x cli info c req = do
  body ← transformed x c req
  resp ← answered w c (with_body req body)
  waited ← await_delete w x cli info resp (with_body req body)
  finish_delete w

unfoldable pub release_or_send :
    World → Externals → Client → Info → CallInfo → RequestConfiguration → List Text → M (Unit {0})
release_or_send w x cli info c req [] = send_delete w x cli info c req
release_or_send w x cli info c req (name ∷ names) = release w

unfoldable pub addressed :
    World → Externals → Client → Info → CallInfo → List (Text × Value) → M (Unit {0})
addressed w x cli info c resolved s =
    let req = build_call_config x c s.mg info.configuration_spec resolved in
    release_or_send w x cli info c req (unresolved_path_params c.path req.parameters) s

-- A delete that the delete verb carries out; without one, nothing is called.
unfoldable pub delete_call :
    World → Externals → Client → Info → Result (Option (CallInfo × VerbsDescription)) → M (Unit {0})
delete_call w x cli info (err e) = fail e
delete_call w x cli info (ok none) = best_effort (delete_secret_ref_rbac w)
delete_call w x cli info (ok (some (c, v))) =
    resolve_or_nothing w x info c >>= addressed w x cli info c

unfoldable pub delete_by_call : World → Externals → Client → Info → M (Unit {0})
delete_by_call w x cli info = delete_call w x cli info (api_call_builder cli info Builder.delete)

-- The RESTAction, where one is declared, replaces the delete verb.
unfoldable pub delete_by : World → Externals → Info → Client → Option ApiRef → M (Unit {0})
delete_by w x info cli (some ref) = delete_by_action w x cli info ref
delete_by w x info cli none = delete_by_call w x cli info

unfoldable pub delete_with : World → Externals → Info → Client → M (Unit {0})
delete_with w x info cli = delete_by w x info cli (info.resource).delete_api_ref

abbrev pub build : World → Info → M Client
build w info s = (w.build_client s.trace info.url, s)

-- A delete with its definition.
unfoldable pub delete_defined : World → Externals → Info → M (Unit {0})
delete_defined w x info = build w info >>= delete_with w x info

-- Only an absent definition lets the resource go; another failure to read it is returned.
unfoldable pub hold_or_release : World → Error → M (Unit {0})
hold_or_release w Error.definition_not_found = delete_without_definition w
hold_or_release w e = fail e

-- `Delete`, with the getter set.
unfoldable pub delete_resource : World → Externals → M (Unit {0})
delete_resource w x s = elim (w.definition s.mg) [
  | err e ↦ hold_or_release w e s
  | ok info ↦ delete_defined w x info s
]
