-- ===== src/Handler/Seeing.antt =====
-- internal/controllers/restResources.go: Observe.
use krateo_rest_dynamic_cont.Base.{
  Bool, true, false, not, ◌&&◌, ◌==◌, List, [], ◌∷◌, ◌++◌, Option, none, some, if◌then◌else◌, Text,
  codes, text_eq, is_empty, Error, Result, ok, err,
}
use krateo_rest_dynamic_cont.Value.{Value, null, obj, Fields}
use krateo_rest_dynamic_cont.Definition.{VerbsDescription, JqProgram, Info}
use krateo_rest_dynamic_cont.Externals.{Externals}
use krateo_rest_dynamic_cont.Comparison.{Comparison, equal, different}
use krateo_rest_dynamic_cont.Mapping.Response.{normalize_response_body}
use krateo_rest_dynamic_cont.Builder.{CallInfo}
use krateo_rest_dynamic_cont.Builder
use krateo_rest_dynamic_cont.Builder.Calls.{
  Client, find_verb, api_call_builder, build_call_config, is_resource_known,
}
use krateo_rest_dynamic_cont.Handler.{
  Response, Condition, World, M, pure, lift, fail, ◌>>=◌, best_effort, set_condition,
  refresh_resource, update_status_of, push_status, call, search_for,
}
use krateo_rest_dynamic_cont.Handler.Deleting.{build}
use krateo_rest_dynamic_cont.Handler.Requeue.{
  Observation, async_operation_in_flight, drive_async_requeue, populate_status, fields_of,
}
use krateo_rest_dynamic_cont.Handler.Observing.{
  not_found_body_for_action, eval_bool_predicate, observe_via_rest_action, is_cr_updated,
}

abbrev pub absent : Observation
absent = record { exists = false; up_to_date = false }

abbrev pub drifted : Observation
drifted = record { exists = true; up_to_date = false }

abbrev pub ready : Observation
ready = record { exists = true; up_to_date = true }

-- `IsNotFoundError`
abbrev pub is_not_found : Error → Bool
is_not_found (Error.status n) = n == 404
is_not_found e = false

-- The identifiersMatchPolicy of the first verb "findby" that has one.
unfoldable pub match_policy : List VerbsDescription → Text
match_policy [] = []
match_policy (v ∷ vs) =
    let rest = match_policy vs in
    if text_eq v.action (codes "findby") && not (is_empty v.identifiers_match_policy)
    then v.identifiers_match_policy
    else rest

-- A resource that is taken to be up to date.
unfoldable pub assume_available : World → M Observation
assume_available w = do
  marked ← set_condition w Condition.available
  updated ← push_status w
  pure ready

-- Without a call to find the resource by, it is absent until it was created.
unfoldable pub unseen : World → M Observation
unseen w s =
    if not (w.is_condition_set Condition.creating s.mg)
      && not (w.is_condition_set Condition.available s.mg)
    then (ok absent, s)
    else assume_available w s

-- Whether a body says that the resource is absent; not asked while the resource is pending.
abbrev pub body_says : Externals → Option JqProgram → Value → Bool → Result Bool
body_says x none body pending = ok false
body_says x (some p) null pending = ok false
body_says x (some p) body true = ok false
body_says x (some p) body false = eval_bool_predicate x (some p) body

unfoldable pub says_absent : World → Externals → Info → Text → Value → Fields → Result Bool
says_absent w x info action body mg =
    body_says x (not_found_body_for_action (info.resource).verbs_description action) body
      (w.is_condition_set Condition.pending mg)

-- `UpdatableBodyPaths` of the update verb, if there is one.
abbrev pub updatable_paths : Client → Option VerbsDescription → Result (List Text)
updatable_paths cli none = ok []
updatable_paths cli (some v) = cli.updatable_body_paths v.method v.path

-- The fields that a restricted comparison looks at.
unfoldable pub scope_fields : Client → Info → Result (List Text)
scope_fields cli info =
    if text_eq (info.resource).compare_scope (codes "updatable")
    then updatable_paths cli (find_verb (info.resource).verbs_description (codes "update"))
    else ok ((info.resource).identifiers ++ (info.resource).additional_status_fields)

-- A difference is reported without an update of the stored status.
unfoldable pub report : World → Comparison → M Observation
report w equal = do
  marked ← set_condition w Condition.available
  updated ← update_status_of w
  pure ready
report w (different why) = do
  marked ← best_effort (set_condition w Condition.unavailable)
  pure drifted

unfoldable pub compared : Externals → Info → Fields → List Text → M Comparison
compared x info remote names s =
    (is_cr_updated x s.mg remote (info.resource).compare_scope names, s)

-- The body of an answer, by the verb that was called: the status takes the fields of it, and the
-- spec is compared with it.
unfoldable pub see_body : World → Externals → Client → Info → Text → Value → M Observation
see_body w x cli info action null = assume_available w
see_body w x cli info action (obj body) = do
  whole ← lift (normalize_response_body x (info.resource).verbs_description action body)
  populated ← populate_status x info (fields_of whole)
  updated ← update_status_of w
  names ← lift (scope_fields cli info)
  verdict ← compared x info (fields_of whole) names
  report w verdict
see_body w x cli info action v = fail Error.body_not_object

unfoldable pub see_unless : World → Externals → Client → Info → Text → Value → Bool → M Observation
see_unless w x cli info action body true = pure absent
see_unless w x cli info action body false = see_body w x cli info action body

-- An error of the call: where it says not found, a pending resource is still being made.
unfoldable pub missing_or_failed : World → Error → Bool → M Observation
missing_or_failed w e true s =
    (ok (if w.is_condition_set Condition.pending s.mg then ready else absent), s)
missing_or_failed w e false s = (err e, s)

unfoldable pub see_answer :
    World → Externals → Client → Info → Text → Result Response → M Observation
see_answer w x cli info action (err e) s = missing_or_failed w e (is_not_found e) s
see_answer w x cli info action (ok resp) s =
    (lift (says_absent w x info action resp.body s.mg) >>= see_unless w x cli info action resp.body)
      s

-- The answer to a call, whether it is an error or not.
abbrev pub then_see : World → Externals → Client → Info → Text → M Response → M Observation
then_see w x cli info action m s = see_answer w x cli info action (m s).0 (m s).1

-- The resource by its identifier.
unfoldable pub see_known :
    World
    → Externals
    → Client
    → Info
    → Result (Option (CallInfo × VerbsDescription))
    → M Observation
see_known w x cli info (err e) s = (err Error.action_not_found, s)
see_known w x cli info (ok none) s = (err Error.action_not_found, s)
see_known w x cli info (ok (some (c, v))) s =
    then_see w x cli info (codes "get")
      (call w c.path (build_call_config x c s.mg info.configuration_spec [])) s

-- The resource by a search; a call that cannot be built counts as none.
unfoldable pub see_searched :
    World
    → Externals
    → Client
    → Info
    → Result (Option (CallInfo × VerbsDescription))
    → M Observation
see_searched w x cli info (err e) s = unseen w s
see_searched w x cli info (ok none) s = unseen w s
see_searched w x cli info (ok (some (c, v))) s =
    then_see w x cli info (codes "findby")
      (search_for w (match_policy (info.resource).verbs_description) v c.path
        (build_call_config x c s.mg info.configuration_spec []))
      s

unfoldable pub see_by : World → Externals → Client → Info → Bool → M Observation
see_by w x cli info true = see_known w x cli info (api_call_builder cli info Builder.get)
see_by w x cli info false = see_searched w x cli info (api_call_builder cli info Builder.find_by)

unfoldable pub see_remote : World → Externals → Client → Info → M Observation
see_remote w x cli info s = see_by w x cli info (is_resource_known x cli info s.mg) s

-- The one poll of an operation in flight.
unfoldable pub poll_in_flight :
    World → Externals → Client → Info → Text × Text → M (Option Observation)
poll_in_flight w x cli info ([], action) = pure none
poll_in_flight w x cli info (c ∷ id, action) = drive_async_requeue w x cli info (c ∷ id) action

unfoldable pub polled : World → Externals → Client → Info → M (Option Observation)
polled w x cli info s = poll_in_flight w x cli info (async_operation_in_flight w s.mg) s

-- An observation that is handled, or the next step.
unfoldable pub handled_or : M Observation → Option Observation → M Observation
handled_or next none = next
handled_or next (some o) = pure o

unfoldable pub observe_with : World → Externals → Info → Client → M Observation
observe_with w x info cli = polled w x cli info >>= handled_or (see_remote w x cli info)

abbrev pub delegated : World → Externals → Info → M (Option Observation)
delegated w x info =
    observe_via_rest_action w x (info.resource).observe_api_ref (info.resource).identifiers

unfoldable pub observe_defined : World → Externals → Info → M Observation
observe_defined w x info = do
  refreshed ← refresh_resource w
  handled ← delegated w x info
  handled_or (build w info >>= observe_with w x info) handled

-- `Observe`, with the getter and the resource set.
unfoldable pub observe_resource : World → Externals → M Observation
observe_resource w x s = (lift (w.definition s.mg) >>= observe_defined w x) s
