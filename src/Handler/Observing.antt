-- ===== src/Handler/Observing.antt =====
-- internal/controllers/existence.go, observeViaRestAction of observe_restaction.go, and the drift
-- comparison of helpers.go.
use krateo_rest_dynamic_cont.Base.{
  Bool, true, false, not, ◌&&◌, ◌||◌, List, [], ◌∷◌, Option, none, some, if◌then◌else◌, Text, codes,
  text_eq, is_empty, Error, Result, ok, err,
}
use krateo_rest_dynamic_cont.Value.{Value, bool, obj, Fields, end, field, entries}
use krateo_rest_dynamic_cont.Definition.{JqProgram, VerbsDescription, ApiRef}
use krateo_rest_dynamic_cont.Externals.{Externals}
use krateo_rest_dynamic_cont.DeepCopy.{deep_copy}
use krateo_rest_dynamic_cont.Path.Parse.{parse_path}
use krateo_rest_dynamic_cont.Comparison.{Comparison, compare_existing}
use krateo_rest_dynamic_cont.Builder.Calls.{find_verb}
use krateo_rest_dynamic_cont.Handler.{
  Condition, Effect, World, M, pure, lift, fail, ◌>>=◌, put_resource, update_status_of,
  set_condition,
}
use krateo_rest_dynamic_cont.Handler.Delegation.{invoke, write_observed_status}
use krateo_rest_dynamic_cont.Handler.Requeue.{Observation, async_operation_in_flight}

-- `notFoundBodyForAction`
unfoldable pub not_found_body_for_action : List VerbsDescription → Text → Option JqProgram
not_found_body_for_action verbs action = elim (find_verb verbs action) [
  | none ↦ none
  | some v ↦ v.not_found_body
]

abbrev pub as_bool : Result Value → Result Bool
as_bool (err e) = err e
as_bool (ok (bool b)) = ok b
as_bool (ok v) = err Error.not_boolean

-- `evalBoolPredicate`
unfoldable pub eval_bool_predicate : Externals → Option JqProgram → Value → Result Bool
eval_bool_predicate x none body = ok false
eval_bool_predicate x (some p) body =
    if not (is_empty p.inline)
    then as_bool (x.run_jq p.inline body)
    else if not (is_empty p.ref)
    then err Error.unresolved_module
    else ok false

abbrev with_spec : Result (Option Fields) → Fields → Fields
with_spec (ok (some spec)) fs = field (codes "spec") (obj spec) fs
with_spec r fs = fs

-- What the predicates of an observeApiRef read.
abbrev pub predicate_context : Externals → Fields → Fields → Value
predicate_context x mg result =
    obj (with_spec (x.nested_map mg (codes "spec" ∷ [])) (field (codes "status") (obj result) end))

-- Whether the resource is up to date: it is, unless a predicate with a source says otherwise.
unfoldable pub up_to_date_by : Externals → Option JqProgram → Value → Result Bool
up_to_date_by x none ctx = ok true
up_to_date_by x (some p) ctx =
    if is_empty p.inline && is_empty p.ref then ok true else eval_bool_predicate x (some p) ctx

abbrev pub condition_for : Bool → Condition
condition_for true = Condition.available
condition_for false = Condition.unavailable

unfoldable pub write_status : Externals → Fields → M (Unit {0})
write_status x result s = put_resource (write_observed_status x result s.mg) s

-- Store the composed status and report that the resource exists.
unfoldable pub project_observed : World → Externals → Fields → Bool → M (Option Observation)
project_observed w x result up = do
  written ← write_status x result
  marked ← set_condition w (condition_for up)
  updated ← update_status_of w
  pure (some (record { exists = true; up_to_date = up }))

unfoldable pub judge_found : World → Externals → ApiRef → Fields → Bool → M (Option Observation)
judge_found w x ref result true s = (ok (some (record { exists = false; up_to_date = false })), s)
judge_found w x ref result false s =
    (lift (up_to_date_by x ref.up_to_date_expr (predicate_context x s.mg result))
        >>= project_observed w x result)
      s

-- What follows the answer of the RESTAction.
unfoldable pub judge : World → Externals → ApiRef → Fields → M (Option Observation)
judge w x ref result s =
    (lift (eval_bool_predicate x ref.not_found_expr (predicate_context x s.mg result))
        >>= judge_found w x ref result)
      s

-- An operation in flight defers to the normal observe.
unfoldable pub observe_with :
    World
    → Externals
    → (List Effect → ApiRef → Fields → Result Fields)
    → ApiRef
    → List Text
    → M (Option Observation)
observe_with w x resolve ref ids s =
    if not (is_empty (async_operation_in_flight w s.mg).0)
    then (ok none, s)
    else (invoke w x resolve ref ids >>= judge w x ref) s

-- `observeViaRestAction`; `none` leaves the reconcile to the normal observe.
unfoldable pub observe_via_rest_action :
    World → Externals → Option ApiRef → List Text → M (Option Observation)
observe_via_rest_action w x none ids = pure none
observe_via_rest_action w x (some ref) ids = elim w.resolve [
  | none ↦ fail Error.no_snowplow
  | some resolve ↦ observe_with w x resolve ref ids
]

-- One path of `projectSpecFields`; what spec lacks is skipped.
unfoldable pub project_field : Externals → Fields → Result (List Text) → Fields → Result Fields
project_field x spec (err e) out = ok out
project_field x spec (ok []) out = ok out
project_field x spec (ok (seg ∷ segs)) out = elim (x.nested_field spec (seg ∷ segs)) [
  | err e ↦ ok out
  | ok none ↦ ok out
  | ok (some v) ↦ x.set_field out (deep_copy x v) (seg ∷ segs)
]

-- `projectSpecFields`
unfoldable pub project_spec_fields : Externals → Fields → List Text → Fields → Result Fields
project_spec_fields x spec [] out = ok out
project_spec_fields x spec (p ∷ ps) out = elim (project_field x spec (parse_path x.split p) out) [
  | err e ↦ err e
  | ok out' ↦ project_spec_fields x spec ps out'
]

-- Whether the scope restricts the comparison to some fields.
abbrev pub is_restricted : Text → Bool
is_restricted scope =
    text_eq scope (codes "identifiersAndStatus") || text_eq scope (codes "updatable")

abbrev pub compared_spec : Externals → Text → List Text → Result Fields → Result Fields
compared_spec x scope names (err e) = err e
compared_spec x scope names (ok spec) =
    if is_restricted scope then project_spec_fields x spec names end else ok spec

abbrev pub compared_with : Externals → Fields → Result Fields → Result Comparison
compared_with x rm (err e) = err e
compared_with x rm (ok spec) = compare_existing x spec (entries rm)

-- `isCRUpdated`, for a resource that is not nil.
unfoldable pub is_cr_updated : Externals → Fields → Fields → Text → List Text → Result Comparison
is_cr_updated x mg rm scope names =
    compared_with x rm (compared_spec x scope names (x.get_fields mg (codes "spec")))
