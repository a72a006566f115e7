-- ===== src/Handler/Delegation.antt =====
-- internal/controllers/mutate_restaction.go with the helpers of observe_restaction.go and helpers.go
-- that it calls: a verb that a RESTAction carries out.
use krateo_rest_dynamic_cont.Base.{
  Bool, true, false, not, ◌&&◌, ◌||◌, ◌==◌, List, [], ◌∷◌, Option, none, some, if◌then◌else◌, Text,
  codes, text_eq, equal_fold, insert, Error, Result, ok, err,
}
use krateo_rest_dynamic_cont.Value.{Value, str, obj, Fields, end, entries, of_entries}
use krateo_rest_dynamic_cont.Definition.{VerbsDescription, ApiRef, Info}
use krateo_rest_dynamic_cont.Externals.{Externals}
use krateo_rest_dynamic_cont.Path.Parse.{parse_path}
use krateo_rest_dynamic_cont.Builder.{get}
use krateo_rest_dynamic_cont.Builder.Calls.{Client, api_call_builder, build_call_config}
use krateo_rest_dynamic_cont.Handler.{Response, Effect, World, State, M, fail, ◌>>=◌, call}

-- The field at a path, where it can be read.
abbrev readable : Result (Option Value) → Option Value
readable (ok o) = o
readable (err e) = none

-- The value of an identifier: from spec, else from status.
unfoldable pub identifier_value : Externals → Fields → Result (List Text) → Option Value
identifier_value x mg (err e) = none
identifier_value x mg (ok []) = none
identifier_value x mg (ok (seg ∷ segs)) =
    elim (readable (x.nested_field mg (codes "spec" ∷ seg ∷ segs))) [
      | some v ↦ some v
      | none ↦ readable (x.nested_field mg (codes "status" ∷ seg ∷ segs))
    ]

unfoldable pub add_identifiers :
    Externals → Fields → List Text → List (Text × Value) → List (Text × Value)
add_identifiers x mg [] out = out
add_identifiers x mg (id ∷ ids) out =
    add_identifiers x mg ids (elim (identifier_value x mg (parse_path x.split id)) [
      | none ↦ out
      | some v ↦ insert id v out
    ])

-- The object under a name of the resource, where there is one.
abbrev section : Result (Option Fields) → Option Fields
section (ok o) = o
section (err e) = none

-- `buildExtras`
unfoldable pub build_extras : World → Externals → Fields → Fields → List Text → List (Text × Value)
build_extras w x mg static ids =
    let out = add_identifiers x mg ids (
      insert (codes "uid") (str (w.uid mg)) (
        insert (codes "namespace") (str (w.namespace mg))
          (insert (codes "name") (str (w.name mg)) (entries static)))) in
    elim (section (x.nested_map mg (codes "spec" ∷ []))) [
      | none ↦ out
      | some spec ↦ insert (codes "spec") (obj spec) out
    ]

-- The merge of a composed status into the present one.
unfoldable pub merge_status : List (Text × Value) → List (Text × Value) → List (Text × Value)
merge_status [] status = status
merge_status ((k, v) ∷ result) status = merge_status result (
    if text_eq k (codes "conditions") || text_eq k (codes "observedGeneration")
    then status
    else insert k v status)

abbrev present_status : Option Fields → List (Text × Value)
present_status none = []
present_status (some fs) = entries fs

-- `writeObservedStatus`
unfoldable pub write_observed_status : Externals → Fields → Fields → Result Fields
write_observed_status x result mg = elim (x.nested_map mg (codes "status" ∷ [])) [
  | err e ↦ err e
  | ok status ↦
      x.set_field mg (obj (of_entries (merge_status (entries result) (present_status status))))
        (codes "status" ∷ [])
]

-- `clearStatusFields`
unfoldable pub clear_status_fields : Externals → Fields → Fields
clear_status_fields x mg = x.remove_field mg (codes "status" ∷ [])

abbrev is_end : Fields → Bool
is_end end = true
is_end (Fields.field k v fs) = false

abbrev put_status : Result Fields → Fields → State → Result (Unit {0}) × State
put_status (ok fs) cleared s = (ok tt, record s { mg = fs })
put_status (err e) cleared s = (err e, record s { mg = cleared })

project_status : Externals → Bool → Fields → M (Unit {0})
project_status x writes result s =
    let cleared = clear_status_fields x s.mg in
    if writes && not (is_end result)
    then put_status (write_observed_status x result cleared) cleared s
    else (ok tt, s)

-- The invocation of a RESTAction, on the trace.
unfoldable pub invoke :
    World
    → Externals
    → (List Effect → ApiRef → Fields → Result Fields)
    → ApiRef
    → List Text
    → M Fields
invoke w x resolve ref ids s =
    let extras = of_entries (build_extras w x s.mg ref.extras ids) in
    (resolve s.trace ref extras, record s { trace = Effect.invoked ref extras ∷ s.trace })

-- `mutateViaRestAction`
unfoldable pub mutate_via_rest_action : World → Externals → ApiRef → List Text → Text → M (Unit {0})
unfolding project_status
mutate_via_rest_action w x ref ids action = elim w.resolve [
  | none ↦ fail Error.no_snowplow
  | some resolve ↦
      invoke w x resolve ref ids
      >>= project_status x
          (equal_fold action (codes "create") || equal_fold action (codes "update"))
]

-- `hasObserveVerb`
unfoldable pub has_observe_verb : List VerbsDescription → Bool
has_observe_verb [] = false
has_observe_verb (v ∷ vs) =
    let rest = has_observe_verb vs in
    if equal_fold v.action (codes "get") || equal_fold v.action (codes "findby") then true else rest

-- Whether the verifying get shows the resource: its error 404 shows that it is gone.
abbrev pub shows : Result Response → Result Bool
shows (ok resp) = ok true
shows (err (Error.status n)) = if n == 404 then ok false else err (Error.status n)
shows (err e) = err e

-- `externalResourceStillExists`
unfoldable pub external_resource_still_exists : World → Externals → Client → Info → M Bool
external_resource_still_exists w x cli info s = elim (api_call_builder cli info get) [
  | err e ↦ (ok false, s)
  | ok none ↦ (ok false, s)
  | ok (some (c, v)) ↦
      let r = call w c.path (build_call_config x c s.mg info.configuration_spec []) s in
      (shows r.0, r.1)
]
