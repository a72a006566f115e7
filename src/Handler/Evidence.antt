-- ===== src/Handler/Evidence.antt =====
-- What the observations that Observe of internal/controllers/restResources.go reports rest on.
use krateo_rest_dynamic_cont.Base.{
  ◌≡◌, ◌≢◌, ◌⊎◌, true, false, List, [], none, some, if◌then◌else◌, Text, codes, Error, ok, err,
}
use krateo_rest_dynamic_cont.Value.{Value, null, obj, Fields}
use krateo_rest_dynamic_cont.Definition.{VerbsDescription, JqProgram, Info}
use krateo_rest_dynamic_cont.Externals.{Externals}
use krateo_rest_dynamic_cont.Comparison.{Comparison, equal, different}
use krateo_rest_dynamic_cont.Mapping.Response.{normalize_response_body}
use krateo_rest_dynamic_cont.Builder.{CallInfo}
use krateo_rest_dynamic_cont.Builder
use krateo_rest_dynamic_cont.Builder.Calls.{
  Client, api_call_builder, build_call_config, is_resource_known,
}
use krateo_rest_dynamic_cont.Handler.{
  Response, Condition, World, State, M, refresh_resource, update_status_of, call, search_for,
}
use krateo_rest_dynamic_cont.Handler.Requeue.{Observation, populate_status, fields_of}
use krateo_rest_dynamic_cont.Handler.Observing.{
  not_found_body_for_action, eval_bool_predicate, is_cr_updated,
}
use krateo_rest_dynamic_cont.Handler.Seeing.{
  absent, drifted, ready, is_not_found, match_policy, says_absent, scope_fields, polled, delegated,
}

abbrev pub judged : Comparison → Observation
judged equal = ready
judged (different why) = drifted

-- What is asked about the resource, and how: by its identifier, or by a search.
pub data Asked (w : World) (x : Externals) (cli : Client) (info : Info) (s : State)
    : Text → M Response → Type 0 where
  by_get :
      (c : CallInfo) (v : VerbsDescription)
      → is_resource_known x cli info s.mg ≡ true
      → api_call_builder cli info Builder.get ≡ ok (some (c, v))
      → Asked w x cli info s
          (codes "get")
          (call w c.path (build_call_config x c s.mg info.configuration_spec []))
  by_search :
      (c : CallInfo) (v : VerbsDescription)
      → is_resource_known x cli info s.mg ≡ false
      → api_call_builder cli info Builder.find_by ≡ ok (some (c, v))
      → Asked w x cli info s (codes "findby") (
          search_for w
            (match_policy (info.resource).verbs_description)
            v
            c.path
            (build_call_config x c s.mg info.configuration_spec []))

-- No search can be made.
abbrev pub NoSearch : Client → Info → Type 0
NoSearch cli info =
    (api_call_builder cli info Builder.find_by ≡ ok none)
    ⊎ ((e : Error) × (api_call_builder cli info Builder.find_by ≡ err e))

-- What the external API says of a resource in state s.
pub data Shown (w : World) (x : Externals) (cli : Client) (info : Info) (s : State)
    : Observation → Type 0 where
  never_made :
      is_resource_known x cli info s.mg ≡ false
      → NoSearch cli info
      → w.is_condition_set Condition.creating s.mg ≡ false
      → w.is_condition_set Condition.available s.mg ≡ false
      → Shown w x cli info s absent
  assumed :
      is_resource_known x cli info s.mg ≡ false → NoSearch cli info → Shown w x cli info s ready
  not_found :
      (action : Text) (m : M Response) (e : Error)
      → Asked w x cli info s action m
      → (m s).0 ≡ err e
      → is_not_found e ≡ true
      → Shown w x cli info s
          (if w.is_condition_set Condition.pending (m s).1.mg then ready else absent)
  said_absent :
      (action : Text) (m : M Response) (resp : Response) (p : JqProgram)
      → Asked w x cli info s action m
      → (m s).0 ≡ ok resp
      → not_found_body_for_action (info.resource).verbs_description action ≡ some p
      → resp.body ≢ null
      → w.is_condition_set Condition.pending (m s).1.mg ≡ false
      → eval_bool_predicate x (some p) resp.body ≡ ok true
      → Shown w x cli info s absent
  bodiless :
      (action : Text) (m : M Response) (resp : Response)
      → Asked w x cli info s action m
      → (m s).0 ≡ ok resp
      → resp.body ≡ null
      → Shown w x cli info s ready
  compares :
      (action : Text) (m : M Response) (resp : Response) (body : Fields) (whole : Value)
      (names : List Text) (t : State) (c : Comparison)
      → Asked w x cli info s action m
      → (m s).0 ≡ ok resp
      → says_absent w x info action resp.body (m s).1.mg ≡ ok false
      → resp.body ≡ obj body
      → normalize_response_body x (info.resource).verbs_description action body ≡ ok whole
      → (populate_status x info (fields_of whole) (m s).1).0 ≡ ok tt
      → update_status_of w (populate_status x info (fields_of whole) (m s).1).1 ≡ (ok tt, t)
      → scope_fields cli info ≡ ok names
      → is_cr_updated x t.mg (fields_of whole) (info.resource).compare_scope names ≡ ok c
      → Shown w x cli info s (judged c)

-- What an observation that starts in state s rests on: what was done before the external API was
-- asked is done in this order.
pub data Rests (w : World) (x : Externals) (s : State) : Observation → Type 0 where
  on_action :
      (info : Info) (o : Observation)
      → w.definition s.mg ≡ ok info
      → (delegated w x info (refresh_resource w s).1).0 ≡ ok (some o)
      → Rests w x s o
  on_poll :
      (info : Info) (cli : Client) (t : State)
      → w.definition s.mg ≡ ok info
      → t ≡ (delegated w x info (refresh_resource w s).1).1
      → (delegated w x info (refresh_resource w s).1).0 ≡ ok none
      → w.build_client t.trace info.url ≡ ok cli
      → (polled w x cli info t).0 ≡ ok (some ready)
      → Rests w x s ready
  on_answer :
      (info : Info) (cli : Client) (t : State) (o : Observation)
      → w.definition s.mg ≡ ok info
      → t ≡ (delegated w x info (refresh_resource w s).1).1
      → (delegated w x info (refresh_resource w s).1).0 ≡ ok none
      → w.build_client t.trace info.url ≡ ok cli
      → (polled w x cli info t).0 ≡ ok none
      → Shown w x cli info (polled w x cli info t).1 o
      → Rests w x s o
