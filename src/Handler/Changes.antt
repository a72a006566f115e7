-- ===== src/Handler/Changes.antt =====
-- Create and Update of internal/controllers/restResources.go: what a change consists of that returns
-- no error.
use krateo_rest_dynamic_cont.Base.{
  ◌≡◌, ◌≢◌, ◌⊎◌, Bool, true, false, List, [], ◌∷◌, Option, none, some, Text, codes, equal_fold, ok,
}
use krateo_rest_dynamic_cont.Value.{Value, null, obj, Fields}
use krateo_rest_dynamic_cont.Definition.{VerbsDescription, ApiRef, AsyncConfig, Info}
use krateo_rest_dynamic_cont.Externals.{Externals}
use krateo_rest_dynamic_cont.Mapping.{resolve_request_resolvers, apply_request_transform}
use krateo_rest_dynamic_cont.Mapping.Response.{normalize_response_body}
use krateo_rest_dynamic_cont.Builder.{ApiAction, action_text, CallInfo, RequestConfiguration}
use krateo_rest_dynamic_cont.Builder.Calls.{Client, find_verb, api_call_builder, build_call_config}
use krateo_rest_dynamic_cont.Handler.{Response, Condition, Reason, Effect, World, State}
use krateo_rest_dynamic_cont.Handler.Delegation.{mutate_via_rest_action}
use krateo_rest_dynamic_cont.Handler.Deleting.{with_body}
use krateo_rest_dynamic_cont.Handler.Requeue.{record_async_operation, populate_status, fields_of}
use krateo_rest_dynamic_cont.Handler.Waiting.{drive_async}

-- The end of a change that starts in state t: the condition was set, the status that has it was
-- accepted, and nothing but that and an event was done.
pub record Concluded (w : World) (reason : Reason) (c : Condition) (t s' : State) : Type 0 where
  pub stored : Fields
  pub marked : w.set_conditions c t.mg ≡ ok stored
  pub answer : Fields
  pub accepted : w.update_status t.trace stored ≡ ok answer
  pub left :
      s' ≡ record { mg = stored; trace = Effect.noted reason ∷ Effect.status_updated ∷ t.trace }

-- The verb of an action has, and has not, a long-running operation behind it.
abbrev pub Runs : Info → Text → AsyncConfig → Type 0
Runs info action cfg =
    (v : VerbsDescription) × (find_verb (info.resource).verbs_description action ≡ some v)
    × (v.async ≡ some cfg)

abbrev pub EndsAtOnce : Info → Text → Type 0
EndsAtOnce info action =
    (find_verb (info.resource).verbs_description action ≡ none)
    ⊎ ((v : VerbsDescription) × (find_verb (info.resource).verbs_description action ≡ some v)
        × (v.async ≡ none))

-- What follows the answer of a verb's call in state t: the last answer, whether the operation goes on
-- in later reconciles, and the state then.
pub data Followed (w : World) (x : Externals) (cli : Client) (info : Info) (action : Text)
    (resp : Response) (req : RequestConfiguration) (t : State)
    : Response → Bool → State → Type 0 where
  at_once : EndsAtOnce info action → Followed w x cli info action resp req t resp false t
  recorded :
      (cfg : AsyncConfig) (t' : State)
      → Runs info action cfg
      → equal_fold cfg.mode (codes "requeue") ≡ true
      → record_async_operation w x cfg action resp req t ≡ (ok tt, t')
      → Followed w x cli info action resp req t resp true t'
  awaited :
      (cfg : AsyncConfig) (last : Response) (t' : State)
      → Runs info action cfg
      → equal_fold cfg.mode (codes "requeue") ≡ false
      → drive_async w x cli info cfg action resp req t ≡ (ok last, t')
      → Followed w x cli info action resp req t last false t'

-- The condition that an answer asks for.
pub data Asks (resp : Response) (requeued : Bool) : Condition → Type 0 where
  answer_pends :
      (resp.status_code ≡ 102) ⊎ ((resp.status_code ≡ 100) ⊎ (resp.status_code ≡ 202))
      → Asks resp requeued Condition.pending
  operation_pends : requeued ≡ true → Asks resp requeued Condition.pending
  neither_pends :
      requeued ≡ false
      → (resp.status_code ≢ 102) × (resp.status_code ≢ 100) × (resp.status_code ≢ 202)
      → Asks resp requeued Condition.creating

-- The state without the status of the resource.
abbrev pub cleared : Externals → State → State
cleared x t = record t { mg = x.remove_field t.mg (codes "status" ∷ []) }

-- The normalized body's fields stand in the status, from state t to state t'.
abbrev pub Populated : Externals → Info → Text → Value → State → State → Type 0
Populated x info action body t t' =
    (fs : Fields) × (whole : Value) × (body ≡ obj fs)
    × (normalize_response_body x (info.resource).verbs_description action fs ≡ ok whole)
    × (populate_status x info (fields_of whole) t ≡ (ok tt, t'))

-- What the body of the last answer leaves in the status: a create clears the status in any case, an
-- update only where there is a body.
abbrev pub KeptByCreate : Externals → Info → Value → State → State → Type 0
KeptByCreate x info body t t' =
    ((body ≡ null) × (t' ≡ cleared x t)) ⊎ Populated x info (codes "create") body (cleared x t) t'

abbrev pub KeptByUpdate : Externals → Info → Value → State → State → Type 0
KeptByUpdate x info body t t' =
    ((body ≡ null) × (t' ≡ t)) ⊎ Populated x info (codes "update") body (cleared x t) t'

-- A create or an update that returns no error, from its start in state s to its end.
pub data Changed (w : World) (x : Externals) (action : ApiAction) (ref : Info → Option ApiRef)
    (expect : Bool) (Kept : Info → Value → State → State → Type 0) (reason : Reason)
    (by_ref : Condition) (s s' : State) : Type 0 where
  through_action :
      (info : Info) (cli : Client) (r : ApiRef) (t : State)
      → w.definition s.mg ≡ ok info
      → w.build_client s.trace info.url ≡ ok cli
      → ref info ≡ some r
      → mutate_via_rest_action w x r (info.resource).identifiers (action_text action) s ≡ (ok tt, t)
      → Concluded w reason by_ref t s'
      → Changed w x action ref expect Kept reason by_ref s s'
  undeclared :
      (info : Info) (cli : Client)
      → w.definition s.mg ≡ ok info
      → w.build_client s.trace info.url ≡ ok cli
      → ref info ≡ none
      → api_call_builder cli info action ≡ ok none
      → s' ≡ s
      → Changed w x action ref expect Kept reason by_ref s s'
  through_call :
      (info : Info) (cli : Client) (c : CallInfo) (v : VerbsDescription)
      (resolved : List (Text × Value)) (body : Value) (sent : RequestConfiguration)
      (resp last : Response) (requeued : Bool) (c' : Condition) (t t' : State)
      → w.definition s.mg ≡ ok info
      → w.build_client s.trace info.url ≡ ok cli
      → ref info ≡ none
      → api_call_builder cli info action ≡ ok (some (c, v))
      → w.provision s.trace info s.mg expect ≡ ok tt
      → resolve_request_resolvers x
          (w.get_secret (Effect.provisioned ∷ s.trace))
          c.field_mapping
          s.mg
        ≡ ok resolved
      → apply_request_transform x c.request_transform
          (build_call_config x c s.mg info.configuration_spec resolved).body
        ≡ ok body
      → sent ≡ with_body (build_call_config x c s.mg info.configuration_spec resolved) body
      → w.answer (Effect.provisioned ∷ s.trace) c.path sent ≡ ok resp
      → Followed w x cli info
          (action_text action)
          resp
          sent
          (record s { trace = Effect.called c.path sent ∷ Effect.provisioned ∷ s.trace })
          last
          requeued
          t
      → Kept info last.body t t'
      → Asks last requeued c'
      → Concluded w reason c' t' s'
      → Changed w x action ref expect Kept reason by_ref s s'
