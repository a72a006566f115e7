-- ===== src/Handler/Reasons.antt =====
-- Why Delete of internal/controllers/restResources.go may release the finalizer of a resource, and what
-- its steps say when they succeed.
use krateo_rest_dynamic_cont.Base.{
  ◌≡◌, ◌≢◌, refl, arith, false, List, [], ◌∷◌, Option, none, some, Text, codes, Error, Result, ok,
  err,
}
use krateo_rest_dynamic_cont.Value.{Value}
use krateo_rest_dynamic_cont.Definition.{VerbsDescription, ApiRef, AsyncConfig, Info}
use krateo_rest_dynamic_cont.Externals.{Externals}
use krateo_rest_dynamic_cont.Builder.{ApiAction, CallInfo, RequestConfiguration}
use krateo_rest_dynamic_cont.Builder
use krateo_rest_dynamic_cont.Builder.Calls.{
  Client, find_verb, api_call_builder, call_of, build_call_config,
}
use krateo_rest_dynamic_cont.Builder.Addressing.{unresolved_path_params}
use krateo_rest_dynamic_cont.Handler.{Response, Reason, World, State, M, warning, after_warning}
use krateo_rest_dynamic_cont.Handler.Waiting.{async_config_for_action, drive_async}
use krateo_rest_dynamic_cont.Handler.Delegation.{external_resource_still_exists}
use krateo_rest_dynamic_cont.Handler.Deleting.{
  resolve_or_nothing, transformed, answered, with_body, torn_down_by, await_delete, wait_for,
}

-- The asynchronous operation of a delete, if its verb declares one, has succeeded, driven from t on.
abbrev pub Finished :
    World
    → Externals
    → Client
    → Info
    → Response
    → RequestConfiguration
    → State
    → Option AsyncConfig
    → Type 0
Finished w x cli info resp req t none = Unit
Finished w x cli info resp req t (some cfg) =
    (r : Response) × ((drive_async w x cli info cfg (codes "delete") resp req t).0 ≡ ok r)

-- Why a resource may be let go by a delete that starts in state s.
pub data LetGo (w : World) (x : Externals) (s : State) : Type 0 where
  undefined : w.definition s.mg ≡ err Error.definition_not_found → LetGo w x s
  undeclared :
      (info : Info)
      → w.definition s.mg ≡ ok info
      → (info.resource).delete_api_ref ≡ none
      → find_verb (info.resource).verbs_description (codes "delete") ≡ none
      → LetGo w x s
  verified :
      (info : Info) (cli : Client) (ref : ApiRef)
      → w.definition s.mg ≡ ok info
      → w.build_client s.trace info.url ≡ ok cli
      → (info.resource).delete_api_ref ≡ some ref
      → (torn_down_by w x info ref s).0 ≡ ok tt
      → (external_resource_still_exists w x cli info (torn_down_by w x info ref s).1).0 ≡ ok false
      → LetGo w x s
  unaddressable :
      (info : Info) (cli : Client) (c : CallInfo) (v : VerbsDescription)
      (resolved : List (Text × Value)) (t : State)
      → w.definition s.mg ≡ ok info
      → w.build_client s.trace info.url ≡ ok cli
      → (info.resource).delete_api_ref ≡ none
      → api_call_builder cli info Builder.delete ≡ ok (some (c, v))
      → resolve_or_nothing w x info c s ≡ (ok resolved, t)
      → unresolved_path_params c.path
          (build_call_config x c t.mg info.configuration_spec resolved).parameters
        ≢ []
      → LetGo w x s
  accepted :
      (info : Info) (cli : Client) (c : CallInfo) (v : VerbsDescription)
      (resolved : List (Text × Value)) (t : State) (req : RequestConfiguration) (body : Value)
      (resp : Response)
      → w.definition s.mg ≡ ok info
      → w.build_client s.trace info.url ≡ ok cli
      → (info.resource).delete_api_ref ≡ none
      → api_call_builder cli info Builder.delete ≡ ok (some (c, v))
      → resolve_or_nothing w x info c s ≡ (ok resolved, t)
      → req ≡ build_call_config x c t.mg info.configuration_spec resolved
      → unresolved_path_params c.path req.parameters ≡ []
      → (transformed x c req t).0 ≡ ok body
      → w.answer (transformed x c req t).1.trace c.path (with_body req body) ≡ ok resp
      → Finished w x cli info resp
          (with_body req body)
          (answered w c (with_body req body) (transformed x c req t).1).1
          (async_config_for_action (info.resource).verbs_description (codes "delete"))
      → LetGo w x s

after_warning_ok :
    {A : Type 0} (r : Reason) (o : Result A) (t : State) {a : A}
    → (after_warning r o t).0 ≡ ok a
    → o ≡ ok a
after_warning_ok r (ok b) t h = h
after_warning_ok r (err e) t h = h

pub warning_ok :
    {A : Type 0} (r : Reason) (m : M A) (s : State) {a : A}
    → (warning r m s).0 ≡ ok a
    → (m s).0 ≡ ok a
warning_ok r m s h = after_warning_ok r (m s).0 (m s).1 h

call_of_is_some :
    (cli : Client) (info : Info) (action : ApiAction) (v : VerbsDescription)
    → call_of cli info action v ≢ ok none
unfolding call_of
call_of_is_some cli info action v h = ground arith

pub no_call :
    (cli : Client) (info : Info)
    → api_call_builder cli info Builder.delete ≡ ok none
    → find_verb (info.resource).verbs_description (codes "delete") ≡ none
unfolding api_call_builder
no_call cli info h = go (find_verb (info.resource).verbs_description (codes "delete")) h
  where
    go :
        (o : Option VerbsDescription)
        → (elim o [ none ↦ ok none | some v ↦ call_of cli info Builder.delete v ]) ≡ ok none
        → o ≡ none
    go none h = refl
    go (some v) h = absurd (call_of_is_some cli info Builder.delete v h)

pub finished :
    (w : World) (x : Externals) (cli : Client) (info : Info) (resp : Response)
    (req : RequestConfiguration) (t : State) (r : Response)
    → (await_delete w x cli info resp req t).0 ≡ ok r
    → Finished w x cli info resp req t
        (async_config_for_action (info.resource).verbs_description (codes "delete"))
unfolding await_delete wait_for
finished w x cli info resp req t r h =
    go (async_config_for_action (info.resource).verbs_description (codes "delete")) h
  where
    go :
        (o : Option AsyncConfig)
        → (wait_for w x cli info resp req o t).0 ≡ ok r
        → Finished w x cli info resp req t o
    go none h = tt
    go (some cfg) h = (
      r,
      warning_ok Reason.resource_deleted (drive_async w x cli info cfg (codes "delete") resp req) t
          h,
    )

pub cons-ne-nil : {n : Text} {ns : List Text} → n ∷ ns ≢ []
cons-ne-nil h = cc
