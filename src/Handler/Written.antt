-- ===== src/Handler/Written.antt =====
-- Create and Update of internal/controllers/restResources.go: what was done when they return no error.
use krateo_rest_dynamic_cont.Base.{
  ◌≡◌, refl, sym, ap, true, false, Option, none, some, Result, ok, err, err-ne-ok,
}
use krateo_rest_dynamic_cont.Definition.{VerbsDescription, ApiRef, Info}
use krateo_rest_dynamic_cont.Externals.{Externals}
use krateo_rest_dynamic_cont.Builder.{ApiAction, action_text, CallInfo, RequestConfiguration}
use krateo_rest_dynamic_cont.Builder
use krateo_rest_dynamic_cont.Builder.Calls.{Client, api_call_builder}
use krateo_rest_dynamic_cont.Handler.{Condition, Reason, World, State, lift, ◌>>=◌, bind_ok}
use krateo_rest_dynamic_cont.Handler.Deleting.{build}
use krateo_rest_dynamic_cont.Handler.Writing.{
  store_created, store_updated, create_call, create_by, create_with, create_resource, update_call,
  update_by, update_with, update_resource,
}
use krateo_rest_dynamic_cont.Handler.Changes.{Changed, KeptByCreate, KeptByUpdate}
use krateo_rest_dynamic_cont.Handler.Steps.{store_created-Kept, store_updated-Kept}
use krateo_rest_dynamic_cont.Handler.Sent.{write_by_action_ok, send_change_ok}

abbrev create_ref : Info → Option ApiRef
create_ref info = (info.resource).create_api_ref

abbrev update_ref : Info → Option ApiRef
update_ref info = (info.resource).update_api_ref

-- A create, and an update, that returns no error.
abbrev pub Created : World → Externals → State → State → Type 0
Created w x =
    Changed w x Builder.create create_ref false (KeptByCreate x) Reason.resource_created
      Condition.creating

abbrev pub Updated : World → Externals → State → State → Type 0
Updated w x =
    Changed w x Builder.update update_ref true (KeptByUpdate x) Reason.resource_updated
      Condition.available

module _ (w : World) (x : Externals) (s s' : State) (info : Info) (cli : Client)
    (known : w.definition s.mg ≡ ok info) (built : w.build_client s.trace info.url ≡ ok cli) where
  create_call_ok :
      (r : Result (Option (CallInfo × VerbsDescription)))
      → (info.resource).create_api_ref ≡ none
      → api_call_builder cli info Builder.create ≡ r
      → create_call w x cli info r s ≡ (ok tt, s')
      → Created w x s s'
  unfolding create_call
  create_call_ok (err e) hr hc h = absurd (err-ne-ok (ap (λ p. p.0) h))
  create_call_ok (ok none) hr hc h =
      Changed.undeclared info cli known built hr hc (sym (ap (λ p. p.1) h))
  create_call_ok (ok (some (c, v))) hr hc h =
      send_change_ok w x Builder.create create_ref false (KeptByCreate x) Reason.resource_created
        Condition.creating s s' info cli known built c v (store_created x info)
        (store_created-Kept x info) hr hc h

  create_by_ok :
      (o : Option ApiRef)
      → (info.resource).create_api_ref ≡ o
      → create_by w x info cli o s ≡ (ok tt, s')
      → Created w x s s'
  unfolding create_by
  create_by_ok none hr h = create_call_ok (api_call_builder cli info Builder.create) hr refl h
  create_by_ok (some r) hr h =
      write_by_action_ok w x Builder.create create_ref false (KeptByCreate x)
        Reason.resource_created Condition.creating s s' info cli known built r hr h

  update_call_ok :
      (r : Result (Option (CallInfo × VerbsDescription)))
      → (info.resource).update_api_ref ≡ none
      → api_call_builder cli info Builder.update ≡ r
      → update_call w x cli info r s ≡ (ok tt, s')
      → Updated w x s s'
  unfolding update_call
  update_call_ok (err e) hr hc h = absurd (err-ne-ok (ap (λ p. p.0) h))
  update_call_ok (ok none) hr hc h =
      Changed.undeclared info cli known built hr hc (sym (ap (λ p. p.1) h))
  update_call_ok (ok (some (c, v))) hr hc h =
      send_change_ok w x Builder.update update_ref true (KeptByUpdate x) Reason.resource_updated
        Condition.available s s' info cli known built c v (store_updated x info)
        (store_updated-Kept x info) hr hc h

  update_by_ok :
      (o : Option ApiRef)
      → (info.resource).update_api_ref ≡ o
      → update_by w x info cli o s ≡ (ok tt, s')
      → Updated w x s s'
  unfolding update_by
  update_by_ok none hr h = update_call_ok (api_call_builder cli info Builder.update) hr refl h
  update_by_ok (some r) hr h =
      write_by_action_ok w x Builder.update update_ref true (KeptByUpdate x) Reason.resource_updated
        Condition.available s s' info cli known built r hr h

-- Create returns no error only if a RESTAction carried it out; or no create verb is declared, and then
-- nothing was done; or the Role of the secrets was provisioned, every resolver was resolved, the
-- request built with their values was transformed and accepted by the API; a long-running operation,
-- where the verb declares one, was recorded in the mode "requeue" and else driven to its last answer;
-- and the status was cleared and, where the last answer has a body, filled from the normalized one.
-- In the first case the resource was marked creating, in the last pending, where the last answer's code
-- is 100, 102 or 202 or the operation was recorded, and else creating; and the status that has this
-- condition was accepted by the cluster.
pub create_resource_ok :
    (w : World) (x : Externals) (s s' : State)
    → create_resource w x s ≡ (ok tt, s')
    → Created w x s s'
unfolding create_resource create_with
create_resource_ok w x s s' h =
    let (info, hi, h1) =
      bind_ok (lift (w.definition s.mg)) (λ info. build w info >>= create_with w x info) s h in
    let (cli, hc, h2) = bind_ok (build w info) (create_with w x info) s h1 in
    create_by_ok w x s s' info cli hi hc (info.resource).create_api_ref refl h2

-- Update returns no error only in the like three cases, for the update verb, where the Role of the
-- secrets is expected to be there; the status is left as it is where the last answer has no body, and
-- else cleared and filled from the normalized one. A RESTAction leaves the resource marked available.
pub update_resource_ok :
    (w : World) (x : Externals) (s s' : State)
    → update_resource w x s ≡ (ok tt, s')
    → Updated w x s s'
unfolding update_resource update_with
update_resource_ok w x s s' h =
    let (info, hi, h1) =
      bind_ok (lift (w.definition s.mg)) (λ info. build w info >>= update_with w x info) s h in
    let (cli, hc, h2) = bind_ok (build w info) (update_with w x info) s h1 in
    update_by_ok w x s s' info cli hi hc (info.resource).update_api_ref refl h2
