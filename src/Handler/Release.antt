-- ===== src/Handler/Release.antt =====
-- Delete of internal/controllers/restResources.go: when the finalizer of a resource is released.
use krateo_rest_dynamic_cont.Base.{
  ◌≡◌, refl, sym, ap, ◌∙◌, Bool, true, false, List, [], ◌∷◌, Option, none, some, Text, Error,
  Result, ok, err, err-ne-ok,
}
use krateo_rest_dynamic_cont.Value.{Value}
use krateo_rest_dynamic_cont.Definition.{VerbsDescription, ApiRef, Info}
use krateo_rest_dynamic_cont.Externals.{Externals}
use krateo_rest_dynamic_cont.Builder.{ApiAction, CallInfo, RequestConfiguration}
use krateo_rest_dynamic_cont.Builder
use krateo_rest_dynamic_cont.Builder.Calls.{Client, api_call_builder, build_call_config}
use krateo_rest_dynamic_cont.Builder.Addressing.{unresolved_path_params}
use krateo_rest_dynamic_cont.Handler.{Reason, World, State, call, bind_ok}
use krateo_rest_dynamic_cont.Handler.Delegation.{external_resource_still_exists}
use krateo_rest_dynamic_cont.Handler.Deleting.{
  delete_call, await_delete, delete_by, send_delete, release_or_send, addressed, delete_by_call,
  delete_by_action, delete_defined, delete_with, delete_resource, hold_or_release,
  still_present_or_release, transformed, answered, with_body, torn_down_by, seen, build,
  resolve_or_nothing,
}
use krateo_rest_dynamic_cont.Handler.Reasons.{LetGo, warning_ok, no_call, finished, cons-ne-nil}

module _ (w : World) (x : Externals) (cli : Client) (info : Info) (s : State)
    (known : w.definition s.mg ≡ ok info) (built : w.build_client s.trace info.url ≡ ok cli) where
  -- The delete verb's call, after its secrets were resolved.
  module _ (c : CallInfo) (v : VerbsDescription) (resolved : List (Text × Value)) (t : State)
      (no_ref : (info.resource).delete_api_ref ≡ none)
      (calls : api_call_builder cli info Builder.delete ≡ ok (some (c, v)))
      (resolves : resolve_or_nothing w x info c s ≡ (ok resolved, t)) where
    abbrev built_request : RequestConfiguration
    built_request = build_call_config x c t.mg info.configuration_spec resolved

    send_delete_ok :
        (s' : State)
        → unresolved_path_params c.path built_request.parameters ≡ []
        → send_delete w x cli info c built_request t ≡ (ok tt, s')
        → LetGo w x s
    unfolding send_delete call
    send_delete_ok s' complete h =
        let req = built_request in
        let (body, hb, h1) = bind_ok (transformed x c req) _ t h in
        let s1 : State = (transformed x c req t).1 in
        let (resp, hr, h2) = bind_ok (answered w c (with_body req body)) _ s1 h1 in
        let s2 : State = (answered w c (with_body req body) s1).1 in
        let (r, hw, h3) = bind_ok (await_delete w x cli info resp (with_body req body)) _ s2 h2 in
        LetGo.accepted info cli c v resolved t req body resp known built no_ref calls resolves refl
          complete hb
          (warning_ok Reason.resource_deleted (call w c.path (with_body req body)) s1 hr)
          (finished w x cli info resp (with_body req body) s2 r hw)

    release_or_send_ok :
        (s' : State) (missing : List Text)
        → unresolved_path_params c.path built_request.parameters ≡ missing
        → release_or_send w x cli info c built_request missing t ≡ (ok tt, s')
        → LetGo w x s
    unfolding release_or_send
    release_or_send_ok s' [] e h = send_delete_ok s' e h
    release_or_send_ok s' (name ∷ names) e h =
        LetGo.unaddressable info cli c v resolved t known built no_ref calls resolves
          (λ none_missing. cons-ne-nil (sym e ∙ none_missing))

    addressed_ok : (s' : State) → addressed w x cli info c resolved t ≡ (ok tt, s') → LetGo w x s
    unfolding addressed
    addressed_ok s' h = release_or_send_ok s' _ refl h

  delete_by_call_ok :
      (s' : State)
      → (info.resource).delete_api_ref ≡ none
      → delete_by_call w x cli info s ≡ (ok tt, s')
      → LetGo w x s
  unfolding delete_by_call delete_call
  delete_by_call_ok s' no_ref h = go (api_call_builder cli info Builder.delete) refl h
    where
      go :
          (o : Result (Option (CallInfo × VerbsDescription)))
          → api_call_builder cli info Builder.delete ≡ o
          → delete_call w x cli info o s ≡ (ok tt, s')
          → LetGo w x s
      go (err e) q h = absurd (err-ne-ok (ap (λ p. p.0) h))
      go (ok none) q h = LetGo.undeclared info known no_ref (no_call cli info q)
      go (ok (some (c, v))) q h =
          let (resolved, hr, h1) =
            bind_ok (resolve_or_nothing w x info c) (addressed w x cli info c) s h in
          addressed_ok c v resolved (resolve_or_nothing w x info c s).1 no_ref q
            (λ i. (hr i, (resolve_or_nothing w x info c s).1)) s' h1

  gone :
      (ref : ApiRef)
      → (info.resource).delete_api_ref ≡ some ref
      → (torn_down_by w x info ref s).0 ≡ ok tt
      → (t' s' : State) (exists : Bool)
      → (external_resource_still_exists w x cli info (torn_down_by w x info ref s).1).0 ≡ ok exists
      → still_present_or_release w exists t' ≡ (ok tt, s')
      → LetGo w x s
  unfolding still_present_or_release
  gone ref e torn t' s' true he h = absurd (err-ne-ok (ap (λ p. p.0) h))
  gone ref e torn t' s' false he h = LetGo.verified info cli ref known built e torn he

  delete_by_action_ok :
      (ref : ApiRef)
      → (info.resource).delete_api_ref ≡ some ref
      → (s' : State) → delete_by_action w x cli info ref s ≡ (ok tt, s')
      → LetGo w x s
  unfolding delete_by_action
  delete_by_action_ok ref e s' h =
      let (done, hd, h1) = bind_ok (torn_down_by w x info ref) _ s h in
      let s1 : State = (torn_down_by w x info ref s).1 in
      let (exists, he, h2) = bind_ok (seen w x cli info) _ s1 h1 in
      gone ref e hd (seen w x cli info s1).1 s' exists
        (warning_ok Reason.resource_deleted (external_resource_still_exists w x cli info) s1 he) h2

  delete_with_ok : (s' : State) → delete_with w x info cli s ≡ (ok tt, s') → LetGo w x s
  unfolding delete_with delete_by
  delete_with_ok s' h = go (info.resource).delete_api_ref refl h
    where
      go :
          (o : Option ApiRef)
          → (info.resource).delete_api_ref ≡ o
          → delete_by w x info cli o s ≡ (ok tt, s')
          → LetGo w x s
      go none e h = delete_by_call_ok s' e h
      go (some ref) e h = delete_by_action_ok ref e s' h

held :
    (w : World) (x : Externals) (e : Error) (s s' : State)
    → w.definition s.mg ≡ err e
    → hold_or_release w e s ≡ (ok tt, s')
    → LetGo w x s
unfolding hold_or_release
held w x Error.definition_not_found s s' known h = LetGo.undefined known
held w x e s s' known h = absurd (err-ne-ok (ap (λ p. p.0) h))

-- Delete lets a resource go, by returning no error, only if its definition is absent; or neither a
-- RESTAction nor a verb is declared for deletion; or the RESTAction succeeded and the get after it
-- does not show the resource (or no get can be made); or the path of the request that is built for
-- the delete verb lacks a parameter; or that path is complete, the API accepted the transformed
-- request, and the asynchronous operation that the verb declares, if any, has succeeded.
pub delete_resource_ok :
    (w : World) (x : Externals) (s s' : State) → delete_resource w x s ≡ (ok tt, s') → LetGo w x s
unfolding delete_resource delete_defined
delete_resource_ok w x s s' h = go (w.definition s.mg) refl h
  where
    go :
        (o : Result Info)
        → w.definition s.mg ≡ o
        → (elim o [ err e ↦ hold_or_release w e s | ok info ↦ delete_defined w x info s ])
          ≡ (ok tt, s')
        → LetGo w x s
    go (err e) q h = held w x e s s' q h
    go (ok info) q h =
        let (cli, hc, h1) = bind_ok (build w info) (delete_with w x info) s h in
        delete_with_ok w x cli info s q hc s' h1
