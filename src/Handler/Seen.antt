-- ===== src/Handler/Seen.antt =====
-- Observe of internal/controllers/restResources.go: what each observation rests on.
use krateo_rest_dynamic_cont.Base.{◌≡◌, refl, sym, ◌∙◌, Option, none, some, ok, subst}
use krateo_rest_dynamic_cont.Definition.{Info}
use krateo_rest_dynamic_cont.Externals.{Externals}
use krateo_rest_dynamic_cont.Builder.Calls.{Client}
use krateo_rest_dynamic_cont.Handler.{World, State, lift, ◌>>=◌, bind_ok, refresh_resource}
use krateo_rest_dynamic_cont.Handler.Deleting.{build}
use krateo_rest_dynamic_cont.Handler.Requeue.{Observation}
use krateo_rest_dynamic_cont.Handler.Seeing.{
  see_remote, polled, handled_or, observe_with, delegated, observe_defined, observe_resource,
}
use krateo_rest_dynamic_cont.Handler.Evidence.{Rests}
use krateo_rest_dynamic_cont.Handler.Shown.{gives, see_remote_ok, polled-ready}

module _ (w : World) (x : Externals) (info : Info) (s : State)
    (known : w.definition s.mg ≡ ok info) where
  observe_with_ok :
      (t : State) (cli : Client) (o : Observation) (s' : State)
      → t ≡ (delegated w x info (refresh_resource w s).1).1
      → (delegated w x info (refresh_resource w s).1).0 ≡ ok none
      → w.build_client t.trace info.url ≡ ok cli
      → observe_with w x info cli t ≡ (ok o, s')
      → Rests w x s o
  unfolding observe_with handled_or
  observe_with_ok t cli o s' ht hd hc h =
      let (p, hp, h1) = bind_ok (polled w x cli info) (handled_or (see_remote w x cli info)) t h in
      go p hp h1
    where
      go :
          (p : Option Observation)
          → (polled w x cli info t).0 ≡ ok p
          → handled_or (see_remote w x cli info) p (polled w x cli info t).1 ≡ (ok o, s')
          → Rests w x s o
      go none hp h =
          Rests.on_answer info cli t o known ht hd hc hp
            (see_remote_ok w x cli info (polled w x cli info t).1 o s' h)
      go (some a) hp h =
          let e = polled-ready w x cli info t a hp in
          subst (Rests w x s) (sym e ∙ gives h) (
            Rests.on_poll info cli t known ht hd hc
              (subst (λ b. (polled w x cli info t).0 ≡ ok (some b)) e hp))

  handled_ok :
      (d : Option Observation) (o : Observation) (s' : State)
      → (delegated w x info (refresh_resource w s).1).0 ≡ ok d
      → handled_or
          (build w info >>= observe_with w x info)
          d
          (delegated w x info (refresh_resource w s).1).1
        ≡ (ok o, s')
      → Rests w x s o
  unfolding handled_or
  handled_ok (some a) o s' hd h = subst (Rests w x s) (gives h) (Rests.on_action info a known hd)
  handled_ok none o s' hd h =
      let t : State = (delegated w x info (refresh_resource w s).1).1 in
      let (cli, hc, h1) = bind_ok (build w info) (observe_with w x info) t h in
      observe_with_ok t cli o s' refl hd hc h1

-- What Observe reports without an error rests on one of three: the RESTAction, where one is declared
-- and handles the observation; the one poll of an operation in flight, which reports the resource as
-- ready only; or, behind these two, the answer of the external API. There, absent means that the API
-- answers with a status that means not found while the resource is not pending, that the declared
-- predicate holds of a body that is not nil while the resource is not pending, or that no search can be
-- made and the resource is neither creating nor available; drifted means that the comparison of the
-- stored spec with the normalized body, in the declared scope, finds a difference; ready means that it
-- finds none, that the body is nil, that the status means not found while the resource is pending, or
-- that no search can be made.
pub observe_resource_ok :
    (w : World) (x : Externals) (s s' : State) (o : Observation)
    → observe_resource w x s ≡ (ok o, s')
    → Rests w x s o
unfolding observe_resource observe_defined
observe_resource_ok w x s s' o h =
    let (info, hi, h1) = bind_ok (lift (w.definition s.mg)) (observe_defined w x) s h in
    let (r, hr, h2) = bind_ok (refresh_resource w) _ s h1 in
    let (d, hd, h3) = bind_ok (delegated w x info) _ (refresh_resource w s).1 h2 in
    handled_ok w x info s hi d o s' hd h3
