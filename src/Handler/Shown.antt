-- ===== src/Handler/Shown.antt =====
-- Observe of internal/controllers/restResources.go, from the call of the external API on: what each
-- observation rests on.
use krateo_rest_dynamic_cont.Base.{
  ◌≡◌, ◌≢◌, refl, sym, ap, inl, inr, Bool, true, false, not, ◌&&◌, [], ◌∷◌, Option, none, some,
  if◌then◌else◌, Text, codes, Error, Result, ok, err, err-ne-ok, ok-injective, subst,
}
use krateo_rest_dynamic_cont.Value.{Value, null, obj, Fields}
use krateo_rest_dynamic_cont.Definition.{VerbsDescription, JqProgram, Info}
use krateo_rest_dynamic_cont.Externals.{Externals}
use krateo_rest_dynamic_cont.Comparison.{Comparison, equal, different}
use krateo_rest_dynamic_cont.Mapping.Response.{normalize_response_body}
use krateo_rest_dynamic_cont.Builder.{CallInfo}
use krateo_rest_dynamic_cont.Builder
use krateo_rest_dynamic_cont.Builder.Calls.{Client, api_call_builder, is_resource_known}
use krateo_rest_dynamic_cont.Handler.{
  Response, Condition, World, State, M, pure, lift, fail, bind_ok, best_effort, set_condition,
  update_status_of, push_status,
}
use krateo_rest_dynamic_cont.Handler.Requeue.{
  Observation, async_operation_in_flight, drive_async_requeue, populate_status, fields_of,
}
use krateo_rest_dynamic_cont.Handler.Advance.{drive_async_requeue_ok}
use krateo_rest_dynamic_cont.Handler.Observing.{not_found_body_for_action, eval_bool_predicate}
use krateo_rest_dynamic_cont.Handler.Seeing.{
  absent, ready, is_not_found, assume_available, unseen, body_says, says_absent, scope_fields,
  report, compared, see_body, see_unless, missing_or_failed, see_answer, then_see, see_known,
  see_searched, see_by, see_remote, poll_in_flight, polled,
}
use krateo_rest_dynamic_cont.Handler.Evidence.{judged, Asked, NoSearch, Shown}

pub gives : {A : Type 0} {a b : A} {s s' : State} → pure a s ≡ (ok b, s') → a ≡ b
gives h = ok-injective (ap (λ p. p.0) h)

pub fails : {A : Type 0} {e : Error} {b : A} {s s' : State} → fail e s ≡ (ok b, s') → ⊥
fails h = err-ne-ok (ap (λ p. p.0) h)

pub some-ne-none : {o : Observation} → some o ≢ none
some-ne-none h = cc

pub assume_available_ok :
    (w : World) (s : State) (o : Observation) (s' : State)
    → assume_available w s ≡ (ok o, s')
    → o ≡ ready
unfolding assume_available
assume_available_ok w s o s' h =
    let (a, ha, h1) = bind_ok (set_condition w Condition.available) _ s h in
    let s1 : State = (set_condition w Condition.available s).1 in
    let (b, hb, h2) = bind_ok (push_status w) _ s1 h1 in sym (gives h2)

pub report_ok :
    (w : World) (c : Comparison) (s : State) (o : Observation) (s' : State)
    → report w c s ≡ (ok o, s')
    → o ≡ judged c
unfolding report
report_ok w equal s o s' h =
    let (a, ha, h1) = bind_ok (set_condition w Condition.available) _ s h in
    let s1 : State = (set_condition w Condition.available s).1 in
    let (b, hb, h2) = bind_ok (update_status_of w) _ s1 h1 in sym (gives h2)
report_ok w (different why) s o s' h =
    let (a, ha, h1) = bind_ok (best_effort (set_condition w Condition.unavailable)) _ s h in
    sym (gives h1)

ok_false_absurd : ok false ≡ ok true → ⊥
ok_false_absurd h = cc

-- A body says that the resource is absent only by the predicate, and only if there is one, the body
-- is not nil and the resource not pending.
says_absent_true :
    (x : Externals) (o : Option JqProgram) (v : Value) (pending : Bool)
    → body_says x o v pending ≡ ok true
    → (p : JqProgram) × (o ≡ some p)
      × (v ≢ null)
      × (pending ≡ false)
      × (eval_bool_predicate x (some p) v ≡ ok true)
says_absent_true x none v pending h = absurd (ok_false_absurd h)
says_absent_true x (some p) null pending h = absurd (ok_false_absurd h)
says_absent_true x (some p) v true h = absurd (ok_false_absurd h)
says_absent_true x (some p) v false h = (p, refl, (λ q. cc), refl, h)

module _ (w : World) (x : Externals) (cli : Client) (info : Info) (s : State) where
  module _ (action : Text) (m : M Response) (asked : Asked w x cli info s action m) where
    see_object :
        (resp : Response) (body : Fields) (o : Observation) (s' : State)
        → (m s).0 ≡ ok resp
        → says_absent w x info action resp.body (m s).1.mg ≡ ok false
        → resp.body ≡ obj body
        → see_body w x cli info action (obj body) (m s).1 ≡ (ok o, s')
        → Shown w x cli info s o
    unfolding see_body compared
    see_object resp body o s' hm hn hb h =
        let s0 : State = (m s).1 in
        let (whole, hw, h1) =
          bind_ok (lift (normalize_response_body x (info.resource).verbs_description action body)) _
            s0 h in
        let (p, hp, h2) = bind_ok (populate_status x info (fields_of whole)) _ s0 h1 in
        let s1 : State = (populate_status x info (fields_of whole) s0).1 in
        let (u, hu, h3) = bind_ok (update_status_of w) _ s1 h2 in
        let t : State = (update_status_of w s1).1 in
        let (names, hs, h4) = bind_ok (lift (scope_fields cli info)) _ t h3 in
        let (c, hc, h5) = bind_ok (compared x info (fields_of whole) names) _ t h4 in
        subst (Shown w x cli info s) (sym (report_ok w c t o s' h5)) (
          Shown.compares action m resp body whole names t c asked hm hn hb hw hp (λ i. (hu i, t)) hs
            hc)

    see_value :
        (resp : Response) (v : Value) (o : Observation) (s' : State)
        → (m s).0 ≡ ok resp
        → says_absent w x info action resp.body (m s).1.mg ≡ ok false
        → resp.body ≡ v
        → see_body w x cli info action v (m s).1 ≡ (ok o, s')
        → Shown w x cli info s o
    unfolding see_body
    see_value resp null o s' hm hn hb h =
        subst (Shown w x cli info s) (sym (assume_available_ok w (m s).1 o s' h))
          (Shown.bodiless action m resp asked hm hb)
    see_value resp (obj body) o s' hm hn hb h = see_object resp body o s' hm hn hb h
    see_value resp v o s' hm hn hb h = absurd (fails h)

    see_unless_ok :
        (resp : Response) (gone : Bool) (o : Observation) (s' : State)
        → (m s).0 ≡ ok resp
        → says_absent w x info action resp.body (m s).1.mg ≡ ok gone
        → see_unless w x cli info action resp.body gone (m s).1 ≡ (ok o, s')
        → Shown w x cli info s o
    unfolding see_unless says_absent
    see_unless_ok resp true o s' hm hg h =
        let (p, hp, some_body, hc, he) =
          says_absent_true x (not_found_body_for_action (info.resource).verbs_description action)
            resp.body (w.is_condition_set Condition.pending (m s).1.mg) hg in
        subst (Shown w x cli info s) (gives h)
          (Shown.said_absent action m resp p asked hm hp some_body hc he)
    see_unless_ok resp false o s' hm hg h = see_value resp resp.body o s' hm hg refl h

    see_error :
        (e : Error) (gone : Bool) (o : Observation) (s' : State)
        → (m s).0 ≡ err e
        → is_not_found e ≡ gone
        → missing_or_failed w e gone (m s).1 ≡ (ok o, s')
        → Shown w x cli info s o
    unfolding missing_or_failed
    see_error e true o s' hm hg h =
        subst (Shown w x cli info s) (gives h) (Shown.not_found action m e asked hm hg)
    see_error e false o s' hm hg h = absurd (fails h)

    then_see_ok :
        (o : Observation) (s' : State)
        → then_see w x cli info action m s ≡ (ok o, s')
        → Shown w x cli info s o
    unfolding see_answer
    then_see_ok o s' h = go (m s).0 refl h
      where
        go :
            (r : Result Response)
            → (m s).0 ≡ r
            → see_answer w x cli info action r (m s).1 ≡ (ok o, s')
            → Shown w x cli info s o
        go (err e) q h = see_error e (is_not_found e) o s' q refl h
        go (ok resp) q h =
            let (gone, hg, h1) =
              bind_ok (lift (says_absent w x info action resp.body (m s).1.mg))
                (see_unless w x cli info action resp.body) (m s).1 h in
            see_unless_ok resp gone o s' q hg h1

  unseen_ok :
      is_resource_known x cli info s.mg ≡ false
      → NoSearch cli info
      → (o : Observation) (s' : State) → unseen w s ≡ (ok o, s')
      → Shown w x cli info s o
  unfolding unseen
  unseen_ok hk hn o s' h =
      go (w.is_condition_set Condition.creating s.mg) (w.is_condition_set Condition.available s.mg)
        refl refl h
    where
      go :
          (a b : Bool)
          → w.is_condition_set Condition.creating s.mg ≡ a
          → w.is_condition_set Condition.available s.mg ≡ b
          → (if not a && not b then (ok absent, s) else assume_available w s) ≡ (ok o, s')
          → Shown w x cli info s o
      go false false ha hb h = subst (Shown w x cli info s) (gives h) (Shown.never_made hk hn ha hb)
      go false true ha hb h =
          subst (Shown w x cli info s) (sym (assume_available_ok w s o s' h)) (Shown.assumed hk hn)
      go true b ha hb h =
          subst (Shown w x cli info s) (sym (assume_available_ok w s o s' h)) (Shown.assumed hk hn)

  see_by_ok :
      (known : Bool)
      → is_resource_known x cli info s.mg ≡ known
      → (o : Observation) (s' : State) → see_by w x cli info known s ≡ (ok o, s')
      → Shown w x cli info s o
  unfolding see_by see_known see_searched
  see_by_ok true hk o s' h = go (api_call_builder cli info Builder.get) refl h
    where
      go :
          (r : Result (Option (CallInfo × VerbsDescription)))
          → api_call_builder cli info Builder.get ≡ r
          → see_known w x cli info r s ≡ (ok o, s')
          → Shown w x cli info s o
      go (err e) q h = absurd (fails h)
      go (ok none) q h = absurd (fails h)
      go (ok (some (c, v))) q h = then_see_ok (codes "get") _ (Asked.by_get c v hk q) o s' h
  see_by_ok false hk o s' h = go (api_call_builder cli info Builder.find_by) refl h
    where
      go :
          (r : Result (Option (CallInfo × VerbsDescription)))
          → api_call_builder cli info Builder.find_by ≡ r
          → see_searched w x cli info r s ≡ (ok o, s')
          → Shown w x cli info s o
      go (err e) q h = unseen_ok hk (inr (e, q)) o s' h
      go (ok none) q h = unseen_ok hk (inl q) o s' h
      go (ok (some (c, v))) q h = then_see_ok (codes "findby") _ (Asked.by_search c v hk q) o s' h

  pub see_remote_ok :
      (o : Observation) (s' : State)
      → see_remote w x cli info s ≡ (ok o, s')
      → Shown w x cli info s o
  unfolding see_remote
  see_remote_ok o s' h = see_by_ok (is_resource_known x cli info s.mg) refl o s' h

  -- An observation of a poll: the operation is still pending.
  pub polled-ready : (o : Observation) → (polled w x cli info s).0 ≡ ok (some o) → o ≡ ready
  unfolding polled poll_in_flight
  polled-ready o h = go (async_operation_in_flight w s.mg) h
    where
      go : (op : Text × Text) → (poll_in_flight w x cli info op s).0 ≡ ok (some o) → o ≡ ready
      go ([], action) h = absurd (some-ne-none (sym (ok-injective h)))
      go (c ∷ id, action) h =
          (drive_async_requeue_ok w x cli info (c ∷ id) action s _ (some o)
            (λ i. (h i, (drive_async_requeue w x cli info (c ∷ id) action s).1))).0
