-- ===== src/Handler/Sent.antt =====
-- Create and Update of internal/controllers/restResources.go: the call of a verb, its end included.
use krateo_rest_dynamic_cont.Base.{
  ◌≡◌, refl, sym, ap, Bool, ◌∷◌, Option, none, some, Result, ok, err, err-ne-ok, ok-injective,
}
use krateo_rest_dynamic_cont.Value.{Value, Fields}
use krateo_rest_dynamic_cont.Definition.{VerbsDescription, ApiRef, Info}
use krateo_rest_dynamic_cont.Externals.{Externals}
use krateo_rest_dynamic_cont.Mapping.{apply_request_transform}
use krateo_rest_dynamic_cont.Builder.{ApiAction, action_text, CallInfo, RequestConfiguration}
use krateo_rest_dynamic_cont.Builder.Calls.{Client, api_call_builder, build_call_config}
use krateo_rest_dynamic_cont.Handler.{
  Condition, Reason, Effect, World, State, M, ◌>>=◌, bind_ok, emit, warning, set_condition,
  put_resource, push_status, continue, after_warning, discard, call,
}
use krateo_rest_dynamic_cont.Handler.Delegation.{mutate_via_rest_action}
use krateo_rest_dynamic_cont.Handler.Deleting.{provision_secrets, read_secrets, with_body}
use krateo_rest_dynamic_cont.Handler.Waiting.{async_config_for_action}
use krateo_rest_dynamic_cont.Handler.Writing.{
  transformed_request, replace_body, follow, condition_of, conclude, write_by_action, send_change,
}
use krateo_rest_dynamic_cont.Handler.Changes.{Concluded, Changed}
use krateo_rest_dynamic_cont.Handler.Steps.{condition_of-Asks, followed_with}

status_accepted :
    (w : World) (reason : Reason) (c : Condition) (t s' : State) (stored : Fields)
    → w.set_conditions c t.mg ≡ ok stored
    → (answer : Result Fields) → w.update_status t.trace stored ≡ answer
    → continue
        (λ updated. emit (Effect.noted reason))
        (after_warning reason
          (discard answer)
          (record { mg = stored; trace = Effect.status_updated ∷ t.trace })).0
        (after_warning reason
          (discard answer)
          (record { mg = stored; trace = Effect.status_updated ∷ t.trace })).1
      ≡ (ok tt, s')
    → Concluded w reason c t s'
status_accepted w reason c t s' stored hm (err e) hu h = absurd (err-ne-ok (ap (λ p. p.0) h))
status_accepted w reason c t s' stored hm (ok answer) hu h = record {
  stored = stored;
  marked = hm;
  answer = answer;
  accepted = hu;
  left = sym (ap (λ p. p.1) h);
}

condition_set :
    (w : World) (reason : Reason) (c : Condition) (t s' : State) (marked : Result Fields)
    → w.set_conditions c t.mg ≡ marked
    → continue
        (λ m. warning reason (push_status w) >>= λ updated. emit (Effect.noted reason))
        (put_resource marked t).0
        (put_resource marked t).1
      ≡ (ok tt, s')
    → Concluded w reason c t s'
unfolding ◌>>=◌ push_status
condition_set w reason c t s' (err e) hm h = absurd (err-ne-ok (ap (λ p. p.0) h))
condition_set w reason c t s' (ok stored) hm h =
    status_accepted w reason c t s' stored hm (w.update_status t.trace stored) refl h

conclude_ok :
    (w : World) (reason : Reason) (c : Condition) (t s' : State)
    → conclude w reason c t ≡ (ok tt, s')
    → Concluded w reason c t s'
unfolding conclude set_condition ◌>>=◌
conclude_ok w reason c t s' h = condition_set w reason c t s' (w.set_conditions c t.mg) refl h

-- A step that succeeds under a warning is a step that succeeds, and leaves the same state.
after_warning_runs :
    {A : Type 0} (r : Reason) (o : Result A) (t : State) {a : A}
    → (after_warning r o t).0 ≡ ok a
    → (o ≡ ok a) × ((after_warning r o t).1 ≡ t)
after_warning_runs r (ok b) t h = (h, refl)
after_warning_runs r (err e) t h = absurd (err-ne-ok h)

warning_runs :
    {A : Type 0} (r : Reason) (m : M A) (s : State) {a : A}
    → (warning r m s).0 ≡ ok a
    → m s ≡ (ok a, (warning r m s).1)
warning_runs r m s h = let (e, f) = after_warning_runs r (m s).0 (m s).1 h in λ i. (e i, sym f i)

replace_body_ok :
    (req req' : RequestConfiguration) (r : Result Value)
    → replace_body req r ≡ ok req'
    → (body : Value) × (r ≡ ok body) × (req' ≡ with_body req body)
replace_body_ok req req' (ok body) h = (body, refl, sym (ok-injective h))
replace_body_ok req req' (err e) h = absurd (err-ne-ok h)

module _ (w : World) (x : Externals) (action : ApiAction) (ref : Info → Option ApiRef)
    (expect : Bool) (Kept : Info → Value → State → State → Type 0) (reason : Reason)
    (by_ref : Condition) (s s' : State) (info : Info) (cli : Client)
    (known : w.definition s.mg ≡ ok info) (built : w.build_client s.trace info.url ≡ ok cli) where
  pub write_by_action_ok :
      (r : ApiRef)
      → ref info ≡ some r
      → write_by_action w x info r (action_text action) reason by_ref s ≡ (ok tt, s')
      → Changed w x action ref expect Kept reason by_ref s s'
  unfolding write_by_action
  write_by_action_ok r hr h =
      let m : M (Unit {0}) =
        mutate_via_rest_action w x r (info.resource).identifiers (action_text action) in
      let (done, hd, h1) = bind_ok (warning reason m) _ s h in
      Changed.through_action info cli r (warning reason m s).1 known built hr
        (warning_runs reason m s hd) (conclude_ok w reason by_ref (warning reason m s).1 s' h1)

  pub send_change_ok :
      (c : CallInfo) (v : VerbsDescription) (store : Value → M (Unit {0}))
      → ((body : Value) (t t' : State) → store body t ≡ (ok tt, t') → Kept info body t t')
      → ref info ≡ none
      → api_call_builder cli info action ≡ ok (some (c, v))
      → send_change w x cli info c (action_text action) expect store reason s ≡ (ok tt, s')
      → Changed w x action ref expect Kept reason by_ref s s'
  unfolding send_change follow provision_secrets read_secrets transformed_request call
  send_change_ok c v store keeps hr hc h =
      let (done, hp, h1) = bind_ok (provision_secrets w info expect) _ s h in
      let s1 : State = record s { trace = Effect.provisioned ∷ s.trace } in
      let (resolved, hs, h2) = bind_ok (read_secrets w x c) _ s1 h1 in
      let (req, hq, h3) = bind_ok (transformed_request x info c resolved) _ s1 h2 in
      let plain : RequestConfiguration =
        build_call_config x c s.mg info.configuration_spec resolved in
      let (body, hb, eq) =
        replace_body_ok plain req (apply_request_transform x c.request_transform plain.body) hq in
      let s2 : State = record s1 { trace = Effect.called c.path req ∷ s1.trace } in
      let (resp, ha, h4) = bind_ok (call w c.path req) _ s1 h3 in
      let (last, hl, h5) = bind_ok (follow w x cli info (action_text action) resp req) _ s2 h4 in
      let t : State = (follow w x cli info (action_text action) resp req s2).1 in
      let (stored, ht, h6) = bind_ok (store (last.0).body) _ t h5 in
      let t' : State = (store (last.0).body t).1 in
      Changed.through_call info cli c v resolved body req resp last.0 last.1
        (condition_of last.0 last.1) t t' known built hr hc hp hs hb eq ha
        (followed_with w x cli info (action_text action) resp req s2 t last
          (async_config_for_action (info.resource).verbs_description (action_text action)) refl
          (λ i. (hl i, t)))
        (keeps (last.0).body t t' (λ i. (ht i, t'))) (condition_of-Asks last.0 last.1)
        (conclude_ok w reason (condition_of last.0 last.1) t' s' h6)
