-- ===== src/Handler/Steps.antt =====
-- Create and Update of internal/controllers/restResources.go: what follows the answer of a verb.
use krateo_rest_dynamic_cont.Base.{
  ◌≡◌, ◌≢◌, ◌⊎◌, inl, inr, refl, sym, ap, subst, arith, ℕ, ◌==◌, ◌||◌, if◌then◌else◌, Bool, true,
  false, Option, none, some, Text, codes, equal_fold, ok, err-ne-ok, ok-injective,
}
use krateo_rest_dynamic_cont.Value.{Value, null, obj}
use krateo_rest_dynamic_cont.Definition.{VerbsDescription, AsyncConfig, Info}
use krateo_rest_dynamic_cont.Externals.{Externals}
use krateo_rest_dynamic_cont.Mapping.Response.{normalize_response_body}
use krateo_rest_dynamic_cont.Builder.{RequestConfiguration}
use krateo_rest_dynamic_cont.Builder.Calls.{Client, find_verb}
use krateo_rest_dynamic_cont.Handler.{
  Response, Condition, World, State, ◌>>=◌, bind_ok, pure, lift, is_pending,
}
use krateo_rest_dynamic_cont.Handler.Delegation.{clear_status_fields}
use krateo_rest_dynamic_cont.Handler.Requeue.{async_requeue_enabled, record_async_operation}
use krateo_rest_dynamic_cont.Handler.Waiting.{async_config_for_action, drive_async}
use krateo_rest_dynamic_cont.Handler.Writing.{
  follow_with, clear_status, store_body, store_created, store_updated, condition_of,
}
use krateo_rest_dynamic_cont.Handler.Changes.{
  Runs, EndsAtOnce, Followed, Asks, cleared, Populated, KeptByCreate, KeptByUpdate,
}

pends : (n : ℕ) → (n == 102 || (n == 100 || n == 202)) ≡ true → (n ≡ 102) ⊎ ((n ≡ 100) ⊎ (n ≡ 202))
pends n h = ground arith

pends_not :
    (n : ℕ) → (n == 102 || (n == 100 || n == 202)) ≡ false → (n ≢ 102) × (n ≢ 100) × (n ≢ 202)
pends_not n h = (λ e. ground arith, λ e. ground arith, λ e. ground arith)

pub condition_of-Asks :
    (resp : Response) (requeued : Bool) → Asks resp requeued (condition_of resp requeued)
unfolding condition_of is_pending
condition_of-Asks resp requeued =
    go (resp.status_code == 102 || (resp.status_code == 100 || resp.status_code == 202)) requeued
      refl refl
  where
    go :
        (b r : Bool)
        → (resp.status_code == 102 || (resp.status_code == 100 || resp.status_code == 202)) ≡ b
        → requeued ≡ r
        → Asks resp requeued (if b || r then Condition.pending else Condition.creating)
    go true r h e = Asks.answer_pends (pends resp.status_code h)
    go false true h e = Asks.operation_pends e
    go false false h e = Asks.neither_pends e (pends_not resp.status_code h)

module _ (x : Externals) (info : Info) where
  store_body_ok :
      (action : Text) (v : Value) (t t' : State)
      → store_body x info action v t ≡ (ok tt, t')
      → ((v ≡ null) × (t' ≡ t)) ⊎ Populated x info action v t t'
  unfolding store_body
  store_body_ok action null t t' h = inl (refl, sym (ap (λ p. p.1) h))
  store_body_ok action (obj fs) t t' h =
      let (whole, hw, h1) =
        bind_ok (lift (normalize_response_body x (info.resource).verbs_description action fs)) _ t
          h in
      inr (fs, whole, refl, hw, h1)
  store_body_ok action v t t' h = absurd (err-ne-ok (ap (λ p. p.0) h))

  pub store_created-Kept :
      (v : Value) (t t' : State)
      → store_created x info v t ≡ (ok tt, t')
      → KeptByCreate x info v t t'
  unfolding store_created clear_status clear_status_fields
  store_created-Kept v t t' h =
      let (u, hu, h1) =
        bind_ok (clear_status x) (λ cleared. store_body x info (codes "create") v) t h in
      store_body_ok (codes "create") v (cleared x t) t' h1

  present :
      (v : Value) (t t' : State)
      → v ≢ null
      → (clear_status x >>= λ cleared. store_body x info (codes "update") v) t ≡ (ok tt, t')
      → KeptByUpdate x info v t t'
  unfolding clear_status clear_status_fields
  present v t t' ne h =
      let (u, hu, h1) =
        bind_ok (clear_status x) (λ cleared. store_body x info (codes "update") v) t h in
      elim (store_body_ok (codes "update") v (cleared x t) t' h1) [
        | inl e ↦ absurd (ne e.0)
        | inr p ↦ inr p
      ]

  pub store_updated-Kept :
      (v : Value) (t t' : State)
      → store_updated x info v t ≡ (ok tt, t')
      → KeptByUpdate x info v t t'
  unfolding store_updated
  store_updated-Kept null t t' h = inl (refl, sym (ap (λ p. p.1) h))
  store_updated-Kept v t t' h = present v t t' (λ e. cc) h

module _ (info : Info) (action : Text) where
  config_none :
      async_config_for_action (info.resource).verbs_description action ≡ none
      → EndsAtOnce info action
  unfolding async_config_for_action
  config_none h = go (find_verb (info.resource).verbs_description action) refl h
    where
      go :
          (o : Option VerbsDescription)
          → find_verb (info.resource).verbs_description action ≡ o
          → (elim o [ none ↦ none | some v ↦ v.async ]) ≡ none
          → EndsAtOnce info action
      go none e h = inl e
      go (some v) e h = inr (v, e, h)

  config_some :
      (cfg : AsyncConfig)
      → async_config_for_action (info.resource).verbs_description action ≡ some cfg
      → Runs info action cfg
  unfolding async_config_for_action
  config_some cfg h = go (find_verb (info.resource).verbs_description action) refl h
    where
      go :
          (o : Option VerbsDescription)
          → find_verb (info.resource).verbs_description action ≡ o
          → (elim o [ none ↦ none | some v ↦ v.async ]) ≡ some cfg
          → Runs info action cfg
      go none e h = cc
      go (some v) e h = (v, e, h)

module _ (w : World) (x : Externals) (cli : Client) (info : Info) (action : Text) (resp : Response)
    (req : RequestConfiguration) (t t' : State) (last : Response × Bool) where
  moved :
      (r : Response) (b : Bool) (u : State)
      → Followed w x cli info action resp req t r b u
      → pure (r, b) u ≡ (ok last, t')
      → Followed w x cli info action resp req t last.0 last.1 t'
  moved r b u f h =
      let same : (r, b) ≡ last = ok-injective (ap (λ p. p.0) h) in
      let there : u ≡ t' = ap (λ p. p.1) h in
      subst
        (λ (q : (Response × Bool) × State).
          Followed w x cli info action resp req t (q.0).0 (q.0).1 q.1)
        (λ i. (same i, there i)) f

  pub followed_with :
      (o : Option AsyncConfig)
      → async_config_for_action (info.resource).verbs_description action ≡ o
      → follow_with w x cli info action resp req o t ≡ (ok last, t')
      → Followed w x cli info action resp req t last.0 last.1 t'
  unfolding follow_with async_requeue_enabled
  followed_with none ho h = moved resp false t (Followed.at_once (config_none info action ho)) h
  followed_with (some cfg) ho h = go (equal_fold cfg.mode (codes "requeue")) refl h
    where
      go :
          (b : Bool)
          → equal_fold cfg.mode (codes "requeue") ≡ b
          → (if b
                then (record_async_operation w x cfg action resp req >>= λ recorded.
                    pure (resp, true))
                else (drive_async w x cli info cfg action resp req >>= λ last. pure (last, false)))
              t
            ≡ (ok last, t')
          → Followed w x cli info action resp req t last.0 last.1 t'
      go true e h =
          let (u, hu, h1) =
            bind_ok (record_async_operation w x cfg action resp req) (λ recorded. pure (resp, true))
              t h in
          let t1 : State = (record_async_operation w x cfg action resp req t).1 in
          moved resp true t1
            (Followed.recorded cfg t1 (config_some info action cfg ho) e (λ i. (hu i, t1))) h1
      go false e h =
          let (r, hr, h1) =
            bind_ok (drive_async w x cli info cfg action resp req) (λ last. pure (last, false)) t
              h in
          let t1 : State = (drive_async w x cli info cfg action resp req t).1 in
          moved r false t1
            (Followed.awaited cfg r t1 (config_some info action cfg ho) e (λ i. (hr i, t1))) h1
