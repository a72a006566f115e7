-- ===== src/Handler/Advance.antt =====
-- driveAsyncRequeue of internal/controllers/async_requeue.go: what each outcome of it says.
use krateo_rest_dynamic_cont.Base.{
  ◌≡◌, ◌≢◌, refl, ap, sym, true, ◌⊎◌, inl, inr, Option, none, some, Text, ok, err-ne-ok,
  ok-injective, subst,
}
use krateo_rest_dynamic_cont.Definition.{AsyncConfig, Info}
use krateo_rest_dynamic_cont.Externals.{Externals}
use krateo_rest_dynamic_cont.Async.{PollOutcome, pending, succeeded, failed}
use krateo_rest_dynamic_cont.Builder.Calls.{Client}
use krateo_rest_dynamic_cont.Handler.{
  Condition, Effect, Reason, World, State, ◌>>=◌, bind_ok, set_condition, update_status_of, pure,
  emit,
}
use krateo_rest_dynamic_cont.Handler.Waiting.{async_config_for_action}
use krateo_rest_dynamic_cont.Handler.Requeue.{
  Observation, clear_async_operation, poll_async_once, re_read_if, advance, drive_with,
  drive_async_requeue,
}

some-ne-none : {o : Observation} → some o ≢ none
some-ne-none h = cc

some-injective : {a b : Observation} → some a ≡ some b → a ≡ b
some-injective h = cc

module _ (w : World) (x : Externals) (cli : Client) (info : Info) (id : Text) (s : State) where
  -- The one poll of the operation has this outcome.
  abbrev pub Polled : AsyncConfig → PollOutcome → Type 0
  Polled cfg o = (status : Text) × ((poll_async_once w x cli info cfg id s).0 ≡ ok (o, status))

  -- What a successful return says of the operation: with no observation, it is stale or it has
  -- succeeded, and its record has been cleared; with one, it is pending and nothing but the poll
  -- was done.
  abbrev pub Advanced : Option AsyncConfig → Option Observation → State → Type 0
  Advanced c none s' =
      ((c ≡ none) ⊎ ((cfg : AsyncConfig) × (c ≡ some cfg) × Polled cfg succeeded))
      × ((t : State) × (clear_async_operation w t ≡ (ok tt, s')))
  Advanced c (some o) s' =
      (o ≡ record { exists = true; up_to_date = true })
      × ((cfg : AsyncConfig) × (c ≡ some cfg)
          × Polled cfg pending
          × (s' ≡ (poll_async_once w x cli info cfg id s).1))

  cleared_then :
      (t : State) (o : Option Observation) (s' : State)
      → (clear_async_operation w >>= λ cleared. pure none) t ≡ (ok o, s')
      → (o ≡ none) × (clear_async_operation w t ≡ (ok tt, s'))
  cleared_then t o s' h =
      let (done, hd, h1) = bind_ok (clear_async_operation w) _ t h in
      (sym (ok-injective (ap (λ p. p.0) h1)), λ i. (hd i, ap (λ p. p.1) h1 i))

  never_succeeds :
      (cfg : AsyncConfig) (t : State) {o : Option Observation} {s' : State}
      → advance w x cli info cfg failed t ≡ (ok o, s')
      → ⊥
  unfolding advance
  never_succeeds cfg t h =
      let (a, ha, h1) = bind_ok (set_condition w Condition.unavailable) _ t h in
      let t1 : State = (set_condition w Condition.unavailable t).1 in
      let (b, hb, h2) = bind_ok (update_status_of w) _ t1 h1 in
      let t2 : State = (update_status_of w t1).1 in
      let (c, hc, h3) = bind_ok (clear_async_operation w) _ t2 h2 in
      let t3 : State = (clear_async_operation w t2).1 in
      let (d, hd, h4) = bind_ok (emit (Effect.warned Reason.async_failed)) _ t3 h3 in
      err-ne-ok (ap (λ p. p.0) h4)

  advanced :
      (cfg : AsyncConfig) (out : PollOutcome) (status : Text) (o : Option Observation) (s' : State)
      → (poll_async_once w x cli info cfg id s).0 ≡ ok (out, status)
      → advance w x cli info cfg out (poll_async_once w x cli info cfg id s).1 ≡ (ok o, s')
      → Advanced (some cfg) o s'
  unfolding advance
  advanced cfg succeeded status o s' hp h =
      let t : State = (poll_async_once w x cli info cfg id s).1 in
      let (read, hr, h1) = bind_ok (re_read_if cfg.post_get w x cli info) _ t h in
      let t1 : State = (re_read_if cfg.post_get w x cli info t).1 in
      let (e, hc) = cleared_then t1 o s' h1 in
      subst (λ o. Advanced (some cfg) o s') (sym e) (inr (cfg, refl, (status, hp)), (t1, hc))
  advanced cfg failed status o s' hp h =
      absurd (never_succeeds cfg (poll_async_once w x cli info cfg id s).1 h)
  advanced cfg pending status none s' hp h = absurd (some-ne-none (ok-injective (ap (λ p. p.0) h)))
  advanced cfg pending status (some o) s' hp h = (
    sym (some-injective (ok-injective (ap (λ p. p.0) h))),
    (cfg, refl, (status, hp), sym (ap (λ p. p.1) h)),
  )

  driven :
      (c : Option AsyncConfig) (o : Option Observation) (s' : State)
      → drive_with w x cli info id c s ≡ (ok o, s')
      → Advanced c o s'
  unfolding drive_with
  driven none o s' h =
      let (e, hc) = cleared_then s o s' h in
      subst (λ o. Advanced none o s') (sym e) (inl refl, (s, hc))
  driven (some cfg) o s' h =
      let (polled, hp, h1) =
        bind_ok (poll_async_once w x cli info cfg id) (λ polled. advance w x cli info cfg polled.0)
          s h in
      advanced cfg polled.0 polled.1 o s' hp h1

-- When the requeue driver returns no error, it either hands the reconcile on to a normal observe, and
-- then the verb declares no asynchronous operation any more or the one poll of it was classified a
-- success, and the record of the operation has been cleared last; or it reports the resource as
-- existing and up to date, and then the poll was classified pending and nothing but the poll was done.
pub drive_async_requeue_ok :
    (w : World) (x : Externals) (cli : Client) (info : Info) (id action : Text) (s s' : State)
    (o : Option Observation)
    → drive_async_requeue w x cli info id action s ≡ (ok o, s')
    → Advanced w x cli info id s
        (async_config_for_action (info.resource).verbs_description action)
        o
        s'
unfolding drive_async_requeue
drive_async_requeue_ok w x cli info id action s s' o h = driven w x cli info id s _ o s' h
