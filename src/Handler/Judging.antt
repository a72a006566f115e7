-- ===== src/Handler/Judging.antt =====
-- What a delegated observe reports.
use krateo_rest_dynamic_cont.Base.{
  ◌≡◌, ◌≢◌, ◌⊎◌, inl, inr, refl, sym, ap, subst, ◌∙◌, Bool, true, false, not, ◌&&◌, List, [], ◌∷◌,
  Option, none, some, some-injective, Text, is_empty, Error, Result, ok, err, err-ne-ok,
  ok-injective, if◌then◌else◌,
}
use krateo_rest_dynamic_cont.Value.{Value, bool, Fields}
use krateo_rest_dynamic_cont.Definition.{ApiRef, JqProgram}
use krateo_rest_dynamic_cont.Externals.{Externals}
use krateo_rest_dynamic_cont.Handler.{
  Effect, World, State, M, ◌>>=◌, bind_ok, lift, fail, set_condition, update_status_of,
}
use krateo_rest_dynamic_cont.Handler.Delegation.{invoke}
use krateo_rest_dynamic_cont.Handler.Requeue.{Observation, async_operation_in_flight}
use krateo_rest_dynamic_cont.Handler.Observing.{
  as_bool, eval_bool_predicate, up_to_date_by, predicate_context, condition_for, write_status,
  project_observed, judge_found, judge, observe_with, observe_via_rest_action,
}

-- What a predicate says of a context: its program's answer, and a given one where there is no program.
pub data Says (x : Externals) (ctx : Value) (unset : Bool) : Option JqProgram → Bool → Type 0 where
  undeclared : Says x ctx unset none unset
  sourceless : (p : JqProgram) → p.inline ≡ [] → p.ref ≡ [] → Says x ctx unset (some p) unset
  answers :
      (p : JqProgram) (b : Bool)
      → p.inline ≢ []
      → x.run_jq p.inline ctx ≡ ok (bool b)
      → Says x ctx unset (some p) b

-- Why a delegated observe reports what it does, by the two predicates on a composed status.
abbrev pub Reported : Externals → ApiRef → Fields → Fields → Observation → State → Type 0
Reported x ref result mg o s' =
    ((o ≡ record { exists = false; up_to_date = false })
      × Says x (predicate_context x mg result) false ref.not_found_expr true
      × (s'.mg ≡ mg))
    ⊎ ((o ≡ record { exists = true; up_to_date = o.up_to_date })
        × Says x (predicate_context x mg result) false ref.not_found_expr false
        × Says x (predicate_context x mg result) true ref.up_to_date_expr o.up_to_date)

-- The same, for the status that the RESTAction of the resource composes.
abbrev pub Judged : World → Externals → ApiRef → List Text → State → Observation → State → Type 0
Judged w x ref ids s o s' =
    (resolve : List Effect → ApiRef → Fields → Result Fields) × (w.resolve ≡ some resolve)
    × ((result : Fields) × ((invoke w x resolve ref ids s).0 ≡ ok result)
        × Reported x ref result s.mg o s')

nothing_of : (s : Text) → is_empty s ≡ true → s ≡ []
nothing_of [] h = refl
nothing_of (c ∷ s) h = cc

something_of : (s : Text) → is_empty s ≡ false → s ≢ []
something_of [] h = cc
something_of (c ∷ s) h = λ e. cc

as_bool_ok : (r : Result Value) (b : Bool) → as_bool r ≡ ok b → r ≡ ok (bool b)
as_bool_ok (ok (bool c)) b h = ap (λ c. ok (bool c)) (ok-injective h)
as_bool_ok (ok v) b h = absurd (err-ne-ok h)
as_bool_ok (err e) b h = absurd (err-ne-ok h)

module _ (x : Externals) (ctx : Value) where
  program-Says :
      (p : JqProgram) (b unset : Bool)
      → (no_source no_ref : Bool) → is_empty p.inline ≡ no_source
      → is_empty p.ref ≡ no_ref
      → (if not no_source
          then as_bool (x.run_jq p.inline ctx)
          else if not no_ref
          then err Error.unresolved_module
          else ok unset)
        ≡ ok b
      → Says x ctx unset (some p) b
  program-Says p b unset false no_ref hi hr h =
      Says.answers p b (something_of p.inline hi) (as_bool_ok (x.run_jq p.inline ctx) b h)
  program-Says p b unset true false hi hr h = absurd (err-ne-ok h)
  program-Says p b unset true true hi hr h =
      subst (Says x ctx unset (some p)) (ok-injective h)
        (Says.sourceless p (nothing_of p.inline hi) (nothing_of p.ref hr))

  eval_bool_predicate-Says :
      (o : Option JqProgram) (b : Bool) → eval_bool_predicate x o ctx ≡ ok b → Says x ctx false o b
  unfolding eval_bool_predicate
  eval_bool_predicate-Says none b h = subst (Says x ctx false none) (ok-injective h) Says.undeclared
  eval_bool_predicate-Says (some p) b h =
      program-Says p b false (is_empty p.inline) (is_empty p.ref) refl refl h

  up_to_date_by-Says :
      (o : Option JqProgram) (b : Bool) → up_to_date_by x o ctx ≡ ok b → Says x ctx true o b
  unfolding up_to_date_by eval_bool_predicate
  up_to_date_by-Says none b h = subst (Says x ctx true none) (ok-injective h) Says.undeclared
  up_to_date_by-Says (some p) b h = go (is_empty p.inline) (is_empty p.ref) refl refl h
    where
      go :
          (no_source no_ref : Bool)
          → is_empty p.inline ≡ no_source
          → is_empty p.ref ≡ no_ref
          → (if no_source && no_ref
              then ok true
              else if not no_source
              then as_bool (x.run_jq p.inline ctx)
              else if not no_ref
              then err Error.unresolved_module
              else ok false)
            ≡ ok b
          → Says x ctx true (some p) b
      go false no_ref hi hr h = program-Says p b true false no_ref hi hr h
      go true false hi hr h = absurd (err-ne-ok h)
      go true true hi hr h = program-Says p b true true true hi hr h

none-ne-some : {o : Observation} → none ≢ some o
none-ne-some h = cc

module _ (w : World) (x : Externals) (ref : ApiRef) where
  project_observed_ok :
      (result : Fields) (up : Bool) (s s' : State) (o : Observation)
      → project_observed w x result up s ≡ (ok (some o), s')
      → o ≡ record { exists = true; up_to_date = up }
  unfolding project_observed
  project_observed_ok result up s s' o h =
      let (a, ha, h1) = bind_ok (write_status x result) _ s h in
      let s1 : State = (write_status x result s).1 in
      let (b, hb, h2) = bind_ok (set_condition w (condition_for up)) _ s1 h1 in
      let s2 : State = (set_condition w (condition_for up) s1).1 in
      let (c, hc, h3) = bind_ok (update_status_of w) _ s2 h2 in
      sym (some-injective (ok-injective (ap (λ p. p.0) h3)))

  judge_found_ok :
      (result : Fields) (found : Bool) (s s' : State) (o : Observation)
      → eval_bool_predicate x ref.not_found_expr (predicate_context x s.mg result) ≡ ok found
      → judge_found w x ref result found s ≡ (ok (some o), s')
      → Reported x ref result s.mg o s'
  unfolding judge_found
  judge_found_ok result true s s' o e h =
      (inl (
        sym (some-injective (ok-injective (ap (λ p. p.0) h))),
        eval_bool_predicate-Says x (predicate_context x s.mg result) ref.not_found_expr true e,
        sym (ap (λ p. (p.1).mg) h),
      ))
  judge_found_ok result false s s' o e h =
      let (up, hu, h1) =
        bind_ok (lift (up_to_date_by x ref.up_to_date_expr (predicate_context x s.mg result)))
          (project_observed w x result) s h in
      let is = project_observed_ok result up s s' o h1 in
      (inr (
        is ∙ ap (λ b. record { exists = true; up_to_date = b }) (sym (ap (λ r. r.up_to_date) is)),
        eval_bool_predicate-Says x (predicate_context x s.mg result) ref.not_found_expr false e,
        up_to_date_by-Says x (predicate_context x s.mg result) ref.up_to_date_expr o.up_to_date
            (hu ∙ ap ok (sym (ap (λ r. r.up_to_date) is))),
      ))

  observe_with_ok :
      (resolve : List Effect → ApiRef → Fields → Result Fields) (ids : List Text) (s s' : State)
      (o : Observation)
      → observe_with w x resolve ref ids s ≡ (ok (some o), s')
      → (result : Fields) × ((invoke w x resolve ref ids s).0 ≡ ok result)
        × Reported x ref result s.mg o s'
  unfolding observe_with judge invoke
  observe_with_ok resolve ids s s' o h = go (not (is_empty (async_operation_in_flight w s.mg).0)) h
    where
      go :
          (busy : Bool)
          → (if busy then (ok none, s) else (invoke w x resolve ref ids >>= judge w x ref) s)
            ≡ (ok (some o), s')
          → (result : Fields) × ((invoke w x resolve ref ids s).0 ≡ ok result)
            × Reported x ref result s.mg o s'
      go true h = absurd (none-ne-some (ok-injective (ap (λ p. p.0) h)))
      go false h =
          let (result, hr, h1) = bind_ok (invoke w x resolve ref ids) (judge w x ref) s h in
          let s1 : State = (invoke w x resolve ref ids s).1 in
          let (found, hf, h2) =
            bind_ok
              (lift (eval_bool_predicate x ref.not_found_expr (predicate_context x s.mg result)))
              (judge_found w x ref result) s1 h1 in
          (result, hr, judge_found_ok result found s1 s' o hf h2)

-- When a delegated observe makes a report, then for the status that the RESTAction composed, either
-- the program of notFoundExpr answers true, the resource is reported as absent and left as it was; or
-- it answers false, or has no source, and the resource is reported as existing, and as up to date as
-- the program of upToDateExpr answers, or up to date if that has no source.
pub observe_via_rest_action_ok :
    (w : World) (x : Externals) (ref : ApiRef) (ids : List Text) (s s' : State) (o : Observation)
    → observe_via_rest_action w x (some ref) ids s ≡ (ok (some o), s')
    → Judged w x ref ids s o s'
unfolding observe_via_rest_action
observe_via_rest_action_ok w x ref ids s s' o h = go w.resolve (λ i. w.resolve) h
  where
    go :
        (r : Option (List Effect → ApiRef → Fields → Result Fields))
        → w.resolve ≡ r
        → (elim r as (λ r. M (Option Observation)) [
          | none ↦ fail Error.no_snowplow
          | some resolve ↦ observe_with w x resolve ref ids
        ])
            s
          ≡ (ok (some o), s')
        → Judged w x ref ids s o s'
    go none q h = absurd (err-ne-ok (ap (λ p. p.0) h))
    go (some resolve) q h = (resolve, q, observe_with_ok w x ref resolve ids s s' o h)
