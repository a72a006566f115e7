-- ===== src/Secrets/Provisioned.antt =====
-- What is applied to the cluster when the grant of a resource succeeds.
use krateo_rest_dynamic_cont.Base.{
  ◌≡◌, ◌⊎◌, inl, inr, refl, sym, ap, Bool, true, false, List, [], ◌∷◌, Text, Result, ok, err,
  err-ne-ok,
}
use krateo_rest_dynamic_cont.Value.{Fields}
use krateo_rest_dynamic_cont.Definition.{Info}
use krateo_rest_dynamic_cont.Externals.{Externals}
use krateo_rest_dynamic_cont.Secrets.{
  Step, Cluster, collect_secret_ref_names, role_name, after, apply_pair, if_there,
  ensure_secret_role, ensure_named, provision_names, provision,
}

module _ (k : Cluster) (mg : Fields) (expect : Bool) where
  -- The pair of a resource's Role and its binding was applied, in this order and with these names.
  abbrev pub Applied : List Text → List Step → Type 0
  Applied names steps =
      (gvr : Text × Text) × (k.resource_of mg ≡ ok gvr)
      × ((expect ≡ true)
          → k.has_role (k.namespace mg) (role_name k gvr (k.namespace mg) (k.name mg)) ≡ ok true)
      × (steps
          ≡ Step.role_applied (role_name k gvr (k.namespace mg) (k.name mg)) names
            ∷ Step.binding_applied (role_name k gvr (k.namespace mg) (k.name mg))
            ∷ [])

  apply_pair_ok :
      (ns role : Text) (names : List Text) (steps : List Step)
      → apply_pair k ns role names ≡ (ok tt, steps)
      → steps ≡ Step.role_applied role names ∷ Step.binding_applied role ∷ []
  unfolding apply_pair
  apply_pair_ok ns role names steps h = go (k.apply_role ns role names) (k.apply_binding ns role) h
    where
      go :
          (a b : Result (Unit {0}))
          → after (Step.role_applied role names) a (after (Step.binding_applied role) b (ok tt, []))
            ≡ (ok tt, steps)
          → steps ≡ Step.role_applied role names ∷ Step.binding_applied role ∷ []
      go (err e) b h = absurd (err-ne-ok (ap (λ p. p.0) h))
      go (ok u) (err e) h = absurd (err-ne-ok (ap (λ p. p.0) h))
      go (ok u) (ok v) h = sym (ap (λ p. p.1) h)

  ensure_ok :
      (expected : Bool) (ns role : Text) (names : List Text) (steps : List Step)
      → ensure_secret_role k ns role names expected ≡ (ok tt, steps)
      → ((expected ≡ true) → k.has_role ns role ≡ ok true)
        × (steps ≡ Step.role_applied role names ∷ Step.binding_applied role ∷ [])
  unfolding ensure_secret_role
  ensure_ok false ns role names steps h = (λ e. cc, apply_pair_ok ns role names steps h)
  ensure_ok true ns role names steps h = go (k.has_role ns role) refl h
    where
      go :
          (r : Result Bool)
          → k.has_role ns role ≡ r
          → if_there r (apply_pair k ns role names) ≡ (ok tt, steps)
          → ((true ≡ true) → k.has_role ns role ≡ ok true)
            × (steps ≡ Step.role_applied role names ∷ Step.binding_applied role ∷ [])
      go (err e) q h = absurd (err-ne-ok (ap (λ p. p.0) h))
      go (ok false) q h = absurd (err-ne-ok (ap (λ p. p.0) h))
      go (ok true) q h = (λ e. q, apply_pair_ok ns role names steps h)

  named_ok :
      (names : List Text) (steps : List Step) (r : Result (Text × Text))
      → k.resource_of mg ≡ r
      → ensure_named k mg names expect r ≡ (ok tt, steps)
      → Applied names steps
  named_ok names steps (err e) q h = absurd (err-ne-ok (ap (λ p. p.0) h))
  named_ok names steps (ok gvr) q h =
      let (there, applied) =
        ensure_ok expect (k.namespace mg) (role_name k gvr (k.namespace mg) (k.name mg)) names steps
          h in
      (gvr, q, there, applied)

  names_ok :
      (names : List Text) (steps : List Step)
      → provision_names k mg expect names ≡ (ok tt, steps)
      → ((names ≡ []) × (steps ≡ [])) ⊎ Applied names steps
  names_ok [] steps h = inl (refl, sym (ap (λ p. p.1) h))
  names_ok (n ∷ names) steps h = inr (named_ok (n ∷ names) steps (k.resource_of mg) refl h)

-- Where the provisioning succeeds, either no resolver of the resource's verbs names a Secret and the
-- cluster is left alone, or the Role was applied with exactly the collected names and its binding after
-- it, nothing else; and where the Role was expected to be there, it was.
pub provision_ok :
    (k : Cluster) (x : Externals) (sort : List Text → List Text) (info : Info) (mg : Fields)
    (expect : Bool) (steps : List Step)
    → provision k x sort info mg expect ≡ (ok tt, steps)
    → ((collect_secret_ref_names x sort (info.resource).verbs_description mg ≡ []) × (steps ≡ []))
      ⊎ Applied k mg expect
          (collect_secret_ref_names x sort (info.resource).verbs_description mg)
          steps
unfolding provision
provision_ok k x sort info mg expect steps h =
    names_ok k mg expect (collect_secret_ref_names x sort (info.resource).verbs_description mg)
      steps h
