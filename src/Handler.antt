-- ===== src/Handler.antt =====
-- internal/controllers: the handler that the reconciler calls. Its calls leave their mark on a
-- trace, and what the world answers may depend on all that was done before.
pub mod Waiting
pub mod Delegation
pub mod Deleting
pub mod Reasons
pub mod Release
pub mod Requeue
pub mod Advance
pub mod Record
pub mod Observing
pub mod Judging
pub mod Writing
pub mod Changes
pub mod Steps
pub mod Sent
pub mod Written
pub mod Seeing
pub mod Evidence
pub mod Shown
pub mod Seen
use krateo_rest_dynamic_cont.Base.{
  ℕ, ◌≡◌, refl, Bool, ◌||◌, ◌==◌, List, [], ◌∷◌, Option, none, some, Text, Error, Result, ok, err,
}
use krateo_rest_dynamic_cont.Value.{Value, Fields}
use krateo_rest_dynamic_cont.Definition.{ApiRef, VerbsDescription, Info}
use krateo_rest_dynamic_cont.Async.{Headers}
use krateo_rest_dynamic_cont.Builder.{RequestConfiguration}
use krateo_rest_dynamic_cont.Builder.Calls.{Client}

-- `Response`
pub record Response : Type 0 where
  pub body : Value
  pub headers : Headers
  pub status_code : ℕ

-- `IsPending`
unfoldable pub is_pending : Response → Bool
is_pending r = r.status_code == 102 || (r.status_code == 100 || r.status_code == 202)

pub data Condition : Type 0 where
  creating available unavailable deleting pending : Condition

-- The event reasons.
pub data Reason : Type 0 where
  resource_created resource_updated resource_deleted async_failed : Reason

-- What the handler does to the world, newest first in a trace.
pub data Effect : Type 0 where
  called : Text → RequestConfiguration → Effect
  searched : Text → RequestConfiguration → Effect
  refreshed : Effect
  invoked : ApiRef → Fields → Effect
  provisioned : Effect
  torn_down status_updated : Effect
  patched : List (Text × Option Text) → Effect
  warned noted : Reason → Effect

abbrev pub Trace : Type 0
Trace = List Effect

-- The world outside the handler.
pub record World : Type 0 where
  -- swaggerInfoGetter.Get
  pub definition : Fields → Result Info
  -- restclient.BuildClient
  pub build_client : Trace → Text → Result Client
  -- UnstructuredClient.Call
  pub answer : Trace → Text → RequestConfiguration → Result Response
  -- UnstructuredClient.FindBy, with the policy of the client and the verb
  pub find : Trace → Text → VerbsDescription → Text → RequestConfiguration → Result Response
  -- snowplow.Client.Resolve; `none` without a client
  pub resolve : Option (Trace → ApiRef → Fields → Result Fields)
  -- CollectSecretRefNames with EnsureSecretRole, and the reading of a Secret
  pub provision : Trace → Info → Fields → Bool → Result (Unit {0})
  pub get_secret : Trace → Text → Text → Result Text
  -- deleteSecretRefRBAC
  pub teardown : Trace → Result (Unit {0})
  -- unstructuredtools.SetConditions
  pub set_conditions : Condition → Fields → Result Fields
  -- unstructuredtools.IsConditionSet
  pub is_condition_set : Condition → Fields → Bool
  -- GetAnnotations, where nil annotations are none at all
  pub annotations : Fields → List (Text × Text)
  -- the merge patch of the annotations by the dynamic client, with GVKtoGVR; nil is `none`
  pub patch : Trace → List (Text × Option Text) → Fields → Result Fields
  -- tools.Update
  pub refresh : Trace → Fields → Result Fields
  -- tools.UpdateStatus
  pub update_status : Trace → Fields → Result Fields
  -- json.Marshal and json.Unmarshal of pollInputs
  pub marshal_inputs : List (Text × Text) → List (Text × Text) → Option Text
  pub unmarshal_inputs : Text → Option (List (Text × Text) × List (Text × Text))
  -- GetName, GetNamespace and GetUID
  pub name : Fields → Text
  pub namespace : Fields → Text
  pub uid : Fields → Text
  -- whether the context is done before the numbered poll, and before the pause after it ends
  pub expired : Trace → ℕ → Bool
  pub interrupted : Trace → ℕ → Bool

-- The custom resource, which the handler changes in place, and what was done.
pub record State : Type 0 where
  pub mg : Fields
  pub trace : Trace

abbrev pub M {ℓ} : Type ℓ → Type ℓ
M A = State → Result A × State

abbrev pub pure {ℓ} : {A : Type ℓ} → A → M A
pure a s = (ok a, s)

abbrev pub lift {ℓ} : {A : Type ℓ} → Result A → M A
lift r s = (r, s)

abbrev pub fail {ℓ} : {A : Type ℓ} → Error → M A
fail e s = (err e, s)

-- What follows a step, which an error skips.
abbrev pub continue {ℓ κ} :
    {A : Type ℓ} {B : Type κ} → (A → M B) → Result A → State → Result B × State
continue f (ok a) s = f a s
continue f (err e) s = (err e, s)

infixl 5 ◌>>=◌
unfoldable pub ◌>>=◌ {ℓ κ} : {A : Type ℓ} {B : Type κ} → M A → (A → M B) → M B
(m >>= f) s = continue f (m s).0 (m s).1

abbrev pub emit : Effect → M (Unit {0})
emit e s = (ok tt, record s { trace = e ∷ s.trace })

-- A step whose error is only logged.
abbrev pub best_effort {ℓ} : {A : Type ℓ} → M A → M (Unit {0})
best_effort m s = (ok tt, (m s).1)

-- A step whose error is reported as a warning before it is returned.
abbrev pub after_warning {ℓ} : {A : Type ℓ} → Reason → Result A → State → Result A × State
after_warning r (ok a) s = (ok a, s)
after_warning r (err e) s = (err e, record s { trace = Effect.warned r ∷ s.trace })

abbrev pub warning {ℓ} : {A : Type ℓ} → Reason → M A → M A
warning r m s = after_warning r (m s).0 (m s).1

abbrev pub put_resource : Result Fields → State → Result (Unit {0}) × State
put_resource (ok fs) s = (ok tt, record s { mg = fs })
put_resource (err e) s = (err e, s)

-- `UpdateStatus`, whose answer replaces the resource.
unfoldable pub update_status_of : World → M (Unit {0})
update_status_of w s =
    put_resource (w.update_status s.trace s.mg)
      (record s { trace = Effect.status_updated ∷ s.trace })

abbrev pub discard {ℓ} : {A : Type ℓ} → Result A → Result (Unit {0})
discard (ok a) = ok tt
discard (err e) = err e

-- `UpdateStatus`, whose answer is dropped.
unfoldable pub push_status : World → M (Unit {0})
push_status w s =
    (discard (w.update_status s.trace s.mg), record s { trace = Effect.status_updated ∷ s.trace })

-- `Update`, whose answer replaces the resource.
unfoldable pub refresh_resource : World → M (Unit {0})
refresh_resource w s =
    put_resource (w.refresh s.trace s.mg) (record s { trace = Effect.refreshed ∷ s.trace })

-- `patchAnnotations`
unfoldable pub patch_annotations : World → List (Text × Option Text) → M (Unit {0})
patch_annotations w p s =
    put_resource (w.patch s.trace p s.mg) (record s { trace = Effect.patched p ∷ s.trace })

-- `SetConditions`, on the resource in place.
unfoldable pub set_condition : World → Condition → M (Unit {0})
set_condition w c s = put_resource (w.set_conditions c s.mg) s

-- `deleteSecretRefRBAC`
unfoldable pub delete_secret_ref_rbac : World → M (Unit {0})
delete_secret_ref_rbac w s = (w.teardown s.trace, record s { trace = Effect.torn_down ∷ s.trace })

-- `UnstructuredClient.Call`, on the trace.
unfoldable pub call : World → Text → RequestConfiguration → M Response
call w path req s =
    (w.answer s.trace path req, record s { trace = Effect.called path req ∷ s.trace })

-- `UnstructuredClient.FindBy`, on the trace.
unfoldable pub search_for :
    World → Text → VerbsDescription → Text → RequestConfiguration → M Response
search_for w policy v path req s =
    (w.find s.trace policy v path req, record s { trace = Effect.searched path req ∷ s.trace })

continued :
    {A B : Type 0} (f : A → M B) (r : Result A) (s : State) {b : B} {s' : State}
    → continue f r s ≡ (ok b, s')
    → (a : A) × (r ≡ ok a) × (f a s ≡ (ok b, s'))
continued f (ok a) s h = (a, refl, h)
continued f (err e) s h = cc

-- Inversion of a bind that succeeds.
pub bind_ok :
    {A B : Type 0} (m : M A) (f : A → M B) (s : State) {b : B} {s' : State}
    → (m >>= f) s ≡ (ok b, s')
    → (a : A) × ((m s).0 ≡ ok a) × (f a (m s).1 ≡ (ok b, s'))
unfolding ◌>>=◌
bind_ok m f s h = continued f (m s).0 (m s).1 h
