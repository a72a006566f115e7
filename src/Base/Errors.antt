-- ===== src/Base/Errors.antt =====
-- Go's pair of a value and an error. An error is named for its kind; the text of its message and
-- the context that `%w` puts before it are left out, which neither errors.Is nor errors.As reads.
use Prim.Native.Nat.{ℕ}
use mathlib.Core.Path.{◌≡◌, refl}
use mathlib.Core.Logic.{◌⊎◌, ◌≢◌, inl, inr}
use mathlib.Core.Option.{some}
use krateo_rest_dynamic_cont.Base.Texts.{Text}

pub data Error : Type 0 where
  -- malformed paths
  has_spaces consecutive_dots trailing_dot bad_split empty_segment only_dots bad_characters : Error
  dot_before_bracket unquoted unclosed_bracket adjacent_brackets empty_bracket bad_predicate : Error
  mismatched_quotes : Error
  -- nested fields
  ambiguous_predicate unmatched_predicate bad_index not_a_container no_segments : Error
  -- async operations
  bad_operation_path no_handle no_headers no_header bad_operation_in null_handle empty_handle :
      Error
  not_a_scalar cancelled poll_failed terminal_failure attempts_exhausted bad_status_path : Error
  no_status poll_not_object no_object_body no_get_action : Error
  -- comparison
  type_mismatch : Error
  -- predicates and jq
  unresolved_module not_boolean : Error
  -- clients and handlers
  status : ℕ → Error
  definition_not_found : Error
  nil_resource no_getter no_info action_not_found no_call_config no_snowplow : Error
  body_not_object still_present bad_token_in bad_pagination missing_token_config : Error
  bad_response : Error
  path_unknown operation_unknown bad_location no_uri bad_code bad_body body_required : Error
  role_missing forbidden : Error
  -- definitions, configurations and jq modules
  no_gvr list_failed missing_field undecodable_resource bad_configuration no_configuration : Error
  unknown_auth bad_auth missing_ref missing_auth_header no_auth secret_failed : Error
  bad_module_ref other_namespace module_failed : Error
  bad_marshal unreadable_body undecodable_body : Error
  missing_path missing_query missing_header missing_cookie : Text → Error
  -- field mappings
  invalid_path path_not_found not_a_string resolver_not_configured unsupported_resolver : Error
  transform_not_object : Error
  external : Text → Error

pub data Result {ℓ} (T : Type ℓ) : Type ℓ where
  err : Error → Result T
  ok : T → Result T

infixl 5 ◌>>=◌
abbrev pub ◌>>=◌ {ℓ ℓ'} :
    {S : Type ℓ} {T : Type ℓ'} (first : Result S) (next : S → Result T) → Result T
err reason >>= next = err reason
ok value >>= next = next value

pub Result-cases {ℓ} :
    {A : Type ℓ} (r : Result A) → ((a : A) × (r ≡ ok a)) ⊎ ((e : Error) × (r ≡ err e))
Result-cases (ok a) = inl (a, refl)
Result-cases (err e) = inr (e, refl)

pub ok-injective {ℓ} : {A : Type ℓ} {a b : A} → ok a ≡ ok b → a ≡ b
ok-injective e = cc

pub some-injective {ℓ} : {A : Type ℓ} {a b : A} → some a ≡ some b → a ≡ b
some-injective e = cc

pub err-ne-ok {ℓ} : {A : Type ℓ} {e : Error} {a : A} → err e ≢ ok a
err-ne-ok h = cc

-- Inversion of a successful bind.
pub >>=-eq-ok {ℓ ℓ'} :
    {S : Type ℓ} {T : Type ℓ'} (first : Result S) (next : S → Result T) {got : T}
    → (first >>= next) ≡ ok got
    → (value : S) × (first ≡ ok value) × (next value ≡ ok got)
>>=-eq-ok (err reason) next e = absurd (err-ne-ok e)
>>=-eq-ok (ok value) next e = (value, refl, e)

-- Two steps agree if they agree behind what comes before them.
pub bind_ext {ℓ ℓ'} :
    {S : Type ℓ} {T : Type ℓ'} (first : Result S) (f g : S → Result T)
    → ((a : S) → first ≡ ok a → f a ≡ g a)
    → (first >>= f) ≡ (first >>= g)
bind_ext (err e) f g h = refl
bind_ext (ok a) f g h = h a refl

pub err-injective {ℓ} : {A : Type ℓ} {d e : Error} → ◌≡◌ {A = Result A} (err d) (err e) → d ≡ e
err-injective h = cc
