-- ===== src/Getter/Credentials.antt =====
-- internal/tools/definitiongetter/getter.go: GetSecret, parseAuthentication and processConfigurationRef;
-- with internal/tools/auth.
use krateo_rest_dynamic_cont.Base.{
  List, [], ◌∷◌, ◌++◌, Option, none, some, if◌then◌else◌, Text, codes, text_eq, is_empty, lookup,
  Error, Result, ok, err, ◌>>=◌,
}
use krateo_rest_dynamic_cont.Value.{Value, str, obj, Fields, entries}
use krateo_rest_dynamic_cont.Definition.{Info}
use krateo_rest_dynamic_cont.Externals.{Externals}
use krateo_rest_dynamic_cont.Comparison.{trim_space}
use krateo_rest_dynamic_cont.Getter.{Api}
use krateo_rest_dynamic_cont.Getter.Modules.{or_failed}

-- What SetAuth does to a request.
pub data Auth : Type 0 where
  basic : Text → Text → Auth
  bearer : Text → Auth
  api_key : Text → Text → Auth

pub data AuthType : Type 0 where
  auth_basic auth_bearer auth_api_key : AuthType

-- `ToType`
unfoldable pub to_type : Text → Result AuthType
to_type s =
    if text_eq s (codes "basic")
    then ok AuthType.auth_basic
    else if text_eq s (codes "bearer")
    then ok AuthType.auth_bearer
    else if text_eq s (codes "apiKey")
    then ok AuthType.auth_api_key
    else err Error.unknown_auth

abbrev pub text_value : Option Value → Result Text
text_value (some (str s)) = ok s
text_value o = err Error.secret_failed

abbrev key_or_blank : Option Text → Text
key_or_blank none = []
key_or_blank (some s) = s

-- A field of a reference; "" where it is missing.
abbrev pub ref_field : Text → List (Text × Text) → Text
ref_field k ref = key_or_blank (lookup k ref)

-- `GetSecret`
unfoldable pub get_secret : Api → List (Text × Text) → Result Text
get_secret api ref = do
  data_of ←
      or_failed Error.secret_failed
        (api.secret_data (ref_field (codes "namespace") ref) (ref_field (codes "name") ref))
  raw ← text_value (lookup (ref_field (codes "key") ref) data_of)
  value ← or_failed Error.secret_failed (api.decode_base64 raw)
  ok (trim_space value)

abbrev pub found_or_missing {ℓ} : {A : Type ℓ} → Error → Option (Option A) → Result A
found_or_missing e none = err Error.bad_auth
found_or_missing e (some none) = err e
found_or_missing e (some (some a)) = ok a

-- A credential that a field of the method refers to.
unfoldable pub credential : Api → Fields → Text → Result Text
credential api method field =
    found_or_missing Error.missing_ref (api.nested_string_map method (field ∷ []))
    >>= get_secret api

abbrev pub text_or_blank : Option (Option Text) → Result Text
text_or_blank none = err Error.bad_auth
text_or_blank (some none) = ok []
text_or_blank (some (some s)) = ok s

abbrev pub checked_header : Text → Result Text
checked_header header =
    if is_empty (trim_space header) then err Error.missing_auth_header else ok header

unfoldable pub api_key_auth : Api → Fields → Result Auth
api_key_auth api method = do
  ref ← found_or_missing Error.missing_ref (api.nested_string_map method (codes "tokenRef" ∷ []))
  named ← text_or_blank (api.nested_string method (codes "header" ∷ []))
  header ← checked_header named
  prefix ← text_or_blank (api.nested_string method (codes "valuePrefix" ∷ []))
  token ← get_secret api ref
  ok (Auth.api_key header (prefix ++ token))

unfoldable pub auth_of : Api → AuthType → Fields → Result Auth
auth_of api AuthType.auth_basic method = do
  username ← credential api method (codes "usernameRef")
  password ← credential api method (codes "passwordRef")
  ok (Auth.basic username password)
auth_of api AuthType.auth_bearer method = do
  token ← credential api method (codes "tokenRef")
  ok (Auth.bearer token)
auth_of api AuthType.auth_api_key method = api_key_auth api method

abbrev pub method_fields : Value → Result Fields
method_fields (obj fs) = ok fs
method_fields v = err Error.bad_auth

-- `parseAuthentication`: the first method in the order of `range` decides.
unfoldable pub parse_authentication : Api → List (Text × Value) → Result Auth
parse_authentication api [] = err Error.no_auth
parse_authentication api ((k, v) ∷ methods) = do
  kind ← to_type k
  method ← method_fields v
  auth_of api kind method

abbrev pub with_configuration : Option Fields → Info → Info
with_configuration none info = info
with_configuration (some fs) info = record info { configuration_spec = fs }

abbrev pub parse_methods : Api → Option Fields → Result (Option Auth)
parse_methods api none = ok none
parse_methods api (some fs) = parse_authentication api (entries fs) >>= λ a. ok (some a)

abbrev pub readable_map : Result (Option Fields) → Result (Option Fields)
readable_map (err e) = err Error.bad_configuration
readable_map (ok o) = ok o

-- The namespace that a reference names, else the resource's own.
abbrev pub configuration_namespace : Api → Fields → List (Text × Text) → Text
configuration_namespace api mg ref = elim (lookup (codes "namespace") ref) [
  | none ↦ api.namespace_of mg
  | some ns ↦ ns
]

unfoldable pub read_configuration :
    Api → Externals → Fields → List (Text × Text) → Info → Result (Info × Option Auth)
read_configuration api x mg ref info = do
  config ←
      or_failed Error.no_configuration
        (api.configuration mg (configuration_namespace api mg ref) (ref_field (codes "name") ref))
  spec ← readable_map (x.nested_map config (codes "spec" ∷ codes "configuration" ∷ []))
  methods ← readable_map (x.nested_map config (codes "spec" ∷ codes "authentication" ∷ []))
  auth ← parse_methods api methods
  ok (with_configuration spec info, auth)

abbrev pub by_ref :
    Api
    → Externals
    → Fields
    → Info
    → Option (Option (List (Text × Text)))
    → Result (Info × Option Auth)
by_ref api x mg info none = err Error.bad_configuration
by_ref api x mg info (some none) = ok (info, none)
by_ref api x mg info (some (some ref)) = read_configuration api x mg ref info

-- `processConfigurationRef`, with the SetAuth that it sets.
unfoldable pub process_configuration_ref :
    Api → Externals → Fields → Info → Result (Info × Option Auth)
process_configuration_ref api x mg info =
    by_ref api x mg info (api.nested_string_map mg (codes "spec" ∷ codes "configurationRef" ∷ []))
