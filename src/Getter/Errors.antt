-- ===== src/Getter/Errors.antt =====
-- internal/tools/definitiongetter/getter.go: the errors of Get behind a definition that was found are
-- others than that for an absent one.
use krateo_rest_dynamic_cont.Base.{
  ◌≡◌, ◌≢◌, sym, ap, Bool, true, false, List, [], ◌∷◌, ◌++◌, Option, none, some, if◌then◌else◌,
  Text, codes, text_eq, is_empty, lookup, drop, length, Error, Result, ok, err, ◌>>=◌, err-ne-ok,
  err-injective,
}
use krateo_rest_dynamic_cont.Value.{Value, str, obj, Fields, entries}
use krateo_rest_dynamic_cont.Definition.{
  JqProgram, ValueMapping, FieldMappingItem, AsyncConfig, VerbsDescription, ApiRef, Info,
}
use krateo_rest_dynamic_cont.Externals.{Externals}
use krateo_rest_dynamic_cont.Comparison.{trim_space}
use krateo_rest_dynamic_cont.Getter.{Api}
use krateo_rest_dynamic_cont.Getter.Modules.{
  or_failed, fetch, fetch_config_map, split_slash, config_map_scheme,
}
use krateo_rest_dynamic_cont.Getter.Credentials.{
  Auth, AuthType, to_type, text_value, ref_field, get_secret, found_or_missing, credential,
  text_or_blank, api_key_auth, auth_of, method_fields, parse_authentication, parse_methods,
  readable_map, read_configuration, configuration_namespace, by_ref, process_configuration_ref,
}
use krateo_rest_dynamic_cont.Getter.Lookup.{
  materialize_jq, materialize, materialize_mapping, materialize_items, materialize_async,
  materialize_verb, materialize_verbs, materialize_api_ref, resolve_jq_refs, required,
  required_value, read_header, oas_path, of_kind, match_item, Match, build_info,
}

-- A result that does not say that a definition is absent.
abbrev pub IsElse {ℓ} : {A : Type ℓ} → Result A → Type ℓ
IsElse r = r ≢ err Error.definition_not_found

ok-IsElse {ℓ} : {A : Type ℓ} (a : A) → IsElse (ok a)
ok-IsElse a h = err-ne-ok (sym h)

err-IsElse {ℓ} :
    {A : Type ℓ} (e : Error)
    → e ≢ Error.definition_not_found
    → (◌≡◌ {A = Result A} (err e) (err Error.definition_not_found) → ⊥)
err-IsElse e h q = h (err-injective q)

pub IsElse-bind {ℓ κ} :
    {A : Type ℓ} {B : Type κ} (r : Result A) (f : A → Result B)
    → IsElse r
    → ((a : A) → IsElse (f a))
    → IsElse (r >>= f)
IsElse-bind (err e) f h k = λ q. h (ap err (err-injective q))
IsElse-bind (ok a) f h k = k a

pub IsElse-or_failed {ℓ} :
    {A : Type ℓ} (e : Error) (o : Option A)
    → e ≢ Error.definition_not_found
    → IsElse (or_failed e o)
IsElse-or_failed e none h = λ q. h (err-injective q)
IsElse-or_failed e (some a) h = ok-IsElse a

-- Two tests, each with an error of its own.
IsElse-if {ℓ} :
    {A : Type ℓ} (b : Bool) (r s : Result A) → IsElse r → IsElse s → IsElse (if b then r else s)
IsElse-if true r s h k = h
IsElse-if false r s h k = k

fetch_config_map-IsElse :
    (api : Api) (own : Text) (parts : List Text) → IsElse (fetch_config_map api own parts)
fetch_config_map-IsElse api own [] = λ q. cc
fetch_config_map-IsElse api own (a ∷ []) = λ q. cc
fetch_config_map-IsElse api own (a ∷ b ∷ []) = λ q. cc
fetch_config_map-IsElse api own (ns ∷ name ∷ key ∷ []) =
    IsElse-if _ _ _ (err-IsElse Error.bad_module_ref (λ q. cc)) (
      IsElse-if _ _ _ (err-IsElse Error.other_namespace (λ q. cc))
        (IsElse-or_failed Error.module_failed (api.config_map_key ns name key) (λ q. cc)))
fetch_config_map-IsElse api own (a ∷ b ∷ c ∷ d ∷ parts) = λ q. cc

fetch-IsElse : (api : Api) (ref own : Text) → IsElse (fetch api ref own)
unfolding fetch
fetch-IsElse api ref own =
    IsElse-if _ _ _ (IsElse-or_failed Error.module_failed (api.download ref) (λ q. cc)) (
      IsElse-if _ _ _
        (fetch_config_map-IsElse api own (split_slash (drop (length config_map_scheme) ref)))
        (err-IsElse Error.bad_module_ref (λ q. cc)))

text_value-IsElse : (o : Option Value) → IsElse (text_value o)
text_value-IsElse none = λ q. cc
text_value-IsElse (some (str s)) = ok-IsElse s
text_value-IsElse (some v) = λ q. cc

get_secret-IsElse : (api : Api) (ref : List (Text × Text)) → IsElse (get_secret api ref)
unfolding get_secret
get_secret-IsElse api ref =
    IsElse-bind _ _ (IsElse-or_failed Error.secret_failed _ (λ q. cc)) (λ data_of.
      IsElse-bind _ _ (text_value-IsElse (lookup (ref_field (codes "key") ref) data_of)) (λ raw.
        IsElse-bind _ _ (IsElse-or_failed Error.secret_failed (api.decode_base64 raw) (λ q. cc))
          (λ value. ok-IsElse (trim_space value))))

found-IsElse {ℓ} :
    {A : Type ℓ} (e : Error) (o : Option (Option A))
    → e ≢ Error.definition_not_found
    → IsElse (found_or_missing e o)
found-IsElse e none h = λ q. cc
found-IsElse e (some none) h = λ q. h (err-injective q)
found-IsElse e (some (some a)) h = ok-IsElse a

credential-IsElse :
    (api : Api) (method : Fields) (field : Text) → IsElse (credential api method field)
unfolding credential
credential-IsElse api method field =
    IsElse-bind _ _ (found-IsElse Error.missing_ref _ (λ q. cc)) (get_secret-IsElse api)

text_or_blank-IsElse : (o : Option (Option Text)) → IsElse (text_or_blank o)
text_or_blank-IsElse none = λ q. cc
text_or_blank-IsElse (some none) = ok-IsElse []
text_or_blank-IsElse (some (some s)) = ok-IsElse s

auth_of-IsElse : (api : Api) (t : AuthType) (method : Fields) → IsElse (auth_of api t method)
unfolding auth_of api_key_auth
auth_of-IsElse api AuthType.auth_basic method =
    IsElse-bind _ _ (credential-IsElse api method (codes "usernameRef")) (λ username.
      IsElse-bind _ _ (credential-IsElse api method (codes "passwordRef"))
        (λ password. ok-IsElse _))
auth_of-IsElse api AuthType.auth_bearer method =
    IsElse-bind _ _ (credential-IsElse api method (codes "tokenRef")) (λ token. ok-IsElse _)
auth_of-IsElse api AuthType.auth_api_key method =
    IsElse-bind _ _
      (found-IsElse Error.missing_ref (api.nested_string_map method (codes "tokenRef" ∷ []))
        (λ q. cc))
      (λ ref.
        IsElse-bind _ _ (text_or_blank-IsElse (api.nested_string method (codes "header" ∷ [])))
          (λ named.
            IsElse-bind _ _
              (IsElse-if (is_empty (trim_space named)) _ _
                (err-IsElse Error.missing_auth_header (λ q. cc)) (ok-IsElse named))
              (λ header.
                IsElse-bind _ _
                  (text_or_blank-IsElse (api.nested_string method (codes "valuePrefix" ∷ [])))
                  (λ prefix.
                    IsElse-bind _ _ (get_secret-IsElse api ref)
                      (λ token. ok-IsElse (Auth.api_key header (prefix ++ token)))))))

method_fields-IsElse : (v : Value) → IsElse (method_fields v)
method_fields-IsElse (obj fs) = ok-IsElse fs
method_fields-IsElse v = λ q. cc

to_type-IsElse : (s : Text) → IsElse (to_type s)
unfolding to_type
to_type-IsElse s = IsElse-if (text_eq s (codes "basic")) _ _ (ok-IsElse AuthType.auth_basic) (
    IsElse-if (text_eq s (codes "bearer")) _ _ (ok-IsElse AuthType.auth_bearer) (
      IsElse-if (text_eq s (codes "apiKey")) _ _ (ok-IsElse AuthType.auth_api_key)
        (err-IsElse Error.unknown_auth (λ q. cc))))

parse_authentication-IsElse :
    (api : Api) (methods : List (Text × Value)) → IsElse (parse_authentication api methods)
unfolding parse_authentication
parse_authentication-IsElse api [] = λ q. cc
parse_authentication-IsElse api ((k, v) ∷ methods) =
    IsElse-bind _ _ (to_type-IsElse k)
      (λ kind. IsElse-bind _ _ (method_fields-IsElse v) (λ method. auth_of-IsElse api kind method))

readable_map-IsElse : (r : Result (Option Fields)) → IsElse (readable_map r)
readable_map-IsElse (err e) = λ q. cc
readable_map-IsElse (ok o) = ok-IsElse o

parse_methods-IsElse : (api : Api) (o : Option Fields) → IsElse (parse_methods api o)
parse_methods-IsElse api none = ok-IsElse none
parse_methods-IsElse api (some fs) =
    IsElse-bind _ _ (parse_authentication-IsElse api (entries fs)) (λ a. ok-IsElse (some a))

by_ref-IsElse :
    (api : Api) (x : Externals) (mg : Fields) (info : Info)
    (o : Option (Option (List (Text × Text))))
    → IsElse (by_ref api x mg info o)
unfolding read_configuration
by_ref-IsElse api x mg info none = λ q. cc
by_ref-IsElse api x mg info (some none) = ok-IsElse (info, none)
by_ref-IsElse api x mg info (some (some ref)) =
    let config_at =
      api.configuration mg (configuration_namespace api mg ref) (ref_field (codes "name") ref) in
    IsElse-bind (or_failed Error.no_configuration config_at) _
      (IsElse-or_failed Error.no_configuration config_at (λ q. cc))
      (λ config.
        IsElse-bind _ _
          (readable_map-IsElse (x.nested_map config (codes "spec" ∷ codes "configuration" ∷ [])))
          (λ spec.
            IsElse-bind _ _
              (readable_map-IsElse
                (x.nested_map config (codes "spec" ∷ codes "authentication" ∷ [])))
              (λ methods.
                IsElse-bind _ _ (parse_methods-IsElse api methods) (λ auth. ok-IsElse _))))

materialize-IsElse :
    (api : Api) (own : Text) (o : Option JqProgram) → IsElse (materialize api own o)
unfolding materialize_jq
materialize-IsElse api own none = ok-IsElse none
materialize-IsElse api own (some p) =
    IsElse-bind _ _
      (IsElse-if (is_empty p.ref) _ _ (ok-IsElse p)
        (IsElse-bind _ _ (fetch-IsElse api p.ref own) (λ src. ok-IsElse _)))
      (λ q. ok-IsElse (some q))

materialize_mapping-IsElse :
    (api : Api) (own : Text) (o : Option ValueMapping) → IsElse (materialize_mapping api own o)
materialize_mapping-IsElse api own none = ok-IsElse none
materialize_mapping-IsElse api own (some vm) =
    IsElse-bind _ _ (materialize-IsElse api own vm.jq) (λ q. ok-IsElse _)

materialize_items-IsElse :
    (api : Api) (own : Text) (ms : List FieldMappingItem) → IsElse (materialize_items api own ms)
unfolding materialize_items
materialize_items-IsElse api own [] = ok-IsElse []
materialize_items-IsElse api own (m ∷ ms) =
    IsElse-bind _ _ (materialize_mapping-IsElse api own m.value_mapping)
      (λ vm. IsElse-bind _ _ (materialize_items-IsElse api own ms) (λ rest. ok-IsElse _))

materialize_async-IsElse :
    (api : Api) (own : Text) (o : Option AsyncConfig) → IsElse (materialize_async api own o)
materialize_async-IsElse api own none = ok-IsElse none
materialize_async-IsElse api own (some a) =
    IsElse-bind _ _ (materialize-IsElse api own (a.operation_ref).jq) (λ q. ok-IsElse _)

materialize_verb-IsElse :
    (api : Api) (own : Text) (v : VerbsDescription) → IsElse (materialize_verb api own v)
unfolding materialize_verb
materialize_verb-IsElse api own v =
    IsElse-bind _ _ (materialize-IsElse api own v.request_transform) (λ a.
      IsElse-bind _ _ (materialize-IsElse api own v.response_transform) (λ b.
        IsElse-bind _ _ (materialize-IsElse api own v.not_found_body) (λ c.
          IsElse-bind _ _ (materialize_items-IsElse api own v.field_mapping)
            (λ d. IsElse-bind _ _ (materialize_async-IsElse api own v.async) (λ e. ok-IsElse _)))))

materialize_verbs-IsElse :
    (api : Api) (own : Text) (vs : List VerbsDescription) → IsElse (materialize_verbs api own vs)
unfolding materialize_verbs
materialize_verbs-IsElse api own [] = ok-IsElse []
materialize_verbs-IsElse api own (v ∷ vs) =
    IsElse-bind _ _ (materialize_verb-IsElse api own v)
      (λ w. IsElse-bind _ _ (materialize_verbs-IsElse api own vs) (λ ws. ok-IsElse _))

materialize_api_ref-IsElse :
    (api : Api) (own : Text) (o : Option ApiRef) → IsElse (materialize_api_ref api own o)
materialize_api_ref-IsElse api own none = ok-IsElse none
materialize_api_ref-IsElse api own (some r) =
    IsElse-bind _ _ (materialize-IsElse api own r.not_found_expr)
      (λ a. IsElse-bind _ _ (materialize-IsElse api own r.up_to_date_expr) (λ b. ok-IsElse _))

-- Behind a definition that matches.
pub build_info-IsElse :
    (api : Api) (x : Externals) (mg : Fields) (m : Match) → IsElse (build_info api x mg m)
unfolding build_info resolve_jq_refs process_configuration_ref
build_info-IsElse api x mg m =
    IsElse-bind _ _
      (IsElse-or_failed Error.undecodable_resource (api.decode_resource m.1) (λ q. cc))
      (λ resource. IsElse-bind _ _ (by_ref-IsElse api x mg _ _) (λ configured.
        IsElse-bind _ _
          (IsElse-bind _ _ (materialize_verbs-IsElse api (api.namespace_of m.2) _) (λ verbs.
            IsElse-bind _ _ (materialize_api_ref-IsElse api (api.namespace_of m.2) _)
              (λ observe. ok-IsElse _)))
          (λ info. ok-IsElse _)))

required-IsElse {ℓ} : {A : Type ℓ} (o : Option (Option A)) → IsElse (required o)
required-IsElse none = λ q. cc
required-IsElse (some none) = λ q. cc
required-IsElse (some (some a)) = ok-IsElse a

required_value-IsElse : (r : Result (Option Value)) → IsElse (required_value r)
required_value-IsElse (err e) = λ q. cc
required_value-IsElse (ok none) = λ q. cc
required_value-IsElse (ok (some v)) = ok-IsElse v

of_kind-IsElse :
    (a b : Bool) (path : Result Text) (res : Value) (item : Fields)
    → IsElse path
    → IsElse (of_kind a b path res item)
of_kind-IsElse false b path res item h = ok-IsElse none
of_kind-IsElse true b path res item h = IsElse-bind path _ h (λ oas. ok-IsElse _)

-- The reading of one definition.
pub match_item-IsElse :
    (api : Api) (x : Externals) (kind group : Text) (item : Fields)
    → IsElse (match_item api x kind group item)
unfolding match_item read_header
match_item-IsElse api x kind group item =
    IsElse-bind _ _
      (IsElse-bind _ _
        (required_value-IsElse (x.nested_field item (codes "spec" ∷ codes "resource" ∷ [])))
        (λ res.
          IsElse-bind _ _
            (required-IsElse (api.nested_string item (codes "spec" ∷ codes "resourceGroup" ∷ [])))
            (λ g.
              IsElse-bind _ _
                (required-IsElse
                  (api.nested_string item (codes "spec" ∷ codes "resource" ∷ codes "kind" ∷ [])))
                (λ k. ok-IsElse _))))
      (λ h.
        of_kind-IsElse (text_eq h.2 kind) (text_eq h.1 group) (oas_path api item) h.0 item
          (required-IsElse _))
