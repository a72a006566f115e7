-- ===== src/Secrets.antt =====
-- The grant of the Secrets that a resource refers to: CollectSecretRefNames of
-- internal/tools/fieldmapping/resolver.go, internal/tools/secretrbac/secretrbac.go, and
-- internal/controllers/secretrbac_integration.go.
pub mod Granted
pub mod Provisioned
use krateo_rest_dynamic_cont.Base.{
  Bool, true, false, List, [], ◌∷◌, ◌++◌, Option, none, some, if◌then◌else◌, Text, codes, text_eq,
  Error, Result, ok, err,
}
use krateo_rest_dynamic_cont.Value.{Fields}
use krateo_rest_dynamic_cont.Definition.{
  SecretRefResolver, FieldResolver, FieldMappingItem, VerbsDescription, Info,
}
use krateo_rest_dynamic_cont.Externals.{Externals}
use krateo_rest_dynamic_cont.Mapping.{read_string_path}
use krateo_rest_dynamic_cont.Rest.Params.{add}

-- The secretRef configuration of an entry.
abbrev pub ref_in : Option FieldResolver → Option SecretRefResolver
ref_in none = none
ref_in (some r) = if text_eq r.kind (codes "secretRef") then r.secret_ref else none

abbrev pub ref_of : FieldMappingItem → Option SecretRefResolver
ref_of m = ref_in m.resolver

-- A name that cannot be read is skipped.
abbrev pub add_read : Result Text → List Text → List Text
add_read (err e) names = names
add_read (ok name) names = add name names

abbrev pub add_ref : Externals → Fields → Option SecretRefResolver → List Text → List Text
add_ref x mg none names = names
add_ref x mg (some s) names = add_read (read_string_path x mg s.name_from_custom_resource) names

unfoldable pub collect_mapping : Externals → Fields → List FieldMappingItem → List Text → List Text
collect_mapping x mg [] names = names
collect_mapping x mg (m ∷ ms) names = collect_mapping x mg ms (add_ref x mg (ref_of m) names)

unfoldable pub collect_verbs : Externals → Fields → List VerbsDescription → List Text → List Text
collect_verbs x mg [] names = names
collect_verbs x mg (v ∷ vs) names =
    collect_verbs x mg vs (collect_mapping x mg v.field_mapping names)

-- `CollectSecretRefNames`, with `sort.Strings`.
unfoldable pub collect_secret_ref_names :
    Externals → (List Text → List Text) → List VerbsDescription → Fields → List Text
collect_secret_ref_names x sort verbs mg = sort (collect_verbs x mg verbs [])

-- What is done to the cluster, in order.
pub data Step : Type 0 where
  role_applied : Text → List Text → Step
  binding_applied binding_removed role_removed : Text → Step

-- The cluster, by objectclient: whether the Role is there, and what applying and removing answer; with
-- the pluralizer's resource and version, and the hexadecimal form of the fnv32a hash.
pub record Cluster : Type 0 where
  pub resource_of : Fields → Result (Text × Text)
  pub hash : Text → Text
  pub has_role : Text → Text → Result Bool
  pub apply_role : Text → Text → List Text → Result (Unit {0})
  pub apply_binding : Text → Text → Result (Unit {0})
  pub remove_binding : Text → Text → Result (Unit {0})
  pub remove_role : Text → Text → Result (Unit {0})
  pub name : Fields → Text
  pub namespace : Fields → Text

-- `RoleName`
unfoldable pub role_name : Cluster → Text × Text → Text → Text → Text
role_name k gvr ns name =
    gvr.0 ++ codes "-" ++ gvr.1 ++ codes "-" ++ k.hash (ns ++ codes "/" ++ name) ++ codes "-secrets"

-- A call of the cluster, and what follows it.
abbrev pub after :
    Step → Result (Unit {0}) → Result (Unit {0}) × List Step → Result (Unit {0}) × List Step
after step (err e) rest = (err e, step ∷ [])
after step (ok done) rest = (rest.0, step ∷ rest.1)

unfoldable pub apply_pair : Cluster → Text → Text → List Text → Result (Unit {0}) × List Step
apply_pair k ns role names =
    after (Step.role_applied role names) (k.apply_role ns role names)
      (after (Step.binding_applied role) (k.apply_binding ns role) (ok tt, []))

abbrev pub if_there : Result Bool → Result (Unit {0}) × List Step → Result (Unit {0}) × List Step
if_there (err e) rest = (err e, [])
if_there (ok false) rest = (err Error.role_missing, [])
if_there (ok true) rest = rest

-- `EnsureSecretRole`
unfoldable pub ensure_secret_role :
    Cluster → Text → Text → List Text → Bool → Result (Unit {0}) × List Step
ensure_secret_role k ns role names true = if_there (k.has_role ns role) (apply_pair k ns role names)
ensure_secret_role k ns role names false = apply_pair k ns role names

-- `DeleteSecretRole`
unfoldable pub delete_secret_role : Cluster → Text → Text → Result (Unit {0}) × List Step
delete_secret_role k ns role =
    after (Step.binding_removed role) (k.remove_binding ns role)
      (after (Step.role_removed role) (k.remove_role ns role) (ok tt, []))

abbrev pub ensure_named :
    Cluster → Fields → List Text → Bool → Result (Text × Text) → Result (Unit {0}) × List Step
ensure_named k mg names expect (err e) = (err e, [])
ensure_named k mg names expect (ok gvr) =
    ensure_secret_role k (k.namespace mg) (role_name k gvr (k.namespace mg) (k.name mg)) names
      expect

abbrev pub provision_names : Cluster → Fields → Bool → List Text → Result (Unit {0}) × List Step
provision_names k mg expect [] = (ok tt, [])
provision_names k mg expect (n ∷ names) = ensure_named k mg (n ∷ names) expect (k.resource_of mg)

-- The first half of `ensureSecretRefRBACAndResolve`: without a name, nothing is provisioned.
unfoldable pub provision :
    Cluster
    → Externals
    → (List Text → List Text)
    → Info
    → Fields
    → Bool
    → Result (Unit {0}) × List Step
provision k x sort info mg expect =
    provision_names k mg expect
      (collect_secret_ref_names x sort (info.resource).verbs_description mg)

abbrev remove_named : Cluster → Fields → Result (Text × Text) → Result (Unit {0}) × List Step
remove_named k mg (err e) = (err e, [])
remove_named k mg (ok gvr) =
    delete_secret_role k (k.namespace mg) (role_name k gvr (k.namespace mg) (k.name mg))

-- `deleteSecretRefRBAC`
unfoldable pub remove_secret_role : Cluster → Fields → Result (Unit {0}) × List Step
remove_secret_role k mg = remove_named k mg (k.resource_of mg)
