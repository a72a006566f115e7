-- ===== src/Getter.antt =====
-- internal/tools/definitiongetter/getter.go: the definition of a resource, with its configuration, its
-- authentication and its jq modules. The types are in Definition.
pub mod Modules
pub mod Credentials
pub mod Lookup
pub mod Errors
pub mod Absent
pub mod Inline
pub mod Cache
use krateo_rest_dynamic_cont.Base.{List, Option, Text}
use krateo_rest_dynamic_cont.Value.{Value, Fields}
use krateo_rest_dynamic_cont.Definition.{Resource}

-- What the getter calls. An error of the cluster is `none`: it is wrapped, and is never the error for
-- an absent definition.
pub record Api : Type 0 where
  -- GVKtoGVR, as far as its group is read
  pub group_of : Fields → Option Text
  -- the list of RestDefinitions
  pub definitions : Option (List Fields)
  -- unstructured.NestedString and NestedStringMap; `none` is an error, `some none` is found=false
  pub nested_string : Fields → List Text → Option (Option Text)
  pub nested_string_map : Fields → List Text → Option (Option (List (Text × Text)))
  -- json.Marshal and json.Unmarshal of a Resource
  pub decode_resource : Value → Option Resource
  -- GetKind and GetNamespace
  pub kind_of : Fields → Text
  pub namespace_of : Fields → Text
  -- GVKtoGVR for the configuration's kind, and the Get of it by namespace and name
  pub configuration : Fields → Text → Text → Option Fields
  -- the Get of a Secret by namespace and name, with its data, where that is readable; nil is empty
  pub secret_data : Text → Text → Option (List (Text × Value))
  -- base64.StdEncoding.DecodeString
  pub decode_base64 : Text → Option Text
  -- the Get of a ConfigMap by namespace and name, with NestedString of a key of its data
  pub config_map_key : Text → Text → Text → Option Text
  -- the GET of a URL that answers 200, cut at the size limit
  pub download : Text → Option Text
