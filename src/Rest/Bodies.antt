-- ===== src/Rest/Bodies.antt =====
-- internal/tools/client/clienttools.go: populateFromAllOf, collectLeafPaths, UpdatableBodyPaths and
-- RequestedBody; and the client that answers by them.
use krateo_rest_dynamic_cont.Base.{
  ℕ, zero, suc, true, false, List, [], ◌∷◌, ◌++◌, Option, none, some, if◌then◌else◌, Text, text_eq,
  Result, ok, ◌>>=◌,
}
use krateo_rest_dynamic_cont.Builder.Calls.{Client}
use krateo_rest_dynamic_cont.Rest.{
  Schema, schema, Properties, none_left, property, Schemas, end_of, and_also, Document,
  find_operation,
}
use krateo_rest_dynamic_cont.Rest.Params.{requested_params, validate_request, add}

abbrev pub properties_of : Schema → Properties
properties_of (schema is_array ps all) = ps

-- `Set` on an ordered map: the place of a key that is there is kept.
unfoldable pub set_property : Text → Schema → Properties → Properties
set_property k s none_left = property k s none_left
set_property k s (property j t ps) =
    let rest = set_property k s ps in if text_eq j k then property j s ps else property j t rest

unfoldable pub set_properties : Properties → Properties → Properties
set_properties none_left ps = ps
set_properties (property k s qs) ps = set_properties qs (set_property k s ps)

unfoldable mutual
  -- `populateFromAllOf`; an array is left as it is.
  pub flatten : Schema → Schema
  flatten (schema true ps all) = schema true ps all
  flatten (schema false ps all) = schema false (merge_all all (flatten_each ps)) all

  pub flatten_each : Properties → Properties
  flatten_each none_left = none_left
  flatten_each (property k s ps) = property k (flatten s) (flatten_each ps)

  pub merge_all : Schemas → Properties → Properties
  merge_all end_of ps = ps
  merge_all (and_also s ss) ps = merge_all ss (set_properties (properties_of (flatten s)) ps)

-- A path behind its prefix.
abbrev pub extend : Text → Text → Text
extend [] key = key
extend (c ∷ prefix) key = (c ∷ prefix) ++ b'.' ∷ key

abbrev pub leaf_at : Text → List Text
leaf_at [] = []
leaf_at (c ∷ prefix) = (c ∷ prefix) ∷ []

-- `collectLeafPaths`, with the number of levels that may still be entered.
unfoldable pub collect_properties : (Schema → Text → List Text) → Properties → Text → List Text
collect_properties collect none_left prefix = []
collect_properties collect (property k s ps) prefix =
    collect s (extend prefix k) ++ collect_properties collect ps prefix

abbrev pub collect_from : (Schema → Text → List Text) → Properties → Text → List Text
collect_from collect none_left prefix = leaf_at prefix
collect_from collect (property k s ps) prefix = collect_properties collect (property k s ps) prefix

unfoldable pub collect_leaf_paths : ℕ → Schema → Text → List Text
collect_leaf_paths zero s prefix = []
collect_leaf_paths (suc n) s prefix =
    collect_from (collect_leaf_paths n) (properties_of (flatten s)) prefix

-- The levels 0 to 20.
abbrev pub levels : ℕ
levels = 21

abbrev paths_of : Option (Option Schema) → List Text
paths_of none = []
paths_of (some none) = []
paths_of (some (some s)) = collect_leaf_paths levels s []

-- `UpdatableBodyPaths`
unfoldable pub updatable_body_paths : Document → Text → Text → Result (List Text)
updatable_body_paths doc method path =
    find_operation doc method path >>= λ op. ok (paths_of op.request_body)

unfoldable pub keys_of : Properties → List Text → List Text
keys_of none_left set = set
keys_of (property k s ps) set = keys_of ps (add k set)

abbrev names_of : Option (Option Schema) → Option (List Text)
names_of none = none
names_of (some none) = some []
names_of (some (some s)) = some (keys_of (properties_of (flatten s)) [])

-- `RequestedBody`
unfoldable pub requested_body : Document → Text → Text → Result (Option (List Text))
requested_body doc method path =
    find_operation doc method path >>= λ op. ok (names_of op.request_body)

-- The client of a document.
abbrev pub client_of : Document → Client
client_of doc = record {
  requested_params = requested_params doc;
  requested_body = requested_body doc;
  validate_request = validate_request doc;
  updatable_body_paths = updatable_body_paths doc;
}
