-- ===== src/Rest.antt =====
-- internal/tools/client: the REST client. The OpenAPI document is read as data: libopenapi parses it,
-- and a document whose schemas do not all build, or that refers to itself, is not modelled.
pub mod Params
pub mod Validation
pub mod Bodies
pub mod Effective
pub mod Flattening
pub mod Entries
pub mod Leaves
pub mod Calling
pub mod Answers
pub mod Outcomes
pub mod Finding
pub mod Pages
pub mod Endings
use krateo_rest_dynamic_cont.Base.{
  Bool, List, [], ◌∷◌, Option, none, some, Text, to_lower, lookup, Error, Result, ok, err,
}

-- v3.Parameter
pub record Parameter : Type 0 where
  pub name : Text
  pub place : Text
  pub required : Option Bool

mutual
  -- base.Schema: whether its type is array, its properties in order, and its allOf. The schema of the
  -- items of an array is left out: neither walk over a schema shows it.
  pub data Schema : Type 0 where
    schema : Bool → Properties → Schemas → Schema

  pub data Properties : Type 0 where
    none_left : Properties
    property : Text → Schema → Properties → Properties

  pub data Schemas : Type 0 where
    end_of : Schemas
    and_also : Schema → Schemas → Schemas

-- v3.Operation: the keys of its responses, and the JSON schema of its request body, if it has a body
-- and that has one.
pub record Operation : Type 0 where
  pub parameters : List Parameter
  pub servers : List Text
  pub response_codes : List Text
  pub request_body : Option (Option Schema)

-- The operations of each path, by the method in lower case.
abbrev pub Document : Type 0
Document = List (Text × List (Text × Operation))

abbrev operation_in : Option (List (Text × Operation)) → Text → Result Operation
operation_in none method = err Error.path_unknown
operation_in (some ops) method = elim (lookup (to_lower method) ops) [
  | none ↦ err Error.operation_unknown
  | some op ↦ ok op
]

-- The operation that the operations of the client begin with.
unfoldable pub find_operation : Document → Text → Text → Result Operation
find_operation doc method path = operation_in (lookup path doc) method
