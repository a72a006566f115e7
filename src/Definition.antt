-- ===== src/Definition.antt =====
-- The types of internal/tools/definitiongetter/getter.go: a RestDefinition as the controller reads
-- it. A Go int that holds an HTTP status code is a natural number; a poll setting is signed.
use krateo_rest_dynamic_cont.Base.{ℕ, Bool, List, Option, Text, ℤ}
use krateo_rest_dynamic_cont.Value.{Fields}

pub record ContinuationTokenRequest : Type 0 where
  pub token_in : Text
  pub token_path : Text

pub record ContinuationTokenResponse : Type 0 where
  pub token_in : Text
  pub token_path : Text

pub record ContinuationTokenConfig : Type 0 where
  pub request : ContinuationTokenRequest
  pub response : ContinuationTokenResponse

pub record Pagination : Type 0 where
  pub kind : Text
  pub continuation_token : Option ContinuationTokenConfig

pub record RequestFieldMappingItem : Type 0 where
  pub in_path : Text
  pub in_query : Text
  pub in_body : Text
  pub in_custom_resource : Text

pub record JqProgram : Type 0 where
  pub inline : Text
  pub ref : Text
  pub entrypoint : Text

pub record ValueAlias : Type 0 where
  pub custom_resource_value : Text
  pub api_value : Text

pub record ValueMapping : Type 0 where
  pub kind : Text
  pub aliases : List ValueAlias
  pub jq : Option JqProgram

pub record SecretRefResolver : Type 0 where
  pub name_from_custom_resource : Text
  pub key_from_custom_resource : Text

pub record FieldResolver : Type 0 where
  pub kind : Text
  pub secret_ref : Option SecretRefResolver

pub record FieldMappingItem : Type 0 where
  pub in_path : Text
  pub in_query : Text
  pub in_body : Text
  pub in_response : Text
  pub in_custom_resource : Text
  pub value_mapping : Option ValueMapping
  pub resolver : Option FieldResolver
  pub default_if_absent : Option Text

pub record HeaderItem : Type 0 where
  pub name : Text
  pub value : Text

pub record QueryParam : Type 0 where
  pub name : Text
  pub value : Text

pub record OperationRef : Type 0 where
  pub place : Text
  pub path : Text
  pub jq : Option JqProgram

pub record PollConfig : Type 0 where
  pub method : Text
  pub path : Text
  pub handle_param : Text
  pub status_path : Text
  pub success_values : List Text
  pub failure_values : List Text
  pub interval_seconds : ℤ
  pub max_attempts : ℤ
  pub timeout_seconds : ℤ

pub record AsyncConfig : Type 0 where
  pub mode : Text
  pub operation_ref : OperationRef
  pub poll : PollConfig
  pub post_get : Bool

pub record VerbsDescription : Type 0 where
  pub action : Text
  pub method : Text
  pub path : Text
  pub request_field_mapping : List RequestFieldMappingItem
  pub field_mapping : List FieldMappingItem
  pub request_transform : Option JqProgram
  pub response_transform : Option JqProgram
  pub identifiers_match_policy : Text
  pub pagination : Option Pagination
  pub success_codes : List ℕ
  pub headers : List HeaderItem
  pub queries : List QueryParam
  pub tolerate_codes : List ℕ
  pub not_found_codes : List ℕ
  pub not_found_body : Option JqProgram
  pub async : Option AsyncConfig

pub record ApiRef : Type 0 where
  pub name : Text
  pub namespace : Text
  pub extras : Fields
  pub not_found_expr : Option JqProgram
  pub up_to_date_expr : Option JqProgram

pub record Resource : Type 0 where
  pub kind : Text
  pub identifiers : List Text
  pub additional_status_fields : List Text
  pub compare_scope : Text
  pub verbs_description : List VerbsDescription
  pub observe_api_ref : Option ApiRef
  pub create_api_ref : Option ApiRef
  pub delete_api_ref : Option ApiRef
  pub update_api_ref : Option ApiRef

-- SetAuth, a function on HTTP requests, and the configuration fields are left out.
pub record Info : Type 0 where
  pub url : Text
  pub resource : Resource
  pub configuration_spec : Fields
