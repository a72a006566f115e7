-- ===== src/Rest/Params.antt =====
-- internal/tools/client/clienttools.go: RequestedParams, ValidateRequest and isAuthorizationHeader,
-- with internal/text/stringset.go.
use krateo_rest_dynamic_cont.Base.{
  ◌==◌, Bool, true, false, ◌&&◌, ◌||◌, List, [], ◌∷◌, none, some, if◌then◌else◌, Text, codes,
  text_eq, to_lower, lookup, Error, Result, ok, err, ◌>>=◌,
}
use krateo_rest_dynamic_cont.Builder.{RequestedParams, RequestConfiguration, contains}
use krateo_rest_dynamic_cont.Builder.Calls.{is_present}
use krateo_rest_dynamic_cont.Rest.{Parameter, Document, find_operation}

-- `Add`
unfoldable pub add : Text → List Text → List Text
add name set = if contains set name then set else name ∷ set

-- One parameter of `RequestedParams`.
unfoldable pub add_parameter : Parameter → RequestedParams → Result RequestedParams
add_parameter p names =
    if text_eq p.place (codes "path")
    then ok (record names { parameters = add p.name names.parameters })
    else if text_eq p.place (codes "query")
    then ok (record names { query = add p.name names.query })
    else if text_eq p.place (codes "header")
    then ok (record names { headers = add p.name names.headers })
    else if text_eq p.place (codes "cookie")
    then ok (record names { cookies = add p.name names.cookies })
    else err Error.bad_location

unfoldable pub add_parameters : List Parameter → RequestedParams → Result RequestedParams
add_parameters [] names = ok names
add_parameters (p ∷ ps) names = add_parameter p names >>= add_parameters ps

abbrev no_names : RequestedParams
no_names = record { parameters = []; query = []; headers = []; cookies = []; body = [] }

-- `RequestedParams`
unfoldable pub requested_params : Document → Text → Text → Result RequestedParams
requested_params doc method path =
    find_operation doc method path >>= λ op. add_parameters op.parameters no_names

abbrev pub starts_with : Text → Text → Bool
starts_with [] s = true
starts_with (c ∷ p) [] = false
starts_with (c ∷ p) (d ∷ s) = c == d && starts_with p s

-- `strings.Contains`
unfoldable pub contains_text : Text → Text → Bool
contains_text [] sub = starts_with sub []
contains_text (c ∷ s) sub = starts_with sub (c ∷ s) || contains_text s sub

-- `isAuthorizationHeader`
unfoldable pub is_authorization_header : Text → Bool
is_authorization_header header = contains_text (to_lower header) (codes "authorization")

abbrev pub is_required : Parameter → Bool
is_required p = elim p.required [ none ↦ false | some b ↦ b ]

abbrev pub require : Bool → Error → Result (Unit {0})
require true e = ok tt
require false e = err e

-- A required parameter in its place; another place is not looked at.
unfoldable pub check_place : Text → Text → RequestConfiguration → Result (Unit {0})
check_place place name r =
    if text_eq place (codes "path")
    then require (is_present (lookup name r.parameters)) (Error.missing_path name)
    else if text_eq place (codes "query")
    then require (is_present (lookup name r.query)) (Error.missing_query name)
    else if text_eq place (codes "header")
    then require (is_present (lookup name r.headers) || is_authorization_header name)
        (Error.missing_header name)
    else if text_eq place (codes "cookie")
    then require (is_present (lookup name r.cookies)) (Error.missing_cookie name)
    else ok tt

unfoldable pub check_parameters : List Parameter → RequestConfiguration → Result (Unit {0})
check_parameters [] r = ok tt
check_parameters (p ∷ ps) r =
    (if is_required p then check_place p.place p.name r else ok tt) >>= λ done.
    check_parameters ps r

-- `ValidateRequest`
unfoldable pub validate_request : Document → Text → Text → RequestConfiguration → Result (Unit {0})
validate_request doc method path r =
    find_operation doc method path >>= λ op. check_parameters op.parameters r
