-- ===== src/Tests/Resting.antt =====
-- A document with a list of users and an update of one, and a server that answers in two pages.
use krateo_rest_dynamic_cont.Base.{
  contains_any, index_byte, insert, last_byte, contains_byte, equal_fold, ◌≡◌, ◌↔◌, ◌⊎◌, refl, ℕ,
  false, true, All, List, [], ◌∷◌, ◌++◌, Option, none, some, Text, codes, text_eq, to_lower, lookup,
  Error, Result, ok, err, arith, subst, ok-injective, Bool,
}
use krateo_rest_dynamic_cont.Async.{header_get}
use krateo_rest_dynamic_cont.Builder.{RequestConfiguration}
use krateo_rest_dynamic_cont.Comparison.{
  parse_int, infer_plain, trim_space, infer_trimmed, infer_type, inferred_equal, compare_any,
}
use krateo_rest_dynamic_cont.Comparison.Deep.{deep_equal}
use krateo_rest_dynamic_cont.Definition.{VerbsDescription}
use krateo_rest_dynamic_cont.Externals.{sprint, Externals}
use krateo_rest_dynamic_cont.Handler.{Response}
use krateo_rest_dynamic_cont.Pagination.{
  should_continue, put_token, update_request, init_paginator, token_of, new_paginator,
}
use krateo_rest_dynamic_cont.Path.Parse.{
  parse_rest, count_dots, parse_segment_group, merge_dots, parse_groups, has_trailing_dot,
  has_consecutive_dots, parse_path,
}
use krateo_rest_dynamic_cont.Rest.{
  Parameter, Schema, schema, none_left, property, end_of, and_also, Operation, Document,
  find_operation,
}
use krateo_rest_dynamic_cont.Rest.Answers.{Accepted}
use krateo_rest_dynamic_cont.Rest.Bodies.{
  collect_properties, set_property, set_properties, flatten, collect_leaf_paths,
  updatable_body_paths,
}
use krateo_rest_dynamic_cont.Rest.Calling.{
  read_text, read_body, valid_response_codes, replace_first, set_headers, escaped, substitute,
  read_answer, judge_answer, payload, build_path, HttpRequest, HttpResponse, Http, build_request,
  call_api, has_code,
}
use krateo_rest_dynamic_cont.Rest.Effective.{HasUniqueKeys, find_in}
use krateo_rest_dynamic_cont.Rest.Endings.{EndsBy, find_by-done}
use krateo_rest_dynamic_cont.Rest.Finding.{page_request, find_by, Page, headers_or_none, fetch_page}
use krateo_rest_dynamic_cont.Rest.Leaves.{LeafPath, updatable_body_paths_iff}
use krateo_rest_dynamic_cont.Rest.Outcomes.{call_api_ok, call_api_not_found}
use krateo_rest_dynamic_cont.Rest.Pages.{Fetched, Walk, outcome, body_of, find_by-pages}
use krateo_rest_dynamic_cont.Rest.Params.{
  contains_text, is_authorization_header, check_place, check_parameters, validate_request,
}
use krateo_rest_dynamic_cont.Rest.Validation.{Satisfied, validate_request_iff}
use krateo_rest_dynamic_cont.Search.{
  is_in_resource, check_at, match_all, is_item_match, extract_items, find_item,
}
use krateo_rest_dynamic_cont.Tests.{read_one, split_at_dots, sample}
use krateo_rest_dynamic_cont.Tests.Handling.{deleting, request}
use krateo_rest_dynamic_cont.Tests.Pages.{by_token}
use krateo_rest_dynamic_cont.Tests.Searching.{user, by_name}
use krateo_rest_dynamic_cont.Value.{Value, obj, arr, Items, Fields, str, entries}
use mathlib.Core.List.{Memᴰ}

abbrev in_org : Parameter
in_org = record { name = codes "org"; place = codes "path"; required = some true }

abbrev traced : Parameter
traced = record { name = codes "X-Authorization"; place = codes "header"; required = some true }

abbrev leaf : Schema
leaf = schema false none_left end_of

-- A body with a name, and with a size that its allOf adds below its properties.
abbrev sized : Schema
sized = schema false (property (codes "size") leaf none_left) end_of

abbrev body_schema : Schema
body_schema = schema false (property (codes "name") leaf none_left) (
    and_also
      (schema false (property (codes "spec") sized none_left)
        (and_also (schema false (property (codes "id") leaf none_left) end_of) end_of))
      end_of)

abbrev listing : Operation
listing = record {
  parameters = in_org ∷ traced ∷ [];
  servers = [];
  response_codes = codes "200" ∷ [];
  request_body = none;
}

abbrev replacing : Operation
replacing = record listing { request_body = some (some body_schema) }

abbrev document : Document
document = (codes "/{org}/users", (codes "get", listing) ∷ (codes "put", replacing) ∷ []) ∷ []

abbrev path : Text
path = codes "/{org}/users"

abbrev reading : RequestConfiguration
reading = record request { method = codes "GET" }

validate_request_iff_example : (validate_request document (codes "GET") path reading ≡ ok tt) ↔ (
    (op : Operation) × (find_operation document (codes "GET") path ≡ ok op)
    × All (Satisfied reading) op.parameters)
validate_request_iff_example = validate_request_iff document (codes "GET") path reading

updatable_body_paths_iff_example :
    Memᴰ (codes "spec.size") (codes "name" ∷ codes "spec.size" ∷ codes "id" ∷ [])
    ↔ LeafPath 21 body_schema [] (codes "spec.size")
unfolding HasUniqueKeys find_in find_operation lookup text_eq to_lower updatable_body_paths
    collect_leaf_paths flatten set_properties set_property collect_properties call_api build_request
    build_path validate_request check_parameters check_place is_authorization_header contains_text
    payload judge_answer has_code read_answer substitute escaped set_headers replace_first
    valid_response_codes new_paginator fetch_page page_request update_request put_token
    should_continue token_of header_get
updatable_body_paths_iff_example =
    updatable_body_paths_iff document (codes "PUT") path replacing body_schema
      (codes "name" ∷ codes "spec.size" ∷ codes "id" ∷ []) (codes "spec.size") refl refl
      (
        (refl, (tt, tt), tt),
        (((refl, ((refl, (tt, tt), tt), tt), tt), (((refl, (tt, tt), tt), tt), tt)), tt),
      )
      refl

-- The server: the first page has a token, the second has none.
abbrev page_with : Text → Option (List (Text × Text)) → HttpResponse
page_with name headers = record { status_code = 200; headers = headers; body = some name }

abbrev serving : Http
serving = record {
  path_escape = λ s. s;
  query_escape = λ s. s;
  join_url = λ base path. some (base ++ path);
  canonical_key = λ k. k;
  atoi = λ s. some 200;
  marshal = λ v. none;
  decode = λ s. some (arr (Items.cons (obj (user s)) Items.nil));
  set_auth = λ req. req;
  exchange = λ sent req. elim sent [
    | [] ↦ ok (page_with (codes "bob") (some ((codes "X-Next", codes "t2") ∷ [])))
    | (r ∷ rest) ↦ ok (page_with (codes "ann") none)
  ];
}

abbrev sent_first : HttpRequest
sent_first = record {
  method = codes "GET";
  url = codes "http://api/o1/users";
  query = [];
  headers = [];
  cookies = [];
  body = [];
}

abbrev answered : Response
answered = record {
  body = arr (Items.cons (obj (user (codes "bob"))) Items.nil);
  headers = some ((codes "X-Next", codes "t2") ∷ []);
  status_code = 200;
}

call_api_ok_example :
    (op : Operation) × (req : HttpRequest) × (resp : HttpResponse) × (build_request serving document
        (codes "http://api")
        path
        reading
      ≡ ok (op, req))
    × (serving.exchange [] (serving.set_auth req) ≡ ok resp)
    × (find_operation document (codes "GET") path ≡ ok op)
    × All (Satisfied reading) op.parameters
    × (200 ≡ resp.status_code)
    × (has_code resp.status_code [] ≡ false)
    × Accepted serving op reading resp answered.body
unfolding call_api build_request build_path find_operation lookup text_eq to_lower validate_request
    check_parameters check_place is_authorization_header contains_text payload judge_answer has_code
    read_answer substitute escaped set_headers replace_first valid_response_codes new_paginator
    fetch_page page_request update_request put_token should_continue token_of header_get read_body
    read_text
call_api_ok_example =
    call_api_ok serving document (codes "http://api") [] path reading answered refl

-- The server has no such users.
abbrev missing : Http
missing = record serving {
  exchange = λ sent req. ok (record { status_code = 404; headers = none; body = some [] });
}

abbrev missing_status : ℕ
missing_status = 404

call_api_not_found_example :
    (call_api missing document (codes "http://api") [] path reading ≡ err (Error.status 404)) ↔ (
      (has_code 404 [] ≡ true)
      ⊎ ((missing_status ≡ 404) × (has_code 404 [] ≡ false) × (has_code 404 (200 ∷ []) ≡ false)))
unfolding build_request build_path find_operation lookup text_eq to_lower validate_request
    check_parameters check_place is_authorization_header contains_text payload substitute escaped
    set_headers replace_first valid_response_codes new_paginator fetch_page page_request
    update_request read_answer put_token should_continue token_of header_get
call_api_not_found_example =
    call_api_not_found missing document (codes "http://api") [] path reading listing sent_first
      (record { status_code = 404; headers = none; body = some [] }) (200 ∷ []) refl refl refl

abbrev same_text : Value → Value → Bool
same_text (str a) (str b) = text_eq a b
same_text v w = false

abbrev inside : Option Value → Text → Option Value
inside (some (obj fs)) k = lookup k (entries fs)
inside o k = none

abbrev read_two : Fields → List Text → Result (Option Value)
read_two fs (k ∷ []) = ok (lookup k (entries fs))
read_two fs (k ∷ l ∷ []) = ok (inside (lookup k (entries fs)) l)
read_two fs _ = ok none

abbrev comparing : Externals
comparing = record sample { value_equal = same_text; nested_field = read_two }

-- A list that is read page by page.
abbrev paged : VerbsDescription
paged = record deleting {
  action = codes "findby";
  method = codes "GET";
  pagination =
      some (record { kind = codes "continuationToken"; continuation_token = some by_token });
}

serving-EndsBy : EndsBy serving by_token 1
unfolding text_eq token_of header_get
serving-EndsBy [] req resp late h = absurd (omega arith)
serving-EndsBy (r ∷ rest) req resp late h =
    subst (λ q. token_of by_token.response (headers_or_none q.headers) ≡ ok []) (ok-injective h)
      refl

find_by-done_example :
    (r : Result Response) × (find_by serving comparing by_name document
        (codes "http://api")
        2
        []
        path
        reading
        paged
      ≡ some r)
unfolding new_paginator text_eq fetch_page build_request build_path find_operation lookup to_lower
    validate_request check_parameters check_place is_authorization_header contains_text payload
    page_request update_request read_answer put_token should_continue token_of header_get
    valid_response_codes
find_by-done_example =
    find_by-done serving comparing by_name document (codes "http://api") path reading paged by_token
      (record { next_token = []; is_first_call = false }) [] 1 refl serving-EndsBy

abbrev bobs : List Value
bobs = obj (user (codes "bob")) ∷ []

abbrev anns : List Value
anns = obj (user (codes "ann")) ∷ []

abbrev page_one : Page
page_one = record {
  answer = record {
    body = arr (Items.cons (obj (user (codes "bob"))) Items.nil);
    headers = none;
    status_code = 200;
  };
  headers = (codes "X-Next", codes "t2") ∷ [];
  request = sent_first;
  paginator = record { next_token = []; is_first_call = false };
}

abbrev page_two : Page
page_two = record {
  answer = record {
    body = arr (Items.cons (obj (user (codes "ann"))) Items.nil);
    headers = none;
    status_code = 200;
  };
  headers = [];
  request = record sent_first { query = (codes "continue", codes "t2") ∷ [] };
  paginator = record { next_token = codes "t2"; is_first_call = false };
}

fetched_one :
    Fetched serving comparing by_name document
      (codes "http://api")
      path
      reading
      by_token
      init_paginator
      []
      bobs
unfolding fetch_page build_request build_path find_operation lookup text_eq to_lower
    validate_request check_parameters check_place is_authorization_header contains_text payload
    page_request update_request read_answer put_token should_continue token_of header_get
    new_paginator valid_response_codes has_code read_body read_text substitute escaped set_headers
    replace_first extract_items
fetched_one = record { page = page_one; fetched = refl; extracted = refl }

fetched_two :
    Fetched serving comparing by_name document
      (codes "http://api")
      path
      reading
      by_token
      (record { next_token = codes "t2"; is_first_call = false })
      (sent_first ∷ [])
      anns
unfolding fetch_page build_request build_path find_operation lookup text_eq to_lower
    validate_request check_parameters check_place is_authorization_header contains_text payload
    page_request update_request put_token should_continue token_of header_get fetched_one equal_fold
    find_item is_item_match match_all check_at parse_path contains_byte has_consecutive_dots
    has_trailing_dot last_byte parse_groups new_paginator read_answer insert merge_dots
fetched_two = record { page = page_two; fetched = refl; extracted = refl }

two_pages :
    Walk serving comparing by_name document
      (codes "http://api")
      path
      reading
      by_token
      init_paginator
      []
      (bobs ∷ anns ∷ [])
unfolding should_continue token_of text_eq header_get fetched_one equal_fold find_item is_item_match
    match_all check_at parse_path contains_byte has_consecutive_dots has_trailing_dot last_byte
    parse_groups new_paginator merge_dots split_at_dots parse_segment_group count_dots parse_rest
    index_byte contains_any read_one is_in_resource deep_equal compare_any inferred_equal infer_type
    infer_trimmed trim_space sprint infer_plain parse_int
two_pages =
    Walk.goes init_paginator [] bobs fetched_one
      (record { next_token = codes "t2"; is_first_call = false }) (anns ∷ []) refl
      (Walk.hits _ _ anns (user (codes "ann")) fetched_two refl)

find_by-pages_example :
    (r : Result Response) × (find_by serving comparing by_name document
        (codes "http://api")
        5
        []
        path
        reading
        paged
      ≡ some r)
    × (body_of r ≡ outcome (find_item comparing by_name (bobs ++ anns ++ [])))
unfolding new_paginator text_eq
find_by-pages_example =
    find_by-pages serving comparing by_name document (codes "http://api") path reading paged
      by_token (record { next_token = []; is_first_call = false }) [] (bobs ∷ anns ∷ []) 5 refl
      two_pages (omega arith)
