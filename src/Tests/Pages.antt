-- ===== src/Tests/Pages.antt =====
-- Two pages of a list, the token in a header and then in the query.
use krateo_rest_dynamic_cont.Base.{
  ◌≡◌, refl, false, List, [], ◌∷◌, some, Text, codes, is_empty, text_eq, equal_fold, to_lower,
  insert,
}
use krateo_rest_dynamic_cont.Definition.{ContinuationTokenConfig}
use krateo_rest_dynamic_cont.Async.{header_get}
use krateo_rest_dynamic_cont.Pagination.{
  Paginator, Request, put_token, update_request, token_of, should_continue, carried, next_page,
}

abbrev pub by_token : ContinuationTokenConfig
by_token = record {
  request = record { token_in = codes "query"; token_path = codes "continue" };
  response = record { token_in = codes "header"; token_path = codes "x-next" };
}

abbrev first_page : Paginator
first_page = record { next_token = []; is_first_call = false }

abbrev page_headers : List (Text × Text)
page_headers = (codes "X-Next", codes "t2") ∷ []

abbrev bare : Request
bare = record { query = []; headers = [] }

abbrev second_request : Request
second_request = record { query = (codes "continue", codes "t2") ∷ []; headers = [] }

next_page_example :
    (is_empty (header_get (codes "x-next") page_headers) ≡ false)
    × (carried (λ k. k) by_token.request second_request
        ≡ some (header_get (codes "x-next") page_headers))
unfolding should_continue token_of header_get update_request put_token text_eq equal_fold to_lower
    insert
next_page_example =
    next_page (λ k. k) by_token first_page
      (record { next_token = codes "t2"; is_first_call = false }) page_headers bare second_request
      refl refl refl
