-- ===== src/Rest/Finding.antt =====
-- internal/tools/client/restclient.go: FindBy with CallFindBySingle and CallForPagination.
use krateo_rest_dynamic_cont.Base.{
  ℕ, zero, suc, Bool, true, false, List, [], ◌∷◌, Option, none, some, Text, Error, Result, ok, err,
  ◌>>=◌,
}
use krateo_rest_dynamic_cont.Value.{Value, null, obj, Fields}
use krateo_rest_dynamic_cont.Definition.{VerbsDescription, ContinuationTokenConfig}
use krateo_rest_dynamic_cont.Externals.{Externals}
use krateo_rest_dynamic_cont.Builder.{RequestConfiguration}
use krateo_rest_dynamic_cont.Search.{Searcher, extract_items, find_item}
use krateo_rest_dynamic_cont.Pagination.{
  Paginator, Request, init_paginator, new_paginator, update_request, should_continue,
}
use krateo_rest_dynamic_cont.Handler.{Response}
use krateo_rest_dynamic_cont.Rest.{Document}
use krateo_rest_dynamic_cont.Rest.Calling.{HttpRequest, Http, build_request, read_answer, call_api}

-- The item that was found, as the response to the search; one without headers.
abbrev pub found_or : ℕ → Option Fields → Result Response → Result Response
found_or n none next = next
found_or n (some item) next = ok (record { body = obj item; headers = none; status_code = n })

unfoldable pub search_body : Externals → Searcher → ℕ → Value → Result Response
search_body x u n null = err (Error.status 404)
search_body x u n v =
    extract_items v >>= λ items. found_or n (find_item x u items) (err (Error.status 404))

-- `CallFindBySingle`
unfoldable pub find_single :
    Http
    → Externals
    → Searcher
    → Document
    → Text
    → List HttpRequest
    → Text
    → RequestConfiguration
    → Result Response
find_single h x u doc base sent path opts =
    call_api h doc base sent path opts >>= λ resp. search_body x u resp.status_code resp.body

-- The token in a request of the client: the query is still that of the URL.
abbrev pub with_page : HttpRequest → Request → HttpRequest
with_page req page = record req { query = page.query; headers = page.headers }

-- What `CallForPagination` has when it sends a page's request.
unfoldable pub page_request :
    Http → ContinuationTokenConfig → Paginator → HttpRequest → Result HttpRequest × Paginator
page_request h cfg p req =
    let r =
      update_request h.canonical_key cfg p
        (record { query = (h.set_auth req).query; headers = (h.set_auth req).headers }) in
    (r.0 >>= λ page. ok (with_page (h.set_auth req) page), r.1)

-- A page that was fetched: its answer, what the paginator reads of it, and the request it answers.
pub record Page : Type 0 where
  pub answer : Response
  pub headers : List (Text × Text)
  pub request : HttpRequest
  pub paginator : Paginator

abbrev pub headers_or_none : Option (List (Text × Text)) → List (Text × Text)
headers_or_none none = []
headers_or_none (some hs) = hs

-- `CallForPagination`; not-found codes and tolerated codes are not looked at, and the response has no
-- headers of its own.
unfoldable pub fetch_page :
    Http
    → Document
    → Text
    → Text
    → RequestConfiguration
    → ContinuationTokenConfig
    → Paginator
    → List HttpRequest
    → Result Page
fetch_page h doc base path opts cfg p sent = do
  built ← build_request h doc base path opts
  req ← (page_request h cfg p built.1).0
  resp ← h.exchange sent req
  answer ← read_answer h built.0 opts resp none
  ok (record {
    answer = answer;
    headers = headers_or_none resp.headers;
    request = req;
    paginator = (page_request h cfg p built.1).1;
  })

-- The search through the pages from one on.
abbrev pub Search : Type 0
Search = Paginator → List HttpRequest → Option (Result Response)

abbrev pub go_on :
    Search → HttpRequest → List HttpRequest → Result Bool × Paginator → Option (Result Response)
go_on rest req sent (err e, p) = some (err e)
go_on rest req sent (ok false, p) = some (err (Error.status 404))
go_on rest req sent (ok true, p) = rest p (req ∷ sent)

abbrev pub or_go_on :
    Search
    → ContinuationTokenConfig
    → Page
    → List HttpRequest
    → Option Fields
    → Option (Result Response)
or_go_on rest cfg page sent none =
    go_on rest page.request sent (should_continue cfg page.paginator page.headers)
or_go_on rest cfg page sent (some item) =
    some (ok (record { body = obj item; headers = none; status_code = (page.answer).status_code }))

abbrev pub search_items :
    Externals
    → Searcher
    → Search
    → ContinuationTokenConfig
    → Page
    → List HttpRequest
    → Result (List Value)
    → Option (Result Response)
search_items x u rest cfg page sent (err e) = some (err e)
search_items x u rest cfg page sent (ok items) = or_go_on rest cfg page sent (find_item x u items)

abbrev pub search_page :
    Externals
    → Searcher
    → Search
    → ContinuationTokenConfig
    → List HttpRequest
    → Result Page
    → Option (Result Response)
search_page x u rest cfg sent (err e) = some (err e)
search_page x u rest cfg sent (ok page) =
    search_items x u rest cfg page sent (extract_items (page.answer).body)

-- The loop of `FindBy`, which has no bound of its own: `none` when this many pages were not enough.
unfoldable pub find_pages :
    Http
    → Externals
    → Searcher
    → Document
    → Text
    → Text
    → RequestConfiguration
    → ContinuationTokenConfig
    → ℕ
    → Search
find_pages h x u doc base path opts cfg zero p sent = none
find_pages h x u doc base path opts cfg (suc n) p sent =
    search_page x u (find_pages h x u doc base path opts cfg n) cfg sent
      (fetch_page h doc base path opts cfg p sent)

-- The search that a paginator, or none, makes.
unfoldable pub find_with :
    Http
    → Externals
    → Searcher
    → Document
    → Text
    → ℕ
    → List HttpRequest
    → Text
    → RequestConfiguration
    → Result (Option (ContinuationTokenConfig × Paginator))
    → Option (Result Response)
find_with h x u doc base most sent path opts (err e) = some (err e)
find_with h x u doc base most sent path opts (ok none) =
    some (find_single h x u doc base sent path opts)
find_with h x u doc base most sent path opts (ok (some (cfg, p))) =
    find_pages h x u doc base path opts cfg most init_paginator sent

-- `FindBy`, with at most so many pages.
unfoldable pub find_by :
    Http
    → Externals
    → Searcher
    → Document
    → Text
    → ℕ
    → List HttpRequest
    → Text
    → RequestConfiguration
    → VerbsDescription
    → Option (Result Response)
find_by h x u doc base most sent path opts v =
    find_with h x u doc base most sent path opts (new_paginator v.pagination)
