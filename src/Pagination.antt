-- ===== src/Pagination.antt =====
-- internal/tools/pagination: the continuation token paginator. A request is its query and its
-- headers, each with one value under a key; the canonical form of a header's key is a parameter.
use krateo_rest_dynamic_cont.Base.{
  ◌≡◌, refl, sym, ap, ◌∙◌, arith, Bool, true, false, ◌||◌, List, [], ◌∷◌, Option, none, some,
  if◌then◌else◌, Text, codes, text_eq, is_empty, lookup, insert, lookup-insert_self, Error, Result,
  ok, err, ok-injective, err-ne-ok, subst, ◌≢◌,
}
use krateo_rest_dynamic_cont.Definition.{
  ContinuationTokenRequest, ContinuationTokenResponse, ContinuationTokenConfig,
}
use krateo_rest_dynamic_cont.Definition
use krateo_rest_dynamic_cont.Async.{header_get}

-- `continuationTokenPaginator`, less its configuration.
pub record Paginator : Type 0 where
  pub next_token : Text
  pub is_first_call : Bool

pub record Request : Type 0 where
  pub query : List (Text × Text)
  pub headers : List (Text × Text)

-- `Init`
abbrev pub init_paginator : Paginator
init_paginator = record { next_token = []; is_first_call = true }

-- `NewPaginator` with `NewContinuationTokenPaginator`, whose paginator is not initialized; none
-- without a configuration.
unfoldable pub new_paginator :
    Option Definition.Pagination → Result (Option (ContinuationTokenConfig × Paginator))
new_paginator none = ok none
new_paginator (some cfg) =
    if text_eq cfg.kind (codes "continuationToken")
    then elim cfg.continuation_token [
      | none ↦ err Error.missing_token_config
      | some c ↦ ok (some (c, record { next_token = []; is_first_call = false }))
    ]
    else err Error.bad_pagination

-- The token in its place of the request.
unfoldable pub put_token :
    (Text → Text) → ContinuationTokenRequest → Text → Request → Result Request
put_token key cfg token req =
    if text_eq cfg.token_in (codes "query")
    then ok (record req { query = insert cfg.token_path token req.query })
    else if text_eq cfg.token_in (codes "header")
    then ok (record req { headers = insert (key cfg.token_path) token req.headers })
    else err Error.bad_token_in

-- `UpdateRequest`
unfoldable pub update_request :
    (Text → Text) → ContinuationTokenConfig → Paginator → Request → Result Request × Paginator
update_request key cfg p req =
    if p.is_first_call || is_empty p.next_token
    then (ok req, record p { is_first_call = false })
    else (put_token key cfg.request p.next_token req, p)

-- The token of a response; one in the body is not read.
unfoldable pub token_of : ContinuationTokenResponse → List (Text × Text) → Result Text
token_of cfg headers =
    if text_eq cfg.token_in (codes "header")
    then ok (header_get cfg.token_path headers)
    else if text_eq cfg.token_in (codes "body")
    then ok []
    else err Error.bad_token_in

abbrev pub continue_with : Result Text → Paginator → Result Bool × Paginator
continue_with (err e) p = (err e, p)
continue_with (ok []) p = (ok false, record p { next_token = [] })
continue_with (ok (c ∷ s)) p = (ok true, record p { next_token = c ∷ s })

-- `ShouldContinue`
unfoldable pub should_continue :
    ContinuationTokenConfig → Paginator → List (Text × Text) → Result Bool × Paginator
should_continue cfg p headers = continue_with (token_of cfg.response headers) p

-- Where a request carries a token.
abbrev pub carried : (Text → Text) → ContinuationTokenRequest → Request → Option Text
carried key cfg req =
    if text_eq cfg.token_in (codes "query")
    then lookup cfg.token_path req.query
    else lookup (key cfg.token_path) req.headers

false-ne-true : false ≢ true
false-ne-true h = cc

carried-put_token :
    (key : Text → Text) (cfg : ContinuationTokenRequest) (token : Text) (req req' : Request)
    → put_token key cfg token req ≡ ok req'
    → carried key cfg req' ≡ some token
unfolding put_token
carried-put_token key cfg token req req' h = ground (
  arith,
  lookup-insert_self cfg.token_path token req.query,
  lookup-insert_self (key cfg.token_path) token req.headers,
)

-- What a decision to go on says of the token and of the paginator.
continue_with-true :
    (r : Result Text) (p p' : Paginator) (token : Text)
    → continue_with r p ≡ (ok true, p')
    → r ≡ ok token
    → (is_empty token ≡ false) × (p' ≡ record p { next_token = token })
continue_with-true (err e) p p' token h k = cc
continue_with-true (ok []) p p' token h k = absurd (false-ne-true (ok-injective (ap (λ q. q.0) h)))
continue_with-true (ok (c ∷ s)) p p' token h k =
    let e = ok-injective k in
    (ap is_empty (sym e), sym (ap (λ q. q.1) h) ∙ ap (λ t. record p { next_token = t }) e)

token_if :
    (in_header in_body : Bool) (token : Text) (p p' : Paginator)
    → continue_with
        (if in_header then ok token else if in_body then ok [] else err Error.bad_token_in)
        p
      ≡ (ok true, p')
    → (if in_header then ok token else if in_body then ok [] else err Error.bad_token_in) ≡ ok token
token_if true b token p p' h = refl
token_if false true token p p' h = absurd (false-ne-true (ok-injective (ap (λ q. q.0) h)))
token_if false false token p p' h = absurd (err-ne-ok (ap (λ q. q.0) h))

token_of-true :
    (cfg : ContinuationTokenResponse) (headers : List (Text × Text)) (p p' : Paginator)
    → continue_with (token_of cfg headers) p ≡ (ok true, p')
    → token_of cfg headers ≡ ok (header_get cfg.token_path headers)
unfolding token_of
token_of-true cfg headers p p' h =
    token_if (text_eq cfg.token_in (codes "header")) (text_eq cfg.token_in (codes "body"))
      (header_get cfg.token_path headers) p p' h

-- Behind the first call, a response that asks for another page has a non-empty token in its header,
-- and the next request that can be made carries that token in its declared place.
pub next_page :
    (key : Text → Text) (cfg : ContinuationTokenConfig) (p p' : Paginator)
    (headers : List (Text × Text)) (req req' : Request)
    → p.is_first_call ≡ false
    → should_continue cfg p headers ≡ (ok true, p')
    → (update_request key cfg p' req).0 ≡ ok req'
    → (is_empty (header_get (cfg.response).token_path headers) ≡ false)
      × (carried key cfg.request req' ≡ some (header_get (cfg.response).token_path headers))
unfolding should_continue update_request
next_page key cfg p p' headers req req' later h made =
    let token = header_get (cfg.response).token_path headers in
    let (full, e) =
      continue_with-true (token_of cfg.response headers) p p' token h
        (token_of-true cfg.response headers p p' h) in
    let sent : (update_request key cfg (record p { next_token = token }) req).0 ≡ ok req' =
      subst (λ q. (update_request key cfg q req).0 ≡ ok req') e made in
    (full, carried-put_token key cfg.request token req req' (rw (later, full) at sent))
