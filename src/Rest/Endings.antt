-- ===== src/Rest/Endings.antt =====
-- The loop of FindBy in internal/tools/client/restclient.go: when it ends.
use krateo_rest_dynamic_cont.Base.{
  ◌≡◌, ◌≢◌, refl, sym, ap, ◌∙◌, subst, ℕ, zero, suc, ◌≤◌, ◌+◌, length, arith, Bool, true, false,
  List, [], ◌∷◌, Option, none, some, Text, Error, Result, ok, err, >>=-eq-ok, ok-injective,
}
use krateo_rest_dynamic_cont.Value.{Value, Fields}
use krateo_rest_dynamic_cont.Definition.{VerbsDescription, ContinuationTokenConfig}
use krateo_rest_dynamic_cont.Externals.{Externals}
use krateo_rest_dynamic_cont.Builder.{RequestConfiguration}
use krateo_rest_dynamic_cont.Search.{Searcher, extract_items, find_item}
use krateo_rest_dynamic_cont.Pagination.{
  Paginator, init_paginator, new_paginator, should_continue, token_of, continue_with,
}
use krateo_rest_dynamic_cont.Handler.{Response}
use krateo_rest_dynamic_cont.Rest.{Document}
use krateo_rest_dynamic_cont.Rest.Calling.{
  HttpRequest, HttpResponse, Http, build_request, read_answer,
}
use krateo_rest_dynamic_cont.Rest.Finding.{
  Page, headers_or_none, fetch_page, page_request, Search, go_on, or_go_on, search_items,
  search_page, find_pages, find_with, find_by,
}

-- From the request of some number on, no answer of the server has a token.
abbrev pub EndsBy : Http → ContinuationTokenConfig → ℕ → Type 0
EndsBy h cfg most =
    (sent : List HttpRequest) (req : HttpRequest) (resp : HttpResponse)
    → most ≤ length sent
    → h.exchange sent req ≡ ok resp
    → token_of cfg.response (headers_or_none resp.headers) ≡ ok []

false-ne-true : false ≢ true
false-ne-true h = cc

abbrev IsDone : Option (Result Response) → Type 0
IsDone o = (r : Result Response) × (o ≡ some r)

module _ (h : Http) (x : Externals) (u : Searcher) (doc : Document) (base path : Text)
    (opts : RequestConfiguration) (cfg : ContinuationTokenConfig) (most : ℕ)
    (server : EndsBy h cfg most) where
  -- A page has no token if that many requests were sent before.
  last_page :
      (p : Paginator) (sent : List HttpRequest) (page : Page)
      → most ≤ length sent
      → fetch_page h doc base path opts cfg p sent ≡ ok page
      → token_of cfg.response page.headers ≡ ok []
  unfolding fetch_page
  last_page p sent page late e =
      let (built, hb, e1) = >>=-eq-ok (build_request h doc base path opts) _ e in
      let (req, hq, e2) = >>=-eq-ok (page_request h cfg p built.1).0 _ e1 in
      let (resp, hx, e3) = >>=-eq-ok (h.exchange sent req) _ e2 in
      let (answer, ha, e4) = >>=-eq-ok (read_answer h built.0 opts resp none) _ e3 in
      subst (λ hs. token_of cfg.response hs ≡ ok []) (ap (λ q. q.headers) (ok-injective e4))
        (server sent req resp late hx)

  -- A search goes on for so many pages.
  abbrev Done : Search → List HttpRequest → Type 0
  Done rest sent = (p : Paginator) (req : HttpRequest) → IsDone (rest p (req ∷ sent))

  gone_on :
      (rest : Search) (req : HttpRequest) (sent : List HttpRequest) (r : Result Bool × Paginator)
      → ((p : Paginator) → r ≡ (ok true, p) → IsDone (rest p (req ∷ sent)))
      → IsDone (go_on rest req sent r)
  gone_on rest req sent (err e, p) k = (err e, refl)
  gone_on rest req sent (ok false, p) k = (err (Error.status 404), refl)
  gone_on rest req sent (ok true, p) k = k p refl

  searched :
      (rest : Search) (sent : List HttpRequest) (page : Page) (r : Result (List Value))
      → ((p : Paginator)
          → should_continue cfg page.paginator page.headers ≡ (ok true, p)
          → IsDone (rest p (page.request ∷ sent)))
      → IsDone (search_items x u rest cfg page sent r)
  searched rest sent page (err e) k = (err e, refl)
  searched rest sent page (ok items) k = go (find_item x u items)
    where
      go : (o : Option Fields) → IsDone (or_go_on rest cfg page sent o)
      go none = gone_on rest page.request sent (should_continue cfg page.paginator page.headers) k
      go (some item) = (_, refl)

  fetched :
      (rest : Search) (p : Paginator) (sent : List HttpRequest) (r : Result Page)
      → fetch_page h doc base path opts cfg p sent ≡ r
      → ((page : Page) (q : Paginator)
          → fetch_page h doc base path opts cfg p sent ≡ ok page
          → should_continue cfg page.paginator page.headers ≡ (ok true, q)
          → IsDone (rest q (page.request ∷ sent)))
      → IsDone (search_page x u rest cfg sent r)
  fetched rest p sent (err e) hp k = (err e, refl)
  fetched rest p sent (ok page) hp k =
      searched rest sent page (extract_items (page.answer).body) (λ q e. k page q hp e)

  no_token_no_page :
      (page : Page) (q : Paginator)
      → token_of cfg.response page.headers ≡ ok []
      → should_continue cfg page.paginator page.headers ≡ (ok true, q)
      → ⊥
  unfolding should_continue
  no_token_no_page page q e h = absurd (
      false-ne-true
        (ok-injective (ap (λ r. r.0) (sym (ap (λ t. continue_with t page.paginator) e) ∙ h))))

  find_pages-IsDone :
      (n : ℕ) (p : Paginator) (sent : List HttpRequest)
      → most ≤ n + length sent
      → IsDone (find_pages h x u doc base path opts cfg (suc n) p sent)
  unfolding find_pages
  find_pages-IsDone zero p sent late =
      fetched (find_pages h x u doc base path opts cfg zero) p sent
        (fetch_page h doc base path opts cfg p sent) refl
        (λ page q hp e. absurd (no_token_no_page page q (last_page p sent page (omega arith) hp) e))
  find_pages-IsDone (suc n) p sent late =
      fetched (find_pages h x u doc base path opts cfg (suc n)) p sent
        (fetch_page h doc base path opts cfg p sent) refl
        (λ page q hp e. find_pages-IsDone n q (page.request ∷ sent) (omega arith))

-- A paginated FindBy ends: where no answer of the server has a token from the request of some number
-- on, as many pages as that and one more are enough for it to return.
pub find_by-done :
    (h : Http) (x : Externals) (u : Searcher) (doc : Document) (base path : Text)
    (opts : RequestConfiguration) (v : VerbsDescription) (cfg : ContinuationTokenConfig)
    (p : Paginator) (sent : List HttpRequest) (most : ℕ)
    → new_paginator v.pagination ≡ ok (some (cfg, p))
    → EndsBy h cfg most
    → (r : Result Response) × (find_by h x u doc base (suc most) sent path opts v ≡ some r)
unfolding find_by find_with
find_by-done h x u doc base path opts v cfg p sent most hv server =
    let (r, hr) =
      find_pages-IsDone h x u doc base path opts cfg most server most init_paginator sent
        (omega arith) in
    (r, ap (find_with h x u doc base (suc most) sent path opts) hv ∙ hr)
