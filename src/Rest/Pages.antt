-- ===== src/Rest/Pages.antt =====
-- The loop of FindBy in internal/tools/client/restclient.go: the search through all pages.
use mathlib.Core.List.{append-nil}
use krateo_rest_dynamic_cont.Base.{
  ◌≡◌, refl, sym, ap, ◌∙◌, ℕ, zero, suc, ◌≤◌, length, arith, Bool, true, false, if◌then◌else◌, List,
  [], ◌∷◌, ◌++◌, Option, none, some, some-injective, Text, Error, Result, ok, err,
}
use krateo_rest_dynamic_cont.Value.{Value, obj, Fields}
use krateo_rest_dynamic_cont.Definition.{VerbsDescription, ContinuationTokenConfig}
use krateo_rest_dynamic_cont.Externals.{Externals}
use krateo_rest_dynamic_cont.Builder.{RequestConfiguration}
use krateo_rest_dynamic_cont.Search.{Searcher, extract_items, find_item, matching}
use krateo_rest_dynamic_cont.Pagination.{Paginator, init_paginator, new_paginator, should_continue}
use krateo_rest_dynamic_cont.Handler.{Response}
use krateo_rest_dynamic_cont.Rest.{Document}
use krateo_rest_dynamic_cont.Rest.Calling.{HttpRequest, Http}
use krateo_rest_dynamic_cont.Rest.Finding.{
  Page, fetch_page, Search, go_on, or_go_on, find_pages, find_with, find_by,
}

abbrev pub concat : List (List Value) → List Value
concat [] = []
concat (items ∷ pages) = items ++ concat pages

-- What a search over all items says: the first match, or that there is none.
abbrev pub outcome : Option Fields → Result Value
outcome none = err (Error.status 404)
outcome (some item) = ok (obj item)

abbrev pub body_of : Result Response → Result Value
body_of (ok r) = ok r.body
body_of (err e) = err e

abbrev or_in : Option Fields → Option Fields → Option Fields
or_in none o = o
or_in (some item) o = some item

find_item-append :
    (x : Externals) (u : Searcher) (vs ws : List Value)
    → find_item x u (vs ++ ws) ≡ or_in (find_item x u vs) (find_item x u ws)
unfolding find_item
find_item-append x u [] ws = refl
find_item-append x u (obj fs ∷ vs) ws = go (matching x u (obj fs)) (find_item-append x u vs ws)
  where
    go :
        (b : Bool)
        → find_item x u (vs ++ ws) ≡ or_in (find_item x u vs) (find_item x u ws)
        → (if b then some fs else find_item x u (vs ++ ws))
          ≡ or_in (if b then some fs else find_item x u vs) (find_item x u ws)
    go true e = refl
    go false e = e
find_item-append x u (v ∷ vs) ws = find_item-append x u vs ws

abbrev bodies : Option (Result Response) → Option (Result Value)
bodies none = none
bodies (some r) = some (body_of r)

with_body :
    (o : Option (Result Response)) {v : Result Value}
    → bodies o ≡ some v
    → (r : Result Response) × (o ≡ some r) × (body_of r ≡ v)
with_body none e = cc
with_body (some r) e = (r, refl, some-injective e)

module _ (h : Http) (x : Externals) (u : Searcher) (doc : Document) (base path : Text)
    (opts : RequestConfiguration) (cfg : ContinuationTokenConfig) where
  -- One page: it was fetched, and has these items.
  pub record Fetched (p : Paginator) (sent : List HttpRequest) (items : List Value) : Type 0 where
    pub page : Page
    pub fetched : fetch_page h doc base path opts cfg p sent ≡ ok page
    pub extracted : extract_items (page.answer).body ≡ ok items

  -- The items of the pages from one on, as far as the client asks for them: up to a match, or up to
  -- the page that has no token for another.
  pub data Walk : Paginator → List HttpRequest → List (List Value) → Type 0 where
    hits :
        (p : Paginator) (sent : List HttpRequest) (items : List Value) (item : Fields)
        → Fetched p sent items
        → find_item x u items ≡ some item
        → Walk p sent (items ∷ [])
    ends :
        (p : Paginator) (sent : List HttpRequest) (items : List Value) (f : Fetched p sent items)
        (p' : Paginator)
        → should_continue cfg (f.page).paginator (f.page).headers ≡ (ok false, p')
        → Walk p sent (items ∷ [])
    goes :
        (p : Paginator) (sent : List HttpRequest) (items : List Value) (f : Fetched p sent items)
        (p' : Paginator) (rest : List (List Value))
        → should_continue cfg (f.page).paginator (f.page).headers ≡ (ok true, p')
        → Walk p' ((f.page).request ∷ sent) rest
        → Walk p sent (items ∷ rest)

  abbrev pages_from : ℕ → Search
  pages_from = find_pages h x u doc base path opts cfg

  -- The steps of the loop at a page that was fetched.
  at_page :
      (n : ℕ) (p : Paginator) (sent : List HttpRequest) (items : List Value)
      (f : Fetched p sent items)
      → pages_from (suc n) p sent ≡ or_go_on (pages_from n) cfg f.page sent (find_item x u items)
  unfolding find_pages
  at_page n p sent items f = rw (f.fetched, f.extracted)

  end_at :
      (n : ℕ) (sent : List HttpRequest) (page : Page) (p' : Paginator) (found : Option Fields)
      → should_continue cfg page.paginator page.headers ≡ (ok false, p')
      → bodies (or_go_on (pages_from n) cfg page sent found) ≡ some (outcome found)
  end_at n sent page p' none e = ap (λ r. bodies (go_on (pages_from n) page.request sent r)) e
  end_at n sent page p' (some item) e = refl

  go_on_from :
      (n : ℕ) (sent : List HttpRequest) (page : Page) (p' : Paginator) (found later : Option Fields)
      → should_continue cfg page.paginator page.headers ≡ (ok true, p')
      → bodies (pages_from n p' (page.request ∷ sent)) ≡ some (outcome later)
      → bodies (or_go_on (pages_from n) cfg page sent found) ≡ some (outcome (or_in found later))
  go_on_from n sent page p' none later e k =
      ap (λ r. bodies (go_on (pages_from n) page.request sent r)) e ∙ k
  go_on_from n sent page p' (some item) later e k = refl

  one_page : (items : List Value) → find_item x u (items ++ []) ≡ find_item x u items
  one_page items = ap (find_item x u) (append-nil items)

  find_pages-Walk :
      (p : Paginator) (sent : List HttpRequest) (pages : List (List Value)) (n : ℕ)
      → Walk p sent pages
      → length pages ≤ n
      → bodies (pages_from n p sent) ≡ some (outcome (find_item x u (concat pages)))
  find_pages-Walk p sent pages zero (Walk.hits _ _ items item f e) enough = absurd (omega arith)
  find_pages-Walk p sent pages zero (Walk.ends _ _ items f p' e) enough = absurd (omega arith)
  find_pages-Walk p sent pages zero (Walk.goes _ _ items f p' rest e w) enough =
      absurd (omega arith)
  find_pages-Walk p sent pages (suc n) (Walk.hits _ _ items item f e) enough =
      ap bodies (at_page n p sent items f)
      ∙ ap (λ o. bodies (or_go_on (pages_from n) cfg f.page sent o)) e
      ∙ ap (λ o. some (outcome o)) (sym (one_page items ∙ e))
  find_pages-Walk p sent pages (suc n) (Walk.ends _ _ items f p' e) enough =
      ap bodies (at_page n p sent items f)
      ∙ end_at n sent f.page p' (find_item x u items) e
      ∙ ap (λ o. some (outcome o)) (sym (one_page items))
  find_pages-Walk p sent pages (suc n) (Walk.goes _ _ items f p' rest e w) enough =
      ap bodies (at_page n p sent items f)
      ∙ go_on_from n sent f.page p' (find_item x u items) (find_item x u (concat rest)) e
          (find_pages-Walk p' ((f.page).request ∷ sent) rest n w (omega arith))
      ∙ ap (λ o. some (outcome o)) (sym (find_item-append x u items (concat rest)))

-- A paginated FindBy whose bound on the pages is at least the number of those that the client asks for
-- has the outcome of one search through the items of all these pages in order: the first item that
-- matches, or not found.
pub find_by-pages :
    (h : Http) (x : Externals) (u : Searcher) (doc : Document) (base path : Text)
    (opts : RequestConfiguration) (v : VerbsDescription) (cfg : ContinuationTokenConfig)
    (p : Paginator) (sent : List HttpRequest) (pages : List (List Value)) (n : ℕ)
    → new_paginator v.pagination ≡ ok (some (cfg, p))
    → Walk h x u doc base path opts cfg init_paginator sent pages
    → length pages ≤ n
    → (r : Result Response) × (find_by h x u doc base n sent path opts v ≡ some r)
      × (body_of r ≡ outcome (find_item x u (concat pages)))
unfolding find_by find_with
find_by-pages h x u doc base path opts v cfg p sent pages n hv w enough =
    let (r, hr, hb) =
      with_body (find_pages h x u doc base path opts cfg n init_paginator sent)
        (find_pages-Walk h x u doc base path opts cfg init_paginator sent pages n w enough) in
    (r, ap (find_with h x u doc base n sent path opts) hv ∙ hr, hb)
