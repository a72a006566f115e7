-- ===== src/Rest/Outcomes.antt =====
-- Call of internal/tools/client/restclient.go: when it succeeds, and when it reports that nothing is
-- found.
use krateo_rest_dynamic_cont.Base.{
  ◌≡◌, ◌↔◌, ◌⊎◌, sym, ap, ◌∙◌, subst, ℕ, All, true, false, List, ◌++◌, Text, Error, ok, err,
  >>=-eq-ok, ok-injective,
}
use krateo_rest_dynamic_cont.Builder.{RequestConfiguration}
use krateo_rest_dynamic_cont.Handler.{Response}
use krateo_rest_dynamic_cont.Rest.{Operation, Document, find_operation}
use krateo_rest_dynamic_cont.Rest.Params.{validate_request}
use krateo_rest_dynamic_cont.Rest.Validation.{Satisfied, validate_request_iff}
use krateo_rest_dynamic_cont.Rest.Calling.{
  HttpRequest, HttpResponse, Http, valid_response_codes, has_code, payload, build_path, server_of,
  build_request, call_api, or_no_uri,
}
use krateo_rest_dynamic_cont.Rest.Answers.{Accepted, judge_answer_ok, judge_answer_not_found}

build_request_ok :
    (h : Http) (doc : Document) (base path : Text) (opts : RequestConfiguration) (op : Operation)
    (req : HttpRequest)
    → build_request h doc base path opts ≡ ok (op, req)
    → (find_operation doc opts.method path ≡ ok op)
      × (validate_request doc opts.method path opts ≡ ok tt)
unfolding build_request
build_request_ok h doc base path opts op req e =
    let (first, hf, e1) =
      >>=-eq-ok (or_no_uri (build_path h base path opts.parameters opts.query)) _ e in
    let (op', ho, e2) = >>=-eq-ok (find_operation doc opts.method path) _ e1 in
    let (uri, hu, e3) =
      >>=-eq-ok (or_no_uri (build_path h (server_of base op') path opts.parameters opts.query)) _
        e2 in
    let (u, hv, e4) = >>=-eq-ok (validate_request doc opts.method path opts) _ e3 in
    let (sent, hs, e5) = >>=-eq-ok (payload h opts.body) _ e4 in
    (ho ∙ ap (λ p. ok p.0) (ok-injective e5), hv)

-- A call that succeeds was made for an operation of the document whose required parameters are all in
-- their places; its request was built and exchanged; the status of the answer is returned, it is
-- not one that the verb reads as not found, and either the verb tolerates it and no body is returned,
-- or the document lists it among the success codes or the verb does, and the body is returned decoded,
-- or nil where it is empty and the status allows that.
pub call_api_ok :
    (h : Http) (doc : Document) (base : Text) (sent : List HttpRequest) (path : Text)
    (opts : RequestConfiguration) (r : Response)
    → call_api h doc base sent path opts ≡ ok r
    → (op : Operation) × (req : HttpRequest) × (resp : HttpResponse) × (build_request h doc base
          path opts
        ≡ ok (op, req))
      × (h.exchange sent (h.set_auth req) ≡ ok resp)
      × (find_operation doc opts.method path ≡ ok op)
      × All (Satisfied opts) op.parameters
      × (r.status_code ≡ resp.status_code)
      × (has_code resp.status_code opts.not_found_codes ≡ false)
      × Accepted h op opts resp r.body
unfolding call_api
call_api_ok h doc base sent path opts r e =
    let (built, hb, e1) = >>=-eq-ok (build_request h doc base path opts) _ e in
    let (resp, hx, e2) = >>=-eq-ok (h.exchange sent (h.set_auth built.1)) _ e1 in
    let (ho, hv) = build_request_ok h doc base path opts built.0 built.1 hb in
    let (op, hf, all) = (validate_request_iff doc opts.method path opts).0 hv in
    let same : op ≡ built.0 = ok-injective (sym hf ∙ ho) in
    let (en, hn, acc) = judge_answer_ok h built.0 opts resp r e2 in
    (
      built.0,
      built.1,
      resp,
      hb,
      hx,
      ho,
      subst (λ op. All (Satisfied opts) op.parameters) same all,
      en,
      hn,
      acc,
    )

-- Where the request could be built and was answered, and the codes of the document are numbers, a call
-- reports that nothing is found exactly if the verb reads the status so, or the status is 404 and the
-- verb does not tolerate it nor is it listed as a success.
pub call_api_not_found :
    (h : Http) (doc : Document) (base : Text) (sent : List HttpRequest) (path : Text)
    (opts : RequestConfiguration) (op : Operation) (req : HttpRequest) (resp : HttpResponse)
    (valid : List ℕ)
    → build_request h doc base path opts ≡ ok (op, req)
    → h.exchange sent (h.set_auth req) ≡ ok resp
    → valid_response_codes h op.response_codes ≡ ok valid
    → (call_api h doc base sent path opts ≡ err (Error.status 404)) ↔ (
        (has_code resp.status_code opts.not_found_codes ≡ true)
        ⊎ ((resp.status_code ≡ 404)
            × (has_code resp.status_code opts.tolerate_codes ≡ false)
            × (has_code resp.status_code (valid ++ opts.success_codes) ≡ false)))
unfolding call_api
call_api_not_found h doc base sent path opts op req resp valid hb hx hv =
    let k = judge_answer_not_found h op opts resp valid hv in
    (λ e. k.0 (rw (hb, hx) at e), λ d. rw (hb, hx, k.1 d))
