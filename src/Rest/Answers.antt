-- ===== src/Rest/Answers.antt =====
-- internal/tools/client/restclient.go: what the client makes of the answer to a request.
use krateo_rest_dynamic_cont.Base.{
  ◌≡◌, ◌≢◌, ◌↔◌, ◌⊎◌, inl, inr, refl, sym, ap, ◌∙◌, ℕ, Bool, true, false, List, [], ◌∷◌, ◌++◌,
  Option, none, some, if◌then◌else◌, Text, Error, Result, ok, err, >>=-eq-ok, err-ne-ok,
  ok-injective,
}
use krateo_rest_dynamic_cont.Value.{Value, null}
use krateo_rest_dynamic_cont.Async.{Headers}
use krateo_rest_dynamic_cont.Builder.{RequestConfiguration}
use krateo_rest_dynamic_cont.Handler.{Response}
use krateo_rest_dynamic_cont.Rest.{Operation}
use krateo_rest_dynamic_cont.Rest.Calling.{
  HttpResponse, Http, valid_response_codes, has_code, may_be_empty, if_allowed, if_decoded,
  read_text, read_body, read_answer, judge_answer,
}

-- The body that is returned for one that was received.
abbrev pub Decoded : Http → ℕ → Option Text → Value → Type 0
Decoded h n none v = ⊥
Decoded h n (some []) v = (has_code n may_be_empty ≡ true) × (v ≡ null)
Decoded h n (some (c ∷ s)) v = h.decode (c ∷ s) ≡ some v

-- What an answer that is returned says: its status is tolerated, and no body is read, or it is one
-- that the document or the verb lists.
abbrev pub Accepted : Http → Operation → RequestConfiguration → HttpResponse → Value → Type 0
Accepted h op opts resp v =
    ((has_code resp.status_code opts.tolerate_codes ≡ true) × (v ≡ null))
    ⊎ ((valid : List ℕ) × (valid_response_codes h op.response_codes ≡ ok valid)
        × (has_code resp.status_code (valid ++ opts.success_codes) ≡ true)
        × Decoded h resp.status_code resp.body v)

read_text_ok :
    (h : Http) (n : ℕ) (hs : Headers) (s : Text) (r : Response)
    → read_text h n hs s ≡ ok r
    → (r.status_code ≡ n) × Decoded h n (some s) r.body
unfolding read_text
read_text_ok h n hs [] r e = go (has_code n may_be_empty) refl e
  where
    go :
        (b : Bool)
        → has_code n may_be_empty ≡ b
        → if_allowed (record { body = null; headers = hs; status_code = n }) b ≡ ok r
        → (r.status_code ≡ n) × Decoded h n (some []) r.body
    go true hb e =
        let q = ok-injective e in (sym (ap (λ r. r.status_code) q), (hb, sym (ap (λ r. r.body) q)))
    go false hb e = absurd (err-ne-ok e)
read_text_ok h n hs (c ∷ s) r e = go (h.decode (c ∷ s)) refl e
  where
    go :
        (o : Option Value)
        → h.decode (c ∷ s) ≡ o
        → if_decoded n hs o ≡ ok r
        → (r.status_code ≡ n) × (h.decode (c ∷ s) ≡ some r.body)
    go none ho e = absurd (err-ne-ok e)
    go (some v) ho e = (
      sym (ap (λ q. q.status_code) (ok-injective e)),
      ho ∙ ap (λ q. some q.body) (ok-injective e),
    )

read_body_ok :
    (h : Http) (n : ℕ) (hs : Headers) (o : Option Text) (r : Response)
    → read_body h n hs o ≡ ok r
    → (r.status_code ≡ n) × Decoded h n o r.body
unfolding read_body
read_body_ok h n hs none r e = absurd (err-ne-ok e)
read_body_ok h n hs (some s) r e = read_text_ok h n hs s r e

-- The error of a body is no status.
text_is_no_status :
    (h : Http) (n k : ℕ) (hs : Headers) (s : Text) → read_text h n hs s ≢ err (Error.status k)
unfolding read_text
text_is_no_status h n k hs [] e = go (has_code n may_be_empty) e
  where
    go :
        (b : Bool)
        → if_allowed (record { body = null; headers = hs; status_code = n }) b
          ≡ err (Error.status k)
        → ⊥
    go true e = absurd (err-ne-ok (sym e))
    go false e = cc
text_is_no_status h n k hs (c ∷ s) e = go (h.decode (c ∷ s)) e
  where
    go : (o : Option Value) → if_decoded n hs o ≡ err (Error.status k) → ⊥
    go none e = cc
    go (some v) e = absurd (err-ne-ok (sym e))

body_is_no_status :
    (h : Http) (n k : ℕ) (hs : Headers) (o : Option Text)
    → read_body h n hs o ≢ err (Error.status k)
unfolding read_body
body_is_no_status h n k hs none e = cc
body_is_no_status h n k hs (some s) e = text_is_no_status h n k hs s e

abbrev failed : ℕ → Result Response
failed n = err (Error.status n)

status-injective : {n k : ℕ} → failed n ≡ failed k → n ≡ k
status-injective e = cc

true-ne-false : true ≢ false
true-ne-false h = cc

module _ (h : Http) (op : Operation) (opts : RequestConfiguration) (resp : HttpResponse) where
  pub read_answer_ok :
      (hs : Headers) (r : Response)
      → read_answer h op opts resp hs ≡ ok r
      → (r.status_code ≡ resp.status_code)
        × (valid : List ℕ) × (valid_response_codes h op.response_codes ≡ ok valid)
        × (has_code resp.status_code (valid ++ opts.success_codes) ≡ true)
        × Decoded h resp.status_code resp.body r.body
  unfolding read_answer
  read_answer_ok hs r e =
      let (valid, hv, e1) = >>=-eq-ok (valid_response_codes h op.response_codes) _ e in
      go valid hv (has_code resp.status_code (valid ++ opts.success_codes)) refl e1
    where
      go :
          (valid : List ℕ)
          → valid_response_codes h op.response_codes ≡ ok valid
          → (b : Bool) → has_code resp.status_code (valid ++ opts.success_codes) ≡ b
          → (if b
              then read_body h resp.status_code hs resp.body
              else err (Error.status resp.status_code))
            ≡ ok r
          → (r.status_code ≡ resp.status_code)
            × (valid : List ℕ) × (valid_response_codes h op.response_codes ≡ ok valid)
            × (has_code resp.status_code (valid ++ opts.success_codes) ≡ true)
            × Decoded h resp.status_code resp.body r.body
      go valid hv true hb e =
          let (en, d) = read_body_ok h resp.status_code hs resp.body r e in (en, valid, hv, hb, d)
      go valid hv false hb e = absurd (err-ne-ok e)

  pub judge_answer_ok :
      (r : Response)
      → judge_answer h op opts resp ≡ ok r
      → (r.status_code ≡ resp.status_code)
        × (has_code resp.status_code opts.not_found_codes ≡ false)
        × Accepted h op opts resp r.body
  unfolding judge_answer
  judge_answer_ok r e =
      go (has_code resp.status_code opts.not_found_codes)
        (has_code resp.status_code opts.tolerate_codes) refl refl e
    where
      go :
          (a b : Bool)
          → has_code resp.status_code opts.not_found_codes ≡ a
          → has_code resp.status_code opts.tolerate_codes ≡ b
          → (if a
              then err (Error.status 404)
              else if b
              then ok
                  (record { body = null; headers = resp.headers; status_code = resp.status_code })
              else read_answer h op opts resp resp.headers)
            ≡ ok r
          → (r.status_code ≡ resp.status_code)
            × (has_code resp.status_code opts.not_found_codes ≡ false)
            × Accepted h op opts resp r.body
      go true b ha hb e = absurd (err-ne-ok e)
      go false true ha hb e =
          let q = ok-injective e in
          (sym (ap (λ r. r.status_code) q), ha, inl (hb, sym (ap (λ r. r.body) q)))
      go false false ha hb e =
          let (en, valid, hv, hc, d) = read_answer_ok resp.headers r e in
          (en, ha, inr (valid, hv, hc, d))

  -- The error of an answer whose body is read is no status, unless the status is not listed.
  read_answer_not_found :
      (hs : Headers) (valid : List ℕ)
      → valid_response_codes h op.response_codes ≡ ok valid
      → (read_answer h op opts resp hs ≡ err (Error.status 404)) ↔ (
          (resp.status_code ≡ 404)
          × (has_code resp.status_code (valid ++ opts.success_codes) ≡ false))
  unfolding read_answer
  read_answer_not_found hs valid hv = (
    λ e. go (has_code resp.status_code (valid ++ opts.success_codes)) refl (rw (hv) at e),
    λ (n, c). rw (hv, c, n),
  )
    where
      go :
          (b : Bool)
          → has_code resp.status_code (valid ++ opts.success_codes) ≡ b
          → (if b
              then read_body h resp.status_code hs resp.body
              else err (Error.status resp.status_code))
            ≡ err (Error.status 404)
          → (resp.status_code ≡ 404)
            × (has_code resp.status_code (valid ++ opts.success_codes) ≡ false)
      go true hb e = absurd (body_is_no_status h resp.status_code 404 hs resp.body e)
      go false hb e = (status-injective e, hb)

  pub judge_answer_not_found :
      (valid : List ℕ)
      → valid_response_codes h op.response_codes ≡ ok valid
      → (judge_answer h op opts resp ≡ err (Error.status 404)) ↔ (
          (has_code resp.status_code opts.not_found_codes ≡ true)
          ⊎ ((resp.status_code ≡ 404)
              × (has_code resp.status_code opts.tolerate_codes ≡ false)
              × (has_code resp.status_code (valid ++ opts.success_codes) ≡ false)))
  unfolding judge_answer
  judge_answer_not_found valid hv =
      go (has_code resp.status_code opts.not_found_codes)
        (has_code resp.status_code opts.tolerate_codes)
    where
      go :
          (a b : Bool)
          → ((if a
                then err (Error.status 404)
                else if b
                then ok
                    (record { body = null; headers = resp.headers; status_code = resp.status_code })
                else read_answer h op opts resp resp.headers)
              ≡ err (Error.status 404))
            ↔ ((a ≡ true)
                ⊎ ((resp.status_code ≡ 404)
                    × (b ≡ false)
                    × (has_code resp.status_code (valid ++ opts.success_codes) ≡ false)))
      go true b = (λ e. inl refl, λ d. refl)
      go false true = (
        λ e. absurd (err-ne-ok (sym e)),
        λ d. elim d [ inl e ↦ absurd (true-ne-false (sym e)) | inr p ↦ absurd (true-ne-false p.1) ],
      )
      go false false =
          let k = read_answer_not_found resp.headers valid hv in
          (
            λ e. inr ((k.0 e).0, refl, (k.0 e).1),
            λ d. elim d [ inl e ↦ absurd (true-ne-false (sym e)) | inr p ↦ k.1 (p.0, p.2) ],
          )
