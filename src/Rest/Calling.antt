-- ===== src/Rest/Calling.antt =====
-- internal/tools/client: buildPath and getValidResponseCode of clienttools.go, HasValidStatusCode of
-- validators.go, and Call of restclient.go with what it shares with CallForPagination.
use krateo_rest_dynamic_cont.Base.{
  ℕ, ◌==◌, leb, ltb, Bool, true, false, ◌&&◌, any, List, [], ◌∷◌, ◌++◌, drop, length, Option, none,
  some, if◌then◌else◌, Text, codes, insert, Error, Result, ok, err, ◌>>=◌,
}
use krateo_rest_dynamic_cont.Value.{Value, null, obj, end, field}
use krateo_rest_dynamic_cont.Async.{Headers}
use krateo_rest_dynamic_cont.Builder.{RequestConfiguration}
use krateo_rest_dynamic_cont.Handler.{Response}
use krateo_rest_dynamic_cont.Rest.{Operation, Document, find_operation}
use krateo_rest_dynamic_cont.Rest.Params.{starts_with, validate_request}

-- http.Request, as far as the client sets it.
pub record HttpRequest : Type 0 where
  pub method : Text
  pub url : Text
  pub query : List (Text × Text)
  pub headers : List (Text × Text)
  pub cookies : List (Text × Text)
  pub body : Text

-- http.Response; a body that cannot be read is `none`.
pub record HttpResponse : Type 0 where
  pub status_code : ℕ
  pub headers : Headers
  pub body : Option Text

-- The libraries, and the peer.
pub record Http : Type 0 where
  -- url.PathEscape and url.QueryEscape
  pub path_escape : Text → Text
  pub query_escape : Text → Text
  -- url.Parse of a base, path.Join of a path below it, and url.Parse of the result
  pub join_url : Text → Text → Option Text
  -- the canonical form of a header's name
  pub canonical_key : Text → Text
  -- strconv.Atoi; a negative number is no status code and is read as one that is not valid, 0
  pub atoi : Text → Option ℕ
  -- json.Marshal
  pub marshal : Value → Option Text
  -- `handleResponse`: json.Unmarshal, yaml.Marshal and yaml.Unmarshal
  pub decode : Text → Option Value
  -- SetAuth
  pub set_auth : HttpRequest → HttpRequest
  -- http.Client.Do, on what was sent before
  pub exchange : List HttpRequest → HttpRequest → Result HttpResponse

-- `strings.Replace` of the first occurrence.
unfoldable pub replace_first : Text → Text → Text → Text
replace_first old new [] = []
replace_first old new (c ∷ s) =
    let rest = replace_first old new s in
    if starts_with old (c ∷ s) then new ++ drop (length old) (c ∷ s) else c ∷ rest

abbrev pub placeholder : Text → Text
placeholder name = b'{' ∷ (name ++ b'}' ∷ [])

-- The path with its parameters, in the order of `range`.
unfoldable pub substitute : Http → List (Text × Text) → Text → Text
substitute h [] path = path
substitute h ((k, v) ∷ ps) path =
    substitute h ps (replace_first (placeholder k) (h.path_escape v) path)

unfoldable pub escaped : Http → List (Text × Text) → List (Text × Text)
escaped h [] = []
escaped h ((k, v) ∷ q) = (k, h.query_escape v) ∷ escaped h q

-- `buildPath`, less the encoding of the query, which is kept as it is handed to url.Values.
unfoldable pub build_path :
    Http
    → Text
    → Text
    → List (Text × Text)
    → List (Text × Text)
    → Option (Text × List (Text × Text))
build_path h base path parameters query = elim (h.join_url base (substitute h parameters path)) [
  | none ↦ none
  | some url ↦ some (url, escaped h query)
]

-- `getValidResponseCode`
unfoldable pub valid_response_codes : Http → List Text → Result (List ℕ)
valid_response_codes h [] = ok []
valid_response_codes h (c ∷ cs) = elim (h.atoi c) [
  | none ↦ err Error.bad_code
  | some n ↦
      (valid_response_codes h cs >>= λ rest. ok (if leb 200 n && ltb n 300 then n ∷ rest else rest))
]

-- `HasValidStatusCode`
unfoldable pub has_code : ℕ → List ℕ → Bool
has_code n codes = any (λ c. n == c) codes

-- The body that is sent, with its header.
unfoldable pub payload : Http → Value → Result (Text × List (Text × Text))
payload h null = ok ([], [])
payload h (obj end) = ok ([], [])
payload h (obj (field k v fs)) = elim (h.marshal (obj (field k v fs))) [
  | none ↦ err Error.bad_marshal
  | some s ↦ ok (s, (h.canonical_key (codes "Content-Type"), codes "application/json") ∷ [])
]
payload h v = err Error.bad_body

unfoldable pub set_headers : Http → List (Text × Text) → List (Text × Text) → List (Text × Text)
set_headers h [] m = m
set_headers h ((k, v) ∷ hs) m = set_headers h hs (insert (h.canonical_key k) v m)

-- The server of an operation: its first own one, else that of the document.
abbrev pub server_of : Text → Operation → Text
server_of base op = elim op.servers [ [] ↦ base | (s ∷ rest) ↦ s ]

abbrev pub or_no_uri {ℓ} : {A : Type ℓ} → Option A → Result A
or_no_uri none = err Error.no_uri
or_no_uri (some a) = ok a

-- The request that Call and CallForPagination build, with the operation it is for.
unfoldable pub build_request :
    Http → Document → Text → Text → RequestConfiguration → Result (Operation × HttpRequest)
build_request h doc base path opts = do
  first ← or_no_uri (build_path h base path opts.parameters opts.query)
  op ← find_operation doc opts.method path
  uri ← or_no_uri (build_path h (server_of base op) path opts.parameters opts.query)
  valid ← validate_request doc opts.method path opts
  sent ← payload h opts.body
  ok (
    op,
    record {
      method = opts.method;
      url = uri.0;
      query = uri.1;
      headers = set_headers h opts.headers sent.1;
      cookies = opts.cookies;
      body = sent.0;
    },
  )

-- The codes whose body may be empty.
abbrev pub may_be_empty : List ℕ
may_be_empty = 200 ∷ 201 ∷ 202 ∷ 203 ∷ 204 ∷ 205 ∷ 304 ∷ []

abbrev pub if_allowed : Response → Bool → Result Response
if_allowed r true = ok r
if_allowed r false = err Error.body_required

abbrev pub if_decoded : ℕ → Headers → Option Value → Result Response
if_decoded n headers none = err Error.undecodable_body
if_decoded n headers (some v) = ok (record { body = v; headers = headers; status_code = n })

unfoldable pub read_text : Http → ℕ → Headers → Text → Result Response
read_text h n headers [] =
    if_allowed (record { body = null; headers = headers; status_code = n })
      (has_code n may_be_empty)
read_text h n headers (c ∷ s) = if_decoded n headers (h.decode (c ∷ s))

unfoldable pub read_body : Http → ℕ → Headers → Option Text → Result Response
read_body h n headers none = err Error.unreadable_body
read_body h n headers (some s) = read_text h n headers s

-- An answer whose status the document or the verb lists as a success, and the error of another.
unfoldable pub read_answer :
    Http → Operation → RequestConfiguration → HttpResponse → Headers → Result Response
read_answer h op opts resp headers = valid_response_codes h op.response_codes >>= λ valid.
    if has_code resp.status_code (valid ++ opts.success_codes)
    then read_body h resp.status_code headers resp.body
    else err (Error.status resp.status_code)

-- What Call makes of an answer.
unfoldable pub judge_answer :
    Http → Operation → RequestConfiguration → HttpResponse → Result Response
judge_answer h op opts resp =
    if has_code resp.status_code opts.not_found_codes
    then err (Error.status 404)
    else if has_code resp.status_code opts.tolerate_codes
    then ok (record { body = null; headers = resp.headers; status_code = resp.status_code })
    else read_answer h op opts resp resp.headers

-- `Call`, on what was sent before.
unfoldable pub call_api :
    Http → Document → Text → List HttpRequest → Text → RequestConfiguration → Result Response
call_api h doc base sent path opts = do
  built ← build_request h doc base path opts
  resp ← h.exchange sent (h.set_auth built.1)
  judge_answer h built.0 opts resp
