-- ===== src/Async.antt =====
-- internal/tools/async/async.go: the handle of an operation, the reading of its status, and the
-- blocking poll.
pub mod Budget
pub mod Polling
pub mod Handles
use krateo_rest_dynamic_cont.Base.{
  ℕ, zero, suc, ◌+◌, ◌*◌, ◌^◌, Bool, true, false, not, ◌&&◌, List, [], ◌∷◌, Option, none, some, ltb,
  leb, ◌==◌, if◌then◌else◌, any, Text, codes, text_eq, to_lower, equal_fold, is_empty, ℤ, pos,
  negsuc, mul64, is_nonpos, magnitude, Error, Result, ok, err, ◌>>=◌,
}
use krateo_rest_dynamic_cont.Value.{Value, null, bool, str, int, float, obj, arr, Fields}
use krateo_rest_dynamic_cont.Definition.{JqProgram, OperationRef, PollConfig}
use krateo_rest_dynamic_cont.Externals.{Externals, format_int, format_bool, sprint}
use krateo_rest_dynamic_cont.Path.Parse.{parse_path}

-- Durations are in nanoseconds, as in package time.
abbrev pub second : ℕ
second = 1_000_000_000

abbrev pub default_interval : ℕ
default_interval = second

abbrev pub default_max_attempts : ℕ
default_max_attempts = 10

abbrev pub max_interval : ℕ
max_interval = 60 * second

abbrev pub max_attempts_cap : ℕ
max_attempts_cap = 120

abbrev pub max_total_timeout : ℕ
max_total_timeout = 1800 * second

abbrev pub request_timeout : ℕ
request_timeout = 30 * second

-- The headers of a response; a nil http.Header is `none`.
abbrev pub Headers : Type 0
Headers = Option (List (Text × Text))

-- `headers.Get(name)`, whose keys are compared without regard to case; "" for a missing header.
unfoldable pub header_get : Text → List (Text × Text) → Text
header_get name [] = []
header_get name ((k, v) ∷ hs) = if equal_fold k name then v else header_get name hs

-- `scalarToString`
unfoldable pub scalar_to_string : Externals → Value → Result Text
scalar_to_string x null = err Error.null_handle
scalar_to_string x (str s) = if is_empty s then err Error.empty_handle else ok s
scalar_to_string x (float n) = elim (x.whole n) [
  | some i ↦ ok (format_int i)
  | none ↦ ok (x.format_float n)
]
scalar_to_string x (int n) = ok (format_int n)
scalar_to_string x (bool b) = ok (format_bool b)
scalar_to_string x _ = err Error.not_a_scalar

-- `RenderScalar`
unfoldable pub render_scalar : Externals → Value → Text
render_scalar x (str s) = s
render_scalar x (float n) = elim (x.whole n) [ some i ↦ format_int i | none ↦ x.format_float n ]
render_scalar x (int n) = format_int n
render_scalar x (bool b) = format_bool b
render_scalar x v = sprint x v

-- The value at a path of the trigger's body; a nil body has none.
unfoldable pub handle_in_body : Externals → Option Fields → Text → Result Value
handle_in_body x body path = elim (parse_path x.split path) [
  | err e ↦ err Error.bad_operation_path
  | ok [] ↦ err Error.bad_operation_path
  | ok (seg ∷ segs) ↦ elim body [
    | none ↦ err Error.no_handle
    | some fs ↦ elim (x.nested_field fs (seg ∷ segs)) [
      | err e ↦ err Error.no_handle
      | ok none ↦ err Error.no_handle
      | ok (some v) ↦ ok v
    ]
  ]
]

unfoldable pub handle_in_header : Headers → Text → Result Value
handle_in_header none name = err Error.no_headers
handle_in_header (some hs) name =
    if is_empty (header_get name hs) then err Error.no_header else ok (str (header_get name hs))

-- The optional inline jq program refines the raw value.
unfoldable pub refine : Externals → Option JqProgram → Value → Result Value
refine x none v = ok v
refine x (some p) v = if is_empty p.inline then ok v else x.run_jq p.inline v

-- The raw value, by `operationRef.in`.
unfoldable pub raw_handle : Externals → Option Fields → Headers → OperationRef → Result Value
raw_handle x body headers op =
    if text_eq (to_lower op.place) (codes "body")
    then handle_in_body x body op.path
    else if text_eq (to_lower op.place) (codes "header")
    then handle_in_header headers op.path
    else err Error.bad_operation_in

-- `ExtractOperationHandle`
unfoldable pub extract_operation_handle :
    Externals → Option Fields → Headers → OperationRef → Result Text
extract_operation_handle x body headers op = do
  raw ← raw_handle x body headers op
  v ← refine x op.jq raw
  scalar_to_string x v

pub data PollOutcome : Type 0 where
  pending succeeded failed : PollOutcome

-- `containsFold`
unfoldable pub contains_fold : List Text → Text → Bool
contains_fold [] s = false
contains_fold (v ∷ vs) s = let rest = contains_fold vs s in if equal_fold v s then true else rest

-- `ClassifyStatus`
unfoldable pub classify_status : PollConfig → Text → PollOutcome
classify_status cfg status =
    if contains_fold cfg.success_values status
    then succeeded
    else if contains_fold cfg.failure_values status
    then failed
    else pending

abbrev pub clamp : ℕ → ℕ → ℕ
clamp most n = if ltb most n then most else n

-- The pause between attempts, the attempts and the deadline that PollUntilTerminal works with.
unfoldable pub poll_interval : PollConfig → ℕ
poll_interval cfg =
    let interval = mul64 cfg.interval_seconds second in
    clamp max_interval (if is_nonpos interval then default_interval else magnitude interval)

unfoldable pub poll_attempts : PollConfig → ℕ
poll_attempts cfg =
    clamp max_attempts_cap
      (if is_nonpos cfg.max_attempts then default_max_attempts else magnitude cfg.max_attempts)

-- The product for an unset timeout stays far below 2^63.
unfoldable pub poll_timeout : PollConfig → ℕ
poll_timeout cfg =
    let total = mul64 cfg.timeout_seconds second in
    clamp max_total_timeout (
      if is_nonpos total
      then poll_attempts cfg * (poll_interval cfg + request_timeout) + poll_interval cfg
      else magnitude total)

-- What the loop meets at attempt number i: whether the context is done when it starts, what the
-- poll returns, and whether the context is done before the pause ends.
pub record Polls : Type 0 where
  pub expired : ℕ → Bool
  pub observe : ℕ → Result Text
  pub interrupted : ℕ → Bool

-- The loop of `PollUntilTerminal` from attempt `i` on with `left` attempts left, and the number of
-- polls that it makes.
unfoldable pub poll_from : PollConfig → Polls → ℕ → ℕ → Result (Unit {0}) × ℕ
poll_from cfg w zero i = (err Error.attempts_exhausted, 0)
poll_from cfg w (suc left) i =
    let rest = poll_from cfg w left (suc i) in
    let next =
      if leb left 0 then rest else if w.interrupted i then (err Error.cancelled, 0) else rest in
    if w.expired i then (err Error.cancelled, 0) else elim (w.observe i) [
      | err e ↦ (err e, 1)
      | ok status ↦ elim (classify_status cfg status) [
        | succeeded ↦ (ok tt, 1)
        | failed ↦ (err Error.terminal_failure, 1)
        | pending ↦ (next.0, suc next.1)
      ]
    ]

-- `PollUntilTerminal`
unfoldable pub poll_until_terminal : PollConfig → Polls → Result (Unit {0}) × ℕ
poll_until_terminal cfg w = poll_from cfg w (poll_attempts cfg) 0
