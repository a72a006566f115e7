-- ===== src/Tests.antt =====
-- Concrete inputs: stand-ins for the code that the program calls, and a configuration.
mod Paths
mod Operations
mod Bodies
mod Handling
mod Requeueing
mod Searching
mod Observations
mod Pages
mod Changing
mod Resting
mod Granting
mod Caching
use krateo_rest_dynamic_cont.Base.{
  ℕ, zero, Bool, true, false, List, [], ◌∷◌, Option, none, some, ◌==◌, if◌then◌else◌, Text, codes,
  text_eq, lookup, ℤ, pos, Error, Result, ok, err,
}
use krateo_rest_dynamic_cont.Value.{
  Value, null, bool, str, int, float, obj, arr, Fields, end, entries,
}
use krateo_rest_dynamic_cont.Definition
use krateo_rest_dynamic_cont.Externals.{Externals, malformed}

-- Cut a text at its dots.
abbrev pub cons_first : ℕ → List Text → List Text
cons_first c [] = (c ∷ []) ∷ []
cons_first c (w ∷ ws) = (c ∷ w) ∷ ws

unfoldable pub split_at_dots : Text → List Text
split_at_dots [] = [] ∷ []
split_at_dots (c ∷ s) =
    let rest = split_at_dots s in if c == b'.' then [] ∷ rest else cons_first c rest

unfoldable pub read_one : Fields → List Text → Result (Option Value)
read_one fs (k ∷ []) = ok (lookup k (entries fs))
read_one fs _ = ok none

abbrev as_fields : Option Value → Result Fields
as_fields (some (obj fs)) = ok fs
as_fields _ = err Error.path_not_found

abbrev pub sample : Externals
sample = record {
  split = λ s. some (split_at_dots s);
  nested_field = read_one;
  nested_map = λ fs path. ok none;
  get_fields = λ fs k. as_fields (lookup k (entries fs));
  set_field = λ fs v path. ok fs;
  remove_field = λ fs path. fs;
  run_jq = λ p v. ok v;
  canonical = λ v. ok v;
  unmarshal = λ s. ok (str s);
  whole = λ n. none;
  truncate = λ n. none;
  format_float = λ n. codes "0.5";
  sprint_float = λ n. codes "0.5";
  sprint_composite = λ v. codes "map[]";
  decode_json = λ s. malformed;
  parse_float = λ s. none;
  whole_int64 = λ n. none;
  float_equal = λ m n. m == n;
  value_equal = λ v w. false;
}

abbrev pub by_header : Definition.OperationRef
by_header = record { place = codes "header"; path = codes "operation-id"; jq = none }

abbrev pub polling : Definition.PollConfig
polling = record {
  method = [];
  path = codes "/monitor/{id}";
  handle_param = codes "id";
  status_path = codes "status";
  success_values = codes "done" ∷ [];
  failure_values = codes "failed" ∷ [];
  interval_seconds = pos 1;
  max_attempts = pos 3;
  timeout_seconds = pos 0;
}
