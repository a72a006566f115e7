-- ===== src/Externals.antt =====
-- What the code calls and does not implement: gojq (through internal/tools/jqengine), the path
-- splitter, apimachinery's nested field functions, and Go's formatting of floats and containers.
-- Formatting of the other scalars is defined here.
use krateo_rest_dynamic_cont.Base.{
  ℕ, zero, suc, ◌+◌, ◌/◌, ◌%◌, Bool, true, false, List, [], ◌∷◌, ◌++◌, Option, ltb, if◌then◌else◌,
  Text, codes, ℤ, pos, negsuc, Result,
}
use krateo_rest_dynamic_cont.Value.{Value, null, bool, str, int, float, Fields}

-- What a json.Decoder makes of a text: an error, a value with more text behind it, a json.Number
-- by its literal, or another value.
pub data Decoded : Type 0 where
  malformed trailing : Decoded
  number : Text → Decoded
  other : Value → Decoded

pub record Externals : Type 0 where
  -- splitter.Split; `none` is its error
  pub split : Text → Option (List Text)
  -- unstructured.NestedFieldNoCopy; `ok none` is found=false
  pub nested_field : Fields → List Text → Result (Option Value)
  -- unstructured.NestedMap
  pub nested_map : Fields → List Text → Result (Option Fields)
  -- unstructuredtools.GetFieldsFromUnstructured
  pub get_fields : Fields → Text → Result Fields
  -- unstructured.SetNestedField
  pub set_field : Fields → Value → List Text → Result Fields
  -- unstructured.RemoveNestedField
  pub remove_field : Fields → List Text → Fields
  -- jqengine.Compile followed by Run
  pub run_jq : Text → Value → Result Value
  -- jqengine.Canonical
  pub canonical : Value → Result Value
  -- json.Unmarshal into an interface{}
  pub unmarshal : Text → Result Value
  -- int64(t), where t == math.Trunc(t) and t is not infinite
  pub whole : ℕ → Option ℤ
  -- int64(x), where x lies between MinInt64 and MaxInt64
  pub truncate : ℕ → Option ℤ
  -- strconv.FormatFloat(t, 'f', -1, 64)
  pub format_float : ℕ → Text
  -- fmt's "%v" of a float64, of a map or slice
  pub sprint_float : ℕ → Text
  pub sprint_composite : Value → Text
  -- json.Decoder with UseNumber, at a trimmed non-empty text
  pub decode_json : Text → Decoded
  -- strconv.ParseFloat(s, 64)
  pub parse_float : Text → Option ℕ
  -- int64(f), where f == math.Trunc(f) and f lies between MinInt64 and MaxInt64
  pub whole_int64 : ℕ → Option ℤ
  -- cmp.Equal of two float64, and of two decoded values
  pub float_equal : ℕ → ℕ → Bool
  pub value_equal : Value → Value → Bool

-- The decimal digits of a number; as much fuel as the number is enough.
unfoldable pub format_nat : ℕ → ℕ → Text
format_nat zero n = (b'0' + n % 10) ∷ []
format_nat (suc fuel) n =
    let front = format_nat fuel (n / 10) in
    if ltb n 10 then (b'0' + n) ∷ [] else front ++ (b'0' + n % 10) ∷ []

-- strconv.FormatInt(n, 10) and strconv.Itoa
unfoldable pub format_int : ℤ → Text
unfolding format_nat
format_int (pos n) = format_nat n n
format_int (negsuc n) = b'-' ∷ format_nat (suc n) (suc n)

abbrev pub format_bool : Bool → Text
format_bool true = codes "true"
format_bool false = codes "false"

-- fmt.Sprintf("%v", v)
unfoldable pub sprint : Externals → Value → Text
sprint x null = codes "<nil>"
sprint x (bool b) = format_bool b
sprint x (str s) = s
sprint x (int n) = format_int n
sprint x (float n) = x.sprint_float n
sprint x v = x.sprint_composite v
