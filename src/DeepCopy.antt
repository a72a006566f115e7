-- ===== src/DeepCopy.antt =====
-- internal/tools/deepcopy/deepcopy.go. A float64 within the range of an int64 becomes that integer,
-- its fraction cut off, and any other float64 its text.
pub mod Copies
use krateo_rest_dynamic_cont.Base.{ℕ, none, some}
use krateo_rest_dynamic_cont.Value.{
  Value, null, bool, str, int, float, obj, arr, Items, nil, cons, Fields, end, field,
}
use krateo_rest_dynamic_cont.Externals.{Externals}

abbrev pub copy_float : Externals → ℕ → Value
copy_float x n = elim (x.truncate n) [ some i ↦ int i | none ↦ str (x.sprint_float n) ]

module _ (x : Externals) where
  unfoldable mutual
    -- `DeepCopyJSONValue`
    pub deep_copy : Value → Value
    deep_copy null = null
    deep_copy (bool b) = bool b
    deep_copy (str s) = str s
    deep_copy (int n) = int n
    deep_copy (float n) = copy_float x n
    deep_copy (arr vs) = arr (deep_copy_items vs)
    deep_copy (obj fs) = obj (deep_copy_fields fs)

    pub deep_copy_items : Items → Items
    deep_copy_items nil = nil
    deep_copy_items (cons v vs) = cons (deep_copy v) (deep_copy_items vs)

    pub deep_copy_fields : Fields → Fields
    deep_copy_fields end = end
    deep_copy_fields (field k v fs) = field k (deep_copy v) (deep_copy_fields fs)
