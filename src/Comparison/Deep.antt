-- ===== src/Comparison/Deep.antt =====
-- DeepEqual of internal/tools/comparison/comparison.go with its normalization, which a findby
-- search compares identifiers with.
use krateo_rest_dynamic_cont.Base.{Text, Bool, true, false, ◌||◌, Option, none, some, if◌then◌else◌}
use krateo_rest_dynamic_cont.Value.{Value, null, obj, arr, Items, nil, cons, Fields, end, field}
use krateo_rest_dynamic_cont.Externals.{Externals}
use krateo_rest_dynamic_cont.Comparison.{compare_any}

-- An object or array that is left empty is dropped.
abbrev object_unless_empty : Fields → Option Value
object_unless_empty end = none
object_unless_empty fs = some (obj fs)

abbrev array_unless_empty : Items → Option Value
array_unless_empty nil = none
array_unless_empty xs = some (arr xs)

abbrev add_field : Text → Option Value → Fields → Fields
add_field k none fs = fs
add_field k (some v) fs = field k v fs

abbrev add_item : Option Value → Items → Items
add_item none xs = xs
add_item (some v) xs = cons v xs

unfoldable mutual
  -- `normalizeMap`
  pub normalize_map : Fields → Fields
  normalize_map end = end
  normalize_map (field k v fs) = add_field k (normalize_entry v) (normalize_map fs)

  -- A value in a map.
  pub normalize_entry : Value → Option Value
  normalize_entry null = none
  normalize_entry (obj fs) = object_unless_empty (normalize_map fs)
  normalize_entry (arr xs) = array_unless_empty (normalize_slice xs)
  normalize_entry v = some v

  -- `normalizeSlice`; an array in an array stays as it is.
  pub normalize_slice : Items → Items
  normalize_slice nil = nil
  normalize_slice (cons v xs) = add_item (normalize_item v) (normalize_slice xs)

  pub normalize_item : Value → Option Value
  normalize_item null = none
  normalize_item (obj fs) = object_unless_empty (normalize_map fs)
  normalize_item v = some v

-- `normalizeAny`
unfoldable pub normalize_any : Value → Value
normalize_any (obj fs) = obj (normalize_map fs)
normalize_any (arr xs) = arr (normalize_slice xs)
normalize_any v = v

abbrev is_composite : Value → Bool
is_composite (obj fs) = true
is_composite (arr xs) = true
is_composite _ = false

-- `DeepEqual`; scalars are compared as by `CompareAny`.
unfoldable pub deep_equal : Externals → Value → Value → Bool
deep_equal x null null = true
deep_equal x null b = false
deep_equal x a null = false
deep_equal x a b =
    if is_composite a || is_composite b
    then x.value_equal (normalize_any a) (normalize_any b)
    else compare_any x a b
