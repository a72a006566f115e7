-- ===== src/Search.antt =====
-- The search of a findby call in internal/tools/client: ExtractItemsFromResponse, findItemInList and
-- isItemMatch of restclient.go, isInResource of clienttools.go.
pub mod Matches
use krateo_rest_dynamic_cont.Base.{
  Bool, true, false, List, [], ◌∷◌, Option, none, some, if◌then◌else◌, Text, codes, text_eq,
  to_lower, Error, Result, ok, err, ◌>>=◌,
}
use krateo_rest_dynamic_cont.Value.{Value, null, obj, arr, Items, Fields, end, elems, entries}
use krateo_rest_dynamic_cont.Externals.{Externals}
use krateo_rest_dynamic_cont.Path.Parse.{parse_path}
use krateo_rest_dynamic_cont.Comparison.Deep.{deep_equal}

-- What the client searches with: the fields of `UnstructuredClient` that it reads.
pub record Searcher : Type 0 where
  pub resource : Fields
  pub identifier_fields : List Text
  pub identifiers_match_policy : Text

-- The first array among the values of an object, in the order of `range`.
unfoldable pub first_list : List (Text × Value) → Option (List Value)
first_list [] = none
first_list ((k, arr xs) ∷ m) = some (elems xs)
first_list ((k, v) ∷ m) = first_list m

-- `ExtractItemsFromResponse`
unfoldable pub extract_items : Value → Result (List Value)
extract_items (arr xs) = ok (elems xs)
extract_items null = err Error.bad_response
extract_items (obj end) = ok []
extract_items (obj fs) = elim (first_list (entries fs)) [
  | none ↦ ok (obj fs ∷ [])
  | some items ↦ ok items
]
extract_items v = err Error.bad_response

abbrev matches : Externals → Value → Option Value → Bool
matches x v none = false
matches x v (some local) = deep_equal x local v

-- `isInResource`: a match in spec, else in status.
unfoldable pub is_in_resource : Externals → Fields → Value → List Text → Result Bool
is_in_resource x mg v segs = x.nested_field mg (codes "spec" ∷ segs) >>= λ in_spec.
    if matches x v in_spec
    then ok true
    else (x.nested_field mg (codes "status" ∷ segs) >>= λ in_status. ok (matches x v in_status))

-- What an identifier says of an item: its path cannot be read, the item lacks it, or the two are
-- compared.
pub data Check : Type 0 where
  skipped missing : Check
  compared : Result Bool → Check

unfoldable pub check_at : Externals → Fields → Fields → Result (List Text) → Check
check_at x mg item (err e) = skipped
check_at x mg item (ok []) = skipped
check_at x mg item (ok (seg ∷ segs)) = elim (x.nested_field item (seg ∷ segs)) [
  | err e ↦ missing
  | ok none ↦ missing
  | ok (some v) ↦ compared (is_in_resource x mg v (seg ∷ segs))
]

abbrev pub check : Externals → Searcher → Fields → Text → Check
check x u item id = check_at x u.resource item (parse_path x.split id)

-- One step of the loop for the policy "and", and of that for "or".
abbrev pub and_step : Check → Result Bool → Result Bool
and_step skipped rest = rest
and_step missing rest = ok false
and_step (compared (err e)) rest = err e
and_step (compared (ok false)) rest = ok false
and_step (compared (ok true)) rest = rest

abbrev pub or_step : Check → Result Bool → Result Bool
or_step skipped rest = rest
or_step missing rest = rest
or_step (compared (err e)) rest = err e
or_step (compared (ok true)) rest = ok true
or_step (compared (ok false)) rest = rest

unfoldable pub match_all : Externals → Searcher → Fields → List Text → Result Bool
match_all x u item [] = ok true
match_all x u item (id ∷ ids) = and_step (check x u item id) (match_all x u item ids)

unfoldable pub match_any : Externals → Searcher → Fields → List Text → Result Bool
match_any x u item [] = ok false
match_any x u item (id ∷ ids) = or_step (check x u item id) (match_any x u item ids)

abbrev pub match_ids : Externals → Searcher → Fields → List Text → Result Bool
match_ids x u item [] = ok false
match_ids x u item (id ∷ ids) =
    if text_eq (to_lower u.identifiers_match_policy) (codes "and")
    then match_all x u item (id ∷ ids)
    else match_any x u item (id ∷ ids)

-- `isItemMatch`; a policy other than "and" counts as "or".
unfoldable pub is_item_match : Externals → Searcher → Fields → Result Bool
is_item_match x u item = match_ids x u item u.identifier_fields

abbrev pub is_hit : Result Bool → Bool
is_hit (ok b) = b
is_hit (err e) = false

-- Whether an element of the list is an object that matches.
abbrev pub matching : Externals → Searcher → Value → Bool
matching x u (obj fs) = is_hit (is_item_match x u fs)
matching x u v = false

abbrev pub object_of : Value → Option Fields
object_of (obj fs) = some fs
object_of v = none

-- `findItemInList`; an element that is no object, or that cannot be compared, is passed over.
unfoldable pub find_item : Externals → Searcher → List Value → Option Fields
find_item x u [] = none
find_item x u (v ∷ vs) = let rest = find_item x u vs in if matching x u v then object_of v else rest
