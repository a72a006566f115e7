-- ===== src/Tests/Searching.antt =====
-- A list of two users, and the search for one of them.
use krateo_rest_dynamic_cont.Base.{
  ◌≡◌, ◌≢◌, ◌↔◌, refl, true, List, [], ◌∷◌, Text, codes, to_lower, text_eq, All, ok,
}
use krateo_rest_dynamic_cont.Value.{Value, str, obj, Fields, end, field}
use krateo_rest_dynamic_cont.Search.{Searcher, find_item, is_item_match}
use krateo_rest_dynamic_cont.Search.Matches.{
  Finds, Agreeing, find_item-Finds, is_item_match_and_iff,
}
use krateo_rest_dynamic_cont.Tests.{sample}

abbrev pub user : Text → Fields
user name = field (codes "name") (str name) end

abbrev pub by_name : Searcher
by_name = record {
  resource = field (codes "spec") (obj (user (codes "ann"))) end;
  identifier_fields = codes "name" ∷ [];
  identifiers_match_policy = codes "AND";
}

abbrev listed : List Value
listed = obj (user (codes "bob")) ∷ obj (user (codes "ann")) ∷ []

find_item-Finds_example : Finds sample by_name listed (find_item sample by_name listed)
find_item-Finds_example = find_item-Finds sample by_name listed

is_item_match_and_iff_example : (is_item_match sample by_name (user (codes "ann")) ≡ ok true) ↔ (
    (by_name.identifier_fields ≢ [])
    × All (Agreeing sample by_name (user (codes "ann"))) by_name.identifier_fields)
unfolding to_lower text_eq
is_item_match_and_iff_example = is_item_match_and_iff sample by_name (user (codes "ann")) refl
