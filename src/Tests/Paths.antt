-- ===== src/Tests/Paths.antt =====
-- Concrete paths and objects for internal/tools/pathparsing.
use krateo_rest_dynamic_cont.Base.{
  arith, ◌⊎◌, ◌≡◌, refl, List, [], ◌∷◌, map, some, Text, codes, text_eq, lookup, insert,
  contains_byte, All, Error, ok, err, pos,
}
use krateo_rest_dynamic_cont.Value.{Value, null, str, int, obj, Fields, end, field, entries}
use krateo_rest_dynamic_cont.Externals.{sprint}
use krateo_rest_dynamic_cont.Path.Parse.{parse_path, parse_segment_group, parser}
use krateo_rest_dynamic_cont.Path.Segments.{Piece, name, index, write, segment}
use krateo_rest_dynamic_cont.Path.RoundTrip.{join, parse_path-join}
use krateo_rest_dynamic_cont.Path.Outcomes.{NonEmpty, parse_path-NonEmpty, parse_path-rejects}
use krateo_rest_dynamic_cont.Path.Nested.{
  get_nested, get_step, set_nested, set_nested_field, remove_nested_field, match_predicate,
}
use krateo_rest_dynamic_cont.Path.Nested.Predicates.{Describes, match_predicate-Describes}
use krateo_rest_dynamic_cont.Path.Nested.Writes.{
  get_nested-set_nested_field, lookup-set_nested_field,
}
use krateo_rest_dynamic_cont.Path.Nested.Removes.{remove_nested_field_absent}
use krateo_rest_dynamic_cont.Tests.{sample, split_at_dots}

t_bracket : parse_segment_group (codes "a['b.c']") ≡ ok (codes "a" ∷ codes "b.c" ∷ [])
unfolding parser
t_bracket = refl

t_index :
    parse_segment_group (codes "..credentials[0]") ≡ ok (codes "..credentials" ∷ codes "0" ∷ [])
unfolding parser
t_index = refl

t_predicate : parse_segment_group (codes "[?type=pw]") ≡ ok (codes "?type=pw" ∷ [])
unfolding parser
t_predicate = refl

abbrev first_user : List Piece
first_user = index (codes "0") ∷ name (codes "id") ∷ []

parse_path-join_example :
    parse_path sample.split (join (map write (name (codes "users") ∷ first_user)))
    ≡ ok (map segment (name (codes "users") ∷ first_user))
unfolding split_at_dots parser
parse_path-join_example =
    parse_path-join sample.split (name (codes "users")) first_user
      (((λ e. cc), refl), ((refl, refl), (((λ e. cc), refl), tt))) refl

parse_path-NonEmpty_example : All NonEmpty (codes "users" ∷ codes "id" ∷ [])
unfolding split_at_dots parser
parse_path-NonEmpty_example =
    parse_path-NonEmpty sample.split (codes "users.id") (codes "users" ∷ codes "id" ∷ []) (λ e. cc)
      refl

parse_path-rejects_example :
    (parse_path sample.split (codes "a b") ≡ err Error.has_spaces)
    × ((parse_path sample.split (codes "ad..b") ≡ err Error.has_spaces)
        ⊎ (parse_path sample.split (codes "ad..b") ≡ err Error.consecutive_dots))
    × ((parse_path sample.split (codes "a.") ≡ err Error.has_spaces)
        ⊎ ((parse_path sample.split (codes "a.") ≡ err Error.consecutive_dots)
            ⊎ (parse_path sample.split (codes "a.") ≡ err Error.trailing_dot)))
unfolding contains_byte
parse_path-rejects_example =
    parse_path-rejects sample.split (codes "a") (codes "b") b'd' refl
      (λ e. omega arith, λ e. omega arith, λ e. omega arith)

abbrev account : Fields
account = field (codes "id") (int (pos 7)) (field (codes "users") (str (codes "none")) end)

abbrev users_0_id : List Text
users_0_id = codes "0" ∷ codes "id" ∷ []

get_nested-set_nested_field_example :
    (c : Value) × (set_nested_field
        (sprint sample)
        account
        (str (codes "x"))
        (codes "users" ∷ users_0_id)
      ≡ ok c)
    × (get_nested (sprint sample) c (codes "users" ∷ users_0_id) ≡ ok (some (str (codes "x"))))
unfolding parser
get_nested-set_nested_field_example =
    get_nested-set_nested_field (sprint sample) account (str (codes "x")) (codes "users") users_0_id
      (refl, (refl, (refl, tt)))

lookup-set_nested_field_example :
    (gs : Fields) × (obj (field (codes "id") (int (pos 7)) (field (codes "users") null end))
      ≡ obj gs)
    × (lookup (codes "id") (entries gs) ≡ lookup (codes "id") (entries account))
unfolding set_nested_field text_eq set_nested insert
lookup-set_nested_field_example =
    lookup-set_nested_field (sprint sample) account null
      (obj (field (codes "id") (int (pos 7)) (field (codes "users") null end))) (codes "users") []
      (codes "id") refl refl

abbrev credential : Text → Value
credential kind = obj (field (codes "type") (str kind) end)

match_predicate-Describes_example :
    Describes
      (sprint sample)
      (codes "type")
      (codes "pw")
      (credential (codes "pw") ∷ credential (codes "key") ∷ [])
      (match_predicate
        (sprint sample)
        (credential (codes "pw") ∷ credential (codes "key") ∷ [])
        (codes "type")
        (codes "pw"))
match_predicate-Describes_example =
    match_predicate-Describes (sprint sample) (codes "type") (codes "pw")
      (credential (codes "pw") ∷ credential (codes "key") ∷ [])

remove_nested_field_absent_example :
    remove_nested_field (sprint sample) account (codes "users" ∷ users_0_id) ≡ obj account
unfolding get_nested get_step lookup text_eq
remove_nested_field_absent_example =
    remove_nested_field_absent (sprint sample) account (codes "users" ∷ users_0_id) refl
