-- ===== src/Path/Parse.antt =====
-- pathparsing.go. The splitter of github.com/go-andiamo/splitter, which cuts at dots outside
-- brackets and quotes, is the parameter `split` (`none` is its error).
use krateo_rest_dynamic_cont.Base.{
  ℕ, zero, suc, ◌-◌, Bool, true, false, not, ◌&&◌, ◌||◌, List, [], ◌∷◌, ◌++◌, Option, none, some,
  ltb, leb, ◌==◌, if◌then◌else◌, length, Text, codes, is_empty, index_byte, contains_byte,
  contains_any, cut, last_byte, init, replicate, all, take, drop, Error, Result, ok, err, ◌>>=◌,
}

abbrev pub dot : ℕ
dot = b'.'

abbrev pub is_digit : ℕ → Bool
is_digit r = leb b'0' r && leb r b'9'

unfoldable pub is_digits : Text → Bool
is_digits [] = false
is_digits (c ∷ s) = is_digit c && all is_digit s

-- Whether byte `c` leaves the scan inside a bracket group.
abbrev pub in_bracket_after : ℕ → Bool → Bool
in_bracket_after c inside = if c == b'[' then true else if c == b']' then false else inside

abbrev pub starts_with_dot : Text → Bool
starts_with_dot [] = false
starts_with_dot (c ∷ s) = c == dot

-- The scan for ".." outside brackets and after the leading dots.
unfoldable pub has_consecutive_dots : Bool → Bool → Text → Bool
has_consecutive_dots inside ended [] = false
has_consecutive_dots inside ended (c ∷ s) =
    (c == dot && (not inside && (ended && starts_with_dot s)))
    || has_consecutive_dots (in_bracket_after c inside) (ended || not (c == b']' || c == dot)) s

-- The bracket state after a whole text.
unfoldable pub ends_in_bracket : Bool → Text → Bool
ends_in_bracket inside [] = inside
ends_in_bracket inside (c ∷ s) = ends_in_bracket (in_bracket_after c inside) s

abbrev pub is_byte : ℕ → Option ℕ → Bool
is_byte b none = false
is_byte b (some c) = c == b

unfoldable pub has_trailing_dot : Text → Bool
has_trailing_dot path = is_byte dot (last_byte path) && not (ends_in_bracket false (init path))

-- Empty parts are leading dots of the next part.
unfoldable pub merge_dots : ℕ → List Text → List Text
merge_dots n [] = []
merge_dots n ([] ∷ parts) = merge_dots (suc n) parts
merge_dots n ((c ∷ p) ∷ parts) = (replicate n dot ++ c ∷ p) ∷ merge_dots zero parts

abbrev pub is_quote : ℕ → Bool
is_quote q = q == b'\'' || q == b'"'

-- The quoted form, at the end of `parseBracketContent`.
unfoldable pub parse_quoted : Text → Result Text
parse_quoted [] = err Error.unquoted
parse_quoted (quote ∷ inner) =
    if not (is_quote quote)
    then err Error.unquoted
    else if not (is_byte quote (last_byte (quote ∷ inner)))
    then err Error.mismatched_quotes
    else if is_empty (init inner)
    then err Error.empty_bracket
    else ok (init inner)

-- `strings.Cut(inner[1:], "=")` finds "=" behind a non-empty key.
unfoldable pub parse_predicate : Text → Option (Text × Text)
parse_predicate [] = none
parse_predicate (c ∷ s) =
    if c == b'?'
    then elim (cut s b'=') [ none ↦ none | some (k, v) ↦ if is_empty k then none else some (k, v) ]
    else none

abbrev pub starts_with : ℕ → Text → Bool
starts_with b [] = false
starts_with b (c ∷ s) = c == b

abbrev pub leading_zero : Text → Bool
leading_zero [] = false
leading_zero (c ∷ s) = c == b'0'

-- What stands between the brackets.
unfoldable pub parse_inner : Text → Result Text
parse_inner inner =
    if is_empty inner
    then err Error.empty_bracket
    else if is_digits inner && (length inner == 1 || not (leading_zero inner))
    then ok inner
    else if starts_with b'?' inner
    then elim (parse_predicate inner) [ none ↦ err Error.bad_predicate | some _ ↦ ok inner ]
    else if ltb (length inner) 2
    then err Error.unquoted
    else parse_quoted inner

abbrev pub is_at : ℕ → Option ℕ → Bool
is_at i none = false
is_at i (some j) = j == i

unfoldable pub parse_bracket_content : Text → Result Text
parse_bracket_content rest =
    if ltb (length rest) 3
    then err Error.unquoted
    else if not (is_byte b']' (last_byte rest))
    then err Error.unclosed_bracket
    else if not (is_at (length rest - 1) (index_byte rest b']'))
    then err Error.adjacent_brackets
    else parse_inner (init (drop 1 rest))

unfoldable pub count_dots : Text → ℕ
count_dots [] = 0
count_dots (c ∷ s) = if c == dot then suc (count_dots s) else 0

-- The part of `parseSegmentGroup` that reads `rest`, the token `s` behind its `n` leading dots.
unfoldable pub parse_rest : Text → ℕ → Text → Option ℕ → Result (List Text)
parse_rest s n rest none =
    if contains_any rest (codes "[]'\"") then err Error.bad_characters else ok (s ∷ [])
parse_rest s n rest (some zero) =
    if ltb 0 n
    then err Error.dot_before_bracket
    else do seg ← parse_bracket_content rest; ok (seg ∷ [])
parse_rest s n rest (some (suc i)) =
    if contains_any (take (suc i) rest) (codes "]'\"") then err Error.bad_characters else do
      seg ← parse_bracket_content (drop (suc i) rest)
      ok ((take n s ++ take (suc i) rest) ∷ seg ∷ [])

unfoldable pub parse_segment_group : Text → Result (List Text)
parse_segment_group s =
    if is_empty s
    then err Error.empty_segment
    else if count_dots s == length s
    then err Error.only_dots
    else parse_rest s (count_dots s) (drop (count_dots s) s)
        (index_byte (drop (count_dots s) s) b'[')

-- The loop over the merged parts.
unfoldable pub parse_groups : List Text → Result (List Text)
parse_groups [] = ok []
parse_groups (p ∷ ps) = do segs ← parse_segment_group p; rest ← parse_groups ps; ok (segs ++ rest)

-- `ParsePath`
unfoldable pub parse_path : (Text → Option (List Text)) → Text → Result (List Text)
parse_path split path =
    if is_empty path
    then ok ([] ∷ [])
    else if contains_byte path b' '
    then err Error.has_spaces
    else if has_consecutive_dots false false path
    then err Error.consecutive_dots
    else if has_trailing_dot path
    then err Error.trailing_dot
    else elim (split path) [
      | none ↦ err Error.bad_split
      | some parts ↦ parse_groups (merge_dots zero parts)
    ]

-- Everything that `parse_path` calls, for tests that run it.
unfoldable pub parser : Unit {0}
unfolding is_digits has_consecutive_dots ends_in_bracket has_trailing_dot merge_dots parse_quoted
    parse_predicate parse_inner parse_bracket_content count_dots parse_rest parse_segment_group
    parse_groups parse_path index_byte contains_byte contains_any cut last_byte init
parser = tt
