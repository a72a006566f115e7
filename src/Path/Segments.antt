-- ===== src/Path/Segments.antt =====
-- The pieces of a path: how each is written, and that parseSegmentGroup reads it back.
use krateo_rest_dynamic_cont.Base.{
  ℕ, ◌≡◌, ◌≢◌, refl, ◌∙◌, Bool, true, false, not, ◌||◌, List, [], ◌∷◌, ◌++◌, map, none, some, arith,
  ◌==◌, length, Text, codes, index_byte, contains_byte, contains_any, cut, last_byte_push,
  init_push, length-append, all, All, ok,
}
use krateo_rest_dynamic_cont.Path.Parse.{
  dot, is_digit, is_digits, is_quote, parse_quoted, parse_predicate, leading_zero, parse_inner,
  parse_bracket_content, count_dots, parse_rest, parse_segment_group, parse_groups,
}

-- A byte of a plain name.
abbrev pub plain_byte : ℕ → Bool
plain_byte c = not (c == dot || c == b'[' || c == b']' || c == b'\'' || c == b'"' || c == b' ')

-- A byte that may stand inside brackets.
abbrev pub inner_byte : ℕ → Bool
inner_byte c = not (c == b']' || c == b' ')

pub data Piece : Type 0 where
  name : Text → Piece
  quoted : ℕ → Text → Piece
  index : Text → Piece
  predicate : Text → Text → Piece

abbrev pub IsValid : Piece → Type 0
IsValid (name s) = (s ≢ []) × (all plain_byte s ≡ true)
IsValid (quoted q s) = (is_quote q ≡ true) × (s ≢ []) × (all inner_byte s ≡ true)
IsValid (index s) = (is_digits s ≡ true) × ((length s == 1 || not (leading_zero s)) ≡ true)
IsValid (predicate k v) =
    (k ≢ [])
    × (all inner_byte k ≡ true)
    × (contains_byte k b'=' ≡ false)
    × (all inner_byte v ≡ true)

-- What stands between the brackets of a piece.
abbrev pub inner : Piece → Text
inner (name s) = s
inner (quoted q s) = q ∷ (s ++ q ∷ [])
inner (index s) = s
inner (predicate k v) = b'?' ∷ (k ++ b'=' ∷ v)

abbrev pub bracket : Text → Text
bracket s = b'[' ∷ (s ++ b']' ∷ [])

-- How a piece is written.
abbrev pub write : Piece → Text
write (name s) = s
write (quoted q s) = bracket (inner (quoted q s))
write (index s) = bracket s
write (predicate k v) = bracket (inner (predicate k v))

-- The segment that a piece stands for.
abbrev pub segment : Piece → Text
segment (name s) = s
segment (quoted q s) = s
segment (index s) = s
segment (predicate k v) = inner (predicate k v)

-- Bytes and texts.
pub all-append :
    (p : ℕ → Bool) (s t : Text) → all p s ≡ true → all p t ≡ true → all p (s ++ t) ≡ true
all-append p [] t h k = k
all-append p (c ∷ s) t h k = ground (arith, all-append p s t)

pub not-contains :
    (b : ℕ) (p : ℕ → Bool) (s : Text) → p b ≡ false → all p s ≡ true → contains_byte s b ≡ false
unfolding contains_byte
not-contains b p [] e h = refl
not-contains b p (c ∷ s) e h = ground (arith, not-contains b p s e)

index_byte-append :
    (b : ℕ) (s t : Text) → contains_byte s b ≡ false → index_byte (s ++ b ∷ t) b ≡ some (length s)
unfolding contains_byte index_byte
index_byte-append b [] t h = ground arith
index_byte-append b (c ∷ s) t h = ground (arith, index_byte-append b s t)

-- A bracket group is read by its content.
parse_bracket_content-bracket :
    (s : Text)
    → s ≢ []
    → all inner_byte s ≡ true
    → parse_bracket_content (bracket s) ≡ parse_inner s
unfolding parse_bracket_content index_byte
parse_bracket_content-bracket [] ne h = absurd (ne refl)
parse_bracket_content-bracket (c ∷ s) ne h = ground (
  arith,
  length-append s (b']' ∷ []),
  last_byte_push (b'[' ∷ c ∷ s) b']',
  init_push (c ∷ s) b']',
  index_byte-append b']' (c ∷ s) [] (not-contains b']' inner_byte (c ∷ s) refl h),
)

abbrev pub IsBracketed : Piece → Type 0
IsBracketed (name s) = ⊥
IsBracketed (quoted q s) = Unit
IsBracketed (index s) = Unit
IsBracketed (predicate k v) = Unit

cut-append : (k v : Text) → contains_byte k b'=' ≡ false → cut (k ++ b'=' ∷ v) b'=' ≡ some (k, v)
unfolding cut contains_byte
cut-append [] v h = refl
cut-append (c ∷ k) v h = ground (arith, cut-append k v)

parse_inner-segment :
    (p : Piece) → IsBracketed p → IsValid p → parse_inner (inner p) ≡ ok (segment p)
unfolding parse_inner parse_predicate parse_quoted is_digits
parse_inner-segment (name s) b h = elim b [ ]
parse_inner-segment (quoted q []) b h = absurd (h.1 refl)
parse_inner-segment (quoted q (c ∷ s)) b h =
    ground (arith, length-append s (q ∷ []), last_byte_push (q ∷ c ∷ s) q, init_push (c ∷ s) q)
parse_inner-segment (index []) b h = cc
parse_inner-segment (index (c ∷ s)) b h = ground arith
parse_inner-segment (predicate [] v) b h = absurd (h.0 refl)
parse_inner-segment (predicate (c ∷ k) v) b h = ground (arith, cut-append (c ∷ k) v)

pub all-weaken :
    (p q : ℕ → Bool) (s : Text)
    → ((c : ℕ) → p c ≡ true → q c ≡ true)
    → all p s ≡ true
    → all q s ≡ true
all-weaken p q [] f h = refl
all-weaken p q (c ∷ s) f h = ground (arith, all-weaken p q s f, f c)

inner_byte_of_digit : (c : ℕ) → is_digit c ≡ true → inner_byte c ≡ true
inner_byte_of_digit c h = ground arith

inner_byte_of_quote : (c : ℕ) → is_quote c ≡ true → inner_byte c ≡ true
inner_byte_of_quote c h = ground arith

pub inner-bytes : (p : Piece) → IsBracketed p → IsValid p → all inner_byte (inner p) ≡ true
unfolding is_digits
inner-bytes (name s) b h = elim b [ ]
inner-bytes (quoted q s) b h =
    ground (arith, inner_byte_of_quote q h.0, all-append inner_byte s (q ∷ []) h.2)
inner-bytes (index []) b h = cc
inner-bytes (index (c ∷ s)) b h = all-weaken is_digit inner_byte (c ∷ s) inner_byte_of_digit h.0
inner-bytes (predicate k v) b h = all-append inner_byte k (b'=' ∷ v) h.1 h.3

inner-ne-nil : (p : Piece) → IsBracketed p → IsValid p → inner p ≢ []
unfolding is_digits
inner-ne-nil (name s) b h = elim b [ ]
inner-ne-nil (quoted q s) b h = cc
inner-ne-nil (index []) b h = cc
inner-ne-nil (index (c ∷ s)) b h = cc
inner-ne-nil (predicate k v) b h = cc

parse_bracket_content-write :
    (p : Piece)
    → IsBracketed p
    → IsValid p
    → parse_bracket_content (bracket (inner p)) ≡ ok (segment p)
parse_bracket_content-write p b h =
    parse_bracket_content-bracket (inner p) (inner-ne-nil p b h) (inner-bytes p b h)
    ∙ parse_inner-segment p b h

-- A bracket group stands alone in its token.
parse_segment_group-bracket :
    (s : Text) {seg : Text}
    → parse_bracket_content (bracket s) ≡ ok seg
    → parse_segment_group (bracket s) ≡ ok (seg ∷ [])
unfolding parse_segment_group parse_rest count_dots index_byte
parse_segment_group-bracket s h = ground arith

contains_any_of_all :
    (s chars : Text)
    → all (λ c. not (contains_byte chars c)) s ≡ true
    → contains_any s chars ≡ false
unfolding contains_any
contains_any_of_all [] chars h = refl
contains_any_of_all (c ∷ s) chars h = ground (arith, contains_any_of_all s chars)

no_bracket_byte : (c : ℕ) → plain_byte c ≡ true → not (contains_byte (codes "[]'\"") c) ≡ true
unfolding contains_byte
no_bracket_byte c h = ground arith

index_byte-none : (b : ℕ) (s : Text) → contains_byte s b ≡ false → index_byte s b ≡ none
unfolding index_byte contains_byte
index_byte-none b [] h = refl
index_byte-none b (c ∷ s) h = ground (arith, index_byte-none b s)

parse_segment_group-name :
    (s : Text) → s ≢ [] → all plain_byte s ≡ true → parse_segment_group s ≡ ok (s ∷ [])
unfolding parse_segment_group parse_rest count_dots
parse_segment_group-name [] ne h = absurd (ne refl)
parse_segment_group-name (c ∷ s) ne h =
    let no_open = index_byte-none b'[' (c ∷ s) (not-contains b'[' plain_byte (c ∷ s) refl h) in
    let clean = contains_any_of_all (c ∷ s) (codes "[]'\"") (
      all-weaken plain_byte (λ b. not (contains_byte (codes "[]'\"") b)) (c ∷ s) no_bracket_byte
        h) in
    ground (arith, no_open, clean)

pub parse_segment_group-write :
    (p : Piece) → IsValid p → parse_segment_group (write p) ≡ ok (segment p ∷ [])
parse_segment_group-write (name s) h = parse_segment_group-name s h.0 h.1
parse_segment_group-write (quoted q s) h =
    parse_segment_group-bracket (inner (quoted q s)) (parse_bracket_content-write (quoted q s) tt h)
parse_segment_group-write (index s) h =
    parse_segment_group-bracket s (parse_bracket_content-write (index s) tt h)
parse_segment_group-write (predicate k v) h =
    parse_segment_group-bracket (inner (predicate k v))
      (parse_bracket_content-write (predicate k v) tt h)

pub parse_groups-write :
    (ps : List Piece) → All IsValid ps → parse_groups (map write ps) ≡ ok (map segment ps)
unfolding parse_groups
parse_groups-write [] h = refl
parse_groups-write (p ∷ ps) (hp, h) = rw (parse_segment_group-write p hp, parse_groups-write ps h)
