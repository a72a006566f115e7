-- ===== src/Path/RoundTrip.antt =====
-- ParsePath on well-formed paths: pieces joined by dots.
use mathlib.Core.List.{append-nil}
use krateo_rest_dynamic_cont.Base.{
  ℕ, zero, ◌≡◌, ◌≢◌, refl, sym, ap, ◌∙◌, Bool, true, false, not, ◌||◌, List, [], ◌∷◌, ◌++◌, map,
  Option, some, arith, ◌==◌, Text, contains_byte, last_byte, last_byte_push, all, All, ok,
}
use krateo_rest_dynamic_cont.Path.Parse.{
  dot, starts_with_dot, has_consecutive_dots, has_trailing_dot, is_byte, merge_dots, parse_groups,
  parse_path,
}
use krateo_rest_dynamic_cont.Path.Segments.{
  Piece, name, quoted, index, predicate, IsValid, plain_byte, inner_byte, inner, bracket, write,
  segment, not-contains, inner-bytes, parse_groups-write,
}

abbrev pub join : List Text → Text
join [] = []
join (p ∷ []) = p
join (p ∷ q ∷ ps) = p ++ dot ∷ join (q ∷ ps)

-- The scan passes a plain name, and then the leading dots have ended.
scan-name :
    (e : Bool) (c : ℕ) (s t : Text)
    → all plain_byte (c ∷ s) ≡ true
    → has_consecutive_dots false e (c ∷ s ++ t) ≡ has_consecutive_dots false true t
unfolding has_consecutive_dots
scan-name e c [] t h = ground arith
scan-name e c (d ∷ s) t h = ground (arith, scan-name (e || not (c == b']' || c == dot)) d s t)

scan-inside :
    (s t : Text)
    → all inner_byte s ≡ true
    → has_consecutive_dots true true ((s ++ b']' ∷ []) ++ t) ≡ has_consecutive_dots false true t
unfolding has_consecutive_dots
scan-inside [] t h = ground arith
scan-inside (c ∷ s) t h = ground (arith, scan-inside s t)

scan-bracket :
    (e : Bool) (s t : Text)
    → all inner_byte s ≡ true
    → has_consecutive_dots false e (bracket s ++ t) ≡ has_consecutive_dots false true t
unfolding has_consecutive_dots
scan-bracket e s t h = ground (arith, scan-inside s t h)

scan-write :
    (e : Bool) (p : Piece) (t : Text)
    → IsValid p
    → has_consecutive_dots false e (write p ++ t) ≡ has_consecutive_dots false true t
scan-write e (name []) t h = absurd (h.0 refl)
scan-write e (name (c ∷ s)) t h = scan-name e c s t h.1
scan-write e (quoted q s) t h =
    scan-bracket e (inner (quoted q s)) t (inner-bytes (quoted q s) tt h)
scan-write e (index s) t h = scan-bracket e s t (inner-bytes (index s) tt h)
scan-write e (predicate k v) t h =
    scan-bracket e (inner (predicate k v)) t (inner-bytes (predicate k v) tt h)

starts_with_dot-write : (p : Piece) (t : Text) → IsValid p → starts_with_dot (write p ++ t) ≡ false
starts_with_dot-write (name []) t h = absurd (h.0 refl)
starts_with_dot-write (name (c ∷ s)) t h = ground arith
starts_with_dot-write (quoted q s) t h = refl
starts_with_dot-write (index s) t h = refl
starts_with_dot-write (predicate k v) t h = refl

starts_with_dot-join :
    (p : Piece) (ps : List Piece) → IsValid p → starts_with_dot (join (map write (p ∷ ps))) ≡ false
starts_with_dot-join p [] h = rw append-nil at (starts_with_dot-write p [] h)
starts_with_dot-join p (q ∷ ps) h = starts_with_dot-write p _ h

has_consecutive_dots-join :
    (e : Bool) (p : Piece) (ps : List Piece)
    → All IsValid (p ∷ ps)
    → has_consecutive_dots false e (join (map write (p ∷ ps))) ≡ false
unfolding has_consecutive_dots
has_consecutive_dots-join e p [] h =
    ap (has_consecutive_dots false e) (sym (append-nil (write p))) ∙ scan-write e p [] h.0
has_consecutive_dots-join e p (q ∷ ps) h =
    scan-write e p (dot ∷ join (map write (q ∷ ps))) h.0
    ∙ ground (arith, starts_with_dot-join q ps h.1.0, has_consecutive_dots-join true q ps h.1)

-- No space.
contains_byte-append :
    (b : ℕ) (s t : Text)
    → contains_byte s b ≡ false
    → contains_byte t b ≡ false
    → contains_byte (s ++ t) b ≡ false
unfolding contains_byte
contains_byte-append b [] t h k = k
contains_byte-append b (c ∷ s) t h k = ground (arith, contains_byte-append b s t)

no_space-bracket : (s : Text) → all inner_byte s ≡ true → contains_byte (bracket s) b' ' ≡ false
unfolding contains_byte
no_space-bracket s h =
    contains_byte-append b' ' s (b']' ∷ []) (not-contains b' ' inner_byte s refl h) refl

no_space-write : (p : Piece) → IsValid p → contains_byte (write p) b' ' ≡ false
no_space-write (name s) h = not-contains b' ' plain_byte s refl h.1
no_space-write (quoted q s) h =
    no_space-bracket (inner (quoted q s)) (inner-bytes (quoted q s) tt h)
no_space-write (index s) h = no_space-bracket s (inner-bytes (index s) tt h)
no_space-write (predicate k v) h =
    no_space-bracket (inner (predicate k v)) (inner-bytes (predicate k v) tt h)

no_space-join :
    (ps : List Piece) → All IsValid ps → contains_byte (join (map write ps)) b' ' ≡ false
unfolding contains_byte
no_space-join [] h = refl
no_space-join (p ∷ []) h = no_space-write p h.0
no_space-join (p ∷ q ∷ ps) h =
    contains_byte-append b' ' (write p) (dot ∷ join (map write (q ∷ ps))) (no_space-write p h.0)
      (no_space-join (q ∷ ps) h.1)

-- No dot at the end.
last_byte-append : (s : Text) (c : ℕ) (t : Text) → last_byte (s ++ c ∷ t) ≡ last_byte (c ∷ t)
unfolding last_byte
last_byte-append [] c t = refl
last_byte-append (a ∷ []) c t = refl
last_byte-append (a ∷ b ∷ s) c t = last_byte-append (b ∷ s) c t

last-name :
    (c : ℕ) (s : Text) → all plain_byte (c ∷ s) ≡ true → is_byte dot (last_byte (c ∷ s)) ≡ false
unfolding last_byte
last-name c [] h = ground arith
last-name c (d ∷ s) h = last-name d s (ground arith)

last-write : (p : Piece) → IsValid p → is_byte dot (last_byte (write p)) ≡ false
last-write (name []) h = absurd (h.0 refl)
last-write (name (c ∷ s)) h = last-name c s h.1
last-write (quoted q s) h = rw (last_byte_push (b'[' ∷ inner (quoted q s)) b']')
last-write (index s) h = rw (last_byte_push (b'[' ∷ s) b']')
last-write (predicate k v) h = rw (last_byte_push (b'[' ∷ inner (predicate k v)) b']')

write-ne-nil : (p : Piece) → IsValid p → write p ≢ []
write-ne-nil (name s) h = h.0
write-ne-nil (quoted q s) h = cc
write-ne-nil (index s) h = cc
write-ne-nil (predicate k v) h = cc

append-ne-nil : (s t : Text) → s ≢ [] → s ++ t ≢ []
append-ne-nil [] t h = absurd (h refl)
append-ne-nil (c ∷ s) t h = cc

join-ne-nil : (p : Piece) (ps : List Piece) → IsValid p → join (map write (p ∷ ps)) ≢ []
join-ne-nil p [] h = write-ne-nil p h
join-ne-nil p (q ∷ ps) h = append-ne-nil (write p) _ (write-ne-nil p h)

last_byte-cons : (a : ℕ) (s : Text) → s ≢ [] → last_byte (a ∷ s) ≡ last_byte s
unfolding last_byte
last_byte-cons a [] h = absurd (h refl)
last_byte-cons a (c ∷ s) h = refl

last-join :
    (p : Piece) (ps : List Piece)
    → All IsValid (p ∷ ps)
    → is_byte dot (last_byte (join (map write (p ∷ ps)))) ≡ false
last-join p [] h = last-write p h.0
last-join p (q ∷ ps) h = rw (last_byte-append (write p) dot (join (map write (q ∷ ps)))) (
    rw (last_byte-cons dot (join (map write (q ∷ ps))) (join-ne-nil q ps h.1.0))
      (last-join q ps h.1))

has_trailing_dot_of_last :
    (s : Text) → is_byte dot (last_byte s) ≡ false → has_trailing_dot s ≡ false
unfolding has_trailing_dot
has_trailing_dot_of_last s h = rw h

merge_dots-id : (ps : List Piece) → All IsValid ps → merge_dots zero (map write ps) ≡ map write ps
unfolding merge_dots
merge_dots-id [] h = refl
merge_dots-id (p ∷ ps) h = go (write p) (write-ne-nil p h.0) (merge_dots-id ps h.1)
  where
    go :
        (w : Text)
        → w ≢ []
        → merge_dots zero (map write ps) ≡ map write ps
        → merge_dots zero (w ∷ map write ps) ≡ w ∷ map write ps
    go [] ne ih = absurd (ne refl)
    go (c ∷ w) ne ih = ap (λ r. (c ∷ w) ∷ r) ih

-- Past the checks, a path is cut, merged and read token by token.
parse_path_of_checks :
    (split : Text → Option (List Text)) (path : Text) {parts : List Text}
    → path ≢ []
    → contains_byte path b' ' ≡ false
    → has_consecutive_dots false false path ≡ false
    → has_trailing_dot path ≡ false
    → split path ≡ some parts
    → parse_path split path ≡ parse_groups (merge_dots zero parts)
unfolding parse_path
parse_path_of_checks split [] ne h1 h2 h3 h4 = absurd (ne refl)
parse_path_of_checks split (c ∷ s) ne h1 h2 h3 h4 = ground arith

-- A path of one or more valid pieces joined by dots (plain names, quoted keys in brackets, array
-- indices and predicates) is parsed to the segments of the pieces, if the splitter cuts it at the
-- dots between the pieces.
pub parse_path-join :
    (split : Text → Option (List Text)) (p : Piece) (ps : List Piece)
    → All IsValid (p ∷ ps)
    → split (join (map write (p ∷ ps))) ≡ some (map write (p ∷ ps))
    → parse_path split (join (map write (p ∷ ps))) ≡ ok (map segment (p ∷ ps))
parse_path-join split p ps h cuts =
    parse_path_of_checks split (join (map write (p ∷ ps))) (join-ne-nil p ps h.0)
      (no_space-join (p ∷ ps) h) (has_consecutive_dots-join false p ps h)
      (has_trailing_dot_of_last _ (last-join p ps h)) cuts
    ∙ ap parse_groups (merge_dots-id (p ∷ ps) h)
    ∙ parse_groups-write (p ∷ ps) h
