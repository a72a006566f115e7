-- ===== src/Path/Outcomes.antt =====
-- What ParsePath rejects, and what every segment that it returns has in common.
use krateo_rest_dynamic_cont.Base.{
  ◌⊎◌, ◌||◌, not, Bool, last_byte_push, init_push, ℕ, zero, suc, ◌≡◌, ◌≢◌, refl, true, false, List,
  [], ◌∷◌, ◌++◌, Option, none, some, arith, ◌==◌, Text, codes, is_empty, contains_byte,
  contains_any, index_byte, take, drop, init, All, Error, Result, ok, err, ◌>>=◌, Result-cases,
  length, lt→ltb, Bool-cases, Option-cases, inl, inr,
}
use krateo_rest_dynamic_cont.Path.Parse.{
  has_consecutive_dots, has_trailing_dot, ends_in_bracket, merge_dots, parse_quoted, parse_inner,
  parse_bracket_content, parse_rest, count_dots, parse_segment_group, parse_groups, parse_path,
}

contains_byte-append : (b : ℕ) (u v : Text) → contains_byte (u ++ b ∷ v) b ≡ true
unfolding contains_byte
contains_byte-append b [] v = ground arith
contains_byte-append b (c ∷ u) v = ground (arith, contains_byte-append b u v)

-- Two dots behind text that is no dot and opens no bracket.
has_consecutive_dots-append :
    (ended : Bool) (u v : Text) (c : ℕ)
    → contains_byte u b'[' ≡ false
    → (c ≢ b'[') × (c ≢ b']') × (c ≢ b'.')
    → has_consecutive_dots false ended (u ++ c ∷ b'.' ∷ b'.' ∷ v) ≡ true
unfolding has_consecutive_dots contains_byte
has_consecutive_dots-append ended [] v c h (n, m, k) = ground arith
has_consecutive_dots-append ended (d ∷ u) v c h k =
    ground (arith, has_consecutive_dots-append (ended || not (d == b']' || d == b'.')) u v c, k)

ends_in_bracket-outside :
    (u : Text) → contains_byte u b'[' ≡ false → ends_in_bracket false u ≡ false
unfolding ends_in_bracket contains_byte
ends_in_bracket-outside [] h = refl
ends_in_bracket-outside (c ∷ u) h = ground (arith, ends_in_bracket-outside u)

has_trailing_dot-append :
    (u : Text) → contains_byte u b'[' ≡ false → has_trailing_dot (u ++ b'.' ∷ []) ≡ true
unfolding has_trailing_dot
has_trailing_dot-append u h =
    rw (last_byte_push u b'.', init_push u b'.', ends_in_bracket-outside u h)

append-ne-nil : (u v : Text) (c : ℕ) → u ++ c ∷ v ≢ []
append-ne-nil [] v c h = cc
append-ne-nil (d ∷ u) v c h = cc

module _ (split : Text → Option (List Text)) where
  refuses_space :
      (path : Text)
      → path ≢ []
      → contains_byte path b' ' ≡ true
      → parse_path split path ≡ err Error.has_spaces
  unfolding parse_path
  refuses_space [] ne h = absurd (ne refl)
  refuses_space (c ∷ s) ne h = ground arith

  refuses_dots :
      (path : Text)
      → path ≢ []
      → has_consecutive_dots false false path ≡ true
      → (parse_path split path ≡ err Error.has_spaces)
        ⊎ (parse_path split path ≡ err Error.consecutive_dots)
  unfolding parse_path
  refuses_dots [] ne h = absurd (ne refl)
  refuses_dots (c ∷ s) ne h = elim (Bool-cases (contains_byte (c ∷ s) b' ')) [
    | inl space ↦ inl (rw space)
    | inr clear ↦ inr (rw (clear, h))
  ]

  refuses_end :
      (path : Text)
      → path ≢ []
      → has_trailing_dot path ≡ true
      → (parse_path split path ≡ err Error.has_spaces)
        ⊎ ((parse_path split path ≡ err Error.consecutive_dots)
            ⊎ (parse_path split path ≡ err Error.trailing_dot))
  unfolding parse_path
  refuses_end [] ne h = absurd (ne refl)
  refuses_end (c ∷ s) ne h = elim (Bool-cases (contains_byte (c ∷ s) b' ')) [
    | inl space ↦ inl (rw space)
    | inr clear ↦ elim (Bool-cases (has_consecutive_dots false false (c ∷ s))) [
      | inl dots ↦ inr (inl (rw (clear, dots)))
      | inr apart ↦ inr (inr (rw (clear, apart, h)))
    ]
  ]

-- Whatever the splitter does: a path with a space in it is refused for that; behind text that opens no
-- bracket, two dots in a row are refused where the byte in front of them is no dot and no bracket, for
-- them or for a space; and so is a dot at the end of such text, for it, for two dots or for a space.
pub parse_path-rejects :
    (split : Text → Option (List Text)) (u v : Text) (c : ℕ)
    → contains_byte u b'[' ≡ false
    → (c ≢ b'[') × (c ≢ b']') × (c ≢ b'.')
    → (parse_path split (u ++ b' ' ∷ v) ≡ err Error.has_spaces)
      × ((parse_path split (u ++ c ∷ b'.' ∷ b'.' ∷ v) ≡ err Error.has_spaces)
          ⊎ (parse_path split (u ++ c ∷ b'.' ∷ b'.' ∷ v) ≡ err Error.consecutive_dots))
      × ((parse_path split (u ++ b'.' ∷ []) ≡ err Error.has_spaces)
          ⊎ ((parse_path split (u ++ b'.' ∷ []) ≡ err Error.consecutive_dots)
              ⊎ (parse_path split (u ++ b'.' ∷ []) ≡ err Error.trailing_dot)))
parse_path-rejects split u v c h k = (
  refuses_space split (u ++ b' ' ∷ v) (append-ne-nil u v b' ') (contains_byte-append b' ' u v),
  refuses_dots split (u ++ c ∷ b'.' ∷ b'.' ∷ v) (append-ne-nil u (b'.' ∷ b'.' ∷ v) c)
      (has_consecutive_dots-append false u v c h k),
  refuses_end split (u ++ b'.' ∷ []) (append-ne-nil u [] b'.') (has_trailing_dot-append u h),
)

abbrev pub NonEmpty : Text → Type 0
NonEmpty s = is_empty s ≡ false

parse_quoted-NonEmpty : (s seg : Text) → parse_quoted s ≡ ok seg → NonEmpty seg
unfolding parse_quoted
parse_quoted-NonEmpty [] seg e = cc
parse_quoted-NonEmpty (q ∷ s) seg e = ground arith

parse_inner-NonEmpty : (s seg : Text) → parse_inner s ≡ ok seg → NonEmpty seg
unfolding parse_inner
parse_inner-NonEmpty [] seg e = cc
parse_inner-NonEmpty (c ∷ s) seg e = ground (arith, parse_quoted-NonEmpty (c ∷ s) seg)

parse_bracket_content-NonEmpty : (s seg : Text) → parse_bracket_content s ≡ ok seg → NonEmpty seg
unfolding parse_bracket_content
parse_bracket_content-NonEmpty s seg e = ground (arith, parse_inner-NonEmpty (init (drop 1 s)) seg)

append-NonEmpty : (s t : Text) → NonEmpty t → NonEmpty (s ++ t)
append-NonEmpty [] t h = h
append-NonEmpty (c ∷ s) t h = refl

module _ {ℓ κ} {A : Type ℓ} (P : A → Type κ) where
  All-append : (xs ys : List A) → All P xs → All P ys → All P (xs ++ ys)
  All-append [] ys h k = k
  All-append (x ∷ xs) ys (p, h) k = (p, All-append xs ys h k)

-- All segments of a result are non-empty; an error has none.
abbrev pub Sound : Result (List Text) → Type 0
Sound (ok segs) = All NonEmpty segs
Sound (err e) = Unit

-- A name, if any, in front of what a bracket group gives.
group-Sound :
    (front : List Text) (s : Text)
    → All NonEmpty front
    → Sound (do seg ← parse_bracket_content s; ok (front ++ seg ∷ []))
group-Sound front s h = elim (Result-cases (parse_bracket_content s)) [
  | inl (seg, e) ↦
      rw e (All-append NonEmpty front (seg ∷ []) h (parse_bracket_content-NonEmpty s seg e, tt))
  | inr (x, e) ↦ rw e tt
]

parse_rest-Sound :
    (s : Text) (n : ℕ) (rest : Text) (i : Option ℕ)
    → NonEmpty s
    → index_byte rest b'[' ≡ i
    → Sound (parse_rest s n rest i)
unfolding parse_rest index_byte
parse_rest-Sound s n rest none h k = elim (Bool-cases (contains_any rest (codes "[]'\""))) [
  | inl bad ↦ rw bad tt
  | inr good ↦ rw good (h, tt)
]
parse_rest-Sound s zero rest (some zero) h k = group-Sound [] rest tt
parse_rest-Sound s (suc n) rest (some zero) h k = rw (lt→ltb 0 (suc n) (omega arith)) tt
parse_rest-Sound s n [] (some (suc i)) h k = cc
parse_rest-Sound s n (c ∷ rest) (some (suc i)) h k =
    elim (Bool-cases (contains_any (take (suc i) (c ∷ rest)) (codes "]'\""))) [
      | inl bad ↦ rw bad tt
      | inr good ↦ rw good (
          group-Sound ((take n s ++ take (suc i) (c ∷ rest)) ∷ []) (drop i rest)
            (append-NonEmpty (take n s) (c ∷ take i rest) refl, tt))
    ]

parse_segment_group-Sound : (s : Text) → Sound (parse_segment_group s)
unfolding parse_segment_group
parse_segment_group-Sound [] = tt
parse_segment_group-Sound (c ∷ s) = elim (Bool-cases (count_dots (c ∷ s) == length (c ∷ s))) [
  | inl dots ↦ rw dots tt
  | inr more ↦ rw more (parse_rest-Sound (c ∷ s) _ (drop (count_dots (c ∷ s)) (c ∷ s)) _ refl refl)
]

bind-Sound :
    (r q : Result (List Text))
    → Sound r
    → Sound q
    → Sound (do segs ← r; rest ← q; ok (segs ++ rest))
bind-Sound (err e) q h k = tt
bind-Sound (ok segs) (err e) h k = tt
bind-Sound (ok segs) (ok rest) h k = All-append NonEmpty segs rest h k

parse_groups-Sound : (ps : List Text) → Sound (parse_groups ps)
unfolding parse_groups
parse_groups-Sound [] = tt
parse_groups-Sound (p ∷ ps) =
    bind-Sound (parse_segment_group p) (parse_groups ps) (parse_segment_group-Sound p)
      (parse_groups-Sound ps)

parse_path-Sound :
    (split : Text → Option (List Text)) (path : Text) → path ≢ [] → Sound (parse_path split path)
unfolding parse_path
parse_path-Sound split [] ne = absurd (ne refl)
parse_path-Sound split (c ∷ s) ne = elim (Bool-cases (contains_byte (c ∷ s) b' ')) [
  | inl h ↦ rw h tt
  | inr h ↦ rw h (elim (Bool-cases (has_consecutive_dots false false (c ∷ s))) [
    | inl d ↦ rw d tt
    | inr d ↦ rw d (elim (Bool-cases (has_trailing_dot (c ∷ s))) [
      | inl t ↦ rw t tt
      | inr t ↦ rw t (elim (Option-cases (split (c ∷ s))) [
        | inl n ↦ rw n tt
        | inr (parts, y) ↦ rw y (parse_groups-Sound (merge_dots zero parts))
      ])
    ])
  ])
]

-- Only the empty path gives an empty segment: whatever the splitter does, every segment that
-- ParsePath returns for another path is non-empty.
pub parse_path-NonEmpty :
    (split : Text → Option (List Text)) (path : Text) (segs : List Text)
    → path ≢ []
    → parse_path split path ≡ ok segs
    → All NonEmpty segs
parse_path-NonEmpty split path segs ne e = rw e at (parse_path-Sound split path ne)
