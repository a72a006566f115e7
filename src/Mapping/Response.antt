-- ===== src/Mapping/Response.antt =====
-- NormalizeResponseBody: the whole-document transforms of a response, then its field mappings, read
-- first, written next, and their lifted sources removed last. The body is returned, where Go mutates it.
use krateo_rest_dynamic_cont.Base.{
  Bool, true, false, ◌&&◌, ◌||◌, List, [], ◌∷◌, ◌++◌, Option, none, some, if◌then◌else◌, ◌==◌, any,
  Text, codes, text_eq, equal_fold, is_empty, Error, Result, ok, err, ◌>>=◌,
}
use krateo_rest_dynamic_cont.Value.{Value, obj, Fields}
use krateo_rest_dynamic_cont.Definition.{
  JqProgram, ValueMapping, FieldMappingItem, VerbsDescription,
}
use krateo_rest_dynamic_cont.Externals.{Externals, sprint}
use krateo_rest_dynamic_cont.Path.Parse.{parse_path}
use krateo_rest_dynamic_cont.Path.Nested.{get_nested, set_nested, remove_nested}
use krateo_rest_dynamic_cont.Mapping.{Direction, apply_alias, nul}

-- The verbs of an action, in order.
unfoldable pub verbs_for : List VerbsDescription → Text → List VerbsDescription
verbs_for [] action = []
verbs_for (v ∷ vs) action =
    let rest = verbs_for vs action in if equal_fold v.action action then v ∷ rest else rest

abbrev inline_program : Option JqProgram → List JqProgram
inline_program none = []
inline_program (some p) = if is_empty p.inline then [] else p ∷ []

-- `documentResponseTransforms`, for one action; every caller passes one.
unfoldable pub document_response_transforms : List VerbsDescription → List JqProgram
document_response_transforms [] = []
document_response_transforms (v ∷ vs) =
    inline_program v.response_transform ++ document_response_transforms vs

response_items : List FieldMappingItem → List FieldMappingItem
response_items [] = []
response_items (m ∷ ms) =
    let rest = response_items ms in if is_empty m.in_response then rest else m ∷ rest

-- `responseEntries`, for the verbs of one action.
unfoldable pub response_entries : List VerbsDescription → List FieldMappingItem
unfolding response_items
response_entries [] = []
response_entries (v ∷ vs) = response_items v.field_mapping ++ response_entries vs

abbrev as_object : Value → Result Fields
as_object (obj fs) = ok fs
as_object _ = err Error.transform_not_object

-- The loop over the document transforms, each by `applyDocumentTransform`.
unfoldable pub apply_document_transforms : Externals → List JqProgram → Fields → Result Fields
apply_document_transforms x [] body = ok body
apply_document_transforms x (p ∷ ps) body = do
  out ← x.run_jq p.inline (obj body)
  fields ← as_object out
  apply_document_transforms x ps fields

-- `resolvedEntry`
pub record ResolvedEntry : Type 0 where
  pub src : List Text
  pub dst : List Text
  pub val : Value

strip_prefix : Text → Text → Option Text
strip_prefix [] s = some s
strip_prefix (p ∷ ps) [] = none
strip_prefix (p ∷ ps) (c ∷ s) = let rest = strip_prefix ps s in if p == c then rest else none

-- `strings.TrimPrefix`
unfoldable pub trim_prefix : Text → Text → Text
unfolding strip_prefix
trim_prefix p s = elim (strip_prefix p s) [ none ↦ s | some rest ↦ rest ]

abbrev trimmed_destination : Text → Option Text → Text
trimmed_destination s (some rest) = rest
trimmed_destination s none = trim_prefix (codes "status.") s

-- `bodyRelativePath`
unfoldable pub body_relative_path : Externals → Text → Result (List Text)
unfolding strip_prefix
body_relative_path x s = parse_path x.split (trimmed_destination s (strip_prefix (codes "spec.") s))

-- A path that cannot be parsed, or has no segments, makes an entry not applicable.
abbrev segments_of : Result (List Text) → Option (List Text)
segments_of (err e) = none
segments_of (ok []) = none
segments_of (ok (seg ∷ segs)) = some (seg ∷ segs)

-- The value transform of an entry; `ok none` is not applicable.
unfoldable pub map_value : Externals → Option ValueMapping → Value → Result (Option Value)
map_value x none v = ok (some v)
map_value x (some m) v =
    if text_eq m.kind (codes "alias")
    then ok (some (apply_alias x v m.aliases Direction.response_api_to_cr))
    else if text_eq m.kind (codes "jq")
    then elim m.jq [
      | none ↦ ok none
      | some p ↦ if is_empty p.inline then ok none else x.run_jq p.inline v >>= λ w. ok (some w)
    ]
    else ok (some v)

-- A source that is absent: the default, if one is declared, stands at the destination.
unfoldable pub default_entry : Externals → FieldMappingItem → Result (Option ResolvedEntry)
default_entry x m = elim m.default_if_absent [
  | none ↦ ok none
  | some raw ↦
      if is_empty raw
      then ok none
      else x.unmarshal raw >>= λ v.
          ok (elim (segments_of (body_relative_path x m.in_custom_resource)) [
            | none ↦ none
            | some dst ↦ some (record { src = dst; dst = dst; val = v })
          ])
]

unfoldable pub found_entry :
    Externals → FieldMappingItem → List Text → Value → Result (Option ResolvedEntry)
found_entry x m src v = map_value x m.value_mapping v >>= λ mapped. elim mapped [
  | none ↦ ok none
  | some w ↦ elim (segments_of (body_relative_path x m.in_custom_resource)) [
    | none ↦ ok none
    | some dst ↦ x.canonical w >>= λ c. ok (some (record { src = src; dst = dst; val = c }))
  ]
]

-- `resolveResponseEntry`; `ok none` is ok=false.
unfoldable pub resolve_response_entry :
    Externals → FieldMappingItem → Fields → Result (Option ResolvedEntry)
resolve_response_entry x m body =
    if is_empty m.in_response || is_empty m.in_custom_resource
    then ok none
    else elim (segments_of (parse_path x.split m.in_response)) [
      | none ↦ ok none
      | some src ↦ elim (get_nested (sprint x) (obj body) src) [
        | err e ↦ ok none
        | ok none ↦ default_entry x m
        | ok (some v) ↦ found_entry x m src v
      ]
    ]

abbrev add_entry : Option ResolvedEntry → List ResolvedEntry → List ResolvedEntry
add_entry none rs = rs
add_entry (some r) rs = r ∷ rs

-- Every entry is read from the same body.
unfoldable pub resolve_entries :
    Externals → List FieldMappingItem → Fields → Result (List ResolvedEntry)
resolve_entries x [] body = ok []
resolve_entries x (m ∷ ms) body = do
  r ← resolve_response_entry x m body
  rs ← resolve_entries x ms body
  ok (add_entry r rs)

unfoldable pub write_entries : Externals → List ResolvedEntry → Value → Result Value
write_entries x [] body = ok body
write_entries x (r ∷ rs) body = do
  next ← set_nested (sprint x) body r.val r.dst
  write_entries x rs next

-- `equalPath`
unfoldable pub equal_path : List Text → List Text → Bool
equal_path [] [] = true
equal_path (a ∷ as') (b ∷ bs) = text_eq a b && equal_path as' bs
equal_path _ _ = false

-- `pathKey`
unfoldable pub path_key : List Text → Text
path_key [] = []
path_key (s ∷ []) = s
path_key (s ∷ t ∷ ss) = s ++ nul ∷ path_key (t ∷ ss)

unfoldable pub is_written : List ResolvedEntry → List Text → Bool
is_written rs src = any (λ r. text_eq (path_key r.dst) (path_key src)) rs

-- A source is removed unless the entry works in place or an entry writes to it.
unfoldable pub remove_sources : Externals → List ResolvedEntry → List ResolvedEntry → Value → Value
remove_sources x all_entries [] body = body
remove_sources x all_entries (r ∷ rs) body = remove_sources x all_entries rs (
    if equal_path r.src r.dst || is_written all_entries r.src
    then body
    else remove_nested (sprint x) body r.src)

-- `NormalizeResponseBody` for one action and a body that is not nil.
unfoldable pub normalize_response_body :
    Externals → List VerbsDescription → Text → Fields → Result Value
normalize_response_body x verbs action body = do
  whole ← apply_document_transforms x (document_response_transforms (verbs_for verbs action)) body
  rs ← resolve_entries x (response_entries (verbs_for verbs action)) whole
  written ← write_entries x rs (obj whole)
  ok (remove_sources x rs rs written)
