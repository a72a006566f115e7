-- ===== src/Rest/Leaves.antt =====
-- UpdatableBodyPaths of internal/tools/client/clienttools.go: the paths that it returns.
use krateo_rest_dynamic_cont.Base.{
  ◌≡◌, ◌≢◌, ◌↔◌, ◌⊎◌, inl, inr, refl, sym, ap, ◌∙◌, subst, ℕ, zero, suc, ◌<◌, arith, List, [], ◌∷◌,
  Option, none, some, some-injective, Text, length, ok, ok-injective,
}
use mathlib.Core.List.Memᴰ
use mathlib.Core.List.{Memᴰ}
use krateo_rest_dynamic_cont.Rest.{
  Schema, Properties, none_left, property, Operation, Document, find_operation,
}
use krateo_rest_dynamic_cont.Rest.Effective.{find_in, effective, HasUniqueKeys, AllUnique, Near}
use krateo_rest_dynamic_cont.Rest.Flattening.{
  own_unique, find_in-HasUniqueKeys, flatten-HasUniqueKeys, effective-Near, effective-HasUniqueKeys,
  effective-flatten,
}
use krateo_rest_dynamic_cont.Rest.Bodies.{
  properties_of, flatten, extend, leaf_at, collect_from, collect_leaf_paths, levels,
  updatable_body_paths,
}
use krateo_rest_dynamic_cont.Rest.Entries.{
  Entry, split_properties, join_properties, Entry-find_in, find_in-Entry, keyless,
  find_in-none_left, Entry-none_left,
}

-- A chain of keys that leads to a schema without any.
pub data Leaf : Schema → List Text → Type 0 where
  here : (s : Schema) → ((k : Text) → effective k s ≡ none) → Leaf s []
  below :
      (s t : Schema) (k : Text) (ks : List Text)
      → effective k s ≡ some t
      → Leaf t ks
      → Leaf s (k ∷ ks)

-- The keys behind a prefix, with dots between.
abbrev pub dotted : Text → List Text → Text
dotted prefix [] = prefix
dotted prefix (k ∷ ks) = dotted (extend prefix k) ks

-- A path of a leaf that is fewer than n keys below.
abbrev pub LeafPath : ℕ → Schema → Text → Text → Type 0
LeafPath n s prefix path =
    (ks : List Text) × Leaf s ks × (length ks < n) × (dotted prefix ks ≡ path) × (path ≢ [])

at_leaf : (prefix path : Text) → Memᴰ path (leaf_at prefix) → (prefix ≡ path) × (path ≢ [])
at_leaf [] path m = absurd (Memᴰ.not-nil m)
at_leaf (c ∷ prefix) path m = go (Memᴰ.cases_cons m)
  where
    go : (path ≡ c ∷ prefix) ⊎ Memᴰ path [] → (c ∷ prefix ≡ path) × (path ≢ [])
    go (inl e) = (sym e, λ h. cc)
    go (inr m) = absurd (Memᴰ.not-nil m)

leaf_is_at : (path : Text) → path ≢ [] → Memᴰ path (leaf_at path)
leaf_is_at [] h = absurd (h refl)
leaf_is_at (c ∷ path) h = Memᴰ.head refl

-- A schema or its flattened form.
abbrev Form : Schema → Schema → Type 0
Form t t' = (t' ≡ t) ⊎ (t' ≡ flatten t)

Near-right :
    (o o' : Option Schema) (t' : Schema)
    → Near o o'
    → o' ≡ some t'
    → (t : Schema) × (o ≡ some t) × Form t t'
Near-right _ _ t' Near.missing h = cc
Near-right _ _ t' (Near.same t) h = (t, refl, inl (sym (some-injective h)))
Near-right _ _ t' (Near.flattened t) h = (t, refl, inr (sym (some-injective h)))

Near-left :
    (o o' : Option Schema) (t : Schema)
    → Near o o'
    → o ≡ some t
    → (t' : Schema) × (o' ≡ some t') × Form t t'
Near-left _ _ t Near.missing h = cc
Near-left _ _ t (Near.same u) h = (u, refl, inl (some-injective h))
Near-left _ _ t (Near.flattened u) h = (flatten u, refl, inr (ap flatten (some-injective h)))

Near-none : (o o' : Option Schema) → Near o o' → (o ≡ none) ↔ (o' ≡ none)
Near-none _ _ Near.missing = (λ h. refl, λ h. refl)
Near-none _ _ (Near.same t) = (λ h. h, λ h. h)
Near-none _ _ (Near.flattened t) = (λ h. cc, λ h. cc)

flatten-Leaf : (ks : List Text) (t : Schema) → HasUniqueKeys t → Leaf (flatten t) ks → Leaf t ks
flatten-Leaf [] t u (Leaf.here _ h) =
    Leaf.here t
      (λ k. (Near-none (effective k t) (effective k (flatten t)) (effective-flatten k t u)).1 (h k))
flatten-Leaf (k ∷ ks) t u (Leaf.below _ s' _ _ h leaf) =
    let (s, hs, form) =
      Near-right (effective k t) (effective k (flatten t)) s' (effective-flatten k t u) h in
    Leaf.below t s k ks hs (go s form (flatten-Leaf ks s (effective-HasUniqueKeys k t s u hs)))
  where
    go : (s : Schema) → Form s s' → (Leaf (flatten s) ks → Leaf s ks) → Leaf s ks
    go s (inl e) further = subst (λ v. Leaf v ks) e leaf
    go s (inr e) further = further (subst (λ v. Leaf v ks) e leaf)

Leaf-flatten : (ks : List Text) (t : Schema) → HasUniqueKeys t → Leaf t ks → Leaf (flatten t) ks
Leaf-flatten [] t u (Leaf.here _ h) =
    Leaf.here (flatten t)
      (λ k. (Near-none (effective k t) (effective k (flatten t)) (effective-flatten k t u)).0 (h k))
Leaf-flatten (k ∷ ks) t u (Leaf.below _ s _ _ h leaf) =
    let (s', hs, form) =
      Near-left (effective k t) (effective k (flatten t)) s (effective-flatten k t u) h in
    Leaf.below (flatten t) s' k ks hs
      (go s' form (Leaf-flatten ks s (effective-HasUniqueKeys k t s u h) leaf))
  where
    go : (s' : Schema) → Form s s' → Leaf (flatten s) ks → Leaf s' ks
    go s' (inl e) further = subst (λ v. Leaf v ks) (sym e) leaf
    go s' (inr e) further = subst (λ v. Leaf v ks) (sym e) further

Form-Leaf : (ks : List Text) (t t' : Schema) → HasUniqueKeys t → Form t t' → Leaf t ks ↔ Leaf t' ks
Form-Leaf ks t t' u (inl e) = (subst (λ v. Leaf v ks) (sym e), subst (λ v. Leaf v ks) e)
Form-Leaf ks t t' u (inr e) = (
  λ leaf. subst (λ v. Leaf v ks) (sym e) (Leaf-flatten ks t u leaf),
  λ leaf. flatten-Leaf ks t u (subst (λ v. Leaf v ks) e leaf),
)

-- The properties that the walk sees of a schema.
abbrev seen : Schema → Properties
seen s = properties_of (flatten s)

seen-AllUnique : (s : Schema) → HasUniqueKeys s → AllUnique (seen s)
seen-AllUnique s u = own_unique (flatten s) (flatten-HasUniqueKeys s u)

collected-LeafPath :
    (n : ℕ) (s : Schema) (prefix path : Text)
    → HasUniqueKeys s
    → Memᴰ path (collect_leaf_paths n s prefix)
    → LeafPath n s prefix path
unfolding collect_leaf_paths
collected-LeafPath zero s prefix path u m = absurd (Memᴰ.not-nil m)
collected-LeafPath (suc n) s prefix path u m =
    go (λ t q. collected-LeafPath n t q path) (seen s) refl m
  where
    go :
        ((t : Schema) (q : Text)
          → HasUniqueKeys t
          → Memᴰ path (collect_leaf_paths n t q)
          → LeafPath n t q path)
        → (ps : Properties) → seen s ≡ ps
        → Memᴰ path (collect_from (collect_leaf_paths n) ps prefix)
        → LeafPath (suc n) s prefix path
    go deeper none_left e m =
        let (h, full) = at_leaf prefix path m in
        (
          [],
          Leaf.here s (λ k.
              (Near-none (effective k s) (find_in k (seen s)) (effective-Near k s u)).1
                (ap (find_in k) e ∙ find_in-none_left k)),
          omega arith,
          h,
          full,
        )
    go deeper (property j v ps) e m =
        let (k, t', entry, m') =
          split_properties (collect_leaf_paths n) prefix path (property j v ps) m in
        let found =
          Entry-find_in k t' (seen s) (subst (Entry k t') (sym e) entry) (seen-AllUnique s u) in
        let (t, ht, form) =
          Near-right (effective k s) (find_in k (seen s)) t' (effective-Near k s u) found in
        let (ks, leaf, short, h, full) =
          deeper t' (extend prefix k)
            (find_in-HasUniqueKeys k (seen s) t' (seen-AllUnique s u) found) m' in
        (
          k ∷ ks,
          Leaf.below s t k ks ht
              ((Form-Leaf ks t t' (effective-HasUniqueKeys k s t u ht) form).1 leaf),
          omega arith,
          h,
          full,
        )

LeafPath-collected :
    (n : ℕ) (s : Schema) (prefix path : Text) (ks : List Text)
    → HasUniqueKeys s
    → Leaf s ks
    → length ks < n
    → dotted prefix ks ≡ path
    → path ≢ []
    → Memᴰ path (collect_leaf_paths n s prefix)
unfolding collect_leaf_paths
LeafPath-collected zero s prefix path ks u leaf short h full = absurd (omega arith)
LeafPath-collected (suc n) s prefix path [] u (Leaf.here _ e) short h full =
    subst (λ ps. Memᴰ path (collect_from (collect_leaf_paths n) ps prefix))
      (sym (
        keyless (seen s)
          (λ k. (Near-none (effective k s) (find_in k (seen s)) (effective-Near k s u)).0 (e k))))
      (subst (λ q. Memᴰ path (leaf_at q)) (sym h) (leaf_is_at path full))
LeafPath-collected (suc n) s prefix path (k ∷ ks) u (Leaf.below _ t _ _ e leaf) short h full =
    let (t', found, form) =
      Near-left (effective k s) (find_in k (seen s)) t (effective-Near k s u) e in
    go t' found
      (LeafPath-collected n t' (extend prefix k) path ks
        (find_in-HasUniqueKeys k (seen s) t' (seen-AllUnique s u) found)
        ((Form-Leaf ks t t' (effective-HasUniqueKeys k s t u e) form).0 leaf) (omega arith) h full)
      (seen s) (find_in-Entry k t' (seen s) found)
  where
    go :
        (t' : Schema)
        → find_in k (seen s) ≡ some t'
        → Memᴰ path (collect_leaf_paths n t' (extend prefix k))
        → (ps : Properties) → Entry k t' ps
        → Memᴰ path (collect_from (collect_leaf_paths n) ps prefix)
    go t' found m none_left entry = absurd (Entry-none_left k t' entry)
    go t' found m (property j v ps) entry =
        join_properties (collect_leaf_paths n) prefix path k t' (property j v ps) entry m

-- Where the body of an operation has the JSON schema s, in which no object has a key twice,
-- UpdatableBodyPaths returns exactly the dotted paths of the leaves of s that are at most 20 keys
-- below it. A schema that is no array has the keys of its own properties and of the parts of its
-- allOf, those of the parts' own allOf included, and the last part that has a key decides; an array
-- has those of its own properties; and a leaf is a schema that has none. The empty path is never
-- returned.
pub updatable_body_paths_iff :
    (doc : Document) (method path : Text) (op : Operation) (s : Schema) (paths : List Text)
    (p : Text)
    → find_operation doc method path ≡ ok op
    → op.request_body ≡ some (some s)
    → HasUniqueKeys s
    → updatable_body_paths doc method path ≡ ok paths
    → Memᴰ p paths ↔ LeafPath 21 s [] p
unfolding updatable_body_paths
updatable_body_paths_iff doc method path op s paths p ho hb u h =
    let e : collect_leaf_paths levels s [] ≡ paths = ok-injective (rw (ho, hb) at h) in
    (
      λ m. collected-LeafPath 21 s [] p u (subst (Memᴰ p) (sym e) m),
      λ (ks, leaf, short, joined, full).
          subst (Memᴰ p) e (LeafPath-collected 21 s [] p ks u leaf short joined full),
    )
