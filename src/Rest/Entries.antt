-- ===== src/Rest/Entries.antt =====
-- The properties of a schema as UpdatableBodyPaths of internal/tools/client/clienttools.go walks them.
use krateo_rest_dynamic_cont.Base.{
  ◌≡◌, ◌≢◌, ◌⊎◌, inl, inr, refl, sym, ◌∙◌, subst, Bool, true, false, List, none, some,
  some-injective, if◌then◌else◌, Text, text_eq, text_eq_iff, text_eq_refl,
}
use mathlib.Core.List.Memᴰ
use mathlib.Core.List.{Memᴰ}
use krateo_rest_dynamic_cont.Rest.{Schema, Properties, none_left, property}
use krateo_rest_dynamic_cont.Rest.Effective.{find_in, AllUnique}
use krateo_rest_dynamic_cont.Rest.Bodies.{extend, collect_properties}

-- A key and its schema among the properties.
pub data Entry (k : Text) (s : Schema) : Properties → Type 0 where
  first : (ps : Properties) → Entry k s (property k s ps)
  later : (j : Text) (t : Schema) (ps : Properties) → Entry k s ps → Entry k s (property j t ps)

module _ (collect : Schema → Text → List Text) (prefix path : Text) where
  pub split_properties :
      (ps : Properties)
      → Memᴰ path (collect_properties collect ps prefix)
      → (k : Text) × (t : Schema) × Entry k t ps × Memᴰ path (collect t (extend prefix k))
  unfolding collect_properties
  split_properties none_left m = absurd (Memᴰ.not-nil m)
  split_properties (property k s ps) m =
      go (split_properties ps) (Memᴰ.append_cases (collect s (extend prefix k)) m)
    where
      go :
          (Memᴰ path (collect_properties collect ps prefix)
            → (j : Text) × (t : Schema) × Entry j t ps × Memᴰ path (collect t (extend prefix j)))
          → Memᴰ path (collect s (extend prefix k))
            ⊎ Memᴰ path (collect_properties collect ps prefix)
          → (j : Text) × (t : Schema) × Entry j t (property k s ps)
            × Memᴰ path (collect t (extend prefix j))
      go further (inl m) = (k, s, Entry.first ps, m)
      go further (inr m) = let (j, t, e, m') = further m in (j, t, Entry.later k s ps e, m')

  pub join_properties :
      (k : Text) (t : Schema) (ps : Properties)
      → Entry k t ps
      → Memᴰ path (collect t (extend prefix k))
      → Memᴰ path (collect_properties collect ps prefix)
  unfolding collect_properties
  join_properties k t _ (Entry.first ps) m = Memᴰ.append_left _ m
  join_properties k t _ (Entry.later j u ps e) m =
      Memᴰ.append_right (collect u (extend prefix j)) (join_properties k t ps e m)

some-ne-none : {t : Schema} → some t ≢ none
some-ne-none h = cc

pub Entry-find_in :
    (k : Text) (t : Schema) (ps : Properties) → Entry k t ps → AllUnique ps → find_in k ps ≡ some t
unfolding find_in AllUnique
Entry-find_in k t _ (Entry.first ps) u = rw (text_eq_refl k)
Entry-find_in k t _ (Entry.later j s ps e) (fresh, us, u) =
    go (Entry-find_in k t ps e u) (text_eq j k) refl
  where
    go :
        find_in k ps ≡ some t
        → (b : Bool) → text_eq j k ≡ b
        → (if b then some s else find_in k ps) ≡ some t
    go found true same = absurd (
        some-ne-none
          (sym found ∙ subst (λ k. find_in k ps ≡ none) ((text_eq_iff j k).0 same) fresh))
    go found false other = found

pub find_in-Entry : (k : Text) (t : Schema) (ps : Properties) → find_in k ps ≡ some t → Entry k t ps
unfolding find_in
find_in-Entry k t none_left h = cc
find_in-Entry k t (property j s ps) h = go (find_in-Entry k t ps) (text_eq j k) refl h
  where
    go :
        (find_in k ps ≡ some t → Entry k t ps)
        → (b : Bool) → text_eq j k ≡ b
        → (if b then some s else find_in k ps) ≡ some t
        → Entry k t (property j s ps)
    go rest true same h =
        subst (λ k. Entry k t (property j s ps)) ((text_eq_iff j k).0 same)
          (subst (λ t. Entry j t (property j s ps)) (some-injective h) (Entry.first ps))
    go rest false other h = Entry.later j s ps (rest h)

pub keyless : (ps : Properties) → ((k : Text) → find_in k ps ≡ none) → ps ≡ none_left
unfolding find_in
keyless none_left h = refl
keyless (property j s ps) h =
    let e : (if text_eq j j then some s else find_in j ps) ≡ none = h j in
    absurd (some-ne-none (rw (text_eq_refl j) at e))

pub find_in-none_left : (k : Text) → find_in k none_left ≡ none
unfolding find_in
find_in-none_left k = refl

pub Entry-none_left : (k : Text) (t : Schema) → Entry k t none_left → ⊥
unfolding find_in AllUnique
Entry-none_left k t e = absurd (some-ne-none (sym (Entry-find_in k t none_left e tt)))
