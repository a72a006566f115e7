-- ===== src/Rest/Flattening.antt =====
-- populateFromAllOf of internal/tools/client/clienttools.go: flattening a schema keeps what its keys
-- stand for.
use krateo_rest_dynamic_cont.Base.{
  ◌≡◌, ◌⊎◌, inl, inr, refl, sym, ap, ◌∙◌, subst, Bool, true, false, Option, none, some,
  some-injective, if◌then◌else◌, Text, text_eq,
}
use krateo_rest_dynamic_cont.Rest.{
  Schema, schema, Properties, none_left, property, Schemas, end_of, and_also,
}
use krateo_rest_dynamic_cont.Rest.Bodies.{
  properties_of, set_properties, flatten, flatten_each, merge_all,
}
use krateo_rest_dynamic_cont.Rest.Effective.{
  find_in, or_keep, effective, last_of, HasUniqueKeys, AllUnique, PartsUnique, Near, Near-refl,
  or_keep-Near, find_in-set_properties, flat, flat-Near, find_in-flatten_each,
  set_properties-AllUnique,
}

pub own_unique : (s : Schema) → HasUniqueKeys s → AllUnique (properties_of s)
unfolding HasUniqueKeys
own_unique (schema is_array ps all) u = u.0

pub find_in-HasUniqueKeys :
    (k : Text) (ps : Properties) (t : Schema)
    → AllUnique ps
    → find_in k ps ≡ some t
    → HasUniqueKeys t
unfolding find_in HasUniqueKeys
find_in-HasUniqueKeys k none_left t u h = cc
find_in-HasUniqueKeys k (property j s ps) t (fresh, us, u) h =
    go (find_in-HasUniqueKeys k ps t u) (text_eq j k) h
  where
    go :
        (find_in k ps ≡ some t → HasUniqueKeys t)
        → (b : Bool) → (if b then some s else find_in k ps) ≡ some t
        → HasUniqueKeys t
    go rest true h = subst HasUniqueKeys (some-injective h) us
    go rest false h = rest h

mutual
  unfolding flatten HasUniqueKeys find_in

  pub flatten-HasUniqueKeys : (s : Schema) → HasUniqueKeys s → HasUniqueKeys (flatten s)
  flatten-HasUniqueKeys (schema true ps all) u = u
  flatten-HasUniqueKeys (schema false ps all) (u, parts) =
      (merge_all-AllUnique all (flatten_each ps) parts (flatten_each-AllUnique ps u), parts)

  flatten_each-AllUnique : (ps : Properties) → AllUnique ps → AllUnique (flatten_each ps)
  flatten_each-AllUnique none_left u = tt
  flatten_each-AllUnique (property k s ps) (fresh, us, u) = (
    find_in-flatten_each k ps ∙ ap flat fresh,
    flatten-HasUniqueKeys s us,
    flatten_each-AllUnique ps u,
  )

  merge_all-AllUnique :
      (ss : Schemas) (ps : Properties) → PartsUnique ss → AllUnique ps → AllUnique (merge_all ss ps)
  merge_all-AllUnique end_of ps parts u = u
  merge_all-AllUnique (and_also s ss) ps (us, parts) u =
      merge_all-AllUnique ss (set_properties (properties_of (flatten s)) ps) parts (
        set_properties-AllUnique (properties_of (flatten s)) ps
          (own_unique (flatten s) (flatten-HasUniqueKeys s us)) u)

mutual
  unfolding effective flatten HasUniqueKeys

  -- The properties of the flattened schema, by their keys.
  pub effective-Near :
      (k : Text) (s : Schema)
      → HasUniqueKeys s
      → Near (effective k s) (find_in k (properties_of (flatten s)))
  effective-Near k (schema true ps all) u = Near-refl (find_in k ps)
  effective-Near k (schema false ps all) (u, parts) =
      last_of-Near k all (find_in k ps) (flatten_each ps) parts
        (subst (Near (find_in k ps)) (sym (find_in-flatten_each k ps)) (flat-Near (find_in k ps)))

  last_of-Near :
      (k : Text) (ss : Schemas) (o : Option Schema) (ps : Properties)
      → PartsUnique ss
      → Near o (find_in k ps)
      → Near (last_of k ss o) (find_in k (merge_all ss ps))
  last_of-Near k end_of o ps parts n = n
  last_of-Near k (and_also s ss) o ps (us, parts) n =
      last_of-Near k ss (or_keep (effective k s) o) (set_properties (properties_of (flatten s)) ps)
        parts
        (subst (Near (or_keep (effective k s) o))
          (sym (
            find_in-set_properties k (properties_of (flatten s)) ps
              (own_unique (flatten s) (flatten-HasUniqueKeys s us))))
          (or_keep-Near (effective k s) (find_in k (properties_of (flatten s))) o (find_in k ps)
            (effective-Near k s us) n))

kept :
    (o : Option Schema)
    → ((t : Schema) → o ≡ some t → HasUniqueKeys t)
    → (a : Option Schema) → ((t : Schema) → a ≡ some t → HasUniqueKeys t)
    → (t : Schema) → or_keep a o ≡ some t
    → HasUniqueKeys t
kept o uo none ua t h = uo t h
kept o uo (some s) ua t h = ua t h

mutual
  unfolding effective HasUniqueKeys

  pub effective-HasUniqueKeys :
      (k : Text) (s t : Schema) → HasUniqueKeys s → effective k s ≡ some t → HasUniqueKeys t
  effective-HasUniqueKeys k (schema true ps all) t (u, parts) h = find_in-HasUniqueKeys k ps t u h
  effective-HasUniqueKeys k (schema false ps all) t (u, parts) h =
      last_of-HasUniqueKeys k all (find_in k ps) t parts (λ t e. find_in-HasUniqueKeys k ps t u e) h

  last_of-HasUniqueKeys :
      (k : Text) (ss : Schemas) (o : Option Schema) (t : Schema)
      → PartsUnique ss
      → ((t : Schema) → o ≡ some t → HasUniqueKeys t)
      → last_of k ss o ≡ some t
      → HasUniqueKeys t
  last_of-HasUniqueKeys k end_of o t parts uo h = uo t h
  last_of-HasUniqueKeys k (and_also s ss) o t (us, parts) uo h =
      last_of-HasUniqueKeys k ss (or_keep (effective k s) o) t parts
        (kept o uo (effective k s) (λ t e. effective-HasUniqueKeys k s t us e)) h

-- The parts of allOf either decide what a key stands for, or leave it.
decides :
    (k : Text) (ss : Schemas)
    → ((t : Schema) × ((o : Option Schema) → last_of k ss o ≡ some t))
      ⊎ ((o : Option Schema) → last_of k ss o ≡ o)
unfolding effective
decides k end_of = inr (λ o. refl)
decides k (and_also s ss) = go (decides k ss) (effective k s)
  where
    go :
        ((t : Schema) × ((o : Option Schema) → last_of k ss o ≡ some t))
          ⊎ ((o : Option Schema) → last_of k ss o ≡ o)
        → (a : Option Schema)
        → ((t : Schema) × ((o : Option Schema) → last_of k ss (or_keep a o) ≡ some t))
          ⊎ ((o : Option Schema) → last_of k ss (or_keep a o) ≡ o)
    go (inl (t, d)) a = inl (t, λ o. d (or_keep a o))
    go (inr d) none = inr (λ o. d o)
    go (inr d) (some t) = inl (t, λ o. d (some t))

-- A key stands for the same in the flattened schema, but that it may be flattened too.
pub effective-flatten :
    (k : Text) (s : Schema) → HasUniqueKeys s → Near (effective k s) (effective k (flatten s))
unfolding effective flatten
effective-flatten k (schema true ps all) u = Near-refl (find_in k ps)
effective-flatten k (schema false ps all) u =
    go (decides k all) (effective-Near k (schema false ps all) u)
  where
    go :
        ((t : Schema) × ((o : Option Schema) → last_of k all o ≡ some t))
          ⊎ ((o : Option Schema) → last_of k all o ≡ o)
        → Near (last_of k all (find_in k ps)) (find_in k (merge_all all (flatten_each ps)))
        → Near
            (last_of k all (find_in k ps))
            (last_of k all (find_in k (merge_all all (flatten_each ps))))
    go (inl (t, d)) n =
        subst (Near (last_of k all (find_in k ps)))
          (d (find_in k ps) ∙ sym (d (find_in k (merge_all all (flatten_each ps)))))
          (Near-refl (last_of k all (find_in k ps)))
    go (inr d) n =
        subst (Near (last_of k all (find_in k ps)))
          (sym (d (find_in k (merge_all all (flatten_each ps))))) n
