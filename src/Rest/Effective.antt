-- ===== src/Rest/Effective.antt =====
-- populateFromAllOf of internal/tools/client/clienttools.go: what the properties of a schema are, by
-- their keys.
use krateo_rest_dynamic_cont.Base.{
  ◌≡◌, inl, inr, refl, ap, ◌∙◌, subst, arith, Bool, true, false, Option, none, some, if◌then◌else◌,
  Bool-cases, Text, text_eq, text_eq_iff,
}
use krateo_rest_dynamic_cont.Rest.{
  Schema, schema, Properties, none_left, property, Schemas, end_of, and_also,
}
use krateo_rest_dynamic_cont.Rest.Bodies.{set_property, set_properties, flatten, flatten_each}

unfoldable pub find_in : Text → Properties → Option Schema
find_in k none_left = none
find_in k (property j s ps) = if text_eq j k then some s else find_in k ps

abbrev pub or_keep : Option Schema → Option Schema → Option Schema
or_keep none o = o
or_keep (some s) o = some s

unfoldable mutual
  -- The schema of a key: that of the last part of allOf that has the key, at any depth, and else that of
  -- the schema's own property. The parts of an array are not looked at.
  pub effective : Text → Schema → Option Schema
  effective k (schema true ps all) = find_in k ps
  effective k (schema false ps all) = last_of k all (find_in k ps)

  pub last_of : Text → Schemas → Option Schema → Option Schema
  last_of k end_of o = o
  last_of k (and_also s ss) o = last_of k ss (or_keep (effective k s) o)

unfoldable mutual
  -- No object of the schema has a key twice.
  pub HasUniqueKeys : Schema → Type 0
  HasUniqueKeys (schema is_array ps all) = AllUnique ps × PartsUnique all

  pub AllUnique : Properties → Type 0
  AllUnique none_left = Unit
  AllUnique (property k s ps) = (find_in k ps ≡ none) × HasUniqueKeys s × AllUnique ps

  pub PartsUnique : Schemas → Type 0
  PartsUnique end_of = Unit
  PartsUnique (and_also s ss) = HasUniqueKeys s × PartsUnique ss

-- What flattening leaves of the schema of a key: the schema, or its flattened form, or none.
pub data Near : Option Schema → Option Schema → Type 0 where
  missing : Near none none
  same : (t : Schema) → Near (some t) (some t)
  flattened : (t : Schema) → Near (some t) (some (flatten t))

pub Near-refl : (o : Option Schema) → Near o o
Near-refl none = Near.missing
Near-refl (some t) = Near.same t

pub or_keep-Near :
    (a a' o o' : Option Schema) → Near a a' → Near o o' → Near (or_keep a o) (or_keep a' o')
or_keep-Near _ _ o o' Near.missing n = n
or_keep-Near _ _ o o' (Near.same t) n = Near.same t
or_keep-Near _ _ o o' (Near.flattened t) n = Near.flattened t

find_in-set_property :
    (j k : Text) (s : Schema) (ps : Properties)
    → find_in j (set_property k s ps) ≡ (if text_eq k j then some s else find_in j ps)
unfolding find_in set_property
find_in-set_property j k s none_left = refl
find_in-set_property j k s (property i t ps) =
    ground (arith, text_eq_iff k j, text_eq_iff i k, text_eq_iff i j, find_in-set_property j k s ps)

pub find_in-set_properties :
    (j : Text) (qs ps : Properties)
    → AllUnique qs
    → find_in j (set_properties qs ps) ≡ or_keep (find_in j qs) (find_in j ps)
unfolding find_in set_properties AllUnique
find_in-set_properties j none_left ps u = refl
find_in-set_properties j (property k s qs) ps (fresh, us, u) =
    find_in-set_properties j qs (set_property k s ps) u
    ∙ ap (or_keep (find_in j qs)) (find_in-set_property j k s ps)
    ∙ go (text_eq k j) refl
  where
    go :
        (b : Bool)
        → text_eq k j ≡ b
        → or_keep (find_in j qs) (if b then some s else find_in j ps)
          ≡ or_keep (if b then some s else find_in j qs) (find_in j ps)
    go true e =
        ap (λ o. or_keep o (some s))
          (subst (λ j. find_in j qs ≡ none) ((text_eq_iff k j).0 e) fresh)
    go false e = refl

abbrev pub flat : Option Schema → Option Schema
flat none = none
flat (some t) = some (flatten t)

pub flat-Near : (o : Option Schema) → Near o (flat o)
flat-Near none = Near.missing
flat-Near (some t) = Near.flattened t

pub find_in-flatten_each :
    (j : Text) (ps : Properties) → find_in j (flatten_each ps) ≡ flat (find_in j ps)
unfolding find_in flatten_each
find_in-flatten_each j none_left = refl
find_in-flatten_each j (property k s ps) = elim (Bool-cases (text_eq k j)) [
  | inl e ↦ rw e
  | inr e ↦ rw e (find_in-flatten_each j ps)
]

differ : (j k : Text) → text_eq j k ≡ false → text_eq k j ≡ false
differ j k h = ground (arith, text_eq_iff j k, text_eq_iff k j)

set_property-AllUnique :
    (k : Text) (s : Schema) (ps : Properties)
    → HasUniqueKeys s
    → AllUnique ps
    → AllUnique (set_property k s ps)
unfolding AllUnique set_property find_in
set_property-AllUnique k s none_left us u = (refl, us, tt)
set_property-AllUnique k s (property j t ps) us (fresh, ut, u) =
    go (set_property-AllUnique k s ps us u) (text_eq j k) refl
  where
    go :
        AllUnique (set_property k s ps)
        → (b : Bool) → text_eq j k ≡ b
        → AllUnique (if b then property j s ps else property j t (set_property k s ps))
    go rest true e = (fresh, us, u)
    go rest false e = (find_in-set_property j k s ps ∙ rw (differ j k e) fresh, ut, rest)

pub set_properties-AllUnique :
    (qs ps : Properties) → AllUnique qs → AllUnique ps → AllUnique (set_properties qs ps)
unfolding AllUnique set_properties
set_properties-AllUnique none_left ps uq u = u
set_properties-AllUnique (property k s qs) ps (fresh, us, uq) u =
    set_properties-AllUnique qs (set_property k s ps) uq (set_property-AllUnique k s ps us u)
