-- ===== src/Secrets/Granted.antt =====
-- What a resource's Role grants is what the resolvers of its verbs read.
use mathlib.Core.List.{Memᴰ}
use mathlib.Core.List.Memᴰ
use krateo_rest_dynamic_cont.Base.{
  ◌≡◌, refl, ap, ◌∙◌, subst, All, Bool, true, false, ◌||◌, List, [], ◌∷◌, Option, none, some,
  if◌then◌else◌, Text, codes, text_eq, text_eq_refl, Error, Result, ok, err, ◌>>=◌, bind_ext,
  ok-injective, err-ne-ok, insert,
}
use krateo_rest_dynamic_cont.Value.{Value, str, Fields}
use krateo_rest_dynamic_cont.Definition.{
  SecretRefResolver, FieldResolver, FieldMappingItem, VerbsDescription,
}
use krateo_rest_dynamic_cont.Externals.{Externals}
use krateo_rest_dynamic_cont.Mapping.{
  resolver_key, read_cached, read_string_path, resolve_secret, secret_ref_of, resolver_for,
  resolve_loop, resolve_request_resolvers, is_request_entry,
}
use krateo_rest_dynamic_cont.Builder.{contains}
use krateo_rest_dynamic_cont.Rest.Params.{add}
use krateo_rest_dynamic_cont.Secrets.{
  ref_in, ref_of, add_ref, add_read, collect_mapping, collect_verbs, collect_secret_ref_names,
}

-- The reading of Secrets under a Role that grants some names.
abbrev pub under : List Text → (Text → Text → Result Text) → Text → Text → Result Text
under names get_secret name key =
    if contains names name then get_secret name key else err Error.forbidden

or_true : (b : Bool) → (b || true) ≡ true
or_true true = refl
or_true false = refl

contains-add_self : (n : Text) (names : List Text) → contains (add n names) n ≡ true
unfolding add contains
contains-add_self n names = go (contains names n) refl
  where
    go : (b : Bool) → contains names n ≡ b → contains (if b then names else n ∷ names) n ≡ true
    go true e = e
    go false e = ap (λ c. c || contains names n) (text_eq_refl n)

contains-add :
    (n k : Text) (names : List Text) → contains names k ≡ true → contains (add n names) k ≡ true
unfolding add contains
contains-add n k names h = go (contains names n)
  where
    go : (b : Bool) → contains (if b then names else n ∷ names) k ≡ true
    go true = h
    go false = ap (λ c. text_eq n k || c) h ∙ or_true (text_eq n k)

module _ (x : Externals) (mg : Fields) where
  -- The name that an entry reads is among these.
  abbrev Covered : List Text → FieldMappingItem → Type 0
  Covered names m =
      (s : SecretRefResolver) (name : Text)
      → ref_of m ≡ some s
      → read_string_path x mg s.name_from_custom_resource ≡ ok name
      → contains names name ≡ true

  add_ref-keeps :
      (o : Option SecretRefResolver) (k : Text) (names : List Text)
      → contains names k ≡ true
      → contains (add_ref x mg o names) k ≡ true
  add_ref-keeps none k names h = h
  add_ref-keeps (some s) k names h = go (read_string_path x mg s.name_from_custom_resource)
    where
      go : (r : Result Text) → contains (add_read r names) k ≡ true
      go (err e) = h
      go (ok name) = contains-add name k names h

  add_ref-Covered :
      (m : FieldMappingItem) (names : List Text) → Covered (add_ref x mg (ref_of m) names) m
  add_ref-Covered m names s name hs hn =
      ap (λ o. contains (add_ref x mg o names) name) hs
      ∙ ap (λ r. contains (add_read r names) name) hn
      ∙ contains-add_self name names

  collect_mapping-keeps :
      (ms : List FieldMappingItem) (k : Text) (names : List Text)
      → contains names k ≡ true
      → contains (collect_mapping x mg ms names) k ≡ true
  unfolding collect_mapping
  collect_mapping-keeps [] k names h = h
  collect_mapping-keeps (m ∷ ms) k names h =
      collect_mapping-keeps ms k (add_ref x mg (ref_of m) names)
        (add_ref-keeps (ref_of m) k names h)

  collect_mapping-Covered :
      (ms : List FieldMappingItem) (names : List Text)
      → All (Covered (collect_mapping x mg ms names)) ms
  unfolding collect_mapping
  collect_mapping-Covered [] names = tt
  collect_mapping-Covered (m ∷ ms) names = (
    λ s name hs hn.
        collect_mapping-keeps ms name (add_ref x mg (ref_of m) names)
          (add_ref-Covered m names s name hs hn),
    collect_mapping-Covered ms (add_ref x mg (ref_of m) names),
  )

  collect_verbs-keeps :
      (vs : List VerbsDescription) (k : Text) (names : List Text)
      → contains names k ≡ true
      → contains (collect_verbs x mg vs names) k ≡ true
  unfolding collect_verbs
  collect_verbs-keeps [] k names h = h
  collect_verbs-keeps (v ∷ vs) k names h =
      collect_verbs-keeps vs k (collect_mapping x mg v.field_mapping names)
        (collect_mapping-keeps v.field_mapping k names h)

  All-keeps :
      (a b : List Text) (ms : List FieldMappingItem)
      → ((k : Text) → contains a k ≡ true → contains b k ≡ true)
      → All (Covered a) ms
      → All (Covered b) ms
  All-keeps a b [] keeps h = tt
  All-keeps a b (m ∷ ms) keeps (h, hs) =
      (λ s name e f. keeps name (h s name e f), All-keeps a b ms keeps hs)

  collect_verbs-Covered :
      (vs : List VerbsDescription) (v : VerbsDescription) (names : List Text)
      → Memᴰ v vs
      → All (Covered (collect_verbs x mg vs names)) v.field_mapping
  unfolding collect_verbs
  collect_verbs-Covered [] v names m = absurd (Memᴰ.not-nil m)
  collect_verbs-Covered (u ∷ vs) v names (Memᴰ.head e) =
      All-keeps (collect_mapping x mg v.field_mapping names)
        (collect_verbs x mg vs (collect_mapping x mg u.field_mapping names)) v.field_mapping
        (λ k h.
          collect_verbs-keeps vs k (collect_mapping x mg u.field_mapping names)
            (subst (λ w. contains (collect_mapping x mg w.field_mapping names) k ≡ true) e h))
        (collect_mapping-Covered v.field_mapping names)
  collect_verbs-Covered (u ∷ vs) v names (Memᴰ.tail m) =
      collect_verbs-Covered vs v (collect_mapping x mg u.field_mapping names) m

  module _ (names : List Text) (get_secret : Text → Text → Result Text) where
    under_granted :
        (name key : Text)
        → contains names name ≡ true
        → under names get_secret name key ≡ get_secret name key
    under_granted name key h = rw (h)

    resolve_secret-under :
        (s : SecretRefResolver) (cache : List (Text × Text))
        → ((name : Text)
            → read_string_path x mg s.name_from_custom_resource ≡ ok name
            → contains names name ≡ true)
        → resolve_secret x (under names get_secret) mg s cache
          ≡ resolve_secret x get_secret mg s cache
    unfolding resolve_secret
    resolve_secret-under s cache h = go (read_string_path x mg s.name_from_custom_resource) h
      where
        go :
            (r : Result Text)
            → ((name : Text) → r ≡ ok name → contains names name ≡ true)
            → (r >>= λ name.
                (read_string_path x mg s.key_from_custom_resource >>= λ key.
                read_cached (under names get_secret name) name key cache))
              ≡ (r >>= λ name.
                  (read_string_path x mg s.key_from_custom_resource >>= λ key.
                  read_cached (get_secret name) name key cache))
        go (err e) h = refl
        go (ok name) h =
            ap
              (λ read. read_string_path x mg s.key_from_custom_resource >>= λ key.
                read_cached read name key cache)
              (λ i key. under_granted name key (h name refl) i)

    -- The resolvers that the loop reads are those that were collected.
    resolver-ref_of :
        (m : FieldMappingItem) (r : FieldResolver) (s : SecretRefResolver)
        → resolver_for m ≡ some r
        → secret_ref_of r ≡ ok s
        → ref_of m ≡ some s
    unfolding secret_ref_of
    resolver-ref_of m r s hr hs = go (is_request_entry m) hr
      where
        configured :
            (b : Bool) (o : Option SecretRefResolver)
            → (if b
                then (elim o [ none ↦ err Error.resolver_not_configured | some s ↦ ok s ])
                else err Error.unsupported_resolver)
              ≡ ok s
            → (if b then o else none) ≡ some s
        configured true (some t) e = ap some (ok-injective e)
        configured true none e = absurd (err-ne-ok e)
        configured false o e = absurd (err-ne-ok e)

        go : (b : Bool) → (if b then m.resolver else none) ≡ some r → ref_of m ≡ some s
        go true e = ap ref_in e ∙ configured (text_eq r.kind (codes "secretRef")) r.secret_ref hs
        go false e = cc

    resolve_loop-under :
        (ms : List FieldMappingItem) (out : List (Text × Value)) (cache : List (Text × Text))
        → All (Covered names) ms
        → resolve_loop x (under names get_secret) mg ms out cache
          ≡ resolve_loop x get_secret mg ms out cache
    unfolding resolve_loop
    resolve_loop-under [] out cache h = refl
    resolve_loop-under (m ∷ ms) out cache (h, hs) =
        go (λ out cache. resolve_loop-under ms out cache hs) (resolver_for m) refl
      where
        go :
            ((out : List (Text × Value)) (cache : List (Text × Text))
              → resolve_loop x (under names get_secret) mg ms out cache
                ≡ resolve_loop x get_secret mg ms out cache)
            → (o : Option FieldResolver) → resolver_for m ≡ o
            → (elim o [
              | none ↦ resolve_loop x (under names get_secret) mg ms out cache
              | some r ↦
                  (secret_ref_of r >>= λ s.
                  (resolve_secret x (under names get_secret) mg s cache >>= λ found.
                  resolve_loop x
                    (under names get_secret)
                    mg
                    ms
                    (insert (resolver_key m) (str found.0) out)
                    found.1))
            ])
              ≡ (elim o [
                | none ↦ resolve_loop x get_secret mg ms out cache
                | some r ↦
                    (secret_ref_of r >>= λ s.
                    (resolve_secret x get_secret mg s cache >>= λ found.
                    resolve_loop x get_secret mg ms
                      (insert (resolver_key m) (str found.0) out)
                      found.1))
              ])
        go rest none q = rest out cache
        go rest (some r) q = bind_ext (secret_ref_of r) _ _ (λ s e.
            ap
              (λ t. t >>= λ found.
                resolve_loop x (under names get_secret) mg ms
                  (insert (resolver_key m) (str found.0) out) found.1)
              (resolve_secret-under s cache (λ name f. h s name (resolver-ref_of m r s q e) f))
            ∙ bind_ext (resolve_secret x get_secret mg s cache) _ _
                (λ found f. rest (insert (resolver_key m) (str found.0) out) found.1))

-- A Role that grants the names that CollectSecretRefNames returns is enough for every verb: with it,
-- the resolvers of a verb's field mapping give what they give with access to all Secrets. The names are
-- sorted, which keeps them.
pub granted_suffices :
    (x : Externals) (mg : Fields) (sort : List Text → List Text)
    (get_secret : Text → Text → Result Text) (verbs : List VerbsDescription) (v : VerbsDescription)
    → ((names : List Text) (k : Text) → contains (sort names) k ≡ contains names k)
    → Memᴰ v verbs
    → resolve_request_resolvers x
        (under (collect_secret_ref_names x sort verbs mg) get_secret)
        v.field_mapping
        mg
      ≡ resolve_request_resolvers x get_secret v.field_mapping mg
unfolding resolve_request_resolvers collect_secret_ref_names
granted_suffices x mg sort get_secret verbs v sorted m =
    resolve_loop-under x mg (sort (collect_verbs x mg verbs [])) get_secret v.field_mapping [] [] (
      All-keeps x mg (collect_verbs x mg verbs []) (sort (collect_verbs x mg verbs []))
        v.field_mapping (λ k h. sorted (collect_verbs x mg verbs []) k ∙ h)
        (collect_verbs-Covered x mg verbs v [] m))
