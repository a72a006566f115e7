-- ===== src/Getter/Inline.antt =====
-- resolveJQRefs of internal/tools/definitiongetter/getter.go with internal/tools/jqmodule: the programs
-- of a definition that Get returns, and where their sources come from.
use krateo_rest_dynamic_cont.Base.{
  ◌≡◌, refl, sym, ap, ◌∙◌, subst, All, Bool, true, false, not, ◌&&◌, ◌||◌, List, [], ◌∷◌, drop,
  length, Option, none, some, if◌then◌else◌, Text, text_eq, text_eq_iff, is_empty, Error, ok, err,
  ◌>>=◌, >>=-eq-ok, err-ne-ok, ok-injective,
}
use krateo_rest_dynamic_cont.Value.{Fields}
use krateo_rest_dynamic_cont.Definition.{
  JqProgram, ValueMapping, FieldMappingItem, AsyncConfig, VerbsDescription, ApiRef, Info,
}
use krateo_rest_dynamic_cont.Externals.{Externals}
use krateo_rest_dynamic_cont.Rest.Params.{starts_with}
use krateo_rest_dynamic_cont.Getter.{Api}
use krateo_rest_dynamic_cont.Getter.Modules.{
  or_failed, fetch, fetch_config_map, is_http, split_slash, config_map_scheme,
}
use krateo_rest_dynamic_cont.Getter.Credentials.{Auth, process_configuration_ref}
use krateo_rest_dynamic_cont.Getter.Lookup.{
  with_entrypoint, materialize_jq, materialize, materialize_mapping, materialize_items,
  materialize_async, materialize_verb, materialize_verbs, materialize_api_ref, resolve_jq_refs,
  find_definition, build_info, get_definition,
}

-- A program, if there is one, refers to no module.
abbrev pub Inline : Option JqProgram → Type 0
Inline none = Unit
Inline (some p) = p.ref ≡ []

abbrev InlineMapping : Option ValueMapping → Type 0
InlineMapping none = Unit
InlineMapping (some vm) = Inline vm.jq

abbrev InlineAsync : Option AsyncConfig → Type 0
InlineAsync none = Unit
InlineAsync (some a) = Inline (a.operation_ref).jq

abbrev InlineItem : FieldMappingItem → Type 0
InlineItem m = InlineMapping m.value_mapping

abbrev pub InlineVerb : VerbsDescription → Type 0
InlineVerb v =
    Inline v.request_transform
    × Inline v.response_transform
    × Inline v.not_found_body
    × All InlineItem v.field_mapping
    × InlineAsync v.async

abbrev pub InlineRef : Option ApiRef → Type 0
InlineRef none = Unit
InlineRef (some r) = Inline r.not_found_expr × Inline r.up_to_date_expr

empty : (s : Text) → is_empty s ≡ true → s ≡ []
empty [] h = refl
empty (c ∷ s) h = cc

module _ (api : Api) (own : Text) where
  materialized_jq : (p q : JqProgram) → materialize_jq api own p ≡ ok q → q.ref ≡ []
  unfolding materialize_jq
  materialized_jq p q h = go (is_empty p.ref) refl h
    where
      go :
          (b : Bool)
          → is_empty p.ref ≡ b
          → (if b
              then ok p
              else (fetch api p.ref own >>= λ src. ok (record {
                inline = with_entrypoint src p.entrypoint;
                ref = [];
                entrypoint = [];
              })))
            ≡ ok q
          → q.ref ≡ []
      go true e h = ap (λ r. r.ref) (sym (ok-injective h)) ∙ empty p.ref e
      go false e h =
          let (src, hs, k) = >>=-eq-ok (fetch api p.ref own) _ h in
          ap (λ r. r.ref) (sym (ok-injective k))

  materialized : (o o' : Option JqProgram) → materialize api own o ≡ ok o' → Inline o'
  materialized none o' h = subst Inline (ok-injective h) tt
  materialized (some p) o' h =
      let (q, hq, k) = >>=-eq-ok (materialize_jq api own p) _ h in
      subst Inline (ok-injective k) (materialized_jq p q hq)

  materialized_mapping :
      (o o' : Option ValueMapping) → materialize_mapping api own o ≡ ok o' → InlineMapping o'
  materialized_mapping none o' h = subst InlineMapping (ok-injective h) tt
  materialized_mapping (some vm) o' h =
      let (q, hq, k) = >>=-eq-ok (materialize api own vm.jq) _ h in
      subst InlineMapping (ok-injective k) (materialized vm.jq q hq)

  materialized_items :
      (ms ms' : List FieldMappingItem) → materialize_items api own ms ≡ ok ms' → All InlineItem ms'
  unfolding materialize_items
  materialized_items [] ms' h = subst (All InlineItem) (ok-injective h) tt
  materialized_items (m ∷ ms) ms' h =
      let (vm, hv, h1) = >>=-eq-ok (materialize_mapping api own m.value_mapping) _ h in
      let (rest, hr, h2) = >>=-eq-ok (materialize_items api own ms) _ h1 in
      subst (All InlineItem) (ok-injective h2)
        (materialized_mapping m.value_mapping vm hv, materialized_items ms rest hr)

  materialized_async :
      (o o' : Option AsyncConfig) → materialize_async api own o ≡ ok o' → InlineAsync o'
  materialized_async none o' h = subst InlineAsync (ok-injective h) tt
  materialized_async (some a) o' h =
      let (q, hq, k) = >>=-eq-ok (materialize api own (a.operation_ref).jq) _ h in
      subst InlineAsync (ok-injective k) (materialized (a.operation_ref).jq q hq)

  materialized_verb : (v v' : VerbsDescription) → materialize_verb api own v ≡ ok v' → InlineVerb v'
  unfolding materialize_verb
  materialized_verb v v' h =
      let (a, ha, h1) = >>=-eq-ok (materialize api own v.request_transform) _ h in
      let (b, hb, h2) = >>=-eq-ok (materialize api own v.response_transform) _ h1 in
      let (c, hc, h3) = >>=-eq-ok (materialize api own v.not_found_body) _ h2 in
      let (d, hd, h4) = >>=-eq-ok (materialize_items api own v.field_mapping) _ h3 in
      let (e, he, h5) = >>=-eq-ok (materialize_async api own v.async) _ h4 in
      subst InlineVerb (ok-injective h5) (
        materialized v.request_transform a ha,
        materialized v.response_transform b hb,
        materialized v.not_found_body c hc,
        materialized_items v.field_mapping d hd,
        materialized_async v.async e he,
      )

  materialized_verbs :
      (vs vs' : List VerbsDescription) → materialize_verbs api own vs ≡ ok vs' → All InlineVerb vs'
  unfolding materialize_verbs
  materialized_verbs [] vs' h = subst (All InlineVerb) (ok-injective h) tt
  materialized_verbs (v ∷ vs) vs' h =
      let (w, hw, h1) = >>=-eq-ok (materialize_verb api own v) _ h in
      let (ws, hs, h2) = >>=-eq-ok (materialize_verbs api own vs) _ h1 in
      subst (All InlineVerb) (ok-injective h2)
        (materialized_verb v w hw, materialized_verbs vs ws hs)

  materialized_ref : (o o' : Option ApiRef) → materialize_api_ref api own o ≡ ok o' → InlineRef o'
  materialized_ref none o' h = subst InlineRef (ok-injective h) tt
  materialized_ref (some r) o' h =
      let (a, ha, h1) = >>=-eq-ok (materialize api own r.not_found_expr) _ h in
      let (b, hb, h2) = >>=-eq-ok (materialize api own r.up_to_date_expr) _ h1 in
      subst InlineRef (ok-injective h2)
        (materialized r.not_found_expr a ha, materialized r.up_to_date_expr b hb)

  -- The programs of a resource.
  abbrev pub InlineInfo : Info → Type 0
  InlineInfo info =
      All InlineVerb (info.resource).verbs_description × InlineRef (info.resource).observe_api_ref

  resolved : (info info' : Info) → resolve_jq_refs api own info ≡ ok info' → InlineInfo info'
  unfolding resolve_jq_refs
  resolved info info' h =
      let (vs, hv, h1) =
        >>=-eq-ok (materialize_verbs api own (info.resource).verbs_description) _ h in
      let (r, hr, h2) =
        >>=-eq-ok (materialize_api_ref api own (info.resource).observe_api_ref) _ h1 in
      subst InlineInfo (ok-injective h2) (
        materialized_verbs (info.resource).verbs_description vs hv,
        materialized_ref (info.resource).observe_api_ref r hr,
      )

-- No program of the verbs that Get returns, nor of the observeApiRef, refers to a module any more: the
-- transforms, the predicates, the value mappings and the operation references are all inline.
pub get_definition-Inline :
    (api : Api) (x : Externals) (mg : Fields) (info : Info) (auth : Option Auth)
    → get_definition api x mg ≡ ok (info, auth)
    → All InlineVerb (info.resource).verbs_description × InlineRef (info.resource).observe_api_ref
unfolding get_definition build_info
get_definition-Inline api x mg info auth h =
    let (group, hg, h1) = >>=-eq-ok (or_failed Error.no_gvr (api.group_of mg)) _ h in
    let (items, hi, h2) = >>=-eq-ok (or_failed Error.list_failed api.definitions) _ h1 in
    let (m, hm, h3) = >>=-eq-ok (find_definition api x (api.kind_of mg) group items) _ h2 in
    let (res, hr, h4) =
      >>=-eq-ok (or_failed Error.undecodable_resource (api.decode_resource m.1)) _ h3 in
    let (configured, hc, h5) = >>=-eq-ok (process_configuration_ref api x mg _) _ h4 in
    let (info', hj, h6) =
      >>=-eq-ok (resolve_jq_refs api (api.namespace_of m.2) configured.0) _ h5 in
    subst (λ i. InlineInfo api (api.namespace_of m.2) i) (ap (λ p. p.0) (ok-injective h6))
      (resolved api (api.namespace_of m.2) configured.0 info' hj)

own_part :
    (api : Api) (own : Text) (parts : List Text) (src : Text)
    → is_empty own ≡ false
    → fetch_config_map api own parts ≡ ok src
    → (name : Text) × (key : Text) × (parts ≡ own ∷ name ∷ key ∷ [])
      × (api.config_map_key own name key ≡ some src)
own_part api own [] src e h = absurd (err-ne-ok h)
own_part api own (a ∷ []) src e h = absurd (err-ne-ok h)
own_part api own (a ∷ b ∷ []) src e h = absurd (err-ne-ok h)
own_part api own (a ∷ b ∷ c ∷ d ∷ parts) src e h = absurd (err-ne-ok h)
own_part api own (ns ∷ name ∷ key ∷ []) src e h =
    go (is_empty ns || (is_empty name || is_empty key)) (is_empty own) (text_eq ns own) e refl h
  where
    read : (o : Option Text) → or_failed Error.module_failed o ≡ ok src → o ≡ some src
    read none h = absurd (err-ne-ok h)
    read (some s) h = ap some (ok-injective h)

    go :
        (a b c : Bool)
        → b ≡ false
        → text_eq ns own ≡ c
        → (if a
            then err Error.bad_module_ref
            else if not b && not c
            then err Error.other_namespace
            else or_failed Error.module_failed (api.config_map_key ns name key))
          ≡ ok src
        → (n : Text) × (k : Text) × (ns ∷ name ∷ key ∷ [] ≡ own ∷ n ∷ k ∷ [])
          × (api.config_map_key own n k ≡ some src)
    go true b c eb ec h = absurd (err-ne-ok h)
    go false true c eb ec h = cc
    go false false false eb ec h = absurd (err-ne-ok h)
    go false false true eb ec h =
        let same = (text_eq_iff ns own).0 ec in
        (
          name,
          key,
          ap (λ n. n ∷ name ∷ key ∷ []) same,
          subst (λ n. api.config_map_key n name key ≡ some src) same
              (read (api.config_map_key ns name key) h),
        )

-- A module that is fetched for a definition in a namespace, and not by HTTP, is read of a ConfigMap in
-- that namespace, whose name and key the reference gives.
pub fetch-own_namespace :
    (api : Api) (ref own src : Text)
    → fetch api ref own ≡ ok src
    → is_http ref ≡ false
    → is_empty own ≡ false
    → (name : Text) × (key : Text) × (split_slash (drop (length config_map_scheme) ref)
        ≡ own ∷ name ∷ key ∷ [])
      × (api.config_map_key own name key ≡ some src)
unfolding fetch
fetch-own_namespace api ref own src h not_http e =
    go (is_http ref) (starts_with config_map_scheme ref) not_http h
  where
    go :
        (a b : Bool)
        → a ≡ false
        → (if a
            then or_failed Error.module_failed (api.download ref)
            else if b
            then fetch_config_map api own (split_slash (drop (length config_map_scheme) ref))
            else err Error.bad_module_ref)
          ≡ ok src
        → (name : Text) × (key : Text) × (split_slash (drop (length config_map_scheme) ref)
            ≡ own ∷ name ∷ key ∷ [])
          × (api.config_map_key own name key ≡ some src)
    go true b ea h = cc
    go false false ea h = absurd (err-ne-ok h)
    go false true ea h =
        own_part api own (split_slash (drop (length config_map_scheme) ref)) src e h
