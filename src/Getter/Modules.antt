-- ===== src/Getter/Modules.antt =====
-- internal/tools/jqmodule/jqmodule.go: the fetching of a jq module, less the cache.
use krateo_rest_dynamic_cont.Base.{
  ℕ, ◌==◌, Bool, not, ◌&&◌, ◌||◌, List, [], ◌∷◌, drop, length, Option, none, some, if◌then◌else◌,
  Text, codes, text_eq, is_empty, Error, Result, ok, err,
}
use krateo_rest_dynamic_cont.Rest.Params.{starts_with}
use krateo_rest_dynamic_cont.Getter.{Api}

abbrev pub config_map_scheme : Text
config_map_scheme = codes "configmap://"

abbrev cons_part : ℕ → List Text → List Text
cons_part c [] = (c ∷ []) ∷ []
cons_part c (p ∷ ps) = (c ∷ p) ∷ ps

-- `strings.Split(s, "/")`
unfoldable pub split_slash : Text → List Text
split_slash [] = [] ∷ []
split_slash (c ∷ s) = let rest = split_slash s in if c == b'/' then [] ∷ rest else cons_part c rest

abbrev pub or_failed {ℓ} : {A : Type ℓ} → Error → Option A → Result A
or_failed e none = err e
or_failed e (some a) = ok a

-- A module in a ConfigMap, which must be in the definition's own namespace where that is known.
abbrev pub fetch_config_map : Api → Text → List Text → Result Text
fetch_config_map api own (ns ∷ name ∷ key ∷ []) =
    if is_empty ns || (is_empty name || is_empty key)
    then err Error.bad_module_ref
    else if not (is_empty own) && not (text_eq ns own)
    then err Error.other_namespace
    else or_failed Error.module_failed (api.config_map_key ns name key)
fetch_config_map api own parts = err Error.bad_module_ref

abbrev pub is_http : Text → Bool
is_http ref = starts_with (codes "http://") ref || starts_with (codes "https://") ref

-- `fetch`
unfoldable pub fetch : Api → Text → Text → Result Text
fetch api ref own =
    if is_http ref
    then or_failed Error.module_failed (api.download ref)
    else if starts_with config_map_scheme ref
    then fetch_config_map api own (split_slash (drop (length config_map_scheme) ref))
    else err Error.bad_module_ref
