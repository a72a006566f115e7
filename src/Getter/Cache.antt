-- ===== src/Getter/Cache.antt =====
-- internal/tools/jqmodule/jqmodule.go: the cache of a Resolver, and Fetch.
pub mod Recent
use krateo_rest_dynamic_cont.Base.{
  ℕ, ◌*◌, ◌-◌, ltb, Bool, List, ◌∷◌, ◌++◌, Option, none, some, if◌then◌else◌, Text, lookup, insert,
  Result, ok, err,
}
use krateo_rest_dynamic_cont.Async.{second}
use krateo_rest_dynamic_cont.Getter.{Api}
use krateo_rest_dynamic_cont.Getter.Modules.{fetch}

abbrev pub default_ttl : ℕ
default_ttl = 300 * second

abbrev pub negative_ttl : ℕ
negative_ttl = 30 * second

-- `cacheEntry`: the data or the error, and when it was fetched.
pub record CacheEntry : Type 0 where
  pub outcome : Result Text
  pub fetched_at : ℕ

abbrev pub Cache : Type 0
Cache = List (Text × CacheEntry)

-- A call of Fetch: its arguments, the world that it would fetch from, and what the clock says before
-- and behind that.
pub record Call : Type 0 where
  pub ref : Text
  pub own : Text
  pub api : Api
  pub asked_at : ℕ
  pub done_at : ℕ

unfoldable pub module_key : Text → Text → Text
module_key own ref = own ++ 0 ∷ ref

-- A failure is kept for a shorter time.
unfoldable pub ttl_of : Result Text → ℕ
ttl_of (ok src) = default_ttl
ttl_of (err e) = negative_ttl

-- An entry is fresh also where the clock was set back behind it.
unfoldable pub is_fresh : ℕ → CacheEntry → Bool
is_fresh now e = ltb (now - e.fetched_at) (ttl_of e.outcome)

-- The outcome of a fetch is kept, be it data or an error.
unfoldable pub keep : Call → Cache → Cache
keep c cache =
    insert (module_key c.own c.ref)
      (record { outcome = fetch c.api c.ref c.own; fetched_at = c.done_at }) cache

abbrev pub fetch_and_keep : Call → Cache → Result Text × Cache
fetch_and_keep c cache = (fetch c.api c.ref c.own, keep c cache)

abbrev pub answer_from : Call → Cache → Option CacheEntry → Result Text × Cache
answer_from c cache none = fetch_and_keep c cache
answer_from c cache (some e) =
    if is_fresh c.asked_at e then (e.outcome, cache) else fetch_and_keep c cache

-- `Fetch`, with the cache that it leaves.
unfoldable pub fetch_module : Call → Cache → Result Text × Cache
fetch_module c cache = answer_from c cache (lookup (module_key c.own c.ref) cache)
