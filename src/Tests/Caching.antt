-- ===== src/Tests/Caching.antt =====
-- A jq module that was fetched, and is asked for ten seconds later.
use krateo_rest_dynamic_cont.Base.{contains_byte, refl, ℕ, ◌*◌, [], ◌∷◌, codes}
use krateo_rest_dynamic_cont.Async.{second}
use krateo_rest_dynamic_cont.Getter.Cache.{Cache, Call, keep, fetch_module}
use krateo_rest_dynamic_cont.Getter.Cache.Recent.{History, IsRecent, fetch_module-IsRecent}
use krateo_rest_dynamic_cont.Tests.Granting.{api}

abbrev call_at : ℕ → Call
call_at time = record {
  ref = codes "configmap://ns/jq/gone";
  own = codes "ns";
  api = api;
  asked_at = time * second;
  done_at = time * second;
}

abbrev fetched : Cache
fetched = keep (call_at 20) []

fetch_module-IsRecent_example :
    IsRecent (call_at 20 ∷ []) fetched (call_at 30) (fetch_module (call_at 30) fetched)
unfolding contains_byte
fetch_module-IsRecent_example =
    fetch_module-IsRecent (call_at 20 ∷ []) fetched (call_at 30)
      (History.kept [] [] (call_at 20) refl History.created) refl
