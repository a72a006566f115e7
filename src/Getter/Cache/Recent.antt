-- ===== src/Getter/Cache/Recent.antt =====
-- internal/tools/jqmodule/jqmodule.go: how old the answers of Fetch are.
use mathlib.Core.List.{Memᴰ}
use native.Mathlib.Omega.{arith}
use krateo_rest_dynamic_cont.Base.{
  ◌≡◌, ◌⊎◌, inl, inr, refl, sym, ap, ◌∙◌, subst, ℕ, ◌+◌, ◌<◌, Bool, true, false, List, [], ◌∷◌,
  Option, none, some, some-injective, if◌then◌else◌, Text, text_eq, text_eq_iff, contains_byte, cut,
  lookup, lookup-insert, Result, ltb→lt, ◌-◌,
}
use krateo_rest_dynamic_cont.Getter.Modules.{fetch}
use krateo_rest_dynamic_cont.Getter.Cache.{
  CacheEntry, Cache, Call, module_key, ttl_of, is_fresh, keep, fetch_and_keep, answer_from,
  fetch_module,
}

-- A namespace has no byte 0.
abbrev pub IsNamespace : Text → Type 0
IsNamespace own = contains_byte own 0 ≡ false

-- The caches that fetches leave, with the fetches, the last one first. Between the look of one call
-- into the cache and its own fetch others may have kept theirs, so a fetch is kept at any time.
pub data History : List Call → Cache → Type 0 where
  created : History [] []
  kept :
      (log : List Call) (cache : Cache) (c : Call)
      → IsNamespace c.own
      → History log cache
      → History (c ∷ log) (keep c cache)

cut-module_key : (own ref : Text) → IsNamespace own → cut (module_key own ref) 0 ≡ some (own, ref)
unfolding module_key cut contains_byte
cut-module_key [] ref h = refl
cut-module_key (a ∷ own) ref h = ground (arith, cut-module_key own ref)

module_key-injective :
    (a b r s : Text)
    → IsNamespace a
    → IsNamespace b
    → module_key a r ≡ module_key b s
    → (a ≡ b) × (r ≡ s)
module_key-injective a b r s ha hb e =
    let same : (a, r) ≡ (b, s) =
      some-injective (sym (cut-module_key a r ha) ∙ ap (λ k. cut k 0) e ∙ cut-module_key b s hb) in
    (ap (λ p. p.0) same, ap (λ p. p.1) same)

-- What stands in the cache was fetched.
abbrev Fetched : List Call → Text → CacheEntry → Type 0
Fetched log k e =
    (d : Call) × Memᴰ d log
    × IsNamespace d.own
    × (k ≡ module_key d.own d.ref)
    × (e ≡ record { outcome = fetch d.api d.ref d.own; fetched_at = d.done_at })

nothing : (k : Text) {e : CacheEntry} → lookup k [] ≡ some e → ⊥
unfolding lookup
nothing k h = cc

lookup-Fetched :
    (log : List Call) (cache : Cache) (k : Text) (e : CacheEntry)
    → History log cache
    → lookup k cache ≡ some e
    → Fetched log k e
unfolding keep
lookup-Fetched _ _ k e History.created h = absurd (nothing k h)
lookup-Fetched _ _ k e (History.kept log cache c hc before) h =
    go (text_eq (module_key c.own c.ref) k) refl (lookup-Fetched log cache k e before)
      (sym (lookup-insert (module_key c.own c.ref) k _ cache) ∙ h)
  where
    go :
        (b : Bool)
        → text_eq (module_key c.own c.ref) k ≡ b
        → (lookup k cache ≡ some e → Fetched log k e)
        → (if b
            then some (record { outcome = fetch c.api c.ref c.own; fetched_at = c.done_at })
            else lookup k cache)
          ≡ some e
        → Fetched (c ∷ log) k e
    go true same earlier h =
        (c, Memᴰ.head refl, hc, sym ((text_eq_iff _ _).0 same), sym (some-injective h))
    go false other earlier h = let (d, m, hd, hk, he) = earlier h in (d, Memᴰ.tail m, hd, hk, he)

fresh_bound :
    (now at : ℕ) (r : Result Text)
    → is_fresh now (record { outcome = r; fetched_at = at }) ≡ true
    → now < at + ttl_of r
unfolding is_fresh
fresh_bound now at r h = let less = ltb→lt (now - at) (ttl_of r) h in omega arith

-- What a call c of Fetch answers and leaves: what it fetched itself and keeps, or what an earlier call
-- for the same reference and namespace fetched, so long ago at most as it is kept.
abbrev pub IsRecent : List Call → Cache → Call → Result Text × Cache → Type 0
IsRecent log cache c r =
    (r ≡ (fetch c.api c.ref c.own, keep c cache))
    ⊎ ((d : Call) × Memᴰ d log
        × (d.ref ≡ c.ref)
        × (d.own ≡ c.own)
        × (r ≡ (fetch d.api d.ref d.own, cache))
        × (c.asked_at < d.done_at + ttl_of (fetch d.api d.ref d.own)))

module _ (log : List Call) (cache : Cache) (c : Call) (before : History log cache)
    (hc : IsNamespace c.own) where
  entry-IsRecent :
      (e : CacheEntry) (b : Bool)
      → is_fresh c.asked_at e ≡ b
      → Fetched log (module_key c.own c.ref) e
      → IsRecent log cache c (if b then (e.outcome, cache) else fetch_and_keep c cache)
  entry-IsRecent e false hb f = inl refl
  entry-IsRecent e true hb (d, m, hd, hk, he) =
      let (owns, refs) = module_key-injective c.own d.own c.ref d.ref hc hd hk in
      inr (
        d,
        m,
        sym refs,
        sym owns,
        ap (λ e. (e.outcome, cache)) he,
        fresh_bound c.asked_at d.done_at (fetch d.api d.ref d.own)
            (subst (λ e. is_fresh c.asked_at e ≡ true) he hb),
      )

  answer_from-IsRecent :
      (o : Option CacheEntry)
      → lookup (module_key c.own c.ref) cache ≡ o
      → IsRecent log cache c (answer_from c cache o)
  answer_from-IsRecent none h = inl refl
  answer_from-IsRecent (some e) h =
      entry-IsRecent e (is_fresh c.asked_at e) refl
        (lookup-Fetched log cache (module_key c.own c.ref) e before h)

-- What a call of Fetch answers was fetched for the same reference and the same namespace: either by
-- this call, which keeps it in the cache, or by an earlier one whose outcome it still is, less than
-- five minutes, or for a failure thirty seconds, before this call looked at the clock. This holds of
-- the cache that fetches have left in any order, where no namespace has a byte 0.
pub fetch_module-IsRecent :
    (log : List Call) (cache : Cache) (c : Call)
    → History log cache
    → IsNamespace c.own
    → IsRecent log cache c (fetch_module c cache)
unfolding fetch_module
fetch_module-IsRecent log cache c before hc =
    answer_from-IsRecent log cache c before hc (lookup (module_key c.own c.ref) cache) refl
