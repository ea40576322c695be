-- ===== src/Ids/Cache/Fresh.antt =====
-- The shared reads: reads before and after a write, and reads close together.
use networkat_cloud_web_app.Prelude.{
  ℕ, ◌+◌, ◌-◌, ◌≡◌, ◌≤◌, ◌<◌, refl, sym, ◌∙◌, ap, Bool, true, false, some, List, [], ◌∷◌, ltb, ◌==◌,
  All, arith, Option-cases, Bool-cases, inl, inr,
}
use networkat_cloud_web_app.Prelude.Text.{Text, text_eq}
use networkat_cloud_web_app.Prelude.Text.Laws.{text_eq_refl}
use networkat_cloud_web_app.Firewall.Order.Laws.{some-injective}
use networkat_cloud_web_app.Ids.Cache.{
  CacheEntry, Cache, cache_ms, lookup, without, cached, promise_failed, bust, request_settled,
}

-- Every promise in the cache, and every later one, has at least this number.
pub record IsSince (n : ℕ) (c : Cache) : Type 0 where
  pub entries : All (λ (e : CacheEntry). n ≤ e.promise) c.entries
  pub next : n ≤ c.next

lookup-since :
    (n : ℕ) (key : Text) (es : List CacheEntry) (hit : CacheEntry)
    → All (λ (e : CacheEntry). n ≤ e.promise) es
    → lookup key es ≡ some hit
    → n ≤ hit.promise
lookup-since n key [] hit a h = cc
lookup-since n key (e ∷ es) hit (p, a) h = elim (Bool-cases (text_eq e.key key)) [
  | inl same ↦
      let is_hit : e ≡ hit = some-injective (rw (lookup, same) at h) in
      omega (arith, p, ap (λ q. q.promise) is_hit)
  | inr other ↦ lookup-since n key es hit a (rw (lookup, other) at h)
]

without-since :
    (n : ℕ) (key : Text) (es : List CacheEntry)
    → All (λ (e : CacheEntry). n ≤ e.promise) es
    → All (λ (e : CacheEntry). n ≤ e.promise) (without key es)
without-since n key [] a = tt
without-since n key (e ∷ es) (p, a) = elim (Bool-cases (text_eq e.key key)) [
  | inl same ↦ rw (without, same) (without-since n key es a)
  | inr other ↦ rw (without, other) (p, without-since n key es a)
]

cached-IsSince :
    (n : ℕ) (key : Text) (now : ℕ) (c : Cache)
    → IsSince n c
    → (n ≤ (cached key now c).0) × IsSince n (cached key now c).1
unfolding cached
cached-IsSince n key now c s = elim (Option-cases (lookup key c.entries)) [
  | inl missing ↦ rw (cached, missing) (s.next, fetched)
  | inr (hit, found) ↦ elim (Bool-cases (ltb (now - hit.at) cache_ms)) [
    | inl young ↦ rw (cached, found, young) (lookup-since n key c.entries hit s.entries found, s)
    | inr old ↦ rw (cached, found, old) (s.next, fetched)
  ]
]
  where
    fetched : IsSince n (record {
      entries = record { key = key; at = now; promise = c.next } ∷ without key c.entries;
      next = c.next + 1;
    })
    fetched = record {
      entries = (s.next, without-since n key c.entries s.entries);
      next = omega (arith, s.next);
    }

promise_failed-IsSince :
    (n : ℕ) (e : CacheEntry) (c : Cache) → IsSince n c → IsSince n (promise_failed e c)
unfolding promise_failed
promise_failed-IsSince n e c s = elim (Option-cases (lookup e.key c.entries)) [
  | inl missing ↦ rw (promise_failed, missing) s
  | inr (hit, found) ↦ elim (Bool-cases (hit.promise == e.promise)) [
    | inl same ↦
        rw (promise_failed, found, same)
          (record { entries = without-since n e.key c.entries s.entries; next = s.next })
    | inr other ↦ rw (promise_failed, found, other) s
  ]
]

-- What happens to the cache: a read, a promise that fails, a request that is settled.
pub data CacheEvent : Type 0 where
  read : Text → ℕ → CacheEvent
  failure : CacheEntry → CacheEvent
  settled : Bool → CacheEvent

abbrev pub cache_after : CacheEvent → Cache → Cache
cache_after (read key now) c = (cached key now c).1
cache_after (failure e) c = promise_failed e c
cache_after (settled is_get) c = request_settled is_get c

abbrev pub cache_after_all : List CacheEvent → Cache → Cache
cache_after_all [] c = c
cache_after_all (v ∷ vs) c = cache_after_all vs (cache_after v c)

cache_after-IsSince :
    (n : ℕ) (v : CacheEvent) (c : Cache) → IsSince n c → IsSince n (cache_after v c)
unfolding request_settled bust
cache_after-IsSince n (read key now) c s = (cached-IsSince n key now c s).1
cache_after-IsSince n (failure e) c s = promise_failed-IsSince n e c s
cache_after-IsSince n (settled true) c s = s
cache_after-IsSince n (settled false) c s = record { entries = tt; next = s.next }

cache_after_all-IsSince :
    (n : ℕ) (vs : List CacheEvent) (c : Cache) → IsSince n c → IsSince n (cache_after_all vs c)
cache_after_all-IsSince n [] c s = s
cache_after_all-IsSince n (v ∷ vs) c s =
    cache_after_all-IsSince n vs (cache_after v c) (cache_after-IsSince n v c s)

-- Once a write is settled, a read is answered by a request that was made after that, whatever reads,
-- failures and other requests come in between.
pub cached-fresh :
    (c : Cache) (vs : List CacheEvent) (key : Text) (now : ℕ)
    → c.next ≤ (cached key now (cache_after_all vs (request_settled false c))).0
unfolding request_settled bust
cached-fresh c vs key now =
    let cleared : Cache = record c { entries = [] } in
    let start : IsSince c.next cleared = record { entries = tt; next = omega arith } in
    (cached-IsSince c.next key now (cache_after_all vs cleared)
      (cache_after_all-IsSince c.next vs cleared start)).0

fetched_cache : Text → ℕ → Cache → Cache
fetched_cache key now c = record {
  entries = record { key = key; at = now; promise = c.next } ∷ without key c.entries;
  next = c.next + 1;
}

cached-fetches :
    (key : Text) (now : ℕ) (c : Cache)
    → (cached key now c).1.next ≡ c.next + 1
    → cached key now c ≡ (c.next, fetched_cache key now c)
unfolding cached fetched_cache
cached-fetches key now c made = elim (Option-cases (lookup key c.entries)) [
  | inl missing ↦ rw (cached, missing) refl
  | inr (hit, found) ↦ elim (Bool-cases (ltb (now - hit.at) cache_ms)) [
    | inl young ↦
        let kept : c.next ≡ c.next + 1 = rw (cached, found, young) at made in
        absurd (omega (arith, kept))
    | inr old ↦ rw (cached, found, old) refl
  ]
]

cached-again :
    (key : Text) (now later : ℕ) (c : Cache)
    → later < now + cache_ms
    → cached key later (fetched_cache key now c) ≡ (c.next, fetched_cache key now c)
unfolding cached fetched_cache
cached-again key now later c soon =
    let young : ltb (later - now) cache_ms ≡ true = ground (arith, soon) in
    rw (cached, text_eq_refl key, young) refl

-- A read that makes a request is shared: within ten seconds another read with its key waits for the
-- same promise and makes no request.
pub cached-shared :
    (key : Text) (now later : ℕ) (c : Cache)
    → (cached key now c).1.next ≡ c.next + 1
    → later < now + cache_ms
    → cached key later (cached key now c).1 ≡ (c.next, (cached key now c).1)
cached-shared key now later c made soon =
    ap (λ r. cached key later r.1) (cached-fetches key now c made)
    ∙ cached-again key now later c soon
    ∙ ap (λ r. (c.next, r.1)) (sym (cached-fetches key now c made))
