-- ===== src/Ids/Cache.antt =====
-- client/static/js/ids_common.js, `cached`, `bust` and the effect of `request` on them: reads that
-- windows share for a few seconds. A promise is a number; `next` is the number of the next request.
pub mod Fresh
use networkat_cloud_web_app.Prelude.{
  ℕ, ◌+◌, ◌-◌, ◌≡◌, Bool, true, false, not, ◌&&◌, Option, none, some, List, [], ◌∷◌, ltb, ◌==◌,
  if◌then◌else◌,
}
use networkat_cloud_web_app.Prelude.Text.{Text, text_eq}

pub record CacheEntry : Type 0 where
  pub key : Text
  pub at : ℕ
  pub promise : ℕ

pub record Cache : Type 0 where
  pub entries : List CacheEntry
  pub next : ℕ

abbrev pub cache_ms : ℕ
cache_ms = 10000

-- `cache.get(key)`
abbrev pub lookup : Text → List CacheEntry → Option CacheEntry
lookup key [] = none
lookup key (e ∷ es) = if text_eq e.key key then some e else lookup key es

-- `cache.delete(key)`
abbrev pub without : Text → List CacheEntry → List CacheEntry
without key [] = []
without key (e ∷ es) = let rest = without key es in if text_eq e.key key then rest else e ∷ rest

-- A read at the time `now`: the promise it waits for, and the cache after it.
unfoldable pub cached : Text → ℕ → Cache → ℕ × Cache
cached key now c =
    let fetched : Cache = record {
      entries = record { key = key; at = now; promise = c.next } ∷ without key c.entries;
      next = c.next + 1;
    } in
    elim (lookup key c.entries) [
      | none ↦ (c.next, fetched)
      | some hit ↦ if ltb (now - hit.at) cache_ms then (hit.promise, c) else (c.next, fetched)
    ]

-- The promise of an entry fails: the entry goes if it is still the one under its key.
unfoldable pub promise_failed : CacheEntry → Cache → Cache
promise_failed entry c = elim (lookup entry.key c.entries) [
  | none ↦ c
  | some hit ↦
      if hit.promise == entry.promise then record c { entries = without entry.key c.entries } else c
]

unfoldable pub bust : Cache → Cache
bust c = record c { entries = [] }

-- `request`, once its answer is there or the network has failed: a write clears the cache.
unfoldable pub request_settled : Bool → Cache → Cache
request_settled is_get c = if is_get then c else bust c
