-- ===== src/Lru/Tests.antt =====
-- The caches on concrete accesses.
use quantlineage.Prelude.{ℕ, ◌≤◌, String, ◌≡◌, refl, ◌⊎◌, false, none, some, List, [], ◌∷◌, true}
use quantlineage.Prelude.Dict
use quantlineage.Prelude.Call.{ok}
use quantlineage.Lru
use quantlineage.Lru.{Cache, move_to_end, evict}
use quantlineage.Lru.Recency.{keys, last_used}
use quantlineage.Lru.Bounded.{fetch, fetch_all, HoldsLast, keeps_most_recent, stats_add_up}
use quantlineage.Lru.Engine.{
  begin_value, finish_value, Reach, here, next, ended, began, cached_value_priced, Digests,
  PricedAs, key,
}

abbrev empty_cache : Cache ℕ
empty_cache = record { maxsize = 2; entries = []; hits = 0; misses = 0 }

abbrev accesses : List (String × ℕ)
accesses = ("a", 1) ∷ ("b", 2) ∷ ("a", 1) ∷ ("c", 3) ∷ []

-- The third access renews `a`, so `b` is evicted.
fetch_all-keys : keys (fetch_all accesses empty_cache).entries ≡ "a" ∷ "c" ∷ []
unfolding fetch_all fetch Lru.get Lru.put move_to_end evict Dict.get Dict.put Dict.remove
fetch_all-keys = refl

keeps_most_recent_example :
    HoldsLast (last_used [] ("a" ∷ "b" ∷ "a" ∷ "c" ∷ [])) (fetch_all accesses empty_cache)
unfolding Lru.new_cache
keeps_most_recent_example = keeps_most_recent 2 empty_cache accesses refl

stats_add_up_example :
    let st = Lru.stats (fetch_all accesses empty_cache) in (Lru.requests st ≡ 4) × (st.size ≤ 2)
unfolding Lru.new_cache
stats_add_up_example = stats_add_up 2 empty_cache accesses refl

-- Positions and snapshots are names, and a position is worth its name.
abbrev price : String → String → String
price p m = p

abbrev digests : Digests String String
digests = record {
  trade_cache_key = λ p. p;
  content_hash = λ m. m;
  calendar_as_of = λ m. some "2026-01-02";
  fingerprint = "flat";
}

abbrev priced_cache : Cache String
priced_cache = record { maxsize = 1; entries = []; hits = 0; misses = 0 }

after_two : Cache String
after_two =
    (finish_value price digests "bond" "eod"
      (begin_value price digests false "bond" (some "eod") priced_cache).1).1

after_two-Reach : Reach price digests priced_cache after_two
unfolding after_two
after_two-Reach =
    next (next here (began false "bond" (some "eod") priced_cache))
      (ended "bond" "eod" (begin_value price digests false "bond" (some "eod") priced_cache).1)

cached_value_priced_example :
    (((begin_value price digests false "bond" (some "eod") after_two).0 ≡ ok none)
      ⊎ ((v : String) × ((begin_value price digests false "bond" (some "eod") after_two).0
            ≡ ok (some v))
          × PricedAs price digests (key price digests "bond" "eod") v))
    × PricedAs price digests
        (key price digests "bond" "eod")
        (finish_value price digests "bond" "eod" after_two).0
    × ((begin_value price digests true "bond" (some "eod") after_two).0 ≡ ok (some "bond"))
cached_value_priced_example =
    cached_value_priced price digests priced_cache after_two "bond" "eod" refl after_two-Reach
