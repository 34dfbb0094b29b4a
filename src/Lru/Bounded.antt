-- ===== src/Lru/Bounded.antt =====
-- What a lookup followed, on a miss, by a store leaves in the cache.
use quantlineage.Prelude.{
  ℕ, suc, ◌+◌, ◌≤◌, String, ◌≡◌, refl, ◌⊎◌, inl, inr, true, false, none, some, List, [], ◌∷◌, ◌++◌,
  arith, ap, sym, subst, ◌∙◌, ltb, length, length-append, Bool-cases, Option-cases, is_some,
}
use mathlib.Core.List.{append_assoc}
use quantlineage.Prelude.Dict
use quantlineage.Prelude.Dict.{Dict}
use quantlineage.Prelude.Call.{ok}
use quantlineage.Lru.{Cache, move_to_end, evict}
use quantlineage.Lru
use quantlineage.Lru.Recency.{
  keys, without, use_key, last_used, mem, Unique, Unique-use_key, without-append_right, mem_left,
  without_before, length-without, keys-append, keys-remove, mem-keys, remove_last, length-keys,
  evict_fits, evict_one,
}

module _ {V : Type 0} where
  -- A lookup, and on a miss the computed value stored.
  unfoldable pub fetch : String → V → Cache V → V × Cache V
  fetch k computed c =
      let (found, c') = Lru.get k c in
      elim found [ some v ↦ (v, c') | none ↦ Lru.put k computed c' ]

  -- The keys are the last of `used`, and all of them unless the cache is full.
  pub record HoldsLast (used : List String) (c : Cache V) : Type 0 where
    pub older : List String
    pub split : used ≡ older ++ keys c.entries
    pub fits : length (keys c.entries) ≤ c.maxsize
    pub full : (older ≡ []) ⊎ (length (keys c.entries) ≡ c.maxsize)

  hit_keys : (k : String) (v : V) (d : Dict V) → keys (move_to_end k v d) ≡ use_key (keys d) k
  unfolding move_to_end
  hit_keys k v d =
      keys-append (Dict.remove k d) ((k, v) ∷ []) ∙ ap (λ l. l ++ k ∷ []) (keys-remove k d)

  miss_entries :
      (k : String) (v : V) (d : Dict V)
      → Dict.get k d ≡ none
      → move_to_end k v (Dict.put k v d) ≡ d ++ (k, v) ∷ []
  unfolding move_to_end
  miss_entries k v d h = rw (Dict.get_new k v d h) (rw (remove_last k v d h))

  hit_split :
      (used : List String) (k : String) (v : V) (d : Dict V) (old : List String)
      → Unique used
      → used ≡ old ++ keys d
      → mem k (keys d) ≡ true
      → use_key used k ≡ old ++ keys (move_to_end k v d)
  hit_split used k v d old u e h =
      let u' : Unique (old ++ keys d) = subst Unique e u in
      rw (e, hit_keys k v d)
        (rw (without-append_right k old (keys d) (mem_left k old (keys d) u' h))
          (append_assoc old (without k (keys d)) (k ∷ [])))

  hit_length :
      (k : String) (v : V) (d : Dict V)
      → mem k (keys d) ≡ true
      → length (keys (move_to_end k v d)) ≡ length (keys d)
  hit_length k v d h =
      rw (hit_keys k v d)
        (omega (arith, length-append (without k (keys d)) (k ∷ []), length-without k (keys d) h))

  miss_split :
      (used : List String) (k : String) (v : V) (d : Dict V) (old : List String)
      → used ≡ old ++ keys d
      → mem k (keys d) ≡ false
      → use_key used k ≡ without k old ++ keys (d ++ (k, v) ∷ [])
  miss_split used k v d old e h =
      rw (e, keys-append d ((k, v) ∷ []))
        (rw (without_before k old (keys d) h) (append_assoc (without k old) (keys d) (k ∷ [])))

  hit_HoldsLast :
      (used : List String) (k : String) (v : V) (c : Cache V)
      → Unique used
      → Dict.get k c.entries ≡ some v
      → HoldsLast used c
      → HoldsLast
          (use_key used k)
          (record c { entries = move_to_end k v c.entries; hits = c.hits + 1 })
  hit_HoldsLast used k v c u found h =
      let there : mem k (keys c.entries) ≡ true = mem-keys k c.entries ∙ ap is_some found in
      let same = hit_length k v c.entries there in
      record {
        older = h.older;
        split = hit_split used k v c.entries h.older u h.split there;
        fits = rw same h.fits;
        full = rw same h.full;
      }

  miss_HoldsLast :
      (used : List String) (k : String) (v : V) (c : Cache V) (misses : ℕ)
      → Dict.get k c.entries ≡ none
      → HoldsLast used c
      → HoldsLast
          (use_key used k)
          (record c { entries = evict c.maxsize (c.entries ++ (k, v) ∷ []); misses = misses })
  miss_HoldsLast used k v c misses new h = room (Bool-cases (ltb (length c.entries) c.maxsize))
    where
      absent : mem k (keys c.entries) ≡ false
      absent = mem-keys k c.entries ∙ ap is_some new

      size : length (c.entries ++ (k, v) ∷ []) ≡ suc (length c.entries)
      size = omega (arith, length-append c.entries ((k, v) ∷ []))

      split : use_key used k ≡ without k h.older ++ keys (c.entries ++ (k, v) ∷ [])
      split = miss_split used k v c.entries h.older h.split absent

      none_older : ltb (length c.entries) c.maxsize ≡ true → without k h.older ≡ []
      none_older less = elim h.full [
        | inl e ↦ ap (without k) e
        | inr e ↦ absurd (ground (arith, length-keys c.entries))
      ]

      room :
          ((ltb (length c.entries) c.maxsize) ≡ true) ⊎ ((ltb (length c.entries) c.maxsize) ≡ false)
          → HoldsLast
              (use_key used k)
              (record c { entries = evict c.maxsize (c.entries ++ (k, v) ∷ []); misses = misses })
      room (inl less) =
          let fits_all = evict_fits c.maxsize (c.entries ++ (k, v) ∷ []) (ground (arith, size)) in
          record {
            older = without k h.older;
            split = rw fits_all split;
            fits = rw fits_all (ground (arith, size, length-keys (c.entries ++ (k, v) ∷ [])));
            full = inl (none_older (less));
          }
      room (inr full) =
          let (x, oldest, left) =
            evict_one c.maxsize (c.entries ++ (k, v) ∷ [])
              (ground (arith, size, h.fits, length-keys c.entries)) in
          let kept = evict c.maxsize (c.entries ++ (k, v) ∷ []) in
          let count : length (keys kept) ≡ c.maxsize = length-keys kept ∙ left in
          record {
            older = without k h.older ++ x ∷ [];
            split =
                split
                ∙ ap (λ l. without k h.older ++ l) oldest
                ∙ sym (append_assoc (without k h.older) (x ∷ []) (keys kept));
            fits = omega (arith, count);
            full = inr count;
          }

  pub fetch_hit :
      (k : String) (v w : V) (c : Cache V)
      → Dict.get k c.entries ≡ some w
      → fetch k v c ≡ (w, record c { entries = move_to_end k w c.entries; hits = c.hits + 1 })
  unfolding fetch Lru.get
  fetch_hit k v w c found = ground arith

  pub fetch_miss :
      (k : String) (v : V) (c : Cache V)
      → Dict.get k c.entries ≡ none
      → fetch k v c ≡ (
        v,
        record c { entries = evict c.maxsize (c.entries ++ (k, v) ∷ []); misses = c.misses + 1 },
      )
  unfolding fetch Lru.get Lru.put
  fetch_miss k v c new = ground (arith, miss_entries k v c.entries new)

  -- One access moves its key to the end of the order of last use.
  fetch-HoldsLast :
      (used : List String) (k : String) (v : V) (c : Cache V)
      → Unique used
      → HoldsLast used c
      → HoldsLast (use_key used k) (fetch k v c).1
  fetch-HoldsLast used k v c u h = elim (Option-cases (Dict.get k c.entries)) [
    | inl new ↦ rw (fetch_miss k v c new) (miss_HoldsLast used k v c (c.misses + 1) new h)
    | inr (w, found) ↦ rw (fetch_hit k v w c found) (hit_HoldsLast used k w c u found h)
  ]

  -- A sequence of accesses, each with the value that is computed if the key is missing.
  unfoldable pub fetch_all : List (String × V) → Cache V → Cache V
  fetch_all [] c = c
  fetch_all ((k, v) ∷ rest) c = fetch_all rest (fetch k v c).1

  fetch_all-HoldsLast :
      (accesses : List (String × V)) (used : List String) (c : Cache V)
      → Unique used
      → HoldsLast used c
      → HoldsLast (last_used used (keys accesses)) (fetch_all accesses c)
  unfolding fetch_all last_used
  fetch_all-HoldsLast [] used c u h = h
  fetch_all-HoldsLast ((k, v) ∷ rest) used c u h =
      fetch_all-HoldsLast rest (use_key used k) (fetch k v c).1 (Unique-use_key k used u)
        (fetch-HoldsLast used k v c u h)

  -- After any accesses to a new cache its keys are the keys that were used last, in the order of
  -- their last use: all the keys ever used, or as many as the cache holds.
  pub keeps_most_recent :
      (maxsize : ℕ) (c : Cache V) (accesses : List (String × V))
      → Lru.new_cache maxsize ≡ ok c
      → HoldsLast (last_used [] (keys accesses)) (fetch_all accesses c)
  unfolding Lru.new_cache
  keeps_most_recent maxsize c accesses made =
      let empty : c.entries ≡ [] = ground arith in
      fetch_all-HoldsLast accesses [] c tt
        (record { older = []; split = rw empty; fits = rw empty (omega arith); full = inl refl })

  fetch-maxsize : (k : String) (v : V) (c : Cache V) → (fetch k v c).1.maxsize ≡ c.maxsize
  unfolding fetch Lru.get Lru.put
  fetch-maxsize k v c = ground arith

  requests-fetch :
      (k : String) (v : V) (c : Cache V)
      → Lru.requests (Lru.stats (fetch k v c).1) ≡ suc (Lru.requests (Lru.stats c))
  unfolding fetch Lru.get Lru.put Lru.requests Lru.stats
  requests-fetch k v c = ground arith

  requests-fetch_all :
      (accesses : List (String × V)) (c : Cache V)
      → Lru.requests (Lru.stats (fetch_all accesses c))
        ≡ Lru.requests (Lru.stats c) + length accesses
  unfolding fetch_all
  requests-fetch_all [] c = omega arith
  requests-fetch_all ((k, v) ∷ rest) c =
      omega (arith, requests-fetch_all rest (fetch k v c).1, requests-fetch k v c)

  maxsize-fetch_all :
      (accesses : List (String × V)) (c : Cache V) → (fetch_all accesses c).maxsize ≡ c.maxsize
  unfolding fetch_all
  maxsize-fetch_all [] c = refl
  maxsize-fetch_all ((k, v) ∷ rest) c = maxsize-fetch_all rest (fetch k v c).1 ∙ fetch-maxsize k v c

  new_requests :
      (maxsize : ℕ) (c : Cache V) → Lru.new_cache maxsize ≡ ok c → Lru.requests (Lru.stats c) ≡ 0
  unfolding Lru.new_cache Lru.requests Lru.stats
  new_requests maxsize c made = ground arith

  new_maxsize : (maxsize : ℕ) (c : Cache V) → Lru.new_cache maxsize ≡ ok c → c.maxsize ≡ maxsize
  unfolding Lru.new_cache
  new_maxsize maxsize c made = ground arith

  -- After any accesses to a new cache its statistics count each access once, as a hit or as a miss,
  -- and its size is within the bound that it was made with.
  pub stats_add_up :
      (maxsize : ℕ) (c : Cache V) (accesses : List (String × V))
      → Lru.new_cache maxsize ≡ ok c
      → let st = Lru.stats (fetch_all accesses c) in
        (Lru.requests st ≡ length accesses) × (st.size ≤ maxsize)
  stats_add_up maxsize c accesses made =
      let c' = fetch_all accesses c in
      let held = keeps_most_recent maxsize c accesses made in
      (
        omega (arith, requests-fetch_all accesses c, new_requests maxsize c made),
        unfold Lru.stats in
            omega (
              arith,
              held.fits,
              length-keys c'.entries,
              maxsize-fetch_all accesses c,
              new_maxsize maxsize c made,
            ),
      )
