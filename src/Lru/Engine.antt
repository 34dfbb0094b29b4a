-- ===== src/Lru/Engine.antt =====
-- `CachedPricingEngine.value` of backend/app/pricing/cache.py: a lookup under the lock, pricing
-- outside it, and a store under the lock again, so other threads may act in between. Positions,
-- snapshots, valuations, the wrapped engine and the digests that make a key are parameters.
use quantlineage.Prelude
use quantlineage.Prelude.{
  All, ℕ, ◌+◌, String, ◌≡◌, refl, Bool, true, false, Option, none, some, List, [], ◌∷◌, ◌++◌, arith,
  ap, sym, ◌∙◌, ◌⊎◌, subst, ◌==◌, eq_iff, ltb, length, if◌then◌else◌, Bool-cases, Option-cases, inl,
  inr,
}
use quantlineage.Prelude.Dict
use quantlineage.Prelude.Text.{concat}
use quantlineage.Prelude.Dict.{Dict}
use quantlineage.Prelude.Call.{Result, ok, err, value_error}
use quantlineage.Lru
use quantlineage.Lru.{Cache, move_to_end, evict}

-- The key of backend/app/pricing/cache.py: the digest of the trade's economics, the snapshot with its
-- calendar date where it has one, and the fingerprint of the configuration.
unfoldable pub market_cache_key : String → Option String → String
market_cache_key content_hash none = concat "market:" content_hash
market_cache_key content_hash (some as_of) =
    concat "market:" (concat content_hash (concat "|as_of:" as_of))

unfoldable pub valuation_cache_key : String → String → String → String
valuation_cache_key trade market fingerprint =
    concat "v2|" (concat trade (concat "|" (concat market (concat "|" fingerprint))))

-- What a key is made of.
pub record Digests (Position Market : Type 0) : Type 0 where
  pub trade_cache_key : Position → String
  pub content_hash : Market → String
  pub calendar_as_of : Market → Option String
  pub fingerprint : String

module _ {Position Market Valuation : Type 0} where
  module _ (price : Position → Market → Valuation) (digests : Digests Position Market) where
    abbrev pub key : Position → Market → String
    key p m =
        valuation_cache_key (digests.trade_cache_key p)
          (market_cache_key (digests.content_hash m) (digests.calendar_as_of m)) digests.fingerprint

    -- `value` up to the end of its first critical section: the answer, or none if it must be
    -- priced.
    unfoldable pub begin_value :
        Bool
        → Position
        → Option Market
        → Cache Valuation
        → Result (Option Valuation) × Cache Valuation
    begin_value bypassed p none c = (err value_error, c)
    begin_value bypassed p (some m) c =
        if bypassed
        then (ok (some (price p m)), c)
        else (let (found, c') = Lru.get (key p m) c in (ok found, c'))

    -- `value` after a miss: pricing, then the second critical section.
    unfoldable pub finish_value : Position → Market → Cache Valuation → Valuation × Cache Valuation
    finish_value p m c = Lru.put (key p m) (price p m) c

    -- What the threads that share an engine do, one critical section at a time.
    pub data Step : Cache Valuation → Cache Valuation → Type 0 where
      began :
          (bypassed : Bool) (p : Position) (m : Option Market) (c : Cache Valuation)
          → Step c (begin_value bypassed p m c).1
      ended : (p : Position) (m : Market) (c : Cache Valuation) → Step c (finish_value p m c).1
      cleared : (c : Cache Valuation) → Step c (Lru.clear_entries c)

    pub data Reach (c : Cache Valuation) : Cache Valuation → Type 0 where
      here : Reach c c
      next : {d e : Cache Valuation} → Reach c d → Step d e → Reach c e

    -- What the engine answered for a position and a snapshot of the key.
    abbrev pub PricedAs : String → Valuation → Type 0
    PricedAs k v = (p : Position) × (m : Market) × (key p m ≡ k) × (v ≡ price p m)

    abbrev Faithful : String × Valuation → Type 0
    Faithful e = PricedAs e.0 e.1

    -- Every entry is an answer of the engine for its key.
    abbrev IsFaithful : Cache Valuation → Type 0
    IsFaithful c = All Faithful c.entries

    evict-Faithful : (n : ℕ) (d : Dict Valuation) → All Faithful d → All Faithful (evict n d)
    unfolding evict
    evict-Faithful n [] h = tt
    evict-Faithful n (e ∷ d) h = elim (Bool-cases (ltb n (length (e ∷ d)))) [
      | inl b ↦ rw b (evict-Faithful n d h.1)
      | inr b ↦ rw b h
    ]

    move_to_end-Faithful :
        (k : String) (v : Valuation) (d : Dict Valuation)
        → Faithful (k, v)
        → All Faithful d
        → All Faithful (move_to_end k v d)
    unfolding move_to_end
    move_to_end-Faithful k v d f h =
        Prelude.All-append Faithful (Dict.remove k d) ((k, v) ∷ []) (Dict.All-remove Faithful k d h)
          (f, tt)

    get-IsFaithful : (k : String) (c : Cache Valuation) → IsFaithful c → IsFaithful (Lru.get k c).1
    unfolding Lru.get
    get-IsFaithful k c h = elim (Option-cases (Dict.get k c.entries)) [
      | inl new ↦ rw (new, Lru.get) h
      | inr (v, found) ↦
          rw (found, Lru.get)
            (move_to_end-Faithful k v c.entries (Dict.All-found Faithful k v c.entries h found) h)
    ]

    put-IsFaithful :
        (k : String) (v : Valuation) (c : Cache Valuation)
        → Faithful (k, v)
        → IsFaithful c
        → IsFaithful (Lru.put k v c).1
    unfolding Lru.put
    put-IsFaithful k v c f h = elim (Option-cases (Dict.get k c.entries)) [
      | inl new ↦
          rw (new, Lru.put)
            (evict-Faithful c.maxsize _ (
              move_to_end-Faithful k v _ f (
                rw (Dict.get_new k v c.entries new)
                  (Prelude.All-append Faithful c.entries ((k, v) ∷ []) h (f, tt)))))
      | inr (w, found) ↦
          rw (found, Lru.put)
            (move_to_end-Faithful k w c.entries (Dict.All-found Faithful k w c.entries h found) h)
    ]

    Step-IsFaithful : {c d : Cache Valuation} → Step c d → IsFaithful c → IsFaithful d
    unfolding begin_value finish_value Lru.clear_entries
    Step-IsFaithful (began bypassed p none c) h = h
    Step-IsFaithful (began true p (some m) c) h = h
    Step-IsFaithful (began false p (some m) c) h = get-IsFaithful (key p m) c h
    Step-IsFaithful (ended p m c) h = put-IsFaithful (key p m) (price p m) c (p, m, refl, refl) h
    Step-IsFaithful (cleared c) h = tt

    Reach-IsFaithful : {c d : Cache Valuation} → Reach c d → IsFaithful c → IsFaithful d
    Reach-IsFaithful here h = h
    Reach-IsFaithful (next r x) h = Step-IsFaithful x (Reach-IsFaithful r h)

    get-priced :
        (k : String) (c : Cache Valuation)
        → IsFaithful c
        → ((Lru.get k c).0 ≡ none) ⊎ ((v : Valuation) × ((Lru.get k c).0 ≡ some v) × PricedAs k v)
    get-priced k c h = elim (Option-cases (Dict.get k c.entries)) [
      | inl new ↦ inl (unfold Lru.get in rw (new, Lru.get))
      | inr (v, found) ↦ inr (
        v,
        (unfold Lru.get in rw (found, Lru.get) refl),
        Dict.All-found Faithful k v c.entries h found,
      )
    ]

    put-priced :
        (p : Position) (m : Market) (c : Cache Valuation)
        → IsFaithful c
        → PricedAs (key p m) (Lru.put (key p m) (price p m) c).0
    put-priced p m c h = elim (Option-cases (Dict.get (key p m) c.entries)) [
      | inl new ↦ unfold Lru.put in rw (new, Lru.put) (p, m, refl, refl)
      | inr (v, found) ↦
          unfold Lru.put in
          rw (found, Lru.put) (Dict.All-found Faithful (key p m) v c.entries h found)
    ]

    -- Whatever the threads have done to a cache that began empty: a call of `value` with a snapshot
    -- that is found in the cache answers what the wrapped engine answers for some position and
    -- snapshot of the same key, and so does one that prices and stores; and a call that bypasses the
    -- cache answers what the engine answers. That one key stands for one price is up to the digests.
    pub cached_value_priced :
        (c d : Cache Valuation) (p : Position) (m : Market)
        → c.entries ≡ []
        → Reach c d
        → (((begin_value false p (some m) d).0 ≡ ok none)
            ⊎ ((v : Valuation) × ((begin_value false p (some m) d).0 ≡ ok (some v))
                × PricedAs (key p m) v))
          × PricedAs (key p m) (finish_value p m d).0
          × ((begin_value true p (some m) d).0 ≡ ok (some (price p m)))
    unfolding begin_value finish_value
    cached_value_priced c d p m empty r =
        let start : IsFaithful c = rw empty tt in
        let h = Reach-IsFaithful r start in
        (
          elim (get-priced (key p m) d h) [
            | inl none_found ↦ inl (ap ok none_found)
            | inr (v, found, priced) ↦ inr (v, ap ok found, priced)
          ],
          put-priced p m d h,
          refl,
        )
