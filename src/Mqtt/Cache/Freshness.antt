-- ===== src/Mqtt/Cache/Freshness.antt =====
-- mqtt-endpoint/src/service/session/cache.rs: how old the answers are that a cache gives.
use mathlib.Core.List.{Memᴰ}
use drogue_cloud.Base.{
  ℕ, ◌+◌, ◌<◌, String, ◌≡◌, ◌≢◌, ◌⊎◌, inl, inr, refl, ap, ◌∙◌, Bool, true, ◌&&◌, List, [], ◌∷◌,
  Option, none, some, Result, ok, err, if◌then◌else◌, arith, leb, Bool-cases, Option-cases,
  Result-cases,
}
use drogue_cloud.Mqtt.Cache.{
  DeviceCacheEntry, expired, Lru, Reading, DeviceCache, new, allowed, do_evict, evict, make_room,
  load_and_cache, fetch,
}

-- What the authentication service said of a device, and when.
pub record Answer (T : Type 0) : Type 0 where
  pub key : String
  pub outcome : Option T
  pub at : ℕ

abbrev answered :
    {T E : Type 0} → String → Result E (Option T) → Reading → List (Answer T) → List (Answer T)
answered key (ok outcome) r log = (record { key = key; outcome = outcome; at = r.answered }) ∷ log
answered key (err e) r log = log

module _ {T : Type 0} (lru : Lru T) where
  -- Whether `fetch` calls the authentication service.
  abbrev pub asks : DeviceCache lru → String → Reading → Bool
  asks s key r = elim (lru.lookup key s.cache) [
    | none ↦ true
    | some entry ↦ leb entry.expires r.looked
  ]

  -- What was answered, after a call of `fetch`.
  abbrev pub heard :
      {E : Type 0}
      → DeviceCache lru
      → String
      → (String → Result E (Option T))
      → Reading
      → List (Answer T)
      → List (Answer T)
  heard s key retriever r log = if asks s key r then answered key (retriever key) r log else log

  -- The caches that calls lead to, with all that was answered.
  pub data Reach (E : Type 0) (ttl : ℕ) : DeviceCache lru → List (Answer T) → Type 0 where
    start : (capacity now : ℕ) → Reach E ttl (new lru capacity ttl now) []
    fetched :
        {s : DeviceCache lru} {log : List (Answer T)} (key : String)
        (retriever : String → Result E (Option T)) (r : Reading)
        → Reach E ttl s log
        → Reach E ttl (fetch lru s key retriever r).1 (heard s key retriever r log)
    evicted :
        {s : DeviceCache lru} {log : List (Answer T)} (now : String → ℕ)
        → Reach E ttl s log
        → Reach E ttl (evict lru s now) log

  -- An entry is an answer that was heard.
  abbrev Known : ℕ → List (Answer T) → String → DeviceCacheEntry T → Type 0
  Known ttl log key e =
      (a : Answer T) × Memᴰ a log
      × (a.key ≡ key)
      × (a.outcome ≡ e.device)
      × (a.at + ttl ≡ e.expires)

  record IsFaithful (ttl : ℕ) (log : List (Answer T)) (s : DeviceCache lru) : Type 0 where
    lifetime : s.ttl ≡ ttl
    entries :
        (j : String) (e : DeviceCacheEntry T) → lru.lookup j s.cache ≡ some e → Known ttl log j e

  -- A cache with fewer entries.
  IsFaithful-shrink :
      {ttl : ℕ} {log : List (Answer T)} {s : DeviceCache lru} (s' : DeviceCache lru)
      → s'.ttl ≡ s.ttl
      → ((j : String) (e : DeviceCacheEntry T)
          → lru.lookup j s'.cache ≡ some e
          → lru.lookup j s.cache ≡ some e)
      → IsFaithful ttl log s
      → IsFaithful ttl log s'
  IsFaithful-shrink s' same fewer h = record {
    lifetime = rw same h.lifetime;
    entries = λ j e at. h.entries j e (fewer j e at);
  }

  make_room-IsFaithful :
      {ttl : ℕ} {log : List (Answer T)} (s : DeviceCache lru) (r : Reading)
      → IsFaithful ttl log s
      → IsFaithful ttl log (make_room lru s r)
  unfolding make_room do_evict
  make_room-IsFaithful s r h =
      elim (Bool-cases (lru.is_full s.cache && leb s.next_evict r.checked)) [
        | inl p ↦ rw p (IsFaithful-shrink _ refl (λ j e. lru.lookup-retain _ j s.cache e) h)
        | inr p ↦ rw p h
      ]

  allowed_lem : (a b : Option T) → allowed lru a ≡ allowed lru b → a ≡ b
  allowed_lem none none h = refl
  allowed_lem none (some b) h = absurd (ground (arith, h))
  allowed_lem (some a) none h = absurd (ground (arith, h))
  allowed_lem (some a) (some b) h = ground (arith, h)

  load_and_cache_told :
      {E : Type 0} (s : DeviceCache lru) (key : String) (retriever : String → Result E (Option T))
      (r : Reading) (outcome : Option T)
      → (load_and_cache lru s key retriever r).0 ≡ allowed lru outcome
      → retriever key ≡ ok outcome
  unfolding load_and_cache
  load_and_cache_told s key retriever r none h = elim (Result-cases (retriever key)) [
    | inl (o, e) ↦ rw e (ap ok (allowed_lem _ _ (rw (load_and_cache, e) at h)))
    | inr (_, e) ↦ absurd (ground (arith, e, h))
  ]
  load_and_cache_told s key retriever r (some device) h = elim (Result-cases (retriever key)) [
    | inl (o, e) ↦ rw e (ap ok (allowed_lem _ _ (rw (load_and_cache, e) at h)))
    | inr (_, e) ↦ absurd (ground (arith, e, h))
  ]

  -- An answer that was just heard, in a cache with room for it.
  put-IsFaithful :
      {ttl : ℕ} {log : List (Answer T)} (s : DeviceCache lru) (a : Answer T) (expires : ℕ)
      → expires ≡ a.at + ttl
      → IsFaithful ttl log s
      → IsFaithful ttl (a ∷ log) (record s {
        cache = lru.put a.key (record { device = a.outcome; expires = expires }) s.cache;
      })
  put-IsFaithful s a expires until h = record {
    lifetime = h.lifetime;
    entries = λ j e at. elim (lru.lookup-put a.key j _ s.cache e at) [
      | inl (key, is) ↦ (
        a,
        Memᴰ.head refl,
        key,
        ap (λ e. e.device) is,
        ground (arith, ap (λ e. e.expires) is, until),
      )
      | inr old ↦
          let (b, there, is, same, old) = h.entries j e old in (b, Memᴰ.tail there, is, same, old)
    ];
  }

  load_and_cache-IsFaithful :
      {E : Type 0} {ttl : ℕ} {log : List (Answer T)} (s : DeviceCache lru) (key : String)
      (retriever : String → Result E (Option T)) (r : Reading)
      → IsFaithful ttl log s
      → IsFaithful ttl (answered key (retriever key) r log) (load_and_cache lru s key retriever r).1
  unfolding load_and_cache
  load_and_cache-IsFaithful {ttl} s key retriever r h = elim (Result-cases (retriever key)) [
    | inl (outcome, e) ↦
        rw (load_and_cache, e)
          (put-IsFaithful (make_room lru s r)
            (record { key = key; outcome = outcome; at = r.answered }) _
            (ground (arith, h.lifetime)) (make_room-IsFaithful s r h))
    | inr (_, e) ↦ rw (load_and_cache, e) h
  ]

  fetch-IsFaithful :
      {E : Type 0} {ttl : ℕ} {log : List (Answer T)} (s : DeviceCache lru) (key : String)
      (retriever : String → Result E (Option T)) (r : Reading)
      → IsFaithful ttl log s
      → IsFaithful ttl (heard s key retriever r log) (fetch lru s key retriever r).1
  unfolding fetch expired
  fetch-IsFaithful {ttl} s key retriever r h =
      let touched =
        IsFaithful-shrink (record s { cache = lru.touch key s.cache }) refl
          (λ j e at. rw lru.lookup-touch at at) h in
      elim (Option-cases (lru.lookup key s.cache)) [
        | inl e ↦ rw (fetch, asks, e) (load_and_cache-IsFaithful _ key retriever r touched)
        | inr (entry, e) ↦ elim (Bool-cases (leb entry.expires r.looked)) [
          | inl p ↦
              rw (fetch, asks, e, p)
                (load_and_cache-IsFaithful _ key retriever r
                  (IsFaithful-shrink _ refl (λ j e. lru.lookup-pop key j _ e) touched))
          | inr p ↦ rw (fetch, asks, e, p) touched
        ]
      ]

  new_cache_lem :
      (capacity : ℕ) (j : String) (e : DeviceCacheEntry T)
      → lru.lookup j (lru.new_cache capacity) ≢ some e
  new_cache_lem capacity j e at = ground (arith, at, lru.lookup-new_cache j capacity)

  Reach-IsFaithful :
      {E : Type 0} {ttl : ℕ} {log : List (Answer T)} {s : DeviceCache lru}
      → Reach E ttl s log
      → IsFaithful ttl log s
  unfolding new evict do_evict
  Reach-IsFaithful (start capacity now) = record {
    lifetime = refl;
    entries = λ j e at. absurd (new_cache_lem _ j e at);
  }
  Reach-IsFaithful (fetched {s = s} key retriever r before) =
      fetch-IsFaithful s key retriever r (Reach-IsFaithful before)
  Reach-IsFaithful (evicted {s = s} now before) =
      IsFaithful-shrink _ refl (λ j e. lru.lookup-retain _ j s.cache e) (Reach-IsFaithful before)

  -- A call of `fetch` that gives a device, or refuses, does what the authentication service
  -- answered for that device: in this call, or earlier, and then less than `ttl` before the call.
  pub fetch_fresh :
      {E : Type 0} {ttl : ℕ} {log : List (Answer T)} {s : DeviceCache lru} (key : String)
      (retriever : String → Result E (Option T)) (r : Reading) (outcome : Option T)
      → Reach E ttl s log
      → (fetch lru s key retriever r).0 ≡ allowed lru outcome
      → (retriever key ≡ ok outcome)
        ⊎ ((a : Answer T) × Memᴰ a log
            × (a.key ≡ key)
            × (a.outcome ≡ outcome)
            × (r.looked < a.at + ttl))
  unfolding fetch expired
  fetch_fresh {s} key retriever r outcome reach h =
      let faithful = Reach-IsFaithful reach in
      elim (Option-cases (lru.lookup key s.cache)) [
        | inl e ↦ inl (load_and_cache_told _ key retriever r outcome (rw (fetch, e) at h))
        | inr (entry, e) ↦ elim (Bool-cases (leb entry.expires r.looked)) [
          | inl p ↦ inl (load_and_cache_told _ key retriever r outcome (rw (fetch, e, p) at h))
          | inr p ↦
              let (a, there, is, same, old) = faithful.entries key entry e in
              inr (
                a,
                there,
                is,
                same ∙ allowed_lem _ _ (rw (fetch, e, p) at h),
                ground (arith, p, old),
              )
        ]
      ]
