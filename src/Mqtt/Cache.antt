-- ===== src/Mqtt/Cache.antt =====
-- mqtt-endpoint/src/service/session/cache.rs: the devices that a gateway may act for, as the
-- authentication service answered. The crate clru is a parameter.
pub mod Freshness
use mathlib.Core.Option
use drogue_cloud.Base.{
  ℕ, zero, suc, ◌+◌, String, ◌≡◌, ◌⊎◌, Bool, true, false, not, ◌&&◌, Option, none, some, Result, ok,
  err, if◌then◌else◌, string_eq, ◌==◌, leb,
}
use drogue_cloud.Mqtt.Errors.{PublishError, internal_error, not_authorized}

-- An answer and the time from which it is not used any more.
pub record DeviceCacheEntry (T : Type 0) : Type 0 where
  pub device : Option T
  pub expires : ℕ

unfoldable pub expired : {T : Type 0} → DeviceCacheEntry T → ℕ → Bool
expired entry now = leb entry.expires now

-- `CLruCache`: a map that forgets other keys when a new one does not fit.
pub record Lru (T : Type 0) : Type 1 where
  pub Cache : Type 0
  pub new_cache : ℕ → Cache
  pub lookup : String → Cache → Option (DeviceCacheEntry T)
  pub is_full : Cache → Bool
  pub touch : String → Cache → Cache
  pub pop : String → Cache → Cache
  pub put : String → DeviceCacheEntry T → Cache → Cache
  pub retain : (String → DeviceCacheEntry T → Bool) → Cache → Cache
  pub lookup-new_cache : (key : String) (capacity : ℕ) → lookup key (new_cache capacity) ≡ none
  pub lookup-touch : (j key : String) (c : Cache) → lookup j (touch key c) ≡ lookup j c
  pub lookup-pop :
      (key j : String) (c : Cache) (e : DeviceCacheEntry T)
      → lookup j (pop key c) ≡ some e
      → lookup j c ≡ some e
  pub lookup-put :
      (key j : String) (v : DeviceCacheEntry T) (c : Cache) (e : DeviceCacheEntry T)
      → lookup j (put key v c) ≡ some e
      → ((key ≡ j) × (v ≡ e)) ⊎ (lookup j c ≡ some e)
  pub lookup-retain :
      (p : String → DeviceCacheEntry T → Bool) (j : String) (c : Cache) (e : DeviceCacheEntry T)
      → lookup j (retain p c) ≡ some e
      → lookup j c ≡ some e

-- What the clock says where one call reads it: when it looks at the entry, when it has an answer,
-- when it looks for the next eviction and sets it, and when it evicts an entry.
pub record Reading : Type 0 where
  pub looked : ℕ
  pub answered : ℕ
  pub checked : ℕ
  pub set : ℕ
  pub evicted : String → ℕ

module _ {T : Type 0} (lru : Lru T) where
  open lru use {Cache}

  pub record DeviceCache : Type 0 where
    pub cache : Cache
    pub ttl : ℕ
    pub next_evict : ℕ

  unfoldable pub new : ℕ → ℕ → ℕ → DeviceCache
  new capacity ttl now =
      let capacity : ℕ = elim capacity [ zero ↦ 1 | suc n ↦ suc n ] in
      record { cache = lru.new_cache capacity; ttl = ttl; next_evict = now }

  -- A device, or no device: `Err(NotAuthorized)`
  abbrev pub allowed : Option T → Result PublishError T
  allowed (some device) = ok device
  allowed none = err not_authorized

  unfoldable pub do_evict : Cache → (String → ℕ) → Cache
  unfolding expired
  do_evict cache now = lru.retain (λ key entry. not (expired entry (now key))) cache

  unfoldable pub evict : DeviceCache → (String → ℕ) → DeviceCache
  unfolding do_evict
  evict self now = record self { cache = do_evict self.cache now }

  -- The cache before an answer goes in.
  unfoldable pub make_room : DeviceCache → Reading → DeviceCache
  unfolding do_evict
  make_room self r =
      if lru.is_full self.cache && leb self.next_evict r.checked
      then record self { next_evict = r.set + self.ttl; cache = do_evict self.cache r.evicted }
      else self

  -- `retriever` is what the call of the authentication service gives.
  unfoldable pub load_and_cache :
      {E : Type 0}
      → DeviceCache
      → String
      → (String → Result E (Option T))
      → Reading
      → Result PublishError T × DeviceCache
  unfolding make_room
  load_and_cache self as_device retriever r = elim (retriever as_device) [
    | err e ↦ (err (internal_error "Failed to authorize device"), self)
    | ok outcome ↦
        let entry : DeviceCacheEntry T = record {
          device = outcome;
          expires = r.answered + self.ttl;
        } in
        let room = make_room self r in
        (allowed outcome, record room { cache = lru.put as_device entry room.cache })
  ]

  unfoldable pub fetch :
      {E : Type 0}
      → DeviceCache
      → String
      → (String → Result E (Option T))
      → Reading
      → Result PublishError T × DeviceCache
  unfolding expired
  fetch self as_device retriever r =
      let touched : DeviceCache = record self { cache = lru.touch as_device self.cache } in
      elim (lru.lookup as_device self.cache) [
        | none ↦ load_and_cache touched as_device retriever r
        | some outcome ↦
            if not (expired outcome r.looked)
            then (allowed outcome.device, touched)
            else let popped : DeviceCache = record touched {
              cache = lru.pop as_device touched.cache;
            } in
              load_and_cache popped as_device retriever r
      ]
