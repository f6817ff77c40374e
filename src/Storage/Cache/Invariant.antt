-- ===== src/Storage/Cache/Invariant.antt =====
-- The invariant of the weight cache, src/storage/cache.c, and what its owner's callbacks promise.
use multi_model_llm_engine.Base.{ℕ, ◌<◌, ◌≡◌, ◌≢◌, Bool, true, some}
use multi_model_llm_engine.Base.Int.{ℤ, to_u64, to_i32}
use multi_model_llm_engine.Storage.Cache.Types.{SlotKey, Source, Cache}

module _ {Meta Payload : Type 0} (good : ℕ → Payload → ℤ → ℤ → Bool) where
  -- The contract of `describe` and `load` in cache.h: when `load`, given the metadata that an accepted
  -- key was described with, delivers as many bytes as announced, the buffer holds the object from the
  -- reported offset on.
  pub record IsFaithful (src : Source Meta Payload) : Type 0 where
    pub delivers :
        (k : ℕ) (old : Meta) (buf : Payload)
        → (src.describe k old).accepted ≡ true
        → let d = src.describe k old in
          let l = src.load k d.meta buf in
          l.got ≡ d.need → good k l.bytes (to_i32 l.pad) l.got ≡ true

  -- A resident key is in range, its slot is in the arena and names it, and the slot's bytes are the
  -- object's; a slot that names a key is the one that the index gives; a pinned slot holds a key.
  pub record IsSound (c : Cache Meta Payload) : Type 0 where
    pub in_range : (k s : ℕ) → c.slot_of k ≡ some s → k < to_u64 c.cfg.nkeys
    pub in_arena : (k s : ℕ) → c.slot_of k ≡ some s → s < c.nslot
    pub held : (k s : ℕ) → c.slot_of k ≡ some s → c.key_of s ≡ SlotKey.holds k
    pub listed : (k s : ℕ) → s < c.nslot → c.key_of s ≡ SlotKey.holds k → c.slot_of k ≡ some s
    pub pinned_full : (s : ℕ) → c.pinned s ≡ true → c.key_of s ≢ SlotKey.empty
    pub pinned_landed : (s : ℕ) → c.pinned s ≡ true → c.key_of s ≢ SlotKey.inflight
    pub intact : (k s : ℕ) → c.slot_of k ≡ some s → good k (c.arena s) (c.pad s) (c.nbytes s) ≡ true

-- No read is under way, as between two calls.
abbrev pub IsQuiet : {Meta Payload : Type 0} → Cache Meta Payload → Type 0
IsQuiet c = (s : ℕ) → s < c.nslot → c.key_of s ≢ SlotKey.inflight
