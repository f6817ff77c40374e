-- ===== src/Storage/Cache/Types.antt =====
-- The state of the cache and what it takes from its owner: cache.h, and `struct EngCache` of cache.c.
use multi_model_llm_engine.Base.{
  ℕ, zero, suc, ◌+◌, ◌-◌, ◌*◌, ◌%◌, ◌^◌, Bool, Option, none, some, List, ltb, not, ◌&&◌,
  if◌then◌else◌,
}
use multi_model_llm_engine.Base.Int.{ℤ, pos}
use multi_model_llm_engine.Base.Words.{update, inc64}

-- What `key_of[slot]` says: SLOT_EMPTY, SLOT_INFLIGHT, or a key.
pub data SlotKey : Type 0 where
  empty : SlotKey
  inflight : SlotKey
  holds : ℕ → SlotKey

-- What `describe` reports: whether it returned 0, `*nbytes`, and the metadata left behind.
pub record Described (Meta : Type 0) : Type 0 where
  pub accepted : Bool
  pub need : ℤ
  pub meta : Meta

-- What `load` did: its result, `*payload_off`, and the slot's bytes afterwards.
pub record Loaded (Payload : Type 0) : Type 0 where
  pub got : ℤ
  pub pad : ℤ
  pub bytes : Payload

-- `EngCacheSrc` during one call. `describe` sees the bytes that `meta` pointed at before;
-- `locate` may be NULL. `scratch_ok` and `trace_ok` say whether `malloc` and `realloc` succeed.
pub record Source (Meta Payload : Type 0) : Type 0 where
  pub describe : ℕ → Meta → Described Meta
  pub load : ℕ → Meta → Payload → Loaded Payload
  pub locate : Option (Meta → ℤ × ℤ)
  pub zero_meta : Meta
  pub scratch_ok : Bool
  pub trace_ok : Bool

-- `EngCacheCfg`, less the name and the hugepage flag.
pub record CacheCfg : Type 0 where
  pub budget_bytes : ℤ
  pub slot_bytes : ℤ
  pub nkeys : ℤ
  pub min_slots : ℤ
  pub meta_bytes : ℕ
  pub want_hist : Bool
  pub want_trace : Bool

-- `struct EngCache`. `slot_of` is `none` for -1; `trace` is the first `ntrace` entries, and
-- `captrace` the room that is allocated for it.
pub record Cache (Meta Payload : Type 0) : Type 0 where
  pub cfg : CacheCfg
  pub stride : ℕ
  pub nslot : ℕ
  pub slot_of : ℕ → Option ℕ
  pub key_of : ℕ → SlotKey
  pub used_at : ℕ → ℕ
  pub pinned : ℕ → Bool
  pub meta : ℕ → Meta
  pub pad : ℕ → ℤ
  pub nbytes : ℕ → ℤ
  pub arena : ℕ → Payload
  pub clock : ℕ
  pub hits : ℕ
  pub misses : ℕ
  pub evictions : ℕ
  pub bytes_read : ℕ
  pub prefetch_reads : ℕ
  pub requests : ℕ
  pub hist : Option (ℕ → ℕ)
  pub trace : List ℕ
  pub captrace : ℕ

-- `EngCacheEntry`: the slot's bytes, where the payload starts in them, its size and metadata.
pub record Entry (Meta Payload : Type 0) : Type 0 where
  pub bytes : Payload
  pub start : ℤ
  pub nbytes : ℤ
  pub meta : Meta

-- ENG_IO_ALIGN and ENG_CACHE_MAX_BATCH.
abbrev pub io_align : ℕ
io_align = 4096

abbrev pub max_batch : ℕ
max_batch = 64

-- `eng_cache_stride_for`. Clearing the low bits of x is x - x % 4096.
unfoldable pub stride_for : ℤ → ℕ
stride_for (ℤ.negsuc _) = 0
stride_for (pos payload) = let s = payload + 2 * io_align + io_align - 1 in s - s % io_align

module _ {Meta Payload : Type 0} where
  -- `entry_of`.
  unfoldable pub entry_of : Cache Meta Payload → ℕ → Entry Meta Payload
  entry_of c slot = record {
    bytes = c.arena slot;
    start = c.pad slot;
    nbytes = c.nbytes slot;
    meta = c.meta slot;
  }

  -- The loop of `pick_victim` from slot `i` on, with `n` slots left.
  unfoldable pub scan : Cache Meta Payload → ℕ → ℕ → Option ℕ → ℕ → Option ℕ
  scan c zero i best oldest = best
  scan c (suc n) i best oldest = elim (c.key_of i) [
    | SlotKey.inflight ↦ scan c n (i + 1) best oldest
    | SlotKey.empty ↦ some i
    | SlotKey.holds _ ↦
        let older = not (c.pinned i) && ltb (c.used_at i) oldest in
        scan c n (i + 1) (if older then some i else best) (if older then c.used_at i else oldest)
  ]

  -- `pick_victim`.
  unfoldable pub pick_victim : Cache Meta Payload → Option ℕ
  pick_victim c = scan c c.nslot 0 none (2 ^ 64 - 1)

  -- The index entry of a slot's old key is cleared, and the eviction is counted.
  unfoldable pub evict : Cache Meta Payload → ℕ → Cache Meta Payload
  evict c slot = elim (c.key_of slot) [
    | SlotKey.holds k ↦ record c {
      slot_of = update c.slot_of k none;
      evictions = inc64 c.evictions;
    }
    | _ ↦ c
  ]
