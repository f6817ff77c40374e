-- ===== src/Storage/Cache/Admit.antt =====
-- Serving one key: `admit`, `eng_cache_get`, `eng_cache_peek`, `eng_cache_pin`, the statistics and the
-- constructor of src/storage/cache.c.
use multi_model_llm_engine.Base.{
  ℕ, ◌+◌, ◌*◌, ◌^◌, Bool, true, false, not, ◌&&◌, ◌||◌, Option, none, some, [], ◌∷◌, ◌++◌, ltb, leb,
  ◌==◌, if◌then◌else◌, length,
}
use multi_model_llm_engine.Base.Int.{pos, pos_part, ltb_ℤ, leb_ℤ, eq_ℤ, to_u64, to_i32, ◌/ℤ◌}
use multi_model_llm_engine.Base.Words.{update, inc64, add64, inc32}
use multi_model_llm_engine.Storage.Cache.Types.{
  SlotKey, Described, Loaded, Source, CacheCfg, Cache, Entry, stride_for, entry_of, pick_victim,
  evict,
}

-- `EngCacheStats`, less the load time and `arena_bytes`.
pub record CacheStats : Type 0 where
  pub hits : ℕ
  pub misses : ℕ
  pub evictions : ℕ
  pub bytes_read : ℕ
  pub prefetch_reads : ℕ
  pub requests : ℕ
  pub nslot : ℕ
  pub slot_stride : ℕ

module _ {Meta Payload : Type 0} where
  -- A hit of `admit`.
  unfoldable pub touch : Cache Meta Payload → ℕ → Cache Meta Payload
  touch c slot = record c {
    hits = inc64 c.hits;
    clock = inc64 c.clock;
    used_at = update c.used_at slot (inc64 c.clock);
  }

  -- The end of `admit`: what the slot now holds.
  unfoldable pub publish : Cache Meta Payload → ℕ → ℕ → Loaded Payload → Cache Meta Payload
  publish c slot key l = record c {
    bytes_read = add64 c.bytes_read (to_u64 l.got);
    pad = update c.pad slot (to_i32 l.pad);
    nbytes = update c.nbytes slot l.got;
    key_of = update c.key_of slot (SlotKey.holds key);
    slot_of = update c.slot_of key (some slot);
    clock = inc64 c.clock;
    used_at = update c.used_at slot (inc64 c.clock);
  }

  -- `load` has overwritten the slot's bytes, and nothing else.
  unfoldable pub land : Cache Meta Payload → ℕ → Loaded Payload → Cache Meta Payload
  land c slot l = record c { arena = update c.arena slot l.bytes }

  -- `c->key_of[slot] = SLOT_EMPTY` after a short read.
  unfoldable pub abandon : Cache Meta Payload → ℕ → Cache Meta Payload
  abandon c slot = record c { key_of = update c.key_of slot SlotKey.empty }

  unfoldable pub set_meta : Cache Meta Payload → ℕ → Meta → Cache Meta Payload
  set_meta c slot m = record c { meta = update c.meta slot m }

  -- The part of `admit` behind the choice of a victim.
  unfoldable pub load_into :
      Source Meta Payload
      → Cache Meta Payload
      → ℕ
      → Described Meta
      → ℕ
      → Option ℕ × Cache Meta Payload
  load_into src c key d slot =
      let c₁ = set_meta (evict c slot) slot d.meta in
      let l = src.load key d.meta (c.arena slot) in
      let c₂ = land c₁ slot l in
      if eq_ℤ l.got d.need then (some slot, publish c₂ slot key l) else (none, abandon c₂ slot)

  -- The miss of `admit`. Only metadata of more than 256 bytes is allocated.
  unfoldable pub admit_miss :
      Source Meta Payload → Cache Meta Payload → ℕ → Option ℕ × Cache Meta Payload
  admit_miss src c key =
      let d = src.describe key src.zero_meta in
      if ltb 256 c.cfg.meta_bytes && not src.scratch_ok
      then (none, c)
      else if not d.accepted
      then (none, c)
      else if ltb_ℤ c.cfg.slot_bytes d.need
      then (none, c)
      else elim (pick_victim c) [ none ↦ (none, c) | some slot ↦ load_into src c key d slot ]

  unfoldable pub miss : Cache Meta Payload → Cache Meta Payload
  miss c = record c { misses = inc64 c.misses }

  -- `admit`: the slot that now holds the key, or `none` for -1.
  unfoldable pub admit :
      Source Meta Payload → Cache Meta Payload → ℕ → Option ℕ × Cache Meta Payload
  admit src c key = elim (c.slot_of key) [
    | some slot ↦ (some slot, touch c slot)
    | none ↦ admit_miss src (miss c) key
  ]

  -- The trace of `eng_cache_get`: the room doubles when it is used up, if `realloc` succeeds.
  unfoldable pub record_trace : Source Meta Payload → Cache Meta Payload → ℕ → Cache Meta Payload
  record_trace src c key =
      let full = ltb c.captrace (length c.trace + 1) in
      let doubled = if c.captrace == 0 then 2 ^ 15 else c.captrace * 2 in
      let cap = if full && src.trace_ok then doubled else c.captrace in
      if c.cfg.want_trace
      then record c {
        captrace = cap;
        trace = if leb (length c.trace + 1) cap then c.trace ++ (key ∷ []) else c.trace;
      }
      else c

  -- The bookkeeping that `eng_cache_get` does before it serves.
  unfoldable pub note_request : Source Meta Payload → Cache Meta Payload → ℕ → Cache Meta Payload
  note_request src c key =
      record_trace src
        (record c {
          requests = inc64 c.requests;
          hist = elim c.hist [ none ↦ none | some h ↦ some (update h key (inc32 (h key))) ];
        })
        key

  -- The end of `eng_cache_get`: -1, or the entry of the slot.
  abbrev pub answer :
      Option ℕ × Cache Meta Payload → Option (Entry Meta Payload) × Cache Meta Payload
  answer (none, c) = (none, c)
  answer (some slot, c) = (some (entry_of c slot), c)

  -- `eng_cache_get` for a `c` that is not NULL; `none` is the result -1.
  unfoldable pub get :
      Source Meta Payload
      → Cache Meta Payload
      → ℕ
      → Option (Entry Meta Payload) × Cache Meta Payload
  get src c key =
      if leb (to_u64 c.cfg.nkeys) key
      then (none, c)
      else answer (admit src (note_request src c key) key)

  -- `eng_cache_peek`.
  unfoldable pub peek : Cache Meta Payload → ℕ → Option (Entry Meta Payload)
  peek c key =
      if leb (to_u64 c.cfg.nkeys) key
      then none
      else elim (c.slot_of key) [ none ↦ none | some slot ↦ some (entry_of c slot) ]

  -- `eng_cache_pin`: the new cache, and whether the key was resident.
  unfoldable pub pin : Cache Meta Payload → ℕ → Bool → Bool × Cache Meta Payload
  pin c key on = if leb (to_u64 c.cfg.nkeys) key then (false, c) else elim (c.slot_of key) [
    | none ↦ (false, c)
    | some slot ↦ (true, record c { pinned = update c.pinned slot on })
  ]

  -- `eng_cache_stats`.
  unfoldable pub cache_stats : Cache Meta Payload → CacheStats
  cache_stats c = record {
    hits = c.hits;
    misses = c.misses;
    evictions = c.evictions;
    bytes_read = c.bytes_read;
    prefetch_reads = c.prefetch_reads;
    requests = c.requests;
    nslot = c.nslot;
    slot_stride = c.stride;
  }

  -- `eng_cache_reset_stats`.
  unfoldable pub reset_stats : Cache Meta Payload → Cache Meta Payload
  reset_stats c = record c {
    hits = 0;
    misses = 0;
    evictions = 0;
    bytes_read = 0;
    prefetch_reads = 0;
    requests = 0;
  }

  -- `eng_cache_create` for a `src` with its two callbacks: `none` is NULL. `arena_ok` says whether
  -- the allocations succeed, and `fresh` is what the arena and the metadata hold at first.
  unfoldable pub create : CacheCfg → Bool → (ℕ → Payload) → (ℕ → Meta) → Option (Cache Meta Payload)
  create cfg arena_ok fresh no_meta =
      let stride = stride_for cfg.slot_bytes in
      let nslot = to_i32 (cfg.budget_bytes /ℤ stride) in
      if leb_ℤ cfg.nkeys (pos 0) || leb_ℤ cfg.slot_bytes (pos 0)
      then none
      else if ltb_ℤ nslot cfg.min_slots || ltb_ℤ nslot (pos 1)
      then none
      else if not arena_ok
      then none
      else some (record {
        cfg = cfg;
        stride = stride;
        nslot = pos_part nslot;
        slot_of = λ _. none;
        key_of = λ _. SlotKey.empty;
        used_at = λ _. 0;
        pinned = λ _. false;
        meta = no_meta;
        pad = λ _. pos 0;
        nbytes = λ _. pos 0;
        arena = fresh;
        clock = 0;
        hits = 0;
        misses = 0;
        evictions = 0;
        bytes_read = 0;
        prefetch_reads = 0;
        requests = 0;
        hist = if cfg.want_hist then some (λ _. 0) else none;
        trace = [];
        captrace = 0;
      })
