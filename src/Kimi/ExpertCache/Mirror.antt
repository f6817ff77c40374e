-- ===== src/Kimi/ExpertCache/Mirror.antt =====
-- The counters that `K3Cache` mirrors agree with the weight cache's after every call of
-- src/cache/k3_cache.c.
use multi_model_llm_engine.Base.{
  ℕ, ◌≡◌, refl, inl, inr, Bool, List, [], ◌∷◌, Bool-cases, Option-cases, leb,
}
use multi_model_llm_engine.Base.Int.{ℤ, to_u64}
use multi_model_llm_engine.Storage.Cache.Types.{Source, Cache}
use multi_model_llm_engine.Storage.Cache.Admit.{pin}
use multi_model_llm_engine.Kimi.ExpertCache.{
  ExpertCache, expert_key, out_of_range, sync_stats, cache_get, cache_getmany, cache_pin,
  cache_prefetch, cache_reset_stats,
}

module _ {Meta Payload : Type 0} where
  pub record IsMirror (c : ExpertCache Meta Payload) : Type 0 where
    pub hits : c.hits ≡ c.gc.hits
    pub misses : c.misses ≡ c.gc.misses
    pub evictions : c.evictions ≡ c.gc.evictions
    pub bytes_read : c.bytes_read ≡ c.gc.bytes_read
    pub prefetch_reads : c.prefetch_reads ≡ c.gc.prefetch_reads
    pub nslot : c.nslot ≡ c.gc.nslot
    pub slot_bytes : c.slot_bytes ≡ c.gc.stride

  sync_stats-IsMirror :
      (c : ExpertCache Meta Payload) (gc : Cache Meta Payload) → IsMirror (sync_stats c gc)
  unfolding sync_stats
  sync_stats-IsMirror c gc = record {
    hits = refl;
    misses = refl;
    evictions = refl;
    bytes_read = refl;
    prefetch_reads = refl;
    nslot = refl;
    slot_bytes = refl;
  }

  pinned-IsMirror :
      (c : ExpertCache Meta Payload) (key : ℕ) (on : Bool)
      → IsMirror c
      → IsMirror (record c { gc = (pin c.gc key on).1 })
  unfolding pin
  pinned-IsMirror c key on h = elim (Bool-cases (leb (to_u64 c.gc.cfg.nkeys) key)) [
    | inl e ↦ rw e h
    | inr e ↦ elim (Option-cases (c.gc.slot_of key)) [
      | inl f ↦ rw (e, f) h
      | inr (s, f) ↦
          rw (e, f)
            (record {
              hits = h.hits;
              misses = h.misses;
              evictions = h.evictions;
              bytes_read = h.bytes_read;
              prefetch_reads = h.prefetch_reads;
              nslot = h.nslot;
              slot_bytes = h.slot_bytes;
            })
    ]
  ]

  -- One call, of a K3 cache.
  pub data Call : ExpertCache Meta Payload → ExpertCache Meta Payload → Type 0 where
    getting :
        (src : Source Meta Payload) (c : ExpertCache Meta Payload) (layer expert : ℤ)
        → Call c (cache_get src c layer expert).1
    getting_many :
        (src : Source Meta Payload) (c : ExpertCache Meta Payload) (layer : ℤ) (ids : List ℤ)
        → Call c (cache_getmany src c layer ids).1
    pinning :
        (c : ExpertCache Meta Payload) (layer expert : ℤ) (on : Bool)
        → Call c (cache_pin c layer expert on).1
    prefetching :
        (src : Source Meta Payload) (c : ExpertCache Meta Payload) (layer expert : ℤ)
        → Call c (cache_prefetch src c layer expert).1
    resetting : (c : ExpertCache Meta Payload) → Call c (cache_reset_stats c)

  -- Every call of the K3 cache, in range or not, leaves the mirrored counters and sizes equal to those of
  -- the weight cache, if they were before.
  pub Call-IsMirror : {c d : ExpertCache Meta Payload} → Call c d → IsMirror c → IsMirror d
  unfolding cache_get cache_getmany cache_pin cache_prefetch cache_reset_stats
  Call-IsMirror (getting src c layer expert) h =
      elim (Bool-cases (out_of_range c.n_layers c.n_experts layer expert)) [
        | inl e ↦ rw e h
        | inr e ↦ rw e (sync_stats-IsMirror c _)
      ]
  Call-IsMirror (getting_many src c layer []) h = h
  Call-IsMirror (getting_many src c layer (i ∷ ids)) h = sync_stats-IsMirror c _
  Call-IsMirror (pinning c layer expert on) h =
      elim (Bool-cases (out_of_range c.n_layers c.n_experts layer expert)) [
        | inl e ↦ rw e h
        | inr e ↦ rw e (pinned-IsMirror c (expert_key c.n_experts layer expert) on h)
      ]
  Call-IsMirror (prefetching src c layer expert) h = sync_stats-IsMirror c _
  Call-IsMirror (resetting c) h = sync_stats-IsMirror c _
