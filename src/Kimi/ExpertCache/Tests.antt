-- ===== src/Kimi/ExpertCache/Tests.antt =====
-- The theorems on src/cache/k3_cache.c, at two layers of four experts.
use multi_model_llm_engine.Base.Words.{add64, inc32, inc64}
use multi_model_llm_engine.Storage.Cache.Types.{pick_victim, entry_of, evict, scan}
use multi_model_llm_engine.Kimi.ExpertCache.Binding.{k3_describe, k3_load}
use multi_model_llm_engine.Base.Int.{to_u64, ◌+ℤ◌, ◌*ℤ◌}
use multi_model_llm_engine.Storage.Cache.Admit.{
  get, admit, note_request, record_trace, admit_miss, miss, land, load_into, publish, set_meta,
}
use multi_model_llm_engine.Kimi.ExpertCache.{out_of_range, expert_key, expert_of, layer_of}
use multi_model_llm_engine.Base.{ℕ, ◌+◌, ◌≡◌, refl, Bool, true, false, Option, none, []}
use multi_model_llm_engine.Base.Int.{ℤ, pos, pos_part}
use multi_model_llm_engine.Storage.Cache.Types.{SlotKey, Source, Entry}
use multi_model_llm_engine.Kimi.ExpertCache.{ExpertCache, cache_get, cache_prefetch}
use multi_model_llm_engine.Base.Int.{to_i32}
use multi_model_llm_engine.Base.{◌==◌, some}
use multi_model_llm_engine.Kimi.ExpertCache.{sync_stats}
use multi_model_llm_engine.Kimi.ExpertCache.Binding.{Checkpoint, ExpertCfg, expert_source}
use multi_model_llm_engine.Kimi.ExpertCache.Mirror.{IsMirror, Call, Call-IsMirror}
use multi_model_llm_engine.Kimi.ExpertCache.Keys.{cache_prefetch_alias}

abbrev experts : Source ℕ ℕ
experts = record {
  describe = λ k old. record { accepted = true; need = pos 100; meta = k };
  load = λ k m buf. record { got = pos 100; pad = pos 0; bytes = k };
  locate = none;
  zero_meta = 0;
  scratch_ok = true;
  trace_ok = true;
}

abbrev cold : ExpertCache ℕ ℕ
cold = record {
  gc = record {
    cfg = record {
      budget_bytes = pos 25000;
      slot_bytes = pos 1000;
      nkeys = pos 8;
      min_slots = pos 2;
      meta_bytes = 48;
      want_hist = false;
      want_trace = false;
    };
    stride = 12288;
    nslot = 2;
    slot_of = λ _. none;
    key_of = λ _. SlotKey.empty;
    used_at = λ _. 0;
    pinned = λ _. false;
    meta = λ _. 0;
    pad = λ _. pos 0;
    nbytes = λ _. pos 0;
    arena = λ _. 9;
    clock = 0;
    hits = 0;
    misses = 0;
    evictions = 0;
    bytes_read = 0;
    prefetch_reads = 0;
    requests = 0;
    hist = none;
    trace = [];
    captrace = 0;
  };
  n_layers = 2;
  n_experts = 4;
  nslot = 2;
  slot_bytes = 12288;
  hits = 0;
  misses = 0;
  evictions = 0;
  bytes_read = 0;
  prefetch_reads = 0;
}

cache_prefetch_alias_example :
    cache_prefetch experts cold (pos 0) (pos 4) ≡ cache_prefetch experts cold (pos 1) (pos 0)
cache_prefetch_alias_example = cache_prefetch_alias experts cold 0

-- Four experts in layer 1; layer 0 is dense.
abbrev shards : Checkpoint ℕ ℕ
shards = record {
  expert_ref = λ layer expert old. (true, 100 + pos_part expert);
  load_direct = λ r buf. record { got = pos 100; pad = pos 0; bytes = r };
  ref_bytes = λ r. pos 100;
  shard = λ r. pos 0;
  off = λ r. pos r;
  is_dense = λ layer. layer == 0;
  zero_ref = 0;
  ref_size = 48;
}

abbrev small_model : ExpertCfg
small_model = record { n_layers = 2; n_experts = 4; topk = 1 }

abbrev bound : ExpertCache ℕ ℕ
bound = record cold {
  gc = record cold.gc {
    cfg = record {
      budget_bytes = pos 25000;
      slot_bytes = pos 100;
      nkeys = pos 8;
      min_slots = pos 2;
      meta_bytes = 48;
      want_hist = true;
      want_trace = true;
    };
    hist = some (λ _. 0);
  };
}

-- An expert is the number that its reference is.
abbrev is_expert : ℤ → ℤ → ℕ → ℤ → ℤ → Bool
is_expert layer expert payload first got = payload == 100 + pos_part expert

-- Expert 3 has been read by then.
abbrev warm : ExpertCache ℕ ℕ
warm = (cache_get (expert_source shards 4 true true) bound (pos 1) (pos 3)).1

-- It is served, and no entry is missing there.
is_served : Option (Entry ℕ ℕ) → ℕ
is_served none = 0
is_served (some e) = e.bytes

two_served : is_served (cache_get (expert_source shards 4 true true) warm (pos 1) (pos 2)).0 ≡ 102
unfolding is_served cache_get out_of_range sync_stats get to_u64 expert_key ◌+ℤ◌ ◌*ℤ◌ admit
    note_request record_trace admit_miss miss expert_source k3_describe pick_victim to_i32 add64
    inc32 inc64 k3_load expert_of layer_of land load_into publish set_meta entry_of evict scan
two_served = refl

cold-IsMirror : IsMirror cold
cold-IsMirror = record {
  hits = refl;
  misses = refl;
  evictions = refl;
  bytes_read = refl;
  prefetch_reads = refl;
  nslot = refl;
  slot_bytes = refl;
}

Call-IsMirror_example : IsMirror (cache_get experts cold (pos 1) (pos 2)).1
Call-IsMirror_example = Call-IsMirror (Call.getting experts cold (pos 1) (pos 2)) cold-IsMirror
