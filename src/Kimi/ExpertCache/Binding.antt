-- ===== src/Kimi/ExpertCache/Binding.antt =====
-- How src/cache/k3_cache.c makes the weight cache one of experts: its callbacks and `k3_cache_init`.
-- `k3_expert_ref`, `k3_expert_load_direct` and `k3_is_dense` are parameters.
use multi_model_llm_engine.Base.{
  ℕ, zero, suc, ◌+◌, ◌*◌, ◌≡◌, ◌≢◌, Bool, true, Option, none, some, arith, if◌then◌else◌,
}
use multi_model_llm_engine.Base.Int.{ℤ, pos, to_i32}
use multi_model_llm_engine.Storage.Cache.Types.{Described, Loaded, Source, CacheCfg}
use multi_model_llm_engine.Storage.Cache.Admit.{create}
use multi_model_llm_engine.Kimi.ExpertCache.{ExpertCache, layer_of, expert_of, sync_stats}

-- What the binding uses of `K3ExpertRef` and of the checkpoint behind it. `expert_ref` is whether the
-- call returned 0, and the reference afterwards.
pub record Checkpoint (Meta Payload : Type 0) : Type 0 where
  pub expert_ref : ℤ → ℤ → Meta → Bool × Meta
  pub load_direct : Meta → Payload → Loaded Payload
  pub ref_bytes : Meta → ℤ
  pub shard : Meta → ℤ
  pub off : Meta → ℤ
  pub is_dense : ℕ → Bool
  pub zero_ref : Meta
  pub ref_size : ℕ

-- What `k3_cache_init` reads of `K3Cfg`.
pub record ExpertCfg : Type 0 where
  pub n_layers : ℕ
  pub n_experts : ℕ
  pub topk : ℕ

module _ {Meta Payload : Type 0} (st : Checkpoint Meta Payload) where
  -- `k3_describe`.
  unfoldable pub k3_describe : ℕ → ℕ → Meta → Described Meta
  k3_describe n_experts key meta =
      let (found, r) =
        st.expert_ref (to_i32 (pos (layer_of n_experts key)))
          (to_i32 (pos (expert_of n_experts key))) meta in
      record { accepted = found; need = if found then st.ref_bytes r else pos 0; meta = r }

  -- `k3_load`.
  unfoldable pub k3_load : ℕ → Meta → Payload → Loaded Payload
  k3_load key meta buf = st.load_direct meta buf

  -- `k3_locate`.
  unfoldable pub k3_locate : Meta → ℤ × ℤ
  k3_locate meta = (st.shard meta, st.off meta)

  -- `cs`, the source that the weight cache is given.
  unfoldable pub expert_source : ℕ → Bool → Bool → Source Meta Payload
  expert_source n_experts scratch_ok trace_ok = record {
    describe = k3_describe n_experts;
    load = k3_load;
    locate = some k3_locate;
    zero_meta = st.zero_ref;
    scratch_ok = scratch_ok;
    trace_ok = trace_ok;
  }

  -- The loop that looks for a layer with a first expert, from `layer` on.
  unfoldable pub find_probe : ℕ → ℕ → Meta → Option Meta
  find_probe layer zero probe = none
  find_probe layer (suc left) probe =
      let (found, r) = st.expert_ref (pos layer) (pos 0) probe in
      let skip = find_probe (suc layer) left probe in
      let retry = find_probe (suc layer) left r in
      if st.is_dense layer then skip else if found then some r else retry

  -- `cc`.
  unfoldable pub expert_cache_cfg : ExpertCfg → ℤ → ℤ → CacheCfg
  expert_cache_cfg cfg budget slot_bytes = record {
    budget_bytes = budget;
    slot_bytes = slot_bytes;
    nkeys = pos (cfg.n_layers * cfg.n_experts);
    min_slots = pos (cfg.topk + 1);
    meta_bytes = st.ref_size;
    want_hist = true;
    want_trace = true;
  }

  -- `k3_cache_init`: `none` is -1. The probe is uninitialised at first.
  unfoldable pub cache_init :
      ExpertCfg → ℤ → Bool → (ℕ → Payload) → (ℕ → Meta) → Meta → Option (ExpertCache Meta Payload)
  cache_init cfg budget arena_ok fresh no_meta probe = elim (find_probe 0 cfg.n_layers probe) [
    | none ↦ none
    | some r ↦ elim (create (expert_cache_cfg cfg budget (st.ref_bytes r)) arena_ok fresh no_meta) [
      | none ↦ none
      | some gc ↦ some (
          sync_stats
            (record {
              gc = gc;
              n_layers = cfg.n_layers;
              n_experts = cfg.n_experts;
              nslot = 0;
              slot_bytes = 0;
              hits = 0;
              misses = 0;
              evictions = 0;
              bytes_read = 0;
              prefetch_reads = 0;
            })
            gc)
    ]
  ]

pub none-some : {A : Type 0} (a : A) → none ≢ some a
none-some a e = ground arith

pub some_injective : {A : Type 0} {a b : A} → some a ≡ some b → a ≡ b
some_injective e = cc
