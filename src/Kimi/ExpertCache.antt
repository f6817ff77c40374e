-- ===== src/Kimi/ExpertCache.antt =====
-- The expert cache of K3 as a binding over the weight cache: src/cache/k3_cache.c and k3_cache.h. The
-- geometry of an expert (`K3ExpertRef`) is the metadata of a slot, a parameter here; so are
-- `k3_expert_ref` and `k3_expert_load_direct`, in the source that the weight cache is given.
pub mod Keys
pub mod Binding
pub mod Mirror
pub mod Served
mod Tests
use multi_model_llm_engine.Base.{
  ℕ, zero, suc, ◌+◌, ◌*◌, ◌/◌, ◌%◌, ◌^◌, Bool, true, false, not, ◌&&◌, ◌||◌, Option, none, some,
  List, [], ◌∷◌, ◌++◌, ltb, leb, ◌==◌, if◌then◌else◌, is_some, take, map,
}
use multi_model_llm_engine.Base.Int.{ℤ, pos, negsuc, pos_part, ltb_ℤ, leb_ℤ, to_u64, ◌*ℤ◌, ◌+ℤ◌}
use multi_model_llm_engine.Storage.Cache.Types.{Source, Cache, Entry}
use multi_model_llm_engine.Storage.Cache.Admit.{cache_stats, get, peek, pin, reset_stats}
use multi_model_llm_engine.Storage.Cache.Batch.{get_many}

-- `K3Cache`, with the counters that it mirrors.
pub record ExpertCache (Meta Payload : Type 0) : Type 0 where
  pub gc : Cache Meta Payload
  pub n_layers : ℕ
  pub n_experts : ℕ
  pub nslot : ℕ
  pub slot_bytes : ℕ
  pub hits : ℕ
  pub misses : ℕ
  pub evictions : ℕ
  pub bytes_read : ℕ
  pub prefetch_reads : ℕ

-- K3_MAX_TOPK.
abbrev pub max_topk : ℕ
max_topk = 64

-- `k3key`.
unfoldable pub expert_key : ℕ → ℤ → ℤ → ℕ
expert_key n_experts layer expert = to_u64 (layer *ℤ pos n_experts +ℤ expert)

-- The range check of `cache_get`, `cache_resident` and `k3_cache_pin`.
unfoldable pub out_of_range : ℕ → ℕ → ℤ → ℤ → Bool
out_of_range n_layers n_experts layer expert =
    ltb_ℤ layer (pos 0)
    || leb_ℤ (pos n_layers) layer
    || ltb_ℤ expert (pos 0)
    || leb_ℤ (pos n_experts) expert

-- The pair that `k3_describe` and `k3_cache_dump_trace` read off a key.
unfoldable pub layer_of : ℕ → ℕ → ℕ
layer_of n_experts key = key / n_experts

unfoldable pub expert_of : ℕ → ℕ → ℕ
expert_of n_experts key = key % n_experts

-- The keys that `cache_getmany` hands on, of the first `max_topk` ids.
unfoldable pub batch_keys : ℕ → ℤ → List ℤ → List ℕ
batch_keys n_experts layer [] = []
batch_keys n_experts layer (e ∷ ids) =
    let rest = batch_keys n_experts layer ids in
    if ltb_ℤ e (pos 0) || leb_ℤ (pos n_experts) e then rest else expert_key n_experts layer e ∷ rest

-- The counts that `k3_cache_dump_hist` prints: for each pair in order, of those below `nkeys` and not 0.
unfoldable pub hist_row : (ℕ → ℕ) → ℕ → ℕ → ℕ → ℕ → ℕ → List (ℕ × ℕ × ℕ)
hist_row h nkeys n_experts layer expert zero = []
hist_row h nkeys n_experts layer expert (suc left) =
    let k = layer * n_experts + expert in
    let rest = hist_row h nkeys n_experts layer (expert + 1) left in
    if leb nkeys k then [] else if h k == 0 then rest else (layer, expert, h k) ∷ rest

unfoldable pub hist_rows : (ℕ → ℕ) → ℕ → ℕ → ℕ → ℕ → List (ℕ × ℕ × ℕ)
hist_rows h nkeys n_experts layer zero = []
hist_rows h nkeys n_experts layer (suc left) =
    hist_row h nkeys n_experts layer 0 n_experts ++ hist_rows h nkeys n_experts (layer + 1) left

module _ {Meta Payload : Type 0} where
  -- `sync_stats`, after the weight cache has become `gc`.
  unfoldable pub sync_stats :
      ExpertCache Meta Payload → Cache Meta Payload → ExpertCache Meta Payload
  unfolding cache_stats
  sync_stats c gc =
      let s = cache_stats gc in
      record c {
        gc = gc;
        hits = s.hits;
        misses = s.misses;
        evictions = s.evictions;
        bytes_read = s.bytes_read;
        prefetch_reads = s.prefetch_reads;
        nslot = s.nslot;
        slot_bytes = s.slot_stride;
      }

  -- `cache_get`: -1, or the entry that `fill_q` reads the six pointers off.
  unfoldable pub cache_get :
      Source Meta Payload
      → ExpertCache Meta Payload
      → ℤ
      → ℤ
      → Option (Entry Meta Payload) × ExpertCache Meta Payload
  cache_get src c layer expert =
      let (e, gc) = get src c.gc (expert_key c.n_experts layer expert) in
      if out_of_range c.n_layers c.n_experts layer expert then (none, c) else (e, sync_stats c gc)

  -- `cache_getmany`.
  unfoldable pub cache_getmany :
      Source Meta Payload → ExpertCache Meta Payload → ℤ → List ℤ → ℕ × ExpertCache Meta Payload
  cache_getmany src c layer [] = (0, c)
  cache_getmany src c layer (e ∷ ids) =
      let (n, gc) = get_many src c.gc (batch_keys c.n_experts layer (take max_topk (e ∷ ids))) in
      (n, sync_stats c gc)

  -- `cache_resident`.
  unfoldable pub cache_resident : ExpertCache Meta Payload → ℤ → ℤ → Option (Entry Meta Payload)
  cache_resident c layer expert =
      if out_of_range c.n_layers c.n_experts layer expert
      then none
      else peek c.gc (expert_key c.n_experts layer expert)

  -- `k3_cache_pin`, which does not copy the counters.
  unfoldable pub cache_pin :
      ExpertCache Meta Payload → ℤ → ℤ → Bool → Bool × ExpertCache Meta Payload
  cache_pin c layer expert on =
      let (done, gc) = pin c.gc (expert_key c.n_experts layer expert) on in
      if out_of_range c.n_layers c.n_experts layer expert
      then (false, c)
      else (done, record c { gc = gc })

  -- `k3_cache_prefetch`, which checks no range of its own.
  unfoldable pub cache_prefetch :
      Source Meta Payload → ExpertCache Meta Payload → ℤ → ℤ → Bool × ExpertCache Meta Payload
  cache_prefetch src c layer expert =
      let (e, gc) = get src c.gc (expert_key c.n_experts layer expert) in
      (is_some e, sync_stats c gc)

  -- `k3_cache_reset_stats`.
  unfoldable pub cache_reset_stats : ExpertCache Meta Payload → ExpertCache Meta Payload
  cache_reset_stats c = sync_stats c (reset_stats c.gc)

  -- The pairs that `k3_cache_dump_trace` writes, or `none` for -1 where there is nothing to write.
  unfoldable pub dump_trace : ExpertCache Meta Payload → Option (List (ℕ × ℕ))
  dump_trace c = elim c.gc.trace [
    | [] ↦ none
    | k ∷ ks ↦ some (map (λ key. (layer_of c.n_experts key, expert_of c.n_experts key)) (k ∷ ks))
  ]
