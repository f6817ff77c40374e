-- ===== src/Kimi/ExpertCache/Served.antt =====
-- What the calls of src/cache/k3_cache.c serve, from `k3_cache_init` on.
use multi_model_llm_engine.Base.{ℕ, ◌≡◌, Bool, true, Option, none, some, List}
use multi_model_llm_engine.Base.Int.{ℤ, pos, to_i32}
use multi_model_llm_engine.Storage.Cache.Types.{Cache, Entry}
use multi_model_llm_engine.Storage.Cache.Invariant.{IsSound, IsQuiet}
use multi_model_llm_engine.Kimi.ExpertCache.{
  ExpertCache, layer_of, expert_of, cache_get, cache_getmany, cache_pin, cache_prefetch,
  cache_reset_stats,
}
use multi_model_llm_engine.Kimi.ExpertCache.Binding.{Checkpoint, expert_source}

module _ {Payload : Type 0} (good : ℤ → ℤ → Payload → ℤ → ℤ → Bool) where
  -- The object of a key.
  unfoldable good_at : ℕ → ℕ → Payload → ℤ → ℤ → Bool
  good_at n key = good (to_i32 (pos (layer_of n key))) (to_i32 (pos (expert_of n key)))

module _ {Meta Payload : Type 0} (good : ℤ → ℤ → Payload → ℤ → ℤ → Bool) where
  -- A checkpoint whose direct load, when it delivers as many bytes as the reference of an expert has, delivers the
  -- expert.
  unfoldable pub Delivers : Checkpoint Meta Payload → Type 0
  Delivers st =
      (layer expert : ℤ) (old : Meta) (buf : Payload)
      → (st.expert_ref layer expert old).0 ≡ true
      → let l = st.load_direct (st.expert_ref layer expert old).1 buf in
        l.got ≡ st.ref_bytes (st.expert_ref layer expert old).1
        → good layer expert l.bytes (to_i32 l.pad) l.got ≡ true

  -- One call on a K3 cache, with a checkpoint of its own, so that a read may fail now and succeed later.
  pub data ExpertCall (n : ℕ) : ExpertCache Meta Payload → ExpertCache Meta Payload → Type 0 where
    getting :
        (st : Checkpoint Meta Payload) (a b : Bool) (c : ExpertCache Meta Payload)
        (layer expert : ℤ)
        → Delivers st
        → ExpertCall n c (cache_get (expert_source st n a b) c layer expert).1
    getting_many :
        (st : Checkpoint Meta Payload) (a b : Bool) (c : ExpertCache Meta Payload) (layer : ℤ)
        (ids : List ℤ)
        → Delivers st
        → ExpertCall n c (cache_getmany (expert_source st n a b) c layer ids).1
    pinning :
        (c : ExpertCache Meta Payload) (layer expert : ℤ) (on : Bool)
        → ExpertCall n c (cache_pin c layer expert on).1
    prefetching :
        (st : Checkpoint Meta Payload) (a b : Bool) (c : ExpertCache Meta Payload)
        (layer expert : ℤ)
        → Delivers st
        → ExpertCall n c (cache_prefetch (expert_source st n a b) c layer expert).1
    resetting : (c : ExpertCache Meta Payload) → ExpertCall n c (cache_reset_stats c)

  pub data ExpertRun (n : ℕ) (c : ExpertCache Meta Payload)
      : ExpertCache Meta Payload → Type 0 where
    start : ExpertRun n c c
    then_run :
        {d e : ExpertCache Meta Payload} → ExpertRun n c d → ExpertCall n d e → ExpertRun n c e

  record IsHeld (n : ℕ) (c : ExpertCache Meta Payload) : Type 0 where
    pub experts : c.n_experts ≡ n
    pub inner : IsSound (good_at good n) c.gc × IsQuiet c.gc

  -- The entry, if there is one, is the expert.
  unfoldable pub ServesExpert : ℤ → ℤ → Option (Entry Meta Payload) → Type 0
  ServesExpert layer expert none = Unit {0}
  ServesExpert layer expert (some e) = good layer expert e.bytes e.start e.nbytes ≡ true
