-- ===== src/Kimi/ExpertCache/Keys.antt =====
-- The keys of src/cache/k3_cache.c: which pairs they tell apart, and what the range check refuses.
use native.Mathlib.Nat.{mul-add-div_right, div-eq_of_lt, mul-add-mod_self_right, mod-eq_of_lt}
use multi_model_llm_engine.Base.{
  ℕ, ◌+◌, ◌*◌, ◌/◌, ◌%◌, ◌^◌, ◌<◌, ◌≡◌, ap, ◌∙◌, sym, refl, Bool, true, false, none, arith,
}
use multi_model_llm_engine.Base.Int.{ℤ, pos, to_u64, to_u64_small, pos-mul, pos-add}
use multi_model_llm_engine.Storage.Cache.Types.{Source}
use multi_model_llm_engine.Kimi.ExpertCache.{
  ExpertCache, expert_key, layer_of, expert_of, out_of_range, cache_get, cache_pin, cache_resident,
  cache_prefetch,
}

expert_key-pos : (n l e : ℕ) → expert_key n (pos l) (pos e) ≡ to_u64 (pos (l * n + e))
unfolding expert_key
expert_key-pos n l e = rw (pos-mul l n, pos-add (l * n) e)

expert_key-small : (n l e : ℕ) → l * n + e < 2 ^ 64 → expert_key n (pos l) (pos e) ≡ l * n + e
expert_key-small n l e h = expert_key-pos n l e ∙ to_u64_small (l * n + e) h

div-of-sum : (n l e : ℕ) → e < n → (l * n + e) / n ≡ l
div-of-sum n l e h = mul-add-div_right {m = n} (omega arith) l e ∙ rw (div-eq_of_lt h) (omega arith)

mod-of-sum : (n l e : ℕ) → e < n → (l * n + e) % n ≡ e
mod-of-sum n l e h = mul-add-mod_self_right l n e ∙ mod-eq_of_lt h

-- A key gives its layer and its expert back, if the expert is below the number of experts and the
-- key is below 2^64.
pub parts-expert_key :
    (n l e : ℕ)
    → e < n
    → l * n + e < 2 ^ 64
    → (layer_of n (expert_key n (pos l) (pos e)) ≡ l)
      × (expert_of n (expert_key n (pos l) (pos e)) ≡ e)
unfolding layer_of expert_of
parts-expert_key n l e h small =
    rw (expert_key-small n l e small) (div-of-sum n l e h, mod-of-sum n l e h)

-- The expert behind the last one of a layer has the key of the first expert of the next layer, which
-- `k3_cache_prefetch`, without a range check, therefore loads for it: whatever the cache and the
-- source, both calls give the same result and leave the same cache.
pub cache_prefetch_alias :
    {Meta Payload : Type 0} (src : Source Meta Payload) (c : ExpertCache Meta Payload) (l : ℕ)
    → cache_prefetch src c (pos l) (pos c.n_experts) ≡ cache_prefetch src c (pos (l + 1)) (pos 0)
unfolding cache_prefetch
cache_prefetch_alias src c l = rw same_key
  where
    same_key :
        expert_key c.n_experts (pos l) (pos c.n_experts)
        ≡ expert_key c.n_experts (pos (l + 1)) (pos 0)
    same_key =
        expert_key-pos c.n_experts l c.n_experts
        ∙ ap (λ k. to_u64 (pos k)) (grind arith)
        ∙ sym (expert_key-pos c.n_experts (l + 1) 0)

-- Out of range, `cache_get` and `k3_cache_pin` fail and change nothing, and `cache_resident` finds
-- nothing.
pub out_of_range-refused :
    {Meta Payload : Type 0} (src : Source Meta Payload) (c : ExpertCache Meta Payload)
    (layer expert : ℤ) (on : Bool)
    → out_of_range c.n_layers c.n_experts layer expert ≡ true
    → (cache_get src c layer expert ≡ (none, c))
      × (cache_pin c layer expert on ≡ (false, c))
      × (cache_resident c layer expert ≡ none)
unfolding cache_get cache_pin cache_resident
out_of_range-refused src c layer expert on h = rw h (refl, refl, refl)
