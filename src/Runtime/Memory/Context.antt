-- ===== src/Runtime/Memory/Context.antt =====
-- The context length and the automatic budget of src/runtime/memory.c.
use native.Mathlib.Nat.{div-mul-le_self, lt-div-mul-add}
use multi_model_llm_engine.Base.{
  ℕ, ◌+◌, ◌-◌, ◌*◌, ◌/◌, ◌^◌, ◌≤◌, ◌<◌, ◌≡◌, ◌⊎◌, inl, inr, refl, arith, ltb, if◌then◌else◌, max,
  min, dec_lt,
}
use multi_model_llm_engine.Base.Int.{pos, ◌-ℤ◌, ◌*ℤ◌, ◌/ℤ◌}
use multi_model_llm_engine.Runtime.Memory.{max_context, auto_budget}

max_context-eq-min :
    (avail kv : ℕ) → 0 < kv → max_context (pos avail) (pos kv) ≡ pos (min (2 ^ 30) (avail / kv))
unfolding max_context
max_context-eq-min avail kv h = ground arith

min_greatest :
    (q r avail kv : ℕ)
    → q * kv ≤ avail
    → avail < q * kv + kv
    → (min r q * kv ≤ avail) × ((min r q ≡ r) ⊎ (avail < (min r q + 1) * kv))
min_greatest q r avail kv lo hi = elim (dec_lt r q) [
  | yes less ↦ let e : min r q ≡ r = omega arith in rw e (grind arith, inl refl)
  | no more ↦ let e : min r q ≡ q = omega arith in rw e (lo, inr (omega arith))
]

-- For a positive cost per position, the context that `eng_mem_max_context` finds fits, and one
-- position more would not, unless the bound of 2^30 positions is met.
max_context_greatest :
    (avail kv : ℕ)
    → 0 < kv
    → (n : ℕ) × (max_context (pos avail) (pos kv) ≡ pos n)
      × (n ≤ 2 ^ 30)
      × (n * kv ≤ avail)
      × ((n ≡ 2 ^ 30) ⊎ (avail < (n + 1) * kv))
max_context_greatest avail kv h =
    let (fits, most) =
      min_greatest (avail / kv) (2 ^ 30) avail kv (div-mul-le_self avail kv) (lt-div-mul-add h) in
    (min (2 ^ 30) (avail / kv), max_context-eq-min avail kv h, omega arith, fits, most)

-- For sizes that are not negative, the automatic budget leaves the larger of 1 GB and a fifth of the
-- base to the rest of the system, or is 0 where there is no more than that.
auto_budget_keeps :
    (available total : ℕ)
    → let base = if ltb 0 available then available else total * 3 / 4 in
      let keep = max (2 ^ 30) (base / 5) in
      (auto_budget (pos available) (pos total) ≡ pos (base - keep))
unfolding auto_budget ◌-ℤ◌ ◌*ℤ◌ ◌/ℤ◌
auto_budget_keeps available total = ground arith
