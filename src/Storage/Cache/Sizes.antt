-- ===== src/Storage/Cache/Sizes.antt =====
-- How large slots and the arena are: `eng_cache_stride_for` and `eng_cache_create` of src/storage/cache.c.
use multi_model_llm_engine.Base.{ℕ, ◌+◌, ◌*◌, ◌/◌, ◌%◌, ◌^◌, ◌≤◌, ◌<◌, ◌≡◌, Bool, some, arith, ap}
use native.Mathlib.Nat.{div-add-mod}
use multi_model_llm_engine.Base.Int.{pos, ◌≤ℤ◌, ◌/ℤ◌, to_i32, to_i32_small}
use multi_model_llm_engine.Storage.Cache.Types.{CacheCfg, Cache, stride_for, io_align}
use multi_model_llm_engine.Storage.Cache.Admit.{create}

-- A slot's stride is a multiple of the I/O alignment, has room for the payload and for one unit of
-- alignment at each end, and wastes less than one unit more.
pub stride_for_bounds :
    (payload : ℕ)
    → let stride = stride_for (pos payload) in
      (stride % io_align ≡ 0)
      × (payload + 2 * io_align ≤ stride)
      × (stride < payload + 3 * io_align)
unfolding stride_for
stride_for_bounds payload = omega arith

-- Every slot of the arena, at its number of strides behind the start, is at a multiple of the I/O
-- alignment.
pub slot_base_aligned : (payload slot : ℕ) → (slot * stride_for (pos payload)) % io_align ≡ 0
slot_base_aligned payload slot =
    let (aligned, _, _) = stride_for_bounds payload in
    let q = stride_for (pos payload) / io_align in
    let e : stride_for (pos payload) ≡ q * 4096 = omega arith in omega (arith, ap (λ t. slot * t) e)

module _ {Meta Payload : Type 0} where
  -- A cache that is built from a budget and a slot size that are not negative, and that would have
  -- fewer than 2^31 slots, has as many whole slots as its budget holds, at least one and at least
  -- `min_slots`, and they fit in the budget.
  pub create_fits :
      (cfg : CacheCfg) (ok : Bool) (fresh : ℕ → Payload) (no_meta : ℕ → Meta) (budget payload : ℕ)
      {c : Cache Meta Payload}
      → cfg.budget_bytes ≡ pos budget
      → cfg.slot_bytes ≡ pos payload
      → budget / stride_for (pos payload) < 2 ^ 31
      → create cfg ok fresh no_meta ≡ some c
      → (c.nslot ≡ budget / stride_for (pos payload))
        × (c.nslot * c.stride ≤ budget)
        × (1 ≤ c.nslot)
        × (cfg.min_slots ≤ℤ pos c.nslot)
  unfolding create ◌/ℤ◌
  create_fits cfg ok fresh no_meta budget payload {c} e f small made =
      let stride = stride_for (pos payload) in
      let g : to_i32 (cfg.budget_bytes /ℤ stride_for cfg.slot_bytes) ≡ pos (budget / stride) =
        rw (e, f) (to_i32_small (budget / stride) small) in
      let n : c.nslot ≡ budget / stride = ground (arith, g) in
      let st : c.stride ≡ stride = ground arith in
      (
        n,
        rw (n, st) (omega (arith, div-add-mod budget stride)),
        ground (arith, g),
        ground (arith, g),
      )
