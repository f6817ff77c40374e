-- ===== src/Runtime/Memory/Tests.antt =====
-- The theorems on src/runtime/memory.c, at a budget of 8 GB.
use multi_model_llm_engine.Base.{◌^◌, ◌≡◌, refl, true}
use multi_model_llm_engine.Base.Int.{pos, ◌+ℤ◌, ◌-ℤ◌, ◌*ℤ◌, ◌/ℤ◌}
use multi_model_llm_engine.Runtime.Memory.{
  MemNeeds, plan_weights, plan_kv, plan_working, plan_resident, reserve_of, mem_plan, max_context,
}
use multi_model_llm_engine.Runtime.Memory.Partition.{IsShared, mem_plan-IsShared}

abbrev needs : MemNeeds
needs = record {
  resident = pos (2 ^ 30);
  activations = pos (2 ^ 26);
  scratch = pos (2 ^ 26);
  kv_per_pos = pos (2 ^ 17);
  context = pos 8192;
  min_weights = pos (2 ^ 28);
}

viable : (mem_plan (pos (2 ^ 33)) needs).plan.ok ≡ true
unfolding mem_plan reserve_of plan_resident plan_working plan_kv plan_weights max_context ◌+ℤ◌ ◌-ℤ◌
    ◌*ℤ◌ ◌/ℤ◌
viable = refl

mem_plan-IsShared_example : IsShared (pos (2 ^ 33)) needs (mem_plan (pos (2 ^ 33)) needs)
mem_plan-IsShared_example = mem_plan-IsShared (pos (2 ^ 33)) needs viable
