-- ===== src/Runtime/Planner/Tests.antt =====
-- The theorems on src/runtime/planner.c, at a model of eight layers on a machine of 8 GB.
use multi_model_llm_engine.Base.{◌^◌, ◌≡◌, refl, false}
use multi_model_llm_engine.Base.Int.{pos, to_i32, ◌+ℤ◌, ◌-ℤ◌, ◌*ℤ◌, ◌/ℤ◌}
use multi_model_llm_engine.Runtime.Memory.{
  plan_weights, plan_kv, plan_working, plan_resident, reserve_of, mem_plan, max_context,
  auto_budget,
}
use multi_model_llm_engine.Runtime.Planner.{
  default_request, HwInfo, ModelFacts, Rate, Plan, PlanResult, viable, choose_threads,
  choose_context, needs_of, split_weights, predicted_rate, place_weights, eng_plan,
}
use multi_model_llm_engine.Runtime.Planner.Budgets.{IsPlanned, eng_plan-IsPlanned}

abbrev machine : HwInfo
machine = record {
  cores_physical = pos 4;
  cores_logical = pos 8;
  ram_available = pos (2 ^ 33);
  ram_total = pos (2 ^ 34);
}

abbrev model : ModelFacts
model = record {
  n_layers = pos 8;
  total_weight_bytes = pos (2 ^ 34);
  resident_bytes = pos (2 ^ 30);
  max_layer_bytes = pos (2 ^ 31);
  avg_layer_bytes = pos (2 ^ 30);
  activation_bytes = pos (2 ^ 26);
  scratch_bytes = pos (2 ^ 26);
  kv_bytes_per_pos = pos (2 ^ 12);
  context_max = pos 0;
  n_experts = pos 64;
  topk = pos 8;
  expert_bytes = pos (2 ^ 24);
  narrow = false;
}

abbrev plan_of : PlanResult → Plan → Plan
plan_of (viable p) d = p
plan_of (PlanResult.refused _) d = d

abbrev no_plan : Plan
no_plan = record {
  memory_budget = pos 0;
  threads = pos 0;
  context = pos 0;
  streaming = false;
  stream_budget = pos 0;
  cache_budget = pos 0;
  prefetch_depth = 0;
  mem = (mem_plan (pos 0) (needs_of (pos 0) model default_request)).plan;
  hit_rate = Rate.not_applicable;
}

planned :
    eng_plan machine model default_request
    ≡ viable (plan_of (eng_plan machine model default_request) no_plan)
unfolding eng_plan choose_threads choose_context needs_of split_weights predicted_rate place_weights
    mem_plan reserve_of plan_resident plan_working plan_kv plan_weights max_context auto_budget
    to_i32 ◌+ℤ◌ ◌-ℤ◌ ◌*ℤ◌ ◌/ℤ◌
planned = refl

eng_plan-IsPlanned_example :
    IsPlanned machine model default_request
      (plan_of (eng_plan machine model default_request) no_plan)
eng_plan-IsPlanned_example =
    eng_plan-IsPlanned machine model default_request
      (plan_of (eng_plan machine model default_request) no_plan) planned
