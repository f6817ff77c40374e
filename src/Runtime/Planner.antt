-- ===== src/Runtime/Planner.antt =====
-- The planner: src/runtime/planner.c and planner.h. The notes and messages are left out, and the
-- rates are kept as the two numbers that they are the quotient of.
pub mod Budgets
mod Tests
use multi_model_llm_engine.Base.{
  ℕ, ◌+◌, ◌*◌, ◌/◌, Bool, true, false, not, ◌&&◌, ◌||◌, Option, none, some, ltb, leb, if◌then◌else◌,
}
use multi_model_llm_engine.Base.Int.{ℤ, pos, pos_part, ltb_ℤ, leb_ℤ, to_i32, ◌+ℤ◌, ◌-ℤ◌, ◌*ℤ◌, ◌/ℤ◌}
use multi_model_llm_engine.Runtime.Memory.{
  MemPlan, MemNeeds, Outcome, mem_plan, max_context, auto_budget,
}

-- What the planner reads of `EngHwInfo`.
pub record HwInfo : Type 0 where
  pub cores_physical : ℤ
  pub cores_logical : ℤ
  pub ram_available : ℤ
  pub ram_total : ℤ

-- `EngModelFacts`. `narrow` is the test 0.0 < bytes_per_weight < 1.0.
pub record ModelFacts : Type 0 where
  pub n_layers : ℤ
  pub total_weight_bytes : ℤ
  pub resident_bytes : ℤ
  pub max_layer_bytes : ℤ
  pub avg_layer_bytes : ℤ
  pub activation_bytes : ℤ
  pub scratch_bytes : ℤ
  pub kv_bytes_per_pos : ℤ
  pub context_max : ℤ
  pub n_experts : ℤ
  pub topk : ℤ
  pub expert_bytes : ℤ
  pub narrow : Bool

-- `force_stream`: -1, 0 and 1.
pub data Force : Type 0 where
  automatic require_resident force_streaming : Force

-- `EngPlanRequest`.
pub record PlanRequest : Type 0 where
  pub memory_budget : ℤ
  pub threads : ℤ
  pub context : ℤ
  pub force_stream : Force

-- `eng_plan_request_init`, and what stands for a request that is NULL.
abbrev pub default_request : PlanRequest
default_request = record {
  memory_budget = pos 0;
  threads = pos 0;
  context = pos 0;
  force_stream = Force.automatic;
}

-- `predicted_stream_hit_rate`: -1 where it does not apply, else a quotient.
pub data Rate : Type 0 where
  not_applicable : Rate
  quotient : ℤ → ℤ → Rate

-- `EngPlan`.
pub record Plan : Type 0 where
  pub memory_budget : ℤ
  pub threads : ℤ
  pub context : ℤ
  pub streaming : Bool
  pub stream_budget : ℤ
  pub cache_budget : ℤ
  pub prefetch_depth : ℕ
  pub mem : MemPlan
  pub hit_rate : Rate

-- `problem`, by the place that sets it.
pub data PlanProblem : Type 0 where
  no_memory not_partitioned not_resident : PlanProblem

pub data PlanResult : Type 0 where
  viable : Plan → PlanResult
  refused : PlanProblem → PlanResult

-- ENG_DEFAULT_CONTEXT.
abbrev pub default_context : ℤ
default_context = pos 4096

-- `choose_threads`.
unfoldable pub choose_threads : HwInfo → ModelFacts → ℤ
choose_threads hw m =
    let phys = if ltb_ℤ (pos 0) hw.cores_physical then hw.cores_physical else pos 1 in
    let logi = if ltb_ℤ (pos 0) hw.cores_logical then hw.cores_logical else phys in
    if m.narrow then logi else phys

-- `needs.context`.
unfoldable pub choose_context : ℤ → ModelFacts → PlanRequest → ℤ
choose_context budget m req =
    let modest =
      if ltb_ℤ (pos 0) m.context_max && ltb_ℤ m.context_max default_context
      then m.context_max
      else default_context in
    let spare = budget -ℤ m.resident_bytes -ℤ m.activation_bytes -ℤ m.scratch_bytes in
    let kv_cap = if ltb_ℤ (pos 0) spare then spare /ℤ 4 else pos 0 in
    let fits = max_context kv_cap m.kv_bytes_per_pos in
    if ltb_ℤ (pos 0) req.context
    then req.context
    else if ltb_ℤ (pos 0) m.kv_bytes_per_pos
    then if ltb_ℤ (pos 0) fits && ltb_ℤ fits modest then fits else modest
    else modest

-- `needs`.
unfoldable pub needs_of : ℤ → ModelFacts → PlanRequest → MemNeeds
needs_of budget m req = record {
  resident = m.resident_bytes;
  activations = m.activation_bytes;
  scratch = m.scratch_bytes;
  kv_per_pos = m.kv_bytes_per_pos;
  context = choose_context budget m req;
  min_weights = if ltb_ℤ (pos 0) m.max_layer_bytes then m.max_layer_bytes else m.avg_layer_bytes;
}

-- The stream and cache budgets of a streaming plan.
unfoldable pub split_weights : ModelFacts → ℤ → ℤ × ℤ
split_weights m wbudget =
    let cache_min = (m.topk +ℤ pos 1) *ℤ m.expert_bytes in
    if ltb_ℤ (pos 0) m.n_experts && ltb_ℤ (pos 0) m.expert_bytes
    then if ltb_ℤ (cache_min +ℤ m.max_layer_bytes *ℤ pos 2) wbudget
      then (wbudget -ℤ cache_min, cache_min)
      else (wbudget -ℤ wbudget /ℤ 2, wbudget /ℤ 2)
    else (wbudget, pos 0)

-- The rate predicted for a streaming plan.
unfoldable pub predicted_rate : ModelFacts → ℤ → Rate
predicted_rate m stream_budget =
    let slot = if ltb_ℤ (pos 0) m.max_layer_bytes then m.max_layer_bytes else m.avg_layer_bytes in
    let after_ring = stream_budget -ℤ pos 2 *ℤ slot in
    let npin =
      if ltb_ℤ (pos 0) after_ring
      then to_i32 (after_ring /ℤ pos_part m.avg_layer_bytes)
      else pos 0 in
    if ltb_ℤ (pos 0) m.avg_layer_bytes && ltb_ℤ (pos 0) m.n_layers
    then quotient (if ltb_ℤ m.n_layers npin then m.n_layers else npin) m.n_layers
    else not_applicable

-- `eng_plan` behind the memory partition: resident or streaming.
unfoldable pub place_weights : ℤ → ℤ → ℤ → ModelFacts → PlanRequest → MemPlan → PlanResult
place_weights budget threads ctx m req mem =
    let streamable = m.total_weight_bytes -ℤ m.resident_bytes in
    let short = ltb_ℤ mem.weights streamable in
    let forced = elim req.force_stream as (λ _. Bool) [
      | Force.force_streaming ↦ true
      | _ ↦ false
    ] in
    let must_fit = elim req.force_stream as (λ _. Bool) [
      | Force.require_resident ↦ true
      | _ ↦ false
    ] in
    let (stream, cache) = split_weights m mem.weights in
    if must_fit && short
    then refused not_resident
    else if forced || short
    then viable (record {
      memory_budget = budget;
      threads = threads;
      context = ctx;
      streaming = true;
      stream_budget = stream;
      cache_budget = cache;
      prefetch_depth = 1;
      mem = mem;
      hit_rate = predicted_rate m stream;
    })
    else viable (record {
      memory_budget = budget;
      threads = threads;
      context = ctx;
      streaming = false;
      stream_budget = streamable;
      cache_budget = mem.weights -ℤ streamable;
      prefetch_depth = 0;
      mem = mem;
      hit_rate = quotient (pos 1) (pos 1);
    })

-- `eng_plan`, for pointers that are not NULL.
unfoldable pub eng_plan : HwInfo → ModelFacts → PlanRequest → PlanResult
eng_plan hw m req =
    let budget =
      if ltb_ℤ (pos 0) req.memory_budget
      then req.memory_budget
      else auto_budget hw.ram_available hw.ram_total in
    let threads = if ltb_ℤ (pos 0) req.threads then req.threads else choose_threads hw m in
    let needs = needs_of budget m req in
    let o = mem_plan budget needs in
    if leb_ℤ budget (pos 0)
    then refused no_memory
    else if not o.plan.ok
    then refused not_partitioned
    else place_weights budget threads (elim o.context_out [ none ↦ needs.context | some c ↦ c ]) m
        req o.plan
