-- ===== src/Runtime/Memory.antt =====
-- The memory budget: src/runtime/memory.c and memory.h. A plan's message is the constructor of
-- `Problem`; printing is left out.
pub mod Partition
pub mod Context
mod Tests
use multi_model_llm_engine.Base.{
  ℕ, ◌+◌, ◌-◌, ◌*◌, ◌/◌, ◌^◌, Bool, true, false, Option, none, some, ltb, leb, if◌then◌else◌, ◌&&◌,
}
use multi_model_llm_engine.Base.Int.{ℤ, pos, pos_part, ltb_ℤ, leb_ℤ, ◌+ℤ◌, ◌-ℤ◌, ◌*ℤ◌, ◌/ℤ◌}

-- Why a plan is not viable: the messages of `eng_mem_plan`, in their order.
pub data Problem : Type 0 where
  no_budget budget_below_reserve resident_too_large working_set_too_large : Problem
  no_room_for_kv no_kv_position weights_too_small : Problem

-- `EngMemPlan`; `problem` is `none` while `problem[0]` is 0.
pub record MemPlan : Type 0 where
  pub budget : ℤ
  pub reserve : ℤ
  pub resident : ℤ
  pub activations : ℤ
  pub scratch : ℤ
  pub kv_cache : ℤ
  pub weights : ℤ
  pub ok : Bool
  pub problem : Option Problem

-- `EngMemNeeds`.
pub record MemNeeds : Type 0 where
  pub resident : ℤ
  pub activations : ℤ
  pub scratch : ℤ
  pub kv_per_pos : ℤ
  pub context : ℤ
  pub min_weights : ℤ

-- What `eng_mem_plan` leaves in `*plan`, and in `*context_out` if it wrote there. It returns 0
-- exactly if `plan.ok`.
pub record Outcome : Type 0 where
  pub plan : MemPlan
  pub context_out : Option ℤ

-- `768LL << 20`, the floor of the reserve.
abbrev pub reserve_floor : ℕ
reserve_floor = 768 * 2 ^ 20

-- `eng_mem_auto_budget`.
unfoldable pub auto_budget : ℤ → ℤ → ℤ
auto_budget ram_available ram_total =
    let base = if ltb_ℤ (pos 0) ram_available then ram_available else (ram_total *ℤ pos 3) /ℤ 4 in
    let keep_prop = base /ℤ 5 in
    let keep = if ltb_ℤ (pos (2 ^ 30)) keep_prop then keep_prop else pos (2 ^ 30) in
    let budget = base -ℤ keep in
    if leb_ℤ base (pos 0) then pos 0 else if ltb_ℤ (pos 0) budget then budget else pos 0

-- `eng_mem_max_context`. Both numbers are positive at the division.
unfoldable pub max_context : ℤ → ℤ → ℤ
max_context avail kv_per_pos =
    let n = pos_part avail / pos_part kv_per_pos in
    if leb_ℤ kv_per_pos (pos 0)
    then pos 0
    else if leb_ℤ avail (pos 0)
    then pos 0
    else if ltb (2 ^ 30) n
    then pos (2 ^ 30)
    else pos n

unfoldable pub fail : MemPlan → Option ℤ → Problem → Outcome
fail plan ctx why = record { plan = record plan { problem = some why }; context_out = ctx }

-- `eng_mem_plan` from the weights on, with the context that is left.
unfoldable pub plan_weights : MemPlan → MemNeeds → ℤ → ℤ → Outcome
plan_weights plan needs left ctx =
    if ltb_ℤ left needs.min_weights
    then fail (record plan { weights = left }) (some ctx) weights_too_small
    else record { plan = record plan { weights = left; ok = true }; context_out = some ctx }

-- ... from the KV cache on.
unfoldable pub plan_kv : MemPlan → MemNeeds → ℤ → Outcome
plan_kv plan needs left =
    let for_kv = left -ℤ needs.min_weights in
    let want = needs.context *ℤ needs.kv_per_pos in
    let ctx = if ltb_ℤ for_kv want then max_context for_kv needs.kv_per_pos else needs.context in
    let kv = ctx *ℤ needs.kv_per_pos in
    if ltb_ℤ (pos 0) needs.kv_per_pos && ltb_ℤ (pos 0) needs.context
    then if leb_ℤ for_kv (pos 0)
      then fail plan none no_room_for_kv
      else if leb_ℤ ctx (pos 0)
      then fail plan none no_kv_position
      else plan_weights (record plan { kv_cache = kv }) needs (left -ℤ kv) ctx
    else plan_weights plan needs left needs.context

-- ... from the activations on.
unfoldable pub plan_working : MemPlan → MemNeeds → ℤ → Outcome
plan_working plan needs left =
    let work = needs.activations +ℤ needs.scratch in
    let plan' = record plan { activations = needs.activations; scratch = needs.scratch } in
    if ltb_ℤ left work
    then fail plan' none working_set_too_large
    else plan_kv plan' needs (left -ℤ work)

-- ... from the resident weights on.
unfoldable pub plan_resident : MemPlan → MemNeeds → ℤ → Outcome
plan_resident plan needs left =
    let plan' = record plan { resident = needs.resident } in
    if ltb_ℤ left needs.resident
    then fail plan' none resident_too_large
    else plan_working plan' needs (left -ℤ needs.resident)

-- The reserve for a positive budget.
unfoldable pub reserve_of : ℤ → ℤ
reserve_of budget =
    let res_prop = (budget *ℤ pos 12) /ℤ 100 in
    if ltb_ℤ (pos reserve_floor) res_prop then res_prop else pos reserve_floor

-- `eng_mem_plan`, for pointers that are not NULL.
unfoldable pub mem_plan : ℤ → MemNeeds → Outcome
mem_plan budget needs =
    let blank : MemPlan = record {
      budget = budget;
      reserve = pos 0;
      resident = pos 0;
      activations = pos 0;
      scratch = pos 0;
      kv_cache = pos 0;
      weights = pos 0;
      ok = false;
      problem = none;
    } in
    let reserve = reserve_of budget in
    let plan = record blank { reserve = reserve } in
    if leb_ℤ budget (pos 0)
    then fail blank none no_budget
    else if leb_ℤ budget reserve
    then fail plan none budget_below_reserve
    else plan_resident plan needs (budget -ℤ reserve)
