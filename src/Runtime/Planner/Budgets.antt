-- ===== src/Runtime/Planner/Budgets.antt =====
-- What `eng_plan` of src/runtime/planner.c promises of the weight budget it divides.
use multi_model_llm_engine.Base.{
  ◌≡◌, ◌≢◌, refl, sym, subst, inl, inr, Bool, true, false, not, none, some, arith, Bool-cases,
  if◌then◌else◌, ◌&&◌, ◌||◌,
}
use multi_model_llm_engine.Base.Int.{ℤ, pos, ltb_ℤ, leb_ℤ, ◌+ℤ◌, ◌-ℤ◌, ◌*ℤ◌, int_laws, eq_of_parts}
use multi_model_llm_engine.Runtime.Memory.{MemPlan, Outcome, mem_plan, auto_budget}
use multi_model_llm_engine.Runtime.Memory.Partition.{IsShared, mem_plan-IsShared}
use multi_model_llm_engine.Runtime.Planner.{
  HwInfo, ModelFacts, Force, PlanRequest, Plan, PlanProblem, PlanResult, refused, viable,
  choose_threads, needs_of, split_weights, place_weights, eng_plan, no_memory, not_partitioned,
}

give_back : (w x : ℤ) → (w -ℤ x) +ℤ x ≡ w
give_back w x = eq_of_parts _ _ (omega int_laws)

keep_all : (w : ℤ) → w +ℤ pos 0 ≡ w
keep_all w = eq_of_parts _ _ (omega int_laws)

-- The stream and the cache budget of a streaming plan add up to the weight budget.
pub split_weights_whole :
    (m : ModelFacts) (w : ℤ) → let (stream, cache) = split_weights m w in (stream +ℤ cache ≡ w)
unfolding split_weights
split_weights_whole m w =
    elim (Bool-cases (ltb_ℤ (pos 0) m.n_experts && ltb_ℤ (pos 0) m.expert_bytes)) [
      | inr e ↦ rw e (keep_all w)
      | inl e ↦
          elim (Bool-cases
            (ltb_ℤ ((m.topk +ℤ pos 1) *ℤ m.expert_bytes +ℤ m.max_layer_bytes *ℤ pos 2) w)) [
              | inl f ↦ rw (e, f) (give_back w _)
              | inr f ↦ rw (e, f) (give_back w _)
            ]
    ]

-- `forced` and the test that refuses to stream.
abbrev pub is_forced : Force → Bool
is_forced Force.force_streaming = true
is_forced Force.automatic = false
is_forced Force.require_resident = false

abbrev pub must_fit : Force → Bool
must_fit Force.require_resident = true
must_fit Force.automatic = false
must_fit Force.force_streaming = false

-- The budget that `eng_plan` divides: the one asked for, or the automatic one.
abbrev pub budget_of : HwInfo → PlanRequest → ℤ
budget_of hw req =
    if ltb_ℤ (pos 0) req.memory_budget
    then req.memory_budget
    else auto_budget hw.ram_available hw.ram_total

-- The weights that can be streamed.
abbrev pub streamable : ModelFacts → ℤ
streamable m = m.total_weight_bytes -ℤ m.resident_bytes

-- What a plan does with the weights of its memory partition.
pub record IsPlaced (m : ModelFacts) (req : PlanRequest) (p : Plan) : Type 0 where
  pub divided : p.stream_budget +ℤ p.cache_budget ≡ p.mem.weights
  pub streams_iff_short :
      p.streaming ≡ (is_forced req.force_stream || ltb_ℤ p.mem.weights (streamable m))
  pub obeys : (must_fit req.force_stream && p.streaming) ≡ false

-- The same for the result of the planner, where it is a plan for the partition `mem`.
OnViable : ModelFacts → PlanRequest → MemPlan → PlanResult → Type 0
OnViable m req mem (refused _) = Unit
OnViable m req mem (viable p) = IsPlaced m req p × (p.mem ≡ mem)

exchange : (w s : ℤ) → s +ℤ (w -ℤ s) ≡ w
exchange w s = eq_of_parts _ _ (omega int_laws)

place_weights-OnViable :
    (budget threads ctx : ℤ) (m : ModelFacts) (req : PlanRequest) (mem : MemPlan)
    → OnViable m req mem (place_weights budget threads ctx m req mem)
unfolding place_weights OnViable
place_weights-OnViable budget threads ctx m req mem =
    elim (Bool-cases (ltb_ℤ mem.weights (streamable m))) [
      | inl short ↦
          elim req.force_stream
            as (λ f.
              OnViable m (record req { force_stream = f }) mem
                (place_weights budget threads ctx m (record req { force_stream = f }) mem)) [
                  | Force.automatic ↦ rw short (
                    record {
                      divided = split_weights_whole m mem.weights;
                      streams_iff_short = sym short;
                      obeys = refl;
                    },
                    refl,
                  )
                  | Force.require_resident ↦ rw short tt
                  | Force.force_streaming ↦ (
                    record {
                      divided = split_weights_whole m mem.weights;
                      streams_iff_short = refl;
                      obeys = refl;
                    },
                    refl,
                  )
                ]
      | inr fits ↦
          elim req.force_stream
            as (λ f.
              OnViable m (record req { force_stream = f }) mem
                (place_weights budget threads ctx m (record req { force_stream = f }) mem)) [
                  | Force.automatic ↦ rw fits (
                    record { divided = exchange _ _; streams_iff_short = sym fits; obeys = refl },
                    refl,
                  )
                  | Force.require_resident ↦ rw fits (
                    record { divided = exchange _ _; streams_iff_short = sym fits; obeys = refl },
                    refl,
                  )
                  | Force.force_streaming ↦ (
                    record {
                      divided = split_weights_whole m mem.weights;
                      streams_iff_short = refl;
                      obeys = refl;
                    },
                    refl,
                  )
                ]
    ]

OnViable-of :
    (m : ModelFacts) (req : PlanRequest) (mem : MemPlan) (r : PlanResult) (p : Plan)
    → OnViable m req mem r
    → r ≡ viable p
    → IsPlaced m req p × (p.mem ≡ mem)
unfolding OnViable
OnViable-of m req mem r p held e = subst (OnViable m req mem) e held

refused-viable : (why : PlanProblem) (p : Plan) → refused why ≢ viable p
refused-viable why p h = ground arith

threads_of : HwInfo → ModelFacts → PlanRequest → ℤ
threads_of hw m req = if ltb_ℤ (pos 0) req.threads then req.threads else choose_threads hw m

module _ (budget threads : ℤ) (m : ModelFacts) (req : PlanRequest) where
  partition : Outcome
  partition = mem_plan budget (needs_of budget m req)

  context_of : ℤ
  context_of = elim partition.context_out [ none ↦ (needs_of budget m req).context | some c ↦ c ]

  partitioned :
      (p : Plan)
      → (if leb_ℤ budget (pos 0)
          then refused no_memory
          else if not partition.plan.ok
          then refused not_partitioned
          else place_weights budget threads context_of m req partition.plan)
        ≡ viable p
      → IsPlaced m req p
        × (p.mem ≡ partition.plan)
        × IsShared budget (needs_of budget m req) partition
  unfolding partition
  partitioned p h = elim (Bool-cases (leb_ℤ budget (pos 0))) [
    | inl e ↦ absurd (refused-viable _ p (rw e at h))
    | inr e ↦ elim (Bool-cases partition.plan.ok) [
      | inr f ↦ absurd (refused-viable _ p (rw (e, f) at h))
      | inl f ↦
          let (placed, same) =
            OnViable-of m req partition.plan _ p
              (place_weights-OnViable budget threads context_of m req partition.plan)
              (rw (e, f) at h) in
          (placed, same, mem_plan-IsShared budget (needs_of budget m req) f)
    ]
  ]

-- What a viable plan is: its weights are placed, and its partition is that of the budget.
pub record IsPlanned (hw : HwInfo) (m : ModelFacts) (req : PlanRequest) (p : Plan) : Type 0 where
  pub placed : IsPlaced m req p
  pub partition_of : p.mem ≡ (mem_plan (budget_of hw req) (needs_of (budget_of hw req) m req)).plan
  pub shared :
      IsShared
        (budget_of hw req)
        (needs_of (budget_of hw req) m req)
        (mem_plan (budget_of hw req) (needs_of (budget_of hw req) m req))

-- A plan that `eng_plan` finds viable divides the weight budget of its memory partition into the stream
-- and the cache budget without remainder. It streams exactly if streaming is forced or the streamable
-- weights exceed that budget, and never where the request requires residency. Its partition is that of
-- the budget asked for, or else of the automatic one, and its parts add up to that budget.
pub eng_plan-IsPlanned :
    (hw : HwInfo) (m : ModelFacts) (req : PlanRequest) (p : Plan)
    → eng_plan hw m req ≡ viable p
    → IsPlanned hw m req p
unfolding eng_plan partition context_of threads_of
eng_plan-IsPlanned hw m req p h =
    let (placed, same, shared) = partitioned (budget_of hw req) (threads_of hw m req) m req p h in
    record { placed = placed; partition_of = same; shared = shared }
