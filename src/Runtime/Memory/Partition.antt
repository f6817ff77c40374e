-- ===== src/Runtime/Memory/Partition.antt =====
-- What `eng_mem_plan` of src/runtime/memory.c promises: the parts make up the budget.
use multi_model_llm_engine.Base.{
  ◌≡◌, inl, inr, refl, true, false, Option, none, some, arith, Bool-cases, if◌then◌else◌, ◌&&◌,
  subst, sym,
}
use multi_model_llm_engine.Base.Int.{
  ℤ, pos, ltb_ℤ, leb_ℤ, ◌+ℤ◌, ◌-ℤ◌, ◌*ℤ◌, ◌≤ℤ◌, int_laws, eq_of_parts, Same, not_ltb_ℤ→le,
}
use multi_model_llm_engine.Runtime.Memory.{
  MemPlan, MemNeeds, Outcome, Problem, fail, plan_weights, plan_kv, plan_working, plan_resident,
  reserve_of, mem_plan, max_context,
}

-- The parts of a plan, summed.
unfoldable pub total : MemPlan → ℤ
total p = p.reserve +ℤ p.resident +ℤ p.activations +ℤ p.scratch +ℤ p.kv_cache +ℤ p.weights

-- With `left` still to share out, the parts so far make up the rest.
record Balanced (budget : ℤ) (p : MemPlan) (left : ℤ) : Type 0 where
  shared : Same (p.reserve +ℤ p.resident +ℤ p.activations +ℤ p.scratch +ℤ p.kv_cache +ℤ left) budget
  not_yet : p.ok ≡ false

-- A viable plan's parts make up the budget, and its weights are enough.
pub record IsShared (budget : ℤ) (needs : MemNeeds) (o : Outcome) : Type 0 where
  pub whole : total o.plan ≡ budget
  pub enough : needs.min_weights ≤ℤ o.plan.weights

-- A stage leads to a plan that is shared out, if it is viable.
abbrev Leads : ℤ → MemNeeds → Outcome → Type 0
Leads budget needs o = o.plan.ok ≡ true → IsShared budget needs o

Leads-fail :
    (budget : ℤ) (needs : MemNeeds) (p : MemPlan) (c : Option ℤ) (why : Problem)
    → p.ok ≡ false
    → Leads budget needs (fail p c why)
unfolding fail
Leads-fail budget needs p c why h ok = absurd (ground arith)

-- Handing a part over keeps the sum.
shift_kv :
    (r a b c left x z budget : ℤ)
    → z ≡ pos 0
    → Same (r +ℤ a +ℤ b +ℤ c +ℤ z +ℤ left) budget
    → Same (r +ℤ a +ℤ b +ℤ c +ℤ x +ℤ (left -ℤ x)) budget
shift_kv r a b c left x z budget e h =
    let h' : Same (r +ℤ a +ℤ b +ℤ c +ℤ pos 0 +ℤ left) budget =
      subst (λ t. Same (r +ℤ a +ℤ b +ℤ c +ℤ t +ℤ left) budget) e h in
    omega int_laws

module _ (budget : ℤ) (needs : MemNeeds) where
  plan_weights-Leads :
      (p : MemPlan) (left ctx : ℤ)
      → Balanced budget p left
      → Leads budget needs (plan_weights p needs left ctx)
  unfolding plan_weights total
  plan_weights-Leads p left ctx b = elim (Bool-cases (ltb_ℤ left needs.min_weights)) [
    | inl e ↦ rw e (Leads-fail budget needs _ (some ctx) _ b.not_yet)
    | inr e ↦ rw e (λ ok. record {
      whole = eq_of_parts _ _ b.shared;
      enough = not_ltb_ℤ→le left needs.min_weights e;
    })
  ]

  plan_kv-Leads :
      (p : MemPlan) (left : ℤ)
      → Balanced budget p left
      → p.kv_cache ≡ pos 0
      → Leads budget needs (plan_kv p needs left)
  unfolding plan_kv
  plan_kv-Leads p left b z =
      elim (Bool-cases (ltb_ℤ (pos 0) needs.kv_per_pos && ltb_ℤ (pos 0) needs.context)) [
        | inr off ↦ rw off (plan_weights-Leads p left needs.context b)
        | inl on ↦ elim (Bool-cases (leb_ℤ (left -ℤ needs.min_weights) (pos 0))) [
          | inl e ↦ rw (on, e) (Leads-fail budget needs p none _ b.not_yet)
          | inr e ↦ elim (Bool-cases (leb_ℤ ctx (pos 0))) [
            | inl f ↦ rw (on, e, f) (Leads-fail budget needs p none _ b.not_yet)
            | inr f ↦
                rw (on, e, f)
                  (plan_weights-Leads (record p { kv_cache = kv }) (left -ℤ kv) ctx
                    (record {
                      shared =
                          shift_kv p.reserve p.resident p.activations p.scratch left kv p.kv_cache
                            budget z b.shared;
                      not_yet = b.not_yet;
                    }))
          ]
        ]
      ]
    where
      ctx : ℤ
      ctx =
          if ltb_ℤ (left -ℤ needs.min_weights) (needs.context *ℤ needs.kv_per_pos)
          then max_context (left -ℤ needs.min_weights) needs.kv_per_pos
          else needs.context

      kv : ℤ
      kv = ctx *ℤ needs.kv_per_pos

  plan_working-Leads :
      (p : MemPlan) (left : ℤ)
      → Same (p.reserve +ℤ p.resident +ℤ left) budget
      → p.ok ≡ false
      → p.kv_cache ≡ pos 0
      → Leads budget needs (plan_working p needs left)
  unfolding plan_working
  plan_working-Leads p left b n z =
      elim (Bool-cases (ltb_ℤ left (needs.activations +ℤ needs.scratch))) [
        | inl e ↦ rw e (Leads-fail budget needs _ none _ n)
        | inr e ↦ rw e (
            plan_kv-Leads (record p { activations = needs.activations; scratch = needs.scratch })
              (left -ℤ (needs.activations +ℤ needs.scratch))
              (record {
                shared =
                    subst
                      (λ t.
                        Same
                          (p.reserve
                            +ℤ p.resident
                            +ℤ needs.activations
                            +ℤ needs.scratch
                            +ℤ t
                            +ℤ (left -ℤ (needs.activations +ℤ needs.scratch)))
                          budget)
                      (sym z) (omega int_laws);
                not_yet = n;
              })
              z)
      ]

  plan_resident-Leads :
      (p : MemPlan) (left : ℤ)
      → Same (p.reserve +ℤ left) budget
      → p.ok ≡ false
      → p.kv_cache ≡ pos 0
      → Leads budget needs (plan_resident p needs left)
  unfolding plan_resident
  plan_resident-Leads p left b n z = elim (Bool-cases (ltb_ℤ left needs.resident)) [
    | inl e ↦ rw e (Leads-fail budget needs _ none _ n)
    | inr e ↦ rw e (
        plan_working-Leads (record p { resident = needs.resident }) (left -ℤ needs.resident)
          (omega int_laws) n z)
  ]

  -- When `eng_mem_plan` finds a budget viable, the reserve, the resident weights, the activations, the
  -- scratch, the KV cache and the weights add up to exactly the budget, and the weights are at least
  -- `min_weights`.
  pub mem_plan-IsShared :
      (mem_plan budget needs).plan.ok ≡ true → IsShared budget needs (mem_plan budget needs)
  unfolding mem_plan
  mem_plan-IsShared = elim (Bool-cases (leb_ℤ budget (pos 0))) [
    | inl e ↦ rw e (Leads-fail budget needs _ none _ refl)
    | inr e ↦ elim (Bool-cases (leb_ℤ budget (reserve_of budget))) [
      | inl f ↦ rw (e, f) (Leads-fail budget needs _ none _ refl)
      | inr f ↦
          rw (e, f) (plan_resident-Leads _ (budget -ℤ reserve_of budget) (omega int_laws) refl refl)
    ]
  ]
