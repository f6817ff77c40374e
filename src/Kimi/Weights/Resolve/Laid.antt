-- ===== src/Kimi/Weights/Resolve/Laid.antt =====
-- `k3_bind_layer` of src/model/k3_bind.c, whose plan is a matter of the layer's kind.
use multi_model_llm_engine.Base.{
  ℕ, ◌≡◌, refl, inl, inr, Bool, true, false, Option, some, List, map, if◌then◌else◌, arith,
  Bool-cases, All, All-append,
}
use multi_model_llm_engine.Io.Shards.{K3Tensor}
use multi_model_llm_engine.Kimi.Weights.{
  K3Cfg, Weight, reqw, reqw_prefix, reqn, norm_reqs, mla_reqs, kda_reqs, dense_reqs, moe_reqs,
  plan_layer, is_mla, is_dense_layer,
}
use multi_model_llm_engine.Kimi.Weights.Resolve.{Resolved, bind_layer}
use multi_model_llm_engine.Kimi.Weights.Resolve.Layout.{
  HasTensor, TakesWhole, as_wide, IsLaid, bind_plan-IsLaid,
}

widened_layer :
    (c : K3Cfg) (layer : ℕ) → plan_layer false c layer ≡ map as_wide (plan_layer true c layer)
unfolding plan_layer norm_reqs mla_reqs kda_reqs dense_reqs moe_reqs reqw reqn reqw_prefix
widened_layer c layer = elim (Bool-cases (is_mla c layer)) [
  | inl a ↦ elim (Bool-cases (is_dense_layer c layer)) [
    | inl b ↦ elim (Bool-cases c.mla_out_gate) [
      | inl g ↦ rw (a, b, g) refl
      | inr g ↦ rw (a, b, g) refl
    ]
    | inr b ↦ elim (Bool-cases c.mla_out_gate) [
      | inl g ↦ rw (a, b, g) refl
      | inr g ↦ rw (a, b, g) refl
    ]
  ]
  | inr a ↦ elim (Bool-cases (is_dense_layer c layer)) [
    | inl b ↦ rw (a, b) refl
    | inr b ↦ rw (a, b) refl
  ]
]

attention-TakesWhole :
    (c : K3Cfg) (mla : Bool) → All TakesWhole (if mla then mla_reqs true c else kda_reqs true c)
unfolding mla_reqs kda_reqs reqw reqn reqw_prefix
attention-TakesWhole c false = ground arith
attention-TakesWhole c true = elim (Bool-cases c.mla_out_gate) [
  | inl g ↦ rw g (ground arith)
  | inr g ↦ rw g (ground arith)
]

mlp-TakesWhole :
    (c : K3Cfg) (dense : Bool)
    → All TakesWhole (if dense then dense_reqs true c else moe_reqs true c)
unfolding dense_reqs moe_reqs reqw reqn
mlp-TakesWhole c true = ground arith
mlp-TakesWhole c false = ground arith

norm-TakesWhole : (c : K3Cfg) → All TakesWhole (norm_reqs c)
unfolding norm_reqs reqw
norm-TakesWhole c = ground arith

layer-TakesWhole : (c : K3Cfg) (layer : ℕ) → All TakesWhole (plan_layer true c layer)
unfolding plan_layer
layer-TakesWhole c layer = All-append TakesWhole (norm_reqs c) _ (norm-TakesWhole c) (
    All-append TakesWhole _ _ (attention-TakesWhole c (is_mla c layer))
      (mlp-TakesWhole c (is_dense_layer c layer)))

-- A layer whose weights are all found, with the element counts that the configuration gives, is bound: its tensors are
-- those of the plan, in order and without overlap, each on a multiple of eight bytes and within the size; and all the
-- large matrices are in the one form of the tag, as BF16 only where the file has BF16.
pub bind_layer-IsLaid :
    (find : List ℕ → Option K3Tensor) (name : ℕ → Weight → List ℕ) (c : K3Cfg) (layer : ℕ)
    → All (HasTensor find (name layer)) (plan_layer true c layer)
    → (o : Resolved × Bool) × (bind_layer find name c layer ≡ some o)
      × IsLaid find (name layer) (λ ok. plan_layer ok c layer) o
unfolding bind_layer
bind_layer-IsLaid find name c layer has =
    bind_plan-IsLaid find (name layer) (λ ok. plan_layer ok c layer) (widened_layer c layer) has
      (layer-TakesWhole c layer)
