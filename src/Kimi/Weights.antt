-- ===== src/Kimi/Weights.antt =====
-- The tensors that src/model/k3_bind.c asks for, by layer and for the whole model, and how many elements each has. The
-- numbers of a configuration are not negative, and products stay below 2^63. A weight is the field that is set; the text
-- of a tensor's name, which `snprintf` makes of it and the layer, is a parameter where tensors are looked up.
pub mod Resolve
pub mod Packed
mod Tests
use multi_model_llm_engine.Base.{
  ℕ, ◌+◌, ◌*◌, Bool, true, false, List, [], ◌∷◌, ◌++◌, ◌==◌, ltb, if◌then◌else◌,
}

-- Of `K3Cfg`.
pub record K3Cfg : Type 0 where
  pub hidden : ℕ
  pub vocab : ℕ
  pub kda_heads : ℕ
  pub kda_head_dim : ℕ
  pub conv_k : ℕ
  pub n_heads : ℕ
  pub q_lora : ℕ
  pub kv_lora : ℕ
  pub qk_nope : ℕ
  pub qk_rope : ℕ
  pub v_head : ℕ
  pub mla_out_gate : Bool
  pub n_experts : ℕ
  pub n_shared : ℕ
  pub latent : ℕ
  pub moe_inter : ℕ
  pub first_dense : ℕ
  pub dense_inter : ℕ
  pub full_attn : List ℕ

-- `k3_is_mla` and `k3_is_dense`; the list counts layers from one.
unfoldable pub is_listed : List ℕ → ℕ → Bool
is_listed [] n = false
is_listed (i ∷ is) n = if i == n then true else is_listed is n

unfoldable pub is_mla : K3Cfg → ℕ → Bool
is_mla c layer = is_listed c.full_attn (layer + 1)

unfoldable pub is_dense_layer : K3Cfg → ℕ → Bool
is_dense_layer c layer = ltb layer c.first_dense

-- The fields of the weight structs that are bound.
pub data Weight : Type 0 where
  in_norm post_norm attn_res_norm attn_res_proj mlp_res_norm mlp_res_proj : Weight
  mla_q_a mla_q_a_norm mla_q_b mla_kv_a mla_kv_a_norm mla_kv_b mla_o mla_g : Weight
  kda_q kda_k kda_v kda_g kda_o kda_q_conv kda_k_conv kda_v_conv : Weight
  kda_f_a kda_f_b kda_b kda_a_log kda_dt_bias kda_o_norm : Weight
  dense_gate dense_up dense_down : Weight
  moe_gate moe_bias moe_down moe_up moe_latent_norm moe_sh1 moe_sh3 moe_sh2 : Weight
  model_embed model_norm model_out_res_norm model_out_res_proj model_lm_head : Weight

-- Of `Req`: the field, the elements expected and those taken, and whether the bytes are kept as they are.
pub record Req : Type 0 where
  pub dest : Weight
  pub want : ℕ
  pub take : ℕ
  pub narrow : Bool

-- `reqw`, with and without a prefix, and `reqn`; `narrow_ok` is 0 where all is to be widened.
unfoldable pub reqw : Weight → ℕ → Req
reqw d want = record { dest = d; want = want; take = want; narrow = false }

unfoldable pub reqw_prefix : Weight → ℕ → ℕ → Req
reqw_prefix d want n = record { dest = d; want = want; take = n; narrow = false }

unfoldable pub reqn : Bool → Weight → ℕ → Req
reqn narrow_ok d want = record { dest = d; want = want; take = want; narrow = narrow_ok }

unfoldable pub norm_reqs : K3Cfg → List Req
norm_reqs c =
    reqw in_norm c.hidden
    ∷ reqw post_norm c.hidden
    ∷ reqw attn_res_norm c.hidden
    ∷ reqw attn_res_proj c.hidden
    ∷ reqw mlp_res_norm c.hidden
    ∷ reqw mlp_res_proj c.hidden
    ∷ []

unfoldable pub mla_reqs : Bool → K3Cfg → List Req
mla_reqs ok c =
    reqn ok mla_q_a (c.q_lora * c.hidden)
    ∷ reqw mla_q_a_norm c.q_lora
    ∷ reqn ok mla_q_b (c.n_heads * (c.qk_nope + c.qk_rope) * c.q_lora)
    ∷ reqn ok mla_kv_a ((c.kv_lora + c.qk_rope) * c.hidden)
    ∷ reqw mla_kv_a_norm c.kv_lora
    ∷ reqn ok mla_kv_b (c.n_heads * (c.qk_nope + c.v_head) * c.kv_lora)
    ∷ reqn ok mla_o (c.hidden * c.n_heads * c.v_head)
    ∷ (if c.mla_out_gate then reqn ok mla_g (c.n_heads * c.v_head * c.hidden) ∷ [] else [])

unfoldable pub kda_reqs : Bool → K3Cfg → List Req
kda_reqs ok c =
    let p = c.kda_heads * c.kda_head_dim in
    reqn ok kda_q (p * c.hidden)
    ∷ reqn ok kda_k (p * c.hidden)
    ∷ reqn ok kda_v (p * c.hidden)
    ∷ reqn ok kda_g (p * c.hidden)
    ∷ reqn ok kda_o (c.hidden * p)
    ∷ reqw kda_q_conv (p * c.conv_k)
    ∷ reqw kda_k_conv (p * c.conv_k)
    ∷ reqw kda_v_conv (p * c.conv_k)
    ∷ reqn ok kda_f_a (c.kda_head_dim * c.hidden)
    ∷ reqn ok kda_f_b (p * c.kda_head_dim)
    ∷ reqn ok kda_b (c.kda_heads * c.hidden)
    ∷ reqw_prefix kda_a_log c.kda_head_dim c.kda_heads
    ∷ reqw kda_dt_bias p
    ∷ reqw kda_o_norm c.kda_head_dim
    ∷ []

unfoldable pub dense_reqs : Bool → K3Cfg → List Req
dense_reqs ok c =
    reqn ok dense_gate (c.dense_inter * c.hidden)
    ∷ reqn ok dense_up (c.dense_inter * c.hidden)
    ∷ reqn ok dense_down (c.hidden * c.dense_inter)
    ∷ []

unfoldable pub moe_reqs : Bool → K3Cfg → List Req
moe_reqs ok c =
    let si = c.moe_inter * c.n_shared in
    reqw moe_gate (c.n_experts * c.hidden)
    ∷ reqw moe_bias c.n_experts
    ∷ reqn ok moe_down (c.latent * c.hidden)
    ∷ reqn ok moe_up (c.hidden * c.latent)
    ∷ reqw moe_latent_norm c.latent
    ∷ reqn ok moe_sh1 (si * c.hidden)
    ∷ reqn ok moe_sh3 (si * c.hidden)
    ∷ reqn ok moe_sh2 (c.hidden * si)
    ∷ []

-- `plan_layer`: fewer than MAXB requests.
unfoldable pub plan_layer : Bool → K3Cfg → ℕ → List Req
plan_layer ok c layer =
    norm_reqs c
    ++ ((if is_mla c layer then mla_reqs ok c else kda_reqs ok c)
        ++ (if is_dense_layer c layer then dense_reqs ok c else moe_reqs ok c))

-- `plan_model`.
unfoldable pub plan_model : Bool → K3Cfg → Bool → List Req
plan_model ok c want_lm_head =
    reqn ok model_embed (c.vocab * c.hidden)
    ∷ reqw model_norm c.hidden
    ∷ reqw model_out_res_norm c.hidden
    ∷ reqw model_out_res_proj c.hidden
    ∷ (if want_lm_head then reqn ok model_lm_head (c.vocab * c.hidden) ∷ [] else [])
