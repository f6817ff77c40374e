-- ===== src/Kimi/Weights/Tests.antt =====
-- Runs of src/model/k3_bind.c on a layer with one dimension everywhere.
use multi_model_llm_engine.Base.{
  ◌++◌, take, drop, replicate, ℕ, ◌≡◌, refl, Bool, true, false, Option, none, some, List, [], ◌∷◌,
  ◌==◌, if◌then◌else◌, ◌&&◌, ap, sym,
}
use multi_model_llm_engine.Base.Int.{pos, ◌/ℤ◌}
use multi_model_llm_engine.Io.Shards.{K3Tensor, f32, bf16}
use multi_model_llm_engine.Tokenizer.Map.{Map}
use multi_model_llm_engine.Io.Shards.Index.{Indexed, indexed, index_tensors, no_buckets, st_find}
use multi_model_llm_engine.Kimi.Weights.Resolve.Filed.{found}
use multi_model_llm_engine.Kimi.Weights.{
  K3Cfg, Weight, Req, reqw, reqw_prefix, reqn, norm_reqs, kda_reqs, dense_reqs, plan_layer, is_mla,
  is_dense_layer, is_listed,
}
use multi_model_llm_engine.Kimi.Weights.Resolve.{align8}
use multi_model_llm_engine.Kimi.Weights.Packed.{
  PackedTensor, ok, err, bind_layer_mem, bind_from, bind_one, bind_elements, take_room,
  element_size, is_f32, point, widen_bytes,
}
use multi_model_llm_engine.Kimi.Weights.Packed.Room.{
  InPlaces, is_uncounted, Within, bind_layer_mem-Within,
}

abbrev tiny : K3Cfg
tiny = record {
  hidden = 1;
  vocab = 1;
  kda_heads = 1;
  kda_head_dim = 1;
  conv_k = 1;
  n_heads = 1;
  q_lora = 1;
  kv_lora = 1;
  qk_nope = 1;
  qk_rope = 0;
  v_head = 0;
  mla_out_gate = false;
  n_experts = 1;
  n_shared = 1;
  latent = 1;
  moe_inter = 1;
  first_dense = 1;
  dense_inter = 1;
  full_attn = [];
}

-- A weight is named for its form in the run: 32-bit floats where the count of the widen area leaves it out.
abbrev named : ℕ → Weight → List ℕ
named layer d = (if is_uncounted d then b'f' else b'b') ∷ []

-- One element is asked for everywhere.
abbrev units : List Req → Bool
units [] = true
units (q ∷ qs) = q.want == 1 && (q.take == 1 && units qs)

abbrev floats : PackedTensor
floats = record { off = pos 0; nbytes = pos 4; dtype = f32 }

abbrev halves : PackedTensor
halves = record { off = pos 4; nbytes = pos 2; dtype = bf16 }

abbrev packed : List ℕ → Option PackedTensor
packed [] = none
packed (c ∷ n) = if c == b'f' then some floats else some halves

floats_lem :
    (b : Bool) (t : PackedTensor)
    → b ≡ true
    → packed ((if b then b'f' else b'b') ∷ []) ≡ some t
    → is_f32 t.dtype ≡ true
floats_lem true t u e = ap (λ o. elim o [ none ↦ true | some t' ↦ is_f32 t'.dtype ]) (sym e)
floats_lem false t u e = cc

packed-InPlaces : InPlaces packed (named 0)
unfolding InPlaces
packed-InPlaces d t u e = floats_lem (is_uncounted d) t u e

bind_layer_mem-Within_example :
    Within (widen_bytes tiny) (bind_layer_mem packed (named 0) (widen_bytes tiny) tiny 0)
bind_layer_mem-Within_example = bind_layer_mem-Within packed (named 0) tiny 0 packed-InPlaces

-- The six vectors of each layer are widened, each on a multiple of eight bytes.
widened :
    elim (bind_layer_mem packed (named 0) (widen_bytes tiny) tiny 0) [ ok p ↦ p.used | err e ↦ 0 ]
    ≡ 44
unfolding bind_layer_mem widen_bytes bind_from bind_one bind_elements take_room align8 element_size
    point is_uncounted plan_layer norm_reqs kda_reqs dense_reqs reqw reqn reqw_prefix is_mla
    is_listed is_dense_layer ◌/ℤ◌
widened = refl

-- A shard with one BF16 element, under the name `w`.
abbrev header : List ℕ
header =
    b'{' ∷ 34 ∷ b'w' ∷ 34 ∷ b':' ∷ b'{' ∷ 34 ∷ b'd' ∷ b't' ∷ b'y' ∷ b'p' ∷ b'e' ∷ 34 ∷ b':' ∷ 34
    ∷ b'B' ∷ b'F' ∷ b'1' ∷ b'6' ∷ 34 ∷ b',' ∷ 34 ∷ b's' ∷ b'h' ∷ b'a' ∷ b'p' ∷ b'e' ∷ 34 ∷ b':'
    ∷ b'[' ∷ b'1' ∷ b']' ∷ b',' ∷ 34 ∷ b'd' ∷ b'a' ∷ b't' ∷ b'a' ∷ b'_' ∷ b'o' ∷ b'f' ∷ b'f' ∷ b's'
    ∷ b'e' ∷ b't' ∷ b's' ∷ 34 ∷ b':' ∷ b'[' ∷ b'0' ∷ b',' ∷ b'2' ∷ b']' ∷ b'}' ∷ b'}' ∷ []

abbrev shard : ℕ → ℕ → ℕ → List ℕ
shard fd off n = take n (drop off (55 ∷ replicate 7 0 ++ header ++ (1 ∷ 2 ∷ [])))

abbrev tensor_w : K3Tensor
tensor_w = record {
  name = b'w' ∷ [];
  shard = 0;
  dtype = bf16;
  shape = pos 1 ∷ [];
  off = pos 63;
  nbytes = pos 2;
}

abbrev map_of : Indexed → Map
map_of (indexed m) = m
map_of _ = no_buckets 0

abbrev index : Map
index = map_of (index_tensors (tensor_w ∷ []))

abbrev all_w : ℕ → Weight → List ℕ
all_w layer d = b'w' ∷ []

abbrev lookup_w : List ℕ → Option K3Tensor
lookup_w s = found (st_find (tensor_w ∷ []) index s)
