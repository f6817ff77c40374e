-- ===== src/Tensor/Shape/Tests.antt =====
-- The theorems on src/tensor/tensor.c, at a file tensor of four rows of 512 elements of q4_k.
use multi_model_llm_engine.Base.{true, false, some, [], ◌∷◌}
use multi_model_llm_engine.Base.Int.{pos}
use multi_model_llm_engine.Tensor.Dtype.{DType}
use multi_model_llm_engine.Tensor.Shape.{Tensor, zero_tensor}

abbrev matrix : Tensor
matrix = record zero_tensor {
  dtype = DType.q4_k;
  shape = pos 512 ∷ pos 4 ∷ [];
  nbytes = pos 1152;
  store = some 7;
  file_off = pos 4096;
}

abbrev last_rows : Tensor
last_rows = record zero_tensor {
  dtype = DType.q4_k;
  shape = pos 512 ∷ pos 2 ∷ [];
  nbytes = pos 576;
  store = some 7;
  file_off = pos 4672;
  flags = record { owned = false; resident = false; mapped = false; cached = false; view = true };
}
