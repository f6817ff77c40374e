-- ===== src/Kimi/Weights/Resolve/Filed.antt =====
-- `k3_bind_layer` of src/model/k3_bind.c on the index of `k3_st_open` of src/io/k3_st.c.
use multi_model_llm_engine.Base.{Option, none, some}
use multi_model_llm_engine.Io.Shards.{K3Tensor}
use multi_model_llm_engine.Io.Shards.Index.{Found, tensor, missing, lost}
use multi_model_llm_engine.Tokenizer.Map.{Map}

-- What `k3_st_find` returns, with NULL as `none`.
unfoldable pub found : Found → Option K3Tensor
found (tensor t) = some t
found missing = none
found lost = none
