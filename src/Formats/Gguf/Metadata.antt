-- ===== src/Formats/Gguf/Metadata.antt =====
-- The metadata loop of `parse_header` in src/formats/gguf.c. Keys are the C strings that the pool holds;
-- what the pool is asked is `room`, so that its capacity can be reasoned about.
use multi_model_llm_engine.Base.{
  ℕ, zero, suc, ◌+◌, ◌*◌, ◌%◌, ◌^◌, Bool, List, [], ◌∷◌, ltb, ◌==◌, if◌then◌else◌, length,
}
use multi_model_llm_engine.Base.Int.{ℤ, pos, pos_part}
use multi_model_llm_engine.Formats.Gguf.Cursor.{
  Parser, pure, reject, ◌>>=◌, ◌>>◌, require, rd, rd_str, take_bytes, position, signed,
}
use multi_model_llm_engine.Formats.Gguf.Types.{
  GgufType, uint8, int8, uint16, int16, uint32, int32, float32, bool, string, array, uint64, int64,
  float64, unknown, type_of, scalar_size, no_float, single, double, GgufKv, c_string,
}

abbrev pub blank_kv : List ℕ → GgufType → GgufKv
blank_kv key type = record {
  key = key;
  type = type;
  i = pos 0;
  f = no_float;
  str = [];
  arr_type = uint8;
  arr_len = pos 0;
  arr_at = 0;
}

unfoldable pub skip_strings : ℕ → Parser (Unit {0})
skip_strings zero = pure tt
skip_strings (suc n) = do s ← rd_str; skip_strings n

-- The payload of an array is passed over.
unfoldable pub skip_array : GgufType → ℕ → Parser (Unit {0})
skip_array t n =
    if ltb 0 (scalar_size t)
    then (do bytes ← take_bytes (scalar_size t * n % 2 ^ 64); pure tt)
    else elim t [ string ↦ skip_strings (pos_part (signed 64 n)) | _ ↦ reject ]

unfoldable pub parse_array : GgufKv → Parser GgufKv
parse_array k = do
  t ← rd 4
  n ← rd 8
  at ← position
  skip_array (type_of t) n
  pure (record k { arr_type = type_of t; arr_len = signed 64 n; arr_at = at })

abbrev with_int : GgufKv → ℕ → (ℕ → ℤ) → Parser GgufKv
with_int k n value = do v ← rd n; pure (record k { i = value v })

-- The switch on the type of a value.
unfoldable pub parse_value : GgufType → GgufKv → Parser GgufKv
parse_value uint8 k = with_int k 1 pos
parse_value int8 k = with_int k 1 (signed 8)
parse_value uint16 k = with_int k 2 pos
parse_value int16 k = with_int k 2 (signed 16)
parse_value uint32 k = with_int k 4 pos
parse_value int32 k = with_int k 4 (signed 32)
parse_value uint64 k = with_int k 8 (signed 64)
parse_value int64 k = with_int k 8 (signed 64)
parse_value bool k = with_int k 1 (λ v. if v == 0 then pos 0 else pos 1)
parse_value float32 k = do v ← rd 4; pure (record k { f = single v })
parse_value float64 k = do v ← rd 8; pure (record k { f = double v })
parse_value string k = do s ← rd_str; pure (record k { str = s })
parse_value array k = parse_array k
parse_value (unknown _) k = reject

-- What a text takes of the pool, its terminator included.
abbrev pub pooled : ℕ → List ℕ → ℕ
pooled used s = used + length s + 1

unfoldable pub parse_kv : (ℕ → Bool) → ℕ → Parser (GgufKv × ℕ)
parse_kv room used = do
  key ← rd_str
  require (room (pooled used key))
  t ← rd 4
  k ← parse_value (type_of t) (blank_kv (c_string key) (type_of t))
  pure (k, pooled used key)

-- The loop over the metadata, and how much of the pool is used after it.
unfoldable pub parse_kvs : (ℕ → Bool) → ℕ → ℕ → Parser (List GgufKv × ℕ)
parse_kvs room zero used = pure ([], used)
parse_kvs room (suc n) used = do
  (k, used₁) ← parse_kv room used
  (ks, used₂) ← parse_kvs room n used₁
  pure (k ∷ ks, used₂)
