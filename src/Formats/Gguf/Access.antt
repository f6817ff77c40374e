-- ===== src/Formats/Gguf/Access.antt =====
-- The accessors of src/formats/gguf.c. `none` is NULL or -1.
use multi_model_llm_engine.Base.{
  ℕ, zero, suc, ◌-◌, ◌^◌, Bool, true, false, ◌&&◌, ◌||◌, not, Option, none, some, List, [], ◌∷◌,
  if◌then◌else◌, drop,
}
use multi_model_llm_engine.Base.Int.{ℤ, pos, pos_part, ltb_ℤ, leb_ℤ}
use multi_model_llm_engine.Formats.Gguf.Cursor.{ok, grow, malformed, Cur, rd_str}
use multi_model_llm_engine.Formats.Gguf.Types.{
  GgufType, uint8, int8, uint16, int16, uint32, int32, float32, bool, string, array, uint64, int64,
  float64, unknown, FloatBits, GgufKv, GgufTensor, same_text,
}
use multi_model_llm_engine.Formats.Gguf.Open.{Gguf}

unfoldable pub find_kv : List ℕ → List GgufKv → Option GgufKv
find_kv key [] = none
find_kv key (k ∷ ks) = if same_text k.key key then some k else find_kv key ks

-- `gguf_find`.
unfoldable pub gguf_find : Gguf → List ℕ → Option GgufKv
gguf_find g key = find_kv key g.header.kv

-- `kv_is_int`.
unfoldable pub kv_is_int : GgufType → Bool
kv_is_int uint8 = true
kv_is_int int8 = true
kv_is_int uint16 = true
kv_is_int int16 = true
kv_is_int uint32 = true
kv_is_int int32 = true
kv_is_int uint64 = true
kv_is_int int64 = true
kv_is_int bool = true
kv_is_int float32 = false
kv_is_int float64 = false
kv_is_int string = false
kv_is_int array = false
kv_is_int (unknown _) = false

-- `gguf_i64`.
unfoldable pub gguf_i64 : Gguf → List ℕ → Option ℤ
gguf_i64 g key = elim (gguf_find g key) [
  | none ↦ none
  | some k ↦ if kv_is_int k.type then some k.i else none
]

-- `gguf_u32`.
unfoldable pub gguf_u32 : Gguf → List ℕ → Option ℕ
gguf_u32 g key = elim (gguf_i64 g key) [
  | none ↦ none
  | some v ↦ if ltb_ℤ v (pos 0) || ltb_ℤ (pos (2 ^ 32 - 1)) v then none else some (pos_part v)
]

-- What `gguf_f32` converts: the bits of a float, or an integer.
pub data Convertible : Type 0 where
  from_float : FloatBits → Convertible
  from_int : ℤ → Convertible

unfoldable pub gguf_f32 : Gguf → List ℕ → Option Convertible
gguf_f32 g key = elim (gguf_find g key) [
  | none ↦ none
  | some k ↦ elim k.type [
    | float32 ↦ some (from_float k.f)
    | float64 ↦ some (from_float k.f)
    | _ ↦ if kv_is_int k.type then some (from_int k.i) else none
  ]
]

-- `gguf_str`.
unfoldable pub gguf_str : Gguf → List ℕ → Option (List ℕ)
gguf_str g key = elim (gguf_find g key) [
  | none ↦ none
  | some k ↦ elim k.type [ string ↦ some k.str | _ ↦ none ]
]

-- The walk to the string behind `left` others.
unfoldable pub walk_strings : ℕ → Cur → Option (List ℕ)
walk_strings zero c = elim (rd_str c) [ ok (s, c') ↦ some s | grow ↦ none | malformed ↦ none ]
walk_strings (suc left) c = elim (rd_str c) [
  | ok (s, c') ↦ walk_strings left c'
  | grow ↦ none
  | malformed ↦ none
]

-- `gguf_arr_str`.
unfoldable pub gguf_arr_str : Gguf → GgufKv → ℤ → Option (List ℕ)
gguf_arr_str g k i =
    let c : Cur = record { at = k.arr_at; rest = drop k.arr_at g.blob } in
    let of_strings =
      if ltb_ℤ i (pos 0) || leb_ℤ k.arr_len i then none else walk_strings (pos_part i) c in
    elim k.type [ array ↦ elim k.arr_type [ string ↦ of_strings | _ ↦ none ] | _ ↦ none ]

unfoldable pub find_tensor : List ℕ → List GgufTensor → Option GgufTensor
find_tensor name [] = none
find_tensor name (t ∷ ts) = if same_text t.name name then some t else find_tensor name ts

-- `gguf_tensor`.
unfoldable pub gguf_tensor : Gguf → List ℕ → Option GgufTensor
gguf_tensor g name = find_tensor name g.header.tensors

-- `gguf_layout_is_sequential`: no offset is below the one before.
unfoldable pub is_sequential : ℤ → List GgufTensor → Bool
is_sequential last [] = true
is_sequential last (t ∷ ts) = not (ltb_ℤ t.rel_off last) && is_sequential t.rel_off ts

unfoldable pub gguf_layout_is_sequential : Gguf → Bool
gguf_layout_is_sequential g = elim g.header.tensors [
  | [] ↦ true
  | t ∷ ts ↦ is_sequential t.rel_off ts
]
