-- ===== src/Tokenizer/Load.antt =====
-- `eng_bpe_from_gguf` of src/tokenizer/bpe.c. `none` is NULL; allocations succeed, but that of a negative
-- count. `past` gives the bytes of memory behind the blob.
pub mod Vocabulary
use multi_model_llm_engine.Base.{
  ℕ, zero, suc, ◌+◌, ◌*◌, ◌^◌, Bool, true, false, ◌&&◌, ◌||◌, not, Option, none, some, List, [],
  ◌∷◌, ◌++◌, ltb, ◌==◌, if◌then◌else◌, length, get_elem?,
}
use multi_model_llm_engine.Base.Int.{ℤ, pos, negsuc, pos_part, to_i32, to_u64, ltb_ℤ, eq_ℤ}
use multi_model_llm_engine.Formats.Gguf.Types.{GgufKv, GgufType, array, string}
use multi_model_llm_engine.Formats.Gguf.Open.{Gguf}
use multi_model_llm_engine.Formats.Gguf.Access.{gguf_find, gguf_arr_str, gguf_i64}
use multi_model_llm_engine.Tokenizer.Map.{Map, map_init, map_put}
use multi_model_llm_engine.Tokenizer.State.{EngBpe, is_special}

-- The keys of the container: `tokenizer.ggml.tokens` and so on.
pub record Keys : Type 0 where
  pub tokens : List ℕ
  pub merges : List ℕ
  pub token_type : List ℕ
  pub bos_token_id : List ℕ
  pub eos_token_id : List ℕ
  pub add_bos_token : List ℕ

abbrev tokenizer : List ℕ → List ℕ
tokenizer name =
    b't' ∷ b'o' ∷ b'k' ∷ b'e' ∷ b'n' ∷ b'i' ∷ b'z' ∷ b'e' ∷ b'r' ∷ b'.' ∷ b'g' ∷ b'g' ∷ b'm' ∷ b'l'
    ∷ b'.' ∷ name

abbrev pub keys : Keys
keys = record {
  tokens = tokenizer (b't' ∷ b'o' ∷ b'k' ∷ b'e' ∷ b'n' ∷ b's' ∷ []);
  merges = tokenizer (b'm' ∷ b'e' ∷ b'r' ∷ b'g' ∷ b'e' ∷ b's' ∷ []);
  token_type = tokenizer (b't' ∷ b'o' ∷ b'k' ∷ b'e' ∷ b'n' ∷ b'_' ∷ b't' ∷ b'y' ∷ b'p' ∷ b'e' ∷ []);
  bos_token_id =
      tokenizer
        (b'b' ∷ b'o' ∷ b's' ∷ b'_' ∷ b't' ∷ b'o' ∷ b'k' ∷ b'e' ∷ b'n' ∷ b'_' ∷ b'i' ∷ b'd' ∷ []);
  eos_token_id =
      tokenizer
        (b'e' ∷ b'o' ∷ b's' ∷ b'_' ∷ b't' ∷ b'o' ∷ b'k' ∷ b'e' ∷ b'n' ∷ b'_' ∷ b'i' ∷ b'd' ∷ []);
  add_bos_token = tokenizer (
      b'a' ∷ b'd' ∷ b'd' ∷ b'_' ∷ b'b' ∷ b'o' ∷ b's' ∷ b'_' ∷ b't' ∷ b'o' ∷ b'k' ∷ b'e' ∷ b'n'
      ∷ []);
}

unfoldable pub is_array : GgufType → Bool
is_array array = true
is_array _ = false

unfoldable pub is_string : GgufType → Bool
is_string string = true
is_string _ = false

-- The loop over the tokens from the `i`-th on: their texts, what the pool then holds, and the map.
unfoldable pub load_tokens :
    Gguf → GgufKv → ℕ → ℕ → ℕ → ℕ → Map → Option (List (List ℕ) × (ℕ × Map))
load_tokens g k pool_cap zero i used m = some ([], (used, m))
load_tokens g k pool_cap (suc n) i used m = elim (gguf_arr_str g k (pos i)) [
  | none ↦ none
  | some s ↦ if ltb pool_cap (used + length s + 1) then none else elim (map_put m s i) [
    | none ↦ none
    | some m' ↦ elim (load_tokens g k pool_cap n (suc i) (used + length s + 1) m') [
      | none ↦ none
      | some (ss, left) ↦ some (s ∷ ss, left)
    ]
  ]
]

-- `tok_type[i]`, where the container has an array of as many types.
unfoldable pub byte_at : (ℕ → ℕ) → List ℕ → ℕ → ℕ
byte_at past blob i = elim (get_elem? blob i) [ none ↦ past i | some b ↦ b ]

unfoldable pub type_at : (ℕ → ℕ) → Gguf → GgufKv → ℕ → ℤ
type_at past g k i =
    let at = k.arr_at + i * 4 in
    to_i32 (
      pos (
        byte_at past g.blob at
        + byte_at past g.blob (at + 1) * 2 ^ 8
        + byte_at past g.blob (at + 2) * 2 ^ 16
        + byte_at past g.blob (at + 3) * 2 ^ 24))

unfoldable pub types_of : (ℕ → ℕ) → Gguf → GgufKv → ℕ → ℤ
types_of past g ktok i = elim (gguf_find g keys.token_type) [
  | none ↦ pos 0
  | some k ↦ if is_array k.type && eq_ℤ k.arr_len ktok.arr_len then type_at past g k i else pos 0
]

-- The text of a merge without its first space.
unfoldable pub without_space : List ℕ → Option (List ℕ)
without_space [] = none
without_space (c ∷ s) =
    let rest : Option (List ℕ) = elim (without_space s) [ none ↦ none | some t ↦ some (c ∷ t) ] in
    if c == 32 then some s else rest

-- The loop over the merges from the `i`-th on.
unfoldable pub load_merges : Gguf → GgufKv → ℕ → ℕ → ℕ → ℕ → Map → Option Map
load_merges g k pool_cap zero i used m = some m
load_merges g k pool_cap (suc n) i used m = elim (gguf_arr_str g k (pos i)) [
  | none ↦ load_merges g k pool_cap n (suc i) used m
  | some s ↦ elim (without_space s) [
    | none ↦ load_merges g k pool_cap n (suc i) used m
    | some t ↦ if ltb pool_cap (used + length t + 1) then some m else elim (map_put m t i) [
      | none ↦ none
      | some m' ↦ load_merges g k pool_cap n (suc i) (used + length t + 1) m'
    ]
  ]
]

-- `b->merge`: whether it is there, or the loop of a put never ends.
unfoldable pub merges_of : Gguf → ℕ → ℕ → Option (Option Map)
merges_of g pool_cap used = elim (gguf_find g keys.merges) [
  | none ↦ some none
  | some k ↦
      if is_array k.type && is_string k.arr_type
      then elim (load_merges g k pool_cap (pos_part k.arr_len) 0 used
          (map_init (pos_part (to_i32 k.arr_len)))) [ none ↦ none | some m ↦ some (some m) ]
      else some none
]

-- The index of the special tokens, of those from the `i`-th on.
unfoldable pub special_ids : EngBpe → ℕ → List (List ℕ) → List ℕ
special_ids b i [] = []
special_ids b i (s ∷ ss) =
    let rest = special_ids b (suc i) ss in
    if not (is_special b i) || length s == 0 then rest else i ∷ rest

unfoldable pub is_first : EngBpe → ℕ → List (List ℕ) → ℕ → Bool
is_first b i [] c = false
is_first b i ([] ∷ ss) c = is_first b (suc i) ss c
is_first b i ((d ∷ s) ∷ ss) c = is_special b i && d == c || is_first b (suc i) ss c

unfoldable pub int_or : Gguf → List ℕ → ℤ → ℤ
int_or g key default = elim (gguf_i64 g key) [ none ↦ default | some v ↦ to_i32 v ]

-- The state before the special tokens are indexed.
unfoldable pub assemble : (ℕ → ℕ) → Gguf → GgufKv → List (List ℕ) → Map → Option Map → EngBpe
assemble past g ktok toks vocab merge = record {
  tok = toks;
  tok_type = types_of past g ktok;
  vocab = vocab;
  merge = merge;
  bos = int_or g keys.bos_token_id (negsuc 0);
  eos = int_or g keys.eos_token_id (negsuc 0);
  add_bos = int_or g keys.add_bos_token (pos 0);
  spec = [];
  spec_first = λ c. false;
}

unfoldable pub index_special : EngBpe → EngBpe
index_special b = record b { spec = special_ids b 0 b.tok; spec_first = is_first b 0 b.tok }

unfoldable pub load_from : (ℕ → ℕ) → Gguf → GgufKv → Option EngBpe
load_from past g ktok =
    let n = pos_part (to_i32 ktok.arr_len) in
    let pool_cap = length g.blob + n + 8 in
    elim (load_tokens g ktok pool_cap n 0 0 (map_init n)) [
      | none ↦ none
      | some (toks, (used, vocab)) ↦ elim (merges_of g pool_cap used) [
        | none ↦ none
        | some merge ↦ some (index_special (assemble past g ktok toks vocab merge))
      ]
    ]

unfoldable pub from_gguf : (ℕ → ℕ) → Gguf → Option EngBpe
from_gguf past g = elim (gguf_find g keys.tokens) [
  | none ↦ none
  | some k ↦
      if is_array k.type && is_string k.arr_type && not (ltb_ℤ (to_i32 k.arr_len) (pos 0))
      then load_from past g k
      else none
]
