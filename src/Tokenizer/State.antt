-- ===== src/Tokenizer/State.antt =====
-- `EngBpe` of src/tokenizer/bpe.c, its accessors, and the decoding of tokens. Ids are numbers; a negative id
-- is refused where an id comes from outside, as `none`.
use multi_model_llm_engine.Base.{
  ℕ, ◌-◌, Bool, false, ◌||◌, Option, none, some, List, [], ◌∷◌, ◌++◌, length, get_elem?,
}
use multi_model_llm_engine.Base.Int.{ℤ, pos, eq_ℤ}
use multi_model_llm_engine.Tokenizer.Map.{Map, Got, found, absent, endless, map_get}
use multi_model_llm_engine.Tokenizer.Bytes.{decode_text}

-- `EngBpe`: `n_vocab` is the length of `tok`; `merge` is `none` where `map_init` was not called for it; `spec`
-- has the ids of the special tokens.
pub record EngBpe : Type 0 where
  pub tok : List (List ℕ)
  pub tok_type : ℕ → ℤ
  pub vocab : Map
  pub merge : Option Map
  pub bos : ℤ
  pub eos : ℤ
  pub add_bos : ℤ
  pub spec : List ℕ
  pub spec_first : ℕ → Bool

-- What `map_get` returns, -1 as `none`. Where it would not return there is none, too.
unfoldable pub value_of : Got → Option ℕ
value_of (found v) = some v
value_of absent = none
value_of endless = none

unfoldable pub lookup : Map → List ℕ → Option ℕ
lookup m s = value_of (map_get m s)

unfoldable pub lookup_if : Option Map → List ℕ → Option ℕ
lookup_if none s = none
lookup_if (some m) s = lookup m s

-- `eng_bpe_token_text`.
unfoldable pub token_text : EngBpe → ℕ → Option (List ℕ)
token_text b id = get_elem? b.tok id

-- `eng_bpe_is_special`: CONTROL or USER_DEFINED.
unfoldable pub is_special : EngBpe → ℕ → Bool
is_special b id = elim (get_elem? b.tok id) [
  | none ↦ false
  | some s ↦ eq_ℤ (b.tok_type id) (pos 3) || eq_ℤ (b.tok_type id) (pos 4)
]

-- `eng_bpe_find`.
unfoldable pub find : EngBpe → List ℕ → Option ℕ
find b text = lookup b.vocab text

-- `eng_bpe_decode_one`.
unfoldable pub decode_one : EngBpe → ℕ → ℕ → Option (List ℕ)
decode_one b id cap = elim (get_elem? b.tok id) [
  | none ↦ none
  | some s ↦ decode_text (length s) s cap
]

-- `eng_bpe_decode`, with room for `cap` bytes.
unfoldable pub decode : EngBpe → List ℕ → ℕ → Option (List ℕ)
decode b [] cap = some []
decode b (id ∷ ids) cap = elim (decode_one b id cap) [
  | none ↦ none
  | some out ↦ elim (decode b ids (cap - length out)) [
    | none ↦ none
    | some rest ↦ some (out ++ rest)
  ]
]
