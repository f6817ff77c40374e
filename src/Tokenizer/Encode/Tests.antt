-- ===== src/Tokenizer/Encode/Tests.antt =====
-- Runs of the tokenizer of src/tokenizer/bpe.c with a small vocabulary and with one that has every byte.
use multi_model_llm_engine.Base.{
  ℕ, zero, suc, ◌≤◌, ◌≡◌, refl, sym, ap, ◌∙◌, true, false, Option, none, some, is_some, List, [],
  ◌∷◌, length, arith, Bool-cases, inl, inr, subst,
}
use multi_model_llm_engine.Base.Int.{pos, negsuc, to_i32}
use multi_model_llm_engine.Formats.Gguf.Types.{GgufKv, same_text, array, string}
use multi_model_llm_engine.Formats.Gguf.Cursor.{rd_str, rd, read_le, take_bytes, split}
use multi_model_llm_engine.Formats.Gguf.Metadata.{blank_kv}
use multi_model_llm_engine.Formats.Gguf.Open.{Gguf}
use multi_model_llm_engine.Formats.Gguf.Access.{gguf_find, find_kv, gguf_arr_str, walk_strings}
use multi_model_llm_engine.Formats.Gguf.Strings.{print_strs, print_str, print_le}
use multi_model_llm_engine.Tokenizer.Map.{
  Map, map_init, map_put, put_all, map_get, probe, home, next, hash_bytes, hash_from, capacity,
}
use multi_model_llm_engine.Tokenizer.Bytes.{mapped, utf8, code_point, is_plain, shifted_before}
use multi_model_llm_engine.Tokenizer.Bytes.Inverse.{all_below, below}
use multi_model_llm_engine.Tokenizer.Map.Steps.{same_text→eq}
use multi_model_llm_engine.Tokenizer.Map.FirstWins.{first_value, answer, map_get-first_wins}
use multi_model_llm_engine.Tokenizer.State.{EngBpe, lookup, lookup_if, value_of, decode}
use multi_model_llm_engine.Tokenizer.Split.{
  next_fragment, is_letter, is_digit, is_space, is_newline, is_punctuation, is_blank, run,
  first_match, matches, contraction, word, digit, before_text, punctuation, whitespace, first_rule,
}
use multi_model_llm_engine.Tokenizer.Split.Progress.{next_fragment_progress}
use multi_model_llm_engine.Tokenizer.Merge.{
  Sym, best_pair, better, join_at, merge_loop, merge_fragment, emit,
}
use multi_model_llm_engine.Tokenizer.Merge.Lowest.{rank_at, best_pair-lowest, merge_loop-ends}
use multi_model_llm_engine.Tokenizer.Encode.{
  encode, encode_loop, encode_fragment, fill, fragment_length, special_in,
}
use multi_model_llm_engine.Tokenizer.Encode.Spelt.{IsLoaded, numbered}
use multi_model_llm_engine.Tokenizer.Encode.RoundTrip.{encode-decode}
use multi_model_llm_engine.Tokenizer.Encode.Total.{IsComplete, encode-returns}
use multi_model_llm_engine.Tokenizer.Load.{
  keys, is_array, is_string, load_tokens, merges_of, assemble, index_special, load_from, from_gguf,
}
use multi_model_llm_engine.Tokenizer.Load.Vocabulary.{from_gguf-IsLoaded}

abbrev of_puts : Option Map → Map
of_puts none = map_init 0
of_puts (some m) = m

abbrev tokens : List (List ℕ)
tokens = (b't' ∷ []) ∷ (b'h' ∷ []) ∷ (b't' ∷ b'h' ∷ []) ∷ []

abbrev merges : List (List ℕ × ℕ)
merges = (b't' ∷ b'h' ∷ [], 0) ∷ []

-- Three tokens and one merge.
abbrev small : EngBpe
small = record {
  tok = tokens;
  tok_type = λ id. pos 1;
  vocab = of_puts (put_all (map_init 3) (numbered 0 tokens));
  merge = some (of_puts (put_all (map_init 1) merges));
  bos = negsuc 0;
  eos = negsuc 0;
  add_bos = pos 0;
  spec = [];
  spec_first = λ c. false;
}

small-IsLoaded : IsLoaded small
unfolding put_all map_put probe home next hash_bytes hash_from capacity map_init numbered same_text
small-IsLoaded = record { few = omega arith; put = refl }

-- `thth`.
abbrev text : List ℕ
text = b't' ∷ b'h' ∷ b't' ∷ b'h' ∷ []

encoded : encode small text 8 false ≡ some (2 ∷ 2 ∷ [])
unfolding put_all map_put map_get probe home next hash_bytes hash_from capacity map_init numbered
    same_text encode encode_loop encode_fragment fill fragment_length special_in next_fragment
    is_letter is_digit is_space is_newline is_punctuation is_blank run first_match matches
    contraction word digit before_text punctuation whitespace first_rule mapped utf8 code_point
    is_plain merge_fragment merge_loop best_pair better join_at emit lookup lookup_if value_of
encoded = refl

encode-decode_example : decode small (2 ∷ 2 ∷ []) 4 ≡ some text
encode-decode_example =
    encode-decode small text (2 ∷ 2 ∷ []) 8 4 small-IsLoaded
      (omega arith, (omega arith, (omega arith, (omega arith, tt)))) (omega arith) encoded

next_fragment_progress_example :
    (1 ≤ next_fragment 32 (b'a' ∷ b'b' ∷ b'!' ∷ []))
    × (next_fragment 32 (b'a' ∷ b'b' ∷ b'!' ∷ []) ≤ 4)
next_fragment_progress_example = next_fragment_progress 32 (b'a' ∷ b'b' ∷ b'!' ∷ [])

-- Every byte, and one merge.
abbrev bytes_below : ℕ → List (List ℕ)
bytes_below zero = []
bytes_below (suc c) = mapped c ∷ bytes_below c

abbrev pairs : List (List ℕ × ℕ)
pairs = numbered 0 ((b't' ∷ b'h' ∷ []) ∷ bytes_below 256)

length-bytes_below : length pairs ≡ 257
unfolding numbered
length-bytes_below = refl

abbrev full_vocab :
    (m : Map) × ((put_all (map_init 257) pairs ≡ some m)
      × ((s : List ℕ) → map_get m s ≡ answer (first_value s pairs)))
full_vocab = map_get-first_wins 257 pairs (omega (arith, length-bytes_below)) (omega arith)

abbrev full_merge :
    (m : Map) × ((put_all (map_init 1) merges ≡ some m)
      × ((s : List ℕ) → map_get m s ≡ answer (first_value s merges)))
full_merge = map_get-first_wins 1 merges (omega arith) (omega arith)

abbrev full : EngBpe
full = record small {
  tok = (b't' ∷ b'h' ∷ []) ∷ bytes_below 256;
  vocab = full_vocab.0;
  merge = some full_merge.0;
}

known : (s : List ℕ) → is_some (first_value s pairs) ≡ true → is_some (lookup full_vocab.0 s) ≡ true
unfolding lookup value_of
known s h = ap (λ g. is_some (value_of g)) (full_vocab.1.1 s) ∙ of_answer (first_value s pairs) h
  where
    of_answer : (o : Option ℕ) → is_some o ≡ true → is_some (value_of (answer o)) ≡ true
    of_answer none h = h
    of_answer (some v) h = refl

byte_table : all_below 256 (λ c. is_some (first_value (mapped c) pairs)) ≡ true
unfolding all_below first_value mapped utf8 code_point is_plain shifted_before numbered same_text
byte_table = refl

merge_known :
    (s : List ℕ) (r : ℕ) → lookup_if full.merge s ≡ some r → is_some (lookup full.vocab s) ≡ true
unfolding lookup_if lookup value_of first_value numbered same_text
merge_known s r h = elim (Bool-cases (same_text (b't' ∷ b'h' ∷ []) s)) [
  | inl e ↦
      subst (λ t. is_some (lookup full.vocab t) ≡ true) (same_text→eq (b't' ∷ b'h' ∷ []) s e)
        (known (b't' ∷ b'h' ∷ []) refl)
  | inr e ↦ absurd (none≢some (sym (ap value_of (full_merge.1.1 s) ∙ rw e refl) ∙ h))
]
  where
    none≢some : none ≡ some r → ⊥
    none≢some e = cc

full-IsComplete : IsComplete full
full-IsComplete = record {
  bytes = λ c l. known (mapped c) (below 256 _ c byte_table l);
  merges = merge_known;
}

encode-returns_example : (ids : List ℕ) × (encode full text 8 false ≡ some ids)
encode-returns_example =
    encode-returns full text 8 full-IsComplete
      (omega arith, (omega arith, (omega arith, (omega arith, tt)))) (omega arith) (omega arith)

-- The symbols of `thth`.
abbrev symbols : List Sym
symbols =
    record { off = 0; len = 1 }
    ∷ record { off = 1; len = 1 }
    ∷ record { off = 2; len = 1 }
    ∷ record { off = 3; len = 1 }
    ∷ []

pair_found : best_pair small text 0 symbols none ≡ some (0, 0)
unfolding best_pair better lookup_if lookup value_of map_get put_all map_put probe home next
    hash_bytes hash_from capacity map_init same_text
pair_found = refl

later_pair : rank_at small text 2 symbols ≡ some 0
unfolding rank_at lookup_if lookup value_of map_get put_all map_put probe home next hash_bytes
    hash_from capacity map_init same_text
later_pair = refl

best_pair-lowest_example : (rank_at small text 0 symbols ≡ some 0) × (0 ≤ 0)
best_pair-lowest_example = best_pair-lowest small text symbols 0 0 2 0 pair_found later_pair

merge_loop-ends_example : rank_at small text 1 (merge_loop 4 small text symbols) ≡ none
merge_loop-ends_example = merge_loop-ends small text symbols 1

-- A container that has the three tokens and no merges.
abbrev tokens_kv : GgufKv
tokens_kv = record (blank_kv keys.tokens array) { arr_type = string; arr_len = pos 3 }

abbrev container : Gguf
container = record {
  header = record {
    version = 3;
    kv = tokens_kv ∷ [];
    tensors = [];
    alignment = 32;
    data_start = 64;
    data_bytes = pos 0;
  };
  blob = print_strs tokens;
  file_size = 64;
}

abbrev loaded : EngBpe
loaded = index_special (
    assemble (λ i. 0) container tokens_kv tokens
      (of_puts (put_all (map_init 3) (numbered 0 tokens))) none)

from_container : from_gguf (λ i. 0) container ≡ some loaded
unfolding from_gguf gguf_find find_kv same_text is_array is_string load_from load_tokens
    gguf_arr_str walk_strings rd_str rd read_le take_bytes split print_strs print_str print_le
    put_all map_put probe home next hash_bytes hash_from capacity map_init merges_of numbered to_i32
from_container = refl

from_gguf-IsLoaded_example : IsLoaded loaded
unfolding index_special assemble
from_gguf-IsLoaded_example =
    from_gguf-IsLoaded (λ i. 0) container loaded from_container (omega arith)
