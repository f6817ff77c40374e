-- ===== src/Tokenizer/Chat/Tests.antt =====
-- A prompt of src/tokenizer/chat.c with a vocabulary of single letters and the newline.
use multi_model_llm_engine.Base.{ℕ, ◌≡◌, refl, true, false, Option, none, some, List, [], ◌∷◌, map}
use multi_model_llm_engine.Base.Int.{pos, negsuc}
use multi_model_llm_engine.Formats.Gguf.Types.{same_text}
use multi_model_llm_engine.Tokenizer.Map.{
  Map, map_init, map_put, put_all, map_get, probe, home, next, hash_bytes, hash_from, capacity,
}
use multi_model_llm_engine.Tokenizer.Bytes.{mapped, utf8, code_point, is_plain, shifted_before}
use multi_model_llm_engine.Tokenizer.State.{EngBpe, lookup, lookup_if, value_of}
use multi_model_llm_engine.Tokenizer.Split.{
  next_fragment, is_letter, is_digit, is_space, is_newline, is_punctuation, is_blank, run,
  first_match, matches, contraction, word, digit, before_text, punctuation, whitespace, first_rule,
}
use multi_model_llm_engine.Tokenizer.Merge.{
  best_pair, better, join_at, merge_loop, merge_fragment, emit,
}
use multi_model_llm_engine.Tokenizer.Encode.{
  encode, encode_loop, encode_fragment, fill, fragment_length, special_in,
}
use multi_model_llm_engine.Tokenizer.Encode.Spelt.{numbered}
use multi_model_llm_engine.Tokenizer.Chat.{
  Chat, chatml, build, prompt, system_turn, turn, user_text, put, put_id, put_text, put_pieces,
}
use multi_model_llm_engine.Tokenizer.Chat.Room.{FitsIn, build-FitsIn}

abbrev letters : List (List ℕ)
letters =
    (b'u' ∷ [])
    ∷ (b's' ∷ [])
    ∷ (b'e' ∷ [])
    ∷ (b'r' ∷ [])
    ∷ (b'a' ∷ [])
    ∷ (b'i' ∷ [])
    ∷ (b't' ∷ [])
    ∷ (b'n' ∷ [])
    ∷ mapped 10
    ∷ []

abbrev of_puts : Option Map → Map
of_puts none = map_init 0
of_puts (some m) = m

abbrev spelling : EngBpe
spelling = record {
  tok = letters;
  tok_type = λ id. pos 1;
  vocab = of_puts (put_all (map_init 9) (numbered 0 letters));
  merge = some (map_init 0);
  bos = negsuc 0;
  eos = negsuc 0;
  add_bos = pos 0;
  spec = [];
  spec_first = λ c. false;
}

abbrev markers : Chat
markers = record {
  family = chatml;
  im_start = pos 100;
  im_end = pos 101;
  eos = negsuc 0;
  supports_think = false;
}

-- `sun` is the user's text.
abbrev sun : Option (List ℕ)
sun = some (b's' ∷ b'u' ∷ b'n' ∷ [])

abbrev ids : List ℕ
ids =
    100 ∷ 0 ∷ 1 ∷ 2 ∷ 3 ∷ 8 ∷ 1 ∷ 0 ∷ 7 ∷ 101 ∷ 8 ∷ 100 ∷ 4 ∷ 1 ∷ 1 ∷ 5 ∷ 1 ∷ 6 ∷ 4 ∷ 7 ∷ 6 ∷ 8 ∷ []

built : build markers spelling none sun true 64 ≡ some (map pos ids)
unfolding build prompt system_turn turn user_text put put_id put_text put_pieces is_plain
    shifted_before code_point utf8 mapped put_all map_put map_get probe home next hash_bytes
    hash_from capacity map_init numbered same_text encode encode_loop encode_fragment fill
    fragment_length special_in next_fragment is_letter is_digit is_space is_newline is_punctuation
    is_blank run first_match matches contraction word digit before_text punctuation whitespace
    first_rule merge_fragment merge_loop best_pair better join_at emit lookup lookup_if value_of
built = refl

build-FitsIn_example : FitsIn 64 (build markers spelling none sun true 64)
build-FitsIn_example = build-FitsIn markers spelling none sun true 64
