-- ===== src/Tokenizer/Load/Vocabulary.antt =====
-- What `eng_bpe_from_gguf` of src/tokenizer/bpe.c loads as the vocabulary.
use multi_model_llm_engine.Base.{
  ℕ, zero, suc, ◌+◌, ◌^◌, ◌≤◌, ◌≡◌, ◌⊎◌, refl, ap, ◌∙◌, subst, ◌&&◌, not, none, some, Option-cases,
  Bool-cases, inl, inr, List, length, ltb,
}
use multi_model_llm_engine.Base.Int.{pos, pos_part, to_i32, ltb_ℤ}
use multi_model_llm_engine.Formats.Gguf.Types.{GgufKv}
use multi_model_llm_engine.Formats.Gguf.Open.{Gguf}
use multi_model_llm_engine.Formats.Gguf.Access.{gguf_find, gguf_arr_str}
use multi_model_llm_engine.Tokenizer.Map.{Map, map_init, map_put, put_all}
use multi_model_llm_engine.Tokenizer.State.{EngBpe}
use multi_model_llm_engine.Tokenizer.Load.{
  keys, is_array, is_string, load_tokens, merges_of, assemble, index_special, load_from, from_gguf,
}
use multi_model_llm_engine.Tokenizer.Encode.Spelt.{IsLoaded, numbered, some_injective, none≢some}

load_tokens-put :
    (g : Gguf) (k : GgufKv) (pool_cap n i used : ℕ) (m : Map) (ss : List (List ℕ)) (left : ℕ × Map)
    → load_tokens g k pool_cap n i used m ≡ some (ss, left)
    → (put_all m (numbered i ss) ≡ some left.1) × (length ss ≡ n)
unfolding load_tokens put_all numbered
load_tokens-put g k pool_cap zero i used m ss left h =
    subst (λ v. (put_all m (numbered i v.0) ≡ some v.1.1) × (length v.0 ≡ 0)) (some_injective h)
      (refl, refl)
load_tokens-put g k pool_cap (suc n) i used m ss left h =
    elim (Option-cases (gguf_arr_str g k (pos i))) [
      | inl o ↦ absurd (none≢some (rw (load_tokens, o) at h))
      | inr (s, o) ↦ elim (Bool-cases (ltb pool_cap (used + length s + 1))) [
        | inl b ↦ absurd (none≢some (rw (load_tokens, o, b) at h))
        | inr b ↦ elim (Option-cases (map_put m s i)) [
          | inl p ↦ absurd (none≢some (rw (load_tokens, o, b, p) at h))
          | inr (m', p) ↦
              elim (Option-cases (load_tokens g k pool_cap n (suc i) (used + length s + 1) m')) [
                | inl q ↦ absurd (none≢some (rw (load_tokens, o, b, p, q) at h))
                | inr ((ss', left'), q) ↦
                    let (e, l) =
                      load_tokens-put g k pool_cap n (suc i) (used + length s + 1) m' ss' left' q in
                    subst (λ v. (put_all m (numbered i v.0) ≡ some v.1.1) × (length v.0 ≡ suc n))
                      (some_injective (rw (load_tokens, o, b, p, q) at h))
                      (rw (put_all, p) e, ap suc l)
              ]
        ]
      ]
    ]

load_from-put :
    (past : ℕ → ℕ) (g : Gguf) (k : GgufKv) (b : EngBpe)
    → load_from past g k ≡ some b
    → put_all (map_init (length b.tok)) (numbered 0 b.tok) ≡ some b.vocab
unfolding load_from assemble index_special
load_from-put past g k b h =
    let n = pos_part (to_i32 k.arr_len) in
    let pool_cap = length g.blob + n + 8 in
    elim (Option-cases (load_tokens g k pool_cap n 0 0 (map_init n))) [
      | inl o ↦ absurd (none≢some (rw (load_from, o) at h))
      | inr ((toks, (used, vocab)), o) ↦ elim (Option-cases (merges_of g pool_cap used)) [
        | inl p ↦ absurd (none≢some (rw (load_from, o, p) at h))
        | inr (merge, p) ↦
            let (e, l) = load_tokens-put g k pool_cap n 0 0 (map_init n) toks (used, vocab) o in
            subst (λ v. put_all (map_init (length v.tok)) (numbered 0 v.tok) ≡ some v.vocab)
              (some_injective (rw (load_from, o, p) at h))
              (ap (λ c. put_all (map_init c) (numbered 0 toks)) l ∙ e)
      ]
    ]

-- A tokenizer that `eng_bpe_from_gguf` returns has as its vocabulary the map of its tokens, each with its
-- place as the id, if there are at most 2^29 of them.
pub from_gguf-IsLoaded :
    (past : ℕ → ℕ) (g : Gguf) (b : EngBpe)
    → from_gguf past g ≡ some b
    → length b.tok ≤ 2 ^ 29
    → IsLoaded b
unfolding from_gguf
from_gguf-IsLoaded past g b h few = record {
  few = few;
  put = of_tokens (Option-cases (gguf_find g keys.tokens));
}
  where
    of_tokens :
        (gguf_find g keys.tokens ≡ none) ⊎ ((k : GgufKv) × (gguf_find g keys.tokens ≡ some k))
        → put_all (map_init (length b.tok)) (numbered 0 b.tok) ≡ some b.vocab
    of_tokens (inl o) = absurd (none≢some (rw (from_gguf, o) at h))
    of_tokens (inr (k, o)) =
        elim (Bool-cases
          (is_array k.type && is_string k.arr_type && not (ltb_ℤ (to_i32 k.arr_len) (pos 0)))) [
            | inl e ↦ load_from-put past g k b (rw (from_gguf, o, e) at h)
            | inr e ↦ absurd (none≢some (rw (from_gguf, o, e) at h))
          ]
