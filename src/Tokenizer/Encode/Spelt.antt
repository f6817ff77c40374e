-- ===== src/Tokenizer/Encode/Spelt.antt =====
-- The ids of an encoded text and the texts of their tokens: about `eng_bpe_encode` of src/tokenizer/bpe.c,
-- where no special tokens are looked for.
use multi_model_llm_engine.Base.{
  ℕ, zero, suc, ◌+◌, ◌-◌, ◌^◌, ◌≤◌, ◌≡◌, refl, sym, ap, ◌∙◌, subst, Option, none, some,
  Option-cases, Bool-cases, inl, inr, List, [], ◌∷◌, length, arith, get_elem?,
}
use multi_model_llm_engine.Formats.Gguf.Types.{same_text}
use multi_model_llm_engine.Tokenizer.Map.{map_init, put_all, map_get}
use multi_model_llm_engine.Tokenizer.Map.Steps.{same_text→eq}
use multi_model_llm_engine.Tokenizer.Map.FirstWins.{first_value, answer, map_get-first_wins}
use multi_model_llm_engine.Tokenizer.Bytes.{map_bytes}
use multi_model_llm_engine.Tokenizer.State.{EngBpe, lookup, value_of}
use multi_model_llm_engine.Tokenizer.Merge.{Sym, text_at, emit}
use multi_model_llm_engine.Tokenizer.Merge.Tiles.{Tiles}

-- The tokens with their ids, as they are put into the vocabulary.
unfoldable pub numbered : ℕ → List (List ℕ) → List (List ℕ × ℕ)
numbered i [] = []
numbered i (s ∷ ss) = (s, i) ∷ numbered (suc i) ss

-- The vocabulary is what `eng_bpe_from_gguf` makes of the tokens.
pub record IsLoaded (b : EngBpe) : Type 0 where
  pub few : length b.tok ≤ 2 ^ 29
  pub put : put_all (map_init (length b.tok)) (numbered 0 b.tok) ≡ some b.vocab

pub some_injective : {A : Type 0} {a c : A} → some a ≡ some c → a ≡ c
some_injective e = cc

pub none≢some : {A : Type 0} {a : A} → none ≡ some a → ⊥
none≢some e = cc

value_of-answer : (o : Option ℕ) (id : ℕ) → value_of (answer o) ≡ some id → o ≡ some id
unfolding value_of
value_of-answer none id e = e
value_of-answer (some v) id e = e

length-numbered : (i : ℕ) (ss : List (List ℕ)) → length (numbered i ss) ≡ length ss
unfolding numbered
length-numbered i [] = refl
length-numbered i (s ∷ ss) = ap suc (length-numbered (suc i) ss)

first_value-numbered :
    (s : List ℕ) (i id : ℕ) (ss : List (List ℕ))
    → first_value s (numbered i ss) ≡ some id
    → (i ≤ id) × (get_elem? ss (id - i) ≡ some s)
unfolding first_value numbered
first_value-numbered s i id [] h = cc
first_value-numbered s i id (t ∷ ss) h = elim (Bool-cases (same_text t s)) [
  | inl e ↦
      let here : i ≡ id = some_injective (rw e at h) in
      let first : id - i ≡ 0 = omega (arith, here) in
      (omega (arith, here), rw first (ap some (same_text→eq t s e)))
  | inr e ↦
      let (l, g) = first_value-numbered s (suc i) id ss (rw e at h) in
      let later : id - i ≡ suc (id - suc i) = omega (arith, l) in (omega (arith, l), rw later g)
]

-- An id that the vocabulary gives for a text is that of a token with this text.
lookup-token :
    (b : EngBpe) (s : List ℕ) (id : ℕ)
    → IsLoaded b
    → lookup b.vocab s ≡ some id
    → get_elem? b.tok id ≡ some s
unfolding lookup
lookup-token b s id loaded h =
    let (m, (p, gets)) =
      map_get-first_wins (length b.tok) (numbered 0 b.tok) (omega (arith, length-numbered 0 b.tok))
        loaded.few in
    let same : m ≡ b.vocab = some_injective (sym p ∙ loaded.put) in
    let got : map_get b.vocab s ≡ answer (first_value s (numbered 0 b.tok)) =
      subst (λ v. map_get v s ≡ answer (first_value s (numbered 0 b.tok))) same (gets s) in
    let (l, g) =
      first_value-numbered s 0 id b.tok
        (value_of-answer (first_value s (numbered 0 b.tok)) id (ap value_of (sym got) ∙ h)) in
    subst (λ k. get_elem? b.tok k ≡ some s) (omega arith) g

-- Each id is that of a token whose text is a group of bytes, mapped.
unfoldable pub Spells : EngBpe → List ℕ → List (List ℕ) → Type 0
Spells b [] [] = Unit
Spells b [] (g ∷ gs) = ⊥
Spells b (id ∷ ids) [] = ⊥
Spells b (id ∷ ids) (g ∷ gs) = (get_elem? b.tok id ≡ some (map_bytes g)) × Spells b ids gs

pub emit-Spells :
    (b : EngBpe) (buf : List ℕ) (off : ℕ) (ys : List Sym) (gs : List (List ℕ)) (room : ℕ)
    (ids : List ℕ)
    → IsLoaded b
    → Tiles buf off ys gs
    → emit b buf ys room ≡ some ids
    → Spells b ids gs
unfolding emit Spells
emit-Spells b buf off [] [] room ids loaded t h = subst (λ v. Spells b v []) (some_injective h) tt
emit-Spells b buf off [] (g ∷ gs) room ids loaded t h = absurd t
emit-Spells b buf off (y ∷ ys) [] room ids loaded t h = absurd t
emit-Spells b buf off (y ∷ ys) (g ∷ gs) zero ids loaded t h = absurd (none≢some h)
emit-Spells b buf off (y ∷ ys) (g ∷ gs) (suc room) ids loaded (e, (l, (t, ts))) h =
    elim (Option-cases (lookup b.vocab (text_at buf y.off y.len))) [
      | inl o ↦ absurd (none≢some (rw (emit, o) at h))
      | inr (id, o) ↦ elim (Option-cases (emit b buf ys room)) [
        | inl o' ↦ absurd (none≢some (rw (emit, o, o') at h))
        | inr (ids', o') ↦
            let whole : id ∷ ids' ≡ ids = some_injective (rw (emit, o, o') at h) in
            let token : get_elem? b.tok id ≡ some (map_bytes g) =
              lookup-token b (text_at buf y.off y.len) id loaded o
              ∙ ap some (ap (λ k. text_at buf k y.len) e ∙ t) in
            subst (λ v. Spells b v (g ∷ gs)) whole
              (token, emit-Spells b buf (off + y.len) ys gs room ids' loaded ts o')
      ]
    ]
