-- ===== src/Tokenizer/Merge.antt =====
-- `merge_fragment` of src/tokenizer/bpe.c. `none` is -1.
pub mod Tiles
pub mod Lowest
use multi_model_llm_engine.Base.{
  ℕ, zero, suc, ◌+◌, Bool, true, false, Option, none, some, List, [], ◌∷◌, ltb, if◌then◌else◌,
  length, take, drop,
}
use multi_model_llm_engine.Tokenizer.State.{EngBpe, lookup, lookup_if}

-- `Sym`: where a piece is in the buffer.
pub record Sym : Type 0 where
  pub off : ℕ
  pub len : ℕ

abbrev pub text_at : List ℕ → ℕ → ℕ → List ℕ
text_at buf off len = take len (drop off buf)

-- `best` and `best_rank`, or `none` for -1.
unfoldable pub better : Option (ℕ × ℕ) → ℕ → Option ℕ → Option (ℕ × ℕ)
better best i none = best
better none i (some r) = some (i, r)
better (some (j, q)) i (some r) = if ltb r q then some (i, r) else some (j, q)

-- The loop over the pairs from the `i`-th on.
unfoldable pub best_pair : EngBpe → List ℕ → ℕ → List Sym → Option (ℕ × ℕ) → Option (ℕ × ℕ)
best_pair b buf i [] best = best
best_pair b buf i (x ∷ []) best = best
best_pair b buf i (x ∷ y ∷ sym) best =
    best_pair b buf (suc i) (y ∷ sym)
      (better best i (lookup_if b.merge (text_at buf x.off (x.len + y.len))))

-- `sym[best].len += sym[best + 1].len` and the `memmove`.
unfoldable pub join_at : ℕ → List Sym → List Sym
join_at i [] = []
join_at i (x ∷ []) = x ∷ []
join_at zero (x ∷ y ∷ sym) = record x { len = x.len + y.len } ∷ sym
join_at (suc i) (x ∷ y ∷ sym) = x ∷ join_at i (y ∷ sym)

-- The merges, in so many rounds at most; each takes a symbol away.
unfoldable pub merge_loop : ℕ → EngBpe → List ℕ → List Sym → List Sym
merge_loop zero b buf sym = sym
merge_loop (suc fuel) b buf sym = elim (best_pair b buf 0 sym none) [
  | none ↦ sym
  | some (i, r) ↦ merge_loop fuel b buf (join_at i sym)
]

-- The ids of the pieces, with room for so many.
unfoldable pub emit : EngBpe → List ℕ → List Sym → ℕ → Option (List ℕ)
emit b buf [] room = some []
emit b buf (x ∷ sym) zero = none
emit b buf (x ∷ sym) (suc room) = elim (lookup b.vocab (text_at buf x.off x.len)) [
  | none ↦ none
  | some id ↦ elim (emit b buf sym room) [ none ↦ none | some ids ↦ some (id ∷ ids) ]
]

unfoldable pub merge_fragment : EngBpe → List ℕ → List Sym → ℕ → Option (List ℕ)
merge_fragment b buf sym room = emit b buf (merge_loop (length sym) b buf sym) room
