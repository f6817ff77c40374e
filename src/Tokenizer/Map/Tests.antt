-- ===== src/Tokenizer/Map/Tests.antt =====
-- Runs of the map of src/tokenizer/bpe.c.
use multi_model_llm_engine.Base.{ℕ, ◌≡◌, arith, List, [], ◌∷◌, some}
use multi_model_llm_engine.Tokenizer.Map.{Map, map_init, map_get, put_all}
use multi_model_llm_engine.Tokenizer.Map.FirstWins.{first_value, answer, map_get-first_wins}

-- `ab` is put twice.
abbrev pairs : List (List ℕ × ℕ)
pairs = (b'a' ∷ b'b' ∷ [], 7) ∷ (b'c' ∷ [], 8) ∷ (b'a' ∷ b'b' ∷ [], 9) ∷ []

map_get-first_wins_example :
    (m : Map) × ((put_all (map_init 3) pairs ≡ some m)
      × ((s : List ℕ) → map_get m s ≡ answer (first_value s pairs)))
map_get-first_wins_example = map_get-first_wins 3 pairs (omega arith) (omega arith)
