-- ===== src/Io/Experts/Tests.antt =====
-- Runs of src/io/k3_load.c on an expert of three matrices with one row of 32 elements each.
use multi_model_llm_engine.Base.{
  ℕ, ◌+◌, ◌*◌, ◌≤◌, ◌≡◌, refl, Bool, true, false, Option, none, some, List, [], ◌∷◌, take, drop,
  arith, All, replicate, if◌then◌else◌, min,
}
use multi_model_llm_engine.Base.Int.{pos-add, pos, ◌*ℤ◌}
use multi_model_llm_engine.Formats.Gguf.Types.{same_text}
use multi_model_llm_engine.Storage.File.Deliver.{IsRegular}
use multi_model_llm_engine.Io.Shards.{K3Tensor, u8}
use multi_model_llm_engine.Io.Experts.{
  K3ExpertRef, Pair, agrees, spans, in_shard, find_pair, pairs_from, expert_ref, expert_load,
}
use multi_model_llm_engine.Io.Experts.Pieces.{Loaded, InFile}
use multi_model_llm_engine.Io.Experts.Deliver.{expert_load-Loaded}

abbrev name : ℕ → ℕ → ℕ → Bool → List ℕ
name layer expert i scales = layer ∷ expert ∷ i ∷ (if scales then 1 else 0) ∷ []

abbrev contents : List ℕ
contents = replicate 60 7

abbrev by_fives : ℕ → ℕ → ℕ → List ℕ
by_fives fd off n = take (min n 5) (drop off contents)

by_fives-IsRegular : (fd : ℕ) → IsRegular by_fives fd contents
unfolding IsRegular
by_fives-IsRegular fd off n positive = (min n 5, omega arith, omega arith, refl)

abbrev weights : ℕ → K3Tensor
weights i = record {
  name = name 2 9 i false;
  shard = 4;
  dtype = u8;
  shape = pos 1 ∷ pos 16 ∷ [];
  off = pos (8 + i * 17);
  nbytes = pos 16;
}

abbrev scales : ℕ → K3Tensor
scales i = record {
  name = name 2 9 i true;
  shard = 4;
  dtype = u8;
  shape = pos 1 ∷ pos 1 ∷ [];
  off = pos (24 + i * 17);
  nbytes = pos 1;
}

abbrev find_among : List K3Tensor → List ℕ → Option K3Tensor
find_among [] s = none
find_among (t ∷ ts) s = let rest = find_among ts s in if same_text t.name s then some t else rest

abbrev find : List ℕ → Option K3Tensor
find = find_among (weights 0 ∷ scales 0 ∷ weights 1 ∷ scales 1 ∷ weights 2 ∷ scales 2 ∷ [])

abbrev matrix : ℕ → Pair
matrix i = record { packed = weights i; scales = scales i }

paired : pairs_from find name 2 9 none 0 3 ≡ some (matrix 0 ∷ matrix 1 ∷ matrix 2 ∷ [])
unfolding pairs_from find_pair agrees in_shard same_text ◌*ℤ◌
paired = refl

absent : expert_ref find name 2 8 ≡ none
unfolding expert_ref pairs_from find_pair same_text
absent = refl

lies :
    (o n : ℕ) → o + n ≤ 60 → (t : K3Tensor) → t.off ≡ pos o → t.nbytes ≡ pos n → InFile contents t
lies o n h t a b = record {
  begins = rw a (omega arith);
  size = rw b (omega arith);
  ends = rw (a, b, pos-add o n) (omega (arith, h));
}

inside : All (InFile contents) (spans (matrix 0 ∷ matrix 1 ∷ matrix 2 ∷ []))
unfolding spans
inside = (
  lies 8 16 (omega arith) (weights 0) refl refl,
  (
    lies 24 1 (omega arith) (scales 0) refl refl,
    (
      lies 25 16 (omega arith) (weights 1) refl refl,
      (
        lies 41 1 (omega arith) (scales 1) refl refl,
        (
          lies 42 16 (omega arith) (weights 2) refl refl,
          (lies 58 1 (omega arith) (scales 2) refl refl, tt),
        ),
      ),
    ),
  ),
)

expert_load-Loaded_example :
    (r : K3ExpertRef) × (expert_ref find name 2 9 ≡ some r)
    × Loaded contents
        (expert_load find name by_fives (λ shard. shard) r (λ j. none)).0
        (matrix 0 ∷ matrix 1 ∷ matrix 2 ∷ [])
        r.m
    × (pos (expert_load find name by_fives (λ shard. shard) r (λ j. none)).1 ≡ r.nbytes)
expert_load-Loaded_example =
    expert_load-Loaded find name by_fives (λ shard. shard) contents 2 9 (matrix 0)
      (matrix 1 ∷ matrix 2 ∷ []) (λ j. none) paired inside (by_fives-IsRegular 4)
