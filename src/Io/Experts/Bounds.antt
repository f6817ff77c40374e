-- ===== src/Io/Experts/Bounds.antt =====
-- The bounds of the run that src/io/k3_load.c tests.
use multi_model_llm_engine.Base.{inl, inr, List, [], ◌∷◌, arith, Bool-cases, All}
use multi_model_llm_engine.Base.Int.{ℤ, pos, ◌≤ℤ◌, ◌+ℤ◌, ltb_ℤ, ltb_ℤ→lt, not_ltb_ℤ→le}
use multi_model_llm_engine.Io.Shards.{K3Tensor}
use multi_model_llm_engine.Io.Experts.{lowest, highest}

-- The least offset, and the greatest end, as bounds.
pub lowest_le :
    (b lo : ℤ) (ts : List K3Tensor) → b ≤ℤ lowest lo ts → (b ≤ℤ lo) × All (λ t. b ≤ℤ t.off) ts
unfolding lowest
lowest_le b lo [] h = (h, tt)
lowest_le b lo (t ∷ ts) h = elim (Bool-cases (ltb_ℤ t.off lo)) [
  | inl e ↦
      let (a, v) = lowest_le b t.off ts (rw e at h) in
      let less = ltb_ℤ→lt t.off lo e in (omega (arith, a, less), (a, v))
  | inr e ↦
      let (a, v) = lowest_le b lo ts (rw e at h) in
      let more = not_ltb_ℤ→le t.off lo e in (a, (omega (arith, a, more), v))
]

pub le_lowest :
    (b lo : ℤ) (ts : List K3Tensor) → b ≤ℤ lo → All (λ t. b ≤ℤ t.off) ts → b ≤ℤ lowest lo ts
unfolding lowest
le_lowest b lo [] h v = h
le_lowest b lo (t ∷ ts) h v = elim (Bool-cases (ltb_ℤ t.off lo)) [
  | inl e ↦ rw e (le_lowest b t.off ts v.0 v.1)
  | inr e ↦ rw e (le_lowest b lo ts h v.1)
]

abbrev pub tail_end : K3Tensor → ℤ
tail_end t = t.off +ℤ t.nbytes

pub le_highest :
    (b hi : ℤ) (ts : List K3Tensor) → highest hi ts ≤ℤ b → (hi ≤ℤ b) × All (λ t. tail_end t ≤ℤ b) ts
unfolding highest
le_highest b hi [] h = (h, tt)
le_highest b hi (t ∷ ts) h = elim (Bool-cases (ltb_ℤ hi (tail_end t))) [
  | inl e ↦
      let (a, v) = le_highest b (tail_end t) ts (rw e at h) in
      let less = ltb_ℤ→lt hi (tail_end t) e in (omega (arith, a, less), (a, v))
  | inr e ↦
      let (a, v) = le_highest b hi ts (rw e at h) in
      let more = not_ltb_ℤ→le hi (tail_end t) e in (a, (omega (arith, a, more), v))
]

pub highest_le :
    (b hi : ℤ) (ts : List K3Tensor) → hi ≤ℤ b → All (λ t. tail_end t ≤ℤ b) ts → highest hi ts ≤ℤ b
unfolding highest
highest_le b hi [] h v = h
highest_le b hi (t ∷ ts) h v = elim (Bool-cases (ltb_ℤ hi (tail_end t))) [
  | inl e ↦ rw e (highest_le b (tail_end t) ts v.0 v.1)
  | inr e ↦ rw e (highest_le b hi ts h v.1)
]

-- What it takes for a tensor to be inside a run.
pub record InRun (lo own : ℤ) (t : K3Tensor) : Type 0 where
  pub after : lo ≤ℤ t.off
  pub before : tail_end t ≤ℤ lo +ℤ own
  pub size : pos 0 ≤ℤ t.nbytes
