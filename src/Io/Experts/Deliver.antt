-- ===== src/Io/Experts/Deliver.antt =====
-- What src/io/k3_load.c leaves in the buffer of an expert.
use multi_model_llm_engine.Base.{
  ℕ, zero, suc, ◌+◌, ◌≡◌, refl, sym, ap, ◌∙◌, subst, inl, inr, Bool, true, false, Option, none,
  some, List, [], ◌∷◌, ==_iff, ◌&&◌, length, arith, Bool-cases, Option-cases, All, All-map,
}
use multi_model_llm_engine.Base.Int.{
  ℤ, pos, pos_part, neg_part, ◌≤ℤ◌, ◌+ℤ◌, ◌-ℤ◌, eq_ℤ, eq_ℤ_iff, +ℤ_parts, -ℤ_parts,
}
use multi_model_llm_engine.Storage.File.Deliver.{IsRegular}
use multi_model_llm_engine.Io.Shards.{K3Tensor}
use multi_model_llm_engine.Io.Shards.Read.{read_tensor}
use multi_model_llm_engine.Io.Experts.{
  K3ExpertRef, Pair, agrees, spans, lowest, highest, sum_bytes, one_by_one, ref_of, in_shard,
  first_shard, find_pair, pairs_from, expert_ref, Buffer, run_tensor, expert_load,
}
use multi_model_llm_engine.Io.Experts.Pieces.{InFile, Loaded, pos_of, length-read_tensor}
use multi_model_llm_engine.Io.Experts.Bounds.{
  lowest_le, le_lowest, tail_end, le_highest, highest_le, InRun,
}
use multi_model_llm_engine.Io.Experts.Run.{in_run-Loaded}
use multi_model_llm_engine.Io.Experts.Each.{sum_bytes_lem, FoundFrom, InShard, load_each-Loaded}

last_test : (a b : Bool) → (a && b) ≡ true → b ≡ true
last_test true b h = h
last_test false b h = cc

agrees-shard : (p : Pair) → agrees p ≡ true → p.scales.shard ≡ p.packed.shard
unfolding agrees
agrees-shard p h = sym ((==_iff p.packed.shard p.scales.shard).0 (last_test _ _ h))

some_injective : {A : Type 0} {a b : A} → some a ≡ some b → a ≡ b
some_injective e = cc

some≢none : {A : Type 0} {a : A} → none ≡ some a → ⊥
some≢none e = cc

abbrev shard_of : List Pair → ℕ
shard_of [] = 0
shard_of (p ∷ ps) = p.packed.shard

module _ (find : List ℕ → Option K3Tensor) (name : ℕ → ℕ → ℕ → Bool → List ℕ)
    (layer expert : ℕ) where
  abbrev Walked : ℕ → ℕ → List Pair → Type 0
  Walked s i ps = FoundFrom (find_pair find name layer expert) i ps × InShard s ps

  -- One matrix of the loop, and the rest.
  pairs_from-step :
      (shard : Option ℕ) (i left : ℕ) (ps : List Pair)
      → pairs_from find name layer expert shard i (suc left) ≡ some ps
      → (p : Pair) × (rest : List Pair) × (ps ≡ p ∷ rest)
        × (find_pair find name layer expert i ≡ some p)
        × (p.scales.shard ≡ p.packed.shard)
        × (in_shard shard p ≡ true)
        × (pairs_from find name layer expert (some (first_shard shard p)) (i + 1) left ≡ some rest)
  unfolding pairs_from
  pairs_from-step shard i left ps e = elim (Option-cases (find_pair find name layer expert i)) [
    | inl a ↦ absurd (some≢none (rw (pairs_from, a) at e))
    | inr (p, a) ↦ elim (Bool-cases (agrees p)) [
      | inr b ↦ absurd (some≢none (rw (pairs_from, a, b) at e))
      | inl b ↦ elim (Bool-cases (in_shard shard p)) [
        | inr c ↦ absurd (some≢none (rw (pairs_from, a, b, c) at e))
        | inl c ↦
            elim (Option-cases
              (pairs_from find name layer expert (some (first_shard shard p)) (i + 1) left)) [
                | inl d ↦ absurd (some≢none (rw (pairs_from, a, b, c, d) at e))
                | inr (rest, d) ↦ (
                  p,
                  rest,
                  sym (some_injective (rw (pairs_from, a, b, c, d) at e)),
                  a,
                  agrees-shard p b,
                  c,
                  d,
                )
              ]
      ]
    ]
  ]

  pairs_from-Walked :
      (s i left : ℕ) (ps : List Pair)
      → pairs_from find name layer expert (some s) i left ≡ some ps
      → Walked s i ps
  unfolding FoundFrom spans pairs_from in_shard
  pairs_from-Walked s i zero ps e = subst (Walked s i) (some_injective e) (tt, tt)
  pairs_from-Walked s i (suc left) ps e =
      let (p, rest, whole, a, b, c, d) = pairs_from-step (some s) i left ps e in
      let (found, same) = pairs_from-Walked s (i + 1) left rest d in
      let here : p.packed.shard ≡ s = (==_iff p.packed.shard s).0 c in
      subst (Walked s i) (sym whole) ((a, found), (here, (b ∙ here, same)))

  pairs_from-first :
      (p : Pair) (ps : List Pair)
      → pairs_from find name layer expert none 0 3 ≡ some (p ∷ ps)
      → Walked p.packed.shard 0 (p ∷ ps)
  unfolding FoundFrom spans
  pairs_from-first p ps e =
      let (q, rest, whole, a, b, c, d) = pairs_from-step none 0 2 (p ∷ ps) e in
      let (found, same) = pairs_from-Walked q.packed.shard 1 2 rest d in
      subst (λ xs. Walked (shard_of xs) 0 xs) (sym whole) ((a, found), (refl, (b, same)))

eq_after : (hi lo own : ℤ) → eq_ℤ (hi -ℤ lo) own ≡ true → (hi ≤ℤ lo +ℤ own) × (lo +ℤ own ≤ℤ hi)
eq_after hi lo own h =
    let same : hi -ℤ lo ≡ own = (eq_ℤ_iff (hi -ℤ lo) own).0 h in
    let parts =
      subst (λ z. pos_part z + neg_part hi + pos_part lo ≡ neg_part z + pos_part hi + neg_part lo)
        same (-ℤ_parts hi lo) in
    let sum = +ℤ_parts lo own in (omega (arith, parts, sum), omega (arith, parts, sum))

All-zip3 :
    {A : Type 0} (P Q R S : A → Type 0) (xs : List A)
    → ((x : A) → P x → Q x → R x → S x)
    → All P xs
    → All Q xs
    → All R xs
    → All S xs
All-zip3 P Q R S [] f p q r = tt
All-zip3 P Q R S (x ∷ xs) f p q r = (f x p.0 q.0 r.0, All-zip3 P Q R S xs f p.1 q.1 r.1)

module _ (contents : List ℕ) (p : Pair) (ps : List Pair)
    (v : All (InFile contents) (spans (p ∷ ps))) where
  abbrev lo : ℤ
  lo = lowest p.packed.off (spans (p ∷ ps))

  abbrev hi : ℤ
  hi = highest (pos 0) (spans (p ∷ ps))

  abbrev own : ℤ
  own = sum_bytes (pos 0) (spans (p ∷ ps))

  lo-nonnegative : pos 0 ≤ℤ lo
  unfolding spans
  lo-nonnegative =
      le_lowest (pos 0) p.packed.off (spans (p ∷ ps)) v.0.begins
        (All-map (InFile contents) (λ t. pos 0 ≤ℤ t.off) (spans (p ∷ ps)) (λ t f. f.begins) v)

  hi-inside : hi ≤ℤ pos (length contents)
  hi-inside = highest_le (pos (length contents)) (pos 0) (spans (p ∷ ps)) (omega arith) (
      All-map (InFile contents) (λ t. tail_end t ≤ℤ pos (length contents)) (spans (p ∷ ps))
        (λ t f. f.ends) v)

  -- A run that is as long as its tensors together holds each of them.
  spans-InRun : eq_ℤ (hi -ℤ lo) own ≡ true → All (InRun lo own) (spans (p ∷ ps))
  spans-InRun e =
      let after = (lowest_le lo p.packed.off (spans (p ∷ ps)) (omega arith)).1 in
      let before = (le_highest (lo +ℤ own) (pos 0) (spans (p ∷ ps)) (eq_after hi lo own e).0).1 in
      All-zip3 (λ t. lo ≤ℤ t.off) (λ t. tail_end t ≤ℤ lo +ℤ own) (InFile contents) (InRun lo own)
        (spans (p ∷ ps)) (λ t a b f. record { after = a; before = b; size = f.size }) after before v

  run-InFile :
      (r : K3ExpertRef)
      → r.off ≡ lo
      → r.nbytes ≡ own
      → eq_ℤ (hi -ℤ lo) own ≡ true
      → InFile contents (run_tensor r)
  unfolding run_tensor
  run-InFile r a b e =
      let sum = sum_bytes_lem contents 0 (p ∷ ps) v in
      let size : pos 0 ≤ℤ own = subst (λ z. pos 0 ≤ℤ z) (sym sum) (omega arith) in
      let ends : lo +ℤ own ≤ℤ pos (length contents) =
        omega (arith, hi-inside, (eq_after hi lo own e).1) in
      record {
        begins = subst (λ z. pos 0 ≤ℤ z) (sym a) lo-nonnegative;
        size = subst (λ z. pos 0 ≤ℤ z) (sym b) size;
        ends = rw (a, b) ends;
      }

module _ (find : List ℕ → Option K3Tensor) (name : ℕ → ℕ → ℕ → Bool → List ℕ)
    (pread : ℕ → ℕ → ℕ → List ℕ) (fd : ℕ → ℕ) (contents : List ℕ) where
  loaded :
      (layer expert : ℕ) (p : Pair) (ps : List Pair) (buf : Buffer)
      → pairs_from find name layer expert none 0 3 ≡ some (p ∷ ps)
      → All (InFile contents) (spans (p ∷ ps))
      → IsRegular pread (fd p.packed.shard) contents
      → let r = ref_of layer expert p ps in
        Loaded contents (expert_load find name pread fd r buf).0 (p ∷ ps) r.m
        × (pos (expert_load find name pread fd r buf).1 ≡ r.nbytes)
  unfolding ref_of expert_load run_tensor
  loaded layer expert p ps buf e v regular =
      let r = ref_of layer expert p ps in
      let sum = sum_bytes_lem contents 0 (p ∷ ps) v in
      elim (Bool-cases (eq_ℤ (hi contents p ps v -ℤ lo contents p ps v) (own contents p ps v))) [
        | inl one ↦
            let inside = run-InFile contents p ps v r refl refl one in
            let count : pos (length (read_tensor pread fd (run_tensor r))) ≡ own contents p ps v =
              ap pos (length-read_tensor pread fd contents (run_tensor r) regular inside)
              ∙ sym (pos_of r.nbytes inside.size) in
            rw one (
              in_run-Loaded pread fd contents (run_tensor r) regular inside buf (p ∷ ps)
                  (spans-InRun contents p ps v one),
              count,
            )
        | inr many ↦
            let (found, same) = pairs_from-first find name layer expert p ps e in
            let apart : K3ExpertRef = record r {
              contiguous = false;
              m = one_by_one (pos 0) (p ∷ ps);
            } in
            let out =
              load_each-Loaded find name pread fd contents p.packed.shard regular apart (p ∷ ps) 0 0
                buf 0 found v same in
            rw many (out.1, ap pos (out.2) ∙ sym sum)
      ]

  -- If the tests of `k3_expert_ref` pass and the six tensors lie in their shard, `k3_expert_load` puts into any buffer, at
  -- the two places that each matrix is said to have, exactly the bytes of its weights and of its scales, whether the six
  -- are one run or scattered, and returns the size that the reference tells.
  pub expert_load-Loaded :
      (layer expert : ℕ) (p : Pair) (ps : List Pair) (buf : Buffer)
      → pairs_from find name layer expert none 0 3 ≡ some (p ∷ ps)
      → All (InFile contents) (spans (p ∷ ps))
      → IsRegular pread (fd p.packed.shard) contents
      → (r : K3ExpertRef) × (expert_ref find name layer expert ≡ some r)
        × Loaded contents (expert_load find name pread fd r buf).0 (p ∷ ps) r.m
        × (pos (expert_load find name pread fd r buf).1 ≡ r.nbytes)
  unfolding expert_ref
  expert_load-Loaded layer expert p ps buf e v regular =
      let r = ref_of layer expert p ps in
      let both = loaded layer expert p ps buf e v regular in
      (r, rw (expert_ref, e) refl, both.0, both.1)
