-- ===== src/Io/Experts/Run.antt =====
-- The single read of an expert of src/io/k3_load.c.
use multi_model_llm_engine.Base.{
  ℕ, ◌+◌, ◌<◌, ◌≡◌, ap, ◌∙◌, List, [], ◌∷◌, length, get_elem?, arith, All,
}
use multi_model_llm_engine.Base.Int.{pos_part, ◌-ℤ◌, +ℤ_parts, -ℤ_parts}
use multi_model_llm_engine.Storage.File.Deliver.{IsRegular}
use multi_model_llm_engine.Io.Shards.{K3Tensor}
use multi_model_llm_engine.Io.Shards.Read.{read_tensor}
use multi_model_llm_engine.Io.Experts.{Pair, spans, qmat, in_run, Buffer, write_at}
use multi_model_llm_engine.Io.Experts.Pieces.{
  InFile, Copies, Loaded, write_at-inside, no_neg, length-read_tensor, read_tensor_byte,
}
use multi_model_llm_engine.Io.Experts.Bounds.{InRun}

module _ (pread : ℕ → ℕ → ℕ → List ℕ) (fd : ℕ → ℕ) (contents : List ℕ) (run : K3Tensor)
    (regular : IsRegular pread (fd run.shard) contents) (whole : InFile contents run) where
  run-Copies :
      (buf : Buffer) (t : K3Tensor)
      → InRun run.off run.nbytes t
      → Copies contents (write_at buf 0 (read_tensor pread fd run)) (t.off -ℤ run.off) t
  unfolding Copies
  run-Copies buf t v j h =
      let at = pos_part (t.off -ℤ run.off) in
      let shift = -ℤ_parts t.off run.off in
      let plain = no_neg (t.off -ℤ run.off) (omega (arith, v.after, shift)) in
      let total_end = +ℤ_parts run.off run.nbytes in
      let own_end = +ℤ_parts t.off t.nbytes in
      let short : at + j < pos_part run.nbytes = omega (
        arith,
        v.after,
        v.before,
        v.size,
        h,
        shift,
        total_end,
        own_end,
        plain,
        no_neg run.off whole.begins,
        no_neg run.nbytes whole.size,
        no_neg t.nbytes v.size,
      ) in
      let inside : at + j < length (read_tensor pread fd run) =
        omega (arith, short, length-read_tensor pread fd contents run regular whole) in
      let place : pos_part run.off + (at + j) ≡ pos_part t.off + j = omega (
        arith,
        v.after,
        shift,
        plain,
        no_neg run.off whole.begins,
        no_neg t.off (omega (arith, v.after, whole.begins)),
      ) in
      ap (write_at buf 0 (read_tensor pread fd run)) (omega arith)
      ∙ write_at-inside buf 0 (at + j) (read_tensor pread fd run) inside
      ∙ read_tensor_byte pread fd contents run (at + j) regular whole short
      ∙ ap (get_elem? contents) place

  pub in_run-Loaded :
      (buf : Buffer) (ps : List Pair)
      → All (InRun run.off run.nbytes) (spans ps)
      → Loaded contents (write_at buf 0 (read_tensor pread fd run)) ps (in_run run.off ps)
  unfolding Loaded in_run spans qmat
  in_run-Loaded buf [] v = tt
  in_run-Loaded buf (p ∷ ps) v =
      (run-Copies buf p.packed v.0, run-Copies buf p.scales v.1.0, in_run-Loaded buf ps v.1.1)
