-- ===== src/Io/Shards/Read.antt =====
-- The reads of src/io/k3_st.c, over `pread` as a parameter; `fd` has the descriptors of the shards, and `dfd` those that
-- bypass the page cache. Offsets and sizes are far below 2^63.
use multi_model_llm_engine.Base.{
  ℕ, ◌+◌, ◌-◌, not, Option, none, some, List, [], ltb, if◌then◌else◌, length,
}
use multi_model_llm_engine.Base.Int.{ℤ, pos, pos_part, ltb_ℤ}
use multi_model_llm_engine.Storage.Streamer.Sizing.{align_up}
use multi_model_llm_engine.Storage.File.{pread_all, align_down, payload_size}
use multi_model_llm_engine.Io.Shards.{K3Tensor}

-- What a read leaves: the value returned, where the payload begins if that is set, and the bytes in the buffer.
pub record Window : Type 0 where
  pub returned : ℕ
  pub payload_off : Option ℕ
  pub bytes : List ℕ

abbrev no_window : Window
no_window = record { returned = 0; payload_off = none; bytes = [] }

module _ (pread : ℕ → ℕ → ℕ → List ℕ) (nshard : ℕ) (fd : ℕ → ℕ) (dfd : ℕ → Option ℕ) where
  unfoldable pub buffered : ℕ → ℕ → ℕ → ℕ → Window
  buffered shard off nbytes bufcap =
      let got = pread_all pread (fd shard) nbytes off in
      if ltb bufcap nbytes
      then record { returned = 0; payload_off = some 0; bytes = [] }
      else record { returned = length got; payload_off = some 0; bytes = got }

  unfoldable pub widened : ℕ → ℕ → ℕ → ℕ → Window
  widened d off nbytes bufcap =
      let lo = align_down off in
      let len = align_up (off + nbytes) - lo in
      let got = pread_all pread d len lo in
      if ltb bufcap len then no_window else record {
        returned = payload_size (off - lo) nbytes (length got);
        payload_off = some (off - lo);
        bytes = got;
      }

  -- `k3_st_read_aligned`.
  unfoldable pub read_aligned : ℤ → ℕ → ℕ → ℕ → Window
  read_aligned shard off nbytes bufcap =
      if ltb_ℤ shard (pos 0)
      then no_window
      else if not (ltb (pos_part shard) nshard)
      then no_window
      else elim (dfd (pos_part shard)) [
        | none ↦ buffered (pos_part shard) off nbytes bufcap
        | some d ↦ widened d off nbytes bufcap
      ]

-- `k3_st_read`: the bytes that arrive, as many as it returns. The kernel refuses a negative offset.
unfoldable pub read_tensor : (ℕ → ℕ → ℕ → List ℕ) → (ℕ → ℕ) → K3Tensor → List ℕ
read_tensor pread fd t =
    if ltb_ℤ t.off (pos 0)
    then []
    else pread_all pread (fd t.shard) (pos_part t.nbytes) (pos_part t.off)
