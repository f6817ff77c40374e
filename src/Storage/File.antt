-- ===== src/Storage/File.antt =====
-- The buffered and the direct reads of src/storage/file.c. `pread fd off n` is what the system call delivers:
-- the bytes, or none where it returns zero or an error. Pointers are not NULL; a buffer is the bytes written
-- from its start, and its capacity is not negative. A file ends below 2^63 - 4096, so that no sum overflows. The
-- clock, and with it `read_seconds`, is left out.
pub mod Deliver
mod Tests
use multi_model_llm_engine.Base.{
  ℕ, zero, suc, ◌+◌, ◌-◌, ◌*◌, ◌%◌, ◌<◌, Bool, true, false, ◌||◌, Option, none, some, List, [], ◌∷◌,
  ◌++◌, ltb, leb, if◌then◌else◌, length,
}
use multi_model_llm_engine.Base.Int.{ℤ, pos, pos_part, ltb_ℤ}
use multi_model_llm_engine.Base.Words.{inc64, add64}
use multi_model_llm_engine.Storage.Streamer.Sizing.{align_up}

-- Of `FileCtx`: the two descriptors, the second where direct reads are possible.
pub record FileCtx : Type 0 where
  fd : ℕ
  dfd : Option ℕ
  size : ℕ

-- The counters of `EngStorage`.
pub record ReadStats : Type 0 where
  reads : ℕ
  direct_reads : ℕ
  bytes_read : ℕ

-- What a read gives: the value returned, where the payload begins, the bytes in the buffer, the counters.
pub record Delivery : Type 0 where
  returned : ℕ
  payload_off : ℕ
  buffer : List ℕ
  stats : ReadStats

-- A read that is refused counts nothing and writes nothing, `*payload_off` included.
unfoldable pub refused : ReadStats → Delivery
refused st = record { returned = 0; payload_off = 0; buffer = []; stats = st }

-- `off & ~(ENG_IO_ALIGN - 1)`.
unfoldable pub align_down : ℕ → ℕ
align_down off = off - off % 4096

-- What the aligned read returns when it got `got` bytes from `pad` before the payload.
unfoldable pub payload_size : ℕ → ℕ → ℕ → ℕ
payload_size pad nbytes got =
    if leb (pad + nbytes) got then nbytes else if ltb pad got then got - pad else 0

module _ (pread : ℕ → ℕ → ℕ → List ℕ) where
  -- The loop of `pread_all`. Each turn reads a byte at least, so as many turns as bytes are enough.
  unfoldable pub read_loop : ℕ → ℕ → ℕ → ℕ → List ℕ
  read_loop zero fd nbytes off = []
  read_loop (suc turns) fd nbytes off = elim (pread fd off nbytes) [
    | [] ↦ []
    | x ∷ xs ↦
        let got = length (x ∷ xs) in
        (x ∷ xs) ++ (elim (ltb got nbytes) [
          | true ↦ read_loop turns fd (nbytes - got) (off + got)
          | false ↦ []
        ])
  ]

  unfoldable pub pread_all : ℕ → ℕ → ℕ → List ℕ
  pread_all fd nbytes off = if ltb 0 nbytes then read_loop nbytes fd nbytes off else []

  unfoldable pub file_read : FileCtx → ReadStats → ℤ → ℤ → Delivery
  file_read c st off nbytes =
      if ltb_ℤ off (pos 0) || ltb_ℤ nbytes (pos 0)
      then refused st
      else let got = pread_all (c.fd) (pos_part nbytes) (pos_part off) in
        record {
          returned = length got;
          payload_off = 0;
          buffer = got;
          stats = record {
            reads = inc64 (st.reads);
            direct_reads = st.direct_reads;
            bytes_read = add64 (st.bytes_read) (length got);
          };
        }

  -- The direct path: the window of whole pages round the payload.
  unfoldable pub read_window : ℕ → ReadStats → ℕ → ℕ → ℕ → Delivery
  read_window dfd st off nbytes bufcap =
      let lo = align_down off in
      let len = align_up (off + nbytes) - lo in
      let got = pread_all dfd len lo in
      if ltb bufcap len then refused st else record {
        returned = payload_size (off - lo) nbytes (length got);
        payload_off = off - lo;
        buffer = got;
        stats = record {
          reads = inc64 (st.reads);
          direct_reads = inc64 (st.direct_reads);
          bytes_read = add64 (st.bytes_read) (length got);
        };
      }

  unfoldable pub file_read_aligned : FileCtx → ReadStats → ℤ → ℤ → ℕ → Delivery
  file_read_aligned c st off nbytes bufcap =
      if ltb_ℤ off (pos 0) || ltb_ℤ nbytes (pos 0) then refused st else elim (c.dfd) [
        | none ↦ if ltb bufcap (pos_part nbytes) then refused st else file_read c st off nbytes
        | some d ↦ read_window d st (pos_part off) (pos_part nbytes) bufcap
      ]

-- `file_size` and `eng_storage_is_direct`.
unfoldable pub file_size : FileCtx → ℕ
file_size c = c.size

unfoldable pub is_direct : FileCtx → Bool
is_direct c = elim (c.dfd) [ none ↦ false | some _ ↦ true ]

-- The capacity that `eng_storage_alloc_aligned` asks for, where the size is not negative.
unfoldable pub aligned_capacity : ℤ → Option ℕ
aligned_capacity nbytes =
    if ltb_ℤ nbytes (pos 0) then none else some (align_up (pos_part nbytes + 2 * 4096))
