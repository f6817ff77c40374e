-- ===== src/Storage/Streamer/Ring.antt =====
-- The pinned prefix, the ring of slots and the reader thread of src/storage/streamer.c. Block numbers
-- are not negative. `block_of` and `slot_of` hold `none` for -1, and `arena` and `pin` the buffers, each with
-- its `slot_pad` or `pin_pad`.
pub mod Sound
pub mod Collect
pub mod Serve
pub mod Ahead
pub mod Create
pub mod Run
use multi_model_llm_engine.Base.{
  ℕ, zero, suc, ◌+◌, ◌%◌, Bool, true, false, ◌||◌, Option, none, some, leb, ltb, ◌==◌, List, [],
  drop, if◌then◌else◌, is_some,
}
use multi_model_llm_engine.Base.Words.{inc64, add64, update}
use multi_model_llm_engine.Storage.Streamer.Sizing.{need}

-- `StreamIO`, by what `io`, `busy` and `done` say: no reader thread, no request, the block and the
-- slot of one under way, and those of one that is done with whether the read succeeded.
pub data Io : Type 0 where
  synchronous idle : Io
  reading : ℕ → ℕ → Io
  fetched : ℕ → ℕ → Bool → Io

-- A slot of the arena or a pinned buffer: its bytes, `none` where a read failed or none was made, and where the
-- payload begins.
pub record SlotBuffer : Type 0 where
  pub bytes : Option (List ℕ)
  pub pad : ℕ

-- `calloc`ed pads and no bytes.
abbrev pub no_bytes : SlotBuffer
no_bytes = record { bytes = none; pad = 0 }

-- A buffer after `load_block`: the pad is set if the read succeeded.
unfoldable pub after_read : SlotBuffer → Option (ℕ × List ℕ) → SlotBuffer
after_read old none = record old { bytes = none }
after_read old (some (pad, bytes)) = record { bytes = some bytes; pad = pad }

-- The bytes from where the payload begins.
unfoldable pub from_pad : SlotBuffer → List ℕ
from_pad b = elim b.bytes [ none ↦ [] | some bytes ↦ drop b.pad bytes ]

-- `EngStreamer`; `reads` counts the calls of `read_aligned`, which may fail at any one of them.
pub record Streamer : Type 0 where
  pub nblocks : ℕ
  pub npin : ℕ
  pub nslot : ℕ
  pub slot_bytes : ℕ
  pub extra_bytes : ℕ
  pub nbytes : ℕ → ℕ
  pub pin : ℕ → SlotBuffer
  pub arena : ℕ → SlotBuffer
  pub block_of : ℕ → Option ℕ
  pub slot_of : ℕ → Option ℕ
  pub ring : ℕ
  pub io : Io
  pub hits : ℕ
  pub misses : ℕ
  pub bytes_read : ℕ
  pub reads : ℕ

-- What `eng_streamer_get` returns a pointer into.
pub data Place : Type 0 where
  pinned_buffer ring_slot : ℕ → Place

-- What `io_collect` returns: 0, 1 and -1.
pub data Collected : Type 0 where
  nothing landed failed : Collected

-- The loop that looks for a block in the slots from `i` on.
unfoldable pub find : (ℕ → Option ℕ) → ℕ → ℕ → ℕ → Option ℕ
find block_of b i zero = none
find block_of b i (suc left) =
    let rest = find block_of b (suc i) left in
    elim (block_of i) [ none ↦ rest | some b' ↦ if b' == b then some i else rest ]

unfoldable pub bytes_at : Streamer → Place → List ℕ
bytes_at s (pinned_buffer b) = from_pad (s.pin b)
bytes_at s (ring_slot i) = from_pad (s.arena i)

-- `s->slot_of[s->block_of[slot]] = -1` and `s->block_of[slot] = -1`, behind the step of the ring.
unfoldable pub claim : Streamer → ℕ × Streamer
claim s = (
  s.ring,
  record s {
    ring = (s.ring + 1) % s.nslot;
    slot_of = elim (s.block_of s.ring) [ none ↦ s.slot_of | some b ↦ update s.slot_of b none ];
    block_of = update s.block_of s.ring none;
  },
)

-- `read_aligned`: at which call, which block, and how many bytes the buffer has; where the payload begins and what
-- the buffer then has, `none` where fewer bytes than the block's were read. The payload begins in the first page, so
-- that the cast of its place to `int32_t` is left out.
module _ (read_aligned : ℕ → ℕ → ℕ → Option (ℕ × List ℕ)) where
  -- `load_block`.
  unfoldable pub load_block : Streamer → ℕ → ℕ → Option (ℕ × List ℕ) × Streamer
  load_block s b cap =
      let got = read_aligned s.reads b cap in
      (
        got,
        record s {
          reads = s.reads + 1;
          bytes_read = elim got [ none ↦ s.bytes_read | some _ ↦ add64 s.bytes_read (s.nbytes b) ];
        },
      )

  -- One round of `io_main`, if there is a request.
  unfoldable pub read_request : Streamer → Streamer
  read_request s = elim s.io as (λ _. Streamer) [
    | Io.reading b i ↦
        let (got, s') = load_block s b s.slot_bytes in
        record s' {
          arena = update s.arena i (after_read (s.arena i) got);
          io = Io.fetched b i (is_some got);
        }
    | _ ↦ s
  ]

  -- The end of `io_collect`, for a request for `b` that is done.
  unfoldable pub publish_block : Streamer → ℕ → Collected × Streamer
  publish_block s b = elim s.io as (λ _. Collected × Streamer) [
    | Io.fetched _ i true ↦ (
      landed,
      record s {
        block_of = update s.block_of i (some b);
        slot_of = update s.slot_of b (some i);
        misses = inc64 s.misses;
        io = Io.idle;
      },
    )
    | Io.fetched _ _ false ↦ (failed, record s { io = Io.idle })
    | _ ↦ (nothing, s)
  ]

  -- `io_collect`: it waits for the reader.
  unfoldable pub io_collect : Streamer → ℕ → Collected × Streamer
  io_collect s b = elim s.io as (λ _. Collected × Streamer) [
    | Io.reading b' _ ↦ if b' == b then publish_block (read_request s) b else (nothing, s)
    | Io.fetched b' _ _ ↦ if b' == b then publish_block s b else (nothing, s)
    | _ ↦ (nothing, s)
  ]

  -- `eng_streamer_get` for a pinned block.
  unfoldable pub get_pinned : Streamer → ℕ → Option Place × Streamer
  get_pinned s b =
      let (got, s₁) = load_block s b (need s.extra_bytes (s.nbytes b)) in
      let s₂ = record s₁ { pin = update s.pin b (after_read (s.pin b) got) } in
      elim (s.slot_of b) [
        | some _ ↦ (some (pinned_buffer b), record s { hits = inc64 s.hits })
        | none ↦ elim got [
          | none ↦ (none, s₂)
          | some _ ↦ (
            some (pinned_buffer b),
            record s₂ { slot_of = update s.slot_of b (some b); misses = inc64 s.misses },
          )
        ]
      ]

  -- ... for a block that is read into the next slot of the ring.
  unfoldable pub get_read : Streamer → ℕ → Option Place × Streamer
  get_read s b =
      let (slot, s₁) = claim s in
      let (got, s₂) = load_block s₁ b s.slot_bytes in
      let s₃ = record s₂ { arena = update s.arena slot (after_read (s.arena slot) got) } in
      elim got [
        | none ↦ (none, s₃)
        | some _ ↦ (
          some (ring_slot slot),
          record s₃ {
            block_of = update s₁.block_of slot (some b);
            slot_of = update s₁.slot_of b (some slot);
            misses = inc64 s.misses;
          },
        )
      ]

  -- ... for a block of which nothing was collected.
  unfoldable pub get_streamed : Streamer → ℕ → Option Place × Streamer
  get_streamed s b = elim (find s.block_of b 0 s.nslot) [
    | some i ↦ (some (ring_slot i), record s { hits = inc64 s.hits })
    | none ↦ get_read s b
  ]

  -- `eng_streamer_get`. A collected block is in the slot that `slot_of` then names.
  unfoldable pub streamer_get : Streamer → ℕ → Option Place × Streamer
  streamer_get s b =
      let (c, s') = io_collect s b in
      if leb s.nblocks b
      then (none, s)
      else if ltb b s.npin
      then get_pinned s b
      else elim c as (λ _. Option Place × Streamer) [
        | Collected.failed ↦ (none, s')
        | Collected.landed ↦ (elim (s'.slot_of b) [ none ↦ none | some i ↦ some (ring_slot i) ], s')
        | Collected.nothing ↦ get_streamed s' b
      ]

-- `eng_streamer_prefetch`.
unfoldable pub streamer_prefetch : Streamer → ℕ → Streamer
streamer_prefetch s b =
    let (slot, s') = claim s in
    if leb s.nblocks b || ltb b s.npin || is_some (find s.block_of b 0 s.nslot)
    then s
    else elim s.io as (λ _. Streamer) [
      | Io.idle ↦ if is_some (s.slot_of b) then s else record s' { io = Io.reading b slot }
      | _ ↦ s
    ]
