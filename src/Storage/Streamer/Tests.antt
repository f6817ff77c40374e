-- ===== src/Storage/Streamer/Tests.antt =====
-- The theorems on src/storage/streamer.c, and two runs where its comments promise more.
use multi_model_llm_engine.Base.{
  ap, subst, take, drop, ℕ, ◌+◌, ◌*◌, ◌≡◌, refl, Option, none, some, arith, List, [], ◌∷◌,
}
use multi_model_llm_engine.Base.Words.{inc64, add64}
use multi_model_llm_engine.Storage.Streamer.Sizing.{
  align_up, need, largest, last_block, slot_for, shrink, pin_prefix, Split, pass, passes, sizing,
}
use multi_model_llm_engine.Storage.Streamer.Sizing.Fits.{IsSized, sizing-IsSized}
use multi_model_llm_engine.Storage.Streamer.Ring.{
  Io, no_bytes, after_read, from_pad, Streamer, Place, ring_slot, find, bytes_at, claim, load_block,
  read_request, publish_block, io_collect, get_read, get_streamed, streamer_get, streamer_prefetch,
}
use multi_model_llm_engine.Storage.Streamer.Ring.Sound.{IsSound, IsFaithful, CanReuse}
use multi_model_llm_engine.Storage.Streamer.Ring.Serve.{Serves, streamer_get-Serves}
use multi_model_llm_engine.Base.{true}
use multi_model_llm_engine.Base.Int.{pos}
use multi_model_llm_engine.Storage.Streamer.Ring.Create.{
  StreamerCfg, built, streamer_create, IsReady, streamer_create-IsReady,
}
use multi_model_llm_engine.Base.{inl}
use multi_model_llm_engine.Storage.Streamer.Ring.Run.{
  start, then_step, getting, reading_ahead, reader, Walk-IsSound,
}
use multi_model_llm_engine.Storage.Streamer.Ring.Ahead.{
  streamer_prefetch-IsSound, streamer_prefetch-CanReuse,
}

abbrev three : List ℕ
three = 10000 ∷ 5000 ∷ 9000 ∷ []

abbrev three_split : Split
three_split = record { ring_slot = 16384; npin = 1; ring = 2; spent = 49152 }

three_sized : sizing 0 50000 2 three ≡ some three_split
unfolding sizing passes pass slot_for largest last_block need align_up shrink pin_prefix
three_sized = refl

sizing-IsSized_example : IsSized 0 50000 2 three three_split
sizing-IsSized_example = sizing-IsSized 0 50000 2 three three_split three_sized

-- With an extra byte behind each block the passes swing between two splits, and the last one streams
-- a block of 100 pages through slots of 62.
swings :
    sizing 1 (203 * 4096 + 100) 2 ((100 * 4096) ∷ (60 * 4096) ∷ [])
    ≡ some (record { ring_slot = 62 * 4096; npin = 0; ring = 2; spent = 124 * 4096 })
unfolding sizing passes pass slot_for largest last_block need align_up shrink pin_prefix
swings = refl

-- Block b is the byte b, and every read succeeds, with the block two bytes into the buffer.
abbrev byte : ℕ → List ℕ
byte b = b ∷ []

abbrev every_read : ℕ → ℕ → ℕ → Option (ℕ × List ℕ)
every_read at_read b cap = some (2, 0 ∷ 0 ∷ b ∷ 0 ∷ [])

every_read-IsFaithful : IsFaithful byte every_read
every_read-IsFaithful at_read b cap pad bytes e =
    let at_pad : 2 ≡ pad = ap (λ o. elim o [ none ↦ 2 | some (p, _) ↦ p ]) e in
    let same : 0 ∷ 0 ∷ b ∷ 0 ∷ [] ≡ bytes = ap (λ o. elim o [ none ↦ bytes | some (_, l) ↦ l ]) e in
    subst (λ p. take 1 (drop p bytes) ≡ byte b) at_pad
      (subst (λ l. take 1 (drop 2 l) ≡ byte b) same refl)

abbrev two_slots : Streamer
two_slots = record {
  nblocks = 6;
  npin = 1;
  nslot = 2;
  slot_bytes = 16384;
  extra_bytes = 0;
  nbytes = λ _. 5000;
  pin = λ _. no_bytes;
  arena = λ _. no_bytes;
  block_of = λ _. none;
  slot_of = λ _. none;
  ring = 0;
  io = Io.idle;
  hits = 0;
  misses = 0;
  bytes_read = 0;
  reads = 0;
}

two_slots-IsSound : IsSound byte two_slots
two_slots-IsSound = record {
  slots = record { pinned = λ b k less e. ground arith; resident = λ i b e. ground arith };
  pending = tt;
}

streamer_prefetch-CanReuse_example : CanReuse byte (streamer_prefetch two_slots 1) 2
streamer_prefetch-CanReuse_example =
    streamer_prefetch-CanReuse byte two_slots 1 2 (omega arith) (omega arith) refl

streamer_get-Serves_example :
    Serves byte 2 (streamer_get every_read (streamer_prefetch two_slots 1) 2)
streamer_get-Serves_example =
    streamer_get-Serves byte every_read every_read-IsFaithful (streamer_prefetch two_slots 1) 2
      (streamer_prefetch-IsSound byte two_slots 1 two_slots-IsSound)
      (streamer_prefetch-CanReuse byte two_slots 1 2 (omega arith) (omega arith) refl)

-- Block 1 is read ahead into slot 0 and not asked for; blocks 2 and 3 are; then block 1 is.
late : Option Place × Streamer
late =
    let s₁ = read_request every_read (streamer_prefetch two_slots 1) in
    let s₂ = (streamer_get every_read s₁ 2).1 in
    let s₃ = (streamer_get every_read s₂ 3).1 in streamer_get every_read s₃ 1

-- The place that is returned for block 1 has the bytes of block 3.
late_stale : (late.0 ≡ some (ring_slot 0)) × (bytes_at late.1 (ring_slot 0) ≡ 3 ∷ 0 ∷ [])
unfolding late streamer_get streamer_prefetch read_request io_collect publish_block get_streamed
    get_read find claim load_block bytes_at after_read from_pad inc64 add64
late_stale = (refl, refl)

abbrev three_cfg : StreamerCfg
three_cfg = record {
  blocks = three;
  budget_bytes = 50000;
  extra_bytes = pos 0;
  ring_want = pos 2;
  async = true;
}

made : streamer_create three_cfg true true ≡ some (built three_cfg true three_split)
unfolding streamer_create sizing passes pass slot_for largest last_block need align_up shrink
    pin_prefix
made = refl

streamer_create-IsReady_example : IsReady byte (built three_cfg true three_split)
streamer_create-IsReady_example =
    streamer_create-IsReady byte three_cfg true true (built three_cfg true three_split) made

-- Block 1 is read ahead, the reader reads it, and it is asked for.
abbrev ahead : Streamer
ahead = read_request every_read (streamer_prefetch (built three_cfg true three_split) 1)

asked-CanReuse : CanReuse byte ahead 1
unfolding read_request streamer_prefetch claim find load_block built
asked-CanReuse = inl refl

Walk-IsSound_example : IsSound byte (streamer_get every_read ahead 1).1
Walk-IsSound_example = Walk-IsSound byte three_cfg true true made (
    then_step
      (then_step (then_step start (reading_ahead (built three_cfg true three_split) 1)) (
        reader every_read (streamer_prefetch (built three_cfg true three_split) 1)
          every_read-IsFaithful))
      (getting every_read ahead 1 every_read-IsFaithful asked-CanReuse))
