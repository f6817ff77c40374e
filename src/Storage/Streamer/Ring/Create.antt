-- ===== src/Storage/Streamer/Ring/Create.antt =====
-- `eng_streamer_create`, the statistics and the predicted hit rate of src/storage/streamer.c.
use multi_model_llm_engine.Base.{
  ℕ, ◌≤◌, ◌<◌, ◌≡◌, ◌⊎◌, refl, subst, inl, inr, Bool, true, false, ◌&&◌, Option, none, some, List,
  arith, leb, if◌then◌else◌, length, get_or, Bool-cases, Option-cases,
}
use multi_model_llm_engine.Base.Int.{ℤ, pos_part}
use multi_model_llm_engine.Storage.Streamer.Sizing.{Split, sizing}
use multi_model_llm_engine.Storage.Streamer.Sizing.Fits.{IsSized, sizing-IsSized}
use multi_model_llm_engine.Storage.Streamer.Ring.{Io, Streamer, no_bytes}
use multi_model_llm_engine.Storage.Streamer.Ring.Sound.{IsSound, Slots, none-some, some_injective}

-- `EngStreamerCfg`, less the name, the store and the flags for pages and printing; `blocks` are sizes.
pub record StreamerCfg : Type 0 where
  pub blocks : List ℕ
  pub budget_bytes : ℕ
  pub extra_bytes : ℤ
  pub ring_want : ℤ
  pub async : Bool

-- `EngStreamerStats`, less the times.
pub record StreamerStats : Type 0 where
  pub hits : ℕ
  pub misses : ℕ
  pub bytes_read : ℕ
  pub npin : ℕ
  pub nslot : ℕ
  pub nblocks : ℕ
  pub slot_bytes : ℕ
  pub async : Bool

abbrev pub has_reader : Io → Bool
has_reader Io.synchronous = false
has_reader Io.idle = true
has_reader (Io.reading _ _) = true
has_reader (Io.fetched _ _ _) = true

-- The streamer that is built from a split.
unfoldable pub built : StreamerCfg → Bool → Split → Streamer
built cfg thread_ok split = record {
  nblocks = length cfg.blocks;
  npin = split.npin;
  nslot = split.ring;
  slot_bytes = split.ring_slot;
  extra_bytes = pos_part cfg.extra_bytes;
  nbytes = λ i. get_or cfg.blocks i 0;
  pin = λ _. no_bytes;
  arena = λ _. no_bytes;
  block_of = λ _. none;
  slot_of = λ _. none;
  ring = 0;
  io = if cfg.async && leb 2 split.ring && thread_ok then Io.idle else Io.synchronous;
  hits = 0;
  misses = 0;
  bytes_read = 0;
  reads = 0;
}

-- `eng_streamer_create`: `none` is NULL. `memory_ok` says whether the allocations succeed,
-- `thread_ok` whether `pthread_create` does.
unfoldable pub streamer_create : StreamerCfg → Bool → Bool → Option (Streamer)
streamer_create cfg memory_ok thread_ok =
    if leb (length cfg.blocks) 0
    then none
    else elim (sizing (pos_part cfg.extra_bytes) cfg.budget_bytes (pos_part cfg.ring_want)
        cfg.blocks) [
          | none ↦ none
          | some split ↦ if memory_ok then some (built cfg thread_ok split) else none
        ]

-- `eng_streamer_stats`.
unfoldable pub streamer_stats : Streamer → StreamerStats
streamer_stats s = record {
  hits = s.hits;
  misses = s.misses;
  bytes_read = s.bytes_read;
  npin = s.npin;
  nslot = s.nslot;
  nblocks = s.nblocks;
  slot_bytes = s.slot_bytes;
  async = has_reader s.io;
}

-- `eng_streamer_predicted_hit_rate`, as a quotient; `none` is 0.0.
unfoldable pub predicted_hit_rate : Streamer → Option (ℕ × ℕ)
predicted_hit_rate s = if leb s.nblocks 0 then none else some (s.npin, s.nblocks)

-- What a new streamer promises: its slots are sound, its pinned blocks exist, its ring starts at a
-- slot of its own, and there is a reader thread only where there are two slots or more.
pub record IsReady (content : ℕ → List ℕ) (s : Streamer) : Type 0 where
  pub sound : IsSound content s
  pub prefix : s.npin ≤ s.nblocks
  pub at_slot : s.ring < s.nslot
  pub two_slots : (s.io ≡ Io.synchronous) ⊎ (1 < s.nslot)

module _ (content : ℕ → List ℕ) where
  built-IsReady :
      (cfg : StreamerCfg) (thread_ok : Bool) (split : Split)
      → IsSized
          (pos_part cfg.extra_bytes)
          cfg.budget_bytes
          (pos_part cfg.ring_want)
          cfg.blocks
          split
      → IsReady content (built cfg thread_ok split)
  unfolding built
  built-IsReady cfg thread_ok split h =
      elim (Bool-cases (cfg.async && leb 2 split.ring && thread_ok)) [
        | inl e ↦ record {
          sound = record { slots = no_slots; pending = rw e tt };
          prefix = h.count;
          at_slot = h.some_slot;
          two_slots = inr (ground arith);
        }
        | inr e ↦ record {
          sound = record { slots = no_slots; pending = rw e tt };
          prefix = h.count;
          at_slot = h.some_slot;
          two_slots = inl (rw e refl);
        }
      ]
    where
      no_slots : Slots content split.npin (λ _. no_bytes) (λ _. no_bytes) (λ _. none) (λ _. none)
      no_slots = record {
        pinned = λ b k less e. absurd (none-some k e);
        resident = λ i b e. absurd (none-some b e);
      }

  -- A streamer that `eng_streamer_create` returns has sound slots, pins only blocks that exist, starts
  -- its ring at one of its slots, and has a reader thread only if it has two slots or more.
  pub streamer_create-IsReady :
      (cfg : StreamerCfg) (memory_ok thread_ok : Bool) (s : Streamer)
      → streamer_create cfg memory_ok thread_ok ≡ some s
      → IsReady content s
  unfolding streamer_create
  streamer_create-IsReady cfg memory_ok thread_ok s h =
      elim (Bool-cases (leb (length cfg.blocks) 0)) [
        | inl e ↦ absurd (none-some s (rw e at h))
        | inr e ↦
            elim (Option-cases (
              sizing (pos_part cfg.extra_bytes) cfg.budget_bytes (pos_part cfg.ring_want)
                cfg.blocks)) [
                  | inl f ↦ absurd (none-some s (rw (e, f) at h))
                  | inr (split, f) ↦ elim (Bool-cases memory_ok) [
                    | inr g ↦ absurd (none-some s (rw (e, f, g) at h))
                    | inl g ↦
                        subst (IsReady content) (some_injective (rw (e, f, g) at h))
                          (built-IsReady cfg thread_ok split (sizing-IsSized _ _ _ _ split f))
                  ]
                ]
      ]
