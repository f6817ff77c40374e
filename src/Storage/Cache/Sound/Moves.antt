-- ===== src/Storage/Cache/Sound/Moves.antt =====
-- The single updates that the operations of src/storage/cache.c are made of keep the invariant.
use multi_model_llm_engine.Base.{ℕ, ◌<◌, ◌≡◌, Bool, true, none, arith}
use multi_model_llm_engine.Base.Int.{ℤ, to_u64, to_i32}
use multi_model_llm_engine.Storage.Cache.Types.{SlotKey, Loaded, Cache, evict}
use multi_model_llm_engine.Storage.Cache.Admit.{touch, miss, publish, land, abandon, set_meta}
use multi_model_llm_engine.Storage.Cache.Victim.{evictable}
use multi_model_llm_engine.Storage.Cache.Batch.{mark}
use multi_model_llm_engine.Storage.Cache.Rule.{IsFree}
use multi_model_llm_engine.Storage.Cache.Invariant.{IsSound}

module _ {Meta Payload : Type 0} (good : ℕ → Payload → ℤ → ℤ → Bool) where
  -- The victim gets the key that was read into it.
  pub replace-IsSound :
      (c : Cache Meta Payload) (key slot : ℕ) (m : Meta) (l : Loaded Payload)
      → key < to_u64 c.cfg.nkeys
      → slot < c.nslot
      → c.slot_of key ≡ none
      → IsFree c slot
      → good key l.bytes (to_i32 l.pad) l.got ≡ true
      → IsSound good c
      → IsSound good (publish (land (set_meta (evict c slot) slot m) slot l) slot key l)
  unfolding publish land set_meta evict evictable
  replace-IsSound c key slot m l kin sin absent fr ok v = record {
    in_range = λ k s e. ground (arith, v.in_range k s);
    in_arena = λ k s e. ground (arith, v.in_arena k s);
    held = λ k s e. ground (arith, v.held k s, v.listed k s);
    listed = λ k s lt e. ground (arith, v.listed k s, v.listed k slot, v.held key s);
    pinned_full = λ s p. ground (arith, v.pinned_full s);
    pinned_landed = λ s p. ground (arith, v.pinned_landed s);
    intact = λ k s e. ground (arith, v.intact k s, v.held k s, v.listed k s);
  }

  -- A short read leaves the victim empty, and its old key absent.
  pub fail-IsSound :
      (c : Cache Meta Payload) (slot : ℕ) (m : Meta) (l : Loaded Payload)
      → slot < c.nslot
      → IsFree c slot
      → IsSound good c
      → IsSound good (abandon (land (set_meta (evict c slot) slot m) slot l) slot)
  unfolding abandon land set_meta evict evictable
  fail-IsSound c slot m l sin fr v = record {
    in_range = λ k s e. ground (arith, v.in_range k s);
    in_arena = λ k s e. ground (arith, v.in_arena k s);
    held = λ k s e. ground (arith, v.held k s, v.listed k s);
    listed = λ k s lt e. ground (arith, v.listed k s, v.listed k slot);
    pinned_full = λ s p. ground (arith, v.pinned_full s);
    pinned_landed = λ s p. ground (arith, v.pinned_landed s);
    intact = λ k s e. ground (arith, v.intact k s, v.held k s, v.listed k s);
  }

  pub touch-IsSound :
      (c : Cache Meta Payload) (slot : ℕ) → IsSound good c → IsSound good (touch c slot)
  unfolding touch
  touch-IsSound c slot v = assumption

  pub miss-IsSound : (c : Cache Meta Payload) → IsSound good c → IsSound good (miss c)
  unfolding miss
  miss-IsSound c v = assumption

  pub set_meta-IsSound :
      (c : Cache Meta Payload) (slot : ℕ) (m : Meta)
      → IsSound good c
      → IsSound good (set_meta c slot m)
  unfolding set_meta
  set_meta-IsSound c slot m v = assumption

  pub mark-IsSound :
      (c : Cache Meta Payload) (slot : ℕ)
      → slot < c.nslot
      → IsFree c slot
      → IsSound good c
      → IsSound good (mark c slot)
  unfolding mark evict evictable
  mark-IsSound c slot sin fr v = record {
    in_range = λ k s e. ground (arith, v.in_range k s);
    in_arena = λ k s e. ground (arith, v.in_arena k s);
    held = λ k s e. ground (arith, v.held k s, v.listed k s);
    listed = λ k s lt e. ground (arith, v.listed k s, v.listed k slot);
    pinned_full = λ s p. ground (arith, v.pinned_full s);
    pinned_landed = λ s p. ground (arith, v.pinned_landed s, v.pinned_full s);
    intact = λ k s e. ground (arith, v.intact k s, v.held k s, v.listed k s);
  }

  -- The reads of a batch touch only slots that are being read into.
  pub land-IsSound :
      (c : Cache Meta Payload) (slot : ℕ) (l : Loaded Payload)
      → c.key_of slot ≡ SlotKey.inflight
      → IsSound good c
      → IsSound good (land c slot l)
  unfolding land
  land-IsSound c slot l busy v = record {
    in_range = v.in_range;
    in_arena = v.in_arena;
    held = v.held;
    listed = v.listed;
    pinned_full = v.pinned_full;
    pinned_landed = v.pinned_landed;
    intact = λ k s e. ground (arith, v.intact k s e, v.held k s e);
  }

  -- What arrived is published.
  pub publish-IsSound :
      (c : Cache Meta Payload) (key slot : ℕ) (l : Loaded Payload)
      → key < to_u64 c.cfg.nkeys
      → slot < c.nslot
      → c.slot_of key ≡ none
      → c.key_of slot ≡ SlotKey.inflight
      → good key (c.arena slot) (to_i32 l.pad) l.got ≡ true
      → IsSound good c
      → IsSound good (publish c slot key l)
  unfolding publish
  publish-IsSound c key slot l kin sin absent busy ok v = record {
    in_range = λ k s e. ground (arith, v.in_range k s);
    in_arena = λ k s e. ground (arith, v.in_arena k s);
    held = λ k s e. ground (arith, v.held k s);
    listed = λ k s lt e. ground (arith, v.listed k s, v.held key s);
    pinned_full = λ s p. ground (arith, v.pinned_full s);
    pinned_landed = λ s p. ground (arith, v.pinned_landed s);
    intact = λ k s e. ground (arith, v.intact k s, v.held k s);
  }

  pub abandon-IsSound :
      (c : Cache Meta Payload) (slot : ℕ)
      → c.key_of slot ≡ SlotKey.inflight
      → IsSound good c
      → IsSound good (abandon c slot)
  unfolding abandon
  abandon-IsSound c slot busy v = record {
    in_range = v.in_range;
    in_arena = v.in_arena;
    held = λ k s e. ground (arith, v.held k s e);
    listed = λ k s lt e. ground (arith, v.listed k s lt);
    pinned_full = λ s p. ground (arith, v.pinned_full s, v.pinned_landed s);
    pinned_landed = λ s p. ground (arith, v.pinned_landed s);
    intact = v.intact;
  }
