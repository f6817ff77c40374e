-- ===== src/Storage/Cache/Pinned.antt =====
-- `eng_cache_pin` of src/storage/cache.c keeps an object where it is.
pub mod Calls
use multi_model_llm_engine.Base.{
  All, All-map, ℕ, ◌<◌, ◌≡◌, ◌≢◌, inl, inr, refl, Bool, true, false, not, ◌||◌, Option, none, some,
  arith, Bool-cases, Option-cases, List, [], ◌∷◌, leb, is_some, length,
}
use multi_model_llm_engine.Base.Int.{ℤ, pos, to_u64, ltb_ℤ, eq_ℤ}
use multi_model_llm_engine.Storage.Cache.Types.{
  SlotKey, Described, Loaded, Source, Cache, evict, pick_victim, max_batch,
}
use multi_model_llm_engine.Storage.Cache.Admit.{
  touch, miss, publish, land, abandon, set_meta, admit, answer, note_request, record_trace, get,
}
use multi_model_llm_engine.Storage.Cache.Batch.{
  Work, Reserved, stop, next, mark, reserve_slot, reserve_step, reserve, order, read_all,
  publish_one, publish_all, get_many, has_key,
}
use multi_model_llm_engine.Storage.Cache.Victim.{evictable, SlotKey-cases}
use multi_model_llm_engine.Storage.Cache.Rule.{admit_rule, IsFree, pick_victim-IsFree}
use multi_model_llm_engine.Storage.Cache.Invariant.{IsFaithful, IsSound, IsQuiet}
use multi_model_llm_engine.Storage.Cache.Sound.Arrive.{read_all_keeps, HasArrived}

module _ {Meta Payload : Type 0} (k s : ℕ) (p : Payload) (m : Meta) where
  -- Key `k` is pinned in slot `s` and in no other, with these bytes and this metadata.
  pub record IsPinnedAt (c : Cache Meta Payload) : Type 0 where
    pub resident : c.slot_of k ≡ some s
    pub named : c.key_of s ≡ SlotKey.holds k
    pub only : (t : ℕ) → t < c.nslot → c.key_of t ≡ SlotKey.holds k → t ≡ s
    pub pinned : c.pinned s ≡ true
    pub bytes : c.arena s ≡ p
    pub meta : c.meta s ≡ m

  pub set_meta-IsPinnedAt :
      (c : Cache Meta Payload) (t : ℕ) (x : Meta)
      → IsFree c t
      → IsPinnedAt c
      → IsPinnedAt (set_meta c t x)
  unfolding set_meta evictable
  set_meta-IsPinnedAt c t x fr h = record {
    resident = h.resident;
    named = h.named;
    only = h.only;
    pinned = h.pinned;
    bytes = h.bytes;
    meta = ground arith;
  }

  -- The facts of a slot that is not `s`, and of a key that is not `k`.
  pub other_slot :
      (c : Cache Meta Payload) (t : ℕ)
      → t < c.nslot
      → IsFree c t
      → IsPinnedAt c
      → (t ≢ s) × (c.key_of t ≢ SlotKey.holds k)
  unfolding evictable
  other_slot c t lt fr h = (λ e. ground arith, λ e. ground (arith, h.only t))

  evict-IsPinnedAt :
      (c : Cache Meta Payload) (t : ℕ)
      → (t ≢ s) × (c.key_of t ≢ SlotKey.holds k)
      → IsPinnedAt c
      → IsPinnedAt (evict c t)
  unfolding evict
  evict-IsPinnedAt c t o h = record {
    resident = ground (arith, h.resident);
    named = ground (arith, h.named);
    only = λ u lt e. ground (arith, h.only u);
    pinned = ground (arith, h.pinned);
    bytes = ground (arith, h.bytes);
    meta = ground (arith, h.meta);
  }

  evict-key_of : (c : Cache Meta Payload) (t : ℕ) → (evict c t).key_of ≡ c.key_of
  unfolding evict
  evict-key_of c t = elim (SlotKey-cases (c.key_of t)) [
    | inl q ↦ rw (q, evict) refl
    | inr (inl q) ↦ rw (q, evict) refl
    | inr (inr (j, q)) ↦ rw (q, evict) refl
  ]

  pub mark-IsPinnedAt :
      (c : Cache Meta Payload) (t : ℕ)
      → (t ≢ s) × (c.key_of t ≢ SlotKey.holds k)
      → IsPinnedAt c
      → IsPinnedAt (mark c t)
  unfolding mark
  mark-IsPinnedAt c t o h =
      let h' = evict-IsPinnedAt c t o h in
      record {
        resident = h'.resident;
        named = ground (arith, h.named);
        only = λ u lt e. ground (arith, h'.only u lt, evict-key_of c t);
        pinned = h'.pinned;
        bytes = h'.bytes;
        meta = h'.meta;
      }

  pub land-IsPinnedAt :
      (c : Cache Meta Payload) (t : ℕ) (l : Loaded Payload)
      → t ≢ s
      → IsPinnedAt c
      → IsPinnedAt (land c t l)
  unfolding land
  land-IsPinnedAt c t l o h = record {
    resident = h.resident;
    named = h.named;
    only = h.only;
    pinned = h.pinned;
    bytes = ground (arith, h.bytes);
    meta = h.meta;
  }

  pub publish-IsPinnedAt :
      (c : Cache Meta Payload) (t key : ℕ) (l : Loaded Payload)
      → t ≢ s
      → key ≢ k
      → IsPinnedAt c
      → IsPinnedAt (publish c t key l)
  unfolding publish
  publish-IsPinnedAt c t key l o d h = record {
    resident = ground (arith, h.resident);
    named = ground (arith, h.named);
    only = λ u lt e. ground (arith, h.only u lt);
    pinned = h.pinned;
    bytes = h.bytes;
    meta = h.meta;
  }

  pub abandon-IsPinnedAt :
      (c : Cache Meta Payload) (t : ℕ) → t ≢ s → IsPinnedAt c → IsPinnedAt (abandon c t)
  unfolding abandon
  abandon-IsPinnedAt c t o h = record {
    resident = h.resident;
    named = ground (arith, h.named);
    only = λ u lt e. ground (arith, h.only u lt);
    pinned = h.pinned;
    bytes = h.bytes;
    meta = h.meta;
  }

  -- The load of `admit`, up to the publication.
  pub replaced :
      (c : Cache Meta Payload) (t : ℕ) (x : Meta) (l : Loaded Payload)
      → t < c.nslot
      → IsFree c t
      → IsPinnedAt c
      → (t ≢ s) × IsPinnedAt (land (set_meta (evict c t) t x) t l)
  replaced c t x l lt fr h =
      let o = other_slot c t lt fr h in
      (
        o.0,
        land-IsPinnedAt (set_meta (evict c t) t x) t l o.0
            (overwrite (evict c t) (evict-IsPinnedAt c t o h) o.0),
      )
    where
      overwrite : (d : Cache Meta Payload) → IsPinnedAt d → t ≢ s → IsPinnedAt (set_meta d t x)
      overwrite d g o =
          unfold set_meta in
          record {
            resident = g.resident;
            named = g.named;
            only = g.only;
            pinned = g.pinned;
            bytes = g.bytes;
            meta = ground (arith, g.meta);
          }
