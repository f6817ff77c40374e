-- ===== src/Storage/Cache/Rule.antt =====
-- A rule for `admit` of src/storage/cache.c: what holds of its four outcomes holds of the call.
use multi_model_llm_engine.Base.{
  ℕ, ◌<◌, ◌≡◌, ◌≢◌, ◌⊎◌, inl, inr, true, false, not, ◌&&◌, Option, none, some, arith, Bool-cases,
  Option-cases, ltb,
}
use multi_model_llm_engine.Base.Int.{ltb_ℤ, eq_ℤ, eq_ℤ_iff}
use multi_model_llm_engine.Storage.Cache.Types.{
  SlotKey, Described, Loaded, Source, Cache, evict, pick_victim,
}
use multi_model_llm_engine.Storage.Cache.Admit.{
  touch, miss, publish, land, abandon, set_meta, load_into, admit_miss, admit,
}
use multi_model_llm_engine.Storage.Cache.Victim.{Picked, evictable, pick_victim_lru}

-- A slot that may be overwritten: empty, or holding a key that is not pinned.
abbrev pub IsFree : {Meta Payload : Type 0} → Cache Meta Payload → ℕ → Type 0
IsFree c slot = (c.key_of slot ≡ SlotKey.empty) ⊎ (evictable c slot ≡ true)

module _ {Meta Payload : Type 0} where
  -- The slot that `pick_victim` takes may be overwritten.
  pub pick_victim-IsFree :
      (c : Cache Meta Payload) (v : ℕ) → pick_victim c ≡ some v → (v < c.nslot) × IsFree c v
  pick_victim-IsFree c v e =
      let h : Picked c (some v) = rw e at (pick_victim_lru c) in
      (h.0, elim h.1 [ inl q ↦ inl q | inr q ↦ inr q.0 ])

  -- The cache after a load that delivered everything, and after one that fell short.
  abbrev pub filled : Cache Meta Payload → ℕ → ℕ → Meta → Loaded Payload → Cache Meta Payload
  filled c key slot m l = publish (land (set_meta (evict c slot) slot m) slot l) slot key l

  abbrev pub failed : Cache Meta Payload → ℕ → Meta → Loaded Payload → Cache Meta Payload
  failed c slot m l = abandon (land (set_meta (evict c slot) slot m) slot l) slot

  module _ (src : Source Meta Payload) (c : Cache Meta Payload) (key : ℕ) where
    -- `load_into` for a slot that `pick_victim` found.
    abbrev pub described : Described Meta
    described = src.describe key src.zero_meta

    abbrev pub loaded : ℕ → Loaded Payload
    loaded slot = src.load key described.meta (c.arena slot)

    -- What holds when the victim is read into.
    pub record Loads (slot : ℕ) : Type 0 where
      pub absent : c.slot_of key ≡ none
      pub picked : pick_victim c ≡ some slot
      pub in_arena : slot < c.nslot
      pub free : IsFree c slot
      pub accepted : described.accepted ≡ true
      pub fits : ltb_ℤ c.cfg.slot_bytes described.need ≡ false

    module _ {ℓ} (P : Option ℕ × Cache Meta Payload → Type ℓ) (refused : P (none, c))
        (full : (slot : ℕ)
          → Loads slot
          → (loaded slot).got ≡ described.need
          → P (some slot, filled c key slot described.meta (loaded slot)))
        (short : (slot : ℕ)
          → Loads slot
          → (loaded slot).got ≢ described.need
          → P (none, failed c slot described.meta (loaded slot))) where
      load_into_rule : (slot : ℕ) → Loads slot → P (load_into src c key described slot)
      unfolding load_into
      load_into_rule slot h = elim (Bool-cases (eq_ℤ (loaded slot).got described.need)) [
        | inl e ↦ rw e (full slot h ((eq_ℤ_iff _ _).0 e))
        | inr e ↦ rw e (short slot h (λ q. ground arith))
      ]

      admit_miss_rule : c.slot_of key ≡ none → P (admit_miss src c key)
      unfolding admit_miss
      admit_miss_rule absent = elim (Bool-cases (ltb 256 c.cfg.meta_bytes && not src.scratch_ok)) [
        | inl oom ↦ rw oom refused
        | inr fine ↦ elim (Bool-cases described.accepted) [
          | inr no_key ↦ rw (fine, no_key) refused
          | inl a ↦ elim (Bool-cases (ltb_ℤ c.cfg.slot_bytes described.need)) [
            | inl big ↦ rw (fine, a, big) refused
            | inr fits ↦ elim (Option-cases (pick_victim c)) [
              | inl q ↦ rw (fine, a, fits, q) refused
              | inr (slot, q) ↦
                  let h = pick_victim-IsFree c slot q in
                  rw (fine, a, fits, q)
                    (load_into_rule slot (record {
                      absent = absent;
                      picked = q;
                      in_arena = h.0;
                      free = h.1;
                      accepted = a;
                      fits = fits;
                    }))
            ]
          ]
        ]
      ]

  -- A hit, a refusal, a full load, a short load.
  pub admit_rule {ℓ} :
      (P : Option ℕ × Cache Meta Payload → Type ℓ) (src : Source Meta Payload)
      (c : Cache Meta Payload) (key : ℕ)
      → ((slot : ℕ) → c.slot_of key ≡ some slot → P (some slot, touch c slot))
      → (c.slot_of key ≡ none → P (none, miss c))
      → ((slot : ℕ)
          → Loads src (miss c) key slot
          → (loaded src (miss c) key slot).got ≡ (described src (miss c) key).need
          → P (
            some slot,
            filled
                (miss c)
                key
                slot
                (described src (miss c) key).meta
                (loaded src (miss c) key slot),
          ))
      → ((slot : ℕ)
          → Loads src (miss c) key slot
          → (loaded src (miss c) key slot).got ≢ (described src (miss c) key).need
          → P (
            none,
            failed (miss c) slot (described src (miss c) key).meta (loaded src (miss c) key slot),
          ))
      → P (admit src c key)
  unfolding admit miss
  admit_rule P src c key hit refused full short = elim (Option-cases (c.slot_of key)) [
    | inr (slot, e) ↦ rw (e, admit) (hit slot e)
    | inl e ↦ rw (e, admit) (admit_miss_rule src (miss c) key P (refused e) full short e)
  ]
