-- ===== src/Storage/Cache/Sound/Serve.antt =====
-- The operations of src/storage/cache.c that serve one key keep the invariant, and serve the right bytes.
use multi_model_llm_engine.Base.{
  ℕ, ◌<◌, ◌≡◌, inl, inr, refl, Bool, true, Option, none, some, arith, Bool-cases, Option-cases, leb,
}
use multi_model_llm_engine.Base.Int.{ℤ, to_u64}
use multi_model_llm_engine.Storage.Cache.Types.{Source, Cache, Entry, entry_of}
use multi_model_llm_engine.Storage.Cache.Admit.{
  touch, miss, publish, land, admit, note_request, record_trace, get, answer, pin, reset_stats,
}
use multi_model_llm_engine.Storage.Cache.Rule.{admit_rule, loaded, described}
use multi_model_llm_engine.Storage.Cache.Invariant.{IsFaithful, IsSound}
use multi_model_llm_engine.Storage.Cache.Sound.Moves.{
  replace-IsSound, fail-IsSound, touch-IsSound, miss-IsSound,
}

module _ {Meta Payload : Type 0} (good : ℕ → Payload → ℤ → ℤ → Bool) where
  -- The entry, if there is one, is the key's object.
  abbrev pub Serves : ℕ → Option (Entry Meta Payload) → Type 0
  Serves key none = Unit {0}
  Serves key (some e) = good key e.bytes e.start e.nbytes ≡ true

  note_request-IsSound :
      (src : Source Meta Payload) (c : Cache Meta Payload) (key : ℕ)
      → IsSound good c
      → IsSound good (note_request src c key)
  unfolding note_request record_trace
  note_request-IsSound src c key v = elim (Bool-cases c.cfg.want_trace) [
    | inl e ↦ rw e assumption
    | inr e ↦ rw e assumption
  ]

  cfg-note_request :
      (src : Source Meta Payload) (c : Cache Meta Payload) (key : ℕ)
      → (note_request src c key).cfg ≡ c.cfg
  unfolding note_request record_trace
  cfg-note_request src c key = elim (Bool-cases c.cfg.want_trace) [
    | inl e ↦ rw e refl
    | inr e ↦ rw e refl
  ]

  module _ (src : Source Meta Payload) (faithful : IsFaithful good src) where
    admit-IsSound :
        (c : Cache Meta Payload) (key : ℕ)
        → key < to_u64 c.cfg.nkeys
        → IsSound good c
        → let r = answer (admit src c key) in IsSound good r.1 × Serves key r.0
    unfolding entry_of publish land touch miss
    admit-IsSound c key kin v =
        admit_rule (λ r. IsSound good (answer r).1 × Serves key (answer r).0) src c key
          (λ slot e. (touch-IsSound good c slot v, v.intact key slot e))
          (λ e. (miss-IsSound good c v, tt))
          (λ slot h e.
            let ok = faithful.delivers key src.zero_meta (c.arena slot) h.accepted e in
            (
              replace-IsSound good (miss c) key slot (described src (miss c) key).meta
                  (loaded src (miss c) key slot) kin h.in_arena h.absent h.free ok
                  (miss-IsSound good c v),
              ground (arith, ok),
            ))
          (λ slot h e. (
            fail-IsSound good (miss c) slot (described src (miss c) key).meta
                (loaded src (miss c) key slot) h.in_arena h.free (miss-IsSound good c v),
            tt,
          ))

    -- `eng_cache_get` on a sound cache, with callbacks that keep their contract, leaves it sound;
    -- and an entry that it returns holds the bytes of the object that was asked for, whether it was
    -- resident or had to be read.
    pub get-IsSound :
        (c : Cache Meta Payload) (key : ℕ)
        → IsSound good c
        → IsSound good (get src c key).1 × Serves key (get src c key).0
    unfolding get
    get-IsSound c key v = elim (Bool-cases (leb (to_u64 c.cfg.nkeys) key)) [
      | inl out ↦ rw out (v, tt)
      | inr within ↦ rw within (
          admit-IsSound (note_request src c key) key (rw cfg-note_request (ground arith))
            (note_request-IsSound src c key v))
    ]

  pub pin-IsSound :
      (c : Cache Meta Payload) (key : ℕ) (on : Bool)
      → IsSound good c
      → IsSound good (pin c key on).1
  unfolding pin
  pin-IsSound c key on v = elim (Bool-cases (leb (to_u64 c.cfg.nkeys) key)) [
    | inl out ↦ rw out v
    | inr within ↦ elim (Option-cases (c.slot_of key)) [
      | inl e ↦ rw (within, e) v
      | inr (slot, e) ↦
          rw (within, e)
            (record {
              in_range = v.in_range;
              in_arena = v.in_arena;
              held = v.held;
              listed = v.listed;
              pinned_full = λ s p. ground (arith, v.pinned_full s, v.held key slot e);
              pinned_landed = λ s p. ground (arith, v.pinned_landed s, v.held key slot e);
              intact = v.intact;
            })
    ]
  ]

  pub reset_stats-IsSound : (c : Cache Meta Payload) → IsSound good c → IsSound good (reset_stats c)
  unfolding reset_stats
  reset_stats-IsSound c v = assumption
