-- ===== src/Storage/Cache/Run.antt =====
-- Every cache that calls of src/storage/cache.c can lead to, from `eng_cache_create` on.
use multi_model_llm_engine.Base.{
  ℕ, ◌≡◌, inl, inr, Bool, false, none, some, arith, Bool-cases, Option-cases, List, leb,
}
use multi_model_llm_engine.Base.Int.{ℤ, to_u64}
use multi_model_llm_engine.Storage.Cache.Types.{SlotKey, Source, CacheCfg, Cache, evict}
use multi_model_llm_engine.Storage.Cache.Admit.{
  touch, miss, publish, land, abandon, set_meta, answer, note_request, record_trace, get, pin,
  reset_stats, create,
}
use multi_model_llm_engine.Storage.Cache.Batch.{get_many}
use multi_model_llm_engine.Storage.Cache.Rule.{admit_rule}
use multi_model_llm_engine.Storage.Cache.Invariant.{IsFaithful, IsSound, IsQuiet}
use multi_model_llm_engine.Storage.Cache.Sound.Serve.{get-IsSound, pin-IsSound, reset_stats-IsSound}
use multi_model_llm_engine.Storage.Cache.Sound.Publish.{get_many-IsSound}

module _ {Meta Payload : Type 0} where
  note_request-IsQuiet :
      (src : Source Meta Payload) (c : Cache Meta Payload) (key : ℕ)
      → IsQuiet c
      → IsQuiet (note_request src c key)
  unfolding note_request record_trace
  note_request-IsQuiet src c key q = elim (Bool-cases c.cfg.want_trace) [
    | inl e ↦ rw e q
    | inr e ↦ rw e q
  ]

  pub get-IsQuiet :
      (src : Source Meta Payload) (c : Cache Meta Payload) (key : ℕ)
      → IsQuiet c
      → IsQuiet (get src c key).1
  unfolding get touch miss publish land abandon set_meta evict
  get-IsQuiet src c key q = elim (Bool-cases (leb (to_u64 c.cfg.nkeys) key)) [
    | inl out ↦ rw out q
    | inr within ↦
        let q' = note_request-IsQuiet src c key q in
        rw within (
          admit_rule (λ r. IsQuiet (answer r).1) src (note_request src c key) key (λ s e. q')
            (λ e. q') (λ s h e t lt i. ground (arith, q' t)) (λ s h e t lt i. ground (arith, q' t)))
  ]

  pub pin-IsQuiet :
      (c : Cache Meta Payload) (key : ℕ) (on : Bool) → IsQuiet c → IsQuiet (pin c key on).1
  unfolding pin
  pin-IsQuiet c key on q = elim (Bool-cases (leb (to_u64 c.cfg.nkeys) key)) [
    | inl out ↦ rw out q
    | inr within ↦ elim (Option-cases (c.slot_of key)) [
      | inl e ↦ rw (within, e) q
      | inr (slot, e) ↦ rw (within, e) q
    ]
  ]

  -- A fresh cache holds nothing.
  pub create-IsSound :
      (good : ℕ → Payload → ℤ → ℤ → Bool) (cfg : CacheCfg) (ok : Bool) (fresh : ℕ → Payload)
      (no_meta : ℕ → Meta) {c : Cache Meta Payload}
      → create cfg ok fresh no_meta ≡ some c
      → IsSound good c × IsQuiet c
  unfolding create
  create-IsSound good cfg ok fresh no_meta {c} e =
      let blank : (k : ℕ) → c.slot_of k ≡ none = λ k. ground arith in
      let free : (s : ℕ) → c.key_of s ≡ SlotKey.empty = λ s. ground arith in
      let loose : (s : ℕ) → c.pinned s ≡ false = λ s. ground arith in
      (
        record {
          in_range = λ k s q. ground (arith, blank k);
          in_arena = λ k s q. ground (arith, blank k);
          held = λ k s q. ground (arith, blank k);
          listed = λ k s lt q. ground (arith, free s);
          pinned_full = λ s q. ground (arith, loose s);
          pinned_landed = λ s q. ground (arith, loose s);
          intact = λ k s q. ground (arith, blank k);
        },
        λ s lt q. ground (arith, free s),
      )

module _ {Meta Payload : Type 0} (good : ℕ → Payload → ℤ → ℤ → Bool) where
  -- One call. Each call has callbacks of its own, so a read may fail now and succeed later.
  pub data Call : Cache Meta Payload → Cache Meta Payload → Type 0 where
    serve :
        (src : Source Meta Payload) (c : Cache Meta Payload) (key : ℕ)
        → IsFaithful good src
        → Call c (get src c key).1
    batch :
        (src : Source Meta Payload) (c : Cache Meta Payload) (keys : List ℕ)
        → IsFaithful good src
        → Call c (get_many src c keys).1
    pinning : (c : Cache Meta Payload) (key : ℕ) (on : Bool) → Call c (pin c key on).1
    reset : (c : Cache Meta Payload) → Call c (reset_stats c)

  pub data Reach (c : Cache Meta Payload) : Cache Meta Payload → Type 0 where
    here : Reach c c
    then_call : {d e : Cache Meta Payload} → Reach c d → Call d e → Reach c e

  Call-IsSound :
      {c d : Cache Meta Payload}
      → Call c d
      → IsSound good c × IsQuiet c
      → IsSound good d × IsQuiet d
  Call-IsSound (serve src c key f) h =
      ((get-IsSound good src f c key h.0).0, get-IsQuiet src c key h.1)
  Call-IsSound (batch src c keys f) h = get_many-IsSound good src c keys f h.0 h.1
  Call-IsSound (pinning c key on) h = (pin-IsSound good c key on h.0, pin-IsQuiet c key on h.1)
  Call-IsSound (reset c) h = (reset_stats-IsSound good c h.0, unfold reset_stats in h.1)

  -- Every sequence of calls, each with faithful callbacks of its own that may refuse keys and fail reads,
  -- leads from a sound cache with no read under way to another one.
  pub Reach-IsSound :
      {c d : Cache Meta Payload}
      → Reach c d
      → IsSound good c × IsQuiet c
      → IsSound good d × IsQuiet d
  Reach-IsSound here h = h
  Reach-IsSound (then_call r s) h = Call-IsSound s (Reach-IsSound r h)
