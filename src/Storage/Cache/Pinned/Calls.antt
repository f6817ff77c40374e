-- ===== src/Storage/Cache/Pinned/Calls.antt =====
-- A pinned object under the calls of src/storage/cache.c.
use multi_model_llm_engine.Base.{
  All, All-map, ℕ, ◌<◌, ◌≡◌, ◌≢◌, inl, inr, refl, Bool, ◌||◌, arith, Bool-cases, Option-cases, List,
  [], ◌∷◌, leb, is_some, length,
}
use multi_model_llm_engine.Base.Int.{ℤ, to_u64, ltb_ℤ, eq_ℤ}
use multi_model_llm_engine.Storage.Cache.Types.{
  SlotKey, Described, Loaded, Source, Cache, pick_victim, max_batch,
}
use multi_model_llm_engine.Storage.Cache.Admit.{
  touch, miss, set_meta, admit, answer, note_request, record_trace, get,
}
use multi_model_llm_engine.Storage.Cache.Batch.{
  Work, Reserved, stop, next, has_key, reserve_slot, reserve_step, reserve, read_all, publish_one,
  get_many,
}
use multi_model_llm_engine.Storage.Cache.Rule.{
  admit_rule, loaded, described, IsFree, pick_victim-IsFree,
}
use multi_model_llm_engine.Storage.Cache.Invariant.{IsFaithful, IsSound, IsQuiet}
use multi_model_llm_engine.Storage.Cache.Sound.Reserve.{IsPending}
use multi_model_llm_engine.Storage.Cache.Sound.Arrive.{read_all_keeps, HasArrived}
use multi_model_llm_engine.Storage.Cache.Sound.Publish.{batch_states, publish_all_keeps}
use multi_model_llm_engine.Storage.Cache.Pinned.{
  IsPinnedAt, other_slot, replaced, set_meta-IsPinnedAt, mark-IsPinnedAt, land-IsPinnedAt,
  publish-IsPinnedAt, abandon-IsPinnedAt,
}

module _ {Meta Payload : Type 0} (k s : ℕ) (p : Payload) (m : Meta) where
  miss-IsPinnedAt : (c : Cache Meta Payload) → IsPinnedAt k s p m c → IsPinnedAt k s p m (miss c)
  unfolding miss
  miss-IsPinnedAt c h = assumption

  touch-IsPinnedAt :
      (c : Cache Meta Payload) (t : ℕ) → IsPinnedAt k s p m c → IsPinnedAt k s p m (touch c t)
  unfolding touch
  touch-IsPinnedAt c t h = assumption

  note_request-IsPinnedAt :
      (src : Source Meta Payload) (c : Cache Meta Payload) (key : ℕ)
      → IsPinnedAt k s p m c
      → IsPinnedAt k s p m (note_request src c key)
  unfolding note_request record_trace
  note_request-IsPinnedAt src c key h = elim (Bool-cases c.cfg.want_trace) [
    | inl e ↦ rw e assumption
    | inr e ↦ rw e assumption
  ]

  admit-IsPinnedAt :
      (src : Source Meta Payload) (c : Cache Meta Payload) (key : ℕ)
      → IsPinnedAt k s p m c
      → IsPinnedAt k s p m (answer (admit src c key)).1
  admit-IsPinnedAt src c key h =
      admit_rule (λ r. IsPinnedAt k s p m (answer r).1) src c key (λ t e. touch-IsPinnedAt c t h)
        (λ e. h')
        (λ t l e.
          let x = (described src (miss c) key).meta in
          let got = loaded src (miss c) key t in
          let (o, g) = replaced k s p m (miss c) t x got l.in_arena l.free h' in
          publish-IsPinnedAt k s p m _ t key got o (λ q. ground (arith, l.absent, h'.resident)) g)
        (λ t l e.
          let x = (described src (miss c) key).meta in
          let got = loaded src (miss c) key t in
          let (o, g) = replaced k s p m (miss c) t x got l.in_arena l.free h' in
          abandon-IsPinnedAt k s p m _ t o g)
    where
      h' : IsPinnedAt k s p m (miss c)
      h' = miss-IsPinnedAt c h

  -- A pinned object stays in its slot, with its bytes and metadata, whatever `eng_cache_get` is asked for.
  get-IsPinnedAt :
      (src : Source Meta Payload) (c : Cache Meta Payload) (key : ℕ)
      → IsPinnedAt k s p m c
      → IsPinnedAt k s p m (get src c key).1
  unfolding get
  get-IsPinnedAt src c key h = elim (Bool-cases (leb (to_u64 c.cfg.nkeys) key)) [
    | inl out ↦ rw out h
    | inr within ↦
        rw within
          (admit-IsPinnedAt src (note_request src c key) key (note_request-IsPinnedAt src c key h))
  ]

  -- What the first phase keeps.
  abbrev Kept : Reserved Meta Payload → Type 0
  Kept stop = Unit {0}
  Kept (next ws c) = IsPinnedAt k s p m c

  reserve_slot-Kept :
      (src : Source Meta Payload) (c : Cache Meta Payload) (key t : ℕ) (ws : List Work)
      → t < c.nslot
      → IsFree c t
      → IsPinnedAt k s p m c
      → Kept (reserve_slot src c key ws t)
  unfolding reserve_slot
  reserve_slot-Kept src c key t ws lt fr h = elim (Bool-cases d.accepted) [
    | inr no_key ↦ rw no_key h'
    | inl a ↦ elim (Bool-cases (ltb_ℤ c.cfg.slot_bytes d.need)) [
      | inl big ↦ rw (a, big) h'
      | inr fits ↦ rw (a, fits) (mark-IsPinnedAt k s p m (set_meta c t d.meta) t o h')
    ]
  ]
    where
      d : Described Meta
      d = src.describe key (c.meta t)

      h' : IsPinnedAt k s p m (set_meta c t d.meta)
      h' = set_meta-IsPinnedAt k s p m c t d.meta fr h

      o : (t ≢ s) × ((set_meta c t d.meta).key_of t ≢ SlotKey.holds k)
      o = unfold set_meta in other_slot k s p m c t lt fr h

  reserve_step-Kept :
      (src : Source Meta Payload) (c : Cache Meta Payload) (key : ℕ) (ws : List Work)
      → IsPinnedAt k s p m c
      → Kept (reserve_step src c key ws)
  unfolding reserve_step
  reserve_step-Kept src c key ws h = elim (Bool-cases (leb max_batch (length ws))) [
    | inl e ↦ rw e tt
    | inr e ↦
        elim (Bool-cases
          (leb (to_u64 c.cfg.nkeys) key || is_some (c.slot_of key) || has_key ws key)) [
            | inl skip ↦ rw (e, skip) h
            | inr go ↦ elim (Option-cases (pick_victim c)) [
              | inl q ↦ rw (e, go, q) tt
              | inr (t, q) ↦
                  let f = pick_victim-IsFree c t q in
                  rw (e, go, q) (reserve_slot-Kept src c key t ws f.0 f.1 h)
            ]
          ]
  ]

  reserve-onwards :
      (src : Source Meta Payload) (c : Cache Meta Payload) (key : ℕ) (ks : List ℕ) (ws : List Work)
      (o : Reserved Meta Payload)
      → reserve_step src c key ws ≡ o
      → IsPinnedAt k s p m c
      → Kept o
      → ((c' : Cache Meta Payload) (ws' : List Work)
          → IsPinnedAt k s p m c'
          → IsPinnedAt k s p m (reserve src c' ks ws').1)
      → IsPinnedAt k s p m (reserve src c (key ∷ ks) ws).1
  unfolding reserve
  reserve-onwards src c key ks ws stop e h g ih = rw (e, reserve) h
  reserve-onwards src c key ks ws (next ws' c') e h g ih = rw (e, reserve) (ih c' ws' g)

  reserve-IsPinnedAt :
      (src : Source Meta Payload) (ks : List ℕ) (c : Cache Meta Payload) (ws : List Work)
      → IsPinnedAt k s p m c
      → IsPinnedAt k s p m (reserve src c ks ws).1
  unfolding reserve
  reserve-IsPinnedAt src [] c ws h = h
  reserve-IsPinnedAt src (key ∷ ks) c ws h =
      reserve-onwards src c key ks ws (reserve_step src c key ws) refl h
        (reserve_step-Kept src c key ws h) (reserve-IsPinnedAt src ks)

  read_all-IsPinnedAt :
      (src : Source Meta Payload) (c : Cache Meta Payload) (ws : List Work)
      → All (IsPending src c) ws
      → IsPinnedAt k s p m c
      → IsPinnedAt k s p m (read_all src c ws).1
  read_all-IsPinnedAt src c ws pend h =
      read_all_keeps src (IsPinnedAt k s p m) ws c
        (All-map (IsPending src c) _ ws
          (λ w q c' l g.
            land-IsPinnedAt k s p m c' w.slot l (λ e. ground (arith, q.busy, h.named)) g)
          pend)
        h

  module _ (good : ℕ → Payload → ℤ → ℤ → Bool) where
    publish_one-IsPinnedAt :
        (c : Cache Meta Payload) (w : Work) (l : Loaded Payload)
        → HasArrived good c (w, l)
        → IsPinnedAt k s p m c
        → IsPinnedAt k s p m (publish_one c w l).1
    unfolding publish_one
    publish_one-IsPinnedAt c w l a h = elim (Bool-cases (eq_ℤ l.got w.need)) [
      | inl e ↦ rw e (counted _ (publish-IsPinnedAt k s p m c w.slot w.key l o d h))
      | inr e ↦ rw e (abandon-IsPinnedAt k s p m c w.slot o h)
    ]
      where
        o : w.slot ≢ s
        o e = ground (arith, a.busy, h.named)

        d : w.key ≢ k
        d e = ground (arith, a.absent, h.resident)

        counted :
            (c' : Cache Meta Payload) {n : ℕ}
            → IsPinnedAt k s p m c'
            → IsPinnedAt k s p m (record c' { prefetch_reads = n })
        counted c' g = assumption

    -- A pinned object of a sound cache stays in its slot, with its bytes and metadata, through a
    -- batch that is started with no read under way and with callbacks that keep their contract.
    pub get_many-IsPinnedAt :
        (src : Source Meta Payload) (c : Cache Meta Payload) (keys : List ℕ)
        → IsFaithful good src
        → IsSound good c
        → IsQuiet c
        → IsPinnedAt k s p m c
        → IsPinnedAt k s p m (get_many src c keys).1
    unfolding get_many
    get_many-IsPinnedAt src c keys f v q h =
        let (r, t) = batch_states good src c keys f v q in
        publish_all_keeps good (IsPinnedAt k s p m) publish_one-IsPinnedAt _ _ t
          (read_all-IsPinnedAt src _ _ r.pending (reserve-IsPinnedAt src keys c [] h))
