-- ===== src/Storage/Cache/StaleMeta.antt =====
-- A refusal in the first phase of `eng_cache_get_many`, src/storage/cache.c: `describe` has already
-- written into the metadata of the victim, which still holds its key.
use multi_model_llm_engine.Base.{
  ℕ, ◌<◌, ◌≡◌, ◌⊎◌, inl, inr, refl, true, false, none, some, arith, Bool-cases, List, [], ◌∷◌, leb,
  ◌==◌, is_some,
}
use multi_model_llm_engine.Base.Int.{to_u64, ltb_ℤ}
use multi_model_llm_engine.Storage.Cache.Types.{Source, Cache, entry_of, pick_victim}
use multi_model_llm_engine.Storage.Cache.Admit.{set_meta, peek}
use multi_model_llm_engine.Storage.Cache.Batch.{
  next, has_key, reserve_slot, reserve_step, reserve, order, sort_work, sort_from, forwards,
  read_all, publish_all, get_many,
}

order-nil : {Meta Payload : Type 0} (src : Source Meta Payload) → order src [] ≡ []
unfolding order sort_work sort_from forwards
order-nil src = elim (Bool-cases (is_some src.locate)) [ inl e ↦ rw e refl | inr e ↦ rw e refl ]

module _ {Meta Payload : Type 0} where
  -- A key that cannot be admitted: refused by `describe`, or too large for a slot.
  abbrev pub IsRefused : Source Meta Payload → Cache Meta Payload → ℕ → Meta → Type 0
  IsRefused src c k old =
      ((src.describe k old).accepted ≡ false)
      ⊎ (((src.describe k old).accepted ≡ true)
          × (ltb_ℤ c.cfg.slot_bytes (src.describe k old).need ≡ true))

  refused_slot :
      (src : Source Meta Payload) (c : Cache Meta Payload) (k v : ℕ)
      → IsRefused src c k (c.meta v)
      → reserve_slot src c k [] v ≡ next [] (set_meta c v (src.describe k (c.meta v)).meta)
  unfolding reserve_slot
  refused_slot src c k v (inl a) = rw a refl
  refused_slot src c k v (inr (a, big)) = rw (a, big) refl

  refused_step :
      (src : Source Meta Payload) (c : Cache Meta Payload) (k v : ℕ)
      → k < to_u64 c.cfg.nkeys
      → c.slot_of k ≡ none
      → pick_victim c ≡ some v
      → IsRefused src c k (c.meta v)
      → reserve_step src c k [] ≡ next [] (set_meta c v (src.describe k (c.meta v)).meta)
  unfolding reserve_step has_key
  refused_step src c k v kin absent pick bad =
      let within : leb (to_u64 c.cfg.nkeys) k ≡ false = ground arith in
      rw (within, absent, pick) (refused_slot src c k v bad)

  refused_reserve :
      (src : Source Meta Payload) (c d : Cache Meta Payload) (k : ℕ)
      → reserve_step src c k [] ≡ next [] d
      → reserve src c (k ∷ []) [] ≡ ([], d)
  unfolding reserve
  refused_reserve src c d k e = rw (e, reserve) refl

  nothing_reserved :
      (src : Source Meta Payload) (c d : Cache Meta Payload) (ks : List ℕ)
      → reserve src c ks [] ≡ ([], d)
      → get_many src c ks ≡ (0, d)
  unfolding get_many
  nothing_reserved src c d ks e = rw (e, order-nil src) (unfold read_all publish_all in refl)

  refused_batch :
      (src : Source Meta Payload) (c : Cache Meta Payload) (k v : ℕ)
      → k < to_u64 c.cfg.nkeys
      → c.slot_of k ≡ none
      → pick_victim c ≡ some v
      → IsRefused src c k (c.meta v)
      → get_many src c (k ∷ []) ≡ (0, set_meta c v (src.describe k (c.meta v)).meta)
  refused_batch src c k v kin absent pick bad =
      nothing_reserved src c _ (k ∷ [])
        (refused_reserve src c _ k (refused_step src c k v kin absent pick bad))

  -- A batch that asks for one absent key, which is then refused, admits nothing; but if the victim
  -- held a key, the entry of that key now carries the metadata of the refused one.
  pub get_many-stale_meta :
      (src : Source Meta Payload) (c : Cache Meta Payload) (j k v : ℕ)
      → j < to_u64 c.cfg.nkeys
      → c.slot_of j ≡ some v
      → k < to_u64 c.cfg.nkeys
      → c.slot_of k ≡ none
      → pick_victim c ≡ some v
      → IsRefused src c k (c.meta v)
      → ((get_many src c (k ∷ [])).0 ≡ 0)
        × (peek (get_many src c (k ∷ [])).1 j
            ≡ some (record (entry_of c v) { meta = (src.describe k (c.meta v)).meta }))
  get_many-stale_meta src c j k v jin here kin absent pick bad =
      rw (refused_batch src c k v kin absent pick bad) (refl, peeked)
    where
      peeked :
          peek (set_meta c v (src.describe k (c.meta v)).meta) j
          ≡ some (record (entry_of c v) { meta = (src.describe k (c.meta v)).meta })
      peeked =
          unfold peek set_meta entry_of in
          let within : leb (to_u64 c.cfg.nkeys) j ≡ false = ground arith in
          let here' : (v == v) ≡ true = ground arith in rw (within, here, here') refl
