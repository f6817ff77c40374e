-- ===== src/Storage/Cache/Sound/Arrive.antt =====
-- The reads of a batch, `eng_cache_get_many` of src/storage/cache.c.
use multi_model_llm_engine.Base.{
  All, All-map, ℕ, ◌<◌, ◌≡◌, refl, Bool, true, none, arith, List, [], ◌∷◌, map, ap, subst, sym, ◌∙◌,
}
use multi_model_llm_engine.Base.Int.{ℤ, to_u64, to_i32}
use multi_model_llm_engine.Storage.Cache.Types.{SlotKey, Loaded, Source, Cache}
use multi_model_llm_engine.Storage.Cache.Admit.{land}
use multi_model_llm_engine.Storage.Cache.Batch.{Work, read_all}
use multi_model_llm_engine.Storage.Cache.Invariant.{IsFaithful, IsSound}
use multi_model_llm_engine.Storage.Cache.Sound.Moves.{land-IsSound}
use multi_model_llm_engine.Storage.Cache.Sound.Pending.{Apart, Distinct}
use multi_model_llm_engine.Storage.Cache.Sound.Reserve.{IsPending, Covers}

abbrev pub works : {Payload : Type 0} → List (Work × Loaded Payload) → List Work
works = map (λ x. x.0)

module _ {Meta Payload : Type 0} where
  -- A property that no read of the list breaks survives all of them.
  pub read_all_keeps {κ} :
      (src : Source Meta Payload) (Q : Cache Meta Payload → Type κ) (ws : List Work)
      (c : Cache Meta Payload)
      → All (λ w. (c' : Cache Meta Payload) (l : Loaded Payload) → Q c' → Q (land c' w.slot l)) ws
      → Q c
      → Q (read_all src c ws).1
  unfolding read_all
  read_all_keeps src Q [] c h q = q
  read_all_keeps src Q (w ∷ ws) c h q =
      let l = src.load w.key (c.meta w.slot) (c.arena w.slot) in
      read_all_keeps src Q ws (land c w.slot l) h.1 (h.0 c l q)

  pub works-read_all :
      (src : Source Meta Payload) (ws : List Work) (c : Cache Meta Payload)
      → works (read_all src c ws).0 ≡ ws
  unfolding read_all
  works-read_all src [] c = refl
  works-read_all src (w ∷ ws) c =
      ap (◌∷◌ w)
        (works-read_all src ws (land c w.slot (src.load w.key (c.meta w.slot) (c.arena w.slot))))

  pub land-Covers :
      (w : Work) (ws : List Work) (c : Cache Meta Payload) (l : Loaded Payload)
      → Covers c ws
      → Covers (land c w.slot l) ws
  unfolding land
  land-Covers w ws c l cov = cov

  module _ (good : ℕ → Payload → ℤ → ℤ → Bool) where
    -- A read that is over: its bytes lie in its slot, and they are the object's if all arrived.
    pub record HasArrived (c : Cache Meta Payload) (x : Work × Loaded Payload) : Type 0 where
      pub in_range : x.0.key < to_u64 c.cfg.nkeys
      pub in_arena : x.0.slot < c.nslot
      pub absent : c.slot_of x.0.key ≡ none
      pub busy : c.key_of x.0.slot ≡ SlotKey.inflight
      pub there : c.arena x.0.slot ≡ x.1.bytes
      pub right : x.1.got ≡ x.0.need → good x.0.key x.1.bytes (to_i32 x.1.pad) x.1.got ≡ true

    land-HasArrived :
        (x : Work × Loaded Payload) (w : Work)
        → Apart x.0 w
        → (c : Cache Meta Payload) (l : Loaded Payload) → HasArrived c x
        → HasArrived (land c w.slot l) x
    unfolding land
    land-HasArrived x w ap' c l h = record {
      in_range = h.in_range;
      in_arena = h.in_arena;
      absent = h.absent;
      busy = h.busy;
      there = ground (arith, h.there);
      right = h.right;
    }

    module _ (src : Source Meta Payload) (faithful : IsFaithful good src) where
      land-IsPending :
          (c : Cache Meta Payload) (slot : ℕ) (l : Loaded Payload) (w : Work)
          → IsPending src c w
          → IsPending src (land c slot l) w
      unfolding land
      land-IsPending c slot l w p = record {
        old = p.old;
        in_range = p.in_range;
        in_arena = p.in_arena;
        absent = p.absent;
        busy = p.busy;
        accepted = p.accepted;
        announced = p.announced;
        described = p.described;
      }

      read-HasArrived :
          (c : Cache Meta Payload) (w : Work)
          → IsPending src c w
          → let l = src.load w.key (c.meta w.slot) (c.arena w.slot) in
            HasArrived (land c w.slot l) (w, l)
      unfolding land
      read-HasArrived c w p = record {
        in_range = p.in_range;
        in_arena = p.in_arena;
        absent = p.absent;
        busy = p.busy;
        there = ground arith;
        right = right_at (c.meta w.slot) p.described;
      }
        where
          right_at :
              (m : Meta)
              → (src.describe w.key p.old).meta ≡ m
              → let l = src.load w.key m (c.arena w.slot) in
                l.got ≡ w.need → good w.key l.bytes (to_i32 l.pad) l.got ≡ true
          right_at m e =
              subst
                (λ m'.
                  let l = src.load w.key m' (c.arena w.slot) in
                  l.got ≡ w.need → good w.key l.bytes (to_i32 l.pad) l.got ≡ true)
                e
                (λ q.
                  faithful.delivers w.key p.old (c.arena w.slot) p.accepted (q ∙ sym p.announced))

      pub read_all-HasArrived :
          (ws : List Work) (c : Cache Meta Payload)
          → All (IsPending src c) ws
          → Distinct ws
          → All (HasArrived (read_all src c ws).1) (read_all src c ws).0
      unfolding read_all
      read_all-HasArrived [] c p d = tt
      read_all-HasArrived (w ∷ ws) c p d =
          let l = src.load w.key (c.meta w.slot) (c.arena w.slot) in
          let c₁ = land c w.slot l in
          (
            read_all_keeps src (λ c'. HasArrived c' (w, l)) ws c₁
                (All-map (Apart w) _ ws (λ x a. land-HasArrived (w, l) x a) d.0)
                (read-HasArrived c w p.0),
            read_all-HasArrived ws c₁
                (All-map (IsPending src c) (IsPending src c₁) ws
                  (λ x q. land-IsPending c w.slot l x q) p.1)
                d.1,
          )

      pub read_all-IsSound :
          (ws : List Work) (c : Cache Meta Payload)
          → All (IsPending src c) ws
          → IsSound good c
          → IsSound good (read_all src c ws).1
      unfolding read_all
      read_all-IsSound [] c p v = v
      read_all-IsSound (w ∷ ws) c p v =
          let l = src.load w.key (c.meta w.slot) (c.arena w.slot) in
          read_all-IsSound ws (land c w.slot l)
            (All-map (IsPending src c) (IsPending src (land c w.slot l)) ws
              (λ x q. land-IsPending c w.slot l x q) p.1)
            (land-IsSound good c w.slot l p.0.busy v)
