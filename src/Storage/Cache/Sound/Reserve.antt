-- ===== src/Storage/Cache/Sound/Reserve.antt =====
-- The first phase of `eng_cache_get_many` of src/storage/cache.c keeps the invariant.
use multi_model_llm_engine.Base.{
  All, All-map, All-snoc, ℕ, ◌<◌, ◌≡◌, inl, inr, refl, Bool, true, false, ◌||◌, none, arith,
  Bool-cases, Option-cases, List, [], ◌∷◌, ◌++◌, leb, is_some, length,
}
use multi_model_llm_engine.Base.Int.{ℤ, to_u64, ltb_ℤ}
use multi_model_llm_engine.Storage.Cache.Types.{
  SlotKey, Described, Source, Cache, pick_victim, max_batch, evict,
}
use multi_model_llm_engine.Storage.Cache.Admit.{set_meta}
use multi_model_llm_engine.Storage.Cache.Batch.{
  Work, Reserved, stop, next, has_key, mark, place, reserve_slot, reserve_step, reserve,
}
use multi_model_llm_engine.Storage.Cache.Victim.{evictable}
use multi_model_llm_engine.Storage.Cache.Rule.{IsFree, pick_victim-IsFree}
use multi_model_llm_engine.Storage.Cache.Invariant.{IsSound}
use multi_model_llm_engine.Storage.Cache.Sound.Moves.{set_meta-IsSound, mark-IsSound}
use multi_model_llm_engine.Storage.Cache.Sound.Pending.{
  Apart, Distinct, Distinct-snoc, has_slot, has_slot-snoc,
}

module _ {Meta Payload : Type 0} where
  -- Every marked slot is reserved.
  abbrev pub Covers : Cache Meta Payload → List Work → Type 0
  Covers c ws = (s : ℕ) → s < c.nslot → c.key_of s ≡ SlotKey.inflight → has_slot ws s ≡ true

module _ {Meta Payload : Type 0} (src : Source Meta Payload) where
  -- A reservation: the slot is marked, the key is absent, and the metadata is what the key was
  -- described with.
  pub record IsPending (c : Cache Meta Payload) (w : Work) : Type 0 where
    pub old : Meta
    pub in_range : w.key < to_u64 c.cfg.nkeys
    pub in_arena : w.slot < c.nslot
    pub absent : c.slot_of w.key ≡ none
    pub busy : c.key_of w.slot ≡ SlotKey.inflight
    pub accepted : (src.describe w.key old).accepted ≡ true
    pub announced : (src.describe w.key old).need ≡ w.need
    pub described : (src.describe w.key old).meta ≡ c.meta w.slot

  pub record AreReserved (c : Cache Meta Payload) (ws : List Work) : Type 0 where
    pub pending : All (IsPending c) ws
    pub distinct : Distinct ws
    pub covers : Covers c ws

  -- Marking a free slot leaves other reservations alone.
  mark-IsPending :
      (c : Cache Meta Payload) (slot : ℕ) (m : Meta) (w : Work)
      → IsFree c slot
      → IsPending c w
      → IsPending (mark (set_meta c slot m) slot) w
  unfolding mark evict set_meta evictable
  mark-IsPending c slot m w fr p = record {
    old = p.old;
    in_range = ground (arith, p.in_range);
    in_arena = ground (arith, p.in_arena);
    absent = ground (arith, p.absent);
    busy = ground (arith, p.busy);
    accepted = p.accepted;
    announced = p.announced;
    described = ground (arith, p.described, p.busy);
  }

  set_meta-IsPending :
      (c : Cache Meta Payload) (slot : ℕ) (m : Meta) (w : Work)
      → IsFree c slot
      → IsPending c w
      → IsPending (set_meta c slot m) w
  unfolding set_meta evictable
  set_meta-IsPending c slot m w fr p = record {
    old = p.old;
    in_range = p.in_range;
    in_arena = p.in_arena;
    absent = p.absent;
    busy = p.busy;
    accepted = p.accepted;
    announced = p.announced;
    described = ground (arith, p.described, p.busy);
  }

  mark-new :
      (c : Cache Meta Payload) (slot : ℕ) (w : Work) (old : Meta)
      → w.key < to_u64 c.cfg.nkeys
      → w.slot < c.nslot
      → c.slot_of w.key ≡ none
      → (src.describe w.key old).accepted ≡ true
      → (src.describe w.key old).need ≡ w.need
      → slot ≡ w.slot
      → IsPending (mark (set_meta c slot (src.describe w.key old).meta) slot) w
  unfolding mark evict set_meta
  mark-new c slot w old kin sin absent acc ann here = record {
    old = old;
    in_range = ground arith;
    in_arena = ground arith;
    absent = ground arith;
    busy = ground arith;
    accepted = acc;
    announced = ann;
    described = ground arith;
  }

  mark-Covers :
      (c : Cache Meta Payload) (m : Meta) (ws : List Work) (w : Work)
      → Covers c ws
      → Covers (mark (set_meta c w.slot m) w.slot) (ws ++ (w ∷ []))
  unfolding mark evict set_meta
  mark-Covers c m ws w cov s lt e = rw (has_slot-snoc ws w s) (ground (arith, cov s))

  -- A new reservation is apart from the old ones.
  Apart-new :
      (c : Cache Meta Payload) (ws : List Work) (w : Work)
      → has_key ws w.key ≡ false
      → IsFree c w.slot
      → All (IsPending c) ws
      → All (λ x. Apart x w) ws
  unfolding has_key evictable
  Apart-new c [] w nk fr h = tt
  Apart-new c (x ∷ ws) w nk fr h =
      ((λ e. ground (arith, h.0.busy), λ e. ground arith), Apart-new c ws w (ground arith) fr h.1)

  module _ (good : ℕ → Payload → ℤ → ℤ → Bool) where
    -- What the first phase keeps.
    abbrev Reserving : Reserved Meta Payload → Type 0
    Reserving stop = Unit {0}
    Reserving (next ws c) = IsSound good c × AreReserved c ws

    set_meta-mark-IsSound :
        (c : Cache Meta Payload) (slot : ℕ) (m : Meta)
        → slot < c.nslot
        → IsFree c slot
        → IsSound good c
        → IsSound good (mark (set_meta c slot m) slot)
    unfolding set_meta evictable
    set_meta-mark-IsSound c slot m sin fr v =
        mark-IsSound good (set_meta c slot m) slot sin fr (set_meta-IsSound good c slot m v)

    reserve_slot-Reserving :
        (c : Cache Meta Payload) (k slot : ℕ) (ws : List Work)
        → k < to_u64 c.cfg.nkeys
        → c.slot_of k ≡ none
        → has_key ws k ≡ false
        → slot < c.nslot
        → IsFree c slot
        → IsSound good c
        → AreReserved c ws
        → Reserving (reserve_slot src c k ws slot)
    unfolding reserve_slot
    reserve_slot-Reserving c k slot ws kin absent nk sin fr v r = elim (Bool-cases d.accepted) [
      | inr no_key ↦ rw no_key given_up
      | inl a ↦ elim (Bool-cases (ltb_ℤ c.cfg.slot_bytes d.need)) [
        | inl big ↦ rw (a, big) given_up
        | inr fits ↦ rw (a, fits) (taken a)
      ]
    ]
      where
        d : Described Meta
        d = src.describe k (c.meta slot)

        w : Work
        w = record {
          slot = slot;
          key = k;
          need = d.need;
          device = (place src d.meta).0;
          offset = (place src d.meta).1;
        }

        given_up : IsSound good (set_meta c slot d.meta) × AreReserved (set_meta c slot d.meta) ws
        given_up = (
          set_meta-IsSound good c slot d.meta v,
          record {
            pending =
                All-map (IsPending c) (IsPending (set_meta c slot d.meta)) ws
                  (λ x p. set_meta-IsPending c slot d.meta x fr p) r.pending;
            distinct = r.distinct;
            covers = unfold set_meta in r.covers;
          },
        )

        taken :
            d.accepted ≡ true
            → IsSound good (mark (set_meta c slot d.meta) slot)
              × AreReserved (mark (set_meta c slot d.meta) slot) (ws ++ (w ∷ []))
        taken a = (
          set_meta-mark-IsSound c slot d.meta sin fr v,
          record {
            pending =
                All-snoc (IsPending (mark (set_meta c slot d.meta) slot)) ws w
                  (All-map (IsPending c) (IsPending (mark (set_meta c slot d.meta) slot)) ws
                    (λ x p. mark-IsPending c slot d.meta x fr p) r.pending)
                  (mark-new c slot w (c.meta slot) kin sin absent a refl refl);
            distinct = Distinct-snoc ws w r.distinct (Apart-new c ws w nk fr r.pending);
            covers = mark-Covers c d.meta ws w r.covers;
          },
        )

    reserve_step-Reserving :
        (c : Cache Meta Payload) (k : ℕ) (ws : List Work)
        → IsSound good c
        → AreReserved c ws
        → Reserving (reserve_step src c k ws)
    unfolding reserve_step
    reserve_step-Reserving c k ws v r = elim (Bool-cases (leb max_batch (length ws))) [
      | inl e ↦ rw e tt
      | inr e ↦
          elim (Bool-cases (leb (to_u64 c.cfg.nkeys) k || is_some (c.slot_of k) || has_key ws k)) [
            | inl skip ↦ rw (e, skip) (v, r)
            | inr go ↦ elim (Option-cases (pick_victim c)) [
              | inl q ↦ rw (e, go, q) tt
              | inr (slot, q) ↦
                  let h = pick_victim-IsFree c slot q in
                  rw (e, go, q)
                    (reserve_slot-Reserving c k slot ws (ground arith) (ground arith) (ground arith)
                      h.0 h.1 v r)
            ]
          ]
    ]

    -- The loop ends, or goes on as in `next`.
    reserve-onwards :
        (c : Cache Meta Payload) (k : ℕ) (ks : List ℕ) (ws : List Work) (o : Reserved Meta Payload)
        → reserve_step src c k ws ≡ o
        → IsSound good c
        → AreReserved c ws
        → Reserving o
        → ((c' : Cache Meta Payload) (ws' : List Work)
            → IsSound good c'
            → AreReserved c' ws'
            → let r = reserve src c' ks ws' in IsSound good r.1 × AreReserved r.1 r.0)
        → let r = reserve src c (k ∷ ks) ws in IsSound good r.1 × AreReserved r.1 r.0
    unfolding reserve
    reserve-onwards c k ks ws stop e v r h ih = rw (e, reserve) (v, r)
    reserve-onwards c k ks ws (next ws' c') e v r h ih = rw (e, reserve) (ih c' ws' h.0 h.1)

    pub reserve-AreReserved :
        (ks : List ℕ) (c : Cache Meta Payload) (ws : List Work)
        → IsSound good c
        → AreReserved c ws
        → let r = reserve src c ks ws in IsSound good r.1 × AreReserved r.1 r.0
    unfolding reserve
    reserve-AreReserved [] c ws v r = (v, r)
    reserve-AreReserved (k ∷ ks) c ws v r =
        reserve-onwards c k ks ws (reserve_step src c k ws) refl v r
          (reserve_step-Reserving c k ws v r) (reserve-AreReserved ks)
