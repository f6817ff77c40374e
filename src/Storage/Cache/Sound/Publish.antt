-- ===== src/Storage/Cache/Sound/Publish.antt =====
-- The publication of a batch, and the whole of `eng_cache_get_many` of src/storage/cache.c.
use multi_model_llm_engine.Base.{
  All, All-any, ℕ, inl, inr, Bool, arith, Bool-cases, List, [], ◌∷◌, is_some,
}
use multi_model_llm_engine.Base.Int.{ℤ, eq_ℤ, eq_ℤ_iff}
use multi_model_llm_engine.Storage.Cache.Types.{Loaded, Source, Cache}
use multi_model_llm_engine.Storage.Cache.Admit.{publish, abandon}
use multi_model_llm_engine.Storage.Cache.Batch.{
  Work, order, reserve, read_all, publish_one, publish_all, get_many,
}
use multi_model_llm_engine.Storage.Cache.Invariant.{IsFaithful, IsSound, IsQuiet}
use multi_model_llm_engine.Storage.Cache.Sound.Moves.{publish-IsSound, abandon-IsSound}
use multi_model_llm_engine.Storage.Cache.Sound.Pending.{
  Apart, Distinct, All-sort_work, Distinct-sort_work, has_slot-sort_work,
}
use multi_model_llm_engine.Storage.Cache.Sound.Reserve.{
  IsPending, Covers, AreReserved, reserve-AreReserved,
}
use multi_model_llm_engine.Storage.Cache.Sound.Arrive.{
  works, HasArrived, read_all_keeps, works-read_all, land-Covers, read_all-IsSound,
  read_all-HasArrived,
}

module _ {Meta Payload : Type 0} (good : ℕ → Payload → ℤ → ℤ → Bool) where
  -- What the third phase keeps, with the reads `done` still to publish.
  pub record ToPublish (c : Cache Meta Payload) (done : List (Work × Loaded Payload)) : Type 0 where
    pub sound : IsSound good c
    pub arrived : All (HasArrived good c) done
    pub distinct : Distinct (works done)
    pub covers : Covers c (works done)

  -- Publishing one read leaves the others as they were.
  publish_one-HasArrived :
      (c : Cache Meta Payload) (w : Work) (l : Loaded Payload) (x : Work × Loaded Payload)
      → Apart w x.0
      → HasArrived good c x
      → HasArrived good (publish_one c w l).1 x
  unfolding publish_one publish abandon
  publish_one-HasArrived c w l x a h = elim (Bool-cases (eq_ℤ l.got w.need)) [
    | inl e ↦ rw e (record {
      in_range = h.in_range;
      in_arena = h.in_arena;
      absent = ground (arith, h.absent);
      busy = ground (arith, h.busy);
      there = h.there;
      right = h.right;
    })
    | inr e ↦ rw e (record {
      in_range = h.in_range;
      in_arena = h.in_arena;
      absent = h.absent;
      busy = ground (arith, h.busy);
      there = h.there;
      right = h.right;
    })
  ]

  publish_one-IsSound :
      (c : Cache Meta Payload) (w : Work) (l : Loaded Payload)
      → HasArrived good c (w, l)
      → IsSound good c
      → IsSound good (publish_one c w l).1
  unfolding publish_one
  publish_one-IsSound c w l h v = elim (Bool-cases (eq_ℤ l.got w.need)) [
    | inl e ↦ rw e (
        counted (publish c w.slot w.key l) (
          publish-IsSound good c w.key w.slot l h.in_range h.in_arena h.absent h.busy
            (rw h.there (h.right ((eq_ℤ_iff l.got w.need).0 e))) v))
    | inr e ↦ rw e (abandon-IsSound good c w.slot h.busy v)
  ]
    where
      counted :
          (c' : Cache Meta Payload) {n : ℕ}
          → IsSound good c'
          → IsSound good (record c' { prefetch_reads = n })
      counted c' v' = assumption

  publish_one-Covers :
      (c : Cache Meta Payload) (w : Work) (l : Loaded Payload) (ws : List Work)
      → Covers c (w ∷ ws)
      → Covers (publish_one c w l).1 ws
  unfolding publish_one publish abandon
  publish_one-Covers c w l ws cov s lt e = ground (arith, cov s)

  rest_arrived :
      (c : Cache Meta Payload) (w : Work) (l : Loaded Payload) (xs : List (Work × Loaded Payload))
      → All (Apart w) (works xs)
      → All (HasArrived good c) xs
      → All (HasArrived good (publish_one c w l).1) xs
  rest_arrived c w l [] a h = tt
  rest_arrived c w l (x ∷ xs) a h =
      (publish_one-HasArrived c w l x a.0 h.0, rest_arrived c w l xs a.1 h.1)

  publish_one-ToPublish :
      (c : Cache Meta Payload) (w : Work) (l : Loaded Payload) (rest : List (Work × Loaded Payload))
      → ToPublish c ((w, l) ∷ rest)
      → ToPublish (publish_one c w l).1 rest
  publish_one-ToPublish c w l rest t = record {
    sound = publish_one-IsSound c w l t.arrived.0 t.sound;
    arrived = rest_arrived c w l rest t.distinct.0 t.arrived.1;
    distinct = t.distinct.1;
    covers = publish_one-Covers c w l (works rest) t.covers;
  }

  publish_all-IsSound :
      (done : List (Work × Loaded Payload)) (c : Cache Meta Payload)
      → ToPublish c done
      → IsSound good (publish_all c done).1 × IsQuiet (publish_all c done).1
  unfolding publish_all
  publish_all-IsSound [] c t = (t.sound, λ s lt e. ground (arith, t.covers s lt e))
  publish_all-IsSound ((w, l) ∷ rest) c t =
      publish_all-IsSound rest (publish_one c w l).1 (publish_one-ToPublish c w l rest t)

  -- A property that publishing one read keeps survives the third phase.
  pub publish_all_keeps {κ} :
      (Q : Cache Meta Payload → Type κ)
      → ((c : Cache Meta Payload) (w : Work) (l : Loaded Payload)
          → HasArrived good c (w, l)
          → Q c
          → Q (publish_one c w l).1)
      → (done : List (Work × Loaded Payload)) (c : Cache Meta Payload) → ToPublish c done
      → Q c
      → Q (publish_all c done).1
  unfolding publish_all
  publish_all_keeps Q keep [] c t q = q
  publish_all_keeps Q keep ((w, l) ∷ rest) c t q =
      publish_all_keeps Q keep rest (publish_one c w l).1 (publish_one-ToPublish c w l rest t)
        (keep c w l t.arrived.0 q)

  order-AreReserved :
      (src : Source Meta Payload) (c : Cache Meta Payload) (ws : List Work)
      → AreReserved src c ws
      → AreReserved src c (order src ws)
  unfolding order
  order-AreReserved src c ws r = elim (Bool-cases (is_some src.locate)) [
    | inl e ↦ rw e (record {
      pending = All-sort_work (IsPending src c) ws r.pending;
      distinct = Distinct-sort_work ws r.distinct;
      covers = λ s lt q. rw (has_slot-sort_work s ws) (r.covers s lt q);
    })
    | inr e ↦ rw e r
  ]

  read_all-ToPublish :
      (src : Source Meta Payload) (c : Cache Meta Payload) (ws : List Work)
      → IsFaithful good src
      → IsSound good c
      → AreReserved src c ws
      → ToPublish (read_all src c ws).1 (read_all src c ws).0
  read_all-ToPublish src c ws faithful v r = record {
    sound = read_all-IsSound good src faithful ws c r.pending v;
    arrived = read_all-HasArrived good src faithful ws c r.pending r.distinct;
    distinct = rw (works-read_all src ws c) r.distinct;
    covers = rw (works-read_all src ws c) (
        read_all_keeps src (λ c'. Covers c' ws) ws c (All-any ws (λ w. land-Covers w ws)) r.covers);
  }

  -- The state of a batch before its reads and before its publication.
  pub batch_states :
      (src : Source Meta Payload) (c : Cache Meta Payload) (keys : List ℕ)
      → IsFaithful good src
      → IsSound good c
      → IsQuiet c
      → let c₁ = (reserve src c keys []).1 in
        let ws = order src (reserve src c keys []).0 in
        AreReserved src c₁ ws × ToPublish (read_all src c₁ ws).1 (read_all src c₁ ws).0
  batch_states src c keys faithful v quiet =
      let (v₁, r) =
        reserve-AreReserved src good keys c [] v
          (record { pending = tt; distinct = tt; covers = λ s lt e. absurd (quiet s lt e) }) in
      let c₁ = (reserve src c keys []).1 in
      let r' = order-AreReserved src c₁ (reserve src c keys []).0 r in
      (r', read_all-ToPublish src c₁ (order src (reserve src c keys []).0) faithful v₁ r')

  -- A batch on a sound cache, started with no read under way and with callbacks that keep their
  -- contract, leaves a sound cache with no slot marked as being read into: whatever keys are asked
  -- for, refused, or fall short.
  pub get_many-IsSound :
      (src : Source Meta Payload) (c : Cache Meta Payload) (keys : List ℕ)
      → IsFaithful good src
      → IsSound good c
      → IsQuiet c
      → IsSound good (get_many src c keys).1 × IsQuiet (get_many src c keys).1
  unfolding get_many
  get_many-IsSound src c keys faithful v quiet =
      publish_all-IsSound _ _ (batch_states src c keys faithful v quiet).1
