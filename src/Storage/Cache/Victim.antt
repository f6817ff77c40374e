-- ===== src/Storage/Cache/Victim.antt =====
-- Which slot `pick_victim` of src/storage/cache.c chooses.
use multi_model_llm_engine.Base.{
  ℕ, zero, suc, ◌+◌, ◌-◌, ◌^◌, ◌≤◌, ◌<◌, ◌≡◌, ◌≢◌, ◌⊎◌, inl, inr, refl, Bool, true, false, not,
  ◌&&◌, Option, none, some, ltb, arith, Bool-cases, dec_lt,
}
use multi_model_llm_engine.Storage.Cache.Types.{SlotKey, Cache, scan, pick_victim}

pub SlotKey-cases :
    (x : SlotKey) → (x ≡ SlotKey.empty) ⊎ (x ≡ SlotKey.inflight) ⊎ ((k : ℕ) × (x ≡ SlotKey.holds k))
SlotKey-cases SlotKey.empty = inl refl
SlotKey-cases SlotKey.inflight = inr (inl refl)
SlotKey-cases (SlotKey.holds k) = inr (inr (k, refl))

module _ {Meta Payload : Type 0} where
  -- A slot that holds a key and is not pinned.
  unfoldable pub evictable : Cache Meta Payload → ℕ → Bool
  evictable c s = elim (c.key_of s) [ SlotKey.holds _ ↦ not (c.pinned s) | _ ↦ false ]

  -- No slot below `i` is empty.
  abbrev pub NoEmpty : Cache Meta Payload → ℕ → Type 0
  NoEmpty c i = (s : ℕ) → s < i → c.key_of s ≢ SlotKey.empty

  -- Every evictable slot below `i` was used at `t` or later.
  abbrev pub NotBefore : Cache Meta Payload → ℕ → ℕ → Type 0
  NotBefore c i t = (s : ℕ) → s < i → evictable c s ≡ true → t ≤ c.used_at s

  -- The choice: an empty slot, else the evictable slot that was used least recently, else none.
  abbrev pub Picked : Cache Meta Payload → Option ℕ → Type 0
  Picked c none = NoEmpty c c.nslot × NotBefore c c.nslot (2 ^ 64 - 1)
  Picked c (some v) =
      (v < c.nslot)
      × ((c.key_of v ≡ SlotKey.empty)
          ⊎ ((evictable c v ≡ true) × NoEmpty c c.nslot × NotBefore c c.nslot (c.used_at v)))

  -- What the loop knows of the slots below `i`.
  abbrev Best : Cache Meta Payload → Option ℕ → ℕ → ℕ → Type 0
  Best c none i oldest = oldest ≡ 2 ^ 64 - 1
  Best c (some v) i oldest = (v < i) × (evictable c v ≡ true) × (c.used_at v ≡ oldest)

  abbrev Scanned : Cache Meta Payload → ℕ → Option ℕ → ℕ → Type 0
  Scanned c i best oldest = NoEmpty c i × NotBefore c i oldest × Best c best i oldest

  Scanned-Picked :
      (c : Cache Meta Payload) (best : Option ℕ) (i oldest : ℕ)
      → i ≡ c.nslot
      → Scanned c i best oldest
      → Picked c best
  Scanned-Picked c none i oldest e h =
      (λ s lt. h.0 s (omega arith), λ s lt p. ground (arith, h.1 s (omega arith) p))
  Scanned-Picked c (some v) i oldest e h = (
    omega arith,
    inr (h.2.1, λ s lt. h.0 s (omega arith), λ s lt p. ground (arith, h.1 s (omega arith) p)),
  )

  -- One round at a slot that is not empty, which the loop keeps or passes over.
  Scanned-keep :
      (c : Cache Meta Payload) (best : Option ℕ) (i oldest : ℕ)
      → c.key_of i ≢ SlotKey.empty
      → (evictable c i && ltb (c.used_at i) oldest) ≡ false
      → Scanned c i best oldest
      → Scanned c (i + 1) best oldest
  Scanned-keep c best i oldest full skip h = (
    λ s lt e. elim (dec_lt s i) [ yes p ↦ h.0 s p e | no p ↦ ground arith ],
    λ s lt q. elim (dec_lt s i) [ yes p ↦ h.1 s p q | no p ↦ ground arith ],
    Best-later best h.2,
  )
    where
      Best-later : (b : Option ℕ) → Best c b i oldest → Best c b (i + 1) oldest
      Best-later none d = d
      Best-later (some v) d = (omega arith, d.1, d.2)

  Scanned-take :
      (c : Cache Meta Payload) (best : Option ℕ) (i oldest : ℕ)
      → c.key_of i ≢ SlotKey.empty
      → (evictable c i && ltb (c.used_at i) oldest) ≡ true
      → Scanned c i best oldest
      → Scanned c (i + 1) (some i) (c.used_at i)
  Scanned-take c best i oldest full take h = (
    λ s lt e. elim (dec_lt s i) [ yes p ↦ h.0 s p e | no p ↦ ground arith ],
    λ s lt q. elim (dec_lt s i) [ yes p ↦ ground (arith, h.1 s p q) | no p ↦ ground arith ],
    (omega arith, ground arith, refl),
  )

  scan-Picked :
      (c : Cache Meta Payload) (n i : ℕ) (best : Option ℕ) (oldest : ℕ)
      → i + n ≡ c.nslot
      → Scanned c i best oldest
      → Picked c (scan c n i best oldest)
  unfolding scan evictable
  scan-Picked c zero i best oldest e h = Scanned-Picked c best i oldest (omega arith) h
  scan-Picked c (suc n) i best oldest e h = elim (SlotKey-cases (c.key_of i)) [
    | inl q ↦ rw (q, scan) (omega arith, inl q)
    | inr (inl q) ↦
        rw (q, scan)
          (scan-Picked c n (i + 1) best oldest (omega arith)
            (Scanned-keep c best i oldest (ground arith) (ground arith) h))
    | inr (inr (k, q)) ↦ elim (Bool-cases (not (c.pinned i) && ltb (c.used_at i) oldest)) [
      | inl t ↦
          rw (q, scan, t)
            (scan-Picked c n (i + 1) (some i) (c.used_at i) (omega arith)
              (Scanned-take c best i oldest (ground arith) (ground arith) h))
      | inr t ↦
          rw (q, scan, t)
            (scan-Picked c n (i + 1) best oldest (omega arith)
              (Scanned-keep c best i oldest (ground arith) (ground arith) h))
    ]
  ]

  -- A slot that `pick_victim` takes is in range, and is empty or is the least recently used of the slots
  -- that hold a key and are not pinned, with no slot empty. It takes none only if no slot is empty and
  -- every slot that holds an unpinned key carries the largest stamp.
  pub pick_victim_lru : (c : Cache Meta Payload) → Picked c (pick_victim c)
  unfolding pick_victim
  pick_victim_lru c =
      scan-Picked c c.nslot 0 none (2 ^ 64 - 1) (omega arith)
        (λ s lt. absurd (omega arith), λ s lt. absurd (omega arith), refl)
