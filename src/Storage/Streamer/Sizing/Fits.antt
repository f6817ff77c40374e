-- ===== src/Storage/Streamer/Sizing/Fits.antt =====
-- The split that `eng_streamer_create` of src/storage/streamer.c computes stays within the budget.
use multi_model_llm_engine.Base.{
  ℕ, zero, suc, ◌+◌, ◌*◌, ◌≤◌, ◌<◌, ◌≡◌, ◌⊎◌, subst, inl, inr, none, some, List, [], ◌∷◌, ◌≢◌, ltb,
  ◌==◌, ◌&&◌, if◌then◌else◌, length, arith, Bool-cases, take,
}
use multi_model_llm_engine.Storage.Streamer.Sizing.{
  need, slot_for, shrink, pin_prefix, Split, pass, passes, sizing,
}

-- The bytes that the first blocks are given when they are pinned.
unfoldable pub pinned_bytes : ℕ → List ℕ → ℕ
pinned_bytes extra [] = 0
pinned_bytes extra (n ∷ ns) = need extra n + pinned_bytes extra ns

-- What the pin loop ends with, from `sp` spent on.
record IsPrefix (extra budget : ℕ) (blocks : List ℕ) (sp : ℕ) (out : ℕ × ℕ) : Type 0 where
  count : out.0 ≤ length blocks
  bytes : out.1 ≡ sp + pinned_bytes extra (take (out.0) blocks)
  fits : sp ≤ budget → out.1 ≤ budget

pin_prefix-IsPrefix :
    (extra budget : ℕ) (blocks : List ℕ) (sp : ℕ)
    → IsPrefix extra budget blocks sp (pin_prefix extra budget blocks sp)
unfolding pin_prefix pinned_bytes
pin_prefix-IsPrefix extra budget [] sp = record {
  count = omega arith;
  bytes = omega arith;
  fits = λ h. h;
}
pin_prefix-IsPrefix extra budget (n ∷ ns) sp = elim (Bool-cases (ltb budget (sp + need extra n))) [
  | inl e ↦ rw e (record { count = omega arith; bytes = omega arith; fits = λ h. h })
  | inr e ↦
      let rec = pin_prefix-IsPrefix extra budget ns (sp + need extra n) in
      rw e (record {
        count = omega (arith, rec.count);
        bytes = omega (arith, rec.bytes);
        fits = λ h. rec.fits (ground arith);
      })
]

-- `shrink` leaves at least one slot if there was one, at most as many as before, and ring slots that
-- fit the budget unless only one is left.
record IsRing (rs budget want ring : ℕ) : Type 0 where
  some_slot : 0 < want → 0 < ring
  within : ring ≤ want
  fits : (ring * rs ≤ budget) ⊎ (ring ≤ 1)

shrink-IsRing : (rs budget want : ℕ) → IsRing rs budget want (shrink rs budget want)
unfolding shrink
shrink-IsRing rs budget zero = record {
  some_slot = λ h. h;
  within = omega arith;
  fits = inr (omega arith);
}
shrink-IsRing rs budget (suc r) =
    let rec = shrink-IsRing rs budget r in
    elim (Bool-cases (ltb 1 (suc r) && ltb budget (suc r * rs))) [
      | inl e ↦ rw e (record {
        some_slot = λ _. rec.some_slot (ground arith);
        within = omega (arith, rec.within);
        fits = rec.fits;
      })
      | inr e ↦ rw e (record { some_slot = λ h. h; within = omega arith; fits = ground arith })
    ]

-- What a pass leaves: the bytes spent are the ring's and those of the pinned blocks.
record IsSplit (extra budget want : ℕ) (blocks : List ℕ) (s : Split) : Type 0 where
  count : s.npin ≤ length blocks
  some_slot : 0 < want → 0 < s.ring
  within : s.ring ≤ want
  bytes : s.spent ≡ s.ring * s.ring_slot + pinned_bytes extra (take s.npin blocks)
  fits : s.ring * s.ring_slot ≤ budget → s.spent ≤ budget

pass-IsSplit :
    (extra budget want : ℕ) (blocks : List ℕ) (s : Split)
    → IsSplit extra budget want blocks (pass extra budget want blocks s).1
unfolding pass
pass-IsSplit extra budget want blocks s =
    let rs = slot_for extra blocks s.npin in
    let r = shrink-IsRing rs budget want in
    let q = pin_prefix-IsPrefix extra budget blocks (shrink rs budget want * rs) in
    record {
      count = q.count;
      some_slot = r.some_slot;
      within = r.within;
      bytes = q.bytes;
      fits = q.fits;
    }

passes-keep :
    (extra budget want n : ℕ) (blocks : List ℕ) (s : Split)
    → IsSplit extra budget want blocks s
    → IsSplit extra budget want blocks (passes extra budget want n blocks s)
unfolding passes
passes-keep extra budget want zero blocks s h = h
passes-keep extra budget want (suc n) blocks s h =
    elim (Bool-cases (pass extra budget want blocks s).0) [
      | inl e ↦ rw (e, passes) (pass-IsSplit extra budget want blocks s)
      | inr e ↦
          rw (e, passes)
            (passes-keep extra budget want n blocks _ (pass-IsSplit extra budget want blocks s))
    ]

passes-IsSplit :
    (extra budget want n : ℕ) (blocks : List ℕ) (s : Split)
    → IsSplit extra budget want blocks (passes extra budget want (suc n) blocks s)
unfolding passes
passes-IsSplit extra budget want n blocks s =
    elim (Bool-cases (pass extra budget want blocks s).0) [
      | inl e ↦ rw (e, passes) (pass-IsSplit extra budget want blocks s)
      | inr e ↦
          rw (e, passes)
            (passes-keep extra budget want n blocks _ (pass-IsSplit extra budget want blocks s))
    ]

-- What `eng_streamer_create` promises of the split it goes on with.
pub record IsSized (extra budget ring_want : ℕ) (blocks : List ℕ) (s : Split) : Type 0 where
  pub count : s.npin ≤ length blocks
  pub some_slot : 0 < s.ring
  pub within : s.ring ≤ (if ring_want == 0 then 2 else ring_want)
  pub bytes : s.spent ≡ s.ring * s.ring_slot + pinned_bytes extra (take s.npin blocks)
  pub fits : s.spent ≤ budget

-- When the sizing of `eng_streamer_create` accepts a budget, the ring has at least one slot and at most
-- the number asked for, or two by default; the first `npin` blocks are pinned; and the bytes of the
-- ring and of the pinned blocks, which are those it counts as spent, are within the budget.
pub sizing-IsSized :
    (extra budget ring_want : ℕ) (blocks : List ℕ) (s : Split)
    → sizing extra budget ring_want blocks ≡ some s
    → IsSized extra budget ring_want blocks s
unfolding sizing
sizing-IsSized extra budget ring_want blocks s h = elim (Bool-cases (t.ring_slot == 0)) [
  | inl e ↦ absurd (none-some (rw e at h))
  | inr e ↦ elim (Bool-cases (ltb budget (t.ring * t.ring_slot))) [
    | inl f ↦ absurd (none-some (rw (e, f) at h))
    | inr f ↦
        subst (IsSized extra budget ring_want blocks) (some_injective (rw (e, f) at h)) (record {
          count = split.count;
          some_slot = split.some_slot (ground arith);
          within = split.within;
          bytes = split.bytes;
          fits = split.fits (ground arith);
        })
  ]
]
  where
    want : ℕ
    want = if ring_want == 0 then 2 else ring_want

    start : Split
    start = record { ring_slot = 0; npin = 0; ring = want; spent = 0 }

    t : Split
    t = passes extra budget want 4 blocks start

    split : IsSplit extra budget want blocks t
    split = passes-IsSplit extra budget want 3 blocks start

    none-some : none ≢ some s
    none-some e = ground arith

    some_injective : some t ≡ some s → t ≡ s
    some_injective e = cc
